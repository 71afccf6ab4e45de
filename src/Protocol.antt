-- ===== src/Protocol.antt =====
-- src/sentry_mode/satellites/protocol.py: what a satellite publishes. A moment is a number of ticks of
-- the wall clock.
use sentry_mode.Prelude.{ℕ, String, Bool, Option}
use sentry_mode.Source.{Quality, ClockStatus}
use sentry_mode.Trigger.{Value}

pub record SatelliteEvent : Type 0 where
  pub event_id : String
  pub node_id : String
  pub source_id : String
  pub boot_id : String
  pub sequence : ℕ
  pub kind : String
  pub occurred_at : ℕ
  pub clock_status : ClockStatus
  pub value : Value
  pub unit : Option String
  pub quality : Quality

-- `Delivery`: how this copy of the event reached the hub.
pub record Delivery : Type 0 where
  pub connection_id : String
  pub hub_epoch : ℕ
  pub queued_ms : ℕ
  pub replayed : Bool
  pub initial_state : Bool

pub record EventEnvelope : Type 0 where
  pub event : SatelliteEvent
  pub delivery : Delivery
