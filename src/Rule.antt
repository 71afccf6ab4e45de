-- ===== src/Rule.antt =====
-- src/sentry_mode/sentry/config.py: what sets a rule off and what it does, as saved and validated.
-- Seconds are counted in ticks of the node's monotonic clock; measurements are integers in a fixed
-- unit; confidences and image coordinates are natural numbers in a fixed unit.
pub mod Action
use sentry_mode.Prelude.{
  ℕ, String, Bool, true, false, not, ◌&&◌, Option, none, some, List, [], ◌∷◌, Eq, discrete_eq, ltb,
  leb, string_eq, contains,
}
use sentry_mode.Prelude.Int.{ℤ}

pub data Edge : Type 0 where
  rising falling any : Edge

pub record SensorEventTrigger : Type 0 where
  pub source_id : String
  pub kind : String
  pub edge : Edge

-- Left, top, right, bottom.
pub record Region : Type 0 where
  pub left : ℕ
  pub top : ℕ
  pub right : ℕ
  pub bottom : ℕ

pub record VisionTrigger : Type 0 where
  pub source_id : String
  pub object : String
  pub min_confidence : ℕ
  pub min_count : ℕ
  pub consecutive_detections : ℕ
  pub rearm_after_absence_seconds : ℕ
  pub region : Option Region

-- `region`: `one` is the far edge of the picture.
unfoldable pub valid_region : ℕ → Region → Bool
valid_region one r = ltb r.left r.right && leb r.right one && ltb r.top r.bottom && leb r.bottom one

-- A limit is a value to stay below, or one to stay above.
pub data Limit : Type 0 where
  above below : ℤ → Limit

-- `one_limit`: exactly one of the two; `none` is a ValidationError.
unfoldable pub one_limit : Option ℤ → Option ℤ → Option Limit
one_limit (some a) none = some (above a)
one_limit none (some b) = some (below b)
one_limit (some a) (some b) = none
one_limit none none = none

pub record ThresholdTrigger : Type 0 where
  pub source_id : String
  pub kind : String
  pub limit : Limit
  pub hysteresis : ℕ
  pub for_seconds : ℕ

pub record AudioEventTrigger : Type 0 where
  pub source_id : String
  pub kind : String
  pub min_level : Option ℕ

pub data Presence : Type 0 where
  present absent unknown : Presence

pub Presence-discrete : Discrete Presence
Presence-discrete = hlevel

instance abbrev pub presence_eq : Eq Presence
presence_eq = discrete_eq Presence-discrete

pub record PresenceStateTrigger : Type 0 where
  pub source_id : String
  pub state : Presence
  pub kind : String
  pub observers : List String

-- `distinct`: each observer is named once.
unfoldable pub distinct : List String → Bool
distinct [] = true
distinct (x ∷ xs) = not (contains x xs) && distinct xs

pub record HealthEventTrigger : Type 0 where
  pub node_id : String

pub data TimeBasis : Type 0 where
  hub_observation capture : TimeBasis

pub record SequenceTrigger : Type 0 where
  pub within_seconds : ℕ
  pub time_basis : TimeBasis
  pub same_zone : Bool
  pub sensor : SensorEventTrigger
  pub vision : VisionTrigger

pub data Trigger : Type 0 where
  vision : VisionTrigger → Trigger
  sensor_event : SensorEventTrigger → Trigger
  threshold : ThresholdTrigger → Trigger
  sequence : SequenceTrigger → Trigger
  audio_event : AudioEventTrigger → Trigger
  presence_state : PresenceStateTrigger → Trigger
  health_event : HealthEventTrigger → Trigger

-- `trigger.type not in ARMABLE_TRIGGERS` is the other answer.
unfoldable pub is_armable : Trigger → Bool
is_armable (health_event t) = false
is_armable _ = true

unfoldable pub trigger_camera : Trigger → Option String
trigger_camera (vision t) = some t.source_id
trigger_camera (sequence t) = some t.vision.source_id
trigger_camera _ = none

unfoldable pub trigger_parts : Trigger → List Trigger
trigger_parts (sequence t) = sensor_event t.sensor ∷ vision t.vision ∷ []
trigger_parts t = t ∷ []
