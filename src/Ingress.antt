-- ===== src/Ingress.antt =====
-- src/sentry_mode/satellites/ingress.py: the one door that events come in by.
-- A moment is a number of ticks of the wall clock; `now` and `monotonic` are the two clocks' readings
-- during the call. `model_validate` is the library's validation of a document, `none` its refusal.
pub mod Limiter
pub mod Live
mod Cases
pub mod Marks
pub mod Settled
pub use sentry_mode.Protocol.{SatelliteEvent, Delivery, EventEnvelope}
use sentry_mode.Prelude.{
  ℕ, ◌+◌, String, Bool, true, false, not, ◌&&◌, ◌||◌, Option, none, some, ltb, leb, max, is_none,
  ◌==◌, ◌!=◌, string_eq, if◌then◌else◌,
}
use sentry_mode.Source.{
  Quality, ClockStatus, SourceRef, SourceRecord, make_ref, ref_id, is_disabled,
}
use sentry_mode.Source.Registry.{Registry}
use sentry_mode.Source.Registry
use sentry_mode.Trigger.{Value}
use sentry_mode.Journal.{
  TimeState, fine, uncertain, Mark, Classification, live, initial, historic, rejected, Reason,
  Entry, Contents, Store, Disk, Admission, Result, ok, unavailable, sqlite_error, admit, mark,
}

-- The two limits of `LimitsConfig` that the door reads.
pub record Limits : Type 0 where
  pub accept_within_seconds : ℕ
  pub future_tolerance_seconds : ℕ

pub record NormalizedEvent : Type 0 where
  pub ref : SourceRef
  pub event_id : String
  pub boot_id : String
  pub sequence : ℕ
  pub kind : String
  pub value : Value
  pub unit : Option String
  pub quality : Quality
  pub clock_status : ClockStatus
  pub zone : Option String
  pub occurred_at : ℕ
  pub received_at : ℕ
  pub received_monotonic : ℕ
  pub queued_ms : ℕ
  pub hub_epoch : ℕ
  pub connection_id : Option String
  pub classification : Classification
  pub eligible : Bool
  pub reason : Option Reason

-- What the door did with one message; `settle` says whether the node may let it go.
pub record Receipt : Type 0 where
  pub classification : Classification
  pub eligible : Bool
  pub stored : Bool
  pub reason : Option Reason
  pub event : Option NormalizedEvent
  pub waited_ms : Option ℕ
  pub settle : Bool

abbrev pub refused : Classification → Reason → Bool → Receipt
refused c reason settle = record {
  classification = c;
  eligible = false;
  stored = false;
  reason = some reason;
  event = none;
  waited_ms = none;
  settle = settle;
}

-- `age < -future_tolerance`, or a clock that is not synced.
unfoldable pub clock_bad : Limits → SatelliteEvent → ℕ → Bool
clock_bad limits e now =
    elim e.clock_status [ ClockStatus.synced ↦ false | _ ↦ true ]
    || ltb (now + limits.future_tolerance_seconds) e.occurred_at

abbrev pub is_uncertain : TimeState → Bool
is_uncertain uncertain = true
is_uncertain fine = false

-- `max(mark.high_water, event.sequence)`, where `none` is -1
abbrev pub ahead : Option ℕ → ℕ → ℕ
ahead none sequence = sequence
ahead (some high) sequence = max high sequence

-- `event.sequence <= mark.high_water`
abbrev pub not_ahead : ℕ → Option ℕ → Bool
not_ahead sequence none = false
not_ahead sequence (some high) = leb sequence high

abbrev pub Verdict : Type 0
Verdict = Classification × Option Reason × Mark

-- Where a source had got to, starting again when the board has restarted.
abbrev pub blank : String → String → String → Mark
blank node_id source_id boot_id = record {
  node_id = node_id;
  source_id = source_id;
  boot_id = boot_id;
  high_water = none;
  baseline_taken = false;
  time_state = fine;
  last_occurred_at = none;
}

abbrev resumed : String → String → String → Option Mark → Mark
resumed node_id source_id boot_id none = blank node_id source_id boot_id
resumed node_id source_id boot_id (some known) =
    if known.boot_id != boot_id then blank node_id source_id boot_id else known

unfoldable pub position : Store → Disk → String → String → String → Result Mark
position s disk node_id source_id boot_id = elim (mark s disk node_id source_id) [
  | ok known ↦ ok (resumed node_id source_id boot_id known)
  | unavailable ↦ unavailable
  | sqlite_error ↦ sqlite_error
]

abbrev pub fresh_mark : Mark → SatelliteEvent → Bool → Mark
fresh_mark m e bad = record m {
  high_water = some (ahead m.high_water e.sequence);
  baseline_taken = true;
  time_state = if bad then uncertain else fine;
  last_occurred_at = some e.occurred_at;
}

abbrev pub moved_mark : Mark → SatelliteEvent → Bool → Mark
moved_mark m e doubtful = record m {
  high_water = some (ahead m.high_water e.sequence);
  time_state = if doubtful then uncertain else m.time_state;
  last_occurred_at = some e.occurred_at;
}

-- Say what this event is. Only one answer, `live`, may reach a rule.
unfoldable pub classify : Limits → SatelliteEvent → Delivery → Mark → Bool → ℕ → Verdict
unfolding clock_bad
classify limits e d m retained now =
    let bad = clock_bad limits e now in
    let doubtful = bad || is_uncertain m.time_state in
    let moved = moved_mark m e doubtful in
    if retained
    then (historic, some Reason.retained, m)
    else if d.initial_state
    then (initial, some Reason.initial_state, fresh_mark m e bad)
    else if d.replayed
    then (historic, some Reason.replayed, moved)
    else if doubtful
    then (historic, some Reason.time_uncertain, moved)
    else if ltb (e.occurred_at + limits.accept_within_seconds) now
    then (historic, some Reason.expired, moved)
    else if not_ahead e.sequence m.high_water
    then (historic, some Reason.out_of_order, moved)
    else (live, none, moved)

abbrev pub node_of : SourceRef → String
node_of r = elim r.node [ none ↦ "" | some n ↦ n ]

abbrev pub entry_of : NormalizedEvent → Entry
entry_of n = record {
  node_id = node_of n.ref;
  source_id = n.ref.name;
  event_id = n.event_id;
  boot_id = n.boot_id;
  sequence = n.sequence;
  kind = n.kind;
  value = n.value;
  unit = n.unit;
  quality = n.quality;
  clock_status = n.clock_status;
  zone = n.zone;
  occurred_at = n.occurred_at;
  received_at = n.received_at;
  received_monotonic = n.received_monotonic;
  queued_ms = n.queued_ms;
  hub_epoch = n.hub_epoch;
  connection_id = n.connection_id;
  classification = n.classification;
  eligible = n.eligible;
  reason = n.reason;
}

abbrev pub stored_receipt : NormalizedEvent → Receipt
stored_receipt n = record {
  classification = n.classification;
  eligible = n.eligible;
  stored = true;
  reason = n.reason;
  event = if n.eligible then some n else none;
  waited_ms = some n.queued_ms;
  settle = true;
}

abbrev pub answered : NormalizedEvent → Result Admission → Receipt
answered n unavailable = refused rejected Reason.store_unavailable false
answered n sqlite_error = refused rejected Reason.store_unavailable false
answered n (ok Admission.stored) = stored_receipt n
answered n (ok Admission.duplicate) = refused historic Reason.duplicate true
answered n (ok Admission.id_reused) = refused historic Reason.id_reused true
answered n (ok Admission.sequence_reused) = refused historic Reason.sequence_reused true

-- `admit` raises nothing but StoreUnavailable, so the answer to `sqlite_error` is never given.
-- Commit before anything is acknowledged, and say so if the commit did not happen.
unfoldable pub write : (Contents → String) → Store → Disk → NormalizedEvent → Mark → Store × Receipt
write digest s disk n m =
    let (s', outcome) = admit digest s disk (entry_of n) (some m) in (s', answered n outcome)

-- `record.zone or self._zone_of(node_id)`; a zone is never the empty text.
abbrev zone_or : Option String → Option String → Option String
zone_or none other = other
zone_or (some z) other = some z

abbrev pub normalized :
    SourceRef
    → SourceRecord
    → (String → Option String)
    → String
    → EventEnvelope
    → ℕ
    → ℕ
    → Verdict
    → NormalizedEvent
normalized ref known zone_of node_id v now monotonic (classification, reason, m) = record {
  ref = ref;
  event_id = v.event.event_id;
  boot_id = v.event.boot_id;
  sequence = v.event.sequence;
  kind = v.event.kind;
  value = v.event.value;
  unit = v.event.unit;
  quality = v.event.quality;
  clock_status = v.event.clock_status;
  zone = zone_or known.zone (zone_of node_id);
  occurred_at = v.event.occurred_at;
  received_at = now;
  received_monotonic = monotonic;
  queued_ms = v.delivery.queued_ms;
  hub_epoch = v.delivery.hub_epoch;
  connection_id = some v.delivery.connection_id;
  classification = classification;
  eligible = is_none reason;
  reason = reason;
}

-- The hub's side of the door: its tables, its settings and the readings of its clocks. SQLite may
-- fail in the first transaction of a call and not in the second.
pub record Hub : Type 0 where
  pub sources : Registry
  pub limits : Limits
  pub zone_of : String → Option String
  pub digest : Contents → String
  pub now : ℕ
  pub monotonic : ℕ
  pub reading : Disk
  pub writing : Disk

abbrev decided :
    Hub
    → Store
    → String
    → EventEnvelope
    → Bool
    → SourceRef
    → SourceRecord
    → Result Mark
    → Store × Option Receipt
decided hub s node_id v retained ref known unavailable =
    (s, some (refused rejected Reason.store_unavailable false))
decided hub s node_id v retained ref known sqlite_error = (s, none)
decided hub s node_id v retained ref known (ok m) =
    let verdict = classify hub.limits v.event v.delivery m retained hub.now in
    let event = normalized ref known hub.zone_of node_id v hub.now hub.monotonic verdict in
    let (s', receipt) = write hub.digest s hub.writing event verdict.2 in (s', some receipt)

abbrev registered :
    Hub
    → Store
    → String
    → EventEnvelope
    → Bool
    → SourceRef
    → Option SourceRecord
    → Store × Option Receipt
registered hub s node_id v retained ref none =
    (s, some (refused rejected Reason.unregistered_source true))
registered hub s node_id v retained ref (some known) =
    if is_disabled known.state
    then (s, some (refused rejected Reason.source_disabled true))
    else decided hub s node_id v retained ref known
        (position s hub.reading node_id v.event.source_id v.event.boot_id)

abbrev named :
    Hub → Store → String → EventEnvelope → Bool → Option SourceRef → Store × Option Receipt
named hub s node_id v retained none = (s, some (refused rejected Reason.unregistered_source true))
named hub s node_id v retained (some ref) =
    registered hub s node_id v retained ref (Registry.get hub.sources (ref_id ref))

abbrev enveloped : Hub → Store → String → Bool → Option EventEnvelope → Store × Option Receipt
enveloped hub s node_id retained none = (s, some (refused rejected Reason.invalid_envelope true))
enveloped hub s node_id retained (some v) =
    if v.event.node_id != node_id
    then (s, some (refused rejected Reason.identity_mismatch true))
    else named hub s node_id v retained (make_ref (some node_id) v.event.source_id)

-- Decide what one message is, write it down, and say whether it may be acted on. `none` is the
-- error of SQLite that `Store.mark` does not turn into StoreUnavailable.
unfoldable pub accept {ℓ} :
    {Document : Type ℓ}
    → (Document → Option EventEnvelope)
    → Hub
    → Store
    → String
    → Document
    → Bool
    → Store × Option Receipt
accept model_validate hub s node_id document retained =
    enveloped hub s node_id retained (model_validate document)
