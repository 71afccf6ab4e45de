-- ===== src/Trigger.antt =====
-- src/sentry_mode/sentry/triggers.py: when a rule goes off, one state machine per kind of trigger.
pub mod Threshold
pub mod Observers
use sentry_mode.Prelude.{
  ℕ, ◌+◌, ◌*◌, String, Bool, true, false, not, ◌&&◌, ◌||◌, Option, none, some, List, [], ◌∷◌, ltb,
  leb, ◌==◌, ◌!=◌, string_eq, if◌then◌else◌, contains, map, all,
}
use sentry_mode.Prelude.Int.{ℤ, pos, ltb_ℤ, leb_ℤ, ◌+ℤ◌, ◌-ℤ◌}
use sentry_mode.Prelude.Dict.{Dict, lookup, insert}
use sentry_mode.Source.{Quality, quality_eq}
use sentry_mode.Rule.{
  Edge, SensorEventTrigger, Region, VisionTrigger, Limit, above, below, ThresholdTrigger,
  AudioEventTrigger, Presence, present, absent, presence_eq, PresenceStateTrigger,
}

-- What a reading may be: `None`, a truth value, a number, or a text.
pub data Value : Type 0 where
  nothing : Value
  truth : Bool → Value
  number : ℤ → Value
  text : String → Value

-- The parts of a normalized satellite event that a trigger looks at.
pub record Observed : Type 0 where
  pub ref_id : String
  pub kind : String
  pub value : Value
  pub quality : Quality
  pub received_monotonic : ℕ
  pub zone : Option String
  pub event_id : String

pub data Phase : Type 0 where
  unknown clear pending active : Phase

-- A sensor event waiting for the camera to confirm it (correlation.py).
pub record Candidate : Type 0 where
  pub opened : ℕ
  pub deadline : ℕ
  pub event_id : String
  pub zone : Option String

-- `none` in `last_trigger` and `opened_until` is the source's -inf. `phase` is where a threshold
-- stands, `presence` where a device stands: the source keeps both words in one field, of which a
-- rule's trigger uses one meaning.
pub record RuleState : Type 0 where
  pub hits : ℕ
  pub latched : Bool
  pub absent_since : Option ℕ
  pub last_trigger : Option ℕ
  pub phase : Phase
  pub presence : Presence
  pub pending_since : Option ℕ
  pub seen : Dict Presence
  pub candidate : Option Candidate
  pub opened_until : Option ℕ

abbrev pub initial : RuleState
initial = record {
  hits = 0;
  latched = false;
  absent_since = none;
  last_trigger = none;
  phase = unknown;
  presence = Presence.unknown;
  pending_since = none;
  seen = [];
  candidate = none;
  opened_until = none;
}

-- `now - last_trigger >= cooldown`
unfoldable pub cooled : RuleState → ℕ → ℕ → Bool
cooled s cooldown now = elim s.last_trigger [ none ↦ true | some t ↦ leb (t + cooldown) now ]

pub record Detection : Type 0 where
  pub label : String
  pub confidence : ℕ
  pub box : Region

-- The centre (x1 + x2) / 2 is compared doubled.
unfoldable pub detection_matches : VisionTrigger → Detection → Bool
detection_matches t d =
    if d.label != t.object || ltb d.confidence t.min_confidence then false else elim t.region [
      | none ↦ true
      | some r ↦
          leb (2 * r.left) (d.box.left + d.box.right)
          && leb (d.box.left + d.box.right) (2 * r.right)
          && (leb (2 * r.top) (d.box.top + d.box.bottom)
              && leb (d.box.top + d.box.bottom) (2 * r.bottom))
    ]

unfoldable pub is_for : String → String → Observed → Bool
is_for source_id kind e = e.ref_id == source_id && e.kind == kind

-- `event.value is b` for a truth value `b`
abbrev pub is_truth : Bool → Value → Bool
is_truth true (truth true) = true
is_truth false (truth false) = true
is_truth _ _ = false

abbrev pub is_bool : Value → Bool
is_bool (truth b) = true
is_bool _ = false

abbrev in_direction : Edge → Value → Bool
in_direction Edge.rising v = is_truth true v
in_direction Edge.falling v = is_truth false v
in_direction Edge.any v = true

unfoldable pub sensor_fires : SensorEventTrigger → Observed → Bool
unfolding is_for
sensor_fires t e =
    if not (is_for t.source_id t.kind e) || e.quality != Quality.valid
    then false
    else if not (is_bool e.value)
    then false
    else in_direction t.edge e.value

unfoldable pub sound_fires : AudioEventTrigger → Observed → Bool
unfolding is_for
sound_fires t e = is_for t.source_id t.kind e && e.quality == Quality.valid && is_truth true e.value

-- Presence -------------------------------------------------------------------------------------

-- What an observer's event says of the device: `unknown` unless it is a good reading of a word.
abbrev word : Value → Presence
word (text w) =
    if w == "present" then present else if w == "absent" then absent else Presence.unknown
word _ = Presence.unknown

unfoldable pub said : Observed → Presence
said e = if e.quality == Quality.valid then word e.value else Presence.unknown

abbrev pub watching : PresenceStateTrigger → List String
watching t = t.source_id ∷ t.observers

abbrev heard : Option Presence → Presence
heard none = Presence.unknown
heard (some p) = p

-- `state.seen.get(one, UNKNOWN)`
unfoldable pub said_by : Dict Presence → String → Presence
said_by seen one = heard (lookup one seen)

unfoldable pub combined : List Presence → Presence
combined ps =
    if contains present ps
    then present
    else if all (λ p. p == absent) ps
    then absent
    else Presence.unknown

-- The end of `presence_fires`: the new status, and whether it is the one that the rule asks for.
abbrev pub conclude : PresenceStateTrigger → RuleState → Dict Presence → Presence → RuleState × Bool
conclude t s seen after =
    (record s { seen = seen; presence = after }, after != s.presence && after == t.state)

unfoldable pub presence_fires : PresenceStateTrigger → RuleState → Observed → RuleState × Bool
presence_fires t s e =
    if not (contains e.ref_id (watching t)) || e.kind != t.kind
    then (s, false)
    else (let seen = insert e.ref_id (said e) s.seen in
        conclude t s seen (combined (map (said_by seen) (watching t))))

-- Thresholds -----------------------------------------------------------------------------------

abbrev number_of : Value → Option ℤ
number_of (number x) = some x
number_of _ = none

-- `_number`: a good reading of a number; a truth value is none.
unfoldable pub reading : Observed → Option ℤ
reading e = if e.quality == Quality.valid then number_of e.value else none

unfoldable pub past : Limit → ℤ → Bool
past (above a) x = ltb_ℤ a x
past (below b) x = ltb_ℤ x b

unfoldable pub released : Limit → ℕ → ℤ → Bool
released (above a) hysteresis x = leb_ℤ x (a -ℤ pos hysteresis)
released (below b) hysteresis x = leb_ℤ (b +ℤ pos hysteresis) x

-- A doubtful reading: a wait in progress starts again.
abbrev interrupted : RuleState → Phase → RuleState
interrupted s pending = record s { phase = clear; pending_since = none }
interrupted s _ = s

-- The end of `threshold_fires`. The outer `none` is the failure of
-- `assert state.pending_since is not None`.
abbrev waited : ThresholdTrigger → RuleState → ℕ → Option ℕ → Option (RuleState × Bool)
waited t s now none = none
waited t s now (some since) = some (
    if leb (since + t.for_seconds) now
    then (record s { phase = active; pending_since = none }, true)
    else (s, false))

abbrev pub at_phase :
    ThresholdTrigger → RuleState → ℕ → Bool → Bool → Phase → Option (RuleState × Bool)
at_phase t s now is_past is_released unknown =
    some (record s { phase = if is_past then active else clear }, false)
at_phase t s now is_past is_released active =
    some (if is_released then record s { phase = clear } else s, false)
at_phase t s now is_past is_released clear =
    if is_past
    then waited t (record s { phase = pending; pending_since = some now }) now (some now)
    else some (record s { phase = clear; pending_since = none }, false)
at_phase t s now is_past is_released pending =
    if is_past
    then waited t s now s.pending_since
    else some (record s { phase = clear; pending_since = none }, false)

abbrev on_reading : ThresholdTrigger → RuleState → ℕ → Option ℤ → Option (RuleState × Bool)
on_reading t s now none = some (interrupted s s.phase, false)
on_reading t s now (some x) =
    at_phase t s now (past t.limit x) (released t.limit t.hysteresis x) s.phase

unfoldable pub threshold_fires : ThresholdTrigger → RuleState → Observed → Option (RuleState × Bool)
unfolding is_for reading past released ◌+ℤ◌ ◌-ℤ◌
threshold_fires t s e =
    if is_for t.source_id t.kind e
    then on_reading t s e.received_monotonic (reading e)
    else some (s, false)
