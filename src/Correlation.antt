-- ===== src/Correlation.antt =====
-- src/sentry_mode/sentry/correlation.py: a sensor event confirmed by a camera.
pub mod Window
pub mod Confirmation
pub mod Traces
use sentry_mode.Prelude.{
  ℕ, ◌+◌, ◌-◌, String, Bool, true, false, not, ◌&&◌, ◌||◌, Option, none, some, List, [], ◌∷◌, ◌++◌,
  ltb, leb, min, is_some, is_none, ◌==◌, ◌!=◌, string_eq, nat_eq, option_eq, if◌then◌else◌,
}
use sentry_mode.Source.{Quality, quality_eq}
use sentry_mode.Rule.{SequenceTrigger}
use sentry_mode.Trigger.{Observed, Candidate, RuleState, cooled, is_for, sensor_fires}

-- A note is the pair of a kind and a message. A constructor stands for each message of the source
-- and holds what its text shows of the call; the trigger's own names are not repeated.
pub data Note : Type 0 where
  expired : Note
  cancelled : String → Quality → Note
  skipped_zone : String → String → Note
  skipped_latched : String → Note
  waiting : String → Note
  rearmed : Note
  detected : ℕ → Note
  skipped_cooling : Note
  triggered : ℕ → Note

abbrev pub Outcome : Type 0
Outcome = RuleState × List Note

abbrev closed : RuleState → RuleState
closed s = record s { candidate = none; hits = 0 }

abbrev expire_candidate : RuleState → ℕ → Option Candidate → Outcome
expire_candidate s now none = (s, [])
expire_candidate s now (some c) = if leb now c.deadline then (s, []) else (closed s, expired ∷ [])

-- Close a candidate whose window has run out by `now`.
unfoldable pub expire : RuleState → ℕ → Outcome
expire s now = expire_candidate s now s.candidate

-- Close a candidate because what it relied on can no longer be trusted.
unfoldable pub drop : RuleState → String → Quality → Outcome
drop s source quality =
    if is_none s.candidate then (s, []) else (closed s, cancelled source quality ∷ [])

-- `now <= state.opened_until`, which is -inf before the first window.
abbrev pub is_late : ℕ → Option ℕ → Bool
is_late now none = false
is_late now (some t) = leb now t

-- `trigger.same_zone and None not in (zone, camera_zone) and zone != camera_zone`
abbrev pub wrong_zone : Bool → Option String → Option String → Bool
wrong_zone same zone camera_zone =
    same && (is_some zone && is_some camera_zone) && zone != camera_zone

abbrev pub shown : Option String → String
shown none = ""
shown (some z) = z

abbrev opened_by : SequenceTrigger → RuleState → Observed → RuleState
opened_by t s e = record s {
  candidate = some (record {
    opened = e.received_monotonic;
    deadline = e.received_monotonic + t.within_seconds;
    event_id = e.event_id;
    zone = e.zone;
  });
  opened_until = some e.received_monotonic;
  hits = 0;
}

-- What follows the expiry in `sequence_event`.
abbrev considered : SequenceTrigger → Observed → Option String → Outcome → Outcome
considered t e camera_zone (s, notes) =
    if e.quality != Quality.valid
    then (let (s', more) = drop s t.sensor.source_id e.quality in (s', notes ++ more))
    else if not (sensor_fires t.sensor e)
    then (s, notes)
    else if is_late e.received_monotonic s.opened_until
    then (s, notes)
    else if is_some s.candidate
    then (s, notes)
    else if wrong_zone t.same_zone e.zone camera_zone
    then (s, notes ++ skipped_zone (shown e.zone) (shown camera_zone) ∷ [])
    else if s.latched
    then (s, notes ++ skipped_latched e.kind ∷ [])
    else (opened_by t s e, notes ++ waiting e.kind ∷ [])

-- A sensor event through a sequence rule. Opens a candidate, or explains why not.
unfoldable pub sequence_event : SequenceTrigger → RuleState → Observed → Option String → Outcome
unfolding drop
sequence_event t s e camera_zone =
    if not (is_for t.sensor.source_id t.sensor.kind e)
    then (s, [])
    else considered t e camera_zone (expire s e.received_monotonic)

-- A sample with too few matching objects.
abbrev absent : SequenceTrigger → ℕ → ℕ → RuleState → List Note → Outcome
absent t captured since s notes =
    if s.latched && leb (since + t.vision.rearm_after_absence_seconds) captured
    then (record s { latched = false }, notes ++ rearmed ∷ [])
    else (s, notes)

abbrev pub since_or : ℕ → Option ℕ → ℕ
since_or now none = now
since_or now (some t) = t

-- `candidate is None or captured <= candidate.opened`
abbrev pub unconfirmable : ℕ → Option Candidate → Bool
unconfirmable captured none = true
unconfirmable captured (some c) = leb captured c.opened

abbrev pub opened_at : Option Candidate → ℕ
opened_at none = 0
opened_at (some c) = c.opened

-- The confirmation is complete: it is used once, and fires unless the rule is cooling down.
abbrev confirmed : ℕ → ℕ → ℕ → RuleState → List Note → Outcome
confirmed captured cooldown opened s notes =
    if not (cooled s cooldown captured) then (closed s, notes ++ skipped_cooling ∷ []) else (
      record s { candidate = none; hits = 0; latched = true; last_trigger = some captured },
      notes ++ triggered (captured - opened) ∷ [],
    )

abbrev counted : SequenceTrigger → ℕ → ℕ → ℕ → RuleState → List Note → Outcome
counted t count captured cooldown s notes =
    let hits = min t.vision.consecutive_detections (1 + s.hits) in
    let notes' = if hits == 1 then notes ++ detected count ∷ [] else notes in
    if ltb hits t.vision.consecutive_detections
    then (record s { hits = hits }, notes')
    else confirmed captured cooldown (opened_at s.candidate) (record s { hits = hits }) notes'

abbrev sampled : SequenceTrigger → ℕ → ℕ → ℕ → Outcome → Outcome
sampled t count captured cooldown (s, notes) =
    if ltb count t.vision.min_count
    then absent t captured (since_or captured s.absent_since)
        (record s { hits = 0; absent_since = some (since_or captured s.absent_since) }) notes
    else if s.latched || unconfirmable captured s.candidate
    then (record s { absent_since = none; hits = 0 }, notes)
    else counted t count captured cooldown (record s { absent_since = none }) notes

-- One camera sample through a sequence rule. Fires when it completes the confirmation.
unfoldable pub sequence_sample : SequenceTrigger → RuleState → ℕ → ℕ → ℕ → Outcome
sequence_sample t s count captured cooldown = sampled t count captured cooldown (expire s captured)

-- A `triggered` note among those of one call.
abbrev pub is_triggered : Note → Bool
is_triggered (triggered after) = true
is_triggered _ = false
