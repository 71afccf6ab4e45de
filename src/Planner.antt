-- ===== src/Planner.antt =====
-- src/sentry_mode/sentry/resources.py: what arming a set of rules needs, and what stands in its way.
-- A set is a list and a message is a constructor. Confidences are counted in a unit, of which `default`
-- are 0.7 and `one` are 1.0. The names in a rule are valid, as its validators leave them, so that
-- `SourceRef.parse` does not raise and the reference of a name has that name as its identifier.

pub mod Usable
pub mod Readiness
pub mod Armed
use sentry_mode.Prelude.{
  ℕ, String, Bool, true, false, not, ◌&&◌, ◌||◌, Option, none, some, List, [], ◌∷◌, ◌++◌, map, any,
  keep, contains, ◌==◌, ◌!=◌, string_eq, option_eq, if◌then◌else◌, is_none, is_some, min,
}
use sentry_mode.Prelude.Dict.{Dict, lookup, insert}
use sentry_mode.Source.{SourceKind, kind_eq, SourceRecord, is_disabled, partition}
use sentry_mode.Source.Registry.{Registry, record_id}
use sentry_mode.Rule.{
  Trigger, vision, sensor_event, threshold, sequence, audio_event, presence_state, health_event,
  is_armable, trigger_camera, trigger_parts, SequenceTrigger, VisionTrigger, AudioEventTrigger,
  PresenceStateTrigger, TimeBasis, capture, hub_observation,
}
use sentry_mode.Rule.Action.{
  Action, photo, video, audio, RuleV2, VideoAction, AudioAction, PhotoAction, microphone,
  primary_camera, primary_microphone, trigger_source,
}

-- A photo or a video of the camera that set the rule off gets the name of that camera.
abbrev named : Option String → String → String
named camera source_id = elim camera [
  | none ↦ source_id
  | some c ↦ if source_id == trigger_source then c else source_id
]

unfoldable pub resolve : RuleV2 → Action → Action
resolve rule (photo a) =
    photo (record a { source_id = named (trigger_camera rule.trigger) a.source_id })
resolve rule (video a) =
    video (record a { source_id = named (trigger_camera rule.trigger) a.source_id })
resolve rule action = action

unfoldable pub resolved : RuleV2 → List Action
resolved rule = map (resolve rule) rule.actions

-- What the message of a problem says.
pub data Message : Type 0 where
  not_available_yet capture_time no_level : Message
  satellites_off unknown_source disabled : String → Message
  other_kind : String → SourceKind → SourceKind → Message
  not_watchable not_recordable no_devices no_sounds only_primary not_heard : String → Message
  no_zone : String → Message
  other_zone : String → String → Message
  names_no_camera : Message

pub record Problem : Type 0 where
  pub rule_id : String
  pub rule_name : String
  pub message : Message

-- The rule whose video is recorded without sound, or the camera kept running for actions.
pub data Note : Type 0 where
  without_sound : String → String → Note
  camera_runs : Note

pub record Planner : Type 0 where
  pub sources : Registry
  pub satellites_enabled : Bool
  pub cameras : List String
  pub microphones : List String

abbrev pub detector_name : String
detector_name = "detector"

-- `not SourceRef.parse(source_id).is_local`
abbrev pub is_remote : String → Bool
is_remote source_id = is_some (partition source_id).1

abbrev pub refusal : String → SourceKind → Option SourceRecord → Option Message
refusal source_id kind none = some (unknown_source source_id)
refusal source_id kind (some r) =
    if r.kind != kind
    then some (other_kind source_id r.kind kind)
    else if is_disabled r.state
    then some (disabled source_id)
    else none

-- `_check`: none where the source can be used.
unfoldable pub check : Planner → String → SourceKind → Option Message
check p source_id kind =
    if is_remote source_id && not p.satellites_enabled
    then some (satellites_off source_id)
    else refusal source_id kind (lookup source_id p.sources)

-- What `plan` collects, `used` for one rule at a time.
pub record Draft : Type 0 where
  pub problems : List Problem
  pub used : List String
  pub watched : List String
  pub detector : Bool
  pub camera_for_actions : Bool
  pub confidences : List ℕ
  pub vision : Dict ℕ
  pub ready : List String
  pub notes : List Note

unfoldable pub failed : RuleV2 → Message → Draft → Draft
failed rule message d = record d {
  problems =
      d.problems ++ (record { rule_id = rule.id; rule_name = rule.name; message = message } ∷ []);
}

-- `if wrong: fail(message)`
unfoldable pub fail_if : Bool → RuleV2 → Message → Draft → Draft
fail_if wrong rule message d = if wrong then failed rule message d else d

abbrev pub using : String → Draft → Draft
using source_id d = record d { used = source_id ∷ d.used }

abbrev pub watching : String → Draft → Draft
watching source_id d = record d { watched = source_id ∷ d.watched }

-- A source is used, and goes on to the rest where it can be used.
unfoldable pub checked : Planner → RuleV2 → String → SourceKind → (Draft → Draft) → Draft → Draft
checked p rule source_id kind next d = elim (check p source_id kind) [
  | some message ↦ failed rule message (using source_id d)
  | none ↦ next (using source_id d)
]

abbrev or_one : ℕ → Option ℕ → ℕ
or_one one none = one
or_one one (some c) = c

unfoldable pub look : ℕ → Planner → RuleV2 → VisionTrigger → Draft → Draft
look one p rule t d =
    let d' = using detector_name d in
    if t.source_id == primary_camera
    then record d' { detector = true; confidences = d.confidences ++ (t.min_confidence ∷ []) }
    else if contains t.source_id p.cameras
    then record d' {
      vision =
          insert t.source_id (min t.min_confidence (or_one one (lookup t.source_id d.vision)))
            d.vision;
    }
    else failed rule (not_watchable t.source_id) d'

unfoldable pub observe : Planner → RuleV2 → List String → Draft → Draft
observe p rule [] d = d
observe p rule (observer ∷ rest) d =
    observe p rule rest (checked p rule observer SourceKind.presence (watching observer) d)

unfoldable pub await : Planner → RuleV2 → PresenceStateTrigger → Draft → Draft
await p rule t d = watching t.source_id (
    fail_if (not (is_remote t.source_id)) rule (no_devices t.source_id)
      (observe p rule t.observers d))

unfoldable pub hear : RuleV2 → AudioEventTrigger → Draft → Draft
hear rule t d = watching t.source_id (
    fail_if (not (is_remote t.source_id)) rule (no_sounds t.source_id)
      (fail_if (is_some t.min_level) rule no_level d))

-- One of `trigger_parts`; a sequence has no sequence among them.
unfoldable pub part : ℕ → Planner → RuleV2 → Trigger → Draft → Draft
part one p rule (vision t) d = checked p rule t.source_id SourceKind.camera (look one p rule t) d
part one p rule (sensor_event t) d =
    checked p rule t.source_id SourceKind.sensor (watching t.source_id) d
part one p rule (threshold t) d =
    checked p rule t.source_id SourceKind.sensor (watching t.source_id) d
part one p rule (presence_state t) d =
    checked p rule t.source_id SourceKind.presence (await p rule t) d
part one p rule (audio_event t) d = checked p rule t.source_id SourceKind.microphone (hear rule t) d
part one p rule (health_event t) d = d
part one p rule (sequence t) d = d

unfoldable pub parts : ℕ → Planner → RuleV2 → List Trigger → Draft → Draft
parts one p rule [] d = d
parts one p rule (t ∷ ts) d = parts one p rule ts (part one p rule t d)

abbrev pub is_capture : TimeBasis → Bool
is_capture capture = true
is_capture hub_observation = false

-- none where the zones are the same, or a source is unknown.
unfoldable pub zones : Option SourceRecord → Option SourceRecord → Option Message
zones none camera = none
zones (some sensor) none = none
zones (some sensor) (some camera) = elim sensor.zone [
  | none ↦ some (no_zone (record_id sensor))
  | some z ↦ elim camera.zone [
    | none ↦ some (no_zone (record_id camera))
    | some z' ↦ if z != z' then some (other_zone (record_id sensor) (record_id camera)) else none
  ]
]

abbrev pub fail_for : Option Message → RuleV2 → Draft → Draft
fail_for none rule d = d
fail_for (some message) rule d = failed rule message d

-- `_sequence`
unfoldable pub in_sequence : Planner → RuleV2 → SequenceTrigger → Draft → Draft
in_sequence p rule t d =
    let d' = fail_if (is_capture t.time_basis) rule capture_time d in
    if not t.same_zone
    then d'
    else fail_for
        (zones (lookup t.sensor.source_id p.sources) (lookup t.vision.source_id p.sources)) rule d'

abbrev pub if_sequence : Planner → RuleV2 → Trigger → Draft → Draft
if_sequence p rule (sequence t) d = in_sequence p rule t d
if_sequence p rule _ d = d

-- A camera that an action records from.
unfoldable pub record_from : Planner → RuleV2 → String → Draft → Draft
record_from p rule source_id d =
    if source_id == primary_camera
    then record d { camera_for_actions = true }
    else if contains source_id p.cameras
    then record d { ready = source_id ∷ d.ready }
    else failed rule (not_recordable source_id) d

abbrev pub is_heard : Planner → String → Bool
is_heard p m = m == primary_microphone || contains m p.microphones

abbrev pub deaf : String → Message
deaf m = if is_remote m then not_heard m else only_primary m

unfoldable pub listen : Planner → RuleV2 → Option String → Draft → Draft
listen p rule none d = d
listen p rule (some m) d =
    checked p rule m SourceKind.microphone (fail_if (not (is_heard p m)) rule (deaf m)) d

abbrev is_note : String → String → Note → Bool
is_note rule_name source_id (without_sound a b) = a == rule_name && b == source_id
is_note rule_name source_id camera_runs = false

abbrev pub note_silence : RuleV2 → VideoAction → Draft → Draft
note_silence rule v d =
    if v.audio && is_none (microphone v) && not (any (is_note rule.name v.source_id) d.notes)
    then record d { notes = d.notes ++ (without_sound rule.name v.source_id ∷ []) }
    else d

-- A photo or video after `resolve`, and the rest of its turn.
unfoldable pub film : Planner → RuleV2 → String → (Draft → Draft) → Draft → Draft
film p rule source_id rest d =
    if source_id == trigger_source
    then failed rule names_no_camera d
    else rest (checked p rule source_id SourceKind.camera (record_from p rule source_id) d)

-- One turn of the loop of `_actions`.
unfoldable pub act : Planner → RuleV2 → Action → Draft → Draft
act p rule (photo a) d = film p rule a.source_id (λ d. d) d
act p rule (video a) d =
    film p rule a.source_id (λ d. listen p rule (microphone a) (note_silence rule a d)) d
act p rule (audio a) d = listen p rule (some a.audio_source_id) d
act p rule _ d = d

unfoldable pub act_all : Planner → RuleV2 → List Action → Draft → Draft
act_all p rule [] d = d
act_all p rule (a ∷ rest) d = act_all p rule rest (act p rule a d)

-- One turn of the loop of `plan`, up to `needs`.
unfoldable pub plan_rule : ℕ → Planner → RuleV2 → Draft → Draft
plan_rule one p rule d = act_all p rule (resolved rule) (
    parts one p rule (trigger_parts rule.trigger) (
      if_sequence p rule rule.trigger
        (fail_if (not (is_armable rule.trigger)) rule not_available_yet (record d { used = [] }))))

abbrev pub empty_draft : Draft
empty_draft = record {
  problems = [];
  used = [];
  watched = [];
  detector = false;
  camera_for_actions = false;
  confidences = [];
  vision = [];
  ready = [];
  notes = [];
}

unfoldable pub plan_rules :
    ℕ → Planner → List RuleV2 → Draft → Dict (List String) → Draft × Dict (List String)
plan_rules one p [] d needs = (d, needs)
plan_rules one p (rule ∷ rules) d needs =
    let d' = plan_rule one p rule d in plan_rules one p rules d' (insert rule.id d'.used needs)

pub record Plan : Type 0 where
  pub detector : Bool
  pub camera : Bool
  pub min_confidence : ℕ
  pub vision : Dict ℕ
  pub ready : List String
  pub watched : List String
  pub needs : Dict (List String)
  pub problems : List Problem
  pub notes : List Note

abbrev least : ℕ → List ℕ → ℕ
least default [] = default
least default (c ∷ []) = c
least default (c ∷ cs) = min c (least default cs)

abbrev not_in : Dict ℕ → String → Bool
not_in cameras source_id = is_none (lookup source_id cameras)

abbrev finished : ℕ → Draft × Dict (List String) → Plan
finished default (d, needs) = record {
  detector = d.detector;
  camera = d.detector || d.camera_for_actions;
  min_confidence = least default d.confidences;
  vision = d.vision;
  ready = keep (not_in d.vision) d.ready;
  watched = d.watched;
  needs = needs;
  problems = d.problems;
  notes = if d.camera_for_actions && not d.detector then d.notes ++ (camera_runs ∷ []) else d.notes;
}

unfoldable pub plan : ℕ → ℕ → Planner → List RuleV2 → Plan
plan one default p rules = finished default (plan_rules one p rules empty_draft [])

unfoldable pub plan_actions : Planner → RuleV2 → List Problem
plan_actions p rule = (act_all p rule (resolved rule) empty_draft).problems

-- `rules_needing`
unfoldable pub rules_needing : Plan → String → List String
rules_needing plan source_id =
    map (λ (i, used). i) (keep (λ (i, used). contains source_id used) plan.needs)
