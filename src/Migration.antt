-- ===== src/Migration.antt =====
-- src/sentry_mode/sentry/migration.py: the rules between the two versions of their document.
-- `lower` is Python's `str.lower`. The bounds that pydantic puts on single fields are not modelled.
pub mod RoundTrip
pub mod Ids
pub mod Upwards
pub mod Document
use Prim.Native.Char.{Char, code}
use sentry_mode.Prelude.{
  ℕ, zero, suc, ◌+◌, ◌-◌, ◌*◌, ◌/◌, String, Bool, true, false, not, ◌&&◌, ◌||◌, Option, none, some,
  List, [], ◌∷◌, ◌++◌, map, length, contains, leb, ltb, ◌==◌, ◌!=◌, string_eq, nat_eq, option_eq,
  if◌then◌else◌,
}
use sentry_mode.Prelude.Dict.{Dict, lookup, insert}
use sentry_mode.Source.{concat}
use sentry_mode.Rule.{VisionTrigger, Trigger, vision, distinct}
use sentry_mode.Rule.Action.{
  Action, photo, video, audio, wait, tts, tune, sound, ssh, telegram, VideoAction, IfUnavailable,
  fail, if_unavailable_eq, Rule, RuleV2, SentryConfig, SentryConfigV2, FaultPolicy, global,
  primary_camera, primary_microphone, microphone, valid_references, known_commands,
}

-- `[a-z0-9]`
abbrev is_alnum : ℕ → Bool
is_alnum c = leb b'a' c && leb c b'z' || leb b'0' c && leb c b'9'

abbrev pub is_dash : Char → Bool
is_dash c = code c == b'-'

-- `re.sub(r"[^a-z0-9]+", "-", s)`; the argument says whether the run that goes on has its hyphen.
unfoldable pub dashed : Bool → String → String
dashed in_run String.[] = ""
dashed in_run (String.◌∷◌ c s) =
    let on = dashed false s in
    let run = dashed true s in
    if is_alnum (code c) then String.◌∷◌ c on else if in_run then run else concat "-" run

-- `s.lstrip("-")`
unfoldable pub lstrip : String → String
lstrip String.[] = ""
lstrip (String.◌∷◌ c s) = let rest = lstrip s in if is_dash c then rest else String.◌∷◌ c s

-- `s.rstrip("-")`
unfoldable pub rstrip : String → String
rstrip String.[] = ""
rstrip (String.◌∷◌ c s) =
    let rest = rstrip s in if is_dash c && rest == "" then "" else String.◌∷◌ c rest

-- `s[:n]`
unfoldable pub cut : ℕ → String → String
cut zero s = ""
cut (suc n) String.[] = ""
cut (suc n) (String.◌∷◌ c s) = String.◌∷◌ c (cut n s)

unfoldable pub size : String → ℕ
size String.[] = 0
size (String.◌∷◌ c s) = suc (size s)

unfoldable pub slug : (String → String) → String → String
slug lower name =
    let text = rstrip (lstrip (cut 64 (rstrip (lstrip (dashed false (lower name)))))) in
    if text == "" then "rule" else text

unfoldable pub digit : ℕ → String
digit n =
    if n == 0
    then "0"
    else if n == 1
    then "1"
    else if n == 2
    then "2"
    else if n == 3
    then "3"
    else if n == 4
    then "4"
    else if n == 5
    then "5"
    else if n == 6
    then "6"
    else if n == 7
    then "7"
    else if n == 8
    then "8"
    else "9"

-- `str(n)`, on fuel; n digits are always enough.
unfoldable pub digits : ℕ → ℕ → String
digits zero n = ""
digits (suc fuel) n =
    let high = digits fuel (n / 10) in
    if ltb n 10 then digit n else concat high (digit (n - n / 10 * 10))

-- `wanted[: 64 - len(suffix)].rstrip("-") + suffix`
unfoldable pub numbered : String → ℕ → String
numbered wanted counter =
    let suffix = concat "-" (digits (suc counter) counter) in
    concat (rstrip (cut (64 - size suffix) wanted)) suffix

-- The loop `while candidate in taken`, from `counter` on; none where the fuel has run out.
unfoldable pub search : List String → String → ℕ → ℕ → Option String
search taken wanted zero counter = none
search taken wanted (suc fuel) counter =
    let rest = search taken wanted fuel (suc counter) in
    let candidate = numbered wanted counter in
    if contains candidate taken then rest else some candidate

-- The identifier of one rule. As many turns as there are taken names, and one more, are enough.
unfoldable pub free_id : List String → String → Option String
free_id taken wanted =
    let next = search taken wanted (suc (length taken)) 2 in
    if contains wanted taken then next else some wanted

abbrev pub wanted_id : (String → String) → Dict String → String → String
wanted_id lower known name = elim (lookup name known) [
  | none ↦ slug lower name
  | some i ↦ if i == "" then slug lower name else i
]

-- The rest of the loop over the names, where `taken` are the identifiers so far.
unfoldable pub assign_from :
    (String → String) → Dict String → List String → List String → Option (List String)
assign_from lower known taken [] = some []
assign_from lower known taken (name ∷ names) = elim (free_id taken (wanted_id lower known name)) [
  | none ↦ none
  | some i ↦ elim (assign_from lower known (i ∷ taken) names) [
    | none ↦ none
    | some ids ↦ some (i ∷ ids)
  ]
]

unfoldable pub assign_ids : (String → String) → List String → Dict String → Option (List String)
assign_ids lower names known = assign_from lower known [] names

unfoldable pub rule_to_v2 : Rule → String → RuleV2
rule_to_v2 r rule_id = record {
  id = rule_id;
  name = r.name;
  enabled = r.enabled;
  trigger = vision (record {
    source_id = primary_camera;
    object = r.object;
    min_confidence = r.min_confidence;
    min_count = r.min_count;
    consecutive_detections = r.consecutive_detections;
    rearm_after_absence_seconds = r.rearm_after_absence_seconds;
    region = r.region;
  });
  cooldown_seconds = r.cooldown_seconds;
  actions = r.actions;
}

-- `zip` of the rules and their identifiers.
unfoldable pub rules_to_v2 : List Rule → List String → List RuleV2
rules_to_v2 (r ∷ rs) (i ∷ ids) = rule_to_v2 r i ∷ rules_to_v2 rs ids
rules_to_v2 _ _ = []

-- `{rule.name: rule.id for rule in previous.rules}`
unfoldable pub known_ids : Dict String → List RuleV2 → Dict String
known_ids known [] = known
known_ids known (r ∷ rs) = known_ids (insert r.name r.id known) rs

abbrev pub known_of : Option SentryConfigV2 → Dict String
known_of none = []
known_of (some p) = known_ids [] p.rules

abbrev pub policy_of : Option SentryConfigV2 → FaultPolicy → FaultPolicy
policy_of none policy = policy
policy_of (some p) policy = p.fault_policy

unfoldable pub to_v2 :
    (String → String) → SentryConfig → Option SentryConfigV2 → FaultPolicy → Option SentryConfigV2
to_v2 lower c previous policy =
    elim (assign_ids lower (map (λ r. r.name) c.rules) (known_of previous)) [
      | none ↦ none
      | some ids ↦ some (record {
        detection_fps = c.detection_fps;
        test_mode = c.test_mode;
        action_ttl_seconds = c.action_ttl_seconds;
        fault_policy = policy_of previous policy;
        rules = rules_to_v2 c.rules ids;
        ssh_commands = c.ssh_commands;
        telegram = c.telegram;
      })
    ]

-- What the first version cannot say of a rule.
pub data Obstacle : Type 0 where
  set_off_by : String → Obstacle
  watches records_from unavailable records_sound : String → Obstacle

abbrev pub off_camera : String → String → List Obstacle
off_camera name source_id = if source_id != primary_camera then records_from name ∷ [] else []

abbrev pub not_failing : String → IfUnavailable → List Obstacle
not_failing name u = if u != fail then unavailable name ∷ [] else []

abbrev pub off_microphone : String → String → List Obstacle
off_microphone name m = if m != primary_microphone then records_sound name ∷ [] else []

-- `(action.microphone if action.audio else action.audio_source_id) or PRIMARY_MICROPHONE`
unfoldable pub sound_of : VideoAction → String
sound_of v = elim (if v.audio then microphone v else v.audio_source_id) [
  | none ↦ primary_microphone
  | some m ↦ if m == "" then primary_microphone else m
]

unfoldable pub action_obstacles : String → Action → List Obstacle
action_obstacles name (photo p) = off_camera name p.source_id ++ not_failing name p.if_unavailable
action_obstacles name (video v) =
    off_camera name v.source_id
    ++ (not_failing name v.if_unavailable ++ off_microphone name (sound_of v))
action_obstacles name (audio a) = off_microphone name a.audio_source_id
action_obstacles name _ = []

unfoldable pub trigger_obstacles : String → Trigger → List Obstacle
trigger_obstacles name (vision t) = if t.source_id != primary_camera then watches name ∷ [] else []
trigger_obstacles name _ = set_off_by name ∷ []

unfoldable pub all_actions : String → List Action → List Obstacle
all_actions name [] = []
all_actions name (a ∷ rest) = action_obstacles name a ++ all_actions name rest

unfoldable pub rule_obstacles : List RuleV2 → List Obstacle
rule_obstacles [] = []
rule_obstacles (r ∷ rs) =
    trigger_obstacles r.name r.trigger ++ (all_actions r.name r.actions ++ rule_obstacles rs)

unfoldable pub obstacles : SentryConfigV2 → List Obstacle
obstacles c = rule_obstacles c.rules

-- none where the trigger is no VisionTrigger, which `obstacles` has excluded.
unfoldable pub rule_to_v1 : RuleV2 → Option Rule
rule_to_v1 r = elim r.trigger [
  | vision t ↦ some (record {
    name = r.name;
    enabled = r.enabled;
    object = t.object;
    min_confidence = t.min_confidence;
    min_count = t.min_count;
    consecutive_detections = t.consecutive_detections;
    rearm_after_absence_seconds = t.rearm_after_absence_seconds;
    cooldown_seconds = r.cooldown_seconds;
    region = t.region;
    actions = r.actions;
  })
  | _ ↦ none
]

unfoldable pub rules_to_v1 : List RuleV2 → Option (List Rule)
rules_to_v1 [] = some []
rules_to_v1 (r ∷ rs) = elim (rule_to_v1 r) [
  | none ↦ none
  | some r' ↦ elim (rules_to_v1 rs) [ none ↦ none | some rs' ↦ some (r' ∷ rs') ]
]

-- What raises: the obstacles of `SchemaUpgradeRequired`, or an assertion, a bad reference, a newer file.
pub data MigrationError : Type 0 where
  schema_upgrade_required : List Obstacle → MigrationError
  not_vision bad_references newer_version : MigrationError

pub data Result {ℓ} (A : Type ℓ) : Type ℓ where
  ok : A → Result A
  err : MigrationError → Result A

unfoldable pub to_v1 : SentryConfigV2 → Result SentryConfig
to_v1 c = elim (obstacles c) [
  | o ∷ os ↦ err (schema_upgrade_required (o ∷ os))
  | [] ↦ elim (rules_to_v1 c.rules) [
    | none ↦ err not_vision
    | some rules ↦ ok (record {
      detection_fps = c.detection_fps;
      test_mode = c.test_mode;
      action_ttl_seconds = c.action_ttl_seconds;
      rules = rules;
      ssh_commands = c.ssh_commands;
      telegram = c.telegram;
    })
  ]
]
