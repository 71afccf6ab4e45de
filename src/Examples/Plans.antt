-- ===== src/Examples/Plans.antt =====
-- Rules of sentry/config.py, taken between their versions and planned.
use sentry_mode.Prelude.{
  String, ◌≡◌, refl, ◌↔◌, true, false, none, some, List, [], ◌∷◌, All, map, string_eq,
}
use sentry_mode.Source.{SourceKind, SourceState, SourceRecord, Origin}
use sentry_mode.Rule.{vision, VisionTrigger, distinct}
use sentry_mode.Rule.Action.{
  Action, photo, IfUnavailable, Rule, RuleV2, SentryConfig, SentryConfigV2, FaultPolicy,
  known_commands, valid_references, IfUnavailable-discrete,
}
use sentry_mode.Migration.{
  to_v1, to_v2, obstacles, rule_obstacles, trigger_obstacles, all_actions, action_obstacles,
  rules_to_v1, rule_to_v1, ok, policy_of,
}
use sentry_mode.Migration.RoundTrip.{to_v2-to_v1}
use sentry_mode.Migration.Upwards.{to_v2_always}
use sentry_mode.Migration.Document.{
  Saved, Document, write_document, read_document, legacy_schema, hidden, sources_of,
  read-write_first, hidden-sources_of,
}
use sentry_mode.Planner.{Planner, plan}
use sentry_mode.Planner.Readiness.{IsReady}
use sentry_mode.Planner.Armed.{plan-IsReady}

-- ASCII names that are lower case already.
abbrev lower : String → String
lower s = s

abbrev picture : Action
picture = photo (record {
  with_previous = false;
  count = 1;
  interval_seconds = 2;
  source_id = "legacy-primary";
  if_unavailable = IfUnavailable.fail;
})

abbrev at_door : VisionTrigger
at_door = record {
  source_id = "legacy-primary";
  object = "person";
  min_confidence = 70;
  min_count = 1;
  consecutive_detections = 3;
  rearm_after_absence_seconds = 10;
  region = none;
}

abbrev door : RuleV2
door = record {
  id = "entrance";
  name = "Door";
  enabled = true;
  trigger = vision at_door;
  cooldown_seconds = 60;
  actions = picture ∷ [];
}

abbrev document : SentryConfigV2
document = record {
  detection_fps = 2;
  test_mode = false;
  action_ttl_seconds = 15;
  fault_policy = FaultPolicy.isolated;
  rules = door ∷ [];
  ssh_commands = [];
  telegram = record { bot_token = ""; chat_id = "" };
}

abbrev old_door : Rule
old_door = record {
  name = "Door";
  enabled = true;
  object = "person";
  min_confidence = 70;
  min_count = 1;
  consecutive_detections = 3;
  rearm_after_absence_seconds = 10;
  cooldown_seconds = 60;
  region = none;
  actions = picture ∷ [];
}

abbrev old_document : SentryConfig
old_document = record {
  detection_fps = 2;
  test_mode = false;
  action_ttl_seconds = 15;
  rules = old_door ∷ [];
  ssh_commands = [];
  telegram = record { bot_token = ""; chat_id = "" };
}

document_valid : valid_references document ≡ true
unfolding valid_references distinct known_commands
document_valid = refl

taken_down : to_v1 document ≡ ok old_document
unfolding to_v1 obstacles rule_obstacles trigger_obstacles all_actions action_obstacles rules_to_v1
    rule_to_v1 IfUnavailable-discrete
taken_down = refl

to_v2-to_v1_example : to_v2 lower old_document (some document) FaultPolicy.global ≡ some document
to_v2-to_v1_example =
    to_v2-to_v1 lower document old_document FaultPolicy.global document_valid (refl, tt) taken_down

-- Three names of which two have one slug.
abbrev names : List String
names = "door" ∷ "door!" ∷ "hall" ∷ []

names_apart : distinct (map (λ r. r.name) old_document.rules) ≡ true
unfolding distinct
names_apart = refl

to_v2_always_example :
    (d : SentryConfigV2) × (to_v2 lower old_document none FaultPolicy.global ≡ some d)
    × (valid_references d ≡ true)
    × (map (λ r. r.name) d.rules ≡ map (λ r. r.name) old_document.rules)
    × (d.fault_policy ≡ policy_of none FaultPolicy.global)
unfolding known_commands
to_v2_always_example = to_v2_always lower old_document none FaultPolicy.global names_apart refl

abbrev camera : SourceRecord
camera = record {
  ref = record { node = none; name = "legacy-primary" };
  kind = SourceKind.camera;
  zone = none;
  origin = Origin.local;
  state = SourceState.ready;
}

abbrev planner : Planner
planner = record {
  sources = ("legacy-primary", camera) ∷ [];
  satellites_enabled = false;
  cameras = [];
  microphones = [];
}

plan-IsReady_example :
    ((plan 100 70 planner (door ∷ [])).problems ≡ []) ↔ All (IsReady planner) (door ∷ [])
plan-IsReady_example = plan-IsReady 100 70 planner (door ∷ [])

read-write_first_example :
    (saved : Saved) × (doc : Document) × (write_document document 7 legacy_schema ≡ ok saved)
    × (read_document lower saved ≡ ok doc)
    × (map (λ r. r.name) doc.config.rules ≡ map (λ r. r.name) document.rules)
    × (doc.revision ≡ 7)
    × (doc.config.fault_policy ≡ FaultPolicy.global)
read-write_first_example = read-write_first lower document old_document 7 document_valid taken_down

picture_clear : action_obstacles "Door" picture ≡ []
unfolding action_obstacles IfUnavailable-discrete
picture_clear = refl

hidden-sources_of_example : sources_of (hidden picture) ≡ sources_of picture
hidden-sources_of_example = hidden-sources_of "Door" picture tt picture_clear
