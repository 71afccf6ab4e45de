-- ===== src/Rule/Action.antt =====
-- src/sentry_mode/sentry/config.py: the steps of a rule, and the rules documents of both versions.
-- Times and pitches are counted in a fixed unit.
use sentry_mode.Prelude.{
  ℕ, String, Bool, true, false, not, ◌&&◌, Option, none, some, List, all, map, ◌==◌, string_eq,
  if◌then◌else◌, is_some, Eq, discrete_eq,
}
use sentry_mode.Prelude.Int.{ℤ}
use sentry_mode.Prelude.Dict.{Dict, lookup}
use sentry_mode.Rule.{Trigger, Region, distinct}

abbrev pub primary_camera : String
primary_camera = "legacy-primary"

abbrev pub primary_microphone : String
primary_microphone = "legacy-microphone"

abbrev pub trigger_source : String
trigger_source = "trigger_source"

pub data IfUnavailable : Type 0 where
  fail skip stop : IfUnavailable

unfoldable pub IfUnavailable-discrete : Discrete IfUnavailable
IfUnavailable-discrete = hlevel

instance abbrev pub if_unavailable_eq : Eq IfUnavailable
if_unavailable_eq = discrete_eq IfUnavailable-discrete

pub record WaitAction : Type 0 where
  pub with_previous : Bool
  pub seconds : ℕ

pub data Preset : Type 0 where
  natural demon chipmunk custom : Preset

pub record VoiceEffects : Type 0 where
  pub preset : Preset
  pub pitch : ℤ
  pub volume : Option ℕ

pub record TtsAction : Type 0 where
  pub with_previous : Bool
  pub text : String
  pub voice : String
  pub rate : ℕ
  pub effects : VoiceEffects

pub record TuneAction : Type 0 where
  pub with_previous : Bool
  pub tune : String
  pub repeat : ℕ
  pub volume : ℕ
  pub pitch : ℤ

pub record SoundAction : Type 0 where
  pub with_previous : Bool
  pub sound : String
  pub repeat : ℕ
  pub volume : ℕ

pub record PhotoAction : Type 0 where
  pub with_previous : Bool
  pub count : ℕ
  pub interval_seconds : ℕ
  pub source_id : String
  pub if_unavailable : IfUnavailable

pub record VideoAction : Type 0 where
  pub with_previous : Bool
  pub duration_seconds : ℕ
  pub audio : Bool
  pub source_id : String
  pub audio_source_id : Option String
  pub if_unavailable : IfUnavailable

-- `VideoAction.microphone`
unfoldable pub microphone : VideoAction → Option String
microphone v = if not v.audio then none else elim v.audio_source_id [
  | some m ↦ some m
  | none ↦ if v.source_id == primary_camera then some primary_microphone else none
]

pub record AudioAction : Type 0 where
  pub with_previous : Bool
  pub duration_seconds : ℕ
  pub audio_source_id : String

pub record SshAction : Type 0 where
  pub with_previous : Bool
  pub command_id : String

pub record TelegramAction : Type 0 where
  pub with_previous : Bool
  pub text : String
  pub silent : Bool

pub data Action : Type 0 where
  wait : WaitAction → Action
  photo : PhotoAction → Action
  audio : AudioAction → Action
  video : VideoAction → Action
  tts : TtsAction → Action
  tune : TuneAction → Action
  sound : SoundAction → Action
  ssh : SshAction → Action
  telegram : TelegramAction → Action

abbrev is_wait : Action → Bool
is_wait (wait a) = true
is_wait _ = false

-- A rule of the first version: always about this node's camera.
pub record Rule : Type 0 where
  pub name : String
  pub enabled : Bool
  pub object : String
  pub min_confidence : ℕ
  pub min_count : ℕ
  pub consecutive_detections : ℕ
  pub rearm_after_absence_seconds : ℕ
  pub cooldown_seconds : ℕ
  pub region : Option Region
  pub actions : List Action

pub record RuleV2 : Type 0 where
  pub id : String
  pub name : String
  pub enabled : Bool
  pub trigger : Trigger
  pub cooldown_seconds : ℕ
  pub actions : List Action

-- `runnable`: some step does something besides wait.
unfoldable pub runnable : List Action → Bool
runnable actions = not (all is_wait actions)

pub record SshCommand : Type 0 where
  pub host : String
  pub user : String
  pub port : ℕ
  pub command : String
  pub identity_file : String
  pub timeout_seconds : ℕ

pub record TelegramConfig : Type 0 where
  pub bot_token : String
  pub chat_id : String

pub data FaultPolicy : Type 0 where
  global isolated : FaultPolicy

pub record SentryConfig : Type 0 where
  pub detection_fps : ℕ
  pub test_mode : Bool
  pub action_ttl_seconds : ℕ
  pub rules : List Rule
  pub ssh_commands : Dict SshCommand
  pub telegram : TelegramConfig

pub record SentryConfigV2 : Type 0 where
  pub detection_fps : ℕ
  pub test_mode : Bool
  pub action_ttl_seconds : ℕ
  pub fault_policy : FaultPolicy
  pub rules : List RuleV2
  pub ssh_commands : Dict SshCommand
  pub telegram : TelegramConfig

abbrev pub has_command : Dict SshCommand → Action → Bool
has_command commands (ssh a) = is_some (lookup a.command_id commands)
has_command commands _ = true

-- `check_references` for the steps; the spelling of the commands' names is left to it.
unfoldable pub known_commands : Dict SshCommand → List Action → Bool
known_commands commands actions = all (has_command commands) actions

-- `valid_references`: the rules have distinct identifiers and names, and know their commands.
unfoldable pub valid_references : SentryConfigV2 → Bool
unfolding known_commands distinct
valid_references c =
    distinct (map (λ r. r.id) c.rules)
    && distinct (map (λ r. r.name) c.rules)
    && all (λ r. known_commands c.ssh_commands r.actions) c.rules
