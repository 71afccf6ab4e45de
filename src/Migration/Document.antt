-- ===== src/Migration/Document.antt =====
-- src/sentry_mode/sentry/migration.py: the rules file, as it is written and read. A file is what its JSON
-- holds; a step written in the first version is read with the defaults of the fields that were left out.
use sentry_mode.Prelude.{
  ℕ, String, ◌≡◌, refl, sym, ◌∙◌, ap, Bool, true, false, not, ◌&&◌, Option, none, some, List, [],
  ◌∷◌, ◌++◌, map, all, ◌==◌, nat_eq, string_eq, option_eq, arith, if◌then◌else◌, eq_iff, Bool-cases,
  Option-cases, inl, inr,
}
use sentry_mode.Prelude.Dict.{Dict}
use sentry_mode.Rule.{distinct}
use sentry_mode.Rule.Action.{
  Action, photo, video, audio, wait, tts, tune, sound, ssh, telegram, Rule, RuleV2, SentryConfig,
  SentryConfigV2, global, fail, IfUnavailable, if_unavailable_eq, microphone, primary_camera,
  primary_microphone, known_commands, valid_references, SshCommand, VideoAction, has_command,
}
use sentry_mode.Migration.{
  Result, ok, err, MigrationError, to_v1, to_v2, obstacles, rules_to_v1, rule_to_v1,
  action_obstacles, sound_of, off_camera, not_failing, off_microphone, Obstacle,
}
use sentry_mode.Migration.Upwards.{to_v2_always}
use sentry_mode.Migration.RoundTrip.{rules-back, to_v1-ok}

abbrev pub legacy_schema : ℕ
legacy_schema = 1

abbrev schema_version : ℕ
schema_version = 2

-- The fields of `V1_HIDDEN` are left out, and come back as their defaults.
unfoldable pub hidden : Action → Action
hidden (photo a) = photo (record a { source_id = primary_camera; if_unavailable = fail })
hidden (video a) =
    video (record a { source_id = primary_camera; audio_source_id = none; if_unavailable = fail })
hidden (audio a) = audio (record a { audio_source_id = primary_microphone })
hidden a = a

abbrev pub dumped : Rule → Rule
dumped r = record r { actions = map hidden r.actions }

unfoldable pub dump_v1 : SentryConfig → SentryConfig
dump_v1 c = record c { rules = map dumped c.rules }

pub record Document : Type 0 where
  pub config : SentryConfigV2
  pub revision : ℕ
  pub schema : ℕ

-- A file of the first version, of the second, or of a later one.
pub data Saved : Type 0 where
  first : SentryConfig → ℕ → Saved
  second : SentryConfigV2 → ℕ → Saved
  later : Saved

-- `SentryConfig.valid_references`
unfoldable pub valid_v1 : SentryConfig → Bool
valid_v1 c =
    distinct (map (λ r. r.name) c.rules)
    && all (λ r. known_commands c.ssh_commands r.actions) c.rules

abbrev documented : ℕ → Option SentryConfigV2 → Result Document
documented revision none = err MigrationError.bad_references
documented revision (some d) =
    ok (record { config = d; revision = revision; schema = legacy_schema })

unfoldable pub read_document : (String → String) → Saved → Result Document
read_document lower (second c revision) =
    if valid_references c
    then ok (record { config = c; revision = revision; schema = schema_version })
    else err MigrationError.bad_references
read_document lower (first c revision) =
    if valid_v1 c
    then documented revision (to_v2 lower c none global)
    else err MigrationError.bad_references
read_document lower later = err MigrationError.newer_version

unfoldable pub write_document : SentryConfigV2 → ℕ → ℕ → Result Saved
write_document c revision schema =
    if schema == legacy_schema
    then elim (to_v1 c) [ err e ↦ err e | ok c' ↦ ok (first (dump_v1 c') revision) ]
    else ok (second c revision)

-- The camera that a step takes pictures from, and the microphone that it records.
unfoldable pub sources_of : Action → Option String × Option String
sources_of (photo a) = (some a.source_id, none)
sources_of (video a) = (some a.source_id, microphone a)
sources_of (audio a) = (none, some a.audio_source_id)
sources_of _ = (none, none)

-- A microphone that a video names is not the empty text.
abbrev pub NamesMicrophone : Action → Type 0
NamesMicrophone (video a) = (s : String) → a.audio_source_id ≡ some s → (s == "") ≡ false
NamesMicrophone _ = Unit

clear_camera :
    (name source_id : String) (u : IfUnavailable) (rest : List Obstacle)
    → off_camera name source_id ++ (not_failing name u ++ rest) ≡ []
    → (source_id ≡ primary_camera) × (rest ≡ [])
clear_camera name source_id u rest h =
    (ground (arith, h, eq_iff source_id primary_camera), ground (arith, h))

clear_microphone : (name m : String) → off_microphone name m ≡ [] → m ≡ primary_microphone
clear_microphone name m h = ground (arith, h, eq_iff m primary_microphone)

-- The microphone of a video of this node's camera, with its sound from this node's microphone.
primary_sound :
    (v : VideoAction)
    → ((s : String) → v.audio_source_id ≡ some s → (s == "") ≡ false)
    → v.source_id ≡ primary_camera
    → sound_of v ≡ primary_microphone
    → (if not v.audio then none else some primary_microphone) ≡ microphone v
unfolding microphone sound_of
primary_sound v named here recorded = elim (Bool-cases v.audio) [
  | inr silent ↦ rw (silent, microphone) refl
  | inl heard ↦ elim (Option-cases v.audio_source_id) [
    | inl default ↦
        rw (heard, default, microphone) (ground (arith, here, eq_iff v.source_id primary_camera))
    | inr (m, chosen) ↦
        let filled = named m chosen in
        let same : m ≡ primary_microphone =
          ground (arith, rw (heard, chosen, sound_of, microphone) at recorded, filled) in
        rw (heard, chosen, microphone, same) refl
  ]
]

-- A step without an obstacle, written in the first version and read again, takes its pictures from the
-- same camera and records the same microphone, or none.
pub hidden-sources_of :
    (name : String) (a : Action)
    → NamesMicrophone a
    → action_obstacles name a ≡ []
    → sources_of (hidden a) ≡ sources_of a
unfolding hidden action_obstacles sources_of microphone
hidden-sources_of name (photo a) named h = ground (arith, h, eq_iff a.source_id primary_camera)
hidden-sources_of name (video a) named h =
    let (here, recorded) = clear_camera name a.source_id a.if_unavailable _ h in
    let m = primary_sound a named here (clear_microphone name (sound_of a) recorded) in
    λ i. (some (sym here i), m i)
hidden-sources_of name (audio a) named h =
    ground (arith, h, eq_iff a.audio_source_id primary_microphone)
hidden-sources_of name (wait a) named h = refl
hidden-sources_of name (tts a) named h = refl
hidden-sources_of name (tune a) named h = refl
hidden-sources_of name (sound a) named h = refl
hidden-sources_of name (ssh a) named h = refl
hidden-sources_of name (telegram a) named h = refl

known-hidden :
    (commands : Dict SshCommand) (actions : List Action)
    → all (has_command commands) (map hidden actions) ≡ all (has_command commands) actions
unfolding hidden
known-hidden commands [] = refl
known-hidden commands (photo a ∷ rest) = known-hidden commands rest
known-hidden commands (video a ∷ rest) = known-hidden commands rest
known-hidden commands (audio a ∷ rest) = known-hidden commands rest
known-hidden commands (wait a ∷ rest) = known-hidden commands rest
known-hidden commands (tts a ∷ rest) = known-hidden commands rest
known-hidden commands (tune a ∷ rest) = known-hidden commands rest
known-hidden commands (sound a ∷ rest) = known-hidden commands rest
known-hidden commands (ssh a ∷ rest) = (let e = known-hidden commands rest in rw e refl)
known-hidden commands (telegram a ∷ rest) = known-hidden commands rest

names-dumped : (rs : List Rule) → map (λ r. r.name) (map dumped rs) ≡ map (λ r. r.name) rs
names-dumped [] = refl
names-dumped (r ∷ rs) = ap (λ names. r.name ∷ names) (names-dumped rs)

known-dumped :
    (commands : Dict SshCommand) (rs : List RuleV2) (rs' : List Rule)
    → rules_to_v1 rs ≡ some rs'
    → all (λ r. known_commands commands r.actions) rs ≡ true
    → all (λ r. known_commands commands r.actions) (map dumped rs') ≡ true
unfolding rules_to_v1 known_commands rule_to_v1
known-dumped commands [] [] h known = refl
known-dumped commands [] (r' ∷ rs') h known = absurd (ground (arith, h))
known-dumped commands (r ∷ rs) rs' h known = elim (Option-cases (rule_to_v1 r)) [
  | inl lost ↦ absurd (ground (arith, rw (lost, rules_to_v1) at h))
  | inr (r', one) ↦ elim (Option-cases (rules_to_v1 rs)) [
    | inl lost ↦ absurd (ground (arith, rw (one, lost, rules_to_v1) at h))
    | inr (more, others) ↦
        let made : (r' ∷ more) ≡ rs' = ground (arith, rw (one, others, rules_to_v1) at h) in
        let actions : r'.actions ≡ r.actions = ground (arith, one) in
        let rest = known-dumped commands rs more others (ground (arith, known)) in
        let own : all (has_command commands) (map hidden r'.actions) ≡ true =
          known-hidden commands r'.actions
          ∙ (ap (all (has_command commands)) actions ∙ ground (arith, known)) in
        rw (← made) (ground (arith, own, rest))
  ]
]

-- Rules with valid references that can be taken to the first version are written in it and read again as
-- a document with the same names, in the same order, and the same revision; but its fault policy is the
-- global one, whichever they had.
pub read-write_first :
    (lower : String → String) (d : SentryConfigV2) (c : SentryConfig) (revision : ℕ)
    → valid_references d ≡ true
    → to_v1 d ≡ ok c
    → (saved : Saved) × (doc : Document) × (write_document d revision legacy_schema ≡ ok saved)
      × (read_document lower saved ≡ ok doc)
      × (map (λ r. r.name) doc.config.rules ≡ map (λ r. r.name) d.rules)
      × (doc.revision ≡ revision)
      × (doc.config.fault_policy ≡ global)
unfolding write_document read_document dump_v1 valid_v1 valid_references obstacles
read-write_first lower d c revision valid down =
    let (clear, rules, made) = to_v1-ok d c down in
    let (names, _) = rules-back d.rules c.rules clear rules in
    let same_names = names-dumped c.rules ∙ names in
    let commands : c.ssh_commands ≡ d.ssh_commands = ground (arith, made) in
    let apart : distinct (map (λ r. r.name) (dump_v1 c).rules) ≡ true =
      rw same_names (ground (arith, valid)) in
    let known : all (λ r. known_commands c.ssh_commands r.actions) (map dumped c.rules) ≡ true =
      rw commands (known-dumped d.ssh_commands d.rules c.rules rules (ground (arith, valid))) in
    let (d', up, _, kept, policy) = to_v2_always lower (dump_v1 c) none global apart known in
    (
      first (dump_v1 c) revision,
      record { config = d'; revision = revision; schema = legacy_schema },
      rw (down, write_document) refl,
      rw (apart, known, up, read_document, valid_v1, dump_v1) refl,
      kept ∙ same_names,
      refl,
      policy,
    )
