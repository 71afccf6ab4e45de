-- ===== src/Planner/Readiness.antt =====
-- What it means that a rule is ready, and that the planner finds a problem exactly where one is not.
use sentry_mode.Prelude.{
  ℕ, String, ◌≡◌, ◌≢◌, ◌↔◌, ◌⊎◌, refl, inl, inr, Bool, true, false, not, Option, none, some, List,
  [], ◌∷◌, contains, ◌==◌, string_eq, if◌then◌else◌, is_some, arith, All, Bool-cases, Option-cases,
  eq_iff,
}
use sentry_mode.Prelude.Dict.{lookup}
use sentry_mode.Source.{SourceKind, SourceRecord}
use sentry_mode.Rule.{
  Trigger, vision, sensor_event, threshold, sequence, audio_event, presence_state, health_event,
  is_armable, trigger_parts, SequenceTrigger, VisionTrigger, AudioEventTrigger,
  PresenceStateTrigger,
}
use sentry_mode.Rule.Action.{
  Action, photo, video, audio, wait, tts, tune, sound, ssh, telegram, RuleV2, microphone,
  primary_camera, trigger_source, VideoAction,
}
use sentry_mode.Planner.{
  Planner, Draft, Message, is_remote, fail_if, fail_for, watching, checked, look, observe, await,
  hear, part, parts, is_capture, zones, in_sequence, if_sequence, record_from, is_heard, deaf,
  listen, note_silence, film, act, act_all, resolved, no_devices, no_sounds, no_level, capture_time,
}
use sentry_mode.Planner.Usable.{
  IsUsable, failed-problems, Adds, Adds-iff, Adds-then, silent-Adds, fail_if-Adds, checked-Adds,
}

-- A camera that this hub can drive itself.
abbrev pub IsOwn : Planner → String → Type 0
IsOwn p source_id = (source_id ≡ primary_camera) ⊎ (contains source_id p.cameras ≡ true)

-- What one part of a trigger asks for.
abbrev pub IsPartReady : Planner → Trigger → Type 0
IsPartReady p (vision t) = IsUsable p t.source_id SourceKind.camera × IsOwn p t.source_id
IsPartReady p (sensor_event t) = IsUsable p t.source_id SourceKind.sensor
IsPartReady p (threshold t) = IsUsable p t.source_id SourceKind.sensor
IsPartReady p (presence_state t) =
    IsUsable p t.source_id SourceKind.presence
    × All (λ o. IsUsable p o SourceKind.presence) t.observers
    × (is_remote t.source_id ≡ true)
IsPartReady p (audio_event t) =
    IsUsable p t.source_id SourceKind.microphone
    × (t.min_level ≡ none)
    × (is_remote t.source_id ≡ true)
IsPartReady p (health_event t) = Unit
IsPartReady p (sequence t) = Unit

-- Both sources, where they are known, are in one zone.
abbrev pub InOneZone : Option SourceRecord → Option SourceRecord → Type 0
InOneZone (some sensor) (some camera) =
    (z : String) × (sensor.zone ≡ some z) × (camera.zone ≡ some z)
InOneZone _ _ = Unit

abbrev pub IsSequenceReady : Planner → Trigger → Type 0
IsSequenceReady p (sequence t) =
    (is_capture t.time_basis ≡ false)
    × (t.same_zone ≡ true
        → InOneZone (lookup t.sensor.source_id p.sources) (lookup t.vision.source_id p.sources))
IsSequenceReady p _ = Unit

abbrev pub IsMicrophoneReady : Planner → Option String → Type 0
IsMicrophoneReady p none = Unit
IsMicrophoneReady p (some m) = IsUsable p m SourceKind.microphone × (is_heard p m ≡ true)

abbrev pub IsCameraReady : Planner → String → Type 0
IsCameraReady p source_id =
    (source_id ≢ trigger_source) × IsUsable p source_id SourceKind.camera × IsOwn p source_id

-- What an action asks for, after `resolve`.
abbrev pub IsActionReady : Planner → Action → Type 0
IsActionReady p (photo a) = IsCameraReady p a.source_id
IsActionReady p (video a) = IsCameraReady p a.source_id × IsMicrophoneReady p (microphone a)
IsActionReady p (audio a) = IsMicrophoneReady p (some a.audio_source_id)
IsActionReady p _ = Unit

-- A rule that can be armed: its trigger is of a kind that the engine watches, and each source that the
-- trigger or an action asks for is there.
pub record IsReady (p : Planner) (rule : RuleV2) : Type 0 where
  pub armable : is_armable rule.trigger ≡ true
  pub in_order : IsSequenceReady p rule.trigger
  pub watched : All (IsPartReady p) (trigger_parts rule.trigger)
  pub acted : All (IsActionReady p) (resolved rule)

not_own :
    (p : Planner) (source_id : String)
    → (source_id == primary_camera) ≡ false
    → contains source_id p.cameras ≡ false
    → IsOwn p source_id
    → ⊥
not_own p source_id other far (inl primary) =
    ground (arith, other, primary, eq_iff source_id primary_camera)
not_own p source_id other far (inr own) = ground (arith, far, own)

look-Adds :
    (one : ℕ) (p : Planner) (rule : RuleV2) (t : VisionTrigger)
    → Adds (IsOwn p t.source_id) (look one p rule t)
unfolding Adds look
look-Adds one p rule t d = elim (Bool-cases (t.source_id == primary_camera)) [
  | inl primary ↦ (
    λ h. (rw (primary, look) at h, inl ((eq_iff t.source_id primary_camera).0 primary)),
    λ h. rw (primary, look) (h.0),
  )
  | inr other ↦ elim (Bool-cases (contains t.source_id p.cameras)) [
    | inl own ↦ (λ h. (rw (other, own, look) at h, inr own), λ h. rw (other, own, look) (h.0))
    | inr far ↦ (
      λ h. absurd (failed-problems rule _ _ (rw (other, far, look) at h)),
      λ h. absurd (not_own p t.source_id other far h.1),
    )
  ]
]

record_from-Adds :
    (p : Planner) (rule : RuleV2) (source_id : String)
    → Adds (IsOwn p source_id) (record_from p rule source_id)
unfolding Adds record_from
record_from-Adds p rule source_id d = elim (Bool-cases (source_id == primary_camera)) [
  | inl primary ↦ (
    λ h. (rw (primary, record_from) at h, inl ((eq_iff source_id primary_camera).0 primary)),
    λ h. rw (primary, record_from) (h.0),
  )
  | inr other ↦ elim (Bool-cases (contains source_id p.cameras)) [
    | inl own ↦
        (λ h. (rw (other, own, record_from) at h, inr own), λ h. rw (other, own, record_from) (h.0))
    | inr far ↦ (
      λ h. absurd (failed-problems rule _ _ (rw (other, far, record_from) at h)),
      λ h. absurd (not_own p source_id other far h.1),
    )
  ]
]

observe-Adds :
    (p : Planner) (rule : RuleV2) (observers : List String)
    → Adds (All (λ o. IsUsable p o SourceKind.presence) observers) (observe p rule observers)
unfolding observe
observe-Adds p rule [] = silent-Adds _ (λ d. refl)
observe-Adds p rule (o ∷ rest) =
    Adds-then _ _ (checked p rule o SourceKind.presence (watching o)) (observe p rule rest)
      (Adds-iff _ _ _ ((λ h. h.0), (λ h. (h, tt)))
        (checked-Adds p rule o SourceKind.presence (watching o) Unit (silent-Adds _ (λ d. refl))))
      (observe-Adds p rule rest)

remote_iff : (b : Bool) → (not b ≡ false) ↔ (b ≡ true)
remote_iff true = (λ h. refl, λ h. refl)
remote_iff false = (λ h. absurd (ground (arith, h)), λ h. absurd (ground (arith, h)))

some_iff : (o : Option ℕ) → (is_some o ≡ false) ↔ (o ≡ none)
some_iff none = (λ h. refl, λ h. refl)
some_iff (some n) = (λ h. absurd (ground (arith, h)), λ h. absurd (ground (arith, h)))

remote-Adds :
    (s : String) (rule : RuleV2) (m : Message)
    → Adds (is_remote s ≡ true) (fail_if (not (is_remote s)) rule m)
remote-Adds s rule m =
    Adds-iff _ _ (fail_if (not (is_remote s)) rule m) (remote_iff (is_remote s))
      (fail_if-Adds (not (is_remote s)) rule m)

level-Adds :
    (o : Option ℕ) (rule : RuleV2) (m : Message) → Adds (o ≡ none) (fail_if (is_some o) rule m)
level-Adds o rule m =
    Adds-iff _ _ (fail_if (is_some o) rule m) (some_iff o) (fail_if-Adds (is_some o) rule m)

await-Adds :
    (p : Planner) (rule : RuleV2) (t : PresenceStateTrigger)
    → Adds
        (All (λ o. IsUsable p o SourceKind.presence) t.observers × (is_remote t.source_id ≡ true))
        (await p rule t)
unfolding await Adds
await-Adds p rule t d =
    Adds-then _ _ (observe p rule t.observers)
      (fail_if (not (is_remote t.source_id)) rule (no_devices t.source_id))
      (observe-Adds p rule t.observers) (remote-Adds t.source_id rule (no_devices t.source_id)) d

hear-Adds :
    (p : Planner) (rule : RuleV2) (t : AudioEventTrigger)
    → Adds ((t.min_level ≡ none) × (is_remote t.source_id ≡ true)) (hear rule t)
unfolding hear Adds
hear-Adds p rule t d =
    Adds-then _ _ (fail_if (is_some t.min_level) rule no_level)
      (fail_if (not (is_remote t.source_id)) rule (no_sounds t.source_id))
      (level-Adds t.min_level rule no_level) (remote-Adds t.source_id rule (no_sounds t.source_id))
      d

usable_only : (P : Type 0) → (P × Unit {0}) ↔ P
usable_only P = (λ h. h.0, λ h. (h, tt))

flat : (P Q R : Type 0) → (P × (Q × R)) ↔ (P × Q × R)
flat P Q R = (λ h. (h.0, h.1.0, h.1.1), λ h. (h.0, (h.1, h.2)))

part-Adds :
    (one : ℕ) (p : Planner) (rule : RuleV2) (t : Trigger)
    → Adds (IsPartReady p t) (part one p rule t)
unfolding part
part-Adds one p rule (vision t) =
    checked-Adds p rule t.source_id SourceKind.camera (look one p rule t) _ (look-Adds one p rule t)
part-Adds one p rule (sensor_event t) = Adds-iff _ _ _ (usable_only _) (
    checked-Adds p rule t.source_id SourceKind.sensor (watching t.source_id) _
      (silent-Adds _ (λ d. refl)))
part-Adds one p rule (threshold t) = Adds-iff _ _ _ (usable_only _) (
    checked-Adds p rule t.source_id SourceKind.sensor (watching t.source_id) _
      (silent-Adds _ (λ d. refl)))
part-Adds one p rule (presence_state t) =
    Adds-iff _ _ _ (flat _ _ _)
      (checked-Adds p rule t.source_id SourceKind.presence (await p rule t) _ (await-Adds p rule t))
part-Adds one p rule (audio_event t) =
    Adds-iff _ _ _ (flat _ _ _)
      (checked-Adds p rule t.source_id SourceKind.microphone (hear rule t) _ (hear-Adds p rule t))
part-Adds one p rule (health_event t) = silent-Adds _ (λ d. refl)
part-Adds one p rule (sequence t) = silent-Adds _ (λ d. refl)

pub parts-Adds :
    (one : ℕ) (p : Planner) (rule : RuleV2) (ts : List Trigger)
    → Adds (All (IsPartReady p) ts) (parts one p rule ts)
unfolding parts
parts-Adds one p rule [] = silent-Adds _ (λ d. refl)
parts-Adds one p rule (t ∷ ts) =
    Adds-then _ _ (part one p rule t) (parts one p rule ts) (part-Adds one p rule t)
      (parts-Adds one p rule ts)

zones_iff :
    (sensor camera : Option SourceRecord) → (zones sensor camera ≡ none) ↔ InOneZone sensor camera
unfolding zones
zones_iff none camera = (λ h. tt, λ h. refl)
zones_iff (some sensor) none = (λ h. tt, λ h. refl)
zones_iff (some sensor) (some camera) = elim (Option-cases sensor.zone) [
  | inl nowhere ↦ (
    λ h. absurd (ground (arith, rw (nowhere, zones) at h)),
    λ h. (let there = h.1 in absurd (ground (arith, nowhere, there))),
  )
  | inr (z, here) ↦ elim (Option-cases camera.zone) [
    | inl nowhere ↦ (
      λ h. absurd (ground (arith, rw (here, nowhere, zones) at h)),
      λ h. (let there = h.2 in absurd (ground (arith, nowhere, there))),
    )
    | inr (z', there) ↦ (
      λ h.
          let same : z ≡ z' = ground (arith, rw (here, there, zones) at h, eq_iff z z') in
          (z, here, rw same there),
      λ h.
          let a = h.1 in
          let b = h.2 in
          let same : z ≡ z' = ground (arith, here, there, a, b) in
          rw (here, there, zones) (ground (arith, same, eq_iff z z')),
    )
  ]
]

fail_for-Adds : (o : Option Message) (rule : RuleV2) → Adds (o ≡ none) (fail_for o rule)
unfolding Adds
fail_for-Adds none rule d = (λ h. (h, refl), λ h. h.0)
fail_for-Adds (some m) rule d =
    (λ h. absurd (failed-problems rule m d h), λ h. absurd (ground (arith, h.1)))

when-Adds :
    (b : Bool) (P : Type 0) (f : Draft → Draft)
    → Adds P f
    → Adds (b ≡ true → P) (λ d. if not b then d else f d)
unfolding Adds
when-Adds true P f a d =
    (λ h. (let (clean, p) = (a d).0 h in (clean, λ _. p)), λ h. (a d).1 (h.0, h.1 refl))
when-Adds false P f a d = (λ h. (h, λ e. absurd (ground (arith, e))), λ h. h.0)

in_sequence-Adds :
    (p : Planner) (rule : RuleV2) (t : SequenceTrigger)
    → Adds (IsSequenceReady p (sequence t)) (in_sequence p rule t)
unfolding in_sequence Adds
in_sequence-Adds p rule t d =
    let sensor = lookup t.sensor.source_id p.sources in
    let camera = lookup t.vision.source_id p.sources in
    let f : Draft → Draft = fail_for (zones sensor camera) rule in
    Adds-then _ _ (fail_if (is_capture t.time_basis) rule capture_time)
      (λ d. if not t.same_zone then d else f d)
      (fail_if-Adds (is_capture t.time_basis) rule capture_time)
      (when-Adds t.same_zone _ f
        (Adds-iff _ _ f (zones_iff sensor camera) (fail_for-Adds (zones sensor camera) rule)))
      d

pub if_sequence-Adds :
    (p : Planner) (rule : RuleV2) (t : Trigger) → Adds (IsSequenceReady p t) (if_sequence p rule t)
if_sequence-Adds p rule (sequence t) = in_sequence-Adds p rule t
if_sequence-Adds p rule (vision t) = silent-Adds _ (λ d. refl)
if_sequence-Adds p rule (sensor_event t) = silent-Adds _ (λ d. refl)
if_sequence-Adds p rule (threshold t) = silent-Adds _ (λ d. refl)
if_sequence-Adds p rule (presence_state t) = silent-Adds _ (λ d. refl)
if_sequence-Adds p rule (audio_event t) = silent-Adds _ (λ d. refl)
if_sequence-Adds p rule (health_event t) = silent-Adds _ (λ d. refl)

listen-Adds :
    (p : Planner) (rule : RuleV2) (m : Option String)
    → Adds (IsMicrophoneReady p m) (listen p rule m)
unfolding listen
listen-Adds p rule none = silent-Adds _ (λ d. refl)
listen-Adds p rule (some m) =
    checked-Adds p rule m SourceKind.microphone (fail_if (not (is_heard p m)) rule (deaf m)) _ (
      Adds-iff _ _ (fail_if (not (is_heard p m)) rule (deaf m)) (remote_iff (is_heard p m))
        (fail_if-Adds (not (is_heard p m)) rule (deaf m)))

note_silence-problems :
    (rule : RuleV2) (v : VideoAction) (d : Draft) → (note_silence rule v d).problems ≡ d.problems
note_silence-problems rule v d = ground arith

film-Adds :
    (p : Planner) (rule : RuleV2) (source_id : String) (P : Type 0) (rest : Draft → Draft)
    → Adds P rest
    → Adds (IsCameraReady p source_id × P) (film p rule source_id rest)
unfolding film Adds
film-Adds p rule source_id P rest a d = elim (Bool-cases (source_id == trigger_source)) [
  | inl unnamed ↦ (
    λ h. absurd (failed-problems rule _ _ (rw (unnamed, film) at h)),
    λ h. absurd (h.1.0.0 ((eq_iff source_id trigger_source).0 unnamed)),
  )
  | inr given ↦
      let both =
        Adds-then _ _ (checked p rule source_id SourceKind.camera (record_from p rule source_id))
          rest
          (checked-Adds p rule source_id SourceKind.camera (record_from p rule source_id) _
            (record_from-Adds p rule source_id))
          a d in
      (
        λ h.
            let (clean, (ready, more)) = both.0 (rw (given, film) at h) in
            (
              clean,
              (
                (
                  λ e. absurd (ground (arith, given, e, eq_iff source_id trigger_source)),
                  ready.0,
                  ready.1,
                ),
                more,
              ),
            ),
        λ h. rw (given, film) (both.1 (h.0, ((h.1.0.1, h.1.0.2), h.1.1))),
      )
]

act-Adds : (p : Planner) (rule : RuleV2) (a : Action) → Adds (IsActionReady p a) (act p rule a)
unfolding act
act-Adds p rule (photo a) =
    Adds-iff _ _ _ (usable_only _)
      (film-Adds p rule a.source_id _ (λ d. d) (silent-Adds _ (λ d. refl)))
act-Adds p rule (video a) =
    film-Adds p rule a.source_id _ (λ d. listen p rule (microphone a) (note_silence rule a d))
      (Adds-iff _ _ (λ d. listen p rule (microphone a) (note_silence rule a d))
        ((λ h. h.1), (λ h. (tt, h)))
        (Adds-then _ _ (note_silence rule a) (listen p rule (microphone a))
          (silent-Adds _ (note_silence-problems rule a)) (listen-Adds p rule (microphone a))))
act-Adds p rule (audio a) = listen-Adds p rule (some a.audio_source_id)
act-Adds p rule (wait a) = silent-Adds _ (λ d. refl)
act-Adds p rule (tts a) = silent-Adds _ (λ d. refl)
act-Adds p rule (tune a) = silent-Adds _ (λ d. refl)
act-Adds p rule (sound a) = silent-Adds _ (λ d. refl)
act-Adds p rule (ssh a) = silent-Adds _ (λ d. refl)
act-Adds p rule (telegram a) = silent-Adds _ (λ d. refl)

pub act_all-Adds :
    (p : Planner) (rule : RuleV2) (actions : List Action)
    → Adds (All (IsActionReady p) actions) (act_all p rule actions)
unfolding act_all
act_all-Adds p rule [] = silent-Adds _ (λ d. refl)
act_all-Adds p rule (a ∷ rest) =
    Adds-then _ _ (act p rule a) (act_all p rule rest) (act-Adds p rule a)
      (act_all-Adds p rule rest)
