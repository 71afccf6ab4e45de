-- ===== src/Command/Closed.antt =====
-- What a command is that the agent accepts.
use mathlib.Core.Path.{subst}
use sentry_mode.Prelude.{
  ◌&&◌, ℕ, ◌≤◌, String, ◌≡◌, refl, Bool, true, false, not, Option, none, some, List, [], arith, any,
  all, contains, length, eq_iff, Bool-cases, inl, inr, ◌==◌, string_eq,
}
use sentry_mode.Prelude.Dict.{Dict, lookup}
use sentry_mode.Source.{matches_name}
use sentry_mode.Json.{matches_url_safe}
use sentry_mode.Command.{
  Json, CommandError, unless, text_if, Command, Stream, Duration, no_stream, actions, media_actions,
  max_sources, Result, ok, err, is_stop, is_renewal, is_object, is_stream_length, needs_capability,
  names_capability, video, started, given, configuration, stream_of, issued, addressed, parse,
  Members, fields, is_unknown,
}

given-ok {ℓ κ} :
    {A : Type ℓ} {B : Type κ} (o : Option A) (e : CommandError) (next : A → Result B) (b : B)
    → given o e next ≡ ok b
    → (a : A) × (o ≡ some a) × (next a ≡ ok b)
unfolding given
given-ok none e next b h = absurd (ground (arith, h))
given-ok (some a) e next b h = (a, refl, h)

unless-ok {ℓ} :
    {A : Type ℓ} (refused : Bool) (e : CommandError) (rest : Result A) (b : A)
    → unless refused e rest ≡ ok b
    → (refused ≡ false) × (rest ≡ ok b)
unfolding unless
unless-ok true e rest b h = absurd (ground (arith, h))
unless-ok false e rest b h = (refl, h)

text_if-some :
    (test : String → Bool) (o : Option Json) (s : String) → text_if test o ≡ some s → test s ≡ true
text_if-some test none s h = absurd (ground (arith, h))
text_if-some test (some (Json.text x)) s h = elim (Bool-cases (test x)) [
  | inl good ↦ let same : x ≡ s = ground (arith, h, good) in rw (← same) good
  | inr bad ↦ absurd (ground (arith, h, bad))
]
text_if-some test (some Json.null) s h = absurd (ground (arith, h))
text_if-some test (some (Json.boolean b)) s h = absurd (ground (arith, h))
text_if-some test (some (Json.integer n)) s h = absurd (ground (arith, h))
text_if-some test (some (Json.decimal n k)) s h = absurd (ground (arith, h))
text_if-some test (some (Json.array es)) s h = absurd (ground (arith, h))
text_if-some test (some (Json.object ms)) s h = absurd (ground (arith, h))

-- What a start adds to the identifier.
abbrev pub Starts : Stream → Type 0
Starts s =
    (source_id : String) × (token : String) × (s.source_id ≡ some source_id)
    × (matches_name source_id ≡ true)
    × (s.token ≡ some token)
    × (matches_url_safe 32 128 token ≡ true)
    × (1024 ≤ s.port)
    × (s.port ≤ 65535)

-- What a stream of a media command is: an identifier, and for a start the source, the port and the
-- token; a stop and a renewal name nothing but the stream.
pub record IsStream (action : String) (d : Duration) (s : Stream) : Type 0 where
  pub id : String
  pub names : s.stream_id ≡ some id
  pub well_named : matches_url_safe 8 64 id ≡ true
  pub lasting : is_stop action ≡ false → is_stream_length d ≡ true
  pub bare : not (is_stop action) ≡ false → s ≡ record no_stream { stream_id = some id }
  pub starts : is_stop action ≡ false → is_renewal action ≡ false → Starts s

started_lem :
    (message : Dict Json) (id : String) (s : Stream)
    → started message id ≡ ok s
    → (s.stream_id ≡ some id) × Starts s
unfolding started
started_lem message id s h =
    let (source_id, a, h₁) = given-ok _ _ _ s h in
    let (port, b, h₂) = given-ok _ _ _ s h₁ in
    let (c, h₃) = unless-ok _ _ _ s h₂ in
    let (token, d, h₄) = given-ok _ _ _ s h₃ in
    let named = text_if-some matches_name (lookup "source_id" message) source_id a in
    let opens = text_if-some (matches_url_safe 32 128) (lookup "token" message) token d in
    (
      ground (arith, h₄),
      (
        source_id,
        token,
        ground (arith, h₄),
        named,
        ground (arith, h₄),
        opens,
        ground (arith, h₄, c),
        ground (arith, h₄, c),
      ),
    )

video-IsStream :
    (action : String) (message : Dict Json) (d : Duration) (s : Stream)
    → video action message d ≡ ok s
    → IsStream action d s
unfolding video
video-IsStream action message d s h =
    let (id, a, h₁) = given-ok _ _ _ s h in
    let named = text_if-some (matches_url_safe 8 64) (lookup "stream_id" message) id a in
    elim (Bool-cases (is_stop action)) [
      | inl stop ↦
          let (c, h₂) = unless-ok _ _ _ s (rw stop at h₁) in
          record {
            id = id;
            names = ground (arith, h₂);
            well_named = named;
            lasting = λ no_stop. cc;
            bare = λ _. ground (arith, h₂);
            starts = λ no_stop. absurd cc;
          }
      | inr goes_on ↦
          let (c, h₂) = unless-ok _ _ _ s (rw goes_on at h₁) in
          let long : is_stream_length d ≡ true = ground (arith, c) in
          elim (Bool-cases (is_renewal action)) [
            | inl renewal ↦
                let (c', h₃) = unless-ok _ _ _ s (rw renewal at h₂) in
                record {
                  id = id;
                  names = ground (arith, h₃);
                  well_named = named;
                  lasting = λ _. long;
                  bare = λ _. ground (arith, h₃);
                  starts = λ _ no_renewal. absurd cc;
                }
            | inr start ↦
                let (n, more) = started_lem message id s (rw start at h₂) in
                record {
                  id = id;
                  names = n;
                  well_named = named;
                  lasting = λ _. long;
                  bare = λ stops. absurd (ground (arith, stops, goes_on, start));
                  starts = λ _ _. more;
                }
          ]
    ]

-- A configuration is numbered and bounded; no other action has one.
abbrev IsConfigured : String → ℕ → List Json → Type 0
IsConfigured action revision sources =
    ((action == "configure") ≡ true
      → (1 ≤ revision) × (length sources ≤ max_sources) × (all is_object sources ≡ true))
    × ((action == "configure") ≡ false → (revision ≡ 0) × (sources ≡ []))

abbrev IsStreamed : String → Duration → Stream → Type 0
IsStreamed action d s =
    (contains action media_actions ≡ true → IsStream action d s)
    × (contains action media_actions ≡ false → s ≡ no_stream)

-- What an accepted command is.
pub record IsLawful (node_id : String) (c : Command) : Type 0 where
  pub own_node : c.node_id ≡ node_id
  pub known_action : contains c.action actions ≡ true
  pub capable : needs_capability c.action ≡ true → names_capability c.capability ≡ true
  pub streams :
      contains c.action media_actions ≡ true → IsStream c.action c.duration_seconds c.stream
  pub no_streams : contains c.action media_actions ≡ false → c.stream ≡ no_stream
  pub configures :
      (c.action == "configure") ≡ true
      → (1 ≤ c.revision) × (length c.sources ≤ max_sources) × (all is_object c.sources ≡ true)
  pub no_configures : (c.action == "configure") ≡ false → (c.revision ≡ 0) × (c.sources ≡ [])

configuration_lem :
    (action : String) (message : Dict Json) (revision : ℕ) (sources : List Json)
    → configuration action message ≡ ok (revision, sources)
    → ((action == "configure") ≡ true
        → (1 ≤ revision) × (length sources ≤ max_sources) × (all is_object sources ≡ true))
      × ((action == "configure") ≡ false → (revision ≡ 0) × (sources ≡ []))
unfolding configuration
configuration_lem action message revision sources h = elim (Bool-cases (action == "configure")) [
  | inl yes_so ↦
      let (r, a, h₁) = given-ok _ _ _ (revision, sources) (rw yes_so at h) in
      let (b, h₂) = unless-ok _ _ _ (revision, sources) h₁ in
      let (l, c, h₃) = given-ok _ _ _ (revision, sources) h₂ in
      let (d, h₄) = unless-ok _ _ _ (revision, sources) h₃ in
      let (e, h₅) = unless-ok _ _ _ (revision, sources) h₄ in
      let r_same : r ≡ revision = ground (arith, h₅) in
      let l_same : l ≡ sources = ground (arith, h₅) in
      (
        λ _. rw (← r_same, ← l_same) (ground (arith, b), ground (arith, d), ground (arith, e)),
        λ no_so. absurd cc,
      )
  | inr no_so ↦
      let (a, h₁) = unless-ok _ _ _ (revision, sources) (rw no_so at h) in
      (λ yes_so. absurd cc, λ _. (ground (arith, h₁), ground (arith, h₁)))
]

stream_of_lem :
    (action : String) (message : Dict Json) (d : Duration) (s : Stream)
    → stream_of action message d ≡ ok s
    → (contains action media_actions ≡ true → IsStream action d s)
      × (contains action media_actions ≡ false → s ≡ no_stream)
unfolding stream_of
stream_of_lem action message d s h = elim (Bool-cases (contains action media_actions)) [
  | inl media ↦
      (λ _. video-IsStream action message d s (rw (media, stream_of) at h), λ no_so. absurd cc)
  | inr other ↦
      let (a, h₁) = unless-ok _ _ _ s (rw (other, stream_of) at h) in
      (λ yes_so. absurd cc, λ _. ground (arith, h₁))
]

bound-ok {ℓ κ} :
    {A : Type ℓ} {B : Type κ} (r : Result A) (next : A → Result B) (b : B)
    → (elim r [ err e ↦ err e | ok a ↦ next a ]) ≡ ok b
    → (a : A) × (r ≡ ok a) × (next a ≡ ok b)
bound-ok (err e) next b h = absurd (ground (arith, h))
bound-ok (ok a) next b h = (a, refl, h)

ok-injective {ℓ} : {A : Type ℓ} (a b : A) → ok a ≡ ok b → a ≡ b
ok-injective a b h = cc

made-IsLawful :
    (c : Command)
    → contains c.action actions ≡ true
    → (needs_capability c.action && not (names_capability c.capability)) ≡ false
    → IsConfigured c.action c.revision c.sources
    → IsStreamed c.action c.duration_seconds c.stream
    → IsLawful c.node_id c
made-IsLawful c known able config streams = record {
  own_node = refl;
  known_action = known;
  capable = λ needs. ground (arith, able, needs);
  streams = streams.0;
  no_streams = streams.1;
  configures = config.0;
  no_configures = config.1;
}

issued-IsLawful :
    (message : Dict Json) (command_id action node_id : String) (c : Command)
    → contains action actions ≡ true
    → issued message command_id action node_id ≡ ok c
    → IsLawful node_id c
unfolding issued
issued-IsLawful message command_id action node_id c known h =
    let (epoch, a, h₁) = given-ok _ _ _ c h in
    let (b, h₂) = unless-ok _ _ _ c h₁ in
    let (duration, d, h₃) = given-ok _ _ _ c h₂ in
    let (sequence, e, h₄) = given-ok _ _ _ c h₃ in
    let ((revision, sources), f, h₅) = bound-ok (configuration action message) _ c h₄ in
    let (stream, g, h₆) = bound-ok (stream_of action message duration) _ c h₅ in
    subst (IsLawful node_id) (ok-injective _ c h₆) (
      made-IsLawful _ known b (configuration_lem action message revision sources f)
        (stream_of_lem action message duration stream g))

addressed-IsLawful :
    (message : Dict Json) (node_id : String) (c : Command)
    → addressed message node_id ≡ ok c
    → (any is_unknown message ≡ false) × (matches_name node_id ≡ true) × IsLawful node_id c
unfolding addressed
addressed-IsLawful message node_id c h =
    let (a, h₁) = unless-ok _ _ _ c h in
    let (command_id, b, h₂) = given-ok _ _ _ c h₁ in
    let (action, d, h₃) = given-ok _ _ _ c h₂ in
    let (addressed_to, e, h₄) = given-ok _ _ _ c h₃ in
    let (f, h₅) = unless-ok _ _ _ c h₄ in
    let same : addressed_to ≡ node_id = ground (arith, f, eq_iff addressed_to node_id) in
    let known = text_if-some (λ s. contains s actions) (lookup "action" message) action d in
    let named = text_if-some matches_name (lookup "node_id" message) addressed_to e in
    (
      a,
      rw same at named,
      rw same at (issued-IsLawful message command_id action addressed_to c known h₅),
    )

-- A command that the agent accepts comes from an object with no field but those of the list, is
-- addressed to this node, and is one of the actions of the list. It asks for a capability of the list
-- where its action is about one; it describes a stream where its action is about one and only there, by
-- an identifier and, for a start, a valid source name, a token, an unprivileged port and a bounded
-- time; and it carries a numbered configuration of at most the greatest number of sources, all objects,
-- where it is a configuration and only there.
pub parse-IsLawful :
    (json : Json) (node_id : String) (c : Command)
    → parse json node_id ≡ ok c
    → (ms : Members) × (json ≡ Json.object ms)
      × (any is_unknown (fields ms) ≡ false)
      × (matches_name node_id ≡ true)
      × IsLawful node_id c
unfolding parse
parse-IsLawful (Json.object ms) node_id c h =
    let (a, b, lawful) = addressed-IsLawful (fields ms) node_id c h in (ms, refl, a, b, lawful)
parse-IsLawful Json.null node_id c h = absurd (ground (arith, h))
parse-IsLawful (Json.boolean x) node_id c h = absurd (ground (arith, h))
parse-IsLawful (Json.integer n) node_id c h = absurd (ground (arith, h))
parse-IsLawful (Json.decimal n k) node_id c h = absurd (ground (arith, h))
parse-IsLawful (Json.text s) node_id c h = absurd (ground (arith, h))
parse-IsLawful (Json.array es) node_id c h = absurd (ground (arith, h))
