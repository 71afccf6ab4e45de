-- ===== src/Migration/RoundTrip.antt =====
-- Rules that are taken to the first version and back.
use sentry_mode.Prelude.{
  String, ◌≡◌, refl, true, false, some, List, [], ◌∷◌, ◌++◌, map, contains, ◌==◌, string_eq, arith,
  All, Bool-cases, Option-cases, inl, inr, eq_iff,
}
use sentry_mode.Prelude.Dict.{Dict, lookup, insert, lookup-insert}
use sentry_mode.Rule.{Trigger, vision, distinct}
use sentry_mode.Rule.Action.{
  Rule, RuleV2, SentryConfig, SentryConfigV2, FaultPolicy, primary_camera, valid_references,
}
use sentry_mode.Migration.{
  free_id, wanted_id, assign_from, assign_ids, rule_to_v2, rules_to_v2, known_ids, to_v2, obstacles,
  trigger_obstacles, all_actions, rule_obstacles, rule_to_v1, rules_to_v1, ok, to_v1,
}

abbrev id_of : RuleV2 → String
id_of r = r.id

abbrev name_of : RuleV2 → String
name_of r = r.name

known_ids-lookup :
    (n : String) (known : Dict String) (rs : List RuleV2)
    → contains n (map name_of rs) ≡ false
    → lookup n (known_ids known rs) ≡ lookup n known
unfolding known_ids
known_ids-lookup n known [] h = refl
known_ids-lookup n known (r ∷ rs) h = ground (
  arith,
  h,
  known_ids-lookup n (insert r.name r.id known) rs,
  lookup-insert r.name n r.id known,
  eq_iff n r.name,
  eq_iff r.name n,
)

known_ids-there :
    (known : Dict String) (rs : List RuleV2)
    → distinct (map name_of rs) ≡ true
    → All (λ r. lookup r.name (known_ids known rs) ≡ some r.id) rs
unfolding known_ids distinct
known_ids-there known [] h = tt
known_ids-there known (r ∷ rs) h = (
  ground (
    arith,
    h,
    known_ids-lookup r.name (insert r.name r.id known) rs,
    lookup-insert r.name r.name r.id known,
    eq_iff r.name r.name,
  ),
  known_ids-there (insert r.name r.id known) rs (ground (arith, h)),
)

still_free :
    (i : String) (taken : List String) (rs : List RuleV2)
    → contains i (map id_of rs) ≡ false
    → All (λ r. contains r.id taken ≡ false) rs
    → All (λ r. contains r.id (i ∷ taken) ≡ false) rs
still_free i taken [] new free = tt
still_free i taken (r ∷ rs) new free = (
  ground (arith, new, free.0, eq_iff i r.id, eq_iff r.id i),
  still_free i taken rs (ground (arith, new)) free.1,
)

wanted_id-known :
    (lower : String → String) (known : Dict String) (name i : String)
    → lookup name known ≡ some i
    → (i == "") ≡ false
    → wanted_id lower known name ≡ i
wanted_id-known lower known name i there named = ground (arith, there, named)

free_id-fresh :
    (taken : List String) (i : String) → contains i taken ≡ false → free_id taken i ≡ some i
unfolding free_id
free_id-fresh taken i free = rw (free, free_id) refl

assign_from-cons :
    (lower : String → String) (known : Dict String) (taken names ids : List String)
    (name i : String)
    → wanted_id lower known name ≡ i
    → free_id taken i ≡ some i
    → assign_from lower known (i ∷ taken) names ≡ some ids
    → assign_from lower known taken (name ∷ names) ≡ some (i ∷ ids)
unfolding assign_from
assign_from-cons lower known taken names ids name i wanted free rest =
    rw (wanted, assign_from) (rw (free, assign_from) (rw rest refl))

-- Each rule finds the identifier that it had.
assign_from-known :
    (lower : String → String) (known : Dict String) (taken : List String) (rs : List RuleV2)
    → All (λ r. lookup r.name known ≡ some r.id) rs
    → All (λ r. (r.id == "") ≡ false) rs
    → All (λ r. contains r.id taken ≡ false) rs
    → distinct (map id_of rs) ≡ true
    → assign_from lower known taken (map name_of rs) ≡ some (map id_of rs)
unfolding assign_from free_id distinct
assign_from-known lower known taken [] there named free d = refl
assign_from-known lower known taken (r ∷ rs) there named free d =
    assign_from-cons lower known taken (map name_of rs) (map id_of rs) r.name r.id
      (wanted_id-known lower known r.name r.id there.0 named.0) (free_id-fresh taken r.id free.0)
      (assign_from-known lower known (r.id ∷ taken) rs there.1 named.1
        (still_free r.id taken rs (ground (arith, d)) free.1) (ground (arith, d)))

vision-back :
    (r : RuleV2) (r' : Rule) (t : Trigger)
    → r.trigger ≡ t
    → trigger_obstacles r.name t ≡ []
    → rule_to_v1 r ≡ some r'
    → (r'.name ≡ r.name) × (rule_to_v2 r' r.id ≡ r)
unfolding rule_to_v1 rule_to_v2 trigger_obstacles
vision-back r r' (vision t) is_vision clear h = elim (Bool-cases (t.source_id == primary_camera)) [
  | inr other ↦ absurd (ground (arith, clear, other))
  | inl here ↦
      let same : t.source_id ≡ primary_camera = (eq_iff t.source_id primary_camera).0 here in
      let h' = rw (is_vision, rule_to_v1) at h in
      (ground (arith, h'), ground (arith, h', same, is_vision))
]
vision-back r r' _ is_vision clear h = absurd (ground (arith, clear))

append-empty : {A : Type 0} (xs ys : List A) → xs ++ ys ≡ [] → (xs ≡ []) × (ys ≡ [])
append-empty [] ys h = (refl, h)
append-empty (x ∷ xs) ys h = absurd (ground (arith, h))

pub rules-back :
    (rs : List RuleV2) (rs' : List Rule)
    → rule_obstacles rs ≡ []
    → rules_to_v1 rs ≡ some rs'
    → (map (λ r. r.name) rs' ≡ map name_of rs) × (rules_to_v2 rs' (map id_of rs) ≡ rs)
unfolding rule_obstacles rules_to_v1 rules_to_v2
rules-back [] [] clear h = (refl, refl)
rules-back [] (r' ∷ rs') clear h = absurd (ground (arith, h))
rules-back (r ∷ rs) rs' clear h =
    let (own, rest) = append-empty (trigger_obstacles r.name r.trigger) _ clear in
    let (_, others) = append-empty (all_actions r.name r.actions) _ rest in
    elim (Option-cases (rule_to_v1 r)) [
      | inl lost ↦ absurd (ground (arith, rw (lost, rules_to_v1) at h))
      | inr (r', one) ↦ elim (Option-cases (rules_to_v1 rs)) [
        | inl lost ↦ absurd (ground (arith, rw (one, lost, rules_to_v1) at h))
        | inr (more, all_of_them) ↦
            let made : (r' ∷ more) ≡ rs' =
              ground (arith, rw (one, all_of_them, rules_to_v1) at h) in
            let (name, back) = vision-back r r' r.trigger refl own one in
            let (names, backs) = rules-back rs more others all_of_them in
            rw (← made) (rw (name, names) refl, rw (back, backs) refl)
      ]
    ]

none_taken : (rs : List RuleV2) → All (λ r. contains r.id [] ≡ false) rs
none_taken [] = tt
none_taken (r ∷ rs) = (refl, none_taken rs)

pub to_v1-ok :
    (d : SentryConfigV2) (c : SentryConfig)
    → to_v1 d ≡ ok c
    → (obstacles d ≡ [])
      × (rules_to_v1 d.rules ≡ some c.rules)
      × (c ≡ record {
        detection_fps = d.detection_fps;
        test_mode = d.test_mode;
        action_ttl_seconds = d.action_ttl_seconds;
        rules = c.rules;
        ssh_commands = d.ssh_commands;
        telegram = d.telegram;
      })
unfolding to_v1
to_v1-ok d c h = ground (arith, h)

-- Where a rules document has valid references, and identifiers that are not empty: if it can be taken to
-- the first version, taking that back to the second, with the document itself as the previous one, gives
-- the document again, the identifiers and the fault policy included.
pub to_v2-to_v1 :
    (lower : String → String) (d : SentryConfigV2) (c : SentryConfig) (policy : FaultPolicy)
    → valid_references d ≡ true
    → All (λ r. (r.id == "") ≡ false) d.rules
    → to_v1 d ≡ ok c
    → to_v2 lower c (some d) policy ≡ some d
unfolding valid_references obstacles to_v2 assign_ids
to_v2-to_v1 lower d c policy valid named h =
    let (clear, rules, made) = to_v1-ok d c h in
    let (names, back) = rules-back d.rules c.rules clear rules in
    let ids : assign_from lower (known_ids [] d.rules) [] (map name_of d.rules)
        ≡ some (map id_of d.rules) =
      assign_from-known lower (known_ids [] d.rules) [] d.rules
        (known_ids-there [] d.rules (ground (arith, valid))) named (none_taken d.rules)
        (ground (arith, valid)) in
    rw (names, to_v2, assign_ids) (rw (ids, to_v2) (rw back (ground (arith, made))))
