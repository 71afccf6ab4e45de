-- ===== src/Migration/Upwards.antt =====
-- Going up: `assign_ids` and `to_v2` of sentry/migration.py on any document.
use sentry_mode.Prelude.{
  String, ◌≡◌, refl, ap, ◌∙◌, true, false, Option, some, List, [], ◌∷◌, map, length, contains, all,
  string_eq, arith, All, eq_iff,
}
use sentry_mode.Prelude.Dict.{Dict}
use sentry_mode.Rule.{distinct}
use sentry_mode.Rule.Action.{
  Rule, SentryConfig, SentryConfigV2, FaultPolicy, SshCommand, known_commands, valid_references,
}
use sentry_mode.Migration.{
  wanted_id, assign_from, assign_ids, rule_to_v2, rules_to_v2, known_of, policy_of, to_v2,
}
use sentry_mode.Migration.Ids.{free_id-free}

-- The identifiers of the rest of the rules: one for each, none of them taken, no two the same.
record Assigned (lower : String → String) (known : Dict String) (taken names : List String)
    : Type 0 where
  ids : List String
  gives : assign_from lower known taken names ≡ some ids
  one_each : length ids ≡ length names
  apart : distinct ids ≡ true
  free : All (λ i. contains i taken ≡ false) ids

none_is :
    (i : String) (taken ids : List String)
    → All (λ j. contains j (i ∷ taken) ≡ false) ids
    → contains i ids ≡ false
none_is i taken [] free = refl
none_is i taken (j ∷ ids) free =
    ground (arith, free.0, none_is i taken ids free.1, eq_iff i j, eq_iff j i)

still_free :
    (i : String) (taken ids : List String)
    → All (λ j. contains j (i ∷ taken) ≡ false) ids
    → All (λ j. contains j taken ≡ false) ids
still_free i taken [] free = tt
still_free i taken (j ∷ ids) free = (ground (arith, free.0), still_free i taken ids free.1)

assign_from-Assigned :
    (lower : String → String) (known : Dict String) (taken names : List String)
    → Assigned lower known taken names
unfolding assign_from distinct
assign_from-Assigned lower known taken [] = record {
  ids = [];
  gives = refl;
  one_each = refl;
  apart = refl;
  free = tt;
}
assign_from-Assigned lower known taken (name ∷ names) =
    let (i, found, new) = free_id-free taken (wanted_id lower known name) in
    let rest = assign_from-Assigned lower known (i ∷ taken) names in
    record {
      ids = i ∷ rest.ids;
      gives = rw (found, assign_from) (rw (rest.gives) refl);
      one_each = (let e = rest.one_each in omega (arith, e));
      apart = (let d = rest.apart in ground (arith, d, none_is i taken rest.ids rest.free));
      free = (new, still_free i taken rest.ids rest.free);
    }

-- `assign_ids` ends and gives one identifier to each name, no two the same: whatever the names are, and
-- whichever identifiers are known already.
pub assign_ids-distinct :
    (lower : String → String) (names : List String) (known : Dict String)
    → (ids : List String) × (assign_ids lower names known ≡ some ids)
      × (length ids ≡ length names)
      × (distinct ids ≡ true)
unfolding assign_ids
assign_ids-distinct lower names known =
    let a = assign_from-Assigned lower known [] names in (a.ids, a.gives, a.one_each, a.apart)

rules_to_v2-keeps :
    (commands : Dict SshCommand) (rs : List Rule) (ids : List String)
    → length ids ≡ length rs
    → all (λ r. known_commands commands r.actions) rs ≡ true
    → (map (λ r. r.id) (rules_to_v2 rs ids) ≡ ids)
      × (map (λ r. r.name) (rules_to_v2 rs ids) ≡ map (λ r. r.name) rs)
      × (all (λ r. known_commands commands r.actions) (rules_to_v2 rs ids) ≡ true)
unfolding rules_to_v2 rule_to_v2
rules_to_v2-keeps commands [] [] same known = (refl, refl, refl)
rules_to_v2-keeps commands [] (i ∷ ids) same known = absurd (omega (arith, same))
rules_to_v2-keeps commands (r ∷ rs) [] same known = absurd (omega (arith, same))
rules_to_v2-keeps commands (r ∷ rs) (i ∷ ids) same known =
    let (a, b, c) =
      rules_to_v2-keeps commands rs ids (omega (arith, same)) (ground (arith, known)) in
    (ap (λ ids. i ∷ ids) a, ap (λ names. r.name ∷ names) b, ground (arith, known, c))

length-names : (rs : List Rule) → length (map (λ r. r.name) rs) ≡ length rs
length-names [] = refl
length-names (r ∷ rs) = (let e = length-names rs in omega (arith, e))

-- Going up always works: a document of the first version whose rules have distinct names and know their
-- commands becomes a document of the second with valid references, the same names and the fault policy
-- of the previous document, or the one that was asked for where there is none.
pub to_v2_always :
    (lower : String → String) (c : SentryConfig) (previous : Option SentryConfigV2)
    (policy : FaultPolicy)
    → distinct (map (λ r. r.name) c.rules) ≡ true
    → all (λ r. known_commands c.ssh_commands r.actions) c.rules ≡ true
    → (d : SentryConfigV2) × (to_v2 lower c previous policy ≡ some d)
      × (valid_references d ≡ true)
      × (map (λ r. r.name) d.rules ≡ map (λ r. r.name) c.rules)
      × (d.fault_policy ≡ policy_of previous policy)
unfolding to_v2 valid_references
to_v2_always lower c previous policy apart known =
    let (ids, given, one_each, different) =
      assign_ids-distinct lower (map (λ r. r.name) c.rules) (known_of previous) in
    let (same_ids, same_names, still_known) =
      rules_to_v2-keeps c.ssh_commands c.rules ids (one_each ∙ length-names c.rules) known in
    let d : SentryConfigV2 = record {
      detection_fps = c.detection_fps;
      test_mode = c.test_mode;
      action_ttl_seconds = c.action_ttl_seconds;
      fault_policy = policy_of previous policy;
      rules = rules_to_v2 c.rules ids;
      ssh_commands = c.ssh_commands;
      telegram = c.telegram;
    } in
    (
      d,
      rw (given, to_v2) refl,
      rw (same_ids, same_names, valid_references) (ground (arith, different, apart, still_known)),
      same_names,
      refl,
    )
