-- ===== src/Planner/Armed.antt =====
-- The whole plan: whether the rules can be armed, and whether the actions of one can be tried.
use sentry_mode.Prelude.{
  ℕ, String, ◌≡◌, ◌↔◌, refl, Bool, true, false, not, List, [], ◌∷◌, arith, All,
}
use sentry_mode.Prelude.Dict.{Dict, insert}
use sentry_mode.Rule.{is_armable, trigger_parts}
use sentry_mode.Rule.Action.{RuleV2}
use sentry_mode.Planner.{
  Planner, Draft, fail_if, parts, if_sequence, act_all, resolved, plan_rule, plan_rules, plan,
  plan_actions, not_available_yet, empty_draft,
}
use sentry_mode.Planner.Usable.{Adds, Adds-iff, Adds-then, silent-Adds, fail_if-Adds}
use sentry_mode.Planner.Readiness.{
  IsPartReady, IsSequenceReady, IsActionReady, IsReady, parts-Adds, if_sequence-Adds, act_all-Adds,
}

not-false_iff : (b : Bool) → (not b ≡ false) ↔ (b ≡ true)
not-false_iff true = (λ h. refl, λ h. refl)
not-false_iff false = (λ h. absurd (ground (arith, h)), λ h. absurd (ground (arith, h)))

abbrev reset : Draft → Draft
reset d = record d { used = [] }

gathered :
    (p : Planner) (rule : RuleV2)
    → (((Unit {0} × (is_armable rule.trigger ≡ true)) × IsSequenceReady p rule.trigger)
          × All (IsPartReady p) (trigger_parts rule.trigger))
        × All (IsActionReady p) (resolved rule)
      ↔ IsReady p rule
gathered p rule = (
  λ h. record { armable = h.0.0.0.1; in_order = h.0.0.1; watched = h.0.1; acted = h.1 },
  λ r. ((((tt, r.armable), r.in_order), r.watched), r.acted),
)

plan_rule-Adds :
    (one : ℕ) (p : Planner) (rule : RuleV2) → Adds (IsReady p rule) (plan_rule one p rule)
unfolding plan_rule Adds
plan_rule-Adds one p rule d =
    let armable : Draft → Draft = fail_if (not (is_armable rule.trigger)) rule not_available_yet in
    let f₁ : Draft → Draft = λ d. armable (reset d) in
    let f₂ : Draft → Draft = λ d. if_sequence p rule rule.trigger (f₁ d) in
    let f₃ : Draft → Draft = λ d. parts one p rule (trigger_parts rule.trigger) (f₂ d) in
    let f₄ : Draft → Draft = λ d. act_all p rule (resolved rule) (f₃ d) in
    let a₁ : Adds _ f₁ = Adds-then _ _ reset armable (silent-Adds reset (λ d. refl)) (
      Adds-iff _ _ armable (not-false_iff (is_armable rule.trigger))
        (fail_if-Adds (not (is_armable rule.trigger)) rule not_available_yet)) in
    let a₂ : Adds _ f₂ =
      Adds-then _ _ f₁ (if_sequence p rule rule.trigger) a₁
        (if_sequence-Adds p rule rule.trigger) in
    let a₃ : Adds _ f₃ =
      Adds-then _ _ f₂ (parts one p rule (trigger_parts rule.trigger)) a₂
        (parts-Adds one p rule (trigger_parts rule.trigger)) in
    let a₄ : Adds _ f₄ =
      Adds-then _ _ f₃ (act_all p rule (resolved rule)) a₃ (act_all-Adds p rule (resolved rule)) in
    Adds-iff _ _ f₄ (gathered p rule) a₄ d

plan_rules-IsReady :
    (one : ℕ) (p : Planner) (rules : List RuleV2) (d : Draft) (needs : Dict (List String))
    → ((plan_rules one p rules d needs).0.problems ≡ [])
      ↔ ((d.problems ≡ []) × All (IsReady p) rules)
unfolding plan_rules Adds
plan_rules-IsReady one p [] d needs = (λ h. (h, tt), λ h. h.0)
plan_rules-IsReady one p (rule ∷ rules) d needs =
    let d' = plan_rule one p rule d in
    let rest = plan_rules-IsReady one p rules d' (insert rule.id d'.used needs) in
    let first = plan_rule-Adds one p rule d in
    (
      λ h. (let (mid, ready) = rest.0 h in let (clean, own) = first.0 mid in (clean, (own, ready))),
      λ h. rest.1 (first.1 (h.0, h.1.0), h.1.1),
    )

-- The plan of a set of rules reports no problem exactly where each of them is ready: its trigger is of a
-- kind that can be armed; each part of the trigger has a source that is known, enabled, of the kind of the
-- part, and reachable under the setting of the satellites, and for a presence so has each observer; the
-- camera of a part is one that this hub drives; the source of a presence part, which is not asked of its
-- observers, or of a microphone part is one of a satellite, and of a microphone part no level is asked; a
-- sequence is timed by the hub, and its sources, where both are known, are in one zone where that is asked
-- for; and of the steps, each photo or video names such a camera, after that of the trigger has taken its
-- place, and each recording of sound a usable microphone that this hub can hear.
pub plan-IsReady :
    (one default : ℕ) (p : Planner) (rules : List RuleV2)
    → ((plan one default p rules).problems ≡ []) ↔ All (IsReady p) rules
unfolding plan
plan-IsReady one default p rules =
    let (to, from) = plan_rules-IsReady one p rules empty_draft [] in
    (λ h. (to h).1, λ h. from (refl, h))

-- The actions of a rule can be tried, without a problem, exactly where each of them has what it asks for:
-- whatever its trigger asks for.
pub plan_actions-IsActionReady :
    (p : Planner) (rule : RuleV2)
    → (plan_actions p rule ≡ []) ↔ All (IsActionReady p) (resolved rule)
unfolding plan_actions Adds
plan_actions-IsActionReady p rule =
    let (to, from) = act_all-Adds p rule (resolved rule) empty_draft in
    (λ h. (to h).1, λ h. from (refl, h))
