-- ===== src/Planner/Usable.antt =====
-- What it means that a source can be used, and steps of the planner that report a problem or none.
use sentry_mode.Prelude.{
  String, ◌≡◌, ◌↔◌, refl, sym, ◌∙◌, inl, inr, Bool, true, false, none, some, List, [], ◌∷◌, ◌++◌,
  string_eq, arith, Option-cases,
}
use sentry_mode.Prelude.Dict.{lookup}
use sentry_mode.Source.{SourceKind, kind_eq, SourceRecord, is_disabled}
use sentry_mode.Rule.Action.{RuleV2}
use sentry_mode.Planner.{
  Planner, Draft, Message, Problem, check, is_remote, failed, fail_if, using, checked,
}

-- The source can be used as one of that kind.
pub record IsUsable (p : Planner) (source_id : String) (kind : SourceKind) : Type 0 where
  pub reachable : is_remote source_id ≡ true → p.satellites_enabled ≡ true
  pub source : SourceRecord
  pub known : lookup source_id p.sources ≡ some source
  pub of_kind : source.kind ≡ kind
  pub enabled : is_disabled source.state ≡ false

pub check-IsUsable :
    (p : Planner) (source_id : String) (kind : SourceKind)
    → (check p source_id kind ≡ none) ↔ IsUsable p source_id kind
unfolding check
check-IsUsable p source_id kind = elim (Option-cases (lookup source_id p.sources)) [
  | inl missing ↦ (
    λ h. absurd (ground (arith, rw (missing, check) at h)),
    λ u. (let there = u.known in absurd (ground (arith, there, missing))),
  )
  | inr (r, there) ↦ (
    λ h.
        let h' = rw (there, check) at h in
        record {
          reachable = λ far. ground (arith, h', far);
          source = r;
          known = there;
          of_kind = (kind_eq.agrees r.kind kind).0 (ground (arith, h'));
          enabled = ground (arith, h');
        },
    λ u.
        let e = (kind_eq.agrees u.source.kind kind).1 u.of_kind in
        let enabled = u.enabled in
        let reachable = u.reachable in rw (u.known, check) (ground (arith, e, enabled, reachable)),
  )
]

-- The step reports no problem exactly where `P` holds.
unfoldable pub Adds : Type 0 → (Draft → Draft) → Type 0
Adds P f = (d : Draft) → ((f d).problems ≡ []) ↔ ((d.problems ≡ []) × P)

pub Adds-iff : (P Q : Type 0) (f : Draft → Draft) → P ↔ Q → Adds P f → Adds Q f
unfolding Adds
Adds-iff P Q f e a d =
    (λ h. (let (clean, p) = (a d).0 h in (clean, e.0 p)), λ h. (a d).1 (h.0, e.1 h.1))

pub Adds-then :
    (P Q : Type 0) (f g : Draft → Draft) → Adds P f → Adds Q g → Adds (P × Q) (λ d. g (f d))
unfolding Adds
Adds-then P Q f g a b d = (
  λ h. (let (mid, q) = (b (f d)).0 h in let (clean, p) = (a d).0 mid in (clean, (p, q))),
  λ h. (b (f d)).1 ((a d).1 (h.0, h.1.0), h.1.1),
)

pub failed-problems :
    (rule : RuleV2) (m : Message) (d : Draft) → (failed rule m d).problems ≡ [] → ⊥
unfolding failed
failed-problems rule m d h = last_there d.problems _ h
  where
    last_there : (xs : List Problem) (x : Problem) → xs ++ (x ∷ []) ≡ [] → ⊥
    last_there [] x h = ground (arith, h)
    last_there (y ∷ ys) x h = ground (arith, h)

-- A step that reports nothing, and one that always does.
pub silent-Adds : (f : Draft → Draft) → ((d : Draft) → (f d).problems ≡ d.problems) → Adds Unit f
unfolding Adds
silent-Adds f same d = (λ h. (sym (same d) ∙ h, tt), λ h. same d ∙ h.0)

pub failed-Adds : (rule : RuleV2) (m : Message) → Adds ⊥ (failed rule m)
unfolding Adds
failed-Adds rule m d = (λ h. absurd (failed-problems rule m d h), λ h. absurd h.1)

pub fail_if-Adds :
    (wrong : Bool) (rule : RuleV2) (m : Message) → Adds (wrong ≡ false) (fail_if wrong rule m)
unfolding Adds fail_if
fail_if-Adds true rule m d =
    (λ h. absurd (failed-problems rule m d h), λ h. absurd (ground (arith, h.1)))
fail_if-Adds false rule m d = (λ h. (h, refl), λ h. h.0)

pub checked-Adds :
    (p : Planner) (rule : RuleV2) (source_id : String) (kind : SourceKind) (next : Draft → Draft)
    (P : Type 0)
    → Adds P next
    → Adds (IsUsable p source_id kind × P) (checked p rule source_id kind next)
unfolding Adds checked
checked-Adds p rule source_id kind next P a d = elim (Option-cases (check p source_id kind)) [
  | inl fine ↦ (
    λ h.
        let (clean, rest) = (a (using source_id d)).0 (rw (fine, checked) at h) in
        (clean, ((check-IsUsable p source_id kind).0 fine, rest)),
    λ h. rw (fine, checked) ((a (using source_id d)).1 (h.0, h.1.1)),
  )
  | inr (m, refused) ↦ (
    λ h. absurd (failed-problems rule m (using source_id d) (rw (refused, checked) at h)),
    λ h.
        (let fine = (check-IsUsable p source_id kind).1 h.1.0 in
          absurd (ground (arith, refused, fine))),
  )
]
