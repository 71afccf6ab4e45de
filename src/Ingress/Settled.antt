-- ===== src/Ingress/Settled.antt =====
-- What an answer of the door commits the hub to: what it acknowledges, and what it will not repeat.
use mathlib.Core.Path.{subst}
use sentry_mode.Prelude.{
  sym, ◌∙◌, String, ◌≡◌, refl, Bool, true, false, Option, none, some, List, All, arith,
  if◌then◌else◌, Bool-cases, string_eq, inl, inr,
}
use sentry_mode.Source.{SourceRef, make_ref}
use sentry_mode.Journal.{Mark, Contents, Store, Disk, ok, admit, Admission}
use sentry_mode.Journal.Receipts.{admit_nothing}
use sentry_mode.Journal.Once.{Op, run, Remembers, stored_once}
use sentry_mode.Ingress.{
  node_of, classify, NormalizedEvent, EventEnvelope, Hub, Receipt, write, entry_of, accept,
}
use sentry_mode.Ingress.Cases.{accept_cases}
use sentry_mode.Ingress.Live.{Eligible, accept-Eligible, event_of}

-- The node is told to keep its message, and nothing has changed.
abbrev KeptBack : Store → Store → Receipt → Type 0
KeptBack s s' r = r.settle ≡ false → (s' ≡ s) × (r.eligible ≡ false) × (r.stored ≡ false)

abbrev AnswerKeptBack : Store → Store → Option Receipt → Type 0
AnswerKeptBack s s' none = Unit {0}
AnswerKeptBack s s' (some r) = KeptBack s s' r

write-KeptBack :
    (digest : Contents → String) (s : Store) (disk : Disk) (n : NormalizedEvent) (m : Mark)
    → KeptBack s (write digest s disk n m).0 (write digest s disk n m).1
unfolding write
write-KeptBack digest s disk n m h =
    ground (arith, admit_nothing digest s disk (entry_of n) (some m))

-- If the answer tells the node to keep its message, the journal is as it was, and the answer claims
-- neither that the message was stored nor that it may be acted on.
pub accept-KeptBack {ℓ} :
    {Document : Type ℓ} (model_validate : Document → Option EventEnvelope) (hub : Hub) (s : Store)
    (node_id : String) (document : Document) (retained : Bool) (s' : Store) (r : Receipt)
    → accept model_validate hub s node_id document retained ≡ (s', some r)
    → r.settle ≡ false
    → (s' ≡ s) × (r.eligible ≡ false) × (r.stored ≡ false)
accept-KeptBack model_validate hub s node_id document retained s' r e = rw e at (
    accept_cases hub s node_id retained (AnswerKeptBack s) tt
      (λ c reason settle h. (refl, refl, refl)) model_validate document
      (λ v good ref known m own valid placed. write-KeptBack _ _ _ _ _))

make_ref-node :
    (n name : String) (ref : SourceRef) → make_ref (some n) name ≡ some ref → node_of ref ≡ n
unfolding make_ref
make_ref-node n name ref h = ground arith

not_stored :
    (b : Bool) → Admission.stored ≡ (if b then Admission.duplicate else Admission.id_reused) → ⊥
not_stored b h = ground arith

Eligible-clash :
    (hub hub' : Hub) (s : Store) (node_id : String) (v v' : EventEnvelope)
    (retained retained' : Bool) (s' s'' : Store) (r r' : Receipt) (ops : List (Disk × Op))
    → hub'.digest ≡ hub.digest
    → v'.event.event_id ≡ v.event.event_id
    → All Remembers ops
    → Eligible hub s node_id v retained s' r
    → Eligible hub' (run hub.digest s' ops) node_id v' retained' s'' r'
    → ⊥
Eligible-clash hub hub' s node_id v v' retained retained' s' s'' r r' ops same twin keeps first
      second =
    not_stored _ (
      stored_once hub.digest s hub.writing (entry_of n) mark ops hub'.writing (entry_of n') mark'
        Admission.stored first.written keeps nodes twin again)
  where
    n : NormalizedEvent
    n = event_of hub node_id v retained first.ref first.known first.m

    n' : NormalizedEvent
    n' = event_of hub' node_id v' retained' second.ref second.known second.m

    mark : Option Mark
    mark = some (classify hub.limits v.event v.delivery first.m retained hub.now).2

    mark' : Option Mark
    mark' = some (classify hub'.limits v'.event v'.delivery second.m retained' hub'.now).2

    nodes : node_of second.ref ≡ node_of first.ref
    nodes =
        make_ref-node _ _ second.ref second.valid_ref
        ∙ sym (make_ref-node _ _ first.ref first.valid_ref)

    again :
        (admit hub.digest
          (run hub.digest (admit hub.digest s hub.writing (entry_of n) mark).0 ops)
          hub'.writing
          (entry_of n')
          mark').1
        ≡ ok Admission.stored
    again = rw (← first.after) (
        subst
          (λ d.
            (admit d (run hub.digest s' ops) hub'.writing (entry_of n') mark').1
            ≡ ok Admission.stored)
          same second.written)

-- An event reaches a rule at most once: after the door has let it through, it lets no message of
-- the same node with the same event identifier through, whatever the journal was asked to do in
-- between short of forgetting receipts, by a hub with the same digest.
pub eligible_once {ℓ} :
    {Document : Type ℓ} (model_validate : Document → Option EventEnvelope) (hub hub' : Hub)
    (s : Store) (node_id : String) (document document' : Document) (retained retained' : Bool)
    (s' s'' : Store) (r r' : Receipt) (ops : List (Disk × Op)) (v v' : EventEnvelope)
    → hub'.digest ≡ hub.digest
    → model_validate document ≡ some v
    → model_validate document' ≡ some v'
    → v'.event.event_id ≡ v.event.event_id
    → All Remembers ops
    → accept model_validate hub s node_id document retained ≡ (s', some r)
    → r.eligible ≡ true
    → accept model_validate hub' (run hub.digest s' ops) node_id document' retained'
      ≡ (s'', some r')
    → r'.eligible ≡ false
eligible_once model_validate hub hub' s node_id document document' retained retained' s' s'' r r'
      ops v v' same good good' twin keeps e h e' =
    elim (Bool-cases r'.eligible) [
      | inr refused_so ↦ refused_so
      | inl passed ↦ absurd (
          not_again (accept-Eligible model_validate hub s node_id document retained s' r e h) (
            accept-Eligible model_validate hub' (run hub.digest s' ops) node_id document' retained'
              s'' r' e' passed))
    ]
  where
    not_again :
        ((w : EventEnvelope) × (model_validate document ≡ some w)
          × Eligible hub s node_id w retained s' r)
        → ((w : EventEnvelope) × (model_validate document' ≡ some w)
            × Eligible hub' (run hub.digest s' ops) node_id w retained' s'' r')
        → ⊥
    not_again (w, gw, first) (w', gw', second) =
        let a : w ≡ v = cc in
        let b : w' ≡ v' = cc in
        Eligible-clash hub hub' s node_id w w' retained retained' s' s'' r r' ops same
          (rw (a, b) twin) keeps first second
