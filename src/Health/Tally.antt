-- ===== src/Health/Tally.antt =====
-- The refusals of a node and their reasons, over any sequence of calls of the board.
use sentry_mode.Prelude.{
  ℕ, ◌+◌, suc, String, ◌≡◌, refl, ap, ◌∙◌, Option, none, some, List, [], ◌∷◌, arith, ◌==◌,
  string_eq, Option-cases, Bool-cases, inl, inr,
}
use sentry_mode.Prelude.Dict.{Dict, lookup, insert, lookup-insert, lookup-erase}
use sentry_mode.Health.{
  NodeHealth, Heartbeat, Board, entry, heartbeat, waited, delayed, accepted, refused, counted,
  forget,
}

-- The sum of the counts.
abbrev pub sum : Dict ℕ → ℕ
sum [] = 0
sum ((reason, n) ∷ d) = n + sum d

sum-counted : (d : Dict ℕ) (reason : String) → sum (counted d reason) ≡ suc (sum d)
unfolding counted lookup insert
sum-counted [] reason = omega arith
sum-counted ((r, n) ∷ d) reason = ground (arith, sum-counted d reason)

-- What the board is told.
pub data Op {ℓ} (Document : Type ℓ) : Type ℓ where
  beats : String → Heartbeat Document → ℕ → Op Document
  waits : String → Option ℕ → ℕ → Op Document
  accepts : String → Op Document
  refuses : String → String → Op Document
  forgets : String → Op Document

module _ {ℓ} {Document : Type ℓ} where
  unfoldable pub step : Board Document → Op Document → Board Document
  step b (Op.beats node_id document now) = heartbeat b node_id document now
  step b (Op.waits node_id waited_ms now) = (waited b node_id waited_ms now).0
  step b (Op.accepts node_id) = accepted b node_id
  step b (Op.refuses node_id reason) = refused b node_id reason
  step b (Op.forgets node_id) = forget b node_id

  unfoldable pub run : Board Document → List (Op Document) → Board Document
  run b [] = b
  run b (op ∷ ops) = run (step b op) ops

  -- Every entry counts as many refusals as its reasons add up to.
  pub record IsTallied (b : Board Document) : Type ℓ where
    pub tally :
        (k : String) (e : NodeHealth Document) → lookup k b ≡ some e → sum e.reasons ≡ e.refused

  entry_tally :
      (b : Board Document) (k : String)
      → IsTallied b
      → sum (entry b k).reasons ≡ (entry b k).refused
  unfolding entry
  entry_tally b k h = elim (Option-cases (lookup k b)) [
    | inl new ↦ rw new refl
    | inr (e, there) ↦ rw there (h.tally k e there)
  ]

  insert-IsTallied :
      (b : Board Document) (n : String) (e : NodeHealth Document)
      → sum e.reasons ≡ e.refused
      → IsTallied b
      → IsTallied (insert n e b)
  insert-IsTallied b n e own h = record {
    tally = λ k found there. elim (Bool-cases (n == k)) [
      | inl here ↦
          let same : e ≡ found = ground (arith, rw lookup-insert at there, here) in rw (← same) own
      | inr other ↦ h.tally k found (ground (arith, rw lookup-insert at there, other))
    ];
  }

  step-IsTallied : (b : Board Document) (op : Op Document) → IsTallied b → IsTallied (step b op)
  unfolding step heartbeat waited delayed accepted refused forget
  step-IsTallied b (Op.beats n document now) h = insert-IsTallied b n _ (entry_tally b n h) h
  step-IsTallied b (Op.waits n none now) h = h
  step-IsTallied b (Op.waits n (some ms) now) h = insert-IsTallied b n _ (entry_tally b n h) h
  step-IsTallied b (Op.accepts n) h = insert-IsTallied b n _ (entry_tally b n h) h
  step-IsTallied b (Op.refuses n reason) h =
      insert-IsTallied b n _ (sum-counted (entry b n).reasons reason ∙ ap suc (entry_tally b n h)) h
  step-IsTallied b (Op.forgets n) h = record {
    tally = λ k e there. h.tally k e (ground (arith, rw lookup-erase at there));
  }

  -- Whatever the board is told of its nodes, and whichever it forgets, the refusals that it counts
  -- for a node are those that it counts for the reasons together, if they were before.
  pub run-IsTallied :
      (b : Board Document) (ops : List (Op Document)) → IsTallied b → IsTallied (run b ops)
  unfolding run
  run-IsTallied b [] h = h
  run-IsTallied b (op ∷ ops) h = run-IsTallied (step b op) ops (step-IsTallied b op h)
