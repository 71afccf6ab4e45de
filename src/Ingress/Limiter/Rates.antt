-- ===== src/Ingress/Limiter/Rates.antt =====
-- How many events the budgets of `RateLimiter` let through.
use sentry_mode.Prelude.{
  ℕ, ◌+◌, ◌-◌, ◌*◌, ◌≤◌, String, ◌≡◌, refl, false, Option, none, some, List, [], ◌∷◌, arith, eq_iff,
  if◌then◌else◌, Option-cases, Bool-cases, inl, inr, ◌==◌, string_eq,
}
use sentry_mode.Prelude.Dict.{lookup, lookup-insert}
use sentry_mode.Ingress.Limiter.{Bucket, RateLimiter, Budget, fresh, draw, bucket_of, allow}

gained : (c f now : ℕ) → f ≤ now → (now - f) * c + c * f ≡ c * now
gained c f now h = grind arith

-- What a draw leaves, and what it took, come out of what was there and what the time brought.
draw_spends :
    (minute : ℕ) (b : Bucket) (capacity now : ℕ)
    → b.filled_at ≤ now
    → (if (draw minute b capacity now).0 then minute else 0)
        + (draw minute b capacity now).1
        + capacity * b.filled_at
      ≤ b.level + capacity * now
unfolding draw
draw_spends minute b capacity now h = ground (arith, gained capacity b.filled_at now h)

-- The clock's readings at the calls never go back.
abbrev pub Forward : ℕ → List (String × ℕ) → Type 0
Forward from [] = Unit {0}
Forward from ((node_id, now) ∷ calls) = (from ≤ now) × Forward now calls

abbrev last : ℕ → List (String × ℕ) → ℕ
last from [] = from
last from ((node_id, now) ∷ calls) = last now calls

abbrev pub passed : Option Budget → ℕ
passed none = 1
passed (some b) = 0

-- How many events pass, of any node, and of one node.
unfoldable pub passes : RateLimiter → List (String × ℕ) → ℕ
passes l [] = 0
passes l ((node_id, now) ∷ calls) =
    passed (allow l node_id now).1 + passes (allow l node_id now).0 calls

unfoldable pub passes_of : String → RateLimiter → List (String × ℕ) → ℕ
passes_of one l [] = 0
passes_of one l ((node_id, now) ∷ calls) =
    (if node_id == one then passed (allow l node_id now).1 else 0)
    + passes_of one (allow l node_id now).0 calls

module _ (l : RateLimiter) (node_id : String) (now : ℕ) where
  allow_settings :
      ((allow l node_id now).0.minute ≡ l.minute)
      × ((allow l node_id now).0.total ≡ l.total)
      × ((allow l node_id now).0.per_node ≡ l.per_node)
  unfolding allow
  allow_settings = ground arith

  -- One call spends no more of the shared budget than the time brought.
  allow_shared :
      l.shared.filled_at ≤ now
      → (passed (allow l node_id now).1 * l.minute
            + (allow l node_id now).0.shared.level
            + l.total * l.shared.filled_at
          ≤ l.shared.level + l.total * (allow l node_id now).0.shared.filled_at)
        × ((allow l node_id now).0.shared.filled_at ≤ now)
  unfolding allow
  allow_shared h = ground (arith, draw_spends l.minute l.shared l.total now h)

shared_run :
    (l : RateLimiter) (from : ℕ) (calls : List (String × ℕ))
    → l.shared.filled_at ≤ from
    → Forward from calls
    → passes l calls * l.minute + l.total * l.shared.filled_at
      ≤ l.shared.level + l.total * last from calls
unfolding passes
shared_run l from [] h f = grind arith
shared_run l from ((node_id, now) ∷ calls) h f =
    let (spent, fine) = allow_shared l node_id now (omega arith) in
    let (m, t, p) = allow_settings l node_id now in
    let rest = shared_run (allow l node_id now).0 now calls fine f.1 in
    let rest' = rw (m, t) at rest in omega arith

-- The bucket that a node's next call finds, its own as it stands or a full one, and what the call
-- leaves of it.
module _ (l : RateLimiter) (node_id : String) (now : ℕ) where
  allow_own :
      (bucket_of l node_id now).filled_at ≤ now
      → (passed (allow l node_id now).1 * l.minute
            + (bucket_of (allow l node_id now).0 node_id now).level
            + l.per_node * (bucket_of l node_id now).filled_at
          ≤ (bucket_of l node_id now).level
            + l.per_node * (bucket_of (allow l node_id now).0 node_id now).filled_at)
        × ((bucket_of (allow l node_id now).0 node_id now).filled_at ≤ now)
  unfolding allow bucket_of
  allow_own h =
      let b = bucket_of l node_id now in
      ground (
        arith,
        draw_spends l.minute b l.per_node now h,
        lookup-insert node_id node_id
            (record { level = (draw l.minute b l.per_node now).1; filled_at = now }) l.buckets,
        eq_iff node_id node_id,
      )

  allow_other :
      (one : String)
      → (node_id == one) ≡ false
      → bucket_of (allow l node_id now).0 one now ≡ bucket_of l one now
  unfolding allow bucket_of
  allow_other one ne = ground (
    arith,
    lookup-insert node_id one
        (record {
          level = (draw l.minute (bucket_of l node_id now) l.per_node now).1;
          filled_at = now;
        })
        l.buckets,
  )

mul_le : (c a b : ℕ) → a ≤ b → c * a ≤ c * b
mul_le c a b h = grind arith

bucket_later :
    (l : RateLimiter) (one : String) (from now : ℕ)
    → (bucket_of l one from).filled_at ≤ from
    → from ≤ now
    → ((bucket_of l one now).level ≡ (bucket_of l one from).level)
      × (l.per_node * (bucket_of l one from).filled_at
          ≤ l.per_node * (bucket_of l one now).filled_at)
      × ((bucket_of l one now).filled_at ≤ now)
unfolding bucket_of
bucket_later l one from now h f = elim (Option-cases (lookup one l.buckets)) [
  | inl absent ↦ rw absent (refl, mul_le l.per_node from now f, omega arith)
  | inr (b, present) ↦ rw present (refl, omega arith, let h' = rw present at h in omega arith)
]

step_node :
    (l : RateLimiter) (one node_id : String) (from now : ℕ)
    → (bucket_of l one from).filled_at ≤ from
    → from ≤ now
    → ((if node_id == one then passed (allow l node_id now).1 else 0) * l.minute
          + (bucket_of (allow l node_id now).0 one now).level
          + l.per_node * (bucket_of l one from).filled_at
        ≤ (bucket_of l one from).level
          + l.per_node * (bucket_of (allow l node_id now).0 one now).filled_at)
      × ((bucket_of (allow l node_id now).0 one now).filled_at ≤ now)
step_node l one node_id from now h f =
    let (level, filled, fine) = bucket_later l one from now h f in
    elim (Bool-cases (node_id == one)) [
      | inl mine ↦
          let same = (eq_iff node_id one).0 mine in
          let own = rw same at (allow_own l node_id now (rw same fine)) in
          rw (mine, same) (omega arith, own.1)
      | inr other ↦ rw (other, allow_other l node_id now one other) (omega arith, fine)
    ]

node_run :
    (l : RateLimiter) (one : String) (from : ℕ) (calls : List (String × ℕ))
    → (bucket_of l one from).filled_at ≤ from
    → Forward from calls
    → passes_of one l calls * l.minute + l.per_node * (bucket_of l one from).filled_at
      ≤ (bucket_of l one from).level + l.per_node * last from calls
unfolding passes_of
node_run l one from [] h f = grind arith
node_run l one from ((node_id, now) ∷ calls) h f =
    let (spent, fine) = step_node l one node_id from now h f.0 in
    let (m, t, p) = allow_settings l node_id now in
    let rest = node_run (allow l node_id now).0 one now calls fine f.1 in
    let rest' = rw (m, p) at rest in omega arith

-- On a clock that does not go back, however many nodes send and however the calls fall, no more
-- events pass in all than the shared budget holds when full and earns in the time.
pub total_rate :
    (minute per_node total start : ℕ) (calls : List (String × ℕ))
    → Forward start calls
    → passes (fresh minute per_node total start) calls * minute + total * start
      ≤ total * minute + total * last start calls
total_rate minute per_node total start calls f =
    shared_run (fresh minute per_node total start) start calls (omega arith) f

-- On a clock that does not go back, no more events of one node pass than its own budget holds when
-- full and earns in the time.
pub node_rate :
    (minute per_node total start : ℕ) (one : String) (calls : List (String × ℕ))
    → Forward start calls
    → passes_of one (fresh minute per_node total start) calls * minute + per_node * start
      ≤ per_node * minute + per_node * last start calls
unfolding lookup bucket_of
node_rate minute per_node total start one calls f =
    node_run (fresh minute per_node total start) one start calls (omega arith) f
