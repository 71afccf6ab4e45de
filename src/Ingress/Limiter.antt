-- ===== src/Ingress/Limiter.antt =====
-- `RateLimiter` of satellites/ingress.py. A level is counted in parts of an event, as many parts to an
-- event as the clock has ticks to a minute, so that refilling by the clock is exact. The clock is
-- monotonic: no reading is smaller than the one before it.
pub mod Rates
use sentry_mode.Prelude.{
  ℕ, ◌+◌, ◌-◌, ◌*◌, ◌≤◌, String, ◌≡◌, refl, ◌≢◌, Bool, true, false, Option, none, some, List, [],
  ◌∷◌, arith, ltb, min, eq_iff, if◌then◌else◌, Option-cases, Bool-cases, inl, inr, ◌==◌, string_eq,
}
use sentry_mode.Prelude.Dict.{Dict, lookup, insert, lookup-insert}

-- How full a bucket was, and when.
pub record Bucket : Type 0 where
  pub level : ℕ
  pub filled_at : ℕ

pub record RateLimiter : Type 0 where
  pub minute : ℕ
  pub per_node : ℕ
  pub total : ℕ
  pub buckets : Dict Bucket
  pub shared : Bucket

-- Which budget an event ran out of.
pub data Budget : Type 0 where
  node hub : Budget

-- The buckets start full.
abbrev pub fresh : ℕ → ℕ → ℕ → ℕ → RateLimiter
fresh minute per_node total now = record {
  minute = minute;
  per_node = per_node;
  total = total;
  buckets = [];
  shared = record { level = total * minute; filled_at = now };
}

-- `_draw`: refill, and take one event's worth if it is there.
unfoldable pub draw : ℕ → Bucket → ℕ → ℕ → Bool × ℕ
draw minute b capacity now =
    let level = min (capacity * minute) (b.level + (now - b.filled_at) * capacity) in
    if ltb level minute then (false, level) else (true, level - minute)

abbrev pub bucket_or : Option Bucket → Bucket → Bucket
bucket_or none b = b
bucket_or (some a) b = a

unfoldable pub bucket_of : RateLimiter → String → ℕ → Bucket
bucket_of l node_id now =
    bucket_or (lookup node_id l.buckets) (record { level = l.per_node * l.minute; filled_at = now })

-- `none` when the event may pass, otherwise the budget that it ran out of.
unfoldable pub allow : RateLimiter → String → ℕ → RateLimiter × Option Budget
allow l node_id now =
    let (enough, level) = draw l.minute (bucket_of l node_id now) l.per_node now in
    if enough
    then (let (shared_enough, shared_level) = draw l.minute l.shared l.total now in
        if shared_enough
        then (
          record l {
            buckets = insert node_id (record { level = level; filled_at = now }) l.buckets;
            shared = record { level = shared_level; filled_at = now };
          },
          none,
        )
        else (record l { shared = record { level = shared_level; filled_at = now } }, some hub))
    else (
      record l { buckets = insert node_id (record { level = level; filled_at = now }) l.buckets },
      some node,
    )

-- A node that has run out of its own budget costs nobody else anything: the shared budget and every
-- other node's are as they were.
pub allow_isolates :
    (l : RateLimiter) (node_id other : String) (now : ℕ)
    → (allow l node_id now).1 ≡ some node
    → node_id ≢ other
    → ((allow l node_id now).0.shared ≡ l.shared)
      × (lookup other (allow l node_id now).0.buckets ≡ lookup other l.buckets)
unfolding allow
allow_isolates l node_id other now h ne = ground (
  arith,
  eq_iff node_id other,
  lookup-insert node_id other
      (record {
        level = (draw l.minute (bucket_of l node_id now) l.per_node now).1;
        filled_at = now;
      })
      l.buckets,
)

-- An event that the shared budget stops is not charged to its node.
pub allow_hub_uncharged :
    (l : RateLimiter) (node_id : String) (now : ℕ)
    → (allow l node_id now).1 ≡ some hub
    → (allow l node_id now).0.buckets ≡ l.buckets
unfolding allow
allow_hub_uncharged l node_id now h = ground arith
