-- ===== src/Spool.antt =====
-- satellite/src/sentry_satellite/spool.py: what the agent holds on to while the hub is not listening.
-- A moment is a number of ticks of the board's clock; a deadline is written as a sum against a sum.
pub mod Bounds
pub mod Ledger
pub mod Oldest
use sentry_mode.Prelude.{
  ℕ, ◌+◌, ◌-◌, zero, suc, String, Bool, true, false, Option, none, some, List, [], ◌∷◌, ◌++◌, ltb,
  length, if◌then◌else◌,
}

-- Why things were thrown away.
pub record Drops : Type 0 where
  pub count : ℕ
  pub bytes : ℕ
  pub age : ℕ

abbrev pub total : Drops → ℕ
total d = d.count + d.bytes + d.age

pub record Held {ℓ} (Item : Type ℓ) : Type ℓ where
  pub item : Item
  pub size : ℕ
  pub queued_at : ℕ
  pub topic : String
  pub initial : Bool

-- The three limits of a `Spool`.
pub record Limits : Type 0 where
  pub max_count : ℕ
  pub max_bytes : ℕ
  pub max_age_seconds : ℕ

-- The queue, oldest first, and how many bytes it counts. A difference of bytes is one of ℕ: what
-- is taken away is part of the sum.
pub record Spool {ℓ} (Item : Type ℓ) : Type ℓ where
  pub items : List (Held Item)
  pub nbytes : ℕ
  pub drops : Drops

-- What a loop over the queue has left: the queue, its bytes, and how many were discarded.
abbrev pub Left {ℓ} : Type ℓ → Type ℓ
Left Item = List (Held Item) × ℕ × ℕ

module _ {ℓ} {Item : Type ℓ} where
  -- `while <test>: self._discard(…)`, which ends with the queue at the latest.
  unfoldable pub discard_while :
      (List (Held Item) → ℕ → Bool) → List (Held Item) → ℕ → ℕ → Left Item
  discard_while test [] nbytes discarded = ([], nbytes, discarded)
  discard_while test (held ∷ items) nbytes discarded =
      let rest = discard_while test items (nbytes - held.size) (suc discarded) in
      if test (held ∷ items) nbytes then rest else (held ∷ items, nbytes, discarded)

  abbrev pub is_old : Limits → ℕ → List (Held Item) → ℕ → Bool
  is_old c now [] nbytes = false
  is_old c now (held ∷ items) nbytes = ltb (held.queued_at + c.max_age_seconds) now

  abbrev pub is_long : Limits → List (Held Item) → ℕ → Bool
  is_long c items nbytes = ltb c.max_count (length items)

  abbrev pub is_large : Limits → List (Held Item) → ℕ → Bool
  is_large c items nbytes = ltb c.max_bytes nbytes

  unfoldable pub expire : Limits → ℕ → Spool Item → Spool Item
  expire c now s =
      let (items, nbytes, discarded) = discard_while (is_old c now) s.items s.nbytes 0 in
      record {
        items = items;
        nbytes = nbytes;
        drops = record s.drops { age = s.drops.age + discarded };
      }

  unfoldable pub shorten : Limits → Spool Item → Spool Item
  shorten c s =
      let (items, nbytes, discarded) = discard_while (is_long c) s.items s.nbytes 0 in
      record {
        items = items;
        nbytes = nbytes;
        drops = record s.drops { count = s.drops.count + discarded };
      }

  unfoldable pub shrink : Limits → Spool Item → Spool Item
  shrink c s =
      let (items, nbytes, discarded) = discard_while (is_large c) s.items s.nbytes 0 in
      record {
        items = items;
        nbytes = nbytes;
        drops = record s.drops { bytes = s.drops.bytes + discarded };
      }

  abbrev pub appended : Spool Item → Held Item → Spool Item
  appended s held = record s { items = s.items ++ held ∷ []; nbytes = s.nbytes + held.size }

  unfoldable pub put : Limits → Spool Item → String → Item → ℕ → Bool → ℕ → Spool Item
  put c s topic item size initial now = shrink c (
      shorten c (
        expire c now (
          appended s record {
            item = item;
            size = size;
            queued_at = now;
            topic = topic;
            initial = initial;
          })))

  -- `while self._items and len(taken) < limit`, with what is taken in order.
  unfoldable pub take_from : ℕ → List (Held Item) → ℕ → List (Held Item) × List (Held Item) × ℕ
  take_from zero items nbytes = ([], items, nbytes)
  take_from (suc limit) [] nbytes = ([], [], nbytes)
  take_from (suc limit) (held ∷ items) nbytes =
      let (taken, left, nbytes') = take_from limit items (nbytes - held.size) in
      (held ∷ taken, left, nbytes')

  -- Hand out the oldest messages that are still worth sending.
  unfoldable pub take : Limits → Spool Item → ℕ → ℕ → Spool Item × List (Held Item)
  take c s limit now =
      let s' = expire c now s in
      let (taken, left, nbytes) = take_from limit s'.items s'.nbytes in
      (record s' { items = left; nbytes = nbytes }, taken)

  -- `deque.pop()`: the queue without its newest, and that.
  unfoldable pub pop : List (Held Item) → Option (List (Held Item) × Held Item)
  pop [] = none
  pop (held ∷ items) = elim (pop items) [
    | none ↦ some ([], held)
    | some (left, newest) ↦ some (held ∷ left, newest)
  ]

  unfoldable pub drop_newest : Spool Item → Spool Item
  drop_newest s = elim (pop s.items) [
    | none ↦ s
    | some (left, newest) ↦ record {
      items = left;
      nbytes = s.nbytes - newest.size;
      drops = record s.drops { count = suc s.drops.count };
    }
  ]

  -- `while len(self._items) > self.max_count`, on fuel; the queue's length is enough.
  unfoldable pub drop_while_long : Limits → ℕ → Spool Item → Spool Item
  drop_while_long c zero s = s
  drop_while_long c (suc fuel) s =
      let rest = drop_while_long c fuel (drop_newest s) in
      if is_long c s.items s.nbytes then rest else s

  -- Put back something that could not be sent, without losing its place in time.
  unfoldable pub requeue : Limits → Spool Item → Held Item → Spool Item
  requeue c s held =
      let s' = record s { items = held ∷ s.items; nbytes = s.nbytes + held.size } in
      drop_while_long c (length s'.items) s'
