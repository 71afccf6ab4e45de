-- ===== src/Spool/Bounds.antt =====
-- The bounds of the queue: how many it holds and how many bytes they take.
use sentry_mode.Prelude.{
  ℕ, ◌+◌, ◌-◌, ◌≤◌, zero, suc, String, ◌≡◌, refl, ◌∙◌, inl, inr, Bool, false, none, some, List, [],
  ◌∷◌, ◌++◌, arith, length, length-append, Bool-cases, ap, min, ◌⊎◌,
}
use sentry_mode.Spool.{
  Held, Limits, Spool, discard_while, is_old, is_long, is_large, expire, shorten, shrink, put,
  take_from, take, pop, drop_newest, drop_while_long, requeue, appended,
}

module _ {ℓ} {Item : Type ℓ} where
  -- The sum of the sizes.
  abbrev pub weight : List (Held Item) → ℕ
  weight [] = 0
  weight (held ∷ items) = held.size + weight items

  weight-append : (xs ys : List (Held Item)) → weight (xs ++ ys) ≡ weight xs + weight ys
  weight-append [] ys = omega arith
  weight-append (x ∷ xs) ys = omega (arith, weight-append xs ys)

  -- The bytes that are counted are those of the queue, which is no longer than it may be.
  pub record IsCounted (c : Limits) (s : Spool Item) : Type 0 where
    pub bytes : s.nbytes ≡ weight s.items
    pub count : length s.items ≤ c.max_count

  pub discard_while_lem :
      (test : List (Held Item) → ℕ → Bool) (items : List (Held Item)) (nbytes discarded : ℕ)
      → nbytes ≡ weight items
      → let (left, nbytes', discarded') = discard_while test items nbytes discarded in
        (nbytes' ≡ weight left)
        × (length left + discarded' ≡ length items + discarded)
        × (length left ≤ length items)
        × (weight left ≤ weight items)
  unfolding discard_while
  discard_while_lem test [] nbytes discarded h = (h, refl, omega arith, omega arith)
  discard_while_lem test (held ∷ items) nbytes discarded h =
      ground (arith, discard_while_lem test items (nbytes - held.size) (suc discarded))

  -- The loop ends with its test false or the queue empty.
  discard_while_ends :
      (test : List (Held Item) → ℕ → Bool) (items : List (Held Item)) (nbytes discarded : ℕ)
      → test [] 0 ≡ false
      → nbytes ≡ weight items
      → let (left, nbytes', discarded') = discard_while test items nbytes discarded in
        test left nbytes' ≡ false
  unfolding discard_while
  discard_while_ends test [] nbytes discarded never h = rw h never
  discard_while_ends test (held ∷ items) nbytes discarded never h =
      elim (Bool-cases (test (held ∷ items) nbytes)) [
        | inl yes_so ↦ rw yes_so (
            discard_while_ends test items (nbytes - held.size) (suc discarded) never
              (omega (arith, h)))
        | inr no_so ↦ rw no_so no_so
      ]

  pub expire-IsCounted :
      (c : Limits) (now : ℕ) (s : Spool Item)
      → s.nbytes ≡ weight s.items
      → ((expire c now s).nbytes ≡ weight (expire c now s).items)
        × (length (expire c now s).items ≤ length s.items)
  unfolding expire
  expire-IsCounted c now s h =
      let d = discard_while_lem (is_old c now) s.items s.nbytes 0 h in (d.0, d.2)

  pub shorten-IsCounted :
      (c : Limits) (s : Spool Item) → s.nbytes ≡ weight s.items → IsCounted c (shorten c s)
  unfolding shorten
  shorten-IsCounted c s h = record {
    bytes = (discard_while_lem (is_long c) s.items s.nbytes 0 h).0;
    count =
        let e = discard_while_ends (is_long c) s.items s.nbytes 0 (ground arith) h in ground arith;
  }

  shrink-IsCounted :
      (c : Limits) (s : Spool Item)
      → IsCounted c s
      → IsCounted c (shrink c s) × ((shrink c s).nbytes ≤ c.max_bytes)
  unfolding shrink
  shrink-IsCounted c s h =
      let d = discard_while_lem (is_large c) s.items s.nbytes 0 h.bytes in
      let e = discard_while_ends (is_large c) s.items s.nbytes 0 (ground arith) h.bytes in
      let n = h.count in
      (record { bytes = d.0; count = let l = d.2 in omega (arith, l, n) }, ground arith)

  -- After anything has been put into a queue that was counted right, it holds no more messages and
  -- no more bytes than it may, and the bytes that it counts are those of the messages in it.
  pub put-IsCounted :
      (c : Limits) (s : Spool Item) (topic : String) (item : Item) (size : ℕ) (initial : Bool)
      (now : ℕ)
      → IsCounted c s
      → IsCounted c (put c s topic item size initial now)
        × ((put c s topic item size initial now).nbytes ≤ c.max_bytes)
  unfolding put
  put-IsCounted c s topic item size initial now h =
      let held : Held Item = record {
        item = item;
        size = size;
        queued_at = now;
        topic = topic;
        initial = initial;
      } in
      let b = h.bytes in
      shrink-IsCounted c _ (
        shorten-IsCounted c _
          (expire-IsCounted c now (appended s held)
            (omega (arith, b, weight-append s.items (held ∷ [])))).0)

  pub take_from_lem :
      (limit : ℕ) (items : List (Held Item)) (nbytes : ℕ)
      → nbytes ≡ weight items
      → let (taken, left, nbytes') = take_from limit items nbytes in
        (nbytes' ≡ weight left)
        × (taken ++ left ≡ items)
        × (length taken ≡ min limit (length items))
  unfolding take_from
  take_from_lem zero items nbytes h = (h, refl, omega arith)
  take_from_lem (suc limit) [] nbytes h = (h, refl, omega arith)
  take_from_lem (suc limit) (held ∷ items) nbytes h =
      let (b, e, n) = take_from_lem limit items (nbytes - held.size) (omega (arith, h)) in
      (b, ap (λ l. held ∷ l) e, omega (arith, n))

  pub take-IsCounted :
      (c : Limits) (s : Spool Item) (limit now : ℕ)
      → IsCounted c s
      → IsCounted c (take c s limit now).0
  unfolding take
  take-IsCounted c s limit now h =
      let (b, l) = expire-IsCounted c now s h.bytes in
      let s' = expire c now s in
      let (b', e, n) = take_from_lem limit s'.items s'.nbytes b in
      let same = ap length e ∙ refl in
      let split =
        length-append (take_from limit s'.items s'.nbytes).0
          (take_from limit s'.items s'.nbytes).1 in
      let most = h.count in record { bytes = b'; count = omega (arith, l, split, same, most) }

  pub pop_lem :
      (items : List (Held Item))
      → ((pop items ≡ none) × (items ≡ []))
        ⊎ ((left : List (Held Item)) × (newest : Held Item) × (pop items ≡ some (left, newest))
            × (items ≡ left ++ newest ∷ []))
  unfolding pop
  pop_lem [] = inl (refl, refl)
  pop_lem (held ∷ items) = elim (pop_lem items) [
    | inl (e, empty) ↦ inr ([], held, rw (e, pop) refl, rw empty refl)
    | inr (left, newest, e, all) ↦
        inr (held ∷ left, newest, rw (e, pop) refl, ap (λ l. held ∷ l) all)
  ]

  drop_newest_lem :
      (s : Spool Item)
      → s.nbytes ≡ weight s.items
      → ((drop_newest s).nbytes ≡ weight (drop_newest s).items)
        × (length (drop_newest s).items ≡ length s.items - 1)
  unfolding drop_newest
  drop_newest_lem s h = elim (pop_lem s.items) [
    | inl (e, empty) ↦ rw (e, drop_newest) (h, rw empty refl)
    | inr (left, newest, e, all) ↦
        let w = ap weight all ∙ weight-append left (newest ∷ []) in
        let n = ap length all ∙ length-append left (newest ∷ []) in
        rw (e, drop_newest) (omega (arith, w, h), omega (arith, n))
  ]

  drop_while_long_lem :
      (c : Limits) (fuel : ℕ) (s : Spool Item)
      → s.nbytes ≡ weight s.items
      → length s.items ≤ fuel
      → IsCounted c (drop_while_long c fuel s)
  unfolding drop_while_long
  drop_while_long_lem c zero s h enough = record { bytes = h; count = omega (arith, enough) }
  drop_while_long_lem c (suc fuel) s h enough = elim (Bool-cases (is_long c s.items s.nbytes)) [
    | inr short ↦ rw short (record { bytes = h; count = ground arith })
    | inl long ↦
        let (b, n) = drop_newest_lem s h in
        rw long (drop_while_long_lem c fuel (drop_newest s) b (omega (arith, n, enough)))
  ]

  -- Putting a message back keeps the bytes counted and the number of messages bounded.
  pub requeue-IsCounted :
      (c : Limits) (s : Spool Item) (held : Held Item)
      → IsCounted c s
      → IsCounted c (requeue c s held)
  unfolding requeue
  requeue-IsCounted c s held h =
      let b = h.bytes in
      let s' = record s { items = held ∷ s.items; nbytes = s.nbytes + held.size } in
      drop_while_long_lem c (length s'.items) s' (omega (arith, b)) (omega arith)
