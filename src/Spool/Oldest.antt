-- ===== src/Spool/Oldest.antt =====
-- Which messages the loops of the queue throw away: the oldest to make room, the newest on putting back.
use mathlib.Core.List.{append_assoc, append-nil}
use sentry_mode.Prelude.{
  ℕ, ◌+◌, ◌-◌, zero, suc, ◌≡◌, refl, ◌∙◌, sym, ap, inl, inr, Bool, List, [], ◌∷◌, ◌++◌, arith,
  length, length-append, Bool-cases,
}
use sentry_mode.Spool.{
  Held, Limits, Spool, total, discard_while, is_old, is_long, is_large, expire, shorten, shrink,
  drop_newest, drop_while_long, requeue,
}
use sentry_mode.Spool.Bounds.{pop_lem}

module _ {ℓ} {Item : Type ℓ} where
  discarded_suffix :
      (test : List (Held Item) → ℕ → Bool) (items : List (Held Item)) (nbytes discarded : ℕ)
      → (gone : List (Held Item)) × (gone ++ (discard_while test items nbytes discarded).0 ≡ items)
        × ((discard_while test items nbytes discarded).2 ≡ length gone + discarded)
  unfolding discard_while
  discarded_suffix test [] nbytes discarded = ([], refl, omega arith)
  discarded_suffix test (held ∷ items) nbytes discarded =
      elim (Bool-cases (test (held ∷ items) nbytes)) [
        | inl more ↦
            let (gone, e, n) = discarded_suffix test items (nbytes - held.size) (suc discarded) in
            rw more (held ∷ gone, ap (λ l. held ∷ l) e, omega (arith, n))
        | inr done ↦ rw done ([], refl, omega arith)
      ]

  pub expire_suffix :
      (c : Limits) (now : ℕ) (s : Spool Item)
      → (gone : List (Held Item)) × (gone ++ (expire c now s).items ≡ s.items)
        × (total (expire c now s).drops ≡ length gone + total s.drops)
  unfolding expire
  expire_suffix c now s =
      let (gone, e, n) = discarded_suffix (is_old c now) s.items s.nbytes 0 in
      (gone, e, omega (arith, n))

  pub shorten_suffix :
      (c : Limits) (s : Spool Item)
      → (gone : List (Held Item)) × (gone ++ (shorten c s).items ≡ s.items)
        × (total (shorten c s).drops ≡ length gone + total s.drops)
  unfolding shorten
  shorten_suffix c s =
      let (gone, e, n) = discarded_suffix (is_long c) s.items s.nbytes 0 in
      (gone, e, omega (arith, n))

  pub shrink_suffix :
      (c : Limits) (s : Spool Item)
      → (gone : List (Held Item)) × (gone ++ (shrink c s).items ≡ s.items)
        × (total (shrink c s).drops ≡ length gone + total s.drops)
  unfolding shrink
  shrink_suffix c s =
      let (gone, e, n) = discarded_suffix (is_large c) s.items s.nbytes 0 in
      (gone, e, omega (arith, n))

  pub joined :
      (a b c x y z w : List (Held Item))
      → a ++ x ≡ w
      → b ++ y ≡ x
      → c ++ z ≡ y
      → (a ++ (b ++ c)) ++ z ≡ w
  joined a b c x y z w p q r =
      append_assoc a (b ++ c) z ∙ ap (λ l. a ++ l) (append_assoc b c z ∙ ap (λ l. b ++ l) r ∙ q) ∙ p

  drop_newest_prefix :
      (s : Spool Item)
      → (gone : List (Held Item)) × ((drop_newest s).items ++ gone ≡ s.items)
        × (total (drop_newest s).drops ≡ length gone + total s.drops)
  unfolding drop_newest
  drop_newest_prefix s = elim (pop_lem s.items) [
    | inl (e, empty) ↦
        ([], rw (e, drop_newest) (append-nil s.items), rw (e, drop_newest) (omega arith))
    | inr (left, newest, e, all) ↦
        (newest ∷ [], rw (e, drop_newest) (sym all), rw (e, drop_newest) (omega arith))
  ]

  drop_while_long_prefix :
      (c : Limits) (fuel : ℕ) (s : Spool Item)
      → (gone : List (Held Item)) × ((drop_while_long c fuel s).items ++ gone ≡ s.items)
        × (total (drop_while_long c fuel s).drops ≡ length gone + total s.drops)
  unfolding drop_while_long
  drop_while_long_prefix c zero s = ([], append-nil s.items, omega arith)
  drop_while_long_prefix c (suc fuel) s = elim (Bool-cases (is_long c s.items s.nbytes)) [
    | inr short ↦ rw short ([], append-nil s.items, omega arith)
    | inl long ↦
        let (g, e, n) = drop_newest_prefix s in
        let (g', e', n') = drop_while_long_prefix c fuel (drop_newest s) in
        let l = length-append g' g in
        rw long (
          g' ++ g,
          sym (append_assoc (drop_while_long c fuel (drop_newest s)).items g' g)
              ∙ ap (λ l. l ++ g) e'
              ∙ e,
          n' ∙ omega (arith, n, l),
        )
  ]

  -- A message that is put back goes before the others, and what is thrown away for it is the newest.
  pub requeue_prefix :
      (c : Limits) (s : Spool Item) (held : Held Item)
      → (gone : List (Held Item)) × ((requeue c s held).items ++ gone ≡ held ∷ s.items)
        × (total (requeue c s held).drops ≡ length gone + total s.drops)
  unfolding requeue
  requeue_prefix c s held =
      let s' = record s { items = held ∷ s.items; nbytes = s.nbytes + held.size } in
      drop_while_long_prefix c (length s'.items) s'
