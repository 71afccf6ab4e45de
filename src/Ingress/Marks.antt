-- ===== src/Ingress/Marks.antt =====
-- The position of each source in the journal, and what the door of satellites/ingress.py makes of it.
pub mod Order
pub mod Trace
use sentry_mode.Prelude.{
  ℕ, ◌≤◌, ◌<◌, String, ◌≡◌, refl, sym, ap, ◌∙◌, ◌⊎◌, inl, inr, Bool, true, false, not, Option, none,
  some, arith, leb, ◌==◌, string_eq, eq_iff, if◌then◌else◌, Option-cases, Bool-cases, max,
}
use sentry_mode.Prelude.Dict.{lookup, insert, lookup-insert}
use sentry_mode.Journal.{
  Mark, Contents, Store, Disk, Result, ok, mark, source_key, write_mark, admit,
}
use sentry_mode.Ingress.{
  SatelliteEvent, Delivery, Limits, NormalizedEvent, Receipt, classify, position, not_ahead, ahead,
  write,
}

-- The mark that is filed under `k` is of boot `b` and stands at `h` or beyond.
pub record Reached (k b : String) (h : ℕ) (s : Store) : Type 0 where
  pub m : Mark
  pub filed : lookup k s.marks ≡ some m
  pub boot : m.boot_id ≡ b
  pub at : ℕ
  pub high : m.high_water ≡ some at
  pub beyond : h ≤ at

-- Every mark is filed under the key of its own node and source.
pub record MarksFiled (s : Store) : Type 0 where
  pub at_key :
      (k : String) (m : Mark) → lookup k s.marks ≡ some m → source_key m.node_id m.source_id ≡ k

abbrev pub AtLeast : Option ℕ → Option ℕ → Type 0
AtLeast none y = Unit {0}
AtLeast (some x) none = ⊥
AtLeast (some x) (some y) = x ≤ y

-- The position that an event leaves is of the same source and boot, and not behind.
pub classify_mark :
    (limits : Limits) (e : SatelliteEvent) (d : Delivery) (m : Mark) (retained : Bool) (now : ℕ)
    → let m' = (classify limits e d m retained now).2 in
      (m'.node_id ≡ m.node_id) × (m'.source_id ≡ m.source_id) × (m'.boot_id ≡ m.boot_id)
unfolding classify
classify_mark limits e d m retained now = ground arith

pub ahead_max : (high : Option ℕ) (q : ℕ) → AtLeast high (some (ahead high q)) × (q ≤ ahead high q)
ahead_max none q = omega arith
ahead_max (some x) q = omega arith

AtLeast-refl : (x : Option ℕ) → AtLeast x x
AtLeast-refl none = tt
AtLeast-refl (some x) = omega arith

pub classify_high :
    (limits : Limits) (e : SatelliteEvent) (d : Delivery) (m : Mark) (retained : Bool) (now : ℕ)
    → AtLeast m.high_water (classify limits e d m retained now).2.high_water
unfolding classify
classify_high limits e d m retained now =
    ground (arith, ahead_max m.high_water e.sequence, AtLeast-refl m.high_water)

-- A live event takes its source's position to its own sequence number at least.
pub classify_live :
    (limits : Limits) (e : SatelliteEvent) (d : Delivery) (m : Mark) (retained : Bool) (now : ℕ)
    → (classify limits e d m retained now).1 ≡ none
    → (classify limits e d m retained now).2.high_water ≡ some (ahead m.high_water e.sequence)
unfolding classify
classify_live limits e d m retained now h = ground arith

-- A position read from the journal is the filed one if that is of the same boot, and otherwise a
-- fresh one for this boot; either is of this node and source where the marks are filed.
pub position_cases :
    (s : Store) (disk : Disk) (n i b : String) (m : Mark)
    → position s disk n i b ≡ ok m
    → ((lookup (source_key n i) s.marks ≡ some m) × (m.boot_id ≡ b))
      ⊎ ((m.high_water ≡ none)
          × (m.boot_id ≡ b)
          × (m.node_id ≡ n)
          × (m.source_id ≡ i)
          × ((k : Mark) → lookup (source_key n i) s.marks ≡ some k → k.boot_id ≡ b → ⊥))
unfolding position mark
position_cases s disk n i b m h = elim (Option-cases (lookup (source_key n i) s.marks)) [
  | inl missing ↦ inr (fresh missing)
  | inr (k, filed) ↦ elim (Bool-cases (k.boot_id == b)) [
    | inl same ↦
        let e : k ≡ m = ground (arith, h, filed, same) in
        inl (filed ∙ ap some e, sym (ap (λ (x : Mark). x.boot_id) e) ∙ (eq_iff k.boot_id b).0 same)
    | inr other ↦ inr (restarted k filed other)
  ]
]
  where
    fresh :
        lookup (source_key n i) s.marks ≡ none
        → (m.high_water ≡ none)
          × (m.boot_id ≡ b)
          × (m.node_id ≡ n)
          × (m.source_id ≡ i)
          × ((k : Mark) → lookup (source_key n i) s.marks ≡ some k → k.boot_id ≡ b → ⊥)
    fresh missing = (ground arith, ground arith, ground arith, ground arith, λ k e _. cc)

    restarted :
        (k : Mark)
        → lookup (source_key n i) s.marks ≡ some k
        → (k.boot_id == b) ≡ false
        → (m.high_water ≡ none)
          × (m.boot_id ≡ b)
          × (m.node_id ≡ n)
          × (m.source_id ≡ i)
          × ((k : Mark) → lookup (source_key n i) s.marks ≡ some k → k.boot_id ≡ b → ⊥)
    restarted k filed other = (
      ground arith,
      ground arith,
      ground arith,
      ground arith,
      λ k' e same. ground (arith, eq_iff k.boot_id b),
    )

pub write_marks :
    (digest : Contents → String) (s : Store) (disk : Disk) (n : NormalizedEvent) (m : Mark)
    → ((write digest s disk n m).0.marks ≡ s.marks)
      ⊎ ((write digest s disk n m).0.marks ≡ write_mark s.marks m)
unfolding write admit
write_marks digest s disk n m = ground arith
