-- ===== src/Ingress/Marks/Order.antt =====
-- What one call of the door does to the positions of the sources.
use mathlib.Core.Path.{subst}
use sentry_mode.Prelude.{
  ℕ, ◌≤◌, String, ◌≡◌, refl, sym, ◌∙◌, inl, inr, true, Option, none, some, arith, ◌==◌, string_eq,
  eq_iff, if◌then◌else◌, Option-cases, Bool-cases,
}
use sentry_mode.Prelude.Dict.{Dict, lookup, lookup-insert}
use sentry_mode.Journal.{Mark, Contents, Store, Disk, ok, source_key, write_mark, over, admit}
use sentry_mode.Ingress.{NormalizedEvent, position, write}
use sentry_mode.Ingress.Marks.{Reached, MarksFiled, AtLeast, position_cases, write_marks}

lookup-write_mark :
    (k : String) (marks : Dict Mark) (m : Mark)
    → lookup k (write_mark marks m) ≡ (
        if source_key m.node_id m.source_id == k
        then some (over (lookup (source_key m.node_id m.source_id) marks) m)
        else lookup k marks)
unfolding write_mark
lookup-write_mark k marks m = lookup-insert (source_key m.node_id m.source_id) k _ marks

over_keeps :
    (o : Option Mark) (m : Mark)
    → ((over o m).boot_id ≡ m.boot_id) × ((over o m).high_water ≡ m.high_water)
over_keeps none m = (refl, refl)
over_keeps (some k) m = (refl, refl)

-- The mark of a position is filed, or to be filed, under the key that was asked for.
pub position_key :
    (s : Store) (disk : Disk) (n i b : String) (m : Mark)
    → MarksFiled s
    → position s disk n i b ≡ ok m
    → (source_key m.node_id m.source_id ≡ source_key n i) × (m.boot_id ≡ b)
position_key s disk n i b m filed placed = elim (position_cases s disk n i b m placed) [
  | inl (there, same) ↦ (filed.at_key _ m there, same)
  | inr (blank, same, node, source, gone) ↦ (rw (node, source) refl, same)
]

pub write-MarksFiled :
    (digest : Contents → String) (s : Store) (disk : Disk) (n : NormalizedEvent) (m : Mark)
    → MarksFiled s
    → MarksFiled (write digest s disk n m).0
write-MarksFiled digest s disk n m filed = record {
  at_key = λ k found there. elim (write_marks digest s disk n m) [
    | inl same ↦ filed.at_key k found (rw same at there)
    | inr moved ↦ placed k found (rw (moved, lookup-write_mark k s.marks m) at there)
  ];
}
  where
    placed :
        (k : String) (found : Mark)
        → (if source_key m.node_id m.source_id == k
            then some (over (lookup (source_key m.node_id m.source_id) s.marks) m)
            else lookup k s.marks)
          ≡ some found
        → source_key found.node_id found.source_id ≡ k
    placed k found there =
        let key = source_key m.node_id m.source_id in
        elim (Option-cases (lookup key s.marks)) [
          | inl free ↦ ground (arith, filed.at_key k found, eq_iff key k)
          | inr (old, taken) ↦
              ground (arith, filed.at_key k found, filed.at_key key old taken, eq_iff key k)
        ]

pub write_live_marks :
    (digest : Contents → String) (s : Store) (disk : Disk) (n : NormalizedEvent) (m : Mark)
    → (write digest s disk n m).1.eligible ≡ true
    → ((write digest s disk n m).0.marks ≡ write_mark s.marks m) × (n.eligible ≡ true)
unfolding write admit
write_live_marks digest s disk n m h = ground arith

-- Writing a mark of boot `b` that stands at `h` or beyond leaves its key there.
pub filed_Reached :
    (k b : String) (h at : ℕ) (s s' : Store) (m : Mark)
    → s'.marks ≡ write_mark s.marks m
    → source_key m.node_id m.source_id ≡ k
    → m.boot_id ≡ b
    → m.high_water ≡ some at
    → h ≤ at
    → Reached k b h s'
filed_Reached k b h at s s' m moved key boot high beyond =
    let o = lookup (source_key m.node_id m.source_id) s.marks in
    let (same_boot, same_high) = over_keeps o m in
    record {
      m = over o m;
      filed =
          rw (moved, lookup-write_mark k s.marks m)
            (ground (arith, eq_iff (source_key m.node_id m.source_id) k));
      boot = same_boot ∙ boot;
      at = at;
      high = same_high ∙ high;
      beyond = beyond;
    }

AtLeast-some : (x : ℕ) (y : Option ℕ) → AtLeast (some x) y → (z : ℕ) × (y ≡ some z) × (x ≤ z)
AtLeast-some x none h = absurd h
AtLeast-some x (some z) h = (z, refl, h)

pub write-Reached :
    (digest : Contents → String) (s : Store) (disk : Disk) (n : NormalizedEvent) (m m' : Mark)
    (k b : String) (h : ℕ)
    → Reached k b h s
    → source_key m'.node_id m'.source_id ≡ source_key m.node_id m.source_id
    → (source_key m.node_id m.source_id ≡ k → (lookup k s.marks ≡ some m) × (m'.boot_id ≡ b))
    → AtLeast m.high_water m'.high_water
    → Reached k b h (write digest s disk n m').0
write-Reached digest s disk n m m' k b h was key of_key grown =
    elim (write_marks digest s disk n m') [
      | inl same ↦ record {
        m = was.m;
        filed = rw same was.filed;
        boot = was.boot;
        at = was.at;
        high = was.high;
        beyond = was.beyond;
      }
      | inr moved ↦ elim (Bool-cases (source_key m'.node_id m'.source_id == k)) [
        | inl mine ↦
            let key' = (eq_iff (source_key m'.node_id m'.source_id) k).0 mine in
            let (found, boot) = of_key (sym key ∙ key') in
            let same : was.m ≡ m = cc (was.filed, found) in
            let high : m.high_water ≡ some was.at =
              subst (λ (x : Mark). x.high_water ≡ some was.at) same was.high in
            let (z, high', more) = AtLeast-some was.at m'.high_water (rw high at grown) in
            filed_Reached k b h z s _ m' moved key' boot high' (omega (arith, was.beyond))
        | inr other ↦ record {
          m = was.m;
          filed = rw (moved, lookup-write_mark k s.marks m', other) was.filed;
          boot = was.boot;
          at = was.at;
          high = was.high;
          beyond = was.beyond;
        }
      ]
    ]
