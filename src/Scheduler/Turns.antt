-- ===== src/Scheduler/Turns.antt =====
-- Turns of the scheduler: any sequence of its calls, and what one of them does to one source.
use sentry_mode.Prelude.{
  ℕ, ◌≤◌, String, ◌≡◌, ◌⊎◌, refl, ◌∙◌, inl, inr, Bool, true, false, none, some, List, [], ◌∷◌, ◌==◌,
  string_eq, nat_eq, arith, All, Bool-cases, Option-cases, eq_iff,
}
use sentry_mode.Prelude.Dict.{Dict, lookup, insert, lookup-insert}
use sentry_mode.Scheduler.{
  Settings, FramePacket, Demand, Source, Scheduler, Turn, all_idle, idle, load, demand, release,
  boost, offer, pick, is_ready, is_earlier, take, failed, close,
}

-- A call, or a turn of the worker's loop at a moment; `fails` is a turn whose inference raised.
pub data Op : Type 0 where
  loads : Bool → Op
  demands : String → String → Demand → Bool → Op
  releases : String → String → Op
  boosts : String → ℕ → ℕ → ℕ → Op
  offers : FramePacket → Op
  takes : ℕ → Op
  fails : Turn → String → Op
  closes : Op

unfoldable pub step : Settings → Scheduler → Op → Scheduler
step c s (Op.loads built) = (load s built).0
step c s (Op.demands i owner d built) = (demand c s i owner d built).0
step c s (Op.releases i owner) = release s i owner
step c s (Op.boosts i factor ticks now) = boost c s i factor ticks now
step c s (Op.offers p) = (offer s p).0
step c s (Op.takes now) = (take c s now).0
step c s (Op.fails turn message) = failed c s turn message
step c s Op.closes = close s

unfoldable pub run : Settings → Scheduler → List Op → Scheduler
run c s [] = s
run c s (o ∷ os) = run c (step c s o) os

-- Each name has one entry, as in a dictionary.
unfoldable pub IsDict : Dict Source → Type 0
IsDict [] = Unit
IsDict ((i, s) ∷ rest) = (lookup i rest ≡ none) × IsDict rest

pub insert-IsDict : (i : String) (s : Source) (d : Dict Source) → IsDict d → IsDict (insert i s d)
unfolding IsDict insert lookup
insert-IsDict i s [] h = (refl, tt)
insert-IsDict i s ((j, t) ∷ rest) h = elim (Bool-cases (j == i)) [
  | inl here ↦ rw here h
  | inr other ↦ rw other (
    ground (arith, lookup-insert i j s rest, other, h.0, eq_iff i j, eq_iff j i),
    insert-IsDict i s rest h.1,
  )
]

pub lookup-all_idle :
    (i : String) (d : Dict Source)
    → ((lookup i d ≡ none) × (lookup i (all_idle d) ≡ none))
      ⊎ ((s : Source) × (lookup i d ≡ some s) × (lookup i (all_idle d) ≡ some (idle s)))
unfolding lookup
lookup-all_idle i [] = inl (refl, refl)
lookup-all_idle i ((j, s) ∷ rest) = elim (Bool-cases (j == i)) [
  | inl here ↦ inr (s, rw here refl, rw here refl)
  | inr other ↦ rw other (lookup-all_idle i rest)
]

pub all_idle-IsDict : (d : Dict Source) → IsDict d → IsDict (all_idle d)
unfolding IsDict
all_idle-IsDict [] h = tt
all_idle-IsDict ((i, s) ∷ rest) h = (
  elim (lookup-all_idle i rest) [
    | inl (_, gone) ↦ gone
    | inr (t, there, _) ↦ (let absent = h.0 in absurd (ground (arith, there, absent)))
  ],
  all_idle-IsDict rest h.1,
)

-- The first entry is picked, or the pick of the rest stands.
pick-cons :
    (j i : String) (t s : Source) (rest : Dict Source)
    → pick ((j, t) ∷ rest) ≡ some (i, s)
    → ((j ≡ i)
        × (t ≡ s)
        × (is_ready t ≡ true)
        × ((k : String) (u : Source) → pick rest ≡ some (k, u) → t.next_due ≤ u.next_due))
      ⊎ ((pick rest ≡ some (i, s)) × (is_ready t ≡ true → s.next_due ≤ t.next_due))
unfolding pick
pick-cons j i t s rest e = elim (Bool-cases (is_ready t)) [
  | inr idle_one ↦ inr (rw (idle_one, pick) at e, λ h. absurd (ground (arith, h, idle_one)))
  | inl ready ↦ elim (Option-cases (pick rest)) [
    | inl nobody ↦
        let e' = rw (ready, nobody, pick) at e in
        inl (
          ground (arith, e'),
          ground (arith, e'),
          ready,
          λ k u h. absurd (ground (arith, h, nobody)),
        )
    | inr ((k, u), best) ↦ elim (Bool-cases (is_earlier (u.next_due, k) (t.next_due, j))) [
      | inl sooner ↦
          let e' = rw (ready, best, sooner, pick) at e in
          let same : u ≡ s = ground (arith, e') in
          inr (best ∙ e', λ _. rw (← same) (ground (arith, sooner)))
      | inr later ↦
          let e' = rw (ready, best, later, pick) at e in
          inl (
            ground (arith, e'),
            ground (arith, e'),
            ready,
            λ k' u' h.
                (let same : u ≡ u' = ground (arith, h, best) in
                  rw (← same) (ground (arith, later))),
          )
    ]
  ]
]

pub pick-lookup :
    (d : Dict Source) (i : String) (s : Source)
    → IsDict d
    → pick d ≡ some (i, s)
    → (lookup i d ≡ some s) × (is_ready s ≡ true)
unfolding pick IsDict lookup
pick-lookup [] i s h e = absurd (ground (arith, e))
pick-lookup ((j, t) ∷ rest) i s h e = elim (pick-cons j i t s rest e) [
  | inl (here, same, ready, least) ↦ (ground (arith, here, same, eq_iff j i), rw (← same) ready)
  | inr (later, least) ↦
      let (there, ready) = pick-lookup rest i s h.1 later in
      let absent = h.0 in
      (
        elim (Bool-cases (j == i)) [
          | inl here ↦
              absurd (let same = (eq_iff j i).0 here in ground (arith, rw same at absent, there))
          | inr other ↦ rw other there
        ],
        ready,
      )
]

pub pick-none : (d : Dict Source) → pick d ≡ none → All (λ (j, t). is_ready t ≡ false) d
unfolding pick
pick-none [] e = tt
pick-none ((j, t) ∷ rest) e = elim (Bool-cases (is_ready t)) [
  | inr idle_one ↦ (idle_one, pick-none rest (rw (idle_one, pick) at e))
  | inl ready ↦ elim (Option-cases (pick rest)) [
    | inl nobody ↦ absurd (ground (arith, rw (ready, nobody, pick) at e))
    | inr ((k, u), best) ↦ absurd (ground (arith, rw (ready, best, pick) at e))
  ]
]

-- None of the entries that are ready is due before `due`.
abbrev pub NoneBefore : ℕ → Dict Source → Type 0
NoneBefore due d = All (λ (j, t). is_ready t ≡ true → due ≤ t.next_due) d

nobody-NoneBefore :
    (due : ℕ) (d : Dict Source) → All (λ (j, t). is_ready t ≡ false) d → NoneBefore due d
nobody-NoneBefore due [] h = tt
nobody-NoneBefore due ((j, t) ∷ rest) h = (
  λ ready. absurd (let idle_one = h.0 in ground (arith, ready, idle_one)),
  nobody-NoneBefore due rest h.1,
)

earlier-NoneBefore :
    (due due' : ℕ) (d : Dict Source) → due ≤ due' → NoneBefore due' d → NoneBefore due d
earlier-NoneBefore due due' [] le h = tt
earlier-NoneBefore due due' ((j, t) ∷ rest) le h =
    (λ ready. (let l = h.0 ready in omega (arith, l, le)), earlier-NoneBefore due due' rest le h.1)

pub pick-NoneBefore :
    (d : Dict Source) (i : String) (s : Source) → pick d ≡ some (i, s) → NoneBefore s.next_due d
unfolding pick
pick-NoneBefore [] i s e = tt
pick-NoneBefore ((j, t) ∷ rest) i s e = elim (pick-cons j i t s rest e) [
  | inr (later, least) ↦ (least, pick-NoneBefore rest i s later)
  | inl (here, same, ready, least) ↦ (
    λ _. rw same (omega arith),
    elim (Option-cases (pick rest)) [
      | inl nobody ↦ nobody-NoneBefore s.next_due rest (pick-none rest nobody)
      | inr ((k, u), best) ↦
          earlier-NoneBefore s.next_due u.next_due rest (rw (← same) (least k u best))
            (pick-NoneBefore rest k u best)
    ],
  )
]
