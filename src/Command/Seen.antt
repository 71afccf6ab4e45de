-- ===== src/Command/Seen.antt =====
-- satellite/src/sentry_satellite/commands.py: Seen, the commands that were handled, and ack. The newest
-- of the memory stands first.
use sentry_mode.Prelude.{
  ℕ, zero, suc, ◌+◌, ◌≤◌, ◌<◌, String, ◌≡◌, ◌≢◌, refl, ◌∙◌, false, Option, none, some, List, [],
  ◌∷◌, length, arith, All, ◌==◌, string_eq, Bool-cases, Option-cases, inl, inr, eq_iff,
}
use sentry_mode.Prelude.Dict.{Dict, lookup, erase}
use sentry_mode.Command.{Command}

pub data Outcome : Type 0 where
  received applied failed : Outcome

pub record Seen : Type 0 where
  pub capacity : ℕ
  pub outcomes : Dict Outcome

-- What the loop that drops the oldest leaves: the `n` newest.
unfoldable pub newest : ℕ → Dict Outcome → Dict Outcome
newest zero d = []
newest (suc n) [] = []
newest (suc n) (x ∷ d) = x ∷ newest n d

unfoldable pub remember : Seen → String → Outcome → Seen
remember s command_id o = record s {
  outcomes = newest s.capacity ((command_id, o) ∷ erase command_id s.outcomes);
}

unfoldable pub outcome : Seen → String → Seen × Option Outcome
outcome s command_id = elim (lookup command_id s.outcomes) [
  | none ↦ (s, none)
  | some o ↦ (record s { outcomes = (command_id, o) ∷ erase command_id s.outcomes }, some o)
]

pub record Ack : Type 0 where
  pub command_id : String
  pub node_id : String
  pub outcome : Outcome
  pub detail : Option String

unfoldable pub ack : Command → Outcome → Option String → Ack
ack c o detail = record {
  command_id = c.command_id;
  node_id = c.node_id;
  outcome = o;
  detail = detail;
}

-- A call of the memory.
pub data Use : Type 0 where
  remembers : String → Outcome → Use
  asks : String → Use

unfoldable pub after : Seen → List Use → Seen
after s [] = s
after s (remembers i o ∷ uses) = after (remember s i o) uses
after s (asks i ∷ uses) = after (outcome s i).0 uses

-- The call does not remember another outcome of the command.
abbrev pub Leaves : String → Use → Type 0
Leaves i (remembers j o) = j ≢ i
Leaves i (asks j) = Unit

lookup-newest-suc :
    (n : ℕ) (i : String) (d : Dict Outcome) (o : Outcome)
    → lookup i (newest n d) ≡ some o
    → lookup i (newest (suc n) d) ≡ some o
unfolding lookup newest
lookup-newest-suc zero i d o h = absurd (ground (arith, h))
lookup-newest-suc (suc n) i [] o h = absurd (ground (arith, h))
lookup-newest-suc (suc n) i ((j, p) ∷ d) o h = elim (Bool-cases (j == i)) [
  | inl here ↦ rw here (rw here at h)
  | inr other ↦ rw other (lookup-newest-suc n i d o (rw other at h))
]

lookup-newest-erase :
    (n : ℕ) (i j : String) (d : Dict Outcome) (o : Outcome)
    → j ≢ i
    → lookup i (newest n d) ≡ some o
    → lookup i (newest n (erase j d)) ≡ some o
unfolding lookup newest erase
lookup-newest-erase zero i j d o apart h = absurd (ground (arith, h))
lookup-newest-erase (suc n) i j [] o apart h = absurd (ground (arith, h))
lookup-newest-erase (suc n) i j ((k, p) ∷ d) o apart h = elim (Bool-cases (k == i)) [
  | inl here ↦
      let kept : (k == j) ≡ false = ground (arith, here, apart, eq_iff k i, eq_iff k j) in
      rw (kept, here) (rw here at h)
  | inr other ↦
      let rest = lookup-newest-erase n i j d o apart (rw other at h) in
      elim (Bool-cases (k == j)) [
        | inl gone ↦ rw gone (lookup-newest-suc n i (erase j d) o rest)
        | inr stays ↦ rw (stays, other) rest
      ]
]

lookup-newest-newest :
    (n cap : ℕ) (i : String) (d : Dict Outcome)
    → n ≤ cap
    → lookup i (newest n (newest cap d)) ≡ lookup i (newest n d)
unfolding newest lookup
lookup-newest-newest zero cap i d h = refl
lookup-newest-newest (suc n) zero i d h = absurd (omega (arith, h))
lookup-newest-newest (suc n) (suc cap) i [] h = refl
lookup-newest-newest (suc n) (suc cap) i ((j, p) ∷ d) h = elim (Bool-cases (j == i)) [
  | inl here ↦ rw here refl
  | inr other ↦ rw other (lookup-newest-newest n cap i d (omega (arith, h)))
]

-- The command is among the `n` newest, with its outcome.
abbrev IsNear : ℕ → String → Outcome → Seen → Type 0
IsNear n i o s = lookup i (newest n s.outcomes) ≡ some o

remember-IsNear :
    (s : Seen) (i j : String) (o p : Outcome) (n : ℕ)
    → suc n ≤ s.capacity
    → j ≢ i
    → IsNear n i o s
    → IsNear (suc n) i o (remember s j p)
unfolding remember newest lookup
remember-IsNear s i j o p n room apart near =
    lookup-newest-newest (suc n) s.capacity i ((j, p) ∷ erase j s.outcomes) room
    ∙ (let other : (j == i) ≡ false = ground (arith, apart, eq_iff j i) in
        rw other (lookup-newest-erase n i j s.outcomes o apart near))

newest-lookup :
    (n : ℕ) (i : String) (d : Dict Outcome) (o : Outcome)
    → lookup i (newest n d) ≡ some o
    → lookup i d ≡ some o
unfolding lookup newest
newest-lookup zero i d o h = absurd (ground (arith, h))
newest-lookup (suc n) i [] o h = absurd (ground (arith, h))
newest-lookup (suc n) i ((j, p) ∷ d) o h = elim (Bool-cases (j == i)) [
  | inl here ↦ rw here (rw here at h)
  | inr other ↦ rw other (newest-lookup n i d o (rw other at h))
]

outcome-IsNear :
    (s : Seen) (i j : String) (o : Outcome) (n : ℕ)
    → IsNear n i o s
    → IsNear (suc n) i o (outcome s j).0
unfolding outcome newest lookup
outcome-IsNear s i j o n near = elim (Option-cases (lookup j s.outcomes)) [
  | inl unknown ↦ rw (unknown, outcome) (lookup-newest-suc n i s.outcomes o near)
  | inr (p, known) ↦
      rw (known, outcome)
        (elim (Bool-cases (j == i)) [
          | inl here ↦
              let there = newest-lookup n i s.outcomes o near in
              let name = (eq_iff j i).0 here in
              let same : p ≡ o = ground (arith, rw name at known, there) in rw (here, same) refl
          | inr other ↦ rw other (
              lookup-newest-erase n i j s.outcomes o (λ e. ground (arith, e, other, eq_iff j i))
                near)
        ])
]

remember-capacity : (s : Seen) (j : String) (p : Outcome) → (remember s j p).capacity ≡ s.capacity
unfolding remember
remember-capacity s j p = refl

outcome-capacity : (s : Seen) (j : String) → (outcome s j).0.capacity ≡ s.capacity
unfolding outcome
outcome-capacity s j = ground arith

after-IsNear :
    (s : Seen) (i : String) (o : Outcome) (n : ℕ) (uses : List Use)
    → n + length uses ≤ s.capacity
    → All (Leaves i) uses
    → IsNear n i o s
    → lookup i (after s uses).outcomes ≡ some o
unfolding after
after-IsNear s i o n [] room leaves near = newest-lookup n i s.outcomes o near
after-IsNear s i o n (remembers j p ∷ uses) room leaves near =
    after-IsNear (remember s j p) i o (suc n) uses
      (let same = remember-capacity s j p in omega (arith, room, same)) leaves.1
      (remember-IsNear s i j o p n (omega (arith, room)) leaves.0 near)
after-IsNear s i o n (asks j ∷ uses) room leaves near =
    after-IsNear (outcome s j).0 i o (suc n) uses
      (let same = outcome-capacity s j in omega (arith, room, same)) leaves.1
      (outcome-IsNear s i j o n near)

-- A command that was handled, and comes again after fewer calls of the memory than it has room for, none
-- of which remembers another outcome of it, is answered with the outcome that was remembered.
pub same_answer :
    (s : Seen) (command_id : String) (o : Outcome) (uses : List Use)
    → length uses < s.capacity
    → All (Leaves command_id) uses
    → (outcome (after (remember s command_id o) uses) command_id).1 ≡ some o
unfolding outcome remember newest lookup
same_answer s command_id o uses room leaves =
    let found =
      after-IsNear (remember s command_id o) command_id o 1 uses (omega (arith, room)) leaves (
        lookup-newest-newest 1 s.capacity command_id ((command_id, o) ∷ erase command_id s.outcomes)
          (omega (arith, room))
        ∙ ground (arith, eq_iff command_id command_id)) in
    rw (found, outcome) refl
