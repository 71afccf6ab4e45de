-- ===== src/Identity/Histories.antt =====
-- A property of the document, over any sequence of calls.
use sentry_mode.Prelude.{
  ℕ, ◌<◌, String, ◌≡◌, inl, inr, some, List, [], ◌∷◌, arith, ◌==◌, string_eq, Bool-cases, All,
}
use sentry_mode.Node.{NodeDocument, Crypto, ok}
use sentry_mode.Identity.{Memory, File, refresh}
use sentry_mode.Identity.Calls.{
  Op, Call, World, after, step, run, remembering, Stamped, latest, Later, Rising,
}
use sentry_mode.Identity.Kept.{
  KeepsOp, after-Effect, Effect-Bounded, Effect-Fits, Holds, Bounded, FileBounded, latest_ge,
  refresh-ok, refresh-stays,
}

-- What holds of the new memory and of the old ones holds of the memory of each process.
remembering-all :
    (P : Memory → Type 0) (w : World) (p : String) (m : Memory) (f : File)
    → P m
    → ((q : String) → P (w.memory q))
    → (q : String) → P ((remembering w p (m, f)).memory q)
remembering-all P w p m f new old q = elim (Bool-cases (p == q)) [
  | inl here ↦ rw here new
  | inr other ↦ rw other (old q)
]

remembering-Stamped :
    (last : ℕ) (w : World) (p : String) (m : Memory) (f : File)
    → Bounded last m
    → FileBounded last f
    → ((q : String) → Bounded last (w.memory q))
    → Stamped last (remembering w p (m, f))
remembering-Stamped last w p m f new stands old = record {
  read = remembering-all (Bounded last) w p m f new old;
  stands = stands;
}

abbrev AnyDocument : NodeDocument → Type 0
AnyDocument d = Unit

AnyDocument-KeepsOp : (crypto : Crypto) (op : Op) → KeepsOp crypto AnyDocument op
AnyDocument-KeepsOp crypto Op.counts = λ _ _ _ _ _. tt
AnyDocument-KeepsOp crypto Op.starts = tt
AnyDocument-KeepsOp crypto (Op.registers n r now) = λ _ _ _ _ _. tt
AnyDocument-KeepsOp crypto (Op.approves n certificate pinned now) = λ _ _ _ _ _. tt
AnyDocument-KeepsOp crypto (Op.revokes n reason now) = λ _ _ _ _ _. tt
AnyDocument-KeepsOp crypto (Op.forgets n) = λ _ _ _ _ _. tt
AnyDocument-KeepsOp crypto (Op.describes n c) = λ _ _ _ _ _. tt
AnyDocument-KeepsOp crypto (Op.asks n c) = tt

pub step-Stamped :
    (crypto : Crypto) (last : ℕ) (w : World) (c : Call)
    → Stamped last w
    → Later last c.written
    → Stamped (latest last c.written) (step crypto w c)
unfolding step
step-Stamped crypto last w c s later =
    let m = w.memory c.caller in
    let (new, stands) =
      Effect-Bounded AnyDocument last m w.file c.written _ _
        (after-Effect crypto AnyDocument m w.file c.written c.op (AnyDocument-KeepsOp crypto c.op))
        (s.read c.caller) s.stands later in
    remembering-Stamped _ w c.caller _ _ new stands
      (λ q stamp e. (let l = s.read q stamp e in omega (arith, l, latest_ge last c.written later)))

-- A new file is one that no process has read.
pub step-Holds :
    (crypto : Crypto) (Q : NodeDocument → Type 0) (last : ℕ) (w : World) (c : Call)
    → Stamped last w
    → Later last c.written
    → KeepsOp crypto Q c.op
    → Holds Q w
    → Holds Q (step crypto w c)
unfolding step Later
step-Holds crypto Q last w c s later k h =
    let m = w.memory c.caller in
    elim (Effect-Fits Q m w.file h.document h.stamp c.written _ _ h.there
      (after-Effect crypto Q m w.file c.written c.op k) h.stands (h.fits c.caller)) [
        | inl (same, fits) ↦ record {
          document = h.document;
          stamp = h.stamp;
          there = same;
          stands = h.stands;
          fits =
              remembering-all (λ m. m.read_at ≡ some h.stamp → Q m.document) w c.caller _ w.file
                fits h.fits;
        }
        | inr (d, stamp, done, there, q, new) ↦ record {
          document = d;
          stamp = stamp;
          there = there;
          stands = q;
          fits =
              remembering-all (λ m. m.read_at ≡ some stamp → Q m.document) w c.caller _ w.file
                (λ _. new)
                (λ p e.
                  absurd (
                    let l = s.read p stamp e in let l' = later stamp done in omega (arith, l, l')));
        }
      ]

-- A call that has written the file, and remembers what it wrote.
pub written-Holds :
    (crypto : Crypto) (Q : NodeDocument → Type 0) (last stamp : ℕ) (w : World) (c : Call)
    (d : NodeDocument)
    → Stamped last w
    → last < stamp
    → (after crypto (w.memory c.caller) w.file c.written c.op).1 ≡ some (d, stamp)
    → (after crypto (w.memory c.caller) w.file c.written c.op).0.document ≡ d
    → Q d
    → Holds Q (step crypto w c)
unfolding step
written-Holds crypto Q last stamp w c d s later there remembered q = record {
  document = d;
  stamp = stamp;
  there = there;
  stands = q;
  fits =
      remembering-all (λ m. m.read_at ≡ some stamp → Q m.document) w c.caller _ w.file
        (λ _. rw remembered q)
        (λ p e. absurd (let l = s.read p stamp e in omega (arith, l, later)));
}

-- What a process reads where a property holds, it holds of.
pub Holds-refresh :
    (Q : NodeDocument → Type 0) (w : World) (p : String) (x : NodeDocument)
    → Holds Q w
    → (refresh (w.memory p) w.file).1 ≡ ok x
    → Q (refresh (w.memory p) w.file).0.document
Holds-refresh Q w p x h read = rw h.there (
    refresh-stays Q (w.memory p) h.document h.stamp h.stands (h.fits p)
      (refresh-ok (w.memory p) h.document x h.stamp (rw h.there at read)))

pub run-Stamped :
    (crypto : Crypto) (last : ℕ) (w : World) (cs : List Call)
    → Stamped last w
    → Rising last cs
    → (last' : ℕ) × Stamped last' (run crypto w cs)
unfolding run Rising
run-Stamped crypto last w [] s rising = (last, s)
run-Stamped crypto last w (c ∷ cs) s rising =
    run-Stamped crypto (latest last c.written) (step crypto w c) cs
      (step-Stamped crypto last w c s rising.0) rising.1

pub run-Holds :
    (crypto : Crypto) (Q : NodeDocument → Type 0) (last : ℕ) (w : World) (cs : List Call)
    → Stamped last w
    → Rising last cs
    → All (λ c. KeepsOp crypto Q c.op) cs
    → Holds Q w
    → Holds Q (run crypto w cs)
unfolding run Rising
run-Holds crypto Q last w [] s rising keeps h = h
run-Holds crypto Q last w (c ∷ cs) s rising keeps h =
    run-Holds crypto Q (latest last c.written) (step crypto w c) cs
      (step-Stamped crypto last w c s rising.0) rising.1 keeps.1
      (step-Holds crypto Q last w c s rising.0 keeps.0 h)
