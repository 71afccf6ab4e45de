-- ===== src/Identity/Calls.antt =====
-- The registry of nodes over any sequence of calls by any number of processes that share its file.
use sentry_mode.Prelude.{
  ℕ, ◌≤◌, ◌<◌, suc, String, ◌≡◌, refl, inl, inr, ◌⊎◌, Option, none, some, List, [], ◌∷◌, arith,
  ◌==◌, string_eq, nat_eq, option_eq, if◌then◌else◌, Option-cases,
}
use sentry_mode.Node.{NodeDocument, NodeError, Result, ok, err, Crypto}
use sentry_mode.Identity.{
  Memory, File, Outcome, Registration, Changes, Credentials, update, persist, refresh,
  open_registry, next_epoch, register, approve, revoke, forget, describe, authenticate,
}

-- A call of the registry, or the start of a process.
pub data Op : Type 0 where
  counts starts : Op
  registers : String → Registration → ℕ → Op
  approves : String → Option String → Option String → ℕ → Op
  revokes : String → Option String → ℕ → Op
  forgets : String → Op
  describes : String → Changes → Op
  asks : String → Credentials → Op

-- A call by a process, and the stamp of the file that it writes, if it can write.
pub record Call : Type 0 where
  pub caller : String
  pub op : Op
  pub written : Option ℕ

pub record World : Type 0 where
  pub memory : String → Memory
  pub file : File

abbrev left : {A : Type 0} → Outcome A → Memory × File
left o = (o.memory, o.file)

unfoldable pub after : Crypto → Memory → File → Option ℕ → Op → Memory × File
after crypto m f written Op.counts = left (next_epoch m f written)
after crypto m f written Op.starts = ((open_registry f).0, f)
after crypto m f written (Op.registers n r now) = left (register crypto m f written n r now)
after crypto m f written (Op.approves n certificate pinned now) =
    left (approve crypto m f written n certificate pinned now)
after crypto m f written (Op.revokes n reason now) = left (revoke m f written n reason now)
after crypto m f written (Op.forgets n) = left (forget m f written n)
after crypto m f written (Op.describes n c) = left (describe m f written n c)
after crypto m f written (Op.asks n c) = left (authenticate m f n c)

abbrev pub remembering : World → String → Memory × File → World
remembering w p (m, f) = record { memory = λ q. if p == q then m else w.memory q; file = f }

unfoldable pub step : Crypto → World → Call → World
step crypto w c = remembering w c.caller (after crypto (w.memory c.caller) w.file c.written c.op)

unfoldable pub run : Crypto → World → List Call → World
run crypto w [] = w
run crypto w (c ∷ cs) = run crypto (step crypto w c) cs

-- No process has read a file with a stamp later than `last`, and none stands at the path.
pub record Stamped (last : ℕ) (w : World) : Type 0 where
  pub read : (p : String) (stamp : ℕ) → (w.memory p).read_at ≡ some stamp → stamp ≤ last
  pub stands : (d : NodeDocument) (stamp : ℕ) → w.file ≡ some (d, stamp) → stamp ≤ last

-- The last of the stamps so far.
unfoldable pub latest : ℕ → Option ℕ → ℕ
latest last none = last
latest last (some stamp) = stamp

unfoldable pub Later : ℕ → Option ℕ → Type 0
Later last written = (stamp : ℕ) → written ≡ some stamp → last < stamp

-- Each file that is written has a later stamp than those before.
unfoldable pub Rising : ℕ → List Call → Type 0
Rising last [] = Unit
Rising last (c ∷ cs) = Later last c.written × Rising (latest last c.written) cs

-- What a call does to the memory of its process and to the file: at most one change of the document
-- that it has just looked at, under which `Q` stays.
pub data Effect (Q : NodeDocument → Type 0) (m : Memory) (f : File) (written : Option ℕ)
    (m' : Memory) (f' : File) : Type 0 where
  untouched : m' ≡ m → f' ≡ f → Effect Q m f written m' f'
  looked : m' ≡ (refresh m f).0 → f' ≡ f → Effect Q m f written m' f'
  begun : m' ≡ (open_registry f).0 → f' ≡ f → Effect Q m f written m' f'
  unwritten :
      (x d : NodeDocument)
      → (refresh m f).1 ≡ ok x
      → (Q (refresh m f).0.document → Q d)
      → m' ≡ record (refresh m f).0 { document = d }
      → f' ≡ f
      → Effect Q m f written m' f'
  wrote :
      (x d : NodeDocument) (stamp : ℕ)
      → (refresh m f).1 ≡ ok x
      → (Q (refresh m f).0.document → Q d)
      → written ≡ some stamp
      → m' ≡ record (refresh m f).0 { document = d }
      → f' ≡ some (d, stamp)
      → Effect Q m f written m' f'

abbrev pub counted : NodeDocument → NodeDocument
counted d = record d { revision = suc d.revision }

-- A change of the document under which `Q` stays, the new revision included.
abbrev pub Keeps :
    {A : Type 0} → (NodeDocument → Type 0) → (NodeDocument → Result (NodeDocument × A)) → Type 0
Keeps {A} Q change = (d d' : NodeDocument) (a : A) → Q d → change d ≡ ok (d', a) → Q (counted d')

pub Result-cases :
    {A : Type 0} (r : Result A) → ((e : NodeError) × (r ≡ err e)) ⊎ ((a : A) × (r ≡ ok a))
Result-cases (err e) = inl (e, refl)
Result-cases (ok a) = inr (a, refl)

pub update-Effect :
    {A : Type 0} (Q : NodeDocument → Type 0) (change : NodeDocument → Result (NodeDocument × A))
    (m : Memory) (f : File) (written : Option ℕ)
    → Keeps Q change
    → Effect Q m f written (update change m f written).memory (update change m f written).file
unfolding update persist
update-Effect Q change m f written keeps = elim (Result-cases (refresh m f).1) [
  | inl (e, refused) ↦ looked (rw (refused, update) refl) (rw (refused, update) refl)
  | inr (x, read) ↦ elim (Result-cases (change (refresh m f).0.document)) [
    | inl (e, refused) ↦ looked (rw (read, refused, update) refl) (rw (read, refused, update) refl)
    | inr ((d, a), changed) ↦ elim (Option-cases written) [
      | inl lost ↦
          unwritten x (counted d) read (λ q. keeps _ d a q changed)
            (rw (read, changed, lost, update, persist) refl)
            (rw (read, changed, lost, update, persist) refl)
      | inr (stamp, done) ↦
          wrote x (counted d) stamp read (λ q. keeps _ d a q changed) done
            (rw (read, changed, done, update, persist) refl)
            (rw (read, changed, done, update, persist) refl)
    ]
  ]
]

-- What a change that returns has read, and what it has written.
pub record Written {A : Type 0} (change : NodeDocument → Result (NodeDocument × A)) (m : Memory)
    (f : File) (written : Option ℕ) (a : A) : Type 0 where
  pub read : NodeDocument
  pub document : NodeDocument
  pub stamp : ℕ
  pub done : written ≡ some stamp
  pub reads : (refresh m f).1 ≡ ok read
  pub changed : change (refresh m f).0.document ≡ ok (document, a)
  pub stands : (update change m f written).file ≡ some (counted document, stamp)
  pub remembers : (update change m f written).memory.document ≡ counted document

pub update-Written :
    {A : Type 0} (change : NodeDocument → Result (NodeDocument × A)) (m : Memory) (f : File)
    (written : Option ℕ) (a : A)
    → (update change m f written).result ≡ ok a
    → Written change m f written a
unfolding update persist
update-Written change m f written a h = elim (Result-cases (refresh m f).1) [
  | inl (e, refused) ↦ absurd (ground (arith, rw (refused, update) at h))
  | inr (x, read) ↦ elim (Result-cases (change (refresh m f).0.document)) [
    | inl (e, refused) ↦ absurd (ground (arith, rw (read, refused, update) at h))
    | inr ((d, b), changed) ↦ elim (Option-cases written) [
      | inl lost ↦ absurd (ground (arith, rw (read, changed, lost, update, persist) at h))
      | inr (stamp, done) ↦
          let same : b ≡ a = ground (arith, rw (read, changed, done, update, persist) at h) in
          record {
            read = x;
            document = d;
            stamp = stamp;
            done = done;
            reads = read;
            changed = rw same at changed;
            stands = rw (read, changed, done, update, persist) refl;
            remembers = rw (read, changed, done, update, persist) refl;
          }
    ]
  ]
]
