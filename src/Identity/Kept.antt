-- ===== src/Identity/Kept.antt =====
-- What stays true of the document that the processes share, whoever calls the registry and in which order.
use sentry_mode.Prelude.{
  ℕ, ◌≤◌, String, ◌≡◌, refl, inl, inr, ◌⊎◌, Option, none, some, arith, string_eq, nat_eq, option_eq,
  Bool-cases,
}
use sentry_mode.Node.{NodeDocument, ok, Crypto, is_valid}
use sentry_mode.Node.Platform.{known}
use sentry_mode.Identity.{
  Memory, File, load, refresh, open_registry, next_epoch, register, approve, revoke, forget,
  describe, authenticate, next_epoch_change, register_change, approve_change, revoke_change,
  forget_change, describe_change, is_empty, is_unknown_platform,
}
use sentry_mode.Identity.Calls.{
  Op, World, after, latest, Later, Effect, untouched, looked, begun, unwritten, wrote, Keeps,
  update-Effect,
}

-- The change of the document that a call may make.
abbrev pub KeepsOp : Crypto → (NodeDocument → Type 0) → Op → Type 0
KeepsOp crypto Q Op.counts = Keeps Q next_epoch_change
KeepsOp crypto Q Op.starts = Unit
KeepsOp crypto Q (Op.registers n r now) = Keeps Q (register_change crypto n r now)
KeepsOp crypto Q (Op.approves n certificate pinned now) =
    Keeps Q (approve_change crypto n certificate pinned now)
KeepsOp crypto Q (Op.revokes n reason now) = Keeps Q (revoke_change n reason now)
KeepsOp crypto Q (Op.forgets n) = Keeps Q (forget_change n)
KeepsOp crypto Q (Op.describes n c) = Keeps Q (describe_change n c)
KeepsOp crypto Q (Op.asks n c) = Unit

pub after-Effect :
    (crypto : Crypto) (Q : NodeDocument → Type 0) (m : Memory) (f : File) (written : Option ℕ)
    (op : Op)
    → KeepsOp crypto Q op
    → Effect Q m f written (after crypto m f written op).0 (after crypto m f written op).1
unfolding after next_epoch register approve revoke forget describe authenticate
after-Effect crypto Q m f written Op.counts k = update-Effect Q _ m f written k
after-Effect crypto Q m f written Op.starts k = begun refl refl
after-Effect crypto Q m f written (Op.registers n r now) k = elim (Bool-cases (known r.platform)) [
  | inl there ↦ rw there (update-Effect Q _ m f written k)
  | inr missing ↦ rw missing (untouched refl refl)
]
after-Effect crypto Q m f written (Op.approves n certificate pinned now) k =
    update-Effect Q _ m f written k
after-Effect crypto Q m f written (Op.revokes n reason now) k = update-Effect Q _ m f written k
after-Effect crypto Q m f written (Op.forgets n) k = update-Effect Q _ m f written k
after-Effect crypto Q m f written (Op.describes n c) k = elim (Bool-cases (is_empty c.unknown)) [
  | inr more ↦ rw more (untouched refl refl)
  | inl bare ↦ elim (Bool-cases (is_unknown_platform c.platform)) [
    | inl missing ↦ rw (bare, missing) (untouched refl refl)
    | inr fine ↦ rw (bare, fine) (update-Effect Q _ m f written k)
  ]
]
after-Effect crypto Q m f written (Op.asks n c) k = looked refl refl

-- What is read of the file at `stamp`, after `refresh` or at the start of a process.
refresh-read_at :
    (m : Memory) (f : File) (s : ℕ)
    → (refresh m f).0.read_at ≡ some s
    → (m.read_at ≡ some s) ⊎ ((d : NodeDocument) × (f ≡ some (d, s)))
unfolding refresh load
refresh-read_at m none s h = inl (ground (arith, h))
refresh-read_at m (some (d, stamp)) s h =
    elim (Bool-cases (option_eq.is_same m.read_at (some stamp))) [
      | inl same ↦ inl (ground (arith, h, same))
      | inr other ↦ elim (Bool-cases (is_valid d)) [
        | inl valid ↦ inr (d, ground (arith, h, valid, other))
        | inr broken ↦ inl (ground (arith, h, broken, other))
      ]
    ]

pub refresh-ok :
    (m : Memory) (d x : NodeDocument) (stamp : ℕ)
    → (refresh m (some (d, stamp))).1 ≡ ok x
    → (refresh m (some (d, stamp))).0.read_at ≡ some stamp
unfolding refresh load
refresh-ok m d x stamp h = ground (arith, option_eq.agrees m.read_at (some stamp), h)

pub refresh-stays :
    (Q : NodeDocument → Type 0) (m : Memory) (d : NodeDocument) (stamp : ℕ)
    → Q d
    → (m.read_at ≡ some stamp → Q m.document)
    → (refresh m (some (d, stamp))).0.read_at ≡ some stamp
    → Q (refresh m (some (d, stamp))).0.document
unfolding refresh load
refresh-stays Q m d stamp q fits h = elim (Bool-cases (option_eq.is_same m.read_at (some stamp))) [
  | inl same ↦ rw same (fits (ground (arith, option_eq.agrees m.read_at (some stamp), same)))
  | inr other ↦ elim (Bool-cases (is_valid d)) [
    | inl valid ↦ rw (other, valid) q
    | inr broken ↦
        absurd (ground (arith, option_eq.agrees m.read_at (some stamp), h, other, broken))
  ]
]

pub refresh-bounded :
    (last : ℕ) (m : Memory) (f : File) (s : ℕ)
    → ((s : ℕ) → m.read_at ≡ some s → s ≤ last)
    → ((d : NodeDocument) (s : ℕ) → f ≡ some (d, s) → s ≤ last)
    → (refresh m f).0.read_at ≡ some s
    → s ≤ last
refresh-bounded last m f s read stands h = elim (refresh-read_at m f s h) [
  | inl same ↦ read s same
  | inr (d, there) ↦ stands d s there
]

open_registry-read_at :
    (f : File) (s : ℕ)
    → (open_registry f).0.read_at ≡ some s
    → (d : NodeDocument) × (f ≡ some (d, s))
unfolding open_registry load
open_registry-read_at none s h = absurd (ground (arith, h))
open_registry-read_at (some (d, stamp)) s h = elim (Bool-cases (is_valid d)) [
  | inl valid ↦ (d, ground (arith, h, valid))
  | inr broken ↦ absurd (ground (arith, h, broken))
]

open_registry-stays :
    (Q : NodeDocument → Type 0) (d : NodeDocument) (stamp s : ℕ)
    → Q d
    → (open_registry (some (d, stamp))).0.read_at ≡ some s
    → Q (open_registry (some (d, stamp))).0.document
unfolding open_registry load
open_registry-stays Q d stamp s q h = elim (Bool-cases (is_valid d)) [
  | inl valid ↦ rw valid q
  | inr broken ↦ absurd (ground (arith, h, broken))
]

-- What one process may have read, of a file with `stamp`.
abbrev pub Bounded : ℕ → Memory → Type 0
Bounded last m = (s : ℕ) → m.read_at ≡ some s → s ≤ last

abbrev pub FileBounded : ℕ → File → Type 0
FileBounded last f = (d : NodeDocument) (s : ℕ) → f ≡ some (d, s) → s ≤ last

pub latest_ge : (last : ℕ) (written : Option ℕ) → Later last written → last ≤ latest last written
unfolding latest Later
latest_ge last none later = omega arith
latest_ge last (some stamp) later = let l = later stamp refl in omega (arith, l)

raised :
    (last last' : ℕ) (m m' : Memory) (f f' : File)
    → last ≤ last'
    → f' ≡ f
    → ((s : ℕ) → m'.read_at ≡ some s → s ≤ last)
    → FileBounded last f
    → Bounded last' m' × FileBounded last' f'
raised last last' m m' f f' g same read fb = (
  λ s e. (let l = read s e in omega (arith, l, g)),
  λ d s e. (let l = fb d s (rw same at e) in omega (arith, l, g)),
)

pub Effect-Bounded :
    (Q : NodeDocument → Type 0) (last : ℕ) (m : Memory) (f : File) (written : Option ℕ)
    (m' : Memory) (f' : File)
    → Effect Q m f written m' f'
    → Bounded last m
    → FileBounded last f
    → Later last written
    → Bounded (latest last written) m' × FileBounded (latest last written) f'
unfolding latest Later
Effect-Bounded Q last m f written m' f' (untouched em ef) b fb later =
    raised last _ m m' f f' (latest_ge last written later) ef (λ s e. b s (rw em at e)) fb
Effect-Bounded Q last m f written m' f' (looked em ef) b fb later =
    raised last _ m m' f f' (latest_ge last written later) ef
      (λ s e. refresh-bounded last m f s b fb (rw em at e)) fb
Effect-Bounded Q last m f written m' f' (begun em ef) b fb later =
    raised last _ m m' f f' (latest_ge last written later) ef
      (λ s e. let (d, there) = open_registry-read_at f s (rw em at e) in fb d s there) fb
Effect-Bounded Q last m f written m' f' (unwritten x d read q em ef) b fb later =
    raised last _ m m' f f' (latest_ge last written later) ef
      (λ s e. refresh-bounded last m f s b fb (rw em at e)) fb
Effect-Bounded Q last m f written m' f' (wrote x d stamp read q done em ef) b fb later =
    let l = later stamp done in
    (
      λ s e.
          (let o = refresh-bounded last m f s b fb (rw em at e) in rw done (omega (arith, o, l))),
      λ d' s e. rw done (ground (arith, rw ef at e)),
    )

-- Where the file has a document, `Q` holds of it, and of the memory of each process that has read it.
pub record Holds (Q : NodeDocument → Type 0) (w : World) : Type 0 where
  pub document : NodeDocument
  pub stamp : ℕ
  pub there : w.file ≡ some (document, stamp)
  pub stands : Q document
  pub fits : (p : String) → (w.memory p).read_at ≡ some stamp → Q (w.memory p).document

Effect-Fits_there :
    (Q : NodeDocument → Type 0) (m : Memory) (d₀ : NodeDocument) (s₀ : ℕ) (written : Option ℕ)
    (m' : Memory) (f' : File)
    → Effect Q m (some (d₀, s₀)) written m' f'
    → Q d₀
    → (m.read_at ≡ some s₀ → Q m.document)
    → ((f' ≡ some (d₀, s₀)) × (m'.read_at ≡ some s₀ → Q m'.document))
      ⊎ ((d : NodeDocument) × (stamp : ℕ) × (written ≡ some stamp)
          × (f' ≡ some (d, stamp))
          × Q d
          × Q m'.document)
Effect-Fits_there Q m d₀ s₀ written m' f' (untouched em ef) q fits =
    inl (ef, λ e. rw em (fits (rw em at e)))
Effect-Fits_there Q m d₀ s₀ written m' f' (looked em ef) q fits =
    inl (ef, λ e. rw em (refresh-stays Q m d₀ s₀ q fits (rw em at e)))
Effect-Fits_there Q m d₀ s₀ written m' f' (begun em ef) q fits =
    inl (ef, λ e. rw em (open_registry-stays Q d₀ s₀ s₀ q (rw em at e)))
Effect-Fits_there Q m d₀ s₀ written m' f' (unwritten x d read change em ef) q fits =
    inl (ef, λ e. rw em (change (refresh-stays Q m d₀ s₀ q fits (refresh-ok m d₀ x s₀ read))))
Effect-Fits_there Q m d₀ s₀ written m' f' (wrote x d stamp read change done em ef) q fits =
    let new = change (refresh-stays Q m d₀ s₀ q fits (refresh-ok m d₀ x s₀ read)) in
    inr (d, stamp, done, ef, new, rw em new)

pub Effect-Fits :
    (Q : NodeDocument → Type 0) (m : Memory) (f : File) (d₀ : NodeDocument) (s₀ : ℕ)
    (written : Option ℕ) (m' : Memory) (f' : File)
    → f ≡ some (d₀, s₀)
    → Effect Q m f written m' f'
    → Q d₀
    → (m.read_at ≡ some s₀ → Q m.document)
    → ((f' ≡ some (d₀, s₀)) × (m'.read_at ≡ some s₀ → Q m'.document))
      ⊎ ((d : NodeDocument) × (stamp : ℕ) × (written ≡ some stamp)
          × (f' ≡ some (d, stamp))
          × Q d
          × Q m'.document)
Effect-Fits Q m f d₀ s₀ written m' f' there e q fits =
    Effect-Fits_there Q m d₀ s₀ written m' f' (rw there at e) q fits
