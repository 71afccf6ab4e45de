-- ===== src/Identity/Revoked.antt =====
-- What revoking and approving a node mean to every process that shares the file.
use sentry_mode.Prelude.{
  ℕ, String, ◌≡◌, ◌≢◌, refl, inl, inr, false, Option, some, List, [], ◌∷◌, arith, ◌==◌, string_eq,
  option_eq, nat_eq, Bool-cases, Option-cases, All, eq_iff,
}
use sentry_mode.Prelude.Dict.{Dict, lookup, insert, erase, lookup-insert, lookup-erase}
use sentry_mode.Node.{
  NodeDocument, NodeRecord, Status-discrete, status_eq, approved, may_publish, ok, Crypto,
}
use sentry_mode.Identity.{
  Memory, File, Credentials, refresh, require, authenticate, revoke, next_epoch_change,
  register_change, approve_change, revoke_change, forget_change, describe_change, replaced,
  revoked_for, described, approved_as, Registration, to_pin, or_else,
}
use sentry_mode.Identity.Calls.{
  Op, Call, World, step, run, after, Stamped, latest, Later, Rising, Result-cases, update-Written,
  counted,
}
use sentry_mode.Identity.Kept.{KeepsOp, Holds}
use sentry_mode.Identity.Histories.{step-Stamped, run-Holds, written-Holds, Holds-refresh}
use sentry_mode.Identity.Answers.{authenticate-Vouches}

-- The record of `k` has been replaced by `new`.
pub record Replaces (k : String) (d d' : NodeDocument) (old new : NodeRecord) : Type 0 where
  pub was : lookup k d.nodes ≡ some old
  pub nodes : d'.nodes ≡ insert k new d.nodes

pub replaced-Replaces :
    (k : String) (d d' : NodeDocument) (change : NodeRecord → NodeRecord) (a : NodeRecord)
    → replaced k d change ≡ ok (d', a)
    → (old : NodeRecord) × (a ≡ change old) × Replaces k d d' old (change old)
unfolding require
replaced-Replaces k d d' change a h = elim (Option-cases (lookup k d.nodes)) [
  | inl missing ↦ absurd (ground (arith, rw (missing, replaced, require) at h))
  | inr (old, there) ↦
      let h' = rw (there, replaced, require) at h in
      (old, ground (arith, h'), record { was = there; nodes = ground (arith, h') })
]

-- The node has no approved record.
abbrev pub IsBarred : String → NodeDocument → Type 0
IsBarred n d = (r : NodeRecord) → lookup n d.nodes ≡ some r → may_publish r ≡ false

-- The call does not approve the node.
abbrev pub Spares : String → Op → Type 0
Spares n (Op.approves k certificate pinned now) = k ≢ n
Spares n _ = Unit

insert-IsBarred :
    (n k : String) (nodes : Dict NodeRecord) (new r : NodeRecord)
    → ((r : NodeRecord) → lookup n nodes ≡ some r → may_publish r ≡ false)
    → (k ≡ n → may_publish new ≡ false)
    → lookup n (insert k new nodes) ≡ some r
    → may_publish r ≡ false
insert-IsBarred n k nodes new r barred fresh there = elim (Bool-cases (k == n)) [
  | inl here ↦
      let same : new ≡ r = ground (arith, lookup-insert k n new nodes, there, here) in
      rw (← same) (fresh (ground (arith, here, eq_iff k n)))
  | inr other ↦ barred r (ground (arith, lookup-insert k n new nodes, there, other))
]

Replaces-IsBarred :
    (n k : String) (d d' : NodeDocument) (old new : NodeRecord)
    → Replaces k d d' old new
    → (k ≡ n → may_publish old ≡ false → may_publish new ≡ false)
    → IsBarred n d
    → IsBarred n d'
Replaces-IsBarred n k d d' old new change keeps barred r there =
    insert-IsBarred n k d.nodes new r barred
      (λ here. keeps here (barred old (rw (← here) change.was))) (rw change.nodes at there)

registered-nodes :
    (crypto : Crypto) (k : String) (x : Registration) (now : ℕ) (d d' : NodeDocument)
    (a : NodeRecord)
    → register_change crypto k x now d ≡ ok (d', a)
    → (may_publish a ≡ false) × (d'.nodes ≡ insert k a d.nodes)
unfolding register_change
registered-nodes crypto k x now d d' a h = (ground (arith, h), ground (arith, h))

pub approved-Replaces :
    (crypto : Crypto) (k : String) (certificate pinned : Option String) (now : ℕ)
    (d d' : NodeDocument) (a : NodeRecord)
    → approve_change crypto k certificate pinned now d ≡ ok (d', a)
    → (old : NodeRecord) × (p : String) × (a ≡ approved_as p now old) × Replaces k d d' old a
unfolding approve_change require
approved-Replaces crypto k certificate pinned now d d' a h =
    elim (Option-cases (lookup k d.nodes)) [
      | inl missing ↦ absurd (ground (arith, rw (missing, approve_change, require) at h))
      | inr (old, there) ↦ elim (Result-cases (to_pin crypto certificate pinned)) [
        | inl (e, unreadable) ↦
            absurd (ground (arith, rw (there, unreadable, approve_change, require) at h))
        | inr (p, read) ↦ elim (Option-cases (or_else p old.fingerprint)) [
          | inl bare ↦ absurd (ground (arith, rw (there, read, bare, approve_change, require) at h))
          | inr (p', here) ↦
              let h' = rw (there, read, here, approve_change, require) at h in
              let made : a ≡ approved_as p' now old = ground (arith, h') in
              (old, p', made, record { was = there; nodes = rw made (ground (arith, h')) })
        ]
      ]
    ]

forgotten-lookup :
    (k n : String) (d d' : NodeDocument) (a : Unit {0}) (r : NodeRecord)
    → forget_change k d ≡ ok (d', a)
    → lookup n d'.nodes ≡ some r
    → lookup n d.nodes ≡ some r
unfolding forget_change require
forgotten-lookup k n d d' a r h there =
    let nodes : d'.nodes ≡ erase k d.nodes = ground (arith, h) in
    ground (arith, lookup-erase k n d.nodes, rw nodes at there)

IsBarred-KeepsOp :
    (crypto : Crypto) (n : String) (op : Op) → Spares n op → KeepsOp crypto (IsBarred n) op
unfolding next_epoch_change revoke_change forget_change describe_change require Status-discrete
IsBarred-KeepsOp crypto n Op.counts s =
    λ d d' a barred h r there. barred r (ground (arith, h, there))
IsBarred-KeepsOp crypto n Op.starts s = tt
IsBarred-KeepsOp crypto n (Op.registers k x now) s = λ d d' a barred h r there.
    let (waits, nodes) = registered-nodes crypto k x now d d' a h in
    insert-IsBarred n k d.nodes a r barred (λ _. waits) (rw nodes at there)
IsBarred-KeepsOp crypto n (Op.approves k certificate pinned now) s = λ d d' a barred h.
    let (old, p, made, change) = approved-Replaces crypto k certificate pinned now d d' a h in
    Replaces-IsBarred n k d d' old a change (λ here _. absurd (s here)) barred
IsBarred-KeepsOp crypto n (Op.revokes k reason now) s = λ d d' a barred h.
    let (old, made, change) = replaced-Replaces k d d' (revoked_for reason now) a h in
    Replaces-IsBarred n k d d' old _ change (λ _ _. refl) barred
IsBarred-KeepsOp crypto n (Op.forgets k) s =
    λ d d' a barred h r there. barred r (forgotten-lookup k n d d' a r h there)
IsBarred-KeepsOp crypto n (Op.describes k c) s = λ d d' a barred h.
    let (old, made, change) = replaced-Replaces k d d' (described c) a h in
    Replaces-IsBarred n k d d' old _ change (λ _ was. was) barred
IsBarred-KeepsOp crypto n (Op.asks k c) s = tt

All-Spares :
    (crypto : Crypto) (n : String) (cs : List Call)
    → All (λ c. Spares n c.op) cs
    → All (λ c. KeepsOp crypto (IsBarred n) c.op) cs
All-Spares crypto n [] s = tt
All-Spares crypto n (c ∷ cs) s = (IsBarred-KeepsOp crypto n c.op s.0, All-Spares crypto n cs s.1)

abbrev pub takes_away : String → Option ℕ → String → Option String → ℕ → Call
takes_away p written n reason now = record {
  caller = p;
  op = Op.revokes n reason now;
  written = written;
}

IsBarred-refused :
    (m : Memory) (f : File) (n : String) (c : Credentials) (r : NodeRecord)
    → ((x : NodeDocument) → (refresh m f).1 ≡ ok x → IsBarred n (refresh m f).0.document)
    → (authenticate m f n c).result ≢ ok r
IsBarred-refused m f n c r barred heard =
    let ((x, read), v) = (authenticate-Vouches m f n c r).0 heard in
    let not_it = barred x read r v.filed in
    let it = (status_eq.agrees r.status approved).1 v.approves in
    absurd (ground (arith, it, not_it))

-- Where each file that is written has a later stamp than those before: once `revoke` has returned, in
-- whichever process, `authenticate` accepts no connection of that node in any process that shares the
-- file, whatever the processes call afterwards, forgetting and registering the node again included, as
-- long as none of these calls approves it.
pub revoked_until_approved :
    (crypto : Crypto) (last : ℕ) (w : World) (p q n : String) (reason : Option String) (now : ℕ)
    (written : Option ℕ) (after_it : List Call) (c : Credentials) (r r' : NodeRecord)
    → Stamped last w
    → Rising last (takes_away p written n reason now ∷ after_it)
    → All (λ c. Spares n c.op) after_it
    → (revoke (w.memory p) w.file written n reason now).result ≡ ok r
    → (let w' = run crypto (step crypto w (takes_away p written n reason now)) after_it in
        (authenticate (w'.memory q) w'.file n c).result ≢ ok r')
unfolding Rising Later after revoke revoke_change require Status-discrete
revoked_until_approved crypto last w p q n reason now written after_it c r r' s rising spared done =
    let call = takes_away p written n reason now in
    let g = update-Written (revoke_change n reason now) (w.memory p) w.file written r done in
    let (old, made, change) =
      replaced-Replaces n _ g.document (revoked_for reason now) r g.changed in
    let barred : IsBarred n (counted g.document) = λ x there.
      (let same : r ≡ x = ground (
        arith,
        rw (change.nodes, ← made) at there,
        lookup-insert n n r (refresh (w.memory p) w.file).0.document.nodes,
        eq_iff n n,
      ) in
        rw (← same, made) refl) in
    let h : Holds (IsBarred n) (step crypto w call) =
      written-Holds crypto (IsBarred n) last g.stamp w call (counted g.document) s
        (rising.0 g.stamp g.done) g.stands g.remembers barred in
    let w' = run crypto (step crypto w call) after_it in
    let h' : Holds (IsBarred n) w' =
      run-Holds crypto (IsBarred n) (latest last written) _ after_it
        (step-Stamped crypto last w call s rising.0) rising.1 (All-Spares crypto n after_it spared)
        h in
    IsBarred-refused (w'.memory q) w'.file n c r'
      (λ x read. Holds-refresh (IsBarred n) w' q x h' read)
