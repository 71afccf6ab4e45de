-- ===== src/Identity/Epochs.antt =====
-- The numbers that `next_epoch` gives, over any sequence of calls and restarts.
use sentry_mode.Prelude.{
  ℕ, ◌≤◌, ◌<◌, String, ◌≡◌, Option, List, [], ◌∷◌, arith, string_eq, option_eq, nat_eq, All,
}
use sentry_mode.Node.{NodeDocument, status_eq, ok, Crypto}
use sentry_mode.Identity.{
  require, next_epoch, next_epoch_change, register_change, approve_change, revoke_change,
  forget_change, describe_change,
}
use sentry_mode.Identity.Calls.{
  Op, Call, World, step, run, after, Stamped, latest, Later, Rising, update-Written, counted,
}
use sentry_mode.Identity.Kept.{KeepsOp, Holds}
use sentry_mode.Identity.Histories.{step-Stamped, run-Holds, written-Holds, Holds-refresh}

-- The epochs of the document only count up.
abbrev From : ℕ → NodeDocument → Type 0
From e d = e ≤ d.hub_epoch

From-KeepsOp : (crypto : Crypto) (e : ℕ) (op : Op) → KeepsOp crypto (From e) op
unfolding next_epoch_change register_change approve_change revoke_change forget_change
    describe_change require
From-KeepsOp crypto e Op.counts = λ d d' a from h. ground (arith, h)
From-KeepsOp crypto e Op.starts = tt
From-KeepsOp crypto e (Op.registers n r now) = λ d d' a from h. ground (arith, h)
From-KeepsOp crypto e (Op.approves n certificate pinned now) = λ d d' a from h. ground (arith, h)
From-KeepsOp crypto e (Op.revokes n reason now) = λ d d' a from h. ground (arith, h)
From-KeepsOp crypto e (Op.forgets n) = λ d d' a from h. ground (arith, h)
From-KeepsOp crypto e (Op.describes n c) = λ d d' a from h. ground (arith, h)
From-KeepsOp crypto e (Op.asks n c) = tt

All-From : (crypto : Crypto) (e : ℕ) (cs : List Call) → All (λ c. KeepsOp crypto (From e) c.op) cs
All-From crypto e [] = tt
All-From crypto e (c ∷ cs) = (From-KeepsOp crypto e c.op, All-From crypto e cs)

abbrev pub counts_up : String → Option ℕ → Call
counts_up p written = record { caller = p; op = Op.counts; written = written }

-- Where each file that is written has a later stamp than those before, an epoch that `next_epoch` gives
-- is greater than every epoch that it gave before, to the same process or to another: whatever the
-- processes that share the file called in between, calls whose write failed and restarts included.
pub epochs_increase :
    (crypto : Crypto) (last : ℕ) (w : World) (p q : String) (written written' : Option ℕ)
    (between : List Call) (e e' : ℕ)
    → Stamped last w
    → Rising last (counts_up p written ∷ between)
    → (next_epoch (w.memory p) w.file written).result ≡ ok e
    → (let w' = run crypto (step crypto w (counts_up p written)) between in
        (next_epoch (w'.memory q) w'.file written').result ≡ ok e')
    → e < e'
unfolding Rising Later after next_epoch next_epoch_change
epochs_increase crypto last w p q written written' between e e' s rising first second =
    let c = counts_up p written in
    let g = update-Written next_epoch_change (w.memory p) w.file written e first in
    let w' = run crypto (step crypto w c) between in
    let h : Holds (From e) (step crypto w c) =
      written-Holds crypto (From e) last g.stamp w c (counted g.document) s
        (rising.0 g.stamp g.done) g.stands g.remembers (let n = g.changed in ground (arith, n)) in
    let h' : Holds (From e) w' =
      run-Holds crypto (From e) (latest last written) _ between
        (step-Stamped crypto last w c s rising.0) rising.1 (All-From crypto e between) h in
    let g' = update-Written next_epoch_change (w'.memory q) w'.file written' e' second in
    let from = Holds-refresh (From e) w' q g'.read h' g'.reads in
    let next = g'.changed in ground (arith, from, next)
