-- ===== src/Session/Touches.antt =====
-- What one call of the manager may do to the sessions.
use sentry_mode.Prelude.{
  ℕ, String, ◌≡◌, refl, ap, ◌∙◌, inl, inr, ◌⊎◌, Option, none, some, arith, Option-cases, Bool-cases,
  eq_iff, ◌==◌, string_eq, nat_eq, contains,
}
use sentry_mode.Prelude.Dict.{lookup, insert, lookup-insert}
use sentry_mode.Session.{
  Settings, Session, SessionManager, require, heartbeat, close, grant, capabilities, renew, revoke,
  other_connection, SessionError, Result, ok, err,
}

-- `m'` differs from `m` in one session at most, which keeps its node and its epoch.
pub data Touches (m m' : SessionManager) : Type 0 where
  nothing : m'.sessions ≡ m.sessions → Touches m m'
  one :
      (n : String) (s s' : Session)
      → lookup n m.sessions ≡ some s
      → s'.hub_epoch ≡ s.hub_epoch
      → s'.node_id ≡ s.node_id
      → m'.sessions ≡ insert n s' m.sessions
      → Touches m m'

require_found :
    (m : SessionManager) (n : String) (c : Option String) (s : Session)
    → require m n c ≡ ok s
    → lookup n m.sessions ≡ some s
unfolding require
require_found m n c s h = elim (Option-cases (lookup n m.sessions)) [
  | inl missing ↦ absurd (ground arith)
  | inr (x, found) ↦ found ∙ ap some (ground (arith, h, found))
]

Result-cases :
    (r : Result Session) → ((e : SessionError) × (r ≡ err e)) ⊎ ((s : Session) × (r ≡ ok s))
Result-cases (ok s) = inr (s, refl)
Result-cases (err e) = inl (e, refl)

pub heartbeat-Touches :
    (m : SessionManager) (n : String) (c : Option String) (now : ℕ)
    → Touches m (heartbeat m n c now).0
unfolding heartbeat
heartbeat-Touches m n c now = elim (Result-cases (require m n c)) [
  | inl (e, h) ↦ rw (h, heartbeat) (nothing refl)
  | inr (s, h) ↦ rw (h, heartbeat) (one n s _ (require_found m n c s h) refl refl refl)
]

pub close-Touches :
    (m : SessionManager) (n : String) (c : Option String) (reason : String)
    → Touches m (close m n c reason).0
unfolding close
close-Touches m n c reason = elim (Option-cases (lookup n m.sessions)) [
  | inl h ↦ rw h (nothing refl)
  | inr (s, h) ↦ elim (Bool-cases (other_connection s c)) [
    | inl other ↦ rw (h, other) (nothing refl)
    | inr same ↦ rw (h, same) (one n s _ h refl refl refl)
  ]
]

pub grant-Touches :
    (c : Settings) (m : SessionManager) (n capability : String) (seconds : Option ℕ)
    (new_id : String) (now : ℕ)
    → Touches m (grant c m n capability seconds new_id now).0
unfolding grant
grant-Touches c m n capability seconds new_id now =
    elim (Bool-cases (contains capability capabilities)) [
      | inr bad ↦ rw bad (nothing refl)
      | inl good ↦ elim (Result-cases (require m n none)) [
        | inl (e, h) ↦ rw (good, h) (nothing refl)
        | inr (s, h) ↦ rw (good, h) (one n s _ (require_found m n none s h) refl refl refl)
      ]
    ]

pub renew-Touches :
    (c : Settings) (m : SessionManager) (n capability : String) (seconds : Option ℕ) (now : ℕ)
    → Touches m (renew c m n capability seconds now).0
unfolding renew
renew-Touches c m n capability seconds now = elim (Result-cases (require m n none)) [
  | inl (e, h) ↦ rw (h, renew) (nothing refl)
  | inr (s, h) ↦ elim (Option-cases (lookup capability s.grants)) [
    | inl gone ↦ rw (h, gone, renew) (nothing refl)
    | inr (held, there) ↦
        rw (h, there, renew) (one n s _ (require_found m n none s h) refl refl refl)
  ]
]

pub revoke-Touches :
    (m : SessionManager) (n : String) (capability : Option String)
    → Touches m (revoke m n capability).0
unfolding revoke
revoke-Touches m n capability = elim (Option-cases (lookup n m.sessions)) [
  | inl h ↦ rw h (nothing refl)
  | inr (s, h) ↦ rw h (one n s _ h refl refl refl)
]

-- What holds of every session still does, if it only speaks of the node and the epoch.
pub Touches-keeps {ℓ} :
    (m m' : SessionManager) (P : String → String → ℕ → Type ℓ)
    → Touches m m'
    → ((k : String) (s : Session) → lookup k m.sessions ≡ some s → P k s.node_id s.hub_epoch)
    → (k : String) (s : Session) → lookup k m'.sessions ≡ some s
    → P k s.node_id s.hub_epoch
Touches-keeps m m' P (nothing same) all k s h = all k s (rw same at h)
Touches-keeps m m' P (one n old new found epoch node moved) all k s h = elim (Bool-cases (n == k)) [
  | inl here ↦
      let e : n ≡ k = (eq_iff n k).0 here in
      let e' : new ≡ s = ground (arith, rw (moved, lookup-insert n k new m.sessions) at h, here) in
      rw (← e', node, epoch) (all k old (rw e at found))
  | inr other ↦ all k s (ground (arith, rw (moved, lookup-insert n k new m.sessions) at h, other))
]
