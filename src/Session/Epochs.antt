-- ===== src/Session/Epochs.antt =====
-- Sessions over any sequence of calls, and the epochs that they are stamped with.
use sentry_mode.Prelude.{
  ℕ, ◌+◌, ◌≤◌, ◌<◌, suc, String, ◌≡◌, refl, inl, inr, false, Option, some, List, [], ◌∷◌, arith,
  Option-cases, Bool-cases, eq_iff, ◌==◌, string_eq, nat_eq,
}
use sentry_mode.Prelude.Dict.{Dict, lookup, insert, lookup-insert}
use sentry_mode.Session.{
  Settings, Session, SessionManager, BrokerState, opened, broker_connected, broker_unavailable,
  broker_stopped, open_session, heartbeat, close, grant, renew, revoke, is_current, current,
}
use sentry_mode.Session.Touches.{
  Touches, nothing, heartbeat-Touches, close-Touches, grant-Touches, renew-Touches, revoke-Touches,
  Touches-keeps,
}

-- A call of the manager, with the reading of the clock where one is taken.
pub data Op : Type 0 where
  link_up link_down link_stopped : Op
  opens : String → String → Option String → Option String → ℕ → Op
  beats : String → Option String → ℕ → Op
  ends : String → Option String → String → Op
  grants : String → String → Option ℕ → String → ℕ → Op
  renews : String → String → Option ℕ → ℕ → Op
  revokes : String → Option String → Op
  -- `next_epoch` moves on and no session is opened: for another process, or because it raises.
  passes : ℕ → Op

-- The manager and the number that `next_epoch` gave last.
pub record Hub : Type 0 where
  pub manager : SessionManager
  pub hub_epoch : ℕ

abbrev kept : Hub → SessionManager → Hub
kept h m = record h { manager = m }

unfoldable pub step : Settings → Hub → Op → Hub
step c h Op.link_up = kept h (broker_connected h.manager)
step c h Op.link_down = kept h (broker_unavailable h.manager)
step c h Op.link_stopped = kept h (broker_stopped h.manager)
step c h (Op.opens node_id connection_id boot_id agent_version now) = record {
  manager =
      (open_session h.manager node_id connection_id boot_id agent_version (suc h.hub_epoch) now).0;
  hub_epoch = suc h.hub_epoch;
}
step c h (Op.beats node_id connection_id now) =
    kept h (heartbeat h.manager node_id connection_id now).0
step c h (Op.ends node_id connection_id reason) =
    kept h (close h.manager node_id connection_id reason).0
step c h (Op.grants node_id capability seconds new_id now) =
    kept h (grant c h.manager node_id capability seconds new_id now).0
step c h (Op.renews node_id capability seconds now) =
    kept h (renew c h.manager node_id capability seconds now).0
step c h (Op.revokes node_id capability) = kept h (revoke h.manager node_id capability).0
step c h (Op.passes n) = record h { hub_epoch = h.hub_epoch + n }

unfoldable pub run : Settings → Hub → List Op → Hub
run c h [] = h
run c h (o ∷ os) = run c (step c h o) os

-- No session is of an epoch that is yet to come.
pub record Dated (h : Hub) : Type 0 where
  pub past :
      (n : String) (s : Session) → lookup n h.manager.sessions ≡ some s → s.hub_epoch ≤ h.hub_epoch

-- The session of `node_id`, if there is one, is of a later epoch than `old`.
abbrev Beyond : String → ℕ → SessionManager → Type 0
Beyond node_id old m = (s : Session) → lookup node_id m.sessions ≡ some s → old < s.hub_epoch

-- A call either opens a session, ends them all, or touches one session at most.
data Effect (h h' : Hub) : Type 0 where
  replaced :
      (n : String) (s : Session)
      → h'.hub_epoch ≡ suc h.hub_epoch
      → s.hub_epoch ≡ suc h.hub_epoch
      → s.node_id ≡ n
      → h'.manager.sessions ≡ insert n s h.manager.sessions
      → Effect h h'
  cleared : h.hub_epoch ≤ h'.hub_epoch → h'.manager.sessions ≡ [] → Effect h h'
  touched : h.hub_epoch ≤ h'.hub_epoch → Touches h.manager h'.manager → Effect h h'

step-Effect : (c : Settings) (h : Hub) (o : Op) → Effect h (step c h o)
unfolding step open_session
step-Effect c h Op.link_up = touched (omega arith) (nothing refl)
step-Effect c h Op.link_down = touched (omega arith) (nothing refl)
step-Effect c h Op.link_stopped = cleared (omega arith) refl
step-Effect c h (Op.opens n connection_id boot_id agent_version now) =
    replaced n _ refl refl refl refl
step-Effect c h (Op.beats n connection_id now) =
    touched (omega arith) (heartbeat-Touches h.manager n connection_id now)
step-Effect c h (Op.ends n connection_id reason) =
    touched (omega arith) (close-Touches h.manager n connection_id reason)
step-Effect c h (Op.grants n capability seconds new_id now) =
    touched (omega arith) (grant-Touches c h.manager n capability seconds new_id now)
step-Effect c h (Op.renews n capability seconds now) =
    touched (omega arith) (renew-Touches c h.manager n capability seconds now)
step-Effect c h (Op.revokes n capability) =
    touched (omega arith) (revoke-Touches h.manager n capability)
step-Effect c h (Op.passes n) = touched (omega arith) (nothing refl)

nowhere :
    (k : String) (sessions : Dict Session) (s : Session)
    → sessions ≡ []
    → lookup k sessions ≡ some s
    → ⊥
unfolding lookup
nowhere k [] s empty there = ground arith
nowhere k (x ∷ xs) s empty there = absurd (ground arith)

-- The node `node_id` has no session of epoch `old` or before, and neither will it.
record Passed (node_id : String) (old : ℕ) (h : Hub) : Type 0 where
  pub gone : old ≤ h.hub_epoch
  pub beyond : Beyond node_id old h.manager

Effect-Passed :
    (node_id : String) (old : ℕ) (h h' : Hub)
    → Effect h h'
    → Passed node_id old h
    → Passed node_id old h'
Effect-Passed node_id old h h' (replaced n s counted dated own moved) p = record {
  gone = let g = p.gone in omega (arith, g, counted);
  beyond = λ s' there.
      let g = p.gone in
      elim (Bool-cases (n == node_id)) [
        | inl here ↦
            let e : s ≡ s' =
              ground
                (arith, rw (moved, lookup-insert n node_id s h.manager.sessions) at there, here) in
            let d : s'.hub_epoch ≡ suc h.hub_epoch = rw e at dated in omega (arith, g, d)
        | inr other ↦ p.beyond s' (
            ground
              (arith, rw (moved, lookup-insert n node_id s h.manager.sessions) at there, other))
      ];
}
Effect-Passed node_id old h h' (cleared grown empty) p = record {
  gone = let g = p.gone in omega (arith, g, grown);
  beyond = λ s' there. absurd (nowhere _ _ s' empty there);
}
Effect-Passed node_id old h h' (touched grown t) p = record {
  gone = let g = p.gone in omega (arith, g, grown);
  beyond = λ s' there.
      Touches-keeps h.manager h'.manager (λ k _ e. k ≡ node_id → old < e) t
        (λ k s found e. p.beyond s (rw e at found)) node_id s' there refl;
}

run-Passed :
    (c : Settings) (node_id : String) (old : ℕ) (h : Hub) (os : List Op)
    → Passed node_id old h
    → Passed node_id old (run c h os)
unfolding run
run-Passed c node_id old h [] p = p
run-Passed c node_id old h (o ∷ os) p =
    run-Passed c node_id old (step c h o) os (Effect-Passed node_id old h _ (step-Effect c h o) p)

Effect-Dated : (h h' : Hub) → Effect h h' → Dated h → Dated h'
Effect-Dated h h' (replaced n s counted dated own moved) d = record {
  past = λ k s' there. elim (Bool-cases (n == k)) [
    | inl here ↦
        let e : s ≡ s' =
          ground (arith, rw (moved, lookup-insert n k s h.manager.sessions) at there, here) in
        let e' : s'.hub_epoch ≡ suc h.hub_epoch = rw e at dated in omega (arith, counted, e')
    | inr other ↦
        let old =
          d.past k s'
            (ground (arith, rw (moved, lookup-insert n k s h.manager.sessions) at there, other)) in
        omega (arith, counted, old)
  ];
}
Effect-Dated h h' (cleared grown empty) d = record {
  past = λ k s' there. absurd (nowhere _ _ s' empty there);
}
Effect-Dated h h' (touched grown t) d = record {
  past = λ k s' there.
      let before =
        Touches-keeps h.manager h'.manager (λ _ _ e. e ≤ h.hub_epoch) t d.past k s' there in
      omega (arith, before, grown);
}

Passed-stale :
    (node_id connection_id : String) (old : ℕ) (h : Hub)
    → Passed node_id old h
    → is_current h.manager node_id connection_id (some old) ≡ false
unfolding is_current current
Passed-stale node_id connection_id old h p =
    elim (Option-cases (lookup node_id h.manager.sessions)) [
      | inl missing ↦ rw missing refl
      | inr (s, found) ↦ let later = p.beyond s found in ground arith
    ]

run-Dated : (c : Settings) (h : Hub) (os : List Op) → Dated h → Dated (run c h os)
unfolding run
run-Dated c h [] d = d
run-Dated c h (o ∷ os) d = run-Dated c (step c h o) os (Effect-Dated h _ (step-Effect c h o) d)

-- A hub that has just started: no session, and the epoch that its document holds.
abbrev pub started : ℕ → Hub
started hub_epoch = record {
  manager = record { comings = []; sessions = []; broker = BrokerState.stopped };
  hub_epoch = hub_epoch;
}

started-Dated : (e : ℕ) → Dated (started e)
started-Dated e = record { past = λ k s there. absurd (nowhere k [] s refl there) }

opened-Passed :
    (c : Settings) (h : Hub) (n connection_id : String) (boot_id agent_version : Option String)
    (now old : ℕ)
    → old ≤ h.hub_epoch
    → Passed n old (step c h (Op.opens n connection_id boot_id agent_version now))
unfolding step open_session
opened-Passed c h n connection_id boot_id agent_version now old before = record {
  gone = omega (arith, before);
  beyond = λ s there.
      let new = opened n connection_id boot_id agent_version (suc h.hub_epoch) now in
      let e : new ≡ s =
        ground (arith, lookup-insert n n new h.manager.sessions, there, eq_iff n n) in
      rw (← e) (omega (arith, before));
}

-- From the start of a hub without sessions, where each number that `next_epoch` gives is greater than
-- those before: once a node has opened another session, nothing that is stamped with the epoch of its
-- earlier session counts as current any more, on whatever connection it comes and whatever the manager
-- is called for afterwards, stale goodbyes, lost links and restarts of the transport included.
pub replaced_is_stale :
    (c : Settings) (e : ℕ) (before after : List Op) (node_id connection_id : String)
    (boot_id agent_version : Option String) (now : ℕ) (s : Session) (claimed : String)
    → lookup node_id (run c (started e) before).manager.sessions ≡ some s
    → is_current
        (run c
          (step c
            (run c (started e) before)
            (Op.opens node_id connection_id boot_id agent_version now))
          after).manager
        node_id
        claimed
        (some s.hub_epoch)
      ≡ false
replaced_is_stale c e before after node_id connection_id boot_id agent_version now s claimed held =
    let d = run-Dated c (started e) before (started-Dated e) in
    Passed-stale node_id claimed s.hub_epoch _ (
      run-Passed c node_id s.hub_epoch _ after (
        opened-Passed c _ node_id connection_id boot_id agent_version now s.hub_epoch
          (d.past node_id s held)))
