-- ===== src/Session/Grants.antt =====
-- What a node may say while its session lasts, and how recently it proved it was there.
use sentry_mode.Prelude.{
  ℕ, ◌+◌, ◌≤◌, ◌<◌, String, ◌≡◌, refl, sym, ◌≢◌, ◌↔◌, inl, inr, true, false, Option, none, some,
  List, [], ◌∷◌, arith, Option-cases, Bool-cases, eq_iff, string_eq, option_eq, nat_eq, contains,
  length, ◌∙◌, if◌then◌else◌, map,
}
use sentry_mode.Prelude.Dict.{Dict, lookup, insert, erase, lookup-insert_self, lookup-erase}
use sentry_mode.Session.{
  Settings, Session, Grant, SessionManager, Freshness, open_session, opened, close, renew, revoke,
  granted, current, require, pop_all, grant_for, is_current, extended, freshness,
}

-- After a node has opened a session, a goodbye about another connection changes nothing, and the
-- session still counts; a goodbye about its own connection ends it.
pub close_after_open :
    (m : SessionManager) (node_id connection_id : String) (boot_id version : Option String)
    (epoch now : ℕ) (said reason : String)
    → let m' = (open_session m node_id connection_id boot_id version epoch now).0 in
      (said ≢ connection_id
        → (close m' node_id (some said) reason ≡ (m', false))
          × (is_current m' node_id connection_id (some epoch) ≡ true))
      × (said ≡ connection_id
          → is_current (close m' node_id (some said) reason).0 node_id connection_id none ≡ false)
unfolding open_session close is_current current
close_after_open m node_id connection_id boot_id version epoch now said reason =
    let there =
      lookup-insert_self node_id (opened node_id connection_id boot_id version epoch now)
        m.sessions in
    (
      λ other. (
        rw there (ground (arith, eq_iff connection_id said)),
        rw there (ground (arith, eq_iff connection_id connection_id)),
      ),
      λ own.
          let same = (eq_iff connection_id said).1 (sym own) in
          rw (there, same, lookup-insert_self) refl,
    )

-- A node holds a grant exactly if its session is open, the grant is in it and has not run out.
pub granted_exact :
    (m : SessionManager) (node_id capability : String) (now : ℕ) (g : Grant)
    → (granted m node_id capability now ≡ some g) ↔ (
        (s : Session) × (lookup node_id m.sessions ≡ some s)
        × (s.closed ≡ false)
        × (lookup capability s.grants ≡ some g)
        × (now < g.expires_at))
unfolding granted current grant_for
granted_exact m node_id capability now g = (
  λ h. elim (Option-cases (lookup node_id m.sessions)) [
    | inl missing ↦ absurd (let h' = rw (missing, granted) at h in ground arith)
    | inr (s, found) ↦
        let h' = rw (found, granted) at h in (s, found, ground arith, ground arith, ground arith)
  ],
  λ (s, found, on, there, time). rw (found, granted) (ground arith),
)

pop_all_gone :
    (names : List String) (grants : Dict Grant) (k : String)
    → lookup k (pop_all names grants) ≡ (if contains k names then none else lookup k grants)
unfolding pop_all
pop_all_gone [] grants k = refl
pop_all_gone (n ∷ names) grants k =
    ground (
      arith,
      pop_all_gone names (erase n grants) k,
      lookup-erase n k grants,
      eq_iff n k,
      eq_iff k n,
    )

key_listed :
    (grants : Dict Grant) (k : String)
    → contains k (map (λ e. e.0) grants) ≡ false
    → lookup k grants ≡ none
unfolding lookup
key_listed [] k h = refl
key_listed ((j, g) ∷ grants) k h = ground (arith, key_listed grants k, eq_iff j k, eq_iff k j)

all_gone :
    (grants : Dict Grant) (k : String) → lookup k (pop_all (map (λ e. e.0) grants) grants) ≡ none
all_gone grants k = elim (Bool-cases (contains k (map (λ (e : String × Grant). e.0) grants))) [
  | inl listed ↦ rw (pop_all_gone, listed) refl
  | inr other ↦ rw (pop_all_gone, other) (key_listed grants k other)
]

abbrev pub rank : Freshness → ℕ
rank Freshness.live = 0
rank Freshness.stale = 1
rank Freshness.offline = 2
rank Freshness.unavailable = 3
rank Freshness.never_seen = 4

-- Between two moments in which the manager is not called, the freshness of a node only falls, from
-- live over stale to offline, where a node is stale before it is offline.
pub freshness_falls :
    (c : Settings) (m : SessionManager) (node_id : String) (now later : ℕ)
    → c.stale_after_seconds < c.offline_after_seconds
    → now ≤ later
    → rank (freshness c m node_id now) ≤ rank (freshness c m node_id later)
unfolding freshness
freshness_falls c m node_id now later order wait = elim (Option-cases (lookup node_id m.sessions)) [
  | inl missing ↦ rw (missing, freshness) (ground arith)
  | inr (s, found) ↦ rw (found, freshness) (ground arith)
]

-- After all of a node's grants are taken back it holds none, for any capability and at any time.
pub revoke_everything :
    (m : SessionManager) (node_id capability : String) (now : ℕ)
    → granted (revoke m node_id none).0 node_id capability now ≡ none
unfolding granted current grant_for revoke
revoke_everything m node_id capability now = elim (Option-cases (lookup node_id m.sessions)) [
  | inl missing ↦ rw (missing, granted, missing) refl
  | inr (s, found) ↦
      rw (found, granted, lookup-insert_self)
        (elim (Bool-cases s.closed) [
          | inl shut ↦ rw shut refl
          | inr open_so ↦ rw (open_so, all_gone s.grants capability) refl
        ])
]

-- Renew a grant over and over, the clock moving on each time.
unfoldable pub renew_all :
    Settings → SessionManager → String → String → List (Option ℕ × ℕ) → SessionManager
renew_all c m node_id capability [] = m
renew_all c m node_id capability ((seconds, now) ∷ rest) =
    renew_all c (renew c m node_id capability seconds now).0 node_id capability rest

-- A grant of an open session, of that session's epoch, that is renewed any number of times is still
-- there, under the same identifier and epoch, and its sequence number has gone up once for each
-- renewal.
pub renewals_counted :
    (c : Settings) (m : SessionManager) (node_id capability : String) (times : List (Option ℕ × ℕ))
    (s : Session) (g : Grant)
    → lookup node_id m.sessions ≡ some s
    → s.closed ≡ false
    → lookup capability s.grants ≡ some g
    → g.hub_epoch ≡ s.hub_epoch
    → let m' = renew_all c m node_id capability times in
      (s' : Session) × (g' : Grant) × (lookup node_id m'.sessions ≡ some s')
      × (s'.closed ≡ false)
      × (lookup capability s'.grants ≡ some g')
      × (g'.grant_id ≡ g.grant_id)
      × (g'.hub_epoch ≡ g.hub_epoch)
      × (g'.sequence ≡ g.sequence + length times)
unfolding renew_all renew require
renewals_counted c m node_id capability [] s g found on there epoch =
    (s, g, found, on, there, refl, refl, omega arith)
renewals_counted c m node_id capability ((seconds, now) ∷ rest) s g found on there epoch =
    let g₁ = extended c node_id capability seconds now s g in
    let s₁ = record s { grants = insert capability g₁ s.grants } in
    let m₁ = (renew c m node_id capability seconds now).0 in
    let at₁ : lookup node_id m₁.sessions ≡ some s₁ =
      rw (found, renew, on, there, lookup-insert_self) refl in
    let (s', g', a, b, d, e, f, n) =
      renewals_counted c m₁ node_id capability rest s₁ g₁ at₁ on
        (lookup-insert_self capability g₁ s.grants) refl in
    (s', g', a, b, d, e, f ∙ sym epoch, omega (arith, n))
