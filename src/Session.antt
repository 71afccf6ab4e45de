-- ===== src/Session.antt =====
-- src/sentry_mode/satellites/sessions.py: connections, epochs and grants.
-- A moment is a number of ticks of the monotonic clock; `now` is its reading during the call. A
-- comparison of a difference with a limit is written as a sum against a sum.
pub mod Touches
pub mod Epochs
pub mod Comings
pub mod Grants
use sentry_mode.Prelude.{
  ℕ, ◌+◌, suc, String, refl, Bool, true, false, not, ◌&&◌, ◌||◌, Option, none, some, List, [], ◌∷◌,
  ◌++◌, ltb, leb, ◌≡◌, ◌-◌, is_some, contains, keep, map, ◌==◌, ◌!=◌, string_eq, nat_eq, option_eq,
  if◌then◌else◌,
}
use sentry_mode.Prelude.Dict.{Dict, lookup, insert, erase}

abbrev pub capabilities : List String
capabilities = "events" ∷ "video" ∷ "audio" ∷ []

pub data BrokerState : Type 0 where
  stopped connected transport_unavailable : BrokerState

pub data Freshness : Type 0 where
  live stale offline unavailable never_seen : Freshness

pub record Grant : Type 0 where
  pub grant_id : String
  pub node_id : String
  pub capability : String
  pub hub_epoch : ℕ
  pub issued_at : ℕ
  pub expires_at : ℕ
  pub sequence : ℕ

abbrev pub is_live : Grant → ℕ → Bool
is_live g now = ltb now g.expires_at

pub record Session : Type 0 where
  pub node_id : String
  pub connection_id : String
  pub boot_id : Option String
  pub hub_epoch : ℕ
  pub opened_at : ℕ
  pub last_seen : ℕ
  pub agent_version : Option String
  pub closed : Bool
  pub close_reason : Option String
  pub grants : Dict Grant

abbrev pub if_live : Option Grant → ℕ → Option Grant
if_live none now = none
if_live (some g) now = if is_live g now then some g else none

unfoldable pub grant_for : Session → String → ℕ → Option Grant
grant_for s capability now = if_live (lookup capability s.grants) now

-- How often a node has come back, and how often it came back as a different boot.
pub record Arrivals : Type 0 where
  pub connections : ℕ
  pub boots : ℕ
  pub last_boot_id : Option String
  pub restarted_at : Option ℕ

abbrev pub no_arrivals : Arrivals
no_arrivals = record { connections = 0; boots = 0; last_boot_id = none; restarted_at = none }

-- Boots after the first one.
abbrev pub restarts : Arrivals → ℕ
restarts a = a.boots - 1

-- The settings of `HealthConfig` and `SessionsConfig` that are read here.
pub record Settings : Type 0 where
  pub stale_after_seconds : ℕ
  pub offline_after_seconds : ℕ
  pub grant_seconds : ℕ
  pub renew_every_seconds : ℕ

pub record SessionManager : Type 0 where
  pub comings : Dict Arrivals
  pub sessions : Dict Session
  pub broker : BrokerState

-- What a refused call raises.
pub data SessionError : Type 0 where
  no_open_session newer_connection no_grant_to_renew bad_capability : SessionError

pub data Result {ℓ} (A : Type ℓ) : Type ℓ where
  ok : A → Result A
  err : SessionError → Result A

abbrev pub broker_connected : SessionManager → SessionManager
broker_connected m = record m { broker = BrokerState.connected }

-- The broker is gone, which says nothing about any individual node: the sessions are kept.
abbrev pub broker_unavailable : SessionManager → SessionManager
broker_unavailable m = record m { broker = BrokerState.transport_unavailable }

abbrev pub broker_stopped : SessionManager → SessionManager
broker_stopped m = record m { broker = BrokerState.stopped; sessions = [] }

abbrev arrivals_of : Option Arrivals → Arrivals
arrivals_of none = no_arrivals
arrivals_of (some a) = a

abbrev pub booted : Arrivals → Option String → ℕ → Arrivals
booted a none now = a
booted a (some boot) now =
    if some boot != a.last_boot_id
    then record a {
      boots = suc a.boots;
      restarted_at = if is_some a.last_boot_id then some now else a.restarted_at;
      last_boot_id = some boot;
    }
    else a

abbrev pub arrived : Option Arrivals → Option String → ℕ → Arrivals
arrived known boot_id now =
    let a = arrivals_of known in booted (record a { connections = suc a.connections }) boot_id now

abbrev pub opened : String → String → Option String → Option String → ℕ → ℕ → Session
opened node_id connection_id boot_id agent_version epoch now = record {
  node_id = node_id;
  connection_id = connection_id;
  boot_id = boot_id;
  hub_epoch = epoch;
  opened_at = now;
  last_seen = now;
  agent_version = agent_version;
  closed = false;
  close_reason = none;
  grants = [];
}

-- Start a session, replacing any older one for the same node; `epoch` is what `next_epoch` returns.
unfoldable pub open_session :
    SessionManager
    → String
    → String
    → Option String
    → Option String
    → ℕ
    → ℕ
    → SessionManager × Session
open_session m node_id connection_id boot_id agent_version epoch now =
    let session = opened node_id connection_id boot_id agent_version epoch now in
    (
      record m {
        sessions = insert node_id session m.sessions;
        comings = insert node_id (arrived (lookup node_id m.comings) boot_id now) m.comings;
      },
      session,
    )

abbrev pub unless_closed : Option Session → Option Session
unless_closed none = none
unless_closed (some s) = if s.closed then none else some s

unfoldable pub current : SessionManager → String → Option Session
current m node_id = unless_closed (lookup node_id m.sessions)

-- `connection_id is not None and session.connection_id != connection_id`
abbrev pub other_connection : Session → Option String → Bool
other_connection s connection_id = is_some connection_id && some s.connection_id != connection_id

abbrev checked : Option Session → Option String → Result Session
checked none connection_id = err SessionError.no_open_session
checked (some s) connection_id =
    if s.closed
    then err SessionError.no_open_session
    else if other_connection s connection_id
    then err SessionError.newer_connection
    else ok s

unfoldable pub require : SessionManager → String → Option String → Result Session
require m node_id connection_id = checked (lookup node_id m.sessions) connection_id

-- Write back a session that the source changes in place.
abbrev pub with_session : SessionManager → String → Session → SessionManager
with_session m node_id s = record m { sessions = insert node_id s m.sessions }

unfoldable pub heartbeat :
    SessionManager → String → Option String → ℕ → SessionManager × Result Session
heartbeat m node_id connection_id now = elim (require m node_id connection_id) [
  | err e ↦ (m, err e)
  | ok s ↦ let s' = record s { last_seen = now } in (with_session m node_id s', ok s')
]

abbrev ended :
    SessionManager → String → Option String → String → Option Session → SessionManager × Bool
ended m node_id connection_id reason none = (m, false)
ended m node_id connection_id reason (some s) =
    if other_connection s connection_id then (m, false) else (
      with_session m node_id (record s { closed = true; close_reason = some reason; grants = [] }),
      true,
    )

-- End a session, unless the news is about a connection that is already history.
unfoldable pub close : SessionManager → String → Option String → String → SessionManager × Bool
close m node_id connection_id reason =
    ended m node_id connection_id reason (lookup node_id m.sessions)

abbrev still_counts : Option Session → String → Option ℕ → Bool
still_counts none connection_id hub_epoch = false
still_counts (some s) connection_id hub_epoch =
    if s.connection_id != connection_id
    then false
    else not (is_some hub_epoch) || hub_epoch == some s.hub_epoch

-- Whether something that claims to come from this connection still counts.
unfoldable pub is_current : SessionManager → String → String → Option ℕ → Bool
is_current m node_id connection_id hub_epoch =
    still_counts (current m node_id) connection_id hub_epoch

abbrev duration_of : Settings → Option ℕ → ℕ
duration_of c none = c.grant_seconds
duration_of c (some seconds) = seconds

abbrev with_grant : Session → Grant → Session
with_grant s g = record s { grants = insert g.capability g s.grants }

-- `new_id` is what the generator of identifiers returns.
unfoldable pub grant :
    Settings
    → SessionManager
    → String
    → String
    → Option ℕ
    → String
    → ℕ
    → SessionManager × Result Grant
grant c m node_id capability seconds new_id now =
    if not (contains capability capabilities)
    then (m, err SessionError.bad_capability)
    else elim (require m node_id none) [
      | err e ↦ (m, err e)
      | ok s ↦
          let issued : Grant = record {
            grant_id = new_id;
            node_id = node_id;
            capability = capability;
            hub_epoch = s.hub_epoch;
            issued_at = now;
            expires_at = now + duration_of c seconds;
            sequence = 0;
          } in
          (with_session m node_id (with_grant s issued), ok issued)
    ]

abbrev pub extended : Settings → String → String → Option ℕ → ℕ → Session → Grant → Grant
extended c node_id capability seconds now s held = record {
  grant_id = held.grant_id;
  node_id = node_id;
  capability = capability;
  hub_epoch = s.hub_epoch;
  issued_at = now;
  expires_at = now + duration_of c seconds;
  sequence = suc held.sequence;
}

abbrev renewed :
    Settings
    → SessionManager
    → String
    → String
    → Option ℕ
    → ℕ
    → Session
    → Option Grant
    → SessionManager × Result Grant
renewed c m node_id capability seconds now s none = (m, err SessionError.no_grant_to_renew)
renewed c m node_id capability seconds now s (some held) =
    let g = extended c node_id capability seconds now s held in
    (with_session m node_id (with_grant s g), ok g)

-- Extend a grant, keeping its identity and counting the renewal.
unfoldable pub renew :
    Settings → SessionManager → String → String → Option ℕ → ℕ → SessionManager × Result Grant
renew c m node_id capability seconds now = elim (require m node_id none) [
  | err e ↦ (m, err e)
  | ok s ↦ renewed c m node_id capability seconds now s (lookup capability s.grants)
]

-- One capability by its name, or all of them; the empty name stands for none.
abbrev taken_names : Session → Option String → List String
taken_names s none = map (λ e. e.0) s.grants
taken_names s (some capability) =
    if capability == "" then map (λ e. e.0) s.grants else capability ∷ []

unfoldable pub pop_all : List String → Dict Grant → Dict Grant
pop_all [] grants = grants
pop_all (name ∷ names) grants = pop_all names (erase name grants)

abbrev taken_back :
    SessionManager → String → Option String → Option Session → SessionManager × List String
taken_back m node_id capability none = (m, [])
taken_back m node_id capability (some s) =
    let names = taken_names s capability in
    (with_session m node_id (record s { grants = pop_all names s.grants }), names)

-- Take back one capability, or all of them.
unfoldable pub revoke : SessionManager → String → Option String → SessionManager × List String
revoke m node_id capability = taken_back m node_id capability (lookup node_id m.sessions)

-- The live grant a node holds now.
unfoldable pub granted : SessionManager → String → String → ℕ → Option Grant
granted m node_id capability now = elim (current m node_id) [
  | none ↦ none
  | some s ↦ grant_for s capability now
]

unfoldable pub grant_is_current : SessionManager → String → String → String → ℕ → Bool
grant_is_current m node_id grant_id capability now = elim (current m node_id) [
  | none ↦ false
  | some s ↦ elim (grant_for s capability now) [ none ↦ false | some g ↦ g.grant_id == grant_id ]
]

-- `grant.expires_at - now <= deadline`
abbrev pub is_due : Settings → ℕ → Grant → Bool
is_due c now g = leb g.expires_at (now + c.renew_every_seconds)

unfoldable pub due_in : Settings → ℕ → Dict Session → List Grant
due_in c now [] = []
due_in c now ((_, s) ∷ rest) =
    (if s.closed then [] else keep (is_due c now) (map (λ e. e.1) s.grants)) ++ due_in c now rest

-- The grants that should be renewed now.
abbrev pub due_for_renewal : Settings → SessionManager → ℕ → List Grant
due_for_renewal c m now = due_in c now m.sessions

abbrev pub seen : Settings → ℕ → Option Session → Freshness
seen c now none = Freshness.never_seen
seen c now (some s) =
    if s.closed
    then Freshness.offline
    else if leb (s.last_seen + c.offline_after_seconds) now
    then Freshness.offline
    else if leb (s.last_seen + c.stale_after_seconds) now
    then Freshness.stale
    else Freshness.live

-- Nothing is said of a node while the link is down.
abbrev over_link : BrokerState → Freshness → Freshness
over_link BrokerState.connected f = f
over_link BrokerState.stopped f = Freshness.unavailable
over_link BrokerState.transport_unavailable f = Freshness.unavailable

unfoldable pub freshness : Settings → SessionManager → String → ℕ → Freshness
freshness c m node_id now = over_link m.broker (seen c now (lookup node_id m.sessions))
