-- ===== src/Examples/Sessions.antt =====
-- Sessions of satellites/sessions.py with one board.
use sentry_mode.Prelude.{
  ℕ, ◌<◌, ◌+◌, String, ◌≡◌, refl, ◌↔◌, false, Option, none, some, List, [], ◌∷◌, keep, length,
}
use sentry_mode.Prelude.Dict.{lookup, insert}
use sentry_mode.Session.{
  Settings, Session, SessionManager, BrokerState, Grant, opened, open_session, is_current, granted,
}
use sentry_mode.Session.Epochs.{Op, started, run, step, replaced_is_stale}
use sentry_mode.Session.Comings.{Opening, is_of, changes, known, open_all, openings_counted}
use sentry_mode.Session.Grants.{granted_exact, renew_all, renewals_counted}

abbrev settings : Settings
settings = record {
  stale_after_seconds = 45;
  offline_after_seconds = 60;
  grant_seconds = 300;
  renew_every_seconds = 120;
}

abbrev before : List Op
before = Op.link_up ∷ Op.opens "zero" "c1" (some "boot-a") none 10 ∷ []

-- A goodbye of the old connection comes late.
abbrev after : List Op
after = Op.ends "zero" (some "c1") "gone" ∷ Op.beats "zero" none 30 ∷ []

abbrev held : Session
held = opened "zero" "c1" (some "boot-a") none 8 10

held_there : lookup "zero" (run settings (started 7) before).manager.sessions ≡ some held
unfolding run step open_session lookup insert
held_there = refl

replaced_is_stale_example :
    is_current
      (run settings
        (step settings
          (run settings (started 7) before)
          (Op.opens "zero" "c2" (some "boot-a") none 20))
        after).manager
      "zero"
      "c1"
      (some 8)
    ≡ false
replaced_is_stale_example =
    replaced_is_stale settings 7 before after "zero" "c2" (some "boot-a") none 20 held "c1"
      held_there

abbrev nobody : SessionManager
nobody = record { comings = []; sessions = []; broker = BrokerState.connected }

abbrev opening : String → String → ℕ → Opening
opening node_id boot_id now = record {
  node_id = node_id;
  connection_id = "c";
  boot_id = some boot_id;
  agent_version = none;
  hub_epoch = now;
  now = now;
}

-- The board comes back twice, the second time restarted, and another comes in between.
abbrev openings : List Opening
openings =
    opening "zero" "a" 1 ∷ opening "one" "x" 2 ∷ opening "zero" "a" 3 ∷ opening "zero" "b" 4 ∷ []

openings_counted_example :
    let own = keep (is_of "zero") openings in
    let a = known (lookup "zero" (open_all nobody openings).comings) in
    (a.connections ≡ length own) × (a.boots ≡ changes none own)
unfolding lookup
openings_counted_example = openings_counted nobody openings "zero" refl

abbrev granted_events : Grant
granted_events = record {
  grant_id = "g1";
  node_id = "zero";
  capability = "events";
  hub_epoch = 8;
  issued_at = 11;
  expires_at = 311;
  sequence = 0;
}

abbrev speaking : Session
speaking = record held { grants = ("events", granted_events) ∷ [] }

abbrev manager : SessionManager
manager = record nobody { sessions = ("zero", speaking) ∷ [] }

granted_exact_example : (granted manager "zero" "events" 20 ≡ some granted_events) ↔ (
    (s : Session) × (lookup "zero" manager.sessions ≡ some s)
    × (s.closed ≡ false)
    × (lookup "events" s.grants ≡ some granted_events)
    × (20 < granted_events.expires_at))
granted_exact_example = granted_exact manager "zero" "events" 20 granted_events

abbrev twice : List (Option ℕ × ℕ)
twice = (none, 100) ∷ (some 60, 200) ∷ []

renewals_counted_example :
    let m' = renew_all settings manager "zero" "events" twice in
    (s' : Session) × (g' : Grant) × (lookup "zero" m'.sessions ≡ some s')
    × (s'.closed ≡ false)
    × (lookup "events" s'.grants ≡ some g')
    × (g'.grant_id ≡ "g1")
    × (g'.hub_epoch ≡ 8)
    × (g'.sequence ≡ 0 + 2)
unfolding lookup
renewals_counted_example =
    renewals_counted settings manager "zero" "events" twice speaking granted_events refl refl refl
      refl

abbrev c1 : String
c1 = "c1"

abbrev c2 : String
c2 = "c2"
