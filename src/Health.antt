-- ===== src/Health.antt =====
-- src/sentry_mode/satellites/health.py: what each node is reporting about itself.
-- A moment is a number of ticks of the wall clock; `now` is its reading during the call. The parts of a
-- heartbeat that are only kept are of a type that is a parameter.
pub mod Tally
pub mod Delays
use sentry_mode.Prelude.{
  ℕ, ◌+◌, suc, String, Bool, true, false, not, ◌&&◌, ◌||◌, Option, none, some, List, [], ◌∷◌, ltb,
  leb, is_none, if◌then◌else◌,
}
use sentry_mode.Prelude.Dict.{Dict, lookup, insert, erase}

abbrev pub behind_ms : ℕ
behind_ms = 2000

abbrev pub worst_for_seconds : ℕ
worst_for_seconds = 300

-- The last thing a node said about itself, with the hub's own timestamps on it.
pub record NodeHealth {ℓ} (Document : Type ℓ) : Type ℓ where
  pub node_id : String
  pub heartbeats : ℕ
  pub last_seen : Option ℕ
  pub agent_uptime_seconds : Option ℕ
  pub clock_status : Option String
  pub queue : Option Document
  pub board : Option Document
  pub sources : Option Document
  pub accepted : ℕ
  pub refused : ℕ
  pub reasons : Dict ℕ
  pub waited_ms : Option ℕ
  pub worst_waited_ms : Option ℕ
  pub worst_waited_at : Option ℕ
  pub behind : Bool

-- What a heartbeat says; `none` in one of the last three is a part that is missing or no object.
pub record Heartbeat {ℓ} (Document : Type ℓ) : Type ℓ where
  pub agent_uptime_seconds : Option ℕ
  pub clock_status : Option String
  pub queue : Option Document
  pub board : Option Document
  pub sources : Option Document

-- A line of the log.
pub data Log : Type 0 where
  falling_behind caught_up : ℕ → Log

abbrev pub Board {ℓ} : Type ℓ → Type ℓ
Board Document = Dict (NodeHealth Document)

abbrev or_kept {ℓ} : {A : Type ℓ} → Option A → Option A → Option A
or_kept none old = old
or_kept (some a) old = some a

-- `worst_waited_at is None or now - worst_waited_at > WORST_FOR_SECONDS`
abbrev pub is_stale : Option ℕ → ℕ → Bool
is_stale none now = true
is_stale (some at) now = ltb (at + worst_for_seconds) now

abbrev pub is_worse : Option ℕ → ℕ → Bool
is_worse none waited_ms = true
is_worse (some worst) waited_ms = leb worst waited_ms

abbrev count_or_0 : Option ℕ → ℕ
count_or_0 none = 0
count_or_0 (some n) = n

-- `reasons[reason] = reasons.get(reason, 0) + 1`
unfoldable pub counted : Dict ℕ → String → Dict ℕ
counted reasons reason = insert reason (suc (count_or_0 (lookup reason reasons))) reasons

module _ {ℓ} {Document : Type ℓ} where
  abbrev pub unheard : String → NodeHealth Document
  unheard node_id = record {
    node_id = node_id;
    heartbeats = 0;
    last_seen = none;
    agent_uptime_seconds = none;
    clock_status = none;
    queue = none;
    board = none;
    sources = none;
    accepted = 0;
    refused = 0;
    reasons = [];
    waited_ms = none;
    worst_waited_ms = none;
    worst_waited_at = none;
    behind = false;
  }

  abbrev pub entry_or : String → Option (NodeHealth Document) → NodeHealth Document
  entry_or node_id none = unheard node_id
  entry_or node_id (some entry) = entry

  -- The entry of a node, a new one if there is none; every caller writes it back.
  unfoldable pub entry : Board Document → String → NodeHealth Document
  entry b node_id = entry_or node_id (lookup node_id b)

  unfoldable pub heartbeat : Board Document → String → Heartbeat Document → ℕ → Board Document
  heartbeat b node_id document now =
      let e = entry b node_id in
      insert node_id
        (record e {
          heartbeats = suc e.heartbeats;
          last_seen = some now;
          agent_uptime_seconds = or_kept document.agent_uptime_seconds e.agent_uptime_seconds;
          clock_status = or_kept document.clock_status e.clock_status;
          queue = or_kept document.queue e.queue;
          board = or_kept document.board e.board;
          sources = or_kept document.sources e.sources;
        })
        b

  unfoldable pub delayed : NodeHealth Document → ℕ → ℕ → NodeHealth Document × List Log
  delayed e waited_ms now =
      let replaced = is_stale e.worst_waited_at now || is_worse e.worst_waited_ms waited_ms in
      let behind = ltb behind_ms waited_ms in
      (
        record e {
          waited_ms = some waited_ms;
          worst_waited_ms = if replaced then some waited_ms else e.worst_waited_ms;
          worst_waited_at = if replaced then some now else e.worst_waited_at;
          behind = behind;
        },
        if behind && not e.behind
            then falling_behind waited_ms ∷ []
            else if e.behind && not behind
            then caught_up waited_ms ∷ []
            else [],
      )

  -- How long the node held the reading that has just arrived.
  unfoldable pub waited : Board Document → String → Option ℕ → ℕ → Board Document × List Log
  waited b node_id none now = (b, [])
  waited b node_id (some waited_ms) now =
      let (e, log) = delayed (entry b node_id) waited_ms now in (insert node_id e b, log)

  unfoldable pub accepted : Board Document → String → Board Document
  accepted b node_id =
      let e = entry b node_id in insert node_id (record e { accepted = suc e.accepted }) b

  unfoldable pub refused : Board Document → String → String → Board Document
  refused b node_id reason =
      let e = entry b node_id in
      insert node_id (record e { refused = suc e.refused; reasons = counted e.reasons reason }) b

  unfoldable pub forget : Board Document → String → Board Document
  forget b node_id = erase node_id b
