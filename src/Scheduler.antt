-- ===== src/Scheduler.antt =====
-- src/sentry_mode/vision/scheduler.py: one model, shared by every camera, and a fair share of it for each.
-- A moment is in ticks of the monotonic clock. Rates and factors are natural numbers in a fixed unit. Of
-- a worker thread there is its number and its `stop` event: a thread ends only after that is set, and a
-- new one has a new event. `self.inference_ms`, `served` and `inferences` are figures for the page.
pub mod Turns
pub mod Served
pub mod Order
pub mod Shares
use text.Mathlib.Text.{is_lt}
use Prim.Native.String.{compare}
use sentry_mode.Prelude.{
  ℕ, suc, ◌+◌, ◌*◌, ◌/◌, String, Bool, true, false, not, ◌&&◌, ◌||◌, Option, none, some, List, [],
  ◌∷◌, ◌++◌, map, any, keep, length, ltb, leb, min, max, ◌==◌, ◌!=◌, string_eq, nat_eq, is_some,
  is_none, if◌then◌else◌,
}
use sentry_mode.Prelude.Dict.{Dict, lookup, insert, erase}

-- `period` is 1 / rate and `budget_period` 1 / budget_fps, in ticks; `scaled` is the product of a rate
-- and a factor, of which `one` is 1.0.
pub record Settings : Type 0 where
  pub period : ℕ → ℕ
  pub budget_period : ℕ
  pub scaled : ℕ → ℕ → ℕ
  pub one : ℕ
  pub max_rate : ℕ
  pub max_boost : ℕ
  pub confidence : ℕ
  pub is_process : Bool

pub record FramePacket : Type 0 where
  pub source_id : String
  pub epoch : ℕ
  pub sequence : ℕ
  pub captured : ℕ

pub record Demand : Type 0 where
  pub fps : ℕ
  pub confidence : ℕ
  pub epoch : ℕ

-- none in `last_sequence` is (-1, -1).
pub record Source : Type 0 where
  pub demands : Dict Demand
  pub pending : Option FramePacket
  pub last_sequence : Option (ℕ × ℕ)
  pub next_due : ℕ
  pub boost_until : ℕ
  pub boost_factor : ℕ
  pub skipped : ℕ

abbrev pub new_source : ℕ → Source
new_source one = record {
  demands = [];
  pending = none;
  last_sequence = none;
  next_due = 0;
  boost_until = 0;
  boost_factor = one;
  skipped = 0;
}

abbrev pub is_empty {ℓ} : {A : Type ℓ} → List A → Bool
is_empty [] = true
is_empty (x ∷ xs) = false

abbrev fastest : Dict Demand → ℕ
fastest [] = 0
fastest ((owner, d) ∷ rest) = max d.fps (fastest rest)

-- `_Source.rate`; 0.0 without a demand.
unfoldable pub rate : Settings → Source → ℕ → ℕ
rate c s now =
    let top = fastest s.demands in
    let boosted = if ltb now s.boost_until then c.scaled top s.boost_factor else top in
    if is_empty s.demands then 0 else min boosted c.max_rate

pub record Scheduler : Type 0 where
  pub sources : Dict Source
  pub loaded : Bool
  pub loads : ℕ
  pub worker : ℕ
  pub stopped : Bool
  pub next_slot : ℕ
  pub error : Option String

abbrev pub new_scheduler : Scheduler
new_scheduler = record {
  sources = [];
  loaded = false;
  loads = 0;
  worker = 0;
  stopped = true;
  next_slot = 0;
  error = none;
}

-- What a worker has taken, and the confidence that it asks the model for.
pub record Turn : Type 0 where
  pub worker : ℕ
  pub source_id : String
  pub packet : FramePacket
  pub confidence : ℕ

abbrev pub idle : Source → Source
idle s = record s { demands = []; pending = none }

abbrev pub all_idle : Dict Source → Dict Source
all_idle sources = map (λ (i, s). (i, idle s)) sources

abbrev pub source_or_new : ℕ → Option Source → Source
source_or_new one none = new_source one
source_or_new one (some s) = s

-- `load`; `built` says whether the model could be made, and without it the error is raised.
unfoldable pub load : Scheduler → Bool → Scheduler × Bool
load s built =
    if s.loaded
    then (s, true)
    else if built
    then (record s { loaded = true; loads = suc s.loads; error = none }, true)
    else (s, false)

-- `_start`
abbrev started : Scheduler → Scheduler
started s = if s.stopped then record s { worker = suc s.worker; stopped = false } else s

abbrev demanded : Settings → Scheduler → String → String → Demand → Scheduler
demanded c s source_id owner d =
    let source = source_or_new c.one (lookup source_id s.sources) in
    started (record s {
      sources =
          insert source_id (record source { demands = insert owner d source.demands }) s.sources;
    })

-- The source locks for `load` and again for the demand; the two are one step here.
unfoldable pub demand : Settings → Scheduler → String → String → Demand → Bool → Scheduler × Bool
demand c s source_id owner d built =
    let (s', ready) = load s built in
    if ready then (demanded c s' source_id owner d, true) else (s', false)

abbrev has_demand : String × Source → Bool
has_demand (i, s) = not (is_empty s.demands)

abbrev without : String → Source → Source
without owner source =
    let left = erase owner source.demands in
    record source { demands = left; pending = if is_empty left then none else source.pending }

abbrev withdrawn : Scheduler → String → String → Source → Scheduler
withdrawn s source_id owner source =
    let sources = insert source_id (without owner source) s.sources in
    record s { sources = sources; stopped = s.stopped || not (any has_demand sources) }

unfoldable pub release : Scheduler → String → String → Scheduler
release s source_id owner = elim (lookup source_id s.sources) [
  | none ↦ s
  | some source ↦ elim (lookup owner source.demands) [
    | none ↦ s
    | some d ↦ withdrawn s source_id owner source
  ]
]

unfoldable pub boost : Settings → Scheduler → String → ℕ → ℕ → ℕ → Scheduler
boost c s source_id factor ticks now = elim (lookup source_id s.sources) [
  | none ↦ s
  | some source ↦ if is_empty source.demands then s else record s {
    sources =
        insert source_id
          (record source {
            boost_factor = max c.one factor;
            boost_until = now + min ticks c.max_boost;
            next_due = min source.next_due now;
          })
          s.sources;
  }
]

-- `(epoch, sequence) <= last_sequence`
unfoldable pub is_served : FramePacket → Option (ℕ × ℕ) → Bool
is_served p none = false
is_served p (some (epoch, sequence)) =
    ltb p.epoch epoch || p.epoch == epoch && leb p.sequence sequence

abbrev is_of_epoch : ℕ → String × Demand → Bool
is_of_epoch epoch (owner, d) = d.epoch == epoch

-- The slot takes the frame, and one that was not served is skipped.
abbrev slotted : FramePacket → Source → Source
slotted p source = record source {
  skipped = if is_some source.pending then suc source.skipped else source.skipped;
  pending = some p;
}

unfoldable pub offer : Scheduler → FramePacket → Scheduler × Bool
offer s p = elim (lookup p.source_id s.sources) [
  | none ↦ (s, false)
  | some source ↦
      if is_empty source.demands
      then (s, false)
      else if not (any (is_of_epoch p.epoch) source.demands)
      then (s, false)
      else if is_served p source.last_sequence
      then (s, false)
      else (record s { sources = insert p.source_id (slotted p source) s.sources }, true)
]

abbrev has_pending : String × Source → Bool
has_pending (i, s) = is_some s.pending

unfoldable pub pending : Scheduler → ℕ
pending s = length (keep has_pending s.sources)

abbrev pub is_ready : Source → Bool
is_ready s = is_some s.pending && not (is_empty s.demands)

-- The order of the pairs of a due time and a name.
abbrev pub is_earlier : ℕ × String → ℕ × String → Bool
is_earlier (due, i) (due', j) = ltb due due' || due == due' && is_lt (compare i j)

abbrev better : String → Source → Option (String × Source) → Option (String × Source)
better i s none = some (i, s)
better i s (some (j, t)) =
    if is_earlier (t.next_due, j) (s.next_due, i) then some (j, t) else some (i, s)

-- `_pick`
unfoldable pub pick : Dict Source → Option (String × Source)
pick [] = none
pick ((i, s) ∷ rest) = let best = pick rest in if is_ready s then better i s best else best

-- `_wait_time(now) == 0.0`
unfoldable pub is_time : Scheduler → Source → ℕ → Bool
is_time s source now = leb source.next_due now && leb s.next_slot now

abbrev confidences : Dict Demand → List ℕ
confidences [] = []
confidences ((owner, d) ∷ rest) = d.confidence ∷ confidences rest

abbrev all_confidences : Dict Source → List ℕ
all_confidences [] = []
all_confidences ((i, s) ∷ rest) = confidences s.demands ++ all_confidences rest

abbrev least : ℕ → List ℕ → ℕ
least default [] = default
least default (x ∷ []) = x
least default (x ∷ xs) = min x (least default xs)

abbrev served : Settings → ℕ → FramePacket → Source → Source
served c now p source = record source {
  pending = none;
  last_sequence = some (p.epoch, p.sequence);
  next_due = now + c.period (rate c source now);
}

abbrev taken : Settings → Scheduler → ℕ → String → Source → FramePacket → Scheduler × Option Turn
taken c s now source_id source p = (
  record s {
    sources = insert source_id (served c now p source) s.sources;
    next_slot = now + c.budget_period;
  },
  some (record {
    worker = s.worker;
    source_id = source_id;
    packet = p;
    confidence = least c.confidence (all_confidences s.sources);
  }),
)

abbrev pub take_held :
    Settings → Scheduler → ℕ → String → Source → Option FramePacket → Scheduler × Option Turn
take_held c s now source_id source none = (s, none)
take_held c s now source_id source (some p) =
    if is_time s source now then taken c s now source_id source p else (s, none)

abbrev pub take_picked :
    Settings → Scheduler → ℕ → Option (String × Source) → Scheduler × Option Turn
take_picked c s now none = (s, none)
take_picked c s now (some (source_id, source)) = take_held c s now source_id source source.pending

-- A turn of the worker's loop: it takes a frame where it is not stopped and its time has come.
unfoldable pub take : Settings → Scheduler → ℕ → Scheduler × Option Turn
take c s now = if s.stopped then (s, none) else take_picked c s now (pick s.sources)

-- `stop.is_set()` of the worker that took the turn.
abbrev pub is_stopped : Scheduler → Turn → Bool
is_stopped s turn = s.stopped || turn.worker != s.worker

abbrev owners_of : ℕ → Dict Demand → List String
owners_of epoch demands = map (λ (owner, d). owner) (keep (is_of_epoch epoch) demands)

-- Who gets the result of a turn: the owners whose demand is of the frame's epoch.
unfoldable pub finish : Scheduler → Turn → List String
finish s turn = if is_stopped s turn then [] else elim (lookup turn.source_id s.sources) [
  | none ↦ []
  | some source ↦ owners_of turn.packet.epoch source.demands
]

-- `_failed`
unfoldable pub failed : Settings → Scheduler → Turn → String → Scheduler
failed c s turn message = if is_stopped s turn then s else record s {
  stopped = true;
  error = some message;
  loaded = s.loaded && not c.is_process;
  sources = all_idle s.sources;
}

unfoldable pub close : Scheduler → Scheduler
close s = record s { stopped = true; loaded = false; sources = all_idle s.sources }
