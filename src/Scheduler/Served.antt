-- ===== src/Scheduler/Served.antt =====
-- Frames that the scheduler serves: in which order, how far apart, and whose.
use sentry_mode.Prelude.{
  ℕ, ◌+◌, ◌≤◌, String, ◌≡◌, ◌⊎◌, refl, ap, inl, inr, Bool, true, false, not, ◌&&◌, Option, none,
  some, any, min, max, string_eq, nat_eq, arith, if◌then◌else◌, Bool-cases, Option-cases,
}
use sentry_mode.Prelude.Dict.{Dict, lookup, insert}
use sentry_mode.Scheduler.{
  Settings, FramePacket, Demand, Source, Scheduler, Turn, source_or_new, all_idle, load, demand,
  release, boost, is_served, offer, slotted, pick, is_time, served, taken, take, is_stopped, failed,
  close, is_empty, without, demanded, started, is_of_epoch, take_held, take_picked,
}
use sentry_mode.Scheduler.Turns.{Op, step, IsDict, pick-lookup}

-- What a call does to one source: its slot is kept or emptied, takes a frame, or is served.
pub data Local (i : String) (s s' : Source) : Type 0 where
  keeps :
      s'.last_sequence ≡ s.last_sequence
      → (s'.pending ≡ s.pending) ⊎ (s'.pending ≡ none)
      → Local i s s'
  slots :
      (p : FramePacket)
      → s'.last_sequence ≡ s.last_sequence
      → s'.pending ≡ some p
      → is_served p s.last_sequence ≡ false
      → p.source_id ≡ i
      → Local i s s'
  serves :
      (p : FramePacket)
      → s.pending ≡ some p
      → s'.pending ≡ none
      → s'.last_sequence ≡ some (p.epoch, p.sequence)
      → Local i s s'

pub data Effect (one : ℕ) (d d' : Dict Source) : Type 0 where
  untouched : d' ≡ d → Effect one d d'
  cleared : d' ≡ all_idle d → Effect one d d'
  updates :
      (i : String) (s' : Source)
      → Local i (source_or_new one (lookup i d)) s'
      → d' ≡ insert i s' d
      → Effect one d d'

pub load-sources : (s : Scheduler) (built : Bool) → (load s built).0.sources ≡ s.sources
unfolding load
load-sources s built = ground arith

started-sources : (s : Scheduler) → (started s).sources ≡ s.sources
started-sources s = ground arith

demanded-sources :
    (c : Settings) (s : Scheduler) (i owner : String) (d : Demand) (ds : Dict Source)
    → s.sources ≡ ds
    → (demanded c s i owner d).sources
      ≡ insert i
          (let source = source_or_new c.one (lookup i ds) in
            record source { demands = insert owner d source.demands })
          ds
demanded-sources c s i owner d ds e = rw (← e) (started-sources _)

demand-Effect :
    (c : Settings) (s : Scheduler) (i owner : String) (d : Demand) (built : Bool)
    → Effect c.one s.sources (demand c s i owner d built).0.sources
unfolding demand
demand-Effect c s i owner d built = elim (Bool-cases (load s built).1) [
  | inr lost ↦ untouched (rw (lost, demand) (load-sources s built))
  | inl ready ↦
      updates i
        (let source = source_or_new c.one (lookup i s.sources) in
          record source { demands = insert owner d source.demands })
        (keeps refl (inl refl))
        (rw (ready, demand)
          (demanded-sources c (load s built).0 i owner d s.sources (load-sources s built)))
]

release-Effect :
    (one : ℕ) (s : Scheduler) (i owner : String) → Effect one s.sources (release s i owner).sources
unfolding release
release-Effect one s i owner = elim (Option-cases (lookup i s.sources)) [
  | inl missing ↦ untouched (rw (missing, release) refl)
  | inr (source, there) ↦ elim (Option-cases (lookup owner source.demands)) [
    | inl no_owner ↦ untouched (rw (there, no_owner, release) refl)
    | inr (d, owned) ↦
        updates i (without owner source) (rw there (keeps refl (ground arith)))
          (rw (there, owned, release) refl)
  ]
]

boost-Effect :
    (c : Settings) (s : Scheduler) (i : String) (factor ticks now : ℕ)
    → Effect c.one s.sources (boost c s i factor ticks now).sources
unfolding boost
boost-Effect c s i factor ticks now = elim (Option-cases (lookup i s.sources)) [
  | inl missing ↦ untouched (rw (missing, boost) refl)
  | inr (source, there) ↦ elim (Bool-cases (is_empty source.demands)) [
    | inl unwanted ↦ untouched (rw (there, unwanted, boost) refl)
    | inr wanted ↦
        updates i
          (record source {
            boost_factor = max c.one factor;
            boost_until = now + min ticks c.max_boost;
            next_due = min source.next_due now;
          })
          (rw there (keeps refl (inl refl))) (rw (there, wanted, boost) refl)
  ]
]

offer-Effect :
    (one : ℕ) (s : Scheduler) (p : FramePacket) → Effect one s.sources (offer s p).0.sources
unfolding offer
offer-Effect one s p = elim (Option-cases (lookup p.source_id s.sources)) [
  | inl missing ↦ untouched (rw (missing, offer) refl)
  | inr (source, there) ↦ elim (Bool-cases (is_empty source.demands)) [
    | inl unwanted ↦ untouched (rw (there, unwanted, offer) refl)
    | inr wanted ↦ elim (Bool-cases (any (is_of_epoch p.epoch) source.demands)) [
      | inr stale ↦ untouched (rw (there, wanted, stale, offer) refl)
      | inl current ↦ elim (Bool-cases (is_served p source.last_sequence)) [
        | inl old ↦ untouched (rw (there, wanted, current, old, offer) refl)
        | inr new ↦
            updates p.source_id (slotted p source) (rw there (slots p refl refl new refl))
              (rw (there, wanted, current, new, offer) refl)
      ]
    ]
  ]
]

-- Whose frame a turn takes, and why it may.
pub record TakesFrame (s : Scheduler) (now : ℕ) (i : String) (source : Source) (p : FramePacket)
    : Type 0 where
  pub picked : pick s.sources ≡ some (i, source)
  pub held : source.pending ≡ some p
  pub due : source.next_due ≤ now
  pub slot : s.next_slot ≤ now

-- A turn changes nothing, or takes a frame.
abbrev pub Taking : Settings → Scheduler → ℕ → Scheduler × Option Turn → Type 0
Taking c s now r =
    (r ≡ (s, none))
    ⊎ ((i : String) × (source : Source) × (p : FramePacket) × (r ≡ taken c s now i source p)
        × TakesFrame s now i source p)

held-Taking :
    (c : Settings) (s : Scheduler) (now : ℕ) (i : String) (source : Source) (o : Option FramePacket)
    → pick s.sources ≡ some (i, source)
    → source.pending ≡ o
    → Taking c s now (take_held c s now i source o)
unfolding is_time
held-Taking c s now i source none picked held = inl refl
held-Taking c s now i source (some p) picked held = elim (Bool-cases (is_time s source now)) [
  | inr early ↦ inl (rw early refl)
  | inl right ↦ inr (
    i,
    source,
    p,
    rw right refl,
    record {
      picked = picked;
      held = held;
      due = ground (arith, right);
      slot = ground (arith, right);
    },
  )
]

picked-Taking :
    (c : Settings) (s : Scheduler) (now : ℕ) (o : Option (String × Source))
    → pick s.sources ≡ o
    → Taking c s now (take_picked c s now o)
picked-Taking c s now none picked = inl refl
picked-Taking c s now (some (i, source)) picked =
    held-Taking c s now i source source.pending picked refl

pub take-Taking : (c : Settings) (s : Scheduler) (now : ℕ) → Taking c s now (take c s now)
unfolding take
take-Taking c s now = unless_stopped s.stopped
  where
    unless_stopped :
        (over : Bool)
        → Taking c s now (if over then (s, none) else take_picked c s now (pick s.sources))
    unless_stopped true = inl refl
    unless_stopped false = picked-Taking c s now (pick s.sources) refl

failed-Effect :
    (c : Settings) (s : Scheduler) (turn : Turn) (message : String)
    → Effect c.one s.sources (failed c s turn message).sources
unfolding failed
failed-Effect c s turn message = if_stopped (is_stopped s turn)
  where
    if_stopped :
        (over : Bool)
        → Effect c.one s.sources
            (if over then s else record s {
              stopped = true;
              error = some message;
              loaded = s.loaded && not c.is_process;
              sources = all_idle s.sources;
            }).sources
    if_stopped true = untouched refl
    if_stopped false = cleared refl

take-Effect :
    (c : Settings) (s : Scheduler) (now : ℕ)
    → IsDict s.sources
    → Effect c.one s.sources (take c s now).0.sources
take-Effect c s now d = elim (take-Taking c s now) [
  | inl nothing ↦ untouched (ap (λ r. r.0.sources) nothing)
  | inr (i, source, p, done, t) ↦
      let (there, ready) = pick-lookup s.sources i source d t.picked in
      updates i (served c now p source) (rw there (serves p t.held refl refl))
        (ap (λ r. r.0.sources) done)
]

pub step-Effect :
    (c : Settings) (s : Scheduler) (o : Op)
    → IsDict s.sources
    → Effect c.one s.sources (step c s o).sources
unfolding step close
step-Effect c s (Op.loads built) d = untouched (load-sources s built)
step-Effect c s (Op.demands i owner x built) d = demand-Effect c s i owner x built
step-Effect c s (Op.releases i owner) d = release-Effect c.one s i owner
step-Effect c s (Op.boosts i factor ticks now) d = boost-Effect c s i factor ticks now
step-Effect c s (Op.offers p) d = offer-Effect c.one s p
step-Effect c s (Op.takes now) d = take-Effect c s now d
step-Effect c s (Op.fails turn message) d = failed-Effect c s turn message
step-Effect c s Op.closes d = cleared refl
