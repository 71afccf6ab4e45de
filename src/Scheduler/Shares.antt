-- ===== src/Scheduler/Shares.antt =====
-- What each source gets of the model: its frames in order, spaced by the budget, in its turn.
use sentry_mode.Prelude.{
  ℕ, ◌+◌, ◌≤◌, ◌<◌, String, ◌≡◌, ◌≢◌, ◌⊎◌, refl, sym, ◌∙◌, ap, inl, inr, Bool, true, false, Option,
  none, some, List, [], ◌∷◌, ltb, ◌==◌, string_eq, nat_eq, arith, All, if◌then◌else◌, Bool-cases,
  Option-cases, eq_iff,
}
use sentry_mode.Prelude.Dict.{Dict, lookup, lookup-insert}
use sentry_mode.Scheduler.{
  Settings, FramePacket, Source, Scheduler, Turn, load, demand, release, boost, is_served, offer,
  pick, is_ready, is_time, served, taken, take, take_held, take_picked, failed, close,
  new_scheduler,
}
use sentry_mode.Scheduler.Turns.{Op, step, run, pick-lookup, pick-none, pick-NoneBefore, NoneBefore}
use sentry_mode.Scheduler.Served.{step-Effect, TakesFrame, take-Taking}
use sentry_mode.Scheduler.Order.{Tidy, Past, run-Tidy, run-Past, new-Tidy, Effect-Tidy}

-- A later frame: of a later epoch, or of the same one with a greater number.
abbrev pub Later : FramePacket → FramePacket → Type 0
Later p q = (p.epoch < q.epoch) ⊎ ((p.epoch ≡ q.epoch) × (p.sequence < q.sequence))

behind-Later :
    (p q : FramePacket) (last : Option (ℕ × ℕ))
    → is_served p last ≡ true
    → is_served q last ≡ false
    → Later p q
unfolding is_served
behind-Later p q none h h' = absurd (ground (arith, h))
behind-Later p q (some (epoch, sequence)) h h' = elim (Bool-cases (ltb p.epoch q.epoch)) [
  | inl less ↦ inl (ground (arith, less))
  | inr more ↦ inr (ground (arith, h, h', more), ground (arith, h, h', more))
]

-- What a turn has taken.
record Took (c : Settings) (s : Scheduler) (now : ℕ) (t : Turn) : Type 0 where
  source : Source
  takes : TakesFrame s now t.source_id source t.packet
  after : (take c s now).0 ≡ (taken c s now t.source_id source t.packet).0

take-Took :
    (c : Settings) (s : Scheduler) (now : ℕ) (t : Turn) → (take c s now).1 ≡ some t → Took c s now t
take-Took c s now t h = elim (take-Taking c s now) [
  | inl nothing ↦ absurd (let e = ap (λ r. r.1) nothing in ground (arith, h, e))
  | inr (i, source, p, done, why) ↦
      let e = sym (ap (λ r. r.1) done) ∙ h in
      let packet : p ≡ t.packet = ground (arith, e) in
      let name : i ≡ t.source_id = ground (arith, e) in
      rw (← packet, ← name) record { source = source; takes = why; after = ap (λ r. r.0) done }
]

-- The state of a scheduler after some calls.
abbrev pub after_calls : Settings → List Op → Scheduler
after_calls c os = run c new_scheduler os

after_calls-Tidy : (c : Settings) (os : List Op) → Tidy (after_calls c os).sources
after_calls-Tidy c os = run-Tidy c new_scheduler os new-Tidy

Took-Past :
    (c : Settings) (s : Scheduler) (now : ℕ) (t : Turn)
    → Tidy s.sources
    → Took c s now t
    → Past t.packet (take c s now).0.sources
unfolding is_served
Took-Past c s now t tidy k =
    let (there, ready) = pick-lookup s.sources t.source_id k.source tidy.dict k.takes.picked in
    let (new, own) = tidy.fresh t.source_id k.source t.packet there k.takes.held in
    rw (k.after) record {
      source = served c now t.packet k.source;
      there = ground (
        arith,
        lookup-insert t.source_id t.packet.source_id (served c now t.packet k.source) s.sources,
        own,
        eq_iff t.source_id t.packet.source_id,
      );
      behind = ground arith;
    }

step-Tidy : (c : Settings) (s : Scheduler) (o : Op) → Tidy s.sources → Tidy (step c s o).sources
step-Tidy c s o t = Effect-Tidy c.one s.sources _ (step-Effect c s o t.dict) t

-- After any calls: of two frames of one source that the workers take, the later taken is the later one,
-- by its epoch and its number; whatever is demanded, released, boosted, offered, taken, failed or closed
-- between the two. No frame is served twice.
pub served_in_order :
    (c : Settings) (before between : List Op) (now now' : ℕ) (t t' : Turn)
    → (take c (after_calls c before) now).1 ≡ some t
    → (take c (run c (take c (after_calls c before) now).0 between) now').1 ≡ some t'
    → t'.source_id ≡ t.source_id
    → Later t.packet t'.packet
unfolding step
served_in_order c before between now now' t t' first second same =
    let s = after_calls c before in
    let tidy = after_calls-Tidy c before in
    let k = take-Took c s now t first in
    let (was, _) = pick-lookup s.sources t.source_id k.source tidy.dict k.takes.picked in
    let (_, owner) = tidy.fresh t.source_id k.source t.packet was k.takes.held in
    let tidy₁ = step-Tidy c s (Op.takes now) tidy in
    let past = run-Past c t.packet (take c s now).0 between tidy₁ (Took-Past c s now t tidy k) in
    let tidy₂ = run-Tidy c (take c s now).0 between tidy₁ in
    let s₂ = run c (take c s now).0 between in
    let k' = take-Took c s₂ now' t' second in
    let (there, _) = pick-lookup s₂.sources t'.source_id k'.source tidy₂.dict k'.takes.picked in
    let (new, own) = tidy₂.fresh t'.source_id k'.source t'.packet there k'.takes.held in
    let found : lookup t.packet.source_id s₂.sources ≡ some k'.source = rw (owner, ← same) there in
    let one_source : past.source ≡ k'.source =
      (let held = past.there in ground (arith, held, found)) in
    behind-Later t.packet t'.packet k'.source.last_sequence (rw one_source at past.behind) new

take-next_slot : (c : Settings) (s : Scheduler) (now : ℕ) → s.next_slot ≤ (take c s now).0.next_slot
take-next_slot c s now = elim (take-Taking c s now) [
  | inl nothing ↦ (let same = ap (λ r. r.0.next_slot) nothing in omega (arith, same))
  | inr (i, source, p, done, why) ↦
      let le = why.slot in let same = ap (λ r. r.0.next_slot) done in omega (arith, le, same)
]

next_slot-le : (c : Settings) (s : Scheduler) (o : Op) → s.next_slot ≤ (step c s o).next_slot
unfolding step load demand release boost offer failed close
next_slot-le c s (Op.loads built) = ground arith
next_slot-le c s (Op.demands i owner d built) = ground arith
next_slot-le c s (Op.releases i owner) = ground arith
next_slot-le c s (Op.boosts i factor ticks now) = ground arith
next_slot-le c s (Op.offers p) = ground arith
next_slot-le c s (Op.takes now) = take-next_slot c s now
next_slot-le c s (Op.fails turn message) = ground arith
next_slot-le c s Op.closes = omega arith

run-next_slot : (c : Settings) (s : Scheduler) (os : List Op) → s.next_slot ≤ (run c s os).next_slot
unfolding run
run-next_slot c s [] = omega arith
run-next_slot c s (o ∷ os) =
    let first = next_slot-le c s o in
    let rest = run-next_slot c (step c s o) os in omega (arith, first, rest)

-- Two turns that take a frame, of whichever sources and by whichever workers, are at least the period of
-- the budget apart, whatever was called between them.
pub turns_spaced :
    (c : Settings) (s : Scheduler) (between : List Op) (now now' : ℕ) (t t' : Turn)
    → (take c s now).1 ≡ some t
    → (take c (run c (take c s now).0 between) now').1 ≡ some t'
    → now + c.budget_period ≤ now'
turns_spaced c s between now now' t t' first second =
    let k = take-Took c s now t first in
    let k' = take-Took c _ now' t' second in
    let slot : (take c s now).0.next_slot ≡ now + c.budget_period = ap (λ s. s.next_slot) k.after in
    let up = run-next_slot c (take c s now).0 between in
    let le = k'.takes.slot in omega (arith, slot, up, le)

NoneBefore-lookup :
    (due : ℕ) (d : Dict Source) (i : String) (s : Source)
    → NoneBefore due d
    → lookup i d ≡ some s
    → is_ready s ≡ true
    → due ≤ s.next_due
unfolding lookup
NoneBefore-lookup due [] i s h there ready = absurd (ground (arith, there))
NoneBefore-lookup due ((j, t) ∷ rest) i s h there ready = elim (Bool-cases (j == i)) [
  | inl here ↦ (let same : t ≡ s = ground (arith, there, here) in rw (← same) (h.0 (rw same ready)))
  | inr other ↦ NoneBefore-lookup due rest i s h.1 (rw other at there) ready
]

ready-pick :
    (d : Dict Source) (i : String) (s : Source)
    → lookup i d ≡ some s
    → is_ready s ≡ true
    → pick d ≢ none
unfolding lookup pick
ready-pick [] i s there ready e = absurd (ground (arith, there))
ready-pick ((j, t) ∷ rest) i s there ready e =
    let (idle_one, others) = pick-none ((j, t) ∷ rest) e in
    elim (Bool-cases (j == i)) [
      | inl here ↦
          (let same : t ≡ s = ground (arith, there, here) in
            ground (arith, rw same at idle_one, ready))
      | inr other ↦ ready-pick rest i s (rw other at there) ready (not_ready-pick rest others)
    ]
  where
    not_ready-pick : (d : Dict Source) → All (λ (j, t). is_ready t ≡ false) d → pick d ≡ none
    not_ready-pick [] h = refl
    not_ready-pick ((j, t) ∷ rest) h = rw (h.0, pick) (not_ready-pick rest h.1)

if-holds : {A : Type 0} (b : Bool) (x y : A) → b ≡ true → (if b then x else y) ≡ x
if-holds b x y h = rw h refl

if-fails : {A : Type 0} (b : Bool) (x y : A) → b ≡ false → (if b then x else y) ≡ y
if-fails b x y h = rw h refl

-- A turn that may take the frame of the source that is picked takes it.
taken-picked :
    (c : Settings) (s : Scheduler) (now : ℕ) (i : String) (source : Source) (p : FramePacket)
    → s.stopped ≡ false
    → TakesFrame s now i source p
    → take c s now ≡ taken c s now i source p
unfolding take is_time
taken-picked c s now i source p running why =
    let due = why.due in
    let slot = why.slot in
    if-fails s.stopped _ _ running
    ∙ (ap (take_picked c s now) why.picked
        ∙ (ap (take_held c s now i source) why.held
            ∙ if-holds (is_time s source now) _ _ (ground (arith, due, slot))))

-- After any calls: where the worker is not stopped, the budget has a turn free, and a source has a frame
-- and a demand and is due, a turn takes a frame: of a source that is due no later than that one, and than
-- any other that has a frame and a demand.
pub due_is_served :
    (c : Settings) (before : List Op) (now : ℕ) (i : String) (source : Source)
    → (after_calls c before).stopped ≡ false
    → (after_calls c before).next_slot ≤ now
    → lookup i (after_calls c before).sources ≡ some source
    → is_ready source ≡ true
    → source.next_due ≤ now
    → (t : Turn) × (chosen : Source) × ((take c (after_calls c before) now).1 ≡ some t)
      × (lookup t.source_id (after_calls c before).sources ≡ some chosen)
      × (chosen.pending ≡ some t.packet)
      × (chosen.next_due ≤ source.next_due)
      × NoneBefore chosen.next_due (after_calls c before).sources
due_is_served c before now i source running free there ready due =
    let s = after_calls c before in
    let tidy = after_calls-Tidy c before in
    elim (Option-cases (pick s.sources)) [
      | inl nobody ↦ absurd (ready-pick s.sources i source there ready nobody)
      | inr ((j, chosen), picked) ↦
          let least = pick-NoneBefore s.sources j chosen picked in
          let sooner = NoneBefore-lookup chosen.next_due s.sources i source least there ready in
          let (entry, its_turn) = pick-lookup s.sources j chosen tidy.dict picked in
          elim (Option-cases chosen.pending) [
            | inl empty ↦ absurd (ground (arith, empty, its_turn))
            | inr (p, held) ↦
                let why : TakesFrame s now j chosen p = record {
                  picked = picked;
                  held = held;
                  due = omega (arith, sooner, due);
                  slot = free;
                } in
                let done = taken-picked c s now j chosen p running why in
                (_, chosen, ap (λ r. r.1) done, entry, held, sooner, least)
          ]
    ]
