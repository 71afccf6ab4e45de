-- ===== src/Trigger/Threshold.antt =====
-- What a threshold rule of sentry/triggers.py does over time.
pub mod History
use sentry_mode.Prelude.{
  ℕ, ◌+◌, ◌≤◌, ◌≡◌, refl, ◌⊎◌, inl, inr, Bool, true, false, Option, none, some, List, [], ◌∷◌,
  arith, leb, ltb, if◌then◌else◌, Option-cases, Bool-cases, is_some, All,
}
use sentry_mode.Prelude.Int.{ℤ, pos, negsuc}
use sentry_mode.Source.{Quality}
use sentry_mode.Rule.{ThresholdTrigger, above, below}
use sentry_mode.Trigger.{
  Value, number, Observed, Phase, unknown, clear, pending, active, RuleState, initial, is_for,
  reading, past, released, at_phase, waited, interrupted, on_reading, threshold_fires,
}

-- A wait in progress has a start.
abbrev pub WaitsSince : Phase → Option ℕ → Type 0
WaitsSince pending since = is_some since ≡ true
WaitsSince _ since = Unit {0}

abbrev pub IsTimed : RuleState → Type 0
IsTimed s = WaitsSince s.phase s.pending_since

-- The phase after a call, and whether it fired: all that the other calls depend on.
abbrev pub Returns : Option (RuleState × Bool) → (RuleState → Bool → Type 0) → Type 0
Returns none P = ⊥
Returns (some (s, fired)) P = P s fired

at_phase-IsTimed :
    (t : ThresholdTrigger) (s : RuleState) (now : ℕ) (p r : Bool) (phase : Phase)
    → s.phase ≡ phase
    → IsTimed s
    → Returns (at_phase t s now p r phase) (λ s' _. IsTimed s')
at_phase-IsTimed t s now p r unknown e h = ground arith
at_phase-IsTimed t s now p r clear e h = ground arith
at_phase-IsTimed t s now p r pending e h = ground arith
at_phase-IsTimed t s now p r active e h = ground arith

interrupted-IsTimed :
    (s : RuleState) (phase : Phase) → s.phase ≡ phase → IsTimed s → IsTimed (interrupted s phase)
interrupted-IsTimed s unknown e h = h
interrupted-IsTimed s clear e h = h
interrupted-IsTimed s pending e h = tt
interrupted-IsTimed s active e h = h

-- From a state in which a wait has a start, no assertion fails, whatever the event, and in the
-- state that is returned a wait has a start again.
pub threshold_fires-IsTimed :
    (t : ThresholdTrigger) (s : RuleState) (e : Observed)
    → IsTimed s
    → Returns (threshold_fires t s e) (λ s' _. IsTimed s')
unfolding threshold_fires
threshold_fires-IsTimed t s e h = elim (Bool-cases (is_for t.source_id t.kind e)) [
  | inl meant ↦
      rw (meant, threshold_fires)
        (elim (Option-cases (reading e)) [
          | inl doubtful ↦ rw (doubtful, on_reading) (interrupted-IsTimed s s.phase refl h)
          | inr (x, good) ↦ rw (good, on_reading) (at_phase-IsTimed t s _ _ _ s.phase refl h)
        ])
  | inr other ↦ rw (other, threshold_fires) h
]
