-- ===== src/Trigger/Threshold/History.antt =====
-- A threshold rule over a whole history of events: how long a value was past the limit before the
-- rule fired, and how often it fires.
use sentry_mode.Prelude.{
  ℕ, suc, if◌then◌else◌, ◌+◌, ◌≤◌, ◌≡◌, refl, ◌⊎◌, inl, inr, Bool, true, false, Option, none, some,
  List, [], ◌∷◌, arith, leb, Option-cases, Bool-cases, All, leb→le, sym,
}
use mathlib.Core.Path.{subst, subst₂}
use sentry_mode.Prelude.Int.{ℤ}
use sentry_mode.Rule.{ThresholdTrigger}
use sentry_mode.Trigger.{
  Observed, Phase, unknown, clear, pending, active, RuleState, initial, is_for, reading, past,
  released, at_phase, on_reading, interrupted, waited, threshold_fires,
}
use sentry_mode.Trigger.Threshold.{Returns}

-- If the event is for this rule, it is a good reading of a value past the limit.
abbrev pub IsPast : ThresholdTrigger → Observed → Type 0
IsPast t e =
    is_for t.source_id t.kind e ≡ true → (x : ℤ) × (reading e ≡ some x) × (past t.limit x ≡ true)

-- Newest first: every event for the rule back to one received at `since` was past the limit.
abbrev pub PastSince : ThresholdTrigger → ℕ → List Observed → Type 0
PastSince t since [] = ⊥
PastSince t since (e ∷ h) = IsPast t e × ((e.received_monotonic ≡ since) ⊎ PastSince t since h)

-- The state after a history, newest event first; `none` is a failed assertion.
unfoldable pub state_after : ThresholdTrigger → List Observed → Option RuleState
state_after t [] = some initial
state_after t (e ∷ h) = elim (state_after t h) [
  | none ↦ none
  | some s ↦ elim (threshold_fires t s e) [ none ↦ none | some r ↦ some r.0 ]
]

-- A wait in progress is backed by the history.
abbrev Waits : ThresholdTrigger → List Observed → Phase → Option ℕ → Type 0
Waits t h pending (some since) = PastSince t since h
Waits t h pending none = ⊥
Waits t h _ since = Unit {0}

-- What a firing says of the history before it.
abbrev pub FiredAfter : ThresholdTrigger → List Observed → Observed → Type 0
FiredAfter t h e =
    (since : ℕ) × (since + t.for_seconds ≤ e.received_monotonic) × PastSince t since (e ∷ h)

abbrev Backed : ThresholdTrigger → List Observed → Observed → RuleState → Bool → Type 0
Backed t h e s fired = Waits t (e ∷ h) s.phase s.pending_since × (fired ≡ true → FiredAfter t h e)

module _ (t : ThresholdTrigger) (h : List Observed) (e : Observed) where
  waited-Backed :
      (s : RuleState) (since : Option ℕ)
      → s.phase ≡ pending
      → s.pending_since ≡ since
      → IsPast t e
      → Waits t h pending since
      → Returns (waited t s e.received_monotonic since) (Backed t h e)
  waited-Backed s none ph eq p w = absurd w
  waited-Backed s (some since) ph eq p w =
      elim (Bool-cases (leb (since + t.for_seconds) e.received_monotonic)) [
        | inl over ↦ rw over (tt, λ f. (since, leb→le _ _ over, (p, inr w)))
        | inr early ↦ rw early (subst₂ (Waits t (e ∷ h)) (sym ph) (sym eq) (p, inr w), λ f. cc)
      ]

  at_phase-Backed :
      (s : RuleState) (x : ℤ) (r : Bool) (phase : Phase)
      → s.phase ≡ phase
      → reading e ≡ some x
      → Waits t h phase s.pending_since
      → Returns (at_phase t s e.received_monotonic (past t.limit x) r phase) (Backed t h e)
  at_phase-Backed s x r unknown ph rd w = elim (Bool-cases (past t.limit x)) [
    | inl p ↦ rw p (tt, λ f. cc)
    | inr p ↦ rw p (tt, λ f. cc)
  ]
  at_phase-Backed s x r clear ph rd w = elim (Bool-cases (past t.limit x)) [
    | inl p ↦
        let now = e.received_monotonic in
        rw p (elim (Bool-cases (leb (now + t.for_seconds) now)) [
          | inl over ↦ rw over (tt, λ f. (now, leb→le _ _ over, (λ _. (x, rd, p), inl refl)))
          | inr early ↦ rw early ((λ _. (x, rd, p), inl refl), λ f. cc)
        ])
    | inr p ↦ rw p (tt, λ f. cc)
  ]
  at_phase-Backed s x r pending ph rd w = elim (Bool-cases (past t.limit x)) [
    | inl p ↦ rw p (waited-Backed s s.pending_since ph refl (λ _. (x, rd, p)) w)
    | inr p ↦ rw p (tt, λ f. cc)
  ]
  at_phase-Backed s x true active ph rd w = (tt, λ f. cc)
  at_phase-Backed s x false active ph rd w =
      (subst (λ p. Waits t (e ∷ h) p s.pending_since) (sym ph) tt, λ f. cc)

  -- An event for another rule leaves a wait as it is.
  unmoved-Waits :
      (phase : Phase) (since : Option ℕ)
      → is_for t.source_id t.kind e ≡ false
      → Waits t h phase since
      → Waits t (e ∷ h) phase since
  unmoved-Waits unknown since other w = tt
  unmoved-Waits clear since other w = tt
  unmoved-Waits active since other w = tt
  unmoved-Waits pending none other w = w
  unmoved-Waits pending (some since) other w = (λ meant. cc, inr w)

  interrupted-Backed :
      (s : RuleState) (phase : Phase) → s.phase ≡ phase → Backed t h e (interrupted s phase) false
  interrupted-Backed s unknown ph =
      (subst (λ p. Waits t (e ∷ h) p s.pending_since) (sym ph) tt, λ f. cc)
  interrupted-Backed s clear ph =
      (subst (λ p. Waits t (e ∷ h) p s.pending_since) (sym ph) tt, λ f. cc)
  interrupted-Backed s pending ph = (tt, λ f. cc)
  interrupted-Backed s active ph =
      (subst (λ p. Waits t (e ∷ h) p s.pending_since) (sym ph) tt, λ f. cc)

  step-Backed :
      (s : RuleState)
      → Waits t h s.phase s.pending_since
      → Returns (threshold_fires t s e) (Backed t h e)
  unfolding threshold_fires
  step-Backed s w = elim (Bool-cases (is_for t.source_id t.kind e)) [
    | inl meant ↦
        rw (meant, threshold_fires)
          (elim (Option-cases (reading e)) [
            | inl doubtful ↦ rw (doubtful, on_reading) (interrupted-Backed s s.phase refl)
            | inr (x, good) ↦ rw (good, on_reading) (at_phase-Backed s x _ s.phase refl good w)
          ])
    | inr other ↦
        rw (other, threshold_fires) (unmoved-Waits s.phase s.pending_since other w, λ f. cc)
  ]

-- After any history of events the assertions have held, and a wait in progress is backed by it.
state_after-Waits :
    (t : ThresholdTrigger) (h : List Observed)
    → (s : RuleState) × (state_after t h ≡ some s) × Waits t h s.phase s.pending_since
unfolding state_after
state_after-Waits t [] = (initial, refl, tt)
state_after-Waits t (e ∷ h) =
    let (s, eq, w) = state_after-Waits t h in
    rw (eq, state_after) (next s (threshold_fires t s e) refl (step-Backed t h e s w))
  where
    next :
        (s : RuleState) (r : Option (RuleState × Bool))
        → threshold_fires t s e ≡ r
        → Returns r (Backed t h e)
        → (s' : RuleState) × (elim (threshold_fires t s e) [ none ↦ none | some p ↦ some p.0 ]
            ≡ some s')
          × Waits t (e ∷ h) s'.phase s'.pending_since
    next s none eq b = absurd b
    next s (some (s', fired)) eq b = (s', rw eq refl, b.0)

-- However long the history, a threshold rule has a state: no assertion has failed.
pub state_after_total :
    (t : ThresholdTrigger) (h : List Observed) → (s : RuleState) × (state_after t h ≡ some s)
state_after_total t h = let (s, eq, w) = state_after-Waits t h in (s, eq)

-- If an event makes a threshold rule fire, then at some time at least `for_seconds` before it an
-- event was received since when every event for the rule, this one included, has been a good
-- reading of a value past the limit.
pub fires-FiredAfter :
    (t : ThresholdTrigger) (h : List Observed) (e : Observed) (s s' : RuleState)
    → state_after t h ≡ some s
    → threshold_fires t s e ≡ some (s', true)
    → FiredAfter t h e
fires-FiredAfter t h e s s' eq fires =
    let (s₀, eq₀, w) = state_after-Waits t h in
    let same : s₀ ≡ s = cc in
    let w' : Waits t h s.phase s.pending_since =
      subst (λ r. Waits t h r.phase r.pending_since) same w in
    (rw fires at (step-Backed t h e s w')).1 refl

fires-active :
    (t : ThresholdTrigger) (s s' : RuleState) (e : Observed)
    → threshold_fires t s e ≡ some (s', true)
    → s'.phase ≡ active
unfolding threshold_fires
fires-active t s s' e fires = ground arith

-- How often the rule fires over events yet to come, oldest first; `none` is a failed assertion.
unfoldable pub firings : ThresholdTrigger → RuleState → List Observed → Option ℕ
firings t s [] = some 0
firings t s (e ∷ es) = elim (threshold_fires t s e) [
  | none ↦ none
  | some (s', fired) ↦ elim (firings t s' es) [
    | none ↦ none
    | some n ↦ some (if fired then suc n else n)
  ]
]

-- No reading that is meant for the rule is back behind the limit by the hysteresis.
abbrev pub NotReleased : ThresholdTrigger → Observed → Type 0
NotReleased t e =
    (x : ℤ)
    → is_for t.source_id t.kind e ≡ true
    → reading e ≡ some x
    → released t.limit t.hysteresis x ≡ false

active_stays :
    (t : ThresholdTrigger) (s : RuleState) (e : Observed)
    → s.phase ≡ active
    → NotReleased t e
    → threshold_fires t s e ≡ some (s, false)
unfolding threshold_fires
active_stays t s e ph stays = elim (Bool-cases (is_for t.source_id t.kind e)) [
  | inl meant ↦
      rw (meant, threshold_fires)
        (elim (Option-cases (reading e)) [
          | inl doubtful ↦ rw (doubtful, on_reading) (ground arith)
          | inr (x, good) ↦ rw (good, on_reading, ph, at_phase) (ground (arith, stays x meant good))
        ])
  | inr other ↦ rw (other, threshold_fires) refl
]

active_silent :
    (t : ThresholdTrigger) (s : RuleState) (es : List Observed)
    → s.phase ≡ active
    → All (NotReleased t) es
    → firings t s es ≡ some 0
unfolding firings
active_silent t s [] ph stays = refl
active_silent t s (e ∷ es) ph stays =
    rw (active_stays t s e ph stays.0, firings) (rw (active_silent t s es ph stays.1, firings) refl)

-- Once fired, a rule does not fire again, whatever comes and however often the value crosses the
-- limit, until a good reading is back behind the limit by the hysteresis.
pub fired_then_silent :
    (t : ThresholdTrigger) (s s' : RuleState) (e : Observed) (es : List Observed)
    → threshold_fires t s e ≡ some (s', true)
    → All (NotReleased t) es
    → firings t s' es ≡ some 0
fired_then_silent t s s' e es fires stays =
    active_silent t s' es (fires-active t s s' e fires) stays
