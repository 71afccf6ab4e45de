-- ===== src/Correlation/Traces.antt =====
-- A sequence rule of sentry/correlation.py over any interleaving of sensor events, camera samples
-- and dropped sources.
use sentry_mode.Prelude.{
  ℕ, ◌+◌, ◌≤◌, ◌<◌, String, ◌≡◌, refl, Bool, true, false, ◌||◌, Option, List, [], ◌∷◌, arith, any,
  All,
}
use sentry_mode.Source.{Quality}
use sentry_mode.Rule.{SequenceTrigger}
use sentry_mode.Trigger.{Observed, RuleState}
use sentry_mode.Correlation.{Outcome, is_triggered, drop, expire, sequence_event, sequence_sample}

-- What reaches a rule: an event with the camera's zone, a sample with its count, time and cooldown,
-- or the loss of a source.
pub data Input : Type 0 where
  event : Observed → Option String → Input
  sample : ℕ → ℕ → ℕ → Input
  lost : String → Quality → Input

unfoldable pub step : SequenceTrigger → RuleState → Input → Outcome
step t s (event e z) = sequence_event t s e z
step t s (sample count captured cooldown) = sequence_sample t s count captured cooldown
step t s (lost source quality) = drop s source quality

-- Whether the rule fires over inputs yet to come, oldest first.
unfoldable pub fires_in : SequenceTrigger → RuleState → List Input → Bool
fires_in t s [] = false
fires_in t s (i ∷ is) = any is_triggered (step t s i).1 || fires_in t (step t s i).0 is

abbrev is_sample : Input → ℕ
is_sample (sample count captured cooldown) = 1
is_sample _ = 0

abbrev pub samples : List Input → ℕ
samples [] = 0
samples (i ∷ is) = is_sample i + samples is

-- One input adds at most one hit, and only a sample does; a firing needs the last of them.
step_hits :
    (t : SequenceTrigger) (s : RuleState) (i : Input)
    → ((step t s i).0.hits ≤ s.hits + is_sample i)
      × (any is_triggered (step t s i).1 ≡ true
          → t.vision.consecutive_detections ≤ s.hits + is_sample i)
unfolding step sequence_event sequence_sample expire drop
step_hits t s (event e z) = ground arith
step_hits t s (sample count captured cooldown) = ground arith
step_hits t s (lost source quality) = ground arith

-- As long as the hits that a rule has and the camera samples that it is given are together fewer
-- than it asks for in a row, it does not fire, however the samples are mixed with events and losses
-- of sources.
pub fires_after_enough :
    (t : SequenceTrigger) (s : RuleState) (is : List Input)
    → s.hits + samples is < t.vision.consecutive_detections
    → fires_in t s is ≡ false
unfolding fires_in
fires_after_enough t s [] few = refl
fires_after_enough t s (i ∷ is) few =
    let (grown, fired) = step_hits t s i in ground (arith, fires_after_enough t (step t s i).0 is)

-- Each camera sample shows the object.
abbrev pub Seen : SequenceTrigger → Input → Type 0
Seen t (sample count captured cooldown) = t.vision.min_count ≤ count
Seen t _ = Unit {0}

latched_stays :
    (t : SequenceTrigger) (s : RuleState) (i : Input)
    → s.latched ≡ true
    → Seen t i
    → ((step t s i).0.latched ≡ true) × (any is_triggered (step t s i).1 ≡ false)
unfolding step sequence_event sequence_sample expire drop
latched_stays t s (event e z) latched seen = ground arith
latched_stays t s (sample count captured cooldown) latched seen = ground arith
latched_stays t s (lost source quality) latched seen = ground arith

latched_silent :
    (t : SequenceTrigger) (s : RuleState) (is : List Input)
    → s.latched ≡ true
    → All (Seen t) is
    → fires_in t s is ≡ false
unfolding fires_in
latched_silent t s [] latched seen = refl
latched_silent t s (i ∷ is) latched seen =
    let (still, silent) = latched_stays t s i latched seen.0 in
    ground (arith, latched_silent t (step t s i).0 is still seen.1)

fired-latched :
    (t : SequenceTrigger) (s : RuleState) (i : Input)
    → any is_triggered (step t s i).1 ≡ true
    → (step t s i).0.latched ≡ true
unfolding step sequence_event sequence_sample expire drop
fired-latched t s (event e z) fired = ground arith
fired-latched t s (sample count captured cooldown) fired = ground arith
fired-latched t s (lost source quality) fired = ground arith

-- An input that makes a rule fire leaves the rule latched; and over the inputs that follow it does not
-- fire again, however many events and losses of sources are among them, if each camera sample among them
-- shows as many objects as the rule asks for.
pub silent_after_firing :
    (t : SequenceTrigger) (s : RuleState) (i : Input) (is : List Input)
    → any is_triggered (step t s i).1 ≡ true
    → All (Seen t) is
    → ((step t s i).0.latched ≡ true) × (fires_in t (step t s i).0 is ≡ false)
silent_after_firing t s i is fired seen =
    let latched = fired-latched t s i fired in
    (latched, latched_silent t (step t s i).0 is latched seen)
