-- ===== src/Correlation/Confirmation.antt =====
-- When a camera sample completes a sequence in sentry/correlation.py.
use sentry_mode.Prelude.{
  ℕ, ◌+◌, ◌≤◌, ◌<◌, ◌≡◌, true, false, none, some, arith, any, Option-cases, inl, inr,
}
use sentry_mode.Rule.{SequenceTrigger}
use sentry_mode.Trigger.{Candidate, RuleState, cooled}
use sentry_mode.Correlation.{is_triggered, expire, sequence_sample}

-- What a sample that fires found and left.
pub record Confirms (t : SequenceTrigger) (s : RuleState) (count captured cooldown : ℕ)
    (c : Candidate) : Type 0 where
  pub held : s.candidate ≡ some c
  pub after : c.opened < captured
  pub in_time : captured ≤ c.deadline
  pub seen : t.vision.min_count ≤ count
  pub enough : t.vision.consecutive_detections ≤ s.hits + 1
  pub unlatched : s.latched ≡ false
  pub rested : cooled s cooldown captured ≡ true
  pub used : (sequence_sample t s count captured cooldown).0.candidate ≡ none
  pub latched : (sequence_sample t s count captured cooldown).0.latched ≡ true
  pub stamped : (sequence_sample t s count captured cooldown).0.last_trigger ≡ some captured

-- A sample fires only to confirm an open window: captured after the window opened and not after its
-- deadline, with enough objects, enough samples in a row, no latch and the cooldown over. The
-- confirmation is used up and latches the rule.
pub fires-Confirms :
    (t : SequenceTrigger) (s : RuleState) (count captured cooldown : ℕ)
    → any is_triggered (sequence_sample t s count captured cooldown).1 ≡ true
    → (c : Candidate) × Confirms t s count captured cooldown c
unfolding sequence_sample expire cooled
fires-Confirms t s count captured cooldown fires = elim (Option-cases s.candidate) [
  | inl shut ↦ absurd (ground arith)
  | inr (c, held) ↦ (
    c,
    record {
      held = held;
      after = ground arith;
      in_time = ground arith;
      seen = ground arith;
      enough = ground arith;
      unlatched = ground arith;
      rested = ground arith;
      used = ground arith;
      latched = ground arith;
      stamped = ground arith;
    },
  )
]
