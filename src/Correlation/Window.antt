-- ===== src/Correlation/Window.antt =====
-- The window that a sensor event opens in sentry/correlation.py.
use sentry_mode.Prelude.{
  ◌+◌, ◌≤◌, String, ◌≡◌, ◌≢◌, true, false, Option, none, some, arith, decide_eq_iff,
}
use sentry_mode.Source.{Quality, Quality-discrete}
use sentry_mode.Rule.{SequenceTrigger}
use sentry_mode.Trigger.{Observed, Candidate, RuleState, is_for, sensor_fires}
use sentry_mode.Correlation.{expire, is_late, sequence_event}

-- A good event that is received while a window is open and not past its deadline leaves the rule's
-- state as it is, whatever it reports: the window is neither moved nor replaced.
pub open_window_stays :
    (t : SequenceTrigger) (s : RuleState) (e : Observed) (z : Option String) (c : Candidate)
    → s.candidate ≡ some c
    → e.received_monotonic ≤ c.deadline
    → e.quality ≡ Quality.valid
    → (sequence_event t s e z).0 ≡ s
unfolding sequence_event expire
open_window_stays t s e z c held early good =
    ground (arith, decide_eq_iff Quality-discrete e.quality Quality.valid)

-- What a call that opens a window found and left.
pub record Opens (t : SequenceTrigger) (s : RuleState) (e : Observed) (c : Candidate) : Type 0 where
  pub opened : c.opened ≡ e.received_monotonic
  pub deadline : c.deadline ≡ e.received_monotonic + t.within_seconds
  pub fires : sensor_fires t.sensor e ≡ true
  pub in_order : is_late e.received_monotonic s.opened_until ≡ false
  pub unlatched : s.latched ≡ false

-- A candidate that was not there before the event was opened by it, with the full window from its
-- receipt, by a sensor that fires, in order, and with the camera not latched.
pub new_window-Opens :
    (t : SequenceTrigger) (s : RuleState) (e : Observed) (z : Option String) (c : Candidate)
    → (sequence_event t s e z).0.candidate ≡ some c
    → s.candidate ≢ some c
    → Opens t s e c
unfolding sequence_event expire
new_window-Opens t s e z c there new = ground (arith, new)

-- A doubtful reading from the sensor leaves no window open.
pub doubtful_closes :
    (t : SequenceTrigger) (s : RuleState) (e : Observed) (z : Option String)
    → is_for t.sensor.source_id t.sensor.kind e ≡ true
    → e.quality ≢ Quality.valid
    → (sequence_event t s e z).0.candidate ≡ none
unfolding sequence_event expire
doubtful_closes t s e z meant doubtful =
    ground (arith, decide_eq_iff Quality-discrete e.quality Quality.valid)
