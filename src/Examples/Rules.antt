-- ===== src/Examples/Rules.antt =====
-- Rules of sentry/triggers.py and sentry/correlation.py on short histories.
use sentry_mode.Prelude.{
  ℕ, String, ◌≡◌, refl, ◌≢◌, ◌↔◌, true, false, none, some, List, [], ◌∷◌, arith, any,
}
use sentry_mode.Prelude.Int.{pos, ◌-ℤ◌, ◌+ℤ◌}
use sentry_mode.Source.{Quality, Quality-discrete}
use sentry_mode.Rule.{
  Edge, above, ThresholdTrigger, Presence, PresenceStateTrigger, TimeBasis, SequenceTrigger,
}
use sentry_mode.Trigger.{
  number, text, truth, Observed, Phase, RuleState, initial, Candidate, is_for, reading, past,
  released, threshold_fires, presence_fires, sensor_fires, cooled,
}
use sentry_mode.Trigger.Threshold.History.{
  FiredAfter, state_after, fires-FiredAfter, firings, fired_then_silent,
}
use sentry_mode.Trigger.Observers.{Some, combined_exact, status, presence_fires_exact}
use sentry_mode.Trigger.Observers
use sentry_mode.Correlation.{sequence_event, sequence_sample, expire, is_triggered}
use sentry_mode.Correlation.Window.{new_window-Opens, Opens}
use sentry_mode.Correlation.Confirmation.{Confirms, fires-Confirms}
use sentry_mode.Correlation.Traces.{Input, fires_in, fires_after_enough, silent_after_firing, step}

abbrev warm : ThresholdTrigger
warm = record {
  source_id = "zero.t";
  kind = "sensor.temperature";
  limit = above (pos 30);
  hysteresis = 2;
  for_seconds = 10;
}

abbrev reads : ℕ → ℕ → Observed
reads degrees at = record {
  ref_id = "zero.t";
  kind = "sensor.temperature";
  value = number (pos degrees);
  quality = Quality.valid;
  received_monotonic = at;
  zone = none;
  event_id = "e";
}

-- It was cool at 0, and warm at 5.
abbrev warming : List Observed
warming = reads 35 5 ∷ reads 20 0 ∷ []

abbrev waiting : RuleState
waiting = record initial { phase = Phase.pending; pending_since = some 5 }

abbrev fired : RuleState
fired = record initial { phase = Phase.active }

warming_waits : state_after warm warming ≡ some waiting
unfolding state_after threshold_fires is_for reading past released ◌-ℤ◌ ◌+ℤ◌ Quality-discrete
warming_waits = refl

warm_fires : threshold_fires warm waiting (reads 36 15) ≡ some (fired, true)
unfolding threshold_fires is_for reading past released ◌-ℤ◌ ◌+ℤ◌ Quality-discrete
warm_fires = refl

fires-FiredAfter_example : FiredAfter warm warming (reads 36 15)
fires-FiredAfter_example =
    fires-FiredAfter warm warming (reads 36 15) waiting fired warming_waits warm_fires

fired_then_silent_example : firings warm fired (reads 29 20 ∷ reads 40 25 ∷ []) ≡ some 0
unfolding released ◌-ℤ◌ reading is_for Quality-discrete
fired_then_silent_example =
    fired_then_silent warm waiting fired (reads 36 15) (reads 29 20 ∷ reads 40 25 ∷ []) warm_fires
      ((λ x meant good. ground (arith, good)), ((λ x meant good. ground (arith, good)), tt))

abbrev away : PresenceStateTrigger
away = record {
  source_id = "zero.phone";
  state = Presence.absent;
  kind = "presence.device";
  observers = "one.phone" ∷ [];
}

abbrev says : String → String → Observed
says source_id w = record {
  ref_id = source_id;
  kind = "presence.device";
  value = text w;
  quality = Quality.valid;
  received_monotonic = 1;
  zone = none;
  event_id = "e";
}

presence_fires_exact_example :
    ((presence_fires away
        (Observers.state_after away (says "zero.phone" "absent" ∷ []))
        (says "one.phone" "absent")).1
      ≡ true)
    ↔ ((status away (says "zero.phone" "absent" ∷ []) ≢ Presence.absent)
        × (status away (says "one.phone" "absent" ∷ says "zero.phone" "absent" ∷ [])
            ≡ Presence.absent))
presence_fires_exact_example =
    presence_fires_exact away (says "zero.phone" "absent" ∷ []) (says "one.phone" "absent")

abbrev gate : SequenceTrigger
gate = record {
  within_seconds = 30;
  time_basis = TimeBasis.hub_observation;
  same_zone = false;
  sensor = record { source_id = "zero.pir"; kind = "sensor.motion"; edge = Edge.rising };
  vision = record {
    source_id = "camera";
    object = "person";
    min_confidence = 70;
    min_count = 1;
    consecutive_detections = 2;
    rearm_after_absence_seconds = 5;
    region = none;
  };
}

abbrev motion : ℕ → Observed
motion at = record {
  ref_id = "zero.pir";
  kind = "sensor.motion";
  value = truth true;
  quality = Quality.valid;
  received_monotonic = at;
  zone = none;
  event_id = "m";
}

abbrev window : Candidate
window = record { opened = 10; deadline = 40; event_id = "m"; zone = none }

abbrev opened : RuleState
opened = record initial { candidate = some window; opened_until = some 10 }

-- A window is open and one sample has shown the object.
abbrev half : RuleState
half = record opened { hits = 1 }

half_fires : any is_triggered (sequence_sample gate half 1 20 60).1 ≡ true
unfolding sequence_sample expire cooled
half_fires = refl

fires-Confirms_example : (c : Candidate) × Confirms gate half 1 20 60 c
fires-Confirms_example = fires-Confirms gate half 1 20 60 half_fires

motion_opens : (sequence_event gate initial (motion 10) none).0.candidate ≡ some window
unfolding sequence_event expire sensor_fires is_for Quality-discrete
motion_opens = refl

new_window-Opens_example : Opens gate initial (motion 10) window
new_window-Opens_example =
    new_window-Opens gate initial (motion 10) none window motion_opens (λ h. ground (arith, h))

fires_after_enough_example :
    fires_in gate initial (Input.event (motion 10) none ∷ Input.sample 1 12 60 ∷ []) ≡ false
fires_after_enough_example =
    fires_after_enough gate initial (Input.event (motion 10) none ∷ Input.sample 1 12 60 ∷ [])
      (omega arith)

abbrev later : List Input
later = Input.event (motion 50) none ∷ Input.sample 2 52 60 ∷ []

half_fires_once : any is_triggered (step gate half (Input.sample 1 20 60)).1 ≡ true
unfolding step
half_fires_once = half_fires

silent_after_firing_example :
    ((step gate half (Input.sample 1 20 60)).0.latched ≡ true)
    × (fires_in gate (step gate half (Input.sample 1 20 60)).0 later ≡ false)
silent_after_firing_example =
    silent_after_firing gate half (Input.sample 1 20 60) later half_fires_once
      (tt, (omega arith, tt))
