-- ===== src/Examples/Cameras.antt =====
-- Cameras of vision/scheduler.py that share one model.
use sentry_mode.Prelude.{
  ℕ, ◌+◌, ◌*◌, ◌/◌, ◌≤◌, ◌≡◌, refl, true, false, none, some, List, [], ◌∷◌, arith,
}
use sentry_mode.Prelude.Dict.{lookup, insert}
use sentry_mode.Scheduler.{
  Settings, FramePacket, Source, Turn, load, demand, offer, is_served, pick, is_time, rate, take,
}
use sentry_mode.Scheduler.Turns.{Op, step, run, NoneBefore}
use sentry_mode.Scheduler.Shares.{Later, after_calls, served_in_order, turns_spaced, due_is_served}

abbrev settings : Settings
settings = record {
  period = λ r. 10;
  budget_period = 5;
  scaled = λ r f. r * f / 100;
  one = 100;
  max_rate = 10;
  max_boost = 300;
  confidence = 50;
  is_process = false;
}

abbrev frame : ℕ → FramePacket
frame n = record { source_id = "porch"; epoch = 1; sequence = n; captured = n }

abbrev before : List Op
before =
    Op.demands "porch" "rule" (record { fps = 2; confidence = 70; epoch = 1 }) true
    ∷ Op.offers (frame 1)
    ∷ []

abbrev between : List Op
between = Op.offers (frame 1) ∷ Op.offers (frame 2) ∷ []

abbrev turn : ℕ → Turn
turn n = record { worker = 1; source_id = "porch"; packet = frame n; confidence = 70 }

first_turn : (take settings (after_calls settings before) 0).1 ≡ some (turn 1)
unfolding take run step demand load offer is_served pick is_time rate lookup insert
first_turn = refl

second_turn :
    (take settings (run settings (take settings (after_calls settings before) 0).0 between) 10).1
    ≡ some (turn 2)
unfolding take run step demand load offer is_served pick is_time rate lookup insert
second_turn = refl

served_in_order_example : Later (frame 1) (frame 2)
served_in_order_example =
    served_in_order settings before between 0 10 (turn 1) (turn 2) first_turn second_turn refl

turns_spaced_example : 0 + 5 ≤ 10
turns_spaced_example =
    turns_spaced settings (after_calls settings before) between 0 10 (turn 1) (turn 2) first_turn
      second_turn

abbrev porch : Source
porch = record {
  demands = ("rule", record { fps = 2; confidence = 70; epoch = 1 }) ∷ [];
  pending = some (frame 1);
  last_sequence = none;
  next_due = 0;
  boost_until = 0;
  boost_factor = 100;
  skipped = 0;
}

runs : (after_calls settings before).stopped ≡ false
unfolding run step demand load offer is_served lookup insert
runs = refl

has_slot : (after_calls settings before).next_slot ≤ 3
unfolding run step demand load offer is_served lookup insert
has_slot = omega arith

porch_there : lookup "porch" (after_calls settings before).sources ≡ some porch
unfolding run step demand load offer is_served lookup insert
porch_there = refl

due_is_served_example :
    (t : Turn) × (chosen : Source) × ((take settings (after_calls settings before) 3).1 ≡ some t)
    × (lookup t.source_id (after_calls settings before).sources ≡ some chosen)
    × (chosen.pending ≡ some t.packet)
    × (chosen.next_due ≤ 0)
    × NoneBefore chosen.next_due (after_calls settings before).sources
due_is_served_example =
    due_is_served settings before 3 "porch" porch runs has_slot porch_there refl (omega arith)
