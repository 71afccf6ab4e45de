-- ===== src/Examples/Door.antt =====
-- A hub with one known sensor, and the events of one board, at the door of satellites/ingress.py.
use sentry_mode.Prelude.{
  ℕ, ◌<◌, String, ◌≡◌, refl, ◌↔◌, true, false, Option, none, some, List, [], ◌∷◌, arith, ◌==◌,
  nat_eq, if◌then◌else◌,
}
use sentry_mode.Prelude.Dict.{lookup, insert}
use sentry_mode.Source.{
  SourceKind, SourceState, Quality, ClockStatus, SourceRecord, Origin, make_ref, matches_name,
  name_tail, ref_id, concat,
}
use sentry_mode.Source.Registry
use sentry_mode.Trigger.{truth}
use sentry_mode.Journal.{
  fine, Mark, Contents, Store, Disk, works, source_key, find, admit, mark, write_mark,
}
use sentry_mode.Journal.Once.{Op, run, step}
use sentry_mode.Journal
use sentry_mode.Ingress.{
  EventEnvelope, Hub, Receipt, blank, classify, position, write, accept, clock_bad, refused,
}
use sentry_mode.Ingress.Live.{classify_exact, IsLive, accept-Eligible, Eligible}
use sentry_mode.Ingress.Settled.{accept-KeptBack, eligible_once}
use sentry_mode.Ingress.Marks.{MarksFiled}
use sentry_mode.Ingress.Marks.Trace.{Call, answer, after_calls, live_in_order}

abbrev envelope : String → ℕ → EventEnvelope
envelope event_id sequence = record {
  event = record {
    event_id = event_id;
    node_id = "zero";
    source_id = "pir-1";
    boot_id = "boot-a";
    sequence = sequence;
    kind = "sensor.motion";
    occurred_at = 100;
    clock_status = ClockStatus.synced;
    value = truth true;
    unit = none;
    quality = Quality.valid;
  };
  delivery = record {
    connection_id = "c1";
    hub_epoch = 1;
    queued_ms = 3;
    replayed = false;
    initial_state = false;
  };
}

-- Documents 1, 2 and 3 are valid messages, and no other is.
abbrev read : ℕ → Option EventEnvelope
read n =
    if n == 1
    then some (envelope "e1" 1)
    else if n == 2
    then some (envelope "e2" 2)
    else if n == 3
    then some (envelope "e3" 3)
    else none

abbrev digest : Contents → String
digest c = concat c.source_id c.kind

abbrev pir : SourceRecord
pir = record {
  ref = record { node = some "zero"; name = "pir-1" };
  kind = SourceKind.sensor;
  zone = some "hall";
  origin = Origin.satellite;
  state = SourceState.ready;
}

abbrev hub : Hub
hub = record {
  sources = ("zero.pir-1", pir) ∷ [];
  limits = record { accept_within_seconds = 10; future_tolerance_seconds = 2 };
  zone_of = λ _. none;
  digest = digest;
  now = 101;
  monotonic = 500;
  reading = works;
  writing = works;
}

abbrev empty : Store
empty = record { is_open = true; receipts = []; journal = []; next_id = 1; marks = [] }

abbrev nothing_given : Receipt
nothing_given = refused Journal.rejected Journal.Reason.store_unavailable false

abbrev given : Option Receipt → Receipt
given none = nothing_given
given (some r) = r

abbrev start : Mark
start = blank "zero" "pir-1" "boot-a"

classify_exact_example :
    ((classify hub.limits (envelope "e1" 1).event (envelope "e1" 1).delivery start false 101).1
      ≡ none)
    ↔ IsLive hub.limits (envelope "e1" 1).event (envelope "e1" 1).delivery start false 101
classify_exact_example =
    classify_exact hub.limits (envelope "e1" 1).event (envelope "e1" 1).delivery start false 101

abbrev called : ℕ → Call ℕ
called n = record { hub = hub; node_id = "zero"; document = n; retained = false }

abbrev first : Store × Option Receipt
first = accept read hub empty "zero" 1 false

first_passes : first ≡ (first.0, some (given first.1))
unfolding accept classify clock_bad position write admit find mark make_ref matches_name name_tail
    ref_id concat Registry.get lookup source_key
first_passes = refl

first_eligible : (given first.1).eligible ≡ true
unfolding accept classify clock_bad position write admit find mark make_ref matches_name name_tail
    ref_id concat Registry.get lookup source_key
first_eligible = refl

accept-Eligible_example :
    (v : EventEnvelope) × (read 1 ≡ some v)
    × Eligible hub empty "zero" v false first.0 (given first.1)
accept-Eligible_example =
    accept-Eligible read hub empty "zero" 1 false first.0 (given first.1) first_passes
      first_eligible

-- A hub whose disk takes no write.
abbrev full_disk : Hub
full_disk = record hub { writing = Disk.fails }

abbrev unwritten : Store × Option Receipt
unwritten = accept read full_disk empty "zero" 1 false

unwritten_answered : unwritten ≡ (unwritten.0, some (given unwritten.1))
unfolding accept classify clock_bad position write admit find mark make_ref matches_name name_tail
    ref_id concat Registry.get lookup source_key
unwritten_answered = refl

unwritten_kept : (given unwritten.1).settle ≡ false
unfolding accept classify clock_bad position write admit find mark make_ref matches_name name_tail
    ref_id concat Registry.get lookup source_key
unwritten_kept = refl

accept-KeptBack_example :
    (unwritten.0 ≡ empty)
    × ((given unwritten.1).eligible ≡ false)
    × ((given unwritten.1).stored ≡ false)
accept-KeptBack_example =
    accept-KeptBack read full_disk empty "zero" 1 false unwritten.0 (given unwritten.1)
      unwritten_answered unwritten_kept

-- Between the two copies of the message the visible history is cleared.
abbrev cleared : List (Disk × Op)
cleared = (works, Op.forgets_events 1000 1) ∷ []

abbrev second : Store × Option Receipt
second = accept read hub (run digest first.0 cleared) "zero" 1 false

second_answered : second ≡ (second.0, some (given second.1))
unfolding accept classify clock_bad position write admit find mark make_ref matches_name name_tail
    ref_id concat Registry.get lookup source_key run step Journal.forget_events insert write_mark
second_answered = refl

eligible_once_example : (given second.1).eligible ≡ false
eligible_once_example =
    eligible_once read hub hub empty "zero" 1 1 false false first.0 second.0 (given first.1)
      (given second.1) cleared (envelope "e1" 1) (envelope "e1" 1) refl refl refl refl (tt, tt)
      first_passes first_eligible second_answered

abbrev third : Store × Option Receipt
third = answer read (after_calls read first.0 (called 2 ∷ [])) (called 3)

third_passes : third ≡ (third.0, some (given third.1))
unfolding after_calls accept classify clock_bad position write admit find mark make_ref matches_name
    name_tail ref_id concat Registry.get lookup source_key insert write_mark
third_passes = refl

third_eligible : (given third.1).eligible ≡ true
unfolding after_calls accept classify clock_bad position write admit find mark make_ref matches_name
    name_tail ref_id concat Registry.get lookup source_key insert write_mark
third_eligible = refl

empty-MarksFiled : MarksFiled empty
unfolding lookup
empty-MarksFiled = record { at_key = λ k m h. absurd (ground arith) }

live_in_order_example : 1 < 3
live_in_order_example =
    live_in_order read empty first.0 third.0 (called 1) (called 3) (called 2 ∷ []) (envelope "e1" 1)
      (envelope "e3" 3) (given first.1) (given third.1) empty-MarksFiled refl refl refl refl refl
      ((λ v good key. ground (arith, good)), tt) first_passes first_eligible third_passes
      third_eligible
