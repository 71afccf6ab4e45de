-- ===== src/Examples/Tables.antt =====
-- The journal, the budgets, the names and the table of sources at concrete inputs.
use sentry_mode.Prelude.{
  ℕ, ◌+◌, ◌*◌, ◌≤◌, ◌==◌, string_eq, eq_iff, Bool-cases, inl, inr, String, ◌≡◌, refl, ◌≢◌, true,
  none, some, List, [], ◌∷◌, arith, if◌then◌else◌,
}
use sentry_mode.Prelude.Dict.{lookup}
use sentry_mode.Source.{
  SourceKind, SourceState, Quality, ClockStatus, SourceRecord, Origin, is_valid_ref, matches_name,
  name_tail, ref_id, concat, parse,
}
use sentry_mode.Source.Names.{parse-ref_id}
use sentry_mode.Source.Registry.{Registry, IsFiled}
use sentry_mode.Trigger.{truth}
use sentry_mode.Journal.{
  Entry, Contents, contents, Store, Disk, works, fails, Admission, stored, duplicate, id_reused,
  Result, ok, unavailable, admit, find, live, receipt_of,
}
use sentry_mode.Journal
use sentry_mode.Journal.Once.{Op, run, step, stored_once}
use sentry_mode.Ingress.Limiter.{RateLimiter, Budget, fresh, allow, draw, bucket_of}
use sentry_mode.Ingress.Limiter.Rates.{passes, passes_of, total_rate, node_rate}

abbrev entry : ℕ → Entry
entry sequence = record {
  node_id = "zero";
  source_id = "pir";
  event_id = "e1";
  boot_id = "boot-a";
  sequence = sequence;
  kind = "sensor.motion";
  value = truth true;
  unit = none;
  quality = Quality.valid;
  clock_status = ClockStatus.synced;
  zone = none;
  occurred_at = 100;
  received_at = 101;
  received_monotonic = 5;
  queued_ms = 0;
  hub_epoch = 1;
  connection_id = none;
  classification = live;
  eligible = true;
  reason = none;
}

abbrev digest : Contents → String
digest c = c.kind

abbrev empty : Store
empty = record { is_open = true; receipts = []; journal = []; next_id = 1; marks = [] }

abbrev between : List (Disk × Op)
between = (fails, Op.refuses (entry 2)) ∷ (works, Op.forgets_events 500 10) ∷ []

first_stored : (admit digest empty works (entry 1) none).1 ≡ ok stored
unfolding admit find
first_stored = refl

again_duplicate :
    (admit digest
      (run digest (admit digest empty works (entry 1) none).0 between)
      works
      (entry 3)
      none).1
    ≡ ok duplicate
unfolding admit find run step Journal.record_refusal Journal.forget_events
again_duplicate = refl

stored_once_example :
    Admission.duplicate
    ≡ (if digest (contents (entry 1)) == digest (contents (entry 3)) then duplicate else id_reused)
stored_once_example =
    stored_once digest empty works (entry 1) none between works (entry 3) none duplicate
      first_stored (tt, (tt, tt)) refl refl again_duplicate

refused_store : (admit digest empty fails (entry 1) none).1 ≢ ok stored
unfolding admit
refused_store = λ h. ground (arith, h)

abbrev flood : List (String × ℕ)
flood = ("zero", 0) ∷ ("zero", 1) ∷ ("one", 1) ∷ ("zero", 40) ∷ []

total_rate_example : passes (fresh 60 1 3 0) flood * 60 + 3 * 0 ≤ 3 * 60 + 3 * 40
total_rate_example =
    total_rate 60 1 3 0 flood (omega arith, (omega arith, (omega arith, (omega arith, tt))))

node_rate_example : passes_of "zero" (fresh 60 1 3 0) flood * 60 + 1 * 0 ≤ 1 * 60 + 1 * 40
node_rate_example =
    node_rate 60 1 3 0 "zero" flood (omega arith, (omega arith, (omega arith, (omega arith, tt))))

-- One event of this board has passed at the start, and its budget is used up.
abbrev drained : RateLimiter
drained = record (fresh 60 1 3 0) { buckets = ("zero", record { level = 0; filled_at = 0 }) ∷ [] }

drained_stops : (allow drained "zero" 1).1 ≡ some Budget.node
unfolding allow draw bucket_of lookup
drained_stops = refl

abbrev pir : SourceRecord
pir = record {
  ref = record { node = some "zero"; name = "pir" };
  kind = SourceKind.sensor;
  zone = none;
  origin = Origin.satellite;
  state = SourceState.ready;
}

abbrev table : Registry
table = ("zero.pir", pir) ∷ []

table-IsFiled : IsFiled table
unfolding lookup ref_id concat
table-IsFiled = record {
  at_key = λ k r there.
      let found : (if string_eq.is_same "zero.pir" k then some pir else none) ≡ some r = there in
      elim (Bool-cases (string_eq.is_same "zero.pir" k)) [
        | inl here ↦
            let same : pir ≡ r = ground (arith, found, here) in
            rw (← same) ((eq_iff "zero.pir" k).0 here)
        | inr other ↦ absurd (ground (arith, found, other))
      ];
}

pir_valid : is_valid_ref pir.ref ≡ true
unfolding matches_name name_tail
pir_valid = refl

parse-ref_id_example : parse (ref_id pir.ref) ≡ some pir.ref
parse-ref_id_example = parse-ref_id pir.ref pir_valid

abbrev zero_board : String
zero_board = "zero"

abbrev one_board : String
one_board = "one"

boards_differ : zero_board ≢ one_board
boards_differ = λ e. let same = (eq_iff zero_board one_board).1 e in ground (arith, same)
