-- ===== src/Examples/Queue.antt =====
-- A small queue of satellite/src/sentry_satellite/spool.py.
use mathlib.Core.List.{Perm}
use sentry_mode.Prelude.{ℕ, ◌+◌, ◌≤◌, ◌≡◌, refl, false, List, [], ◌∷◌, ◌++◌, arith, length}
use sentry_mode.Spool.{Held, Limits, Spool, total, put}
use sentry_mode.Spool.Bounds.{IsCounted, put-IsCounted}
use sentry_mode.Spool.Ledger.{Op, run, given, handed, nothing_goes_missing, put_drops_oldest}

abbrev limits : Limits
limits = record { max_count = 2; max_bytes = 20; max_age_seconds = 100 }

abbrev message : ℕ → ℕ → Held ℕ
message item at = record { item = item; size = 8; queued_at = at; topic = "t"; initial = false }

abbrev two : Spool ℕ
two = record {
  items = message 1 0 ∷ message 2 5 ∷ [];
  nbytes = 16;
  drops = record { count = 0; bytes = 0; age = 0 };
}

two-IsCounted : IsCounted limits two
two-IsCounted = record { bytes = refl; count = omega arith }

abbrev calls : List (Op ℕ)
calls = Op.puts "t" 3 8 false 10 ∷ Op.takes 1 11 ∷ Op.requeues (message 2 5) ∷ []

nothing_goes_missing_example :
    IsCounted limits (run limits two calls)
    × ((gone : List (Held ℕ)) × Perm
          (handed limits two calls ++ (gone ++ (run limits two calls).items))
          (given calls ++ two.items)
        × (total (run limits two calls).drops ≡ length gone + total two.drops))
nothing_goes_missing_example = nothing_goes_missing limits two calls two-IsCounted

put-IsCounted_example :
    IsCounted limits (put limits two "t" 3 8 false 10)
    × ((put limits two "t" 3 8 false 10).nbytes ≤ 20)
put-IsCounted_example = put-IsCounted limits two "t" 3 8 false 10 two-IsCounted

put_drops_oldest_example :
    let s' = put limits two "t" 3 8 false 10 in
    (gone : List (Held ℕ)) × (gone ++ s'.items ≡ two.items ++ message 3 10 ∷ [])
    × (total s'.drops ≡ length gone + total two.drops)
put_drops_oldest_example = put_drops_oldest limits two "t" 3 8 false 10
