-- ===== src/Examples/Reports.antt =====
-- The board of satellites/health.py told of two nodes.
use sentry_mode.Prelude.{ℕ, ◌≡◌, refl, String, some, List, [], ◌∷◌, arith}
use sentry_mode.Prelude.Dict.{lookup, insert}
use sentry_mode.Health.{Board, entry, falling_behind, caught_up, waited, delayed}
use sentry_mode.Health.Tally.{Op, run, IsTallied, run-IsTallied}
use sentry_mode.Health.Delays.{Wait, Says, reports_of, log_of, log_of-Says}

abbrev nobody : Board ℕ
nobody = []

nobody-IsTallied : IsTallied nobody
unfolding lookup
nobody-IsTallied = record { tally = λ k e there. absurd (ground (arith, there)) }

abbrev told : List (Op ℕ)
told =
    Op.refuses "zero" "expired"
    ∷ Op.accepts "one"
    ∷ Op.refuses "zero" "duplicate"
    ∷ Op.refuses "zero" "expired"
    ∷ []

run-IsTallied_example : IsTallied (run nobody told)
run-IsTallied_example = run-IsTallied nobody told nobody-IsTallied

abbrev wait : String → ℕ → ℕ → Wait
wait node_id waited_ms now = record { node_id = node_id; waited_ms = some waited_ms; now = now }

abbrev waits : List Wait
waits =
    wait "zero" 3 1
    ∷ wait "zero" 2500 2
    ∷ wait "one" 1 3
    ∷ wait "zero" 2600 4
    ∷ wait "zero" 5 5
    ∷ []

log_of-Says_example :
    Says (entry nobody "zero").behind (reports_of "zero" waits) (log_of "zero" nobody waits)
log_of-Says_example = log_of-Says "zero" nobody waits

-- The two lines of these waits.
zero_logged : log_of "zero" nobody waits ≡ falling_behind 2500 ∷ caught_up 5 ∷ []
unfolding log_of waited delayed entry lookup insert
zero_logged = refl
