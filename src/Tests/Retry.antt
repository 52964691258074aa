-- ===== src/Tests/Retry.antt =====
-- The theorems on retry/retry.go at a function that fails once.
use proxydeck.Prelude.{◌≡◌, refl, ◌⊎◌, ◌+◌, ℕ, Option, none, some, List, [], ◌∷◌}
use proxydeck.Prelude.Int.{pos, ◌-ℤ◌, ◌≤ℤ◌}
use proxydeck.Errors.{no_healthy_node}
use proxydeck.Retry.{Failure, plain, Context, attempts, backoff, default_config, do_retry}
use proxydeck.Retry.Attempts.{do_retry_calls}
use proxydeck.Retry.Script.{play, unhurried, decide, pauses, do_retry-decide}

-- a function that always fails, with the count of its calls as the state
abbrev failing : ℕ → Option Failure × ℕ
failing n = (some (plain no_healthy_node), n + 1)

abbrev patient : Context ℕ
patient = record { poll = λ s. (none, s); wait = λ t s. (none, s) }

do_retry_calls_example :
    ((pos (do_retry patient default_config failing 0).1 -ℤ pos 0) ≤ℤ pos 3)
    ⊎ ((pos 3 ≤ℤ pos 0) × ((pos (do_retry patient default_config failing 0).1 -ℤ pos 0) ≤ℤ pos 1))
do_retry_calls_example =
    do_retry_calls patient failing (λ n. n)
      (record { poll_keeps = λ s. refl; wait_keeps = λ t s. refl; fn_adds = λ s. refl })
      default_config 0

abbrev answers : List (Option Failure)
answers = some (plain no_healthy_node) ∷ none ∷ []

do_retry-decide_example :
    let end = do_retry unhurried default_config play (record { answers = answers; waits = [] }) in
    (end.0 ≡ decide 3 none answers) × (end.1.waits ≡ pauses 3 (backoff default_config) 1 answers)
unfolding attempts
do_retry-decide_example = do_retry-decide default_config answers
