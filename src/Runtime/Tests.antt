-- ===== src/Runtime/Tests.antt =====
-- The theorems of Runtime at a task that fails three times.
use enigma_p2p.Base.{ℕ, suc, ◌+◌, ◌<◌, ◌≡◌, refl, ◌⊎◌, true, false, none, some, leb}
use enigma_p2p.Runtime.Retry.{Course, new_stoppable, start}
use enigma_p2p.Runtime.RetryBound.{start_bounded}

abbrev fourth_time : Course
fourth_time = record { succeeds = leb 3; stopped = λ k. false }

start_bounded_example :
    (m : ℕ) × (m < 3 + 3)
    × (start (3 + 3) fourth_time (new_stoppable (some 4))
        ≡ some (record { success = fourth_time.succeeds m; executions = suc m }))
    × ((j : ℕ) → j < m → (fourth_time.succeeds j ≡ false) × (fourth_time.stopped j ≡ false))
    × ((fourth_time.succeeds m ≡ true) ⊎ (fourth_time.stopped m ≡ true) ⊎ (m ≡ 3 + 2))
start_bounded_example = start_bounded 3 fourth_time

-- A `maxRetry` of 2 allows four executions, and one of 0 sets no bound.
abbrev always_fails : Course
always_fails = record { succeeds = λ k. false; stopped = λ k. false }

four_executions :
    start 9 always_fails (new_stoppable (some 2))
    ≡ some (record { success = false; executions = 4 })
unfolding start new_stoppable
four_executions = refl

no_bound : start 9 always_fails (new_stoppable (some 0)) ≡ none
unfolding start new_stoppable
no_bound = refl
