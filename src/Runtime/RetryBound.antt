-- ===== src/Runtime/RetryBound.antt =====
-- How often StoppableTask.js executes its task, and how it ends.
use enigma_p2p.Base.{
  ℕ, zero, suc, ◌+◌, ◌<◌, ◌≤◌, ◌≡◌, refl, ap, ◌∙◌, subst, inl, inr, ◌⊎◌, Bool, true, false, some,
  ◌==◌, arith, Bool-cases,
}
use enigma_p2p.Runtime.Retry.{
  StoppableTask, new_stoppable, should_stop, Course, execute_from, start,
}

-- The execution `k` is the last: the earlier ones have failed before the timer fired, and it succeeds,
-- or the timer has fired, or it is the one numbered `last`.
abbrev pub Ends : Course → (first k last : ℕ) → Type 0
Ends c first k last =
    ((j : ℕ) → first ≤ j → j < k → (c.succeeds j ≡ false) × (c.stopped j ≡ false))
    × ((c.succeeds k ≡ true) ⊎ (c.stopped k ≡ true) ⊎ (k ≡ last))

one_more :
    (c : Course) (first k last : ℕ)
    → c.succeeds first ≡ false
    → c.stopped first ≡ false
    → Ends c (suc first) k last
    → Ends c first k last
one_more c first k last failed live (before, end) = (all, end)
  where
    all : (j : ℕ) → first ≤ j → j < k → (c.succeeds j ≡ false) × (c.stopped j ≡ false)
    all j h l = elim (Bool-cases (j == first)) [
      | inl same ↦ let e : first ≡ j = ground (arith, same) in rw (← e) (failed, live)
      | inr other ↦ before j (ground (arith, h, other)) l
    ]

-- An execution that is the last.
ends_here :
    (fuel : ℕ) (c : Course) (k : ℕ) (s : StoppableTask)
    → (c.succeeds k ≡ true) ⊎ ((c.succeeds k ≡ false) × (should_stop (c.stopped k) s ≡ true))
    → execute_from (suc fuel) c k s ≡ some (record { success = c.succeeds k; executions = suc k })
unfolding execute_from
ends_here fuel c k s (inl good) = rw good refl
ends_here fuel c k s (inr (failed, stop)) = rw (failed, stop) refl

first_of_all :
    (c : Course) (k : ℕ) → (j : ℕ) → k ≤ j → j < k → (c.succeeds j ≡ false) × (c.stopped j ≡ false)
first_of_all c k j h l = absurd (omega (arith, h, l))

stopped_stops : (s : StoppableTask) → should_stop true s ≡ true
unfolding should_stop
stopped_stops s = ground arith

used_up :
    (b : Bool) (n : ℕ) (s : StoppableTask)
    → s.max_retry ≡ some n
    → s.count ≡ n + 1
    → should_stop b s ≡ true
unfolding should_stop
used_up true n s limit all = ground (arith, limit)
used_up false n s limit all = ground (arith, limit, all)

goes_on :
    (left : ℕ) (c : Course) (k n : ℕ) (s : StoppableTask)
    → s.max_retry ≡ some n
    → s.count + suc left ≡ n + 1
    → c.succeeds k ≡ false
    → c.stopped k ≡ false
    → execute_from (suc (suc left)) c k s
      ≡ execute_from (suc left) c (suc k) (record s { count = s.count + 1 })
unfolding should_stop
goes_on left c k n s limit budget failed live =
    let more : should_stop (c.stopped k) s ≡ false = ground (arith, limit, budget, live) in
    unfold execute_from in rw (failed, more) refl

-- The loop with `left` executions to go ends at the execution `m`, which is the last.
abbrev Result : ℕ → Course → ℕ → StoppableTask → Type 0
Result left c k s =
    (m : ℕ) × (k ≤ m)
    × (m ≤ k + left)
    × (execute_from (suc left) c k s ≡ some (record { success = c.succeeds m; executions = suc m }))
    × Ends c k m (k + left)

result_now :
    (left : ℕ) (c : Course) (k : ℕ) (s : StoppableTask)
    → (c.succeeds k ≡ true) ⊎ ((c.succeeds k ≡ false) × (should_stop (c.stopped k) s ≡ true))
    → (c.succeeds k ≡ true) ⊎ (c.stopped k ≡ true) ⊎ (k ≡ k + left)
    → Result left c k s
result_now left c k s ends cause =
    (k, omega arith, omega arith, ends_here left c k s ends, (first_of_all c k, cause))

result_stopped :
    (left : ℕ) (c : Course) (k : ℕ) (s : StoppableTask)
    → c.succeeds k ≡ false
    → c.stopped k ≡ true
    → Result left c k s
result_stopped left c k s failed fired =
    result_now left c k s (inr (failed, ap (λ b. should_stop b s) fired ∙ stopped_stops s))
      (inr (inl fired))

result_later :
    (left : ℕ) (c : Course) (k n : ℕ) (s : StoppableTask)
    → s.max_retry ≡ some n
    → s.count + suc left ≡ n + 1
    → c.succeeds k ≡ false
    → c.stopped k ≡ false
    → Result left c (suc k) (record s { count = s.count + 1 })
    → Result (suc left) c k s
result_later left c k n s limit budget failed live (m, low, high, same, ends) =
    let e : suc k + left ≡ k + suc left = omega arith in
    (
      m,
      omega (arith, low),
      omega (arith, high),
      goes_on left c k n s limit budget failed live ∙ same,
      one_more c k m (k + suc left) failed live (subst (Ends c (suc k) m) e ends),
    )

result :
    (left : ℕ) (c : Course) (k n : ℕ) (s : StoppableTask)
    → s.max_retry ≡ some n
    → s.count + left ≡ n + 1
    → Result left c k s
result zero c k n s limit budget = elim (Bool-cases (c.succeeds k)) [
  | inl good ↦ result_now zero c k s (inl good) (inl good)
  | inr failed ↦
      result_now zero c k s (inr (failed, used_up (c.stopped k) n s limit (omega (arith, budget))))
        (inr (inr (omega arith)))
]
result (suc left) c k n s limit budget = elim (Bool-cases (c.succeeds k)) [
  | inl good ↦ result_now (suc left) c k s (inl good) (inl good)
  | inr failed ↦ elim (Bool-cases (c.stopped k)) [
    | inl fired ↦ result_stopped (suc left) c k s failed fired
    | inr live ↦
        result_later left c k n s limit budget failed live
          (result left c (suc k) n (record s { count = s.count + 1 }) limit (omega (arith, budget)))
  ]
]

new_stoppable-suc :
    (n : ℕ) → new_stoppable (some (suc n)) ≡ record { max_retry = some (suc n); count = 0 }
unfolding new_stoppable
new_stoppable-suc n = ground arith

-- With the option `maxRetry` at `n + 1` the task is executed at most `n + 3` times, and `onFinish` is
-- called: after the first execution that succeeds or during which the timer fires, or else after the
-- one numbered `n + 3`; and with the success of the last execution. The fuel `n + 3` is enough.
pub start_bounded :
    (n : ℕ) (c : Course)
    → (m : ℕ) × (m < n + 3)
      × (start (n + 3) c (new_stoppable (some (suc n)))
          ≡ some (record { success = c.succeeds m; executions = suc m }))
      × ((j : ℕ) → j < m → (c.succeeds j ≡ false) × (c.stopped j ≡ false))
      × ((c.succeeds m ≡ true) ⊎ (c.stopped m ≡ true) ⊎ (m ≡ n + 2))
unfolding start
start_bounded n c =
    let fresh : StoppableTask = record { max_retry = some (suc n); count = 0 } in
    let (m, low, high, same, (before, cause)) =
      result (n + 2) c 0 (suc n) fresh refl (omega arith) in
    let fuel : n + 3 ≡ suc (n + 2) = omega arith in
    (
      m,
      omega (arith, high),
      rw (new_stoppable-suc n, fuel) same,
      λ j l. before j (omega arith) l,
      elim cause [
        | inl good ↦ inl good
        | inr (inl fired) ↦ inr (inl fired)
        | inr (inr last) ↦ inr (inr (omega (arith, last)))
      ],
    )
