-- ===== src/StateKeys/Attempts.antt =====
-- How often PrincipalNode.js asks, and which answer it gives.
use enigma_p2p.Base.{
  ℕ, zero, suc, ◌+◌, ◌≤◌, ◌<◌, ◌≡◌, refl, sym, ap, ◌∙◌, subst, inl, inr, ◌⊎◌, Bool, true, false,
  Option, some, arith, Bool-cases, ◌==◌,
}
use enigma_p2p.StateKeys.Principal.{
  MsgPrincipal, PrincipalAnswer, request_error, response_error, response_result, StateKeys,
  KeysReply, keys, keys_rejected, can_retry, reply_of, max_retries, attempts, get_state_keys,
}

-- The attempt `n` is the first, from `k` on, whose answer is not tried again, or the last one.
abbrev pub Decisive : (ℕ → PrincipalAnswer) → (k last n : ℕ) → Type 0
Decisive answer k last n =
    (k ≤ n)
    × (n ≤ last)
    × ((j : ℕ) → k ≤ j → j < n → can_retry (answer j) ≡ true)
    × ((n ≡ last) ⊎ (can_retry (answer n) ≡ false))

-- One more attempt before those that are tried again.
retried_from :
    (answer : ℕ → PrincipalAnswer) (k n : ℕ)
    → can_retry (answer k) ≡ true
    → ((j : ℕ) → suc k ≤ j → j < n → can_retry (answer j) ≡ true)
    → (j : ℕ) → k ≤ j
    → j < n
    → can_retry (answer j) ≡ true
retried_from answer k n again before j h l = elim (Bool-cases (j == k)) [
  | inl same ↦ subst (λ i. can_retry (answer i) ≡ true) (ground (arith, same)) again
  | inr other ↦ before j (ground (arith, h, other)) l
]

attempts-Decisive :
    (left : ℕ) (answer : ℕ → PrincipalAnswer) (k : ℕ)
    → Decisive answer k (k + left) (attempts left answer k).1
      × ((attempts left answer k).0 ≡ reply_of (answer (attempts left answer k).1))
unfolding attempts
attempts-Decisive zero answer k =
    ((omega arith, omega arith, λ j h l. absurd (omega (arith, h, l)), inl (omega arith)), refl)
attempts-Decisive (suc left) answer k = elim (Bool-cases (can_retry (answer k))) [
  | inl again ↦
      let ((low, high, before, last), reply) = attempts-Decisive left answer (suc k) in
      let n : ℕ = (attempts left answer (suc k)).1 in
      let last' : (n ≡ k + suc left) ⊎ (can_retry (answer n) ≡ false) = elim last [
        | inl e ↦ inl (omega (arith, e))
        | inr e ↦ inr e
      ] in
      rw again (
        (
          (omega (arith, low), omega (arith, high), retried_from answer k n again before, last'),
          reply,
        ))
  | inr settled ↦
      rw settled
        (((omega arith, omega arith, λ j h l. absurd (omega (arith, h, l)), inr settled), refl))
]

-- A failure that may pass: of the connection, or of an epoch's change.
abbrev pub IsTransient : PrincipalAnswer → Type 0
IsTransient a = (a ≡ request_error) ⊎ (a ≡ response_error true)

-- What the caller gets for an answer: the result, or for any error a rejection.
abbrev pub Gets : PrincipalAnswer → KeysReply → Type 0
Gets a reply =
    ((r : Option StateKeys) × (a ≡ response_result r) × (reply ≡ keys r))
    ⊎ (((a ≡ request_error) ⊎ ((b : Bool) × (a ≡ response_error b))) × (reply ≡ keys_rejected))

can_retry-IsTransient : (a : PrincipalAnswer) → can_retry a ≡ true → IsTransient a
unfolding can_retry
can_retry-IsTransient request_error h = inl refl
can_retry-IsTransient (response_error true) h = inr refl
can_retry-IsTransient (response_error false) h = absurd (cc h)
can_retry-IsTransient (response_result r) h = absurd (cc h)

not_retried : (a : PrincipalAnswer) → can_retry a ≡ false → ¬ IsTransient a
unfolding can_retry
not_retried a h (inl e) = cc (sym h ∙ ap can_retry e)
not_retried a h (inr e) = cc (sym h ∙ ap can_retry e)

reply_of-Gets : (a : PrincipalAnswer) → Gets a (reply_of a)
unfolding reply_of
reply_of-Gets request_error = inr (inl refl, refl)
reply_of-Gets (response_error b) = inr (inr (b, refl), refl)
reply_of-Gets (response_result r) = inl (r, refl, refl)

-- A request to the principal node is sent at most eleven times, whatever it answers. It is sent again
-- only after a failed connection or an error of an epoch's change, and always after one of these
-- unless eleven attempts are made; and the caller gets what the last attempt was answered: its result, or a
-- rejection if it was an error.
pub get_state_keys_attempts :
    (msg : MsgPrincipal) (answer : ℕ → PrincipalAnswer)
    → (n : ℕ) × (reply : KeysReply) × (get_state_keys (some msg) answer ≡ (reply, some n))
      × Gets (answer n) reply
      × (n < 11)
      × ((j : ℕ) → j < n → IsTransient (answer j))
      × ((n ≡ 10) ⊎ ¬ IsTransient (answer n))
unfolding get_state_keys
get_state_keys_attempts msg answer =
    let ((low, high, before, last), reply) = attempts-Decisive max_retries answer 0 in
    let n : ℕ = (attempts max_retries answer 0).1 in
    let settled : (n ≡ 10) ⊎ ¬ IsTransient (answer n) = elim last [
      | inl e ↦ inl e
      | inr e ↦ inr (not_retried (answer n) e)
    ] in
    (
      n,
      reply_of (answer n),
      ap (λ r. (r, some n)) reply,
      reply_of-Gets (answer n),
      omega (arith, high),
      λ j l. can_retry-IsTransient (answer j) (before j (omega arith) l),
      settled,
    )
