-- ===== src/StateKeys/Stored.antt =====
-- How the last callback of GetStateKeysAction.js ends an exchange.
use enigma_p2p.Base.{
  ℕ, zero, suc, String, Bool, ◌+◌, ◌<◌, ◌≡◌, refl, inl, inr, ◌⊎◌, true, false, Option, none, some,
  List, [], ◌∷◌, ◌++◌, arith, get_elem?,
}
use enigma_p2p.Tasks.Task.{Task}
use enigma_p2p.StateKeys.System.{
  gave_core, KeysError, result_errors, core_error, Run, System, Output, StoreAnswer, keys_stored,
  answer, remove_at, get_stuck, end_ptt, finish, store_error, on_keys_stored, dispatch, deliver,
  step,
}
use enigma_p2p.StateKeys.Waiting.{Tells, answer-Tells}

-- The responses of Core to the keys that are taken for a success: there is no other error, and the
-- result lists no errors, or there is no result and the type is "Error".
abbrev pub IsTaken : StoreAnswer → Type 0
IsTaken a =
    (a.error ≡ none) × ((a.result ≡ some (some 0)) ⊎ ((a.result ≡ none) × (a.is_error ≡ true)))

-- Those that are an error: the result lists errors, or it lists none or is missing and there is
-- another error.
abbrev pub IsFailure : StoreAnswer → KeysError → Type 0
IsFailure a e =
    ((n : ℕ) × (a.result ≡ some (some n)) × (0 < n) × (e ≡ result_errors))
    ⊎ ((text : String) × (a.error ≡ some text)
        × ((a.result ≡ some (some 0)) ⊎ (a.result ≡ none))
        × (e ≡ core_error text))

-- Those at which the callback throws.
abbrev pub Throws : StoreAnswer → Type 0
Throws a = (a.result ≡ some none) ⊎ ((a.result ≡ none) × (a.error ≡ none) × (a.is_error ≡ false))

-- The last thing that happens is what the caller does with `e`.
abbrev pub EndsWith : Option Task → Option KeysError → List Output → Type 0
EndsWith caller e outputs =
    (first : List Output) × (o : Output) × Tells caller e o × (outputs ≡ first ++ o ∷ [])

-- What the callback makes of a response.
abbrev StoreCases : StoreAnswer → Option (Option KeysError) → Type 0
StoreCases a c =
    (IsTaken a × (c ≡ some none))
    ⊎ ((e : KeysError) × IsFailure a e × (c ≡ some (some e)))
    ⊎ (Throws a × (c ≡ none))

cases_of :
    (error : Option String) (is_error : Bool) (result : Option (Option ℕ))
    → let a : StoreAnswer = record { error = error; is_error = is_error; result = result } in
      StoreCases a (store_error a)
unfolding store_error
cases_of none true none = inl ((refl, inr (refl, refl)), refl)
cases_of none false none = inr (inr (inr (refl, refl, refl), refl))
cases_of (some text) b none = inr (inl (core_error text, inr (text, refl, inr refl, refl), refl))
cases_of error b (some none) = inr (inr (inl refl, refl))
cases_of none b (some (some zero)) = inl ((refl, inl refl), refl)
cases_of (some text) b (some (some zero)) =
    inr (inl (core_error text, inr (text, refl, inl refl, refl), refl))
cases_of error b (some (some (suc n))) =
    inr (inl (result_errors, inl (suc n, refl, omega arith, refl), ground arith))

finish_ends :
    (i : ℕ) (r : Run) (e : Option KeysError) (s : System) → EndsWith r.caller e (finish i r e s).1
unfolding finish
finish_ends i r e s =
    let before : List Output = (end_ptt (record s { running = remove_at i s.running })).1 in
    (before, answer r.caller e, answer-Tells r.caller e, refl)

-- The end of an exchange by Core's response to the keys. A response with no other error and either a
-- result that lists no errors or no result and the type "Error" is a success to the caller: a
-- deployment that waits for its keys is sent to Core. A response whose result lists errors, or that
-- has another error, ends with that error: such a deployment is dropped. At any other one the
-- callback throws: nothing follows, and the flag stays as it is.
pub step_keys_stored_ends :
    (i : ℕ) (r : Run) (a : StoreAnswer) (s : System)
    → get_elem? s.running i ≡ some r
    → r.phase ≡ gave_core
    → let (s', outputs) = step (keys_stored i a) s in
      (IsTaken a × EndsWith r.caller none outputs)
      ⊎ ((e : KeysError) × IsFailure a e × EndsWith r.caller (some e) outputs)
      ⊎ (Throws a × (outputs ≡ []) × (s'.in_ptt ≡ s.in_ptt) × (s'.stuck ≡ s.stuck + 1))
unfolding step deliver dispatch on_keys_stored get_stuck
step_keys_stored_ends i r a s found phase =
    rw (found, deliver)
      (rw (phase, dispatch)
        (elim (cases_of a.error a.is_error a.result) [
          | inl (taken, e) ↦ inl (taken, rw (e, on_keys_stored) (finish_ends i r none s))
          | inr (inl (err, failure, e)) ↦
              inr (inl (err, failure, rw (e, on_keys_stored) (finish_ends i r (some err) s)))
          | inr (inr (throws, e)) ↦ inr (
              inr (
                throws,
                rw (e, on_keys_stored) refl,
                rw (e, on_keys_stored) refl,
                rw (e, on_keys_stored) refl,
              ))
        ]))
