-- ===== src/Verifier/Timeouts.antt =====
-- What a new epoch does to the listeners of EthereumVerifier.js.
use enigma_p2p.Base.{
  Occurs-append_left, Occurs-append_right, ◌↔◌, ◌<◌, All-append, All, All-map_of, ℕ, ◌+◌, ◌≤◌,
  String, ◌≡◌, refl, ◌⊎◌, inl, inr, true, Option, none, some, List, [], ◌∷◌, if◌then◌else◌, arith,
  eq_iff, Occurs, Bool-cases, Option-cases,
}
use enigma_p2p.Base.Dict
use enigma_p2p.Base.Dict.{Dict, listed, listed-keys, get-remove}
use enigma_p2p.Verifier.Params.{EpochParams, push_params, params_max_size}
use enigma_p2p.Verifier.Listeners.{
  Verifier, CreateListener, SubmitListener, Resolved, is_overdue, sweep, time_out_create,
  time_out_submit, check_timeouts, on_new_epoch,
}

module _ {L : Type 0} (block_of : L → ℕ) (resolve : L → Resolved) (first timeout : ℕ) where
  -- A listener that is not overdue.
  abbrev pub fresh : Option L → Option L
  fresh none = none
  fresh (some l) = if is_overdue first (block_of l) timeout then none else some l

  get-sweep :
      (ids : List String) (m : Dict L) (j : String)
      → Dict.get j (sweep block_of resolve first timeout ids m).0
        ≡ (if listed j ids then fresh (Dict.get j m) else Dict.get j m)
  unfolding sweep
  get-sweep [] m j = refl
  get-sweep (id ∷ ids) m j =
      ground (
        arith,
        get-sweep ids m j,
        get-sweep ids (Dict.remove id m) j,
        get-remove id j m,
        eq_iff id j,
      )

  -- Every overdue listener is among those that are called.
  sweep-calls :
      (ids : List String) (m : Dict L) (j : String) (l : L)
      → listed j ids ≡ true
      → Dict.get j m ≡ some l
      → is_overdue first (block_of l) timeout ≡ true
      → Occurs (resolve l) (sweep block_of resolve first timeout ids m).1
  unfolding sweep
  sweep-calls [] m j l h e o = cc
  sweep-calls (id ∷ ids) m j l h e o = ground (
    arith,
    eq_iff id j,
    get-remove id j m,
    sweep-calls ids m j l,
    sweep-calls ids (Dict.remove id m) j l,
  )

  -- Nothing else is called.
  abbrev pub Overdue : Dict L → Resolved → Type 0
  Overdue m r =
      (j : String) × (l : L) × (Dict.get j m ≡ some l)
      × (is_overdue first (block_of l) timeout ≡ true)
      × (r ≡ resolve l)

  weaken : (id : String) (m : Dict L) (r : Resolved) → Overdue (Dict.remove id m) r → Overdue m r
  weaken id m r (j, l, e, due, same) = (j, l, ground (arith, get-remove id j m), due, same)

  sweep-only :
      (ids : List String) (m : Dict L)
      → All (Overdue m) (sweep block_of resolve first timeout ids m).1
  unfolding sweep
  sweep-only [] m = tt
  sweep-only (id ∷ ids) m = elim (Option-cases (Dict.get id m)) [
    | inl missing ↦ rw (missing, sweep) (sweep-only ids m)
    | inr (l, e) ↦ elim (Bool-cases (is_overdue first (block_of l) timeout)) [
      | inl due ↦
          rw (e, sweep)
            (rw (due, sweep)
              (
                (id, l, e, due, refl),
                All-map_of (Overdue (Dict.remove id m)) (Overdue m) _ (weaken id m)
                    (sweep-only ids (Dict.remove id m)),
              ))
      | inr early ↦ rw (e, sweep) (rw (early, sweep) (sweep-only ids m))
    ]
  ]

  -- A sweep over all keys leaves exactly the listeners that are not overdue.
  sweep-left :
      (m : Dict L) (j : String) (l : L)
      → (Dict.get j (sweep block_of resolve first timeout (Dict.keys m) m).0 ≡ some l)
        ↔ ((Dict.get j m ≡ some l) × (first < block_of l + timeout))
  unfolding is_overdue
  sweep-left m j l = ground (arith, get-sweep (Dict.keys m) m j, listed-keys j m)

  sweep-called :
      (m : Dict L) (j : String) (l : L)
      → Dict.get j m ≡ some l
      → block_of l + timeout ≤ first
      → Occurs (resolve l) (sweep block_of resolve first timeout (Dict.keys m) m).1
  sweep-called m j l e due =
      sweep-calls (Dict.keys m) m j l (ground (arith, listed-keys j m, e)) e
        (unfold is_overdue in ground arith)

-- What the event of an epoch whose first block is `first` does.
pub record EpochEffect (first : ℕ) (e : EpochParams) (v w : Verifier) (out : List Resolved)
    : Type 0 where
  pub creates_left :
      (j : String) (l : CreateListener)
      → (Dict.get j w.creates ≡ some l)
        ↔ ((Dict.get j v.creates ≡ some l) × (first < l.block_number + v.timeout))
  pub submits_left :
      (j : String) (l : SubmitListener)
      → (Dict.get j w.submits ≡ some l)
        ↔ ((Dict.get j v.submits ≡ some l) × (first < l.block_number + v.timeout))
  pub creates_called :
      (j : String) (l : CreateListener)
      → Dict.get j v.creates ≡ some l
      → l.block_number + v.timeout ≤ first
      → Occurs (time_out_create l) out
  pub submits_called :
      (j : String) (l : SubmitListener)
      → Dict.get j v.submits ≡ some l
      → l.block_number + v.timeout ≤ first
      → Occurs (time_out_submit l) out
  pub only :
      All
        (λ r.
          Overdue
            (λ (l : CreateListener). l.block_number)
            time_out_create
            first
            v.timeout
            v.creates
            r
          ⊎ Overdue
              (λ (l : SubmitListener). l.block_number)
              time_out_submit
              first
              v.timeout
              v.submits
              r)
        out
  pub window : w.params ≡ push_params params_max_size v.params e

on_new_epoch_lem :
    (e : EpochParams) (v : Verifier) (first : ℕ)
    → e.first_block ≡ some first
    → on_new_epoch e v
      ≡ check_timeouts first (record v { params = push_params params_max_size v.params e })
unfolding on_new_epoch
on_new_epoch_lem e v first h = ground (arith, h)

-- A new epoch that has a first block: the array of parameters takes it in; exactly the listeners
-- whose block plus the timeout is beyond the first block are left; every other one is called with
-- a timeout, and nothing else is resolved.
pub on_new_epoch-EpochEffect :
    (e : EpochParams) (v : Verifier) (first : ℕ)
    → e.first_block ≡ some first
    → EpochEffect first e v (on_new_epoch e v).0 (on_new_epoch e v).1
unfolding check_timeouts
on_new_epoch-EpochEffect e v first h = rw (on_new_epoch_lem e v first h) (record {
  creates_left = sweep-left (λ l. l.block_number) time_out_create first v.timeout v.creates;
  submits_left = sweep-left (λ l. l.block_number) time_out_submit first v.timeout v.submits;
  creates_called = λ j l e due.
      Occurs-append_left _ _ _
        (sweep-called (λ l. l.block_number) time_out_create first v.timeout v.creates j l e due);
  submits_called = λ j l e due.
      Occurs-append_right _
        (sweep (λ l. l.block_number) time_out_create first v.timeout (Dict.keys v.creates)
          v.creates).1
        _ (sweep-called (λ l. l.block_number) time_out_submit first v.timeout v.submits j l e due);
  only =
      All-append _ _ _
        (All-map_of _ _ _ (λ r o. inl o)
          (sweep-only (λ l. l.block_number) time_out_create first v.timeout (Dict.keys v.creates)
            v.creates))
        (All-map_of _ _ _ (λ r o. inr o)
          (sweep-only (λ l. l.block_number) time_out_submit first v.timeout (Dict.keys v.submits)
            v.submits));
  window = refl;
})
