-- ===== src/Verifier/Groups.antt =====
-- The groups that `selectWorkerGroup` of EthereumVerifier.js builds, and the verification of a worker.
use enigma_p2p.Base.{
  subst, ℕ, zero, suc, ◌+◌, ◌%◌, ◌≤◌, ◌<◌, String, ◌≡◌, refl, inl, inr, false, Option, none, some,
  List, [], ◌∷◌, ◌++◌, arith, ltb, length, Occurs, eq_iff, Bool-cases, All, All-append,
  length-append, ltb→lt,
}
use enigma_p2p.Base.Text.{remove0x, to_lower}
use text.Mathlib.Text.{◌==◌ as str_eq}
use enigma_p2p.Verifier.Params.{EpochParams}
use enigma_p2p.Verifier.Select.{
  Outcome, returned, thrown, no_fuel, sum_balances, last_worker, pick_worker, includes,
  add_selected, end_turn, draw_worker, select_loop, select_worker_group, verify_selected_worker,
}
use enigma_p2p.Verifier.Fairness.{Choice, pick_worker-Choice, pick_worker-within, positive_sum}

-- No worker twice.
abbrev pub Distinct : List (Option String) → Type 0
Distinct [] = Unit
Distinct (w ∷ ws) = (includes w ws ≡ false) × Distinct ws

includes-append :
    (x w : Option String) (ws : List (Option String))
    → includes w (x ∷ []) ≡ false
    → includes x ws ≡ false
    → includes x (ws ++ w ∷ []) ≡ false
unfolding includes
includes-append none none [] h k = cc
includes-append none (some w) [] h k = refl
includes-append (some x) none [] h k = refl
includes-append (some x) (some w) [] h k = ground (arith, eq_iff x w, eq_iff w x)
includes-append none w (none ∷ ws) h k = cc
includes-append none w (some v ∷ ws) h k = includes-append none w ws h k
includes-append (some x) w (none ∷ ws) h k = includes-append (some x) w ws h k
includes-append (some x) w (some v ∷ ws) h k = ground (arith, includes-append (some x) w ws h)

includes_head :
    (x w : Option String) (ws : List (Option String))
    → includes w (x ∷ ws) ≡ false
    → (includes w (x ∷ []) ≡ false) × (includes w ws ≡ false)
unfolding includes
includes_head none none ws h = cc
includes_head (some x) none ws h = (refl, h)
includes_head none (some w) ws h = (refl, h)
includes_head (some x) (some w) ws h = ground arith

Distinct-append :
    (w : Option String) (ws : List (Option String))
    → Distinct ws
    → includes w ws ≡ false
    → Distinct (ws ++ w ∷ [])
Distinct-append w [] d h = (unfold includes in refl, tt)
Distinct-append w (x ∷ ws) d h =
    let (head, rest) = includes_head x w ws h in
    (includes-append x w ws head d.0, Distinct-append w ws d.1 rest)

-- A group as it is built: no worker twice, each a worker of the epoch or the fallback.
pub record IsGroup (params : EpochParams) (selected : List (Option String)) : Type 0 where
  pub distinct : Distinct selected
  pub chosen : All (Choice (last_worker params.workers) params.workers) selected

add_selected-IsGroup :
    (params : EpochParams) (w : Option String) (selected : List (Option String))
    → Choice (last_worker params.workers) params.workers w
    → IsGroup params selected
    → IsGroup params (add_selected w selected)
      × (length (add_selected w selected) ≤ length selected + 1)
unfolding add_selected
add_selected-IsGroup params w selected c g = elim (Bool-cases (includes w selected)) [
  | inl old ↦ rw old (g, omega arith)
  | inr new ↦ rw new (
    record {
      distinct = Distinct-append w selected g.distinct new;
      chosen = All-append _ selected (w ∷ []) g.chosen (c, tt);
    },
    omega (arith, length-append selected (w ∷ [])),
  )
]

module _ (draw : ℕ → String → ℕ → ℕ) where
  draw_worker-Choice :
      (address : String) (params : EpochParams) (nonce : ℕ) (w : Option String)
      → length params.workers ≡ length params.balances
      → draw_worker draw address params nonce ≡ returned w
      → Choice (last_worker params.workers) params.workers w
  unfolding draw_worker
  draw_worker-Choice address params nonce w len h =
      let total : ℕ = sum_balances params.balances in
      let (v, e, c) =
        pick_worker-Choice (last_worker params.workers) (draw params.seed address nonce % total)
          params.workers params.balances len in
      let same : v ≡ w = ground (arith, e) in
      subst (Choice (last_worker params.workers) params.workers) same c

  end_turn-IsGroup :
      (size : ℕ) (params : EpochParams)
      (again : List (Option String) → Outcome (List (Option String)))
      (selected group : List (Option String)) (o : Outcome (Option String))
      → ((w : Option String)
          → o ≡ returned w
          → Choice (last_worker params.workers) params.workers w)
      → length selected < size
      → IsGroup params selected
      → ((next : List (Option String))
          → length next < size
          → IsGroup params next
          → again next ≡ returned group
          → (length group ≡ size) × IsGroup params group)
      → end_turn size again selected o ≡ returned group
      → (length group ≡ size) × IsGroup params group
  unfolding end_turn
  end_turn-IsGroup size params again selected group thrown c less g rest h = cc
  end_turn-IsGroup size params again selected group no_fuel c less g rest h = cc
  end_turn-IsGroup size params again selected group (returned w) c less g rest h =
      let selected' : List (Option String) = add_selected w selected in
      let (g', bound) = add_selected-IsGroup params w selected (c w refl) g in
      elim (Bool-cases (ltb (length selected') size)) [
        | inl short ↦ rest selected' (ltb→lt _ _ short) g' (ground arith)
        | inr full ↦
            let e : selected' ≡ group = ground arith in
            (rw (← e) (ground arith), subst (IsGroup params) e g')
      ]

  select_loop-IsGroup :
      (fuel size : ℕ) (address : String) (params : EpochParams) (nonce : ℕ)
      (selected group : List (Option String))
      → length params.workers ≡ length params.balances
      → length selected < size
      → IsGroup params selected
      → select_loop draw fuel size address params nonce selected ≡ returned group
      → (length group ≡ size) × IsGroup params group
  unfolding select_loop
  select_loop-IsGroup zero size address params nonce selected group len less g h = cc
  select_loop-IsGroup (suc fuel) size address params nonce selected group len less g h =
      end_turn-IsGroup size params (select_loop draw fuel size address params (suc nonce)) selected
        group (draw_worker draw address params nonce)
        (λ w e. draw_worker-Choice address params nonce w len e) less g
        (λ next l g' e.
          select_loop-IsGroup fuel size address params (suc nonce) next group len l g' e)
        h

  -- A group that `selectWorkerGroup` returns has the size asked for and no worker twice, and each
  -- is a worker of the epoch (`last_worker` is one where there is any).
  pub select_worker_group-IsGroup :
      (fuel size : ℕ) (address : String) (params : EpochParams) (group : List (Option String))
      → length params.workers ≡ length params.balances
      → 0 < size
      → select_worker_group draw fuel address params size ≡ returned group
      → (length group ≡ size) × IsGroup params group
  unfolding select_worker_group
  select_worker_group-IsGroup fuel size address params group len pos h =
      select_loop-IsGroup fuel size address params 0 [] group len pos
        (record { distinct = tt; chosen = tt }) h

  draw_worker_returns :
      (address : String) (params : EpochParams) (nonce : ℕ) (w : String)
      → 0 < sum_balances params.balances
      → pick_worker
          (last_worker params.workers)
          (draw params.seed address nonce % sum_balances params.balances)
          params.workers
          params.balances
        ≡ returned (some w)
      → draw_worker draw address params nonce ≡ returned (some w)
  unfolding draw_worker
  draw_worker_returns address params nonce w pos e = ground arith

  verified_of_drawn :
      (address worker : String) (params : EpochParams) (w : String)
      → draw_worker draw address params 0 ≡ returned (some w)
      → verify_selected_worker draw address worker params
        ≡ returned (str_eq (remove0x (to_lower w)) worker)
  unfolding verify_selected_worker select_worker_group select_loop end_turn add_selected includes
  verified_of_drawn address worker params w e = ground (arith, e)

  -- Where some balance is not 0, and there are workers, each with a balance, the first turn draws a
  -- worker `w` of the epoch; the verification ends after that turn, and accepts exactly the address
  -- of `w`, without `0x` and in small letters.
  pub verify_selected_worker_returns :
      (address worker : String) (params : EpochParams)
      → length params.workers ≡ length params.balances
      → 0 < sum_balances params.balances
      → (w : String) × Occurs w params.workers
        × (draw_worker draw address params 0 ≡ returned (some w))
        × (verify_selected_worker draw address worker params
            ≡ returned (str_eq (remove0x (to_lower w)) worker))
  verify_selected_worker_returns address worker params len pos =
      let total : ℕ = sum_balances params.balances in
      let (w, o, e) =
        pick_worker-within (last_worker params.workers) (draw params.seed address 0 % total)
          params.workers params.balances len (omega arith)
          (omega (arith, positive_sum params.balances)) in
      let drawn = draw_worker_returns address params 0 w pos e in
      (w, o, drawn, verified_of_drawn address worker params w drawn)
