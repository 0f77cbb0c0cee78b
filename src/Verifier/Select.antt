-- ===== src/Verifier/Select.antt =====
-- The choice of workers in EthereumVerifier.js: `selectWorkerGroup` and `_verifySelectedWorker`.
use enigma_p2p.Base.{
  ℕ, zero, suc, ◌+◌, ◌-◌, ◌%◌, String, Bool, true, false, Option, none, some, List, [], ◌∷◌, ◌++◌,
  ltb, leb, ◌==◌, if◌then◌else◌, length,
}
use enigma_p2p.Base.Text.{remove0x, to_lower}
use text.Mathlib.Text.{◌==◌ as str_eq}
use enigma_p2p.Verifier.Params.{EpochParams}

-- What the function does: it returns, a callee throws, or its loop has used up the model's fuel.
pub data Outcome {ℓ} (A : Type ℓ) : Type ℓ where
  returned : A → Outcome A
  thrown : Outcome A
  no_fuel : Outcome A

unfoldable pub sum_balances : List ℕ → ℕ
sum_balances [] = 0
sum_balances (b ∷ bs) = b + sum_balances bs

-- `params.workers[params.workers.length - 1]`
unfoldable pub last_worker : List String → Option String
last_worker [] = none
last_worker (w ∷ []) = some w
last_worker (w ∷ v ∷ ws) = last_worker (v ∷ ws)

-- The `for` loop: the random number goes down by each balance, and the worker at which it is no
-- longer positive is taken. `fallback` is the last worker; a balance that is missing makes
-- `JSBI.subtract` throw.
unfoldable pub pick_worker : Option String → ℕ → List String → List ℕ → Outcome (Option String)
pick_worker fallback r [] bs = returned fallback
pick_worker fallback r (w ∷ ws) [] = thrown
pick_worker fallback r (w ∷ ws) (b ∷ bs) =
    let rest = pick_worker fallback (r - b) ws bs in if leb r b then returned (some w) else rest

unfoldable pub includes : Option String → List (Option String) → Bool
includes w [] = false
includes none (none ∷ ws) = true
includes none (some v ∷ ws) = includes none ws
includes (some w) (none ∷ ws) = includes (some w) ws
includes (some w) (some v ∷ ws) =
    let rest = includes (some w) ws in if str_eq w v then true else rest

unfoldable pub add_selected : Option String → List (Option String) → List (Option String)
unfolding includes
add_selected w selected = if includes w selected then selected else selected ++ w ∷ []

-- The end of a turn of the `do … while` loop: the worker drawn is added, and the loop goes on while
-- the group is too small.
unfoldable pub end_turn :
    ℕ
    → (List (Option String) → Outcome (List (Option String)))
    → List (Option String)
    → Outcome (Option String)
    → Outcome (List (Option String))
unfolding add_selected
end_turn size again selected thrown = thrown
end_turn size again selected no_fuel = no_fuel
end_turn size again selected (returned w) = elim (ltb (length (add_selected w selected)) size) [
  | true ↦ again (add_selected w selected)
  | false ↦ returned (add_selected w selected)
]

-- `draw seed address nonce` is the hash of the encoded triple, read as a number.
module _ (draw : ℕ → String → ℕ → ℕ) where
  -- `JSBI.remainder` by a total of 0 throws.
  unfoldable pub draw_worker : String → EpochParams → ℕ → Outcome (Option String)
  unfolding pick_worker sum_balances last_worker
  draw_worker address params nonce =
      let total = sum_balances params.balances in
      if total == 0
      then thrown
      else pick_worker (last_worker params.workers) (draw params.seed address nonce % total)
          params.workers params.balances

  -- The `do … while` loop, one unit of fuel for each turn.
  unfoldable pub select_loop :
      ℕ → ℕ → String → EpochParams → ℕ → List (Option String) → Outcome (List (Option String))
  unfolding draw_worker end_turn
  select_loop zero size address params nonce selected = no_fuel
  select_loop (suc fuel) size address params nonce selected =
      end_turn size (select_loop fuel size address params (suc nonce)) selected
        (draw_worker address params nonce)

  unfoldable pub select_worker_group : ℕ → String → EpochParams → ℕ → Outcome (List (Option String))
  unfolding select_loop
  select_worker_group fuel address params size = select_loop fuel size address params 0 []

  -- `_verifySelectedWorker`: one worker is drawn, and its address is compared. `toLowerCase` of
  -- `undefined` throws. The group of one is there after one turn.
  unfoldable pub verify_selected_worker : String → String → EpochParams → Outcome Bool
  unfolding select_worker_group remove0x to_lower
  verify_selected_worker address worker params = elim (select_worker_group 1 address params 1) [
    | thrown ↦ thrown
    | no_fuel ↦ no_fuel
    | returned [] ↦ thrown
    | returned (none ∷ ws) ↦ thrown
    | returned (some w ∷ ws) ↦ returned (str_eq (remove0x (to_lower w)) worker)
  ]
