-- ===== src/Verifier/Fairness.antt =====
-- Whom the selection loop of EthereumVerifier.js chooses: the draws that fall to each worker.

use enigma_p2p.Base.{
  ◌∙◌, subst, ℕ, suc, ◌-◌, ◌≤◌, ◌<◌, String, ◌≡◌, refl, sym, ◌≢◌, ◌↔◌, ◌⊎◌, inl, inr, Option, some,
  List, [], ◌∷◌, arith, ltb, leb, if◌then◌else◌, length, Occurs, Bool-cases,
}
use enigma_p2p.Verifier.Select.{Outcome, returned, thrown, sum_balances, pick_worker}

-- The rule that the comment above the loop gives: the worker at whose balance the number becomes
-- negative, so that a balance of `b` owns `b` numbers.
pub fair_worker : Option String → ℕ → List String → List ℕ → Outcome (Option String)
fair_worker fallback r [] bs = returned fallback
fair_worker fallback r (w ∷ ws) [] = thrown
fair_worker fallback r (w ∷ ws) (b ∷ bs) =
    let rest = fair_worker fallback (r - b) ws bs in if ltb r b then returned (some w) else rest

-- The loop stops one step early: the number `r + 1` goes to the worker that owns `r` by the
-- comment's rule.
pub pick_worker-suc :
    (fallback : Option String) (r : ℕ) (ws : List String) (bs : List ℕ)
    → pick_worker fallback (suc r) ws bs ≡ fair_worker fallback r ws bs
unfolding pick_worker fair_worker
pick_worker-suc fallback r [] bs = refl
pick_worker-suc fallback r (w ∷ ws) [] = refl
pick_worker-suc fallback r (w ∷ ws) (b ∷ bs) = elim (Bool-cases (ltb r b)) [
  | inl own ↦ ground arith
  | inr other ↦
      let e : suc r - b ≡ suc (r - b) = ground arith in
      ground (arith, e, pick_worker-suc fallback (r - b) ws bs)
]

-- What a turn of the loop may choose: the fallback or a worker of the list.
abbrev pub Choice : Option String → List String → Option String → Type 0
Choice fallback ws v = (v ≡ fallback) ⊎ ((w : String) × (v ≡ some w) × Occurs w ws)

Choice-cons :
    (fallback : Option String) (x : String) (ws : List String) (v : Option String)
    → Choice fallback ws v
    → Choice fallback (x ∷ ws) v
Choice-cons fallback x ws v (inl e) = inl e
Choice-cons fallback x ws v (inr (w, e, o)) = inr (w, e, inr o)

-- With as many balances as workers the loop returns one of these.
pub pick_worker-Choice :
    (fallback : Option String) (r : ℕ) (ws : List String) (bs : List ℕ)
    → length ws ≡ length bs
    → (v : Option String) × (pick_worker fallback r ws bs ≡ returned v) × Choice fallback ws v
unfolding pick_worker
pick_worker-Choice fallback r [] bs h = (fallback, refl, inl refl)
pick_worker-Choice fallback r (w ∷ ws) [] h = absurd (omega arith)
pick_worker-Choice fallback r (w ∷ ws) (b ∷ bs) h = elim (Bool-cases (leb r b)) [
  | inl own ↦ (some w, rw own, inr (w, refl, inl refl))
  | inr other ↦
      let (v, e, c) = pick_worker-Choice fallback (r - b) ws bs (omega arith) in
      (v, rw other e, Choice-cons fallback w ws v c)
]

-- A number up to the sum of the balances always falls to a worker of the list.
pub pick_worker-within :
    (fallback : Option String) (r : ℕ) (ws : List String) (bs : List ℕ)
    → length ws ≡ length bs
    → r ≤ sum_balances bs
    → 0 < length ws
    → (w : String) × Occurs w ws × (pick_worker fallback r ws bs ≡ returned (some w))
unfolding pick_worker sum_balances
pick_worker-within fallback r [] bs h le pos = absurd (omega arith)
pick_worker-within fallback r (w ∷ ws) [] h le pos = absurd (omega arith)
pick_worker-within fallback r (w ∷ []) (b ∷ []) h le pos = (w, inl refl, ground arith)
pick_worker-within fallback r (w ∷ []) (b ∷ c ∷ bs) h le pos = absurd (omega arith)
pick_worker-within fallback r (w ∷ v ∷ ws) (b ∷ bs) h le pos = elim (Bool-cases (leb r b)) [
  | inl own ↦ (w, inl refl, rw own)
  | inr past ↦
      let (x, o, e) =
        pick_worker-within fallback (r - b) (v ∷ ws) bs (omega arith) (omega arith) (omega arith) in
      (x, inr o, rw past e)
]

pub positive_sum : (bs : List ℕ) → 0 < sum_balances bs → 0 < length bs
unfolding sum_balances
positive_sum [] h = absurd (omega arith)
positive_sum (b ∷ bs) h = omega arith

-- The numbers that choose the first worker are exactly those up to its balance `b`, both ends
-- included: `b + 1` of them.
pub pick_worker-first :
    (fallback : Option String) (r : ℕ) (w : String) (ws : List String) (b : ℕ) (bs : List ℕ)
    → length ws ≡ length bs
    → ¬ Occurs w ws
    → fallback ≢ some w
    → (pick_worker fallback r (w ∷ ws) (b ∷ bs) ≡ returned (some w)) ↔ (r ≤ b)
unfolding pick_worker
pick_worker-first fallback r w ws b bs len new other = (only, λ h. ground arith)
  where
    not_later : (v : Option String) → Choice fallback ws v → v ≢ some w
    not_later v (inl e) q = other (sym e ∙ q)
    not_later v (inr (x, e, o)) q = let same : x ≡ w = cc in new (subst (λ y. Occurs y ws) same o)

    only : pick_worker fallback r (w ∷ ws) (b ∷ bs) ≡ returned (some w) → r ≤ b
    only h = elim (Bool-cases (leb r b)) [
      | inl own ↦ ground arith
      | inr past ↦
          let (v, e, c) = pick_worker-Choice fallback (r - b) ws bs len in
          absurd (not_later v c (ground (arith, e)))
    ]
