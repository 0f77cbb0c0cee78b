-- ===== src/Sync/Providers.antt =====
-- Which providers the receiver of Receiver.js asks, and what it ends with.
use enigma_p2p.Base.{
  ℕ, suc, ◌+◌, ◌-◌, ◌≡◌, refl, sym, ap, ◌∙◌, true, Option, none, some, List, [], ◌∷◌, ◌++◌, map,
  if◌then◌else◌, length, get_elem?, drop, arith, Bool-cases, inl, inr, get_elem?-drop, drop-drop,
}
use enigma_p2p.Sync.Receive.{
  Attempt, Progress, Ended, ended, failed_with, try_provider, retry_job, retry_jobs, last_job,
  try_sync_receive,
}

-- The providers that are asked, in order, until one answers: each once; a single one twice; and
-- `undefined` twice where there is none.
pub asked : {P : Type 0} → List P → List (Option P)
asked [] = none ∷ none ∷ []
asked (p ∷ []) = some p ∷ some p ∷ []
asked (p ∷ q ∷ ps) = map some (p ∷ q ∷ ps)

get_elem?_at :
    {A : Type 0} (i : ℕ) (xs : List A) (y : A) (ys : List A)
    → drop i xs ≡ y ∷ ys
    → get_elem? xs i ≡ some y
get_elem?_at i xs y ys e =
    let at : i + 0 ≡ i = omega arith in
    ap (get_elem? xs) (sym at) ∙ sym (get_elem?-drop i xs 0) ∙ ap (λ l. get_elem? l 0) e

drop_next :
    {A : Type 0} (i : ℕ) (xs : List A) (y : A) (ys : List A)
    → drop i xs ≡ y ∷ ys
    → drop (suc i) xs ≡ ys
drop_next i xs y ys e =
    let at : i + 1 ≡ suc i = omega arith in
    ap (λ n. drop n xs) (sym at) ∙ sym (drop-drop 1 i xs) ∙ ap (drop 1) e

-- A list that is not empty has a last element.
split_last :
    {A : Type 0} (x : A) (xs : List A)
    → (init : List A) × (l : A) × (x ∷ xs ≡ init ++ l ∷ [])
      × (get_elem? (x ∷ xs) (length xs) ≡ some l)
      × (length init ≡ length xs)
split_last x [] = ([], x, refl, refl, refl)
split_last x (y ∷ ys) =
    let (init, l, e, at, size) = split_last y ys in
    (x ∷ init, l, ap (λ z. x ∷ z) e, at, ap suc size)

module _ {P R : Type 0} (attempt : ℕ → Option P → Attempt R) where
  -- The first answer without an error from the providers in order, the first of which is asked in
  -- the job of number `n`; or else the results of the last error, `r` if none is asked.
  pub answers : ℕ → List (Option P) → R → Ended R
  answers n [] r = failed_with r
  answers n (p ∷ ps) r =
      let rest = answers (suc n) ps (attempt n p).results in
      if (attempt n p).failed
      then rest
      else ended (record { is_done = true; results = (attempt n p).results })

  answer_step :
      (i : ℕ) (p : Option P) (rest : List (Option P)) (s : Progress R)
      → (if (retry_job attempt i p s).is_done
          then ended (retry_job attempt i p s)
          else answers (suc i) rest (retry_job attempt i p s).results)
        ≡ (if s.is_done then ended s else answers i (p ∷ rest) s.results)
  unfolding retry_job answers
  answer_step i p rest s = elim (Bool-cases s.is_done) [
    | inl done ↦ rw done refl
    | inr again ↦ elim (Bool-cases (attempt i p).failed) [
      | inl failed ↦ ground (arith, again, failed)
      | inr fine ↦ ground (arith, again, fine)
    ]
  ]

  last_answer :
      (n : ℕ) (p : Option P) (s : Progress R)
      → last_job attempt n p s ≡ (if s.is_done then ended s else answers n (p ∷ []) s.results)
  unfolding last_job answers
  last_answer n p s = refl

  jobs_answer :
      (init : List P) (i : ℕ) (providers : List P) (l : P) (s : Progress R)
      → drop i providers ≡ init ++ l ∷ []
      → last_job attempt (i + length init) (some l) (retry_jobs attempt (length init) i providers s)
        ≡ (if s.is_done then ended s else answers i (map some (init ++ l ∷ [])) s.results)
  unfolding retry_jobs
  jobs_answer [] i providers l s e =
      let at : i + 0 ≡ i = omega arith in
      ap (λ n. last_job attempt n (some l) s) at ∙ last_answer i (some l) s
  jobs_answer (p ∷ init) i providers l s e =
      let at : i + suc (length init) ≡ suc i + length init = omega arith in
      let here = get_elem?_at i providers p (init ++ l ∷ []) e in
      let next = drop_next i providers p (init ++ l ∷ []) e in
      ap (λ n. last_job attempt n (some l) (retry_jobs attempt (suc (length init)) i providers s))
        at
      ∙ ap
          (λ o.
            last_job attempt (suc i + length init) (some l)
              (retry_jobs attempt (length init) (suc i) providers (retry_job attempt i o s)))
          here
      ∙ jobs_answer init (suc i) providers l (retry_job attempt i (some p) s) next
      ∙ answer_step i (some p) (map some (init ++ l ∷ [])) s

  first_step :
      (p : Option P) (rest : List (Option P)) (r : R)
      → (if (try_provider attempt 0 p).is_done
          then ended (try_provider attempt 0 p)
          else answers 1 rest (try_provider attempt 0 p).results)
        ≡ answers 0 (p ∷ rest) r
  unfolding try_provider answers
  first_step p rest r = elim (Bool-cases (attempt 0 p).failed) [
    | inl failed ↦ ground (arith, failed)
    | inr fine ↦ ground (arith, fine)
  ]

  -- `trySyncReceive` ends with the first answer without an error from the providers asked in order,
  -- or with the error of the last one.
  pub try_sync_receive-answers :
      (providers : List P) (r : R)
      → try_sync_receive attempt providers ≡ answers 0 (asked providers) r
  unfolding try_sync_receive asked
  try_sync_receive-answers [] r =
      last_answer 1 none (try_provider attempt 0 none) ∙ first_step none (none ∷ []) r
  try_sync_receive-answers (p ∷ []) r =
      last_answer 1 (some p) (try_provider attempt 0 (some p)) ∙ first_step (some p) (some p ∷ []) r
  try_sync_receive-answers (p ∷ q ∷ ps) r =
      let (init, l, e, at, size) = split_last q ps in
      let left : suc (suc (length ps)) - 2 ≡ length init = omega (arith, size) in
      let s = try_provider attempt 0 (some p) in
      ap
        (λ n.
          last_job attempt (1 + n) (get_elem? (q ∷ ps) (length ps))
            (retry_jobs attempt n 1 (p ∷ q ∷ ps) s))
        left
      ∙ ap
          (λ o.
            last_job attempt (1 + length init) o
              (retry_jobs attempt (length init) 1 (p ∷ q ∷ ps) s))
          at
      ∙ jobs_answer init 1 (p ∷ q ∷ ps) l s e
      ∙ first_step (some p) (map some (init ++ l ∷ [])) r
      ∙ ap (λ xs. answers 0 (some p ∷ map some xs) r) (sym e)
