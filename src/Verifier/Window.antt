-- ===== src/Verifier/Window.antt =====
-- What the array of epoch parameters holds: sorting a rotated array, the bounded window over the
-- epochs seen, and the epoch that a block belongs to.
use enigma_p2p.Base.{
  tests, ltb→lt, All-Occurs, Occurs, drop-drop, All-map_of, ℕ, suc, ◌+◌, ◌-◌, ◌≤◌, ◌<◌, ◌≡◌, refl,
  sym, ap, ◌∙◌, inl, inr, true, Option, none, some, List, [], ◌∷◌, ◌++◌, arith, ltb, ◌==◌,
  if◌then◌else◌, is_some, length, drop, All, drop-append, length-drop, length-append, Bool-cases,
}
use mathlib.Core.List.{append_assoc, append-nil}
use enigma_p2p.Verifier.Params.{
  EpochParams, lt_block, validate_worker_params, smallest_index, rotate, sort_worker_params,
  find_from_end, find_worker_param, push_params,
}

abbrev pub block_of : EpochParams → ℕ
block_of p = elim p.first_block [ none ↦ 0 | some b ↦ b ]

abbrev pub Known : EpochParams → Type 0
Known p = is_some p.first_block ≡ true

-- Each entry has a block number, and they do not fall along the list.
abbrev pub Ascending : List EpochParams → Type 0
Ascending [] = Unit
Ascending (p ∷ ps) = Known p × All (λ q. block_of p ≤ block_of q) ps × Ascending ps

-- Every entry of the first list lies before every entry of the second.
abbrev pub Before : List EpochParams → List EpochParams → Type 0
Before ps qs = All (λ p. All (λ q. block_of p < block_of q) qs) ps

no_fall :
    (i : ℕ) (p : EpochParams) (ps : List EpochParams)
    → Ascending (p ∷ ps)
    → smallest_index i p ps ≡ 0
unfolding smallest_index
no_fall i p [] h = refl
no_fall i p (q ∷ qs) h = ground (arith, no_fall (suc i) q qs h.2)

falls_at :
    (i : ℕ) (p : EpochParams) (ps : List EpochParams) (z : EpochParams) (zs : List EpochParams)
    → Ascending (p ∷ ps)
    → Known z
    → All (λ q. block_of z < block_of q) (p ∷ ps)
    → smallest_index i p (ps ++ z ∷ zs) ≡ i + length ps
unfolding smallest_index
falls_at i p [] z zs h k b = ground arith
falls_at i p (q ∷ qs) z zs h k b = ground (arith, falls_at (suc i) q qs z zs h.2 k b.1)

rotate-append : (ps qs : List EpochParams) → rotate (length ps) (ps ++ qs) ≡ qs ++ ps
unfolding rotate
rotate-append [] qs = sym (append-nil qs)
rotate-append (p ∷ ps) qs =
    ap (rotate (length ps)) (append_assoc ps qs (p ∷ []))
    ∙ rotate-append ps (qs ++ p ∷ [])
    ∙ append_assoc qs (p ∷ []) ps

-- An array that holds an ascending list from some place on, and goes on from its start, is put in
-- ascending order.
pub sort-rotated :
    (ys zs : List EpochParams)
    → Ascending zs
    → Ascending ys
    → Before zs ys
    → sort_worker_params (ys ++ zs) ≡ zs ++ ys
unfolding sort_worker_params
sort-rotated [] [] a b c = refl
sort-rotated [] (z ∷ zs) a b c = rw (no_fall 1 z zs a, append-nil zs)
sort-rotated (y ∷ ys) [] a b c = rw (append-nil ys, no_fall 1 y ys b)
sort-rotated (y ∷ ys) (z ∷ zs) a b c =
    let one_more : 1 + length ys ≡ suc (length ys) = omega arith in
    rw (falls_at 1 y ys z zs b a.0 c.0, one_more) (rotate-append (y ∷ ys) (z ∷ zs))

-- The last `max` elements.
abbrev pub keep_last {ℓ} : {A : Type ℓ} → ℕ → List A → List A
keep_last max xs = drop (length xs - max) xs

keep_last-append {ℓ} :
    {A : Type ℓ} (max : ℕ) (xs ys : List A)
    → keep_last max (keep_last max xs ++ ys) ≡ keep_last max (xs ++ ys)
keep_last-append max xs ys =
    let k : ℕ = length xs - max in
    ap (keep_last max) (sym (drop-append k xs ys (omega arith)))
    ∙ drop-drop (length (drop k (xs ++ ys)) - max) k (xs ++ ys)
    ∙ ap (λ n. drop n (xs ++ ys)) (omega (arith, length-drop k (xs ++ ys), length-append xs ys))

length-keep_last {ℓ} : {A : Type ℓ} (max : ℕ) (xs : List A) → length (keep_last max xs) ≤ max
length-keep_last max xs = omega (arith, length-drop (length xs - max) xs)

keep_last_short {ℓ} : {A : Type ℓ} (max : ℕ) (xs : List A) → length xs ≤ max → keep_last max xs ≡ xs
keep_last_short max xs h = let e : length xs - max ≡ 0 = omega arith in ap (λ n. drop n xs) e

-- The array after a series of epoch events.
pub push_all : ℕ → List EpochParams → List EpochParams → List EpochParams
push_all max ps [] = ps
push_all max ps (e ∷ es) = push_all max (push_params max ps e) es

pub valid_events : List EpochParams → List EpochParams
valid_events [] = []
valid_events (e ∷ es) = if validate_worker_params e then e ∷ valid_events es else valid_events es

valid_events_cons :
    (e : EpochParams) (es : List EpochParams)
    → valid_events (e ∷ es) ≡ valid_events (e ∷ []) ++ valid_events es
unfolding valid_events
valid_events_cons e es = ground arith

push_params-keep_last :
    (max : ℕ) (ps : List EpochParams) (e : EpochParams)
    → length ps ≤ max
    → push_params max ps e ≡ keep_last max (ps ++ valid_events (e ∷ []))
unfolding push_params valid_events
push_params-keep_last max ps e h = elim (Bool-cases (validate_worker_params e)) [
  | inl ok ↦ rw ok (elim (Bool-cases (ltb max (length (ps ++ e ∷ [])))) [
    | inl long ↦
        let one : length (ps ++ e ∷ []) - max ≡ 1 =
          omega (tests, length-append ps (e ∷ []), ltb→lt _ _ long) in
        rw (long, one)
    | inr short ↦ rw short (sym (keep_last_short max (ps ++ e ∷ []) (ground arith)))
  ])
  | inr bad ↦ rw (bad, append-nil ps) (sym (keep_last_short max ps h))
]

-- After any series of epoch events the array holds the last `max` of those that are valid, oldest
-- first, behind what it held before.
pub push_all-keep_last :
    (max : ℕ) (ps es : List EpochParams)
    → length ps ≤ max
    → push_all max ps es ≡ keep_last max (ps ++ valid_events es)
unfolding push_all valid_events
push_all-keep_last max ps [] h =
    sym (keep_last_short max ps h) ∙ ap (keep_last max) (sym (append-nil ps))
push_all-keep_last max ps (e ∷ es) h =
    let pushed = push_params-keep_last max ps e h in
    push_all-keep_last max (push_params max ps e) es
      (rw pushed (length-keep_last max (ps ++ valid_events (e ∷ []))))
    ∙ ap (λ l. keep_last max (l ++ valid_events es)) pushed
    ∙ keep_last-append max (ps ++ valid_events (e ∷ [])) (valid_events es)
    ∙ ap (keep_last max) (
        append_assoc ps (valid_events (e ∷ [])) (valid_events es)
        ∙ ap (λ l. ps ++ l) (sym (valid_events_cons e es)))

-- `p` is an entry of `ps` that starts below `block`, and none that starts below it starts later.
pub record IsLatest (block : ℕ) (ps : List EpochParams) (p : EpochParams) : Type 0 where
  pub entry : Occurs p ps
  pub starts : block_of p < block
  pub latest : All (λ q. block_of q < block → block_of q ≤ block_of p) ps

-- What the search finds in an ascending list: the epoch in which `block` lies, and nothing only
-- where no epoch starts below it.
abbrev pub Finds : ℕ → List EpochParams → Option EpochParams → Type 0
Finds block ps none = All (λ q. block ≤ block_of q) ps
Finds block ps (some p) = IsLatest block ps p

find_step :
    (block : ℕ) (p : EpochParams) (ps : List EpochParams) (found : Option EpochParams)
    → Ascending (p ∷ ps)
    → Finds block ps found
    → Finds block (p ∷ ps) (elim found [
      | some q ↦ some q
      | none ↦ if lt_block p.first_block (some block) then some p else none
    ])
unfolding lt_block
find_step block p ps (some q) a ih = record {
  entry = inr ih.entry;
  starts = ih.starts;
  latest = (λ _. All-Occurs (λ r. block_of p ≤ block_of r) ps a.1 ih.entry, ih.latest);
}
find_step block p ps none a ih = elim (Bool-cases (lt_block p.first_block (some block))) [
  | inl below ↦ rw below (record {
    entry = inl refl;
    starts = ground arith;
    latest =
        (λ _. omega arith, All-map_of (λ q. block ≤ block_of q) _ ps (λ q h k. omega arith) ih);
  })
  | inr above ↦ rw above (ground arith, ih)
]

find_from_end-Finds :
    (block : ℕ) (ps : List EpochParams) → Ascending ps → Finds block ps (find_from_end block ps)
unfolding find_from_end
find_from_end-Finds block [] a = tt
find_from_end-Finds block (p ∷ ps) a =
    find_step block p ps (find_from_end block ps) a (find_from_end-Finds block ps a.2)

-- For a task that has a block number other than 0, in an ascending array: `_findWorkerParamForTask`
-- returns the latest epoch that starts below the block, and `null` only if every epoch starts at
-- the block or later.
pub find_worker_param-Finds :
    (block : ℕ) (ps : List EpochParams)
    → 0 < block
    → Ascending ps
    → Finds block ps (find_worker_param (some block) ps)
unfolding find_worker_param
find_worker_param-Finds block ps h a = elim (Bool-cases (block == 0)) [
  | inl zero_block ↦ absurd (ground arith)
  | inr other ↦ rw other (find_from_end-Finds block ps a)
]
