-- ===== src/Sync/Plan.antt =====
-- What the comparison of StateSync.js finds: for each contract and index, exactly what is missing
-- and what is in excess.
use enigma_p2p.Base.{
  Occurs-append, get_elem?-drop, ℕ, zero, suc, ◌+◌, ◌-◌, ◌≤◌, String, ◌≡◌, refl, sym, ap, subst,
  ◌∙◌, ◌↔◌, ◌⊎◌, inl, inr, Option, none, some, List, [], ◌∷◌, ◌++◌, drop, get_elem?, arith, eq_iff,
  Occurs, Occurs-append_left, Occurs-append_right, Bool-cases,
}
use text.Mathlib.Text.{◌==◌ as str_eq}
use enigma_p2p.Base.Dict
use enigma_p2p.Base.Dict.{Dict, get-remove, listed, listed-keys}
use enigma_p2p.Sync.Compare.{
  RemoteContract, MissingDelta, Missing, Excess, first_missing, missing_deltas, code_hash_for,
  missing_entry, missing_of, excess_of, left_over, compare_remote,
}

-- The list asks for the delta `i` of `a`, by the hash `h`.
abbrev pub Asks : String → ℕ → String → List Missing → Type 0
Asks a i h ms =
    (m : Missing) × Occurs m ms
    × (m.address ≡ a)
    × Occurs (record { delta_hash = h; index = i }) m.deltas

missing_deltas_found :
    (first : ℕ) (hs : List String) (d : MissingDelta)
    → Occurs d (missing_deltas first hs)
    → (k : ℕ) × (d.index ≡ first + k) × (get_elem? hs k ≡ some d.delta_hash)
unfolding missing_deltas
missing_deltas_found first [] d o = absurd o
missing_deltas_found first (x ∷ xs) d (inl e) =
    (0, ap (λ m. m.index) (sym e) ∙ omega arith, ap (λ m. some m.delta_hash) e)
missing_deltas_found first (x ∷ xs) d (inr o) =
    let (k, at, e) = missing_deltas_found (suc first) xs d o in (suc k, omega (arith, at), e)

missing_deltas_listed :
    (first : ℕ) (hs : List String) (k : ℕ) (h : String)
    → get_elem? hs k ≡ some h
    → Occurs (record { delta_hash = h; index = first + k }) (missing_deltas first hs)
unfolding missing_deltas
missing_deltas_listed first [] k h e = cc e
missing_deltas_listed first (x ∷ xs) zero h e = inl (ground (arith, e))
missing_deltas_listed first (x ∷ xs) (suc k) h e =
    let same : suc first + k ≡ first + suc k = omega arith in
    inr (
      subst (λ i. Occurs (record { delta_hash = h; index = i }) (missing_deltas (suc first) xs))
        same (missing_deltas_listed (suc first) xs k h e))

-- How many deltas the local state has, by its tip.
abbrev pub local_count : Option ℕ → ℕ
local_count none = 0
local_count (some tip) = suc tip

pub first_missing_lem : (tip : Option ℕ) → first_missing tip ≡ local_count tip
unfolding first_missing
first_missing_lem none = refl
first_missing_lem (some tip) = omega arith

-- What one remote contract asks for.
abbrev pub Lacks : RemoteContract → Option ℕ → ℕ → String → Type 0
Lacks c tip i h = (local_count tip ≤ i) × (get_elem? c.delta_hashes i ≡ some h)

missing_entry-Asks :
    (b : String) (code : Option String) (ds : List MissingDelta) (a : String) (i : ℕ) (h : String)
    → Asks a i h (missing_entry b code ds)
      ↔ ((b ≡ a) × Occurs (record { delta_hash = h; index = i }) ds)
unfolding missing_entry
missing_entry-Asks b code [] a i h = ((λ q. absurd (q.1)), λ q. absurd (q.1))
missing_entry-Asks b code (d ∷ ds) a i h = (to, from)
  where
    to :
        Asks a i h (missing_entry b code (d ∷ ds))
        → (b ≡ a) × Occurs (record { delta_hash = h; index = i }) (d ∷ ds)
    to (m, inl e, named, o) = (
      ap (λ n. n.address) e ∙ named,
      subst (λ n. Occurs (record { delta_hash = h; index = i }) n.deltas) (sym e) o,
    )
    to (m, inr e, named, o) = absurd e

    from :
        (b ≡ a) × Occurs (record { delta_hash = h; index = i }) (d ∷ ds)
        → Asks a i h (missing_entry b code (d ∷ ds))
    from (e, o) = (record { address = b; deltas = d ∷ ds; bytecode_hash = code }, inl refl, e, o)

missing_of-Asks :
    (b : String) (c : RemoteContract) (tip : Option ℕ) (a : String) (i : ℕ) (h : String)
    → Asks a i h (missing_of b c tip) ↔ ((b ≡ a) × Lacks c tip i h)
unfolding missing_of
missing_of-Asks b c tip a i h = (to, from)
  where
    to : Asks a i h (missing_of b c tip) → (b ≡ a) × Lacks c tip i h
    to q =
        let first : ℕ = first_missing tip in
        let hs : List String = c.delta_hashes in
        let (named, o) =
          (missing_entry-Asks b (code_hash_for c tip) (missing_deltas first (drop first hs)) a i
              h).0
            q in
        let (k, at, e) = missing_deltas_found first (drop first hs) _ o in
        (
          named,
          (
            omega (arith, at, first_missing_lem tip),
            ap (get_elem? hs) at ∙ sym (get_elem?-drop first hs k) ∙ e,
          ),
        )

    from : (b ≡ a) × Lacks c tip i h → Asks a i h (missing_of b c tip)
    from (e, (le, at)) =
        let first : ℕ = first_missing tip in
        let hs : List String = c.delta_hashes in
        let k : ℕ = i - first in
        let back : first + k ≡ i = omega (arith, first_missing_lem tip) in
        (missing_entry-Asks b (code_hash_for c tip) (missing_deltas first (drop first hs)) a i h).1
          (
            e,
            subst
                (λ j.
                  Occurs (record { delta_hash = h; index = j })
                    (missing_deltas first (drop first hs)))
                back
                (missing_deltas_listed first (drop first hs) k h
                  (get_elem?-drop first hs k ∙ ap (get_elem? hs) back ∙ at)),
          )

-- No address twice.
abbrev pub Distinct : List String → Type 0
Distinct [] = Unit
Distinct (a ∷ others) = ¬ Occurs a others × Distinct others

module _ (params : String → Option RemoteContract) where
  -- One turn of the loop.
  pub compare_step :
      (b : String) (others : List String) (tips : Dict ℕ) (ms : List Missing) (es : List Excess)
      → compare_remote params (b ∷ others) tips ≡ some (ms, es)
      → (c : RemoteContract) × (ms' : List Missing) × (es' : List Excess) × (params b ≡ some c)
        × (compare_remote params others (Dict.remove b tips) ≡ some (ms', es'))
        × (ms ≡ missing_of b c (Dict.get b tips) ++ ms')
        × (es ≡ excess_of b c (Dict.get b tips) ++ es')
  unfolding compare_remote
  compare_step b others tips ms es h =
      go (params b) (compare_remote params others (Dict.remove b tips)) refl refl
    where
      go :
          (p : Option RemoteContract) (r : Option (List Missing × List Excess))
          → params b ≡ p
          → compare_remote params others (Dict.remove b tips) ≡ r
          → (c : RemoteContract) × (ms' : List Missing) × (es' : List Excess) × (params b ≡ some c)
            × (compare_remote params others (Dict.remove b tips) ≡ some (ms', es'))
            × (ms ≡ missing_of b c (Dict.get b tips) ++ ms')
            × (es ≡ excess_of b c (Dict.get b tips) ++ es')
      go none r e k = absurd (ground (arith, e, h))
      go (some c) none e k = absurd (ground (arith, e, k, h))
      go (some c) (some (ms', es')) e k =
          (c, ms', es', e, k, ground (arith, e, k, h), ground (arith, e, k, h))

  pub compare_end :
      (tips : Dict ℕ) (ms : List Missing) (es : List Excess)
      → compare_remote params [] tips ≡ some (ms, es)
      → (ms ≡ []) × (es ≡ left_over (Dict.keys tips) tips)
  unfolding compare_remote
  compare_end tips ms es h = (ground (arith, h), ground (arith, h))

  -- A delta that a contract of the list has and the local tips do not reach.
  abbrev pub Lacking : List String → Dict ℕ → String → ℕ → String → Type 0
  Lacking others tips a i h =
      Occurs a others × ((c : RemoteContract) × (params a ≡ some c) × Lacks c (Dict.get a tips) i h)

  pub kept_tip :
      (a b : String) (others : List String) (tips : Dict ℕ)
      → ¬ Occurs b others
      → Occurs a others
      → Dict.get a (Dict.remove b tips) ≡ Dict.get a tips
  kept_tip a b others tips new o = elim (Bool-cases (str_eq b a)) [
    | inl same ↦
        let e : b ≡ a = (eq_iff b a).0 same in absurd (new (subst (λ x. Occurs x others) (sym e) o))
    | inr other ↦ get-remove b a tips ∙ rw other refl
  ]

  Asks-append :
      (a : String) (i : ℕ) (h : String) (xs ys : List Missing)
      → Asks a i h (xs ++ ys) ↔ (Asks a i h xs ⊎ Asks a i h ys)
  Asks-append a i h xs ys = (to, from)
    where
      to : Asks a i h (xs ++ ys) → Asks a i h xs ⊎ Asks a i h ys
      to (m, o, e, d) = elim ((Occurs-append m xs ys).0 o) [
        | inl p ↦ inl (m, p, e, d)
        | inr p ↦ inr (m, p, e, d)
      ]

      from : Asks a i h xs ⊎ Asks a i h ys → Asks a i h (xs ++ ys)
      from (inl (m, o, e, d)) = (m, Occurs-append_left m xs ys o, e, d)
      from (inr (m, o, e, d)) = (m, Occurs-append_right m xs ys o, e, d)

  Asks-cons :
      (b : String) (others : List String) (tips : Dict ℕ) (ms : List Missing) (c : RemoteContract)
      (a : String) (i : ℕ) (h : String)
      → params b ≡ some c
      → ¬ Occurs b others
      → Asks a i h ms ↔ Lacking others (Dict.remove b tips) a i h
      → Asks a i h (missing_of b c (Dict.get b tips) ++ ms) ↔ Lacking (b ∷ others) tips a i h
  Asks-cons b others tips ms c a i h pb new rest = (to, from)
    where
      to : Asks a i h (missing_of b c (Dict.get b tips) ++ ms) → Lacking (b ∷ others) tips a i h
      to q = elim ((Asks-append a i h (missing_of b c (Dict.get b tips)) ms).0 q) [
        | inl here ↦
            let (e, lacks) = (missing_of-Asks b c (Dict.get b tips) a i h).0 here in
            subst (λ x. Lacking (b ∷ others) tips x i h) e (inl refl, (c, pb, lacks))
        | inr later ↦
            let (o, (c', pc, lacks)) = rest.0 later in
            (inr o, (c', pc, subst (λ t. Lacks c' t i h) (kept_tip a b others tips new o) lacks))
      ]

      from : Lacking (b ∷ others) tips a i h → Asks a i h (missing_of b c (Dict.get b tips) ++ ms)
      from (inl e, (c', pc, lacks)) =
          let same : c' ≡ c = cc in
          (Asks-append a i h (missing_of b c (Dict.get b tips)) ms).1 (
            inl (
              (missing_of-Asks b c (Dict.get b tips) a i h).1 (
                e,
                subst (λ x. Lacks x (Dict.get b tips) i h) same
                    (subst (λ x. Lacks c' (Dict.get x tips) i h) (sym e) lacks),
              )))
      from (inr o, (c', pc, lacks)) = (Asks-append a i h (missing_of b c (Dict.get b tips)) ms).1 (
          inr (
            rest.1 (
              o,
              (c', pc, subst (λ t. Lacks c' t i h) (sym (kept_tip a b others tips new o)) lacks),
            )))

  -- The list of what is missing asks exactly for the deltas that a contract of the chain has at an
  -- index beyond the local tip, each by the contract's hash for it; where no address is listed
  -- twice and the calls of the contract succeed.
  pub compare_remote-Asks :
      (others : List String) (tips : Dict ℕ) (ms : List Missing) (es : List Excess)
      → Distinct others
      → compare_remote params others tips ≡ some (ms, es)
      → (a : String) (i : ℕ) (h : String) → Asks a i h ms ↔ Lacking others tips a i h
  compare_remote-Asks [] tips ms es d r a i h =
      subst (λ l. Asks a i h l ↔ Lacking [] tips a i h) (sym (compare_end tips ms es r).0)
        ((λ q. absurd (q.1)), λ q. absurd (q.0))
  compare_remote-Asks (b ∷ others) tips ms es d r a i h =
      let (c, ms', es', pb, r', em, ee) = compare_step b others tips ms es r in
      subst (λ l. Asks a i h l ↔ Lacking (b ∷ others) tips a i h) (sym em)
        (Asks-cons b others tips ms' c a i h pb d.0
          (compare_remote-Asks others (Dict.remove b tips) ms' es' d.1 r' a i h))
