-- ===== src/Sync/Surplus.antt =====
-- What the comparison of StateSync.js finds in excess in the local state.
use text.Mathlib.Text.{◌==◌ as str_eq}
use enigma_p2p.Base.{
  Occurs-append, ℕ, ◌+◌, ◌≤◌, String, ◌≡◌, ◌≢◌, refl, sym, ap, subst, ◌∙◌, ◌↔◌, ◌⊎◌, inl, inr, true,
  Option, none, some, List, [], ◌∷◌, ◌++◌, ltb, length, arith, eq_iff, Occurs, Occurs-append_left,
  Occurs-append_right, Bool-cases, Option-cases,
}
use enigma_p2p.Base.Dict
use enigma_p2p.Base.Dict.{Dict, get-remove, get-remove_self, listed, listed-keys}
use enigma_p2p.Sync.Compare.{
  RemoteContract, Missing, Excess, before, excess_of, left_over, compare_remote,
}
use enigma_p2p.Sync.Plan.{Distinct, compare_step, compare_end, kept_tip}

listed-Occurs : (a : String) (js : List String) → listed a js ≡ true → Occurs a js
listed-Occurs a [] h = cc h
listed-Occurs a (j ∷ js) h = elim (Bool-cases (str_eq j a)) [
  | inl same ↦ inl ((eq_iff j a).0 same)
  | inr other ↦ inr (listed-Occurs a js (ground (arith, other, h)))
]

excess_ext :
    (e : Excess) (a : String) (r : Option ℕ) (l : ℕ)
    → e.address ≡ a
    → e.remote_tip ≡ r
    → e.local_tip ≡ l
    → record { address = a; remote_tip = r; local_tip = l } ≡ e
excess_ext e a r l p q s = rw (← p, ← q, ← s) refl

-- The local tip is beyond what the contract has.
abbrev pub Beyond : RemoteContract → Option ℕ → Excess → Type 0
Beyond c tip e =
    (tip ≡ some e.local_tip)
    × (length c.delta_hashes ≤ e.local_tip)
    × (e.remote_tip ≡ before (length c.delta_hashes))

excess_of-Occurs :
    (b : String) (c : RemoteContract) (tip : Option ℕ) (e : Excess)
    → Occurs e (excess_of b c tip) ↔ ((b ≡ e.address) × Beyond c tip e)
unfolding excess_of
excess_of-Occurs b c none e = ((λ o. absurd o), λ q. cc (q.1.0))
excess_of-Occurs b c (some tip) e = elim (Bool-cases (ltb (length c.delta_hashes) (tip + 1))) [
  | inl beyond ↦ rw beyond (
    (λ o. elim o [
      | inl q ↦ (
        ap (λ x. x.address) q,
        (
          ap (λ x. some x.local_tip) q,
          ground (arith, ap (λ x. x.local_tip) q),
          sym (ap (λ x. x.remote_tip) q),
        ),
      )
      | inr q ↦ absurd q
    ]),
    λ q. inl (
        excess_ext e b (before (length c.delta_hashes)) tip (sym q.0) q.1.2
          (ground (arith, q.1.0))),
  )
  | inr within ↦ rw within ((λ o. absurd o), λ q. absurd (ground (arith, q.1.0, q.1.1)))
]

left_over_skip :
    (a : String) (ids : List String) (tips : Dict ℕ)
    → Dict.get a tips ≡ none
    → left_over (a ∷ ids) tips ≡ left_over ids tips
unfolding left_over
left_over_skip a ids tips h = rw (h, left_over) refl

left_over_take :
    (a : String) (ids : List String) (tips : Dict ℕ) (tip : ℕ)
    → Dict.get a tips ≡ some tip
    → left_over (a ∷ ids) tips
      ≡ record { address = a; remote_tip = none; local_tip = tip } ∷ left_over ids tips
unfolding left_over
left_over_take a ids tips tip h = rw (h, left_over) refl

left_over-Occurs :
    (ids : List String) (tips : Dict ℕ) (e : Excess)
    → Occurs e (left_over ids tips) ↔ (
        Occurs e.address ids × (Dict.get e.address tips ≡ some e.local_tip) × (e.remote_tip ≡ none))
left_over-Occurs [] tips e = ((λ o. absurd (unfold left_over in o)), λ q. absurd (q.0))
left_over-Occurs (a ∷ ids) tips e = elim (Option-cases (Dict.get a tips)) [
  | inl missing ↦ rw (left_over_skip a ids tips missing) (
    (λ o. let (w, at, r) = (left_over-Occurs ids tips e).0 o in (inr w, at, r)),
    λ q. elim (q.0) [
      | inl same ↦ absurd (absent same missing q.1)
      | inr w ↦ (left_over-Occurs ids tips e).1 (w, q.1, q.2)
    ],
  )
  | inr (tip, found) ↦ rw (left_over_take a ids tips tip found) (
    (λ o. elim o [
      | inl q ↦ (
        inl (ap (λ x. x.address) q),
        subst (λ x. Dict.get x.address tips ≡ some x.local_tip) q found,
        sym (ap (λ x. x.remote_tip) q),
      )
      | inr w ↦ let (v, at, r) = (left_over-Occurs ids tips e).0 w in (inr v, at, r)
    ]),
    λ q. elim (q.0) [
      | inl same ↦ inl (excess_ext e a none tip (sym same) q.2 (present same found q.1))
      | inr w ↦ inr ((left_over-Occurs ids tips e).1 (w, q.1, q.2))
    ],
  )
]
  where
    absent : a ≡ e.address → Dict.get a tips ≡ none → Dict.get e.address tips ≡ some e.local_tip → ⊥
    absent same missing found = cc (sym missing ∙ ap (λ x. Dict.get x tips) same ∙ found)

    present :
        {tip : ℕ}
        → a ≡ e.address
        → Dict.get a tips ≡ some tip
        → Dict.get e.address tips ≡ some e.local_tip
        → e.local_tip ≡ tip
    present {tip} same at found =
        let q : some tip ≡ some e.local_tip = sym at ∙ ap (λ x. Dict.get x tips) same ∙ found in cc

other_tip :
    (a b : String) (tips : Dict ℕ) → b ≢ a → Dict.get a (Dict.remove b tips) ≡ Dict.get a tips
other_tip a b tips other = ground (arith, get-remove b a tips, eq_iff b a)

not_removed :
    (a b : String) (tips : Dict ℕ) (t : ℕ) → Dict.get a (Dict.remove b tips) ≡ some t → b ≢ a
not_removed a b tips t found same =
    let gone : Dict.get a (Dict.remove b tips) ≡ none =
      subst (λ x. Dict.get x (Dict.remove b tips) ≡ none) same (get-remove_self b tips) in
    cc

keys-Occurs :
    (a : String) (tips : Dict ℕ) (t : ℕ) → Dict.get a tips ≡ some t → Occurs a (Dict.keys tips)
keys-Occurs a tips t found = listed-Occurs a (Dict.keys tips) (ground (arith, listed-keys a tips))

module _ (params : String → Option RemoteContract) where
  -- A contract of the chain that the local state is beyond, or one that the chain does not have.
  abbrev pub Exceeding : List String → Dict ℕ → Excess → Type 0
  Exceeding others tips e =
      (Occurs e.address others
        × ((c : RemoteContract) × (params e.address ≡ some c)
            × Beyond c (Dict.get e.address tips) e))
      ⊎ ((¬ Occurs e.address others)
          × (Dict.get e.address tips ≡ some e.local_tip)
          × (e.remote_tip ≡ none))

  Exceeding-end :
      (tips : Dict ℕ) (e : Excess)
      → Occurs e (left_over (Dict.keys tips) tips) ↔ Exceeding [] tips e
  Exceeding-end tips e = (to, from)
    where
      to : Occurs e (left_over (Dict.keys tips) tips) → Exceeding [] tips e
      to o =
          let (_, at, r) = (left_over-Occurs (Dict.keys tips) tips e).0 o in inr ((λ q. q), at, r)

      from : Exceeding [] tips e → Occurs e (left_over (Dict.keys tips) tips)
      from (inl (o, _)) = absurd o
      from (inr (_, at, r)) =
          (left_over-Occurs (Dict.keys tips) tips e).1
            (keys-Occurs e.address tips e.local_tip at, at, r)

  Exceeding-cons :
      (b : String) (others : List String) (tips : Dict ℕ) (es : List Excess) (c : RemoteContract)
      (e : Excess)
      → params b ≡ some c
      → ¬ Occurs b others
      → Occurs e es ↔ Exceeding others (Dict.remove b tips) e
      → Occurs e (excess_of b c (Dict.get b tips) ++ es) ↔ Exceeding (b ∷ others) tips e
  Exceeding-cons b others tips es c e pb new rest = (to, from)
    where
      later : Exceeding others (Dict.remove b tips) e → Exceeding (b ∷ others) tips e
      later (inl (o, (c', pc, beyond))) = inl (
        inr o,
        (c', pc, subst (λ t. Beyond c' t e) (kept_tip params e.address b others tips new o) beyond),
      )
      later (inr (out, at, r)) =
          let other = not_removed e.address b tips e.local_tip at in
          inr (
            (λ o. elim o [ inl same ↦ other same | inr q ↦ out q ]),
            sym (other_tip e.address b tips other) ∙ at,
            r,
          )

      to : Occurs e (excess_of b c (Dict.get b tips) ++ es) → Exceeding (b ∷ others) tips e
      to o = elim ((Occurs-append e (excess_of b c (Dict.get b tips)) es).0 o) [
        | inl here ↦
            let (same, beyond) = (excess_of-Occurs b c (Dict.get b tips) e).0 here in
            inl (
              inl same,
              (c, ap params (sym same) ∙ pb, subst (λ x. Beyond c (Dict.get x tips) e) same beyond),
            )
        | inr q ↦ later (rest.0 q)
      ]

      from : Exceeding (b ∷ others) tips e → Occurs e (excess_of b c (Dict.get b tips) ++ es)
      from (inl (inl same, (c', pc, beyond))) =
          let one : c' ≡ c = cc in
          Occurs-append_left e (excess_of b c (Dict.get b tips)) es (
            (excess_of-Occurs b c (Dict.get b tips) e).1 (
              same,
              subst (λ x. Beyond x (Dict.get b tips) e) one
                  (subst (λ x. Beyond c' (Dict.get x tips) e) (sym same) beyond),
            ))
      from (inl (inr o, (c', pc, beyond))) =
          Occurs-append_right e (excess_of b c (Dict.get b tips)) es (
            rest.1 (
              inl (
                o,
                (
                  c',
                  pc,
                  subst (λ t. Beyond c' t e) (sym (kept_tip params e.address b others tips new o))
                      beyond,
                ),
              )))
      from (inr (out, at, r)) = Occurs-append_right e (excess_of b c (Dict.get b tips)) es (
          rest.1
            (inr ((λ o. out (inr o)), other_tip e.address b tips (λ same. out (inl same)) ∙ at, r)))

  -- The list of what is in excess holds exactly the contracts of the chain whose local tip is beyond
  -- the chain's last delta, with both tips, and the local contracts that the chain does not have,
  -- with the remote tip -1; where no address is listed twice and the calls of the contract succeed.
  pub compare_remote-Exceeding :
      (others : List String) (tips : Dict ℕ) (ms : List Missing) (es : List Excess)
      → Distinct others
      → compare_remote params others tips ≡ some (ms, es)
      → (e : Excess) → Occurs e es ↔ Exceeding others tips e
  compare_remote-Exceeding [] tips ms es d r e =
      subst (λ l. Occurs e l ↔ Exceeding [] tips e) (sym (compare_end params tips ms es r).1)
        (Exceeding-end tips e)
  compare_remote-Exceeding (b ∷ others) tips ms es d r e =
      let (c, ms', es', pb, r', em, ee) = compare_step params b others tips ms es r in
      subst (λ l. Occurs e l ↔ Exceeding (b ∷ others) tips e) (sym ee)
        (Exceeding-cons b others tips es' c e pb d.0
          (compare_remote-Exceeding others (Dict.remove b tips) ms' es' d.1 r' e))
