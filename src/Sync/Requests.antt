-- ===== src/Sync/Requests.antt =====
-- The requests that the synchronisation sends: StateSync.js and LocalMissingStatesResult.js together.
use mathlib.Core.List.{append-nil}
use enigma_p2p.Base.{
  Occurs-append, ℕ, ◌+◌, ◌<◌, String, ◌≡◌, refl, sym, ap, subst, ◌∙◌, inl, inr, false, Option, none,
  some, List, [], ◌∷◌, ◌++◌, ◌==◌, arith, Occurs, drop, length, length-drop,
}
use enigma_p2p.Base.Dict
use enigma_p2p.Base.Dict.{Dict}
use enigma_p2p.Sync.Compare.{
  RemoteContract, MissingDelta, Missing, Excess, first_missing, missing_deltas, code_hash_for,
  missing_entry, missing_of, compare_remote,
}
use enigma_p2p.Sync.Plan.{
  local_count, first_missing_lem, Distinct, compare_step, compare_end, kept_tip,
}
use enigma_p2p.Sync.Ranges.{
  Range, Request, bytecode_request, state_requests, parse_state_req_msgs, is_bcode_request,
  requests_of,
}
use enigma_p2p.Sync.Covered.{Covers, length-missing_deltas, parse_state_req_msgs-Covers}

missing_entry_form :
    (b : String) (code : Option String) (ds : List MissingDelta) (m : Missing)
    → Occurs m (missing_entry b code ds)
    → (b ≡ m.address) × (m.deltas ≡ ds) × (0 < length ds)
unfolding missing_entry
missing_entry_form b code [] m o = absurd o
missing_entry_form b code (d ∷ ds) m (inl q) =
    (ap (λ x. x.address) q, sym (ap (λ x. x.deltas) q), omega arith)
missing_entry_form b code (d ∷ ds) m (inr o) = absurd o

-- The deltas of an entry: the contract's hashes from the first that is missing, of which there is one.
abbrev pub Follows : RemoteContract → Option ℕ → Missing → Type 0
Follows c tip m =
    (m.deltas ≡ missing_deltas (first_missing tip) (drop (first_missing tip) c.delta_hashes))
    × (first_missing tip < length c.delta_hashes)

missing_of-Follows :
    (b : String) (c : RemoteContract) (tip : Option ℕ) (m : Missing)
    → Occurs m (missing_of b c tip)
    → (b ≡ m.address) × Follows c tip m
unfolding missing_of
missing_of-Follows b c tip m o =
    let first : ℕ = first_missing tip in
    let (named, deltas, some_left) =
      missing_entry_form b (code_hash_for c tip) (missing_deltas first (drop first c.delta_hashes))
        m o in
    (
      named,
      (
        deltas,
        omega (
          arith,
          some_left,
          length-missing_deltas first (drop first c.delta_hashes),
          length-drop first c.delta_hashes,
        ),
      ),
    )

-- The bytecode is asked for where there is no local tip.
abbrev pub code_requests : String → Option ℕ → List Request
code_requests a none = bytecode_request a ∷ []
code_requests a (some tip) = []

first_request :
    (tip : Option ℕ) (hs : List String)
    → 0 < length hs
    → is_bcode_request (missing_deltas (first_missing tip) hs) ≡ some (first_missing tip == 0)
unfolding is_bcode_request missing_deltas
first_request tip [] pos = absurd (omega arith)
first_request tip (h ∷ hs) pos = refl

requests_of_lem :
    (m : Missing) (tip : Option ℕ) (rs : List Range)
    → parse_state_req_msgs m.address m.deltas ≡ some rs
    → is_bcode_request m.deltas ≡ some (first_missing tip == 0)
    → requests_of m ≡ some (state_requests rs ++ code_requests m.address tip)
unfolding requests_of first_missing
requests_of_lem m none rs p q = rw (p, q) refl
requests_of_lem m (some tip) rs p q =
    let positive : (tip + 1 == 0) ≡ false = ground arith in
    rw (p, q, append-nil (state_requests rs)) (rw positive refl)

module _ (params : String → Option RemoteContract) where
  pub missing_form :
      (others : List String) (tips : Dict ℕ) (ms : List Missing) (es : List Excess)
      → Distinct others
      → compare_remote params others tips ≡ some (ms, es)
      → (m : Missing) → Occurs m ms
      → Occurs m.address others
        × ((c : RemoteContract) × (params m.address ≡ some c)
            × Follows c (Dict.get m.address tips) m)
  missing_form [] tips ms es d r m o =
      absurd (subst (Occurs m) (compare_end params tips ms es r).0 o)
  missing_form (b ∷ others) tips ms es d r m o =
      let (c, ms', es', pb, r', em, ee) = compare_step params b others tips ms es r in
      elim ((Occurs-append m (missing_of b c (Dict.get b tips)) ms').0 (subst (Occurs m) em o)) [
        | inl here ↦
            let (named, form) = missing_of-Follows b c (Dict.get b tips) m here in
            (
              inl named,
              (
                c,
                ap params (sym named) ∙ pb,
                subst (λ x. Follows c (Dict.get x tips) m) named form,
              ),
            )
        | inr later ↦
            let (at, (c', pc, form)) =
              missing_form others (Dict.remove b tips) ms' es' d.1 r' m later in
            (
              inr at,
              (
                c',
                pc,
                subst (λ t. Follows c' t m) (kept_tip params m.address b others tips d.0 at) form,
              ),
            )
      ]

  -- The requests for an entry that the comparison found, where no address is listed twice: they are
  -- built without an exception; their ranges lead, one after another, from the first delta that the
  -- local state lacks to the last that the contract has, none empty or above the limit; and the
  -- bytecode is asked for exactly if there is no local tip.
  pub requests_of-Covers :
      (others : List String) (tips : Dict ℕ) (ms : List Missing) (es : List Excess)
      → Distinct others
      → compare_remote params others tips ≡ some (ms, es)
      → (m : Missing) → Occurs m ms
      → (c : RemoteContract) × (rs : List Range) × (params m.address ≡ some c)
        × (requests_of m
            ≡ some (state_requests rs ++ code_requests m.address (Dict.get m.address tips)))
        × Covers m.address (local_count (Dict.get m.address tips)) (length c.delta_hashes) rs
  requests_of-Covers others tips ms es d r m o =
      let (_, (c, pc, (deltas, less))) = missing_form others tips ms es d r m o in
      let tip : Option ℕ = Dict.get m.address tips in
      let first : ℕ = first_missing tip in
      let hs : List String = drop first c.delta_hashes in
      let (rs, built, covers) = parse_state_req_msgs-Covers m.address first hs in
      let end : first + length hs ≡ length c.delta_hashes =
        omega (arith, less, length-drop first c.delta_hashes) in
      (
        c,
        rs,
        pc,
        requests_of_lem m tip rs (ap (parse_state_req_msgs m.address) deltas ∙ built) (
            ap is_bcode_request deltas
            ∙ first_request tip hs (omega (arith, less, length-drop first c.delta_hashes))),
        subst (λ i. Covers m.address i (length c.delta_hashes) rs) (first_missing_lem tip)
            (subst (λ i. Covers m.address first i rs) end covers),
      )
