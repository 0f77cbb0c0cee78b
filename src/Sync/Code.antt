-- ===== src/Sync/Code.antt =====
-- The bytecode that is received and accepted: StateSync.js and StateSyncReqVerifier.js together.
use enigma_p2p.Base.{
  Occurs-append, ℕ, String, ◌≡◌, refl, sym, ap, subst, ◌∙◌, inl, inr, Option, none, some, List, [],
  ◌∷◌, arith, Occurs, drop,
}
use enigma_p2p.Base.Dict
use enigma_p2p.Base.Dict.{Dict}
use enigma_p2p.Sync.Compare.{
  RemoteContract, MissingDelta, Missing, Excess, first_missing, missing_deltas, code_hash_for,
  missing_entry, missing_of, compare_remote,
}
use enigma_p2p.Sync.Plan.{Distinct, compare_step, compare_end, kept_tip}
use enigma_p2p.Sync.Accept.{
  MissingState, transform_missing_states, bytecode_response, unknown_address, verify,
}
use enigma_p2p.Sync.Received.{transform_found, check_hash-none}

missing_entry_code :
    (b : String) (code : Option String) (ds : List MissingDelta) (m : Missing) (k : String)
    → Occurs m (missing_entry b code ds)
    → m.bytecode_hash ≡ some k
    → (b ≡ m.address) × (code ≡ some k)
unfolding missing_entry
missing_entry_code b code [] m k o e = absurd o
missing_entry_code b code (d ∷ ds) m k (inl q) e =
    (ap (λ x. x.address) q, ap (λ x. x.bytecode_hash) q ∙ e)
missing_entry_code b code (d ∷ ds) m k (inr o) e = absurd o

missing_of_code :
    (b : String) (c : RemoteContract) (tip : Option ℕ) (m : Missing) (k : String)
    → Occurs m (missing_of b c tip)
    → m.bytecode_hash ≡ some k
    → (b ≡ m.address) × (tip ≡ none) × (c.code_hash ≡ k)
unfolding missing_of code_hash_for
missing_of_code b c none m k o e =
    let (named, code) =
      missing_entry_code b (some c.code_hash) (missing_deltas 0 (drop 0 c.delta_hashes)) m k o e in
    (named, refl, cc)
missing_of_code b c (some tip) m k o e =
    let (named, code) =
      missing_entry_code b none
        (missing_deltas (first_missing (some tip)) (drop (first_missing (some tip)) c.delta_hashes))
        m k o e in
    absurd (cc code)

module _ (params : String → Option RemoteContract) where
  -- A contract of the list that the local state has nothing of, by the hash of its code.
  abbrev pub LacksCode : List String → Dict ℕ → String → String → Type 0
  LacksCode others tips a k =
      Occurs a others
      × (Dict.get a tips ≡ none)
      × ((c : RemoteContract) × (params a ≡ some c) × (c.code_hash ≡ k))

  missing_code :
      (others : List String) (tips : Dict ℕ) (ms : List Missing) (es : List Excess)
      → Distinct others
      → compare_remote params others tips ≡ some (ms, es)
      → (m : Missing) (k : String) → Occurs m ms
      → m.bytecode_hash ≡ some k
      → LacksCode others tips m.address k
  missing_code [] tips ms es d r m k o e =
      absurd (subst (Occurs m) (compare_end params tips ms es r).0 o)
  missing_code (b ∷ others) tips ms es d r m k o e =
      let (c, ms', es', pb, r', em, ee) = compare_step params b others tips ms es r in
      elim ((Occurs-append m (missing_of b c (Dict.get b tips)) ms').0 (subst (Occurs m) em o)) [
        | inl here ↦
            let (named, fresh, code) = missing_of_code b c (Dict.get b tips) m k here e in
            subst (λ x. LacksCode (b ∷ others) tips x k) named (inl refl, fresh, (c, pb, code))
        | inr later ↦
            let (at, fresh, rest) =
              missing_code others (Dict.remove b tips) ms' es' d.1 r' m k later e in
            (inr at, sym (kept_tip params m.address b others tips d.0 at) ∙ fresh, rest)
      ]

  -- Whatever a peer sends, a bytecode that passes the verification is the code of a contract of the
  -- chain, by the contract's hash, of which the local state has nothing. The missing states are
  -- those that the comparison found, where no address is listed twice.
  pub verify-LacksCode :
      (hash : List ℕ → String) (others : List String) (tips : Dict ℕ) (ms : List Missing)
      (es : List Excess) (address : String) (bytes : List ℕ)
      → Distinct others
      → compare_remote params others tips ≡ some (ms, es)
      → verify hash (transform_missing_states ms []) (bytecode_response address bytes) ≡ none
      → LacksCode others tips address (hash bytes)
  unfolding verify
  verify-LacksCode hash others tips ms es address bytes distinct compared ok =
      go (Dict.get address (transform_missing_states ms [])) refl
    where
      go :
          (o : Option MissingState)
          → Dict.get address (transform_missing_states ms []) ≡ o
          → LacksCode others tips address (hash bytes)
      go none q = absurd (ground (arith, q, ok))
      go (some s) q =
          let code =
            check_hash-none hash s.bytecode_hash unknown_address bytes (ground (arith, q, ok)) in
          elim (transform_found ms [] address s q) [
            | inl (n, o, named, same) ↦
                subst (λ x. LacksCode others tips x (hash bytes)) named
                  (missing_code others tips ms es distinct compared n (hash bytes) o
                    (sym (ap (λ x. x.bytecode_hash) same) ∙ code))
            | inr nothing ↦ absurd (unfold Dict.get in cc nothing)
          ]
