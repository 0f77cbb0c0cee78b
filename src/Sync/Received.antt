-- ===== src/Sync/Received.antt =====
-- What is received and accepted is what the chain holds: StateSync.js and StateSyncReqVerifier.js
-- together.
use text.Mathlib.Text.{◌==◌ as str_eq}
use enigma_p2p.Base.{
  ℕ, String, ◌≡◌, refl, sym, subst, ◌∙◌, ◌⊎◌, inl, inr, Bool, true, false, Option, none, some, List,
  [], ◌∷◌, ◌==◌, if◌then◌else◌, arith, eq_iff, Occurs, All, All-map_of, Bool-cases,
}
use enigma_p2p.Base.Dict
use enigma_p2p.Base.Dict.{Dict, get-put}
use enigma_p2p.Sync.Compare.{RemoteContract, MissingDelta, Missing, Excess, compare_remote}
use enigma_p2p.Sync.Plan.{Distinct, Asks, Lacking, compare_remote-Asks}
use enigma_p2p.Sync.Accept.{
  MissingState, deltas_map, transform_missing_states, ReceivedDelta, SyncFault, unknown_index,
  state_response, check_hash, check_received, check_all, verify,
}

delta_ext :
    (d : MissingDelta) (h : String) (i : ℕ)
    → d.index ≡ i
    → d.delta_hash ≡ h
    → d ≡ record { delta_hash = h; index = i }
delta_ext d h i p q = rw (← p, ← q) refl

chosen :
    {A : Type 0} (b : Bool) (x : A) (o : Option A) (y : A)
    → b ≡ true
    → (if b then some x else o) ≡ some y
    → x ≡ y
chosen true x o y b e = cc
chosen false x o y b e = cc

-- An entry of the deltas' map comes from the list, or was there before.
pub deltas_map_found :
    (ds : List MissingDelta) (m : ℕ → Option String) (i : ℕ) (h : String)
    → deltas_map ds m i ≡ some h
    → Occurs (record { delta_hash = h; index = i }) ds ⊎ (m i ≡ some h)
unfolding deltas_map
deltas_map_found [] m i h e = inr e
deltas_map_found (d ∷ ds) m i h e =
    elim (deltas_map_found ds (λ j. if d.index == j then some d.delta_hash else m j) i h e) [
      | inl later ↦ inl (inr later)
      | inr here ↦ elim (Bool-cases (d.index == i)) [
        | inl same ↦ inl (
            inl (
              delta_ext d h i (ground arith)
                (chosen (d.index == i) d.delta_hash (m i) h same here)))
        | inr other ↦ inr (ground (arith, other, here))
      ]
    ]

-- An entry of the states' map asks for what a state of the list asks for, or was there before.
pub transform_found :
    (states : List Missing) (m : Dict MissingState) (a : String) (s : MissingState)
    → Dict.get a (transform_missing_states states m) ≡ some s
    → ((n : Missing) × Occurs n states
        × (n.address ≡ a)
        × (s
            ≡ record { deltas = deltas_map n.deltas (λ _. none); bytecode_hash = n.bytecode_hash }))
      ⊎ (Dict.get a m ≡ some s)
unfolding transform_missing_states
transform_found [] m a s e = inr e
transform_found (n ∷ states) m a s e =
    let own : MissingState = record {
      deltas = deltas_map n.deltas (λ _. none);
      bytecode_hash = n.bytecode_hash;
    } in
    elim (transform_found states (Dict.put n.address own m) a s e) [
      | inl (n', o, named, same) ↦ inl (n', inr o, named, same)
      | inr here ↦ elim (Bool-cases (str_eq n.address a)) [
        | inl same ↦ inl (
          n,
          inl refl,
          (eq_iff n.address a).0 same,
          sym (
              chosen (str_eq n.address a) own (Dict.get a m) s same
                (sym (get-put n.address a own m) ∙ here)),
        )
        | inr other ↦ inr (ground (arith, other, here, get-put n.address a own m))
      ]
    ]

module _ (hash : List ℕ → String) where
  pub check_hash-none :
      (h : Option String) (f : SyncFault) (bytes : List ℕ)
      → check_hash hash h f bytes ≡ none
      → h ≡ some (hash bytes)
  unfolding check_hash
  check_hash-none none f bytes e = cc e
  check_hash-none (some h) f bytes e = ground (arith, e, eq_iff h (hash bytes))

  check_received_found :
      (states : Dict MissingState) (d : ReceivedDelta)
      → check_received hash states d ≡ none
      → (s : MissingState) × (Dict.get d.address states ≡ some s)
        × (s.deltas d.key ≡ some (hash d.bytes))
  unfolding check_received
  check_received_found states d e = go (Dict.get d.address states) refl
    where
      go :
          (o : Option MissingState)
          → Dict.get d.address states ≡ o
          → (s : MissingState) × (Dict.get d.address states ≡ some s)
            × (s.deltas d.key ≡ some (hash d.bytes))
      go none q = absurd (ground (arith, q, e))
      go (some s) q =
          (s, q, check_hash-none (s.deltas d.key) unknown_index d.bytes (ground (arith, q, e)))

  check_all-All :
      (states : Dict MissingState) (ds : List ReceivedDelta)
      → check_all hash states ds ≡ none
      → All (λ d. check_received hash states d ≡ none) ds
  unfolding check_all
  check_all-All states [] e = tt
  check_all-All states (d ∷ ds) e = (ground (arith, e), check_all-All states ds (ground (arith, e)))

  -- An entry of the map that is made of the missing states is asked for by them.
  pub states_ask :
      (ms : List Missing) (d : ReceivedDelta)
      → check_received hash (transform_missing_states ms []) d ≡ none
      → Asks d.address d.key (hash d.bytes) ms
  states_ask ms d e =
      let (s, found, at) = check_received_found (transform_missing_states ms []) d e in
      elim (transform_found ms [] d.address s found) [
        | inl (n, o, named, same) ↦
            elim (deltas_map_found n.deltas (λ _. none) d.key (hash d.bytes)
              (subst (λ x. x.deltas d.key ≡ some (hash d.bytes)) same at)) [
                | inl listed ↦ (n, o, named, listed)
                | inr nothing ↦ cc nothing
              ]
        | inr nothing ↦ absurd (unfold Dict.get in cc nothing)
      ]

module _ (params : String → Option RemoteContract) (hash : List ℕ → String) where
  -- Whatever a peer sends, the deltas that pass the verification are deltas that the chain has and
  -- the local state lacks: for each, the contract's hash at its index is the hash of its data, and
  -- the index lies beyond the local tip. The missing states are those that the comparison found,
  -- where no address is listed twice.
  pub verify-Lacking :
      (others : List String) (tips : Dict ℕ) (ms : List Missing) (es : List Excess)
      (ds : List ReceivedDelta)
      → Distinct others
      → compare_remote params others tips ≡ some (ms, es)
      → verify hash (transform_missing_states ms []) (state_response ds) ≡ none
      → All (λ d. Lacking params others tips d.address d.key (hash d.bytes)) ds
  unfolding verify
  verify-Lacking others tips ms es ds distinct compared ok =
      All-map_of _ _ ds
        (λ d e.
          (compare_remote-Asks params others tips ms es distinct compared d.address d.key
              (hash d.bytes)).0
            (states_ask hash ms d e))
        (check_all-All hash (transform_missing_states ms []) ds ok)
