-- ===== src/Sync/Accepting.antt =====
-- The verification of deltas refuses nothing that is lacking: StateSyncReqVerifier.js over the missing
-- states of StateSync.js.
use text.Mathlib.Text.{◌==◌ as str_eq}
use enigma_p2p.Base.{
  ℕ, String, ◌≡◌, refl, sym, ap, subst, ◌∙◌, ◌↔◌, inl, inr, Option, none, some, List, [], ◌∷◌, ◌==◌,
  if◌then◌else◌, arith, drop, get_elem?, eq_iff, Occurs, All, All-map_of, Bool-cases,
}
use enigma_p2p.Base.Dict
use enigma_p2p.Base.Dict.{Dict, get-put}
use enigma_p2p.Sync.Compare.{
  RemoteContract, MissingDelta, Missing, Excess, compare_remote, missing_deltas, first_missing,
}
use enigma_p2p.Sync.Plan.{Distinct, Lacking, compare_remote-Asks}
use enigma_p2p.Sync.Accept.{
  MissingState, deltas_map, transform_missing_states, ReceivedDelta, SyncFault, unknown_index,
  state_response, check_hash, check_received, check_all, verify,
}
use enigma_p2p.Sync.Received.{transform_found, deltas_map_found, verify-Lacking}
use enigma_p2p.Sync.Requests.{missing_form}

-- A listed index has an entry, and one that was there before keeps one.
deltas_map_kept :
    (ds : List MissingDelta) (m : ℕ → Option String) (i : ℕ) (h : String)
    → m i ≡ some h
    → (h' : String) × (deltas_map ds m i ≡ some h')
unfolding deltas_map
deltas_map_kept [] m i h e = (h, e)
deltas_map_kept (d ∷ ds) m i h e = elim (Bool-cases (d.index == i)) [
  | inl same ↦
      deltas_map_kept ds (λ j. if d.index == j then some d.delta_hash else m j) i d.delta_hash
        (rw same refl)
  | inr other ↦
      deltas_map_kept ds (λ j. if d.index == j then some d.delta_hash else m j) i h (rw other e)
]

deltas_map_listed :
    (ds : List MissingDelta) (m : ℕ → Option String) (d : MissingDelta)
    → Occurs d ds
    → (h : String) × (deltas_map ds m d.index ≡ some h)
unfolding deltas_map
deltas_map_listed [] m d o = absurd o
deltas_map_listed (e ∷ ds) m d (inl same) =
    deltas_map_kept ds (λ j. if e.index == j then some e.delta_hash else m j) d.index e.delta_hash
      (ground (arith, ap (λ x. x.index) same))
deltas_map_listed (e ∷ ds) m d (inr o) =
    deltas_map_listed ds (λ j. if e.index == j then some e.delta_hash else m j) d o

transform_kept :
    (states : List Missing) (m : Dict MissingState) (a : String) (s : MissingState)
    → Dict.get a m ≡ some s
    → (s' : MissingState) × (Dict.get a (transform_missing_states states m) ≡ some s')
unfolding transform_missing_states
transform_kept [] m a s e = (s, e)
transform_kept (n ∷ states) m a s e =
    let own : MissingState = record {
      deltas = deltas_map n.deltas (λ _. none);
      bytecode_hash = n.bytecode_hash;
    } in
    elim (Bool-cases (str_eq n.address a)) [
      | inl same ↦
          transform_kept states (Dict.put n.address own m) a own
            (get-put n.address a own m ∙ rw same refl)
      | inr other ↦
          transform_kept states (Dict.put n.address own m) a s
            (get-put n.address a own m ∙ rw other e)
    ]

transform_listed :
    (states : List Missing) (m : Dict MissingState) (n : Missing)
    → Occurs n states
    → (s : MissingState) × (Dict.get n.address (transform_missing_states states m) ≡ some s)
unfolding transform_missing_states
transform_listed [] m n o = absurd o
transform_listed (x ∷ states) m n (inl same) =
    let own : MissingState = record {
      deltas = deltas_map x.deltas (λ _. none);
      bytecode_hash = x.bytecode_hash;
    } in
    transform_kept states (Dict.put x.address own m) n.address own (
      get-put x.address n.address own m
      ∙ rw ((eq_iff x.address n.address).1 (ap (λ y. y.address) same)) refl)
transform_listed (x ∷ states) m n (inr o) =
    transform_listed states
      (Dict.put x.address
        (record { deltas = deltas_map x.deltas (λ _. none); bytecode_hash = x.bytecode_hash }) m)
      n o

check_hash_fine :
    (hash : List ℕ → String) (o : Option String) (f : SyncFault) (bytes : List ℕ)
    → o ≡ some (hash bytes)
    → check_hash hash o f bytes ≡ none
unfolding check_hash
check_hash_fine hash o f bytes e = rw e (rw ((eq_iff (hash bytes) (hash bytes)).1 refl) refl)

check_received_fine :
    (hash : List ℕ → String) (states : Dict MissingState) (d : ReceivedDelta) (s : MissingState)
    → Dict.get d.address states ≡ some s
    → s.deltas d.key ≡ some (hash d.bytes)
    → check_received hash states d ≡ none
unfolding check_received
check_received_fine hash states d s found e =
    rw (found, check_received) (check_hash_fine hash (s.deltas d.key) unknown_index d.bytes e)

check_all_fine :
    (hash : List ℕ → String) (states : Dict MissingState) (ds : List ReceivedDelta)
    → All (λ d. check_received hash states d ≡ none) ds
    → check_all hash states ds ≡ none
unfolding check_all
check_all_fine hash states [] h = refl
check_all_fine hash states (d ∷ ds) h = rw (h.0, check_all) (check_all_fine hash states ds h.1)

-- A contract has one hash at an index.
same_hash :
    (params : String → Option RemoteContract) (others : List String) (tips : Dict ℕ) (a : String)
    (i : ℕ) (h k : String)
    → Lacking params others tips a i h
    → Lacking params others tips a i k
    → h ≡ k
same_hash params others tips a i h k (_, (c, pc, (_, at))) (_, (c', pc', (_, at'))) =
    let same : c ≡ c' = ground (arith, pc, pc') in
    let both : some h ≡ some k = sym at ∙ ap (λ x. get_elem? x.delta_hashes i) same ∙ at' in cc both

module _ (params : String → Option RemoteContract) (hash : List ℕ → String) where
  -- Two entries for one address ask for the same.
  same_deltas :
      (others : List String) (tips : Dict ℕ) (ms : List Missing) (es : List Excess)
      → Distinct others
      → compare_remote params others tips ≡ some (ms, es)
      → (m n : Missing) → Occurs m ms
      → Occurs n ms
      → m.address ≡ n.address
      → m.deltas ≡ n.deltas
  same_deltas others tips ms es distinct r m n om on named =
      let (_, (c, pc, (dm, _))) = missing_form params others tips ms es distinct r m om in
      let (_, (c', pc', (dn, _))) = missing_form params others tips ms es distinct r n on in
      let same : c ≡ c' = ground (arith, pc, pc', ap params named) in
      dm
      ∙ ap
          (λ (x : String).
            missing_deltas (first_missing (Dict.get x tips))
              (drop (first_missing (Dict.get x tips)) c.delta_hashes))
          named
      ∙ ap
          (λ (x : RemoteContract).
            missing_deltas (first_missing (Dict.get n.address tips))
              (drop (first_missing (Dict.get n.address tips)) x.delta_hashes))
          same
      ∙ sym dn

  Lacking-check_received :
      (others : List String) (tips : Dict ℕ) (ms : List Missing) (es : List Excess)
      → Distinct others
      → compare_remote params others tips ≡ some (ms, es)
      → (d : ReceivedDelta) → Lacking params others tips d.address d.key (hash d.bytes)
      → check_received hash (transform_missing_states ms []) d ≡ none
  Lacking-check_received others tips ms es distinct r d lacks =
      let (n, on, named, listed) =
        (compare_remote-Asks params others tips ms es distinct r d.address d.key (hash d.bytes)).1
          lacks in
      let (s, found) = transform_listed ms [] n on in
      let found' : Dict.get d.address (transform_missing_states ms []) ≡ some s =
        subst (λ a. Dict.get a (transform_missing_states ms []) ≡ some s) named found in
      elim (transform_found ms [] d.address s found') [
        | inl (m, om, named', is) ↦
            let same : n.deltas ≡ m.deltas =
              same_deltas others tips ms es distinct r n m on om (named ∙ sym named') in
            let own : MissingDelta = record { delta_hash = hash d.bytes; index = d.key } in
            let (h, at) =
              deltas_map_listed m.deltas (λ _. none) own (subst (Occurs own) same listed) in
            elim (deltas_map_found m.deltas (λ _. none) d.key h at) [
              | inl asked ↦
                  let lacks' : Lacking params others tips d.address d.key h =
                    (compare_remote-Asks params others tips ms es distinct r d.address d.key h).0
                      (m, om, named', asked) in
                  let one : h ≡ hash d.bytes =
                    same_hash params others tips d.address d.key h (hash d.bytes) lacks' lacks in
                  check_received_fine hash (transform_missing_states ms []) d s found'
                    (ap (λ x. x.deltas d.key) is ∙ at ∙ ap some one)
              | inr nothing ↦ cc nothing
            ]
        | inr nothing ↦ absurd (unfold Dict.get in cc nothing)
      ]

  -- A response of deltas is accepted exactly if each delta is one that the contract has on the chain,
  -- by the hash of its data, at an index beyond the local tip; where the missing states are those that
  -- the comparison found and no address is listed twice.
  pub verify_iff :
      (others : List String) (tips : Dict ℕ) (ms : List Missing) (es : List Excess)
      (ds : List ReceivedDelta)
      → Distinct others
      → compare_remote params others tips ≡ some (ms, es)
      → (verify hash (transform_missing_states ms []) (state_response ds) ≡ none)
        ↔ All (λ d. Lacking params others tips d.address d.key (hash d.bytes)) ds
  unfolding verify
  verify_iff others tips ms es ds distinct r = (
    verify-Lacking params hash others tips ms es ds distinct r,
    λ all.
        check_all_fine hash (transform_missing_states ms []) ds
          (All-map_of _ _ ds (Lacking-check_received others tips ms es distinct r) all),
  )
