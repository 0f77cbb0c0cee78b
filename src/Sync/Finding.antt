-- ===== src/Sync/Finding.antt =====
-- The search for providers: `findProvidersBatch` of src/worker/state_sync/receiver/Receiver.js and
-- src/worker/state_sync/receiver/FindProviderResult.js.
use enigma_p2p.Base.{
  String, ◌≡◌, refl, sym, ◌∙◌, ap, subst, inl, inr, Bool, true, false, Option, none, some, List, [],
  ◌∷◌, ◌>>=◌, arith, Occurs, eq_iff,
}
use enigma_p2p.Base.Dict
use enigma_p2p.Base.Dict.{Dict, get-put, get-put_self}
use enigma_p2p.Sync.Plan.{Distinct}

-- `_map` and `_errored`, by the hash of each content id.
pub record FindProviderResult : Type 0 where
  pub providers_map : Dict (List String)
  pub errored : Dict String
  pub complete_error : Bool

unfoldable pub add_provider_result : String → List String → FindProviderResult → FindProviderResult
add_provider_result key ps r = record r { providers_map = Dict.put key ps r.providers_map }

unfoldable pub add_errored_provider_result :
    String → String → FindProviderResult → FindProviderResult
add_errored_provider_result key e r = record r { errored = Dict.put key e r.errored }

unfoldable pub is_errors : FindProviderResult → Bool
is_errors r = elim r.errored [ [] ↦ false | x ∷ xs ↦ true ]

unfoldable pub get_providers_for : String → FindProviderResult → Option (List String)
get_providers_for key r = Dict.get key r.providers_map

-- The answer of the content routing for a content id: an error, with the providers if there are any,
-- or the providers.
pub record Routing : Type 0 where
  pub error : Option String
  pub providers : Option (List String)

-- `_findProvider`: what `filter` returns is dropped, but without a list it throws.
unfoldable pub find_provider : Routing → Option (Option String × List String)
find_provider r = do ps ← r.providers; some (r.error, ps)

-- The jobs of the batch, with the hashes of the content ids; `none` is an exception, after which the
-- callback is never called.
unfoldable pub find_all :
    List (String × Routing) → Option (List (String × Option String × List String))
unfolding find_provider
find_all [] = some []
find_all ((key, r) ∷ jobs) =
    find_provider r >>= λ x. find_all jobs >>= λ rest. some ((key, x.0, x.1) ∷ rest)

unfoldable pub collect :
    List (String × Option String × List String) → FindProviderResult → FindProviderResult
unfolding add_provider_result add_errored_provider_result
collect [] r = r
collect ((key, none, ps) ∷ results) r = collect results (add_provider_result key ps r)
collect ((key, some e, ps) ∷ results) r = collect results (add_errored_provider_result key e r)

-- `findProvidersBatch`
unfoldable pub find_providers_batch : List (String × Routing) → Option FindProviderResult
unfolding find_all collect
find_providers_batch jobs = do
  results ← find_all jobs
  some (collect results (record { providers_map = []; errored = []; complete_error = false }))

abbrev pub job_keys : List (String × Routing) → List String
job_keys [] = []
job_keys ((key, r) ∷ jobs) = key ∷ job_keys jobs

abbrev result_keys : List (String × Option String × List String) → List String
result_keys [] = []
result_keys ((key, e, ps) ∷ results) = key ∷ result_keys results

collect_kept :
    (key : String) (results : List (String × Option String × List String)) (r : FindProviderResult)
    → ¬ Occurs key (result_keys results)
    → Dict.get key (collect results r).providers_map ≡ Dict.get key r.providers_map
unfolding collect add_provider_result add_errored_provider_result
collect_kept key [] r new = refl
collect_kept key ((k, none, ps) ∷ results) r new = ground (
  arith,
  collect_kept key results (add_provider_result k ps r) (λ o. new (inr o)),
  get-put k key ps r.providers_map,
  eq_iff k key,
  λ (e : k ≡ key). new (inl e),
)
collect_kept key ((k, some e, ps) ∷ results) r new =
    collect_kept key results (add_errored_provider_result k e r) (λ o. new (inr o))

collect_found :
    (key : String) (ps : List String) (results : List (String × Option String × List String))
    (r : FindProviderResult)
    → Distinct (result_keys results)
    → Occurs (key, none, ps) results
    → Dict.get key (collect results r).providers_map ≡ some ps
unfolding collect add_provider_result
collect_found key ps [] r distinct o = absurd o
collect_found key ps ((k, none, qs) ∷ results) r distinct (inl same) =
    let named : k ≡ key = ap (λ x. x.0) same in
    let listed : qs ≡ ps = ap (λ x. x.2) same in
    collect_kept key results (add_provider_result k qs r)
      (subst (λ x. ¬ Occurs x (result_keys results)) named distinct.0)
    ∙ ground (arith, get-put k key qs r.providers_map, eq_iff k key, named, listed)
collect_found key ps ((k, some e, qs) ∷ results) r distinct (inl same) =
    let wrong : some e ≡ none = ap (λ x. x.1) same in absurd (cc wrong)
collect_found key ps ((k, none, qs) ∷ results) r distinct (inr o) =
    collect_found key ps results (add_provider_result k qs r) distinct.1 o
collect_found key ps ((k, some e, qs) ∷ results) r distinct (inr o) =
    collect_found key ps results (add_errored_provider_result k e r) distinct.1 o

find_all_cons :
    (k : String) (r : Routing) (jobs : List (String × Routing))
    (results : List (String × Option String × List String))
    → find_all ((k, r) ∷ jobs) ≡ some results
    → (qs : List String) × (rest : List (String × Option String × List String)) × (r.providers
        ≡ some qs)
      × (find_all jobs ≡ some rest)
      × (results ≡ (k, r.error, qs) ∷ rest)
unfolding find_all find_provider
find_all_cons k r jobs results e = go r.providers (find_all jobs) refl refl
  where
    go :
        (o : Option (List String)) (p : Option (List (String × Option String × List String)))
        → r.providers ≡ o
        → find_all jobs ≡ p
        → (qs : List String) × (rest : List (String × Option String × List String)) × (r.providers
            ≡ some qs)
          × (find_all jobs ≡ some rest)
          × (results ≡ (k, r.error, qs) ∷ rest)
    go none p a b = absurd (ground (arith, e, a))
    go (some qs) none a b = absurd (ground (arith, e, a, b))
    go (some qs) (some rest) a b = (qs, rest, a, b, ground (arith, e, a, b))

find_all_found :
    (key : String) (ps : List String) (jobs : List (String × Routing))
    (results : List (String × Option String × List String))
    → find_all jobs ≡ some results
    → (result_keys results ≡ job_keys jobs)
      × (Occurs (key, record { error = none; providers = some ps }) jobs
          → Occurs (key, none, ps) results)
unfolding find_all find_provider
find_all_found key ps [] results e =
    let is : [] ≡ results = ground (arith, e) in
    subst
      (λ (l : List (String × Option String × List String)).
        (result_keys l ≡ []) × (⊥ → Occurs (key, none, ps) l))
      is (refl, λ o. absurd o)
find_all_found key ps ((k, r) ∷ jobs) results e =
    let (qs, rest, listed, others, is) = find_all_cons k r jobs results e in
    let (same, found) = find_all_found key ps jobs rest others in
    (
      ap result_keys is ∙ ap (λ l. k ∷ l) same,
      λ o. subst (Occurs (key, none, ps)) (sym is) (elim o [
        | inl here ↦
            let error : r.error ≡ none = ap (λ x. x.1.error) here in
            let own : some qs ≡ some ps = sym listed ∙ ap (λ x. x.1.providers) here in
            let named : k ≡ key = ap (λ x. x.0) here in
            let head : (k, r.error, qs) ≡ (key, none, ps) = ground (arith, error, own, named) in
            inl head
        | inr there ↦ inr (found there)
      ]),
    )

-- If the search for distinct content ids calls back, then the providers that the routing found for an
-- id with no error are those of the result for it: all of them, the worker itself included.
pub find_providers_batch-finds :
    (jobs : List (String × Routing)) (r : FindProviderResult) (key : String) (ps : List String)
    → Distinct (job_keys jobs)
    → find_providers_batch jobs ≡ some r
    → Occurs (key, record { error = none; providers = some ps }) jobs
    → get_providers_for key r ≡ some ps
unfolding find_providers_batch get_providers_for
find_providers_batch-finds jobs r key ps distinct e o = go (find_all jobs) refl
  where
    go :
        (found : Option (List (String × Option String × List String)))
        → find_all jobs ≡ found
        → Dict.get key r.providers_map ≡ some ps
    go none is = absurd (ground (arith, e, is))
    go (some results) is =
        let (same, occurs) = find_all_found key ps jobs results is in
        let fresh : FindProviderResult = record {
          providers_map = [];
          errored = [];
          complete_error = false;
        } in
        let made : collect results fresh ≡ r = ground (arith, e, is) in
        subst (λ (x : FindProviderResult). Dict.get key x.providers_map ≡ some ps) made
          (collect_found key ps results fresh (subst Distinct (sym same) distinct) (occurs o))
