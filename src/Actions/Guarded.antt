-- ===== src/Actions/Guarded.antt =====
-- What VerifyAndStoreResultAction.js does with a result that the chain does not confirm, and what it
-- stores of a task that has failed due to Ethereum.
use enigma_p2p.Base.{
  String, ◌≡◌, refl, sym, ap, subst, ◌∙◌, inl, inr, Bool, true, false, Option, none, some, List, [],
  ◌∷◌, ◌&&◌, ◌||◌, if◌then◌else◌, arith, Occurs, Bool-cases, Option-cases,
}
use enigma_p2p.Tasks.Result.{is_success_status, TaskType, TaskResult, RawResult}
use enigma_p2p.Tasks.Task.{Task, build_outside_task}
use enigma_p2p.Verifier.Check.{Tip, Verdict}
use enigma_p2p.Actions.StoreResult.{
  build_task_result, CoreUpdate, build_ipc_msg, StoreError, Services, read_tip, needs_tip, Verified,
  judge, verify_result, is_ethereum_failure, mark_failure, store_outside, is_deployment,
  announce_and_store, update_and_store, store_result,
}

-- The chain has confirmed the result: the verifier was asked, with some tip, and accepted.
abbrev pub Confirmed : Services → TaskResult → Type 0
Confirmed services r =
    (tip : Option Tip) × (v : Verdict) × (services.verdict r tip ≡ some v)
    × (v.error ≡ none)
    × (v.is_verified ≡ true)

judge-accepts :
    (o : Option Verdict)
    → (judge o).is_verified ≡ true
    → (v : Verdict) × (o ≡ some v) × (v.error ≡ none) × (v.is_verified ≡ true)
unfolding judge
judge-accepts none h = cc h
judge-accepts (some v) h = elim (Option-cases v.error) [
  | inl fine ↦ (v, refl, fine, ground (arith, fine, h))
  | inr (e, bad) ↦ absurd (ground (arith, bad, h))
]

verify_result-Confirmed :
    (services : Services) (r : TaskResult) (address : String)
    → services.has_ethereum ≡ true
    → (verify_result services r address).is_verified ≡ true
    → Confirmed services r
unfolding verify_result
verify_result-Confirmed services r address eth h = elim (Bool-cases (needs_tip r)) [
  | inl needed ↦ elim (Option-cases (read_tip services.tips address)) [
    | inl missing ↦ absurd (ground (arith, eth, needed, missing, h))
    | inr (t, found) ↦
        let (v, e, p, q) =
          judge-accepts (services.verdict r (some t)) (ground (arith, eth, needed, found, h)) in
        (some t, v, e, p, q)
  ]
  | inr free ↦
      let (v, e, p, q) = judge-accepts (services.verdict r none) (ground (arith, eth, free, h)) in
      (none, v, e, p, q)
]

store_outside-core :
    (services : Services) (type : TaskType) (raw : RawResult) (v : Verified)
    (error : Option StoreError) (core : List CoreUpdate) (announced : List String)
    → (store_outside services type raw v error core announced).core ≡ core
unfolding store_outside
store_outside-core services type raw v error core announced = ground arith

announce_and_store-core :
    (services : Services) (type : TaskType) (raw : RawResult) (id : String) (v : Verified)
    (core : List CoreUpdate)
    → (announce_and_store services type raw id v core).core ≡ core
unfolding announce_and_store
announce_and_store-core services type raw id v core = ground (
  arith,
  store_outside-core services type raw v v.error core [],
  store_outside-core services type raw v
      (if services.announce id then v.error else some StoreError.announce_error) core (id ∷ []),
)

-- The messages to Core for a verified result.
abbrev told : Option CoreUpdate → List CoreUpdate
told none = []
told (some msg) = msg ∷ []

update_and_store-core :
    (services : Services) (type : TaskType) (raw : RawResult) (id : String) (r : TaskResult)
    (address : String) (v : Verified)
    → (update_and_store services type raw id r address v).core
      ≡ (if v.is_verified then told (build_ipc_msg r address) else [])
unfolding update_and_store
update_and_store-core services type raw id r address v = go (build_ipc_msg r address) refl
  where
    go :
        (o : Option CoreUpdate)
        → build_ipc_msg r address ≡ o
        → (update_and_store services type raw id r address v).core
          ≡ (if v.is_verified then told (build_ipc_msg r address) else [])
    go none e = ground (arith, e, store_outside-core services type raw v v.error [] [])
    go (some m) e = ground (
      arith,
      e,
      store_outside-core services type raw v v.error [] [],
      announce_and_store-core services type raw id v (m ∷ []),
    )

-- A task that is stored: the outside task of the result, marked for a failure due to Ethereum.
abbrev pub Outside : TaskType → RawResult → Verified → Task → Type 0
Outside type raw v t =
    ((v.is_verified || is_ethereum_failure v.error) ≡ true)
    × ((t' : Task) × (build_outside_task type raw ≡ some t')
        × (mark_failure (is_ethereum_failure v.error) t' ≡ some t))

store_outside-Outside :
    (services : Services) (type : TaskType) (raw : RawResult) (v : Verified)
    (error : Option StoreError) (core : List CoreUpdate) (announced : List String) (t : Task)
    → Occurs t (store_outside services type raw v error core announced).tasks
    → Outside type raw v t
unfolding store_outside
store_outside-Outside services type raw v error core announced t o =
    elim (Bool-cases (v.is_verified || is_ethereum_failure v.error)) [
      | inl wanted ↦ elim (Option-cases (build_outside_task type raw)) [
        | inl missing ↦ absurd (ground (arith, wanted, missing, o))
        | inr (t', built) ↦ elim (Option-cases (mark_failure (is_ethereum_failure v.error) t')) [
          | inl threw ↦ absurd (ground (arith, wanted, built, threw, o))
          | inr (m, marked) ↦ (
            wanted,
            (t', built, marked ∙ ap some (sym (ground (arith, wanted, built, marked, o)))),
          )
        ]
      ]
      | inr unwanted ↦ absurd (ground (arith, unwanted, o))
    ]

announce_and_store-Outside :
    (services : Services) (type : TaskType) (raw : RawResult) (id : String) (v : Verified)
    (core : List CoreUpdate) (t : Task)
    → Occurs t (announce_and_store services type raw id v core).tasks
    → Outside type raw v t
unfolding announce_and_store
announce_and_store-Outside services type raw id v core t o =
    elim (Bool-cases
      (is_deployment type && is_success_status raw.status && services.makes_cid id)) [
        | inl public ↦
            store_outside-Outside services type raw v
              (if services.announce id then v.error else some StoreError.announce_error) core
              (id ∷ []) t (subst (Occurs t) (rw public refl) o)
        | inr silent ↦
            store_outside-Outside services type raw v v.error core [] t
              (subst (Occurs t) (rw silent refl) o)
      ]

pub update_and_store-Outside :
    (services : Services) (type : TaskType) (raw : RawResult) (id : String) (r : TaskResult)
    (address : String) (v : Verified) (t : Task)
    → Occurs t (update_and_store services type raw id r address v).tasks
    → Outside type raw v t
unfolding update_and_store
update_and_store-Outside services type raw id r address v t o =
    go v.is_verified (build_ipc_msg r address) refl refl
  where
    go :
        (b : Bool) (m : Option CoreUpdate)
        → v.is_verified ≡ b
        → build_ipc_msg r address ≡ m
        → Outside type raw v t
    go false m p e =
        store_outside-Outside services type raw v v.error [] [] t (ground (arith, p, o))
    go true none p e =
        store_outside-Outside services type raw v v.error [] [] t (ground (arith, p, e, o))
    go true (some msg) p e = elim (Bool-cases (services.update_core msg)) [
      | inl taken ↦
          announce_and_store-Outside services type raw id v (msg ∷ []) t
            (ground (arith, p, e, taken, o))
      | inr refused_by_core ↦ absurd (ground (arith, p, e, refused_by_core, o))
    ]

pub store_result_lem :
    (services : Services) (type : TaskType) (raw : RawResult) (id address : String) (r : TaskResult)
    → build_task_result type raw ≡ some (some r)
    → store_result services type raw id address
      ≡ update_and_store services type raw id r address (verify_result services r address)
unfolding store_result
store_result_lem services type raw id address r e = ground (arith, e)

told-Occurs : (m : Option CoreUpdate) (msg : CoreUpdate) → Occurs msg (told m) → m ≡ some msg
told-Occurs none msg o = absurd o
told-Occurs (some m) msg (inl e) = ap some e
told-Occurs (some m) msg (inr o) = absurd o

kept :
    (b : Bool) (msgs : List CoreUpdate) (msg : CoreUpdate)
    → Occurs msg (if b then msgs else [])
    → (b ≡ true) × Occurs msg msgs
kept true msgs msg o = (refl, o)
kept false msgs msg o = absurd o

-- With Ethereum, Core is asked to store only what belongs to a result that the chain has confirmed:
-- a message to Core is the one that `_buildIpcMsg` makes of the published result, and the verifier
-- has accepted that result.
pub store_result-Confirmed :
    (services : Services) (type : TaskType) (raw : RawResult) (id address : String) (r : TaskResult)
    (msg : CoreUpdate)
    → services.has_ethereum ≡ true
    → build_task_result type raw ≡ some (some r)
    → Occurs msg (store_result services type raw id address).core
    → Confirmed services r × (build_ipc_msg r address ≡ some msg)
store_result-Confirmed services type raw id address r msg eth built o =
    let v : Verified = verify_result services r address in
    let listed : Occurs msg (if v.is_verified then told (build_ipc_msg r address) else []) =
      subst (Occurs msg)
        (ap (λ x. x.core) (store_result_lem services type raw id address r built)
          ∙ update_and_store-core services type raw id r address v)
        o in
    let (good, msg_told) = kept v.is_verified (told (build_ipc_msg r address)) msg listed in
    (
      verify_result-Confirmed services r address eth good,
      told-Occurs (build_ipc_msg r address) msg msg_told,
    )
