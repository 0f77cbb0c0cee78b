-- ===== src/StateKeys/Invariant.antt =====
-- One exchange at a time: the flag of PrincipalNode.js counts the executions of GetStateKeysAction.
use enigma_p2p.Base.{
  ℕ, zero, suc, ◌+◌, ◌≡◌, refl, ap, inl, inr, false, Option, none, some, List, [], ◌∷◌,
  if◌then◌else◌, arith, length, get_elem?, length-append, Bool-cases, Option-cases, is_some, ◌||◌,
}
use enigma_p2p.Tasks.Task.{Task}
use enigma_p2p.StateKeys.Principal.{KeysReply, keys, keys_rejected, build_msg}
use enigma_p2p.StateKeys.System.{
  Phase, asked_core, asked_principal, gave_core, Run, System, idle, KeysError, CoreAnswer,
  StoreAnswer, Event, get_keys, verified, core_answered, principal_answered, keys_stored, Output,
  start_run, execute_task, handle_verified, execute_all, end_ptt, remove_at, set_at, finish,
  get_stuck, advance, on_core_answer, on_principal_answer, store_error, on_keys_stored, dispatch,
  deliver, step, after, core_error_of, principal_error, query_principal, give_core,
}

pub record Inv (s : System) : Type 0 where
  pub counted : length s.running + s.stuck ≡ (if s.in_ptt then 1 else 0)
  pub none_waits : s.in_ptt ≡ false → s.waiting ≡ []

length-remove_at {ℓ} :
    {A : Type ℓ} (i : ℕ) (xs : List A) (x : A)
    → get_elem? xs i ≡ some x
    → suc (length (remove_at i xs)) ≡ length xs
unfolding remove_at
length-remove_at i [] x h = absurd (ground (arith, h))
length-remove_at zero (y ∷ xs) x h = refl
length-remove_at (suc i) (y ∷ xs) x h = ap suc (length-remove_at i xs x h)

length-set_at {ℓ} : {A : Type ℓ} (i : ℕ) (v : A) (xs : List A) → length (set_at i v xs) ≡ length xs
unfolding set_at
length-set_at i v [] = refl
length-set_at zero v (y ∷ xs) = refl
length-set_at (suc i) v (y ∷ xs) = ap suc (length-set_at i v xs)

start_run-Inv :
    (caller : Option Task) (a : Option (List (Option _))) (b : Option ℕ) (s : System)
    → Inv s
    → Inv (start_run caller a b s).0
unfolding start_run
start_run-Inv caller a b s v = ground (
  arith,
  v,
  length-append s.running
      (record { caller = caller; addresses = a; block_number = b; phase = asked_core } ∷ []),
)

execute_task-Inv : (t : Task) (s : System) → Inv s → Inv (execute_task t s).0
unfolding execute_task
execute_task-Inv t s v =
    ground (arith, v, start_run-Inv (some t) (some (t.contract_addr ∷ [])) t.block_number s v)

handle_verified-Inv : (t : Task) (s : System) → Inv s → Inv (handle_verified t s).0
unfolding handle_verified
handle_verified-Inv t s v = ground (arith, v, execute_task-Inv t s v)

execute_all-Inv : (ts : List Task) (s : System) → Inv s → Inv (execute_all ts s).0
unfolding execute_all
execute_all-Inv [] s v = v
execute_all-Inv (t ∷ ts) s v = execute_all-Inv ts (execute_task t s).0 (execute_task-Inv t s v)

-- The state in which the listeners run.
released-Inv :
    (i : ℕ) (r : Run) (s : System)
    → get_elem? s.running i ≡ some r
    → Inv s
    → Inv (record s { in_ptt = false; waiting = []; running = remove_at i s.running })
released-Inv i r s found v = ground (arith, v, length-remove_at i s.running r found)

finish-Inv :
    (i : ℕ) (r : Run) (e : Option KeysError) (s : System)
    → get_elem? s.running i ≡ some r
    → Inv s
    → Inv (finish i r e s).0
unfolding finish end_ptt
finish-Inv i r e s found v = execute_all-Inv s.waiting _ (released-Inv i r s found v)

get_stuck-Inv :
    (i : ℕ) (r : Run) (s : System) → get_elem? s.running i ≡ some r → Inv s → Inv (get_stuck i s).0
unfolding get_stuck
get_stuck-Inv i r s found v = ground (arith, v, length-remove_at i s.running r found)

advance-Inv :
    (i : ℕ) (r : Run) (p : Phase) (o : Output) (s : System) → Inv s → Inv (advance i r p o s).0
unfolding advance
advance-Inv i r p o s v = ground (arith, v, length-set_at i (record r { phase = p }) s.running)

on_core_answer-Inv :
    (i : ℕ) (r : Run) (a : CoreAnswer) (s : System)
    → get_elem? s.running i ≡ some r
    → Inv s
    → Inv (on_core_answer i r a s).0
unfolding on_core_answer
on_core_answer-Inv i r a s found v = elim (Bool-cases (is_some a.error || a.is_error)) [
  | inl failed ↦
      let e : Option KeysError = core_error_of (if a.is_error then a.msg else a.error) in
      rw failed (finish-Inv i r e s found v)
  | inr fine ↦ elim (Option-cases (build_msg a.request a.worker_sig r.addresses r.block_number)) [
    | inl missing ↦ rw (fine, missing) (finish-Inv i r (some principal_error) s found v)
    | inr (msg, built) ↦
        rw (fine, built) (advance-Inv i r asked_principal (query_principal msg) s v)
  ]
]

on_principal_answer-Inv :
    (i : ℕ) (r : Run) (a : KeysReply) (s : System)
    → get_elem? s.running i ≡ some r
    → Inv s
    → Inv (on_principal_answer i r a s).0
unfolding on_principal_answer
on_principal_answer-Inv i r keys_rejected s found v =
    finish-Inv i r (some principal_error) s found v
on_principal_answer-Inv i r (keys none) s found v = get_stuck-Inv i r s found v
on_principal_answer-Inv i r (keys (some k)) s found v = advance-Inv i r gave_core (give_core k) s v

on_keys_stored-Inv :
    (i : ℕ) (r : Run) (a : StoreAnswer) (s : System)
    → get_elem? s.running i ≡ some r
    → Inv s
    → Inv (on_keys_stored i r a s).0
unfolding on_keys_stored
on_keys_stored-Inv i r a s found v = elim (Option-cases (store_error a)) [
  | inl threw ↦ rw (threw, on_keys_stored) (get_stuck-Inv i r s found v)
  | inr (e, ended) ↦ rw (ended, on_keys_stored) (finish-Inv i r e s found v)
]

dispatch-Inv :
    (p : Phase) (i : ℕ) (r : Run) (e : Event) (s : System)
    → get_elem? s.running i ≡ some r
    → Inv s
    → Inv (dispatch p i r e s).0
unfolding dispatch
dispatch-Inv asked_core i r (core_answered j a) s found v = on_core_answer-Inv i r a s found v
dispatch-Inv asked_principal i r (principal_answered j a) s found v =
    on_principal_answer-Inv i r a s found v
dispatch-Inv gave_core i r (keys_stored j a) s found v = on_keys_stored-Inv i r a s found v
dispatch-Inv asked_core i r (get_keys a b) s found v = v
dispatch-Inv asked_core i r (verified t) s found v = v
dispatch-Inv asked_core i r (principal_answered j a) s found v = v
dispatch-Inv asked_core i r (keys_stored j a) s found v = v
dispatch-Inv asked_principal i r (get_keys a b) s found v = v
dispatch-Inv asked_principal i r (verified t) s found v = v
dispatch-Inv asked_principal i r (core_answered j a) s found v = v
dispatch-Inv asked_principal i r (keys_stored j a) s found v = v
dispatch-Inv gave_core i r (get_keys a b) s found v = v
dispatch-Inv gave_core i r (verified t) s found v = v
dispatch-Inv gave_core i r (core_answered j a) s found v = v
dispatch-Inv gave_core i r (principal_answered j a) s found v = v

deliver-Inv : (i : ℕ) (e : Event) (s : System) → Inv s → Inv (deliver i e s).0
unfolding deliver
deliver-Inv i e s v = elim (Option-cases (get_elem? s.running i)) [
  | inl missing ↦ rw (missing, deliver) v
  | inr (r, found) ↦ rw (found, deliver) (dispatch-Inv r.phase i r e s found v)
]

pub step-Inv : (e : Event) (s : System) → Inv s → Inv (step e s).0
unfolding step
step-Inv (get_keys a b) s v = start_run-Inv none a b s v
step-Inv (verified t) s v = handle_verified-Inv t s v
step-Inv (core_answered i a) s v = deliver-Inv i (core_answered i a) s v
step-Inv (principal_answered i a) s v = deliver-Inv i (principal_answered i a) s v
step-Inv (keys_stored i a) s v = deliver-Inv i (keys_stored i a) s v

after-Inv : (es : List Event) (s : System) → Inv s → Inv (after es s)
unfolding after
after-Inv [] s v = v
after-Inv (e ∷ es) s v = after-Inv es (step e s).0 (step-Inv e s v)

-- Whatever the calls and answers are, in any order: the flag is set exactly if one exchange of keys
-- is under way or has been ended by an exception, there is never a second one, and tasks wait only
-- while the flag is set.
pub after_exclusive :
    (es : List Event)
    → let s = after es idle in
      (length s.running + s.stuck ≡ (if s.in_ptt then 1 else 0))
      × (s.in_ptt ≡ false → s.waiting ≡ [])
after_exclusive es =
    let v : Inv (after es idle) =
      after-Inv es idle (record { counted = refl; none_waits = λ _. refl }) in
    (v.counted, v.none_waits)
