-- ===== src/StateKeys/System.antt =====
-- src/worker/controller/actions/GetStateKeysAction.js and tasks/HandleVerifiedTaskAction.js, the
-- start of tasks/ExecuteTaskAction.js, and the flag of PrincipalNode.js, as one machine: an event is
-- a call of an action or an answer that an execution awaits.
use enigma_p2p.Base.{
  ℕ, zero, suc, ◌+◌, String, Bool, true, false, Option, none, some, List, [], ◌∷◌, ◌++◌, ◌||◌,
  is_some, get_elem?, ltb, if◌then◌else◌,
}
use enigma_p2p.Tasks.Task.{Task}
use enigma_p2p.Actions.Commit.{is_deploy_task}
use enigma_p2p.StateKeys.Principal.{
  MsgPrincipal, build_msg, StateKeys, KeysReply, keys, keys_rejected,
}

pub data Phase : Type 0 where
  asked_core asked_principal gave_core : Phase

-- An execution of GetStateKeysAction. Its caller is the execution of a deployment, which waits for
-- it, or none that the model follows.
pub record Run : Type 0 where
  pub caller : Option Task
  pub addresses : Option (List (Option String))
  pub block_number : Option ℕ
  pub phase : Phase

-- `waiting` are the tasks that listen once for the end of the exchange. `stuck` counts the
-- executions that an exception has ended.
pub record System : Type 0 where
  pub in_ptt : Bool
  pub waiting : List Task
  pub running : List Run
  pub stuck : ℕ

abbrev pub idle : System
idle = record { in_ptt = false; waiting = []; running = []; stuck = 0 }

pub data KeysError : Type 0 where
  in_progress principal_error result_errors : KeysError
  core_error : String → KeysError

-- The response of Core to a request: an attribute that it lacks is `none`. `is_error` is a type of
-- "Error".
pub record CoreAnswer : Type 0 where
  pub error : Option String
  pub is_error : Bool
  pub msg : Option String
  pub request : Option String
  pub worker_sig : Option String

-- The response of Core to the keys. `result` is the number of `result.errors`, inside `none` where
-- that is missing.
pub record StoreAnswer : Type 0 where
  pub error : Option String
  pub is_error : Bool
  pub result : Option (Option ℕ)

pub data Event : Type 0 where
  get_keys : Option (List (Option String)) → Option ℕ → Event
  verified : Task → Event
  core_answered : ℕ → CoreAnswer → Event
  principal_answered : ℕ → KeysReply → Event
  keys_stored : ℕ → StoreAnswer → Event

-- What the actions do. A task is sent to Core, or its execution ends with an entry in the log.
pub data Output : Type 0 where
  query_core : Output
  query_principal : MsgPrincipal → Output
  give_core : StateKeys → Output
  sent_to_core : Task → Output
  dropped : Task → Output
  answered : Option KeysError → Output

-- `onResponse`; ExecuteTaskAction goes on without an error, and returns with one.
unfoldable pub answer : Option Task → Option KeysError → Output
answer none e = answered e
answer (some t) none = sent_to_core t
answer (some t) (some e) = dropped t

-- `execute` as far as the flag, with `startPTT`.
unfoldable pub start_run :
    Option Task → Option (List (Option String)) → Option ℕ → System → System × List Output
unfolding answer
start_run caller addresses block s =
    if s.in_ptt then (s, answer caller (some in_progress) ∷ []) else (
      record s {
        in_ptt = true;
        running =
            s.running
            ++ record {
              caller = caller;
              addresses = addresses;
              block_number = block;
              phase = asked_core;
            }
              ∷ [];
      },
      query_core ∷ [],
    )

-- The start of ExecuteTaskAction: a deployment waits for the keys of its contract.
unfoldable pub execute_task : Task → System → System × List Output
unfolding start_run
execute_task t s =
    if is_deploy_task t.payload
    then start_run (some t) (some (t.contract_addr ∷ [])) t.block_number s
    else (s, sent_to_core t ∷ [])

-- HandleVerifiedTaskAction
unfoldable pub handle_verified : Task → System → System × List Output
unfolding execute_task
handle_verified t s =
    if s.in_ptt then (record s { waiting = s.waiting ++ t ∷ [] }, []) else execute_task t s

unfoldable pub execute_all : List Task → System → System × List Output
unfolding execute_task
execute_all [] s = (s, [])
execute_all (t ∷ ts) s =
    let (s1, out) = execute_task t s in let (s2, rest) = execute_all ts s1 in (s2, out ++ rest)

-- `onPTTEnd`: the flag is taken back, and the listeners run.
unfoldable pub end_ptt : System → System × List Output
unfolding execute_all
end_ptt s = execute_all s.waiting (record s { in_ptt = false; waiting = [] })

unfoldable pub remove_at {ℓ} : {A : Type ℓ} → ℕ → List A → List A
remove_at i [] = []
remove_at zero (x ∷ xs) = xs
remove_at (suc i) (x ∷ xs) = x ∷ remove_at i xs

unfoldable pub set_at {ℓ} : {A : Type ℓ} → ℕ → A → List A → List A
set_at i v [] = []
set_at zero v (x ∷ xs) = v ∷ xs
set_at (suc i) v (x ∷ xs) = x ∷ set_at i v xs

-- `onPTTEnd`, then `onResponse`.
unfoldable pub finish : ℕ → Run → Option KeysError → System → System × List Output
unfolding end_ptt answer
finish i r e s =
    let (s', out) = end_ptt (record s { running = remove_at i s.running }) in
    (s', out ++ answer r.caller e ∷ [])

-- An exception ends the execution and leaves the flag.
unfoldable pub get_stuck : ℕ → System → System × List Output
get_stuck i s = (record s { running = remove_at i s.running; stuck = s.stuck + 1 }, [])

unfoldable pub advance : ℕ → Run → Phase → Output → System → System × List Output
advance i r phase out s =
    (record s { running = set_at i (record r { phase = phase }) s.running }, out ∷ [])

abbrev pub core_error_of : Option String → Option KeysError
core_error_of none = none
core_error_of (some e) = some (core_error e)

-- `onPTTRequestResponse` as far as `getStateKeys`. A message of Core's error that is missing is
-- `undefined`, no error to the caller. Without a request or a signature the promise of
-- `getStateKeys` is rejected.
unfoldable pub on_core_answer : ℕ → Run → CoreAnswer → System → System × List Output
unfolding finish advance
on_core_answer i r a s =
    if is_some a.error || a.is_error
    then finish i r (core_error_of (if a.is_error then a.msg else a.error)) s
    else elim (build_msg a.request a.worker_sig r.addresses r.block_number) [
      | none ↦ finish i r (some principal_error) s
      | some msg ↦ advance i r asked_principal (query_principal msg) s
    ]

-- The answer of the principal node; reading `data` of one that is missing throws.
unfoldable pub on_principal_answer : ℕ → Run → KeysReply → System → System × List Output
unfolding finish get_stuck advance
on_principal_answer i r keys_rejected s = finish i r (some principal_error) s
on_principal_answer i r (keys none) s = get_stuck i s
on_principal_answer i r (keys (some k)) s = advance i r gave_core (give_core k) s

-- The last callback: the error that the caller gets, or `none` inside for none; an exception is
-- `none`. The message of a response of the type "Error" is looked for in the earlier response, whose
-- type is another.
unfoldable pub store_error : StoreAnswer → Option (Option KeysError)
store_error a = elim a.result [
  | none ↦ if is_some a.error || a.is_error then some (core_error_of a.error) else none
  | some none ↦ none
  | some (some n) ↦ if ltb 0 n then some (some result_errors) else some (core_error_of a.error)
]

unfoldable pub on_keys_stored : ℕ → Run → StoreAnswer → System → System × List Output
unfolding finish get_stuck
on_keys_stored i r a s = elim (store_error a) [ none ↦ get_stuck i s | some e ↦ finish i r e s ]

-- An answer to the execution `i`, which awaits one of its phase.
unfoldable pub dispatch : Phase → ℕ → Run → Event → System → System × List Output
unfolding on_core_answer on_principal_answer on_keys_stored
dispatch asked_core i r (core_answered j a) s = on_core_answer i r a s
dispatch asked_principal i r (principal_answered j a) s = on_principal_answer i r a s
dispatch gave_core i r (keys_stored j a) s = on_keys_stored i r a s
dispatch _ i r e s = (s, [])

unfoldable pub deliver : ℕ → Event → System → System × List Output
unfolding dispatch
deliver i e s = elim (get_elem? s.running i) [ none ↦ (s, []) | some r ↦ dispatch r.phase i r e s ]

unfoldable pub step : Event → System → System × List Output
unfolding start_run handle_verified deliver
step (get_keys addresses block) s = start_run none addresses block s
step (verified t) s = handle_verified t s
step (core_answered i a) s = deliver i (core_answered i a) s
step (principal_answered i a) s = deliver i (principal_answered i a) s
step (keys_stored i a) s = deliver i (keys_stored i a) s

unfoldable pub after : List Event → System → System
unfolding step
after [] s = s
after (e ∷ es) s = after es (step e s).0
