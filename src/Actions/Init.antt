-- ===== src/Actions/Init.antt =====
-- src/worker/controller/actions/InitWorkerAction.js: the start of a worker.
use enigma_p2p.Base.{
  ◌≡◌, Bool, true, false, Option, none, some, List, [], ◌∷◌, ◌++◌, arith, if◌then◌else◌,
}

-- How a phase that ends by a callback does.
pub data PhaseEnd : Type 0 where
  phase_ok phase_failed phase_pending : PhaseEnd

-- `ETHEREUM_WORKER_STATUS`
pub data WorkerStatus : Type 0 where
  unregistered logged_in logged_out unknown_status : WorkerStatus

-- The answer to `GET_ETH_WORKER_PARAM`: an error, a worker's status, or nothing to read it from.
pub data WorkerAnswer : Type 0 where
  params_failed params_missing : WorkerAnswer
  params_status : WorkerStatus → WorkerAnswer

-- What the action calls.
pub record Initializing : Type 0 where
  pub is_initialized : Bool
  pub has_ethereum : Bool
  pub sync : PhaseEnd
  pub announce : PhaseEnd
  pub worker_params : WorkerAnswer

-- What it does, in order.
pub data InitStep : Type 0 where
  init_started sync_called announce_called epoch_subscribed self_subscribed : InitStep
  params_read register_called init_done : InitStep

pub data InitError : Type 0 where
  sync_error announce_error type_error : InitError

-- The call of the callback; `no_callback` is none, for a phase that does not call back.
pub data InitEnd : Type 0 where
  called_back : Option InitError → InitEnd
  no_callback : InitEnd

pub record Init : Type 0 where
  pub steps : List InitStep
  pub end : InitEnd

-- The last callback of the waterfall.
abbrev finished : List InitStep → Option InitError → Init
finished steps e = record { steps = steps ++ init_done ∷ []; end = called_back e }

-- `registerWorker`: the errors of reading the parameters and of the registration are logged, and it
-- returns as it does where all went well.
unfoldable pub register_worker : Initializing → List InitStep → Init
register_worker env steps =
    if env.has_ethereum
    then (elim env.worker_params [
      | params_failed ↦ finished (steps ++ params_read ∷ []) none
      | params_missing ↦ finished (steps ++ params_read ∷ []) (some type_error)
      | params_status status ↦ elim status [
        | logged_in ↦ finished (steps ++ params_read ∷ []) none
        | logged_out ↦ finished (steps ++ params_read ∷ []) none
        | unregistered ↦ finished (steps ++ params_read ∷ register_called ∷ []) none
        | unknown_status ↦ finished (steps ++ params_read ∷ register_called ∷ []) none
      ]
    ])
    else finished steps none

unfoldable pub background_services : Initializing → List InitStep → List InitStep
background_services env steps =
    if env.has_ethereum
    then steps ++ epoch_subscribed ∷ self_subscribed ∷ []
    else steps ++ self_subscribed ∷ []

unfoldable pub announce_state : Initializing → List InitStep → Init
unfolding register_worker background_services
announce_state env steps = elim env.announce [
  | phase_ok ↦ register_worker env (background_services env (steps ++ announce_called ∷ []))
  | phase_failed ↦ finished (steps ++ announce_called ∷ []) (some announce_error)
  | phase_pending ↦ record { steps = steps ++ announce_called ∷ []; end = no_callback }
]

unfoldable pub sync_state : Initializing → List InitStep → Init
unfolding announce_state
sync_state env steps =
    if env.has_ethereum
    then (elim env.sync [
      | phase_ok ↦ announce_state env (steps ++ sync_called ∷ [])
      | phase_failed ↦ finished (steps ++ sync_called ∷ []) (some sync_error)
      | phase_pending ↦ record { steps = steps ++ sync_called ∷ []; end = no_callback }
    ])
    else announce_state env steps

-- `execute`
unfoldable pub init_worker : Initializing → Init
unfolding sync_state
init_worker env =
    if env.is_initialized
    then record { steps = []; end = called_back none }
    else sync_state env (init_started ∷ [])

-- How the start of a worker with Ethereum ends, by the ends of its phases.
abbrev pub end_of : PhaseEnd → PhaseEnd → WorkerAnswer → InitEnd
end_of phase_ok phase_ok params_missing = called_back (some type_error)
end_of phase_ok phase_ok _ = called_back none
end_of phase_ok phase_failed p = called_back (some announce_error)
end_of phase_ok phase_pending p = no_callback
end_of phase_failed a p = called_back (some sync_error)
end_of phase_pending a p = no_callback

-- The start of a worker with Ethereum that is not initialized ends as `end_of` says: the outcome of
-- the registration does not matter, and an error of the call for the worker's parameters is none.
pub init_worker_end :
    (env : Initializing)
    → env.is_initialized ≡ false
    → env.has_ethereum ≡ true
    → (init_worker env).end ≡ end_of env.sync env.announce env.worker_params
unfolding init_worker sync_state announce_state register_worker
init_worker_end env fresh eth = ground (arith, fresh, eth)
