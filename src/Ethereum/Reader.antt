-- ===== src/Ethereum/Reader.antt =====
-- src/ethereum/EnigmaContractReaderAPI.js: the calls that read the contract as of the last confirmed
-- block, and the subscription to an event, which waits for its confirmations.
use enigma_p2p.Base.{
  ℕ, ◌+◌, ◌-◌, String, Bool, true, false, not, Option, none, some, List, [], ◌∷◌, map, ◌==◌, leb,
  ltb, if◌then◌else◌,
}
use enigma_p2p.Base.Text.{remove0x}
use enigma_p2p.Verifier.Check.{TaskRecordStatus, TaskParams}
use enigma_p2p.Sync.Compare.{RemoteContract}

-- The promise of a call.
pub data Read (A : Type 0) : Type 0 where
  resolved : A → Read A
  call_rejected : Read A
  data_error : Read A
  missing_address : Read A

-- The block that a call asks for; `none` is a negative number.
unfoldable pub confirmed_block : (minimum_confirmations current : ℕ) → Option ℕ
confirmed_block min current = if ltb current min then none else some (current - min)

-- A call of the contract's method, with the block: `none` is an error of it.
unfoldable pub read_confirmed :
    {A B : Type 0} → (min current : ℕ) → (Option ℕ → Option A) → (A → Read B) → Read B
unfolding confirmed_block
read_confirmed min current call use_data = elim (call (confirmed_block min current)) [
  | none ↦ call_rejected
  | some d ↦ use_data d
]

pub record RawContract : Type 0 where
  pub owner : String
  pub pre_code_hash : String
  pub code_hash : String
  pub status : ℕ
  pub state_delta_hashes : List String

-- `getContractParams`: the two fields that the worker compares and verifies by.
abbrev contract_params : RawContract → Read RemoteContract
contract_params d =
    resolved (record { code_hash = d.code_hash; delta_hashes = d.state_delta_hashes })

pub record RawWorker : Type 0 where
  pub keys : ℕ
  pub signer : String
  pub status : ℕ
  pub report : String
  pub balance : ℕ

pub record WorkerParams : Type 0 where
  pub address : String
  pub status : ℕ
  pub report : String
  pub balance : ℕ

-- The data of a worker has at least four entries.
unfoldable pub worker_params : (String → String) → RawWorker → Read WorkerParams
worker_params of_report d =
    if ltb d.keys 4
    then data_error
    else resolved (record {
      address = d.signer;
      status = d.status;
      report = of_report d.report;
      balance = d.balance;
    })

pub record RawReport : Type 0 where
  pub keys : ℕ
  pub signer : String
  pub report : String

unfoldable pub report_of : RawReport → Read (String × String)
report_of d = if not (d.keys == 2) then data_error else resolved (d.signer, d.report)

-- An address list, or `null`.
unfoldable pub addresses_of : Option (List String) → Read (Option (List String))
unfolding remove0x
addresses_of none = resolved none
addresses_of (some l) = resolved (some (map remove0x l))

pub record RawTask : Type 0 where
  pub inputs_hash : String
  pub gas_limit : ℕ
  pub gas_px : ℕ
  pub proof : String
  pub sender : String
  pub block_number : ℕ
  pub status : TaskRecordStatus
  pub output_hash : String

abbrev task_params : RawTask → Read TaskParams
task_params d = resolved (record {
  inputs_hash = d.inputs_hash;
  gas_limit = d.gas_limit;
  block_number = d.block_number;
  status = d.status;
  output_hash = d.output_hash;
})

module _ (min current : ℕ) where
  unfoldable pub get_contract_params : (Option ℕ → Option RawContract) → Read RemoteContract
  unfolding read_confirmed
  get_contract_params call = read_confirmed min current call contract_params

  unfoldable pub count_secret_contracts : (Option ℕ → Option ℕ) → Read ℕ
  unfolding read_confirmed
  count_secret_contracts call = read_confirmed min current call resolved

  -- `getSecretContractAddresses` and `getAllSecretContractAddresses`
  unfoldable pub get_secret_contract_addresses :
      (Option ℕ → Option (Option (List String))) → Read (Option (List String))
  unfolding read_confirmed addresses_of
  get_secret_contract_addresses call = read_confirmed min current call addresses_of

  unfoldable pub get_worker : (Option ℕ → Option RawWorker) → Read WorkerParams
  unfolding read_confirmed worker_params
  get_worker call = read_confirmed min current call (worker_params (λ r. r))

  -- `hex_to_ascii` is web3's.
  unfoldable pub get_self_worker :
      (hex_to_ascii : String → String)
      → (worker_address : Option String) → (String → Option ℕ → Option RawWorker)
      → Read WorkerParams
  unfolding read_confirmed worker_params
  get_self_worker hex_to_ascii none call = missing_address
  get_self_worker hex_to_ascii (some a) call =
      read_confirmed min current (call a) (worker_params hex_to_ascii)

  unfoldable pub get_report : (Option ℕ → Option RawReport) → Read (String × String)
  unfolding read_confirmed report_of
  get_report call = read_confirmed min current call report_of

  unfoldable pub get_task_params : (Option ℕ → Option RawTask) → Read TaskParams
  unfolding read_confirmed
  get_task_params call = read_confirmed min current call task_params

-- What web3 calls back with while an event waits for its confirmations.
pub data HeaderEvent : Type 0 where
  header_error header_changed subscription_error : HeaderEvent
  header : (number : ℕ) → HeaderEvent

-- The subscription for one event: whether it is open, how often the listener was called with the
-- event, and how often with an error.
pub record Subscriber : Type 0 where
  pub is_open : Bool
  pub delivered : ℕ
  pub errors : ℕ

-- A callback. An error in it names a variable that is not declared, so that neither the listener is
-- called nor the subscription closed; a changed header only takes the event's name off a list.
unfoldable pub on_header : (confirmed : ℕ) → HeaderEvent → Subscriber → Subscriber
on_header confirmed header_error s = s
on_header confirmed header_changed s = s
on_header confirmed subscription_error s =
    if s.is_open then record s { errors = s.errors + 1 } else s
on_header confirmed (header n) s =
    if s.is_open
    then (if leb confirmed n then record s { is_open = false; delivered = s.delivered + 1 } else s)
    else s

unfoldable pub on_headers : (confirmed : ℕ) → List HeaderEvent → Subscriber → Subscriber
unfolding on_header
on_headers confirmed [] s = s
on_headers confirmed (h ∷ hs) s = on_headers confirmed hs (on_header confirmed h s)

-- `subscribe`, from an event that arrives at the block `current` on.
unfoldable pub subscribe_event : (min current : ℕ) → List HeaderEvent → Subscriber
unfolding on_headers
subscribe_event min current hs =
    on_headers (current + min) hs (record { is_open = true; delivered = 0; errors = 0 })
