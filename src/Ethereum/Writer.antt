-- ===== src/Ethereum/Writer.antt =====
-- src/ethereum/EnigmaContractWriterAPI.js: the options and the arguments of a transaction, and the
-- promise that waits for its confirmations.
use text.Mathlib.Text.{◌==◌ as str_eq}
use enigma_p2p.Base.{
  ℕ, String, Bool, true, false, not, Option, none, some, List, [], ◌∷◌, ◌||◌, ◌>>=◌, leb, ltb, ◌==◌,
  if◌then◌else◌,
}
use enigma_p2p.Base.Text.{add0x}
use enigma_p2p.Actions.Commit.{
  ChainCall, deploy_contract, deploy_failure, commit_receipt, commit_failure, Sent, mined,
  refused_call,
}

-- Options of a transaction; one that is not given is `none`.
pub record TxParams : Type 0 where
  pub gas : Option ℕ
  pub gas_price : Option ℕ
  pub from : Option String

-- `config.json` (`valid`)
pub record ValidParams : Type 0 where
  pub gas_min : ℕ
  pub gas_max : ℕ
  pub gas_price_min : ℕ
  pub gas_price_max : ℕ

pub data OptionsError : Type 0 where
  gas_out_of_range gas_price_out_of_range bad_from_address : OptionsError

unfoldable pub out_of_range : ℕ → ℕ → Option ℕ → Bool
out_of_range low high none = false
out_of_range low high (some n) = ltb n low || ltb high n

unfoldable pub bad_from : (String → Bool) → Option String → Bool
bad_from is_address none = false
bad_from is_address (some a) = not (is_address a)

-- `_validateTxParams`; `is_address` is web3's.
unfoldable pub validate_tx_params : (String → Bool) → ValidParams → TxParams → Option OptionsError
unfolding out_of_range bad_from
validate_tx_params is_address v p =
    if out_of_range v.gas_min v.gas_max p.gas
    then some gas_out_of_range
    else if out_of_range v.gas_price_min v.gas_price_max p.gas_price
    then some gas_price_out_of_range
    else if bad_from is_address p.from
    then some bad_from_address
    else none

-- `getTransactionOptions`: an error, or the options; `merge` is the package that fills in defaults.
pub data TxOptions : Type 0 where
  options : TxParams → TxOptions
  options_error : OptionsError → TxOptions

unfoldable pub get_transaction_options :
    (String → Bool)
    → (TxParams → TxParams → TxParams)
    → ValidParams
    → TxParams
    → Option TxParams
    → TxOptions
unfolding validate_tx_params
get_transaction_options is_address merge v defaults none = options defaults
get_transaction_options is_address merge v defaults (some p) =
    elim (validate_tx_params is_address v p) [
      | some e ↦ options_error e
      | none ↦ options (merge p defaults)
    ]

-- The methods of the contract with their arguments, as they are encoded.
pub data ContractMethod : Type 0 where
  deploy_secret_contract_method :
      (gas : ℕ)
      → (address : String) → (packed : List String) → (payload signature : String) → ContractMethod
  deploy_failure_method :
      (task_id output_hash : String) → (gas : ℕ) → (signature : String) → ContractMethod
  commit_receipt_method :
      (gas : ℕ)
      → (address : String) → (packed : List (Option String)) → (payload signature : String)
      → ContractMethod
  commit_failure_method :
      (contract : Option String)
      → (task_id output_hash : String) → (gas : ℕ) → (signature : String) → ContractMethod

-- `EMPTY_HEX_STRING` stands for a text that is empty.
unfoldable pub or_empty_hex : String → String
or_empty_hex s = if str_eq s "" then "0x" else s

-- `add0x` of an address that may be missing is `null`.
unfoldable pub add0x_or_null : Option String → Option String
add0x_or_null o = do s ← o; some (add0x s)

unfoldable pub method_of : ChainCall → ContractMethod
unfolding add0x or_empty_hex add0x_or_null
method_of (deploy_contract id pre code delta payload address gas sig) =
    deploy_secret_contract_method gas (add0x address)
      (add0x id ∷ add0x pre ∷ add0x code ∷ add0x delta ∷ []) (add0x (or_empty_hex payload))
      (add0x sig)
method_of (deploy_failure id output gas sig) =
    deploy_failure_method (add0x id) (add0x output) gas (add0x sig)
method_of (commit_receipt contract id delta output payload address gas sig) =
    commit_receipt_method gas (add0x address)
      (add0x_or_null contract
        ∷ some (add0x id)
        ∷ some (add0x (or_empty_hex delta))
        ∷ some (add0x output)
        ∷ [])
      (add0x (or_empty_hex payload)) (add0x sig)
method_of (commit_failure contract id output gas sig) =
    commit_failure_method (add0x_or_null contract) (add0x id) (add0x output) gas (add0x sig)

-- What web3 emits for a transaction that was sent.
pub data TxEvent : Type 0 where
  tx_error tx_receipt : TxEvent
  tx_confirmation : ℕ → TxEvent

-- What the handler of an event does with the promise: it rejects it, looks for the contract's events
-- to resolve it, or waits. A minimum of confirmations that is not a number is `none`:
-- a receipt resolves, and no comparison with it holds. One that is a fraction is left out.
pub data TxStep : Type 0 where
  rejects resolves waits : TxStep

unfoldable pub on_tx_event : Option ℕ → TxEvent → TxStep
on_tx_event min tx_error = rejects
on_tx_event none tx_receipt = resolves
on_tx_event (some n) tx_receipt = if n == 0 then resolves else waits
on_tx_event none (tx_confirmation k) = waits
on_tx_event (some n) (tx_confirmation k) = if leb n k then resolves else waits

-- How the promise is settled, by the first event that does; `none` while it is pending.
unfoldable pub tx_outcome : Option ℕ → List TxEvent → Option TxStep
tx_outcome min [] = none
tx_outcome min (e ∷ es) =
    let rest = tx_outcome min es in
    elim (on_tx_event min e) [ rejects ↦ some rejects | resolves ↦ some resolves | waits ↦ rest ]

-- The events of the contract that the writer looks for.
pub data ContractEvent : Type 0 where
  secret_contract_deployed receipt_verified receipt_failed receipt_failed_eth : ContractEvent

-- The event of a call that the contract took.
unfoldable pub event_of : ChainCall → ContractEvent
event_of (deploy_contract id pre code delta payload address gas sig) = secret_contract_deployed
event_of (commit_receipt contract id delta output payload address gas sig) = receipt_verified
event_of (deploy_failure id output gas sig) = receipt_failed
event_of (commit_failure contract id output gas sig) = receipt_failed

abbrev pub is_failure_call : ChainCall → Bool
is_failure_call (deploy_failure id output gas sig) = true
is_failure_call (commit_failure contract id output gas sig) = true
is_failure_call _ = false

-- `resolveLogic`: `found` says of an event whether the chain has one for the task, from the block of
-- the call on, or `none` where the query fails, which leaves the promise pending. The failure by
-- Ethereum is looked for where the first event is not there.
unfoldable pub resolve_logic : ChainCall → (ContractEvent → Option Bool) → Option Sent
unfolding event_of
resolve_logic call found =
    let failed_eth : Option Sent = found receipt_failed_eth >>= λ f. some (mined f) in
    found (event_of call) >>= λ b.
    if is_failure_call call || b then some (mined false) else failed_eth

-- What the chain does with a call.
pub record Network : Type 0 where
  pub events : ChainCall → List TxEvent
  pub found : ChainCall → ContractEvent → Option Bool

-- The promise of `deploySecretContract` and the like, with the default options: `none` while it is
-- pending.
unfoldable pub send_call : Option ℕ → Network → ChainCall → Option Sent
unfolding resolve_logic
send_call min net call = elim (tx_outcome min (net.events call)) [
  | some rejects ↦ some refused_call
  | some resolves ↦ resolve_logic call (net.found call)
  | some waits ↦ none
  | none ↦ none
]
