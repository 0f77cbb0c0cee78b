-- ===== src/Ethereum/Account.antt =====
-- src/ethereum/EnigmaContractWriterAPI.js: the transactions on the worker itself.
use enigma_p2p.Base.{ℕ, String, Option, none, some, List}
use enigma_p2p.Base.Text.{add0x}
use enigma_p2p.Ethereum.Writer.{
  TxOptions, options, options_error, OptionsError, TxEvent, rejects, resolves, waits, tx_outcome,
  add0x_or_null,
}

pub data AccountCall : Type 0 where
  register : (signer_address report signature : String) → AccountCall
  unregister login logout : AccountCall

-- The methods of the contract with their arguments.
pub data AccountMethod : Type 0 where
  register_method :
      (staking_address : Option String) → (signer report signature : String) → AccountMethod
  unregister_method login_method logout_method : AccountMethod

unfoldable pub account_method_of : (staking_address : Option String) → AccountCall → AccountMethod
unfolding add0x add0x_or_null
account_method_of staking (register signer report sig) =
    register_method (add0x_or_null staking) (add0x signer) (add0x report) (add0x sig)
account_method_of staking unregister = unregister_method
account_method_of staking login = login_method
account_method_of staking logout = logout_method

-- The promise of a call; `account_pending` is one that is not settled.
pub data AccountEnd : Type 0 where
  account_done account_rejected account_pending : AccountEnd
  account_refused : OptionsError → AccountEnd

unfoldable pub account_end : Option ℕ → TxOptions → List TxEvent → AccountEnd
unfolding tx_outcome
account_end min (options_error e) events = account_refused e
account_end min (options p) events = elim (tx_outcome min events) [
  | some rejects ↦ account_rejected
  | some resolves ↦ account_done
  | some waits ↦ account_pending
  | none ↦ account_pending
]
