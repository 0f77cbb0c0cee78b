-- ===== src/StateKeys/Principal.antt =====
-- src/policy/p2p_messages/principal_messages.js, and `getStateKeys` of
-- src/worker/handlers/PrincipalNode.js: a request to the principal node, which is tried again.
use text.Mathlib.Text.{◌==◌ as str_eq}
use enigma_p2p.Base.{
  ℕ, zero, suc, String, Bool, true, false, Option, none, some, List, ◌>>=◌, ◌==◌, if◌then◌else◌,
}

-- A text or a number is taken for `false` if it is empty or zero.
unfoldable pub non_empty : Option String → Option String
non_empty s = do t ← s; if str_eq t "" then none else some t

unfoldable pub non_zero : Option ℕ → Option ℕ
non_zero n = do k ← n; if k == 0 then none else some k

pub record MsgPrincipal : Type 0 where
  pub request : String
  pub sig : String
  pub addresses : Option (List (Option String))
  pub block_number : Option ℕ

-- `build`: `null` without a request or a signature.
unfoldable pub build_msg :
    Option String → Option String → Option (List (Option String)) → Option ℕ → Option MsgPrincipal
unfolding non_empty non_zero
build_msg request sig addresses block = do
  r ← non_empty request
  s ← non_empty sig
  some (record { request = r; sig = s; addresses = addresses; block_number = non_zero block })

-- What the principal node sends to a worker.
pub record StateKeys : Type 0 where
  pub keys : String
  pub sig : String

-- The callback of a request: an error of the connection, an error in the response, which may have
-- the code of an epoch's change, or a result.
pub data PrincipalAnswer : Type 0 where
  request_error : PrincipalAnswer
  response_error : (epoch_transition : Bool) → PrincipalAnswer
  response_result : Option StateKeys → PrincipalAnswer

-- The promise of `getStateKeys`.
pub data KeysReply : Type 0 where
  keys : Option StateKeys → KeysReply
  keys_rejected : KeysReply

unfoldable pub can_retry : PrincipalAnswer → Bool
can_retry request_error = true
can_retry (response_error epoch_transition) = epoch_transition
can_retry (response_result r) = false

unfoldable pub reply_of : PrincipalAnswer → KeysReply
reply_of (response_result r) = keys r
reply_of _ = keys_rejected

-- `retryOptions.retries`
abbrev pub max_retries : ℕ
max_retries = 10

-- The attempts from the `k`-th on, with `left` retries left: the package `retry` grants another one
-- as long as any is left. The number is that of the last attempt.
unfoldable pub attempts : (left : ℕ) → (ℕ → PrincipalAnswer) → ℕ → KeysReply × ℕ
attempts zero answer k = (reply_of (answer k), k)
attempts (suc left) answer k =
    let rest = attempts left answer (suc k) in
    if can_retry (answer k) then rest else (reply_of (answer k), k)

-- `getStateKeys`: a message that is `null` is rejected, and nothing is sent.
unfoldable pub get_state_keys : Option MsgPrincipal → (ℕ → PrincipalAnswer) → KeysReply × Option ℕ
get_state_keys none answer = (keys_rejected, none)
get_state_keys (some msg) answer = let (reply, n) = attempts max_retries answer 0 in (reply, some n)
