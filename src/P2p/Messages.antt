-- ===== src/P2p/Messages.antt =====
-- src/policy/p2p_messages/messages.js and the check of src/policy/policy.js.
use text.Mathlib.Text.{◌==◌ as str_eq}
use enigma_p2p.Base.{
  ℕ, String, Bool, true, false, Option, none, some, is_some, List, ◌>>=◌, ◌&&◌, ◌||◌, if◌then◌else◌,
}

-- `params[0]` of a request.
pub record Params : Type 0 where
  pub from : String
  pub to : String
  pub max_peers : Option ℕ

-- `result` of a response. `peers` is that of a findpeers response.
pub record MsgResult : Type 0 where
  pub from : String
  pub to : String
  pub type : Option String
  pub peers : Option (List String)

-- A JSON RPC message; a field that is missing is `none`.
pub record RawMsg : Type 0 where
  pub jsonrpc : Option String
  pub method : Option String
  pub params : Option Params
  pub result : Option MsgResult
  pub id : Option String

-- The argument of a constructor, read as an object: a message, or the fields to make one of.
pub record MsgParams : Type 0 where
  pub raw : RawMsg
  pub from : Option String
  pub to : Option String
  pub max_peers : Option ℕ
  pub peers : Option (List String)

-- `validJsonRpc`; the text "params" that is tested there is always true.
unfoldable pub valid_json_rpc : RawMsg → Bool
valid_json_rpc m = is_some m.jsonrpc && (is_some m.method || is_some m.result) && is_some m.id

-- HeartBeatReqMsg; `none` is the exception of the check at a message that was not made.
unfoldable pub heart_beat_req : (rand : String) → MsgParams → Option RawMsg
heart_beat_req rand p = if is_some p.raw.jsonrpc then some p.raw else do
  from ← p.from
  to ← p.to
  some (record {
    jsonrpc = some "2.0";
    method = some "heartbeat";
    params = some (record { from = from; to = to; max_peers = none });
    result = none;
    id = some rand;
  })

-- HeartBeatResMsg
unfoldable pub heart_beat_res : MsgParams → Option RawMsg
heart_beat_res p = if is_some p.raw.jsonrpc && is_some p.raw.result then some p.raw else do
  from ← p.from
  to ← p.to
  id ← p.raw.id
  some (record {
    jsonrpc = some "2.0";
    method = none;
    params = none;
    result = some (record { from = from; to = to; type = some "heartbeat"; peers = none });
    id = some id;
  })

-- FindPeersReqMsg
unfoldable pub find_peers_req : (rand : String) → MsgParams → Option RawMsg
find_peers_req rand p = if is_some p.raw.jsonrpc then some p.raw else do
  from ← p.from
  to ← p.to
  max ← p.max_peers
  some (record {
    jsonrpc = some "2.0";
    method = some "findpeers_req";
    params = some (record { from = from; to = to; max_peers = some max });
    result = none;
    id = some rand;
  })

-- FindPeersResMsg
unfoldable pub find_peers_res : MsgParams → Option RawMsg
find_peers_res p = if is_some p.raw.jsonrpc && is_some p.raw.result then some p.raw else do
  from ← p.from
  to ← p.to
  peers ← p.peers
  id ← p.raw.id
  some (record {
    jsonrpc = some "2.0";
    method = none;
    params = none;
    result = some (record { from = from; to = to; type = none; peers = some peers });
    id = some id;
  })

unfoldable pub same_text : Option String → Option String → Bool
same_text none none = true
same_text (some a) (some b) = str_eq a b
same_text none (some b) = false
same_text (some a) none = false

-- `isCompatibleWithMsg` of both responses; `none` is an exception at a response without a result or a
-- request without parameters.
unfoldable pub is_compatible : (request response : RawMsg) → Option Bool
unfolding same_text valid_json_rpc
is_compatible request response = do
  p ← request.params
  r ← response.result
  some (
      if same_text request.id response.id && str_eq p.from r.to
      then valid_json_rpc response
      else false)
