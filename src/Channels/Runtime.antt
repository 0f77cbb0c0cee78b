-- ===== src/Channels/Runtime.antt =====
-- src/core/CoreRuntime.js with its actions, and src/main_controller/channels/Communicator.js: from a
-- request on the channel to the promise of `sendAndReceive`.
use enigma_p2p.Base.{String, Option, none, some, List, [], ◌∷◌, ◌++◌, if◌then◌else◌}
use enigma_p2p.Base.Dict
use enigma_p2p.Base.Dict.{Dict}
use enigma_p2p.Sync.Accept.{other_message, state_response, bytecode_response}
use enigma_p2p.Channels.Envelop.{
  RequestType, core_db_action, deploy_secret_contract, compute_task, get_registration_params,
  new_task_encryption_key, get_all_tips, get_all_addrs, get_deltas, get_contract, update_db,
  get_delta, get_tips, get_ptt_request, ptt_response, unknown_request, Input, core_message,
  sync_message, no_message, Envelop,
}
use enigma_p2p.Channels.Ipc.{
  whole, query, update_deltas, update_new_contract, from_topic, CoreRequest, CoreResponse, Answer,
  call_threw, IpcClient, Answers, send_to_core, on_message,
}

-- The table of actions; a request of a type that has none is dropped.
pub data CoreAction : Type 0 where
  send_to_core_action pre_parse_action get_db_action update_db_action no_action : CoreAction

unfoldable pub action_of : RequestType → CoreAction
action_of core_db_action = send_to_core_action
action_of deploy_secret_contract = pre_parse_action
action_of compute_task = pre_parse_action
action_of get_registration_params = pre_parse_action
action_of new_task_encryption_key = pre_parse_action
action_of get_all_tips = get_db_action
action_of get_all_addrs = get_db_action
action_of get_deltas = get_db_action
action_of get_contract = get_db_action
action_of update_db = update_db_action
action_of get_delta = no_action
action_of get_tips = get_db_action
action_of get_ptt_request = get_db_action
action_of ptt_response = get_db_action
action_of unknown_request = no_action

-- What an action makes of an envelope: a request for Core, nothing, or an exception.
pub data Made : Type 0 where
  made : CoreRequest → Made
  nothing_made : Made
  make_threw : Made

-- `_buildRequest` of UpdateDbAction; `rand` is its random id. No request is `null`, of which
-- SendToCoreAction cannot read the id.
unfoldable pub build_update : (rand : String) → Input → Made
build_update rand (core_message id x) = made (record { id = id; body = from_topic x })
build_update rand (sync_message (state_response ds)) =
    made (record { id = some rand; body = update_deltas ds })
build_update rand (sync_message (bytecode_response a bytes)) =
    made (record { id = some rand; body = update_new_contract a bytes })
build_update rand (sync_message other_message) = make_threw
build_update rand no_message = make_threw

-- The action's `execute`, up to SendToCoreAction. That action itself has no envelope if it is
-- called from the channel.
unfoldable pub request_of : (rand : String) → Envelop → Made
unfolding action_of build_update
request_of rand e = elim (action_of e.content.type) [
  | send_to_core_action ↦ make_threw
  | pre_parse_action ↦ made (record { id = e.content.id; body = whole e.content })
  | get_db_action ↦ made (record { id = e.content.id; body = query e.content.type e.content.input })
  | update_db_action ↦ build_update rand e.content.input
  | no_action ↦ nothing_made
]

abbrev pub listen : Option String → List String → List String
listen none l = l
listen (some i) l = i ∷ l

module _ (validate : CoreRequest → Option (CoreRequest)) where
  -- The channel: the client, the ids that `sendAndReceive` listens for, and what has been emitted to
  -- them, in order: the promise of the first call with an id has the first answer under it.
  pub record Channel : Type 0 where
    pub client : IpcClient
    pub listening : List String
    pub emitted : Dict (Answer)

  -- `send` of an answer emits the event that is its id; one with no id goes to `setOnMessage`, which
  -- is no promise.
  unfoldable pub emit_answer : Option String → Answer → Channel → Channel
  emit_answer none a s = s
  emit_answer (some i) a s =
      if Dict.listed i s.listening then record s { emitted = s.emitted ++ (i, a) ∷ [] } else s

  unfoldable pub emit_all : Answers → Channel → Channel
  unfolding emit_answer
  emit_all [] s = s
  emit_all ((e, a) ∷ rest) s = emit_all rest (emit_answer e.id a s)

  -- A call of `sendAndReceive`, with the random id of UpdateDbAction; or a message from Core.
  pub data Event : Type 0 where
    request : (rand : String) → Envelop → Event
    message : CoreResponse → Event

  -- The rest of `sendAndReceive`, once its listener is there.
  unfoldable pub send_made : Envelop → Made → Channel → Channel
  unfolding emit_answer emit_all
  send_made e nothing_made s = s
  send_made e make_threw s = emit_answer e.id call_threw s
  send_made e (made r) s =
      let (c, answers) = send_to_core validate e r s.client in
      emit_all answers (record s { client = c })

  unfoldable pub send_and_receive : (rand : String) → Envelop → Channel → Channel
  unfolding send_made request_of
  send_and_receive rand e s =
      send_made e (request_of rand e) (record s { listening = listen e.id s.listening })

  unfoldable pub receive : CoreResponse → Channel → Channel
  unfolding emit_all
  receive r s =
      let (c, answers) = on_message r s.client in emit_all answers (record s { client = c })

  unfoldable pub handle : Event → Channel → Channel
  unfolding send_and_receive receive
  handle (request rand e) s = send_and_receive rand e s
  handle (message r) s = receive r s

  unfoldable pub handle_all : List Event → Channel → Channel
  unfolding handle
  handle_all [] s = s
  handle_all (ev ∷ evs) s = handle_all evs (handle ev s)

abbrev pub idle_channel : (validate : CoreRequest → Option (CoreRequest)) → Channel validate
idle_channel validate = record {
  client = record { msg_mapping = []; sent = [] };
  listening = [];
  emitted = [];
}
