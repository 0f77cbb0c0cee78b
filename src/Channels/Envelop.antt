-- ===== src/Channels/Envelop.antt =====
-- src/main_controller/channels/Envelop.js, and the content of the envelopes for Core.
use text.Mathlib.Text.{◌==◌ as str_eq}
use enigma_p2p.Base.{String, Bool, false, not, Option, none, some, if◌then◌else◌}
use enigma_p2p.Sync.Accept.{SyncMessage}

-- `content().type`, by the tables of CoreRuntime; any other type is `unknown_request`.
pub data RequestType : Type 0 where
  core_db_action deploy_secret_contract compute_task get_registration_params : RequestType
  new_task_encryption_key get_all_tips get_all_addrs get_deltas get_contract : RequestType
  update_db get_delta get_tips get_ptt_request ptt_response unknown_request : RequestType

-- `content().input`: a message for Core, with its id, as it came from a published result; a message
-- of the synchronisation; or anything that UpdateDbAction makes no request of.
pub data Input : Type 0 where
  core_message : Option String → String → Input
  sync_message : SyncMessage → Input
  no_message : Input

-- `rest` is what else the object has, as JSON. An id that is missing or empty is `none`.
pub record Content : Type 0 where
  pub id : Option String
  pub type : RequestType
  pub input : Input
  pub rest : String

pub record Envelop : Type 0 where
  pub is_valid : Bool
  pub msg_type : String
  pub id : Option String
  pub content : Content

-- The first argument of the constructor: `true`, a text, or anything else.
pub data Sequence : Type 0 where
  new_sequence : Sequence
  sequence_id : String → Sequence
  no_sequence : Sequence

-- A text that is empty is no id.
unfoldable pub given_id : String → Option String
given_id s = if str_eq s "" then none else some s

-- `rand` is the random id for the envelope.
unfoldable pub sequence_of : (rand : String) → Sequence → Option String
unfolding given_id
sequence_of rand new_sequence = some rand
sequence_of rand (sequence_id s) = given_id s
sequence_of rand no_sequence = none

-- A content without an id gets a random one, if the envelope has an id.
unfoldable pub attach_id : (rand : String) → (envelop_id : Option String) → Content → Content
attach_id rand none c = c
attach_id rand (some e) c = elim c.id [ none ↦ record c { id = some rand } | some i ↦ c ]

-- The constructor; `rand_msg` is the random id for the content.
unfoldable pub new_envelop :
    (rand rand_msg : String) → Sequence → Content → (msg_type : String) → Envelop
unfolding sequence_of attach_id
new_envelop rand rand_msg sequence c msg_type =
    let id : Option String = sequence_of rand sequence in
    record {
      is_valid = elim id [ none ↦ false | some i ↦ not (str_eq msg_type "") ];
      msg_type = msg_type;
      id = id;
      content = attach_id rand_msg id c;
    }
