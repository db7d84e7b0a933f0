-- ===== src/Client.antt =====
-- The agent's side of the prompter socket (agent/src/backend/MacPrompterClient.cpp): one request, one
-- reply. What the socket does on the way is an argument; the secret in a result is its bytes.
pub mod Trust
pub mod Approval
pub mod EndToEnd
pub mod Reset
pub mod PinChange
use libre_darwin.Base.{
  ℕ, String, Option, none, some, List, [], ◌∷◌, Bool, true, false, not, ◌&&◌, ltb, ite, str_eq,
  if◌then◌else◌, ◌≡◌, ◌≢◌, Expected, value, unexpected,
}
use libre_darwin.Wire.{Cbor, PrompterWire}
use libre_darwin.Protocol.Messages.{
  PromptRequest, RequestSecrets, ConfirmAction, PromptCancel, PromptReply, MultiPromptReply,
  ConfirmReply, prompter_protocol_version,
}
use libre_darwin.Protocol.Fields.{Parsed}
use libre_darwin.Protocol.Encode.{
  prompt_request_to_cbor, request_secrets_to_cbor, confirm_action_to_cbor, prompt_cancel_to_cbor,
}
use libre_darwin.Protocol.Decode.Replies.{
  parse_prompt_reply, parse_multi_prompt_reply, parse_confirm_reply,
}

-- `Agent::PromptStatus` and `promptStatusFor(status, false)`: with no MRZ alternative on offer, only the
-- reply word Ok reads as Ok.
pub record PromptStatuses (Status : Type 0) (ok : Status) : Type 1 where
  pub PromptStatus : Type 0
  pub status_eq : Discrete PromptStatus
  pub prompt_ok : PromptStatus
  pub prompt_error : PromptStatus
  pub timeout : PromptStatus
  pub helper_too_old : PromptStatus
  pub prompt_status_for : Status → PromptStatus
  pub prompt_status_for-ok : prompt_status_for ok ≡ prompt_ok
  pub ok_of_prompt_status_for : (s : Status) → prompt_status_for s ≡ prompt_ok → s ≡ ok
  pub prompt_error-ne-ok : prompt_error ≢ prompt_ok
  pub timeout-ne-ok : timeout ≢ prompt_ok
  pub helper_too_old-ne-ok : helper_too_old ≢ prompt_ok

-- The fields of `Agent::PromptOptions` that the requests carry. `reader_interface` is the word that
-- `readerInterfaceToken` gives for `reader.iface`.
pub record PromptOptions : Type 0 where
  pub title : String
  pub description : String
  pub requester : String
  pub artifact : String
  pub pin_label : String
  pub min_length : ℕ
  pub max_length : ℕ
  pub artifacts : List String
  pub attempt : ℕ
  pub last_error : String
  pub prompt_id : String
  pub deadline_ms : ℕ
  pub alt_deadline_ms : ℕ
  pub reader_model : String
  pub reader_interface : String
  pub reader_full : String

unfoldable pub build_request : {Kind : Type 0} → Kind → PromptOptions → PromptRequest Kind
build_request kind o = record {
  kind = kind;
  title = o.title;
  description = o.description;
  requester = o.requester;
  artifact = o.artifact;
  min_length = o.min_length;
  max_length = o.max_length;
  artifacts = o.artifacts;
  attempt = o.attempt;
  last_error = o.last_error;
  prompt_id = o.prompt_id;
  deadline_ms = o.deadline_ms;
  alt_deadline_ms = o.alt_deadline_ms;
  reader_model = o.reader_model;
  reader_interface = o.reader_interface;
  reader_full = o.reader_full;
}

pub build_change_request : String → PromptOptions → RequestSecrets
build_change_request kind_change_pin o = record {
  kind = kind_change_pin;
  title = if str_eq o.title "" && not (str_eq o.pin_label "") then o.pin_label else o.title;
  description = o.description;
  requester = o.requester;
  artifact = o.artifact;
  primary_min_length = o.min_length;
  primary_max_length = o.max_length;
  new_min_length = o.min_length;
  new_max_length = o.max_length;
  prompt_id = o.prompt_id;
  deadline_ms = o.deadline_ms;
}

-- What `recvFrameBounded` comes back with.
pub data Received (Body : Type 0) : Type 0 where
  frame : Body → Received Body
  timed_out recv_failed : Received Body

-- What the socket calls give: whether `connectPrompter` connected, the verifier accepted the serving
-- peer, the receive budget was set and the frame was sent; and the peer's answer to what was sent.
pub record Link (Body : Type 0) : Type 0 where
  pub connected : Bool
  pub peer_verified : Bool
  pub budget_set : Bool
  pub frame_sent : Bool
  pub answer : Body → Received Body

pub record PromptResult (PromptStatus : Type 0) : Type 0 where
  pub status : PromptStatus
  pub secret : List ℕ
  pub user_message : String

pub record PinChangePromptResult (PromptStatus : Type 0) : Type 0 where
  pub status : PromptStatus
  pub current : List ℕ
  pub new_pin : List ℕ
  pub user_message : String

-- `!protocolVersion || *protocolVersion < kPrompterProtocolVersion`
abbrev pub too_old : Option ℕ → Bool
too_old none = true
too_old (some v) = ltb v prompter_protocol_version

module _ (w : PrompterWire) (c : Cbor) (ps : PromptStatuses w.Status w.ok) where
  open w use {Kind, Status, unauthorized}
  open ps use {PromptStatus, prompt_ok, prompt_error, timeout, helper_too_old, prompt_status_for}

  abbrev pub error_result : String → PromptResult PromptStatus
  error_result message = record { status = prompt_error; secret = []; user_message = message }

  abbrev pub change_error_result : String → PinChangePromptResult PromptStatus
  change_error_result message = record {
    status = prompt_error;
    current = [];
    new_pin = [];
    user_message = message;
  }

  -- The message of a result: the agent's own for a rejection, else the prompter's.
  pub message_for : Status → String → String
  message_for status user_message =
      ite (w.status_eq status unauthorized) "prompter rejected the agent (unauthorized)"
        user_message

  -- A reply that was parsed, judged by its protocol version and its word.
  pub judge : PromptReply Status → PromptResult PromptStatus
  unfolding message_for
  judge reply =
      if too_old reply.protocol_version
      then record { status = helper_too_old; secret = []; user_message = "" }
      else record {
        status = prompt_status_for reply.status;
        secret = ite (ps.status_eq (prompt_status_for reply.status) prompt_ok) reply.secret [];
        user_message = message_for reply.status reply.user_message;
      }

  pub read_reply : Received c.Body → PromptResult PromptStatus
  unfolding judge
  read_reply timed_out = record { status = timeout; secret = []; user_message = "" }
  read_reply recv_failed = error_result "prompter recv failed"
  read_reply (frame body) = elim (parse_prompt_reply w c body) [
    | unexpected e ↦ error_result "prompter reply malformed"
    | value reply ↦ judge reply
  ]

  -- `request`: the result, and the bodies that were handed to the socket, in order.
  unfoldable pub request :
      Link c.Body → Kind → PromptOptions → PromptResult PromptStatus × List c.Body
  unfolding read_reply build_request
  request link kind options =
      let body = c.encode (prompt_request_to_cbor w c (build_request kind options)) in
      if not link.connected
      then (error_result "prompter unavailable", [])
      else if not link.peer_verified
      then (error_result "prompter peer verification failed", [])
      else if not link.budget_set
      then (error_result "prompter reply wait could not be bounded", [])
      else if not link.frame_sent
      then (error_result "prompter send failed", body ∷ [])
      else (read_reply (link.answer body), body ∷ [])

  unfoldable pub judge_change : MultiPromptReply Status → PinChangePromptResult PromptStatus
  unfolding message_for
  judge_change reply =
      if too_old reply.protocol_version
      then record { status = helper_too_old; current = []; new_pin = []; user_message = "" }
      else record {
        status = prompt_status_for reply.status;
        current = ite (ps.status_eq (prompt_status_for reply.status) prompt_ok) reply.primary [];
        new_pin = ite (ps.status_eq (prompt_status_for reply.status) prompt_ok) reply.secondary [];
        user_message = message_for reply.status reply.user_message;
      }

  unfoldable pub read_change_reply : Received c.Body → PinChangePromptResult PromptStatus
  unfolding judge_change
  read_change_reply timed_out = record {
    status = timeout;
    current = [];
    new_pin = [];
    user_message = "";
  }
  read_change_reply recv_failed = change_error_result "prompter recv failed"
  read_change_reply (frame body) = elim (parse_multi_prompt_reply w c body) [
    | unexpected e ↦ change_error_result "prompter reply malformed"
    | value reply ↦ judge_change reply
  ]

  -- `requestPinChange`; `kind_change_pin` is `PrompterWire::kKindChangePin`.
  unfoldable pub request_pin_change :
      Link c.Body → String → PromptOptions → PinChangePromptResult PromptStatus × List c.Body
  unfolding read_change_reply build_change_request
  request_pin_change link kind_change_pin options =
      let body =
        c.encode (request_secrets_to_cbor w c (build_change_request kind_change_pin options)) in
      if not link.connected
      then (change_error_result "prompter unavailable", [])
      else if not link.peer_verified
      then (change_error_result "prompter peer verification failed", [])
      else if not link.budget_set
      then (change_error_result "prompter reply wait could not be bounded", [])
      else if not link.frame_sent
      then (change_error_result "prompter send failed", body ∷ [])
      else (read_change_reply (link.answer body), body ∷ [])

  abbrev pub refuse : String → ConfirmReply Status
  refuse why = record { status = w.error; user_message = why; protocol_version = none }

  -- There is no receive budget here: a timeout cannot happen, and is the failure it would be.
  pub read_confirm : Received c.Body → ConfirmReply Status
  read_confirm timed_out = refuse "prompter recv failed"
  read_confirm recv_failed = refuse "prompter recv failed"
  read_confirm (frame body) = elim (parse_confirm_reply w c body) [
    | unexpected e ↦ refuse "prompter reply malformed"
    | value reply ↦
        if too_old reply.protocol_version then refuse "prompter too old to confirm" else reply
  ]

  pub request_confirmation : Link c.Body → ConfirmAction → ConfirmReply Status × List c.Body
  unfolding read_confirm
  request_confirmation link action =
      let body = c.encode (confirm_action_to_cbor w c action) in
      if not link.connected
      then (refuse "prompter unavailable", [])
      else if not link.peer_verified
      then (refuse "prompter peer verification failed", [])
      else if not link.frame_sent
      then (refuse "prompter send failed", body ∷ [])
      else (read_confirm (link.answer body), body ∷ [])

  -- `cancel`: what is handed to the socket.
  pub cancel : Link c.Body → String → List c.Body
  cancel link prompt_id =
      if link.connected && link.peer_verified
      then c.encode (prompt_cancel_to_cbor w c (record { prompt_id = prompt_id })) ∷ []
      else []
