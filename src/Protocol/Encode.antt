-- ===== src/Protocol/Encode.antt =====
-- The `toCbor` overloads of wire/PrompterProtocol.cpp: the map of each message, and the value.
use libre_darwin.Base.{String, [], ◌|>◌, ite, str_eq, if◌then◌else◌}
use libre_darwin.Wire.{Cbor, PrompterWire}
use libre_darwin.Wire.Maps.{Map, emplace}
use libre_darwin.Protocol.Messages.{
  PromptRequest, PromptCancel, RequestSecrets, ConfirmAction, PromptReply, MultiPromptReply,
  ConfirmReply, ResetDone,
}
use libre_darwin.Protocol.Fields.{put_text, put_uint, put_texts, emplace_version}

module _ (w : PrompterWire) (c : Cbor) where
  open w use {Kind, Status, status_eq, ok, kind_token, reply_status_token, unknown_interface}
  open c use {Value, text, bytes, of_map}

  -- An interface the agent could not determine is absence too, not its word.
  pub shown_interface : String → String
  shown_interface s = if str_eq s unknown_interface then "" else s

  unfoldable pub prompt_request_map : PromptRequest Kind → Map Value
  prompt_request_map r =
      []
      |> emplace "t" (text "RequestSecret")
      |> emplace_version c
      |> emplace "kind" (text (kind_token r.kind))
      |> put_text c "title" r.title
      |> put_text c "description" r.description
      |> put_text c "requester" r.requester
      |> put_text c "artifact" r.artifact
      |> put_uint c "minLength" r.min_length
      |> put_uint c "maxLength" r.max_length
      |> put_texts c "artifacts" r.artifacts
      |> put_uint c "attempt" r.attempt
      |> put_text c "lastError" r.last_error
      |> put_text c "promptId" r.prompt_id
      |> put_uint c "deadlineMs" r.deadline_ms
      |> put_uint c "altDeadlineMs" r.alt_deadline_ms
      |> put_text c "readerModel" r.reader_model
      |> put_text c "readerInterface" (shown_interface r.reader_interface)
      |> put_text c "readerFull" r.reader_full

  unfoldable pub prompt_request_to_cbor : PromptRequest Kind → Value
  prompt_request_to_cbor r = of_map (prompt_request_map r)

  unfoldable pub prompt_cancel_map : PromptCancel → Map Value
  prompt_cancel_map r =
      []
      |> emplace "t" (text "CancelCurrent")
      |> emplace_version c
      |> put_text c "promptId" r.prompt_id

  unfoldable pub prompt_cancel_to_cbor : PromptCancel → Value
  prompt_cancel_to_cbor r = of_map (prompt_cancel_map r)

  unfoldable pub request_secrets_map : RequestSecrets → Map Value
  request_secrets_map r =
      []
      |> emplace "t" (text "RequestSecrets")
      |> emplace_version c
      |> emplace "kind" (text r.kind)
      |> put_text c "title" r.title
      |> put_text c "description" r.description
      |> put_text c "requester" r.requester
      |> put_text c "artifact" r.artifact
      |> put_uint c "primaryMinLength" r.primary_min_length
      |> put_uint c "primaryMaxLength" r.primary_max_length
      |> put_uint c "newMinLength" r.new_min_length
      |> put_uint c "newMaxLength" r.new_max_length
      |> put_text c "promptId" r.prompt_id
      |> put_uint c "deadlineMs" r.deadline_ms

  unfoldable pub request_secrets_to_cbor : RequestSecrets → Value
  request_secrets_to_cbor r = of_map (request_secrets_map r)

  unfoldable pub confirm_action_map : ConfirmAction → Map Value
  confirm_action_map r =
      []
      |> emplace "t" (text "ConfirmAction")
      |> emplace_version c
      |> emplace "kind" (text r.kind)
      |> put_text c "title" r.title
      |> put_text c "description" r.description
      |> put_text c "descriptionKey" r.description_key
      |> put_text c "requester" r.requester
      |> put_text c "artifact" r.artifact

  unfoldable pub confirm_action_to_cbor : ConfirmAction → Value
  confirm_action_to_cbor r = of_map (confirm_action_map r)

  unfoldable pub prompt_reset_map : Map Value
  prompt_reset_map = [] |> emplace "t" (text "Reset") |> emplace_version c

  unfoldable pub prompt_reset_to_cbor : Value
  prompt_reset_to_cbor = of_map prompt_reset_map

  unfoldable pub confirm_reply_map : ConfirmReply Status → Map Value
  confirm_reply_map r =
      []
      |> emplace "t" (text "Confirm")
      |> emplace_version c
      |> emplace "status" (text (reply_status_token r.status))
      |> put_text c "userMessage" r.user_message

  unfoldable pub confirm_reply_to_cbor : ConfirmReply Status → Value
  confirm_reply_to_cbor r = of_map (confirm_reply_map r)

  -- A secret goes out with status Ok and no other.
  unfoldable pub prompt_reply_map : PromptReply Status → Map Value
  prompt_reply_map r =
      []
      |> emplace "t" (text "Secret")
      |> emplace_version c
      |> emplace "status" (text (reply_status_token r.status))
      |> (λ m. ite (status_eq r.status ok) (emplace "secret" (bytes r.secret) m) m)
      |> put_text c "userMessage" r.user_message

  unfoldable pub prompt_reply_to_cbor : PromptReply Status → Value
  prompt_reply_to_cbor r = of_map (prompt_reply_map r)

  unfoldable pub multi_prompt_reply_map : MultiPromptReply Status → Map Value
  multi_prompt_reply_map r =
      []
      |> emplace "t" (text "Secrets")
      |> emplace_version c
      |> emplace "status" (text (reply_status_token r.status))
      |> (λ m.
          ite (status_eq r.status ok)
            (emplace "secondary" (bytes r.secondary) (emplace "primary" (bytes r.primary) m)) m)
      |> put_text c "userMessage" r.user_message

  unfoldable pub multi_prompt_reply_to_cbor : MultiPromptReply Status → Value
  multi_prompt_reply_to_cbor r = of_map (multi_prompt_reply_map r)

  unfoldable pub reset_done_map : ResetDone → Map Value
  reset_done_map r =
      [] |> emplace "t" (text "ResetDone") |> emplace_version c |> put_uint c "closed" r.closed

  unfoldable pub reset_done_to_cbor : ResetDone → Value
  reset_done_to_cbor r = of_map (reset_done_map r)
