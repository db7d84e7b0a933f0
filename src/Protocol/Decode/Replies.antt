-- ===== src/Protocol/Decode/Replies.antt =====
-- `parsePromptReply`, `parseMultiPromptReply`, `parseConfirmReply` and `parseResetDone`
-- (wire/PrompterProtocol.cpp). What they scrub on the way out is not modelled.
use libre_darwin.Base.{
  ℕ, String, [], ite, not, ◌||◌, str_eq, List, value, ◌>>=◌, ◌>>◌, require, or_fail,
}
use libre_darwin.Wire.{Cbor, PrompterWire}
use libre_darwin.Wire.Maps.{Map, contains}
use libre_darwin.Protocol.Messages.{
  PromptReply, MultiPromptReply, ConfirmReply, ResetDone, missing_field, wrong_type,
  unknown_message, bad_enum,
}
use libre_darwin.Protocol.Fields.{
  Parsed, to_uint32, top_map, find_text, opt_text, opt_uint, opt_reply_version, required_secret,
}

module _ (w : PrompterWire) (c : Cbor) where
  open w use {Status, status_eq, ok, reply_status_from_token, max_secret_bytes}
  open c use {Value}

  unfoldable pub parse_status : Map Value → Parsed Status
  parse_status m = do
    token ← or_fail (find_text c m "status") missing_field
    or_fail (reply_status_from_token token) bad_enum

  -- The secret is asked for with status Ok and no other.
  secret_if_ok : Status → Map Value → String → Parsed (List ℕ)
  secret_if_ok status m k =
      ite (status_eq status ok) (required_secret c max_secret_bytes m k) (value [])

  unfoldable pub parse_prompt_reply_map : Map Value → Parsed (PromptReply Status)
  unfolding secret_if_ok parse_status
  parse_prompt_reply_map m = do
    status ← parse_status m
    announced ← opt_reply_version c m
    secret ← secret_if_ok status m "secret"
    msg ← or_fail (opt_text c m "userMessage") wrong_type
    value (record {
      status = status;
      secret = secret;
      user_message = msg;
      protocol_version = announced;
    })

  unfoldable pub parse_prompt_reply : c.Body → Parsed (PromptReply Status)
  unfolding parse_prompt_reply_map
  parse_prompt_reply body = do m ← top_map c body; parse_prompt_reply_map m

  -- A message that carries a secret is no confirmation.
  unfoldable pub parse_confirm_reply_map : Map Value → Parsed (ConfirmReply Status)
  unfolding parse_status
  parse_confirm_reply_map m = do
    require (not (contains "secret" m || contains "primary" m || contains "secondary" m))
        unknown_message
    status ← parse_status m
    msg ← or_fail (opt_text c m "userMessage") wrong_type
    announced ← opt_reply_version c m
    value (record { status = status; user_message = msg; protocol_version = announced })

  unfoldable pub parse_confirm_reply : c.Body → Parsed (ConfirmReply Status)
  unfolding parse_confirm_reply_map
  parse_confirm_reply body = do m ← top_map c body; parse_confirm_reply_map m

  pub parse_reset_done_map : Map Value → Parsed ResetDone
  parse_reset_done_map m = do
    t ← or_fail (find_text c m "t") missing_field
    require (str_eq t "ResetDone") unknown_message
    closed ← or_fail (opt_uint c m "closed") wrong_type
    value (record { closed = to_uint32 closed })

  unfoldable pub parse_reset_done : c.Body → Parsed ResetDone
  unfolding parse_reset_done_map
  parse_reset_done body = do m ← top_map c body; parse_reset_done_map m

  -- Both secrets are asked for with status Ok, the current one first.
  unfoldable pub parse_multi_prompt_reply_map : Map Value → Parsed (MultiPromptReply Status)
  unfolding secret_if_ok parse_status
  parse_multi_prompt_reply_map m = do
    status ← parse_status m
    announced ← opt_reply_version c m
    primary ← secret_if_ok status m "primary"
    secondary ← secret_if_ok status m "secondary"
    msg ← or_fail (opt_text c m "userMessage") wrong_type
    value (record {
      status = status;
      primary = primary;
      secondary = secondary;
      user_message = msg;
      protocol_version = announced;
    })

  unfoldable pub parse_multi_prompt_reply : c.Body → Parsed (MultiPromptReply Status)
  unfolding parse_multi_prompt_reply_map
  parse_multi_prompt_reply body = do m ← top_map c body; parse_multi_prompt_reply_map m
