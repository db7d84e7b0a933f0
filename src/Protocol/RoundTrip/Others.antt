-- ===== src/Protocol/RoundTrip/Others.antt =====
-- The messages but the prompt request, together.
use libre_darwin.Base.{◌≤◌, ◌≡◌, some, [], value, length, ite}
use libre_darwin.Wire.{Cbor, PrompterWire}
use libre_darwin.Protocol.Messages.{
  RequestSecrets, ConfirmAction, PromptReply, MultiPromptReply, ConfirmReply, request_secrets,
  confirm_action, prompter_protocol_version,
}
use libre_darwin.Protocol.Encode.{
  request_secrets_to_cbor, confirm_action_to_cbor, prompt_reply_to_cbor, multi_prompt_reply_to_cbor,
  confirm_reply_to_cbor,
}
use libre_darwin.Protocol.Decode.Requests.{parse_prompter_request}
use libre_darwin.Protocol.Decode.Replies.{
  parse_prompt_reply, parse_multi_prompt_reply, parse_confirm_reply,
}
use libre_darwin.Protocol.RoundTrip.Secrets.{SecretsFitUint32, parse-request_secrets}
use libre_darwin.Protocol.RoundTrip.Confirm.{parse-confirm_action}
use libre_darwin.Protocol.RoundTrip.Replies.{parse-prompt_reply, parse-multi_prompt_reply}
use libre_darwin.Protocol.RoundTrip.Answers.{parse-confirm_reply}

module _ (w : PrompterWire) (c : Cbor) where
  -- A change request whose numbers fit 32 bits and a confirmation request come back as they were sent;
  -- so do, under this build's version, a confirmation's answer and the replies whose secrets are within
  -- the cap, but that a status other than Ok comes back without a secret.
  pub parse-others :
      (change : RequestSecrets) (action : ConfirmAction) (one : PromptReply w.Status)
      (two : MultiPromptReply w.Status) (answer : ConfirmReply w.Status)
      → SecretsFitUint32 change
      → length one.secret ≤ w.max_secret_bytes
      → length two.primary ≤ w.max_secret_bytes
      → length two.secondary ≤ w.max_secret_bytes
      → (parse_prompter_request w c (c.encode (request_secrets_to_cbor w c change))
          ≡ value (request_secrets change))
        × (parse_prompter_request w c (c.encode (confirm_action_to_cbor w c action))
            ≡ value (confirm_action action))
        × (parse_prompt_reply w c (c.encode (prompt_reply_to_cbor w c one))
            ≡ value (record one {
              secret = ite (w.status_eq one.status w.ok) one.secret [];
              protocol_version = some prompter_protocol_version;
            }))
        × (parse_multi_prompt_reply w c (c.encode (multi_prompt_reply_to_cbor w c two))
            ≡ value (record two {
              primary = ite (w.status_eq two.status w.ok) two.primary [];
              secondary = ite (w.status_eq two.status w.ok) two.secondary [];
              protocol_version = some prompter_protocol_version;
            }))
        × (parse_confirm_reply w c (c.encode (confirm_reply_to_cbor w c answer))
            ≡ value (record answer { protocol_version = some prompter_protocol_version }))
  parse-others change action one two answer fit h primary secondary = (
    parse-request_secrets w c change fit,
    parse-confirm_action w c action,
    parse-prompt_reply w c one h,
    parse-multi_prompt_reply w c two primary secondary,
    parse-confirm_reply w c answer,
  )
