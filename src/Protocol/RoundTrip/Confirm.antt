-- ===== src/Protocol/RoundTrip/Confirm.antt =====
-- `ConfirmAction`, `PromptCancel` and `PromptReset`, encoded and parsed again.
use libre_darwin.Base.{◌≡◌, some, value}
use libre_darwin.Wire.{Cbor, PrompterWire}
use libre_darwin.Wire.Maps.{find}
use libre_darwin.Protocol.Messages.{
  PromptCancel, ConfirmAction, prompt_cancel, confirm_action, prompt_reset,
  prompter_protocol_version,
}
use libre_darwin.Protocol.Fields.Laws.{shown_text, finds, opt_text-shown_text, find_text-text}
use libre_darwin.Protocol.Encode.{
  prompt_cancel_map, prompt_cancel_to_cbor, prompt_reset_map, prompt_reset_to_cbor,
  confirm_action_map, confirm_action_to_cbor,
}
use libre_darwin.Protocol.Decode.Requests.{
  opt_display_fields, parse_tagged, parse_prompter_request, parse_confirm_action,
  parse_prompt_cancel,
}
use libre_darwin.Protocol.RoundTrip.Common.{parse_request_map-tagged, opt_display_fields-shown}

module _ (w : PrompterWire) (c : Cbor) (r : ConfirmAction) where
  confirm_action_display :
      opt_display_fields c (confirm_action_map w c r)
      ≡ some (record {
        title = r.title;
        description = r.description;
        requester = r.requester;
        artifact = r.artifact;
      })
  unfolding confirm_action_map find
  confirm_action_display =
      opt_display_fields-shown c _ r.title r.description r.requester r.artifact (simp finds)
        (simp finds) (simp finds) (simp finds)

  confirm_action_found :
      (find "v" (confirm_action_map w c r) ≡ some (c.uint prompter_protocol_version))
      × (find "t" (confirm_action_map w c r) ≡ some (c.text "ConfirmAction"))
      × (find "kind" (confirm_action_map w c r) ≡ some (c.text r.kind))
      × (find "descriptionKey" (confirm_action_map w c r) ≡ shown_text c r.description_key)
  unfolding confirm_action_map find
  confirm_action_found = ((simp finds), (simp finds), (simp finds), (simp finds))

  -- A confirmation request comes back as it was sent.
  pub parse-confirm_action :
      parse_prompter_request w c (c.encode (confirm_action_to_cbor w c r))
      ≡ value (confirm_action r)
  unfolding confirm_action_to_cbor parse_tagged parse_confirm_action
  parse-confirm_action = rw (
    parse_request_map-tagged w c (confirm_action_map w c r) "ConfirmAction" confirm_action_found.0
        confirm_action_found.1,
    find_text-text c (confirm_action_map w c r) "kind" r.kind confirm_action_found.2,
    confirm_action_display,
    opt_text-shown_text c (confirm_action_map w c r) "descriptionKey" r.description_key
        confirm_action_found.3,
  )

-- A dismissal comes back with the prompt it addresses.
pub parse-prompt_cancel :
    (w : PrompterWire) (c : Cbor) (r : PromptCancel)
    → parse_prompter_request w c (c.encode (prompt_cancel_to_cbor w c r)) ≡ value (prompt_cancel r)
unfolding prompt_cancel_to_cbor parse_tagged parse_prompt_cancel prompt_cancel_map find
parse-prompt_cancel w c r =
    let m = prompt_cancel_map w c r in
    rw (
      parse_request_map-tagged w c m "CancelCurrent" (simp finds) (simp finds),
      opt_text-shown_text c m "promptId" r.prompt_id (simp finds),
    )

-- So does a reset.
pub parse-prompt_reset :
    (w : PrompterWire) (c : Cbor)
    → parse_prompter_request w c (c.encode (prompt_reset_to_cbor w c)) ≡ value prompt_reset
unfolding prompt_reset_to_cbor parse_tagged prompt_reset_map find
parse-prompt_reset w c =
    rw (parse_request_map-tagged w c (prompt_reset_map w c) "Reset" (simp finds) (simp finds))
