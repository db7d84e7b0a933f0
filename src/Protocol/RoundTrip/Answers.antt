-- ===== src/Protocol/RoundTrip/Answers.antt =====
-- The answers to a confirmation and to a reset (wire/PrompterProtocol.cpp).
use libre_darwin.Base.{◌<◌, ◌^◌, ◌≡◌, none, some, arith, value, unexpected}
use libre_darwin.Wire.{Cbor, PrompterWire}
use libre_darwin.Wire.Maps.{Map, find}
use libre_darwin.Protocol.Messages.{
  PromptReply, MultiPromptReply, ConfirmReply, ResetDone, prompter_protocol_version,
  unknown_message,
}
use libre_darwin.Protocol.Fields.Laws.{
  shown_text, finds, opt_text-shown_text, find_text-text, top_map-encode,
}
use libre_darwin.Protocol.Encode.{
  prompt_reply_map, prompt_reply_to_cbor, multi_prompt_reply_map, multi_prompt_reply_to_cbor,
  confirm_reply_map, confirm_reply_to_cbor, reset_done_map, reset_done_to_cbor,
}
use libre_darwin.Protocol.Decode.Replies.{
  parse_confirm_reply, parse_confirm_reply_map, parse_reset_done,
}
use libre_darwin.Protocol.RoundTrip.Common.{opt_uint-narrow, to_uint32_of_lt}
use libre_darwin.Protocol.RoundTrip.Replies.{prompt_reply_secret, multi_prompt_reply_secrets}
use libre_darwin.Protocol.RoundTrip.Statuses.{parse_status-shown, opt_reply_version-current}

confirm_reply_found :
    (w : PrompterWire) (c : Cbor) (r : ConfirmReply w.Status)
    → (find "v" (confirm_reply_map w c r) ≡ some (c.uint prompter_protocol_version))
      × (find "status" (confirm_reply_map w c r) ≡ some (c.text (w.reply_status_token r.status)))
      × (find "userMessage" (confirm_reply_map w c r) ≡ shown_text c r.user_message)
      × (find "secret" (confirm_reply_map w c r) ≡ none)
      × (find "primary" (confirm_reply_map w c r) ≡ none)
      × (find "secondary" (confirm_reply_map w c r) ≡ none)
unfolding confirm_reply_map find
confirm_reply_found w c r =
    ((simp finds), (simp finds), (simp finds), (simp finds), (simp finds), (simp finds))

-- A confirmation's answer comes back as it was sent, under this build's version.
pub parse-confirm_reply :
    (w : PrompterWire) (c : Cbor) (r : ConfirmReply w.Status)
    → parse_confirm_reply w c (c.encode (confirm_reply_to_cbor w c r))
      ≡ value (record r { protocol_version = some prompter_protocol_version })
unfolding parse_confirm_reply confirm_reply_to_cbor
parse-confirm_reply w c r =
    let m = confirm_reply_map w c r in
    let f = confirm_reply_found w c r in
    rw (
      top_map-encode c m,
      f.3,
      f.4,
      f.5,
      parse_status-shown w c m r.status f.1,
      opt_text-shown_text c m "userMessage" r.user_message f.2,
      opt_reply_version-current w c m f.0,
    )

-- The count of closed windows, if it fits 32 bits, comes back as it was sent.
pub parse-reset_done :
    (w : PrompterWire) (c : Cbor) (r : ResetDone)
    → r.closed < 2 ^ 32
    → parse_reset_done w c (c.encode (reset_done_to_cbor w c r)) ≡ value r
unfolding parse_reset_done reset_done_to_cbor reset_done_map find
parse-reset_done w c r h =
    let m = reset_done_map w c r in
    rw (
      top_map-encode c m,
      find_text-text c m "t" "ResetDone" (simp finds),
      opt_uint-narrow c m "closed" r.closed (simp finds) h,
      to_uint32_of_lt r.closed h,
    )

-- A map with a secret under any of the three keys is no confirmation.
pub parse_confirm_reply_map-no_secret :
    (w : PrompterWire) (c : Cbor) (m : Map c.Value) {r : ConfirmReply w.Status}
    → parse_confirm_reply_map w c m ≡ value r
    → (find "secret" m ≡ none) × (find "primary" m ≡ none) × (find "secondary" m ≡ none)
unfolding parse_confirm_reply_map
parse_confirm_reply_map-no_secret w c m h = ground arith

-- Neither of the replies with secrets, sent with status Ok, reads as a confirmation.
pub parse_confirm_reply-of_secrets :
    (w : PrompterWire) (c : Cbor) (r : PromptReply w.Status) (q : MultiPromptReply w.Status)
    → r.status ≡ w.ok
    → q.status ≡ w.ok
    → (parse_confirm_reply w c (c.encode (prompt_reply_to_cbor w c r)) ≡ unexpected unknown_message)
      × (parse_confirm_reply w c (c.encode (multi_prompt_reply_to_cbor w c q))
          ≡ unexpected unknown_message)
unfolding parse_confirm_reply prompt_reply_to_cbor multi_prompt_reply_to_cbor
parse_confirm_reply-of_secrets w c r q p p' = (
  rw (top_map-encode c (prompt_reply_map w c r), prompt_reply_secret w c r p),
  rw (top_map-encode c (multi_prompt_reply_map w c q))
      (ground (arith, (multi_prompt_reply_secrets w c q p').0)),
)
