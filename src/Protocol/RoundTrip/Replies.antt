-- ===== src/Protocol/RoundTrip/Replies.antt =====
-- The replies with secrets (wire/PrompterProtocol.cpp), encoded and parsed again.
use libre_darwin.Base.{◌≤◌, ◌≡◌, [], some, ite, if_pos, if_neg, value, length}
use libre_darwin.Wire.{Cbor, PrompterWire}
use libre_darwin.Wire.Maps.{find}
use libre_darwin.Protocol.Messages.{PromptReply, MultiPromptReply, prompter_protocol_version}
use libre_darwin.Protocol.Fields.Laws.{shown_text, finds, opt_text-shown_text, top_map-encode}
use libre_darwin.Protocol.Encode.{
  prompt_reply_map, prompt_reply_to_cbor, multi_prompt_reply_map, multi_prompt_reply_to_cbor,
}
use libre_darwin.Protocol.Decode.Replies.{parse_prompt_reply, parse_multi_prompt_reply}
use libre_darwin.Protocol.RoundTrip.Statuses.{
  parse_status-shown, opt_reply_version-current, required_secret-bytes,
}

module _ (w : PrompterWire) (c : Cbor) (r : PromptReply w.Status) where
  pub prompt_reply_found :
      (find "v" (prompt_reply_map w c r) ≡ some (c.uint prompter_protocol_version))
      × (find "status" (prompt_reply_map w c r) ≡ some (c.text (w.reply_status_token r.status)))
      × (find "userMessage" (prompt_reply_map w c r) ≡ shown_text c r.user_message)
  unfolding prompt_reply_map find
  prompt_reply_found = elim (w.status_eq r.status w.ok) [
    | yes p ↦ rw (if_pos _ p) ((simp finds), (simp finds), (simp finds))
    | no p ↦ rw (if_neg _ p) ((simp finds), (simp finds), (simp finds))
  ]

  pub prompt_reply_secret :
      r.status ≡ w.ok → find "secret" (prompt_reply_map w c r) ≡ some (c.bytes r.secret)
  unfolding prompt_reply_map find
  prompt_reply_secret p = rw (if_pos _ p) (simp finds)

  -- A secret reply whose secret is within the cap comes back as it was sent, under this build's
  -- version; with any status but Ok its secret is left behind.
  pub parse-prompt_reply :
      length r.secret ≤ w.max_secret_bytes
      → parse_prompt_reply w c (c.encode (prompt_reply_to_cbor w c r))
        ≡ value (record r {
          secret = ite (w.status_eq r.status w.ok) r.secret [];
          protocol_version = some prompter_protocol_version;
        })
  unfolding parse_prompt_reply prompt_reply_to_cbor
  parse-prompt_reply fits =
      let m = prompt_reply_map w c r in
      let f = prompt_reply_found in
      rw
        (
          top_map-encode c m,
          parse_status-shown w c m r.status f.1,
          opt_reply_version-current w c m f.0,
        )
        (elim (w.status_eq r.status w.ok) [
          | yes p ↦ rw (
            if_pos _ p,
            if_pos _ p,
            required_secret-bytes w c m "secret" r.secret (prompt_reply_secret p) fits,
            opt_text-shown_text c m "userMessage" r.user_message f.2,
          )
          | no p ↦
              rw (if_neg _ p, if_neg _ p, opt_text-shown_text c m "userMessage" r.user_message f.2)
        ])

module _ (w : PrompterWire) (c : Cbor) (r : MultiPromptReply w.Status) where
  multi_prompt_reply_found :
      (find "v" (multi_prompt_reply_map w c r) ≡ some (c.uint prompter_protocol_version))
      × (find "status" (multi_prompt_reply_map w c r)
          ≡ some (c.text (w.reply_status_token r.status)))
      × (find "userMessage" (multi_prompt_reply_map w c r) ≡ shown_text c r.user_message)
  unfolding multi_prompt_reply_map find
  multi_prompt_reply_found = elim (w.status_eq r.status w.ok) [
    | yes p ↦ rw (if_pos _ p) ((simp finds), (simp finds), (simp finds))
    | no p ↦ rw (if_neg _ p) ((simp finds), (simp finds), (simp finds))
  ]

  pub multi_prompt_reply_secrets :
      r.status ≡ w.ok
      → (find "primary" (multi_prompt_reply_map w c r) ≡ some (c.bytes r.primary))
        × (find "secondary" (multi_prompt_reply_map w c r) ≡ some (c.bytes r.secondary))
  unfolding multi_prompt_reply_map find
  multi_prompt_reply_secrets p = rw (if_pos _ p) ((simp finds), (simp finds))

  -- A change reply whose two secrets are within the cap comes back as it was sent, under this build's
  -- version; with any status but Ok both secrets are left behind.
  pub parse-multi_prompt_reply :
      length r.primary ≤ w.max_secret_bytes
      → length r.secondary ≤ w.max_secret_bytes
      → parse_multi_prompt_reply w c (c.encode (multi_prompt_reply_to_cbor w c r))
        ≡ value (record r {
          primary = ite (w.status_eq r.status w.ok) r.primary [];
          secondary = ite (w.status_eq r.status w.ok) r.secondary [];
          protocol_version = some prompter_protocol_version;
        })
  unfolding parse_multi_prompt_reply multi_prompt_reply_to_cbor
  parse-multi_prompt_reply fits fits' =
      let m = multi_prompt_reply_map w c r in
      let f = multi_prompt_reply_found in
      rw
        (
          top_map-encode c m,
          parse_status-shown w c m r.status f.1,
          opt_reply_version-current w c m f.0,
        )
        (elim (w.status_eq r.status w.ok) [
          | yes p ↦
              let s = multi_prompt_reply_secrets p in
              rw (
                if_pos _ p,
                if_pos _ p,
                if_pos _ p,
                required_secret-bytes w c m "primary" r.primary s.0 fits,
                if_pos _ p,
                required_secret-bytes w c m "secondary" r.secondary s.1 fits',
                opt_text-shown_text c m "userMessage" r.user_message f.2,
              )
          | no p ↦ rw (
            if_neg _ p,
            if_neg _ p,
            if_neg _ p,
            if_neg _ p,
            opt_text-shown_text c m "userMessage" r.user_message f.2,
          )
        ])
