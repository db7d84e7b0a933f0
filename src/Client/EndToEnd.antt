-- ===== src/Client/EndToEnd.antt =====
-- The agent's side and the prompter's, joined: what a request gives when the helper at the other end
-- is this build's (agent/src/backend/MacPrompterClient.cpp with prompter/PrompterServer.cpp).
use libre_darwin.Base.{
  ◌≤◌, ◌≡◌, ◌≢◌, refl, sym, ◌∙◌, ite, if_pos, if_neg, some, false, List, [], ◌∷◌, true, String,
  value, length, str_eq, if◌then◌else◌, Bool-cases, inl, inr,
}
use libre_darwin.Wire.{Cbor, PrompterWire}
use libre_darwin.Protocol.Messages.{
  PromptRequest, PromptReply, ConfirmAction, ConfirmReply, prompter_protocol_version,
}
use libre_darwin.Protocol.Encode.{
  prompt_request_to_cbor, prompt_reply_to_cbor, multi_prompt_reply_to_cbor, confirm_reply_to_cbor,
  reset_done_to_cbor, shown_interface,
}
use libre_darwin.Protocol.Decode.Replies.{parse_prompt_reply, parse_confirm_reply}
use libre_darwin.Protocol.Decode.Requests.{parse_prompter_request}
use libre_darwin.Protocol.RoundTrip.Prompt.{PromptFitsUint32, parse-prompt_request}
use libre_darwin.Protocol.RoundTrip.Confirm.{parse-confirm_action}
use libre_darwin.Protocol.RoundTrip.Replies.{parse-prompt_reply}
use libre_darwin.Protocol.RoundTrip.Answers.{parse-confirm_reply}
use libre_darwin.Prompter.{
  Providers, Effect, send_secret, send_secrets, send_confirm, send_reset_done, serve, visit,
  unsupported_confirmation,
}
use libre_darwin.Client.{
  PromptStatuses, PromptOptions, Received, frame, recv_failed, Link, build_request, judge,
  read_reply, request, message_for, read_confirm, too_old, request_confirmation,
}

module _ (w : PrompterWire) (c : Cbor) where
  -- `sendBody` of the first reply among the effects; with none, the connection ends without a frame.
  unfoldable pub reply_frame : List (Effect w.Kind w.Status) → Received c.Body
  reply_frame [] = recv_failed
  reply_frame (send_secret r ∷ _) = frame (c.encode (prompt_reply_to_cbor w c r))
  reply_frame (send_secrets r ∷ _) = frame (c.encode (multi_prompt_reply_to_cbor w c r))
  reply_frame (send_confirm r ∷ _) = frame (c.encode (confirm_reply_to_cbor w c r))
  reply_frame (send_reset_done r ∷ _) = frame (c.encode (reset_done_to_cbor w c r))
  reply_frame (_ ∷ es) = reply_frame es

  -- The prompter as the peer of a connection.
  unfoldable pub answering : Providers w.Kind w.Status → c.Body → Received c.Body
  unfolding reply_frame
  answering p body = reply_frame (serve w p (parse_prompter_request w c body))

  -- A connection to the verified prompter, over which the frame goes out.
  pub healthy : Providers w.Kind w.Status → Link c.Body
  unfolding answering
  healthy p = record {
    connected = true;
    peer_verified = true;
    budget_set = true;
    frame_sent = true;
    answer = answering p;
  }

  -- The request as the provider sees it.
  abbrev pub shown_request : w.Kind → PromptOptions → PromptRequest w.Kind
  shown_request kind o = record (build_request kind o) {
    reader_interface = shown_interface w c o.reader_interface;
  }

  answering-prompt_request :
      (p : Providers w.Kind w.Status) (kind : w.Kind) (o : PromptOptions)
      → PromptFitsUint32 (build_request kind o)
      → kind ≢ w.change_pin
      → answering p (c.encode (prompt_request_to_cbor w c (build_request kind o)))
        ≡ frame (c.encode (prompt_reply_to_cbor w c (p.provider (shown_request kind o))))
  unfolding answering serve visit build_request
  answering-prompt_request p kind o fits single =
      rw (parse-prompt_request w c (build_request kind o) fits single) refl

module _ (w : PrompterWire) (c : Cbor) (ps : PromptStatuses w.Status w.ok) where
  read_reply-parsed :
      (body : c.Body) {r : PromptReply w.Status}
      → parse_prompt_reply w c body ≡ value r
      → read_reply w c ps (frame body) ≡ judge w c ps r
  unfolding read_reply
  read_reply-parsed body h = rw (h, read_reply) refl

  read_confirm-parsed :
      (body : c.Body) {r : ConfirmReply w.Status}
      → parse_confirm_reply w c body ≡ value r
      → too_old r.protocol_version ≡ false
      → read_confirm w c ps (frame body) ≡ r
  unfolding read_confirm
  read_confirm-parsed body h e = rw (h, read_confirm, e) refl

  judge-accepted :
      (r : PromptReply w.Status)
      → r.status ≡ w.ok
      → judge w c ps (record r {
        secret = ite (w.status_eq r.status w.ok) r.secret [];
        protocol_version = some prompter_protocol_version;
      })
        ≡ record { status = ps.prompt_ok; secret = r.secret; user_message = r.user_message }
  unfolding judge message_for
  judge-accepted r ok =
      let rejected : String = "prompter rejected the agent (unauthorized)" in
      rw (
        if_pos (w.status_eq r.status w.ok) ok r.secret [],
        ok,
        ps.prompt_status_for-ok,
        if_pos (ps.status_eq ps.prompt_ok ps.prompt_ok) refl r.secret [],
        if_neg (w.status_eq w.ok w.unauthorized) (λ e. w.unauthorized-ne-ok (sym e)) rejected
            r.user_message,
      )

  -- With this build's helper at the other end and options that fit the wire, a prompt for a single
  -- secret that the holder answers with Ok, and with a secret that is no longer than the protocol's cap
  -- on secrets, gives exactly the secret entered, whole, as status Ok.
  pub request-answered :
      (p : Providers w.Kind w.Status) (kind : w.Kind) (o : PromptOptions)
      → PromptFitsUint32 (build_request kind o)
      → kind ≢ w.change_pin
      → let r = p.provider (shown_request w c kind o) in
        r.status ≡ w.ok
        → length r.secret ≤ w.max_secret_bytes
        → (request w c ps (healthy w c p) kind o).0
          ≡ record { status = ps.prompt_ok; secret = r.secret; user_message = r.user_message }
  unfolding request healthy
  request-answered p kind o fits single ok short =
      let r = p.provider (shown_request w c kind o) in
      rw (answering-prompt_request w c p kind o fits single)
        (read_reply-parsed _ (parse-prompt_reply w c r short) ∙ judge-accepted r ok)

  -- With this build's helper at the other end, a change of the trust configuration is approved
  -- exactly as its provider answers it, and any other confirmation comes back as a refusal.
  pub request_confirmation-answered :
      (p : Providers w.Kind w.Status) (action : ConfirmAction)
      → (request_confirmation w c ps (healthy w c p) action).0
        ≡ record (if str_eq action.kind "configure_trust"
            then p.confirm_provider action
            else unsupported_confirmation w) { protocol_version = some prompter_protocol_version }
  unfolding request_confirmation healthy answering reply_frame serve visit
  request_confirmation-answered p action =
      rw (parse-confirm_action w c action)
        (elim (Bool-cases (str_eq action.kind "configure_trust")) [
          | inl e ↦
              rw e
                (read_confirm-parsed _ (parse-confirm_reply w c (p.confirm_provider action)) refl)
          | inr e ↦
              rw e
                (read_confirm-parsed _ (parse-confirm_reply w c (unsupported_confirmation w)) refl)
        ])
