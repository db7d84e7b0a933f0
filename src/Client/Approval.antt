-- ===== src/Client/Approval.antt =====
-- What must have happened before the agent takes an approval from the prompter, and what is handed to
-- the socket of an unverified peer.
use libre_darwin.Base.{◌≡◌, refl, inl, inr, [], false, ◌&&◌, value, unexpected, String, Bool-cases}
use libre_darwin.Wire.{Cbor, PrompterWire}
use libre_darwin.Protocol.Messages.{ConfirmAction, ConfirmReply}
use libre_darwin.Protocol.Encode.{confirm_action_to_cbor}
use libre_darwin.Protocol.Decode.Replies.{parse_confirm_reply}
use libre_darwin.Protocol.Fields.{Parsed}
use libre_darwin.Client.{
  PromptStatuses, PromptOptions, Received, frame, timed_out, recv_failed, Link, too_old, request,
  request_pin_change, read_confirm, request_confirmation, cancel,
}
use libre_darwin.Client.Trust.{Trusted, Current, Current-of_not_too_old}

module _ (w : PrompterWire) (c : Cbor) (ps : PromptStatuses w.Status w.ok) where
  -- Where an approval comes from: a parsed confirmation reply from a current helper.
  pub record FromConfirmReply (r : Received c.Body) (reply : ConfirmReply w.Status) : Type 0 where
    pub body : c.Body
    pub received : r ≡ frame body
    pub parsed : parse_confirm_reply w c body ≡ value reply
    pub current : Current reply.protocol_version

  taken :
      (body : c.Body) (reply : ConfirmReply w.Status)
      → parse_confirm_reply w c body ≡ value reply
      → too_old reply.protocol_version ≡ false
      → FromConfirmReply (frame body) reply
  taken body reply p e = record {
    body = body;
    received = refl;
    parsed = p;
    current = Current-of_not_too_old reply.protocol_version e;
  }

  read_confirm_ok :
      (r : Received c.Body)
      → (read_confirm w c ps r).status ≡ w.ok
      → FromConfirmReply r (read_confirm w c ps r)
  unfolding read_confirm
  read_confirm_ok timed_out h = absurd (w.error-ne-ok h)
  read_confirm_ok recv_failed h = absurd (w.error-ne-ok h)
  read_confirm_ok (frame body) h = parsed_ok (parse_confirm_reply w c body) refl
    where
      parsed_ok :
          (e : Parsed (ConfirmReply w.Status))
          → parse_confirm_reply w c body ≡ e
          → FromConfirmReply (frame body) (read_confirm w c ps (frame body))
      parsed_ok (unexpected err) p = absurd (w.error-ne-ok (rw (p, read_confirm) at h))
      parsed_ok (value reply) p = elim (Bool-cases (too_old reply.protocol_version)) [
        | inl e ↦ absurd (w.error-ne-ok (rw (p, read_confirm, e) at h))
        | inr e ↦ rw (p, read_confirm, e) (taken body reply p e)
      ]

  -- An approval is taken only over a connection to a verified peer, and only as that peer's reply to
  -- that very action, which parses and comes from a current helper; every failure is a refusal.
  pub request_confirmation_ok :
      (link : Link c.Body) (action : ConfirmAction)
      → (request_confirmation w c ps link action).0.status ≡ w.ok
      → Trusted link
        × FromConfirmReply
            (link.answer (c.encode (confirm_action_to_cbor w c action)))
            (request_confirmation w c ps link action).0
  unfolding request_confirmation
  request_confirmation_ok link action h = elim (Bool-cases link.connected) [
    | inr e ↦ absurd (w.error-ne-ok (rw e at h))
    | inl connected ↦ elim (Bool-cases link.peer_verified) [
      | inr e ↦ absurd (w.error-ne-ok (rw (connected, e) at h))
      | inl verified ↦ elim (Bool-cases link.frame_sent) [
        | inr e ↦ absurd (w.error-ne-ok (rw (connected, verified, e) at h))
        | inl sent ↦ (
          record { connected = connected; verified = verified; sent = sent },
          rw (connected, verified, sent) (read_confirm_ok _ (rw (connected, verified, sent) at h)),
        )
      ]
    ]
  ]

  -- Nothing is handed to the socket of a peer that was not reached or not verified: no request, no PIN
  -- change, no confirmation and no dismissal.
  pub sent-of_unverified :
      (link : Link c.Body) (kind : w.Kind) (kind_change_pin : String) (options : PromptOptions)
      (action : ConfirmAction) (prompt_id : String)
      → (link.connected && link.peer_verified) ≡ false
      → ((request w c ps link kind options).1 ≡ [])
        × ((request_pin_change w c ps link kind_change_pin options).1 ≡ [])
        × ((request_confirmation w c ps link action).1 ≡ [])
        × (cancel w c ps link prompt_id ≡ [])
  unfolding request request_pin_change request_confirmation cancel
  sent-of_unverified link kind kind_change_pin options action prompt_id h =
      elim (Bool-cases link.connected) [
        | inr e ↦ rw e (refl, refl, refl, refl)
        | inl connected ↦
            let unverified : link.peer_verified ≡ false = rw connected at h in
            rw (connected, unverified) (refl, refl, refl, refl)
      ]
