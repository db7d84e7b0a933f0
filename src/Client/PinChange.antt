-- ===== src/Client/PinChange.antt =====
-- What must have happened before the agent takes the two PINs of a change from the prompter
-- (`requestPinChange` in agent/src/backend/MacPrompterClient.cpp).
use libre_darwin.Base.{
  String, ◌≡◌, refl, sym, inl, inr, [], true, false, if_pos, value, unexpected, Bool-cases,
}
use libre_darwin.Wire.{Cbor, PrompterWire}
use libre_darwin.Protocol.Messages.{MultiPromptReply}
use libre_darwin.Protocol.Encode.{request_secrets_to_cbor}
use libre_darwin.Protocol.Decode.Replies.{parse_multi_prompt_reply}
use libre_darwin.Protocol.Fields.{Parsed}
use libre_darwin.Client.{
  PromptStatuses, PromptOptions, Received, frame, timed_out, recv_failed, Link,
  PinChangePromptResult, build_change_request, too_old, judge_change, read_change_reply,
  request_pin_change,
}
use libre_darwin.Client.Trust.{Trusted, Current, Current-of_not_too_old}

module _ (w : PrompterWire) (c : Cbor) (ps : PromptStatuses w.Status w.ok) where
  -- Where the PINs come from: a parsed reply with status Ok from a current helper.
  pub record FromChangeReply (r : Received c.Body) (result : PinChangePromptResult ps.PromptStatus)
      : Type 0 where
    pub body : c.Body
    pub reply : MultiPromptReply w.Status
    pub received : r ≡ frame body
    pub parsed : parse_multi_prompt_reply w c body ≡ value reply
    pub current_version : Current reply.protocol_version
    pub status_ok : reply.status ≡ w.ok
    pub same_current : reply.primary ≡ result.current
    pub same_new : reply.secondary ≡ result.new_pin

  judge_change_ok :
      (reply : MultiPromptReply w.Status)
      → (judge_change w c ps reply).status ≡ ps.prompt_ok
      → (too_old reply.protocol_version ≡ false)
        × (reply.status ≡ w.ok)
        × (reply.primary ≡ (judge_change w c ps reply).current)
        × (reply.secondary ≡ (judge_change w c ps reply).new_pin)
  unfolding judge_change
  judge_change_ok reply h = elim (Bool-cases (too_old reply.protocol_version)) [
    | inl e ↦ absurd (ps.helper_too_old-ne-ok (rw (e, judge_change) at h))
    | inr e ↦
        let ok : ps.prompt_status_for reply.status ≡ ps.prompt_ok = rw (e, judge_change) at h in
        let d = ps.status_eq (ps.prompt_status_for reply.status) ps.prompt_ok in
        (
          e,
          ps.ok_of_prompt_status_for _ ok,
          rw (e, judge_change) (sym (if_pos d ok reply.primary [])),
          rw (e, judge_change) (sym (if_pos d ok reply.secondary [])),
        )
  ]

  read_change_reply_ok :
      (r : Received c.Body)
      → (read_change_reply w c ps r).status ≡ ps.prompt_ok
      → FromChangeReply r (read_change_reply w c ps r)
  unfolding read_change_reply
  read_change_reply_ok timed_out h = absurd (ps.timeout-ne-ok h)
  read_change_reply_ok recv_failed h = absurd (ps.prompt_error-ne-ok h)
  read_change_reply_ok (frame body) h = parsed_ok (parse_multi_prompt_reply w c body) refl
    where
      parsed_ok :
          (e : Parsed (MultiPromptReply w.Status))
          → parse_multi_prompt_reply w c body ≡ e
          → FromChangeReply (frame body) (read_change_reply w c ps (frame body))
      parsed_ok (unexpected err) p = absurd (ps.prompt_error-ne-ok (rw (p, read_change_reply) at h))
      parsed_ok (value reply) p =
          let ok = judge_change_ok reply (rw (p, read_change_reply) at h) in
          record {
            body = body;
            reply = reply;
            received = refl;
            parsed = p;
            current_version = Current-of_not_too_old reply.protocol_version ok.0;
            status_ok = ok.1;
            same_current = rw (p, read_change_reply) ok.2;
            same_new = rw (p, read_change_reply) ok.3;
          }

  -- The two PINs of a change are taken only over a connection to a verified peer whose receive is
  -- bounded, and only from a reply to that very request that parses, comes from a current helper and
  -- says Ok; each is the reply's.
  pub request_pin_change_ok :
      (link : Link c.Body) (kind_change_pin : String) (options : PromptOptions)
      → (request_pin_change w c ps link kind_change_pin options).0.status ≡ ps.prompt_ok
      → Trusted link
        × (link.budget_set ≡ true)
        × FromChangeReply
            (link.answer (
              c.encode
                (request_secrets_to_cbor w c (build_change_request kind_change_pin options))))
            (request_pin_change w c ps link kind_change_pin options).0
  unfolding request_pin_change
  request_pin_change_ok link kind_change_pin options h = elim (Bool-cases link.connected) [
    | inr e ↦ absurd (ps.prompt_error-ne-ok (rw e at h))
    | inl connected ↦ elim (Bool-cases link.peer_verified) [
      | inr e ↦ absurd (ps.prompt_error-ne-ok (rw (connected, e) at h))
      | inl verified ↦ elim (Bool-cases link.budget_set) [
        | inr e ↦ absurd (ps.prompt_error-ne-ok (rw (connected, verified, e) at h))
        | inl bounded ↦ elim (Bool-cases link.frame_sent) [
          | inr e ↦ absurd (ps.prompt_error-ne-ok (rw (connected, verified, bounded, e) at h))
          | inl sent ↦ (
            record { connected = connected; verified = verified; sent = sent },
            bounded,
            rw (connected, verified, bounded, sent)
                (read_change_reply_ok _ (rw (connected, verified, bounded, sent) at h)),
          )
        ]
      ]
    ]
  ]
