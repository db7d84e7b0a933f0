-- ===== src/Client/Trust.antt =====
-- What must have happened before the agent takes a secret or an approval from the prompter.
use libre_darwin.Base.{
  ℕ, ◌≤◌, ◌≡◌, ◌≢◌, refl, sym, inl, inr, Option, none, some, List, [], true, false, arith, if_pos,
  if_neg, value, unexpected, Bool-cases,
}
use libre_darwin.Wire.{Cbor, PrompterWire}
use libre_darwin.Protocol.Messages.{PromptReply, prompter_protocol_version}
use libre_darwin.Protocol.Encode.{prompt_request_to_cbor}
use libre_darwin.Protocol.Decode.Replies.{parse_prompt_reply}
use libre_darwin.Protocol.Fields.{Parsed}
use libre_darwin.Client.{
  PromptStatuses, PromptOptions, Received, frame, timed_out, recv_failed, Link, build_request,
  too_old, judge, read_reply, request,
}

-- The socket was connected to a verified peer, and the frame went out.
pub record Trusted {Body : Type 0} (link : Link Body) : Type 0 where
  pub connected : link.connected ≡ true
  pub verified : link.peer_verified ≡ true
  pub sent : link.frame_sent ≡ true

-- A version that this build accepts.
abbrev pub Current : Option ℕ → Type 0
Current announced = (v : ℕ) × (announced ≡ some v) × (prompter_protocol_version ≤ v)

pub Current-of_not_too_old : (announced : Option ℕ) → too_old announced ≡ false → Current announced
Current-of_not_too_old none h = cc
Current-of_not_too_old (some v) h = (v, refl, ground arith)

module _ (w : PrompterWire) (c : Cbor) (ps : PromptStatuses w.Status w.ok) where
  -- Where a secret comes from: a parsed reply with status Ok from a current helper.
  pub record FromReply (r : Received c.Body) (secret : List ℕ) : Type 0 where
    pub body : c.Body
    pub reply : PromptReply w.Status
    pub received : r ≡ frame body
    pub parsed : parse_prompt_reply w c body ≡ value reply
    pub current : Current reply.protocol_version
    pub status_ok : reply.status ≡ w.ok
    pub same : reply.secret ≡ secret

  judge_ok :
      (reply : PromptReply w.Status)
      → (judge w c ps reply).status ≡ ps.prompt_ok
      → (too_old reply.protocol_version ≡ false)
        × (reply.status ≡ w.ok)
        × (reply.secret ≡ (judge w c ps reply).secret)
  unfolding judge
  judge_ok reply h = elim (Bool-cases (too_old reply.protocol_version)) [
    | inl e ↦ absurd (ps.helper_too_old-ne-ok (rw (e, judge) at h))
    | inr e ↦
        let ok : ps.prompt_status_for reply.status ≡ ps.prompt_ok = rw (e, judge) at h in
        (
          e,
          ps.ok_of_prompt_status_for _ ok,
          rw (e, judge)
              (sym (
                if_pos (ps.status_eq (ps.prompt_status_for reply.status) ps.prompt_ok) ok
                  reply.secret [])),
        )
  ]

  read_reply_ok :
      (r : Received c.Body)
      → (read_reply w c ps r).status ≡ ps.prompt_ok
      → FromReply r (read_reply w c ps r).secret
  unfolding read_reply
  read_reply_ok timed_out h = absurd (ps.timeout-ne-ok h)
  read_reply_ok recv_failed h = absurd (ps.prompt_error-ne-ok h)
  read_reply_ok (frame body) h = parsed_ok (parse_prompt_reply w c body) refl
    where
      parsed_ok :
          (e : Parsed (PromptReply w.Status))
          → parse_prompt_reply w c body ≡ e
          → FromReply (frame body) (read_reply w c ps (frame body)).secret
      parsed_ok (unexpected err) p = absurd (ps.prompt_error-ne-ok (rw (p, read_reply) at h))
      parsed_ok (value reply) p =
          let ok = judge_ok reply (rw (p, read_reply) at h) in
          record {
            body = body;
            reply = reply;
            received = refl;
            parsed = p;
            current = Current-of_not_too_old reply.protocol_version ok.0;
            status_ok = ok.1;
            same = rw (p, read_reply) ok.2;
          }

  -- A secret is taken only over a connection to a verified peer whose receive is bounded, and only from
  -- a reply to that very request that parses, comes from a current helper and says Ok; it is the
  -- reply's.
  pub request_ok :
      (link : Link c.Body) (kind : w.Kind) (options : PromptOptions)
      → (request w c ps link kind options).0.status ≡ ps.prompt_ok
      → Trusted link
        × (link.budget_set ≡ true)
        × FromReply
            (link.answer (c.encode (prompt_request_to_cbor w c (build_request kind options))))
            (request w c ps link kind options).0.secret
  unfolding request
  request_ok link kind options h = elim (Bool-cases link.connected) [
    | inr e ↦ absurd (ps.prompt_error-ne-ok (rw e at h))
    | inl connected ↦ elim (Bool-cases link.peer_verified) [
      | inr e ↦ absurd (ps.prompt_error-ne-ok (rw (connected, e) at h))
      | inl verified ↦ elim (Bool-cases link.budget_set) [
        | inr e ↦ absurd (ps.prompt_error-ne-ok (rw (connected, verified, e) at h))
        | inl bounded ↦ elim (Bool-cases link.frame_sent) [
          | inr e ↦ absurd (ps.prompt_error-ne-ok (rw (connected, verified, bounded, e) at h))
          | inl sent ↦ (
            record { connected = connected; verified = verified; sent = sent },
            bounded,
            rw (connected, verified, bounded, sent)
                (read_reply_ok _ (rw (connected, verified, bounded, sent) at h)),
          )
        ]
      ]
    ]
  ]

  judge_not_ok :
      (reply : PromptReply w.Status)
      → (judge w c ps reply).status ≢ ps.prompt_ok
      → (judge w c ps reply).secret ≡ []
  unfolding judge
  judge_not_ok reply n = elim (Bool-cases (too_old reply.protocol_version)) [
    | inl e ↦ rw (e, judge) refl
    | inr e ↦
        rw (e, judge)
          (if_neg (ps.status_eq (ps.prompt_status_for reply.status) ps.prompt_ok)
            (rw (e, judge) at n) reply.secret [])
  ]

  read_reply_not_ok :
      (r : Received c.Body)
      → (read_reply w c ps r).status ≢ ps.prompt_ok
      → (read_reply w c ps r).secret ≡ []
  unfolding read_reply
  read_reply_not_ok timed_out n = refl
  read_reply_not_ok recv_failed n = refl
  read_reply_not_ok (frame body) n = read (parse_prompt_reply w c body) refl
    where
      read :
          (e : Parsed (PromptReply w.Status))
          → parse_prompt_reply w c body ≡ e
          → (read_reply w c ps (frame body)).secret ≡ []
      read (unexpected err) p = rw (p, read_reply) refl
      read (value reply) p = rw (p, read_reply) (judge_not_ok reply (rw (p, read_reply) at n))

  -- A result with any status but Ok has no secret in it, whatever the prompter answered.
  pub request_not_ok :
      (link : Link c.Body) (kind : w.Kind) (options : PromptOptions)
      → (request w c ps link kind options).0.status ≢ ps.prompt_ok
      → (request w c ps link kind options).0.secret ≡ []
  unfolding request
  request_not_ok link kind options n = elim (Bool-cases link.connected) [
    | inr e ↦ rw e refl
    | inl connected ↦ elim (Bool-cases link.peer_verified) [
      | inr e ↦ rw (connected, e) refl
      | inl verified ↦ elim (Bool-cases link.budget_set) [
        | inr e ↦ rw (connected, verified, e) refl
        | inl bounded ↦ elim (Bool-cases link.frame_sent) [
          | inr e ↦ rw (connected, verified, bounded, e) refl
          | inl sent ↦
              rw (connected, verified, bounded, sent)
                (read_reply_not_ok _ (rw (connected, verified, bounded, sent) at n))
        ]
      ]
    ]
  ]
