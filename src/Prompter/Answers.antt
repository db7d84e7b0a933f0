-- ===== src/Prompter/Answers.antt =====
-- What is sent for each request, and how the agent reads the answer to a version it cannot be served.
use libre_darwin.Base.{
  ◌≡◌, ◌≢◌, refl, ◌⊎◌, ◌∙◌, String, none, some, List, [], ◌∷◌, arith, if_neg, value, unexpected,
  Bool-cases, inl, inr, str_eq,
}
use libre_darwin.Wire.{Cbor, PrompterWire}
use libre_darwin.Wire.Maps.{find}
use libre_darwin.Protocol.Messages.{
  PrompterRequest, prompt_request, prompt_cancel, request_secrets, confirm_action, prompt_reset,
  PrompterParseError, unsupported_version, unknown_message, prompter_protocol_version,
}
use libre_darwin.Protocol.Fields.Laws.{top_map-encode, opt_text-shown_text, finds, find_text-text}
use libre_darwin.Protocol.Encode.{prompt_reply_map, prompt_reply_to_cbor}
use libre_darwin.Protocol.Decode.Replies.{
  parse_prompt_reply, parse_multi_prompt_reply, parse_confirm_reply, parse_reset_done,
}
use libre_darwin.Protocol.RoundTrip.Statuses.{parse_status-shown, opt_reply_version-current}
use libre_darwin.Protocol.RoundTrip.Replies.{parse-prompt_reply, prompt_reply_found}
use libre_darwin.Prompter.{
  Providers, Effect, send_secret, send_secrets, send_confirm, send_reset_done,
  unsupported_version_reply, visit, serve,
}

-- The reply that answers each request, by its kind; a dismissal has none.
abbrev pub IsReplyTo : {Kind Status : Type 0} → PrompterRequest Kind → Effect Kind Status → Type 0
IsReplyTo (prompt_request r) (send_secret _) = Unit {0}
IsReplyTo (request_secrets r) (send_secrets _) = Unit {0}
IsReplyTo (confirm_action r) (send_confirm _) = Unit {0}
IsReplyTo prompt_reset (send_reset_done _) = Unit {0}
IsReplyTo _ _ = ⊥

abbrev pub sends : {Kind Status : Type 0} → List (Effect Kind Status) → List (Effect Kind Status)
sends [] = []
sends (send_secret r ∷ es) = send_secret r ∷ sends es
sends (send_secrets r ∷ es) = send_secrets r ∷ sends es
sends (send_confirm r ∷ es) = send_confirm r ∷ sends es
sends (send_reset_done r ∷ es) = send_reset_done r ∷ sends es
sends (_ ∷ es) = sends es

abbrev pub Answered :
    {Kind Status : Type 0} → PrompterRequest Kind → List (Effect Kind Status) → Type 0
Answered (prompt_cancel r) es = es ≡ []
Answered r [] = ⊥
Answered r (e ∷ es) = IsReplyTo r e × (es ≡ [])

-- A request that parses gets one reply, of the kind that its sender reads; a dismissal gets none.
pub visit-Answered :
    (w : PrompterWire) (p : Providers w.Kind w.Status) (r : PrompterRequest w.Kind)
    → Answered r (sends (visit w p r))
unfolding visit
visit-Answered w p (prompt_request r) = (tt, refl)
visit-Answered w p (prompt_cancel r) = refl
visit-Answered w p (request_secrets r) = (tt, refl)
visit-Answered w p (confirm_action r) = elim (Bool-cases (str_eq r.kind "configure_trust")) [
  | inl e ↦ rw e (tt, refl)
  | inr e ↦ rw e (tt, refl)
]
visit-Answered w p prompt_reset = (tt, refl)

-- Serving what does not parse: a newer agent is told, everything else is met with silence, and in
-- neither case is a window raised.
pub serve-of_error :
    (w : PrompterWire) (p : Providers w.Kind w.Status) (e : PrompterParseError)
    → ((e ≡ unsupported_version)
        × (serve w p (unexpected e) ≡ send_secret (unsupported_version_reply w) ∷ []))
      ⊎ ((e ≢ unsupported_version) × (serve w p (unexpected e) ≡ []))
unfolding serve
serve-of_error w p unsupported_version = inl (refl, refl)
serve-of_error w p _ = inr (λ e. cc, refl)

refusal_tags :
    (w : PrompterWire) (c : Cbor)
    → let m = prompt_reply_map w c (unsupported_version_reply w) in
      (find "t" m ≡ some (c.text "Secret"))
      × (find "secret" m ≡ none)
      × (find "primary" m ≡ none)
      × (find "secondary" m ≡ none)
unfolding prompt_reply_map unsupported_version_reply find
refusal_tags w c =
    rw (if_neg (w.status_eq w.error w.ok) w.error-ne-ok)
      ((simp finds), (simp finds), (simp finds), (simp finds))

-- The reply to a newer agent is read by each of the three parsers that its sender may use, as an error
-- with that message and no secret; the parser for a reset's answer refuses it by its tag.
pub unsupported_version_reply-parses :
    (w : PrompterWire) (c : Cbor)
    → let body = c.encode (prompt_reply_to_cbor w c (unsupported_version_reply w)) in
      let message : String = "prompter protocol version not supported by this helper" in
      let version = some prompter_protocol_version in
      (parse_prompt_reply w c body
        ≡ value (record {
          status = w.error;
          secret = [];
          user_message = message;
          protocol_version = version;
        }))
      × (parse_multi_prompt_reply w c body
          ≡ value (record {
            status = w.error;
            primary = [];
            secondary = [];
            user_message = message;
            protocol_version = version;
          }))
      × (parse_confirm_reply w c body
          ≡ value (record { status = w.error; user_message = message; protocol_version = version }))
      × (parse_reset_done w c body ≡ unexpected unknown_message)
unfolding unsupported_version_reply prompt_reply_to_cbor parse_multi_prompt_reply
    parse_confirm_reply parse_reset_done
unsupported_version_reply-parses w c =
    let r = unsupported_version_reply w in
    let m = prompt_reply_map w c r in
    let f = prompt_reply_found w c r in
    let g = refusal_tags w c in
    let status = parse_status-shown w c m w.error f.1 in
    let version = opt_reply_version-current w c m f.0 in
    let message = opt_text-shown_text c m "userMessage" r.user_message f.2 in
    (
      parse-prompt_reply w c r (omega arith) ∙ rw (if_neg _ w.error-ne-ok),
      rw (
        top_map-encode c m,
        status,
        version,
        if_neg _ w.error-ne-ok,
        if_neg _ w.error-ne-ok,
        message,
      ),
      rw (top_map-encode c m, g.1, g.2, g.3, status, message, version),
      rw (top_map-encode c m, find_text-text c m "t" "Secret" g.0),
    )
