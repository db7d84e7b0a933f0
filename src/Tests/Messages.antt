-- ===== src/Tests/Messages.antt =====
-- The prompter's messages at concrete values.
use libre_darwin.Base.{
  ℕ, ◌≤◌, ◌<◌, ◌≡◌, ◌≢◌, refl, arith, none, some, List, [], ◌∷◌, value, unexpected, length, ◌↔◌,
}
use libre_darwin.Wire.Maps.{Map, find}
use libre_darwin.Protocol.Messages.{
  PromptRequest, RequestSecrets, ConfirmAction, PromptReply, MultiPromptReply, ConfirmReply,
  prompt_request, request_secrets, confirm_action, unsupported_version, prompter_protocol_version,
}
use libre_darwin.Protocol.Fields.{
  opt_announced_version, opt_reply_version, required_secret, find_text, opt_text,
}
use libre_darwin.Protocol.Encode.{
  prompt_request_to_cbor, request_secrets_to_cbor, confirm_action_to_cbor, prompt_reply_to_cbor,
  multi_prompt_reply_to_cbor, confirm_reply_to_cbor, shown_interface,
}
use libre_darwin.Protocol.Decode.Requests.{parse_request_map, parse_prompter_request}
use libre_darwin.Protocol.Decode.Replies.{
  parse_status, parse_prompt_reply, parse_prompt_reply_map, parse_multi_prompt_reply,
  parse_confirm_reply,
}
use libre_darwin.Protocol.RoundTrip.Prompt.{PromptFitsUint32, parse-prompt_request}
use libre_darwin.Protocol.RoundTrip.Secrets.{SecretsFitUint32, parse-request_secrets}
use libre_darwin.Protocol.RoundTrip.Others.{parse-others}
use libre_darwin.Protocol.Strict.{parse_prompt_reply_map-secret}
use libre_darwin.Protocol.Gate.{parse_request_map-unsupported_iff}
use libre_darwin.Protocol.Bounds.{IsSound, parse_prompter_request-IsSound}
use libre_darwin.Tests.Sample.{
  Value, v_uint, v_text, v_bytes, Kind, pin, Status, ok, error, cbor, wire,
}

abbrev pub pin_request : PromptRequest Kind
pin_request = record {
  kind = pin;
  title = "PIN";
  description = "";
  requester = "pkcs11";
  artifact = "";
  min_length = 4;
  max_length = 8;
  artifacts = "a.pdf" ∷ "b.pdf" ∷ [];
  attempt = 1;
  last_error = "";
  prompt_id = "p1";
  deadline_ms = 60000;
  alt_deadline_ms = 0;
  reader_model = "";
  reader_interface = "contact";
  reader_full = "";
}

pub pin_request_fits : PromptFitsUint32 pin_request
pin_request_fits = record {
  min_length = omega arith;
  max_length = omega arith;
  attempt = omega arith;
  deadline_ms = omega arith;
  alt_deadline_ms = omega arith;
}

parse-prompt_request_example :
    parse_prompter_request wire cbor (prompt_request_to_cbor wire cbor pin_request)
    ≡ value (
        prompt_request
          (record pin_request { reader_interface = shown_interface wire cbor "contact" }))
parse-prompt_request_example = parse-prompt_request wire cbor pin_request pin_request_fits (λ e. cc)

abbrev change_request : RequestSecrets
change_request = record {
  kind = "change_pin";
  title = "Change PIN";
  description = "";
  requester = "";
  artifact = "";
  primary_min_length = 4;
  primary_max_length = 8;
  new_min_length = 4;
  new_max_length = 8;
  prompt_id = "p2";
  deadline_ms = 180000;
}

change_request_fits : SecretsFitUint32 change_request
change_request_fits = record {
  primary_min_length = omega arith;
  primary_max_length = omega arith;
  new_min_length = omega arith;
  new_max_length = omega arith;
  deadline_ms = omega arith;
}

abbrev pub trust_action : ConfirmAction
trust_action = record {
  kind = "configure_trust";
  title = "";
  description = "Change the trusted lists?";
  description_key = "trust";
  requester = "settings";
  artifact = "";
}

abbrev pub pin_reply : PromptReply Status
pin_reply = record {
  status = ok;
  secret = 49 ∷ 50 ∷ 51 ∷ 52 ∷ [];
  user_message = "";
  protocol_version = none;
}

abbrev pub two_secrets : MultiPromptReply Status
two_secrets = record {
  status = ok;
  primary = 49 ∷ 50 ∷ [];
  secondary = 51 ∷ 52 ∷ [];
  user_message = "";
  protocol_version = none;
}

abbrev refusal : ConfirmReply Status
refusal = record { status = error; user_message = "no"; protocol_version = none }

parse-others_example :
    (parse_prompter_request wire cbor (request_secrets_to_cbor wire cbor change_request)
      ≡ value (request_secrets change_request))
    × (parse_prompter_request wire cbor (confirm_action_to_cbor wire cbor trust_action)
        ≡ value (confirm_action trust_action))
    × (parse_prompt_reply wire cbor (prompt_reply_to_cbor wire cbor pin_reply)
        ≡ value (record pin_reply { protocol_version = some prompter_protocol_version }))
    × (parse_multi_prompt_reply wire cbor (multi_prompt_reply_to_cbor wire cbor two_secrets)
        ≡ value (record two_secrets { protocol_version = some prompter_protocol_version }))
    × (parse_confirm_reply wire cbor (confirm_reply_to_cbor wire cbor refusal)
        ≡ value (record refusal { protocol_version = some prompter_protocol_version }))
parse-others_example =
    parse-others wire cbor change_request trust_action pin_reply two_secrets refusal
      change_request_fits (omega arith) (omega arith) (omega arith)

parse_prompter_request-IsSound_example : IsSound wire cbor (request_secrets change_request)
parse_prompter_request-IsSound_example =
    parse_prompter_request-IsSound wire cbor (request_secrets_to_cbor wire cbor change_request)
      (request_secrets change_request)
      (parse-request_secrets wire cbor change_request change_request_fits)

abbrev one_digit : List ℕ
one_digit = 49 ∷ []

abbrev reply_map : Map Value
reply_map = ("secret", v_bytes one_digit) ∷ ("status", v_text "ok") ∷ []

reply_map_parsed :
    parse_prompt_reply_map wire cbor reply_map
    ≡ value (record { status = ok; secret = one_digit; user_message = ""; protocol_version = none })
unfolding parse_prompt_reply_map parse_status find find_text opt_text opt_reply_version
    opt_announced_version required_secret
reply_map_parsed = refl

parse_prompt_reply_map-secret_example : (length one_digit ≤ 256) × (ok ≢ ok → one_digit ≡ [])
parse_prompt_reply_map-secret_example =
    parse_prompt_reply_map-secret wire cbor reply_map reply_map_parsed

abbrev newer_map : Map Value
newer_map = ("t", v_text "Reset") ∷ ("v", v_uint 3) ∷ []

parse_request_map-unsupported_iff_example :
    (parse_request_map wire cbor newer_map ≡ unexpected unsupported_version) ↔ (
      (n : ℕ) × (opt_announced_version cbor newer_map ≡ value (some n))
      × (prompter_protocol_version < n))
parse_request_map-unsupported_iff_example = parse_request_map-unsupported_iff wire cbor newer_map
