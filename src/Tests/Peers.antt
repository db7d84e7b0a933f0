-- ===== src/Tests/Peers.antt =====
-- The two ends of the prompter's socket at concrete values.
use libre_darwin.Base.{
  if◌then◌else◌, ℕ, String, ◌≡◌, refl, ap, arith, none, some, List, [], ◌∷◌, Bool, true, false, All,
  value, unexpected,
}
use libre_darwin.Protocol.Messages.{confirm_action, unknown_message, prompter_protocol_version}
use libre_darwin.Protocol.Encode.{
  prompt_reset_to_cbor, multi_prompt_reply_to_cbor, request_secrets_to_cbor, prompt_request_to_cbor,
  prompt_reply_to_cbor, confirm_action_to_cbor,
}
use libre_darwin.Protocol.Decode.Replies.{
  parse_prompt_reply, parse_multi_prompt_reply, parse_confirm_reply, parse_reset_done,
}
use libre_darwin.Protocol.Decode.Requests.{parse_prompter_request}
use libre_darwin.Protocol.RoundTrip.Prompt.{PromptFitsUint32}
use libre_darwin.Prompter.{
  serve, Providers, send_secret, Server, has, visit, on_read_ready, unsupported_version_reply,
  unauthorized_reply,
}
use libre_darwin.Prompter.Connections.{
  IsValid, Event, connects, readable, run, on_read_ready_once, run-Refused,
}
use libre_darwin.Prompter.Answers.{
  Answered, sends, visit-Answered, unsupported_version_reply-parses,
}
use libre_darwin.Client.{
  frame, build_change_request, read_change_reply, judge_change, PromptOptions, Link, recv_failed,
  build_request, request, request_pin_change, request_confirmation, cancel,
}
use libre_darwin.Client.Trust.{Trusted, FromReply, request_ok}
use libre_darwin.Client.PinChange.{FromChangeReply, request_pin_change_ok}
use libre_darwin.Protocol.RoundTrip.Replies.{parse-multi_prompt_reply}
use libre_darwin.Client.Approval.{FromConfirmReply, request_confirmation_ok, sent-of_unverified}
use libre_darwin.Client.EndToEnd.{
  healthy, answering, request-answered, request_confirmation-answered,
}
use libre_darwin.Client.Reset.{sweeps, reset, windows_closed, reset-answered}
use libre_darwin.Tests.Sample.{
  Value, v_text, Kind, pin, Status, ok, error, prompt_ok, cbor, wire, statuses,
}
use libre_darwin.Tests.Messages.{two_secrets, pin_reply, trust_action}

abbrev providers : Providers Kind Status
providers = record {
  provider = λ _. pin_reply;
  multi_provider = λ _. record {
    status = error;
    primary = [];
    secondary = [];
    user_message = "";
    protocol_version = none;
  };
  confirm_provider = λ _. record { status = ok; user_message = "yes"; protocol_version = none };
  reset = 2;
}

abbrev options : PromptOptions
options = record {
  title = "PIN";
  description = "";
  requester = "pkcs11";
  artifact = "";
  pin_label = "";
  min_length = 4;
  max_length = 8;
  artifacts = [];
  attempt = 0;
  last_error = "";
  prompt_id = "p1";
  deadline_ms = 60000;
  alt_deadline_ms = 0;
  reader_model = "";
  reader_interface = "contact";
  reader_full = "";
}

options_fit : PromptFitsUint32 (build_request pin options)
unfolding build_request
options_fit = record {
  min_length = omega arith;
  max_length = omega arith;
  attempt = omega arith;
  deadline_ms = omega arith;
  alt_deadline_ms = omega arith;
}

request-answered_example :
    (request wire cbor statuses (healthy wire cbor providers) pin options).0
    ≡ record { status = prompt_ok; secret = 49 ∷ 50 ∷ 51 ∷ 52 ∷ []; user_message = "" }
request-answered_example =
    request-answered wire cbor statuses providers pin options options_fit (λ e. (cc)) refl
      (omega arith)

answered_ok :
    (request wire cbor statuses (healthy wire cbor providers) pin options).0.status ≡ prompt_ok
answered_ok =
    ap (λ r. r.status)
      (request-answered wire cbor statuses providers pin options options_fit (λ e. (cc)) refl
        (omega arith))

request_ok_example :
    let link = healthy wire cbor providers in
    Trusted link
    × (link.budget_set ≡ true)
    × FromReply wire cbor statuses
        (link.answer (prompt_request_to_cbor wire cbor (build_request pin options)))
        (request wire cbor statuses link pin options).0.secret
request_ok_example =
    request_ok wire cbor statuses (healthy wire cbor providers) pin options answered_ok

-- A connection to a peer that the verifier rejects.
abbrev rejected : Link Value
rejected = record {
  connected = true;
  peer_verified = false;
  budget_set = true;
  frame_sent = true;
  answer = λ body. recv_failed;
}

sent-of_unverified_example :
    ((request wire cbor statuses rejected pin options).1 ≡ [])
    × ((request_pin_change wire cbor statuses rejected "change_pin" options).1 ≡ [])
    × ((request_confirmation wire cbor statuses rejected trust_action).1 ≡ [])
    × (cancel wire cbor statuses rejected "p1" ≡ [])
sent-of_unverified_example =
    sent-of_unverified wire cbor statuses rejected pin "change_pin" options trust_action "p1" refl

request_confirmation-answered_example :
    (request_confirmation wire cbor statuses (healthy wire cbor providers) trust_action).0
    ≡ record {
      status = ok;
      user_message = "yes";
      protocol_version = some prompter_protocol_version;
    }
request_confirmation-answered_example =
    request_confirmation-answered wire cbor statuses providers trust_action

approved :
    (request_confirmation wire cbor statuses (healthy wire cbor providers) trust_action).0.status
    ≡ ok
approved =
    ap (λ r. r.status) (request_confirmation-answered wire cbor statuses providers trust_action)

request_confirmation_ok_example :
    let link = healthy wire cbor providers in
    Trusted link
    × FromConfirmReply wire cbor statuses
        (link.answer (confirm_action_to_cbor wire cbor trust_action))
        (request_confirmation wire cbor statuses link trust_action).0
request_confirmation_ok_example =
    request_confirmation_ok wire cbor statuses (healthy wire cbor providers) trust_action approved

reset-answered_example :
    let (outcome, sent) = reset wire cbor (record {
      connected = true;
      peer_verified = true;
      frame_sent = true;
      left_us = some 400000;
      timeout_set = λ _. true;
      answer = answering wire cbor providers;
    }) in
    let body = prompt_reset_to_cbor wire cbor in
    (outcome ≡ windows_closed 2)
    × (sent ≡ body ∷ [])
    × (sweeps wire cbor (serve wire providers (parse_prompter_request wire cbor body)) ≡ 2 ∷ [])
reset-answered_example = reset-answered wire cbor providers 400000 (omega arith)

visit-Answered_example :
    Answered
      (confirm_action trust_action)
      (sends (visit wire providers (confirm_action trust_action)))
visit-Answered_example = visit-Answered wire providers (confirm_action trust_action)

unsupported_version_reply-parses_example :
    let body = prompt_reply_to_cbor wire cbor (unsupported_version_reply wire) in
    let message : String = "prompter protocol version not supported by this helper" in
    let version = some prompter_protocol_version in
    (parse_prompt_reply wire cbor body
      ≡ value (record {
        status = error;
        secret = [];
        user_message = message;
        protocol_version = version;
      }))
    × (parse_multi_prompt_reply wire cbor body
        ≡ value (record {
          status = error;
          primary = [];
          secondary = [];
          user_message = message;
          protocol_version = version;
        }))
    × (parse_confirm_reply wire cbor body
        ≡ value (record { status = error; user_message = message; protocol_version = version }))
    × (parse_reset_done wire cbor body ≡ unexpected unknown_message)
unsupported_version_reply-parses_example = unsupported_version_reply-parses wire cbor

-- A server with two clients.
abbrev two_clients : Server
two_clients = record { connections = 2 ∷ 1 ∷ []; next_conn_id = 3 }

two_clients-IsValid : IsValid two_clients
unfolding has
two_clients-IsValid = record {
  fresh = (omega arith, (omega arith, tt));
  distinct = (refl, (refl, tt));
}

abbrev admits : ℕ → Bool
admits _ = true

abbrev admits_none : ℕ → Bool
admits_none _ = false

on_read_ready_once_example :
    let (s', es) =
      on_read_ready wire cbor providers two_clients 1 (v_text "x" ∷ v_text "z" ∷ []) true in
    (es ≡ (
      if has 1 two_clients.connections
      then serve wire providers (parse_prompter_request wire cbor (v_text "x"))
      else []))
    × (on_read_ready wire cbor providers s' 1 (v_text "y" ∷ []) true ≡ (s', []))
on_read_ready_once_example =
    on_read_ready_once wire cbor admits providers two_clients 1 (v_text "x") (v_text "z" ∷ [])
      (v_text "y" ∷ []) true true two_clients-IsValid

abbrev no_clients : Server
no_clients = record { connections = []; next_conn_id = 1 }

abbrev history : List (Event ℕ Value)
history = connects (some 7) ∷ readable 1 (v_text "x" ∷ []) true ∷ connects none ∷ []

run-Refused_example :
    ((run wire cbor admits_none providers no_clients history).0.connections ≡ [])
    × All
        (λ e. e ≡ send_secret (unauthorized_reply wire))
        (run wire cbor admits_none providers no_clients history).1
run-Refused_example =
    run-Refused wire cbor admits_none providers (λ creds. refl) no_clients history refl

-- A prompter that answers a PIN change with two secrets.
abbrev changing : Link Value
changing = record {
  connected = true;
  peer_verified = true;
  budget_set = true;
  frame_sent = true;
  answer = λ body. frame (multi_prompt_reply_to_cbor wire cbor two_secrets);
}

changing_ok :
    (request_pin_change wire cbor statuses changing "change_pin" options).0.status ≡ prompt_ok
unfolding request_pin_change read_change_reply judge_change
changing_ok =
    rw
      (
        parse-multi_prompt_reply wire cbor two_secrets (omega arith) (omega arith),
        read_change_reply,
      )
      refl

request_pin_change_ok_example :
    Trusted changing
    × (changing.budget_set ≡ true)
    × FromChangeReply wire cbor statuses
        (changing.answer
          (request_secrets_to_cbor wire cbor (build_change_request "change_pin" options)))
        (request_pin_change wire cbor statuses changing "change_pin" options).0
request_pin_change_ok_example =
    request_pin_change_ok wire cbor statuses changing "change_pin" options changing_ok
