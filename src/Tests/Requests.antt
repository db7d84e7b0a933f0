-- ===== src/Tests/Requests.antt =====
-- The dispatcher, the confirmations and the ownership of operations at concrete values.
use libre_darwin.Base.{
  ◌++◌, ◌≤◌, ◌≡◌, refl, none, some, List, [], ◌∷◌, true, false, ◌⊎◌, value, All,
}
use libre_darwin.Protocol.Messages.{ConfirmReply}
use libre_darwin.Transport.Maps.{lookup, assign}
use libre_darwin.Transport.Presence.Updates.{card_routing}
use libre_darwin.Frontend.Errors.{no_result}
use libre_darwin.Frontend.SignOptions.{
  ResolvedSignOptions, IsResolved, resolve_sign_options, resolve_sign_options-IsResolved,
}
use libre_darwin.Frontend.State.{SignedArtifact, Frontend, Ask, config_write, ack}
use libre_darwin.Frontend.Gates.{Services, with_card, present, ensure, launch, reply, reply_error}
use libre_darwin.Frontend.Cards.{handle_read_identity, read_card}
use libre_darwin.Frontend.Records.{handle_get_sign_result, handle_cancel}
use libre_darwin.Frontend.Dispatch.{dispatch}
use libre_darwin.Frontend.Contract.{IsQuestion, Contract, entered, effects, left_in}
use libre_darwin.Frontend.Contract.Dispatch.{dispatch-Contract}
use libre_darwin.Frontend.Contract.Consequences.{
  answers, charges, IsPermitted, dispatch-answers, dispatch-IsPermitted,
}
use libre_darwin.Frontend.Confirmations.{
  stashed, finished, disconnected, Host, Event, dispatched, answered, continued, step, after_events,
}
use libre_darwin.Frontend.Confirmations.Consent.{IsDue, effects_in, step-IsDue}
use libre_darwin.Frontend.Confirmations.Flight.{
  outstanding, flight, IsReplied, after_events-outstanding, on_posted-answers,
}
use libre_darwin.Frontend.Ownership.{dispatch-owners}
use libre_darwin.Frontend.Departure.{after_events-forgets}
use libre_darwin.Tests.Sample.{cbor, wire, Value, v_array, no_item, Status, ok}
use libre_darwin.Tests.Agent.{
  rules, defaults, opts, services, encode_state, sign_request, trust_request, identity_request,
  frontend,
}

abbrev resolved : ResolvedSignOptions
resolved = record {
  format = "pades";
  level = "b-t";
  packaging = "enveloped";
  allow_expired = false;
  reason = "approval";
  location = "";
  tsa_url = some "https://tsa";
  visual = none;
}

resolves : resolve_sign_options rules opts (37 ∷ []) defaults ≡ value resolved
unfolding resolve_sign_options
resolves = refl

resolve_sign_options-IsResolved_example : IsResolved rules opts resolved
resolve_sign_options-IsResolved_example =
    resolve_sign_options-IsResolved rules opts (37 ∷ []) defaults resolves

abbrev sign_outcome : Frontend
sign_outcome = left_in (dispatch cbor services encode_state sign_request frontend)

dispatch-Contract_example :
    Contract
      (IsQuestion services sign_request sign_request.body)
      services
      7
      frontend
      entered
      sign_outcome
      (effects (dispatch cbor services encode_state sign_request frontend))
dispatch-Contract_example = dispatch-Contract cbor services encode_state sign_request frontend

dispatch-answers_example :
    (answers (effects (dispatch cbor services encode_state sign_request frontend)) ≡ 1)
    × (charges (effects (dispatch cbor services encode_state sign_request frontend)) ≤ 1)
dispatch-answers_example = dispatch-answers cbor services encode_state sign_request frontend

dispatch-IsPermitted_example :
    All
      (IsPermitted services 7)
      (effects (dispatch cbor services encode_state sign_request frontend))
dispatch-IsPermitted_example = dispatch-IsPermitted cbor services encode_state sign_request frontend

abbrev approval : ConfirmReply Status
approval = record { status = ok; user_message = ""; protocol_version = some 2 }

abbrev asked : List (Services × Event Value Status)
asked = (services, answered 0 approval) ∷ (services, dispatched trust_request) ∷ []

step-IsDue_example : All (IsDue cbor wire encode_state services continued asked) (
    effects_in cbor wire encode_state
      (step cbor wire encode_state services continued (after_events cbor wire encode_state asked)))
step-IsDue_example = step-IsDue cbor wire encode_state asked services continued

after_events-outstanding_example :
    outstanding cbor wire encode_state 7 (after_events cbor wire encode_state asked)
    ≡ flight 7 (after_events cbor wire encode_state asked).frontend
after_events-outstanding_example =
    after_events-outstanding cbor wire encode_state 7 asked (tt, (tt, tt))

abbrev question : Ask Value
question = record {
  conn_id = 1;
  req = 5;
  caller = 7;
  action = record {
    kind = "configure_trust";
    title = "Confirm trust change";
    description = "Change the timestamping authorities this computer will use.";
    description_key = "prompter_trust_tsa";
    requester = "";
    artifact = "TsaUrls";
  };
  pending = config_write "TsaUrls" (v_array no_item);
}

abbrev host : Host Value Status
host = record {
  frontend = record frontend { confirms_in_flight = 7 ∷ [] };
  alive = true;
  asking = [];
  posted = (question, approval) ∷ [];
}

on_posted-answers_example :
    IsReplied cbor wire encode_state question []
      (step cbor wire encode_state services continued host)
on_posted-answers_example =
    on_posted-answers cbor wire encode_state services host question approval [] refl refl

abbrev artifact : SignedArtifact
artifact = record {
  bytes = 37 ∷ [];
  meta = record { format = "pades"; level = "b-t"; tsa_used = true; chain_complete = true };
}

-- Other events than the token's own, after its client is gone.
abbrev later : List (Services × Event Value Status)
later =
    (services, answered 0 approval)
    ∷ (services, finished 41)
    ∷ (services, stashed 42 8 artifact)
    ∷ []

abbrev before : List (Services × Event Value Status)
before = (services, stashed 41 7 artifact) ∷ (services, dispatched sign_request) ∷ []

after_events-forgets_example :
    let h = after_events cbor wire encode_state (later ++ (services, disconnected 7) ∷ before) in
    (handle_get_sign_result services 41 7 h.frontend ≡ reply_error {V = Value} no_result h.frontend)
    × (handle_cancel 41 7 h.frontend ≡ reply {V = Value} ack h.frontend)
after_events-forgets_example =
    after_events-forgets cbor wire encode_state 7 41 services services later before
      (tt, (tt, (refl, tt)))

identity_owner :
    lookup 41 (left_in (dispatch cbor services encode_state identity_request frontend)).op_owners
    ≡ some 7
unfolding dispatch handle_read_identity read_card with_card present ensure launch card_routing
    lookup assign
identity_owner = refl

dispatch-owners_example : (identity_request.caller ≡ 7) ⊎ (lookup 41 frontend.op_owners ≡ some 7)
dispatch-owners_example =
    dispatch-owners cbor services encode_state identity_request frontend 41 7 identity_owner
