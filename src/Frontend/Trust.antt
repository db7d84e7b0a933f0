-- ===== src/Frontend/Trust.antt =====
-- The configuration and import requests that a person has to agree to
-- (agent/src/backend/SocketFrontend.cpp).
use libre_darwin.Base.{
  ℕ, String, Option, none, some, List, [], ◌∷◌, Bool, false, ◌==◌, ◌||◌, str_eq, if◌then◌else◌,
  Expected, value, unexpected,
}
use libre_darwin.Wire.{Cbor, PrompterWire}
use libre_darwin.Protocol.Messages.{ConfirmAction, ConfirmReply}
use libre_darwin.Frontend.Errors.{
  SyncError, unknown_config_key, read_only_config, not_authorized, rate_limited, invalid_request,
  input_too_large, communication_error, master_list_replayed,
}
use libre_darwin.Frontend.SignOptions.{Document}
use libre_darwin.Frontend.State.{
  Frontend, TrustChange, set_value, reset_value, import_anchors, bus_mutable, bus_mutable_trust,
  file_only, read_only, ReadResult, read, not_regular, too_large, read_error, ImportRefusal,
  replayed, cache_not_writable, AnchorState, AcceptedSigner, CscaAnchorState, Pending, config_write,
  config_reset, master_list, Ask, asked_person, read_fd, imported, recorded, anchor_state,
}
use libre_darwin.Frontend.Gates.{
  Services, Outcome, Gate, ◌>>=◌, ◌>>◌, run, stop, present, perform, reply, reply_error, authorized,
  rate_allowed, requester_label,
}
use libre_darwin.Frontend.Signing.{descriptor}
use libre_darwin.Frontend.Records.{erase_caller}
use libre_darwin.Frontend.Config.{apply_config_write, apply_config_reset, to_anchor_state_reply}

-- The key and the English text of the question, if there is one for the change.
unfoldable pub describe_trust_change : String → TrustChange → Option (String × String)
describe_trust_change key import_anchors = some (
  "prompter_trust_import",
  "Install the country signing certificates from the offered file, replacing the ones this computer checks passports against.",
)
describe_trust_change key _ =
    if str_eq key "TsaUrls"
    then some ("prompter_trust_tsa", "Change the timestamping authorities this computer will use.")
    else if str_eq key "TslSources"
    then some
        ("prompter_trust_tsl", "Change the trusted lists this computer accepts signatures against.")
    else none

-- `m_confirmsInFlight.contains`
unfoldable pub is_in_flight : ℕ → List ℕ → Bool
is_in_flight caller [] = false
is_in_flight caller (c ∷ cs) = (c == caller) || is_in_flight caller cs

unfoldable pub sync_error_for : ImportRefusal → SyncError
sync_error_for replayed = master_list_replayed
sync_error_for cache_not_writable = communication_error
sync_error_for _ = invalid_request

-- A publisher is named when there is exactly one.
unfoldable pub recorded_state_for : (Document → String) → AnchorState → CscaAnchorState
recorded_state_for to_hex state =
    let only : Option AcceptedSigner = elim state.signers [
      | [] ↦ none
      | signer ∷ more ↦ elim more [ [] ↦ some signer | _ ∷ _ ↦ none ]
    ] in
    record {
      anchors = state.anchor_count;
      issuers = state.issuer_count;
      replay_refusal_active = state.replay_refusal_active;
      signer = elim only [ none ↦ "" | some signer ↦ to_hex signer.fingerprint ];
      signer_pinned = state.every_publisher_established;
      accepted_at = state.accepted_at;
      signed_at = elim only [ none ↦ none | some signer ↦ signer.signed_at ];
    }

module _ {V : Type 0} (services : Services) where
  -- The request waits for a person, unless there is no question for it or its caller has one open.
  unfoldable pub confirm_then_apply :
      ℕ → ℕ → String → ℕ → TrustChange → Pending V → Frontend → Outcome V
  confirm_then_apply conn_id req key caller what pending s = elim (describe_trust_change key what) [
    | none ↦ reply_error not_authorized s
    | some (copy_key, text) ↦
        let action : ConfirmAction = record {
          kind = "configure_trust";
          title = "Confirm trust change";
          description = text;
          description_key = copy_key;
          requester = requester_label services caller;
          artifact = key;
        } in
        if is_in_flight caller s.confirms_in_flight then reply_error rate_limited s else (
          record s { confirms_in_flight = caller ∷ s.confirms_in_flight },
          asked_person (record {
            conn_id = conn_id;
            req = req;
            caller = caller;
            action = action;
            pending = pending;
          })
              ∷ [],
        )
  ]

  abbrev pub checked_list : ReadResult → Frontend → Gate V Document
  checked_list (read bytes) s k = k bytes
  checked_list not_regular s k = reply_error invalid_request s
  checked_list too_large s k = reply_error input_too_large s
  checked_list read_error s k = reply_error communication_error s

  abbrev pub accepted : Expected ImportRefusal AnchorState → Frontend → Gate V AnchorState
  accepted (unexpected refusal) s k = reply_error (sync_error_for refusal) s
  accepted (value state) s k = k state

  -- What an import does once a person agreed.
  unfoldable pub import_anchors_from : ℕ → Frontend → Outcome V
  import_anchors_from fd s = run (do
    perform (read_fd fd)
    bytes ← checked_list (services.read_bounded_regular_fd 0 fd services.max_master_list_bytes) s
    perform (imported bytes)
    state ← accepted (services.import_master_list bytes) s
    let record_kept = recorded_state_for services.to_hex state
    perform (recorded record_kept)
    stop (reply (anchor_state (to_anchor_state_reply record_kept)) s))

  unfoldable pub handle_import_csca_master_list : ℕ → ℕ → ℕ → List ℕ → ℕ → Frontend → Outcome V
  handle_import_csca_master_list conn_id req list fds caller s =
      let actions = services.actions in
      run (do
        authorized services actions.configure_trust caller s
        rate_allowed services caller s
        fd ← present (descriptor fds list) invalid_request s
        stop (
            confirm_then_apply conn_id req "CscaAnchorState" caller import_anchors (master_list fd)
              s))

  -- The checks of `handleSetConfig` and `handleResetConfig`, with what the request applies.
  unfoldable pub change_config :
      ℕ → ℕ → String → ℕ → TrustChange → Pending V → (Frontend → Outcome V) → Frontend → Outcome V
  change_config conn_id req key caller what pending apply s =
      let actions = services.actions in
      elim (services.mutability key) [
        | none ↦ reply_error unknown_config_key s
        | some mutability ↦ elim mutability [
          | file_only ↦ reply_error read_only_config s
          | read_only ↦ reply_error read_only_config s
          | bus_mutable ↦ run (do authorized services actions.configure caller s; stop (apply s))
          | bus_mutable_trust ↦ run (do
            authorized services actions.configure_trust caller s
            rate_allowed services caller s
            stop (confirm_then_apply conn_id req key caller what pending s))
        ]
      ]

abbrev pub if_decided : {P A : Type 0} → Dec P → A → A → A
if_decided (yes _) x y = x
if_decided (no _) x y = y

pub if_decided-split :
    {P A : Type 0} (Q : A → Type 0) (d : Dec P) (x y : A) → (P → Q x) → Q y → Q (if_decided d x y)
if_decided-split Q (yes p) x y h k = h p
if_decided-split Q (no p) x y h k = k

module _ (c : Cbor) (services : Services) where
  unfoldable pub handle_set_config : ℕ → ℕ → String → c.Value → ℕ → Frontend → Outcome c.Value
  handle_set_config conn_id req key v caller =
      change_config services conn_id req key caller set_value (config_write key v)
        (apply_config_write c services key v)

  unfoldable pub handle_reset_config : ℕ → ℕ → String → ℕ → Frontend → Outcome c.Value
  handle_reset_config conn_id req key caller =
      change_config services conn_id req key caller reset_value (config_reset key)
        (apply_config_reset c services key)

  abbrev pub apply_pending : Pending c.Value → Frontend → Outcome c.Value
  apply_pending (config_write key v) = apply_config_write c services key v
  apply_pending (config_reset key) = apply_config_reset c services key
  apply_pending (master_list fd) = import_anchors_from services fd

  -- What runs on the loop once a person answered, the frontend being alive.
  unfoldable pub continue_confirmed :
      (w : PrompterWire) → ConfirmReply w.Status → Ask c.Value → Frontend → Outcome c.Value
  continue_confirmed w verdict ask s =
      let t = record s { confirms_in_flight = erase_caller ask.caller s.confirms_in_flight } in
      if_decided (w.status_eq verdict.status w.ok) (apply_pending ask.pending t)
        (reply_error not_authorized t)
