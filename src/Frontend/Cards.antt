-- ===== src/Frontend/Cards.antt =====
-- The requests that launch an operation on a card, but for signing
-- (agent/src/backend/SocketFrontend.cpp).
use libre_darwin.Base.{
  ℕ, String, Option, none, some, Bool, false, not, ◌||◌, is_some, value_or, str_eq,
}
use libre_darwin.Frontend.Errors.{invalid_request}
use libre_darwin.Frontend.State.{Frontend, Operation, PinManageRequest}
use libre_darwin.Frontend.Gates.{
  Services, Outcome, Gate, Done, ◌>>=◌, ◌>>◌, run, stop, ensure, reply_error, with_card, authorized,
  rate_allowed, operation_target, launch,
}

module _ {V : Type 0} (services : Services) where
  -- A card with the capability, then the launch.
  unfoldable pub read_card : Option ℕ → ℕ → Operation → ℕ → Frontend → Outcome V
  read_card card cap operation caller s = run (do
    routing ← with_card services card cap s
    stop (launch services (operation_target services routing caller) operation caller s))

  unfoldable pub handle_read_identity : Option ℕ → ℕ → Frontend → Outcome V
  handle_read_identity card = read_card card services.identity_cap_bit Operation.read_identity

  unfoldable pub handle_get_photo : Option ℕ → ℕ → Frontend → Outcome V
  handle_get_photo card = read_card card services.identity_cap_bit Operation.get_photo

  unfoldable pub handle_read_certificates : Option ℕ → ℕ → Frontend → Outcome V
  handle_read_certificates card = read_card card services.pki_cap_bit Operation.read_certificates

  unfoldable pub handle_read_token_info : Option ℕ → ℕ → Frontend → Outcome V
  handle_read_token_info card = read_card card services.pki_cap_bit Operation.read_token_info

  unfoldable pub handle_list_credentials : Option ℕ → ℕ → Frontend → Outcome V
  handle_list_credentials card =
      read_card card services.pin_management_cap_bit Operation.list_credentials

  -- `validatePinManageRequest`
  unfoldable pub validated : PinManageRequest → Option ℕ → Frontend → Gate V Done
  validated request snapshot s k = elim (services.validate_pin_manage_request request snapshot) [
    | some code ↦ reply_error code s
    | none ↦ k tt
  ]

  -- The snapshot is moved out of the cache's answer, which the validation has refused when empty.
  unfoldable pub handle_manage_pin :
      Option ℕ → String → String → Option Bool → ℕ → Frontend → Outcome V
  handle_manage_pin card pin_id verb activate_key caller s =
      let actions = services.actions in
      run (do
        routing ← with_card services card services.pin_management_cap_bit s
        authorized services actions.credentials_manage caller s
        rate_allowed services caller s
        ensure (not (is_some activate_key) || str_eq verb "activate_pin") invalid_request s
        let request : PinManageRequest = record {
          card_key = routing.card_key;
          pin_id = pin_id;
          verb = verb;
          activate_key = value_or activate_key false;
        }
        let snapshot = services.credential_snapshot routing.card_key
        validated request snapshot s
        stop (
            launch services (operation_target services routing caller)
              (Operation.manage_pin request snapshot) caller s))

  unfoldable pub handle_activate_signing_key : Option ℕ → ℕ → Frontend → Outcome V
  handle_activate_signing_key card caller s =
      let actions = services.actions in
      run (do
        routing ← with_card services card services.pin_management_cap_bit s
        authorized services actions.credentials_manage caller s
        rate_allowed services caller s
        stop (
            launch services (operation_target services routing caller)
              Operation.activate_signing_key caller s))
