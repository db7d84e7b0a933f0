-- ===== src/Frontend/Broker.antt =====
-- The PKCS#11 requests (agent/src/backend/SocketFrontend.cpp). Those that the broker answers end with
-- the call on it.
use libre_darwin.Base.{ℕ, String, [], ◌∷◌}
use libre_darwin.Frontend.Errors.{invalid_request}
use libre_darwin.Frontend.SignOptions.{Document}
use libre_darwin.Frontend.State.{Frontend, BrokerCall, handed_over, logged_out, ack, login_state}
use libre_darwin.Frontend.Gates.{Services, Outcome, ◌>>=◌, run, stop, present, after, reply}

module _ {V : Type 0} where
  abbrev pub hand_over : BrokerCall → Frontend → Outcome V
  hand_over call s = (s, handed_over call ∷ [])

  unfoldable pub handle_cert_der : String → String → Frontend → Outcome V
  handle_cert_der reader cert = hand_over (BrokerCall.cert_der reader cert)

  unfoldable pub handle_pk_public_key : String → String → Frontend → Outcome V
  handle_pk_public_key reader cert = hand_over (BrokerCall.public_key reader cert)

  unfoldable pub handle_pk_login : String → Frontend → Outcome V
  handle_pk_login reader = hand_over (BrokerCall.login reader)

  unfoldable pub handle_pk_logout : String → Frontend → Outcome V
  handle_pk_logout reader s = after (logged_out reader) (reply ack s)

  unfoldable pub handle_pk_derive : String → String → Document → Frontend → Outcome V
  handle_pk_derive reader cert point = hand_over (BrokerCall.derive reader cert point)

  module _ (services : Services) where
    unfoldable pub handle_pk_login_state : String → ℕ → Frontend → Outcome V
    handle_pk_login_state reader caller s =
        reply (login_state (services.login_active reader caller)) s

    unfoldable pub handle_pk_sign_raw : String → String → String → Document → Frontend → Outcome V
    handle_pk_sign_raw reader cert mech input s = run (do
      mechanism ← present (services.sign_mechanism_from_token mech) invalid_request s
      stop (hand_over (BrokerCall.sign_raw reader cert mechanism input) s))

    unfoldable pub handle_pk_decrypt : String → String → String → Document → Frontend → Outcome V
    handle_pk_decrypt reader cert mech input s = run (do
      mechanism ← present (services.decrypt_mechanism_from_token mech) invalid_request s
      stop (hand_over (BrokerCall.decrypt reader cert mechanism input) s))
