-- ===== src/Frontend/Dispatch.antt =====
-- `dispatch`, and the handlers that no other file here has (agent/src/backend/SocketFrontend.cpp).
use libre_darwin.Base.{ℕ, String, [], ◌∷◌, Bool, ◌==◌, if◌then◌else◌}
use libre_darwin.Wire.{Cbor}
use libre_darwin.Frontend.Errors.{unsupported_protocol, communication_error, invalid_request}
use libre_darwin.Frontend.Request.{Request, Inbound, LayoutBox}
use libre_darwin.Frontend.State.{
  Frontend, error, hello_ack, state, font, layout, set_wants_events, replied_and_closed,
  CscaAnchorStateReply,
}
use libre_darwin.Frontend.Gates.{Services, Outcome, after, reply, reply_error}
use libre_darwin.Frontend.Cards.{
  handle_read_identity, handle_get_photo, handle_read_certificates, handle_read_token_info,
  handle_list_credentials, handle_manage_pin, handle_activate_signing_key,
}
use libre_darwin.Frontend.Signing.{handle_sign, handle_sign_batch}
use libre_darwin.Frontend.Records.{handle_cancel, handle_get_sign_result}
use libre_darwin.Frontend.Config.{handle_get_config}
use libre_darwin.Frontend.Trust.{
  handle_set_config, handle_reset_config, handle_import_csca_master_list,
}
use libre_darwin.Frontend.Broker.{
  handle_cert_der, handle_pk_public_key, handle_pk_login, handle_pk_logout, handle_pk_login_state,
  handle_pk_sign_raw, handle_pk_decrypt, handle_pk_derive,
}

module _ {V : Type 0} (services : Services) where
  unfoldable pub handle_hello : ℕ → Bool → Frontend → Outcome V
  handle_hello proto wants_events s =
      if proto == services.protocol_version
      then after (set_wants_events wants_events)
          (reply (hello_ack services.agent_ver services.agent_features) s)
      else (s, replied_and_closed (error unsupported_protocol) ∷ [])

  unfoldable pub handle_get_state : Frontend → Outcome V
  handle_get_state = reply (state services.registry)

  unfoldable pub handle_layout_visual : String → LayoutBox → Frontend → Outcome V
  handle_layout_visual text box s =
      if services.is_valid_layout_rect box
      then reply (layout text box) s
      else reply_error invalid_request s

  unfoldable pub handle_get_appearance_font : Frontend → Outcome V
  handle_get_appearance_font s =
      if services.anon_fd_made services.appearance_font_bytes
      then reply (font services.appearance_font_bytes) s
      else reply_error communication_error s

module _ (c : Cbor) (services : Services)
    (encode_csca_anchor_state : CscaAnchorStateReply → c.Value) where
  abbrev pub handle : Inbound c.Value → Request c.Value → Frontend → Outcome c.Value
  handle m (Request.hello proto wants_events) = handle_hello services proto wants_events
  handle m Request.get_state = handle_get_state services
  handle m (Request.read_identity card) = handle_read_identity services card m.caller
  handle m (Request.get_photo card) = handle_get_photo services card m.caller
  handle m (Request.read_certificates card) = handle_read_certificates services card m.caller
  handle m (Request.read_token_info card) = handle_read_token_info services card m.caller
  handle m (Request.sign card cert opts in_fd) =
      handle_sign services card cert opts in_fd m.fds m.caller
  handle m (Request.sign_batch card cert opts docs) =
      handle_sign_batch services card cert opts docs m.fds m.caller
  handle m (Request.list_credentials card) = handle_list_credentials services card m.caller
  handle m (Request.manage_pin card pin_id verb activate_key) =
      handle_manage_pin services card pin_id verb activate_key m.caller
  handle m (Request.activate_signing_key card) = handle_activate_signing_key services card m.caller
  handle m (Request.get_cert_der reader cert) = handle_cert_der reader cert
  handle m Request.get_config = handle_get_config c services encode_csca_anchor_state
  handle m (Request.set_config key v) = handle_set_config c services m.conn_id m.req key v m.caller
  handle m (Request.reset_config key) = handle_reset_config c services m.conn_id m.req key m.caller
  handle m (Request.cancel_op op) = handle_cancel op m.caller
  handle m (Request.get_sign_result op) = handle_get_sign_result services op m.caller
  handle m (Request.pk_login reader) = handle_pk_login reader
  handle m (Request.pk_logout reader) = handle_pk_logout reader
  handle m (Request.pk_login_state reader) = handle_pk_login_state services reader m.caller
  handle m (Request.pk_public_key reader cert) = handle_pk_public_key reader cert
  handle m (Request.pk_sign_raw reader cert mech input) =
      handle_pk_sign_raw services reader cert mech input
  handle m (Request.pk_decrypt reader cert mech input) =
      handle_pk_decrypt services reader cert mech input
  handle m (Request.pk_derive reader cert input) = handle_pk_derive reader cert input
  handle m (Request.layout_visual text box) = handle_layout_visual services text box
  handle m Request.get_appearance_font = handle_get_appearance_font services
  handle m (Request.import_csca_master_list list) =
      handle_import_csca_master_list services m.conn_id m.req list m.fds m.caller

  unfoldable pub dispatch : Inbound c.Value → Frontend → Outcome c.Value
  dispatch m = handle m m.body
