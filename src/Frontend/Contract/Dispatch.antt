-- ===== src/Frontend/Contract/Dispatch.antt =====
-- `dispatch` (agent/src/backend/SocketFrontend.cpp) as a run of the contract.
use libre_darwin.Base.{ap, ℕ, refl, Bool, Bool-cases, Option-cases, inl, inr}
use libre_darwin.Wire.{Cbor}
use libre_darwin.Transport.Maps.{lookup}
use libre_darwin.Frontend.Request.{Request, Inbound}
use libre_darwin.Frontend.State.{
  reset_key, Frontend, Ask, master_list, config_write, config_reset, ack, CscaAnchorStateReply,
}
use libre_darwin.Frontend.Gates.{Services}
use libre_darwin.Frontend.Records.{handle_cancel, handle_get_sign_result, owned_record, is_owner}
use libre_darwin.Frontend.Config.{apply_config_reset, handle_get_config}
use libre_darwin.Frontend.Trust.{handle_set_config, handle_reset_config}
use libre_darwin.Frontend.Broker.{
  handle_cert_der, handle_pk_public_key, handle_pk_login, handle_pk_logout, handle_pk_login_state,
  handle_pk_sign_raw, handle_pk_decrypt, handle_pk_derive,
}
use libre_darwin.Frontend.Cards.{
  handle_read_identity, handle_get_photo, handle_read_certificates, handle_read_token_info,
  handle_list_credentials,
}
use libre_darwin.Frontend.Dispatch.{
  handle_hello, handle_get_state, handle_layout_visual, handle_get_appearance_font, handle,
  dispatch,
}
use libre_darwin.Frontend.Contract.{
  IsQuestion, list_change, Contract, entered, effects, left_in, answered, closed, handed,
  subscribed, left, stopped,
}
use libre_darwin.Frontend.Contract.Gates.{Runs, either-Runs, present-Runs}
use libre_darwin.Frontend.Contract.Handlers.{
  read_card-Runs, handle_sign-Runs, handle_sign_batch-Runs, handle_manage_pin-Runs,
  handle_activate_signing_key-Runs,
}
use libre_darwin.Frontend.Contract.Questions.{
  change_config-Runs, handle_import_csca_master_list-Runs, store_write-Runs,
  apply_config_write-Runs, IsQuestion-of,
}

module _ {V : Type 0} (Q : Ask V → Type 0) (services : Services) (caller : ℕ) where
  handle_cancel-Runs :
      (op : ℕ) (s : Frontend) → Runs Q services caller s entered (handle_cancel op caller s)
  unfolding handle_cancel
  handle_cancel-Runs op s = elim (Bool-cases (is_owner (lookup op s.op_owners) caller)) [
    | inl e ↦ rw (e, handle_cancel) (stopped op ack e)
    | inr e ↦ rw (e, handle_cancel) (answered entered ack)
  ]

  handle_get_sign_result-Runs :
      (op : ℕ) (s : Frontend)
      → Runs Q services caller s entered (handle_get_sign_result services op caller s)
  unfolding handle_get_sign_result
  handle_get_sign_result-Runs op s =
      elim (Option-cases (owned_record (lookup op s.sign_results) caller)) [
        | inl e ↦ rw (e, handle_get_sign_result) (answered _ _)
        | inr (artifact, e) ↦
            rw (e, handle_get_sign_result)
              (either-Runs Q services caller s _ _ _ _ (answered _ _) (answered _ _))
      ]

  handle_hello-Runs :
      (proto : ℕ) (b : Bool) (s : Frontend)
      → Runs Q services caller s entered (handle_hello services proto b s)
  unfolding handle_hello
  handle_hello-Runs proto b s = either-Runs Q services caller s _ _ _ _ (subscribed b _) (closed _)

module _ (c : Cbor) (services : Services)
    (encode_csca_anchor_state : CscaAnchorStateReply → c.Value) where
  handle-Runs :
      (m : Inbound c.Value) (request : Request c.Value) (s : Frontend)
      → Runs
          (IsQuestion services m request)
          services
          m.caller
          s
          entered
          (handle c services encode_csca_anchor_state m request s)
  unfolding handle_read_identity handle_get_photo handle_read_certificates handle_read_token_info
      handle_list_credentials handle_cert_der handle_pk_public_key handle_pk_login handle_pk_logout
      handle_pk_login_state handle_pk_sign_raw handle_pk_decrypt handle_pk_derive handle_get_state
      handle_layout_visual handle_get_appearance_font handle_get_config handle_set_config
      handle_reset_config apply_config_reset
  handle-Runs m (Request.hello proto b) s = handle_hello-Runs _ services _ proto b s
  handle-Runs m Request.get_state s = answered _ _
  handle-Runs m Request.get_config s = answered _ _
  handle-Runs m Request.get_appearance_font s =
      either-Runs _ services _ s _ _ _ _ (answered _ _) (answered _ _)
  handle-Runs m (Request.read_identity card) s = read_card-Runs _ services _ card _ _ s refl refl
  handle-Runs m (Request.get_photo card) s = read_card-Runs _ services _ card _ _ s refl refl
  handle-Runs m (Request.read_certificates card) s =
      read_card-Runs _ services _ card _ _ s refl refl
  handle-Runs m (Request.read_token_info card) s = read_card-Runs _ services _ card _ _ s refl refl
  handle-Runs m (Request.list_credentials card) s = read_card-Runs _ services _ card _ _ s refl refl
  handle-Runs m (Request.activate_signing_key card) s =
      handle_activate_signing_key-Runs _ services _ card s
  handle-Runs m (Request.sign card cert opts in_fd) s =
      handle_sign-Runs _ services _ card cert opts in_fd m.fds s
  handle-Runs m (Request.sign_batch card cert opts docs) s =
      handle_sign_batch-Runs _ services _ card cert opts docs m.fds s
  handle-Runs m (Request.manage_pin card pin_id verb activate_key) s =
      handle_manage_pin-Runs _ services _ card pin_id verb activate_key s
  handle-Runs m (Request.get_cert_der reader cert) s = handed _
  handle-Runs m (Request.pk_public_key reader cert) s = handed _
  handle-Runs m (Request.set_config key v) s =
      change_config-Runs _ services _ _ _ key _ _ _ s
        (IsQuestion-of services m (Request.set_config key v) (config_write key v) refl)
        (apply_config_write-Runs c _ services _ key v s)
  handle-Runs m (Request.reset_config key) s =
      change_config-Runs _ services _ _ _ key _ _ _ s
        (IsQuestion-of services m (Request.reset_config key) (config_reset key) refl)
        (store_write-Runs c _ services _ (reset_key key) s)
  handle-Runs m (Request.cancel_op op) s = handle_cancel-Runs _ services _ op s
  handle-Runs m (Request.get_sign_result op) s = handle_get_sign_result-Runs _ services _ op s
  handle-Runs m (Request.pk_login reader) s = handed _
  handle-Runs m (Request.pk_logout reader) s = left _ _
  handle-Runs m (Request.pk_login_state reader) s = answered _ _
  handle-Runs m (Request.pk_sign_raw reader cert mech input) s =
      present-Runs _ services _ _ _ _ s _ (λ mechanism _. handed _)
  handle-Runs m (Request.pk_decrypt reader cert mech input) s =
      present-Runs _ services _ _ _ _ s _ (λ mechanism _. handed _)
  handle-Runs m (Request.pk_derive reader cert input) s = handed _
  handle-Runs m (Request.layout_visual text box) s =
      either-Runs _ services _ s _ _ _ _ (answered _ _) (answered _ _)
  handle-Runs m (Request.import_csca_master_list list) s =
      handle_import_csca_master_list-Runs _ services _ _ _ list m.fds s (λ fd e.
        IsQuestion-of services m (Request.import_csca_master_list list) (master_list fd)
          (ap list_change e))

  -- What a request makes the agent do is one of the runs that the contract allows its caller: the checks
  -- in their order, nothing after a check that failed but its answer, and one answer, one call on the
  -- broker or one question to a person at the end, which is about the very change that the request wants
  -- and holds where to reply.
  pub dispatch-Contract :
      (m : Inbound c.Value) (s : Frontend)
      → let o = dispatch c services encode_csca_anchor_state m s in
        Contract (IsQuestion services m m.body) services m.caller s entered (left_in o) (effects o)
  unfolding dispatch
  dispatch-Contract m s = handle-Runs m m.body s
