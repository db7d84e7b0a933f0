-- ===== src/Frontend/Contract/Questions.antt =====
-- The requests that change the configuration, and the questions that they put
-- (agent/src/backend/SocketFrontend.cpp), as runs of the contract.
use libre_darwin.Base.{
  ap, ◌∙◌, ℕ, String, ◌≡◌, refl, some, List, true, false, Bool-cases, Option-cases, inl, inr,
}
use libre_darwin.Wire.{Cbor}
use libre_darwin.Frontend.Request.{Request, Inbound}
use libre_darwin.Frontend.State.{
  Frontend, TrustChange, import_anchors, Ask, Pending, master_list, ConfigWrite, Mutability,
  bus_mutable, bus_mutable_trust, file_only, read_only, error, ack, wrote,
}
use libre_darwin.Frontend.Errors.{invalid_config_value}
use libre_darwin.Frontend.Gates.{Services, Outcome, ensure, reply, after, requester_label}
use libre_darwin.Frontend.Config.{store_write, apply_config_write}
use libre_darwin.Frontend.Trust.{
  confirm_then_apply, change_config, handle_import_csca_master_list, describe_trust_change,
  is_in_flight,
}
use libre_darwin.Frontend.Signing.{descriptor}
use libre_darwin.Frontend.Contract.Keys.{write_of-key}
use libre_darwin.Frontend.Contract.{
  IsQuestion, requested_change, setting_of, kind_of, key_of, entered, permitted, budgeted, answered,
  written, asks,
}
use libre_darwin.Frontend.Contract.Gates.{Runs, present-Runs, successful-Runs, authorized-Runs}
use libre_darwin.Frontend.Contract.Handlers.{gated}

module _ {V : Type 0} (Q : Ask V → Type 0) (services : Services) (caller : ℕ) where
  -- The question of `confirm_then_apply`.
  abbrev pub question :
      (conn_id req : ℕ) (key : String) (pending : Pending V) → String × String → Ask V
  question conn_id req key pending (copy_key, text) = record {
    conn_id = conn_id;
    req = req;
    caller = caller;
    action = record {
      kind = "configure_trust";
      title = "Confirm trust change";
      description = text;
      description_key = copy_key;
      requester = requester_label services caller;
      artifact = key;
    };
    pending = pending;
  }

  -- Every question that there is for a change is as it should be.
  abbrev pub Asks :
      (conn_id req : ℕ) (key : String) (what : TrustChange) (pending : Pending V) → Type 0
  Asks conn_id req key what pending =
      (copy : String × String)
      → describe_trust_change key what ≡ some copy
      → Q (question conn_id req key pending copy)

  confirm_then_apply-Runs :
      (conn_id req : ℕ) (key : String) (what : TrustChange) (pending : Pending V) (s : Frontend)
      → Asks conn_id req key what pending
      → Runs Q services caller s
          (budgeted services.actions.configure_trust)
          (confirm_then_apply services conn_id req key caller what pending s)
  unfolding confirm_then_apply
  confirm_then_apply-Runs conn_id req key what pending s q =
      elim (Option-cases (describe_trust_change key what)) [
        | inl e ↦ rw (e, confirm_then_apply) (answered _ _)
        | inr (copy, e) ↦ elim (Bool-cases (is_in_flight caller s.confirms_in_flight)) [
          | inl f ↦ rw (e, confirm_then_apply, f) (answered _ _)
          | inr f ↦ rw (e, confirm_then_apply, f) (asks _ _ refl refl (q copy e) f refl)
        ]
      ]

  pub change_config-Runs :
      (conn_id req : ℕ) (key : String) (what : TrustChange) (pending : Pending V)
      (apply : Frontend → Outcome V) (s : Frontend)
      → Asks conn_id req key what pending
      → (services.mutability key ≡ some bus_mutable
          → Runs Q services caller s (permitted services.actions.configure) (apply s))
      → Runs Q services caller s entered
          (change_config services conn_id req key caller what pending apply s)
  unfolding change_config
  change_config-Runs conn_id req key what pending apply s q h =
      elim (Option-cases (services.mutability key)) [
        | inl e ↦ rw (e, change_config) (answered _ _)
        | inr (mutability, e) ↦ by_mutability mutability e
      ]
    where
      by_mutability :
          (mutability : Mutability)
          → services.mutability key ≡ some mutability
          → Runs Q services caller s entered
              (change_config services conn_id req key caller what pending apply s)
      by_mutability bus_mutable e =
          rw (e, change_config) (authorized-Runs Q services caller _ s _ (h e))
      by_mutability bus_mutable_trust e =
          rw (e, change_config)
            (gated Q services caller _ s
              (confirm_then_apply services conn_id req key caller what pending s)
              (confirm_then_apply-Runs conn_id req key what pending s q))
      by_mutability file_only e = rw (e, change_config) (answered _ _)
      by_mutability read_only e = rw (e, change_config) (answered _ _)

  pub handle_import_csca_master_list-Runs :
      (conn_id req list : ℕ) (fds : List ℕ) (s : Frontend)
      → ((fd : ℕ)
          → descriptor fds list ≡ some fd
          → Asks conn_id req "CscaAnchorState" import_anchors (master_list fd))
      → Runs Q services caller s entered
          (handle_import_csca_master_list services conn_id req list fds caller s)
  unfolding handle_import_csca_master_list
  handle_import_csca_master_list-Runs conn_id req list fds s q = gated Q services caller _ s _ (
      present-Runs Q services caller _ _ _ s _
        (λ fd e. confirm_then_apply-Runs _ _ _ _ _ s (q fd e)))

-- The question about the change that a request wants.
pub IsQuestion-of :
    {V : Type 0} (services : Services) (m : Inbound V) (request : Request V) (pending : Pending V)
    → requested_change request m.fds ≡ some pending
    → Asks
        (IsQuestion services m request)
        services
        m.caller
        m.conn_id
        m.req
        (setting_of pending)
        (kind_of pending)
        pending
IsQuestion-of services m request pending r (copy_key, text) e = record {
  same_conn = refl;
  same_req = refl;
  same_caller = refl;
  same_change = r;
  named = refl;
  told = e;
  requested_by = refl;
}

module _ (c : Cbor) (Q : Ask c.Value → Type 0) (services : Services) (caller : ℕ) where
  pub store_write-Runs :
      (write : ConfigWrite) (s : Frontend)
      → services.mutability (key_of write) ≡ some bus_mutable
      → Runs Q services caller s
          (permitted services.actions.configure)
          (store_write c services write s)
  unfolding store_write ensure
  store_write-Runs write s m =
      elim (services.write_ok write)
        as (λ ok.
          Runs Q services caller s (permitted services.actions.configure)
            (after (wrote write) (ensure ok invalid_config_value s (λ _. reply ack s)))) [
              | true ↦ written _ write ack refl m
              | false ↦ written _ write (error invalid_config_value) refl m
            ]

  pub apply_config_write-Runs :
      (key : String) (v : c.Value) (s : Frontend)
      → services.mutability key ≡ some bus_mutable
      → Runs Q services caller s
          (permitted services.actions.configure)
          (apply_config_write c services key v s)
  unfolding apply_config_write
  apply_config_write-Runs key v s m =
      successful-Runs Q services caller _ _ s _
        (λ write e. store_write-Runs write s (ap services.mutability (write_of-key c key v e) ∙ m))
