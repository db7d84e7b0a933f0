-- ===== src/Frontend/Confirmations/Changes.antt =====
-- What the change that a person approved does (`applyConfigWrite`, `applyConfigReset` and the import in
-- agent/src/backend/SocketFrontend.cpp).
use libre_darwin.Base.{ℕ, ◌≡◌, refl, String, true, false, All, Expected, value, unexpected}
use libre_darwin.Wire.{Cbor}
use libre_darwin.Frontend.Errors.{SyncError, invalid_config_value}
use libre_darwin.Frontend.SignOptions.{Document}
use libre_darwin.Frontend.State.{
  Frontend, Effect, Pending, config_write, config_reset, master_list, wrote, imported, recorded,
  reset_key, ConfigWrite, ReadResult, read, not_regular, too_large, read_error, ImportRefusal,
  AnchorState, anchor_state, ack, replied, Answer, error,
}
use libre_darwin.Frontend.Gates.{Services, Outcome, ensure, successful, after, reply}
use libre_darwin.Frontend.Config.{
  write_of, store_write, apply_config_write, apply_config_reset, to_anchor_state_reply,
}
use libre_darwin.Frontend.Trust.{
  apply_pending, import_anchors_from, checked_list, accepted, recorded_state_for,
}
use libre_darwin.Frontend.Contract.{effects}

module _ (c : Cbor) (services : Services) where
  -- What a change does: a write of its own value under its own key, or the import of its own list.
  abbrev pub IsChange : Pending c.Value → Effect c.Value → Type 0
  IsChange (config_write key v) (wrote write) = write_of c key v ≡ value write
  IsChange (config_reset key) (wrote write) = write ≡ reset_key key
  IsChange (master_list fd) (wrote write) = ⊥
  IsChange (master_list fd) (imported bytes) =
      services.read_bounded_regular_fd 0 fd services.max_master_list_bytes ≡ read bytes
  IsChange (master_list fd) (recorded state) =
      (bytes : Document) × (anchors : AnchorState) × (services.read_bounded_regular_fd 0 fd
          services.max_master_list_bytes
        ≡ read bytes)
      × (services.import_master_list bytes ≡ value anchors)
      × (state ≡ recorded_state_for services.to_hex anchors)
  IsChange pending (imported bytes) = ⊥
  IsChange pending (recorded state) = ⊥
  IsChange pending _ = Unit

  abbrev pub Changed : Pending c.Value → Outcome c.Value → Type 0
  Changed pending o = All (IsChange pending) (effects o)

  -- A reply is no change.
  IsChange-replied : (pending : Pending c.Value) (a : Answer c.Value) → IsChange pending (replied a)
  IsChange-replied (config_write key v) a = tt
  IsChange-replied (config_reset key) a = tt
  IsChange-replied (master_list fd) a = tt

  store_write-IsChange :
      (pending : Pending c.Value) (write : ConfigWrite) (s : Frontend)
      → IsChange pending (wrote write)
      → Changed pending (store_write c services write s)
  unfolding store_write ensure
  store_write-IsChange pending write s h =
      elim (services.write_ok write)
        as (λ ok.
          Changed pending
            (after (wrote write) (ensure ok invalid_config_value s (λ _. reply ack s)))) [
              | true ↦ (h, (IsChange-replied pending ack, tt))
              | false ↦ (h, (IsChange-replied pending (error invalid_config_value), tt))
            ]

  written-IsChange :
      (key : String) (v : c.Value) (s : Frontend) (r : Expected SyncError ConfigWrite)
      → write_of c key v ≡ r
      → Changed (config_write key v) (successful r s (λ write. store_write c services write s))
  unfolding successful
  written-IsChange key v s (value write) e = store_write-IsChange (config_write key v) write s e
  written-IsChange key v s (unexpected code) e = (tt, tt)

  recorded-IsChange :
      (fd : ℕ) (s : Frontend) (bytes : Document) (r : Expected ImportRefusal AnchorState)
      → services.read_bounded_regular_fd 0 fd services.max_master_list_bytes ≡ read bytes
      → services.import_master_list bytes ≡ r
      → Changed (master_list fd) (
          accepted services r s (λ state.
            let record_kept = recorded_state_for services.to_hex state in
            after
              (recorded record_kept)
              (reply (anchor_state (to_anchor_state_reply record_kept)) s)))
  recorded-IsChange fd s bytes (value anchors) h e = ((bytes, anchors, h, e, refl), (tt, tt))
  recorded-IsChange fd s bytes (unexpected refusal) h e = (tt, tt)

  imported-IsChange :
      (fd : ℕ) (s : Frontend) (r : ReadResult)
      → services.read_bounded_regular_fd 0 fd services.max_master_list_bytes ≡ r
      → Changed (master_list fd) (
          checked_list services r s (λ bytes. after (imported bytes) (
            accepted services (services.import_master_list bytes) s (λ state.
              let record_kept = recorded_state_for services.to_hex state in
              after
                (recorded record_kept)
                (reply (anchor_state (to_anchor_state_reply record_kept)) s)))))
  imported-IsChange fd s (read bytes) h = (h, recorded-IsChange fd s bytes _ h refl)
  imported-IsChange fd s not_regular h = (tt, tt)
  imported-IsChange fd s too_large h = (tt, tt)
  imported-IsChange fd s read_error h = (tt, tt)

  -- What is applied is the change itself.
  pub apply_pending-IsChange :
      (pending : Pending c.Value) (s : Frontend)
      → Changed pending (apply_pending c services pending s)
  unfolding apply_config_write apply_config_reset import_anchors_from
  apply_pending-IsChange (config_write key v) s = written-IsChange key v s _ refl
  apply_pending-IsChange (config_reset key) s =
      store_write-IsChange (config_reset key) (reset_key key) s refl
  apply_pending-IsChange (master_list fd) s = (tt, imported-IsChange fd s _ refl)
