-- ===== src/Frontend/Confirmations/Continue.antt =====
-- What the continuation of a confirmation leaves of the state, and its answers
-- (agent/src/backend/SocketFrontend.cpp).
use libre_darwin.Base.{
  ℕ, suc, List, [], ◌∷◌, ◌≡◌, refl, Bool, true, false, Expected, value, unexpected,
}
use libre_darwin.Wire.{Cbor, PrompterWire}
use libre_darwin.Protocol.Messages.{ConfirmReply}
use libre_darwin.Frontend.Errors.{SyncError}
use libre_darwin.Frontend.State.{
  Frontend, Ask, Effect, replied, replied_and_closed, Pending, config_write, config_reset,
  master_list, ConfigWrite, ReadResult, read, not_regular, too_large, read_error, ImportRefusal,
  AnchorState,
}
use libre_darwin.Frontend.Gates.{Services, Outcome, Done, ensure, successful}
use libre_darwin.Frontend.Records.{erase_caller}
use libre_darwin.Frontend.Config.{store_write, apply_config_write, apply_config_reset}
use libre_darwin.Frontend.Trust.{
  continue_confirmed, apply_pending, import_anchors_from, checked_list, accepted, if_decided-split,
}
use libre_darwin.Frontend.SignOptions.{Document}
use libre_darwin.Frontend.Contract.{effects, left_in}
use libre_darwin.Frontend.Confirmations.{asks_in}

module _ {V : Type 0} where
  -- How often a run replies to its client: handing the request on and asking a person are no replies.
  abbrev pub replies : List (Effect V) → ℕ
  replies [] = 0
  replies (replied _ ∷ es) = suc (replies es)
  replies (replied_and_closed _ ∷ es) = suc (replies es)
  replies (_ ∷ es) = replies es

  -- Left in a state, with one reply, and nothing asked.
  abbrev pub Settles : Frontend → Outcome V → Type 0
  Settles s o = (left_in o ≡ s) × (replies (effects o) ≡ 1) × (asks_in (effects o) ≡ [])

  ensure-Settles :
      (t : Bool) (code : SyncError) (s : Frontend) (k : Done → Outcome V)
      → Settles s (k tt)
      → Settles s (ensure t code s k)
  unfolding ensure
  ensure-Settles true code s k h = h
  ensure-Settles false code s k h = (refl, refl, refl)

  successful-Settles :
      {A : Type 0} (r : Expected SyncError A) (s : Frontend) (k : A → Outcome V)
      → ((a : A) → Settles s (k a))
      → Settles s (successful r s k)
  unfolding successful
  successful-Settles (value a) s k h = h a
  successful-Settles (unexpected code) s k h = (refl, refl, refl)

  checked_list-Settles :
      (services : Services) (r : ReadResult) (s : Frontend) (k : Document → Outcome V)
      → ((bytes : Document) → Settles s (k bytes))
      → Settles s (checked_list services r s k)
  checked_list-Settles services (read bytes) s k h = h bytes
  checked_list-Settles services not_regular s k h = (refl, refl, refl)
  checked_list-Settles services too_large s k h = (refl, refl, refl)
  checked_list-Settles services read_error s k h = (refl, refl, refl)

  accepted-Settles :
      (services : Services) (r : Expected ImportRefusal AnchorState) (s : Frontend)
      (k : AnchorState → Outcome V)
      → ((state : AnchorState) → Settles s (k state))
      → Settles s (accepted services r s k)
  accepted-Settles services (value state) s k h = h state
  accepted-Settles services (unexpected refusal) s k h = (refl, refl, refl)

module _ (c : Cbor) (services : Services) where
  import_anchors_from-Settles :
      (fd : ℕ) (s : Frontend) → Settles {V = c.Value} s (import_anchors_from services fd s)
  unfolding import_anchors_from
  import_anchors_from-Settles fd s = checked_list-Settles services _ s _ (λ bytes.
      accepted-Settles services (services.import_master_list bytes) s _
        (λ state. (refl, refl, refl)))

  store_write-Settles :
      (write : ConfigWrite) (s : Frontend) → Settles s (store_write c services write s)
  unfolding store_write
  store_write-Settles write s = ensure-Settles (services.write_ok write) _ s _ (refl, refl, refl)

  apply_pending-Settles :
      (pending : Pending c.Value) (s : Frontend) → Settles s (apply_pending c services pending s)
  unfolding apply_config_write apply_config_reset
  apply_pending-Settles (config_write key v) s =
      successful-Settles _ s _ (λ write. store_write-Settles write s)
  apply_pending-Settles (config_reset key) s = store_write-Settles _ s
  apply_pending-Settles (master_list fd) s = import_anchors_from-Settles fd s

  -- An answered question, approved or not, is replied to once, and its caller is no longer in flight.
  pub continue_confirmed-Settles :
      (w : PrompterWire) (verdict : ConfirmReply w.Status) (ask : Ask c.Value) (s : Frontend)
      → Settles
          (record s { confirms_in_flight = erase_caller ask.caller s.confirms_in_flight })
          (continue_confirmed c services w verdict ask s)
  unfolding continue_confirmed
  continue_confirmed-Settles w verdict ask s =
      let t = record s { confirms_in_flight = erase_caller ask.caller s.confirms_in_flight } in
      if_decided-split (λ o. Settles {V = c.Value} t o) (w.status_eq verdict.status w.ok) _ _
        (λ _. apply_pending-Settles ask.pending t) (refl, refl, refl)
