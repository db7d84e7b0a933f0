-- ===== src/Frontend/Departure.antt =====
-- What a client that is gone leaves behind (`onClientDisconnected` in
-- agent/src/backend/SocketFrontend.cpp).
use libre_darwin.Base.{
  ℕ, ◌≡◌, refl, sym, ap, subst, Option, none, some, List, [], ◌∷◌, ◌++◌, false, ◌==◌, arith,
  Expected, value, unexpected, All, if-either,
}
use libre_darwin.Wire.{Cbor, PrompterWire}
use libre_darwin.Protocol.Messages.{ConfirmReply}
use libre_darwin.Transport.Maps.{lookup}
use libre_darwin.Frontend.Errors.{SyncError, no_result}
use libre_darwin.Frontend.State.{
  Frontend, SignRecord, Ask, Answer, Effect, ack, CscaAnchorStateReply,
}
use libre_darwin.Frontend.Gates.{Services, Outcome, reply, reply_error, reply_launched}
use libre_darwin.Frontend.Records.{
  is_owner, owned_record, handle_cancel, handle_get_sign_result, on_client_disconnected,
  stash_sign_artifact, evict_sign_result, op_finished,
}
use libre_darwin.Frontend.Contract.{Contract, Stage, left_in}
use libre_darwin.Frontend.Contract.Dispatch.{dispatch-Contract}
use libre_darwin.Frontend.Confirmations.{
  Host, Sent, Event, dispatched, answered, continued, disconnected, stashed, evicted, finished,
  destroyed, on_request, on_posted, step, after_events,
}
use libre_darwin.Frontend.Confirmations.Continue.{continue_confirmed-Settles}
use libre_darwin.Frontend.Confirmations.Flight.{on_answer-keeps, event_of}
use libre_darwin.Frontend.Values.{
  AllValues, AllValues-assign, AllValues-erase, AllValues-erase_if, AllValues-left,
  AllValues-lookup,
}

-- No record, or someone else's.
is_owner-lem :
    (o : Option ℕ) (caller : ℕ)
    → ((v : ℕ) → o ≡ some v → (v == caller) ≡ false)
    → is_owner o caller ≡ false
is_owner-lem none caller h = refl
is_owner-lem (some v) caller h = h v refl

owned_record-lem :
    (o : Option SignRecord) (caller : ℕ)
    → ((r : SignRecord) → o ≡ some r → (r.owner == caller) ≡ false)
    → owned_record o caller ≡ none
owned_record-lem none caller h = refl
owned_record-lem (some r) caller h = let e = h r refl in ground (arith)

-- A token owns no operation and no signed document.
record IsGone (caller : ℕ) (s : Frontend) : Type 0 where
  no_op : AllValues (λ (owner : ℕ). (owner == caller) ≡ false) s.op_owners
  no_document : AllValues (λ (r : SignRecord). (r.owner == caller) ≡ false) s.sign_results

launched-IsGone :
    {V : Type 0} (gone caller : ℕ) (r : Expected SyncError ℕ) (s : Frontend) {t : Frontend}
    {a : Answer V}
    → (caller == gone) ≡ false
    → reply_launched caller r s ≡ reply a t
    → IsGone gone s
    → IsGone gone t
launched-IsGone {V} gone caller (unexpected code) s n e h =
    subst (IsGone gone) (ap (λ (x : Outcome V). left_in x) e) h
launched-IsGone {V} gone caller (value id) s n e h =
    subst (IsGone gone) (ap (λ (x : Outcome V). left_in x) e) (record {
      no_op = AllValues-assign _ id caller s.op_owners n h.no_op;
      no_document = h.no_document;
    })

module _ {V : Type 0} (services : Services) (caller : ℕ) (s : Frontend) where
  IsGone-Contract :
      (gone : ℕ) {Q : Ask V → Type 0} {stage : Stage} {t : Frontend} {es : List (Effect V)}
      → (caller == gone) ≡ false
      → Contract Q services caller s stage t es
      → IsGone gone s
      → IsGone gone t
  IsGone-Contract gone n (Contract.answered stage a) h = h
  IsGone-Contract gone n (Contract.closed a) h = h
  IsGone-Contract gone n (Contract.handed call) h = h
  IsGone-Contract gone n (Contract.subscribed b a) h = h
  IsGone-Contract gone n (Contract.left reader a) h = h
  IsGone-Contract gone n (Contract.stopped op a k) h = h
  IsGone-Contract gone n (Contract.launched_freely target op a k t e) h =
      launched-IsGone gone caller _ s n e h
  IsGone-Contract gone n (Contract.refused action a k) h = h
  IsGone-Contract gone n (Contract.allowed action k r) h = IsGone-Contract gone n r h
  IsGone-Contract gone n (Contract.written action write a k p) h = h
  IsGone-Contract gone n (Contract.limited action k) h = h
  IsGone-Contract gone n (Contract.within_budget action k r) h = IsGone-Contract gone n r h
  IsGone-Contract gone n (Contract.reads action fd k r) h = IsGone-Contract gone n r h
  IsGone-Contract gone n (Contract.asks action ask k q g f e) h =
      subst (IsGone gone) (sym e) (record { no_op = h.no_op; no_document = h.no_document })
  IsGone-Contract gone n (Contract.launched_for action target op a k t e) h =
      launched-IsGone gone caller _ s n e h

IsGone-on_client_disconnected :
    (gone : ℕ) (s : Frontend) → IsGone gone (on_client_disconnected gone s)
unfolding on_client_disconnected
IsGone-on_client_disconnected gone s = record {
  no_op = AllValues-left (λ (owner : ℕ). owner == gone) s.op_owners;
  no_document = AllValues-left (λ (r : SignRecord). r.owner == gone) s.sign_results;
}

module _ (c : Cbor) (w : PrompterWire)
    (encode_csca_anchor_state : CscaAnchorStateReply → c.Value) where
  -- An event that brings a token nothing: no request of its own, and no document stashed for it.
  abbrev pub IsWithout : ℕ → Event c.Value w.Status → Type 0
  IsWithout gone (dispatched m) = (m.caller == gone) ≡ false
  IsWithout gone (stashed op owner artifact) = (owner == gone) ≡ false
  IsWithout gone _ = Unit

  abbrev host_in : Host c.Value w.Status × List (Sent c.Value) → Host c.Value w.Status
  host_in (h, es) = h

  IsGone-on_posted :
      (gone : ℕ) (services : Services) (posted : List (Ask c.Value × ConfirmReply w.Status))
      (h : Host c.Value w.Status)
      → IsGone gone h.frontend
      → IsGone gone (host_in (on_posted c w encode_csca_anchor_state services posted h)).frontend
  IsGone-on_posted gone services [] h g = g
  IsGone-on_posted gone services ((ask, verdict) ∷ rest) h g =
      let (settled, _, _) = continue_confirmed-Settles c services w verdict ask h.frontend in
      if-either (λ o. IsGone gone (host_in o).frontend) h.alive _ _
        (subst (IsGone gone) (sym settled)
          (record { no_op = g.no_op; no_document = g.no_document }))
        g

  IsGone-step :
      (gone : ℕ) (services : Services) (e : Event c.Value w.Status) (h : Host c.Value w.Status)
      → IsWithout gone e
      → IsGone gone h.frontend
      → IsGone gone (host_in (step c w encode_csca_anchor_state services e h)).frontend
  unfolding on_request on_client_disconnected stash_sign_artifact evict_sign_result op_finished
  IsGone-step gone services (dispatched m) h n g =
      if-either (λ o. IsGone gone (host_in o).frontend) h.alive
        (on_request c w encode_csca_anchor_state services m h) (h, [])
        (IsGone-Contract services m.caller h.frontend gone n
          (dispatch-Contract c services encode_csca_anchor_state m h.frontend) g)
        g
  IsGone-step gone services (answered n verdict) h _ g =
      let (_, same) = on_answer-keeps c w encode_csca_anchor_state n verdict h in
      subst (IsGone gone) (sym same) g
  IsGone-step gone services continued h _ g = IsGone-on_posted gone services h.posted h g
  IsGone-step gone services (disconnected other) h _ g = record {
    no_op = AllValues-erase_if _ _ h.frontend.op_owners g.no_op;
    no_document = AllValues-erase_if _ _ h.frontend.sign_results g.no_document;
  }
  IsGone-step gone services (stashed op owner artifact) h n g = record {
    no_op = g.no_op;
    no_document =
        AllValues-assign _ op (record { artifact = artifact; owner = owner })
          h.frontend.sign_results n g.no_document;
  }
  IsGone-step gone services (evicted op) h _ g = record {
    no_op = g.no_op;
    no_document = AllValues-erase _ op h.frontend.sign_results g.no_document;
  }
  IsGone-step gone services (finished op) h _ g = record {
    no_op = AllValues-erase _ op h.frontend.op_owners g.no_op;
    no_document = g.no_document;
  }
  IsGone-step gone services destroyed h _ g = g

  IsGone-after_events :
      (gone : ℕ) (services : Services) (later before : List (Services × Event c.Value w.Status))
      → All (λ (p : Services × Event c.Value w.Status). IsWithout gone (event_of p)) later
      → IsGone gone
          (after_events c w encode_csca_anchor_state
            (later ++ (services, disconnected gone) ∷ before)).frontend
  IsGone-after_events gone services [] before h = IsGone-on_client_disconnected gone _
  IsGone-after_events gone services ((now, e) ∷ later) before (n, h) =
      IsGone-step gone now e _ n (IsGone-after_events gone services later before h)

  -- Once a client is gone, and for as long as no request comes under its token and no worker stashes a
  -- document for it, whatever else happens: a caller with that token finds no signed document and stops
  -- no operation, but is answered as for an operation that never was.
  pub after_events-forgets :
      (gone op : ℕ) (services asked : Services)
      (later before : List (Services × Event c.Value w.Status))
      → All (λ (p : Services × Event c.Value w.Status). IsWithout gone (event_of p)) later
      → let h =
          after_events c w encode_csca_anchor_state
            (later ++ (services, disconnected gone) ∷ before) in
        (handle_get_sign_result asked op gone h.frontend
          ≡ reply_error {V = c.Value} no_result h.frontend)
        × (handle_cancel op gone h.frontend ≡ reply {V = c.Value} ack h.frontend)
  unfolding handle_get_sign_result handle_cancel
  after_events-forgets gone op services asked later before h =
      let g = IsGone-after_events gone services later before h in
      let t =
        (after_events c w encode_csca_anchor_state
          (later ++ (services, disconnected gone) ∷ before)).frontend in
      let record_gone =
        owned_record-lem (lookup op t.sign_results) gone
          (AllValues-lookup _ op t.sign_results g.no_document) in
      let owner_gone =
        is_owner-lem (lookup op t.op_owners) gone (AllValues-lookup _ op t.op_owners g.no_op) in
      (rw (record_gone, handle_get_sign_result) refl, rw (owner_gone, handle_cancel) refl)
