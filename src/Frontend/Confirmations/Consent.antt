-- ===== src/Frontend/Confirmations/Consent.antt =====
-- The writes and imports of the configuration, and the consent to them
-- (agent/src/backend/SocketFrontend.cpp).
use libre_darwin.Base.{◌≡◌, refl, sym, subst, some, List, [], ◌∷◌, true, All, if-either, if-split}
use libre_darwin.Wire.{Cbor, PrompterWire}
use libre_darwin.Protocol.Messages.{ConfirmReply}
use libre_darwin.Frontend.State.{
  Frontend, Effect, Ask, CscaAnchorStateReply, asked_authorizer, charged, read_fd, launched,
  cancelled, wrote, imported, recorded, set_wants_events, logged_out, replied, replied_and_closed,
  handed_over, asked_person, bus_mutable,
}
use libre_darwin.Frontend.Request.{Inbound}
use libre_darwin.Frontend.Gates.{Services}
use libre_darwin.Frontend.Records.{erase_caller}
use libre_darwin.Frontend.Trust.{continue_confirmed, if_decided-split}
use libre_darwin.Frontend.Contract.{effects, key_of}
use libre_darwin.Frontend.Contract.Consequences.{IsGranted, IsPermitted, dispatch-IsPermitted}
use libre_darwin.Frontend.Confirmations.{
  Host, Sent, for_request, effects_of, Event, dispatched, answered, continued, disconnected,
  stashed, evicted, finished, destroyed, on_request, on_posted, step, after_events,
}
use libre_darwin.Frontend.Confirmations.Asks.{effects_of-for_request}
use libre_darwin.Frontend.Confirmations.Changes.{IsChange, apply_pending-IsChange}
use libre_darwin.Frontend.Confirmations.History.{
  All-mono, History, IsAsked, IsPosted, IsSound-after,
}

module _ (c : Cbor) (w : PrompterWire)
    (encode_csca_anchor_state : CscaAnchorStateReply → c.Value) where
  -- The step at which a person's approval is applied, and what it applies.
  pub record IsConsented (services : Services) (history : History c w encode_csca_anchor_state)
      (e : Effect c.Value) : Type 0 where
    pub ask : Ask c.Value
    pub verdict : ConfirmReply w.Status
    pub rest : List (Ask c.Value × ConfirmReply w.Status)
    pub is_posted :
        (after_events c w encode_csca_anchor_state history).posted ≡ (ask, verdict) ∷ rest
    pub is_alive : (after_events c w encode_csca_anchor_state history).alive ≡ true
    pub is_approved : verdict.status ≡ w.ok
    pub was_asked : IsAsked c w encode_csca_anchor_state history ask
    pub is_change : IsChange c services ask.pending e

  -- What must hold for an event to have an effect.
  abbrev pub IsDue :
      Services
      → Event c.Value w.Status
      → History c w encode_csca_anchor_state
      → Effect c.Value
      → Type 0
  IsDue services (dispatched m) history (wrote write) =
      IsGranted services m.caller services.actions.configure
      × (services.mutability (key_of write) ≡ some bus_mutable)
  IsDue services continued history (wrote write) = IsConsented services history (wrote write)
  IsDue services e history (wrote _) = ⊥
  IsDue services continued history (imported bytes) = IsConsented services history (imported bytes)
  IsDue services e history (imported _) = ⊥
  IsDue services continued history (recorded state) = IsConsented services history (recorded state)
  IsDue services e history (recorded _) = ⊥
  IsDue services e history _ = Unit

  abbrev pub effects_in : Host c.Value w.Status × List (Sent c.Value) → List (Effect c.Value)
  effects_in (h, es) = effects_of es

  -- Consent is enough for any effect of the continuation.
  IsDue-by_consent :
      (services : Services) (history : History c w encode_csca_anchor_state) (e : Effect c.Value)
      → IsConsented services history e
      → IsDue services continued history e
  IsDue-by_consent services history (asked_authorizer action) k = tt
  IsDue-by_consent services history charged k = tt
  IsDue-by_consent services history (read_fd fd) k = tt
  IsDue-by_consent services history (launched target op) k = tt
  IsDue-by_consent services history (cancelled op) k = tt
  IsDue-by_consent services history (wrote write) k = k
  IsDue-by_consent services history (imported bytes) k = k
  IsDue-by_consent services history (recorded state) k = k
  IsDue-by_consent services history (set_wants_events b) k = tt
  IsDue-by_consent services history (logged_out reader) k = tt
  IsDue-by_consent services history (replied a) k = tt
  IsDue-by_consent services history (replied_and_closed a) k = tt
  IsDue-by_consent services history (handed_over call) k = tt
  IsDue-by_consent services history (asked_person ask) k = tt

  IsDue-by_permission :
      (services : Services) (m : Inbound c.Value) (history : History c w encode_csca_anchor_state)
      (e : Effect c.Value)
      → IsPermitted services m.caller e
      → IsDue services (dispatched m) history e
  IsDue-by_permission services m history (asked_authorizer action) k = tt
  IsDue-by_permission services m history charged k = tt
  IsDue-by_permission services m history (read_fd fd) k = tt
  IsDue-by_permission services m history (launched target op) k = tt
  IsDue-by_permission services m history (cancelled op) k = tt
  IsDue-by_permission services m history (wrote write) k = k
  IsDue-by_permission services m history (imported bytes) k = k
  IsDue-by_permission services m history (recorded state) k = k
  IsDue-by_permission services m history (set_wants_events b) k = tt
  IsDue-by_permission services m history (logged_out reader) k = tt
  IsDue-by_permission services m history (replied a) k = tt
  IsDue-by_permission services m history (replied_and_closed a) k = tt
  IsDue-by_permission services m history (handed_over call) k = tt
  IsDue-by_permission services m history (asked_person ask) k = tt

  continue_confirmed-IsDue :
      (services : Services) (history : History c w encode_csca_anchor_state) (ask : Ask c.Value)
      (verdict : ConfirmReply w.Status) (s : Frontend)
      → ((e : Effect c.Value)
          → verdict.status ≡ w.ok
          → IsChange c services ask.pending e
          → IsConsented services history e)
      → All
          (IsDue services continued history)
          (effects (continue_confirmed c services w verdict ask s))
  unfolding continue_confirmed
  continue_confirmed-IsDue services history ask verdict s k =
      let t = record s { confirms_in_flight = erase_caller ask.caller s.confirms_in_flight } in
      if_decided-split (λ o. All (IsDue services continued history) (effects o))
        (w.status_eq verdict.status w.ok) _ _
        (λ approved.
          All-mono (IsChange c services ask.pending) _ _
            (λ e change. IsDue-by_consent services history e (k e approved change))
            (apply_pending-IsChange c services ask.pending t))
        (tt, tt)

  posted-IsDue :
      (history : History c w encode_csca_anchor_state) (services : Services)
      (posted : List (Ask c.Value × ConfirmReply w.Status))
      → let h = after_events c w encode_csca_anchor_state history in
        h.posted ≡ posted
        → All
            (IsDue services continued history)
            (effects_in (on_posted c w encode_csca_anchor_state services posted h))
  posted-IsDue history services [] e = tt
  posted-IsDue history services ((ask, verdict) ∷ rest) e =
      let sound = IsSound-after c w encode_csca_anchor_state history in
      let (was_asked, _) =
        subst (All (IsPosted c w encode_csca_anchor_state history)) e sound.posted_asked in
      if-split (λ o. All (IsDue services continued history) (effects_in o)) _ _ _
        (λ alive. sent_due _ (
          continue_confirmed-IsDue services history ask verdict _ (λ _ approved change. record {
            ask = ask;
            verdict = verdict;
            rest = rest;
            is_posted = e;
            is_alive = alive;
            is_approved = approved;
            was_asked = was_asked;
            is_change = change;
          })))
        (λ _. tt)
    where
      sent_due :
          (es : List (Effect c.Value))
          → All (IsDue services continued history) es
          → All (IsDue services continued history) (effects_of (for_request ask.conn_id ask.req es))
      sent_due es due =
          subst (All (IsDue services continued history))
            (sym (effects_of-for_request ask.conn_id ask.req _)) due

  -- At any point of any history, what the next event does is due. A setting is written, an import is
  -- made or recorded, as the continuation, on the loop of a frontend that is alive, of a posted answer
  -- whose status is the approval; and then it is the change that the answered question is about. That
  -- question was put by a request, is about the change that this request wanted and says so to the
  -- person, and the request's caller was granted the trust action and was within the rate limit. All else
  -- that writes is a request, and only a setting that is not a trust one, for a caller granted the
  -- configuration action.
  pub step-IsDue :
      (history : History c w encode_csca_anchor_state) (services : Services)
      (e : Event c.Value w.Status)
      → let h = after_events c w encode_csca_anchor_state history in
        All (IsDue services e history) (effects_in (step c w encode_csca_anchor_state services e h))
  unfolding on_request
  step-IsDue history services (dispatched m) =
      let h = after_events c w encode_csca_anchor_state history in
      let due =
        All-mono (IsPermitted services m.caller) _ _ (IsDue-by_permission services m history)
          (dispatch-IsPermitted c services encode_csca_anchor_state m h.frontend) in
      if-either (λ o. All (IsDue services (dispatched m) history) (effects_in o)) h.alive
        (on_request c w encode_csca_anchor_state services m h) (h, [])
        (subst (All (IsDue services (dispatched m) history))
          (sym (effects_of-for_request m.conn_id m.req _)) due)
        tt
  step-IsDue history services (answered n verdict) = tt
  step-IsDue history services continued = posted-IsDue history services _ refl
  step-IsDue history services (disconnected caller) = tt
  step-IsDue history services (stashed op owner artifact) = tt
  step-IsDue history services (evicted op) = tt
  step-IsDue history services (finished op) = tt
  step-IsDue history services destroyed = tt
