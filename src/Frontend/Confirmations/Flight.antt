-- ===== src/Frontend/Confirmations/Flight.antt =====
-- The callers in flight (`m_confirmsInFlight` in agent/src/backend/SocketFrontend.cpp) and their open
-- questions.
use libre_darwin.Base.{
  ℕ, ◌+◌, ◌≡◌, refl, sym, subst, ap, Option-cases, some, List, [], ◌∷◌, ◌++◌, true, false, inl, inr,
  if◌then◌else◌, ◌==◌, arith, All, if-either, if-split, ◌∙◌,
}
use libre_darwin.Wire.{Cbor, PrompterWire}
use libre_darwin.Protocol.Messages.{ConfirmReply}
use libre_darwin.Frontend.State.{Frontend, Effect, Ask, CscaAnchorStateReply}
use libre_darwin.Frontend.Request.{Inbound}
use libre_darwin.Frontend.Gates.{Services}
use libre_darwin.Frontend.Records.{
  on_client_disconnected, stash_sign_artifact, evict_sign_result, op_finished,
}
use libre_darwin.Frontend.Trust.{is_in_flight, continue_confirmed}
use libre_darwin.Frontend.Dispatch.{dispatch}
use libre_darwin.Frontend.Contract.{effects, left_in, IsQuestion}
use libre_darwin.Frontend.Contract.Dispatch.{dispatch-Contract}
use libre_darwin.Frontend.Confirmations.{
  Host, Sent, for_request, effects_of, Event, dispatched, answered, continued, disconnected,
  stashed, evicted, finished, destroyed, asks_in, take_at, on_request, on_answer, on_posted, step,
  after_events,
}
use libre_darwin.Frontend.Confirmations.Continue.{replies, continue_confirmed-Settles}
use libre_darwin.Frontend.Confirmations.Counts.{
  asked_by, posted_by, asked_by-append, posted_by-append, TakenCount, TakenCount-take_at,
}
use libre_darwin.Frontend.Confirmations.Asks.{
  Asked, Asked-Contract, is_in_flight-erase_caller, effects_of-for_request,
}

-- `1` for a caller in flight.
abbrev pub flight : ℕ → Frontend → ℕ
flight caller s = if is_in_flight caller s.confirms_in_flight then 1 else 0

abbrev pub event_of : {V S : Type 0} → Services × Event V S → Event V S
event_of (services, e) = e

module _ (c : Cbor) (w : PrompterWire)
    (encode_csca_anchor_state : CscaAnchorStateReply → c.Value) where
  abbrev pub outstanding : ℕ → Host c.Value w.Status → ℕ
  outstanding caller h = asked_by caller h.asking + posted_by caller h.posted

  -- An event that neither loses the caller nor ends the frontend.
  abbrev pub Keeps : ℕ → Event c.Value w.Status → Type 0
  Keeps caller (disconnected other) = (other == caller) ≡ false
  Keeps caller destroyed = ⊥
  Keeps caller _ = Unit

  outstanding-on_request :
      (caller : ℕ) (services : Services) (m : Inbound c.Value) (h : Host c.Value w.Status)
      → outstanding caller h ≡ flight caller h.frontend
      → let (t, es) = on_request c w encode_csca_anchor_state services m h in
        outstanding caller t ≡ flight caller t.frontend
  unfolding on_request asked_by is_in_flight
  outstanding-on_request caller services m h e =
      let o = dispatch c services encode_csca_anchor_state m h.frontend in
      counted (left_in o) (effects o) (
        Asked-Contract services m.caller h.frontend
          (dispatch-Contract c services encode_csca_anchor_state m h.frontend) tt)
    where
      counted :
          (t : Frontend) (es : List (Effect c.Value))
          → Asked services m.caller h.frontend (IsQuestion services m m.body) t es
          → asked_by caller (h.asking ++ asks_in es) + posted_by caller h.posted ≡ flight caller t
      counted t es (inl (a, f)) = rw (a, f) (ground (arith, asked_by-append caller h.asking []))
      counted t es (inr (ask, a, q, f, g, _, _)) =
          rw (a, g) (ground (arith, asked_by-append caller h.asking (ask ∷ [])))

  outstanding-on_answer :
      (caller n : ℕ) (verdict : ConfirmReply w.Status) (h : Host c.Value w.Status)
      → h.alive ≡ true
      → outstanding caller (on_answer c w encode_csca_anchor_state n verdict h)
        ≡ outstanding caller h
  unfolding on_answer
  outstanding-on_answer caller n verdict h alive = elim (Option-cases (take_at n h.asking)) [
    | inl e ↦ rw (e, on_answer) refl
    | inr (p, e) ↦ rw (e, on_answer) (moved p e)
  ]
    where
      moved :
          (p : Ask c.Value × List (Ask c.Value))
          → take_at n h.asking ≡ some p
          → let (ask, rest) = p in
            outstanding caller (
              if h.alive
              then record h { asking = rest; posted = h.posted ++ (ask, verdict) ∷ [] }
              else record h { asking = rest })
            ≡ outstanding caller h
      moved (ask, rest) e =
          let counted = TakenCount-take_at caller n h.asking in
          let q : TakenCount caller (some (ask, rest)) (asked_by caller h.asking) =
            subst (λ o. TakenCount caller o (asked_by caller h.asking)) e counted in
          rw alive (ground (arith, posted_by-append caller h.posted ask verdict))

  outstanding-on_posted :
      (caller : ℕ) (services : Services) (posted : List (Ask c.Value × ConfirmReply w.Status))
      (h : Host c.Value w.Status)
      → h.posted ≡ posted
      → h.alive ≡ true
      → outstanding caller h ≡ flight caller h.frontend
      → let (t, es) = on_posted c w encode_csca_anchor_state services posted h in
        outstanding caller t ≡ flight caller t.frontend
  unfolding posted_by
  outstanding-on_posted caller services [] h p a e = e
  outstanding-on_posted caller services ((ask, verdict) ∷ rest) h p a e =
      let (settled, _, _) = continue_confirmed-Settles c services w verdict ask h.frontend in
      let now = ap (λ (t : Frontend). t.confirms_in_flight) settled in
      let counted : asked_by caller h.asking + posted_by caller ((ask, verdict) ∷ rest)
          ≡ flight caller h.frontend =
        rw p at e in
      rw (a, now)
        (ground (arith, is_in_flight-erase_caller caller ask.caller h.frontend.confirms_in_flight))

  abbrev host_in : Host c.Value w.Status × List (Sent c.Value) → Host c.Value w.Status
  host_in (h, es) = h

  -- A caller's questions are open exactly while it is in flight, and the frontend is alive.
  abbrev Balanced : ℕ → Host c.Value w.Status → Type 0
  Balanced caller h = (h.alive ≡ true) × (outstanding caller h ≡ flight caller h.frontend)

  pub on_answer-keeps :
      (n : ℕ) (verdict : ConfirmReply w.Status) (h : Host c.Value w.Status)
      → let t = on_answer c w encode_csca_anchor_state n verdict h in
        (t.alive ≡ h.alive) × (t.frontend ≡ h.frontend)
  unfolding on_answer
  on_answer-keeps n verdict h = elim (Option-cases (take_at n h.asking)) [
    | inl e ↦ rw (e, on_answer) (refl, refl)
    | inr ((ask, rest), e) ↦
        rw (e, on_answer)
          (if-either
            (λ (t : Host c.Value w.Status). (t.alive ≡ h.alive) × (t.frontend ≡ h.frontend)) h.alive
            (record h { asking = rest; posted = h.posted ++ (ask, verdict) ∷ [] })
            (record h { asking = rest }) (refl, refl) (refl, refl))
  ]

  on_posted-keeps :
      (services : Services) (posted : List (Ask c.Value × ConfirmReply w.Status))
      (h : Host c.Value w.Status)
      → (host_in (on_posted c w encode_csca_anchor_state services posted h)).alive ≡ h.alive
  on_posted-keeps services [] h = refl
  on_posted-keeps services ((ask, verdict) ∷ rest) h =
      if-either (λ o. (host_in o).alive ≡ h.alive) h.alive _ _ refl refl

  Balanced-step :
      (caller : ℕ) (services : Services) (e : Event c.Value w.Status) (h : Host c.Value w.Status)
      → Keeps caller e
      → Balanced caller h
      → Balanced caller (host_in (step c w encode_csca_anchor_state services e h))
  unfolding on_client_disconnected stash_sign_artifact evict_sign_result op_finished on_request
  Balanced-step caller services (dispatched m) h k (a, e) =
      if-either (λ o. Balanced caller (host_in o)) h.alive
        (on_request c w encode_csca_anchor_state services m h) (h, [])
        (a, outstanding-on_request caller services m h e) (a, e)
  Balanced-step caller services (answered n verdict) h k (a, e) =
      let (alive, same) = on_answer-keeps n verdict h in
      let kept = outstanding-on_answer caller n verdict h a in
      (alive ∙ a, kept ∙ e ∙ ap (flight caller) (sym same))
  Balanced-step caller services continued h k (a, e) = (
    on_posted-keeps services h.posted h ∙ a,
    outstanding-on_posted caller services h.posted h refl a e,
  )
  Balanced-step caller services (disconnected other) h k (a, e) =
      (a, rw (is_in_flight-erase_caller caller other h.frontend.confirms_in_flight, k) e)
  Balanced-step caller services (stashed op owner artifact) h k (a, e) = (a, e)
  Balanced-step caller services (evicted op) h k (a, e) = (a, e)
  Balanced-step caller services (finished op) h k (a, e) = (a, e)
  Balanced-step caller services destroyed h k (a, e) = elim k [ ]

  after_events-Balanced :
      (caller : ℕ) (history : List (Services × Event c.Value w.Status))
      → All (λ (p : Services × Event c.Value w.Status). Keeps caller (event_of p)) history
      → Balanced caller (after_events c w encode_csca_anchor_state history)
  unfolding is_in_flight asked_by posted_by
  after_events-Balanced caller [] h = (refl, refl)
  after_events-Balanced caller ((services, e) ∷ history) (k, h) =
      Balanced-step caller services e _ k (after_events-Balanced caller history h)

  -- After any history in which a caller stays connected and the frontend stays alive, the caller has
  -- one question open, before a person or answered and posted, while it is in flight, and none while it
  -- is not: nobody asks twice at once, and nobody is in flight without an open question.
  pub after_events-outstanding :
      (caller : ℕ) (history : List (Services × Event c.Value w.Status))
      → All (λ (p : Services × Event c.Value w.Status). Keeps caller (event_of p)) history
      → let h = after_events c w encode_csca_anchor_state history in
        outstanding caller h ≡ flight caller h.frontend
  after_events-outstanding caller history k =
      let (_, e) = after_events-Balanced caller history k in e

  abbrev pub IsFor : Ask c.Value → Sent c.Value → Type 0
  IsFor ask x = (x.conn_id ≡ ask.conn_id) × (x.req ≡ ask.req)

  IsFor-for_request :
      (ask : Ask c.Value) (es : List (Effect c.Value))
      → All (IsFor ask) (for_request ask.conn_id ask.req es)
  IsFor-for_request ask [] = tt
  IsFor-for_request ask (e ∷ es) = ((refl, refl), IsFor-for_request ask es)

  -- What the continuation of a question does to a host: one reply, nothing asked again, all of it for the
  -- request that put the question, and the caller no longer in flight.
  pub record IsReplied (ask : Ask c.Value) (rest : List (Ask c.Value × ConfirmReply w.Status))
      (out : Host c.Value w.Status × List (Sent c.Value)) : Type 0 where
    pub once : replies (effects_of out.1) ≡ 1
    pub unasked : asks_in (effects_of out.1) ≡ []
    pub to_request : All (IsFor ask) out.1
    pub may_ask : is_in_flight ask.caller out.0.frontend.confirms_in_flight ≡ false
    pub taken : out.0.posted ≡ rest

  -- An answer that was posted to a frontend that is alive gets one reply sent, to the connection and under
  -- the number of the request that put the question; nobody is asked again, and the caller may ask again.
  pub on_posted-answers :
      (services : Services) (h : Host c.Value w.Status) (ask : Ask c.Value)
      (verdict : ConfirmReply w.Status) (rest : List (Ask c.Value × ConfirmReply w.Status))
      → h.posted ≡ (ask, verdict) ∷ rest
      → h.alive ≡ true
      → IsReplied ask rest (step c w encode_csca_anchor_state services continued h)
  on_posted-answers services h ask verdict rest e a =
      let o = continue_confirmed c services w verdict ask h.frontend in
      let (settled, once, unasked) =
        continue_confirmed-Settles c services w verdict ask h.frontend in
      let forgotten =
        is_in_flight-erase_caller ask.caller ask.caller h.frontend.confirms_in_flight in
      let now =
        ap (λ (t : Frontend). is_in_flight ask.caller t.confirms_in_flight) settled ∙ forgotten in
      let same = effects_of-for_request ask.conn_id ask.req (effects o) in
      subst
        (λ posted. IsReplied ask rest (on_posted c w encode_csca_anchor_state services posted h))
        (sym e)
        (if-split (IsReplied ask rest) h.alive _ _
          (λ _. record {
            once = ap replies same ∙ once;
            unasked = ap asks_in same ∙ unasked;
            to_request = IsFor-for_request ask (effects o);
            may_ask = ground arith;
            taken = refl;
          })
          (λ dead. (cc)))
