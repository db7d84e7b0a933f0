-- ===== src/Frontend/Confirmations/History.antt =====
-- The questions that are open, or answered and posted, and the requests that put them
-- (`confirmThenApply` in agent/src/backend/SocketFrontend.cpp).
use libre_darwin.Base.{
  ℕ, zero, suc, ◌≡◌, refl, sym, subst, Option-cases, Option, none, some, List, [], ◌∷◌, ◌++◌, ◌⊎◌,
  inl, inr, All, All-append, if◌then◌else◌, if-either, if-split, true,
}
use libre_darwin.Wire.{Cbor, PrompterWire}
use libre_darwin.Protocol.Messages.{ConfirmReply}
use libre_darwin.Frontend.State.{Ask, CscaAnchorStateReply}
use libre_darwin.Frontend.Request.{Inbound}
use libre_darwin.Frontend.Gates.{Services}
use libre_darwin.Frontend.Dispatch.{dispatch}
use libre_darwin.Frontend.Contract.{effects, left_in, IsQuestion}
use libre_darwin.Frontend.Contract.Dispatch.{dispatch-Contract}
use libre_darwin.Frontend.Contract.Consequences.{IsAffordable}
use libre_darwin.Frontend.Confirmations.{
  Host, Sent, Event, dispatched, answered, continued, disconnected, stashed, evicted, finished,
  destroyed, asks_in, put_back, take_at, on_request, on_answer, on_posted, step, after_events,
}
use libre_darwin.Frontend.Confirmations.Asks.{Asked, Asked-Contract}

pub All-mono :
    {A : Type 0} (P Q : A → Type 0) (xs : List A) → ((x : A) → P x → Q x) → All P xs → All Q xs
All-mono P Q [] f h = h
All-mono P Q (x ∷ xs) f (p, h) = (f x p, All-mono P Q xs f h)

abbrev Taken : {A : Type 0} → (A → Type 0) → Option (A × List A) → Type 0
Taken P none = Unit
Taken P (some (x, xs)) = P x × All P xs

Taken-put_back :
    {A : Type 0} (P : A → Type 0) (x : A) (o : Option (A × List A))
    → P x
    → Taken P o
    → Taken P (put_back x o)
Taken-put_back P x none p h = tt
Taken-put_back P x (some (y, ys)) p (q, h) = (q, (p, h))

Taken-take_at :
    {A : Type 0} (P : A → Type 0) (n : ℕ) (xs : List A) → All P xs → Taken P (take_at n xs)
unfolding take_at
Taken-take_at P n [] h = tt
Taken-take_at P zero (x ∷ xs) h = h
Taken-take_at P (suc n) (x ∷ xs) (p, h) = Taken-put_back P x _ p (Taken-take_at P n xs h)

module _ (c : Cbor) (w : PrompterWire)
    (encode_csca_anchor_state : CscaAnchorStateReply → c.Value) where
  abbrev pub History : Type 0
  History = List (Services × Event c.Value w.Status)

  -- A request put a question: it was the one question among what the request did, to a frontend that was
  -- alive; it is about the change that the request wants; and the caller was granted the trust action and
  -- was within the rate limit.
  pub record IsPut (services : Services) (m : Inbound c.Value) (history : History)
      (ask : Ask c.Value) : Type 0 where
    pub was_alive : (after_events c w encode_csca_anchor_state history).alive ≡ true
    pub put :
        asks_in (
          effects (
            dispatch c services encode_csca_anchor_state m
              (after_events c w encode_csca_anchor_state history).frontend))
        ≡ ask ∷ []
    pub question : IsQuestion services m m.body ask
    pub affordable : IsAffordable services m.caller services.actions.configure_trust

  -- A question that some request of the history put.
  abbrev pub IsAsked : History → Ask c.Value → Type 0
  IsAsked [] ask = ⊥
  IsAsked ((services, dispatched m) ∷ history) ask =
      IsPut services m history ask ⊎ IsAsked history ask
  IsAsked ((services, _) ∷ history) ask = IsAsked history ask

  pub IsAsked-before :
      (services : Services) (e : Event c.Value w.Status) (history : History) (ask : Ask c.Value)
      → IsAsked history ask
      → IsAsked ((services, e) ∷ history) ask
  IsAsked-before services (dispatched m) history ask h = inr h
  IsAsked-before services (answered n verdict) history ask h = h
  IsAsked-before services continued history ask h = h
  IsAsked-before services (disconnected caller) history ask h = h
  IsAsked-before services (stashed op owner artifact) history ask h = h
  IsAsked-before services (evicted op) history ask h = h
  IsAsked-before services (finished op) history ask h = h
  IsAsked-before services destroyed history ask h = h

  abbrev pub posted_ask : Ask c.Value × ConfirmReply w.Status → Ask c.Value
  posted_ask (ask, verdict) = ask

  -- Every question that is open, or answered and posted, was put by a request.
  pub record IsSound (history : History) (h : Host c.Value w.Status) : Type 0 where
    pub open_asked : All (IsAsked history) h.asking
    pub posted_asked :
        All (λ (p : Ask c.Value × ConfirmReply w.Status). IsAsked history (posted_ask p)) h.posted

  abbrev pub IsPosted : History → Ask c.Value × ConfirmReply w.Status → Type 0
  IsPosted history p = IsAsked history (posted_ask p)

  abbrev host_in : Host c.Value w.Status × List (Sent c.Value) → Host c.Value w.Status
  host_in (h, es) = h

  -- The request's question is asked.
  IsSound-request :
      (services : Services) (m : Inbound c.Value) (history : History)
      → let h = after_events c w encode_csca_anchor_state history in
        h.alive ≡ true
        → IsSound ((services, dispatched m) ∷ history) h
        → IsSound
            ((services, dispatched m) ∷ history)
            (host_in (on_request c w encode_csca_anchor_state services m h))
  unfolding on_request
  IsSound-request services m history alive sound =
      let h = after_events c w encode_csca_anchor_state history in
      let o = dispatch c services encode_csca_anchor_state m h.frontend in
      record {
        open_asked = All-append _ h.asking _ sound.open_asked (
            new (
              Asked-Contract services m.caller h.frontend
                (dispatch-Contract c services encode_csca_anchor_state m h.frontend) tt));
        posted_asked = sound.posted_asked;
      }
    where
      new :
          let h = after_events c w encode_csca_anchor_state history in
          let o = dispatch c services encode_csca_anchor_state m h.frontend in
          Asked services m.caller h.frontend (IsQuestion services m m.body) (left_in o) (effects o)
          → All (IsAsked ((services, dispatched m) ∷ history)) (asks_in (effects o))
      new (inl (e, _)) = subst (All (IsAsked ((services, dispatched m) ∷ history))) (sym e) tt
      new (inr (ask, e, _, _, _, affordable, question)) =
          subst (All (IsAsked ((services, dispatched m) ∷ history))) (sym e) (
            inl (record {
              was_alive = alive;
              put = e;
              question = question;
              affordable = affordable;
            }),
            tt,
          )

  IsSound-answer :
      (n : ℕ) (verdict : ConfirmReply w.Status) (history : History) (h : Host c.Value w.Status)
      → IsSound history h
      → IsSound history (on_answer c w encode_csca_anchor_state n verdict h)
  unfolding on_answer
  IsSound-answer n verdict history h sound = elim (Option-cases (take_at n h.asking)) [
    | inl e ↦ rw (e, on_answer) sound
    | inr (p, e) ↦ rw (e, on_answer) (moved p e)
  ]
    where
      moved :
          (p : Ask c.Value × List (Ask c.Value))
          → take_at n h.asking ≡ some p
          → let (ask, rest) = p in
            IsSound history (
              if h.alive
              then record h { asking = rest; posted = h.posted ++ (ask, verdict) ∷ [] }
              else record h { asking = rest })
      moved (ask, rest) e =
          let taken = Taken-take_at (IsAsked history) n h.asking sound.open_asked in
          let (was_asked, kept) = subst (Taken (IsAsked history)) e taken in
          if-either (IsSound history) h.alive _ _
            (record {
              open_asked = kept;
              posted_asked =
                  All-append (IsPosted history) h.posted _ sound.posted_asked (was_asked, tt);
            })
            (record { open_asked = kept; posted_asked = sound.posted_asked })

  IsSound-posted :
      (services : Services) (posted : List (Ask c.Value × ConfirmReply w.Status))
      (history : History) (h : Host c.Value w.Status)
      → h.posted ≡ posted
      → IsSound history h
      → IsSound history (host_in (on_posted c w encode_csca_anchor_state services posted h))
  IsSound-posted services [] history h e sound = sound
  IsSound-posted services ((ask, verdict) ∷ rest) history h e sound =
      let (_, kept) = subst (All (IsPosted history)) e sound.posted_asked in
      if-either (λ o. IsSound history (host_in o)) h.alive _ _
        (record { open_asked = sound.open_asked; posted_asked = kept })
        (record { open_asked = sound.open_asked; posted_asked = kept })

  pub IsSound-after :
      (history : History) → IsSound history (after_events c w encode_csca_anchor_state history)
  IsSound-after [] = record { open_asked = tt; posted_asked = tt }
  IsSound-after ((services, e) ∷ history) = kept_by services e (aged (IsSound-after history))
    where
      h : Host c.Value w.Status
      h = after_events c w encode_csca_anchor_state history

      aged : IsSound history h → IsSound ((services, e) ∷ history) h
      aged sound = record {
        open_asked = All-mono _ _ h.asking (IsAsked-before services e history) sound.open_asked;
        posted_asked =
            All-mono _ _ h.posted (λ p. IsAsked-before services e history (posted_ask p))
              sound.posted_asked;
      }

      kept_by :
          (services : Services) (e : Event c.Value w.Status)
          → IsSound ((services, e) ∷ history) h
          → IsSound
              ((services, e) ∷ history)
              (host_in (step c w encode_csca_anchor_state services e h))
      kept_by services (dispatched m) sound =
          if-split (λ o. IsSound ((services, dispatched m) ∷ history) (host_in o)) h.alive _ _
            (λ alive. IsSound-request services m history alive sound) (λ _. sound)
      kept_by services (answered n verdict) sound = IsSound-answer n verdict _ h sound
      kept_by services continued sound = IsSound-posted services h.posted _ h refl sound
      kept_by services (disconnected caller) sound = record {
        open_asked = sound.open_asked;
        posted_asked = sound.posted_asked;
      }
      kept_by services (stashed op owner artifact) sound = record {
        open_asked = sound.open_asked;
        posted_asked = sound.posted_asked;
      }
      kept_by services (evicted op) sound = record {
        open_asked = sound.open_asked;
        posted_asked = sound.posted_asked;
      }
      kept_by services (finished op) sound = record {
        open_asked = sound.open_asked;
        posted_asked = sound.posted_asked;
      }
      kept_by services destroyed sound = record {
        open_asked = sound.open_asked;
        posted_asked = sound.posted_asked;
      }
