-- ===== src/Frontend/Confirmations/Asks.antt =====
-- What one request asks, and what the confirmations do to the callers in flight.
use libre_darwin.Base.{
  ℕ, ◌≡◌, refl, sym, ap, subst, Expected, value, unexpected, List, [], ◌∷◌, false, ◌==◌,
  if◌then◌else◌, ◌⊎◌, inl, inr, arith,
}
use libre_darwin.Frontend.State.{Frontend, Effect, Ask, Answer}
use libre_darwin.Frontend.Gates.{Services, Outcome, reply, reply_launched}
use libre_darwin.Frontend.Errors.{SyncError}
use libre_darwin.Frontend.Records.{erase_caller}
use libre_darwin.Frontend.Trust.{is_in_flight}
use libre_darwin.Frontend.Contract.{Contract, Stage, left_in}
use libre_darwin.Frontend.Contract.Consequences.{IsAffordable, Reached}
use libre_darwin.Frontend.Confirmations.{asks_in, effects_of, for_request}

pub effects_of-for_request :
    {V : Type 0} (conn_id req : ℕ) (es : List (Effect V))
    → effects_of (for_request conn_id req es) ≡ es
effects_of-for_request conn_id req [] = refl
effects_of-for_request conn_id req (e ∷ es) =
    ap (λ xs. e ∷ xs) (effects_of-for_request conn_id req es)

pub is_in_flight-erase_caller :
    (c d : ℕ) (cs : List ℕ)
    → is_in_flight c (erase_caller d cs) ≡ (if d == c then false else is_in_flight c cs)
unfolding is_in_flight erase_caller
is_in_flight-erase_caller c d [] = ground arith
is_in_flight-erase_caller c d (e ∷ cs) = ground (arith, is_in_flight-erase_caller c d cs)

launched-flight :
    {V : Type 0} (caller : ℕ) (r : Expected SyncError ℕ) (s : Frontend) {t : Frontend}
    {a : Answer V}
    → reply_launched caller r s ≡ reply a t
    → t.confirms_in_flight ≡ s.confirms_in_flight
launched-flight {V} caller (value id) s e =
    sym (ap (λ (o : Outcome V). (left_in o).confirms_in_flight) e)
launched-flight {V} caller (unexpected code) s e =
    sym (ap (λ (o : Outcome V). (left_in o).confirms_in_flight) e)

module _ {V : Type 0} (services : Services) (caller : ℕ) (s : Frontend) where
  -- A run asked nothing and left the callers in flight, or asked one question for its caller, who was
  -- granted the trust action within the rate limit and had no question open, and the question is as
  -- the contract wants it.
  abbrev pub Asked : (Ask V → Type 0) → Frontend → List (Effect V) → Type 0
  Asked Q t es =
      ((asks_in es ≡ []) × (t.confirms_in_flight ≡ s.confirms_in_flight))
      ⊎ ((ask : Ask V) × (asks_in es ≡ ask ∷ [])
          × (ask.caller ≡ caller)
          × (is_in_flight caller s.confirms_in_flight ≡ false)
          × (t.confirms_in_flight ≡ caller ∷ s.confirms_in_flight)
          × IsAffordable services caller services.actions.configure_trust
          × Q ask)

  pub Asked-Contract :
      {Q : Ask V → Type 0} {stage : Stage} {t : Frontend} {es : List (Effect V)}
      → Contract Q services caller s stage t es
      → Reached services caller stage
      → Asked Q t es
  Asked-Contract (Contract.answered stage a) r = inl (refl, refl)
  Asked-Contract (Contract.closed a) r = inl (refl, refl)
  Asked-Contract (Contract.handed call) r = inl (refl, refl)
  Asked-Contract (Contract.subscribed b a) r = inl (refl, refl)
  Asked-Contract (Contract.left reader a) r = inl (refl, refl)
  Asked-Contract (Contract.stopped op a h) r = inl (refl, refl)
  Asked-Contract (Contract.launched_freely target op a h t e) r =
      inl (refl, launched-flight caller _ s e)
  Asked-Contract (Contract.refused action a h) r = inl (refl, refl)
  Asked-Contract (Contract.allowed action h k) r = Asked-Contract k h
  Asked-Contract (Contract.written action write a h p) r = inl (refl, refl)
  Asked-Contract (Contract.limited action h) r = inl (refl, refl)
  Asked-Contract (Contract.within_budget action h k) r = Asked-Contract k (r, h)
  Asked-Contract (Contract.reads action fd h k) r = Asked-Contract k r
  Asked-Contract (Contract.asks action ask h q g f e) r = inr (
    ask,
    refl,
    q,
    f,
    ap (λ (x : Frontend). x.confirms_in_flight) e,
    subst (IsAffordable services caller) h r,
    g,
  )
  Asked-Contract (Contract.launched_for action target op a h t e) r =
      inl (refl, launched-flight caller _ s e)
