-- ===== src/Frontend/Ownership.antt =====
-- Whose a running operation and a signed document are (agent/src/backend/SocketFrontend.cpp).
use libre_darwin.Base.{
  ℕ, ◌≡◌, sym, ap, subst, some, List, ◌⊎◌, inl, inr, Expected, value, unexpected,
}
use libre_darwin.Wire.{Cbor}
use libre_darwin.Transport.Maps.{NumberMap, lookup, lookup-assign_cases}
use libre_darwin.Frontend.Errors.{SyncError}
use libre_darwin.Frontend.Request.{Inbound}
use libre_darwin.Frontend.State.{Frontend, Ask, Answer, Effect, CscaAnchorStateReply}
use libre_darwin.Frontend.Gates.{Services, Outcome, reply, reply_launched}
use libre_darwin.Frontend.Dispatch.{dispatch}
use libre_darwin.Frontend.Contract.{Contract, Stage, left_in}
use libre_darwin.Frontend.Contract.Dispatch.{dispatch-Contract}

-- The owners after a launch.
launched-owners :
    {V : Type 0} (caller j : ℕ) (r : Expected SyncError ℕ) (s : Frontend) {t : Frontend}
    {a : Answer V} {o : ℕ}
    → reply_launched caller r s ≡ reply a t
    → lookup j t.op_owners ≡ some o
    → (o ≡ caller) ⊎ (lookup j s.op_owners ≡ some o)
launched-owners {V} caller j (unexpected code) s {t} {a} {o} e h =
    let q = ap (λ (x : Outcome V). (left_in x).op_owners) e in
    inr (subst (λ (m : NumberMap ℕ). lookup j m ≡ some o) (sym q) h)
launched-owners {V} caller j (value id) s {t} {a} {o} e h =
    let q = ap (λ (x : Outcome V). (left_in x).op_owners) e in
    elim (lookup-assign_cases j id caller s.op_owners
      (subst (λ (m : NumberMap ℕ). lookup j m ≡ some o) (sym q) h)) [
        | inl (_, f) ↦ inl (sym f)
        | inr (_, f) ↦ inr f
      ]

module _ {V : Type 0} (services : Services) (caller : ℕ) (s : Frontend) where
  owners-Contract :
      (j o : ℕ) {Q : Ask V → Type 0} {stage : Stage} {t : Frontend} {es : List (Effect V)}
      → Contract Q services caller s stage t es
      → lookup j t.op_owners ≡ some o
      → (o ≡ caller) ⊎ (lookup j s.op_owners ≡ some o)
  owners-Contract j o (Contract.answered stage a) h = inr h
  owners-Contract j o (Contract.closed a) h = inr h
  owners-Contract j o (Contract.handed call) h = inr h
  owners-Contract j o (Contract.subscribed b a) h = inr h
  owners-Contract j o (Contract.left reader a) h = inr h
  owners-Contract j o (Contract.stopped op a k) h = inr h
  owners-Contract j o (Contract.launched_freely target op a k t e) h =
      launched-owners caller j _ s e h
  owners-Contract j o (Contract.refused action a k) h = inr h
  owners-Contract j o (Contract.allowed action k r) h = owners-Contract j o r h
  owners-Contract j o (Contract.written action write a k p) h = inr h
  owners-Contract j o (Contract.limited action k) h = inr h
  owners-Contract j o (Contract.within_budget action k r) h = owners-Contract j o r h
  owners-Contract j o (Contract.reads action fd k r) h = owners-Contract j o r h
  owners-Contract j o (Contract.asks action ask k q g f e) h =
      inr (subst (λ (x : Frontend). lookup j x.op_owners ≡ some o) e h)
  owners-Contract j o (Contract.launched_for action target op a k t e) h =
      launched-owners caller j _ s e h

module _ (c : Cbor) (services : Services)
    (encode_csca_anchor_state : CscaAnchorStateReply → c.Value) where
  -- A request makes an operation no one's but its caller's: who owned one afterwards and is not the
  -- caller owned it before.
  pub dispatch-owners :
      (m : Inbound c.Value) (s : Frontend) (j o : ℕ)
      → lookup j (left_in (dispatch c services encode_csca_anchor_state m s)).op_owners ≡ some o
      → (o ≡ m.caller) ⊎ (lookup j s.op_owners ≡ some o)
  dispatch-owners m s j o h =
      owners-Contract services m.caller s j o
        (dispatch-Contract c services encode_csca_anchor_state m s) h
