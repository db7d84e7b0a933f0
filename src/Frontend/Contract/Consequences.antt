-- ===== src/Frontend/Contract/Consequences.antt =====
-- What the contract gives: answers, charges and permissions of a request
-- (agent/src/backend/SocketFrontend.cpp).
use libre_darwin.Base.{
  ℕ, suc, ◌≤◌, String, ◌≡◌, refl, sym, subst, Option, none, some, List, [], ◌∷◌, true, All, arith,
}
use libre_darwin.Wire.{Cbor}
use libre_darwin.Frontend.Request.{Inbound}
use libre_darwin.Frontend.State.{
  Frontend, Effect, Ask, charged, read_fd, launched, wrote, imported, recorded, replied,
  replied_and_closed, handed_over, asked_person, granted, CscaAnchorStateReply, bus_mutable,
}
use libre_darwin.Frontend.Gates.{Services}
use libre_darwin.Frontend.Dispatch.{dispatch}
use libre_darwin.Frontend.Contract.{
  Contract, Stage, entered, permitted, budgeted, answered, closed, handed, subscribed, left,
  stopped, launched_freely, refused, allowed, written, limited, within_budget, reads, asks,
  launched_for, effects, required_action, IsTarget, key_of,
}
use libre_darwin.Frontend.Contract.Dispatch.{dispatch-Contract}

module _ {V : Type 0} where
  -- How often a run answers: by a reply, by a call on the broker, or by a question that holds the reply.
  abbrev pub answers : List (Effect V) → ℕ
  answers [] = 0
  answers (replied _ ∷ es) = suc (answers es)
  answers (replied_and_closed _ ∷ es) = suc (answers es)
  answers (handed_over _ ∷ es) = suc (answers es)
  answers (asked_person _ ∷ es) = suc (answers es)
  answers (_ ∷ es) = answers es

  abbrev pub charges : List (Effect V) → ℕ
  charges [] = 0
  charges (charged ∷ es) = suc (charges es)
  charges (_ ∷ es) = charges es

-- What is charged from a stage on.
abbrev chargeable : Stage → ℕ
chargeable (budgeted action) = 0
chargeable _ = 1

module _ (services : Services) (caller : ℕ) where
  abbrev pub IsGranted : String → Type 0
  IsGranted action = services.authorize action caller ≡ granted

  abbrev pub IsAffordable : String → Type 0
  IsAffordable action = IsGranted action × (services.allow caller ≡ true)

  abbrev pub IsLaunchable : Option String → Type 0
  IsLaunchable none = Unit
  IsLaunchable (some action) = IsAffordable action

  abbrev pub Reached : Stage → Type 0
  Reached entered = Unit
  Reached (permitted action) = IsGranted action
  Reached (budgeted action) = IsAffordable action

module _ {V : Type 0} (services : Services) (caller : ℕ) where
  -- What must hold for a run to contain an effect.
  abbrev pub IsPermitted : Effect V → Type 0
  IsPermitted (read_fd _) = IsAffordable services caller services.actions.sign
  IsPermitted (launched target op) =
      IsTarget services caller target op
      × IsLaunchable services caller (required_action services.actions op)
  IsPermitted (asked_person ask) =
      IsAffordable services caller services.actions.configure_trust × (ask.caller ≡ caller)
  IsPermitted (wrote write) =
      IsGranted services caller services.actions.configure
      × (services.mutability (key_of write) ≡ some bus_mutable)
  IsPermitted (imported _) = ⊥
  IsPermitted (recorded _) = ⊥
  IsPermitted _ = Unit

  pub answers-Contract :
      {Q : Ask V → Type 0} {s t : Frontend} {stage : Stage} {es : List (Effect V)}
      → Contract Q services caller s stage t es
      → answers es ≡ 1
  answers-Contract (answered stage a) = refl
  answers-Contract (closed a) = refl
  answers-Contract (handed call) = refl
  answers-Contract (subscribed b a) = refl
  answers-Contract (left reader a) = refl
  answers-Contract (stopped op a h) = refl
  answers-Contract (launched_freely target op a h t e) = refl
  answers-Contract (refused action a h) = refl
  answers-Contract (allowed action h r) = answers-Contract r
  answers-Contract (written action write a h m) = refl
  answers-Contract (limited action h) = refl
  answers-Contract (within_budget action h r) = answers-Contract r
  answers-Contract (reads action fd h r) = answers-Contract r
  answers-Contract (asks action ask h q g f e) = refl
  answers-Contract (launched_for action target op a h t e) = refl

  charges-Contract :
      {Q : Ask V → Type 0} {s t : Frontend} {stage : Stage} {es : List (Effect V)}
      → Contract Q services caller s stage t es
      → charges es ≤ chargeable stage
  charges-Contract (answered stage a) = omega arith
  charges-Contract (closed a) = omega arith
  charges-Contract (handed call) = omega arith
  charges-Contract (subscribed b a) = omega arith
  charges-Contract (left reader a) = omega arith
  charges-Contract (stopped op a h) = omega arith
  charges-Contract (launched_freely target op a h t e) = omega arith
  charges-Contract (refused action a h) = omega arith
  charges-Contract (allowed action h r) = charges-Contract r
  charges-Contract (written action write a h m) = omega arith
  charges-Contract (limited action h) = omega arith
  charges-Contract (within_budget action h r) = omega (arith, charges-Contract r)
  charges-Contract (reads action fd h r) = charges-Contract r
  charges-Contract (asks action ask h q g f e) = omega arith
  charges-Contract (launched_for action target op a h t e) = omega arith

  All-Contract :
      {Q : Ask V → Type 0} {s t : Frontend} {stage : Stage} {es : List (Effect V)}
      → Contract Q services caller s stage t es
      → Reached services caller stage
      → All IsPermitted es
  All-Contract (answered stage a) r = (tt, tt)
  All-Contract (closed a) r = (tt, tt)
  All-Contract (handed call) r = (tt, tt)
  All-Contract (subscribed b a) r = (tt, (tt, tt))
  All-Contract (left reader a) r = (tt, (tt, tt))
  All-Contract (stopped op a h) r = (tt, (tt, tt))
  All-Contract (launched_freely target op a h t e) r =
      ((t, subst (IsLaunchable services caller) (sym h) tt), (tt, tt))
  All-Contract (refused action a h) r = (tt, (tt, tt))
  All-Contract (allowed action h c) r = (tt, All-Contract c h)
  All-Contract (written action write a h m) r =
      ((subst (IsGranted services caller) h r, m), (tt, tt))
  All-Contract (limited action h) r = (tt, (tt, tt))
  All-Contract (within_budget action h c) r = (tt, All-Contract c (r, h))
  All-Contract (reads action fd h c) r =
      (subst (IsAffordable services caller) h r, All-Contract c r)
  All-Contract (asks action ask h q g f e) r = ((subst (IsAffordable services caller) h r, q), tt)
  All-Contract (launched_for action target op a h t e) r =
      ((t, subst (IsLaunchable services caller) (sym h) r), (tt, tt))

module _ (c : Cbor) (services : Services)
    (encode_csca_anchor_state : CscaAnchorStateReply → c.Value) where
  -- A request is answered exactly once, by a reply, by a call on the broker, which replies when it has
  -- the result, or by a question to a person, whose answer replies; and it costs its caller at most one
  -- charge of the rate limit, a batch of documents included.
  pub dispatch-answers :
      (m : Inbound c.Value) (s : Frontend)
      → let es = effects (dispatch c services encode_csca_anchor_state m s) in
        (answers es ≡ 1) × (charges es ≤ 1)
  dispatch-answers m s =
      let run = dispatch-Contract c services encode_csca_anchor_state m s in
      (answers-Contract services m.caller run, charges-Contract services m.caller run)

  -- A request reads no descriptor, launches no signature and no change of credentials, and asks no
  -- person, unless its caller was granted the action and was within the rate limit; it writes to the
  -- configuration by itself only for a caller granted that action and only a setting that is not a
  -- trust one, and never imports; and what it
  -- launches addresses a published card with the capability that the operation needs.
  pub dispatch-IsPermitted :
      (m : Inbound c.Value) (s : Frontend)
      → All
          (IsPermitted services m.caller)
          (effects (dispatch c services encode_csca_anchor_state m s))
  dispatch-IsPermitted m s =
      All-Contract services m.caller (dispatch-Contract c services encode_csca_anchor_state m s) tt
