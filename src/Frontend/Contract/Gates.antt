-- ===== src/Frontend/Contract/Gates.antt =====
-- The checks that handlers share (agent/src/backend/SocketFrontend.cpp) as runs of the contract.
use libre_darwin.Base.{
  ℕ, String, ◌≡◌, refl, Option, none, some, Bool, true, false, Expected, value, unexpected,
  if◌then◌else◌, if-either, not, Option-cases, inl, inr, arith,
}
use libre_darwin.Transport.Presence.Updates.{card_routing}
use libre_darwin.Transport.Presence.{CardRouting}
use libre_darwin.Frontend.Errors.{SyncError, not_authorized, communication_error, rate_limited}
use libre_darwin.Frontend.State.{
  Frontend, Authorization, granted, denied, undecided, Operation, OperationTarget, Answer, error,
  op_started, Ask, asked_authorizer, charged, launched,
}
use libre_darwin.Frontend.Gates.{
  Services, Outcome, Done, ensure, present, successful, with_card, authorized, rate_allowed, launch,
  after, reply, decided, reply_launched,
}
use libre_darwin.Frontend.Contract.{
  IsServed, IsTarget, Contract, Stage, entered, permitted, budgeted, effects, left_in,
  required_action, answered, refused, allowed, limited, within_budget, launched_freely,
  launched_for,
}

module _ {V : Type 0} (Q : Ask V → Type 0) (services : Services) (caller : ℕ) where
  -- A run of a handler from a stage on, in a state.
  abbrev pub Runs : Frontend → Stage → Outcome V → Type 0
  Runs s stage o = Contract Q services caller s stage (left_in o) (effects o)

  pub either-Runs :
      (s : Frontend) (stage : Stage) (b : Bool) (x y : Outcome V)
      → Runs s stage x
      → Runs s stage y
      → Runs s stage (if b then x else y)
  either-Runs s stage b x y = if-either (λ o. Runs s stage o) b x y

  pub ensure-Runs :
      (stage : Stage) (t : Bool) (code : SyncError) (s : Frontend) (k : Done → Outcome V)
      → (t ≡ true → Runs s stage (k tt))
      → Runs s stage (ensure t code s k)
  unfolding ensure
  ensure-Runs stage true code s k h = h refl
  ensure-Runs stage false code s k h = answered stage (error code)

  pub present-Runs :
      {A : Type 0} (stage : Stage) (o : Option A) (code : SyncError) (s : Frontend)
      (k : A → Outcome V)
      → ((a : A) → o ≡ some a → Runs s stage (k a))
      → Runs s stage (present o code s k)
  unfolding present
  present-Runs stage none code s k h = answered stage (error code)
  present-Runs stage (some a) code s k h = h a refl

  pub successful-Runs :
      {A : Type 0} (stage : Stage) (r : Expected SyncError A) (s : Frontend) (k : A → Outcome V)
      → ((a : A) → r ≡ value a → Runs s stage (k a))
      → Runs s stage (successful r s k)
  unfolding successful
  successful-Runs stage (value a) s k h = h a refl
  successful-Runs stage (unexpected code) s k h = answered stage (error code)

  pub with_card-Runs :
      (stage : Stage) (card : Option ℕ) (cap : ℕ) (s : Frontend) (k : CardRouting → Outcome V)
      → ((routing : CardRouting) → IsServed services cap routing → Runs s stage (k routing))
      → Runs s stage (with_card services card cap s k)
  unfolding with_card present
  with_card-Runs stage none cap s k h = answered stage _
  with_card-Runs stage (some n) cap s k h = elim (Option-cases (card_routing n services.registry)) [
    | inl e ↦ rw (e, present) (answered stage _)
    | inr (routing, e) ↦
        rw (e, present)
          (ensure-Runs stage _ _ s _
            (λ t. h routing (record { card = n; published = e; capable = of_not _ t })))
  ]
    where
      of_not : (b : Bool) → not b ≡ true → b ≡ false
      of_not b t = ground arith

  decided-Runs :
      (action : String) (s : Frontend) (k : Done → Outcome V) (answer : Authorization)
      → services.authorize action caller ≡ answer
      → Runs s (permitted action) (k tt)
      → Runs s entered (after (asked_authorizer action) (decided answer s k))
  decided-Runs action s k granted e h = allowed action e h
  decided-Runs action s k denied e h = refused action (error not_authorized) (λ g. cc)
  decided-Runs action s k undecided e h = refused action (error communication_error) (λ g. cc)

  pub authorized-Runs :
      (action : String) (s : Frontend) (k : Done → Outcome V)
      → Runs s (permitted action) (k tt)
      → Runs s entered (authorized services action caller s k)
  unfolding authorized
  authorized-Runs action s k h = decided-Runs action s k _ refl h

  budget-Runs :
      (action : String) (s : Frontend) (k : Done → Outcome V) (answer : Bool)
      → services.allow caller ≡ answer
      → Runs s (budgeted action) (k tt)
      → Runs s (permitted action) (after charged (ensure answer rate_limited s k))
  unfolding ensure
  budget-Runs action s k true e h = within_budget action e h
  budget-Runs action s k false e h = limited action e

  pub rate_allowed-Runs :
      (action : String) (s : Frontend) (k : Done → Outcome V)
      → Runs s (budgeted action) (k tt)
      → Runs s (permitted action) (rate_allowed services caller s k)
  unfolding rate_allowed
  rate_allowed-Runs action s k h = budget-Runs action s k _ refl h

  -- The answer to a launch, whichever it is.
  launched_answer :
      (P : Outcome V → Type 0) (r : Expected SyncError ℕ) (s : Frontend)
      → ((a : Answer V) (t : Frontend) → reply_launched caller r s ≡ reply a t → P (reply a t))
      → P (reply_launched caller r s)
  launched_answer P (value id) s h = h (op_started id) _ refl
  launched_answer P (unexpected code) s h = h (error code) s refl

  pub launch-Runs_free :
      (target : OperationTarget) (op : Operation) (s : Frontend)
      → required_action services.actions op ≡ none
      → IsTarget services caller target op
      → Runs s entered (launch services target op caller s)
  unfolding launch
  launch-Runs_free target op s h t =
      launched_answer (λ o. Runs s entered (after (launched target op) o)) _ s
        (λ a _ e. launched_freely target op a h t e)

  pub launch-Runs :
      (action : String) (target : OperationTarget) (op : Operation) (s : Frontend)
      → required_action services.actions op ≡ some action
      → IsTarget services caller target op
      → Runs s (budgeted action) (launch services target op caller s)
  unfolding launch
  launch-Runs action target op s h t =
      launched_answer (λ o. Runs s (budgeted action) (after (launched target op) o)) _ s
        (λ a _ e. launched_for action target op a h t e)
