-- ===== src/Frontend/Contract/Handlers.antt =====
-- The handlers of operations and signatures (agent/src/backend/SocketFrontend.cpp) as runs of the
-- contract.
use libre_darwin.Base.{ℕ, suc, String, ◌≡◌, refl, Option, none, some, List, [], ◌∷◌, Bool, subst}
use libre_darwin.Transport.Presence.{CardRouting}
use libre_darwin.Frontend.SignOptions.{Document, SignOpts}
use libre_darwin.Frontend.Request.{BatchEntry}
use libre_darwin.Frontend.State.{
  Frontend, Operation, ReadResult, read, not_regular, too_large, read_error, PinManageRequest,
  error, BatchDocument, Ask,
}
use libre_darwin.Frontend.Gates.{
  Services, Outcome, Done, operation_target, authorized, rate_allowed, reply_error,
}
use libre_darwin.Frontend.Cards.{
  read_card, validated, handle_manage_pin, handle_activate_signing_key,
}
use libre_darwin.Frontend.Signing.{
  checked_document, read_document, read_documents, handle_sign, handle_sign_batch,
}
use libre_darwin.Frontend.Contract.{
  IsServed, IsTarget, capability, Stage, entered, budgeted, required_action, answered, reads,
}
use libre_darwin.Frontend.Contract.Gates.{
  Runs, ensure-Runs, present-Runs, successful-Runs, with_card-Runs, authorized-Runs,
  rate_allowed-Runs, launch-Runs_free, launch-Runs,
}

module _ (services : Services) (caller : ℕ) where
  IsTarget-of :
      (routing : CardRouting) (op : Operation)
      → IsServed services (capability services op) routing
      → IsTarget services caller (operation_target services routing caller) op
  IsTarget-of routing op served = record { routing = routing; served = served; is_target = refl }

module _ {V : Type 0} (Q : Ask V → Type 0) (services : Services) (caller : ℕ) where
  pub read_card-Runs :
      (card : Option ℕ) (cap : ℕ) (op : Operation) (s : Frontend)
      → required_action services.actions op ≡ none
      → cap ≡ capability services op
      → Runs Q services caller s entered (read_card services card cap op caller s)
  unfolding read_card
  read_card-Runs card cap op s h q =
      with_card-Runs Q services caller entered card cap s _ (λ routing served.
        launch-Runs_free Q services caller _ op s h (
          IsTarget-of services caller routing op
            (subst (λ (n : ℕ). IsServed services n routing) q served)))

  -- Authorized for an action and within the budget, then what the action allows.
  pub gated :
      (action : String) (s : Frontend) (k : Outcome V)
      → Runs Q services caller s (budgeted action) k
      → Runs Q services caller s entered
          (authorized services action caller s (λ _. rate_allowed services caller s (λ _. k)))
  gated action s k h =
      authorized-Runs Q services caller action s _
        (rate_allowed-Runs Q services caller action s _ h)

  validated-Runs :
      (stage : Stage) (request : PinManageRequest) (snapshot : Option ℕ) (s : Frontend)
      (k : Done → Outcome V)
      → Runs Q services caller s stage (k tt)
      → Runs Q services caller s stage (validated services request snapshot s k)
  unfolding validated
  validated-Runs stage request snapshot s k h =
      elim (services.validate_pin_manage_request request snapshot)
        as (λ o.
          Runs Q services caller s stage
            (elim o [ some code ↦ reply_error code s | none ↦ k tt ])) [
              | some code ↦ answered stage (error code)
              | none ↦ h
            ]

  pub handle_manage_pin-Runs :
      (card : Option ℕ) (pin_id verb : String) (activate_key : Option Bool) (s : Frontend)
      → Runs Q services caller s entered
          (handle_manage_pin services card pin_id verb activate_key caller s)
  unfolding handle_manage_pin
  handle_manage_pin-Runs card pin_id verb activate_key s =
      with_card-Runs Q services caller entered card _ s _ (λ routing served. gated _ s _ (
        ensure-Runs Q services caller _ _ _ s _ (λ _. validated-Runs _ _ _ s _ (
          launch-Runs Q services caller _ _ _ s refl
            (IsTarget-of services caller routing _ served)))))

  pub handle_activate_signing_key-Runs :
      (card : Option ℕ) (s : Frontend)
      → Runs Q services caller s entered (handle_activate_signing_key services card caller s)
  unfolding handle_activate_signing_key
  handle_activate_signing_key-Runs card s =
      with_card-Runs Q services caller entered card _ s _ (λ routing served.
        gated _ s _ (
          launch-Runs Q services caller _ _ _ s refl
            (IsTarget-of services caller routing _ served)))

  -- A document that was read, in the stage that signing reached.
  checked_document-Runs :
      (stage : Stage) (r : ReadResult) (s : Frontend) (k : Document → Outcome V)
      → ((bytes : Document) → Runs Q services caller s stage (k bytes))
      → Runs Q services caller s stage (checked_document services r s k)
  checked_document-Runs stage (read []) s k h = answered stage _
  checked_document-Runs stage (read (b ∷ bs)) s k h = h (b ∷ bs)
  checked_document-Runs stage not_regular s k h = answered stage _
  checked_document-Runs stage too_large s k h = answered stage _
  checked_document-Runs stage read_error s k h = answered stage _

  read_document-Runs :
      (before : ℕ) (fds : List ℕ) (index : ℕ) (s : Frontend) (k : Document → Outcome V)
      → ((bytes : Document) → Runs Q services caller s (budgeted services.actions.sign) (k bytes))
      → Runs Q services caller s
          (budgeted services.actions.sign)
          (read_document services before fds index s k)
  unfolding read_document
  read_document-Runs before fds index s k h =
      present-Runs Q services caller _ _ _ s _
        (λ fd _. reads _ fd refl (checked_document-Runs _ _ s k h))

  read_documents-Runs :
      (before : ℕ) (fds : List ℕ) (docs : List BatchEntry) (s : Frontend)
      (k : List BatchDocument → Outcome V)
      → ((inputs : List BatchDocument)
          → Runs Q services caller s (budgeted services.actions.sign) (k inputs))
      → Runs Q services caller s
          (budgeted services.actions.sign)
          (read_documents services before fds docs s k)
  unfolding read_documents
  read_documents-Runs before fds [] s k h = h []
  read_documents-Runs before fds (entry ∷ entries) s k h =
      read_document-Runs before fds _ s _
        (λ bytes. read_documents-Runs (suc before) fds entries s _ (λ rest. h _))

  pub handle_sign-Runs :
      (card : Option ℕ) (cert : String) (opts : SignOpts) (in_fd : ℕ) (fds : List ℕ) (s : Frontend)
      → Runs Q services caller s entered (handle_sign services card cert opts in_fd fds caller s)
  unfolding handle_sign
  handle_sign-Runs card cert opts in_fd fds s =
      with_card-Runs Q services caller entered card _ s _ (λ routing served.
        ensure-Runs Q services caller _ _ _ s _ (λ _. gated _ s _ (
          read_document-Runs 0 fds in_fd s _ (λ document.
            successful-Runs Q services caller _ _ s _ (λ resolved _.
              launch-Runs Q services caller _ _ _ s refl
                (IsTarget-of services caller routing _ served))))))

  pub handle_sign_batch-Runs :
      (card : Option ℕ) (cert : String) (opts : SignOpts) (docs : List BatchEntry) (fds : List ℕ)
      (s : Frontend)
      → Runs Q services caller s entered
          (handle_sign_batch services card cert opts docs fds caller s)
  unfolding handle_sign_batch
  handle_sign_batch-Runs card cert opts docs fds s =
      with_card-Runs Q services caller entered card _ s _ (λ routing served.
        ensure-Runs Q services caller _ _ _ s _ (λ _. gated _ s _ (
          ensure-Runs Q services caller _ _ _ s _ (λ _.
            read_documents-Runs 0 fds docs s _ (λ inputs.
              successful-Runs Q services caller _ _ s _ (λ resolved _.
                launch-Runs Q services caller _ _ _ s refl
                  (IsTarget-of services caller routing _ served)))))))
