-- ===== src/Frontend/Contract.antt =====
-- What a handler of agent/src/backend/SocketFrontend.cpp may do and in which order, as its comments
-- promise it: authorize, then the rate limit, then the descriptors or a person, then the launch, and
-- one answer at the end.
pub mod Gates
pub mod Handlers
pub mod Keys
pub mod Questions
pub mod Dispatch
pub mod Consequences
use Prim.Native.Nat.{bit_and}
use libre_darwin.Base.{
  ℕ, String, ◌≡◌, ◌≢◌, Option, none, some, List, [], ◌∷◌, Bool, true, false, ◌==◌,
}
use libre_darwin.Authorizer.{Actions}
use libre_darwin.Transport.Presence.Updates.{card_routing}
use libre_darwin.Transport.Maps.{lookup}
use libre_darwin.Transport.Presence.{CardRouting}
use libre_darwin.Frontend.Records.{is_owner}
use libre_darwin.Frontend.Errors.{rate_limited}
use libre_darwin.Frontend.State.{
  Frontend, Effect, Answer, error, replied, replied_and_closed, handed_over, BrokerCall,
  asked_authorizer, charged, launched, cancelled, wrote, read_fd, asked_person, set_wants_events,
  logged_out, granted, Operation, OperationTarget, ConfigWrite, Ask, bus_mutable, Pending,
  config_write, config_reset, master_list, TrustChange, set_value, reset_value, import_anchors,
  default_level, default_reason, default_location, tsa_urls, tsl_sources, reset_key,
}
use libre_darwin.Frontend.Gates.{
  Services, Outcome, operation_target, requester_label, reply, reply_launched,
}
use libre_darwin.Frontend.Trust.{is_in_flight, describe_trust_change}
use libre_darwin.Frontend.Signing.{descriptor}
use libre_darwin.Frontend.Request.{Request, Inbound}

-- How far a request has come: not at all, past the authorizer for an action, past the rate limit too.
pub data Stage : Type 0 where
  entered : Stage
  permitted budgeted : String → Stage

-- The action that an operation wants, if it wants one.
abbrev pub required_action : Actions → Operation → Option String
required_action actions (Operation.sign _) = some actions.sign
required_action actions (Operation.sign_batch _ _) = some actions.sign
required_action actions (Operation.manage_pin _ _) = some actions.credentials_manage
required_action actions Operation.activate_signing_key = some actions.credentials_manage
required_action actions _ = none

-- The setting that a write changes.
abbrev pub key_of : ConfigWrite → String
key_of (default_level _) = "DefaultLevel"
key_of (default_reason _) = "DefaultReason"
key_of (default_location _) = "DefaultLocation"
key_of (tsa_urls _) = "TsaUrls"
key_of (tsl_sources _) = "TslSources"
key_of (reset_key key) = key

abbrev pub capability : Services → Operation → ℕ
capability services Operation.read_identity = services.identity_cap_bit
capability services Operation.get_photo = services.identity_cap_bit
capability services Operation.read_certificates = services.pki_cap_bit
capability services Operation.read_token_info = services.pki_cap_bit
capability services (Operation.sign _) = services.pki_cap_bit
capability services (Operation.sign_batch _ _) = services.pki_cap_bit
capability services _ = services.pin_management_cap_bit

-- A published card with a bit among its capabilities.
pub record IsServed (services : Services) (cap : ℕ) (routing : CardRouting) : Type 0 where
  pub card : ℕ
  pub published : card_routing card services.registry ≡ some routing
  pub capable : (bit_and routing.caps cap == 0) ≡ false

-- A target that is a published card which can serve the operation.
pub record IsTarget (services : Services) (caller : ℕ) (target : OperationTarget) (op : Operation)
    : Type 0 where
  pub routing : CardRouting
  pub served : IsServed services (capability services op) routing
  pub is_target : target ≡ operation_target services routing caller

abbrev pub left_in : {V : Type 0} → Outcome V → Frontend
left_in (s, es) = s

abbrev pub effects : {V : Type 0} → Outcome V → List (Effect V)
effects (s, es) = es

-- The import of a list that was handed over.
abbrev pub list_change : {V : Type 0} → Option ℕ → Option (Pending V)
list_change none = none
list_change (some fd) = some (master_list fd)

-- What a request wants changed, if a person may be asked about it.
abbrev pub requested_change : {V : Type 0} → Request V → List ℕ → Option (Pending V)
requested_change (Request.set_config key v) fds = some (config_write key v)
requested_change (Request.reset_config key) fds = some (config_reset key)
requested_change (Request.import_csca_master_list list) fds = list_change (descriptor fds list)
requested_change _ fds = none

-- The setting of a change, and its kind.
abbrev pub setting_of : {V : Type 0} → Pending V → String
setting_of (config_write key v) = key
setting_of (config_reset key) = key
setting_of (master_list fd) = "CscaAnchorState"

abbrev pub kind_of : {V : Type 0} → Pending V → TrustChange
kind_of (config_write key v) = set_value
kind_of (config_reset key) = reset_value
kind_of (master_list fd) = import_anchors

-- The question that a request puts: about the change that it wants, in that change's own words, in its
-- caller's name, and to be answered to it.
pub record IsQuestion {V : Type 0} (services : Services) (m : Inbound V) (request : Request V)
    (ask : Ask V) : Type 0 where
  pub same_conn : ask.conn_id ≡ m.conn_id
  pub same_req : ask.req ≡ m.req
  pub same_caller : ask.caller ≡ m.caller
  pub same_change : requested_change request m.fds ≡ some ask.pending
  pub named : ask.action.artifact ≡ setting_of ask.pending
  pub told :
      describe_trust_change (setting_of ask.pending) (kind_of ask.pending)
      ≡ some (ask.action.description_key, ask.action.description)
  pub requested_by : ask.action.requester ≡ requester_label services m.caller

-- The runs of a request from a stage on: the state it began with, the state it left, its effects. `Q` is
-- what holds of a question to a person.
pub data Contract {V : Type 0} (Q : Ask V → Type 0) (services : Services) (caller : ℕ)
    (s : Frontend) : Stage → Frontend → List (Effect V) → Type 0 where
  answered : (stage : Stage) (a : Answer V) → Contract Q services caller s stage s (replied a ∷ [])
  closed : (a : Answer V) → Contract Q services caller s entered s (replied_and_closed a ∷ [])
  handed : (call : BrokerCall) → Contract Q services caller s entered s (handed_over call ∷ [])
  subscribed :
      (b : Bool) (a : Answer V)
      → Contract Q services caller s entered s (set_wants_events b ∷ replied a ∷ [])
  left :
      (reader : String) (a : Answer V)
      → Contract Q services caller s entered s (logged_out reader ∷ replied a ∷ [])
  stopped :
      (op : ℕ) (a : Answer V)
      → is_owner (lookup op s.op_owners) caller ≡ true
      → Contract Q services caller s entered s (cancelled op ∷ replied a ∷ [])
  launched_freely :
      (target : OperationTarget) (op : Operation) (a : Answer V) {t : Frontend}
      → required_action services.actions op ≡ none
      → IsTarget services caller target op
      → reply_launched caller (services.launch target op) s ≡ reply a t
      → Contract Q services caller s entered t (launched target op ∷ replied a ∷ [])
  refused :
      (action : String) (a : Answer V)
      → services.authorize action caller ≢ granted
      → Contract Q services caller s entered s (asked_authorizer action ∷ replied a ∷ [])
  allowed :
      (action : String) {t : Frontend} {es : List (Effect V)}
      → services.authorize action caller ≡ granted
      → Contract Q services caller s (permitted action) t es
      → Contract Q services caller s entered t (asked_authorizer action ∷ es)
  written :
      (action : String) (write : ConfigWrite) (a : Answer V)
      → action ≡ services.actions.configure
      → services.mutability (key_of write) ≡ some bus_mutable
      → Contract Q services caller s (permitted action) s (wrote write ∷ replied a ∷ [])
  limited :
      (action : String)
      → services.allow caller ≡ false
      → Contract Q services caller s
          (permitted action)
          s
          (charged ∷ replied (error rate_limited) ∷ [])
  within_budget :
      (action : String) {t : Frontend} {es : List (Effect V)}
      → services.allow caller ≡ true
      → Contract Q services caller s (budgeted action) t es
      → Contract Q services caller s (permitted action) t (charged ∷ es)
  reads :
      (action : String) (fd : ℕ) {t : Frontend} {es : List (Effect V)}
      → action ≡ services.actions.sign
      → Contract Q services caller s (budgeted action) t es
      → Contract Q services caller s (budgeted action) t (read_fd fd ∷ es)
  asks :
      (action : String) (ask : Ask V) {t : Frontend}
      → action ≡ services.actions.configure_trust
      → ask.caller ≡ caller
      → Q ask
      → is_in_flight caller s.confirms_in_flight ≡ false
      → t ≡ record s { confirms_in_flight = caller ∷ s.confirms_in_flight }
      → Contract Q services caller s (budgeted action) t (asked_person ask ∷ [])
  launched_for :
      (action : String) (target : OperationTarget) (op : Operation) (a : Answer V) {t : Frontend}
      → required_action services.actions op ≡ some action
      → IsTarget services caller target op
      → reply_launched caller (services.launch target op) s ≡ reply a t
      → Contract Q services caller s (budgeted action) t (launched target op ∷ replied a ∷ [])
