-- ===== src/Frontend/Gates.antt =====
-- The services that SocketFrontend calls, and the checks that its handlers share
-- (agent/src/backend/SocketFrontend.cpp). A handler is written with its rest as a continuation: a check
-- that fails answers and drops the rest.
use Prim.Native.Nat.{bit_and}
use libre_darwin.Base.{
  ℕ, String, Option, none, some, List, [], ◌∷◌, Bool, true, false, not, ◌==◌, if◌then◌else◌, str_eq,
  Expected, value, unexpected,
}
use libre_darwin.Authorizer.{Actions}
use libre_darwin.Transport.Maps.{assign}
use libre_darwin.Transport.Presence.{Registry, CardRouting}
use libre_darwin.Transport.Presence.Updates.{card_routing}
use libre_darwin.Frontend.Errors.{
  SyncError, unknown_card, unsupported_on_this_card, not_authorized, communication_error,
  rate_limited,
}
use libre_darwin.Frontend.SignOptions.{Document, SignRules, SignDefaults}
use libre_darwin.Frontend.Request.{LayoutBox}
use libre_darwin.Frontend.State.{
  Frontend, Effect, Answer, error, op_started, replied, asked_authorizer, charged, launched,
  ConfigWrite, Mutability, Authorization, granted, denied, undecided, ReadResult, OperationTarget,
  Operation, PinManageRequest, ImportRefusal, AnchorState, CscaAnchorState, TslSource,
}

-- What the configuration store answers when it is read.
pub record ConfigStore : Type 0 where
  pub sign : SignDefaults
  pub last_tsa_url : String
  pub tsl_sources : List TslSource
  pub tsl_cache_dir : String
  pub csca_anchor_state : Option CscaAnchorState

-- The answers of the agent library and of the transport during one request. A peer's signing
-- identifier comes with its process label, `none` where the caller has no credentials.
pub record Services : Type 0 where
  pub agent_ver : String
  pub agent_features : List String
  pub protocol_version : ℕ
  pub registry : Registry
  pub identity_cap_bit : ℕ
  pub pki_cap_bit : ℕ
  pub pin_management_cap_bit : ℕ
  pub actions : Actions
  pub authorize : String → ℕ → Authorization
  pub allow : ℕ → Bool
  pub read_bounded_regular_fd : (before fd limit : ℕ) → ReadResult
  pub max_input_bytes : ℕ
  pub max_master_list_bytes : ℕ
  pub is_valid_batch_document_count : ℕ → Bool
  pub sign_rules : SignRules
  pub config : ConfigStore
  pub sanitize_label : String → String
  pub peer_label : ℕ → Option (Option String × String)
  pub launch : OperationTarget → Operation → Expected SyncError ℕ
  pub credential_snapshot : ℕ → Option ℕ
  pub validate_pin_manage_request : PinManageRequest → Option ℕ → Option SyncError
  pub sign_mechanism_from_token : String → Option ℕ
  pub decrypt_mechanism_from_token : String → Option ℕ
  pub anon_fd_made : Document → Bool
  pub mutability : String → Option Mutability
  pub write_ok : ConfigWrite → Bool
  pub import_master_list : Document → Expected ImportRefusal AnchorState
  pub to_hex : Document → String
  pub is_valid_layout_rect : LayoutBox → Bool
  pub appearance_font_bytes : Document
  pub login_active : String → ℕ → Bool

-- `cardRouting`
abbrev pub routing_of : Services → Option ℕ → Option CardRouting
routing_of services none = none
routing_of services (some handle) = card_routing handle services.registry

module _ (services : Services) where
  unfoldable pub requester_label_for : Option String → String → String
  requester_label_for none fallback = services.sanitize_label fallback
  requester_label_for (some id) fallback =
      services.sanitize_label (if str_eq id "" then fallback else id)

  unfoldable pub requester_label : ℕ → String
  unfolding requester_label_for
  requester_label caller = elim (services.peer_label caller) [
    | none ↦ ""
    | some (signing_id, label) ↦ requester_label_for signing_id label
  ]

  unfoldable pub operation_target : CardRouting → ℕ → OperationTarget
  unfolding requester_label
  operation_target routing caller = record {
    reader_id = routing.reader_id;
    reader_name = routing.reader_name;
    card_key = routing.card_key;
    caller = caller;
    requester = requester_label caller;
  }

abbrev pub Outcome : Type 0 → Type 0
Outcome V = Frontend × List (Effect V)

-- A step that goes on with its value, or answers by itself.
abbrev pub Gate : Type 0 → Type 0 → Type 0
Gate V A = (A → Outcome V) → Outcome V

abbrev pub Done : Type 0
Done = Unit {0}

infixl 5 ◌>>=◌ ◌>>◌
abbrev pub ◌>>=◌ : {V A B : Type 0} → Gate V A → (A → Gate V B) → Gate V B
(g >>= f) k = g (λ a. f a k)

abbrev pub ◌>>◌ : {V B : Type 0} → Gate V Done → Gate V B → Gate V B
(g >> h) k = g (λ _. h k)

module _ {V : Type 0} where
  -- The end of a handler, and a handler that runs to it.
  abbrev pub stop : Outcome V → Gate V (Outcome V)
  stop o k = k o

  abbrev pub run : Gate V (Outcome V) → Outcome V
  run g = g (λ o. o)

  -- A call, and what follows it.
  abbrev pub after : Effect V → Outcome V → Outcome V
  after e (s, es) = (s, e ∷ es)

  abbrev pub reply : Answer V → Frontend → Outcome V
  reply answer s = (s, replied answer ∷ [])

  -- `replyError`
  abbrev pub reply_error : SyncError → Frontend → Outcome V
  reply_error code s = reply (error code) s

  abbrev pub perform : Effect V → Gate V Done
  perform e k = after e (k tt)

  -- `if (!test) { replyError(code); return; }`
  unfoldable pub ensure : Bool → SyncError → Frontend → Gate V Done
  ensure true code s k = k tt
  ensure false code s k = reply_error code s

  -- `if (!o) { replyError(code); return; }`, and the value from there on.
  unfoldable pub present : {A : Type 0} → Option A → SyncError → Frontend → Gate V A
  present none code s k = reply_error code s
  present (some a) code s k = k a

  -- `if (!r) { replyError(r.error()); return; }`, and the value from there on.
  unfoldable pub successful : {A : Type 0} → Expected SyncError A → Frontend → Gate V A
  successful (unexpected code) s k = reply_error code s
  successful (value a) s k = k a

  abbrev pub decided : Authorization → Frontend → Gate V Done
  decided granted s k = k tt
  decided denied s k = reply_error not_authorized s
  decided undecided s k = reply_error communication_error s

  abbrev pub reply_launched : ℕ → Expected SyncError ℕ → Frontend → Outcome V
  reply_launched caller (unexpected code) s = reply_error code s
  reply_launched caller (value id) s =
      reply (op_started id) (record s { op_owners = assign id caller s.op_owners })

  module _ (services : Services) where
    -- A published card, and the bit of `caps` that the request needs.
    unfoldable pub with_card : Option ℕ → ℕ → Frontend → Gate V CardRouting
    with_card card cap s k = present (routing_of services card) unknown_card s (λ routing.
        ensure (not (bit_and routing.caps cap == 0)) unsupported_on_this_card s (λ _. k routing))

    -- The `switch` on `authorize(action, caller)`.
    unfoldable pub authorized : String → ℕ → Frontend → Gate V Done
    authorized action caller s k =
        after (asked_authorizer action) (decided (services.authorize action caller) s k)

    -- `rateLimiter().allow(caller)`
    unfoldable pub rate_allowed : ℕ → Frontend → Gate V Done
    rate_allowed caller s k = after charged (ensure (services.allow caller) rate_limited s k)

    -- The launch, and its answer.
    unfoldable pub launch : OperationTarget → Operation → ℕ → Frontend → Outcome V
    launch target operation caller s =
        after (launched target operation)
          (reply_launched caller (services.launch target operation) s)
