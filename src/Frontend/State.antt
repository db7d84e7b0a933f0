-- ===== src/Frontend/State.antt =====
-- What SocketFrontend keeps, what it calls, and what it does in answer to a request
-- (agent/include/LibreSCRS/Darwin/backend/SocketFrontend.h). A caller's token is a number.
use libre_darwin.Base.{ℕ, String, Option, List, Bool}
use libre_darwin.Protocol.Messages.{ConfirmAction}
use libre_darwin.Transport.Maps.{NumberMap}
use libre_darwin.Transport.Presence.{Registry}
use libre_darwin.Frontend.Errors.{SyncError}
use libre_darwin.Frontend.SignOptions.{Document, VisualSignature}
use libre_darwin.Frontend.Request.{LayoutBox}

pub record SignMeta : Type 0 where
  pub format : String
  pub level : String
  pub tsa_used : Bool
  pub chain_complete : Bool

pub record SignedArtifact : Type 0 where
  pub bytes : Document
  pub meta : SignMeta

pub record SignRecord : Type 0 where
  pub artifact : SignedArtifact
  pub owner : ℕ

-- The state that requests read and change: `m_opOwners`, `m_signResults`, `m_confirmsInFlight`.
pub record Frontend : Type 0 where
  pub op_owners : NumberMap ℕ
  pub sign_results : NumberMap SignRecord
  pub confirms_in_flight : List ℕ

pub data TrustChange : Type 0 where
  set_value reset_value import_anchors : TrustChange

pub record TslSource : Type 0 where
  pub url : String
  pub is_lotl : Bool
  pub eager : Bool

-- A call that writes to the configuration store.
pub data ConfigWrite : Type 0 where
  default_level default_reason default_location : String → ConfigWrite
  tsa_urls : List String → ConfigWrite
  tsl_sources : List TslSource → ConfigWrite
  reset_key : String → ConfigWrite

pub data Mutability : Type 0 where
  bus_mutable bus_mutable_trust file_only read_only : Mutability

pub data Authorization : Type 0 where
  granted denied undecided : Authorization

-- `Wire::ReadResult`.
pub data ReadResult : Type 0 where
  read : Document → ReadResult
  not_regular too_large read_error : ReadResult

pub record OperationTarget : Type 0 where
  pub reader_id : ℕ
  pub reader_name : String
  pub card_key : ℕ
  pub caller : ℕ
  pub requester : String

pub record SignParams : Type 0 where
  pub cert_id : String
  pub input_document : Document
  pub format : String
  pub level : String
  pub packaging : String
  pub allow_expired : Bool
  pub display_name : String
  pub reason : String
  pub location : String
  pub tsa_url : String
  pub visual : Option VisualSignature

pub record BatchDocument : Type 0 where
  pub display_name : String
  pub bytes : Document

pub record PinManageRequest : Type 0 where
  pub card_key : ℕ
  pub pin_id : String
  pub verb : String
  pub activate_key : Bool

-- The alternatives of `OperationLauncher`. A credential snapshot is a number, `none` where the cache
-- holds none.
pub data Operation : Type 0 where
  read_identity get_photo read_certificates read_token_info : Operation
  list_credentials activate_signing_key : Operation
  sign : SignParams → Operation
  sign_batch : SignParams → List BatchDocument → Operation
  manage_pin : PinManageRequest → Option ℕ → Operation

-- The calls on the PKCS#11 broker that answer later.
pub data BrokerCall : Type 0 where
  cert_der public_key : (reader cert : String) → BrokerCall
  login : (reader : String) → BrokerCall
  sign_raw decrypt : (reader cert : String) (mechanism : ℕ) (input : Document) → BrokerCall
  derive : (reader cert : String) (peer_public_point : Document) → BrokerCall

pub data ImportRefusal : Type 0 where
  replayed cache_not_writable not_a_master_list empty malformed : ImportRefusal
  bad_signature signer_changed : ImportRefusal

pub record AcceptedSigner : Type 0 where
  pub fingerprint : Document
  pub signed_at : Option ℕ

-- `Trust::AnchorState`, and `Config::CscaAnchorState` with `Wire::CscaAnchorStateReply`.
pub record AnchorState : Type 0 where
  pub anchor_count : ℕ
  pub issuer_count : ℕ
  pub replay_refusal_active : Bool
  pub signers : List AcceptedSigner
  pub every_publisher_established : Bool
  pub accepted_at : ℕ

pub record CscaAnchorState : Type 0 where
  pub anchors : ℕ
  pub issuers : ℕ
  pub replay_refusal_active : Bool
  pub signer : String
  pub signer_pinned : Bool
  pub accepted_at : ℕ
  pub signed_at : Option ℕ

pub record CscaAnchorStateReply : Type 0 where
  pub anchors : ℕ
  pub issuers : ℕ
  pub replay_refusal_active : Bool
  pub signer : Option String
  pub signer_pinned : Bool
  pub accepted_at : ℕ
  pub signed_at : Option ℕ

-- What a client reads back. The layout is the library's, by its input.
pub data Answer (V : Type 0) : Type 0 where
  error : SyncError → Answer V
  ack : Answer V
  hello_ack : String → List String → Answer V
  state : Registry → Answer V
  layout : String → LayoutBox → Answer V
  font : Document → Answer V
  op_started : ℕ → Answer V
  sign_recovery : SignMeta → Document → Answer V
  config : List (String × V) → Answer V
  login_state : Bool → Answer V
  anchor_state : CscaAnchorStateReply → Answer V

-- The continuation that a confirmation holds: what is applied once a person agreed.
pub data Pending (V : Type 0) : Type 0 where
  config_write : (key : String) (value : V) → Pending V
  config_reset : (key : String) → Pending V
  master_list : (fd : ℕ) → Pending V

pub record Ask (V : Type 0) : Type 0 where
  pub conn_id : ℕ
  pub req : ℕ
  pub caller : ℕ
  pub action : ConfirmAction
  pub pending : Pending V

-- What a handler does, in its order. The last entry of each kind of run answers the client, hands the
-- request to the broker, or puts a question to a person.
pub data Effect (V : Type 0) : Type 0 where
  asked_authorizer : String → Effect V
  charged : Effect V
  read_fd : ℕ → Effect V
  launched : OperationTarget → Operation → Effect V
  cancelled : ℕ → Effect V
  wrote : ConfigWrite → Effect V
  imported : Document → Effect V
  recorded : CscaAnchorState → Effect V
  set_wants_events : Bool → Effect V
  logged_out : String → Effect V
  replied : Answer V → Effect V
  replied_and_closed : Answer V → Effect V
  handed_over : BrokerCall → Effect V
  asked_person : Ask V → Effect V
