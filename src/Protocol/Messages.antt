-- ===== src/Protocol/Messages.antt =====
-- The messages of wire/PrompterProtocol.h. Texts are `String`s, secrets are bytes; a length or a
-- deadline is a `std::uint32_t`.
use libre_darwin.Base.{ℕ, String, Option, List}

pub record PromptRequest (Kind : Type 0) : Type 0 where
  pub kind : Kind
  pub title : String
  pub description : String
  pub requester : String
  pub artifact : String
  pub min_length : ℕ
  pub max_length : ℕ
  pub artifacts : List String
  pub attempt : ℕ
  pub last_error : String
  pub prompt_id : String
  pub deadline_ms : ℕ
  pub alt_deadline_ms : ℕ
  pub reader_model : String
  pub reader_interface : String
  pub reader_full : String

pub record PromptCancel : Type 0 where
  pub prompt_id : String

pub record RequestSecrets : Type 0 where
  pub kind : String
  pub title : String
  pub description : String
  pub requester : String
  pub artifact : String
  pub primary_min_length : ℕ
  pub primary_max_length : ℕ
  pub new_min_length : ℕ
  pub new_max_length : ℕ
  pub prompt_id : String
  pub deadline_ms : ℕ

pub record ConfirmAction : Type 0 where
  pub kind : String
  pub title : String
  pub description : String
  pub description_key : String
  pub requester : String
  pub artifact : String

-- The variant `PrompterRequest`; `PromptReset` carries nothing.
pub data PrompterRequest (Kind : Type 0) : Type 0 where
  prompt_request : PromptRequest Kind → PrompterRequest Kind
  prompt_cancel : PromptCancel → PrompterRequest Kind
  request_secrets : RequestSecrets → PrompterRequest Kind
  confirm_action : ConfirmAction → PrompterRequest Kind
  prompt_reset : PrompterRequest Kind

pub record PromptReply (Status : Type 0) : Type 0 where
  pub status : Status
  pub secret : List ℕ
  pub user_message : String
  pub protocol_version : Option ℕ

pub record MultiPromptReply (Status : Type 0) : Type 0 where
  pub status : Status
  pub primary : List ℕ
  pub secondary : List ℕ
  pub user_message : String
  pub protocol_version : Option ℕ

pub record ConfirmReply (Status : Type 0) : Type 0 where
  pub status : Status
  pub user_message : String
  pub protocol_version : Option ℕ

pub record ResetDone : Type 0 where
  pub closed : ℕ

pub data PrompterParseError : Type 0 where
  not_decodable not_a_map missing_field wrong_type : PrompterParseError
  unknown_message bad_enum secret_too_large unsupported_version : PrompterParseError

-- `kPrompterProtocolVersion`
abbrev pub prompter_protocol_version : ℕ
prompter_protocol_version = 2
