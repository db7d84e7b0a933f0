-- ===== src/Protocol/Decode/Requests.antt =====
-- `parsePrompterRequest` (wire/PrompterProtocol.cpp), a function for each message tag.
use libre_darwin.Base.{
  String, Option, none, some, ite, leb, str_eq, if◌then◌else◌, value_or, value, unexpected, ◌>>=◌,
  ◌>>◌, require, or_fail,
}
use libre_darwin.Wire.{Cbor, PrompterWire}
use libre_darwin.Wire.Maps.{Map}
use libre_darwin.Protocol.Messages.{
  PrompterRequest, prompt_request, prompt_cancel, request_secrets, confirm_action, prompt_reset,
  missing_field, wrong_type, unknown_message, bad_enum, unsupported_version,
  prompter_protocol_version,
}
use libre_darwin.Protocol.Fields.{
  Parsed, to_uint32, top_map, find_text, opt_text, opt_uint, opt_string_array,
  opt_announced_version,
}

pub record DisplayFields : Type 0 where
  pub title : String
  pub description : String
  pub requester : String
  pub artifact : String

-- A chain of fields, any of which may be mistyped.
infixl 5 ◌>>=?◌
abbrev pub ◌>>=?◌ {ℓ κ} : {A : Type ℓ} {B : Type κ} → Option A → (A → Option B) → Option B
none >>=? f = none
some a >>=? f = f a

module _ (c : Cbor) where
  unfoldable pub opt_display_fields : Map c.Value → Option DisplayFields
  opt_display_fields m = opt_text c m "title" >>=? λ title.
      opt_text c m "description" >>=? λ description. opt_text c m "requester" >>=? λ requester.
      opt_text c m "artifact" >>=? λ artifact. some (record {
        title = title;
        description = description;
        requester = requester;
        artifact = artifact;
      })

module _ (w : PrompterWire) (c : Cbor) where
  open w use {Kind, kind_eq, change_pin, kind_from_token}
  open c use {Value}

  unfoldable pub parse_prompt_cancel : Map Value → Parsed (PrompterRequest Kind)
  parse_prompt_cancel m = do
    id ← or_fail (opt_text c m "promptId") wrong_type
    value (prompt_cancel (record { prompt_id = id }))

  request_secrets_fields : String → Map Value → Option (PrompterRequest Kind)
  request_secrets_fields kind m = opt_display_fields c m >>=? λ display.
      opt_uint c m "primaryMinLength" >>=? λ pri_min.
      opt_uint c m "primaryMaxLength" >>=? λ pri_max. opt_uint c m "newMinLength" >>=? λ new_min.
      opt_uint c m "newMaxLength" >>=? λ new_max. opt_text c m "promptId" >>=? λ prompt_id.
      opt_uint c m "deadlineMs" >>=? λ deadline. some (
        request_secrets (record {
          kind = kind;
          title = display.title;
          description = display.description;
          requester = display.requester;
          artifact = display.artifact;
          primary_min_length = to_uint32 pri_min;
          primary_max_length = to_uint32 pri_max;
          new_min_length = to_uint32 new_min;
          new_max_length = to_uint32 new_max;
          prompt_id = prompt_id;
          deadline_ms = to_uint32 deadline;
        }))

  unfoldable pub parse_request_secrets : Map Value → Parsed (PrompterRequest Kind)
  unfolding request_secrets_fields
  parse_request_secrets m = do
    kind ← or_fail (find_text c m "kind") missing_field
    or_fail (request_secrets_fields kind m) wrong_type

  unfoldable pub parse_confirm_action : Map Value → Parsed (PrompterRequest Kind)
  parse_confirm_action m = do
    kind ← or_fail (find_text c m "kind") missing_field
    display ← or_fail (opt_display_fields c m) wrong_type
    description_key ← or_fail (opt_text c m "descriptionKey") wrong_type
    value (
        confirm_action (record {
          kind = kind;
          title = display.title;
          description = display.description;
          description_key = description_key;
          requester = display.requester;
          artifact = display.artifact;
        }))

  unfoldable pub prompt_request_fields : Kind → Map Value → Option (PrompterRequest Kind)
  prompt_request_fields kind m = opt_display_fields c m >>=? λ display.
      opt_uint c m "minLength" >>=? λ min_len. opt_uint c m "maxLength" >>=? λ max_len.
      opt_string_array c m "artifacts" >>=? λ artifacts. opt_uint c m "attempt" >>=? λ attempt.
      opt_text c m "lastError" >>=? λ last_error. opt_text c m "promptId" >>=? λ prompt_id.
      opt_uint c m "deadlineMs" >>=? λ deadline. opt_uint c m "altDeadlineMs" >>=? λ alt_deadline.
      opt_text c m "readerModel" >>=? λ reader_model.
      opt_text c m "readerInterface" >>=? λ reader_interface.
      opt_text c m "readerFull" >>=? λ reader_full. some (
        prompt_request (record {
          kind = kind;
          title = display.title;
          description = display.description;
          requester = display.requester;
          artifact = display.artifact;
          min_length = to_uint32 min_len;
          max_length = to_uint32 max_len;
          artifacts = artifacts;
          attempt = to_uint32 attempt;
          last_error = last_error;
          prompt_id = prompt_id;
          deadline_ms = to_uint32 deadline;
          alt_deadline_ms = to_uint32 alt_deadline;
          reader_model = reader_model;
          reader_interface = reader_interface;
          reader_full = reader_full;
        }))

  -- One secret per RequestSecret: the PIN pair is RequestSecrets' to ask.
  unfoldable pub single_secret_kind : Option Kind → Parsed Kind
  single_secret_kind none = unexpected bad_enum
  single_secret_kind (some k) = ite (kind_eq k change_pin) (unexpected bad_enum) (value k)

  unfoldable pub parse_prompt_request : Map Value → Parsed (PrompterRequest Kind)
  unfolding single_secret_kind prompt_request_fields
  parse_prompt_request m = do
    kind_str ← or_fail (find_text c m "kind") missing_field
    kind ← single_secret_kind (kind_from_token kind_str)
    or_fail (prompt_request_fields kind m) wrong_type

  -- The dispatch on the message tag.
  unfoldable pub parse_tagged : String → Map Value → Parsed (PrompterRequest Kind)
  parse_tagged t m =
      if str_eq t "Reset"
      then value prompt_reset
      else if str_eq t "CancelCurrent"
      then parse_prompt_cancel m
      else if str_eq t "RequestSecrets"
      then parse_request_secrets m
      else if str_eq t "ConfirmAction"
      then parse_confirm_action m
      else if str_eq t "RequestSecret"
      then parse_prompt_request m
      else unexpected unknown_message

  -- The announced protocol is judged before the message tag, and at its full width.
  unfoldable pub parse_request_map : Map Value → Parsed (PrompterRequest Kind)
  parse_request_map m = do
    announced ← opt_announced_version c m
    require (leb (value_or announced 0) prompter_protocol_version) unsupported_version
    t ← or_fail (find_text c m "t") missing_field
    parse_tagged t m

  unfoldable pub parse_prompter_request : c.Body → Parsed (PrompterRequest Kind)
  parse_prompter_request body = do m ← top_map c body; parse_request_map m
