-- ===== src/OperationChannel.antt =====
-- What a running operation sends to its client (SocketOperationChannel in
-- agent/src/backend/SocketOperationChannel.cpp). A descriptor made for a result is its contents, in the
-- order of the frame's descriptors. A certificate list and a credential result, which are copied field
-- by field and bring no descriptor, are a number; so are the phases, statuses and codes.
pub mod Descriptors
use libre_darwin.Base.{
  ℕ, suc, String, Option, none, some, List, [], ◌∷◌, ◌++◌, Bool, true, false, length, if◌then◌else◌,
}
use libre_darwin.Wire.Maps.{Map, emplace}
use libre_darwin.Frontend.SignOptions.{Document}
use libre_darwin.Frontend.State.{SignMeta, SignedArtifact}

pub data FieldType : Type 0 where
  text_field date_field binary_field photo_field : FieldType

pub record Field : Type 0 where
  pub field_key : String
  pub label_key : String
  pub label_fallback : String
  pub type : FieldType
  pub text_value : String
  pub binary_value : Document

pub record GroupSnapshot : Type 0 where
  pub group_key : String
  pub fields : List Field

pub data CellValue : Type 0 where
  text_cell : String → CellValue
  binary_cell : Document → CellValue

pub record IdentityField : Type 0 where
  pub label_key : String
  pub label_fallback : String
  pub type : String
  pub value : CellValue

pub record Photo : Type 0 where
  pub key : String
  pub bytes : Document

pub record BatchRow : Type 0 where
  pub display_name : String
  pub bytes : Document
  pub meta : SignMeta
  pub code : ℕ

-- `Operations::ResultPayload`.
pub data ResultPayload : Type 0 where
  card_read : List GroupSnapshot → ResultPayload
  photos : List Photo → ResultPayload
  signed : SignedArtifact → ResultPayload
  batch : List BatchRow → ResultPayload
  certificates credentials : ℕ → ResultPayload

pub record PhotoItem : Type 0 where
  pub key : String
  pub fd : ℕ

pub record SignBatchRow : Type 0 where
  pub display_name : String
  pub artifact : ℕ
  pub meta : SignMeta
  pub code : ℕ

pub data WireResult : Type 0 where
  identity : Map (Map IdentityField) → WireResult
  photo_items : List PhotoItem → WireResult
  sign_result : (artifact : ℕ) → SignMeta → WireResult
  batch_rows : List SignBatchRow → WireResult
  certificate_list credential_result : ℕ → WireResult

pub field_type_name : FieldType → String
field_type_name text_field = "text"
field_type_name date_field = "date"
field_type_name binary_field = "binary"
field_type_name photo_field = "binary"

abbrev pub is_photo : FieldType → Bool
is_photo photo_field = true
is_photo _ = false

abbrev cell_value : FieldType → Field → CellValue
cell_value binary_field f = binary_cell f.binary_value
cell_value _ f = text_cell f.text_value

pub cell_of : Field → IdentityField
cell_of f = record {
  label_key = f.label_key;
  label_fallback = f.label_fallback;
  type = field_type_name f.type;
  value = cell_value f.type f;
}

-- The fields of a group, from those before: photos are left out.
pub to_identity_group_fields : List Field → Map IdentityField → Map IdentityField
to_identity_group_fields [] fields = fields
to_identity_group_fields (f ∷ fs) fields =
    to_identity_group_fields fs
      (if is_photo f.type then fields else emplace f.field_key (cell_of f) fields)

abbrev emplace_group :
    String → Map IdentityField → Map (Map IdentityField) → Map (Map IdentityField)
emplace_group key [] out = out
emplace_group key (f ∷ fs) out = emplace key (f ∷ fs) out

pub to_identity_result : List GroupSnapshot → Map (Map IdentityField) → Map (Map IdentityField)
to_identity_result [] out = out
to_identity_result (group ∷ groups) out =
    to_identity_result groups
      (emplace_group group.group_key (to_identity_group_fields group.fields []) out)

-- An event on the connection of the operation.
pub data ChannelEvent : Type 0 where
  op_progress : (op phase : ℕ) → ChannelEvent
  op_identity_group : (op : ℕ) → String → Map IdentityField → ChannelEvent
  op_result_ready : (op : ℕ) → WireResult → List Document → ChannelEvent
  op_finished : (op status code : ℕ) → (msg_key msg_fallback : String) → ChannelEvent
  artifact_stashed : (op : ℕ) → SignedArtifact → ChannelEvent
  owner_pruned : (op : ℕ) → ChannelEvent

pub emit_properties_changed : ℕ → ℕ → List ChannelEvent
emit_properties_changed op phase = op_progress op phase ∷ []

pub emit_group : ℕ → GroupSnapshot → List ChannelEvent
emit_group op group =
    op_identity_group op group.group_key (to_identity_group_fields group.fields []) ∷ []

-- The event, if it could be posted, and the end of the operation's ownership in any case.
pub emit_finished : ℕ → Bool → ℕ → ℕ → String → String → List ChannelEvent
emit_finished op posted status code msg_key msg_fallback =
    (if posted then op_finished op status code msg_key msg_fallback ∷ [] else [])
    ++ owner_pruned op ∷ []

abbrev pub photo_bytes : Photo → Document
photo_bytes photo = photo.bytes

abbrev pub photo_item : Photo → ℕ → PhotoItem
photo_item photo fd = record { key = photo.key; fd = fd }

abbrev pub row_bytes : BatchRow → Document
row_bytes row = row.bytes

abbrev pub batch_row : BatchRow → ℕ → SignBatchRow
batch_row row fd = record {
  display_name = row.display_name;
  artifact = fd;
  meta = row.meta;
  code = row.code;
}

abbrev pub attached :
    {B : Type 0}
    → ℕ
    → (List B → WireResult)
    → Option (List B × List Document)
    → Bool × List ChannelEvent
attached op make none = (false, [])
attached op make (some (items, fds)) = (true, op_result_ready op (make items) fds ∷ [])

-- Whether a descriptor can be made, by the number made before in the same call and by the contents.
module _ (anon_fd_made : ℕ → Document → Bool) where
  -- A loop over rows that makes one descriptor for each and names it by its index: the items and the
  -- descriptors so far, or none when a descriptor could not be made.
  unfoldable pub attach :
      {A B : Type 0}
      → (A → Document)
      → (A → ℕ → B)
      → List A
      → List B
      → List Document
      → Option (List B × List Document)
  attach bytes_of item_of [] items fds = some (items, fds)
  attach bytes_of item_of (a ∷ rows) items fds =
      let rest =
        attach bytes_of item_of rows (items ++ item_of a (length fds) ∷ [])
          (fds ++ bytes_of a ∷ []) in
      if anon_fd_made (length fds) (bytes_of a) then rest else none

  -- Whether the result was delivered, and what was sent or stashed.
  pub emit_result : ℕ → ResultPayload → Bool × List ChannelEvent
  emit_result op (card_read groups) =
      (true, op_result_ready op (identity (to_identity_result groups [])) [] ∷ [])
  emit_result op (photos items) =
      attached op photo_items (attach photo_bytes photo_item items [] [])
  emit_result op (batch rows) = attached op batch_rows (attach row_bytes batch_row rows [] [])
  emit_result op (signed artifact) =
      if anon_fd_made 0 artifact.bytes
      then (
        true,
        artifact_stashed op artifact
            ∷ op_result_ready op (sign_result 0 artifact.meta) (artifact.bytes ∷ [])
            ∷ [],
      )
      else (false, [])
  emit_result op (certificates certs) = (true, op_result_ready op (certificate_list certs) [] ∷ [])
  emit_result op (credentials result) =
      (true, op_result_ready op (credential_result result) [] ∷ [])
