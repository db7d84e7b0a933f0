-- ===== src/Frontend/Request.antt =====
-- `Agent::Wire::Request`, with the fields that SocketFrontend.cpp reads. A card's handle is the `n` of
-- `obj/{n}`, `none` for a text of another form; `V` is the CBOR value type; a double is its 64 bits.
use libre_darwin.Base.{ℕ, String, Option, List, Bool}
use libre_darwin.Frontend.SignOptions.{SignOpts, Document}

pub record BatchEntry : Type 0 where
  pub name : String
  pub fd_index : ℕ

pub record LayoutBox : Type 0 where
  pub x : ℕ
  pub y : ℕ
  pub width : ℕ
  pub height : ℕ

pub data Request (V : Type 0) : Type 0 where
  hello : (proto : ℕ) (wants_events : Bool) → Request V
  get_state get_config get_appearance_font : Request V
  read_identity get_photo read_certificates read_token_info : (card : Option ℕ) → Request V
  list_credentials activate_signing_key : (card : Option ℕ) → Request V
  sign : (card : Option ℕ) (cert : String) (opts : SignOpts) (in_fd : ℕ) → Request V
  sign_batch :
      (card : Option ℕ) (cert : String) (opts : SignOpts) (docs : List BatchEntry) → Request V
  manage_pin : (card : Option ℕ) (pin_id verb : String) (activate_key : Option Bool) → Request V
  get_cert_der pk_public_key : (reader cert : String) → Request V
  set_config : (key : String) (value : V) → Request V
  reset_config : (key : String) → Request V
  cancel_op get_sign_result : (op : ℕ) → Request V
  pk_login pk_logout pk_login_state : (reader : String) → Request V
  pk_sign_raw pk_decrypt : (reader cert mech : String) (input : Document) → Request V
  pk_derive : (reader cert : String) (input : Document) → Request V
  layout_visual : (text : String) (box : LayoutBox) → Request V
  import_csca_master_list : (list : ℕ) → Request V

-- `SocketTransport::Inbound`: the request with its connection, its number, its caller's token and the
-- descriptors that came with it.
pub record Inbound (V : Type 0) : Type 0 where
  pub conn_id : ℕ
  pub req : ℕ
  pub caller : ℕ
  pub fds : List ℕ
  pub body : Request V
