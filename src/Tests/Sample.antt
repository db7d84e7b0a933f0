-- ===== src/Tests/Sample.antt =====
-- A codec and a vocabulary for the examples: bodies are the values themselves.
use libre_darwin.Base.{
  ℕ, ◌≡◌, refl, ap, Bool, String, Option, none, some, List, [], ◌∷◌, str_eq, if◌then◌else◌,
}
use libre_darwin.Wire.{Cbor, PrompterWire}
use libre_darwin.Wire.Maps.{Map}
use libre_darwin.Client.{PromptStatuses}

mutual
  pub data Value : Type 0 where
    v_text : String → Value
    v_uint : ℕ → Value
    v_bytes : List ℕ → Value
    v_bool : Bool → Value
    v_array : Items → Value
    v_map : Fields → Value

  pub data Items : Type 0 where
    no_item : Items
    item : Value → Items → Items

  pub data Fields : Type 0 where
    no_field : Fields
    field : String → Value → Fields → Fields

abbrev items : List Value → Items
items [] = no_item
items (v ∷ vs) = item v (items vs)

abbrev of_items : Items → List Value
of_items no_item = []
of_items (item v vs) = v ∷ of_items vs

abbrev fields : Map Value → Fields
fields [] = no_field
fields ((k, v) ∷ m) = field k v (fields m)

abbrev of_fields : Fields → Map Value
of_fields no_field = []
of_fields (field k v m) = (k, v) ∷ of_fields m

pub items_back : (vs : List Value) → of_items (items vs) ≡ vs
items_back [] = refl
items_back (v ∷ vs) = ap (λ r. v ∷ r) (items_back vs)

pub fields_back : (m : Map Value) → of_fields (fields m) ≡ m
fields_back [] = refl
fields_back ((k, v) ∷ m) = ap (λ r. (k, v) ∷ r) (fields_back m)

abbrev as_text : Value → Option String
as_text (v_text s) = some s
as_text _ = none

abbrev as_uint : Value → Option ℕ
as_uint (v_uint n) = some n
as_uint _ = none

abbrev as_bytes : Value → Option (List ℕ)
as_bytes (v_bytes b) = some b
as_bytes _ = none

abbrev as_bool : Value → Option Bool
as_bool (v_bool b) = some b
as_bool _ = none

abbrev as_array : Value → Option (List Value)
as_array (v_array vs) = some (of_items vs)
as_array _ = none

abbrev as_map : Value → Option (Map Value)
as_map (v_map m) = some (of_fields m)
as_map _ = none

abbrev pub cbor : Cbor
cbor = record {
  Value = Value;
  Body = Value;
  text = v_text;
  uint = v_uint;
  bytes = v_bytes;
  boolean = v_bool;
  array = λ vs. v_array (items vs);
  of_map = λ m. v_map (fields m);
  as_text = as_text;
  as_uint = as_uint;
  as_bytes = as_bytes;
  as_bool = as_bool;
  as_array = as_array;
  as_map = as_map;
  encode = λ v. v;
  decode = λ v. some v;
  as_text-text = λ s. refl;
  as_uint-uint = λ n h. refl;
  as_bytes-bytes = λ b. refl;
  as_bool-boolean = λ b. refl;
  as_array-array = λ vs. ap some (items_back vs);
  as_map-of_map = λ m. ap some (fields_back m);
  decode-encode = λ v. refl;
}

pub data Kind : Type 0 where
  pin change_pin : Kind

pub data Status : Type 0 where
  ok error unauthorized : Status

abbrev kind_eq : Discrete Kind
kind_eq pin pin = yes refl
kind_eq change_pin change_pin = yes refl
kind_eq _ _ = no (λ e. (cc))

abbrev status_eq : Discrete Status
status_eq ok ok = yes refl
status_eq error error = yes refl
status_eq unauthorized unauthorized = yes refl
status_eq _ _ = no (λ e. (cc))

abbrev kind_token : Kind → String
kind_token pin = "pin"
kind_token change_pin = "change_pin"

abbrev kind_from_token : String → Option Kind
kind_from_token t =
    if str_eq t "pin" then some pin else if str_eq t "change_pin" then some change_pin else none

abbrev status_token : Status → String
status_token ok = "ok"
status_token error = "error"
status_token unauthorized = "unauthorized"

abbrev status_from_token : String → Option Status
status_from_token t =
    if str_eq t "ok"
    then some ok
    else if str_eq t "error"
    then some error
    else if str_eq t "unauthorized"
    then some unauthorized
    else none

pub kind_back : (k : Kind) → kind_from_token (kind_token k) ≡ some k
kind_back pin = refl
kind_back change_pin = refl

pub status_back : (s : Status) → status_from_token (status_token s) ≡ some s
status_back ok = refl
status_back error = refl
status_back unauthorized = refl

abbrev pub wire : PrompterWire
wire = record {
  Kind = Kind;
  Status = Status;
  kind_eq = kind_eq;
  status_eq = status_eq;
  change_pin = change_pin;
  ok = ok;
  error = error;
  unauthorized = unauthorized;
  kind_token = kind_token;
  kind_from_token = kind_from_token;
  reply_status_token = status_token;
  reply_status_from_token = status_from_token;
  max_secret_bytes = 256;
  unknown_interface = "unknown";
  kind_from_token-kind_token = kind_back;
  reply_status_from_token-reply_status_token = status_back;
  error-ne-ok = λ e. (cc);
  unauthorized-ne-ok = λ e. (cc);
}

pub data PromptStatus : Type 0 where
  prompt_ok prompt_error timeout helper_too_old : PromptStatus

abbrev prompt_status_eq : Discrete PromptStatus
prompt_status_eq prompt_ok prompt_ok = yes refl
prompt_status_eq prompt_error prompt_error = yes refl
prompt_status_eq timeout timeout = yes refl
prompt_status_eq helper_too_old helper_too_old = yes refl
prompt_status_eq _ _ = no (λ e. (cc))

abbrev prompt_status_for : Status → PromptStatus
prompt_status_for ok = prompt_ok
prompt_status_for _ = prompt_error

pub ok_back : (s : Status) → prompt_status_for s ≡ prompt_ok → s ≡ ok
ok_back ok h = refl
ok_back error h = cc
ok_back unauthorized h = cc

abbrev pub statuses : PromptStatuses Status ok
statuses = record {
  PromptStatus = PromptStatus;
  status_eq = prompt_status_eq;
  prompt_ok = prompt_ok;
  prompt_error = prompt_error;
  timeout = timeout;
  helper_too_old = helper_too_old;
  prompt_status_for = prompt_status_for;
  prompt_status_for-ok = refl;
  ok_of_prompt_status_for = ok_back;
  prompt_error-ne-ok = λ e. (cc);
  timeout-ne-ok = λ e. (cc);
  helper_too_old-ne-ok = λ e. (cc);
}
