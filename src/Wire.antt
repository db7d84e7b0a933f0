-- ===== src/Wire.antt =====
-- What the prompter protocol takes from the agent library (LibreAgent), which is not in this
-- repository: the CBOR value type with its codec, and the prompter vocabulary. Both are records that
-- the protocol's definitions take as parameters.
pub mod Maps
use libre_darwin.Base.{ℕ, ◌<◌, ◌^◌, ◌≡◌, ◌≢◌, String, Option, some, List, Bool}
use Maps.{Map}

-- `Agent::Wire::CborValue`, its constructors and accessors, and the codec `encode` / `decode`. `Body`
-- is the byte buffer of a frame body. An accessor gives back what the constructor of its kind took
-- (an unsigned integer within 64 bits), and a decoded encoding is the value encoded.
pub record Cbor : Type 1 where
  pub Value : Type 0
  pub Body : Type 0
  pub text : String → Value
  pub uint : ℕ → Value
  pub bytes : List ℕ → Value
  pub boolean : Bool → Value
  pub array : List Value → Value
  pub of_map : Map Value → Value
  pub as_text : Value → Option String
  pub as_uint : Value → Option ℕ
  pub as_bytes : Value → Option (List ℕ)
  pub as_bool : Value → Option Bool
  pub as_array : Value → Option (List Value)
  pub as_map : Value → Option (Map Value)
  pub encode : Value → Body
  pub decode : Body → Option Value
  pub as_text-text : (s : String) → as_text (text s) ≡ some s
  pub as_uint-uint : (n : ℕ) → n < 2 ^ 64 → as_uint (uint n) ≡ some n
  pub as_bytes-bytes : (b : List ℕ) → as_bytes (bytes b) ≡ some b
  pub as_bool-boolean : (b : Bool) → as_bool (boolean b) ≡ some b
  pub as_array-array : (vs : List Value) → as_array (array vs) ≡ some vs
  pub as_map-of_map : (m : Map Value) → as_map (of_map m) ≡ some m
  pub decode-encode : (v : Value) → decode (encode v) ≡ some v

-- The prompter vocabulary: `Operations::PromptKind` and `PrompterWire::PromptReplyStatus` with their
-- words, `kMaxSecretBytes`, and the word `readerInterfaceToken` gives an undetermined interface. A
-- word reads back as what it names, and the three statuses the code names are told apart.
pub record PrompterWire : Type 1 where
  pub Kind : Type 0
  pub Status : Type 0
  pub kind_eq : Discrete Kind
  pub status_eq : Discrete Status
  pub change_pin : Kind
  pub ok : Status
  pub error : Status
  pub unauthorized : Status
  pub kind_token : Kind → String
  pub kind_from_token : String → Option Kind
  pub reply_status_token : Status → String
  pub reply_status_from_token : String → Option Status
  pub max_secret_bytes : ℕ
  pub unknown_interface : String
  pub kind_from_token-kind_token : (k : Kind) → kind_from_token (kind_token k) ≡ some k
  pub reply_status_from_token-reply_status_token :
      (s : Status) → reply_status_from_token (reply_status_token s) ≡ some s
  pub error-ne-ok : error ≢ ok
  pub unauthorized-ne-ok : unauthorized ≢ ok
