-- ===== src/Protocol/Fields.antt =====
-- The fields of a message in its CBOR map: how wire/PrompterProtocol.cpp writes one (`put_text`,
-- `put_uint`, `put_texts`: nothing for the empty value) and how it reads one back.
pub mod Laws
use libre_darwin.Base.{
  ℕ, ◌≤◌, ◌%◌, ◌^◌, String, Option, none, some, List, [], ◌∷◌, map, Bool, ◌==◌, leb, str_eq,
  if◌then◌else◌, length, Expected, value, unexpected, ◌>>=◌, or_fail,
}
use libre_darwin.Wire.{Cbor}
use libre_darwin.Wire.Maps.{Map, find, emplace}
use libre_darwin.Protocol.Messages.{
  PrompterParseError, not_decodable, not_a_map, missing_field, wrong_type, secret_too_large,
  prompter_protocol_version,
}

abbrev pub Parsed {ℓ} : Type ℓ → Type ℓ
Parsed A = Expected PrompterParseError A

-- `static_cast<std::uint32_t>`
abbrev pub to_uint32 : ℕ → ℕ
to_uint32 n = n % 2 ^ 32

module _ (c : Cbor) where
  open c use {Value, text, uint, bytes, array, as_text, as_uint, as_bytes, as_array, as_map, decode}

  pub put_text : String → String → Map Value → Map Value
  put_text k s m = if str_eq s "" then m else emplace k (text s) m

  pub put_uint : String → ℕ → Map Value → Map Value
  put_uint k n m = if n == 0 then m else emplace k (uint n) m

  -- `for (const auto& a : r.artifacts) arr.push_back(CborValue(a));`
  pub put_texts : String → List String → Map Value → Map Value
  put_texts k [] m = m
  put_texts k (s ∷ ss) m = emplace k (array (map text (s ∷ ss))) m

  pub emplace_version : Map Value → Map Value
  emplace_version m = emplace "v" (uint prompter_protocol_version) m

  pub top_map : c.Body → Parsed (Map Value)
  top_map body = do v ← or_fail (decode body) not_decodable; or_fail (as_map v) not_a_map

  -- `it == m.end() || it->second.asText() == nullptr` in one option.
  unfoldable pub find_text : Map Value → String → Option String
  find_text m k = elim (find k m) [ none ↦ none | some v ↦ as_text v ]

  unfoldable pub opt_text : Map Value → String → Option String
  opt_text m k = elim (find k m) [ none ↦ some "" | some v ↦ as_text v ]

  pub opt_uint : Map Value → String → Option ℕ
  opt_uint m k = elim (find k m) [ none ↦ some 0 | some v ↦ as_uint v ]

  -- The loop over an array's items: `nullopt` at the first that is no text.
  pub texts : List Value → Option (List String)
  texts [] = some []
  texts (v ∷ vs) =
      let rest = texts vs in
      elim (as_text v) [
        | none ↦ none
        | some s ↦ elim rest [ none ↦ none | some ss ↦ some (s ∷ ss) ]
      ]

  pub opt_string_array : Map Value → String → Option (List String)
  unfolding texts
  opt_string_array m k = elim (find k m) [
    | none ↦ some []
    | some v ↦ elim (as_array v) [ none ↦ none | some vs ↦ texts vs ]
  ]

  unfoldable pub opt_announced_version : Map Value → Parsed (Option ℕ)
  opt_announced_version m = elim (find "v" m) [
    | none ↦ value none
    | some v ↦ elim (as_uint v) [ none ↦ unexpected wrong_type | some n ↦ value (some n) ]
  ]

  -- `std::numeric_limits<std::uint32_t>::max()` is the greatest number that passes.
  narrow_version : Option ℕ → Parsed (Option ℕ)
  narrow_version none = value none
  narrow_version (some n) =
      if leb n 0xffffffff then value (some (to_uint32 n)) else unexpected wrong_type

  unfoldable pub opt_reply_version : Map Value → Parsed (Option ℕ)
  unfolding opt_announced_version narrow_version
  opt_reply_version m = do announced ← opt_announced_version m; narrow_version announced

  -- The cap is judged before the bytes are copied.
  unfoldable pub required_secret : ℕ → Map Value → String → Parsed (List ℕ)
  required_secret max_secret_bytes m k = elim (find k m) [
    | none ↦ unexpected missing_field
    | some v ↦ elim (as_bytes v) [
      | none ↦ unexpected missing_field
      | some b ↦ if leb (length b) max_secret_bytes then value b else unexpected secret_too_large
    ]
  ]
