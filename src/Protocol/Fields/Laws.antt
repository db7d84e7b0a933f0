-- ===== src/Protocol/Fields/Laws.antt =====
-- What a map holds after a field was written, and that a field reads back as it was written.
use libre_darwin.Base.{
  ℕ, ◌<◌, ◌^◌, ◌≡◌, refl, String, Option, none, some, List, [], ◌∷◌, map, arith, str_eq, eq_iff,
  ◌==◌, if◌then◌else◌, value, or_else, or_else-none,
}
use libre_darwin.Wire.{Cbor}
use libre_darwin.Wire.Maps.{Map, find, emplace, find-emplace}
use libre_darwin.Protocol.Messages.{prompter_protocol_version}
use libre_darwin.Protocol.Fields.{
  put_text, put_uint, put_texts, emplace_version, find_text, opt_text, opt_uint, opt_string_array,
  texts, top_map, opt_announced_version,
}

module _ (c : Cbor) where
  open c use {
    Value, text, uint, array, as_text, as_uint, as_array, as_text-text, as_uint-uint,
    as_array-array,
  }

  -- What the three writers leave under their key.
  pub shown_text : String → Option Value
  shown_text s = if str_eq s "" then none else some (text s)

  pub shown_uint : ℕ → Option Value
  shown_uint n = if n == 0 then none else some (uint n)

  pub shown_texts : List String → Option Value
  shown_texts [] = none
  shown_texts (s ∷ ss) = some (array (map text (s ∷ ss)))

  pub find-put_text :
      (j k s : String) (m : Map Value)
      → find j (put_text c k s m) ≡ or_else (find j m) (if str_eq k j then shown_text s else none)
  unfolding put_text shown_text
  find-put_text j k s m = ground (arith, find-emplace j k (text s) m, or_else-none (find j m))

  pub find-put_uint :
      (j k : String) (n : ℕ) (m : Map Value)
      → find j (put_uint c k n m) ≡ or_else (find j m) (if str_eq k j then shown_uint n else none)
  unfolding put_uint shown_uint
  find-put_uint j k n m = ground (arith, find-emplace j k (uint n) m, or_else-none (find j m))

  pub find-put_texts :
      (j k : String) (ss : List String) (m : Map Value)
      → find j (put_texts c k ss m)
        ≡ or_else (find j m) (if str_eq k j then shown_texts ss else none)
  unfolding put_texts shown_texts
  find-put_texts j k [] m = ground (arith, or_else-none (find j m))
  find-put_texts j k (s ∷ ss) m = find-emplace j k (array (map text (s ∷ ss))) m

  pub find-emplace_version :
      (j : String) (m : Map Value)
      → find j (emplace_version c m)
        ≡ or_else (find j m) (if str_eq "v" j then some (uint prompter_protocol_version) else none)
  unfolding emplace_version
  find-emplace_version j m = find-emplace j "v" (uint prompter_protocol_version) m

  pub ruleset finds = (
    find-put_text, find-put_uint, find-put_texts, find-emplace_version, find-emplace, or_else-none,
  )

  pub opt_text-shown_text :
      (m : Map Value) (k s : String) → find k m ≡ shown_text s → opt_text c m k ≡ some s
  unfolding opt_text shown_text
  opt_text-shown_text m k s h = ground (arith, as_text-text s, eq_iff s "")

  pub opt_uint-shown_uint :
      (m : Map Value) (k : String) (n : ℕ)
      → find k m ≡ shown_uint n
      → n < 2 ^ 64
      → opt_uint c m k ≡ some n
  unfolding opt_uint shown_uint
  opt_uint-shown_uint m k n h b = ground (arith, as_uint-uint n)

  texts-map_text : (ss : List String) → texts c (map text ss) ≡ some ss
  unfolding texts
  texts-map_text [] = refl
  texts-map_text (s ∷ ss) = ground (arith, as_text-text s, texts-map_text ss)

  pub opt_string_array-shown_texts :
      (m : Map Value) (k : String) (ss : List String)
      → find k m ≡ shown_texts ss
      → opt_string_array c m k ≡ some ss
  unfolding opt_string_array shown_texts
  opt_string_array-shown_texts m k [] h = ground arith
  opt_string_array-shown_texts m k (s ∷ ss) h =
      ground (arith, as_array-array (map text (s ∷ ss)), texts-map_text (s ∷ ss))

  pub find_text-text :
      (m : Map Value) (k s : String) → find k m ≡ some (text s) → find_text c m k ≡ some s
  unfolding find_text
  find_text-text m k s h = ground (arith, as_text-text s)

  pub top_map-encode : (m : Map Value) → top_map c (c.encode (c.of_map m)) ≡ value m
  unfolding top_map
  top_map-encode m = rw (c.decode-encode (c.of_map m), c.as_map-of_map m)

  pub opt_announced_version-uint :
      (m : Map Value) (n : ℕ)
      → n < 2 ^ 64
      → find "v" m ≡ some (uint n)
      → opt_announced_version c m ≡ value (some n)
  unfolding opt_announced_version
  opt_announced_version-uint m n b h = ground (arith, as_uint-uint n)
