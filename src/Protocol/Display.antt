-- ===== src/Protocol/Display.antt =====
-- The batch-sign consent list (wire/PrompterProtocol.cpp: `neutralizeDisplayName` and
-- `formatUntrustedArtifactList`). A `std::string` is its bytes.
pub mod Neutral
pub mod Separators
pub mod Listing
use libre_darwin.Base.{
  ℕ, zero, suc, ◌-◌, ◌+◌, min, List, [], ◌∷◌, ◌++◌, Option, none, some, ite, Bool, true, false,
  ◌==◌, ltb, leb, ◌||◌, ◌&&◌, if◌then◌else◌, length, ◌≡◌, refl,
}

abbrev pub Bytes : Type 0
Bytes = List ℕ

-- `u < 0x20 || u == 0x7f`
abbrev pub is_control : ℕ → Bool
is_control u = ltb u 0x20 || u == 0x7f

-- The first loop: each control byte becomes a space.
pub blank_controls : Bytes → Bytes
blank_controls [] = []
blank_controls (u ∷ name) = (if is_control u then 0x20 else u) ∷ blank_controls name

-- The rest of the text after `sep`, where the text begins with it.
pub strip_prefix : Bytes → Bytes → Option Bytes
strip_prefix [] name = some name
strip_prefix (s ∷ sep) [] = none
strip_prefix (s ∷ sep) (u ∷ name) = if s == u then strip_prefix sep name else none

-- One pass of `find(sep, pos)` and `replace(pos, sep.size(), " ")` with `++pos`: each occurrence from
-- the left becomes a space, and the search goes on behind it. The fuel is the text's length.
pub collapse_from : ℕ → Bytes → Bytes → Bytes
unfolding strip_prefix
collapse_from zero sep name = name
collapse_from (suc fuel) sep [] = []
collapse_from (suc fuel) sep (u ∷ name) = elim (strip_prefix sep (u ∷ name)) [
  | none ↦ u ∷ collapse_from fuel sep name
  | some rest ↦ 0x20 ∷ collapse_from fuel sep rest
]

pub collapse : Bytes → Bytes → Bytes
unfolding collapse_from
collapse sep name = collapse_from (length name) sep name

-- U+2028, U+2029, U+0085, U+200E, U+200F, U+202A to U+202E, U+2066 to U+2069 in UTF-8.
abbrev pub separators : List Bytes
separators =
    (0xe2 ∷ 0x80 ∷ 0xa8 ∷ [])
    ∷ (0xe2 ∷ 0x80 ∷ 0xa9 ∷ [])
    ∷ (0xc2 ∷ 0x85 ∷ [])
    ∷ (0xe2 ∷ 0x80 ∷ 0x8e ∷ [])
    ∷ (0xe2 ∷ 0x80 ∷ 0x8f ∷ [])
    ∷ (0xe2 ∷ 0x80 ∷ 0xaa ∷ [])
    ∷ (0xe2 ∷ 0x80 ∷ 0xab ∷ [])
    ∷ (0xe2 ∷ 0x80 ∷ 0xac ∷ [])
    ∷ (0xe2 ∷ 0x80 ∷ 0xad ∷ [])
    ∷ (0xe2 ∷ 0x80 ∷ 0xae ∷ [])
    ∷ (0xe2 ∷ 0x81 ∷ 0xa6 ∷ [])
    ∷ (0xe2 ∷ 0x81 ∷ 0xa7 ∷ [])
    ∷ (0xe2 ∷ 0x81 ∷ 0xa8 ∷ [])
    ∷ (0xe2 ∷ 0x81 ∷ 0xa9 ∷ [])
    ∷ []

pub collapse_all : List Bytes → Bytes → Bytes
unfolding collapse
collapse_all [] name = name
collapse_all (sep ∷ seps) name = collapse_all seps (collapse sep name)

abbrev pub max_bytes : ℕ
max_bytes = 128

-- `(name[cut] & 0xC0) == 0x80`: a UTF-8 continuation byte.
abbrev pub is_continuation : ℕ → Bool
is_continuation u = leb 0x80 u && ltb u 0xc0

abbrev pub get_or : Bytes → ℕ → ℕ
get_or [] i = 0
get_or (u ∷ name) zero = u
get_or (u ∷ name) (suc i) = get_or name i

abbrev pub take : ℕ → Bytes → Bytes
take zero name = []
take (suc n) [] = []
take (suc n) (u ∷ name) = u ∷ take n name

-- `while (cut > 0 && continuation(name[cut])) --cut;`
pub cut_back : Bytes → ℕ → ℕ
cut_back name zero = zero
cut_back name (suc cut) =
    let back = cut_back name cut in
    if is_continuation (get_or name (suc cut)) then back else suc cut

-- U+2026
abbrev pub ellipsis : Bytes
ellipsis = 0xe2 ∷ 0x80 ∷ 0xa6 ∷ []

pub elide : Bytes → Bytes
unfolding cut_back
elide name =
    if ltb max_bytes (length name) then take (cut_back name max_bytes) name ++ ellipsis else name

pub neutralize_display_name : Bytes → Bytes
unfolding blank_controls collapse_all elide
neutralize_display_name name = elide (collapse_all separators (blank_controls name))

pub record UntrustedArtifactList : Type 0 where
  pub block : Bytes
  pub omitted : ℕ

-- Two spaces, U+2022 and a space.
abbrev pub bullet : Bytes
bullet = 0x20 ∷ 0x20 ∷ 0xe2 ∷ 0x80 ∷ 0xa2 ∷ 0x20 ∷ []

-- `if (!out.block.empty()) out.block += "\n";`
abbrev pub new_line : Bytes → Bytes
new_line [] = []
new_line (u ∷ block) = (u ∷ block) ++ 0x0a ∷ []

-- The loop over the first `shown` names, with `out.block` so far.
pub append_lines : ℕ → List Bytes → Bytes → Bytes
append_lines zero names block = block
append_lines (suc n) [] block = block
append_lines (suc n) (name ∷ names) block =
    append_lines n names (new_line block ++ (bullet ++ neutralize_display_name name))

abbrev pub shown_count : ℕ → ℕ → ℕ
shown_count count max_items = if max_items == 0 then count else min count max_items

pub format_untrusted_artifact_list : List Bytes → ℕ → UntrustedArtifactList
unfolding append_lines
format_untrusted_artifact_list names max_items = record {
  block = append_lines (shown_count (length names) max_items) names [];
  omitted = length names - shown_count (length names) max_items;
}
