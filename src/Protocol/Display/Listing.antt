-- ===== src/Protocol/Display/Listing.antt =====
-- The consent list has one line for each name shown, and counts the others.
use libre_darwin.Base.{
  ℕ, zero, suc, ◌+◌, ◌-◌, ◌≤◌, ◌≡◌, refl, sym, ◌∙◌, ap, List, [], ◌∷◌, ◌++◌, arith, length, All,
  All-append, if◌then◌else◌, ◌==◌,
}
use mathlib.Core.List.{append_assoc, append-nil}
use libre_darwin.Protocol.Display.{
  Bytes, bullet, new_line, shown_count, append_lines, format_untrusted_artifact_list,
  neutralize_display_name,
}
use libre_darwin.Protocol.Display.Neutral.{IsPlain, neutralize_display_name-IsPlain}

-- One line of the list.
pub line : Bytes → Bytes
line name = bullet ++ neutralize_display_name name

-- The lines of the first names, in order.
abbrev pub lines : ℕ → List Bytes → List Bytes
lines zero names = []
lines (suc n) [] = []
lines (suc n) (name ∷ names) = line name ∷ lines n names

-- A text cut at its line breaks.
abbrev add_to_first : ℕ → List Bytes → List Bytes
add_to_first u [] = (u ∷ []) ∷ []
add_to_first u (l ∷ ls) = (u ∷ l) ∷ ls

pub split_lines : Bytes → List Bytes
split_lines [] = [] ∷ []
split_lines (u ∷ text) =
    let rest = split_lines text in if u == 0x0a then [] ∷ rest else add_to_first u rest

abbrev join_more : List Bytes → Bytes
join_more [] = []
join_more (l ∷ ls) = 0x0a ∷ (l ++ join_more ls)

new_line-cons :
    (u : ℕ) (block more : Bytes) → new_line (u ∷ block) ++ more ≡ (u ∷ block) ++ 0x0a ∷ more
new_line-cons u block more = append_assoc (u ∷ block) (0x0a ∷ []) more

append_lines-join_more :
    (n : ℕ) (names : List Bytes) (u : ℕ) (block : Bytes)
    → append_lines n names (u ∷ block) ≡ (u ∷ block) ++ join_more (lines n names)
unfolding append_lines line
append_lines-join_more zero names u block = sym (append-nil (u ∷ block))
append_lines-join_more (suc n) [] u block = sym (append-nil (u ∷ block))
append_lines-join_more (suc n) (name ∷ names) u block =
    append_lines-join_more n names u ((block ++ 0x0a ∷ []) ++ line name) ∙ simp append_assoc

split_lines-append_plain :
    (l text : Bytes) (first : Bytes) (rest : List Bytes)
    → All IsPlain l
    → split_lines text ≡ first ∷ rest
    → split_lines (l ++ text) ≡ (l ++ first) ∷ rest
unfolding split_lines
split_lines-append_plain [] text first rest h e = e
split_lines-append_plain (u ∷ l) text first rest h e =
    ground (arith, h.0, split_lines-append_plain l text first rest h.1 e)

split_lines-join_more :
    (ls : List Bytes) → All (All IsPlain) ls → split_lines (join_more ls) ≡ [] ∷ ls
unfolding split_lines
split_lines-join_more [] h = refl
split_lines-join_more (l ∷ ls) h =
    rw (
      split_lines-append_plain l (join_more ls) [] ls h.0 (split_lines-join_more ls h.1),
      append-nil,
    )

line-IsPlain : (name : Bytes) → All IsPlain (line name)
unfolding line
line-IsPlain name =
    All-append IsPlain bullet (neutralize_display_name name)
      (refl, (refl, (refl, (refl, (refl, (refl, tt)))))) (neutralize_display_name-IsPlain name)

lines-IsPlain : (n : ℕ) (names : List Bytes) → All (All IsPlain) (lines n names)
lines-IsPlain zero names = tt
lines-IsPlain (suc n) [] = tt
lines-IsPlain (suc n) (name ∷ names) = (line-IsPlain name, lines-IsPlain n names)

append_lines-split :
    (n : ℕ) (name : Bytes) (names : List Bytes)
    → split_lines (append_lines (suc n) (name ∷ names) []) ≡ lines (suc n) (name ∷ names)
unfolding append_lines line
append_lines-split n name names =
    ap split_lines (append_lines-join_more n names 0x20 _)
    ∙ split_lines-append_plain (line name) (join_more (lines n names)) [] (lines n names)
        (line-IsPlain name) (split_lines-join_more (lines n names) (lines-IsPlain n names))
    ∙ rw append-nil

-- For a list of names that is not empty, the block cut at its line breaks is one line for each of the
-- first names, as many as the cap shows (all of them without one), and `omitted` is the number of the
-- rest: no name can add a line, hide one or run on into the next.
pub format_untrusted_artifact_list-lines :
    (name : Bytes) (names : List Bytes) (max_items : ℕ)
    → let list = format_untrusted_artifact_list (name ∷ names) max_items in
      let k = shown_count (suc (length names)) max_items in
      (split_lines list.block ≡ lines k (name ∷ names))
      × (list.omitted + k ≡ suc (length names))
      × (1 ≤ k)
unfolding format_untrusted_artifact_list
format_untrusted_artifact_list-lines name names max_items =
    let k = shown_count (suc (length names)) max_items in
    let pos : k ≡ suc (k - 1) = ground arith in
    (rw pos (append_lines-split (k - 1) name names), ground arith, ground arith)
