-- ===== src/Protocol/Display/Neutral.antt =====
-- A neutralised name holds no control byte and is bounded in length.
use libre_darwin.Base.{
  ℕ, zero, suc, ◌≤◌, ◌≡◌, refl, List, [], ◌∷◌, some, arith, false, length, length-append, All,
  All-append, ltb, Option-cases, inl, inr, Bool-cases,
}
use libre_darwin.Protocol.Display.{
  Bytes, is_control, blank_controls, strip_prefix, collapse_from, collapse_all, separators, take,
  cut_back, ellipsis, elide, max_bytes, neutralize_display_name,
}

-- What holds of every byte of a text holds of every byte behind a prefix of it.
pub All-strip_prefix :
    (P : ℕ → Type 0) (sep name rest : Bytes)
    → All P name
    → strip_prefix sep name ≡ some rest
    → All P rest
unfolding strip_prefix
All-strip_prefix P [] name rest h e = ground arith
All-strip_prefix P (s ∷ sep) [] rest h e = cc
All-strip_prefix P (s ∷ sep) (u ∷ name) rest h e =
    All-strip_prefix P sep name rest h.1 (ground arith)

All-collapse_from :
    (P : ℕ → Type 0)
    → P 0x20
    → (fuel : ℕ) (sep name : Bytes) → All P name
    → All P (collapse_from fuel sep name)
unfolding collapse_from
All-collapse_from P p zero sep name h = h
All-collapse_from P p (suc fuel) sep [] h = tt
All-collapse_from P p (suc fuel) sep (u ∷ name) h =
    elim (Option-cases (strip_prefix sep (u ∷ name))) [
      | inl e ↦ rw (e, collapse_from) (h.0, All-collapse_from P p fuel sep name h.1)
      | inr (rest, e) ↦
          rw (e, collapse_from)
            (p, All-collapse_from P p fuel sep rest (All-strip_prefix P sep (u ∷ name) rest h e))
    ]

All-collapse_all :
    (P : ℕ → Type 0)
    → P 0x20
    → (seps : List Bytes) (name : Bytes) → All P name
    → All P (collapse_all seps name)
unfolding collapse_all
All-collapse_all P p [] name h = h
All-collapse_all P p (sep ∷ seps) name h =
    All-collapse_all P p seps _ (All-collapse_from P p (length name) sep name h)

All-take : (P : ℕ → Type 0) (n : ℕ) (name : Bytes) → All P name → All P (take n name)
All-take P zero name h = tt
All-take P (suc n) [] h = tt
All-take P (suc n) (u ∷ name) h = (h.0, All-take P n name h.1)

abbrev pub IsPlain : ℕ → Type 0
IsPlain u = is_control u ≡ false

blank_controls-IsPlain : (name : Bytes) → All IsPlain (blank_controls name)
unfolding blank_controls
blank_controls-IsPlain [] = tt
blank_controls-IsPlain (u ∷ name) = (ground arith, blank_controls-IsPlain name)

elide-All : (P : ℕ → Type 0) → All P ellipsis → (name : Bytes) → All P name → All P (elide name)
unfolding elide
elide-All P p name h = elim (Bool-cases (ltb max_bytes (length name))) [
  | inl e ↦
      rw e (All-append P (take (cut_back name max_bytes) name) ellipsis (All-take P _ name h) p)
  | inr e ↦ rw e h
]

-- Whatever the name, no byte of what is shown is a control byte, a line break among them.
pub neutralize_display_name-IsPlain : (name : Bytes) → All IsPlain (neutralize_display_name name)
unfolding neutralize_display_name
neutralize_display_name-IsPlain name =
    elide-All IsPlain (refl, (refl, (refl, tt))) _
      (All-collapse_all IsPlain refl separators _ (blank_controls-IsPlain name))

length-take-le : (n : ℕ) (name : Bytes) → length (take n name) ≤ n
length-take-le zero name = omega arith
length-take-le (suc n) [] = omega arith
length-take-le (suc n) (u ∷ name) = omega (arith, length-take-le n name)

cut_back-le : (name : Bytes) (cut : ℕ) → cut_back name cut ≤ cut
unfolding cut_back
cut_back-le name zero = omega arith
cut_back-le name (suc cut) = ground (arith, cut_back-le name cut)

length-elide-le : (name : Bytes) → length (elide name) ≤ 131
unfolding elide
length-elide-le name = ground (
  arith,
  length-append (take (cut_back name max_bytes) name) ellipsis,
  length-take-le (cut_back name max_bytes) name,
  cut_back-le name max_bytes,
)

-- What is shown has at most 128 bytes and the three of the ellipsis.
pub length-neutralize_display_name-le : (name : Bytes) → length (neutralize_display_name name) ≤ 131
unfolding neutralize_display_name
length-neutralize_display_name-le name =
    length-elide-le (collapse_all separators (blank_controls name))
