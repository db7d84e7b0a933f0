-- ===== src/Protocol/Display/Separators.antt =====
-- A neutralised name holds none of the fourteen separators, at no position.
use libre_darwin.Base.{
  ℕ, zero, suc, ◌≤◌, ◌≡◌, ◌≢◌, refl, List, [], ◌∷◌, ◌++◌, none, some, arith, length, All, ltb,
  Option-cases, inl, inr, Bool-cases,
}
use libre_darwin.Protocol.Display.{
  Bytes, blank_controls, strip_prefix, collapse_from, collapse, collapse_all, separators, take,
  cut_back, ellipsis, elide, max_bytes, neutralize_display_name,
}

-- `sep` begins at no position of the text.
abbrev pub IsFree : Bytes → Bytes → Type 0
IsFree sep [] = Unit {0}
IsFree sep (u ∷ name) = (strip_prefix sep (u ∷ name) ≡ none) × IsFree sep name

-- What the proofs use of a separator: no space in it, its first byte is not repeated behind it, and it
-- neither is nor ends the ellipsis.
abbrev IsSeparator : Bytes → Type 0
IsSeparator [] = ⊥
IsSeparator (s ∷ sep) =
    (s ≢ 0x20) × All (λ u. u ≢ 0x20) sep × All (λ u. u ≢ 0xe2) sep × IsFree (s ∷ sep) ellipsis

separators-IsSeparator : All IsSeparator separators
unfolding strip_prefix
separators-IsSeparator = ground arith

-- Past a prefix the text stays free of it.
IsFree-strip_prefix :
    (sep pre name rest : Bytes)
    → IsFree sep name
    → strip_prefix pre name ≡ some rest
    → IsFree sep rest
unfolding strip_prefix
IsFree-strip_prefix sep [] name rest h e = ground arith
IsFree-strip_prefix sep (s ∷ pre) [] rest h e = cc
IsFree-strip_prefix sep (s ∷ pre) (u ∷ name) rest h e =
    IsFree-strip_prefix sep pre name rest h.1 (ground arith)

-- A prefix with no space in it is not made by a collapse.
strip_prefix-collapse_from :
    (fuel : ℕ) (sep pre name : Bytes)
    → All (λ u. u ≢ 0x20) pre
    → strip_prefix pre name ≡ none
    → strip_prefix pre (collapse_from fuel sep name) ≡ none
unfolding strip_prefix collapse_from
strip_prefix-collapse_from zero sep pre name h e = e
strip_prefix-collapse_from (suc fuel) sep [] name h e = cc
strip_prefix-collapse_from (suc fuel) sep (s ∷ pre) [] h e = refl
strip_prefix-collapse_from (suc fuel) sep (s ∷ pre) (u ∷ name) h e =
    ground (arith, h.0, strip_prefix-collapse_from fuel sep pre name h.1)

space_free : (s : ℕ) (pre name : Bytes) → s ≢ 0x20 → strip_prefix (s ∷ pre) (0x20 ∷ name) ≡ none
unfolding strip_prefix
space_free s pre name h = ground arith

length-strip_prefix-le :
    (sep name rest : Bytes) → strip_prefix sep name ≡ some rest → length rest ≤ length name
unfolding strip_prefix
length-strip_prefix-le [] name rest e = ground arith
length-strip_prefix-le (s ∷ sep) [] rest e = cc
length-strip_prefix-le (s ∷ sep) (u ∷ name) rest e =
    omega (arith, length-strip_prefix-le sep name rest (ground arith))

length-strip_prefix :
    (s : ℕ) (sep : Bytes) (u : ℕ) (name rest : Bytes)
    → strip_prefix (s ∷ sep) (u ∷ name) ≡ some rest
    → length rest ≤ length name
unfolding strip_prefix
length-strip_prefix s sep u name rest e = length-strip_prefix-le sep name rest (ground arith)

IsFree-collapse_from :
    (s : ℕ) (pre : Bytes) (fuel : ℕ) (sep name : Bytes)
    → All (λ u. u ≢ 0x20) (s ∷ pre)
    → IsFree (s ∷ pre) name
    → IsFree (s ∷ pre) (collapse_from fuel sep name)
unfolding collapse_from
IsFree-collapse_from s pre zero sep name p h = h
IsFree-collapse_from s pre (suc fuel) sep [] p h = tt
IsFree-collapse_from s pre (suc fuel) sep (u ∷ name) p h =
    elim (Option-cases (strip_prefix sep (u ∷ name))) [
      | inl e ↦
          rw (e, collapse_from)
            (
              rw (e, collapse_from) at
                  (strip_prefix-collapse_from (suc fuel) sep (s ∷ pre) (u ∷ name) p h.0),
              IsFree-collapse_from s pre fuel sep name p h.1,
            )
      | inr (rest, e) ↦
          rw (e, collapse_from)
            (
              space_free s pre (collapse_from fuel sep rest) p.0,
              IsFree-collapse_from s pre fuel sep rest p
                  (IsFree-strip_prefix (s ∷ pre) sep (u ∷ name) rest h e),
            )
    ]

-- A collapse leaves none of what it looks for: enough fuel is the length.
collapse_from-IsFree :
    (s : ℕ) (sep : Bytes) (fuel : ℕ) (name : Bytes)
    → All (λ u. u ≢ 0x20) (s ∷ sep)
    → length name ≤ fuel
    → IsFree (s ∷ sep) (collapse_from fuel (s ∷ sep) name)
unfolding collapse_from
collapse_from-IsFree s sep zero [] p h = tt
collapse_from-IsFree s sep (suc fuel) [] p h = tt
collapse_from-IsFree s sep zero (u ∷ name) p h = absurd (omega arith)
collapse_from-IsFree s sep (suc fuel) (u ∷ name) p h =
    elim (Option-cases (strip_prefix (s ∷ sep) (u ∷ name))) [
      | inl e ↦
          rw (e, collapse_from)
            (
              rw (e, collapse_from) at
                  (strip_prefix-collapse_from (suc fuel) (s ∷ sep) (s ∷ sep) (u ∷ name) p e),
              collapse_from-IsFree s sep fuel name p (omega arith),
            )
      | inr (rest, e) ↦
          rw (e, collapse_from)
            (
              space_free s sep (collapse_from fuel (s ∷ sep) rest) p.0,
              collapse_from-IsFree s sep fuel rest p
                  (omega (arith, length-strip_prefix s sep u name rest e)),
            )
    ]

collapse-IsFree_self : (sep name : Bytes) → IsSeparator sep → IsFree sep (collapse sep name)
unfolding collapse
collapse-IsFree_self [] name q = absurd q
collapse-IsFree_self (s ∷ sep) name q =
    collapse_from-IsFree s sep (length name) name (q.0, q.1) (omega arith)

collapse_all-IsFree_of :
    (sep : Bytes) (seps : List Bytes) (name : Bytes)
    → IsSeparator sep
    → IsFree sep name
    → IsFree sep (collapse_all seps name)
unfolding collapse_all
collapse_all-IsFree_of sep [] name q h = h
collapse_all-IsFree_of [] (d ∷ seps) name q h = absurd q
collapse_all-IsFree_of (s ∷ sep) (d ∷ seps) name q h =
    collapse_all-IsFree_of (s ∷ sep) seps _ q
      (IsFree-collapse_from s sep (length name) d name (q.0, q.1) h)

collapse_all-IsFree :
    (seps : List Bytes) (name : Bytes)
    → All IsSeparator seps
    → All (λ sep. IsFree sep (collapse_all seps name)) seps
unfolding collapse_all
collapse_all-IsFree [] name q = tt
collapse_all-IsFree (d ∷ seps) name q = (
  collapse_all-IsFree_of d seps (collapse d name) q.0 (collapse-IsFree_self d name q.0),
  collapse_all-IsFree seps (collapse d name) q.1,
)

-- Behind its first byte a separator does not run into the ellipsis.
strip_prefix-take :
    (n : ℕ) (pre name : Bytes)
    → All (λ u. u ≢ 0xe2) pre
    → strip_prefix pre name ≡ none
    → strip_prefix pre (take n name ++ ellipsis) ≡ none
unfolding strip_prefix
strip_prefix-take n [] name h e = cc
strip_prefix-take zero (s ∷ pre) name h e = ground (arith, h.0)
strip_prefix-take (suc n) (s ∷ pre) [] h e = ground (arith, h.0)
strip_prefix-take (suc n) (s ∷ pre) (u ∷ name) h e =
    ground (arith, strip_prefix-take n pre name h.1)

IsFree-take :
    (sep : Bytes) (n : ℕ) (name : Bytes)
    → IsSeparator sep
    → IsFree sep name
    → IsFree sep (take n name ++ ellipsis)
unfolding strip_prefix
IsFree-take [] n name q h = absurd q
IsFree-take (s ∷ sep) zero name q h = q.3
IsFree-take (s ∷ sep) (suc n) [] q h = q.3
IsFree-take (s ∷ sep) (suc n) (u ∷ name) q h =
    (ground (arith, strip_prefix-take n sep name q.2), IsFree-take (s ∷ sep) n name q h.1)

elide-IsFree :
    (seps : List Bytes) (name : Bytes)
    → All IsSeparator seps
    → All (λ sep. IsFree sep name) seps
    → All (λ sep. IsFree sep (elide name)) seps
unfolding elide
elide-IsFree [] name q h = tt
elide-IsFree (d ∷ seps) name q h = elim (Bool-cases (ltb max_bytes (length name))) [
  | inl e ↦
      (rw e (IsFree-take d (cut_back name max_bytes) name q.0 h.0), elide-IsFree seps name q.1 h.1)
  | inr e ↦ (rw e h.0, elide-IsFree seps name q.1 h.1)
]

-- Whatever the name, none of the fourteen line separators and direction marks is in what is shown, not
-- even one that a replacement or the cut would have put together.
pub neutralize_display_name-IsFree :
    (name : Bytes) → All (λ sep. IsFree sep (neutralize_display_name name)) separators
unfolding neutralize_display_name
neutralize_display_name-IsFree name =
    elide-IsFree separators _ separators-IsSeparator
      (collapse_all-IsFree separators (blank_controls name) separators-IsSeparator)
