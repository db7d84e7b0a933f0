-- ===== src/Transport/Maps.antt =====
-- A `std::map` or `std::unordered_map` whose keys are numbers, as a list of its entries. The order of
-- the entries is not the source's; nothing here depends on it.
use libre_darwin.Base.{
  ℕ, suc, ◌≤◌, length, ◌≡◌, ◌≢◌, refl, Bool, true, false, Option, none, some, List, [], ◌∷◌, arith,
  ◌==◌, if◌then◌else◌, ◌⊎◌, inl, inr, Bool-cases,
}

abbrev pub NumberMap {ℓ} : Type ℓ → Type ℓ
NumberMap V = List (ℕ × V)

module _ {ℓ} {V : Type ℓ} where
  unfoldable pub lookup : ℕ → NumberMap V → Option V
  lookup k [] = none
  lookup k ((j, v) ∷ m) = let rest = lookup k m in if j == k then some v else rest

  -- `m.erase(k)`
  unfoldable pub erase : ℕ → NumberMap V → NumberMap V
  erase k [] = []
  erase k ((j, v) ∷ m) = let rest = erase k m in if j == k then rest else (j, v) ∷ rest

  -- `m[k] = v`, and `m.emplace(k, v)` for a key that is not there: in the place of the old value, or
  -- at the end.
  unfoldable pub assign : ℕ → V → NumberMap V → NumberMap V
  assign k v [] = (k, v) ∷ []
  assign k v ((j, w) ∷ m) = let rest = assign k v m in if j == k then (k, v) ∷ m else (j, w) ∷ rest

  pub lookup-erase :
      (j k : ℕ) (m : NumberMap V) → lookup j (erase k m) ≡ (if j == k then none else lookup j m)
  unfolding lookup erase
  lookup-erase j k [] = ground arith
  lookup-erase j k ((i, v) ∷ m) = ground (arith, lookup-erase j k m)

  pub lookup-assign :
      (j k : ℕ) (v : V) (m : NumberMap V)
      → lookup j (assign k v m) ≡ (if j == k then some v else lookup j m)
  unfolding lookup assign
  lookup-assign j k v [] = ground arith
  lookup-assign j k v ((i, w) ∷ m) = ground (arith, lookup-assign j k v m)

  -- A value that is found after an assignment is the new one at its key, or was there before.
  pub lookup-assign_cases :
      (j k : ℕ) (v : V) (m : NumberMap V) {w : V}
      → lookup j (assign k v m) ≡ some w
      → ((j ≡ k) × (v ≡ w)) ⊎ ((j ≢ k) × (lookup j m ≡ some w))
  lookup-assign_cases j k v m {w} h = elim (Bool-cases (j == k)) [
    | inl e ↦ inl (ground arith, found e)
    | inr e ↦ inr (ground arith, rw (lookup-assign j k v m, e) at h)
  ]
    where
      found : (j == k) ≡ true → v ≡ w
      found e = let q : some v ≡ some w = rw (lookup-assign j k v m, e) at h in cc

  -- What is found unless a test holds.
  pub some_of_unless :
      (b : Bool) (o : Option V) {v : V}
      → (if b then none else o) ≡ some v
      → (b ≡ false) × (o ≡ some v)
  some_of_unless true o h = cc
  some_of_unless false o h = (refl, h)

  pub length-assign_le : (k : ℕ) (v : V) (m : NumberMap V) → length (assign k v m) ≤ suc (length m)
  unfolding assign
  length-assign_le k v [] = omega arith
  length-assign_le k v ((j, w) ∷ m) = ground (arith, length-assign_le k v m)

  -- A key that is there is assigned in place.
  pub length-assign_found :
      (k : ℕ) (v : V) (m : NumberMap V) {w : V}
      → lookup k m ≡ some w
      → length (assign k v m) ≡ length m
  unfolding assign lookup
  length-assign_found k v [] h = cc
  length-assign_found k v ((j, x) ∷ m) {w} h = ground (arith, length-assign_found k v m {w = w})

  pub length-erase_le : (k : ℕ) (m : NumberMap V) → length (erase k m) ≤ length m
  unfolding erase
  length-erase_le k [] = omega arith
  length-erase_le k ((j, w) ∷ m) = ground (arith, length-erase_le k m)
