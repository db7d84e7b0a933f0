-- ===== src/Frontend/Values.antt =====
-- The values of a map with numbers as keys, under the map's operations.
use libre_darwin.Base.{
  ℕ, ◌≡◌, some, [], ◌∷◌, Bool, false, ◌==◌, if-either, Bool-cases, inl, inr, subst,
}
use libre_darwin.Transport.Maps.{NumberMap, lookup, assign, erase}
use libre_darwin.Frontend.Records.{erase_if}

module _ {A : Type 0} where
  -- Every value of a map.
  abbrev pub AllValues : (A → Type 0) → NumberMap A → Type 0
  AllValues P [] = Unit
  AllValues P ((k, v) ∷ m) = P v × AllValues P m

  pub AllValues-assign :
      (P : A → Type 0) (k : ℕ) (v : A) (m : NumberMap A)
      → P v
      → AllValues P m
      → AllValues P (assign k v m)
  unfolding assign
  AllValues-assign P k v [] p h = (p, tt)
  AllValues-assign P k v ((j, w) ∷ m) p (q, h) =
      if-either (AllValues P) (j == k) _ _ (p, h) (q, AllValues-assign P k v m p h)

  pub AllValues-erase :
      (P : A → Type 0) (k : ℕ) (m : NumberMap A) → AllValues P m → AllValues P (erase k m)
  unfolding erase
  AllValues-erase P k [] h = tt
  AllValues-erase P k ((j, w) ∷ m) (q, h) =
      if-either (AllValues P) (j == k) _ _ (AllValues-erase P k m h) (q, AllValues-erase P k m h)

  pub AllValues-erase_if :
      (P : A → Type 0) (p : A → Bool) (m : NumberMap A) → AllValues P m → AllValues P (erase_if p m)
  unfolding erase_if
  AllValues-erase_if P p [] h = tt
  AllValues-erase_if P p ((j, w) ∷ m) (q, h) =
      if-either (AllValues P) (p w) _ _ (AllValues-erase_if P p m h) (q, AllValues-erase_if P p m h)

  -- What is left of a map fails the test.
  pub AllValues-left :
      (p : A → Bool) (m : NumberMap A) → AllValues (λ v. p v ≡ false) (erase_if p m)
  unfolding erase_if
  AllValues-left p [] = tt
  AllValues-left p ((j, w) ∷ m) = elim (Bool-cases (p w)) [
    | inl e ↦ rw e (AllValues-left p m)
    | inr e ↦ rw e (e, AllValues-left p m)
  ]

  pub AllValues-lookup :
      (P : A → Type 0) (k : ℕ) (m : NumberMap A)
      → AllValues P m
      → (v : A) → lookup k m ≡ some v
      → P v
  unfolding lookup
  AllValues-lookup P k [] h v e = cc
  AllValues-lookup P k ((j, w) ∷ m) (q, h) v e = elim (Bool-cases (j == k)) [
    | inl f ↦ let same : some w ≡ some v = rw f at e in subst P (cc) q
    | inr f ↦ AllValues-lookup P k m h v (rw f at e)
  ]
