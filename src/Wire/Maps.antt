-- ===== src/Wire/Maps.antt =====
-- `CborValue::Map`, a `std::map` with text keys, as its entries in key order.
use Prim.Native.String.{compare}
use text.Mathlib.Text.{is_lt}
use libre_darwin.Base.{
  ◌≡◌, refl, Bool, String, Option, none, some, List, [], ◌∷◌, arith, str_eq, eq_iff, if◌then◌else◌,
  is_some, or_else,
}

abbrev pub Map {ℓ} : Type ℓ → Type ℓ
Map V = List (String × V)

module _ {ℓ} {V : Type ℓ} where
  unfoldable pub find : String → Map V → Option V
  find k [] = none
  find k ((j, v) ∷ m) = if str_eq j k then some v else find k m

  abbrev pub contains : String → Map V → Bool
  contains k m = is_some (find k m)

  -- Before the first greater key.
  insert_sorted : String → V → Map V → Map V
  insert_sorted k v [] = (k, v) ∷ []
  insert_sorted k v ((j, w) ∷ m) =
      if is_lt (compare k j) then (k, v) ∷ (j, w) ∷ m else (j, w) ∷ insert_sorted k v m

  -- A key that is there keeps its value.
  pub emplace : String → V → Map V → Map V
  unfolding insert_sorted find
  emplace k v m = elim (find k m) [ none ↦ insert_sorted k v m | some w ↦ m ]

  find-insert_sorted :
      (j k : String) (v : V) (m : Map V)
      → find k m ≡ none
      → find j (insert_sorted k v m) ≡ or_else (find j m) (if str_eq k j then some v else none)
  unfolding find insert_sorted
  find-insert_sorted j k v [] h = refl
  find-insert_sorted j k v ((i, w) ∷ m) h =
      ground (arith, eq_iff i k, eq_iff i j, eq_iff k j, find-insert_sorted j k v m)

  pub find-emplace :
      (j k : String) (v : V) (m : Map V)
      → find j (emplace k v m) ≡ or_else (find j m) (if str_eq k j then some v else none)
  unfolding emplace
  find-emplace j k v m = ground (arith, find-insert_sorted j k v m, eq_iff k j)
