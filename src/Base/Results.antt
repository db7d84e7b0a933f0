-- ===== src/Base/Results.antt =====
-- `std::expected`: a value, or the error in its place; and `std::optional` as a result to chain.
use mathlib.Core.Path.{◌≡◌, refl, ap}
use mathlib.Core.Logic.{◌≢◌}
use mathlib.Core.Bool.{Bool, true, false}
use mathlib.Core.Option.{Option, none, some}

pub data Expected {ℓ κ} (E : Type ℓ) (A : Type κ) : Type (ℓ ⊔ κ) where
  value : A → Expected E A
  unexpected : E → Expected E A

infixl 5 ◌>>=◌ ◌>>◌
abbrev pub ◌>>=◌ {ℓ κ μ} :
    {E : Type ℓ} {A : Type κ} {B : Type μ} → Expected E A → (A → Expected E B) → Expected E B
value a >>= f = f a
unexpected e >>= f = unexpected e

abbrev pub ◌>>◌ {ℓ κ} :
    {E : Type ℓ} {B : Type κ} → Expected E (Unit {0}) → Expected E B → Expected E B
m >> k = m >>= λ _. k

-- `if (!test) return std::unexpected(e);`
abbrev pub require {ℓ} : {E : Type ℓ} → Bool → E → Expected E (Unit {0})
require true e = value tt
require false e = unexpected e

-- `if (!o) return std::unexpected(e);`, and the value from there on.
abbrev pub or_fail {ℓ κ} : {E : Type ℓ} {A : Type κ} → Option A → E → Expected E A
or_fail none e = unexpected e
or_fail (some a) e = value a

pub >>=-eq-value {ℓ κ μ} :
    {E : Type ℓ} {A : Type κ} {B : Type μ} (m : Expected E A) (f : A → Expected E B) {b : B}
    → (m >>= f) ≡ value b
    → (a : A) × (m ≡ value a) × (f a ≡ value b)
>>=-eq-value (value a) f h = (a, refl, h)
>>=-eq-value (unexpected e) f h = cc

pub or_fail-eq-value {ℓ κ} :
    {E : Type ℓ} {A : Type κ} (o : Option A) (e : E) {a : A} → or_fail o e ≡ value a → o ≡ some a
or_fail-eq-value none e h = cc
or_fail-eq-value (some a) e h = cc

pub value-injective {ℓ κ} :
    {E : Type ℓ} {A : Type κ} (a b : A) → ◌≡◌ {A = Expected E A} (value a) (value b) → a ≡ b
value-injective a b h = cc

-- An error that no step of a chain gives is not the chain's.
pub >>=-ne-unexpected {ℓ κ μ} :
    {E : Type ℓ} {A : Type κ} {B : Type μ} (m : Expected E A) (f : A → Expected E B) {e : E}
    → m ≢ unexpected e
    → ((a : A) → f a ≢ unexpected e)
    → (m >>= f) ≢ unexpected e
>>=-ne-unexpected (value a) f h k = k a
>>=-ne-unexpected (unexpected d) f h k = λ e. h (cc)

error_or {ℓ κ} : {E : Type ℓ} {A : Type κ} → E → Expected E A → E
error_or d (value a) = d
error_or d (unexpected e) = e

pub or_fail-ne-unexpected {ℓ κ} :
    {E : Type ℓ} {A : Type κ} (o : Option A) {d e : E} → d ≢ e → or_fail o d ≢ unexpected e
unfolding error_or
or_fail-ne-unexpected none {d} h e = h (ap (error_or d) e)
or_fail-ne-unexpected (some a) h e = cc
