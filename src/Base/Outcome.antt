-- ===== src/Base/Outcome.antt =====
-- Python code that may raise: `Result`.
use mathlib.Core.Path.{◌≡◌, refl}
use mathlib.Core.Bool.{Bool, true, false}

pub data Result (E A : Type 0) : Type 0 where
  err : E → Result E A
  ok : A → Result E A

-- `if not test: raise error`
abbrev pub require : {E : Type 0} → Bool → E → Result E (Unit {0})
require test failure = elim test [ false ↦ err failure | true ↦ ok tt ]

infixl 5 ◌>>◌ ◌>>=◌
abbrev pub ◌>>=◌ : {E A B : Type 0} → Result E A → (A → Result E B) → Result E B
attempt >>= next = elim attempt [ err failure ↦ err failure | ok value ↦ next value ]

abbrev pub ◌>>◌ : {E B : Type 0} → Result E (Unit {0}) → Result E B → Result E B
check >> rest = check >>= λ passed. rest

-- A chain that returns has a first part that returns.
pub >>=-eq-ok :
    {E A B : Type 0} (attempt : Result E A) (next : A → Result E B) {final : B}
    → (attempt >>= next) ≡ ok final
    → (value : A) × (attempt ≡ ok value) × (next value ≡ ok final)
>>=-eq-ok (err failure) next chain = cc
>>=-eq-ok (ok value) next chain = (value, refl, chain)

pub Result-cases :
    {E A : Type 0} (r : Result E A)
    → mathlib.Core.Logic.◌⊎◌ ((a : A) × (r ≡ ok a)) ((e : E) × (r ≡ err e))
Result-cases (ok a) = mathlib.Core.Logic.inl (a, refl)
Result-cases (err e) = mathlib.Core.Logic.inr (e, refl)

pub ok-injective : {E A : Type 0} {a b : A} → ◌≡◌ {A = Result E A} (ok a) (ok b) → a ≡ b
ok-injective h = cc

-- A guarded chain that returns has passed its guard.
pub require-eq-ok :
    {E A : Type 0} (test : Bool) (failure : E) (next : Result E A) {final : A}
    → (require test failure >> next) ≡ ok final
    → (test ≡ true) × (next ≡ ok final)
require-eq-ok true failure next chain = (refl, chain)
require-eq-ok false failure next chain = cc
