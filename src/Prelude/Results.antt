-- ===== src/Prelude/Results.antt =====
-- A Python call that may raise: its value, or the exception with its text.
use Prim.Native.String.{String}
use mathlib.Core.Path.{◌≡◌, refl}
use mathlib.Core.Logic.{◌⊎◌, inl, inr}
use mathlib.Core.Bool.{Bool, true, false}

pub data Exception : Type 0 where
  runtime_error : String → Exception
  value_error : String → Exception
  type_error : String → Exception
  permission_error : String → Exception
  attribute_error : String → Exception
  os_error : String → Exception
  invalid_signature : String → Exception

pub data Result {ℓ} (A : Type ℓ) : Type ℓ where
  ok : A → Result A
  raised : Exception → Result A

-- The next call runs only if the first one has returned.
abbrev pub ◌>>=◌ {ℓ₁ ℓ₂} :
    {Val : Type ℓ₁} → {Out : Type ℓ₂} → Result Val → (Val → Result Out) → Result Out
raised x >>= next = raised x
ok v >>= next = next v

abbrev pub ◌>>◌ {ℓ₁} : {Out : Type ℓ₁} → Result (Unit {0}) → Result Out → Result Out
first >> then_run = first >>= (λ done. then_run)

infixl 5 ◌>>=◌ ◌>>◌
-- `if b: raise e`
abbrev pub raise_if : Bool → Exception → Result (Unit {0})
raise_if true e = raised e
raise_if false e = ok tt

pub >>=-eq-ok {ℓ₁ ℓ₂} :
    {Val : Type ℓ₁}
    → {Out : Type ℓ₂} → (r : Result Val) → (next : Val → Result Out) → {out : Out}
    → r >>= next ≡ ok out
    → (v : Val) × (r ≡ ok v) × (next v ≡ ok out)
>>=-eq-ok (raised x) next e = absurd (cc)
>>=-eq-ok (ok v) next e = (v, refl, e)

pub Result-cases {ℓ} :
    {A : Type ℓ} (m : Result A) → ((a : A) × (m ≡ ok a)) ⊎ ((x : Exception) × (m ≡ raised x))
Result-cases (ok a) = inl (a, refl)
Result-cases (raised x) = inr (x, refl)

-- A check with an early return of (False, reason).
abbrev pub require : Bool → String → Result (Bool × String) → Result (Bool × String)
require true reason rest = rest
require false reason rest = ok (false, reason)

pub require-true :
    (b : Bool) (reason : String) (rest : Result (Bool × String)) {s : String}
    → require b reason rest ≡ ok (true, s)
    → (b ≡ true) × (rest ≡ ok (true, s))
require-true true reason rest h = (refl, h)
require-true false reason rest h = absurd (cc)

-- A sequence returns only if both parts do.
pub >>-eq-ok {ℓ} :
    {B : Type ℓ} (m : Result (Unit {0})) (k : Result B) {b : B}
    → (m >> k) ≡ ok b
    → (m ≡ ok tt) × (k ≡ ok b)
>>-eq-ok (ok tt) k h = (refl, h)
>>-eq-ok (raised e) k h = absurd (cc)

pub ok-injective {ℓ} : {A : Type ℓ} (a b : A) → ok a ≡ ok b → a ≡ b
ok-injective a b h = cc
