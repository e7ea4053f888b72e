-- ===== src/Base/Results.antt =====
-- `authority::Error` and results that carry it. A code is one of the program's literals; the
-- detail is the text printed after it.
use mathlib.Core.Path.{◌≡◌, refl}
use mathlib.Core.Bool.{Bool, true, false}
use mathlib.Core.Option.{Option, none, some}
use Prim.Native.String.{String}
use mathlib.Core.Logic.{◌⊎◌, inl, inr}

pub record Error : Type 0 where
  pub code : String
  pub detail : String

pub data Result {ℓ} (Value : Type ℓ) : Type ℓ where
  ok : Value → Result Value
  err : Error → Result Value

-- `Error::new`
abbrev pub error : String → String → Error
error code detail = record { code = code; detail = detail }

abbrev pub fail {ℓ} : {A : Type ℓ} → String → String → Result A
fail code detail = err (error code detail)

-- The `?` operator: what follows runs on the value, or the error is returned.
abbrev pub ◌>>=◌ {ℓ κ} :
    {Given : Type ℓ} {Final : Type κ} → Result Given → (Given → Result Final) → Result Final
err e >>= next = err e
ok value >>= next = next value

abbrev pub ◌>>◌ {κ} : {Final : Type κ} → Result (Unit {0}) → Result Final → Result Final
check >> rest = check >>= λ _. rest

infixl 5 ◌>>=◌ ◌>>◌
-- `if !condition { return Err(e) }`
abbrev pub guard : Bool → Error → Result (Unit {0})
guard false otherwise = err otherwise
guard true otherwise = ok tt

-- `option.ok_or_else(|| e)?`
abbrev pub ok_or {ℓ} : {A : Type ℓ} → Option A → Error → Result A
ok_or none e = err e
ok_or (some a) e = ok a

abbrev pub map_err {ℓ} : {A : Type ℓ} → (Error → Error) → Result A → Result A
map_err f (ok a) = ok a
map_err f (err e) = err (f e)

abbrev pub is_ok {ℓ} : {A : Type ℓ} → Result A → Bool
is_ok (ok a) = true
is_ok (err e) = false

abbrev pub to_option {ℓ} : {A : Type ℓ} → Result A → Option A
to_option (ok a) = some a
to_option (err e) = none

pub Result-cases {ℓ} :
    {Given : Type ℓ} (result : Result Given)
    → ((value : Given) × (result ≡ ok value)) ⊎ ((e : Error) × (result ≡ err e))
Result-cases (err e) = inr (e, refl)
Result-cases (ok value) = inl (value, refl)

-- A `?` that is passed returned a value, and a guard that is passed held.
pub >>=-eq-ok {ℓ κ} :
    {Given : Type ℓ} {Final : Type κ} (first : Result Given) (next : Given → Result Final)
    {final : Final}
    → (first >>= next) ≡ ok final
    → (value : Given) × (first ≡ ok value) × (next value ≡ ok final)
>>=-eq-ok (err e) next passed = absurd (cc)
>>=-eq-ok (ok value) next passed = (value, refl, passed)

pub guard-eq-ok {κ} :
    {Final : Type κ} (test : Bool) (otherwise : Error) (rest : Result Final) {final : Final}
    → (guard test otherwise >> rest) ≡ ok final
    → (test ≡ true) × (rest ≡ ok final)
guard-eq-ok false otherwise rest passed = absurd (cc)
guard-eq-ok true otherwise rest passed = (refl, passed)

pub ok_or-eq-ok {ℓ} :
    {A : Type ℓ} (o : Option A) (e : Error) {a : A} → ok_or o e ≡ ok a → o ≡ some a
ok_or-eq-ok none e h = absurd (cc)
ok_or-eq-ok (some x) e h = cc

pub ok-injective {ℓ} : {A : Type ℓ} {a b : A} → ok a ≡ ok b → a ≡ b
ok-injective h = cc
