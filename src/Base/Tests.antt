-- ===== src/Base/Tests.antt =====
-- Boolean tests: on numbers, on any type with decidable equality, and the conditional.
use Prim.Native.Nat.{ℕ, compare, Ordering}
use Prim.Native.String.{String}
use mathlib.Core.Path.{◌≡◌, refl}
use mathlib.Core.Logic.{◌↔◌, ◌⊎◌, inl, inr}
use mathlib.Core.Bool.{Bool, true, false}
use mathlib.Core.Option.{Option, none, some}
use mathlib.Core.List.{List, [], ◌∷◌}
use native.Mathlib.Decide.{ℕ_discrete}
use native.Mathlib.Omega.{arith}
use text.Mathlib.TextEquality.{eq_iff}
use text.Mathlib.Text.{◌==◌ as string_test}

abbrev pub ltb : ℕ → ℕ → Bool
ltb a b = elim (compare a b) [ Ordering.lt ↦ true | _ ↦ false ]

abbrev pub leb : ℕ → ℕ → Bool
leb a b = elim (compare a b) [ Ordering.gt ↦ false | _ ↦ true ]

abbrev pub nat_eq : ℕ → ℕ → Bool
nat_eq a b = elim (compare a b) [ Ordering.eq ↦ true | _ ↦ false ]

infix 1 if◌then◌else◌
abbrev pub if◌then◌else◌ {ℓ} : {A : Type ℓ} → Bool → A → A → A
if true then x else y = x
if false then x else y = y

-- A type with a test that decides equality, `PartialEq` where it is derived.
pub record Eq {ℓ} (Value : Type ℓ) : Type ℓ where
  pub test : Value → Value → Bool
  pub test_iff : (left right : Value) → (test left right ≡ true) ↔ (left ≡ right)

abbrev pub ◌==◌ {ℓ} : {Value : Type ℓ} ⦃equality : Eq Value⦄ → Value → Value → Bool
◌==◌ ⦃equality⦄ = equality.test

infix 50 ◌==◌
pub ==_iff {ℓ} :
    {Value : Type ℓ} ⦃equality : Eq Value⦄ (left right : Value)
    → ((left == right) ≡ true) ↔ (left ≡ right)
==_iff ⦃equality⦄ left right = equality.test_iff left right

pub nat_eq_iff : (a b : ℕ) → (nat_eq a b ≡ true) ↔ (a ≡ b)
nat_eq_iff a b = ground arith

instance abbrev pub nat_Eq : Eq ℕ
nat_Eq = record { test = nat_eq; test_iff = nat_eq_iff }

instance abbrev pub string_Eq : Eq String
string_Eq = record { test = string_test; test_iff = eq_iff }

abbrev pub dec_eq {ℓ} : {A : Type ℓ} → Discrete A → A → A → Bool
dec_eq d a b = elim (d a b) [ yes _ ↦ true | no _ ↦ false ]

pub dec_eq_iff {ℓ} : {A : Type ℓ} (d : Discrete A) (a b : A) → (dec_eq d a b ≡ true) ↔ (a ≡ b)
dec_eq_iff d a b = ground arith

-- `==` of a type with `d : Discrete A`; tactics read its two cases as the equation and its negation.
abbrev pub discrete_Eq {ℓ} : {A : Type ℓ} → Discrete A → Eq A
discrete_Eq d = record { test = dec_eq d; test_iff = dec_eq_iff d }

-- Two lists with a head are equal if their heads and tails are.
dec_cons {ℓ} :
    {A : Type ℓ} {x y : A} {xs ys : List A} → Dec (x ≡ y) → Dec (xs ≡ ys) → Dec (x ∷ xs ≡ y ∷ ys)
dec_cons (yes p) (yes q) = yes (cc)
dec_cons (yes p) (no q) = no (λ e. q (cc))
dec_cons (no p) q = no (λ e. p (cc))

unfoldable pub List-discrete {ℓ} : {A : Type ℓ} → Discrete A → Discrete (List A)
unfolding dec_cons
List-discrete d [] [] = yes refl
List-discrete d [] (y ∷ ys) = no (λ e. cc)
List-discrete d (x ∷ xs) [] = no (λ e. cc)
List-discrete d (x ∷ xs) (y ∷ ys) = dec_cons (d x y) (List-discrete d xs ys)

dec_some {ℓ} : {A : Type ℓ} {x y : A} → Dec (x ≡ y) → Dec (some x ≡ some y)
dec_some (yes p) = yes (cc)
dec_some (no p) = no (λ e. p (cc))

unfoldable pub Option-discrete {ℓ} : {A : Type ℓ} → Discrete A → Discrete (Option A)
unfolding dec_some
Option-discrete d none none = yes refl
Option-discrete d none (some y) = no (λ e. cc)
Option-discrete d (some x) none = no (λ e. cc)
Option-discrete d (some x) (some y) = dec_some (d x y)

unfoldable pub Bytes-discrete : Discrete (List ℕ)
unfolding List-discrete ℕ_discrete
Bytes-discrete = List-discrete ℕ_discrete

unfoldable pub OptionBytes-discrete : Discrete (Option (List ℕ))
unfolding Option-discrete Bytes-discrete
OptionBytes-discrete = Option-discrete Bytes-discrete

unfoldable pub OptionNat-discrete : Discrete (Option ℕ)
unfolding Option-discrete ℕ_discrete
OptionNat-discrete = Option-discrete ℕ_discrete

instance abbrev pub option_nat_Eq : Eq (Option ℕ)
option_nat_Eq = discrete_Eq OptionNat-discrete

instance abbrev pub bytes_Eq : Eq (List ℕ)
bytes_Eq = discrete_Eq Bytes-discrete

instance abbrev pub option_bytes_Eq : Eq (Option (List ℕ))
option_bytes_Eq = discrete_Eq OptionBytes-discrete

pub Bool-cases : (b : Bool) → (b ≡ true) ⊎ (b ≡ false)
Bool-cases true = inl refl
Bool-cases false = inr refl

pub Option-cases {ℓ} : {A : Type ℓ} (o : Option A) → (o ≡ none) ⊎ ((a : A) × (o ≡ some a))
Option-cases none = inl refl
Option-cases (some a) = inr (a, refl)
