-- ===== src/Base/Decimal.antt =====
-- The language's decimal print of an unsigned number, and its parser with a bound.
use git_vws.Base.Tests.{leb, ◌==◌, nat_Eq, if◌then◌else◌}
use git_vws.Base.ByteStrings.{Bytes, is_digit}
use git_vws.Base.Lists.{All}
use Prim.Native.Nat.{ℕ, zero, suc, ◌+◌, ◌-◌, ◌*◌, ◌/◌, ◌%◌, ◌≤◌, ◌<◌}
use mathlib.Core.Path.{◌≡◌, refl, ◌∙◌}
use mathlib.Core.Logic.{◌≢◌}
use mathlib.Core.List.{[], ◌∷◌}
use mathlib.Core.Option.{Option, none, some}
use native.Mathlib.Omega.{arith}

-- The digits of `n` before `out`. A number has fewer digits than the fuel, which starts above it.
digits : ℕ → ℕ → Bytes → Bytes
digits zero n out = out
digits (suc fuel) n out =
    let rest = digits fuel (n / 10) ((b'0' + n % 10) ∷ out) in if n == 0 then out else rest

-- `n.to_string()`
unfoldable pub decimal : ℕ → Bytes
unfolding digits
decimal n = if n == 0 then b'0' ∷ [] else digits (suc n) n []

-- Each round is a checked multiplication and a checked addition.
parse_digits : ℕ → ℕ → Bytes → Option ℕ
parse_digits max n [] = some n
parse_digits max n (c ∷ s) =
    let next = n * 10 + (c - b'0') in
    let rest = parse_digits max next s in
    if is_digit c then if leb next max then rest else none else none

unsigned_body : Bytes → Bytes
unsigned_body [] = []
unsigned_body (c ∷ s) = if c == b'+' then s else c ∷ s

-- `s.parse()` at the unsigned type whose largest value is `max`: a leading `+` is accepted.
unfoldable pub parse_unsigned : ℕ → Bytes → Option ℕ
unfolding parse_digits unsigned_body
parse_unsigned max s = elim (unsigned_body s) [ [] ↦ none | c ∷ r ↦ parse_digits max 0 (c ∷ r) ]

-- Reading the last digit of `n` after the digits before it gives `n`.
parse_digits_last :
    (max n : ℕ) (out : Bytes)
    → n ≤ max
    → parse_digits max (n / 10) ((b'0' + n % 10) ∷ out) ≡ parse_digits max n out
unfolding parse_digits
parse_digits_last max n out h = ground arith

parse_digits-digits :
    (max fuel n : ℕ) (out : Bytes)
    → n < fuel
    → n ≤ max
    → parse_digits max 0 (digits fuel n out) ≡ parse_digits max n out
unfolding digits
parse_digits-digits max zero n out h fits = absurd (omega arith)
parse_digits-digits max (suc fuel) n out h fits = ground (
  arith,
  parse_digits_last max n out fits,
  parse_digits-digits max fuel (n / 10) ((b'0' + n % 10) ∷ out),
)

abbrev pub IsDigit : ℕ → Type 0
IsDigit c = (b'0' ≤ c) × (c ≤ b'9')

digits-All : (fuel n : ℕ) (out : Bytes) → All IsDigit out → All IsDigit (digits fuel n out)
unfolding digits
digits-All zero n out h = h
digits-All (suc fuel) n out h =
    ground (arith, digits-All fuel (n / 10) ((b'0' + n % 10) ∷ out) ((omega arith, omega arith), h))

digits_ne : (fuel n : ℕ) (out : Bytes) → out ≢ [] → digits fuel n out ≢ []
unfolding digits
digits_ne zero n out h = h
digits_ne (suc fuel) n out h = ground (arith, digits_ne fuel (n / 10) ((b'0' + n % 10) ∷ out))

pub decimal-All : (n : ℕ) → All IsDigit (decimal n)
unfolding decimal
decimal-All n = ground (arith, digits-All n (n / 10) ((b'0' + n % 10) ∷ []) (omega arith))

pub decimal-ne-nil : (n : ℕ) → decimal n ≢ []
unfolding decimal
decimal-ne-nil n = ground (arith, digits_ne n (n / 10) ((b'0' + n % 10) ∷ []) (cc))

parse_unsigned-All :
    (max : ℕ) (s : Bytes) → s ≢ [] → All IsDigit s → parse_unsigned max s ≡ parse_digits max 0 s
unfolding parse_unsigned unsigned_body
parse_unsigned-All max [] h d = absurd (h refl)
parse_unsigned-All max (c ∷ s) h d = ground arith

whole : (max n : ℕ) → n ≤ max → parse_digits max 0 (decimal n) ≡ some n
unfolding decimal parse_digits
whole max n h = ground (arith, parse_digits-digits max (suc n) n [] (omega arith) h)

-- Every number in range is read back from its print.
pub parse_unsigned-decimal : (max n : ℕ) → n ≤ max → parse_unsigned max (decimal n) ≡ some n
parse_unsigned-decimal max n h =
    parse_unsigned-All max (decimal n) (decimal-ne-nil n) (decimal-All n) ∙ whole max n h
