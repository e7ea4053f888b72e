-- ===== src/Base/ByteStrings.antt =====
-- The operations of the language's standard library on byte strings that the source uses.
use Prim.Native.Char.{code}
use Prim.Native.Nat.{ℕ, ◌+◌, ◌<◌}
use Prim.Native.String.{String}
use mathlib.Core.Path.{◌≡◌, refl, ap}
use mathlib.Core.Logic.{◌≢◌}
use mathlib.Core.Bool.{Bool, true, false, ◌&&◌, ◌||◌}
use mathlib.Core.Option
use mathlib.Core.Option.{Option, none, some}
use mathlib.Core.List.{List, [], ◌∷◌, ◌++◌}
use native.Mathlib.Omega.{arith}
use git_vws.Base.Tests.{leb, ◌==◌, nat_Eq, bytes_Eq, if◌then◌else◌}
use git_vws.Base.Lists.{length, length-append, All, any}

abbrev pub Bytes : Type 0
Bytes = List ℕ

-- The code points of a text: its bytes, since every text of the development is ASCII.
abbrev pub codes : String → Bytes
codes String.[] = []
codes (String.◌∷◌ c s) = code c ∷ codes s

abbrev pub IsByte : ℕ → Type 0
IsByte b = b < 256

abbrev pub Lacks : ℕ → Bytes → Type 0
Lacks b = All (λ c. c ≢ b)

abbrev pub is_empty : Bytes → Bool
is_empty [] = true
is_empty (c ∷ s) = false

abbrev pub is_digit : ℕ → Bool
is_digit c = leb b'0' c && leb c b'9'

-- `matches!(byte, b'0'..=b'9' | b'a'..=b'f')`, which is also how `is_ascii_digit` is joined.
abbrev pub is_lower_hex : ℕ → Bool
is_lower_hex c = is_digit c || (leb b'a' c && leb c b'f')

abbrev pub is_hex : ℕ → Bool
is_hex c = is_lower_hex c || (leb b'A' c && leb c b'F')

abbrev pub is_upper : ℕ → Bool
is_upper c = leb b'A' c && leb c b'Z'

abbrev pub is_alphanumeric : ℕ → Bool
is_alphanumeric c = is_digit c || is_upper c || (leb b'a' c && leb c b'z')

abbrev pub to_lower : ℕ → ℕ
to_lower c = if is_upper c then c + 32 else c

unfoldable pub contains : ℕ → Bytes → Bool
contains b = any (λ c. c == b)

unfoldable pub strip_prefix : Bytes → Bytes → Option Bytes
strip_prefix [] s = some s
strip_prefix (p ∷ ps) [] = none
strip_prefix (p ∷ ps) (c ∷ s) = if c == p then strip_prefix ps s else none

unfoldable pub starts_with : Bytes → Bytes → Bool
unfolding strip_prefix
starts_with p s = elim (strip_prefix p s) [ none ↦ false | some _ ↦ true ]

unfoldable pub strip_suffix : Bytes → Bytes → Option Bytes
strip_suffix suffix [] = if is_empty suffix then some [] else none
strip_suffix suffix (c ∷ s) =
    if (c ∷ s) == suffix then some [] else Option.map (λ r. c ∷ r) (strip_suffix suffix s)

unfoldable pub ends_with : Bytes → Bytes → Bool
unfolding strip_suffix
ends_with p s = elim (strip_suffix p s) [ none ↦ false | some _ ↦ true ]

-- `haystack.windows(needle.len()).any(|w| w == needle)` for a needle that is not empty.
unfoldable pub includes : Bytes → Bytes → Bool
unfolding starts_with
includes needle [] = false
includes needle (c ∷ s) = starts_with needle (c ∷ s) || includes needle s

-- What stands before the first `b` and what stands after it.
unfoldable pub cut_first : ℕ → Bytes → Option (Bytes × Bytes)
cut_first b [] = none
cut_first b (c ∷ s) =
    if c == b then some ([], s) else Option.map (λ r. (c ∷ r.0, r.1)) (cut_first b s)

abbrev pub cut_last_step : ℕ → ℕ → Bytes → Option (Bytes × Bytes) → Option (Bytes × Bytes)
cut_last_step b c s (some (before, after)) = some (c ∷ before, after)
cut_last_step b c s none = if c == b then some ([], s) else none

-- What stands before the last `b` and what stands after it.
unfoldable pub cut_last : ℕ → Bytes → Option (Bytes × Bytes)
cut_last b [] = none
cut_last b (c ∷ s) = cut_last_step b c s (cut_last b s)

abbrev pub cons_head : ℕ → List Bytes → List Bytes
cons_head c [] = (c ∷ []) ∷ []
cons_head c (p ∷ ps) = (c ∷ p) ∷ ps

-- `split`: one part more than there are separators.
unfoldable pub split : ℕ → Bytes → List Bytes
split b [] = [] ∷ []
split b (c ∷ s) = let rest = split b s in if c == b then [] ∷ rest else cons_head c rest

pub strip_prefix-append : (p s : Bytes) → strip_prefix p (p ++ s) ≡ some s
unfolding strip_prefix
strip_prefix-append [] s = refl
strip_prefix-append (c ∷ p) s = ground (arith, strip_prefix-append p s)

pub strip_prefix_sound : (p s r : Bytes) → strip_prefix p s ≡ some r → s ≡ p ++ r
unfolding strip_prefix
strip_prefix_sound [] s r h = ground arith
strip_prefix_sound (c ∷ p) [] r h = ground arith
strip_prefix_sound (c ∷ p) (d ∷ s) r h = ground (arith, strip_prefix_sound p s r)

append_ne_self : (x s : Bytes) (c : ℕ) → (c ∷ x) ++ s ≢ s
append_ne_self x s c h = omega (arith, ap length h, length-append (c ∷ x) s)

pub strip_suffix-append : (x s : Bytes) → strip_suffix s (x ++ s) ≡ some x
unfolding strip_suffix
strip_suffix-append [] [] = refl
strip_suffix-append [] (c ∷ s) = ground arith
strip_suffix-append (c ∷ x) s = ground (arith, append_ne_self x s c, strip_suffix-append x s)

pub strip_suffix_sound : (suffix s r : Bytes) → strip_suffix suffix s ≡ some r → s ≡ r ++ suffix
unfolding strip_suffix
strip_suffix_sound [] [] r h = ground arith
strip_suffix_sound (d ∷ t) [] r h = ground arith
strip_suffix_sound suffix (c ∷ s) [] h = ground arith
strip_suffix_sound suffix (c ∷ s) (d ∷ r) h = ground (arith, strip_suffix_sound suffix s r)

pub cut_first-append : (b : ℕ) (x s : Bytes) → Lacks b x → cut_first b (x ++ b ∷ s) ≡ some (x, s)
unfolding cut_first
cut_first-append b [] s h = ground arith
cut_first-append b (c ∷ x) s h = ground (arith, cut_first-append b x s h.1)

pub cut_first_sound :
    (b : ℕ) (s x y : Bytes) → cut_first b s ≡ some (x, y) → (s ≡ x ++ b ∷ y) × Lacks b x
unfolding cut_first
cut_first_sound b [] x y h = absurd (cc)
cut_first_sound b (c ∷ s) [] y h = ground arith
cut_first_sound b (c ∷ s) (d ∷ x) y h = ground (arith, cut_first_sound b s x y)

cut_last-none : (b : ℕ) (s : Bytes) → Lacks b s → cut_last b s ≡ none
unfolding cut_last
cut_last-none b [] h = refl
cut_last-none b (c ∷ s) h = ground (arith, cut_last-none b s h.1)

pub cut_last-append : (b : ℕ) (x s : Bytes) → Lacks b s → cut_last b (x ++ b ∷ s) ≡ some (x, s)
unfolding cut_last
cut_last-append b [] s h = ground (arith, cut_last-none b s h)
cut_last-append b (c ∷ x) s h = ground (arith, cut_last-append b x s h)

pub cut_last_sound : (b : ℕ) (s x y : Bytes) → cut_last b s ≡ some (x, y) → s ≡ x ++ b ∷ y
unfolding cut_last
cut_last_sound b [] x y h = absurd (cc)
cut_last_sound b (c ∷ s) [] y h = ground arith
cut_last_sound b (c ∷ s) (d ∷ x) y h = ground (arith, cut_last_sound b s x y)

pub split-Lacks : (b : ℕ) (s : Bytes) → Lacks b s → split b s ≡ s ∷ []
unfolding split
split-Lacks b [] h = refl
split-Lacks b (c ∷ s) h = ground (arith, split-Lacks b s h.1)

pub split-append : (b : ℕ) (x s : Bytes) → Lacks b x → split b (x ++ b ∷ s) ≡ x ∷ split b s
unfolding split
split-append b [] s h = ground arith
split-append b (c ∷ x) s h = ground (arith, split-append b x s h.1)
