-- ===== src/Base/Utf8.antt =====
-- Which byte strings `std::str::from_utf8` accepts: well-formed UTF-8, with no surrogates, no
-- overlong forms and no code point above U+10FFFF.
use git_vws.Base.Tests.{leb, ltb, if◌then◌else◌}
use git_vws.Base.ByteStrings.{Bytes}
use git_vws.Base.Lists.{All}
use Prim.Native.Nat.{ℕ, ◌<◌}
use mathlib.Core.Path.{◌≡◌, refl}
use mathlib.Core.Bool.{Bool, true, false, ◌&&◌}
use mathlib.Core.List.{[], ◌∷◌}
use native.Mathlib.Omega.{arith}

-- What must come next: a new character, or continuation bytes of which the next lies in a range.
pub data Expect : Type 0 where
  boundary : Expect
  one : ℕ → ℕ → Expect
  two : ℕ → ℕ → Expect
  three : ℕ → ℕ → Expect

abbrev within : ℕ → ℕ → ℕ → Bool
within lo hi c = leb lo c && leb c hi

abbrev lead : ℕ → (Expect → Bool) → Bool
lead c rest =
    if ltb c 0x80
    then rest boundary
    else if within 0xc2 0xdf c
    then rest (one 0x80 0xbf)
    else if within 0xe0 0xe0 c
    then rest (two 0xa0 0xbf)
    else if within 0xed 0xed c
    then rest (two 0x80 0x9f)
    else if within 0xe1 0xef c
    then rest (two 0x80 0xbf)
    else if within 0xf0 0xf0 c
    then rest (three 0x90 0xbf)
    else if within 0xf1 0xf3 c
    then rest (three 0x80 0xbf)
    else if within 0xf4 0xf4 c
    then rest (three 0x80 0x8f)
    else false

scan : Bytes → Expect → Bool
scan [] boundary = true
scan [] _ = false
scan (c ∷ s) boundary = lead c (scan s)
scan (c ∷ s) (one lo hi) = within lo hi c && scan s boundary
scan (c ∷ s) (two lo hi) = within lo hi c && scan s (one 0x80 0xbf)
scan (c ∷ s) (three lo hi) = within lo hi c && scan s (two 0x80 0xbf)

unfoldable pub is_utf8 : Bytes → Bool
unfolding scan
is_utf8 s = scan s boundary

abbrev pub IsAscii : ℕ → Type 0
IsAscii c = c < 0x80

pub is_utf8_of_ascii : (s : Bytes) → All IsAscii s → is_utf8 s ≡ true
unfolding is_utf8
is_utf8_of_ascii [] h = refl
is_utf8_of_ascii (c ∷ s) h = ground (arith, is_utf8_of_ascii s h.1)
