-- ===== src/Storage/Links.antt =====
-- src/storage.rs: `OwnedRegularLinks`, which counts the names of each regular file that has several.
-- The `BTreeMap` is an association list with one entry for a key; the order of entries is not used.
mod Step
pub mod Contained
use git_vws.Authority.Identity.{Identity, regular}
use git_vws.Base.{
  ℕ, zero, suc, ◌+◌, ◌-◌, ◌*◌, ◌/◌, ◌%◌, ◌^◌, ◌≤◌, ◌<◌, String, ◌≡◌, refl, sym, ap, subst, ◌∙◌, ◌≢◌,
  ◌↔◌, ◌⊎◌, inl, inr, Bool, true, false, ◌&&◌, ◌||◌, not, Option, none, some, List, [], ◌∷◌, ◌++◌,
  map, append_assoc, append-nil, arith, ℕ_discrete, ltb, leb, if◌then◌else◌, Eq, ◌==◌, ==_iff,
  nat_Eq, string_Eq, dec_eq, discrete_Eq, List-discrete, Option-discrete, Bytes-discrete,
  OptionBytes-discrete, bytes_Eq, option_bytes_Eq, Bool-cases, Option-cases, length, get_or,
  length-append, all, any, All, All-append, All-mono, all→All, All→all, Bytes, codes, IsByte, Lacks,
  is_empty, is_digit, is_lower_hex, is_hex, is_alphanumeric, to_lower, contains, strip_prefix,
  starts_with, strip_suffix, ends_with, includes, cut_first, cut_last, split, strip_prefix-append,
  strip_prefix_sound, strip_suffix-append, strip_suffix_sound, cut_first-append, cut_first_sound,
  cut_last-append, cut_last_sound, split-Lacks, split-append, decimal, parse_unsigned, decimal-All,
  decimal-ne-nil, parse_unsigned-decimal, IsDigit, is_utf8, IsAscii, is_utf8_of_ascii, Error,
  Result, ok, err, error, fail, ◌>>=◌, ◌>>◌, guard, ok_or, map_err, is_ok, to_option, Result-cases,
  >>=-eq-ok, guard-eq-ok, ok_or-eq-ok, ok-injective,
}

pub record Link : Type 0 where
  pub identity : Identity
  pub remaining : ℕ

-- The key is `(dev, ino)`.
abbrev pub Entries : Type 0
Entries = List (ℕ × ℕ × Link)

abbrev pub u64_max : ℕ
u64_max = 2 ^ 64 - 1

abbrev pub has_key : Identity → ℕ → ℕ → Bool
has_key i d n = d == i.dev && n == i.ino

-- `entries.get_mut(&key)`
unfoldable pub get : Identity → Entries → Option Link
get i [] = none
get i ((d, n, l) ∷ m) = if has_key i d n then some l else get i m

-- The write through that reference.
unfoldable pub put : Identity → Link → Entries → Entries
put i v [] = []
put i v ((d, n, l) ∷ m) = if has_key i d n then (d, n, v) ∷ m else (d, n, l) ∷ put i v m

unfoldable pub same_regular_binding : Identity → Identity → Bool
same_regular_binding current expected =
    regular current
    && regular expected
    && current.dev == expected.dev
    && current.ino == expected.ino
    && current.uid == expected.uid
    && current.mode == expected.mode
    && current.kind == expected.kind

unfoldable pub record_existing : Identity → Entries → Option Link → Entries × Bool
record_existing i m none =
    if i.nlink == 1
    then (m, true)
    else ((i.dev, i.ino, record { identity = i; remaining = 1 }) ∷ m, true)
record_existing i m (some old) =
    if not (same_regular_binding i old.identity) || not (i.nlink == old.identity.nlink)
    then (m, false)
    else if ltb u64_max (old.remaining + 1)
    then (m, false)
    else (put i (record old { remaining = old.remaining + 1 }) m, true)

-- `OwnedRegularLinks::record`
unfoldable pub record_link : Identity → Entries → Entries × Bool
unfolding record_existing
record_link i m = record_existing i m (get i m)

unfoldable pub fully_contained : Entries → Bool
fully_contained [] = true
fully_contained ((d, n, l) ∷ m) = l.identity.nlink == l.remaining && fully_contained m

unfoldable pub take_existing : Identity → Entries → Option Link → Entries × Bool
take_existing i m none = (m, i.nlink == 1)
take_existing i m (some old) =
    if not (same_regular_binding i old.identity)
      || not (i.nlink == old.remaining)
      || old.remaining == 0
    then (m, false)
    else (put i (record old { remaining = old.remaining - 1 }) m, true)

-- `OwnedRegularLinks::take_for_cleanup`
unfoldable pub take_for_cleanup : Identity → Entries → Entries × Bool
unfolding take_existing
take_for_cleanup i m = take_existing i m (get i m)

unfoldable pub drained : Entries → Bool
drained [] = true
drained ((d, n, l) ∷ m) = l.remaining == 0 && drained m

-- The walk over a tree's regular files: it stops at the first refusal.
unfoldable pub record_all : List Identity → Entries → Option Entries
record_all [] m = some m
record_all (i ∷ is) m =
    let rest = record_all is (record_link i m).0 in if (record_link i m).1 then rest else none
