-- ===== src/Authority/Hex.antt =====
-- src/authority.rs: `hex`, `hex_digit`, `decode_path` and `path_hash`; src/session.rs: `decode_hex`.
use Prim.Native.Nat.{bit_xor}
use git_vws.Base.{
  ℕ, ◌+◌, ◌-◌, ◌*◌, ◌/◌, ◌%◌, ◌^◌, ◌<◌, ◌≡◌, refl, subst, ◌≢◌, Bool, true, false, ◌&&◌, not, Option,
  none, some, [], ◌∷◌, arith, leb, if◌then◌else◌, ◌==◌, nat_Eq, string_Eq, bytes_Eq,
  option_bytes_Eq, length, get_or, all, All, Bytes, codes, IsByte, is_empty, is_digit, is_lower_hex,
  contains, starts_with, Error, Result, ok, error, ◌>>=◌, ◌>>◌, guard, ok_or, >>=-eq-ok,
  guard-eq-ok, ok_or-eq-ok, ok-injective,
}

abbrev hex_table : Bytes
hex_table = codes "0123456789abcdef"

-- `TABLE[i]`
hex_char : ℕ → ℕ
hex_char i = get_or hex_table i 0

-- `byte >> 4` and `byte & 0x0f`
unfoldable pub hex : Bytes → Bytes
unfolding hex_char
hex [] = []
hex (b ∷ s) = hex_char (b / 16) ∷ hex_char (b % 16) ∷ hex s

unfoldable pub hex_digit : ℕ → Option ℕ
hex_digit c =
    if is_digit c
    then some (c - b'0')
    else if leb b'a' c && leb c b'f'
    then some (c - b'a' + 10)
    else none

hex_digit-hex_char : (n : ℕ) → n < 16 → hex_digit (hex_char n) ≡ some n
unfolding hex_digit hex_char
hex_digit-hex_char n h = ground arith

-- A byte is put together from its two digits.
hex_pair :
    (b : ℕ)
    → b < 256
    → (hex_digit (hex_char (b / 16)) ≡ some (b / 16))
      × (hex_digit (hex_char (b % 16)) ≡ some (b % 16))
      × (b / 16 * 16 + b % 16 ≡ b)
hex_pair b h = (hex_digit-hex_char _ (omega arith), hex_digit-hex_char _ (omega arith), omega arith)

-- `chunks_exact(2)` and the loop over it: `(high << 4) | low`, a sum since `low < 16`.
unfoldable pub decode_pairs : Error → Bytes → Result Bytes
decode_pairs e [] = ok []
decode_pairs e (c ∷ []) = ok []
decode_pairs e (c ∷ d ∷ s) = do
  high ← ok_or (hex_digit c) e
  low ← ok_or (hex_digit d) e
  rest ← decode_pairs e s
  ok ((high * 16 + low) ∷ rest)

pub decode_pairs-hex : (e : Error) (s : Bytes) → All IsByte s → decode_pairs e (hex s) ≡ ok s
unfolding decode_pairs hex
decode_pairs-hex e [] h = refl
decode_pairs-hex e (b ∷ s) h = ground (arith, hex_pair b h.0, decode_pairs-hex e s h.1)

pub hex_even : (s : Bytes) → length (hex s) % 2 ≡ 0
unfolding hex
hex_even [] = omega arith
hex_even (b ∷ s) = omega (arith, hex_even s)

hex_char_lower : (n : ℕ) → n < 16 → is_lower_hex (hex_char n) ≡ true
unfolding hex_char
hex_char_lower n h = ground arith

pub hex_lower : (s : Bytes) → All IsByte s → all is_lower_hex (hex s) ≡ true
unfolding hex
hex_lower [] h = refl
hex_lower (b ∷ s) h = ground (
  arith,
  hex_char_lower (b / 16) (omega arith),
  hex_char_lower (b % 16) (omega arith),
  hex_lower s h.1,
)

-- `path.is_absolute()`
unfoldable pub is_absolute : Bytes → Bool
is_absolute p = starts_with (codes "/") p

unfoldable pub decode_path : Bytes → Result Bytes
unfolding decode_pairs is_absolute
decode_path value = do
  guard (length value % 2 == 0) (error "STATE_CORRUPT" "path encoding has odd length")
  path ← decode_pairs (error "STATE_CORRUPT" "path is not hex") value
  guard (is_absolute path && not (contains 0 path))
      (error "STATE_CORRUPT" "recorded path is not absolute")
  ok path

-- The 64-bit FNV-1a hash of the path's bytes.
unfoldable pub path_hash : ℕ → Bytes → ℕ
path_hash h [] = h
path_hash h (b ∷ s) = path_hash (bit_xor h b * 0x100000001b3 % 2 ^ 64) s

abbrev pub path_hash_seed : ℕ
path_hash_seed = 0xcbf29ce484222325

-- src/session.rs: `valid_lower_hex`, which is also its `valid_hex`.
unfoldable pub valid_lower_hex : Bytes → Bool
valid_lower_hex value = not (is_empty value) && length value % 2 == 0 && all is_lower_hex value

-- src/session.rs: `decode_hex`
unfoldable pub decode_hex : Bytes → Result Bytes
unfolding decode_pairs valid_lower_hex
decode_hex value = do
  guard (valid_lower_hex value) (error "SESSION_CORRUPT" "stored session bytes are not hexadecimal")
  decode_pairs (error "SESSION_CORRUPT" "stored session bytes are not hexadecimal") value

-- A path that is absolute and free of NUL is read back from its encoding.
pub decode_path-hex :
    (p : Bytes)
    → All IsByte p
    → is_absolute p ≡ true
    → contains 0 p ≡ false
    → decode_path (hex p) ≡ ok p
unfolding decode_path
decode_path-hex p h a z =
    ground (arith, hex_even p, decode_pairs-hex (error "STATE_CORRUPT" "path is not hex") p h)

-- A name of one byte or more is read back from its encoding.
pub decode_hex-hex :
    (b : ℕ) (s : Bytes) → All IsByte (b ∷ s) → decode_hex (hex (b ∷ s)) ≡ ok (b ∷ s)
unfolding decode_hex
decode_hex-hex b s h = ground (
  arith,
  hex_even (b ∷ s),
  hex_lower (b ∷ s) h,
  decode_pairs-hex (error "SESSION_CORRUPT" "stored session bytes are not hexadecimal") (b ∷ s) h,
)

hex_char-hex_digit : (c n : ℕ) → hex_digit c ≡ some n → (hex_char n ≡ c) × (n < 16)
unfolding hex_digit hex_char
hex_char-hex_digit c n h = ground arith

-- The digits and the rest of a text that was read.
decode_pairs_cons :
    (e : Error) (c d : ℕ) (v s : Bytes)
    → decode_pairs e (c ∷ d ∷ v) ≡ ok s
    → (m : ℕ) × (n : ℕ) × (r : Bytes) × (hex_digit c ≡ some m)
      × (hex_digit d ≡ some n)
      × (decode_pairs e v ≡ ok r)
      × ((m * 16 + n) ∷ r ≡ s)
unfolding decode_pairs
decode_pairs_cons e c d v s h =
    let (m, p, h1) = >>=-eq-ok _ _ h in
    let (n, q, h2) = >>=-eq-ok _ _ h1 in
    let (r, t, h3) = >>=-eq-ok _ _ h2 in
    (m, n, r, ok_or-eq-ok _ _ p, ok_or-eq-ok _ _ q, t, ok-injective h3)

hex_cons :
    (c d m n : ℕ) (v r : Bytes)
    → hex_digit c ≡ some m
    → hex_digit d ≡ some n
    → hex r ≡ v
    → hex ((m * 16 + n) ∷ r) ≡ c ∷ d ∷ v
unfolding hex
hex_cons c d m n v r p q h =
    let (p', hm) = hex_char-hex_digit c m p in
    let (q', hn) = hex_char-hex_digit d n q in
    let high : (m * 16 + n) / 16 ≡ m = omega arith in
    let low : (m * 16 + n) % 16 ≡ n = omega arith in rw (high, low, p', q', h)

hex-decode_pairs :
    (e : Error) (v s : Bytes) → length v % 2 ≡ 0 → decode_pairs e v ≡ ok s → hex s ≡ v
hex-decode_pairs e [] s even h = unfold decode_pairs hex in rw (← (ok-injective h))
hex-decode_pairs e (c ∷ []) s even h = absurd (omega arith)
hex-decode_pairs e (c ∷ d ∷ v) s even h =
    let (m, n, r, p, q, t, eq) = decode_pairs_cons e c d v s h in
    subst (λ x. hex x ≡ c ∷ d ∷ v) eq
      (hex_cons c d m n v r p q (hex-decode_pairs e v r (omega arith) t))

hex_ne_nil : (v s : Bytes) → hex s ≡ v → is_empty v ≡ false → s ≢ []
unfolding hex
hex_ne_nil v [] h e = absurd (cc)
hex_ne_nil v (b ∷ s) h e = λ eq. absurd (cc)

valid_lower_hex_parts :
    (v : Bytes)
    → valid_lower_hex v ≡ true
    → (is_empty v ≡ false) × (length v % 2 ≡ 0) × (all is_lower_hex v ≡ true)
unfolding valid_lower_hex
valid_lower_hex_parts v h = ground arith

-- What `decode_hex` accepts is the encoding of its result, which is not empty: no two texts are
-- read as the same bytes.
pub hex-decode_hex : (v s : Bytes) → decode_hex v ≡ ok s → (hex s ≡ v) × (s ≢ [])
unfolding decode_hex
hex-decode_hex v s h =
    let (valid, read) = guard-eq-ok (valid_lower_hex v) _ _ h in
    let (some_text, even, _) = valid_lower_hex_parts v valid in
    let same = hex-decode_pairs _ v s even read in (same, hex_ne_nil v s same some_text)
