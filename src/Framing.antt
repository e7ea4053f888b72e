-- ===== src/Framing.antt =====
-- `lp` of src/session.rs, src/template.rs and src/storage.rs: the framing of the byte strings that
-- identifiers and fingerprints are digests of. The digest itself, SHA-256, is not part of the program.
use mathlib.Core.List.{reverse, reverse-reverse, reverse-cons}
use native.Mathlib.Nat.{pow-suc}
use git_vws.Base.{
  ℕ, zero, suc, ◌/◌, ◌%◌, ◌^◌, ◌<◌, ◌≡◌, refl, sym, ap, ◌∙◌, ◌≢◌, List, [], ◌∷◌, ◌++◌, append_assoc,
  arith, nat_Eq, string_Eq, bytes_Eq, option_bytes_Eq, length, length-append, All, Bytes,
}

unfoldable pub le_bytes : ℕ → ℕ → Bytes
le_bytes zero n = []
le_bytes (suc width) n = (n % 256) ∷ le_bytes width (n / 256)

-- `to_be_bytes` of a number of `width` bytes.
unfoldable pub be_bytes : ℕ → ℕ → Bytes
unfolding le_bytes
be_bytes width n = reverse (le_bytes width n)

-- What `lp` feeds to the hasher: the length in eight bytes, then the bytes.
unfoldable pub lp : Bytes → Bytes
lp bytes = be_bytes 8 (length bytes) ++ bytes

unfoldable pub frame : List Bytes → Bytes
frame [] = []
frame (f ∷ fs) = lp f ++ frame fs

length-le_bytes : (width n : ℕ) → length (le_bytes width n) ≡ width
unfolding le_bytes
length-le_bytes zero n = refl
length-le_bytes (suc width) n = ap suc (length-le_bytes width (n / 256))

le_bytes-injective :
    (width m n : ℕ)
    → m < 256 ^ width
    → n < 256 ^ width
    → le_bytes width m ≡ le_bytes width n
    → m ≡ n
unfolding le_bytes
le_bytes-injective zero m n hm hn e = omega arith
le_bytes-injective (suc width) m n hm hn e =
    let p = pow-suc 256 width in
    let high = le_bytes-injective width (m / 256) (n / 256) (omega (arith, p)) (omega (arith, p)) in
    ground (arith, high)

be_bytes-injective :
    (width m n : ℕ)
    → m < 256 ^ width
    → n < 256 ^ width
    → be_bytes width m ≡ be_bytes width n
    → m ≡ n
unfolding be_bytes
be_bytes-injective width m n hm hn e =
    le_bytes-injective width m n hm hn (sym (reverse-reverse _) ∙ ap reverse e ∙ reverse-reverse _)

length-reverse : (s : Bytes) → length (reverse s) ≡ length s
length-reverse [] = refl
length-reverse (c ∷ s) =
    omega
      (arith, ap length (reverse-cons c s), length-append (reverse s) (c ∷ []), length-reverse s)

length-be_bytes : (width n : ℕ) → length (be_bytes width n) ≡ width
unfolding be_bytes
length-be_bytes width n = length-reverse _ ∙ length-le_bytes width n

-- Texts of the same length in front are told from what follows.
append_cancel : (a b r s : Bytes) → length a ≡ length b → a ++ r ≡ b ++ s → (a ≡ b) × (r ≡ s)
append_cancel [] [] r s h e = (refl, e)
append_cancel [] (d ∷ b) r s h e = absurd (omega arith)
append_cancel (c ∷ a) [] r s h e = absurd (omega arith)
append_cancel (c ∷ a) (d ∷ b) r s h e = ground (arith, append_cancel a b r s)

-- A field's length fits its eight bytes.
abbrev pub IsShort : Bytes → Type 0
IsShort s = length s < 2 ^ 64

lp_cancel : (a b r s : Bytes) → IsShort a → IsShort b → lp a ++ r ≡ lp b ++ s → (a ≡ b) × (r ≡ s)
unfolding lp
lp_cancel a b r s ha hb e =
    let (lengths, rest) =
      append_cancel (be_bytes 8 (length a)) (be_bytes 8 (length b)) (a ++ r) (b ++ s)
        (length-be_bytes 8 _ ∙ sym (length-be_bytes 8 _))
        (sym (append_assoc _ a r) ∙ e ∙ append_assoc _ b s) in
    append_cancel a b r s (be_bytes-injective 8 (length a) (length b) ha hb lengths) rest

lp-ne-nil : (a r : Bytes) → lp a ++ r ≢ []
unfolding lp
lp-ne-nil a r e = omega (
  arith,
  ap length e,
  length-append (be_bytes 8 (length a) ++ a) r,
  length-append (be_bytes 8 (length a)) a,
  length-be_bytes 8 (length a),
)

-- The framed text determines the fields and their number: no two lists of fields of less than 2^64
-- bytes each are fed to the digest alike.
pub frame-injective :
    (xs ys : List Bytes) → All IsShort xs → All IsShort ys → frame xs ≡ frame ys → xs ≡ ys
unfolding frame
frame-injective [] [] hx hy e = refl
frame-injective [] (y ∷ ys) hx hy e = absurd (lp-ne-nil y (frame ys) (sym e))
frame-injective (x ∷ xs) [] hx hy e = absurd (lp-ne-nil x (frame xs) e)
frame-injective (x ∷ xs) (y ∷ ys) hx hy e =
    let (head, rest) = lp_cancel x y (frame xs) (frame ys) hx.0 hy.0 e in
    cc (head, frame-injective xs ys hx.1 hy.1 rest)

pub be_bytes_inj8 : (m n : ℕ) → m < 2 ^ 64 → n < 2 ^ 64 → be_bytes 8 m ≡ be_bytes 8 n → m ≡ n
be_bytes_inj8 m n hm hn e = be_bytes-injective 8 m n hm hn e

pub be_bytes_inj4 : (m n : ℕ) → m < 2 ^ 32 → n < 2 ^ 32 → be_bytes 4 m ≡ be_bytes 4 n → m ≡ n
be_bytes_inj4 m n hm hn e = be_bytes-injective 4 m n hm hn e

pub be_bytes-IsShort : (width n : ℕ) → width < 2 ^ 64 → IsShort (be_bytes width n)
be_bytes-IsShort width n h = omega (arith, length-be_bytes width n)
