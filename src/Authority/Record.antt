-- ===== src/Authority/Record.antt =====
-- src/authority.rs: `Record`, its text form and `parse_record`.
use Prim.Native.String.{◌++◌ as text_append}
use git_vws.Authority.Paths.{same_path}
use git_vws.Authority.Identity.{Identity, Authority, directory_type}
use git_vws.Authority.Hex.{hex, hex_lower, decode_path, decode_path-hex, is_absolute}
use git_vws.Base.{
  ℕ, ◌-◌, ◌^◌, ◌≤◌, ◌<◌, String, ◌≡◌, refl, sym, ap, ◌∙◌, ◌≢◌, ◌⊎◌, inl, inr, Bool, true, false,
  ◌&&◌, ◌||◌, none, some, List, [], ◌∷◌, ◌++◌, append_assoc, arith, if◌then◌else◌, ◌==◌, nat_Eq,
  string_Eq, Bytes-discrete, bytes_Eq, option_bytes_Eq, All, All-append, All-mono, all→All, Bytes,
  codes, IsByte, Lacks, is_empty, is_lower_hex, contains, strip_prefix, starts_with, strip_suffix,
  split, strip_prefix-append, strip_suffix-append, split-Lacks, split-append, decimal,
  parse_unsigned, decimal-All, decimal-ne-nil, parse_unsigned-decimal, is_utf8, IsAscii,
  is_utf8_of_ascii, Result, ok, error, fail, ◌>>=◌, ◌>>◌, guard, ok_or,
}

pub record Record : Type 0 where
  pub canonical : Bytes
  pub identity : Identity
  pub object_format : Bytes
  pub ref_format : Bytes

-- `Record::from(&Authority)`
unfoldable pub from_authority : Authority → Record
from_authority a = record {
  canonical = a.canonical;
  identity = a.identity;
  object_format = a.object_format;
  ref_format = a.ref_format;
}

unfoldable pub exactly_matches : Record → Authority → Bool
exactly_matches r a =
    same_path r.canonical a.canonical
    && r.identity.dev == a.identity.dev
    && r.identity.ino == a.identity.ino
    && r.identity.uid == a.identity.uid
    && r.identity.mode == a.identity.mode
    && r.identity.kind == a.identity.kind
    && r.object_format == a.object_format
    && r.ref_format == a.ref_format

abbrev newline : ℕ
newline = 10

-- `key=value`
abbrev line : String → Bytes → Bytes
line key value = (codes key ++ (b'=' ∷ [])) ++ value

abbrev unlines : List Bytes → Bytes
unlines [] = []
unlines (l ∷ ls) = l ++ (newline ∷ unlines ls)

abbrev lines : Record → List Bytes
lines r =
    line "version" (codes "1")
    ∷ line "path" (hex r.canonical)
    ∷ line "dev" (decimal r.identity.dev)
    ∷ line "ino" (decimal r.identity.ino)
    ∷ line "uid" (decimal r.identity.uid)
    ∷ line "mode" (decimal r.identity.mode)
    ∷ line "object" r.object_format
    ∷ line "ref" r.ref_format
    ∷ []

-- `Record::encode`
unfoldable pub encode : Record → Bytes
encode r = unlines (lines r)

-- `field`: the text behind `key=`, which is not empty.
unfoldable pub field : String → Bytes → Result Bytes
field key l =
    let invalid =
      fail {A = Bytes} "STATE_CORRUPT" (text_append "invalid " (text_append key " field")) in
    elim (strip_prefix (codes key ++ (b'=' ∷ [])) l) [
      | none ↦ invalid
      | some value ↦ if is_empty value then invalid else ok value
    ]

unfoldable pub parse_number : ℕ → Bytes → String → Result ℕ
parse_number max value key =
    ok_or (parse_unsigned max value)
      (error "STATE_CORRUPT" (text_append "invalid " (text_append key " number")))

-- `supported_format` as `parse_record` calls it, with its error mapped.
unfoldable pub supported : Bytes → Bytes → Bytes → String → Result Bytes
supported one other value detail =
    if value == one || value == other then ok value else fail "STATE_CORRUPT" detail

abbrev u64_max : ℕ
u64_max = 2 ^ 64 - 1

abbrev u32_max : ℕ
u32_max = 2 ^ 32 - 1

unfoldable pub parse_fields : List Bytes → Result Record
parse_fields (l0 ∷ l1 ∷ l2 ∷ l3 ∷ l4 ∷ l5 ∷ l6 ∷ l7 ∷ []) = do
  version ← field "version" l0
  path ← field "path" l1
  dev_text ← field "dev" l2
  ino_text ← field "ino" l3
  uid_text ← field "uid" l4
  mode_text ← field "mode" l5
  object ← field "object" l6
  ref ← field "ref" l7
  guard (version == codes "1") (error "STATE_CORRUPT" "unknown state record version")
  object_format ← supported (codes "sha1") (codes "sha256") object "invalid state object format"
  ref_format ← supported (codes "files") (codes "reftable") ref "invalid state ref format"
  canonical ← decode_path path
  dev ← parse_number u64_max dev_text "dev"
  ino ← parse_number u64_max ino_text "ino"
  uid ← parse_number u32_max uid_text "uid"
  mode ← parse_number u32_max mode_text "mode"
  ok (record {
    canonical = canonical;
    identity = record {
      dev = dev;
      ino = ino;
      uid = uid;
      mode = mode;
      kind = directory_type;
      nlink = 0;
    };
    object_format = object_format;
    ref_format = ref_format;
  })
parse_fields _ = fail "STATE_CORRUPT" "state record has the wrong field count"

unfoldable pub parse_record : Bytes → Result Record
unfolding parse_fields
parse_record bytes = do
  guard (is_utf8 bytes) (error "STATE_CORRUPT" "state record is not UTF-8")
  body ←
      ok_or (strip_suffix (newline ∷ []) bytes)
        (error "STATE_CORRUPT" "state record lacks a final newline")
  parse_fields (split newline body)

-- What an authority record holds: a path and numbers that fit their fields.
pub record IsEncodable (r : Record) : Type 0 where
  pub bytes : All IsByte r.canonical
  pub absolute : is_absolute r.canonical ≡ true
  pub no_nul : contains 0 r.canonical ≡ false
  pub dev : r.identity.dev ≤ u64_max
  pub ino : r.identity.ino ≤ u64_max
  pub uid : r.identity.uid ≤ u32_max
  pub mode : r.identity.mode ≤ u32_max
  pub object : (r.object_format ≡ codes "sha1") ⊎ (r.object_format ≡ codes "sha256")
  pub ref : (r.ref_format ≡ codes "files") ⊎ (r.ref_format ≡ codes "reftable")

abbrev joined : List Bytes → Bytes
joined [] = []
joined (l ∷ []) = l
joined (l ∷ m ∷ ls) = l ++ (newline ∷ joined (m ∷ ls))

unlines-joined :
    (l : Bytes) (ls : List Bytes) → unlines (l ∷ ls) ≡ joined (l ∷ ls) ++ (newline ∷ [])
unlines-joined l [] = refl
unlines-joined l (m ∷ ls) = rw (unlines-joined m ls) (sym (append_assoc l _ _))

split-joined :
    (l : Bytes) (ls : List Bytes)
    → All (Lacks newline) (l ∷ ls)
    → split newline (joined (l ∷ ls)) ≡ l ∷ ls
split-joined l [] h = split-Lacks newline l h.0
split-joined l (m ∷ ls) h = split-append newline l _ h.0 ∙ ap (λ r. l ∷ r) (split-joined m ls h.1)

field-line :
    (key : String) (value : Bytes) → is_empty value ≡ false → field key (line key value) ≡ ok value
unfolding field
field-line key value h =
    rw (strip_prefix-append (codes key ++ (b'=' ∷ [])) value, field) (ground arith)

parse_number-decimal :
    (max n : ℕ) → n ≤ max → (key : String) → parse_number max (decimal n) key ≡ ok n
unfolding parse_number
parse_number-decimal max n h key = rw (parse_unsigned-decimal max n h, ok_or)

supported_self :
    (one other value : Bytes) (detail : String)
    → (value ≡ one) ⊎ (value ≡ other)
    → supported one other value detail ≡ ok value
unfolding supported
supported_self one other value detail h = ground arith

-- Neither a line's end nor outside ASCII.
abbrev IsPlain : ℕ → Type 0
IsPlain c = (c < 0x80) × (c ≢ newline)

hex-IsPlain : (s : Bytes) → All IsByte s → All IsPlain (hex s)
hex-IsPlain s h = all→All is_lower_hex (hex s) (λ c e. ground arith) (hex_lower s h)

decimal-IsPlain : (n : ℕ) → All IsPlain (decimal n)
decimal-IsPlain n = All-mono (decimal n) (λ c h. ground arith) (decimal-All n)

decimal_some : (n : ℕ) → is_empty (decimal n) ≡ false
decimal_some n = ground (arith, decimal-ne-nil n)

either-IsPlain :
    (one other value : Bytes)
    → All IsPlain one
    → All IsPlain other
    → (value ≡ one) ⊎ (value ≡ other)
    → All IsPlain value
either-IsPlain one other value h k (inl e) = rw e h
either-IsPlain one other value h k (inr e) = rw e k

hex_some : (s : Bytes) → is_absolute s ≡ true → is_empty (hex s) ≡ false
unfolding is_absolute hex
hex_some [] h = unfold starts_with in absurd (cc)
hex_some (c ∷ s) h = refl

either_some :
    (one other value : Bytes)
    → is_empty one ≡ false
    → is_empty other ≡ false
    → (value ≡ one) ⊎ (value ≡ other)
    → is_empty value ≡ false
either_some one other value h k (inl e) = rw e h
either_some one other value h k (inr e) = rw e k

lines-IsPlain : (r : Record) → IsEncodable r → All (All IsPlain) (lines r)
lines-IsPlain r v =
    let plain_line = λ (key : String) (value : Bytes) (k : All IsPlain (codes key ++ (b'=' ∷ []))).
      All-append IsPlain (codes key ++ (b'=' ∷ [])) value k in
    (
      omega arith,
      (
        plain_line "path" _ (omega arith) (hex-IsPlain r.canonical v.bytes),
        (
          plain_line "dev" _ (omega arith) (decimal-IsPlain r.identity.dev),
          (
            plain_line "ino" _ (omega arith) (decimal-IsPlain r.identity.ino),
            (
              plain_line "uid" _ (omega arith) (decimal-IsPlain r.identity.uid),
              (
                plain_line "mode" _ (omega arith) (decimal-IsPlain r.identity.mode),
                (
                  plain_line "object" _ (omega arith) (
                      either-IsPlain (codes "sha1") (codes "sha256") r.object_format (omega arith)
                        (omega arith) v.object),
                  (
                    plain_line "ref" _ (omega arith) (
                        either-IsPlain (codes "files") (codes "reftable") r.ref_format (omega arith)
                          (omega arith) v.ref),
                    tt,
                  ),
                ),
              ),
            ),
          ),
        ),
      ),
    )

unlines-IsAscii : (ls : List Bytes) → All (All IsPlain) ls → All IsAscii (unlines ls)
unlines-IsAscii [] h = tt
unlines-IsAscii (l ∷ ls) h =
    All-append IsAscii l _ (All-mono l (λ c p. p.0) h.0) (omega arith, unlines-IsAscii ls h.1)

lines_Lacks : (ls : List Bytes) → All (All IsPlain) ls → All (Lacks newline) ls
lines_Lacks [] h = tt
lines_Lacks (l ∷ ls) h = (All-mono l (λ c p. p.1) h.0, lines_Lacks ls h.1)

-- What is read back: the kind is a directory's and the link count is not recorded.
abbrev pub recorded : Record → Record
recorded r = record r { identity = record (r.identity) { kind = directory_type; nlink = 0 } }

parse_fields-lines : (r : Record) → IsEncodable r → parse_fields (lines r) ≡ ok (recorded r)
unfolding parse_fields Bytes-discrete
parse_fields-lines r v = rw (
  field-line "version" (codes "1") refl,
  field-line "path" (hex r.canonical) (hex_some r.canonical v.absolute),
  field-line "dev" (decimal r.identity.dev) (decimal_some r.identity.dev),
  field-line "ino" (decimal r.identity.ino) (decimal_some r.identity.ino),
  field-line "uid" (decimal r.identity.uid) (decimal_some r.identity.uid),
  field-line "mode" (decimal r.identity.mode) (decimal_some r.identity.mode),
  field-line "object" r.object_format
      (either_some (codes "sha1") (codes "sha256") _ refl refl v.object),
  field-line "ref" r.ref_format (either_some (codes "files") (codes "reftable") _ refl refl v.ref),
  supported_self (codes "sha1") (codes "sha256") r.object_format "invalid state object format"
      v.object,
  supported_self (codes "files") (codes "reftable") r.ref_format "invalid state ref format" v.ref,
  decode_path-hex r.canonical v.bytes v.absolute v.no_nul,
  parse_number-decimal u64_max r.identity.dev v.dev "dev",
  parse_number-decimal u64_max r.identity.ino v.ino "ino",
  parse_number-decimal u32_max r.identity.uid v.uid "uid",
  parse_number-decimal u32_max r.identity.mode v.mode "mode",
)

-- Every record that the program can hold is read back from its text.
pub parse_record-encode : (r : Record) → IsEncodable r → parse_record (encode r) ≡ ok (recorded r)
unfolding parse_record encode
parse_record-encode r v = rw (
  is_utf8_of_ascii (unlines (lines r)) (unlines-IsAscii (lines r) (lines-IsPlain r v)),
  unlines-joined _ _,
  strip_suffix-append (joined (lines r)) (newline ∷ []),
  split-joined _ _ (lines_Lacks (lines r) (lines-IsPlain r v)),
  parse_fields-lines r v,
)
