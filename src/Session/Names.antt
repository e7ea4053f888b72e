-- ===== src/Session/Names.antt =====
-- src/session.rs: the texts that name sessions, objects and files.
use git_vws.Authority.Hex.{decode_hex, valid_lower_hex}
use git_vws.Base.{
  ℕ, Bool, false, ◌&&◌, ◌||◌, not, Option, none, some, ◌++◌, if◌then◌else◌, ◌==◌, nat_Eq, string_Eq,
  bytes_Eq, option_bytes_Eq, length, all, Bytes, codes, is_empty, is_lower_hex, is_hex, contains,
  strip_prefix, starts_with, strip_suffix, ends_with, Result, ok, fail, ◌>>=◌,
}

unfoldable pub valid_session_name : Bytes → Bool
valid_session_name bytes = not (is_empty bytes) && not (contains 0 bytes)

-- `selected_name`: exactly one of NAME and --name-hex.
unfoldable pub selected_name : Option Bytes → Option Bytes → Result Bytes
selected_name (some name) none =
    if valid_session_name name then ok name else fail "SESSION_USAGE" "session name is invalid"
selected_name none (some encoded) =
    if valid_lower_hex encoded
    then (decode_hex encoded >>= λ bytes.
        if valid_session_name bytes
        then ok bytes
        else fail "SESSION_USAGE" "--name-hex decodes to an invalid name")
    else fail "SESSION_USAGE" "--name-hex must be lowercase non-empty even-length hexadecimal"
selected_name _ _ = fail "SESSION_USAGE" "select exactly one of NAME or --name-hex"

unfoldable pub root_name : Bytes → Bytes
root_name sid = codes "session-" ++ (sid ++ codes ".root")

unfoldable pub tombstone_name : Bytes → Bytes
tombstone_name sid = codes "session-" ++ (sid ++ codes ".tombstone")

unfoldable pub record_name : Bytes → Bytes
record_name sid = codes "session-" ++ (sid ++ codes ".record")

unfoldable pub session_record_name : Bytes → Bool
session_record_name name = starts_with (codes "session-") name && ends_with (codes ".record") name

unfoldable pub valid_hash : Bytes → Bool
valid_hash value = length value == 64 && all is_hex value

unfoldable pub valid_lower_hash : Bytes → Bool
valid_lower_hash value = length value == 64 && all is_lower_hex value

unfoldable pub valid_oid : Bytes → Bool
valid_oid value = (length value == 40 || length value == 64) && all is_hex value

unfoldable pub valid_lower_oid : Bytes → Bool
valid_lower_oid value = (length value == 40 || length value == 64) && all is_lower_hex value

-- `oid_matches_format`
unfoldable pub oid_matches_format : Bytes → Bytes → Bool
oid_matches_format oid object_format =
    if object_format == codes "sha1"
    then length oid == 40 && all is_lower_hex oid
    else if object_format == codes "sha256"
    then length oid == 64 && all is_lower_hex oid
    else false

-- One suffix of the loop in `pack_entry_name`: the object id between prefix and suffix.
unfoldable pub pack_oid : Bytes → Bytes → Option Bytes
pack_oid name suffix = elim (strip_prefix (codes "pack-") name) [
  | none ↦ none
  | some value ↦ strip_suffix suffix value
]

unfoldable pub pack_entry_name : Bytes → ℕ → Bool
pack_entry_name name oid_length = elim (pack_oid name (codes ".pack")) [
  | some oid ↦ length oid == oid_length && all is_lower_hex oid
  | none ↦ elim (pack_oid name (codes ".idx")) [
    | some oid ↦ length oid == oid_length && all is_lower_hex oid
    | none ↦ elim (pack_oid name (codes ".rev")) [
      | some oid ↦ length oid == oid_length && all is_lower_hex oid
      | none ↦ false
    ]
  ]
]

unfoldable pub pack_entry_pair : Bytes → Option Bytes
pack_entry_pair name = elim (strip_suffix (codes ".pack") name) [
  | some stem ↦ some (stem ++ codes ".idx")
  | none ↦ elim (strip_suffix (codes ".idx") name) [
    | some stem ↦ some (stem ++ codes ".pack")
    | none ↦ elim (strip_suffix (codes ".rev") name) [
      | some stem ↦ some (stem ++ codes ".pack")
      | none ↦ none
    ]
  ]
]

unfoldable pub loose_fanout_name : Bytes → Bool
loose_fanout_name name = length name == 2 && all is_lower_hex name
