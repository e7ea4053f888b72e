-- ===== src/Session/Git.antt =====
-- src/session.rs: the Git commands of a publication, with what their outputs must look like.
pub mod Outputs
use git_vws.Authority.Identity.{Authority}
use git_vws.Session.Host.{authority_config, Invocation}
use git_vws.Session.Names.{oid_matches_format}
use git_vws.Base.{
  Bool, true, false, ◌&&◌, ◌||◌, not, Option, none, some, List, [], ◌∷◌, ◌++◌, map, if◌then◌else◌,
  ◌==◌, nat_Eq, string_Eq, bytes_Eq, option_bytes_Eq, Bytes, codes, is_empty, to_lower, contains,
  starts_with, strip_suffix, ends_with, includes, cut_first, split, is_utf8, Result, ok, error,
  fail, ◌>>=◌, ok_or,
}

-- `authority_config_entry_is_safe`
unfoldable pub config_key_is_safe : Bytes → Bool
config_key_is_safe key =
    not (starts_with (codes "include.") key)
    && not (starts_with (codes "includeif.") key)
    && not (starts_with (codes "filter.") key)
    && not (starts_with (codes "fsck.") key)
    && not (starts_with (codes "url.") key)
    && not (includes (codes "alternaterefscommand") key)
    && not (
        starts_with (codes "remote.") key
        && (ends_with (codes ".uploadpack") key || ends_with (codes ".vcs") key))
    && not (includes (codes "promisor") key)
    && not (includes (codes "partialclone") key)

unfoldable pub config_entry_is_safe : Bytes → Bytes → Bytes → Bool
unfolding config_key_is_safe
config_entry_is_safe scope origin entry =
    (scope == codes "system"
      || scope == codes "global"
      || scope == codes "local"
      || scope == codes "worktree")
    && starts_with (codes "file:") origin
    && elim (cut_first 10 entry) [
      | none ↦ false
      | some (key, value) ↦ config_key_is_safe (map to_lower key)
    ]

-- The loop of `authority_config_is_safe`: three fields at a time.
unfoldable pub config_rows_are_safe : List Bytes → Bool
config_rows_are_safe [] = true
config_rows_are_safe (scope ∷ []) = false
config_rows_are_safe (scope ∷ origin ∷ []) = false
config_rows_are_safe (scope ∷ origin ∷ entry ∷ rest) =
    let more = config_rows_are_safe rest in
    if config_entry_is_safe scope origin entry then more else false

unfoldable pub authority_config_is_safe : Bytes → Bool
authority_config_is_safe raw = if is_empty raw then true else elim (strip_suffix (0 ∷ []) raw) [
  | none ↦ false
  | some body ↦ config_rows_are_safe (split 0 body)
]

-- `splitn(4, ' ')` with all four fields there.
unfoldable pub four_fields : Bytes → Option (Bytes × Bytes × Bytes × Bytes)
four_fields body = elim (cut_first b' ' body) [
  | none ↦ none
  | some (reference, r1) ↦ elim (cut_first b' ' r1) [
    | none ↦ none
    | some (oid, r2) ↦ elim (cut_first b' ' r2) [
      | none ↦ none
      | some (kind, symref) ↦ some (reference, oid, kind, symref)
    ]
  ]
]

-- `parse_publish_oid`
unfoldable pub parse_publish_oid : Bytes → Bytes → Result Bytes
parse_publish_oid output object_format =
    if is_utf8 output
    then (if oid_matches_format output object_format
        then ok output
        else fail "PUBLISH_VERIFY_FAILED"
            "publish target object ID did not match the authority format")
    else fail "PUBLISH_VERIFY_FAILED" "publish target object ID was not ASCII"

-- The body of the output: one line.
unfoldable pub single_line : Bytes → Option Bytes
single_line output = elim (strip_suffix (10 ∷ []) output) [
  | none ↦ none
  | some body ↦ if contains 10 body then none else some body
]

unfoldable pub parse_reference :
    Bytes → Bytes → Bytes × Bytes × Bytes × Bytes → Result (Option Bytes)
parse_reference expected object_format (reference, oid, kind, symref) =
    if not (reference == expected) || not (kind == codes "commit") || not (is_empty symref)
    then fail "PUBLISH_VERIFY_FAILED" "publish target is not one direct commit reference"
    else (parse_publish_oid oid object_format >>= λ new. ok (some new))

-- `parse_target_commit_output`
unfoldable pub parse_target_commit_output : Bytes → Bytes → Bytes → Result (Option Bytes)
unfolding parse_reference
parse_target_commit_output output expected object_format = if is_empty output then ok none else do
  body ←
      ok_or (single_line output)
        (error "PUBLISH_VERIFY_FAILED" "publish target output was ambiguous")
  parts ←
      ok_or (four_fields body) (error "PUBLISH_VERIFY_FAILED" "publish target output was malformed")
  parse_reference expected object_format parts

abbrev pub heads : Bytes → Bytes
heads target = codes "refs/heads/" ++ target

abbrev pub at_authority : Authority → List Bytes → Invocation
at_authority a args = record {
  args = codes "-C" ∷ a.canonical ∷ args;
  cwd = none;
  audit = authority_config;
}

abbrev pub refs_format : Bytes
refs_format = codes "--format=%(refname) %(objectname) %(objecttype) %(symref)"
