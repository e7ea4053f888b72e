-- ===== src/Session/Create/Outputs.antt =====
-- src/session.rs: what the outputs of the Git commands of `create` must look like.
use Prim.Native.String.{◌++◌ as text_append}
use git_vws.Session.Host.{Output, success}
use git_vws.Session.Git.{single_line}
use git_vws.Base.{
  String, ◌&&◌, Option, none, some, if◌then◌else◌, ◌==◌, nat_Eq, string_Eq, bytes_Eq,
  option_bytes_Eq, option_nat_Eq, length, all, Bytes, codes, is_empty, is_hex, is_utf8, Result, ok,
  err, error, fail, ◌>>=◌, ◌>>◌, guard, ok_or,
}

unfoldable pub parse_oid_output : Bytes → Bytes → Result Bytes
parse_oid_output output object_format = do
  body ← ok_or (single_line output) (error "GIT_PROBE_FAILED" "Git object ID output was ambiguous")
  guard (is_utf8 body) (error "GIT_PROBE_FAILED" "Git object ID was not ASCII")
  guard (length body == (if object_format == codes "sha1" then 40 else 64) && all is_hex body)
      (error "GIT_PROBE_FAILED" "Git object ID was invalid")
  ok body

unfoldable pub require_clean : Output → String → Result (Unit {0})
require_clean output label =
    guard (success output && is_empty output.stderr)
      (error "SESSION_IO_FAILED" (text_append "Git could not " label))

unfoldable pub clean_git_output : Output → String → Result Bytes
clean_git_output output label =
    if success output && is_empty output.stderr
    then ok output.stdout
    else err (error "SESSION_IO_FAILED" (text_append "Git could not " label))

-- The end of `resolve_target`.
unfoldable pub resolved_target : Output → Bytes → Result (Option Bytes)
unfolding parse_oid_output
resolved_target output object_format =
    if success output
    then (parse_oid_output output.stdout object_format >>= λ oid. ok (some oid))
    else if is_empty output.stdout && is_empty output.stderr
    then ok none
    else fail "GIT_PROBE_FAILED" "cannot resolve the target branch"
