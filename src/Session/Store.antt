-- ===== src/Session/Store.antt =====
-- src/session.rs: record files as capabilities, READY sessions and their leases, over a host.
use Prim.Native.String.{◌++◌ as text_append}
use git_vws.Authority.Identity.{Identity, Authority, same_node}
use git_vws.Authority.Hex.{hex}
use git_vws.Storage.Receipts.{sealed_Eq}
use git_vws.Effect.{M, ◌>>=◌, ◌>>◌, lift, note_ok, silent, map_error, pure}
use git_vws.Session.Types.{SessionRecord, SessionPayload, ready, ReadyPayload}
use git_vws.Session.Names.{record_name, root_name}
use git_vws.Session.Validate.{parse_record}
use git_vws.Session.Host.{
  RecordBinding, binding_Eq, RecordCapability, SessionContext, ReadySession, Event, wrote, removed,
  Host,
}
use git_vws.Base.{
  String, Bool, ◌&&◌, ◌||◌, Option, none, some, if◌then◌else◌, ◌==◌, nat_Eq, string_Eq, bytes_Eq,
  option_bytes_Eq, option_nat_Eq, Bytes, codes, is_empty, contains, Error, Result, ok, error, fail,
  guard, ok_or,
}

unfoldable pub record_binding_recovery : String → Error → Error
record_binding_recovery boundary e =
    error "SESSION_RECOVERY_REQUIRED" (text_append boundary (text_append ": " e.detail))

abbrev pub recovery : String → Error
recovery detail = error "SESSION_RECOVERY_REQUIRED" detail

-- `record_authority_matches`
unfoldable pub record_authority_matches : SessionRecord → Authority → Bool
record_authority_matches r a =
    r.authority_path == hex a.canonical && same_node r.authority_identity a.identity

-- `cstring`: a basename that names one entry.
unfoldable pub cstring : Bytes → Result (Unit {0})
cstring bytes =
    if is_empty bytes || bytes == codes "." || bytes == codes ".." || contains b'/' bytes
    then fail "SESSION_CORRUPT" "invalid basename"
    else if contains 0 bytes
    then fail "SESSION_CORRUPT" "invalid bytes"
    else ok tt

ready_payload : SessionPayload → Result ReadyPayload
ready_payload (ready p) = ok p
ready_payload _ = fail "SESSION_CORRUPT" "session record is not READY"

module _ {W : Type 0} (h : Host W) where
  -- `record_capability_from_binding`
  unfoldable pub capability_from_binding : Bytes → RecordBinding → M W Event RecordCapability
  capability_from_binding basename binding = do
    r ← lift (parse_record h.me h.digest h.to_json h.from_json binding.bytes)
    lift (
        guard (basename == record_name r.sid)
          (error "SESSION_CORRUPT" "session record basename does not match its session ID"))
    pure (record { basename = basename; session_record = r; binding = binding })

  unfoldable pub read_record_capability : Bytes → M W Event RecordCapability
  read_record_capability basename = do
    binding ←
        map_error (record_binding_recovery "cannot read session record capability")
          (silent (h.read_file_binding basename))
    capability_from_binding basename binding

  unfoldable pub checked_record : Authority → RecordCapability → M W Event (Option RecordCapability)
  checked_record authority capability = do
    lift (
        guard (record_authority_matches capability.session_record authority)
          (error "SESSION_CORRUPT" "session record is bound to a different authority"))
    pure (some capability)

  unfoldable pub present_record :
      Bytes → Authority → Option Identity → M W Event (Option RecordCapability)
  present_record name authority none = pure none
  present_record name authority (some i) = read_record_capability name >>= checked_record authority

  unfoldable pub optional_record : Bytes → Authority → M W Event (Option RecordCapability)
  unfolding present_record checked_record
  optional_record name authority = do
    lift (cstring name)
    entry ← silent (h.entry_identity name)
    present_record name authority entry

  unfoldable pub required_record : Bytes → Authority → M W Event RecordCapability
  required_record name authority = do
    found ← optional_record name authority
    lift (ok_or found (error "SESSION_ABSENT" "managed session record does not exist"))

  unfoldable pub revalidate_record : RecordCapability → M W Event RecordCapability
  revalidate_record expected = do
    current ← read_record_capability expected.basename
    lift (
        guard (current.binding == expected.binding)
          (recovery "session record bytes or identity changed across a capability boundary"))
    pure current

  -- `replace_record_capability` with the record that `bytes` encodes. Beginning and committing are one
  -- call of the host, so a failure to begin has here the detail of a failure to commit.
  unfoldable pub replace_record_capability :
      RecordCapability → SessionRecord → Bytes → M W Event RecordCapability
  replace_record_capability expected r bytes = do
    binding ←
        map_error (record_binding_recovery "cannot commit record replacement")
          (note_ok (wrote r) (h.replace_bound expected.basename bytes expected.binding))
    capability_from_binding expected.basename binding

  unfoldable pub remove_record_capability : RecordCapability → M W Event (Unit {0})
  remove_record_capability expected =
      map_error (record_binding_recovery "cannot remove bound session record")
        (note_ok (removed expected.basename) (h.remove_bound expected.basename expected.binding))

  unfoldable pub load_ready_session : SessionContext → SessionRecord → M W Event ReadySession
  unfolding ready_payload
  load_ready_session context r = do
    p ← lift (ready_payload r.payload)
    lift (
        guard
          (record_authority_matches r context.authority
            && p.root_name == root_name r.sid
            && p.worktree.source == r.template)
          (error "SESSION_CORRUPT"
            "READY session record has invalid authority or receipt bindings"))
    silent (h.open_ready context r)

  unfoldable pub load_ready_capability : SessionContext → RecordCapability → M W Event ReadySession
  load_ready_capability context capability = do
    loaded ← load_ready_session context capability.session_record
    _ ← revalidate_record capability
    pure loaded

  -- One identity, compared with the one that is expected.
  unfoldable pub check_node : (W → Result Identity × W) → Identity → M W Event (Unit {0})
  check_node op expected = do
    current ← silent op
    lift (
        guard (same_node current expected)
          (recovery "session root binding changed while its lease was held"))

  unfoldable pub revalidate_ready_lease :
      SessionContext → RecordCapability → ReadySession → M W Event RecordCapability
  unfolding check_node
  revalidate_ready_lease context expected loaded = do
    first ← revalidate_record expected
    checked ← load_ready_session context first.session_record
    current ← revalidate_record first
    check_node (h.handle_identity loaded.root) loaded.root_identity
    check_node (h.identity_at loaded.root_name) loaded.root_identity
    check_node (h.handle_identity checked.root) loaded.root_identity
    check_node (h.handle_identity loaded.common) loaded.common_identity
    check_node (h.handle_identity checked.common) loaded.common_identity
    lift (
        guard (checked.worktree_path == loaded.worktree_path)
          (recovery "session root binding changed while its lease was held"))
    pure current

  unfoldable pub session_context : Bytes → M W Event SessionContext
  session_context repository = do
    found ← silent (h.optional_context repository)
    path ←
        lift (ok_or found.1 (error "SESSION_ABSENT" "authority has no managed session container"))
    pure (record { authority = found.0; sessions_path = path })
