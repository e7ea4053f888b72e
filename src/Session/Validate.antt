-- ===== src/Session/Validate.antt =====
-- src/session.rs: `validate_record`, the gate that every session record passes on its way to and
-- from the disk. `me` is `geteuid()` and `digest` is the hexadecimal SHA-256 digest.
use git_vws.Framing.{frame, be_bytes}
use git_vws.Authority.Identity.{Identity, directory}
use git_vws.Authority.Hex.{decode_hex, valid_lower_hex, is_absolute}
use git_vws.Storage.Receipts.{sealed_Eq}
use git_vws.Storage.Modes.{private_directory}
use git_vws.Session.Names.{
  valid_hash, valid_oid, valid_lower_hash, valid_lower_oid, valid_session_name, root_name,
  tombstone_name,
}
use git_vws.Session.Journal.{Frozen, fields}
use git_vws.Session.Types.{
  SessionRecord, SessionPayload, prepared, materializing, ready, tombstoned,
}
use git_vws.Base.{
  ℕ, ◌*◌, Bool, true, false, ◌&&◌, not, Option, none, some, List, [], ◌∷◌, leb, ◌==◌, nat_Eq,
  string_Eq, bytes_Eq, option_bytes_Eq, length, Bytes, codes, is_empty, contains, Result, ok, error,
  ◌>>=◌, ◌>>◌, guard, ok_or,
}

-- `authority_path_from_record`
unfoldable pub authority_path_from_record : SessionRecord → Result Bytes
authority_path_from_record r = do
  path ← decode_hex r.authority_path
  guard (is_absolute path && not (contains 0 path))
      (error "SESSION_CORRUPT" "session record authority path is not absolute")
  ok path

-- The fields whose digest is a session's identifier.
unfoldable pub id_fields : Bytes → Identity → Bytes → List Bytes
id_fields path i name =
    codes "git-vws/session-id/v1"
    ∷ path
    ∷ be_bytes 8 i.dev
    ∷ be_bytes 8 i.ino
    ∷ be_bytes 4 i.uid
    ∷ name
    ∷ []

module _ (digest : Bytes → Bytes) where
  -- `session_id_for_binding`
  unfoldable pub session_id : Bytes → Identity → Bytes → Bytes
  session_id path i name = digest (frame (id_fields path i name))

-- `owned_directory`
unfoldable pub owned_directory : ℕ → Identity → Bool
owned_directory me i = directory i && i.uid == me && leb 2 i.nlink

unfoldable pub is_ready : SessionPayload → Bool
is_ready (ready p) = true
is_ready _ = false

abbrev pub is_some_and : (Bytes → Bool) → Option Bytes → Bool
is_some_and p none = false
is_some_and p (some s) = p s

abbrev pub is_none_or : (Bytes → Bool) → Option Bytes → Bool
is_none_or p none = true
is_none_or p (some s) = p s

unfoldable pub valid_frozen : SessionPayload → Option Frozen → Bool
valid_frozen payload none = true
valid_frozen payload (some f) =
    is_ready payload
    && valid_lower_hash f.txid
    && valid_lower_oid f.new
    && is_none_or valid_lower_oid f.expected_old
    && valid_lower_hash f.config_fingerprint

unfoldable pub valid_publish_journal : SessionRecord → Bool
unfolding valid_frozen
valid_publish_journal r = valid_frozen r.payload (fields r.journal)

-- The first test of `validate_record`.
unfoldable pub valid_fields : ℕ → SessionRecord → Bool
valid_fields me r =
    r.version == 2
    && valid_hash r.sid
    && valid_hash r.template_key
    && valid_hash r.template.manifest.digest
    && valid_hash r.template.content_digest
    && valid_lower_hex r.authority_path
    && valid_lower_hex r.name
    && valid_lower_hex r.target
    && valid_oid r.base
    && private_directory me r.container_identity
    && not (is_empty r.volume)
    && r.template.volume == r.volume
    && not (is_some_and (λ oid. not (valid_oid oid)) r.expected_old)
    && valid_publish_journal r

-- Its last: the payload's names and identities belong to the stage.
unfoldable pub valid_payload : ℕ → SessionRecord → SessionPayload → Bool
valid_payload me r (prepared root) = root == root_name r.sid
valid_payload me r (materializing root i) = root == root_name r.sid && private_directory me i
valid_payload me r (ready p) =
    p.root_name == root_name r.sid
    && private_directory me p.root_identity
    && private_directory me p.common_identity
    && p.worktree.source == r.template
    && owned_directory me p.worktree.destination
    && valid_hash p.git.dot_git
    && valid_hash p.git.head
    && valid_hash p.git.target_ref
    && valid_hash p.git.index
    && valid_hash p.git.worktrees
    && valid_hash p.git.alternates
valid_payload me r (tombstoned root tombstone i) =
    root == root_name r.sid && tombstone == tombstone_name r.sid && private_directory me i

module _ (me : ℕ) (digest : Bytes → Bytes) where
  unfoldable pub validate_record : SessionRecord → Result (Unit {0})
  validate_record r = do
    guard (valid_fields me r) (error "SESSION_CORRUPT" "session record contains invalid fields")
    name ← decode_hex r.name
    path ← authority_path_from_record r
    guard
        (valid_session_name name
          && directory r.authority_identity
          && r.sid == session_id digest path r.authority_identity name)
        (error "SESSION_CORRUPT" "session record does not prove its authority and name binding")
    guard (valid_payload me r r.payload)
        (error "SESSION_CORRUPT" "session stage bindings are invalid")
    ok tt

abbrev pub max_record : ℕ
max_record = 16 * 1024

module _ (me : ℕ) (digest : Bytes → Bytes) (to_json : SessionRecord → Result Bytes) where
  -- `encode_record`, where `to_json` is `serde_json::to_vec` with its error mapped.
  unfoldable pub encode_record : SessionRecord → Result Bytes
  encode_record r = do
    validate_record me digest r
    bytes ← to_json r
    guard (leb (length bytes) max_record)
        (error "SESSION_CORRUPT" "session record exceeds its receipt limit")
    ok bytes

  -- `parse_record`, where `from_json` is `serde_json::from_slice`.
  unfoldable pub parse_record : (Bytes → Option SessionRecord) → Bytes → Result SessionRecord
  parse_record from_json bytes = do
    r ← ok_or (from_json bytes) (error "SESSION_CORRUPT" "session record is not valid JSON")
    encoded ← encode_record r
    guard (encoded == bytes) (error "SESSION_CORRUPT" "session record is not canonically encoded")
    ok r
