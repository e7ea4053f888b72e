-- ===== src/Session/Publish.antt =====
-- src/session.rs: `publish`, from the selection of a session to the end of its journal.
pub mod Stays
mod Schema
mod Walk
pub mod Success
pub mod Resume
pub mod Guarantees
use Prim.Native.String.{◌++◌ as text_append}
use git_vws.Framing.{frame, be_bytes}
use git_vws.Authority.Identity.{Identity, Authority}
use git_vws.Authority.Hex.{decode_hex}
use git_vws.Effect.{M, ◌>>=◌, ◌>>◌, lift, silent, map_error, pure}
use git_vws.Session.Journal.{
  Frozen, PublishJournal, idle, prepared, objects_imported, cas_attempted, cas_committed, fields,
}
use git_vws.Session.Types.{SessionRecord}
use git_vws.Session.Names.{record_name, selected_name}
use git_vws.Session.Validate.{encode_record, session_id}
use git_vws.Session.Host.{
  Output, success, RecordCapability, SessionContext, ReadySession, Event, Host,
}
use git_vws.Session.Commands.{
  audit_authority_config, validate_publish_target, ensure_publish_target_unchecked_out,
  authority_target_commit, private_target_commit, ensure_private_target,
  ensure_authority_expected_old, ensure_publish_relation, import_publish_objects,
  verify_authority_closure, update_publish_ref,
}
use git_vws.Session.Store.{
  session_context, required_record, load_ready_capability, revalidate_ready_lease,
  replace_record_capability,
}
use git_vws.Base.{
  ℕ, zero, suc, ◌+◌, ◌-◌, ◌*◌, ◌/◌, ◌%◌, ◌^◌, ◌≤◌, ◌<◌, String, ◌≡◌, refl, sym, ap, subst, ◌∙◌, ◌≢◌,
  ◌↔◌, ◌⊎◌, inl, inr, Bool, true, false, ◌&&◌, ◌||◌, not, Option, none, some, List, [], ◌∷◌, ◌++◌,
  map, append_assoc, append-nil, arith, ℕ_discrete, ltb, leb, if◌then◌else◌, Eq, ◌==◌, ==_iff,
  nat_Eq, string_Eq, dec_eq, discrete_Eq, List-discrete, Option-discrete, Bytes-discrete,
  OptionBytes-discrete, bytes_Eq, option_bytes_Eq, option_nat_Eq, OptionNat-discrete, replicate,
  Bool-cases, Option-cases, length, get_or, length-append, all, any, All, All-append, All-mono,
  all→All, All→all, Bytes, codes, IsByte, Lacks, is_empty, is_digit, is_lower_hex, is_hex,
  is_alphanumeric, to_lower, contains, strip_prefix, starts_with, strip_suffix, ends_with, includes,
  cut_first, cut_last, split, strip_prefix-append, strip_prefix_sound, strip_suffix-append,
  strip_suffix_sound, cut_first-append, cut_first_sound, cut_last-append, cut_last_sound,
  split-Lacks, split-append, decimal, parse_unsigned, decimal-All, decimal-ne-nil,
  parse_unsigned-decimal, IsDigit, is_utf8, IsAscii, is_utf8_of_ascii, Error, Result, ok, err,
  error, fail, guard, ok_or, map_err, is_ok, to_option, Result-cases, guard-eq-ok, ok_or-eq-ok,
  ok-injective,
}

-- `ensure_authority_config`
unfoldable pub ensure_authority_config : Bytes → Bytes → Result (Unit {0})
ensure_authority_config current expected =
    guard (current == expected)
      (error "PUBLISH_VERIFY_FAILED" "authority config changed during the publish transaction")

-- `publish_target`
unfoldable pub publish_target : SessionRecord → Result Bytes
publish_target r = elim (decode_hex r.target) [
  | err e ↦ err e
  | ok target ↦
      if is_empty target || contains 0 target
      then fail "SESSION_CORRUPT" "session record target is not a usable Git reference name"
      else ok target
]

-- The fields whose digest is a transaction's identifier.
unfoldable pub txid_fields :
    Authority → SessionRecord → Bytes → Option Bytes → Bytes → Bytes → List Bytes
txid_fields a r target expected_old new config =
    codes "git-vws/publish-id/v1"
    ∷ a.canonical
    ∷ be_bytes 8 a.identity.dev
    ∷ be_bytes 8 a.identity.ino
    ∷ be_bytes 4 a.identity.uid
    ∷ be_bytes 4 a.identity.mode
    ∷ be_bytes 4 a.identity.kind
    ∷ be_bytes 8 a.identity.nlink
    ∷ r.sid
    ∷ r.template_key
    ∷ target
    ∷ elim expected_old [ none ↦ codes "-" | some old ↦ old ]
    ∷ new
    ∷ config
    ∷ []

unfoldable pub publish_recovery : Error → Error
publish_recovery e =
    error "PUBLISH_RECOVERY_REQUIRED"
      (text_append "publish journal outcome requires recovery: " e.detail)

unfoldable pub publish_committed_recovery : Error → Error
publish_committed_recovery e =
    error "PUBLISH_COMMITTED_RECOVERY_REQUIRED"
      (text_append "publish commit outcome requires recovery: " e.detail)

-- `publish_success`
unfoldable pub publish_success : SessionRecord → Bytes → Bytes
publish_success r new = codes "published " ++ (r.target ++ (b' ' ∷ new))

module _ {W : Type 0} (h : Host W) where
  unfoldable pub publish_txid :
      Authority → SessionRecord → Bytes → Option Bytes → Bytes → Bytes → Bytes
  publish_txid a r target expected_old new config =
      h.digest (frame (txid_fields a r target expected_old new config))

  -- `frozen_publish_fields`, by what the journal's `fields` are.
  unfoldable pub frozen_from : Authority → SessionRecord → Bytes → Option Frozen → Result Frozen
  frozen_from a r target none =
      fail "SESSION_CORRUPT" "session record has no frozen publish journal fields"
  frozen_from a r target (some f) =
      if f.txid == publish_txid a r target f.expected_old f.new f.config_fingerprint
      then ok f
      else fail "SESSION_CORRUPT" "publish journal transaction does not match its record binding"

  unfoldable pub frozen_publish_fields : Authority → SessionRecord → Bytes → Result Frozen
  unfolding frozen_from
  frozen_publish_fields a r target = frozen_from a r target (fields r.journal)

  -- `replace_publish_journal`; with another `expected_old` it is `finish_publish_journal`.
  unfoldable pub replace_publish_journal :
      RecordCapability → PublishJournal → M W Event RecordCapability
  replace_publish_journal expected journal = do
    let r = record (expected.session_record) { journal = journal }
    bytes ← lift (encode_record h.me h.digest h.to_json r)
    replace_record_capability h expected r bytes

  unfoldable pub finish_publish_journal :
      RecordCapability → Option Bytes → M W Event RecordCapability
  finish_publish_journal expected expected_old = do
    let r = record (expected.session_record) { expected_old = expected_old; journal = idle }
    bytes ← lift (encode_record h.me h.digest h.to_json r)
    replace_record_capability h expected r bytes

  unfoldable pub abort_publish_conflict : RecordCapability → M W Event Bytes
  abort_publish_conflict expected = do
    _ ← map_error publish_recovery (replace_publish_journal expected idle)
    lift (fail "PUBLISH_CONFLICT" "authority target changed before the publish compare-and-swap")

  unfoldable pub finalize_committed_publish :
      SessionContext → RecordCapability → Bytes → M W Event Bytes
  finalize_committed_publish context capability target = do
    f ← lift (frozen_publish_fields context.authority capability.session_record target)
    finished ← map_error publish_committed_recovery (finish_publish_journal capability (some f.new))
    pure (publish_success finished.session_record f.new)

  -- What follows the compare-and-swap, by the status of its command.
  unfoldable pub settle :
      SessionContext → RecordCapability → Bytes → Frozen → Output → M W Event Bytes
  settle context attempted target f update =
      if success update
      then (map_error publish_committed_recovery
            (replace_publish_journal attempted (cas_committed f))
          >>= λ committed. finalize_committed_publish context committed target)
      else lift (
          fail "PUBLISH_RECOVERY_REQUIRED"
            "authority rejected the publish compare-and-swap and it cannot be replayed")

  -- The compare-and-swap itself, written ahead in the journal.
  unfoldable pub attempt : SessionContext → RecordCapability → Bytes → Frozen → M W Event Bytes
  attempt context capability target f = do
    ensure_publish_target_unchecked_out h context.authority target
    attempted ← map_error publish_recovery (replace_publish_journal capability (cas_attempted f))
    update ←
        map_error publish_recovery
          (update_publish_ref h context.authority target f.new f.expected_old)
    settle context attempted target f update

  unfoldable pub publish_objects_imported :
      SessionContext → RecordCapability → Bytes → Bytes → M W Event Bytes
  publish_objects_imported context capability target common = do
    f ← lift (frozen_publish_fields context.authority capability.session_record target)
    config ← audit_authority_config h context.authority
    lift (ensure_authority_config config f.config_fingerprint)
    validate_publish_target h context.authority target
    ensure_private_target h common target context.authority.object_format f.new
    ensure_publish_relation h common f.expected_old f.new
    verify_authority_closure h context.authority f.new
    current ← authority_target_commit h context.authority target
    if current == f.expected_old
        then attempt context capability target f
        else abort_publish_conflict capability

  -- The import of the objects, and their stage of the journal.
  unfoldable pub import :
      SessionContext → RecordCapability → Bytes → Bytes → Frozen → M W Event Bytes
  import context capability target common f = do
    import_publish_objects h context.authority common f.new
    config ← audit_authority_config h context.authority
    lift (ensure_authority_config config f.config_fingerprint)
    ensure_private_target h common target context.authority.object_format f.new
    verify_authority_closure h context.authority f.new
    imported ← map_error publish_recovery (replace_publish_journal capability (objects_imported f))
    publish_objects_imported context imported target common

  unfoldable pub publish_prepared :
      SessionContext → RecordCapability → Bytes → Bytes → M W Event Bytes
  publish_prepared context capability target common = do
    f ← lift (frozen_publish_fields context.authority capability.session_record target)
    config ← audit_authority_config h context.authority
    lift (ensure_authority_config config f.config_fingerprint)
    validate_publish_target h context.authority target
    ensure_publish_target_unchecked_out h context.authority target
    ensure_private_target h common target context.authority.object_format f.new
    ensure_publish_relation h common f.expected_old f.new
    current ← authority_target_commit h context.authority target
    if current == f.expected_old
        then import context capability target common f
        else abort_publish_conflict capability

  -- The target is already at the session's commit: everything is checked and nothing is written.
  unfoldable pub publish_same :
      SessionContext → RecordCapability → Bytes → Bytes → Bytes → Bytes → M W Event Bytes
  publish_same context capability target common new config = do
    verify_authority_closure h context.authority new
    current ← audit_authority_config h context.authority
    lift (ensure_authority_config current config)
    validate_publish_target h context.authority target
    ensure_private_target h common target context.authority.object_format new
    ensure_authority_expected_old h context.authority target (some new)
    pure (publish_success capability.session_record new)

  -- The journal's first stage.
  unfoldable pub prepare :
      SessionContext → RecordCapability → Bytes → Bytes → Frozen → M W Event Bytes
  prepare context capability target common f = do
    ensure_publish_target_unchecked_out h context.authority target
    ensure_authority_expected_old h context.authority target f.expected_old
    next ← map_error publish_recovery (replace_publish_journal capability (prepared f))
    publish_prepared context next target common

  unfoldable pub publish_idle : SessionContext → RecordCapability → Bytes → Bytes → M W Event Bytes
  publish_idle context capability target common = do
    config ← audit_authority_config h context.authority
    validate_publish_target h context.authority target
    expected_old ← authority_target_commit h context.authority target
    new ← private_target_commit h common target context.authority.object_format
    ensure_publish_relation h common expected_old new
    let txid =
        publish_txid context.authority capability.session_record target expected_old new config
    if expected_old == some new
        then publish_same context capability target common new config
        else prepare context capability target common (record {
          txid = txid;
          new = new;
          expected_old = expected_old;
          config_fingerprint = config;
        })

  -- The two matches of `publish` on the journal.
  unfoldable pub publish_from :
      PublishJournal → SessionContext → RecordCapability → Bytes → Bytes → M W Event Bytes
  publish_from (cas_attempted f) context capability target common = do
    _ ← lift (frozen_publish_fields context.authority capability.session_record target)
    lift (
        fail "PUBLISH_RECOVERY_REQUIRED"
          "a publish compare-and-swap was attempted and cannot be replayed")
  publish_from (cas_committed f) context capability target common =
      finalize_committed_publish context capability target
  publish_from idle context capability target common = publish_idle context capability target common
  publish_from (prepared f) context capability target common =
      publish_prepared context capability target common
  publish_from (objects_imported f) context capability target common =
      publish_objects_imported context capability target common

  -- `publish`, from the record under the exclusive lease on.
  unfoldable pub publish_leased : SessionContext → RecordCapability → ReadySession → M W Event Bytes
  publish_leased context capability loaded = do
    target ← lift (publish_target capability.session_record)
    publish_from capability.session_record.journal context capability target
        (loaded.root_path ++ codes "/common.git")

  unfoldable pub publish : Bytes → Option Bytes → Option Bytes → M W Event Bytes
  publish repository raw_name name_hex = do
    name ← lift (selected_name raw_name name_hex)
    context ← session_context h repository
    let sid = session_id h.digest context.authority.canonical context.authority.identity name
    capability ← required_record h (record_name sid) context.authority
    loaded ← load_ready_capability h context capability
    silent (h.acquire_lease loaded.root true)
    current ← revalidate_ready_lease h context capability loaded
    publish_leased context current loaded
