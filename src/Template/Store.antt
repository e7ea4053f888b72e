-- ===== src/Template/Store.antt =====
-- src/template.rs: the container of the templates as the collection sees it, and the capability of a
-- template's record.
use git_vws.Authority.Identity.{Identity, same_node}
use git_vws.Storage.Receipts.{
  SealedTreeReceipt, SealedTreeReceipt-discrete, ManifestReceipt-discrete,
}
use git_vws.Storage.Modes.{private_directory, sealed_directory, owned_tree_binding}
use git_vws.Authority.Identity.{Identity-discrete}
use git_vws.Effect.{M, ◌>>=◌, ◌>>◌, lift, note_ok, silent, map_error, pure}
use git_vws.Session.Host.{RecordBinding, binding_Eq}
use git_vws.Template.Record.{TemplatePayload, TemplateRecord, is_basename, parse_record}
use git_vws.Base.{
  ℕ, String, Bool, true, false, ◌&&◌, ◌||◌, Option, none, some, List, ◌++◌, ℕ_discrete, Eq, ◌==◌,
  nat_Eq, string_Eq, discrete_Eq, Bytes-discrete, bytes_Eq, option_bytes_Eq, option_nat_Eq, Bytes,
  codes, starts_with, ends_with, is_utf8, Error, Result, error, guard, ok_or,
}

unfoldable pub TemplatePayload-discrete : Discrete TemplatePayload
unfolding Bytes-discrete Identity-discrete SealedTreeReceipt-discrete
TemplatePayload-discrete = hlevel (Bytes-discrete, Identity-discrete, SealedTreeReceipt-discrete)

unfoldable pub TemplateRecord-discrete : Discrete TemplateRecord
unfolding Bytes-discrete ManifestReceipt-discrete TemplatePayload-discrete
TemplateRecord-discrete =
    hlevel (ℕ_discrete, Bytes-discrete, ManifestReceipt-discrete, TemplatePayload-discrete)

instance abbrev pub template_record_Eq : Eq TemplateRecord
template_record_Eq = discrete_Eq TemplateRecord-discrete

-- src/template.rs: `TemplateCapability`
pub record TemplateCapability : Type 0 where
  pub basename : Bytes
  pub template_record : TemplateRecord
  pub binding : RecordBinding

-- src/authority.rs: `RecordTxnTemporary`
pub record RecordTxnTemporary : Type 0 where
  pub final_name : Bytes
  pub binding : RecordBinding

-- What a collection does to the templates, and the answers that it does it on.
pub data TemplateEvent : Type 0 where
  -- The sessions were asked for the keys of their templates, and these are all.
  counted : List Bytes → TemplateEvent
  -- This record replaced the one before it, its tree was removed, it was removed.
  wrote destroyed removed : TemplateRecord → TemplateEvent
  -- A temporary record file was removed.
  cleaned : Bytes → TemplateEvent

-- The operating system and the components below; a descriptor is a number.
pub record Store (W : Type 0) : Type 0 where
  -- `storage::directory_names` and `authority::is_ignorable_system_metadata`, in the container
  pub directory_names : W → Result (List Bytes) × W
  pub is_ignorable : Bytes → W → Result Bool × W
  -- `fstatat`: the entry if it is there
  pub entry_identity : Bytes → W → Result (Option Identity) × W
  pub open_directory : Bytes → W → Result ℕ × W
  pub identity_of : ℕ → W → Result Identity × W
  pub volume_id : ℕ → W → Result Bytes × W
  pub verify_sealed_tree : ℕ → SealedTreeReceipt → W → Result (Unit {0}) × W
  -- `acquire_template_lease`, exclusive
  pub acquire_exclusive : ℕ → W → Result (Unit {0}) × W
  pub change_mode : ℕ → ℕ → W → Result (Unit {0}) × W
  pub sync_all : ℕ → W → Result (Unit {0}) × W
  pub rename_no_replace : Bytes → Bytes → W → Result (Unit {0}) × W
  pub sync_container : W → Result (Unit {0}) × W
  -- `storage::remove_owned_tree_gc`
  pub remove_owned_tree_gc : Bytes → Identity → W → Result (Unit {0}) × W
  -- `authority::read_file_binding`, `RecordTxn::begin_bound` with `commit`, `remove_record_bound`
  pub read_file_binding : Bytes → W → Result RecordBinding × W
  pub replace_bound : Bytes → Bytes → RecordBinding → W → Result RecordBinding × W
  pub remove_bound : Bytes → RecordBinding → W → Result (Unit {0}) × W
  -- `authority::record_txn_temporary` and `remove_record_txn_temporary_bound`
  pub record_txn_temporary : Bytes → W → Result (Option RecordTxnTemporary) × W
  pub remove_temporary : Bytes → RecordBinding → W → Result (Unit {0}) × W
  -- `serde_json`, `geteuid` and whether the build is for macOS
  pub to_json : TemplateRecord → Result Bytes
  pub from_json : Bytes → Option TemplateRecord
  pub me : ℕ
  pub macos : Bool

abbrev pub corrupt : String → Error
corrupt detail = error "TEMPLATE_CORRUPT" detail

-- `template_recovery`
abbrev pub template_recovery : String → Error
template_recovery detail = error "TEMPLATE_RECOVERY_REQUIRED" detail

unfoldable pub record_name : Bytes → Bytes
record_name key = codes "template-" ++ (key ++ codes ".record")

unfoldable pub template_record_name : Bytes → Bool
template_record_name name = starts_with (codes "template-") name && ends_with (codes ".record") name

unfoldable pub tombstone_cleanup_mode : ℕ → Identity → Bool
tombstone_cleanup_mode me i = sealed_directory me i || private_directory me i

module _ {W : Type 0} (s : Store W) where
  unfoldable pub cstring : Bytes → Result (Unit {0})
  cstring name = guard (is_basename name) (error "TEMPLATE_INVALID" "invalid basename")

  unfoldable pub named_identity : Bytes → M W TemplateEvent (Option Identity)
  named_identity name = do lift (cstring name); silent (s.entry_identity name)

  unfoldable pub parse : Bytes → Result TemplateRecord
  parse bytes = parse_record s.me s.to_json s.from_json bytes

  -- The end of `read_template_capability`, with the entry that was found.
  unfoldable pub read_present :
      Bytes → Option Identity → M W TemplateEvent (Option TemplateCapability)
  read_present name none = pure none
  read_present name (some i) = do
    binding ← silent (s.read_file_binding name)
    r ← lift (parse binding.bytes)
    lift (
        guard (name == record_name r.key)
          (corrupt "template record basename does not match its key"))
    pure (some (record { basename = name; template_record = r; binding = binding }))

  unfoldable pub read_template_capability : Bytes → M W TemplateEvent (Option TemplateCapability)
  unfolding read_present
  read_template_capability name = do
    lift (guard (is_utf8 name) (corrupt "template record name is not UTF-8"))
    entry ← named_identity name
    read_present name entry

  -- The test of an open root in `revalidate_template_capability`.
  unfoldable pub check_root : Option (ℕ × Identity) → M W TemplateEvent (Unit {0})
  check_root none = pure tt
  check_root (some (descriptor, i)) = do
    now ← silent (s.identity_of descriptor)
    lift (
        guard (same_node now i)
          (template_recovery "template root changed while its lease was held"))

  unfoldable pub revalidate_template_capability :
      TemplateCapability → Option (ℕ × Identity) → M W TemplateEvent TemplateCapability
  unfolding check_root
  revalidate_template_capability expected root = do
    found ← read_template_capability expected.basename
    current ←
        lift
          (ok_or found (template_recovery "template record disappeared while its lease was held"))
    lift (
        guard
          (current.binding == expected.binding
            && current.template_record == expected.template_record)
          (template_recovery "template record changed while its lease was held"))
    check_root root
    pure current

  unfoldable pub sealed_root : Bytes → SealedTreeReceipt → Bytes → M W TemplateEvent ℕ
  sealed_root name sealed volume = do
    found ← named_identity name
    entry ← lift (ok_or found (corrupt "sealed template root is absent"))
    lift (guard (same_node entry sealed.root) (corrupt "sealed template root identity is invalid"))
    lift (cstring name)
    root ←
        map_error (λ e. corrupt "sealed template root type is invalid")
          (silent (s.open_directory name))
    descriptor ← silent (s.identity_of root)
    lift (
        guard (same_node descriptor entry && sealed_directory s.me descriptor)
          (corrupt "sealed template root binding is invalid"))
    volume_now ← silent (s.volume_id root)
    lift (guard (volume_now == volume) (corrupt "sealed template root binding is invalid"))
    silent (s.verify_sealed_tree root sealed)
    pure root

  -- The last test of `validate_template_tombstone_root`.
  unfoldable pub verify_if_sealed : Bool → ℕ → SealedTreeReceipt → M W TemplateEvent (Unit {0})
  verify_if_sealed true root sealed = silent (s.verify_sealed_tree root sealed)
  verify_if_sealed false root sealed = pure tt

  unfoldable pub validate_template_tombstone_root :
      ℕ → SealedTreeReceipt → Bytes → M W TemplateEvent (Unit {0})
  validate_template_tombstone_root root sealed volume = do
    i ← silent (s.identity_of root)
    let invalid = template_recovery "template tombstone root binding is invalid"
    lift (guard (owned_tree_binding s.me i sealed.root && tombstone_cleanup_mode s.me i) invalid)
    volume_now ← silent (s.volume_id root)
    lift (guard (volume_now == volume) invalid)
    verify_if_sealed (sealed_directory s.me i) root sealed

  unfoldable pub tombstone_root : Bytes → SealedTreeReceipt → Bytes → M W TemplateEvent ℕ
  tombstone_root name sealed volume = do
    found ← named_identity name
    entry ← lift (ok_or found (template_recovery "template tombstone root is absent"))
    lift (cstring name)
    root ←
        map_error (λ e. template_recovery "template tombstone root type is invalid")
          (silent (s.open_directory name))
    descriptor ← silent (s.identity_of root)
    lift (
        guard (same_node entry descriptor && owned_tree_binding s.me entry sealed.root)
          (template_recovery "template tombstone root binding changed while opening"))
    validate_template_tombstone_root root sealed volume
    pure root

  unfoldable pub revalidate_template_tombstone_capability :
      TemplateCapability → ℕ → SealedTreeReceipt → M W TemplateEvent TemplateCapability
  revalidate_template_tombstone_capability expected root sealed = do
    current ← revalidate_template_capability expected none
    validate_template_tombstone_root root sealed current.template_record.volume
    pure current

  unfoldable pub replace_template_capability :
      TemplateCapability → TemplateRecord → Bytes → M W TemplateEvent TemplateCapability
  replace_template_capability expected r bytes = do
    binding ← note_ok (wrote r) (s.replace_bound expected.basename bytes expected.binding)
    written ← lift (parse binding.bytes)
    pure (record { basename = expected.basename; template_record = written; binding = binding })

  unfoldable pub remove_template_record : TemplateCapability → M W TemplateEvent (Unit {0})
  remove_template_record expected =
      note_ok (removed expected.template_record) (s.remove_bound expected.basename expected.binding)
