-- ===== src/Tests/Removing.antt =====
-- Removals on the fixture's host, and their properties there.
use git_vws.Authority.Hex
use git_vws.Storage.Modes
use git_vws.Authority.Identity
use git_vws.Storage.Receipts
use git_vws.Session.Host
use git_vws.Session.Journal
use git_vws.Session.Types
use git_vws.Session.Store
use git_vws.Session.Commands
use git_vws.Session.Git
use git_vws.Session.Validate
use git_vws.Session.Names
use git_vws.Framing
use git_vws.Effect
use git_vws.Effect.{World}
use git_vws.Session.Journal.{PublishJournal, idle, cas_attempted, is_idle}
use git_vws.Session.Types.{SessionRecord, SessionPayload}
use git_vws.Session.Validate.{validate_record}
use git_vws.Session.Host.{RecordCapability, SessionContext, Event, Host}
use git_vws.Session.Lifecycle
use git_vws.Session.Lifecycle.{session_precedes}
use git_vws.Session.Lifecycle.Removal
use git_vws.Session.Lifecycle.Refusals
use git_vws.Session.Lifecycle.Refusals.{stage}
use git_vws.Tests.Fixture.{
  some_host, some_record, some_frozen, some_context, capability_of, world_of, tombstoned_record,
}
use git_vws.Base.{
  ℕ, ◌+◌, ◌≡◌, refl, inl, true, [], ◌∷◌, ℕ_discrete, nat_Eq, string_Eq, List-discrete,
  Option-discrete, Bytes-discrete, OptionBytes-discrete, bytes_Eq, option_bytes_Eq, option_nat_Eq,
  OptionNat-discrete, Bytes, contains, strip_prefix, starts_with, strip_suffix, ends_with, includes,
  cut_first, cut_last, split, decimal, parse_unsigned, is_utf8, Error, Result, ok, err,
}

abbrev removing : SessionRecord → ℕ → Result (Unit {0}) × World Bytes Event
removing r tag =
    Lifecycle.remove_recorded some_host some_context (capability_of r (tag ∷ [])) true
      (world_of tag)

abbrev attempted_record : SessionRecord
attempted_record = record some_record { journal = cas_attempted some_frozen }

remove_recorded-order_example :
    Removal.Outcome
      (Removal.Gone (λ r. validate_record some_host.me some_host.digest r) [])
      (Removal.Underway (λ r. validate_record some_host.me some_host.digest r) [])
      (removing some_record 0)
remove_recorded-order_example =
    Removal.remove_recorded-order some_host some_context (capability_of some_record (0 ∷ [])) true
      (world_of 0)

remove_recorded-refuses_example : (e : Error) × (removing attempted_record 3 ≡ (err e, world_of 3))
remove_recorded-refuses_example =
    Refusals.remove_recorded-refuses some_host some_context
      (capability_of attempted_record (3 ∷ [])) true (world_of 3) (inl refl)

precedes : session_precedes some_record tombstoned_record ≡ true
unfolding session_precedes Lifecycle.matches_existing Lifecycle.stage_precedes Hex.hex Hex.hex_digit
    Hex.decode_pairs Hex.is_absolute Hex.decode_path Hex.path_hash Hex.valid_lower_hex
    Hex.decode_hex Modes.session_mode Modes.stable_directory_node Modes.private_directory
    Modes.sealed_directory Modes.publishing_directory Modes.publishing_binding Modes.sealed_regular
    Modes.worktree_directory Modes.clone_destination_directory Modes.owned_tree_binding
    Modes.owned_regular Modes.owned_cleanup_regular Modes.empty_owned_directory_binding
    Modes.cleanup_mode_directory Modes.valid_basename Identity.Identity-discrete Identity.from_stat
    Identity.same_node Identity.matches Identity.valid_state_root Identity.valid_state_container
    Identity.safe_new_root Identity.valid_record Identity.valid_private_record
    Receipts.ManifestReceipt-discrete Receipts.SealedTreeReceipt-discrete
    Receipts.CowReceipt-discrete Host.RecordBinding-discrete Journal.Frozen-discrete
    Journal.PublishJournal-discrete Types.GitMetadataReceipt-discrete Types.ReadyPayload-discrete
    Types.SessionPayload-discrete Types.SessionRecord-discrete List-discrete Option-discrete
    Bytes-discrete OptionBytes-discrete OptionNat-discrete contains strip_prefix starts_with
    strip_suffix ends_with includes cut_first cut_last split decimal parse_unsigned is_utf8
    ℕ_discrete
precedes = refl

session_precedes-next_example :
    (some_record.sid ≡ tombstoned_record.sid)
    × (stage tombstoned_record.payload ≡ stage some_record.payload + 1)
    × (is_idle idle ≡ true)
    × (is_idle idle ≡ true)
session_precedes-next_example =
    Refusals.session_precedes-next some_record tombstoned_record precedes

removing_ok : (removing some_record 0).0 ≡ ok tt
unfolding Lifecycle.ensure_publish_idle Lifecycle.matches_existing Lifecycle.stage_precedes
    Lifecycle.rooted Lifecycle.tombstone_of Lifecycle.tombstoned_record Lifecycle.at_node
    Lifecycle.transition_tombstone Lifecycle.ensure_record_container Lifecycle.open_authorized_root
    Lifecycle.root_or_tombstone_present Lifecycle.promote_tombstone Lifecycle.held_name
    Lifecycle.destroy Lifecycle.destroy_held Lifecycle.complete_tombstone Lifecycle.remove_ready
    Lifecycle.remove_materializing Lifecycle.remove_prepared Lifecycle.remove_stage
    Lifecycle.complete Lifecycle.remove_recorded Lifecycle.remove_session Lifecycle.remove_named
    Lifecycle.remove Lifecycle.exec session_precedes Store.record_binding_recovery
    Store.record_authority_matches Store.cstring Store.capability_from_binding
    Store.read_record_capability Store.checked_record Store.present_record Store.optional_record
    Store.required_record Store.revalidate_record Store.replace_record_capability
    Store.remove_record_capability Store.load_ready_session Store.load_ready_capability
    Store.check_node Store.revalidate_ready_lease Store.session_context Commands.update_ref
    Commands.command Commands.audit_authority_config Commands.validate_publish_target
    Commands.ensure_publish_target_unchecked_out Commands.target_commit
    Commands.authority_target_commit Commands.private_target_commit Commands.ensure_private_target
    Commands.ensure_authority_expected_old Commands.ensure_publish_relation
    Commands.import_publish_objects Commands.verify_authority_closure Commands.update_publish_ref
    Git.config_key_is_safe Git.config_entry_is_safe Git.config_rows_are_safe
    Git.authority_config_is_safe Git.four_fields Git.parse_publish_oid Git.single_line
    Git.parse_reference Git.parse_target_commit_output Validate.authority_path_from_record
    Validate.id_fields Validate.session_id Validate.owned_directory Validate.is_ready
    Validate.valid_frozen Validate.valid_publish_journal Validate.valid_fields
    Validate.valid_payload Validate.validate_record Validate.encode_record Validate.parse_record
    Names.valid_session_name Names.selected_name Names.root_name Names.tombstone_name
    Names.record_name Names.session_record_name Names.valid_hash Names.valid_lower_hash
    Names.valid_oid Names.valid_lower_oid Names.oid_matches_format Names.pack_oid
    Names.pack_entry_name Names.pack_entry_pair Names.loose_fanout_name Hex.hex Hex.hex_digit
    Hex.decode_pairs Hex.is_absolute Hex.decode_path Hex.path_hash Hex.valid_lower_hex
    Hex.decode_hex Framing.be_bytes Framing.lp Framing.frame Effect.◌>>=◌ Effect.◌>>◌ Effect.lift
    Effect.pure Effect.map_error Effect.note Effect.note_ok Effect.silent Modes.session_mode
    Modes.stable_directory_node Modes.private_directory Modes.sealed_directory
    Modes.publishing_directory Modes.publishing_binding Modes.sealed_regular
    Modes.worktree_directory Modes.clone_destination_directory Modes.owned_tree_binding
    Modes.owned_regular Modes.owned_cleanup_regular Modes.empty_owned_directory_binding
    Modes.cleanup_mode_directory Modes.valid_basename Identity.Identity-discrete Identity.from_stat
    Identity.same_node Identity.matches Identity.valid_state_root Identity.valid_state_container
    Identity.safe_new_root Identity.valid_record Identity.valid_private_record
    Receipts.ManifestReceipt-discrete Receipts.SealedTreeReceipt-discrete
    Receipts.CowReceipt-discrete Host.RecordBinding-discrete Journal.Frozen-discrete
    Journal.PublishJournal-discrete Types.GitMetadataReceipt-discrete Types.ReadyPayload-discrete
    Types.SessionPayload-discrete Types.SessionRecord-discrete List-discrete Option-discrete
    Bytes-discrete OptionBytes-discrete OptionNat-discrete contains strip_prefix starts_with
    strip_suffix ends_with includes cut_first cut_last split decimal parse_unsigned is_utf8
    ℕ_discrete
removing_ok = refl
