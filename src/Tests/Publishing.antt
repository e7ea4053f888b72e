-- ===== src/Tests/Publishing.antt =====
-- Runs of `publish` on the fixture's host, and its properties there.
use git_vws.Effect.{World}
use git_vws.Session.Journal.{
  Frozen, PublishJournal, idle, prepared, objects_imported, cas_attempted, cas_committed,
}
use git_vws.Session.Types.{SessionRecord}
use git_vws.Session.Host.{RecordCapability, SessionContext, ReadySession, Event, ran, wrote, Host}
use git_vws.Session.Validate.{validate_record}
use git_vws.Session.Store
use git_vws.Session.Commands
use git_vws.Session.Git
use git_vws.Session.Validate
use git_vws.Session.Names
use git_vws.Authority.Hex
use git_vws.Framing
use git_vws.Effect
use git_vws.Storage.Modes
use git_vws.Authority.Identity
use git_vws.Storage.Receipts
use git_vws.Session.Host
use git_vws.Session.Journal
use git_vws.Session.Types
use git_vws.Session.Publish
use git_vws.Session.Publish.Guarantees
use git_vws.Session.Publish.Resume
use git_vws.Session.Publish.Success
use git_vws.Tests.Fixture.{
  some_host, some_record, some_frozen, some_context, some_loaded, some_commit, capability_of,
  world_of,
}
use git_vws.Base.{
  ℕ, ◌+◌, ◌≤◌, ◌≡◌, refl, ◌⊎◌, none, some, [], ◌∷◌, ◌++◌, ℕ_discrete, nat_Eq, string_Eq,
  List-discrete, Option-discrete, Bytes-discrete, OptionBytes-discrete, bytes_Eq, option_bytes_Eq,
  option_nat_Eq, OptionNat-discrete, Bytes, codes, contains, strip_prefix, starts_with,
  strip_suffix, ends_with, includes, cut_first, cut_last, split, decimal, parse_unsigned, is_utf8,
  Error, Result, ok, err,
}

abbrev from_start : Result Bytes × World Bytes Event
from_start = Publish.publish some_host (codes "/repo") (some (codes "n")) none (world_of 0)

abbrev published : Bytes
published = codes "published 6d " ++ some_commit

-- A session with its journal, and its record file with that journal's tag.
abbrev resumed : SessionRecord → ℕ → Result Bytes × World Bytes Event
resumed r tag =
    Publish.publish_leased some_host some_context (capability_of r (tag ∷ [])) some_loaded
      (world_of tag)

abbrev attempted_record : SessionRecord
attempted_record = record some_record { journal = cas_attempted some_frozen }

abbrev committed_record : SessionRecord
committed_record = record some_record { journal = cas_committed some_frozen }

from_start_ok : from_start.0 ≡ ok published
unfolding Publish.ensure_authority_config Publish.publish_target Publish.txid_fields
    Publish.publish_recovery Publish.publish_committed_recovery Publish.publish_success
    Publish.publish_txid Publish.frozen_from Publish.frozen_publish_fields
    Publish.replace_publish_journal Publish.finish_publish_journal Publish.abort_publish_conflict
    Publish.finalize_committed_publish Publish.settle Publish.attempt
    Publish.publish_objects_imported Publish.import Publish.publish_prepared Publish.publish_same
    Publish.prepare Publish.publish_idle Publish.publish_from Publish.publish_leased Publish.publish
    Guarantees.updates Store.record_binding_recovery Store.record_authority_matches Store.cstring
    Store.capability_from_binding Store.read_record_capability Store.checked_record
    Store.present_record Store.optional_record Store.required_record Store.revalidate_record
    Store.replace_record_capability Store.remove_record_capability Store.load_ready_session
    Store.load_ready_capability Store.check_node Store.revalidate_ready_lease Store.session_context
    Commands.update_ref Commands.command Commands.audit_authority_config
    Commands.validate_publish_target Commands.ensure_publish_target_unchecked_out
    Commands.target_commit Commands.authority_target_commit Commands.private_target_commit
    Commands.ensure_private_target Commands.ensure_authority_expected_old
    Commands.ensure_publish_relation Commands.import_publish_objects
    Commands.verify_authority_closure Commands.update_publish_ref Git.config_key_is_safe
    Git.config_entry_is_safe Git.config_rows_are_safe Git.authority_config_is_safe Git.four_fields
    Git.parse_publish_oid Git.single_line Git.parse_reference Git.parse_target_commit_output
    Validate.authority_path_from_record Validate.id_fields Validate.session_id
    Validate.owned_directory Validate.is_ready Validate.valid_frozen Validate.valid_publish_journal
    Validate.valid_fields Validate.valid_payload Validate.validate_record Validate.encode_record
    Validate.parse_record Names.valid_session_name Names.selected_name Names.root_name
    Names.tombstone_name Names.record_name Names.session_record_name Names.valid_hash
    Names.valid_lower_hash Names.valid_oid Names.valid_lower_oid Names.oid_matches_format
    Names.pack_oid Names.pack_entry_name Names.pack_entry_pair Names.loose_fanout_name Hex.hex
    Hex.hex_digit Hex.decode_pairs Hex.is_absolute Hex.decode_path Hex.path_hash Hex.valid_lower_hex
    Hex.decode_hex Framing.be_bytes Framing.lp Framing.frame Effect.◌>>=◌ Effect.◌>>◌ Effect.lift
    Effect.pure Effect.map_error Effect.note Effect.note_ok Effect.silent Modes.session_mode
    Modes.stable_directory_node Modes.private_directory Modes.sealed_directory
    Modes.publishing_directory Modes.publishing_binding Modes.sealed_regular
    Modes.worktree_directory Modes.clone_destination_directory Modes.owned_tree_binding
    Modes.owned_regular Modes.owned_cleanup_regular Modes.empty_owned_directory_binding
    Modes.cleanup_mode_directory Modes.valid_basename Identity.Identity-discrete Identity.from_stat
    Identity.same_node Identity.matches Identity.valid_state_root Identity.valid_state_container
    Identity.safe_new_root Identity.valid_record Identity.valid_private_record
    Receipts.ManifestReceipt-discrete Receipts.SealedTreeReceipt-discrete
    Receipts.CowReceipt-discrete Host.RecordBinding-discrete Journal.Frozen-discrete
    Journal.PublishJournal-discrete Types.GitMetadataReceipt-discrete Types.ReadyPayload-discrete
    Types.SessionPayload-discrete Types.SessionRecord-discrete List-discrete Option-discrete
    Bytes-discrete OptionBytes-discrete OptionNat-discrete contains strip_prefix starts_with
    strip_suffix ends_with includes cut_first cut_last split decimal parse_unsigned is_utf8
    ℕ_discrete
from_start_ok = refl

from_idle_ok : (resumed some_record 0).0 ≡ ok published
unfolding Publish.ensure_authority_config Publish.publish_target Publish.txid_fields
    Publish.publish_recovery Publish.publish_committed_recovery Publish.publish_success
    Publish.publish_txid Publish.frozen_from Publish.frozen_publish_fields
    Publish.replace_publish_journal Publish.finish_publish_journal Publish.abort_publish_conflict
    Publish.finalize_committed_publish Publish.settle Publish.attempt
    Publish.publish_objects_imported Publish.import Publish.publish_prepared Publish.publish_same
    Publish.prepare Publish.publish_idle Publish.publish_from Publish.publish_leased Publish.publish
    Guarantees.updates Store.record_binding_recovery Store.record_authority_matches Store.cstring
    Store.capability_from_binding Store.read_record_capability Store.checked_record
    Store.present_record Store.optional_record Store.required_record Store.revalidate_record
    Store.replace_record_capability Store.remove_record_capability Store.load_ready_session
    Store.load_ready_capability Store.check_node Store.revalidate_ready_lease Store.session_context
    Commands.update_ref Commands.command Commands.audit_authority_config
    Commands.validate_publish_target Commands.ensure_publish_target_unchecked_out
    Commands.target_commit Commands.authority_target_commit Commands.private_target_commit
    Commands.ensure_private_target Commands.ensure_authority_expected_old
    Commands.ensure_publish_relation Commands.import_publish_objects
    Commands.verify_authority_closure Commands.update_publish_ref Git.config_key_is_safe
    Git.config_entry_is_safe Git.config_rows_are_safe Git.authority_config_is_safe Git.four_fields
    Git.parse_publish_oid Git.single_line Git.parse_reference Git.parse_target_commit_output
    Validate.authority_path_from_record Validate.id_fields Validate.session_id
    Validate.owned_directory Validate.is_ready Validate.valid_frozen Validate.valid_publish_journal
    Validate.valid_fields Validate.valid_payload Validate.validate_record Validate.encode_record
    Validate.parse_record Names.valid_session_name Names.selected_name Names.root_name
    Names.tombstone_name Names.record_name Names.session_record_name Names.valid_hash
    Names.valid_lower_hash Names.valid_oid Names.valid_lower_oid Names.oid_matches_format
    Names.pack_oid Names.pack_entry_name Names.pack_entry_pair Names.loose_fanout_name Hex.hex
    Hex.hex_digit Hex.decode_pairs Hex.is_absolute Hex.decode_path Hex.path_hash Hex.valid_lower_hex
    Hex.decode_hex Framing.be_bytes Framing.lp Framing.frame Effect.◌>>=◌ Effect.◌>>◌ Effect.lift
    Effect.pure Effect.map_error Effect.note Effect.note_ok Effect.silent Modes.session_mode
    Modes.stable_directory_node Modes.private_directory Modes.sealed_directory
    Modes.publishing_directory Modes.publishing_binding Modes.sealed_regular
    Modes.worktree_directory Modes.clone_destination_directory Modes.owned_tree_binding
    Modes.owned_regular Modes.owned_cleanup_regular Modes.empty_owned_directory_binding
    Modes.cleanup_mode_directory Modes.valid_basename Identity.Identity-discrete Identity.from_stat
    Identity.same_node Identity.matches Identity.valid_state_root Identity.valid_state_container
    Identity.safe_new_root Identity.valid_record Identity.valid_private_record
    Receipts.ManifestReceipt-discrete Receipts.SealedTreeReceipt-discrete
    Receipts.CowReceipt-discrete Host.RecordBinding-discrete Journal.Frozen-discrete
    Journal.PublishJournal-discrete Types.GitMetadataReceipt-discrete Types.ReadyPayload-discrete
    Types.SessionPayload-discrete Types.SessionRecord-discrete List-discrete Option-discrete
    Bytes-discrete OptionBytes-discrete OptionNat-discrete contains strip_prefix starts_with
    strip_suffix ends_with includes cut_first cut_last split decimal parse_unsigned is_utf8
    ℕ_discrete
from_idle_ok = refl

from_start_updates : Guarantees.updates (from_start.1.log) ≡ 1
unfolding Publish.ensure_authority_config Publish.publish_target Publish.txid_fields
    Publish.publish_recovery Publish.publish_committed_recovery Publish.publish_success
    Publish.publish_txid Publish.frozen_from Publish.frozen_publish_fields
    Publish.replace_publish_journal Publish.finish_publish_journal Publish.abort_publish_conflict
    Publish.finalize_committed_publish Publish.settle Publish.attempt
    Publish.publish_objects_imported Publish.import Publish.publish_prepared Publish.publish_same
    Publish.prepare Publish.publish_idle Publish.publish_from Publish.publish_leased Publish.publish
    Guarantees.updates Store.record_binding_recovery Store.record_authority_matches Store.cstring
    Store.capability_from_binding Store.read_record_capability Store.checked_record
    Store.present_record Store.optional_record Store.required_record Store.revalidate_record
    Store.replace_record_capability Store.remove_record_capability Store.load_ready_session
    Store.load_ready_capability Store.check_node Store.revalidate_ready_lease Store.session_context
    Commands.update_ref Commands.command Commands.audit_authority_config
    Commands.validate_publish_target Commands.ensure_publish_target_unchecked_out
    Commands.target_commit Commands.authority_target_commit Commands.private_target_commit
    Commands.ensure_private_target Commands.ensure_authority_expected_old
    Commands.ensure_publish_relation Commands.import_publish_objects
    Commands.verify_authority_closure Commands.update_publish_ref Git.config_key_is_safe
    Git.config_entry_is_safe Git.config_rows_are_safe Git.authority_config_is_safe Git.four_fields
    Git.parse_publish_oid Git.single_line Git.parse_reference Git.parse_target_commit_output
    Validate.authority_path_from_record Validate.id_fields Validate.session_id
    Validate.owned_directory Validate.is_ready Validate.valid_frozen Validate.valid_publish_journal
    Validate.valid_fields Validate.valid_payload Validate.validate_record Validate.encode_record
    Validate.parse_record Names.valid_session_name Names.selected_name Names.root_name
    Names.tombstone_name Names.record_name Names.session_record_name Names.valid_hash
    Names.valid_lower_hash Names.valid_oid Names.valid_lower_oid Names.oid_matches_format
    Names.pack_oid Names.pack_entry_name Names.pack_entry_pair Names.loose_fanout_name Hex.hex
    Hex.hex_digit Hex.decode_pairs Hex.is_absolute Hex.decode_path Hex.path_hash Hex.valid_lower_hex
    Hex.decode_hex Framing.be_bytes Framing.lp Framing.frame Effect.◌>>=◌ Effect.◌>>◌ Effect.lift
    Effect.pure Effect.map_error Effect.note Effect.note_ok Effect.silent Modes.session_mode
    Modes.stable_directory_node Modes.private_directory Modes.sealed_directory
    Modes.publishing_directory Modes.publishing_binding Modes.sealed_regular
    Modes.worktree_directory Modes.clone_destination_directory Modes.owned_tree_binding
    Modes.owned_regular Modes.owned_cleanup_regular Modes.empty_owned_directory_binding
    Modes.cleanup_mode_directory Modes.valid_basename Identity.Identity-discrete Identity.from_stat
    Identity.same_node Identity.matches Identity.valid_state_root Identity.valid_state_container
    Identity.safe_new_root Identity.valid_record Identity.valid_private_record
    Receipts.ManifestReceipt-discrete Receipts.SealedTreeReceipt-discrete
    Receipts.CowReceipt-discrete Host.RecordBinding-discrete Journal.Frozen-discrete
    Journal.PublishJournal-discrete Types.GitMetadataReceipt-discrete Types.ReadyPayload-discrete
    Types.SessionPayload-discrete Types.SessionRecord-discrete List-discrete Option-discrete
    Bytes-discrete OptionBytes-discrete OptionNat-discrete contains strip_prefix starts_with
    strip_suffix ends_with includes cut_first cut_last split decimal parse_unsigned is_utf8
    ℕ_discrete
from_start_updates = refl

publish-Guarded_example : Guarantees.Guarded some_host (from_start.1.log)
unfolding Guarantees.Guarded
publish-Guarded_example =
    Guarantees.publish-Guarded some_host (codes "/repo") (some (codes "n")) none (world_of 0) tt

publish-updates_example : Guarantees.updates (from_start.1.log) ≤ Guarantees.updates [] + 1
publish-updates_example =
    Guarantees.publish-updates some_host (codes "/repo") (some (codes "n")) none (world_of 0)

publish-ValidWrites_example : Guarantees.ValidWrites some_host (from_start.1.log)
unfolding Guarantees.ValidWrites
publish-ValidWrites_example =
    Guarantees.publish-ValidWrites some_host (codes "/repo") (some (codes "n")) none (world_of 0) tt

attempted-never_replayed_example : (e : Error) × (resumed attempted_record 3 ≡ (err e, world_of 3))
attempted-never_replayed_example =
    Resume.attempted-never_replayed some_host some_context (capability_of attempted_record (3 ∷ []))
      some_loaded some_frozen (world_of 3) refl

committed-finishes_example :
    Resume.AddsOnce some_host
      (wrote (Resume.finished_record committed_record some_commit))
      []
      (resumed committed_record 4)
committed-finishes_example =
    Resume.committed-finishes some_host some_context (capability_of committed_record (4 ∷ []))
      some_loaded some_frozen (world_of 4) refl

publish_leased-success_example :
    Success.Settled published ((resumed some_record 0).1.log)
    ⊎ Success.Unchanged (Success.writes []) idle ((resumed some_record 0).1.log)
publish_leased-success_example =
    Success.publish_leased-success some_host some_context (capability_of some_record (0 ∷ []))
      some_loaded (world_of 0) published from_idle_ok
