-- ===== src/Tests/Censuses.antt =====
-- A census where a removal was under way, and its properties there.
use git_vws.Authority.Hex
use git_vws.Authority.Identity
use git_vws.Storage.Modes
use git_vws.Effect
use git_vws.Effect.{World, bare}
use git_vws.Session.Host
use git_vws.Session.Host.{Event, Host, destroyed, removed}
use git_vws.Session.Names
use git_vws.Session.Validate
use git_vws.Session.Store
use git_vws.Session.Lifecycle
use git_vws.Maintenance.Report
use git_vws.Maintenance.Report.{MaintenanceEntry, MaintenanceReport, empty_report, Flagged}
use git_vws.Maintenance.Sessions
use git_vws.Maintenance.Sessions.{Sweep, SessionCensus}
use git_vws.Maintenance.Flags
use git_vws.Maintenance.Reachable
use git_vws.Maintenance.Reachable.{Covers}
use git_vws.Tests.Fixture.{some_host}
use git_vws.Tests.Container.{some_sweep, first_world}
use git_vws.Base.{
  ℕ, ◌≡◌, refl, true, false, List, [], nat_Eq, string_Eq, OptionBytes-discrete, bytes_Eq,
  option_bytes_Eq, option_nat_Eq, Bytes, contains, starts_with, ends_with, Result, ok, err,
}

abbrev counting : Result (SessionCensus ℕ) × World Bytes Event
counting = Sessions.session_census some_host some_sweep true first_world

abbrev census_in : Result (SessionCensus ℕ) → SessionCensus ℕ
census_in (ok census) = census
census_in (err e) = record {
  reachable_templates = [];
  capabilities = [];
  temporaries = [];
  report = empty_report;
}

counting_ok : counting ≡ (ok (census_in counting.0), counting.1)
unfolding Sessions.authorized_names Sessions.count_records Sessions.count_others Sessions.census_of
    Sessions.session_census Store.capability_from_binding Store.read_record_capability
    Validate.authority_path_from_record Validate.session_id Validate.valid_publish_journal
    Validate.valid_fields Validate.valid_payload Validate.validate_record Validate.encode_record
    Validate.parse_record Names.valid_session_name Names.root_name Names.tombstone_name
    Names.record_name Names.session_record_name Names.valid_hash Names.valid_oid Hex.hex_digit
    Hex.decode_path Hex.decode_hex Modes.cleanup_mode_directory Effect.◌>>◌ Effect.lift Effect.pure
    Effect.map_error Effect.silent Effect.caught OptionBytes-discrete contains starts_with ends_with
counting_ok = refl

counting_quiet : (census_in counting.0).report.recovery_required ≡ false
unfolding Sessions.classify Sessions.authority_from_record Validate.is_ready
    Sessions.diagnose_list_record Lifecycle.ensure_record_container Identity.same_node Store.cstring
    Lifecycle.open_authorized_root Store.revalidate_record Host.RecordBinding-discrete Report.entry
    Sessions.authorized_names Sessions.count_records Sessions.count_others Sessions.census_of
    Sessions.session_census Store.capability_from_binding Store.read_record_capability
    Validate.authority_path_from_record Validate.session_id Validate.valid_publish_journal
    Validate.valid_fields Validate.valid_payload Validate.validate_record Validate.encode_record
    Validate.parse_record Names.valid_session_name Names.root_name Names.tombstone_name
    Names.record_name Names.session_record_name Names.valid_hash Names.valid_oid Hex.hex_digit
    Hex.decode_path Hex.decode_hex Modes.cleanup_mode_directory Effect.◌>>◌ Effect.lift Effect.pure
    Effect.map_error Effect.silent Effect.caught OptionBytes-discrete contains starts_with ends_with
counting_quiet = refl

session_census-Covers_example :
    (names : List Bytes) × ((some_sweep.directory_names first_world.outside).0 ≡ ok names)
    × Covers names (census_in counting.0)
session_census-Covers_example =
    Reachable.session_census-Covers some_host some_sweep true first_world counting.1
      (census_in counting.0) counting_ok counting_quiet

session_census-Flagged_example : Flagged (census_in counting.0).report
session_census-Flagged_example =
    Flags.session_census-Flagged some_host some_sweep true first_world counting.1
      (census_in counting.0) counting_ok
