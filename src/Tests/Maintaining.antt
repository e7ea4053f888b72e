-- ===== src/Tests/Maintaining.antt =====
-- `gc` where a removal was under way, and its property there.
use git_vws.Authority.Hex
use git_vws.Authority.Identity
use git_vws.Storage.Modes
use git_vws.Effect
use git_vws.Effect.{World, bare}
use git_vws.Session.Host
use git_vws.Session.Host.{Event, Host, destroyed, removed}
use git_vws.Session.Types
use git_vws.Session.Names
use git_vws.Session.Validate
use git_vws.Session.Store
use git_vws.Session.Lifecycle
use git_vws.Template.Census
use git_vws.Template.Collect as TCollect
use git_vws.Maintenance.Report
use git_vws.Maintenance.Report.{MaintenanceEntry, MaintenanceReport, empty_report, Flagged}
use git_vws.Maintenance.Sessions
use git_vws.Maintenance.Sessions.{Sweep, SessionCensus}
use git_vws.Maintenance.Collect as MCollect
use git_vws.Maintenance.Output
use git_vws.Maintenance.Output.{Console, sort_by, entry_order}
use git_vws.Maintenance.Run
use git_vws.Maintenance.Run.{
  of_sessions, of_templates, MaintenanceEvent, in_sessions, in_templates, surveyed, printed, State,
}
use git_vws.Maintenance.Careful
use git_vws.Maintenance.Maintain
use git_vws.Tests.Fixture.{some_host}
use git_vws.Tests.Container.{
  record_name, tombstone_name, some_sweep, no_templates, some_state, some_console,
}
use git_vws.Base.{
  ◌≡◌, refl, true, false, List, [], ◌∷◌, nat_Eq, string_Eq, bytes_Eq, option_bytes_Eq,
  option_nat_Eq, Bytes, contains, starts_with, ends_with, Result, ok,
}

-- The record file holds the tombstone's record.
abbrev cleaning : Result (Unit {0}) × World Bytes MaintenanceEvent
cleaning =
    Run.maintain some_host some_sweep no_templates some_state some_console true
      (record { outside = 6 ∷ []; log = [] })

-- The events but for the lines printed.
abbrev unprinted : List MaintenanceEvent → List MaintenanceEvent
unprinted [] = []
unprinted (printed bytes ∷ log) = unprinted log
unprinted (in_sessions e ∷ log) = in_sessions e ∷ unprinted log
unprinted (in_templates e ∷ log) = in_templates e ∷ unprinted log
unprinted (surveyed of b ∷ log) = surveyed of b ∷ unprinted log

cleaning_log :
    (cleaning.0 ≡ ok tt)
    × (unprinted cleaning.1.log
        ≡ in_sessions (removed record_name)
          ∷ in_sessions (destroyed tombstone_name)
          ∷ surveyed of_templates false
          ∷ surveyed of_sessions false
          ∷ [])
unfolding Census.count_records Census.count_others Census.doctor TCollect.gc_temporaries TCollect.gc
    Report.recovery Report.merge_maintenance Sessions.authority_from_record
    Sessions.authorized_names Sessions.diagnose_list_record Sessions.classify Sessions.count_records
    Sessions.count_others Sessions.census_of Sessions.session_census MCollect.gc_tombstone
    MCollect.tombstone_outcome MCollect.gc_sessions Output.sort_by Output.write_maintenance
    Run.finish_maintenance Run.maintain Store.cstring Store.capability_from_binding
    Store.read_record_capability Store.revalidate_record Store.remove_record_capability
    Lifecycle.tombstone_of Lifecycle.at_node Lifecycle.ensure_record_container
    Lifecycle.open_authorized_root Lifecycle.promote_tombstone Lifecycle.held_name Lifecycle.destroy
    Lifecycle.destroy_held Lifecycle.complete_tombstone Validate.authority_path_from_record
    Validate.session_id Validate.is_ready Validate.valid_publish_journal Validate.valid_fields
    Validate.valid_payload Validate.validate_record Validate.encode_record Validate.parse_record
    Names.valid_session_name Names.root_name Names.tombstone_name Names.record_name
    Names.session_record_name Names.valid_hash Names.valid_oid Hex.hex_digit Hex.decode_path
    Hex.decode_hex Modes.cleanup_mode_directory Effect.◌>>◌ Effect.lift Effect.pure Effect.map_error
    Effect.note_ok Effect.silent Effect.caught Effect.embedded Identity.same_node
    Host.RecordBinding-discrete Types.SessionRecord-discrete contains starts_with ends_with
cleaning_log = (refl, refl)
