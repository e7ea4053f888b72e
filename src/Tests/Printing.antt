-- ===== src/Tests/Printing.antt =====
-- A report of two entries, printed.
use git_vws.Authority.Hex
use git_vws.Effect
use git_vws.Effect.{World, bare}
use git_vws.Maintenance.Report
use git_vws.Maintenance.Report.{MaintenanceEntry, MaintenanceReport, empty_report, Flagged}
use git_vws.Maintenance.Output
use git_vws.Maintenance.Output.{Console, sort_by, entry_order}
use git_vws.Maintenance.Run.{MaintenanceEvent, printed}
use git_vws.Maintenance.Printing
use git_vws.Maintenance.Printing.{Printed}
use git_vws.Tests.Container.{some_console}
use git_vws.Base.{
  ◌≡◌, refl, true, List, [], ◌∷◌, ℕ_discrete, nat_Eq, string_Eq, List-discrete, Bytes-discrete,
  bytes_Eq, option_bytes_Eq, option_nat_Eq, Bytes, codes, decimal, Result, ok,
}

abbrev entry_named : Bytes → Bytes → MaintenanceEntry
entry_named name code = record {
  scope = codes "session";
  record_name = name;
  path_name = name;
  state = codes "TMP";
  code = code;
}

abbrev two_entries : List MaintenanceEntry
two_entries =
    entry_named (codes "b") (codes "REMOVED")
    ∷ entry_named (codes "a") (codes "RECOVERY_REQUIRED")
    ∷ []

sorted_first :
    sort_by entry_order two_entries
    ≡ entry_named (codes "a") (codes "RECOVERY_REQUIRED")
      ∷ entry_named (codes "b") (codes "REMOVED")
      ∷ []
unfolding sort_by Output.insert_by entry_order Output.compare Output.then_with
sorted_first = refl

abbrev two_report : MaintenanceReport
two_report = record { entries = two_entries; recovery_required = true }

abbrev printing : Result (Unit {0}) × World Bytes MaintenanceEvent
printing =
    Output.write_maintenance printed some_console two_report (record { outside = []; log = [] })

printing_ok : printing ≡ (ok tt, printing.1)
unfolding sort_by Output.insert_by entry_order Output.compare Output.then_with Output.line_of
    Output.count_kind Output.summary_of Output.print Output.print_lines Output.write_maintenance
    Report.is_finding Hex.hex Hex.hex_digit Effect.◌>>=◌ Effect.◌>>◌ Effect.lift Effect.pure
    Effect.note_ok Effect.silent Bytes-discrete List-discrete ℕ_discrete decimal
printing_ok = refl

write_maintenance-Printed_example : Printed printed some_console two_report [] printing.1.log
write_maintenance-Printed_example =
    Printing.write_maintenance-Printed printed some_console two_report
      (record { outside = []; log = [] }) printing.1 tt printing_ok
