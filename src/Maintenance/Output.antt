-- ===== src/Maintenance/Output.antt =====
-- src/session.rs: `write_maintenance`. The lines are printed in the order of their words; encoding a
-- line and writing bytes are operations of the host.
use git_vws.Authority.Hex.{hex}
use git_vws.Effect.{M, ◌>>=◌, ◌>>◌, lift, note_ok, silent, pure}
use git_vws.Maintenance.Report.{MaintenanceEntry, MaintenanceReport, is_finding}
use git_vws.Base.{
  ℕ, suc, Bool, true, false, List, [], ◌∷◌, ◌++◌, ltb, if◌then◌else◌, nat_Eq, string_Eq, bytes_Eq,
  option_bytes_Eq, option_nat_Eq, Bytes, codes, Result,
}

-- `std::cmp::Ordering`
pub data Ordering : Type 0 where
  less equal greater : Ordering

unfoldable pub then_with : Ordering → Ordering → Ordering
then_with equal next = next
then_with less next = less
then_with greater next = greater

abbrev pub compare_nat : ℕ → ℕ → Ordering
compare_nat a b = if ltb a b then less else if ltb b a then greater else equal

-- The order of byte strings, of which a prefix comes first.
unfoldable pub compare : Bytes → Bytes → Ordering
unfolding then_with
compare [] [] = equal
compare [] (b ∷ bs) = less
compare (a ∷ more) [] = greater
compare (a ∷ more) (b ∷ bs) = then_with (compare_nat a b) (compare more bs)

unfoldable pub entry_order : MaintenanceEntry → MaintenanceEntry → Ordering
unfolding compare then_with
entry_order left right = then_with (compare left.scope right.scope) (
    then_with (compare left.record_name right.record_name) (
      then_with (compare left.path_name right.path_name)
        (then_with (compare left.state right.state) (compare left.code right.code))))

abbrev pub is_greater : Ordering → Bool
is_greater greater = true
is_greater less = false
is_greater equal = false

-- The stable sort of `sort_by`, for any order of entries.
unfoldable pub insert_by : {A : Type 0} → (A → A → Ordering) → A → List A → List A
insert_by order a [] = a ∷ []
insert_by order a (b ∷ bs) =
    let rest = insert_by order a bs in if is_greater (order a b) then b ∷ rest else a ∷ (b ∷ bs)

unfoldable pub sort_by : {A : Type 0} → (A → A → Ordering) → List A → List A
unfolding insert_by
sort_by order [] = []
sort_by order (a ∷ more) = insert_by order a (sort_by order more)

pub record MaintenanceLine : Type 0 where
  pub version : ℕ
  pub kind : Bytes
  pub scope : Bytes
  pub record_name_hex : Bytes
  pub path_hex : Bytes
  pub state : Bytes
  pub code : Bytes

pub record MaintenanceSummary : Type 0 where
  pub version : ℕ
  pub kind : Bytes
  pub items : ℕ
  pub findings : ℕ
  pub recovery_required : Bool

unfoldable pub line_of : MaintenanceEntry → MaintenanceLine
unfolding is_finding
line_of e = record {
  version = 1;
  kind = if is_finding e then codes "finding" else codes "item";
  scope = e.scope;
  record_name_hex = hex e.record_name;
  path_hex = hex e.path_name;
  state = e.state;
  code = e.code;
}

-- How many entries are findings, or with `false` how many are items.
unfoldable pub count_kind : Bool → List MaintenanceEntry → ℕ
count_kind finding [] = 0
count_kind finding (e ∷ es) =
    let rest = count_kind finding es in
    if is_finding e
    then (if finding then suc rest else rest)
    else if finding
    then rest
    else suc rest

unfoldable pub summary_of : MaintenanceReport → MaintenanceSummary
unfolding count_kind
summary_of report = record {
  version = 1;
  kind = codes "summary";
  items = count_kind false report.entries;
  findings = count_kind true report.entries;
  recovery_required = report.recovery_required;
}

-- `serde_json` of the two kinds of lines, and the standard output.
pub record Console (W : Type 0) : Type 0 where
  pub line_json : MaintenanceLine → Result Bytes
  pub summary_json : MaintenanceSummary → Result Bytes
  pub write_all : Bytes → W → Result (Unit {0}) × W
  pub flush : W → Result (Unit {0}) × W

module _ {W Event : Type 0} (printed : Bytes → Event) (c : Console W) where
  -- One line with its end.
  unfoldable pub print : Result Bytes → M W Event (Unit {0})
  print json = do
    bytes ← lift json
    note_ok (printed (bytes ++ (10 ∷ []))) (c.write_all (bytes ++ (10 ∷ [])))

  unfoldable pub print_lines : List MaintenanceEntry → M W Event (Unit {0})
  unfolding print
  print_lines [] = pure tt
  print_lines (e ∷ es) = print (c.line_json (line_of e)) >> print_lines es

  unfoldable pub write_maintenance : MaintenanceReport → M W Event (Unit {0})
  unfolding print_lines
  write_maintenance report = do
    print_lines (sort_by entry_order report.entries)
    print (
        c.summary_json
          (summary_of (record report { entries = sort_by entry_order report.entries })))
    silent c.flush
