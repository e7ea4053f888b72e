-- ===== src/Maintenance/Report.antt =====
-- src/template.rs: `MaintenanceEntry` and `MaintenanceReport`, and what src/session.rs does with
-- reports. The words of an entry are bytes, in whose order entries are printed.
use git_vws.Base.{
  ◌≡◌, refl, sym, ap, ◌∙◌, Bool, true, false, ◌||◌, List, [], ◌∷◌, ◌++◌, ℕ_discrete, ◌==◌, nat_Eq,
  string_Eq, List-discrete, Bytes-discrete, bytes_Eq, option_bytes_Eq, option_nat_Eq, any, Bytes,
  codes,
}

pub record MaintenanceEntry : Type 0 where
  pub scope : Bytes
  pub record_name : Bytes
  pub path_name : Bytes
  pub state : Bytes
  pub code : Bytes

pub record MaintenanceReport : Type 0 where
  pub entries : List MaintenanceEntry
  pub recovery_required : Bool

-- `MaintenanceReport::default()`
abbrev pub empty_report : MaintenanceReport
empty_report = record { entries = []; recovery_required = false }

abbrev pub recovery_code : Bytes
recovery_code = codes "RECOVERY_REQUIRED"

unfoldable pub entry : MaintenanceReport → Bytes → Bytes → Bytes → Bytes → Bytes → MaintenanceReport
entry report scope record_name path_name state code = record report {
  entries =
      report.entries
      ++ (record {
        scope = scope;
        record_name = record_name;
        path_name = path_name;
        state = state;
        code = code;
      }
          ∷ []);
}

unfoldable pub recovery : MaintenanceReport → Bytes → Bytes → Bytes → Bytes → MaintenanceReport
unfolding entry
recovery report scope record_name path_name state =
    entry (record report { recovery_required = true }) scope record_name path_name state
      recovery_code

-- `merge_maintenance`, without the part that empties `other`, which no caller reads again.
unfoldable pub merge_maintenance : MaintenanceReport → MaintenanceReport → MaintenanceReport
merge_maintenance report other = record {
  entries = report.entries ++ other.entries;
  recovery_required = report.recovery_required || other.recovery_required;
}

-- An entry that is printed as a finding.
unfoldable pub is_finding : MaintenanceEntry → Bool
is_finding e = e.code == recovery_code

-- A report asks for recovery exactly if it holds a finding.
unfoldable pub Flagged : MaintenanceReport → Type 0
Flagged report = report.recovery_required ≡ any is_finding report.entries

or_step : (b d e : Bool) {c : Bool} → c ≡ (d || e) → (b || c) ≡ ((b || d) || e)
or_step true d e q = refl
or_step false d e q = q

any_append :
    {A : Type 0} (f : A → Bool) (xs ys : List A) → any f (xs ++ ys) ≡ (any f xs || any f ys)
any_append f [] ys = refl
any_append f (x ∷ xs) ys = or_step (f x) (any f xs) (any f ys) (any_append f xs ys)

or_false : (b : Bool) → (b || false) ≡ b
or_false true = refl
or_false false = refl

or_true : (b : Bool) → true ≡ (b || true)
or_true true = refl
or_true false = refl

pub empty-Flagged : Flagged empty_report
unfolding Flagged
empty-Flagged = refl

pub entry-Flagged :
    (report : MaintenanceReport) (scope record_name path_name state code : Bytes)
    → (code == recovery_code) ≡ false
    → Flagged report
    → Flagged (entry report scope record_name path_name state code)
unfolding entry is_finding Flagged
entry-Flagged report scope record_name path_name state code q h =
    h
    ∙ sym (
        any_append is_finding report.entries _
        ∙ ap (λ b. any is_finding report.entries || (b || false)) q
        ∙ or_false _)

pub recovery-Flagged :
    (report : MaintenanceReport) (scope record_name path_name state : Bytes)
    → Flagged (recovery report scope record_name path_name state)
unfolding recovery entry is_finding Flagged Bytes-discrete List-discrete ℕ_discrete
recovery-Flagged report scope record_name path_name state =
    or_true (any is_finding report.entries) ∙ sym (any_append is_finding report.entries _)
