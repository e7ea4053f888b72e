-- ===== src/Maintenance/Run.antt =====
-- src/session.rs: `doctor` and `gc`, which are `maintain` without and with cleaning up.
use git_vws.Effect.{M, ◌>>=◌, ◌>>◌, lift, note_ok, silent, caught, pure, embedded, bare}
use git_vws.Session.Host.{Event, Host}
use git_vws.Template.Store.{Store, TemplateEvent}
use git_vws.Template.Census
use git_vws.Template.Collect
use git_vws.Maintenance.Report.{MaintenanceReport, empty_report, recovery, merge_maintenance}
use git_vws.Maintenance.Sessions.{Sweep, SessionCensus, session_census}
use git_vws.Maintenance.Collect.{gc_sessions}
use git_vws.Maintenance.Output.{Console, write_maintenance}
use git_vws.Base.{
  ℕ, zero, suc, Bool, true, false, ◌&&◌, ◌||◌, not, List, [], ◌∷◌, if◌then◌else◌, ◌==◌, nat_Eq,
  string_Eq, bytes_Eq, option_bytes_Eq, option_nat_Eq, Bytes, codes, starts_with, ends_with, Result,
  ok, err, fail,
}

-- What is surveyed.
pub data Survey : Type 0 where
  of_sessions of_templates : Survey

pub data MaintenanceEvent : Type 0 where
  in_sessions : Event → MaintenanceEvent
  in_templates : TemplateEvent → MaintenanceEvent
  printed : Bytes → MaintenanceEvent
  -- What was surveyed, and whether recovery is asked for.
  surveyed : Survey → Bool → MaintenanceEvent

-- src/authority.rs: the state root. The containers' descriptors belong to the other components.
pub record State (W : Type 0) : Type 0 where
  pub open_existing_state : W → Result (Unit {0}) × W
  -- `storage::directory_names` and `authority::is_ignorable_system_metadata`, in the root
  pub directory_names : W → Result (List Bytes) × W
  pub is_ignorable : Bytes → W → Result Bool × W
  pub validate_authority_record : Bytes → W → Result (Unit {0}) × W
  -- `open_container_if_present`: whether the container is there
  pub open_container_if_present : Bytes → W → Result Bool × W
  -- `container_path("sessions")`
  pub container_path : W → Result Bytes × W

abbrev pub state_finding : MaintenanceReport → Bytes → Bytes → Bytes → MaintenanceReport
state_finding report name path state = recovery report (codes "state") name path state

module _ {W Plan : Type 0} (h : Host W) (t : Sweep W Plan) (s : Store W) (r : State W)
    (c : Console W) where
  -- `finish_maintenance`
  unfoldable pub finish_maintenance : Bool → MaintenanceReport → M W MaintenanceEvent (Unit {0})
  finish_maintenance cleanup report = do
    write_maintenance printed c report
    lift (
        if report.recovery_required
        then (fail (if cleanup then "GC_RECOVERY_REQUIRED" else "DOCTOR_RECOVERY_REQUIRED")
            "maintenance found state that cannot be safely reclaimed")
        else ok tt)

  -- One name of the state root: the report, whether all is safe, and the number of authority records.
  unfoldable pub scan_name :
      MaintenanceReport
      → Bool
      → ℕ
      → Bytes
      → Result Bool
      → M W MaintenanceEvent (MaintenanceReport × Bool × ℕ)
  scan_name report safe n name (err e) =
      pure (state_finding report name name (codes "CORRUPT"), false, n)
  scan_name report safe n name (ok true) = pure (report, safe, n)
  scan_name report safe n name (ok false) =
      if not (starts_with (codes ".") name) && ends_with (codes ".record") name
      then (caught (silent (r.validate_authority_record name)) >>= λ valid. pure (elim valid [
        | ok u ↦ (report, safe, suc n)
        | err e ↦ (state_finding report name name (codes "CORRUPT"), false, n)
      ]))
      else pure (state_finding report name name (codes "UNKNOWN"), false, n)

  unfoldable pub scan_names :
      List Bytes → MaintenanceReport → Bool → ℕ → M W MaintenanceEvent (MaintenanceReport × Bool)
  unfolding scan_name
  scan_names [] report safe zero = pure (state_finding report [] [] (codes "AUTHORITY"), false)
  scan_names [] report safe (suc n) = pure (report, safe)
  scan_names (name ∷ names) report safe n =
      if name == codes "templates" || name == codes "sessions"
      then scan_names names report safe n
      else (caught (silent (r.is_ignorable name)) >>= λ ignorable.
          scan_name report safe n name ignorable >>= λ next. scan_names names next.0 next.1 next.2)

  unfoldable pub scan_state_root :
      MaintenanceReport → M W MaintenanceEvent (MaintenanceReport × Bool)
  unfolding scan_names
  scan_state_root report = caught (silent r.directory_names) >>= λ listed. elim listed [
    | ok names ↦ scan_names names report true 0
    | err e ↦ pure (state_finding report [] [] (codes "CORRUPT"), false)
  ]

  unfoldable pub maintenance_container :
      Bytes → MaintenanceReport → M W MaintenanceEvent (Bool × MaintenanceReport)
  maintenance_container name report =
      caught (silent (r.open_container_if_present name)) >>= λ opened. pure (elim opened [
        | ok present ↦ (present, report)
        | err e ↦ (false, state_finding report [] name (codes "CORRUPT"))
      ])

  -- The closure that `template::gc` asks: the keys of a census that asks for no recovery.
  unfoldable pub census_keys : M W Event (List Bytes)
  census_keys = do
    census ← session_census h t false
    lift (
        if not census.report.recovery_required
        then ok census.reachable_templates
        else fail "GC_RECOVERY_REQUIRED" "session census cannot prove template reachability")

  -- The end of `maintain`: the templates and then the sessions are collected.
  unfoldable pub clean_up :
      Bool → SessionCensus Plan → MaintenanceReport → M W MaintenanceEvent (Unit {0})
  clean_up cleanup census report =
      caught (embedded in_templates (Collect.gc s (bare census_keys))) >>= λ collected.
      elim collected [
        | err e ↦
            finish_maintenance cleanup (recovery report (codes "template") [] [] (codes "CORRUPT"))
        | ok templates ↦
            let merged = merge_maintenance report templates in
            if merged.recovery_required
            then finish_maintenance cleanup merged
            else (embedded in_sessions (gc_sessions h t census) >>= λ sessions.
                finish_maintenance cleanup (merge_maintenance merged sessions))
      ]

  abbrev pub merged_unless : Bool → MaintenanceReport → MaintenanceReport → MaintenanceReport
  merged_unless left_out report other = if left_out then report else merge_maintenance report other

  -- A survey, with the note of what it asks for.
  unfoldable pub noting : Survey → MaintenanceReport → M W MaintenanceEvent (Unit {0})
  noting of report = note_ok (surveyed of report.recovery_required) (λ w. (ok tt, w))

  -- The survey of the templates is made; it is reported, and cleaning up begins if it may.
  unfoldable pub templates_surveyed :
      Bool
      → SessionCensus Plan
      → MaintenanceReport
      → MaintenanceReport
      → M W MaintenanceEvent (Unit {0})
  unfolding clean_up noting
  templates_surveyed cleanup census report templates =
      noting of_templates templates
      >> (let merged =
            merged_unless (cleanup && not templates.recovery_required) report templates in
          if not cleanup
            || census.report.recovery_required
            || templates.recovery_required
            || merged.recovery_required
          then finish_maintenance cleanup merged
          else clean_up cleanup census merged)

  unfoldable pub survey_templates :
      Bool → SessionCensus Plan → MaintenanceReport → M W MaintenanceEvent (Unit {0})
  unfolding templates_surveyed
  survey_templates cleanup census report =
      caught (embedded in_templates (Census.doctor s)) >>= λ found. elim found [
        | err e ↦
            finish_maintenance cleanup (recovery report (codes "template") [] [] (codes "CORRUPT"))
        | ok templates ↦ templates_surveyed cleanup census report templates
      ]

  -- The survey of the sessions is made and reported.
  unfoldable pub sessions_surveyed :
      Bool → MaintenanceReport → SessionCensus Plan → M W MaintenanceEvent (Unit {0})
  unfolding survey_templates noting
  sessions_surveyed cleanup report census =
      noting of_sessions census.report
      >> survey_templates cleanup census
          (merged_unless (cleanup && not census.report.recovery_required) report census.report)

  unfoldable pub survey : Bool → MaintenanceReport → M W MaintenanceEvent (Unit {0})
  unfolding sessions_surveyed
  survey cleanup report =
      caught (embedded in_sessions (session_census h t (not cleanup))) >>= λ counted. elim counted [
        | err e ↦
            finish_maintenance cleanup (recovery report (codes "session") [] [] (codes "CORRUPT"))
        | ok census ↦ sessions_surveyed cleanup report census
      ]

  -- Both containers are there, or neither, or the one that is missing is reported.
  unfoldable pub survey_present :
      Bool → Bool → Bool → MaintenanceReport → M W MaintenanceEvent (Unit {0})
  unfolding survey
  survey_present cleanup true true report = caught (silent r.container_path) >>= λ path. elim path [
    | ok p ↦ survey cleanup report
    | err e ↦
        finish_maintenance cleanup (state_finding report [] (codes "sessions") (codes "CORRUPT"))
  ]
  survey_present cleanup false false report = finish_maintenance cleanup report
  survey_present cleanup false true report =
      finish_maintenance cleanup (state_finding report [] (codes "templates") (codes "ABSENT"))
  survey_present cleanup true false report =
      finish_maintenance cleanup (state_finding report [] (codes "sessions") (codes "ABSENT"))

  unfoldable pub maintain_state : Bool → M W MaintenanceEvent (Unit {0})
  unfolding survey_present scan_state_root maintenance_container
  maintain_state cleanup = do
    scanned ← scan_state_root empty_report
    if not scanned.1 then finish_maintenance cleanup scanned.0 else do
      templates ← maintenance_container (codes "templates") scanned.0
      sessions ← maintenance_container (codes "sessions") templates.1
      survey_present cleanup templates.0 sessions.0 sessions.1

  unfoldable pub maintain_opened : Bool → Result (Unit {0}) → M W MaintenanceEvent (Unit {0})
  unfolding maintain_state
  maintain_opened cleanup (ok u) = maintain_state cleanup
  maintain_opened cleanup (err e) =
      if e.code == "STATE_UNAVAILABLE" && e.detail == "state root does not exist"
      then finish_maintenance cleanup empty_report
      else finish_maintenance cleanup (state_finding empty_report [] [] (codes "CORRUPT"))

  unfoldable pub maintain : Bool → M W MaintenanceEvent (Unit {0})
  unfolding maintain_opened
  maintain cleanup = caught (silent r.open_existing_state) >>= maintain_opened cleanup
