-- ===== src/Maintenance/Flags.antt =====
-- The reports of the two surveys ask for recovery exactly if they hold a finding.
use git_vws.Effect.{
  World, silent, caught, Holds, Ensures, bind, pured, branch, Any, whatever, using,
}
use git_vws.Session.Types.{SessionPayload}
use git_vws.Session.Journal.{is_idle}
use git_vws.Session.Host.{RecordCapability, Event, Host}
use git_vws.Session.Names.{session_record_name}
use git_vws.Session.Store.{read_record_capability}
use git_vws.Template.Store.{RecordTxnTemporary}
use git_vws.Maintenance.Report
use git_vws.Maintenance.Report.{
  MaintenanceReport, empty_report, entry, recovery, recovery_code, Flagged,
}
use git_vws.Maintenance.Sessions
use git_vws.Maintenance.Sessions.{Sweep, SessionCensus}
use git_vws.Base.{
  ◌≡◌, refl, subst, Bool, true, false, not, Option, List, [], ◌∷◌, ◌++◌, ℕ_discrete, if◌then◌else◌,
  ◌==◌, nat_Eq, string_Eq, List-discrete, Bytes-discrete, bytes_Eq, option_bytes_Eq, option_nat_Eq,
  any, Bytes, codes, Result, ok, err,
}

module _ {W Plan : Type 0} (h : Host W) (t : Sweep W Plan) where
  code_differs :
      (payload : SessionPayload) → (Sessions.census_code payload == recovery_code) ≡ false
  unfolding Bytes-discrete List-discrete ℕ_discrete
  code_differs (SessionPayload.prepared root) = refl
  code_differs (SessionPayload.materializing root i) = refl
  code_differs (SessionPayload.ready p) = refl
  code_differs (SessionPayload.tombstoned root tombstone i) = refl

  record_line-Flagged :
      (report : MaintenanceReport) (c : RecordCapability) (name : Bytes) (r : Result (Option Plan))
      → Flagged report
      → Flagged (Sessions.record_line report c name r)
  unfolding Sessions.record_line
  record_line-Flagged report c name (err e) f = Report.recovery-Flagged report _ _ _ _
  record_line-Flagged report c name (ok plan) f = lined (is_idle c.session_record.journal)
    where
      lined :
          (b : Bool)
          → Flagged (
              if not b
              then Sessions.finding report name (codes "PUBLISH")
              else Sessions.item report name
                  (Sessions.census_state c.session_record.payload)
                  (Sessions.census_code c.session_record.payload))
      lined true = Report.entry-Flagged report _ _ _ _ _ (code_differs c.session_record.payload) f
      lined false = Report.recovery-Flagged report _ _ _ _

  counts_record :
      (census : SessionCensus Plan) (authorized : List Bytes) (name : Bytes)
      (r : Result RecordCapability)
      → Flagged census.report
      → Ensures Any
          (Sessions.count_record h t census authorized name r)
          (λ next w. Flagged next.0.report)
          Any
  unfolding Sessions.count_record Sessions.counted_record
  counts_record census authorized name (ok c) f =
      bind (whatever _) λ r. pured _ (λ w p. record_line-Flagged census.report c name r f)
  counts_record census authorized name (err e) f =
      pured _ (λ w p. Report.recovery-Flagged census.report _ _ _ _)

  counts_records :
      (names : List Bytes) (census : SessionCensus Plan) (authorized : List Bytes)
      → Flagged census.report
      → Ensures Any
          (Sessions.count_records h t names census authorized)
          (λ next w. Flagged next.0.report)
          Any
  unfolding Sessions.count_records
  counts_records [] census authorized f = pured _ (λ w p. f)
  counts_records (name ∷ names) census authorized f =
      branch (session_record_name name)
        (λ e. bind (whatever (caught (read_record_capability h name))) λ r.
          bind (counts_record census (authorized ++ (name ∷ [])) name r f)
            λ next. using λ g. counts_records names next.0 next.1 g)
        (λ e. counts_records names census authorized f)

  count_temporary-Flagged :
      (b : Bool) (census : SessionCensus Plan) (name : Bytes)
      (r : Result (RecordCapability × RecordTxnTemporary))
      → Flagged census.report
      → Flagged (Sessions.count_temporary h t b census name r).report
  unfolding Sessions.count_temporary Bytes-discrete List-discrete ℕ_discrete
  count_temporary-Flagged true census name (ok found) f =
      Report.entry-Flagged census.report _ _ _ _ _ refl f
  count_temporary-Flagged false census name (ok found) f = f
  count_temporary-Flagged b census name (err e) f = Report.recovery-Flagged census.report _ _ _ _

  counts_other :
      (b : Bool) (census : SessionCensus Plan) (name : Bytes)
      → Flagged census.report
      → Ensures Any (Sessions.count_other h t b census name) (λ d w. Flagged d.report) Any
  unfolding Sessions.count_other
  counts_other b census name f =
      branch (Sessions.is_temporary name)
        (λ e. bind (whatever (caught (Sessions.session_predecessor_temporary h t name))) λ r.
          pured (Sessions.count_temporary h t b census name r)
            (λ w p. count_temporary-Flagged b census name r f))
        (λ e.
          pured (record census { report = Sessions.finding census.report name (codes "UNKNOWN") })
            (λ w p. Report.recovery-Flagged census.report _ _ _ _))

  counts_others :
      (b : Bool) (names : List Bytes) (census : SessionCensus Plan) (authorized : List Bytes)
      → Flagged census.report
      → Ensures Any
          (Sessions.count_others h t b names census authorized)
          (λ d w. Flagged d.report)
          Any
  unfolding Sessions.count_others
  counts_others b [] census authorized f = pured census (λ w p. f)
  counts_others b (name ∷ names) census authorized f =
      branch (any (λ known. known == name) authorized)
        (λ e. counts_others b names census authorized f)
        (λ e. bind (whatever (silent (t.is_ignorable name))) λ ignorable.
          branch ignorable (λ e. counts_others b names census authorized f)
            (λ e.
              bind (counts_other b census name f)
                λ next. using λ g. counts_others b names next authorized g))

  surveyed : (b : Bool) → Ensures Any (Sessions.session_census h t b) (λ d w. Flagged d.report) Any
  unfolding Sessions.session_census Sessions.census_of
  surveyed b = bind (whatever _) λ names.
      bind (counts_records names _ [] Report.empty-Flagged)
        λ first. using λ f. counts_others b names first.0 first.1 f

  -- A census of the sessions that succeeds asks for recovery exactly if its report holds a finding.
  pub session_census-Flagged :
      (report_temporary : Bool) (w w' : World W Event) (census : SessionCensus Plan)
      → Sessions.session_census h t report_temporary w ≡ (ok census, w')
      → Flagged census.report
  session_census-Flagged report_temporary w w' census e =
      subst (Holds (λ d v. Flagged d.report) Any) e ((surveyed report_temporary).run w tt)
