-- ===== src/Template/Flags.antt =====
-- The report of `doctor` on the templates asks for recovery exactly if it holds a finding.
use git_vws.Effect.{
  World, silent, caught, Holds, Ensures, bind, pured, branch, Any, whatever, using,
}
use git_vws.Template.Record.{TemplatePayload}
use git_vws.Template.Store
use git_vws.Template.Store.{Store, TemplateCapability, TemplateEvent, RecordTxnTemporary}
use git_vws.Template.Census
use git_vws.Template.Census.{TemplateCensus}
use git_vws.Maintenance.Report
use git_vws.Maintenance.Report.{
  MaintenanceReport, empty_report, entry, recovery, recovery_code, Flagged,
}
use git_vws.Base.{
  ◌≡◌, refl, subst, Bool, true, false, Option, none, some, List, [], ◌∷◌, ◌++◌, ℕ_discrete, ◌==◌,
  nat_Eq, string_Eq, List-discrete, Bytes-discrete, bytes_Eq, option_bytes_Eq, option_nat_Eq, any,
  Bytes, codes, Result, ok, err,
}

diagnosed-Flagged :
    (report : MaintenanceReport) (record_name path_name state code : Bytes) (b : Bool)
    → (code == recovery_code) ≡ false
    → Flagged report
    → Flagged (Census.diagnosed report record_name path_name state code b)
unfolding Census.diagnosed
diagnosed-Flagged report record_name path_name state code true q f =
    Report.entry-Flagged report _ _ _ _ _ q f
diagnosed-Flagged report record_name path_name state code false q f =
    Report.recovery-Flagged report _ _ _ _

ok_differs : (codes "OK" == recovery_code) ≡ false
unfolding Bytes-discrete List-discrete ℕ_discrete
ok_differs = refl

pending_differs : (codes "RECOVERY" == recovery_code) ≡ false
unfolding Bytes-discrete List-discrete ℕ_discrete
pending_differs = refl

retained_differs : (codes "RETAINED" == recovery_code) ≡ false
unfolding Bytes-discrete List-discrete ℕ_discrete
retained_differs = refl

module _ {W : Type 0} (s : Store W) where
  diagnoses :
      (c : TemplateCapability) (payload : TemplatePayload) (report : MaintenanceReport)
      → Flagged report
      → Ensures Any (Census.diagnose_template_capability s c payload report) (λ d w. Flagged d) Any
  unfolding Census.diagnose_template_capability
  diagnoses c (TemplatePayload.ready root sealed) report f =
      bind (whatever _) λ r. pured _ (λ w p. diagnosed-Flagged report _ _ _ _ _ ok_differs f)
  diagnoses c (TemplatePayload.tombstoned root tombstone sealed) report f =
      bind (whatever _) λ left. bind (whatever _) λ right.
        bind (whatever _)
          λ valid. pured _ (λ w p. diagnosed-Flagged report _ _ _ _ _ pending_differs f)
  diagnoses c (TemplatePayload.prepared building) report f =
      pured _ (λ w p. Report.recovery-Flagged report _ _ _ _)
  diagnoses c (TemplatePayload.materializing building i) report f =
      pured _ (λ w p. Report.recovery-Flagged report _ _ _ _)
  diagnoses c (TemplatePayload.publishing building name sealed) report f =
      pured _ (λ w p. Report.recovery-Flagged report _ _ _ _)

  counts_record :
      (census : TemplateCensus) (authorized : List Bytes) (name : Bytes)
      (r : Result (Option TemplateCapability))
      → Flagged census.report
      → Ensures Any
          (Census.count_record s census authorized name r)
          (λ next w. Flagged next.0.report)
          Any
  unfolding Census.count_record
  counts_record census authorized name (ok (some c)) f =
      bind (diagnoses c c.template_record.payload census.report f) λ report. pured _ (λ w p. p)
  counts_record census authorized name (ok none) f =
      pured _ (λ w p. Report.recovery-Flagged census.report _ _ _ _)
  counts_record census authorized name (err e) f =
      pured _ (λ w p. Report.recovery-Flagged census.report _ _ _ _)

  counts_records :
      (names : List Bytes) (census : TemplateCensus) (authorized : List Bytes)
      → Flagged census.report
      → Ensures Any
          (Census.count_records s names census authorized)
          (λ next w. Flagged next.0.report)
          Any
  unfolding Census.count_records
  counts_records [] census authorized f = pured _ (λ w p. f)
  counts_records (name ∷ names) census authorized f =
      branch (Store.template_record_name name)
        (λ e. bind (whatever (caught (Store.read_template_capability s name))) λ r.
          bind (counts_record census (authorized ++ (name ∷ [])) name r f)
            λ next. using λ g. counts_records names next.0 next.1 g)
        (λ e. counts_records names census authorized f)

  count_temporary-Flagged :
      (b : Bool) (census : TemplateCensus) (name : Bytes)
      (r : Result (RecordTxnTemporary × TemplateCapability))
      → Flagged census.report
      → Flagged (Census.count_temporary s b census name r).report
  unfolding Census.count_temporary Census.template_item
  count_temporary-Flagged true census name (ok found) f =
      Report.entry-Flagged census.report _ _ _ _ _ retained_differs f
  count_temporary-Flagged false census name (ok found) f = f
  count_temporary-Flagged b census name (err e) f = Report.recovery-Flagged census.report _ _ _ _

  counts_other :
      (b : Bool) (census : TemplateCensus) (name : Bytes)
      → Flagged census.report
      → Ensures Any (Census.count_other s b census name) (λ d w. Flagged d.report) Any
  unfolding Census.count_other
  counts_other b census name f =
      branch (Census.is_temporary s name)
        (λ e. bind (whatever (caught (Census.template_predecessor_temporary s name))) λ r.
          pured (Census.count_temporary s b census name r)
            (λ w p. count_temporary-Flagged b census name r f))
        (λ e.
          pured (record census { report = Census.finding census.report name (codes "UNKNOWN") })
            (λ w p. Report.recovery-Flagged census.report _ _ _ _))

  counts_others :
      (b : Bool) (names : List Bytes) (census : TemplateCensus) (authorized : List Bytes)
      → Flagged census.report
      → Ensures Any (Census.count_others s b names census authorized) (λ d w. Flagged d.report) Any
  unfolding Census.count_others
  counts_others b [] census authorized f = pured census (λ w p. f)
  counts_others b (name ∷ names) census authorized f =
      branch (any (λ known. known == name) authorized)
        (λ e. counts_others b names census authorized f)
        (λ e. bind (whatever (silent (s.is_ignorable name))) λ ignorable.
          branch ignorable (λ e. counts_others b names census authorized f)
            (λ e.
              bind (counts_other b census name f)
                λ next. using λ g. counts_others b names next authorized g))

  surveyed : Ensures Any (Census.doctor s) (λ d w. Flagged d) Any
  unfolding Census.doctor Census.template_census
  surveyed =
      bind
        (bind (whatever _) λ names.
          bind (counts_records names _ [] Report.empty-Flagged)
            λ first. using λ f. counts_others true names first.0 first.1 f)
        λ census. pured _ (λ w p. p)

  -- A `doctor` of the templates that succeeds asks for recovery exactly if its report holds a finding.
  pub doctor-Flagged :
      (w w' : World W TemplateEvent) (report : MaintenanceReport)
      → Census.doctor s w ≡ (ok report, w')
      → Flagged report
  doctor-Flagged w w' report e = subst (Holds (λ d v. Flagged d) Any) e (surveyed.run w tt)
