-- ===== src/Template/Census.antt =====
-- src/template.rs: `doctor` with `template_census`, which accounts for every name in the container.
use git_vws.Authority.Identity.{Identity}
use git_vws.Storage.Receipts.{SealedTreeReceipt}
use git_vws.Storage.Modes.{owned_tree_binding}
use git_vws.Effect.{M, ◌>>=◌, ◌>>◌, lift, note_ok, silent, caught, pure}
use git_vws.Template.Record.{TemplatePayload}
use git_vws.Template.Transition.{template_precedes}
use git_vws.Template.Store
use git_vws.Template.Store.{
  Store, TemplateCapability, RecordTxnTemporary, TemplateEvent, cleaned, template_recovery,
  template_record_name, tombstone_cleanup_mode, named_identity, sealed_root, tombstone_root,
  read_template_capability,
}
use git_vws.Maintenance.Report.{MaintenanceReport, empty_report, entry, recovery}
use git_vws.Base.{
  Bool, true, false, ◌&&◌, Option, none, some, List, [], ◌∷◌, ◌++◌, if◌then◌else◌, ◌==◌, nat_Eq,
  string_Eq, bytes_Eq, option_bytes_Eq, option_nat_Eq, any, Bytes, codes, starts_with, ends_with,
  Result, ok, err, guard, ok_or, is_ok,
}

-- src/template.rs: `TemplateCensus`
pub record TemplateCensus : Type 0 where
  pub capabilities : List TemplateCapability
  pub temporaries : List Bytes
  pub report : MaintenanceReport

abbrev scope : Bytes
scope = codes "template"

unfoldable pub template_item : MaintenanceReport → Bytes → Bytes → Bytes → MaintenanceReport
template_item report name state code = entry report scope name name state code

abbrev pub finding : MaintenanceReport → Bytes → Bytes → MaintenanceReport
finding report name state = recovery report scope name name state

-- `template_payload_names`
unfoldable pub template_payload_names : TemplatePayload → List Bytes
template_payload_names (TemplatePayload.prepared building) = building ∷ []
template_payload_names (TemplatePayload.materializing building i) = building ∷ []
template_payload_names (TemplatePayload.publishing building ready_name sealed) =
    building ∷ ready_name ∷ []
template_payload_names (TemplatePayload.ready root sealed) = root ∷ []
template_payload_names (TemplatePayload.tombstoned root tombstone sealed) = root ∷ tombstone ∷ []

-- The end of `diagnose_template_capability`.
unfoldable pub diagnosed :
    MaintenanceReport → Bytes → Bytes → Bytes → Bytes → Bool → MaintenanceReport
diagnosed report record_name path_name state code true =
    entry report scope record_name path_name state code
diagnosed report record_name path_name state code false =
    recovery report scope record_name path_name state

module _ {W : Type 0} (s : Store W) where
  -- The tree of a tombstone, by what stands under its two names.
  unfoldable pub tombstone_bound :
      Bytes
      → Bytes
      → SealedTreeReceipt
      → Bytes
      → Result (Option Identity)
      → Result (Option Identity)
      → M W TemplateEvent Bool
  tombstone_bound root tombstone sealed volume (ok (some i)) (ok none) =
      if owned_tree_binding s.me i sealed.root && tombstone_cleanup_mode s.me i
      then (caught (tombstone_root s root sealed volume) >>= λ r. pure (is_ok r))
      else pure false
  tombstone_bound root tombstone sealed volume (ok none) (ok (some i)) =
      caught (tombstone_root s tombstone sealed volume) >>= λ r. pure (is_ok r)
  tombstone_bound root tombstone sealed volume (ok none) (ok none) = pure true
  tombstone_bound root tombstone sealed volume _ _ = pure false

  unfoldable pub diagnose_template_capability :
      TemplateCapability → TemplatePayload → MaintenanceReport → M W TemplateEvent MaintenanceReport
  unfolding tombstone_bound
  diagnose_template_capability c (TemplatePayload.ready root sealed) report = do
    r ← caught (sealed_root s root sealed c.template_record.volume)
    pure (diagnosed report c.basename root (codes "READY") (codes "OK") (is_ok r))
  diagnose_template_capability c (TemplatePayload.tombstoned root tombstone sealed) report = do
    root_entry ← caught (named_identity s root)
    tombstone_entry ← caught (named_identity s tombstone)
    valid ←
        tombstone_bound root tombstone sealed c.template_record.volume root_entry tombstone_entry
    pure (diagnosed report c.basename tombstone (codes "TOMBSTONED") (codes "RECOVERY") valid)
  diagnose_template_capability c (TemplatePayload.prepared building) report =
      pure (recovery report scope c.basename building (codes "INCOMPLETE"))
  diagnose_template_capability c (TemplatePayload.materializing building i) report =
      pure (recovery report scope c.basename building (codes "INCOMPLETE"))
  diagnose_template_capability c (TemplatePayload.publishing building ready_name sealed) report =
      pure (recovery report scope c.basename building (codes "INCOMPLETE"))

  unfoldable pub template_predecessor_temporary :
      Bytes → M W TemplateEvent (RecordTxnTemporary × TemplateCapability)
  template_predecessor_temporary name = do
    found ← silent (s.record_txn_temporary name)
    temporary ← lift (
        ok_or found
          (template_recovery "temporary template record basename is not a RecordTxn predecessor"))
    lift (
        guard (template_record_name temporary.final_name)
          (template_recovery "temporary record does not name a template record"))
    present ← read_template_capability s temporary.final_name
    current ←
        lift
          (ok_or present (template_recovery "temporary template record has no current successor"))
    previous ← lift (Store.parse s temporary.binding.bytes)
    lift (
        guard (template_precedes previous current.template_record) (
          template_recovery
            "temporary template record is not the direct predecessor of its current record"))
    pure (temporary, current)

  unfoldable pub clean_predecessor_temporary : Bytes → M W TemplateEvent (Unit {0})
  clean_predecessor_temporary name = do
    found ← template_predecessor_temporary name
    note_ok (cleaned name) (s.remove_temporary name found.0.binding)

  -- What the first loop of `template_census` does with the record file `name`.
  unfoldable pub count_record :
      TemplateCensus
      → List Bytes
      → Bytes
      → Result (Option TemplateCapability)
      → M W TemplateEvent (TemplateCensus × List Bytes)
  unfolding diagnose_template_capability
  count_record census authorized name (ok (some c)) = do
    report ← diagnose_template_capability c c.template_record.payload census.report
    pure (
      record census { report = report; capabilities = census.capabilities ++ (c ∷ []) },
      authorized ++ template_payload_names c.template_record.payload,
    )
  count_record census authorized name _ =
      pure (record census { report = finding census.report name (codes "CORRUPT") }, authorized)

  unfoldable pub count_records :
      List Bytes → TemplateCensus → List Bytes → M W TemplateEvent (TemplateCensus × List Bytes)
  unfolding count_record
  count_records [] census authorized = pure (census, authorized)
  count_records (name ∷ names) census authorized =
      if template_record_name name
      then (caught (read_template_capability s name) >>= λ r.
          count_record census (authorized ++ (name ∷ [])) name r >>= λ next.
          count_records names next.0 next.1)
      else count_records names census authorized

  unfoldable pub is_temporary : Bytes → Bool
  is_temporary name = starts_with (codes ".") name && ends_with (codes ".tmp") name

  -- What the second loop does with a temporary record file.
  unfoldable pub count_temporary :
      Bool
      → TemplateCensus
      → Bytes
      → Result (RecordTxnTemporary × TemplateCapability)
      → TemplateCensus
  count_temporary report_temporary census name (ok found) = record census {
    temporaries = census.temporaries ++ (name ∷ []);
    report =
        if report_temporary
        then template_item census.report name (codes "TMP") (codes "RETAINED")
        else census.report;
  }
  count_temporary report_temporary census name (err e) = record census {
    report = finding census.report name (codes "TMP");
  }

  unfoldable pub count_other : Bool → TemplateCensus → Bytes → M W TemplateEvent TemplateCensus
  unfolding count_temporary
  count_other report_temporary census name =
      if is_temporary name
      then (caught (template_predecessor_temporary name) >>= λ r.
          pure (count_temporary report_temporary census name r))
      else pure (record census { report = finding census.report name (codes "UNKNOWN") })

  unfoldable pub count_others :
      Bool → List Bytes → TemplateCensus → List Bytes → M W TemplateEvent TemplateCensus
  unfolding count_other
  count_others report_temporary [] census authorized = pure census
  count_others report_temporary (name ∷ names) census authorized =
      if any (λ known. known == name) authorized
      then count_others report_temporary names census authorized
      else (silent (s.is_ignorable name) >>= λ ignorable.
          if ignorable
          then count_others report_temporary names census authorized
          else (count_other report_temporary census name >>= λ next.
              count_others report_temporary names next authorized))

  unfoldable pub template_census : Bool → M W TemplateEvent TemplateCensus
  template_census report_temporary = do
    names ← silent s.directory_names
    first ←
        count_records names (record { capabilities = []; temporaries = []; report = empty_report })
          []
    count_others report_temporary names first.0 first.1

  unfoldable pub doctor : M W TemplateEvent MaintenanceReport
  unfolding template_census
  doctor = do census ← template_census true; pure census.report
