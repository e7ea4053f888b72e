-- ===== src/Tests/Collecting.antt =====
-- A collection of one template that no session needs, and its property there.
use git_vws.Authority.Identity
use git_vws.Authority.Identity.{Identity}
use git_vws.Storage.Receipts
use git_vws.Storage.Receipts.{SealedTreeReceipt}
use git_vws.Storage.Modes
use git_vws.Effect
use git_vws.Effect.{World}
use git_vws.Session.Host
use git_vws.Session.Host.{RecordBinding}
use git_vws.Session.Names
use git_vws.Maintenance.Report
use git_vws.Maintenance.Report.{MaintenanceReport, empty_report, Flagged}
use git_vws.Template.Record
use git_vws.Template.Record.{TemplatePayload, TemplateRecord}
use git_vws.Template.Transition
use git_vws.Template.Store
use git_vws.Template.Store.{
  Store, TemplateRecord-discrete, template_record_Eq, TemplateEvent, counted, wrote, destroyed,
  removed,
}
use git_vws.Template.Census
use git_vws.Template.Collect
use git_vws.Template.Completing
use git_vws.Template.Spares
use git_vws.Template.Flags
use git_vws.Tests.Fixture.{some_hash, private_node, file_node, bound}
use git_vws.Base.{
  zero, suc, ◌≡◌, refl, sym, ap, ◌∙◌, Bool, true, false, Option, none, some, List, [], ◌∷◌, ◌++◌,
  ℕ_discrete, if◌then◌else◌, ◌==◌, ==_iff, nat_Eq, string_Eq, List-discrete, Option-discrete,
  Bytes-discrete, OptionBytes-discrete, bytes_Eq, option_bytes_Eq, option_nat_Eq, Bytes, codes,
  contains, strip_prefix, starts_with, strip_suffix, ends_with, includes, cut_first, cut_last,
  split, is_utf8, Result, ok, err, fail, ok-injective,
}

abbrev sealed_node : Identity
sealed_node = record private_node { mode = 0o555 }

abbrev sealed : SealedTreeReceipt
sealed = record {
  root = sealed_node;
  volume = codes "v";
  manifest = record { digest = some_hash; entries = 1 };
  content_digest = some_hash;
}

abbrev ready_record : TemplateRecord
ready_record = record {
  version = 3;
  key = some_hash;
  manifest = sealed.manifest;
  volume = codes "v";
  payload = TemplatePayload.ready (codes "template-" ++ (some_hash ++ codes ".root")) sealed;
}

abbrev tombstone_record : TemplateRecord
tombstone_record = record ready_record {
  version = 4;
  payload =
      TemplatePayload.tombstoned (codes "template-" ++ (some_hash ++ codes ".root"))
        (codes "template-" ++ (some_hash ++ codes ".tombstone")) sealed;
}

abbrev tag : Bool → Bool → Result Bytes
tag true b = ok (0 ∷ [])
tag false true = ok (1 ∷ [])
tag false false = fail "TEMPLATE_IO_FAILED" "cannot encode template record"

abbrev record_of : Bytes → Option TemplateRecord
record_of [] = none
record_of (zero ∷ s) = some ready_record
record_of (suc n ∷ s) = some tombstone_record

-- What the record file holds, and whether the tree was renamed.
abbrev Disk : Type 0
Disk = Bytes × Bool

abbrev entry_of : Bytes → Disk → Option Identity
entry_of name (bytes, renamed) =
    if ends_with (codes ".record") name
    then some file_node
    else if ends_with (codes ".root") name
    then (if renamed then none else some sealed_node)
    else (if renamed then some sealed_node else none)

abbrev some_store : Store Disk
some_store = record {
  directory_names = λ w. (ok ((codes "template-" ++ (some_hash ++ codes ".record")) ∷ []), w);
  is_ignorable = λ name w. (ok false, w);
  entry_identity = λ name w. (ok (entry_of name w), w);
  open_directory = λ name w. (ok 3, w);
  identity_of = λ descriptor w. (ok sealed_node, w);
  volume_id = λ descriptor w. (ok (codes "v"), w);
  verify_sealed_tree = λ root receipt w. (ok tt, w);
  acquire_exclusive = λ root w. (ok tt, w);
  change_mode = λ descriptor mode w. (ok tt, w);
  sync_all = λ descriptor w. (ok tt, w);
  rename_no_replace = λ old new w. (ok tt, (w.0, true));
  sync_container = λ w. (ok tt, w);
  remove_owned_tree_gc = λ name i w. (ok tt, w);
  read_file_binding = λ name w. (ok (bound w.0), w);
  replace_bound = λ name bytes binding w. (ok (bound bytes), (bytes, w.1));
  remove_bound = λ name binding w. (ok tt, w);
  record_txn_temporary = λ name w. (ok none, w);
  remove_temporary = λ name binding w. (ok tt, w);
  to_json = λ r. tag (r == ready_record) (r == tombstone_record);
  from_json = record_of;
  me = 501;
  macos = false;
}

commits :
    (name bytes : Bytes) (binding new : RecordBinding) (w w' : Disk)
    → some_store.replace_bound name bytes binding w ≡ (ok new, w')
    → new.bytes ≡ bytes
commits name bytes binding new w w' e = ap bytes_of (ap (λ x. x.0) (sym e))
  where
    bytes_of : Result RecordBinding → Bytes
    bytes_of (ok b) = b.bytes
    bytes_of (err e) = []

tagged :
    (r : TemplateRecord) (bytes : Bytes) (left right : Bool)
    → (left ≡ true → r ≡ ready_record)
    → (right ≡ true → r ≡ tombstone_record)
    → tag left right ≡ ok bytes
    → record_of bytes ≡ some r
tagged r bytes true right h k e = ap record_of (sym (ok-injective e)) ∙ ap some (sym (h refl))
tagged r bytes false true h k e = ap record_of (sym (ok-injective e)) ∙ ap some (sym (k refl))
tagged r bytes false false h k e = absurd (cc)

round_trip :
    (r : TemplateRecord) (bytes : Bytes)
    → some_store.to_json r ≡ ok bytes
    → some_store.from_json bytes ≡ some r
round_trip r bytes e =
    tagged r bytes (r == ready_record) (r == tombstone_record) (==_iff r ready_record).0
      (==_iff r tombstone_record).0 e

-- No session needs a template.
abbrev no_sessions : Disk → Result (List Bytes) × Disk
no_sessions w = (ok [], w)

abbrev first_world : World Disk TemplateEvent
first_world = record { outside = (0 ∷ [], false); log = [] }

abbrev collecting : Result MaintenanceReport × World Disk TemplateEvent
collecting = Collect.gc some_store no_sessions first_world

gc-Guarded_example : Completing.Guarded collecting.1.log
unfolding Completing.Guarded
gc-Guarded_example = Spares.gc-Guarded some_store no_sessions commits round_trip first_world tt

collecting_log :
    collecting.1.log
    ≡ removed tombstone_record
      ∷ destroyed tombstone_record
      ∷ wrote tombstone_record
      ∷ counted []
      ∷ []
unfolding Store.TemplatePayload-discrete Store.TemplateRecord-discrete Store.record_name
    Store.template_record_name Store.tombstone_cleanup_mode Store.cstring Store.named_identity
    Store.parse Store.read_present Store.read_template_capability Store.check_root
    Store.revalidate_template_capability Store.sealed_root Store.verify_if_sealed
    Store.validate_template_tombstone_root Store.tombstone_root
    Store.revalidate_template_tombstone_capability Store.replace_template_capability
    Store.remove_template_record Census.template_item Census.template_payload_names Census.diagnosed
    Census.tombstone_bound Census.diagnose_template_capability Census.template_predecessor_temporary
    Census.clean_predecessor_temporary Census.count_record Census.count_records Census.is_temporary
    Census.count_temporary Census.count_other Census.count_others Census.template_census
    Census.doctor Collect.tombstoned_record Collect.has_key Collect.ask Collect.make_private
    Collect.prepare_template_tombstone_rename Collect.renamed Collect.promote
    Collect.promote_template_tombstone Collect.is_needed Collect.destroy_free Collect.destroy_tree
    Collect.remove_only_record Collect.complete_bound Collect.complete_payload
    Collect.complete_template_tombstone Collect.transition_template_tombstone
    Collect.gc_ready_template Collect.tombstone_outcome Collect.ready_outcome Collect.gc_template
    Collect.gc_templates Collect.gc_temporaries Collect.gc Record.root_name Record.tombstone_name
    Record.is_basename Record.valid_building_name Record.sealed_matches Record.valid_stage
    Record.validate_record Record.parse_record Transition.stage_follows
    Transition.template_transition Transition.template_precedes Transition.template_stage
    Modes.session_mode Modes.stable_directory_node Modes.private_directory Modes.sealed_directory
    Modes.publishing_directory Modes.publishing_binding Modes.sealed_regular
    Modes.worktree_directory Modes.clone_destination_directory Modes.owned_tree_binding
    Modes.owned_regular Modes.owned_cleanup_regular Modes.empty_owned_directory_binding
    Modes.cleanup_mode_directory Modes.valid_basename Identity.Identity-discrete Identity.same_node
    Receipts.ManifestReceipt-discrete Receipts.SealedTreeReceipt-discrete
    Host.RecordBinding-discrete Names.valid_hash Report.entry Report.recovery Effect.◌>>=◌
    Effect.◌>>◌ Effect.lift Effect.pure Effect.map_error Effect.note_ok Effect.silent Effect.caught
    List-discrete Option-discrete Bytes-discrete OptionBytes-discrete contains strip_prefix
    starts_with strip_suffix ends_with includes cut_first cut_last split is_utf8 ℕ_discrete
collecting_log = refl

abbrev surveying : Result MaintenanceReport × World Disk TemplateEvent
surveying = Census.doctor some_store first_world

abbrev report_in : Result MaintenanceReport → MaintenanceReport
report_in (ok report) = report
report_in (err e) = empty_report

surveying_ok : surveying ≡ (ok (report_in surveying.0), surveying.1)
unfolding Store.TemplatePayload-discrete Store.TemplateRecord-discrete Store.record_name
    Store.template_record_name Store.tombstone_cleanup_mode Store.cstring Store.named_identity
    Store.parse Store.read_present Store.read_template_capability Store.check_root
    Store.revalidate_template_capability Store.sealed_root Store.verify_if_sealed
    Store.validate_template_tombstone_root Store.tombstone_root
    Store.revalidate_template_tombstone_capability Store.replace_template_capability
    Store.remove_template_record Census.template_item Census.template_payload_names Census.diagnosed
    Census.tombstone_bound Census.diagnose_template_capability Census.template_predecessor_temporary
    Census.clean_predecessor_temporary Census.count_record Census.count_records Census.is_temporary
    Census.count_temporary Census.count_other Census.count_others Census.template_census
    Census.doctor Collect.tombstoned_record Collect.has_key Collect.ask Collect.make_private
    Collect.prepare_template_tombstone_rename Collect.renamed Collect.promote
    Collect.promote_template_tombstone Collect.is_needed Collect.destroy_free Collect.destroy_tree
    Collect.remove_only_record Collect.complete_bound Collect.complete_payload
    Collect.complete_template_tombstone Collect.transition_template_tombstone
    Collect.gc_ready_template Collect.tombstone_outcome Collect.ready_outcome Collect.gc_template
    Collect.gc_templates Collect.gc_temporaries Collect.gc Record.root_name Record.tombstone_name
    Record.is_basename Record.valid_building_name Record.sealed_matches Record.valid_stage
    Record.validate_record Record.parse_record Transition.stage_follows
    Transition.template_transition Transition.template_precedes Transition.template_stage
    Modes.session_mode Modes.stable_directory_node Modes.private_directory Modes.sealed_directory
    Modes.publishing_directory Modes.publishing_binding Modes.sealed_regular
    Modes.worktree_directory Modes.clone_destination_directory Modes.owned_tree_binding
    Modes.owned_regular Modes.owned_cleanup_regular Modes.empty_owned_directory_binding
    Modes.cleanup_mode_directory Modes.valid_basename Identity.Identity-discrete Identity.same_node
    Receipts.ManifestReceipt-discrete Receipts.SealedTreeReceipt-discrete
    Host.RecordBinding-discrete Names.valid_hash Report.entry Report.recovery Effect.◌>>=◌
    Effect.◌>>◌ Effect.lift Effect.pure Effect.map_error Effect.note_ok Effect.silent Effect.caught
    List-discrete Option-discrete Bytes-discrete OptionBytes-discrete contains strip_prefix
    starts_with strip_suffix ends_with includes cut_first cut_last split is_utf8 ℕ_discrete
surveying_ok = refl

doctor-Flagged_example : Flagged (report_in surveying.0)
doctor-Flagged_example =
    Flags.doctor-Flagged some_store first_world surveying.1 (report_in surveying.0) surveying_ok
