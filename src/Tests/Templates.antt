-- ===== src/Tests/Templates.antt =====
-- Two records of one template, and the properties of template records there.
use git_vws.Authority.Identity
use git_vws.Storage.Receipts
use git_vws.Storage.Modes
use git_vws.Session.Names
use git_vws.Storage.Receipts.{ManifestReceipt}
use git_vws.Template.Record
use git_vws.Template.Record.{TemplatePayload, TemplateRecord, validate_record, parse_record}
use git_vws.Template.Transition
use git_vws.Template.Transition.{template_precedes, template_stage}
use git_vws.Tests.Fixture.{some_hash, private_node}
use git_vws.Base.{
  ◌+◌, ◌≡◌, refl, ◌↔◌, ◌⊎◌, true, Option, some, [], ◌∷◌, ◌++◌, ℕ_discrete, nat_Eq, string_Eq,
  List-discrete, Option-discrete, Bytes-discrete, OptionBytes-discrete, bytes_Eq, option_bytes_Eq,
  option_nat_Eq, OptionNat-discrete, Bytes, codes, contains, strip_prefix, starts_with,
  strip_suffix, ends_with, includes, cut_first, cut_last, split, decimal, parse_unsigned, is_utf8,
  Result, ok,
}

abbrev building : Bytes
building = codes "template-" ++ (some_hash ++ codes ".1.building")

abbrev prepared_template : TemplateRecord
prepared_template = record {
  version = 3;
  key = some_hash;
  manifest = record { digest = some_hash; entries = 1 };
  volume = codes "v";
  payload = TemplatePayload.prepared building;
}

abbrev materializing_template : TemplateRecord
materializing_template = record prepared_template {
  payload = TemplatePayload.materializing building private_node;
}

prepared_template_valid : validate_record 501 prepared_template ≡ ok tt
unfolding Record.root_name Record.tombstone_name Record.is_basename Record.valid_building_name
    Record.sealed_matches Record.valid_stage validate_record parse_record Transition.stage_follows
    Transition.template_transition template_precedes template_stage Names.valid_session_name
    Names.selected_name Names.root_name Names.tombstone_name Names.record_name
    Names.session_record_name Names.valid_hash Names.valid_lower_hash Names.valid_oid
    Names.valid_lower_oid Names.oid_matches_format Names.pack_oid Names.pack_entry_name
    Names.pack_entry_pair Names.loose_fanout_name Modes.session_mode Modes.stable_directory_node
    Modes.private_directory Modes.sealed_directory Modes.publishing_directory
    Modes.publishing_binding Modes.sealed_regular Modes.worktree_directory
    Modes.clone_destination_directory Modes.owned_tree_binding Modes.owned_regular
    Modes.owned_cleanup_regular Modes.empty_owned_directory_binding Modes.cleanup_mode_directory
    Modes.valid_basename Identity.Identity-discrete Identity.from_stat Identity.same_node
    Identity.matches Identity.valid_state_root Identity.valid_state_container Identity.safe_new_root
    Identity.valid_record Identity.valid_private_record Receipts.ManifestReceipt-discrete
    Receipts.SealedTreeReceipt-discrete Receipts.CowReceipt-discrete List-discrete Option-discrete
    Bytes-discrete OptionBytes-discrete OptionNat-discrete contains strip_prefix starts_with
    strip_suffix ends_with includes cut_first cut_last split decimal parse_unsigned is_utf8
    ℕ_discrete
prepared_template_valid = refl

temporary_accepted : template_precedes materializing_template prepared_template ≡ true
unfolding Record.root_name Record.tombstone_name Record.is_basename Record.valid_building_name
    Record.sealed_matches Record.valid_stage validate_record parse_record Transition.stage_follows
    Transition.template_transition template_precedes template_stage Names.valid_session_name
    Names.selected_name Names.root_name Names.tombstone_name Names.record_name
    Names.session_record_name Names.valid_hash Names.valid_lower_hash Names.valid_oid
    Names.valid_lower_oid Names.oid_matches_format Names.pack_oid Names.pack_entry_name
    Names.pack_entry_pair Names.loose_fanout_name Modes.session_mode Modes.stable_directory_node
    Modes.private_directory Modes.sealed_directory Modes.publishing_directory
    Modes.publishing_binding Modes.sealed_regular Modes.worktree_directory
    Modes.clone_destination_directory Modes.owned_tree_binding Modes.owned_regular
    Modes.owned_cleanup_regular Modes.empty_owned_directory_binding Modes.cleanup_mode_directory
    Modes.valid_basename Identity.Identity-discrete Identity.from_stat Identity.same_node
    Identity.matches Identity.valid_state_root Identity.valid_state_container Identity.safe_new_root
    Identity.valid_record Identity.valid_private_record Receipts.ManifestReceipt-discrete
    Receipts.SealedTreeReceipt-discrete Receipts.CowReceipt-discrete List-discrete Option-discrete
    Bytes-discrete OptionBytes-discrete OptionNat-discrete contains strip_prefix starts_with
    strip_suffix ends_with includes cut_first cut_last split decimal parse_unsigned is_utf8
    ℕ_discrete
temporary_accepted = refl

template_precedes-adjacent_example :
    (some_hash ≡ some_hash)
    × ((template_stage prepared_template.payload
          ≡ template_stage materializing_template.payload + 1)
        ⊎ (template_stage materializing_template.payload
            ≡ template_stage prepared_template.payload + 1))
template_precedes-adjacent_example =
    Transition.template_precedes-adjacent materializing_template prepared_template
      temporary_accepted

abbrev to_json : TemplateRecord → Result Bytes
to_json r = ok (b'{' ∷ [])

abbrev from_json : Bytes → Option TemplateRecord
from_json bytes = some prepared_template

template_record_iff_example :
    (parse_record 501 to_json from_json (b'{' ∷ []) ≡ ok prepared_template) ↔ (
      (from_json (b'{' ∷ []) ≡ some prepared_template)
      × ((to_json prepared_template ≡ ok (b'{' ∷ []))
          × (validate_record 501 prepared_template ≡ ok tt)))
template_record_iff_example =
    Transition.template_record_iff 501 to_json from_json (b'{' ∷ []) prepared_template
