-- ===== src/Tests/Sessions.antt =====
-- The properties of session records on the fixture's record.
use git_vws.Framing
use git_vws.Authority.Hex
use git_vws.Storage.Modes
use git_vws.Authority.Identity
use git_vws.Storage.Receipts
use git_vws.Session.Host
use git_vws.Session.Journal
use git_vws.Session.Types
use git_vws.Framing.{frame}
use git_vws.Authority.Identity.{Identity, Authority}
use git_vws.Authority.Hex.{hex, is_absolute}
use git_vws.Session.Journal.{PublishJournal, cas_attempted, is_idle}
use git_vws.Session.Types.{SessionRecord}
use git_vws.Session.Names
use git_vws.Session.Names.{valid_session_name}
use git_vws.Session.Validate
use git_vws.Session.Validate.{
  validate_record, parse_record, session_id, is_ready, max_record, id_fields,
}
use git_vws.Session.Publish.{txid_fields}
use git_vws.Session.Preimages
use git_vws.Session.Preimages.{IsNode, IsWideNode, Subject}
use git_vws.Session.Records
use git_vws.Tests.Fixture.{
  some_record, some_frozen, some_digest, some_authority, some_commit, some_hash, private_node,
  tag_of, from_tag,
}
use git_vws.Base.{
  ◌≤◌, ◌≡◌, refl, ◌↔◌, true, some, [], ◌∷◌, arith, ℕ_discrete, nat_Eq, string_Eq, List-discrete,
  Option-discrete, Bytes-discrete, OptionBytes-discrete, bytes_Eq, option_bytes_Eq, option_nat_Eq,
  OptionNat-discrete, All, Bytes, codes, contains, strip_prefix, starts_with, strip_suffix,
  ends_with, includes, cut_first, cut_last, split, decimal, parse_unsigned, is_utf8, ok,
}

abbrev attempted_record : SessionRecord
attempted_record = record some_record { journal = cas_attempted some_frozen }

attempted_record_valid : validate_record 501 some_digest attempted_record ≡ ok tt
unfolding Validate.authority_path_from_record Validate.id_fields Validate.session_id
    Validate.owned_directory Validate.is_ready Validate.valid_frozen Validate.valid_publish_journal
    Validate.valid_fields Validate.valid_payload Validate.validate_record Validate.encode_record
    Validate.parse_record Names.valid_session_name Names.selected_name Names.root_name
    Names.tombstone_name Names.record_name Names.session_record_name Names.valid_hash
    Names.valid_lower_hash Names.valid_oid Names.valid_lower_oid Names.oid_matches_format
    Names.pack_oid Names.pack_entry_name Names.pack_entry_pair Names.loose_fanout_name Hex.hex
    Hex.hex_digit Hex.decode_pairs Hex.is_absolute Hex.decode_path Hex.path_hash Hex.valid_lower_hex
    Hex.decode_hex Framing.be_bytes Framing.lp Framing.frame Modes.session_mode
    Modes.stable_directory_node Modes.private_directory Modes.sealed_directory
    Modes.publishing_directory Modes.publishing_binding Modes.sealed_regular
    Modes.worktree_directory Modes.clone_destination_directory Modes.owned_tree_binding
    Modes.owned_regular Modes.owned_cleanup_regular Modes.empty_owned_directory_binding
    Modes.cleanup_mode_directory Modes.valid_basename Identity.Identity-discrete Identity.from_stat
    Identity.same_node Identity.matches Identity.valid_state_root Identity.valid_state_container
    Identity.safe_new_root Identity.valid_record Identity.valid_private_record
    Receipts.ManifestReceipt-discrete Receipts.SealedTreeReceipt-discrete
    Receipts.CowReceipt-discrete Host.RecordBinding-discrete Journal.Frozen-discrete
    Journal.PublishJournal-discrete Types.GitMetadataReceipt-discrete Types.ReadyPayload-discrete
    Types.SessionPayload-discrete Types.SessionRecord-discrete List-discrete Option-discrete
    Bytes-discrete OptionBytes-discrete OptionNat-discrete contains strip_prefix starts_with
    strip_suffix ends_with includes cut_first cut_last split decimal parse_unsigned is_utf8
    ℕ_discrete
attempted_record_valid = refl

parse_record_iff_example :
    (parse_record 501 some_digest tag_of from_tag (3 ∷ []) ≡ ok attempted_record) ↔ (
      (from_tag (3 ∷ []) ≡ some attempted_record)
      × ((validate_record 501 some_digest attempted_record ≡ ok tt)
          × (tag_of attempted_record ≡ ok (3 ∷ []))
          × (1 ≤ max_record)))
parse_record_iff_example =
    Records.parse_record_iff 501 some_digest tag_of from_tag (3 ∷ []) attempted_record

active-IsReady_example : is_ready attempted_record.payload ≡ true
active-IsReady_example =
    Records.active-IsReady 501 some_digest tag_of from_tag attempted_record attempted_record_valid
      refl

valid-sid_example :
    (path : Bytes) × (name : Bytes) × (hex path ≡ codes "2f61")
    × (hex name ≡ codes "6e")
    × (is_absolute path ≡ true)
    × (valid_session_name name ≡ true)
    × (some_hash ≡ session_id some_digest path private_node name)
valid-sid_example =
    Records.valid-sid 501 some_digest tag_of from_tag attempted_record attempted_record_valid

private_node-IsNode : IsNode private_node
private_node-IsNode = record { dev = omega arith; ino = omega arith; uid = omega arith }

private_node-IsWideNode : IsWideNode private_node
private_node-IsWideNode = record {
  dev = omega arith;
  ino = omega arith;
  uid = omega arith;
  mode = omega arith;
  kind = omega arith;
  nlink = omega arith;
}

id_fields-injective_example :
    (codes "/a" ≡ codes "/a")
    × (private_node.dev ≡ private_node.dev)
    × (private_node.ino ≡ private_node.ino)
    × (private_node.uid ≡ private_node.uid)
    × (codes "n" ≡ codes "n")
id_fields-injective_example =
    Preimages.id_fields-injective (codes "/a") (codes "/a") private_node private_node (codes "n")
      (codes "n") (omega arith) (omega arith) (omega arith) (omega arith) private_node-IsNode
      private_node-IsNode refl

abbrev some_subject : Subject
some_subject = record {
  session_record = some_record;
  target = codes "m";
  expected_old = some some_commit;
  new = some_commit;
  config = some_hash;
}

some_subject-IsShort :
    All Framing.IsShort
      (txid_fields some_authority some_record (codes "m") (some some_commit) some_commit some_hash)
unfolding Validate.authority_path_from_record Validate.id_fields Validate.session_id
    Validate.owned_directory Validate.is_ready Validate.valid_frozen Validate.valid_publish_journal
    Validate.valid_fields Validate.valid_payload Validate.validate_record Validate.encode_record
    Validate.parse_record Names.valid_session_name Names.selected_name Names.root_name
    Names.tombstone_name Names.record_name Names.session_record_name Names.valid_hash
    Names.valid_lower_hash Names.valid_oid Names.valid_lower_oid Names.oid_matches_format
    Names.pack_oid Names.pack_entry_name Names.pack_entry_pair Names.loose_fanout_name Hex.hex
    Hex.hex_digit Hex.decode_pairs Hex.is_absolute Hex.decode_path Hex.path_hash Hex.valid_lower_hex
    Hex.decode_hex Framing.be_bytes Framing.lp Framing.frame Modes.session_mode
    Modes.stable_directory_node Modes.private_directory Modes.sealed_directory
    Modes.publishing_directory Modes.publishing_binding Modes.sealed_regular
    Modes.worktree_directory Modes.clone_destination_directory Modes.owned_tree_binding
    Modes.owned_regular Modes.owned_cleanup_regular Modes.empty_owned_directory_binding
    Modes.cleanup_mode_directory Modes.valid_basename Identity.Identity-discrete Identity.from_stat
    Identity.same_node Identity.matches Identity.valid_state_root Identity.valid_state_container
    Identity.safe_new_root Identity.valid_record Identity.valid_private_record
    Receipts.ManifestReceipt-discrete Receipts.SealedTreeReceipt-discrete
    Receipts.CowReceipt-discrete Host.RecordBinding-discrete Journal.Frozen-discrete
    Journal.PublishJournal-discrete Types.GitMetadataReceipt-discrete Types.ReadyPayload-discrete
    Types.SessionPayload-discrete Types.SessionRecord-discrete List-discrete Option-discrete
    Bytes-discrete OptionBytes-discrete OptionNat-discrete contains strip_prefix starts_with
    strip_suffix ends_with includes cut_first cut_last split decimal parse_unsigned is_utf8
    ℕ_discrete txid_fields
some_subject-IsShort = omega arith

txid_fields-injective_example :
    ((codes "/a" ≡ codes "/a") × (private_node ≡ private_node))
    × ((some_hash ≡ some_hash) × (some_hash ≡ some_hash))
    × ((codes "m" ≡ codes "m")
        × (some some_commit ≡ some some_commit)
        × (some_commit ≡ some_commit)
        × (some_hash ≡ some_hash))
txid_fields-injective_example =
    Preimages.txid_fields-injective some_authority some_authority some_subject some_subject
      some_subject-IsShort some_subject-IsShort private_node-IsWideNode private_node-IsWideNode
      (λ e. absurd (cc)) (λ e. absurd (cc)) refl
