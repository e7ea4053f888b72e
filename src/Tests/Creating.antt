-- ===== src/Tests/Creating.antt =====
-- A `create` on a host that has no session yet, and its properties there.
use git_vws.Authority.Hex
use git_vws.Storage.Modes
use git_vws.Storage.Receipts
use git_vws.Session.Host
use git_vws.Session.Store
use git_vws.Session.Commands
use git_vws.Session.Git
use git_vws.Session.Validate
use git_vws.Session.Names
use git_vws.Effect
use git_vws.Session.Files
use git_vws.Session.Files.{Files}
use git_vws.Session.Create.Outputs
use git_vws.Session.Create.Commands as CreateCommands
use git_vws.Session.Create.Transaction
use git_vws.Session.Create.Materialize
use git_vws.Session.Create.Materialize.{Services, Template, CreateRequest}
use git_vws.Session.Create.Stages
use git_vws.Session.Create.Changes.{Created, Existing, changes}
use git_vws.Effect.{World}
use git_vws.Authority.Identity.{Identity}
use git_vws.Session.Types.{SessionRecord, SessionPayload}
use git_vws.Session.Host.{Invocation, Output, Event, Host}
use git_vws.Tests.Fixture.{
  some_host, some_record, some_hash, some_commit, some_template, some_authority, private_node,
  file_node, world_of, bound,
}
use git_vws.Base.{
  ℕ, zero, suc, ◌≡◌, refl, Bool, true, Option, none, some, List, [], ◌∷◌, ◌++◌, if◌then◌else◌, ◌==◌,
  nat_Eq, string_Eq, bytes_Eq, option_bytes_Eq, option_nat_Eq, length, any, Bytes, codes, contains,
  starts_with, ends_with, is_utf8, Result, ok, is_ok,
}

abbrev named : Bytes → List Bytes → Bool
named word args = any (λ a. a == word) args

abbrev said : Bytes → ℕ → Output
said text code = record { stdout = text; stderr = []; status = some code }

abbrev answer_plain : List Bytes → Output
answer_plain args =
    if named (codes "--get") args then said (codes "true" ++ (10 ∷ [])) 0 else said [] 0

-- The target branch is absent; a revision names the commit.
abbrev answer_inside : List Bytes → Output
answer_inside args =
    if named (codes "--quiet") args
    then said [] 1
    else if named (codes "rev-parse") args
    then said (some_commit ++ (10 ∷ [])) 0
    else said [] 0

abbrev new_answer : Invocation → Output
new_answer inv = elim inv.cwd [
  | none ↦ answer_plain inv.args
  | some directory ↦ answer_inside inv.args
]

abbrev stage_tag : SessionRecord → Result Bytes
stage_tag r = elim r.payload [
  | SessionPayload.prepared root ↦ ok (0 ∷ [])
  | SessionPayload.materializing root i ↦ ok (1 ∷ [])
  | SessionPayload.ready p ↦ ok (2 ∷ [])
  | SessionPayload.tombstoned root tombstone i ↦ ok (3 ∷ [])
]

abbrev some_root : Bytes
some_root = codes "session-" ++ (some_hash ++ codes ".root")

abbrev stage_of : ℕ → Option SessionRecord
stage_of zero = some (record some_record { payload = SessionPayload.prepared some_root })
stage_of (suc zero) =
    some (record some_record { payload = SessionPayload.materializing some_root private_node })
stage_of (suc (suc n)) = some some_record

abbrev from_stage_tag : Bytes → Option SessionRecord
from_stage_tag [] = none
from_stage_tag (c ∷ s) = stage_of c

abbrev creating_host : Host Bytes
creating_host = record some_host {
  capture = λ inv w. (ok (new_answer inv), w);
  entry_identity = λ name w. (ok none, w);
  to_json = stage_tag;
  from_json = from_stage_tag;
}

abbrev node_of : ℕ → Identity
node_of descriptor = if descriptor == 9 then file_node else private_node

abbrev entry_of : Bytes → Identity
entry_of name = if name == codes ".git-vws-empty-template" then private_node else file_node

abbrev some_files : Files Bytes
some_files = record {
  container = 2;
  open_directory_at = λ parent name w. (ok 3, w);
  open_regular = λ parent name w. (ok 9, w);
  identity_at = λ parent name w. (ok (entry_of name), w);
  identity_of = λ descriptor w. (ok (node_of descriptor), w);
  identity_of_path = λ path w. (ok private_node, w);
  directory_names = λ descriptor w. (ok [], w);
  volume_id = λ descriptor w. (ok (codes "v"), w);
  read_at_most = λ descriptor n w. (ok (codes "x"), w);
  make_directory = λ parent name mode w. (ok tt, w);
  change_mode = λ descriptor mode w. (ok tt, w);
  unlink_directory = λ parent name w. (ok tt, w);
  sync_all = λ descriptor w. (ok tt, w);
  write_new_file = λ parent name bytes w. (ok tt, w);
}

abbrev some_services : Services Bytes
some_services = record {
  inspect = λ repository w. (ok some_authority, w);
  registered = λ a w. (ok tt, w);
  acquire = λ a tree w. (ok (record { key = some_hash; sealed = some_template; root = 7 }), w);
  open_sessions = λ w. (ok tt, w);
  sessions_path = λ w. (ok (codes "/s"), w);
  create_bound = λ basename bytes w. (ok (bound bytes), bytes);
  cow_clone = λ template root parent i w.
      (ok (record { source = some_template; destination = private_node }), w);
  sync_tree = λ descriptor w. (ok tt, w);
}

abbrev request : CreateRequest
request = record { name = codes "n"; from = none; target = some (codes "m"); path = none }

abbrev creating : Result Bytes × World Bytes Event
creating =
    Materialize.create creating_host some_files some_services (codes "/a") request (world_of 0)

create-Created_example :
    Created (Existing creating_host some_files some_services request) [] creating
unfolding changes
create-Created_example =
    Stages.create-Created creating_host some_files some_services (codes "/a") request (world_of 0)

creating_changes : (is_ok creating.0 ≡ true) × (length (changes creating.1.log) ≡ 3)
unfolding Store.cstring Store.capability_from_binding Store.read_record_capability
    Store.optional_record Store.revalidate_record Store.replace_record_capability Commands.command
    Git.single_line Validate.authority_path_from_record Validate.session_id Validate.owned_directory
    Validate.valid_publish_journal Validate.valid_fields Validate.valid_payload
    Validate.validate_record Validate.encode_record Validate.parse_record Names.valid_session_name
    Names.root_name Names.record_name Names.valid_hash Names.valid_oid Hex.hex Hex.hex_digit
    Hex.decode_path Hex.decode_hex Effect.◌>>◌ Effect.lift Effect.pure Effect.map_error Effect.note
    Effect.note_ok Effect.silent Modes.private_directory Receipts.CowReceipt-discrete
    Host.RecordBinding-discrete contains starts_with ends_with is_utf8 Files.create_directory
    Files.remove_empty_directory Files.bind_path Files.read_regular_at Files.write_alternate
    Outputs.require_clean Outputs.clean_git_output Outputs.resolved_target
    CreateCommands.resolve_target CreateCommands.resolve_commit CreateCommands.resolve_tree
    CreateCommands.validate_branch CreateCommands.clean CreateCommands.init_args
    CreateCommands.init_private_common CreateCommands.configure_key
    CreateCommands.configure_private_common CreateCommands.add_linked_worktree
    CreateCommands.read_tree CreateCommands.status_clean CreateCommands.git_metadata
    Transaction.within Materialize.chosen_target Materialize.materializing_record
    Materialize.create_record_capability Materialize.enter Materialize.build_common
    Materialize.build_worktree Materialize.settle_trees Materialize.leave
    Materialize.materialize_session Materialize.create_new Materialize.create_or_answer
    Materialize.choose_base Materialize.prepared_record Materialize.check_path Materialize.create
    Effect.on_error changes
creating_changes = (refl, refl)
