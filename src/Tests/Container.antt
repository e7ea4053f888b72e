-- ===== src/Tests/Container.antt =====
-- A host whose session container holds the record and the tombstone of a session.
use git_vws.Effect.{World}
use git_vws.Session.Host.{Event}
use git_vws.Template.Store.{Store}
use git_vws.Maintenance.Sessions.{Sweep}
use git_vws.Maintenance.Output.{Console}
use git_vws.Maintenance.Run.{State}
use git_vws.Tests.Fixture.{some_hash, private_node, bound}
use git_vws.Base.{
  ℕ, true, false, none, [], ◌∷◌, ◌++◌, nat_Eq, string_Eq, bytes_Eq, option_bytes_Eq, option_nat_Eq,
  Bytes, codes, decimal, ok,
}

abbrev pub record_name : Bytes
record_name = codes "session-" ++ (some_hash ++ codes ".record")

abbrev pub tombstone_name : Bytes
tombstone_name = codes "session-" ++ (some_hash ++ codes ".tombstone")

abbrev pub some_sweep : Sweep Bytes ℕ
some_sweep = record {
  directory_names = λ w. (ok (record_name ∷ tombstone_name ∷ []), w);
  is_ignorable = λ name w. (ok false, w);
  bind_container = λ w. (ok tt, w);
  record_txn_temporary = λ name w. (ok none, w);
  remove_temporary = λ name binding w. (ok tt, w);
  validate_session_template = λ key sealed w. (ok tt, w);
  classify_private_objects = λ loaded a r w. (ok 0, w);
  gc_private_loose = λ c plan w. ((ok tt, []), w);
  sessions_path = codes "/s";
}

-- A container without templates.
abbrev pub no_templates : Store Bytes
no_templates = record {
  directory_names = λ w. (ok [], w);
  is_ignorable = λ name w. (ok false, w);
  entry_identity = λ name w. (ok none, w);
  open_directory = λ name w. (ok 3, w);
  identity_of = λ descriptor w. (ok private_node, w);
  volume_id = λ descriptor w. (ok (codes "v"), w);
  verify_sealed_tree = λ root receipt w. (ok tt, w);
  acquire_exclusive = λ root w. (ok tt, w);
  change_mode = λ descriptor mode w. (ok tt, w);
  sync_all = λ descriptor w. (ok tt, w);
  rename_no_replace = λ old new w. (ok tt, w);
  sync_container = λ w. (ok tt, w);
  remove_owned_tree_gc = λ name i w. (ok tt, w);
  read_file_binding = λ name w. (ok (bound w), w);
  replace_bound = λ name bytes binding w. (ok (bound bytes), w);
  remove_bound = λ name binding w. (ok tt, w);
  record_txn_temporary = λ name w. (ok none, w);
  remove_temporary = λ name binding w. (ok tt, w);
  to_json = λ r. ok [];
  from_json = λ bytes. none;
  me = 501;
  macos = true;
}

abbrev pub some_state : State Bytes
some_state = record {
  open_existing_state = λ w. (ok tt, w);
  directory_names = λ w. (ok (codes "sessions" ∷ codes "templates" ∷ codes "a.record" ∷ []), w);
  is_ignorable = λ name w. (ok false, w);
  validate_authority_record = λ name w. (ok tt, w);
  open_container_if_present = λ name w. (ok true, w);
  container_path = λ w. (ok (codes "/s"), w);
}

abbrev pub some_console : Console Bytes
some_console = record {
  line_json = λ line. ok line.state;
  summary_json = λ summary. ok (decimal summary.items);
  write_all = λ bytes w. (ok tt, w);
  flush = λ w. (ok tt, w);
}

abbrev pub first_world : World Bytes Event
first_world = record { outside = 6 ∷ []; log = [] }
