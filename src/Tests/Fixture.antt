-- ===== src/Tests/Fixture.antt =====
-- A host that holds one READY session in its record file and answers every Git command as a new
-- branch needs it.
use git_vws.Authority.Identity.{Identity, Authority, directory_type, regular_type}
use git_vws.Effect.{World}
use git_vws.Storage.Receipts.{SealedTreeReceipt}
use git_vws.Session.Journal.{Frozen, idle, prepared, objects_imported, cas_attempted, cas_committed}
use git_vws.Session.Types.{SessionRecord, SessionPayload, ready, tombstoned, GitMetadataReceipt}
use git_vws.Session.Host.{
  Invocation, Output, RecordBinding, RecordCapability, SessionContext, ReadySession, Event, Host,
}
use git_vws.Base.{
  ℕ, zero, suc, Option, none, some, [], ◌∷◌, ◌++◌, nat_Eq, string_Eq, bytes_Eq, option_bytes_Eq,
  option_nat_Eq, replicate, Bytes, codes, Result, ok, ends_with, if◌then◌else◌,
}

abbrev pub some_hash : Bytes
some_hash = replicate 64 b'a'

abbrev pub some_commit : Bytes
some_commit = replicate 40 b'c'

abbrev pub some_digest : Bytes → Bytes
some_digest bytes = some_hash

abbrev pub private_node : Identity
private_node = record {
  dev = 1;
  ino = 2;
  uid = 501;
  mode = 0o700;
  kind = directory_type;
  nlink = 2;
}

abbrev pub file_node : Identity
file_node = record { dev = 1; ino = 9; uid = 501; mode = 0o600; kind = regular_type; nlink = 1 }

abbrev pub some_authority : Authority
some_authority = record {
  canonical = codes "/a";
  identity = private_node;
  object_format = codes "sha1";
  ref_format = codes "files";
}

abbrev pub some_template : SealedTreeReceipt
some_template = record {
  root = private_node;
  volume = codes "v";
  manifest = record { digest = some_hash; entries = 1 };
  content_digest = some_hash;
}

abbrev pub some_git : GitMetadataReceipt
some_git = record {
  dot_git = some_hash;
  head = some_hash;
  target_ref = some_hash;
  index = some_hash;
  worktrees = some_hash;
  alternates = some_hash;
}

abbrev pub some_payload : SessionPayload
some_payload = ready (record {
  root_name = codes "session-" ++ (some_hash ++ codes ".root");
  root_identity = private_node;
  common_identity = private_node;
  worktree = record { source = some_template; destination = private_node };
  git = some_git;
})

abbrev pub some_record : SessionRecord
some_record = record {
  version = 2;
  sid = some_hash;
  authority_path = codes "2f61";
  authority_identity = private_node;
  name = codes "6e";
  base = some_commit;
  target = codes "6d";
  expected_old = none;
  template_key = some_hash;
  template = some_template;
  container_identity = private_node;
  volume = codes "v";
  payload = some_payload;
  journal = idle;
}

abbrev pub some_frozen : Frozen
some_frozen = record {
  txid = some_hash;
  new = some_commit;
  expected_old = none;
  config_fingerprint = some_hash;
}

-- One byte for each state of the record that a publication or a removal goes through.
abbrev tag_of_journal : SessionRecord → Result Bytes
tag_of_journal r = elim r.journal [
  | idle ↦ elim r.expected_old [ none ↦ ok (0 ∷ []) | some old ↦ ok (5 ∷ []) ]
  | prepared f ↦ ok (1 ∷ [])
  | objects_imported f ↦ ok (2 ∷ [])
  | cas_attempted f ↦ ok (3 ∷ [])
  | cas_committed f ↦ ok (4 ∷ [])
]

abbrev pub tag_of : SessionRecord → Result Bytes
tag_of r = elim r.payload [ tombstoned root tombstone i ↦ ok (6 ∷ []) | _ ↦ tag_of_journal r ]

abbrev pub tombstoned_record : SessionRecord
tombstoned_record = record some_record {
  payload =
      tombstoned (codes "session-" ++ (some_hash ++ codes ".root"))
        (codes "session-" ++ (some_hash ++ codes ".tombstone")) private_node;
}

abbrev pub record_of : ℕ → Option SessionRecord
record_of zero = some some_record
record_of (suc zero) = some (record some_record { journal = prepared some_frozen })
record_of (suc (suc zero)) = some (record some_record { journal = objects_imported some_frozen })
record_of (suc (suc (suc zero))) = some (record some_record { journal = cas_attempted some_frozen })
record_of (suc (suc (suc (suc zero)))) =
    some (record some_record { journal = cas_committed some_frozen })
record_of (suc (suc (suc (suc (suc zero))))) =
    some (record some_record { expected_old = some some_commit })
record_of (suc (suc (suc (suc (suc (suc zero)))))) = some tombstoned_record
record_of (suc (suc (suc (suc (suc (suc (suc n))))))) = none

abbrev pub from_tag : Bytes → Option SessionRecord
from_tag [] = none
from_tag (c ∷ []) = record_of c
from_tag (c ∷ (d ∷ s)) = none

abbrev pub some_context : SessionContext
some_context = record { authority = some_authority; sessions_path = codes "/s" }

abbrev pub some_loaded : ReadySession
some_loaded = record {
  root = 3;
  root_name = codes "r";
  root_identity = private_node;
  common = 4;
  common_identity = private_node;
  root_path = codes "/s/r";
  worktree_path = codes "/s/r/w";
}

abbrev pub answer : Invocation → Output
answer inv = record {
  stdout = elim inv.cwd [
    | none ↦ []
    | some directory ↦ codes "refs/heads/m " ++ (some_commit ++ codes " commit \n")
  ];
  stderr = [];
  status = some 0;
}

-- The host's state is the record file's content.
abbrev pub bound : Bytes → RecordBinding
bound bytes = record { bytes = bytes; identity = file_node }

-- The root is under its tombstone's name.
abbrev entry_of : Bytes → Option Identity
entry_of name =
    if ends_with (codes ".root") name
    then none
    else if ends_with (codes ".tombstone") name
    then some private_node
    else some file_node

abbrev pub some_host : Host Bytes
some_host = record {
  capture = λ inv w. (ok (answer inv), w);
  optional_context = λ repository w. (ok (some_authority, some (codes "/s")), w);
  entry_identity = λ name w. (ok (entry_of name), w);
  read_file_binding = λ name w. (ok (bound w), w);
  open_ready = λ context r w. (ok some_loaded, w);
  acquire_lease = λ root exclusive w. (ok tt, w);
  container_identity = λ w. (ok private_node, w);
  container_volume = λ w. (ok (codes "v"), w);
  handle_identity = λ handle w. (ok private_node, w);
  handle_volume = λ handle w. (ok (codes "v"), w);
  open_directory = λ name w. (ok 3, w);
  identity_at = λ name w. (ok private_node, w);
  rename_no_replace = λ old new w. (ok tt, w);
  sync_container = λ w. (ok tt, w);
  remove_owned_tree = λ name i collecting w. (ok tt, w);
  ensure_discard_safe = λ loaded r w. (ok tt, w);
  replace_bound = λ name bytes binding w. (ok (bound bytes), bytes);
  remove_bound = λ name binding w. (ok tt, w);
  execute = λ program args loaded w. (ok (some 0), w);
  to_json = tag_of;
  from_json = from_tag;
  remove_event = λ authority name. ok name;
  me = 501;
  digest = some_digest;
}

abbrev pub capability_of : SessionRecord → Bytes → RecordCapability
capability_of r bytes = record {
  basename = codes "session-" ++ (some_hash ++ codes ".record");
  session_record = r;
  binding = bound bytes;
}

-- The world at first: the record file with its tag, and nothing logged.
abbrev pub world_of : ℕ → World Bytes Event
world_of tag = record { outside = tag ∷ []; log = [] }
