-- ===== src/Session/Host.antt =====
-- What the session operations ask of their surroundings: the Git program, the record files and the
-- managed directories. The calls are parameters; `Event` is what the log keeps of them.
use git_vws.Authority.Identity.{Identity, Authority, identity_Eq, Identity-discrete}
use git_vws.Session.Types.{SessionRecord}
use git_vws.Base.{
  ℕ, Bool, false, Option, none, some, List, Eq, ◌==◌, nat_Eq, string_Eq, discrete_Eq,
  Bytes-discrete, bytes_Eq, option_bytes_Eq, Bytes, Result,
}

-- src/git.rs: `AuditConfig`
pub data AuditConfig : Type 0 where
  isolated authority_config : AuditConfig

-- A Git command line with its working directory, if it is set.
pub record Invocation : Type 0 where
  pub args : List Bytes
  pub cwd : Option Bytes
  pub audit : AuditConfig

-- src/git.rs: `Output`; the status is the exit code, or `none` after a signal.
pub record Output : Type 0 where
  pub stdout : Bytes
  pub stderr : Bytes
  pub status : Option ℕ

-- `status.success()`
abbrev pub success : Output → Bool
success o = elim o.status [ none ↦ false | some code ↦ code == 0 ]

-- src/authority.rs: `RecordBinding`
pub record RecordBinding : Type 0 where
  pub bytes : Bytes
  pub identity : Identity

unfoldable pub RecordBinding-discrete : Discrete RecordBinding
unfolding Bytes-discrete Identity-discrete
RecordBinding-discrete = hlevel (Bytes-discrete, Identity-discrete)

instance abbrev pub binding_Eq : Eq RecordBinding
binding_Eq = discrete_Eq RecordBinding-discrete

-- src/session.rs: `RecordCapability`, a record with the file that it was read from.
pub record RecordCapability : Type 0 where
  pub basename : Bytes
  pub session_record : SessionRecord
  pub binding : RecordBinding

-- src/session.rs: `SessionContext`. The container's descriptor belongs to the host.
pub record SessionContext : Type 0 where
  pub authority : Authority
  pub sessions_path : Bytes

-- src/session.rs: `ReadySession`. An open descriptor is a number that the host gave out.
pub record ReadySession : Type 0 where
  pub root : ℕ
  pub root_name : Bytes
  pub root_identity : Identity
  pub common : ℕ
  pub common_identity : Identity
  pub root_path : Bytes
  pub worktree_path : Bytes

pub data Event : Type 0 where
  -- Git was started.
  ran : Invocation → Event
  -- A record file was replaced by one that holds this record.
  wrote : SessionRecord → Event
  -- A record file was removed.
  removed : Bytes → Event
  -- A program was started in a session.
  executed : Bytes → List Bytes → Event
  -- The loose objects of the session with this record were to be removed.
  loose_collected : Bytes → Event
  -- The tree under this name was removed.
  destroyed : Bytes → Event

pub record Host (W : Type 0) : Type 0 where
  -- `git::capture`
  pub capture : Invocation → W → Result Output × W
  -- `optional_session_context`: the authority and, if it is there, the path of the session container
  pub optional_context : Bytes → W → Result (Authority × Option Bytes) × W
  -- `entry_identity_if_present`, in the session container
  pub entry_identity : Bytes → W → Result (Option Identity) × W
  -- `authority::read_file_binding` with the limit of a session record
  pub read_file_binding : Bytes → W → Result RecordBinding × W
  -- what `load_ready_session` does once the record's own bindings are checked
  pub open_ready : SessionContext → SessionRecord → W → Result ReadySession × W
  -- `acquire_lease` on an open root
  pub acquire_lease : ℕ → Bool → W → Result (Unit {0}) × W
  -- `Identity::from_file` and `storage::volume_id` of the container and of an open directory
  pub container_identity : W → Result Identity × W
  pub container_volume : W → Result Bytes × W
  pub handle_identity : ℕ → W → Result Identity × W
  pub handle_volume : ℕ → W → Result Bytes × W
  -- `storage::open_directory_at` and `storage::identity_at`, in the session container
  pub open_directory : Bytes → W → Result ℕ × W
  pub identity_at : Bytes → W → Result Identity × W
  -- `authority::rename_no_replace` and `sync_all` of the container
  pub rename_no_replace : Bytes → Bytes → W → Result (Unit {0}) × W
  pub sync_container : W → Result (Unit {0}) × W
  -- `storage::remove_owned_tree`, or with `true` `storage::remove_owned_tree_gc`
  pub remove_owned_tree : Bytes → Identity → Bool → W → Result (Unit {0}) × W
  -- `ensure_discard_safe`
  pub ensure_discard_safe : ReadySession → SessionRecord → W → Result (Unit {0}) × W
  -- `RecordTxn::begin_bound` with `commit`
  pub replace_bound : Bytes → Bytes → RecordBinding → W → Result RecordBinding × W
  -- `remove_record_bound`
  pub remove_bound : Bytes → RecordBinding → W → Result (Unit {0}) × W
  -- `GitChild::spawn_direct` with `wait_direct`: the exit status of a program
  pub execute : Bytes → List Bytes → ReadySession → W → Result (Option ℕ) × W
  -- `serde_json`
  pub to_json : SessionRecord → Result Bytes
  pub from_json : Bytes → Option SessionRecord
  -- `remove_event`: the line of JSON that `remove` prints
  pub remove_event : Authority → Bytes → Result Bytes
  -- `geteuid` and SHA-256 in hexadecimal
  pub me : ℕ
  pub digest : Bytes → Bytes
