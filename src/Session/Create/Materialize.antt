-- ===== src/Session/Create/Materialize.antt =====
-- src/session.rs: `create` and `materialize_session`. What they use of the other components is an
-- interface; the paths of a session are texts below the path of its root.
use git_vws.Authority.Identity.{Identity, Authority, identity_Eq}
use git_vws.Authority.Hex.{hex}
use git_vws.Authority.Paths.{same_path}
use git_vws.Storage.Receipts.{SealedTreeReceipt, sealed_Eq, CowReceipt}
use git_vws.Storage.Modes.{private_directory}
use git_vws.Effect.{M, ◌>>=◌, ◌>>◌, lift, note_ok, silent, pure}
use git_vws.Session.Journal.{idle}
use git_vws.Session.Types.{SessionRecord, SessionPayload, session_record_Eq}
use git_vws.Session.Names.{record_name, root_name}
use git_vws.Session.Validate.{encode_record, session_id, owned_directory}
use git_vws.Session.Host.{RecordBinding, RecordCapability, SessionContext, Event, wrote, Host}
use git_vws.Session.Store.{
  optional_record, revalidate_record, load_ready_capability, replace_record_capability,
  capability_from_binding,
}
use git_vws.Session.Lifecycle.{ensure_publish_idle, matches_existing}
use git_vws.Session.Files.{
  Files, create_directory, remove_empty_directory, bind_path, write_alternate,
}
use git_vws.Session.Create.Commands.{
  resolve_target, resolve_commit, resolve_tree, validate_branch, init_private_common,
  configure_private_common, add_linked_worktree, read_tree, status_clean, git_metadata,
}
use git_vws.Session.Create.Transaction.{CreateTxn, within}
use git_vws.Base.{
  ℕ, String, ◌&&◌, Option, none, some, ◌∷◌, ◌++◌, if◌then◌else◌, ◌==◌, nat_Eq, string_Eq, bytes_Eq,
  option_bytes_Eq, option_nat_Eq, Bytes, codes, Error, Result, ok, error, fail, guard,
}

pub record CreateRequest : Type 0 where
  pub name : Bytes
  pub from : Option Bytes
  pub target : Option Bytes
  pub path : Option Bytes

-- src/template.rs: `Template`
pub record Template : Type 0 where
  pub key : Bytes
  pub sealed : SealedTreeReceipt
  pub root : ℕ

-- What `create` asks of the components for authorities, templates, storage and records.
pub record Services (W : Type 0) : Type 0 where
  -- `authority::inspect` and `registered`
  pub inspect : Bytes → W → Result Authority × W
  pub registered : Authority → W → Result (Unit {0}) × W
  -- `template::acquire` of a tree
  pub acquire : Authority → Bytes → W → Result Template × W
  -- `ensure_containers` with `open_container`, and `container_path`
  pub open_sessions : W → Result (Unit {0}) × W
  pub sessions_path : W → Result Bytes × W
  -- `RecordTxn::begin` of a record that is new, with `commit`
  pub create_bound : Bytes → Bytes → W → Result RecordBinding × W
  -- `storage::cow_clone` of a template's root into `worktree` of a root
  pub cow_clone : Template → ℕ → Identity → Identity → W → Result CowReceipt × W
  -- `sync_tree`
  pub sync_tree : ℕ → W → Result (Unit {0}) × W

abbrev failed : String → Error
failed detail = error "SESSION_IO_FAILED" detail

-- `request.target.unwrap_or_else(|| request.name.clone())`
unfoldable pub chosen_target : Option Bytes → Bytes → Bytes
chosen_target none name = name
chosen_target (some target) name = target

unfoldable pub materializing_record : SessionRecord → Bytes → Identity → SessionRecord
materializing_record r root i = record r { payload = SessionPayload.materializing root i }

module _ {W : Type 0} (h : Host W) (f : Files W) (s : Services W) where
  -- `create_record_capability`
  unfoldable pub create_record_capability :
      Bytes → SessionRecord → Bytes → M W Event RecordCapability
  create_record_capability basename r bytes = do
    binding ← note_ok (wrote r) (s.create_bound basename bytes)
    capability_from_binding h basename binding

  -- The first step of `materialize_session`: the record becomes MATERIALIZING.
  unfoldable pub enter : CreateTxn → M W Event RecordCapability
  enter t = do
    let r = materializing_record t.capability.session_record t.root_name t.root_identity
    bytes ← lift (encode_record h.me h.digest h.to_json r)
    replace_record_capability h t.capability r bytes

  -- The private repository below the root; its descriptor is the result.
  unfoldable pub build_common : CreateTxn → Authority → Bytes → M W Event ℕ
  build_common t a root_path = do
    bind_path h.me f root_path t.root "session root"
    empty ←
        create_directory h.me f t.root (codes ".git-vws-empty-template") 0o700 "empty Git template"
    empty_identity ← silent (f.identity_of empty)
    bind_path h.me f (root_path ++ codes "/.git-vws-empty-template") empty "empty Git template"
    bind_path h.me f root_path t.root "session root"
    init_private_common h a (root_path ++ codes "/common.git")
        (root_path ++ codes "/.git-vws-empty-template")
    common ← silent (f.open_directory_at t.root (codes "common.git"))
    silent (f.change_mode common 0o700)
    common_identity ← silent (f.identity_of common)
    lift (
        guard (private_directory h.me common_identity)
          (failed "private common-dir has invalid identity"))
    bind_path h.me f (root_path ++ codes "/common.git") common "private common-dir"
    remove_empty_directory h.me f t.root (codes ".git-vws-empty-template") empty_identity
        "empty Git template"
    write_alternate h.me f common (a.canonical ++ codes "/objects")
    configure_private_common h (root_path ++ codes "/common.git")
    pure common

  -- The linked worktree with the template's tree; its descriptor and the receipt are the result.
  unfoldable pub build_worktree :
      CreateTxn → Template → Bytes → Bytes → Bytes → M W Event (ℕ × CowReceipt)
  build_worktree t template root_path target base = do
    bind_path h.me f root_path t.root "session root"
    add_linked_worktree h (root_path ++ codes "/common.git") (root_path ++ codes "/worktree") target
        base
    worktree ← silent (f.open_directory_at t.root (codes "worktree"))
    i ← silent (f.identity_of worktree)
    lift (guard (owned_directory h.me i) (failed "linked worktree is not an owned directory"))
    source ← silent (f.identity_of template.root)
    lift (
        guard (source == template.sealed.root)
          (error "TEMPLATE_CORRUPT" "template root binding changed before native clone"))
    parent ← silent (f.identity_of t.root)
    lift (guard (private_directory h.me parent) (failed "session root changed before native clone"))
    receipt ← silent (s.cow_clone template t.root parent i)
    cloned ← silent (f.identity_of worktree)
    lift (
        guard
          (receipt.source == template.sealed
            && receipt.destination == cloned
            && owned_directory h.me receipt.destination)
          (failed "native COW receipt did not match the template record"))
    pure (worktree, receipt)

  -- The checks and the writes to the disk before READY.
  unfoldable pub settle_trees : CreateTxn → Bytes → ℕ → ℕ → M W Event (Unit {0})
  settle_trees t root_path common worktree = do
    read_tree h (root_path ++ codes "/worktree")
    status_clean h (root_path ++ codes "/worktree")
    silent (s.sync_tree common)
    silent (s.sync_tree worktree)
    silent (f.sync_all t.root)
    silent h.sync_container

  -- The last step: the record becomes READY.
  unfoldable pub leave :
      CreateTxn → SessionRecord → Bytes → Bytes → ℕ → ℕ × CowReceipt → M W Event RecordCapability
  leave t materializing root_path target common (worktree, receipt) = do
    i ← silent (f.identity_of t.root)
    lift (guard (private_directory h.me i) (failed "session root changed before READY commit"))
    bind_path h.me f root_path t.root "session root"
    common_identity ← silent (f.identity_of common)
    git ←
        git_metadata h f common (root_path ++ codes "/common.git") (root_path ++ codes "/worktree")
          worktree target
    let r = record materializing {
      payload = SessionPayload.ready (record {
        root_name = t.root_name;
        root_identity = i;
        common_identity = common_identity;
        worktree = receipt;
        git = git;
      });
    }
    bytes ← lift (encode_record h.me h.digest h.to_json r)
    replace_record_capability h t.capability r bytes

  -- `materialize_session`, with the `abort` of `create` around each part: it sees the capability of
  -- the last record that was written.
  unfoldable pub materialize_session :
      CreateTxn → Authority → Template → Bytes → Bytes → Bytes → M W Event Bytes
  materialize_session t a template root_path target base = do
    let materializing = materializing_record t.capability.session_record t.root_name t.root_identity
    entered ← within h t (enter t)
    let t1 = record t { capability = entered }
    common ← within h t1 (build_common t1 a root_path)
    built ← within h t1 (build_worktree t1 template root_path target base)
    within h t1 (settle_trees t1 root_path common built.0)
    current ← within h t1 (revalidate_record h entered)
    let t2 = record t { capability = current }
    _ ← within h t2 (leave t2 materializing root_path target common built)
    pure root_path

  -- What `create` answers where the session's record is there already.
  unfoldable pub answer_payload :
      SessionPayload → SessionContext → RecordCapability → M W Event Bytes
  answer_payload (SessionPayload.ready p) context existing = do
    loaded ← load_ready_capability h context existing
    pure loaded.root_path
  answer_payload (SessionPayload.tombstoned root tombstone i) context existing = lift (
      fail "SESSION_RECOVERY_REQUIRED"
        "session removal is incomplete and was retained for diagnosis")
  answer_payload _ context existing =
      lift
        (fail "SESSION_INCOMPLETE" "session creation is incomplete and was retained for diagnosis")

  unfoldable pub answer_existing :
      SessionContext → SessionRecord → RecordCapability → M W Event Bytes
  answer_existing context prepared existing = do
    lift (ensure_publish_idle existing.session_record)
    if existing.session_record == prepared
        then lift (fail "SESSION_INCOMPLETE" "session record is prepared but has no stable root")
        else if matches_existing existing.session_record prepared
        then answer_payload existing.session_record.payload context existing
        else lift (fail "SESSION_EXISTS" "session name is already bound to different create inputs")

  -- `create` of a session that has no record yet.
  unfoldable pub create_new :
      SessionContext → SessionRecord → Template → Bytes → Bytes → Bytes → M W Event Bytes
  create_new context prepared template root_path target base = do
    bytes ← lift (encode_record h.me h.digest h.to_json prepared)
    capability ← create_record_capability (record_name prepared.sid) prepared bytes
    root ← create_directory h.me f f.container (root_name prepared.sid) 0o700 "session root"
    i ← silent (f.identity_of root)
    materialize_session
        (record {
          capability = capability;
          root = root;
          root_name = root_name prepared.sid;
          root_identity = i;
        })
        context.authority template root_path target base

  unfoldable pub create_or_answer :
      SessionContext
      → SessionRecord
      → Template
      → Bytes
      → Bytes
      → Bytes
      → Option RecordCapability
      → M W Event Bytes
  create_or_answer context prepared template root_path target base none =
      create_new context prepared template root_path target base
  create_or_answer context prepared template root_path target base (some existing) =
      answer_existing context prepared existing

  -- The commit that the session starts from.
  unfoldable pub choose_base : Authority → Option Bytes → Option Bytes → M W Event Bytes
  choose_base a (some from) target_old = resolve_commit h a from
  choose_base a none (some existing) = pure existing
  choose_base a none none = resolve_commit h a (codes "HEAD")

  -- The record that `create` starts with.
  unfoldable pub prepared_record :
      Authority → Bytes → Bytes → Option Bytes → Bytes → Template → Identity → Bytes → SessionRecord
  prepared_record a name target target_old base template container_identity volume =
      let sid = session_id h.digest a.canonical a.identity name in
      record {
        version = 2;
        sid = sid;
        authority_path = hex a.canonical;
        authority_identity = a.identity;
        name = hex name;
        base = base;
        target = hex target;
        expected_old = target_old;
        template_key = template.key;
        template = template.sealed;
        container_identity = container_identity;
        volume = volume;
        payload = SessionPayload.prepared (root_name sid);
        journal = idle;
      }

  -- `--path` may only name what is chosen anyway.
  unfoldable pub check_path : Option Bytes → Bytes → Result (Unit {0})
  check_path none root_path = ok tt
  check_path (some path) root_path =
      guard (same_path path root_path)
        (error "SESSION_UNSUPPORTED" "--path must be the exact managed session root")

  unfoldable pub create : Bytes → CreateRequest → M W Event Bytes
  create repository request = do
    a ← silent (s.inspect repository)
    silent (s.registered a)
    let target = chosen_target request.target request.name
    validate_branch h a target
    target_old ← resolve_target h a target
    base ← choose_base a request.from target_old
    tree ← resolve_tree h a base
    template ← silent (s.acquire a tree)
    silent s.open_sessions
    container_identity ← silent (f.identity_of f.container)
    volume ← silent (f.volume_id f.container)
    lift (
        guard (template.sealed.volume == volume) (
          error "STORAGE_UNSUPPORTED"
            "template and session containers are not on the same COW volume"))
    path ← silent s.sessions_path
    bind_path h.me f path f.container "session container"
    let prepared =
        prepared_record a request.name target target_old base template container_identity volume
    let root_path = path ++ (b'/' ∷ root_name prepared.sid)
    lift (check_path request.path root_path)
    existing ← optional_record h (record_name prepared.sid) a
    create_or_answer (record { authority = a; sessions_path = path }) prepared template root_path
        target base existing
