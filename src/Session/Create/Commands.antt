-- ===== src/Session/Create/Commands.antt =====
-- src/session.rs: the Git commands of `create`, with the checks of their outputs. A failure to run
-- Git comes out of the host as `git_error` maps it; the timeouts are the host's.
use git_vws.Authority.Identity.{Authority}
use git_vws.Effect.{M, ◌>>=◌, ◌>>◌, lift, silent, pure}
use git_vws.Session.Types.{GitMetadataReceipt}
use git_vws.Session.Host.{isolated, Invocation, success, Event, Host}
use git_vws.Session.Git.{heads}
use git_vws.Session.Commands.{command}
use git_vws.Session.Create.Outputs.{
  parse_oid_output, resolved_target, require_clean, clean_git_output,
}
use git_vws.Session.Files.{Files, read_regular_at}
use git_vws.Base.{
  ℕ, String, ◌&&◌, ◌||◌, not, Option, none, some, List, [], ◌∷◌, ◌++◌, if◌then◌else◌, ◌==◌, nat_Eq,
  string_Eq, bytes_Eq, option_bytes_Eq, option_nat_Eq, Bytes, codes, is_empty, starts_with, error,
  guard,
}

-- A command line without an authority's configuration.
abbrev pub plain : List Bytes → Invocation
plain args = record { args = args; cwd = none; audit = isolated }

abbrev pub inside : Bytes → List Bytes → Invocation
inside directory args = record { args = args; cwd = some directory; audit = isolated }

module _ {W : Type 0} (h : Host W) where
  unfoldable pub resolve_target : Authority → Bytes → M W Event (Option Bytes)
  resolve_target a target = do
    output ← command h (
        inside a.canonical
          (codes "rev-parse" ∷ codes "--verify" ∷ codes "--quiet" ∷ heads target ∷ []))
    lift (resolved_target output a.object_format)

  -- `resolve_commit` and `resolve_tree`: `revision` with a suffix for the kind of object.
  unfoldable pub resolve_object : Authority → Bytes → String → M W Event Bytes
  resolve_object a expression detail = do
    output ← command h (inside a.canonical (codes "rev-parse" ∷ codes "--verify" ∷ expression ∷ []))
    lift (guard (success output && is_empty output.stderr) (error "BASE_INVALID" detail))
    lift (parse_oid_output output.stdout a.object_format)

  unfoldable pub resolve_commit : Authority → Bytes → M W Event Bytes
  unfolding resolve_object
  resolve_commit a revision =
      resolve_object a (revision ++ codes "^{commit}") "base revision does not resolve to a commit"

  unfoldable pub resolve_tree : Authority → Bytes → M W Event Bytes
  unfolding resolve_object
  resolve_tree a base =
      resolve_object a (base ++ codes "^{tree}") "base commit does not resolve to a tree"

  unfoldable pub validate_branch : Authority → Bytes → M W Event (Unit {0})
  validate_branch a target = do
    let invalid = error "TARGET_INVALID" "target branch name is invalid"
    lift (guard (not (is_empty target || starts_with (codes "-") target)) invalid)
    output ←
        command h (inside a.canonical (codes "check-ref-format" ∷ codes "--branch" ∷ target ∷ []))
    lift (guard (success output && is_empty output.stderr) invalid)

  -- A command whose only result is that it was clean.
  unfoldable pub clean : Invocation → String → M W Event (Unit {0})
  clean inv label = do output ← command h inv; lift (require_clean output label)

  -- The arguments of `git init`.
  unfoldable pub init_args : Authority → Bytes → Bytes → List Bytes
  init_args a common empty_template =
      let rest = (codes "--template=" ++ empty_template) ∷ common ∷ [] in
      codes "init"
      ∷ codes "--bare"
      ∷ codes "--quiet"
      ∷ (codes "--object-format=" ++ a.object_format)
      ∷ (if a.ref_format == codes "files"
          then rest
          else (codes "--ref-format=" ++ a.ref_format) ∷ rest)

  unfoldable pub init_private_common : Authority → Bytes → Bytes → M W Event (Unit {0})
  init_private_common a common empty_template =
      clean (plain (init_args a common empty_template)) "initialize private common-dir"

  abbrev pub git_dir : Bytes → Bytes
  git_dir common = codes "--git-dir=" ++ common

  -- One round of the loop of `configure_private_common`.
  unfoldable pub configure_key : Bytes → Bytes → Bytes → M W Event (Unit {0})
  configure_key common key expected = do
    clean (plain (git_dir common ∷ codes "config" ∷ key ∷ expected ∷ []))
        "configure private common-dir"
    output ← command h (plain (git_dir common ∷ codes "config" ∷ codes "--get" ∷ key ∷ []))
    lift (
        guard (success output && is_empty output.stderr && output.stdout == expected ++ (10 ∷ [])) (
          error "SESSION_IO_FAILED" "private common-dir did not retain required Git configuration"))

  unfoldable pub configure_private_common : Bytes → M W Event (Unit {0})
  configure_private_common common = do
    configure_key common (codes "core.filemode") (codes "true")
    configure_key common (codes "core.symlinks") (codes "true")

  unfoldable pub add_linked_worktree : Bytes → Bytes → Bytes → Bytes → M W Event (Unit {0})
  add_linked_worktree common worktree target base =
      clean
        (plain (
          git_dir common
          ∷ codes "worktree"
          ∷ codes "add"
          ∷ codes "--quiet"
          ∷ codes "--no-checkout"
          ∷ codes "-b"
          ∷ target
          ∷ worktree
          ∷ base
          ∷ []))
        "create private linked worktree"

  unfoldable pub read_tree : Bytes → M W Event (Unit {0})
  read_tree worktree =
      clean (inside worktree (codes "read-tree" ∷ codes "--reset" ∷ codes "HEAD" ∷ []))
        "build linked-worktree index"

  unfoldable pub status_clean : Bytes → M W Event (Unit {0})
  status_clean worktree = do
    output ← command h (
        inside worktree
          (codes "status" ∷ codes "--porcelain=v1" ∷ codes "--untracked-files=all" ∷ []))
    lift (
        guard (success output && is_empty output.stderr && is_empty output.stdout)
          (error "SESSION_DIRTY" "new linked worktree did not have a clean Git status"))

  -- `hash_bytes` of a clean command's output
  unfoldable pub hashed : Invocation → String → M W Event Bytes
  hashed inv label = do
    output ← command h inv
    bytes ← lift (clean_git_output output label)
    pure (h.digest bytes)

  unfoldable pub git_metadata :
      Files W → ℕ → Bytes → Bytes → ℕ → Bytes → M W Event GitMetadataReceipt
  unfolding hashed
  git_metadata f common common_path worktree_path worktree target = do
    dot_git ← read_regular_at h.me f worktree (codes ".git") "linked-worktree metadata"
    head ←
        hashed
          (plain
            (codes "-C" ∷ worktree_path ∷ codes "rev-parse" ∷ codes "--verify" ∷ codes "HEAD" ∷ []))
          "read linked-worktree HEAD"
    target_ref ←
        hashed
          (plain (git_dir common_path ∷ codes "rev-parse" ∷ codes "--verify" ∷ heads target ∷ []))
          "read private target ref"
    index ←
        hashed
          (plain
            (codes "-C" ∷ worktree_path ∷ codes "ls-files" ∷ codes "--stage" ∷ codes "-z" ∷ []))
          "read linked-worktree index"
    worktrees ←
        hashed
          (plain (git_dir common_path ∷ codes "worktree" ∷ codes "list" ∷ codes "--porcelain" ∷ []))
          "read private worktree registry"
    objects ← silent (f.open_directory_at common (codes "objects"))
    info ← silent (f.open_directory_at objects (codes "info"))
    alternates ← read_regular_at h.me f info (codes "alternates") "private alternate"
    pure (record {
      dot_git = h.digest dot_git;
      head = head;
      target_ref = target_ref;
      index = index;
      worktrees = worktrees;
      alternates = h.digest alternates;
    })
