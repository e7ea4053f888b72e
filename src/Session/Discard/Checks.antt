-- ===== src/Session/Discard/Checks.antt =====
-- src/session.rs: `ensure_discard_safe` with the checks that it makes.
use git_vws.Authority.Hex.{decode_hex}
use git_vws.Effect.{M, ◌>>=◌, ◌>>◌, lift, silent, map_error, pure}
use git_vws.Session.Types.{SessionRecord}
use git_vws.Session.Host.{success, ReadySession, Event, Host}
use git_vws.Session.Commands.{command}
use git_vws.Session.Git.{heads}
use git_vws.Session.Store.{cstring}
use git_vws.Session.Files.{Files, read_regular_at}
use git_vws.Session.Create.Commands.{plain, inside, git_dir}
use git_vws.Session.Discard.Outputs.{discard_risk, refs_safe, unborn_head, unborn_notice}
use git_vws.Base.{
  ℕ, true, false, ◌&&◌, List, [], ◌∷◌, ◌++◌, if◌then◌else◌, ◌==◌, nat_Eq, string_Eq, bytes_Eq,
  option_bytes_Eq, option_nat_Eq, all, Bytes, codes, is_empty, Error, err, guard, ok_or,
}

abbrev unproven : Error
unproven = discard_risk "private refs, reflogs, or objects are not proven disposable"

module _ {W : Type 0} (h : Host W) (f : Files W) where
  unfoldable pub ensure_private_refs_safe : ReadySession → SessionRecord → M W Event (Unit {0})
  ensure_private_refs_safe loaded r = do
    let risk = discard_risk "cannot inspect private refs"
    output ←
        map_error (λ e. risk)
          (command h (
            plain (
              git_dir h (loaded.root_path ++ codes "/common.git")
              ∷ codes "for-each-ref"
              ∷ codes "--format=%(refname) %(objectname)"
              ∷ [])))
    lift (guard (success output && is_empty output.stderr) risk)
    target ← lift (decode_hex r.target)
    lift (refs_safe (heads target) r.base output.stdout)
    objects ← silent (f.open_directory_at loaded.common (codes "objects"))
    i ← silent (f.identity_of objects)
    common ← silent (f.identity_of loaded.common)
    lift (
        guard (i.dev == common.dev)
          (discard_risk "private object directory left the session volume"))

  -- One entry of the private object directory.
  unfoldable pub check_object : ℕ → Bytes → M W Event (Unit {0})
  check_object objects name =
      if name == codes "info"
      then (silent (f.open_directory_at objects name) >>= λ info.
          silent (f.directory_names info) >>= λ children. lift (
            guard (all (λ child. child == codes "alternates") children)
              (discard_risk "private object metadata contains additional entries")))
      else if name == codes "pack"
      then (silent (f.open_directory_at objects name) >>= λ pack.
          silent (f.directory_names pack) >>= λ children. lift (
            guard (elim children [ [] ↦ true | ◌∷◌ n ns ↦ false ])
              (discard_risk "private object store contains packed objects")))
      else lift (err (discard_risk "private object store contains loose objects"))

  unfoldable pub check_objects : ℕ → List Bytes → M W Event (Unit {0})
  unfolding check_object
  check_objects objects [] = pure tt
  check_objects objects (name ∷ names) =
      lift (cstring name) >> (check_object objects name >> check_objects objects names)

  unfoldable pub ensure_private_object_store_empty : ℕ → M W Event (Unit {0})
  unfolding check_objects
  ensure_private_object_store_empty common = do
    objects ← silent (f.open_directory_at common (codes "objects"))
    names ← silent (f.directory_names objects)
    check_objects objects names

  -- Where `git fsck` has left a notice: it may only be of a branch that the common HEAD names.
  unfoldable pub check_notice : ReadySession → SessionRecord → Bytes → M W Event (Unit {0})
  check_notice loaded r notice = do
    target ← map_error (λ e. unproven) (lift (decode_hex r.target))
    head_bytes ←
        map_error (λ e. unproven)
          (read_regular_at h.me f loaded.common (codes "HEAD") "private common HEAD")
    head ← lift (ok_or (unborn_head head_bytes target) unproven)
    lift (guard (notice == unborn_notice head) unproven)
    again ←
        map_error (λ e. unproven)
          (read_regular_at h.me f loaded.common (codes "HEAD") "private common HEAD")
    lift (guard (again == head_bytes) unproven)

  unfoldable pub ensure_no_unreachable_private_closure :
      ReadySession → SessionRecord → M W Event (Unit {0})
  ensure_no_unreachable_private_closure loaded r = do
    output ←
        map_error (λ e. discard_risk "cannot prove the private object closure is disposable")
          (command h (
            plain (
              git_dir h (loaded.root_path ++ codes "/common.git")
              ∷ codes "fsck"
              ∷ codes "--no-reflogs"
              ∷ codes "--unreachable"
              ∷ codes "--no-progress"
              ∷ [])))
    lift (guard (success output && is_empty output.stdout) unproven)
    if is_empty output.stderr then pure tt else check_notice loaded r output.stderr

  unfoldable pub ensure_discard_safe : ReadySession → SessionRecord → M W Event (Unit {0})
  ensure_discard_safe loaded r = do
    output ←
        map_error (λ e. discard_risk "cannot inspect worktree changes")
          (command h (
            inside loaded.worktree_path (
              codes "status"
              ∷ codes "--porcelain=v1"
              ∷ codes "--untracked-files=all"
              ∷ codes "--ignored=matching"
              ∷ [])))
    lift (
        guard (success output && is_empty output.stderr && is_empty output.stdout)
          (discard_risk "worktree has tracked, untracked, or ignored changes"))
    ensure_private_refs_safe loaded r
    ensure_private_object_store_empty loaded.common
    ensure_no_unreachable_private_closure loaded r
