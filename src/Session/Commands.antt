-- ===== src/Session/Commands.antt =====
-- src/session.rs: the Git commands of a publication, each with its checks, over a host.
use git_vws.Authority.Identity.{Authority}
use git_vws.Effect.{M, ◌>>=◌, ◌>>◌, lift, note, map_error, pure}
use git_vws.Session.Host.{isolated, Invocation, Output, success, Event, ran, Host}
use git_vws.Session.Git.{
  authority_config_is_safe, parse_target_commit_output, heads, at_authority, refs_format,
}
use git_vws.Base.{
  String, ◌&&◌, not, Option, none, some, [], ◌∷◌, ◌++◌, if◌then◌else◌, ◌==◌, nat_Eq, string_Eq,
  bytes_Eq, option_bytes_Eq, option_nat_Eq, replicate, any, Bytes, codes, is_empty, split, Error,
  ok, error, fail, guard, ok_or,
}

-- The command that `update_publish_ref` runs: a compare-and-swap of the branch.
unfoldable pub update_ref : Authority → Bytes → Bytes → Option Bytes → Invocation
update_ref a target new expected_old =
    at_authority a
      (codes "update-ref" ∷ codes "--no-deref" ∷ heads target ∷ new ∷ old_value expected_old ∷ [])
  where
    old_value : Option Bytes → Bytes
    old_value (some old) = old
    old_value none = replicate (if a.object_format == codes "sha1" then 40 else 64) b'0'

module _ {W : Type 0} (h : Host W) where
  unfoldable pub command : Invocation → M W Event Output
  command inv = note (ran inv) (h.capture inv)

  abbrev verify_failed : String → Error
  verify_failed detail = error "PUBLISH_VERIFY_FAILED" detail

  unfoldable pub audit_authority_config : Authority → M W Event Bytes
  audit_authority_config a = do
    output ←
        map_error (λ _. error "PUBLISH_VERIFY_FAILED" "cannot audit authority config")
          (command (
            at_authority a (
              codes "config"
              ∷ codes "--null"
              ∷ codes "--show-origin"
              ∷ codes "--show-scope"
              ∷ codes "--includes"
              ∷ codes "--list"
              ∷ [])))
    lift (
        guard (success output && is_empty output.stderr && authority_config_is_safe output.stdout)
          (error "PUBLISH_VERIFY_FAILED" "authority config is not safe for fixed-object publish"))
    pure (h.digest output.stdout)

  unfoldable pub validate_publish_target : Authority → Bytes → M W Event (Unit {0})
  validate_publish_target a target = do
    output ←
        map_error (λ _. error "PUBLISH_VERIFY_FAILED" "cannot validate publish target")
          (command (at_authority a (codes "check-ref-format" ∷ codes "--branch" ∷ target ∷ [])))
    lift (
        guard (success output && is_empty output.stderr)
          (error "PUBLISH_VERIFY_FAILED" "session target is not a valid direct branch name"))

  unfoldable pub ensure_publish_target_unchecked_out : Authority → Bytes → M W Event (Unit {0})
  ensure_publish_target_unchecked_out a target = do
    output ←
        map_error (λ _. error "PUBLISH_VERIFY_FAILED" "cannot inspect authority worktrees")
          (command (at_authority a (codes "worktree" ∷ codes "list" ∷ codes "--porcelain" ∷ [])))
    lift (
        guard (success output && is_empty output.stderr)
          (error "PUBLISH_VERIFY_FAILED" "cannot inspect authority worktrees"))
    lift (
        guard
          (not
            (any (λ line. line == codes "branch refs/heads/" ++ target) (split 10 output.stdout)))
          (error "PUBLISH_TARGET_CHECKED_OUT"
            "publish target is checked out by an authority worktree"))

  -- `target_commit`
  unfoldable pub target_commit : Invocation → Bytes → Bytes → M W Event (Option Bytes)
  target_commit inv target object_format = do
    output ←
        map_error (λ _. error "PUBLISH_VERIFY_FAILED" "cannot read publish target") (command inv)
    lift (
        guard (success output && is_empty output.stderr)
          (error "PUBLISH_VERIFY_FAILED" "cannot read publish target"))
    lift (parse_target_commit_output output.stdout (heads target) object_format)

  unfoldable pub authority_target_commit : Authority → Bytes → M W Event (Option Bytes)
  unfolding target_commit
  authority_target_commit a target =
      target_commit (at_authority a (codes "for-each-ref" ∷ refs_format ∷ heads target ∷ [])) target
        a.object_format

  unfoldable pub private_target_commit : Bytes → Bytes → Bytes → M W Event Bytes
  unfolding target_commit
  private_target_commit common target object_format = do
    found ←
        target_commit
          (record {
            args = codes "for-each-ref" ∷ refs_format ∷ heads target ∷ [];
            cwd = some common;
            audit = isolated;
          })
          target object_format
    lift (
        ok_or found
          (error "PUBLISH_VERIFY_FAILED" "private target is absent or not a direct commit"))

  unfoldable pub ensure_private_target : Bytes → Bytes → Bytes → Bytes → M W Event (Unit {0})
  unfolding private_target_commit
  ensure_private_target common target object_format expected = do
    found ← private_target_commit common target object_format
    lift (
        guard (found == expected) (
          error "PUBLISH_VERIFY_FAILED"
            "private target changed after the publish journal was prepared"))

  unfoldable pub ensure_authority_expected_old :
      Authority → Bytes → Option Bytes → M W Event (Unit {0})
  unfolding authority_target_commit
  ensure_authority_expected_old a target expected = do
    found ← authority_target_commit a target
    lift (
        guard (found == expected)
          (error "PUBLISH_CONFLICT" "authority target no longer matches the frozen expected-old"))

  ancestry : Bytes → Bytes → Bytes → M W Event (Unit {0})
  ancestry common old new = do
    output ←
        map_error (λ _. error "PUBLISH_VERIFY_FAILED" "cannot verify publish ancestry")
          (command (record {
            args = codes "merge-base" ∷ codes "--is-ancestor" ∷ old ∷ new ∷ [];
            cwd = some common;
            audit = isolated;
          }))
    let quiet = is_empty output.stdout && is_empty output.stderr
    lift (
        if success output && quiet
        then ok tt
        else if output.status == some 1 && quiet
        then fail "PUBLISH_NON_FAST_FORWARD"
            "private target is not a fast-forward of the frozen authority target"
        else fail "PUBLISH_VERIFY_FAILED" "cannot prove the publish ancestry relation")

  unfoldable pub ensure_publish_relation : Bytes → Option Bytes → Bytes → M W Event (Unit {0})
  unfolding ancestry
  ensure_publish_relation common none new = pure tt
  ensure_publish_relation common (some old) new =
      if old == new then pure tt else ancestry common old new

  unfoldable pub import_publish_objects : Authority → Bytes → Bytes → M W Event (Unit {0})
  import_publish_objects a common new = do
    output ←
        map_error (λ _. error "PUBLISH_IMPORT_FAILED" "cannot import private objects")
          (command (
            at_authority a (
              codes "fetch"
              ∷ codes "--quiet"
              ∷ codes "--no-write-fetch-head"
              ∷ codes "--no-tags"
              ∷ codes "--no-auto-maintenance"
              ∷ codes "--no-write-commit-graph"
              ∷ codes "--recurse-submodules=no"
              ∷ common
              ∷ new
              ∷ [])))
    lift (
        guard (success output)
          (error "PUBLISH_IMPORT_FAILED" "Git rejected the fixed-object import"))

  unfoldable pub verify_authority_closure : Authority → Bytes → M W Event (Unit {0})
  verify_authority_closure a new = do
    let expression = new ++ codes "^{commit}"
    found ←
        map_error (λ _. error "PUBLISH_VERIFY_FAILED" "cannot verify imported commit")
          (command (at_authority a (codes "cat-file" ∷ codes "-e" ∷ expression ∷ [])))
    lift (
        guard (success found && is_empty found.stdout && is_empty found.stderr)
          (error "PUBLISH_VERIFY_FAILED" "authority does not contain the imported commit"))
    closure ←
        map_error (λ _. error "PUBLISH_VERIFY_FAILED" "cannot verify imported closure")
          (command (
            at_authority a (
              codes "fsck"
              ∷ codes "--connectivity-only"
              ∷ codes "--no-reflogs"
              ∷ codes "--no-dangling"
              ∷ codes "--no-progress"
              ∷ expression
              ∷ [])))
    lift (
        guard (success closure && is_empty closure.stdout && is_empty closure.stderr)
          (error "PUBLISH_VERIFY_FAILED" "authority does not prove the imported commit closure"))

  unfoldable pub update_publish_ref : Authority → Bytes → Bytes → Option Bytes → M W Event Output
  unfolding update_ref
  update_publish_ref a target new expected_old =
      map_error (λ _. error "PUBLISH_RECOVERY_REQUIRED" "publish CAS result is unknown")
        (command (update_ref a target new expected_old))
