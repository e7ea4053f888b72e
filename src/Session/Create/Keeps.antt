-- ===== src/Session/Create/Keeps.antt =====
-- The parts of `create` that write no record: what they leave in the log. A predicate `P` of the log
-- that survives every command survives them, and `E` is what is promised where one fails.
use git_vws.Authority.Identity.{Identity, Authority}
use git_vws.Effect.{note, bind, seq}
use git_vws.Session.Host.{Invocation, Event, ran, Host}
use git_vws.Session.Commands
use git_vws.Session.Files
use git_vws.Session.Files.{Files}
use git_vws.Session.Publish.Stays
use git_vws.Session.Publish.Stays.{On}
use git_vws.Session.Create.Commands as Making
use git_vws.Session.Create.Transaction.{CreateTxn}
use git_vws.Session.Create.Materialize
use git_vws.Session.Create.Materialize.{Services, Template, CreateRequest}
use git_vws.Base.{
  ℕ, String, Option, none, some, List, ◌∷◌, nat_Eq, string_Eq, bytes_Eq, option_bytes_Eq,
  option_nat_Eq, Bytes,
}

module _ {W : Type 0} (h : Host W) (f : Files W) (P E : List Event → Type 0)
    (fails : (log : List Event) → P log → E log) where
  pub creates_directory :
      (parent : ℕ) (name : Bytes) (mode : ℕ) (label : String)
      → Stays.Stays P E (Files.create_directory h.me f parent name mode label)
  unfolding Files.create_directory
  creates_directory parent name mode label = seq (Stays.lifts h P E fails _) (
      seq (Stays.silents h P E fails _) (
        bind (Stays.silents h P E fails _) λ directory. seq (Stays.silents h P E fails _) (
          bind (Stays.silents h P E fails _)
            λ i. seq (Stays.lifts h P E fails _) (Stays.pures h P E fails _))))

  pub removes_directory :
      (parent : ℕ) (name : Bytes) (i : Identity) (label : String)
      → Stays.Stays P E (Files.remove_empty_directory h.me f parent name i label)
  unfolding Files.remove_empty_directory
  removes_directory parent name i label = seq (Stays.lifts h P E fails _) (
      bind (Stays.silents h P E fails _) λ entry. seq (Stays.lifts h P E fails _) (
        bind (Stays.silents h P E fails _) λ directory. bind (Stays.silents h P E fails _) λ opened.
          seq (Stays.lifts h P E fails _) (
            bind (Stays.silents h P E fails _) λ names.
              seq (Stays.lifts h P E fails _)
                (seq (Stays.silents h P E fails _) (Stays.silents h P E fails _)))))

  pub binds_path :
      (path : Bytes) (descriptor : ℕ) (label : String)
      → Stays.Stays P E (Files.bind_path h.me f path descriptor label)
  unfolding Files.bind_path
  binds_path path descriptor label =
      bind (Stays.silents h P E fails _)
        λ entry. bind (Stays.silents h P E fails _) λ i. Stays.lifts h P E fails _

  pub reads_regular :
      (parent : ℕ) (name : Bytes) (label : String)
      → Stays.Stays P E (Files.read_regular_at h.me f parent name label)
  unfolding Files.read_regular_at
  reads_regular parent name label = bind (Stays.silents h P E fails _) λ before.
      seq (Stays.lifts h P E fails _) (
        bind (Stays.silents h P E fails _) λ file. bind (Stays.silents h P E fails _) λ opened.
          seq (Stays.lifts h P E fails _) (
            bind (Stays.silents h P E fails _) λ bytes. seq (Stays.lifts h P E fails _) (
              bind (Stays.silents h P E fails _) λ after. seq (Stays.lifts h P E fails _) (
                bind (Stays.silents h P E fails _)
                  λ entry. seq (Stays.lifts h P E fails _) (Stays.pures h P E fails _)))))

  pub writes_alternate :
      (common : ℕ) (path : Bytes) → Stays.Stays P E (Files.write_alternate h.me f common path)
  unfolding Files.write_alternate
  writes_alternate common path = seq (Stays.lifts h P E fails _) (
      bind (Stays.silents h P E fails _) λ objects.
        bind (Stays.silents h P E fails _)
          λ info. seq (Stays.silents h P E fails _) (Stays.silents h P E fails _))

  module _ (keeps : (inv : Invocation) (log : List Event) → P log → P (ran inv ∷ log)) where
    pub commands : (inv : Invocation) → Stays.Stays P E (Commands.command h inv)
    unfolding Commands.command note
    commands inv = record {
      run = λ w p.
          Stays.silent_run h P E fails (h.capture inv w.outside) (ran inv ∷ w.log)
            (keeps inv w.log p);
    }

    pub targets :
        (a : Authority) (target : Bytes) → Stays.Stays P E (Making.resolve_target h a target)
    unfolding Making.resolve_target
    targets a target = bind (commands _) λ output. Stays.lifts h P E fails _

    objects :
        (a : Authority) (expression : Bytes) (detail : String)
        → Stays.Stays P E (Making.resolve_object h a expression detail)
    unfolding Making.resolve_object
    objects a expression detail =
        bind (commands _) λ output. seq (Stays.lifts h P E fails _) (Stays.lifts h P E fails _)

    pub commits :
        (a : Authority) (revision : Bytes) → Stays.Stays P E (Making.resolve_commit h a revision)
    unfolding Making.resolve_commit
    commits a revision = objects a _ _

    pub trees : (a : Authority) (base : Bytes) → Stays.Stays P E (Making.resolve_tree h a base)
    unfolding Making.resolve_tree
    trees a base = objects a _ _

    pub branches :
        (a : Authority) (target : Bytes) → Stays.Stays P E (Making.validate_branch h a target)
    unfolding Making.validate_branch
    branches a target =
        seq (Stays.lifts h P E fails _) (bind (commands _) λ output. Stays.lifts h P E fails _)

    cleans : (inv : Invocation) (label : String) → Stays.Stays P E (Making.clean h inv label)
    unfolding Making.clean
    cleans inv label = bind (commands inv) λ output. Stays.lifts h P E fails _

    configures :
        (common key expected : Bytes) → Stays.Stays P E (Making.configure_key h common key expected)
    unfolding Making.configure_key
    configures common key expected =
        seq (cleans _ _) (bind (commands _) λ output. Stays.lifts h P E fails _)

    hashes : (inv : Invocation) (label : String) → Stays.Stays P E (Making.hashed h inv label)
    unfolding Making.hashed
    hashes inv label =
        bind (commands inv)
          λ output. bind (Stays.lifts h P E fails _) λ bytes. Stays.pures h P E fails _

    pub metadata :
        (common : ℕ) (common_path worktree_path : Bytes) (worktree : ℕ) (target : Bytes)
        → Stays.Stays P E (Making.git_metadata h f common common_path worktree_path worktree target)
    unfolding Making.git_metadata
    metadata common common_path worktree_path worktree target =
        bind (reads_regular _ _ _) λ dot_git. bind (hashes _ _) λ head.
          bind (hashes _ _) λ target_ref. bind (hashes _ _) λ index. bind (hashes _ _) λ worktrees.
            bind (Stays.silents h P E fails _) λ objects.
              bind (Stays.silents h P E fails _)
                λ info. bind (reads_regular _ _ _) λ alternates. Stays.pures h P E fails _

    pub bases :
        (s : Services W) (a : Authority) (from target_old : Option Bytes)
        → Stays.Stays P E (Materialize.choose_base h f s a from target_old)
    unfolding Materialize.choose_base
    bases s a (some from) target_old = commits a from
    bases s a none (some existing) = Stays.pures h P E fails _
    bases s a none none = commits a _

    module _ (s : Services W) (t : CreateTxn) where
      pub builds_common :
          (a : Authority) (root_path : Bytes)
          → Stays.Stays P E (Materialize.build_common h f s t a root_path)
      unfolding Materialize.build_common Making.init_private_common Making.configure_private_common
      builds_common a root_path = seq (binds_path _ _ _) (
          bind (creates_directory _ _ _ _) λ empty. bind (Stays.silents h P E fails _) λ i.
            seq (binds_path _ _ _) (
              seq (binds_path _ _ _) (
                seq (cleans _ _) (
                  bind (Stays.silents h P E fails _) λ common. seq (Stays.silents h P E fails _) (
                    bind (Stays.silents h P E fails _) λ j. seq (Stays.lifts h P E fails _) (
                      seq (binds_path _ _ _) (
                        seq (removes_directory _ _ _ _) (
                          seq (writes_alternate _ _) (
                            seq (seq (configures _ _ _) (configures _ _ _))
                              (Stays.pures h P E fails _))))))))))

      pub builds_worktree :
          (template : Template) (root_path target base : Bytes)
          → Stays.Stays P E (Materialize.build_worktree h f s t template root_path target base)
      unfolding Materialize.build_worktree Making.add_linked_worktree
      builds_worktree template root_path target base = seq (binds_path _ _ _) (
          seq (cleans _ _) (
            bind (Stays.silents h P E fails _) λ worktree. bind (Stays.silents h P E fails _) λ i.
              seq (Stays.lifts h P E fails _) (
                bind (Stays.silents h P E fails _) λ source. seq (Stays.lifts h P E fails _) (
                  bind (Stays.silents h P E fails _) λ parent. seq (Stays.lifts h P E fails _) (
                    bind (Stays.silents h P E fails _) λ receipt.
                      bind (Stays.silents h P E fails _)
                        λ cloned. seq (Stays.lifts h P E fails _) (Stays.pures h P E fails _))))))

      pub settles_trees :
          (root_path : Bytes) (common worktree : ℕ)
          → Stays.Stays P E (Materialize.settle_trees h f s t root_path common worktree)
      unfolding Materialize.settle_trees Making.read_tree Making.status_clean
      settles_trees root_path common worktree = seq (cleans _ _) (
          seq (bind (commands _) λ output. Stays.lifts h P E fails _) (
            seq (Stays.silents h P E fails _) (
              seq (Stays.silents h P E fails _)
                (seq (Stays.silents h P E fails _) (Stays.silents h P E fails _)))))
