-- ===== src/Session/Create/Advance.antt =====
-- The part of a `create` that writes, and the undoing of what it has written.
use git_vws.Authority.Identity.{Authority}
use git_vws.Effect.{
  World, M, note_ok, noted_ok, Holds, Ensures, bind, seq, lifted, pured, map_errored, branch,
  weaken, recovered,
}
use git_vws.Session.Types.{SessionRecord, session_record_Eq}
use git_vws.Session.Host.{
  Invocation, RecordBinding, RecordCapability, Event, ran, wrote, removed, destroyed, Host,
}
use git_vws.Session.Store
use git_vws.Session.Files.{Files}
use git_vws.Session.Lifecycle.Refusals.{stage}
use git_vws.Session.Publish.Stays
use git_vws.Session.Publish.Stays.{On}
use git_vws.Session.Create.Transaction
use git_vws.Session.Create.Transaction.{CreateTxn}
use git_vws.Session.Create.Materialize
use git_vws.Session.Create.Materialize.{Services, Template, CreateRequest}
use git_vws.Session.Create.Keeps
use git_vws.Session.Create.Changes.{
  Change, tree_gone, record_gone, changes, steps, Partial, Unfinished,
}
use git_vws.Base.{
  ℕ, suc, ◌≤◌, ◌≡◌, refl, ap, ◌⊎◌, inl, inr, false, List, ◌∷◌, ◌++◌, arith, nat_Eq, string_Eq,
  bytes_Eq, option_bytes_Eq, option_nat_Eq, Bytes, Error, Result, ok, err,
}

module _ {W : Type 0} (h : Host W) (f : Files W) (s : Services W) (l : List Change) where
  abbrev pub At : ℕ → List Event → Type 0
  At n log = changes log ≡ steps n ++ l

  abbrev Ends : ℕ → List Event → Type 0
  Ends n log = Partial n l log

  stopped : (n : ℕ) (log : List Event) → At n log → Ends n log
  unfolding Partial
  stopped n log p = inl p

  unfinished : (n : ℕ) → n ≤ 3 → (log : List Event) → Ends n log → Unfinished l log
  unfolding Unfinished
  unfinished n b log p = (n, b, p)

  pub open_end : (n : ℕ) → n ≤ 3 → (log : List Event) → At n log → Unfinished l log
  open_end n b log p = unfinished n b log (stopped n log p)

  pub commanded : (n : ℕ) (inv : Invocation) (log : List Event) → At n log → At n (ran inv ∷ log)
  unfolding changes
  commanded n inv log p = p

  -- The undoing of what stands after `n` records.
  tree_run :
      (n : ℕ) (name : Bytes) (r : Result (Unit {0}) × W) (log : List Event)
      → At n log
      → Holds
          (λ _. On (λ k. changes k ≡ tree_gone ∷ (steps n ++ l)))
          (On (Ends n))
          (noted_ok (destroyed name) log r)
  unfolding changes
  tree_run n name (ok a, w) log p = ap (λ k. tree_gone ∷ k) p
  tree_run n name (err e, w) log p = stopped n log p

  record_run :
      (n : ℕ) (name : Bytes) (r : Result (Unit {0}) × W) (log : List Event)
      → changes log ≡ tree_gone ∷ (steps n ++ l)
      → Holds (λ _. On (Ends n)) (On (Ends n)) (noted_ok (removed name) log r)
  unfolding changes Partial
  record_run n name (ok a, w) log p = inr (inr (ap (λ k. record_gone ∷ k) p))
  record_run n name (err e, w) log p = inr (inl p)

  abbrev Fails : {A : Type 0} → ℕ → M W Event A → Type 0
  Fails n m = Ensures (On (At n)) m (λ a w. ⊥) (On (Ends n))

  undoes :
      {A : Type 0} (n : ℕ) (t : CreateTxn) (primary : Error)
      → Fails n (Transaction.undo h {A = A} t primary)
  unfolding Transaction.undo Store.remove_record_capability note_ok
  undoes n t primary = seq (Stays.lifts h (At n) (Ends n) (stopped n) _) (
      bind (Stays.revalidates h (At n) (Ends n) (stopped n) _) λ c.
        seq
          (record {
            run = λ w p.
                tree_run n t.root_name
                  (h.remove_owned_tree t.root_name t.root_identity false w.outside) w.log p;
          })
          (seq
            (map_errored _ (record {
              run = λ w p.
                  record_run n c.basename (h.remove_bound c.basename c.binding w.outside) w.log p;
            }))
            (lifted _ (λ a w e p. absurd (cc)) (λ w p. p))))

  aborts :
      {A : Type 0} (n : ℕ) (t : CreateTxn) (primary : Error)
      → Fails n (Transaction.abort h {A = A} t primary)
  unfolding Transaction.abort
  aborts n t primary =
      branch (Transaction.retain_creating primary)
        (λ _. lifted _ (λ a w e p. absurd (cc)) (λ w p. stopped n w.log p))
        (λ _. undoes n t primary)

  -- A part that keeps the log at `n` records, inside the transaction.
  holds :
      {A : Type 0} (n : ℕ)
      → n ≤ 3
      → (t : CreateTxn) {m : M W Event A} → Stays.Stays (At n) (At n) m
      → Stays.Stays (At n) (Unfinished l) (Transaction.within h t m)
  unfolding Transaction.within
  holds n b t stays =
      recovered stays
        λ e. weaken (λ w p. p) (λ a w p. absurd p) (λ w p. unfinished n b w.log p) (aborts n t e)

  same : (n : ℕ) (log : List Event) → At n log → At n log
  same n log p = p

  -- The log stands at `n` records or, if the write has just succeeded, at one more.
  abbrev Near : ℕ → List Event → Type 0
  Near n log = At n log ⊎ At (suc n) log

  written_run :
      (n : ℕ) (r : SessionRecord)
      → stage r.payload ≡ n
      → (b : Result RecordBinding × W) (log : List Event) → At n log
      → Holds (λ _. On (At (suc n))) (On (Near n)) (noted_ok (wrote r) log b)
  unfolding changes steps
  written_run n r e (ok b, w) log p = cc (e, p)
  written_run n r e (err x, w) log p = inl p

  unread : (n : ℕ) (log : List Event) → At (suc n) log → Near n log
  unread n log p = inr p

  replaces :
      (n : ℕ) (c : RecordCapability) (r : SessionRecord) (bytes : Bytes)
      → stage r.payload ≡ n
      → Ensures
          (On (At n))
          (Store.replace_record_capability h c r bytes)
          (λ _. On (At (suc n)))
          (On (Near n))
  unfolding Store.replace_record_capability note_ok
  replaces n c r bytes e =
      bind
        (map_errored _ (record {
          run = λ w p.
              written_run n r e (h.replace_bound c.basename bytes c.binding w.outside) w.log p;
        }))
        λ b. Stays.capabilities h (At (suc n)) (Near n) (unread n) _ b

  undone_run :
      (A : Type 0) (Q : A → World W Event → Type 0) (n : ℕ)
      → n ≤ 2
      → (t : CreateTxn) (e : Error) (w : World W Event) → Near n w.log
      → Holds Q (On (Unfinished l)) (Transaction.abort h {A = A} t e w)
  undone_run A Q n b t e w (inl p) =
      (weaken (λ w p. p) (λ a w p. absurd p) (λ w p. unfinished n (omega arith) w.log p)
          (aborts n t e)).run
        w p
  undone_run A Q n b t e w (inr p) =
      (weaken (λ w p. p) (λ a w p. absurd p) (λ w p. unfinished (suc n) (omega arith) w.log p)
          (aborts (suc n) t e)).run
        w p

  -- A part that ends with the write of the next record, inside the transaction.
  advances :
      {A : Type 0} (n : ℕ)
      → n ≤ 2
      → (t : CreateTxn) {m : M W Event A}
      → Ensures (On (At n)) m (λ _. On (At (suc n))) (On (Near n))
      → Ensures (On (At n)) (Transaction.within h t m) (λ _. On (At (suc n))) (On (Unfinished l))
  unfolding Transaction.within
  advances {A = A} n b t stays =
      recovered stays λ e. record { run = λ w p. undone_run A (λ _. On (At (suc n))) n b t e w p }

  at_first : (n : ℕ) (log : List Event) → At n log → Near n log
  at_first n log p = inl p

  enters :
      (t : CreateTxn)
      → Ensures (On (At 1)) (Materialize.enter h f s t) (λ _. On (At 2)) (On (Near 1))
  unfolding Materialize.enter Materialize.materializing_record stage
  enters t =
      bind (Stays.lifts h (At 1) (Near 1) (at_first 1) _)
        λ bytes. replaces 1 t.capability _ bytes refl

  leaves :
      (t : CreateTxn) (r : SessionRecord) (root_path target : Bytes) (common : ℕ) (built : ℕ × _)
      → Ensures
          (On (At 2))
          (Materialize.leave h f s t r root_path target common built)
          (λ _. On (At 3))
          (On (Near 2))
  unfolding Materialize.leave stage
  leaves t r root_path target common (worktree, receipt) =
      bind (Stays.silents h (At 2) (Near 2) (at_first 2) _) λ i.
        seq (Stays.lifts h (At 2) (Near 2) (at_first 2) _) (
          seq (Keeps.binds_path h f (At 2) (Near 2) (at_first 2) _ _ _) (
            bind (Stays.silents h (At 2) (Near 2) (at_first 2) _) λ j.
              bind (Keeps.metadata h f (At 2) (Near 2) (at_first 2) (commanded 2) _ _ _ _ _) λ git.
                bind (Stays.lifts h (At 2) (Near 2) (at_first 2) _)
                  λ bytes. replaces 2 t.capability _ bytes refl))

  pub builds :
      (t : CreateTxn) (a : Authority) (template : Template) (root_path target base : Bytes)
      → Ensures
          (On (At 1))
          (Materialize.materialize_session h f s t a template root_path target base)
          (λ _. On (At 3))
          (On (Unfinished l))
  unfolding Materialize.materialize_session
  builds t a template root_path target base =
      bind (advances 1 (omega arith) t (enters t)) λ entered.
        bind
          (holds 2 (omega arith) _
            (Keeps.builds_common h f (At 2) (At 2) (same 2) (commanded 2) s _ a root_path))
          λ common.
            bind
              (holds 2 (omega arith) _ (
                Keeps.builds_worktree h f (At 2) (At 2) (same 2) (commanded 2) s _ template
                  root_path target base))
              λ built.
                seq
                  (holds 2 (omega arith) _ (
                    Keeps.settles_trees h f (At 2) (At 2) (same 2) (commanded 2) s _ root_path
                      common built.0))
                  (bind
                    (holds 2 (omega arith) _ (Stays.revalidates h (At 2) (At 2) (same 2) entered))
                    λ current.
                      bind (advances 2 (omega arith) _ (leaves _ _ root_path target common built))
                        λ done. pured _ (λ w p. p))

  Near-Unfinished : (n : ℕ) → n ≤ 2 → (log : List Event) → Near n log → Unfinished l log
  Near-Unfinished n b log (inl p) = open_end n (omega arith) log p
  Near-Unfinished n b log (inr p) = open_end (suc n) (omega arith) log p

  pub begins :
      (basename : Bytes) (r : SessionRecord) (bytes : Bytes)
      → stage r.payload ≡ 0
      → Ensures
          (On (At 0))
          (Materialize.create_record_capability h f s basename r bytes)
          (λ _. On (At 1))
          (On (Unfinished l))
  unfolding Materialize.create_record_capability note_ok
  begins basename r bytes e =
      weaken (λ w p. p) (λ a w p. p) (λ w p. Near-Unfinished 0 (omega arith) w.log p)
        (bind
          (record {
            run = λ w p. written_run 0 r e (s.create_bound basename bytes w.outside) w.log p;
          })
          λ b. Stays.capabilities h (At 1) (Near 0) (unread 0) _ b)
