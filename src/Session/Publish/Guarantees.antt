-- ===== src/Session/Publish/Guarantees.antt =====
-- What a publication guarantees, whatever Git, the disk and other processes answer: the host is an
-- arbitrary function of its own state.
use git_vws.Effect.{World, Holds}
use git_vws.Session.Types.{SessionRecord}
use git_vws.Session.Validate.{validate_record}
use git_vws.Session.Host.{
  Invocation, Event, ran, wrote, removed, executed, loose_collected, destroyed, Host,
}
use git_vws.Session.Publish
use git_vws.Session.Publish.Stays.{On, is_update}
use git_vws.Session.Publish.Schema
use git_vws.Session.Publish.Schema.{Announces}
use git_vws.Base.{
  ℕ, suc, ◌+◌, ◌≤◌, ◌≡◌, refl, sym, ap, subst, ◌∙◌, Bool, true, false, Option, List, [], ◌∷◌, arith,
  if◌then◌else◌, nat_Eq, string_Eq, Bytes-discrete, bytes_Eq, option_bytes_Eq, option_nat_Eq, Bytes,
  Result, ok, err,
}

-- The branch updates in a log.
unfoldable pub updates : List Event → ℕ
updates [] = 0
updates (ran inv ∷ log) = if is_update inv then suc (updates log) else updates log
updates (wrote r ∷ log) = updates log
updates (removed name ∷ log) = updates log
updates (executed name args ∷ log) = updates log
updates (loose_collected name ∷ log) = updates log
updates (destroyed name ∷ log) = updates log

-- What is asked of an event if it is a branch update.
abbrev pub Asked : Bool → Type 0 → Type 0
Asked true A = A
Asked false A = Unit {0}

module _ {W : Type 0} (h : Host W) where
  -- The newest event is the write of a valid record that announces the update `inv`.
  unfoldable pub Announced : Invocation → List Event → Type 0
  Announced inv (wrote r ∷ log) = (validate_record h.me h.digest r ≡ ok tt) × Announces h r inv
  Announced inv _ = ⊥

  -- Every branch update in a log directly follows the record that announces it.
  unfoldable pub Guarded : List Event → Type 0
  unfolding Announced
  Guarded [] = Unit {0}
  Guarded (ran inv ∷ log) = Asked (is_update inv) (Announced inv log) × Guarded log
  Guarded (wrote r ∷ log) = Guarded log
  Guarded (removed name ∷ log) = Guarded log
  Guarded (executed name args ∷ log) = Guarded log
  Guarded (loose_collected name ∷ log) = Guarded log
  Guarded (destroyed name ∷ log) = Guarded log

  -- Every record in a log that was written is valid.
  unfoldable pub ValidWrites : List Event → Type 0
  ValidWrites [] = Unit {0}
  ValidWrites (wrote r ∷ log) = (validate_record h.me h.digest r ≡ ok tt) × ValidWrites log
  ValidWrites (ran inv ∷ log) = ValidWrites log
  ValidWrites (removed name ∷ log) = ValidWrites log
  ValidWrites (executed name args ∷ log) = ValidWrites log
  ValidWrites (loose_collected name ∷ log) = ValidWrites log
  ValidWrites (destroyed name ∷ log) = ValidWrites log

  either_way :
      {A : Type 0} (Q : List Event → Type 0) (s : Result A × World W Event)
      → Holds (λ _. On Q) (On Q) s
      → Q (s.1.log)
  either_way Q (ok a, w) q = q
  either_way Q (err e, w) q = q

  asked : {A : Type 0} (b : Bool) → A → Asked b A
  asked true a = a
  asked false a = tt

  quiet-Guarded :
      (inv : Invocation) (log : List Event)
      → is_update inv ≡ false
      → Guarded log
      → Guarded (ran inv ∷ log)
  unfolding Guarded
  quiet-Guarded inv log q g = (subst (λ b. Asked b (Announced inv log)) (sym q) tt, g)

  -- From a log where every branch update is announced, `publish` leads to such a log, whether it
  -- succeeds or not and whatever the host answers: directly before each `update-ref` it has written
  -- a valid record whose journal is `cas_attempted`, with the transaction that the record is bound
  -- to and the very old and new commits of the update.
  pub publish-Guarded :
      (repository : Bytes) (raw_name name_hex : Option Bytes) (w : World W Event)
      → Guarded w.log
      → Guarded ((Publish.publish h repository raw_name name_hex w).1.log)
  unfolding Guarded Announced
  publish-Guarded repository raw_name name_hex w g =
      either_way Guarded (Publish.publish h repository raw_name name_hex w) (
        (Schema.leads h Guarded Guarded (λ log p. p) quiet-Guarded quiet-Guarded (λ r log v p. p)
            (λ r log v p. p) (λ r inv log v n p. (asked (is_update inv) (v, n), p)) repository
            raw_name name_hex).run
          w g)

  quiet-updates :
      (inv : Invocation) (log : List Event)
      → is_update inv ≡ false
      → updates (ran inv ∷ log) ≡ updates log
  unfolding updates Bytes-discrete
  quiet-updates inv log q = ap (λ b. if b then suc (updates log) else updates log) q

  updates_step : (b : Bool) (n : ℕ) → (if b then suc n else n) ≤ n + 1
  updates_step true n = omega arith
  updates_step false n = omega arith

  one_more :
      (n : ℕ) (inv : Invocation) (r : SessionRecord) (log : List Event)
      → updates log ≡ n
      → updates (ran inv ∷ (wrote r ∷ log)) ≤ n + 1
  unfolding updates Bytes-discrete
  one_more n inv r log p =
      subst (λ m. (if is_update inv then suc (updates log) else updates log) ≤ m + 1) p
        (updates_step (is_update inv) (updates log))

  -- A call of `publish` asks Git for at most one branch update, whatever the host answers.
  pub publish-updates :
      (repository : Bytes) (raw_name name_hex : Option Bytes) (w : World W Event)
      → updates ((Publish.publish h repository raw_name name_hex w).1.log) ≤ updates w.log + 1
  unfolding updates
  publish-updates repository raw_name name_hex w =
      either_way (λ log. updates log ≤ updates w.log + 1)
        (Publish.publish h repository raw_name name_hex w)
        ((Schema.leads h (λ log. updates log ≡ updates w.log)
            (λ log. updates log ≤ updates w.log + 1) (λ log p. omega arith)
            (λ inv log q p. quiet-updates inv log q ∙ p)
            (λ inv log q p. subst (λ m. m ≤ updates w.log + 1) (sym (quiet-updates inv log q)) p)
            (λ r log v p. p) (λ r log v p. p)
            (λ r inv log v n p. one_more (updates w.log) inv r log p) repository raw_name
            name_hex).run
          w refl)

  -- From a log where every record written is valid, `publish` leads to such a log, whether it
  -- succeeds or not and whatever the host answers.
  pub publish-ValidWrites :
      (repository : Bytes) (raw_name name_hex : Option Bytes) (w : World W Event)
      → ValidWrites w.log
      → ValidWrites ((Publish.publish h repository raw_name name_hex w).1.log)
  unfolding ValidWrites
  publish-ValidWrites repository raw_name name_hex w g =
      either_way ValidWrites (Publish.publish h repository raw_name name_hex w) (
        (Schema.leads h ValidWrites ValidWrites (λ log p. p) (λ inv log q p. p) (λ inv log q p. p)
            (λ r log v p. (v, p)) (λ r log v p. (v, p)) (λ r inv log v n p. (v, p)) repository
            raw_name name_hex).run
          w g)
