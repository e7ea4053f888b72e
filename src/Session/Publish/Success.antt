-- ===== src/Session/Publish/Success.antt =====
-- What a publication that succeeds has done.
use git_vws.Effect.{
  World, M, note_ok, noted_ok, Holds, Ensures, bind, seq, lifted, pured, map_errored, branch,
  weaken,
}
use git_vws.Session.Journal.{
  Frozen, PublishJournal, idle, prepared, objects_imported, cas_attempted, cas_committed, is_idle,
}
use git_vws.Session.Types.{SessionRecord}
use git_vws.Session.Validate.{validate_record}
use git_vws.Session.Host.{
  Invocation, Output, success, RecordBinding, RecordCapability, SessionContext, ReadySession, Event,
  ran, wrote, removed, executed, loose_collected, destroyed, Host,
}
use git_vws.Session.Store
use git_vws.Session.Commands
use git_vws.Session.Publish
use git_vws.Session.Publish.Stays
use git_vws.Session.Publish.Walk
use git_vws.Session.Publish.Stays.{On, is_update}
use git_vws.Base.{
  ℕ, suc, ◌≡◌, refl, subst, ◌⊎◌, inl, inr, true, false, some, List, [], ◌∷◌, ◌==◌, nat_Eq,
  string_Eq, bytes_Eq, option_bytes_Eq, option_nat_Eq, Bytes, Result, ok, err, ok-injective,
}

-- The record writes in a log.
unfoldable pub writes : List Event → ℕ
writes [] = 0
writes (wrote r ∷ log) = suc (writes log)
writes (ran inv ∷ log) = writes log
writes (removed name ∷ log) = writes log
writes (executed name args ∷ log) = writes log
writes (loose_collected name ∷ log) = writes log
writes (destroyed name ∷ log) = writes log

-- A publication ended with the line `line`: its last act was to write a record without a journal
-- that expects the published commit, which the line names.
unfoldable pub Settled : Bytes → List Event → Type 0
Settled line log =
    (r : SessionRecord) × (rest : List Event) × (new : Bytes) × (named : SessionRecord) × (log
      ≡ wrote r ∷ rest)
    × (r.journal ≡ idle)
    × (r.expected_old ≡ some new)
    × (line ≡ Publish.publish_success named new)

-- It ended without a write: the target was already where the session is.
unfoldable pub Unchanged : ℕ → PublishJournal → List Event → Type 0
Unchanged n j log = (writes log ≡ n) × (is_idle j ≡ true)

abbrev Always : List Event → Type 0
Always log = Unit {0}

abbrev Cleared : Bytes → List Event → Type 0
Cleared new log =
    (r : SessionRecord) × (rest : List Event) × (log ≡ wrote r ∷ rest)
    × (r.journal ≡ idle)
    × (r.expected_old ≡ some new)

module _ {W : Type 0} (h : Host W) where
  abbrev Ends : M W Event Bytes → Type 0
  Ends m = Ensures (On Always) m (λ a. On (Settled a)) (On Always)

  noted-Cleared :
      (r : SessionRecord) (new : Bytes)
      → r.journal ≡ idle
      → r.expected_old ≡ some new
      → (s : Result RecordBinding × W) (log : List Event)
      → Holds (λ _. On (Cleared new)) (On Always) (noted_ok (wrote r) log s)
  noted-Cleared r new j x (ok b, w) log = (r, log, refl, j, x)
  noted-Cleared r new j x (err e, w) log = tt

  clears :
      (c : RecordCapability) (r : SessionRecord) (new bytes : Bytes)
      → r.journal ≡ idle
      → r.expected_old ≡ some new
      → Ensures
          (On Always)
          (Store.replace_record_capability h c r bytes)
          (λ _. On (Cleared new))
          (On Always)
  unfolding Store.replace_record_capability note_ok
  clears c r new bytes j x =
      bind
        (map_errored _ (record {
          run = λ w p.
              noted-Cleared r new j x (h.replace_bound c.basename bytes c.binding w.outside) w.log;
        }))
        λ b. Stays.capabilities h (Cleared new) Always (λ log p. tt) _ b

  finish_clears :
      (c : RecordCapability) (new : Bytes)
      → Ensures
          (On Always)
          (Publish.finish_publish_journal h c (some new))
          (λ _. On (Cleared new))
          (On Always)
  unfolding Publish.finish_publish_journal
  finish_clears c new = bind (lifted _ (λ b w e p. tt) (λ w p. tt)) λ b. clears c _ new b refl refl

  finalize-Ends :
      (context : SessionContext) (c : RecordCapability) (target : Bytes)
      → Ends (Publish.finalize_committed_publish h context c target)
  unfolding Publish.finalize_committed_publish Settled
  finalize-Ends context c target = bind (lifted _ (λ f w e p. tt) (λ w p. tt)) λ f.
      bind (map_errored _ (finish_clears c f.new)) λ finished.
        pured _ (λ w (r, rest, e, j, x). (r, rest, f.new, finished.session_record, e, j, x, refl))

  abbrev through_run :
      (inv : Invocation) (log : List Event)
      → is_update inv ≡ false
      → Always log
      → Always (ran inv ∷ log)
  through_run inv log q p = tt

  abbrev through_write :
      (r : SessionRecord) (log : List Event)
      → validate_record h.me h.digest r ≡ ok tt
      → Always log
      → Always (wrote r ∷ log)
  through_write r log v p = tt

  abbrev anyway : (log : List Event) → Always log → Always log
  anyway log p = tt

  abort-Ends : (c : RecordCapability) → Ends (Publish.abort_publish_conflict h c)
  unfolding Publish.abort_publish_conflict
  abort-Ends c =
      bind (map_errored _ (Stays.journals h Always Always anyway through_run through_write c idle))
        λ done. lifted _ (λ a w e p. absurd (cc)) (λ w p. tt)

  settle-Ends :
      (context : SessionContext) (c : RecordCapability) (target : Bytes) (f : Frozen) (o : Output)
      → Ends (Publish.settle h context c target f o)
  unfolding Publish.settle
  settle-Ends context c target f o =
      branch (success o)
        (λ _.
          bind
            (map_errored _
              (Stays.journals h Always Always anyway through_run through_write c (cas_committed f)))
            λ d. finalize-Ends context d target)
        (λ _. lifted _ (λ a w e p. absurd (cc)) (λ w p. tt))

  update_any : {A : Type 0} (s : Result A × World W Event) → Holds (λ _. On Always) (On Always) s
  update_any (ok a, w) = tt
  update_any (err e, w) = tt

  attempt-Ends :
      (context : SessionContext) (c : RecordCapability) (target : Bytes) (f : Frozen)
      → Ends (Publish.attempt h context c target f)
  unfolding Publish.attempt
  attempt-Ends context c target f =
      seq (Stays.unchecked_out h Always Always anyway through_run context.authority target) (
        bind
          (map_errored _
            (Stays.journals h Always Always anyway through_run through_write c (cas_attempted f)))
          λ attempted.
            bind
              (map_errored _ (record {
                run = λ w p.
                    update_any (
                      Commands.update_publish_ref h context.authority target f.new f.expected_old
                        w);
              }))
              λ o. settle-Ends context attempted target f o)

  -- Where every way leads that starts from `idle`, or from a journal.
  abbrev Done : ℕ → PublishJournal → M W Event Bytes → Type 0
  Done n j m =
      Ensures (On (λ log. writes log ≡ n)) m (λ a w. Settled a w.log ⊎ Unchanged n j w.log)
        (On Always)

  settled : (n : ℕ) (j : PublishJournal) {m : M W Event Bytes} → Ends m → Done n j m
  settled n j e = weaken (λ w p. tt) (λ a w s. inl s) (λ w q. tt) e

  quiet_writes :
      (n : ℕ) (inv : Invocation) (log : List Event)
      → is_update inv ≡ false
      → writes log ≡ n
      → writes (ran inv ∷ log) ≡ n
  unfolding writes
  quiet_writes n inv log q p = p

  publish_same-Stays :
      (n : ℕ) (context : SessionContext) (c : RecordCapability) (target common new config : Bytes)
      → Stays.Stays
          (λ log. writes log ≡ n)
          Always
          (Publish.publish_same h context c target common new config)
  unfolding Publish.publish_same
  publish_same-Stays n context c target common new config =
      seq (Stays.closures h _ Always (λ log p. tt) (quiet_writes n) context.authority _) (
        bind (Stays.audits h _ Always (λ log p. tt) (quiet_writes n) context.authority) λ current.
          seq (Stays.lifts h _ Always (λ log p. tt) _) (
            seq (Stays.validates h _ Always (λ log p. tt) (quiet_writes n) context.authority target)
              (seq
                (Stays.ensures_private h _ Always (λ log p. tt) (quiet_writes n) common target _ _)
                (seq
                  (Stays.expected_olds h _ Always (λ log p. tt) (quiet_writes n) context.authority
                    target _)
                  (Stays.pures h _ Always (λ log p. tt) _)))))

  publish_idle-Done :
      (n : ℕ) (context : SessionContext) (c : RecordCapability) (target common : Bytes)
      → Done n idle (Publish.publish_idle h context c target common)
  unfolding Publish.publish_idle Unchanged
  publish_idle-Done n context c target common =
      bind (Stays.audits h _ Always (λ log p. tt) (quiet_writes n) context.authority) λ config.
        seq (Stays.validates h _ Always (λ log p. tt) (quiet_writes n) context.authority target) (
          bind
            (Stays.authority_targets h _ Always (λ log p. tt) (quiet_writes n) context.authority
              target)
            λ old.
              bind (Stays.private_targets h _ Always (λ log p. tt) (quiet_writes n) common target _)
                λ new. seq (Stays.relations h _ Always (λ log p. tt) (quiet_writes n) common _ _) (
                  branch (old == some new)
                    (λ _.
                      weaken (λ w p. p) (λ a w p. inr (p, refl)) (λ w q. q)
                        (publish_same-Stays n context c target common new config))
                    (λ _. settled n idle (
                      Walk.leads_prepare h Always Settled Always anyway through_run through_write
                        (λ context c target f e. attempt-Ends context c target f) abort-Ends context
                        c target common
                        (record {
                          txid =
                              Publish.publish_txid h context.authority c.session_record target old
                                new config;
                          new = new;
                          expected_old = old;
                          config_fingerprint = config;
                        })))))

  publish_from-Done :
      (n : ℕ) (j : PublishJournal) (context : SessionContext) (c : RecordCapability)
      (target common : Bytes)
      → Done n j (Publish.publish_from h j context c target common)
  unfolding Publish.publish_from
  publish_from-Done n idle context c target common = publish_idle-Done n context c target common
  publish_from-Done n (prepared f) context c target common = settled n _ (
      Walk.leads_prepared h Always Settled Always anyway through_run through_write
        (λ context c target f e. attempt-Ends context c target f) abort-Ends context c target
        common)
  publish_from-Done n (objects_imported f) context c target common = settled n _ (
      Walk.leads_objects_imported h Always Settled Always anyway through_run through_write
        (λ context c target f e. attempt-Ends context c target f) abort-Ends context c target
        common)
  publish_from-Done n (cas_attempted f) context c target common =
      bind (lifted _ (λ g w e p. tt) (λ w p. tt)) λ g. lifted _ (λ a w e p. absurd (cc)) (λ w p. tt)
  publish_from-Done n (cas_committed f) context c target common =
      settled n _ (finalize-Ends context c target)

  publish_leased-Done :
      (n : ℕ) (context : SessionContext) (c : RecordCapability) (loaded : ReadySession)
      → Done n c.session_record.journal (Publish.publish_leased h context c loaded)
  unfolding Publish.publish_leased
  publish_leased-Done n context c loaded =
      bind (lifted _ (λ t w e p. p) (λ w p. tt)) λ target. publish_from-Done n _ context c target _

  on_success :
      {A : Type 0} (Q : A → World W Event → Type 0) (s : Result A × World W Event) (a : A)
      → s.0 ≡ ok a
      → Holds Q (On Always) s
      → Q a s.1
  on_success Q (ok b, w) a e q = subst (λ k. Q k w) (ok-injective e) q
  on_success Q (err x, w) a e q = absurd (cc)

  -- A publication that succeeds with a line has either ended by writing a record with an idle
  -- journal that expects the commit named in the line, or the journal was idle and nothing was
  -- written at all.
  pub publish_leased-success :
      (context : SessionContext) (c : RecordCapability) (loaded : ReadySession) (w : World W Event)
      (line : Bytes)
      → (Publish.publish_leased h context c loaded w).0 ≡ ok line
      → Settled line ((Publish.publish_leased h context c loaded w).1.log)
        ⊎ Unchanged
            (writes w.log)
            c.session_record.journal
            ((Publish.publish_leased h context c loaded w).1.log)
  publish_leased-success context c loaded w line e =
      on_success (λ a v. Settled a v.log ⊎ Unchanged (writes w.log) c.session_record.journal v.log)
        (Publish.publish_leased h context c loaded w) line e
        ((publish_leased-Done (writes w.log) context c loaded).run w refl)
