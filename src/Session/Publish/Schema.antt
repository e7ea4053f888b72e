-- ===== src/Session/Publish/Schema.antt =====
-- How a publication treats the log, once for all properties of it: if `P` survives all that comes
-- before the branch update, `Q` all that comes after, and `Q` holds right after an update that its
-- record announces, then `publish` leads from `P` to `Q`.
use git_vws.Authority.Identity.{Authority}
use git_vws.Effect.{
  M, note, note_ok, noted_ok, Holds, Ensures, bind, seq, lifted, given, map_errored, branch, weaken,
}
use git_vws.Session.Journal.{
  Frozen, PublishJournal, idle, prepared, objects_imported, cas_attempted, cas_committed, fields,
}
use git_vws.Session.Types.{SessionRecord}
use git_vws.Session.Validate.{validate_record}
use git_vws.Session.Host.{
  Invocation, RecordBinding, RecordCapability, SessionContext, ReadySession, Event, ran, wrote,
  Host,
}
use git_vws.Session.Commands
use git_vws.Session.Store
use git_vws.Session.Publish
use git_vws.Session.Publish.Stays
use git_vws.Session.Publish.Walk
use git_vws.Session.Publish.Stays.{On, is_update}
use git_vws.Base.{
  ◌≡◌, refl, sym, subst, false, Option, none, some, List, ◌∷◌, arith, ◌==◌, nat_Eq, string_Eq,
  Bytes-discrete, bytes_Eq, option_bytes_Eq, option_nat_Eq, Bytes, Result, ok, err,
}

-- `inv` is the update of a branch that the record `r` announces.
unfoldable pub Announces : {W : Type 0} → Host W → SessionRecord → Invocation → Type 0
Announces h r inv =
    (a : Authority) × (target : Bytes) × (f : Frozen) × (r.journal ≡ cas_attempted f)
    × (Publish.frozen_publish_fields h a r target ≡ ok f)
    × (inv ≡ Commands.update_ref a target f.new f.expected_old)

module _ {W : Type 0} (h : Host W) (P Q : List Event → Type 0)
    (sub : (log : List Event) → P log → Q log)
    (quiet : (inv : Invocation) (log : List Event)
      → is_update inv ≡ false
      → P log
      → P (ran inv ∷ log))
    (quiet_after : (inv : Invocation) (log : List Event)
      → is_update inv ≡ false
      → Q log
      → Q (ran inv ∷ log))
    (writes : (r : SessionRecord) (log : List Event)
      → validate_record h.me h.digest r ≡ ok tt
      → P log
      → P (wrote r ∷ log))
    (writes_after : (r : SessionRecord) (log : List Event)
      → validate_record h.me h.digest r ≡ ok tt
      → Q log
      → Q (wrote r ∷ log))
    (cas : (r : SessionRecord) (inv : Invocation) (log : List Event)
      → validate_record h.me h.digest r ≡ ok tt
      → Announces h r inv
      → P log
      → Q (ran inv ∷ (wrote r ∷ log))) where
  abbrev pub Leads : {A : Type 0} → M W Event A → Type 0
  Leads m = Ensures (On P) m (λ _. On Q) (On Q)

  -- The log ends with the write of a valid record `r`, and `P` held before.
  abbrev Written : SessionRecord → List Event → Type 0
  Written r log =
      (rest : List Event) × (log ≡ wrote r ∷ rest)
      × (validate_record h.me h.digest r ≡ ok tt)
      × P rest

  written_fails : (r : SessionRecord) (log : List Event) → Written r log → Q log
  written_fails r log (rest, e, v, p) = subst Q (sym e) (sub (wrote r ∷ rest) (writes r rest v p))

  announce_run :
      (r : SessionRecord)
      → validate_record h.me h.digest r ≡ ok tt
      → (s : Result RecordBinding × W) (log : List Event) → P log
      → Holds (λ _. On (Written r)) (On Q) (noted_ok (wrote r) log s)
  announce_run r v (ok b, w) log p = (log, refl, v, p)
  announce_run r v (err e, w) log p = sub log p

  announces :
      (c : RecordCapability) (r : SessionRecord) (bytes : Bytes)
      → validate_record h.me h.digest r ≡ ok tt
      → Ensures (On P) (Store.replace_record_capability h c r bytes) (λ _. On (Written r)) (On Q)
  unfolding Store.replace_record_capability note_ok
  announces c r bytes v =
      bind
        (map_errored _ (record {
          run = λ w p.
              announce_run r v (h.replace_bound c.basename bytes c.binding w.outside) w.log p;
        }))
        λ b. Stays.capabilities h (Written r) Q (written_fails r) _ b

  abbrev attempted_record : RecordCapability → Frozen → SessionRecord
  attempted_record c f = record (c.session_record) { journal = cas_attempted f }

  journaled :
      (c : RecordCapability) (f : Frozen)
      → Ensures
          (On P)
          (Publish.replace_publish_journal h c (cas_attempted f))
          (λ _. On (Written (attempted_record c f)))
          (On Q)
  unfolding Publish.replace_publish_journal
  journaled c f =
      bind (lifted _ (λ b w e p. (p, e)) (λ w p. sub w.log p))
        λ b. given λ e. announces c _ b (Stays.encode_validates h P Q sub quiet writes _ b e)

  updated_run :
      {A : Type 0} (r : SessionRecord) (inv : Invocation)
      → Announces h r inv
      → (s : Result A × W) (log : List Event) → Written r log
      → Holds (λ _. On Q) (On Q) (s.0, record { outside = s.1; log = ran inv ∷ log })
  updated_run r inv n (ok a, w) log (rest, e, v, p) =
      subst (λ l. Q (ran inv ∷ l)) (sym e) (cas r inv rest v n p)
  updated_run r inv n (err x, w) log (rest, e, v, p) =
      subst (λ l. Q (ran inv ∷ l)) (sym e) (cas r inv rest v n p)

  updates :
      (r : SessionRecord) (a : Authority) (target : Bytes) (f : Frozen)
      → Announces h r (Commands.update_ref a target f.new f.expected_old)
      → Ensures
          (On (Written r))
          (Commands.update_publish_ref h a target f.new f.expected_old)
          (λ _. On Q)
          (On Q)
  unfolding Commands.update_publish_ref Commands.command note
  updates r a target f n =
      map_errored _ (record { run = λ w p. updated_run r _ n (h.capture _ w.outside) w.log p })

  -- The record that announces the update is bound to it as the one before was.
  rechecked :
      (a : Authority) (r : SessionRecord) (target : Bytes) (f : Frozen) (o : Option Frozen)
      → Publish.frozen_from h a r target o ≡ ok f
      → Publish.frozen_from h a r target (some f) ≡ ok f
  unfolding Publish.frozen_from Bytes-discrete Publish.publish_txid Publish.txid_fields
  rechecked a r target f none e = ground arith
  rechecked a r target f (some g) e = ground arith

  refrozen :
      (a : Authority) (r : SessionRecord) (target : Bytes) (f : Frozen)
      → Publish.frozen_publish_fields h a r target ≡ ok f
      → Publish.frozen_publish_fields h a (record r { journal = cas_attempted f }) target ≡ ok f
  unfolding Publish.frozen_publish_fields Publish.publish_txid Publish.txid_fields
      Publish.frozen_from
  refrozen a r target f e = rechecked a r target f (fields r.journal) e

  attempts :
      (context : SessionContext) (c : RecordCapability) (target : Bytes) (f : Frozen)
      → Publish.frozen_publish_fields h context.authority c.session_record target ≡ ok f
      → Leads (Publish.attempt h context c target f)
  unfolding Publish.attempt Announces
  attempts context c target f e =
      seq (Stays.unchecked_out h P Q sub quiet context.authority target) (
        bind (map_errored _ (journaled c f)) λ attempted.
          bind
            (map_errored _ (
              updates (attempted_record c f) context.authority target f (
                context.authority,
                target,
                f,
                refl,
                refrozen context.authority c.session_record target f e,
                refl,
              )))
            λ o.
              Stays.settles h Q Q (λ log q. q) quiet_after writes_after context attempted target f
                o)

  pub calm : {A : Type 0} {m : M W Event A} → Stays.Stays P Q m → Leads m
  calm s = weaken (λ w p. p) (λ a w p. sub w.log p) (λ w q. q) s

  aborts : (c : RecordCapability) → Leads (Publish.abort_publish_conflict h c)
  aborts c = calm (Stays.aborts h P Q sub quiet writes c)

  publish_same-Stays :
      (context : SessionContext) (c : RecordCapability) (target common new config : Bytes)
      → Stays.Stays P Q (Publish.publish_same h context c target common new config)
  unfolding Publish.publish_same
  publish_same-Stays context c target common new config =
      seq (Stays.closures h P Q sub quiet context.authority _) (
        bind (Stays.audits h P Q sub quiet context.authority) λ current.
          seq (Stays.lifts h P Q sub _) (
            seq (Stays.validates h P Q sub quiet context.authority target) (
              seq (Stays.ensures_private h P Q sub quiet common target _ _) (
                seq (Stays.expected_olds h P Q sub quiet context.authority target _)
                  (Stays.pures h P Q sub _)))))

  publish_idle-Leads :
      (context : SessionContext) (c : RecordCapability) (target common : Bytes)
      → Leads (Publish.publish_idle h context c target common)
  unfolding Publish.publish_idle
  publish_idle-Leads context c target common =
      bind (Stays.audits h P Q sub quiet context.authority) λ config.
        seq (Stays.validates h P Q sub quiet context.authority target) (
          bind (Stays.authority_targets h P Q sub quiet context.authority target) λ old.
            bind (Stays.private_targets h P Q sub quiet common target _) λ new.
              seq (Stays.relations h P Q sub quiet common _ _) (
                branch (old == some new)
                  (λ _. calm (publish_same-Stays context c target common new config))
                  (λ _.
                    Walk.leads_prepare h P (λ a. Q) Q sub quiet writes attempts aborts context c
                      target common
                      (record {
                        txid =
                            Publish.publish_txid h context.authority c.session_record target old new
                              config;
                        new = new;
                        expected_old = old;
                        config_fingerprint = config;
                      }))))

  publish_from-Leads :
      (j : PublishJournal) (context : SessionContext) (c : RecordCapability) (target common : Bytes)
      → Leads (Publish.publish_from h j context c target common)
  unfolding Publish.publish_from
  publish_from-Leads idle context c target common = publish_idle-Leads context c target common
  publish_from-Leads (prepared f) context c target common =
      Walk.leads_prepared h P (λ a. Q) Q sub quiet writes attempts aborts context c target common
  publish_from-Leads (objects_imported f) context c target common =
      Walk.leads_objects_imported h P (λ a. Q) Q sub quiet writes attempts aborts context c target
        common
  publish_from-Leads (cas_attempted f) context c target common =
      calm (bind (Stays.lifts h P Q sub _) λ g. Stays.lifts h P Q sub _)
  publish_from-Leads (cas_committed f) context c target common =
      calm (Stays.finalizes h P Q sub quiet writes context c target)

  pub publish_leased-Leads :
      (context : SessionContext) (c : RecordCapability) (loaded : ReadySession)
      → Leads (Publish.publish_leased h context c loaded)
  unfolding Publish.publish_leased
  publish_leased-Leads context c loaded =
      bind (Stays.lifts h P Q sub _) λ target. publish_from-Leads _ context c target _

  pub leads :
      (repository : Bytes) (raw_name name_hex : Option Bytes)
      → Leads (Publish.publish h repository raw_name name_hex)
  unfolding Publish.publish
  leads repository raw_name name_hex = bind (Stays.lifts h P Q sub _) λ name.
      bind (Stays.contexts h P Q sub repository) λ context.
        bind (Stays.requires h P Q sub _ context.authority) λ c.
          bind (Stays.loads_capability h P Q sub context c) λ loaded.
            seq (Stays.silents h P Q sub _) (
              bind (Stays.revalidates_lease h P Q sub context c loaded)
                λ current. publish_leased-Leads context current loaded)
