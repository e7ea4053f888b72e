-- ===== src/Session/Publish/Walk.antt =====
-- The way of a publication from stage to stage up to its branch update, once for every account of
-- what it leads to: `R` where it succeeds and `E` where it fails, from `P`.
use git_vws.Effect.{Ensures, bind, seq, lifted, given, map_errored, branch}
use git_vws.Session.Journal.{Frozen, prepared, objects_imported}
use git_vws.Session.Types.{SessionRecord}
use git_vws.Session.Validate.{validate_record}
use git_vws.Session.Host.{Invocation, RecordCapability, SessionContext, Event, ran, wrote, Host}
use git_vws.Session.Publish
use git_vws.Session.Publish.Stays
use git_vws.Session.Publish.Stays.{On, is_update}
use git_vws.Base.{
  ◌≡◌, false, List, ◌∷◌, nat_Eq, string_Eq, bytes_Eq, option_bytes_Eq, option_nat_Eq, Bytes, ok,
}

module _ {W : Type 0} (h : Host W) (P : List Event → Type 0) (R : Bytes → List Event → Type 0)
    (E : List Event → Type 0) (fails : (log : List Event) → P log → E log)
    (quiet : (inv : Invocation) (log : List Event)
      → is_update inv ≡ false
      → P log
      → P (ran inv ∷ log))
    (writes : (r : SessionRecord) (log : List Event)
      → validate_record h.me h.digest r ≡ ok tt
      → P log
      → P (wrote r ∷ log))
    (attempts : (context : SessionContext) (c : RecordCapability) (target : Bytes) (f : Frozen)
      → Publish.frozen_publish_fields h context.authority c.session_record target ≡ ok f
      → Ensures (On P) (Publish.attempt h context c target f) (λ a. On (R a)) (On E))
    (aborts : (c : RecordCapability)
      → Ensures (On P) (Publish.abort_publish_conflict h c) (λ a. On (R a)) (On E)) where
  pub leads_objects_imported :
      (context : SessionContext) (c : RecordCapability) (target common : Bytes)
      → Ensures
          (On P)
          (Publish.publish_objects_imported h context c target common)
          (λ a. On (R a))
          (On E)
  unfolding Publish.publish_objects_imported
  leads_objects_imported context c target common =
      bind (lifted _ (λ f w e p. (p, e)) (λ w p. fails w.log p)) λ f. given λ e.
        bind (Stays.audits h P E fails quiet context.authority) λ config.
          seq (Stays.lifts h P E fails _) (
            seq (Stays.validates h P E fails quiet context.authority target) (
              seq (Stays.ensures_private h P E fails quiet common target _ _) (
                seq (Stays.relations h P E fails quiet common _ _) (
                  seq (Stays.closures h P E fails quiet context.authority _) (
                    bind (Stays.authority_targets h P E fails quiet context.authority target)
                      λ current. branch _ (λ _. attempts context c target f e) (λ _. aborts c))))))

  leads_import :
      (context : SessionContext) (c : RecordCapability) (target common : Bytes) (f : Frozen)
      → Ensures (On P) (Publish.import h context c target common f) (λ a. On (R a)) (On E)
  unfolding Publish.import
  leads_import context c target common f =
      seq (Stays.imports h P E fails quiet context.authority common _) (
        bind (Stays.audits h P E fails quiet context.authority) λ config.
          seq (Stays.lifts h P E fails _) (
            seq (Stays.ensures_private h P E fails quiet common target _ _) (
              seq (Stays.closures h P E fails quiet context.authority _) (
                bind
                  (map_errored _ (Stays.journals h P E fails quiet writes c (objects_imported f)))
                  λ imported. leads_objects_imported context imported target common))))

  pub leads_prepared :
      (context : SessionContext) (c : RecordCapability) (target common : Bytes)
      → Ensures (On P) (Publish.publish_prepared h context c target common) (λ a. On (R a)) (On E)
  unfolding Publish.publish_prepared
  leads_prepared context c target common = bind (Stays.lifts h P E fails _) λ f.
      bind (Stays.audits h P E fails quiet context.authority) λ config.
        seq (Stays.lifts h P E fails _) (
          seq (Stays.validates h P E fails quiet context.authority target) (
            seq (Stays.unchecked_out h P E fails quiet context.authority target) (
              seq (Stays.ensures_private h P E fails quiet common target _ _) (
                seq (Stays.relations h P E fails quiet common _ _) (
                  bind (Stays.authority_targets h P E fails quiet context.authority target)
                    λ current.
                      branch _ (λ _. leads_import context c target common f) (λ _. aborts c))))))

  pub leads_prepare :
      (context : SessionContext) (c : RecordCapability) (target common : Bytes) (f : Frozen)
      → Ensures (On P) (Publish.prepare h context c target common f) (λ a. On (R a)) (On E)
  unfolding Publish.prepare
  leads_prepare context c target common f =
      seq (Stays.unchecked_out h P E fails quiet context.authority target) (
        seq (Stays.expected_olds h P E fails quiet context.authority target _) (
          bind (map_errored _ (Stays.journals h P E fails quiet writes c (prepared f)))
            λ next. leads_prepared context next target common))
