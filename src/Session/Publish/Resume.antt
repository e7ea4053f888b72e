-- ===== src/Session/Publish/Resume.antt =====
-- How a publication ends, and what it does where it finds the journal of an earlier one.
use git_vws.Authority.Identity.{Authority}
use git_vws.Effect.{
  World, note_ok, noted_ok, Holds, Ensures, bind, lifted, given, pured, map_errored,
}
use git_vws.Session.Journal.{Frozen, idle, cas_attempted, cas_committed, fields}
use git_vws.Session.Types.{SessionRecord}
use git_vws.Session.Host.{
  RecordBinding, RecordCapability, SessionContext, ReadySession, Event, wrote, Host,
}
use git_vws.Session.Store
use git_vws.Session.Publish
use git_vws.Session.Publish.Stays
use git_vws.Session.Publish.Stays.{On, is_update}
use git_vws.Base.{
  ◌≡◌, refl, sym, ap, subst, ◌⊎◌, inl, inr, Option, none, some, List, ◌∷◌, ◌++◌, arith, nat_Eq,
  string_Eq, Bytes-discrete, bytes_Eq, option_bytes_Eq, option_nat_Eq, Bytes, codes, Error, Result,
  ok, err,
}

-- The record that a finished publication of `new` leaves.
unfoldable pub finished_record : SessionRecord → Bytes → SessionRecord
finished_record r new = record r { expected_old = some new; journal = idle }

abbrev Either : List Event → List Event → List Event → Type 0
Either l l' log = (log ≡ l) ⊎ (log ≡ l')

module _ {W : Type 0} (h : Host W) where
  written_once :
      (r : SessionRecord) (s : Result RecordBinding × W) (l log : List Event)
      → log ≡ l
      → Holds
          (λ _. On (λ k. k ≡ wrote r ∷ l))
          (On (Either l (wrote r ∷ l)))
          (noted_ok (wrote r) log s)
  written_once r (ok b, w) l log p = ap (λ k. wrote r ∷ k) p
  written_once r (err e, w) l log p = inl p

  -- A replacement writes its record once, if at all.
  replaces_once :
      (c : RecordCapability) (r : SessionRecord) (bytes : Bytes) (l : List Event)
      → Ensures
          (On (λ log. log ≡ l))
          (Store.replace_record_capability h c r bytes)
          (λ _. On (λ k. k ≡ wrote r ∷ l))
          (On (Either l (wrote r ∷ l)))
  unfolding Store.replace_record_capability note_ok
  replaces_once c r bytes l =
      bind
        (map_errored _ (record {
          run = λ w p.
              written_once r (h.replace_bound c.basename bytes c.binding w.outside) l w.log p;
        }))
        λ b.
          Stays.capabilities h (λ k. k ≡ wrote r ∷ l) (Either l (wrote r ∷ l)) (λ log p. inr p) _ b

  finishes_once :
      (c : RecordCapability) (new : Bytes) (l : List Event)
      → Ensures
          (On (λ log. log ≡ l))
          (Publish.finish_publish_journal h c (some new))
          (λ _. On (λ k. k ≡ wrote (finished_record c.session_record new) ∷ l))
          (On (Either l (wrote (finished_record c.session_record new) ∷ l)))
  unfolding Publish.finish_publish_journal finished_record
  finishes_once c new l = bind (lifted _ (λ b w e p. p) (λ w p. inl p)) λ b. replaces_once c _ b l

  frozen_is :
      (a : Authority) (r : SessionRecord) (target : Bytes) (o : Option Frozen) (f g : Frozen)
      → o ≡ some f
      → Publish.frozen_from h a r target o ≡ ok g
      → g ≡ f
  unfolding Publish.frozen_from Bytes-discrete
  frozen_is a r target none f g q e = ground arith
  frozen_is a r target (some k) f g q e = ground arith

  frozen_of_committed :
      (a : Authority) (r : SessionRecord) (target : Bytes) (f g : Frozen)
      → r.journal ≡ cas_committed f
      → Publish.frozen_publish_fields h a r target ≡ ok g
      → g ≡ f
  unfolding Publish.frozen_publish_fields
  frozen_of_committed a r target f g j e =
      frozen_is a r target (fields r.journal) f g (ap fields j) e

  refuses :
      (context : SessionContext) (c : RecordCapability) (target common : Bytes) (f : Frozen)
      (w : World W Event)
      → Ensures
          (λ v. v ≡ w)
          (Publish.publish_from h (cas_attempted f) context c target common)
          (λ a v. ⊥)
          (λ v. v ≡ w)
  unfolding Publish.publish_from
  refuses context c target common f w =
      bind (lifted _ (λ g v e p. p) (λ v p. p)) λ g. lifted _ (λ a v e p. cc) (λ v p. p)

  only_error :
      {A : Type 0} (w : World W Event) (s : Result A × World W Event)
      → Holds (λ a v. ⊥) (λ v. v ≡ w) s
      → (e : Error) × (s ≡ (err e, w))
  only_error w (ok a, v) p = absurd p
  only_error w (err e, v) p = (e, cc)

  refuses_leased :
      (context : SessionContext) (c : RecordCapability) (loaded : ReadySession) (f : Frozen)
      (w : World W Event)
      → c.session_record.journal ≡ cas_attempted f
      → Ensures (λ v. v ≡ w) (Publish.publish_leased h context c loaded) (λ a v. ⊥) (λ v. v ≡ w)
  unfolding Publish.publish_leased
  refuses_leased context c loaded f w j = bind (lifted _ (λ t v e p. p) (λ v p. p)) λ target.
      subst
        (λ k.
          Ensures (λ v. v ≡ w)
            (Publish.publish_from h k context c target (loaded.root_path ++ codes "/common.git"))
            (λ a v. ⊥) (λ v. v ≡ w))
        (sym j) (refuses context c target _ f w)

  -- Where the journal is `cas_attempted`, publishing fails and does nothing at all: the world is the
  -- one it started from, no Git command runs and no record is written.
  pub attempted-never_replayed :
      (context : SessionContext) (c : RecordCapability) (loaded : ReadySession) (f : Frozen)
      (w : World W Event)
      → c.session_record.journal ≡ cas_attempted f
      → (e : Error) × (Publish.publish_leased h context c loaded w ≡ (err e, w))
  attempted-never_replayed context c loaded f w j =
      only_error w (Publish.publish_leased h context c loaded w)
        ((refuses_leased context c loaded f w j).run w refl)

  finalizes_once :
      (context : SessionContext) (c : RecordCapability) (target : Bytes) (f : Frozen)
      (l : List Event)
      → c.session_record.journal ≡ cas_committed f
      → Ensures
          (On (λ log. log ≡ l))
          (Publish.finalize_committed_publish h context c target)
          (λ _. On (λ k. k ≡ wrote (finished_record c.session_record f.new) ∷ l))
          (On (Either l (wrote (finished_record c.session_record f.new) ∷ l)))
  unfolding Publish.finalize_committed_publish
  finalizes_once context c target f l j =
      bind
        (lifted _
          (λ g w e p. (p, frozen_of_committed context.authority c.session_record target f g j e))
          (λ w p. inl p))
        λ g. given λ q.
          bind
            (map_errored _ (
              subst
                (λ n.
                  Ensures (On (λ log. log ≡ l)) (Publish.finish_publish_journal h c (some n))
                    (λ _. On (λ k. k ≡ wrote (finished_record c.session_record f.new) ∷ l))
                    (On (Either l (wrote (finished_record c.session_record f.new) ∷ l))))
                (ap (λ k. k.new) (sym q)) (finishes_once c f.new l)))
            λ done. pured _ (λ w p. p)

  from_committed :
      (context : SessionContext) (c : RecordCapability) (loaded : ReadySession) (f : Frozen)
      (l : List Event)
      → c.session_record.journal ≡ cas_committed f
      → Ensures
          (On (λ log. log ≡ l))
          (Publish.publish_leased h context c loaded)
          (λ _. On (λ k. k ≡ wrote (finished_record c.session_record f.new) ∷ l))
          (On (Either l (wrote (finished_record c.session_record f.new) ∷ l)))
  unfolding Publish.publish_leased Publish.publish_from
  from_committed context c loaded f l j = bind (lifted _ (λ t w e p. p) (λ w p. inl p)) λ target.
      subst
        (λ k.
          Ensures (On (λ log. log ≡ l))
            (Publish.publish_from h k context c target (loaded.root_path ++ codes "/common.git"))
            (λ _. On (λ k. k ≡ wrote (finished_record c.session_record f.new) ∷ l))
            (On (Either l (wrote (finished_record c.session_record f.new) ∷ l))))
        (sym j) (finalizes_once context c target f l j)

  -- The log after a call: longer by the event, or on a failure perhaps unchanged.
  unfoldable pub AddsOnce : {A : Type 0} → Event → List Event → Result A × World W Event → Type 0
  AddsOnce event l (ok a, w) = w.log ≡ event ∷ l
  AddsOnce event l (err e, w) = (w.log ≡ l) ⊎ (w.log ≡ event ∷ l)

  adds_once :
      {A : Type 0} (event : Event) (l : List Event) (s : Result A × World W Event)
      → Holds (λ _. On (λ k. k ≡ event ∷ l)) (On (Either l (event ∷ l))) s
      → AddsOnce event l s
  unfolding AddsOnce
  adds_once event l (ok a, w) p = p
  adds_once event l (err e, w) p = p

  -- Where the journal is `cas_committed`, publishing runs no Git command: all it does is to write
  -- the record with an idle journal that expects the journal's commit. The write succeeds exactly
  -- once where the call succeeds, and at most once where the call fails.
  pub committed-finishes :
      (context : SessionContext) (c : RecordCapability) (loaded : ReadySession) (f : Frozen)
      (w : World W Event)
      → c.session_record.journal ≡ cas_committed f
      → AddsOnce
          (wrote (finished_record c.session_record f.new))
          w.log
          (Publish.publish_leased h context c loaded w)
  committed-finishes context c loaded f w j =
      adds_once _ w.log (Publish.publish_leased h context c loaded w)
        ((from_committed context c loaded f w.log j).run w refl)
