-- ===== src/Session/Publish/Stays.antt =====
-- What the parts of a publication leave in the log. A predicate `P` of the log survives a part that
-- runs only commands other than the branch update and that writes only valid records; `E` is what is
-- promised where a part fails.
use git_vws.Authority.Identity.{Identity, Authority}
use git_vws.Effect.{
  World, M, lift, pure, note, note_ok, noted_ok, silent, Holds, Ensures, bind, seq, lifted, given,
  pured, map_errored, branch,
}
use git_vws.Session.Journal.{Frozen, PublishJournal, idle, cas_committed}
use git_vws.Session.Types.{SessionRecord}
use git_vws.Session.Validate.{validate_record, encode_record}
use git_vws.Session.Host.{
  Invocation, Output, success, RecordBinding, RecordCapability, SessionContext, ReadySession, Event,
  ran, wrote, Host,
}
use git_vws.Session.Commands
use git_vws.Session.Store
use git_vws.Session.Publish
use git_vws.Base.{
  ◌≡◌, refl, Bool, false, ◌&&◌, Option, none, some, List, ◌∷◌, ◌==◌, nat_Eq, string_Eq,
  Bytes-discrete, bytes_Eq, option_bytes_Eq, option_nat_Eq, Bytes, codes, Result, ok, err,
  >>=-eq-ok,
}

-- `git -C … update-ref …`
abbrev pub is_update : Invocation → Bool
is_update inv = elim inv.args [
  | option ∷ (directory ∷ (name ∷ rest)) ↦ option == codes "-C" && name == codes "update-ref"
  | _ ↦ false
]

abbrev pub On : {W : Type 0} → (List Event → Type 0) → World W Event → Type 0
On P w = P w.log

module _ {W : Type 0} (P E : List Event → Type 0) where
  abbrev pub Stays : {A : Type 0} → M W Event A → Type 0
  Stays m = Ensures (On P) m (λ _. On P) (On E)

module _ {W : Type 0} (h : Host W) (P E : List Event → Type 0)
    (fails : (log : List Event) → P log → E log) where
  pub lifts : {A : Type 0} (r : Result A) → Stays {W = W} P E (lift r)
  lifts r = lifted r (λ a w e p. p) (λ w p. fails w.log p)

  pub pures : {A : Type 0} (a : A) → Stays {W = W} P E (pure a)
  pures a = pured a (λ w p. p)

  pub silent_run :
      {A : Type 0} (s : Result A × W) (log : List Event)
      → P log
      → Holds (λ _. On P) (On E) (s.0, record { outside = s.1; log = log })
  silent_run (ok a, w) log p = p
  silent_run (err e, w) log p = fails log p

  pub silents : {A : Type 0} (op : W → Result A × W) → Stays P E (silent op)
  unfolding silent
  silents op = record { run = λ w p. silent_run (op w.outside) w.log p }

  pub capabilities :
      (basename : Bytes) (binding : RecordBinding)
      → Stays P E (Store.capability_from_binding h basename binding)
  unfolding Store.capability_from_binding
  capabilities basename binding = bind (lifts _) λ r. seq (lifts _) (pures _)

  pub reads : (basename : Bytes) → Stays P E (Store.read_record_capability h basename)
  unfolding Store.read_record_capability
  reads basename = bind (map_errored _ (silents _)) λ b. capabilities basename b

  pub revalidates : (c : RecordCapability) → Stays P E (Store.revalidate_record h c)
  unfolding Store.revalidate_record
  revalidates c = bind (reads _) λ r. seq (lifts _) (pures _)

  checks_record :
      (authority : Authority) (c : RecordCapability)
      → Stays P E (Store.checked_record h authority c)
  unfolding Store.checked_record
  checks_record authority c = seq (lifts _) (pures _)

  presents :
      (name : Bytes) (authority : Authority) (entry : Option Identity)
      → Stays P E (Store.present_record h name authority entry)
  unfolding Store.present_record
  presents name authority none = pures _
  presents name authority (some i) = bind (reads name) (checks_record authority)

  pub optionals :
      (name : Bytes) (authority : Authority) → Stays P E (Store.optional_record h name authority)
  unfolding Store.optional_record
  optionals name authority = seq (lifts _) (bind (silents _) λ entry. presents name authority entry)

  pub requires :
      (name : Bytes) (authority : Authority) → Stays P E (Store.required_record h name authority)
  unfolding Store.required_record
  requires name authority = bind (optionals name authority) λ found. lifts _

  pub loads :
      (context : SessionContext) (r : SessionRecord)
      → Stays P E (Store.load_ready_session h context r)
  unfolding Store.load_ready_session
  loads context r = bind (lifts _) λ p. seq (lifts _) (silents _)

  pub loads_capability :
      (context : SessionContext) (c : RecordCapability)
      → Stays P E (Store.load_ready_capability h context c)
  unfolding Store.load_ready_capability
  loads_capability context c =
      bind (loads context c.session_record) λ loaded. bind (revalidates c) λ current. pures _

  nodes :
      (op : W → Result Identity × W) (expected : Identity)
      → Stays P E (Store.check_node h op expected)
  unfolding Store.check_node
  nodes op expected = bind (silents op) λ current. lifts _

  pub revalidates_lease :
      (context : SessionContext) (c : RecordCapability) (loaded : ReadySession)
      → Stays P E (Store.revalidate_ready_lease h context c loaded)
  unfolding Store.revalidate_ready_lease
  revalidates_lease context c loaded = bind (revalidates c) λ first.
      bind (loads context _) λ checked. bind (revalidates first) λ current. seq (nodes _ _) (
        seq (nodes _ _)
          (seq (nodes _ _) (seq (nodes _ _) (seq (nodes _ _) (seq (lifts _) (pures _))))))

  pub contexts : (repository : Bytes) → Stays P E (Store.session_context h repository)
  unfolding Store.session_context
  contexts repository = bind (silents _) λ found. bind (lifts _) λ path. pures _

module _ {W : Type 0} (h : Host W) (P E : List Event → Type 0)
    (fails : (log : List Event) → P log → E log)
    (quiet : (inv : Invocation) (log : List Event)
      → is_update inv ≡ false
      → P log
      → P (ran inv ∷ log)) where
  pub runs : (inv : Invocation) → is_update inv ≡ false → Stays P E (Commands.command h inv)
  unfolding Commands.command note
  runs inv q = record {
    run = λ w p.
        silent_run h P E fails (h.capture inv w.outside) (ran inv ∷ w.log) (quiet inv w.log q p);
  }

  module _ (a : Authority) where
    pub audits : Stays P E (Commands.audit_authority_config h a)
    unfolding Commands.audit_authority_config Bytes-discrete
    audits = bind (map_errored _ (runs _ refl)) λ o. seq (lifts h P E fails _) (pures h P E fails _)

    pub validates : (target : Bytes) → Stays P E (Commands.validate_publish_target h a target)
    unfolding Commands.validate_publish_target Bytes-discrete
    validates target = bind (map_errored _ (runs _ refl)) λ o. lifts h P E fails _

    pub unchecked_out :
        (target : Bytes) → Stays P E (Commands.ensure_publish_target_unchecked_out h a target)
    unfolding Commands.ensure_publish_target_unchecked_out Bytes-discrete
    unchecked_out target =
        bind (map_errored _ (runs _ refl)) λ o. seq (lifts h P E fails _) (lifts h P E fails _)

    pub authority_targets :
        (target : Bytes) → Stays P E (Commands.authority_target_commit h a target)
    unfolding Commands.authority_target_commit Bytes-discrete
    authority_targets target =
        bind (map_errored _ (runs _ refl)) λ o. seq (lifts h P E fails _) (lifts h P E fails _)

    pub expected_olds :
        (target : Bytes) (expected : Option Bytes)
        → Stays P E (Commands.ensure_authority_expected_old h a target expected)
    unfolding Commands.ensure_authority_expected_old
    expected_olds target expected = bind (authority_targets target) λ found. lifts h P E fails _

    pub imports : (common new : Bytes) → Stays P E (Commands.import_publish_objects h a common new)
    unfolding Commands.import_publish_objects Bytes-discrete
    imports common new = bind (map_errored _ (runs _ refl)) λ o. lifts h P E fails _

    pub closures : (new : Bytes) → Stays P E (Commands.verify_authority_closure h a new)
    unfolding Commands.verify_authority_closure Bytes-discrete
    closures new =
        bind (map_errored _ (runs _ refl)) λ o.
          seq (lifts h P E fails _) (bind (map_errored _ (runs _ refl)) λ c. lifts h P E fails _)

  module _ (common : Bytes) where
    pub private_targets :
        (target format : Bytes) → Stays P E (Commands.private_target_commit h common target format)
    unfolding Commands.private_target_commit Bytes-discrete
    private_targets target format =
        bind
          (bind (map_errored _ (runs _ refl)) λ o. seq (lifts h P E fails _) (lifts h P E fails _))
          λ found. lifts h P E fails _

    pub ensures_private :
        (target format expected : Bytes)
        → Stays P E (Commands.ensure_private_target h common target format expected)
    unfolding Commands.ensure_private_target
    ensures_private target format expected =
        bind (private_targets target format) λ found. lifts h P E fails _

    pub relations :
        (old : Option Bytes) (new : Bytes)
        → Stays P E (Commands.ensure_publish_relation h common old new)
    unfolding Commands.ensure_publish_relation Bytes-discrete
    relations none new = pures h P E fails tt
    relations (some old) new =
        branch (old == new) (λ _. pures h P E fails tt)
          (λ _. bind (map_errored _ (runs _ refl)) λ o. lifts h P E fails _)

module _ {W : Type 0} (h : Host W) (P E : List Event → Type 0)
    (fails : (log : List Event) → P log → E log)
    (quiet : (inv : Invocation) (log : List Event)
      → is_update inv ≡ false
      → P log
      → P (ran inv ∷ log))
    (writes : (r : SessionRecord) (log : List Event)
      → validate_record h.me h.digest r ≡ ok tt
      → P log
      → P (wrote r ∷ log)) where
  noted_run :
      (r : SessionRecord)
      → validate_record h.me h.digest r ≡ ok tt
      → (s : Result RecordBinding × W) (log : List Event) → P log
      → Holds (λ _. On P) (On E) (noted_ok (wrote r) log s)
  noted_run r v (ok b, w) log p = writes r log v p
  noted_run r v (err e, w) log p = fails log p

  -- A record is replaced by a valid one.
  pub replaces :
      (c : RecordCapability) (r : SessionRecord) (bytes : Bytes)
      → validate_record h.me h.digest r ≡ ok tt
      → Stays P E (Store.replace_record_capability h c r bytes)
  unfolding Store.replace_record_capability note_ok
  replaces c r bytes v =
      bind
        (map_errored _ (record {
          run = λ w p. noted_run r v (h.replace_bound c.basename bytes c.binding w.outside) w.log p;
        }))
        λ b. capabilities h P E fails _ b

  pub encode_validates :
      (r : SessionRecord) (bytes : Bytes)
      → encode_record h.me h.digest h.to_json r ≡ ok bytes
      → validate_record h.me h.digest r ≡ ok tt
  unfolding encode_record
  encode_validates r bytes e = (>>=-eq-ok (validate_record h.me h.digest r) _ e).1

  pub journals :
      (c : RecordCapability) (j : PublishJournal)
      → Stays P E (Publish.replace_publish_journal h c j)
  unfolding Publish.replace_publish_journal
  journals c j =
      bind (lifted _ (λ b w e p. (p, e)) (λ w p. fails w.log p))
        λ b. given λ e. replaces c _ b (encode_validates _ b e)

  pub finishes :
      (c : RecordCapability) (old : Option Bytes)
      → Stays P E (Publish.finish_publish_journal h c old)
  unfolding Publish.finish_publish_journal
  finishes c old =
      bind (lifted _ (λ b w e p. (p, e)) (λ w p. fails w.log p))
        λ b. given λ e. replaces c _ b (encode_validates _ b e)

  pub finalizes :
      (context : SessionContext) (c : RecordCapability) (target : Bytes)
      → Stays P E (Publish.finalize_committed_publish h context c target)
  unfolding Publish.finalize_committed_publish
  finalizes context c target =
      bind (lifts h P E fails _)
        λ f. bind (map_errored _ (finishes c _)) λ done. pures h P E fails _

  pub aborts : (c : RecordCapability) → Stays P E (Publish.abort_publish_conflict h c)
  unfolding Publish.abort_publish_conflict
  aborts c = bind (map_errored _ (journals c idle)) λ done. lifts h P E fails _

  pub settles :
      (context : SessionContext) (c : RecordCapability) (target : Bytes) (f : Frozen) (o : Output)
      → Stays P E (Publish.settle h context c target f o)
  unfolding Publish.settle
  settles context c target f o =
      branch (success o)
        (λ _. bind (map_errored _ (journals c (cas_committed f))) λ d. finalizes context d target)
        (λ _. lifts h P E fails _)
