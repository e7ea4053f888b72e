-- ===== src/Session/Create/Stages.antt =====
-- The changes that a `create` makes, in their order, whatever the host answers.
use git_vws.Authority.Identity.{Identity, Authority}
use git_vws.Effect.{
  World, M, lift, Holds, Ensures, bind, seq, lifted, pured, branch, weaken, given, witnessed,
}
use git_vws.Session.Types.{SessionRecord, SessionPayload, ReadyPayload, session_record_Eq}
use git_vws.Session.Host.{RecordCapability, SessionContext, Event, Host}
use git_vws.Session.Names.{record_name}
use git_vws.Session.Store
use git_vws.Session.Files.{Files}
use git_vws.Session.Lifecycle.{matches_existing, ensure_publish_idle}
use git_vws.Session.Lifecycle.Refusals.{stage}
use git_vws.Session.Publish.Stays
use git_vws.Session.Publish.Stays.{On}
use git_vws.Session.Create.Materialize
use git_vws.Session.Create.Materialize.{Services, Template, CreateRequest}
use git_vws.Session.Create.Keeps
use git_vws.Session.Create.Changes.{Change, changes, steps, Unfinished, Existing, Complete, Created}
use git_vws.Session.Create.Advance
use git_vws.Base.{
  ℕ, String, ◌≡◌, refl, inl, inr, true, Option, none, some, List, ◌++◌, arith, ◌==◌, nat_Eq,
  string_Eq, bytes_Eq, option_bytes_Eq, option_nat_Eq, Bytes, Result, ok, err, fail,
}

module _ {W : Type 0} (h : Host W) (f : Files W) (s : Services W) (l : List Change) where
  abbrev At : ℕ → List Event → Type 0
  At n log = changes log ≡ steps n ++ l

  abbrev Building : {A : Type 0} → Type 0 → M W Event A → Type 0
  Building Found m = Ensures (On (At 0)) m (λ _. On (Complete Found l)) (On (Unfinished l))

  all_made : (Found : Type 0) (log : List Event) → At 3 log → Complete Found l log
  unfolding Complete
  all_made Found log p = inl p

  none_made : (Found : Type 0) → Found → (log : List Event) → At 0 log → Complete Found l log
  unfolding Complete steps
  none_made Found found log p = inr (p, found)

  zero_open : (log : List Event) → At 0 log → Unfinished l log
  zero_open = Advance.open_end h f s l 0 (omega arith)

  one_open : (log : List Event) → At 1 log → Unfinished l log
  one_open = Advance.open_end h f s l 1 (omega arith)

  makes_new :
      (Found : Type 0) (context : SessionContext) (r : SessionRecord) (template : Template)
      (root_path target base : Bytes)
      → stage r.payload ≡ 0
      → Building Found (Materialize.create_new h f s context r template root_path target base)
  unfolding Materialize.create_new
  makes_new Found context r template root_path target base e =
      bind (Stays.lifts h (At 0) (Unfinished l) zero_open _) λ bytes.
        bind (Advance.begins h f s l _ r bytes e) λ c.
          bind (Keeps.creates_directory h f (At 1) (Unfinished l) one_open _ _ _ _) λ root.
            bind (Stays.silents h (At 1) (Unfinished l) one_open _) λ i.
              weaken (λ w p. p) (λ a w p. all_made Found w.log p) (λ w p. p)
                (Advance.builds h f s l _ context.authority template root_path target base)

  refuses :
      (Found : Type 0) (code detail : String) → Building {A = Bytes} Found (lift (fail code detail))
  refuses Found code detail = lifted _ (λ a w e p. absurd (cc)) (λ w p. zero_open w.log p)

  answers_payload :
      (Found : Type 0) (p : SessionPayload) (context : SessionContext) (existing : RecordCapability)
      → ((q : ReadyPayload) → p ≡ SessionPayload.ready q → Found)
      → Building Found (Materialize.answer_payload h f s p context existing)
  unfolding Materialize.answer_payload
  answers_payload Found (SessionPayload.ready p) context existing found =
      bind (Stays.loads_capability h (At 0) (Unfinished l) zero_open context existing)
        λ loaded. pured _ (λ w q. none_made Found (found p refl) w.log q)
  answers_payload Found (SessionPayload.tombstoned root tombstone i) context existing found =
      refuses Found _ _
  answers_payload Found (SessionPayload.prepared root) context existing found = refuses Found _ _
  answers_payload Found (SessionPayload.materializing root i) context existing found =
      refuses Found _ _

  answers :
      (Found : Type 0) (context : SessionContext) (r : SessionRecord) (existing : RecordCapability)
      → (ensure_publish_idle existing.session_record ≡ ok tt
          → matches_existing existing.session_record r ≡ true
          → (q : ReadyPayload) → existing.session_record.payload ≡ SessionPayload.ready q
          → Found)
      → Building Found (Materialize.answer_existing h f s context r existing)
  unfolding Materialize.answer_existing
  answers Found context r existing found =
      seq
        (lifted {Q = λ u w. At 0 w.log × (ensure_publish_idle existing.session_record ≡ ok tt)}
          (ensure_publish_idle existing.session_record) (λ u w e p. (p, e))
          (λ w p. zero_open w.log p))
        (given λ idle.
          branch (existing.session_record == r)
            (λ _.
              refuses Found "SESSION_INCOMPLETE"
                "session record is prepared but has no stable root")
            (λ _.
              branch (matches_existing existing.session_record r)
                (λ same.
                  answers_payload Found existing.session_record.payload context existing
                    (found idle same))
                (λ _.
                  refuses Found "SESSION_EXISTS"
                    "session name is already bound to different create inputs")))

  -- The record that was read, if there was one, is what an answer without a change rests on.
  makes_or_answers :
      (request : CreateRequest) (sessions_path : Bytes) (a : Authority) (target_old : Option Bytes)
      (base : Bytes) (template : Template) (i : Identity) (volume root_path : Bytes)
      (wanted : SessionRecord)
      → wanted
        ≡ Materialize.prepared_record h f s a request.name
            (Materialize.chosen_target request.target request.name)
            target_old
            base
            template
            i
            volume
      → stage wanted.payload ≡ 0
      → (found : Option RecordCapability)
      → ((w0 w1 : World W Event) × (Store.optional_record h (record_name wanted.sid) a w0
            ≡ (ok found, w1)))
      → Building (Existing h f s request) (
          Materialize.create_or_answer h f s
            (record { authority = a; sessions_path = sessions_path })
            wanted
            template
            root_path
            (Materialize.chosen_target request.target request.name)
            base
            found)
  unfolding Materialize.create_or_answer
  makes_or_answers request sessions_path a target_old base template i volume root_path wanted made e
        none read =
      makes_new _ _ wanted template root_path _ base e
  makes_or_answers request sessions_path a target_old base template i volume root_path wanted made e
        (some existing) read =
      answers _ _ wanted existing (λ idle same payload is_ready. record {
        authority = a;
        target_old = target_old;
        base = base;
        template = template;
        container_identity = i;
        volume = volume;
        wanted = wanted;
        wanted_as = made;
        existing = existing;
        read = read;
        idle = idle;
        same = same;
        payload = payload;
        is_ready = is_ready;
      })

  makes :
      (repository : Bytes) (request : CreateRequest)
      → Building (Existing h f s request) (Materialize.create h f s repository request)
  unfolding Materialize.create Materialize.prepared_record stage
  makes repository request = bind (Stays.silents h (At 0) (Unfinished l) zero_open _) λ a.
      seq (Stays.silents h (At 0) (Unfinished l) zero_open _) (
        seq (Keeps.branches h f (At 0) (Unfinished l) zero_open (Advance.commanded h f s l 0) a _) (
          bind (Keeps.targets h f (At 0) (Unfinished l) zero_open (Advance.commanded h f s l 0) a _)
            λ target_old.
              bind
                (Keeps.bases h f (At 0) (Unfinished l) zero_open (Advance.commanded h f s l 0) s a
                  request.from target_old)
                λ base.
                  bind
                    (Keeps.trees h f (At 0) (Unfinished l) zero_open (Advance.commanded h f s l 0) a
                      base)
                    λ tree. bind (Stays.silents h (At 0) (Unfinished l) zero_open _) λ template.
                      seq (Stays.silents h (At 0) (Unfinished l) zero_open _) (
                        bind (Stays.silents h (At 0) (Unfinished l) zero_open _) λ i.
                          bind (Stays.silents h (At 0) (Unfinished l) zero_open _) λ volume.
                            seq (Stays.lifts h (At 0) (Unfinished l) zero_open _) (
                              bind (Stays.silents h (At 0) (Unfinished l) zero_open _) λ path.
                                seq (Keeps.binds_path h f (At 0) (Unfinished l) zero_open _ _ _) (
                                  seq (Stays.lifts h (At 0) (Unfinished l) zero_open _) (
                                    bind
                                      (witnessed
                                        (Stays.optionals h (At 0) (Unfinished l) zero_open _ a))
                                      λ found. given (
                                        makes_or_answers request path a target_old base template i
                                          volume _ _ refl refl found)))))))

  ended :
      {A : Type 0} (Found : Type 0) (x : Result A × World W Event)
      → Holds (λ _. On (Complete Found l)) (On (Unfinished l)) x
      → Created Found l x
  unfolding Created
  ended Found (ok a, w) p = p
  ended Found (err e, w) p = p

module _ {W : Type 0} (h : Host W) (f : Files W) (s : Services W) where
  -- Whatever the host answers: where a `create` succeeds, it has written the records PREPARED,
  -- MATERIALIZING and READY, each once and in this order, and changed nothing else; or it has changed
  -- nothing, and then the record of the wanted session was read, is READY and idle and matches the
  -- record that the request leads to. Where it fails, it has written only the first of the three, and
  -- taken back nothing, or after them the tree, or after them the tree and then the record.
  pub create-Created :
      (repository : Bytes) (request : CreateRequest) (w : World W Event)
      → Created
          (Existing h f s request)
          (changes w.log)
          (Materialize.create h f s repository request w)
  unfolding steps
  create-Created repository request w =
      ended h f s (changes w.log) _ (Materialize.create h f s repository request w)
        ((makes h f s (changes w.log) repository request).run w refl)
