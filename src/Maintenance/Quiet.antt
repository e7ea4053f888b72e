-- ===== src/Maintenance/Quiet.antt =====
-- The survey of the sessions leaves nothing in the log.
use git_vws.Authority.Identity.{Identity, Authority, same_node}
use git_vws.Effect
use git_vws.Effect.{
  World, M, lift, pure, silent, caught, Holds, Ensures, bind, seq, lifted, pured, branch, weaken,
  catching,
}
use git_vws.Session.Types.{SessionRecord, SessionPayload}
use git_vws.Session.Names.{session_record_name}
use git_vws.Session.Validate.{is_ready}
use git_vws.Session.Host.{RecordCapability, SessionContext, Event, Host}
use git_vws.Session.Store
use git_vws.Session.Store.{read_record_capability, recovery as session_recovery}
use git_vws.Session.Lifecycle
use git_vws.Session.Publish.Stays
use git_vws.Session.Publish.Stays.{On}
use git_vws.Maintenance.Sessions
use git_vws.Maintenance.Sessions.{Sweep, SessionCensus}
use git_vws.Base.{
  Bool, not, Option, none, some, List, [], ◌∷◌, ◌++◌, ◌==◌, nat_Eq, string_Eq, bytes_Eq,
  option_bytes_Eq, option_nat_Eq, any, Bytes, codes, Result, ok, err,
}

module _ {W Plan : Type 0} (h : Host W) (t : Sweep W Plan) (P : List Event → Type 0) where
  abbrev Quiets : {A : Type 0} → M W Event A → Type 0
  Quiets m = Ensures (On P) m (λ _. On P) (On P)

  abbrev same : (log : List Event) → P log → P log
  same log p = p

  silents : {A : Type 0} (op : W → Result A × W) → Quiets (silent op)
  silents op = Stays.silents h P P same op

  lifts : {A : Type 0} (r : Result A) → Quiets (lift r)
  lifts r = Stays.lifts h P P same r

  pures : {A : Type 0} (a : A) → Quiets (pure a)
  pures a = Stays.pures h P P same a

  revalidates : (c : RecordCapability) → Quiets (Store.revalidate_record h c)
  revalidates c = Stays.revalidates h P P same c

  loads :
      (context : SessionContext) (c : RecordCapability)
      → Quiets (Store.load_ready_capability h context c)
  loads context c = Stays.loads_capability h P P same context c

  both :
      {A : Type 0} (r : Result A) (w : World W Event)
      → Effect.Caught (λ _. On P) (On P) (On P) r w
      → P w.log
  unfolding Effect.Caught
  both (ok a) w q = q
  both (err e) w q = q

  caughts : {A : Type 0} {m : M W Event A} → Quiets m → Quiets (caught m)
  caughts q = weaken (λ w p. p) both (λ w p. p) (catching (λ _. On P) (On P) (On P) q)

  ensures_container : (r : SessionRecord) → Quiets (Lifecycle.ensure_record_container h r)
  unfolding Lifecycle.ensure_record_container
  ensures_container r = bind (silents _) λ i. seq (lifts _) (bind (silents _) λ v. lifts _)

  opens_root :
      (r : SessionRecord) (name : Bytes) (i : Identity)
      → Quiets (Lifecycle.open_authorized_root h r name i)
  unfolding Lifecycle.open_authorized_root
  opens_root r name i = seq (ensures_container r) (
      seq (lifts _) (
        bind (silents _) λ root. bind (silents _) λ entry. seq (lifts _) (
          bind (silents _)
            λ opened. seq (lifts _) (bind (silents _) λ v. seq (lifts _) (pures _)))))

  authorizes :
      (r : SessionRecord) (root tombstone : Bytes) (i : Identity) (left right : Option Identity)
      → Quiets (Sessions.tombstone_authorized h t r root tombstone i left right)
  unfolding Sessions.tombstone_authorized
  authorizes r root tombstone i (some entry) none =
      branch (same_node entry i) (λ e. bind (opens_root r root i) λ opened. pures tt)
        (λ e. lifts (err (session_recovery "tombstoned session roots are not record-authorized")))
  authorizes r root tombstone i none (some entry) =
      branch (same_node entry i) (λ e. bind (opens_root r tombstone i) λ opened. pures tt)
        (λ e. lifts (err (session_recovery "tombstoned session roots are not record-authorized")))
  authorizes r root tombstone i none none = pures _
  authorizes r root tombstone i (some entry) (some other) = lifts _

  diagnoses_payload :
      (context : SessionContext) (c : RecordCapability) (payload : SessionPayload)
      → Quiets (Sessions.diagnose_payload h t context c payload)
  unfolding Sessions.diagnose_payload
  diagnoses_payload context c (SessionPayload.ready p) = bind (loads context c) λ loaded. pures _
  diagnoses_payload context c (SessionPayload.prepared root) =
      seq (ensures_container _) (bind (revalidates c) λ current. pures _)
  diagnoses_payload context c (SessionPayload.materializing root i) =
      bind (opens_root _ root i) λ opened.
        seq (lifts _)
          (bind (silents _) λ found. seq (lifts _) (bind (revalidates c) λ current. pures _))
  diagnoses_payload context c (SessionPayload.tombstoned root tombstone i) =
      seq (ensures_container _) (
        seq (lifts _) (
          seq (lifts _) (
            bind (silents _) λ left. bind (silents _) λ right.
              seq (authorizes _ root tombstone i left right)
                (bind (revalidates c) λ current. pures _))))

  diagnoses :
      (a : Authority) (c : RecordCapability) → Quiets (Sessions.diagnose_list_record h t a c)
  unfolding Sessions.diagnose_list_record
  diagnoses a c = seq (silents _) (diagnoses_payload _ c c.session_record.payload)

  classifies_stage :
      (a : Authority) (c : RecordCapability) → Quiets (Sessions.classify_stage h t a c)
  unfolding Sessions.classify_stage
  classifies_stage a c =
      branch (not (is_ready c.session_record.payload)) (λ e. seq (diagnoses a c) (pures none))
        (λ e. bind (loads (record { authority = a; sessions_path = t.sessions_path }) c) λ loaded.
          bind (silents (t.classify_private_objects loaded a c.session_record))
            λ plan. bind (revalidates c) λ current. pures (some plan))

  classifies : (c : RecordCapability) → Quiets (Sessions.classify h t c)
  unfolding Sessions.classify
  classifies c = seq (silents _) (bind (lifts _) λ a. classifies_stage a c)

  counts_record :
      (census : SessionCensus Plan) (authorized : List Bytes) (name : Bytes)
      (r : Result RecordCapability)
      → Quiets (Sessions.count_record h t census authorized name r)
  unfolding Sessions.count_record
  counts_record census authorized name (ok c) = bind (caughts (classifies c)) λ r. pures _
  counts_record census authorized name (err e) = pures _

  counts_records :
      (names : List Bytes) (census : SessionCensus Plan) (authorized : List Bytes)
      → Quiets (Sessions.count_records h t names census authorized)
  unfolding Sessions.count_records
  counts_records [] census authorized = pures _
  counts_records (name ∷ names) census authorized =
      branch (session_record_name name)
        (λ e. bind (caughts (Stays.reads h P P same name)) λ r.
          bind (counts_record census (authorized ++ (name ∷ [])) name r)
            λ next. counts_records names next.0 next.1)
        (λ e. counts_records names census authorized)

  finds_predecessor : (name : Bytes) → Quiets (Sessions.session_predecessor_temporary h t name)
  unfolding Sessions.session_predecessor_temporary
  finds_predecessor name = bind (silents _) λ found. bind (lifts _) λ temporary. seq (lifts _) (
      bind (Stays.capabilities h P P same _ _)
        λ previous. bind (Stays.reads h P P same _) λ current. seq (lifts _) (pures _))

  counts_other :
      (report_temporary : Bool) (census : SessionCensus Plan) (name : Bytes)
      → Quiets (Sessions.count_other h t report_temporary census name)
  unfolding Sessions.count_other
  counts_other report_temporary census name =
      branch (Sessions.is_temporary name)
        (λ e.
          bind (caughts (finds_predecessor name))
            λ r. pures (Sessions.count_temporary h t report_temporary census name r))
        (λ e.
          pures (record census { report = Sessions.finding census.report name (codes "UNKNOWN") }))

  counts_others :
      (report_temporary : Bool) (names : List Bytes) (census : SessionCensus Plan)
      (authorized : List Bytes)
      → Quiets (Sessions.count_others h t report_temporary names census authorized)
  unfolding Sessions.count_others
  counts_others report_temporary [] census authorized = pures census
  counts_others report_temporary (name ∷ names) census authorized =
      branch (any (λ known. known == name) authorized)
        (λ e. counts_others report_temporary names census authorized)
        (λ e. bind (silents (t.is_ignorable name)) λ ignorable.
          branch ignorable (λ e. counts_others report_temporary names census authorized)
            (λ e.
              bind (counts_other report_temporary census name)
                λ next. counts_others report_temporary names next authorized))

  pub surveys_sessions :
      (report_temporary : Bool) → Quiets (Sessions.session_census h t report_temporary)
  unfolding Sessions.session_census Sessions.census_of
  surveys_sessions report_temporary = bind (silents t.directory_names) λ names.
      bind (counts_records names _ []) λ first. counts_others report_temporary names first.0 first.1
