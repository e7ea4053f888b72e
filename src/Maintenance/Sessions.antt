-- ===== src/Maintenance/Sessions.antt =====
-- src/session.rs: `session_census`, which accounts for every name in the session container, and
-- `gc_sessions`, which finishes the removals that the census found.
use git_vws.Authority.Identity.{Identity, Authority, same_node}
use git_vws.Storage.Receipts.{SealedTreeReceipt}
use git_vws.Effect.{M, ◌>>=◌, ◌>>◌, lift, silent, caught, pure}
use git_vws.Session.Journal.{is_idle}
use git_vws.Session.Types.{SessionRecord, SessionPayload}
use git_vws.Session.Names.{session_record_name, tombstone_name}
use git_vws.Session.Validate.{authority_path_from_record, is_ready}
use git_vws.Session.Host.{
  RecordBinding, RecordCapability, SessionContext, ReadySession, Event, Host,
}
use git_vws.Session.Store.{
  recovery as session_recovery, cstring, capability_from_binding, read_record_capability,
  revalidate_record, load_ready_capability,
}
use git_vws.Session.Lifecycle.{session_precedes, ensure_record_container, open_authorized_root}
use git_vws.Template.Store.{RecordTxnTemporary}
use git_vws.Maintenance.Report.{MaintenanceReport, MaintenanceEntry, empty_report, entry, recovery}
use git_vws.Base.{
  Bool, true, false, ◌&&◌, not, Option, none, some, List, [], ◌∷◌, ◌++◌, if◌then◌else◌, ◌==◌,
  nat_Eq, string_Eq, bytes_Eq, option_bytes_Eq, option_nat_Eq, any, Bytes, codes, starts_with,
  ends_with, Result, ok, err, guard, ok_or,
}

-- What the maintenance of sessions asks of the operating system and of the components for records,
-- templates and private objects; `Plan` is what the classifier of private objects found.
pub record Sweep (W Plan : Type 0) : Type 0 where
  -- `storage::directory_names` and `authority::is_ignorable_system_metadata`, in the container
  pub directory_names : W → Result (List Bytes) × W
  pub is_ignorable : Bytes → W → Result Bool × W
  -- `bind_path` of the container
  pub bind_container : W → Result (Unit {0}) × W
  -- `authority::record_txn_temporary` and `remove_record_txn_temporary_bound`
  pub record_txn_temporary : Bytes → W → Result (Option RecordTxnTemporary) × W
  pub remove_temporary : Bytes → RecordBinding → W → Result (Unit {0}) × W
  -- `template::validate_session_template`
  pub validate_session_template : Bytes → SealedTreeReceipt → W → Result (Unit {0}) × W
  -- `classify_private_objects`, and `gc_private_loose` with the entries that it adds
  pub classify_private_objects : ReadySession → Authority → SessionRecord → W → Result Plan × W
  pub gc_private_loose :
      RecordCapability → Plan → W → (Result (Unit {0}) × List MaintenanceEntry) × W
  -- the path of the container
  pub sessions_path : Bytes

-- src/session.rs: `CensusCapability`
pub record CensusCapability (Plan : Type 0) : Type 0 where
  pub capability : RecordCapability
  pub private_objects : Option Plan

-- src/session.rs: `SessionCensus`. The set of keys is a list, of which only membership is used.
pub record SessionCensus (Plan : Type 0) : Type 0 where
  pub reachable_templates : List Bytes
  pub capabilities : List (CensusCapability Plan)
  pub temporaries : List Bytes
  pub report : MaintenanceReport

abbrev scope : Bytes
scope = codes "session"

abbrev pub finding : MaintenanceReport → Bytes → Bytes → MaintenanceReport
finding report name state = recovery report scope name name state

abbrev pub item : MaintenanceReport → Bytes → Bytes → Bytes → MaintenanceReport
item report name state code = entry report scope name name state code

-- `authority_from_record`
unfoldable pub authority_from_record : SessionRecord → Result Authority
authority_from_record r = elim (authority_path_from_record r) [
  | ok path ↦ ok (record {
    canonical = path;
    identity = r.authority_identity;
    object_format = [];
    ref_format = [];
  })
  | err e ↦ err e
]

-- The names that a record authorizes beside its own.
unfoldable pub authorized_names : SessionPayload → List Bytes
authorized_names (SessionPayload.prepared root) = []
authorized_names (SessionPayload.materializing root i) = root ∷ []
authorized_names (SessionPayload.ready p) = p.root_name ∷ []
authorized_names (SessionPayload.tombstoned root tombstone i) = root ∷ tombstone ∷ []

unfoldable pub census_state : SessionPayload → Bytes
census_state (SessionPayload.prepared root) = codes "CREATING"
census_state (SessionPayload.materializing root i) = codes "CREATING"
census_state (SessionPayload.ready p) = codes "READY"
census_state (SessionPayload.tombstoned root tombstone i) = codes "TOMBSTONED"

abbrev pub census_code : SessionPayload → Bytes
census_code (SessionPayload.tombstoned root tombstone i) = codes "PENDING"
census_code _ = codes "RETAINED"

-- The entry of a record whose private objects were classified or not.
unfoldable pub record_line :
    {Plan : Type 0}
    → MaintenanceReport
    → RecordCapability
    → Bytes
    → Result (Option Plan)
    → MaintenanceReport
record_line report c name (err e) = finding report name (census_state c.session_record.payload)
record_line report c name (ok plan) =
    if not (is_idle c.session_record.journal)
    then finding report name (codes "PUBLISH")
    else item report name (census_state c.session_record.payload)
        (census_code c.session_record.payload)

-- The keys that are reachable once this record was classified or not.
unfoldable pub with_key :
    {Plan : Type 0} → List Bytes → RecordCapability → Result (Option Plan) → List Bytes
with_key keys c (ok plan) = keys ++ (c.session_record.template_key ∷ [])
with_key keys c (err e) = keys

abbrev plan_of : {Plan : Type 0} → Result (Option Plan) → Option Plan
plan_of (ok plan) = plan
plan_of (err e) = none

unfoldable pub is_temporary : Bytes → Bool
is_temporary name = starts_with (codes ".") name && ends_with (codes ".tmp") name

module _ {W Plan : Type 0} (h : Host W) (t : Sweep W Plan) where
  -- Where the tree of a tombstone may stand in `diagnose_list_record`.
  unfoldable pub tombstone_authorized :
      SessionRecord
      → Bytes
      → Bytes
      → Identity
      → Option Identity
      → Option Identity
      → M W Event (Unit {0})
  tombstone_authorized r root tombstone i (some entry) none =
      if same_node entry i
      then (open_authorized_root h r root i >>= λ opened. pure tt)
      else lift (err (session_recovery "tombstoned session roots are not record-authorized"))
  tombstone_authorized r root tombstone i none (some entry) =
      if same_node entry i
      then (open_authorized_root h r tombstone i >>= λ opened. pure tt)
      else lift (err (session_recovery "tombstoned session roots are not record-authorized"))
  tombstone_authorized r root tombstone i none none = pure tt
  tombstone_authorized r root tombstone i (some entry) (some other) =
      lift (err (session_recovery "tombstoned session roots are not record-authorized"))

  unfoldable pub diagnose_payload :
      SessionContext → RecordCapability → SessionPayload → M W Event (Unit {0})
  unfolding tombstone_authorized
  diagnose_payload context c (SessionPayload.ready p) =
      load_ready_capability h context c >>= λ loaded. pure tt
  diagnose_payload context c (SessionPayload.prepared root) = do
    ensure_record_container h c.session_record
    _ ← revalidate_record h c
    pure tt
  diagnose_payload context c (SessionPayload.materializing root i) = do
    _ ← open_authorized_root h c.session_record root i
    lift (cstring (tombstone_name c.session_record.sid))
    found ← silent (h.entry_identity (tombstone_name c.session_record.sid))
    lift (
        guard (elim found [ none ↦ true | some entry ↦ false ])
          (session_recovery "materializing session has an unexpected tombstone"))
    _ ← revalidate_record h c
    pure tt
  diagnose_payload context c (SessionPayload.tombstoned root tombstone i) = do
    ensure_record_container h c.session_record
    lift (cstring root)
    lift (cstring tombstone)
    root_entry ← silent (h.entry_identity root)
    tombstone_entry ← silent (h.entry_identity tombstone)
    tombstone_authorized c.session_record root tombstone i root_entry tombstone_entry
    _ ← revalidate_record h c
    pure tt

  unfoldable pub diagnose_list_record : Authority → RecordCapability → M W Event (Unit {0})
  unfolding diagnose_payload
  diagnose_list_record a c = do
    silent t.bind_container
    diagnose_payload (record { authority = a; sessions_path = t.sessions_path }) c
        c.session_record.payload

  -- The private objects of a READY session; any other is only diagnosed.
  unfoldable pub classify_stage : Authority → RecordCapability → M W Event (Option Plan)
  classify_stage a c =
      if not (is_ready c.session_record.payload)
      then (diagnose_list_record a c >> pure none)
      else (load_ready_capability h (record { authority = a; sessions_path = t.sessions_path }) c
          >>= λ loaded. silent (t.classify_private_objects loaded a c.session_record) >>= λ plan.
              revalidate_record h c >>= λ current. pure (some plan))

  -- The closure `private_objects` of `session_census`.
  unfoldable pub classify : RecordCapability → M W Event (Option Plan)
  unfolding classify_stage
  classify c = do
    silent (t.validate_session_template c.session_record.template_key c.session_record.template)
    a ← lift (authority_from_record c.session_record)
    classify_stage a c

  unfoldable pub counted_record :
      SessionCensus Plan → Bytes → RecordCapability → Result (Option Plan) → SessionCensus Plan
  unfolding with_key record_line
  counted_record census name c r = record census {
    reachable_templates = with_key census.reachable_templates c r;
    capabilities =
        census.capabilities ++ (record { capability = c; private_objects = plan_of r } ∷ []);
    report = record_line census.report c name r;
  }

  -- What the first loop does with the record file `name`.
  unfoldable pub count_record :
      SessionCensus Plan
      → List Bytes
      → Bytes
      → Result RecordCapability
      → M W Event (SessionCensus Plan × List Bytes)
  unfolding counted_record
  count_record census authorized name (ok c) = do
    r ← caught (classify c)
    pure (counted_record census name c r, authorized ++ authorized_names c.session_record.payload)
  count_record census authorized name (err e) =
      pure (record census { report = finding census.report name (codes "CORRUPT") }, authorized)

  unfoldable pub count_records :
      List Bytes → SessionCensus Plan → List Bytes → M W Event (SessionCensus Plan × List Bytes)
  unfolding count_record
  count_records [] census authorized = pure (census, authorized)
  count_records (name ∷ names) census authorized =
      if session_record_name name
      then (caught (read_record_capability h name) >>= λ r.
          count_record census (authorized ++ (name ∷ [])) name r >>= λ next.
          count_records names next.0 next.1)
      else count_records names census authorized

  unfoldable pub session_predecessor_temporary :
      Bytes → M W Event (RecordCapability × RecordTxnTemporary)
  session_predecessor_temporary name = do
    found ← silent (t.record_txn_temporary name)
    temporary ← lift (
        ok_or found
          (session_recovery "temporary session record basename is not a RecordTxn predecessor"))
    lift (
        guard (session_record_name temporary.final_name)
          (session_recovery "temporary record does not name a session record"))
    previous ← capability_from_binding h temporary.final_name temporary.binding
    current ← read_record_capability h temporary.final_name
    lift (
        guard (session_precedes previous.session_record current.session_record) (
          session_recovery
            "temporary session record is not the direct predecessor of its current record"))
    pure (current, temporary)

  unfoldable pub count_temporary :
      Bool
      → SessionCensus Plan
      → Bytes
      → Result (RecordCapability × RecordTxnTemporary)
      → SessionCensus Plan
  count_temporary report_temporary census name (ok found) = record census {
    temporaries = census.temporaries ++ (name ∷ []);
    report =
        if report_temporary
        then item census.report name (codes "TMP") (codes "RETAINED")
        else census.report;
  }
  count_temporary report_temporary census name (err e) = record census {
    report = finding census.report name (codes "TMP");
  }

  unfoldable pub count_other : Bool → SessionCensus Plan → Bytes → M W Event (SessionCensus Plan)
  unfolding count_temporary
  count_other report_temporary census name =
      if is_temporary name
      then (caught (session_predecessor_temporary name) >>= λ r.
          pure (count_temporary report_temporary census name r))
      else pure (record census { report = finding census.report name (codes "UNKNOWN") })

  -- The second loop, on the names that no record authorizes.
  unfoldable pub count_others :
      Bool → List Bytes → SessionCensus Plan → List Bytes → M W Event (SessionCensus Plan)
  unfolding count_other
  count_others report_temporary [] census authorized = pure census
  count_others report_temporary (name ∷ names) census authorized =
      if any (λ known. known == name) authorized
      then count_others report_temporary names census authorized
      else (silent (t.is_ignorable name) >>= λ ignorable.
          if ignorable
          then count_others report_temporary names census authorized
          else (count_other report_temporary census name >>= λ next.
              count_others report_temporary names next authorized))

  -- The census of the container in which these names are.
  unfoldable pub census_of : Bool → List Bytes → M W Event (SessionCensus Plan)
  census_of report_temporary names = do
    first ←
        count_records names
          (record {
            reachable_templates = [];
            capabilities = [];
            temporaries = [];
            report = empty_report;
          })
          []
    count_others report_temporary names first.0 first.1

  unfoldable pub session_census : Bool → M W Event (SessionCensus Plan)
  session_census report_temporary = silent t.directory_names >>= census_of report_temporary
