-- ===== src/Maintenance/Collect.antt =====
-- src/session.rs: `gc_sessions`, which finishes the removals that the census of the sessions found.
use git_vws.Effect.{M, ◌>>=◌, lift, note_ok, caught, pure}
use git_vws.Session.Journal.{is_idle}
use git_vws.Session.Types.{SessionPayload}
use git_vws.Session.Host.{RecordCapability, Event, removed, loose_collected, Host}
use git_vws.Session.Store.{recovery as session_recovery}
use git_vws.Session.Lifecycle.{complete_tombstone}
use git_vws.Maintenance.Report.{MaintenanceReport, MaintenanceEntry, empty_report, entry, recovery}
use git_vws.Maintenance.Sessions.{
  Sweep, CensusCapability, SessionCensus, finding, item, authority_from_record,
  session_predecessor_temporary,
}
use git_vws.Base.{
  Bool, true, false, Option, none, some, List, [], ◌∷◌, ◌++◌, if◌then◌else◌, ◌==◌, nat_Eq,
  string_Eq, bytes_Eq, option_bytes_Eq, option_nat_Eq, Bytes, codes, Result, ok, err,
}

module _ {W Plan : Type 0} (h : Host W) (t : Sweep W Plan) where
  unfoldable pub gc_session_predecessor_temporary : Bytes → M W Event (Unit {0})
  gc_session_predecessor_temporary name = do
    found ← session_predecessor_temporary h t name
    note_ok (removed name) (t.remove_temporary name found.1.binding)

  -- A removal that was under way, after `maintenance_context` has found the record's authority.
  unfoldable pub gc_tombstone : RecordCapability → M W Event (Unit {0})
  gc_tombstone c = do _ ← lift (authority_from_record c.session_record); complete_tombstone h c true

  unfoldable pub tombstone_outcome :
      MaintenanceReport → RecordCapability → Bytes → Result (Unit {0}) → MaintenanceReport × Bool
  tombstone_outcome report c tombstone (ok u) = (
    entry report (codes "session") c.basename tombstone (codes "TOMBSTONED") (codes "REMOVED"),
    true,
  )
  tombstone_outcome report c tombstone (err e) =
      (recovery report (codes "session") c.basename tombstone (codes "TOMBSTONED"), false)

  -- The result of the private objects' collection, with the entries that it has added.
  unfoldable pub loose_outcome :
      MaintenanceReport → RecordCapability → Result (Unit {0}) → MaintenanceReport × Bool
  loose_outcome report c (ok u) = (report, true)
  loose_outcome report c (err e) =
      if e.code == "SESSION_BUSY"
      then (item report c.basename (codes "READY") (codes "BUSY"), true)
      else (finding report c.basename (codes "READY"), false)

  abbrev added : MaintenanceReport → List MaintenanceEntry → MaintenanceReport
  added report lines = record report { entries = report.entries ++ lines }

  unfoldable pub gc_loose :
      MaintenanceReport → RecordCapability → Option Plan → M W Event (MaintenanceReport × Bool)
  unfolding loose_outcome
  gc_loose report c none = pure (
      loose_outcome report c
        (err (session_recovery "READY session was not fully classified before cleanup")))
  gc_loose report c (some plan) = λ w.
      let x = t.gc_private_loose c plan w.outside in
      (
        ok (loose_outcome (added report x.0.1) c x.0.0),
        record { outside = x.1; log = loose_collected c.basename ∷ w.log },
      )

  unfoldable pub gc_session :
      CensusCapability Plan
      → SessionPayload
      → MaintenanceReport
      → M W Event (MaintenanceReport × Bool)
  unfolding gc_loose
  gc_session cc (SessionPayload.tombstoned root tombstone i) report = do
    r ← caught (gc_tombstone cc.capability)
    pure (tombstone_outcome report cc.capability tombstone r)
  gc_session cc (SessionPayload.ready p) report =
      if is_idle cc.capability.session_record.journal
      then gc_loose report cc.capability cc.private_objects
      else pure (report, true)
  gc_session cc (SessionPayload.prepared root) report = pure (report, true)
  gc_session cc (SessionPayload.materializing root i) report = pure (report, true)

  unfoldable pub gc_capabilities :
      List (CensusCapability Plan) → MaintenanceReport → M W Event MaintenanceReport
  unfolding gc_session
  gc_capabilities [] report = pure report
  gc_capabilities (c ∷ cs) report =
      gc_session c c.capability.session_record.payload report >>= λ next.
      if next.1 then gc_capabilities cs next.0 else pure next.0

  unfoldable pub gc_temporaries :
      List Bytes → List (CensusCapability Plan) → MaintenanceReport → M W Event MaintenanceReport
  unfolding gc_capabilities
  gc_temporaries [] cs report = gc_capabilities cs report
  gc_temporaries (name ∷ names) cs report = caught (gc_session_predecessor_temporary name) >>= λ r.
      elim r [
        | ok u ↦ gc_temporaries names cs (item report name (codes "TMP") (codes "REMOVED"))
        | err e ↦ pure (finding report name (codes "TMP"))
      ]

  unfoldable pub gc_sessions : SessionCensus Plan → M W Event MaintenanceReport
  unfolding gc_temporaries
  gc_sessions census = gc_temporaries census.temporaries census.capabilities empty_report
