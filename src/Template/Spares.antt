-- ===== src/Template/Spares.antt =====
-- The templates that a collection leaves alone: it changes none whose key was in the newest answer to
-- the question which templates the sessions need.
use git_vws.Storage.Receipts.{SealedTreeReceipt}
use git_vws.Effect.{
  World, pure, note_ok, noted_ok, Holds, Ensures, bind, seq, lifted, pured, given, branch, weaken,
}
use git_vws.Session.Host.{RecordBinding}
use git_vws.Template.Record.{TemplatePayload, TemplateRecord}
use git_vws.Template.Census.{template_item, finding}
use git_vws.Template.Transition
use git_vws.Template.Store
use git_vws.Template.Store.{
  Store, TemplateCapability, TemplateEvent, counted, wrote, destroyed, removed, cleaned,
}
use git_vws.Template.Collect
use git_vws.Template.Collect.{has_key}
use git_vws.Template.Keeps
use git_vws.Template.Keeps.{On}
use git_vws.Maintenance.Report.{MaintenanceReport}
use git_vws.Template.Completing
use git_vws.Template.Completing.{unneeded, Guarded, Free, kept}
use git_vws.Base.{
  ◌≡◌, refl, sym, ap, subst, ◌∙◌, true, false, some, List, [], ◌∷◌, nat_Eq, string_Eq, bytes_Eq,
  option_bytes_Eq, option_nat_Eq, Bytes, codes, Result, ok, err,
}

same_some : {A : Type 0} {a b : A} → some a ≡ some b → a ≡ b
same_some e = cc

module _ {W : Type 0} (s : Store W) (census : W → Result (List Bytes) × W) where
  module _
      (commits : (name bytes : Bytes) (binding new : RecordBinding) (w w' : W)
        → s.replace_bound name bytes binding w ≡ (ok new, w')
        → new.bytes ≡ bytes)
      (round_trip : (r : TemplateRecord) (bytes : Bytes)
        → s.to_json r ≡ ok bytes
        → s.from_json bytes ≡ some r) where
    replaced_run :
        (r : TemplateRecord) (name bytes : Bytes) (binding : RecordBinding) (w : W)
        (log : List TemplateEvent) (x : Result RecordBinding × W)
        → s.replace_bound name bytes binding w ≡ x
        → Free r.key log
        → Holds
            (λ b v. Free r.key v.log × (b.bytes ≡ bytes))
            (On Guarded)
            (noted_ok (wrote r) log x)
    unfolding Guarded unneeded
    replaced_run r name bytes binding w log (ok new, w') e p =
        ((p.0, p), commits name bytes binding new w w' e)
    replaced_run r name bytes binding w log (err e, w') q p = p.1

    parsed :
        (r current : TemplateRecord) (bytes : Bytes)
        → s.to_json r ≡ ok bytes
        → Store.parse s bytes ≡ ok current
        → current ≡ r
    unfolding Store.parse
    parsed r current bytes e q = same_some (
        sym ((Transition.template_record_iff s.me s.to_json s.from_json bytes current).0 q).0
        ∙ round_trip r bytes e)

    replaces :
        (c : TemplateCapability) (r : TemplateRecord) (bytes : Bytes)
        → s.to_json r ≡ ok bytes
        → Ensures
            (On (Free r.key))
            (Store.replace_template_capability s c r bytes)
            (λ t w. Free r.key w.log × (t.template_record ≡ r))
            (On Guarded)
    unfolding Store.replace_template_capability note_ok
    replaces c r bytes e =
        bind
          (record {
            run = λ w p. replaced_run r c.basename bytes c.binding w.outside w.log _ refl p;
          })
          λ new. given λ same.
            bind
              (lifted (Store.parse s new.bytes)
                (λ current w q p. (p, parsed r current bytes e (ap (Store.parse s) (sym same) ∙ q)))
                (λ w p. p.1))
              λ current. pured _ (λ w p. p)

    transitions :
        (c : TemplateCapability) (root : Bytes) (sealed : SealedTreeReceipt)
        → Ensures
            (On (Free c.template_record.key))
            (Collect.transition_template_tombstone s census c root sealed)
            (λ t w.
              Free c.template_record.key w.log × (t.template_record.key ≡ c.template_record.key))
            (On Guarded)
    unfolding Collect.transition_template_tombstone Collect.tombstoned_record
    transitions c root sealed = bind (lifted _ (λ bytes w e p. (p, e)) (λ w p. p.1)) λ bytes.
        given λ e.
          weaken (λ w p. p) (λ t w p. (p.0, ap (λ r. r.key) p.1)) (λ w p. p)
            (replaces c (Collect.tombstoned_record c.template_record root sealed) bytes e)

    collects_ready :
        (c : TemplateCapability) (root : Bytes) (sealed : SealedTreeReceipt)
        → Ensures
            (On Guarded)
            (Collect.gc_ready_template s census c root sealed)
            (λ _. On Guarded)
            (On Guarded)
    unfolding Collect.gc_ready_template
    collects_ready c root_name sealed =
        bind (Keeps.opens_sealed s Guarded Guarded kept root_name sealed _) λ root.
          seq (Keeps.silents s Guarded Guarded kept _) (
            bind (Keeps.revalidates s Guarded Guarded kept c (some (root, sealed.root))) λ current.
              weaken (λ w p. p.0) (λ a w p. p) (λ w p. p)
                (bind (Completing.asks s census c.template_record.key) λ keys.
                  branch (has_key c.template_record.key keys) (λ e. pured false (λ w p. p.0))
                    (λ e.
                      bind
                        (weaken (λ w p. (p.1 e, p.0)) (λ a w p. p) (λ w p. p)
                          (transitions c root_name sealed))
                        λ t. given λ same.
                          bind
                            (weaken
                              (λ w p.
                                (p.1, λ q. subst (λ k. unneeded k w.log ≡ true) (sym same) p.0))
                              (λ a w p. p) (λ w p. p) (Completing.completes s census t false))
                            λ done. pured true (λ w p. p))))

    collects :
        (c : TemplateCapability) (payload : TemplatePayload) (report : MaintenanceReport)
        → c.template_record.payload ≡ payload
        → Keeps.Keeps Guarded Guarded (Collect.gc_template s census c payload report)
    unfolding Collect.gc_template
    collects c (TemplatePayload.tombstoned root tombstone sealed) report q =
        bind
          (Keeps.caughts s Guarded Guarded kept (
            weaken (λ w p. (p, λ e. absurd (cc))) (λ a w p. p) (λ w p. p)
              (Completing.completes s census c true)))
          λ r. pured _ (λ w p. p)
    collects c (TemplatePayload.ready root sealed) report q =
        bind (Keeps.caughts s Guarded Guarded kept (collects_ready c root sealed))
          λ r. pured _ (λ w p. p)
    collects c (TemplatePayload.prepared building) report q = pured _ (λ w p. p)
    collects c (TemplatePayload.materializing building i) report q = pured _ (λ w p. p)
    collects c (TemplatePayload.publishing building name sealed) report q = pured _ (λ w p. p)

    collects_all :
        (cs : List TemplateCapability) (report : MaintenanceReport)
        → Keeps.Keeps Guarded Guarded (Collect.gc_templates s census cs report)
    unfolding Collect.gc_templates
    collects_all [] report = pured report (λ w p. p)
    collects_all (c ∷ cs) report =
        bind (collects c c.template_record.payload report refl)
          λ next. branch next.1 (λ e. collects_all cs next.0) (λ e. pured next.0 (λ w p. p))

    cleaned_Guarded :
        (name : Bytes) (log : List TemplateEvent) → Guarded log → Guarded (cleaned name ∷ log)
    unfolding Guarded
    cleaned_Guarded name log p = p

    after_temporary :
        (name : Bytes) (names : List Bytes) (cs : List TemplateCapability)
        (report : MaintenanceReport)
        → Keeps.Keeps Guarded Guarded (
            Collect.gc_temporaries s census names cs
              (template_item report name (codes "TMP") (codes "REMOVED")))
        → (r : Result (Unit {0}))
        → Keeps.Keeps Guarded Guarded (elim r [
          | ok u ↦
              Collect.gc_temporaries s census names cs
                (template_item report name (codes "TMP") (codes "REMOVED"))
          | err e ↦ pure (finding report name (codes "TMP"))
        ])
    after_temporary name names cs report h (ok u) = h
    after_temporary name names cs report h (err e) = pured _ (λ w p. p)

    collects_temporaries :
        (names : List Bytes) (cs : List TemplateCapability) (report : MaintenanceReport)
        → Keeps.Keeps Guarded Guarded (Collect.gc_temporaries s census names cs report)
    unfolding Collect.gc_temporaries
    collects_temporaries [] cs report = collects_all cs report
    collects_temporaries (name ∷ names) cs report =
        bind
          (Keeps.caughts s Guarded Guarded kept
            (Keeps.cleans s Guarded Guarded kept cleaned_Guarded name))
          λ r. after_temporary name names cs report (collects_temporaries names cs _) r

    collects_planned : Ensures (On Guarded) (Collect.gc s census) (λ _. On Guarded) (On Guarded)
    unfolding Collect.gc
    collects_planned = bind (Keeps.counts s Guarded Guarded kept false) λ planned.
        branch planned.report.recovery_required (λ e. pured planned.report (λ w p. p))
          (λ e. collects_temporaries planned.temporaries planned.capabilities _)

held :
    {W A : Type 0} (x : Result A × World W TemplateEvent)
    → Holds (λ _. On Guarded) (On Guarded) x
    → Guarded x.1.log
held (ok a, w) h = h
held (err e, w) h = h

-- Each time a collection of the templates replaces a record by its tombstone, removes a tree or
-- removes a record, the newest answer that it has had to which templates the sessions need does not
-- have that template's key. This needs that a committed record file holds the bytes it was given, and
-- that JSON is read back as the record that it was written from.
pub gc-Guarded :
    {W : Type 0} (s : Store W) (census : W → Result (List Bytes) × W)
    → (commits : (name bytes : Bytes) (binding new : RecordBinding) (w w' : W)
        → s.replace_bound name bytes binding w ≡ (ok new, w')
        → new.bytes ≡ bytes)
    → (round_trip : (r : TemplateRecord) (bytes : Bytes)
        → s.to_json r ≡ ok bytes
        → s.from_json bytes ≡ some r)
    → (w : World W TemplateEvent) → Guarded w.log
    → Guarded (Collect.gc s census w).1.log
gc-Guarded s census commits round_trip w p =
    held (Collect.gc s census w) ((collects_planned s census commits round_trip).run w p)
