-- ===== src/Template/Keeps.antt =====
-- What the parts of a template's collection leave in the log: a predicate of it survives whatever only
-- looks at the container, and the removal of a temporary file.
use git_vws.Authority.Identity.{Identity}
use git_vws.Storage.Receipts.{SealedTreeReceipt}
use git_vws.Storage.Modes.{sealed_directory, owned_tree_binding}
use git_vws.Effect
use git_vws.Effect.{
  World, M, lift, pure, silent, note_ok, noted_ok, caught, map_error, Holds, Ensures, bind, seq,
  lifted, pured, map_errored, branch, weaken, catching,
}
use git_vws.Template.Record.{TemplatePayload}
use git_vws.Template.Store
use git_vws.Template.Store.{
  Store, TemplateCapability, TemplateRecord-discrete, template_record_Eq, RecordTxnTemporary,
  TemplateEvent, cleaned, template_recovery,
}
use git_vws.Template.Census
use git_vws.Template.Census.{TemplateCensus}
use git_vws.Session.Host.{binding_Eq}
use git_vws.Maintenance.Report.{MaintenanceReport}
use git_vws.Base.{
  ℕ, ◌≡◌, refl, Bool, true, false, ◌&&◌, Option, none, some, List, [], ◌∷◌, ◌++◌, ◌==◌, ==_iff,
  nat_Eq, string_Eq, bytes_Eq, option_bytes_Eq, option_nat_Eq, any, Bytes, codes, Error, Result, ok,
  err, guard, is_ok,
}

abbrev pub On : {W : Type 0} → (List TemplateEvent → Type 0) → World W TemplateEvent → Type 0
On P w = P w.log

module _ {W : Type 0} (P E : List TemplateEvent → Type 0) where
  abbrev pub Keeps : {A : Type 0} → M W TemplateEvent A → Type 0
  Keeps m = Ensures (On P) m (λ _. On P) (On E)

pub passed : (test : Bool) (e : Error) {u : Unit {0}} → guard test e ≡ ok u → test ≡ true
passed true e h = refl
passed false e h = absurd (cc)

second : (a b : Bool) → (a && b) ≡ true → b ≡ true
second true b h = h
second false b h = absurd (cc)

module _ {W A : Type 0} (P E : List TemplateEvent → Type 0) (C : Type 0) where
  beside_run :
      (c : C) (x : Result A × World W TemplateEvent)
      → Holds (λ _. On P) (On E) x
      → Holds (λ _ w. P w.log × C) (On E) x
  beside_run c (ok a, w) h = (h, c)
  beside_run c (err e, w) h = h

  -- A fact that does not speak of the world is kept as well.
  pub keeps_beside :
      {m : M W TemplateEvent A}
      → Keeps P E m
      → Ensures (λ w. P w.log × C) m (λ _ w. P w.log × C) (On E)
  keeps_beside {m} h = record { run = λ w p. beside_run p.1 (m w) (h.run w p.0) }

module _ {W : Type 0} (s : Store W) (P E : List TemplateEvent → Type 0)
    (fails : (log : List TemplateEvent) → P log → E log) where
  pub lifts : {A : Type 0} (r : Result A) → Keeps {W = W} P E (lift r)
  lifts r = lifted r (λ a w e p. p) (λ w p. fails w.log p)

  pub pures : {A : Type 0} (a : A) → Keeps {W = W} P E (pure a)
  pures a = pured a (λ w p. p)

  silent_run :
      {A : Type 0} (x : Result A × W) (log : List TemplateEvent)
      → P log
      → Holds (λ _. On P) (On E) (x.0, record { outside = x.1; log = log })
  silent_run (ok a, w) log p = p
  silent_run (err e, w) log p = fails log p

  pub silents : {A : Type 0} (op : W → Result A × W) → Keeps P E (silent op)
  unfolding silent
  silents op = record { run = λ w p. silent_run (op w.outside) w.log p }

  pub names_entry : (name : Bytes) → Keeps P E (Store.named_identity s name)
  unfolding Store.named_identity
  names_entry name = seq (lifts _) (silents _)

  presents : (name : Bytes) (entry : Option Identity) → Keeps P E (Store.read_present s name entry)
  unfolding Store.read_present
  presents name none = pures _
  presents name (some i) = bind (silents _) λ b. bind (lifts _) λ r. seq (lifts _) (pures _)

  pub reads : (name : Bytes) → Keeps P E (Store.read_template_capability s name)
  unfolding Store.read_template_capability
  reads name = seq (lifts _) (bind (names_entry name) λ entry. presents name entry)

  checks_root : (root : Option (ℕ × Identity)) → Keeps P E (Store.check_root s root)
  unfolding Store.check_root
  checks_root none = pures _
  checks_root (some (descriptor, i)) = bind (silents _) λ now. lifts _

  -- Beside that, what it returns is the record that was expected.
  pub revalidates :
      (c : TemplateCapability) (root : Option (ℕ × Identity))
      → Ensures
          (On P)
          (Store.revalidate_template_capability s c root)
          (λ current w. P w.log × (current.template_record ≡ c.template_record))
          (On E)
  unfolding Store.revalidate_template_capability
  revalidates c root = bind (reads _) λ found. bind (lifts _) λ current.
      seq
        (lifted _
          (λ u w e p.
            (p, (==_iff current.template_record c.template_record).0 (second _ _ (passed _ _ e))))
          (λ w p. fails w.log p))
        (seq (keeps_beside P E _ (checks_root root)) (pured current (λ w p. p)))

  sealed_verified :
      (b : Bool) (root : ℕ) (sealed : SealedTreeReceipt)
      → Keeps P E (Store.verify_if_sealed s b root sealed)
  unfolding Store.verify_if_sealed
  sealed_verified true root sealed = silents _
  sealed_verified false root sealed = pures _

  pub validates_root :
      (root : ℕ) (sealed : SealedTreeReceipt) (volume : Bytes)
      → Keeps P E (Store.validate_template_tombstone_root s root sealed volume)
  unfolding Store.validate_template_tombstone_root
  validates_root root sealed volume = bind (silents _) λ i.
      seq (lifts _) (
        bind (silents _) λ v. seq (lifts _) (sealed_verified (sealed_directory s.me i) root sealed))

  pub revalidates_tombstone :
      (c : TemplateCapability) (root : ℕ) (sealed : SealedTreeReceipt)
      → Ensures
          (On P)
          (Store.revalidate_template_tombstone_capability s c root sealed)
          (λ current w. P w.log × (current.template_record ≡ c.template_record))
          (On E)
  unfolding Store.revalidate_template_tombstone_capability
  revalidates_tombstone c root sealed =
      bind (revalidates c none)
        λ current. seq (keeps_beside P E _ (validates_root _ _ _)) (pured current (λ w p. p))

  pub opens_sealed :
      (name : Bytes) (sealed : SealedTreeReceipt) (volume : Bytes)
      → Keeps P E (Store.sealed_root s name sealed volume)
  unfolding Store.sealed_root
  opens_sealed name sealed volume = bind (names_entry _) λ found. bind (lifts _) λ entry.
      seq (lifts _) (
        seq (lifts _) (
          bind (map_errored _ (silents _)) λ root.
            bind (silents _)
              λ d. seq (lifts _) (bind (silents _) λ v. seq (lifts _) (seq (silents _) (pures _)))))

  pub opens_tombstone :
      (name : Bytes) (sealed : SealedTreeReceipt) (volume : Bytes)
      → Keeps P E (Store.tombstone_root s name sealed volume)
  unfolding Store.tombstone_root
  opens_tombstone name sealed volume = bind (names_entry _) λ found. bind (lifts _) λ entry.
      seq (lifts _) (
        bind (map_errored _ (silents _))
          λ root. bind (silents _) λ d. seq (lifts _) (seq (validates_root _ _ _) (pures _)))

  pub finds_predecessor : (name : Bytes) → Keeps P E (Census.template_predecessor_temporary s name)
  unfolding Census.template_predecessor_temporary
  finds_predecessor name = bind (silents _) λ found. bind (lifts _) λ t. seq (lifts _) (
      bind (reads _)
        λ present. bind (lifts _) λ current. bind (lifts _) λ previous. seq (lifts _) (pures _))

module _ {W : Type 0} (s : Store W) (P E : List TemplateEvent → Type 0)
    (fails : (log : List TemplateEvent) → P log → E log) where
  both :
      {B : Type 0} (r : Result B) (w : World W TemplateEvent)
      → Effect.Caught (λ _. On P) (On P) (On E) r w
      → P w.log
  unfolding Effect.Caught
  both (ok a) w q = q
  both (err e) w q = q

  pub caughts : {A : Type 0} {m : M W TemplateEvent A} → Keeps P P m → Keeps P E (caught m)
  caughts h = weaken (λ w p. p) both (λ w p. p) (catching (λ _. On P) (On P) (On E) h)

  bounds_tombstone :
      (root tombstone : Bytes) (sealed : SealedTreeReceipt) (volume : Bytes)
      (left right : Result (Option Identity))
      → Keeps P E (Census.tombstone_bound s root tombstone sealed volume left right)
  unfolding Census.tombstone_bound
  bounds_tombstone root tombstone sealed volume (ok (some i)) (ok none) =
      branch (owned_tree_binding s.me i sealed.root && Store.tombstone_cleanup_mode s.me i)
        (λ q.
          bind (caughts (opens_tombstone s P P (λ log p. p) root sealed volume))
            λ r. pures s P E fails (is_ok r))
        (λ q. pures s P E fails false)
  bounds_tombstone root tombstone sealed volume (ok none) (ok (some i)) =
      bind (caughts (opens_tombstone s P P (λ log p. p) _ _ _)) λ r. pures s P E fails _
  bounds_tombstone root tombstone sealed volume (ok none) (ok none) = pures s P E fails _
  bounds_tombstone root tombstone sealed volume (ok (some i)) (ok (some j)) = pures s P E fails _
  bounds_tombstone root tombstone sealed volume (ok (some i)) (err e) = pures s P E fails _
  bounds_tombstone root tombstone sealed volume (ok none) (err e) = pures s P E fails _
  bounds_tombstone root tombstone sealed volume (err e) (ok o) = pures s P E fails _
  bounds_tombstone root tombstone sealed volume (err e) (err d) = pures s P E fails _

  diagnoses :
      (c : TemplateCapability) (payload : TemplatePayload) (report : MaintenanceReport)
      → Keeps P E (Census.diagnose_template_capability s c payload report)
  unfolding Census.diagnose_template_capability
  diagnoses c (TemplatePayload.ready root sealed) report =
      bind (caughts (opens_sealed s P P (λ log p. p) _ _ _)) λ r. pures s P E fails _
  diagnoses c (TemplatePayload.tombstoned root tombstone sealed) report =
      bind (caughts (names_entry s P P (λ log p. p) _)) λ left.
        bind (caughts (names_entry s P P (λ log p. p) _))
          λ right. bind (bounds_tombstone _ _ _ _ left right) λ valid. pures s P E fails _
  diagnoses c (TemplatePayload.prepared building) report = pures s P E fails _
  diagnoses c (TemplatePayload.materializing building i) report = pures s P E fails _
  diagnoses c (TemplatePayload.publishing building name sealed) report = pures s P E fails _

  counts_record :
      (census : TemplateCensus) (authorized : List Bytes) (name : Bytes)
      (r : Result (Option TemplateCapability))
      → Keeps P E (Census.count_record s census authorized name r)
  unfolding Census.count_record
  counts_record census authorized name (ok (some c)) =
      bind (diagnoses c c.template_record.payload census.report) λ report. pures s P E fails _
  counts_record census authorized name (ok none) = pures s P E fails _
  counts_record census authorized name (err e) = pures s P E fails _

  counts_records :
      (names : List Bytes) (census : TemplateCensus) (authorized : List Bytes)
      → Keeps P E (Census.count_records s names census authorized)
  unfolding Census.count_records
  counts_records [] census authorized = pures s P E fails _
  counts_records (name ∷ names) census authorized =
      branch (Store.template_record_name name)
        (λ q. bind (caughts (reads s P P (λ log p. p) name)) λ r.
          bind (counts_record census (authorized ++ (name ∷ [])) name r)
            λ next. counts_records names next.0 next.1)
        (λ q. counts_records names census authorized)

  counts_other :
      (report_temporary : Bool) (census : TemplateCensus) (name : Bytes)
      → Keeps P E (Census.count_other s report_temporary census name)
  unfolding Census.count_other
  counts_other report_temporary census name =
      branch (Census.is_temporary s name)
        (λ q.
          bind (caughts (finds_predecessor s P P (λ log p. p) name))
            λ r. pures s P E fails (Census.count_temporary s report_temporary census name r))
        (λ q.
          pures s P E fails
            (record census { report = Census.finding census.report name (codes "UNKNOWN") }))

  counts_others :
      (report_temporary : Bool) (names : List Bytes) (census : TemplateCensus)
      (authorized : List Bytes)
      → Keeps P E (Census.count_others s report_temporary names census authorized)
  unfolding Census.count_others
  counts_others report_temporary [] census authorized = pures s P E fails _
  counts_others report_temporary (name ∷ names) census authorized =
      branch (any (λ known. known == name) authorized)
        (λ q. counts_others report_temporary names census authorized)
        (λ q. bind (silents s P E fails (s.is_ignorable name)) λ ignorable.
          branch ignorable (λ i. counts_others report_temporary names census authorized)
            (λ i.
              bind (counts_other report_temporary census name)
                λ next. counts_others report_temporary names next authorized))

  pub counts : (report_temporary : Bool) → Keeps P E (Census.template_census s report_temporary)
  unfolding Census.template_census
  counts report_temporary = bind (silents s P E fails _) λ names.
      bind (counts_records names _ []) λ first. counts_others report_temporary names first.0 first.1

  cleaned_run :
      ((name : Bytes) (log : List TemplateEvent) → P log → P (cleaned name ∷ log))
      → (name : Bytes) (x : Result (Unit {0}) × W) (log : List TemplateEvent) → P log
      → Holds (λ _. On P) (On E) (noted_ok (cleaned name) log x)
  cleaned_run adds name (ok a, w) log p = adds name log p
  cleaned_run adds name (err e, w) log p = fails log p

  pub cleans :
      ((name : Bytes) (log : List TemplateEvent) → P log → P (cleaned name ∷ log))
      → (name : Bytes) → Keeps P E (Census.clean_predecessor_temporary s name)
  unfolding Census.clean_predecessor_temporary note_ok
  cleans adds name = bind (finds_predecessor s P E fails name) λ found. record {
    run = λ w p. cleaned_run adds name (s.remove_temporary name found.0.binding w.outside) w.log p;
  }
