-- ===== src/Template/Collect.antt =====
-- src/template.rs: `gc`, which removes the templates that no session needs. Whether one does is asked
-- of the caller, each time while the template's lease is held.
use git_vws.Authority.Identity.{Identity}
use git_vws.Storage.Receipts.{SealedTreeReceipt}
use git_vws.Storage.Modes.{private_directory, sealed_directory, owned_tree_binding}
use git_vws.Effect.{World, M, ◌>>=◌, ◌>>◌, lift, note_ok, silent, caught, pure}
use git_vws.Template.Record.{TemplatePayload, TemplateRecord, tombstone_name}
use git_vws.Template.Store.{
  Store, TemplateCapability, TemplateEvent, counted, destroyed, corrupt, template_recovery,
  tombstone_cleanup_mode, cstring, named_identity, sealed_root, tombstone_root,
  revalidate_template_capability, revalidate_template_tombstone_capability,
  replace_template_capability, remove_template_record,
}
use git_vws.Template.Census.{template_item, finding, clean_predecessor_temporary, template_census}
use git_vws.Maintenance.Report.{MaintenanceReport}
use git_vws.Base.{
  ℕ, Bool, true, false, ◌&&◌, Option, none, some, List, [], ◌∷◌, if◌then◌else◌, ◌==◌, nat_Eq,
  string_Eq, bytes_Eq, option_bytes_Eq, option_nat_Eq, any, Bytes, codes, Error, Result, ok, err,
  guard,
}

-- The names that a tombstone and its root stand under are not safely recoverable.
abbrev pub unbound : Error
unbound = template_recovery "template root and tombstone names are not safely recoverable"

unfoldable pub tombstoned_record : TemplateRecord → Bytes → SealedTreeReceipt → TemplateRecord
tombstoned_record r root sealed = record r {
  version = 4;
  payload = TemplatePayload.tombstoned root (tombstone_name r.key) sealed;
}

unfoldable pub has_key : Bytes → List Bytes → Bool
has_key key keys = any (λ k. k == key) keys

module _ {W : Type 0} (s : Store W) (census : W → Result (List Bytes) × W) where
  abbrev pub asked :
      List TemplateEvent → Result (List Bytes) × W → Result (List Bytes) × World W TemplateEvent
  asked log (ok keys, outside) = (ok keys, record { outside = outside; log = counted keys ∷ log })
  asked log (err e, outside) = (err e, record { outside = outside; log = log })

  -- `census()?`: the keys of the templates that sessions need
  unfoldable pub ask : M W TemplateEvent (List Bytes)
  ask w = asked w.log (census w.outside)

  -- `prepare_template_tombstone_rename`
  unfoldable pub make_private : ℕ → Identity → M W TemplateEvent (Unit {0})
  make_private root expected = do
    i ← silent (s.identity_of root)
    if private_directory s.me i && owned_tree_binding s.me i expected then pure tt else do
      lift (
          guard (sealed_directory s.me i && owned_tree_binding s.me i expected)
            (template_recovery "template root is not eligible for the tombstone mode transition"))
      silent (s.change_mode root 0o700)
      silent (s.sync_all root)
      now ← silent (s.identity_of root)
      lift (
          guard (private_directory s.me now && owned_tree_binding s.me now expected)
            (template_recovery "template root changed during the tombstone mode transition"))

  unfoldable pub prepare_template_tombstone_rename : ℕ → Identity → M W TemplateEvent (Unit {0})
  unfolding make_private
  prepare_template_tombstone_rename root expected =
      if s.macos then make_private root expected else pure tt

  abbrev pub bound_to : Identity → Identity → Bool
  bound_to expected i = owned_tree_binding s.me i expected && tombstone_cleanup_mode s.me i

  abbrev is_bound : Identity → Option Identity → Bool
  is_bound expected none = false
  is_bound expected (some i) = bound_to expected i

  unfoldable pub renamed : Bytes → Bytes → Identity → M W TemplateEvent (Unit {0})
  renamed root tombstone expected = do
    silent (s.rename_no_replace root tombstone)
    silent s.sync_container
    now ← named_identity s tombstone
    lift (
        guard (is_bound expected now)
          (template_recovery "template tombstone binding changed after rename"))

  -- `promote_template_tombstone`, with what stands under the two names
  unfoldable pub promote :
      Bytes → Bytes → Identity → Option Identity → Option Identity → M W TemplateEvent (Unit {0})
  promote root tombstone expected (some i) none =
      if bound_to expected i then renamed root tombstone expected else lift (err unbound)
  promote root tombstone expected none (some i) = lift (guard (bound_to expected i) unbound)
  promote root tombstone expected _ _ = lift (err unbound)

  unfoldable pub promote_template_tombstone :
      Bytes → Bytes → Identity → M W TemplateEvent (Unit {0})
  unfolding promote
  promote_template_tombstone root tombstone expected = do
    root_entry ← named_identity s root
    tombstone_entry ← named_identity s tombstone
    promote root tombstone expected root_entry tombstone_entry

  -- Whether the template is not to be removed: it is asked where `reachability` is given.
  unfoldable pub is_needed : Bool → Bytes → M W TemplateEvent Bool
  is_needed true key = do keys ← ask; pure (has_key key keys)
  is_needed false key = pure false

  -- The end of `complete_template_tombstone`, once nothing needs the template.
  unfoldable pub destroy_free :
      TemplateCapability
      → TemplateCapability
      → Bytes
      → Bytes
      → SealedTreeReceipt
      → ℕ
      → M W TemplateEvent Bool
  destroy_free expected current root tombstone sealed leased = do
    prepare_template_tombstone_rename leased sealed.root
    promote_template_tombstone root tombstone sealed.root
    last ← revalidate_template_tombstone_capability s current leased sealed
    note_ok (destroyed expected.template_record) (s.remove_owned_tree_gc tombstone sealed.root)
    remove_template_record s last
    pure true

  -- The tree under the tombstone's name, with its lease, is removed, and then the record.
  unfoldable pub destroy_tree :
      TemplateCapability → Bool → Bytes → Bytes → SealedTreeReceipt → ℕ → M W TemplateEvent Bool
  unfolding destroy_free
  destroy_tree expected reachability root tombstone sealed leased = do
    silent (s.acquire_exclusive leased)
    current ← revalidate_template_tombstone_capability s expected leased sealed
    needed ← is_needed reachability current.template_record.key
    if needed then pure false else destroy_free expected current root tombstone sealed leased

  unfoldable pub remove_only_record : TemplateCapability → Bool → M W TemplateEvent Bool
  remove_only_record expected reachability = do
    needed ← is_needed reachability expected.template_record.key
    if needed then pure false else do remove_template_record s expected; pure true

  unfoldable pub complete_bound :
      TemplateCapability
      → Bool
      → Bytes
      → Bytes
      → SealedTreeReceipt
      → Option Identity
      → Option Identity
      → M W TemplateEvent Bool
  unfolding destroy_tree remove_only_record
  complete_bound expected reachability root tombstone sealed (some i) none =
      if owned_tree_binding s.me i sealed.root
      then (tombstone_root s root sealed expected.template_record.volume >>= λ leased.
          destroy_tree expected reachability root tombstone sealed leased)
      else lift (err unbound)
  complete_bound expected reachability root tombstone sealed none (some i) =
      tombstone_root s tombstone sealed expected.template_record.volume >>= λ leased.
      destroy_tree expected reachability root tombstone sealed leased
  complete_bound expected reachability root tombstone sealed none none =
      remove_only_record expected reachability
  complete_bound expected reachability root tombstone sealed (some i) (some j) = lift (err unbound)

  unfoldable pub complete_payload :
      TemplateCapability → Bool → TemplatePayload → M W TemplateEvent Bool
  unfolding complete_bound
  complete_payload expected reachability (TemplatePayload.tombstoned root tombstone sealed) = do
    lift (cstring s root)
    lift (cstring s tombstone)
    root_entry ← named_identity s root
    tombstone_entry ← named_identity s tombstone
    complete_bound expected reachability root tombstone sealed root_entry tombstone_entry
  complete_payload expected reachability _ =
      lift (err (corrupt "template record is not TOMBSTONED"))

  unfoldable pub complete_template_tombstone : TemplateCapability → Bool → M W TemplateEvent Bool
  unfolding complete_payload
  complete_template_tombstone expected reachability =
      complete_payload expected reachability expected.template_record.payload

  -- `transition_template_tombstone` of a READY record
  unfoldable pub transition_template_tombstone :
      TemplateCapability → Bytes → SealedTreeReceipt → M W TemplateEvent TemplateCapability
  transition_template_tombstone expected root sealed = do
    let r = tombstoned_record expected.template_record root sealed
    bytes ← lift (s.to_json r)
    replace_template_capability s expected r bytes

  unfoldable pub gc_ready_template :
      TemplateCapability → Bytes → SealedTreeReceipt → M W TemplateEvent Bool
  gc_ready_template c root_name sealed = do
    root ← sealed_root s root_name sealed c.template_record.volume
    silent (s.acquire_exclusive root)
    _ ← revalidate_template_capability s c (some (root, sealed.root))
    keys ← ask
    if has_key c.template_record.key keys then pure false else do
      tombstoned ← transition_template_tombstone c root_name sealed
      _ ← complete_template_tombstone tombstoned false
      pure true

  -- What the report says of a template after its round, and whether the collection goes on.
  unfoldable pub tombstone_outcome :
      MaintenanceReport → Bytes → Result Bool → MaintenanceReport × Bool
  tombstone_outcome report name (ok true) =
      (template_item report name (codes "TOMBSTONED") (codes "REMOVED"), true)
  tombstone_outcome report name (ok false) =
      (template_item report name (codes "TOMBSTONED") (codes "RETAINED"), true)
  tombstone_outcome report name (err e) = (finding report name (codes "TOMBSTONED"), false)

  unfoldable pub ready_outcome : MaintenanceReport → Bytes → Result Bool → MaintenanceReport × Bool
  ready_outcome report name (ok true) =
      (template_item report name (codes "TOMBSTONED") (codes "REMOVED"), true)
  ready_outcome report name (ok false) =
      (template_item report name (codes "READY") (codes "RETAINED"), true)
  ready_outcome report name (err e) =
      if e.code == "TEMPLATE_BUSY"
      then (template_item report name (codes "READY") (codes "BUSY"), true)
      else (finding report name (codes "READY"), false)

  unfoldable pub gc_template :
      TemplateCapability
      → TemplatePayload
      → MaintenanceReport
      → M W TemplateEvent (MaintenanceReport × Bool)
  unfolding tombstone_outcome ready_outcome
  gc_template c (TemplatePayload.tombstoned root tombstone sealed) report = do
    r ← caught (complete_template_tombstone c true)
    pure (tombstone_outcome report c.basename r)
  gc_template c (TemplatePayload.ready root sealed) report = do
    r ← caught (gc_ready_template c root sealed)
    pure (ready_outcome report c.basename r)
  gc_template c _ report = pure (finding report c.basename (codes "INCOMPLETE"), false)

  unfoldable pub gc_templates :
      List TemplateCapability → MaintenanceReport → M W TemplateEvent MaintenanceReport
  unfolding gc_template
  gc_templates [] report = pure report
  gc_templates (c ∷ cs) report = gc_template c c.template_record.payload report >>= λ next.
      if next.1 then gc_templates cs next.0 else pure next.0

  unfoldable pub gc_temporaries :
      List Bytes → List TemplateCapability → MaintenanceReport → M W TemplateEvent MaintenanceReport
  unfolding gc_templates
  gc_temporaries [] cs report = gc_templates cs report
  gc_temporaries (name ∷ names) cs report = caught (clean_predecessor_temporary s name) >>= λ r.
      elim r [
        | ok u ↦ gc_temporaries names cs (template_item report name (codes "TMP") (codes "REMOVED"))
        | err e ↦ pure (finding report name (codes "TMP"))
      ]

  unfoldable pub gc : M W TemplateEvent MaintenanceReport
  gc = do
    planned ← template_census s false
    if planned.report.recovery_required
        then pure planned.report
        else gc_temporaries planned.temporaries planned.capabilities
            (record planned.report { entries = [] })
