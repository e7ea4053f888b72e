-- ===== src/Template/Completing.antt =====
-- The end of a template: its tombstone is completed only where the newest answer to the question which
-- templates the sessions need does not have its key.
use git_vws.Authority.Identity.{Identity}
use git_vws.Storage.Receipts.{SealedTreeReceipt}
use git_vws.Storage.Modes.{private_directory, owned_tree_binding}
use git_vws.Effect.{
  lift, silent, note_ok, noted_ok, Holds, Ensures, bind, seq, lifted, pured, given, branch, weaken,
}
use git_vws.Template.Record.{TemplatePayload, TemplateRecord}
use git_vws.Template.Store
use git_vws.Template.Store.{
  Store, TemplateCapability, TemplateEvent, counted, wrote, destroyed, removed, cleaned,
}
use git_vws.Template.Collect
use git_vws.Template.Collect.{has_key}
use git_vws.Template.Keeps
use git_vws.Template.Keeps.{On}
use git_vws.Base.{
  ℕ, ◌≡◌, refl, sym, subst, ◌∙◌, Bool, true, false, ◌&&◌, not, Option, none, some, List, [], ◌∷◌,
  nat_Eq, string_Eq, bytes_Eq, option_bytes_Eq, option_nat_Eq, Bytes, Result, ok, err,
}

-- The newest answer does not have the key; before any answer every template counts as needed.
unfoldable pub unneeded : Bytes → List TemplateEvent → Bool
unneeded key [] = false
unneeded key (counted keys ∷ log) = not (has_key key keys)
unneeded key (wrote r ∷ log) = unneeded key log
unneeded key (destroyed r ∷ log) = unneeded key log
unneeded key (removed r ∷ log) = unneeded key log
unneeded key (cleaned name ∷ log) = unneeded key log

unfoldable pub Guarded : List TemplateEvent → Type 0
unfolding unneeded
Guarded [] = Unit {0}
Guarded (counted keys ∷ log) = Guarded log
Guarded (cleaned name ∷ log) = Guarded log
Guarded (wrote r ∷ log) = (unneeded r.key log ≡ true) × Guarded log
Guarded (destroyed r ∷ log) = (unneeded r.key log ≡ true) × Guarded log
Guarded (removed r ∷ log) = (unneeded r.key log ≡ true) × Guarded log

-- The log is guarded, and the template is not needed.
abbrev pub Free : Bytes → List TemplateEvent → Type 0
Free key log = (unneeded key log ≡ true) × Guarded log

abbrev pub kept : (log : List TemplateEvent) → Guarded log → Guarded log
kept log p = p

negated : (b : Bool) → b ≡ false → not b ≡ true
negated false q = refl
negated true q = absurd (cc)

module _ {W : Type 0} (s : Store W) (census : W → Result (List Bytes) × W) where
  fails : (key : Bytes) (log : List TemplateEvent) → Free key log → Guarded log
  fails key log p = p.1

  asked_run :
      (key : Bytes) (log : List TemplateEvent) (x : Result (List Bytes) × W)
      → Guarded log
      → Holds
          (λ keys w. Guarded w.log × (has_key key keys ≡ false → unneeded key w.log ≡ true))
          (On Guarded)
          (Collect.asked s census log x)
  unfolding Guarded unneeded
  asked_run key log (ok keys, w) p = (p, negated (has_key key keys))
  asked_run key log (err e, w) p = p

  pub asks :
      (key : Bytes)
      → Ensures
          (On Guarded)
          (Collect.ask s census)
          (λ keys w. Guarded w.log × (has_key key keys ≡ false → unneeded key w.log ≡ true))
          (On Guarded)
  unfolding Collect.ask
  asks key = record { run = λ w p. asked_run key w.log (census w.outside) p }

  destroyed_run :
      (r : TemplateRecord) (log : List TemplateEvent) (x : Result (Unit {0}) × W)
      → Free r.key log
      → Holds (λ _. On (Free r.key)) (On Guarded) (noted_ok (destroyed r) log x)
  unfolding Guarded unneeded
  destroyed_run r log (ok u, w) p = (p.0, p)
  destroyed_run r log (err e, w) p = p.1

  removed_run :
      (r : TemplateRecord) (log : List TemplateEvent) (x : Result (Unit {0}) × W)
      → Free r.key log
      → Holds (λ _. On Guarded) (On Guarded) (noted_ok (removed r) log x)
  unfolding Guarded unneeded
  removed_run r log (ok u, w) p = p
  removed_run r log (err e, w) p = p.1

  removes :
      (c : TemplateCapability)
      → Ensures
          (On (Free c.template_record.key))
          (Store.remove_template_record s c)
          (λ _. On Guarded)
          (On Guarded)
  unfolding Store.remove_template_record note_ok
  removes c = record {
    run = λ w p.
        removed_run c.template_record w.log (s.remove_bound c.basename c.binding w.outside) p;
  }

  abbrev pub Pre : Bool → Bytes → List TemplateEvent → Type 0
  Pre reachability key log = Guarded log × (reachability ≡ false → unneeded key log ≡ true)

  moved :
      {r r' : TemplateRecord} (log : List TemplateEvent) → r' ≡ r → Free r.key log → Free r'.key log
  moved log q p = (subst (λ x. unneeded x.key log ≡ true) (sym q) p.0, p.1)

  needs :
      (reachability : Bool) (key : Bytes)
      → Ensures
          (On (Pre reachability key))
          (Collect.is_needed s census reachability key)
          (λ needed w. Pre needed key w.log)
          (On Guarded)
  unfolding Collect.is_needed
  needs true key =
      weaken (λ w p. p.0) (λ b w p. p) (λ w p. p) (bind (asks key) λ keys. pured _ (λ w p. p))
  needs false key = pured false (λ w p. p)

  module _ (key : Bytes) where
    lifts : {A : Type 0} (r : Result A) → Keeps.Keeps {W = W} (Free key) Guarded (lift r)
    lifts r = Keeps.lifts s (Free key) Guarded (fails key) r

    silents : {A : Type 0} (op : W → Result A × W) → Keeps.Keeps (Free key) Guarded (silent op)
    silents op = Keeps.silents s (Free key) Guarded (fails key) op

    names_entry : (name : Bytes) → Keeps.Keeps (Free key) Guarded (Store.named_identity s name)
    names_entry name = Keeps.names_entry s (Free key) Guarded (fails key) name

  makes_private :
      (key : Bytes) (root : ℕ) (i : Identity)
      → Keeps.Keeps (Free key) Guarded (Collect.make_private s census root i)
  unfolding Collect.make_private
  makes_private key root i = bind (silents key _) λ now.
      branch (private_directory s.me now && owned_tree_binding s.me now i)
        (λ q. Keeps.pures s (Free key) Guarded (fails key) tt)
        (λ q.
          seq (lifts key _)
            (seq (silents key _) (seq (silents key _) (bind (silents key _) λ last. lifts key _))))

  prepares :
      (key : Bytes) (root : ℕ) (i : Identity)
      → Keeps.Keeps (Free key) Guarded (Collect.prepare_template_tombstone_rename s census root i)
  unfolding Collect.prepare_template_tombstone_rename
  prepares key root i =
      branch s.macos (λ q. makes_private key root i)
        (λ q. Keeps.pures s (Free key) Guarded (fails key) tt)

  renames :
      (key root tombstone : Bytes) (i : Identity)
      → Keeps.Keeps (Free key) Guarded (Collect.renamed s census root tombstone i)
  unfolding Collect.renamed
  renames key root tombstone i =
      seq (silents key _) (seq (silents key _) (bind (names_entry key _) λ now. lifts key _))

  promotes_bound :
      (key root tombstone : Bytes) (i : Identity) (left right : Option Identity)
      → Keeps.Keeps (Free key) Guarded (Collect.promote s census root tombstone i left right)
  unfolding Collect.promote
  promotes_bound key root tombstone i (some j) none =
      branch (Collect.bound_to s census i j) (λ q. renames key root tombstone i)
        (λ q. lifts key (err Collect.unbound))
  promotes_bound key root tombstone i none (some j) = lifts key _
  promotes_bound key root tombstone i none none = lifts key _
  promotes_bound key root tombstone i (some j) (some k) = lifts key _

  promotes :
      (key root tombstone : Bytes) (i : Identity)
      → Keeps.Keeps
          (Free key)
          Guarded
          (Collect.promote_template_tombstone s census root tombstone i)
  unfolding Collect.promote_template_tombstone
  promotes key root tombstone i =
      bind (names_entry key _)
        λ left. bind (names_entry key _) λ right. promotes_bound key root tombstone i left right

  -- The part of `destroy_tree` once nothing needs the template.
  destroys_rest :
      (expected current : TemplateCapability) (root tombstone : Bytes) (sealed : SealedTreeReceipt)
      (leased : ℕ)
      → current.template_record ≡ expected.template_record
      → Ensures
          (On (Free current.template_record.key))
          (Collect.destroy_free s census expected current root tombstone sealed leased)
          (λ _. On Guarded)
          (On Guarded)
  unfolding Collect.destroy_free note_ok
  destroys_rest expected current root tombstone sealed leased q =
      let key = current.template_record.key in
      seq (prepares key leased sealed.root) (
        seq (promotes key root tombstone sealed.root) (
          bind (Keeps.revalidates_tombstone s (Free key) Guarded (fails key) current leased sealed)
            λ last. given λ same.
              seq
                (record {
                  run = λ w p.
                      destroyed_run expected.template_record w.log
                        (s.remove_owned_tree_gc tombstone sealed.root w.outside)
                        (moved w.log (sym q) p);
                })
                (seq
                  (weaken (λ w p. moved w.log (same ∙ q) p) (λ a w p. p) (λ w p. p) (removes last))
                  (pured true (λ w p. p)))))

  destroys :
      (expected : TemplateCapability) (reachability : Bool) (root tombstone : Bytes)
      (sealed : SealedTreeReceipt) (leased : ℕ)
      → Ensures
          (On (Pre reachability expected.template_record.key))
          (Collect.destroy_tree s census expected reachability root tombstone sealed leased)
          (λ _. On Guarded)
          (On Guarded)
  unfolding Collect.destroy_tree
  destroys expected reachability root tombstone sealed leased =
      seq (Keeps.silents s (Pre reachability expected.template_record.key) Guarded (λ log p. p.0) _)
        (bind
          (Keeps.revalidates_tombstone s (Pre reachability expected.template_record.key) Guarded
            (λ log p. p.0) expected leased sealed)
          λ current. given λ same.
            bind
              (weaken
                (λ w p. (p.0, λ e. subst (λ x. unneeded x.key w.log ≡ true) (sym same) (p.1 e)))
                (λ a w p. p) (λ w p. p) (needs reachability current.template_record.key))
              λ needed.
                branch needed (λ e. pured false (λ w p. p.0))
                  (λ e.
                    weaken (λ w p. (p.1 e, p.0)) (λ a w p. p) (λ w p. p)
                      (destroys_rest expected current root tombstone sealed leased same)))

  removes_only :
      (expected : TemplateCapability) (reachability : Bool)
      → Ensures
          (On (Pre reachability expected.template_record.key))
          (Collect.remove_only_record s census expected reachability)
          (λ _. On Guarded)
          (On Guarded)
  unfolding Collect.remove_only_record
  removes_only expected reachability =
      bind (needs reachability expected.template_record.key) λ needed.
        branch needed (λ e. pured false (λ w p. p.0))
          (λ e.
            seq (weaken (λ w p. (p.1 e, p.0)) (λ a w p. p) (λ w p. p) (removes expected))
              (pured true (λ w p. p)))

  completes_bound :
      (expected : TemplateCapability) (reachability : Bool) (root tombstone : Bytes)
      (sealed : SealedTreeReceipt) (left right : Option Identity)
      → Ensures
          (On (Pre reachability expected.template_record.key))
          (Collect.complete_bound s census expected reachability root tombstone sealed left right)
          (λ _. On Guarded)
          (On Guarded)
  unfolding Collect.complete_bound
  completes_bound expected reachability root tombstone sealed (some i) none =
      let P = Pre reachability expected.template_record.key in
      branch (owned_tree_binding s.me i sealed.root)
        (λ q.
          bind
            (Keeps.opens_tombstone s P Guarded (λ log p. p.0) root sealed
              expected.template_record.volume)
            λ leased. destroys expected reachability root tombstone sealed leased)
        (λ q. lifted (err Collect.unbound) (λ a w e p. p.0) (λ w p. p.0))
  completes_bound expected reachability root tombstone sealed none (some i) =
      bind
        (Keeps.opens_tombstone s (Pre reachability expected.template_record.key) Guarded
          (λ log p. p.0) _ _ _)
        λ leased. destroys expected reachability root tombstone sealed leased
  completes_bound expected reachability root tombstone sealed none none =
      removes_only expected reachability
  completes_bound expected reachability root tombstone sealed (some i) (some j) =
      lifted _ (λ a w e p. p.0) (λ w p. p.0)

  completes_payload :
      (expected : TemplateCapability) (reachability : Bool) (payload : TemplatePayload)
      → Ensures
          (On (Pre reachability expected.template_record.key))
          (Collect.complete_payload s census expected reachability payload)
          (λ _. On Guarded)
          (On Guarded)
  unfolding Collect.complete_payload
  completes_payload expected reachability (TemplatePayload.tombstoned root tombstone sealed) =
      let P = Pre reachability expected.template_record.key in
      seq (Keeps.lifts s P Guarded (λ log p. p.0) _) (
        seq (Keeps.lifts s P Guarded (λ log p. p.0) _) (
          bind (Keeps.names_entry s P Guarded (λ log p. p.0) _) λ left.
            bind (Keeps.names_entry s P Guarded (λ log p. p.0) _)
              λ right. completes_bound expected reachability root tombstone sealed left right))
  completes_payload expected reachability (TemplatePayload.prepared building) =
      lifted _ (λ a w e p. p.0) (λ w p. p.0)
  completes_payload expected reachability (TemplatePayload.materializing building i) =
      lifted _ (λ a w e p. p.0) (λ w p. p.0)
  completes_payload expected reachability (TemplatePayload.publishing building name sealed) =
      lifted _ (λ a w e p. p.0) (λ w p. p.0)
  completes_payload expected reachability (TemplatePayload.ready root sealed) =
      lifted _ (λ a w e p. p.0) (λ w p. p.0)

  pub completes :
      (expected : TemplateCapability) (reachability : Bool)
      → Ensures
          (On (Pre reachability expected.template_record.key))
          (Collect.complete_template_tombstone s census expected reachability)
          (λ _. On Guarded)
          (On Guarded)
  unfolding Collect.complete_template_tombstone
  completes expected reachability =
      completes_payload expected reachability expected.template_record.payload
