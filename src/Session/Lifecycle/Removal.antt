-- ===== src/Session/Lifecycle/Removal.antt =====
-- What a removal does, whatever the host answers: in which order, and what it refuses.
use git_vws.Authority.Identity.{Identity}
use git_vws.Effect.{
  World, M, note_ok, noted_ok, Holds, Ensures, bind, seq, lifted, given, pured, map_errored, branch,
  weaken,
}
use git_vws.Session.Types.{SessionRecord, SessionPayload}
use git_vws.Session.Validate.{validate_record, encode_record}
use git_vws.Session.Host.{
  RecordBinding, RecordCapability, SessionContext, Event, wrote, removed, destroyed, Host,
}
use git_vws.Session.Store
use git_vws.Session.Publish.Stays
use git_vws.Session.Publish.Stays.{On}
use git_vws.Session.Lifecycle
use git_vws.Base.{
  ℕ, ◌≡◌, refl, ap, ◌⊎◌, inl, inr, Bool, true, false, ◌&&◌, not, Option, none, some, List, ◌∷◌,
  nat_Eq, string_Eq, bytes_Eq, option_bytes_Eq, option_nat_Eq, Bytes, Result, ok, err, >>=-eq-ok,
}

unfoldable pub is_tombstoned : SessionPayload → Bool
is_tombstoned (SessionPayload.tombstoned root tombstone i) = true
is_tombstoned _ = false

-- Since `l`, at most the record was made a tombstone.
unfoldable pub Marked : (SessionRecord → Result (Unit {0})) → List Event → List Event → Type 0
Marked valid l log =
    (log ≡ l)
    ⊎ ((r : SessionRecord) × (log ≡ wrote r ∷ l)
        × (is_tombstoned r.payload ≡ true)
        × (valid r ≡ ok tt))

-- After that a tree was removed.
unfoldable pub Destroyed : (SessionRecord → Result (Unit {0})) → List Event → List Event → Type 0
Destroyed valid l log =
    (name : Bytes) × (rest : List Event) × (log ≡ destroyed name ∷ rest) × Marked valid l rest

-- Since `l`, nothing but these, in this order.
unfoldable pub Underway : (SessionRecord → Result (Unit {0})) → List Event → List Event → Type 0
Underway valid l log = Marked valid l log ⊎ Destroyed valid l log

-- The last of all was to remove the record.
unfoldable pub Gone : (SessionRecord → Result (Unit {0})) → List Event → List Event → Type 0
Gone valid l log =
    (name : Bytes) × (rest : List Event) × (log ≡ removed name ∷ rest) × Underway valid l rest

-- What is known of the log after a run, by its result.
unfoldable pub Outcome :
    {W A : Type 0}
    → (List Event → Type 0)
    → (List Event → Type 0)
    → Result A × World W Event
    → Type 0
Outcome Q E (ok a, w) = Q w.log
Outcome Q E (err e, w) = E w.log

module _ {W : Type 0} (h : Host W) (l : List Event) where
  abbrev valid : SessionRecord → Result (Unit {0})
  valid r = validate_record h.me h.digest r

  marked : (log : List Event) → Marked valid l log → Underway valid l log
  unfolding Underway
  marked log p = inl p

  drop_run :
      (name : Bytes) (s : Result (Unit {0}) × W) (log : List Event)
      → Underway valid l log
      → Holds (λ _. On (Gone valid l)) (On (Underway valid l)) (noted_ok (removed name) log s)
  unfolding Gone
  drop_run name (ok a, w) log p = (name, log, refl, p)
  drop_run name (err e, w) log p = p

  drops :
      (c : RecordCapability)
      → Ensures
          (On (Underway valid l))
          (Store.remove_record_capability h c)
          (λ _. On (Gone valid l))
          (On (Underway valid l))
  unfolding Store.remove_record_capability note_ok
  drops c = map_errored _ (record {
    run = λ w p. drop_run c.basename (h.remove_bound c.basename c.binding w.outside) w.log p;
  })

  drops-Marked :
      (c : RecordCapability)
      → Ensures
          (On (Marked valid l))
          (Store.remove_record_capability h c)
          (λ _. On (Gone valid l))
          (On (Underway valid l))
  drops-Marked c = weaken (λ w p. marked w.log p) (λ a w q. q) (λ w q. q) (drops c)

  tree_run :
      (name : Bytes) (s : Result (Unit {0}) × W) (log : List Event)
      → Marked valid l log
      → Holds (λ _. On (Underway valid l)) (On (Underway valid l)) (noted_ok (destroyed name) log s)
  unfolding Underway Destroyed
  tree_run name (ok a, w) log p = inr (name, log, refl, p)
  tree_run name (err e, w) log p = inl p

  trees :
      (name : Bytes) (op : W → Result (Unit {0}) × W)
      → Ensures
          (On (Marked valid l))
          (note_ok (destroyed name) op)
          (λ _. On (Underway valid l))
          (On (Underway valid l))
  unfolding note_ok
  trees name op = record { run = λ w p. tree_run name (op w.outside) w.log p }

  containers :
      (P E : List Event → Type 0) (fails : (log : List Event) → P log → E log) (r : SessionRecord)
      → Stays.Stays P E (Lifecycle.ensure_record_container h r)
  unfolding Lifecycle.ensure_record_container
  containers P E fails r = bind (Stays.silents h P E fails _) λ container.
      seq (Stays.lifts h P E fails _)
        (bind (Stays.silents h P E fails _) λ volume. Stays.lifts h P E fails _)

  opens :
      (P E : List Event → Type 0) (fails : (log : List Event) → P log → E log) (r : SessionRecord)
      (name : Bytes) (i : Identity)
      → Stays.Stays P E (Lifecycle.open_authorized_root h r name i)
  unfolding Lifecycle.open_authorized_root
  opens P E fails r name i = seq (containers P E fails r) (
      seq (Stays.lifts h P E fails _) (
        bind (Stays.silents h P E fails _) λ root. bind (Stays.silents h P E fails _) λ entry.
          seq (Stays.lifts h P E fails _) (
            bind (Stays.silents h P E fails _) λ opened. seq (Stays.lifts h P E fails _) (
              bind (Stays.silents h P E fails _)
                λ volume. seq (Stays.lifts h P E fails _) (Stays.pures h P E fails _)))))

  promotes :
      (P E : List Event → Type 0) (fails : (log : List Event) → P log → E log)
      (root tombstone : Bytes) (i : Identity)
      → Stays.Stays P E (Lifecycle.promote_tombstone h root tombstone i)
  unfolding Lifecycle.promote_tombstone
  promotes P E fails root tombstone i = bind (Stays.silents h P E fails _) λ a.
      bind (Stays.silents h P E fails _) λ b.
        branch (Lifecycle.at_node a i && Lifecycle.is_absent b)
          (λ _. seq (Stays.silents h P E fails _) (
            seq (Stays.silents h P E fails _)
              (bind (Stays.silents h P E fails _) λ moved. Stays.lifts h P E fails _)))
          (λ _. Stays.lifts h P E fails _)

  abbrev Finishes : {A : Type 0} → M W Event A → Type 0
  Finishes m = Ensures (On (Marked valid l)) m (λ _. On (Gone valid l)) (On (Underway valid l))

  destroys :
      (c : RecordCapability) (root tombstone : Bytes) (i : Identity) (collecting : Bool)
      (leased : ℕ)
      → Finishes (Lifecycle.destroy h c root tombstone i collecting leased)
  unfolding Lifecycle.destroy
  destroys c root tombstone i collecting leased = seq (Stays.silents h _ _ marked _) (
      bind (Stays.revalidates h _ _ marked c) λ current. seq (Stays.lifts h _ _ marked _) (
        seq (promotes _ _ marked root tombstone i) (
          bind (Stays.revalidates h _ _ marked current)
            λ checked. seq (trees tombstone _) (drops checked))))

  destroys_held :
      (c : RecordCapability) (root tombstone : Bytes) (i : Identity) (collecting : Bool)
      (held : Option Bytes)
      → Finishes (Lifecycle.destroy_held h c root tombstone i collecting held)
  unfolding Lifecycle.destroy_held
  destroys_held c root tombstone i collecting none =
      bind (Stays.revalidates h _ _ marked c) λ current. drops-Marked current
  destroys_held c root tombstone i collecting (some name) =
      bind (opens _ _ marked c.session_record name i)
        λ leased. destroys c root tombstone i collecting leased

  completes :
      (c : RecordCapability) (collecting : Bool)
      → Finishes (Lifecycle.complete_tombstone h c collecting)
  unfolding Lifecycle.complete_tombstone
  completes c collecting = bind (Stays.lifts h _ _ marked _) λ names.
      seq (Stays.lifts h _ _ marked _) (
        seq (Stays.lifts h _ _ marked _) (
          seq (containers _ _ marked c.session_record) (
            bind (Stays.silents h _ _ marked _) λ a. bind (Stays.silents h _ _ marked _) λ b.
              bind (Stays.lifts h _ _ marked _)
                λ held. destroys_held c names.0 names.1 names.2 collecting held)))

  abbrev Start : List Event → Type 0
  Start log = log ≡ l

  unchanged : (log : List Event) → log ≡ l → Underway valid l log
  unfolding Underway Marked
  unchanged log p = inl (inl p)

  tombstone_run :
      (r : SessionRecord)
      → is_tombstoned r.payload ≡ true
      → valid r ≡ ok tt
      → (s : Result RecordBinding × W) (log : List Event) → log ≡ l
      → Holds (λ _. On (Marked valid l)) (On (Underway valid l)) (noted_ok (wrote r) log s)
  unfolding Marked
  tombstone_run r t v (ok b, w) log p = inr (r, ap (λ k. wrote r ∷ k) p, t, v)
  tombstone_run r t v (err e, w) log p = unchanged log p

  marks :
      (c : RecordCapability) (r : SessionRecord) (bytes : Bytes)
      → is_tombstoned r.payload ≡ true
      → valid r ≡ ok tt
      → Ensures
          (On Start)
          (Store.replace_record_capability h c r bytes)
          (λ _. On (Marked valid l))
          (On (Underway valid l))
  unfolding Store.replace_record_capability note_ok
  marks c r bytes t v =
      bind
        (map_errored _ (record {
          run = λ w p.
              tombstone_run r t v (h.replace_bound c.basename bytes c.binding w.outside) w.log p;
        }))
        λ b. Stays.capabilities h (Marked valid l) (Underway valid l) marked _ b

  encoded-valid :
      (r : SessionRecord) (bytes : Bytes)
      → encode_record h.me h.digest h.to_json r ≡ ok bytes
      → valid r ≡ ok tt
  unfolding encode_record
  encoded-valid r bytes e = (>>=-eq-ok (validate_record h.me h.digest r) _ e).1

  transitions :
      (c : RecordCapability)
      → Ensures
          (On Start)
          (Lifecycle.transition_tombstone h c)
          (λ _. On (Marked valid l))
          (On (Underway valid l))
  unfolding Lifecycle.transition_tombstone Lifecycle.tombstoned_record is_tombstoned
  transitions c = bind (lifted _ (λ root w e p. p) (λ w p. unchanged w.log p)) λ root.
      bind (lifted _ (λ b w e p. (p, e)) (λ w p. unchanged w.log p))
        λ b. given λ e. marks c _ b refl (encoded-valid _ b e)

  -- After a stage of the removal: what is left to complete, or nothing.
  abbrev Staged : Option RecordCapability → List Event → Type 0
  Staged none log = Gone valid l log
  Staged (some c) log = Marked valid l log

  abbrev Stage : M W Event (Option RecordCapability) → Type 0
  Stage m = Ensures (On Start) m (λ a. On (Staged a)) (On (Underway valid l))

  readies :
      (context : SessionContext) (c : RecordCapability) (force : Bool)
      → Stage (Lifecycle.remove_ready h context c force)
  unfolding Lifecycle.remove_ready
  readies context c force = bind (Stays.loads_capability h _ _ unchanged context c) λ loaded.
      seq (Stays.silents h _ _ unchanged _) (
        bind (Stays.revalidates_lease h _ _ unchanged context c loaded) λ current.
          seq
            (branch force (λ _. Stays.pures h _ _ unchanged tt)
              (λ _.
                Stays.silents h _ _ unchanged
                  (h.ensure_discard_safe loaded current.session_record)))
            (bind (transitions current) λ t. pured _ (λ w p. p)))

  materializings :
      (c : RecordCapability) (force : Bool) (root : Bytes) (i : Identity)
      → Stage (Lifecycle.remove_materializing h c force root i)
  unfolding Lifecycle.remove_materializing
  materializings c force root i = seq (Stays.lifts h _ _ unchanged _) (
      bind (opens _ _ unchanged c.session_record root i) λ leased.
        seq (Stays.silents h _ _ unchanged _) (
          bind (Stays.revalidates h _ _ unchanged c)
            λ current. bind (transitions current) λ t. pured _ (λ w p. p)))

  present-Stays :
      (sid : Bytes)
      → Stays.Stays Start (Underway valid l) (Lifecycle.root_or_tombstone_present h sid)
  unfolding Lifecycle.root_or_tombstone_present
  present-Stays sid = seq (Stays.lifts h _ _ unchanged _) (
      bind (Stays.silents h _ _ unchanged _) λ root.
        branch (not (Lifecycle.is_absent root)) (λ _. Stays.pures h _ _ unchanged true)
          (λ _. seq (Stays.lifts h _ _ unchanged (Store.cstring (Lifecycle.tombstone_name sid))) (
            bind (Stays.silents h _ _ unchanged (h.entry_identity (Lifecycle.tombstone_name sid)))
              λ entry. Stays.pures h _ _ unchanged (not (Lifecycle.is_absent entry)))))

  prepareds : (c : RecordCapability) (force : Bool) → Stage (Lifecycle.remove_prepared h c force)
  unfolding Lifecycle.remove_prepared
  prepareds c force = seq (Stays.lifts h _ _ unchanged _) (
      bind (present-Stays _) λ present. seq (Stays.lifts h _ _ unchanged _) (
        seq (containers _ _ unchanged c.session_record) (
          seq (weaken (λ w p. unchanged w.log p) (λ a w q. q) (λ w q. q) (drops c))
            (pured _ (λ w p. p)))))

  stages :
      (p : SessionPayload) (context : SessionContext) (c : RecordCapability) (force : Bool)
      → Stage (Lifecycle.remove_stage h p context c force)
  unfolding Lifecycle.remove_stage Marked
  stages (SessionPayload.tombstoned root tombstone i) context c force = pured _ (λ w p. inl p)
  stages (SessionPayload.ready q) context c force = readies context c force
  stages (SessionPayload.materializing root i) context c force = materializings c force root i
  stages (SessionPayload.prepared root) context c force = prepareds c force

  finals :
      (rest : Option RecordCapability)
      → Ensures
          (On (Staged rest))
          (Lifecycle.complete h rest)
          (λ _. On (Gone valid l))
          (On (Underway valid l))
  unfolding Lifecycle.complete
  finals none = pured _ (λ w p. p)
  finals (some c) = completes c false

  removals :
      (context : SessionContext) (c : RecordCapability) (force : Bool)
      → Ensures
          (On Start)
          (Lifecycle.remove_recorded h context c force)
          (λ _. On (Gone valid l))
          (On (Underway valid l))
  unfolding Lifecycle.remove_recorded
  removals context c force =
      seq (Stays.lifts h _ _ unchanged _)
        (bind (stages c.session_record.payload context c force) λ rest. finals rest)

  outcome :
      {A : Type 0} (Q E : List Event → Type 0) (s : Result A × World W Event)
      → Holds (λ _. On Q) (On E) s
      → Outcome Q E s
  unfolding Outcome
  outcome Q E (ok a, w) p = p
  outcome Q E (err e, w) p = p

module _ {W : Type 0} (h : Host W) where
  -- Whatever the host answers, these are all the changes that a removal is told have succeeded: the
  -- record was made a valid tombstone, at most once, then at most one tree was destroyed, and last
  -- the record was removed. The last step has succeeded exactly where the removal does.
  pub remove_recorded-order :
      (context : SessionContext) (c : RecordCapability) (force : Bool) (w : World W Event)
      → Outcome
          (Gone (λ r. validate_record h.me h.digest r) w.log)
          (Underway (λ r. validate_record h.me h.digest r) w.log)
          (Lifecycle.remove_recorded h context c force w)
  remove_recorded-order context c force w =
      outcome h w.log _ _ (Lifecycle.remove_recorded h context c force w)
        ((removals h w.log context c force).run w refl)
