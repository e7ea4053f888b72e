-- ===== src/Session/Lifecycle.antt =====
-- src/session.rs: `exec`, `remove` and the way of a session's root to its tombstone.
pub mod Removal
pub mod Refusals
use git_vws.Authority.Identity.{Identity, Authority, same_node, identity_Eq}
use git_vws.Storage.Modes.{private_directory}
use git_vws.Storage.Receipts.{sealed_Eq}
use git_vws.Effect.{M, ◌>>=◌, ◌>>◌, lift, note, note_ok, silent, map_error, pure}
use git_vws.Session.Journal.{
  PublishJournal, idle, prepared, objects_imported, cas_attempted, cas_committed, is_idle,
}
use git_vws.Session.Types.{
  SessionRecord, SessionPayload, ReadyPayload, session_record_Eq, SessionRecord-discrete,
}
use git_vws.Session.Names.{record_name, selected_name, root_name, tombstone_name}
use git_vws.Session.Validate.{encode_record, session_id}
use git_vws.Session.Host.{
  RecordCapability, SessionContext, ReadySession, Event, wrote, destroyed, executed, Host,
}
use git_vws.Session.Store.{
  recovery, cstring, session_context, optional_record, required_record, revalidate_record,
  load_ready_capability, revalidate_ready_lease, replace_record_capability,
  remove_record_capability,
}
use git_vws.Base.{
  ℕ, zero, suc, ◌+◌, ◌-◌, ◌*◌, ◌/◌, ◌%◌, ◌^◌, ◌≤◌, ◌<◌, String, ◌≡◌, refl, sym, ap, subst, ◌∙◌, ◌≢◌,
  ◌↔◌, ◌⊎◌, inl, inr, Bool, true, false, ◌&&◌, ◌||◌, not, Option, none, some, List, [], ◌∷◌, ◌++◌,
  map, append_assoc, append-nil, arith, ℕ_discrete, ltb, leb, if◌then◌else◌, Eq, ◌==◌, ==_iff,
  nat_Eq, string_Eq, dec_eq, discrete_Eq, List-discrete, Option-discrete, Bytes-discrete,
  OptionBytes-discrete, bytes_Eq, option_bytes_Eq, option_nat_Eq, OptionNat-discrete, replicate,
  Bool-cases, Option-cases, length, get_or, length-append, all, any, All, All-append, All-mono,
  all→All, All→all, Bytes, codes, IsByte, Lacks, is_empty, is_digit, is_lower_hex, is_hex,
  is_alphanumeric, to_lower, contains, strip_prefix, starts_with, strip_suffix, ends_with, includes,
  cut_first, cut_last, split, strip_prefix-append, strip_prefix_sound, strip_suffix-append,
  strip_suffix_sound, cut_first-append, cut_first_sound, cut_last-append, cut_last_sound,
  split-Lacks, split-append, decimal, parse_unsigned, decimal-All, decimal-ne-nil,
  parse_unsigned-decimal, IsDigit, is_utf8, IsAscii, is_utf8_of_ascii, Error, Result, ok, err,
  error, fail, guard, ok_or, map_err, is_ok, to_option, Result-cases, guard-eq-ok, ok_or-eq-ok,
  ok-injective,
}

unfoldable pub ensure_publish_idle : SessionRecord → Result (Unit {0})
ensure_publish_idle r =
    if is_idle r.journal
    then ok tt
    else fail
        (elim r.journal [
          | cas_committed f ↦ "PUBLISH_COMMITTED_RECOVERY_REQUIRED"
          | _ ↦ "PUBLISH_RECOVERY_REQUIRED"
        ])
        "session publish journal must be recovered before another lifecycle operation"

-- `matches_existing`
unfoldable pub matches_existing : SessionRecord → SessionRecord → Bool
matches_existing a b =
    a.version == 2
    && a.sid == b.sid
    && a.authority_path == b.authority_path
    && a.authority_identity == b.authority_identity
    && a.name == b.name
    && a.base == b.base
    && a.target == b.target
    && a.expected_old == b.expected_old
    && a.template_key == b.template_key
    && a.template == b.template
    && same_node a.container_identity b.container_identity
    && a.volume == b.volume

unfoldable pub stage_precedes : SessionPayload → SessionPayload → Bool
stage_precedes (SessionPayload.prepared left) (SessionPayload.materializing right i) = left == right
stage_precedes (SessionPayload.materializing left i) (SessionPayload.ready p) =
    left == p.root_name && same_node i p.root_identity
stage_precedes (SessionPayload.ready p) (SessionPayload.tombstoned right tombstone i) =
    p.root_name == right && same_node p.root_identity i
stage_precedes _ _ = false

unfoldable pub session_precedes : SessionRecord → SessionRecord → Bool
unfolding matches_existing stage_precedes
session_precedes previous current =
    if not (matches_existing previous current)
      || not (is_idle previous.journal)
      || not (is_idle current.journal)
    then false
    else stage_precedes previous.payload current.payload

-- The root and its identity, of a payload that has one under its own name.
unfoldable pub rooted : SessionPayload → Result (Bytes × Identity)
rooted (SessionPayload.ready p) = ok (p.root_name, p.root_identity)
rooted (SessionPayload.materializing root i) = ok (root, i)
rooted _ = err (recovery "session record cannot transition to a tombstone")

unfoldable pub tombstone_of : SessionPayload → Result (Bytes × Bytes × Identity)
tombstone_of (SessionPayload.tombstoned root tombstone i) = ok (root, tombstone, i)
tombstone_of _ = fail "SESSION_CORRUPT" "session record is not TOMBSTONED"

-- The record that `transition_tombstone` writes.
unfoldable pub tombstoned_record : SessionRecord → Bytes × Identity → SessionRecord
tombstoned_record r (root, i) = record r {
  payload = SessionPayload.tombstoned root (tombstone_name r.sid) i;
}

unfoldable pub at_node : Option Identity → Identity → Bool
at_node none i = false
at_node (some entry) i = same_node entry i

abbrev is_absent : Option Identity → Bool
is_absent none = true
is_absent (some i) = false

module _ {W : Type 0} (h : Host W) where
  unfoldable pub transition_tombstone : RecordCapability → M W Event RecordCapability
  transition_tombstone expected = do
    root ← lift (rooted expected.session_record.payload)
    let r = tombstoned_record expected.session_record root
    bytes ← lift (encode_record h.me h.digest h.to_json r)
    replace_record_capability h expected r bytes

  unfoldable pub ensure_record_container : SessionRecord → M W Event (Unit {0})
  ensure_record_container r = do
    let changed = recovery "session container no longer matches the record binding"
    container ← silent h.container_identity
    lift (
        guard (same_node container r.container_identity && private_directory h.me container)
          changed)
    volume ← silent h.container_volume
    lift (guard (volume == r.volume) changed)

  unfoldable pub open_authorized_root : SessionRecord → Bytes → Identity → M W Event ℕ
  open_authorized_root r name expected = do
    let changed = recovery "managed session root no longer matches the record binding"
    ensure_record_container r
    lift (cstring name)
    root ← silent (h.open_directory name)
    entry ← silent (h.identity_at name)
    lift (guard (same_node entry expected) changed)
    opened ← silent (h.handle_identity root)
    lift (guard (same_node opened expected && private_directory h.me expected) changed)
    volume ← silent (h.handle_volume root)
    lift (guard (volume == r.volume) changed)
    pure root

  unfoldable pub root_or_tombstone_present : Bytes → M W Event Bool
  root_or_tombstone_present sid = do
    lift (cstring (root_name sid))
    root ← silent (h.entry_identity (root_name sid))
    if not (is_absent root)
        then pure true
        else (lift (cstring (tombstone_name sid))
            >> (silent (h.entry_identity (tombstone_name sid)) >>= λ entry.
                pure (not (is_absent entry))))

  unfoldable pub promote_tombstone : Bytes → Bytes → Identity → M W Event (Unit {0})
  promote_tombstone root tombstone expected = do
    root_entry ← silent (h.entry_identity root)
    tombstone_entry ← silent (h.entry_identity tombstone)
    if at_node root_entry expected && is_absent tombstone_entry
        then (silent (h.rename_no_replace root tombstone)
            >> (silent h.sync_container
                >> (silent (h.entry_identity tombstone) >>= λ moved. lift (
                    guard (at_node moved expected)
                      (recovery "session tombstone binding changed after rename")))))
        else lift (
            guard (is_absent root_entry && at_node tombstone_entry expected)
              (recovery "session root and tombstone names are not safely recoverable"))

  -- The entry that holds the tree: its root's name, or after the renaming its tombstone's.
  unfoldable pub held_name :
      Bytes → Bytes → Identity → Option Identity → Option Identity → Result (Option Bytes)
  held_name root tombstone i root_entry tombstone_entry =
      if at_node root_entry i && is_absent tombstone_entry
      then ok (some root)
      else if is_absent root_entry && at_node tombstone_entry i
      then ok (some tombstone)
      else if is_absent root_entry && is_absent tombstone_entry
      then ok none
      else err (recovery "tombstone root bindings are ambiguous or changed")

  -- The tree is removed and then its record; `collecting` is the operation `gc`.
  unfoldable pub destroy :
      RecordCapability → Bytes → Bytes → Identity → Bool → ℕ → M W Event (Unit {0})
  destroy expected root tombstone i collecting leased = do
    silent (h.acquire_lease leased true)
    current ← revalidate_record h expected
    lift (
        guard (current.session_record == expected.session_record)
          (recovery "tombstone record changed while its lease was held"))
    promote_tombstone root tombstone i
    checked ← revalidate_record h current
    note_ok (destroyed tombstone) (h.remove_owned_tree tombstone i collecting)
    remove_record_capability h checked

  unfoldable pub destroy_held :
      RecordCapability → Bytes → Bytes → Identity → Bool → Option Bytes → M W Event (Unit {0})
  destroy_held expected root tombstone i collecting none =
      revalidate_record h expected >>= λ current. remove_record_capability h current
  destroy_held expected root tombstone i collecting (some name) =
      open_authorized_root expected.session_record name i
      >>= destroy expected root tombstone i collecting

  unfoldable pub complete_tombstone : RecordCapability → Bool → M W Event (Unit {0})
  complete_tombstone expected collecting = do
    names ← lift (tombstone_of expected.session_record.payload)
    let root = names.0
    let tombstone = names.1
    let i = names.2
    lift (cstring root)
    lift (cstring tombstone)
    ensure_record_container expected.session_record
    root_entry ← silent (h.entry_identity root)
    tombstone_entry ← silent (h.entry_identity tombstone)
    held ← lift (held_name root tombstone i root_entry tombstone_entry)
    destroy_held expected root tombstone i collecting held

  -- The stages of `remove`: what is to be completed, or `none` where the record is gone already.
  unfoldable pub remove_ready :
      SessionContext → RecordCapability → Bool → M W Event (Option RecordCapability)
  remove_ready context capability force = do
    loaded ← load_ready_capability h context capability
    silent (h.acquire_lease loaded.root true)
    current ← revalidate_ready_lease h context capability loaded
    if force then pure tt else silent (h.ensure_discard_safe loaded current.session_record)
    tombstoned ← transition_tombstone current
    pure (some tombstoned)

  unfoldable pub remove_materializing :
      RecordCapability → Bool → Bytes → Identity → M W Event (Option RecordCapability)
  remove_materializing capability force root i = do
    lift (guard force (error "SESSION_DISCARD_RISK" "incomplete session removal requires --force"))
    leased ← open_authorized_root capability.session_record root i
    silent (h.acquire_lease leased true)
    current ← revalidate_record h capability
    tombstoned ← transition_tombstone current
    pure (some tombstoned)

  unfoldable pub remove_prepared : RecordCapability → Bool → M W Event (Option RecordCapability)
  remove_prepared capability force = do
    lift (guard force (error "SESSION_DISCARD_RISK" "prepared session removal requires --force"))
    present ← root_or_tombstone_present capability.session_record.sid
    lift (
        guard (not present)
          (recovery "prepared session has a root despite lacking its descriptor receipt"))
    ensure_record_container capability.session_record
    remove_record_capability h capability
    pure none

  unfoldable pub remove_stage :
      SessionPayload
      → SessionContext
      → RecordCapability
      → Bool
      → M W Event (Option RecordCapability)
  remove_stage (SessionPayload.tombstoned root tombstone i) context capability force =
      pure (some capability)
  remove_stage (SessionPayload.ready p) context capability force =
      remove_ready context capability force
  remove_stage (SessionPayload.materializing root i) context capability force =
      remove_materializing capability force root i
  remove_stage (SessionPayload.prepared root) context capability force =
      remove_prepared capability force

  unfoldable pub complete : Option RecordCapability → M W Event (Unit {0})
  complete none = pure tt
  complete (some tombstoned) = complete_tombstone tombstoned false

  -- `remove` of a session whose record is there, up to the event that it prints.
  unfoldable pub remove_recorded : SessionContext → RecordCapability → Bool → M W Event (Unit {0})
  unfolding complete
  remove_recorded context capability force = do
    lift (ensure_publish_idle capability.session_record)
    rest ← remove_stage capability.session_record.payload context capability force
    complete rest

  -- `remove` of a session that may have no record.
  unfoldable pub remove_session :
      SessionContext → Bytes → Bool → Option RecordCapability → M W Event (Unit {0})
  remove_session context sid force none = do
    present ← root_or_tombstone_present sid
    lift (guard (not present) (recovery "session record is absent while a managed root remains"))
  remove_session context sid force (some capability) = remove_recorded context capability force

  -- `remove` where the authority has a container of sessions, or none.
  unfoldable pub remove_named : Authority → Bytes → Bool → Option Bytes → M W Event (Unit {0})
  remove_named authority name force none = pure tt
  remove_named authority name force (some path) = do
    let sid = session_id h.digest authority.canonical authority.identity name
    found ← optional_record h (record_name sid) authority
    remove_session (record { authority = authority; sessions_path = path }) sid force found

  unfoldable pub remove : Bytes → Option Bytes → Option Bytes → Bool → M W Event Bytes
  remove repository raw_name name_hex force = do
    name ← lift (selected_name raw_name name_hex)
    found ← silent (h.optional_context repository)
    remove_named found.0 name force found.1
    lift (h.remove_event found.0 name)

  -- `exec`
  unfoldable pub exec : Bytes → Option Bytes → Option Bytes → List Bytes → M W Event (Option ℕ)
  exec repository raw_name name_hex [] = do
    _ ← lift (selected_name raw_name name_hex)
    lift (fail "SESSION_USAGE" "exec requires a program after --")
  exec repository raw_name name_hex (program ∷ args) = do
    name ← lift (selected_name raw_name name_hex)
    context ← session_context h repository
    let sid = session_id h.digest context.authority.canonical context.authority.identity name
    capability ← required_record h (record_name sid) context.authority
    lift (ensure_publish_idle capability.session_record)
    loaded ← load_ready_capability h context capability
    silent (h.acquire_lease loaded.root false)
    _ ← revalidate_ready_lease h context capability loaded
    note (executed program args) (h.execute program args loaded)
