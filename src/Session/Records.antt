-- ===== src/Session/Records.antt =====
-- src/session.rs: what the gate of the session records, `validate_record`, lets through, and what
-- can be read back.
use git_vws.Authority.Identity.{directory}
use git_vws.Authority.Hex.{decode_hex, hex, hex-decode_hex, is_absolute}
use git_vws.Session.Journal.{
  PublishJournal, idle, prepared, objects_imported, cas_attempted, cas_committed, fields, is_idle,
}
use git_vws.Session.Types.{SessionRecord, SessionPayload}
use git_vws.Session.Names.{valid_session_name}
use git_vws.Session.Validate.{
  validate_record, encode_record, parse_record, session_id, is_ready, valid_fields, valid_frozen,
  valid_publish_journal, authority_path_from_record, max_record,
}
use git_vws.Base.{
  ℕ, ◌≤◌, ◌≡◌, refl, sym, ap, subst, ◌∙◌, ◌↔◌, true, false, ◌&&◌, not, Option, none, some, arith,
  leb, ◌==◌, ==_iff, nat_Eq, string_Eq, Bytes-discrete, bytes_Eq, option_bytes_Eq, option_nat_Eq,
  length, Bytes, contains, Error, Result, ok, err, ◌>>=◌, ◌>>◌, guard, ok_or, >>=-eq-ok,
  guard-eq-ok, ok-injective,
}

-- The end of `encode_record`, by the results of its parts.
checked_bytes : Result (Unit {0}) → Result Bytes → Error → Result Bytes
checked_bytes valid json e =
    valid >> (json >>= λ bytes. guard (leb (length bytes) max_record) e >> ok bytes)

checked_bytes-inv :
    (valid : Result (Unit {0})) (json : Result Bytes) (e : Error) (bytes : Bytes)
    → checked_bytes valid json e ≡ ok bytes
    → (valid ≡ ok tt) × (json ≡ ok bytes) × (length bytes ≤ max_record)
unfolding checked_bytes
checked_bytes-inv (ok tt) (ok b) e bytes h =
    let (small, same) = guard-eq-ok (leb (length b) max_record) e (ok b) h in
    (refl, same, subst (λ c. length c ≤ max_record) (ok-injective same) (ground arith))
checked_bytes-inv (ok tt) (err x) e bytes h = absurd (cc)
checked_bytes-inv (err x) json e bytes h = absurd (cc)

checked_bytes-of :
    (valid : Result (Unit {0})) (json : Result Bytes) (e : Error) (bytes : Bytes)
    → valid ≡ ok tt
    → json ≡ ok bytes
    → length bytes ≤ max_record
    → checked_bytes valid json e ≡ ok bytes
unfolding checked_bytes
checked_bytes-of (ok tt) (ok b) e bytes v j small = ground (arith, ok-injective j)
checked_bytes-of (ok tt) (err x) e bytes v j small = absurd (cc)
checked_bytes-of (err x) json e bytes v j small = absurd (cc)

module _ (me : ℕ) (digest : Bytes → Bytes) (to_json : SessionRecord → Result Bytes)
    (from_json : Bytes → Option SessionRecord) where
  -- What `encode_record` has checked.
  abbrev Encodes : SessionRecord → Bytes → Type 0
  Encodes r bytes =
      (validate_record me digest r ≡ ok tt) × (to_json r ≡ ok bytes) × (length bytes ≤ max_record)

  encode_record-inv :
      (r : SessionRecord) (bytes : Bytes)
      → encode_record me digest to_json r ≡ ok bytes
      → Encodes r bytes
  unfolding encode_record checked_bytes
  encode_record-inv r bytes e =
      checked_bytes-inv (validate_record me digest r) (to_json r) _ bytes e

  encode_record-of :
      (r : SessionRecord) (bytes : Bytes)
      → Encodes r bytes
      → encode_record me digest to_json r ≡ ok bytes
  unfolding encode_record checked_bytes
  encode_record-of r bytes (valid, json, small) =
      checked_bytes-of (validate_record me digest r) (to_json r) _ bytes valid json small

  read_back :
      (o : Option SessionRecord) (bytes : Bytes) (r : SessionRecord) (x y : Error)
      → (ok_or o x >>= λ q.
          encode_record me digest to_json q >>= λ encoded. guard (encoded == bytes) y >> ok q)
        ≡ ok r
      → (o ≡ some r) × Encodes r bytes
  unfolding Bytes-discrete
  read_back none bytes r x y e = absurd (cc)
  read_back (some q) bytes r x y e =
      let (b, encoded, e2) = >>=-eq-ok (encode_record me digest to_json q) _ e in
      let (same, e3) = guard-eq-ok (b == bytes) y (ok q) e2 in
      (
        ap some (ok-injective e3),
        subst (λ k. Encodes k bytes) (ok-injective e3)
            (encode_record-inv q bytes (encoded ∙ ap ok ((==_iff b bytes).0 same))),
      )

  -- A file's content is read as the record `r` exactly if it is JSON of `r`, `r` is valid, and the
  -- content is byte by byte what writing `r` gives, of at most 16 KiB.
  pub parse_record_iff :
      (bytes : Bytes) (r : SessionRecord)
      → (parse_record me digest to_json from_json bytes ≡ ok r)
        ↔ ((from_json bytes ≡ some r) × Encodes r bytes)
  unfolding parse_record Bytes-discrete
  parse_record_iff bytes r = (forward, backward)
    where
      forward :
          parse_record me digest to_json from_json bytes ≡ ok r
          → (from_json bytes ≡ some r) × Encodes r bytes
      forward e = read_back (from_json bytes) bytes r _ _ e

      backward :
          (from_json bytes ≡ some r) × Encodes r bytes
          → parse_record me digest to_json from_json bytes ≡ ok r
      backward (json, enc) = grind (arith, json, encode_record-of r bytes enc)

  journal_checked : (r : SessionRecord) → valid_fields me r ≡ true → valid_publish_journal r ≡ true
  unfolding valid_fields
  journal_checked r h = ground arith

  frozen_in_ready :
      (p : SessionPayload) (j : PublishJournal)
      → is_idle j ≡ false
      → valid_frozen p (fields j) ≡ true
      → is_ready p ≡ true
  unfolding valid_frozen
  frozen_in_ready p idle i h = absurd (cc)
  frozen_in_ready p (prepared f) i h = ground arith
  frozen_in_ready p (objects_imported f) i h = ground arith
  frozen_in_ready p (cas_attempted f) i h = ground arith
  frozen_in_ready p (cas_committed f) i h = ground arith

  -- A valid record whose publication is under way belongs to a READY session.
  pub active-IsReady :
      (r : SessionRecord)
      → validate_record me digest r ≡ ok tt
      → is_idle r.journal ≡ false
      → is_ready r.payload ≡ true
  unfolding validate_record valid_publish_journal
  active-IsReady r v j =
      frozen_in_ready r.payload r.journal j
        (journal_checked r (guard-eq-ok (valid_fields me r) _ _ v).0)

  absolute_path :
      (p q : Bytes) (e : Error)
      → (guard (is_absolute p && not (contains 0 p)) e >> ok p) ≡ ok q
      → (p ≡ q) × (is_absolute p ≡ true)
  absolute_path p q e h =
      let (absolute, same) = guard-eq-ok (is_absolute p && not (contains 0 p)) e (ok p) h in
      (ok-injective same, ground arith)

  path_decoded :
      (r : SessionRecord) (path : Bytes)
      → authority_path_from_record r ≡ ok path
      → (hex path ≡ r.authority_path) × (is_absolute path ≡ true)
  unfolding authority_path_from_record
  path_decoded r path h =
      let (p, decoded, rest) = >>=-eq-ok (decode_hex r.authority_path) _ h in
      let (same, absolute) = absolute_path p path _ rest in
      (
        ap hex (sym same) ∙ (hex-decode_hex r.authority_path p decoded).0,
        subst (λ k. is_absolute k ≡ true) same absolute,
      )

  name_bound :
      (r : SessionRecord) (path name : Bytes) (e : Error) (k : Result (Unit {0}))
      → (guard
            (valid_session_name name
              && directory r.authority_identity
              && r.sid == session_id digest path r.authority_identity name)
            e
          >> k)
        ≡ ok tt
      → (valid_session_name name ≡ true)
        × (r.sid ≡ session_id digest path r.authority_identity name)
  unfolding Bytes-discrete
  name_bound r path name e k h =
      let (bound, _) =
        guard-eq-ok
          (valid_session_name name
            && directory r.authority_identity
            && r.sid == session_id digest path r.authority_identity name)
          e k h in
      (ground arith, ground arith)

  -- The identifier in a valid record is the one of the authority and the name that the record
  -- holds: its hexadecimal path decodes to an absolute path, its name to a session name.
  pub valid-sid :
      (r : SessionRecord)
      → validate_record me digest r ≡ ok tt
      → (path : Bytes) × (name : Bytes) × (hex path ≡ r.authority_path)
        × (hex name ≡ r.name)
        × (is_absolute path ≡ true)
        × (valid_session_name name ≡ true)
        × (r.sid ≡ session_id digest path r.authority_identity name)
  unfolding validate_record
  valid-sid r v =
      let (_, e1) = guard-eq-ok (valid_fields me r) _ _ v in
      let (name, named, e2) = >>=-eq-ok (decode_hex r.name) _ e1 in
      let (path, pathed, e3) = >>=-eq-ok (authority_path_from_record r) _ e2 in
      let (hexed, absolute) = path_decoded r path pathed in
      let (valid, same) = name_bound r path name _ _ e3 in
      (path, name, hexed, (hex-decode_hex r.name name named).0, absolute, valid, same)
