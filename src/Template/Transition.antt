-- ===== src/Template/Transition.antt =====
-- src/template.rs: which template record may stand beside which, and what is read as one.
use git_vws.Storage.Receipts.{manifest_Eq, sealed_Eq}
use git_vws.Template.Record.{TemplatePayload, TemplateRecord, validate_record, parse_record}
use git_vws.Base.{
  ℕ, ◌+◌, ◌≡◌, refl, sym, ap, subst, ◌∙◌, ◌↔◌, ◌⊎◌, inl, inr, Bool, true, false, ◌&&◌, ◌||◌, not,
  Option, none, some, arith, if◌then◌else◌, ◌==◌, ==_iff, nat_Eq, string_Eq, Bytes-discrete,
  bytes_Eq, option_bytes_Eq, option_nat_Eq, Bool-cases, Bytes, Error, Result, ok, ◌>>=◌, ◌>>◌,
  guard, ok_or, >>=-eq-ok, guard-eq-ok, ok-injective,
}

unfoldable pub stage_follows : ℕ → TemplatePayload → TemplatePayload → Bool
stage_follows version (TemplatePayload.prepared left) (TemplatePayload.materializing right i) =
    version == 3 && left == right
stage_follows version (TemplatePayload.materializing left i)
      (TemplatePayload.publishing right name sealed) =
    version == 3 && left == right
stage_follows version (TemplatePayload.publishing building ready_name sealed)
      (TemplatePayload.ready root next) =
    version == 3 && ready_name == root && sealed == next
stage_follows version (TemplatePayload.ready root sealed)
      (TemplatePayload.tombstoned next_root tombstone next) =
    version == 4 && root == next_root && sealed == next
stage_follows version _ _ = false

unfoldable pub template_transition : TemplateRecord → TemplateRecord → Bool
unfolding stage_follows
template_transition previous current =
    if not (previous.key == current.key)
      || not (previous.manifest == current.manifest)
      || not (previous.volume == current.volume)
      || not (previous.version == 3)
    then false
    else stage_follows current.version previous.payload current.payload

unfoldable pub template_precedes : TemplateRecord → TemplateRecord → Bool
unfolding template_transition
template_precedes previous current =
    template_transition previous current || template_transition current previous

-- The stage of a template's life.
unfoldable pub template_stage : TemplatePayload → ℕ
template_stage (TemplatePayload.prepared building) = 0
template_stage (TemplatePayload.materializing building i) = 1
template_stage (TemplatePayload.publishing building name sealed) = 2
template_stage (TemplatePayload.ready root sealed) = 3
template_stage (TemplatePayload.tombstoned root tombstone sealed) = 4

follows_next :
    (v : ℕ) (p q : TemplatePayload)
    → stage_follows v p q ≡ true
    → template_stage q ≡ template_stage p + 1
unfolding stage_follows template_stage
follows_next v (TemplatePayload.prepared left) (TemplatePayload.materializing right i) h = refl
follows_next v (TemplatePayload.materializing left i) (TemplatePayload.publishing right name sealed)
      h =
    refl
follows_next v (TemplatePayload.publishing building name sealed) (TemplatePayload.ready root next)
      h =
    refl
follows_next v (TemplatePayload.ready root sealed)
      (TemplatePayload.tombstoned next_root tombstone next) h =
    refl
follows_next v p q h = absurd (cc)

transition_parts :
    (x y z v s : Bool)
    → (if not x || not y || not z || not v then false else s) ≡ true
    → (x ≡ true) × (s ≡ true)
transition_parts x y z v s h = (ground arith, ground arith)

transition_next :
    (a b : TemplateRecord)
    → template_transition a b ≡ true
    → (a.key ≡ b.key) × (template_stage b.payload ≡ template_stage a.payload + 1)
unfolding template_transition
transition_next a b h =
    let (same, follows) =
      transition_parts (a.key == b.key) (a.manifest == b.manifest) (a.volume == b.volume)
        (a.version == 3) (stage_follows b.version a.payload b.payload) h in
    ((==_iff a.key b.key).0 same, follows_next b.version a.payload b.payload follows)

-- The temporary file beside a template's record is accepted only if it is of the same template and
-- one of the two is exactly one stage further than the other: no stage is skipped.
pub template_precedes-adjacent :
    (a b : TemplateRecord)
    → template_precedes a b ≡ true
    → (a.key ≡ b.key)
      × ((template_stage b.payload ≡ template_stage a.payload + 1)
          ⊎ (template_stage a.payload ≡ template_stage b.payload + 1))
unfolding template_precedes
template_precedes-adjacent a b h = elim (Bool-cases (template_transition a b)) [
  | inl t ↦ ((transition_next a b t).0, inl (transition_next a b t).1)
  | inr n ↦ elim (Bool-cases (template_transition b a)) [
    | inl t ↦ (sym (transition_next b a t).0, inr (transition_next b a t).1)
    | inr m ↦ absurd (ground arith)
  ]
]

module _ (me : ℕ) (to_json : TemplateRecord → Result Bytes)
    (from_json : Bytes → Option TemplateRecord) where
  read :
      (o : Option TemplateRecord) (bytes : Bytes) (r : TemplateRecord) (x y : Error)
      → (ok_or o x >>= λ q.
          to_json q >>= λ encoded. guard (encoded == bytes) y >> (validate_record me q >> ok q))
        ≡ ok r
      → (o ≡ some r) × ((to_json r ≡ ok bytes) × (validate_record me r ≡ ok tt))
  unfolding Bytes-discrete
  read none bytes r x y e = absurd (cc)
  read (some q) bytes r x y e =
      let (b, encoded, e2) = >>=-eq-ok (to_json q) _ e in
      let (same, e3) = guard-eq-ok (b == bytes) y (validate_record me q >> ok q) e2 in
      let (_, valid, e4) = >>=-eq-ok (validate_record me q) _ e3 in
      (
        ap some (ok-injective e4),
        subst (λ k. (to_json k ≡ ok bytes) × (validate_record me k ≡ ok tt)) (ok-injective e4)
            (encoded ∙ ap ok ((==_iff b bytes).0 same), valid),
      )

  -- A template's record file is read as `r` exactly if its content is JSON of `r`, byte by byte
  -- what writing `r` gives, and `r` is valid.
  pub template_record_iff :
      (bytes : Bytes) (r : TemplateRecord)
      → (parse_record me to_json from_json bytes ≡ ok r)
        ↔ ((from_json bytes ≡ some r) × ((to_json r ≡ ok bytes) × (validate_record me r ≡ ok tt)))
  unfolding parse_record Bytes-discrete
  template_record_iff bytes r = (forward, backward)
    where
      forward :
          parse_record me to_json from_json bytes ≡ ok r
          → (from_json bytes ≡ some r) × ((to_json r ≡ ok bytes) × (validate_record me r ≡ ok tt))
      forward e = read (from_json bytes) bytes r _ _ e

      backward :
          (from_json bytes ≡ some r) × ((to_json r ≡ ok bytes) × (validate_record me r ≡ ok tt))
          → parse_record me to_json from_json bytes ≡ ok r
      backward (json, (encoded, valid)) = grind (arith, json, encoded, valid)
