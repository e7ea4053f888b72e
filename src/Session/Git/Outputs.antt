-- ===== src/Session/Git/Outputs.antt =====
-- src/session.rs: what `parse_target_commit_output` accepts of Git's answer about a branch.
use git_vws.Session.Names.{oid_matches_format}
use git_vws.Session.Git.{
  parse_target_commit_output, parse_publish_oid, parse_reference, single_line, four_fields,
}
use git_vws.Base.{
  ◌≡◌, refl, ap, ◌∙◌, ◌≢◌, inl, inr, true, Option, none, some, [], ◌∷◌, ◌++◌, arith, nat_Eq,
  string_Eq, Bytes-discrete, bytes_Eq, option_bytes_Eq, option_nat_Eq, Option-cases, Bytes, codes,
  is_empty, cut_first, split, strip_suffix_sound, cut_first_sound, ok, ◌>>=◌, ok_or, >>=-eq-ok,
  ok_or-eq-ok, ok-injective,
}

-- The one line that `for-each-ref` prints for a direct commit.
unfoldable pub branch_line : Bytes → Bytes → Bytes
branch_line reference oid = reference ++ (b' ' ∷ (oid ++ (b' ' ∷ codes "commit ")))

parse_publish_oid_inv :
    (output format oid : Bytes)
    → parse_publish_oid output format ≡ ok oid
    → (output ≡ oid) × (oid_matches_format oid format ≡ true)
unfolding parse_publish_oid
parse_publish_oid_inv output format oid h = ground arith

read_oid :
    (o format : Bytes) (oid : Bytes)
    → (parse_publish_oid o format >>= λ new. ok (some new)) ≡ ok (some oid)
    → (o ≡ oid) × (oid_matches_format oid format ≡ true)
read_oid o format oid h =
    let (new, parsed, same) = >>=-eq-ok (parse_publish_oid o format) _ h in
    parse_publish_oid_inv o format oid (parsed ∙ ap ok (some_injective (ok-injective same)))
  where
    some_injective : {x y : Bytes} → some x ≡ some y → x ≡ y
    some_injective e = cc

reference_inv :
    (expected format reference o kind symref oid : Bytes)
    → parse_reference expected format (reference, o, kind, symref) ≡ ok (some oid)
    → (reference ≡ expected)
      × ((kind ≡ codes "commit")
          × ((is_empty symref ≡ true)
              × ((parse_publish_oid o format >>= λ new. ok (some new)) ≡ ok (some oid))))
unfolding parse_reference Bytes-discrete
reference_inv expected format reference o kind symref oid h =
    (ground arith, (ground arith, (ground arith, ground arith)))

single_line_inv :
    (output body : Bytes) → single_line output ≡ some body → output ≡ body ++ (10 ∷ [])
unfolding single_line
single_line_inv output body h = ground (arith, strip_suffix_sound (10 ∷ []) output body)

four_fields_inv :
    (body a b c d : Bytes)
    → four_fields body ≡ some (a, b, c, d)
    → body ≡ a ++ (b' ' ∷ (b ++ (b' ' ∷ (c ++ (b' ' ∷ d)))))
unfolding four_fields
four_fields_inv body a b c d h = elim (Option-cases (cut_first b' ' body)) [
  | inl e ↦ ground arith
  | inr (p, e) ↦ elim (Option-cases (cut_first b' ' p.1)) [
    | inl f ↦ ground arith
    | inr (q, f) ↦ elim (Option-cases (cut_first b' ' q.1)) [
      | inl g ↦ ground arith
      | inr (r, g) ↦ ground (
        arith,
        cut_first_sound b' ' body p.0 p.1,
        cut_first_sound b' ' p.1 q.0 q.1,
        cut_first_sound b' ' q.1 r.0 r.1,
      )
    ]
  ]
]

-- The output that reports a branch: nothing for one that is absent, otherwise its line with an
-- object id of the repository's format.
unfoldable pub Reports : Bytes → Bytes → Bytes → Option Bytes → Type 0
Reports output expected format none = output ≡ []
Reports output expected format (some oid) =
    (output ≡ branch_line expected oid ++ (10 ∷ [])) × (oid_matches_format oid format ≡ true)

empty_is_nil : (s : Bytes) → is_empty s ≡ true → s ≡ []
empty_is_nil [] h = refl
empty_is_nil (c ∷ s) h = absurd (cc)

never_none : (o format : Bytes) → (parse_publish_oid o format >>= λ new. ok (some new)) ≢ ok none
never_none o format h =
    let (new, parsed, same) = >>=-eq-ok (parse_publish_oid o format) _ h in absurd (cc)

reference_not_none :
    (expected format reference o kind symref : Bytes)
    → parse_reference expected format (reference, o, kind, symref) ≢ ok none
unfolding parse_reference Bytes-discrete
reference_not_none expected format reference o kind symref h = ground (arith, never_none o format)

reported :
    (output body expected format : Bytes) (parts : Bytes × Bytes × Bytes × Bytes)
    (found : Option Bytes)
    → output ≡ body ++ (10 ∷ [])
    → four_fields body ≡ some parts
    → parse_reference expected format parts ≡ ok found
    → Reports output expected format found
unfolding Reports branch_line
reported output body expected format (reference, o, kind, symref) none e f h =
    absurd (reference_not_none expected format reference o kind symref h)
reported output body expected format (reference, o, kind, symref) (some oid) e f h =
    let (at, (commit, (direct, read))) =
      reference_inv expected format reference o kind symref oid h in
    let (same, form) = read_oid o format oid read in
    let fields = four_fields_inv body reference o kind symref f in
    (cc (e, fields, at, same, commit, empty_is_nil symref direct), form)

-- What the program takes for the state of a branch is what Git reported: the branch is absent only
-- if the output is empty, and at a commit only if the output is the one line that names exactly the
-- branch, the commit with an object id of the repository's format, the type `commit` and no symbolic
-- reference.
pub parse_target_commit_output-Reports :
    (output expected format : Bytes) (found : Option Bytes)
    → parse_target_commit_output output expected format ≡ ok found
    → Reports output expected format found
unfolding parse_target_commit_output Reports
parse_target_commit_output-Reports [] expected format none h = refl
parse_target_commit_output-Reports [] expected format (some oid) h = absurd (cc)
parse_target_commit_output-Reports (c ∷ s) expected format found h =
    let (body, lined, h1) = >>=-eq-ok (ok_or (single_line (c ∷ s)) _) _ h in
    let (parts, split, h2) = >>=-eq-ok (ok_or (four_fields body) _) _ h1 in
    reported (c ∷ s) body expected format parts found
      (single_line_inv (c ∷ s) body (ok_or-eq-ok (single_line (c ∷ s)) _ lined))
      (ok_or-eq-ok (four_fields body) _ split) h2
