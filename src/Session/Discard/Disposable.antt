-- ===== src/Session/Discard/Disposable.antt =====
-- What the check before a discard lets through.
use git_vws.Session.Discard.Outputs.{
  check_ref, count_refs, refs_safe, safe_head, unborn_head, git_safe_unborn_head,
}
use git_vws.Session.Discard.SafeName.{both_true, Safe, git_safe_unborn_head_sound}
use git_vws.Base.{
  ℕ, zero, suc, ◌+◌, ◌≡◌, refl, ap, subst, ◌∙◌, Bool, true, false, ◌&&◌, ◌||◌, not, Option, none,
  some, List, [], ◌∷◌, ◌++◌, arith, if◌then◌else◌, ◌==◌, ==_iff, nat_Eq, string_Eq, bytes_Eq,
  option_bytes_Eq, option_nat_Eq, length, All, Bytes, codes, is_empty, contains, strip_prefix,
  strip_suffix, cut_last, split, strip_prefix_sound, strip_suffix_sound, cut_last_sound, Result, ok,
  err, error, ◌>>=◌, guard, ok-injective,
}

-- The lines of a listing that are not empty.
unfoldable pub filled : List Bytes → List Bytes
filled [] = []
filled (line ∷ lines) = if is_empty line then filled lines else line ∷ filled lines

check_ref_sound :
    (expected base line : Bytes) {u : Unit {0}}
    → check_ref expected base line ≡ ok u
    → line ≡ expected ++ (b' ' ∷ base)
unfolding check_ref
check_ref_sound expected base line = parted (cut_last b' ' line) refl
  where
    same :
        (before after : Bytes)
        → cut_last b' ' line ≡ some (before, after)
        → (b : Bool) → (before == expected && after == base) ≡ b
        → {u : Unit {0}}
        → (if b
            then ok tt
            else err (
                error "SESSION_DISCARD_RISK" "private refs differ from the initial session target"))
          ≡ ok u
        → line ≡ expected ++ (b' ' ∷ base)
    same before after e true q p =
        let found = both_true (before == expected) (after == base) q in
        cut_last_sound b' ' line before after e
        ∙ ap (λ x. x ++ (b' ' ∷ after)) ((==_iff before expected).0 found.0)
        ∙ ap (λ x. expected ++ (b' ' ∷ x)) ((==_iff after base).0 found.1)
    same before after e false q p = absurd (cc)

    parted :
        (parts : Option (Bytes × Bytes))
        → cut_last b' ' line ≡ parts
        → {u : Unit {0}}
        → elim parts [
          | none ↦ err (error "SESSION_DISCARD_RISK" "private ref listing was malformed")
          | some parts ↦
              if parts.0 == expected && parts.1 == base
              then ok tt
              else err (
                  error "SESSION_DISCARD_RISK"
                    "private refs differ from the initial session target")
        ]
          ≡ ok u
        → line ≡ expected ++ (b' ' ∷ base)
    parted none e p = absurd (cc)
    parted (some (before, after)) e p =
        same before after e (before == expected && after == base) refl p

abbrev ref_line : Bytes → Bytes → Bytes
ref_line expected base = expected ++ (b' ' ∷ base)

-- What a loop that ends well has found: the lines that are filled are counted, and each is expected.
abbrev Found : Bytes → Bytes → List Bytes → ℕ → ℕ → Type 0
Found expected base lines n m =
    (n + length (filled lines) ≡ m) × All (λ line. line ≡ ref_line expected base) (filled lines)

module _ (expected base : Bytes) where
  checked :
      (line : Bytes) (lines : List Bytes) (n m : ℕ) (r : Result (Unit {0}))
      → (r ≡ ok tt → line ≡ ref_line expected base)
      → ((k : ℕ)
          → count_refs expected base lines (suc n) ≡ ok m
          → Found expected base lines (suc n) m)
      → (r >>= λ u. count_refs expected base lines (suc n)) ≡ ok m
      → (n + suc (length (filled lines)) ≡ m)
        × ((line ≡ ref_line expected base)
            × All (λ line. line ≡ ref_line expected base) (filled lines))
  checked line lines n m (ok tt) sound rest e =
      let found = rest 0 e in (omega (arith, found.0), (sound refl, found.1))
  checked line lines n m (err x) sound rest e = absurd (cc)

  stepped :
      (line : Bytes) (lines : List Bytes) (n m : ℕ) (b : Bool)
      → ((k : ℕ) → count_refs expected base lines k ≡ ok m → Found expected base lines k m)
      → (if b
          then count_refs expected base lines n
          else (check_ref expected base line >>= λ u. count_refs expected base lines (suc n)))
        ≡ ok m
      → (n + length (if b then filled lines else line ∷ filled lines) ≡ m)
        × All
            (λ line. line ≡ ref_line expected base)
            (if b then filled lines else line ∷ filled lines)
  stepped line lines n m true rest e = rest n e
  stepped line lines n m false rest e =
      checked line lines n m (check_ref expected base line) (check_ref_sound expected base line)
        (λ k q. rest (suc n) q) e

  count_refs_sound :
      (lines : List Bytes) (n m : ℕ)
      → count_refs expected base lines n ≡ ok m
      → Found expected base lines n m
  unfolding count_refs filled
  count_refs_sound [] n m e = (omega (arith, ok-injective e), tt)
  count_refs_sound (line ∷ lines) n m e =
      stepped line lines n m (is_empty line) (λ k q. count_refs_sound lines k m q) e

  only_one :
      (xs : List Bytes)
      → length xs ≡ 1
      → All (λ line. line ≡ ref_line expected base) xs
      → xs ≡ ref_line expected base ∷ []
  only_one [] q h = absurd (no_length q)
    where
      no_length : zero ≡ 1 → ⊥
      no_length q = omega arith
  only_one (x ∷ []) q h = ap (λ y. y ∷ []) h.0
  only_one (x ∷ (y ∷ ys)) q h = absurd (too_long (length ys) q)
    where
      too_long : (n : ℕ) → suc (suc n) ≡ 1 → ⊥
      too_long n q = omega arith

  ended :
      (output : Bytes) (r : Result ℕ)
      → count_refs expected base (split 10 output) 0 ≡ r
      → (r >>= λ n. guard (n == 1) (
          error "SESSION_DISCARD_RISK"
            "private ref baseline is not exactly the initial session target"))
        ≡ ok tt
      → filled (split 10 output) ≡ ref_line expected base ∷ []
  ended output (err x) q e = absurd (cc)
  ended output (ok n) q e =
      let found = count_refs_sound (split 10 output) 0 n q in
      only_one (filled (split 10 output))
        (omega (arith, found.0, (==_iff n 1).0 (passed (n == 1) e))) found.1
    where
      passed :
          (b : Bool)
          → guard b (
              error "SESSION_DISCARD_RISK"
                "private ref baseline is not exactly the initial session target")
            ≡ ok tt
          → b ≡ true
      passed true e = refl
      passed false e = absurd (cc)

-- The private references are let through only if the listing's one line that is not empty names the
-- session's target with the commit that the session started from.
pub refs_safe-filled :
    (expected base output : Bytes)
    → refs_safe expected base output ≡ ok tt
    → filled (split 10 output) ≡ (expected ++ (b' ' ∷ base)) ∷ []
unfolding refs_safe
refs_safe-filled expected base output e =
    ended expected base output (count_refs expected base (split 10 output) 0) refl e

contained : (a b d : Bool) → (a || b || not d) ≡ false → (a ≡ false) × (b ≡ false) × (d ≡ true)
contained false false true e = (refl, refl, refl)
contained true b d e = absurd (cc)
contained false true d e = absurd (cc)
contained false false false e = absurd (cc)

module _ (target head : Bytes) where
  some_same : {x y : Bytes} → some x ≡ some y → x ≡ y
  some_same e = cc

  safe_head_sound : (h : Bytes) → safe_head target h ≡ some head → (h ≡ head) × Safe target head
  unfolding safe_head
  safe_head_sound h =
      tested (contains 10 h || contains 13 h || not (git_safe_unborn_head h target)) refl
    where
      tested :
          (b : Bool)
          → (contains 10 h || contains 13 h || not (git_safe_unborn_head h target)) ≡ b
          → (if b then none else some h) ≡ some head
          → (h ≡ head) × Safe target head
      tested true q e = absurd (cc)
      tested false q e =
          let same = some_same e in
          let found = contained _ _ _ q in
          (
            same,
            subst (Safe target) same
                (git_safe_unborn_head_sound h target (found.0, found.1) found.2),
          )

  unprefixed :
      (rest : Bytes) (o : Option Bytes)
      → strip_suffix (10 ∷ []) rest ≡ o
      → elim o [ none ↦ none | some h ↦ safe_head target h ] ≡ some head
      → (rest ≡ head ++ (10 ∷ [])) × Safe target head
  unprefixed rest none q e = absurd (cc)
  unprefixed rest (some h) q e =
      let found = safe_head_sound h e in
      (strip_suffix_sound (10 ∷ []) rest h q ∙ ap (λ x. x ++ (10 ∷ [])) found.0, found.1)

  prefixed :
      (bytes : Bytes) (o : Option Bytes)
      → strip_prefix (codes "ref: refs/heads/") bytes ≡ o
      → elim o [
        | none ↦ none
        | some rest ↦ elim (strip_suffix (10 ∷ []) rest) [
          | none ↦ none
          | some h ↦ safe_head target h
        ]
      ]
        ≡ some head
      → (bytes ≡ codes "ref: refs/heads/" ++ (head ++ (10 ∷ []))) × Safe target head
  prefixed bytes none q e = absurd (cc)
  prefixed bytes (some rest) q e =
      let found = unprefixed rest (strip_suffix (10 ∷ []) rest) refl e in
      (
        strip_prefix_sound (codes "ref: refs/heads/") bytes rest q
            ∙ ap (λ x. codes "ref: refs/heads/" ++ x) found.0,
        found.1,
      )

-- A private HEAD is let through as unborn only if its content is the one line that names a branch. The
-- name has no line's end in it, is not empty and is not the session's target; it has only letters,
-- digits, dots, underscores, dashes and slashes; it neither begins with a slash or a dash nor ends with
-- a slash, and has no two dots and no two slashes in a row; and each part between slashes is there,
-- neither begins nor ends with a dot, and does not end in `.lock`.
pub unborn_head_sound :
    (bytes target head : Bytes)
    → unborn_head bytes target ≡ some head
    → (bytes ≡ codes "ref: refs/heads/" ++ (head ++ (10 ∷ []))) × Safe target head
unfolding unborn_head
unborn_head_sound bytes target head e =
    prefixed target head bytes (strip_prefix (codes "ref: refs/heads/") bytes) refl e
