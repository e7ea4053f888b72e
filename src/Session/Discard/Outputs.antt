-- ===== src/Session/Discard/Outputs.antt =====
-- src/session.rs: what `ensure_private_refs_safe` reads in a listing of references, and
-- `unborn_head` with `git_safe_unborn_head`.
use git_vws.Base.{
  ℕ, suc, String, Bool, ◌&&◌, ◌||◌, not, Option, none, some, List, [], ◌∷◌, ◌++◌, if◌then◌else◌,
  ◌==◌, nat_Eq, string_Eq, bytes_Eq, option_bytes_Eq, option_nat_Eq, all, Bytes, codes, is_empty,
  is_alphanumeric, contains, strip_prefix, starts_with, strip_suffix, ends_with, includes, cut_last,
  split, Error, Result, ok, err, error, ◌>>=◌, guard,
}

-- `discard_risk`
abbrev pub discard_risk : String → Error
discard_risk detail = error "SESSION_DISCARD_RISK" detail

-- One line of the listing that is not empty.
unfoldable pub check_ref : Bytes → Bytes → Bytes → Result (Unit {0})
check_ref expected base line = elim (cut_last b' ' line) [
  | none ↦ err (discard_risk "private ref listing was malformed")
  | some parts ↦
      if parts.0 == expected && parts.1 == base
      then ok tt
      else err (discard_risk "private refs differ from the initial session target")
]

-- The loop: how many references there are.
unfoldable pub count_refs : Bytes → Bytes → List Bytes → ℕ → Result ℕ
unfolding check_ref
count_refs expected base [] n = ok n
count_refs expected base (line ∷ lines) n =
    if is_empty line
    then count_refs expected base lines n
    else (check_ref expected base line >>= λ u. count_refs expected base lines (suc n))

unfoldable pub refs_safe : Bytes → Bytes → Bytes → Result (Unit {0})
unfolding count_refs
refs_safe expected base output = do
  n ← count_refs expected base (split 10 output) 0
  guard (n == 1) (discard_risk "private ref baseline is not exactly the initial session target")

-- The characters of a name that Git may leave unborn.
unfoldable pub is_safe_character : ℕ → Bool
is_safe_character c = is_alphanumeric c || c == b'.' || c == b'_' || c == b'-' || c == b'/'

unfoldable pub is_safe_component : Bytes → Bool
is_safe_component component =
    not (is_empty component)
    && not (starts_with (codes ".") component)
    && not (ends_with (codes ".") component)
    && not (ends_with (codes ".lock") component)

unfoldable pub git_safe_unborn_head : Bytes → Bytes → Bool
unfolding is_safe_character is_safe_component
git_safe_unborn_head head target =
    not (is_empty head)
    && not (head == target)
    && not (starts_with (codes "/") head)
    && not (starts_with (codes "-") head)
    && not (ends_with (codes "/") head)
    && not (includes (codes "..") head || includes (codes "//") head)
    && all is_safe_character head
    && all is_safe_component (split b'/' head)

-- The end of `unborn_head`, of the name between the prefix and the line's end.
unfoldable pub safe_head : Bytes → Bytes → Option Bytes
unfolding git_safe_unborn_head
safe_head target head =
    if contains 10 head || contains 13 head || not (git_safe_unborn_head head target)
    then none
    else some head

unfoldable pub unborn_head : Bytes → Bytes → Option Bytes
unfolding safe_head
unborn_head bytes target = elim (strip_prefix (codes "ref: refs/heads/") bytes) [
  | none ↦ none
  | some rest ↦ elim (strip_suffix (10 ∷ []) rest) [
    | none ↦ none
    | some head ↦ safe_head target head
  ]
]

unfoldable pub unborn_notice : Bytes → Bytes
unborn_notice head =
    codes "notice: HEAD points to an unborn branch (" ++ (head ++ (codes ")" ++ (10 ∷ [])))
