-- ===== src/Storage/Links/Contained.antt =====
-- What a finished walk proves about the names that it saw.
use mathlib.Core.List.{Memᴰ}
use git_vws.Authority.Identity.{Identity}
use git_vws.Storage.Links.{Link, Entries, get, record_link, record_all, fully_contained}
use git_vws.Storage.Links.Step.{
  same_key, get-same_key, get-record_link, bumped, nlink_of, record_link_nlink,
}
use git_vws.Base.{
  ℕ, suc, ◌+◌, ◌≡◌, refl, sym, ap, subst, ◌∙◌, ◌≢◌, ◌⊎◌, Bool, true, false, ◌&&◌, not, Option, none,
  some, List, [], ◌∷◌, arith, if◌then◌else◌, ◌==◌, nat_Eq, string_Eq, bytes_Eq, option_bytes_Eq,
}

-- The names of the file of `i`, among those that report more than one link.
abbrev pub links_of : Identity → List Identity → ℕ
links_of i [] = 0
links_of i (j ∷ js) =
    let rest = links_of i js in if same_key i j && not (j.nlink == 1) then suc rest else rest

abbrev count_of : Option Link → ℕ
count_of none = 0
count_of (some l) = l.remaining

-- Only files with several names have entries.
abbrev IsShared : Option Link → Type 0
IsShared o = nlink_of o ≢ some 1

same_key_refl : (i : Identity) → same_key i i ≡ true
same_key_refl i = ground arith

-- What one accepted name does to an entry, told from the entries before and after.
count_step :
    (j : Identity) (o before after : Option Link) (same : Bool)
    → after ≡ (if same then bumped j o else before)
    → (same ≡ true → before ≡ o)
    → (o ≡ none) ⊎ (nlink_of o ≡ some j.nlink)
    → IsShared before
    → (count_of after ≡ count_of before + (if same && not (j.nlink == 1) then 1 else 0))
      × IsShared after
count_step j o before after false e k n s = (rw e (omega arith), rw e s)
count_step j none before after true e k n s = ground (arith, k refl)
count_step j (some old) before after true e k n s = ground (arith, k refl)

record_link_count :
    (i j : Identity) (m : Entries)
    → (record_link j m).1 ≡ true
    → IsShared (get i m)
    → (count_of (get i (record_link j m).0)
        ≡ count_of (get i m) + (if same_key i j && not (j.nlink == 1) then 1 else 0))
      × IsShared (get i (record_link j m).0)
record_link_count i j m h s =
    count_step j (get j m) (get i m) _ (same_key i j) (get-record_link i j m h) (get-same_key i j m)
      (record_link_nlink j m h) s

keep_step :
    (j : Identity) (o before after : Option Link) (same : Bool) (n : ℕ)
    → after ≡ (if same then bumped j o else before)
    → (same ≡ true → before ≡ o)
    → nlink_of before ≡ some n
    → nlink_of after ≡ some n
keep_step j o before after false n e k h = rw e h
keep_step j none before after true n e k h = absurd (ground (arith, k refl))
keep_step j (some old) before after true n e k h = ground (arith, k refl)

record_link_keeps :
    (i j : Identity) (m : Entries) (n : ℕ)
    → (record_link j m).1 ≡ true
    → nlink_of (get i m) ≡ some n
    → nlink_of (get i (record_link j m).0) ≡ some n
record_link_keeps i j m n h s =
    keep_step j (get j m) (get i m) _ (same_key i j) n (get-record_link i j m h)
      (get-same_key i j m) s

own_step :
    (j : Identity) (o after : Option Link)
    → after ≡ bumped j o
    → (o ≡ none) ⊎ (nlink_of o ≡ some j.nlink)
    → j.nlink ≢ 1
    → nlink_of after ≡ some j.nlink
own_step j none after e n h = ground arith
own_step j (some old) after e n h = ground arith

-- A name of a file with several has an entry that remembers how many.
record_link_own :
    (j : Identity) (m : Entries)
    → (record_link j m).1 ≡ true
    → j.nlink ≢ 1
    → nlink_of (get j (record_link j m).0) ≡ some j.nlink
record_link_own j m h n =
    own_step j (get j m) _
      (get-record_link j j m h
        ∙ ap (λ b. if b then bumped j (get j m) else get j m) (same_key_refl j))
      (record_link_nlink j m h) n

-- The first name of a walk that ends was accepted, and the walk goes on from there.
record_all_cons :
    (j : Identity) (js : List Identity) (m r : Entries)
    → record_all (j ∷ js) m ≡ some r
    → ((record_link j m).1 ≡ true) × (record_all js (record_link j m).0 ≡ some r)
unfolding record_all
record_all_cons j js m r h = ground arith

some_eq : (m r : Entries) → some m ≡ some r → m ≡ r
some_eq m r h = cc

no_entries : (i : Identity) → count_of (get i []) ≡ 0
unfolding get
no_entries i = refl

walk_keeps :
    (i : Identity) (js : List Identity) (m r : Entries) (n : ℕ)
    → record_all js m ≡ some r
    → nlink_of (get i m) ≡ some n
    → nlink_of (get i r) ≡ some n
walk_keeps i [] m r n h k = unfold record_all in rw (← (some_eq m r h)) k
walk_keeps i (j ∷ js) m r n h k =
    let (accepted, rest) = record_all_cons j js m r h in
    walk_keeps i js _ r n rest (record_link_keeps i j m n accepted k)

walk_count :
    (i : Identity) (js : List Identity) (m r : Entries)
    → record_all js m ≡ some r
    → IsShared (get i m)
    → count_of (get i r) ≡ count_of (get i m) + links_of i js
walk_count i [] m r h s = unfold record_all in rw (← (some_eq m r h)) (omega arith)
walk_count i (j ∷ js) m r h s =
    let (accepted, rest) = record_all_cons j js m r h in
    let (counted, shared) = record_link_count i j m accepted s in
    ground (arith, counted, walk_count i js (record_link j m).0 r rest shared)

walk_own :
    (i : Identity) (js : List Identity) (m r : Entries)
    → record_all js m ≡ some r
    → Memᴰ i js
    → i.nlink ≢ 1
    → nlink_of (get i r) ≡ some i.nlink
walk_own i [] m r h x n = elim x [ ]
walk_own i (j ∷ js) m r h (Memᴰ.head e) n =
    let (accepted, rest) = record_all_cons j js m r h in
    walk_keeps i js _ r i.nlink rest (
      subst (λ k. nlink_of (get i (record_link k m).0) ≡ some i.nlink) e
        (record_link_own i m (subst (λ k. (record_link k m).1 ≡ true) (sym e) accepted) n))
walk_own i (j ∷ js) m r h (Memᴰ.tail t) n =
    let (accepted, rest) = record_all_cons j js m r h in walk_own i js _ r rest t n

fully_contained-get :
    (i : Identity) (m : Entries) (n : ℕ)
    → fully_contained m ≡ true
    → nlink_of (get i m) ≡ some n
    → n ≡ count_of (get i m)
unfolding fully_contained get
fully_contained-get i [] n c h = absurd (cc)
fully_contained-get i ((d, k, l) ∷ m) n c h = ground (arith, fully_contained-get i m n)

-- If a walk over the names of regular files refuses none and ends fully contained, then each file
-- that reports several links has exactly that many names among those walked: no hard link to it
-- lies outside.
pub all_links_inside :
    (files : List Identity) (m : Entries) (i : Identity)
    → record_all files [] ≡ some m
    → fully_contained m ≡ true
    → Memᴰ i files
    → i.nlink ≢ 1
    → i.nlink ≡ links_of i files
all_links_inside files m i h c mem n = omega (
  arith,
  fully_contained-get i m i.nlink c (walk_own i files [] m h mem n),
  walk_count i files [] m h (unfold get in λ e. cc),
  no_entries i,
)
