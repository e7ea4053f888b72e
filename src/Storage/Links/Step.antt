-- ===== src/Storage/Links/Step.antt =====
-- One call of `record` and one of `take_for_cleanup`, read through `get`.
use git_vws.Authority.Identity.{Identity}
use git_vws.Storage.Links.{Link, Entries, has_key, get, put, record_existing, record_link}
use git_vws.Base.{
  ℕ, ◌+◌, ◌≡◌, refl, ◌⊎◌, inl, Bool, true, Option, none, some, [], ◌∷◌, arith, if◌then◌else◌, ◌==◌,
  nat_Eq, string_Eq, bytes_Eq, option_bytes_Eq,
}

abbrev pub same_key : Identity → Identity → Bool
same_key i j = has_key i j.dev j.ino

pub get-same_key : (i j : Identity) (m : Entries) → same_key i j ≡ true → get i m ≡ get j m
unfolding get
get-same_key i j [] h = refl
get-same_key i j ((d, n, l) ∷ m) h = ground (arith, get-same_key i j m h)

pub get-put :
    (i j : Identity) (v old : Link) (m : Entries)
    → get j m ≡ some old
    → get i (put j v m) ≡ (if same_key i j then some v else get i m)
unfolding get put
get-put i j v old [] h = absurd (cc)
get-put i j v old ((d, n, l) ∷ m) h = ground (arith, get-put i j v old m)

-- What an accepted call makes of the entry of its key.
abbrev pub bumped : Identity → Option Link → Option Link
bumped j none = if j.nlink == 1 then none else some (record { identity = j; remaining = 1 })
bumped j (some old) = some (record old { remaining = old.remaining + 1 })

get-record_existing :
    (i j : Identity) (m : Entries) (o : Option Link)
    → get j m ≡ o
    → (record_existing j m o).1 ≡ true
    → get i (record_existing j m o).0 ≡ (if same_key i j then bumped j o else get i m)
unfolding record_existing get
get-record_existing i j m none e h = ground (arith, get-same_key i j m)
get-record_existing i j m (some old) e h =
    ground (arith, get-put i j (record old { remaining = old.remaining + 1 }) old m e)

pub get-record_link :
    (i j : Identity) (m : Entries)
    → (record_link j m).1 ≡ true
    → get i (record_link j m).0 ≡ (if same_key i j then bumped j (get j m) else get i m)
unfolding record_link
get-record_link i j m h = get-record_existing i j m (get j m) refl h

abbrev pub nlink_of : Option Link → Option ℕ
nlink_of none = none
nlink_of (some l) = some l.identity.nlink

record_existing_nlink :
    (j : Identity) (m : Entries) (o : Option Link)
    → (record_existing j m o).1 ≡ true
    → (o ≡ none) ⊎ (nlink_of o ≡ some j.nlink)
unfolding record_existing
record_existing_nlink j m none h = inl refl
record_existing_nlink j m (some old) h = ground arith

-- A name that is accepted beside others reports the link count that they reported.
pub record_link_nlink :
    (j : Identity) (m : Entries)
    → (record_link j m).1 ≡ true
    → (get j m ≡ none) ⊎ (nlink_of (get j m) ≡ some j.nlink)
unfolding record_link
record_link_nlink j m h = record_existing_nlink j m (get j m) h
