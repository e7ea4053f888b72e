-- ===== src/Maintenance/Accounted.antt =====
-- The listing of all sessions accounts for every record file: as a session or as a record that cannot
-- be trusted.
use git_vws.Effect.{
  World, M, pure, caught, Holds, Ensures, bind, pured, weaken, Any, whatever, using,
}
use git_vws.Authority.Identity.{Authority}
use git_vws.Session.Host.{RecordCapability, Event, Host}
use git_vws.Session.Names.{session_record_name}
use git_vws.Session.Store.{read_record_capability}
use git_vws.Maintenance.Sessions.{Sweep, authority_from_record}
use git_vws.Maintenance.Listing
use git_vws.Maintenance.Listing.{Listed, other, healthy, corrupt, Listing}
use git_vws.Base.{
  ℕ, suc, ◌+◌, ◌≡◌, subst, Bool, true, false, not, none, List, [], ◌∷◌, arith, if◌then◌else◌,
  nat_Eq, string_Eq, bytes_Eq, option_bytes_Eq, option_nat_Eq, length, length-append, Bytes, Result,
  ok, err,
}

-- The record files among the names.
unfoldable pub record_files : List Bytes → List Bytes
record_files [] = []
record_files (name ∷ names) =
    if session_record_name name then name ∷ record_files names else record_files names

-- How many lines a listing has.
abbrev size : Listing → ℕ
size listing = length listing.trusted + length listing.distrusted

-- The record was listed, as what it may be.
unfoldable pub IsListed : Listed → Type 0
IsListed other = ⊥
IsListed (healthy r) = Unit {0}
IsListed corrupt = Unit {0}

unpadded : (a n : ℕ) → a ≡ 0 + 0 + n → a ≡ n
unpadded a n p = omega (arith, p)

module _ {W Plan : Type 0} (h : Host W) (t : Sweep W Plan) where
  diagnoses :
      (a : Authority) (c : RecordCapability)
      → Ensures Any (Listing.list_diagnosed h t a c) (λ found w. IsListed found) Any
  unfolding Listing.list_diagnosed IsListed
  diagnoses a c = bind (whatever _) λ r. pured _ (λ w p. answered r)
    where
      answered :
          (r : Result (Unit {0}))
          → IsListed (elim r [
            | ok u ↦ healthy (Listing.list_record c.session_record t.sessions_path)
            | err e ↦ corrupt
          ])
      answered (ok u) = tt
      answered (err e) = tt

  selects :
      (c : RecordCapability)
      → Ensures Any (Listing.list_selected h t none c) (λ found w. IsListed found) Any
  unfolding Listing.list_selected IsListed
  selects c = decided (authority_from_record c.session_record)
    where
      decided :
          (r : Result Authority)
          → Ensures Any
              (elim r [ err e ↦ pure corrupt | ok a ↦ Listing.list_diagnosed h t a c ])
              (λ found w. IsListed found)
              Any
      decided (err e) = pured corrupt (λ w p. tt)
      decided (ok a) = diagnoses a c

  reads :
      (r : Result RecordCapability)
      → Ensures Any (Listing.list_read h t none r) (λ found w. IsListed found) Any
  unfolding Listing.list_read IsListed
  reads (ok c) = selects c
  reads (err e) = pured corrupt (λ w p. tt)

  one_more :
      (listing : Listing) (name : Bytes) (found : Listed)
      → IsListed found
      → size (Listing.listed_name listing name found) ≡ suc (size listing)
  unfolding Listing.listed_name IsListed
  one_more listing name other p = absurd p
  one_more listing name (healthy r) p = omega (arith, length-append listing.trusted (r ∷ []))
  one_more listing name corrupt p = omega (arith, length-append listing.distrusted (name ∷ []))

  split_on :
      {m n : M W Event Listing} (b : Bool) (name : Bytes) (names : List Bytes) (k : ℕ)
      → Ensures Any m (λ d w. size d ≡ k + length names) Any
      → Ensures Any n (λ d w. size d ≡ k + suc (length names)) Any
      → Ensures Any
          (if not b then m else n)
          (λ d w. size d ≡ k + length (if b then name ∷ names else names))
          Any
  split_on true name names k left right = right
  split_on false name names k left right = left

  shifted : (a b c n : ℕ) → a ≡ b + n → b ≡ suc c → a ≡ c + suc n
  shifted a b c n p q = omega (arith, p, q)

  lists :
      (names : List Bytes) (listing : Listing)
      → Ensures Any
          (Listing.list_names h t none names listing)
          (λ d w. size d ≡ size listing + length (record_files names))
          Any
  unfolding Listing.list_names record_files
  lists [] listing = pured listing (λ w p. omega arith)
  lists (name ∷ names) listing =
      split_on (session_record_name name) name (record_files names) (size listing)
        (lists names listing)
        (bind (whatever (caught (read_record_capability h name))) λ r. bind (reads r) λ found.
          using λ p.
            weaken (λ w q. q) (λ d w q. shifted _ _ _ _ q (one_more listing name found p))
              (λ w q. q) (lists names (Listing.listed_name listing name found)))

  -- A listing of all sessions that succeeds has one line for each record file among the names.
  pub list_names-accounts :
      (names : List Bytes) (w w' : World W Event) (listing : Listing)
      → Listing.list_names h t none names (record { trusted = []; distrusted = [] }) w
        ≡ (ok listing, w')
      → length listing.trusted + length listing.distrusted ≡ length (record_files names)
  list_names-accounts names w w' listing e = unpadded _ _ (
      subst (Holds (λ d v. size d ≡ 0 + 0 + length (record_files names)) Any) e
        ((lists names _).run w tt))
