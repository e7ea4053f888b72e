-- ===== src/Authority/Scan.antt =====
-- src/authority.rs: `scan_records`, which a new authority must pass: every name in the state root is
-- accounted for, and no record is of this authority's path or node.
use git_vws.Authority.Identity.{Identity, Authority, directory, regular, valid_state_container}
use git_vws.Authority.Hex.{hex, path_hash}
use git_vws.Authority.Record.{Record, exactly_matches}
use git_vws.Authority.Paths.{same_path}
use git_vws.Framing.{be_bytes}
use git_vws.Effect.{
  World, M, ◌>>=◌, ◌>>◌, continue, lift, silent, pure, Holds, Ensures, bind, seq, lifted, pured,
  branch, weaken, Any, whatever, using, answered,
}
use git_vws.Maintenance.Output.{compare, sort_by}
use git_vws.Base.{
  ℕ, String, ◌≡◌, refl, subst, ◌⊎◌, inl, inr, Bool, true, false, ◌&&◌, ◌||◌, not, List, [], ◌∷◌,
  ◌++◌, ltb, leb, if◌then◌else◌, ◌==◌, ==_iff, nat_Eq, string_Eq, bytes_Eq, option_bytes_Eq,
  option_nat_Eq, length, All, Bytes, codes, is_empty, contains, starts_with, ends_with, Error,
  Result, ok, err, error, fail, guard,
}

-- The state root: its identity, whether this run has made it, and the calls on it.
pub record Root (W : Type 0) : Type 0 where
  pub identity : Identity
  pub created : Bool
  pub me : ℕ
  pub directory_names : W → Result (List Bytes) × W
  pub stat_at : Bytes → W → Result Identity × W
  pub read_record_at : Bytes → W → Result Record × W

abbrev corrupt : String → Error
corrupt detail = error "STATE_CORRUPT" detail

-- `record_name`, with the initial value of the hash
unfoldable pub record_name : Bytes → Bytes
record_name canonical =
    codes "authority-"
    ++ (hex (be_bytes 8 (path_hash 0xcbf29ce484222325 canonical)) ++ codes ".record")

unfoldable pub cstring : Bytes → Result (Unit {0})
cstring bytes =
    if is_empty bytes || bytes == codes "." || bytes == codes ".." || contains b'/' bytes
    then err (corrupt "invalid basename")
    else guard (not (contains 0 bytes)) (corrupt "invalid basename bytes")

unfoldable pub ignorable_system_metadata_name : Bytes → Bool
ignorable_system_metadata_name name =
    name == codes ".DS_Store"
    || name == codes ".directory"
    || name == codes ".hidden"
    || name == codes ".localized"
    || name == codes "Icon" ++ (13 ∷ [])
    || name == codes ".AppleDouble"
    || (starts_with (codes "._") name && ltb 2 (length name))

abbrev is_container : Bytes → Bool
is_container name = name == codes "templates" || name == codes "sessions"

abbrev same_file : Identity → Identity → Bool
same_file left right = left.dev == right.dev && left.ino == right.ino

-- The end of a round, with the record that was read.
unfoldable pub check_record : Authority → Bytes → Record → Result (Unit {0})
check_record a name r =
    if not (name == record_name r.canonical)
    then err (corrupt "state record filename does not match its canonical path")
    else if same_path r.canonical a.canonical
    then (if exactly_matches r a
        then fail "AUTHORITY_DUPLICATE" "authority already initialized"
        else fail "AUTHORITY_IDENTITY_DRIFT" "canonical authority path identifies different data")
    else guard (not (same_file r.identity a.identity))
        (corrupt "foreign state record claims the authority identity")

module _ {W Event : Type 0} (root : Root W) where
  unfoldable pub is_ignorable_system_metadata : Bytes → M W Event Bool
  is_ignorable_system_metadata name =
      if not (ignorable_system_metadata_name name)
      then pure false
      else (lift (cstring name)
          >> (silent (root.stat_at name) >>= λ i. pure (
              if not (i.uid == root.me)
              then false
              else if name == codes ".AppleDouble"
              then directory i && leb 2 i.nlink
              else regular i && i.nlink == 1)))

  unfoldable pub scan_container : Bytes → M W Event (Unit {0})
  scan_container name = do
    lift (cstring name)
    i ← silent (root.stat_at name)
    lift (
        guard (valid_state_container root.me i && i.dev == root.identity.dev)
          (corrupt "state container is not an exact owned directory"))

  unfoldable pub scan_record : Authority → Bytes → M W Event (Unit {0})
  unfolding check_record
  scan_record a name = do
    lift (
        guard (ends_with (codes ".record") name && not (starts_with (codes ".") name))
          (corrupt "state root contains an unexpected entry"))
    r ← silent (root.read_record_at name)
    lift (check_record a name r)

  unfoldable pub scan_names : Authority → List Bytes → M W Event (Unit {0})
  unfolding scan_container scan_record is_ignorable_system_metadata
  scan_names a [] = pure tt
  scan_names a (name ∷ names) =
      if is_container name
      then scan_container name >> scan_names a names
      else (is_ignorable_system_metadata name >>= λ ignorable.
          if ignorable then scan_names a names else scan_record a name >> scan_names a names)

  unfoldable pub scan_listed : Authority → List Bytes → M W Event (Unit {0})
  unfolding scan_names
  scan_listed a names =
      lift (
        guard (not (elim names [ [] ↦ true | ◌∷◌ n ns ↦ false ]) || root.created)
          (corrupt "state root exists without an authority record"))
      >> scan_names a (sort_by compare names)

  unfoldable pub scan_records : Authority → M W Event (Unit {0})
  unfolding scan_listed
  scan_records a = silent root.directory_names >>= scan_listed a

-- The file `name` was read, and it holds the record of another authority: neither its path nor its node
-- is `a`'s.
pub record Foreign {W : Type 0} (root : Root W) (a : Authority) (name : Bytes) : Type 0 where
  pub found : Record
  pub read : (w0 w1 : W) × (root.read_record_at name w0 ≡ (ok found, w1))
  pub named : name ≡ record_name found.canonical
  pub other_path : same_path found.canonical a.canonical ≡ false
  pub other_node : same_file found.identity a.identity ≡ false

unfoldable pub Accounted : {W : Type 0} → Root W → Authority → Bytes → Type 0
Accounted root a name =
    (is_container name ≡ true)
    ⊎ ((ignorable_system_metadata_name name ≡ true) ⊎ Foreign root a name)

negated : (b : Bool) → not b ≡ true → b ≡ false
negated false e = refl
negated true e = absurd (cc)

passed : (test : Bool) (e : Error) {u : Unit {0}} → guard test e ≡ ok u → test ≡ true
passed true e h = refl
passed false e h = absurd (cc)

check_record-Foreign :
    {W : Type 0} (root : Root W) (a : Authority) (name : Bytes) (r : Record) {u : Unit {0}}
    → (w0 w1 : W) × (root.read_record_at name w0 ≡ (ok r, w1))
    → check_record a name r ≡ ok u
    → Foreign root a name
unfolding check_record
check_record-Foreign root a name r read =
    tested (name == record_name r.canonical) (same_path r.canonical a.canonical) refl refl
  where
    tested :
        (p q : Bool)
        → (name == record_name r.canonical) ≡ p
        → same_path r.canonical a.canonical ≡ q
        → {u : Unit {0}}
        → (if not p
            then err (corrupt "state record filename does not match its canonical path")
            else if q
            then (if exactly_matches r a
                then fail "AUTHORITY_DUPLICATE" "authority already initialized"
                else fail "AUTHORITY_IDENTITY_DRIFT"
                    "canonical authority path identifies different data")
            else guard
                (not (same_file r.identity a.identity))
                (corrupt "foreign state record claims the authority identity"))
          ≡ ok u
        → Foreign root a name
    tested false q e f h = absurd (cc)
    tested true true e f h = known (exactly_matches r a) h
      where
        known :
            (b : Bool) {u : Unit {0}}
            → (if b
                then fail "AUTHORITY_DUPLICATE" "authority already initialized"
                else fail "AUTHORITY_IDENTITY_DRIFT"
                    "canonical authority path identifies different data")
              ≡ ok u
            → Foreign root a name
        known true h = absurd (cc)
        known false h = absurd (cc)
    tested true false e f h = record {
      found = r;
      read = read;
      named = (==_iff name (record_name r.canonical)).0 e;
      other_path = f;
      other_node = negated (same_file r.identity a.identity) (passed _ _ h);
    }

module _ {W Event : Type 0} (root : Root W) (a : Authority) where
  scans_record :
      (name : Bytes)
      → Ensures {W = W} {Event = Event} Any
          (scan_record root a name)
          (λ u w. Foreign root a name)
          Any
  unfolding scan_record
  scans_record name = seq (whatever _) (
      bind (answered (root.read_record_at name)) λ r. using λ read.
        lifted (check_record a name r) (λ u w e p. check_record-Foreign root a name r read e)
          (λ w p. tt))

  asks :
      (name : Bytes)
      → Ensures {W = W} {Event = Event} Any
          (is_ignorable_system_metadata root name)
          (λ found w. found ≡ true → ignorable_system_metadata_name name ≡ true)
          Any
  unfolding is_ignorable_system_metadata
  asks name =
      weaken (λ w p. p) (λ found w q. known (ignorable_system_metadata_name name) found q)
        (λ w p. p)
        (branch {Q = λ found w. not (ignorable_system_metadata_name name) ≡ true → found ≡ false}
          (not (ignorable_system_metadata_name name)) (λ e. pured false (λ w p q. refl))
          (λ e.
            seq (whatever (lift (cstring name)))
              (bind (whatever (silent (root.stat_at name))) λ i. pured _ (λ w p q. absurd (cc)))))
    where
      known : (b found : Bool) → (not b ≡ true → found ≡ false) → found ≡ true → b ≡ true
      known true found q e = refl
      known false found q e = absurd (cc (q refl))

  scans :
      (names : List Bytes)
      → Ensures {W = W} {Event = Event} Any
          (scan_names root a names)
          (λ u w. All (Accounted root a) names)
          Any
  unfolding scan_names Accounted
  scans [] = pured tt (λ w p. tt)
  scans (name ∷ names) =
      branch (is_container name)
        (λ e.
          seq (whatever (scan_container root name))
            (weaken (λ w p. p) (λ u w q. (inl e, q)) (λ w p. p) (scans names)))
        (λ e. bind (asks name) λ ignorable. using λ h.
          branch ignorable
            (λ q. weaken (λ w p. p) (λ u w r. (inr (inl (h q)), r)) (λ w p. p) (scans names))
            (λ q. seq (scans_record name) (
              using λ found.
                weaken (λ w p. p) (λ u w r. (inr (inr found), r)) (λ w p. p) (scans names))))

  scans_listed :
      (names : List Bytes)
      → Ensures {W = W} {Event = Event} Any
          (scan_listed root a names)
          (λ u w. All (Accounted root a) (sort_by compare names))
          Any
  unfolding scan_listed
  scans_listed names = seq (whatever _) (scans _)

  listed_run :
      (x : Result (List Bytes) × W) (log : List Event) (u : Unit {0}) (w' : World W Event)
      → continue (x.0, record { outside = x.1; log = log }) (scan_listed root a) ≡ (ok u, w')
      → (names : List Bytes) × (x.0 ≡ ok names) × All (Accounted root a) (sort_by compare names)
  listed_run (err e, w) log u w' q = absurd (cc)
  listed_run (ok names, w) log u w' q = (
    names,
    refl,
    subst (Holds (λ v z. All (Accounted root a) (sort_by compare names)) Any) q
        ((scans_listed names).run (record { outside = w; log = log }) tt),
  )

  -- A scan that succeeds has accounted for every name in the state root: it is a container's, one that
  -- the system leaves behind, or the file was read, and the record that it holds has the name that its
  -- path gives, and is of an authority with another path and another node.
  pub scan_records-Accounted :
      (w w' : World W Event) (u : Unit {0})
      → scan_records root a w ≡ (ok u, w')
      → (names : List Bytes) × ((root.directory_names w.outside).0 ≡ ok names)
        × All (Accounted root a) (sort_by compare names)
  unfolding scan_records silent ◌>>=◌
  scan_records-Accounted w w' u e = listed_run (root.directory_names w.outside) w.log u w' e
