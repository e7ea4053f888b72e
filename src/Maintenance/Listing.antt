-- ===== src/Maintenance/Listing.antt =====
-- src/session.rs: `list`, which prints the sessions that can be trusted and names the records that
-- cannot.
use git_vws.Authority.Identity.{Identity, Authority}
use git_vws.Authority.Hex.{hex}
use git_vws.Authority.Paths.{same_path}
use git_vws.Effect.{M, ◌>>=◌, ◌>>◌, lift, silent, caught, pure}
use git_vws.Session.Journal
use git_vws.Session.Types.{SessionRecord, SessionPayload}
use git_vws.Session.Names.{session_record_name}
use git_vws.Session.Validate.{authority_path_from_record}
use git_vws.Session.Host.{RecordCapability, Event, Host}
use git_vws.Session.Store.{read_record_capability, record_authority_matches}
use git_vws.Maintenance.Output.{Ordering, compare, compare_nat, then_with, sort_by}
use git_vws.Maintenance.Sessions.{Sweep, authority_from_record, diagnose_list_record, census_state}
use git_vws.Base.{
  ℕ, Bool, true, false, not, Option, none, some, List, [], ◌∷◌, ◌++◌, map, if◌then◌else◌, nat_Eq,
  string_Eq, bytes_Eq, option_bytes_Eq, option_nat_Eq, all, Bytes, codes, Result, ok, err, error,
  fail, guard,
}

pub record ListRecord : Type 0 where
  pub version : ℕ
  pub authority_path_hex : Bytes
  pub authority_identity : Identity
  pub name_hex : Bytes
  pub state : Bytes
  pub publish_state : Bytes
  pub base : Bytes
  pub target_hex : Bytes
  pub managed_path_hex : Bytes

pub record CorruptRecord : Type 0 where
  pub version : ℕ
  pub state : Bytes
  pub record_name_hex : Bytes
  pub code : Bytes

-- The name under which the session's tree is to be found.
unfoldable pub managed_name : SessionPayload → Bytes
managed_name (SessionPayload.prepared root) = root
managed_name (SessionPayload.materializing root i) = root
managed_name (SessionPayload.ready p) = p.root_name
managed_name (SessionPayload.tombstoned root tombstone i) = tombstone

unfoldable pub list_record : SessionRecord → Bytes → ListRecord
list_record r sessions_path = record {
  version = 1;
  authority_path_hex = r.authority_path;
  authority_identity = r.authority_identity;
  name_hex = r.name;
  state = census_state r.payload;
  publish_state = codes (Journal.state r.journal);
  base = r.base;
  target_hex = r.target;
  managed_path_hex = hex (sessions_path ++ (b'/' ∷ managed_name r.payload));
}

unfoldable pub list_order : ListRecord → ListRecord → Ordering
list_order left right =
    let l = left.authority_identity in
    let r = right.authority_identity in
    then_with (compare left.authority_path_hex right.authority_path_hex) (
      then_with (compare_nat l.dev r.dev) (
        then_with (compare_nat l.ino r.ino) (
          then_with (compare_nat l.uid r.uid) (
            then_with (compare_nat l.mode r.mode) (
              then_with (compare_nat l.kind r.kind) (
                then_with (compare_nat l.nlink r.nlink) (compare left.name_hex right.name_hex)))))))

unfoldable pub corrupt_record : Bytes → CorruptRecord
corrupt_record name = record {
  version = 1;
  state = codes "CORRUPT";
  record_name_hex = hex name;
  code = codes "SESSION_CORRUPT";
}

-- What becomes of one record file.
pub data Listed : Type 0 where
  -- It belongs to another authority than the one selected.
  other : Listed
  healthy : ListRecord → Listed
  corrupt : Listed

-- The sessions that can be trusted, and the names of the records that cannot.
pub record Listing : Type 0 where
  pub trusted : List ListRecord
  pub distrusted : List Bytes

unfoldable pub listed_name : Listing → Bytes → Listed → Listing
listed_name listing name other = listing
listed_name listing name (healthy r) = record listing { trusted = listing.trusted ++ (r ∷ []) }
listed_name listing name corrupt = record listing { distrusted = listing.distrusted ++ (name ∷ []) }

-- `serde_json` of the two kinds of lines, and the standard output.
pub record ListConsole (W : Type 0) : Type 0 where
  pub list_json : ListRecord → Result Bytes
  pub corrupt_json : CorruptRecord → Result Bytes
  pub write_all : Bytes → W → Result (Unit {0}) × W
  pub flush : W → Result (Unit {0}) × W
  -- `sessions_for_read`: the path of the container if it is there
  pub sessions_for_read : W → Result (Option Bytes) × W

module _ {W Plan : Type 0} (h : Host W) (t : Sweep W Plan) where
  unfoldable pub list_diagnosed : Authority → RecordCapability → M W Event Listed
  list_diagnosed a c = caught (diagnose_list_record h t a c) >>= λ r.
      pure
        (elim r [ ok u ↦ healthy (list_record c.session_record t.sessions_path) | err e ↦ corrupt ])

  -- A record of the authority that is selected, or with `none` of any.
  unfoldable pub list_selected : Option Authority → RecordCapability → M W Event Listed
  unfolding list_diagnosed
  list_selected none c = elim (authority_from_record c.session_record) [
    | err e ↦ pure corrupt
    | ok a ↦ list_diagnosed a c
  ]
  list_selected (some a) c = elim (authority_path_from_record c.session_record) [
    | err e ↦ pure corrupt
    | ok path ↦
        if not (same_path path a.canonical)
        then pure other
        else if not (record_authority_matches c.session_record a)
        then pure corrupt
        else list_diagnosed a c
  ]

  unfoldable pub list_read : Option Authority → Result RecordCapability → M W Event Listed
  unfolding list_selected
  list_read selected (ok c) = list_selected selected c
  list_read selected (err e) = pure corrupt

  unfoldable pub list_names : Option Authority → List Bytes → Listing → M W Event Listing
  unfolding list_read listed_name
  list_names selected [] listing = pure listing
  list_names selected (name ∷ names) listing =
      if not (session_record_name name)
      then list_names selected names listing
      else (caught (read_record_capability h name) >>= λ r. list_read selected r >>= λ found.
          list_names selected names (listed_name listing name found))

  module _ (c : ListConsole W) where
    unfoldable pub print_line : Result Bytes → M W Event (Unit {0})
    print_line json = do bytes ← lift json; silent (c.write_all (bytes ++ (10 ∷ [])))

    unfoldable pub print_all : List (Result Bytes) → M W Event (Unit {0})
    unfolding print_line
    print_all [] = pure tt
    print_all (json ∷ more) = print_line json >> print_all more

    -- The end of `list`: what was found is printed, and corruption is an error.
    unfoldable pub print_listing : Listing → M W Event (Unit {0})
    print_listing listing = do
      print_all (map c.list_json (sort_by list_order listing.trusted))
      print_all
          (map (λ name. c.corrupt_json (corrupt_record name)) (sort_by compare listing.distrusted))
      silent c.flush
      lift (
          guard (elim listing.distrusted [ [] ↦ true | ◌∷◌ n ns ↦ false ])
            (error "SESSION_CORRUPT" "one or more session records could not be trusted"))

    unfoldable pub list_container : Option Authority → Option Bytes → M W Event (Unit {0})
    list_container selected none = pure tt
    list_container selected (some path) = do
      names ← silent t.directory_names
      listing ← list_names selected names (record { trusted = []; distrusted = [] })
      print_listing listing

    unfoldable pub list : Option Bytes → Bool → M W Event (Unit {0})
    unfolding list_container
    list (some repository) true = lift (fail "SESSION_USAGE" "--all cannot be combined with --repo")
    list (some repository) false =
        silent (h.optional_context repository) >>= λ found. list_container (some found.0) found.1
    list none all = silent c.sessions_for_read >>= λ path. list_container none path
