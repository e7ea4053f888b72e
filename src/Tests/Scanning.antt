-- ===== src/Tests/Scanning.antt =====
-- A state root with one foreign authority, and the property of its scan there.
use git_vws.Authority.Identity
use git_vws.Authority.Identity.{Identity}
use git_vws.Authority.Hex
use git_vws.Authority.Record
use git_vws.Authority.Scan
use git_vws.Authority.Paths
use git_vws.Authority.Scan.{Root, scan_records, record_name, Accounted}
use git_vws.Framing
use git_vws.Effect
use git_vws.Effect.{World}
use git_vws.Session.Host.{Event}
use git_vws.Maintenance.Output
use git_vws.Maintenance.Output.{compare, sort_by}
use git_vws.Tests.Fixture.{some_authority, private_node}
use git_vws.Base.{
  ◌≡◌, refl, false, List, [], ◌∷◌, ℕ_discrete, nat_Eq, string_Eq, List-discrete, Bytes-discrete,
  bytes_Eq, option_bytes_Eq, option_nat_Eq, All, Bytes, codes, contains, strip_prefix, starts_with,
  strip_suffix, ends_with, split, Result, ok,
}

abbrev foreign_record : Record.Record
foreign_record = record {
  canonical = codes "/b";
  identity = record private_node { ino = 7 };
  object_format = codes "sha1";
  ref_format = codes "files";
}

abbrev some_root : Root Bytes
some_root = record {
  identity = private_node;
  created = false;
  me = 501;
  directory_names = λ w. (ok (codes "sessions" ∷ record_name (codes "/b") ∷ []), w);
  stat_at = λ name w. (ok private_node, w);
  read_record_at = λ name w. (ok foreign_record, w);
}

abbrev first_world : World Bytes Event
first_world = record { outside = []; log = [] }

abbrev scanning : Result (Unit {0}) × World Bytes Event
scanning = scan_records some_root some_authority first_world

scanning_ok : scanning ≡ (ok tt, first_world)
unfolding scan_records Scan.scan_listed Scan.scan_names Scan.scan_container Scan.scan_record
    Scan.check_record Scan.is_ignorable_system_metadata Scan.ignorable_system_metadata_name
    Paths.kept Paths.relative Paths.components Paths.same_parts Paths.same_path split Scan.cstring
    record_name Identity.valid_state_container Identity.Identity-discrete Hex.hex Hex.hex_digit
    Hex.path_hash Framing.be_bytes Framing.le_bytes Record.exactly_matches compare sort_by
    Output.insert_by Output.then_with Effect.◌>>=◌ Effect.◌>>◌ Effect.lift Effect.pure Effect.silent
    contains strip_prefix strip_suffix starts_with ends_with Bytes-discrete List-discrete ℕ_discrete
scanning_ok = refl

scan_records-Accounted_example :
    (names : List Bytes) × ((some_root.directory_names first_world.outside).0 ≡ ok names)
    × All (Accounted some_root some_authority) (sort_by compare names)
scan_records-Accounted_example =
    Scan.scan_records-Accounted some_root some_authority first_world first_world tt scanning_ok
