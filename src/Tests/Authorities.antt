-- ===== src/Tests/Authorities.antt =====
-- The properties of authority records, encodings and hard links on concrete values.
use mathlib.Core.List.{Memᴰ}
use git_vws.Authority.Identity.{Identity}
use git_vws.Authority.Hex
use git_vws.Authority.Hex.{hex, decode_hex}
use git_vws.Authority.Record
use git_vws.Authority.Record.{from_authority, recorded, parse_record, encode, IsEncodable}
use git_vws.Authority.TxnName
use git_vws.Authority.TxnName.{record_txn_final_name, temporary_name}
use git_vws.Storage.Links.{record_all}
use git_vws.Storage.Links
use git_vws.Storage.Links.Contained
use git_vws.Storage.Links.Contained.{links_of}
use git_vws.Tests.Fixture.{some_authority, file_node}
use git_vws.Base.{
  ◌≡◌, refl, ◌≢◌, inl, some, List, [], ◌∷◌, arith, nat_Eq, string_Eq, bytes_Eq, option_bytes_Eq,
  option_nat_Eq, codes, contains, strip_prefix, starts_with, ok,
}

abbrev some_authority_record : Record.Record
some_authority_record = from_authority some_authority

some_authority_record-IsEncodable : IsEncodable some_authority_record
unfolding Hex.is_absolute starts_with from_authority contains strip_prefix
some_authority_record-IsEncodable = record {
  bytes = omega arith;
  absolute = refl;
  no_nul = refl;
  dev = omega arith;
  ino = omega arith;
  uid = omega arith;
  mode = omega arith;
  object = inl refl;
  ref = inl refl;
}

parse_record-encode_example :
    parse_record (encode some_authority_record) ≡ ok (recorded some_authority_record)
parse_record-encode_example =
    Record.parse_record-encode some_authority_record some_authority_record-IsEncodable

hex-decode_hex_example : (hex (codes "/a") ≡ codes "2f61") × (codes "/a" ≢ [])
unfolding Hex.decode_hex Hex.decode_pairs Hex.valid_lower_hex Hex.hex_digit
hex-decode_hex_example = Hex.hex-decode_hex (codes "2f61") (codes "/a") refl

record_txn_final_name-temporary_name_example :
    record_txn_final_name (temporary_name (λ s. s) (codes "session-1.record") 77 3)
    ≡ some (codes "session-1.record")
record_txn_final_name-temporary_name_example =
    TxnName.record_txn_final_name-temporary_name (λ s. s) (codes "session-1.record") 77 3 refl
      (λ e. absurd (cc))

abbrev linked_file : Identity
linked_file = record file_node { nlink = 2 }

abbrev linked_files : List Identity
linked_files = linked_file ∷ (linked_file ∷ [])

linked_files_recorded :
    record_all linked_files []
    ≡ some ((1, 9, record { identity = linked_file; remaining = 2 }) ∷ [])
unfolding record_all Links.record_link Links.record_existing Links.get Links.put
    Links.same_regular_binding
linked_files_recorded = refl

all_links_inside_example : 2 ≡ links_of linked_file linked_files
unfolding Links.fully_contained
all_links_inside_example =
    Contained.all_links_inside linked_files
      ((1, 9, record { identity = linked_file; remaining = 2 }) ∷ []) linked_file
      linked_files_recorded refl (Memᴰ.head refl) (omega arith)
