-- ===== src/Tests/Listings.antt =====
-- A listing where a removal was under way, and its property there.
use git_vws.Authority.Hex
use git_vws.Authority.Identity
use git_vws.Storage.Modes
use git_vws.Effect
use git_vws.Effect.{World, bare}
use git_vws.Session.Host
use git_vws.Session.Host.{Event, Host, destroyed, removed}
use git_vws.Session.Names
use git_vws.Session.Validate
use git_vws.Session.Store
use git_vws.Session.Lifecycle
use git_vws.Maintenance.Sessions
use git_vws.Maintenance.Sessions.{Sweep, SessionCensus}
use git_vws.Maintenance.Listing as MListing
use git_vws.Maintenance.Listing.{Listing}
use git_vws.Maintenance.Accounted
use git_vws.Tests.Fixture.{some_host}
use git_vws.Tests.Container.{record_name, tombstone_name, some_sweep, first_world}
use git_vws.Base.{
  ◌+◌, ◌≡◌, refl, none, [], ◌∷◌, nat_Eq, string_Eq, OptionBytes-discrete, bytes_Eq, option_bytes_Eq,
  option_nat_Eq, length, Bytes, contains, ends_with, includes, Result, ok, err,
}

abbrev listing : Result Listing × World Bytes Event
listing =
    MListing.list_names some_host some_sweep none (record_name ∷ tombstone_name ∷ [])
      (record { trusted = []; distrusted = [] }) first_world

abbrev listing_in : Result Listing → Listing
listing_in (ok found) = found
listing_in (err e) = record { trusted = []; distrusted = [] }

listing_ok : listing ≡ (ok (listing_in listing.0), listing.1)
unfolding Sessions.authority_from_record Store.capability_from_binding Store.read_record_capability
    Validate.authority_path_from_record Validate.session_id Validate.valid_publish_journal
    Validate.valid_fields Validate.valid_payload Validate.validate_record Validate.encode_record
    Validate.parse_record Names.valid_session_name Names.root_name Names.tombstone_name
    Names.record_name Names.session_record_name Names.valid_hash Names.valid_oid Hex.hex_digit
    Hex.decode_path Hex.decode_hex Modes.cleanup_mode_directory Effect.◌>>◌ Effect.lift Effect.pure
    Effect.map_error Effect.silent Effect.caught OptionBytes-discrete contains ends_with includes
    MListing.list_names
listing_ok = refl

list_names-accounts_example :
    length (listing_in listing.0).trusted + length (listing_in listing.0).distrusted
    ≡ length (Accounted.record_files (record_name ∷ tombstone_name ∷ []))
list_names-accounts_example =
    Accounted.list_names-accounts some_host some_sweep (record_name ∷ tombstone_name ∷ [])
      first_world listing.1 (listing_in listing.0) listing_ok

listing_trusted : length (listing_in listing.0).trusted ≡ 1
unfolding Sessions.diagnose_list_record Lifecycle.ensure_record_container Identity.same_node
    Store.cstring Lifecycle.open_authorized_root Store.revalidate_record Host.RecordBinding-discrete
    Sessions.authority_from_record Store.capability_from_binding Store.read_record_capability
    Validate.authority_path_from_record Validate.session_id Validate.valid_publish_journal
    Validate.valid_fields Validate.valid_payload Validate.validate_record Validate.encode_record
    Validate.parse_record Names.valid_session_name Names.root_name Names.tombstone_name
    Names.record_name Names.session_record_name Names.valid_hash Names.valid_oid Hex.hex_digit
    Hex.decode_path Hex.decode_hex Modes.cleanup_mode_directory Effect.◌>>◌ Effect.lift Effect.pure
    Effect.map_error Effect.silent Effect.caught OptionBytes-discrete contains ends_with includes
    MListing.list_names
listing_trusted = refl
