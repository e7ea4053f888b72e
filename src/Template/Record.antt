-- ===== src/Template/Record.antt =====
-- src/template.rs: `TemplateRecord`, its gate and its reading. `me` is `geteuid()`.
use git_vws.Authority.Identity.{Identity}
use git_vws.Storage.Receipts.{ManifestReceipt, SealedTreeReceipt, manifest_Eq, sealed_Eq}
use git_vws.Storage.Modes.{private_directory, sealed_directory}
use git_vws.Session.Names.{valid_hash}
use git_vws.Base.{
  ℕ, Bool, ◌&&◌, ◌||◌, not, Option, ◌++◌, ◌==◌, nat_Eq, string_Eq, bytes_Eq, option_bytes_Eq,
  option_nat_Eq, Bytes, codes, is_empty, contains, starts_with, ends_with, Result, ok, error, ◌>>=◌,
  ◌>>◌, guard, ok_or,
}

pub data TemplatePayload : Type 0 where
  prepared : (building_name : Bytes) → TemplatePayload
  materializing : (building_name : Bytes) (root_identity : Identity) → TemplatePayload
  publishing : (building_name ready_name : Bytes) (sealed : SealedTreeReceipt) → TemplatePayload
  ready : (root_name : Bytes) (sealed : SealedTreeReceipt) → TemplatePayload
  tombstoned : (root_name tombstone_name : Bytes) (sealed : SealedTreeReceipt) → TemplatePayload

pub record TemplateRecord : Type 0 where
  pub version : ℕ
  pub key : Bytes
  pub manifest : ManifestReceipt
  pub volume : Bytes
  pub payload : TemplatePayload

unfoldable pub root_name : Bytes → Bytes
root_name key = codes "template-" ++ (key ++ codes ".root")

unfoldable pub tombstone_name : Bytes → Bytes
tombstone_name key = codes "template-" ++ (key ++ codes ".tombstone")

-- `cstring(…).is_ok()`
unfoldable pub is_basename : Bytes → Bool
is_basename name =
    not (is_empty name || name == codes "." || name == codes ".." || contains b'/' name)
    && not (contains 0 name)

unfoldable pub valid_building_name : Bytes → Bytes → Bool
unfolding is_basename
valid_building_name name key =
    starts_with (codes "template-" ++ (key ++ codes ".")) name
    && ends_with (codes ".building") name
    && is_basename name

-- The tests that all stages with a sealed tree share.
unfoldable pub sealed_matches : ℕ → TemplateRecord → SealedTreeReceipt → Bool
sealed_matches me r sealed =
    sealed.manifest == r.manifest
    && sealed.volume == r.volume
    && sealed_directory me sealed.root
    && valid_hash sealed.content_digest

unfoldable pub valid_stage : ℕ → TemplateRecord → TemplatePayload → Bool
unfolding sealed_matches valid_building_name
valid_stage me r (prepared building) = r.version == 3 && valid_building_name building r.key
valid_stage me r (materializing building i) =
    r.version == 3 && valid_building_name building r.key && private_directory me i
valid_stage me r (publishing building ready_name sealed) =
    r.version == 3
    && valid_building_name building r.key
    && ready_name == root_name r.key
    && sealed_matches me r sealed
valid_stage me r (ready root sealed) =
    r.version == 3 && root == root_name r.key && sealed_matches me r sealed
valid_stage me r (tombstoned root tombstone sealed) =
    r.version == 4
    && root == root_name r.key
    && tombstone == tombstone_name r.key
    && sealed_matches me r sealed

unfoldable pub validate_record : ℕ → TemplateRecord → Result (Unit {0})
unfolding valid_stage
validate_record me r = do
  guard (valid_hash r.key && valid_hash r.manifest.digest && not (is_empty r.volume))
      (error "TEMPLATE_CORRUPT" "template record fields are invalid")
  guard (valid_stage me r r.payload)
      (error "TEMPLATE_CORRUPT" "template record stage bindings are invalid")

-- `parse_record`, where `to_json` is `encode_record` and `from_json` is `serde_json::from_slice`.
unfoldable pub parse_record :
    ℕ
    → (TemplateRecord → Result Bytes)
    → (Bytes → Option TemplateRecord)
    → Bytes
    → Result TemplateRecord
parse_record me to_json from_json bytes = do
  r ← ok_or (from_json bytes) (error "TEMPLATE_CORRUPT" "template record was not JSON")
  encoded ← to_json r
  guard (encoded == bytes) (error "TEMPLATE_CORRUPT" "template record was not canonical")
  validate_record me r
  ok r
