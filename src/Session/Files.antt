-- ===== src/Session/Files.antt =====
-- src/session.rs: the small operations on open directories. A descriptor is a number that the
-- operating system gave out; its calls are parameters.
use Prim.Native.String.{◌++◌ as text_append}
use git_vws.Authority.Identity.{Identity, identity_Eq, regular}
use git_vws.Storage.Modes.{private_directory}
use git_vws.Effect.{M, ◌>>=◌, ◌>>◌, lift, silent, pure}
use git_vws.Session.Store.{cstring}
use git_vws.Session.Validate.{max_record}
use git_vws.Base.{
  ℕ, ◌+◌, String, true, false, ◌&&◌, not, List, [], ◌∷◌, ◌++◌, leb, ◌==◌, nat_Eq, string_Eq,
  bytes_Eq, option_bytes_Eq, option_nat_Eq, length, Bytes, codes, contains, Error, Result, error,
  guard,
}

pub record Files (W : Type 0) : Type 0 where
  -- the descriptor of the session container
  pub container : ℕ
  -- `storage::open_directory_at` and `openat` of a file for reading
  pub open_directory_at : ℕ → Bytes → W → Result ℕ × W
  pub open_regular : ℕ → Bytes → W → Result ℕ × W
  -- `storage::identity_at` and `Identity::from_file`
  pub identity_at : ℕ → Bytes → W → Result Identity × W
  pub identity_of : ℕ → W → Result Identity × W
  -- `fs::symlink_metadata` as an identity
  pub identity_of_path : Bytes → W → Result Identity × W
  -- `storage::directory_names`
  pub directory_names : ℕ → W → Result (List Bytes) × W
  -- `storage::volume_id`
  pub volume_id : ℕ → W → Result Bytes × W
  -- reading, no more bytes than asked for
  pub read_at_most : ℕ → ℕ → W → Result Bytes × W
  -- `mkdirat`, `fchmod`, `unlinkat` of a directory, `sync_all`
  pub make_directory : ℕ → Bytes → ℕ → W → Result (Unit {0}) × W
  pub change_mode : ℕ → ℕ → W → Result (Unit {0}) × W
  pub unlink_directory : ℕ → Bytes → W → Result (Unit {0}) × W
  pub sync_all : ℕ → W → Result (Unit {0}) × W
  -- the file `alternates`, made in a directory with this content and synced
  pub write_new_file : ℕ → Bytes → Bytes → W → Result (Unit {0}) × W

abbrev io_failed : String → String → Error
io_failed label what = error "SESSION_IO_FAILED" (text_append label what)

module _ {W Event : Type 0} (me : ℕ) (f : Files W) where
  unfoldable pub create_directory : ℕ → Bytes → ℕ → String → M W Event ℕ
  create_directory parent name mode label = do
    lift (cstring name)
    silent (f.make_directory parent name mode)
    directory ← silent (f.open_directory_at parent name)
    silent (f.change_mode directory mode)
    i ← silent (f.identity_of directory)
    lift (guard (private_directory me i) (io_failed label " has an invalid identity"))
    pure directory

  unfoldable pub remove_empty_directory : ℕ → Bytes → Identity → String → M W Event (Unit {0})
  remove_empty_directory parent name expected label = do
    lift (cstring name)
    entry ← silent (f.identity_at parent name)
    lift (
        guard (entry == expected && private_directory me entry)
          (io_failed label " identity changed before cleanup"))
    directory ← silent (f.open_directory_at parent name)
    i ← silent (f.identity_of directory)
    lift (guard (i == expected) (io_failed label " is no longer an owned empty directory"))
    names ← silent (f.directory_names directory)
    lift (
        guard (elim names [ [] ↦ true | ◌∷◌ n ns ↦ false ])
          (io_failed label " is no longer an owned empty directory"))
    silent (f.unlink_directory parent name)
    silent (f.sync_all parent)

  unfoldable pub bind_path : Bytes → ℕ → String → M W Event (Unit {0})
  bind_path path descriptor label = do
    entry ← silent (f.identity_of_path path)
    i ← silent (f.identity_of descriptor)
    lift (guard (entry == i) (io_failed label " path does not match its descriptor"))

  unfoldable pub read_regular_at : ℕ → Bytes → String → M W Event Bytes
  read_regular_at parent name label = do
    before ← silent (f.identity_at parent name)
    lift (
        guard (regular before && before.uid == me && before.nlink == 1)
          (error "SESSION_CORRUPT" (text_append label " is not an owned regular file")))
    file ← silent (f.open_regular parent name)
    opened ← silent (f.identity_of file)
    lift (
        guard (opened == before)
          (error "SESSION_CORRUPT" (text_append label " changed while opening")))
    bytes ← silent (f.read_at_most file (max_record + 1))
    lift (
        guard (leb (length bytes) max_record)
          (error "SESSION_CORRUPT" (text_append label " exceeds its receipt limit")))
    after ← silent (f.identity_of file)
    lift (
        guard (after == before)
          (error "SESSION_CORRUPT" (text_append label " changed while reading")))
    entry ← silent (f.identity_at parent name)
    lift (
        guard (entry == before)
          (error "SESSION_CORRUPT" (text_append label " changed while reading")))
    pure bytes

  -- `write_alternate`
  unfoldable pub write_alternate : ℕ → Bytes → M W Event (Unit {0})
  write_alternate common authority_objects = do
    lift (
        guard (not (contains 10 authority_objects) && not (contains 13 authority_objects)) (
          error "SESSION_IO_FAILED"
            "authority object path cannot be encoded as one alternate entry"))
    objects ← silent (f.open_directory_at common (codes "objects"))
    info ← silent (f.open_directory_at objects (codes "info"))
    silent (f.write_new_file info (codes "alternates") (authority_objects ++ (10 ∷ [])))
    silent (f.sync_all info)
