-- ===== src/Authority/Identity.antt =====
-- src/authority.rs: `Identity`, what one `stat` call says of a file, and `Authority`.
-- The type masks are those of Linux.
use git_vws.Authority.Paths.{same_path}
use git_vws.Base.{
  ℕ, ◌*◌, ◌/◌, ◌%◌, ◌≡◌, Bool, true, ◌&&◌, ◌==◌, nat_Eq, bytes_Eq, Eq, discrete_Eq, ℕ_discrete,
  Bytes, leb, arith,
}

-- The fields of `libc::stat` that the program reads.
pub record Stat : Type 0 where
  pub st_dev : ℕ
  pub st_ino : ℕ
  pub st_uid : ℕ
  pub st_mode : ℕ
  pub st_nlink : ℕ

pub record Identity : Type 0 where
  pub dev : ℕ
  pub ino : ℕ
  pub uid : ℕ
  pub mode : ℕ
  pub kind : ℕ
  pub nlink : ℕ

unfoldable pub Identity-discrete : Discrete Identity
unfolding ℕ_discrete
Identity-discrete = hlevel ℕ_discrete

instance abbrev pub identity_Eq : Eq Identity
identity_Eq = discrete_Eq Identity-discrete

abbrev pub directory_type : ℕ
directory_type = 0o040000

abbrev pub regular_type : ℕ
regular_type = 0o100000

abbrev pub symlink_type : ℕ
symlink_type = 0o120000

-- `mode & 0o7777` keeps the low twelve bits and `mode & S_IFMT` the four above them.
unfoldable pub from_stat : Stat → Identity
from_stat s = record {
  dev = s.st_dev;
  ino = s.st_ino;
  uid = s.st_uid;
  mode = s.st_mode % 0o10000;
  kind = s.st_mode / 0o10000 % 0o20 * 0o10000;
  nlink = s.st_nlink;
}

abbrev pub directory : Identity → Bool
directory i = i.kind == directory_type

abbrev pub regular : Identity → Bool
regular i = i.kind == regular_type

-- Everything but the link count.
unfoldable pub same_node : Identity → Identity → Bool
same_node a b =
    a.dev == b.dev && a.ino == b.ino && a.uid == b.uid && a.mode == b.mode && a.kind == b.kind

pub same_node_refl : (a : Identity) → same_node a a ≡ true
unfolding same_node
same_node_refl a = ground arith

pub record Authority : Type 0 where
  pub canonical : Bytes
  pub identity : Identity
  pub object_format : Bytes
  pub ref_format : Bytes

unfoldable pub matches : Authority → Authority → Bool
unfolding same_node
matches a b =
    same_path a.canonical b.canonical
    && same_node a.identity b.identity
    && a.object_format == b.object_format
    && a.ref_format == b.ref_format

module _ (me : ℕ) where
  -- `valid_state_root` and `valid_state_container`, which are alike.
  unfoldable pub valid_state_root : Identity → Bool
  valid_state_root i = directory i && i.uid == me && i.mode == 0o700 && leb 2 i.nlink

  unfoldable pub valid_state_container : Identity → Bool
  valid_state_container i = directory i && i.uid == me && i.mode == 0o700 && leb 2 i.nlink

  -- `mode & 0o077 == 0`
  unfoldable pub safe_new_root : Identity → Bool
  safe_new_root i = directory i && i.uid == me && i.mode % 0o100 == 0 && leb 2 i.nlink

  unfoldable pub valid_record : Identity → Bool
  valid_record i = regular i && i.uid == me && i.mode == 0o600 && i.nlink == 1

  unfoldable pub valid_private_record : Identity → Bool
  valid_private_record i = regular i && i.uid == me && i.mode % 0o100 == 0 && i.nlink == 1
