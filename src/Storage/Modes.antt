-- ===== src/Storage/Modes.antt =====
-- src/storage.rs: what the program demands of a directory or a file before it trusts, clones,
-- publishes or removes it. `me` is `geteuid()`; the variants are those of Linux.
use git_vws.Authority.Identity.{Identity, directory, regular, same_node}
use git_vws.Base.{
  ℕ, ◌/◌, ◌%◌, Bool, ◌&&◌, ◌||◌, not, map, leb, if◌then◌else◌, ◌==◌, nat_Eq, string_Eq, bytes_Eq,
  option_bytes_Eq, length, all, Bytes, codes, is_empty, is_hex, to_lower, contains,
}

abbrev pub supported_directory_nlink : ℕ → Bool
supported_directory_nlink nlink = leb 2 nlink

abbrev pub empty_directory_nlink : ℕ → Bool
empty_directory_nlink nlink = nlink == 2

abbrev pub valid_digest : Bytes → Bool
valid_digest value = length value == 64 && all is_hex value

unfoldable pub session_mode : ℕ → ℕ
session_mode source_mode = if source_mode == 0o555 then 0o755 else 0o644

unfoldable pub stable_directory_node : Identity → Identity → Bool
unfolding same_node
stable_directory_node current expected =
    directory current && directory expected && same_node current expected

module _ (me : ℕ) where
  unfoldable pub private_directory : Identity → Bool
  private_directory i =
      directory i && i.uid == me && i.mode == 0o700 && supported_directory_nlink i.nlink

  unfoldable pub sealed_directory : Identity → Bool
  sealed_directory i =
      directory i && i.uid == me && i.mode == 0o555 && supported_directory_nlink i.nlink

  unfoldable pub publishing_directory : Identity → Bool
  unfolding sealed_directory
  publishing_directory i = sealed_directory i

  unfoldable pub publishing_binding : Identity → Identity → Bool
  unfolding publishing_directory same_node
  publishing_binding current expected =
      let adjusted = record expected { mode = current.mode } in
      publishing_directory current && same_node current adjusted

  unfoldable pub sealed_regular : Identity → Bool
  sealed_regular i =
      regular i && i.uid == me && i.nlink == 1 && (i.mode == 0o444 || i.mode == 0o555)

  unfoldable pub worktree_directory : Identity → Bool
  worktree_directory i =
      directory i && i.uid == me && i.mode == 0o755 && supported_directory_nlink i.nlink

  unfoldable pub clone_destination_directory : Identity → Bool
  clone_destination_directory i =
      directory i
      && i.uid == me
      && (i.mode == 0o700 || i.mode == 0o755)
      && supported_directory_nlink i.nlink

  unfoldable pub owned_tree_binding : Identity → Identity → Bool
  owned_tree_binding current expected =
      directory current
      && directory expected
      && current.uid == me
      && current.dev == expected.dev
      && current.ino == expected.ino
      && current.uid == expected.uid

  unfoldable pub owned_regular : Identity → Bool
  owned_regular i = regular i && i.uid == me

  unfoldable pub owned_cleanup_regular : Identity → Bool
  unfolding owned_regular
  owned_cleanup_regular i = owned_regular i && i.nlink == 1

  -- `mode & 0o022 == 0`: neither the group's nor the others' write bit.
  unfoldable pub empty_owned_directory_binding : Identity → Identity → Bool
  empty_owned_directory_binding current expected =
      directory current
      && directory expected
      && supported_directory_nlink expected.nlink
      && current.dev == expected.dev
      && current.ino == expected.ino
      && current.uid == expected.uid
      && current.uid == me
      && current.mode == expected.mode
      && current.kind == expected.kind
      && (current.mode / 0o20 % 2 == 0 && current.mode / 0o2 % 2 == 0)
      && empty_directory_nlink current.nlink

  unfoldable pub cleanup_mode_directory : Identity → Bool
  unfolding sealed_directory private_directory
  cleanup_mode_directory i = sealed_directory i || private_directory i

-- `validate_basename`
unfoldable pub valid_basename : Bytes → Bool
valid_basename bytes = not (
    is_empty bytes
    || bytes == codes "."
    || bytes == codes ".."
    || contains b'/' bytes
    || map to_lower bytes == codes ".git")
