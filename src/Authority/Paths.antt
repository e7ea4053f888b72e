-- ===== src/Authority/Paths.antt =====
-- The comparison of two paths, which Rust makes part by part: slashes in a row count once, a slash at
-- the end does not count, nor does a dot alone except where a relative path begins with it.
use git_vws.Base.{
  Bool, true, false, ◌&&◌, ◌||◌, List, [], ◌∷◌, if◌then◌else◌, ◌==◌, nat_Eq, string_Eq, bytes_Eq,
  option_bytes_Eq, option_nat_Eq, Bytes, codes, is_empty, starts_with, split,
}

-- The parts that count.
unfoldable pub kept : List Bytes → List Bytes
kept [] = []
kept (part ∷ parts) =
    let rest = kept parts in if is_empty part || part == codes "." then rest else part ∷ rest

unfoldable pub relative : List Bytes → List Bytes
unfolding kept
relative [] = []
relative (part ∷ parts) = if part == codes "." then part ∷ kept parts else kept (part ∷ parts)

-- The root is a part of its own.
unfoldable pub components : Bytes → List Bytes
unfolding kept relative
components path =
    if starts_with (codes "/") path
    then codes "/" ∷ kept (split b'/' path)
    else relative (split b'/' path)

unfoldable pub same_parts : List Bytes → List Bytes → Bool
same_parts [] [] = true
same_parts [] (b ∷ bs) = false
same_parts (a ∷ more) [] = false
same_parts (a ∷ more) (b ∷ bs) = a == b && same_parts more bs

unfoldable pub same_path : Bytes → Bytes → Bool
unfolding components same_parts
same_path left right = same_parts (components left) (components right)
