-- ===== src/FileSystem.antt =====
-- Path functions of src/efsw/FileSystem.cpp, on POSIX, where the separator is '/'. A path is its
-- bytes; an argument passed by reference is returned.
pub mod Paths
pub mod Names
use efsw.Base.{
  ℕ, suc, ◌+◌, ◌-◌, Bool, not, ◌&&◌, [], ◌∷◌, ◌++◌, Text, length, get_or, take, drop, ltb, leb,
  ◌==◌, if◌then◌else◌, Option, none, some,
}

-- Platform::FileSystem::getOSSlash
abbrev pub os_slash : ℕ
os_slash = b'/'

-- dir[dir.size() - 1]
abbrev pub last_byte : Text → ℕ
last_byte dir = get_or dir (length dir - 1) 0

unfoldable pub slash_at_end : Text → Bool
slash_at_end dir = ltb 0 (length dir) && last_byte dir == os_slash

unfoldable pub dir_add_slash_at_end : Text → Text
dir_add_slash_at_end dir =
    if leb 1 (length dir) && not (last_byte dir == os_slash) then dir ++ os_slash ∷ [] else dir

unfoldable pub dir_remove_slash_at_end : Text → Text
dir_remove_slash_at_end dir =
    if leb 1 (length dir) && last_byte dir == os_slash then take (length dir - 1) dir else dir

-- std::string::find_last_of( char ); `none` is npos.
unfoldable pub find_last_of : ℕ → Text → Option ℕ
find_last_of c [] = none
find_last_of c (x ∷ xs) = elim (find_last_of c xs) [
  | some i ↦ some (suc i)
  | none ↦ if x == c then some 0 else none
]

unfoldable pub file_name_from_path : Text → Text
unfolding dir_remove_slash_at_end find_last_of
file_name_from_path filepath =
    let path = dir_remove_slash_at_end filepath in
    elim (find_last_of os_slash path) [ some pos ↦ drop (pos + 1) path | none ↦ path ]

unfoldable pub path_remove_file_name : Text → Text
unfolding dir_remove_slash_at_end find_last_of
path_remove_file_name filepath =
    let path = dir_remove_slash_at_end filepath in
    elim (find_last_of os_slash path) [ some pos ↦ take (pos + 1) path | none ↦ path ]
