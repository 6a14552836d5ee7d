-- ===== src/FileInfo/Listing.antt =====
-- Directory listings: Platform::FileSystem::filesInfoFromPath
-- (src/efsw/platform/posix/FileSystemImpl.cpp) and FileSystem::filesInfoFromPath, which sorts it.
use efsw.Base.{
  Bool, ◌||◌, List, [], ◌∷◌, ◌++◌, Text, codes, text_eq, text_lt, if◌then◌else◌, none, some,
}
use efsw.FileSystem.{dir_add_slash_at_end}
use efsw.FileInfo.{Os, FileInfo, file_info}

-- The entries "." and "..".
unfoldable pub is_dots : Text → Bool
is_dots name = text_eq name (codes "..") || text_eq name (codes ".")

unfoldable pub entries : Os → Text → List Text → List FileInfo
unfolding is_dots
entries os path [] = []
entries os path (name ∷ names) =
    let rest = entries os path names in
    if is_dots name then rest else file_info os (path ++ name) ∷ rest

unfoldable pub platform_files_info_from_path : Os → Text → List FileInfo
unfolding entries
platform_files_info_from_path os path = elim (os.names path) [
  | none ↦ []
  | some names ↦ entries os path names
]

-- std::sort by Filepath.
unfoldable pub insert_by_path : FileInfo → List FileInfo → List FileInfo
insert_by_path f [] = f ∷ []
insert_by_path f (g ∷ gs) =
    let rest = insert_by_path f gs in if text_lt g.filepath f.filepath then g ∷ rest else f ∷ g ∷ gs

unfoldable pub sort_by_path : List FileInfo → List FileInfo
unfolding insert_by_path
sort_by_path [] = []
sort_by_path (f ∷ fs) = insert_by_path f (sort_by_path fs)

unfoldable pub files_info_from_path : Os → Text → List FileInfo
unfolding platform_files_info_from_path sort_by_path
files_info_from_path os path =
    sort_by_path (platform_files_info_from_path os (dir_add_slash_at_end path))
