-- ===== src/Snapshot.antt =====
-- class DirectorySnapshotDiff and class DirectorySnapshot (src/efsw/DirectorySnapshotDiff.cpp,
-- DirectorySnapshot.cpp). An iterator into `Files` is the pair of the files before it and the
-- files from it on.
pub mod Lookup
pub mod Edit
pub mod Step
pub mod Views
pub mod Report
pub mod Scan
pub mod Compare
pub mod Deleted
pub mod Outcome
mod Tests
use efsw.Base.{
  Bool, true, false, not, ◌&&◌, ◌||◌, List, [], ◌∷◌, ◌++◌, Text, text_eq, text_lt, if◌then◌else◌,
  Option, none, some,
}
use efsw.FileSystem.{dir_add_slash_at_end, file_name_from_path}
use efsw.FileInfo.{
  Os, FileInfo, file_info, info_eq, same_inode, is_directory, is_regular_file, exists,
}
use efsw.FileInfo.Listing.{files_info_from_path}

pub record Diff : Type 0 where
  pub files_deleted : List FileInfo
  pub files_created : List FileInfo
  pub files_modified : List FileInfo
  pub files_moved : List (Text × FileInfo)
  pub dirs_deleted : List FileInfo
  pub dirs_created : List FileInfo
  pub dirs_modified : List FileInfo
  pub dirs_moved : List (Text × FileInfo)
  pub dir_changed : Bool

abbrev pub cleared : Bool → Diff
cleared dir_changed = record {
  files_deleted = [];
  files_created = [];
  files_modified = [];
  files_moved = [];
  dirs_deleted = [];
  dirs_created = [];
  dirs_modified = [];
  dirs_moved = [];
  dir_changed = dir_changed;
}

abbrev pub empty {ℓ} : {A : Type ℓ} → List A → Bool
empty [] = true
empty (x ∷ xs) = false

unfoldable pub changed : Diff → Bool
changed d =
    not (empty d.files_created)
    || (not (empty d.files_modified)
        || (not (empty d.files_moved)
            || (not (empty d.files_deleted)
                || (not (empty d.dirs_created)
                    || (not (empty d.dirs_modified)
                        || (not (empty d.dirs_moved) || not (empty d.dirs_deleted)))))))

pub record Snapshot : Type 0 where
  pub directory_info : FileInfo
  pub files : List FileInfo

-- lowerBoundFile: the first file whose path is not less.
unfoldable pub lower_bound : List FileInfo → Text → List FileInfo × List FileInfo
lower_bound [] path = ([], [])
lower_bound (f ∷ fs) path =
    let (before, from) = lower_bound fs path in
    if text_lt f.filepath path then (f ∷ before, from) else ([], f ∷ fs)

-- The file at an iterator, if its path is the one that was looked for.
abbrev pub at_path : Text → List FileInfo → Option FileInfo
at_path path [] = none
at_path path (f ∷ from) = if text_eq f.filepath path then some f else none

-- findFile; `none` is the end.
unfoldable pub find_file : List FileInfo → Text → Option FileInfo
unfolding lower_bound
find_file files path = at_path path (lower_bound files path).1

unfoldable pub remove_unsupported_files : List FileInfo → List FileInfo
remove_unsupported_files [] = []
remove_unsupported_files (f ∷ fs) =
    let rest = remove_unsupported_files fs in
    if not (is_regular_file f) && not (is_directory f) then rest else f ∷ rest

unfoldable pub delete_all : Diff → List FileInfo → Diff
delete_all d [] = d
delete_all d (f ∷ fs) =
    delete_all
      (if is_directory f
        then record d { dirs_deleted = d.dirs_deleted ++ f ∷ [] }
        else record d { files_deleted = d.files_deleted ++ f ∷ [] })
      fs

unfoldable pub rename_all : Text → List FileInfo → List FileInfo
rename_all dir [] = []
rename_all dir (f ∷ fs) =
    record f { filepath = dir ++ file_name_from_path f.filepath } ∷ rename_all dir fs

unfoldable pub set_directory_info : Os → Snapshot → Text → Snapshot
unfolding rename_all
set_directory_info os s directory = record {
  directory_info = file_info os directory;
  files = rename_all (dir_add_slash_at_end directory) s.files;
}

unfoldable pub init_files : Os → Snapshot → Snapshot
unfolding remove_unsupported_files
init_files os s = record s {
  files = remove_unsupported_files (files_info_from_path os s.directory_info.filepath);
}

unfoldable pub init : Os → Snapshot → Text → Snapshot
unfolding set_directory_info init_files
init os s directory = init_files os (set_directory_info os s directory)

unfoldable pub directory_exists : Os → Snapshot → Bool
directory_exists os s = (exists os s.directory_info).0

-- Whether a file is gone from the current listing and is the source of a move to `fi`.
unfoldable pub is_source : FileInfo → List FileInfo → FileInfo → Bool
unfolding find_file
is_source fi current old =
    (elim (find_file current old.filepath) [ none ↦ true | some _ ↦ false ])
    && (same_inode old fi && (info_eq old fi && not (text_eq old.filepath fi.filepath)))

-- nodeInFiles, with the files that are left when the file that it finds is erased.
unfoldable pub node_in_files :
    List FileInfo → FileInfo → List FileInfo → Option (FileInfo × List FileInfo)
unfolding is_source
node_in_files [] fi current = none
node_in_files (f ∷ fs) fi current =
    let later = node_in_files fs fi current in
    if is_source fi current f
    then some (f, fs)
    else (elim later [ none ↦ none | some (g, rest) ↦ some (g, f ∷ rest) ])

-- What the loops of `scan` change: `Files` and the diff.
pub record Scanning : Type 0 where
  pub files : List FileInfo
  pub diff : Diff

-- The body of the loop over the current listing.
unfoldable pub scan_file : List FileInfo → Scanning → FileInfo → Scanning
unfolding find_file node_in_files
scan_file current s file = elim (find_file s.files file.filepath) [
  | some old ↦
      if info_eq old file
      then s
      else if is_directory file
      then record s { diff = record d { dirs_modified = d.dirs_modified ++ file ∷ [] } }
      else record s { diff = record d { files_modified = d.files_modified ++ file ∷ [] } }
  | none ↦ elim (node_in_files s.files file current) [
    | some (old, rest) ↦
        (let old_file = file_name_from_path old.filepath in
          if is_directory file
          then record {
            files = rest;
            diff = record d { dirs_moved = d.dirs_moved ++ (old_file, file) ∷ [] };
          }
          else record {
            files = rest;
            diff = record d { files_moved = d.files_moved ++ (old_file, file) ∷ [] };
          })
    | none ↦
        if is_directory file
        then record s { diff = record d { dirs_created = d.dirs_created ++ file ∷ [] } }
        else record s { diff = record d { files_created = d.files_created ++ file ∷ [] } }
  ]
]
  where
    d : Diff
    d = s.diff

unfoldable pub scan_files : List FileInfo → Scanning → List FileInfo → Scanning
unfolding scan_file
scan_files current s [] = s
scan_files current s (f ∷ fs) = scan_files current (scan_file current s f) fs

-- The loop that finds what is missing from the current listing.
unfoldable pub scan_deleted : List FileInfo → Diff → List FileInfo → Diff
unfolding find_file
scan_deleted current d [] = d
scan_deleted current d (f ∷ fs) =
    scan_deleted current
      (elim (find_file current f.filepath) [
        | some _ ↦ d
        | none ↦
            if is_directory f
            then record d { dirs_deleted = d.dirs_deleted ++ f ∷ [] }
            else record d { files_deleted = d.files_deleted ++ f ∷ [] }
      ])
      fs

-- The comparison of `Files` with a new listing.
unfoldable pub compare_files : Bool → List FileInfo → List FileInfo → Diff
unfolding scan_files scan_deleted
compare_files dir_changed old current =
    let s = scan_files current (record { files = old; diff = cleared dir_changed }) current in
    scan_deleted current s.diff s.files

unfoldable pub scan : Os → Snapshot → Diff × Snapshot
unfolding delete_all remove_unsupported_files compare_files
scan os s =
    let cur = file_info os s.directory_info.filepath in
    let dir_changed = not (info_eq s.directory_info cur) in
    let info = if dir_changed then cur else s.directory_info in
    let current = remove_unsupported_files (files_info_from_path os info.filepath) in
    if not (exists os cur).0
    then (delete_all (cleared dir_changed) s.files, record { directory_info = info; files = [] })
    else if empty current && empty s.files
    then (cleared dir_changed, record { directory_info = info; files = s.files })
    else (
      compare_files dir_changed s.files current,
      record { directory_info = info; files = current },
    )

-- Overwrites the file with this path, or inserts it at its place.
abbrev pub put_at : Text → FileInfo → List FileInfo × List FileInfo → List FileInfo
put_at path file (before, []) = before ++ file ∷ []
put_at path file (before, f ∷ from) =
    if text_eq f.filepath path then before ++ file ∷ from else before ++ file ∷ f ∷ from

unfoldable pub add_file : Os → Snapshot → Text → Snapshot
unfolding lower_bound
add_file os s path = record s { files = put_at path (file_info os path) (lower_bound s.files path) }

abbrev pub erase_at : Text → List FileInfo × List FileInfo → List FileInfo
erase_at path (before, []) = before
erase_at path (before, f ∷ from) =
    if text_eq f.filepath path then before ++ from else before ++ f ∷ from

unfoldable pub remove_file : Snapshot → Text → Snapshot
unfolding lower_bound
remove_file s path = record s { files = erase_at path (lower_bound s.files path) }

unfoldable pub move_file : Os → Snapshot → Text → Text → Snapshot
unfolding add_file remove_file
move_file os s old_path new_path = add_file os (remove_file s old_path) new_path

unfoldable pub update_file : Os → Snapshot → Text → Snapshot
unfolding add_file
update_file os s path = add_file os s path
