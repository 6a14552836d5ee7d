-- ===== src/Snapshot/Views.antt =====
-- What a diff says, for files (`false`) and for directories (`true`), and what it should say of an
-- old list of files and a current one.
use efsw.Base.{
  Bool, true, false, text_eq, not, List, ◌++◌, Text, none, some, map, select, is_some, ◌≡◌, Mem,
}
use efsw.FileSystem.{file_name_from_path}
use efsw.FileInfo.{FileInfo, info_eq, is_directory, same_inode}
use efsw.Snapshot.{Diff, find_file}

abbrev pub has_kind : Bool → FileInfo → Bool
has_kind true f = is_directory f
has_kind false f = not (is_directory f)

abbrev pub modified_of : Bool → Diff → List FileInfo
modified_of true d = d.dirs_modified
modified_of false d = d.files_modified

abbrev pub deleted_of : Bool → Diff → List FileInfo
deleted_of true d = d.dirs_deleted
deleted_of false d = d.files_deleted

abbrev pub created_of : Bool → Diff → List FileInfo
created_of true d = d.dirs_created
created_of false d = d.files_created

abbrev pub moved_of : Bool → Diff → List (Text × FileInfo)
moved_of true d = d.dirs_moved
moved_of false d = d.files_moved

-- The files that the diff reports as created, or as the destination of a move.
abbrev pub arrived_of : Bool → Diff → List FileInfo
arrived_of dir d = created_of dir d ++ map (λ m. m.1) (moved_of dir d)

-- The old names in the moves that the diff reports.
abbrev pub sources : Diff → List Text
sources d = map (λ m. m.0) d.files_moved ++ map (λ m. m.0) d.dirs_moved

abbrev pub names : List FileInfo → List Text
names = map (λ f. file_name_from_path f.filepath)

abbrev pub is_listed : List FileInfo → FileInfo → Bool
is_listed fs f = is_some (find_file fs f.filepath)

-- The path was there, with other metadata.
abbrev pub is_changed : List FileInfo → FileInfo → Bool
is_changed old f = elim (find_file old f.filepath) [ some g ↦ not (info_eq g f) | none ↦ false ]

-- The files of a list whose paths another list lacks.
abbrev pub missing_from : List FileInfo → List FileInfo → List FileInfo
missing_from fs = select (λ f. not (is_listed fs f))

-- A move that the diff reports has a source: an old file of that name, whose path is gone from the
-- current list and is not the destination's, with the destination's inode and metadata.
abbrev pub HasSource : List FileInfo → List FileInfo → Text × FileInfo → Type 0
HasSource old current (name, f) =
    (g : FileInfo) × Mem g old
    × (name ≡ file_name_from_path g.filepath)
    × (find_file current g.filepath ≡ none)
    × (same_inode g f ≡ true)
    × (info_eq g f ≡ true)
    × (text_eq g.filepath f.filepath ≡ false)
