-- ===== src/Snapshot/Tests.antt =====
-- The theorems about DirectorySnapshot at concrete listings: `a` changes, `b` is renamed to `c`.
use mathlib.Core.List.{Perm}
use efsw.Base.{
  ◌≡◌, refl, Bool, false, not, ◌&&◌, List, [], ◌∷◌, ◌++◌, Text, text_eq, text_lt, codes,
  if◌then◌else◌, none, some, ℕ, All, select,
}
use efsw.FileSystem.{slash_at_end}
use efsw.FileInfo.{Os, FileInfo, blank, file_info, stat_path, restored_path}
use efsw.FileInfo.Sorting.{Sorted}
use efsw.Snapshot.{Snapshot, find_file, compare_files, move_file}
use efsw.Snapshot.Edit.{move_file_lem}
use efsw.Snapshot.Outcome.{
  compare_files-modified, compare_files-arrived, compare_files-gone, compare_files-HasSource,
}
use efsw.Snapshot.Views.{
  has_kind, modified_of, deleted_of, moved_of, arrived_of, sources, names, is_listed, is_changed,
  missing_from, HasSource,
}

abbrev regular : Text → ℕ → ℕ → FileInfo
regular path node time = record blank {
  filepath = path;
  inode = node;
  device = 7;
  modification_time = time;
  permissions = 33188;
}

abbrev old : List FileInfo
old = regular (codes "d/a") 1 10 ∷ regular (codes "d/b") 2 20 ∷ regular (codes "d/x") 5 20 ∷ []

abbrev current : List FileInfo
current = regular (codes "d/a") 1 11 ∷ regular (codes "d/c") 2 20 ∷ []

old-Sorted : Sorted old
unfolding text_lt
old-Sorted = ((refl, (refl, tt)), ((refl, tt), (tt, tt)))

current-Sorted : Sorted current
unfolding text_lt
current-Sorted = ((refl, tt), (tt, tt))

compare_files-arrived_example :
    Perm
      (arrived_of false (compare_files false old current))
      (select (λ f. not (is_listed old f) && has_kind false f) current)
compare_files-arrived_example =
    compare_files-arrived false old current old-Sorted current-Sorted false

compare_files-modified_example :
    modified_of false (compare_files false old current)
    ≡ select (λ f. is_changed old f && has_kind false f) current
compare_files-modified_example =
    compare_files-modified false old current old-Sorted current-Sorted false

compare_files-gone_example : Perm (names (missing_from current old)) (
    names (
      deleted_of false (compare_files false old current)
      ++ deleted_of Bool.true (compare_files false old current))
    ++ sources (compare_files false old current))
compare_files-gone_example = compare_files-gone false old current old-Sorted current-Sorted

compare_files-HasSource_example :
    All (HasSource old current) (moved_of false (compare_files false old current))
compare_files-HasSource_example =
    compare_files-HasSource false old current old-Sorted current-Sorted false

abbrev empty_os : Os
empty_os = record {
  stat = λ path. none;
  lstat = λ path. none;
  names = λ path. none;
  realpath = λ path. none;
  unresolved = λ path. [];
  is_remote = λ path. false;
  is_root = false;
  uninitialised = 3;
}

abbrev snapshot : Snapshot
snapshot = record { directory_info = blank; files = old }

c_path : restored_path (codes "d/c") ≡ codes "d/c"
unfolding restored_path stat_path slash_at_end
c_path = refl

move_file_lem_example :
    (find_file (move_file empty_os snapshot (codes "d/b") (codes "d/c")).files (codes "d/x") ≡ (
      if text_eq (codes "d/c") (codes "d/x")
      then some (file_info empty_os (codes "d/c"))
      else if text_eq (codes "d/b") (codes "d/x")
      then none
      else find_file snapshot.files (codes "d/x")))
    × Sorted (move_file empty_os snapshot (codes "d/b") (codes "d/c")).files
move_file_lem_example =
    move_file_lem empty_os snapshot (codes "d/b") (codes "d/c") (codes "d/x") old-Sorted c_path
