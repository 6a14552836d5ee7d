-- ===== src/Snapshot/Outcome.antt =====
-- What DirectorySnapshot::scan reports when it compares the files it knows with a new listing.
use mathlib.Core.List.{Perm}
use mathlib.Core.List.Perm
use efsw.Base.{
  ◌≡◌, refl, ap, ◌∙◌, subst, Bool, true, false, not, ◌&&◌, List, [], ◌++◌, append-nil, All, select,
}
use efsw.FileInfo.{FileInfo, is_directory}
use efsw.FileInfo.Sorting.{Sorted}
use efsw.Snapshot.{Scanning, scan_files, compare_files, cleared}
use efsw.Snapshot.Views.{
  has_kind, modified_of, deleted_of, moved_of, arrived_of, sources, names, is_listed, is_changed,
  missing_from, HasSource,
}
use efsw.Snapshot.Scan.{Agree}
use efsw.Snapshot.Compare.{
  Sorted-listed, scan_files-modified, scan_files-arrived, scan_files-gone, scan_files-HasSource,
}
use efsw.Snapshot.Deleted.{
  scan_files-deleted, scan_deleted-deleted, scan_deleted-OnlyDeletes, All-mem, select-split,
  OnlyDeletes,
}

-- Where the comparison starts, and the state after its first loop.
abbrev start : Bool → List FileInfo → Scanning
start dir_changed old = record { files = old; diff = cleared dir_changed }

abbrev after : Bool → List FileInfo → List FileInfo → Scanning
after dir_changed old current = scan_files current (start dir_changed old) current

module _ (dir_changed : Bool) (old current : List FileInfo) (so : Sorted old)
    (sc : Sorted current) where
  begin : Agree current old old
  begin = record { sorted = so; come = All-mem old; same_at = λ q h. refl }

  listed : All (λ f. is_listed current f ≡ true) current
  listed = Sorted-listed current sc

  rest_only :
      OnlyDeletes (after dir_changed old current).diff (compare_files dir_changed old current)
  unfolding compare_files
  rest_only = scan_deleted-OnlyDeletes current _ (after dir_changed old current).files

  -- For an old and a current list that are both sorted by path: the diff has as modified exactly
  -- the files of the current list whose path the old list has with other metadata, in the order of
  -- the current list, directories and other files apart.
  pub compare_files-modified :
      (dir : Bool)
      → modified_of dir (compare_files dir_changed old current)
        ≡ select (λ f. is_changed old f && has_kind dir f) current
  compare_files-modified dir =
      rest_only.modified dir
      ∙ scan_files-modified current old dir (start dir_changed old) current begin listed
      ∙ ap (λ m. m ++ select (λ f. is_changed old f && has_kind dir f) current) (start-modified dir)
    where
      start-modified : (dir : Bool) → modified_of dir (cleared dir_changed) ≡ []
      start-modified true = refl
      start-modified false = refl

  -- For an old and a current list that are both sorted by path: the files of the current list
  -- whose path the old list lacks are exactly, up to order, the created files and the destinations
  -- of the moves, directories and other files apart.
  pub compare_files-arrived :
      (dir : Bool)
      → Perm
          (arrived_of dir (compare_files dir_changed old current))
          (select (λ f. not (is_listed old f) && has_kind dir f) current)
  compare_files-arrived dir =
      rw (rest_only.created dir, rest_only.moved dir)
        (subst
          (λ m.
            Perm (arrived_of dir (after dir_changed old current).diff)
              (m ++ select (λ f. not (is_listed old f) && has_kind dir f) current))
          (start-arrived dir)
          (scan_files-arrived current old dir (start dir_changed old) current begin listed))
    where
      start-arrived : (dir : Bool) → arrived_of dir (cleared dir_changed) ≡ []
      start-arrived true = refl
      start-arrived false = refl

  left : List FileInfo
  left = (after dir_changed old current).files

  deleted :
      (dir : Bool)
      → deleted_of dir (compare_files dir_changed old current)
        ≡ select (λ f. not (is_listed current f) && has_kind dir f) left
  unfolding compare_files left
  deleted dir =
      scan_deleted-deleted current dir (after dir_changed old current).diff left
      ∙ ap (λ m. m ++ select (λ f. not (is_listed current f) && has_kind dir f) left)
          (scan_files-deleted current dir (start dir_changed old) current ∙ start-deleted dir)
    where
      start-deleted : (dir : Bool) → deleted_of dir (cleared dir_changed) ≡ []
      start-deleted true = refl
      start-deleted false = refl

  -- For an old and a current list that are both sorted by path: the names of the old files whose
  -- path is gone are exactly, up to order, those of the deleted files and directories and the old
  -- names in the moves.
  pub compare_files-gone : Perm (names (missing_from current old)) (
      names (
        deleted_of false (compare_files dir_changed old current)
        ++ deleted_of true (compare_files dir_changed old current))
      ++ sources (compare_files dir_changed old current))
  unfolding left
  compare_files-gone =
      rw (deleted false, deleted true, rest_only.moved false, rest_only.moved true)
        (subst
          (λ m. Perm m (
            names (
              select (λ f. not (is_listed current f) && has_kind false f) left
              ++ select (λ f. not (is_listed current f) && has_kind true f) left)
            ++ sources (after dir_changed old current).diff))
          (append-nil (names (missing_from current old)))
          (Perm.trans (scan_files-gone current old (start dir_changed old) current begin listed) (
            Perm.append
              (Perm.map _ (select-split (λ f. not (is_listed current f)) is_directory left))
              (Perm.refl (sources (after dir_changed old current).diff)))))

  -- For an old and a current list that are both sorted by path: every move in the diff has a
  -- source, an old file of that name whose path is gone and is not the destination's, with the
  -- inode and the metadata of the destination.
  pub compare_files-HasSource :
      (dir : Bool)
      → All (HasSource old current) (moved_of dir (compare_files dir_changed old current))
  compare_files-HasSource dir = rw (rest_only.moved dir) (
      scan_files-HasSource current old dir (start dir_changed old) current begin listed
        (start-moved dir))
    where
      start-moved : (dir : Bool) → All (HasSource old current) (moved_of dir (cleared dir_changed))
      start-moved true = tt
      start-moved false = tt
