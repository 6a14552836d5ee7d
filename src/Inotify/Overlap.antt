-- ===== src/Inotify/Overlap.antt =====
-- isDirectoryInside, directoryComparisonPath and getWatchConflict: which directories two watches of
-- a user may have.
pub mod Order
pub mod Conflict
use efsw.Base.{
  ℕ, Bool, true, false, not, ◌&&◌, ◌||◌, List, [], ◌∷◌, Text, text_eq, length, get_or, take, leb,
  ◌==◌, if◌then◌else◌,
}
use efsw.FileSystem.{os_slash, slash_at_end, dir_add_slash_at_end}
use efsw.FileInfo.{Os, file_info, is_directory}
use efsw.FileActionBatch.{get_real_path}
use efsw.FileWatcher.{Error, no_error, file_repeated, file_overlapping}
use efsw.Inotify.{WatcherInotify, State, object}

unfoldable pub is_directory_inside : Text → Text → Bool
unfolding slash_at_end
is_directory_inside child parent =
    if length parent == 0
    then false
    else if text_eq child parent
    then false
    else if leb (length child) (length parent)
    then false
    else if not (text_eq (take (length parent) child) parent)
    then false
    else slash_at_end parent || get_or child (length parent) 0 == os_slash

unfoldable pub directory_comparison_path : Os → Text → Text
unfolding get_real_path
directory_comparison_path os directory =
    let real_path = get_real_path os directory in
    dir_add_slash_at_end (
      if is_directory (file_info os directory) && not (length real_path == 0)
      then real_path
      else directory)

-- What the loop of getWatchConflict says of one watch; `no_error` is to go on.
unfoldable pub conflict_with : Text → Bool → Text → Bool → Error
unfolding is_directory_inside
conflict_with directory recursive existing existing_recursive =
    if text_eq existing directory
    then file_repeated
    else if existing_recursive && is_directory_inside directory existing
    then file_overlapping
    else if recursive && is_directory_inside existing directory
    then file_overlapping
    else no_error

module _ {K : Type 0} (os : Os) where
  unfoldable pub conflict_loop : State K → Text → Bool → List (ℕ × ℕ) → Error
  unfolding conflict_with directory_comparison_path
  conflict_loop s directory recursive [] = no_error
  conflict_loop s directory recursive ((wd, r) ∷ m) =
      let later = conflict_loop s directory recursive m in
      elim (conflict_with directory recursive (directory_comparison_path os (object s r).directory)
        (object s r).recursive) [ no_error ↦ later | e ↦ e ]

  unfoldable pub get_watch_conflict : State K → Text → Bool → Error
  unfolding conflict_loop directory_comparison_path
  get_watch_conflict s directory recursive =
      conflict_loop s (directory_comparison_path os directory) recursive s.real_watches
