-- ===== src/DirWatcher/Scan/Leaf.antt =====
-- A round of `watch` on a directory without watched subdirectories.
use efsw.Base.{
  ◌≡◌, refl, inl, inr, ℕ, suc, Bool, List, [], ◌∷◌, ◌++◌, Text, if◌then◌else◌, Bool-cases, some,
}
use efsw.FileInfo.{FileInfo}
use efsw.FileActionBatch.{Event, add, delete, modified}
use efsw.Snapshot.{Snapshot, Diff, changed, scan}
use efsw.DirWatcher.{
  Tree, node, leaf, Watch, report, report_moved, find_child, remove_directory, move_directory,
}
use efsw.DirWatcher.Scan.{
  Run, create_directories, delete_directories, move_directories, report_own, report_files,
  apply_diff, watch_children, watch,
}

delete_directories-leaf :
    (w : Watch) (s : Snapshot) (fs : List FileInfo)
    → delete_directories w s leaf fs ≡ (leaf, report w s delete fs)
unfolding delete_directories remove_directory find_child report
delete_directories-leaf w s [] = refl
delete_directories-leaf w s (f ∷ fs) = rw (delete_directories-leaf w s fs) refl

move_directories-leaf :
    (w : Watch) (parent : Text) (moves : List (Text × FileInfo))
    → move_directories w parent leaf moves ≡ leaf
unfolding move_directories move_directory find_child
move_directories-leaf w parent [] = refl
move_directories-leaf w parent ((old, f) ∷ moves) = move_directories-leaf w parent moves

-- What a diff reports, in the order of the code: the files that are created, modified, deleted and
-- moved, and then the directories that are modified, deleted and moved.
abbrev pub in_order : Watch → Diff → Snapshot → List Event
in_order w diff s =
    (report w s add diff.files_created
      ++ report w s modified diff.files_modified
      ++ report w s delete diff.files_deleted
      ++ report_moved w s diff.files_moved)
    ++ []
    ++ report w s modified diff.dirs_modified
    ++ report w s delete diff.dirs_deleted
    ++ report_moved w s diff.dirs_moved

apply_diff-leaf :
    (grow : Watch → Tree → Run Tree) (w : Watch) (recursive : Bool) (diff : Diff) (s : Snapshot)
    → diff.dirs_created ≡ []
    → apply_diff grow w recursive diff s leaf
      ≡ some (leaf, if changed diff then in_order w diff s else [])
unfolding apply_diff create_directories report_files
apply_diff-leaf grow w recursive diff s e = elim (Bool-cases (changed diff)) [
  | inl h ↦
      rw
        (
          h,
          e,
          delete_directories-leaf w s diff.dirs_deleted,
          move_directories-leaf w s.directory_info.filepath diff.dirs_moved,
        )
        refl
  | inr h ↦ rw h refl
]

-- A round of a directory without watched subdirectories in which no directory appears succeeds on
-- any fuel, takes the new snapshot, and reports its own change, where that is asked for, and then,
-- if the scan finds a change, what the scan finds, in the order of the code.
pub watch-leaf :
    (fuel : ℕ) (w : Watch) (has_parent own recursive : Bool) (s : Snapshot)
    → (scan w.os s).0.dirs_created ≡ []
    → let (diff, s') = scan w.os s in
      watch (suc fuel) w has_parent own (node recursive s leaf)
      ≡ some (
        node recursive s' leaf,
        report_own w has_parent own diff s'
            ++ (if changed diff then in_order w diff s' else [])
            ++ [],
      )
unfolding watch watch_children
watch-leaf fuel w has_parent own recursive s e =
    rw (apply_diff-leaf _ w recursive (scan w.os s).0 (scan w.os s).1 e) refl
