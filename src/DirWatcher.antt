-- ===== src/DirWatcher.antt =====
-- class DirWatcherGeneric (src/efsw/DirWatcherGeneric.cpp): the tree of the directories that a
-- polling watch follows. `Directories` is a list in the order of the map; the children of a node
-- are owned by it, so `Parent` is an argument: the path of the parent, if there is one. The object
-- of a directory that `createDirectory` reads is not yet in the tree, which `attached` records.
pub mod Find
pub mod Gone
pub mod Rooted
pub mod Scan
mod Tests
use efsw.Base.{
  ℕ, zero, suc, ◌-◌, ltb, ◌==◌, ℤ, Bool, true, false, not, ◌&&◌, ◌||◌, List, [], ◌∷◌, ◌++◌, Text,
  text_eq, text_lt, length, get_or, if◌then◌else◌, Option, none, some,
}
use efsw.FileSystem.{
  os_slash, slash_at_end, last_byte, dir_add_slash_at_end, dir_remove_slash_at_end,
  file_name_from_path, path_remove_file_name,
}
use efsw.FileInfo.{Os, FileInfo, blank}
use efsw.FileActionBatch.{Action, Event, add, delete, modified, moved}
use efsw.Snapshot.{Snapshot, Diff, changed, scan, directory_exists, set_directory_info}

mutual
  -- Recursive, DirSnap and Directories.
  pub data Tree : Type 0 where
    node : Bool → Snapshot → Children → Tree

  pub data Children : Type 0 where
    leaf : Children
    child : Text → Tree → Children → Children

-- What the tree uses of its WatcherGeneric and of the FileWatcher. `watched` is the answer of
-- `WatcherImpl->pathInWatches( path ) || Watch->pathInWatches( path )` as far as it does not
-- depend on the part of the tree that an operation works on.
pub record Watch : Type 0 where
  pub id : ℤ
  pub directory : Text
  pub os : Os
  pub follow_symlinks : Bool
  pub link_allowed : Text → Text → Bool
  pub watched : Text → Bool
  pub attached : Bool

abbrev pub snapshot : Tree → Snapshot
snapshot (node recursive s cs) = s

abbrev pub children : Tree → Children
children (node recursive s cs) = cs

-- DirSnap.DirectoryInfo.Filepath
abbrev pub path : Tree → Text
path t = (snapshot t).directory_info.filepath

-- The operations of the map: find, operator[] and erase.
unfoldable pub find_child : Children → Text → Option Tree
find_child leaf name = none
find_child (child n t cs) name =
    let rest = find_child cs name in if text_eq n name then some t else rest

unfoldable pub insert : Text → Tree → Children → Children
insert name t leaf = child name t leaf
insert name t (child n u cs) =
    let rest = insert name t cs in
    if text_lt name n
    then child name t (child n u cs)
    else if text_eq n name
    then child n t cs
    else child n u rest

unfoldable pub erase : Text → Children → Children
erase name leaf = leaf
erase name (child n t cs) =
    let rest = erase name cs in if text_eq n name then cs else child n t rest

unfoldable pub handle_action : Watch → Snapshot → Action → Text → Text → FileInfo → Event
handle_action w s action filename old_filename info = record {
  watch = w.id;
  directory = s.directory_info.filepath;
  filename = file_name_from_path filename;
  action_type = action;
  old_filename = old_filename;
  info = info;
}

-- DiffIterator with a call of handleAction.
unfoldable pub report : Watch → Snapshot → Action → List FileInfo → List Event
unfolding handle_action
report w s action [] = []
report w s action (f ∷ fs) = handle_action w s action f.filepath [] f ∷ report w s action fs

-- DiffMovedIterator
unfoldable pub report_moved : Watch → Snapshot → List (Text × FileInfo) → List Event
unfolding handle_action
report_moved w s [] = []
report_moved w s ((old, f) ∷ fs) = handle_action w s moved f.filepath old f ∷ report_moved w s fs

-- The path that resetDirectory takes.
unfoldable pub reset_path : Text → Option Text → Text → Text
unfolding slash_at_end
reset_path watch_directory parent directory =
    if text_eq watch_directory directory
    then directory
    else if ltb 0 (length directory)
        && (get_or directory 0 0 == os_slash || last_byte directory == os_slash)
    then directory
    else (elim parent [
      | some p ↦ dir_add_slash_at_end p ++ dir_add_slash_at_end directory
      | none ↦ directory
    ])

unfoldable mutual
  unfolding reset_path

  pub reset_directory : Watch → Option Text → Tree → Text → Tree
  reset_directory w parent (node recursive s cs) directory =
      let s' = set_directory_info w.os s (reset_path w.directory parent directory) in
      node recursive s' (reset_children w s'.directory_info.filepath cs)

  pub reset_children : Watch → Text → Children → Children
  reset_children w parent leaf = leaf
  reset_children w parent (child name t cs) =
      child name (reset_directory w (some parent) t name) (reset_children w parent cs)

unfoldable mutual
  pub path_in_watches : Tree → Text → Bool
  path_in_watches (node recursive s cs) p =
      text_eq s.directory_info.filepath p || children_in_watches cs p

  pub children_in_watches : Children → Text → Bool
  children_in_watches leaf p = false
  children_in_watches (child name t cs) p = path_in_watches t p || children_in_watches cs p

-- The destructor, with the events that it reports.
unfoldable pub report_gone : Watch → Bool → Snapshot → List Event
unfolding report
report_gone w deleted s =
    if deleted
    then (let (diff, s') = scan w.os s in
        if not (directory_exists w.os s')
        then report w s' delete diff.files_deleted ++ report w s' delete diff.dirs_deleted
        else [])
    else []

unfoldable mutual
  unfolding report_gone

  pub destroy : Watch → Bool → Tree → List Event
  destroy w deleted (node recursive s cs) = report_gone w deleted s ++ destroy_children w deleted cs

  pub destroy_children : Watch → Bool → Children → List Event
  destroy_children w deleted leaf = []
  destroy_children w deleted (child name t cs) =
      destroy w deleted t ++ destroy_children w deleted cs

-- The constructor, with the events that it reports.
unfoldable pub create : Watch → Option Text → Text → Bool → Bool → Tree × List Event
unfolding reset_path report
create w parent directory recursive report_new_files =
    let s =
      set_directory_info w.os (record { directory_info = blank; files = [] })
        (reset_path w.directory parent directory) in
    let (diff, s') = scan w.os s in
    (
      node recursive s' leaf,
      if report_new_files && changed diff then report w s' add diff.files_created else [],
    )

-- The key of a directory that a caller names by a path.
abbrev pub key : Text → Text
key dir = file_name_from_path (dir_remove_slash_at_end dir)

unfoldable pub remove_directory : Watch → Children → Text → Children × List Event
unfolding find_child erase destroy
remove_directory w cs dir = elim (find_child cs (key dir)) [
  | some t ↦ (erase (key dir) cs, destroy w true t)
  | none ↦ (cs, [])
]

-- `parent` is the path of the node whose children these are.
unfoldable pub move_directory : Watch → Text → Children → Text → Text → Children
unfolding find_child insert erase reset_directory
move_directory w parent cs old_dir new_dir = elim (find_child cs (key old_dir)) [
  | some t ↦
      insert (key new_dir) (reset_directory w (some parent) t (key new_dir))
        (erase (key old_dir) cs)
  | none ↦ cs
]
