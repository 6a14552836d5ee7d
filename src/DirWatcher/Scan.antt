-- ===== src/DirWatcher/Scan.antt =====
-- The operations of DirWatcherGeneric that read directories: addChildren, createDirectory and
-- watch. They call one another as deep as the directories are nested, which `fuel` bounds: `none`
-- is a recursion deeper than the fuel. Each returns the events in the order of the calls of
-- `Watch->handleAction`.
pub mod Leaf
pub mod Returns
use efsw.Base.{
  ℕ, zero, suc, Bool, true, false, not, ◌&&◌, ◌||◌, List, [], ◌∷◌, ◌++◌, Text, text_eq,
  if◌then◌else◌, Option, none, some, ◌>>=◌,
}
use efsw.FileSystem.{
  dir_add_slash_at_end, dir_remove_slash_at_end, file_name_from_path, path_remove_file_name,
}
use efsw.FileInfo.{Os, FileInfo, file_info, is_directory, is_readable, get_link_real_path}
use efsw.FileActionBatch.{Action, Event, add, delete, modified, moved}
use efsw.Snapshot.{Snapshot, Diff, changed, scan}
use efsw.DirWatcher.{
  Tree, node, Children, leaf, child, Watch, path, find_child, insert, erase, handle_action, report,
  report_moved, children_in_watches, create, remove_directory, move_directory, key,
}

-- What an operation leaves, and the events that it reports.
abbrev pub Run : Type 0 → Type 0
Run A = Option (A × List Event)

abbrev pub get_or_empty : Option Text → Text
get_or_empty none = []
get_or_empty (some p) = p

-- Whether a path is watched, as seen from a node with this snapshot and these children.
unfoldable pub is_watched : Watch → Snapshot → Children → Text → Bool
is_watched w s cs p =
    w.watched p || (w.attached && (text_eq s.directory_info.filepath p || children_in_watches cs p))

-- The watch as the child `name` of this node sees it.
unfoldable pub child_watch : Watch → Snapshot → Children → Text → Watch
unfolding is_watched
child_watch w s cs name = record w { watched = λ p. is_watched w s (erase name cs) p }

-- The key under which addChildren adds a directory, if it does.
unfoldable pub child_key : Watch → Snapshot → Children → FileInfo → Option Text
unfolding is_watched
child_key w s cs file =
    let (link, cur_path) = get_link_real_path w.os file.filepath in
    let dir = file_name_from_path file.filepath in
    if is_directory file && (is_readable w.os file && not (w.os.is_remote file.filepath))
    then if not (text_eq [] link)
      then if not w.follow_symlinks
        then none
        else if is_watched w s cs link || not (w.link_allowed (get_or_empty cur_path) link)
        then none
        else some link
      else if is_watched w s cs dir
      then none
      else some dir
    else none

-- The loop of addChildren; `grow` is addChildren of a child.
unfoldable pub add_files :
    (Watch → Tree → Run Tree)
    → Watch
    → Bool
    → Bool
    → Snapshot
    → Children
    → List FileInfo
    → Run Children
unfolding child_watch child_key
add_files grow w report_new recursive s cs [] = some (cs, [])
add_files grow w report_new recursive s cs (file ∷ files) = elim (child_key w s cs file) [
  | none ↦ add_files grow w report_new recursive s cs files
  | some dir ↦ do
    let first = if report_new then handle_action w s add dir [] file ∷ [] else []
    let (t, created) = create w (some s.directory_info.filepath) dir recursive report_new
    (t', grown) ← grow (child_watch w s cs dir) t
    (cs', others) ← add_files grow w report_new recursive s (insert dir t' cs) files
    some (cs', first ++ created ++ grown ++ others)
]

unfoldable pub add_children : ℕ → Watch → Bool → Tree → Run Tree
unfolding add_files
add_children zero w report_new t = none
add_children (suc fuel) w report_new (node false s cs) = some (node false s cs, [])
add_children (suc fuel) w report_new (node true s cs) = do
  (cs', events) ← add_files (λ w t. add_children fuel w report_new t) w report_new true s cs s.files
  some (node true s cs', events)

-- What createDirectory finds: the path of the new directory and its information, unless it skips it.
unfoldable pub new_directory : Watch → Snapshot → Children → Text → Option (Text × FileInfo)
unfolding is_watched
new_directory w s cs name =
    let dir = dir_add_slash_at_end (dir_add_slash_at_end s.directory_info.filepath ++ name) in
    let fi = file_info w.os dir in
    let (link, cur_path) = get_link_real_path w.os dir in
    let refused = is_watched w s cs link || not (w.link_allowed (get_or_empty cur_path) link) in
    if not (is_directory fi) || (not (is_readable w.os fi) || w.os.is_remote dir)
    then none
    else if not (text_eq [] link)
    then if not w.follow_symlinks || refused then none else some (link, fi)
    else if is_watched w s cs dir
    then none
    else some (dir, fi)

-- `grow` is addChildren and then watch, of the new directory.
unfoldable pub create_directory :
    (Watch → Tree → Run Tree) → Watch → Bool → Snapshot → Children → Text → Run Children
unfolding new_directory
create_directory grow w recursive s cs newdir = elim (new_directory w s cs (key newdir)) [
  | none ↦ some (cs, [])
  | some (dir, fi) ↦ do
    let (t, created) = create w (some s.directory_info.filepath) dir recursive false
    (t', grown) ← grow (record w { watched = λ p. is_watched w s cs p; attached = false }) t
    some (insert (key newdir) t' cs, handle_action w s add (key newdir) [] fi ∷ created ++ grown)
]

unfoldable pub create_directories :
    (Watch → Tree → Run Tree) → Watch → Bool → Snapshot → Children → List FileInfo → Run Children
unfolding create_directory
create_directories grow w recursive s cs [] = some (cs, [])
create_directories grow w recursive s cs (f ∷ fs) = do
  (cs', created) ← create_directory grow w recursive s cs f.filepath
  (cs'', others) ← create_directories grow w recursive s cs' fs
  some (cs'', created ++ others)

unfoldable pub delete_directories :
    Watch → Snapshot → Children → List FileInfo → Children × List Event
delete_directories w s cs [] = (cs, [])
delete_directories w s cs (f ∷ fs) =
    let (cs', removed) = remove_directory w cs f.filepath in
    let (cs'', others) = delete_directories w s cs' fs in
    (cs'', handle_action w s delete f.filepath [] f ∷ removed ++ others)

unfoldable pub move_directories : Watch → Text → Children → List (Text × FileInfo) → Children
move_directories w parent cs [] = cs
move_directories w parent cs ((old, f) ∷ fs) =
    move_directories w parent (move_directory w parent cs old f.filepath) fs

-- The loop over the subdirectories: those `before` are done.
unfoldable pub watch_children :
    (Watch → Tree → Run Tree) → Watch → Snapshot → Children → Children → Run Children
unfolding child_watch
watch_children go w s all leaf = some (leaf, [])
watch_children go w s all (child name t cs) = do
  (t', events) ← go (child_watch w s all name) t
  (cs', others) ← watch_children go w s (insert name t' all) cs
  some (child name t' cs', events ++ others)

-- The change of the directory itself.
unfoldable pub report_own : Watch → Bool → Bool → Diff → Snapshot → List Event
report_own w has_parent report_own_change diff s =
    if report_own_change && (diff.dir_changed && has_parent)
    then record {
      watch = w.id;
      directory = path_remove_file_name s.directory_info.filepath;
      filename = file_name_from_path s.directory_info.filepath;
      action_type = modified;
      old_filename = [];
      info = s.directory_info;
    }
      ∷ []
    else []

unfoldable pub report_files : Watch → Diff → Snapshot → List Event
report_files w diff s =
    report w s add diff.files_created
    ++ report w s modified diff.files_modified
    ++ report w s delete diff.files_deleted
    ++ report_moved w s diff.files_moved

-- The changes that the diff names.
unfoldable pub apply_diff :
    (Watch → Tree → Run Tree) → Watch → Bool → Diff → Snapshot → Children → Run Children
unfolding create_directories delete_directories move_directories report_files
apply_diff grow w recursive diff s cs =
    if changed diff
    then (do
      (cs', created) ← create_directories grow w recursive s cs diff.dirs_created
      let (cs'', deleted) = delete_directories w s cs' diff.dirs_deleted
      let moved = move_directories w s.directory_info.filepath cs'' diff.dirs_moved
      some (
        moved,
        report_files w diff s
            ++ created
            ++ report w s modified diff.dirs_modified
            ++ deleted
            ++ report_moved w s diff.dirs_moved,
      ))
    else some (cs, [])

-- `has_parent` is `NULL != Parent`.
unfoldable pub watch : ℕ → Watch → Bool → Bool → Tree → Run Tree
unfolding apply_diff watch_children report_own add_children
watch zero w has_parent report_own_change t = none
watch (suc fuel) w has_parent report_own_change (node recursive s cs) = do
  let (diff, s') = scan w.os s
  let grow : Watch → Tree → Run Tree = λ w t. do
    (t', grown) ← add_children fuel w true t
    (t'', seen) ← watch fuel w true false t'
    some (t'', grown ++ seen)
  (cs', events) ← apply_diff grow w recursive diff s' cs
  (cs'', others) ← watch_children (λ w t. watch fuel w true false t) w s' cs' cs'
  some (
    node recursive s' cs'',
    report_own w has_parent report_own_change diff s' ++ events ++ others,
  )
