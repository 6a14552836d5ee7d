-- ===== src/DirWatcher/Find.antt =====
-- findDirWatcher, findDirWatcherFast and watchDir. A pointer to an object of the tree is its
-- address: the keys on the way to it from the root.
pub mod Paths
pub mod Keys
use efsw.Base.{
  ℕ, ◌-◌, Bool, true, false, List, [], ◌∷◌, Text, text_eq, length, drop, leb, ◌==◌, if◌then◌else◌,
  Option, none, some, ◌>>=◌,
}
use efsw.FileSystem.{os_slash}
use efsw.Strings.{split}
use efsw.FileActionBatch.{Event}
use efsw.DirWatcher.{Tree, node, Children, leaf, child, Watch, path, find_child, insert}
use efsw.DirWatcher.Scan.{Run, child_watch, watch}

unfoldable pub follow : Tree → List Text → Option Tree
unfolding find_child
follow t [] = some t
follow (node recursive s cs) (name ∷ names) = do t ← find_child cs name; follow t names

unfoldable mutual
  pub find_dir_watcher : Tree → Text → Option (List Text)
  find_dir_watcher (node recursive s cs) dir =
      let rest = find_in_children cs dir in
      if text_eq s.directory_info.filepath dir then some [] else rest

  pub find_in_children : Children → Text → Option (List Text)
  find_in_children leaf dir = none
  find_in_children (child name t cs) dir = elim (find_dir_watcher t dir) [
    | some names ↦ some (name ∷ names)
    | none ↦ find_in_children cs dir
  ]

-- What is left of `dir` when the common base is removed; the path of a watch is not empty.
unfoldable pub below_base : Text → Text → Text
below_base base dir = if leb (length base) (length dir) then drop (length base - 1) dir else dir

unfoldable pub find_dir_watcher_fast : Tree → Text → Option (List Text)
unfolding follow below_base
find_dir_watcher_fast t dir =
    let rest = below_base (path t) dir in
    let names = split rest os_slash false in
    if length rest == 1
    then some []
    else elim (follow t names) [ some _ ↦ some names | none ↦ none ]

-- A call of `watch( true )` on the object at an address.
unfoldable pub watch_at : ℕ → Watch → Bool → Tree → List Text → Run Tree
unfolding watch find_child child_watch
watch_at fuel w has_parent t [] = watch fuel w has_parent true t
watch_at fuel w has_parent (node recursive s cs) (name ∷ names) = do
  t ← find_child cs name
  (t', events) ← watch_at fuel (child_watch w s cs name) true t names
  some (node recursive s (insert name t' cs), events)

unfoldable pub watch_dir : ℕ → Watch → Bool → Tree → Text → Run Tree
unfolding watch_at find_dir_watcher find_dir_watcher_fast
watch_dir fuel w allow_out_of_scope_links t dir =
    elim (if allow_out_of_scope_links
      then find_dir_watcher t dir
      else find_dir_watcher_fast t dir) [
        | some names ↦ watch_at fuel w false t names
        | none ↦ some (t, [])
      ]
