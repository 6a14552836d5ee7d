-- ===== src/Inotify/Actions.antt =====
-- handleAction, and what the loop of `run` calls for a move: checkForNewWatcher, emitMovedOutside
-- and emitCrossDirectoryMove. `fuel` is that of addWatch.
pub mod Outcome
pub mod Renames
use efsw.Base.{
  ℕ, ◌^◌, ◌==◌, ℤ, pos, Bool, true, false, not, ◌&&◌, ◌||◌, List, [], ◌∷◌, ◌++◌, reverse, Text,
  text_eq, text_lt, length, get_or, drop, if◌then◌else◌, Option, none, some, is_some, ◌>>=◌,
}
use efsw.FileSystem.{os_slash, dir_add_slash_at_end, file_name_from_path}
use efsw.Strings.{str_starts_with, not_found}
use efsw.Agent.{int_eq}
use efsw.FileInfo.{Os, FileInfo, file_info, is_directory_path}
use efsw.FileActionBatch.{Call, Action, add, delete, modified, moved}
use efsw.FileWatcher.{Settings}
use efsw.Inotify.{
  WatcherInotify, new_watcher, Kernel, State, Notice, action, missed, object, set_object, has_bit,
  in_modify, in_close_write, in_moved_from, in_moved_to, in_create, in_delete, in_q_overflow,
  watch_at, watcher_contains_directory,
}
use efsw.Inotify.Adding.{Wanted, add_watch}
use efsw.Inotify.Removing.{remove_watch_locked}

abbrev pub starts_with : Text → Text → Bool
starts_with start str = not (int_eq not_found (str_starts_with start str))

abbrev pub is_empty : Text → Bool
is_empty t = length t == 0

abbrev pub notice : WatcherInotify → Text → Action → Text → Notice
notice watch filename action_type old_filename = action (record {
  watch = pos watch.id;
  directory = watch.directory;
  filename = filename;
  action = action_type;
  old_filename = old_filename;
})

abbrev pub tell : {K : Type 0} → State K → List Notice → State K
tell s notices = record s { notices = s.notices ++ notices }

abbrev pub set_old_file_name : {K : Type 0} → State K → ℕ → Text → State K
set_old_file_name s r name = record s {
  objects = set_object s.objects r (record (object s r) { old_file_name = name });
}

-- The new path of a watch when a directory has moved.
unfoldable pub rename_watch : Os → Text → Text → WatcherInotify → WatcherInotify
rename_watch os opath fpath w =
    let directory = fpath ++ drop (length opath) w.directory in
    if text_eq w.directory opath
    then record w { directory = fpath; dir_info = file_info os fpath }
    else if starts_with opath w.directory
    then record w { directory = directory; dir_info = record w.dir_info { filepath = directory } }
    else w

-- The loop over mWatches.
unfoldable pub rename_watches :
    Os → Text → Text → List WatcherInotify → List (ℕ × ℕ) → List WatcherInotify
unfolding rename_watch set_object
rename_watches os opath fpath objects [] = objects
rename_watches os opath fpath objects ((wd, r) ∷ m) =
    rename_watches os opath fpath
      (set_object objects r (rename_watch os opath fpath (get_or objects r new_watcher))) m

-- The old path of a directory that has moved to this watch.
unfoldable pub old_path : WatcherInotify → Text
old_path watch = dir_add_slash_at_end (
    if is_empty watch.old_file_name || not (get_or watch.old_file_name 0 0 == os_slash)
    then watch.directory ++ watch.old_file_name
    else watch.old_file_name)

module _ {K : Type 0} (kernel : Kernel K) (os : Os) (settings : Settings) where
  unfoldable pub check_for_new_watcher : ℕ → State K → ℕ → Text → Option (State K)
  unfolding add_watch
  check_for_new_watcher fuel s r fpath =
      let watch = object s r in
      let dir = dir_add_slash_at_end fpath in
      if watch.recursive && (is_directory_path os dir && not (is_some (watch_at s dir)))
      then (do
        (id, s') ←
            add_watch kernel os settings fuel s dir
              (record {
                listener = watch.listener;
                recursive = watch.recursive;
                synthetic_events = watch.synthetic_events;
                report_cross_directory_moves = watch.report_cross_directory_moves;
              })
              (some r) true
        some s')
      else some s

  -- The branch for IN_MOVED_TO.
  unfoldable pub handle_moved_to : ℕ → State K → ℕ → Text → Option (State K)
  unfolding check_for_new_watcher rename_watches old_path
  handle_moved_to fuel s r filename =
      let watch = object s r in
      let fpath = watch.directory ++ filename in
      if is_empty watch.old_file_name
      then (do
        s' ← check_for_new_watcher fuel s r fpath
        some (
            set_old_file_name
              (tell s' (notice watch filename add [] ∷ notice watch filename modified [] ∷ [])) r
              []))
      else (let told : State K = tell s (notice watch filename moved watch.old_file_name ∷ []) in
          some (
            set_old_file_name
              (if watch.recursive && is_directory_path os fpath
                then record told {
                  objects =
                      rename_watches os (old_path watch) (dir_add_slash_at_end fpath) told.objects
                        told.watches;
                }
                else told)
              r []))

  -- The branch for IN_DELETE.
  unfoldable pub handle_delete : State K → ℕ → Text → State K
  unfolding remove_watch_locked
  handle_delete s r filename =
      let watch = object s r in
      let told : State K = tell s (notice watch filename delete [] ∷ []) in
      if watch.recursive
      then elim (watch_at told (dir_add_slash_at_end (watch.directory ++ filename))) [
        | some q ↦ remove_watch_locked kernel told (object told q).inotify_id false
        | none ↦ told
      ]
      else told

  unfoldable pub handle_action : ℕ → State K → ℕ → Text → ℕ → Option (State K)
  unfolding handle_moved_to handle_delete check_for_new_watcher
  handle_action fuel s r filename mask =
      let watch = object s r in
      if not watch.listener || not s.init_ok
      then some s
      else if has_bit mask in_q_overflow
      then some (tell s (missed watch.id watch.directory ∷ []))
      else if has_bit mask in_close_write || has_bit mask in_modify
      then some (tell s (notice watch filename modified [] ∷ []))
      else if has_bit mask in_moved_to
      then handle_moved_to fuel s r filename
      else if has_bit mask in_create
      then (do
        s' ← check_for_new_watcher fuel s r (watch.directory ++ filename)
        some (tell s' (notice watch filename add [] ∷ [])))
      else if has_bit mask in_moved_from
      then some (set_old_file_name s r filename)
      else if has_bit mask in_delete
      then some (handle_delete s r filename)
      else some s

  -- The watches below a directory that has moved away.
  unfoldable pub watches_below : State K → ℕ → Text → List (ℕ × ℕ) → List ℕ
  watches_below s r path [] = []
  watches_below s r path ((wd, q) ∷ m) =
      let rest = watches_below s r path m in
      if not (q == r) && starts_with path (object s q).directory then q ∷ rest else rest

  -- std::stable_sort by Directory.
  unfoldable pub insert_watch : State K → ℕ → List ℕ → List ℕ
  insert_watch s q [] = q ∷ []
  insert_watch s q (p ∷ ps) =
      let rest = insert_watch s q ps in
      if text_lt (object s p).directory (object s q).directory then p ∷ rest else q ∷ p ∷ ps

  unfoldable pub sort_watches : State K → List ℕ → List ℕ
  unfolding insert_watch
  sort_watches s [] = []
  sort_watches s (q ∷ qs) = insert_watch s q (sort_watches s qs)

  unfoldable pub delete_below : ℕ → State K → List ℕ → Option (State K)
  unfolding handle_action watcher_contains_directory
  delete_below fuel s [] = some s
  delete_below fuel s (q ∷ qs) =
      let dir = (object s q).directory in
      elim (watcher_contains_directory s dir) [
        | some containing ↦ do
          s' ← handle_action fuel s containing (file_name_from_path dir) (2 ^ in_delete)
          delete_below fuel s' qs
        | none ↦ delete_below fuel s qs
      ]

  unfoldable pub emit_moved_outside : ℕ → State K → ℕ → Text → Option (State K)
  unfolding handle_action watches_below sort_watches delete_below
  emit_moved_outside fuel s r old_file_name =
      let s' : State K = set_old_file_name s r [] in
      let path = (object s r).directory ++ (old_file_name ++ os_slash ∷ []) in
      elim (sort_watches s' (watches_below s' r path s'.watches)) [
        | [] ↦ handle_action fuel s' r old_file_name (2 ^ in_delete)
        | q ∷ qs ↦ delete_below fuel s' (reverse (q ∷ qs))
      ]

  unfoldable pub emit_cross_directory_move : ℕ → State K → ℕ → Text → ℕ → Text → Option (State K)
  unfolding handle_action
  emit_cross_directory_move fuel s src src_file dst dst_file = do
    let kept = (object s dst).old_file_name
    s' ←
        handle_action fuel (set_old_file_name s dst ((object s src).directory ++ src_file)) dst
          dst_file (2 ^ in_moved_to)
    some (set_old_file_name s' dst kept)
