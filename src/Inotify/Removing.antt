-- ===== src/Inotify/Removing.antt =====
-- removeWatchLocked and removeWatch.
pub mod Tree
use efsw.Base.{
  ℕ, zero, suc, length, Bool, true, false, not, ◌&&◌, ◌||◌, List, [], ◌∷◌, ◌++◌, Text, ◌==◌, get_or,
  if◌then◌else◌, Option, none, some, is_some,
}
use efsw.FileSystem.{dir_add_slash_at_end}
use efsw.Inotify.{
  WatcherInotify, Kernel, State, new_watcher, find_id, erase_id, find_dir, erase_dir, object,
  in_parent_tree,
}

module _ {K : Type 0} (kernel : Kernel K) where
  -- What removeWatchLocked does after its loop, for the object at `r`.
  unfoldable pub drop_watch : State K → ℕ → ℕ → Bool → State K
  unfolding erase_id erase_dir
  drop_watch s id r skip_inotify_remove =
      let watch = object s r in
      record s {
        watches_ref = erase_dir s.watches_ref watch.directory;
        watches = erase_id s.watches id;
        real_watches =
            (if is_some watch.parent
              then s.real_watches
              else erase_id s.real_watches watch.inotify_id);
        kernel = if skip_inotify_remove then s.kernel else kernel.rm_watch s.kernel id;
        deleted_watches = s.deleted_watches ++ r ∷ [];
      }

  -- The descriptors of the watches below `r`.
  unfoldable pub erase_watches : List WatcherInotify → ℕ → List (ℕ × ℕ) → List ℕ
  unfolding in_parent_tree
  erase_watches objects r [] = []
  erase_watches objects r ((wd, q) ∷ m) =
      let rest = erase_watches objects r m in
      if not (q == r) && in_parent_tree objects q r
      then (get_or objects q new_watcher).inotify_id ∷ rest
      else rest

  -- The loop over these descriptors, with its call of removeWatch.
  unfoldable pub remove_all : (State K → ℕ → State K) → State K → List ℕ → State K
  remove_all remove s [] = s
  remove_all remove s (id ∷ ids) = remove_all remove (remove s id) ids

  -- The loop of removeWatchLocked, for the object at `r`.
  unfoldable pub remove_below : (State K → ℕ → State K) → State K → ℕ → State K
  unfolding erase_watches remove_all
  remove_below remove s r =
      if (object s r).recursive && not (is_some (object s r).parent)
      then remove_all remove s (erase_watches s.objects r s.watches)
      else s

  unfoldable pub remove_found : (State K → ℕ → State K) → State K → ℕ → Bool → Option ℕ → State K
  unfolding remove_below drop_watch
  remove_found remove s id skip_inotify_remove none = s
  remove_found remove s id skip_inotify_remove (some r) =
      drop_watch (remove_below remove s r) id r skip_inotify_remove

  -- removeWatch in the loop, as deep as `depth`. A watch below another has a parent, so that its own
  -- removal has no loop; only in a table that holds another object under its descriptor could the
  -- calls go deeper.
  unfoldable pub remove_nested : ℕ → State K → ℕ → State K
  unfolding find_id remove_found
  remove_nested zero s id = s
  remove_nested (suc depth) s id =
      if s.init_ok then remove_found (remove_nested depth) s id false (find_id s.watches id) else s

  unfoldable pub remove_watch_locked : State K → ℕ → Bool → State K
  unfolding find_id remove_found remove_nested
  remove_watch_locked s id skip_inotify_remove =
      remove_found (remove_nested (suc (length s.watches))) s id skip_inotify_remove
        (find_id s.watches id)

  unfoldable pub remove_watch : State K → ℕ → State K
  unfolding remove_watch_locked
  remove_watch s id = if s.init_ok then remove_watch_locked s id false else s

  unfoldable pub remove_watch_directory : State K → Text → State K
  unfolding find_dir remove_watch_locked
  remove_watch_directory s directory =
      if s.init_ok
      then elim (find_dir s.watches_ref (dir_add_slash_at_end directory)) [
        | some id ↦ remove_watch_locked s id false
        | none ↦ s
      ]
      else s
