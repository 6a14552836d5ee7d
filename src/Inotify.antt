-- ===== src/Inotify.antt =====
-- class FileWatcherInotify (src/efsw/FileWatcherInotify.cpp): the tables of the Linux back end. The
-- objects of class WatcherInotify are numbered in the order in which they are made, and a pointer
-- is such a number. A hash map is the list of its entries in the order in which a loop meets them;
-- the language leaves open where a new key comes, and here it comes first. The locks are
-- recursive and one thread runs at a time.
pub mod Overlap
pub mod Removing
pub mod Adding
pub mod Actions
pub mod Batch
mod Tests
use efsw.Base.{
  ℕ, zero, suc, ◌+◌, ◌^◌, ◌/◌, ◌%◌, ℤ, pos, Bool, true, false, not, ◌&&◌, ◌||◌, List, [], ◌∷◌, ◌++◌,
  Text, text_eq, ◌==◌, length, get_or, if◌then◌else◌, Option, none, some,
}
use efsw.FileSystem.{dir_add_slash_at_end, dir_remove_slash_at_end, path_remove_file_name}
use efsw.FileInfo.{FileInfo, blank}
use efsw.FileActionBatch.{Call, Action}
use efsw.FileWatcher.{Log}

-- class WatcherInotify and its base. `listener` is whether it has one.
pub record WatcherInotify : Type 0 where
  pub id : ℕ
  pub directory : Text
  pub listener : Bool
  pub recursive : Bool
  pub old_file_name : Text
  pub parent : Option ℕ
  pub inotify_id : ℕ
  pub dir_info : FileInfo
  pub synthetic_events : Bool
  pub report_cross_directory_moves : Bool

-- WatcherInotify::WatcherInotify()
abbrev pub new_watcher : WatcherInotify
new_watcher = record {
  id = 0;
  directory = [];
  listener = false;
  recursive = false;
  old_file_name = [];
  parent = none;
  inotify_id = 0;
  dir_info = blank;
  synthetic_events = false;
  report_cross_directory_moves = false;
}

-- A call of the listener: handleFileAction or handleMissedFileActions.
pub data Notice : Type 0 where
  action : Call → Notice
  missed : ℕ → Text → Notice

-- What `inotify_add_watch` returns: a descriptor, or an error number: ENOENT or another one, with
-- its text.
pub data Added : Type 0 where
  descriptor : ℕ → Added
  no_entry : Added
  failure : Text → Added

-- The kernel's side of inotify.
pub record Kernel (K : Type 0) : Type 0 where
  pub add_watch : K → Text → Added × K
  pub rm_watch : K → ℕ → K

pub record State (K : Type 0) : Type 0 where
  pub objects : List WatcherInotify
  pub watches : List (ℕ × ℕ)
  pub real_watches : List (ℕ × ℕ)
  pub watches_ref : List (Text × ℕ)
  pub deleted_watches : List ℕ
  pub init_ok : Bool
  pub log : Log
  pub kernel : K
  pub notices : List Notice

-- The operations of the hash maps: find, operator[] and erase.
unfoldable pub find_id : List (ℕ × ℕ) → ℕ → Option ℕ
find_id [] k = none
find_id ((k', v) ∷ m) k = let rest = find_id m k in if k' == k then some v else rest

unfoldable pub erase_id : List (ℕ × ℕ) → ℕ → List (ℕ × ℕ)
erase_id [] k = []
erase_id ((k', v) ∷ m) k = let rest = erase_id m k in if k' == k then rest else (k', v) ∷ rest

abbrev pub set_id : List (ℕ × ℕ) → ℕ → ℕ → List (ℕ × ℕ)
set_id m k v = (k, v) ∷ erase_id m k

unfoldable pub find_dir : List (Text × ℕ) → Text → Option ℕ
find_dir [] k = none
find_dir ((k', v) ∷ m) k = let rest = find_dir m k in if text_eq k' k then some v else rest

unfoldable pub erase_dir : List (Text × ℕ) → Text → List (Text × ℕ)
erase_dir [] k = []
erase_dir ((k', v) ∷ m) k =
    let rest = erase_dir m k in if text_eq k' k then rest else (k', v) ∷ rest

abbrev pub set_dir : List (Text × ℕ) → Text → ℕ → List (Text × ℕ)
set_dir m k v = (k, v) ∷ erase_dir m k

abbrev pub object : {K : Type 0} → State K → ℕ → WatcherInotify
object s r = get_or s.objects r new_watcher

unfoldable pub set_object : List WatcherInotify → ℕ → WatcherInotify → List WatcherInotify
set_object [] r w = []
set_object (x ∷ xs) zero w = w ∷ xs
set_object (x ∷ xs) (suc r) w = x ∷ set_object xs r w

-- The masks of the events: the bits of <sys/inotify.h>.
abbrev pub has_bit : ℕ → ℕ → Bool
has_bit mask bit = mask / 2 ^ bit % 2 == 1

abbrev pub in_modify : ℕ
in_modify = 1

abbrev pub in_close_write : ℕ
in_close_write = 3

abbrev pub in_moved_from : ℕ
in_moved_from = 6

abbrev pub in_moved_to : ℕ
in_moved_to = 7

abbrev pub in_create : ℕ
in_create = 8

abbrev pub in_delete : ℕ
in_delete = 9

abbrev pub in_q_overflow : ℕ
in_q_overflow = 14

-- WatcherInotify::inParentTree. A parent is made before its child, so that the number of the object
-- bounds the length of the loop.
in_parent_loop : ℕ → List WatcherInotify → Option ℕ → ℕ → Bool
in_parent_loop fuel objects none parent = false
in_parent_loop zero objects (some next) parent = next == parent
in_parent_loop (suc fuel) objects (some next) parent =
    let later = in_parent_loop fuel objects (get_or objects next new_watcher).parent parent in
    if next == parent then true else later

unfoldable pub in_parent_tree : List WatcherInotify → ℕ → ℕ → Bool
unfolding in_parent_loop
in_parent_tree objects r parent =
    in_parent_loop (length objects) objects (get_or objects r new_watcher).parent parent

abbrev parent_directory : Text → Text
parent_directory dir = dir_add_slash_at_end (path_remove_file_name (dir_remove_slash_at_end dir))

module _ {K : Type 0} where
  -- pathInWatches
  unfoldable pub path_in_watches : State K → List (ℕ × ℕ) → Text → Bool
  path_in_watches s [] path = false
  path_in_watches s ((wd, r) ∷ m) path =
      text_eq (object s r).directory path || path_in_watches s m path

  -- directories
  unfoldable pub directories : State K → List (ℕ × ℕ) → List Text
  directories s [] = []
  directories s ((wd, r) ∷ m) = (object s r).directory ∷ directories s m

  unfoldable pub first_at : State K → List (ℕ × ℕ) → Text → Option ℕ
  first_at s [] path = none
  first_at s ((wd, r) ∷ m) path =
      let rest = first_at s m path in if text_eq (object s r).directory path then some r else rest

  -- The first watch of a directory, in the order of the map.
  abbrev pub watch_at : State K → Text → Option ℕ
  watch_at s path = first_at s s.watches path

  unfoldable pub watcher_contains_directory : State K → Text → Option ℕ
  unfolding first_at
  watcher_contains_directory s dir = first_at s s.watches (parent_directory dir)
