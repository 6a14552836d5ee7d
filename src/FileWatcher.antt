-- ===== src/FileWatcher.antt =====
-- The last error (src/efsw/Log.cpp), the base of the back ends (FileWatcherImpl.cpp), the generic
-- back end's list of watches (WatcherGeneric.cpp, FileWatcherGeneric.cpp) and the front end
-- (FileWatcher.cpp). What DirWatcherGeneric does is the interface `Directories`.
pub mod Links
pub mod Ids
pub mod Adding
mod Tests
use efsw.Base.{
  ℕ, suc, ◌==◌, ℤ, pos, negsuc, Bool, true, false, not, ◌&&◌, ◌||◌, List, [], ◌∷◌, ◌++◌, Text,
  text_eq, codes, if◌then◌else◌, none, some,
}
use efsw.FileSystem.{dir_add_slash_at_end}
use efsw.FileInfo.{Os, file_info, is_directory, is_readable, get_link_real_path}
use efsw.Strings.{str_starts_with}
use efsw.Agent.{int_eq}

-- Errors::Error
pub data Error : Type 0 where
  no_error file_not_found file_repeated file_out_of_scope file_not_readable file_remote : Error
  watcher_failed unspecified file_overlapping : Error

abbrev pub error_code : Error → ℤ
error_code no_error = pos 0
error_code file_not_found = negsuc 0
error_code file_repeated = negsuc 1
error_code file_out_of_scope = negsuc 2
error_code file_not_readable = negsuc 3
error_code file_remote = negsuc 4
error_code watcher_failed = negsuc 5
error_code unspecified = negsuc 6
error_code file_overlapping = negsuc 7

abbrev pub is_negative : ℤ → Bool
is_negative (pos n) = false
is_negative (negsuc n) = true

pub record Log : Type 0 where
  pub last_error : Text
  pub last_error_code : Error

unfoldable pub clear_last_error : Log → Log
clear_last_error log = record { last_error = []; last_error_code = no_error }

abbrev pub error_text : Error → Text → Text
error_text file_not_found log = codes "File not found ( " ++ (log ++ codes " )")
error_text file_repeated log = codes "File repeated in watches ( " ++ (log ++ codes " )")
error_text file_overlapping log =
    codes "Watch overlaps an existing recursive watch ( " ++ (log ++ codes " )")
error_text file_out_of_scope log = codes "Symlink file out of scope ( " ++ (log ++ codes " )")
error_text file_remote log =
    codes "File is located in a remote file system, use a generic watcher. ( "
    ++ (log ++ codes " )")
error_text watcher_failed log = codes "File system watcher failed ( " ++ (log ++ codes " )")
error_text _ log = log

-- createLastError, which sets the text and not the code.
unfoldable pub create_last_error : Log → Error → Text → ℤ × Log
create_last_error state err log = (error_code err, record state { last_error = error_text err log })

-- FileWatcherImpl::linkAllowed, from the settings of the FileWatcher.
unfoldable pub link_allowed : Bool → Bool → Text → Text → Bool
link_allowed follow_symlinks out_of_scope cur_path link =
    (follow_symlinks && out_of_scope) || not (int_eq (negsuc 0) (str_starts_with cur_path link))

-- getOptionValue: the value of the first option with this code.
unfoldable pub get_option_value : List (ℕ × ℤ) → ℕ → ℤ → ℤ
get_option_value [] option default_value = default_value
get_option_value ((o, v) ∷ options) option default_value =
    if o == option then v else get_option_value options option default_value

-- What the list of watches uses of DirWatcherGeneric: the tree for a directory (with its id,
-- whether it is recursive and whether it reports moves between directories), whether a path is in
-- it, and one scan.
pub record Directories (D : Type 0) : Type 0 where
  pub create : ℕ → Text → Bool → Bool → D
  pub path_in_watches : D → Text → Bool
  pub watch : D → D

pub record WatcherGeneric (D : Type 0) : Type 0 where
  pub id : ℕ
  pub directory : Text
  pub recursive : Bool
  pub dir_watch : D

pub record FileWatcherGeneric (D : Type 0) : Type 0 where
  pub last_watch_id : ℕ
  pub watches : List (WatcherGeneric D)
  pub log : Log

-- The settings of the FileWatcher.
pub record Settings : Type 0 where
  pub follow_symlinks : Bool
  pub out_of_scope : Bool

-- FileWatcher::addWatch, from what it uses of its back end: whether that is the generic one, its
-- addWatch, and how it keeps an error.
unfoldable pub impl_add_watch :
    {R : Type 0}
    → Bool
    → Os
    → (Text → Bool → List (ℕ × ℤ) → R)
    → (Error → Text → R)
    → Text
    → Bool
    → List (ℕ × ℤ)
    → R
impl_add_watch is_generic os add_watch create_error directory recursive options =
    if is_generic || not (os.is_remote directory)
    then add_watch directory recursive options
    else create_error file_remote directory

-- Options::ReportCrossDirectoryMoves: its value is a parameter.
module _ {D : Type 0} (directories : Directories D) (report_moves_option : ℕ) where
  unfoldable pub path_in_watches : List (WatcherGeneric D) → Text → Bool
  path_in_watches [] path = false
  path_in_watches (w ∷ ws) path =
      text_eq w.directory path
      || (directories.path_in_watches w.dir_watch path || path_in_watches ws path)

  -- An error: the code is returned and the text is kept.
  unfoldable pub fail : FileWatcherGeneric D → Error → Text → ℤ × FileWatcherGeneric D
  unfolding create_last_error
  fail s err dir =
      let (code, log) = create_last_error s.log err dir in (code, record s { log = log })

  -- The end of addWatch: the new watch with the next id.
  unfoldable pub push_watch :
      FileWatcherGeneric D → Text → Bool → List (ℕ × ℤ) → ℤ × FileWatcherGeneric D
  unfolding get_option_value
  push_watch s dir recursive options =
      let id = suc s.last_watch_id in
      let report_moves =
        not (int_eq (get_option_value options report_moves_option (pos 0)) (pos 0)) in
      let w : WatcherGeneric D = record {
        id = id;
        directory = dir_add_slash_at_end dir;
        recursive = recursive;
        dir_watch = directories.create id dir recursive report_moves;
      } in
      (pos id, record s { last_watch_id = id; watches = s.watches ++ w ∷ [] })

  -- The part of addWatch after the directory's own checks: the link, if it is one.
  unfoldable pub add_linked :
      Settings
      → FileWatcherGeneric D
      → Text
      → Text
      → Text
      → Bool
      → List (ℕ × ℤ)
      → ℤ × FileWatcherGeneric D
  unfolding path_in_watches fail push_watch link_allowed
  add_linked settings s dir link cur_path recursive options =
      if text_eq [] link
      then push_watch s dir recursive options
      else if path_in_watches s.watches link
      then fail s file_repeated dir
      else if not (link_allowed settings.follow_symlinks settings.out_of_scope cur_path link)
      then fail s file_out_of_scope dir
      else push_watch s link recursive options

  unfoldable pub add_watch :
      Os → Settings → FileWatcherGeneric D → Text → Bool → List (ℕ × ℤ) → ℤ × FileWatcherGeneric D
  unfolding add_linked
  add_watch os settings s directory recursive options =
      let dir = dir_add_slash_at_end directory in
      let fi = file_info os dir in
      let (link, cur_path) = get_link_real_path os dir in
      if not (is_directory fi)
      then fail s file_not_found dir
      else if not (is_readable os fi)
      then fail s file_not_readable dir
      else if path_in_watches s.watches dir
      then fail s file_repeated dir
      else add_linked settings s dir link (elim cur_path [ none ↦ [] | some path ↦ path ]) recursive
          options

  -- The two overloads of removeWatch: the first watch that matches goes.
  unfoldable pub remove_directory_loop : List (WatcherGeneric D) → Text → List (WatcherGeneric D)
  remove_directory_loop [] dir = []
  remove_directory_loop (w ∷ ws) dir =
      let rest = remove_directory_loop ws dir in if text_eq w.directory dir then ws else w ∷ rest

  unfoldable pub remove_directory : FileWatcherGeneric D → Text → FileWatcherGeneric D
  unfolding remove_directory_loop
  remove_directory s directory = record s {
    watches = remove_directory_loop s.watches (dir_add_slash_at_end directory);
  }

  unfoldable pub remove_loop : List (WatcherGeneric D) → ℤ → List (WatcherGeneric D)
  remove_loop [] id = []
  remove_loop (w ∷ ws) id =
      let rest = remove_loop ws id in if int_eq (pos w.id) id then ws else w ∷ rest

  unfoldable pub remove_watch : FileWatcherGeneric D → ℤ → FileWatcherGeneric D
  unfolding remove_loop
  remove_watch s id = record s { watches = remove_loop s.watches id }

  -- One round of the polling thread.
  unfoldable pub scan_watches : List (WatcherGeneric D) → List (WatcherGeneric D)
  scan_watches [] = []
  scan_watches (w ∷ ws) = record w { dir_watch = directories.watch w.dir_watch } ∷ scan_watches ws

  -- FileWatcherGeneric::directories
  unfoldable pub directories_of : List (WatcherGeneric D) → List Text
  directories_of [] = []
  directories_of (w ∷ ws) = w.directory ∷ directories_of ws

  -- FileWatcher::addWatch of a front end whose back end is this one.
  unfoldable pub front_add_watch :
      Os → Settings → FileWatcherGeneric D → Text → Bool → List (ℕ × ℤ) → ℤ × FileWatcherGeneric D
  unfolding impl_add_watch add_watch fail
  front_add_watch os settings s directory recursive options =
      impl_add_watch true os (add_watch os settings s) (fail s) directory recursive options

  -- The front end's other calls go to the back end.
  unfoldable pub front_remove_directory : FileWatcherGeneric D → Text → FileWatcherGeneric D
  unfolding remove_directory
  front_remove_directory s directory = remove_directory s directory

  unfoldable pub front_remove_watch : FileWatcherGeneric D → ℤ → FileWatcherGeneric D
  unfolding remove_watch
  front_remove_watch s id = remove_watch s id

  unfoldable pub front_directories : FileWatcherGeneric D → List Text
  unfolding directories_of
  front_directories s = directories_of s.watches

-- The back end that the constructor of FileWatcher chooses, with its polling interval: the native
-- one, unless it does not start, when the generic one takes its place.
pub data Backend : Type 0 where
  generic : ℕ → Backend
  native : Backend

unfoldable pub choose_backend : Bool → Bool → ℕ → Backend
choose_backend use_generic init_ok polling_frequency_ms =
    if use_generic || not init_ok then generic polling_frequency_ms else native

-- FileWatcher( useGenericFileWatcher ) on a platform with a native back end.
unfoldable pub choose_default : Bool → Bool → Backend
unfolding choose_backend
choose_default use_generic init_ok =
    choose_backend use_generic init_ok (if use_generic then 1000 else 500)

unfoldable pub set_follow_symlinks : Settings → Bool → Settings
set_follow_symlinks s follow = record s { follow_symlinks = follow }

unfoldable pub set_out_of_scope : Settings → Bool → Settings
set_out_of_scope s allow = record s { out_of_scope = allow }
