-- ===== src/FileWatcher/Tests.antt =====
-- The theorems about the generic back end at a file system where every path is a readable directory.
use efsw.Base.{◌≡◌, refl, true, false, [], ◌∷◌, Text, text_eq, codes, none, some, arith}
use efsw.FileSystem.{dir_add_slash_at_end}
use efsw.FileInfo.{Os, Stat, get_link_real_path, is_directory, is_readable, file_info}
use efsw.FileWatcher.{
  Directories, FileWatcherGeneric, Settings, no_error, remove_watch, impl_add_watch,
  front_add_watch, is_negative,
}
use efsw.FileWatcher.Adding.{Added, front_add_watch-Added}
use efsw.FileWatcher.Ids.{IsWellFormed, front_add_watch-IsWellFormed, remove_watch-front_add_watch}

abbrev readable : Stat
readable = record {
  mtime = 0;
  size = 0;
  uid = 0;
  gid = 0;
  mode = 16877;
  dev = 1;
  ino = 2;
  nlink = 1;
}

abbrev all_directories : Os
all_directories = record {
  stat = λ path. some readable;
  lstat = λ path. some readable;
  names = λ path. none;
  realpath = λ path. none;
  unresolved = λ path. [];
  is_remote = λ path. false;
  is_root = true;
  uninitialised = 0;
}

abbrev trees : Directories Text
trees = record {
  create = λ id directory recursive moves. directory;
  path_in_watches = λ tree path. false;
  watch = λ tree. tree;
}

abbrev settings : Settings
settings = record { follow_symlinks = false; out_of_scope = false }

abbrev watcher : FileWatcherGeneric Text
watcher = record {
  last_watch_id = 4;
  watches = record { id = 2; directory = codes "/a/"; recursive = true; dir_watch = [] } ∷ [];
  log = record { last_error = []; last_error_code = no_error };
}

watcher-IsWellFormed : IsWellFormed watcher
watcher-IsWellFormed = (omega arith, omega arith)

front_add_watch-Added_example :
    Added trees 5 all_directories settings watcher
      (codes "/b")
      true
      []
      (front_add_watch trees 5 all_directories settings watcher (codes "/b") true [])
front_add_watch-Added_example =
    front_add_watch-Added trees 5 all_directories settings watcher (codes "/b") true []

front_add_watch-IsWellFormed_example :
    IsWellFormed (front_add_watch trees 5 all_directories settings watcher (codes "/b") true []).1
front_add_watch-IsWellFormed_example =
    front_add_watch-IsWellFormed trees 5 all_directories settings watcher (codes "/b") true []
      watcher-IsWellFormed

accepted_here :
    is_negative (front_add_watch trees 5 all_directories settings watcher (codes "/b") true []).0
    ≡ false
unfolding front_add_watch impl_add_watch is_directory file_info is_readable text_eq
    dir_add_slash_at_end get_link_real_path
accepted_here = refl

remove_watch-front_add_watch_example :
    (remove_watch trees 5
      (front_add_watch trees 5 all_directories settings watcher (codes "/b") true []).1
      (front_add_watch trees 5 all_directories settings watcher (codes "/b") true []).0).watches
    ≡ watcher.watches
remove_watch-front_add_watch_example =
    remove_watch-front_add_watch trees 5 all_directories settings watcher (codes "/b") true []
      watcher-IsWellFormed accepted_here
