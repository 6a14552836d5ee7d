-- ===== src/WatcherGeneric/Tests.antt =====
-- The theorem about a round at a concrete tree.
use efsw.Base.{refl, some, ◌≡◌, true, [], ◌∷◌, ◌++◌, codes, pos, false, none, if◌then◌else◌}
use efsw.FileInfo.{Os, blank, exists, is_directory}
use efsw.FileActionBatch.{Event, add, plain_all, dispatch}
use efsw.WatcherGeneric.{Collecting}
use efsw.Snapshot.{Snapshot, scan}
use efsw.DirWatcher.{node, leaf, Watch}
use efsw.WatcherGeneric.Watching.{watch_tree, found, watch_tree-leaf}

abbrev os : Os
os = record {
  stat = λ path. none;
  lstat = λ path. none;
  names = λ path. none;
  realpath = λ path. none;
  unresolved = λ path. [];
  is_remote = λ path. false;
  is_root = false;
  uninitialised = 0;
}

abbrev created : Event
created = record {
  watch = pos 1;
  directory = codes "/a/";
  filename = codes "f";
  action_type = add;
  old_filename = [];
  info = blank;
}

abbrev before : Collecting
before = record { collect_actions = false; batch = created ∷ created ∷ []; calls = [] }

abbrev w : Watch
w = record {
  id = pos 1;
  directory = codes "/a/";
  os = os;
  follow_symlinks = false;
  link_allowed = λ cur_path link. true;
  watched = λ path. false;
  attached = true;
}

-- The snapshot of a directory that is gone, with the file f in it.
abbrev files : Snapshot
files = record {
  directory_info = record blank { filepath = codes "/a/" };
  files = record blank { filepath = codes "/a/f" } ∷ [];
}

nothing_created : (scan os files).0.dirs_created ≡ []
unfolding scan exists is_directory
nothing_created = refl

watch_tree-leaf_example :
    (s' : Collecting) × (watch_tree 1 w true true before (node true files leaf)
      ≡ some (node true (scan os files).1 leaf, s'))
    × (s'.calls
        ≡ before.calls
          ++ (if true
              then if true
                then (dispatch os true true (found w files)).0
                else plain_all (found w files)
              else plain_all (found w files)))
watch_tree-leaf_example = watch_tree-leaf 0 w true true before files nothing_created
