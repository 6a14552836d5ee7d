-- ===== src/FileActionBatch/Tests.antt =====
-- The theorems about FileActionBatch at a concrete batch: `f` moves from `a/` to `b/` while `g`
-- changes.
use mathlib.Core.Logic.{◌⊎◌}
use efsw.Base.{◌≡◌, ℕ, pos, true, false, List, [], ◌∷◌, Text, codes, none, All, select, Mem}
use efsw.FileInfo.{Os, blank}
use efsw.FileActionBatch.{Action, add, delete, modified, Event, plain, plain_all, dispatch}
use efsw.FileActionBatch.Moves.{Explained}
use efsw.FileActionBatch.Passes.{
  Justified, is_modified, dispatch-Justified, dispatch-Kept, dispatch-modified,
}

abbrev os : Os
os = record {
  stat = λ path. none;
  lstat = λ path. none;
  names = λ path. none;
  realpath = λ path. none;
  unresolved = λ path. codes "/a";
  is_remote = λ path. false;
  is_root = false;
  uninitialised = 0;
}

abbrev event_of : Text → Text → Action → ℕ → Event
event_of directory filename action inode = record {
  watch = pos 1;
  directory = directory;
  filename = filename;
  action_type = action;
  old_filename = [];
  info = record blank {
    filepath = directory;
    inode = inode;
    device = 1;
    link_count = 1;
    permissions = 33188;
  };
}

abbrev events : List Event
events =
    event_of (codes "/a/") (codes "f") delete 4
    ∷ event_of (codes "/b/") (codes "g") modified 5
    ∷ event_of (codes "/b/") (codes "f") add 4
    ∷ []

dispatch-Justified_example : All (Justified os events) (dispatch os true true events).0
dispatch-Justified_example = dispatch-Justified os events

dispatch-Kept_example :
    All (λ e. Mem (plain e) (dispatch os true true events).0 ⊎ Explained events e) events
dispatch-Kept_example = dispatch-Kept os events

dispatch-modified_example :
    select (λ c. is_modified c.action) (dispatch os true true events).0
    ≡ plain_all (select (λ e. is_modified e.action_type) events)
dispatch-modified_example = dispatch-modified os events
