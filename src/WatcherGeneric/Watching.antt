-- ===== src/WatcherGeneric/Watching.antt =====
-- WatcherGeneric (src/efsw/WatcherGeneric.cpp) over its tree of directories: the constructor, and
-- `watch` and `watchDir` from the reading of the directories to the calls of the listener.
use efsw.Base.{
  ℕ, suc, ◌≡◌, ap, ◌∙◌, Bool, true, false, ◌&&◌, List, [], ◌++◌, append-nil, Text, if◌then◌else◌,
  Option, none, some, ◌>>=◌,
}
use efsw.FileActionBatch.{Event, plain_all, dispatch}
use efsw.Snapshot.{Snapshot, changed, scan}
use efsw.DirWatcher.{Tree, node, leaf, Watch, create}
use efsw.DirWatcher.Scan.{Run, add_children, report_own, watch}
use efsw.DirWatcher.Scan.Leaf.{in_order, watch-leaf}
use efsw.DirWatcher.Find.{watch_dir}
use efsw.WatcherGeneric.{Collecting, handle_actions, watch_round}
use efsw.WatcherGeneric.Rounds.{watch_round_lem}

-- The constructor: the tree is read without reports.
unfoldable pub new_tree : ℕ → Watch → Text → Bool → Run Tree
new_tree fuel w directory recursive =
    add_children fuel w false (create w none directory recursive false).0

unfoldable pub watch_tree : ℕ → Watch → Bool → Bool → Collecting → Tree → Option (Tree × Collecting)
watch_tree fuel w recursive report_moves s t = do
  (t', events) ← watch fuel w false false t
  some (t', watch_round w.os recursive report_moves s events)

-- Outside a round the events are passed on as they come.
unfoldable pub watch_tree_dir :
    ℕ → Watch → Bool → Bool → Bool → Collecting → Tree → Text → Option (Tree × Collecting)
unfolding watch_tree
watch_tree_dir fuel w recursive report_moves out_of_scope s t dir =
    if report_moves && recursive
    then watch_tree fuel w recursive report_moves s t
    else (do (t', events) ← watch_dir fuel w out_of_scope t dir; some (t', handle_actions s events))

-- What the scan of a directory finds, in the order of the code.
abbrev pub found : Watch → Snapshot → List Event
found w s = let (diff, s') = scan w.os s in if changed diff then in_order w diff s' else []

-- A round of a watch on a directory without watched subdirectories in which no directory appears:
-- it succeeds on any fuel, the tree takes the new snapshot, and the listener hears what the scan
-- finds, in the order of the code; where the watch is recursive and reports moves, it hears what the
-- batch makes of it.
pub watch_tree-leaf :
    (fuel : ℕ) (w : Watch) (recursive report_moves : Bool) (s : Collecting) (files : Snapshot)
    → (scan w.os files).0.dirs_created ≡ []
    → (s' : Collecting) × (watch_tree
          (suc fuel)
          w
          recursive
          report_moves
          s
          (node recursive files leaf)
        ≡ some (node recursive (scan w.os files).1 leaf, s'))
      × (s'.calls
          ≡ s.calls
            ++ (if recursive
                then if report_moves
                  then (dispatch w.os true true (found w files)).0
                  else plain_all (found w files)
                else plain_all (found w files)))
unfolding watch_tree report_own
watch_tree-leaf fuel w recursive report_moves s files e = (
  watch_round w.os recursive report_moves s (found w files),
  ap (λ o. o >>= λ (t', events). some (t', watch_round w.os recursive report_moves s events))
      (watch-leaf fuel w false false recursive files e
        ∙ ap (λ es. some (node recursive (scan w.os files).1 leaf, es))
            (append-nil (found w files))),
  watch_round_lem w.os recursive report_moves s (found w files),
)
