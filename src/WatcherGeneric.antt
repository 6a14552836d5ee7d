-- ===== src/WatcherGeneric.antt =====
-- class WatcherGeneric (src/efsw/WatcherGeneric.cpp): one round of a watch. What DirWatcherGeneric
-- finds in the round is the list of events for which it calls `handleAction`.
pub mod Rounds
pub mod Watching
mod Tests
use efsw.Base.{Bool, true, false, ◌&&◌, List, [], ◌∷◌, ◌++◌, if◌then◌else◌}
use efsw.FileInfo.{Os}
use efsw.FileActionBatch.{Event, Call, plain, dispatch}

-- mCollectActions, mActionBatch, and the calls of the listener so far.
pub record Collecting : Type 0 where
  pub collect_actions : Bool
  pub batch : List Event
  pub calls : List Call

unfoldable pub handle_action : Collecting → Event → Collecting
handle_action s event =
    if s.collect_actions
    then record s { batch = s.batch ++ event ∷ [] }
    else record s { calls = s.calls ++ plain event ∷ [] }

-- DirWatch->watch(), which hands its events to `handleAction` in their order.
unfoldable pub handle_actions : Collecting → List Event → Collecting
unfolding handle_action
handle_actions s [] = s
handle_actions s (event ∷ events) = handle_actions (handle_action s event) events

-- WatcherGeneric::watch; FileInfo::inodeSupported is true on POSIX.
unfoldable pub watch_round : Os → Bool → Bool → Collecting → List Event → Collecting
unfolding handle_actions dispatch
watch_round os recursive report_moves s events =
    let start : Collecting = record s {
      collect_actions = recursive;
      batch = if recursive then [] else s.batch;
    } in
    let found = handle_actions start events in
    let reported = dispatch os true report_moves found.batch in
    if found.collect_actions
    then record { collect_actions = false; batch = reported.1; calls = found.calls ++ reported.0 }
    else found
