-- ===== src/Agent.antt =====
-- class Agent (src/agent/efsw-agent.cpp): its state, and what its watchers' listeners do to it. The
-- state is guarded by mutexes in the source; a step here is one of the guarded sections.
pub mod Table
pub mod Handle
pub mod Main
pub mod Writing
pub mod Replies
pub mod Session
pub mod Events
pub mod Batches
mod Tests
use efsw.Base.{
  ℕ, ltb, ◌==◌, ℤ, pos, negsuc, Bool, false, not, ◌&&◌, ◌||◌, List, [], ◌∷◌, ◌++◌, Text, text_eq,
  length, take, drop, get_or, if◌then◌else◌, Option, none, some,
}
use efsw.FileSystem.{os_slash}
use efsw.FileActionBatch.{Action, add, delete, modified, moved}
use efsw.Agent.Table.{Dict, find, put}

-- What the agent uses of efsw::FileWatcher. `W` is a watcher; `watch_log` is the text of the error
-- that its last `add_watch` left behind.
pub record Service (W : Type 0) : Type 0 where
  -- Whether it is generic, its polling interval, followSymlinks and allowOutOfScopeLinks; then
  -- `watch` is called.
  pub create : Bool → ℕ → Bool → Bool → W
  -- The path, whether it is recursive, and whether ReportCrossDirectoryMoves is set.
  pub add_watch : W → Text → Bool → Bool → ℤ × W
  pub remove_watch : W → ℤ → W
  pub watch_log : W → Text

pub record Watch : Type 0 where
  pub key : ℕ
  pub efsw_id : ℤ
  pub root : Text
  pub real_root : Text

abbrev pub blank_watch : Watch
blank_watch = record { key = 0; efsw_id = pos 0; root = []; real_root = [] }

pub record WatchEventRecord : Type 0 where
  pub action : ℕ
  pub path : Text
  pub old_path : Text

pub record Agent (W : Type 0) : Type 0 where
  pub polling_ms : ℕ
  pub watchers : Dict ℕ W
  pub watches : Dict ℕ Watch
  pub by_efsw : Dict (ℕ × ℤ) ℕ
  pub outgoing : List Text
  pub pending_events : List (ℕ × List WatchEventRecord)
  pub pending_missed : List ℕ

abbrev pub nat_eq : ℕ → ℕ → Bool
nat_eq a b = a == b

abbrev pub int_eq : ℤ → ℤ → Bool
int_eq (pos a) (pos b) = a == b
int_eq (negsuc a) (negsuc b) = a == b
int_eq _ _ = false

abbrev pub efsw_eq : ℕ × ℤ → ℕ × ℤ → Bool
efsw_eq (key, id) (key', id') = key == key' && int_eq id id'

-- static_cast<uint8_t>( action )
abbrev pub action_code : Action → ℕ
action_code add = 1
action_code delete = 2
action_code modified = 3
action_code moved = 4

-- normalizeSlashes and resolvedRoot, where the platform is neither Windows nor macOS.
unfoldable pub normalize_slashes : Text → Text
normalize_slashes path = path

unfoldable pub resolved_root : Text → Text → Text
resolved_root path root = []

-- Whether the path begins with the root: `normalized.compare( 0, root.size(), root ) == 0`.
unfoldable pub begins_with : Text → Text → Bool
begins_with root path = text_eq (take (length root) path) root

-- The loop that takes the separators off the end: one goes when everything after it has gone.
unfoldable pub trim : Text → Text
trim [] = []
trim (b ∷ bs) =
    let rest = trim bs in if not (ltb 0 (length rest)) && b == os_slash then [] else b ∷ rest

unfoldable pub relative : Watch → Text → Text
unfolding normalize_slashes begins_with trim
relative watch path' =
    let path = normalize_slashes path' in
    let root =
      if ltb 0 (length watch.real_root) && begins_with watch.real_root path
      then watch.real_root
      else watch.root in
    trim (if begins_with root path then drop (length root) path else path)

-- lookup: the id and the watch of an efsw watch that is registered. `mWatches[watchId]` makes a
-- watch when there is none.
unfoldable pub lookup : {W : Type 0} → Agent W → ℕ → ℤ → Option (ℕ × Watch) × Agent W
unfolding find put
lookup s key efsw_id = elim (find efsw_eq s.by_efsw (key, efsw_id)) [
  | none ↦ (none, s)
  | some watch_id ↦ elim (find nat_eq s.watches watch_id) [
    | some watch ↦ (some (watch_id, watch), s)
    | none ↦ (
      some (watch_id, blank_watch),
      record s { watches = put nat_eq s.watches watch_id blank_watch },
    )
  ]
]

-- mPendingEvents[id].push_back( r ): the map is kept in the order of its keys.
unfoldable pub push_event :
    List (ℕ × List WatchEventRecord) → ℕ → WatchEventRecord → List (ℕ × List WatchEventRecord)
push_event [] id r = (id, r ∷ []) ∷ []
push_event ((k, rs) ∷ events) id r =
    let later = push_event events id r in
    if ltb k id
    then (k, rs) ∷ later
    else if k == id
    then (k, rs ++ r ∷ []) ∷ events
    else (id, r ∷ []) ∷ (k, rs) ∷ events

-- mPendingEvents.erase( id )
unfoldable pub erase_events :
    List (ℕ × List WatchEventRecord) → ℕ → List (ℕ × List WatchEventRecord)
erase_events [] id = []
erase_events ((k, rs) ∷ events) id =
    let rest = erase_events events id in if k == id then rest else (k, rs) ∷ rest

-- The record that an event becomes.
unfoldable pub event_record : Watch → Text → Text → Action → Text → WatchEventRecord
unfolding relative
event_record watch dir filename action old_filename = record {
  action = action_code action;
  path = relative watch (dir ++ filename);
  old_path = elim action [
    | moved ↦ relative watch (if absolute then old_filename else dir ++ old_filename)
    | _ ↦ []
  ];
}
  where
    absolute : Bool
    absolute =
        ltb 0 (length old_filename)
        && (get_or old_filename 0 0 == os_slash
            || (ltb 1 (length old_filename) && get_or old_filename 1 0 == 58))

-- The second guarded part of onEvent.
unfoldable pub push_pending : {W : Type 0} → Agent W → ℕ → WatchEventRecord → Agent W
unfolding push_event
push_pending s watch_id record_of_event = record s {
  pending_events = push_event s.pending_events watch_id record_of_event;
}

-- onEvent, from the answer of `lookup`, which is its first guarded part; between the two, other
-- threads may run, which is left out here.
abbrev pub event_at :
    {W : Type 0} → Option (ℕ × Watch) × Agent W → Text → Text → Action → Text → Agent W
event_at (none, s) dir filename action old_filename = s
event_at (some (watch_id, watch), s) dir filename action old_filename =
    push_pending s watch_id (event_record watch dir filename action old_filename)

unfoldable pub on_event : {W : Type 0} → Agent W → ℕ → ℤ → Text → Text → Action → Text → Agent W
unfolding lookup push_pending event_record
on_event s key efsw_id dir filename action old_filename =
    event_at (lookup s key efsw_id) dir filename action old_filename

-- onMissed, from the answer of `lookup`.
abbrev pub missed_at : {W : Type 0} → Option (ℕ × Watch) × Agent W → Agent W
missed_at (none, s) = s
missed_at (some (watch_id, watch), s) = record s {
  pending_events = erase_events s.pending_events watch_id;
  pending_missed = s.pending_missed ++ watch_id ∷ [];
}

unfoldable pub on_missed : {W : Type 0} → Agent W → ℕ → ℤ → Agent W
unfolding lookup erase_events
on_missed s key efsw_id = missed_at (lookup s key efsw_id)
