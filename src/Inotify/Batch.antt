-- ===== src/Inotify/Batch.antt =====
-- The loop of FileWatcherInotify::run over the events of one read: a source of a move waits for its
-- destination when the pair will be one callback. A descriptor in an event is an `int`, and no
-- watch has a negative one.
pub mod Plain
pub mod Moves
pub mod Lost
use efsw.Base.{
  ℕ, ◌==◌, ℤ, pos, negsuc, Bool, true, false, not, ◌&&◌, ◌||◌, List, [], ◌∷◌, Text, if◌then◌else◌,
  Option, none, some, ◌>>=◌,
}
use efsw.Agent.{int_eq}
use efsw.FileInfo.{Os}
use efsw.FileWatcher.{Settings}
use efsw.Inotify.{
  WatcherInotify, Kernel, State, object, find_id, has_bit, in_moved_from, in_moved_to,
}
use efsw.Inotify.Actions.{
  handle_action, emit_moved_outside, emit_cross_directory_move, set_old_file_name,
}

pub record BatchEvent : Type 0 where
  pub wd : ℤ
  pub mask : ℕ
  pub cookie : ℕ
  pub filename : Text

pub record PendingMove : Type 0 where
  pub cookie : ℕ
  pub watcher : ℕ
  pub filename : Text

-- movePairs[cookie].destinationWd after the loop that parses the batch: the last destination.
unfoldable pub destination_wd : List BatchEvent → ℕ → Option ℤ
destination_wd [] cookie = none
destination_wd (event ∷ events) cookie = elim (destination_wd events cookie) [
  | some wd ↦ some wd
  | none ↦ if has_bit event.mask in_moved_to && event.cookie == cookie then some event.wd else none
]

unfoldable pub find_pending : List PendingMove → ℕ → Option PendingMove
find_pending [] cookie = none
find_pending (p ∷ ps) cookie =
    let rest = find_pending ps cookie in if p.cookie == cookie then some p else rest

unfoldable pub erase_pending : List PendingMove → ℕ → List PendingMove
erase_pending [] cookie = []
erase_pending (p ∷ ps) cookie =
    let rest = erase_pending ps cookie in if p.cookie == cookie then rest else p ∷ rest

-- mWatches.find
unfoldable pub find_watcher : List (ℕ × ℕ) → ℤ → Option ℕ
unfolding find_id
find_watcher watches (pos wd) = find_id watches wd
find_watcher watches (negsuc n) = none

-- The watch that the destination of a move is in.
unfoldable pub find_destination : List (ℕ × ℕ) → Option ℤ → Option ℕ
unfolding find_watcher
find_destination watches none = none
find_destination watches (some wd) = if int_eq wd (negsuc 0) then none else find_watcher watches wd

module _ {K : Type 0} where
  -- Whether a source and a destination will be one Moved callback.
  unfoldable pub coalesce : State K → ℕ → Option ℕ → Bool
  coalesce s cur none = false
  coalesce s cur (some destination) =
      destination == cur
      || ((object s destination).report_cross_directory_moves
          && (object s destination).id == (object s cur).id)

module _ {K : Type 0} (kernel : Kernel K) (os : Os) (settings : Settings) where
  unfoldable pub moved_from :
      ℕ
      → List BatchEvent
      → State K
      → List PendingMove
      → ℕ
      → BatchEvent
      → Option (State K × List PendingMove)
  unfolding destination_wd find_destination coalesce erase_pending emit_moved_outside
  moved_from fuel batch s pending cur event =
      if coalesce s cur (find_destination s.watches (destination_wd batch event.cookie))
      then some (
        s,
        (record { cookie = event.cookie; watcher = cur; filename = event.filename })
            ∷ erase_pending pending event.cookie,
      )
      else (do
        s' ← emit_moved_outside kernel os settings fuel s cur event.filename
        some (s', pending))

  -- An event whose watch, if there is one, is handled as it is.
  unfoldable pub pass_on : ℕ → State K → Option ℕ → BatchEvent → Option (State K)
  unfolding handle_action
  pass_on fuel s none event = some s
  pass_on fuel s (some cur) event =
      handle_action kernel os settings fuel s cur event.filename event.mask

  -- A destination whose source is waiting.
  unfoldable pub finish_move : ℕ → State K → PendingMove → Option ℕ → BatchEvent → Option (State K)
  unfolding handle_action emit_moved_outside emit_cross_directory_move
  finish_move fuel s source none event =
      emit_moved_outside kernel os settings fuel s source.watcher source.filename
  finish_move fuel s source (some cur) event =
      if source.watcher == cur
      then handle_action kernel os settings fuel (set_old_file_name s cur source.filename) cur
          event.filename event.mask
      else emit_cross_directory_move kernel os settings fuel s source.watcher source.filename cur
          event.filename

  unfoldable pub moved_to :
      ℕ → State K → List PendingMove → Option ℕ → BatchEvent → Option (State K × List PendingMove)
  unfolding find_pending erase_pending finish_move pass_on
  moved_to fuel s pending cur event = elim (find_pending pending event.cookie) [
    | none ↦ do s' ← pass_on fuel s cur event; some (s', pending)
    | some source ↦ do
      s' ← finish_move fuel s source cur event
      some (s', erase_pending pending event.cookie)
  ]

  -- The body of the loop, for an event of the batch.
  unfoldable pub replay_event :
      ℕ
      → List BatchEvent
      → State K
      → List PendingMove
      → BatchEvent
      → Option (State K × List PendingMove)
  unfolding find_watcher moved_from moved_to pass_on
  replay_event fuel batch s pending event =
      let cur = find_watcher s.watches event.wd in
      if has_bit event.mask in_moved_from
      then elim cur [ none ↦ some (s, pending) | some r ↦ moved_from fuel batch s pending r event ]
      else if has_bit event.mask in_moved_to
      then moved_to fuel s pending cur event
      else (do s' ← pass_on fuel s cur event; some (s', pending))

  unfoldable pub replay :
      ℕ → List BatchEvent → State K → List PendingMove → List BatchEvent → Option (State K)
  unfolding replay_event
  replay fuel batch s pending [] = some s
  replay fuel batch s pending (event ∷ events) = do
    (s', pending') ← replay_event fuel batch s pending event
    replay fuel batch s' pending' events

  -- A batch: the replay, and the end of the round, which frees the watches that were removed.
  unfoldable pub run_batch : ℕ → State K → List BatchEvent → Option (State K)
  unfolding replay
  run_batch fuel s events = do
    s' ← replay fuel events s [] events
    some (record s' { deleted_watches = [] })
