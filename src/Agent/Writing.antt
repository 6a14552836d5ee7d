-- ===== src/Agent/Writing.antt =====
-- Agent::writerLoop (src/agent/efsw-agent.cpp): one wake-up of the thread that owns the output.
use efsw.Base.{ℕ, zero, suc, List, [], ◌∷◌, ◌++◌, Text, length, take, drop}
use efsw.Protocol.Writer
use efsw.Protocol.Writer.{Writer}
use efsw.Agent.{Agent, WatchEventRecord}

-- The records of one frame.
unfoldable pub write_records : Writer → List WatchEventRecord → Writer
write_records w [] = w
write_records w (r ∷ rs) =
    write_records (Writer.str (Writer.str (Writer.u8 w r.action) r.path) r.old_path) rs

-- The payload of one EVENT_BATCH frame.
unfoldable pub batch : ℕ → List WatchEventRecord → Writer
unfolding write_records
batch id rs = write_records (Writer.u32 (Writer.u32 Writer.empty id) (length rs)) rs

-- The ranges from `start` to `end` in the list, each of 4096 records at most. The length of the
-- list bounds the rounds.
unfoldable pub ranges : ℕ → List WatchEventRecord → List (List WatchEventRecord)
ranges zero rs = []
ranges (suc fuel) [] = []
ranges (suc fuel) (r ∷ rs) = take 4096 (r ∷ rs) ∷ ranges fuel (drop 4096 (r ∷ rs))

unfoldable pub batch_frames : ℕ → List (List WatchEventRecord) → List Text
unfolding batch
batch_frames id [] = []
batch_frames id (rs ∷ rest) = Writer.frame (batch id rs) 8 ∷ batch_frames id rest

unfoldable pub event_frames : List (ℕ × List WatchEventRecord) → List Text
unfolding ranges batch_frames
event_frames [] = []
event_frames ((id, rs) ∷ events) = batch_frames id (ranges (length rs) rs) ++ event_frames events

unfoldable pub missed_frames : List ℕ → List Text
missed_frames [] = []
missed_frames (id ∷ ids) = Writer.frame (Writer.u32 Writer.empty id) 9 ∷ missed_frames ids

-- What is written, in this order, and the state with its queues swapped for empty ones.
unfoldable pub flush : {W : Type 0} → Agent W → List Text × Agent W
unfolding missed_frames event_frames
flush s = (
  s.outgoing ++ (missed_frames s.pending_missed ++ event_frames s.pending_events),
  record s { outgoing = []; pending_events = []; pending_missed = [] },
)
