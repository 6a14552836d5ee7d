-- ===== src/Agent/Tests.antt =====
-- The theorems about the agent at a concrete service and concrete frames.
use mathlib.Core.List.{flatten}
use efsw.Base.{
  ◌≡◌, ◌≢◌, refl, ℕ, ◌+◌, pos, true, List, [], ◌∷◌, ◌++◌, map, Text, codes, none, some, arith,
}
use efsw.FileSystem.{os_slash}
use efsw.FileActionBatch.{add}
use efsw.Protocol.{Frame}
use efsw.Protocol.Reader.{reader, at_end}
use efsw.Protocol.Fields.{kind, read_all}
use efsw.Agent.{Agent, Service, Watch, WatchEventRecord, nat_eq, efsw_eq, on_event}
use efsw.Agent.Table.{find}
use efsw.Agent.Handle.{handle, unwatch, run}
use efsw.Agent.Writing.{batch}
use efsw.Agent.Batches.{IsRecord, batch_fields, batch-read_all}
use efsw.Agent.Events.{events_of, unwatch-on_event}
use efsw.Agent.Replies.{Answers, handle-Answers, run_total}
use efsw.Agent.Session.{Session, run-Session}
use efsw.Protocol.Cut.{IsFrame, encode}
use efsw.Protocol.Chunks.{encode_all}

-- A watcher that counts its watches.
abbrev service : Service ℕ
service = record {
  create = λ generic polling follow out_of_scope. 1;
  add_watch = λ w path recursive moves. (pos w, w + 1);
  remove_watch = λ w id. w;
  watch_log = λ w. [];
}

abbrev watch : Watch
watch = record { key = 0; efsw_id = pos 1; root = codes "/tmp/"; real_root = [] }

abbrev change : WatchEventRecord
change = record { action = 3; path = codes "f"; old_path = [] }

abbrev state : Agent ℕ
state = record {
  polling_ms = 1000;
  watchers = (0, 2) ∷ [];
  watches = (9, watch) ∷ [];
  by_efsw = ((0, pos 1), 9) ∷ [];
  outgoing = [];
  pending_events = (9, change ∷ []) ∷ [];
  pending_missed = [];
}

abbrev ping : Frame
ping = record { version = 1; type = 10; payload = 0 ∷ 0 ∷ 1 ∷ 44 ∷ [] }

handle-Answers_example : Answers service state (handle service state ping)
handle-Answers_example = handle-Answers service state ping

abbrev input : List Text
input = (0 ∷ 0 ∷ 0 ∷ []) ∷ (4 ∷ 0 ∷ 1 ∷ 0 ∷ 10 ∷ 0 ∷ 0 ∷ 1 ∷ 44 ∷ []) ∷ []

run_total_example : run service state input ≢ none
run_total_example = run_total service state input

abbrev unknown : Frame
unknown = record { version = 1; type = 99; payload = [] }

unknown-IsFrame : IsFrame unknown
unknown-IsFrame = record { current = refl; short_type = omega arith; bounded = omega arith }

-- The frames of a session, the second of which is refused.
abbrev session_input : List Text
session_input = input ++ (0 ∷ 0 ∷ 0 ∷ 0 ∷ 0 ∷ 1 ∷ 0 ∷ 99 ∷ []) ∷ []

session_input_frames : flatten session_input ≡ encode_all (ping ∷ unknown ∷ [])
unfolding encode flatten
session_input_frames = refl

ping-IsFrame : IsFrame ping
ping-IsFrame = record { current = refl; short_type = omega arith; bounded = omega arith }

run-Session_example :
    (code : ℕ) × (u : Agent ℕ) × (run service state session_input ≡ some (code, u))
    × Session service state (ping ∷ unknown ∷ []) code u
run-Session_example =
    run-Session service state (ping ∷ unknown ∷ []) session_input
      (ping-IsFrame, (unknown-IsFrame, tt)) session_input_frames

change-IsRecord : IsRecord change
change-IsRecord = (omega arith, omega arith, omega arith)

batch-read_all_example :
    ((read_all (map kind (batch_fields 9 (change ∷ []))) (reader (batch 9 (change ∷ [])).bytes)).0
      ≡ batch_fields 9 (change ∷ []))
    × ((read_all
          (map kind (batch_fields 9 (change ∷ [])))
          (reader (batch 9 (change ∷ [])).bytes)).1.ok
        ≡ true)
    × (at_end
          (read_all
            (map kind (batch_fields 9 (change ∷ [])))
            (reader (batch 9 (change ∷ [])).bytes)).1
        ≡ true)
batch-read_all_example =
    batch-read_all 9 (change ∷ []) (omega arith) (omega arith) (change-IsRecord, tt)

known : find efsw_eq state.by_efsw (0, pos 1) ≡ some 9
unfolding find
known = refl

registered : find nat_eq state.watches 9 ≡ some watch
unfolding find
registered = refl

unwatch-on_event_example :
    (on_event (unwatch service state 9) 0 (pos 1) (codes "/tmp/") (codes "f") add []
      ≡ unwatch service state 9)
    × (events_of (unwatch service state 9).pending_events 9 ≡ [])
unwatch-on_event_example =
    unwatch-on_event service state 9 watch (codes "/tmp/") (codes "f") add [] registered

f_last : 102 ≢ os_slash
f_last = λ e. absurd (omega (arith, e))
