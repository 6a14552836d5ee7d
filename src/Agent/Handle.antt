-- ===== src/Agent/Handle.antt =====
-- Agent::addWatch, handle and run (src/agent/efsw-agent.cpp) on Linux, where paths keep their
-- slashes, a root has no resolved form and the platform is "linux".
use efsw.Base.{
  ℕ, ◌+◌, ◌/◌, ◌%◌, ◌^◌, ltb, ◌==◌, ℤ, pos, negsuc, Bool, true, false, not, ◌||◌, List, [], ◌∷◌,
  ◌++◌, Text, codes, if◌then◌else◌, Option, none, some,
}
use efsw.FileSystem.{os_slash, last_byte}
use efsw.Protocol.{Frame, protocol_version}
use efsw.Protocol.Writer
use efsw.Protocol.Writer.{Writer}
use efsw.Protocol.Reader
use efsw.Protocol.Reader.{reader}
use efsw.Protocol.FrameParser
use efsw.Protocol.Stream.{Status, waiting, refused, broken, out_of_fuel, receive}
use efsw.Agent.{
  normalize_slashes, resolved_root, Agent, Service, Watch, nat_eq, int_eq, efsw_eq, erase_events,
}
use efsw.Agent.Table.{find, put, erase}

-- The reply that is queued for the writer.
unfoldable pub send : {W : Type 0} → Agent W → ℕ → Writer → Agent W
send s type payload = record s { outgoing = s.outgoing ++ Writer.frame payload type ∷ [] }

unfoldable pub send_error : {W : Type 0} → Agent W → Text → Agent W
unfolding send
send_error s message = send s 12 (Writer.str Writer.empty message)

-- ( flags & ( 1u << bit ) ) != 0
abbrev pub flag : ℕ → ℕ → Bool
flag flags bit = flags / 2 ^ bit % 2 == 1

-- The root of a watch ends in a separator.
unfoldable pub watch_root : Text → Text
unfolding normalize_slashes
watch_root path' =
    let path = normalize_slashes path' in
    if last_byte path == os_slash then path else path ++ os_slash ∷ []

abbrev pub agent_version : Text
agent_version = codes "1.0.0"

abbrev pub platform_name : Text
platform_name = codes "linux"

-- The errors after which a generic watcher is tried: FileRemote, FileOverlapping, FileRepeated,
-- WatcherFailed.
abbrev pub tries_generic : ℤ → Bool
tries_generic id =
    int_eq id (negsuc 4) || (int_eq id (negsuc 7) || (int_eq id (negsuc 1) || int_eq id (negsuc 5)))

abbrev pub is_negative : ℤ → Bool
is_negative (pos n) = false
is_negative (negsuc n) = true

module _ {W : Type 0} (service : Service W) where
  -- The watcher of a key, which is made when it is first asked for.
  unfoldable pub watcher_for : Agent W → ℕ → ℕ → W
  watcher_for s key flags = elim (find nat_eq s.watchers key) [
    | some w ↦ w
    | none ↦ service.create (flag key 0) s.polling_ms (flag flags 1) (flag flags 2)
  ]

  unfoldable pub add_watch : Agent W → ℕ → Text → ℕ → ℤ × Agent W
  unfolding watcher_for put
  add_watch s key path flags =
      let (id, w) =
        service.add_watch (watcher_for s key flags) path (flag flags 0) (flag flags 3) in
      (id, record s { watchers = put nat_eq s.watchers key w })

  unfoldable pub hello : Agent W → Agent W
  unfolding send
  hello s =
      let w =
        Writer.str (Writer.str (Writer.u16 Writer.empty protocol_version) agent_version)
          platform_name in
      send s 2 (Writer.u32 w 3)

  -- The first attempt of WATCH and, after some errors, the second one: the key, the id and the
  -- state.
  unfoldable pub attempt : Agent W → Text → ℕ → ℕ × ℤ × Agent W
  unfolding add_watch
  attempt s path flags =
      let option_bits = (if flag flags 1 then 2 else 0) + (if flag flags 2 then 4 else 0) in
      let native : ℤ × Agent W =
        if not (flag flags 4) then add_watch s option_bits path flags else (negsuc 4, s) in
      let generic = add_watch native.1 (option_bits + 1) path flags in
      if tries_generic native.0
      then (option_bits + 1, generic.0, generic.1)
      else (option_bits, native.0, native.1)

  unfoldable pub log_of : Agent W → ℕ → Text
  log_of s key = elim (find nat_eq s.watchers key) [ some w ↦ service.watch_log w | none ↦ [] ]

  -- The end of WATCH: an error, or the registration of the watch.
  unfoldable pub answer_watch : Agent W → ℕ → Text → ℕ → ℤ → Agent W
  unfolding send log_of put watch_root resolved_root
  answer_watch t id path key efsw_id =
      let entry : Watch = record {
        key = key;
        efsw_id = efsw_id;
        root = watch_root path;
        real_root = [];
      } in
      let t' : Agent W = record t {
        watches = put nat_eq t.watches id entry;
        by_efsw = put efsw_eq t.by_efsw (key, efsw_id) id;
      } in
      if is_negative efsw_id
      then send t 5 (Writer.str (Writer.i32 (Writer.u32 Writer.empty id) efsw_id) (log_of t key))
      else send t' 4 (Writer.u8 (Writer.u32 Writer.empty id) (if flag key 0 then 1 else 0))

  -- What WATCH does after its fields are read.
  unfoldable pub watch : Agent W → ℕ → Text → ℕ → ℕ → Agent W
  unfolding attempt answer_watch
  watch s id path flags polling =
      let s' : Agent W = record s {
        polling_ms = if ltb 0 polling then polling else s.polling_ms;
      } in
      let (key, efsw_id, t) = attempt s' path flags in answer_watch t id path key efsw_id

  -- removeWatch on the watcher of a key.
  unfoldable pub remove_watch : Agent W → Watch → Agent W
  unfolding find put
  remove_watch s w = elim (find nat_eq s.watchers w.key) [
    | none ↦ s
    | some watcher ↦ record s {
      watchers = put nat_eq s.watchers w.key (service.remove_watch watcher w.efsw_id);
    }
  ]

  -- What UNWATCH does after its field is read.
  unfoldable pub unwatch : Agent W → ℕ → Agent W
  unfolding remove_watch erase find erase_events send
  unwatch s id =
      let s' : Agent W = elim (find nat_eq s.watches id) [
        | none ↦ s
        | some w ↦
            remove_watch
              (record s {
                by_efsw = erase efsw_eq s.by_efsw (w.key, w.efsw_id);
                watches = erase nat_eq s.watches id;
              })
              w
      ] in
      send (record s' { pending_events = erase_events s'.pending_events id }) 7
        (Writer.u32 Writer.empty id)

  -- handle: the state, and the error if the frame is refused.
  unfoldable pub handle_watch : Agent W → Text → Agent W × Option Text
  unfolding watch
  handle_watch s payload =
      let (id, r) = Reader.u32 (reader payload) in
      let (path, r') = Reader.str r in
      let (flags, r'') = Reader.u8 r' in
      let (polling, r4) = Reader.u32 r'' in
      if not r4.ok
      then (s, some (codes "malformed WATCH"))
      else (watch s id path flags polling, none)

  unfoldable pub handle_unwatch : Agent W → Text → Agent W × Option Text
  unfolding unwatch
  handle_unwatch s payload =
      let (id, r) = Reader.u32 (reader payload) in
      if not r.ok then (s, some (codes "malformed UNWATCH")) else (unwatch s id, none)

  unfoldable pub handle_ping : Agent W → Text → Agent W
  unfolding send
  handle_ping s payload = send s 11 (Writer.u32 Writer.empty (Reader.u32 (reader payload)).0)

  unfoldable pub handle : Agent W → Frame → Agent W × Option Text
  unfolding hello handle_watch handle_unwatch handle_ping
  handle s frame =
      if not (frame.version == protocol_version)
      then (s, some (codes "unsupported protocol version"))
      else if frame.type == 1
      then (hello s, none)
      else if frame.type == 3
      then handle_watch s frame.payload
      else if frame.type == 6
      then handle_unwatch s frame.payload
      else if frame.type == 10
      then (handle_ping s frame.payload, none)
      else (s, some (codes "unknown message type"))

  -- `handle` for the receive loop, which keeps `error` beside the state.
  unfoldable pub handle_frame : Agent W × Text → Frame → (Agent W × Text) × Bool
  unfolding handle
  handle_frame (s, error) frame =
      let (s', refusal) = handle s frame in
      elim refusal [ none ↦ ((s', error), true) | some message ↦ ((s', message), false) ]

  -- The end of the receive loop: the exit code, and the state. `none` stands for a model that ran
  -- out of fuel.
  unfoldable pub exit_of : Status (Agent W × Text) FrameParser.FrameParser → Option (ℕ × Agent W)
  unfolding send_error
  exit_of (waiting (s, error) p) = some (0, s)
  exit_of (refused (s, error)) = some (2, send_error s error)
  exit_of (broken (s, error)) = some (2, send_error s (codes "frame too large"))
  exit_of out_of_fuel = none

  unfoldable pub run : Agent W → List Text → Option (ℕ × Agent W)
  unfolding handle_frame exit_of
  run s chunks = exit_of (receive handle_frame (s, []) FrameParser.empty chunks)
