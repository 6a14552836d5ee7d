-- ===== src/Agent/Replies.antt =====
-- The frames that the agent answers, and the runs of its receive loop.
use efsw.Base.{
  ℕ, ℤ, ltb, ◌≡◌, ◌≢◌, refl, ap, ◌∙◌, inl, inr, not, List, [], ◌∷◌, ◌++◌, Text, if◌then◌else◌,
  Option, none, some, Option-cases, Bool-cases, arith, ◌==◌,
}
use efsw.Protocol.{Frame, protocol_version}
use efsw.Protocol.Writer
use efsw.Protocol.Writer.{Writer}
use efsw.Protocol.Reader
use efsw.Protocol.Reader.{reader}
use efsw.Protocol.FrameParser
use efsw.Protocol.Stream.{Status, waiting, refused, broken, out_of_fuel, receive}
use efsw.Protocol.Chunks.{receive_total}
use efsw.Agent.{Agent, Service, Watch, nat_eq}
use efsw.Agent.Table.{find}
use efsw.Agent.Handle.{
  send, hello, answer_watch, is_negative, watch, attempt, add_watch, remove_watch, unwatch,
  handle_watch, handle_unwatch, handle_ping, handle, handle_frame, run, exit_of,
}

module _ {W : Type 0} (service : Service W) where
  -- Exactly one frame is queued behind those that were there.
  abbrev pub OneReply : Agent W → Agent W → Type 0
  OneReply s t = (reply : Text) × (t.outgoing ≡ s.outgoing ++ reply ∷ [])

  -- The agent's answer: one reply, or no change of its state.
  abbrev pub Answers : Agent W → Agent W × Option Text → Type 0
  Answers s (t, none) = OneReply s t
  Answers s (t, some message) = t ≡ s

  attempt-outgoing :
      (s : Agent W) (path : Text) (flags : ℕ)
      → (attempt service s path flags).2.outgoing ≡ s.outgoing
  unfolding attempt add_watch
  attempt-outgoing s path flags = ground arith

  answer_watch-OneReply :
      (t : Agent W) (id : ℕ) (path : Text) (key : ℕ) (efsw_id : ℤ)
      → OneReply t (answer_watch service t id path key efsw_id)
  unfolding answer_watch send
  answer_watch-OneReply t id path key efsw_id = elim (Bool-cases (is_negative efsw_id)) [
    | inl e ↦ rw e (_, refl)
    | inr e ↦ rw e (_, refl)
  ]

  watch-OneReply :
      (s : Agent W) (id : ℕ) (path : Text) (flags polling : ℕ)
      → OneReply s (watch service s id path flags polling)
  unfolding watch
  watch-OneReply s id path flags polling =
      let s' : Agent W = record s {
        polling_ms = if ltb 0 polling then polling else s.polling_ms;
      } in
      let a = attempt service s' path flags in
      let (reply, e) = answer_watch-OneReply a.2 id path a.0 a.1 in
      (reply, e ∙ ap (λ q. q ++ reply ∷ []) (attempt-outgoing s' path flags))

  remove_watch-outgoing :
      (s : Agent W) (w : Watch) → (remove_watch service s w).outgoing ≡ s.outgoing
  unfolding remove_watch
  remove_watch-outgoing s w = elim (Option-cases (find nat_eq s.watchers w.key)) [
    | inl e ↦ rw (remove_watch, e) refl
    | inr (x, e) ↦ rw (remove_watch, e) refl
  ]

  unwatch-OneReply : (s : Agent W) (id : ℕ) → OneReply s (unwatch service s id)
  unfolding unwatch send
  unwatch-OneReply s id =
      let reply = Writer.frame (Writer.u32 Writer.empty id) 7 in
      elim (Option-cases (find nat_eq s.watches id)) [
        | inl e ↦ rw e (_, refl)
        | inr (w, e) ↦ rw e (reply, ap (λ q. q ++ reply ∷ []) (remove_watch-outgoing _ w))
      ]

  handle_watch-Answers : (s : Agent W) (payload : Text) → Answers s (handle_watch service s payload)
  unfolding handle_watch
  handle_watch-Answers s payload =
      let (id, r) = Reader.u32 (reader payload) in
      let (path, r') = Reader.str r in
      let (flags, r'') = Reader.u8 r' in
      let (polling, r4) = Reader.u32 r'' in
      elim (Bool-cases (not r4.ok)) [
        | inl e ↦ rw e refl
        | inr e ↦ rw e (watch-OneReply s id path flags polling)
      ]

  handle_unwatch-Answers :
      (s : Agent W) (payload : Text) → Answers s (handle_unwatch service s payload)
  unfolding handle_unwatch
  handle_unwatch-Answers s payload =
      let (id, r) = Reader.u32 (reader payload) in
      elim (Bool-cases (not r.ok)) [ inl e ↦ rw e refl | inr e ↦ rw e (unwatch-OneReply s id) ]

  -- Every frame, well formed or not, is either accepted with exactly one reply, queued behind those
  -- before it, or refused with the agent's state unchanged.
  pub handle-Answers : (s : Agent W) (frame : Frame) → Answers s (handle service s frame)
  unfolding handle hello handle_ping send
  handle-Answers s frame = elim (Bool-cases (not (frame.version == protocol_version))) [
    | inl e ↦ rw e refl
    | inr e ↦ elim (Bool-cases (frame.type == 1)) [
      | inl a ↦ rw (e, a) (_, refl)
      | inr a ↦ elim (Bool-cases (frame.type == 3)) [
        | inl b ↦ rw (e, a, b) (handle_watch-Answers s frame.payload)
        | inr b ↦ elim (Bool-cases (frame.type == 6)) [
          | inl c ↦ rw (e, a, b, c) (handle_unwatch-Answers s frame.payload)
          | inr c ↦ elim (Bool-cases (frame.type == 10)) [
            | inl d ↦ rw (e, a, b, c, d) (_, refl)
            | inr d ↦ rw (e, a, b, c, d) refl
          ]
        ]
      ]
    ]
  ]

  -- The receive loop always ends with an exit code.
  pub run_total : (s : Agent W) (chunks : List Text) → run service s chunks ≢ none
  unfolding run
  run_total s chunks h =
      receive_total (handle_frame service) (s, []) chunks
        (ended (receive (handle_frame service) (s, []) FrameParser.empty chunks) h)
    where
      ended :
          (x : Status (Agent W × Text) FrameParser.FrameParser)
          → exit_of service x ≡ none
          → x ≡ out_of_fuel
      ended (waiting (t, error) p) e = absurd (cc e)
      ended (refused (t, error)) e = absurd (cc e)
      ended (broken (t, error)) e = absurd (cc e)
      ended out_of_fuel e = refl
