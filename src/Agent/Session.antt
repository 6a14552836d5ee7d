-- ===== src/Agent/Session.antt =====
-- A whole run of the agent on the frames that a client sends.
use mathlib.Core.List.{flatten}
use efsw.Base.{
  ℕ, ◌≡◌, refl, ap, ◌∙◌, subst, List, [], ◌∷◌, ◌++◌, Text, Bool, true, false, if◌then◌else◌, Option,
  none, some, All,
}
use efsw.Protocol.{Frame}
use efsw.Protocol.Writer
use efsw.Protocol.FrameParser
use efsw.Protocol.Split.{split_frame}
use efsw.Protocol.Cut.{IsFrame, encode, split_frame-encode}
use efsw.Protocol.Consume.{consume_all, consume_all-cut, consume_all-more}
use efsw.Protocol.Stream.{Status, waiting, refused, broken, out_of_fuel}
use efsw.Protocol.Chunks.{view, receive-empty, encode_all}
use efsw.Agent.{Agent, Service}
use efsw.Agent.Handle.{send, send_error, handle, handle_frame, run, exit_of}
use efsw.Agent.Replies.{OneReply, Answers, handle-Answers}

module _ {W : Type 0} (service : Service W) where
  -- The end of the loop does not depend on the parser that is left.
  exit_view : Status (Agent W × Text) Text → Option (ℕ × Agent W)
  unfolding exit_of
  exit_view (waiting s t) = exit_of service (waiting s FrameParser.empty)
  exit_view (refused s) = exit_of service (refused s)
  exit_view (broken s) = exit_of service (broken s)
  exit_view out_of_fuel = none

  exit_of-view :
      (x : Status (Agent W × Text) FrameParser.FrameParser) → exit_of service x ≡ exit_view (view x)
  unfolding exit_of view exit_view
  exit_of-view (waiting s p) = refl
  exit_of-view (refused s) = refl
  exit_of-view (broken s) = refl
  exit_of-view out_of_fuel = refl

  -- A run of the agent on a list of frames, with its exit code and its state at the end: every frame
  -- is answered with one reply, until there are no more, which ends the run with 0, or until one is
  -- refused, which ends it with 2 and one ERROR frame with the reason; the frames behind that one are
  -- not handled.
  pub data Session : Agent W → List Frame → ℕ → Agent W → Type 0 where
    ended : (s : Agent W) → Session s [] 0 s
    answered :
        (f : Frame) (fs : List Frame) (code : ℕ) (s t u : Agent W)
        → handle service s f ≡ (t, none)
        → OneReply service s t
        → Session t fs code u
        → Session s (f ∷ fs) code u
    rejected :
        (f : Frame) (fs : List Frame) (s : Agent W) (message : Text)
        → handle service s f ≡ (s, some message)
        → Session s (f ∷ fs) 2 (record s {
          outgoing = s.outgoing ++ Writer.frame (Writer.str Writer.empty message) 12 ∷ [];
        })

  -- The end of the loop on bytes, as a session.
  abbrev EndsIn : Agent W → List Frame → Option (ℕ × Agent W) → Type 0
  EndsIn s fs r = (code : ℕ) × (u : Agent W) × (r ≡ some (code, u)) × Session s fs code u

  abbrev outcome : Text → Agent W × Option Text → (Agent W × Text) × Bool
  outcome error (t, none) = ((t, error), true)
  outcome error (t, some message) = ((t, message), false)

  accepted_frame :
      (s t : Agent W) (error : Text) (f : Frame)
      → handle service s f ≡ (t, none)
      → handle_frame service (s, error) f ≡ ((t, error), true)
  unfolding handle_frame
  accepted_frame s t error f e = ap (outcome error) e

  refused_frame :
      (s t : Agent W) (error message : Text) (f : Frame)
      → handle service s f ≡ (t, some message)
      → handle_frame service (s, error) f ≡ ((t, message), false)
  unfolding handle_frame
  refused_frame s t error message f e = ap (outcome error) e

  consume_all-EndsIn :
      (s : Agent W) (error : Text) (fs : List Frame)
      → All IsFrame fs
      → EndsIn s fs (exit_view (consume_all (handle_frame service) (s, error) (encode_all fs)))
  unfolding exit_view exit_of split_frame send_error send
  consume_all-EndsIn s error [] v =
      (0, s, ap exit_view (consume_all-more (handle_frame service) (s, error) [] refl), ended s)
  consume_all-EndsIn s error (f ∷ fs) v =
      go (handle service s f).0 (handle service s f).1 refl (handle-Answers service s f)
        (λ t. consume_all-EndsIn t error fs v.1)
    where
      -- What follows the first frame, by how it was handled.
      behind : (Agent W × Text) × Bool → Option (ℕ × Agent W)
      behind x =
          exit_view
            (if x.1 then consume_all (handle_frame service) x.0 (encode_all fs) else refused x.0)

      step :
          (x : (Agent W × Text) × Bool)
          → handle_frame service (s, error) f ≡ x
          → exit_view (consume_all (handle_frame service) (s, error) (encode_all (f ∷ fs)))
            ≡ behind x
      step x h =
          ap exit_view (
            consume_all-cut (handle_frame service) (s, error) (encode f ++ encode_all fs)
              (split_frame-encode f (encode_all fs) v.0))
          ∙ ap behind h

      go :
          (t : Agent W) (o : Option Text)
          → handle service s f ≡ (t, o)
          → Answers service s (t, o)
          → ((t : Agent W)
              → EndsIn t fs
                  (exit_view (consume_all (handle_frame service) (t, error) (encode_all fs))))
          → EndsIn s
              (f ∷ fs)
              (exit_view (consume_all (handle_frame service) (s, error) (encode_all (f ∷ fs))))
      go t none e a ih =
          let (code, u, r, session) = ih t in
          (
            code,
            u,
            step ((t, error), true) (accepted_frame s t error f e) ∙ r,
            answered f fs code s t u e a session,
          )
      go t (some message) e a ih = (
        2,
        send_error s message,
        step ((t, message), false) (refused_frame s t error message f e)
            ∙ ap (λ r. some (2, send_error r message)) a,
        rejected f fs s message (subst (λ r. handle service s f ≡ (r, some message)) a e),
      )

  -- The agent's run on frames of the current version, whose types have 16 bits and whose payloads
  -- are not above the limit, however the stream is cut into chunks: every frame is answered with one
  -- reply, in order, and the exit code is 0, unless a frame is refused; then the run ends there with
  -- 2, with one ERROR frame that gives the reason queued behind the replies and nothing else changed.
  pub run-Session :
      (s : Agent W) (fs : List Frame) (chunks : List Text)
      → All IsFrame fs
      → flatten chunks ≡ encode_all fs
      → (code : ℕ) × (u : Agent W) × (run service s chunks ≡ some (code, u)) × Session s fs code u
  unfolding run
  run-Session s fs chunks v e =
      let (code, u, r, session) = consume_all-EndsIn s [] fs v in
      (
        code,
        u,
        exit_of-view _
            ∙ ap exit_view (receive-empty (handle_frame service) (s, []) chunks)
            ∙ ap (λ t. exit_view (consume_all (handle_frame service) (s, []) t)) e
            ∙ r,
        session,
      )
