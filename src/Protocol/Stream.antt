-- ===== src/Protocol/Stream.antt =====
-- The receive loop of Agent::run (src/agent/efsw-agent.cpp): feed each chunk that `read` returns,
-- take frames while `next` returns 1, and pass each to a handler. The handler is a parameter here;
-- `Agent` supplies the program's. Standard input is the list of chunks, and its end closes it.
use efsw.Base.{ℕ, zero, suc, Bool, true, false, List, [], ◌∷◌, Text}
use efsw.Protocol.{Frame}
use efsw.Protocol.FrameParser.{FrameParser, produced, need_more, malformed, next, feed, buffered}

-- How the loop stands: more input is wanted, the handler refused a frame, or the stream is
-- malformed. A handler returns its new state, and whether it accepts the frame.
pub data Status {ℓ} (S : Type ℓ) (P : Type 0) : Type ℓ where
  waiting : S → P → Status S P
  refused : S → Status S P
  broken : S → Status S P
  out_of_fuel : Status S P

module _ {ℓ} {S : Type ℓ} (handle : S → Frame → S × Bool) where
  -- while ( ( result = parser.next( frame, error ) ) == 1 )
  unfoldable pub drain : ℕ → S → FrameParser → Status S FrameParser
  drain zero s p = out_of_fuel
  drain (suc fuel) s p =
      let (o, p') = next p in
      elim o [
        | produced f ↦
            (let (s', accepted) = handle s f in
              elim accepted [ true ↦ drain fuel s' p' | false ↦ refused s' ])
        | need_more ↦ waiting s p'
        | malformed ↦ broken s
      ]

  -- The outer loop. Each frame takes bytes off the buffer, which bounds the rounds.
  unfoldable pub receive : S → FrameParser → List Text → Status S FrameParser
  receive s p [] = waiting s p
  receive s p (chunk ∷ chunks) =
      let q = feed p chunk in
      elim (drain (suc (buffered q)) s q) [
        | waiting s' p' ↦ receive s' p' chunks
        | refused s' ↦ refused s'
        | broken s' ↦ broken s'
        | out_of_fuel ↦ out_of_fuel
      ]
