-- ===== src/Protocol/FrameParser.antt =====
-- class FrameParser: the incremental decoder of a byte stream into frames. As in `Reader`, disjoint
-- bits are joined by addition.
use efsw.Base.{
  ℕ, ◌+◌, ◌-◌, ◌*◌, ◌^◌, Text, [], ◌++◌, length, get_or, take, drop, ltb, if◌then◌else◌,
}
use efsw.Protocol.{Frame, max_payload_size, header_size}

pub record FrameParser : Type 0 where
  pub buffer : Text
  pub offset : ℕ

unfoldable pub empty : FrameParser
empty = record { buffer = []; offset = 0 }

unfoldable pub feed : FrameParser → Text → FrameParser
feed p bytes = record p { buffer = p.buffer ++ bytes }

-- What `next` returns: 1 with a frame, 0 or -1.
pub data Outcome : Type 0 where
  produced : Frame → Outcome
  need_more : Outcome
  malformed : Outcome

unfoldable pub compact : FrameParser → FrameParser
compact p = if ltb 0 p.offset then record { buffer = drop p.offset p.buffer; offset = 0 } else p

-- p[i] of the source.
abbrev byte_at : FrameParser → ℕ → ℕ
byte_at p i = get_or p.buffer (p.offset + i) 0

unfoldable pub next : FrameParser → Outcome × FrameParser
unfolding compact
next p =
    let available = length p.buffer - p.offset in
    let size = byte_at p 0 * 2 ^ 24 + byte_at p 1 * 2 ^ 16 + byte_at p 2 * 2 ^ 8 + byte_at p 3 in
    if ltb available header_size
    then (need_more, compact p)
    else if ltb max_payload_size size
    then (malformed, p)
    else if ltb available (header_size + size)
    then (need_more, compact p)
    else (
      produced (record {
        version = byte_at p 4 * 2 ^ 8 + byte_at p 5;
        type = byte_at p 6 * 2 ^ 8 + byte_at p 7;
        payload = take size (drop (p.offset + header_size) p.buffer);
      }),
      record p { offset = p.offset + (header_size + size) },
    )

unfoldable pub buffered : FrameParser → ℕ
buffered p = length p.buffer - p.offset
