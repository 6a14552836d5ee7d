-- ===== src/Protocol/Tests.antt =====
-- The theorems about the wire protocol at concrete bytes: a PING frame that arrives in two pieces,
-- cut in the middle of its header.
use mathlib.Core.List.{flatten}
use efsw.Base.{
  ◌≡◌, refl, ◌≤◌, ◌<◌, true, false, List, [], ◌∷◌, map, Text, codes, length, take, All, arith,
}
use efsw.Protocol.{Frame}
use efsw.Protocol.Writer
use efsw.Protocol.Reader.{Reader, reader, at_end}
use efsw.Protocol.FrameParser
use efsw.Protocol.FrameParser.{FrameParser, next}
use efsw.Protocol.Fields.{
  a_word, a_text, Field, word, text, byte, kind, InRange, write_all, read_all,
}
use efsw.Protocol.RoundTrip.{read_all-write_all, read_all_truncated, read_all_bounds}
use efsw.Protocol.Split
use efsw.Protocol.Split.{pending, split_frame, next-Agrees}
use efsw.Protocol.Cut.{IsFrame, encode}
use efsw.Protocol.Stream.{receive, waiting}
use efsw.Protocol.Chunks.{view, collect, encode_all, receive-flatten, receive-encode_all}

abbrev ping : Frame
ping = record { version = 1; type = 10; payload = 0 ∷ 0 ∷ 1 ∷ 44 ∷ [] }

ping-IsFrame : IsFrame ping
ping-IsFrame = record { current = refl; short_type = omega arith; bounded = omega arith }

abbrev two_chunks : List Text
two_chunks = (0 ∷ 0 ∷ 0 ∷ []) ∷ (4 ∷ 0 ∷ 1 ∷ 0 ∷ 10 ∷ 0 ∷ 0 ∷ 1 ∷ 44 ∷ []) ∷ []

two_chunks-encode_all : flatten two_chunks ≡ encode_all (ping ∷ [])
unfolding encode Writer.frame flatten
two_chunks-encode_all = refl

receive-flatten_example :
    view (receive collect [] FrameParser.empty two_chunks)
    ≡ view (receive collect [] FrameParser.empty (flatten two_chunks ∷ []))
receive-flatten_example = receive-flatten collect [] two_chunks

receive-encode_all_example :
    view (receive collect [] FrameParser.empty two_chunks) ≡ waiting (ping ∷ []) []
receive-encode_all_example =
    receive-encode_all (ping ∷ []) two_chunks (ping-IsFrame, tt) two_chunks-encode_all

abbrev parser : FrameParser
parser = record { buffer = 9 ∷ 0 ∷ 0 ∷ 0 ∷ 4 ∷ 0 ∷ 1 ∷ 0 ∷ 10 ∷ 0 ∷ 0 ∷ 1 ∷ 44 ∷ []; offset = 1 }

next-Agrees_example : Split.Agrees parser (split_frame (pending parser)) (next parser)
next-Agrees_example = next-Agrees parser (omega arith)

abbrev watch_fields : List Field
watch_fields = word 5 ∷ text (codes "/tmp") ∷ byte 9 ∷ word 0 ∷ []

watch_fields-InRange : All InRange watch_fields
watch_fields-InRange = (omega arith, (omega arith, (omega arith, (omega arith, tt))))

read_all-write_all_example :
    ((read_all (map kind watch_fields) (reader (write_all Writer.empty watch_fields).bytes)).0
      ≡ watch_fields)
    × ((read_all (map kind watch_fields) (reader (write_all Writer.empty watch_fields).bytes)).1.ok
        ≡ true)
    × (at_end
          (read_all (map kind watch_fields) (reader (write_all Writer.empty watch_fields).bytes)).1
        ≡ true)
read_all-write_all_example = read_all-write_all watch_fields watch_fields-InRange

short : 6 < length (write_all Writer.empty watch_fields).bytes
unfolding write_all Writer.empty
short = omega arith

read_all_truncated_example :
    (read_all
      (map kind watch_fields)
      (reader (take 6 (write_all Writer.empty watch_fields).bytes))).1.ok
    ≡ false
read_all_truncated_example = read_all_truncated watch_fields 6 watch_fields-InRange short

abbrev five_bytes : Text
five_bytes = 0 ∷ 0 ∷ 0 ∷ 1 ∷ 255 ∷ []

read_all_bounds_example :
    (read_all (a_word ∷ a_text ∷ []) (reader five_bytes)).1.pos ≤ length five_bytes
read_all_bounds_example = read_all_bounds (a_word ∷ a_text ∷ []) five_bytes

abbrev failed : Reader
failed = record { bytes = 0 ∷ 0 ∷ 0 ∷ 1 ∷ []; pos = 0; ok = false }

abbrev one_text : Reader
one_text = record { bytes = 0 ∷ 0 ∷ 0 ∷ 1 ∷ 65 ∷ []; pos = 0; ok = true }
