-- ===== src/Agent/Batches.antt =====
-- The batches of events that Agent::writerLoop writes.
use efsw.Base.{
  ℕ, zero, suc, ◌≤◌, ◌<◌, ◌^◌, ◌≡◌, refl, ap, ◌∙◌, List, [], ◌∷◌, ◌++◌, length, length-drop, take,
  drop, take-append-drop, All, arith, map, true,
}
use efsw.Protocol.Writer
use efsw.Protocol.Writer.{Writer}
use efsw.Protocol.Reader.{reader, at_end}
use efsw.Protocol.Fields.{Field, byte, word, text, kind, InRange, write_all, write_field, read_all}
use efsw.Protocol.RoundTrip.{read_all-write_all}
use efsw.Agent.{WatchEventRecord}
use efsw.Agent.Writing.{write_records, batch, ranges}

-- The ranges of a list, one after another.
abbrev pub joined : List (List WatchEventRecord) → List WatchEventRecord
joined [] = []
joined (r ∷ rs) = r ++ joined rs

abbrev pub FitsFrame : List WatchEventRecord → Type 0
FitsFrame rs = (0 < length rs) × (length rs ≤ 4096)

length-take_le : (n : ℕ) (rs : List WatchEventRecord) → length (take n rs) ≤ n
length-take_le zero rs = omega arith
length-take_le (suc n) [] = omega arith
length-take_le (suc n) (r ∷ rs) = omega (arith, length-take_le n rs)

ranges-joined :
    (fuel : ℕ) (rs : List WatchEventRecord) → length rs ≤ fuel → joined (ranges fuel rs) ≡ rs
unfolding ranges
ranges-joined zero [] h = refl
ranges-joined zero (r ∷ rs) h = absurd (omega arith)
ranges-joined (suc fuel) [] h = refl
ranges-joined (suc fuel) (r ∷ rs) h =
    let left = drop 4096 (r ∷ rs) in
    let shorter : length left ≤ fuel = omega (arith, h, length-drop 4096 (r ∷ rs)) in
    ap (◌++◌ (take 4096 (r ∷ rs))) (ranges-joined fuel left shorter)
    ∙ take-append-drop 4096 (r ∷ rs)

ranges-FitsFrame : (fuel : ℕ) (rs : List WatchEventRecord) → All FitsFrame (ranges fuel rs)
unfolding ranges
ranges-FitsFrame zero rs = tt
ranges-FitsFrame (suc fuel) [] = tt
ranges-FitsFrame (suc fuel) (r ∷ rs) =
    ((omega arith, length-take_le 4096 (r ∷ rs)), ranges-FitsFrame fuel (drop 4096 (r ∷ rs)))

-- The pending events of a watch are cut into non-empty ranges of at most 4096 records which, one
-- after another, are the pending events in their order: none is lost, repeated or moved, and the
-- rounds that the model allows are enough.
ranges_lem :
    (rs : List WatchEventRecord)
    → (joined (ranges (length rs) rs) ≡ rs) × All FitsFrame (ranges (length rs) rs)
ranges_lem rs = (ranges-joined (length rs) rs (omega arith), ranges-FitsFrame (length rs) rs)

-- The fields that the protocol lists for EVENT_BATCH.
abbrev pub record_fields : List WatchEventRecord → List Field
record_fields [] = []
record_fields (r ∷ rs) = byte r.action ∷ text r.path ∷ text r.old_path ∷ record_fields rs

abbrev pub batch_fields : ℕ → List WatchEventRecord → List Field
batch_fields id rs = word id ∷ word (length rs) ∷ record_fields rs

-- What the C++ types of a record can hold.
abbrev pub IsRecord : WatchEventRecord → Type 0
IsRecord r = (r.action < 2 ^ 8) × (length r.path < 2 ^ 32) × (length r.old_path < 2 ^ 32)

record_fields-InRange :
    (rs : List WatchEventRecord) → All IsRecord rs → All InRange (record_fields rs)
record_fields-InRange [] a = tt
record_fields-InRange (r ∷ rs) ((x, y, z), a) = (x, (y, (z, record_fields-InRange rs a)))

write_records-write_all :
    (w : Writer) (rs : List WatchEventRecord) → write_records w rs ≡ write_all w (record_fields rs)
unfolding write_records write_all write_field
write_records-write_all w [] = refl
write_records-write_all w (r ∷ rs) =
    write_records-write_all (Writer.str (Writer.str (Writer.u8 w r.action) r.path) r.old_path) rs

batch-write_all :
    (id : ℕ) (rs : List WatchEventRecord)
    → batch id rs ≡ write_all Writer.empty (batch_fields id rs)
unfolding batch write_all write_field
batch-write_all id rs =
    write_records-write_all (Writer.u32 (Writer.u32 Writer.empty id) (length rs)) rs

-- Where the fields are in the range of their C++ types, a client that reads the payload of an
-- EVENT_BATCH frame as the protocol lays it out (the watch, the number of records, then action,
-- path and old path of each) gets exactly the records that were batched, with no overrun and
-- nothing left over.
pub batch-read_all :
    (id : ℕ) (rs : List WatchEventRecord)
    → id < 2 ^ 32
    → length rs < 2 ^ 32
    → All IsRecord rs
    → let (fs, r) = read_all (map kind (batch_fields id rs)) (reader (batch id rs).bytes) in
      (fs ≡ batch_fields id rs) × (r.ok ≡ true) × (at_end r ≡ true)
batch-read_all id rs hi hn a =
    rw (batch-write_all id rs)
      (read_all-write_all (batch_fields id rs) (hi, (hn, record_fields-InRange rs a)))
