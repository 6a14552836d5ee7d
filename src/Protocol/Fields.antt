-- ===== src/Protocol/Fields.antt =====
-- Payloads as sequences of fields: what a client or the agent writes and reads field by field.
use efsw.Base.{ℕ, ◌<◌, ◌^◌, List, [], ◌∷◌, Text, length, ℤ, pos, IsInt32}
use efsw.Protocol.Writer
use efsw.Protocol.Writer.{Writer}
use efsw.Protocol.Reader
use efsw.Protocol.Reader.{Reader}

pub data Kind : Type 0 where
  a_byte a_half a_word an_int a_text : Kind

pub data Field : Type 0 where
  byte : ℕ → Field
  half : ℕ → Field
  word : ℕ → Field
  int : ℤ → Field
  text : Text → Field

abbrev pub kind : Field → Kind
kind (byte n) = a_byte
kind (half n) = a_half
kind (word n) = a_word
kind (int z) = an_int
kind (text t) = a_text

-- The values that the C++ types of the fields can hold.
abbrev pub InRange : Field → Type 0
InRange (byte n) = n < 2 ^ 8
InRange (half n) = n < 2 ^ 16
InRange (word n) = n < 2 ^ 32
InRange (int z) = IsInt32 z
InRange (text t) = length t < 2 ^ 32

-- What an overrun yields.
abbrev pub zero_field : Kind → Field
zero_field a_byte = byte 0
zero_field a_half = half 0
zero_field a_word = word 0
zero_field an_int = int (pos 0)
zero_field a_text = text []

unfoldable pub write_field : Writer → Field → Writer
unfolding Writer.u8 Writer.u16 Writer.u32 Writer.i32 Writer.str
write_field w (byte n) = Writer.u8 w n
write_field w (half n) = Writer.u16 w n
write_field w (word n) = Writer.u32 w n
write_field w (int z) = Writer.i32 w z
write_field w (text t) = Writer.str w t

unfoldable pub write_all : Writer → List Field → Writer
unfolding write_field
write_all w [] = w
write_all w (f ∷ fs) = write_all (write_field w f) fs

unfoldable pub read_field : Kind → Reader → Field × Reader
unfolding Reader.u8 Reader.u16 Reader.u32 Reader.i32 Reader.str
read_field a_byte r = let (n, r') = Reader.u8 r in (byte n, r')
read_field a_half r = let (n, r') = Reader.u16 r in (half n, r')
read_field a_word r = let (n, r') = Reader.u32 r in (word n, r')
read_field an_int r = let (z, r') = Reader.i32 r in (int z, r')
read_field a_text r = let (t, r') = Reader.str r in (text t, r')

unfoldable pub read_all : List Kind → Reader → List Field × Reader
unfolding read_field
read_all [] r = ([], r)
read_all (k ∷ ks) r =
    let (f, r') = read_field k r in let (fs, r'') = read_all ks r' in (f ∷ fs, r'')
