-- ===== src/Protocol/Payload.antt =====
-- The bytes of a payload, field by field.
use efsw.Base.{
  ℕ, ◌+◌, ◌*◌, ◌/◌, ◌%◌, ◌^◌, ◌<◌, ◌≡◌, refl, sym, ap, ◌∙◌, List, [], ◌∷◌, ◌++◌, append-nil,
  append_assoc, Text, length, arith, length-append, take-append, drop-append, take-length_append,
  drop-length_append, some, ℤ, to_u32, to_i32-to_u32,
}
use efsw.Protocol.Writer
use efsw.Protocol.Writer.{Writer}
use efsw.Protocol.Fields.{
  Kind, a_byte, a_half, a_word, an_int, a_text, Field, byte, half, word, int, text, kind, InRange,
  write_field, write_all,
}
use efsw.Protocol.ReadBack.{parse_field}

-- The bytes of one field.
unfoldable pub field_bytes : Field → Text
unfolding write_field
field_bytes f = (write_field Writer.empty f).bytes

write_field-bytes : (w : Writer) (f : Field) → (write_field w f).bytes ≡ w.bytes ++ field_bytes f
unfolding field_bytes write_field Writer.empty
write_field-bytes w (byte n) = refl
write_field-bytes w (half n) = refl
write_field-bytes w (word n) = refl
write_field-bytes w (int z) = refl
write_field-bytes w (text t) = append_assoc w.bytes _ t

unfoldable pub payload : List Field → Text
payload [] = []
payload (f ∷ fs) = field_bytes f ++ payload fs

pub write_all-bytes :
    (w : Writer) (fs : List Field) → (write_all w fs).bytes ≡ w.bytes ++ payload fs
unfolding write_all payload
write_all-bytes w [] = sym (append-nil w.bytes)
write_all-bytes w (f ∷ fs) =
    write_all-bytes (write_field w f) fs
    ∙ ap (λ t. t ++ payload fs) (write_field-bytes w f)
    ∙ append_assoc w.bytes (field_bytes f) (payload fs)

-- A word in four bytes and back.
word_back :
    (n : ℕ)
    → n < 2 ^ 32
    → n / 2 ^ 24 % 2 ^ 8 * 2 ^ 24
        + n / 2 ^ 16 % 2 ^ 8 * 2 ^ 16
        + n / 2 ^ 8 % 2 ^ 8 * 2 ^ 8
        + n % 2 ^ 8
      ≡ n
word_back n h = omega arith

to_u32-lt : (z : ℤ) → to_u32 z < 2 ^ 32
to_u32-lt (ℤ.pos n) = omega arith
to_u32-lt (ℤ.negsuc n) = omega arith

pub parse_field-field_bytes :
    (f : Field) (s : Text) → InRange f → parse_field (kind f) (field_bytes f ++ s) ≡ some (f, s)
unfolding parse_field field_bytes write_field Writer.empty
parse_field-field_bytes (byte n) s h = ground arith
parse_field-field_bytes (half n) s h = ground arith
parse_field-field_bytes (word n) s h = rw (word_back n h)
parse_field-field_bytes (int z) s h = rw (word_back (to_u32 z) (to_u32-lt z), to_i32-to_u32 z h)
parse_field-field_bytes (text t) s h = ground (
  arith,
  word_back (length t % 2 ^ 32),
  take-length_append t s,
  drop-length_append t s,
  length-append t s,
)

pub parse_field-append :
    (k : Kind) (s u : Text) {f : Field} {r : Text}
    → parse_field k s ≡ some (f, r)
    → parse_field k (s ++ u) ≡ some (f, r ++ u)
unfolding parse_field
parse_field-append a_byte (a ∷ s) u e = ground arith
parse_field-append a_byte _ u e = cc
parse_field-append a_half (a ∷ b ∷ s) u e = ground arith
parse_field-append a_half _ u e = cc
parse_field-append a_word (a ∷ b ∷ c ∷ d ∷ s) u e = ground arith
parse_field-append a_word _ u e = cc
parse_field-append an_int (a ∷ b ∷ c ∷ d ∷ s) u e = ground arith
parse_field-append an_int _ u e = cc
parse_field-append a_text (a ∷ b ∷ c ∷ d ∷ s) u e =
    let n = a * 2 ^ 24 + b * 2 ^ 16 + c * 2 ^ 8 + d in
    ground (arith, length-append s u, take-append n s u, drop-append n s u)
parse_field-append a_text _ u e = cc
