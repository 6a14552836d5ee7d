-- ===== src/Protocol/Writer.antt =====
-- class Writer: appends integers in network byte order, and texts with their length in front.
use efsw.Base.{ℕ, ◌/◌, ◌%◌, ◌^◌, [], ◌∷◌, ◌++◌, Text, length, ℤ, to_u32}
use efsw.Protocol.{protocol_version}

pub record Writer : Type 0 where
  pub bytes : Text

unfoldable pub empty : Writer
empty = record { bytes = [] }

unfoldable pub u8 : Writer → ℕ → Writer
u8 w value = record { bytes = w.bytes ++ (value % 2 ^ 8 ∷ []) }

unfoldable pub u16 : Writer → ℕ → Writer
u16 w value = record { bytes = w.bytes ++ (value / 2 ^ 8 % 2 ^ 8 ∷ value % 2 ^ 8 ∷ []) }

unfoldable pub u32 : Writer → ℕ → Writer
u32 w value = record {
  bytes =
      w.bytes
      ++ (value / 2 ^ 24 % 2 ^ 8
          ∷ value / 2 ^ 16 % 2 ^ 8
          ∷ value / 2 ^ 8 % 2 ^ 8
          ∷ value % 2 ^ 8
          ∷ []);
}

unfoldable pub i32 : Writer → ℤ → Writer
unfolding u32
i32 w value = u32 w (to_u32 value)

unfoldable pub str : Writer → Text → Writer
unfolding u32
str w value = let w' = u32 w (length value % 2 ^ 32) in record { bytes = w'.bytes ++ value }

unfoldable pub size : Writer → ℕ
size w = length w.bytes

-- The complete frame: header and payload.
unfoldable pub frame : Writer → ℕ → Text
frame w type =
    let n = length w.bytes % 2 ^ 32 in
    n / 2 ^ 24 % 2 ^ 8
    ∷ n / 2 ^ 16 % 2 ^ 8
    ∷ n / 2 ^ 8 % 2 ^ 8
    ∷ n % 2 ^ 8
    ∷ protocol_version / 2 ^ 8 % 2 ^ 8
    ∷ protocol_version % 2 ^ 8
    ∷ type / 2 ^ 8 % 2 ^ 8
    ∷ type % 2 ^ 8
    ∷ w.bytes
