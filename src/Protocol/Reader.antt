-- ===== src/Protocol/Reader.antt =====
-- class Reader: reads a payload by position and stops at the first overrun. The bytes of a word are
-- joined by `|` in the source; since they occupy disjoint bits, the model adds them.
use efsw.Base.{
  ℕ, ◌+◌, ◌-◌, ◌*◌, ◌^◌, Bool, true, false, not, ◌||◌, [], Text, length, get_or, take, drop, ltb,
  ◌==◌, if◌then◌else◌, ℤ, to_i32,
}

pub record Reader : Type 0 where
  pub bytes : Text
  pub pos : ℕ
  pub ok : Bool

unfoldable pub reader : Text → Reader
reader bytes = record { bytes = bytes; pos = 0; ok = true }

unfoldable pub at_end : Reader → Bool
at_end r = r.pos == length r.bytes

unfoldable pub need : Reader → ℕ → Bool × Reader
need r count =
    if not r.ok || ltb (length r.bytes - r.pos) count
    then (false, record r { ok = false })
    else (true, r)

-- mData[mPos + i]
abbrev byte_at : Reader → ℕ → ℕ
byte_at r i = get_or r.bytes (r.pos + i) 0

unfoldable pub u8 : Reader → ℕ × Reader
unfolding need
u8 r =
    let (enough, r') = need r 1 in
    if enough then (byte_at r' 0, record r' { pos = r'.pos + 1 }) else (0, r')

unfoldable pub u16 : Reader → ℕ × Reader
unfolding need
u16 r =
    let (enough, r') = need r 2 in
    if enough
    then (byte_at r' 0 * 2 ^ 8 + byte_at r' 1, record r' { pos = r'.pos + 2 })
    else (0, r')

unfoldable pub u32 : Reader → ℕ × Reader
unfolding need
u32 r =
    let (enough, r') = need r 4 in
    if enough
    then (
      byte_at r' 0 * 2 ^ 24 + byte_at r' 1 * 2 ^ 16 + byte_at r' 2 * 2 ^ 8 + byte_at r' 3,
      record r' { pos = r'.pos + 4 },
    )
    else (0, r')

unfoldable pub i32 : Reader → ℤ × Reader
unfolding u32
i32 r = let (value, r') = u32 r in (to_i32 value, r')

unfoldable pub str : Reader → Text × Reader
unfolding u32
str r =
    let (n, r₁) = u32 r in
    if not r₁.ok
    then ([], r₁)
    else (let (enough, r₂) = need r₁ n in
        if enough
        then (take n (drop r₂.pos r₂.bytes), record r₂ { pos = r₂.pos + n })
        else ([], r₂))
