-- ===== src/Protocol/Cut.antt =====
-- Laws of `split_frame`: frames that `Writer` made, bytes that arrive later, and what a cut leaves.
use efsw.Base.{
  ℕ, ◌+◌, ◌*◌, ◌/◌, ◌%◌, ◌^◌, ◌≤◌, ◌<◌, ◌≡◌, Text, ◌∷◌, ◌++◌, length, arith, length-append,
  length-drop, take-append, drop-append, take-length_append, drop-length_append,
}
use efsw.Protocol.{Frame, max_payload_size, protocol_version}
use efsw.Protocol.Writer
use efsw.Protocol.Split.{cut, bad, split_frame}

-- The bytes of a frame as `Writer::frame` lays them out.
unfoldable pub encode : Frame → Text
unfolding Writer.frame
encode f = Writer.frame (record { bytes = f.payload }) f.type

-- A frame that the writer can make and the parser accepts.
pub record IsFrame (f : Frame) : Type 0 where
  pub current : f.version ≡ protocol_version
  pub short_type : f.type < 2 ^ 16
  pub bounded : length f.payload ≤ max_payload_size

frame_size :
    (n : ℕ)
    → n ≤ max_payload_size
    → n % 2 ^ 32 / 2 ^ 24 % 2 ^ 8 * 2 ^ 24
        + n % 2 ^ 32 / 2 ^ 16 % 2 ^ 8 * 2 ^ 16
        + n % 2 ^ 32 / 2 ^ 8 % 2 ^ 8 * 2 ^ 8
        + n % 2 ^ 32 % 2 ^ 8
      ≡ n
frame_size n h = omega arith

pub split_frame-encode : (f : Frame) (u : Text) → IsFrame f → split_frame (encode f ++ u) ≡ cut f u
unfolding split_frame encode
split_frame-encode f u v = rw (frame_size (length f.payload) v.bounded) (
    ground (
      arith,
      take-length_append f.payload u,
      drop-length_append f.payload u,
      length-append f.payload u,
      v,
    ))

pub split_frame-shrinks :
    (t : Text) {f : Frame} {r : Text} → split_frame t ≡ cut f r → length r < length t
unfolding split_frame
split_frame-shrinks (a ∷ b ∷ c ∷ d ∷ e ∷ f ∷ g ∷ h ∷ rest) q =
    ground (arith, length-drop (a * 2 ^ 24 + b * 2 ^ 16 + c * 2 ^ 8 + d) rest)
split_frame-shrinks _ q = cc

pub split_frame-append :
    (t u : Text) {f : Frame} {r : Text}
    → split_frame t ≡ cut f r
    → split_frame (t ++ u) ≡ cut f (r ++ u)
unfolding split_frame
split_frame-append (a ∷ b ∷ c ∷ d ∷ e ∷ f ∷ g ∷ h ∷ rest) u q =
    let size = a * 2 ^ 24 + b * 2 ^ 16 + c * 2 ^ 8 + d in
    ground (arith, length-append rest u, take-append size rest u, drop-append size rest u)
split_frame-append _ u q = cc

pub split_frame-append_bad : (t u : Text) → split_frame t ≡ bad → split_frame (t ++ u) ≡ bad
unfolding split_frame
split_frame-append_bad (a ∷ b ∷ c ∷ d ∷ e ∷ f ∷ g ∷ h ∷ rest) u q = ground arith
split_frame-append_bad _ u q = cc
