-- ===== src/Protocol/Split.antt =====
-- What `FrameParser::next` computes, as a function of the bytes that are still pending: the
-- position, the buffer and its compaction are forgotten.
use efsw.Base.{
  ℕ, ◌+◌, ◌*◌, ◌^◌, ◌≤◌, ◌≡◌, refl, sym, ap, ◌∙◌, Text, ◌∷◌, length, get_or, take, drop, ltb,
  if◌then◌else◌, arith, length-drop, drop-drop, get_or-drop,
}
use efsw.Protocol.{Frame, max_payload_size, header_size}
use efsw.Protocol.FrameParser.{FrameParser, Outcome, produced, need_more, malformed, next, compact}

pub data Split : Type 0 where
  cut : Frame → Text → Split
  more : Split
  bad : Split

-- To split on a computed split and keep the equation.
pub data Cases (c : Split) : Type 0 where
  is_cut : (f : Frame) (rest : Text) → c ≡ cut f rest → Cases c
  is_more : c ≡ more → Cases c
  is_bad : c ≡ bad → Cases c

pub Split-Cases : (c : Split) → Cases c
Split-Cases (cut f rest) = is_cut f rest refl
Split-Cases more = is_more refl
Split-Cases bad = is_bad refl

-- The first frame of the pending bytes and what follows it.
unfoldable pub split_frame : Text → Split
split_frame (a ∷ b ∷ c ∷ d ∷ e ∷ f ∷ g ∷ h ∷ rest) =
    let size = a * 2 ^ 24 + b * 2 ^ 16 + c * 2 ^ 8 + d in
    if ltb max_payload_size size
    then bad
    else if ltb (length rest) size
    then more
    else cut (record { version = e * 2 ^ 8 + f; type = g * 2 ^ 8 + h; payload = take size rest })
        (drop size rest)
split_frame _ = more

unfoldable pub pending : FrameParser → Text
pending p = drop p.offset p.buffer

abbrev pub IsValid : FrameParser → Type 0
IsValid p = p.offset ≤ length p.buffer

-- What `next` owes for each split of its pending bytes.
abbrev pub Agrees : FrameParser → Split → Outcome × FrameParser → Type 0
Agrees p (cut f rest) (o, q) = (o ≡ produced f) × (pending q ≡ rest) × IsValid q
Agrees p more (o, q) = (o ≡ need_more) × (pending q ≡ pending p) × IsValid q
Agrees p bad (o, q) = (o ≡ malformed) × (q ≡ p)

compact-pending : (p : FrameParser) → pending (compact p) ≡ pending p
unfolding compact pending
compact-pending p = ground arith

compact-IsValid : (p : FrameParser) → IsValid p → IsValid (compact p)
unfolding compact
compact-IsValid p v = ground arith

-- `next` with the pending bytes in place of buffer and offset.
view_next : FrameParser → Text → Outcome × FrameParser
view_next p s =
    let size =
      get_or s 0 0 * 2 ^ 24 + get_or s 1 0 * 2 ^ 16 + get_or s 2 0 * 2 ^ 8 + get_or s 3 0 in
    if ltb (length s) header_size
    then (need_more, compact p)
    else if ltb max_payload_size size
    then (malformed, p)
    else if ltb (length s) (header_size + size)
    then (need_more, compact p)
    else (
      produced (record {
        version = get_or s 4 0 * 2 ^ 8 + get_or s 5 0;
        type = get_or s 6 0 * 2 ^ 8 + get_or s 7 0;
        payload = take size (drop header_size s);
      }),
      record p { offset = p.offset + (header_size + size) },
    )

next-view : (p : FrameParser) → next p ≡ view_next p (pending p)
unfolding next view_next pending
next-view p = rw (
  length-drop p.offset p.buffer,
  get_or-drop p.offset 0 (p.offset + 0) p.buffer 0 refl,
  get_or-drop p.offset 1 (p.offset + 1) p.buffer 0 refl,
  get_or-drop p.offset 2 (p.offset + 2) p.buffer 0 refl,
  get_or-drop p.offset 3 (p.offset + 3) p.buffer 0 refl,
  get_or-drop p.offset 4 (p.offset + 4) p.buffer 0 refl,
  get_or-drop p.offset 5 (p.offset + 5) p.buffer 0 refl,
  get_or-drop p.offset 6 (p.offset + 6) p.buffer 0 refl,
  get_or-drop p.offset 7 (p.offset + 7) p.buffer 0 refl,
  drop-drop p.offset header_size (p.offset + header_size) p.buffer refl,
)

module _ (p : FrameParser) (a b c d e f g h : ℕ) (rest : Text) where
  drop-suffix :
      pending p ≡ a ∷ b ∷ c ∷ d ∷ e ∷ f ∷ g ∷ h ∷ rest
      → (size : ℕ)
      → pending (record p { offset = p.offset + (header_size + size) }) ≡ drop size rest
  unfolding pending
  drop-suffix q size =
      sym (drop-drop p.offset (8 + size) (p.offset + (8 + size)) p.buffer refl)
      ∙ ap (drop (8 + size)) q
      ∙ sym (drop-drop 8 size (8 + size) (a ∷ b ∷ c ∷ d ∷ e ∷ f ∷ g ∷ h ∷ rest) refl)

  length-suffix :
      IsValid p
      → pending p ≡ a ∷ b ∷ c ∷ d ∷ e ∷ f ∷ g ∷ h ∷ rest
      → p.offset + 8 + length rest ≡ length p.buffer
  unfolding pending
  length-suffix v q = omega (arith, ap length q, length-drop p.offset p.buffer)

view_next-Agrees :
    (p : FrameParser) (s : Text)
    → IsValid p
    → pending p ≡ s
    → Agrees p (split_frame s) (view_next p s)
unfolding view_next split_frame
view_next-Agrees p (a ∷ b ∷ c ∷ d ∷ e ∷ f ∷ g ∷ h ∷ rest) v q =
    let size = a * 2 ^ 24 + b * 2 ^ 16 + c * 2 ^ 8 + d in
    ground (
      arith,
      compact-pending p,
      compact-IsValid p v,
      drop-suffix p a b c d e f g h rest q size,
      length-suffix p a b c d e f g h rest v q,
    )
view_next-Agrees p _ v q = (refl, compact-pending p, compact-IsValid p v)

-- Where the offset lies within the buffer, `next` splits the pending bytes as `split_frame` does:
-- it produces the same frame and leaves the bytes after it, or waits and leaves the pending bytes
-- as they were, or reports a malformed stream and changes nothing.
pub next-Agrees : (p : FrameParser) → IsValid p → Agrees p (split_frame (pending p)) (next p)
next-Agrees p v = rw next-view (view_next-Agrees p (pending p) v refl)

-- The three ways a call of `next` ends, with what each says of the pending bytes.
pub data Steps (p : FrameParser) : Type 0 where
  step_cut :
      (f : Frame) (q : FrameParser)
      → next p ≡ (produced f, q)
      → split_frame (pending p) ≡ cut f (pending q)
      → IsValid q
      → Steps p
  step_more :
      (q : FrameParser)
      → next p ≡ (need_more, q)
      → split_frame (pending p) ≡ more
      → pending q ≡ pending p
      → IsValid q
      → Steps p
  step_bad : next p ≡ (malformed, p) → split_frame (pending p) ≡ bad → Steps p

pub next-Steps : (p : FrameParser) → IsValid p → Steps p
next-Steps p v = go (split_frame (pending p)) refl (next-Agrees p v)
  where
    go : (c : Split) → split_frame (pending p) ≡ c → Agrees p c (next p) → Steps p
    go (cut f r) e a = step_cut f (next p).1 (cc (a.0)) (cc (a.1)) a.2
    go more e a = step_more (next p).1 (cc (a.0)) e a.1 a.2
    go bad e a = step_bad (cc (a.0, a.1)) e
