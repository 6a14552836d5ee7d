-- ===== src/Protocol/Chunks.antt =====
-- The receive loop over input that is cut into chunks.
use mathlib.Core.List.{flatten}
use efsw.Base.{
  ℕ, zero, suc, ◌≡◌, refl, sym, ap, ◌∙◌, ◌≢◌, if◌then◌else◌, Bool, true, List, [], ◌∷◌, ◌++◌, Text,
  length, arith, append-nil, append_assoc, length-append, length-drop, drop, drop-append, All,
}
use efsw.Protocol.{Frame}
use efsw.Protocol.FrameParser
use efsw.Protocol.FrameParser.{FrameParser, produced, need_more, malformed, next, feed, buffered}
use efsw.Protocol.Split.{
  more, split_frame, pending, IsValid, step_cut, step_more, step_bad, next-Steps,
}
use efsw.Protocol.Cut.{IsFrame, encode, split_frame-encode}
use efsw.Protocol.Consume.{
  consume, consume_all, resume, consume_all-cut, consume_all-more, resume-consume_all, consume-cut,
  consume_all-waiting, consume_all-ne-out_of_fuel,
}
use efsw.Protocol.Stream.{Status, waiting, refused, broken, out_of_fuel, drain, receive}

-- A stop of the parser's loop, with the pending bytes in place of the parser.
unfoldable pub view {ℓ} : {S : Type ℓ} → Status S FrameParser → Status S Text
view (waiting s p) = waiting s (pending p)
view (refused s) = refused s
view (broken s) = broken s
view out_of_fuel = out_of_fuel

abbrev Keeps {ℓ} : {S : Type ℓ} → Status S FrameParser → Type 0
Keeps (waiting s p) = IsValid p
Keeps _ = Unit

module _ {ℓ} {S : Type ℓ} (handle : S → Frame → S × Bool) where
  drain-cut :
      (n : ℕ) (s : S) (p q : FrameParser) (f : Frame)
      → next p ≡ (produced f, q)
      → drain handle (suc n) s p
        ≡ (if (handle s f).1 then drain handle n (handle s f).0 q else refused (handle s f).0)
  unfolding drain
  drain-cut n s p q f e = ground arith

  drain-more :
      (n : ℕ) (s : S) (p q : FrameParser)
      → next p ≡ (need_more, q)
      → drain handle (suc n) s p ≡ waiting s q
  unfolding drain
  drain-more n s p q e = ground arith

  drain-bad :
      (n : ℕ) (s : S) (p : FrameParser)
      → next p ≡ (malformed, p)
      → drain handle (suc n) s p ≡ broken s
  unfolding drain
  drain-bad n s p e = ground arith

  drain-consume :
      (n : ℕ) (s : S) (p : FrameParser)
      → IsValid p
      → (view (drain handle n s p) ≡ consume handle n s (pending p)) × Keeps (drain handle n s p)
  unfolding drain consume view
  drain-consume zero s p v = (refl, tt)
  drain-consume (suc n) s p v = elim (next-Steps p v) [
    | step_cut f q e e' w ↦
        rw (drain-cut n s p q f e, consume-cut handle n s (pending p) (pending q) f e')
          (ground (arith, drain-consume n (handle s f).0 q w))
    | step_more q e e' k w ↦ rw (drain-more n s p q e, e', consume) (ap (waiting s) k, w)
    | step_bad e e' ↦ rw (drain-bad n s p e, e', consume) (refl, tt)
  ]

  feed-pending :
      (p : FrameParser) (c : Text)
      → IsValid p
      → (pending (feed p c) ≡ pending p ++ c)
        × IsValid (feed p c)
        × (buffered (feed p c) ≡ length (pending p ++ c))
  unfolding feed pending buffered
  feed-pending p c v = (
    drop-append p.offset p.buffer c v,
    omega (arith, length-append p.buffer c),
    omega (
      arith,
      length-append p.buffer c,
      length-append (drop p.offset p.buffer) c,
      length-drop p.offset p.buffer,
    ),
  )

  -- The rest of `receive` after the first chunk, by how the inner loop stopped.
  after-drain :
      (d : Status S FrameParser) (s : S) (t : Text) (cs : List Text)
      → view d ≡ consume_all handle s t
      → Keeps d
      → ((s' : S) (p' : FrameParser)
          → d ≡ waiting s' p'
          → consume_all handle s t ≡ waiting s' (pending p')
          → IsValid p'
          → view (receive handle s' p' cs) ≡ consume_all handle s' (pending p' ++ flatten cs))
      → view (elim d [
        | waiting s' p' ↦ receive handle s' p' cs
        | refused s' ↦ refused s'
        | broken s' ↦ broken s'
        | out_of_fuel ↦ out_of_fuel
      ])
        ≡ consume_all handle s (t ++ flatten cs)
  unfolding view
  after-drain (waiting s' p') s t cs e k ih =
      ih s' p' refl (sym e) k
      ∙ ap (λ d. resume handle d (flatten cs)) e
      ∙ resume-consume_all handle (suc (length t)) s t (flatten cs) (omega arith)
  after-drain (refused s') s t cs e k ih =
      ap (λ d. resume handle d (flatten cs)) e
      ∙ resume-consume_all handle (suc (length t)) s t (flatten cs) (omega arith)
  after-drain (broken s') s t cs e k ih =
      ap (λ d. resume handle d (flatten cs)) e
      ∙ resume-consume_all handle (suc (length t)) s t (flatten cs) (omega arith)
  after-drain out_of_fuel s t cs e k ih =
      ap (λ d. resume handle d (flatten cs)) e
      ∙ resume-consume_all handle (suc (length t)) s t (flatten cs) (omega arith)

  receive-consume :
      (s : S) (p : FrameParser) (chunks : List Text)
      → IsValid p
      → split_frame (pending p) ≡ more
      → view (receive handle s p chunks) ≡ consume_all handle s (pending p ++ flatten chunks)
  unfolding receive view flatten consume_all
  receive-consume s p [] v m =
      rw (append-nil (pending p)) (sym (consume_all-more handle s (pending p) m))
  receive-consume s p (c ∷ cs) v m =
      let q = feed p c in
      let fed = feed-pending p c v in
      let d = drain handle (suc (buffered q)) s q in
      let run = drain-consume (suc (buffered q)) s q fed.1 in
      let seen : view d ≡ consume_all handle s (pending p ++ c) =
        run.0
        ∙ ap (λ n. consume handle (suc n) s (pending q)) fed.2
        ∙ ap (λ t. consume handle (suc (length (pending p ++ c))) s t) fed.0 in
      after-drain d s (pending p ++ c) cs seen run.1 (λ s' p' e w k. receive-consume s' p' cs k (
        consume_all-waiting handle (suc (length (pending p ++ c))) s (pending p ++ c) (omega arith)
          w))
      ∙ ap (consume_all handle s) (append_assoc (pending p) c (flatten cs))

  pub receive-empty :
      (s : S) (chunks : List Text)
      → view (receive handle s FrameParser.empty chunks) ≡ consume_all handle s (flatten chunks)
  unfolding FrameParser.empty pending split_frame
  receive-empty s chunks = receive-consume s FrameParser.empty chunks (omega arith) refl

  -- However the input is cut into chunks, for every handler and every bytes, well formed or not:
  -- the loop ends in the same handler state, for the same reason, with the same bytes pending, as
  -- when everything arrives in one chunk.
  pub receive-flatten :
      (s : S) (chunks : List Text)
      → view (receive handle s FrameParser.empty chunks)
        ≡ view (receive handle s FrameParser.empty (flatten chunks ∷ []))
  unfolding flatten
  receive-flatten s chunks =
      receive-empty s chunks
      ∙ ap (consume_all handle s) (sym (append-nil (flatten chunks)))
      ∙ sym (receive-empty s (flatten chunks ∷ []))

  -- The rounds that the model allows the inner loop are always enough.
  pub receive_total :
      (s : S) (chunks : List Text) → receive handle s FrameParser.empty chunks ≢ out_of_fuel
  unfolding view
  receive_total s chunks e =
      consume_all-ne-out_of_fuel handle (suc (length (flatten chunks))) s (flatten chunks)
        (omega arith) (sym (receive-empty s chunks) ∙ ap view e)

abbrev pub encode_all : List Frame → Text
encode_all [] = []
encode_all (f ∷ fs) = encode f ++ encode_all fs

-- A client that keeps every frame.
unfoldable pub collect : List Frame → Frame → List Frame × Bool
collect fs f = (fs ++ f ∷ [], true)

consume_all-encode_all :
    (gs fs : List Frame)
    → All IsFrame fs
    → consume_all collect gs (encode_all fs) ≡ waiting (gs ++ fs) []
unfolding collect split_frame
consume_all-encode_all gs [] v =
    consume_all-more collect gs [] refl ∙ ap (λ hs. waiting hs []) (sym (append-nil gs))
consume_all-encode_all gs (f ∷ fs) v =
    consume_all-cut collect gs (encode f ++ encode_all fs)
      (split_frame-encode f (encode_all fs) v.0)
    ∙ consume_all-encode_all (gs ++ f ∷ []) fs v.1
    ∙ ap (λ hs. waiting hs []) (append_assoc gs (f ∷ []) fs)

-- Frames of the current version, whose types have 16 bits and whose payloads are not above the
-- limit, come back whole and in order from the bytes that the writer lays out, with nothing left
-- over, however the stream is cut into chunks: also in the middle of a header.
pub receive-encode_all :
    (fs : List Frame) (chunks : List Text)
    → All IsFrame fs
    → flatten chunks ≡ encode_all fs
    → view (receive collect [] FrameParser.empty chunks) ≡ waiting fs []
receive-encode_all fs chunks v e =
    receive-empty collect [] chunks ∙ ap (consume_all collect []) e ∙ consume_all-encode_all [] fs v
