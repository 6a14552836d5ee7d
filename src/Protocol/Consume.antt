-- ===== src/Protocol/Consume.antt =====
-- The receive loop on bytes alone: what it does as a function of the bytes that are pending.
use efsw.Base.{
  ℕ, zero, suc, ◌<◌, ◌≡◌, ◌≢◌, if◌then◌else◌, Bool, true, false, ◌++◌, Text, length, arith,
}
use efsw.Protocol.{Frame}
use efsw.Protocol.Split.{cut, more, bad, is_cut, is_more, is_bad, Split-Cases, split_frame}
use efsw.Protocol.Cut.{split_frame-shrinks, split_frame-append, split_frame-append_bad}
use efsw.Protocol.Stream.{Status, waiting, refused, broken, out_of_fuel}

module _ {ℓ} {S : Type ℓ} (handle : S → Frame → S × Bool) where
  -- The inner loop on bytes.
  unfoldable pub consume : ℕ → S → Text → Status S Text
  consume zero s t = out_of_fuel
  consume (suc fuel) s t = elim (split_frame t) [
    | cut f rest ↦
        (let (s', accepted) = handle s f in
          elim accepted [ true ↦ consume fuel s' rest | false ↦ refused s' ])
    | more ↦ waiting s t
    | bad ↦ broken s
  ]

  -- The loop with enough fuel.
  unfoldable pub consume_all : S → Text → Status S Text
  unfolding consume
  consume_all s t = consume (suc (length t)) s t

  -- More fuel than bytes changes nothing.
  pub consume-fuel :
      (m n : ℕ) (s : S) (t : Text) → length t < m → length t < n → consume m s t ≡ consume n s t
  unfolding consume
  consume-fuel zero n s t h k = absurd (omega arith)
  consume-fuel (suc m) zero s t h k = absurd (omega arith)
  consume-fuel (suc m) (suc n) s t h k = elim (Split-Cases (split_frame t)) [
    | is_cut f r e ↦
        rw (e, consume) (ground (arith, split_frame-shrinks t e, consume-fuel m n (handle s f).0 r))
    | is_more e ↦ rw (e, consume)
    | is_bad e ↦ rw (e, consume)
  ]

  pub consume_all-cut :
      (s : S) (t : Text) {f : Frame} {r : Text}
      → split_frame t ≡ cut f r
      → consume_all s t
        ≡ (if (handle s f).1 then consume_all (handle s f).0 r else refused (handle s f).0)
  unfolding consume_all
  consume_all-cut s t {f} {r} e =
      rw (e, consume)
        (ground (
          arith,
          split_frame-shrinks t e,
          consume-fuel (length t) (suc (length r)) (handle s f).0 r,
        ))

  pub consume_all-more : (s : S) (t : Text) → split_frame t ≡ more → consume_all s t ≡ waiting s t
  unfolding consume_all
  consume_all-more s t e = rw (e, consume)

  pub consume_all-bad : (s : S) (t : Text) → split_frame t ≡ bad → consume_all s t ≡ broken s
  unfolding consume_all
  consume_all-bad s t e = rw (e, consume)

  -- What the loop does with more bytes after a stop.
  abbrev pub resume : Status S Text → Text → Status S Text
  resume (waiting s t) u = consume_all s (t ++ u)
  resume (refused s) u = refused s
  resume (broken s) u = broken s
  resume out_of_fuel u = out_of_fuel

  -- Bytes that come later continue the loop where it stopped.
  pub resume-consume_all :
      (n : ℕ) (s : S) (t u : Text)
      → length t < n
      → resume (consume_all s t) u ≡ consume_all s (t ++ u)
  resume-consume_all zero s t u h = absurd (omega arith)
  resume-consume_all (suc n) s t u h = elim (Split-Cases (split_frame t)) [
    | is_cut f r e ↦
        rw (consume_all-cut s t e, consume_all-cut s (t ++ u) (split_frame-append t u e))
          (ground (arith, split_frame-shrinks t e, resume-consume_all n (handle s f).0 r u))
    | is_more e ↦ rw (consume_all-more s t e)
    | is_bad e ↦
        rw (consume_all-bad s t e, consume_all-bad s (t ++ u) (split_frame-append_bad t u e))
  ]

  pub consume-cut :
      (n : ℕ) (s : S) (t r : Text) (f : Frame)
      → split_frame t ≡ cut f r
      → consume (suc n) s t
        ≡ (if (handle s f).1 then consume n (handle s f).0 r else refused (handle s f).0)
  unfolding consume
  consume-cut n s t r f e = ground arith

  -- The loop stops for input only where no whole frame is left.
  pub consume_all-waiting :
      (n : ℕ) (s : S) (t : Text) {s' : S} {t' : Text}
      → length t < n
      → consume_all s t ≡ waiting s' t'
      → split_frame t' ≡ more
  consume_all-waiting zero s t h e = absurd (omega arith)
  consume_all-waiting (suc n) s t {s'} {t'} h e = elim (Split-Cases (split_frame t)) [
    | is_cut f r c ↦ ground (
      arith,
      split_frame-shrinks t c,
      consume_all-cut s t c,
      consume_all-waiting n (handle s f).0 r {s' = s'} {t' = t'},
    )
    | is_more c ↦ ground (arith, consume_all-more s t c)
    | is_bad c ↦ cc (consume_all-bad s t c)
  ]

  pub consume_all-ne-out_of_fuel :
      (n : ℕ) (s : S) (t : Text) → length t < n → consume_all s t ≢ out_of_fuel
  consume_all-ne-out_of_fuel zero s t h e = absurd (omega arith)
  consume_all-ne-out_of_fuel (suc n) s t h e = elim (Split-Cases (split_frame t)) [
    | is_cut f r c ↦ ground (
      arith,
      split_frame-shrinks t c,
      consume_all-cut s t c,
      consume_all-ne-out_of_fuel n (handle s f).0 r,
    )
    | is_more c ↦ cc (consume_all-more s t c)
    | is_bad c ↦ cc (consume_all-bad s t c)
  ]
