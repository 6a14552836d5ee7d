-- ===== src/Base/Order.antt =====
-- The order of texts: what sorting and binary search by path rest on.
use mathlib.Core.Path.{◌≡◌, refl}
use mathlib.Core.Bool.{Bool, true, false}
use mathlib.Core.List.{[], ◌∷◌}
use native.Mathlib.Omega.{arith}
use efsw.Base.Bytes.{Text, text_lt, text_eq, text_eq_iff}

pub text_lt_irrefl : (s : Text) → text_lt s s ≡ false
unfolding text_lt
text_lt_irrefl [] = refl
text_lt_irrefl (a ∷ s) = ground (arith, text_lt_irrefl s)

pub text_lt_trans : (s t u : Text) → text_lt s t ≡ true → text_lt t u ≡ true → text_lt s u ≡ true
unfolding text_lt
text_lt_trans [] t [] p q = ground (arith, text_lt_nil t)
  where
    text_lt_nil : (t : Text) → text_lt t [] ≡ false
    text_lt_nil [] = refl
    text_lt_nil (a ∷ t) = refl
text_lt_trans [] t (c ∷ u) p q = refl
text_lt_trans (a ∷ s) [] u p q = cc
text_lt_trans (a ∷ s) (b ∷ t) [] p q = cc
text_lt_trans (a ∷ s) (b ∷ t) (c ∷ u) p q = ground (arith, text_lt_trans s t u)

pub text_lt-eq : (s t : Text) → text_lt s t ≡ true → text_eq s t ≡ false
unfolding text_lt text_eq
text_lt-eq [] [] p = cc
text_lt-eq [] (b ∷ t) p = refl
text_lt-eq (a ∷ s) [] p = cc
text_lt-eq (a ∷ s) (b ∷ t) p = ground (arith, text_lt-eq s t)

-- Two texts that are not equal are ordered one way or the other.
pub text_lt-total : (s t : Text) → text_lt s t ≡ false → text_eq s t ≡ false → text_lt t s ≡ true
unfolding text_lt text_eq
text_lt-total [] [] p q = cc
text_lt-total [] (b ∷ t) p q = cc
text_lt-total (a ∷ s) [] p q = refl
text_lt-total (a ∷ s) (b ∷ t) p q = ground (arith, text_lt-total s t)

pub text_eq_refl : (s : Text) → text_eq s s ≡ true
unfolding text_eq
text_eq_refl [] = refl
text_eq_refl (a ∷ s) = ground (arith, text_eq_refl s)

pub text_eq-sym : (s t : Text) → text_eq s t ≡ text_eq t s
unfolding text_eq
text_eq-sym [] [] = refl
text_eq-sym [] (b ∷ t) = refl
text_eq-sym (a ∷ s) [] = refl
text_eq-sym (a ∷ s) (b ∷ t) = ground (arith, text_eq-sym s t)

-- How two texts compare, with what each case says of the tests.
pub data Compared (s t : Text) : Type 0 where
  less : text_lt s t ≡ true → text_eq s t ≡ false → text_lt t s ≡ false → Compared s t
  same : s ≡ t → text_lt s t ≡ false → text_eq s t ≡ true → Compared s t
  greater : text_lt s t ≡ false → text_eq s t ≡ false → text_lt t s ≡ true → Compared s t

pub text_lt-asym : (s t : Text) → text_lt s t ≡ true → text_lt t s ≡ false
text_lt-asym s t h = go (text_lt t s) refl
  where
    go : (b : Bool) → text_lt t s ≡ b → text_lt t s ≡ false
    go true k = cc (text_lt_trans s t s h k, text_lt_irrefl s)
    go false k = k

pub text-Compared : (s t : Text) → Compared s t
text-Compared s t = go (text_lt s t) (text_eq s t) refl refl
  where
    go : (b c : Bool) → text_lt s t ≡ b → text_eq s t ≡ c → Compared s t
    go true c h k = less h (text_lt-eq s t h) (text_lt-asym s t h)
    go false true h k = same ((text_eq_iff s t).0 k) h k
    go false false h k = greater h k (text_lt-total s t h k)
