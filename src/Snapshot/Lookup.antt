-- ===== src/Snapshot/Lookup.antt =====
-- The sorted list of files as a map from paths: lookup, insertion and removal by binary search.
use efsw.Base.{
  ◌≡◌, refl, ap, subst, ◌∙◌, inl, inr, true, false, List, [], ◌∷◌, Text, text_eq, text_eq_iff,
  text_lt, text_lt_irrefl, text_lt_trans, text_lt-eq, text_eq-sym, less, same, greater,
  text-Compared, if◌then◌else◌, none, some, Bool-cases, All, arith, All-map,
}
use efsw.FileInfo.{FileInfo}
use efsw.FileInfo.Sorting.{Sorted}
use efsw.Snapshot.{lower_bound, at_path, find_file, put_at, erase_at}

unfoldable pub put : Text → FileInfo → List FileInfo → List FileInfo
put p x fs = put_at p x (lower_bound fs p)

unfoldable pub erase : Text → List FileInfo → List FileInfo
erase p fs = erase_at p (lower_bound fs p)

pub find_file-cons :
    (f : FileInfo) (fs : List FileInfo) (p : Text)
    → find_file (f ∷ fs) p ≡ (if text_lt f.filepath p then find_file fs p else at_path p (f ∷ fs))
unfolding find_file lower_bound
find_file-cons f fs p = ground arith

put-cons :
    (p : Text) (x f : FileInfo) (fs : List FileInfo)
    → put p x (f ∷ fs) ≡ (
        if text_lt f.filepath p
        then f ∷ put p x fs
        else if text_eq f.filepath p
        then x ∷ fs
        else x ∷ f ∷ fs)
unfolding put lower_bound
put-cons p x f fs = ground arith

erase-cons :
    (p : Text) (f : FileInfo) (fs : List FileInfo)
    → erase p (f ∷ fs) ≡ (
        if text_lt f.filepath p
        then f ∷ erase p fs
        else if text_eq f.filepath p
        then fs
        else f ∷ fs)
unfolding erase lower_bound
erase-cons p f fs = ground arith

-- Below the first path there is nothing to find.
find_file_below :
    (fs : List FileInfo) (p : Text)
    → All (λ g. text_lt p g.filepath ≡ true) fs
    → find_file fs p ≡ none
unfolding find_file lower_bound
find_file_below [] p a = refl
find_file_below (f ∷ fs) p a =
    let e = text_lt-eq p f.filepath a.0 in
    let e' : text_eq f.filepath p ≡ false = text_eq-sym f.filepath p ∙ e in
    let ne : text_lt f.filepath p ≡ false = not_both p f.filepath a.0 in
    rw (find_file-cons f fs p, ne, e')
  where
    not_both : (s t : Text) → text_lt s t ≡ true → text_lt t s ≡ false
    not_both s t h = elim (Bool-cases (text_lt t s)) [
      | inl k ↦ absurd (cc (text_lt_trans s t s h k, text_lt_irrefl s))
      | inr k ↦ k
    ]

put-nil : (p : Text) (x : FileInfo) → put p x [] ≡ x ∷ []
unfolding put lower_bound
put-nil p x = refl

erase-nil : (p : Text) → erase p [] ≡ []
unfolding erase lower_bound
erase-nil p = refl

find_file-nil : (q : Text) → find_file [] q ≡ none
unfolding find_file lower_bound
find_file-nil q = refl

-- A path above one that is equal to another is above that one.
pub lt-of_eq : (s t u : Text) → text_lt s t ≡ true → text_eq t u ≡ true → text_lt s u ≡ true
lt-of_eq s t u h k = rw (← (text_eq_iff t u).0 k) h

All-below :
    (p : Text) (f : FileInfo) (fs : List FileInfo)
    → text_lt p f.filepath ≡ true
    → Sorted (f ∷ fs)
    → All (λ g. text_lt p g.filepath ≡ true) (f ∷ fs)
All-below p f fs h s = (h, All-map fs (λ g k. text_lt_trans p f.filepath g.filepath h k) s.0)

-- A single file.
find_file_one :
    (x : FileInfo) (q : Text)
    → find_file (x ∷ []) q ≡ (if text_eq x.filepath q then some x else none)
find_file_one x q = ground (arith, find_file-cons x [] q, find_file-nil q, text_lt-eq x.filepath q)

put_here :
    (x f : FileInfo) (fs : List FileInfo) (q : Text)
    → text_lt x.filepath f.filepath ≡ true
    → Sorted (f ∷ fs)
    → find_file (x ∷ f ∷ fs) q ≡ (if text_eq x.filepath q then some x else find_file (f ∷ fs) q)
put_here x f fs q h s = elim (text-Compared x.filepath q) [
  | less a b c ↦ ground (arith, find_file-cons x (f ∷ fs) q)
  | same a b c ↦ ground (arith, find_file-cons x (f ∷ fs) q)
  | greater a b c ↦
      let above = All-below q f fs (text_lt_trans q x.filepath f.filepath c h) s in
      ground (arith, find_file-cons x (f ∷ fs) q, find_file_below (f ∷ fs) q above)
]

put_over :
    (x f : FileInfo) (fs : List FileInfo) (q : Text)
    → f.filepath ≡ x.filepath
    → find_file (x ∷ fs) q ≡ (if text_eq x.filepath q then some x else find_file (f ∷ fs) q)
put_over x f fs q e = ground (
  arith,
  find_file-cons x fs q,
  find_file-cons f fs q,
  ap (λ t. text_lt t q) e,
  ap (λ t. text_eq t q) e,
  text_lt-eq x.filepath q,
)

-- Insertion into a sorted list: the new file is found at its path, and every other path finds what
-- it found before.
pub find_file-put :
    (x : FileInfo) (q : Text) (fs : List FileInfo)
    → Sorted fs
    → find_file (put x.filepath x fs) q ≡ (if text_eq x.filepath q then some x else find_file fs q)
find_file-put x q [] s = rw (put-nil x.filepath x, find_file-nil q) (find_file_one x q)
find_file-put x q (f ∷ fs) s = elim (text-Compared f.filepath x.filepath) [
  | less a b c ↦ ground (
    arith,
    put-cons x.filepath x f fs,
    find_file-cons f (put x.filepath x fs) q,
    find_file-cons f fs q,
    find_file-put x q fs s.1,
    lt-of_eq f.filepath x.filepath q a,
  )
  | same a b c ↦ ground (arith, put-cons x.filepath x f fs, put_over x f fs q a)
  | greater a b c ↦ ground (arith, put-cons x.filepath x f fs, put_here x f fs q c s)
]

pub put-All :
    (P : FileInfo → Type 0) (p : Text) (x : FileInfo) (fs : List FileInfo)
    → P x
    → All P fs
    → All P (put p x fs)
put-All P p x [] px a = rw (put-nil p x) (px, tt)
put-All P p x (f ∷ fs) px a = elim (text-Compared f.filepath p) [
  | less h k l ↦ rw (put-cons p x f fs, h) (a.0, put-All P p x fs px a.1)
  | same h k l ↦ rw (put-cons p x f fs, k, l) (px, a.1)
  | greater h k l ↦ rw (put-cons p x f fs, h, k) (px, a)
]

pub put-Sorted : (x : FileInfo) (fs : List FileInfo) → Sorted fs → Sorted (put x.filepath x fs)
put-Sorted x [] s = rw (put-nil x.filepath x) (tt, tt)
put-Sorted x (f ∷ fs) s = elim (text-Compared f.filepath x.filepath) [
  | less h k l ↦
      rw (put-cons x.filepath x f fs, h)
        (
          put-All (λ g. text_lt f.filepath g.filepath ≡ true) x.filepath x fs h s.0,
          put-Sorted x fs s.1,
        )
  | same h k l ↦ rw (put-cons x.filepath x f fs, k, l) (All-map fs (λ g q. rw (← h) q) s.0, s.1)
  | greater h k l ↦ rw (put-cons x.filepath x f fs, h, k) (All-below x.filepath f fs l s, s)
]

pub erase-All :
    (P : FileInfo → Type 0) (p : Text) (fs : List FileInfo) → All P fs → All P (erase p fs)
erase-All P p [] a = rw (erase-nil p) tt
erase-All P p (f ∷ fs) a = elim (text-Compared f.filepath p) [
  | less h k l ↦ rw (erase-cons p f fs, h) (a.0, erase-All P p fs a.1)
  | same h k l ↦ rw (erase-cons p f fs, k, l) (a.1)
  | greater h k l ↦ rw (erase-cons p f fs, h, k) a
]

pub erase-Sorted : (p : Text) (fs : List FileInfo) → Sorted fs → Sorted (erase p fs)
erase-Sorted p [] s = rw (erase-nil p) tt
erase-Sorted p (f ∷ fs) s = elim (text-Compared f.filepath p) [
  | less h k l ↦
      rw (erase-cons p f fs, h)
        (erase-All (λ g. text_lt f.filepath g.filepath ≡ true) p fs s.0, erase-Sorted p fs s.1)
  | same h k l ↦ rw (erase-cons p f fs, k, l) (s.1)
  | greater h k l ↦ rw (erase-cons p f fs, h, k) s
]

pub erase_here :
    (f : FileInfo) (fs : List FileInfo) (q : Text)
    → Sorted (f ∷ fs)
    → find_file fs q ≡ (if text_eq f.filepath q then none else find_file (f ∷ fs) q)
erase_here f fs q s = elim (text-Compared f.filepath q) [
  | less a b c ↦ ground (arith, find_file-cons f fs q)
  | same a b c ↦
      let gone = find_file_below fs f.filepath s.0 in
      ground (arith, subst (λ t. find_file fs t ≡ none) a gone)
  | greater a b c ↦
      ground (arith, find_file-cons f fs q, find_file_below fs q (All-below q f fs c s).1)
]

-- Removal from a sorted list: the path finds nothing, every other path what it found before.
pub find_file-erase :
    (p q : Text) (fs : List FileInfo)
    → Sorted fs
    → find_file (erase p fs) q ≡ (if text_eq p q then none else find_file fs q)
find_file-erase p q [] s = rw (erase-nil p, find_file-nil q) (ground arith)
find_file-erase p q (f ∷ fs) s = elim (text-Compared f.filepath p) [
  | less a b c ↦ ground (
    arith,
    erase-cons p f fs,
    find_file-cons f (erase p fs) q,
    find_file-cons f fs q,
    find_file-erase p q fs s.1,
    lt-of_eq f.filepath p q a,
  )
  | same a b c ↦ ground (arith, erase-cons p f fs, erase_here f fs q s, ap (λ t. text_eq t q) a)
  | greater a b c ↦
      let gone = find_file_below (f ∷ fs) p (All-below p f fs c s) in
      ground (
        arith,
        erase-cons p f fs,
        λ (k : text_eq p q ≡ true).
            subst (λ t. find_file (f ∷ fs) t ≡ none) ((text_eq_iff p q).0 k) gone,
      )
]
