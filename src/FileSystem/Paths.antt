-- ===== src/FileSystem/Paths.antt =====
-- Taking paths apart and putting them together.
use efsw.Base.{
  ℕ, zero, suc, ◌+◌, ◌-◌, ◌≡◌, ◌≢◌, refl, ap, ◌∙◌, ◌⊎◌, inl, inr, [], ◌∷◌, ◌++◌, Text, length,
  get_or, take, drop, arith, All, none, some, Option-cases, length-append, take-length_append, ◌==◌,
  if◌then◌else◌,
}
use efsw.FileSystem.{
  os_slash, last_byte, slash_at_end, dir_add_slash_at_end, dir_remove_slash_at_end, find_last_of,
  file_name_from_path, path_remove_file_name,
}

abbrev pub NoSlash : Text → Type 0
NoSlash = All (λ b. b ≢ os_slash)

pub get_or-length : (q s : Text) (x i : ℕ) → i ≡ length q → get_or (q ++ x ∷ s) i 0 ≡ x
get_or-length [] s x zero e = refl
get_or-length [] s x (suc i) e = absurd (omega arith)
get_or-length (a ∷ q) s x zero e = absurd (omega arith)
get_or-length (a ∷ q) s x (suc i) e = get_or-length q s x i (omega arith)

pub last_byte-snoc : (q : Text) (x : ℕ) → last_byte (q ++ x ∷ []) ≡ x
last_byte-snoc q x = get_or-length q [] x _ (omega (arith, length-append q (x ∷ [])))

-- A text is empty or has a last byte.
pub Snoc-cases : (t : Text) → (t ≡ []) ⊎ ((q : Text) × (x : ℕ) × (t ≡ q ++ x ∷ []))
Snoc-cases [] = inl refl
Snoc-cases (a ∷ t) = inr (go (Snoc-cases t))
  where
    go :
        (t ≡ []) ⊎ ((q : Text) × (x : ℕ) × (t ≡ q ++ x ∷ []))
        → (q : Text) × (x : ℕ) × (a ∷ t ≡ q ++ x ∷ [])
    go (inl e) = ([], a, ap (◌∷◌ a) e)
    go (inr (q, x, e)) = (a ∷ q, x, ap (◌∷◌ a) e)

pub slash_at_end-snoc : (q : Text) (x : ℕ) → slash_at_end (q ++ x ∷ []) ≡ (x == os_slash)
unfolding slash_at_end
slash_at_end-snoc q x = ground (arith, last_byte-snoc q x, length-append q (x ∷ []))

pub dir_add_slash_at_end-snoc :
    (q : Text) (x : ℕ)
    → dir_add_slash_at_end (q ++ x ∷ [])
      ≡ (if x == os_slash then q ++ x ∷ [] else (q ++ x ∷ []) ++ os_slash ∷ [])
unfolding dir_add_slash_at_end
dir_add_slash_at_end-snoc q x = ground (arith, last_byte-snoc q x, length-append q (x ∷ []))

take-snoc : (q : Text) (x : ℕ) → take (length (q ++ x ∷ []) - 1) (q ++ x ∷ []) ≡ q
take-snoc q x =
    ap (λ n. take n (q ++ x ∷ [])) (omega (arith, length-append q (x ∷ [])))
    ∙ take-length_append q (x ∷ [])

pub dir_remove_slash_at_end-snoc :
    (q : Text) (x : ℕ)
    → dir_remove_slash_at_end (q ++ x ∷ []) ≡ (if x == os_slash then q else q ++ x ∷ [])
unfolding dir_remove_slash_at_end
dir_remove_slash_at_end-snoc q x =
    ground (arith, last_byte-snoc q x, take-snoc q x, length-append q (x ∷ []))

find_last_of-NoSlash : (t : Text) → find_last_of os_slash t ≡ none → NoSlash t
unfolding find_last_of
find_last_of-NoSlash [] e = tt
find_last_of-NoSlash (x ∷ t) e = elim (Option-cases (find_last_of os_slash t)) [
  | inl q ↦ (ground (arith, q), find_last_of-NoSlash t q)
  | inr (i, q) ↦ absurd (ground (arith, q))
]

pub NoSlash-find_last_of : (t : Text) → NoSlash t → find_last_of os_slash t ≡ none
unfolding find_last_of
NoSlash-find_last_of [] h = refl
NoSlash-find_last_of (x ∷ t) h = ground (arith, NoSlash-find_last_of t h.1)

-- The last separator splits a path into a part that it ends and a part without one.
find_last_of-split :
    (t : Text) {i : ℕ}
    → find_last_of os_slash t ≡ some i
    → (p n : Text) × (t ≡ p ++ os_slash ∷ n) × (length p ≡ i) × NoSlash n
unfolding find_last_of
find_last_of-split [] e = cc
find_last_of-split (x ∷ t) {i} e = elim (Option-cases (find_last_of os_slash t)) [
  | inl q ↦ ([], t, ground (arith, q), ground (arith, q), find_last_of-NoSlash t q)
  | inr (k, q) ↦
      let (p, n, e', l, h) = find_last_of-split t q in
      (x ∷ p, n, ap (◌∷◌ x) e', ground (arith, q, l), h)
]

pub find_last_of-append :
    (p n : Text) → NoSlash n → find_last_of os_slash (p ++ os_slash ∷ n) ≡ some (length p)
unfolding find_last_of
find_last_of-append [] n h = ground (arith, NoSlash-find_last_of n h)
find_last_of-append (x ∷ p) n h = ground (arith, find_last_of-append p n h)

pub drop-after : (p n : Text) (k : ℕ) → k ≡ length p + 1 → drop k (p ++ os_slash ∷ n) ≡ n
drop-after p n zero e = absurd (omega arith)
drop-after [] n (suc zero) e = refl
drop-after [] n (suc (suc k)) e = absurd (omega arith)
drop-after (x ∷ p) n (suc k) e = drop-after p n k (omega arith)

pub take-after :
    (p n : Text) (k : ℕ) → k ≡ length p + 1 → take k (p ++ os_slash ∷ n) ≡ p ++ os_slash ∷ []
take-after p n zero e = absurd (omega arith)
take-after [] n (suc zero) e = refl
take-after [] n (suc (suc k)) e = absurd (omega arith)
take-after (x ∷ p) n (suc k) e = ap (◌∷◌ x) (take-after p n k (omega arith))

-- A path as the two functions see it: without its last separator, and cut at the one before.
pub data Cut (filepath : Text) : Type 0 where
  no_slash :
      NoSlash (dir_remove_slash_at_end filepath)
      → file_name_from_path filepath ≡ dir_remove_slash_at_end filepath
      → path_remove_file_name filepath ≡ dir_remove_slash_at_end filepath
      → Cut filepath
  at_slash :
      (p n : Text)
      → NoSlash n
      → dir_remove_slash_at_end filepath ≡ p ++ os_slash ∷ n
      → file_name_from_path filepath ≡ n
      → path_remove_file_name filepath ≡ p ++ os_slash ∷ []
      → Cut filepath

pub path-Cut : (filepath : Text) → Cut filepath
unfolding file_name_from_path path_remove_file_name
path-Cut f = elim (Option-cases (find_last_of os_slash (dir_remove_slash_at_end f))) [
  | inl e ↦ no_slash (find_last_of-NoSlash _ e) (ground (arith, e)) (ground (arith, e))
  | inr (i, e) ↦
      let (p, n, e', l, h) = find_last_of-split (dir_remove_slash_at_end f) e in
      let d : drop (i + 1) (p ++ os_slash ∷ n) ≡ n = drop-after p n (i + 1) (omega (arith, l)) in
      let t : take (i + 1) (p ++ os_slash ∷ n) ≡ p ++ os_slash ∷ [] =
        take-after p n (i + 1) (omega (arith, l)) in
      at_slash p n h e' (ground (arith, e, e', d)) (ground (arith, e, e', t))
]
