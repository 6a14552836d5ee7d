-- ===== src/Strings/Laws.antt =====
-- What `strStartsWith` and `split` compute.
use efsw.Base.{
  ℕ, ◌+◌, ◌-◌, ◌<◌, ◌≡◌, ◌≢◌, ◌↔◌, refl, sym, ap, ◌∙◌, false, List, [], ◌∷◌, ◌++◌, append-nil,
  append_assoc, Text, length, All, take, drop, ltb, if◌then◌else◌, arith, ℤ, pos, length-append,
  take-append-drop,
}
use efsw.Strings.{not_found, starts_loop, str_starts_with, split_loop, split}

-- The loop ends with the index of the last byte of `start`, or at the first byte that differs.
starts_loop_prefix :
    (start str : Text) (i : ℕ) (p : ℤ)
    → starts_loop start (start ++ str) i p
      ≡ (if ltb 0 (length start) then pos (i + length start - 1) else p)
unfolding starts_loop
starts_loop_prefix [] str i p = refl
starts_loop_prefix (a ∷ start) str i p =
    ground (arith, starts_loop_prefix start str (i + 1) (pos i))

starts_loop_found :
    (start str : Text) (i : ℕ) (p : ℤ)
    → starts_loop start str i p ≢ not_found
    → take (length start) str ≡ start
unfolding starts_loop
starts_loop_found [] str i p h = refl
starts_loop_found (a ∷ start) [] i p h = absurd (h refl)
starts_loop_found (a ∷ start) (b ∷ str) i p h =
    ground (arith, starts_loop_found start str (i + 1) (pos i))

-- The result is the index of the last byte of `start` where `start` is a prefix that is not empty.
str_starts_with-append :
    (start str : Text) → start ≢ [] → str_starts_with start (start ++ str) ≡ pos (length start - 1)
unfolding str_starts_with
str_starts_with-append [] str h = absurd (h refl)
str_starts_with-append (a ∷ start) str h =
    ground (arith, starts_loop_prefix (a ∷ start) str 0 not_found, length-append start str)

str_starts_with_nil : (str : Text) → ¬ (str_starts_with [] str ≢ not_found)
unfolding str_starts_with
str_starts_with_nil str h = ground arith

str_starts_with_found :
    (start str : Text) → str_starts_with start str ≢ not_found → take (length start) str ≡ start
unfolding str_starts_with
str_starts_with_found start str h = ground (arith, starts_loop_found start str 0 not_found)

-- `strStartsWith` finds a text exactly when it is not empty and a prefix of the other.
pub str_starts_with_iff :
    (start str : Text)
    → (str_starts_with start str ≢ not_found)
      ↔ ((start ≢ []) × ((rest : Text) × (str ≡ start ++ rest)))
str_starts_with_iff start str = (to start, λ h. from h.0 h.1.0 h.1.1)
  where
    to :
        (start : Text)
        → str_starts_with start str ≢ not_found
        → (start ≢ []) × ((rest : Text) × (str ≡ start ++ rest))
    to [] h = absurd (str_starts_with_nil str h)
    to (a ∷ start) h = (
      λ e. cc,
      (
        drop (length (a ∷ start)) str,
        sym (take-append-drop (length (a ∷ start)) str)
            ∙ ap (λ t. t ++ drop (length (a ∷ start)) str)
                (str_starts_with_found (a ∷ start) str h),
      ),
    )

    from : start ≢ [] → (rest : Text) → str ≡ start ++ rest → str_starts_with start str ≢ not_found
    from h rest e q =
        cc (sym (ap (str_starts_with start) e ∙ str_starts_with-append start rest h) ∙ q)

-- The path /p/q/ with the pieces p and q.
abbrev pub enclose : ℕ → List Text → Text
enclose c [] = c ∷ []
enclose c (p ∷ ps) = c ∷ (p ++ enclose c ps)

-- A piece of a path: not empty, and without the separator.
abbrev pub IsPiece : ℕ → Text → Type 0
IsPiece c p = (0 < length p) × All (λ b. b ≢ c) p

split_loop-append :
    (c : ℕ) (p s : Text) (tmp : List Text) (cur : Text)
    → All (λ b. b ≢ c) p
    → split_loop c false (p ++ s) tmp cur ≡ split_loop c false s tmp (cur ++ p)
unfolding split_loop
split_loop-append c [] s tmp cur h = ap (split_loop c false s tmp) (sym (append-nil cur))
split_loop-append c (b ∷ p) s tmp cur h =
    ground (arith, h, split_loop-append c p s tmp (cur ++ b ∷ []) h.1, append_assoc cur (b ∷ []) p)

abbrev flush : List Text → Text → List Text
flush tmp cur = if ltb 0 (length cur) then tmp ++ cur ∷ [] else tmp

split_loop-step :
    (c : ℕ) (s : Text) (tmp : List Text) (cur : Text)
    → split_loop c false (c ∷ s) tmp cur ≡ split_loop c false s (flush tmp cur) []
unfolding split_loop
split_loop-step c s tmp [] = ground arith
split_loop-step c s tmp (b ∷ cur) = ground arith

flush-append :
    (tmp : List Text) (p : Text) (ps : List Text) → 0 < length p → flush tmp p ++ ps ≡ tmp ++ p ∷ ps
flush-append tmp p ps h = ground (arith, append_assoc tmp (p ∷ []) ps)

split_loop-enclose :
    (c : ℕ) (ps : List Text) (tmp : List Text) (cur : Text)
    → All (IsPiece c) ps
    → split_loop c false (enclose c ps) tmp cur ≡ flush tmp cur ++ ps
unfolding split_loop
split_loop-enclose c [] tmp cur h = split_loop-step c [] tmp cur ∙ sym (append-nil (flush tmp cur))
split_loop-enclose c (p ∷ ps) tmp cur h =
    split_loop-step c (p ++ enclose c ps) tmp cur
    ∙ split_loop-append c p (enclose c ps) (flush tmp cur) [] h.0.1
    ∙ split_loop-enclose c ps (flush tmp cur) p h.1
    ∙ flush-append (flush tmp cur) p ps h.0.0

-- `split` without empty pieces gives the pieces of a path back, where none is empty or holds the
-- separator.
pub split-enclose :
    (c : ℕ) (ps : List Text) → All (IsPiece c) ps → split (enclose c ps) c false ≡ ps
unfolding split
split-enclose c ps h = split_loop-enclose c ps [] [] h
