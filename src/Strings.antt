-- ===== src/Strings.antt =====
-- The helpers of src/efsw/String.cpp that the watchers use on std::string: `strStartsWith` and
-- `split`.
pub mod Laws
use efsw.Base.{
  ℕ, ◌+◌, Bool, ◌||◌, List, [], ◌∷◌, ◌++◌, Text, length, ltb, leb, ◌==◌, if◌then◌else◌, ℤ, pos,
  negsuc,
}

-- -1
abbrev pub not_found : ℤ
not_found = negsuc 0

-- The loop over `start`, with the index and the value of `pos` so far.
starts_loop : Text → Text → ℕ → ℤ → ℤ
starts_loop [] str i p = p
starts_loop (a ∷ start) [] i p = not_found
starts_loop (a ∷ start) (b ∷ str) i p =
    let rest = starts_loop start str (i + 1) (pos i) in if a == b then rest else not_found

unfoldable pub str_starts_with : Text → Text → ℤ
unfolding starts_loop
str_starts_with start str =
    if leb (length start) (length str) then starts_loop start str 0 not_found else not_found

-- The two overloads of `split` have the same text; `Text` stands for both kinds of string.
-- The loop over `str`, with the pieces and the piece that is being read.
split_loop : ℕ → Bool → Text → List Text → Text → List Text
split_loop c push_empty [] tmp tmpstr = if ltb 0 (length tmpstr) then tmp ++ tmpstr ∷ [] else tmp
split_loop c push_empty (b ∷ str) tmp tmpstr =
    let kept = split_loop c push_empty str tmp tmpstr in
    let pushed = split_loop c push_empty str (tmp ++ tmpstr ∷ []) [] in
    let grown = split_loop c push_empty str tmp (tmpstr ++ b ∷ []) in
    if b == c then (if push_empty || ltb 0 (length tmpstr) then pushed else kept) else grown

unfoldable pub split : Text → ℕ → Bool → List Text
unfolding split_loop
split str splitchar push_empty = split_loop splitchar push_empty str [] []
