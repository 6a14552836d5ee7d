-- ===== src/Inotify/Overlap/Order.antt =====
-- isDirectoryInside as an order of directories.
use efsw.Base.{
  ◌≡◌, ◌≢◌, ◌↔◌, refl, sym, ap, subst, ◌∙◌, inl, inr, true, false, ◌&&◌, [], ◌∷◌, ◌++◌,
  append_assoc, Text, text_eq, text_eq_iff, length, take, drop, ltb, ◌<◌, Bool-cases, arith,
  length-append, take-length_append, take-append-drop,
}
use efsw.FileSystem.{slash_at_end}
use efsw.Inotify.Overlap.{is_directory_inside}

-- For a directory that ends in a separator, the test is for a proper prefix.
inside_slash :
    (child parent : Text)
    → slash_at_end parent ≡ true
    → is_directory_inside child parent
      ≡ (ltb (length parent) (length child) && text_eq (take (length parent) child) parent)
unfolding is_directory_inside slash_at_end
inside_slash child parent h = elim (Bool-cases (text_eq child parent)) [
  | inl e ↦ ground (arith, h, e, ap length ((text_eq_iff child parent).0 e))
  | inr e ↦ ground (arith, h, e)
]

inside_from :
    (parent rest : Text)
    → slash_at_end parent ≡ true
    → rest ≢ []
    → is_directory_inside (parent ++ rest) parent ≡ true
inside_from parent [] h ne = absurd (ne refl)
inside_from parent (x ∷ rest) h ne =
    inside_slash (parent ++ x ∷ rest) parent h
    ∙ ground (
      arith,
      length-append parent (x ∷ rest),
      take-length_append parent (x ∷ rest),
      (text_eq_iff parent parent).1 refl,
    )

inside_to :
    (child parent : Text)
    → slash_at_end parent ≡ true
    → is_directory_inside child parent ≡ true
    → (rest : Text) × (rest ≢ []) × (child ≡ parent ++ rest)
inside_to child parent h k =
    let both : (ltb (length parent) (length child) && text_eq (take (length parent) child) parent)
        ≡ true =
      sym (inside_slash child parent h) ∙ k in
    let e : child ≡ parent ++ drop (length parent) child =
      sym (take-append-drop (length parent) child)
      ∙ ap (λ t. t ++ drop (length parent) child)
          ((text_eq_iff (take (length parent) child) parent).0 (ground (arith, both))) in
    let longer : length parent < length child = ground (arith, both) in
    (
      drop (length parent) child,
      λ z. absurd (
          omega (
            arith,
            longer,
            ap length e,
            length-append parent (drop (length parent) child),
            ap length z,
          )),
      e,
    )

-- For directories that end in a separator: one is inside another exactly when it goes on after the
-- other's path; none is inside itself; and what is inside a directory that is inside a third one is
-- inside the third.
pub is_directory_inside_lem :
    (a b c : Text)
    → slash_at_end b ≡ true
    → slash_at_end c ≡ true
    → ((is_directory_inside a b ≡ true) ↔ ((rest : Text) × (rest ≢ []) × (a ≡ b ++ rest)))
      × ((is_directory_inside b b ≡ false)
          × (is_directory_inside a b ≡ true
              → is_directory_inside b c ≡ true
              → is_directory_inside a c ≡ true))
is_directory_inside_lem a b c hb hc = (
  (
    inside_to a b hb,
    λ (rest, ne, e). subst (λ t. is_directory_inside t b ≡ true) (sym e) (inside_from b rest hb ne),
  ),
  (inside_slash b b hb ∙ ground arith, λ h k. through (inside_to a b hb h) (inside_to b c hc k)),
)
  where
    append_ne : (r q : Text) → r ≢ [] → r ++ q ≢ []
    append_ne [] q h e = h refl
    append_ne (x ∷ r) q h e = cc

    through :
        ((rest : Text) × (rest ≢ []) × (a ≡ b ++ rest))
        → ((rest : Text) × (rest ≢ []) × (b ≡ c ++ rest))
        → is_directory_inside a c ≡ true
    through (r, ne, e) (q, ne', e') =
        subst (λ t. is_directory_inside t c ≡ true)
          (sym (e ∙ ap (λ t. t ++ r) e' ∙ append_assoc c q r))
          (inside_from c (q ++ r) hc (append_ne q r ne'))
