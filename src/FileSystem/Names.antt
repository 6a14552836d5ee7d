-- ===== src/FileSystem/Names.antt =====
-- File names, directory parts and the trailing separator.
use efsw.Base.{
  ℕ, ◌+◌, ◌≡◌, ◌≢◌, refl, sym, ap, ap₂, subst, ◌∙◌, inl, inr, true, [], ◌∷◌, ◌++◌, append_assoc,
  Text, length, arith, none,
}
use efsw.FileSystem.{
  os_slash, slash_at_end, dir_add_slash_at_end, dir_remove_slash_at_end, find_last_of,
  file_name_from_path, path_remove_file_name,
}
use efsw.FileSystem.Paths.{
  NoSlash, no_slash, at_slash, path-Cut, Snoc-cases, slash_at_end-snoc, dir_add_slash_at_end-snoc,
  dir_remove_slash_at_end-snoc, NoSlash-find_last_of, find_last_of-append, drop-after, take-after,
}

-- Where a path has a separator besides a last one, its directory part and its file name make it
-- up again, without that last one, and the file name holds no separator.
path_remove_file_name-file_name_from_path :
    (filepath : Text)
    → find_last_of os_slash (dir_remove_slash_at_end filepath) ≢ none
    → (path_remove_file_name filepath ++ file_name_from_path filepath
        ≡ dir_remove_slash_at_end filepath)
      × NoSlash (file_name_from_path filepath)
path_remove_file_name-file_name_from_path f s = elim (path-Cut f) [
  | no_slash h e e' ↦ absurd (s (NoSlash-find_last_of _ h))
  | at_slash p n h e e' e'' ↦
      (ap₂ (◌++◌) e'' e' ∙ append_assoc p (os_slash ∷ []) n ∙ sym e, subst NoSlash (sym e') h)
]

-- The file name of a path never holds a separator.
file_name_from_path-NoSlash : (filepath : Text) → NoSlash (file_name_from_path filepath)
file_name_from_path-NoSlash f = elim (path-Cut f) [
  | no_slash h e e' ↦ subst NoSlash (sym e) h
  | at_slash p n h e e' e'' ↦ subst NoSlash (sym e') h
]

pub NoSlash-last : (q : Text) (x : ℕ) → NoSlash (q ++ x ∷ []) → x ≢ os_slash
NoSlash-last [] x h = h.0
NoSlash-last (a ∷ q) x h = NoSlash-last q x h.1

remove_slash_of_name :
    (p n : Text)
    → NoSlash n
    → n ≢ []
    → dir_remove_slash_at_end (p ++ os_slash ∷ n) ≡ p ++ os_slash ∷ n
remove_slash_of_name p n h ne = elim (Snoc-cases n) [
  | inl e ↦ absurd (ne e)
  | inr (q, x, e) ↦
      let x_ne : x ≢ os_slash = NoSlash-last q x (subst NoSlash e h) in
      let e' : p ++ os_slash ∷ n ≡ (p ++ os_slash ∷ q) ++ x ∷ [] =
        ap (λ t. p ++ os_slash ∷ t) e ∙ sym (append_assoc p (os_slash ∷ q) (x ∷ [])) in
      ground (arith, e', dir_remove_slash_at_end-snoc (p ++ os_slash ∷ q) x)
]

add_then_remove :
    (p n : Text)
    → dir_remove_slash_at_end ((p ++ os_slash ∷ n) ++ os_slash ∷ []) ≡ p ++ os_slash ∷ n
add_then_remove p n = dir_remove_slash_at_end-snoc (p ++ os_slash ∷ n) os_slash

parts_of :
    (f p n : Text)
    → NoSlash n
    → dir_remove_slash_at_end f ≡ p ++ os_slash ∷ n
    → (file_name_from_path f ≡ n) × (path_remove_file_name f ≡ p ++ os_slash ∷ [])
unfolding file_name_from_path path_remove_file_name
parts_of f p n h e = ground (
  arith,
  e,
  find_last_of-append p n h,
  drop-after p n (length p + 1) refl,
  take-after p n (length p + 1) refl,
)

-- A name that is not empty and holds no separator, put under a directory with or without a
-- separator after it, comes back as the file name, and the directory with its separator as the
-- rest.
file_name_from_path-append :
    (dir name : Text)
    → NoSlash name
    → name ≢ []
    → let path = dir ++ os_slash ∷ name in
      (file_name_from_path path ≡ name)
      × (path_remove_file_name path ≡ dir ++ os_slash ∷ [])
      × (file_name_from_path (path ++ os_slash ∷ []) ≡ name)
      × (path_remove_file_name (path ++ os_slash ∷ []) ≡ dir ++ os_slash ∷ [])
file_name_from_path-append p n h ne =
    let plain = parts_of (p ++ os_slash ∷ n) p n h (remove_slash_of_name p n h ne) in
    let slashed = parts_of ((p ++ os_slash ∷ n) ++ os_slash ∷ []) p n h (add_then_remove p n) in
    (plain.0, plain.1, slashed.0, slashed.1)

-- Adding the separator to a path that is not empty makes it end in a separator, and adding it a
-- second time changes nothing.
dir_add_slash_at_end_lem :
    (dir : Text)
    → dir ≢ []
    → (slash_at_end (dir_add_slash_at_end dir) ≡ true)
      × (dir_add_slash_at_end (dir_add_slash_at_end dir) ≡ dir_add_slash_at_end dir)
dir_add_slash_at_end_lem d ne = elim (Snoc-cases d) [
  | inl e ↦ absurd (ne e)
  | inr (q, x, e) ↦ ground (
    arith,
    e,
    dir_add_slash_at_end-snoc q x,
    slash_at_end-snoc q x,
    slash_at_end-snoc (q ++ x ∷ []) os_slash,
    dir_add_slash_at_end-snoc (q ++ x ∷ []) os_slash,
  )
]

-- A path that ends in one separator, and is not the root, survives removing and adding it.
dir_add_slash_at_end-dir_remove_slash_at_end :
    (q : Text) (x : ℕ)
    → x ≢ os_slash
    → dir_add_slash_at_end (dir_remove_slash_at_end ((q ++ x ∷ []) ++ os_slash ∷ []))
      ≡ (q ++ x ∷ []) ++ os_slash ∷ []
dir_add_slash_at_end-dir_remove_slash_at_end q x h =
    ground
      (arith, dir_remove_slash_at_end-snoc (q ++ x ∷ []) os_slash, dir_add_slash_at_end-snoc q x)
