-- ===== src/FileInfo/Laws.antt =====
-- Laws of FileInfo and of directory listings.
use efsw.Base.{
  ◌≡◌, ◌≢◌, refl, sym, ap, ◌∙◌, subst, inl, inr, true, false, List, [], ◌∷◌, ◌++◌, append_assoc,
  Text, text_eq, some, Option-cases, Bool-cases, All, arith,
}
use efsw.FileSystem.{slash_at_end, os_slash, dir_add_slash_at_end}
use efsw.FileSystem.Paths.{NoSlash, Snoc-cases, slash_at_end-snoc}
use efsw.FileSystem.Names.{NoSlash-last}
use efsw.FileInfo.{Os, FileInfo, file_info, restored_path, info_eq}
use efsw.FileInfo.Listing.{is_dots, entries, platform_files_info_from_path, files_info_from_path}
use efsw.FileInfo.Sorting.{Sorted, Distinct, sort_by_path-Sorted}

-- What `readdir` promises of the names in a directory: they are not empty, hold no separator, and
-- differ from one another.
abbrev pub AreNames : List Text → Type 0
AreNames [] = Unit
AreNames (n ∷ ns) = (n ≢ []) × NoSlash n × All (λ m. text_eq n m ≡ false) ns × AreNames ns

pub restored_path-plain : (path : Text) → slash_at_end path ≡ false → restored_path path ≡ path
unfolding restored_path
restored_path-plain path h = ground arith

pub file_info-filepath : (os : Os) (path : Text) → (file_info os path).filepath ≡ restored_path path
unfolding file_info
file_info-filepath os path = ground arith

-- A path that ends in a name has no separator at its end.
slash_at_end_of_name :
    (path name : Text) → name ≢ [] → NoSlash name → slash_at_end (path ++ name) ≡ false
slash_at_end_of_name path name ne h = elim (Snoc-cases name) [
  | inl e ↦ absurd (ne e)
  | inr (q, x, e) ↦
      let e' : path ++ name ≡ (path ++ q) ++ x ∷ [] =
        ap (◌++◌ path) e ∙ sym (append_assoc path q (x ∷ [])) in
      let x_ne : x ≢ os_slash = NoSlash-last q x (subst NoSlash e h) in
      rw (e', slash_at_end-snoc (path ++ q) x) (ground arith)
]

entry_path :
    (os : Os) (path name : Text)
    → name ≢ []
    → NoSlash name
    → (file_info os (path ++ name)).filepath ≡ path ++ name
entry_path os path name ne h =
    file_info-filepath os (path ++ name)
    ∙ restored_path-plain (path ++ name) (slash_at_end_of_name path name ne h)

text_eq-append : (p s t : Text) → text_eq (p ++ s) (p ++ t) ≡ text_eq s t
unfolding text_eq
text_eq-append [] s t = refl
text_eq-append (b ∷ p) s t = ground (arith, text_eq-append p s t)

entries-apart :
    (os : Os) (path n : Text) (f : FileInfo) (ns : List Text)
    → f.filepath ≡ path ++ n
    → AreNames ns
    → All (λ m. text_eq n m ≡ false) ns
    → All (λ g. text_eq f.filepath g.filepath ≡ false) (entries os path ns)
unfolding entries
entries-apart os path n f [] e v a = tt
entries-apart os path n f (m ∷ ns) e v a =
    let rest = entries-apart os path n f ns e v.3 a.1 in
    let apart : text_eq f.filepath (file_info os (path ++ m)).filepath ≡ false =
      rw (e, entry_path os path m v.0 v.1, text_eq-append path n m) a.0 in
    elim (Bool-cases (is_dots m)) [ inl d ↦ rw d rest | inr d ↦ rw d (apart, rest) ]

entries-Distinct :
    (os : Os) (path : Text) (ns : List Text) → AreNames ns → Distinct (entries os path ns)
unfolding entries
entries-Distinct os path [] v = tt
entries-Distinct os path (n ∷ ns) v =
    let rest = entries-Distinct os path ns v.3 in
    let apart =
      entries-apart os path n (file_info os (path ++ n)) ns (entry_path os path n v.0 v.1) v.3
        v.2 in
    elim (Bool-cases (is_dots n)) [ inl d ↦ rw d rest | inr d ↦ rw d (apart, rest) ]

-- What `readdir` promises of every directory.
abbrev pub ListsNames : Os → Type 0
ListsNames os = (path : Text) (ns : List Text) → os.names path ≡ some ns → AreNames ns

-- Where `readdir` gives names that are not empty, hold no separator and differ from one another, a
-- listing is strictly sorted by path, whatever the order in which the directory is read.
pub files_info_from_path-Sorted :
    (os : Os) (path : Text) → ListsNames os → Sorted (files_info_from_path os path)
unfolding files_info_from_path
files_info_from_path-Sorted os path h = elim (Option-cases (os.names (dir_add_slash_at_end path))) [
  | inl e ↦ rw (e, platform_files_info_from_path) tt
  | inr (ns, e) ↦
      rw (e, platform_files_info_from_path)
        (sort_by_path-Sorted _ (entries-Distinct os _ ns (h _ ns e)))
]

-- operator== is an equivalence: it compares seven of the fields.
pub info_eq_refl : (a : FileInfo) → info_eq a a ≡ true
unfolding info_eq
info_eq_refl a = ground arith

pub info_eq-sym : (a b : FileInfo) → info_eq a b ≡ info_eq b a
unfolding info_eq
info_eq-sym a b = ground arith

pub info_eq_trans :
    (a b c : FileInfo) → info_eq a b ≡ true → info_eq b c ≡ true → info_eq a c ≡ true
unfolding info_eq
info_eq_trans a b c p q = ground arith
