-- ===== src/Snapshot/Compare.antt =====
-- The loop over the current listing in DirectorySnapshot::scan: its rounds, one after another.
use mathlib.Core.List.{Perm}
use mathlib.Core.List.Perm
use efsw.Base.{
  ◌≡◌, refl, sym, ap, ◌∙◌, subst, inl, inr, Bool, true, not, ◌&&◌, List, [], ◌∷◌, ◌++◌,
  append_assoc, append-nil, text_lt, text_eq_refl, text_lt_irrefl, some, Bool-cases, All, arith,
  select,
}
use efsw.FileInfo.{FileInfo}
use efsw.FileInfo.Sorting.{Sorted}
use efsw.Snapshot.{Scanning, find_file, scan_file, scan_files}
use efsw.Snapshot.Lookup.{find_file-cons}
use efsw.Snapshot.Views.{
  has_kind, modified_of, moved_of, arrived_of, sources, names, is_listed, is_changed, missing_from,
  HasSource,
}
use efsw.Snapshot.Scan.{
  Agree, scan_file-Agree, scan_file-modified, scan_file-arrived, scan_file-gone,
  scan_file-HasSource,
}

-- Every file of a sorted list is found in it.
find_here : (f : FileInfo) (fs : List FileInfo) → find_file (f ∷ fs) f.filepath ≡ some f
find_here f fs =
    ground
      (arith, find_file-cons f fs f.filepath, text_lt_irrefl f.filepath, text_eq_refl f.filepath)

listed_cons :
    (f : FileInfo) (fs todo : List FileInfo)
    → All (λ g. text_lt f.filepath g.filepath ≡ true) todo
    → All (λ g. is_listed fs g ≡ true) todo
    → All (λ g. is_listed (f ∷ fs) g ≡ true) todo
listed_cons f fs [] a l = tt
listed_cons f fs (g ∷ todo) a l =
    (ground (arith, find_file-cons f fs g.filepath, a.0, l.0), listed_cons f fs todo a.1 l.1)

pub Sorted-listed : (fs : List FileInfo) → Sorted fs → All (λ g. is_listed fs g ≡ true) fs
Sorted-listed [] s = tt
Sorted-listed (f ∷ fs) s =
    (ground (arith, find_here f fs), listed_cons f fs fs s.0 (Sorted-listed fs s.1))

module _ {ℓ} {A : Type ℓ} where
  select-cons :
      (p : A → Bool) (x : A) (xs : List A) → select p (x ∷ []) ++ select p xs ≡ select p (x ∷ xs)
  select-cons p x xs = elim (Bool-cases (p x)) [ inl e ↦ rw e refl | inr e ↦ rw e refl ]

module _ (current old : List FileInfo) where
  pub scan_files-Agree :
      (s : Scanning) (todo : List FileInfo)
      → Agree current old s.files
      → All (λ f. is_listed current f ≡ true) todo
      → Agree current old (scan_files current s todo).files
  unfolding scan_files
  scan_files-Agree s [] a l = a
  scan_files-Agree s (f ∷ fs) a l =
      scan_files-Agree (scan_file current s f) fs (scan_file-Agree current old s f a l.0) l.1

  pub scan_files-modified :
      (dir : Bool) (s : Scanning) (todo : List FileInfo)
      → Agree current old s.files
      → All (λ f. is_listed current f ≡ true) todo
      → modified_of dir (scan_files current s todo).diff
        ≡ modified_of dir s.diff ++ select (λ h. is_changed old h && has_kind dir h) todo
  unfolding scan_files
  scan_files-modified dir s [] a l = sym (append-nil (modified_of dir s.diff))
  scan_files-modified dir s (f ∷ fs) a l =
      let p = λ (h : FileInfo). is_changed old h && has_kind dir h in
      let s' = scan_file current s f in
      let ih = scan_files-modified dir s' fs (scan_file-Agree current old s f a l.0) l.1 in
      let here = scan_file-modified current old s f a l.0 dir in
      ih
      ∙ ap (λ m. m ++ select p fs) here
      ∙ append_assoc (modified_of dir s.diff) (select p (f ∷ [])) (select p fs)
      ∙ ap (λ m. modified_of dir s.diff ++ m) (select-cons p f fs)

  pub scan_files-arrived :
      (dir : Bool) (s : Scanning) (todo : List FileInfo)
      → Agree current old s.files
      → All (λ f. is_listed current f ≡ true) todo
      → Perm
          (arrived_of dir (scan_files current s todo).diff)
          (arrived_of dir s.diff ++ select (λ h. not (is_listed old h) && has_kind dir h) todo)
  unfolding scan_files
  scan_files-arrived dir s [] a l =
      rw (append-nil (arrived_of dir s.diff)) (Perm.refl (arrived_of dir s.diff))
  scan_files-arrived dir s (f ∷ fs) a l =
      let p = λ (h : FileInfo). not (is_listed old h) && has_kind dir h in
      let s' = scan_file current s f in
      let ih = scan_files-arrived dir s' fs (scan_file-Agree current old s f a l.0) l.1 in
      let here = scan_file-arrived current old s f a l.0 dir in
      Perm.trans ih (
        subst (Perm (arrived_of dir s'.diff ++ select p fs))
          (append_assoc (arrived_of dir s.diff) (select p (f ∷ [])) (select p fs)
            ∙ ap (λ m. arrived_of dir s.diff ++ m) (select-cons p f fs))
          (Perm.append here (Perm.refl (select p fs))))

  pub scan_files-gone :
      (s : Scanning) (todo : List FileInfo)
      → Agree current old s.files
      → All (λ f. is_listed current f ≡ true) todo
      → Perm (names (missing_from current s.files) ++ sources s.diff) (
          names (missing_from current (scan_files current s todo).files)
          ++ sources (scan_files current s todo).diff)
  unfolding scan_files
  scan_files-gone s [] a l = Perm.refl _
  scan_files-gone s (f ∷ fs) a l =
      Perm.trans (scan_file-gone current old s f a l.0)
        (scan_files-gone (scan_file current s f) fs (scan_file-Agree current old s f a l.0) l.1)

  pub scan_files-HasSource :
      (dir : Bool) (s : Scanning) (todo : List FileInfo)
      → Agree current old s.files
      → All (λ f. is_listed current f ≡ true) todo
      → All (HasSource old current) (moved_of dir s.diff)
      → All (HasSource old current) (moved_of dir (scan_files current s todo).diff)
  unfolding scan_files
  scan_files-HasSource dir s [] a l h = h
  scan_files-HasSource dir s (f ∷ fs) a l h =
      scan_files-HasSource dir (scan_file current s f) fs (scan_file-Agree current old s f a l.0)
        l.1 (scan_file-HasSource current old s f a l.0 dir h)
