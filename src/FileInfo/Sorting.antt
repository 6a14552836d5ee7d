-- ===== src/FileInfo/Sorting.antt =====
-- std::sort by path.
use mathlib.Core.List.{Perm}
use mathlib.Core.List.Perm
use efsw.Base.{
  ◌≡◌, inl, inr, true, false, List, [], ◌∷◌, text_eq, text_lt, text_lt_trans, text_lt-total,
  text_eq-sym, Bool-cases, All, All-map,
}
use efsw.FileInfo.{FileInfo}
use efsw.FileInfo.Listing.{insert_by_path, sort_by_path}

-- Sorted by path, with no path twice.
abbrev pub Sorted : List FileInfo → Type 0
Sorted [] = Unit
Sorted (f ∷ fs) = All (λ g. text_lt f.filepath g.filepath ≡ true) fs × Sorted fs

abbrev pub Distinct : List FileInfo → Type 0
Distinct [] = Unit
Distinct (f ∷ fs) = All (λ g. text_eq f.filepath g.filepath ≡ false) fs × Distinct fs

pub insert_by_path-All :
    (P : FileInfo → Type 0) (f : FileInfo) (fs : List FileInfo)
    → P f
    → All P fs
    → All P (insert_by_path f fs)
unfolding insert_by_path
insert_by_path-All P f [] p a = (p, tt)
insert_by_path-All P f (g ∷ gs) p a = elim (Bool-cases (text_lt g.filepath f.filepath)) [
  | inl e ↦ rw e (a.0, insert_by_path-All P f gs p a.1)
  | inr e ↦ rw e (p, a)
]

pub sort_by_path-All :
    (P : FileInfo → Type 0) (fs : List FileInfo) → All P fs → All P (sort_by_path fs)
unfolding sort_by_path
sort_by_path-All P [] a = tt
sort_by_path-All P (f ∷ fs) a =
    insert_by_path-All P f (sort_by_path fs) a.0 (sort_by_path-All P fs a.1)

insert_by_path-Sorted :
    (f : FileInfo) (fs : List FileInfo)
    → All (λ g. text_eq f.filepath g.filepath ≡ false) fs
    → Sorted fs
    → Sorted (insert_by_path f fs)
unfolding insert_by_path
insert_by_path-Sorted f [] a s = (tt, tt)
insert_by_path-Sorted f (g ∷ gs) a s = elim (Bool-cases (text_lt g.filepath f.filepath)) [
  | inl e ↦ rw e (
    insert_by_path-All (λ h. text_lt g.filepath h.filepath ≡ true) f gs e s.0,
    insert_by_path-Sorted f gs a.1 s.1,
  )
  | inr e ↦
      let less =
        text_lt-total g.filepath f.filepath e (rw (text_eq-sym g.filepath f.filepath) a.0) in
      rw e
        ((less, All-map gs (λ h q. text_lt_trans f.filepath g.filepath h.filepath less q) s.0), s)
]

pub sort_by_path-Sorted : (fs : List FileInfo) → Distinct fs → Sorted (sort_by_path fs)
unfolding sort_by_path
sort_by_path-Sorted [] d = tt
sort_by_path-Sorted (f ∷ fs) d =
    insert_by_path-Sorted f (sort_by_path fs)
      (sort_by_path-All (λ g. text_eq f.filepath g.filepath ≡ false) fs d.0)
      (sort_by_path-Sorted fs d.1)

insert_by_path-perm : (f : FileInfo) (fs : List FileInfo) → Perm (insert_by_path f fs) (f ∷ fs)
unfolding insert_by_path
insert_by_path-perm f [] = Perm.refl (f ∷ [])
insert_by_path-perm f (g ∷ gs) = elim (Bool-cases (text_lt g.filepath f.filepath)) [
  | inl e ↦ rw e (Perm.trans (Perm.cons g (insert_by_path-perm f gs)) (Perm.swap f g gs))
  | inr e ↦ rw e (Perm.refl (f ∷ g ∷ gs))
]

pub sort_by_path-perm : (fs : List FileInfo) → Perm (sort_by_path fs) fs
unfolding sort_by_path
sort_by_path-perm [] = Perm.refl []
sort_by_path-perm (f ∷ fs) =
    Perm.trans (insert_by_path-perm f (sort_by_path fs)) (Perm.cons f (sort_by_path-perm fs))
