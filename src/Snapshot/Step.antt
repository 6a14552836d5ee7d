-- ===== src/Snapshot/Step.antt =====
-- One round of the loop over the current listing in `scan`: its four cases, and what an erased
-- source of a move leaves behind.
use mathlib.Core.List.{Perm}
use mathlib.Core.List.Perm
use mathlib.Core.Option.{some-injective}
use efsw.Base.{
  ◌≡◌, subst, inl, inr, true, false, List, [], ◌∷◌, ◌++◌, Text, text_eq, text_lt, if◌then◌else◌,
  none, some, Option-cases, Bool-cases, All, arith,
}
use efsw.FileSystem.{file_name_from_path}
use efsw.FileInfo.{FileInfo, info_eq, is_directory}
use efsw.FileInfo.Sorting.{Sorted}
use efsw.Snapshot.{Diff, Scanning, find_file, is_source, node_in_files, scan_file}
use efsw.Snapshot.Lookup.{find_file-cons, erase_here, lt-of_eq}

abbrev pub add_modified : Diff → FileInfo → Diff
add_modified d f =
    if is_directory f
    then record d { dirs_modified = d.dirs_modified ++ f ∷ [] }
    else record d { files_modified = d.files_modified ++ f ∷ [] }

abbrev pub add_created : Diff → FileInfo → Diff
add_created d f =
    if is_directory f
    then record d { dirs_created = d.dirs_created ++ f ∷ [] }
    else record d { files_created = d.files_created ++ f ∷ [] }

abbrev pub add_moved : Diff → FileInfo → FileInfo → Diff
add_moved d g f =
    let old_file = file_name_from_path g.filepath in
    if is_directory f
    then record d { dirs_moved = d.dirs_moved ++ (old_file, f) ∷ [] }
    else record d { files_moved = d.files_moved ++ (old_file, f) ∷ [] }

pub data Round (current : List FileInfo) (s : Scanning) (f : FileInfo) : Type 0 where
  unchanged :
      (g : FileInfo)
      → find_file s.files f.filepath ≡ some g
      → info_eq g f ≡ true
      → scan_file current s f ≡ s
      → Round current s f
  modified :
      (g : FileInfo)
      → find_file s.files f.filepath ≡ some g
      → info_eq g f ≡ false
      → scan_file current s f ≡ record s { diff = add_modified s.diff f }
      → Round current s f
  moved :
      (g : FileInfo) (rest : List FileInfo)
      → find_file s.files f.filepath ≡ none
      → node_in_files s.files f current ≡ some (g, rest)
      → scan_file current s f ≡ record { files = rest; diff = add_moved s.diff g f }
      → Round current s f
  created :
      find_file s.files f.filepath ≡ none
      → node_in_files s.files f current ≡ none
      → scan_file current s f ≡ record s { diff = add_created s.diff f }
      → Round current s f

pub scan_file-Round : (current : List FileInfo) (s : Scanning) (f : FileInfo) → Round current s f
unfolding scan_file
scan_file-Round current s f = elim (Option-cases (find_file s.files f.filepath)) [
  | inr (g, e) ↦ elim (Bool-cases (info_eq g f)) [
    | inl k ↦ unchanged g e k (ground (arith, e, k))
    | inr k ↦ modified g e k (ground (arith, e, k))
  ]
  | inl e ↦ elim (Option-cases (node_in_files s.files f current)) [
    | inr ((g, rest), k) ↦ moved g rest e k (ground (arith, e, k))
    | inl k ↦ created e k (ground (arith, e, k))
  ]
]

-- What erasing the source of a move does to the sorted files.
pub record Erased (current fs : List FileInfo) (fi g : FileInfo) (rest : List FileInfo)
    : Type 0 where
  pub source : is_source fi current g ≡ true
  pub perm : Perm fs (g ∷ rest)
  pub sorted : Sorted rest
  pub others :
      (q : Text) → find_file rest q ≡ (if text_eq g.filepath q then none else find_file fs q)

pub data Found (f : FileInfo) (fs : List FileInfo) (fi : FileInfo) (current : List FileInfo)
    (g : FileInfo) (rest : List FileInfo) : Type 0 where
  at_head : is_source fi current f ≡ true → f ≡ g → fs ≡ rest → Found f fs fi current g rest
  later :
      (r : List FileInfo)
      → node_in_files fs fi current ≡ some (g, r)
      → f ∷ r ≡ rest
      → Found f fs fi current g rest

pub node_in_files-Found :
    (f : FileInfo) (fs : List FileInfo) (fi : FileInfo) (current : List FileInfo) {g : FileInfo}
    {rest : List FileInfo}
    → node_in_files (f ∷ fs) fi current ≡ some (g, rest)
    → Found f fs fi current g rest
unfolding node_in_files
node_in_files-Found f fs fi current {g} {rest} e = elim (Bool-cases (is_source fi current f)) [
  | inl k ↦ at_head k (cc (some-injective _ _ (rw k at e))) (cc (some-injective _ _ (rw k at e)))
  | inr k ↦ elim (Option-cases (node_in_files fs fi current)) [
    | inl l ↦ absurd (ground (arith, e, k, l))
    | inr ((h, r), l) ↦ later r (ground (arith, e, k, l)) (ground (arith, e, k, l))
  ]
]

pub node_in_files-All :
    (P : FileInfo → Type 0) (fs : List FileInfo) (fi : FileInfo) (current : List FileInfo)
    {g : FileInfo} {rest : List FileInfo}
    → node_in_files fs fi current ≡ some (g, rest)
    → All P fs
    → P g × All P rest
unfolding node_in_files
node_in_files-All P [] fi current e a = cc
node_in_files-All P (f ∷ fs) fi current {g} {rest} e a =
    elim (node_in_files-Found f fs fi current e) [
      | at_head k q r ↦ (subst P q a.0, subst (All P) r a.1)
      | later r k q ↦
          let ih = node_in_files-All P fs fi current k a.1 in (ih.0, subst (All P) q (a.0, ih.1))
    ]

pub node_in_files-Erased :
    (fs : List FileInfo) (fi : FileInfo) (current : List FileInfo) {g : FileInfo}
    {rest : List FileInfo}
    → node_in_files fs fi current ≡ some (g, rest)
    → Sorted fs
    → Erased current fs fi g rest
unfolding node_in_files
node_in_files-Erased [] fi current e s = cc
node_in_files-Erased (f ∷ fs) fi current {g} {rest} e s =
    elim (node_in_files-Found f fs fi current e) [
      | at_head k q r ↦
          subst (λ h. Erased current (f ∷ fs) fi h rest) q
            (subst (Erased current (f ∷ fs) fi f) r (record {
              source = k;
              perm = Perm.refl (f ∷ fs);
              sorted = s.1;
              others = λ t. erase_here f fs t s;
            }))
      | later r k q ↦
          let ih = node_in_files-Erased fs fi current k s.1 in
          let above =
            node_in_files-All (λ h. text_lt f.filepath h.filepath ≡ true) fs fi current k s.0 in
          subst (Erased current (f ∷ fs) fi g) q (record {
            source = ih.source;
            perm = Perm.trans (Perm.cons f ih.perm) (Perm.swap g f r);
            sorted = (above.1, ih.sorted);
            others = λ t. ground (
              arith,
              find_file-cons f r t,
              find_file-cons f fs t,
              ih.others t,
              lt-of_eq f.filepath g.filepath t above.0,
            );
          })
    ]
