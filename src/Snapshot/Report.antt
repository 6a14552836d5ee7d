-- ===== src/Snapshot/Report.antt =====
-- What one entry of a diff adds to each of its views, and what a move takes from the files left.
use mathlib.Core.List.{Perm, perm_append_comm, perm_middle}
use mathlib.Core.List.Perm
use mathlib.Core.Bool.{false≢true}
use efsw.Base.{
  ◌≡◌, refl, sym, ap, ◌∙◌, inl, inr, Bool, true, false, List, [], ◌∷◌, ◌++◌, append_assoc,
  append-nil, Text, text_eq, text_eq_iff, if◌then◌else◌, some, Bool-cases, All, All-append, Mem,
  arith, is_some, map, map-append,
}
use efsw.FileSystem.{file_name_from_path}
use efsw.FileInfo.{FileInfo, is_directory}
use efsw.Snapshot.{Diff, find_file, is_source, node_in_files}
use efsw.Snapshot.Step.{at_head, later, node_in_files-Found, add_modified, add_created, add_moved}
use efsw.Snapshot.Views.{
  has_kind, moved_of, arrived_of, sources, names, is_listed, missing_from, HasSource,
}

pub source_gone :
    (fi : FileInfo) (current : List FileInfo) (g : FileInfo)
    → is_source fi current g ≡ true
    → is_listed current g ≡ false
unfolding is_source
source_gone fi current g e = ground arith

pub source-HasSource :
    (old current : List FileInfo) (g f : FileInfo)
    → Mem g old
    → is_source f current g ≡ true
    → HasSource old current (file_name_from_path g.filepath, f)
unfolding is_source
source-HasSource old current g f m e =
    (g, m, refl, ground (arith, e), ground (arith, e), ground (arith, e), ground (arith, e))

pub listed-ne :
    (current : List FileInfo) (g : FileInfo) (q : Text)
    → is_listed current g ≡ false
    → is_some (find_file current q) ≡ true
    → text_eq g.filepath q ≡ false
listed-ne current g q m h = elim (Bool-cases (text_eq g.filepath q)) [
  | inl e ↦
      absurd
        (false≢true (sym m ∙ ap (λ t. is_some (find_file current t)) ((text_eq_iff _ q).0 e) ∙ h))
  | inr e ↦ e
]

pub perm_nil : (xs : List FileInfo) → Perm xs (xs ++ [])
perm_nil xs = rw (append-nil xs) (Perm.refl xs)

pub arrived-add_modified :
    (dir : Bool) (d : Diff) (f : FileInfo) → arrived_of dir (add_modified d f) ≡ arrived_of dir d
arrived-add_modified true d f = ground arith
arrived-add_modified false d f = ground arith

pub arrive_created :
    (c : List FileInfo) (m : List (Text × FileInfo)) (f : FileInfo)
    → Perm ((c ++ f ∷ []) ++ map (λ m. m.1) m) ((c ++ map (λ m. m.1) m) ++ f ∷ [])
arrive_created c m f =
    rw (append_assoc c (f ∷ []) (map (λ m. m.1) m), append_assoc c (map (λ m. m.1) m) (f ∷ []))
      (Perm.append (Perm.refl c) (perm_append_comm (f ∷ []) (map (λ m. m.1) m)))

pub arrive_moved :
    (c : List FileInfo) (m : List (Text × FileInfo)) (o : Text) (f : FileInfo)
    → Perm (c ++ map (λ m. m.1) (m ++ (o, f) ∷ [])) ((c ++ map (λ m. m.1) m) ++ f ∷ [])
arrive_moved c m o f =
    rw (map-append (λ m. m.1) m ((o, f) ∷ []), append_assoc c (map (λ m. m.1) m) (f ∷ []))
      (Perm.refl (c ++ (map (λ m. m.1) m ++ f ∷ [])))

pub arrived-add_created :
    (dir : Bool) (d : Diff) (f : FileInfo)
    → Perm
        (arrived_of dir (add_created d f))
        (arrived_of dir d ++ (if has_kind dir f then f ∷ [] else []))
arrived-add_created true d f =
    ground (arith, arrive_created d.dirs_created d.dirs_moved f, perm_nil (arrived_of true d))
arrived-add_created false d f =
    ground (arith, arrive_created d.files_created d.files_moved f, perm_nil (arrived_of false d))

pub arrived-add_moved :
    (dir : Bool) (d : Diff) (g f : FileInfo)
    → Perm
        (arrived_of dir (add_moved d g f))
        (arrived_of dir d ++ (if has_kind dir f then f ∷ [] else []))
arrived-add_moved true d g f = ground (
  arith,
  arrive_moved d.dirs_created d.dirs_moved (file_name_from_path g.filepath) f,
  perm_nil (arrived_of true d),
)
arrived-add_moved false d g f = ground (
  arith,
  arrive_moved d.files_created d.files_moved (file_name_from_path g.filepath) f,
  perm_nil (arrived_of false d),
)

pub sources-add_modified : (d : Diff) (f : FileInfo) → sources (add_modified d f) ≡ sources d
sources-add_modified d f = ground arith

pub sources-add_created : (d : Diff) (f : FileInfo) → sources (add_created d f) ≡ sources d
sources-add_created d f = ground arith

pub moved-add_modified :
    (dir : Bool) (d : Diff) (f : FileInfo) → moved_of dir (add_modified d f) ≡ moved_of dir d
moved-add_modified true d f = ground arith
moved-add_modified false d f = ground arith

pub moved-add_created :
    (dir : Bool) (d : Diff) (f : FileInfo) → moved_of dir (add_created d f) ≡ moved_of dir d
moved-add_created true d f = ground arith
moved-add_created false d f = ground arith

pub moved-add_moved :
    (old current : List FileInfo) (dir : Bool) (d : Diff) (g f : FileInfo)
    → All (HasSource old current) (moved_of dir d)
    → HasSource old current (file_name_from_path g.filepath, f)
    → All (HasSource old current) (moved_of dir (add_moved d g f))
moved-add_moved old current true d g f h x =
    let more =
      All-append (HasSource old current) d.dirs_moved ((file_name_from_path g.filepath, f) ∷ []) h
        (x, tt) in
    elim (Bool-cases (is_directory f)) [ inl e ↦ rw e more | inr e ↦ rw e h ]
moved-add_moved old current false d g f h x =
    let more =
      All-append (HasSource old current) d.files_moved ((file_name_from_path g.filepath, f) ∷ []) h
        (x, tt) in
    elim (Bool-cases (is_directory f)) [ inl e ↦ rw e h | inr e ↦ rw e more ]

pub missing-node :
    (fs : List FileInfo) (fi : FileInfo) (current : List FileInfo) {g : FileInfo}
    {rest : List FileInfo}
    → node_in_files fs fi current ≡ some (g, rest)
    → Perm (missing_from current fs) (g ∷ missing_from current rest)
unfolding node_in_files
missing-node [] fi current e = cc
missing-node (f ∷ fs) fi current {g} {rest} e = elim (node_in_files-Found f fs fi current e) [
  | at_head k q r ↦
      rw (← q, ← r, source_gone fi current f k) (Perm.refl (f ∷ missing_from current fs))
  | later r k q ↦
      let ih = missing-node fs fi current k in
      rw (← q) (elim (Bool-cases (is_listed current f)) [
        | inl l ↦ rw l ih
        | inr l ↦ rw l (Perm.trans (Perm.cons f ih) (Perm.swap g f (missing_from current r)))
      ])
]

pub sources-add_moved :
    (d : Diff) (g f : FileInfo)
    → Perm (file_name_from_path g.filepath ∷ sources d) (sources (add_moved d g f))
sources-add_moved d g f = elim (Bool-cases (is_directory f)) [
  | inl e ↦
      rw
        (
          e,
          map-append (λ (m : Text × FileInfo). m.0) d.dirs_moved ((o, f) ∷ []),
          ← append_assoc (map (λ m. m.0) d.files_moved) (map (λ m. m.0) d.dirs_moved) (o ∷ []),
        )
        (perm_append_comm (o ∷ []) (sources d))
  | inr e ↦
      rw
        (
          e,
          map-append (λ (m : Text × FileInfo). m.0) d.files_moved ((o, f) ∷ []),
          append_assoc (map (λ m. m.0) d.files_moved) (o ∷ []) (map (λ m. m.0) d.dirs_moved),
        )
        (Perm.symm (perm_middle (map (λ m. m.0) d.files_moved) (map (λ m. m.0) d.dirs_moved)))
]
  where
    o : Text
    o = file_name_from_path g.filepath

pub gone_moved :
    (d : Diff) (current fs : List FileInfo) (f g : FileInfo) (rest : List FileInfo)
    → node_in_files fs f current ≡ some (g, rest)
    → Perm
        (names (missing_from current fs) ++ sources d)
        (names (missing_from current rest) ++ sources (add_moved d g f))
gone_moved d current fs f g rest k =
    Perm.trans (Perm.append (Perm.map _ (missing-node fs f current k)) (Perm.refl (sources d))) (
      Perm.trans (Perm.symm (perm_middle (names (missing_from current rest)) (sources d)))
        (Perm.append (Perm.refl (names (missing_from current rest))) (sources-add_moved d g f)))
