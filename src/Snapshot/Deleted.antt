-- ===== src/Snapshot/Deleted.antt =====
-- The loop over the files that are left in DirectorySnapshot::scan, which reports the deleted ones.
use mathlib.Core.List.{Perm, perm_middle, mem-cons_self, mem-cons_of_mem}
use mathlib.Core.List.Perm
use efsw.Base.{
  ◌≡◌, refl, sym, ◌∙◌, inl, inr, Bool, true, false, not, ◌&&◌, List, [], ◌∷◌, ◌++◌, append_assoc,
  append-nil, if◌then◌else◌, Bool-cases, All, arith, select, Mem, All-map,
}
use efsw.FileInfo.{FileInfo, is_directory}
use efsw.Snapshot.{Diff, Scanning, scan_file, scan_files, scan_deleted}
use efsw.Snapshot.Views.{has_kind, modified_of, deleted_of, created_of, moved_of, is_listed}

pub scan_file-deleted :
    (current : List FileInfo) (s : Scanning) (f : FileInfo) (dir : Bool)
    → deleted_of dir (scan_file current s f).diff ≡ deleted_of dir s.diff
unfolding scan_file
scan_file-deleted current s f true = ground arith
scan_file-deleted current s f false = ground arith

pub scan_files-deleted :
    (current : List FileInfo) (dir : Bool) (s : Scanning) (todo : List FileInfo)
    → deleted_of dir (scan_files current s todo).diff ≡ deleted_of dir s.diff
unfolding scan_files
scan_files-deleted current dir s [] = refl
scan_files-deleted current dir s (f ∷ fs) =
    scan_files-deleted current dir (scan_file current s f) fs ∙ scan_file-deleted current s f dir

abbrev pub add_deleted : Diff → FileInfo → Diff
add_deleted d f =
    if is_directory f
    then record d { dirs_deleted = d.dirs_deleted ++ f ∷ [] }
    else record d { files_deleted = d.files_deleted ++ f ∷ [] }

pub scan_deleted-cons :
    (current : List FileInfo) (d : Diff) (f : FileInfo) (fs : List FileInfo)
    → scan_deleted current d (f ∷ fs)
      ≡ scan_deleted current (if is_listed current f then d else add_deleted d f) fs
unfolding scan_deleted
scan_deleted-cons current d f fs = ground arith

pub deleted-add_deleted :
    (dir : Bool) (d : Diff) (f : FileInfo)
    → deleted_of dir (add_deleted d f) ≡ deleted_of dir d ++ (if has_kind dir f then f ∷ [] else [])
deleted-add_deleted true d f = ground (arith, append-nil d.dirs_deleted)
deleted-add_deleted false d f = ground (arith, append-nil d.files_deleted)

pub scan_deleted-deleted :
    (current : List FileInfo) (dir : Bool) (d : Diff) (fs : List FileInfo)
    → deleted_of dir (scan_deleted current d fs)
      ≡ deleted_of dir d ++ select (λ f. not (is_listed current f) && has_kind dir f) fs
unfolding scan_deleted
scan_deleted-deleted current dir d [] = sym (append-nil (deleted_of dir d))
scan_deleted-deleted current dir d (f ∷ fs) = elim (Bool-cases (is_listed current f)) [
  | inl l ↦ rw (scan_deleted-cons current d f fs, l) (scan_deleted-deleted current dir d fs)
  | inr l ↦
      let ih = scan_deleted-deleted current dir (add_deleted d f) fs in
      elim (Bool-cases (has_kind dir f)) [
        | inl k ↦
            rw (scan_deleted-cons current d f fs, l, ih, deleted-add_deleted dir d f, k)
              (append_assoc (deleted_of dir d) (f ∷ []) _)
        | inr k ↦
            rw
              (
                scan_deleted-cons current d f fs,
                l,
                ih,
                deleted-add_deleted dir d f,
                k,
                append-nil (deleted_of dir d),
              )
              refl
      ]
]

-- The second loop adds to the deleted files only.
pub record OnlyDeletes (d d' : Diff) : Type 0 where
  pub modified : (dir : Bool) → modified_of dir d' ≡ modified_of dir d
  pub created : (dir : Bool) → created_of dir d' ≡ created_of dir d
  pub moved : (dir : Bool) → moved_of dir d' ≡ moved_of dir d

pub deletes_dir : (d : Diff) (xs : List FileInfo) → OnlyDeletes d (record d { dirs_deleted = xs })
deletes_dir d xs = record { modified = same; created = same'; moved = same'' }
  where
    same : (dir : Bool) → modified_of dir (record d { dirs_deleted = xs }) ≡ modified_of dir d
    same true = refl
    same false = refl

    same' : (dir : Bool) → created_of dir (record d { dirs_deleted = xs }) ≡ created_of dir d
    same' true = refl
    same' false = refl

    same'' : (dir : Bool) → moved_of dir (record d { dirs_deleted = xs }) ≡ moved_of dir d
    same'' true = refl
    same'' false = refl

pub deletes_file : (d : Diff) (xs : List FileInfo) → OnlyDeletes d (record d { files_deleted = xs })
deletes_file d xs = record { modified = same; created = same'; moved = same'' }
  where
    same : (dir : Bool) → modified_of dir (record d { files_deleted = xs }) ≡ modified_of dir d
    same true = refl
    same false = refl

    same' : (dir : Bool) → created_of dir (record d { files_deleted = xs }) ≡ created_of dir d
    same' true = refl
    same' false = refl

    same'' : (dir : Bool) → moved_of dir (record d { files_deleted = xs }) ≡ moved_of dir d
    same'' true = refl
    same'' false = refl

pub add_deleted-OnlyDeletes : (d : Diff) (f : FileInfo) → OnlyDeletes d (add_deleted d f)
add_deleted-OnlyDeletes d f = elim (Bool-cases (is_directory f)) [
  | inl e ↦ rw e (deletes_dir d (d.dirs_deleted ++ f ∷ []))
  | inr e ↦ rw e (deletes_file d (d.files_deleted ++ f ∷ []))
]

pub scan_deleted-OnlyDeletes :
    (current : List FileInfo) (d : Diff) (fs : List FileInfo)
    → OnlyDeletes d (scan_deleted current d fs)
unfolding scan_deleted
scan_deleted-OnlyDeletes current d [] = record {
  modified = λ dir. refl;
  created = λ dir. refl;
  moved = λ dir. refl;
}
scan_deleted-OnlyDeletes current d (f ∷ fs) = elim (Bool-cases (is_listed current f)) [
  | inl l ↦ rw (scan_deleted-cons current d f fs, l) (scan_deleted-OnlyDeletes current d fs)
  | inr l ↦
      let ih = scan_deleted-OnlyDeletes current (add_deleted d f) fs in
      let one = add_deleted-OnlyDeletes d f in
      rw (scan_deleted-cons current d f fs, l)
        (record {
          modified = λ dir. ih.modified dir ∙ one.modified dir;
          created = λ dir. ih.created dir ∙ one.created dir;
          moved = λ dir. ih.moved dir ∙ one.moved dir;
        })
]

pub All-mem : (fs : List FileInfo) → All (λ f. Mem f fs) fs
All-mem [] = tt
All-mem (f ∷ fs) = (mem-cons_self, All-map fs (λ g m. mem-cons_of_mem f m) (All-mem fs))

pub select-split :
    (p q : FileInfo → Bool) (fs : List FileInfo)
    → Perm (select p fs) (select (λ f. p f && not (q f)) fs ++ select (λ f. p f && q f) fs)
select-split p q [] = Perm.refl []
select-split p q (f ∷ fs) = elim (Bool-cases (p f)) [
  | inr e ↦ rw e (select-split p q fs)
  | inl e ↦ elim (Bool-cases (q f)) [
    | inr k ↦ rw (e, k) (Perm.cons f (select-split p q fs))
    | inl k ↦
        rw (e, k)
          (Perm.trans (Perm.cons f (select-split p q fs)) (
            Perm.symm
              (perm_middle (select (λ f. p f && not (q f)) fs) (select (λ f. p f && q f) fs))))
  ]
]
