-- ===== src/Snapshot/Scan.antt =====
-- One round of the loop over the current listing in DirectorySnapshot::scan, as seen in the diff.
use mathlib.Core.List.{Perm}
use mathlib.Core.List.Perm
use efsw.Base.{
  ◌≡◌, Bool, true, false, not, ◌&&◌, List, [], ◌∷◌, ◌++◌, append-nil, Text, none, some, All, arith,
  is_some, select, Mem,
}
use efsw.FileInfo.{FileInfo}
use efsw.FileInfo.Sorting.{Sorted}
use efsw.Snapshot.{Scanning, find_file, scan_file}
use efsw.Snapshot.Step.{
  unchanged, modified, moved, created, scan_file-Round, node_in_files-Erased, node_in_files-All,
}
use efsw.Snapshot.Views.{
  has_kind, modified_of, moved_of, arrived_of, sources, names, is_listed, is_changed, missing_from,
  HasSource,
}
use efsw.Snapshot.Report.{
  source_gone, source-HasSource, listed-ne, perm_nil, arrived-add_modified, arrived-add_created,
  arrived-add_moved, sources-add_modified, sources-add_created, moved-add_modified,
  moved-add_created, moved-add_moved, gone_moved,
}

-- Where the loop stands: the files left are sorted, come from the old list, and agree with it on
-- every path of the current list.
pub record Agree (current old fs : List FileInfo) : Type 0 where
  pub sorted : Sorted fs
  pub come : All (λ f. Mem f old) fs
  pub same_at : (q : Text) → is_some (find_file current q) ≡ true → find_file fs q ≡ find_file old q

module _ (current old : List FileInfo) (s : Scanning) (f : FileInfo) (a : Agree current old s.files)
    (l : is_listed current f ≡ true) where
  pub scan_file-Agree : Agree current old (scan_file current s f).files
  scan_file-Agree = elim (scan_file-Round current s f) [
    | unchanged g e k r ↦ rw r a
    | modified g e k r ↦ rw r a
    | created e k r ↦ rw r a
    | moved g rest e k r ↦
        let x = node_in_files-Erased s.files f current k a.sorted in
        rw r (record {
          sorted = x.sorted;
          come = (node_in_files-All (λ h. Mem h old) s.files f current k a.come).1;
          same_at = λ q h. ground (
            arith,
            x.others q,
            a.same_at q h,
            source_gone f current g x.source,
            listed-ne current g q,
            h,
          );
        })
  ]

  pub scan_file-modified :
      (dir : Bool)
      → modified_of dir (scan_file current s f).diff
        ≡ modified_of dir s.diff ++ select (λ h. is_changed old h && has_kind dir h) (f ∷ [])
  unfolding scan_file
  scan_file-modified true = ground (arith, append-nil s.diff.dirs_modified, a.same_at f.filepath l)
  scan_file-modified false =
      ground (arith, append-nil s.diff.files_modified, a.same_at f.filepath l)

  listed-some : (g : FileInfo) → find_file s.files f.filepath ≡ some g → is_listed old f ≡ true
  listed-some g e = ground (arith, e, a.same_at f.filepath l)

  listed-none : find_file s.files f.filepath ≡ none → is_listed old f ≡ false
  listed-none e = ground (arith, e, a.same_at f.filepath l)

  pub scan_file-arrived :
      (dir : Bool)
      → Perm
          (arrived_of dir (scan_file current s f).diff)
          (arrived_of dir s.diff ++ select (λ h. not (is_listed old h) && has_kind dir h) (f ∷ []))
  scan_file-arrived dir = elim (scan_file-Round current s f) [
    | unchanged g e k r ↦ rw (r, listed-some g e) (perm_nil (arrived_of dir s.diff))
    | modified g e k r ↦
        rw (r, listed-some g e, arrived-add_modified dir s.diff f)
          (perm_nil (arrived_of dir s.diff))
    | moved g rest e k r ↦ rw (r, listed-none e) (arrived-add_moved dir s.diff g f)
    | created e k r ↦ rw (r, listed-none e) (arrived-add_created dir s.diff f)
  ]

  -- The old names that are gone, and those of the moves so far.
  pub scan_file-gone : Perm (names (missing_from current s.files) ++ sources s.diff) (
      names (missing_from current (scan_file current s f).files)
      ++ sources (scan_file current s f).diff)
  scan_file-gone = elim (scan_file-Round current s f) [
    | unchanged g e k r ↦ rw r (Perm.refl (names (missing_from current s.files) ++ sources s.diff))
    | modified g e k r ↦
        rw (r, sources-add_modified s.diff f)
          (Perm.refl (names (missing_from current s.files) ++ sources s.diff))
    | created e k r ↦
        rw (r, sources-add_created s.diff f)
          (Perm.refl (names (missing_from current s.files) ++ sources s.diff))
    | moved g rest e k r ↦ rw r (gone_moved s.diff current s.files f g rest k)
  ]

  pub scan_file-HasSource :
      (dir : Bool)
      → All (HasSource old current) (moved_of dir s.diff)
      → All (HasSource old current) (moved_of dir (scan_file current s f).diff)
  scan_file-HasSource dir h = elim (scan_file-Round current s f) [
    | unchanged g e k r ↦ rw r h
    | modified g e k r ↦ rw (r, moved-add_modified dir s.diff f) h
    | created e k r ↦ rw (r, moved-add_created dir s.diff f) h
    | moved g rest e k r ↦
        let x = node_in_files-Erased s.files f current k a.sorted in
        let m = (node_in_files-All (λ h. Mem h old) s.files f current k a.come).0 in
        rw r (
          moved-add_moved old current dir s.diff g f h
            (source-HasSource old current g f m x.source))
  ]
