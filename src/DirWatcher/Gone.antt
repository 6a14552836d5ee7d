-- ===== src/DirWatcher/Gone.antt =====
-- The destructor of DirWatcherGeneric, and removeDirectory: what is reported of a directory that is
-- gone.
use efsw.Base.{
  ◌≡◌, refl, sym, ap, ap₂, ◌∙◌, inl, inr, Bool, true, false, not, List, [], ◌∷◌, ◌++◌, append_assoc,
  append-nil, map, map-append, Text, if◌then◌else◌, Bool-cases, select, none, some,
}
use efsw.FileSystem.{file_name_from_path}
use efsw.FileInfo.{Os, FileInfo, file_info, stat_path, restored_path, exists, info_eq}
use efsw.FileInfo.Laws.{file_info-filepath}
use efsw.FileActionBatch.{Event, delete}
use efsw.Snapshot.{Snapshot, Diff, delete_all, scan, directory_exists, cleared}
use efsw.Snapshot.Views.{has_kind, deleted_of}
use efsw.Snapshot.Deleted.{add_deleted, deleted-add_deleted}
use efsw.DirWatcher.{
  Tree, node, Children, leaf, child, Watch, handle_action, report, report_gone, destroy,
  destroy_children, find_child, erase, key, remove_directory,
}

-- A directory that is gone: `stat` finds nothing at its path, which is spelled the way FileInfo
-- leaves a path.
unfoldable mutual
  pub IsGone : Os → Tree → Type 0
  IsGone os (node recursive s cs) =
      ((restored_path s.directory_info.filepath ≡ s.directory_info.filepath)
        × (os.stat (stat_path s.directory_info.filepath) ≡ none))
      × AreGone os cs

  pub AreGone : Os → Children → Type 0
  AreGone os leaf = Unit
  AreGone os (child n t cs) = IsGone os t × AreGone os cs

abbrev pub deletion : Watch → Text → FileInfo → Event
deletion w directory f = record {
  watch = w.id;
  directory = directory;
  filename = file_name_from_path f.filepath;
  action_type = delete;
  old_filename = [];
  info = f;
}

-- One deletion for each file of each directory of a tree, from the root down; in a directory the
-- files that are not directories come first.
unfoldable mutual
  pub all_deletions : Watch → Tree → List Event
  all_deletions w (node recursive s cs) =
      map (deletion w s.directory_info.filepath)
        (select (has_kind false) s.files ++ select (has_kind true) s.files)
      ++ deletions_in w cs

  pub deletions_in : Watch → Children → List Event
  deletions_in w leaf = []
  deletions_in w (child n t cs) = all_deletions w t ++ deletions_in w cs

delete_all-deleted :
    (dir : Bool) (d : Diff) (fs : List FileInfo)
    → deleted_of dir (delete_all d fs) ≡ deleted_of dir d ++ select (has_kind dir) fs
unfolding delete_all
delete_all-deleted dir d [] = sym (append-nil (deleted_of dir d))
delete_all-deleted dir d (f ∷ fs) =
    let ih = delete_all-deleted dir (add_deleted d f) fs in
    elim (Bool-cases (has_kind dir f)) [
      | inl k ↦
          rw (ih, deleted-add_deleted dir d f, k)
            (append_assoc (deleted_of dir d) (f ∷ []) (select (has_kind dir) fs))
      | inr k ↦ rw (ih, deleted-add_deleted dir d f, k, append-nil (deleted_of dir d)) refl
    ]

report-map :
    (w : Watch) (s : Snapshot) (fs : List FileInfo)
    → report w s delete fs ≡ map (deletion w s.directory_info.filepath) fs
unfolding report handle_action
report-map w s [] = refl
report-map w s (f ∷ fs) = ap (λ es. deletion w s.directory_info.filepath f ∷ es) (report-map w s fs)

abbrev scanned_info : Os → Snapshot → FileInfo
scanned_info os s =
    let cur = file_info os s.directory_info.filepath in
    if not (info_eq s.directory_info cur) then cur else s.directory_info

module _ (w : Watch) (s : Snapshot)
    (stable : restored_path s.directory_info.filepath ≡ s.directory_info.filepath)
    (gone : w.os.stat (stat_path s.directory_info.filepath) ≡ none) where
  cur_path : (file_info w.os s.directory_info.filepath).filepath ≡ s.directory_info.filepath
  cur_path = file_info-filepath w.os s.directory_info.filepath ∙ stable

  info_path : (scanned_info w.os s).filepath ≡ s.directory_info.filepath
  info_path =
      elim (Bool-cases (info_eq s.directory_info (file_info w.os s.directory_info.filepath))) [
        | inl e ↦ rw e refl
        | inr e ↦ rw e cur_path
      ]

  gone_at : (fi : FileInfo) → fi.filepath ≡ s.directory_info.filepath → (exists w.os fi).0 ≡ false
  unfolding exists
  gone_at fi e = rw (e, gone) refl

  dir_changed : Bool
  dir_changed = not (info_eq s.directory_info (file_info w.os s.directory_info.filepath))

  after : Snapshot
  after = record { directory_info = scanned_info w.os s; files = [] }

  scan-gone : scan w.os s ≡ (delete_all (cleared dir_changed) s.files, after)
  unfolding scan dir_changed after
  scan-gone = rw (gone_at (file_info w.os s.directory_info.filepath) cur_path) refl

  after-gone : directory_exists w.os after ≡ false
  unfolding directory_exists after
  after-gone = gone_at (scanned_info w.os s) info_path

  report-after :
      (fs : List FileInfo)
      → report w after delete fs ≡ map (deletion w s.directory_info.filepath) fs
  unfolding after
  report-after fs = report-map w after fs ∙ ap (λ p. map (deletion w p) fs) info_path

  report_gone-deletions :
      report_gone w true s
      ≡ map
          (deletion w s.directory_info.filepath)
          (select (has_kind false) s.files ++ select (has_kind true) s.files)
  unfolding report_gone
  report_gone-deletions =
      rw
        (
          scan-gone,
          after-gone,
          report-after (deleted_of false (delete_all (cleared dir_changed) s.files)),
          report-after (deleted_of true (delete_all (cleared dir_changed) s.files)),
          delete_all-deleted false (cleared dir_changed) s.files,
          delete_all-deleted true (cleared dir_changed) s.files,
        )
        (sym (
          map-append (deletion w s.directory_info.filepath) (select (has_kind false) s.files)
            (select (has_kind true) s.files)))

mutual
  unfolding destroy all_deletions IsGone

  destroy-deletions : (w : Watch) (t : Tree) → IsGone w.os t → destroy w true t ≡ all_deletions w t
  destroy-deletions w (node r s cs) ((stable, gone), rest) =
      ap₂ (λ a b. a ++ b) (report_gone-deletions w s stable gone)
        (destroy_children-deletions w cs rest)

  destroy_children-deletions :
      (w : Watch) (cs : Children) → AreGone w.os cs → destroy_children w true cs ≡ deletions_in w cs
  destroy_children-deletions w leaf h = refl
  destroy_children-deletions w (child n t cs) (h, k) =
      ap₂ (λ a b. a ++ b) (destroy-deletions w t h) (destroy_children-deletions w cs k)

-- When the watched child of this name is gone with all its watched subdirectories (`stat` fails at
-- their paths, which are spelled the way FileInfo leaves them), `removeDirectory` reports a
-- deletion for every file that their snapshots know, from the child down and in each directory the
-- files that are no directories first, and erases this child.
pub remove_directory-gone :
    (w : Watch) (cs : Children) (dir : Text) (t : Tree)
    → find_child cs (key dir) ≡ some t
    → IsGone w.os t
    → remove_directory w cs dir ≡ (erase (key dir) cs, all_deletions w t)
unfolding remove_directory
remove_directory-gone w cs dir t e h = rw (remove_directory, e, destroy-deletions w t h) refl
