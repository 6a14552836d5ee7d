-- ===== src/Snapshot/Edit.antt =====
-- DirectorySnapshot::addFile, removeFile and moveFile on the sorted list of files.
use efsw.Base.{◌≡◌, subst, ◌∙◌, Text, text_eq, if◌then◌else◌, none, some, arith}
use efsw.FileInfo.{Os, file_info, restored_path}
use efsw.FileInfo.Sorting.{Sorted}
use efsw.FileInfo.Laws.{file_info-filepath}
use efsw.Snapshot.{Snapshot, find_file, add_file, remove_file, move_file}
use efsw.Snapshot.Lookup.{put, erase, find_file-put, put-Sorted, find_file-erase, erase-Sorted}

-- DirectorySnapshot::addFile, for a path that FileInfo keeps as it is: sorted files stay sorted,
-- and afterwards the path finds the new information and every other path what it found before.
add_file_lem :
    (os : Os) (s : Snapshot) (path q : Text)
    → Sorted s.files
    → restored_path path ≡ path
    → (find_file (add_file os s path).files q
        ≡ (if text_eq path q then some (file_info os path) else find_file s.files q))
      × Sorted (add_file os s path).files
unfolding add_file put
add_file_lem os s path q v e =
    let e' = file_info-filepath os path ∙ e in
    (
      subst
          (λ p.
            find_file (put p (file_info os path) s.files) q
            ≡ (if text_eq p q then some (file_info os path) else find_file s.files q))
          e' (find_file-put (file_info os path) q s.files v),
      subst (λ p. Sorted (put p (file_info os path) s.files)) e'
          (put-Sorted (file_info os path) s.files v),
    )

-- DirectorySnapshot::removeFile keeps sorted files sorted, and takes away exactly the path's file.
remove_file_lem :
    (s : Snapshot) (path q : Text)
    → Sorted s.files
    → (find_file (remove_file s path).files q
        ≡ (if text_eq path q then none else find_file s.files q))
      × Sorted (remove_file s path).files
unfolding remove_file erase
remove_file_lem s path q v = (find_file-erase path q s.files v, erase-Sorted path s.files v)

-- DirectorySnapshot::moveFile on sorted files, to a path that FileInfo keeps as it is: they stay
-- sorted, the new path finds fresh information, the old path nothing unless it is the new one too,
-- and every other path what it found before.
pub move_file_lem :
    (os : Os) (s : Snapshot) (old_path new_path q : Text)
    → Sorted s.files
    → restored_path new_path ≡ new_path
    → (find_file (move_file os s old_path new_path).files q ≡ (
        if text_eq new_path q
        then some (file_info os new_path)
        else if text_eq old_path q
        then none
        else find_file s.files q))
      × Sorted (move_file os s old_path new_path).files
unfolding move_file
move_file_lem os s old_path new_path q v e =
    let removed = remove_file_lem s old_path q v in
    let added = add_file_lem os (remove_file s old_path) new_path q removed.1 e in
    (ground (arith, removed.0, added.0), added.1)
