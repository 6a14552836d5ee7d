-- ===== src/DirWatcher/Scan/Returns.antt =====
-- addChildren returns where the directories are nested to a finite depth.
use efsw.Base.{
  ℕ, zero, suc, ◌<◌, ◌≡◌, refl, inl, inr, ◌⊎◌, Bool, true, false, not, ◌&&◌, ◌||◌, List, [], ◌∷◌,
  ◌++◌, Text, text_eq, if◌then◌else◌, if_holds, Option, none, some, All, arith, ◌>>=◌, Returns,
  Returns-bind,
}
use efsw.FileSystem.{file_name_from_path}
use efsw.FileInfo.{Os, FileInfo, blank, is_directory, is_readable, get_link_real_path}
use efsw.FileActionBatch.{add}
use efsw.Snapshot.{Snapshot, scan, set_directory_info}
use efsw.DirWatcher.{Tree, node, Children, leaf, Watch, insert, handle_action, reset_path, create}
use efsw.DirWatcher.Scan.{
  Run, get_or_empty, is_watched, child_watch, child_key, add_files, add_children,
}

-- The snapshot of a new directory, of the parent at a path.
abbrev pub new_snapshot : Os → Text → Text → Text → Snapshot
new_snapshot os watch_directory parent dir =
    (scan os (
      set_directory_info os (record { directory_info = blank; files = [] })
        (reset_path watch_directory (some parent) dir))).1

-- The key of a directory is its name, or what it leads to if it is a link.
abbrev pub IsKey : Os → FileInfo → Text → Type 0
IsKey os file dir =
    let link = (get_link_real_path os file.filepath).0 in
    (dir ≡ file_name_from_path file.filepath) ⊎ ((text_eq [] link ≡ false) × (dir ≡ link))

-- The ranks of the directories that a snapshot leads to are smaller than its own.
abbrev pub IsRanked : Os → Text → (Text → ℕ) → Snapshot → Type 0
IsRanked os watch_directory rank s =
    All
      (λ file.
        is_directory file ≡ true
        → (dir : Text) → IsKey os file dir
        → rank
            (new_snapshot os watch_directory s.directory_info.filepath dir).directory_info.filepath
          < rank s.directory_info.filepath)
      s.files

-- A file system that is nested to a finite depth, as the snapshots of new directories see it.
abbrev pub IsFinite : Os → Text → (Text → ℕ) → Type 0
IsFinite os watch_directory rank =
    (parent dir : Text)
    → IsRanked os watch_directory rank (new_snapshot os watch_directory parent dir)

-- A key is of a directory.
abbrev IsKeyOf : Os → FileInfo → Option Text → Type 0
IsKeyOf os file none = Unit
IsKeyOf os file (some dir) = (is_directory file ≡ true) × IsKey os file dir

child_key-IsKeyOf :
    (w : Watch) (s : Snapshot) (cs : Children) (file : FileInfo)
    → IsKeyOf w.os file (child_key w s cs file)
unfolding child_key
child_key-IsKeyOf w s cs file =
    go (is_directory file && (is_readable w.os file && not (w.os.is_remote file.filepath))) refl
  where
    link : Text
    link = (get_link_real_path w.os file.filepath).0

    by_link : Option Text
    by_link =
        if not w.follow_symlinks
        then none
        else if is_watched w s cs link
            || not (w.link_allowed (get_or_empty (get_link_real_path w.os file.filepath).1) link)
        then none
        else some link

    by_name : Option Text
    by_name =
        if is_watched w s cs (file_name_from_path file.filepath)
        then none
        else some (file_name_from_path file.filepath)

    key : Option Text
    key = if not (text_eq [] link) then by_link else by_name

    holds : Option Text → Type 0
    holds o = IsKeyOf w.os file o

    linked :
        is_directory file ≡ true
        → (b : Bool) → text_eq [] link ≡ b
        → holds (if not b then by_link else by_name)
    linked d false e = if_holds holds (not w.follow_symlinks) none _ tt (
        if_holds holds
          (is_watched w s cs link
            || not (w.link_allowed (get_or_empty (get_link_real_path w.os file.filepath).1) link))
          none (some link) tt (d, inr (e, refl)))
    linked d true e =
        if_holds holds (is_watched w s cs (file_name_from_path file.filepath)) none
          (some (file_name_from_path file.filepath)) tt (d, inl refl)

    go :
        (b : Bool)
        → (is_directory file && (is_readable w.os file && not (w.os.is_remote file.filepath))) ≡ b
        → holds (if b then key else none)
    go false e = tt
    go true e =
        let d : is_directory file ≡ true = ground (arith, e) in linked d (text_eq [] link) refl

module _ (rank : Text → ℕ) where
  add_files-Returns :
      (grow : Watch → Tree → Run Tree) (w : Watch) (report_new recursive : Bool) (s : Snapshot)
      → ((cs : Children) (dir : Text) (s' : Snapshot)
          → IsRanked w.os w.directory rank s'
          → rank s'.directory_info.filepath < rank s.directory_info.filepath
          → Returns (grow (child_watch w s cs dir) (node recursive s' leaf)))
      → IsFinite w.os w.directory rank
      → (cs : Children) (files : List FileInfo)
      → All
          (λ file.
            is_directory file ≡ true
            → (dir : Text) → IsKey w.os file dir
            → rank
                (new_snapshot w.os w.directory s.directory_info.filepath
                  dir).directory_info.filepath
              < rank s.directory_info.filepath)
          files
      → Returns (add_files grow w report_new recursive s cs files)
  unfolding add_files create
  add_files-Returns grow w report_new recursive s grows finite cs [] h = refl
  add_files-Returns grow w report_new recursive s grows finite cs (file ∷ files) h =
      go (child_key w s cs file) (child_key-IsKeyOf w s cs file)
        (λ cs. add_files-Returns grow w report_new recursive s grows finite cs files h.1)
    where
      go :
          (o : Option Text)
          → IsKeyOf w.os file o
          → ((cs : Children) → Returns (add_files grow w report_new recursive s cs files))
          → Returns (elim o [
            | none ↦ add_files grow w report_new recursive s cs files
            | some dir ↦ do
              let first = if report_new then handle_action w s add dir [] file ∷ [] else []
              let (t, created) = create w (some s.directory_info.filepath) dir recursive report_new
              (t', grown) ← grow (child_watch w s cs dir) t
              (cs', others) ← add_files grow w report_new recursive s (insert dir t' cs) files
              some (cs', first ++ created ++ grown ++ others)
          ])
      go none k rest = rest cs
      go (some dir) (d, k) rest =
          Returns-bind _ _
            (grows cs dir (new_snapshot w.os w.directory s.directory_info.filepath dir)
              (finite s.directory_info.filepath dir) (h.0 d dir k))
            (λ (t', grown). Returns-bind _ _ (rest (insert dir t' cs)) (λ others. refl))

  -- In a file system that is nested to a finite depth, a fuel that is greater than the rank of a
  -- directory is enough for addChildren on a node whose snapshot leads to directories of smaller
  -- rank only.
  pub add_children-Returns :
      (fuel : ℕ) (w : Watch) (report_new recursive : Bool) (s : Snapshot) (cs : Children)
      → IsFinite w.os w.directory rank
      → IsRanked w.os w.directory rank s
      → rank s.directory_info.filepath < fuel
      → Returns (add_children fuel w report_new (node recursive s cs))
  unfolding add_children child_watch
  add_children-Returns zero w report_new recursive s cs finite ranked h = absurd (omega arith)
  add_children-Returns (suc fuel) w report_new false s cs finite ranked h = refl
  add_children-Returns (suc fuel) w report_new true s cs finite ranked h =
      Returns-bind
        (add_files (λ w t. add_children fuel w report_new t) w report_new true s cs s.files) _
        (add_files-Returns (λ w t. add_children fuel w report_new t) w report_new true s
          (λ cs dir s' r k.
            add_children-Returns fuel (child_watch w s cs dir) report_new true s' leaf finite r
              (omega (arith, k, h)))
          finite cs s.files ranked)
        (λ events. refl)
