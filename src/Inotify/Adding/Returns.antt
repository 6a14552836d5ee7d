-- ===== src/Inotify/Adding/Returns.antt =====
-- addWatch returns where the directories are nested to a finite depth.
use efsw.Base.{
  ℕ, zero, suc, ◌<◌, ◌≡◌, refl, sym, subst, inl, inr, ◌⊎◌, ℤ, Bool, true, false, not, ◌&&◌, List,
  [], ◌∷◌, ◌++◌, Text, text_eq, length, if◌then◌else◌, if_holds, Option, some, is_some, All, arith,
  ◌>>=◌, Returns, Returns-bind,
}
use efsw.FileSystem.{dir_add_slash_at_end}
use efsw.FileInfo.{Os, FileInfo, file_info, is_directory, is_readable, get_link_real_path}
use efsw.FileInfo.Listing.{files_info_from_path}
use efsw.FileWatcher.{
  Settings, Error, no_error, file_not_found, file_repeated, file_out_of_scope, file_not_readable,
  file_remote, link_allowed,
}
use efsw.Inotify.{
  Kernel, State, Added, descriptor, no_entry, failure, find_id, object, path_in_watches,
}
use efsw.Inotify.Overlap.{get_watch_conflict}
use efsw.Inotify.Removing.{remove_watch_locked}
use efsw.Inotify.Adding.{
  Target, refused, target, Wanted, get_or_empty, check_conflict, find_target, register, synthesise,
  add_below, install, answer, ask, add_watch,
}

-- The directories in the listing of a directory have a smaller rank than a path.
abbrev Below : Os → (Text → ℕ) → Text → Text → Type 0
Below os rank path dir =
    All (λ f. is_directory f ≡ true → rank f.filepath < rank path) (files_info_from_path os dir)

-- A file system that is nested to a finite depth: the ranks of paths decrease from a directory, and
-- from what a link to a directory leads to, to the directories in it.
abbrev pub IsFinite : Os → (Text → ℕ) → Type 0
IsFinite os rank =
    (path : Text)
    → Below os rank path (dir_add_slash_at_end path)
      × Below os rank path (get_link_real_path os (dir_add_slash_at_end path)).0

-- The directory of a target comes from the path that was asked for.
abbrev ComesFrom : Os → Text → Target → Type 0
ComesFrom os path (refused e text) = Unit
ComesFrom os path (target dir) =
    (dir ≡ dir_add_slash_at_end path)
    ⊎ (dir ≡ (get_link_real_path os (dir_add_slash_at_end path)).0)

module _ {K : Type 0} (os : Os) (settings : Settings) (s : State K) (path : Text)
    (recursive internal : Bool) where
  check_conflict-ComesFrom :
      (dir : Text)
      → ComesFrom os path (target dir)
      → ComesFrom os path (check_conflict os settings s path recursive internal dir)
  unfolding check_conflict
  check_conflict-ComesFrom dir h =
      if_holds (ComesFrom os path) internal _ _ h (go (get_watch_conflict os s dir recursive))
    where
      go : (e : Error) → ComesFrom os path (elim e [ no_error ↦ target dir | e ↦ refused e path ])
      go no_error = h
      go _ = tt

  find_target-ComesFrom : ComesFrom os path (find_target os settings s path recursive internal)
  unfolding find_target
  find_target-ComesFrom =
      let dir = dir_add_slash_at_end path in
      let fi = file_info os dir in
      let (link, cur_path) = get_link_real_path os dir in
      if_holds from (not (is_directory fi)) (refused file_not_found dir) _ tt (
        if_holds from (not (is_readable os fi)) (refused file_not_readable dir) _ tt (
          if_holds from (internal && path_in_watches s s.real_watches dir)
            (refused file_repeated path) _ tt
            (if_holds from (internal && os.is_remote dir) (refused file_remote dir) _ tt (
              if_holds from (text_eq [] link)
                (check_conflict os settings s path recursive internal dir) _
                (check_conflict-ComesFrom dir (inl refl))
                (if_holds from (internal && not settings.follow_symlinks)
                  (refused file_out_of_scope dir) _ tt
                  (if_holds from
                    (not (
                      link_allowed settings.follow_symlinks settings.out_of_scope
                        (get_or_empty cur_path) link))
                    (refused file_out_of_scope dir) _ tt
                    (if_holds from (internal && path_in_watches s s.real_watches link)
                      (refused file_repeated path)
                      (check_conflict os settings s path recursive internal link) tt
                      (check_conflict-ComesFrom link (inr refl)))))))))
    where
      from : Target → Type 0
      from t = ComesFrom os path t

module _ {K : Type 0} (kernel : Kernel K) (os : Os) (settings : Settings) where
  add_below-Returns :
      (add : State K → Text → Option (ℤ × State K)) (n : ℕ) (rank : Text → ℕ)
      → ((s : State K) (path : Text) → rank path < n → Returns (add s path))
      → (s : State K) (files : List FileInfo)
      → All (λ f. is_directory f ≡ true → rank f.filepath < n) files
      → Returns (add_below kernel os settings add s files)
  unfolding add_below
  add_below-Returns add n rank f s [] h = refl
  add_below-Returns add n rank f s (file ∷ files) h =
      if_holds (λ o. Returns o) (not s.init_ok) (some s) _ refl
        (go (is_directory file && is_readable os file) refl
          (λ t. add_below-Returns add n rank f t files h.1))
    where
      go :
          (b : Bool)
          → (is_directory file && is_readable os file) ≡ b
          → ((t : State K) → Returns (add_below kernel os settings add t files))
          → Returns (
              if b
              then (do (id, s') ← add s file.filepath; add_below kernel os settings add s' files)
              else add_below kernel os settings add s files)
      go true e rest =
          Returns-bind (add s file.filepath) _ (f s file.filepath (h.0 (ground (arith, e))))
            (λ (id, s'). rest s')
      go false e rest = rest s

  -- For the directories below that have a rank below `n`.
  module _ (add : ℕ → State K → Text → Option (ℤ × State K)) (rank : Text → ℕ) (n : ℕ)
      (returns : (r : ℕ) (s : State K) (path : Text) → rank path < n → Returns (add r s path)) where
    install-Returns :
        (s : State K) (dir : Text) (wanted : Wanted) (parent : Option ℕ) (internal : Bool) (wd : ℕ)
        → All (λ f. is_directory f ≡ true → rank f.filepath < n) (files_info_from_path os dir)
        → Returns (install kernel os settings add s dir wanted parent internal wd)
    unfolding install
    install-Returns s dir wanted parent internal wd h =
        Returns-bind
          (if wanted.recursive
            then add_below kernel os settings (add (length ready.objects)) told files
            else some registered)
          _
          (if_holds (λ o. Returns o) wanted.recursive _ (some registered)
            (add_below-Returns (add (length ready.objects)) n rank (returns (length ready.objects))
              told files h)
            refl)
          (λ s'. refl)
      where
        ready : State K
        ready = if is_some (find_id s.watches wd) then remove_watch_locked kernel s wd true else s

        registered : State K
        registered = register kernel os settings ready dir wanted parent wd

        files : List FileInfo
        files = files_info_from_path os dir

        told : State K
        told =
            if internal && (is_some parent && wanted.synthetic_events)
            then record registered {
              notices =
                  registered.notices
                  ++ synthesise kernel os settings (object registered (length ready.objects)) files;
            }
            else registered

    ask-Returns :
        (s : State K) (wanted : Wanted) (parent : Option ℕ) (internal : Bool) (t : Target)
        → ((dir : Text)
            → t ≡ target dir
            → All (λ f. is_directory f ≡ true → rank f.filepath < n) (files_info_from_path os dir))
        → Returns (ask kernel os settings add s wanted parent internal t)
    unfolding ask answer
    ask-Returns s wanted parent internal (refused e text) h = refl
    ask-Returns s wanted parent internal (target dir) h = go (kernel.add_watch s.kernel dir).0
      where
        asked : State K
        asked = record s { kernel = (kernel.add_watch s.kernel dir).1 }

        go :
            (a : Added) → Returns (answer kernel os settings add asked dir wanted parent internal a)
        go no_entry = refl
        go (failure text) = refl
        go (descriptor wd) = install-Returns asked dir wanted parent internal wd (h dir refl)

  -- In a file system that is nested to a finite depth, a fuel that is greater than the rank of the
  -- directory is enough for addWatch, whatever the state and the kernel's answers.
  pub add_watch-Returns :
      (rank : Text → ℕ)
      → IsFinite os rank
      → (fuel : ℕ) (s : State K) (directory : Text) (wanted : Wanted) (parent : Option ℕ)
        (internal : Bool)
      → rank directory < fuel
      → Returns (add_watch kernel os settings fuel s directory wanted parent internal)
  unfolding add_watch
  add_watch-Returns rank finite zero s directory wanted parent internal h = absurd (omega arith)
  add_watch-Returns rank finite (suc fuel) s directory wanted parent internal h =
      ask-Returns (λ r s path. add_watch kernel os settings fuel s path wanted (some r) internal)
        rank (rank directory)
        (λ r s path k.
          add_watch-Returns rank finite fuel s path wanted (some r) internal (omega (arith, k, h)))
        s wanted parent internal
        (find_target os settings s directory wanted.recursive (is_some parent))
        (λ dir e. listed dir (
          subst (ComesFrom os directory) e
            (find_target-ComesFrom os settings s directory wanted.recursive (is_some parent))))
    where
      listed : (dir : Text) → ComesFrom os directory (target dir) → Below os rank directory dir
      listed dir (inl e) = subst (Below os rank directory) (sym e) (finite directory).0
      listed dir (inr e) = subst (Below os rank directory) (sym e) (finite directory).1
