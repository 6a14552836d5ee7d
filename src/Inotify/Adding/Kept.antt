-- ===== src/Inotify/Adding/Kept.antt =====
-- addWatch and removeWatch keep the watches of users apart.
use efsw.Base.{
  ℕ, zero, suc, sym, subst, Bool, false, not, ◌&&◌, List, [], ◌∷◌, ◌++◌, Text, length, if_holds,
  Option, none, some, is_some, All, arith, length-append,
}
use efsw.FileInfo.{Os}
use efsw.FileWatcher.{Settings}
use efsw.Inotify.{WatcherInotify, new_watcher, Kernel, State, find_id, erase_id, object}
use efsw.Inotify.Overlap.{directory_comparison_path}
use efsw.Inotify.Removing.{
  drop_watch, erase_watches, remove_below, remove_found, remove_all, remove_nested,
  remove_watch_locked,
}
use efsw.Inotify.Adding.{Wanted, register}
use efsw.Inotify.Adding.Users.{
  Apart, UsersApart, erase-All, erase-AreValid, erase-Pairwise, get_or-new, kept-All, kept-Pairwise,
  kept-AreValid,
}

-- What holds of a list of entries and of every list that comes from it by `erase`, holds after a
-- removal.
module _ {K : Type 0} (kernel : Kernel K) (Q : List WatcherInotify → List (ℕ × ℕ) → Type 0)
    (closed : (objects : List WatcherInotify) (m : List (ℕ × ℕ)) (k : ℕ)
      → Q objects m
      → Q objects (erase_id m k)) where
  abbrev Holds : State K → Type 0
  Holds s = Q s.objects s.real_watches

  drop_watch-keeps :
      (s : State K) (id r : ℕ) (skip : Bool) → Holds s → Holds (drop_watch kernel s id r skip)
  unfolding drop_watch
  drop_watch-keeps s id r skip h =
      if_holds (Q s.objects) (is_some (object s r).parent) _ _ h
        (closed s.objects s.real_watches _ h)

  -- A step that keeps it.
  abbrev IsKeeping : (State K → ℕ → State K) → Type 0
  IsKeeping remove = (s : State K) (id : ℕ) → Holds s → Holds (remove s id)

  remove_all-keeps :
      (remove : State K → ℕ → State K)
      → IsKeeping remove
      → (s : State K) (ids : List ℕ) → Holds s
      → Holds (remove_all kernel remove s ids)
  unfolding remove_all
  remove_all-keeps remove k s [] h = h
  remove_all-keeps remove k s (id ∷ ids) h = remove_all-keeps remove k (remove s id) ids (k s id h)

  remove_found-keeps :
      (remove : State K → ℕ → State K)
      → IsKeeping remove
      → (s : State K) (id : ℕ) (skip : Bool) (o : Option ℕ) → Holds s
      → Holds (remove_found kernel remove s id skip o)
  unfolding remove_found remove_below
  remove_found-keeps remove k s id skip none h = h
  remove_found-keeps remove k s id skip (some r) h =
      let ids = erase_watches kernel s.objects r s.watches in
      drop_watch-keeps (remove_below kernel remove s r) id r skip (
        if_holds Holds ((object s r).recursive && not (is_some (object s r).parent))
          (remove_all kernel remove s ids) s (remove_all-keeps remove k s ids h) h)

  remove_nested-keeps : (depth : ℕ) → IsKeeping (remove_nested kernel depth)
  unfolding remove_nested
  remove_nested-keeps zero s id h = h
  remove_nested-keeps (suc depth) s id h =
      if_holds Holds s.init_ok _ s
        (remove_found-keeps (remove_nested kernel depth) (remove_nested-keeps depth) s id false
          (find_id s.watches id) h)
        h

  pub remove_watch_locked-keeps :
      (s : State K) (id : ℕ) (skip : Bool) → Holds s → Holds (remove_watch_locked kernel s id skip)
  unfolding remove_watch_locked
  remove_watch_locked-keeps s id skip h =
      let depth = suc (length s.watches) in
      remove_found-keeps (remove_nested kernel depth) (remove_nested-keeps depth) s id skip
        (find_id s.watches id) h

-- Apart from the watches of users, for a watch that a user asks for.
abbrev pub IsFresh : {K : Type 0} → Os → State K → Text → Bool → Option ℕ → Type 0
IsFresh os s dir recursive (some p) = Unit
IsFresh os s dir recursive none =
    All (Apart os s.objects (directory_comparison_path os dir) recursive) s.real_watches

module _ {K : Type 0} (kernel : Kernel K) (os : Os) (settings : Settings) where
  pub register-UsersApart :
      (s : State K) (dir : Text) (wanted : Wanted) (parent : Option ℕ) (wd : ℕ)
      → UsersApart os s
      → IsFresh os s dir wanted.recursive parent
      → UsersApart os (register kernel os settings s dir wanted parent wd)
  unfolding register
  register-UsersApart s dir wanted (some p) wd (v, h) f = (
    kept-AreValid os s.objects _ s.real_watches v,
    kept-Pairwise os s.objects _ s.real_watches v h,
  )
  register-UsersApart s dir wanted none wd (v, h) f = (
    (
      omega (arith, length-append s.objects (new ∷ [])),
      kept-AreValid os s.objects new (erase_id s.real_watches wd)
          (erase-AreValid (length s.objects) s.real_watches wd v),
    ),
    (
      subst
          (λ w.
            All
              (Apart os (s.objects ++ new ∷ []) (directory_comparison_path os w.directory)
                w.recursive)
              (erase_id s.real_watches wd))
          (sym (get_or-new s.objects new))
          (kept-All os s.objects new (directory_comparison_path os dir) wanted.recursive
            (erase_id s.real_watches wd) (erase-AreValid (length s.objects) s.real_watches wd v)
            (erase-All (Apart os s.objects (directory_comparison_path os dir) wanted.recursive)
              s.real_watches wd f)),
      kept-Pairwise os s.objects new (erase_id s.real_watches wd)
          (erase-AreValid (length s.objects) s.real_watches wd v)
          (erase-Pairwise os s.objects s.real_watches wd h),
    ),
  )
    where
      new : WatcherInotify
      new = record {
        id = wd;
        directory = dir;
        listener = wanted.listener;
        recursive = wanted.recursive;
        old_file_name = [];
        parent = none;
        inotify_id = wd;
        dir_info = new_watcher.dir_info;
        synthetic_events = wanted.synthetic_events;
        report_cross_directory_moves = wanted.report_cross_directory_moves;
      }
