-- ===== src/Inotify/Adding/Accepted.antt =====
-- addWatch accepts a watch of a user only if it stands apart from those that are there, and what it
-- does for the directories below keeps this.
use efsw.Base.{
  ℕ, zero, suc, ◌≡◌, refl, subst, ℤ, Bool, true, false, not, ◌&&◌, List, [], ◌∷◌, ◌++◌, Text,
  text_eq, length, if◌then◌else◌, if_holds, Option, none, some, is_some, All, ◌>>=◌,
}
use efsw.FileSystem.{dir_add_slash_at_end}
use efsw.FileInfo.{Os, FileInfo, file_info, is_directory, is_readable, get_link_real_path}
use efsw.FileInfo.Listing.{files_info_from_path}
use efsw.FileWatcher.{
  Settings, Error, no_error, file_not_found, file_out_of_scope, file_not_readable, link_allowed,
}
use efsw.Inotify.{Kernel, State, Added, descriptor, no_entry, failure, find_id, object}
use efsw.Inotify.Overlap.{directory_comparison_path, get_watch_conflict}
use efsw.Inotify.Overlap.Conflict.{get_watch_conflict_iff}
use efsw.Inotify.Removing.{remove_watch_locked}
use efsw.Inotify.Adding.{
  Target, refused, target, Wanted, check_conflict, find_target, fail, get_or_empty, register,
  synthesise, add_below, install, answer, ask, add_watch,
}
use efsw.Inotify.Adding.Users.{
  Apart, Pairwise, AreValid, UsersApart, erase-All, erase-AreValid, erase-Pairwise,
}
use efsw.Inotify.Adding.Kept.{IsFresh, register-UsersApart, remove_watch_locked-keeps}

-- What holds of a result, if there is one.
abbrev pub Holds {ℓ} : {A : Type ℓ} → (A → Type 0) → Option A → Type 0
Holds P none = Unit
Holds P (some a) = P a

Holds-bind :
    {A B : Type 0} (P : A → Type 0) (Q : B → Type 0) (o : Option A) (k : A → Option B)
    → Holds P o
    → ((a : A) → P a → Holds Q (k a))
    → Holds Q (o >>= k)
Holds-bind P Q none k h f = tt
Holds-bind P Q (some a) k h f = f a h

-- A target is refused, or it is free of conflicts.
abbrev IsFree : {K : Type 0} → Os → State K → Bool → Target → Type 0
IsFree os s recursive (refused e text) = Unit
IsFree os s recursive (target dir) = get_watch_conflict os s dir recursive ≡ no_error

module _ {K : Type 0} (os : Os) (settings : Settings) (s : State K) (directory : Text)
    (recursive : Bool) where
  check_conflict-IsFree :
      (dir : Text)
      → IsFree os s recursive (check_conflict os settings s directory recursive false dir)
  unfolding check_conflict
  check_conflict-IsFree dir = go (get_watch_conflict os s dir recursive) refl
    where
      go :
          (e : Error)
          → get_watch_conflict os s dir recursive ≡ e
          → IsFree os s recursive (elim e [ no_error ↦ target dir | e ↦ refused e directory ])
      go no_error h = h
      go _ h = tt

  find_target-IsFree : IsFree os s recursive (find_target os settings s directory recursive false)
  unfolding find_target
  find_target-IsFree =
      let dir = dir_add_slash_at_end directory in
      let fi = file_info os dir in
      let (link, cur_path) = get_link_real_path os dir in
      if_holds free (not (is_directory fi)) (refused file_not_found dir) _ tt (
        if_holds free (not (is_readable os fi)) (refused file_not_readable dir) _ tt (
          if_holds free (text_eq [] link)
            (check_conflict os settings s directory recursive false dir) _
            (check_conflict-IsFree dir)
            (if_holds free
              (not (
                link_allowed settings.follow_symlinks settings.out_of_scope (get_or_empty cur_path)
                  link))
              (refused file_out_of_scope dir)
              (check_conflict os settings s directory recursive false link) tt
              (check_conflict-IsFree link))))
    where
      free : Target → Type 0
      free t = IsFree os s recursive t

module _ {K : Type 0} (kernel : Kernel K) (os : Os) (settings : Settings) where
  abbrev Kept : Option (ℤ × State K) → Type 0
  Kept = Holds (λ (id, s). UsersApart os s)

  abbrev KeptState : Option (State K) → Type 0
  KeptState = Holds (λ s. UsersApart os s)

  add_below-keeps :
      (add : State K → Text → Option (ℤ × State K))
      → ((s : State K) (path : Text) → UsersApart os s → Kept (add s path))
      → (s : State K) (files : List FileInfo) → UsersApart os s
      → KeptState (add_below kernel os settings add s files)
  unfolding add_below
  add_below-keeps add f s [] h = h
  add_below-keeps add f s (file ∷ files) h = if_holds KeptState (not s.init_ok) (some s) _ h (
      if_holds KeptState (is_directory file && is_readable os file) _ _
        (Holds-bind (λ (id, s). UsersApart os s) (λ s. UsersApart os s) (add s file.filepath) _
          (f s file.filepath h) (λ (id, s') h'. add_below-keeps add f s' files h'))
        (add_below-keeps add f s files h))

  -- What addWatch for a directory below keeps.
  abbrev BelowKeeps : (ℕ → State K → Text → Option (ℤ × State K)) → Type 0
  BelowKeeps add = (r : ℕ) (s : State K) (path : Text) → UsersApart os s → Kept (add r s path)

  -- A removal keeps what a registration needs.
  cleared-keeps :
      (s : State K) (dir : Text) (recursive : Bool) (parent : Option ℕ) (wd : ℕ)
      → UsersApart os s
      → IsFresh os s dir recursive parent
      → let cleared = remove_watch_locked kernel s wd true in
        UsersApart os cleared × IsFresh os cleared dir recursive parent
  cleared-keeps s dir recursive (some p) wd h f = (
    remove_watch_locked-keeps kernel (λ o m. AreValid (length o) m × Pairwise os o m)
        (λ o m k (v, w). (erase-AreValid (length o) m k v, erase-Pairwise os o m k w)) s wd true h,
    tt,
  )
  cleared-keeps s dir recursive none wd h f =
      remove_watch_locked-keeps kernel
        (λ o m.
          (AreValid (length o) m × Pairwise os o m)
          × All (Apart os o (directory_comparison_path os dir) recursive) m)
        (λ o m k ((v, w), a). (
          (erase-AreValid (length o) m k v, erase-Pairwise os o m k w),
          erase-All (Apart os o (directory_comparison_path os dir) recursive) m k a,
        ))
        s wd true (h, f)

  install-keeps :
      (add : ℕ → State K → Text → Option (ℤ × State K))
      → BelowKeeps add
      → (s : State K) (dir : Text) (wanted : Wanted) (parent : Option ℕ) (internal : Bool) (wd : ℕ)
      → UsersApart os s
      → IsFresh os s dir wanted.recursive parent
      → Kept (install kernel os settings add s dir wanted parent internal wd)
  unfolding install
  install-keeps add below s dir wanted parent internal wd h f =
      Holds-bind (λ s. UsersApart os s) (λ (id, s). UsersApart os s) _ _
        (if_holds KeptState wanted.recursive
          (add_below kernel os settings (add (length ready.objects)) told files) (some registered)
          (add_below-keeps (add (length ready.objects)) (below (length ready.objects)) told files
            told_kept)
          registered_kept)
        (λ s' h'. h')
    where
      ready : State K
      ready = if is_some (find_id s.watches wd) then remove_watch_locked kernel s wd true else s

      registered : State K
      registered = register kernel os settings ready dir wanted parent wd

      files : List FileInfo
      files = files_info_from_path os dir

      told : State K
      told =
          if internal && (is_some parent && wanted.synthetic_events)
          then record registered {
            notices =
                registered.notices
                ++ synthesise kernel os settings (object registered (length ready.objects)) files;
          }
          else registered

      ready_kept : UsersApart os ready × IsFresh os ready dir wanted.recursive parent
      ready_kept =
          if_holds (λ t. UsersApart os t × IsFresh os t dir wanted.recursive parent)
            (is_some (find_id s.watches wd)) (remove_watch_locked kernel s wd true) s
            (cleared-keeps s dir wanted.recursive parent wd h f) (h, f)

      registered_kept : UsersApart os registered
      registered_kept =
          register-UsersApart kernel os settings ready dir wanted parent wd ready_kept.0
            ready_kept.1

      told_kept : UsersApart os told
      told_kept =
          if_holds (λ t. UsersApart os t) (internal && (is_some parent && wanted.synthetic_events))
            _ registered registered_kept registered_kept

  ask-keeps :
      (add : ℕ → State K → Text → Option (ℤ × State K))
      → BelowKeeps add
      → (s : State K) (wanted : Wanted) (parent : Option ℕ) (internal : Bool) (t : Target)
      → UsersApart os s
      → ((dir : Text) → t ≡ target dir → IsFresh os s dir wanted.recursive parent)
      → Kept (ask kernel os settings add s wanted parent internal t)
  unfolding ask answer fail
  ask-keeps add below s wanted parent internal (refused e text) h f = h
  ask-keeps add below s wanted parent internal (target dir) h f =
      go (kernel.add_watch s.kernel dir).0
    where
      asked : State K
      asked = record s { kernel = (kernel.add_watch s.kernel dir).1 }

      fresh :
          (parent : Option ℕ)
          → IsFresh os s dir wanted.recursive parent
          → IsFresh os asked dir wanted.recursive parent
      fresh none g = g
      fresh (some p) g = tt

      go : (a : Added) → Kept (answer kernel os settings add asked dir wanted parent internal a)
      go no_entry = h
      go (failure text) = h
      go (descriptor wd) =
          install-keeps add below asked dir wanted parent internal wd h (fresh parent (f dir refl))

  find_target-IsFresh :
      (s : State K) (directory : Text) (recursive : Bool) (parent : Option ℕ) (dir : Text)
      → find_target os settings s directory recursive (is_some parent) ≡ target dir
      → IsFresh os s dir recursive parent
  find_target-IsFresh s directory recursive (some p) dir e = tt
  find_target-IsFresh s directory recursive none dir e =
      (get_watch_conflict_iff os s dir recursive).0
        (subst (IsFree os s recursive) e (find_target-IsFree os settings s directory recursive))

  -- Whatever addWatch returns, for a directory that a user asks for or for one below a watch: if
  -- the watches of users stood apart before, they do so afterwards.
  pub add_watch-UsersApart :
      (fuel : ℕ) (s : State K) (directory : Text) (wanted : Wanted) (parent : Option ℕ)
      (internal : Bool)
      → UsersApart os s
      → Kept (add_watch kernel os settings fuel s directory wanted parent internal)
  unfolding add_watch
  add_watch-UsersApart zero s directory wanted parent internal h = tt
  add_watch-UsersApart (suc fuel) s directory wanted parent internal h =
      ask-keeps (λ r s path. add_watch kernel os settings fuel s path wanted (some r) internal)
        (λ r s path. add_watch-UsersApart fuel s path wanted (some r) internal) s wanted parent
        internal (find_target os settings s directory wanted.recursive (is_some parent)) h
        (λ dir. find_target-IsFresh s directory wanted.recursive parent dir)
