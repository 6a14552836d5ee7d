-- ===== src/Inotify/Overlap/Conflict.antt =====
-- What getWatchConflict decides, whatever the order of its loop.
use efsw.Base.{
  ℕ, ◌≡◌, ◌↔◌, refl, Bool, true, false, List, [], ◌∷◌, Text, text_eq, if◌then◌else◌, ◌&&◌, All,
}
use efsw.FileInfo.{Os}
use efsw.FileWatcher.{Error, no_error, file_repeated, file_overlapping}
use efsw.Inotify.{State, object}
use efsw.Inotify.Overlap.{
  is_directory_inside, directory_comparison_path, conflict_with, conflict_loop, get_watch_conflict,
}

-- Two watches that may stand beside one another: their directories differ, and neither is inside
-- the other if that one is recursive.
abbrev pub AreApart : Text → Bool → Text → Bool → Type 0
AreApart directory recursive existing existing_recursive =
    (text_eq existing directory ≡ false)
    × ((existing_recursive && is_directory_inside directory existing ≡ false)
        × (recursive && is_directory_inside existing directory ≡ false))

conflict_with_iff :
    (directory : Text) (recursive : Bool) (existing : Text) (existing_recursive : Bool)
    → (conflict_with directory recursive existing existing_recursive ≡ no_error)
      ↔ AreApart directory recursive existing existing_recursive
unfolding conflict_with
conflict_with_iff directory recursive existing existing_recursive =
    decide (text_eq existing directory)
      (existing_recursive && is_directory_inside directory existing)
      (recursive && is_directory_inside existing directory)
  where
    decide :
        (a b c : Bool)
        → ((if a
              then file_repeated
              else if b
              then file_overlapping
              else if c
              then file_overlapping
              else no_error)
            ≡ no_error)
          ↔ ((a ≡ false) × ((b ≡ false) × (c ≡ false)))
    decide true b c = (λ h. cc, λ h. cc)
    decide false true c = (λ h. cc, λ h. cc)
    decide false false true = (λ h. cc, λ h. cc)
    decide false false false = (λ h. (refl, (refl, refl)), λ h. refl)

first_iff :
    (e later : Error)
    → ((elim e [ no_error ↦ later | e ↦ e ]) ≡ no_error) ↔ ((e ≡ no_error) × (later ≡ no_error))
first_iff no_error later = (λ h. (refl, h), λ h. h.1)
first_iff _ later = (λ h. cc, λ h. cc)

module _ {K : Type 0} (os : Os) (s : State K) where
  -- The watch of an entry of the map stands apart from a directory.
  abbrev pub IsApart : Text → Bool → (ℕ × ℕ) → Type 0
  IsApart directory recursive (wd, r) =
      AreApart directory recursive (directory_comparison_path os (object s r).directory)
        (object s r).recursive

  conflict_loop_iff :
      (directory : Text) (recursive : Bool) (m : List (ℕ × ℕ))
      → (conflict_loop os s directory recursive m ≡ no_error) ↔ All (IsApart directory recursive) m
  unfolding conflict_loop
  conflict_loop_iff directory recursive [] = (λ h. tt, λ h. refl)
  conflict_loop_iff directory recursive ((wd, r) ∷ m) =
      let one =
        conflict_with_iff directory recursive (directory_comparison_path os (object s r).directory)
          (object s r).recursive in
      let rest = conflict_loop_iff directory recursive m in
      let both =
        first_iff
          (conflict_with directory recursive (directory_comparison_path os (object s r).directory)
            (object s r).recursive)
          (conflict_loop os s directory recursive m) in
      (λ h. (one.0 (both.0 h).0, rest.0 (both.0 h).1), λ h. both.1 (one.1 h.0, rest.1 h.1))

  -- A new watch of a user has no conflict exactly when it stands apart from every watch of a user:
  -- by the paths that identify the directories, no other watch has the same directory, and neither
  -- is inside the other if that one is recursive.
  pub get_watch_conflict_iff :
      (directory : Text) (recursive : Bool)
      → (get_watch_conflict os s directory recursive ≡ no_error)
        ↔ All (IsApart (directory_comparison_path os directory) recursive) s.real_watches
  unfolding get_watch_conflict
  get_watch_conflict_iff directory recursive =
      conflict_loop_iff (directory_comparison_path os directory) recursive s.real_watches
