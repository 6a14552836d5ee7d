-- ===== src/Inotify/Adding/Users.antt =====
-- The watches of a user stay apart: what addWatch and removeWatch keep.
use efsw.Base.{
  ℕ, zero, suc, ◌<◌, ◌≡◌, refl, sym, subst, inl, inr, Bool, List, [], ◌∷◌, ◌++◌, Text, ◌==◌, length,
  get_or, All, Bool-cases, arith, length-append,
}
use efsw.FileInfo.{Os}
use efsw.Inotify.{WatcherInotify, new_watcher, State, erase_id}
use efsw.Inotify.Overlap.{directory_comparison_path}
use efsw.Inotify.Overlap.Conflict.{AreApart}

module _ (os : Os) (objects : List WatcherInotify) where
  -- The watch of an entry stands apart from a directory.
  abbrev pub Apart : Text → Bool → (ℕ × ℕ) → Type 0
  Apart directory recursive (wd, r) =
      AreApart directory recursive
        (directory_comparison_path os (get_or objects r new_watcher).directory)
        (get_or objects r new_watcher).recursive

  -- The watches of a list of entries stand apart from one another.
  abbrev pub Pairwise : List (ℕ × ℕ) → Type 0
  Pairwise [] = Unit
  Pairwise ((wd, r) ∷ m) =
      All
        (Apart (directory_comparison_path os (get_or objects r new_watcher).directory)
          (get_or objects r new_watcher).recursive)
        m
      × Pairwise m

-- The entries are of objects.
abbrev pub AreValid : ℕ → List (ℕ × ℕ) → Type 0
AreValid n [] = Unit
AreValid n ((wd, r) ∷ m) = (r < n) × AreValid n m

-- The watches that users asked for have objects, and stand apart from one another: by the paths
-- that identify their directories, no two are of the same directory, and none is inside another
-- that is recursive.
abbrev pub UsersApart : {K : Type 0} → Os → State K → Type 0
UsersApart os s = AreValid (length s.objects) s.real_watches × Pairwise os s.objects s.real_watches

pub erase-All : (P : (ℕ × ℕ) → Type 0) (m : List (ℕ × ℕ)) (k : ℕ) → All P m → All P (erase_id m k)
unfolding erase_id
erase-All P [] k h = tt
erase-All P ((wd, r) ∷ m) k h = elim (Bool-cases (wd == k)) [
  | inl e ↦ rw e (erase-All P m k h.1)
  | inr e ↦ rw e (h.0, erase-All P m k h.1)
]

pub erase-AreValid : (n : ℕ) (m : List (ℕ × ℕ)) (k : ℕ) → AreValid n m → AreValid n (erase_id m k)
unfolding erase_id
erase-AreValid n [] k h = tt
erase-AreValid n ((wd, r) ∷ m) k h = elim (Bool-cases (wd == k)) [
  | inl e ↦ rw e (erase-AreValid n m k h.1)
  | inr e ↦ rw e (h.0, erase-AreValid n m k h.1)
]

pub erase-Pairwise :
    (os : Os) (objects : List WatcherInotify) (m : List (ℕ × ℕ)) (k : ℕ)
    → Pairwise os objects m
    → Pairwise os objects (erase_id m k)
unfolding erase_id
erase-Pairwise os objects [] k h = tt
erase-Pairwise os objects ((wd, r) ∷ m) k h = elim (Bool-cases (wd == k)) [
  | inl e ↦ rw e (erase-Pairwise os objects m k h.1)
  | inr e ↦ rw e (erase-All _ m k h.0, erase-Pairwise os objects m k h.1)
]

-- A new object leaves the others where they are.
get_or-kept :
    (objects : List WatcherInotify) (x : WatcherInotify) (r : ℕ)
    → r < length objects
    → get_or (objects ++ x ∷ []) r new_watcher ≡ get_or objects r new_watcher
get_or-kept [] x r h = absurd (omega arith)
get_or-kept (y ∷ objects) x zero h = refl
get_or-kept (y ∷ objects) x (suc r) h = get_or-kept objects x r (omega arith)

pub get_or-new :
    (objects : List WatcherInotify) (x : WatcherInotify)
    → get_or (objects ++ x ∷ []) (length objects) new_watcher ≡ x
get_or-new [] x = refl
get_or-new (y ∷ objects) x = get_or-new objects x

module _ (os : Os) (objects : List WatcherInotify) (x : WatcherInotify) where
  pub kept-All :
      (directory : Text) (recursive : Bool) (m : List (ℕ × ℕ))
      → AreValid (length objects) m
      → All (Apart os objects directory recursive) m
      → All (Apart os (objects ++ x ∷ []) directory recursive) m
  kept-All directory recursive [] v h = tt
  kept-All directory recursive ((wd, r) ∷ m) v h = (
    subst (λ w. AreApart directory recursive (directory_comparison_path os w.directory) w.recursive)
        (sym (get_or-kept objects x r v.0)) h.0,
    kept-All directory recursive m v.1 h.1,
  )

  pub kept-Pairwise :
      (m : List (ℕ × ℕ))
      → AreValid (length objects) m
      → Pairwise os objects m
      → Pairwise os (objects ++ x ∷ []) m
  kept-Pairwise [] v h = tt
  kept-Pairwise ((wd, r) ∷ m) v h = (
    subst
        (λ w.
          All (Apart os (objects ++ x ∷ []) (directory_comparison_path os w.directory) w.recursive)
            m)
        (sym (get_or-kept objects x r v.0)) (kept-All _ _ m v.1 h.0),
    kept-Pairwise m v.1 h.1,
  )

  pub kept-AreValid :
      (m : List (ℕ × ℕ)) → AreValid (length objects) m → AreValid (length (objects ++ x ∷ [])) m
  kept-AreValid [] v = tt
  kept-AreValid ((wd, r) ∷ m) v =
      (omega (arith, v.0, length-append objects (x ∷ [])), kept-AreValid m v.1)
