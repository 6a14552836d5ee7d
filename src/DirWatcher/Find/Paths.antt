-- ===== src/DirWatcher/Find/Paths.antt =====
-- findDirWatcher against pathInWatches.
use efsw.Base.{
  ◌≡◌, refl, Bool, true, false, ◌||◌, List, [], ◌∷◌, Text, text_eq, text_eq_iff, text_eq_refl,
  text_lt-eq, inl, inr, Bool-cases, Option, none, some, ◌>>=◌,
}
use efsw.DirWatcher.{
  Tree, node, Children, leaf, child, path, children, find_child, path_in_watches,
  children_in_watches,
}
use efsw.DirWatcher.Find.{follow, find_dir_watcher, find_in_children}
use efsw.DirWatcher.Find.Keys.{IsSorted, find_child-IsAbove}

-- The keys of every directory of a tree are in order.
unfoldable mutual
  pub IsOrdered : Tree → Type 0
  IsOrdered (node recursive s cs) = IsSorted cs × AreOrdered cs

  pub AreOrdered : Children → Type 0
  AreOrdered leaf = Unit
  AreOrdered (child n t cs) = IsOrdered t × AreOrdered cs

abbrev follow_in : Children → List Text → Option Tree
follow_in cs [] = none
follow_in cs (name ∷ names) = find_child cs name >>= λ t. follow t names

-- What a search for a path may answer.
pub data Found (dir : Text) (is_known : Bool) (at : List Text → Option Tree)
    : Option (List Text) → Type 0 where
  missing : is_known ≡ false → Found dir is_known at none
  found :
      (names : List Text) (t : Tree)
      → is_known ≡ true
      → at names ≡ some t
      → path t ≡ dir
      → Found dir is_known at (some names)

follow_in-later :
    (dir n : Text) (t : Tree) (cs : Children) (names : List Text)
    → IsSorted (child n t cs)
    → (u : Tree) → follow_in cs names ≡ some u
    → follow_in (child n t cs) names ≡ some u
unfolding IsSorted find_child
follow_in-later dir n t cs [] k u h = cc
follow_in-later dir n t cs (name ∷ names) k u h = go (find_child cs name) refl h
  where
    go :
        (o : Option Tree)
        → find_child cs name ≡ o
        → (o >>= λ v. follow v names) ≡ some u
        → follow_in (child n t cs) (name ∷ names) ≡ some u
    go none e h = cc
    go (some v) e h = rw (text_lt-eq n name (find_child-IsAbove n name v cs k.0 e), e) h

IsSorted-rest : (n : Text) (t : Tree) (cs : Children) → IsSorted (child n t cs) → IsSorted cs
unfolding IsSorted
IsSorted-rest n t cs k = k.1

-- The answer for a directory that has another path, from the answer for its children.
Found-below :
    (t : Tree) (dir : Text) (known : Bool) (o : Option (List Text))
    → Found dir known (follow_in (children t)) o
    → Found dir known (follow t) o
unfolding follow
Found-below (node r s cs) dir known none (missing e) = missing e
Found-below (node r s cs) dir known (some []) (found names u e h p) = cc
Found-below (node r s cs) dir known (some (n ∷ ns)) (found names u e h p) = found (n ∷ ns) u e h p

-- The answer for the first child, if it has the path.
Found-first :
    (dir n : Text) (t : Tree) (cs : Children) (known others : Bool) (o rest : Option (List Text))
    → IsSorted (child n t cs)
    → Found dir known (follow t) o
    → Found dir others (follow_in cs) rest
    → Found dir
        (known || others)
        (follow_in (child n t cs))
        (elim o [ some names ↦ some (n ∷ names) | none ↦ rest ])
unfolding find_child
Found-first dir n t cs known others none none k (missing e) (missing e') = rw (e, e') (missing refl)
Found-first dir n t cs known others none (some _) k (missing e) (found names u e' h p) =
    rw (e, e') (found names u refl (follow_in-later dir n t cs names k u h) p)
Found-first dir n t cs known others (some _) rest k (found names u e h p) r =
    rw e (found (n ∷ names) u refl (rw (text_eq_refl n) h) p)

mutual
  unfolding find_dir_watcher path_in_watches IsOrdered follow

  find_tree :
      (t : Tree) (dir : Text)
      → IsOrdered t
      → Found dir (path_in_watches t dir) (follow t) (find_dir_watcher t dir)
  find_tree (node r s cs) dir k = elim (Bool-cases (text_eq s.directory_info.filepath dir)) [
    | inl e ↦
        rw e (found [] (node r s cs) refl refl ((text_eq_iff s.directory_info.filepath dir).0 e))
    | inr e ↦ rw e (
        Found-below (node r s cs) dir (children_in_watches cs dir) (find_in_children cs dir)
          (find_children cs dir k.0 k.1))
  ]

  find_children :
      (cs : Children) (dir : Text)
      → IsSorted cs
      → AreOrdered cs
      → Found dir (children_in_watches cs dir) (follow_in cs) (find_in_children cs dir)
  find_children leaf dir k l = missing refl
  find_children (child n t cs) dir k l =
      Found-first dir n t cs (path_in_watches t dir) (children_in_watches cs dir)
        (find_dir_watcher t dir) (find_in_children cs dir) k (find_tree t dir l.0)
        (find_children cs dir (IsSorted-rest n t cs k) l.1)

-- In a tree whose keys are in order, `findDirWatcher` finds a directory exactly when
-- `pathInWatches` says that the path is watched, and what it points to is a directory of the tree
-- that has this path.
pub find_dir_watcher-Found :
    (t : Tree) (dir : Text)
    → IsOrdered t
    → Found dir (path_in_watches t dir) (follow t) (find_dir_watcher t dir)
find_dir_watcher-Found t dir k = find_tree t dir k
