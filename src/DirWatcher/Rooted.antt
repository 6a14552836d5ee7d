-- ===== src/DirWatcher/Rooted.antt =====
-- Trees in which the path of a directory is made of the keys that lead to it: findDirWatcherFast
-- relies on it, and resetDirectory restores it after a directory has moved.
use efsw.Base.{
  ℕ, ◌<◌, ◌≡◌, ◌≢◌, refl, sym, ap, subst, ◌∙◌, inl, inr, false, List, [], ◌∷◌, ◌++◌, append_assoc,
  Text, text_eq, text_eq_iff, length, get_or, ◌==◌, if◌then◌else◌, Bool-cases, arith, Option, none,
  some, All, length-append, drop-length_append, ◌>>=◌,
}
use efsw.FileSystem.{os_slash, last_byte, dir_add_slash_at_end}
use efsw.FileSystem.Paths.{
  NoSlash, Snoc-cases, dir_add_slash_at_end-snoc, dir_remove_slash_at_end-snoc, last_byte-snoc,
  slash_at_end-snoc,
}
use efsw.FileSystem.Names.{NoSlash-last}
use efsw.Strings.{split}
use efsw.Strings.Laws.{enclose, IsPiece, split-enclose}
use efsw.FileInfo.{restored_path, stat_path, file_info}
use efsw.Snapshot.{set_directory_info}
use efsw.FileInfo.Laws.{file_info-filepath}
use efsw.DirWatcher.{
  Tree, node, Children, leaf, child, Watch, path, find_child, erase, key, move_directory,
  reset_path, reset_directory, reset_children,
}
use efsw.DirWatcher.Find.Keys.{find_child-insert-same}
use efsw.DirWatcher.Find.{follow, below_base, find_dir_watcher_fast}

abbrev pub IsName : Text → Type 0
IsName = IsPiece os_slash

-- The path of the root is a base and a separator; that of a child has its key after that of its
-- parent, and a key is the name of a directory.
unfoldable mutual
  pub IsRooted : Text → Tree → Type 0
  IsRooted base (node recursive s cs) =
      (s.directory_info.filepath ≡ base ++ os_slash ∷ []) × AreRooted base cs

  pub AreRooted : Text → Children → Type 0
  AreRooted base leaf = Unit
  AreRooted base (child n t cs) = IsName n × (IsRooted (base ++ os_slash ∷ n) t × AreRooted base cs)

-- Every key is a name, and not the directory of the watch.
unfoldable mutual
  pub HasNames : Text → Tree → Type 0
  HasNames watch_directory (node recursive s cs) = AreNamed watch_directory cs

  pub AreNamed : Text → Children → Type 0
  AreNamed watch_directory leaf = Unit
  AreNamed watch_directory (child n t cs) =
      (IsName n × (text_eq watch_directory n ≡ false))
      × (HasNames watch_directory t × AreNamed watch_directory cs)

name_end : (n : Text) → IsName n → (q : Text) × (x : ℕ) × (n ≡ q ++ x ∷ []) × (x ≢ os_slash)
name_end n h = elim (Snoc-cases n) [
  | inl e ↦ absurd (omega (arith, h.0, ap length e))
  | inr (q, x, e) ↦ (q, x, e, NoSlash-last q x (subst NoSlash e h.1))
]

first_byte : (n : Text) → IsName n → (get_or n 0 0 == os_slash) ≡ false
first_byte [] h = absurd (omega (arith, h.0))
first_byte (a ∷ n) h = ground (arith, h.1.0)

not_slash : (x : ℕ) → x ≢ os_slash → (x == os_slash) ≡ false
not_slash x h = ground arith

last_not_slash : (n : Text) → IsName n → (last_byte n == os_slash) ≡ false
last_not_slash n h =
    let (q, x, e, ne) = name_end n h in
    rw e (ap (λ b. b == os_slash) (last_byte-snoc q x) ∙ not_slash x ne)

add_slash_snoc :
    (q : Text) (x : ℕ)
    → x ≢ os_slash
    → dir_add_slash_at_end (q ++ x ∷ []) ≡ (q ++ x ∷ []) ++ os_slash ∷ []
add_slash_snoc q x ne = dir_add_slash_at_end-snoc q x ∙ rw (not_slash x ne) refl

add_slash_to_name :
    (base n : Text) → IsName n → dir_add_slash_at_end (base ++ n) ≡ (base ++ n) ++ os_slash ∷ []
add_slash_to_name base n h =
    let (q, x, e, ne) = name_end n h in
    subst (λ m. dir_add_slash_at_end m ≡ m ++ os_slash ∷ [])
      (append_assoc base q (x ∷ []) ∙ ap (λ m. base ++ m) (sym e)) (add_slash_snoc (base ++ q) x ne)

-- The path of a child whose key is a name.
reset_path-name :
    (watch_directory base n : Text)
    → IsName n
    → text_eq watch_directory n ≡ false
    → reset_path watch_directory (some (base ++ os_slash ∷ [])) n
      ≡ (base ++ os_slash ∷ n) ++ os_slash ∷ []
unfolding reset_path
reset_path-name watch_directory base n h k =
    rw
      (
        k,
        first_byte n h,
        last_not_slash n h,
        dir_add_slash_at_end-snoc base os_slash,
        add_slash_to_name [] n h,
      )
      (ground (
        arith,
        append_assoc base (os_slash ∷ []) (n ++ os_slash ∷ []),
        append_assoc base (os_slash ∷ n) (os_slash ∷ []),
      ))

restored_path-slash :
    (base n : Text)
    → IsName n
    → restored_path ((base ++ os_slash ∷ n) ++ os_slash ∷ [])
      ≡ (base ++ os_slash ∷ n) ++ os_slash ∷ []
unfolding restored_path stat_path
restored_path-slash base n h =
    rw
      (
        slash_at_end-snoc (base ++ os_slash ∷ n) os_slash,
        dir_remove_slash_at_end-snoc (base ++ os_slash ∷ n) os_slash,
      )
      (ap dir_add_slash_at_end (sym (append_assoc base (os_slash ∷ []) n))
        ∙ add_slash_to_name (base ++ os_slash ∷ []) n h
        ∙ ap (λ m. m ++ os_slash ∷ []) (append_assoc base (os_slash ∷ []) n))

mutual
  unfolding reset_directory HasNames IsRooted set_directory_info

  reset_directory-IsRooted :
      (w : Watch) (base n : Text) (t : Tree)
      → IsName n
      → text_eq w.directory n ≡ false
      → HasNames w.directory t
      → IsRooted (base ++ os_slash ∷ n) (reset_directory w (some (base ++ os_slash ∷ [])) t n)
  reset_directory-IsRooted w base n (node r s cs) h k hs =
      let e : (file_info w.os (reset_path w.directory (some (base ++ os_slash ∷ [])) n)).filepath
          ≡ (base ++ os_slash ∷ n) ++ os_slash ∷ [] =
        file_info-filepath w.os _
        ∙ ap restored_path (reset_path-name w.directory base n h k)
        ∙ restored_path-slash base n h in
      (
        e,
        subst (λ p. AreRooted (base ++ os_slash ∷ n) (reset_children w p cs)) (sym e)
            (reset_children-AreRooted w (base ++ os_slash ∷ n) cs hs),
      )

  reset_children-AreRooted :
      (w : Watch) (base : Text) (cs : Children)
      → AreNamed w.directory cs
      → AreRooted base (reset_children w (base ++ os_slash ∷ []) cs)
  reset_children-AreRooted w base leaf h = tt
  reset_children-AreRooted w base (child n t cs) ((h, k), (hs, rest)) =
      (h, (reset_directory-IsRooted w base n t h k hs, reset_children-AreRooted w base cs rest))

AreRooted-find :
    (base n : Text) (cs : Children) (t : Tree)
    → AreRooted base cs
    → find_child cs n ≡ some t
    → IsRooted (base ++ os_slash ∷ n) t
unfolding IsRooted find_child
AreRooted-find base n leaf t h e = cc
AreRooted-find base n (child m u cs) t (k, (h, hs)) e =
    let e' : (if text_eq m n then some u else find_child cs n) ≡ some t = e in
    elim (Bool-cases (text_eq m n)) [
      | inl q ↦
          let same : u ≡ t = ground (arith, q, e') in
          subst (λ v. IsRooted (base ++ os_slash ∷ n) v) same
            (subst (λ p. IsRooted (base ++ os_slash ∷ p) u) ((text_eq_iff m n).0 q) h)
      | inr q ↦
          let rest : find_child cs n ≡ some t = ground (arith, q, e') in
          AreRooted-find base n cs t hs rest
    ]

follow-path :
    (base : Text) (names : List Text) (t u : Tree)
    → IsRooted base t
    → follow t names ≡ some u
    → path u ≡ base ++ enclose os_slash names
unfolding follow IsRooted
follow-path base [] (node r s cs) u h e = ap (elim [ some v ↦ path v | none ↦ [] ]) (sym e) ∙ h.0
follow-path base (n ∷ ns) (node r s cs) u h e =
    go (find_child cs n) (follow-path (base ++ os_slash ∷ n) ns) refl e
  where
    go :
        (o : Option Tree)
        → ((v w : Tree)
            → IsRooted (base ++ os_slash ∷ n) v
            → follow v ns ≡ some w
            → path w ≡ (base ++ os_slash ∷ n) ++ enclose os_slash ns)
        → find_child cs n ≡ o
        → (o >>= λ v. follow v ns) ≡ some u
        → path u ≡ base ++ enclose os_slash (n ∷ ns)
    go none ih q e = cc
    go (some v) ih q e =
        ih v u (AreRooted-find base n cs v h.1 q) e
        ∙ append_assoc base (os_slash ∷ n) (enclose os_slash ns)

below_base-enclose :
    (base : Text) (names : List Text)
    → below_base (base ++ os_slash ∷ []) (base ++ enclose os_slash names) ≡ enclose os_slash names
unfolding below_base
below_base-enclose base [] =
    ground (arith, length-append base (os_slash ∷ []), drop-length_append base (os_slash ∷ []))
below_base-enclose base (n ∷ ns) = ground (
  arith,
  length-append base (os_slash ∷ []),
  length-append base (os_slash ∷ (n ++ enclose os_slash ns)),
  drop-length_append base (os_slash ∷ (n ++ enclose os_slash ns)),
)

abbrev pub if_there : Option Tree → List Text → Option (List Text)
if_there none names = none
if_there (some t) names = some names

abbrev by_rest : Tree → Text → Option (List Text)
by_rest t rest =
    if length rest == 1
    then some []
    else if_there (follow t (split rest os_slash false)) (split rest os_slash false)

find_fast-by_rest :
    (t : Tree) (dir rest : Text)
    → below_base (path t) dir ≡ rest
    → find_dir_watcher_fast t dir ≡ by_rest t rest
unfolding find_dir_watcher_fast
find_fast-by_rest t dir rest e =
    subst (λ r. find_dir_watcher_fast t dir ≡ by_rest t r) e (go (follow t names))
  where
    names : List Text
    names = split (below_base (path t) dir) os_slash false

    go :
        (o : Option Tree)
        → (if length (below_base (path t) dir) == 1
            then some []
            else (elim o [ some _ ↦ some names | none ↦ none ]))
          ≡ (if length (below_base (path t) dir) == 1 then some [] else if_there o names)
    go none = refl
    go (some v) = refl

by_rest-enclose :
    (t : Tree) (names : List Text)
    → All IsName names
    → by_rest t (enclose os_slash names) ≡ if_there (follow t names) names
unfolding follow
by_rest-enclose t [] h = refl
by_rest-enclose t (n ∷ ns) h =
    rw (split-enclose os_slash (n ∷ ns) h)
      (ground (arith, length-append n (enclose os_slash ns), length_enclose ns))
  where
    length_enclose : (ns : List Text) → 0 < length (enclose os_slash ns)
    length_enclose [] = omega arith
    length_enclose (m ∷ ms) = omega arith

root_path : (base : Text) (t : Tree) → IsRooted base t → path t ≡ base ++ os_slash ∷ []
unfolding IsRooted
root_path base (node r s cs) h = h.0

-- In a tree whose paths are made of its keys, `findDirWatcherFast`, asked for the path that leads
-- from the root over some names, finds a directory exactly when these names lead to one, and that
-- directory has the path asked for.
pub find_dir_watcher_fast-IsRooted :
    (base : Text) (t : Tree) (names : List Text)
    → IsRooted base t
    → All IsName names
    → (find_dir_watcher_fast t (base ++ enclose os_slash names) ≡ if_there (follow t names) names)
      × ((u : Tree) → follow t names ≡ some u → path u ≡ base ++ enclose os_slash names)
find_dir_watcher_fast-IsRooted base t names h k = (
  find_fast-by_rest t (base ++ enclose os_slash names) (enclose os_slash names)
        (rw (root_path base t h) (below_base-enclose base names))
      ∙ by_rest-enclose t names k,
  λ u e. follow-path base names t u h e,
)

-- After a watched directory whose keys are names has moved to another name in the same parent, the
-- child of that name is the same directory with all the paths below it made of the keys again.
pub move_directory-IsRooted :
    (w : Watch) (base : Text) (cs : Children) (old_dir new_dir : Text) (t : Tree)
    → find_child cs (key old_dir) ≡ some t
    → IsName (key new_dir)
    → text_eq w.directory (key new_dir) ≡ false
    → HasNames w.directory t
    → let moved = move_directory w (base ++ os_slash ∷ []) cs old_dir new_dir in
      let u = reset_directory w (some (base ++ os_slash ∷ [])) t (key new_dir) in
      (find_child moved (key new_dir) ≡ some u) × IsRooted (base ++ os_slash ∷ key new_dir) u
unfolding move_directory
move_directory-IsRooted w base cs old_dir new_dir t e h k hs = (
  rw (move_directory, e) (find_child-insert-same (key new_dir) _ (erase (key old_dir) cs)),
  reset_directory-IsRooted w base (key new_dir) t h k hs,
)
