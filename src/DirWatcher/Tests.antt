-- ===== src/DirWatcher/Tests.antt =====
-- A small tree of directories, and runs on it.
use efsw.Base.{
  ℕ, ◌≡◌, ◌≢◌, refl, true, false, List, [], ◌∷◌, ◌++◌, Text, codes, text_eq, if◌then◌else◌, Option,
  none, some, pos, arith, Returns, inl, inr, ◌<◌, sym, subst,
}
use efsw.FileSystem.{
  file_name_from_path, slash_at_end, dir_remove_slash_at_end, dir_add_slash_at_end,
}
use efsw.FileInfo.{
  Os, Stat, FileInfo, blank, file_info, get_link_real_path, restored_path, exists, info_eq,
}
use efsw.Snapshot.{Snapshot, set_directory_info, scan}
use efsw.Strings.Laws.{enclose}
use efsw.DirWatcher.{
  Tree, node, Children, leaf, child, Watch, path, find_child, erase, path_in_watches,
  remove_directory, move_directory, reset_directory, reset_path, key,
}
use efsw.DirWatcher.Find.{follow, find_dir_watcher, find_dir_watcher_fast}
use efsw.DirWatcher.Find.Keys.{IsSorted, IsAbove}
use efsw.DirWatcher.Find.Paths.{IsOrdered, Found, find_dir_watcher-Found}
use efsw.DirWatcher.Rooted.{
  IsName, IsRooted, HasNames, if_there, find_dir_watcher_fast-IsRooted, move_directory-IsRooted,
}
use efsw.DirWatcher.Gone.{IsGone, all_deletions, remove_directory-gone}
use efsw.DirWatcher.Scan.{add_children}
use efsw.DirWatcher.Scan.Returns.{IsFinite, IsKey, new_snapshot, add_children-Returns}

abbrev status : ℕ → Option Stat
status mode =
    some
      (record { mtime = 1; size = 2; uid = 3; gid = 4; mode = mode; dev = 5; ino = 0; nlink = 1 })

-- The directory /w with the file f and the directory d, which holds the file g.
abbrev mode_of : Text → Option Stat
mode_of p =
    if text_eq p (codes "/w")
    then status 16877
    else if text_eq p (codes "/w/d")
    then status 16877
    else if text_eq p (codes "/w/f")
    then status 33188
    else if text_eq p (codes "/w/d/g")
    then status 33188
    else none

abbrev os : Os
os = record {
  stat = mode_of;
  lstat = mode_of;
  names = λ p.
      if text_eq p (codes "/w/")
      then some (codes "f" ∷ codes "d" ∷ [])
      else if text_eq p (codes "/w/d/")
      then some (codes "g" ∷ [])
      else none;
  realpath = λ p. some p;
  unresolved = λ p. [];
  is_remote = λ p. false;
  is_root = false;
  uninitialised = 0;
}

-- Every directory is gone.
abbrev gone_os : Os
gone_os = record os { stat = λ p. none; lstat = λ p. none; names = λ p. none }

abbrev watch_of : Os → Watch
watch_of os = record {
  id = pos 1;
  directory = codes "/w/";
  os = os;
  follow_symlinks = false;
  link_allowed = λ cur_path link. true;
  watched = λ p. false;
  attached = true;
}

abbrev at : Text → List FileInfo → Snapshot
at p files = record { directory_info = record blank { filepath = p }; files = files }

abbrev file_g : FileInfo
file_g = record blank { filepath = codes "/w/d/g"; permissions = 33188 }

abbrev inner : Tree
inner = node true (at (codes "/w/d/") (file_g ∷ [])) leaf

abbrev cs : Children
cs = child (codes "d") inner leaf

abbrev tree : Tree
tree = node true (at (codes "/w/") []) cs

abbrev d : Text
d = codes "d"

abbrev e : Text
e = codes "e"

sorted : IsSorted cs
unfolding IsSorted IsAbove
sorted = (tt, tt)

ordered : IsOrdered tree
unfolding IsOrdered IsSorted IsAbove
ordered = ((tt, tt), ((tt, tt), tt))

a-IsName : (c : ℕ) → c ≢ 47 → IsName (c ∷ [])
a-IsName c h = (omega arith, (h, tt))

d-IsName : IsName d
d-IsName = a-IsName 100 (omega arith)

e-IsName : IsName e
e-IsName = a-IsName 101 (omega arith)

rooted : IsRooted (codes "/w") tree
unfolding IsRooted
rooted = (refl, (d-IsName, ((refl, tt), tt)))

named : HasNames (codes "/w/") inner
unfolding HasNames
named = tt

gone : IsGone gone_os inner
unfolding IsGone restored_path slash_at_end dir_add_slash_at_end dir_remove_slash_at_end
gone = ((refl, refl), tt)

find_dir_watcher-Found_example :
    Found
      (codes "/w/d/")
      (path_in_watches tree (codes "/w/d/"))
      (follow tree)
      (find_dir_watcher tree (codes "/w/d/"))
find_dir_watcher-Found_example = find_dir_watcher-Found tree (codes "/w/d/") ordered

find_dir_watcher_fast-IsRooted_example :
    (find_dir_watcher_fast tree (codes "/w" ++ enclose 47 (d ∷ []))
      ≡ if_there (follow tree (d ∷ [])) (d ∷ []))
    × ((u : Tree) → follow tree (d ∷ []) ≡ some u → path u ≡ codes "/w" ++ enclose 47 (d ∷ []))
find_dir_watcher_fast-IsRooted_example =
    find_dir_watcher_fast-IsRooted (codes "/w") tree (d ∷ []) rooted (d-IsName, tt)

find_d : find_child cs (key (codes "/w/d")) ≡ some inner
unfolding find_child text_eq file_name_from_path
find_d = refl

key_e : key (codes "/w/e") ≡ e
unfolding file_name_from_path
key_e = refl

move_directory-IsRooted_example :
    let moved = move_directory (watch_of os) (codes "/w/") cs (codes "/w/d") (codes "/w/e") in
    let u = reset_directory (watch_of os) (some (codes "/w/")) inner (key (codes "/w/e")) in
    (find_child moved (key (codes "/w/e")) ≡ some u)
    × IsRooted (codes "/w" ++ 47 ∷ key (codes "/w/e")) u
unfolding file_name_from_path text_eq
move_directory-IsRooted_example =
    move_directory-IsRooted (watch_of os) (codes "/w") cs (codes "/w/d") (codes "/w/e") inner find_d
      e-IsName refl named

remove_directory-gone_example :
    remove_directory (watch_of gone_os) cs (codes "/w/d")
    ≡ (erase (key (codes "/w/d")) cs, all_deletions (watch_of gone_os) inner)
remove_directory-gone_example =
    remove_directory-gone (watch_of gone_os) cs (codes "/w/d") inner find_d gone

abbrev dir_d : FileInfo
dir_d = record blank { filepath = codes "/w/d"; permissions = 16877 }

abbrev rank : Text → ℕ
rank p = if text_eq p (codes "/w/") then 1 else 0

-- No new directory has files.
gone-IsFinite : IsFinite gone_os (codes "/w/") rank
unfolding scan exists
gone-IsFinite parent dir = tt

below_d :
    rank (new_snapshot gone_os (codes "/w/") (codes "/w/") (codes "d")).directory_info.filepath < 1
unfolding scan exists text_eq reset_path dir_add_slash_at_end dir_remove_slash_at_end slash_at_end
    set_directory_info file_info info_eq
below_d = omega arith

below_w :
    (dir : Text)
    → IsKey gone_os dir_d dir
    → rank (new_snapshot gone_os (codes "/w/") (codes "/w/") dir).directory_info.filepath < 1
unfolding file_name_from_path get_link_real_path text_eq
below_w dir (inl k) =
    subst
      (λ n. rank (new_snapshot gone_os (codes "/w/") (codes "/w/") n).directory_info.filepath < 1)
      (sym k) below_d
below_w dir (inr k) = cc (k.0)

add_children-Returns_example :
    Returns
      (add_children 2 (watch_of gone_os) true (node true (at (codes "/w/") (dir_d ∷ [])) leaf))
unfolding text_eq
add_children-Returns_example =
    add_children-Returns rank 2 (watch_of gone_os) true true (at (codes "/w/") (dir_d ∷ [])) leaf
      gone-IsFinite (λ h dir k. below_w dir k, tt) (omega arith)
