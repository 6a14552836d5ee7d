-- ===== src/Inotify/Tests.antt =====
-- The theorems about FileWatcherInotify at small tables: the watch of /w has the descriptor 1, that
-- of /w/d below it the descriptor 2.
use efsw.Base.{
  get_or, Returns, ℕ, suc, ◌≡◌, ◌↔◌, ◌≢◌, refl, Bool, true, false, List, [], ◌∷◌, ◌++◌, Text, codes,
  ◌==◌, Option, none, some, All, pos, negsuc, arith, ℤ, Bool-cases, inl, inr, sym, subst,
  text_eq_iff, ◌<◌, text_eq, if◌then◌else◌,
}
use efsw.FileSystem.{slash_at_end, dir_add_slash_at_end}
use efsw.FileInfo.{Os, file_info, is_directory, get_link_real_path}
use efsw.FileInfo.Listing.{sort_by_path, platform_files_info_from_path, files_info_from_path}
use efsw.FileActionBatch.{delete, moved}
use efsw.FileWatcher.{Settings, no_error}
use efsw.Inotify.{
  WatcherInotify, new_watcher, Kernel, State, descriptor, object, find_id, in_parent_tree,
}
use efsw.Inotify.Overlap.{is_directory_inside, directory_comparison_path, get_watch_conflict}
use efsw.Inotify.Overlap.Order.{is_directory_inside_lem}
use efsw.Inotify.Overlap.Conflict.{IsApart, get_watch_conflict_iff}
use efsw.Inotify.Adding.{Wanted, add_watch}
use efsw.Inotify.Adding.Users.{UsersApart}
use efsw.Inotify.Adding.Accepted.{Holds, add_watch-UsersApart}
use efsw.Inotify.Adding.Returns.{IsFinite, add_watch-Returns}
use efsw.Inotify.Removing.{remove_watch}
use efsw.Inotify.Removing.Tree.{remove_watch-tree}
use efsw.Strings.{str_starts_with}
use efsw.Inotify.Actions.{notice, watches_below, rename_watches}
use efsw.Inotify.Actions.Renames.{IsRenamed, rename_watches-IsRenamed}
use efsw.Inotify.Batch.Lost.{run_batch-lost}
use efsw.Inotify.Batch.{BatchEvent, find_watcher, run_batch}
use efsw.Inotify.Batch.Plain.{all_heard, AreFlat, run_batch-heard}
use efsw.Inotify.Batch.Moves.{run_batch-moved}

-- Descriptors are counted.
abbrev kernel : Kernel ℕ
kernel = record { add_watch = λ k path. (descriptor k, suc k); rm_watch = λ k wd. k }

abbrev os : Os
os = record {
  stat = λ path. none;
  lstat = λ path. none;
  names = λ path. none;
  realpath = λ path. none;
  unresolved = λ path. [];
  is_remote = λ path. false;
  is_root = false;
  uninitialised = 0;
}

abbrev settings : Settings
settings = record { follow_symlinks = false; out_of_scope = false }

abbrev upper : Bool → WatcherInotify
upper recursive = record new_watcher {
  id = 1;
  directory = codes "/w/";
  listener = true;
  recursive = recursive;
  inotify_id = 1;
}

abbrev lower : Bool → Option ℕ → WatcherInotify
lower recursive parent = record new_watcher {
  id = 1;
  directory = codes "/w/d/";
  listener = true;
  recursive = recursive;
  inotify_id = 2;
  parent = parent;
}

abbrev table : List WatcherInotify → List (ℕ × ℕ) → State ℕ
table objects real_watches = record {
  objects = objects;
  watches = (2, 1) ∷ (1, 0) ∷ [];
  real_watches = real_watches;
  watches_ref = (codes "/w/d/", 2) ∷ (codes "/w/", 1) ∷ [];
  deleted_watches = [];
  init_ok = true;
  log = record { last_error = []; last_error_code = no_error };
  kernel = 3;
  notices = [];
}

-- One recursive watch of a user, and two watches that are not recursive.
abbrev deep : State ℕ
deep = table (upper true ∷ lower true (some 0) ∷ []) ((1, 0) ∷ [])

abbrev flat : State ℕ
flat = table (upper false ∷ lower false none ∷ []) ((2, 1) ∷ (1, 0) ∷ [])

abbrev event : ℤ → ℕ → Text → BatchEvent
event wd mask filename = record { wd = wd; mask = mask; cookie = 9; filename = filename }

abbrev overflow : BatchEvent
overflow = event (negsuc 0) 16384 []

abbrev created : BatchEvent
created = event (pos 2) 256 (codes "n")

abbrev from : BatchEvent
from = event (pos 1) 64 (codes "a")

abbrev to : BatchEvent
to = event (pos 1) 128 (codes "b")

is_directory_inside_lem_example :
    ((is_directory_inside (codes "/w/d/e/") (codes "/w/d/") ≡ true)
      ↔ ((rest : Text) × (rest ≢ []) × (codes "/w/d/e/" ≡ codes "/w/d/" ++ rest)))
    × ((is_directory_inside (codes "/w/d/") (codes "/w/d/") ≡ false)
        × (is_directory_inside (codes "/w/d/e/") (codes "/w/d/") ≡ true
            → is_directory_inside (codes "/w/d/") (codes "/w/") ≡ true
            → is_directory_inside (codes "/w/d/e/") (codes "/w/") ≡ true))
unfolding slash_at_end
is_directory_inside_lem_example =
    is_directory_inside_lem (codes "/w/d/e/") (codes "/w/d/") (codes "/w/") refl refl

get_watch_conflict_iff_example :
    (get_watch_conflict os deep (codes "/x/") true ≡ no_error)
    ↔ All (IsApart os deep (directory_comparison_path os (codes "/x/")) true) deep.real_watches
get_watch_conflict_iff_example = get_watch_conflict_iff os deep (codes "/x/") true

abbrev wanted : Wanted
wanted = record {
  listener = true;
  recursive = true;
  synthetic_events = false;
  report_cross_directory_moves = false;
}

deep_apart : UsersApart os deep
deep_apart = ((omega arith, tt), (tt, tt))

add_watch-UsersApart_example :
    Holds
      (λ (id, s). UsersApart os s)
      (add_watch kernel os settings 5 deep (codes "/x") wanted none false)
add_watch-UsersApart_example =
    add_watch-UsersApart kernel os settings 5 deep (codes "/x") wanted none false deep_apart

deep_found : find_id deep.watches 1 ≡ some 0
unfolding find_id
deep_found = refl

remove_watch-tree_example :
    (find_id (remove_watch kernel deep 1).watches 1 ≡ none)
    × All
        (λ (wd, q).
          (q == 0) ≡ false
          → in_parent_tree deep.objects q 0 ≡ true
          → (object deep q).inotify_id ≡ wd
          → find_id (remove_watch kernel deep 1).watches wd ≡ none)
        deep.watches
remove_watch-tree_example = remove_watch-tree kernel deep 1 0 refl deep_found refl refl

abbrev are_flat : AreFlat flat.objects flat.watches
are_flat = ((refl, refl), ((refl, refl), tt))

run_batch-heard_example :
    run_batch kernel os settings 0 flat (created ∷ overflow ∷ [])
    ≡ some (record flat {
      notices = [] ++ all_heard flat.objects flat.watches (created ∷ overflow ∷ []);
      deleted_watches = [];
    })
run_batch-heard_example =
    run_batch-heard kernel os settings 0 flat (created ∷ overflow ∷ []) refl are_flat
      ((refl, refl), ((refl, refl), tt))

flat_found : find_id flat.watches 1 ≡ some 0
unfolding find_id
flat_found = refl

run_batch-moved_example :
    (t : State ℕ) × (run_batch kernel os settings 0 flat (from ∷ (created ∷ []) ++ to ∷ [])
      ≡ some t)
    × (t.notices
        ≡ []
          ++ all_heard flat.objects flat.watches (created ∷ [])
          ++ notice (object flat 0) (codes "b") moved (codes "a") ∷ [])
run_batch-moved_example =
    run_batch-moved kernel os settings 0 flat 0 1 from to (created ∷ []) refl are_flat (omega arith)
      flat_found refl refl refl refl (refl, (refl, (refl, refl))) refl ((refl, refl), tt)

-- The directory /w with the directory d in it.
abbrev nested : Os
nested = record os {
  stat = λ path.
      some (record {
        mtime = 0;
        size = 0;
        uid = 0;
        gid = 0;
        mode = 16877;
        dev = 0;
        ino = 0;
        nlink = 1;
      });
  names = λ path. if text_eq path (codes "/w/") then some (codes "d" ∷ []) else none;
}

abbrev rank_at : Text → ℕ
rank_at dir = if text_eq dir (codes "/w/") then 1 else 0

abbrev rank : Text → ℕ
rank path = rank_at (dir_add_slash_at_end (dir_add_slash_at_end path))

listing_of_w :
    All
      (λ f. is_directory f ≡ true → rank f.filepath < rank_at (codes "/w/"))
      (sort_by_path (platform_files_info_from_path nested (codes "/w/")))
unfolding platform_files_info_from_path sort_by_path text_eq dir_add_slash_at_end file_info
    slash_at_end
listing_of_w = (λ h. omega arith, tt)

unlisted :
    (dir : Text) → text_eq dir (codes "/w/") ≡ false → platform_files_info_from_path nested dir ≡ []
unfolding platform_files_info_from_path
unlisted dir e = rw (e, platform_files_info_from_path) refl

listing-Below :
    (dir : Text)
    → All
        (λ f. is_directory f ≡ true → rank f.filepath < rank_at dir)
        (sort_by_path (platform_files_info_from_path nested dir))
unfolding sort_by_path
listing-Below dir = elim (Bool-cases (text_eq dir (codes "/w/"))) [
  | inl e ↦
      subst
        (λ q.
          All (λ f. is_directory f ≡ true → rank f.filepath < rank_at q)
            (sort_by_path (platform_files_info_from_path nested q)))
        (sym ((text_eq_iff dir (codes "/w/")).0 e)) listing_of_w
  | inr e ↦
      subst
        (λ fs. All (λ f. is_directory f ≡ true → rank f.filepath < rank_at dir) (sort_by_path fs))
        (sym (unlisted dir e)) tt
]

nested-IsFinite : IsFinite nested rank
unfolding files_info_from_path text_eq dir_add_slash_at_end get_link_real_path
nested-IsFinite path = (listing-Below (dir_add_slash_at_end (dir_add_slash_at_end path)), tt)

add_watch-Returns_example :
    Returns (add_watch kernel nested settings 2 deep (codes "/w") wanted none false)
unfolding dir_add_slash_at_end text_eq
add_watch-Returns_example =
    add_watch-Returns kernel nested settings rank nested-IsFinite 2 deep (codes "/w") wanted none
      false (omega arith)

flat_found_wd : find_watcher flat.watches from.wd ≡ some 0
unfolding find_watcher
flat_found_wd = flat_found

flat_childless :
    watches_below kernel os settings flat 0
      ((object flat 0).directory ++ (from.filename ++ 47 ∷ []))
      flat.watches
    ≡ []
unfolding watches_below str_starts_with
flat_childless = refl

run_batch-lost_example :
    run_batch kernel os settings 0 flat (from ∷ created ∷ [])
    ≡ some (record flat {
      notices =
          []
          ++ notice (object flat 0) (codes "a") delete [] ∷ []
          ++ all_heard flat.objects flat.watches (created ∷ []);
      deleted_watches = [];
    })
run_batch-lost_example =
    run_batch-lost kernel os settings 0 flat 0 from (created ∷ []) refl are_flat flat_found_wd refl
      refl refl flat_childless ((refl, refl), tt)

rename_watches-IsRenamed_example :
    All
      (λ (wd, r).
        IsRenamed os
          (codes "/w/d/")
          (codes "/w/e/")
          (λ z. cc)
          (get_or deep.objects r new_watcher).directory
          (get_or
            (rename_watches os (codes "/w/d/") (codes "/w/e/") deep.objects deep.watches)
            r
            new_watcher).directory)
      deep.watches
rename_watches-IsRenamed_example =
    rename_watches-IsRenamed os (codes "/w/d/") (codes "/w/e/") (λ z. cc) deep.objects deep.watches
      ((refl, tt), (tt, tt)) (omega arith, (omega arith, tt))
