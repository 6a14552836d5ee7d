-- ===== src/Inotify/Adding.antt =====
-- addWatch: the public overload, and the one that adds the directories below a watch as well. Its
-- recursion is as deep as the directories are nested, which `fuel` bounds: `none` is a recursion
-- deeper than the fuel. It runs while mInitOK does not change.
pub mod Users
pub mod Kept
pub mod Accepted
pub mod Returns
use efsw.Base.{
  ℕ, zero, suc, ◌==◌, ℤ, pos, Bool, true, false, not, ◌&&◌, ◌||◌, List, [], ◌∷◌, ◌++◌, Text,
  text_eq, length, if◌then◌else◌, Option, none, some, is_some, ◌>>=◌,
}
use efsw.FileSystem.{dir_add_slash_at_end, file_name_from_path}
use efsw.FileInfo.{
  Os, FileInfo, file_info, is_directory, is_regular_file, is_link, is_readable, get_link_real_path,
}
use efsw.FileInfo.Listing.{files_info_from_path}
use efsw.FileActionBatch.{Call}
use efsw.FileActionBatch.{add as added}
use efsw.FileWatcher.{
  Settings, Error, no_error, file_not_found, file_not_readable, file_repeated, file_remote,
  file_out_of_scope, unspecified, create_last_error, impl_add_watch, link_allowed, get_option_value,
}
use efsw.Inotify.{
  WatcherInotify, new_watcher, Kernel, State, Notice, action, Added, descriptor, no_entry, failure,
  find_id, set_id, set_dir, object, path_in_watches,
}
use efsw.Inotify.Overlap.{get_watch_conflict}
use efsw.Inotify.Removing.{remove_watch_locked}

-- What addWatch decides before it asks the kernel: an error with the text of its message, or the
-- directory that is to be watched.
pub data Target : Type 0 where
  refused : Error → Text → Target
  target : Text → Target

abbrev pub get_or_empty : Option Text → Text
get_or_empty none = []
get_or_empty (some p) = p

-- The arguments that addWatch hands on to the directories below.
pub record Wanted : Type 0 where
  pub listener : Bool
  pub recursive : Bool
  pub synthetic_events : Bool
  pub report_cross_directory_moves : Bool

unfoldable pub fail : {K : Type 0} → State K → Error → Text → ℤ × State K
unfolding create_last_error
fail s e text = let (code, log) = create_last_error s.log e text in (code, record s { log = log })

module _ {K : Type 0} (os : Os) (settings : Settings) where
  -- The conflict of a watch that a user asks for.
  unfoldable pub check_conflict : State K → Text → Bool → Bool → Text → Target
  check_conflict s directory recursive internal dir =
      if internal then target dir else (elim (get_watch_conflict os s dir recursive) [
        | no_error ↦ target dir
        | e ↦ refused e directory
      ])

  -- `internal` is `NULL != parent`.
  unfoldable pub find_target : State K → Text → Bool → Bool → Target
  unfolding check_conflict
  find_target s directory recursive internal =
      let dir = dir_add_slash_at_end directory in
      let fi = file_info os dir in
      let (link, cur_path) = get_link_real_path os dir in
      let known : Text → Bool = λ p. internal && path_in_watches s s.real_watches p in
      if not (is_directory fi)
      then refused file_not_found dir
      else if not (is_readable os fi)
      then refused file_not_readable dir
      else if known dir
      then refused file_repeated directory
      else if internal && os.is_remote dir
      then refused file_remote dir
      else if text_eq [] link
      then check_conflict s directory recursive internal dir
      else if internal && not settings.follow_symlinks
      then refused file_out_of_scope dir
      else if not
          (link_allowed settings.follow_symlinks settings.out_of_scope (get_or_empty cur_path) link)
      then refused file_out_of_scope dir
      else if known link
      then refused file_repeated directory
      else check_conflict s directory recursive internal link

module _ {K : Type 0} (kernel : Kernel K) (os : Os) (settings : Settings) where
  -- The new object, in the tables.
  unfoldable pub register : State K → Text → Wanted → Option ℕ → ℕ → State K
  register s dir wanted parent wd =
      let r = length s.objects in
      record s {
        objects =
            s.objects
            ++ (record {
              id = (elim parent [ some p ↦ (object s p).id | none ↦ wd ]);
              directory = dir;
              listener = wanted.listener;
              recursive = wanted.recursive;
              old_file_name = [];
              parent = parent;
              inotify_id = wd;
              dir_info = new_watcher.dir_info;
              synthetic_events = wanted.synthetic_events;
              report_cross_directory_moves = wanted.report_cross_directory_moves;
            })
              ∷ [];
        watches = set_id s.watches wd r;
        watches_ref = set_dir s.watches_ref dir wd;
        real_watches = (if is_some parent then s.real_watches else set_id s.real_watches wd r);
      }

  -- The events for the files that a new directory has already.
  unfoldable pub synthesise : WatcherInotify → List FileInfo → List Notice
  synthesise watch [] = []
  synthesise watch (file ∷ files) =
      let rest = synthesise watch files in
      if is_regular_file file || (is_directory file || is_link file)
      then action (record {
        watch = pos watch.id;
        directory = watch.directory;
        filename = file_name_from_path file.filepath;
        action = added;
        old_filename = [];
      })
        ∷ rest
      else rest

  -- The loop over the files of a new watch; `add` is addWatch for a directory below it.
  unfoldable pub add_below :
      (State K → Text → Option (ℤ × State K)) → State K → List FileInfo → Option (State K)
  add_below add s [] = some s
  add_below add s (file ∷ files) =
      if not s.init_ok
      then some s
      else if is_directory file && is_readable os file
      then (do (id, s') ← add s file.filepath; add_below add s' files)
      else add_below add s files

  -- What addWatch does with the descriptor of the kernel; `add` is addWatch for a directory below
  -- the new object.
  unfoldable pub install :
      (ℕ → State K → Text → Option (ℤ × State K))
      → State K
      → Text
      → Wanted
      → Option ℕ
      → Bool
      → ℕ
      → Option (ℤ × State K)
  unfolding register synthesise add_below remove_watch_locked find_id
  install add asked dir wanted parent from_internal_event wd = do
    let cleared =
        if is_some (find_id asked.watches wd)
        then remove_watch_locked kernel asked wd true
        else asked
    let registered = register cleared dir wanted parent wd
    let r = length cleared.objects
    let files = files_info_from_path os dir
    let told : State K =
        if from_internal_event && (is_some parent && wanted.synthetic_events)
        then record registered {
          notices = registered.notices ++ synthesise (object registered r) files;
        }
        else registered
    s' ← (if wanted.recursive then add_below (add r) told files else some registered)
    some (pos wd, s')

  -- The answer of the kernel.
  unfoldable pub answer :
      (ℕ → State K → Text → Option (ℤ × State K))
      → State K
      → Text
      → Wanted
      → Option ℕ
      → Bool
      → Added
      → Option (ℤ × State K)
  unfolding install fail
  answer add asked dir wanted parent from_internal_event no_entry =
      some (fail asked file_not_found dir)
  answer add asked dir wanted parent from_internal_event (failure text) =
      some (fail asked unspecified text)
  answer add asked dir wanted parent from_internal_event (descriptor wd) =
      install add asked dir wanted parent from_internal_event wd

  unfoldable pub ask :
      (ℕ → State K → Text → Option (ℤ × State K))
      → State K
      → Wanted
      → Option ℕ
      → Bool
      → Target
      → Option (ℤ × State K)
  unfolding answer fail
  ask add s wanted parent from_internal_event (refused e text) = some (fail s e text)
  ask add s wanted parent from_internal_event (target dir) =
      let (reply, k) = kernel.add_watch s.kernel dir in
      answer add (record s { kernel = k }) dir wanted parent from_internal_event reply

  unfoldable pub add_watch : ℕ → State K → Text → Wanted → Option ℕ → Bool → Option (ℤ × State K)
  unfolding find_target ask
  add_watch zero s directory wanted parent from_internal_event = none
  add_watch (suc fuel) s directory wanted parent from_internal_event =
      ask (λ r s path. add_watch fuel s path wanted (some r) from_internal_event) s wanted parent
        from_internal_event (find_target os settings s directory wanted.recursive (is_some parent))

  -- addWatch for a user; the options are LinuxProduceSyntheticEvents and
  -- ReportCrossDirectoryMoves, whose values are parameters.
  unfoldable pub add_user_watch :
      ℕ → ℕ → ℕ → State K → Text → Bool → Bool → List (ℕ × ℤ) → Option (ℤ × State K)
  unfolding add_watch get_option_value fail
  add_user_watch synthetic_option moves_option fuel s directory listener recursive options =
      if not s.init_ok
      then some (fail s unspecified directory)
      else add_watch fuel s directory
          (record {
            listener = listener;
            recursive = recursive;
            synthetic_events = is_set (get_option_value options synthetic_option (pos 0));
            report_cross_directory_moves = is_set (get_option_value options moves_option (pos 0));
          })
          none false
    where
      is_set : ℤ → Bool
      is_set (pos n) = not (n == 0)
      is_set _ = true

  -- FileWatcher::addWatch of a front end whose back end is this one.
  unfoldable pub linux_add_watch :
      ℕ → ℕ → ℕ → State K → Text → Bool → Bool → List (ℕ × ℤ) → Option (ℤ × State K)
  unfolding impl_add_watch add_user_watch fail
  linux_add_watch synthetic_option moves_option fuel s directory listener recursive options =
      impl_add_watch false os
        (λ dir below options'.
          add_user_watch synthetic_option moves_option fuel s dir listener below options')
        (λ err dir. some (fail s err dir)) directory recursive options
