-- ===== src/FileWatcher/Adding.antt =====
-- FileWatcher::addWatch over FileWatcherGeneric::addWatch, on every branch.
use efsw.Base.{
  ℕ, suc, ℤ, pos, ◌≡◌, ◌≢◌, refl, inl, inr, Bool, true, false, not, List, [], ◌∷◌, ◌++◌, Text,
  text_eq, text_eq_iff, none, some, sym, Option, Bool-cases,
}
use efsw.FileSystem.{dir_add_slash_at_end}
use efsw.FileInfo.{Os, file_info, is_directory, is_readable, get_link_real_path}
use efsw.Agent.{int_eq}
use efsw.FileWatcher.{
  Error, Directories, WatcherGeneric, FileWatcherGeneric, Settings, link_allowed, path_in_watches,
  fail, push_watch, add_linked, add_watch, impl_add_watch, front_add_watch, is_negative, error_code,
  error_text, get_option_value, file_repeated, file_out_of_scope, file_not_found, file_not_readable,
}
use efsw.FileWatcher.Links.{
  AllowedLink, link_allowed-AllowedLink, link_allowed_refused, AreElsewhere,
  path_in_watches-AreElsewhere, path_in_watches_found,
}

abbrev pub or_empty : Option Text → Text
or_empty none = []
or_empty (some path) = path

module _ {D : Type 0} (directories : Directories D) (report_moves_option : ℕ) (os : Os)
    (settings : Settings) (s : FileWatcherGeneric D) (directory : Text) (recursive : Bool)
    (options : List (ℕ × ℤ)) where
  -- The directory as addWatch names it, the target of the link if it is one, and the directory that
  -- holds the link.
  abbrev pub dir : Text
  dir = dir_add_slash_at_end directory

  abbrev pub link : Text
  link = (get_link_real_path os dir).0

  abbrev pub holder : Text
  holder = or_empty (get_link_real_path os dir).1

  -- The directory that is watched in the end: the one asked for, if it is no link, or the target of
  -- the link, if it is allowed and not watched either.
  pub data Watched : Text → Type 0 where
    itself : link ≡ [] → Watched dir
    its_target :
        link ≢ []
        → AllowedLink settings holder link
        → AreElsewhere directories s.watches link
        → Watched link

  -- Why addWatch may fail, with the error that it reports.
  pub data Refusal : Error → Type 0 where
    no_directory : is_directory (file_info os dir) ≡ false → Refusal file_not_found
    unreadable : is_readable os (file_info os dir) ≡ false → Refusal file_not_readable
    repeated : (AreElsewhere directories s.watches dir → ⊥) → Refusal file_repeated
    target_repeated :
        link ≢ [] → (AreElsewhere directories s.watches link → ⊥) → Refusal file_repeated
    out_of_scope : link ≢ [] → (AllowedLink settings holder link → ⊥) → Refusal file_out_of_scope

  -- The new watch: it has the next id and is on that directory, with the tree that is made for it.
  pub record IsNew (w : WatcherGeneric D) : Type 0 where
    pub target : Text
    pub watched : Watched target
    pub next_id : w.id ≡ suc s.last_watch_id
    pub on_target : w.directory ≡ dir_add_slash_at_end target
    pub as_asked : w.recursive ≡ recursive
    pub tree :
        w.dir_watch
        ≡ directories.create w.id target recursive
            (not (int_eq (get_option_value options report_moves_option (pos 0)) (pos 0)))

  -- What addWatch may do: fail for a reason, with the code and the text of the error and with the
  -- watches and ids as they were, or add one watch at the end and return its id.
  pub data Added (r : ℤ × FileWatcherGeneric D) : Type 0 where
    refused :
        (err : Error)
        → is_negative (error_code err) ≡ true
        → Refusal err
        → r.0 ≡ error_code err
        → r.1.watches ≡ s.watches
        → r.1.last_watch_id ≡ s.last_watch_id
        → r.1.log.last_error ≡ error_text err dir
        → Added r
    accepted :
        (w : WatcherGeneric D)
        → r.0 ≡ pos w.id
        → w.id ≡ suc s.last_watch_id
        → r.1.last_watch_id ≡ suc s.last_watch_id
        → r.1.watches ≡ s.watches ++ w ∷ []
        → IsNew w
          × (is_directory (file_info os dir) ≡ true)
          × (is_readable os (file_info os dir) ≡ true)
          × AreElsewhere directories s.watches dir
        → Added r

  fail-Added :
      (err : Error)
      → is_negative (error_code err) ≡ true
      → Refusal err
      → Added (fail directories report_moves_option s err dir)
  unfolding fail
  fail-Added err h reason = refused err h reason refl refl refl refl

  module _
      (readable : (is_directory (file_info os dir) ≡ true)
        × (is_readable os (file_info os dir) ≡ true))
      (free : path_in_watches directories report_moves_option s.watches dir ≡ false) where
    push_watch-Added :
        (target : Text)
        → Watched target
        → Added (push_watch directories report_moves_option s target recursive options)
    unfolding push_watch
    push_watch-Added target watched = accepted _ refl refl refl refl (
      record {
        target = target;
        watched = watched;
        next_id = refl;
        on_target = refl;
        as_asked = refl;
        tree = refl;
      },
      readable.0,
      readable.1,
      path_in_watches-AreElsewhere directories report_moves_option s.watches dir free,
    )

    add_linked-Added :
        Added
          (add_linked directories report_moves_option settings s dir link holder recursive options)
    unfolding add_linked
    add_linked-Added = elim (Bool-cases (text_eq [] link)) [
      | inl e ↦ rw e (push_watch-Added dir (itself (sym ((text_eq_iff [] link).0 e))))
      | inr e ↦
          let linked : link ≢ [] = λ k. cc ((text_eq_iff [] link).1 (sym k), e) in
          elim (Bool-cases (path_in_watches directories report_moves_option s.watches link)) [
            | inl k ↦
                rw (e, k)
                  (fail-Added file_repeated refl (
                    target_repeated linked
                      (path_in_watches_found directories report_moves_option s.watches link k)))
            | inr k ↦
                elim (Bool-cases
                  (link_allowed settings.follow_symlinks settings.out_of_scope holder link)) [
                    | inr l ↦
                        rw (e, k, l)
                          (fail-Added file_out_of_scope refl
                            (out_of_scope linked (link_allowed_refused settings holder link l)))
                    | inl l ↦
                        rw (e, k, l)
                          (push_watch-Added link (
                            its_target linked (link_allowed-AllowedLink settings holder link l) (
                              path_in_watches-AreElsewhere directories report_moves_option s.watches
                                link k)))
                  ]
          ]
    ]

  add_watch-Added :
      Added (add_watch directories report_moves_option os settings s directory recursive options)
  unfolding add_watch
  add_watch-Added = elim (Bool-cases (is_directory (file_info os dir))) [
    | inr e ↦ rw e (fail-Added file_not_found refl (no_directory e))
    | inl e ↦ elim (Bool-cases (is_readable os (file_info os dir))) [
      | inr k ↦ rw (e, k) (fail-Added file_not_readable refl (unreadable k))
      | inl k ↦ elim (Bool-cases (path_in_watches directories report_moves_option s.watches dir)) [
        | inl l ↦
            rw (e, k, l)
              (fail-Added file_repeated refl
                (repeated (path_in_watches_found directories report_moves_option s.watches dir l)))
        | inr l ↦ rw (e, k, l) (add_linked-Added (e, k) l)
      ]
    ]
  ]

  -- Whatever the file system, the settings and the watches are, FileWatcher::addWatch over the
  -- generic back end does one of two things. It fails, with the code and the text of an error that
  -- has its reason, and leaves the watches and the last id as they were: the path is no directory or
  -- cannot be read, it or the target of its link is watched already, or the link is out of scope. Or
  -- it returns the next id and gives it to one new watch at the end of the list, on the directory
  -- asked for or, if that is a link, on its target, where neither was watched before and the link is
  -- allowed.
  pub front_add_watch-Added :
      Added
        (front_add_watch directories report_moves_option os settings s directory recursive options)
  unfolding front_add_watch impl_add_watch
  front_add_watch-Added = add_watch-Added
