-- ===== src/CWrapper.antt =====
-- The C interface (src/efsw/FileWatcherCWrapper.cpp): the callbacks that stand between the functions
-- of a C program and the watchers. A pointer is a number, 0 is NULL, and `next` is the address of
-- the next object; the calls of FileWatcher are the values of `AddWatch` that are handed to it.
mod Callbacks
mod Tests
use efsw.Base.{
  ℕ, suc, ◌==◌, ℤ, pos, negsuc, Bool, true, false, not, ◌&&◌, List, [], ◌∷◌, ◌++◌, Text, Option,
  none, some, take, if◌then◌else◌,
}
use efsw.FileActionBatch.{Action}
use efsw.Agent.{int_eq}

-- Watcher_CAPI
pub record WatcherCapi : Type 0 where
  pub watcher : ℕ
  pub fn : ℕ
  pub param : ℕ
  pub fn_missed_fa : ℕ

-- A call of a function of the C program.
pub data CCall : Type 0 where
  called : ℕ → ℕ → ℤ → Text → Text → Action → Text → ℕ → CCall
  called_missed : ℕ → ℕ → ℤ → Text → CCall

unfoldable pub handle_file_action : WatcherCapi → ℤ → Text → Text → Action → Text → CCall
handle_file_action c watchid dir filename action old_filename =
    called c.fn c.watcher watchid dir filename action old_filename c.param

unfoldable pub handle_missed_file_actions : WatcherCapi → ℤ → Text → List CCall
handle_missed_file_actions c watchid dir =
    if c.fn_missed_fa == 0 then [] else called_missed c.fn_missed_fa c.watcher watchid dir ∷ []

-- TOBOOL
unfoldable pub to_bool : ℤ → Bool
to_bool i = not (int_eq i (pos 0))

-- g_callbacks, each with its address
pub record Capi : Type 0 where
  pub callbacks : List (ℕ × WatcherCapi)
  pub next : ℕ

abbrev pub is_asked : ℕ → ℕ → ℕ → WatcherCapi → Bool
is_asked watcher fn param c = c.fn == fn && c.watcher == watcher && c.param == param

unfoldable pub find_callback : List (ℕ × WatcherCapi) → ℕ → ℕ → ℕ → Option (ℕ × WatcherCapi)
find_callback [] watcher fn param = none
find_callback ((a, c) ∷ cs) watcher fn param =
    if is_asked watcher fn param c then some (a, c) else find_callback cs watcher fn param

-- The first callback of the watcher is deleted.
unfoldable pub remove_callback : List (ℕ × WatcherCapi) → ℕ → List (ℕ × WatcherCapi)
remove_callback [] watcher = []
remove_callback ((a, c) ∷ cs) watcher =
    if c.watcher == watcher then cs else (a, c) ∷ remove_callback cs watcher

-- What FileWatcher::addWatch is called with.
pub record AddWatch : Type 0 where
  pub file_watcher : ℕ
  pub directory : Text
  pub listener : ℕ
  pub recursive : Bool
  pub options : List (ℕ × ℤ)

-- The number of options, as the loop over them takes it.
abbrev pub count : ℤ → ℕ
count (pos n) = n
count (negsuc n) = 0

unfoldable pub callback_for : Capi → ℕ → ℕ → ℕ → ℕ → ℕ × Capi
callback_for s watcher fn param fn_missed_fa = elim (find_callback s.callbacks watcher fn param) [
  | some found ↦ (found.0, s)
  | none ↦ (
    s.next,
    record {
      callbacks =
          s.callbacks
          ++ (
            s.next,
            record { watcher = watcher; fn = fn; param = param; fn_missed_fa = fn_missed_fa },
          )
            ∷ [];
      next = suc s.next;
    },
  )
]

-- efsw_addwatch_withoptions
unfoldable pub add_watch_with_options :
    Capi → ℕ → Text → ℕ → ℤ → List (ℕ × ℤ) → ℤ → ℕ → ℕ → AddWatch × Capi
add_watch_with_options s watcher directory fn recursive options options_number param fn_missed_fa =
    let (listener, s') = callback_for s watcher fn param fn_missed_fa in
    (
      record {
        file_watcher = watcher;
        directory = directory;
        listener = listener;
        recursive = to_bool recursive;
        options = take (count options_number) options;
      },
      s',
    )

-- efsw_addwatch
unfoldable pub c_add_watch : Capi → ℕ → Text → ℕ → ℤ → ℕ → AddWatch × Capi
c_add_watch s watcher directory fn recursive param =
    add_watch_with_options s watcher directory fn recursive [] (pos 0) param 0

-- efsw_release
unfoldable pub release : Capi → ℕ → Capi
release s watcher = record s { callbacks = remove_callback s.callbacks watcher }
