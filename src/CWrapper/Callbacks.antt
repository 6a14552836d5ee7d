-- ===== src/CWrapper/Callbacks.antt =====
-- Which callback a watch added through the C interface gets (src/efsw/FileWatcherCWrapper.cpp).
use efsw.Base.{
  ℕ, suc, ◌≡◌, refl, sym, ap, ◌∙◌, ==_iff, ℤ, true, inl, inr, List, [], ◌∷◌, ◌++◌, Text, none, some,
  Mem, if_true, if_false, Bool-cases, Option-cases, subst, arith,
}
use mathlib.Core.Option.{some-injective}
use mathlib.Core.List.{mem-cons_self, mem-cons_of_mem, mem-append_right}
use efsw.FileActionBatch.{Action}
use efsw.CWrapper.{
  WatcherCapi, called, handle_file_action, Capi, is_asked, find_callback, callback_for,
  add_watch_with_options,
}

-- A callback that calls the function of a C program with its watcher and its parameter.
abbrev pub Calls : ℕ → ℕ → ℕ → WatcherCapi → Type 0
Calls watcher fn param c =
    (id : ℤ) (dir filename : Text) (action : Action) (old : Text)
    → handle_file_action c id dir filename action old
      ≡ called fn watcher id dir filename action old param

is_asked-Calls :
    (watcher fn param : ℕ) (c : WatcherCapi)
    → is_asked watcher fn param c ≡ true
    → Calls watcher fn param c
unfolding handle_file_action
is_asked-Calls watcher fn param c e id dir filename action old =
    rw (fields.0, fields.1, fields.2) refl
  where
    fields : (c.fn ≡ fn) × (c.watcher ≡ watcher) × (c.param ≡ param)
    fields = ground (arith, ==_iff c.fn fn, ==_iff c.watcher watcher, ==_iff c.param param)

-- What is found is in the table and was asked for.
find_callback-Calls :
    (cs : List (ℕ × WatcherCapi)) (watcher fn param : ℕ) (found : ℕ × WatcherCapi)
    → find_callback cs watcher fn param ≡ some found
    → Mem found cs × Calls watcher fn param found.1
unfolding find_callback
find_callback-Calls [] watcher fn param found e = cc
find_callback-Calls ((a, c) ∷ cs) watcher fn param found e =
    elim (Bool-cases (is_asked watcher fn param c)) [
      | inl k ↦
          subst (λ f. Mem f ((a, c) ∷ cs) × Calls watcher fn param f.1)
            (some-injective _ _ (sym (if_true _ _ _ k) ∙ e))
            (mem-cons_self, is_asked-Calls watcher fn param c k)
      | inr k ↦
          let (m, calls) =
            find_callback-Calls cs watcher fn param found (sym (if_false _ _ _ k) ∙ e) in
          (mem-cons_of_mem (a, c) m, calls)
    ]

find_callback-append :
    (cs : List (ℕ × WatcherCapi)) (watcher fn param : ℕ) (a : ℕ) (c : WatcherCapi)
    → find_callback cs watcher fn param ≡ none
    → is_asked watcher fn param c ≡ true
    → find_callback (cs ++ (a, c) ∷ []) watcher fn param ≡ some (a, c)
unfolding find_callback
find_callback-append [] watcher fn param a c e k =
    if_true (is_asked watcher fn param c) (some (a, c)) none k
find_callback-append ((b, d) ∷ cs) watcher fn param a c e k =
    elim (Bool-cases (is_asked watcher fn param d)) [
      | inl l ↦ absurd (cc (if_true _ (some (b, d)) (find_callback cs watcher fn param) l, e))
      | inr l ↦
          if_false _ _ _ l
          ∙ find_callback-append cs watcher fn param a c (sym (if_false _ _ _ l) ∙ e) k
    ]

is_asked_self :
    (watcher fn param missed : ℕ)
    → is_asked watcher fn param
        (record { watcher = watcher; fn = fn; param = param; fn_missed_fa = missed })
      ≡ true
is_asked_self watcher fn param missed =
    ground (arith, ==_iff fn fn, ==_iff watcher watcher, ==_iff param param)

-- The callback for a watcher, a function and a parameter: it is in the table, it calls them, and it
-- is the one that is found from then on.
abbrev Stays : ℕ → ℕ → ℕ → ℕ × Capi → Type 0
Stays watcher fn param r =
    ((c : WatcherCapi) × Mem (r.0, c) r.1.callbacks × Calls watcher fn param c)
    × ((missed : ℕ) → callback_for r.1 watcher fn param missed ≡ r)

abbrev asked : ℕ → ℕ → ℕ → ℕ → WatcherCapi
asked watcher fn param missed = record {
  watcher = watcher;
  fn = fn;
  param = param;
  fn_missed_fa = missed;
}

callback_for-found :
    (s : Capi) (watcher fn param missed : ℕ) (found : ℕ × WatcherCapi)
    → find_callback s.callbacks watcher fn param ≡ some found
    → callback_for s watcher fn param missed ≡ (found.0, s)
unfolding callback_for
callback_for-found s watcher fn param missed found e = rw (e, callback_for) refl

callback_for-new :
    (s : Capi) (watcher fn param missed : ℕ)
    → find_callback s.callbacks watcher fn param ≡ none
    → callback_for s watcher fn param missed ≡ (
      s.next,
      record {
        callbacks = s.callbacks ++ (s.next, asked watcher fn param missed) ∷ [];
        next = suc s.next;
      },
    )
unfolding callback_for
callback_for-new s watcher fn param missed e = rw (e, callback_for) refl

callback_for-Stays :
    (s : Capi) (watcher fn param missed : ℕ)
    → Stays watcher fn param (callback_for s watcher fn param missed)
callback_for-Stays s watcher fn param missed =
    elim (Option-cases (find_callback s.callbacks watcher fn param)) [
      | inl e ↦
          let own = is_asked_self watcher fn param missed in
          subst (Stays watcher fn param) (sym (callback_for-new s watcher fn param missed e)) (
            (
              asked watcher fn param missed,
              mem-append_right s.callbacks mem-cons_self,
              is_asked-Calls watcher fn param (asked watcher fn param missed) own,
            ),
            λ missed'.
                callback_for-found _ watcher fn param missed'
                  (s.next, asked watcher fn param missed)
                  (find_callback-append s.callbacks watcher fn param s.next
                    (asked watcher fn param missed) e own),
          )
      | inr (found, e) ↦
          subst (Stays watcher fn param)
            (sym (callback_for-found s watcher fn param missed found e))
            (
              (let (m, calls) = find_callback-Calls s.callbacks watcher fn param found e in
                  (found.1, m, calls)),
              λ missed'. callback_for-found s watcher fn param missed' found e,
            )
    ]

-- A watch added through the C interface reports to a callback of the table that calls the function
-- of the C program with its watcher and its parameter. Adding another watch with the same watcher,
-- function and parameter, whatever its directory, its options and its handler of missed events,
-- hands on the same callback and leaves the table as it is.
pub add_watch_with_options-Calls :
    (s : Capi) (watcher : ℕ) (directory : Text) (fn : ℕ) (recursive : ℤ) (options : List (ℕ × ℤ))
    (number : ℤ) (param missed : ℕ)
    → ((c : WatcherCapi) × Mem
          (
            (add_watch_with_options s watcher directory fn recursive options number param
                missed).0.listener,
            c,
          )
          (add_watch_with_options s watcher directory fn recursive options number param
            missed).1.callbacks
        × Calls watcher fn param c)
      × ((directory' : Text) (recursive' : ℤ) (options' : List (ℕ × ℤ)) (number' : ℤ) (missed' : ℕ)
          → ((add_watch_with_options
                (add_watch_with_options s watcher directory fn recursive options number param
                  missed).1
                watcher
                directory'
                fn
                recursive'
                options'
                number'
                param
                missed').0.listener
              ≡ (add_watch_with_options s watcher directory fn recursive options number param
                  missed).0.listener)
            × ((add_watch_with_options
                  (add_watch_with_options s watcher directory fn recursive options number param
                    missed).1
                  watcher
                  directory'
                  fn
                  recursive'
                  options'
                  number'
                  param
                  missed').1
                ≡ (add_watch_with_options s watcher directory fn recursive options number param
                    missed).1))
unfolding add_watch_with_options
add_watch_with_options-Calls s watcher directory fn recursive options number param missed =
    let (calls, again) = callback_for-Stays s watcher fn param missed in
    (
      calls,
      λ directory' recursive' options' number' missed'.
          (ap (λ r. r.0) (again missed'), ap (λ r. r.1) (again missed')),
    )
