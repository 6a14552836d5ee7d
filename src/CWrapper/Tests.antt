-- ===== src/CWrapper/Tests.antt =====
-- The theorem about callbacks at a table with one callback of another function.
use efsw.Base.{◌≡◌, pos, [], ◌∷◌, codes, Mem, Text, ℤ, ℕ, List}
use efsw.CWrapper.{WatcherCapi, Capi, add_watch_with_options}
use efsw.CWrapper.Callbacks.{Calls, add_watch_with_options-Calls}

abbrev table : Capi
table = record {
  callbacks = (64, record { watcher = 8; fn = 16; param = 0; fn_missed_fa = 0 }) ∷ [];
  next = 65;
}

add_watch_with_options-Calls_example :
    ((c : WatcherCapi) × Mem
        ((add_watch_with_options table 8 (codes "/a") 17 (pos 1) [] (pos 0) 5 18).0.listener, c)
        (add_watch_with_options table 8 (codes "/a") 17 (pos 1) [] (pos 0) 5 18).1.callbacks
      × Calls 8 17 5 c)
    × ((directory' : Text) (recursive' : ℤ) (options' : List (ℕ × ℤ)) (number' : ℤ) (missed' : ℕ)
        → ((add_watch_with_options
              (add_watch_with_options table 8 (codes "/a") 17 (pos 1) [] (pos 0) 5 18).1
              8
              directory'
              17
              recursive'
              options'
              number'
              5
              missed').0.listener
            ≡ (add_watch_with_options table 8 (codes "/a") 17 (pos 1) [] (pos 0) 5 18).0.listener)
          × ((add_watch_with_options
                (add_watch_with_options table 8 (codes "/a") 17 (pos 1) [] (pos 0) 5 18).1
                8
                directory'
                17
                recursive'
                options'
                number'
                5
                missed').1
              ≡ (add_watch_with_options table 8 (codes "/a") 17 (pos 1) [] (pos 0) 5 18).1))
add_watch_with_options-Calls_example =
    add_watch_with_options-Calls table 8 (codes "/a") 17 (pos 1) [] (pos 0) 5 18
