-- ===== src/FileWatcher/Ids.antt =====
-- The ids of the watches of FileWatcherGeneric along the list.
use efsw.Base.{
  ℕ, suc, ◌<◌, ◌≤◌, ℤ, pos, ◌≡◌, sym, ap, ◌∙◌, subst, inl, inr, Bool, false, List, [], ◌∷◌, ◌++◌,
  Text, Bool-cases, arith,
}
use efsw.FileInfo.{Os}
use efsw.Agent.{int_eq}
use efsw.FileWatcher.{
  Directories, WatcherGeneric, FileWatcherGeneric, Settings, remove_loop, remove_watch,
  front_add_watch, is_negative,
}
use efsw.FileWatcher.Adding.{Added, refused, accepted, front_add_watch-Added}

-- The ids of a list of watches ascend, above `low` and up to `high`.
abbrev pub Ascending : {D : Type 0} → ℕ → ℕ → List (WatcherGeneric D) → Type 0
Ascending low high [] = low ≤ high
Ascending low high (w ∷ ws) = (low < w.id) × Ascending w.id high ws

abbrev pub IsWellFormed : {D : Type 0} → FileWatcherGeneric D → Type 0
IsWellFormed s = Ascending 0 s.last_watch_id s.watches

module _ {D : Type 0} where
  Ascending-lower :
      (low low' high : ℕ) (ws : List (WatcherGeneric D))
      → low ≤ low'
      → Ascending low' high ws
      → Ascending low high ws
  Ascending-lower low low' high [] h a = omega arith
  Ascending-lower low low' high (w ∷ ws) h (b, a) = (omega arith, a)

  Ascending-bound :
      (low high : ℕ) (ws : List (WatcherGeneric D)) → Ascending low high ws → low ≤ high
  Ascending-bound low high [] a = a
  Ascending-bound low high (w ∷ ws) (b, a) = omega (arith, Ascending-bound w.id high ws a)

  Ascending-snoc :
      (low high : ℕ) (ws : List (WatcherGeneric D)) (w : WatcherGeneric D)
      → w.id ≡ suc high
      → Ascending low high ws
      → Ascending low (suc high) (ws ++ w ∷ [])
  Ascending-snoc low high [] w e a = (omega arith, omega arith)
  Ascending-snoc low high (v ∷ ws) w e (b, a) = (b, Ascending-snoc v.id high ws w e a)

  remove_loop-Ascending :
      (directories : Directories D) (option : ℕ) (low high : ℕ) (ws : List (WatcherGeneric D))
      (id : ℤ)
      → Ascending low high ws
      → Ascending low high (remove_loop directories option ws id)
  unfolding remove_loop
  remove_loop-Ascending directories option low high [] id a = a
  remove_loop-Ascending directories option low high (w ∷ ws) id (b, a) =
      elim (Bool-cases (int_eq (pos w.id) id)) [
        | inl e ↦ rw e (Ascending-lower low w.id high ws (omega arith) a)
        | inr e ↦ rw e (b, remove_loop-Ascending directories option w.id high ws id a)
      ]

  -- The id after the last one is not in the list, so that removing it takes the new watch only.
  remove_loop-snoc :
      (directories : Directories D) (option : ℕ) (low high : ℕ) (ws : List (WatcherGeneric D))
      (w : WatcherGeneric D)
      → w.id ≡ suc high
      → Ascending low high ws
      → remove_loop directories option (ws ++ w ∷ []) (pos w.id) ≡ ws
  unfolding remove_loop
  remove_loop-snoc directories option low high [] w e a = ground (arith, e)
  remove_loop-snoc directories option low high (v ∷ ws) w e (b, a) =
      let below = Ascending-bound v.id high ws a in
      ground (arith, e, below, remove_loop-snoc directories option v.id high ws w e a)

module _ {D : Type 0} (directories : Directories D) (option : ℕ) (os : Os) (settings : Settings)
    (s : FileWatcherGeneric D) (directory : Text) (recursive : Bool) (options : List (ℕ × ℤ))
    (v : IsWellFormed s) where
  abbrev result : ℤ × FileWatcherGeneric D
  result = front_add_watch directories option os settings s directory recursive options

  outcome : Added directories option os settings s directory recursive options result
  outcome = front_add_watch-Added directories option os settings s directory recursive options

  -- Where the ids of the watches ascend and are at most the last one given, they still do after
  -- adding a watch, so that no two watches share an id.
  pub front_add_watch-IsWellFormed :
      IsWellFormed (front_add_watch directories option os settings s directory recursive options).1
  front_add_watch-IsWellFormed = elim outcome [
    | refused err n reason c e f t ↦
        subst (λ ws. Ascending 0 result.1.last_watch_id ws) (sym e)
          (subst (λ l. Ascending 0 l s.watches) (sym f) v)
    | accepted w r i l e v' ↦
        subst (λ ws. Ascending 0 result.1.last_watch_id ws) (sym e)
          (subst (λ l. Ascending 0 l (s.watches ++ w ∷ [])) (sym l)
            (Ascending-snoc 0 s.last_watch_id s.watches w i v))
  ]

  -- Where the ids of the watches ascend and are at most the last one given: removing by its id a
  -- watch whose adding succeeded leaves the watches that were there before.
  pub remove_watch-front_add_watch :
      is_negative (front_add_watch directories option os settings s directory recursive options).0
        ≡ false
      → (remove_watch directories option
          (front_add_watch directories option os settings s directory recursive options).1
          (front_add_watch directories option os settings s directory recursive options).0).watches
        ≡ s.watches
  unfolding remove_watch
  remove_watch-front_add_watch k = elim outcome [
    | refused err n reason c e f t ↦ absurd (cc (n, c, k))
    | accepted w r i l e v' ↦
        ap (λ ws. remove_loop directories option ws result.0) e
        ∙ ap (remove_loop directories option (s.watches ++ w ∷ [])) r
        ∙ remove_loop-snoc directories option 0 s.last_watch_id s.watches w i v
  ]

-- Where the ids of the watches ascend and are at most the last one given, they still do after
-- removing a watch by its id.
remove_watch-IsWellFormed :
    {D : Type 0} (directories : Directories D) (option : ℕ) (s : FileWatcherGeneric D) (id : ℤ)
    → IsWellFormed s
    → IsWellFormed (remove_watch directories option s id)
unfolding remove_watch
remove_watch-IsWellFormed directories option s id v =
    remove_loop-Ascending directories option 0 s.last_watch_id s.watches id v
