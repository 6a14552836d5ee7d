-- ===== src/Inotify/Removing/Tree.antt =====
-- The end of a recursive watch ends the watches below it.
use efsw.Base.{
  ℕ, zero, suc, length, ◌≡◌, refl, sym, ap, ◌∙◌, subst, inl, inr, Bool, true, false, not, ◌&&◌,
  List, [], ◌∷◌, ◌==◌, get_or, if◌then◌else◌, if_true, if_holds, Option, none, some, is_some, All,
  Bool-cases, arith, All-map,
}
use efsw.Inotify.{
  WatcherInotify, new_watcher, Kernel, State, find_id, erase_id, object, in_parent_tree,
}
use efsw.Inotify.Removing.{
  drop_watch, erase_watches, remove_all, remove_below, remove_found, remove_nested,
  remove_watch_locked, remove_watch,
}

find_id-erase_same : (m : List (ℕ × ℕ)) (k : ℕ) → find_id (erase_id m k) k ≡ none
unfolding find_id erase_id
find_id-erase_same [] k = refl
find_id-erase_same ((j, v) ∷ m) k = elim (Bool-cases (j == k)) [
  | inl e ↦ rw e (find_id-erase_same m k)
  | inr e ↦ rw (e, e) (find_id-erase_same m k)
]

find_id-erase_none :
    (m : List (ℕ × ℕ)) (k i : ℕ) → find_id m i ≡ none → find_id (erase_id m k) i ≡ none
unfolding find_id erase_id
find_id-erase_none [] k i h = refl
find_id-erase_none ((j, v) ∷ m) k i h =
    let h' : (if j == i then some v else find_id m i) ≡ none = h in
    elim (Bool-cases (j == i)) [
      | inl e ↦ absurd (ground (arith, e, h'))
      | inr e ↦
          let rest : find_id m i ≡ none = ground (arith, e, h') in
          elim (Bool-cases (j == k)) [
            | inl q ↦ rw q (find_id-erase_none m k i rest)
            | inr q ↦ rw (q, e) (find_id-erase_none m k i rest)
          ]
    ]

module _ {K : Type 0} (kernel : Kernel K) where
  -- A removal inside the loop: a descriptor that is in no entry stays in none, and the back end still
  -- runs.
  abbrev Stays : (State K → ℕ → State K) → Type 0
  Stays remove =
      (s : State K) (id i : ℕ) → find_id s.watches i ≡ none → find_id (remove s id).watches i ≡ none

  abbrev Runs : (State K → ℕ → State K) → Type 0
  Runs remove = (s : State K) (id : ℕ) → s.init_ok ≡ true → (remove s id).init_ok ≡ true

  module _ (remove : State K → ℕ → State K) (stays : Stays remove) where
    all-none :
        (s : State K) (ids : List ℕ) (i : ℕ)
        → find_id s.watches i ≡ none
        → find_id (remove_all kernel remove s ids).watches i ≡ none
    unfolding remove_all
    all-none s [] i h = h
    all-none s (id ∷ ids) i h = all-none (remove s id) ids i (stays s id i h)

    found-none :
        (s : State K) (id i : ℕ) (o : Option ℕ)
        → find_id s.watches i ≡ none
        → find_id (remove_found kernel remove s id false o).watches i ≡ none
    unfolding remove_found remove_below drop_watch
    found-none s id i none h = h
    found-none s id i (some r) h =
        find_id-erase_none (remove_below kernel remove s r).watches id i (
          if_holds (λ t. find_id t.watches i ≡ none)
            ((object s r).recursive && not (is_some (object s r).parent))
            (remove_all kernel remove s (erase_watches kernel s.objects r s.watches)) s
            (all-none s (erase_watches kernel s.objects r s.watches) i h) h)

  module _ (remove : State K → ℕ → State K) (runs : Runs remove) where
    all-ok :
        (s : State K) (ids : List ℕ)
        → s.init_ok ≡ true
        → (remove_all kernel remove s ids).init_ok ≡ true
    unfolding remove_all
    all-ok s [] h = h
    all-ok s (id ∷ ids) h = all-ok (remove s id) ids (runs s id h)

    found-ok :
        (s : State K) (id : ℕ) (o : Option ℕ)
        → s.init_ok ≡ true
        → (remove_found kernel remove s id false o).init_ok ≡ true
    unfolding remove_found remove_below drop_watch
    found-ok s id none h = h
    found-ok s id (some r) h =
        if_holds (λ t. t.init_ok ≡ true)
          ((object s r).recursive && not (is_some (object s r).parent))
          (remove_all kernel remove s (erase_watches kernel s.objects r s.watches)) s
          (all-ok s (erase_watches kernel s.objects r s.watches) h) h

  found-gone :
      (remove : State K → ℕ → State K) (s : State K) (id : ℕ) (o : Option ℕ)
      → find_id s.watches id ≡ o
      → find_id (remove_found kernel remove s id false o).watches id ≡ none
  unfolding remove_found drop_watch
  found-gone remove s id none e = e
  found-gone remove s id (some r) e = find_id-erase_same (remove_below kernel remove s r).watches id

  module _ (remove : State K → ℕ → State K) (stays : Stays remove) (runs : Runs remove) where
    all-gone :
        ((s : State K) (id : ℕ) → s.init_ok ≡ true → find_id (remove s id).watches id ≡ none)
        → (s : State K) (ids : List ℕ) → s.init_ok ≡ true
        → All (λ id. find_id (remove_all kernel remove s ids).watches id ≡ none) ids
    unfolding remove_all
    all-gone gone s [] h = tt
    all-gone gone s (id ∷ ids) h = (
      all-none remove stays (remove s id) ids id (gone s id h),
      all-gone gone (remove s id) ids (runs s id h),
    )

  nested-ok : (depth : ℕ) → Runs (remove_nested kernel depth)
  unfolding remove_nested
  nested-ok zero s id h = h
  nested-ok (suc depth) s id h =
      if_holds (λ t. t.init_ok ≡ true) s.init_ok _ s
        (found-ok (remove_nested kernel depth) (nested-ok depth) s id (find_id s.watches id) h) h

  nested-none : (depth : ℕ) → Stays (remove_nested kernel depth)
  unfolding remove_nested
  nested-none zero s id i h = h
  nested-none (suc depth) s id i h =
      if_holds (λ t. find_id t.watches i ≡ none) s.init_ok _ s
        (found-none (remove_nested kernel depth) (nested-none depth) s id i (find_id s.watches id)
          h)
        h

  nested-gone :
      (depth : ℕ) (s : State K) (id : ℕ)
      → s.init_ok ≡ true
      → find_id (remove_nested kernel (suc depth) s id).watches id ≡ none
  unfolding remove_nested
  nested-gone depth s id h =
      subst (λ t. find_id t.watches id ≡ none) (sym (if_true s.init_ok _ s h))
        (found-gone (remove_nested kernel depth) s id (find_id s.watches id) refl)

  -- The watches below an object.
  below-All :
      (P : ℕ → Type 0) (objects : List WatcherInotify) (r : ℕ) (m : List (ℕ × ℕ))
      → All P (erase_watches kernel objects r m)
      → All
          (λ (wd, q).
            (q == r) ≡ false
            → in_parent_tree objects q r ≡ true
            → P (get_or objects q new_watcher).inotify_id)
          m
  unfolding erase_watches
  below-All P objects r [] h = tt
  below-All P objects r ((wd, q) ∷ m) h =
      go (not (q == r) && in_parent_tree objects q r) refl h (below-All P objects r m)
    where
      go :
          (b : Bool)
          → (not (q == r) && in_parent_tree objects q r) ≡ b
          → All P (
              if b
              then (get_or objects q new_watcher).inotify_id ∷ erase_watches kernel objects r m
              else erase_watches kernel objects r m)
          → (All P (erase_watches kernel objects r m)
              → All
                  (λ (wd, q).
                    (q == r) ≡ false
                    → in_parent_tree objects q r ≡ true
                    → P (get_or objects q new_watcher).inotify_id)
                  m)
          → All
              (λ (wd, q).
                (q == r) ≡ false
                → in_parent_tree objects q r ≡ true
                → P (get_or objects q new_watcher).inotify_id)
              ((wd, q) ∷ m)
      go true e k ih = (λ a b. k.0, ih k.1)
      go false e k ih = (λ a b. absurd (ground (arith, a, b, e)), ih k)

  -- Removing a recursive watch of a user, while the back end runs, takes it out of the table, and
  -- with it every other watch whose chain of parents leads to it and whose object has the
  -- descriptor under which the table holds it.
  pub remove_watch-tree :
      (s : State K) (id r : ℕ)
      → s.init_ok ≡ true
      → find_id s.watches id ≡ some r
      → (object s r).recursive ≡ true
      → (object s r).parent ≡ none
      → (find_id (remove_watch kernel s id).watches id ≡ none)
        × All
            (λ (wd, q).
              (q == r) ≡ false
              → in_parent_tree s.objects q r ≡ true
              → (object s q).inotify_id ≡ wd
              → find_id (remove_watch kernel s id).watches wd ≡ none)
            s.watches
  unfolding remove_watch remove_watch_locked remove_found remove_below drop_watch
  remove_watch-tree s id r ok found rec top = (
    subst (λ t. find_id t.watches id ≡ none) (sym shape)
        (find_id-erase_same (remove_all kernel step s ids).watches id),
    All-map s.watches
        (λ (wd, q) f a b e.
          subst (λ t. find_id t.watches wd ≡ none) (sym shape)
            (find_id-erase_none (remove_all kernel step s ids).watches id wd
              (subst (λ i. find_id (remove_all kernel step s ids).watches i ≡ none) e (f a b))))
        (below-All (λ i. find_id (remove_all kernel step s ids).watches i ≡ none) s.objects r
          s.watches
          (all-gone step (nested-none (suc (length s.watches))) (nested-ok (suc (length s.watches)))
            (nested-gone (length s.watches)) s ids ok)),
  )
    where
      step : State K → ℕ → State K
      step = remove_nested kernel (suc (length s.watches))

      ids : List ℕ
      ids = erase_watches kernel s.objects r s.watches

      shape : remove_watch kernel s id ≡ drop_watch kernel (remove_all kernel step s ids) id r false
      shape =
          if_true s.init_ok _ s ok
          ∙ ap (remove_found kernel step s id false) found
          ∙ ap (λ t. drop_watch kernel t id r false)
              (if_true ((object s r).recursive && not (is_some (object s r).parent)) _ s
                (rw (rec, top) refl))
