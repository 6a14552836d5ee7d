-- ===== src/Inotify/Actions/Renames.antt =====
-- A directory that moves inside a recursive watch: the loop of handleAction over the watches.
use efsw.Base.{
  ℕ, zero, suc, ◌<◌, ◌≡◌, ◌≢◌, refl, sym, ap, ◌∙◌, subst, inl, inr, Bool, true, false, List, [],
  ◌∷◌, ◌++◌, append-nil, Text, text_eq, text_eq_iff, ◌==◌, length, get_or, drop, drop-length_append,
  length-append, if_true, if_false, All, All-map, Bool-cases, arith,
}
use efsw.Agent.{int_eq}
use efsw.Strings.{str_starts_with, not_found}
use efsw.Strings.Laws.{str_starts_with_iff}
use efsw.FileInfo.{Os}
use efsw.FileWatcher.Links.{int_eq-found, int_eq_refl}
use efsw.Inotify.{WatcherInotify, new_watcher, set_object}
use efsw.Inotify.Actions.{starts_with, rename_watch, rename_watches}

-- A path below the old one starts with it.
starts_with-append : (opath rest : Text) → opath ≢ [] → starts_with opath (opath ++ rest) ≡ true
starts_with-append opath rest ne =
    elim (Bool-cases (int_eq not_found (str_starts_with opath (opath ++ rest)))) [
      | inl e ↦
          absurd
            ((str_starts_with_iff opath (opath ++ rest)).1 (ne, (rest, refl)) (int_eq-found _ e))
      | inr e ↦ rw e refl
    ]

starts_with-none :
    (opath dir : Text) → ((rest : Text) → dir ≢ opath ++ rest) → starts_with opath dir ≡ false
starts_with-none opath dir apart =
    elim (Bool-cases (int_eq not_found (str_starts_with opath dir))) [
      | inl e ↦ rw e refl
      | inr e ↦ absurd (
          let found = (str_starts_with_iff opath dir).0 (λ z. cc (int_eq_refl _ z, e)) in
          apart found.1.0 found.1.1)
    ]

-- No two entries have the same object.
abbrev pub AreDistinct : List (ℕ × ℕ) → Type 0
AreDistinct [] = Unit
AreDistinct ((wd, r) ∷ m) = All (λ (k, q). (r == q) ≡ false) m × AreDistinct m

not_equal : (q r : ℕ) → (q == r) ≡ false → (r == q) ≡ false
not_equal q r h = ground arith

pub get_or-set_same :
    (xs : List WatcherInotify) (r : ℕ) (w : WatcherInotify)
    → r < length xs
    → get_or (set_object xs r w) r new_watcher ≡ w
unfolding set_object
get_or-set_same [] r w h = absurd (omega arith)
get_or-set_same (x ∷ xs) zero w h = refl
get_or-set_same (x ∷ xs) (suc r) w h = get_or-set_same xs r w (omega arith)

pub get_or-set_other :
    (xs : List WatcherInotify) (q r : ℕ) (w : WatcherInotify)
    → (q == r) ≡ false
    → get_or (set_object xs q w) r new_watcher ≡ get_or xs r new_watcher
unfolding set_object
get_or-set_other [] q r w h = refl
get_or-set_other (x ∷ xs) zero zero w h = cc
get_or-set_other (x ∷ xs) zero (suc r) w h = refl
get_or-set_other (x ∷ xs) (suc q) zero w h = refl
get_or-set_other (x ∷ xs) (suc q) (suc r) w h = get_or-set_other xs q r w (ground (arith, h))

length-set_object :
    (xs : List WatcherInotify) (q : ℕ) (w : WatcherInotify) → length (set_object xs q w) ≡ length xs
unfolding set_object
length-set_object [] q w = refl
length-set_object (x ∷ xs) zero w = refl
length-set_object (x ∷ xs) (suc q) w = ap suc (length-set_object xs q w)

All-both :
    {A : Type 0} {P Q R : A → Type 0} (xs : List A)
    → ((x : A) → P x → Q x → R x)
    → All P xs
    → All Q xs
    → All R xs
All-both [] f p q = tt
All-both (x ∷ xs) f p q = (f x p.0 q.0, All-both xs f p.1 q.1)

module _ (os : Os) (opath fpath : Text) (ne : opath ≢ []) where
  -- What becomes of the path of a watch.
  abbrev pub IsRenamed : Text → Text → Type 0
  IsRenamed before after =
      ((rest : Text) → before ≡ opath ++ rest → after ≡ fpath ++ rest)
      × (((rest : Text) → before ≢ opath ++ rest) → after ≡ before)

  rename_watch-moved :
      (w : WatcherInotify) (rest : Text)
      → w.directory ≡ opath ++ rest
      → (rename_watch os opath fpath w).directory ≡ fpath ++ rest
  unfolding rename_watch
  rename_watch-moved w [] e =
      let same : text_eq w.directory opath ≡ true =
        (text_eq_iff w.directory opath).1 (e ∙ append-nil opath) in
      rw (same, append-nil fpath) refl
  rename_watch-moved w (x ∷ rest) e = elim (Bool-cases (text_eq w.directory opath)) [
    | inl q ↦
        let longer : length opath ≡ length (opath ++ x ∷ rest) =
          ap length (sym ((text_eq_iff w.directory opath).0 q) ∙ e) in
        absurd (omega (arith, longer, length-append opath (x ∷ rest)))
    | inr q ↦
        let st : starts_with opath w.directory ≡ true =
          subst (λ d. starts_with opath d ≡ true) (sym e)
            (starts_with-append opath (x ∷ rest) ne) in
        ap (λ v. v.directory) (if_false (text_eq w.directory opath) _ _ q ∙ if_true _ _ w st)
        ∙ ap (λ d. fpath ++ drop (length opath) d) e
        ∙ ap (λ d. fpath ++ d) (drop-length_append opath (x ∷ rest))
  ]

  rename_watch-kept :
      (w : WatcherInotify)
      → ((rest : Text) → w.directory ≢ opath ++ rest)
      → rename_watch os opath fpath w ≡ w
  unfolding rename_watch
  rename_watch-kept w apart =
      if_false (text_eq w.directory opath) _ _ (not_same (text_eq w.directory opath) refl)
      ∙ if_false (starts_with opath w.directory) _ w (starts_with-none opath w.directory apart)
    where
      not_same : (b : Bool) → text_eq w.directory opath ≡ b → text_eq w.directory opath ≡ false
      not_same true q =
          absurd (apart [] ((text_eq_iff w.directory opath).0 q ∙ sym (append-nil opath)))
      not_same false q = q

  rename_watch-IsRenamed :
      (w : WatcherInotify) → IsRenamed w.directory (rename_watch os opath fpath w).directory
  rename_watch-IsRenamed w =
      (rename_watch-moved w, λ apart. ap (λ v. v.directory) (rename_watch-kept w apart))

  -- The loop changes the object of each entry once, where no two entries have the same object.
  rename_watches-other :
      (objects : List WatcherInotify) (m : List (ℕ × ℕ)) (r : ℕ)
      → All (λ (wd, q). (q == r) ≡ false) m
      → get_or (rename_watches os opath fpath objects m) r new_watcher
        ≡ get_or objects r new_watcher
  unfolding rename_watches
  rename_watches-other objects [] r h = refl
  rename_watches-other objects ((wd, q) ∷ m) r h =
      rename_watches-other
        (set_object objects q (rename_watch os opath fpath (get_or objects q new_watcher))) m r h.1
      ∙ get_or-set_other objects q r _ h.0

  rename_watches-each :
      (objects : List WatcherInotify) (m : List (ℕ × ℕ))
      → AreDistinct m
      → All (λ (wd, r). r < length objects) m
      → All
          (λ (wd, r).
            get_or (rename_watches os opath fpath objects m) r new_watcher
            ≡ rename_watch os opath fpath (get_or objects r new_watcher))
          m
  unfolding rename_watches
  rename_watches-each objects [] d v = tt
  rename_watches-each objects ((wd, q) ∷ m) d v =
      let w = rename_watch os opath fpath (get_or objects q new_watcher) in
      let next = set_object objects q w in
      (
        rename_watches-other next m q (All-map m (λ (k, r) n. not_equal q r n) d.0)
            ∙ get_or-set_same objects q w v.0,
        All-both m
            (λ (k, r) n e. e ∙ ap (rename_watch os opath fpath) (get_or-set_other objects q r w n))
            d.0
            (rename_watches-each next m d.1 (
              All-map m (λ (k, r) h. subst (λ n. r < n) (sym (length-set_object objects q w)) h)
                v.1)),
      )

  -- After a directory has moved, where its old path is not empty and the entries of the table are
  -- of different objects: each watch whose directory is below the old path has the same place below
  -- the new one, and every other watch keeps its directory.
  pub rename_watches-IsRenamed :
      (objects : List WatcherInotify) (m : List (ℕ × ℕ))
      → AreDistinct m
      → All (λ (wd, r). r < length objects) m
      → All
          (λ (wd, r).
            IsRenamed
              (get_or objects r new_watcher).directory
              (get_or (rename_watches os opath fpath objects m) r new_watcher).directory)
          m
  rename_watches-IsRenamed objects m d v =
      All-map m
        (λ (wd, r) e.
          subst (λ w. IsRenamed (get_or objects r new_watcher).directory w.directory) (sym e)
            (rename_watch-IsRenamed (get_or objects r new_watcher)))
        (rename_watches-each objects m d v)
