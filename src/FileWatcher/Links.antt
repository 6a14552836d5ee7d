-- ===== src/FileWatcher/Links.antt =====
-- What FileWatcherImpl::linkAllowed and the search of a path among the watches mean.
use efsw.Base.{
  ℕ, ==_iff, ℤ, pos, negsuc, ◌≡◌, ◌≢◌, refl, sym, ap, subst, inl, inr, true, false, List, [], ◌∷◌,
  ◌++◌, Text, text_eq_iff, All, arith, Bool-cases,
}
use efsw.Strings.{not_found, str_starts_with}
use efsw.Strings.Laws.{str_starts_with_iff}
use efsw.Agent.{int_eq}
use efsw.FileWatcher.{Directories, WatcherGeneric, Settings, link_allowed, path_in_watches}

pub int_eq-found : (z : ℤ) → int_eq not_found z ≡ true → z ≡ not_found
int_eq-found (pos n) h = cc
int_eq-found (negsuc n) h = ap negsuc (sym ((==_iff 0 n).0 h))

pub int_eq_refl : (z : ℤ) → z ≡ not_found → int_eq not_found z ≡ true
int_eq_refl z e = subst (λ y. int_eq not_found y ≡ true) (sym e) refl

-- A symbolic link may be followed: links out of scope are allowed, or its target lies below the
-- directory that holds the link.
pub data AllowedLink (settings : Settings) (cur_path link : Text) : Type 0 where
  everywhere :
      settings.follow_symlinks ≡ true
      → settings.out_of_scope ≡ true
      → AllowedLink settings cur_path link
  below :
      (rest : Text) → cur_path ≢ [] → link ≡ cur_path ++ rest → AllowedLink settings cur_path link

pub link_allowed-AllowedLink :
    (settings : Settings) (cur_path link : Text)
    → link_allowed settings.follow_symlinks settings.out_of_scope cur_path link ≡ true
    → AllowedLink settings cur_path link
unfolding link_allowed
link_allowed-AllowedLink settings cur_path link h =
    elim (Bool-cases (int_eq not_found (str_starts_with cur_path link))) [
      | inl e ↦ everywhere (ground (arith, h, e)) (ground (arith, h, e))
      | inr e ↦
          let (named, (rest, splits)) =
            (str_starts_with_iff cur_path link).0
              (λ k. cc (int_eq_refl (str_starts_with cur_path link) k, e)) in
          below rest named splits
    ]

pub link_allowed_refused :
    (settings : Settings) (cur_path link : Text)
    → link_allowed settings.follow_symlinks settings.out_of_scope cur_path link ≡ false
    → AllowedLink settings cur_path link
    → ⊥
unfolding link_allowed
link_allowed_refused settings cur_path link h (everywhere a b) = ground (arith, h, a, b)
link_allowed_refused settings cur_path link h (below rest named splits) =
    (str_starts_with_iff cur_path link).1 (named, (rest, splits))
      (int_eq-found _ (ground (arith, h)))

module _ {D : Type 0} (directories : Directories D) where
  -- No watch of the list is on the path, and none has it in its tree.
  abbrev pub AreElsewhere : List (WatcherGeneric D) → Text → Type 0
  AreElsewhere ws path =
      All (λ w. (w.directory ≢ path) × (directories.path_in_watches w.dir_watch path ≡ false)) ws

  pub path_in_watches-AreElsewhere :
      (option : ℕ) (ws : List (WatcherGeneric D)) (path : Text)
      → path_in_watches directories option ws path ≡ false
      → AreElsewhere ws path
  unfolding path_in_watches
  path_in_watches-AreElsewhere option [] path h = tt
  path_in_watches-AreElsewhere option (w ∷ ws) path h = (
    (λ e. ground (arith, h, (text_eq_iff w.directory path).1 e), ground (arith, h)),
    path_in_watches-AreElsewhere option ws path (ground (arith, h)),
  )

  pub path_in_watches_found :
      (option : ℕ) (ws : List (WatcherGeneric D)) (path : Text)
      → path_in_watches directories option ws path ≡ true
      → AreElsewhere ws path
      → ⊥
  unfolding path_in_watches
  path_in_watches_found option [] path h a = cc h
  path_in_watches_found option (w ∷ ws) path h ((n, m), a) =
      elim (Bool-cases (path_in_watches directories option ws path)) [
        | inl k ↦ path_in_watches_found option ws path k a
        | inr k ↦ n ((text_eq_iff w.directory path).0 (ground (arith, h, k, m)))
      ]
