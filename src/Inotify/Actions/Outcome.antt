-- ===== src/Inotify/Actions/Outcome.antt =====
-- What handleAction tells the listener of a watch that is not recursive.
use efsw.Base.{
  ℕ, ◌≡◌, refl, ap, ◌∙◌, inl, inr, true, false, not, ◌&&◌, ◌||◌, List, [], ◌∷◌, append-nil, Text,
  if◌then◌else◌, if_true, if_false, Option, some, Bool-cases, ◌>>=◌,
}
use efsw.FileInfo.{Os}
use efsw.FileActionBatch.{add, delete, modified, moved}
use efsw.FileWatcher.{Settings}
use efsw.Inotify.{
  WatcherInotify, Kernel, State, Notice, missed, object, has_bit, in_modify, in_close_write,
  in_moved_from, in_moved_to, in_create, in_delete, in_q_overflow,
}
use efsw.Inotify.Actions.{
  is_empty, notice, tell, set_old_file_name, handle_action, handle_moved_to, check_for_new_watcher,
}

-- The callbacks for an event that is no part of a move, by the first bit of its mask that the code
-- looks for.
abbrev pub told : WatcherInotify → Text → ℕ → List Notice
told w filename mask =
    if has_bit mask in_q_overflow
    then missed w.id w.directory ∷ []
    else if has_bit mask in_close_write || has_bit mask in_modify
    then notice w filename modified [] ∷ []
    else if has_bit mask in_create
    then notice w filename add [] ∷ []
    else if has_bit mask in_delete
    then notice w filename delete [] ∷ []
    else []

-- A watch that has a listener and is not recursive.
abbrev pub IsFlat : WatcherInotify → Type 0
IsFlat w = (w.listener ≡ true) × (w.recursive ≡ false)

module _ {K : Type 0} (kernel : Kernel K) (os : Os) (settings : Settings) (fuel : ℕ) (s : State K)
    (r : ℕ) (flat : IsFlat (object s r)) (filename : Text) where
  pub handle_action-told :
      (mask : ℕ)
      → s.init_ok ≡ true
      → has_bit mask in_moved_from ≡ false
      → has_bit mask in_moved_to ≡ false
      → handle_action kernel os settings fuel s r filename mask
        ≡ some (tell s (told (object s r) filename mask))
  unfolding handle_action
  handle_action-told mask ok from to = elim (Bool-cases (has_bit mask in_q_overflow)) [
    | inl q ↦ rw (flat.0, ok, q) refl
    | inr q ↦ elim (Bool-cases (has_bit mask in_close_write || has_bit mask in_modify)) [
      | inl m ↦ rw (flat.0, ok, q, m) refl
      | inr m ↦ elim (Bool-cases (has_bit mask in_create)) [
        | inl c ↦ rw (flat.0, flat.1, ok, q, m, to, c) refl
        | inr c ↦ elim (Bool-cases (has_bit mask in_delete)) [
          | inl d ↦ rw (flat.0, flat.1, ok, q, m, to, c, from, d) refl
          | inr d ↦ rw (flat.0, ok, q, m, to, c, from, d, append-nil s.notices) refl
        ]
      ]
    ]
  ]

-- The mask of the destination of a move.
abbrev pub IsMovedTo : ℕ → Type 0
IsMovedTo mask =
    (has_bit mask in_q_overflow ≡ false)
    × ((has_bit mask in_close_write || has_bit mask in_modify ≡ false)
        × ((has_bit mask in_moved_from ≡ false) × (has_bit mask in_moved_to ≡ true)))

module _ {K : Type 0} (kernel : Kernel K) (os : Os) (settings : Settings) (fuel : ℕ) (s : State K)
    (r : ℕ) (flat : IsFlat (object s r)) (filename : Text) (mask : ℕ) (ok : s.init_ok ≡ true)
    (is_to : IsMovedTo mask) where
  -- The code gets as far as the branch for IN_MOVED_TO.
  at_moved_to :
      handle_action kernel os settings fuel s r filename mask
      ≡ handle_moved_to kernel os settings fuel s r filename
  unfolding handle_action
  at_moved_to =
      if_false (not (object s r).listener || not s.init_ok) _ _ (rw (flat.0, ok) refl)
      ∙ if_false (has_bit mask in_q_overflow) _ _ is_to.0
      ∙ if_false (has_bit mask in_close_write || has_bit mask in_modify) _ _ is_to.1.0
      ∙ if_true (has_bit mask in_moved_to) _ _ is_to.1.1.1

  -- The destination of a move from elsewhere.
  pub handle_action-arrived :
      is_empty (object s r).old_file_name ≡ true
      → handle_action kernel os settings fuel s r filename mask
        ≡ some (
            set_old_file_name
              (tell s (
                notice (object s r) filename add []
                ∷ notice (object s r) filename modified []
                ∷ []))
              r
              [])
  unfolding handle_moved_to check_for_new_watcher
  handle_action-arrived e =
      at_moved_to
      ∙ if_true (is_empty (object s r).old_file_name) _ _ e
      ∙ ap (λ o. o >>= k) (if_false ((object s r).recursive && _) _ _ (rw (flat.1) refl))
    where
      k : State K → Option (State K)
      k s' = some (
          set_old_file_name
            (tell s'
              (notice (object s r) filename add [] ∷ notice (object s r) filename modified [] ∷ []))
            r [])

  -- The destination of a move in the same directory.
  pub handle_action-moved :
      is_empty (object s r).old_file_name ≡ false
      → handle_action kernel os settings fuel s r filename mask
        ≡ some (
            set_old_file_name
              (tell s (notice (object s r) filename moved (object s r).old_file_name ∷ []))
              r
              [])
  unfolding handle_moved_to
  handle_action-moved e =
      at_moved_to
      ∙ if_false (is_empty (object s r).old_file_name) _ _ e
      ∙ ap (λ t. some (set_old_file_name t r []))
          (if_false ((object s r).recursive && _) _ _ (rw (flat.1) refl))
