-- ===== src/Inotify/Batch/Lost.antt =====
-- A source whose destination is not in the batch.
use efsw.Base.{
  ℕ, zero, suc, ◌^◌, ◌≡◌, refl, sym, ap, ◌∙◌, true, false, List, [], ◌∷◌, ◌++◌, reverse, append-nil,
  Text, if_true, if_false, Option, none, some, All, get_or, ◌>>=◌,
}
use efsw.FileSystem.{os_slash}
use efsw.FileInfo.{Os}
use efsw.FileActionBatch.{delete}
use efsw.FileWatcher.{Settings}
use efsw.Inotify.{
  WatcherInotify, new_watcher, Kernel, State, object, set_object, has_bit, in_moved_from,
  in_moved_to, in_delete,
}
use efsw.Inotify.Actions.{
  tell, handle_action, notice, set_old_file_name, emit_moved_outside, watches_below, sort_watches,
  delete_below,
}
use efsw.Inotify.Actions.Outcome.{IsFlat, handle_action-told}
use efsw.Inotify.Batch.{
  BatchEvent, find_watcher, destination_wd, find_destination, coalesce, moved_from, replay_event,
  replay, run_batch,
}
use efsw.Inotify.Batch.Plain.{all_heard, AreFlat, IsPlain, find_watcher-IsFlat, freed, replay-heard}

-- Clearing a name that is empty changes nothing.
set_object-same :
    (xs : List WatcherInotify) (r : ℕ)
    → (get_or xs r new_watcher).old_file_name ≡ []
    → set_object xs r (record (get_or xs r new_watcher) { old_file_name = [] }) ≡ xs
unfolding set_object
set_object-same [] r h = refl
set_object-same (x ∷ xs) zero h = ap (λ n. record x { old_file_name = n } ∷ xs) (sym h)
set_object-same (x ∷ xs) (suc r) h = ap (λ ys. x ∷ ys) (set_object-same xs r h)

-- No event of a batch is the destination of a move with this cookie.
destination_wd-plain :
    (events : List BatchEvent) (cookie : ℕ)
    → All IsPlain events
    → destination_wd events cookie ≡ none
unfolding destination_wd
destination_wd-plain [] cookie h = refl
destination_wd-plain (event ∷ events) cookie (h, k) =
    rw (destination_wd-plain events cookie k, h.1) refl

module _ {K : Type 0} (kernel : Kernel K) (os : Os) (settings : Settings) (fuel : ℕ) (s : State K)
    (r : ℕ) (from : BatchEvent) (rest : List BatchEvent) (ok : s.init_ok ≡ true)
    (flat : AreFlat s.objects s.watches) (found : find_watcher s.watches from.wd ≡ some r)
    (no_name : (object s r).old_file_name ≡ []) (is_from : has_bit from.mask in_moved_from ≡ true)
    (not_to : has_bit from.mask in_moved_to ≡ false)
    (childless : watches_below kernel os settings s r
        ((object s r).directory ++ (from.filename ++ os_slash ∷ []))
        s.watches
      ≡ [])
    (plain : All IsPlain rest) where
  batch : List BatchEvent
  batch = from ∷ rest

  no_destination : destination_wd batch from.cookie ≡ none
  unfolding destination_wd batch
  no_destination = rw (destination_wd-plain rest from.cookie plain, not_to) refl

  cleared : set_old_file_name s r [] ≡ s
  cleared = ap (λ xs. record s { objects = xs }) (set_object-same s.objects r no_name)

  deleted : State K
  deleted = tell s (notice (object s r) from.filename delete [] ∷ [])

  IsFlat-r : IsFlat (object s r)
  IsFlat-r = find_watcher-IsFlat s.objects s.watches from.wd r flat found

  above : Text
  above = (object s r).directory ++ (from.filename ++ os_slash ∷ [])

  by_below : State K → List ℕ → Option (State K)
  by_below t below = elim (sort_watches kernel os settings t below) [
    | [] ↦ handle_action kernel os settings fuel t r from.filename (2 ^ in_delete)
    | q ∷ qs ↦ delete_below kernel os settings fuel t (reverse (q ∷ qs))
  ]

  outside : emit_moved_outside kernel os settings fuel s r from.filename ≡ some deleted
  unfolding emit_moved_outside sort_watches deleted by_below above
  outside =
      ap (λ t. by_below t (watches_below kernel os settings t r above t.watches)) cleared
      ∙ ap (by_below s) childless
      ∙ handle_action-told kernel os settings fuel s r IsFlat-r from.filename (2 ^ in_delete) ok
          refl refl

  lost : moved_from kernel os settings fuel batch s [] r from ≡ some (deleted, [])
  unfolding moved_from coalesce find_destination
  lost =
      if_false (coalesce s r (find_destination s.watches (destination_wd batch from.cookie))) _ _
        (ap (λ o. coalesce s r (find_destination s.watches o)) no_destination)
      ∙ ap (λ o. o >>= λ s'. some (s', [])) outside

  begins : replay_event kernel os settings fuel batch s [] from ≡ some (deleted, [])
  unfolding replay_event
  begins =
      if_true (has_bit from.mask in_moved_from) _ _ is_from
      ∙ ap
          (λ o. elim o [
            | none ↦ some (s, [])
            | some q ↦ moved_from kernel os settings fuel batch s [] q from
          ])
          found
      ∙ lost

  -- Where the back end runs (mInitOK is set), for a move out of a directory whose watch has a listener, is not recursive and waits for no
  -- destination, where the batch begins with the source, has no other event of a move, no watch
  -- stands below what has moved, and every watch has a listener and is not recursive: the batch is
  -- handled on any fuel, and the listener hears of a deletion where the source stands and then of
  -- the other events in their order.
  pub run_batch-lost :
      run_batch kernel os settings fuel s (from ∷ rest)
      ≡ some (record s {
        notices =
            s.notices
            ++ notice (object s r) from.filename delete [] ∷ []
            ++ all_heard s.objects s.watches rest;
        deleted_watches = [];
      })
  unfolding run_batch replay batch deleted
  run_batch-lost =
      ap (λ o. o >>= freed)
        (ap (λ o. o >>= λ (s', pending'). replay kernel os settings fuel batch s' pending' rest)
            begins
          ∙ ap (λ l. replay kernel os settings fuel batch deleted [] l) (sym (append-nil rest))
          ∙ replay-heard kernel os settings fuel batch deleted [] rest [] ok flat plain)
