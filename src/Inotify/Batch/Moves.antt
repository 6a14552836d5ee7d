-- ===== src/Inotify/Batch/Moves.antt =====
-- The two ends of a move in one batch.
use efsw.Base.{
  ℕ, ◌<◌, ◌≡◌, refl, sym, ap, ◌∙◌, subst, ℤ, pos, true, false, List, [], ◌∷◌, ◌++◌, ◌==◌, ==_iff,
  if_true, if_false, none, some, All, length, ◌>>=◌,
}
use efsw.FileInfo.{Os}
use efsw.FileActionBatch.{moved}
use efsw.FileWatcher.{Settings}
use efsw.Inotify.{Kernel, State, object, find_id, has_bit, in_moved_from, in_moved_to}
use efsw.Inotify.Actions.{tell, notice, is_empty, set_old_file_name}
use efsw.Inotify.Actions.Renames.{get_or-set_same}
use efsw.Inotify.Actions.Outcome.{IsFlat, IsMovedTo, handle_action-moved}
use efsw.Inotify.Batch.{
  BatchEvent, PendingMove, find_watcher, destination_wd, find_destination, coalesce, find_pending,
  erase_pending, moved_from, moved_to, finish_move, pass_on, replay_event, replay, run_batch,
}
use efsw.Inotify.Batch.Plain.{all_heard, AreFlat, IsPlain, find_watcher-IsFlat, freed, replay-heard}

eq_refl : (n : ℕ) → (n == n) ≡ true
eq_refl n = (==_iff n n).1 refl

-- The last event is the destination of the move.
destination_wd-last :
    (events : List BatchEvent) (to : BatchEvent)
    → has_bit to.mask in_moved_to ≡ true
    → destination_wd (events ++ to ∷ []) to.cookie ≡ some to.wd
unfolding destination_wd
destination_wd-last [] to h = rw (h, eq_refl to.cookie) refl
destination_wd-last (event ∷ events) to h = rw (destination_wd-last events to h) refl

module _ {K : Type 0} (kernel : Kernel K) (os : Os) (settings : Settings) (fuel : ℕ) (s : State K)
    (r wd : ℕ) (from to : BatchEvent) (middle : List BatchEvent) (ok : s.init_ok ≡ true)
    (flat : AreFlat s.objects s.watches) (there : r < length s.objects)
    (found : find_id s.watches wd ≡ some r) (from_wd : from.wd ≡ pos wd) (to_wd : to.wd ≡ pos wd)
    (same_cookie : from.cookie ≡ to.cookie) (is_from : has_bit from.mask in_moved_from ≡ true)
    (is_to : IsMovedTo to.mask) (named : is_empty from.filename ≡ false)
    (plain : All IsPlain middle) where
  batch : List BatchEvent
  batch = from ∷ middle ++ to ∷ []

  found_wd : (w : ℤ) → w ≡ pos wd → find_watcher s.watches w ≡ some r
  unfolding find_watcher
  found_wd w e = ap (find_watcher s.watches) e ∙ found

  destination : destination_wd batch from.cookie ≡ some (pos wd)
  unfolding batch
  destination =
      ap (destination_wd (from ∷ middle ++ to ∷ [])) same_cookie
      ∙ destination_wd-last (from ∷ middle) to is_to.1.1.1
      ∙ ap some to_wd

  waiting : PendingMove
  waiting = record { cookie = from.cookie; watcher = r; filename = from.filename }

  coalesced : coalesce s r (find_destination s.watches (destination_wd batch from.cookie)) ≡ true
  unfolding coalesce find_destination
  coalesced =
      ap (λ o. coalesce s r (find_destination s.watches o)) destination
      ∙ ap (coalesce s r) (found_wd (pos wd) refl)
      ∙ rw (eq_refl r) refl

  waits : moved_from kernel os settings fuel batch s [] r from ≡ some (s, waiting ∷ [])
  unfolding moved_from waiting
  waits =
      if_true (coalesce s r (find_destination s.watches (destination_wd batch from.cookie))) _ _
        coalesced

  begins : replay_event kernel os settings fuel batch s [] from ≡ some (s, waiting ∷ [])
  unfolding replay_event moved_from waiting
  begins =
      if_true (has_bit from.mask in_moved_from) _ _ is_from
      ∙ ap
          (λ o. elim o [
            | none ↦ some (s, [])
            | some q ↦ moved_from kernel os settings fuel batch s [] q from
          ])
          (found_wd from.wd from_wd)
      ∙ waits

  s1 : State K
  s1 = tell s (all_heard s.objects s.watches middle)

  s2 : State K
  s2 = set_old_file_name s1 r from.filename

  named_object : object s2 r ≡ record (object s r) { old_file_name = from.filename }
  unfolding s2 s1
  named_object = get_or-set_same s.objects r _ there

  IsFlat-r : IsFlat (object s2 r)
  IsFlat-r =
      subst IsFlat (sym named_object)
        (find_watcher-IsFlat s.objects s.watches from.wd r flat (found_wd from.wd from_wd))

  s3 : State K
  s3 =
      set_old_file_name
        (tell s2 (notice (object s2 r) to.filename moved (object s2 r).old_file_name ∷ [])) r []

  moves : finish_move kernel os settings fuel s1 waiting (some r) to ≡ some s3
  unfolding finish_move waiting s3 s2 s1
  moves =
      if_true (r == r) _ _ (eq_refl r)
      ∙ handle_action-moved kernel os settings fuel s2 r IsFlat-r to.filename to.mask ok is_to
          (ap (λ w. is_empty w.old_file_name) named_object ∙ named)

  pending_found : find_pending (waiting ∷ []) to.cookie ≡ some waiting
  unfolding find_pending waiting
  pending_found =
      if_true (from.cookie == to.cookie) _ _ ((==_iff from.cookie to.cookie).1 same_cookie)

  arrives :
      moved_to kernel os settings fuel s1 (waiting ∷ []) (some r) to
      ≡ some (s3, erase_pending (waiting ∷ []) to.cookie)
  unfolding moved_to
  arrives =
      ap
        (λ o. elim o [
          | none ↦ do s' ← pass_on kernel os settings fuel s1 (some r) to; some (s', waiting ∷ [])
          | some source ↦ do
            s' ← finish_move kernel os settings fuel s1 source (some r) to
            some (s', erase_pending (waiting ∷ []) to.cookie)
        ])
        pending_found
      ∙ ap (λ o. o >>= λ s'. some (s', erase_pending (waiting ∷ []) to.cookie)) moves

  ends :
      replay_event kernel os settings fuel batch s1 (waiting ∷ []) to
      ≡ some (s3, erase_pending (waiting ∷ []) to.cookie)
  unfolding replay_event s1
  ends =
      if_false (has_bit to.mask in_moved_from) _ _ is_to.1.1.0
      ∙ if_true (has_bit to.mask in_moved_to)
          (moved_to kernel os settings fuel s1 (waiting ∷ []) (find_watcher s.watches to.wd) to) _
          is_to.1.1.1
      ∙ ap (λ o. moved_to kernel os settings fuel s1 (waiting ∷ []) o to) (found_wd to.wd to_wd)
      ∙ arrives

  handled : run_batch kernel os settings fuel s batch ≡ some (record s3 { deleted_watches = [] })
  unfolding run_batch replay batch s1
  handled =
      ap (λ o. o >>= freed)
        (ap
            (λ o. o >>= λ (s', pending').
              replay kernel os settings fuel batch s' pending' (middle ++ to ∷ []))
            begins
          ∙ replay-heard kernel os settings fuel batch s (waiting ∷ []) middle (to ∷ []) ok flat
              plain
          ∙ ap (λ o. o >>= λ (s', pending'). replay kernel os settings fuel batch s' pending' [])
              ends)

  -- For a back end that runs (mInitOK is set) and a move inside one directory whose watch has a
  -- listener and is not recursive, where the batch begins with its source, whose name is not empty,
  -- ends with its destination of the same cookie, has no other move between them, and every watch
  -- has a listener and is not recursive: the batch is handled on any fuel, and the listener hears of
  -- the events between in their order and then, where the destination stands, of one Moved from the
  -- old name to the new one, and of no deletion or creation for the two names.
  pub run_batch-moved :
      (t : State K) × (run_batch kernel os settings fuel s (from ∷ middle ++ to ∷ []) ≡ some t)
      × (t.notices
          ≡ s.notices
            ++ all_heard s.objects s.watches middle
            ++ notice (object s r) to.filename moved from.filename ∷ [])
  unfolding batch s3 s2 s1
  run_batch-moved = (
    record s3 { deleted_watches = [] },
    handled,
    ap
        (λ w.
          s.notices
          ++ all_heard s.objects s.watches middle
          ++ notice w to.filename moved w.old_file_name ∷ [])
        named_object,
  )
