-- ===== src/Inotify/Batch/Plain.antt =====
-- Batches without moves.
use efsw.Base.{
  ℕ, ◌≡◌, refl, sym, ap, ◌∙◌, subst, inl, inr, ℤ, pos, negsuc, true, false, List, [], ◌∷◌, ◌++◌,
  append_assoc, append-nil, ◌==◌, if◌then◌else◌, if_false, Option, none, some, All, get_or,
  Bool-cases, arith, ◌>>=◌,
}
use efsw.FileInfo.{Os}
use efsw.FileWatcher.{Settings}
use efsw.Inotify.{
  WatcherInotify, new_watcher, Kernel, State, Notice, find_id, has_bit, in_moved_from, in_moved_to,
}
use efsw.Inotify.Actions.{tell}
use efsw.Inotify.Actions.Outcome.{told, IsFlat, handle_action-told}
use efsw.Inotify.Batch.{
  BatchEvent, PendingMove, find_watcher, pass_on, replay_event, replay, run_batch,
}

-- The callbacks for an event that is no part of a move; an event without a watch has none.
unfoldable pub heard : List WatcherInotify → List (ℕ × ℕ) → BatchEvent → List Notice
heard objects watches event = elim (find_watcher watches event.wd) [
  | none ↦ []
  | some r ↦ told (get_or objects r new_watcher) event.filename event.mask
]

unfoldable pub all_heard : List WatcherInotify → List (ℕ × ℕ) → List BatchEvent → List Notice
unfolding heard
all_heard objects watches [] = []
all_heard objects watches (event ∷ events) =
    heard objects watches event ++ all_heard objects watches events

-- Neither the source nor the destination of a move.
abbrev pub IsPlain : BatchEvent → Type 0
IsPlain event =
    (has_bit event.mask in_moved_from ≡ false) × (has_bit event.mask in_moved_to ≡ false)

-- Every watch in the table has a listener and is not recursive.
abbrev pub AreFlat : List WatcherInotify → List (ℕ × ℕ) → Type 0
AreFlat objects [] = Unit
AreFlat objects ((wd, r) ∷ m) = IsFlat (get_or objects r new_watcher) × AreFlat objects m

find_id-IsFlat :
    (objects : List WatcherInotify) (m : List (ℕ × ℕ)) (wd r : ℕ)
    → AreFlat objects m
    → find_id m wd ≡ some r
    → IsFlat (get_or objects r new_watcher)
unfolding find_id
find_id-IsFlat objects [] wd r h e = cc
find_id-IsFlat objects ((k, q) ∷ m) wd r h e =
    let e' : (if k == wd then some q else find_id m wd) ≡ some r = e in
    elim (Bool-cases (k == wd)) [
      | inl y ↦
          let same : q ≡ r = ground (arith, y, e') in
          subst (λ p. IsFlat (get_or objects p new_watcher)) same h.0
      | inr n ↦
          let rest : find_id m wd ≡ some r = ground (arith, n, e') in
          find_id-IsFlat objects m wd r h.1 rest
    ]

pub find_watcher-IsFlat :
    (objects : List WatcherInotify) (watches : List (ℕ × ℕ)) (wd : ℤ) (r : ℕ)
    → AreFlat objects watches
    → find_watcher watches wd ≡ some r
    → IsFlat (get_or objects r new_watcher)
unfolding find_watcher
find_watcher-IsFlat objects watches (pos wd) r h e = find_id-IsFlat objects watches wd r h e
find_watcher-IsFlat objects watches (negsuc n) r h e = cc

module _ {K : Type 0} (kernel : Kernel K) (os : Os) (settings : Settings) (fuel : ℕ)
    (batch : List BatchEvent) where
  pass_on-heard :
      (s : State K) (event : BatchEvent)
      → s.init_ok ≡ true
      → AreFlat s.objects s.watches
      → IsPlain event
      → pass_on kernel os settings fuel s (find_watcher s.watches event.wd) event
        ≡ some (tell s (heard s.objects s.watches event))
  unfolding pass_on heard
  pass_on-heard s event ok flat plain = go (find_watcher s.watches event.wd) refl
    where
      go :
          (o : Option ℕ)
          → find_watcher s.watches event.wd ≡ o
          → pass_on kernel os settings fuel s o event
            ≡ some (
                tell s (elim o [
                  | none ↦ []
                  | some r ↦ told (get_or s.objects r new_watcher) event.filename event.mask
                ]))
      go none e = ap (λ ns. some (record s { notices = ns })) (sym (append-nil s.notices))
      go (some r) e =
          handle_action-told kernel os settings fuel s r
            (find_watcher-IsFlat s.objects s.watches event.wd r flat e) event.filename event.mask ok
            plain.0 plain.1

  pub replay_event-heard :
      (s : State K) (pending : List PendingMove) (event : BatchEvent)
      → s.init_ok ≡ true
      → AreFlat s.objects s.watches
      → IsPlain event
      → replay_event kernel os settings fuel batch s pending event
        ≡ some (tell s (heard s.objects s.watches event), pending)
  unfolding replay_event
  replay_event-heard s pending event ok flat plain =
      if_false (has_bit event.mask in_moved_from) _ _ plain.0
      ∙ if_false (has_bit event.mask in_moved_to) _ _ plain.1
      ∙ ap (λ o. o >>= λ s'. some (s', pending)) (pass_on-heard s event ok flat plain)

  -- A part of a batch without moves: what it tells the listener, and what is left.
  pub replay-heard :
      (s : State K) (pending : List PendingMove) (events rest : List BatchEvent)
      → s.init_ok ≡ true
      → AreFlat s.objects s.watches
      → All IsPlain events
      → replay kernel os settings fuel batch s pending (events ++ rest)
        ≡ replay kernel os settings fuel batch
            (tell s (all_heard s.objects s.watches events))
            pending
            rest
  unfolding replay all_heard
  replay-heard s pending [] rest ok flat plain =
      ap (λ ns. replay kernel os settings fuel batch (record s { notices = ns }) pending rest)
        (sym (append-nil s.notices))
  replay-heard s pending (event ∷ events) rest ok flat plain =
      let told_one : State K = tell s (heard s.objects s.watches event) in
      ap
        (λ o.
          o >>= λ (s', pending'). replay kernel os settings fuel batch s' pending' (events ++ rest))
        (replay_event-heard s pending event ok flat plain.0)
      ∙ replay-heard told_one pending events rest ok flat plain.1
      ∙ ap (λ ns. replay kernel os settings fuel batch (record s { notices = ns }) pending rest)
          (append_assoc s.notices (heard s.objects s.watches event)
            (all_heard s.objects s.watches events))

-- The end of the round.
abbrev pub freed : {K : Type 0} → State K → Option (State K)
freed s = some (record s { deleted_watches = [] })

-- Where the back end runs (mInitOK is set): a batch without moves, for watches that have a listener and are not recursive, is handled on any
-- fuel: the listener hears of each event that has a watch, once and in the order of the batch, no
-- table changes, and the watches that were removed are freed. An event without a watch, as that of
-- a queue overflow, whose descriptor is -1, is dropped.
pub run_batch-heard :
    {K : Type 0} (kernel : Kernel K) (os : Os) (settings : Settings) (fuel : ℕ) (s : State K)
    (events : List BatchEvent)
    → s.init_ok ≡ true
    → AreFlat s.objects s.watches
    → All IsPlain events
    → run_batch kernel os settings fuel s events
      ≡ some (record s {
        notices = s.notices ++ all_heard s.objects s.watches events;
        deleted_watches = [];
      })
unfolding run_batch replay
run_batch-heard kernel os settings fuel s events ok flat plain =
    ap (λ o. o >>= freed)
      (ap (λ l. replay kernel os settings fuel events s [] l) (sym (append-nil events))
        ∙ replay-heard kernel os settings fuel events s [] events [] ok flat plain)
