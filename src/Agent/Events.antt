-- ===== src/Agent/Events.antt =====
-- What Agent::onEvent, onMissed and the UNWATCH message do to the pending events.
use efsw.Base.{
  ℕ, ℤ, ◌==◌, ==_iff, ◌≢◌, ◌≡◌, refl, ap, ◌∙◌, subst, inl, inr, true, false, List, [], ◌∷◌, ◌++◌,
  Text, text_eq, text_eq_refl, length, take, take-length_append, drop-length_append, length-append,
  if◌then◌else◌, none, some, Option-cases, Bool-cases, arith,
}
use efsw.FileSystem.{os_slash}
use efsw.FileActionBatch.{Action}
use efsw.Agent.{
  Agent, Service, Watch, WatchEventRecord, nat_eq, efsw_eq, lookup, erase_events, blank_watch,
  event_at, missed_at, on_event, on_missed, relative, begins_with, normalize_slashes, trim,
}
use efsw.Agent.Table.{find, put, erase, find-erase_same}
use efsw.Agent.Handle.{send, remove_watch, unwatch}

-- The pending events of a watch.
abbrev pub events_of : List (ℕ × List WatchEventRecord) → ℕ → List WatchEventRecord
events_of [] id = []
events_of ((k, rs) ∷ events) id = if k == id then rs else events_of events id

erase_events-same :
    (events : List (ℕ × List WatchEventRecord)) (id : ℕ)
    → events_of (erase_events events id) id ≡ []
unfolding erase_events
erase_events-same [] id = refl
erase_events-same ((k, rs) ∷ events) id = ground (arith, erase_events-same events id)

erase_events-other :
    (events : List (ℕ × List WatchEventRecord)) (id k : ℕ)
    → (id == k) ≡ false
    → events_of (erase_events events id) k ≡ events_of events k
unfolding erase_events
erase_events-other [] id k h = refl
erase_events-other ((l, rs) ∷ events) id k h = ground (arith, erase_events-other events id k h)

lookup-none :
    {W : Type 0} (s : Agent W) (key : ℕ) (efsw_id : ℤ)
    → find efsw_eq s.by_efsw (key, efsw_id) ≡ none
    → lookup s key efsw_id ≡ (none, s)
unfolding lookup
lookup-none s key efsw_id e = rw (lookup, e) refl

record Known {W : Type 0} (s : Agent W) (key : ℕ) (efsw_id : ℤ) (watch_id : ℕ) : Type 0 where
  entry : Watch
  state : Agent W
  found : lookup s key efsw_id ≡ (some (watch_id, entry), state)
  same_events : state.pending_events ≡ s.pending_events
  same_missed : state.pending_missed ≡ s.pending_missed

lookup-Known :
    {W : Type 0} (s : Agent W) (key : ℕ) (efsw_id : ℤ) (watch_id : ℕ)
    → find efsw_eq s.by_efsw (key, efsw_id) ≡ some watch_id
    → Known s key efsw_id watch_id
unfolding lookup put
lookup-Known s key efsw_id watch_id e = elim (Option-cases (find nat_eq s.watches watch_id)) [
  | inl n ↦ record {
    entry = blank_watch;
    state = record s { watches = put nat_eq s.watches watch_id blank_watch };
    found = rw (lookup, e, n) refl;
    same_events = refl;
    same_missed = refl;
  }
  | inr (w, n) ↦ record {
    entry = w;
    state = s;
    found = rw (lookup, e, n) refl;
    same_events = refl;
    same_missed = refl;
  }
]

-- A missed notification of an efsw watch that is registered: no event of the watch stays pending,
-- those of the other watches stay as they were, and the watch is queued as missed.
on_missed_lem :
    {W : Type 0} (s : Agent W) (key : ℕ) (efsw_id : ℤ) (watch_id : ℕ) (k : ℕ)
    → find efsw_eq s.by_efsw (key, efsw_id) ≡ some watch_id
    → (events_of (on_missed s key efsw_id).pending_events k
        ≡ (if watch_id == k then [] else events_of s.pending_events k))
      × ((on_missed s key efsw_id).pending_missed ≡ s.pending_missed ++ watch_id ∷ [])
unfolding on_missed
on_missed_lem s key efsw_id watch_id k e =
    let known = lookup-Known s key efsw_id watch_id e in
    let seen = ap missed_at known.found in
    (
      ap (λ t. events_of t.pending_events k) seen
          ∙ ap (λ m. events_of (erase_events m watch_id) k) known.same_events
          ∙ dropped,
      ap (λ t. t.pending_missed) seen ∙ ap (λ m. m ++ watch_id ∷ []) known.same_missed,
    )
  where
    dropped :
        events_of (erase_events s.pending_events watch_id) k
        ≡ (if watch_id == k then [] else events_of s.pending_events k)
    dropped = elim (Bool-cases (watch_id == k)) [
      | inl h ↦ rw h (
          subst (λ i. events_of (erase_events s.pending_events watch_id) i ≡ [])
            ((==_iff watch_id k).0 h) (erase_events-same s.pending_events watch_id))
      | inr h ↦ rw h (erase_events-other s.pending_events watch_id k h)
    ]

remove_watch-by_efsw :
    {W : Type 0} (service : Service W) (s : Agent W) (w : Watch)
    → ((remove_watch service s w).by_efsw ≡ s.by_efsw)
      × ((remove_watch service s w).pending_events ≡ s.pending_events)
unfolding remove_watch
remove_watch-by_efsw service s w = elim (Option-cases (find nat_eq s.watchers w.key)) [
  | inl e ↦ rw (remove_watch, e) (refl, refl)
  | inr (x, e) ↦ rw (remove_watch, e) (refl, refl)
]

on_event_unknown :
    {W : Type 0} (s : Agent W) (key : ℕ) (efsw_id : ℤ) (dir filename : Text) (action : Action)
    (old_filename : Text)
    → find efsw_eq s.by_efsw (key, efsw_id) ≡ none
    → on_event s key efsw_id dir filename action old_filename ≡ s
unfolding on_event
on_event_unknown s key efsw_id dir filename action old_filename e =
    ap (λ l. event_at l dir filename action old_filename) (lookup-none s key efsw_id e)

-- After UNWATCH of a registered watch, none of its events is pending, and an event that its efsw
-- watch still delivers changes nothing.
pub unwatch-on_event :
    {W : Type 0} (service : Service W) (s : Agent W) (id : ℕ) (w : Watch) (dir filename : Text)
    (action : Action) (old_filename : Text)
    → find nat_eq s.watches id ≡ some w
    → (on_event (unwatch service s id) w.key w.efsw_id dir filename action old_filename
        ≡ unwatch service s id)
      × (events_of (unwatch service s id).pending_events id ≡ [])
unfolding unwatch send
unwatch-on_event {W} service s id w dir filename action old_filename e = (
  on_event_unknown (unwatch service s id) w.key w.efsw_id dir filename action old_filename gone,
  rw e (erase_events-same (remove_watch service s' w).pending_events id),
)
  where
    s' : Agent W
    s' = record s {
      by_efsw = erase efsw_eq s.by_efsw (w.key, w.efsw_id);
      watches = erase nat_eq s.watches id;
    }

    gone : find efsw_eq (unwatch service s id).by_efsw (w.key, w.efsw_id) ≡ none
    gone = rw e (
        ap (λ d. find efsw_eq d (w.key, w.efsw_id)) (remove_watch-by_efsw service s' w).0
        ∙ find-erase_same efsw_eq s.by_efsw (w.key, w.efsw_id))

trim-snoc : (name : Text) (b : ℕ) → b ≢ os_slash → trim (name ++ b ∷ []) ≡ name ++ b ∷ []
unfolding trim
trim-snoc [] b h = ground arith
trim-snoc (c ∷ name) b h = ground (arith, trim-snoc name b h, length-append name (b ∷ []))

-- The path of an event below the root of its watch, for a watch without a resolved root, is what
-- follows the root, if that does not end in a separator.
relative-append :
    (w : Watch) (name : Text) (b : ℕ)
    → w.real_root ≡ []
    → b ≢ os_slash
    → relative w (w.root ++ (name ++ b ∷ [])) ≡ name ++ b ∷ []
unfolding relative begins_with normalize_slashes
relative-append w name b e h =
    let below = name ++ b ∷ [] in
    let begins : text_eq (take (length w.root) (w.root ++ below)) w.root ≡ true =
      rw (take-length_append w.root below) (text_eq_refl w.root) in
    rw (e, begins, drop-length_append w.root below) (trim-snoc name b h)
