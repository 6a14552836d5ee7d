-- ===== src/WatcherGeneric/Rounds.antt =====
-- What a round of a watch reports.
use efsw.Base.{
  ◌≡◌, refl, sym, ap, ◌∙◌, Bool, true, false, List, [], ◌∷◌, ◌++◌, append_assoc, append-nil,
  if◌then◌else◌,
}
use efsw.FileInfo.{Os}
use efsw.FileActionBatch.{Event, Call, plain, plain_all, dispatch}
use efsw.WatcherGeneric.{Collecting, handle_action, handle_actions, watch_round}

abbrev at : Bool → List Event → List Call → Collecting
at collect_actions batch calls = record {
  collect_actions = collect_actions;
  batch = batch;
  calls = calls;
}

handle_actions-collect :
    (batch : List Event) (calls : List Call) (events : List Event)
    → handle_actions (at true batch calls) events ≡ at true (batch ++ events) calls
unfolding handle_actions handle_action
handle_actions-collect batch calls [] = ap (λ b. at true b calls) (sym (append-nil batch))
handle_actions-collect batch calls (event ∷ events) =
    handle_actions-collect (batch ++ event ∷ []) calls events
    ∙ ap (λ b. at true b calls) (append_assoc batch (event ∷ []) events)

handle_actions-pass :
    (batch : List Event) (calls : List Call) (events : List Event)
    → handle_actions (at false batch calls) events ≡ at false batch (calls ++ plain_all events)
unfolding handle_actions handle_action
handle_actions-pass batch calls [] = ap (at false batch) (sym (append-nil calls))
handle_actions-pass batch calls (event ∷ events) =
    handle_actions-pass batch (calls ++ plain event ∷ []) events
    ∙ ap (at false batch) (append_assoc calls (plain event ∷ []) (plain_all events))

-- A round reports what its scan finds after the calls before it: a watch that is not recursive or
-- does not report moves passes every event on as it is, in order, and a recursive one that reports
-- moves passes on what the batch makes of this round's events, whatever an earlier round left in it.
pub watch_round_lem :
    (os : Os) (recursive report_moves : Bool) (s : Collecting) (events : List Event)
    → (watch_round os recursive report_moves s events).calls
      ≡ s.calls
        ++ (if recursive
            then if report_moves then (dispatch os true true events).0 else plain_all events
            else plain_all events)
unfolding watch_round dispatch
watch_round_lem os false report_moves s events =
    rw (handle_actions-pass s.batch s.calls events) refl
watch_round_lem os true false s events = rw (handle_actions-collect [] s.calls events) refl
watch_round_lem os true true s events = rw (handle_actions-collect [] s.calls events) refl
