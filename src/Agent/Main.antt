-- ===== src/Agent/Main.antt =====
-- main (src/agent/efsw-agent.cpp): the command line. `atoi` is a parameter.
use efsw.Base.{
  ℕ, Bool, true, false, List, [], ◌∷◌, Text, text_eq, codes, if◌then◌else◌, none, some, Option,
}
use efsw.Agent.{Agent, Service}
use efsw.Agent.Handle.{run}

pub data Command : Type 0 where
  print_version : Command
  start : Bool → ℕ → Command

module _ (atoi : Text → ℕ) where
  -- The loop over the arguments, with `stdio` and `pollingMs` so far.
  unfoldable pub parse_args : Bool → ℕ → List Text → Command
  parse_args stdio polling_ms [] = start stdio polling_ms
  parse_args stdio polling_ms (arg ∷ []) =
      if text_eq arg (codes "--stdio")
      then start true polling_ms
      else if text_eq arg (codes "--version")
      then print_version
      else start stdio polling_ms
  parse_args stdio polling_ms (arg ∷ value ∷ args) =
      let with_stdio = parse_args true polling_ms (value ∷ args) in
      let with_value = parse_args stdio (atoi value) args in
      let ignored = parse_args stdio polling_ms (value ∷ args) in
      if text_eq arg (codes "--stdio")
      then with_stdio
      else if text_eq arg (codes "--version")
      then print_version
      else if text_eq arg (codes "--polling-ms")
      then with_value
      else ignored

  -- A new agent.
  abbrev pub new_agent : {W : Type 0} → ℕ → Agent W
  new_agent polling_ms = record {
    polling_ms = polling_ms;
    watchers = [];
    watches = [];
    by_efsw = [];
    outgoing = [];
    pending_events = [];
    pending_missed = [];
  }

  -- The exit code, with the agent where one has run.
  unfoldable pub main :
      {W : Type 0} → Service W → List Text → List Text → Option (ℕ × Option (Agent W))
  unfolding parse_args run
  main service args input = elim (parse_args false 1000 args) [
    | print_version ↦ some (0, none)
    | start false polling_ms ↦ some (1, none)
    | start true polling_ms ↦ elim (run service (new_agent polling_ms) input) [
      | none ↦ none
      | some (code, agent) ↦ some (code, some agent)
    ]
  ]
