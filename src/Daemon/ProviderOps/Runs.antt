-- ===== src/Daemon/ProviderOps/Runs.antt =====
-- The calls and steps of the provider operations as actions, in the order in which they take the locks.
use ratchet_cli.Base.{ℕ, String, Bool, List, [], ◌∷◌, ◌≡◌, false}
use ratchet_cli.Daemon.ProviderOps.Tables.{SaveRequest, has}
use ratchet_cli.Daemon.ProviderOps.Journal.{Manager, Query, get}
use ratchet_cli.Daemon.ProviderOps.Flights.{
  Formats, CommitEnv, commit, FlightEnv, step_flight, recover_flight,
}
use ratchet_cli.Daemon.ProviderOps.Cleanup.{
  CleanEnv, dispatch_cleanup, step_cleanup, remove_provider, set_default_provider,
  update_provider_model,
}
use ratchet_cli.Daemon.ProviderOps.Startup.{StartEnv, stop, boot}

pub data Action : Type 0 where
  commits : CommitEnv → SaveRequest → Action
  flies panics : FlightEnv → String → Action
  queries : Query → String → Action
  dispatches : List String → Action
  cleans : CleanEnv → String → Action
  removes : Bool → ℕ → String → Action
  sets_default : Bool → String → Action
  sets_model : Bool → String → String → Action
  stops : Action
  boots : StartEnv → Action

module _ (formats : Formats) where
  unfoldable pub perform : Action → Manager → Manager
  unfolding commit step_flight recover_flight get dispatch_cleanup step_cleanup remove_provider
      set_default_provider update_provider_model boot
  perform (commits env req) m = (commit formats env req m).0
  perform (flies env alias) m = step_flight env alias m
  perform (panics env alias) m = recover_flight env alias m
  perform (queries q id) m = (get q id m).0
  perform (dispatches names) m = dispatch_cleanup names m
  perform (cleans env name) m = step_cleanup env name m
  perform (removes ok now alias) m = remove_provider ok now alias m
  perform (sets_default ok alias) m = set_default_provider ok alias m
  perform (sets_model ok alias model) m = (update_provider_model ok alias model m).0
  perform stops m = stop m
  perform (boots env) m = (boot env m).0

  unfoldable pub run : List Action → Manager → Manager
  unfolding perform
  run [] m = m
  run (a ∷ more) m = run more (perform a m)

  -- What a Commit relies on: the name that it draws, with a new UUID in it, is not one that a cleanup is
  -- at work on.
  abbrev pub Draws : Action → Manager → Type 0
  Draws (commits env req) m = has env.drawn m.cleaning ≡ false
  Draws _ m = Unit

  abbrev pub AllDraws : List Action → Manager → Type 0
  AllDraws [] m = Unit
  AllDraws (a ∷ more) m = Draws a m × AllDraws more (perform a m)
