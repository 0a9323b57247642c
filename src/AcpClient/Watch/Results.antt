-- ===== src/AcpClient/Watch/Results.antt =====
-- The types of the watch, and what it has at one point.
use ratchet_cli.Base.{
  ℕ, String, Bool, true, false, ◌&&◌, List, [], ◌∷◌, ltb, leb, eqb, if◌then◌else◌,
}
use ratchet_cli.AcpClient.Store.{World}
use ratchet_cli.AcpClient.Drain.Calls.{
  Turn, DrainError, release_error, DrainResult, Round, Admission,
}

-- acquireDrainOwnerLease, with the release of the lease at the end
pub data Lease : Type 0 where
  acquired : Bool → Lease
  busy lease_failed : Lease

abbrev pub release_errors : Bool → List DrainError
release_errors true = []
release_errors false = release_error ∷ []

-- A watch fails with an error of the drain, with ErrCancelRequested or with one of the context.
pub data WatchError : Type 0 where
  drain_error : DrainError → WatchError
  cancel_requested context_error : WatchError

abbrev pub watch_errors : List DrainError → List WatchError
watch_errors [] = []
watch_errors (e ∷ es) = drain_error e ∷ watch_errors es

pub record WatchCycle : Type 0 where
  pub session_id : String
  pub cycle : ℕ
  pub pending_before : ℕ
  pub idle : Bool
  pub drained : DrainResult

pub record WatchResult : Type 0 where
  pub session_id : String
  pub acp_session_id : String
  pub cycles : ℕ
  pub processed : ℕ
  pub completed : ℕ
  pub failed : ℕ
  pub canceled : ℕ
  pub remaining : ℕ

pub record Cycle : Type 0 where
  pub context_done : Bool
  pub check : Turn
  pub recover : Turn
  pub count : Turn
  pub work : Turn
  pub begin : Turn
  pub rounds : List Round
  pub last : Turn
  pub closes : Bool
  pub admission : Admission
  pub final : Turn
  pub sleeps : Bool

-- what WatchQueue has at one point; `seen` are the calls of `onCycle`
pub record Watch : Type 0 where
  pub world : World
  pub result : WatchResult
  pub seen : List WatchCycle

pub data After : Type 0 where
  watches_on : Watch → After
  ends : Watch → List WatchError → After
  out_of_rounds : After

-- reachedMaxWatchCycles; 0 stands for every maximum that is not positive
unfoldable pub reached_max_watch_cycles : ℕ → ℕ → Bool
reached_max_watch_cycles cycles max = ltb 0 max && leb max cycles

-- a zero `MaxPerCycle` stands for every number that is not positive
abbrev pub per_cycle : ℕ → ℕ
per_cycle n = if eqb n 0 then 1 else n

abbrev pub fresh_watch : String → World → Watch
fresh_watch id w = record {
  world = w;
  result = record {
    session_id = id;
    acp_session_id = "";
    cycles = 0;
    processed = 0;
    completed = 0;
    failed = 0;
    canceled = 0;
    remaining = 0;
  };
  seen = [];
}

-- the result of a WatchQueue that ends before its loop
abbrev pub unwatched : World → List WatchError → Watch × List WatchError
unwatched w es = (fresh_watch "" w, es)
