-- ===== src/Smart/Refresh.antt =====
-- `_refresh_once` of hurricache/grpc/smart_client.py: the coordinators are asked in turn, until one
-- of them gives a topology that can be applied.
pub mod Failover
use hurricache_python_client.Base.{
  ℕ, zero, suc, ◌+◌, ◌%◌, String, Option, none, some, List, [], ◌∷◌, length,
}
use hurricache_python_client.Base.Int.{ℤ}
use hurricache_python_client.Errors.{Error, Result, ok, err, ◌>>=◌, value_error}
use hurricache_python_client.Topology.{RoutingInfo, Topology, merge_responses, topology_from}
use hurricache_python_client.Smart.{SmartClient, apply_topology}

-- The stream of `provideGlobalRoutingInfo`: the answers, and the error that ends it, if one does.
pub record Answers : Type 0 where
  pub responses : List RoutingInfo
  pub failure : Option Error

abbrev streamed : Option Error → RoutingInfo → Result Topology
streamed none merged = topology_from merged
streamed (some error) merged = err error

abbrev pub nothing_merged : RoutingInfo
nothing_merged = record { max_shards = 0; peers = [] }

-- `_merge_topology` of a stream
unfoldable pub merge_stream : Answers → Result Topology
unfolding merge_responses topology_from
merge_stream a = merge_responses nothing_merged a.responses >>= streamed a.failure

abbrev pub nth : List String → ℕ → Option String
nth [] i = none
nth (x ∷ xs) zero = some x
nth (x ∷ xs) (suc i) = nth xs i

-- `self._coordinators[self._coordinator_index % attempts]`
abbrev pub turn : List String → ℕ → Option String
turn coordinators index = nth coordinators (index % length coordinators)

-- `ask n address` is the answer of the coordinator at an address, as the n-th one asked.
module _ (int_of : String → Option ℤ) (ask : ℕ → String → Answers) where
  abbrev pub applied : Result Topology → SmartClient → Result (Unit {0}) × SmartClient
  applied (err error) s = (err error, s)
  applied (ok topology) s = apply_topology int_of topology s

  abbrev pub asked : Option String → SmartClient → Result (Unit {0}) × SmartClient
  asked none s = (err (value_error "tuple index out of range"), s)
  asked (some address) s =
      applied (merge_stream (ask s.coordinator_index address)) (record s {
        coordinator_index = s.coordinator_index + 1;
        coordinator_channel = some address;
      })

  -- one attempt
  unfoldable pub attempt_refresh : SmartClient → Result (Unit {0}) × SmartClient
  unfolding merge_stream apply_topology
  attempt_refresh s = asked (turn s.coordinators s.coordinator_index) s

  -- after a failed attempt, another one if any is left
  abbrev pub retried :
      (SmartClient → Result (Unit {0}) × SmartClient)
      → Result (Unit {0}) × SmartClient
      → Result (Unit {0}) × SmartClient
  retried again (ok u, s) = (ok u, s)
  retried again (err error, s) = again s

  -- the attempts, with the number of those that may follow the first
  unfoldable pub attempts : ℕ → SmartClient → Result (Unit {0}) × SmartClient
  unfolding attempt_refresh
  attempts zero s = attempt_refresh s
  attempts (suc more) s = retried (attempts more) (attempt_refresh s)

  -- `stop_after_attempt(len(self._coordinators))`
  abbrev pub numbered : ℕ → SmartClient → Result (Unit {0}) × SmartClient
  numbered zero s = attempt_refresh s
  numbered (suc more) s = attempts more s

  unfoldable pub refresh_once : SmartClient → Result (Unit {0}) × SmartClient
  unfolding attempts
  refresh_once s = numbered (length s.coordinators) s
