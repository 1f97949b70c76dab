-- ===== src/AsyncSmart.antt =====
-- The asynchronous smart client of hurricache/grpc/smart_client.py. Its state is that of the
-- synchronous one; what runs without suspension between two `await`s is a function on it. Closing
-- clients is where it suspends: `await client.close()` starts to close a client and may then give
-- way to other tasks, with the clients that follow still to be closed.
pub mod Whole
pub mod Steps
use hurricache_python_client.Base.{
  ℕ, zero, suc, ◌+◌, ◌-◌, String, Bool, true, false, Option, none, some, List, [], ◌∷◌, ◌++◌, ◌==◌,
  if◌then◌else◌, length,
}
use hurricache_python_client.Base.Int.{ℤ}
use hurricache_python_client.Errors.{Error, RpcError, Result, ok, err, value_error, runtime_error}
use hurricache_python_client.Topology.{Topology}
use hurricache_python_client.Routing.{shard, attempt}
use hurricache_python_client.Smart.{
  SmartClient, Snapshot, Call, retire, connect_all, enter, begin_close, targets_of, endpoints_of,
  objects,
}
use hurricache_python_client.Smart.Refresh.{Answers, merge_stream, turn}

-- `retired, self._retired = self._retired, []`, where no operation is active
unfoldable pub detach : SmartClient → List ℕ × SmartClient
detach s = if s.active == 0 then (s.retired, record s { retired = [] }) else ([], s)

-- One round of `for client in retired: await client.close()`: none where the loop is at its end,
-- else the clients that follow the one whose close was called.
unfoldable pub proceed : List ℕ → SmartClient → Option (List ℕ) × SmartClient
proceed [] s = (none, s)
proceed (client ∷ rest) s = (some rest, record s { shut = client ∷ s.shut })

-- `[response async for response in call]`, and then `_merge_topology`
unfoldable pub collect_topology : Answers → Result Topology
unfolding merge_stream
collect_topology answers = elim answers.failure [
  | none ↦ merge_stream answers
  | some error ↦ err error
]

module _ (int_of : String → Option ℤ) where
  abbrev pub settled : Topology → Result (Unit {0}) × SmartClient → Result (List ℕ) × SmartClient
  settled topology (err error, s) = (err error, s)
  settled topology (ok _, s) =
      let (retired, s') = detach (record s { topology = topology; ready = true }) in
      (ok retired, s')

  -- `_apply_topology` of a client that is not closed, up to its first `await`
  unfoldable pub install : Topology → SmartClient → Result (List ℕ) × SmartClient
  unfolding connect_all retire detach
  install topology s =
      settled topology (connect_all int_of topology.targets (retire topology.targets s))

  unfoldable pub apply_topology : Topology → SmartClient → Result (List ℕ) × SmartClient
  unfolding install
  apply_topology topology s = if s.closed then (ok [], s) else install topology s

  -- `ask n address` is the answer of the coordinator at an address, as the n-th one asked.
  module _ (ask : ℕ → String → Answers) where
    abbrev pub applied : Result Topology → SmartClient → Result (List ℕ) × SmartClient
    applied (err error) s = (err error, s)
    applied (ok topology) s = apply_topology topology s

    abbrev pub asked : Option String → SmartClient → Result (List ℕ) × SmartClient
    asked none s = (err (value_error "tuple index out of range"), s)
    asked (some address) s =
        applied (collect_topology (ask s.coordinator_index address)) (record s {
          coordinator_index = s.coordinator_index + 1;
          coordinator_channel = some address;
        })

    -- one attempt
    unfoldable pub attempt_refresh : SmartClient → Result (List ℕ) × SmartClient
    unfolding collect_topology apply_topology
    attempt_refresh s = asked (turn s.coordinators s.coordinator_index) s

    -- after a failed attempt, another one if any is left
    abbrev pub retried :
        (SmartClient → Result (List ℕ) × SmartClient)
        → Result (List ℕ) × SmartClient
        → Result (List ℕ) × SmartClient
    retried again (ok retired, s) = (ok retired, s)
    retried again (err error, s) = again s

    -- the attempts, with the number of those that may follow the first
    unfoldable pub attempts : ℕ → SmartClient → Result (List ℕ) × SmartClient
    unfolding attempt_refresh
    attempts zero s = attempt_refresh s
    attempts (suc more) s = retried (attempts more) (attempt_refresh s)

    -- `stop_after_attempt(len(self._coordinators))`
    abbrev pub numbered : ℕ → SmartClient → Result (List ℕ) × SmartClient
    numbered zero s = attempt_refresh s
    numbered (suc more) s = attempts more s

    -- `_refresh_once`; the list has the clients that are still to be closed
    unfoldable pub refresh_once : SmartClient → Result (List ℕ) × SmartClient
    unfolding attempts
    refresh_once s = numbered (length s.coordinators) s

-- the `finally` of `_execute`, up to its first `await`
unfoldable pub leave : SmartClient → List ℕ × SmartClient
unfolding detach
leave s = detach (record s { active = s.active - 1 })

-- `_execute` once the client is ready. `run` awaits the operation on the client of a target; what
-- other tasks do meanwhile to the smart client is part of it. The list has the clients that are
-- still to be closed.
module _ {W A : Type 0}
    (run : Snapshot → String → SmartClient × W → Result A × (SmartClient × W)) where
  abbrev pub left : Result A × (SmartClient × W) → Result A × (List ℕ × (SmartClient × W))
  left (r, (s, w)) = let (retired, s') = leave s in (r, (retired, (s', w)))

  unfoldable pub execute : Call → SmartClient × W → Result A × (List ℕ × (SmartClient × W))
  unfolding enter shard endpoints_of attempt leave
  execute c (s, w) =
      let (snapshot, s') = enter s in
      let (index, counter) = shard s'.topology.max_shards s'.random_shard c.hint in
      left (
        attempt (run snapshot) (targets_of snapshot.clients) (endpoints_of c snapshot index)
          (record s' { random_shard = counter }, w))

-- the clients that `close` closes, after the refreshing task and the coordinator's channel
unfoldable pub to_shut : SmartClient → List ℕ
to_shut s = objects s.clients ++ s.retired

-- the end of `close`
unfoldable pub clear : SmartClient → SmartClient
clear s = record s { coordinator_channel = none; clients = []; retired = [] }

-- `start`: whether there is a refreshing task, before and after
unfoldable pub start : SmartClient → Bool → Result Bool
start s there = if s.closed then err (runtime_error "client is closed") else ok true
