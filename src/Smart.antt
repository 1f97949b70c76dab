-- ===== src/Smart.antt =====
-- The smart client of hurricache/grpc/smart_client.py: its state, and what changes it. A client of
-- an endpoint is an object: a number, its place in the order in which the clients were made.
pub mod Targets
pub mod Objects
pub mod Holding
pub mod Steps
pub mod Routed
pub mod Modes
pub mod Refresh
pub mod Calls
pub mod Partial
pub mod Balance
use hurricache_python_client.Base.{
  ℕ, ◌+◌, ◌-◌, String, Bool, true, false, Option, none, some, List, [], ◌∷◌, ◌++◌, ◌==◌, str_eq,
  if◌then◌else◌,
}
use hurricache_python_client.Base.Int.{ℤ}
use hurricache_python_client.Errors.{Error, Result, ok, err}
use hurricache_python_client.Models.{KeyHintData, Mode}
use hurricache_python_client.Topology.{Topology, master, backup}
use hurricache_python_client.Routing.{member, shard, endpoint_of, endpoints, mode_of, attempt}
use hurricache_python_client.Smart.Targets.{split_target}

-- The dict of clients by target, in insertion order.
abbrev pub Clients : Type 0
Clients = List (String × ℕ)

-- `made` and `shut` are the clients made and the clients closed so far, the last one first.
pub record SmartClient : Type 0 where
  pub closed : Bool
  pub active : ℕ
  pub clients : Clients
  pub retired : List ℕ
  pub topology : Topology
  pub ready : Bool
  pub random_shard : ℕ
  pub coordinators : List String
  pub coordinator_index : ℕ
  pub coordinator_channel : Option String
  pub made : ℕ
  pub shut : List ℕ

-- the state that `__init__` leaves, before the first refresh
unfoldable pub new_client : List String → SmartClient
new_client coordinators = record {
  closed = false;
  active = 0;
  clients = [];
  retired = [];
  topology = record { max_shards = 0; routes = []; targets = [] };
  ready = false;
  random_shard = 0;
  coordinators = coordinators;
  coordinator_index = 0;
  coordinator_channel = none;
  made = 0;
  shut = [];
}

-- `target in self._clients`
unfoldable pub has_client : String → Clients → Bool
has_client target [] = false
has_client target ((t, _) ∷ rest) = if str_eq t target then true else has_client target rest

-- The clients whose target stays, and those whose target does not.
unfoldable pub staying : List String → Clients → Clients
unfolding member
staying targets [] = []
staying targets ((t, client) ∷ rest) =
    if member t targets then (t, client) ∷ staying targets rest else staying targets rest

unfoldable pub leaving : List String → Clients → List ℕ
unfolding member
leaving targets [] = []
leaving targets ((t, client) ∷ rest) =
    if member t targets then leaving targets rest else client ∷ leaving targets rest

-- the first loop of `_apply_topology`
unfoldable pub retire : List String → SmartClient → SmartClient
unfolding staying leaving
retire targets s = record s {
  clients = staying targets s.clients;
  retired = s.retired ++ leaving targets s.clients;
}

-- Close the retired clients if no operation is active.
unfoldable pub sweep : SmartClient → SmartClient
sweep s = if s.active == 0 then record s { retired = []; shut = s.retired ++ s.shut } else s

-- `HurriCacheClient(host, port, …)`, entered in the dict
unfoldable pub connect : String → SmartClient → SmartClient
connect target s = record s { clients = s.clients ++ (target, s.made) ∷ []; made = s.made + 1 }

-- One round of the second loop: whether there is a client for the target, how the target splits, and
-- the rounds that follow.
abbrev pub connecting :
    Bool
    → Result (String × ℤ)
    → String
    → (SmartClient → Result (Unit {0}) × SmartClient)
    → SmartClient
    → Result (Unit {0}) × SmartClient
connecting true parts target rest s = rest s
connecting false (err error) target rest s = (err error, s)
connecting false (ok _) target rest s = rest (connect target s)

module _ (int_of : String → Option ℤ) where
  -- the second loop of `_apply_topology`, over the targets in any order
  unfoldable pub connect_all : List String → SmartClient → Result (Unit {0}) × SmartClient
  unfolding has_client connect
  connect_all [] s = (ok tt, s)
  connect_all (target ∷ rest) s =
      connecting (has_client target s.clients) (split_target int_of target) target
        (connect_all rest) s

  abbrev pub installed :
      Topology → Result (Unit {0}) × SmartClient → Result (Unit {0}) × SmartClient
  installed topology (err error, s) = (err error, s)
  installed topology (ok _, s) = (ok tt, sweep (record s { topology = topology; ready = true }))

  -- `_apply_topology` under the lock
  unfoldable pub install : Topology → SmartClient → Result (Unit {0}) × SmartClient
  unfolding connect_all retire sweep
  install topology s = installed topology (connect_all topology.targets (retire topology.targets s))

  unfoldable pub apply_topology : Topology → SmartClient → Result (Unit {0}) × SmartClient
  unfolding install
  apply_topology topology s = if s.closed then (ok tt, s) else install topology s

-- What an operation takes under the lock: the topology and a copy of the dict.
pub record Snapshot : Type 0 where
  pub topology : Topology
  pub clients : Clients

unfoldable pub enter : SmartClient → Snapshot × SmartClient
enter s =
    (record { topology = s.topology; clients = s.clients }, record s { active = s.active + 1 })

-- the `finally` of `_execute` under the lock, with the clients that are to be closed behind it
unfoldable pub release : SmartClient → List ℕ × SmartClient
release s =
    if s.active - 1 == 0
    then (s.retired, record s { active = s.active - 1; retired = [] })
    else ([], record s { active = s.active - 1 })

-- a loop over clients that closes each
unfoldable pub shut_all : List ℕ → SmartClient → SmartClient
shut_all clients s = record s { shut = clients ++ s.shut }

-- the whole `finally`
unfoldable pub leave : SmartClient → SmartClient
unfolding release shut_all
leave s = let (retired, s') = release s in shut_all retired s'

abbrev pub targets_of : Clients → List String
targets_of [] = []
targets_of ((target, _) ∷ rest) = target ∷ targets_of rest

abbrev pub objects : Clients → List ℕ
objects [] = []
objects ((_, client) ∷ rest) = client ∷ objects rest

-- `close`, up to the lock
unfoldable pub begin_close : SmartClient → SmartClient
begin_close s = record s { closed = true }

-- the clients that it closes under the lock
unfoldable pub to_shut : SmartClient → List ℕ
to_shut s = objects s.clients ++ s.retired

-- what it clears under the lock, and what behind it
unfoldable pub clear : SmartClient → SmartClient
clear s = record s { coordinator_channel = none; clients = [] }

unfoldable pub reset_retired : SmartClient → SmartClient
reset_retired s = record s { retired = [] }

-- all of that, where no other thread comes between
unfoldable pub finish_close : SmartClient → SmartClient
unfolding to_shut shut_all clear reset_retired
finish_close s = reset_retired (clear (shut_all (to_shut s) s))

unfoldable pub close : SmartClient → SmartClient
unfolding begin_close finish_close
close s = if s.closed then s else finish_close (begin_close s)

-- A call of an operation: whether it is a write, its hint and mode, and `random.getrandbits(1)`.
pub record Call : Type 0 where
  pub write : Bool
  pub hint : Option KeyHintData
  pub override : Option Mode
  pub configured : Mode
  pub coin : Bool

-- The endpoints of a call, by its snapshot and the shard.
unfoldable pub endpoints_of : Call → Snapshot → ℕ → List String
unfolding endpoint_of endpoints mode_of
endpoints_of c snapshot index =
    let targets = targets_of snapshot.clients in
    endpoints (mode_of c.override c.write c.configured) c.coin
      (endpoint_of snapshot.topology targets master index)
      (endpoint_of snapshot.topology targets backup index)

-- `_execute` once the client is ready. `run` calls the operation on the client of a target; what
-- other threads do meanwhile to the smart client is part of it.
module _ {W A : Type 0}
    (run : Snapshot → String → SmartClient × W → Result A × (SmartClient × W)) where
  abbrev pub left : Result A × (SmartClient × W) → Result A × (SmartClient × W)
  left (r, (s, w)) = (r, (leave s, w))

  unfoldable pub execute : Call → SmartClient × W → Result A × (SmartClient × W)
  unfolding enter shard endpoints_of attempt leave
  execute c (s, w) =
      let (snapshot, s') = enter s in
      let (index, counter) = shard snapshot.topology.max_shards s'.random_shard c.hint in
      left (
        attempt (run snapshot) (targets_of snapshot.clients) (endpoints_of c snapshot index)
          (record s' { random_shard = counter }, w))
