-- ===== src/Samples/Smart.antt =====
-- The smart client: its threads, its coordinators and its endpoints.
use hurricache_python_client.Base.{
  ℕ, ◌≡◌, ◌≤◌, ◌<◌, ◌⊎◌, inr, Bool, length, refl, String, true, false, Option, none, some, [], ◌∷◌,
  arith, All, str_eq, if◌then◌else◌,
}
use hurricache_python_client.Base.Int.{ℤ, pos}
use hurricache_python_client.Models
use hurricache_python_client.Errors.{Error, Result, ok, err, unavailable, value_error}
use hurricache_python_client.Topology.{
  Topology, RoutingInfo, master, backup, add_peers, role_eq, add_shards, route,
}
use hurricache_python_client.Routing.{attempt, member}
use hurricache_python_client.Routing.Attempts.{Log, logged}
use hurricache_python_client.Smart.{
  SmartClient, Snapshot, Call, new_client, has_client, sweep, install, apply_topology, enter,
  release, begin_close, shut_all, to_shut, clear, reset_retired, targets_of, endpoints_of,
}
use hurricache_python_client.Smart.Targets.{split_target}
use hurricache_python_client.Smart.Holding.{IsOpen}
use hurricache_python_client.Smart.Objects.{times}
use hurricache_python_client.Smart.Steps.{
  System, initial, joining, shutting, cleared, ended, accept, apply, start, stop, gone, closing,
  lock, shut_next, unlock, reset, Run, unmoved, moved,
}
use hurricache_python_client.Smart.Steps.Safety.{Run-IsOpen, Run-shut}
use hurricache_python_client.Smart.Refresh.{Answers, refresh_once, merge_stream}
use hurricache_python_client.Smart.Refresh.Failover.{Succeeds, refresh_once-Succeeds}
use hurricache_python_client.Smart.Calls.{
  attempt_twice-FirstFailed, FirstFailed, execute_calls-AllKnown, AllKnown,
}
use hurricache_python_client.Smart.Partial.{apply_topology_partial}
use hurricache_python_client.Smart.Routed.{routed}
use hurricache_python_client.Smart.Routed.Scope.{routed-active, routed_refused}
use hurricache_python_client.Effects
use hurricache_python_client.Effects.{World, Seconds, finite}
use hurricache_python_client.Effects.Ensures.{Holds}
use hurricache_python_client.Samples.{env, host}

-- every port is the number 1
abbrev one : String → Option ℤ
one text = some (pos 1)

abbrev topology : Topology
topology = record { max_shards = 1; routes = ((master, 0), "a:1") ∷ []; targets = "a:1" ∷ [] }

abbrev fresh : System
fresh = initial ("c" ∷ [])

abbrev accepted : System
accepted = record fresh { pending = some topology }

abbrev applied : System
applied = record accepted { client = (install one topology accepted.client).1; pending = none }

abbrev running : System
running = record applied {
  client = (enter applied.client).1;
  running = (enter applied.client).0 ∷ [];
}

-- a topology is installed, and an operation runs
started_session : Run one fresh running
unfolding new_client install
started_session =
    moved
      (moved (moved unmoved (accept fresh topology refl refl)) (apply accepted topology tt refl))
      (start applied tt)

abbrev going : System
going = record running { client = begin_close running.client; closer = joining }

-- the client is to be closed, and the operation still runs
going_session : Run one fresh going
unfolding new_client install begin_close enter split_target
going_session = moved started_session (closing running refl refl)

Run-IsOpen_example : All (IsOpen going.client.shut) going.running
Run-IsOpen_example = Run-IsOpen one ("c" ∷ []) going going_session (inr refl)

abbrev locked : System
locked = record going { closer = shutting (to_shut going.client) }

abbrev all_shut : System
all_shut = record locked { client = shut_all (0 ∷ []) locked.client; closer = shutting [] }

abbrev unlocked : System
unlocked = record all_shut { client = clear all_shut.client; closer = cleared }

-- The operation ends before the retired clients are forgotten.
abbrev released : System
released = record unlocked {
  client = (release unlocked.client).1;
  running = [];
  leaving = (release unlocked.client).0 ∷ [];
}

abbrev left : System
left = record released { leaving = [] }

abbrev at_end : System
at_end = record left { client = reset_retired left.client; closer = ended }

ended_session : Run one fresh at_end
unfolding new_client install enter release sweep begin_close split_target to_shut shut_all clear
ended_session =
    moved
      (moved
        (moved
          (moved (moved (moved going_session (lock going refl refl)) (shut_next locked 0 [] refl))
            (unlock all_shut refl))
          (stop unlocked [] [] (enter applied.client).0 tt refl))
        (gone released [] [] refl))
      (reset left refl)

Run-shut_example : 0 < times 0 at_end.client.shut
unfolding new_client install enter release sweep begin_close split_target to_shut shut_all clear
    reset_retired
Run-shut_example = Run-shut one ("c" ∷ []) at_end ended_session refl refl 0 (omega arith)

abbrev silent : Log → String → Result ℕ
silent log endpoint = err (unavailable "")

attempt_twice-FirstFailed_example :
    (length (attempt (logged silent) ("a" ∷ "b" ∷ []) ("a" ∷ "b" ∷ []) []).1 ≤ 1)
    ⊎ ((length (attempt (logged silent) ("a" ∷ "b" ∷ []) ("a" ∷ "b" ∷ []) []).1 ≡ 2)
        × FirstFailed silent ("a" ∷ "b" ∷ []) ("a" ∷ "b" ∷ []))
attempt_twice-FirstFailed_example =
    attempt_twice-FirstFailed silent ("a" ∷ "b" ∷ []) ("a" ∷ "b" ∷ [])

abbrev read : Call
read = record {
  write = false;
  hint = none;
  override = none;
  configured = Models.lb_smart;
  coin = true;
}

abbrev snapshot : Snapshot
snapshot = record {
  topology = record {
    max_shards = 1;
    routes = ((master, 0), "a:1") ∷ ((backup, 0), "b:1") ∷ [];
    targets = "a:1" ∷ "b:1" ∷ [];
  };
  clients = ("a:1", 0) ∷ ("b:1", 1) ∷ [];
}

execute_calls-AllKnown_example :
    AllKnown
      (targets_of snapshot.clients)
      (attempt (logged silent) (targets_of snapshot.clients) (endpoints_of read snapshot 0) []).1
execute_calls-AllKnown_example = execute_calls-AllKnown silent read snapshot 0

-- a client of one target that is ready
abbrev ready : SmartClient
ready = record (new_client ("c" ∷ [])) { clients = ("a:1", 0) ∷ []; made = 1 }

abbrev misnamed : Topology
misnamed = record { max_shards = 1; routes = ((master, 0), "x") ∷ []; targets = "x" ∷ [] }

abbrev no_port : Error
no_port = value_error "cache target must be host:port"

apply_topology_partial_example :
    ((apply_topology one misnamed ready).0 ≡ err no_port)
    × ((apply_topology one misnamed ready).1.topology ≡ ready.topology)
    × (has_client "a:1" (apply_topology one misnamed ready).1.clients ≡ false)
unfolding new_client has_client split_target member
apply_topology_partial_example =
    apply_topology_partial one misnamed ready "x" "a:1" [] no_port refl refl refl refl refl

-- every call returns 3 and changes nothing
abbrev three : Snapshot → String → SmartClient × World → Result ℕ × (SmartClient × World)
three _ target v = (ok 3, v)

-- the topology is there, or does not come
abbrev there : Seconds → SmartClient → Bool × SmartClient
there timeout s = (true, s)

abbrev late : Seconds → SmartClient → Bool × SmartClient
late timeout s = (false, s)

routed-active_example :
    ((routed host
        (finite (pos 60))
        there
        three
        env
        (some (finite (pos 5)))
        read
        (ready, Effects.start)).1.0.active
      ≡ ready.active)
    × ((routed host
          (finite (pos 60))
          there
          three
          env
          (some (finite (pos 5)))
          read
          (ready, Effects.start)).1.1.context
        ≡ Effects.start.context)
routed-active_example =
    routed-active host (finite (pos 60)) there three (λ snapshot target s w. refl)
      (λ timeout s. refl) env (some (finite (pos 5))) read ready Effects.start

-- every call fails
abbrev failing : Snapshot → String → SmartClient × World → Result ℕ × (SmartClient × World)
failing _ target v = (err (unavailable ""), v)

routed_refused_example :
    Holds (λ _. ⊥) (routed host (finite (pos 60)) late three env none read (ready, Effects.start)).0
    × (routed host (finite (pos 60)) late three env none read (ready, Effects.start)
        ≡ routed host (finite (pos 60)) late failing env none read (ready, Effects.start))
routed_refused_example =
    routed_refused host (finite (pos 60)) late three failing env none read ready Effects.start
      (inr (λ timeout s. refl))

abbrev info : RoutingInfo
info = record {
  max_shards = 1;
  peers = record { target = "a:1"; role = master; partition_ids = 0 ∷ [] } ∷ [];
}

-- Only the second coordinator answers.
abbrev second : ℕ → String → Answers
second k address =
    if str_eq address "d"
    then record { responses = info ∷ []; failure = none }
    else record { responses = []; failure = some (unavailable "") }

refresh_once-Succeeds_example : Succeeds (refresh_once one second (new_client ("c" ∷ "d" ∷ [])))
unfolding new_client merge_stream split_target add_peers role_eq add_shards route
refresh_once-Succeeds_example =
    refresh_once-Succeeds one second (new_client ("c" ∷ "d" ∷ [])) "d" 1 refl (omega arith)
      (λ k. (topology, refl, (("a", pos 1, refl), tt)))
