-- ===== src/Samples/AsyncSmart.antt =====
-- The asynchronous smart client: two topologies, operations, and a close that comes between.
use hurricache_python_client.Base.{
  Bool-cases, inr, ℕ, ◌+◌, ◌≡◌, ◌<◌, refl, inl, String, true, false, Option, none, some, [], ◌∷◌,
  arith, All, str_eq, if◌then◌else◌,
}
use hurricache_python_client.Base.Int.{ℤ, pos}
use hurricache_python_client.Models
use hurricache_python_client.Errors.{Result, ok, unavailable}
use hurricache_python_client.Topology.{merge_responses, Topology, RoutingInfo, master, backup}
use hurricache_python_client.Routing.{member}
use hurricache_python_client.Smart.{
  SmartClient, Snapshot, Call, new_client, has_client, enter, begin_close, objects,
}
use hurricache_python_client.Smart as Sync
use hurricache_python_client.Smart.Refresh as Sync_refresh
use hurricache_python_client.Smart.Targets.{split_target}
use hurricache_python_client.Smart.Refresh.{Answers, nothing_merged}
use hurricache_python_client.Smart.Holding.{IsOpen}
use hurricache_python_client.Smart.Objects.{times}
use hurricache_python_client.AsyncSmart.{
  detach, proceed, install, to_shut, clear, refresh_once, execute,
}
use hurricache_python_client.AsyncSmart.Whole.{finished, returned, OneError, whole_sync}
use hurricache_python_client.AsyncSmart.Steps.{
  System, initial, gathering, ended, to_close, apply, start, cancel, gather, shut_next, close, Run,
  unmoved, moved,
}
use hurricache_python_client.AsyncSmart.Steps.Safety.{Run-StillOpen, Run-shut_or_dropped}
use hurricache_python_client.AsyncSmart.Steps.Cancelled.{cancelled, Run-cancelled}

-- every port is the number 1
abbrev one : String → Option ℤ
one text = some (pos 1)

abbrev before_it : Topology
before_it = record {
  max_shards = 1;
  routes = ((master, 0), "a:1") ∷ ((backup, 0), "b:1") ∷ [];
  targets = "a:1" ∷ "b:1" ∷ [];
}

abbrev after_it : Topology
after_it = record { max_shards = 1; routes = ((master, 0), "c:1") ∷ []; targets = "c:1" ∷ [] }

abbrev fresh : System
fresh = initial ("c" ∷ [])

-- what a topology makes of a system whose refreshing task is not closing clients
abbrev with_topology : Topology → System → System
with_topology t s =
    let (r, client) = install one t s.client in
    let (rest, client') = proceed (to_close r) client in
    record s { client = client'; refreshing = rest }

abbrev applied : System
applied = with_topology before_it fresh

abbrev running : System
running = record applied {
  client = (enter applied.client).1;
  running = (enter applied.client).0 ∷ [];
}

applied_session : Run one fresh applied
applied_session = moved unmoved (apply fresh before_it refl refl)

-- a topology is installed, and an operation runs
running_session : Run one fresh running
unfolding new_client install detach proceed
running_session = moved applied_session (start applied)

Run-StillOpen_example : All (IsOpen running.client.shut) running.running
unfolding new_client install detach proceed
Run-StillOpen_example = Run-StillOpen one ("c" ∷ []) running running_session (inl refl)

-- the refreshing task has closed one of the two clients that a second topology retired
abbrev replaced : System
replaced = with_topology after_it applied

replaced_session : Run one fresh replaced
unfolding new_client install detach proceed has_client member split_target
replaced_session = moved applied_session (apply applied after_it refl refl)

abbrev called_off : System
called_off = cancelled replaced

abbrev at_gather : System
at_gather = record called_off { closer = gathering (2 ∷ []) }

abbrev gathered : System
gathered = record at_gather {
  client = record at_gather.client { shut = 2 ∷ at_gather.client.shut };
  closer = gathering [];
}

abbrev over : System
over = record gathered { client = clear gathered.client; closer = ended }

closing_session : Run one called_off over
unfolding new_client install detach proceed has_client member split_target to_shut begin_close
closing_session =
    moved (moved (moved unmoved (gather called_off refl)) (shut_next at_gather 2 [] refl))
      (close gathered refl)

Run-cancelled_example : times 1 over.client.shut ≡ 0
unfolding new_client install detach proceed has_client member split_target
Run-cancelled_example =
    Run-cancelled one ("c" ∷ []) replaced over 1 replaced_session refl (omega arith) closing_session

-- the system is closed with the clients of its first topology
abbrev cut_short : System
cut_short = record (cancelled applied) { closer = gathering (0 ∷ 1 ∷ []) }

abbrev one_shut : System
one_shut = record cut_short {
  client = record cut_short.client { shut = 0 ∷ cut_short.client.shut };
  closer = gathering (1 ∷ []);
}

abbrev both_shut : System
both_shut = record one_shut {
  client = record one_shut.client { shut = 1 ∷ one_shut.client.shut };
  closer = gathering [];
}

abbrev done : System
done = record both_shut { client = clear both_shut.client; closer = ended }

whole_session : Run one fresh done
unfolding new_client install detach proceed has_client member split_target to_shut begin_close
whole_session =
    moved
      (moved
        (moved
          (moved (moved applied_session (cancel applied refl)) (gather (cancelled applied) refl))
          (shut_next cut_short 0 (1 ∷ []) refl))
        (shut_next one_shut 1 [] refl))
      (close both_shut refl)

Run-shut_or_dropped_example : 0 < times 0 done.client.shut + times 0 done.dropped
unfolding new_client install detach proceed has_client member split_target begin_close clear
Run-shut_or_dropped_example =
    Run-shut_or_dropped one ("c" ∷ []) done whole_session refl refl 0 (omega arith)

abbrev info : RoutingInfo
info = record {
  max_shards = 1;
  peers = record { target = "a:1"; role = master; partition_ids = 0 ∷ [] } ∷ [];
}

-- Only the second coordinator answers.
abbrev second : ℕ → String → Answers
second k address =
    if str_eq address "d"
    then record { responses = info ∷ []; failure = none }
    else record { responses = []; failure = some (unavailable "") }

-- every call returns 3 and changes nothing
abbrev three : Snapshot → String → SmartClient × ℕ → Result ℕ × (SmartClient × ℕ)
three _ target v = (ok 3, v)

abbrev read : Call
read = record {
  write = false;
  hint = none;
  override = none;
  configured = Models.lb_smart;
  coin = true;
}

-- a client with two coordinators
abbrev pair : SmartClient
pair = new_client ("c" ∷ "d" ∷ [])

-- the first coordinator's stream has no response
one_error : (n : ℕ) (address : String) → OneError (second n address)
unfolding merge_responses
one_error n address = elim (Bool-cases (str_eq address "d")) [
  | inl same ↦ rw same (inl refl)
  | inr other ↦ rw other (inr (nothing_merged, refl))
]

whole_sync_example :
    (finished (refresh_once one second pair) ≡ Sync_refresh.refresh_once one second pair)
    × (returned (execute three read (pair, 0)) ≡ Sync.execute three read (pair, 0))
whole_sync_example = whole_sync one second three read pair 0 one_error
