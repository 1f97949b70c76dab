-- ===== src/Samples/Routes.antt =====
-- Topologies, routes and the scopes of operations.
use hurricache_python_client.Base.{ℕ, ◌<◌, ◌≡◌, refl, String, none, some, [], ◌∷◌, All}
use hurricache_python_client.Base.Int.{pos}
use hurricache_python_client.Connection.{used_all, new_connection, ask_stub, shut_down, ask_channel}
use hurricache_python_client.Connection.Lifecycle.{Managed, used_all-Managed}
use hurricache_python_client.Models.{KeyHintData}
use hurricache_python_client.Errors.{Result, err, unavailable}
use hurricache_python_client.Effects.{Context, World, start, finite, pure, get_context}
use hurricache_python_client.Effects.Ensures.{Holds}
use hurricache_python_client.Operation.{remaining, lock_expiration, operation}
use hurricache_python_client.Operation.Limits.{
  Fits, ExpiresAt, remaining-Fits, lock_expiration-ExpiresAt,
}
use hurricache_python_client.Operation.Scope.{operation-restores, nested_context}
use hurricache_python_client.Topology.{RoutingInfo, Topology, master, backup, topology_from}
use hurricache_python_client.Topology.Consistency.{topology_from-Claimed, Claimed}
use hurricache_python_client.Routing.Attempts.{Log}
use hurricache_python_client.Samples.{env, host}

abbrev answer : RoutingInfo
answer = record {
  max_shards = 2;
  peers =
      record { target = "a"; role = master; partition_ids = 0 ∷ 1 ∷ [] }
      ∷ record { target = "b"; role = backup; partition_ids = 0 ∷ 1 ∷ [] }
      ∷ [];
}

topology_from-Claimed_example :
    Holds
      (λ (t : Topology).
        (0 < t.max_shards) × (t.max_shards ≡ 2) × All (Claimed t.max_shards t.routes) answer.peers)
      (topology_from answer)
topology_from-Claimed_example = topology_from-Claimed answer

abbrev silent : Log → String → Result ℕ
silent log endpoint = err (unavailable "")

abbrev hint : KeyHintData
hint = record { week_hash = some (pos 9); strong_hash = none }

-- inside an operation that started at 5000 and ends at 90
abbrev inside : World
inside = record start {
  context = record { deadline = some 90; threshold = 10; started_millis = some 5000 };
}

remaining-Fits_example : Holds (Fits 0 90 200) (remaining (some (finite (pos 200))) env inside).0
remaining-Fits_example = remaining-Fits env inside 90 200 refl

lock_expiration-ExpiresAt_example :
    Holds (ExpiresAt 3000000 8000) (lock_expiration (finite (pos 3000000)) env start).0
lock_expiration-ExpiresAt_example = lock_expiration-ExpiresAt env start 3000000

operation-restores_example :
    (operation {A = ℕ} host (some (finite (pos 5))) (pure 3) env inside).1.context ≡ inside.context
operation-restores_example = operation-restores host (some (finite (pos 5))) (pure 3) env inside

nested_context_example :
    Holds
      (λ (c : Context).
        (c.deadline ≡ some 90) × (c.started_millis ≡ some 5000) × (c.threshold ≡ 1024))
      (operation host (some (finite (pos 500))) get_context env inside).0
nested_context_example = nested_context host (some (finite (pos 500))) env inside 90 5000 refl refl

used_all-Managed_example :
    Managed (used_all (ask_stub ∷ shut_down ∷ ask_channel ∷ []) new_connection)
used_all-Managed_example = used_all-Managed (ask_stub ∷ shut_down ∷ ask_channel ∷ [])
