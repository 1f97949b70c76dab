-- ===== src/Routing.antt =====
-- Routing one operation, in hurricache/grpc/smart_client.py: the shard, the endpoints, and the two
-- attempts of `_execute`. An endpoint is the target that its client was opened for: `_clients` holds
-- one client for each target, so `is` on clients is equality of targets.
pub mod Attempts
use hurricache_python_client.Base.{
  ℕ, ◌+◌, ◌%◌, ◌^◌, String, Bool, true, false, Option, none, some, List, [], ◌∷◌, str_eq,
  if◌then◌else◌,
}
use hurricache_python_client.Base.Int.{ℤ}
use hurricache_python_client.Models.{KeyHintData, Mode}
use hurricache_python_client.Models
use hurricache_python_client.Errors.{Error, failed_precondition, unavailable, Result, ok, err}
use hurricache_python_client.Wire.{mask32}
use hurricache_python_client.Topology.{NodeRole, master, backup, Routes, Topology, route}

-- `target in clients`
unfoldable pub member : String → List String → Bool
member target [] = false
member target (x ∷ xs) = if str_eq x target then true else member target xs

-- `clients.get(target)`
abbrev pub client_for : List String → String → Option String
client_for clients target = if member target clients then some target else none

-- `_WRITE_OPERATIONS`
abbrev pub write_operations : List String
write_operations =
    "add_element" ∷ "add_element_hash_map" ∷ "add_element_ordered" ∷ "add_element_ordered_map"
    ∷ "add_element_ordered_set" ∷ "add_element_to_head" ∷ "add_element_to_head_count"
    ∷ "add_element_to_position" ∷ "add_element_to_position_after"
    ∷ "add_element_to_position_after_count" ∷ "add_element_to_position_before"
    ∷ "add_element_to_position_before_count" ∷ "add_element_to_position_by_value"
    ∷ "add_element_to_position_by_value_count" ∷ "add_element_to_tail" ∷ "add_element_to_tail_count"
    ∷ "add_element_unordered" ∷ "add_element_with_weight" ∷ "atomic_add" ∷ "atomic_and"
    ∷ "atomic_compare_and_set" ∷ "atomic_create" ∷ "atomic_exchange" ∷ "atomic_load_and_delete"
    ∷ "atomic_or" ∷ "atomic_store" ∷ "atomic_sub" ∷ "atomic_xor" ∷ "get_and_delete_value"
    ∷ "get_and_delete_value_in_container" ∷ "get_and_remove_container_value"
    ∷ "get_and_remove_element_at_position" ∷ "get_and_remove_front" ∷ "get_and_remove_tail"
    ∷ "lock_object" ∷ "remove_container_key" ∷ "remove_element_at_position"
    ∷ "remove_from_container" ∷ "remove_from_container_by_key_value" ∷ "remove_head"
    ∷ "remove_in_container" ∷ "remove_tail" ∷ "set_ttl" ∷ "unlock_object" ∷ "update_container_value"
    ∷ "update_value_in_container" ∷ []

-- `_is_write`
abbrev pub is_write : String → Bool
is_write name = member name write_operations

-- `_shard`: the shard, and the new value of `_random_shard`
abbrev by_hash : ℕ → ℕ → Option ℤ → ℕ × ℕ
by_hash max_shards counter (some week_hash) = (mask32 week_hash % max_shards, counter)
by_hash max_shards counter none = let next = (counter + 1) % 2 ^ 31 in (next % max_shards, next)

unfoldable pub shard : ℕ → ℕ → Option KeyHintData → ℕ × ℕ
shard max_shards counter none = by_hash max_shards counter none
shard max_shards counter (some hint) = by_hash max_shards counter hint.week_hash

-- `clients.get(topology.routes.get((role, shard), ""))`
abbrev pub routed : List String → Option String → Option String
routed clients none = client_for clients ""
routed clients (some target) = client_for clients target

unfoldable pub endpoint_of : Topology → List String → NodeRole → ℕ → Option String
unfolding member
endpoint_of topology clients role index = routed clients (route topology.routes role index)

-- The endpoints, the first one to be called first; the Boolean is `random.getrandbits(1)`.
abbrev pub by_mode : Mode → Bool → String → String → List String
by_mode Models.master coin m b = m ∷ []
by_mode Models.backup coin m b = b ∷ []
by_mode Models.lb_smart true m b = b ∷ m ∷ []
by_mode _ coin m b = m ∷ b ∷ []

unfoldable pub endpoints : Mode → Bool → Option String → Option String → List String
endpoints mode coin none none = []
endpoints mode coin (some m) none = m ∷ []
endpoints mode coin none (some b) = b ∷ []
endpoints mode coin (some m) (some b) = if str_eq m b then m ∷ [] else by_mode mode coin m b

-- The mode of a call: the override, or else a write goes to the master first.
unfoldable pub mode_of : Option Mode → Bool → Mode → Mode
mode_of (some override) write configured = override
mode_of none true configured = Models.master_then_backup
mode_of none false configured = configured

-- the route of a `FailedPreconditionError`, as an endpoint to try
abbrev pub redirect : List String → String → Option String → Option String
redirect clients endpoint none = none
redirect clients endpoint (some target) = elim (client_for clients target) [
  | none ↦ none
  | some other ↦ if str_eq other endpoint then none else some other
]

abbrev pub second : List String → Option String
second [] = none
second (other ∷ _) = some other

-- Where the second attempt goes, if there is one.
unfoldable pub retry_at : List String → String → List String → Error → Option String
unfolding member
retry_at clients endpoint others (failed_precondition _ target) = redirect clients endpoint target
retry_at clients endpoint others (unavailable _) = second others
retry_at clients endpoint others _ = none

module _ {W A : Type 0} (run : String → W → Result A × W) where
  abbrev pub again : Option String → Error → W → Result A × W
  again none error w = (err error, w)
  again (some other) error w = run other w

  -- after the first attempt
  unfoldable pub settle : List String → String → List String → Result A → W → Result A × W
  settle clients endpoint others (ok a) w = (ok a, w)
  settle clients endpoint others (err error) w =
      again (retry_at clients endpoint others error) error w

  -- the two attempts of `_execute`
  unfoldable pub attempt : List String → List String → W → Result A × W
  unfolding settle
  attempt clients [] w = (err (unavailable "no endpoints for selected shard"), w)
  attempt clients (endpoint ∷ others) w =
      let (r, w') = run endpoint w in settle clients endpoint others r w'
