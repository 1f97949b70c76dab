-- ===== src/Topology.antt =====
-- The topology of hurricache/grpc/smart_client.py: the routes that the coordinators' answers give.
pub mod Consistency
use hurricache_python_client.Base.{
  ℕ, zero, suc, String, Bool, true, false, not, ◌&&◌, ◌||◌, Option, none, some, List, [], ◌∷◌, ◌++◌,
  ltb, ◌==◌, str_eq, if◌then◌else◌,
}
use hurricache_python_client.Errors.{Error, Result, ok, err, ◌>>=◌, value_error}

-- `NodeRole` of proto/coordinator.proto
pub data NodeRole : Type 0 where
  unassigned master backup : NodeRole

-- `PeerRouting` and `RoutingInfoData` of proto/coordinator.proto
pub record Peer : Type 0 where
  pub target : String
  pub role : NodeRole
  pub partition_ids : List ℕ

pub record RoutingInfo : Type 0 where
  pub max_shards : ℕ
  pub peers : List Peer

unfoldable pub role_eq : NodeRole → NodeRole → Bool
role_eq unassigned unassigned = true
role_eq master master = true
role_eq backup backup = true
role_eq _ _ = false

-- The dict `routes`, with the latest assignment first.
abbrev pub Routes : Type 0
Routes = List ((NodeRole × ℕ) × String)

-- `routes.get((role, shard))`
unfoldable pub route : Routes → NodeRole → ℕ → Option String
unfolding role_eq
route [] role shard = none
route (((r, s), target) ∷ rest) role shard =
    if role_eq r role && (s == shard) then some target else route rest role shard

-- `targets` is a set: only membership in it is used.
pub record Topology : Type 0 where
  pub max_shards : ℕ
  pub routes : Routes
  pub targets : List String

-- `previous is not None and previous != peer.target`
abbrev pub conflicts : Option String → String → Bool
conflicts none target = false
conflicts (some previous) target = not (str_eq previous target)

module _ (max_shards : ℕ) (role : NodeRole) (target : String) where
  -- the loop over `peer.partitionIds`
  unfoldable pub add_shards : List ℕ → Routes → Result Routes
  add_shards [] routes = ok routes
  add_shards (shard ∷ rest) routes =
      if not (ltb shard max_shards)
      then err (value_error "shard outside topology")
      else if conflicts (route routes role shard) target
      then err (value_error "conflicting shard routes")
      else add_shards rest (((role, shard), target) ∷ routes)

-- `not peer.target or peer.role not in (MASTER, BACKUP)`
abbrev pub invalid_peer : Peer → Bool
invalid_peer peer = str_eq peer.target "" || role_eq peer.role unassigned

unfoldable pub add_peers : ℕ → List Peer → Routes → List String → Result (Routes × List String)
add_peers max_shards [] routes targets = ok (routes, targets)
add_peers max_shards (peer ∷ rest) routes targets =
    if invalid_peer peer
    then err (value_error "invalid peer target or role")
    else add_shards max_shards peer.role peer.target peer.partition_ids routes >>= λ routes'.
        add_peers max_shards rest routes' (peer.target ∷ targets)

abbrev pub checked : ℕ → Routes × List String → Result Topology
checked max_shards ([], targets) = err (value_error "empty topology")
checked max_shards ((r ∷ rs), targets) =
    ok (record { max_shards = max_shards; routes = r ∷ rs; targets = targets })

-- `_topology_from`
unfoldable pub topology_from : RoutingInfo → Result Topology
topology_from response =
    if response.max_shards == 0
    then err (value_error "coordinator returned max_shards=0")
    else add_peers response.max_shards response.peers [] [] >>= checked response.max_shards

-- the loop of `_merge_topology`
unfoldable pub merge_responses : RoutingInfo → List RoutingInfo → Result RoutingInfo
merge_responses merged [] = ok merged
merge_responses merged (response ∷ rest) =
    if not (merged.max_shards == 0) && not (merged.max_shards == response.max_shards)
    then err (value_error "inconsistent shard counts")
    else merge_responses
        (record { max_shards = response.max_shards; peers = merged.peers ++ response.peers }) rest

unfoldable pub merge_topology : List RoutingInfo → Result Topology
unfolding merge_responses topology_from
merge_topology responses =
    merge_responses (record { max_shards = 0; peers = [] }) responses >>= topology_from
