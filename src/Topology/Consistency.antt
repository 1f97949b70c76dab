-- ===== src/Topology/Consistency.antt =====
-- What an accepted topology guarantees.
use hurricache_python_client.Base.{
  ℕ, ◌<◌, ◌≡◌, refl, inl, inr, ◌≢◌, String, true, false, ◌&&◌, Option, none, some, List, [], ◌∷◌,
  arith, ltb, ◌==◌, eq_iff, Bool-cases, All, ltb→lt,
}
use hurricache_python_client.Errors.{Result, ok, err, ◌>>=◌}
use hurricache_python_client.Effects.Ensures.{Holds, Holds-map}
use hurricache_python_client.Topology.{
  NodeRole, unassigned, Peer, RoutingInfo, Routes, Topology, role_eq, route, conflicts, add_shards,
  invalid_peer, add_peers, checked, topology_from,
}

role_eq→eq : (r s : NodeRole) → role_eq r s ≡ true → r ≡ s
unfolding role_eq
role_eq→eq r s h = ground arith

role_eq_self : (r : NodeRole) → role_eq r r ≡ true
unfolding role_eq
role_eq_self r = ground arith

-- a route that was there is there still
abbrev Extends : Routes → Routes → Type 0
Extends routes routes' =
    (role : NodeRole) (shard : ℕ) (target : String)
    → route routes role shard ≡ some target
    → route routes' role shard ≡ some target

-- no conflict with a route that is there: it has the same target
same_target :
    (previous : Option String) (target t : String)
    → conflicts previous target ≡ false
    → previous ≡ some t
    → some target ≡ some t
same_target none target t free e = cc
same_target (some p) target t free e = ground (arith, eq_iff p target)

extends_put :
    (routes : Routes) (r role : NodeRole) (s shard : ℕ) (target t : String)
    → conflicts (route routes r s) target ≡ false
    → route routes role shard ≡ some t
    → route (((r, s), target) ∷ routes) role shard ≡ some t
unfolding route
extends_put routes r role s shard target t free there =
    elim (Bool-cases (role_eq r role && (s == shard))) [
      | inl hit ↦
          let er : r ≡ role = role_eq→eq r role (ground arith) in
          let es : s ≡ shard = ground arith in
          rw hit (same_target (route routes r s) target t free (rw (er, es) there))
      | inr miss ↦ rw miss there
    ]

route_put :
    (routes : Routes) (r : NodeRole) (s : ℕ) (target : String)
    → route (((r, s), target) ∷ routes) r s ≡ some target
unfolding route
route_put routes r s target = ground (arith, role_eq_self r)

-- The shard is within the topology and routed to the target.
abbrev pub Routed : ℕ → Routes → NodeRole → String → ℕ → Type 0
Routed max_shards routes role target shard =
    (shard < max_shards) × (route routes role shard ≡ some target)

-- All that a peer announces is so.
abbrev pub Claimed : ℕ → Routes → Peer → Type 0
Claimed max_shards routes peer =
    (peer.role ≢ unassigned)
    × All (Routed max_shards routes peer.role peer.target) peer.partition_ids

module _ (max_shards : ℕ) where
  Routed-Extends :
      (role : NodeRole) (target : String) (routes routes' : Routes) (shards : List ℕ)
      → Extends routes routes'
      → All (Routed max_shards routes role target) shards
      → All (Routed max_shards routes' role target) shards
  Routed-Extends role target routes routes' [] e h = tt
  Routed-Extends role target routes routes' (s ∷ ss) e h =
      ((h.0.0, e role s target h.0.1), Routed-Extends role target routes routes' ss e h.1)

  add_shards-Routed :
      (role : NodeRole) (target : String) (shards : List ℕ) (routes : Routes)
      → Holds
          (λ routes'. Extends routes routes' × All (Routed max_shards routes' role target) shards)
          (add_shards max_shards role target shards routes)
  unfolding add_shards
  add_shards-Routed role target [] routes = ((λ r s t h. h), tt)
  add_shards-Routed role target (s ∷ ss) routes = elim (Bool-cases (ltb s max_shards)) [
    | inr outside ↦ rw outside tt
    | inl inside ↦ rw inside (elim (Bool-cases (conflicts (route routes role s) target)) [
      | inl conflict ↦ rw conflict tt
      | inr free ↦ rw free (
          Holds-map _ _ (add_shards max_shards role target ss (((role, s), target) ∷ routes))
            (λ routes' h. (
              (λ r i t there. h.0 r i t (extends_put routes role r s i target t free there)),
              (
                (ltb→lt s max_shards inside, h.0 role s target (route_put routes role s target)),
                h.1,
              ),
            ))
            (add_shards-Routed role target ss (((role, s), target) ∷ routes)))
    ])
  ]

  valid_role : (peer : Peer) → invalid_peer peer ≡ false → peer.role ≢ unassigned
  unfolding role_eq
  valid_role peer h e = ground arith

  after_shards :
      (peer : Peer) (rest : List Peer) (routes : Routes) (targets : List String)
      → peer.role ≢ unassigned
      → (r : Result Routes)
      → Holds
          (λ routes'.
            Extends routes routes'
            × All (Routed max_shards routes' peer.role peer.target) peer.partition_ids)
          r
      → ((routes' : Routes)
          → Holds
              (λ t. Extends routes' t.0 × All (Claimed max_shards t.0) rest)
              (add_peers max_shards rest routes' (peer.target ∷ targets)))
      → Holds
          (λ t. Extends routes t.0 × All (Claimed max_shards t.0) (peer ∷ rest))
          (r >>= λ routes'. add_peers max_shards rest routes' (peer.target ∷ targets))
  after_shards peer rest routes targets valid (err e) h k = tt
  after_shards peer rest routes targets valid (ok routes') h k =
      Holds-map _ _ (add_peers max_shards rest routes' (peer.target ∷ targets))
        (λ t g. (
          (λ r i x there. g.0 r i x (h.0 r i x there)),
          (
            (valid, Routed-Extends peer.role peer.target routes' t.0 peer.partition_ids g.0 h.1),
            g.1,
          ),
        ))
        (k routes')

  add_peers-Claimed :
      (peers : List Peer) (routes : Routes) (targets : List String)
      → Holds
          (λ t. Extends routes t.0 × All (Claimed max_shards t.0) peers)
          (add_peers max_shards peers routes targets)
  unfolding add_peers
  add_peers-Claimed [] routes targets = ((λ r s t h. h), tt)
  add_peers-Claimed (peer ∷ rest) routes targets = elim (Bool-cases (invalid_peer peer)) [
    | inl bad ↦ rw bad tt
    | inr fine ↦ rw fine (
        after_shards peer rest routes targets (valid_role peer fine) _
          (add_shards-Routed peer.role peer.target peer.partition_ids routes)
          (λ routes'. add_peers-Claimed rest routes' (peer.target ∷ targets)))
  ]

positive : (n : ℕ) → (n == 0) ≡ false → 0 < n
positive n h = ground arith

-- If an answer of the coordinators is accepted, it has a shard, and every claim of every peer holds
-- in the topology: the shard is in range, the role is master or backup, and the route is the peer's
-- target.
pub topology_from-Claimed :
    (response : RoutingInfo)
    → Holds
        (λ (t : Topology).
          (0 < t.max_shards)
          × (t.max_shards ≡ response.max_shards)
          × All (Claimed t.max_shards t.routes) response.peers)
        (topology_from response)
unfolding topology_from
topology_from-Claimed response = elim (Bool-cases (response.max_shards == 0)) [
  | inl none_there ↦ rw none_there tt
  | inr some_there ↦ rw some_there (
      finish (positive response.max_shards some_there)
        (add_peers response.max_shards response.peers [] [])
        (add_peers-Claimed response.max_shards response.peers [] []))
]
  where
    finish :
        0 < response.max_shards
        → (r : Result (Routes × List String))
        → Holds (λ t. Extends [] t.0 × All (Claimed response.max_shards t.0) response.peers) r
        → Holds
            (λ (t : Topology).
              (0 < t.max_shards)
              × (t.max_shards ≡ response.max_shards)
              × All (Claimed t.max_shards t.routes) response.peers)
            (r >>= checked response.max_shards)
    finish some_shards (err e) h = tt
    finish some_shards (ok ([], targets)) h = tt
    finish some_shards (ok ((x ∷ xs), targets)) h = (some_shards, refl, h.1)
