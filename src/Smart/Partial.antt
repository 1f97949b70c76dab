-- ===== src/Smart/Partial.antt =====
-- What is left behind by a topology that cannot be applied.
use hurricache_python_client.Base.{
  ◌≡◌, ap, ◌∙◌, String, Bool, true, false, Option, List, [], ◌∷◌, arith, eq_iff, if◌then◌else◌,
}
use hurricache_python_client.Base.Int.{ℤ}
use hurricache_python_client.Errors.{Error, Result, ok, err}
use hurricache_python_client.Topology.{Topology}
use hurricache_python_client.Routing.{member}
use hurricache_python_client.Smart.Targets.{split_target}
use hurricache_python_client.Smart.{
  Clients, SmartClient, has_client, staying, retire, connecting, connect_all, install,
  apply_topology,
}

-- The clients whose target is not in the new topology are gone, the others stay.
has_client-staying :
    (u : String) (targets : List String) (cs : Clients)
    → has_client u (staying targets cs) ≡ (if member u targets then has_client u cs else false)
unfolding has_client staying
has_client-staying u targets [] = ground arith
has_client-staying u targets ((t, x) ∷ cs) =
    ground (arith, eq_iff t u, has_client-staying u targets cs)

stopped :
    (there : Bool) (parts : Result (String × ℤ)) (target : String)
    (rest : SmartClient → Result (Unit {0}) × SmartClient) (s : SmartClient) (error : Error)
    → there ≡ false
    → parts ≡ err error
    → connecting there parts target rest s ≡ (err error, s)
stopped true parts target rest s error h e = absurd (cc)
stopped false (ok p) target rest s error h e = absurd (cc)
stopped false (err x) target rest s error h e = cc

-- the loop ends at a target that does not split
connect_all-stopped :
    (int_of : String → Option ℤ) (targets : List String) (s : SmartClient) (target : String)
    (rest : List String) (error : Error)
    → targets ≡ target ∷ rest
    → has_client target s.clients ≡ false
    → split_target int_of target ≡ err error
    → connect_all int_of targets s ≡ (err error, s)
unfolding connect_all
connect_all-stopped int_of targets s target rest error first new bad =
    ap (λ ts. connect_all int_of ts s) first
    ∙ stopped (has_client target s.clients) (split_target int_of target) target
        (connect_all int_of rest) s error new bad

-- no client without one for the target before
still_none :
    (u : String) (targets : List String) (cs : Clients)
    → has_client u cs ≡ false
    → has_client u (staying targets cs) ≡ false
still_none u targets cs h = ground (arith, has_client-staying u targets cs)

-- If, of the targets of an accepted topology, the first to be connected has no client yet and is no
-- host and port, applying the topology to a client that is not closed raises; the old topology
-- stays, while no client is left for a target that the new one does not name.
pub apply_topology_partial :
    (int_of : String → Option ℤ) (t : Topology) (s : SmartClient) (target u : String)
    (rest : List String) (error : Error)
    → s.closed ≡ false
    → t.targets ≡ target ∷ rest
    → has_client target s.clients ≡ false
    → split_target int_of target ≡ err error
    → member u t.targets ≡ false
    → ((apply_topology int_of t s).0 ≡ err error)
      × ((apply_topology int_of t s).1.topology ≡ s.topology)
      × (has_client u (apply_topology int_of t s).1.clients ≡ false)
unfolding apply_topology install retire
apply_topology_partial int_of t s target u rest error open_still first new bad unnamed = ground (
  arith,
  connect_all-stopped int_of t.targets (retire t.targets s) target rest error first
      (still_none target t.targets s.clients new) bad,
  has_client-staying u t.targets s.clients,
)
