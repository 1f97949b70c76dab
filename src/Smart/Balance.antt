-- ===== src/Smart/Balance.antt =====
-- What an operation leaves behind in the smart client.
use hurricache_python_client.Base.{
  ℕ, ◌+◌, ◌≡◌, refl, ◌∙◌, String, Option, none, some, List, [], ◌∷◌, arith,
}
use hurricache_python_client.Errors.{Error, Result, ok, err}
use hurricache_python_client.Routing.{shard, retry_at, again, settle, attempt}
use hurricache_python_client.Smart.{
  SmartClient, Snapshot, enter, leave, release, shut_all, Call, targets_of, endpoints_of, execute,
}

-- What each call of an endpoint keeps, the attempts keep.
module _ {W A : Type 0} (run : String → W → Result A × W) (P : W → Type 0)
    (kept : (target : String) (w : W) → P w → P (run target w).1) where
  again_keeps :
      (target : Option String) (error : Error) (w : W) → P w → P (again run target error w).1
  again_keeps none error w h = h
  again_keeps (some other) error w h = kept other w h

  settle_keeps :
      (clients : List String) (endpoint : String) (others : List String) (r : Result A) (w : W)
      → P w
      → P (settle run clients endpoint others r w).1
  unfolding settle
  settle_keeps clients endpoint others (ok a) w h = h
  settle_keeps clients endpoint others (err error) w h =
      again_keeps (retry_at clients endpoint others error) error w h

  attempt_keeps :
      (clients targets : List String) (w : W) → P w → P (attempt run clients targets w).1
  unfolding attempt
  attempt_keeps clients [] w h = h
  attempt_keeps clients (endpoint ∷ others) w h =
      settle_keeps clients endpoint others (run endpoint w).0 (run endpoint w).1 (kept endpoint w h)

leave-active : (s : SmartClient) (n : ℕ) → s.active ≡ n + 1 → (leave s).active ≡ n
unfolding leave release shut_all
leave-active s n h = ground arith

-- If the calls leave the number of active operations of the smart client as it was, so does a whole
-- routed operation, whether it returns or raises.
pub execute-active :
    {W A : Type 0} (run : Snapshot → String → SmartClient × W → Result A × (SmartClient × W))
    (c : Call) (s : SmartClient) (w : W)
    → ((snapshot : Snapshot) (target : String) (s' : SmartClient) (w' : W)
        → (run snapshot target (s', w')).1.0.active ≡ s'.active)
    → (execute run c (s, w)).1.0.active ≡ s.active
unfolding execute enter
execute-active {W} run c s w balanced =
    let snapshot = (enter s).0 in
    let (index, counter) = shard snapshot.topology.max_shards s.random_shard c.hint in
    let start : SmartClient × W = (record s { active = s.active + 1; random_shard = counter }, w) in
    leave-active
      (attempt (run snapshot) (targets_of snapshot.clients) (endpoints_of c snapshot index)
        start).1.0
      s.active
      (attempt_keeps (run snapshot) (λ v. v.0.active ≡ s.active + 1)
        (λ target v h. balanced snapshot target v.0 v.1 ∙ h) (targets_of snapshot.clients)
        (endpoints_of c snapshot index) start refl)
