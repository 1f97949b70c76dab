-- ===== src/AsyncSmart/Whole.antt =====
-- Refreshing and routing of the asynchronous smart client, beside the synchronous one: they differ
-- in when retired clients are closed.
use hurricache_python_client.Base.{
  ℕ, zero, suc, ◌+◌, ◌≡◌, ◌⊎◌, inl, inr, refl, ap, ◌∙◌, String, Bool, true, false, Option, none,
  some, List, [], ◌++◌, ◌==◌, if◌then◌else◌, length,
}
use hurricache_python_client.Base.Int.{ℤ}
use hurricache_python_client.Errors.{Error, Result, ok, err}
use hurricache_python_client.Topology.{Topology, RoutingInfo, merge_responses}
use hurricache_python_client.Smart.{
  SmartClient, Snapshot, Call, retire, connect_all, installed, sweep, enter, targets_of,
  endpoints_of,
}
use hurricache_python_client.Smart as Sync
use hurricache_python_client.Smart.Refresh.{Answers, merge_stream, nothing_merged, turn}
use hurricache_python_client.Smart.Refresh as Sync_refresh
use hurricache_python_client.AsyncSmart.{
  detach, settled, install, apply_topology, applied, asked, attempt_refresh, retried, attempts,
  collect_topology, numbered, refresh_once, leave, left, execute,
}

-- The state once these clients are closed.
abbrev pub shutting : List ℕ → SmartClient → SmartClient
shutting retired s = record s { shut = retired ++ s.shut }

-- A refresh whose clients are closed at once.
abbrev pub finished : Result (List ℕ) × SmartClient → Result (Unit {0}) × SmartClient
finished (err error, s) = (err error, s)
finished (ok retired, s) = (ok tt, shutting retired s)

detached : (idle : Bool) (s : SmartClient) → List ℕ × SmartClient
detached idle s = if idle then (s.retired, record s { retired = [] }) else ([], s)

-- with an operation active or not
either_way :
    (idle : Bool) (s : SmartClient)
    → shutting (detached idle s).0 (detached idle s).1
      ≡ (if idle then record s { retired = []; shut = s.retired ++ s.shut } else s)
unfolding detached
either_way true s = refl
either_way false s = refl

detach-sweep : (s : SmartClient) → shutting (detach s).0 (detach s).1 ≡ sweep s
unfolding detach sweep detached
detach-sweep s = either_way (s.active == 0) s

-- A stream that both breaks off and brings responses that do not merge: what the synchronous client
-- raises is then the error of the merge, and the asynchronous one the error of the stream. This says
-- that it is not so.
abbrev pub OneError : Answers → Type 0
OneError answers =
    (answers.failure ≡ none)
    ⊎ ((merged : RoutingInfo) × (merge_responses nothing_merged answers.responses ≡ ok merged))

merged_alike :
    (responses : List RoutingInfo) (failure : Option Error)
    → OneError (record { responses = responses; failure = failure })
    → collect_topology (record { responses = responses; failure = failure })
      ≡ merge_stream (record { responses = responses; failure = failure })
unfolding collect_topology merge_stream
merged_alike responses none h = refl
merged_alike responses (some error) (inl gone) = absurd (cc)
merged_alike responses (some error) (inr (merged, e)) = rw e refl

collected_alike :
    (answers : Answers) → OneError answers → collect_topology answers ≡ merge_stream answers
collected_alike answers h = merged_alike answers.responses answers.failure h

module _ (int_of : String → Option ℤ) where
  settled-installed :
      (t : Topology) (r : Result (Unit {0}) × SmartClient)
      → finished (settled int_of t r) ≡ installed int_of t r
  settled-installed t (err error, s) = refl
  settled-installed t (ok _, s) =
      ap (λ u. (ok tt, u)) (detach-sweep (record s { topology = t; ready = true }))

  unless :
      (closed : Bool) (r : Result (List ℕ) × SmartClient) (r' : Result (Unit {0}) × SmartClient)
      (s : SmartClient)
      → finished r ≡ r'
      → finished (if closed then (ok [], s) else r) ≡ (if closed then (ok tt, s) else r')
  unless true r r' s h = refl
  unless false r r' s h = h

  apply-sync :
      (t : Topology) (s : SmartClient)
      → finished (apply_topology int_of t s) ≡ Sync.apply_topology int_of t s
  unfolding apply_topology Sync.apply_topology install Sync.install
  apply-sync t s =
      unless s.closed (install int_of t s) (Sync.install int_of t s) s
        (settled-installed t (connect_all int_of t.targets (retire t.targets s)))

  module _ (ask : ℕ → String → Answers)
      (clear_cut : (n : ℕ) (address : String) → OneError (ask n address)) where
    applied-sync :
        (r : Result Topology) (s : SmartClient)
        → finished (applied int_of ask r s) ≡ Sync_refresh.applied int_of ask r s
    applied-sync (err error) s = refl
    applied-sync (ok t) s = apply-sync t s

    asked-sync :
        (address : Option String) (s : SmartClient)
        → finished (asked int_of ask address s) ≡ Sync_refresh.asked int_of ask address s
    asked-sync none s = refl
    asked-sync (some address) s =
        ap
          (λ (topology : Result Topology). finished (
            applied int_of ask topology (record s {
              coordinator_index = s.coordinator_index + 1;
              coordinator_channel = some address;
            })))
          (collected_alike (ask s.coordinator_index address)
            (clear_cut s.coordinator_index address))
        ∙ applied-sync (merge_stream (ask s.coordinator_index address)) _

    attempt-sync :
        (s : SmartClient)
        → finished (attempt_refresh int_of ask s) ≡ Sync_refresh.attempt_refresh int_of ask s
    unfolding attempt_refresh Sync_refresh.attempt_refresh
    attempt-sync s = asked-sync (turn s.coordinators s.coordinator_index) s

    retried-sync :
        (again : SmartClient → Result (List ℕ) × SmartClient)
        (again' : SmartClient → Result (Unit {0}) × SmartClient) (r : Result (List ℕ) × SmartClient)
        → ((s : SmartClient) → finished (again s) ≡ again' s)
        → finished (retried int_of ask again r)
          ≡ Sync_refresh.retried int_of ask again' (finished r)
    retried-sync again again' (ok retired, s) h = refl
    retried-sync again again' (err error, s) h = h s

    attempts-sync :
        (more : ℕ) (s : SmartClient)
        → finished (attempts int_of ask more s) ≡ Sync_refresh.attempts int_of ask more s
    unfolding attempts Sync_refresh.attempts
    attempts-sync zero s = attempt-sync s
    attempts-sync (suc more) s =
        retried-sync (attempts int_of ask more) (Sync_refresh.attempts int_of ask more)
          (attempt_refresh int_of ask s) (attempts-sync more)
        ∙ ap (Sync_refresh.retried int_of ask (Sync_refresh.attempts int_of ask more))
            (attempt-sync s)

    numbered-sync :
        (n : ℕ) (s : SmartClient)
        → finished (numbered int_of ask n s) ≡ Sync_refresh.numbered int_of ask n s
    numbered-sync zero s = attempt-sync s
    numbered-sync (suc more) s = attempts-sync more s

-- What is left of a routed operation, with its clients closed at once.
abbrev pub returned :
    {A W : Type 0} → Result A × (List ℕ × (SmartClient × W)) → Result A × (SmartClient × W)
returned (r, (retired, (s, w))) = (r, (shutting retired s, w))

left-sync :
    {W A : Type 0} (run : Snapshot → String → SmartClient × W → Result A × (SmartClient × W))
    (r : Result A × (SmartClient × W))
    → returned (left run r) ≡ Sync.left run r
unfolding leave detach Sync.leave Sync.release Sync.shut_all
left-sync run (r, (s, w)) = refl

-- If no other task runs at the `await`s, and no stream of a coordinator both breaks off and brings
-- responses that do not merge, a refresh and a routed operation of the asynchronous smart client
-- are those of the synchronous one: the same result or error, and the same state once the clients
-- it detached are closed.
pub whole_sync :
    {W A : Type 0} (int_of : String → Option ℤ) (ask : ℕ → String → Answers)
    (run : Snapshot → String → SmartClient × W → Result A × (SmartClient × W)) (c : Call)
    (s : SmartClient) (w : W)
    → ((n : ℕ) (address : String) → OneError (ask n address))
    → (finished (refresh_once int_of ask s) ≡ Sync_refresh.refresh_once int_of ask s)
      × (returned (execute run c (s, w)) ≡ Sync.execute run c (s, w))
unfolding refresh_once Sync_refresh.refresh_once execute Sync.execute enter
whole_sync int_of ask run c s w clear_cut =
    (numbered-sync int_of ask clear_cut (length s.coordinators) s, left-sync run _)
