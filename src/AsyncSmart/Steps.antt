-- ===== src/AsyncSmart/Steps.antt =====
-- The tasks of an asynchronous smart client: those that run operations, the one that refreshes the
-- topology, and the one that closes the client. A step is what a task does from one `await` to the
-- next, and the order of the steps is any.
pub mod Places
pub mod Phases
pub mod Safety
pub mod Cancelled
use hurricache_python_client.Base.{
  ℕ, ◌≡◌, String, Bool, true, false, Option, none, some, List, [], ◌∷◌, ◌++◌,
}
use hurricache_python_client.Base.Int.{ℤ}
use hurricache_python_client.Errors.{Result, ok, err}
use hurricache_python_client.Topology.{Topology}
use hurricache_python_client.Smart.{SmartClient, Snapshot, new_client, enter, begin_close}
use hurricache_python_client.AsyncSmart.{proceed, install, leave, to_shut, clear}

-- Where `close` stands: not called, at an `await` before its `gather`, at the `gather` with the
-- clients whose close is still to be called, or at its end.
pub data Closer : Type 0 where
  absent waiting : Closer
  gathering : List ℕ → Closer
  ended : Closer

-- `running` has the snapshots of the operations that await a call. `refreshing` has the clients
-- that the refreshing task still has to close, where it is at the `await` of `_apply_topology`, and
-- `leaving` those of each operation at the `await` of its `finally`. `dropped`, which the program
-- does not keep, has the clients of a loop that was cut off by a cancellation.
pub record System : Type 0 where
  pub client : SmartClient
  pub running : List Snapshot
  pub refreshing : Option (List ℕ)
  pub leaving : List (List ℕ)
  pub dropped : List ℕ
  pub closer : Closer

-- a new client, before any task did anything
abbrev pub initial : List String → System
initial coordinators = record {
  client = new_client coordinators;
  running = [];
  refreshing = none;
  leaving = [];
  dropped = [];
  closer = absent;
}

-- a task that goes on at its loop over retired clients, if it is not at the end
abbrev pub more : Option (List ℕ) → List (List ℕ) → List (List ℕ)
more none others = others
more (some rest) others = rest ∷ others

-- what a cancelled loop does not close
abbrev pub cut_off : Option (List ℕ) → List ℕ
cut_off none = []
cut_off (some rest) = rest

abbrev pub to_close : Result (List ℕ) → List ℕ
to_close (ok retired) = retired
to_close (err _) = []

module _ (int_of : String → Option ℤ) where
  pub data Step : System → System → Type 0 where
    -- the refreshing task has a topology, and goes on to the first `await client.close()`
    apply :
        (s : System) (t : Topology)
        → s.closer ≡ absent
        → s.refreshing ≡ none
        → Step s (
            let (r, client) = install int_of t s.client in
            let (rest, client') = proceed (to_close r) client in
            record s { client = client'; refreshing = rest })
    refresh :
        (s : System) (rest : List ℕ)
        → s.refreshing ≡ some rest
        → Step s (
            let (rest', client) = proceed rest s.client in
            record s { client = client; refreshing = rest' })
    start :
        (s : System)
        → Step s
            (record s { client = (enter s.client).1; running = (enter s.client).0 ∷ s.running })
    stop :
        (s : System) (before after : List Snapshot) (snapshot : Snapshot)
        → s.running ≡ before ++ snapshot ∷ after
        → Step s (
            let (retired, client) = leave s.client in
            let (rest, client') = proceed retired client in
            record s { client = client'; running = before ++ after; leaving = more rest s.leaving })
    go_on :
        (s : System) (before after : List (List ℕ)) (rest : List ℕ)
        → s.leaving ≡ before ++ rest ∷ after
        → Step s (
            let (rest', client) = proceed rest s.client in
            record s { client = client; leaving = more rest' (before ++ after) })
    -- the task of an operation is cancelled in its `finally`
    abandon :
        (s : System) (before after : List (List ℕ)) (rest : List ℕ)
        → s.leaving ≡ before ++ rest ∷ after
        → Step s (record s { leaving = before ++ after; dropped = rest ++ s.dropped })
    -- `close` cancels the refreshing task
    cancel :
        (s : System)
        → s.closer ≡ absent
        → Step s (record s {
          client = begin_close s.client;
          refreshing = none;
          dropped = cut_off s.refreshing ++ s.dropped;
          closer = waiting;
        })
    gather :
        (s : System)
        → s.closer ≡ waiting
        → Step s (record s { closer = gathering (to_shut s.client) })
    shut_next :
        (s : System) (client : ℕ) (rest : List ℕ)
        → s.closer ≡ gathering (client ∷ rest)
        → Step s (record s {
          client = record s.client { shut = client ∷ s.client.shut };
          closer = gathering rest;
        })
    close :
        (s : System)
        → s.closer ≡ gathering []
        → Step s (record s { client = clear s.client; closer = ended })

  -- the states that some steps lead to, one after the other
  pub data Run (origin : System) : System → Type 0 where
    unmoved : Run origin origin
    moved : {before after : System} → Run origin before → Step before after → Run origin after
