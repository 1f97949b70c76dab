-- ===== src/Smart/Steps.antt =====
-- The threads of a smart client as steps: those that run operations, the one that refreshes the
-- topology, and the one that closes the client. A step is a section under the lock, or one close of
-- a client in a loop behind such a section or, in the close of the smart client, under the lock. The
-- order of the steps is any that the lock allows.
pub mod Phases
pub mod Operations
pub mod Safety
use hurricache_python_client.Base.{
  ℕ, ◌≡◌, String, Bool, false, Option, none, some, List, [], ◌∷◌, ◌++◌,
}
use hurricache_python_client.Base.Int.{ℤ}
use hurricache_python_client.Topology.{Topology}
use hurricache_python_client.Smart.{
  SmartClient, Snapshot, new_client, install, enter, release, shut_all, begin_close, to_shut, clear,
  reset_retired,
}

-- Where the close of the smart client stands: not called, before it takes the lock, under the lock
-- with the clients that it still has to close, behind the lock, or at its end.
pub data Closer : Type 0 where
  absent joining : Closer
  shutting : List ℕ → Closer
  cleared ended : Closer

-- The close of the smart client does not hold the lock.
abbrev pub IsFree : Closer → Type 0
IsFree absent = Unit
IsFree joining = Unit
IsFree (shutting _) = ⊥
IsFree cleared = Unit
IsFree ended = Unit

-- `running` has the snapshots of the operations between their two sections under the lock, and
-- `leaving` what each operation behind its last section still has to close. `pending` is the
-- topology that the refreshing thread has after it saw that the client is not closed.
pub record System : Type 0 where
  pub client : SmartClient
  pub running : List Snapshot
  pub leaving : List (List ℕ)
  pub pending : Option Topology
  pub closer : Closer

-- a new client, before any thread did anything
abbrev pub initial : List String → System
initial coordinators = record {
  client = new_client coordinators;
  running = [];
  leaving = [];
  pending = none;
  closer = absent;
}

module _ (int_of : String → Option ℤ) where
  pub data Step : System → System → Type 0 where
    accept :
        (s : System) (t : Topology)
        → s.client.closed ≡ false
        → s.pending ≡ none
        → Step s (record s { pending = some t })
    apply :
        (s : System) (t : Topology)
        → IsFree s.closer
        → s.pending ≡ some t
        → Step s (record s { client = (install int_of t s.client).1; pending = none })
    start :
        (s : System)
        → IsFree s.closer
        → Step s
            (record s { client = (enter s.client).1; running = (enter s.client).0 ∷ s.running })
    stop :
        (s : System) (before after : List Snapshot) (snapshot : Snapshot)
        → IsFree s.closer
        → s.running ≡ before ++ snapshot ∷ after
        → Step s (record s {
          client = (release s.client).1;
          running = before ++ after;
          leaving = (release s.client).0 ∷ s.leaving;
        })
    -- the next client of the loop at the end of an operation
    shut_left :
        (s : System) (before after : List (List ℕ)) (client : ℕ) (rest : List ℕ)
        → s.leaving ≡ before ++ (client ∷ rest) ∷ after
        → Step s (record s {
          client = shut_all (client ∷ []) s.client;
          leaving = before ++ rest ∷ after;
        })
    gone :
        (s : System) (before after : List (List ℕ))
        → s.leaving ≡ before ++ [] ∷ after
        → Step s (record s { leaving = before ++ after })
    closing :
        (s : System)
        → s.client.closed ≡ false
        → s.closer ≡ absent
        → Step s (record s { client = begin_close s.client; closer = joining })
    -- the refreshing thread was joined
    lock :
        (s : System)
        → s.closer ≡ joining
        → s.pending ≡ none
        → Step s (record s { closer = shutting (to_shut s.client) })
    shut_next :
        (s : System) (client : ℕ) (rest : List ℕ)
        → s.closer ≡ shutting (client ∷ rest)
        → Step s (record s { client = shut_all (client ∷ []) s.client; closer = shutting rest })
    unlock :
        (s : System)
        → s.closer ≡ shutting []
        → Step s (record s { client = clear s.client; closer = cleared })
    reset :
        (s : System)
        → s.closer ≡ cleared
        → Step s (record s { client = reset_retired s.client; closer = ended })

  -- the states that some steps lead to, one after the other
  pub data Run (origin : System) : System → Type 0 where
    unmoved : Run origin origin
    moved : {before after : System} → Run origin before → Step before after → Run origin after
