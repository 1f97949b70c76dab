-- ===== src/Routing/Attempts.antt =====
-- What `_execute` tries, and when.
use hurricache_python_client.Base.{
  ℕ, ◌+◌, ◌≤◌, ◌<◌, String, Option, none, some, List, [], ◌∷◌, arith, length,
}
use hurricache_python_client.Models.{KeyHintData}
use hurricache_python_client.Errors.{Error, Result, ok, err}
use hurricache_python_client.Routing.{shard, retry_at, again, settle, attempt}

-- Where there is a shard, the shard chosen for a hint, or for none, is one of the topology's.
pub shard-lt :
    (max_shards counter : ℕ) (hint : Option KeyHintData)
    → 0 < max_shards
    → ((shard max_shards counter hint).0 < max_shards)
unfolding shard
shard-lt max_shards counter hint h = grind arith

-- The calls that a run makes, in order.
abbrev pub Log : Type 0
Log = List String

-- an endpoint whose calls are logged, with the answers of any oracle that sees the log
abbrev pub logged : {A : Type 0} → (Log → String → Result A) → String → Log → Result A × Log
logged answer endpoint log = (answer log endpoint, endpoint ∷ log)

module _ {A : Type 0} (answer : Log → String → Result A) (clients : List String) where
  again_calls :
      (target : Option String) (error : Error) (log : Log)
      → length (again (logged answer) target error log).1 ≤ length log + 1
  again_calls none error log = omega arith
  again_calls (some other) error log = omega arith

  settle_calls :
      (endpoint : String) (others : List String) (r : Result A) (log : Log)
      → length (settle (logged answer) clients endpoint others r log).1 ≤ length log + 1
  unfolding settle
  settle_calls endpoint others (ok a) log = omega arith
  settle_calls endpoint others (err error) log =
      again_calls (retry_at clients endpoint others error) error log

  -- However the endpoints answer, one routed operation calls at most two of them.
  pub attempt_calls-le :
      (targets : List String) → length (attempt (logged answer) clients targets []).1 ≤ 2
  unfolding attempt
  attempt_calls-le [] = omega arith
  attempt_calls-le (endpoint ∷ others) =
      settle_calls endpoint others (answer [] endpoint) (endpoint ∷ [])
