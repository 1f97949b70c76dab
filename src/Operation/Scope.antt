-- ===== src/Operation/Scope.antt =====
-- What an operation does to the context variables, and what the code inside it sees.
use hurricache_python_client.Base.{ℕ, ◌+◌, ◌≡◌, Option, none, some, arith}
use hurricache_python_client.Effects.{
  Env, World, Context, Seconds, finite, M, get_context, set_context, monotonic_now,
}
use hurricache_python_client.Base.Int.{pos}
use hurricache_python_client.Errors.{ok}
use hurricache_python_client.Effects.Ensures.{
  Holds, Ensures, Ensures-if, Ensures-raise, Ensures-then,
}
use hurricache_python_client.Operation.{
  Client, operation, operation_deadline, start_millis, remaining, absolute_ttl,
}

-- An operation, whether it returns or raises, and whatever its body does, leaves the context
-- variables as they were.
pub operation-restores :
    {A : Type 0} (client : Client) (timeout : Option Seconds) (body : M A) (env : Env) (w : World)
    → (operation client timeout body env w).1.context ≡ w.context
unfolding operation monotonic_now
operation-restores client timeout body env w = ground arith

-- An operation inside another keeps the deadline and the start time of the outer one, whatever its
-- own timeout; the compression threshold is its client's.
pub nested_context :
    (client : Client) (timeout : Option Seconds) (env : Env) (w : World) (end started : ℕ)
    → w.deadline ≡ some end
    → w.started_millis ≡ some started
    → Holds
        (λ (c : Context).
          (c.deadline ≡ some end)
          × (c.started_millis ≡ some started)
          × (c.threshold ≡ client.default_compression_threshold))
        (operation client timeout get_context env w).0
unfolding operation monotonic_now
nested_context client timeout env w end started d s = ground arith

-- If no deadline is set, an operation sets it to the monotonic clock plus its timeout.
pub outer_deadline :
    (client : Client) (timeout : ℕ) (env : Env) (w : World)
    → w.deadline ≡ none
    → Holds
        (λ (c : Context). c.deadline ≡ some (env.monotonic w.monotonic_readings + timeout))
        (operation client (some (finite (pos timeout))) get_context env w).0
unfolding operation monotonic_now
outer_deadline client timeout env w d = ground arith

-- Inside an operation every relative TTL is counted from the same moment: `absolute_ttl` reads no
-- clock.
pub absolute_ttl_fixed :
    (env : Env) (w : World) (started ttl : ℕ)
    → w.started_millis ≡ some started
    → absolute_ttl ttl env w ≡ (ok (started + ttl), w)
unfolding absolute_ttl
absolute_ttl_fixed env w started ttl s = ground arith

-- What the body ensures, the operation ensures.
pub operation-Ensures :
    {A : Type 0} {P : A → Type 0} (env : Env) (client : Client) (timeout : Option Seconds) (m : M A)
    → Ensures env P m
    → Ensures env P (operation client timeout m)
unfolding operation
operation-Ensures env client timeout m h =
    Ensures-if client.closed _ _ (λ _. Ensures-raise _)
      λ _. Ensures-then get_context _ λ c.
        Ensures-then (operation_deadline c.deadline timeout) _ λ end.
          Ensures-then (start_millis c.started_millis) _ λ started. record {
            at = λ w.
                (Ensures-then (set_context _) _
                    λ _. Ensures-then (remaining none) (λ _. m) (λ _. h)).at
                  w;
          }
