-- ===== src/Operation.antt =====
-- hurricache/grpc/operation.py: the deadline, the defaults and the start time that one operation
-- shares with everything that it calls.
pub mod Scope
pub mod Limits
use hurricache_python_client.Base.{
  ℕ, ◌+◌, ◌-◌, ◌/◌, String, Bool, true, false, Option, none, some, ltb, leb, ◌==◌, if◌then◌else◌,
}
use hurricache_python_client.Base.Int.{ℤ, pos, negsuc}
use hurricache_python_client.Errors.{
  Error, Result, ok, err, cancelled, deadline_exceeded, value_error,
}
use hurricache_python_client.Effects.{
  Seconds, finite, infinity, minus_infinity, nan, Context, World, M, pure, raise, ◌>>=◌, ◌>>◌,
  monotonic_now, wall_now, get_context, set_context,
}

-- The state that `configure` and the constructors give a client. `none` as timeout is `None`.
pub record Client : Type 0 where
  pub host : String
  pub port : ℕ
  pub default_client_id : ℕ
  pub default_timeout : Option Seconds
  pub default_ttl : ℕ
  pub default_compression_threshold : ℕ
  pub closed : Bool

-- `int(time.time() * 1000) if started is None else started`
unfoldable pub start_millis : Option ℕ → M ℕ
unfolding wall_now
start_millis none = wall_now
start_millis (some started) = pure started

unfoldable pub absolute_ttl : ℕ → M ℕ
unfolding start_millis
absolute_ttl ttl = do c ← get_context; started ← start_millis c.started_millis; pure (started + ttl)

-- `min(left, timeout)`: Python returns `left` unless `timeout < left`.
abbrev pub shorter : ℕ → Seconds → Seconds
shorter left (finite (pos timeout)) =
    if ltb timeout left then finite (pos timeout) else finite (pos left)
shorter left (finite (negsuc timeout)) = finite (negsuc timeout)
shorter left minus_infinity = minus_infinity
shorter left infinity = finite (pos left)
shorter left nan = finite (pos left)

-- `left if timeout is None else min(left, timeout)`
abbrev pub at_most : ℕ → Option Seconds → Seconds
at_most left none = finite (pos left)
at_most left (some timeout) = shorter left timeout

abbrev pub deadline_error : Error
deadline_error = deadline_exceeded "HurriCache operation deadline exceeded"

unfoldable pub left_of : Option ℕ → Option Seconds → M (Option Seconds)
unfolding monotonic_now
left_of none timeout = pure timeout
left_of (some end) timeout = do
  now ← monotonic_now
  if leb end now then raise deadline_error else pure (some (at_most (end - now) timeout))

unfoldable pub remaining : Option Seconds → M (Option Seconds)
unfolding left_of
remaining timeout = do c ← get_context; left_of c.deadline timeout

-- `not math.isfinite(timeout) or timeout < 0`; the number is the timeout in microseconds.
abbrev pub nonnegative : Seconds → Option ℕ
nonnegative (finite (pos t)) = some t
nonnegative _ = none

abbrev pub timeout_error : Error
timeout_error = value_error "timeout must be finite and nonnegative"

-- The validation of `timeout`, and `time.monotonic() + timeout` where no operation is running.
abbrev timed : Option ℕ → Option ℕ → M (Option ℕ)
timed none t = raise timeout_error
timed (some t) (some end) = pure (some end)
timed (some t) none = do now ← monotonic_now; pure (some (now + t))

unfoldable pub operation_deadline : Option ℕ → Option Seconds → M (Option ℕ)
unfolding monotonic_now
operation_deadline end none = pure end
operation_deadline end (some timeout) = timed (nonnegative timeout) end

-- the `finally` that resets the three variables
abbrev pub restoring : {A : Type 0} → Context → M A → M A
restoring c m env w = let (r, w') = m env w in (r, record w' { context = c })

unfoldable pub operation : {A : Type 0} → Client → Option Seconds → M A → M A
unfolding operation_deadline start_millis remaining
operation client timeout body = if client.closed then raise (cancelled "client is closed") else do
  c ← get_context
  end ← operation_deadline c.deadline timeout
  started ← start_millis c.started_millis
  restoring c do
    set_context (record {
      deadline = end;
      threshold = client.default_compression_threshold;
      started_millis = some started;
    })
    remaining none
    body

-- `isinstance(ttl, int)` holds of every ℤ.
abbrev pub natural : ℤ → Option ℕ
natural (pos n) = some n
natural (negsuc n) = none

abbrev configured : Client → Option ℕ → Option ℕ → Result Client
configured client none threshold = err (value_error "default_ttl must be a nonnegative integer")
configured client (some ttl) none =
    err (value_error "default_compression_threshold must be a nonnegative integer")
configured client (some ttl) (some threshold) =
    ok (record client {
      default_ttl = ttl;
      default_compression_threshold = threshold;
      closed = false;
    })

unfoldable pub configure : Client → ℤ → ℤ → Result Client
configure client ttl threshold = configured client (natural ttl) (natural threshold)

-- `kwargs.get("timeout", client._default_timeout)`: `none` where the call names no timeout.
abbrev pub timeout_of : Client → Option (Option Seconds) → Option Seconds
timeout_of client none = client.default_timeout
timeout_of client (some timeout) = timeout

abbrev accepted : Option ℕ → M ℕ
accepted none = raise (value_error "ttl must be a nonnegative integer")
accepted (some ttl) = pure ttl

-- the `ttl` part of `arguments`
unfoldable pub bound_ttl : Client → Option ℤ → M ℕ
bound_ttl client none = pure client.default_ttl
bound_ttl client (some ttl) = accepted (natural ttl)

-- What `operations` makes of a public method: `wrap` of one with no parameter `ttl`, `wrap_ttl` of
-- one with it.
unfoldable pub wrap : {A : Type 0} → Client → Option (Option Seconds) → M A → M A
unfolding operation
wrap client timeout method = operation client (timeout_of client timeout) method

unfoldable pub wrap_ttl :
    {A : Type 0} → Client → Option (Option Seconds) → Option ℤ → (ℕ → M A) → M A
unfolding operation bound_ttl
wrap_ttl client timeout ttl method =
    operation client (timeout_of client timeout) (do t ← bound_ttl client ttl; method t)

abbrev in_uint32 : ℕ → M (Option ℕ)
in_uint32 seconds =
    if leb seconds 0xFFFFFFFF
    then pure (some seconds)
    else raise (value_error "lock expiration exceeds uint32")

abbrev lock_seconds : Option ℕ → M (Option ℕ)
lock_seconds none = raise (value_error "lock duration must be finite and nonnegative")
lock_seconds (some duration) =
    if duration == 0
    then pure none
    else do now ← wall_now; in_uint32 ((now + duration / 1000) / 1000)

-- `int(duration * 1000)` of a duration in microseconds is `duration / 1000`.
unfoldable pub lock_expiration : Seconds → M (Option ℕ)
unfolding wall_now
lock_expiration duration = lock_seconds (nonnegative duration)
