-- ===== src/Operation/Limits.antt =====
-- The bounds that deadlines and lock durations obey.
use hurricache_python_client.Base.{ℕ, ◌+◌, ◌*◌, ◌/◌, ◌^◌, ◌≤◌, ◌<◌, ◌≡◌, Option, none, some, arith}
use hurricache_python_client.Base.Int.{pos}
use hurricache_python_client.Effects.{Env, World, Seconds, finite}
use hurricache_python_client.Effects.Ensures.{Holds}
use hurricache_python_client.Operation.{remaining, lock_expiration}

-- The timeout of a request sent at `now`: it ends neither after the deadline nor after the
-- caller's own timeout.
abbrev pub Fits : ℕ → ℕ → ℕ → Option Seconds → Type 0
Fits now end timeout (some (finite (pos k))) = (now < end) × (now + k ≤ end) × (k ≤ timeout)
Fits now end timeout _ = ⊥

-- The second in which the moment `millis` falls, if it fits 32 bits; none for no duration.
abbrev pub ExpiresAt : ℕ → ℕ → Option ℕ → Type 0
ExpiresAt duration millis none = duration ≡ 0
ExpiresAt duration millis (some seconds) =
    (0 < duration)
    × (seconds < 2 ^ 32)
    × (seconds * 1000 ≤ millis)
    × (millis < seconds * 1000 + 1000)

-- Under a deadline, the timeout of a request ends by the deadline and is at most the caller's own;
-- a timeout is only given before the deadline.
pub remaining-Fits :
    (env : Env) (w : World) (end timeout : ℕ)
    → w.deadline ≡ some end
    → Holds
        (Fits (env.monotonic w.monotonic_readings) end timeout)
        (remaining (some (finite (pos timeout))) env w).0
unfolding remaining
remaining-Fits env w end timeout d = ground arith

-- The expiration of a lock is absent only for the duration 0, fits 32 bits, and is the second in
-- which the wall clock plus the duration falls.
pub lock_expiration-ExpiresAt :
    (env : Env) (w : World) (duration : ℕ)
    → Holds
        (ExpiresAt duration (env.wall_millis w.wall_readings + duration / 1000))
        (lock_expiration (finite (pos duration)) env w).0
unfolding lock_expiration
lock_expiration-ExpiresAt env w duration = ground arith
