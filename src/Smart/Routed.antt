-- ===== src/Smart/Routed.antt =====
-- A routed operation from its call to its end: `_execute` of a smart client, in the scope of its
-- deadline and with the wait for a topology before it.
pub mod Scope
use hurricache_python_client.Base.{ℕ, String, Bool, true, false, Option, none, some, if◌then◌else◌}
use hurricache_python_client.Errors.{Error, Result, ok, err, timeout_error}
use hurricache_python_client.Effects.{Seconds, Env, World, M, ◌>>=◌}
use hurricache_python_client.Operation.{Client, operation, remaining}
use hurricache_python_client.Smart.{SmartClient, Snapshot, Call, execute}

abbrev pub not_ready : Error
not_ready = timeout_error "HurriCache topology was not ready before the readiness timeout"

-- `wait` waits for the event that a topology is there, and tells whether it came; what other threads
-- do meanwhile to the smart client is part of it. `readiness` is the client's own timeout.
module _ {A : Type 0} (client : Client) (readiness : Seconds)
    (wait : Seconds → SmartClient → Bool × SmartClient)
    (run : Snapshot → String → SmartClient × World → Result A × (SmartClient × World)) where
  abbrev or_own : Option Seconds → Seconds
  or_own none = readiness
  or_own (some timeout) = timeout

  unfoldable pub wait_until_ready : Option Seconds → SmartClient → Result (Unit {0}) × SmartClient
  wait_until_ready timeout s =
      let (there, s') = wait (or_own timeout) s in (if there then ok tt else err not_ready, s')

  abbrev pub when_ready :
      Call → World → Result (Unit {0}) × SmartClient → Result A × (SmartClient × World)
  when_ready c w (err error, s) = (err error, (s, w))
  when_ready c w (ok _, s) = execute run c (s, w)

  -- the body of the operation, whose own result is a value here, with the smart client
  unfoldable pub body : Call → SmartClient → M (Result A × SmartClient)
  unfolding remaining wait_until_ready execute
  body c s = remaining (some readiness) >>= λ timeout env w.
      let (r, (s', w')) = when_ready c w (wait_until_ready timeout s) in (ok (r, s'), w')

  abbrev pub outcome :
      SmartClient → Result (Result A × SmartClient) × World → Result A × (SmartClient × World)
  outcome s (err error, w) = (err error, (s, w))
  outcome s (ok (r, s'), w) = (r, (s', w))

  unfoldable pub routed :
      Env → Option Seconds → Call → SmartClient × World → Result A × (SmartClient × World)
  unfolding operation body
  routed env timeout c (s, w) =
      outcome s (operation (record client { closed = s.closed }) timeout (body c s) env w)
