-- ===== src/Effects.antt =====
-- The effects of the client as explicit state: the context variables of
-- hurricache/grpc/operation.py, the clocks, and the requests sent so far.
pub mod Ensures
pub mod Yields
use hurricache_python_client.Base.{
  ℕ, suc, ◌+◌, ◌≡◌, refl, String, Option, none, List, [], ◌∷◌, arith,
}
use hurricache_python_client.Base.Int.{ℤ}
use hurricache_python_client.Errors.{Error, Result, ok, err}
use hurricache_python_client.Models.{Bytes}
use hurricache_python_client.Messages.{Request}
use hurricache_python_client.Rpc.{Rpc, Reply, Outcome}

-- A Python `float` of seconds: a whole number of microseconds, or one of the values that
-- `math.isfinite` refuses. The rounding of floats is not modelled.
pub data Seconds : Type 0 where
  finite : ℤ → Seconds
  infinity minus_infinity nan : Seconds

-- One request on the wire, with the timeout that it carries.
pub record Sent : Type 0 where
  pub rpc : Rpc
  pub request : Request
  pub timeout : Option Seconds

-- What the client does not implement. The server is a function of the requests sent before, and
-- each clock a function of the number of its readings so far, so that the theorems, which hold
-- for every `Env`, hold for every behaviour of the server and the clocks.
pub record Env : Type 0 where
  pub server : List Sent → (rpc : Rpc) → Request → Outcome (Reply rpc)
  -- `time.monotonic()`, in microseconds
  pub monotonic : ℕ → ℕ
  -- `int(time.time() * 1000)`
  pub wall_millis : ℕ → ℕ
  -- `gzip.compress(data, mtime=0)`
  pub gzip : Bytes → Bytes
  -- `gzip.GzipFile(fileobj=io.BytesIO(data)).read(n)`, `none` where it raises
  pub gunzip : Bytes → ℕ → Option Bytes
  -- `str.encode("utf-8")`
  pub encode : String → Bytes
  -- `request.ByteSize()`
  pub byte_size : Request → ℕ

-- The context variables `deadline`, `threshold` and `started_millis`.
pub record Context : Type 0 where
  pub deadline : Option ℕ
  pub threshold : ℕ
  pub started_millis : Option ℕ

-- `sent` has the latest request first.
pub record World : Type 0 where
  pub context : Context
  pub open context use *
  pub sent : List Sent
  pub monotonic_readings : ℕ
  pub wall_readings : ℕ

-- the context variables' defaults
abbrev pub start : World
start = record {
  context = record { deadline = none; threshold = 1024; started_millis = none };
  sent = [];
  monotonic_readings = 0;
  wall_readings = 0;
}

abbrev pub M : Type 0 → Type 0
M A = Env → World → Result A × World

module _ {A : Type 0} where
  abbrev pub pure : A → M A
  pure a env w = (ok a, w)

  abbrev pub raise : Error → M A
  raise e env w = (err e, w)

  abbrev pub lift : Result A → M A
  lift r env w = (r, w)

module _ {A B : Type 0} where
  abbrev pub continue : Result A → (A → M B) → M B
  continue (ok a) f env w = f a env w
  continue (err e) f env w = (err e, w)

  infixl 5 ◌>>=◌ ◌>>◌
  abbrev pub ◌>>=◌ : M A → (A → M B) → M B
  ◌>>=◌ m f env w = let (r, w') = m env w in continue r f env w'

  abbrev pub ◌>>◌ : M A → M B → M B
  m >> k = m >>= λ _. k

-- `time.monotonic()`
unfoldable pub monotonic_now : M ℕ
monotonic_now env w = (
  ok (env.monotonic w.monotonic_readings),
  record w { monotonic_readings = w.monotonic_readings + 1 },
)

-- `int(time.time() * 1000)`
unfoldable pub wall_now : M ℕ
wall_now env w =
    (ok (env.wall_millis w.wall_readings), record w { wall_readings = w.wall_readings + 1 })

abbrev pub get_context : M Context
get_context env w = (ok w.context, w)

abbrev pub set_context : Context → M (Unit {0})
set_context c env w = (ok tt, record w { context = c })

abbrev pub ask : M Env
ask env w = (ok env, w)
