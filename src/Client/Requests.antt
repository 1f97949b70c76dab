-- ===== src/Client/Requests.antt =====
-- The parts that the operations of hurricache/grpc/client.py share: the client id, the key, the
-- reading of a reply.
use hurricache_python_client.Base.{
  ℕ, suc, zero, String, Bool, true, Option, none, some, List, [], ◌∷◌,
}
use hurricache_python_client.Models.{
  Bytes, KeyHintData, LockStatus, lock_ok, cant_lock, cant_unlock, generic_error,
}
use hurricache_python_client.Errors.{Result, ok, err, key_not_found, value_error, Collection}
use hurricache_python_client.Messages.{Key, Value, Request, ValueResponse}
use hurricache_python_client.Rpc.{ValueRpc, value_rpc, BoolRpc, bool_rpc, Stream}
use hurricache_python_client.Effects.{Seconds, Env, M, pure, lift, ask, ◌>>=◌}
use hurricache_python_client.Operation.{Client, wrap}
use hurricache_python_client.Wire.{
  Raw, bytes_like, text, other_object, create_key, build_get_request, decode_value,
  decode_ordered_value,
}
use hurricache_python_client.Streams.{collect_stream}
use hurricache_python_client.Client.{call}

-- The arguments that every operation takes: `key`, `hint`, `client_id`, and the keyword `timeout`.
pub record Target : Type 0 where
  pub key : Raw
  pub hint : Option KeyHintData
  pub client_id : Option ℕ
  pub timeout : Option (Option Seconds)

-- `_resolve_client_id`
unfoldable pub resolve_client_id : Client → Option ℕ → ℕ
resolve_client_id c none = c.default_client_id
resolve_client_id c (some zero) = c.default_client_id
resolve_client_id c (some (suc n)) = suc n

-- the client id of a call
abbrev pub cid : Client → Target → ℕ
cid c t = resolve_client_id c t.client_id

-- `_build_key`
unfoldable pub build_key : Client → Target → M Key
unfolding resolve_client_id create_key
build_key c t = create_key t.key t.hint (resolve_client_id c t.client_id) true

-- `_build_get_req`
unfoldable pub build_get_req : Client → Target → M Request
unfolding resolve_client_id build_get_request
build_get_req c t = build_get_request t.key t.hint (resolve_client_id c t.client_id)

-- `_extract_value`
unfoldable pub extract_value : Env → Option Value → ValueResponse → Result Bytes
extract_value env none response = elim response.value_ordered [
  | none ↦ err (key_not_found [] "Value response is empty")
  | some value ↦ decode_ordered_value env value
]
extract_value env (some value) response = decode_value env value

-- `[f(x) for x in xs]`
unfoldable pub each : {A B : Type 0} → (A → M B) → List A → M (List B)
each f [] = pure []
each f (x ∷ xs) = do y ← f x; ys ← each f xs; pure (y ∷ ys)

-- `xs or []`
abbrev pub or_nil : {A : Type 0} → Option (List A) → List A
or_nil none = []
or_nil (some xs) = xs

-- `key.encode() if isinstance(key, str) else key`
abbrev pub error_key : Env → Raw → Bytes
error_key env (bytes_like b) = b
error_key env (text s) = env.encode s
error_key env other_object = []

-- a request that is sent, and whose `ValueResponse` is read
unfoldable pub value_of : Client → String → ValueRpc → Target → Request → M Bytes
unfolding call extract_value
value_of c name rpc t request = do
  response ← call c name (value_rpc rpc) t.timeout request
  env ← ask
  lift (extract_value env response.value_unordered response)

-- the operations that send a `GetRequest` and read a value
unfoldable pub read_value : String → ValueRpc → Client → Target → M Bytes
unfolding wrap build_get_req value_of
read_value name rpc c t =
    wrap c t.timeout (do request ← build_get_req c t; value_of c name rpc t request)

-- the operations that send a `GetRequest` and read a `BoolResponse`
unfoldable pub read_bool : String → BoolRpc → Client → Target → M Bool
unfolding wrap build_get_req call
read_bool name rpc c t =
    wrap c t.timeout (do request ← build_get_req c t; call c name (bool_rpc rpc) t.timeout request)

-- the batches of a stream that a request opened
unfoldable pub stream_of : String → Target → Stream → M Collection
unfolding collect_stream
stream_of name t stream = do env ← ask; collect_stream name stream (error_key env t.key)

-- `LockStatus(response.result)`
unfoldable pub lock_status : ℕ → Result LockStatus
lock_status zero = ok lock_ok
lock_status (suc zero) = ok cant_lock
lock_status (suc (suc zero)) = ok cant_unlock
lock_status (suc (suc (suc zero))) = ok generic_error
lock_status _ = err (value_error "not a valid LockStatus")
