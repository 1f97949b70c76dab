-- ===== src/Async/Values.antt =====
-- The asynchronous client: locks, TTLs and scalar values.
use hurricache_python_client.Base.{ℕ, Bool, true, Option, none, some, []}
use hurricache_python_client.Base.Int.{ℤ, negsuc, sub_ℕ}
use hurricache_python_client.Models.{Bytes, KeyHintData, LockType, LockStatus}
use hurricache_python_client.Messages.{
  KeyHint, Value, lock_request, unlock_request, ttl_request, write_request,
}
use hurricache_python_client.Rpc
use hurricache_python_client.Rpc.{bool_rpc, value_rpc}
use hurricache_python_client.Effects.{Seconds, M, pure, lift, ask, ◌>>=◌, wall_now}
use hurricache_python_client.Operation.{Client, wrap, wrap_ttl, absolute_ttl, lock_expiration}
use hurricache_python_client.Wire.{ValueLike, create_value, decode_value, decode_hint}
use hurricache_python_client.Client.{or_unspecified}
use hurricache_python_client.Client.Requests.{Target, lock_status}
use hurricache_python_client.Async.{client_id, key_of, get_of, unary, decode_value_response}

abbrev pub id_of : Client → Target → ℕ
id_of c t = client_id c t.client_id

-- `lambda r: LockStatus(r.result)`
abbrev pub as_status : ℕ → M LockStatus
as_status result = lift (lock_status result)

-- `lambda r: decode_hint(r) or KeyHintData.unspecified()`
abbrev pub as_hint : Option KeyHint → M KeyHintData
as_hint reply = pure (or_unspecified (decode_hint reply))

-- `lambda r: decode_value(r.value) if r.HasField("value") else b""`
abbrev pub as_previous : Option Value → M Bytes
as_previous none = pure []
as_previous (some value) = do env ← ask; lift (decode_value env value)

unfoldable pub lock_object : Client → Target → LockType → Seconds → M LockStatus
unfolding wrap key_of unary lock_status lock_expiration
lock_object c t lock_type lock_duration = wrap c t.timeout do
  key ← key_of c t
  expiration ← lock_expiration lock_duration
  unary c "lock_object" Rpc.lock_object as_status t.timeout
      (lock_request key lock_type (id_of c t) expiration)

unfoldable pub unlock_object : Client → Target → M LockStatus
unfolding wrap key_of unary lock_status
unlock_object c t = wrap c t.timeout do
  key ← key_of c t
  unary c "unlock_object" Rpc.unlock_object as_status t.timeout (unlock_request key (id_of c t))

unfoldable pub set_ttl : Client → Target → Option ℤ → M Bool
unfolding wrap_ttl key_of unary absolute_ttl
set_ttl c t ttl = wrap_ttl c t.timeout ttl λ milliseconds. do
  key ← key_of c t
  until ← absolute_ttl milliseconds
  unary c "set_ttl" (bool_rpc Rpc.set_ttl) pure t.timeout (ttl_request key until)

-- `decode` of `get_ttl`
abbrev pub until_now : Option ℕ → M ℤ
until_now none = pure (negsuc 0)
until_now (some ttl) = do now ← wall_now; pure (sub_ℕ ttl now)

unfoldable pub get_ttl : Client → Target → M ℤ
unfolding wrap get_of unary
get_ttl c t =
    wrap c t.timeout
      do request ← get_of c t; unary c "get_ttl" Rpc.get_ttl until_now t.timeout request

unfoldable pub create_key_value : Client → Target → ValueLike → Option ℤ → M KeyHintData
unfolding wrap_ttl key_of create_value unary or_unspecified
create_key_value c t value ttl = wrap_ttl c t.timeout ttl λ milliseconds. do
  key ← key_of c t
  v ← create_value value milliseconds (id_of c t) true
  unary c "create_key_value" Rpc.create_key_value as_hint t.timeout (write_request key v)

unfoldable pub get_value : Client → Target → M Bytes
unfolding wrap get_of unary decode_value_response
get_value c t = wrap c t.timeout do
  request ← get_of c t
  unary c "get_value" (value_rpc Rpc.get_value) decode_value_response t.timeout request

unfoldable pub get_and_delete_value : Client → Target → M Bytes
unfolding wrap get_of unary decode_value_response
get_and_delete_value c t = wrap c t.timeout do
  request ← get_of c t
  unary c "get_and_delete_value" (value_rpc Rpc.get_and_delete_value) decode_value_response
      t.timeout request

unfoldable pub exist_key : Client → Target → M Bool
unfolding wrap get_of unary
exist_key c t =
    wrap c t.timeout
      do request ← get_of c t; unary c "exist_key" (bool_rpc Rpc.exist_key) pure t.timeout request

unfoldable pub update_value : Client → Target → ValueLike → Option ℤ → M Bytes
unfolding wrap_ttl key_of create_value unary
update_value c t value ttl = wrap_ttl c t.timeout ttl λ milliseconds. do
  key ← key_of c t
  v ← create_value value milliseconds (id_of c t) true
  unary c "update_value" Rpc.update_value as_previous t.timeout (write_request key v)

unfoldable pub remove : Client → Target → M Bool
unfolding wrap get_of unary
remove c t =
    wrap c t.timeout
      do request ← get_of c t; unary c "remove" (bool_rpc Rpc.remove) pure t.timeout request
