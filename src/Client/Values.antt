-- ===== src/Client/Values.antt =====
-- Locks, TTLs and scalar values.
use hurricache_python_client.Base.{ℕ, Bool, true, Option, none, some, []}
use hurricache_python_client.Base.Int.{ℤ, negsuc, sub_ℕ}
use hurricache_python_client.Models.{Bytes, KeyHintData, LockType, LockStatus}
use hurricache_python_client.Messages.{
  Value, lock_request, unlock_request, ttl_request, write_request,
}
use hurricache_python_client.Rpc
use hurricache_python_client.Rpc.{bool_rpc}
use hurricache_python_client.Effects.{Seconds, M, pure, lift, ask, ◌>>=◌, wall_now}
use hurricache_python_client.Operation.{Client, wrap, wrap_ttl, absolute_ttl, lock_expiration}
use hurricache_python_client.Wire.{ValueLike, create_value, decode_value, decode_hint}
use hurricache_python_client.Client.{call, or_unspecified}
use hurricache_python_client.Client.Requests.{
  Target, cid, build_key, build_get_req, read_value, read_bool, lock_status,
}

unfoldable pub lock_object : Client → Target → LockType → Seconds → M LockStatus
unfolding wrap build_key call lock_status lock_expiration
lock_object c t lock_type lock_duration = wrap c t.timeout do
  key ← build_key c t
  expiration ← lock_expiration lock_duration
  result ←
      call c "lock_object" Rpc.lock_object t.timeout
        (lock_request key lock_type (cid c t) expiration)
  lift (lock_status result)

unfoldable pub unlock_object : Client → Target → M LockStatus
unfolding wrap build_key call lock_status
unlock_object c t = wrap c t.timeout do
  key ← build_key c t
  result ← call c "unlock_object" Rpc.unlock_object t.timeout (unlock_request key (cid c t))
  lift (lock_status result)

unfoldable pub set_ttl : Client → Target → Option ℤ → M Bool
unfolding wrap_ttl build_key call absolute_ttl
set_ttl c t ttl = wrap_ttl c t.timeout ttl λ milliseconds. do
  key ← build_key c t
  until ← absolute_ttl milliseconds
  call c "set_ttl" (bool_rpc Rpc.set_ttl) t.timeout (ttl_request key until)

-- `response.ttl - now`, or -1 where there is no TTL
abbrev left_until : Option ℕ → M ℤ
left_until none = pure (negsuc 0)
left_until (some ttl) = do now ← wall_now; pure (sub_ℕ ttl now)

unfoldable pub get_ttl : Client → Target → M ℤ
unfolding wrap build_get_req call
get_ttl c t = wrap c t.timeout do
  request ← build_get_req c t
  response ← call c "get_ttl" Rpc.get_ttl t.timeout request
  left_until response

unfoldable pub create_key_value : Client → Target → ValueLike → Option ℤ → M KeyHintData
unfolding wrap_ttl build_key create_value call or_unspecified
create_key_value c t value ttl = wrap_ttl c t.timeout ttl λ milliseconds. do
  key ← build_key c t
  v ← create_value value milliseconds (cid c t) true
  response ← call c "create_key_value" Rpc.create_key_value t.timeout (write_request key v)
  pure (or_unspecified (decode_hint response))

unfoldable pub get_value : Client → Target → M Bytes
unfolding read_value
get_value = read_value "get_value" Rpc.get_value

unfoldable pub get_and_delete_value : Client → Target → M Bytes
unfolding read_value
get_and_delete_value = read_value "get_and_delete_value" Rpc.get_and_delete_value

unfoldable pub exist_key : Client → Target → M Bool
unfolding read_bool
exist_key = read_bool "exist_key" Rpc.exist_key

-- the previous value, or `b""`
abbrev pub previous : Option Value → M Bytes
previous none = pure []
previous (some value) = do env ← ask; lift (decode_value env value)

unfoldable pub update_value : Client → Target → ValueLike → Option ℤ → M Bytes
unfolding wrap_ttl build_key create_value call
update_value c t value ttl = wrap_ttl c t.timeout ttl λ milliseconds. do
  key ← build_key c t
  v ← create_value value milliseconds (cid c t) true
  response ← call c "update_value" Rpc.update_value t.timeout (write_request key v)
  previous response

unfoldable pub remove : Client → Target → M Bool
unfolding read_bool
remove = read_bool "remove" Rpc.remove
