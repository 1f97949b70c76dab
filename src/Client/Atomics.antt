-- ===== src/Client/Atomics.antt =====
-- Atomic numbers.
use hurricache_python_client.Base.{ℕ, String, Option, none, some, ◌==◌, if◌then◌else◌}
use hurricache_python_client.Base.Int.{ℤ}
use hurricache_python_client.Models.{KeyHintData, CasResult, no_lock}
use hurricache_python_client.Messages.{LockInfo, AtomicRequest, atomic, atomic_cas}
use hurricache_python_client.Rpc.{AtomicRpc, atomic_rpc}
use hurricache_python_client.Rpc
use hurricache_python_client.Effects.{M, pure, ◌>>=◌}
use hurricache_python_client.Operation.{Client, wrap, wrap_ttl}
use hurricache_python_client.Wire.{ttl_field, decode_hint}
use hurricache_python_client.Client.{call, or_unspecified}
use hurricache_python_client.Client.Requests.{Target, cid, build_key, build_get_req}

-- the operations that send a `GetRequest`
unfoldable pub read_atomic : String → AtomicRpc → Client → Target → M ℤ
unfolding wrap build_get_req call
read_atomic name rpc c t =
    wrap c t.timeout do request ← build_get_req c t; call c name (atomic_rpc rpc) t.timeout request

unfoldable pub atomic_load : Client → Target → M ℤ
unfolding read_atomic
atomic_load = read_atomic "atomic_load" Rpc.atomic_load

unfoldable pub atomic_load_and_delete : Client → Target → M ℤ
unfolding read_atomic
atomic_load_and_delete = read_atomic "atomic_load_and_delete" Rpc.atomic_load_and_delete

-- `if cid != 0`: the lock owner
abbrev pub owner : ℕ → Option LockInfo
owner id = if id == 0 then none else some (record { lock_type = no_lock; locked_by = some id })

-- `cache_pb2.AtomicCreate(…)` with its TTL and its owner
unfoldable pub atomic_request : Client → Target → ℤ → ℕ → M AtomicRequest
unfolding build_key ttl_field
atomic_request c t value ttl = do
  key ← build_key c t
  until ← ttl_field ttl
  pure (record { key = key; val = value; ttl = until; lock_info = owner (cid c t) })

unfoldable pub atomic_create : Client → Target → ℤ → Option ℤ → M KeyHintData
unfolding wrap_ttl atomic_request call or_unspecified
atomic_create c t value ttl = wrap_ttl c t.timeout ttl λ milliseconds. do
  request ← atomic_request c t value milliseconds
  response ← call c "atomic_create" Rpc.atomic_create t.timeout (atomic request)
  pure (or_unspecified (decode_hint response))

-- the operations that send an `AtomicCreate` and return a number
unfoldable pub change_atomic : String → AtomicRpc → Client → Target → ℤ → Option ℤ → M ℤ
unfolding wrap_ttl atomic_request call
change_atomic name rpc c t value ttl = wrap_ttl c t.timeout ttl λ milliseconds. do
  request ← atomic_request c t value milliseconds
  call c name (atomic_rpc rpc) t.timeout (atomic request)

unfoldable pub atomic_store : Client → Target → ℤ → Option ℤ → M KeyHintData
unfolding wrap_ttl atomic_request call or_unspecified
atomic_store c t value ttl = wrap_ttl c t.timeout ttl λ milliseconds. do
  request ← atomic_request c t value milliseconds
  response ← call c "atomic_store" Rpc.atomic_store t.timeout (atomic request)
  pure (or_unspecified (decode_hint response))

unfoldable pub atomic_exchange : Client → Target → ℤ → Option ℤ → M ℤ
unfolding change_atomic
atomic_exchange = change_atomic "atomic_exchange" Rpc.atomic_exchange

unfoldable pub atomic_add : Client → Target → ℤ → Option ℤ → M ℤ
unfolding change_atomic
atomic_add = change_atomic "atomic_add" Rpc.atomic_add

unfoldable pub atomic_sub : Client → Target → ℤ → Option ℤ → M ℤ
unfolding change_atomic
atomic_sub = change_atomic "atomic_sub" Rpc.atomic_sub

unfoldable pub atomic_or : Client → Target → ℤ → Option ℤ → M ℤ
unfolding change_atomic
atomic_or = change_atomic "atomic_or" Rpc.atomic_or

unfoldable pub atomic_and : Client → Target → ℤ → Option ℤ → M ℤ
unfolding change_atomic
atomic_and = change_atomic "atomic_and" Rpc.atomic_and

unfoldable pub atomic_xor : Client → Target → ℤ → Option ℤ → M ℤ
unfolding change_atomic
atomic_xor = change_atomic "atomic_xor" Rpc.atomic_xor

unfoldable pub atomic_compare_and_set : Client → Target → ℤ → ℤ → Option ℤ → M CasResult
unfolding wrap_ttl build_key ttl_field call decode_hint
atomic_compare_and_set c t expected_value new_value ttl = wrap_ttl c t.timeout ttl λ milliseconds.
    do
      key ← build_key c t
      until ← ttl_field milliseconds
      response ← call c "atomic_compare_and_set" Rpc.atomic_compare_and_set t.timeout (
          atomic_cas (record {
            key = key;
            expected = expected_value;
            to_set = new_value;
            ttl = until;
            lock_info = owner (cid c t);
          }))
      pure (record {
        success = response.result;
        expected_value = response.expected;
        hint = decode_hint response.hint_field;
      })
