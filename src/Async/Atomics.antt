-- ===== src/Async/Atomics.antt =====
-- The asynchronous client: atomic numbers.
use hurricache_python_client.Base.{ℕ, String, Option, some}
use hurricache_python_client.Base.Int.{ℤ}
use hurricache_python_client.Models.{KeyHintData, CasResult, no_lock}
use hurricache_python_client.Messages.{LockInfo, AtomicRequest, atomic, atomic_cas, CasResponse}
use hurricache_python_client.Rpc.{Rpc, Reply, AtomicRpc, atomic_rpc}
use hurricache_python_client.Rpc
use hurricache_python_client.Effects.{M, pure, ◌>>=◌}
use hurricache_python_client.Operation.{Client, wrap, wrap_ttl}
use hurricache_python_client.Wire.{ttl_field, decode_hint}
use hurricache_python_client.Client.{or_unspecified}
use hurricache_python_client.Client.Requests.{Target}
use hurricache_python_client.Async.{key_of, get_of, unary}
use hurricache_python_client.Async.Values.{id_of, as_hint}

-- `request.lock_info`, which every client id gets
abbrev pub held_by : ℕ → Option LockInfo
held_by id = some (record { lock_type = no_lock; locked_by = some id })

-- the request of `_atomic`
unfoldable pub atomic_request : Client → Target → ℤ → ℕ → M AtomicRequest
unfolding key_of ttl_field
atomic_request c t value ttl = do
  key ← key_of c t
  until ← ttl_field ttl
  pure (record { key = key; val = value; ttl = until; lock_info = held_by (id_of c t) })

-- `_atomic`, of a method with the parameter `ttl`
unfoldable pub change :
    {A : Type 0} → String → (rpc : Rpc) → (Reply rpc → M A) → Client → Target → ℤ → Option ℤ → M A
unfolding wrap_ttl atomic_request unary
change name rpc decoder c t value ttl = wrap_ttl c t.timeout ttl λ milliseconds. do
  request ← atomic_request c t value milliseconds
  unary c name rpc decoder t.timeout (atomic request)

-- the operations that send a `GetRequest`
unfoldable pub load : String → AtomicRpc → Client → Target → M ℤ
unfolding wrap get_of unary
load name rpc c t =
    wrap c t.timeout do request ← get_of c t; unary c name (atomic_rpc rpc) pure t.timeout request

unfoldable pub atomic_load : Client → Target → M ℤ
unfolding load
atomic_load = load "atomic_load" Rpc.atomic_load

unfoldable pub atomic_load_and_delete : Client → Target → M ℤ
unfolding load
atomic_load_and_delete = load "atomic_load_and_delete" Rpc.atomic_load_and_delete

unfoldable pub atomic_create : Client → Target → ℤ → Option ℤ → M KeyHintData
unfolding change or_unspecified
atomic_create = change "atomic_create" Rpc.atomic_create as_hint

unfoldable pub atomic_store : Client → Target → ℤ → Option ℤ → M KeyHintData
unfolding change or_unspecified
atomic_store = change "atomic_store" Rpc.atomic_store as_hint

unfoldable pub atomic_exchange : Client → Target → ℤ → Option ℤ → M ℤ
unfolding change
atomic_exchange = change "atomic_exchange" (atomic_rpc Rpc.atomic_exchange) pure

unfoldable pub atomic_add : Client → Target → ℤ → Option ℤ → M ℤ
unfolding change
atomic_add = change "atomic_add" (atomic_rpc Rpc.atomic_add) pure

unfoldable pub atomic_sub : Client → Target → ℤ → Option ℤ → M ℤ
unfolding change
atomic_sub = change "atomic_sub" (atomic_rpc Rpc.atomic_sub) pure

unfoldable pub atomic_or : Client → Target → ℤ → Option ℤ → M ℤ
unfolding change
atomic_or = change "atomic_or" (atomic_rpc Rpc.atomic_or) pure

unfoldable pub atomic_and : Client → Target → ℤ → Option ℤ → M ℤ
unfolding change
atomic_and = change "atomic_and" (atomic_rpc Rpc.atomic_and) pure

unfoldable pub atomic_xor : Client → Target → ℤ → Option ℤ → M ℤ
unfolding change
atomic_xor = change "atomic_xor" (atomic_rpc Rpc.atomic_xor) pure

-- `lambda r: CasResult(…)`
abbrev as_result : CasResponse → M CasResult
as_result response = pure (record {
  success = response.result;
  expected_value = response.expected;
  hint = decode_hint response.hint_field;
})

unfoldable pub atomic_compare_and_set : Client → Target → ℤ → ℤ → Option ℤ → M CasResult
unfolding wrap_ttl key_of ttl_field unary decode_hint
atomic_compare_and_set c t expected_value new_value ttl = wrap_ttl c t.timeout ttl λ milliseconds.
    do
      key ← key_of c t
      until ← ttl_field milliseconds
      unary c "atomic_compare_and_set" Rpc.atomic_compare_and_set as_result t.timeout (
          atomic_cas (record {
            key = key;
            expected = expected_value;
            to_set = new_value;
            ttl = until;
            lock_info = held_by (id_of c t);
          }))
