-- ===== src/Async/Parity.antt =====
-- Locks, TTLs and scalar values: the asynchronous operations of async_client.py are those of
-- client.py.
pub mod Numbers
pub mod Ends
pub mod Insertions
pub mod Elements
use mathlib.Core.Path.{fun_ext}
use hurricache_python_client.Base.{
  ℕ, ◌≡◌, refl, sym, ap, ◌∙◌, String, Bool, true, Option, none, some,
}
use hurricache_python_client.Base.Int.{ℤ}
use hurricache_python_client.Models.{Bytes, KeyHintData, LockType, LockStatus}
use hurricache_python_client.Errors.{Result, ok, err}
use hurricache_python_client.Messages.{
  Key, KeyHint, Value, Request, lock_request, unlock_request, ttl_request, write_request,
}
use hurricache_python_client.Rpc.{Rpc, Reply, BoolRpc, bool_rpc, ValueRpc, value_rpc}
use hurricache_python_client.Rpc
use hurricache_python_client.Effects.{Seconds, Env, World, M, pure, lift, ask, ◌>>=◌}
use hurricache_python_client.Operation.{Client, wrap, wrap_ttl, absolute_ttl, lock_expiration}
use hurricache_python_client.Wire.{ValueLike, create_value}
use hurricache_python_client.Client.{call}
use hurricache_python_client.Client.Requests.{
  Target, cid, build_key, build_get_req, read_value, read_bool, lock_status, value_of,
}
use hurricache_python_client.Client.Values.{previous}
use hurricache_python_client.Client.Values as Sync
use hurricache_python_client.Async.{key_of, get_of, unary, decode_value_response}
use hurricache_python_client.Async.Agree.{unary-call, unary-pure}
use hurricache_python_client.Async.Streaming.{
  client_id_agree, key_of-build_key, get_of-build_get_req, read-value_of,
}
use hurricache_python_client.Async.Values.{
  id_of, as_status, as_hint, as_previous, until_now, lock_object, unlock_object, set_ttl, get_ttl,
  create_key_value, get_value, get_and_delete_value, exist_key, update_value, remove,
}

-- steps that agree one by one agree bound together
pub bind_agree :
    {A B : Type 0} {m n : M A} {f g : A → M B}
    → m ≡ n
    → ((a : A) → f a ≡ g a)
    → (m >>= f) ≡ (n >>= g)
bind_agree {m} {g} e h = ap (λ k. m >>= k) (fun_ext h) ∙ ap (λ k. k >>= g) e

pub then_agree :
    {A B : Type 0} (m : M A) {f g : A → M B} → ((a : A) → f a ≡ g a) → (m >>= f) ≡ (m >>= g)
then_agree m h = ap (λ k. m >>= k) (fun_ext h)

module _ (c : Client) (t : Target) where
  pub reads_bool :
      (name : String) (rpc : BoolRpc)
      → (wrap c t.timeout (get_of c t >>= unary c name (bool_rpc rpc) pure t.timeout))
        ≡ read_bool name rpc c t
  unfolding read_bool
  reads_bool name rpc =
      ap (wrap c t.timeout)
        (bind_agree (get_of-build_get_req c t) (unary-pure c name (bool_rpc rpc) t.timeout))

  pub reads_value :
      (name : String) (rpc : ValueRpc)
      → (wrap c t.timeout
          (get_of c t >>= unary c name (value_rpc rpc) decode_value_response t.timeout))
        ≡ read_value name rpc c t
  unfolding read_value
  reads_value name rpc =
      ap (wrap c t.timeout) (bind_agree (get_of-build_get_req c t) (read-value_of c name rpc t))

  pub same_id : id_of c t ≡ cid c t
  same_id = client_id_agree c t.client_id

  exist_key_agree : exist_key c t ≡ Sync.exist_key c t
  unfolding exist_key Sync.exist_key
  exist_key_agree = reads_bool "exist_key" Rpc.exist_key

  get_value_agree : get_value c t ≡ Sync.get_value c t
  unfolding get_value Sync.get_value
  get_value_agree = reads_value "get_value" Rpc.get_value

  get_ttl_agree : get_ttl c t ≡ Sync.get_ttl c t
  unfolding get_ttl Sync.get_ttl
  get_ttl_agree = ap (wrap c t.timeout) (
      bind_agree (get_of-build_get_req c t)
        (unary-call c "get_ttl" Rpc.get_ttl until_now t.timeout))

  unlock_object_agree : unlock_object c t ≡ Sync.unlock_object c t
  unfolding unlock_object Sync.unlock_object
  unlock_object_agree = ap (wrap c t.timeout) (
      bind_agree (key_of-build_key c t) λ key.
        unary-call c "unlock_object" Rpc.unlock_object as_status t.timeout
          (unlock_request key (id_of c t))
        ∙ ap
            (λ id.
              call c "unlock_object" Rpc.unlock_object t.timeout (unlock_request key id)
              >>= as_status)
            same_id)

  set_ttl_agree : (ttl : Option ℤ) → set_ttl c t ttl ≡ Sync.set_ttl c t ttl
  unfolding set_ttl Sync.set_ttl
  set_ttl_agree ttl = ap (wrap_ttl c t.timeout ttl) (
      fun_ext λ milliseconds. bind_agree (key_of-build_key c t) λ key.
        then_agree (absolute_ttl milliseconds)
          λ until. unary-pure c "set_ttl" (bool_rpc Rpc.set_ttl) t.timeout (ttl_request key until))

  lock_object_agree :
      (lock_type : LockType) (duration : Seconds)
      → lock_object c t lock_type duration ≡ Sync.lock_object c t lock_type duration
  unfolding lock_object Sync.lock_object
  lock_object_agree lock_type duration = ap (wrap c t.timeout) (
      bind_agree (key_of-build_key c t) λ key. then_agree (lock_expiration duration) λ expiration.
        unary-call c "lock_object" Rpc.lock_object as_status t.timeout
          (lock_request key lock_type (id_of c t) expiration)
        ∙ ap
            (λ id.
              call c "lock_object" Rpc.lock_object t.timeout
                (lock_request key lock_type id expiration)
              >>= as_status)
            same_id)

  module _ (value : ValueLike) (ttl : Option ℤ) where
    writes :
        {A : Type 0} (name : String) (rpc : Rpc) (decoder : Reply rpc → M A)
        → (wrap_ttl c t.timeout ttl λ milliseconds. do
          key ← key_of c t
          v ← create_value value milliseconds (id_of c t) true
          unary c name rpc decoder t.timeout (write_request key v))
          ≡ (wrap_ttl c t.timeout ttl λ milliseconds. do
            key ← build_key c t
            v ← create_value value milliseconds (cid c t) true
            reply ← call c name rpc t.timeout (write_request key v)
            decoder reply)
    writes name rpc decoder = ap (wrap_ttl c t.timeout ttl) (
        fun_ext λ milliseconds. bind_agree (key_of-build_key c t) λ key.
          bind_agree (ap (λ id. create_value value milliseconds id true) same_id)
            λ v. unary-call c name rpc decoder t.timeout (write_request key v))

    create_key_value_agree : create_key_value c t value ttl ≡ Sync.create_key_value c t value ttl
    unfolding create_key_value Sync.create_key_value
    create_key_value_agree = writes "create_key_value" Rpc.create_key_value as_hint

    update_value_agree : update_value c t value ttl ≡ Sync.update_value c t value ttl
    unfolding update_value Sync.update_value
    update_value_agree =
        writes "update_value" Rpc.update_value as_previous
        ∙ ap
            (λ (k : Option Value → M Bytes). wrap_ttl c t.timeout ttl λ milliseconds. do
              key ← build_key c t
              v ← create_value value milliseconds (cid c t) true
              reply ← call c "update_value" Rpc.update_value t.timeout (write_request key v)
              k reply)
            (fun_ext same_previous)
      where
        same_previous : (reply : Option Value) → as_previous reply ≡ previous reply
        same_previous none = refl
        same_previous (some value) = refl

  remove_agree : remove c t ≡ Sync.remove c t
  unfolding remove Sync.remove
  remove_agree = reads_bool "remove" Rpc.remove

  get_and_delete_value_agree : get_and_delete_value c t ≡ Sync.get_and_delete_value c t
  unfolding get_and_delete_value Sync.get_and_delete_value
  get_and_delete_value_agree = reads_value "get_and_delete_value" Rpc.get_and_delete_value

  -- The asynchronous operations that create, update, read, test or delete a value, set or read a
  -- TTL, remove a key, lock or unlock are the synchronous ones, for all arguments.
  pub values_agree :
      (value : ValueLike) (ttl : Option ℤ) (lock_type : LockType) (duration : Seconds)
      → (create_key_value c t value ttl ≡ Sync.create_key_value c t value ttl)
        × (update_value c t value ttl ≡ Sync.update_value c t value ttl)
        × (set_ttl c t ttl ≡ Sync.set_ttl c t ttl)
        × (get_ttl c t ≡ Sync.get_ttl c t)
        × (lock_object c t lock_type duration ≡ Sync.lock_object c t lock_type duration)
        × (unlock_object c t ≡ Sync.unlock_object c t)
        × (exist_key c t ≡ Sync.exist_key c t)
        × (get_value c t ≡ Sync.get_value c t)
        × (get_and_delete_value c t ≡ Sync.get_and_delete_value c t)
        × (remove c t ≡ Sync.remove c t)
  values_agree value ttl lock_type duration = (
    create_key_value_agree value ttl,
    update_value_agree value ttl,
    set_ttl_agree ttl,
    get_ttl_agree,
    lock_object_agree lock_type duration,
    unlock_object_agree,
    exist_key_agree,
    get_value_agree,
    get_and_delete_value_agree,
    remove_agree,
  )
