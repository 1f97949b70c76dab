-- ===== src/Async/Parity/Numbers.antt =====
-- Atomic numbers: the asynchronous operations of async_client.py are those of client.py for every
-- client id but 0.
use mathlib.Core.Path.{fun_ext}
use hurricache_python_client.Base.{ℕ, ◌≡◌, refl, sym, ap, ◌∙◌, String, false, Option, ◌==◌}
use hurricache_python_client.Base.Int.{ℤ}
use hurricache_python_client.Messages.{LockInfo, atomic}
use hurricache_python_client.Rpc.{Rpc, Reply, AtomicRpc, atomic_rpc}
use hurricache_python_client.Rpc
use hurricache_python_client.Effects.{M, pure, ◌>>=◌}
use hurricache_python_client.Operation.{Client, wrap, wrap_ttl}
use hurricache_python_client.Wire.{ttl_field}
use hurricache_python_client.Client.{call}
use hurricache_python_client.Client.Requests.{Target, cid}
use hurricache_python_client.Client.Atomics as Sync
use hurricache_python_client.Client.Atomics.{owner}
use hurricache_python_client.Async.Agree.{unary-call, unary-pure}
use hurricache_python_client.Async.Streaming.{
  client_id_agree, key_of-build_key, get_of-build_get_req,
}
use hurricache_python_client.Async.Values.{id_of, as_hint}
use hurricache_python_client.Async.Atomics.{
  held_by, atomic_request, change, load, atomic_load, atomic_load_and_delete, atomic_create,
  atomic_store, atomic_exchange, atomic_add, atomic_sub, atomic_or, atomic_and, atomic_xor,
}
use hurricache_python_client.Async.Parity.{bind_agree, then_agree}

module _ (c : Client) (t : Target) where
  loads : (name : String) (rpc : AtomicRpc) → load name rpc c t ≡ Sync.read_atomic name rpc c t
  unfolding load Sync.read_atomic
  loads name rpc =
      ap (wrap c t.timeout)
        (bind_agree (get_of-build_get_req c t) (unary-pure c name (atomic_rpc rpc) t.timeout))

  -- loads
  pub loads_agree :
      (atomic_load c t ≡ Sync.atomic_load c t)
      × (atomic_load_and_delete c t ≡ Sync.atomic_load_and_delete c t)
  unfolding atomic_load Sync.atomic_load atomic_load_and_delete Sync.atomic_load_and_delete
  loads_agree = (
    loads "atomic_load" Rpc.atomic_load,
    loads "atomic_load_and_delete" Rpc.atomic_load_and_delete,
  )

  module _ (known : (cid c t == 0) ≡ false) where
    owners : held_by (id_of c t) ≡ owner (cid c t)
    owners = ap held_by (client_id_agree c t.client_id) ∙ sym (rw known refl)

    requests :
        (value : ℤ) (ttl : ℕ) → atomic_request c t value ttl ≡ Sync.atomic_request c t value ttl
    unfolding atomic_request Sync.atomic_request
    requests value ttl = bind_agree (key_of-build_key c t) λ key.
        then_agree (ttl_field ttl) λ until.
          ap
            (λ (l : Option LockInfo).
              pure (record { key = key; val = value; ttl = until; lock_info = l }))
            owners

    module _ (value : ℤ) (ttl : Option ℤ) where
      changes :
          {A : Type 0} (name : String) (rpc : Rpc) (decoder : Reply rpc → M A)
          → change name rpc decoder c t value ttl ≡ (
              wrap_ttl c t.timeout ttl λ milliseconds. do
                request ← Sync.atomic_request c t value milliseconds
                reply ← call c name rpc t.timeout (atomic request)
                decoder reply)
      unfolding change
      changes name rpc decoder = ap (wrap_ttl c t.timeout ttl) (
          fun_ext λ milliseconds.
            bind_agree (requests value milliseconds)
              λ request. unary-call c name rpc decoder t.timeout (atomic request))

      results :
          (name : String) (rpc : AtomicRpc)
          → change name (atomic_rpc rpc) pure c t value ttl
            ≡ Sync.change_atomic name rpc c t value ttl
      unfolding change Sync.change_atomic
      results name rpc = ap (wrap_ttl c t.timeout ttl) (
          fun_ext λ milliseconds.
            bind_agree (requests value milliseconds)
              λ request. unary-pure c name (atomic_rpc rpc) t.timeout (atomic request))

      creates : atomic_create c t value ttl ≡ Sync.atomic_create c t value ttl
      unfolding atomic_create Sync.atomic_create
      creates = changes "atomic_create" Rpc.atomic_create as_hint

      stores : atomic_store c t value ttl ≡ Sync.atomic_store c t value ttl
      unfolding atomic_store Sync.atomic_store
      stores = changes "atomic_store" Rpc.atomic_store as_hint

      -- For a client id other than 0, the eight asynchronous operations that create, store,
      -- exchange or change an atomic number are the synchronous ones.
      pub atomics_agree :
          (atomic_create c t value ttl ≡ Sync.atomic_create c t value ttl)
          × (atomic_store c t value ttl ≡ Sync.atomic_store c t value ttl)
          × (atomic_exchange c t value ttl ≡ Sync.atomic_exchange c t value ttl)
          × (atomic_add c t value ttl ≡ Sync.atomic_add c t value ttl)
          × (atomic_sub c t value ttl ≡ Sync.atomic_sub c t value ttl)
          × (atomic_or c t value ttl ≡ Sync.atomic_or c t value ttl)
          × (atomic_and c t value ttl ≡ Sync.atomic_and c t value ttl)
          × (atomic_xor c t value ttl ≡ Sync.atomic_xor c t value ttl)
      unfolding atomic_exchange Sync.atomic_exchange atomic_add Sync.atomic_add atomic_sub
          Sync.atomic_sub atomic_or Sync.atomic_or atomic_and Sync.atomic_and atomic_xor
          Sync.atomic_xor
      atomics_agree = (
        creates,
        stores,
        results "atomic_exchange" Rpc.atomic_exchange,
        results "atomic_add" Rpc.atomic_add,
        results "atomic_sub" Rpc.atomic_sub,
        results "atomic_or" Rpc.atomic_or,
        results "atomic_and" Rpc.atomic_and,
        results "atomic_xor" Rpc.atomic_xor,
      )
