-- ===== src/Async/Parity/Ends.antt =====
-- Insertions at either end: the asynchronous operations of async_client.py are those of client.py.
use mathlib.Core.Path.{fun_ext}
use hurricache_python_client.Base.{◌≡◌, ap, String, false, Option, none, List}
use hurricache_python_client.Base.Int.{ℤ}
use hurricache_python_client.Messages.{no_elements}
use hurricache_python_client.Rpc.{CountRpc}
use hurricache_python_client.Rpc
use hurricache_python_client.Operation.{Client, wrap_ttl}
use hurricache_python_client.Wire.{ValueLike, create_value}
use hurricache_python_client.Batching.Shapes.{addition}
use hurricache_python_client.Client.Requests.{Target, each, or_nil}
use hurricache_python_client.Client.Insertions as Sync
use hurricache_python_client.Async.Agree.{send_add_chunks-call_add_chunked}
use hurricache_python_client.Async.Streaming.{client_id_agree, key_of-build_key}
use hurricache_python_client.Async.Insertions.{
  at_end, add_unordered, add_element_to_tail, add_element_to_head, add_element_to_tail_count,
  add_element_to_head_count,
}
use hurricache_python_client.Async.Parity.{bind_agree}

module _ (c : Client) (t : Target) (values : Option (List ValueLike)) (ttl : Option ℤ) where
  inserts :
      (name : String) (rpc : CountRpc)
      → at_end name rpc c t values ttl ≡ Sync.add_at_end name rpc c t values ttl
  unfolding add_unordered Sync.add_at_end each
  inserts name rpc = ap (wrap_ttl c t.timeout ttl) (
      fun_ext λ milliseconds. bind_agree (key_of-build_key c t) λ key.
        bind_agree
          (ap (λ id. each (λ v. create_value v milliseconds id false) (or_nil values))
            (client_id_agree c t.client_id))
          λ vs. send_add_chunks-call_add_chunked addition c name rpc t.timeout false (record {
            key = key;
            container_type = none;
            pos = none;
            elements = record no_elements { value_unordered = vs };
          }))

  -- The four asynchronous insertions at the head or the tail are the synchronous ones, for all
  -- arguments.
  pub ends_agree :
      (add_element_to_tail c t values ttl ≡ Sync.add_element_to_tail c t values ttl)
      × (add_element_to_head c t values ttl ≡ Sync.add_element_to_head c t values ttl)
      × (add_element_to_tail_count c t values ttl ≡ Sync.add_element_to_tail_count c t values ttl)
      × (add_element_to_head_count c t values ttl ≡ Sync.add_element_to_head_count c t values ttl)
  unfolding add_element_to_tail Sync.add_element_to_tail add_element_to_head
      Sync.add_element_to_head add_element_to_tail_count Sync.add_element_to_tail_count
      add_element_to_head_count Sync.add_element_to_head_count
  ends_agree = (
    inserts "add_element_to_tail" Rpc.add_element_to_tail,
    inserts "add_element_to_head" Rpc.add_element_to_head,
    inserts "add_element_to_tail_count" Rpc.add_element_to_tail,
    inserts "add_element_to_head_count" Rpc.add_element_to_head,
  )
