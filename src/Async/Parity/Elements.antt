-- ===== src/Async/Parity/Elements.antt =====
-- Elements of containers, read, tested and removed one at a time: the asynchronous operations of
-- async_client.py are those of client.py.
use hurricache_python_client.Base.{ℕ, ◌≡◌, refl, ap, ◌∙◌, String, false, Option, none, some}
use hurricache_python_client.Models.{KeyHintData, ContainerType}
use hurricache_python_client.Messages.{container_get, key_position, Key}
use hurricache_python_client.Rpc.{Rpc, Reply, ValueRpc, value_rpc, bool_rpc, count_rpc}
use hurricache_python_client.Rpc
use hurricache_python_client.Effects.{M, pure, ◌>>=◌}
use hurricache_python_client.Operation.{Client, wrap}
use hurricache_python_client.Wire.{Raw, create_key}
use hurricache_python_client.Client.{call}
use hurricache_python_client.Client.Requests.{Target, value_of}
use hurricache_python_client.Client.Reads as Sync
use hurricache_python_client.Client.Reads.{element_request, position_request, value_at}
use hurricache_python_client.Async.{get_of, unary, decode_value_response}
use hurricache_python_client.Async.Agree.{unary-pure}
use hurricache_python_client.Async.Streaming.{key_of-build_key, get_of-build_get_req, read-value_of}
use hurricache_python_client.Async.Reads.{
  read, read_by_key, container_request, position_of, read_at, bool_get, get_size, get_tail,
  get_head, get_and_remove_front, get_and_remove_tail, remove_head, remove_tail,
  get_value_in_container, exist_key_in_container, get_and_delete_value_in_container,
  remove_in_container, get_element_at_position, get_and_remove_element_at_position,
  remove_element_at_position,
}
use hurricache_python_client.Async.Parity.{bind_agree, reads_bool, reads_value, same_id}

module _ (c : Client) (t : Target) where
  sizes : get_size c t ≡ Sync.get_size c t
  unfolding get_size Sync.get_size
  sizes = ap (wrap c t.timeout) (
      bind_agree (get_of-build_get_req c t)
        (unary-pure c "get_size" (count_rpc Rpc.get_size) t.timeout))

  by_key :
      (name : String) (rpc : ValueRpc)
      → read_by_key name rpc c t ≡ (
          wrap c t.timeout
            (get_of c t >>= unary c name (value_rpc rpc) decode_value_response t.timeout))
  unfolding read_by_key read
  by_key name rpc = refl

  module _ (element_key : Raw) (element_hint : Option KeyHintData) where
    requests :
        container_request c t element_key element_hint
        ≡ element_request c t element_key element_hint
    unfolding container_request element_request
    requests = bind_agree (key_of-build_key c t) λ key.
        ap
          (λ id. create_key element_key element_hint id false >>= λ element.
            pure (container_get key element))
          (same_id c t)

    reads_element :
        (name : String) (rpc : ValueRpc)
        → (wrap c t.timeout (container_request c t element_key element_hint >>= read c name rpc t))
          ≡ (wrap c t.timeout
              (element_request c t element_key element_hint >>= value_of c name rpc t))
    unfolding read
    reads_element name rpc =
        ap (wrap c t.timeout) (bind_agree requests (read-value_of c name rpc t))

    replies_element :
        (name : String) (rpc : Rpc)
        → (wrap c t.timeout
            (container_request c t element_key element_hint >>= unary c name rpc pure t.timeout))
          ≡ (wrap c t.timeout
              (element_request c t element_key element_hint >>= call c name rpc t.timeout))
    replies_element name rpc =
        ap (wrap c t.timeout) (bind_agree requests (unary-pure c name rpc t.timeout))

  module _ (pos : ℕ) (container_type : Option ContainerType) where
    positions :
        position_of c t pos none false container_type ≡ position_request c t pos container_type
    unfolding position_of position_request
    positions =
        ap
          (λ (m : M Key). m >>= λ key. pure (
            key_position (record {
              key = key;
              container_type = container_type;
              pos = pos;
              end_pos = none;
              reversed = false;
            })))
          (key_of-build_key c t)

    reads_at :
        (name : String) (rpc : ValueRpc)
        → read_at name rpc c t pos container_type ≡ value_at name rpc c t pos container_type
    unfolding read_at read value_at
    reads_at name rpc = ap (wrap c t.timeout) (bind_agree positions (read-value_of c name rpc t))

    replies_at :
        (name : String) (rpc : Rpc)
        → (wrap c t.timeout
            (position_of c t pos none false container_type >>= unary c name rpc pure t.timeout))
          ≡ (wrap c t.timeout
              (position_request c t pos container_type >>= call c name rpc t.timeout))
    replies_at name rpc =
        ap (wrap c t.timeout) (bind_agree positions (unary-pure c name rpc t.timeout))

  -- the two ends
  whole_by_key :
      (get_tail c t ≡ Sync.get_tail c t)
      × (get_head c t ≡ Sync.get_head c t)
      × (get_and_remove_front c t ≡ Sync.get_and_remove_front c t)
      × (get_and_remove_tail c t ≡ Sync.get_and_remove_tail c t)
      × (remove_head c t ≡ Sync.remove_head c t)
      × (remove_tail c t ≡ Sync.remove_tail c t)
  unfolding get_tail Sync.get_tail get_head Sync.get_head get_and_remove_front
      Sync.get_and_remove_front get_and_remove_tail Sync.get_and_remove_tail remove_head
      Sync.remove_head remove_tail Sync.remove_tail bool_get
  whole_by_key = (
    by_key "get_tail" Rpc.get_tail ∙ reads_value c t "get_tail" Rpc.get_tail,
    by_key "get_head" Rpc.get_head ∙ reads_value c t "get_head" Rpc.get_head,
    by_key "get_and_remove_front" Rpc.get_and_remove_front
        ∙ reads_value c t "get_and_remove_front" Rpc.get_and_remove_front,
    by_key "get_and_remove_tail" Rpc.get_and_remove_tail
        ∙ reads_value c t "get_and_remove_tail" Rpc.get_and_remove_tail,
    reads_bool c t "remove_head" Rpc.remove_head,
    reads_bool c t "remove_tail" Rpc.remove_tail,
  )

  -- The asynchronous operations that read the size of a container, and those that read, test or
  -- remove one element of it, at an end, by key or by position, are the synchronous ones, for all
  -- arguments.
  pub elements_agree :
      (element_key : Raw) (element_hint : Option KeyHintData) (pos : ℕ)
      (container_type : ContainerType)
      → (get_size c t ≡ Sync.get_size c t)
        × ((get_tail c t ≡ Sync.get_tail c t)
            × (get_head c t ≡ Sync.get_head c t)
            × (get_and_remove_front c t ≡ Sync.get_and_remove_front c t)
            × (get_and_remove_tail c t ≡ Sync.get_and_remove_tail c t)
            × (remove_head c t ≡ Sync.remove_head c t)
            × (remove_tail c t ≡ Sync.remove_tail c t))
        × (get_value_in_container c t element_key element_hint
            ≡ Sync.get_value_in_container c t element_key element_hint)
        × (get_and_delete_value_in_container c t element_key element_hint
            ≡ Sync.get_and_delete_value_in_container c t element_key element_hint)
        × (exist_key_in_container c t element_key element_hint
            ≡ Sync.exist_key_in_container c t element_key element_hint)
        × (remove_in_container c t element_key element_hint
            ≡ Sync.remove_in_container c t element_key element_hint)
        × (get_element_at_position c t pos container_type
            ≡ Sync.get_element_at_position c t pos container_type)
        × (get_and_remove_element_at_position c t pos container_type
            ≡ Sync.get_and_remove_element_at_position c t pos container_type)
        × (remove_element_at_position c t pos container_type
            ≡ Sync.remove_element_at_position c t pos container_type)
  unfolding get_value_in_container Sync.get_value_in_container get_and_delete_value_in_container
      Sync.get_and_delete_value_in_container exist_key_in_container Sync.exist_key_in_container
      remove_in_container Sync.remove_in_container get_element_at_position
      Sync.get_element_at_position get_and_remove_element_at_position
      Sync.get_and_remove_element_at_position remove_element_at_position
      Sync.remove_element_at_position
  elements_agree element_key element_hint pos container_type = (
    sizes,
    whole_by_key,
    reads_element element_key element_hint "get_value_in_container" Rpc.get_value_in_container,
    reads_element element_key element_hint "get_and_delete_value_in_container"
        Rpc.get_and_delete_value_in_container,
    replies_element element_key element_hint "exist_key_in_container"
        (bool_rpc Rpc.exist_key_in_container),
    replies_element element_key element_hint "remove_in_container"
        (count_rpc Rpc.remove_in_container),
    reads_at pos (some container_type) "get_element_at_position" Rpc.get_element_at_position,
    reads_at pos (some container_type) "get_and_remove_element_at_position"
        Rpc.get_and_remove_element_at_position,
    replies_at pos (some container_type) "remove_element_at_position"
        (bool_rpc Rpc.remove_element_at_position),
  )
