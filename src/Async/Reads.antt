-- ===== src/Async/Reads.antt =====
-- The asynchronous client: reading containers, and removing single elements.
use hurricache_python_client.Base.{ℕ, String, Bool, false, Option, none, some}
use hurricache_python_client.Base.Int.{ℤ}
use hurricache_python_client.Models.{Bytes, KeyHintData, ContainerType}
use hurricache_python_client.Errors.{Collection}
use hurricache_python_client.Messages.{Request, container_get, key_position, update_container}
use hurricache_python_client.Rpc
use hurricache_python_client.Rpc.{ValueRpc, value_rpc, BoolRpc, bool_rpc, count_rpc}
use hurricache_python_client.Effects.{M, pure, ◌>>=◌}
use hurricache_python_client.Operation.{Client, wrap, wrap_ttl}
use hurricache_python_client.Wire.{Raw, ValueLike, create_key, create_value}
use hurricache_python_client.Client.Requests.{Target}
use hurricache_python_client.Async.{key_of, get_of, unary, stream, decode_value_response}
use hurricache_python_client.Async.Values.{id_of, as_previous}

unfoldable pub get_container : Client → Target → M Collection
unfolding wrap get_of stream
get_container c t = wrap c t.timeout do
  request ← get_of c t
  stream c "get_container" Rpc.get_container (λ batches. batches) t.timeout request

unfoldable pub get_size : Client → Target → M ℕ
unfolding wrap get_of unary
get_size c t =
    wrap c t.timeout
      do request ← get_of c t; unary c "get_size" (count_rpc Rpc.get_size) pure t.timeout request

-- `_value_rpc`
unfoldable pub read : Client → String → ValueRpc → Target → Request → M Bytes
unfolding unary decode_value_response
read c name rpc t request = unary c name (value_rpc rpc) decode_value_response t.timeout request

-- the operations that read a value by the key alone
unfoldable pub read_by_key : String → ValueRpc → Client → Target → M Bytes
unfolding wrap get_of read
read_by_key name rpc c t = wrap c t.timeout (do request ← get_of c t; read c name rpc t request)

unfoldable pub get_tail : Client → Target → M Bytes
unfolding read_by_key
get_tail = read_by_key "get_tail" Rpc.get_tail

unfoldable pub get_head : Client → Target → M Bytes
unfolding read_by_key
get_head = read_by_key "get_head" Rpc.get_head

-- `_container_get`
unfoldable pub container_request : Client → Target → Raw → Option KeyHintData → M Request
unfolding key_of create_key
container_request c t element_key element_hint = do
  key ← key_of c t
  element ← create_key element_key element_hint (id_of c t) false
  pure (container_get key element)

unfoldable pub get_value_in_container : Client → Target → Raw → Option KeyHintData → M Bytes
unfolding wrap container_request read
get_value_in_container c t element_key element_hint = wrap c t.timeout do
  request ← container_request c t element_key element_hint
  read c "get_value_in_container" Rpc.get_value_in_container t request

unfoldable pub exist_key_in_container : Client → Target → Raw → Option KeyHintData → M Bool
unfolding wrap container_request unary
exist_key_in_container c t element_key element_hint = wrap c t.timeout do
  request ← container_request c t element_key element_hint
  unary c "exist_key_in_container" (bool_rpc Rpc.exist_key_in_container) pure t.timeout request

unfoldable pub get_and_remove_front : Client → Target → M Bytes
unfolding read_by_key
get_and_remove_front = read_by_key "get_and_remove_front" Rpc.get_and_remove_front

unfoldable pub get_and_remove_tail : Client → Target → M Bytes
unfolding read_by_key
get_and_remove_tail = read_by_key "get_and_remove_tail" Rpc.get_and_remove_tail

-- `_position`; `none` where the call names no end, or no type
unfoldable pub position_of :
    Client → Target → ℕ → Option ℕ → Bool → Option ContainerType → M Request
unfolding key_of
position_of c t pos end_pos reversed container_type = do
  key ← key_of c t
  pure (
      key_position (record {
        key = key;
        container_type = container_type;
        pos = pos;
        end_pos = end_pos;
        reversed = reversed;
      }))

-- the operations that read a value by position
unfoldable pub read_at : String → ValueRpc → Client → Target → ℕ → Option ContainerType → M Bytes
unfolding wrap position_of read
read_at name rpc c t pos container_type =
    wrap c t.timeout
      do request ← position_of c t pos none false container_type; read c name rpc t request

unfoldable pub get_element_at_position : Client → Target → ℕ → ContainerType → M Bytes
unfolding read_at
get_element_at_position c t pos container_type =
    read_at "get_element_at_position" Rpc.get_element_at_position c t pos (some container_type)

unfoldable pub get_and_remove_element_at_position : Client → Target → ℕ → ContainerType → M Bytes
unfolding read_at
get_and_remove_element_at_position c t pos container_type =
    read_at "get_and_remove_element_at_position" Rpc.get_and_remove_element_at_position c t pos
      (some container_type)

unfoldable pub get_element_with_weight : Client → Target → ℕ → M Bytes
unfolding read_at
get_element_with_weight c t pos =
    read_at "get_element_with_weight" Rpc.get_element_at_position c t pos none

unfoldable pub get_and_remove_element_with_weight : Client → Target → ℕ → M Bytes
unfolding read_at
get_and_remove_element_with_weight c t pos =
    read_at "get_and_remove_element_with_weight" Rpc.get_and_remove_element_at_position c t pos none

unfoldable pub get_element_in_range : Client → Target → ℕ → ℕ → ContainerType → Bool → M Collection
unfolding wrap position_of stream
get_element_in_range c t pos end_pos container_type reversed = wrap c t.timeout do
  request ← position_of c t pos (some end_pos) reversed (some container_type)
  stream c "get_element_in_range" Rpc.get_element_in_range (λ batches. batches) t.timeout request

unfoldable pub get_and_delete_value_in_container :
    Client → Target → Raw → Option KeyHintData → M Bytes
unfolding wrap container_request read
get_and_delete_value_in_container c t element_key element_hint = wrap c t.timeout do
  request ← container_request c t element_key element_hint
  read c "get_and_delete_value_in_container" Rpc.get_and_delete_value_in_container t request

unfoldable pub update_value_in_container :
    Client → Target → Raw → Option KeyHintData → ValueLike → Option ℤ → M Bytes
unfolding wrap_ttl key_of create_key create_value unary
update_value_in_container c t element_key element_hint value ttl =
    wrap_ttl c t.timeout ttl λ milliseconds. do
      key ← key_of c t
      element ← create_key element_key element_hint (id_of c t) false
      v ← create_value value milliseconds (id_of c t) false
      unary c "update_value_in_container" Rpc.update_value_in_container as_previous t.timeout
          (update_container key element v)

-- `_bool_get`
unfoldable pub bool_get : String → BoolRpc → Client → Target → M Bool
unfolding wrap get_of unary
bool_get name rpc c t =
    wrap c t.timeout do request ← get_of c t; unary c name (bool_rpc rpc) pure t.timeout request

unfoldable pub remove_head : Client → Target → M Bool
unfolding bool_get
remove_head = bool_get "remove_head" Rpc.remove_head

unfoldable pub remove_tail : Client → Target → M Bool
unfolding bool_get
remove_tail = bool_get "remove_tail" Rpc.remove_tail

unfoldable pub remove_element_at_position : Client → Target → ℕ → ContainerType → M Bool
unfolding wrap position_of unary
remove_element_at_position c t pos container_type = wrap c t.timeout do
  request ← position_of c t pos none false (some container_type)
  unary c "remove_element_at_position" (bool_rpc Rpc.remove_element_at_position) pure t.timeout
      request

unfoldable pub remove_in_container : Client → Target → Raw → Option KeyHintData → M ℕ
unfolding wrap container_request unary
remove_in_container c t element_key element_hint = wrap c t.timeout do
  request ← container_request c t element_key element_hint
  unary c "remove_in_container" (count_rpc Rpc.remove_in_container) pure t.timeout request
