-- ===== src/Client/Reads.antt =====
-- Reading containers, and removing single elements.
use hurricache_python_client.Base.{ℕ, String, Bool, false, Option, none, some}
use hurricache_python_client.Base.Int.{ℤ}
use hurricache_python_client.Models.{Bytes, ContainerType}
use hurricache_python_client.Errors.{Collection}
use hurricache_python_client.Messages.{Request, container_get, key_position, update_container}
use hurricache_python_client.Rpc
use hurricache_python_client.Rpc.{bool_rpc, count_rpc, ValueRpc}
use hurricache_python_client.Effects.{M, pure, ◌>>=◌}
use hurricache_python_client.Operation.{Client, wrap, wrap_ttl}
use hurricache_python_client.Models.{KeyHintData}
use hurricache_python_client.Wire.{Raw, ValueLike, create_key, create_value}
use hurricache_python_client.Client.{call}
use hurricache_python_client.Client.Requests.{
  Target, cid, build_key, build_get_req, read_value, read_bool, value_of, stream_of,
}
use hurricache_python_client.Client.Values.{previous}

unfoldable pub get_container : Client → Target → M Collection
unfolding wrap build_get_req call stream_of
get_container c t = wrap c t.timeout do
  request ← build_get_req c t
  stream ← call c "get_container" Rpc.get_container t.timeout request
  stream_of "get_container" t stream

unfoldable pub get_size : Client → Target → M ℕ
unfolding wrap build_get_req call
get_size c t =
    wrap c t.timeout
      do request ← build_get_req c t; call c "get_size" (count_rpc Rpc.get_size) t.timeout request

unfoldable pub get_tail : Client → Target → M Bytes
unfolding read_value
get_tail = read_value "get_tail" Rpc.get_tail

unfoldable pub get_head : Client → Target → M Bytes
unfolding read_value
get_head = read_value "get_head" Rpc.get_head

unfoldable pub get_front : Client → Target → M Bytes
unfolding wrap get_head
get_front c t = wrap c t.timeout (get_head c t)

-- `cache_pb2.ContainerGetRequest(…)`
unfoldable pub element_request : Client → Target → Raw → Option KeyHintData → M Request
unfolding build_key create_key
element_request c t element_key element_hint = do
  key ← build_key c t
  element ← create_key element_key element_hint (cid c t) false
  pure (container_get key element)

unfoldable pub get_value_in_container : Client → Target → Raw → Option KeyHintData → M Bytes
unfolding wrap element_request value_of
get_value_in_container c t element_key element_hint = wrap c t.timeout do
  request ← element_request c t element_key element_hint
  value_of c "get_value_in_container" Rpc.get_value_in_container t request

unfoldable pub exist_key_in_container : Client → Target → Raw → Option KeyHintData → M Bool
unfolding wrap element_request call
exist_key_in_container c t element_key element_hint = wrap c t.timeout do
  request ← element_request c t element_key element_hint
  call c "exist_key_in_container" (bool_rpc Rpc.exist_key_in_container) t.timeout request

unfoldable pub contains_container_key : Client → Target → Raw → Option KeyHintData → M Bool
unfolding wrap exist_key_in_container
contains_container_key c t element_key element_hint =
    wrap c t.timeout (exist_key_in_container c t element_key element_hint)

unfoldable pub get_and_remove_front : Client → Target → M Bytes
unfolding read_value
get_and_remove_front = read_value "get_and_remove_front" Rpc.get_and_remove_front

unfoldable pub get_and_remove_tail : Client → Target → M Bytes
unfolding read_value
get_and_remove_tail = read_value "get_and_remove_tail" Rpc.get_and_remove_tail

-- `cache_pb2.KeyPositionRequest(key=…, type=type, pos=pos)`; `none` where the call names no type
unfoldable pub position_request : Client → Target → ℕ → Option ContainerType → M Request
unfolding build_key
position_request c t pos container_type = do
  key ← build_key c t
  pure (
      key_position (record {
        key = key;
        container_type = container_type;
        pos = pos;
        end_pos = none;
        reversed = false;
      }))

-- the operations that read a value by position
unfoldable pub value_at : String → ValueRpc → Client → Target → ℕ → Option ContainerType → M Bytes
unfolding wrap position_request value_of
value_at name rpc c t pos container_type =
    wrap c t.timeout
      do request ← position_request c t pos container_type; value_of c name rpc t request

unfoldable pub get_and_remove_element_at_position : Client → Target → ℕ → ContainerType → M Bytes
unfolding value_at
get_and_remove_element_at_position c t pos container_type =
    value_at "get_and_remove_element_at_position" Rpc.get_and_remove_element_at_position c t pos
      (some container_type)

unfoldable pub get_element_at_position : Client → Target → ℕ → ContainerType → M Bytes
unfolding value_at
get_element_at_position c t pos container_type =
    value_at "get_element_at_position" Rpc.get_element_at_position c t pos (some container_type)

unfoldable pub get_element_with_weight : Client → Target → ℕ → M Bytes
unfolding value_at
get_element_with_weight c t pos =
    value_at "get_element_with_weight" Rpc.get_element_at_position c t pos none

unfoldable pub get_and_remove_element_with_weight : Client → Target → ℕ → M Bytes
unfolding value_at
get_and_remove_element_with_weight c t pos =
    value_at "get_and_remove_element_with_weight" Rpc.get_and_remove_element_at_position c t pos
      none

unfoldable pub get_and_delete_value_in_container :
    Client → Target → Raw → Option KeyHintData → M Bytes
unfolding wrap element_request value_of
get_and_delete_value_in_container c t element_key element_hint = wrap c t.timeout do
  request ← element_request c t element_key element_hint
  value_of c "get_and_delete_value_in_container" Rpc.get_and_delete_value_in_container t request

unfoldable pub update_value_in_container :
    Client → Target → Raw → Option KeyHintData → ValueLike → Option ℤ → M Bytes
unfolding wrap_ttl build_key create_key create_value call
update_value_in_container c t element_key element_hint value ttl =
    wrap_ttl c t.timeout ttl λ milliseconds. do
      key ← build_key c t
      element ← create_key element_key element_hint (cid c t) false
      v ← create_value value milliseconds (cid c t) false
      response ←
          call c "update_value_in_container" Rpc.update_value_in_container t.timeout
            (update_container key element v)
      previous response

unfoldable pub get_element_in_range : Client → Target → ℕ → ℕ → ContainerType → Bool → M Collection
unfolding wrap build_key call stream_of
get_element_in_range c t pos end_pos container_type reversed = wrap c t.timeout do
  key ← build_key c t
  stream ← call c "get_element_in_range" Rpc.get_element_in_range t.timeout (
      key_position (record {
        key = key;
        container_type = some container_type;
        pos = pos;
        end_pos = some end_pos;
        reversed = reversed;
      }))
  stream_of "get_element_in_range" t stream

unfoldable pub remove_head : Client → Target → M Bool
unfolding read_bool
remove_head = read_bool "remove_head" Rpc.remove_head

unfoldable pub remove_tail : Client → Target → M Bool
unfolding read_bool
remove_tail = read_bool "remove_tail" Rpc.remove_tail

unfoldable pub remove_element_at_position : Client → Target → ℕ → ContainerType → M Bool
unfolding wrap position_request call
remove_element_at_position c t pos container_type = wrap c t.timeout do
  request ← position_request c t pos (some container_type)
  call c "remove_element_at_position" (bool_rpc Rpc.remove_element_at_position) t.timeout request

unfoldable pub remove_in_container : Client → Target → Raw → Option KeyHintData → M ℕ
unfolding wrap element_request call
remove_in_container c t element_key element_hint = wrap c t.timeout do
  request ← element_request c t element_key element_hint
  call c "remove_in_container" (count_rpc Rpc.remove_in_container) t.timeout request
