-- ===== src/Async.antt =====
-- hurricache/grpc/async_client.py: the calls that every asynchronous operation goes through. A
-- coroutine runs in the context of its own task, so that others, which may run where it awaits, do
-- not change its context variables; what the server did meanwhile is the server's answer.
pub mod Agree
pub mod Creating
pub mod Streaming
pub mod Parity
pub mod Whole
pub mod Values
pub mod Reads
pub mod Collections
pub mod Containers
pub mod Insertions
pub mod Atomics
use hurricache_python_client.Base.{
  ℕ, ◌+◌, String, Bool, true, false, ◌&&◌, ◌||◌, Option, none, some, List, [], ◌∷◌, map, ltb, ◌==◌,
  str_eq, if◌then◌else◌,
}
use hurricache_python_client.Models.{
  Bytes, KeyHintData, ContainerType, vector, linked_list, queue, ordered_map, ordered_set,
}
use hurricache_python_client.Models
use hurricache_python_client.Errors.{
  Error, RpcError, PartialResult, hinted, counted, flagged, partial_operation, hurricache_error,
  Collection, key_not_found, value_error, Result, ok, err,
}
use hurricache_python_client.Errors as Errors
use hurricache_python_client.Errors.Mapping.{mapped_rpc_error}
use hurricache_python_client.Messages.{
  Key, KeyHint, Value, OrderedValue, Elements, CreateContainerRequest, ValueResponse, Request,
  request_key,
}
use hurricache_python_client.Messages
use hurricache_python_client.Rpc.{
  Rpc, Reply, CountRpc, add_element, add_element_to_tail, count_rpc, Stream, Outcome, replied,
  failed,
}
use hurricache_python_client.Rpc
use hurricache_python_client.Effects.{Seconds, Env, World, M, pure, raise, lift, ask, ◌>>=◌, ◌>>◌}
use hurricache_python_client.Operation.{Client, remaining, timeout_of}
use hurricache_python_client.Wire.{
  create_key, build_get_request, decode_key, decode_value, decode_ordered_value, decode_hint,
}
use hurricache_python_client.Batching.{Batchable, check, plan}
use hurricache_python_client.Batching.Shapes.{creation, continuation}
use hurricache_python_client.Streams.{Collected, nothing_yet, or_list, interrupted, absorb}
use hurricache_python_client.Client.{
  invoke, Added, as_bool, as_count, Tally, zero_tally, Creations, stamp, is_sequence,
  check_continuations, or_unspecified,
}
use hurricache_python_client.Client.Requests.{Target}

-- `_client_id`
unfoldable pub client_id : Client → Option ℕ → ℕ
client_id c none = c.default_client_id
client_id c (some id) = if id == 0 then c.default_client_id else id

-- `_key`
unfoldable pub key_of : Client → Target → M Key
unfolding client_id create_key
key_of c t = create_key t.key t.hint (client_id c t.client_id) true

-- `_get`
unfoldable pub get_of : Client → Target → M Request
unfolding client_id build_get_request
get_of c t = build_get_request t.key t.hint (client_id c t.client_id)

-- `_decode_value_response`
abbrev empty_value : Error
empty_value = key_not_found [] "Value response is empty"

abbrev decoded_value : Env → Option Value → Option OrderedValue → Result Bytes
decoded_value env (some value) _ = decode_value env value
decoded_value env none (some value) = decode_ordered_value env value
decoded_value env none none = err empty_value

unfoldable pub decode_value_response : ValueResponse → M Bytes
decode_value_response response = do
  env ← ask
  lift (decoded_value env response.value_unordered response.value_ordered)

-- the reply, or the error that `except grpc.aio.AioRpcError` raises
abbrev pub received : {A : Type 0} → String → Request → Outcome A → M A
received name request (replied a) = pure a
received name request (failed error) = do
  env ← ask
  key ← lift (decode_key env (request_key request))
  raise (mapped_rpc_error name error key)

-- `_unary`
unfoldable pub unary :
    {A : Type 0}
    → Client
    → String
    → (rpc : Rpc) → (Reply rpc → M A)
    → Option (Option Seconds)
    → Request
    → M A
unfolding remaining check invoke
unary c name rpc decoder timeout request = do
  left ← remaining (timeout_of c timeout)
  check request
  outcome ← invoke rpc request left
  reply ← received name request outcome
  decoder reply

-- the end of the stream: the result, or what `except grpc.aio.AioRpcError` raises
abbrev pub streamed : String → Request → Option RpcError → Collected → M Collection
streamed name request none p = pure (or_list p.result)
streamed name request (some error) p = do
  env ← ask
  key ← lift (decode_key env (request_key request))
  raise (interrupted p (mapped_rpc_error name error key))

-- `remaining()` and the batch, inside the `try`
abbrev pub took : Result (Option Seconds) → Collected → Result Collected → Result Collected
took (ok _) p r = r
took (err error) p r = err (interrupted p error)

abbrev pub on : Result Collected → (Collected → M Collection) → M Collection
on (err error) next env w = (err error, w)
on (ok p) next env w = next p env w

-- the `async for` loop
unfoldable pub gather :
    String → Request → Option RpcError → List Elements → Collected → M Collection
unfolding remaining absorb
gather name request failure [] p env w = streamed name request failure p env w
gather name request failure (batch ∷ rest) p env w =
    let (in_time, w') = remaining none env w in
    on (took in_time p (absorb env p batch)) (gather name request failure rest) env w'

-- `_stream`; `batches_of` says that the reply is a stream of batches
unfoldable pub stream :
    Client
    → String
    → (rpc : Rpc) → (Reply rpc → Stream)
    → Option (Option Seconds)
    → Request
    → M Collection
unfolding remaining check invoke gather
stream c name rpc batches_of timeout request = do
  left ← remaining (timeout_of c timeout)
  check request
  outcome ← invoke rpc request left
  reply ← received name request outcome
  gather name request (batches_of reply).failure (batches_of reply).batches nothing_yet

-- what a chunk leads to: the call ends, or goes on with these counts
pub data Course : Type 0 where
  return : Added → Course
  throw : Error → Course
  continue : Tally → Course

-- `True if boolean else total`
abbrev so_far : Bool → ℕ → PartialResult
so_far true total = flagged true
so_far false total = counted total

-- `except Exception`, and what follows a reply of this size
unfoldable pub course : Bool → ℕ → Tally → Result ℕ → Course
course boolean count t (err error) =
    if t.acknowledged == 0
    then throw error
    else throw (partial_operation t.acknowledged t.done (so_far boolean t.total))
course boolean count t (ok size) =
    if ltb 0xFFFFFFFF (t.total + size)
    then throw (partial_operation (t.acknowledged + 1) (t.done + count) (so_far boolean t.total))
    else if boolean && (size == 0)
    then (if t.acknowledged == 0
        then return (as_bool false)
        else throw (partial_operation t.acknowledged t.done (flagged false)))
    else continue (record {
      total = t.total + size;
      done = t.done + count;
      acknowledged = t.acknowledged + 1;
    })

abbrev pub taken : Course → (Tally → M Added) → M Added
taken (return added) k env w = (ok added, w)
taken (throw error) k env w = (err error, w)
taken (continue t) k env w = k t env w

module _ {R : Type 0} (b : Batchable R) (c : Client) (name : String) (rpc : CountRpc)
    (timeout : Option (Option Seconds)) (boolean : Bool) where
  -- the loop over the chunks
  unfoldable pub send_chunks : List (R × ℕ) → Tally → M Added
  unfolding course unary
  send_chunks [] t env w = (ok (if boolean then as_bool true else as_count t.total), w)
  send_chunks ((chunk, count) ∷ rest) t env w = elim (count == 0) [
    | true ↦ send_chunks rest t env w
    | false ↦
        let (reply, w') = unary c name (count_rpc rpc) pure timeout (b.message chunk) env w in
        taken (course boolean count t reply) (send_chunks rest) env w'
  ]

-- the names whose result is a `bool`
abbrev boolean_name : String → Bool
boolean_name name =
    str_eq name "add_element_to_head"
    || str_eq name "add_element_to_tail"
    || str_eq name "add_element_to_position_by_value"

-- `_send_add_chunks`; the Boolean is the keyword argument `_boolean`
unfoldable pub send_add_chunks :
    {R : Type 0}
    → Batchable R
    → Client
    → String
    → CountRpc
    → Option (Option Seconds)
    → Bool
    → R
    → M Added
unfolding send_chunks
send_add_chunks b c name rpc timeout boolean request = do
  chunks ← plan b request false
  send_chunks b c name rpc timeout (boolean || boolean_name name) chunks zero_tally

abbrev pub continues_with : ContainerType → CountRpc
continues_with linked_list = add_element_to_tail
continues_with vector = add_element_to_tail
continues_with queue = add_element_to_tail
continues_with _ = add_element

-- the `raise` inside the `try`, of a reply to a continuation chunk
abbrev pub rejection : Bool → ℕ → Result ℕ
rejection sequence size =
    if sequence && (size == 0)
    then err (hurricache_error "server rejected continuation chunk")
    else ok size

-- `except Exception`, and the next chunk otherwise
abbrev pub guarded : Result ℕ → KeyHintData → ℕ → ℕ → M KeyHintData → M KeyHintData
guarded (err error) hint acknowledged done k env w =
    (err (partial_operation acknowledged done (hinted hint)), w)
guarded (ok size) hint acknowledged done k env w = k env w

module _ (c : Client) (timeout : Option (Option Seconds)) (container_type : ContainerType) where
  -- the loop over `chunks[1:]`
  unfoldable pub send_continuations :
      Option KeyHint → KeyHintData → Creations → ℕ → ℕ → M KeyHintData
  unfolding is_sequence continuation unary
  send_continuations wire_hint hint [] acknowledged done env w = (ok hint, w)
  send_continuations wire_hint hint ((chunk, count) ∷ rest) acknowledged done env w =
      let (reply, w') =
        unary c "create_container" (count_rpc (continues_with container_type))
          (λ size. lift (rejection (is_sequence container_type) size)) timeout
          (Messages.add_to (continuation chunk wire_hint)) env w in
      guarded reply hint acknowledged done
        (send_continuations wire_hint hint rest (acknowledged + 1) (done + count)) env w'

  -- a plan has at least one chunk
  abbrev pub sent_in_order : Creations → M KeyHintData
  sent_in_order [] = raise (value_error "list index out of range")
  sent_in_order ((first, count) ∷ rest) = do
    check_continuations rest
    reply ←
        unary c "create_container" Rpc.create_container pure timeout
          (Messages.create_container first)
    send_continuations reply (or_unspecified (decode_hint reply)) rest 1 count

-- `_create_container_chunked`
unfoldable pub create_container_chunked :
    Client → Option (Option Seconds) → CreateContainerRequest → M KeyHintData
unfolding stamp check_continuations send_continuations unary or_unspecified
create_container_chunked c timeout request = do
  chunks ← plan creation (stamp request) true
  sent_in_order c timeout request.container_type chunks
