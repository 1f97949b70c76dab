-- ===== src/Client.antt =====
-- hurricache/grpc/client.py: the calls that every operation goes through.
pub mod Adding
pub mod Continuing
pub mod Delivery
pub mod Founding
pub mod Requests
pub mod Values
pub mod Reads
pub mod Collections
pub mod Creations
pub mod Insertions
pub mod Atomics
use hurricache_python_client.Base.{
  ℕ, ◌+◌, String, Bool, true, false, ◌&&◌, ◌||◌, Option, none, some, List, [], ◌∷◌, map, ltb, ◌==◌,
  str_eq, if◌then◌else◌,
}
use hurricache_python_client.Models.{
  KeyHintData, unspecified, is_specified, ContainerType, vector, linked_list, queue, ordered_map,
  ordered_set,
}
use hurricache_python_client.Models as Models
use hurricache_python_client.Errors.{
  Error, PartialResult, hinted, counted, flagged, partial_operation, hurricache_error, value_error,
  Result, ok, err,
}
use hurricache_python_client.Errors.Mapping.{mapped_rpc_error}
use hurricache_python_client.Messages.{
  KeyHint, Value, OrderedValue, Elements, CreateContainerRequest, Request, request_key,
}
use hurricache_python_client.Messages as Messages
use hurricache_python_client.Rpc.{
  Rpc, Reply, CountRpc, add_element, add_element_to_tail, count_rpc, Outcome, replied, failed,
}
use hurricache_python_client.Rpc as Rpc
use hurricache_python_client.Effects.{Seconds, Env, World, M, pure, raise, lift, ask, ◌>>=◌, ◌>>◌}
use hurricache_python_client.Operation.{Client, remaining, timeout_of}
use hurricache_python_client.Wire.{decode_key, decode_hint}
use hurricache_python_client.Batching.{Batchable, check, plan}
use hurricache_python_client.Batching.Shapes.{creation, continuation}

-- `rpc_callable(request, timeout=…)`: the request goes out, and the server answers or fails.
unfoldable pub invoke : (rpc : Rpc) → Request → Option Seconds → M (Outcome (Reply rpc))
invoke rpc request timeout env w = (
  ok (env.server w.sent rpc request),
  record w { sent = record { rpc = rpc; request = request; timeout = timeout } ∷ w.sent },
)

-- the answer, or `_handle_rpc_error` with the key of the request
abbrev pub answered : {A : Type 0} → String → Request → Outcome A → M A
answered method request (replied a) = pure a
answered method request (failed error) = do
  env ← ask
  key ← lift (decode_key env (request_key request))
  raise (mapped_rpc_error method error key)

-- `_call`; the timeout is the keyword argument, `none` where there is none
unfoldable pub call :
    Client → String → (rpc : Rpc) → Option (Option Seconds) → Request → M (Reply rpc)
unfolding remaining check invoke
call client method rpc timeout request = do
  left ← remaining (timeout_of client timeout)
  check request
  outcome ← invoke rpc request left
  answered method request outcome

-- What an insertion returns: a `bool`, or the number of elements.
pub data Added : Type 0 where
  as_bool : Bool → Added
  as_count : ℕ → Added

-- The variables `total`, `done` and `acknowledged`.
pub record Tally : Type 0 where
  pub total : ℕ
  pub done : ℕ
  pub acknowledged : ℕ

abbrev pub zero_tally : Tally
zero_tally = record { total = 0; done = 0; acknowledged = 0 }

-- what one chunk leads to: the call ends, or the next chunk follows
pub data Progress : Type 0 where
  finished : Result Added → Progress
  next : Tally → Progress

-- `True if boolean else total`
abbrev pub so_far : Bool → ℕ → PartialResult
so_far boolean total = if boolean then flagged true else counted total

abbrev pub rejected : Bool → Tally → Progress
rejected false t = finished (err (partial_operation t.acknowledged t.done (flagged false)))
rejected true t = finished (ok (as_bool false))

unfoldable pub tallied : Bool → ℕ → Tally → Result ℕ → Progress
tallied boolean count t (err error) = finished (
    err (
      if t.acknowledged == 0
      then error
      else partial_operation t.acknowledged t.done (so_far boolean t.total)))
tallied boolean count t (ok size) =
    if ltb 0xFFFFFFFF (t.total + size)
    then finished
        (err (partial_operation (t.acknowledged + 1) (t.done + count) (so_far boolean t.total)))
    else if boolean && (size == 0)
    then rejected (t.acknowledged == 0) t
    else next (record {
      total = t.total + size;
      done = t.done + count;
      acknowledged = t.acknowledged + 1;
    })

abbrev pub follow : Progress → (Tally → M Added) → M Added
follow (finished result) k env w = (result, w)
follow (next t) k env w = k t env w

module _ {R : Type 0} (b : Batchable R) (client : Client) (name : String) (rpc : CountRpc)
    (timeout : Option (Option Seconds)) (boolean : Bool) where
  -- the loop over the chunks
  unfoldable pub add_chunks : List (R × ℕ) → Tally → M Added
  unfolding tallied
  add_chunks [] t env w = (ok (if boolean then as_bool true else as_count t.total), w)
  add_chunks ((chunk, count) ∷ rest) t env w = elim (count == 0) [
    | true ↦ add_chunks rest t env w
    | false ↦
        let (reply, w') = call client name (count_rpc rpc) timeout (b.message chunk) env w in
        follow (tallied boolean count t reply) (add_chunks rest) env w'
  ]

-- the names whose result is a `bool`
abbrev is_boolean : String → Bool
is_boolean name =
    str_eq name "add_element_to_head"
    || str_eq name "add_element_to_tail"
    || str_eq name "add_element_to_position_by_value"

-- `_call_add_chunked`; the Boolean is the keyword argument `_boolean`
unfoldable pub call_add_chunked :
    {R : Type 0}
    → Batchable R
    → Client
    → String
    → CountRpc
    → Option (Option Seconds)
    → Bool
    → R
    → M Added
unfolding add_chunks
call_add_chunked b client name rpc timeout boolean request = do
  chunks ← plan b request false
  add_chunks b client name rpc timeout (boolean || is_boolean name) chunks zero_tally

-- `request.type in (MAP, ORDERED_MAP, ORDERED_SET)`
abbrev stamped_type : ContainerType → Bool
stamped_type Models.map = true
stamped_type ordered_map = true
stamped_type ordered_set = true
stamped_type _ = false

abbrev with_ttl : ℕ → Value → Value
with_ttl t v = record v { ttl = some t }

abbrev with_ttl_ordered : ℕ → OrderedValue → OrderedValue
with_ttl_ordered t v = record v { ttl = some t }

abbrev stamped : Bool → Option ℕ → Elements → Elements
stamped true (some t) e = record e {
  value_unordered = map (with_ttl t) e.value_unordered;
  value_ordered = map (with_ttl_ordered t) e.value_ordered;
}
stamped _ _ e = e

-- Values of maps and ordered sets get the TTL of the container.
unfoldable pub stamp : CreateContainerRequest → CreateContainerRequest
stamp r = record r { elements = stamped (stamped_type r.container_type) r.ttl r.elements }

-- `request.type in (LIST, VECTOR, QUEUE)`
unfoldable pub is_sequence : ContainerType → Bool
is_sequence linked_list = true
is_sequence vector = true
is_sequence queue = true
is_sequence _ = false

abbrev pub Creations : Type 0
Creations = List (CreateContainerRequest × ℕ)

abbrev pub reserved_hint : Option KeyHint
reserved_hint = some (record { week_hash = some 0xFFFFFFFF; strong_hash = some 0xFFFFFFFF })

-- the preflight of the continuation headers
unfoldable pub check_continuations : Creations → M (Unit {0})
unfolding check continuation
check_continuations [] = pure tt
check_continuations ((chunk, _) ∷ rest) = do
  check (Messages.add_to (continuation chunk reserved_hint))
  check_continuations rest

-- `decode_hint(response) or KeyHintData.unspecified()`
unfoldable pub or_unspecified : Option KeyHintData → KeyHintData
or_unspecified none = unspecified
or_unspecified (some hint) = if is_specified hint then hint else unspecified

abbrev pub continuation_rpc : Bool → CountRpc
continuation_rpc true = add_element_to_tail
continuation_rpc false = add_element

-- the server's answer to a continuation chunk: `none` where the next chunk follows
unfoldable pub refused : Bool → Result ℕ → Option Error
refused sequence (err error) = some error
refused sequence (ok size) =
    if sequence && (size == 0)
    then some (hurricache_error "server rejected continuation chunk")
    else none

abbrev pub go_on : Option Error → KeyHintData → ℕ → ℕ → M KeyHintData → M KeyHintData
go_on (some error) hint acknowledged done k env w =
    (err (partial_operation acknowledged done (hinted hint)), w)
go_on none hint acknowledged done k env w = k env w

module _ (client : Client) (timeout : Option (Option Seconds))
    (container_type : ContainerType) where
  -- the loop over `chunks[1:]`
  unfoldable pub add_continuations :
      Option KeyHint → KeyHintData → Creations → ℕ → ℕ → M KeyHintData
  unfolding is_sequence refused continuation
  add_continuations wire_hint hint [] acknowledged done env w = (ok hint, w)
  add_continuations wire_hint hint ((chunk, count) ∷ rest) acknowledged done env w =
      let (reply, w') =
        call client "create_container" (count_rpc (continuation_rpc (is_sequence container_type)))
          timeout (Messages.add_to (continuation chunk wire_hint)) env w in
      go_on (refused (is_sequence container_type) reply) hint acknowledged done
        (add_continuations wire_hint hint rest (acknowledged + 1) (done + count)) env w'

  -- a plan has at least one chunk
  abbrev pub created : Creations → M KeyHintData
  created [] = raise (value_error "list index out of range")
  created ((first, count) ∷ rest) = do
    check_continuations rest
    reply ←
        call client "create_container" Rpc.create_container timeout
          (Messages.create_container first)
    add_continuations reply (or_unspecified (decode_hint reply)) rest 1 count

-- `_create_container_chunked`
unfoldable pub create_container_chunked :
    Client → Option (Option Seconds) → CreateContainerRequest → M KeyHintData
unfolding stamp check_continuations add_continuations or_unspecified
create_container_chunked client timeout request = do
  chunks ← plan creation (stamp request) true
  created client timeout request.container_type chunks
