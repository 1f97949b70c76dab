-- ===== src/Async/Insertions.antt =====
-- The asynchronous client: adding and removing elements by chunks.
use hurricache_python_client.Base.{ℕ, String, Bool, true, false, Option, none, some, List}
use hurricache_python_client.Base.Int.{ℤ, pos, negsuc}
use hurricache_python_client.Models.{ContainerType, ordered_map}
use hurricache_python_client.Models
use hurricache_python_client.Messages.{Elements, no_elements}
use hurricache_python_client.Rpc.{CountRpc}
use hurricache_python_client.Rpc
use hurricache_python_client.Effects.{M, pure, ◌>>=◌, ◌>>◌}
use hurricache_python_client.Operation.{Client, wrap, wrap_ttl}
use hurricache_python_client.Wire.{
  Raw, ValueLike, create_key, create_value, create_ordered_key, create_ordered_value,
}
use hurricache_python_client.Batching.Shapes.{addition, relative, removal}
use hurricache_python_client.Client.{Added}
use hurricache_python_client.Client.Requests.{Target, each, or_nil}
use hurricache_python_client.Async.{key_of, send_add_chunks}
use hurricache_python_client.Async.Values.{id_of}
use hurricache_python_client.Async.Containers.{equal_lengths}

unfoldable pub remove_from_container_by_key_value :
    Client → Target → ContainerType → Option (List ValueLike) → Option (List Raw) → M Added
unfolding wrap key_of each create_value create_key send_add_chunks
remove_from_container_by_key_value c t container_type values keys = wrap c t.timeout do
  key ← key_of c t
  vs ← each (λ v. create_value v 0 (id_of c t) false) (or_nil values)
  ks ← each (λ k. create_key k none (id_of c t) true) (or_nil keys)
  send_add_chunks removal c "remove_from_container_by_key_value"
      Rpc.remove_from_container_by_key_value t.timeout false
      (record { key = key; container_type = container_type; values = vs; keys = ks })

-- `if keys is not None and len(keys) != len(values or ())`
abbrev pub paired_with : Option (List Raw) → List ValueLike → String → M (Unit {0})
paired_with none values message = pure tt
paired_with (some keys) values message = equal_lengths keys values message

-- `request.type`, where there are keys
abbrev pub typed : {A : Type 0} → ContainerType → Option A → Option ContainerType
typed container_type none = none
typed container_type (some _) = some container_type

-- `pos if pos >= 0 else 0xFFFFFFFF`, where there is a position
abbrev pub wire_position : Option ℤ → Option ℕ
wire_position none = none
wire_position (some (pos n)) = some n
wire_position (some (negsuc n)) = some 0xFFFFFFFF

-- `_add_unordered`
unfoldable pub add_unordered :
    String
    → CountRpc
    → Client
    → Target
    → Option (List ValueLike)
    → Option (List Raw)
    → ℕ
    → Option ℤ
    → M Added
unfolding key_of each create_value create_key send_add_chunks
add_unordered name rpc c t values keys ttl position = do
  paired_with keys (or_nil values) "map keys and values must have equal lengths"
  key ← key_of c t
  vs ← each (λ v. create_value v ttl (id_of c t) false) (or_nil values)
  ks ← each (λ k. create_key k none (id_of c t) false) (or_nil keys)
  send_add_chunks addition c name rpc t.timeout false (record {
    key = key;
    container_type = typed Models.map keys;
    pos = wire_position position;
    elements = record no_elements { key_unordered = ks; value_unordered = vs };
  })

-- the insertions at either end
abbrev pub at_end :
    String → CountRpc → Client → Target → Option (List ValueLike) → Option ℤ → M Added
at_end name rpc c t values ttl =
    wrap_ttl c t.timeout ttl
      λ milliseconds. add_unordered name rpc c t values none milliseconds none

unfoldable pub add_element_to_tail : Client → Target → Option (List ValueLike) → Option ℤ → M Added
unfolding wrap_ttl add_unordered
add_element_to_tail = at_end "add_element_to_tail" Rpc.add_element_to_tail

unfoldable pub add_element_to_head : Client → Target → Option (List ValueLike) → Option ℤ → M Added
unfolding wrap_ttl add_unordered
add_element_to_head = at_end "add_element_to_head" Rpc.add_element_to_head

unfoldable pub add_element_to_tail_count :
    Client → Target → Option (List ValueLike) → Option ℤ → M Added
unfolding wrap_ttl add_unordered
add_element_to_tail_count = at_end "add_element_to_tail_count" Rpc.add_element_to_tail

unfoldable pub add_element_to_head_count :
    Client → Target → Option (List ValueLike) → Option ℤ → M Added
unfolding wrap_ttl add_unordered
add_element_to_head_count = at_end "add_element_to_head_count" Rpc.add_element_to_head

unfoldable pub add_element :
    Client → Target → Option (List ValueLike) → Option (List Raw) → Option ℤ → M Added
unfolding wrap_ttl add_unordered
add_element c t values keys ttl =
    wrap_ttl c t.timeout ttl
      λ milliseconds. add_unordered "add_element" Rpc.add_element c t values keys milliseconds none

unfoldable pub add_element_unordered :
    Client → Target → Option (List ValueLike) → Option (List Raw) → ℤ → Option ℤ → M Added
unfolding wrap_ttl add_unordered
add_element_unordered c t values keys position ttl = wrap_ttl c t.timeout ttl λ milliseconds.
    add_unordered "add_element_unordered" Rpc.add_element c t values keys milliseconds
      (some position)

unfoldable pub add_element_to_position : Client → Target → Option (List ValueLike) → ℤ → M Added
unfolding wrap add_element_unordered
add_element_to_position c t values position =
    wrap c t.timeout (add_element_unordered c t values none position (some (pos 0)))

-- the elements of `add_element_ordered`
abbrev pub weighed : Client → Target → Option (List ValueLike) → List ValueLike → ℕ → M Elements
weighed c t none values ttl = do
  vs ← each (λ v. create_ordered_value v 0 ttl (id_of c t)) values
  pure (record no_elements { value_ordered = vs })
weighed c t (some keys) values ttl = do
  equal_lengths keys values "ordered-map keys and values must have equal lengths"
  ks ← each (λ k. create_ordered_key k 0 (id_of c t)) keys
  vs ← each (λ v. create_value v ttl (id_of c t) true) values
  pure (record no_elements { key_ordered = ks; value_unordered = vs })

-- the Boolean is the keyword argument `_boolean`
unfoldable pub add_element_ordered :
    Client
    → Target
    → Option (List ValueLike)
    → Option (List ValueLike)
    → ℕ
    → Option ℤ
    → Bool
    → M Added
unfolding wrap_ttl key_of each create_value create_ordered_value create_ordered_key send_add_chunks
add_element_ordered c t values keys position ttl boolean = wrap_ttl c t.timeout ttl λ milliseconds.
    do
      key ← key_of c t
      elements ← weighed c t keys (or_nil values) milliseconds
      send_add_chunks addition c "add_element_ordered" Rpc.add_element t.timeout boolean (record {
        key = key;
        container_type = typed ordered_map keys;
        pos = some position;
        elements = elements;
      })

unfoldable pub add_element_with_weight : Client → Target → Option (List ValueLike) → M Added
unfolding wrap add_element_ordered
add_element_with_weight c t values =
    wrap c t.timeout (add_element_ordered c t values none 0 (some (pos 0)) false)

unfoldable pub add_element_ordered_set : Client → Target → Option (List ValueLike) → M Added
unfolding wrap add_element_ordered
add_element_ordered_set c t values =
    wrap c t.timeout (add_element_ordered c t values none 0 (some (pos 0)) true)

unfoldable pub add_element_ordered_map :
    Client → Target → Option (List ValueLike) → Option (List ValueLike) → M Added
unfolding wrap key_of each create_value create_ordered_key send_add_chunks
add_element_ordered_map c t keys values = wrap c t.timeout do
  equal_lengths (or_nil keys) (or_nil values) "map keys and values must have equal lengths"
  key ← key_of c t
  ks ← each (λ k. create_ordered_key k 0 (id_of c t)) (or_nil keys)
  vs ← each (λ v. create_value v 0 (id_of c t) true) (or_nil values)
  send_add_chunks addition c "add_element_ordered_map" Rpc.add_element t.timeout false (record {
    key = key;
    container_type = some ordered_map;
    pos = none;
    elements = record no_elements { key_ordered = ks; value_unordered = vs };
  })

-- the insertions before or after a value
unfoldable pub by_value :
    String → Client → Target → ValueLike → Bool → Option (List ValueLike) → Option ℤ → M Added
unfolding wrap_ttl key_of each create_value send_add_chunks
by_value name c t pivot is_before values ttl = wrap_ttl c t.timeout ttl λ milliseconds. do
  key ← key_of c t
  p ← create_value pivot 0 (id_of c t) false
  vs ← each (λ v. create_value v 0 (id_of c t) false) (or_nil values)
  send_add_chunks relative c name Rpc.add_element_to_position_by_value t.timeout false
      (record { key = key; ttl = some milliseconds; is_before = is_before; pivot = p; value = vs })

unfoldable pub add_element_to_position_by_value :
    Client → Target → ValueLike → Bool → Option (List ValueLike) → Option ℤ → M Added
unfolding by_value
add_element_to_position_by_value = by_value "add_element_to_position_by_value"

unfoldable pub add_element_to_position_by_value_count :
    Client → Target → ValueLike → Bool → Option (List ValueLike) → Option ℤ → M Added
unfolding by_value
add_element_to_position_by_value_count = by_value "add_element_to_position_by_value_count"

-- a call of one of the two from an operation with no TTL, whose default is 0
abbrev beside :
    (Client → Target → ValueLike → Bool → Option (List ValueLike) → Option ℤ → M Added)
    → Bool
    → Client
    → Target
    → ValueLike
    → Option (List ValueLike)
    → M Added
beside insert is_before c t pivot values =
    wrap c t.timeout (insert c t pivot is_before values (some (pos 0)))

unfoldable pub add_element_to_position_before :
    Client → Target → ValueLike → Option (List ValueLike) → M Added
unfolding wrap add_element_to_position_by_value
add_element_to_position_before = beside add_element_to_position_by_value true

unfoldable pub add_element_to_position_after :
    Client → Target → ValueLike → Option (List ValueLike) → M Added
unfolding wrap add_element_to_position_by_value
add_element_to_position_after = beside add_element_to_position_by_value false

unfoldable pub add_element_to_position_before_count :
    Client → Target → ValueLike → Option (List ValueLike) → M Added
unfolding wrap add_element_to_position_by_value_count
add_element_to_position_before_count = beside add_element_to_position_by_value_count true

unfoldable pub add_element_to_position_after_count :
    Client → Target → ValueLike → Option (List ValueLike) → M Added
unfolding wrap add_element_to_position_by_value_count
add_element_to_position_after_count = beside add_element_to_position_by_value_count false
