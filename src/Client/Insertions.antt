-- ===== src/Client/Insertions.antt =====
-- Adding and removing elements by chunks.
use hurricache_python_client.Base.{ℕ, String, Bool, true, false, Option, none, some, List}
use hurricache_python_client.Base.Int.{ℤ, pos, negsuc}
use hurricache_python_client.Models.{ContainerType, ordered_map}
use hurricache_python_client.Models
use hurricache_python_client.Messages.{Elements, no_elements}
use hurricache_python_client.Rpc.{CountRpc}
use hurricache_python_client.Rpc
use hurricache_python_client.Effects.{M, pure, ◌>>=◌, ◌>>◌}
use hurricache_python_client.Operation.{Client, wrap, wrap_ttl}
use hurricache_python_client.Wire.{
  Raw, ValueLike, create_key, create_value, create_ordered_key, create_ordered_value,
}
use hurricache_python_client.Batching.Shapes.{addition, relative, removal, append_position}
use hurricache_python_client.Client.{call_add_chunked, Added}
use hurricache_python_client.Client.Requests.{Target, cid, build_key, each, or_nil}
use hurricache_python_client.Client.Creations.{same_length}

unfoldable pub remove_from_container_by_key_value :
    Client → Target → ContainerType → Option (List ValueLike) → Option (List Raw) → M Added
unfolding wrap build_key each create_value create_key call_add_chunked
remove_from_container_by_key_value c t container_type values keys = wrap c t.timeout do
  vs ← each (λ v. create_value v 0 (cid c t) false) (or_nil values)
  ks ← each (λ k. create_key k none (cid c t) true) (or_nil keys)
  key ← build_key c t
  call_add_chunked removal c "remove_from_container_by_key_value"
      Rpc.remove_from_container_by_key_value t.timeout false
      (record { key = key; container_type = container_type; values = vs; keys = ks })

-- the request of the insertions at either end
unfoldable pub add_at_end :
    String → CountRpc → Client → Target → Option (List ValueLike) → Option ℤ → M Added
unfolding wrap_ttl build_key each create_value call_add_chunked
add_at_end name rpc c t values ttl = wrap_ttl c t.timeout ttl λ milliseconds. do
  key ← build_key c t
  vs ← each (λ v. create_value v milliseconds (cid c t) false) (or_nil values)
  call_add_chunked addition c name rpc t.timeout false (record {
    key = key;
    container_type = none;
    pos = none;
    elements = record no_elements { value_unordered = vs };
  })

unfoldable pub add_element_to_tail : Client → Target → Option (List ValueLike) → Option ℤ → M Added
unfolding add_at_end
add_element_to_tail = add_at_end "add_element_to_tail" Rpc.add_element_to_tail

unfoldable pub add_element_to_head : Client → Target → Option (List ValueLike) → Option ℤ → M Added
unfolding add_at_end
add_element_to_head = add_at_end "add_element_to_head" Rpc.add_element_to_head

unfoldable pub add_element_to_tail_count :
    Client → Target → Option (List ValueLike) → Option ℤ → M Added
unfolding add_at_end
add_element_to_tail_count = add_at_end "add_element_to_tail_count" Rpc.add_element_to_tail

unfoldable pub add_element_to_head_count :
    Client → Target → Option (List ValueLike) → Option ℤ → M Added
unfolding add_at_end
add_element_to_head_count = add_at_end "add_element_to_head_count" Rpc.add_element_to_head

-- `keys is not None and len(keys) != len(values or [])`
abbrev paired : Option (List Raw) → List ValueLike → M (Unit {0})
paired none values = pure tt
paired (some keys) values = same_length keys values "map keys and values must have equal lengths"

-- `request.type = cache_pb2.MAP` where there are keys
abbrev map_type : Option (List Raw) → Option ContainerType
map_type none = none
map_type (some _) = some Models.map

unfoldable pub add_element :
    Client → Target → Option (List ValueLike) → Option (List Raw) → Option ℤ → M Added
unfolding wrap_ttl build_key each create_value create_key call_add_chunked
add_element c t values keys ttl = wrap_ttl c t.timeout ttl λ milliseconds. do
  paired keys (or_nil values)
  vs ← each (λ v. create_value v milliseconds (cid c t) false) (or_nil values)
  ks ← each (λ k. create_key k none (cid c t) false) (or_nil keys)
  key ← build_key c t
  call_add_chunked addition c "add_element" Rpc.add_element t.timeout false (record {
    key = key;
    container_type = map_type keys;
    pos = none;
    elements = record no_elements { key_unordered = ks; value_unordered = vs };
  })

unfoldable pub add_element_hash_map :
    Client → Target → Option (List ValueLike) → Option (List Raw) → Option ℤ → M Added
unfolding wrap_ttl add_element
add_element_hash_map c t values keys ttl =
    wrap_ttl c t.timeout ttl (λ milliseconds. add_element c t values keys (some (pos milliseconds)))

-- the request of the insertions before or after a value
unfoldable pub add_by_value :
    String → Client → Target → ValueLike → Bool → Option (List ValueLike) → Option ℤ → M Added
unfolding wrap_ttl build_key each create_value call_add_chunked
add_by_value name c t pivot is_before values ttl = wrap_ttl c t.timeout ttl λ milliseconds. do
  key ← build_key c t
  p ← create_value pivot 0 (cid c t) false
  vs ← each (λ v. create_value v 0 (cid c t) false) (or_nil values)
  call_add_chunked relative c name Rpc.add_element_to_position_by_value t.timeout false
      (record { key = key; ttl = some milliseconds; is_before = is_before; pivot = p; value = vs })

unfoldable pub add_element_to_position_by_value :
    Client → Target → ValueLike → Bool → Option (List ValueLike) → Option ℤ → M Added
unfolding add_by_value
add_element_to_position_by_value = add_by_value "add_element_to_position_by_value"

unfoldable pub add_element_to_position_by_value_count :
    Client → Target → ValueLike → Bool → Option (List ValueLike) → Option ℤ → M Added
unfolding add_by_value
add_element_to_position_by_value_count = add_by_value "add_element_to_position_by_value_count"

-- The four names that follow leave `ttl` at its default 0.
unfoldable pub add_element_to_position_before :
    Client → Target → ValueLike → Option (List ValueLike) → M Added
unfolding wrap add_element_to_position_by_value
add_element_to_position_before c t pivot values =
    wrap c t.timeout (add_element_to_position_by_value c t pivot true values (some (pos 0)))

unfoldable pub add_element_to_position_after :
    Client → Target → ValueLike → Option (List ValueLike) → M Added
unfolding wrap add_element_to_position_by_value
add_element_to_position_after c t pivot values =
    wrap c t.timeout (add_element_to_position_by_value c t pivot false values (some (pos 0)))

unfoldable pub add_element_to_position_before_count :
    Client → Target → ValueLike → Option (List ValueLike) → M Added
unfolding wrap add_element_to_position_by_value_count
add_element_to_position_before_count c t pivot values =
    wrap c t.timeout (add_element_to_position_by_value_count c t pivot true values (some (pos 0)))

unfoldable pub add_element_to_position_after_count :
    Client → Target → ValueLike → Option (List ValueLike) → M Added
unfolding wrap add_element_to_position_by_value_count
add_element_to_position_after_count c t pivot values =
    wrap c t.timeout (add_element_to_position_by_value_count c t pivot false values (some (pos 0)))

-- `pos if pos >= 0 else 0xFFFFFFFF`
abbrev position_of : ℤ → ℕ
position_of (pos n) = n
position_of (negsuc n) = append_position

unfoldable pub add_element_unordered :
    Client → Target → Option (List ValueLike) → Option (List Raw) → ℤ → Option ℤ → M Added
unfolding wrap_ttl build_key each create_value create_key call_add_chunked
add_element_unordered c t values keys position ttl = wrap_ttl c t.timeout ttl λ milliseconds. do
  paired keys (or_nil values)
  ks ← each (λ k. create_key k none (cid c t) false) (or_nil keys)
  vs ← each (λ v. create_value v milliseconds (cid c t) false) (or_nil values)
  key ← build_key c t
  call_add_chunked addition c "add_element_unordered" Rpc.add_element t.timeout false (record {
    key = key;
    container_type = none;
    pos = some (position_of position);
    elements = record no_elements { key_unordered = ks; value_unordered = vs };
  })

unfoldable pub add_element_to_position : Client → Target → Option (List ValueLike) → ℤ → M Added
unfolding wrap add_element_unordered
add_element_to_position c t values position =
    wrap c t.timeout (add_element_unordered c t values none position (some (pos 0)))

-- the elements and the type of `add_element_ordered`
abbrev pub ordered_elements :
    Client → Target → Option (List ValueLike) → List ValueLike → ℕ → M Elements
ordered_elements c t none values ttl = do
  vs ← each (λ v. create_ordered_value v 0 ttl (cid c t)) values
  pure (record no_elements { value_ordered = vs })
ordered_elements c t (some keys) values ttl = do
  same_length keys values "ordered-map keys and values must have equal lengths"
  ks ← each (λ k. create_ordered_key k 0 (cid c t)) keys
  vs ← each (λ v. create_value v ttl (cid c t) true) values
  pure (record no_elements { key_ordered = ks; value_unordered = vs })

abbrev pub ordered_type : Option (List ValueLike) → Option ContainerType
ordered_type none = none
ordered_type (some _) = some ordered_map

-- the Boolean is the keyword argument `_boolean`
unfoldable pub add_element_ordered :
    Client
    → Target
    → Option (List ValueLike)
    → Option (List ValueLike)
    → ℕ
    → Option ℤ
    → Bool
    → M Added
unfolding wrap_ttl build_key each create_value create_ordered_value create_ordered_key
    call_add_chunked
add_element_ordered c t values keys position ttl boolean = wrap_ttl c t.timeout ttl λ milliseconds.
    do
      key ← build_key c t
      elements ← ordered_elements c t keys (or_nil values) milliseconds
      call_add_chunked addition c "add_element_ordered" Rpc.add_element t.timeout boolean (record {
        key = key;
        container_type = ordered_type keys;
        pos = some position;
        elements = elements;
      })

unfoldable pub add_element_with_weight : Client → Target → Option (List ValueLike) → M Added
unfolding wrap add_element_ordered
add_element_with_weight c t values =
    wrap c t.timeout (add_element_ordered c t values none 0 (some (pos 0)) false)

unfoldable pub add_element_ordered_set : Client → Target → Option (List ValueLike) → M Added
unfolding wrap add_element_ordered
add_element_ordered_set c t values =
    wrap c t.timeout (add_element_ordered c t values none 0 (some (pos 0)) true)

unfoldable pub add_element_ordered_map :
    Client → Target → Option (List ValueLike) → Option (List ValueLike) → M Added
unfolding wrap build_key each create_value create_ordered_key call_add_chunked
add_element_ordered_map c t keys values = wrap c t.timeout do
  same_length (or_nil keys) (or_nil values) "map keys and values must have equal lengths"
  key ← build_key c t
  ks ← each (λ k. create_ordered_key k 0 (cid c t)) (or_nil keys)
  vs ← each (λ v. create_value v 0 (cid c t) true) (or_nil values)
  call_add_chunked addition c "add_element_ordered_map" Rpc.add_element t.timeout false (record {
    key = key;
    container_type = some ordered_map;
    pos = none;
    elements = record no_elements { key_ordered = ks; value_unordered = vs };
  })
