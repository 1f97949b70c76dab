-- ===== src/Client/Creations.antt =====
-- Creating containers.
use hurricache_python_client.Base.{
  ℕ, String, true, false, Option, none, List, ◌==◌, if◌then◌else◌, length,
}
use hurricache_python_client.Base.Int.{ℤ}
use hurricache_python_client.Models.{
  Bytes, KeyHintData, ContainerType, vector, linked_list, queue, ordered_map, ordered_set,
}
use hurricache_python_client.Models as Models
use hurricache_python_client.Errors.{value_error}
use hurricache_python_client.Messages.{no_elements}
use hurricache_python_client.Effects.{M, pure, raise, ◌>>=◌, ◌>>◌}
use hurricache_python_client.Operation.{Client, wrap_ttl}
use hurricache_python_client.Wire.{
  Raw, bytes_like, ValueLike, raw, create_key, create_value, create_ordered_key,
  create_ordered_value, ttl_field,
}
use hurricache_python_client.Client.{create_container_chunked}
use hurricache_python_client.Client.Requests.{Target, cid, build_key, each, or_nil}

-- An `OrderedPayload`, by its fields `value` and `order`.
abbrev pub Weighted : Type 0
Weighted = Bytes × ℕ

-- `_create_unordered_container`
unfoldable pub create_unordered_container :
    Client → Target → ContainerType → Option (List ValueLike) → ℕ → M KeyHintData
unfolding build_key each create_value ttl_field create_container_chunked
create_unordered_container c t container_type values ttl = do
  key ← build_key c t
  vs ← each (λ v. create_value v 0 (cid c t) false) (or_nil values)
  until ← ttl_field ttl
  create_container_chunked c t.timeout (record {
    key = key;
    container_type = container_type;
    ttl = until;
    elements = record no_elements { value_unordered = vs };
  })

unfoldable pub create_vector : Client → Target → Option (List ValueLike) → Option ℤ → M KeyHintData
unfolding wrap_ttl create_unordered_container
create_vector c t values ttl =
    wrap_ttl c t.timeout ttl (create_unordered_container c t vector values)

unfoldable pub create_list : Client → Target → Option (List ValueLike) → Option ℤ → M KeyHintData
unfolding wrap_ttl create_unordered_container
create_list c t values ttl =
    wrap_ttl c t.timeout ttl (create_unordered_container c t linked_list values)

unfoldable pub create_queue : Client → Target → Option (List ValueLike) → Option ℤ → M KeyHintData
unfolding wrap_ttl create_unordered_container
create_queue c t values ttl = wrap_ttl c t.timeout ttl (create_unordered_container c t queue values)

unfoldable pub create_set : Client → Target → Option (List ValueLike) → Option ℤ → M KeyHintData
unfolding wrap_ttl create_unordered_container
create_set c t values ttl =
    wrap_ttl c t.timeout ttl (create_unordered_container c t Models.set values)

-- `if len(keys or []) != len(values or []): raise ValueError(message)`
abbrev pub same_length : {A B : Type 0} → List A → List B → String → M (Unit {0})
same_length keys values message =
    if length keys == length values then pure tt else raise (value_error message)

unfoldable pub create_map :
    Client → Target → Option (List Raw) → Option (List ValueLike) → Option ℤ → M KeyHintData
unfolding wrap_ttl build_key each create_key create_value ttl_field create_container_chunked
create_map c t keys values ttl = wrap_ttl c t.timeout ttl λ milliseconds. do
  same_length (or_nil keys) (or_nil values) "map keys and values must have equal lengths"
  key ← build_key c t
  ks ← each (λ k. create_key k none (cid c t) false) (or_nil keys)
  vs ← each (λ v. create_value v milliseconds (cid c t) false) (or_nil values)
  until ← ttl_field milliseconds
  create_container_chunked c t.timeout (record {
    key = key;
    container_type = Models.map;
    ttl = until;
    elements = record no_elements { key_unordered = ks; value_unordered = vs };
  })

unfoldable pub create_ordered_set :
    Client → Target → Option (List Weighted) → Option ℤ → M KeyHintData
unfolding wrap_ttl build_key each create_ordered_value ttl_field create_container_chunked
create_ordered_set c t values ttl = wrap_ttl c t.timeout ttl λ milliseconds. do
  key ← build_key c t
  vs ←
      each (λ v. create_ordered_value (raw (bytes_like v.0)) v.1 milliseconds (cid c t))
        (or_nil values)
  until ← ttl_field milliseconds
  create_container_chunked c t.timeout (record {
    key = key;
    container_type = ordered_set;
    ttl = until;
    elements = record no_elements { value_ordered = vs };
  })

unfoldable pub create_ordered_map :
    Client → Target → Option (List Weighted) → Option (List ValueLike) → Option ℤ → M KeyHintData
unfolding wrap_ttl build_key each create_ordered_key create_value ttl_field create_container_chunked
create_ordered_map c t keys values ttl = wrap_ttl c t.timeout ttl λ milliseconds. do
  same_length (or_nil keys) (or_nil values) "ordered-map keys and values must have equal lengths"
  key ← build_key c t
  ks ← each (λ k. create_ordered_key (raw (bytes_like k.0)) k.1 (cid c t)) (or_nil keys)
  vs ← each (λ v. create_value v milliseconds (cid c t) true) (or_nil values)
  until ← ttl_field milliseconds
  create_container_chunked c t.timeout (record {
    key = key;
    container_type = ordered_map;
    ttl = until;
    elements = record no_elements { key_ordered = ks; value_unordered = vs };
  })
