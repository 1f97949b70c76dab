-- ===== src/Async/Containers.antt =====
-- The asynchronous client: creating containers.
use hurricache_python_client.Base.{
  ℕ, String, Bool, true, false, Option, none, List, ◌==◌, not, ◌&&◌, if◌then◌else◌, length,
}
use hurricache_python_client.Base.Int.{ℤ}
use hurricache_python_client.Models.{
  KeyHintData, ContainerType, vector, linked_list, queue, ordered_map, ordered_set,
}
use hurricache_python_client.Models
use hurricache_python_client.Errors.{value_error}
use hurricache_python_client.Messages.{Elements, no_elements}
use hurricache_python_client.Effects.{M, pure, raise, ◌>>=◌, ◌>>◌}
use hurricache_python_client.Operation.{Client, wrap_ttl}
use hurricache_python_client.Wire.{
  Raw, other_object, ValueLike, raw, payload, create_key, create_value, create_ordered_key,
  create_ordered_value, ttl_field,
}
use hurricache_python_client.Client.Requests.{Target, each, or_nil}
use hurricache_python_client.Async.{key_of, create_container_chunked}
use hurricache_python_client.Async.Values.{id_of}

-- `container_type in (MAP, ORDERED_MAP)`
unfoldable pub is_map : ContainerType → Bool
is_map Models.map = true
is_map ordered_map = true
is_map _ = false

-- A key that is a payload is no key of an unordered map: `as_bytes` raises.
abbrev pub plain_key : ValueLike → Raw
plain_key (raw key) = key
plain_key (payload _) = other_object

abbrev pub equal_lengths : {A B : Type 0} → List A → List B → String → M (Unit {0})
equal_lengths keys values message =
    if length keys == length values then pure tt else raise (value_error message)

-- the value messages, in the field that `ordered_values` says
abbrev values_in : Bool → Bool → ℕ → ℕ → List ValueLike → M Elements
values_in true compress ttl id values = do
  vs ← each (λ v. create_ordered_value v 0 ttl id) values
  pure (record no_elements { value_ordered = vs })
values_in false compress ttl id values = do
  vs ← each (λ v. create_value v ttl id compress) values
  pure (record no_elements { value_unordered = vs })

-- the key messages, in the field that `ordered_keys` says
abbrev keys_in : Bool → ℕ → List ValueLike → Elements → M Elements
keys_in true id keys elements = do
  ks ← each (λ k. create_ordered_key k 0 id) keys
  pure (record elements { key_ordered = ks })
keys_in false id keys elements = do
  ks ← each (λ k. create_key (plain_key k) none id false) keys
  pure (record elements { key_unordered = ks })

abbrev checked_lengths : Bool → List ValueLike → List ValueLike → M (Unit {0})
checked_lengths true keys values =
    equal_lengths keys values "map keys and values must have equal lengths"
checked_lengths false keys values = pure tt

-- `_create_container`
unfoldable pub create_container :
    Client
    → Target
    → ContainerType
    → Option (List ValueLike)
    → Option (List ValueLike)
    → ℕ
    → Bool
    → Bool
    → M KeyHintData
unfolding is_map each create_value create_ordered_value create_key create_ordered_key key_of
    ttl_field create_container_chunked
create_container c t container_type values keys ttl ordered_values ordered_keys = do
  checked_lengths (is_map container_type) (or_nil keys) (or_nil values)
  valued ←
      values_in ordered_values ordered_keys
        (if not ordered_values && not (is_map container_type) then 0 else ttl) (id_of c t)
        (or_nil values)
  elements ← keys_in ordered_keys (id_of c t) (or_nil keys) valued
  key ← key_of c t
  until ← ttl_field ttl
  create_container_chunked c t.timeout
      (record { key = key; container_type = container_type; ttl = until; elements = elements })

abbrev of_values :
    ContainerType → Bool → Client → Target → Option (List ValueLike) → Option ℤ → M KeyHintData
of_values container_type ordered_values c t values ttl = wrap_ttl c t.timeout ttl λ milliseconds.
    create_container c t container_type values none milliseconds ordered_values false

unfoldable pub create_vector : Client → Target → Option (List ValueLike) → Option ℤ → M KeyHintData
unfolding wrap_ttl create_container
create_vector = of_values vector false

unfoldable pub create_list : Client → Target → Option (List ValueLike) → Option ℤ → M KeyHintData
unfolding wrap_ttl create_container
create_list = of_values linked_list false

unfoldable pub create_queue : Client → Target → Option (List ValueLike) → Option ℤ → M KeyHintData
unfolding wrap_ttl create_container
create_queue = of_values queue false

unfoldable pub create_set : Client → Target → Option (List ValueLike) → Option ℤ → M KeyHintData
unfolding wrap_ttl create_container
create_set = of_values Models.set false

unfoldable pub create_ordered_set :
    Client → Target → Option (List ValueLike) → Option ℤ → M KeyHintData
unfolding wrap_ttl create_container
create_ordered_set = of_values ordered_set true

unfoldable pub create_map :
    Client → Target → Option (List ValueLike) → Option (List ValueLike) → Option ℤ → M KeyHintData
unfolding wrap_ttl create_container
create_map c t keys values ttl =
    wrap_ttl c t.timeout ttl
      λ milliseconds. create_container c t Models.map values keys milliseconds false false

unfoldable pub create_ordered_map :
    Client → Target → Option (List ValueLike) → Option (List ValueLike) → Option ℤ → M KeyHintData
unfolding wrap_ttl create_container
create_ordered_map c t keys values ttl =
    wrap_ttl c t.timeout ttl
      λ milliseconds. create_container c t ordered_map values keys milliseconds false true
