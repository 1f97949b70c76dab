-- ===== src/Streams.antt =====
-- Streamed replies: `decode_batch` of hurricache/grpc/utils.py and `_collect_stream` of
-- hurricache/grpc/client.py.
pub mod Progress
pub mod Maps
use hurricache_python_client.Base.{
  ℕ, zero, suc, ◌+◌, String, Bool, true, false, Option, none, some, List, [], ◌∷◌, ◌++◌, map, ◌==◌,
  if◌then◌else◌, length,
}
use hurricache_python_client.Models.{Bytes, Payload, plain, ordered, payload_eq}
use hurricache_python_client.Errors.{
  RpcError, Collection, items, pairs, PartialResult, collected, Error, partial_operation,
  value_error, type_error, Result, ok, err, ◌>>=◌, map_result,
}
use hurricache_python_client.Errors.Mapping.{mapped_rpc_error}
use hurricache_python_client.Messages.{Key, OrderedKey, Value, OrderedValue, Elements}
use hurricache_python_client.Rpc.{Stream}
use hurricache_python_client.Effects.{Env, World, M, Seconds}
use hurricache_python_client.Operation.{remaining}
use hurricache_python_client.Wire.{
  decode_key, decode_ordered_key, decode_value, decode_ordered_value,
}

abbrev pub Pairs : Type 0
Pairs = List (Payload × Payload)

-- `d[k] = v`: a key that is there keeps its place
unfoldable pub dict_set : Payload → Payload → Pairs → Pairs
dict_set k v [] = (k, v) ∷ []
dict_set k v ((j, w) ∷ d) =
    let rest = dict_set k v d in if payload_eq j k then (j, v) ∷ d else (j, w) ∷ rest

-- `d.update(other)`
unfoldable pub dict_update : Pairs → Pairs → Pairs
unfolding dict_set
dict_update d [] = d
dict_update d ((k, v) ∷ other) = dict_update (dict_set k v d) other

module _ (env : Env) where
  -- the dict comprehensions over `zip(keys, values)`, which set one key after the other
  unfoldable pub decode_ordered_pairs : List OrderedKey → List Value → Pairs → Result Pairs
  decode_ordered_pairs (k ∷ ks) (v ∷ vs) d = decode_ordered_key env k >>= λ key.
      decode_value env v >>= λ value.
      decode_ordered_pairs ks vs (dict_set (ordered key k.order) (plain value) d)
  decode_ordered_pairs _ _ d = ok d

  unfoldable pub decode_pairs : List Key → List Value → Pairs → Result Pairs
  decode_pairs (k ∷ ks) (v ∷ vs) d = decode_key env k >>= λ key.
      decode_value env v >>= λ value. decode_pairs ks vs (dict_set (plain key) (plain value) d)
  decode_pairs _ _ d = ok d

  unfoldable pub decode_ordered_values : List OrderedValue → Result (List Payload)
  decode_ordered_values [] = ok []
  decode_ordered_values (v ∷ vs) = decode_ordered_value env v >>= λ value.
      decode_ordered_values vs >>= λ rest. ok (ordered value v.order ∷ rest)

  unfoldable pub decode_values : List Value → Result (List Payload)
  decode_values [] = ok []
  decode_values (v ∷ vs) =
      decode_value env v >>= λ value. decode_values vs >>= λ rest. ok (plain value ∷ rest)

  -- The first field that is not empty, in this order, says what the batch is.
  pub decode_fields :
      List OrderedKey → List Key → List OrderedValue → List Value → Result Collection
  decode_fields (k ∷ ks) _ _ vs =
      if length (k ∷ ks) == length vs
      then map_result pairs (decode_ordered_pairs (k ∷ ks) vs [])
      else err (value_error "ordered-map batch contains unpaired keys and values")
  decode_fields [] (k ∷ ks) _ vs =
      if length (k ∷ ks) == length vs
      then map_result pairs (decode_pairs (k ∷ ks) vs [])
      else err (value_error "map batch contains unpaired keys and values")
  decode_fields [] [] (v ∷ vs) _ = map_result items (decode_ordered_values (v ∷ vs))
  decode_fields [] [] [] vs = map_result items (decode_values vs)

  unfoldable pub decode_batch : Elements → Result Collection
  unfolding decode_fields
  decode_batch b = decode_fields b.key_ordered b.key_unordered b.value_ordered b.value_unordered

-- `len(decoded)`
abbrev pub size : Collection → ℕ
size (items xs) = length xs
size (pairs d) = length d

-- `{} if isinstance(decoded, dict) else []`
abbrev pub empty_like : Collection → Collection
empty_like (items _) = items []
empty_like (pairs _) = pairs []

-- `result.update(decoded)` or `result.extend(decoded)`. A list extended by a dict gets its keys,
-- and a dict is not updated by payloads.
unfoldable pub merged : Collection → Collection → Result Collection
unfolding dict_update
merged (pairs d) (pairs other) = ok (pairs (dict_update d other))
merged (pairs d) (items []) = ok (pairs d)
merged (pairs d) (items (_ ∷ _)) =
    err (type_error "cannot convert dictionary update sequence element #0 to a sequence")
merged (items xs) (items ys) = ok (items (xs ++ ys))
merged (items xs) (pairs other) = ok (items (xs ++ map (λ p. p.0) other))

-- The variables `result`, `completed_chunks` and `completed_items`.
pub record Collected : Type 0 where
  pub result : Option Collection
  pub chunks : ℕ
  pub count : ℕ

abbrev pub nothing_yet : Collected
nothing_yet = record { result = none; chunks = 0; count = 0 }

abbrev or_new : Option Collection → Collection → Collection
or_new none decoded = empty_like decoded
or_new (some result) decoded = result

-- `[] if result is None else result`
abbrev pub or_list : Option Collection → Collection
or_list none = items []
or_list (some result) = result

-- Work that was done before a failure makes it a partial one.
abbrev pub interrupted : Collected → Error → Error
interrupted p error =
    if p.chunks == 0
    then error
    else partial_operation p.chunks p.count (collected (or_list p.result))

abbrev pub ended : Option Error → Collected → Result Collection
ended none p = ok (or_list p.result)
ended (some error) p = err (interrupted p error)

abbrev pub counting : Collected → Collection → Collected
counting p decoded = record {
  result = some (or_new p.result decoded);
  chunks = p.chunks + 1;
  count = p.count + size decoded;
}

abbrev advanced : Collected → Result Collection → Result Collected
advanced p (ok result) = ok (record p { result = some result })
advanced p (err error) = err (interrupted p error)

-- one round of the loop, after `remaining()`
unfoldable pub absorb : Env → Collected → Elements → Result Collected
absorb env p batch = elim (decode_batch env batch) [
  | err error ↦ err (interrupted p error)
  | ok decoded ↦ advanced (counting p decoded) (merged (or_new p.result decoded) decoded)
]

abbrev pub proceed : Result Collected → (Collected → M Collection) → M Collection
proceed (err error) next env w = (err error, w)
proceed (ok p) next env w = next p env w

abbrev pub within : Result (Option Seconds) → Collected → Result Collected → Result Collected
within (ok _) p r = r
within (err error) p r = err (interrupted p error)

-- the `for` loop; `failure` is the error that ends the stream, as `mapped_rpc_error` gives it
unfoldable pub collect : Option Error → List Elements → Collected → M Collection
unfolding remaining absorb
collect failure [] p env w = (ended failure p, w)
collect failure (batch ∷ rest) p env w =
    let (in_time, w') = remaining none env w in
    proceed (within in_time p (absorb env p batch)) (collect failure rest) env w'

abbrev pub mapped_failure : String → Option RpcError → Bytes → Option Error
mapped_failure method none key = none
mapped_failure method (some error) key = some (mapped_rpc_error method error key)

-- `_collect_stream`
unfoldable pub collect_stream : String → Stream → Bytes → M Collection
unfolding collect
collect_stream method stream key =
    collect (mapped_failure method stream.failure key) stream.batches nothing_yet
