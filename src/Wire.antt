-- ===== src/Wire.antt =====
-- hurricache/grpc/utils.py: building and reading the messages. A message is built as one record, once
-- the setters of its fields have checked the ranges.
pub mod Gzip
pub mod RoundTrip
pub mod Encoding
pub mod Packing
use hurricache_python_client.Base.{
  ℕ, ◌+◌, ◌-◌, ◌*◌, ◌%◌, ◌^◌, String, Bool, true, false, not, ◌||◌, Option, none, some, List, [],
  ◌∷◌, leb, ltb, ◌==◌, if◌then◌else◌, length,
}
use hurricache_python_client.Base.Int.{ℤ, pos, negsuc}
use hurricache_python_client.Models.{
  Bytes, Payload, plain, ordered, payload_value, KeyHintData, no_lock,
}
use hurricache_python_client.Errors.{
  Error, Result, ok, err, type_error, value_error, ◌>>=◌ as and_then,
}
use hurricache_python_client.Messages.{
  BinaryPayload, KeyHint, CompressedInfo, no_compression, Key, OrderedKey, LockInfo, Value,
  OrderedValue, Request, get_request,
}
use hurricache_python_client.Effects.{
  Env, World, Context, M, pure, lift, raise, ◌>>=◌, ◌>>◌, get_context, ask,
}
use hurricache_python_client.Operation.{absolute_ttl}

abbrev pub max_rpc_size : ℕ
max_rpc_size = 4 * 1024 * 1024 - 512 * 1024

abbrev pub max_decoded_bytes : ℕ
max_decoded_bytes = 64 * 1024 * 1024

-- What a caller may pass as a key or a value: an object of the types `bytes`, `bytearray` and
-- `memoryview`, a `str`, or an object of another type.
pub data Raw : Type 0 where
  bytes_like : Bytes → Raw
  text : String → Raw
  other_object : Raw

-- `isinstance(value, Payload)`, or not.
pub data ValueLike : Type 0 where
  raw : Raw → ValueLike
  payload : Payload → ValueLike

unfoldable pub as_bytes : String → Raw → M Bytes
as_bytes name (text s) = do env ← ask; pure (env.encode s)
as_bytes name (bytes_like b) = pure b
as_bytes name other_object = raise (type_error name)

-- `n & 0xFFFFFFFF`, also of a negative number
unfoldable pub mask32 : ℤ → ℕ
mask32 (pos n) = n % 2 ^ 32
mask32 (negsuc n) = 2 ^ 32 - 1 - n % 2 ^ 32

abbrev masked : Option ℤ → Option ℕ
masked none = none
masked (some n) = some (mask32 n)

-- `_set_hint` of a key that has no hint; reading `target.keyHint` does not set it.
abbrev hint_message : Option ℕ → Option ℕ → Option KeyHint
hint_message none none = none
hint_message week strong = some (record { week_hash = week; strong_hash = strong })

unfoldable pub set_hint : Option KeyHintData → Option KeyHint
unfolding mask32
set_hint none = none
set_hint (some hint) = hint_message (masked hint.week_hash) (masked hint.strong_hash)

-- The body and, if it is compressed, the raw size.
unfoldable pub compressed : Bytes → Bool → M (Bytes × Option ℕ)
compressed content compress = do
  c ← get_context
  env ← ask
  if not compress || leb (length content) c.threshold
      then pure (content, none)
      else pure (env.gzip content, some (length content))

abbrev pub sized : Bytes → BinaryPayload
sized body = record { payload = body; size = length body }

abbrev pub info_of : Option ℕ → CompressedInfo
info_of none = no_compression
info_of (some raw_size) = record { enabled = true; raw_size = some raw_size }

-- Setting an unsigned field of so many bits: the runtime of protobuf checks the range.
unfoldable pub unsigned : ℕ → ℕ → M ℕ
unsigned bits n = if ltb n (2 ^ bits) then pure n else raise (value_error "Value out of range")

unfoldable pub create_key : Raw → Option KeyHintData → ℕ → Bool → M Key
unfolding as_bytes compressed set_hint unsigned
create_key key hint client_id compress = do
  content ← as_bytes "key" key
  (body, raw_size) ← compressed content compress
  id ← unsigned 32 client_id
  pure (record {
    payload = sized body;
    compression_info = info_of raw_size;
    hint_field = set_hint hint;
    client_id = some id;
  })

-- `value.value if isinstance(value, Payload) else as_bytes(value)`
unfoldable pub value_bytes : ValueLike → M Bytes
unfolding as_bytes
value_bytes (payload p) = pure (payload_value p)
value_bytes (raw value) = as_bytes "value" value

unfoldable pub ttl_field : ℕ → M (Option ℕ)
unfolding absolute_ttl unsigned
ttl_field ttl =
    if ltb 0 ttl
    then (do t ← absolute_ttl ttl; until ← unsigned 64 t; pure (some until))
    else pure none

abbrev pub owned_by : ℕ → Option LockInfo
owned_by client_id = some (record { lock_type = no_lock; locked_by = some client_id })

unfoldable pub create_value : ValueLike → ℕ → ℕ → Bool → M Value
unfolding value_bytes compressed ttl_field unsigned
create_value value ttl client_id compress = do
  content ← value_bytes value
  (body, raw_size) ← compressed content compress
  until ← ttl_field ttl
  id ← unsigned 32 client_id
  pure (record {
    value = sized body;
    compression_info = info_of raw_size;
    ttl = until;
    lock_info = owned_by id;
  })

-- An `OrderedPayload` brings its own order.
abbrev pub order_of : ValueLike → ℕ → ℕ
order_of (payload (ordered _ own)) order = own
order_of _ order = order

unfoldable pub create_ordered_value : ValueLike → ℕ → ℕ → ℕ → M OrderedValue
unfolding value_bytes compressed ttl_field unsigned
create_ordered_value value order ttl client_id = do
  content ← value_bytes value
  (body, raw_size) ← compressed content true
  weight ← unsigned 64 (order_of value order)
  until ← ttl_field ttl
  id ← unsigned 32 client_id
  pure (record {
    value = sized body;
    order = weight;
    compression_info = info_of raw_size;
    ttl = until;
    lock_info = owned_by id;
  })

-- `key: KeyLike | OrderedPayload`; a `Payload` of the other class is no bytes.
abbrev ordered_key_bytes : ValueLike → M Bytes
ordered_key_bytes (payload (ordered value _)) = pure value
ordered_key_bytes (payload (plain _)) = as_bytes "key" other_object
ordered_key_bytes (raw key) = as_bytes "key" key

unfoldable pub create_ordered_key : ValueLike → ℕ → ℕ → M OrderedKey
unfolding as_bytes compressed unsigned
create_ordered_key key order client_id = do
  content ← ordered_key_bytes key
  (body, raw_size) ← compressed content true
  weight ← unsigned 64 (order_of key order)
  id ← unsigned 32 client_id
  pure (record {
    payload = sized body;
    order = weight;
    compression_info = info_of raw_size;
    client_id = some id;
  })

unfoldable pub build_get_request : Raw → Option KeyHintData → ℕ → M Request
unfolding create_key
build_get_request key hint client_id = do
  k ← create_key key hint client_id true
  pure (get_request k)

abbrev read_gzip : Env → Bytes → ℕ → Result Bytes
read_gzip env content n = elim (env.gunzip content n) [
  | none ↦ err (value_error "invalid GZIP payload")
  | some decoded ↦ ok decoded
]

-- `not info.HasField("rawSize") or info.rawSize <= 0`
abbrev positive_size : Option ℕ → Result ℕ
positive_size none = err (value_error "compressed payload lacks a positive rawSize")
positive_size (some n) =
    if n == 0 then err (value_error "compressed payload lacks a positive rawSize") else ok n

unfoldable pub decode_plain : Bytes → Result Bytes
decode_plain content =
    if ltb max_decoded_bytes (length content)
    then err (value_error "payload exceeds decoded-size limit")
    else ok content

abbrev of_size : ℕ → Bytes → Result Bytes
of_size n decoded =
    if length decoded == n
    then ok decoded
    else err (value_error "decoded size does not match rawSize")

abbrev decode_sized : Env → Bytes → ℕ → Result Bytes
decode_sized env content n =
    if ltb max_decoded_bytes n
    then err (value_error "payload exceeds decoded-size limit")
    else and_then (read_gzip env content (n + 1)) (of_size n)

unfoldable pub decode_compressed : Env → Bytes → Option ℕ → Result Bytes
decode_compressed env content raw_size =
    and_then (positive_size raw_size) (decode_sized env content)

-- `_decode`
unfoldable pub decode : Env → BinaryPayload → CompressedInfo → Result Bytes
unfolding decode_plain decode_compressed
decode env body info =
    if not (length body.payload == body.size)
    then err (value_error "payload size metadata does not match bytes")
    else if info.enabled
    then decode_compressed env body.payload info.raw_size
    else decode_plain body.payload

unfoldable pub decode_value : Env → Value → Result Bytes
unfolding decode
decode_value env value = decode env value.value value.compression_info

unfoldable pub decode_ordered_value : Env → OrderedValue → Result Bytes
unfolding decode
decode_ordered_value env value = decode env value.value value.compression_info

unfoldable pub decode_key : Env → Key → Result Bytes
unfolding decode
decode_key env key = decode env key.payload key.compression_info

unfoldable pub decode_ordered_key : Env → OrderedKey → Result Bytes
unfolding decode
decode_ordered_key env key = decode env key.payload key.compression_info

abbrev to_int : Option ℕ → Option ℤ
to_int none = none
to_int (some n) = some (pos n)

unfoldable pub decode_hint : Option KeyHint → Option KeyHintData
decode_hint none = none
decode_hint (some hint) =
    some (record { week_hash = to_int hint.week_hash; strong_hash = to_int hint.strong_hash })
