-- ===== src/Wire/RoundTrip.antt =====
-- What a message was built from is what decoding it gives.
use hurricache_python_client.Base.{
  ℕ, ◌+◌, ◌^◌, ◌≤◌, ◌<◌, ◌≡◌, ◌∙◌, ap, if◌then◌else◌, Bool, Option, none, some, arith, length,
  take_all,
}
use hurricache_python_client.Models.{Bytes, KeyHintData, is_specified, payload_value}
use hurricache_python_client.Base.Int.{ℤ, pos}
use hurricache_python_client.Errors.{ok}
use hurricache_python_client.Effects.{Env, World}
use hurricache_python_client.Effects.Ensures.{Holds, Returns}
use hurricache_python_client.Messages.{Key, Value, OrderedValue}
use hurricache_python_client.Wire.{
  Raw, bytes_like, text, other_object, raw, payload, mask32, decode_hint, order_of, owned_by,
  ValueLike, max_decoded_bytes, create_key, create_value, create_ordered_value, decode_key,
  decode_value, decode_ordered_value,
}
use hurricache_python_client.Wire.Gzip.{GzipLaws}

-- A hint as the wire carries it: each hash cut to 32 bits, and no hint if neither is there.
abbrev pub cut : Option ℤ → Option ℤ
cut none = none
cut (some n) = some (pos (mask32 n))

abbrev pub narrowed : Option KeyHintData → Option KeyHintData
narrowed none = none
narrowed (some hint) =
    if is_specified hint
    then some (record { week_hash = cut hint.week_hash; strong_hash = cut hint.strong_hash })
    else none

-- The bytes of a key or value: none for an object that is neither bytes nor text.
abbrev pub raw_content : Env → Raw → Option Bytes
raw_content env (bytes_like b) = some b
raw_content env (text s) = some (env.encode s)
raw_content env other_object = none

abbrev pub value_content : Env → ValueLike → Option Bytes
value_content env (payload p) = some (payload_value p)
value_content env (raw r) = raw_content env r

-- the time from which a relative TTL counts
abbrev pub moment : Env → World → ℕ
moment env w = elim w.started_millis [
  | none ↦ env.wall_millis w.wall_readings
  | some started ↦ started
]

module _ {env : Env} (laws : GzipLaws env) {content : Bytes}
    (fits : length content ≤ max_decoded_bytes) where
  take_raw : env.gunzip (env.gzip content) (length content + 1) ≡ some content
  take_raw =
      laws.read-compress content (length content + 1) ∙ ap some (take_all _ content (omega arith))

  -- A key that is built decodes to what it was built from.
  pub built-create_key :
      (key : Raw) (hint : Option KeyHintData) (client_id : ℕ) (compress : Bool) (w : World)
      → raw_content env key ≡ some content
      → Holds
          (λ (k : Key). decode_key env k ≡ ok content)
          (create_key key hint client_id compress env w).0
  unfolding create_key decode_key
  built-create_key key hint client_id compress w is_content = ground (arith, take_raw)

  -- A key built from bytes or text of at most the decoded-size limit, with a client id below 2^32,
  -- decodes to them, compressed or not, keeps the client id, and its hint decodes to the given one
  -- cut to 32 bits; building it raises nothing.
  pub decode-create_key :
      (key : Raw) (hint : Option KeyHintData) (client_id : ℕ) (compress : Bool) (w : World)
      → raw_content env key ≡ some content
      → client_id < 2 ^ 32
      → Returns
          (λ (k : Key).
            (decode_key env k ≡ ok content)
            × (decode_hint k.hint_field ≡ narrowed hint)
            × (k.client_id ≡ some client_id))
          (create_key key hint client_id compress env w).0
  unfolding create_key decode_key decode_hint is_specified
  decode-create_key key hint client_id compress w is_content in_range = ground (arith, take_raw)

  -- A value of at most the decoded-size limit, with a client id below 2^32 and an expiration below
  -- 2^64, decodes, compressed or not, to the bytes it was built from, and carries the lock owner;
  -- building it raises nothing.
  pub decode-create_value :
      (value : ValueLike) (ttl client_id : ℕ) (compress : Bool) (w : World)
      → value_content env value ≡ some content
      → client_id < 2 ^ 32
      → moment env w + ttl < 2 ^ 64
      → Returns
          (λ (v : Value). (decode_value env v ≡ ok content) × (v.lock_info ≡ owned_by client_id))
          (create_value value ttl client_id compress env w).0
  unfolding create_value decode_value
  decode-create_value value ttl client_id compress w is_content in_range soon =
      ground (arith, take_raw)

  -- An ordered value of at most the decoded-size limit, with a client id below 2^32 and an order
  -- and an expiration below 2^64, decodes to its bytes and keeps its order, which is the payload's
  -- own if it has one; building it raises nothing.
  pub decode-create_ordered_value :
      (value : ValueLike) (order ttl client_id : ℕ) (w : World)
      → value_content env value ≡ some content
      → client_id < 2 ^ 32
      → order_of value order < 2 ^ 64
      → moment env w + ttl < 2 ^ 64
      → Returns
          (λ (v : OrderedValue).
            (decode_ordered_value env v ≡ ok content) × (v.order ≡ order_of value order))
          (create_ordered_value value order ttl client_id env w).0
  unfolding create_ordered_value decode_ordered_value
  decode-create_ordered_value value order ttl client_id w is_content in_range small soon =
      ground (arith, take_raw)
