-- ===== src/Samples/Encodings.antt =====
-- Keys and values, encoded and decoded, and streams.
use hurricache_python_client.Base.{
  ℕ, ◌≤◌, ◌≡◌, refl, true, none, some, List, [], ◌∷◌, arith, length,
}
use hurricache_python_client.Base.Int.{negsuc}
use hurricache_python_client.Models.{Bytes, Payload, plain, ordered, KeyHintData}
use hurricache_python_client.Errors.{ok}
use hurricache_python_client.Messages.{
  BinaryPayload, no_compression, Key, Value, OrderedValue, Elements, no_elements,
}
use hurricache_python_client.Rpc.{Stream}
use hurricache_python_client.Effects.{start, World}
use hurricache_python_client.Effects.Ensures.{Holds, Returns}
use hurricache_python_client.Wire.{
  bytes_like, raw, payload, decode, decode_key, decode_value, decode_ordered_value, decode_hint,
  owned_by, order_of, create_key, create_value, create_ordered_value, max_decoded_bytes,
}
use hurricache_python_client.Wire.Gzip.{GzipLaws}
use hurricache_python_client.Wire.RoundTrip.{
  decode-create_key, decode-create_value, decode-create_ordered_value, narrowed,
}
use hurricache_python_client.Wire.Encoding.{decode_bounds, Declared}
use hurricache_python_client.Streams.{collect_stream, decode_batch, decode_values, mapped_failure}
use hurricache_python_client.Streams.Progress.{collect_stream-lists, outcome}
use hurricache_python_client.Samples.{env, a_key, value_of_byte, down}

abbrev content : Bytes
content = 1 ∷ 2 ∷ []

gzip_laws : GzipLaws env
gzip_laws = record { read-compress = λ xs n. refl }

abbrev hint : KeyHintData
hint = record { week_hash = some (negsuc 0); strong_hash = none }

decode-create_key_example :
    Returns
      (λ (k : Key).
        (decode_key env k ≡ ok content)
        × (decode_hint k.hint_field ≡ narrowed (some hint))
        × (k.client_id ≡ some 7))
      (create_key (bytes_like content) (some hint) 7 true env start).0
decode-create_key_example =
    decode-create_key gzip_laws (omega arith) (bytes_like content) (some hint) 7 true start refl
      (omega arith)

-- a compression threshold of one byte
abbrev eager : World
eager = record start { context = record start.context { threshold = 1 } }

decode-create_value_example :
    Returns
      (λ (v : Value). (decode_value env v ≡ ok content) × (v.lock_info ≡ owned_by 7))
      (create_value (raw (bytes_like content)) 100 7 true env eager).0
decode-create_value_example =
    decode-create_value gzip_laws (omega arith) (raw (bytes_like content)) 100 7 true eager refl
      (omega arith) (omega arith)

decode-create_ordered_value_example :
    Returns
      (λ (v : OrderedValue).
        (decode_ordered_value env v ≡ ok content)
        × (v.order ≡ order_of (payload (ordered content 5)) 3))
      (create_ordered_value (payload (ordered content 5)) 3 100 7 env eager).0
decode-create_ordered_value_example =
    decode-create_ordered_value gzip_laws (omega arith) (payload (ordered content 5)) 3 100 7 eager
      refl (omega arith) (omega arith) (omega arith)

abbrev body : BinaryPayload
body = record { payload = content; size = 2 }

decode_bounds_example :
    Holds
      (λ (xs : Bytes). (length xs ≤ max_decoded_bytes) × Declared no_compression xs)
      (decode env body no_compression)
decode_bounds_example = decode_bounds env body no_compression

abbrev batch : ℕ → Elements
batch n = record no_elements { value_unordered = value_of_byte n ∷ [] }

abbrev lists : List (List Payload)
lists = (plain (1 ∷ []) ∷ []) ∷ (plain (2 ∷ []) ∷ []) ∷ []

abbrev broken : Stream
broken = record { batches = batch 1 ∷ batch 2 ∷ []; failure = some down }

collect_stream-lists_example :
    collect_stream "get" broken content env start
    ≡ (outcome (mapped_failure "get" (some down) content) lists, start)
unfolding decode_batch decode_values decode decode_value
collect_stream-lists_example =
    collect_stream-lists env start refl "get" content broken lists (refl, (refl, tt))

abbrev odd : Elements
odd = record (batch 1) { key_unordered = a_key ∷ a_key ∷ [] }

abbrev pair : Elements
pair = record (batch 1) { key_unordered = a_key ∷ [] }
