-- ===== src/Wire/Encoding.antt =====
-- What the wire format guarantees: the sizes that decoding lets through, and the range of hashes.
use hurricache_python_client.Base.{
  ℕ, ◌^◌, ◌≤◌, ◌<◌, ◌≡◌, Bool, true, false, ◌&&◌, Option, some, arith, ltb, length,
}
use hurricache_python_client.Base.Int.{ℤ, pos, negsuc}
use hurricache_python_client.Effects.{Env, World}
use hurricache_python_client.Effects.Ensures.{Holds}
use hurricache_python_client.Messages.{BinaryPayload, CompressedInfo, Key}
use hurricache_python_client.Models.{Bytes, KeyHintData}
use hurricache_python_client.Wire.{bytes_like, create_key, decode, mask32, max_decoded_bytes}

-- The raw size that the metadata declares, where the payload is compressed.
abbrev pub Declared : CompressedInfo → Bytes → Type 0
Declared info content = elim info.enabled [
  | true ↦ info.raw_size ≡ some (length content)
  | false ↦ Unit {0}
]

-- A decoded payload is at most the decoded-size limit, compressed or not, and a compressed one has
-- exactly its declared raw size.
pub decode_bounds :
    (env : Env) (body : BinaryPayload) (info : CompressedInfo)
    → Holds
        (λ (content : Bytes). (length content ≤ max_decoded_bytes) × Declared info content)
        (decode env body info)
unfolding decode
decode_bounds env body info = ground arith

-- A hash is cut to 32 bits, also a negative one.
pub mask32-lt : (n : ℤ) → mask32 n < 2 ^ 32
unfolding mask32
mask32-lt (pos n) = omega arith
mask32-lt (negsuc n) = omega arith

-- A key of bytes that is built is marked as compressed exactly when compression is asked for and the key is
-- longer than the threshold.
pub create_key-enabled :
    (env : Env) (w : World) (content : Bytes) (hint : Option KeyHintData) (client_id : ℕ)
    (compress : Bool)
    → Holds
        (λ (k : Key). k.compression_info.enabled ≡ (compress && ltb w.threshold (length content)))
        (create_key (bytes_like content) hint client_id compress env w).0
unfolding create_key
create_key-enabled env w content hint client_id compress = ground arith
