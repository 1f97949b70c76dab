-- ===== src/Models/Payloads.antt =====
-- `Payload` and `OrderedPayload` of hurricache/grpc/models.py.
use hurricache_python_client.Base.{ℕ, List}

-- A `bytes` object: its bytes as numbers.
abbrev pub Bytes : Type 0
Bytes = List ℕ

-- One constructor for each of the two classes; `OrderedPayload` adds `order`.
pub data Payload : Type 0 where
  plain : Bytes → Payload
  ordered : Bytes → ℕ → Payload

-- the field `value`, which both classes have
abbrev pub payload_value : Payload → Bytes
payload_value (plain value) = value
payload_value (ordered value _) = value
