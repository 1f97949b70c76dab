-- ===== src/Samples.antt =====
-- A small server, and requests to it, for the theorems at concrete inputs.
mod Chunks
mod Encodings
mod Routes
mod Smart
mod Parity
mod AsyncSmart
use hurricache_python_client.Base.{
  ℕ, ◌+◌, String, Bool, true, false, Option, none, some, List, [], ◌∷◌, take,
}
use hurricache_python_client.Models.{Bytes, vector}
use hurricache_python_client.Errors.{RpcError}
use hurricache_python_client.Errors
use hurricache_python_client.Messages.{
  no_compression, Key, Value, no_elements, AddToRequest, AddToValRequest,
}
use hurricache_python_client.Rpc.{Rpc, Reply, add_element, count_rpc, Outcome, replied, failed}
use hurricache_python_client.Effects.{Env, Sent}
use hurricache_python_client.Operation.{Client}

abbrev pub host : Client
host = record {
  host = "localhost";
  port = 50051;
  default_client_id = 7;
  default_timeout = none;
  default_ttl = 0;
  default_compression_threshold = 1024;
  closed = false;
}

abbrev pub down : RpcError
down = record {
  code = some Errors.unavailable_code;
  details = none;
  message = "";
  trailing_metadata = none;
}

abbrev pub a_key : Key
a_key = record {
  payload = record { payload = 107 ∷ []; size = 1 };
  compression_info = no_compression;
  hint_field = none;
  client_id = some 7;
}

abbrev pub value_of_byte : ℕ → Value
value_of_byte n = record {
  value = record { payload = n ∷ []; size = 1 };
  compression_info = no_compression;
  ttl = none;
  lock_info = none;
}

-- Additions at the tail fail, other additions report two elements, everything else fails.
abbrev respond : (rpc : Rpc) → Outcome (Reply rpc)
respond (count_rpc add_element) = replied 2
respond _ = failed down

abbrev pub env : Env
env = record {
  server = λ sent rpc request. respond rpc;
  monotonic = λ n. n;
  wall_millis = λ n. 5000 + n;
  gzip = λ content. content;
  gunzip = λ content n. some (take n content);
  encode = λ text. 116 ∷ [];
  byte_size = λ request. 10;
}

-- the server that answers the first request and no other
abbrev once : (rpc : Rpc) → List Sent → Outcome (Reply rpc)
once (count_rpc _) [] = replied 2
once _ _ = failed down

abbrev pub env_once : Env
env_once = record env { server = λ sent rpc request. once rpc sent }

-- an addition of three values at the position 4
abbrev pub three_values : AddToRequest
three_values = record {
  key = a_key;
  container_type = some vector;
  pos = some 4;
  elements = record no_elements {
    value_unordered = value_of_byte 1 ∷ value_of_byte 2 ∷ value_of_byte 3 ∷ [];
  };
}

-- an addition of two values behind another one
abbrev pub two_after : AddToValRequest
two_after = record {
  key = a_key;
  ttl = none;
  is_before = false;
  pivot = value_of_byte 9;
  value = value_of_byte 1 ∷ value_of_byte 2 ∷ [];
}
