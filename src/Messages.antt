-- ===== src/Messages.antt =====
-- The protobuf messages of proto/cache.proto that the client builds and reads. A field marked
-- `optional` in the schema is an `Option`; a message field that the client always sets is not.
-- The range checks of the protobuf runtime's setters are no part of the messages: `Wire.unsigned` has
-- those of the client id, the order and the TTL, and the others are not modelled.
use hurricache_python_client.Base.{ℕ, Bool, false, Option, none, List, []}
use hurricache_python_client.Base.Int.{ℤ}
use hurricache_python_client.Models.{Bytes, ContainerType, LockType}

-- `BinaryPayload` and `KeyBinaryPayload`
pub record BinaryPayload : Type 0 where
  pub payload : Bytes
  pub size : ℕ

pub record KeyHint : Type 0 where
  pub week_hash : Option ℕ
  pub strong_hash : Option ℕ

pub record CompressedInfo : Type 0 where
  pub enabled : Bool
  pub raw_size : Option ℕ

-- what reading an unset `compressionInfo` gives
abbrev pub no_compression : CompressedInfo
no_compression = record { enabled = false; raw_size = none }

-- `hint_field` is `keyHint`.
pub record Key : Type 0 where
  pub payload : BinaryPayload
  pub compression_info : CompressedInfo
  pub hint_field : Option KeyHint
  pub client_id : Option ℕ

pub record OrderedKey : Type 0 where
  pub payload : BinaryPayload
  pub order : ℕ
  pub compression_info : CompressedInfo
  pub client_id : Option ℕ

pub record LockInfo : Type 0 where
  pub lock_type : LockType
  pub locked_by : Option ℕ

pub record Value : Type 0 where
  pub value : BinaryPayload
  pub compression_info : CompressedInfo
  pub ttl : Option ℕ
  pub lock_info : Option LockInfo

pub record OrderedValue : Type 0 where
  pub value : BinaryPayload
  pub order : ℕ
  pub compression_info : CompressedInfo
  pub ttl : Option ℕ
  pub lock_info : Option LockInfo

-- The four repeated fields that `CreateContainerRequest`, `AddToRequest` and
-- `BatchValueResponse` share.
pub record Elements : Type 0 where
  pub key_unordered : List Key
  pub key_ordered : List OrderedKey
  pub value_unordered : List Value
  pub value_ordered : List OrderedValue

abbrev pub no_elements : Elements
no_elements = record {
  key_unordered = [];
  key_ordered = [];
  value_unordered = [];
  value_ordered = [];
}

pub record CreateContainerRequest : Type 0 where
  pub key : Key
  pub container_type : ContainerType
  pub ttl : Option ℕ
  pub elements : Elements

pub record AddToRequest : Type 0 where
  pub key : Key
  pub container_type : Option ContainerType
  pub pos : Option ℕ
  pub elements : Elements

-- `pivot` is the field `pos`.
pub record AddToValRequest : Type 0 where
  pub key : Key
  pub ttl : Option ℕ
  pub is_before : Bool
  pub pivot : Value
  pub value : List Value

pub record RemoveFromContainerRequest : Type 0 where
  pub key : Key
  pub container_type : ContainerType
  pub values : List Value
  pub keys : List Key

pub record KeyPositionRequest : Type 0 where
  pub key : Key
  pub container_type : Option ContainerType
  pub pos : ℕ
  pub end_pos : Option ℕ
  pub reversed : Bool

pub record AtomicRequest : Type 0 where
  pub key : Key
  pub val : ℤ
  pub ttl : Option ℕ
  pub lock_info : Option LockInfo

pub record CasRequest : Type 0 where
  pub key : Key
  pub expected : ℤ
  pub to_set : ℤ
  pub ttl : Option ℕ
  pub lock_info : Option LockInfo

pub record ValueResponse : Type 0 where
  pub value_unordered : Option Value
  pub value_ordered : Option OrderedValue

pub record CasResponse : Type 0 where
  pub result : Bool
  pub expected : Option ℤ
  pub hint_field : Option KeyHint

-- The requests, one constructor for each message type: `GetRequest`, `ContainerGetRequest`,
-- `TtlRequest`, `CreateRequest` and `UpdateRequest`, `UpdateContainerRequest`, and so on.
pub data Request : Type 0 where
  get_request : Key → Request
  container_get : Key → Key → Request
  ttl_request : Key → ℕ → Request
  write_request : Key → Value → Request
  update_container : Key → Key → Value → Request
  lock_request : Key → LockType → ℕ → Option ℕ → Request
  unlock_request : Key → ℕ → Request
  key_position : KeyPositionRequest → Request
  create_container : CreateContainerRequest → Request
  add_to : AddToRequest → Request
  add_to_val : AddToValRequest → Request
  remove_from : RemoveFromContainerRequest → Request
  atomic : AtomicRequest → Request
  atomic_cas : CasRequest → Request

-- `request.key`, which every request has
unfoldable pub request_key : Request → Key
request_key (get_request key) = key
request_key (container_get key _) = key
request_key (ttl_request key _) = key
request_key (write_request key _) = key
request_key (update_container key _ _) = key
request_key (lock_request key _ _ _) = key
request_key (unlock_request key _) = key
request_key (key_position r) = r.key
request_key (create_container r) = r.key
request_key (add_to r) = r.key
request_key (add_to_val r) = r.key
request_key (remove_from r) = r.key
request_key (atomic r) = r.key
request_key (atomic_cas r) = r.key
