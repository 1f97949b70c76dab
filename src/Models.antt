-- ===== src/Models.antt =====
-- hurricache/grpc/models.py: the public value types, free of protobuf.
mod Equality
unfoldable pub use Equality.*
pub use Payloads.{Bytes, Payload, plain, ordered, payload_value}
mod Payloads
use hurricache_python_client.Base.{ℕ, Bool, ◌||◌, Option, none, some, true, false}
use hurricache_python_client.Base.Int.{ℤ}

pub data LockType : Type 0 where
  no_lock write_lock read_lock global : LockType

pub data LockStatus : Type 0 where
  lock_ok cant_lock cant_unlock generic_error : LockStatus

pub data ContainerType : Type 0 where
  undefined vector linked_list queue set map ordered_map ordered_set : ContainerType

-- `MASTER_THAN_BACKUP` is an alias of `MASTER_THEN_BACKUP`.
pub data Mode : Type 0 where
  master master_then_backup backup lb_smart : Mode

pub record KeyHintData : Type 0 where
  pub week_hash : Option ℤ
  pub strong_hash : Option ℤ

abbrev pub unspecified : KeyHintData
unspecified = record { week_hash = none; strong_hash = none }

abbrev is_set : Option ℤ → Bool
is_set none = false
is_set (some _) = true

-- also `KeyHintData.__bool__`
unfoldable pub is_specified : KeyHintData → Bool
is_specified hint = is_set hint.week_hash || is_set hint.strong_hash

pub record CasResult : Type 0 where
  pub success : Bool
  pub expected_value : Option ℤ
  pub hint : Option KeyHintData
