-- ===== src/Rpc.antt =====
-- The remote procedures of `HurriCacheGrpcService` that the client calls, with the type of their
-- replies. The stub itself is generated code: `Env.server` stands for it.
use hurricache_python_client.Base.{ℕ, Bool, Option, List}
use hurricache_python_client.Base.Int.{ℤ}
use hurricache_python_client.Errors.{RpcError}
use hurricache_python_client.Messages.{Elements, KeyHint, Value, ValueResponse, CasResponse}

-- answered by a `ValueResponse`
pub data ValueRpc : Type 0 where
  get_value get_and_delete_value get_tail get_head get_value_in_container : ValueRpc
  get_and_remove_front get_and_remove_tail get_and_remove_element_at_position : ValueRpc
  get_and_delete_value_in_container get_element_at_position : ValueRpc

-- answered by a `BoolResponse`
pub data BoolRpc : Type 0 where
  exist_key remove exist_key_in_container remove_head remove_tail : BoolRpc
  remove_element_at_position set_ttl : BoolRpc

-- answered by an `IntResponse`
pub data CountRpc : Type 0 where
  get_size remove_in_container remove_from_container_by_key_value : CountRpc
  add_element add_element_to_head add_element_to_tail add_element_to_position_by_value : CountRpc

-- answered by an `AtomicValue`
pub data AtomicRpc : Type 0 where
  atomic_load atomic_load_and_delete atomic_exchange : AtomicRpc
  atomic_add atomic_sub atomic_or atomic_and atomic_xor : AtomicRpc

pub data Rpc : Type 0 where
  value_rpc : ValueRpc → Rpc
  bool_rpc : BoolRpc → Rpc
  count_rpc : CountRpc → Rpc
  atomic_rpc : AtomicRpc → Rpc
  get_container get_element_in_range : Rpc
  create_key_value create_container atomic_create atomic_store : Rpc
  update_value update_value_in_container : Rpc
  lock_object unlock_object : Rpc
  get_ttl atomic_compare_and_set : Rpc

-- A stream of batches, ended normally or by an error.
pub record Stream : Type 0 where
  pub batches : List Elements
  pub failure : Option RpcError

abbrev pub Reply : Rpc → Type 0
Reply (value_rpc _) = ValueResponse
Reply (bool_rpc _) = Bool
Reply (count_rpc _) = ℕ
Reply (atomic_rpc _) = ℤ
Reply get_container = Stream
Reply get_element_in_range = Stream
Reply create_key_value = Option KeyHint
Reply create_container = Option KeyHint
Reply atomic_create = Option KeyHint
Reply atomic_store = Option KeyHint
Reply update_value = Option Value
Reply update_value_in_container = Option Value
Reply lock_object = ℕ
Reply unlock_object = ℕ
Reply get_ttl = Option ℕ
Reply atomic_compare_and_set = CasResponse

pub data Outcome (A : Type 0) : Type 0 where
  replied : A → Outcome A
  failed : RpcError → Outcome A
