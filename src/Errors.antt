-- ===== src/Errors.antt =====
-- hurricache/grpc/exceptions.py, with the built-in exceptions that the client raises.
-- A function that may raise returns a `Result`. Chained causes (`raise … from`) are not modelled.
pub mod Mapping
use hurricache_python_client.Base.{ℕ, Bool, String, List, Option}
use hurricache_python_client.Models.{Bytes, Payload, KeyHintData}

-- `grpc.StatusCode`
pub data StatusCode : Type 0 where
  cancelled_code unknown invalid_argument_code deadline_exceeded_code not_found already_exists :
      StatusCode
  permission_denied_code resource_exhausted failed_precondition_code aborted out_of_range :
      StatusCode
  unimplemented internal unavailable_code data_loss unauthenticated : StatusCode

-- `grpc.RpcError`: `none` where the accessor is missing or not callable; `message` is `str(error)`.
pub record RpcError : Type 0 where
  pub code : Option StatusCode
  pub details : Option String
  pub message : String
  pub trailing_metadata : Option (List (String × String))

-- A decoded stream: a `list` of payloads, or a `dict` in insertion order.
pub data Collection : Type 0 where
  items : List Payload → Collection
  pairs : List (Payload × Payload) → Collection

-- What `partial_result` may hold.
pub data PartialResult : Type 0 where
  collected : Collection → PartialResult
  hinted : KeyHintData → PartialResult
  counted : ℕ → PartialResult
  flagged : Bool → PartialResult

pub data Error : Type 0 where
  hurricache_error : String → Error
  partial_operation : ℕ → ℕ → PartialResult → Error
  key_not_found : Bytes → String → Error
  permission_denied : Bytes → String → Error
  invalid_argument : String → Error
  deadline_exceeded : String → Error
  unavailable : String → Error
  failed_precondition : String → Option String → Error
  cancelled : String → Error
  rpc_failure : String → Option StatusCode → String → Error
  value_error : String → Error
  type_error : String → Error
  timeout_error : String → Error
  runtime_error : String → Error
  assertion_error : Error
  -- of the model alone: a loop on fuel that ran out of it
  out_of_fuel : Error

pub data Result {ℓ} (A : Type ℓ) : Type ℓ where
  ok : A → Result A
  err : Error → Result A

abbrev pub map_result {ℓ κ} : {A : Type ℓ} {B : Type κ} → (A → B) → Result A → Result B
map_result f (ok a) = ok (f a)
map_result f (err e) = err e

-- A call that may raise, followed by what uses its value; an exception passes through.
module _ {ℓ κ} {A : Type ℓ} {B : Type κ} where
  infixl 5 ◌>>=◌ ◌>>◌
  abbrev pub ◌>>=◌ : Result A → (A → Result B) → Result B
  ◌>>=◌ (err raised) rest = err raised
  ◌>>=◌ (ok value) rest = rest value

  abbrev pub ◌>>◌ : Result A → Result B → Result B
  ◌>>◌ first rest = first >>= λ _. rest
