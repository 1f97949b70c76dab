-- ===== src/Smart/Targets.antt =====
-- Addresses: `_coordinator_addresses` and `_split_target` of hurricache/grpc/smart_client.py.
pub mod Split
use Prim.Native.Char.{Char, code}
use Prim.Native.String
use Prim.Native.String.{◌++◌ as append}
use hurricache_python_client.Base.{
  ℕ, String, Bool, true, false, not, ◌&&◌, ◌||◌, Option, none, some, List, [], ◌∷◌, ◌==◌, str_eq,
  if◌then◌else◌, length,
}
use hurricache_python_client.Base.Int.{ℤ}
use hurricache_python_client.Errors.{Error, Result, ok, err, value_error}

abbrev pub colon : ℕ
colon = b':'

-- `":" in text`
unfoldable pub has_colon : String → Bool
has_colon String.[] = false
has_colon (String.◌∷◌ c s) = if code c == colon then true else has_colon s

-- The text before the last colon and the text after it, as by `rpartition(":")`.
unfoldable pub rpartition : String → Option (String × String)
rpartition String.[] = none
rpartition (String.◌∷◌ c s) = elim (rpartition s) [
  | some (before, after) ↦ some (String.◌∷◌ c before, after)
  | none ↦ if code c == colon then some (String.[], s) else none
]

abbrev strip : String → String → Option String
strip String.[] text = some text
strip (String.◌∷◌ c p) String.[] = none
strip (String.◌∷◌ c p) (String.◌∷◌ d text) = if code c == code d then strip p text else none

-- `text.removeprefix(prefix)`
unfoldable pub remove_prefix : String → String → String
remove_prefix prefix text = elim (strip prefix text) [ some rest ↦ rest | none ↦ text ]

abbrev is_empty : String → Bool
is_empty String.[] = true
is_empty (String.◌∷◌ _ _) = false

abbrev bad_target : Error
bad_target = value_error "cache target must be host:port"

abbrev number : String → Option ℤ → Result (String × ℤ)
number host none = err (value_error "invalid literal for int() with base 10")
number host (some port) = ok (host, port)

abbrev host_and_port : (String → Option ℤ) → Option (String × String) → Result (String × ℤ)
host_and_port int_of none = err bad_target
host_and_port int_of (some (host, port)) =
    if is_empty host then err bad_target else number host (int_of port)

-- `_split_target`; `int_of` is Python's `int`, `none` where it raises.
unfoldable pub split_target : (String → Option ℤ) → String → Result (String × ℤ)
unfolding rpartition remove_prefix
split_target int_of target = host_and_port int_of (rpartition (remove_prefix "dns:///" target))

-- `str | Sequence[str]`
pub data Coordinators : Type 0 where
  one : String → Coordinators
  several : List String → Coordinators

abbrev addresses_of : Coordinators → List String
addresses_of (one address) = address ∷ []
addresses_of (several addresses) = addresses

abbrev pub any_empty : List String → Bool
any_empty [] = false
any_empty (address ∷ rest) = is_empty address || any_empty rest

abbrev some_there : List String → Result (List String)
some_there [] = err (value_error "at least one coordinator address is required")
some_there (address ∷ rest) =
    if any_empty (address ∷ rest)
    then err (value_error "at least one coordinator address is required")
    else ok (address ∷ rest)

abbrev one_host : Error
one_host = value_error "coordinator_port can only be used with one hostname"

-- `str(port)` is a text.
abbrev with_port : List String → Option String → Result (List String)
with_port addresses none = some_there addresses
with_port (address ∷ []) (some port) =
    if has_colon address then err one_host else some_there (append address (append ":" port) ∷ [])
with_port _ (some port) = err one_host

-- `_coordinator_addresses`
unfoldable pub coordinator_addresses : Coordinators → Option String → Result (List String)
unfolding has_colon
coordinator_addresses value port = with_port (addresses_of value) port
