-- ===== src/Errors/Mapping.antt =====
-- `mapped_rpc_error` of hurricache/grpc/exceptions.py.
use hurricache_python_client.Base.{String, List, [], ◌∷◌, Option, none, some, str_eq, if◌then◌else◌}
use hurricache_python_client.Models.{Bytes}
use hurricache_python_client.Errors.{
  StatusCode, cancelled_code, invalid_argument_code, deadline_exceeded_code, not_found,
  permission_denied_code, failed_precondition_code, unavailable_code, RpcError, Error,
  key_not_found, permission_denied, invalid_argument, deadline_exceeded, unavailable,
  failed_precondition, cancelled, rpc_failure,
}

-- `next((value for key_name, value in metadata if key_name == "x-fastcache-route"), None)`
unfoldable pub route_in : List (String × String) → Option String
route_in [] = none
route_in ((key_name, value) ∷ rest) =
    if str_eq key_name "x-fastcache-route" then some value else route_in rest

abbrev route_of : Option (List (String × String)) → Option String
route_of none = none
route_of (some metadata) = route_in metadata

abbrev details_of : Option String → String → String
details_of none message = message
details_of (some details) message = details

by_code : Option StatusCode → String → Bytes → String → Option String → Error
by_code (some not_found) method key details route = key_not_found key details
by_code (some permission_denied_code) method key details route = permission_denied key details
by_code (some invalid_argument_code) method key details route = invalid_argument details
by_code (some deadline_exceeded_code) method key details route = deadline_exceeded details
by_code (some unavailable_code) method key details route = unavailable details
by_code (some failed_precondition_code) method key details route = failed_precondition details route
by_code (some cancelled_code) method key details route = cancelled details
by_code code method key details route = rpc_failure method code details

unfoldable pub mapped_rpc_error : String → RpcError → Bytes → Error
unfolding by_code
mapped_rpc_error method error key =
    by_code error.code method key (details_of error.details error.message)
      (route_of error.trailing_metadata)
