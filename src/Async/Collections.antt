-- ===== src/Async/Collections.antt =====
-- The asynchronous client: streams read whole, as lists and as dicts.
use hurricache_python_client.Base.{ℕ, Bool, true, false, List, [], ◌∷◌, if◌then◌else◌}
use hurricache_python_client.Models.{
  Payload, plain, ordered, ContainerType, ordered_map, ordered_set,
}
use hurricache_python_client.Errors.{Error, value_error, Collection, items, pairs}
use hurricache_python_client.Effects.{M, pure, raise, ◌>>=◌}
use hurricache_python_client.Operation.{Client, wrap}
use hurricache_python_client.Streams.{Pairs}
use hurricache_python_client.Client.Requests.{Target}
use hurricache_python_client.Async.Reads.{get_container, get_element_in_range}

-- `type(item) is Payload`, and `type(item) is OrderedPayload`
abbrev pub is_plain : Payload → Bool
is_plain (plain _) = true
is_plain (ordered _ _) = false

abbrev pub is_ordered : Payload → Bool
is_ordered (plain _) = false
is_ordered (ordered _ _) = true

abbrev pub every : (Payload → Bool) → List Payload → Bool
every test [] = true
every test (x ∷ xs) = if test x then every test xs else false

abbrev pub keys_in : Pairs → List Payload
keys_in [] = []
keys_in ((k, v) ∷ rest) = k ∷ keys_in rest

-- the list, `[]` of nothing, and an error of another representation
unfoldable pub list_of : (Payload → Bool) → Collection → M (List Payload)
list_of test (items []) = pure []
list_of test (items (x ∷ xs)) =
    if every test (x ∷ xs)
    then pure (x ∷ xs)
    else raise (value_error "unexpected collection representation")
list_of test (pairs []) = pure []
list_of test (pairs (p ∷ ps)) = raise (value_error "unexpected collection representation")

unfoldable pub dict_of : Error → (Payload → Bool) → Collection → M Pairs
dict_of error test (items []) = pure []
dict_of error test (items (x ∷ xs)) = raise error
dict_of error test (pairs []) = pure []
dict_of error test (pairs (p ∷ ps)) =
    if every test (keys_in (p ∷ ps)) then pure (p ∷ ps) else raise error

unfoldable pub stream_list : Client → Target → M (List Payload)
unfolding wrap get_container list_of
stream_list c t = wrap c t.timeout (do result ← get_container c t; list_of is_plain result)

unfoldable pub stream_vector : Client → Target → M (List Payload)
unfolding wrap get_container list_of
stream_vector c t = wrap c t.timeout (do result ← get_container c t; list_of is_plain result)

unfoldable pub stream_queue : Client → Target → M (List Payload)
unfolding wrap get_container list_of
stream_queue c t = wrap c t.timeout (do result ← get_container c t; list_of is_plain result)

unfoldable pub stream_set : Client → Target → M (List Payload)
unfolding wrap get_container list_of
stream_set c t = wrap c t.timeout (do result ← get_container c t; list_of is_plain result)

unfoldable pub stream_map : Client → Target → M Pairs
unfolding wrap get_container dict_of
stream_map c t = wrap c t.timeout do
  result ← get_container c t
  dict_of (value_error "unexpected collection representation") is_plain result

unfoldable pub stream_ordered_set : Client → Target → M (List Payload)
unfolding wrap get_container list_of
stream_ordered_set c t = wrap c t.timeout (do result ← get_container c t; list_of is_ordered result)

unfoldable pub stream_ordered_map : Client → Target → M Pairs
unfolding wrap get_container dict_of
stream_ordered_map c t = wrap c t.timeout do
  result ← get_container c t
  dict_of (value_error "unexpected collection representation") is_ordered result

unfoldable pub stream_element_in_range_unordered :
    Client → Target → ContainerType → ℕ → ℕ → M Collection
unfolding wrap get_element_in_range
stream_element_in_range_unordered c t container_type pos end_pos =
    wrap c t.timeout (get_element_in_range c t pos end_pos container_type false)

unfoldable pub stream_element_in_range_ordered_set : Client → Target → ℕ → ℕ → Bool → M Collection
unfolding wrap get_element_in_range
stream_element_in_range_ordered_set c t pos end_pos reversed =
    wrap c t.timeout (get_element_in_range c t pos end_pos ordered_set reversed)

unfoldable pub stream_element_in_range_ordered : Client → Target → ℕ → ℕ → M Collection
unfolding wrap stream_element_in_range_ordered_set
stream_element_in_range_ordered c t pos end_pos =
    wrap c t.timeout (stream_element_in_range_ordered_set c t pos end_pos false)

unfoldable pub stream_element_in_range_ordered_map : Client → Target → ℕ → ℕ → Bool → M Pairs
unfolding wrap get_element_in_range dict_of
stream_element_in_range_ordered_map c t pos end_pos reversed = wrap c t.timeout do
  result ← get_element_in_range c t pos end_pos ordered_map reversed
  dict_of (value_error "unexpected range representation") is_ordered result
