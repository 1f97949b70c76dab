-- ===== src/Client/Collections.antt =====
-- Streams read whole, as lists and as dicts.
use hurricache_python_client.Base.{ℕ, Bool, true, false, List, [], ◌∷◌, if◌then◌else◌}
use hurricache_python_client.Models.{
  Payload, plain, ordered, ContainerType, ordered_map, ordered_set,
}
use hurricache_python_client.Errors.{Error, value_error, Collection, items, pairs}
use hurricache_python_client.Effects.{M, pure, raise, ◌>>=◌}
use hurricache_python_client.Operation.{Client, wrap}
use hurricache_python_client.Streams.{Pairs}
use hurricache_python_client.Client.Requests.{Target}
use hurricache_python_client.Client.Reads.{get_container, get_element_in_range}

-- `type(item) is Payload`, of every item; `type(item) is OrderedPayload`
abbrev pub all_plain : List Payload → Bool
all_plain [] = true
all_plain (plain _ ∷ rest) = all_plain rest
all_plain (ordered _ _ ∷ rest) = false

abbrev pub all_ordered : List Payload → Bool
all_ordered [] = true
all_ordered (ordered _ _ ∷ rest) = all_ordered rest
all_ordered (plain _ ∷ rest) = false

abbrev pub unexpected : Error
unexpected = value_error "unexpected collection representation"

-- `if not result: return []`, and the test of the representation
unfoldable pub as_list : (List Payload → Bool) → Collection → M (List Payload)
as_list test (items []) = pure []
as_list test (pairs []) = pure []
as_list test (items (x ∷ xs)) = if test (x ∷ xs) then pure (x ∷ xs) else raise unexpected
as_list test (pairs (p ∷ ps)) = raise unexpected

abbrev pub keys_of : Pairs → List Payload
keys_of [] = []
keys_of ((k, v) ∷ rest) = k ∷ keys_of rest

unfoldable pub as_dict : Error → (List Payload → Bool) → Collection → M Pairs
as_dict error test (items []) = pure []
as_dict error test (pairs []) = pure []
as_dict error test (pairs (p ∷ ps)) = if test (keys_of (p ∷ ps)) then pure (p ∷ ps) else raise error
as_dict error test (items (x ∷ xs)) = raise error

unfoldable pub stream_list : Client → Target → M (List Payload)
unfolding wrap get_container as_list
stream_list c t = wrap c t.timeout (do result ← get_container c t; as_list all_plain result)

unfoldable pub stream_vector : Client → Target → M (List Payload)
unfolding wrap get_container as_list
stream_vector c t = wrap c t.timeout (do result ← get_container c t; as_list all_plain result)

unfoldable pub stream_queue : Client → Target → M (List Payload)
unfolding wrap get_container as_list
stream_queue c t = wrap c t.timeout (do result ← get_container c t; as_list all_plain result)

unfoldable pub stream_set : Client → Target → M (List Payload)
unfolding wrap get_container as_list
stream_set c t = wrap c t.timeout (do result ← get_container c t; as_list all_plain result)

unfoldable pub stream_ordered_set : Client → Target → M (List Payload)
unfolding wrap get_container as_list
stream_ordered_set c t =
    wrap c t.timeout (do result ← get_container c t; as_list all_ordered result)

unfoldable pub stream_map : Client → Target → M Pairs
unfolding wrap get_container as_dict
stream_map c t =
    wrap c t.timeout (do result ← get_container c t; as_dict unexpected all_plain result)

unfoldable pub stream_ordered_map : Client → Target → M Pairs
unfolding wrap get_container as_dict
stream_ordered_map c t =
    wrap c t.timeout (do result ← get_container c t; as_dict unexpected all_ordered result)

unfoldable pub stream_element_in_range_ordered_map : Client → Target → ℕ → ℕ → Bool → M Pairs
unfolding wrap get_element_in_range as_dict
stream_element_in_range_ordered_map c t pos end_pos reversed = wrap c t.timeout do
  result ← get_element_in_range c t pos end_pos ordered_map reversed
  as_dict (value_error "unexpected range representation") all_ordered result

unfoldable pub stream_element_in_range_unordered :
    Client → Target → ContainerType → ℕ → ℕ → M Collection
unfolding wrap get_element_in_range
stream_element_in_range_unordered c t container_type pos end_pos =
    wrap c t.timeout (get_element_in_range c t pos end_pos container_type false)

unfoldable pub stream_element_in_range_ordered_set : Client → Target → ℕ → ℕ → Bool → M Collection
unfolding wrap get_element_in_range
stream_element_in_range_ordered_set c t pos end_pos reversed =
    wrap c t.timeout (get_element_in_range c t pos end_pos ordered_set reversed)

unfoldable pub stream_element_in_range_ordered : Client → Target → ℕ → ℕ → M Collection
unfolding wrap stream_element_in_range_ordered_set
stream_element_in_range_ordered c t pos end_pos =
    wrap c t.timeout (stream_element_in_range_ordered_set c t pos end_pos false)
