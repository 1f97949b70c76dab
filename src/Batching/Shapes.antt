-- ===== src/Batching/Shapes.antt =====
-- The four message types that `plan` cuts: `_items` and the field accesses of
-- hurricache/grpc/batching.py for each, and `continuation`.
use hurricache_python_client.Base.{
  ℕ, ◌+◌, false, not, Option, none, some, List, [], ◌∷◌, ◌++◌, map, ltb, ◌==◌, if◌then◌else◌,
  length,
}
use hurricache_python_client.Errors.{Error, Result, ok, err, value_error}
use hurricache_python_client.Messages.{
  Key, KeyHint, OrderedKey, Value, OrderedValue, Elements, no_elements, CreateContainerRequest,
  AddToRequest, AddToValRequest, RemoveFromContainerRequest, create_container, add_to, add_to_val,
  remove_from,
}
use hurricache_python_client.Batching.{
  Entry, value_field, keys_field, values_field, key_unordered_field, key_ordered_field,
  value_unordered_field, value_ordered_field, Item, Batchable,
}

abbrev pub single : {A : Type 0} → (A → Entry) → A → Item
single field a = field a ∷ []

-- `zip` of two lists, as pairs of entries
abbrev pub paired : {A B : Type 0} → (A → Entry) → (B → Entry) → List A → List B → List Item
paired f g (a ∷ as') (b ∷ bs) = (f a ∷ g b ∷ []) ∷ paired f g as' bs
paired f g _ _ = []

abbrev unequal : Error
unequal = value_error "map keys and values must have equal lengths"

-- `_items` of a creation or an addition: the fields that are not empty must be one list, or keys
-- with unordered values of the same number.
unfoldable pub collection_items :
    List Key → List OrderedKey → List Value → List OrderedValue → Result (List Item)
collection_items [] [] [] [] = ok []
collection_items (k ∷ ks) [] [] [] = ok (map (single key_unordered_field) (k ∷ ks))
collection_items [] (k ∷ ks) [] [] = ok (map (single key_ordered_field) (k ∷ ks))
collection_items [] [] (v ∷ vs) [] = ok (map (single value_unordered_field) (v ∷ vs))
collection_items [] [] [] (v ∷ vs) = ok (map (single value_ordered_field) (v ∷ vs))
collection_items (k ∷ ks) [] (v ∷ vs) [] =
    if length (k ∷ ks) == length (v ∷ vs)
    then ok (paired key_unordered_field value_unordered_field (k ∷ ks) (v ∷ vs))
    else err unequal
collection_items [] (k ∷ ks) (v ∷ vs) [] =
    if length (k ∷ ks) == length (v ∷ vs)
    then ok (paired key_ordered_field value_unordered_field (k ∷ ks) (v ∷ vs))
    else err unequal
collection_items _ _ _ _ = err (value_error "collection fields do not form map pairs")

unfoldable pub elements_items : Elements → Result (List Item)
unfolding collection_items
elements_items e = collection_items e.key_unordered e.key_ordered e.value_unordered e.value_ordered

-- `getattr(result, field).append(value)`
unfoldable pub append_element : Elements → Entry → Elements
append_element e (key_unordered_field k) = record e { key_unordered = e.key_unordered ++ k ∷ [] }
append_element e (key_ordered_field k) = record e { key_ordered = e.key_ordered ++ k ∷ [] }
append_element e (value_unordered_field v) = record e {
  value_unordered = e.value_unordered ++ v ∷ [];
}
append_element e (value_ordered_field v) = record e { value_ordered = e.value_ordered ++ v ∷ [] }
append_element e _ = e

unfoldable pub append_value : List Value → Entry → List Value
append_value vs (value_field v) = vs ++ v ∷ []
append_value vs _ = vs

unfoldable pub append_removed : RemoveFromContainerRequest → Entry → RemoveFromContainerRequest
append_removed r (keys_field k) = record r { keys = r.keys ++ k ∷ [] }
append_removed r (values_field v) = record r { values = r.values ++ v ∷ [] }
append_removed r _ = r

abbrev pub append_position : ℕ
append_position = 0xFFFFFFFF

-- The position of an insertion moves with the chunk, but for the one that means the end.
unfoldable pub shifted_pos : ℕ → ℕ → Option ℕ → Result (Option ℕ)
shifted_pos start stop none = ok none
shifted_pos start stop (some pos) =
    if pos == append_position
    then ok (some pos)
    else if ltb 0xFFFFFFFF (pos + stop)
    then err (value_error "insertion position exceeds uint32")
    else ok (some (pos + start))

abbrev pub at_pos : AddToRequest → Result (Option ℕ) → Result AddToRequest
at_pos r (ok pos) = ok (record r { pos = pos })
at_pos r (err e) = err e

unfoldable pub widest_hint : Key → Key
widest_hint key = record key {
  hint_field = some (record { week_hash = some 0xFFFFFFFF; strong_hash = some 0xFFFFFFFF });
}

abbrev pub creation : Batchable CreateContainerRequest
creation = record {
  items_of = λ r. elements_items r.elements;
  cleared = λ r. record r { elements = no_elements };
  append_entry = λ r entry. record r { elements = append_element r.elements entry };
  shifted = λ start stop r. ok r;
  reserved = λ r. record r { key = widest_hint r.key };
  message = create_container;
  backwards = λ r. false;
}

abbrev pub addition : Batchable AddToRequest
addition = record {
  items_of = λ r. elements_items r.elements;
  cleared = λ r. record r { elements = no_elements };
  append_entry = λ r entry. record r { elements = append_element r.elements entry };
  shifted = λ start stop r. at_pos r (shifted_pos start stop r.pos);
  reserved = λ r. record r { key = widest_hint r.key };
  message = add_to;
  backwards = λ r. false;
}

abbrev pub relative : Batchable AddToValRequest
relative = record {
  items_of = λ r. ok (map (single value_field) r.value);
  cleared = λ r. record r { value = [] };
  append_entry = λ r entry. record r { value = append_value r.value entry };
  shifted = λ start stop r. ok r;
  reserved = λ r. record r { key = widest_hint r.key };
  message = add_to_val;
  backwards = λ r. not r.is_before;
}

abbrev pub removal : Batchable RemoveFromContainerRequest
removal = record {
  items_of = λ r. ok (map (single keys_field) r.keys ++ map (single values_field) r.values);
  cleared = λ r. record r { keys = []; values = [] };
  append_entry = append_removed;
  shifted = λ start stop r. ok r;
  reserved = λ r. record r { key = widest_hint r.key };
  message = remove_from;
  backwards = λ r. false;
}

-- `result.key.keyHint.CopyFrom(hint)`, unless the hint is `None`
abbrev with_hint : Key → Option KeyHint → Key
with_hint key none = key
with_hint key (some hint) = record key { hint_field = some hint }

unfoldable pub continuation : CreateContainerRequest → Option KeyHint → AddToRequest
continuation request hint = record {
  key = with_hint request.key hint;
  container_type = some request.container_type;
  pos = none;
  elements = request.elements;
}
