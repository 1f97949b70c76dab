-- ===== src/Batching/Laws/Forms.antt =====
-- The items of a creation or an addition: a list of one field, or keys paired with values.
use hurricache_python_client.Base.{
  ℕ, zero, suc, ◌-◌, ◌≡◌, refl, sym, ap, ◌∙◌, List, [], ◌∷◌, ◌++◌, map, arith, append_assoc,
  append-nil, length, slice, slice-map, length-take, length-drop, Bool-cases, inl, inr, take, drop,
  ◌==◌,
}
use hurricache_python_client.Errors.{ok}
use hurricache_python_client.Effects.Ensures.{Holds, Holds-ok}
use hurricache_python_client.Messages.{Key, OrderedKey, Value, OrderedValue, Elements, no_elements}
use hurricache_python_client.Batching.{
  Entry, Item, key_unordered_field, key_ordered_field, value_unordered_field, value_ordered_field,
}
use hurricache_python_client.Batching.Shapes.{
  single, paired, elements_items, collection_items, append_element,
}

abbrev pub append_entries : Elements → Item → Elements
append_entries e [] = e
append_entries e (x ∷ rest) = append_entries (append_element e x) rest

abbrev pub append_all : Elements → List Item → Elements
append_all e [] = e
append_all e (item ∷ rest) = append_all (append_entries e item) rest

-- What the fields of a request may hold.
data Form : Type 0 where
  keys : List Key → Form
  ordered_keys : List OrderedKey → Form
  values : List Value → Form
  ordered_values : List OrderedValue → Form
  key_pairs : List Key → List Value → Form
  ordered_pairs : List OrderedKey → List Value → Form

abbrev form_items : Form → List Item
form_items (keys ks) = map (single key_unordered_field) ks
form_items (ordered_keys ks) = map (single key_ordered_field) ks
form_items (values vs) = map (single value_unordered_field) vs
form_items (ordered_values vs) = map (single value_ordered_field) vs
form_items (key_pairs ks vs) = paired key_unordered_field value_unordered_field ks vs
form_items (ordered_pairs ks vs) = paired key_ordered_field value_unordered_field ks vs

abbrev form_elements : Form → Elements
form_elements (keys ks) = record no_elements { key_unordered = ks }
form_elements (ordered_keys ks) = record no_elements { key_ordered = ks }
form_elements (values vs) = record no_elements { value_unordered = vs }
form_elements (ordered_values vs) = record no_elements { value_ordered = vs }
form_elements (key_pairs ks vs) = record no_elements { key_unordered = ks; value_unordered = vs }
form_elements (ordered_pairs ks vs) = record no_elements { key_ordered = ks; value_unordered = vs }

abbrev IsEven : Form → Type 0
IsEven (key_pairs ks vs) = length ks ≡ length vs
IsEven (ordered_pairs ks vs) = length ks ≡ length vs
IsEven _ = Unit {0}

append_keys :
    (e : Elements) (ks : List Key)
    → append_all e (map (single key_unordered_field) ks)
      ≡ record e { key_unordered = e.key_unordered ++ ks }
unfolding append_element
append_keys e [] = simp append-nil
append_keys e (k ∷ ks) =
    append_keys (record e { key_unordered = e.key_unordered ++ k ∷ [] }) ks ∙ simp append_assoc

append_ordered_keys :
    (e : Elements) (ks : List OrderedKey)
    → append_all e (map (single key_ordered_field) ks)
      ≡ record e { key_ordered = e.key_ordered ++ ks }
unfolding append_element
append_ordered_keys e [] = simp append-nil
append_ordered_keys e (k ∷ ks) =
    append_ordered_keys (record e { key_ordered = e.key_ordered ++ k ∷ [] }) ks ∙ simp append_assoc

append_values :
    (e : Elements) (vs : List Value)
    → append_all e (map (single value_unordered_field) vs)
      ≡ record e { value_unordered = e.value_unordered ++ vs }
unfolding append_element
append_values e [] = simp append-nil
append_values e (v ∷ vs) =
    append_values (record e { value_unordered = e.value_unordered ++ v ∷ [] }) vs
    ∙ simp append_assoc

append_ordered_values :
    (e : Elements) (vs : List OrderedValue)
    → append_all e (map (single value_ordered_field) vs)
      ≡ record e { value_ordered = e.value_ordered ++ vs }
unfolding append_element
append_ordered_values e [] = simp append-nil
append_ordered_values e (v ∷ vs) =
    append_ordered_values (record e { value_ordered = e.value_ordered ++ v ∷ [] }) vs
    ∙ simp append_assoc

append_key_pairs :
    (e : Elements) (ks : List Key) (vs : List Value)
    → length ks ≡ length vs
    → append_all e (paired key_unordered_field value_unordered_field ks vs) ≡ record e {
      key_unordered = e.key_unordered ++ ks;
      value_unordered = e.value_unordered ++ vs;
    }
unfolding append_element
append_key_pairs e [] [] h = simp append-nil
append_key_pairs e [] (v ∷ vs) h = absurd (omega arith)
append_key_pairs e (k ∷ ks) [] h = absurd (omega arith)
append_key_pairs e (k ∷ ks) (v ∷ vs) h =
    append_key_pairs
      (record e {
        key_unordered = e.key_unordered ++ k ∷ [];
        value_unordered = e.value_unordered ++ v ∷ [];
      })
      ks vs (omega arith)
    ∙ simp append_assoc

append_ordered_pairs :
    (e : Elements) (ks : List OrderedKey) (vs : List Value)
    → length ks ≡ length vs
    → append_all e (paired key_ordered_field value_unordered_field ks vs)
      ≡ record e { key_ordered = e.key_ordered ++ ks; value_unordered = e.value_unordered ++ vs }
unfolding append_element
append_ordered_pairs e [] [] h = simp append-nil
append_ordered_pairs e [] (v ∷ vs) h = absurd (omega arith)
append_ordered_pairs e (k ∷ ks) [] h = absurd (omega arith)
append_ordered_pairs e (k ∷ ks) (v ∷ vs) h =
    append_ordered_pairs
      (record e {
        key_ordered = e.key_ordered ++ k ∷ [];
        value_unordered = e.value_unordered ++ v ∷ [];
      })
      ks vs (omega arith)
    ∙ simp append_assoc

append_all-form : (f : Form) → IsEven f → append_all no_elements (form_items f) ≡ form_elements f
append_all-form (keys ks) h = append_keys no_elements ks
append_all-form (ordered_keys ks) h = append_ordered_keys no_elements ks
append_all-form (values vs) h = append_values no_elements vs
append_all-form (ordered_values vs) h = append_ordered_values no_elements vs
append_all-form (key_pairs ks vs) h = append_key_pairs no_elements ks vs h
append_all-form (ordered_pairs ks vs) h = append_ordered_pairs no_elements ks vs h

elements_items-form : (f : Form) → IsEven f → elements_items (form_elements f) ≡ ok (form_items f)
unfolding elements_items
elements_items-form (keys []) h = refl
elements_items-form (keys (k ∷ ks)) h = refl
elements_items-form (ordered_keys []) h = refl
elements_items-form (ordered_keys (k ∷ ks)) h = refl
elements_items-form (values []) h = refl
elements_items-form (values (v ∷ vs)) h = refl
elements_items-form (ordered_values []) h = refl
elements_items-form (ordered_values (v ∷ vs)) h = refl
elements_items-form (key_pairs [] []) h = refl
elements_items-form (key_pairs [] (v ∷ vs)) h = absurd (omega arith)
elements_items-form (key_pairs (k ∷ ks) []) h = absurd (omega arith)
elements_items-form (key_pairs (k ∷ ks) (v ∷ vs)) h = ground arith
elements_items-form (ordered_pairs [] []) h = refl
elements_items-form (ordered_pairs [] (v ∷ vs)) h = absurd (omega arith)
elements_items-form (ordered_pairs (k ∷ ks) []) h = absurd (omega arith)
elements_items-form (ordered_pairs (k ∷ ks) (v ∷ vs)) h = ground arith

-- The form of a slice.
abbrev form_slice : ℕ → ℕ → Form → Form
form_slice start stop (keys ks) = keys (slice start stop ks)
form_slice start stop (ordered_keys ks) = ordered_keys (slice start stop ks)
form_slice start stop (values vs) = values (slice start stop vs)
form_slice start stop (ordered_values vs) = ordered_values (slice start stop vs)
form_slice start stop (key_pairs ks vs) = key_pairs (slice start stop ks) (slice start stop vs)
form_slice start stop (ordered_pairs ks vs) =
    ordered_pairs (slice start stop ks) (slice start stop vs)

module _ {A B : Type 0} (f : A → Entry) (g : B → Entry) where
  take-paired :
      (n : ℕ) (xs : List A) (ys : List B)
      → take n (paired f g xs ys) ≡ paired f g (take n xs) (take n ys)
  take-paired zero xs ys = refl
  take-paired (suc n) [] ys = refl
  take-paired (suc n) (x ∷ xs) [] = refl
  take-paired (suc n) (x ∷ xs) (y ∷ ys) = rw (take-paired n xs ys)

  paired-nil : (xs : List A) → paired f g xs [] ≡ []
  paired-nil [] = refl
  paired-nil (x ∷ xs) = refl

  drop-paired :
      (n : ℕ) (xs : List A) (ys : List B)
      → drop n (paired f g xs ys) ≡ paired f g (drop n xs) (drop n ys)
  drop-paired zero xs ys = refl
  drop-paired (suc n) [] ys = refl
  drop-paired (suc n) (x ∷ xs) [] = sym (paired-nil (drop n xs))
  drop-paired (suc n) (x ∷ xs) (y ∷ ys) = drop-paired n xs ys

  slice-paired :
      (start stop : ℕ) (xs : List A) (ys : List B)
      → slice start stop (paired f g xs ys) ≡ paired f g (slice start stop xs) (slice start stop ys)
  slice-paired start stop xs ys =
      rw (drop-paired start xs ys) (take-paired (stop - start) (drop start xs) (drop start ys))

slice-form :
    (start stop : ℕ) (f : Form)
    → slice start stop (form_items f) ≡ form_items (form_slice start stop f)
slice-form start stop (keys ks) = slice-map (single key_unordered_field) start stop ks
slice-form start stop (ordered_keys ks) = slice-map (single key_ordered_field) start stop ks
slice-form start stop (values vs) = slice-map (single value_unordered_field) start stop vs
slice-form start stop (ordered_values vs) = slice-map (single value_ordered_field) start stop vs
slice-form start stop (key_pairs ks vs) =
    slice-paired key_unordered_field value_unordered_field start stop ks vs
slice-form start stop (ordered_pairs ks vs) =
    slice-paired key_ordered_field value_unordered_field start stop ks vs

form_slice-IsEven : (start stop : ℕ) (f : Form) → IsEven f → IsEven (form_slice start stop f)
form_slice-IsEven start stop (key_pairs ks vs) h = omega (
  arith,
  length-take (stop - start) (drop start ks),
  length-drop start ks,
  length-take (stop - start) (drop start vs),
  length-drop start vs,
)
form_slice-IsEven start stop (ordered_pairs ks vs) h = omega (
  arith,
  length-take (stop - start) (drop start ks),
  length-drop start ks,
  length-take (stop - start) (drop start vs),
  length-drop start vs,
)
form_slice-IsEven start stop _ h = tt

-- what the items of a request are: those of a form
form_of :
    (ks : List Key) (os : List OrderedKey) (vs : List Value) (ws : List OrderedValue)
    → Holds (λ items. (f : Form) × IsEven f × (items ≡ form_items f)) (collection_items ks os vs ws)
unfolding collection_items
form_of [] [] [] [] = (keys [], tt, refl)
form_of (k ∷ ks) [] [] [] = (keys (k ∷ ks), tt, refl)
form_of [] (k ∷ ks) [] [] = (ordered_keys (k ∷ ks), tt, refl)
form_of [] [] (v ∷ vs) [] = (values (v ∷ vs), tt, refl)
form_of [] [] [] (v ∷ vs) = (ordered_values (v ∷ vs), tt, refl)
form_of (k ∷ ks) [] (v ∷ vs) [] = elim (Bool-cases (length (k ∷ ks) == length (v ∷ vs))) [
  | inl same ↦ rw same (key_pairs (k ∷ ks) (v ∷ vs), ground arith, refl)
  | inr other ↦ rw other tt
]
form_of [] (k ∷ ks) (v ∷ vs) [] = elim (Bool-cases (length (k ∷ ks) == length (v ∷ vs))) [
  | inl same ↦ rw same (ordered_pairs (k ∷ ks) (v ∷ vs), ground arith, refl)
  | inr other ↦ rw other tt
]
form_of _ _ _ _ = tt

-- A slice of the items of a request, appended to a request with none, makes up its items.
pub items-append_all :
    (e : Elements) (items : List Item) (start stop : ℕ)
    → elements_items e ≡ ok items
    → elements_items (append_all no_elements (slice start stop items)) ≡ ok (slice start stop items)
unfolding elements_items
items-append_all e items start stop is_items =
    let (f, even, same) =
      Holds-ok _ _ items is_items
        (form_of e.key_unordered e.key_ordered e.value_unordered e.value_ordered) in
    let cut = ap (slice start stop) same ∙ slice-form start stop f in
    let even' = form_slice-IsEven start stop f even in
    rw (cut, append_all-form (form_slice start stop f) even')
      (elements_items-form (form_slice start stop f) even')
