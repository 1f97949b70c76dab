-- ===== src/Batching/Laws.antt =====
-- The four message types obey the law of `BatchLaws`: a chunk holds the slice it was built from.
pub mod Forms
use mathlib.Core.Path.{ap₂}
use hurricache_python_client.Base.{
  ℕ, ◌-◌, ◌≡◌, refl, sym, ap, ◌∙◌, Option, List, [], ◌∷◌, ◌++◌, map, append_assoc, append-nil,
  length, slice, slice-map, slice-append, take, drop, take-map, drop-map,
}
use hurricache_python_client.Errors.{Result, ok, err}
use hurricache_python_client.Messages.{
  Key, Value, no_elements, AddToValRequest, AddToRequest, CreateContainerRequest,
  RemoveFromContainerRequest,
}
use hurricache_python_client.Batching.{
  Item, append_item, append_items, build, with_items, value_field, keys_field, values_field,
}
use hurricache_python_client.Batching.Coverage.{BatchLaws}
use hurricache_python_client.Batching.Shapes.{
  creation, addition, relative, removal, single, append_value, append_removed, append_element,
  elements_items, at_pos, shifted_pos,
}
use Forms.{append_entries, append_all, items-append_all}

ok-injective : {A : Type 0} {x y : A} → ok x ≡ ok y → x ≡ y
ok-injective e = cc

append_items-values :
    (r : AddToValRequest) (vs : List Value)
    → append_items relative r (map (single value_field) vs) ≡ record r { value = r.value ++ vs }
unfolding append_value
append_items-values r [] = ap (λ vs. record r { value = vs }) (sym (append-nil r.value))
append_items-values r (v ∷ vs) =
    append_items-values (record r { value = r.value ++ v ∷ [] }) vs
    ∙ ap (λ (ws : List Value). record r { value = ws }) (append_assoc r.value (v ∷ []) vs)

pub relative-BatchLaws : BatchLaws relative
unfolding build
relative-BatchLaws = record {
  reassemble = λ r c items start stop e built.
      let sliced =
        ap (slice start stop) (sym (ok-injective e))
        ∙ slice-map (single value_field) start stop r.value in
      let made =
        sym (ok-injective built)
        ∙ ap (append_items relative (record r { value = [] })) sliced
        ∙ append_items-values (record r { value = [] }) (slice start stop r.value) in
      ap (λ (d : AddToValRequest). ok (map (single value_field) d.value)) made ∙ ap ok (sym sliced);
}

append_items-removed :
    (r : RemoveFromContainerRequest) (ks : List Key) (vs : List Value)
    → append_items removal r (map (single keys_field) ks ++ map (single values_field) vs)
      ≡ record r { keys = r.keys ++ ks; values = r.values ++ vs }
unfolding append_removed
append_items-removed r [] [] = simp append-nil
append_items-removed r [] (v ∷ vs) =
    append_items-removed (record r { values = r.values ++ v ∷ [] }) [] vs ∙ simp (append_assoc)
append_items-removed r (k ∷ ks) vs =
    append_items-removed (record r { keys = r.keys ++ k ∷ [] }) ks vs ∙ simp append_assoc

pub removal-BatchLaws : BatchLaws removal
unfolding build
removal-BatchLaws = record {
  reassemble = λ r c items start stop e built.
      let n = stop - start - length (drop start (map (single keys_field) r.keys)) in
      let m = start - length (map (single keys_field) r.keys) in
      let sliced =
        ap (slice start stop) (sym (ok-injective e))
        ∙ slice-append start stop (map (single keys_field) r.keys)
            (map (single values_field) r.values)
        ∙ ap₂ (λ xs ys. xs ++ ys) (slice-map (single keys_field) start stop r.keys)
            (ap (take n) (drop-map (single values_field) m r.values)
              ∙ take-map (single values_field) n (drop m r.values)) in
      let made =
        sym (ok-injective built)
        ∙ ap (append_items removal (record r { keys = []; values = [] })) sliced
        ∙ append_items-removed (record r { keys = []; values = [] }) (slice start stop r.keys)
            (take n (drop m r.values)) in
      ap
        (λ (d : RemoveFromContainerRequest).
          ok (map (single keys_field) d.keys ++ map (single values_field) d.values))
        made
      ∙ ap ok (sym sliced);
}

append_item-creation :
    (r : CreateContainerRequest) (item : Item)
    → append_item creation r item ≡ record r { elements = append_entries r.elements item }
append_item-creation r [] = refl
append_item-creation r (x ∷ rest) =
    append_item-creation (record r { elements = append_element r.elements x }) rest

append_items-creation :
    (r : CreateContainerRequest) (items : List Item)
    → append_items creation r items ≡ record r { elements = append_all r.elements items }
append_items-creation r [] = refl
append_items-creation r (item ∷ rest) =
    ap (λ (c : CreateContainerRequest). append_items creation c rest) (append_item-creation r item)
    ∙ append_items-creation (record r { elements = append_entries r.elements item }) rest

pub creation-BatchLaws : BatchLaws creation
unfolding build
creation-BatchLaws = record {
  reassemble = λ r c items start stop e built.
      ap (λ (d : CreateContainerRequest). elements_items d.elements)
        (sym (ok-injective built)
          ∙ append_items-creation (creation.cleared r) (slice start stop items))
      ∙ items-append_all r.elements items start stop e;
}

append_item-addition :
    (r : AddToRequest) (item : Item)
    → append_item addition r item ≡ record r { elements = append_entries r.elements item }
append_item-addition r [] = refl
append_item-addition r (x ∷ rest) =
    append_item-addition (record r { elements = append_element r.elements x }) rest

append_items-addition :
    (r : AddToRequest) (items : List Item)
    → append_items addition r items ≡ record r { elements = append_all r.elements items }
append_items-addition r [] = refl
append_items-addition r (item ∷ rest) =
    ap (λ (c : AddToRequest). append_items addition c rest) (append_item-addition r item)
    ∙ append_items-addition (record r { elements = append_entries r.elements item }) rest

-- the position does not matter to the items
placed :
    (r c : AddToRequest) (items : List Item) (start stop : ℕ) (pos : Result (Option ℕ))
    → elements_items r.elements ≡ ok items
    → with_items addition (slice start stop items) (at_pos (addition.cleared r) pos) ≡ ok c
    → elements_items c.elements ≡ ok (slice start stop items)
placed r c items start stop (ok pos) e built =
    ap (λ (d : AddToRequest). elements_items d.elements)
      (sym (ok-injective built)
        ∙ append_items-addition (record r { pos = pos; elements = no_elements })
            (slice start stop items))
    ∙ items-append_all r.elements items start stop e
placed r c items start stop (err x) e built = cc

pub addition-BatchLaws : BatchLaws addition
unfolding build
addition-BatchLaws = record {
  reassemble = λ r c items start stop e built.
      placed r c items start stop (shifted_pos start stop r.pos) e built;
}
