-- ===== src/Async/Parity/Insertions.antt =====
-- Insertions by position, value or weight: the asynchronous operations of async_client.py are those
-- of client.py.
use mathlib.Core.Path.{fun_ext}
use hurricache_python_client.Base.{
  ℕ, ◌≡◌, refl, ap, ◌∙◌, String, Bool, true, false, Option, none, some, List,
}
use hurricache_python_client.Base.Int.{ℤ, pos}
use hurricache_python_client.Rpc
use hurricache_python_client.Operation.{Client, wrap, wrap_ttl}
use hurricache_python_client.Wire.{
  ValueLike, create_value, create_ordered_key, create_ordered_value,
}
use hurricache_python_client.Batching.Shapes.{addition, relative}
use hurricache_python_client.Models.{ordered_map}
use hurricache_python_client.Client.{call_add_chunked}
use hurricache_python_client.Client.Requests.{Target, cid, each, or_nil}
use hurricache_python_client.Client.Insertions as Sync
use hurricache_python_client.Async.Agree.{send_add_chunks-call_add_chunked}
use hurricache_python_client.Async.Streaming.{key_of-build_key}
use hurricache_python_client.Async.Insertions.{
  weighed, typed, add_element_ordered, add_element_to_tail, add_element_to_head,
  add_element_to_tail_count, add_element_to_head_count, add_element_with_weight,
  add_element_ordered_set, add_element_ordered_map, by_value, add_element_to_position_by_value,
  add_element_to_position_by_value_count, add_element_to_position_before,
  add_element_to_position_after, add_element_to_position_before_count,
  add_element_to_position_after_count,
}
use hurricache_python_client.Async.Values.{id_of}
use hurricache_python_client.Async.Parity.Ends.{ends_agree}
use hurricache_python_client.Async.Parity.{bind_agree, then_agree, same_id}

module _ (c : Client) (t : Target) where
  values_agree :
      (ttl : ℕ) (compress : Bool) (values : List ValueLike)
      → each (λ v. create_value v ttl (id_of c t) compress) values
        ≡ each (λ v. create_value v ttl (cid c t) compress) values
  values_agree ttl compress values =
      ap (λ id. each (λ v. create_value v ttl id compress) values) (same_id c t)

  beside_agree :
      (name : String) (pivot : ValueLike) (is_before : Bool) (values : Option (List ValueLike))
      (ttl : Option ℤ)
      → by_value name c t pivot is_before values ttl
        ≡ Sync.add_by_value name c t pivot is_before values ttl
  unfolding by_value Sync.add_by_value
  beside_agree name pivot is_before values ttl = ap (wrap_ttl c t.timeout ttl) (
      fun_ext λ milliseconds. bind_agree (key_of-build_key c t) λ key.
        bind_agree (ap (λ id. create_value pivot 0 id false) (same_id c t)) λ p.
          bind_agree (values_agree 0 false (or_nil values)) λ vs.
            send_add_chunks-call_add_chunked relative c name Rpc.add_element_to_position_by_value
              t.timeout false _)

  weighed_agree :
      (keys : Option (List ValueLike)) (values : List ValueLike) (ttl : ℕ)
      → weighed c t keys values ttl ≡ Sync.ordered_elements c t keys values ttl
  weighed_agree none values ttl =
      bind_agree (ap (λ id. each (λ v. create_ordered_value v 0 ttl id) values) (same_id c t))
        (λ vs. refl)
  weighed_agree (some keys) values ttl = then_agree _ λ _.
      bind_agree (ap (λ id. each (λ k. create_ordered_key k 0 id) keys) (same_id c t))
        (λ ks. bind_agree (values_agree ttl true values) (λ vs. refl))

  same_type : (keys : Option (List ValueLike)) → typed ordered_map keys ≡ Sync.ordered_type keys
  same_type none = refl
  same_type (some keys) = refl

  ordered_agree :
      (values keys : Option (List ValueLike)) (position : ℕ) (ttl : Option ℤ) (boolean : Bool)
      → add_element_ordered c t values keys position ttl boolean
        ≡ Sync.add_element_ordered c t values keys position ttl boolean
  unfolding add_element_ordered Sync.add_element_ordered
  ordered_agree values keys position ttl boolean = ap (wrap_ttl c t.timeout ttl) (
      fun_ext λ milliseconds. bind_agree (key_of-build_key c t) λ key.
        bind_agree (weighed_agree keys (or_nil values) milliseconds) λ elements.
          send_add_chunks-call_add_chunked addition c "add_element_ordered" Rpc.add_element
            t.timeout boolean _
          ∙ ap
              (λ kind.
                call_add_chunked addition c "add_element_ordered" Rpc.add_element t.timeout boolean
                  (record {
                    key = key;
                    container_type = kind;
                    pos = some position;
                    elements = elements;
                  }))
              (same_type keys))

  ordered_map_agree :
      (keys values : Option (List ValueLike))
      → add_element_ordered_map c t keys values ≡ Sync.add_element_ordered_map c t keys values
  unfolding add_element_ordered_map Sync.add_element_ordered_map
  ordered_map_agree keys values = ap (wrap c t.timeout) (
      then_agree _ λ _. bind_agree (key_of-build_key c t) λ key.
        bind_agree (ap (λ id. each (λ k. create_ordered_key k 0 id) (or_nil keys)) (same_id c t))
          λ ks. bind_agree (values_agree 0 true (or_nil values)) λ vs.
            send_add_chunks-call_add_chunked addition c "add_element_ordered_map" Rpc.add_element
              t.timeout false _)

-- The insertions of the two clients are the same, for these arguments.
abbrev pub InsertionsAgree :
    Client
    → Target
    → ValueLike
    → Bool
    → Option (List ValueLike)
    → Option (List ValueLike)
    → ℕ
    → Option ℤ
    → Bool
    → Type 0
InsertionsAgree c t pivot is_before values keys position ttl boolean =
    (add_element_to_position_by_value c t pivot is_before values ttl
      ≡ Sync.add_element_to_position_by_value c t pivot is_before values ttl)
    × (add_element_to_position_by_value_count c t pivot is_before values ttl
        ≡ Sync.add_element_to_position_by_value_count c t pivot is_before values ttl)
    × (add_element_to_position_before c t pivot values
        ≡ Sync.add_element_to_position_before c t pivot values)
    × (add_element_to_position_after c t pivot values
        ≡ Sync.add_element_to_position_after c t pivot values)
    × (add_element_to_position_before_count c t pivot values
        ≡ Sync.add_element_to_position_before_count c t pivot values)
    × (add_element_to_position_after_count c t pivot values
        ≡ Sync.add_element_to_position_after_count c t pivot values)
    × (add_element_ordered c t values keys position ttl boolean
        ≡ Sync.add_element_ordered c t values keys position ttl boolean)
    × (add_element_with_weight c t values ≡ Sync.add_element_with_weight c t values)
    × (add_element_ordered_set c t values ≡ Sync.add_element_ordered_set c t values)
    × (add_element_ordered_map c t keys values ≡ Sync.add_element_ordered_map c t keys values)
    × (add_element_to_tail c t values ttl ≡ Sync.add_element_to_tail c t values ttl)
    × (add_element_to_head c t values ttl ≡ Sync.add_element_to_head c t values ttl)
    × (add_element_to_tail_count c t values ttl ≡ Sync.add_element_to_tail_count c t values ttl)
    × (add_element_to_head_count c t values ttl ≡ Sync.add_element_to_head_count c t values ttl)

module _ (c : Client) (t : Target) (pivot : ValueLike) (values : Option (List ValueLike)) where
  by_value_agree :
      (is_before : Bool) (ttl : Option ℤ)
      → add_element_to_position_by_value c t pivot is_before values ttl
        ≡ Sync.add_element_to_position_by_value c t pivot is_before values ttl
  unfolding add_element_to_position_by_value Sync.add_element_to_position_by_value
  by_value_agree is_before ttl =
      beside_agree c t "add_element_to_position_by_value" pivot is_before values ttl

  by_value_count_agree :
      (is_before : Bool) (ttl : Option ℤ)
      → add_element_to_position_by_value_count c t pivot is_before values ttl
        ≡ Sync.add_element_to_position_by_value_count c t pivot is_before values ttl
  unfolding add_element_to_position_by_value_count Sync.add_element_to_position_by_value_count
  by_value_count_agree is_before ttl =
      beside_agree c t "add_element_to_position_by_value_count" pivot is_before values ttl

  -- The asynchronous insertions at the head or the tail, before or after a value, and by weight are
  -- the synchronous ones, for all arguments: fourteen operations.
  pub insertions_agree :
      (is_before : Bool) (keys : Option (List ValueLike)) (position : ℕ) (ttl : Option ℤ)
      (boolean : Bool)
      → InsertionsAgree c t pivot is_before values keys position ttl boolean
  unfolding add_element_to_position_before Sync.add_element_to_position_before
      add_element_to_position_after Sync.add_element_to_position_after
      add_element_to_position_before_count Sync.add_element_to_position_before_count
      add_element_to_position_after_count Sync.add_element_to_position_after_count
      add_element_with_weight Sync.add_element_with_weight add_element_ordered_set
      Sync.add_element_ordered_set
  insertions_agree is_before keys position ttl boolean =
      let (tail, head, tail_count, head_count) = ends_agree c t values ttl in
      (
        by_value_agree is_before ttl,
        by_value_count_agree is_before ttl,
        ap (wrap c t.timeout) (by_value_agree true (some (pos 0))),
        ap (wrap c t.timeout) (by_value_agree false (some (pos 0))),
        ap (wrap c t.timeout) (by_value_count_agree true (some (pos 0))),
        ap (wrap c t.timeout) (by_value_count_agree false (some (pos 0))),
        ordered_agree c t values keys position ttl boolean,
        ap (wrap c t.timeout) (ordered_agree c t values none 0 (some (pos 0)) false),
        ap (wrap c t.timeout) (ordered_agree c t values none 0 (some (pos 0)) true),
        ordered_map_agree c t keys values,
        tail,
        head,
        tail_count,
        head_count,
      )
