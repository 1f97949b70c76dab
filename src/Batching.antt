-- ===== src/Batching.antt =====
-- hurricache/grpc/batching.py: cutting one request into chunks that fit the size limit.
pub mod Shapes
pub mod Search
pub mod Coverage
pub mod Greedy
pub mod Sizes
pub mod Laws
pub mod Total
use hurricache_python_client.Base.{
  ℕ, zero, suc, ◌+◌, ◌-◌, ◌/◌, Bool, true, false, Option, none, some, List, [], ◌∷◌, reverse, ltb,
  leb, if◌then◌else◌, length, slice,
}
use hurricache_python_client.Errors.{out_of_fuel, Error, Result, ok, err, value_error}
use hurricache_python_client.Messages.{Key, OrderedKey, Value, OrderedValue, Request}
use hurricache_python_client.Effects.{Env, M, pure, raise, lift, ask, ◌>>=◌, ◌>>◌}
use hurricache_python_client.Operation.{remaining}
use hurricache_python_client.Wire.{max_rpc_size}

-- One `(field, value)` pair of an item; the constructor is the field.
pub data Entry : Type 0 where
  value_field : Value → Entry
  keys_field : Key → Entry
  values_field : Value → Entry
  key_unordered_field : Key → Entry
  key_ordered_field : OrderedKey → Entry
  value_unordered_field : Value → Entry
  value_ordered_field : OrderedValue → Entry

abbrev pub Item : Type 0
Item = List Entry

-- What `plan` does with a request by its message type: `_items`, clearing the repeated fields,
-- appending to them, the position of an insertion, and the largest key hint.
pub record Batchable (R : Type 0) : Type 0 where
  pub items_of : R → Result (List Item)
  pub cleared : R → R
  pub append_entry : R → Entry → R
  pub shifted : ℕ → ℕ → R → Result R
  pub reserved : R → R
  pub message : R → Request
  -- `isinstance(request, pb.AddToValRequest) and not request.isBefore`
  pub backwards : R → Bool

abbrev pub too_large : Error
too_large = value_error "request exceeds the maximum HurriCache request size"

abbrev pub within_limit : Request → Env → M (Unit {0})
within_limit request env =
    if ltb max_rpc_size (env.byte_size request) then raise too_large else pure tt

unfoldable pub check : Request → M (Unit {0})
unfolding remaining
check request = do remaining none; env ← ask; within_limit request env

abbrev pub if_fits : {A : Type 0} → Request → M A → M A → Env → M A
if_fits request m n env = if leb (env.byte_size request) max_rpc_size then m else n

module _ {R : Type 0} (b : Batchable R) where
  open b use {items_of, cleared, append_entry, shifted, reserved, message, backwards}

  abbrev pub append_item : R → Item → R
  append_item r [] = r
  append_item r (entry ∷ rest) = append_item (append_entry r entry) rest

  abbrev pub append_items : R → List Item → R
  append_items r [] = r
  append_items r (item ∷ rest) = append_items (append_item r item) rest

  abbrev pub with_items : List Item → Result R → Result R
  with_items items (ok r) = ok (append_items r items)
  with_items items (err e) = err e

  -- `build(start, end)` over the items, from `reserve` or from `base`
  unfoldable pub build : R → List Item → ℕ → ℕ → Result R
  build base items start stop = with_items (slice start stop items) (shifted start stop base)

  -- `for index in range(len(items)): check(build(index, index + 1))`, with the rounds left
  unfoldable pub check_each : R → List Item → ℕ → ℕ → M (Unit {0})
  check_each reserve items index zero = pure tt
  check_each reserve items index (suc rounds) = do
    r ← lift (build reserve items index (index + 1))
    check (message r)
    check_each reserve items (index + 1) rounds

  -- the binary search for the widest chunk from `start`, on fuel; no fuel for a round is an error
  unfoldable pub widest : ℕ → R → List Item → ℕ → ℕ → ℕ → M ℕ
  widest zero reserve items start lo hi = if ltb lo hi then raise out_of_fuel else pure lo
  widest (suc fuel) reserve items start lo hi =
      if ltb lo hi
      then (do
        let middle = (lo + hi + 1) / 2
        r ← lift (build reserve items start middle)
        env ← ask
        if_fits (message r) (widest fuel reserve items start middle hi)
            (widest fuel reserve items start lo (middle - 1)) env)
      else pure lo

  -- the loop `while start < len(items)`, on fuel; each chunk comes with its number of items
  unfoldable pub chunks_from : ℕ → R → R → List Item → ℕ → M (List (R × ℕ))
  chunks_from zero base reserve items start =
      if ltb start (length items) then raise out_of_fuel else pure []
  chunks_from (suc fuel) base reserve items start =
      if ltb start (length items)
      then (do
        remaining none
        lo ← widest (length items) reserve items start (start + 1) (length items)
        r ← lift (build base items start lo)
        rest ← chunks_from fuel base reserve items lo
        pure ((r, lo - start) ∷ rest))
      else pure []

  -- `if not chunks: chunks = [(build(0, 0, False), 0)]`
  abbrev pub or_empty : R → List Item → List (R × ℕ) → M (List (R × ℕ))
  or_empty base items [] = do r ← lift (build base items 0 0); pure ((r, 0) ∷ [])
  or_empty base items (chunk ∷ rest) = pure (chunk ∷ rest)

  unfoldable pub plan : R → Bool → M (List (R × ℕ))
  plan request creation = do
    items ← lift (items_of request)
    let base = cleared request
    let reserve = if creation then reserved base else base
    headers ← lift (build reserve items 0 0)
    check (message headers)
    check_each reserve items 0 (length items)
    found ← chunks_from (length items) base reserve items 0
    chunks ← or_empty base items found
    pure (if backwards request then reverse chunks else chunks)
