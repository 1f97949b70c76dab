-- ===== src/Batching/Total.antt =====
-- A plan is always made where the items fit: the search and the loop end, and raise nothing.
use hurricache_python_client.Base.{
  false, ℕ, zero, suc, ◌+◌, ◌-◌, ◌/◌, ◌≤◌, ◌≡◌, refl, inl, inr, Bool, none, List, [], ◌∷◌, arith,
  ltb, leb, length, slice, Bool-cases,
}
use hurricache_python_client.Errors.{Result, ok, err}
use hurricache_python_client.Effects.{Env, World, M, lift, ask, ◌>>=◌}
use hurricache_python_client.Effects.Ensures.{Returns}
use hurricache_python_client.Effects.Yields.{Yields, Yields-bind, Yields-lift, Yields-map}
use hurricache_python_client.Messages.{Request}
use hurricache_python_client.Operation.{remaining}
use hurricache_python_client.Wire.{max_rpc_size}
use hurricache_python_client.Batching.{
  Batchable, Item, with_items, build, check, check_each, widest, chunks_from, or_empty, plan,
  if_fits,
}
use hurricache_python_client.Batching.Search.{Fits, EachFits}
use hurricache_python_client.Batching.Coverage.{headers_of}

-- no more than that there is a value
abbrev Any : {A : Type 0} → A → Type 0
Any _ = Unit {0}

module _ {R : Type 0} (b : Batchable R) (base reserve : R) (items : List Item) where
  -- no position of a chunk overflows
  pub record Placeable : Type 0 where
    pub final : (start stop : ℕ) → stop ≤ length items → Returns Any (b.shifted start stop base)
    pub trial : (start stop : ℕ) → stop ≤ length items → Returns Any (b.shifted start stop reserve)

module _ {R : Type 0} (b : Batchable R) (items : List Item) where
  with_items-Returns :
      (xs : List Item) (r : Result R) → Returns Any r → Returns Any (with_items b xs r)
  with_items-Returns xs (ok r) h = tt
  with_items-Returns xs (err e) h = h

  build-Returns :
      (r : R) (start stop : ℕ)
      → Returns Any (b.shifted start stop r)
      → Returns Any (build b r items start stop)
  unfolding build
  build-Returns r start stop h =
      with_items-Returns (slice start stop items) (b.shifted start stop r) h

module _ (env : Env) (w : World) (quiet : w.deadline ≡ none) where
  remaining-quiet : remaining none env w ≡ (ok none, w)
  unfolding remaining
  remaining-quiet = ground arith

  pub check-quiet :
      (request : Request) → env.byte_size request ≤ max_rpc_size → Yields env w Any (check request)
  unfolding check
  check-quiet request small = (tt, ground arith, tt)

  if_fits-quiet :
      {A : Type 0} (P : A → Type 0) (request : Request) (m n : M A)
      → Yields env w P m
      → Yields env w P n
      → Yields env w P (ask >>= if_fits request m n)
  if_fits-quiet P request m n hm hn = elim (Bool-cases (leb (env.byte_size request) max_rpc_size)) [
    | inl small ↦ rw small hm
    | inr large ↦ rw large hn
  ]

  module _ {R : Type 0} (b : Batchable R) (base reserve : R) (items : List Item) where
    check_each-quiet :
        (index rounds : ℕ)
        → EachFits b env reserve items index rounds
        → Yields env w Any (check_each b reserve items index rounds)
    unfolding check_each
    check_each-quiet index zero h = (tt, refl, tt)
    check_each-quiet index (suc rounds) h =
        Yields-bind env w (λ r. env.byte_size (b.message r) ≤ max_rpc_size) Any
          (lift (build b reserve items index (index + 1))) _
          (Yields-lift env w _ _ (h index (omega arith) (omega arith)))
          λ r small.
            Yields-bind env w Any Any (check (b.message r)) _ (check-quiet (b.message r) small)
              λ _ _.
                check_each-quiet (index + 1) rounds (λ i low high. h i (omega arith) (omega arith))

    -- between two bounds
    abbrev Between : ℕ → ℕ → ℕ → Type 0
    Between lo hi m = (lo ≤ m) × (m ≤ hi)

    module _ (place : Placeable b base reserve items) where
      widest-quiet :
          (fuel start lo hi : ℕ)
          → lo ≤ hi
          → hi ≤ length items
          → hi ≤ lo + fuel
          → Yields env w (Between lo hi) (widest b fuel reserve items start lo hi)
      unfolding widest
      widest-quiet zero start lo hi h k enough =
          let done : ltb lo hi ≡ false = ground arith in rw done (lo, refl, (omega arith, h))
      widest-quiet (suc fuel) start lo hi h k enough =
          let middle : ℕ = (lo + hi + 1) / 2 in
          elim (Bool-cases (ltb lo hi)) [
            | inl below ↦ rw below (
                Yields-bind env w Any (Between lo hi) (lift (build b reserve items start middle)) _
                  (Yields-lift env w Any _ (
                    build-Returns b items reserve start middle
                      (place.trial start middle (ground arith))))
                  λ r _.
                    if_fits-quiet (Between lo hi) (b.message r) _ _
                      (Yields-map env w (Between middle hi) (Between lo hi)
                        (widest b fuel reserve items start middle hi)
                        (λ m between. (ground (arith, between.0), between.1))
                        (widest-quiet fuel start middle hi (ground arith) k (ground arith)))
                      (Yields-map env w (Between lo (middle - 1)) (Between lo hi)
                        (widest b fuel reserve items start lo (middle - 1))
                        (λ m between. (between.0, ground (arith, between.1)))
                        (widest-quiet fuel start lo (middle - 1) (ground arith) (ground arith)
                          (ground arith))))
            | inr done ↦ rw done (lo, refl, (omega arith, h))
          ]

      chunks_from-quiet :
          (fuel start : ℕ)
          → length items ≤ start + fuel
          → Yields env w Any (chunks_from b fuel base reserve items start)
      unfolding chunks_from
      chunks_from-quiet zero start enough =
          let last : ltb start (length items) ≡ false = ground arith in rw last ([], refl, tt)
      chunks_from-quiet (suc fuel) start enough = elim (Bool-cases (ltb start (length items))) [
        | inl more ↦ rw more (
            Yields-bind env w Any Any (remaining none) _ (none, remaining-quiet, tt)
              λ _ _.
                Yields-bind env w (Between (start + 1) (length items)) Any
                  (widest b (length items) reserve items start (start + 1) (length items)) _
                  (widest-quiet (length items) start (start + 1) (length items) (ground arith)
                    (omega arith) (omega arith))
                  λ lo between.
                    Yields-bind env w Any Any (lift (build b base items start lo)) _
                      (Yields-lift env w Any _
                        (build-Returns b items base start lo (place.final start lo between.1)))
                      λ r _.
                        Yields-bind env w Any Any (chunks_from b fuel base reserve items lo) _
                          (chunks_from-quiet fuel lo (omega (arith, between.0)))
                          λ rest _. (_, refl, tt))
        | inr last ↦ rw last ([], refl, tt)
      ]

      or_empty-quiet : (found : List (R × ℕ)) → Yields env w Any (or_empty b base items found)
      or_empty-quiet [] =
          Yields-bind env w Any Any (lift (build b base items 0 0)) _
            (Yields-lift env w Any _
              (build-Returns b items base 0 0 (place.final 0 0 (omega arith))))
            λ r _. (_, refl, tt)
      or_empty-quiet (chunk ∷ rest) = (_, refl, tt)

  -- With no deadline, if the headers and each item alone fit one request and no position overflows,
  -- planning returns a plan: the search and the loop end before they run out of fuel, which would
  -- be an error, and nothing is raised.
  pub plan_total :
      {R : Type 0} (b : Batchable R) (request : R) (creation : Bool) (items : List Item)
      → b.items_of request ≡ ok items
      → Fits b env (headers_of b request creation) items 0 0
      → EachFits b env (headers_of b request creation) items 0 (length items)
      → Placeable b (b.cleared request) (headers_of b request creation) items
      → Yields env w Any (plan b request creation)
  unfolding plan
  plan_total b request creation items is_items fit each place =
      let base = b.cleared request in
      let reserve = headers_of b request creation in
      rw is_items (
        Yields-bind env w (λ r. env.byte_size (b.message r) ≤ max_rpc_size) Any
          (lift (build b reserve items 0 0)) _ (Yields-lift env w _ _ fit)
          λ headers small.
            Yields-bind env w Any Any (check (b.message headers)) _
              (check-quiet (b.message headers) small)
              λ _ _.
                Yields-bind env w Any Any (check_each b reserve items 0 (length items)) _
                  (check_each-quiet b base reserve items 0 (length items) each)
                  λ _ _.
                    Yields-bind env w Any Any (chunks_from b (length items) base reserve items 0) _
                      (chunks_from-quiet b base reserve items place (length items) 0 (omega arith))
                      λ found _.
                        Yields-bind env w Any Any (or_empty b base items found) _
                          (or_empty-quiet b base reserve items place found)
                          λ chunks _. (_, refl, tt))
