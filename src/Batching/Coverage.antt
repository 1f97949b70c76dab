-- ===== src/Batching/Coverage.antt =====
-- The chunks of a plan are the consecutive slices of the request's items.
use hurricache_python_client.Base.{
  ℕ, zero, suc, ◌+◌, ◌-◌, ◌≤◌, ◌<◌, ◌≡◌, refl, inl, sym, ap, ◌∙◌, Bool, none, List, [], ◌∷◌, ◌++◌,
  arith, ltb, if◌then◌else◌, length, slice, drop, ltb→lt, drop_all, length-slice, reverse, All,
  slice-append-drop,
}
use mathlib.Core.List.{reverse-reverse}
use hurricache_python_client.Errors.{Result, out_of_fuel, ok, map_result, ◌>>=◌ as and_then}
use hurricache_python_client.Effects.{Env}
use hurricache_python_client.Effects.Ensures.{
  Ensures, Ensures-pure, Ensures-if, Ensures-raise, Ensures-bind, Ensures-then, Ensures-bind_lift,
  Ensures-and,
}
use hurricache_python_client.Operation.{remaining}
use hurricache_python_client.Batching.{
  Batchable, Item, build, check_each, or_empty, chunks_from, widest, plan,
}
use hurricache_python_client.Batching.Search.{
  Fits, EachFits, Full, widest-Full, widest-Ensures, built_checked, check_each-Ensures,
}

-- Building the items of a slice gives a request that holds just them.
pub record BatchLaws {R : Type 0} (b : Batchable R) : Type 0 where
  pub reassemble :
      (request chunk : R) (items : List Item) (start stop : ℕ)
      → b.items_of request ≡ ok items
      → build b (b.cleared request) items start stop ≡ ok chunk
      → b.items_of chunk ≡ ok (slice start stop items)

module _ {R : Type 0} (b : Batchable R) where
  -- the items of the chunks, one chunk after the other
  abbrev pub chunk_items : List (R × ℕ) → Result (List Item)
  chunk_items [] = ok []
  chunk_items ((r, n) ∷ rest) =
      and_then (b.items_of r) λ xs. and_then (chunk_items rest) λ ys. ok (xs ++ ys)

  -- the number that comes with a chunk is the number of its items
  abbrev pub Counted : R × ℕ → Type 0
  Counted (r, n) = map_result length (b.items_of r) ≡ ok n

  module _ (env : Env) (base reserve : R) (items : List Item) where
    -- Chunks that follow one another from `start` to the end, each of one item at least, built
    -- from `base`, and within the limit when built from `reserve`, as wide as that allows.
    abbrev pub Chain : ℕ → List (R × ℕ) → Type 0
    Chain start [] = length items ≤ start
    Chain start ((r, n) ∷ rest) =
        (0 < n)
        × (start + n ≤ length items)
        × (build b base items start (start + n) ≡ ok r)
        × Fits b env reserve items start (start + n)
        × Chain (start + n) rest
        × Full b env reserve items start (start + n)

    module _ (each : EachFits b env reserve items 0 (length items)) where
      pub chunks_from-Chain :
          (fuel start : ℕ) → Ensures env (Chain start) (chunks_from b fuel base reserve items start)
      unfolding chunks_from
      chunks_from-Chain zero start =
          Ensures-if (ltb start (length items)) _ _ (λ _. Ensures-raise out_of_fuel)
            (λ last. Ensures-pure [] (ground arith))
      chunks_from-Chain (suc fuel) start =
          Ensures-if (ltb start (length items)) _ _
            (λ more.
              let below : start < length items = ltb→lt _ _ more in
              Ensures-then (remaining none) _ λ _.
                Ensures-bind
                  (widest b (length items) reserve items start (start + 1) (length items)) _
                  (Ensures-and _
                    (widest-Ensures b env reserve items (length items) start (start + 1)
                      (length items) (omega arith) (each start (omega arith) (omega arith)))
                    (widest-Full b env reserve items (length items) start (start + 1) (length items)
                      (omega arith) (inl refl)))
                  λ lo (found, full). Ensures-bind_lift (build b base items start lo) _ λ r built.
                    let back : start + (lo - start) ≡ lo = omega (arith, found.0) in
                    Ensures-bind (chunks_from b fuel base reserve items lo) _
                      (chunks_from-Chain fuel lo)
                      λ rest chain. Ensures-pure ((r, lo - start) ∷ rest) (
                        omega (arith, found.0),
                        rw back found.1,
                        rw back built,
                        rw back found.2,
                        rw back chain,
                        rw back full,
                      ))
            (λ last. Ensures-pure [] (ground arith))

  module _ (laws : BatchLaws b) (env : Env) (request reserve : R) {items : List Item}
      (is_items : b.items_of request ≡ ok items) where
    chunk_items-Chain :
        (start : ℕ) (chunks : List (R × ℕ))
        → Chain env (b.cleared request) reserve items start chunks
        → chunk_items chunks ≡ ok (drop start items)
    chunk_items-Chain start [] h = ap ok (sym (drop_all start items h))
    chunk_items-Chain start ((r, n) ∷ rest) h =
        rw
          (
            laws.reassemble request r items start (start + n) is_items h.2,
            chunk_items-Chain (start + n) rest h.4,
          )
          (ap ok (slice-append-drop start n items))

    Counted-Chain :
        (start : ℕ) (chunks : List (R × ℕ))
        → Chain env (b.cleared request) reserve items start chunks
        → All Counted chunks
    Counted-Chain start [] h = tt
    Counted-Chain start ((r, n) ∷ rest) h = (
      rw (laws.reassemble request r items start (start + n) is_items h.2)
          (ap ok (length-slice start n items h.1)),
      Counted-Chain (start + n) rest h.4,
    )

  -- Reversed back, where the plan reversed them: the chunks in the order of the items.
  abbrev pub in_order : R → List (R × ℕ) → List (R × ℕ)
  in_order request chunks = if b.backwards request then reverse chunks else chunks

  in_order-plan :
      (request : R) (chunks : List (R × ℕ))
      → in_order request (if b.backwards request then reverse chunks else chunks) ≡ chunks
  in_order-plan request chunks = ground (arith, reverse-reverse chunks)

  none_left :
      (env : Env) (base reserve : R) (items : List Item) (found : List (R × ℕ))
      → Chain env base reserve items 0 found
      → length found ≡ 0
      → length items ≤ 0
  none_left env base reserve items [] h e = h
  none_left env base reserve items (c ∷ cs) h e = absurd (omega arith)

  -- the headers from which the sizes are computed
  abbrev pub headers_of : R → Bool → R
  headers_of request creation =
      if creation then b.reserved (b.cleared request) else b.cleared request

  -- To show something of the chunks in order: show it of every chain of chunks, and of the one
  -- empty chunk of a request with no items.
  module _ (env : Env) (request : R) (creation : Bool) (Q : List (R × ℕ) → Type 0) where
    finish :
        (items : List Item) (found : List (R × ℕ))
        → (0 < length found → Q found)
        → ((r : R)
            → length found ≡ 0
            → build b (b.cleared request) items 0 0 ≡ ok r
            → Q ((r, 0) ∷ []))
        → Ensures env Q (or_empty b (b.cleared request) items found)
    finish items [] q single =
        Ensures-bind_lift (build b (b.cleared request) items 0 0) _
          λ r built. Ensures-pure _ (single r refl built)
    finish items (chunk ∷ rest) q single = Ensures-pure (chunk ∷ rest) (q (omega arith))

    pub plan-in_order :
        ((items : List Item) (found : List (R × ℕ))
          → b.items_of request ≡ ok items
          → Chain env (b.cleared request) (headers_of request creation) items 0 found
          → 0 < length found
          → Q found)
        → ((items : List Item) (r : R)
            → b.items_of request ≡ ok items
            → length items ≤ 0
            → Fits b env (headers_of request creation) items 0 0
            → build b (b.cleared request) items 0 0 ≡ ok r
            → Q ((r, 0) ∷ []))
        → Ensures env (λ chunks. Q (in_order request chunks)) (plan b request creation)
    unfolding plan
    plan-in_order chained single = Ensures-bind_lift (b.items_of request) _ λ items is_items.
        built_checked b env (build b (headers_of request creation) items 0 0) _ λ fit.
          Ensures-bind (check_each b (headers_of request creation) items 0 (length items)) _
            (check_each-Ensures b env (headers_of request creation) items 0 (length items))
            λ _ each.
              Ensures-bind
                (chunks_from b (length items) (b.cleared request) (headers_of request creation)
                  items 0)
                _
                (chunks_from-Chain env (b.cleared request) (headers_of request creation) items each
                  (length items) 0)
                λ found chain.
                  Ensures-bind (or_empty b (b.cleared request) items found) _
                    (finish items found (chained items found is_items chain) (λ r nothing built.
                      single items r is_items (none_left env _ _ items found chain nothing) fit
                        built))
                    λ chunks q. Ensures-pure _ (rw (in_order-plan request chunks) q)

  -- Whenever a plan is made, for a message type that obeys the law of `BatchLaws`, the items of its
  -- chunks, in order, are the items of the request, and each chunk comes with the number of its
  -- items.
  pub plan-covers :
      BatchLaws b
      → (env : Env) (request : R) (creation : Bool)
      → Ensures env
          (λ chunks.
            (chunk_items (in_order request chunks) ≡ b.items_of request)
            × All Counted (in_order request chunks))
          (plan b request creation)
  plan-covers laws env request creation =
      plan-in_order env request creation
        (λ chunks. (chunk_items chunks ≡ b.items_of request) × All Counted chunks)
        (λ items found is_items chain _. (
          chunk_items-Chain laws env request _ is_items 0 found chain ∙ sym is_items,
          Counted-Chain laws env request _ is_items 0 found chain,
        ))
        (λ items r is_items empty fit built.
          let holds : b.items_of r ≡ ok [] = laws.reassemble request r items 0 0 is_items built in
          (rw (holds, is_items) (ap ok (sym (drop_all 0 items empty))), rw holds (refl, tt)))
