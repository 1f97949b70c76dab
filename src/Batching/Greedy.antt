-- ===== src/Batching/Greedy.antt =====
-- A plan takes as many items into a chunk as the limit allows.
use hurricache_python_client.Base.{ℕ, ◌+◌, ◌≡◌, inl, arith, Bool, List, [], ◌∷◌}
use hurricache_python_client.Errors.{ok}
use hurricache_python_client.Effects.{Env}
use hurricache_python_client.Effects.Ensures.{Ensures, Returns}
use hurricache_python_client.Batching.{Batchable, Item, plan}
use hurricache_python_client.Batching.Search.{Full}
use hurricache_python_client.Batching.Coverage.{Chain, in_order, headers_of, plan-in_order}

module _ {R : Type 0} (b : Batchable R) (env : Env) where
  -- None of the chunks from `start` on has room for the item behind it.
  abbrev pub Greedy : R → List Item → ℕ → List (R × ℕ) → Type 0
  Greedy reserve items start [] = Unit {0}
  Greedy reserve items start ((r, n) ∷ rest) =
      Full b env reserve items start (start + n) × Greedy reserve items (start + n) rest

  Chain-Greedy :
      (base reserve : R) (items : List Item) (start : ℕ) (chunks : List (R × ℕ))
      → Chain b env base reserve items start chunks
      → Greedy reserve items start chunks
  Chain-Greedy base reserve items start [] h = tt
  Chain-Greedy base reserve items start ((r, n) ∷ rest) h =
      (h.5, Chain-Greedy base reserve items (start + n) rest h.4)

  returned :
      (request : R) (creation : Bool) (chunks : List (R × ℕ)) (items : List Item)
      → b.items_of request ≡ ok items
      → Greedy (headers_of b request creation) items 0 chunks
      → Returns
          (λ found. Greedy (headers_of b request creation) found 0 chunks)
          (b.items_of request)
  returned request creation chunks items is_items h = rw is_items h

  -- Whenever a plan is made, each chunk, in order, ends with the last item, or would be over the
  -- limit with the item behind it, as the search measures it.
  pub plan-Greedy :
      (request : R) (creation : Bool)
      → Ensures env
          (λ chunks.
            Returns
              (λ items. Greedy (headers_of b request creation) items 0 (in_order b request chunks))
              (b.items_of request))
          (plan b request creation)
  plan-Greedy request creation =
      plan-in_order b env request creation
        (λ chunks.
          Returns (λ items. Greedy (headers_of b request creation) items 0 chunks)
            (b.items_of request))
        (λ items found is_items chain _.
          returned request creation found items is_items
            (Chain-Greedy (b.cleared request) (headers_of b request creation) items 0 found chain))
        (λ items r is_items empty fit built.
          returned request creation ((r, 0) ∷ []) items is_items (inl (omega (arith, empty)), tt))
