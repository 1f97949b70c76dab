-- ===== src/Batching/Sizes.antt =====
-- Every chunk of a plan fits the size limit.
use mathlib.Core.Path.{subst}
use hurricache_python_client.Base.{
  refl, ℕ, ◌+◌, ◌≤◌, ◌≡◌, Bool, true, false, List, [], ◌∷◌, arith, All,
}
use hurricache_python_client.Errors.{Result, ok, err}
use hurricache_python_client.Effects.{Env}
use hurricache_python_client.Effects.Ensures.{Ensures}
use hurricache_python_client.Wire.{max_rpc_size}
use hurricache_python_client.Batching.{Batchable, Item, build, plan}
use hurricache_python_client.Batching.Search.{Fits, Small}
use hurricache_python_client.Batching.Coverage.{Chain, in_order, headers_of, plan-in_order}

-- Serialization: a message is not longer than the same message with the key hint set to the
-- largest hashes.
pub record SizeLaws {R : Type 0} (env : Env) (b : Batchable R) : Type 0 where
  pub reserved-le :
      (base plain_one wide : R) (items : List Item) (start stop : ℕ)
      → build b base items start stop ≡ ok plain_one
      → build b (b.reserved base) items start stop ≡ ok wide
      → env.byte_size (b.message plain_one) ≤ env.byte_size (b.message wide)

module _ {R : Type 0} (b : Batchable R) (env : Env) where
  -- the chunk within the limit
  abbrev pub WithinLimit : R × ℕ → Type 0
  WithinLimit (r, n) = env.byte_size (b.message r) ≤ max_rpc_size

  module _ (laws : SizeLaws env b) (request : R) (items : List Item) (start stop : ℕ) (r : R) where
    by_reserve :
        (wide : Result R)
        → build b (b.reserved (b.cleared request)) items start stop ≡ wide
        → build b (b.cleared request) items start stop ≡ ok r
        → Small b env wide
        → env.byte_size (b.message r) ≤ max_rpc_size
    by_reserve (ok d) e built small =
        omega (arith, laws.reserved-le (b.cleared request) r d items start stop built e)
    by_reserve (err x) e built small = absurd small

    within :
        (creation : Bool)
        → build b (b.cleared request) items start stop ≡ ok r
        → Fits b env (headers_of b request creation) items start stop
        → env.byte_size (b.message r) ≤ max_rpc_size
    within true built fit = by_reserve _ refl built fit
    within false built fit = subst (Small b env) built fit

  Chain-WithinLimit :
      SizeLaws env b
      → (request : R) (creation : Bool) (items : List Item) (start : ℕ) (chunks : List (R × ℕ))
      → Chain b env (b.cleared request) (headers_of b request creation) items start chunks
      → All WithinLimit chunks
  Chain-WithinLimit laws request creation items start [] h = tt
  Chain-WithinLimit laws request creation items start ((r, n) ∷ rest) h = (
    within laws request items start (start + n) r creation h.2 h.3,
    Chain-WithinLimit laws request creation items (start + n) rest h.4,
  )

  -- Whenever a plan is made, every chunk of it is within the limit on requests, where the largest
  -- key hint makes a request no smaller.
  pub plan-WithinLimit :
      SizeLaws env b
      → (request : R) (creation : Bool)
      → Ensures env
          (λ chunks. All WithinLimit (in_order b request chunks))
          (plan b request creation)
  plan-WithinLimit laws request creation =
      plan-in_order b env request creation (All WithinLimit)
        (λ items found is_items chain _.
          Chain-WithinLimit laws request creation items 0 found chain)
        (λ items r is_items empty fit built.
          (within laws request items 0 0 r creation built fit, tt))
