-- ===== src/Batching/Search.antt =====
-- The preflight loop and the binary search of `plan`: what they establish whenever they return.
use mathlib.Core.Path.{subst}
use hurricache_python_client.Base.{
  ◌⊎◌, length, none, ◌==◌, ℕ, zero, suc, ◌+◌, ◌-◌, ◌/◌, ◌≤◌, ◌<◌, ◌≡◌, inl, inr, List, arith, ltb,
  leb→le, Bool-cases,
}
use hurricache_python_client.Errors.{Result, ok, err, out_of_fuel}
use hurricache_python_client.Effects.{Env, M, lift, ask, ◌>>=◌, ◌>>◌}
use hurricache_python_client.Effects.Ensures.{
  Ensures, Returns, Ensures-pure, Ensures-raise, Ensures-if, Ensures-bind, Ensures-ask,
  Ensures-then, Ensures-map,
}
use hurricache_python_client.Messages.{Request}
use hurricache_python_client.Operation.{remaining}
use hurricache_python_client.Wire.{max_rpc_size}
use hurricache_python_client.Batching.{
  Batchable, within_limit, too_large, if_fits, Item, check, build, check_each, widest,
}

-- A request that passes `check` is within the limit.
pub check-Ensures :
    (env : Env) (request : Request)
    → Ensures env (λ _. env.byte_size request ≤ max_rpc_size) (check request)
unfolding check
check-Ensures env request = Ensures-then (remaining none) _ λ _.
    Ensures-ask (within_limit request) (
      Ensures-if (ltb max_rpc_size (env.byte_size request)) _ _ (λ _. Ensures-raise too_large)
        (λ small. Ensures-pure tt (ground arith)))

module _ {R : Type 0} (b : Batchable R) (env : Env) where
  open b use {message}

  -- a request that was built, and fits
  abbrev pub Small : Result R → Type 0
  Small = Returns λ r. env.byte_size (message r) ≤ max_rpc_size

  -- a request that was built, and does not fit
  abbrev pub Large : Result R → Type 0
  Large = Returns λ r. max_rpc_size < env.byte_size (message r)

  module _ {B : Type 0} {Q : B → Type 0} where
    -- build, check, and go on
    pub built_checked :
        (r : Result R) (k : M B)
        → (Small r → Ensures env Q k)
        → Ensures env Q (do x ← lift r; check (message x); k)
    built_checked (ok x) k h =
        Ensures-bind (check (message x)) _ (check-Ensures env (message x)) (λ _ small. h small)
    built_checked (err e) k h = Ensures-raise e

    -- build, measure, and go on by the size
    built_measured :
        (r : Result R) (m n : M B)
        → (Small r → Ensures env Q m)
        → (Large r → Ensures env Q n)
        → Ensures env Q (do x ← lift r; env' ← ask; if_fits (message x) m n env')
    built_measured (ok x) m n hm hn =
        Ensures-ask (if_fits (message x) m n)
          (Ensures-if _ m n (λ small. hm (leb→le _ _ small)) (λ large. hn (ground arith)))
    built_measured (err e) m n hm hn = Ensures-raise e

module _ {R : Type 0} (b : Batchable R) (env : Env) (reserve : R) (items : List Item) where
  -- The items from `start` up to `stop` can be built and fit one request.
  abbrev pub Fits : ℕ → ℕ → Type 0
  Fits start stop = Small b env (build b reserve items start stop)

  -- each item from `index` on, for so many items, fits a request of its own
  abbrev pub EachFits : ℕ → ℕ → Type 0
  EachFits index rounds = (i : ℕ) → index ≤ i → i < index + rounds → Fits i (i + 1)

  EachFits-suc :
      (index rounds : ℕ)
      → Fits index (index + 1)
      → EachFits (index + 1) rounds
      → EachFits index (suc rounds)
  EachFits-suc index rounds h k i low high = elim (Bool-cases (i == index)) [
    | inl same ↦ let e : i ≡ index = ground arith in rw e h
    | inr other ↦ k i (ground arith) (omega arith)
  ]

  pub check_each-Ensures :
      (index rounds : ℕ)
      → Ensures env (λ _. EachFits index rounds) (check_each b reserve items index rounds)
  unfolding check_each
  check_each-Ensures index zero = Ensures-pure tt (λ i h k. absurd (omega arith))
  check_each-Ensures index (suc rounds) =
      built_checked b env (build b reserve items index (index + 1)) _ λ fit.
        Ensures-map _ (λ _ rest. EachFits-suc index rounds fit rest)
          (check_each-Ensures (index + 1) rounds)

  -- The search stays within its bounds, and what it finds fits.
  pub widest-Ensures :
      (fuel start lo hi : ℕ)
      → lo ≤ hi
      → Fits start lo
      → Ensures env
          (λ m. (lo ≤ m) × (m ≤ hi) × Fits start m)
          (widest b fuel reserve items start lo hi)
  unfolding widest
  widest-Ensures zero start lo hi h fit =
      Ensures-if (ltb lo hi) _ _ (λ _. Ensures-raise out_of_fuel)
        (λ _. Ensures-pure lo (omega arith, h, fit))
  widest-Ensures (suc fuel) start lo hi h fit =
      let middle : ℕ = (lo + hi + 1) / 2 in
      Ensures-if (ltb lo hi) _ _
        (λ below.
          built_measured b env (build b reserve items start middle) _ _
            (λ small.
              Ensures-map _ (λ m r. (ground (arith, r.0), r.1, r.2))
                (widest-Ensures fuel start middle hi (ground arith) small))
            (λ _.
              Ensures-map _ (λ m r. (r.0, ground (arith, r.1), r.2))
                (widest-Ensures fuel start lo (middle - 1) (ground arith) fit)))
        (λ _. Ensures-pure lo (omega arith, h, fit))

  -- Not one more item fits the chunk from `start` up to `stop`: there is none, or the chunk that
  -- has it too is not within the limit.
  abbrev pub Full : ℕ → ℕ → Type 0
  Full start stop = (stop ≡ length items) ⊎ Large b env (build b reserve items start (stop + 1))

  -- Where the search returns, no item can be added to the chunk that it found.
  pub widest-Full :
      (fuel start lo hi : ℕ)
      → lo ≤ hi
      → Full start hi
      → Ensures env (Full start) (widest b fuel reserve items start lo hi)
  unfolding widest
  widest-Full zero start lo hi h full =
      Ensures-if (ltb lo hi) _ _ (λ _. Ensures-raise out_of_fuel)
        (λ end. Ensures-pure lo (let same : hi ≡ lo = ground arith in subst (Full start) same full))
  widest-Full (suc fuel) start lo hi h full =
      let middle : ℕ = (lo + hi + 1) / 2 in
      Ensures-if (ltb lo hi) _ _
        (λ below.
          built_measured b env (build b reserve items start middle) _ _
            (λ _. widest-Full fuel start middle hi (ground arith) full)
            (λ large.
              let next : middle ≡ middle - 1 + 1 = ground arith in
              widest-Full fuel start lo (middle - 1) (ground arith)
                (inr (subst (λ stop. Large b env (build b reserve items start stop)) next large))))
        (λ end. Ensures-pure lo (let same : hi ≡ lo = ground arith in subst (Full start) same full))
