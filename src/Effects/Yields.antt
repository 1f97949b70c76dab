-- ===== src/Effects/Yields.antt =====
-- Total correctness of code that leaves the state alone: it returns, and its result satisfies `P`.
use hurricache_python_client.Base.{◌≡◌, refl, ap, ◌∙◌}
use hurricache_python_client.Errors.{Result, ok, err}
use hurricache_python_client.Effects.{Env, World, M, lift, continue, ◌>>=◌}
use hurricache_python_client.Effects.Ensures.{Returns}

abbrev pub Yields : {A : Type 0} → Env → World → (A → Type 0) → M A → Type 0
Yields {A} env w P m = (a : A) × (m env w ≡ (ok a, w)) × P a

module _ (env : Env) (w : World) where
  pub Yields-lift :
      {A : Type 0} (P : A → Type 0) (r : Result A) → Returns P r → Yields env w P (lift r)
  Yields-lift P (ok a) h = (a, refl, h)
  Yields-lift P (err e) h = absurd h

  pub Yields-bind :
      {A B : Type 0} (P : A → Type 0) (Q : B → Type 0) (m : M A) (f : A → M B)
      → Yields env w P m
      → ((a : A) → P a → Yields env w Q (f a))
      → Yields env w Q (m >>= f)
  Yields-bind P Q m f (a, e, p) k =
      let (b, e', q) = k a p in (b, ap (λ x. continue x.0 f env x.1) e ∙ e', q)

  pub Yields-map :
      {A : Type 0} (P Q : A → Type 0) (m : M A)
      → ((a : A) → P a → Q a)
      → Yields env w P m
      → Yields env w Q m
  Yields-map P Q m f (a, e, p) = (a, e, f a p)
