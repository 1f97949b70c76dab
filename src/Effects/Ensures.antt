-- ===== src/Effects/Ensures.antt =====
-- Postconditions of effectful code: what holds of the result whenever it returns, and what a step
-- does to the state whether it returns or raises.
use mathlib.Core.Path.{subst}
use hurricache_python_client.Base.{◌≡◌, refl, Bool, true, false, if◌then◌else◌}
use hurricache_python_client.Errors.{Error, Result, ok, err}
use hurricache_python_client.Effects.{Env, World, M, ask, pure, raise, lift, continue, ◌>>=◌}

-- `P` of a result, nothing of an error.
abbrev pub Holds : {A : Type 0} → (A → Type 0) → Result A → Type 0
Holds P (ok a) = P a
Holds P (err e) = Unit {0}

-- A result that satisfies `P`, and no error.
abbrev pub Returns : {A : Type 0} → (A → Type 0) → Result A → Type 0
Returns P (ok a) = P a
Returns P (err e) = ⊥

module _ {A : Type 0} (P Q : A → Type 0) where
  pub Holds-map : (r : Result A) → ((a : A) → P a → Q a) → Holds P r → Holds Q r
  Holds-map (ok a) f h = f a h
  Holds-map (err e) f h = tt

  pub Returns-map : (r : Result A) → ((a : A) → P a → Q a) → Returns P r → Returns Q r
  Returns-map (ok a) f h = f a h
  Returns-map (err e) f h = h

  Holds-and : (r : Result A) → Holds P r → Holds Q r → Holds (λ a. P a × Q a) r
  Holds-and (ok a) p q = (p, q)
  Holds-and (err e) p q = tt

-- Whenever `m` returns in `env`, its result satisfies `P`.
pub record Ensures {A : Type 0} (env : Env) (P : A → Type 0) (m : M A) : Type 0 where
  pub at : (w : World) → Holds P (m env w).0

pub Holds-ok : {A : Type 0} (P : A → Type 0) (r : Result A) (a : A) → r ≡ ok a → Holds P r → P a
Holds-ok P (ok b) a e h = let same : b ≡ a = cc in subst P same h
Holds-ok P (err x) a e h = cc

module _ {A : Type 0} {env : Env} {P : A → Type 0} where
  pub Ensures-pure : (a : A) → P a → Ensures env P (pure a)
  Ensures-pure a h = record { at = λ w. h }

  pub Ensures-raise : (e : Error) → Ensures env P (raise e)
  Ensures-raise e = record { at = λ w. tt }

  pub Ensures-lift : (r : Result A) → Holds P r → Ensures env P (lift r)
  Ensures-lift r h = record { at = λ w. h }

  pub Ensures-if :
      (b : Bool) (m n : M A)
      → (b ≡ true → Ensures env P m)
      → (b ≡ false → Ensures env P n)
      → Ensures env P (if b then m else n)
  Ensures-if true m n km kn = km refl
  Ensures-if false m n km kn = kn refl

module _ {A B : Type 0} {env : Env} {P : A → Type 0} {Q : B → Type 0} where
  Holds-continue :
      (r : Result A) (f : A → M B) (w : World)
      → Holds P r
      → ((a : A) → P a → Ensures env Q (f a))
      → Holds Q (continue r f env w).0
  Holds-continue (ok a) f w h k = (k a h).at w
  Holds-continue (err e) f w h k = tt

  pub Ensures-bind :
      (m : M A) (f : A → M B)
      → Ensures env P m
      → ((a : A) → P a → Ensures env Q (f a))
      → Ensures env Q (m >>= f)
  Ensures-bind m f km kf = record {
    at = λ w. let (r, w') = m env w in Holds-continue r f w' (km.at w) kf;
  }

module _ {B : Type 0} {env : Env} {Q : B → Type 0} where
  -- what `ask` hands on is the environment itself
  pub Ensures-ask : (f : Env → M B) → Ensures env Q (f env) → Ensures env Q (ask >>= f)
  Ensures-ask f h = record { at = λ w. h.at w }

  Holds-any :
      {A : Type 0} (r : Result A) (f : A → M B) (w : World)
      → ((a : A) → Ensures env Q (f a))
      → Holds Q (continue r f env w).0
  Holds-any (ok a) f w k = (k a).at w
  Holds-any (err e) f w k = tt

  -- nothing is used of the first step's result
  pub Ensures-then :
      {A : Type 0} (m : M A) (f : A → M B)
      → ((a : A) → Ensures env Q (f a))
      → Ensures env Q (m >>= f)
  Ensures-then m f k = record { at = λ w. let (r, w') = m env w in Holds-any r f w' k }

module _ {A : Type 0} {env : Env} {P Q : A → Type 0} where
  pub Ensures-map : (m : M A) → ((a : A) → P a → Q a) → Ensures env P m → Ensures env Q m
  Ensures-map m f h = record { at = λ w. Holds-map P Q _ f (h.at w) }

module _ {A B : Type 0} {env : Env} {Q : B → Type 0} where
  pub Ensures-bind_lift :
      (r : Result A) (f : A → M B)
      → ((a : A) → r ≡ ok a → Ensures env Q (f a))
      → Ensures env Q (lift r >>= f)
  Ensures-bind_lift (ok a) f k = record { at = λ w. (k a refl).at w }
  Ensures-bind_lift (err e) f k = record { at = λ w. tt }

module _ {A : Type 0} {env : Env} {P Q : A → Type 0} where
  pub Ensures-and : (m : M A) → Ensures env P m → Ensures env Q m → Ensures env (λ a. P a × Q a) m
  Ensures-and m p q = record { at = λ w. Holds-and P Q (m env w).0 (p.at w) (q.at w) }
