-- ===== src/Smart/Targets/Split.antt =====
-- What `_split_target` accepts, and what it makes of it.
use Prim.Native.Char.{Char}
use Prim.Native.String.{◌++◌ as append}
use Prim.Native.String.append as Text
use hurricache_python_client.Base.{◌≡◌, refl, ap, ◌∙◌, String, false, Option, none, some, arith}
use hurricache_python_client.Base.Int.{ℤ}
use hurricache_python_client.Errors.{ok}
use hurricache_python_client.Smart.Targets.{has_colon, rpartition, strip, is_empty, split_target}

rpartition-none : (s : String) → has_colon s ≡ false → rpartition s ≡ none
unfolding rpartition has_colon
rpartition-none String.[] h = refl
rpartition-none (String.◌∷◌ c s) h = ground (arith, rpartition-none s)

nil-append : (t : String) → append "" t ≡ t
nil-append t = Text.nil t

cons-append : (c : Char) (s t : String) → append (String.◌∷◌ c s) t ≡ String.◌∷◌ c (append s t)
cons-append c s t = Text.cons c s t

colon-append : (port : String) → append ":" port ≡ String.◌∷◌ ":" port
colon-append port = cons-append _ _ _ ∙ ap (λ t. String.◌∷◌ ":" t) (nil-append port)

-- the last colon splits
rpartition-join :
    (host port : String)
    → has_colon port ≡ false
    → rpartition (append host (append ":" port)) ≡ some (host, port)
unfolding rpartition
rpartition-join String.[] port h =
    rw (nil-append (append ":" port), colon-append port) (rw (rpartition-none port h))
rpartition-join (String.◌∷◌ c host) port h =
    rw (cons-append c host (append ":" port)) (ground (arith, rpartition-join host port h))

strip-append : (prefix s : String) → strip prefix (append prefix s) ≡ some s
strip-append String.[] s = rw (nil-append s)
strip-append (String.◌∷◌ c p) s = rw (cons-append c p s) (ground (arith, strip-append p s))

-- A target `dns:///host:port` splits into the host and the number of the port, where the host is
-- not empty and the port has no colon and reads as a number.
pub split_target-join :
    (int_of : String → Option ℤ) (host port : String) (n : ℤ)
    → is_empty host ≡ false
    → has_colon port ≡ false
    → int_of port ≡ some n
    → split_target int_of (append "dns:///" (append host (append ":" port))) ≡ ok (host, n)
unfolding split_target
split_target-join int_of host port n there plain number_there =
    let whole = append host (append ":" port) in
    ground (arith, strip-append "dns:///" whole, rpartition-join host port plain)
