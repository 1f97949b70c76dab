-- ===== src/Models/Equality.antt =====
-- The equality of payloads, which their dataclasses generate: same class and same fields.
use hurricache_python_client.Base.{◌≡◌, refl, Bool, true, false, ◌&&◌, [], ◌∷◌, arith, ◌==◌}
use hurricache_python_client.Models.Payloads.{Bytes, Payload, plain, ordered}

unfoldable pub bytes_eq : Bytes → Bytes → Bool
bytes_eq [] [] = true
bytes_eq (x ∷ xs) (y ∷ ys) = (x == y) && bytes_eq xs ys
bytes_eq _ _ = false

pub bytes_eq→eq : (xs ys : Bytes) → bytes_eq xs ys ≡ true → xs ≡ ys
unfolding bytes_eq
bytes_eq→eq [] [] h = refl
bytes_eq→eq [] (y ∷ ys) h = ground arith
bytes_eq→eq (x ∷ xs) [] h = ground arith
bytes_eq→eq (x ∷ xs) (y ∷ ys) h = ground (arith, bytes_eq→eq xs ys)

pub bytes_eq_self : (xs : Bytes) → bytes_eq xs xs ≡ true
unfolding bytes_eq
bytes_eq_self [] = refl
bytes_eq_self (x ∷ xs) = ground (arith, bytes_eq_self xs)

unfoldable pub payload_eq : Payload → Payload → Bool
unfolding bytes_eq
payload_eq (plain a) (plain b) = bytes_eq a b
payload_eq (ordered a m) (ordered b n) = bytes_eq a b && (m == n)
payload_eq _ _ = false

pub payload_eq→eq : (p q : Payload) → payload_eq p q ≡ true → p ≡ q
unfolding payload_eq
payload_eq→eq (plain a) (plain b) h = ground (arith, bytes_eq→eq a b)
payload_eq→eq (ordered a m) (ordered b n) h = ground (arith, bytes_eq→eq a b)
payload_eq→eq (plain a) (ordered b n) h = ground arith
payload_eq→eq (ordered a m) (plain b) h = ground arith

pub payload_eq_self : (p : Payload) → payload_eq p p ≡ true
payload_eq_self (plain a) = unfold payload_eq in bytes_eq_self a
payload_eq_self (ordered a m) = unfold payload_eq in ground (arith, bytes_eq_self a)
