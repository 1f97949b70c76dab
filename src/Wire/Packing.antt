-- ===== src/Wire/Packing.antt =====
-- `chunk_messages` of hurricache/grpc/utils.py: packing messages into requests of bounded size.
use hurricache_python_client.Base.{
  ℕ, ◌+◌, ◌≤◌, ◌≡◌, sym, ap, ◌∙◌, inl, inr, Bool-cases, Bool, ltb-false, true, false, List, [], ◌∷◌,
  ◌++◌, arith, append_assoc, append-nil, ltb, if◌then◌else◌, flatten, flatten-append, All,
  All-append, sum_of, sum_of-append,
}
use hurricache_python_client.Errors.{Result, ok, err, value_error}
use hurricache_python_client.Effects.Ensures.{Holds, Returns, Holds-map, Returns-map}
use hurricache_python_client.Wire.{max_rpc_size}

-- The chunks that are finished, the last one, `chunks[-1]`, and the running `size`.
pub record Packing {ℓ} (A : Type ℓ) : Type ℓ where
  pub finished : List (List A)
  pub current : List A
  pub size : ℕ

abbrev is_empty {ℓ} : {A : Type ℓ} → List A → Bool
is_empty [] = true
is_empty (_ ∷ _) = false

module _ {A : Type 0} (base_size : ℕ) (size_of : A → ℕ) where
  place : Packing A → A → Packing A
  place p message =
      if (if is_empty p.current then false else ltb max_rpc_size (p.size + size_of message))
      then record {
        finished = p.finished ++ p.current ∷ [];
        current = message ∷ [];
        size = base_size + size_of message;
      }
      else record p { current = p.current ++ message ∷ []; size = p.size + size_of message }

  pack : List A → Packing A → Result (List (List A))
  pack [] p = ok (p.finished ++ p.current ∷ [])
  pack (message ∷ rest) p =
      if ltb max_rpc_size (size_of message + base_size)
      then err (value_error "one element exceeds the maximum HurriCache request size")
      else pack rest (place p message)

  pub chunk_messages : List A → Result (List (List A))
  unfolding pack place
  chunk_messages messages = pack messages (record { finished = []; current = []; size = base_size })

  -- A chunk with the headers of its request fits one request.
  abbrev pub Fits : List A → Type 0
  Fits chunk = sum_of size_of chunk + base_size ≤ max_rpc_size

  -- A message fits a request of its own.
  abbrev pub Alone : A → Type 0
  Alone message = size_of message + base_size ≤ max_rpc_size

  record Inv (p : Packing A) : Type 0 where
    done : All Fits p.finished
    sized : sum_of size_of p.current + base_size ≡ p.size
    room : Fits p.current

  place-Inv :
      (p : Packing A) (m : A) → size_of m + base_size ≤ max_rpc_size → Inv p → Inv (place p m)
  unfolding place
  place-Inv p m h v = ground (
    arith,
    All-append Fits p.finished (p.current ∷ []) v.done (v.room, tt),
    sum_of-append size_of p.current (m ∷ []),
  )

  -- The messages that a packing holds, in order.
  abbrev content : Packing A → List A
  content p = flatten (p.finished ++ p.current ∷ [])

  content-place : (p : Packing A) (m : A) → content (place p m) ≡ content p ++ m ∷ []
  unfolding place
  content-place p m = ground (
    arith,
    flatten-append (p.finished ++ p.current ∷ []) ((m ∷ []) ∷ []),
    flatten-append p.finished (p.current ∷ []),
    flatten-append p.finished ((p.current ++ m ∷ []) ∷ []),
    append_assoc (flatten p.finished) p.current (m ∷ []),
    append-nil p.current,
    append-nil (p.current ++ m ∷ []),
  )

  pack-Alone :
      (messages : List A) (p : Packing A) → Holds (λ _. All Alone messages) (pack messages p)
  unfolding pack
  pack-Alone [] p = tt
  pack-Alone (m ∷ rest) p = elim (Bool-cases (ltb max_rpc_size (size_of m + base_size))) [
    | inl big ↦ rw big tt
    | inr small ↦ rw small (
        Holds-map (λ _. All Alone rest) (λ _. All Alone (m ∷ rest)) _ (λ _ h. (ground arith, h))
          (pack-Alone rest (place p m)))
  ]

  shift :
      (m : A) (rest : List A) (p : Packing A) → content (place p m) ++ rest ≡ content p ++ m ∷ rest
  shift m rest p =
      ap (λ xs. xs ++ rest) (content-place p m) ∙ append_assoc (content p) (m ∷ []) rest

  pack_lem :
      (messages : List A) (p : Packing A)
      → Inv p
      → All Alone messages
      → Returns
          (λ chunks. (flatten chunks ≡ content p ++ messages) × All Fits chunks)
          (pack messages p)
  unfolding pack
  pack_lem [] p v h =
      (sym (append-nil _), All-append Fits p.finished (p.current ∷ []) v.done (v.room, tt))
  pack_lem (m ∷ rest) p v h = rw (ltb-false max_rpc_size (size_of m + base_size) h.0) (
      Returns-map _ _ (pack rest (place p m)) (λ chunks r. (r.0 ∙ shift m rest p, r.1))
        (pack_lem rest (place p m) (place-Inv p m h.0 v) h.1))

  -- If every message fits a request of its own, packing raises nothing, keeps the messages and
  -- their order, and makes chunks that fit one request each.
  pub chunk_messages-packs :
      (messages : List A)
      → base_size ≤ max_rpc_size
      → All Alone messages
      → Returns (λ chunks. (flatten chunks ≡ messages) × All Fits chunks) (chunk_messages messages)
  unfolding chunk_messages
  chunk_messages-packs messages room h =
      pack_lem messages (record { finished = []; current = []; size = base_size })
        (record { done = tt; sized = omega arith; room = omega arith }) h

  -- If it succeeds, every message fits a request alone.
  pub chunk_messages-Alone :
      (messages : List A) → Holds (λ _. All Alone messages) (chunk_messages messages)
  unfolding chunk_messages
  chunk_messages-Alone messages = pack-Alone messages _
