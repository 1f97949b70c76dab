-- ===== src/Streams/Maps.antt =====
-- What a stream of map batches adds up to.
use hurricache_python_client.Base.{
  ℕ, ◌+◌, ◌≡◌, refl, sym, ap, ◌∙◌, String, true, false, Option, none, some, List, [], ◌∷◌, ◌++◌,
  arith, if◌then◌else◌, flatten, length, inl, inr, Bool-cases,
}
use hurricache_python_client.Models.{Bytes, Payload, payload_eq, payload_eq_self, payload_eq→eq}
use hurricache_python_client.Errors.{pairs, ok}
use hurricache_python_client.Messages.{Elements}
use hurricache_python_client.Effects.{Env, World}
use hurricache_python_client.Streams.{
  Pairs, dict_set, dict_update, nothing_yet, decode_batch, merged, collect, collect_stream,
}

-- `d.get(k)`
abbrev pub get : Payload → Pairs → Option Payload
get k [] = none
get k ((j, v) ∷ d) = if payload_eq j k then some v else get k d

abbrev first_of : Option Payload → Option Payload → Option Payload
first_of none o = o
first_of (some v) o = some v

-- The finite map that a sequence of assignments describes: the last one to a key counts.
abbrev pub last_of : Payload → Pairs → Option Payload
last_of k [] = none
last_of k ((j, v) ∷ later) = first_of (last_of k later) (if payload_eq j k then some v else none)

-- keys that equal a third are equal
both : (i j k : Payload) → payload_eq i j ≡ false → i ≡ k → j ≡ k → ⊥
both i j k apart e f =
    let same : payload_eq i j ≡ true = ap (payload_eq i) (f ∙ sym e) ∙ payload_eq_self i in cc

get-dict_set :
    (k j v : Payload) (d : Pairs)
    → get k (dict_set j v d) ≡ (if payload_eq j k then some v else get k d)
unfolding dict_set
get-dict_set k j v [] = refl
get-dict_set k j v ((i, w) ∷ d) = elim (Bool-cases (payload_eq i j)) [
  | inl same ↦
      let e : i ≡ j = payload_eq→eq i j same in ground (arith, same, ap (λ x. payload_eq x k) e)
  | inr other ↦ elim (Bool-cases (payload_eq i k)) [
    | inr apart ↦ ground (arith, other, apart, get-dict_set k j v d)
    | inl here ↦ elim (Bool-cases (payload_eq j k)) [
      | inr apart ↦ ground (arith, other, here, apart)
      | inl there ↦ absurd (both i j k other (payload_eq→eq i k here) (payload_eq→eq j k there))
    ]
  ]
]

get-dict_update :
    (k : Payload) (d other : Pairs)
    → get k (dict_update d other) ≡ first_of (last_of k other) (get k d)
unfolding dict_update
get-dict_update k d [] = refl
get-dict_update k d ((j, v) ∷ other) =
    get-dict_update k (dict_set j v d) other ∙ ground (arith, get-dict_set k j v d)

-- One dict updated by the others, in order, is a finite map: the last assignment of all counts.
abbrev pub updated : Pairs → List Pairs → Pairs
updated d [] = d
updated d (e ∷ ds) = updated (dict_update d e) ds

first_none : (o : Option Payload) → first_of o none ≡ o
first_none none = refl
first_none (some v) = refl

first_of_assoc : (a b c : Option Payload) → first_of (first_of a b) c ≡ first_of a (first_of b c)
first_of_assoc none b c = refl
first_of_assoc (some v) b c = refl

last_of-append :
    (k : Payload) (d e : Pairs) → last_of k (d ++ e) ≡ first_of (last_of k e) (last_of k d)
last_of-append k [] e = sym (first_none (last_of k e))
last_of-append k ((j, v) ∷ d) e =
    ap (λ o. first_of o (if payload_eq j k then some v else none)) (last_of-append k d e)
    ∙ first_of_assoc (last_of k e) (last_of k d) (if payload_eq j k then some v else none)

get-updated :
    (k : Payload) (d : Pairs) (ds : List Pairs)
    → get k (updated d ds) ≡ first_of (last_of k (flatten ds)) (get k d)
get-updated k d [] = refl
get-updated k d (e ∷ ds) =
    get-updated k (dict_update d e) ds
    ∙ ap (first_of (last_of k (flatten ds))) (get-dict_update k d e)
    ∙ sym (first_of_assoc (last_of k (flatten ds)) (last_of k e) (get k d))
    ∙ ap (λ o. first_of o (get k d)) (sym (last_of-append k e (flatten ds)))

-- The batches decode to these dicts.
abbrev pub DecodesMaps : Env → List Elements → List Pairs → Type 0
DecodesMaps env [] [] = Unit {0}
DecodesMaps env (b ∷ bs) (d ∷ ds) = (decode_batch env b ≡ ok (pairs d)) × DecodesMaps env bs ds
DecodesMaps env _ _ = ⊥

module _ (env : Env) (w : World) (quiet : w.deadline ≡ none) where
  started :
      (b : Elements) (bs : List Elements) (d : Pairs)
      → decode_batch env b ≡ ok (pairs d)
      → collect none (b ∷ bs) nothing_yet env w
        ≡ collect none bs
            (record { result = some (pairs (dict_update [] d)); chunks = 1; count = length d })
            env
            w
  unfolding collect merged
  started b bs d h = ground arith

  rest_of :
      (bs : List Elements) (ds : List Pairs) (d : Pairs) (chunks count : ℕ)
      → DecodesMaps env bs ds
      → collect none bs (record { result = some (pairs d); chunks = chunks; count = count }) env w
        ≡ (ok (pairs (updated d ds)), w)
  unfolding collect merged
  rest_of [] [] d chunks count h = refl
  rest_of [] (e ∷ ds) d chunks count h = absurd h
  rest_of (b ∷ bs) [] d chunks count h = absurd h
  rest_of (b ∷ bs) (e ∷ ds) d chunks count h =
      step ∙ rest_of bs ds (dict_update d e) (chunks + 1) (count + length e) h.1
    where
      step :
          collect none
            (b ∷ bs)
            (record { result = some (pairs d); chunks = chunks; count = count })
            env
            w
          ≡ collect none bs
              (record {
                result = some (pairs (dict_update d e));
                chunks = chunks + 1;
                count = count + length e;
              })
              env
              w
      step = let first = h.0 in ground arith

  -- With no deadline, a stream of one or more batches that decode to dicts, which does not break
  -- off, is returned as a dict that refines a finite map: each key has the value of the last
  -- assignment to it in all batches, and no other key is there.
  pub collect_stream-maps :
      (method : String) (key : Bytes) (b : Elements) (bs : List Elements) (e : Pairs)
      (ds : List Pairs)
      → DecodesMaps env (b ∷ bs) (e ∷ ds)
      → (d : Pairs) × (collect_stream method (record { batches = b ∷ bs; failure = none }) key env w
          ≡ (ok (pairs d), w))
        × ((k : Payload) → get k d ≡ last_of k (flatten (e ∷ ds)))
  unfolding collect_stream
  collect_stream-maps method key b bs e ds h = (
    updated [] (e ∷ ds),
    started b bs e h.0 ∙ rest_of bs ds (dict_update [] e) 1 (length e) h.1,
    λ k. get-updated k [] (e ∷ ds) ∙ first_none (last_of k (flatten (e ∷ ds))),
  )
