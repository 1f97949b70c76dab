-- ===== src/Streams/Progress.antt =====
-- What a stream of batches adds up to, and what is reported when it breaks off.
use hurricache_python_client.Base.{
  ℕ, ◌+◌, ◌≡◌, refl, sym, ap, ◌∙◌, String, Option, none, some, List, [], ◌∷◌, ◌++◌, map, arith,
  append_assoc, append-nil, length, length-append, flatten,
}
use hurricache_python_client.Models.{Bytes, Payload}
use hurricache_python_client.Errors.{
  RpcError, Collection, items, pairs, collected, Error, partial_operation, Result, ok, err,
}
use hurricache_python_client.Messages.{Elements}
use hurricache_python_client.Rpc.{Stream}
use hurricache_python_client.Effects.{Env, World}
use hurricache_python_client.Streams.{
  Collected, nothing_yet, decode_batch, merged, collect, ended, mapped_failure, collect_stream,
}

-- The batches decode to these lists.
abbrev pub Decodes : Env → List Elements → List (List Payload) → Type 0
Decodes env [] [] = Unit {0}
Decodes env (b ∷ bs) (l ∷ ls) = (decode_batch env b ≡ ok (items l)) × Decodes env bs ls
Decodes env _ _ = ⊥

-- The variables after so many batches of lists.
abbrev pub state : List Payload → ℕ → Collected
state xs chunks = record { result = some (items xs); chunks = chunks; count = length xs }

-- The variables after batches that decode to these lists.
abbrev pub gathered : List (List Payload) → Collected
gathered [] = nothing_yet
gathered (l ∷ ls) = state (flatten (l ∷ ls)) (length (l ∷ ls))

same_state : {xs ys : List Payload} {m n : ℕ} → xs ≡ ys → m ≡ n → state xs m ≡ state ys n
same_state p q = cc

-- How a call ends after these lists.
abbrev pub outcome : Option Error → List (List Payload) → Result Collection
outcome none ls = ok (items (flatten ls))
outcome (some error) [] = err error
outcome (some error) (l ∷ ls) = err (
    partial_operation (length (l ∷ ls)) (length (flatten (l ∷ ls)))
      (collected (items (flatten (l ∷ ls)))))

ended-gathered :
    (failure : Option Error) (ls : List (List Payload))
    → ended failure (gathered ls) ≡ outcome failure ls
ended-gathered none [] = refl
ended-gathered none (l ∷ ls) = refl
ended-gathered (some error) [] = refl
ended-gathered (some error) (l ∷ ls) = ground arith

module _ (env : Env) (w : World) (quiet : w.deadline ≡ none) (failure : Option Error) where
  first :
      (b : Elements) (bs : List Elements) (l : List Payload)
      → decode_batch env b ≡ ok (items l)
      → collect failure (b ∷ bs) nothing_yet env w ≡ collect failure bs (state l 1) env w
  unfolding collect merged
  first b bs l h = ground arith

  step :
      (b : Elements) (bs : List Elements) (l xs : List Payload) (chunks : ℕ)
      → decode_batch env b ≡ ok (items l)
      → collect failure (b ∷ bs) (state xs chunks) env w
        ≡ collect failure bs (state (xs ++ l) (chunks + 1)) env w
  unfolding collect merged
  step b bs l xs chunks h = ground (arith, length-append xs l)

  more :
      (bs rest : List Elements) (ls : List (List Payload)) (xs : List Payload) (chunks : ℕ)
      → Decodes env bs ls
      → collect failure (bs ++ rest) (state xs chunks) env w
        ≡ collect failure rest (state (xs ++ flatten ls) (chunks + length ls)) env w
  more [] rest [] xs chunks h =
      ap (λ p. collect failure rest p env w) (same_state (sym (append-nil xs)) (omega arith))
  more [] rest (l ∷ ls) xs chunks h = absurd h
  more (b ∷ bs) rest [] xs chunks h = absurd h
  more (b ∷ bs) rest (l ∷ ls) xs chunks h =
      step b (bs ++ rest) l xs chunks h.0
      ∙ more bs rest ls (xs ++ l) (chunks + 1) h.1
      ∙ ap (λ p. collect failure rest p env w)
          (same_state (append_assoc xs l (flatten ls)) (omega arith))

  -- Batches of lists are gathered, and the loop goes on from what they add up to.
  pub collect-append :
      (bs rest : List Elements) (ls : List (List Payload))
      → Decodes env bs ls
      → collect failure (bs ++ rest) nothing_yet env w ≡ collect failure rest (gathered ls) env w
  collect-append [] rest [] h = refl
  collect-append [] rest (l ∷ ls) h = absurd h
  collect-append (b ∷ bs) rest [] h = absurd h
  collect-append (b ∷ bs) rest (l ∷ ls) h =
      first b (bs ++ rest) l h.0
      ∙ more bs rest ls l 1 h.1
      ∙ ap (λ p. collect failure rest p env w) (same_state refl (omega arith))

module _ (env : Env) (w : World) (quiet : w.deadline ≡ none) (method : String) (key : Bytes) where
  -- With no deadline, a stream whose batches decode to lists is returned as their concatenation; if
  -- it breaks off, the error tells the batches and items that came before, with those items, or is
  -- the mapped error itself if there was no batch.
  pub collect_stream-lists :
      (stream : Stream) (ls : List (List Payload))
      → Decodes env stream.batches ls
      → collect_stream method stream key env w
        ≡ (outcome (mapped_failure method stream.failure key) ls, w)
  unfolding collect_stream
  collect_stream-lists stream ls h =
      ap (λ bs. collect (mapped_failure method stream.failure key) bs nothing_yet env w)
        (sym (append-nil stream.batches))
      ∙ collect-append env w quiet (mapped_failure method stream.failure key) stream.batches [] ls h
      ∙ ap (λ (r : Result Collection). (r, w))
          (ended-gathered (mapped_failure method stream.failure key) ls)

  -- With no deadline, a batch that does not decode, after batches of lists, ends the collection
  -- with its error, which is a partial error if there were batches before it; nothing behind it is
  -- read.
  pub collect_stream-bad_batch :
      (good rest : List Elements) (ls : List (List Payload)) (bad : Elements) (error : Error)
      (failure : Option RpcError)
      → Decodes env good ls
      → decode_batch env bad ≡ err error
      → collect_stream method (record { batches = good ++ bad ∷ rest; failure = failure }) key env w
        ≡ (outcome (some error) ls, w)
  unfolding collect_stream
  collect_stream-bad_batch good rest ls bad error failure h broken =
      collect-append env w quiet (mapped_failure method failure key) good (bad ∷ rest) ls h
      ∙ stopped (gathered ls)
      ∙ ap (λ (r : Result Collection). (r, w)) (ended-gathered (some error) ls)
    where
      stopped :
          (p : Collected)
          → collect (mapped_failure method failure key) (bad ∷ rest) p env w
            ≡ (ended (some error) p, w)
      stopped p = ground arith

-- The batches decode to these collections.
abbrev pub DecodesTo : Env → List Elements → List Collection → Type 0
DecodesTo env [] [] = Unit {0}
DecodesTo env (b ∷ bs) (c ∷ cs) = (decode_batch env b ≡ ok c) × DecodesTo env bs cs
DecodesTo env _ _ = ⊥

-- what a list is extended by, which is the keys alone of a dict
abbrev pub listed : Collection → List Payload
listed (items xs) = xs
listed (pairs d) = map (λ p. p.0) d

-- The variables once the result is a list.
abbrev listing : List Payload → ℕ → ℕ → Collected
listing xs chunks count = record { result = some (items xs); chunks = chunks; count = count }
