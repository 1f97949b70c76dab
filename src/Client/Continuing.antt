-- ===== src/Client/Continuing.antt =====
-- Creations in several chunks: what is reported when a chunk behind the first one is refused.
use mathlib.Core.Path.{ap₂}
use hurricache_python_client.Base.{
  ℕ, ◌+◌, ◌≡◌, refl, sym, ap, ◌∙◌, append-nil, Option, none, some, [], ◌∷◌, ◌++◌, arith, length,
  sum_of,
}
use hurricache_python_client.Models.{KeyHintData, ContainerType}
use hurricache_python_client.Errors.{Error, hinted, partial_operation, Result, ok, err}
use hurricache_python_client.Messages as Messages
use hurricache_python_client.Messages.{KeyHint, CreateContainerRequest}
use hurricache_python_client.Rpc
use hurricache_python_client.Rpc.{count_rpc}
use hurricache_python_client.Effects.{Env, World, Seconds, M, continue, ◌>>=◌, ◌>>◌}
use hurricache_python_client.Operation.{Client}
use hurricache_python_client.Wire.{decode_hint}
use hurricache_python_client.Batching.Shapes.{continuation}
use hurricache_python_client.Client.{
  call, Creations, is_sequence, continuation_rpc, refused, go_on, add_continuations, created,
  check_continuations, or_unspecified,
}

module _ (env : Env) (client : Client) (timeout : Option (Option Seconds))
    (container_type : ContainerType) (wire_hint : Option KeyHint) where
  -- the call that sends a chunk behind the first one
  abbrev pub continued : CreateContainerRequest → M ℕ
  continued chunk =
      call client "create_container" (count_rpc (continuation_rpc (is_sequence container_type)))
        timeout (Messages.add_to (continuation chunk wire_hint))

  -- The world after these chunks were sent.
  abbrev pub after : World → Creations → World
  after w [] = w
  after w ((chunk, count) ∷ rest) = after (continued chunk env w).1 rest

  -- The server takes these chunks, sent in this order.
  abbrev pub Taken : World → Creations → Type 0
  Taken w [] = Unit {0}
  Taken w ((chunk, count) ∷ rest) =
      (refused (is_sequence container_type) (continued chunk env w).0 ≡ none)
      × Taken (continued chunk env w).1 rest

  abbrev loop : KeyHintData → Creations → ℕ → ℕ → M KeyHintData
  loop = add_continuations client timeout container_type wire_hint

  goes_on :
      (o : Option Error) (hint : KeyHintData) (acknowledged done : ℕ) (k : M KeyHintData)
      (w : World)
      → o ≡ none
      → go_on o hint acknowledged done k env w ≡ k env w
  goes_on none hint acknowledged done k w e = refl
  goes_on (some error) hint acknowledged done k w e = absurd (cc)

  gives_up :
      (o : Option Error) (hint : KeyHintData) (acknowledged done : ℕ) (k : M KeyHintData)
      (w : World) (error : Error)
      → o ≡ some error
      → go_on o hint acknowledged done k env w
        ≡ (err (partial_operation acknowledged done (hinted hint)), w)
  gives_up none hint acknowledged done k w error e = absurd (cc)
  gives_up (some _) hint acknowledged done k w error e = refl

  -- Chunks that are taken are counted, and the loop goes on.
  loop-append :
      (hint : KeyHintData) (chunks rest : Creations) (acknowledged done : ℕ) (w : World)
      → Taken w chunks
      → loop hint (chunks ++ rest) acknowledged done env w
        ≡ loop hint rest
            (acknowledged + length chunks)
            (done + sum_of (λ c. c.1) chunks)
            env
            (after w chunks)
  unfolding add_continuations
  loop-append hint [] rest acknowledged done w h =
      ap₂ (λ m n. loop hint rest m n env w) (omega arith) (omega arith)
  loop-append hint ((chunk, count) ∷ chunks) rest acknowledged done w h =
      goes_on (refused (is_sequence container_type) (continued chunk env w).0) hint acknowledged
        done (loop hint (chunks ++ rest) (acknowledged + 1) (done + count))
        (continued chunk env w).1 h.0
      ∙ loop-append hint chunks rest (acknowledged + 1) (done + count) (continued chunk env w).1 h.1
      ∙ ap₂ (λ m n. loop hint rest m n env (after (continued chunk env w).1 chunks)) (omega arith)
          (omega arith)

  pub loop-refused :
      (hint : KeyHintData) (chunks rest : Creations) (chunk : CreateContainerRequest)
      (count acknowledged done : ℕ) (w : World) (error : Error)
      → Taken w chunks
      → refused (is_sequence container_type) (continued chunk env (after w chunks)).0 ≡ some error
      → loop hint (chunks ++ (chunk, count) ∷ rest) acknowledged done env w ≡ (
        err (
            partial_operation
              (acknowledged + length chunks)
              (done + sum_of (λ c. c.1) chunks)
              (hinted hint)),
        (continued chunk env (after w chunks)).1,
      )
  unfolding add_continuations
  loop-refused hint chunks rest chunk count acknowledged done w error h e =
      loop-append hint chunks ((chunk, count) ∷ rest) acknowledged done w h
      ∙ gives_up _ hint _ _ _ _ error e

  pub loop-done :
      (hint : KeyHintData) (chunks : Creations) (acknowledged done : ℕ) (w : World)
      → Taken w chunks
      → loop hint chunks acknowledged done env w ≡ (ok hint, after w chunks)
  unfolding add_continuations
  loop-done hint chunks acknowledged done w h =
      ap (λ cs. loop hint cs acknowledged done env w) (sym (append-nil chunks))
      ∙ loop-append hint chunks [] acknowledged done w h

module _ (env : Env) (client : Client) (timeout : Option (Option Seconds))
    (container_type : ContainerType) where
  -- the chunks behind the first one
  checked_then :
      {A : Type 0} (m : M (Unit {0})) (k : M A) (w v : World)
      → m env w ≡ (ok tt, v)
      → (m >> k) env w ≡ k env v
  checked_then m k w v e = ap (λ (x : Result (Unit {0}) × World). continue x.0 (λ _. k) env x.1) e

  replied_then :
      {A B : Type 0} (m : M A) (k : A → M B) (w v : World) (a : A)
      → m env w ≡ (ok a, v)
      → (m >>= k) env w ≡ k a env v
  replied_then m k w v a e = ap (λ (x : Result _ × World). continue x.0 k env x.1) e

  -- If, in a creation in several chunks, the preflight passes, the server answers the first chunk,
  -- takes the continuation chunks that follow and refuses the next one, by an error or, for a
  -- sequence, by the size 0, the creation raises a partial error that reports the number of chunks
  -- taken, the number of their items, and the hint of the first answer or the unspecified one; the
  -- chunks behind are not sent.
  pub created-refused :
      (first chunk : CreateContainerRequest) (items count : ℕ) (chunks rest : Creations)
      (reply : Option KeyHint) (error : Error) (w v u : World)
      → check_continuations (chunks ++ (chunk, count) ∷ rest) env w ≡ (ok tt, v)
      → call client "create_container" Rpc.create_container timeout
          (Messages.create_container first)
          env
          v
        ≡ (ok reply, u)
      → Taken env client timeout container_type reply u chunks
      → refused
          (is_sequence container_type)
          (continued env client timeout container_type reply chunk env
            (after env client timeout container_type reply u chunks)).0
        ≡ some error
      → created client timeout container_type
          ((first, items) ∷ chunks ++ (chunk, count) ∷ rest)
          env
          w
        ≡ (
          err (
              partial_operation
                (1 + length chunks)
                (items + sum_of (λ c. c.1) chunks)
                (hinted (or_unspecified (decode_hint reply)))),
          (continued env client timeout container_type reply chunk env
              (after env client timeout container_type reply u chunks)).1,
        )
  created-refused first chunk items count chunks rest reply error w v u checked accepted h e =
      checked_then (check_continuations (chunks ++ (chunk, count) ∷ rest)) _ w v checked
      ∙ replied_then
          (call client "create_container" Rpc.create_container timeout
            (Messages.create_container first))
          _ v u reply accepted
      ∙ loop-refused env client timeout container_type reply (or_unspecified (decode_hint reply))
          chunks rest chunk count 1 items u error h e

  -- If the preflight passes, and the server answers the first chunk and takes all others, the
  -- creation returns the hint of the first answer, or the unspecified one.
  pub created-Taken :
      (first : CreateContainerRequest) (items : ℕ) (rest : Creations) (reply : Option KeyHint)
      (w v u : World)
      → check_continuations rest env w ≡ (ok tt, v)
      → call client "create_container" Rpc.create_container timeout
          (Messages.create_container first)
          env
          v
        ≡ (ok reply, u)
      → Taken env client timeout container_type reply u rest
      → created client timeout container_type ((first, items) ∷ rest) env w ≡ (
        ok (or_unspecified (decode_hint reply)),
        after env client timeout container_type reply u rest,
      )
  created-Taken first items rest reply w v u checked accepted h =
      checked_then (check_continuations rest) _ w v checked
      ∙ replied_then
          (call client "create_container" Rpc.create_container timeout
            (Messages.create_container first))
          _ v u reply accepted
      ∙ loop-done env client timeout container_type reply (or_unspecified (decode_hint reply)) rest
          1 items u h
