-- ===== src/Async/Creating.antt =====
-- Creations in several chunks: the asynchronous client does what the synchronous one does.
use mathlib.Core.Path.{fun_ext}
use hurricache_python_client.Base.{
  ℕ, ◌+◌, ◌≡◌, refl, ap, ◌∙◌, Bool, true, false, ◌&&◌, Option, none, some, [], ◌∷◌, arith, ◌==◌,
  if◌then◌else◌,
}
use hurricache_python_client.Models.{KeyHintData, ContainerType}
use hurricache_python_client.Errors.{hurricache_error, Result, ok, err}
use hurricache_python_client.Messages.{CreateContainerRequest, KeyHint}
use hurricache_python_client.Messages
use hurricache_python_client.Rpc.{count_rpc}
use hurricache_python_client.Rpc
use hurricache_python_client.Effects
use hurricache_python_client.Effects.{Seconds, Env, World, M, lift, ◌>>=◌, ◌>>◌}
use hurricache_python_client.Operation.{Client}
use hurricache_python_client.Wire.{decode_hint}
use hurricache_python_client.Batching.{plan}
use hurricache_python_client.Batching.Shapes.{creation, continuation}
use hurricache_python_client.Client.{
  call, Creations, stamp, check_continuations, or_unspecified, refused, go_on, add_continuations,
  created, is_sequence, continuation_rpc,
}
use hurricache_python_client.Client as Sync
use hurricache_python_client.Async.{
  unary, rejection, guarded, continues_with, send_continuations, sent_in_order,
  create_container_chunked,
}
use hurricache_python_client.Async.Agree.{unary-call, unary-pure}

same_rpc : (t : ContainerType) → continues_with t ≡ continuation_rpc (is_sequence t)
unfolding is_sequence
same_rpc t = ground arith

-- a rejected reply ends both loops alike
guarded-go_on :
    (sequence : Bool) (hint : KeyHintData) (acknowledged done : ℕ) (k : M KeyHintData)
    (r : Result ℕ) (env : Env) (w : World)
    → (let (reply, w') = Effects.continue r (λ size. lift (rejection sequence size)) env w in
        guarded reply hint acknowledged done k env w')
      ≡ go_on (refused sequence r) hint acknowledged done k env w
unfolding refused
guarded-go_on sequence hint acknowledged done k (err error) env w = refl
guarded-go_on sequence hint acknowledged done k (ok size) env w = by_test (sequence && (size == 0))
  where
    by_test :
        (b : Bool)
        → guarded
            (if b then err (hurricache_error "server rejected continuation chunk") else ok size)
            hint
            acknowledged
            done
            k
            env
            w
          ≡ go_on
              (if b then some (hurricache_error "server rejected continuation chunk") else none)
              hint
              acknowledged
              done
              k
              env
              w
    by_test true = refl
    by_test false = refl

module _ (c : Client) (timeout : Option (Option Seconds)) (container_type : ContainerType) where
  continuations :
      (wire_hint : Option KeyHint) (hint : KeyHintData) (chunks : Creations) (acknowledged done : ℕ)
      → send_continuations c timeout container_type wire_hint hint chunks acknowledged done
        ≡ add_continuations c timeout container_type wire_hint hint chunks acknowledged done
  unfolding send_continuations add_continuations
  continuations wire_hint hint [] acknowledged done = refl
  continuations wire_hint hint ((chunk, count) ∷ rest) acknowledged done =
      let request = Messages.add_to (continuation chunk wire_hint) in
      let rejecting : ℕ → M ℕ = λ size. lift (rejection (is_sequence container_type) size) in
      fun_ext (λ env. fun_ext (λ w.
        ap
          (λ (k : M KeyHintData).
            let (reply, w') =
              unary c "create_container" (count_rpc (continues_with container_type)) rejecting
                timeout request env w in
            guarded reply hint acknowledged done k env w')
          (continuations wire_hint hint rest (acknowledged + 1) (done + count))
        ∙ ap
            (λ (m : M ℕ).
              guarded (m env w).0 hint acknowledged done
                (add_continuations c timeout container_type wire_hint hint rest (acknowledged + 1)
                  (done + count))
                env (m env w).1)
            (unary-call c "create_container" (count_rpc (continues_with container_type)) rejecting
              timeout request)
        ∙ ap
            (λ rpc.
              let (r, w') = call c "create_container" (count_rpc rpc) timeout request env w in
              let (reply, w'') = Effects.continue r rejecting env w' in
              guarded reply hint acknowledged done
                (add_continuations c timeout container_type wire_hint hint rest (acknowledged + 1)
                  (done + count))
                env w'')
            (same_rpc container_type)
        ∙ let (r, w') =
            call c "create_container" (count_rpc (continuation_rpc (is_sequence container_type)))
              timeout request env w in
          guarded-go_on (is_sequence container_type) hint acknowledged done
            (add_continuations c timeout container_type wire_hint hint rest (acknowledged + 1)
              (done + count))
            r env w'))

  in_order :
      (chunks : Creations)
      → sent_in_order c timeout container_type chunks ≡ created c timeout container_type chunks
  in_order [] = refl
  in_order ((first, count) ∷ rest) =
      ap
        (λ (m : M (Option KeyHint)).
          check_continuations rest
          >> (m >>= λ reply.
              send_continuations c timeout container_type reply (or_unspecified (decode_hint reply))
                rest 1 count))
        (unary-pure c "create_container" Rpc.create_container timeout
          (Messages.create_container first))
      ∙ ap
          (λ (k : Option KeyHint → M KeyHintData).
            check_continuations rest
            >> (call c "create_container" Rpc.create_container timeout
                  (Messages.create_container first)
                >>= k))
          (fun_ext (λ reply. continuations reply (or_unspecified (decode_hint reply)) rest 1 count))

-- Creations in several chunks by the asynchronous client are those of the synchronous one: the same
-- requests, result or error, in every environment and state.
pub create_container_chunked_agree :
    (c : Client) (timeout : Option (Option Seconds)) (request : CreateContainerRequest)
    → create_container_chunked c timeout request ≡ Sync.create_container_chunked c timeout request
unfolding create_container_chunked Sync.create_container_chunked
create_container_chunked_agree c timeout request =
    ap (λ (k : Creations → M KeyHintData). plan creation (stamp request) true >>= k)
      (fun_ext (in_order c timeout request.container_type))
