-- ===== src/Async/Agree.antt =====
-- The asynchronous client does what the synchronous one does: the calls that every operation goes
-- through are equal, as functions of the environment and the state.
use mathlib.Core.Path.{fun_ext}
use hurricache_python_client.Base.{
  ℕ, ◌≡◌, refl, sym, ap, ◌∙◌, String, Bool, true, false, Option, List, [], ◌∷◌, arith, ◌==◌,
}
use hurricache_python_client.Errors.{Result, ok, err}
use hurricache_python_client.Messages.{Request}
use hurricache_python_client.Rpc.{Rpc, Reply, CountRpc, count_rpc, Outcome, replied, failed}
use hurricache_python_client.Effects
use hurricache_python_client.Effects.{Seconds, Env, World, M, pure, lift, ◌>>=◌, ◌>>◌}
use hurricache_python_client.Operation.{Client, remaining, timeout_of}
use hurricache_python_client.Batching.{Batchable, check, plan}
use hurricache_python_client.Client.{
  call, answered, invoke, Added, Tally, zero_tally, Progress, finished, next, follow, tallied,
  add_chunks, call_add_chunked,
}
use hurricache_python_client.Async.{
  received, unary, Course, return, throw, continue, course, taken, send_chunks, send_add_chunks,
}

-- binding is associative
module _ {A B C : Type 0} (f : A → M B) (g : B → M C) where
  regroup :
      (r : Result A) (env : Env) (w : World)
      → (Effects.continue (Effects.continue r f env w).0 g env (Effects.continue r f env w).1)
        ≡ Effects.continue r (λ a. f a >>= g) env w
  regroup (ok a) env w = refl
  regroup (err e) env w = refl

  pub assoc : (m : M A) → (m >>= f >>= g) ≡ (m >>= λ a. f a >>= g)
  assoc m = fun_ext (λ env. fun_ext (λ w. regroup (m env w).0 env (m env w).1))

received-answered :
    {A : Type 0} (name : String) (request : Request) (o : Outcome A)
    → received name request o ≡ answered name request o
received-answered name request (replied a) = refl
received-answered name request (failed e) = refl

-- A unary call is the synchronous call, and the decoder.
pub unary-call :
    {A : Type 0} (c : Client) (name : String) (rpc : Rpc) (decoder : Reply rpc → M A)
    (timeout : Option (Option Seconds)) (request : Request)
    → unary c name rpc decoder timeout request ≡ (call c name rpc timeout request >>= decoder)
unfolding unary call
unary-call c name rpc decoder timeout request = sym (
    assoc _ decoder (remaining (timeout_of c timeout))
    ∙ ap (λ k. remaining (timeout_of c timeout) >>= k)
        (fun_ext (λ left.
          assoc _ decoder (check request)
          ∙ ap (λ (k : Unit {0} → M _). check request >>= k)
              (fun_ext (λ _.
                assoc (answered name request) decoder (invoke rpc request left)
                ∙ ap (λ k. invoke rpc request left >>= k)
                    (fun_ext
                      (λ o. ap (λ m. m >>= decoder) (sym (received-answered name request o)))))))))

-- With no decoder, it is the call.
bind-pure : {A : Type 0} (m : M A) → (m >>= λ a. pure a) ≡ m
bind-pure {A} m = fun_ext (λ env. fun_ext (λ w. ended (m env w).0 env (m env w).1))
  where
    ended : (r : Result A) (env : Env) (w : World) → Effects.continue r (λ a. pure a) env w ≡ (r, w)
    ended (ok a) env w = refl
    ended (err e) env w = refl

pub unary-pure :
    (c : Client) (name : String) (rpc : Rpc) (timeout : Option (Option Seconds)) (request : Request)
    → unary c name rpc pure timeout request ≡ call c name rpc timeout request
unary-pure c name rpc timeout request =
    unary-call c name rpc pure timeout request ∙ bind-pure (call c name rpc timeout request)

as_course : Progress → Course
as_course (finished (ok added)) = return added
as_course (finished (err error)) = throw error
as_course (next t) = continue t

course-tallied :
    (boolean : Bool) (count : ℕ) (t : Tally) (r : Result ℕ)
    → course boolean count t r ≡ as_course (tallied boolean count t r)
unfolding course tallied as_course
course-tallied boolean count t r = ground arith

taken-follow :
    (p : Progress) (k : Tally → M Added) (env : Env) (w : World)
    → taken (as_course p) k env w ≡ follow p k env w
unfolding as_course
taken-follow (finished (ok added)) k env w = refl
taken-follow (finished (err error)) k env w = refl
taken-follow (next t) k env w = refl

module _ {R : Type 0} (b : Batchable R) (c : Client) (name : String) (rpc : CountRpc)
    (timeout : Option (Option Seconds)) (boolean : Bool) where
  round :
      (zero_items : Bool) (chunk : R) (count : ℕ) (k : Tally → M Added) (t : Tally) (env : Env)
      (w : World)
      → (elim zero_items as (λ _. Result Added × World) [
        | true ↦ k t env w
        | false ↦
            let (reply, w') = unary c name (count_rpc rpc) pure timeout (b.message chunk) env w in
            taken (course boolean count t reply) k env w'
      ])
        ≡ (elim zero_items as (λ _. Result Added × World) [
          | true ↦ k t env w
          | false ↦
              let (reply, w') = call c name (count_rpc rpc) timeout (b.message chunk) env w in
              follow (tallied boolean count t reply) k env w'
        ])
  round true chunk count k t env w = refl
  round false chunk count k t env w =
      ap (λ (m : M ℕ). taken (course boolean count t (m env w).0) k env (m env w).1)
        (unary-pure c name (count_rpc rpc) timeout (b.message chunk))
      ∙ let (reply, w') = call c name (count_rpc rpc) timeout (b.message chunk) env w in
        ap (λ p. taken p k env w') (course-tallied boolean count t reply)
        ∙ taken-follow (tallied boolean count t reply) k env w'

  send_chunks-add_chunks :
      (chunks : List (R × ℕ))
      → send_chunks b c name rpc timeout boolean chunks
        ≡ add_chunks b c name rpc timeout boolean chunks
  unfolding send_chunks add_chunks
  send_chunks-add_chunks [] = refl
  send_chunks-add_chunks ((chunk, count) ∷ rest) = fun_ext (λ t. fun_ext (λ env. fun_ext (λ w.
      ap
        (λ (k : Tally → M Added). elim (count == 0) as (λ _. Result Added × World) [
          | true ↦ k t env w
          | false ↦
              let (reply, w') = unary c name (count_rpc rpc) pure timeout (b.message chunk) env w in
              taken (course boolean count t reply) k env w'
        ])
        (send_chunks-add_chunks rest)
      ∙ round (count == 0) chunk count (add_chunks b c name rpc timeout boolean rest) t env w)))

-- Chunked additions and removals of the asynchronous client are those of the synchronous one: the
-- same requests, result or error, in every environment and state.
pub send_add_chunks-call_add_chunked :
    {R : Type 0} (b : Batchable R) (c : Client) (name : String) (rpc : CountRpc)
    (timeout : Option (Option Seconds)) (boolean : Bool) (request : R)
    → send_add_chunks b c name rpc timeout boolean request
      ≡ call_add_chunked b c name rpc timeout boolean request
unfolding send_add_chunks call_add_chunked
send_add_chunks-call_add_chunked {R} b c name rpc timeout boolean request =
    ap (λ (k : List (R × ℕ) → M Added). plan b request false >>= k)
      (fun_ext
        (λ chunks. ap (λ k. k zero_tally) (send_chunks-add_chunks b c name rpc timeout _ chunks)))
