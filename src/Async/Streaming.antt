-- ===== src/Async/Streaming.antt =====
-- Streams and values: the asynchronous client reads what the synchronous one does.
use mathlib.Core.Path.{fun_ext}
use hurricache_python_client.Base.{
  ℕ, zero, suc, ◌≡◌, refl, ap, ◌∙◌, String, Bool, true, false, Option, none, some, List, [], ◌∷◌,
  arith, if◌then◌else◌,
}
use hurricache_python_client.Models.{Bytes}
use hurricache_python_client.Errors.{RpcError, Collection, Result, ok, err}
use hurricache_python_client.Messages.{Elements, Value, Request, request_key, ValueResponse}
use hurricache_python_client.Rpc.{ValueRpc, value_rpc}
use hurricache_python_client.Effects.{Seconds, Env, World, M, pure, lift, ask, ◌>>=◌}
use hurricache_python_client.Effects
use hurricache_python_client.Operation.{
  Client, operation, operation_deadline, start_millis, remaining,
}
use hurricache_python_client.Wire.{build_get_request, create_key, decode_key}
use hurricache_python_client.Streams.{
  Collected, ended, absorb, within, proceed, collect, mapped_failure,
}
use hurricache_python_client.Client.{call}
use hurricache_python_client.Client.Requests.{
  Target, resolve_client_id, build_key, build_get_req, extract_value, value_of,
}
use hurricache_python_client.Async.{
  client_id, key_of, get_of, decode_value_response, decoded_value, unary, streamed, took, on,
  gather,
}
use hurricache_python_client.Async.Agree.{unary-call}

pub client_id_agree : (c : Client) (id : Option ℕ) → client_id c id ≡ resolve_client_id c id
unfolding client_id resolve_client_id
client_id_agree c none = refl
client_id_agree c (some zero) = refl
client_id_agree c (some (suc n)) = ground arith

pub key_of-build_key : (c : Client) (t : Target) → key_of c t ≡ build_key c t
unfolding key_of build_key
key_of-build_key c t = ap (λ id. create_key t.key t.hint id true) (client_id_agree c t.client_id)

pub get_of-build_get_req : (c : Client) (t : Target) → get_of c t ≡ build_get_req c t
unfolding get_of build_get_req
get_of-build_get_req c t = ap (build_get_request t.key t.hint) (client_id_agree c t.client_id)

extracted :
    (env : Env) (u : Option Value) (response : ValueResponse)
    → decoded_value env u response.value_ordered ≡ extract_value env u response
unfolding extract_value
extracted env none response = ground arith
extracted env (some value) response = refl

-- A value that is read is the same.
pub read-value_of :
    (c : Client) (name : String) (rpc : ValueRpc) (t : Target) (request : Request)
    → unary c name (value_rpc rpc) decode_value_response t.timeout request
      ≡ value_of c name rpc t request
unfolding decode_value_response value_of
read-value_of c name rpc t request =
    unary-call c name (value_rpc rpc) decode_value_response t.timeout request
    ∙ ap (λ (k : ValueResponse → M Bytes). call c name (value_rpc rpc) t.timeout request >>= k)
        (fun_ext (λ response. fun_ext (λ env. fun_ext (λ w.
          ap (λ (r : Result Bytes). (r, w)) (extracted env response.value_unordered response)))))

module _ (env : Env) (name : String) (request : Request) (key : Bytes)
    (decoded : decode_key env (request_key request) ≡ ok key) where
  at_end :
      (failure : Option RpcError) (p : Collected) (w : World)
      → streamed name request failure p env w ≡ (ended (mapped_failure name failure key) p, w)
  at_end none p w = refl
  at_end (some error) p w = rw decoded refl

  each_batch :
      (in_time : Result (Option Seconds)) (r : Result Collected) (p : Collected)
      (k k' : Collected → M Collection) (w : World)
      → ((q : Collected) → k q env w ≡ k' q env w)
      → on (took in_time p r) k env w ≡ proceed (within in_time p r) k' env w
  each_batch (err error) r p k k' w h = refl
  each_batch (ok _) (err error) p k k' w h = refl
  each_batch (ok _) (ok q) p k k' w h = h q

  pub gather-collect :
      (failure : Option RpcError) (batches : List Elements) (p : Collected) (w : World)
      → gather name request failure batches p env w
        ≡ collect (mapped_failure name failure key) batches p env w
  unfolding gather collect
  gather-collect failure [] p w = at_end failure p w
  gather-collect failure (batch ∷ rest) p w =
      each_batch (remaining none env w).0 (absorb env p batch) p (gather name request failure rest)
        (collect (mapped_failure name failure key) rest) (remaining none env w).1
        (λ q. gather-collect failure rest q (remaining none env w).1)

-- Code that agrees in one environment, in any state, agrees there in an operation.
module _ {A B : Type 0} (env : Env) where
  pub continue_agree :
      (r : Result A) (f g : A → M B) (w : World)
      → ((a : A) (v : World) → f a env v ≡ g a env v)
      → Effects.continue r f env w ≡ Effects.continue r g env w
  continue_agree (ok a) f g w h = h a w
  continue_agree (err e) f g w h = refl

if_agree :
    {A : Type 0} (env : Env) (b : Bool) (m n n' : M A) (w : World)
    → n env w ≡ n' env w
    → (if b then m else n) env w ≡ (if b then m else n') env w
if_agree env true m n n' w h = refl
if_agree env false m n n' w h = h

pub operation_agree :
    {A : Type 0} (env : Env) (c : Client) (timeout : Option Seconds) (m n : M A) (w : World)
    → ((v : World) → m env v ≡ n env v)
    → operation c timeout m env w ≡ operation c timeout n env w
unfolding operation
operation_agree env c timeout m n w h = if_agree env c.closed _ _ _ w (
    continue_agree env (operation_deadline w.deadline timeout env w).0 _ _
      (operation_deadline w.deadline timeout env w).1
      λ end v.
        continue_agree env (start_millis w.started_millis env v).0 _ _
          (start_millis w.started_millis env v).1
          λ started u.
            ap (λ (r : Result _ × World). (r.0, record r.1 { context = w.context }))
              (continue_agree env (remaining none env _).0 (λ _. m) (λ _. n) _ (λ _ x. h x)))
