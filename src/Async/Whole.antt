-- ===== src/Async/Whole.antt =====
-- A container that is read whole: the asynchronous client returns, or raises, what the synchronous
-- one does.
pub mod Collections
use hurricache_python_client.Base.{◌≤◌, ◌≡◌, refl, sym, ap, ◌∙◌, true, some, length}
use hurricache_python_client.Models.{Bytes}
use hurricache_python_client.Errors.{Collection, Result, ok, err}
use hurricache_python_client.Messages.{Key, Request, request_key, get_request}
use hurricache_python_client.Rpc.{Stream}
use hurricache_python_client.Rpc
use hurricache_python_client.Effects.{Env, World, M, pure, ◌>>=◌}
use hurricache_python_client.Effects
use hurricache_python_client.Effects.Ensures.{Holds}
use hurricache_python_client.Operation.{Client, wrap}
use hurricache_python_client.Wire.{
  Raw, bytes_like, text, other_object, build_get_request, create_key, decode_hint, decode_key,
  max_decoded_bytes,
}
use hurricache_python_client.Wire.Gzip.{GzipLaws}
use hurricache_python_client.Wire.RoundTrip.{built-create_key, raw_content}
use hurricache_python_client.Streams.{nothing_yet, collect_stream}
use hurricache_python_client.Client.{call}
use hurricache_python_client.Client.Requests.{
  Target, resolve_client_id, build_get_req, error_key, stream_of,
}
use hurricache_python_client.Client.Reads as Sync
use hurricache_python_client.Async.{unary, gather, stream}
use hurricache_python_client.Async.Agree.{unary-call}
use hurricache_python_client.Async.Streaming.{
  get_of-build_get_req, gather-collect, continue_agree, operation_agree,
}
use hurricache_python_client.Async.Reads.{get_container}

own_key :
    (env : Env) (key : Raw) (content : Bytes)
    → raw_content env key ≡ some content
    → error_key env key ≡ content
own_key env (bytes_like b) content e = cc
own_key env (text s) content e = cc
own_key env other_object content e = absurd (cc)

module _ (env : Env) (c : Client) (t : Target) (content : Bytes)
    (is_content : raw_content env t.key ≡ some content) where
  -- the streams that one request opens
  one_request :
      (request : Request) (w : World)
      → decode_key env (request_key request) ≡ ok content
      → stream c "get_container" Rpc.get_container (λ batches. batches) t.timeout request env w
        ≡ (call c "get_container" Rpc.get_container t.timeout request
              >>= stream_of "get_container" t)
            env w
  unfolding stream unary stream_of collect_stream
  one_request request w decoded =
      ap (λ (m : M Collection). m env w)
        (unary-call c "get_container" Rpc.get_container
          (λ (s : Stream). gather "get_container" request s.failure s.batches nothing_yet) t.timeout
          request)
      ∙ continue_agree env (call c "get_container" Rpc.get_container t.timeout request env w).0 _ _
          (call c "get_container" Rpc.get_container t.timeout request env w).1
          (λ s v.
            gather-collect env "get_container" request content decoded s.failure s.batches
              nothing_yet v
            ∙ ap (λ key. collect_stream "get_container" s key env v)
                (sym (own_key env t.key content is_content)))

  one_key :
      (r : Result Key) (w : World)
      → Holds (λ (k : Key). decode_key env k ≡ ok content) r
      → (Effects.continue
          (Effects.continue r (λ k. pure (get_request k)) env w).0
          (stream c "get_container" Rpc.get_container (λ batches. batches) t.timeout)
          env
          (Effects.continue r (λ k. pure (get_request k)) env w).1)
        ≡ (Effects.continue
            (Effects.continue r (λ k. pure (get_request k)) env w).0
            (λ request.
              call c "get_container" Rpc.get_container t.timeout request
              >>= stream_of "get_container" t)
            env
            (Effects.continue r (λ k. pure (get_request k)) env w).1)
  unfolding request_key
  one_key (ok k) w h = one_request (get_request k) w h
  one_key (err e) w h = refl

  module _ (laws : GzipLaws env) (fits : length content ≤ max_decoded_bytes) where
    -- If gzip obeys its law, a container whose key is bytes or text of at most the decoded-size
    -- limit is read by the asynchronous client as by the synchronous one: the same requests, result
    -- or error.
    pub get_container_agree : (w : World) → get_container c t env w ≡ Sync.get_container c t env w
    unfolding get_container Sync.get_container build_get_req build_get_request wrap
    get_container_agree w =
        ap
          (λ (m : M Request).
            wrap c t.timeout
              (m >>= stream c "get_container" Rpc.get_container (λ batches. batches) t.timeout) env
              w)
          (get_of-build_get_req c t)
        ∙ operation_agree env c _ _ _ w (λ v.
          one_key (create_key t.key t.hint (resolve_client_id c t.client_id) true env v).0
            (create_key t.key t.hint (resolve_client_id c t.client_id) true env v).1
            (built-create_key laws fits t.key t.hint (resolve_client_id c t.client_id) true v
              is_content))
