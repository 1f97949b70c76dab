-- ===== src/Samples/Chunks.antt =====
-- Requests in several chunks, planned and sent.
use hurricache_python_client.Base.{
  ◌+◌, Bool, Option, length, ℕ, ◌≡◌, ◌≤◌, refl, ap, sum_of, true, false, none, List, [], ◌∷◌, arith,
  All,
}
use hurricache_python_client.Errors.{
  partial_operation, counted, hinted, hurricache_error, Result, ok, err,
}
use hurricache_python_client.Messages.{
  KeyHint, CreateContainerRequest, AddToRequest, AddToValRequest, request_key,
}
use hurricache_python_client.Messages as Messages
use hurricache_python_client.Models.{vector}
use hurricache_python_client.Rpc.{
  Rpc, Reply, add_element, add_element_to_tail, count_rpc, create_container, Outcome, replied,
  failed,
}
use hurricache_python_client.Effects.{Env, World, Sent, start}
use hurricache_python_client.Effects.Ensures.{Ensures, Returns, Holds-ok}
use hurricache_python_client.Effects.Yields.{Yields}
use hurricache_python_client.Wire.{decode_key, decode, decode_hint}
use hurricache_python_client.Batching.{build, plan, check, check_each, chunks_from, widest}
use hurricache_python_client.Operation.{remaining}
use hurricache_python_client.Batching.Shapes.{addition, relative, creation, elements_items}
use hurricache_python_client.Batching.Laws.{relative-BatchLaws}
use hurricache_python_client.Batching.Coverage.{
  plan-covers, chunk_items, in_order, headers_of, Counted,
}
use hurricache_python_client.Batching.Greedy.{Greedy, plan-Greedy}
use hurricache_python_client.Batching.Sizes.{plan-WithinLimit, WithinLimit}
use hurricache_python_client.Batching.Total.{plan_total}
use hurricache_python_client.Client.{
  zero_tally, add_chunks, call_add_chunked, call, created, check_continuations, refused,
  is_sequence, or_unspecified, Creations, stamp, create_container_chunked,
}
use hurricache_python_client.Client.Delivery.{call_add_chunked_delivers, result_of, sizes}
use hurricache_python_client.Client.Adding.{Accepted, add_chunks-failed, after, sent_to}
use hurricache_python_client.Client.Founding.{
  delivered, reply_to, behind, Continuable, create_container_delivers,
}
use hurricache_python_client.Client.Continuing.{continued, created-refused}
use hurricache_python_client.Samples.{a_key, host, env, env_once, down, three_values, two_after}

-- one chunk of three items
abbrev chunk : AddToRequest × ℕ
chunk = (three_values, 3)

add_chunks-failed_example :
    add_chunks addition host "add_element" add_element none false
      (chunk ∷ chunk ∷ chunk ∷ [])
      zero_tally
      env_once
      start
    ≡ (
      err (partial_operation 1 3 (counted 2)),
      sent_to addition env_once host "add_element" add_element none false
          (after addition env_once host "add_element" add_element none false start (chunk ∷ []))
          three_values,
    )
unfolding decode_key decode request_key
add_chunks-failed_example =
    add_chunks-failed addition env_once host "add_element" add_element none false start (chunk ∷ [])
      (chunk ∷ []) (2 ∷ []) three_values 3 down (107 ∷ []) refl
      (omega arith, omega arith, refl, tt, tt) (omega arith) (omega arith) (omega arith) refl refl

plan-covers_example :
    Ensures env
      (λ chunks.
        (chunk_items relative (in_order relative two_after chunks) ≡ relative.items_of two_after)
        × All (Counted relative) (in_order relative two_after chunks))
      (plan relative two_after false)
plan-covers_example = plan-covers relative relative-BatchLaws env two_after false

plan-WithinLimit_example :
    Ensures env
      (λ chunks. All (WithinLimit relative env) (in_order relative two_after chunks))
      (plan relative two_after true)
plan-WithinLimit_example =
    plan-WithinLimit relative env
      (record { reserved-le = λ base plain wide items start stop p q. omega arith }) two_after true

plan-Greedy_example :
    Ensures env
      (λ chunks.
        Returns
          (λ items.
            Greedy relative env
              (headers_of relative two_after false)
              items
              0
              (in_order relative two_after chunks))
          (relative.items_of two_after))
      (plan relative two_after false)
plan-Greedy_example = plan-Greedy relative env two_after false

-- no more than that there is a value
abbrev Some : {A : Type 0} → A → Type 0
Some _ = Unit {0}

plan_total_example : Yields env start Some (plan relative two_after false)
unfolding build
plan_total_example =
    plan_total env start refl relative two_after false _ refl (omega arith)
      (λ i low high. omega arith) (record { final = λ i j h. tt; trial = λ i j h. tt })

abbrev counting : List Sent → (rpc : Rpc) → Outcome (Reply rpc)
counting sent (count_rpc _) = replied (length sent + 1)
counting sent _ = failed down

-- A server that counts the requests: each adds one element more than the one before.
abbrev env_counting : Env
env_counting = record env { server = λ sent rpc request. counting sent rpc }

call_add_chunked_delivers_example :
    (chunks : List (AddToValRequest × ℕ)) × (plan relative two_after false env_counting start
      ≡ (ok chunks, start))
    × (call_add_chunked relative host "add_element_after" add_element none false two_after
          env_counting start
        ≡ (
          ok (
              result_of relative env_counting host "add_element_after" add_element none false
                (λ sent _. length sent + 1)
                start
                chunks),
          after relative env_counting host "add_element_after" add_element none false start chunks,
        ))
    × (chunk_items relative (in_order relative two_after chunks) ≡ relative.items_of two_after)
unfolding build plan check_each chunks_from widest check remaining
call_add_chunked_delivers_example =
    call_add_chunked_delivers relative relative-BatchLaws env_counting host "add_element_after"
      add_element none false (λ sent _. length sent + 1) (λ sent r. refl) (λ sent r. tt) start
      two_after _ refl refl (omega arith) (omega arith) (λ i low high. omega arith)
      (record { final = λ i j h. tt; trial = λ i j h. tt })
      λ chunks e.
        Holds-ok
          (λ cs.
            sum_of (λ s. s)
              (sizes relative env_counting host "add_element_after" add_element none false
                (λ sent _. length sent + 1) start cs)
            ≤ 0xFFFFFFFF)
          (plan relative two_after false env_counting start).0 chunks (ap (λ x. x.0) e)
          (omega arith)

-- The server creates, takes one chunk behind it, and rejects the next one.
abbrev answer : (rpc : Rpc) → List Sent → Outcome (Reply rpc)
answer create_container _ = replied none
answer (count_rpc add_element_to_tail) (_ ∷ []) = replied 2
answer (count_rpc _) _ = replied 0
answer _ _ = failed down

abbrev env_rejecting : Env
env_rejecting = record env { server = λ sent rpc request. answer rpc sent }

abbrev part : CreateContainerRequest
part = record { key = a_key; container_type = vector; ttl = none; elements = three_values.elements }

abbrev next_call : World → Result ℕ × World
next_call w = continued env_rejecting host none vector none part env_rejecting w

-- after the creation, and after the chunk that is taken
abbrev created_there : World
created_there =
    (call host "create_container" create_container none (Messages.create_container part)
      env_rejecting start).1

created-refused_example :
    created host none vector ((part, 3) ∷ (part, 3) ∷ (part, 3) ∷ []) env_rejecting start ≡ (
      err (partial_operation 2 6 (hinted (or_unspecified (decode_hint none)))),
      (next_call (next_call created_there).1).1,
    )
unfolding call check_continuations check remaining refused is_sequence
created-refused_example =
    created-refused env_rejecting host none vector part part 3 3 ((part, 3) ∷ []) [] none
      (hurricache_error "server rejected continuation chunk") start start created_there refl refl
      (refl, tt) refl

-- The server creates, and takes every chunk behind that.
abbrev accept : (rpc : Rpc) → Outcome (Reply rpc)
accept create_container = replied none
accept (count_rpc _) = replied 2
accept _ = failed down

abbrev env_creating : Env
env_creating = record env { server = λ sent rpc request. accept rpc }

-- two elements are accepted, whether the container is a sequence or not
accepted : (sequence : Bool) → Accepted sequence 2
accepted true = omega arith
accepted false = tt

-- a request has ten bytes
each_fits :
    (hint : Option KeyHint) (chunks : Creations) → All (Continuable env_creating hint) chunks
each_fits hint [] = tt
each_fits hint (chunk ∷ rest) = ((omega arith, omega arith), each_fits hint rest)

create_container_delivers_example :
    (chunks : Creations) × (plan creation (stamp part) true env_creating start ≡ (ok chunks, start))
    × (create_container_chunked host none part env_creating start ≡ (
      ok (or_unspecified (decode_hint (reply_to (λ sent chunk. none) start chunks))),
      delivered env_creating host none vector
          (reply_to (λ sent chunk. none) start chunks)
          start
          chunks,
    ))
    × (chunk_items creation chunks ≡ creation.items_of (stamp part))
unfolding build stamp elements_items
create_container_delivers_example =
    create_container_delivers env_creating host none (λ sent rpc request. 2)
      (λ sent rpc request. refl) (λ sent chunk. none) (λ sent chunk. refl)
      (record { reserved-le = λ base plain wide items start stop p q. omega arith }) start part _
      refl refl (λ sent rpc request. accepted _) (omega arith) (λ i low high. omega arith)
      (record { final = λ i j h. tt; trial = λ i j h. tt })
      (λ chunks e. each_fits none (behind chunks))
