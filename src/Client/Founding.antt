-- ===== src/Client/Founding.antt =====
-- A creation in several chunks as a whole: planned, checked, and sent to a server that takes it.
use hurricache_python_client.Base.{
  false, ℕ, ◌≤◌, ◌<◌, ◌≡◌, refl, ap, ◌∙◌, Bool, true, Option, none, List, [], ◌∷◌, arith, length,
  All,
}
use hurricache_python_client.Models.{ContainerType}
use hurricache_python_client.Errors.{Result, ok}
use hurricache_python_client.Messages as Messages
use hurricache_python_client.Messages.{KeyHint, CreateContainerRequest, AddToRequest}
use hurricache_python_client.Rpc
use hurricache_python_client.Rpc.{CountRpc, count_rpc, replied}
use hurricache_python_client.Effects.{Env, World, Seconds, Sent, continue}
use hurricache_python_client.Effects.Ensures.{Ensures, Holds-ok}
use hurricache_python_client.Operation.{Client}
use hurricache_python_client.Wire.{max_rpc_size, decode_hint}
use hurricache_python_client.Batching.{Item, plan}
use hurricache_python_client.Batching.Shapes.{creation, continuation}
use hurricache_python_client.Batching.Search.{Fits, EachFits}
use hurricache_python_client.Batching.Coverage.{
  Counted, chunk_items, headers_of, plan-in_order, plan-covers,
}
use hurricache_python_client.Batching.Laws.{creation-BatchLaws}
use hurricache_python_client.Batching.Sizes.{SizeLaws, WithinLimit, plan-WithinLimit}
use hurricache_python_client.Batching.Total.{Placeable, plan_total, check-quiet}
use hurricache_python_client.Client.{
  call, Creations, is_sequence, continuation_rpc, refused, created, check_continuations,
  or_unspecified, stamp, reserved_hint, create_container_chunked,
}
use hurricache_python_client.Client.Adding.{Accepted, posted, call-replied}
use hurricache_python_client.Client.Continuing.{after, Taken, created-Taken}

-- a plan has a chunk
plan-some :
    (env : Env) (request : CreateContainerRequest)
    → Ensures env (λ chunks. 0 < length chunks) (plan creation request true)
plan-some env request =
    plan-in_order creation env request true (λ chunks. 0 < length chunks)
      (λ items found is_items chain some_chunk. some_chunk)
      (λ items r is_items empty fit built. omega arith)

taken_size :
    (sequence : Bool) (size : ℕ) → Accepted sequence size → refused sequence (ok size) ≡ none
unfolding refused
taken_size true size h = ground arith
taken_size false size h = refl

-- the chunks behind the first one
abbrev pub behind : Creations → Creations
behind [] = []
behind (first ∷ rest) = rest

-- the server's reply to the first chunk
abbrev pub reply_to :
    (List Sent → CreateContainerRequest → Option KeyHint) → World → Creations → Option KeyHint
reply_to reply w [] = none
reply_to reply w ((first, n) ∷ rest) = reply w.sent first

-- The continuation of a chunk fits one request, with the largest key hint and with that of the reply.
abbrev pub Continuable : Env → Option KeyHint → CreateContainerRequest × ℕ → Type 0
Continuable env hint (chunk, n) =
    (env.byte_size (Messages.add_to (continuation chunk reserved_hint)) ≤ max_rpc_size)
    × (env.byte_size (Messages.add_to (continuation chunk hint)) ≤ max_rpc_size)

-- The world after these chunks were sent.
abbrev pub delivered :
    Env
    → Client
    → Option (Option Seconds)
    → ContainerType
    → Option KeyHint
    → World
    → Creations
    → World
delivered env client timeout container_type reply w [] = w
delivered env client timeout container_type reply w ((first, n) ∷ rest) =
    after env client timeout container_type reply
      (posted env client "create_container" timeout w Rpc.create_container
        (Messages.create_container first))
      rest

module _ (env : Env) (client : Client) (timeout : Option (Option Seconds)) where
  checked :
      (hint : Option KeyHint) (w : World) (chunks : Creations)
      → w.deadline ≡ none
      → All (Continuable env hint) chunks
      → check_continuations chunks env w ≡ (ok tt, w)
  unfolding check_continuations
  checked hint w [] quiet h = refl
  checked hint w ((chunk, n) ∷ rest) quiet h =
      ap (λ (x : Result (Unit {0}) × World). continue x.0 (λ _. check_continuations rest) env x.1)
        (check-quiet env w quiet (Messages.add_to (continuation chunk reserved_hint)) h.0.0).1
      ∙ checked hint w rest quiet h.1

  -- the first request of a creation
  call-created :
      (reply : Option KeyHint) (w : World) (chunk : CreateContainerRequest)
      → w.deadline ≡ none
      → env.byte_size (Messages.create_container chunk) ≤ max_rpc_size
      → env.server w.sent Rpc.create_container (Messages.create_container chunk) ≡ replied reply
      → call client "create_container" Rpc.create_container timeout
          (Messages.create_container chunk)
          env
          w
        ≡ (
          ok reply,
          posted env client "create_container" timeout w Rpc.create_container
              (Messages.create_container chunk),
        )
  unfolding call
  call-created reply w chunk quiet small answered = ground arith

  module _ (size : List Sent → CountRpc → AddToRequest → ℕ)
      (adds : (sent : List Sent) (rpc : CountRpc) (request : AddToRequest)
        → env.server sent (count_rpc rpc) (Messages.add_to request)
          ≡ replied (size sent rpc request))
      (container_type : ContainerType)
      (added : (sent : List Sent) (rpc : CountRpc) (request : AddToRequest)
        → Accepted (is_sequence container_type) (size sent rpc request)) where
    all-Taken :
        (hint : Option KeyHint) (w : World) (chunks : Creations)
        → w.deadline ≡ none
        → All (Continuable env hint) chunks
        → Taken env client timeout container_type hint w chunks
    all-Taken hint w [] quiet h = tt
    all-Taken hint w ((chunk, n) ∷ rest) quiet h =
        let request = continuation chunk hint in
        let rpc = continuation_rpc (is_sequence container_type) in
        let e =
          call-replied env client "create_container" timeout w quiet rpc (Messages.add_to request)
            h.0.1 (size w.sent rpc request) (adds w.sent rpc request) in
        (
          rw e (taken_size (is_sequence container_type) _ (added w.sent rpc request)),
          rw e (
              all-Taken hint
                (posted env client "create_container" timeout w (count_rpc rpc)
                  (Messages.add_to request))
                rest quiet h.1),
        )

    module _ (reply : List Sent → CreateContainerRequest → Option KeyHint)
        (creates : (sent : List Sent) (chunk : CreateContainerRequest)
          → env.server sent Rpc.create_container (Messages.create_container chunk)
            ≡ replied (reply sent chunk)) where
      created_whole :
          (w : World) (chunks : Creations)
          → w.deadline ≡ none
          → 0 < length chunks
          → All (WithinLimit creation env) chunks
          → All (Continuable env (reply_to reply w chunks)) (behind chunks)
          → created client timeout container_type chunks env w ≡ (
            ok (or_unspecified (decode_hint (reply_to reply w chunks))),
            delivered env client timeout container_type (reply_to reply w chunks) w chunks,
          )
      created_whole w [] quiet some_chunk h k = absurd (omega (arith, some_chunk))
      created_whole w ((first, n) ∷ rest) quiet some_chunk h k =
          let hint = reply w.sent first in
          created-Taken env client timeout container_type first n rest hint w w _
            (checked hint w rest quiet k)
            (call-created hint w first quiet h.0 (creates w.sent first))
            (all-Taken hint _ rest quiet k)

module _ (env : Env) (client : Client) (timeout : Option (Option Seconds))
    (size : List Sent → CountRpc → AddToRequest → ℕ)
    (adds : (sent : List Sent) (rpc : CountRpc) (request : AddToRequest)
      → env.server sent (count_rpc rpc) (Messages.add_to request) ≡ replied (size sent rpc request))
    (reply : List Sent → CreateContainerRequest → Option KeyHint)
    (creates : (sent : List Sent) (chunk : CreateContainerRequest)
      → env.server sent Rpc.create_container (Messages.create_container chunk)
        ≡ replied (reply sent chunk))
    (sizes : SizeLaws env creation) where
  -- With no deadline: if the server, whose answers may depend on what was sent before, answers
  -- every creation with a reply and every continuation with a size, positive if the container is a
  -- sequence, the headers and each item alone fit one request with the largest key hint, no
  -- position overflows, and in the plan that is made each continuation fits one request with the
  -- largest key hint and with that of the reply, a chunked creation returns the hint of the reply
  -- to its first chunk, or the unspecified one, having sent each chunk of that plan once, in order,
  -- and the items of these chunks, in order, are the items of the request once the TTL of the
  -- container is set on its values, where its type wants that.
  pub create_container_delivers :
      (w : World) (request : CreateContainerRequest) (items : List Item)
      → w.deadline ≡ none
      → creation.items_of (stamp request) ≡ ok items
      → ((sent : List Sent) (rpc : CountRpc) (r : AddToRequest)
          → Accepted (is_sequence request.container_type) (size sent rpc r))
      → Fits creation env (headers_of creation (stamp request) true) items 0 0
      → EachFits creation env (headers_of creation (stamp request) true) items 0 (length items)
      → Placeable creation
          (creation.cleared (stamp request))
          (headers_of creation (stamp request) true)
          items
      → ((chunks : Creations)
          → plan creation (stamp request) true env w ≡ (ok chunks, w)
          → All (Continuable env (reply_to reply w chunks)) (behind chunks))
      → (chunks : Creations) × (plan creation (stamp request) true env w ≡ (ok chunks, w))
        × (create_container_chunked client timeout request env w ≡ (
          ok (or_unspecified (decode_hint (reply_to reply w chunks))),
          delivered env client timeout request.container_type (reply_to reply w chunks) w chunks,
        ))
        × (chunk_items creation chunks ≡ ok items)
  unfolding create_container_chunked
  create_container_delivers w request items quiet is_items added fit each place room =
      let r = stamp request in
      let (chunks, planned, _) =
        plan_total env w quiet creation r true items is_items fit each place in
      let first : (plan creation r true env w).0 ≡ ok chunks = ap (λ x. x.0) planned in
      let some_chunk =
        Holds-ok (λ cs. 0 < length cs) (plan creation r true env w).0 chunks first
          ((plan-some env r).at w) in
      let within =
        Holds-ok (λ cs. All (WithinLimit creation env) cs) (plan creation r true env w).0 chunks
          first ((plan-WithinLimit creation env sizes r true).at w) in
      let covered =
        Holds-ok (λ cs. (chunk_items creation cs ≡ creation.items_of r) × All (Counted creation) cs)
          (plan creation r true env w).0 chunks first
          ((plan-covers creation creation-BatchLaws env r true).at w) in
      (
        chunks,
        planned,
        ap
              (λ (x : Result Creations × World).
                continue x.0 (created client timeout request.container_type) env x.1)
              planned
            ∙ created_whole env client timeout size adds request.container_type added reply creates
                w chunks quiet some_chunk within (room chunks planned),
        covered.0 ∙ is_items,
      )
