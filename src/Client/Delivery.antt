-- ===== src/Client/Delivery.antt =====
-- A chunked addition or removal as a whole: planned, and sent to a server that accepts it.
use mathlib.Core.Path.{subst}
use mathlib.Core.List.{reverse_aux, reverse-reverse}
use hurricache_python_client.Base.{
  ℕ, ◌+◌, ◌≤◌, ◌<◌, ◌≡◌, ap, ◌∙◌, String, Bool, true, false, ◌||◌, Option, none, List, [], ◌∷◌,
  reverse, arith, length, sum_of, All, if◌then◌else◌,
}
use hurricache_python_client.Errors.{Result, ok}
use hurricache_python_client.Rpc.{CountRpc, count_rpc, replied}
use hurricache_python_client.Effects.{Env, World, Seconds, Sent, continue}
use hurricache_python_client.Effects.Ensures.{Ensures, Holds-ok}
use hurricache_python_client.Operation.{Client}
use hurricache_python_client.Wire.{max_rpc_size}
use hurricache_python_client.Batching.{Batchable, Item, plan}
use hurricache_python_client.Batching.Search.{Fits, EachFits, Small}
use hurricache_python_client.Batching.Coverage.{
  BatchLaws, Chain, Counted, chunk_items, in_order, plan-in_order, plan-covers,
}
use hurricache_python_client.Batching.Total.{Placeable, plan_total}
use hurricache_python_client.Client.{
  Added, as_bool, as_count, is_boolean, zero_tally, add_chunks, call_add_chunked,
}
use hurricache_python_client.Client.Adding.{Accepted, Answers, after, sent_to, add_chunks-accepted}

All-reverse_aux :
    {A : Type 0} (P : A → Type 0) (xs done : List A)
    → All P xs
    → All P done
    → All P (reverse_aux xs done)
All-reverse_aux P [] done h k = k
All-reverse_aux P (x ∷ xs) done h k = All-reverse_aux P xs (x ∷ done) h.1 (h.0, k)

All-in_order :
    {A : Type 0} (P : A → Type 0) (backwards : Bool) (xs : List A)
    → All P (if backwards then reverse xs else xs)
    → All P xs
All-in_order P true xs h =
    subst (All P) (reverse-reverse xs) (All-reverse_aux P (reverse xs) [] h tt)
All-in_order P false xs h = h

module _ {R : Type 0} (b : Batchable R) (env : Env) where
  -- a chunk with an item, within the limit
  abbrev Sendable : R × ℕ → Type 0
  Sendable (r, n) = (0 < n) × (env.byte_size (b.message r) ≤ max_rpc_size)

  Chain-Sendable :
      (base : R) (items : List Item) (start : ℕ) (chunks : List (R × ℕ))
      → Chain b env base base items start chunks
      → All Sendable chunks
  Chain-Sendable base items start [] h = tt
  Chain-Sendable base items start ((r, n) ∷ rest) h =
      ((h.0, subst (Small b env) h.2 h.3), Chain-Sendable base items (start + n) rest h.4)

  plan-Sendable :
      (request : R)
      (some_item : (items : List Item) → b.items_of request ≡ ok items → 0 < length items)
      → Ensures env (λ chunks. All Sendable (in_order b request chunks)) (plan b request false)
  plan-Sendable request some_item =
      plan-in_order b env request false (All Sendable)
        (λ items found is_items chain _. Chain-Sendable (b.cleared request) items 0 found chain)
        (λ items r is_items empty fit built. absurd (omega (arith, some_item items is_items)))

module _ {R : Type 0} (b : Batchable R) (env : Env) (client : Client) (name : String)
    (rpc : CountRpc) (timeout : Option (Option Seconds)) (boolean : Bool)
    (size : List Sent → R → ℕ) where
  -- the sizes that the server returns, each by what was sent before
  abbrev pub sizes : World → List (R × ℕ) → List ℕ
  sizes w [] = []
  sizes w ((r, n) ∷ chunks) =
      size w.sent r ∷ sizes (sent_to b env client name rpc timeout boolean w r) chunks

  -- what the call returns after these chunks
  abbrev pub result_of : World → List (R × ℕ) → Added
  result_of w chunks = if boolean then as_bool true else as_count (sum_of (λ s. s) (sizes w chunks))

  module _
      (accepts : (sent : List Sent) (r : R)
        → env.server sent (count_rpc rpc) (b.message r) ≡ replied (size sent r))
      (adds : (sent : List Sent) (r : R) → Accepted boolean (size sent r)) where
    chunks_accepted :
        (w : World) (chunks : List (R × ℕ))
        → All (Sendable b env) chunks
        → Answers b env client name rpc timeout boolean w chunks (sizes w chunks)
    chunks_accepted w [] h = tt
    chunks_accepted w ((r, n) ∷ chunks) h = (
      h.0.0,
      h.0.1,
      accepts w.sent r,
      adds w.sent r,
      chunks_accepted (sent_to b env client name rpc timeout boolean w r) chunks h.1,
    )

module _ {R : Type 0} (b : Batchable R) (laws : BatchLaws b) (env : Env) (client : Client)
    (name : String) (rpc : CountRpc) (timeout : Option (Option Seconds)) (flag : Bool)
    (size : List Sent → R → ℕ)
    (accepts : (sent : List Sent) (r : R)
      → env.server sent (count_rpc rpc) (b.message r) ≡ replied (size sent r))
    (adds : (sent : List Sent) (r : R) → Accepted (flag || is_boolean name) (size sent r)) where
  -- With no deadline, for a message type that obeys the law of `BatchLaws`: if the server, whose
  -- answers may depend on what was sent before, accepts every request, with a positive size where a
  -- bool is wanted, the headers and each item alone fit one request, no position overflows and the
  -- sizes of the plan that is made add up to 32 bits at most, a chunked addition or removal of one
  -- or more items returns True, or the sum of the sizes, having sent each chunk of that plan once,
  -- and the items of these chunks, in the order of the plan before it may be reversed, are the
  -- items of the request.
  pub call_add_chunked_delivers :
      (w : World) (request : R) (items : List Item)
      → w.deadline ≡ none
      → b.items_of request ≡ ok items
      → 0 < length items
      → Fits b env (b.cleared request) items 0 0
      → EachFits b env (b.cleared request) items 0 (length items)
      → Placeable b (b.cleared request) (b.cleared request) items
      → ((chunks : List (R × ℕ))
          → plan b request false env w ≡ (ok chunks, w)
          → sum_of
              (λ s. s)
              (sizes b env client name rpc timeout (flag || is_boolean name) size w chunks)
            ≤ 0xFFFFFFFF)
      → (chunks : List (R × ℕ)) × (plan b request false env w ≡ (ok chunks, w))
        × (call_add_chunked b client name rpc timeout flag request env w ≡ (
          ok (result_of b env client name rpc timeout (flag || is_boolean name) size w chunks),
          after b env client name rpc timeout (flag || is_boolean name) w chunks,
        ))
        × (chunk_items b (in_order b request chunks) ≡ ok items)
  unfolding call_add_chunked
  call_add_chunked_delivers w request items quiet is_items some_item fit each place room =
      let boolean = flag || is_boolean name in
      let (chunks, planned, _) =
        plan_total env w quiet b request false items is_items fit each place in
      let first : (plan b request false env w).0 ≡ ok chunks = ap (λ x. x.0) planned in
      let sendable = All-in_order (Sendable b env) (b.backwards request) chunks (
        Holds-ok (λ cs. All (Sendable b env) (in_order b request cs)) (plan b request false env w).0
          chunks first
          ((plan-Sendable b env request (λ others e.
              let same : items ≡ others = cc in subst (λ is. 0 < length is) same some_item)).at
            w)) in
      let covered =
        Holds-ok
          (λ cs.
            (chunk_items b (in_order b request cs) ≡ b.items_of request)
            × All (Counted b) (in_order b request cs))
          (plan b request false env w).0 chunks first
          ((plan-covers b laws env request false).at w) in
      (
        chunks,
        planned,
        ap
              (λ (x : Result (List (R × ℕ)) × World).
                continue x.0 (λ cs. add_chunks b client name rpc timeout boolean cs zero_tally) env
                  x.1)
              planned
            ∙ add_chunks-accepted b env client name rpc timeout boolean w chunks
                (sizes b env client name rpc timeout boolean size w chunks) quiet
                (chunks_accepted b env client name rpc timeout boolean size accepts adds w chunks
                  sendable)
                (room chunks planned),
        covered.0 ∙ is_items,
      )
