-- ===== src/Client/Adding.antt =====
-- Insertions and removals in several chunks: what is counted, what is sent, and what is reported
-- when a chunk fails.
use hurricache_python_client.Base.{
  ℕ, ◌+◌, ◌≤◌, ◌<◌, ◌≡◌, refl, sym, ap, ◌∙◌, String, Bool, true, false, Option, none, List, [], ◌∷◌,
  ◌++◌, arith, append-nil, length, sum_of, ◌==◌, if◌then◌else◌,
}
use hurricache_python_client.Errors.{RpcError, partial_operation, ok, err}
use hurricache_python_client.Errors.Mapping.{mapped_rpc_error}
use hurricache_python_client.Messages.{Request, request_key}
use hurricache_python_client.Models.{Bytes}
use hurricache_python_client.Rpc.{Rpc, CountRpc, count_rpc, replied, failed}
use hurricache_python_client.Effects.{Env, World, Seconds}
use hurricache_python_client.Operation.{Client, timeout_of}
use hurricache_python_client.Wire.{max_rpc_size, decode_key}
use hurricache_python_client.Batching.{Batchable}
use hurricache_python_client.Client.{call, as_bool, as_count, Tally, zero_tally, so_far, add_chunks}

module _ (env : Env) (client : Client) (name : String) (timeout : Option (Option Seconds)) where
  abbrev pub posted : World → Rpc → Request → World
  posted w rpc request = record w {
    sent = record { rpc = rpc; request = request; timeout = timeout_of client timeout } ∷ w.sent;
  }

  module _ (w : World) (quiet : w.deadline ≡ none) (rpc : CountRpc) (request : Request)
      (small : env.byte_size request ≤ max_rpc_size) where
    pub call-replied :
        (size : ℕ)
        → env.server w.sent (count_rpc rpc) request ≡ replied size
        → call client name (count_rpc rpc) timeout request env w
          ≡ (ok size, posted w (count_rpc rpc) request)
    unfolding call
    call-replied size reply = ground arith

    call-failed :
        (error : RpcError) (key : Bytes)
        → decode_key env (request_key request) ≡ ok key
        → env.server w.sent (count_rpc rpc) request ≡ failed error
        → call client name (count_rpc rpc) timeout request env w
          ≡ (err (mapped_rpc_error name error key), posted w (count_rpc rpc) request)
    unfolding call
    call-failed error key decoded reply = ground arith

-- a chunk that is accepted adds an element, where the caller wants a `bool`
abbrev pub Accepted : Bool → ℕ → Type 0
Accepted true size = 0 < size
Accepted false size = Unit {0}

module _ {R : Type 0} (b : Batchable R) (env : Env) (client : Client) (name : String)
    (rpc : CountRpc) (timeout : Option (Option Seconds)) (boolean : Bool) where
  abbrev pub sent_to : World → R → World
  sent_to w r = posted env client name timeout w (count_rpc rpc) (b.message r)

  -- The world after these chunks were sent.
  abbrev pub after : World → List (R × ℕ) → World
  after w [] = w
  after w ((r, n) ∷ cs) = after (sent_to w r) cs

  -- The server accepts these chunks, sent in this order, with these sizes.
  abbrev pub Answers : World → List (R × ℕ) → List ℕ → Type 0
  Answers w [] [] = Unit {0}
  Answers w ((r, n) ∷ cs) (s ∷ ss) =
      (0 < n)
      × (env.byte_size (b.message r) ≤ max_rpc_size)
      × (env.server w.sent (count_rpc rpc) (b.message r) ≡ replied s)
      × Accepted boolean s
      × Answers (sent_to w r) cs ss
  Answers w _ _ = ⊥

  abbrev pub tally_after : Tally → List (R × ℕ) → List ℕ → Tally
  tally_after t cs ss = record {
    total = t.total + sum_of (λ s. s) ss;
    done = t.done + sum_of (λ c. c.1) cs;
    acknowledged = t.acknowledged + length cs;
  }

  step :
      (w : World) (r : R) (n s : ℕ) (rest : List (R × ℕ)) (t : Tally)
      → w.deadline ≡ none
      → 0 < n
      → env.byte_size (b.message r) ≤ max_rpc_size
      → env.server w.sent (count_rpc rpc) (b.message r) ≡ replied s
      → Accepted boolean s
      → t.total + s ≤ 0xFFFFFFFF
      → add_chunks b client name rpc timeout boolean ((r, n) ∷ rest) t env w
        ≡ add_chunks b client name rpc timeout boolean rest
            (record { total = t.total + s; done = t.done + n; acknowledged = t.acknowledged + 1 })
            env
            (sent_to w r)
  unfolding add_chunks
  step w r n s rest t quiet pos small reply accepted room =
      ground (arith, call-replied env client name timeout w quiet rpc (b.message r) small s reply)

  failing :
      (w : World) (r : R) (n : ℕ) (rest : List (R × ℕ)) (t : Tally) (error : RpcError) (key : Bytes)
      → w.deadline ≡ none
      → 0 < n
      → env.byte_size (b.message r) ≤ max_rpc_size
      → env.server w.sent (count_rpc rpc) (b.message r) ≡ failed error
      → decode_key env (request_key (b.message r)) ≡ ok key
      → add_chunks b client name rpc timeout boolean ((r, n) ∷ rest) t env w ≡ (
        err (
            if t.acknowledged == 0
            then mapped_rpc_error name error key
            else partial_operation t.acknowledged t.done (so_far boolean t.total)),
        sent_to w r,
      )
  unfolding add_chunks
  failing w r n rest t error key quiet pos small reply decoded = ground (
    arith,
    call-failed env client name timeout w quiet rpc (b.message r) small error key decoded reply,
  )

  deadline-after : (w : World) (cs : List (R × ℕ)) → (after w cs).deadline ≡ w.deadline
  deadline-after w [] = refl
  deadline-after w ((r, n) ∷ cs) = deadline-after (sent_to w r) cs

  same_tally :
      {m n k m' n' k' : ℕ}
      → m ≡ m'
      → n ≡ n'
      → k ≡ k'
      → ◌≡◌ {A = Tally}
          (record { total = m; done = n; acknowledged = k })
          (record { total = m'; done = n'; acknowledged = k' })
  same_tally p q r = cc

  -- Chunks that the server accepts are sent one after the other, and tallied.
  pub add_chunks-append :
      (w : World) (cs rest : List (R × ℕ)) (ss : List ℕ) (t : Tally)
      → w.deadline ≡ none
      → Answers w cs ss
      → t.total + sum_of (λ s. s) ss ≤ 0xFFFFFFFF
      → add_chunks b client name rpc timeout boolean (cs ++ rest) t env w
        ≡ add_chunks b client name rpc timeout boolean rest (tally_after t cs ss) env (after w cs)
  add_chunks-append w [] rest [] t quiet h room =
      ap (λ u. add_chunks b client name rpc timeout boolean rest u env w)
        (same_tally (omega arith) (omega arith) (omega arith))
  add_chunks-append w [] rest (s ∷ ss) t quiet h room = absurd h
  add_chunks-append w ((r, n) ∷ cs) rest [] t quiet h room = absurd h
  add_chunks-append w ((r, n) ∷ cs) rest (s ∷ ss) t quiet h room =
      step w r n s (cs ++ rest) t quiet h.0 h.1 h.2 h.3 (omega arith)
      ∙ add_chunks-append (sent_to w r) cs rest ss _ quiet h.4 (omega arith)
      ∙ ap (λ u. add_chunks b client name rpc timeout boolean rest u env (after (sent_to w r) cs))
          (same_tally (omega arith) (omega arith) (omega arith))

  ended :
      (w : World) (cs : List (R × ℕ)) (ss : List ℕ)
      → add_chunks b client name rpc timeout boolean [] (tally_after zero_tally cs ss) env w
        ≡ (ok (if boolean then as_bool true else as_count (sum_of (λ s. s) ss)), w)
  unfolding add_chunks
  ended w cs ss = ground arith

  -- If, outside any deadline, the server accepts every chunk, the call returns True, or the sum of
  -- the sizes that the server returned, and each chunk was sent once, in order.
  pub add_chunks-accepted :
      (w : World) (cs : List (R × ℕ)) (ss : List ℕ)
      → w.deadline ≡ none
      → Answers w cs ss
      → sum_of (λ s. s) ss ≤ 0xFFFFFFFF
      → add_chunks b client name rpc timeout boolean cs zero_tally env w
        ≡ (ok (if boolean then as_bool true else as_count (sum_of (λ s. s) ss)), after w cs)
  add_chunks-accepted w cs ss quiet h room =
      ap (λ ds. add_chunks b client name rpc timeout boolean ds zero_tally env w)
        (sym (append-nil cs))
      ∙ add_chunks-append w cs [] ss zero_tally quiet h (omega arith)
      ∙ ended (after w cs) cs ss

  -- If, outside any deadline, chunks are accepted by the server and the next one fails, the call
  -- ends with a partial error that reports the number of chunks accepted, the number of their items
  -- and the elements added; if the first chunk fails, its own mapped error is raised; and the
  -- chunks behind the failing one are not sent.
  pub add_chunks-failed :
      (w : World) (cs rest : List (R × ℕ)) (ss : List ℕ) (r : R) (n : ℕ) (error : RpcError)
      (key : Bytes)
      → w.deadline ≡ none
      → Answers w cs ss
      → sum_of (λ s. s) ss ≤ 0xFFFFFFFF
      → 0 < n
      → env.byte_size (b.message r) ≤ max_rpc_size
      → env.server (after w cs).sent (count_rpc rpc) (b.message r) ≡ failed error
      → decode_key env (request_key (b.message r)) ≡ ok key
      → add_chunks b client name rpc timeout boolean (cs ++ (r, n) ∷ rest) zero_tally env w ≡ (
        err (
            if length cs == 0
            then mapped_rpc_error name error key
            else partial_operation
                (length cs)
                (sum_of (λ c. c.1) cs)
                (so_far boolean (sum_of (λ s. s) ss))),
        sent_to (after w cs) r,
      )
  add_chunks-failed w cs rest ss r n error key quiet h room pos small reply decoded =
      add_chunks-append w cs ((r, n) ∷ rest) ss zero_tally quiet h (omega arith)
      ∙ failing (after w cs) r n rest (tally_after zero_tally cs ss) error key
          (deadline-after w cs ∙ quiet) pos small reply decoded
      ∙ ground arith
