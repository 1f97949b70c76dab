-- ===== src/Smart/Calls.antt =====
-- Which clients an operation calls.
use hurricache_python_client.Base.{
  ℕ, suc, ◌≡◌, ◌≤◌, refl, ◌⊎◌, inl, inr, String, Bool, true, false, Option, none, some, List, [],
  ◌∷◌, arith, str_eq, if◌then◌else◌, Bool-cases, All, length,
}
use hurricache_python_client.Errors.{Error, failed_precondition, unavailable, Result, ok, err}
use hurricache_python_client.Models.{Mode}
use hurricache_python_client.Topology.{NodeRole, Topology, route}
use hurricache_python_client.Routing.{
  member, client_for, routed, endpoint_of, by_mode, endpoints, redirect, retry_at, again, settle,
  attempt,
}
use hurricache_python_client.Routing.Attempts.{Log, logged, attempt_calls-le}
use hurricache_python_client.Smart.{Snapshot, targets_of, Call, endpoints_of}

-- the endpoint has a client, if there is an endpoint
abbrev Known : List String → Option String → Type 0
Known clients none = Unit {0}
Known clients (some target) = member target clients ≡ true

client_for-Known :
    (clients : List String) (target : String) → Known clients (client_for clients target)
client_for-Known clients target = elim (Bool-cases (member target clients)) [
  | inl there ↦ rw there there
  | inr gone ↦ rw gone tt
]

routed-Known : (clients : List String) (r : Option String) → Known clients (routed clients r)
routed-Known clients none = client_for-Known clients ""
routed-Known clients (some target) = client_for-Known clients target

abbrev pub AllKnown : List String → List String → Type 0
AllKnown clients = All (λ target. member target clients ≡ true)

by_mode-AllKnown :
    (clients : List String) (mode : Mode) (coin : Bool) (m b : String)
    → member m clients ≡ true
    → member b clients ≡ true
    → AllKnown clients (by_mode mode coin m b)
by_mode-AllKnown clients mode coin m b h k = ground arith

endpoints-AllKnown :
    (clients : List String) (mode : Mode) (coin : Bool) (m b : Option String)
    → Known clients m
    → Known clients b
    → AllKnown clients (endpoints mode coin m b)
unfolding endpoints
endpoints-AllKnown clients mode coin none none h k = tt
endpoints-AllKnown clients mode coin (some m) none h k = (h, tt)
endpoints-AllKnown clients mode coin none (some b) h k = (k, tt)
endpoints-AllKnown clients mode coin (some m) (some b) h k = elim (Bool-cases (str_eq m b)) [
  | inl same ↦ rw same (h, tt)
  | inr other ↦ rw other (by_mode-AllKnown clients mode coin m b h k)
]

endpoint_of-Known :
    (topology : Topology) (clients : List String) (role : NodeRole) (index : ℕ)
    → Known clients (endpoint_of topology clients role index)
unfolding endpoint_of
endpoint_of-Known topology clients role index =
    routed-Known clients (route topology.routes role index)

-- Every endpoint of a call has a client in its snapshot.
endpoints_of-AllKnown :
    (c : Call) (snapshot : Snapshot) (index : ℕ)
    → AllKnown (targets_of snapshot.clients) (endpoints_of c snapshot index)
unfolding endpoints_of
endpoints_of-AllKnown c snapshot index =
    endpoints-AllKnown (targets_of snapshot.clients) _ c.coin _ _
      (endpoint_of-Known snapshot.topology (targets_of snapshot.clients) _ index)
      (endpoint_of-Known snapshot.topology (targets_of snapshot.clients) _ index)

another :
    (clients : List String) (endpoint : String) (o : Option String)
    → Known clients o
    → Known clients (elim o as (λ _. Option String) [
      | none ↦ none
      | some other ↦ if str_eq other endpoint then none else some other
    ])
another clients endpoint none h = tt
another clients endpoint (some other) h = if_not (str_eq other endpoint)
  where
    if_not : (same : Bool) → Known clients (if same then none else some other)
    if_not true = tt
    if_not false = h

redirect-Known :
    (clients : List String) (endpoint : String) (target : Option String)
    → Known clients (redirect clients endpoint target)
redirect-Known clients endpoint none = tt
redirect-Known clients endpoint (some target) =
    another clients endpoint (client_for clients target) (client_for-Known clients target)

retry_at-Known :
    (clients : List String) (endpoint : String) (others : List String) (error : Error)
    → AllKnown clients others
    → Known clients (retry_at clients endpoint others error)
unfolding retry_at
retry_at-Known clients endpoint others (failed_precondition _ target) h =
    redirect-Known clients endpoint target
retry_at-Known clients endpoint [] (unavailable _) h = tt
retry_at-Known clients endpoint (other ∷ _) (unavailable _) h = h.0
retry_at-Known clients endpoint others _ h = tt

-- An error after which a second endpoint may be called.
abbrev pub IsRetryable : Error → Type 0
IsRetryable (failed_precondition _ (some _)) = Unit {0}
IsRetryable (unavailable _) = Unit {0}
IsRetryable _ = ⊥

at_most_two : (n : ℕ) → n ≤ 2 → (n ≤ 1) ⊎ (n ≡ 2)
at_most_two n h = omega arith

module _ {A : Type 0} (answer : Log → String → Result A) (clients : List String) where
  again-AllKnown :
      (target : Option String) (error : Error) (log : Log)
      → Known clients target
      → AllKnown clients log
      → AllKnown clients (again (logged answer) target error log).1
  again-AllKnown none error log h k = k
  again-AllKnown (some other) error log h k = (h, k)

  settle-AllKnown :
      (endpoint : String) (others : List String) (r : Result A) (log : Log)
      → AllKnown clients others
      → AllKnown clients log
      → AllKnown clients (settle (logged answer) clients endpoint others r log).1
  unfolding settle
  settle-AllKnown endpoint others (ok a) log h k = k
  settle-AllKnown endpoint others (err error) log h k =
      again-AllKnown _ error log (retry_at-Known clients endpoint others error h) k

  attempt-AllKnown :
      (targets : List String)
      → AllKnown clients targets
      → AllKnown clients (attempt (logged answer) clients targets []).1
  unfolding attempt
  attempt-AllKnown [] h = tt
  attempt-AllKnown (endpoint ∷ others) h =
      settle-AllKnown endpoint others (answer [] endpoint) (endpoint ∷ []) h.1 (h.0, tt)

  retried-IsRetryable :
      (endpoint : String) (others : List String) (error : Error) (log : Log)
      → length (again (logged answer) (retry_at clients endpoint others error) error log).1
        ≡ suc (length log)
      → IsRetryable error
  unfolding retry_at
  retried-IsRetryable endpoint others (failed_precondition _ (some _)) log h = tt
  retried-IsRetryable endpoint others (unavailable _) log h = tt
  retried-IsRetryable endpoint others _ log h = absurd (omega (arith, h))

  -- the first call failed with an error that allows a second one
  abbrev pub FirstFailed : List String → Type 0
  FirstFailed [] = ⊥
  FirstFailed (endpoint ∷ _) =
      (error : Error) × (answer [] endpoint ≡ err error) × IsRetryable error

  settled :
      (endpoint : String) (others : List String) (r : Result A)
      → answer [] endpoint ≡ r
      → length (settle (logged answer) clients endpoint others r (endpoint ∷ [])).1 ≡ 2
      → FirstFailed (endpoint ∷ others)
  unfolding settle
  settled endpoint others (ok a) e h = absurd (omega (arith, h))
  settled endpoint others (err error) e h =
      (error, e, retried-IsRetryable endpoint others error (endpoint ∷ []) h)

  second_called :
      (targets : List String)
      → length (attempt (logged answer) clients targets []).1 ≡ 2
      → FirstFailed targets
  unfolding attempt
  second_called [] h = absurd (omega (arith, h))
  second_called (endpoint ∷ others) h = settled endpoint others (answer [] endpoint) refl h

  -- However the endpoints answer, a routed operation calls at most two of them; and it calls a
  -- second one only if the first call failed because the endpoint was unavailable, or with a failed
  -- precondition that names a route; after any other error, a partial one for instance, there is
  -- none.
  pub attempt_twice-FirstFailed :
      (targets : List String)
      → (length (attempt (logged answer) clients targets []).1 ≤ 1)
        ⊎ ((length (attempt (logged answer) clients targets []).1 ≡ 2) × FirstFailed targets)
  attempt_twice-FirstFailed targets =
      elim (at_most_two _ (attempt_calls-le answer clients targets)) [
        | inl one ↦ inl one
        | inr two ↦ inr (two, second_called targets two)
      ]

-- the calls of an operation
module _ {A : Type 0} (answer : Log → String → Result A) where
  -- Whatever the calls answer, every endpoint that a routed operation calls, redirected or not, has
  -- a client in the snapshot that the operation took.
  pub execute_calls-AllKnown :
      (c : Call) (snapshot : Snapshot) (index : ℕ)
      → AllKnown
          (targets_of snapshot.clients)
          (attempt
            (logged answer)
            (targets_of snapshot.clients)
            (endpoints_of c snapshot index)
            []).1
  execute_calls-AllKnown c snapshot index =
      attempt-AllKnown answer (targets_of snapshot.clients) (endpoints_of c snapshot index)
        (endpoints_of-AllKnown c snapshot index)
