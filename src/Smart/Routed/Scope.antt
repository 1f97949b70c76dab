-- ===== src/Smart/Routed/Scope.antt =====
-- What a routed operation leaves behind, and when it calls no endpoint.
use mathlib.Core.Path.{fun_ext}
use hurricache_python_client.Base.{
  ◌⊎◌, inl, inr, sym, ℕ, ◌≡◌, ◌∙◌, refl, ap, String, Bool, true, false, Option, some, if◌then◌else◌,
}
use hurricache_python_client.Errors.{Result, ok, err, cancelled}
use hurricache_python_client.Effects.{Seconds, Env, World, M, ◌>>=◌}
use hurricache_python_client.Effects.Ensures.{Holds, Ensures, Ensures-then}
use hurricache_python_client.Operation.{Client, operation, remaining}
use hurricache_python_client.Operation.Scope.{operation-restores, operation-Ensures}
use hurricache_python_client.Smart.{SmartClient, Snapshot, Call}
use hurricache_python_client.Smart.Balance.{execute-active}
use hurricache_python_client.Smart.Routed.{
  wait_until_ready, when_ready, body, outcome, routed, not_ready,
}

-- the active operations of what a body returns
abbrev HasActive : {A : Type 0} → ℕ → Result A × SmartClient → Type 0
HasActive n (r, s) = s.active ≡ n

outcome_world :
    {A : Type 0} (client : Client) (readiness : Seconds)
    (wait : Seconds → SmartClient → Bool × SmartClient)
    (run : Snapshot → String → SmartClient × World → Result A × (SmartClient × World))
    (s : SmartClient) (x : Result (Result A × SmartClient) × World)
    → (outcome client readiness wait run s x).1.1 ≡ x.1
outcome_world client readiness wait run s (err error, w) = refl
outcome_world client readiness wait run s (ok (r, s'), w) = refl

module _ {A : Type 0} (client : Client) (readiness : Seconds)
    (wait : Seconds → SmartClient → Bool × SmartClient)
    (run : Snapshot → String → SmartClient × World → Result A × (SmartClient × World)) where
  outcome_active :
      (s : SmartClient) (x : Result (Result A × SmartClient) × World)
      → Holds (HasActive s.active) x.0
      → (outcome client readiness wait run s x).1.0.active ≡ s.active
  outcome_active s (err error, w) h = refl
  outcome_active s (ok (r, s'), w) h = h

  -- an error, in a body whose own result is a value
  abbrev Fails : Result A × SmartClient → Type 0
  Fails (r, s) = Holds (λ _. ⊥) r

  outcome-Fails :
      (s : SmartClient) (x : Result (Result A × SmartClient) × World)
      → Holds Fails x.0
      → Holds (λ _. ⊥) (outcome client readiness wait run s x).0
  outcome-Fails s (err error, w) h = tt
  outcome-Fails s (ok (r, s'), w) h = h

  module _
      (balanced : (snapshot : Snapshot) (target : String) (s : SmartClient) (w : World)
        → (run snapshot target (s, w)).1.0.active ≡ s.active)
      (patient : (timeout : Seconds) (s : SmartClient) → (wait timeout s).1.active ≡ s.active) where
    when_ready-active :
        (c : Call) (w : World) (x : Result (Unit {0}) × SmartClient)
        → (when_ready client readiness wait run c w x).1.0.active ≡ x.1.active
    when_ready-active c w (err error, s) = refl
    when_ready-active c w (ok _, s) = execute-active run c s w balanced

    body-HasActive :
        (env : Env) (c : Call) (s : SmartClient)
        → Ensures env (HasActive s.active) (body client readiness wait run c s)
    unfolding body wait_until_ready
    body-HasActive env c s =
        Ensures-then (remaining (some readiness)) _
          λ timeout. record { at = λ w. when_ready-active c w _ ∙ patient _ s }

    -- If the calls, and what happens during the wait for a topology, leave the number of active
    -- operations of the smart client as it was, so does a whole routed operation, whether it
    -- returns or raises; and the context variables are as before.
    pub routed-active :
        (env : Env) (timeout : Option Seconds) (c : Call) (s : SmartClient) (w : World)
        → ((routed client readiness wait run env timeout c (s, w)).1.0.active ≡ s.active)
          × ((routed client readiness wait run env timeout c (s, w)).1.1.context ≡ w.context)
    unfolding routed
    routed-active env timeout c s w =
        let scoped = record client { closed = s.closed } in
        let x = operation scoped timeout (body client readiness wait run c s) env w in
        (
          outcome_active s x (
              (operation-Ensures env scoped timeout (body client readiness wait run c s)
                  (body-HasActive env c s)).at
                w),
          ap (λ (v : World). v.context) (outcome_world client readiness wait run s x)
              ∙ operation-restores scoped timeout (body client readiness wait run c s) env w,
        )

  module _ (late : (timeout : Seconds) (s : SmartClient) → (wait timeout s).0 ≡ false) where
    when_ready-Fails :
        (c : Call) (w : World) (there : Bool) (s : SmartClient)
        → there ≡ false
        → Holds
            (λ _. ⊥)
            (when_ready client readiness wait run c w (if there then ok tt else err not_ready, s)).0
    when_ready-Fails c w true s e = absurd (cc)
    when_ready-Fails c w false s e = tt

    body-Fails :
        (env : Env) (c : Call) (s : SmartClient)
        → Ensures env Fails (body client readiness wait run c s)
    unfolding body wait_until_ready
    body-Fails env c s =
        Ensures-then (remaining (some readiness)) _
          λ timeout. record { at = λ w. when_ready-Fails c w _ _ (late _ s) }

    pub never_ready :
        (env : Env) (timeout : Option Seconds) (c : Call) (s : SmartClient) (w : World)
        → Holds (λ _. ⊥) (routed client readiness wait run env timeout c (s, w)).0
    unfolding routed
    never_ready env timeout c s w =
        let scoped = record client { closed = s.closed } in
        outcome-Fails s (operation scoped timeout (body client readiness wait run c s) env w) (
          (operation-Ensures env scoped timeout (body client readiness wait run c s)
              (body-Fails env c s)).at
            w)

module _ {A : Type 0} (client : Client) (readiness : Seconds)
    (wait : Seconds → SmartClient → Bool × SmartClient)
    (run run' : Snapshot → String → SmartClient × World → Result A × (SmartClient × World)) where
  not_run :
      (c : Call) (w : World) (there : Bool) (s : SmartClient)
      → there ≡ false
      → when_ready client readiness wait run c w (if there then ok tt else err not_ready, s)
        ≡ when_ready client readiness wait run' c w (if there then ok tt else err not_ready, s)
  not_run c w true s e = absurd (cc)
  not_run c w false s e = refl

  body_alike :
      ((timeout : Seconds) (s : SmartClient) → (wait timeout s).0 ≡ false)
      → (c : Call) (s : SmartClient)
      → body client readiness wait run c s ≡ body client readiness wait run' c s
  unfolding body wait_until_ready
  body_alike late c s =
      ap (λ k. remaining (some readiness) >>= k)
        (fun_ext λ timeout. fun_ext λ env. fun_ext λ w.
          ap (λ (x : Result A × (SmartClient × World)). (ok (x.0, x.1.0), x.1.1))
            (not_run c w _ _ (late _ s)))

  closed_scope :
      (scoped : Client) (timeout : Option Seconds) (m : M (Result A × SmartClient)) (env : Env)
      (w : World)
      → scoped.closed ≡ true
      → operation scoped timeout m env w ≡ (err (cancelled "client is closed"), w)
  unfolding operation
  closed_scope scoped timeout m env w e = rw e refl

  -- If the smart client is closed, or no topology comes within the wait, a routed operation raises,
  -- and it calls no endpoint: what it does is the same whatever the calls would do.
  pub routed_refused :
      (env : Env) (timeout : Option Seconds) (c : Call) (s : SmartClient) (w : World)
      → (s.closed ≡ true) ⊎ ((timeout : Seconds) (s : SmartClient) → (wait timeout s).0 ≡ false)
      → Holds (λ _. ⊥) (routed client readiness wait run env timeout c (s, w)).0
        × (routed client readiness wait run env timeout c (s, w)
            ≡ routed client readiness wait run' env timeout c (s, w))
  unfolding routed
  routed_refused env timeout c s w (inl closed) =
      let scoped = record client { closed = s.closed } in
      let e = λ (m : M (Result A × SmartClient)). closed_scope scoped timeout m env w closed in
      (
        outcome-Fails client readiness wait run s
            (operation scoped timeout (body client readiness wait run c s) env w)
            (rw (e (body client readiness wait run c s)) tt),
        ap (outcome client readiness wait run s) (
            e (body client readiness wait run c s) ∙ sym (e (body client readiness wait run' c s))),
      )
  routed_refused env timeout c s w (inr late) = (
    never_ready client readiness wait run late env timeout c s w,
    ap
        (λ m.
          outcome client readiness wait run s
            (operation (record client { closed = s.closed }) timeout m env w))
        (body_alike late c s),
  )
