-- ===== src/AsyncSmart/Steps/Places.antt =====
-- Where the client objects are, once a step has moved them: in the dict, retired, closed, or with a
-- task that has still to close them.
use hurricache_python_client.Base.{
  ℕ, ◌+◌, ◌≤◌, ◌<◌, ◌≡◌, ◌∙◌, refl, String, true, Option, none, some, List, [], ◌∷◌, arith, flatten,
}
use hurricache_python_client.Base.Int.{ℤ}
use hurricache_python_client.Errors.{Result, ok, err}
use hurricache_python_client.Topology.{Topology}
use hurricache_python_client.Smart.{SmartClient, retire, connect, connect_all, leaving}
use hurricache_python_client.Smart.Holding.{holds}
use hurricache_python_client.Smart.Objects.{
  times, times-append, objects-append, split_times, Beside, retire-Beside, connect-Beside,
  connect_all_keeps,
}
use hurricache_python_client.AsyncSmart.{detach, proceed, settled, install}
use hurricache_python_client.AsyncSmart.Steps.{more, cut_off, to_close}

-- Going on with a loop over retired clients moves one of them.
pub proceed_moves :
    (a : ℕ) (rest : List ℕ) (s : SmartClient)
    → (holds a (proceed rest s).1 ≡ holds a s)
      × (times a (proceed rest s).1.shut + times a (cut_off (proceed rest s).0)
          ≡ times a s.shut + times a rest)
unfolding proceed
proceed_moves a [] s = (refl, omega arith)
proceed_moves a (client ∷ rest) s = (refl, omega arith)

pub proceed_leaves :
    (rest : List ℕ) (s : SmartClient)
    → ((proceed rest s).1.active ≡ s.active) × ((proceed rest s).1.made ≡ s.made)
unfolding proceed
proceed_leaves [] s = (refl, refl)
proceed_leaves (client ∷ rest) s = (refl, refl)

pub detach_moves :
    (a : ℕ) (s : SmartClient)
    → (holds a (detach s).1 + times a (detach s).0 ≡ holds a s)
      × (times a (detach s).1.shut ≡ times a s.shut)
      × (0 < s.active → holds a (detach s).1 ≡ holds a s)
unfolding detach
detach_moves a s = ground arith

pub detach_leaves :
    (s : SmartClient)
    → ((detach s).1.active ≡ s.active)
      × ((detach s).1.made ≡ s.made)
      × ((detach s).1.clients ≡ s.clients)
      × (s.retired ≡ [] → (detach s).1.retired ≡ [])
unfolding detach
detach_leaves s = (ground arith, ground arith, ground arith, λ h. ground arith)

pub detach-Beside :
    (others : ℕ → ℕ) (s : SmartClient)
    → Beside others s
    → Beside (λ a. times a (detach s).0 + others a) (detach s).1
unfolding detach
detach-Beside others s h a = ground (arith, h a)

-- What retiring and making clients keep, with what `detach` makes of it, holds after `install`.
module _ (int_of : String → Option ℤ) (P : SmartClient → Type 0) (Q : List ℕ → SmartClient → Type 0)
    (kept : (target : String) (s : SmartClient) → P s → P (connect target s))
    (failed : (s : SmartClient) → P s → Q [] s)
    (done : (t : Topology) (s : SmartClient)
      → P s
      → Q
          (detach (record s { topology = t; ready = true })).0
          (detach (record s { topology = t; ready = true })).1) where
  last :
      (t : Topology) (r : Result (Unit {0}) × SmartClient)
      → P r.1
      → Q (to_close (settled int_of t r).0) (settled int_of t r).1
  last t (err error, s) h = failed s h
  last t (ok _, s) h = done t s h

  pub install_keeps :
      (t : Topology) (s : SmartClient)
      → P (retire t.targets s)
      → Q (to_close (install int_of t s).0) (install int_of t s).1
  unfolding install
  install_keeps t s h =
      last t (connect_all int_of t.targets (retire t.targets s))
        (connect_all_keeps int_of P kept t.targets (retire t.targets s) h)

-- After `install`, each client made is at one place, those to be closed among them.
pub install-Beside :
    (int_of : String → Option ℤ) (others : ℕ → ℕ) (t : Topology) (s : SmartClient)
    → Beside others s
    → Beside (λ a. times a (to_close (install int_of t s).0) + others a) (install int_of t s).1
install-Beside int_of others t s h =
    install_keeps int_of (Beside others) (λ l u. Beside (λ a. times a l + others a) u)
      (connect-Beside others) (λ u k a. omega (arith, k a))
      (λ t u k. detach-Beside others (record u { topology = t; ready = true }) k) t s
      (retire-Beside others t.targets s h)

-- A new topology lets go of no client while operations are active.
pub install-holds :
    (int_of : String → Option ℤ) (t : Topology) (s : SmartClient)
    → ((install int_of t s).1.active ≡ s.active)
      × (0 < s.active → (a : ℕ) → holds a s ≤ holds a (install int_of t s).1)
unfolding retire connect
install-holds int_of t s =
    install_keeps int_of (λ u. (u.active ≡ s.active) × ((a : ℕ) → holds a s ≤ holds a u))
      (λ l u. (u.active ≡ s.active) × (0 < s.active → (a : ℕ) → holds a s ≤ holds a u))
      (λ target u k.
        (k.0, λ a. omega (arith, k.1 a, objects-append a u.clients ((target, u.made) ∷ []))))
      (λ u k. (k.0, λ _. k.1))
      (λ t u k.
        let v = record u { topology = t; ready = true } in
        (
          (detach_leaves v).0 ∙ k.0,
          λ busy a. omega (arith, k.1 a, (detach_moves a v).2 (omega (arith, k.0))),
        ))
      t s
      (
        refl,
        λ a. omega (
          arith,
          split_times a t.targets s.clients,
          times-append a s.retired (leaving t.targets s.clients),
        ),
      )

pub proceed-Beside :
    (others : ℕ → ℕ) (rest : List ℕ) (s : SmartClient)
    → Beside (λ a. times a rest + others a) s
    → Beside (λ a. times a (cut_off (proceed rest s).0) + others a) (proceed rest s).1
unfolding proceed
proceed-Beside others [] s h a = omega (arith, h a)
proceed-Beside others (client ∷ rest) s h a = omega (arith, h a)

pub same_Beside :
    (others others' : ℕ → ℕ) (s : SmartClient)
    → ((a : ℕ) → others a ≡ others' a)
    → Beside others s
    → Beside others' s
same_Beside others others' s e h a = omega (arith, h a, e a)

-- the loops of the operations that left, with one more
pub times-more :
    (a : ℕ) (rest : Option (List ℕ)) (others : List (List ℕ))
    → times a (flatten (more rest others)) ≡ times a (cut_off rest) + times a (flatten others)
times-more a none others = omega arith
times-more a (some rest) others = omega (arith, times-append a rest (flatten others))
