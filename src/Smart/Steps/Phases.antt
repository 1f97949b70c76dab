-- ===== src/Smart/Steps/Phases.antt =====
-- What the threads of operations and of the refresh keep, in each phase of the close of a smart
-- client.
use hurricache_python_client.Base.{
  ℕ, ◌+◌, ◌≤◌, ◌<◌, ◌≡◌, refl, ◌∙◌, String, true, false, Option, none, some, List, [], ◌∷◌, arith,
  flatten, length, All,
}
use hurricache_python_client.Base.Int.{ℤ}
use hurricache_python_client.Topology.{Topology}
use hurricache_python_client.Smart.{SmartClient, retire, leaving, sweep, connect, install}
use hurricache_python_client.Smart.Holding.{holds, InUse, used_on}
use hurricache_python_client.Smart.Objects.{
  times, times-append, objects-append, split_times, Beside, retire-Beside, connect-Beside,
  install_keeps,
}
use hurricache_python_client.Smart.Steps.{Closer, absent, joining, shutting, cleared, ended, System}

-- Every client made is at one place, those that operations are still to close among them.
abbrev pub Exact : System → Type 0
Exact s = Beside (λ a. times a (flatten s.leaving)) s.client

-- every client made is closed, or is one of these, or an operation that left is to close it
abbrev pub Covered : List ℕ → System → Type 0
Covered clients s =
    (a : ℕ)
    → a < s.client.made
    → 0 < times a s.client.shut + times a clients + times a (flatten s.leaving)

-- The refreshing thread has ended.
abbrev pub IsAlone : System → Type 0
IsAlone s = (s.client.closed ≡ true) × (s.pending ≡ none)

abbrev pub Phase : Closer → System → Type 0
Phase absent s = Exact s × All (InUse s.client) s.running
Phase joining s = Exact s × All (InUse s.client) s.running × (s.client.closed ≡ true)
Phase (shutting clients) s = Covered clients s × IsAlone s
Phase cleared s = Covered [] s × IsAlone s
Phase ended s = Covered [] s × IsAlone s

pub record Inv (s : System) : Type 0 where
  pub counted : s.client.active ≡ length s.running
  pub phase : Phase s.closer s

-- What a step of an operation keeps in every phase.
pub record Follows (s t : System) : Type 0 where
  pub exact : Exact s → Exact t
  pub used : All (InUse s.client) s.running → All (InUse t.client) t.running
  pub covered : (clients : List ℕ) → Covered clients s → Covered clients t
  pub alone : IsAlone s → IsAlone t
  pub shut_off : s.client.closed ≡ true → t.client.closed ≡ true

pub Phase-Follows : (c : Closer) (s t : System) → Follows s t → Phase c s → Phase c t
Phase-Follows absent s t f h = (f.exact h.0, f.used h.1)
Phase-Follows joining s t f h = (f.exact h.0, f.used h.1, f.shut_off h.2)
Phase-Follows (shutting clients) s t f h = (f.covered clients h.0, f.alone h.1)
Phase-Follows cleared s t f h = (f.covered [] h.0, f.alone h.1)
Phase-Follows ended s t f h = (f.covered [] h.0, f.alone h.1)

-- What a sweep closes was retired.
sweep-Beside : (others : ℕ → ℕ) (s : SmartClient) → Beside others s → Beside others (sweep s)
unfolding sweep
sweep-Beside others s h a = ground (arith, h a, times-append a s.retired s.shut)

install-Beside :
    (int_of : String → Option ℤ) (others : ℕ → ℕ) (t : Topology) (s : SmartClient)
    → Beside others s
    → Beside others (install int_of t s).1
install-Beside int_of others t s h =
    install_keeps int_of (Beside others) (connect-Beside others)
      (λ t u k. sweep-Beside others (record u { topology = t; ready = true }) k) t s
      (retire-Beside others t.targets s h)

sweep_leaves :
    (s : SmartClient)
    → ((sweep s).active ≡ s.active)
      × ((sweep s).closed ≡ s.closed)
      × (0 < s.active → (a : ℕ) → holds a (sweep s) ≡ holds a s)
unfolding sweep
sweep_leaves s = (ground arith, ground arith, λ busy a. ground arith)

-- what a new topology leaves, where it lets go of no client while operations are active
abbrev Left : SmartClient → SmartClient → Type 0
Left s u =
    (u.active ≡ s.active) × (u.closed ≡ s.closed) × (0 < s.active → (a : ℕ) → holds a s ≤ holds a u)

pub install-Left :
    (int_of : String → Option ℤ) (t : Topology) (s : SmartClient) → Left s (install int_of t s).1
unfolding retire connect
install-Left int_of t s =
    install_keeps int_of (Left s)
      (λ target u k. (
        k.0,
        k.1,
        λ busy a. omega (arith, k.2 busy a, objects-append a u.clients ((target, u.made) ∷ [])),
      ))
      (λ t u k.
        let v = record u { topology = t; ready = true } in
        let (same_active, same_closed, same) = sweep_leaves v in
        (
          same_active ∙ k.0,
          same_closed ∙ k.1,
          λ busy a. omega (arith, k.2 busy a, same (omega (arith, k.0)) a),
        ))
      t s
      (
        refl,
        refl,
        λ busy a. omega (
          arith,
          split_times a t.targets s.clients,
          times-append a s.retired (leaving t.targets s.clients),
        ),
      )

module _ (s : System) where
  -- The refreshing thread has a topology only before the client is closed.
  pub Phase-accept :
      (c : Closer) (t : Topology)
      → s.client.closed ≡ false
      → Phase c s
      → Phase c (record s { pending = some t })
  Phase-accept absent t e h = h
  Phase-accept joining t e h = h
  Phase-accept (shutting clients) t e h = let k = h.1.0 in absurd (cc)
  Phase-accept cleared t e h = let k = h.1.0 in absurd (cc)
  Phase-accept ended t e h = let k = h.1.0 in absurd (cc)

  pub Phase-apply :
      (int_of : String → Option ℤ) (c : Closer) (t : Topology)
      → s.pending ≡ some t
      → s.client.active ≡ length s.running
      → Phase c s
      → Phase c (record s { client = (install int_of t s.client).1; pending = none })
  Phase-apply int_of absent t e n h = (
    install-Beside int_of _ t s.client h.0,
    used_on s.client (install int_of t s.client).1 s.running
        (λ busy. (install-Left int_of t s.client).2 (omega (arith, n))) h.1,
  )
  Phase-apply int_of joining t e n h = (
    install-Beside int_of _ t s.client h.0,
    used_on s.client (install int_of t s.client).1 s.running
        (λ busy. (install-Left int_of t s.client).2 (omega (arith, n))) h.1,
    (install-Left int_of t s.client).1 ∙ h.2,
  )
  Phase-apply int_of (shutting clients) t e n h = let k = h.1.1 in absurd (cc)
  Phase-apply int_of cleared t e n h = let k = h.1.1 in absurd (cc)
  Phase-apply int_of ended t e n h = let k = h.1.1 in absurd (cc)
