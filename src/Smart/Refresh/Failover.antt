-- ===== src/Smart/Refresh/Failover.antt =====
-- One good coordinator is enough.
use mathlib.Core.Path.{subst}
use hurricache_python_client.Base.{
  leb, ℕ, zero, suc, ◌+◌, ◌-◌, ◌%◌, ◌≤◌, ◌<◌, ◌≡◌, refl, sym, ap, ◌∙◌, inl, inr, String, Bool, true,
  false, Option, none, some, List, [], ◌∷◌, arith, length, Bool-cases, if◌then◌else◌,
}
use native.Mathlib.Nat.{mod-lt, mod-eq_of_lt, mod-add-mod, add-mod_right}
use hurricache_python_client.Base.Int.{ℤ}
use hurricache_python_client.Errors.{Result, ok, err}
use hurricache_python_client.Topology.{Topology}
use hurricache_python_client.Smart.{
  SmartClient, has_client, connect, connecting, connect_all, install, installed, retire, sweep,
  apply_topology,
}
use hurricache_python_client.Smart.Targets.{split_target}
use hurricache_python_client.Smart.Objects.{install_keeps}
use hurricache_python_client.Smart.Refresh.{
  Answers, merge_stream, nth, turn, applied, asked, attempt_refresh, retried, attempts, numbered,
  refresh_once,
}

if_both : {A : Type 0} (P : A → Type 0) (b : Bool) (x y : A) → P x → P y → P (if b then x else y)
if_both P true x y h k = h
if_both P false x y h k = k

-- How a result starts: with a value, and no error.
abbrev pub Succeeds : Result (Unit {0}) × SmartClient → Type 0
Succeeds (ok _, s) = Unit {0}
Succeeds (err _, s) = ⊥

module _ (int_of : String → Option ℤ) where
  -- every target splits into a host and a port
  abbrev pub Reachable : List String → Type 0
  Reachable [] = Unit {0}
  Reachable (target ∷ rest) =
      ((host : String) × (port : ℤ) × (split_target int_of target ≡ ok (host, port)))
      × Reachable rest

  round :
      (there : Bool) (parts : Result (String × ℤ)) (target : String)
      (rest : SmartClient → Result (Unit {0}) × SmartClient) (s : SmartClient) (p : String × ℤ)
      → parts ≡ ok p
      → ((t : SmartClient) → Succeeds (rest t))
      → Succeeds (connecting there parts target rest s)
  round true parts target rest s p e k = k s
  round false (ok _) target rest s p e k = k (connect target s)
  round false (err error) target rest s p e k = absurd (cc)

  connect_all-Succeeds :
      (targets : List String) (s : SmartClient)
      → Reachable targets
      → Succeeds (connect_all int_of targets s)
  unfolding connect_all
  connect_all-Succeeds [] s h = tt
  connect_all-Succeeds (target ∷ rest) s ((host, port, e), h) =
      round (has_client target s.clients) (split_target int_of target) target
        (connect_all int_of rest) s (host, port) e (λ t. connect_all-Succeeds rest t h)

  last :
      (t : Topology) (r : Result (Unit {0}) × SmartClient)
      → Succeeds r
      → Succeeds (installed int_of t r)
  last t (ok _, s) h = tt
  last t (err _, s) h = h

  apply-Succeeds :
      (t : Topology) (s : SmartClient) → Reachable t.targets → Succeeds (apply_topology int_of t s)
  unfolding apply_topology install
  apply-Succeeds t s h =
      if_both Succeeds s.closed (ok tt, s) (install int_of t s) tt
        (last t (connect_all int_of t.targets (retire t.targets s))
          (connect_all-Succeeds t.targets (retire t.targets s) h))

  -- An answer that can be applied: its topology is accepted, and its targets split.
  abbrev pub Good : Answers → Type 0
  Good a = (t : Topology) × (merge_stream a ≡ ok t) × Reachable t.targets

  -- the coordinators stay, and so does the place of the next one
  abbrev At : List String → ℕ → SmartClient → Type 0
  At coordinators index s = (s.coordinators ≡ coordinators) × (s.coordinator_index ≡ index)

  apply-At :
      (coordinators : List String) (index : ℕ) (t : Topology) (s : SmartClient)
      → At coordinators index s
      → At coordinators index (apply_topology int_of t s).1
  unfolding apply_topology connect sweep retire
  apply-At coordinators index t s h =
      if_both (λ r. At coordinators index r.1) s.closed (ok tt, s) (install int_of t s) h
        (install_keeps int_of (At coordinators index) (λ target u k. k) (λ t u k. ground arith) t s
          h)

  module _ (ask : ℕ → String → Answers) where
    applied-At :
        (coordinators : List String) (index : ℕ) (r : Result Topology) (s : SmartClient)
        → At coordinators index s
        → At coordinators index (applied int_of ask r s).1
    applied-At coordinators index (err error) s h = h
    applied-At coordinators index (ok t) s h = apply-At coordinators index t s h

    asked-At :
        (address : Option String) (target : String) (s : SmartClient)
        → address ≡ some target
        → At s.coordinators (s.coordinator_index + 1) (asked int_of ask address s).1
    asked-At none target s e = absurd (cc)
    asked-At (some address) target s e =
        applied-At s.coordinators (s.coordinator_index + 1)
          (merge_stream (ask s.coordinator_index address)) _ (refl, refl)

    good_answer :
        (r : Result Topology) (t : Topology) (s : SmartClient)
        → r ≡ ok t
        → Reachable t.targets
        → Succeeds (applied int_of ask r s)
    good_answer (err error) t s e h = absurd (cc)
    good_answer (ok u) t s e h =
        let same : u ≡ t = cc in
        apply-Succeeds u s (subst (λ (v : Topology). Reachable v.targets) (sym same) h)

    module _ (address : String) (good : (k : ℕ) → Good (ask k address)) where
      asked-Succeeds :
          (there : Option String) (s : SmartClient)
          → there ≡ some address
          → Succeeds (asked int_of ask there s)
      asked-Succeeds there s e =
          subst (λ a. Succeeds (asked int_of ask a s)) (sym e)
            (good_answer (merge_stream (ask s.coordinator_index address))
              (good s.coordinator_index).0 _ (good s.coordinator_index).1
              (good s.coordinator_index).2)

      retried-Succeeds :
          (again : SmartClient → Result (Unit {0}) × SmartClient)
          (r : Result (Unit {0}) × SmartClient)
          → Succeeds (again r.1)
          → Succeeds (retried int_of ask again r)
      retried-Succeeds again (ok _, s) h = tt
      retried-Succeeds again (err _, s) h = h

      retried_first :
          (again : SmartClient → Result (Unit {0}) × SmartClient)
          (r : Result (Unit {0}) × SmartClient)
          → Succeeds r
          → Succeeds (retried int_of ask again r)
      retried_first again (ok _, s) h = tt
      retried_first again (err _, s) h = absurd h

      -- the coordinator that is asked now
      now :
          (coordinators : List String) (index : ℕ) (s : SmartClient) (target : String)
          → At coordinators index s
          → turn coordinators index ≡ some target
          → turn s.coordinators s.coordinator_index ≡ some target
      now coordinators index s target a e = rw (a.0, a.1) e

      next_At :
          (coordinators : List String) (index : ℕ) (s : SmartClient) (target : String)
          → At coordinators index s
          → turn coordinators index ≡ some target
          → At coordinators
              (index + 1)
              (asked int_of ask (turn s.coordinators s.coordinator_index) s).1
      next_At coordinators index s target a e =
          let h = asked-At _ target s (now coordinators index s target a e) in
          (h.0 ∙ a.0, h.1 ∙ ap (λ k. k + 1) a.1)

      -- A good coordinator is reached if its turn comes within the attempts.
      attempts-Succeeds :
          (coordinators : List String)
          → ((k : ℕ) → (target : String) × (turn coordinators k ≡ some target))
          → (more d index : ℕ) (s : SmartClient) → At coordinators index s
          → d ≤ more
          → turn coordinators (index + d) ≡ some address
          → Succeeds (attempts int_of ask more s)
      unfolding attempts attempt_refresh
      attempts-Succeeds coordinators turns zero d index s a h e =
          asked-Succeeds _ s
            (now coordinators index s address a (ap (turn coordinators) (omega arith) ∙ e))
      attempts-Succeeds coordinators turns (suc more) zero index s a h e =
          retried_first (attempts int_of ask more) _ (
            asked-Succeeds _ s
              (now coordinators index s address a (ap (turn coordinators) (omega arith) ∙ e)))
      attempts-Succeeds coordinators turns (suc more) (suc d) index s a h e =
          retried-Succeeds (attempts int_of ask more)
            (asked int_of ask (turn s.coordinators s.coordinator_index) s)
            (attempts-Succeeds coordinators turns more d (index + 1) _
              (next_At coordinators index s (turns index).0 a (turns index).1) (omega arith)
              (ap (turn coordinators) (omega arith) ∙ e))

      numbered-Succeeds :
          (n d : ℕ) (s : SmartClient)
          → ((k : ℕ) → (target : String) × (turn s.coordinators k ≡ some target))
          → d < n
          → turn s.coordinators (s.coordinator_index + d) ≡ some address
          → Succeeds (numbered int_of ask n s)
      numbered-Succeeds zero d s turns near e = absurd (omega arith)
      numbered-Succeeds (suc more) d s turns near e =
          attempts-Succeeds s.coordinators turns more d s.coordinator_index s (refl, refl)
            (omega arith) e

nth-some : (xs : List String) (i : ℕ) → i < length xs → (x : String) × (nth xs i ≡ some x)
nth-some [] i h = absurd (omega arith)
nth-some (x ∷ xs) zero h = (x, refl)
nth-some (x ∷ xs) (suc i) h = nth-some xs i (omega arith)

-- the rounds until the turn of a coordinator
wait : (n i j : ℕ) → i < n → (d : ℕ) × (d < n) × ((j + d) % n ≡ i)
wait n i j h =
    let below : j % n < n = mod-lt j (omega arith) in
    elim (Bool-cases (leb (j % n) i)) [
      | inl early ↦ (
        i - j % n,
        ground arith,
        sym (mod-add-mod j n (i - j % n)) ∙ (ap (λ k. k % n) (ground arith) ∙ mod-eq_of_lt h),
      )
      | inr late ↦ (
        i + n - j % n,
        ground arith,
        sym (mod-add-mod j n (i + n - j % n))
            ∙ (ap (λ k. k % n) (ground arith) ∙ (add-mod_right i n ∙ mod-eq_of_lt h)),
      )
    ]

-- If one of the coordinators answers, whenever it is asked, with a topology that is accepted and
-- whose targets split into host and port, one refresh succeeds, whatever the others answer and
-- whichever is asked first.
pub refresh_once-Succeeds :
    (int_of : String → Option ℤ) (ask : ℕ → String → Answers) (s : SmartClient) (address : String)
    (i : ℕ)
    → nth s.coordinators i ≡ some address
    → i < length s.coordinators
    → ((k : ℕ) → Good int_of (ask k address))
    → Succeeds (refresh_once int_of ask s)
unfolding refresh_once
refresh_once-Succeeds int_of ask s address i there within good =
    let (d, near, hit) = wait (length s.coordinators) i s.coordinator_index within in
    numbered-Succeeds int_of ask address good (length s.coordinators) d s
      (λ k. nth-some s.coordinators _ (mod-lt k (omega arith))) near
      (ap (nth s.coordinators) hit ∙ there)
