-- ===== src/Smart/Objects.antt =====
-- Where the client objects are: each one made is in the dict, retired, closed, or with a thread that
-- is to close it, and at one place only. What each operation of the smart client does to that.
use hurricache_python_client.Base.{
  ℕ, ◌+◌, ◌≡◌, inl, inr, String, Bool, true, false, Option, List, [], ◌∷◌, ◌++◌, arith, ltb, ◌==◌,
  if◌then◌else◌, Bool-cases,
}
use hurricache_python_client.Base.Int.{ℤ}
use hurricache_python_client.Errors.{Result, ok, err}
use hurricache_python_client.Routing.{member}
use hurricache_python_client.Topology.{Topology}
use hurricache_python_client.Smart.Targets.{split_target}
use hurricache_python_client.Smart.{
  Clients, SmartClient, has_client, staying, leaving, retire, sweep, connect, connecting,
  connect_all, installed, install, objects,
}

abbrev pub times : ℕ → List ℕ → ℕ
times object [] = 0
times object (other ∷ others) = times object others + (if other == object then 1 else 0)

pub times-append :
    (object : ℕ) (before after : List ℕ)
    → times object (before ++ after) ≡ times object before + times object after
times-append object [] after = omega arith
times-append object (other ∷ others) after = omega (arith, times-append object others after)

pub objects-append :
    (a : ℕ) (cs ds : Clients)
    → times a (objects (cs ++ ds)) ≡ times a (objects cs) + times a (objects ds)
objects-append a [] ds = omega arith
objects-append a ((t, x) ∷ cs) ds = omega (arith, objects-append a cs ds)

-- how often an object stands in the dict, among the retired and among the closed
abbrev pub places : ℕ → SmartClient → ℕ
places a s = times a (objects s.clients) + times a s.retired + times a s.shut

pub split_times :
    (a : ℕ) (targets : List String) (cs : Clients)
    → times a (objects (staying targets cs)) + times a (leaving targets cs) ≡ times a (objects cs)
unfolding staying leaving
split_times a targets [] = omega arith
split_times a targets ((t, x) ∷ cs) = elim (Bool-cases (member t targets)) [
  | inl there ↦ rw there (omega (arith, split_times a targets cs))
  | inr gone ↦ rw gone (omega (arith, split_times a targets cs))
]

-- Every object made is at one place, these others counted, and there are no others.
abbrev pub Beside : (ℕ → ℕ) → SmartClient → Type 0
Beside others s = (a : ℕ) → places a s + others a ≡ (if ltb a s.made then 1 else 0)

pub retire-Beside :
    (others : ℕ → ℕ) (targets : List String) (s : SmartClient)
    → Beside others s
    → Beside others (retire targets s)
unfolding retire
retire-Beside others targets s h a = omega (
  arith,
  h a,
  split_times a targets s.clients,
  times-append a s.retired (leaving targets s.clients),
)

pub connect-Beside :
    (others : ℕ → ℕ) (target : String) (s : SmartClient)
    → Beside others s
    → Beside others (connect target s)
unfolding connect
connect-Beside others target s h a =
    ground (arith, h a, objects-append a s.clients ((target, s.made) ∷ []))

-- What each client made keeps, the loop keeps, whether it ends or raises.
module _ (int_of : String → Option ℤ) (P : SmartClient → Type 0)
    (kept : (target : String) (s : SmartClient) → P s → P (connect target s)) where
  round :
      (there : Bool) (parts : Result (String × ℤ)) (target : String)
      (rest : SmartClient → Result (Unit {0}) × SmartClient) (s : SmartClient)
      → ((t : SmartClient) → P t → P (rest t).1)
      → P s
      → P (connecting there parts target rest s).1
  round true parts target rest s k h = k s h
  round false (err error) target rest s k h = h
  round false (ok _) target rest s k h = k (connect target s) (kept target s h)

  pub connect_all_keeps :
      (targets : List String) (s : SmartClient) → P s → P (connect_all int_of targets s).1
  unfolding connect_all
  connect_all_keeps [] s h = h
  connect_all_keeps (target ∷ rest) s h =
      round (has_client target s.clients) (split_target int_of target) target
        (connect_all int_of rest) s (connect_all_keeps rest) h

-- What retiring and making clients keep, and what becomes of it with the new topology, hold after
-- `install`.
module _ (int_of : String → Option ℤ) (P : SmartClient → Type 0)
    (kept : (target : String) (s : SmartClient) → P s → P (connect target s))
    (done : (t : Topology) (s : SmartClient)
      → P s
      → P (sweep (record s { topology = t; ready = true }))) where
  last : (t : Topology) (r : Result (Unit {0}) × SmartClient) → P r.1 → P (installed int_of t r).1
  last t (err error, s) h = h
  last t (ok _, s) h = done t s h

  pub install_keeps :
      (t : Topology) (s : SmartClient) → P (retire t.targets s) → P (install int_of t s).1
  unfolding install
  install_keeps t s h =
      last t (connect_all int_of t.targets (retire t.targets s))
        (connect_all_keeps int_of P kept t.targets (retire t.targets s) h)
