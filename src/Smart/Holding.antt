-- ===== src/Smart/Holding.antt =====
-- Which clients the operations that run may call: those of their snapshots, which the smart client
-- holds, in its dict or among the retired.
use hurricache_python_client.Base.{
  ℕ, suc, ◌+◌, ◌≤◌, ◌<◌, ◌≡◌, ap, List, [], ◌∷◌, ◌++◌, arith, All, flatten, length, length-append,
}
use hurricache_python_client.Smart.{SmartClient, Snapshot, objects}
use hurricache_python_client.Smart.Objects.{times, times-append}

-- how often an object stands in the dict and among the retired
abbrev pub holds : ℕ → SmartClient → ℕ
holds a s = times a (objects s.clients) + times a s.retired

-- the clients of a snapshot are in the dict or retired
abbrev pub InUse : SmartClient → Snapshot → Type 0
InUse c snapshot = (a : ℕ) → 0 < times a (objects snapshot.clients) → 0 < holds a c

pub still_used :
    (c d : SmartClient) (running : List Snapshot)
    → ((a : ℕ) → holds a c ≤ holds a d)
    → All (InUse c) running
    → All (InUse d) running
still_used c d [] e h = tt
still_used c d (r ∷ rs) e h = (λ a there. omega (arith, e a, h.0 a there), still_used c d rs e h.1)

-- a change of the client that no operation notices, if one is active
pub used_on :
    (c d : SmartClient) (running : List Snapshot)
    → (0 < length running → (a : ℕ) → holds a c ≤ holds a d)
    → All (InUse c) running
    → All (InUse d) running
used_on c d [] e h = tt
used_on c d (r ∷ rs) e h = still_used c d (r ∷ rs) (e (omega arith)) h

-- The clients of a snapshot are not closed.
abbrev pub IsOpen : List ℕ → Snapshot → Type 0
IsOpen shut snapshot = (a : ℕ) → 0 < times a (objects snapshot.clients) → times a shut ≡ 0

-- one operation less
pub All-remove :
    {A : Type 0} (P : A → Type 0) (xs ys : List A) (y : A) → All P (xs ++ y ∷ ys) → All P (xs ++ ys)
All-remove P [] ys y h = h.1
All-remove P (x ∷ xs) ys y h = (h.0, All-remove P xs ys y h.1)

-- the snapshots that are left, once one operation ends
pub one_less :
    (before after running : List Snapshot) (r : Snapshot)
    → running ≡ before ++ r ∷ after
    → length running ≡ suc (length (before ++ after))
one_less before after running r e =
    omega (arith, ap length e, length-append before (r ∷ after), length-append before after)

-- the loops of the operations that left, with one taken out
pub times-take_out :
    (a : ℕ) (before after : List (List ℕ)) (rest : List ℕ)
    → times a (flatten (before ++ rest ∷ after))
      ≡ times a rest + times a (flatten (before ++ after))
times-take_out a [] after rest = omega (arith, times-append a rest (flatten after))
times-take_out a (other ∷ before) after rest = omega (
  arith,
  times-append a other (flatten (before ++ rest ∷ after)),
  times-append a other (flatten (before ++ after)),
  times-take_out a before after rest,
)
