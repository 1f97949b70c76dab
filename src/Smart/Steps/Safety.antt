-- ===== src/Smart/Steps/Safety.antt =====
-- What every run of the threads of a smart client keeps, and what that says of the clients: those
-- that operations use are open before the close comes to close them, and all are closed in the end.
use mathlib.Core.Path.{subst}
use hurricache_python_client.Base.{
  ℕ, suc, ◌<◌, ◌≡◌, refl, ap, ◌∙◌, ◌⊎◌, inl, inr, String, Option, List, [], ◌∷◌, ◌++◌, arith,
  flatten, length, All,
}
use hurricache_python_client.Base.Int.{ℤ}
use hurricache_python_client.Smart.{
  Snapshot, new_client, enter, shut_all, begin_close, to_shut, clear, reset_retired, objects,
}
use hurricache_python_client.Smart.Holding.{InUse, IsOpen, one_less}
use hurricache_python_client.Smart.Objects.{times, times-append}
use hurricache_python_client.Smart.Steps.{
  Closer, absent, joining, ended, System, initial, Step, accept, apply, start, stop, shut_left,
  gone, closing, lock, shut_next, unlock, reset, Run, unmoved, moved,
}
use hurricache_python_client.Smart.Steps.Phases.{
  Exact, Phase, Inv, Phase-Follows, install-Left, Phase-accept, Phase-apply,
}
use hurricache_python_client.Smart.Steps.Operations.{
  release_leaves, start-Follows, stop-Follows, shut_left-Follows, gone-Follows,
}

-- the phase that the close is known to be in
known_Phase : (s : System) → Inv s → {c : Closer} → s.closer ≡ c → Phase c s
known_Phase s h e = subst (λ c. Phase c s) e h.phase

module _ (int_of : String → Option ℤ) where
  Step-Inv : {s t : System} → Step int_of s t → Inv s → Inv t
  unfolding enter begin_close shut_all to_shut clear reset_retired
  Step-Inv (accept s t e idle) h = record {
    counted = h.counted;
    phase = Phase-accept s s.closer t e h.phase;
  }
  Step-Inv (apply s t free e) h = record {
    counted = (install-Left int_of t s.client).0 ∙ h.counted;
    phase = Phase-apply s int_of s.closer t e h.counted h.phase;
  }
  Step-Inv (start s free) h = record {
    counted = omega (arith, h.counted);
    phase = Phase-Follows s.closer s _ (start-Follows s) h.phase;
  }
  Step-Inv (stop s before after r free e) h =
      let n : s.client.active ≡ suc (length (before ++ after)) =
        h.counted ∙ one_less before after s.running r e in
      record {
        counted = omega (arith, n, (release_leaves s.client).0);
        phase = Phase-Follows s.closer s _ (stop-Follows s before after r e n) h.phase;
      }
  Step-Inv (shut_left s before after c rest e) h = record {
    counted = h.counted;
    phase = Phase-Follows s.closer s _ (shut_left-Follows s before after c rest e) h.phase;
  }
  Step-Inv (gone s before after e) h = record {
    counted = h.counted;
    phase = Phase-Follows s.closer s _ (gone-Follows s before after e) h.phase;
  }
  Step-Inv (closing s open_still e) h =
      let (exact, used) = known_Phase s h e in
      record { counted = h.counted; phase = (exact, used, refl) }
  Step-Inv (lock s e idle) h =
      let (exact, used, closed_now) = known_Phase s h e in
      record {
        counted = h.counted;
        phase = (
          λ a lt.
              ground (arith, exact a, times-append a (objects s.client.clients) s.client.retired),
          (closed_now, idle),
        );
      }
  Step-Inv (shut_next s c rest e) h =
      let (covered, alone) = known_Phase s h e in
      record { counted = h.counted; phase = (λ a lt. omega (arith, covered a lt), alone) }
  Step-Inv (unlock s e) h = record { counted = h.counted; phase = known_Phase s h e }
  Step-Inv (reset s e) h = record { counted = h.counted; phase = known_Phase s h e }

  initial-Inv : (coordinators : List String) → Inv (initial coordinators)
  unfolding new_client
  initial-Inv coordinators = record { counted = refl; phase = (λ a. ground arith, tt) }

  Run-Inv : (coordinators : List String) {s : System} → Run int_of (initial coordinators) s → Inv s
  Run-Inv coordinators unmoved = initial-Inv coordinators
  Run-Inv coordinators (moved r step) = Step-Inv step (Run-Inv coordinators r)

  -- A client that an operation uses is at no other place, so it is not closed.
  used_IsOpen :
      (s : System) (running : List Snapshot)
      → Exact s
      → All (InUse s.client) running
      → All (IsOpen s.client.shut) running
  used_IsOpen s [] exact h = tt
  used_IsOpen s (r ∷ rs) exact h =
      (λ a there. ground (arith, exact a, h.0 a there), used_IsOpen s rs exact h.1)

  -- However operations, topologies and the close of a smart client alternate, where the refreshing
  -- thread ends before the close goes on, until the close takes the lock to close the clients no
  -- operation that runs has a client in its snapshot that was closed.
  pub Run-IsOpen :
      (coordinators : List String) (s : System)
      → Run int_of (initial coordinators) s
      → (s.closer ≡ absent) ⊎ (s.closer ≡ joining)
      → All (IsOpen s.client.shut) s.running
  Run-IsOpen coordinators s r (inl e) =
      let (exact, used) = known_Phase s (Run-Inv coordinators r) e in
      used_IsOpen s s.running exact used
  Run-IsOpen coordinators s r (inr e) =
      let (exact, used, _) = known_Phase s (Run-Inv coordinators r) e in
      used_IsOpen s s.running exact used

  -- However operations, topologies and the close of a smart client alternated, where the refreshing
  -- thread ended before the close went on, once the close is at its end and no operation is at the
  -- closes of its `finally`, every client that was made has been closed, once at least.
  pub Run-shut :
      (coordinators : List String) (s : System)
      → Run int_of (initial coordinators) s
      → s.closer ≡ ended
      → s.leaving ≡ []
      → (a : ℕ) → a < s.client.made
      → 0 < times a s.client.shut
  Run-shut coordinators s r e none_left a lt = omega (
    arith,
    (known_Phase s (Run-Inv coordinators r) e).0 a lt,
    ap (λ ls. times a (flatten ls)) none_left,
  )
