-- ===== src/AsyncSmart/Steps/Safety.antt =====
-- What every run of the tasks of an asynchronous smart client keeps, and what that says of the
-- clients: those that operations use are open before `close` gathers, and all are closed in the end.
use mathlib.Core.Path.{subst}
use hurricache_python_client.Base.{
  ℕ, suc, ◌+◌, ◌-◌, ◌<◌, ◌≡◌, refl, sym, ap, ◌∙◌, ◌⊎◌, inl, inr, String, Option, none, some, List,
  [], ◌∷◌, ◌++◌, arith, flatten, length, All,
}
use hurricache_python_client.Base.Int.{ℤ}
use hurricache_python_client.Topology.{Topology}
use hurricache_python_client.Smart.{Snapshot, new_client, enter, begin_close, objects}
use hurricache_python_client.Smart.Holding.{InUse, IsOpen, one_less, used_on}
use hurricache_python_client.Smart.Objects.{times, times-append}
use hurricache_python_client.AsyncSmart.{install, leave, to_shut, clear}
use hurricache_python_client.AsyncSmart.Steps.{
  Closer, absent, waiting, ended, System, initial, cut_off, to_close, Step, apply, refresh, start,
  stop, go_on, abandon, cancel, gather, shut_next, close, Run, unmoved, moved,
}
use hurricache_python_client.AsyncSmart.Steps.Places.{
  proceed_leaves, detach_leaves, install-Beside, install-holds, same_Beside,
}
use hurricache_python_client.AsyncSmart.Steps.Phases.{
  elsewhere, Exact, Phase, Inv, Phase-Follows, start-Follows, abandon-Follows, go_on-Follows,
  refresh-Follows, release-Follows,
}

-- the state at the `await` of `_apply_topology`, with all that was retired still to be closed
abbrev applying : (String → Option ℤ) → System → Topology → System
applying int_of s t = record s {
  client = (install int_of t s.client).1;
  refreshing = some (to_close (install int_of t s.client).0);
}

-- the state where an operation left, with all that it closes still to be closed
abbrev releasing : System → List Snapshot → List Snapshot → System
releasing s before after = record s {
  client = (leave s.client).1;
  running = before ++ after;
  leaving = (leave s.client).0 ∷ s.leaving;
}

module _ (s : System) (h : Inv s) where
  -- the phase that `close` is known to be in
  pub closer-Phase : {c : Closer} → s.closer ≡ c → Phase c s
  closer-Phase e = subst (λ c. Phase c s) e h.phase

  applying-Phase :
      (int_of : String → Option ℤ) (t : Topology)
      → s.closer ≡ absent
      → s.refreshing ≡ none
      → Phase absent (applying int_of s t)
  applying-Phase int_of t e idle =
      let (exact, used) = closer-Phase e in
      (
        same_Beside (λ a. times a (to_close (install int_of t s.client).0) + elsewhere s a)
            (elsewhere (applying int_of s t)) (install int_of t s.client).1
            (λ a. omega (arith, ap (λ r. times a (cut_off r)) idle))
            (install-Beside int_of (elsewhere s) t s.client exact),
        used_on s.client (install int_of t s.client).1 s.running
            (λ busy. (install-holds int_of t s.client).1 (omega (arith, h.counted))) used,
      )

module _ (int_of : String → Option ℤ) where
  Step-Inv : {s t : System} → Step int_of s t → Inv s → Inv t
  unfolding enter begin_close leave to_shut clear
  Step-Inv (apply s t e idle) h =
      let (r, c) = install int_of t s.client in
      record {
        counted =
            (proceed_leaves (to_close r) c).0 ∙ (install-holds int_of t s.client).0 ∙ h.counted;
        phase =
            Phase-Follows s.closer (applying int_of s t) _
              (refresh-Follows (applying int_of s t) (to_close r) refl)
              (subst (λ c. Phase c (applying int_of s t)) (sym e)
                (applying-Phase s h int_of t e idle));
      }
  Step-Inv (refresh s rest e) h = record {
    counted = (proceed_leaves rest s.client).0 ∙ h.counted;
    phase = Phase-Follows s.closer s _ (refresh-Follows s rest e) h.phase;
  }
  Step-Inv (start s) h = record {
    counted = omega (arith, h.counted);
    phase = Phase-Follows s.closer s _ (start-Follows s) h.phase;
  }
  Step-Inv (stop s before after r e) h =
      let n : s.client.active ≡ suc (length (before ++ after)) =
        h.counted ∙ one_less before after s.running r e in
      let (retired, c) = leave s.client in
      record {
        counted = omega (
          arith,
          n,
          (proceed_leaves retired c).0,
          (detach_leaves (record s.client { active = s.client.active - 1 })).0,
        );
        phase =
            Phase-Follows s.closer (releasing s before after) _
              (go_on-Follows (releasing s before after) [] s.leaving retired refl)
              (Phase-Follows s.closer s (releasing s before after)
                (release-Follows s before after r e n) h.phase);
      }
  Step-Inv (go_on s before after rest e) h = record {
    counted = (proceed_leaves rest s.client).0 ∙ h.counted;
    phase = Phase-Follows s.closer s _ (go_on-Follows s before after rest e) h.phase;
  }
  Step-Inv (abandon s before after rest e) h = record {
    counted = h.counted;
    phase = Phase-Follows s.closer s _ (abandon-Follows s before after rest e) h.phase;
  }
  Step-Inv (cancel s e) h =
      let (exact, used) = closer-Phase s h e in
      record {
        counted = h.counted;
        phase = (
          λ a. omega (arith, exact a, times-append a (cut_off s.refreshing) s.dropped),
          used,
          refl,
        );
      }
  Step-Inv (gather s e) h =
      let (exact, used, idle) = closer-Phase s h e in
      record {
        counted = h.counted;
        phase = (
          λ a lt. ground (
            arith,
            exact a,
            times-append a (objects s.client.clients) s.client.retired,
            ap (λ r. times a (cut_off r)) idle,
          ),
          idle,
        );
      }
  Step-Inv (shut_next s c rest e) h =
      let (covered, idle) = closer-Phase s h e in
      record { counted = h.counted; phase = (λ a lt. omega (arith, covered a lt), idle) }
  Step-Inv (close s e) h =
      let (covered, idle) = closer-Phase s h e in
      record { counted = h.counted; phase = (covered, idle, refl, refl) }

  initial-Inv : (coordinators : List String) → Inv (initial coordinators)
  unfolding new_client
  initial-Inv coordinators = record { counted = refl; phase = (λ a. ground arith, tt) }

  pub Run-Inv :
      (coordinators : List String) {s : System} → Run int_of (initial coordinators) s → Inv s
  Run-Inv coordinators unmoved = initial-Inv coordinators
  Run-Inv coordinators (moved r step) = Step-Inv step (Run-Inv coordinators r)

  -- A client that an operation uses is at no other place, so it is not closed.
  used_IsOpen :
      (s : System) (running : List Snapshot)
      → Exact s
      → All (InUse s.client) running
      → All (IsOpen s.client.shut) running
  used_IsOpen s [] exact h = tt
  used_IsOpen s (r ∷ rs) exact h =
      (λ a there. ground (arith, exact a, h.0 a there), used_IsOpen s rs exact h.1)

  -- However the tasks of an asynchronous smart client alternate at their `await`s, until `close`
  -- comes to its `gather` no operation that runs has a client in its snapshot whose close was
  -- called.
  pub Run-StillOpen :
      (coordinators : List String) (s : System)
      → Run int_of (initial coordinators) s
      → (s.closer ≡ absent) ⊎ (s.closer ≡ waiting)
      → All (IsOpen s.client.shut) s.running
  Run-StillOpen coordinators s r (inl e) =
      let (exact, used) = closer-Phase s (Run-Inv coordinators r) e in
      used_IsOpen s s.running exact used
  Run-StillOpen coordinators s r (inr e) =
      let (exact, used, _) = closer-Phase s (Run-Inv coordinators r) e in
      used_IsOpen s s.running exact used

  -- However the tasks of an asynchronous smart client alternated at their `await`s, once `close` is
  -- at its end and no operation is in its `finally`, every client that was made has been closed, or
  -- was still to be closed by a loop that a cancellation cut off.
  pub Run-shut_or_dropped :
      (coordinators : List String) (s : System)
      → Run int_of (initial coordinators) s
      → s.closer ≡ ended
      → s.leaving ≡ []
      → (a : ℕ) → a < s.client.made
      → 0 < times a s.client.shut + times a s.dropped
  Run-shut_or_dropped coordinators s r e none_left a lt = omega (
    arith,
    (closer-Phase s (Run-Inv coordinators r) e).0 a lt,
    ap (λ ls. times a (flatten ls)) none_left,
  )
