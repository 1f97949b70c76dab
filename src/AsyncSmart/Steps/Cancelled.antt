-- ===== src/AsyncSmart/Steps/Cancelled.antt =====
-- What becomes of the clients that the refreshing task had still to close when `close` cancelled it.
use mathlib.Core.Path.{subst}
use hurricache_python_client.Base.{
  ℕ, ◌-◌, ◌<◌, ◌≡◌, refl, ap, ◌∙◌, String, Option, none, List, ◌∷◌, ◌++◌, arith, flatten,
}
use hurricache_python_client.Base.Int.{ℤ}
use hurricache_python_client.Smart.{enter, begin_close, objects}
use hurricache_python_client.Smart.Holding.{holds, times-take_out}
use hurricache_python_client.Smart.Objects.{times, times-append}
use hurricache_python_client.AsyncSmart.{detach, proceed, leave, to_shut, clear}
use hurricache_python_client.AsyncSmart.Steps.{
  Closer, absent, waiting, gathering, ended, System, initial, cut_off, Step, apply, refresh, start,
  stop, go_on, abandon, cancel, gather, shut_next, close, Run, unmoved, moved,
}
use hurricache_python_client.AsyncSmart.Steps.Places.{proceed_moves, detach_moves, times-more}
use hurricache_python_client.AsyncSmart.Steps.Phases.{Inv}
use hurricache_python_client.AsyncSmart.Steps.Safety.{closer-Phase, Run-Inv}

-- the state in which `close` has cancelled the refreshing task
abbrev pub cancelled : System → System
cancelled s = record s {
  client = begin_close s.client;
  refreshing = none;
  dropped = cut_off s.refreshing ++ s.dropped;
  closer = waiting;
}

-- `close` was called, and does not come to close the client.
abbrev Passed : ℕ → Closer → Type 0
Passed a absent = ⊥
Passed a waiting = Unit {0}
Passed a (gathering clients) = times a clients ≡ 0
Passed a ended = Unit {0}

-- No task will close the client, and none did.
record Lost (a : ℕ) (s : System) : Type 0 where
  idle : s.refreshing ≡ none
  unheld : holds a s.client ≡ 0
  unshut : times a s.client.shut ≡ 0
  unleft : times a (flatten s.leaving) ≡ 0
  passed : Passed a s.closer

module _ (int_of : String → Option ℤ) (a : ℕ) where
  closer-Passed : {c : Closer} (s : System) → Lost a s → s.closer ≡ c → Passed a c
  closer-Passed s h e = subst (Passed a) e h.passed

  Step-Lost : {s t : System} → Step int_of s t → Lost a s → Lost a t
  unfolding enter leave to_shut clear
  Step-Lost (apply s t e idle) h = absurd (closer-Passed s h e)
  Step-Lost (refresh s rest e) h = absurd (let i = h.idle in cc)
  Step-Lost (start s) h = record {
    idle = h.idle;
    unheld = h.unheld;
    unshut = h.unshut;
    unleft = h.unleft;
    passed = h.passed;
  }
  Step-Lost (stop s before after r e) h =
      let c = record s.client { active = s.client.active - 1 } in
      let (held, same_shut, _) = detach_moves a c in
      let (same_held, moved_on) = proceed_moves a (detach c).0 (detach c).1 in
      record {
        idle = h.idle;
        unheld = omega (arith, held, same_held, h.unheld);
        unshut = omega (arith, held, same_shut, moved_on, h.unheld, h.unshut);
        unleft = omega (
          arith,
          held,
          same_shut,
          moved_on,
          h.unheld,
          h.unshut,
          h.unleft,
          times-more a (proceed (detach c).0 (detach c).1).0 s.leaving,
        );
        passed = h.passed;
      }
  Step-Lost (go_on s before after rest e) h =
      let (same_held, moved_on) = proceed_moves a rest s.client in
      let split = ap (λ ls. times a (flatten ls)) e ∙ times-take_out a before after rest in
      record {
        idle = h.idle;
        unheld = same_held ∙ h.unheld;
        unshut = omega (arith, split, moved_on, h.unshut, h.unleft);
        unleft = omega (
          arith,
          split,
          moved_on,
          h.unshut,
          h.unleft,
          times-more a (proceed rest s.client).0 (before ++ after),
        );
        passed = h.passed;
      }
  Step-Lost (abandon s before after rest e) h =
      let split = ap (λ ls. times a (flatten ls)) e ∙ times-take_out a before after rest in
      record {
        idle = h.idle;
        unheld = h.unheld;
        unshut = h.unshut;
        unleft = omega (arith, split, h.unleft);
        passed = h.passed;
      }
  Step-Lost (cancel s e) h = absurd (closer-Passed s h e)
  Step-Lost (gather s e) h = record {
    idle = h.idle;
    unheld = h.unheld;
    unshut = h.unshut;
    unleft = h.unleft;
    passed = omega (arith, h.unheld, times-append a (objects s.client.clients) s.client.retired);
  }
  Step-Lost (shut_next s client rest e) h =
      let other : times a (client ∷ rest) ≡ 0 = closer-Passed s h e in
      record {
        idle = h.idle;
        unheld = h.unheld;
        unshut = omega (arith, h.unshut, other);
        unleft = h.unleft;
        passed = omega (arith, other);
      }
  Step-Lost (close s e) h = record {
    idle = h.idle;
    unheld = refl;
    unshut = h.unshut;
    unleft = h.unleft;
    passed = tt;
  }

  Run-Lost : {s t : System} → Run int_of s t → Lost a s → Lost a t
  Run-Lost unmoved h = h
  Run-Lost (moved r step) h = Step-Lost step (Run-Lost r h)

  cancelled-Lost :
      (s : System)
      → Inv s
      → s.closer ≡ absent
      → 0 < times a (cut_off s.refreshing)
      → Lost a (cancelled s)
  unfolding begin_close
  cancelled-Lost s h e there =
      let (exact, _) = closer-Phase s h e in
      record {
        idle = refl;
        unheld = ground (arith, exact a);
        unshut = ground (arith, exact a);
        unleft = ground (arith, exact a);
        passed = tt;
      }

-- If `close` cancels the refreshing task while that has retired clients still to close, none of
-- these clients is ever closed, whatever the tasks do from then on.
pub Run-cancelled :
    (int_of : String → Option ℤ) (coordinators : List String) (s t : System) (a : ℕ)
    → Run int_of (initial coordinators) s
    → s.closer ≡ absent
    → 0 < times a (cut_off s.refreshing)
    → Run int_of (cancelled s) t
    → times a t.client.shut ≡ 0
Run-cancelled int_of coordinators s t a r e there later =
    (Run-Lost int_of a later
      (cancelled-Lost int_of a s (Run-Inv int_of coordinators r) e there)).unshut
