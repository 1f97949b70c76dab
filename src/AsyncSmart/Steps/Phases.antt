-- ===== src/AsyncSmart/Steps/Phases.antt =====
-- What the tasks of operations and of the refresh keep, in each phase of `close`.
use mathlib.Core.Path.{subst}
use hurricache_python_client.Base.{
  ℕ, suc, ◌+◌, ◌-◌, ◌<◌, ◌≡◌, refl, ap, ◌∙◌, none, some, List, [], ◌∷◌, ◌++◌, arith, flatten,
  length, All,
}
use hurricache_python_client.Smart.{Snapshot, enter}
use hurricache_python_client.Smart.Holding.{InUse, used_on, All-remove, times-take_out}
use hurricache_python_client.Smart.Objects.{times, times-append, Beside}
use hurricache_python_client.AsyncSmart.{detach, proceed, leave}
use hurricache_python_client.AsyncSmart.Steps.{
  Closer, absent, waiting, gathering, ended, System, more, cut_off,
}
use hurricache_python_client.AsyncSmart.Steps.Places.{
  detach_moves, detach_leaves, detach-Beside, same_Beside,
}

-- how often a task has still to close an object, or dropped it
abbrev pub elsewhere : System → ℕ → ℕ
elsewhere s a = times a (cut_off s.refreshing) + times a (flatten s.leaving) + times a s.dropped

abbrev pub Exact : System → Type 0
Exact s = Beside (elsewhere s) s.client

-- every client made is closed, or is one of these, or is with an operation that left, or dropped
abbrev pub Covered : List ℕ → System → Type 0
Covered clients s =
    (a : ℕ)
    → a < s.client.made
    → 0 < times a s.client.shut + times a clients + times a (flatten s.leaving) + times a s.dropped

abbrev pub Phase : Closer → System → Type 0
Phase absent s = Exact s × All (InUse s.client) s.running
Phase waiting s = Exact s × All (InUse s.client) s.running × (s.refreshing ≡ none)
Phase (gathering clients) s = Covered clients s × (s.refreshing ≡ none)
Phase ended s =
    Covered [] s × (s.refreshing ≡ none) × (s.client.clients ≡ []) × (s.client.retired ≡ [])

pub record Inv (s : System) : Type 0 where
  pub counted : s.client.active ≡ length s.running
  pub phase : Phase s.closer s

-- What a step of an operation, or of the refreshing task, keeps in every phase.
pub record Follows (s t : System) : Type 0 where
  exact : Exact s → Exact t
  used : All (InUse s.client) s.running → All (InUse t.client) t.running
  covered : (clients : List ℕ) → Covered clients s → Covered clients t
  alone : s.refreshing ≡ none → t.refreshing ≡ none
  empty : s.client.clients ≡ [] → t.client.clients ≡ []
  swept : s.client.retired ≡ [] → t.client.retired ≡ []

pub Phase-Follows : (c : Closer) (s t : System) → Follows s t → Phase c s → Phase c t
Phase-Follows absent s t f h = (f.exact h.0, f.used h.1)
Phase-Follows waiting s t f h = (f.exact h.0, f.used h.1, f.alone h.2)
Phase-Follows (gathering clients) s t f h = (f.covered clients h.0, f.alone h.1)
Phase-Follows ended s t f h = (f.covered [] h.0, f.alone h.1, f.empty h.2, f.swept h.3)

module _ (s : System) where
  pub start-Follows :
      Follows s (record s { client = (enter s.client).1; running = (enter s.client).0 ∷ s.running })
  unfolding enter
  start-Follows = record {
    exact = λ h. h;
    used = λ h. (λ a there. omega (arith, there), h);
    covered = λ clients h. h;
    alone = λ h. h;
    empty = λ h. h;
    swept = λ h. h;
  }

  pub abandon-Follows :
      (before after : List (List ℕ)) (rest : List ℕ)
      → s.leaving ≡ before ++ rest ∷ after
      → Follows s (record s { leaving = before ++ after; dropped = rest ++ s.dropped })
  abandon-Follows before after rest e =
      let split =
        λ (a : ℕ). ap (λ ls. times a (flatten ls)) e ∙ times-take_out a before after rest in
      record {
        exact = λ h a. omega (arith, h a, split a, times-append a rest s.dropped);
        used = λ h. h;
        covered = λ clients h a lt. omega (arith, h a lt, split a, times-append a rest s.dropped);
        alone = λ h. h;
        empty = λ h. h;
        swept = λ h. h;
      }

  pub go_on-Follows :
      (before after : List (List ℕ)) (rest : List ℕ)
      → s.leaving ≡ before ++ rest ∷ after
      → Follows s (record s {
        client = (proceed rest s.client).1;
        leaving = more (proceed rest s.client).0 (before ++ after);
      })
  unfolding proceed
  go_on-Follows before after [] e =
      let split = λ (a : ℕ). ap (λ ls. times a (flatten ls)) e ∙ times-take_out a before after [] in
      record {
        exact = λ h a. omega (arith, h a, split a);
        used = λ h. h;
        covered = λ clients h a lt. omega (arith, h a lt, split a);
        alone = λ h. h;
        empty = λ h. h;
        swept = λ h. h;
      }
  go_on-Follows before after (c ∷ rest) e =
      let split =
        λ (a : ℕ). ap (λ ls. times a (flatten ls)) e ∙ times-take_out a before after (c ∷ rest) in
      record {
        exact = λ h a. omega (arith, h a, split a, times-append a rest (flatten (before ++ after)));
        used = λ h. h;
        covered = λ clients h a lt.
            omega (arith, h a lt, split a, times-append a rest (flatten (before ++ after)));
        alone = λ h. h;
        empty = λ h. h;
        swept = λ h. h;
      }

  pub refresh-Follows :
      (rest : List ℕ)
      → s.refreshing ≡ some rest
      → Follows s
          (record s { client = (proceed rest s.client).1; refreshing = (proceed rest s.client).0 })
  unfolding proceed
  refresh-Follows [] e =
      let held = λ (a : ℕ). ap (λ r. times a (cut_off r)) e in
      record {
        exact = λ h a. omega (arith, h a, held a);
        used = λ h. h;
        covered = λ clients h. h;
        alone = λ _. refl;
        empty = λ h. h;
        swept = λ h. h;
      }
  refresh-Follows (c ∷ rest) e =
      let held = λ (a : ℕ). ap (λ r. times a (cut_off r)) e in
      record {
        exact = λ h a. omega (arith, h a, held a);
        used = λ h. h;
        covered = λ clients h a lt. omega (arith, h a lt);
        alone = λ h. absurd (cc);
        empty = λ h. h;
        swept = λ h. h;
      }

  -- an operation leaves, with the clients that it then closes
  pub release-Follows :
      (before after : List Snapshot) (snapshot : Snapshot)
      → s.running ≡ before ++ snapshot ∷ after
      → s.client.active ≡ suc (length (before ++ after))
      → Follows s (record s {
        client = (leave s.client).1;
        running = before ++ after;
        leaving = (leave s.client).0 ∷ s.leaving;
      })
  unfolding leave
  release-Follows before after snapshot e n =
      let c = record s.client { active = s.client.active - 1 } in
      let (_, same_made, same_clients, none_retired) = detach_leaves c in
      let left = record s {
        client = (detach c).1;
        running = before ++ after;
        leaving = (detach c).0 ∷ s.leaving;
      } in
      record {
        exact = λ h a.
            same_Beside (λ b. times b (detach c).0 + elsewhere s b) (elsewhere left) (detach c).1
              (λ b. omega (arith, times-append b (detach c).0 (flatten s.leaving)))
              (detach-Beside (elsewhere s) c h) a;
        used = λ h.
            used_on s.client (detach c).1 (before ++ after)
              (λ busy a. omega (arith, (detach_moves a c).2 (omega (arith, n))))
              (All-remove (InUse s.client) before after snapshot
                (subst (All (InUse s.client)) e h));
        covered = λ clients h a lt. omega (
          arith,
          h a (omega (arith, same_made)),
          (detach_moves a c).1,
          times-append a (detach c).0 (flatten s.leaving),
        );
        alone = λ h. h;
        empty = λ h. same_clients ∙ h;
        swept = none_retired;
      }
