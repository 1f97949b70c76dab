-- ===== src/Smart/Steps/Operations.antt =====
-- What each step of an operation keeps, in every phase of the close of a smart client.
use mathlib.Core.Path.{subst}
use hurricache_python_client.Base.{
  ℕ, suc, ◌+◌, ◌-◌, ◌<◌, ◌≡◌, ap, ◌∙◌, List, [], ◌∷◌, ◌++◌, arith, flatten, length, All,
}
use hurricache_python_client.Smart.{SmartClient, Snapshot, enter, release, shut_all}
use hurricache_python_client.Smart.Holding.{holds, InUse, used_on, All-remove, times-take_out}
use hurricache_python_client.Smart.Objects.{times, times-append}
use hurricache_python_client.Smart.Steps.{System}
use hurricache_python_client.Smart.Steps.Phases.{Follows}

-- What the last section of an operation takes out of the client is what it then closes.
release_moves :
    (a : ℕ) (s : SmartClient)
    → (holds a (release s).1 + times a (release s).0 ≡ holds a s)
      × (1 < s.active → holds a (release s).1 ≡ holds a s)
unfolding release
release_moves a s = ground arith

pub release_leaves :
    (s : SmartClient)
    → ((release s).1.active ≡ s.active - 1)
      × ((release s).1.made ≡ s.made)
      × ((release s).1.closed ≡ s.closed)
      × ((release s).1.shut ≡ s.shut)
unfolding release
release_leaves s = (ground arith, ground arith, ground arith, ground arith)

module _ (s : System) where
  pub start-Follows :
      Follows s (record s { client = (enter s.client).1; running = (enter s.client).0 ∷ s.running })
  unfolding enter
  start-Follows = record {
    exact = λ h. h;
    used = λ h. (λ a there. omega (arith, there), h);
    covered = λ clients h. h;
    alone = λ h. h;
    shut_off = λ h. h;
  }

  pub stop-Follows :
      (before after : List Snapshot) (snapshot : Snapshot)
      → s.running ≡ before ++ snapshot ∷ after
      → s.client.active ≡ suc (length (before ++ after))
      → Follows s (record s {
        client = (release s.client).1;
        running = before ++ after;
        leaving = (release s.client).0 ∷ s.leaving;
      })
  stop-Follows before after snapshot e n =
      let (retired, c) = release s.client in
      let (_, same_made, same_closed, same_shut) = release_leaves s.client in
      let in_front = λ (a : ℕ). times-append a retired (flatten s.leaving) in
      let still_shut = λ (a : ℕ). ap (times a) same_shut in
      record {
        exact = λ h a.
            ground (arith, h a, in_front a, still_shut a, (release_moves a s.client).0, same_made);
        used = λ h.
            used_on s.client c (before ++ after)
              (λ busy a. omega (arith, (release_moves a s.client).1 (omega (arith, n))))
              (All-remove (InUse s.client) before after snapshot
                (subst (All (InUse s.client)) e h));
        covered = λ clients h a lt.
            omega (arith, h a (omega (arith, same_made)), in_front a, still_shut a);
        alone = λ h. (same_closed ∙ h.0, h.1);
        shut_off = λ h. same_closed ∙ h;
      }

  pub shut_left-Follows :
      (before after : List (List ℕ)) (c : ℕ) (rest : List ℕ)
      → s.leaving ≡ before ++ (c ∷ rest) ∷ after
      → Follows s
          (record s { client = shut_all (c ∷ []) s.client; leaving = before ++ rest ∷ after })
  unfolding shut_all
  shut_left-Follows before after c rest e =
      let was =
        λ (a : ℕ). ap (λ ls. times a (flatten ls)) e ∙ times-take_out a before after (c ∷ rest) in
      let is = λ (a : ℕ). times-take_out a before after rest in
      record {
        exact = λ h a. omega (arith, h a, was a, is a);
        used = λ h. h;
        covered = λ clients h a lt. omega (arith, h a lt, was a, is a);
        alone = λ h. h;
        shut_off = λ h. h;
      }

  pub gone-Follows :
      (before after : List (List ℕ))
      → s.leaving ≡ before ++ [] ∷ after
      → Follows s (record s { leaving = before ++ after })
  gone-Follows before after e =
      let same = λ (a : ℕ). ap (λ ls. times a (flatten ls)) e ∙ times-take_out a before after [] in
      record {
        exact = λ h a. omega (arith, h a, same a);
        used = λ h. h;
        covered = λ clients h a lt. omega (arith, h a lt, same a);
        alone = λ h. h;
        shut_off = λ h. h;
      }
