-- ===== src/Approval/Laws.antt =====
-- internal/approval/manager.go: the invariant of the manager and what it says of Wait.
use scia.Base.{
  String, List, [], ◌∷◌, ◌++◌, true, false, ◌==◌, none, some, ◌≡◌, ◌≢◌, ◌⊎◌, inl, inr, sym, ◌∙◌,
  subst, ap, lookup, insert, lookup-insert, if-cases, arith, All, All_imp, eq_iff,
}
use scia.Approval.{
  Status, Outcome, Outcome.decided, Outcome.timed_out, Outcome.cancelled, Waiter, Manager,
  valid_status, resolve, is_pending, start, send_to, finish, Step, Steps, Reachable,
}

-- At an earlier state of the run, a call of Resolve with the status found the request waiting, and the
-- run went on from what that call left.
pub record Decided (m : Manager) (id : String) (status : Status) : Type 0 where
  pub earlier : Manager
  pub reached : Reachable earlier
  pub waiting : is_pending earlier id ≡ true
  pub valid : valid_status status ≡ true
  pub found : (resolve earlier id status).1 ≡ true
  pub since : Steps (resolve earlier id status).0 m

Decided-Step :
    (m n : Manager) (id : String) (status : Status)
    → Step m n
    → Decided m id status
    → Decided n id status
Decided-Step m n id status s d = record {
  earlier = d.earlier;
  reached = d.reached;
  waiting = d.waiting;
  valid = d.valid;
  found = d.found;
  since = Steps.more d.since s;
}

-- What holds in every reachable state.
pub record IsSound (m : Manager) : Type 0 where
  pub sends : All (λ e. Decided m e.0 e.1) m.sending
  pub channels :
      (id : String) (w : Waiter) (s : Status)
      → lookup id m.waiters ≡ some w
      → w.done ≡ some s
      → Decided m id s
  pub outcomes :
      (id : String) (w : Waiter) (s : Status)
      → lookup id m.waiters ≡ some w
      → w.outcome ≡ some (decided s)
      → Decided m id s

lookup-insert-cases :
    (id j : String) (v w : Waiter) (ws : List (String × Waiter))
    → lookup j (insert id v ws) ≡ some w
    → ((id ≡ j) × (v ≡ w)) ⊎ (lookup j ws ≡ some w)
lookup-insert-cases id j v w ws h =
    if-cases (λ o. o ≡ some w → ((id ≡ j) × (v ≡ w)) ⊎ (lookup j ws ≡ some w)) (id == j) (some v)
      (lookup j ws) (λ e k. inl ((eq_iff id j).0 e, some-eq k)) (λ e k. inr k)
      (sym (lookup-insert id j v ws) ∙ h)
  where
    some-eq : {x y : Waiter} → some x ≡ some y → x ≡ y
    some-eq h = cc

-- A step that puts a waiter under an id keeps the invariant if what the waiter holds is decided.
set-IsSound :
    (m : Manager) (id : String) (v : Waiter) (sending : List (String × Status))
    → Step m (record m { waiters = insert id v m.waiters; sending = sending })
    → IsSound m
    → All (λ e. Decided m e.0 e.1) sending
    → ((s : Status) → v.done ≡ some s → Decided m id s)
    → ((s : Status) → v.outcome ≡ some (decided s) → Decided m id s)
    → IsSound (record m { waiters = insert id v m.waiters; sending = sending })
set-IsSound m id v sending t i a d o =
    let n = record m { waiters = insert id v m.waiters; sending = sending } in
    record {
      sends = All_imp _ _ _ (λ e x. Decided-Step m n e.0 e.1 t x) a;
      channels = λ j w s h e.
          Decided-Step m n j s t (elim (lookup-insert-cases id j v w m.waiters h) [
            | inl (p, q) ↦ subst (λ k. Decided m k s) p (d s (ap (λ u. u.done) q ∙ e))
            | inr k ↦ i.channels j w s k e
          ]);
      outcomes = λ j w s h e.
          Decided-Step m n j s t (elim (lookup-insert-cases id j v w m.waiters h) [
            | inl (p, q) ↦ subst (λ k. Decided m k s) p (o s (ap (λ u. u.outcome) q ∙ e))
            | inr k ↦ i.outcomes j w s k e
          ]);
    }

-- A call of Resolve leaves the waiters, and sends what it was given, if it found the request.
resolve-cases :
    (m : Manager) (id : String) (status : Status)
    → (resolve m id status ≡ (m, false))
      ⊎ ((valid_status status ≡ true)
          × (is_pending m id ≡ true)
          × (resolve m id status ≡ (record m { sending = (id, status) ∷ m.sending }, true)))
unfolding resolve
resolve-cases m id status = ground arith

resolve-IsSound :
    (m : Manager) (id : String) (status : Status)
    → Reachable m
    → IsSound m
    → IsSound (resolve m id status).0
resolve-IsSound m id status r i = elim (resolve-cases m id status) [
  | inl e ↦ subst IsSound (λ k. (sym e k).0) i
  | inr (v, p, e) ↦
      let n = record m { sending = (id, status) ∷ m.sending } in
      let t : Step m n = subst (Step m) (λ k. (e k).0) (Step.call_resolve id status) in
      let here : Decided n id status = record {
        earlier = m;
        reached = r;
        waiting = p;
        valid = v;
        found = λ k. (e k).1;
        since = subst (λ a. Steps a n) (λ k. (sym e k).0) Steps.stay;
      } in
      subst IsSound (λ k. (sym e k).0)
        (record {
          sends = (here, All_imp _ _ _ (λ x d. Decided-Step m n x.0 x.1 t d) i.sends);
          channels = λ j w s h k. Decided-Step m n j s t (i.channels j w s h k);
          outcomes = λ j w s h k. Decided-Step m n j s t (i.outcomes j w s h k);
        })
]

All-middle :
    (P : String × Status → Type 0) (before after : List (String × Status)) (e : String × Status)
    → All P (before ++ e ∷ after)
    → P e × All P (before ++ after)
All-middle P [] after e (p, h) = (p, h)
All-middle P (x ∷ before) after e (p, h) = let (q, k) = All-middle P before after e h in (q, (p, k))

no-none : {A : Type 0} (s : A) → none ≢ some s
no-none s h = cc

Step-IsSound : (m n : Manager) → Reachable m → Step m n → IsSound m → IsSound n
Step-IsSound m n r (Step.wait id req fresh) i =
    set-IsSound m id (start id req) m.sending (Step.wait id req fresh) i i.sends
      (λ s h. absurd (no-none s h)) (λ s h. absurd (no-none _ h))
Step-IsSound m n r (Step.call_resolve id status) i = resolve-IsSound m id status r i
Step-IsSound m n r (Step.send id status w before after e h empty) i =
    let (a, rest) =
      All-middle (λ x. Decided m x.0 x.1) before after (id, status)
        (subst (All (λ x. Decided m x.0 x.1)) e i.sends) in
    set-IsSound m id (send_to w status) (before ++ after)
      (Step.send id status w before after e h empty) i rest
      (λ s k. subst (Decided m id) (some-eq k) a) (λ s k. i.outcomes id w s h k)
  where
    some-eq : {x y : Status} → some x ≡ some y → x ≡ y
    some-eq h = cc
Step-IsSound m n r (Step.receive id w status h running full) i =
    set-IsSound m id (finish w (decided status)) m.sending (Step.receive id w status h running full)
      i i.sends (λ s k. absurd (no-none s k))
      (λ s k. subst (Decided m id) (decided-eq k) (i.channels id w status h full))
  where
    decided-eq : {x y : Status} → some (decided x) ≡ some (decided y) → x ≡ y
    decided-eq h = cc
Step-IsSound m n r (Step.time_out id w h running) i =
    set-IsSound m id (record w { outcome = some timed_out }) m.sending
      (Step.time_out id w h running) i i.sends (λ s k. i.channels id w s h k)
      (λ s k. absurd (other k))
  where
    other : {s : Status} → some timed_out ≢ some (decided s)
    other h = cc
Step-IsSound m n r (Step.cancel id w h running) i =
    set-IsSound m id (record w { outcome = some cancelled }) m.sending (Step.cancel id w h running)
      i i.sends (λ s k. i.channels id w s h k) (λ s k. absurd (other k))
  where
    other : {s : Status} → some cancelled ≢ some (decided s)
    other h = cc

-- The invariant holds in every state that the goroutines reach.
pub Reachable-IsSound : (m : Manager) → Reachable m → IsSound m
Reachable-IsSound m Reachable.initial = record {
  sends = tt;
  channels = λ j w s h e. absurd (no-none w h);
  outcomes = λ j w s h e. absurd (no-none w h);
}
Reachable-IsSound n (Reachable.step {m} r s) = Step-IsSound m n r s (Reachable-IsSound m r)
