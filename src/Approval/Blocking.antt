-- ===== src/Approval/Blocking.antt =====
-- internal/approval/manager.go: a send to a call of Wait that nobody receives.
use scia.Base.{
  subst, String, List, Bool, true, false, ◌==◌, none, some, ◌≡◌, ◌≢◌, refl, sym, ◌∙◌, ap, lookup,
  insert, lookup-insert, if◌then◌else◌, if-cases, eq_iff, [], ◌∷◌, ◌++◌, Any, inl, inr,
}
use scia.Approval.{
  Status, Waiter, Manager, valid_status, resolve, is_pending, start, send_to, Step, Steps,
}

-- The call of Wait has ended, and its channel holds a status.
pub record IsFull (m : Manager) (id : String) : Type 0 where
  pub waiter : Waiter
  pub stored : lookup id m.waiters ≡ some waiter
  pub ended : waiter.outcome ≢ none
  pub full : waiter.done ≢ none

some-eq : {x y : Waiter} → some x ≡ some y → x ≡ y
some-eq h = cc

set-IsFull :
    (m : Manager) (id j : String) (v : Waiter) (sending : List (String × Status))
    → j ≢ id
    → IsFull m id
    → IsFull (record m { waiters = insert j v m.waiters; sending = sending }) id
set-IsFull m id j v sending n f = record {
  waiter = f.waiter;
  stored = lookup-insert j id v m.waiters ∙ other (j == id) refl ∙ f.stored;
  ended = f.ended;
  full = f.full;
}
  where
    other :
        (b : Bool)
        → (j == id) ≡ b
        → (if b then some v else lookup id m.waiters) ≡ lookup id m.waiters
    other true e = absurd (n ((eq_iff j id).0 e))
    other false e = refl

-- A waiter of the same id is the one that ended.
same :
    (m : Manager) (id j : String) (w : Waiter) (f : IsFull m id)
    → lookup j m.waiters ≡ some w
    → j ≡ id
    → w ≡ f.waiter
same m id j w f h e = some-eq (sym h ∙ ap (λ k. lookup k m.waiters) e ∙ f.stored)

resolve-IsFull :
    (m : Manager) (id j : String) (s : Status) → IsFull m id → IsFull (resolve m j s).0 id
unfolding resolve
resolve-IsFull m id j s f =
    if-cases (λ (r : Manager × Bool). IsFull r.0 id) (valid_status s) _ _
      (λ v.
        if-cases (λ (r : Manager × Bool). IsFull r.0 id) (is_pending m j) _ _
          (λ _. record { waiter = f.waiter; stored = f.stored; ended = f.ended; full = f.full })
          (λ _. f))
      (λ _. f)

Step-IsFull : (m n : Manager) (id : String) → Step m n → IsFull m id → IsFull n id
Step-IsFull m n id (Step.wait j req fresh) f =
    set-IsFull m id j (start j req) m.sending
      (λ e. absent (sym fresh ∙ ap (λ k. lookup k m.waiters) e ∙ f.stored)) f
  where
    absent : {w : Waiter} → none ≢ some w
    absent h = cc
Step-IsFull m n id (Step.call_resolve j s) f = resolve-IsFull m id j s f
Step-IsFull m n id (Step.send j s w before after e h empty) f =
    set-IsFull m id j (send_to w s) _
      (λ p. f.full (ap (λ u. u.done) (sym (same m id j w f h p)) ∙ empty)) f
Step-IsFull m n id (Step.receive j w s h running full) f =
    set-IsFull m id j _ m.sending
      (λ p. f.ended (ap (λ u. u.outcome) (sym (same m id j w f h p)) ∙ running)) f
Step-IsFull m n id (Step.time_out j w h running) f =
    set-IsFull m id j _ m.sending
      (λ p. f.ended (ap (λ u. u.outcome) (sym (same m id j w f h p)) ∙ running)) f
Step-IsFull m n id (Step.cancel j w h running) f =
    set-IsFull m id j _ m.sending
      (λ p. f.ended (ap (λ u. u.outcome) (sym (same m id j w f h p)) ∙ running)) f

-- The call of Wait has ended, its channel holds a status, and a call of Resolve has yet to send.
pub record IsBlocked (m : Manager) (id : String) (status : Status) : Type 0 where
  pub channel : IsFull m id
  pub sender : Any (λ e. e ≡ (id, status)) m.sending

Any-middle :
    (P : String × Status → Type 0) (before after : List (String × Status)) (x : String × Status)
    → ¬ P x
    → Any P (before ++ x ∷ after)
    → Any P (before ++ after)
Any-middle P [] after x n (inl p) = absurd (n p)
Any-middle P [] after x n (inr h) = h
Any-middle P (y ∷ before) after x n (inl p) = inl p
Any-middle P (y ∷ before) after x n (inr h) = inr (Any-middle P before after x n h)

resolve-sender :
    (P : String × Status → Type 0) (m : Manager) (j : String) (s : Status)
    → Any P m.sending
    → Any P (resolve m j s).0.sending
unfolding resolve
resolve-sender P m j s h =
    if-cases (λ (r : Manager × Bool). Any P r.0.sending) (valid_status s) _ _
      (λ v.
        if-cases (λ (r : Manager × Bool). Any P r.0.sending) (is_pending m j) _ _ (λ _. inr h)
          (λ _. h))
      (λ _. h)

Step-sender :
    (m n : Manager) (id : String) (status : Status)
    → Step m n
    → IsFull m id
    → Any (λ e. e ≡ (id, status)) m.sending
    → Any (λ e. e ≡ (id, status)) n.sending
Step-sender m n id status (Step.wait j req fresh) f h = h
Step-sender m n id status (Step.call_resolve j s) f h = resolve-sender _ m j s h
Step-sender m n id status (Step.send j s w before after e found empty) f h =
    Any-middle _ before after (j, s)
      (λ p. f.full (ap (λ u. u.done) (sym (same m id j w f found (λ i. (p i).0))) ∙ empty))
      (subst (Any (λ e. e ≡ (id, status))) e h)
Step-sender m n id status (Step.receive j w s found running full) f h = h
Step-sender m n id status (Step.time_out j w found running) f h = h
Step-sender m n id status (Step.cancel j w found running) f h = h

-- Once a call of Wait has ended with a status left in its channel, a call of Resolve that has yet to
-- send to it still has to, whatever steps follow, and the channel stays full.
pub Steps-IsBlocked :
    (m n : Manager) (id : String) (status : Status)
    → Steps m n
    → IsBlocked m id status
    → IsBlocked n id status
Steps-IsBlocked m n id status Steps.stay b = b
Steps-IsBlocked m e id status (Steps.more {n} s t) b =
    let c = Steps-IsBlocked m n id status s b in
    record {
      channel = Step-IsFull n e id t c.channel;
      sender = Step-sender n e id status t c.channel c.sender;
    }
