-- ===== src/Approval.antt =====
-- internal/approval/manager.go: requests that wait for a decision. Each access to the shared map is
-- one step, and so is each send and receive on a request's channel of capacity one. The goroutines
-- interleave freely. crypto/rand is taken to give each request an id of its own.
pub mod Laws
pub mod Blocking
use scia.Base.{
  String, List, [], ◌∷◌, Bool, true, false, ◌||◌, ◌==◌, Option, none, some, ◌≡◌, lookup, insert,
  ◌++◌, if◌then◌else◌, Any,
}
use scia.Go.{is_some}

-- Status; `Status` is a string type, so a caller can send any other text.
abbrev pub Status : Type 0
Status = String

abbrev pub pending_status : Status
pending_status = "pending"

abbrev pub approved : Status
approved = "approved"

abbrev pub denied : Status
denied = "denied"

-- Request, without the time of its creation.
pub record Request : Type 0 where
  pub id : String
  pub method : String
  pub url : String
  pub rule : String
  pub note : String
  pub status : Status

-- How Wait ends: with a status from the channel, at the timer, or with its context.
pub data Outcome : Type 0 where
  decided : Status → Outcome
  timed_out : Outcome
  cancelled : Outcome

-- What Wait returns: its status, and whether its error is nil.
abbrev pub returned : Outcome → Status × Bool
returned (decided s) = (s, true)
returned timed_out = (denied, false)
returned cancelled = (denied, false)

-- A call of Wait: its request, its channel, and how it ended. A call that has not ended is in the
-- map of the manager, since `defer m.delete` takes it out.
pub record Waiter : Type 0 where
  pub request : Request
  pub done : Option Status
  pub outcome : Option Outcome

-- The manager: the calls of Wait by their ids, and the calls of Resolve that have found their request
-- and have not sent yet.
pub record Manager : Type 0 where
  pub waiters : List (String × Waiter)
  pub sending : List (String × Status)

-- NewManager
abbrev pub new_manager : Manager
new_manager = record { waiters = []; sending = [] }

abbrev pub start : String → Request → Waiter
start id req = record {
  request = record req { id = id; status = pending_status };
  done = none;
  outcome = none;
}

-- pending, ok := m.pending[id]
abbrev pub waits : Option Waiter → Bool
waits none = false
waits (some w) = not_ended w.outcome
  where
    not_ended : Option Outcome → Bool
    not_ended none = true
    not_ended (some o) = false

unfoldable pub is_pending : Manager → String → Bool
is_pending m id = waits (lookup id m.waiters)

-- List
unfoldable pub list_waiters : List (String × Waiter) → List Request
list_waiters [] = []
list_waiters ((id, w) ∷ ws) =
    let rest = list_waiters ws in if waits (some w) then w.request ∷ rest else rest

unfoldable pub list : Manager → List Request
unfolding list_waiters
list m = list_waiters m.waiters

abbrev pub valid_status : Status → Bool
valid_status s = s == approved || s == denied

-- Resolve up to the channel: what it returns at once, and the manager with the send to come. Behind
-- a send it returns true.
unfoldable pub resolve : Manager → String → Status → Manager × Bool
unfolding is_pending
resolve m id status =
    if valid_status status
    then (if is_pending m id
        then (record m { sending = (id, status) ∷ m.sending }, true)
        else (m, false))
    else (m, false)

abbrev pub send_to : Waiter → Status → Waiter
send_to w status = record w { done = some status }

abbrev pub finish : Waiter → Outcome → Waiter
finish w o = record w { done = none; outcome = some o }

abbrev pub set_waiter : Manager → String → Waiter → Manager
set_waiter m id w = record m { waiters = insert id w m.waiters }

-- The steps of the goroutines. A send waits for room in the channel.
pub data Step (m : Manager) : Manager → Type 0 where
  wait :
      (id : String) (req : Request)
      → lookup id m.waiters ≡ none
      → Step m (set_waiter m id (start id req))
  call_resolve : (id : String) (status : Status) → Step m (resolve m id status).0
  send :
      (id : String) (status : Status) (w : Waiter) (before after : List (String × Status))
      → m.sending ≡ before ++ ((id, status) ∷ after)
      → lookup id m.waiters ≡ some w
      → w.done ≡ none
      → Step m
          (record m { waiters = insert id (send_to w status) m.waiters; sending = before ++ after })
  receive :
      (id : String) (w : Waiter) (status : Status)
      → lookup id m.waiters ≡ some w
      → w.outcome ≡ none
      → w.done ≡ some status
      → Step m (set_waiter m id (finish w (decided status)))
  time_out :
      (id : String) (w : Waiter)
      → lookup id m.waiters ≡ some w
      → w.outcome ≡ none
      → Step m (set_waiter m id (record w { outcome = some timed_out }))
  cancel :
      (id : String) (w : Waiter)
      → lookup id m.waiters ≡ some w
      → w.outcome ≡ none
      → Step m (set_waiter m id (record w { outcome = some cancelled }))

pub data Reachable : Manager → Type 0 where
  initial : Reachable new_manager
  step : {m n : Manager} → Reachable m → Step m n → Reachable n

-- Any number of steps.
pub data Steps (m : Manager) : Manager → Type 0 where
  stay : Steps m m
  more : {n o : Manager} → Steps m n → Step n o → Steps m o
