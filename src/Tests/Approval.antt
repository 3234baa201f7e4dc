-- ===== src/Tests/Approval.antt =====
-- internal/approval/manager.go on concrete runs.
use scia.Base.{inl, [], ◌∷◌, some, ◌≡◌, refl}
use scia.Approval.{
  Request, Manager, new_manager, approved, denied, decided, timed_out, Step, Steps, resolve, start,
  send_to, finish, set_waiter,
}
use scia.Approval.Blocking.{IsBlocked, Steps-IsBlocked}

abbrev asked : Request
asked = record { id = ""; method = "POST"; url = "http://a/"; rule = "r"; note = ""; status = "" }

-- The states of a run: a request waits, somebody approves it, the status is sent, and Wait returns.
abbrev waiting : Manager
waiting = set_waiter new_manager "1" (start "1" asked)

abbrev resolved : Manager
resolved = record waiting { sending = ("1", approved) ∷ [] }

abbrev sent : Manager
sent = record { waiters = ("1", send_to (start "1" asked) approved) ∷ []; sending = [] }

abbrev finished : Manager
finished = set_waiter sent "1" (finish (send_to (start "1" asked) approved) (decided approved))

resolve-waiting : (resolve waiting "1" approved).0 ≡ resolved
unfolding resolve
resolve-waiting = refl

-- The timer ends the call of Wait while the status is in its channel, and somebody who found the
-- request before has yet to send.
abbrev late : Manager
late =
    record (set_waiter sent "1"
      (record (send_to (start "1" asked) approved) { outcome = some timed_out })) {
        sending = ("1", denied) ∷ [];
      }

late-IsBlocked : IsBlocked late "1" denied
late-IsBlocked = record {
  channel = record {
    waiter = record (send_to (start "1" asked) approved) { outcome = some timed_out };
    stored = refl;
    ended = λ h. cc;
    full = λ h. cc;
  };
  sender = inl refl;
}

Steps-IsBlocked_example : IsBlocked (set_waiter late "2" (start "2" asked)) "1" denied
Steps-IsBlocked_example =
    Steps-IsBlocked late (set_waiter late "2" (start "2" asked)) "1" denied
      (Steps.more Steps.stay (Step.wait "2" asked refl)) late-IsBlocked
