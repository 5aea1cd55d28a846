-- ===== src/Locks/Deadlocks.antt =====
-- Connection.cpp and examples/ChatServer.cpp: threads that wait for each other for ever.
use dowow_network.Prelude.{
  ℕ, zero, suc, ◌≡◌, ◌≢◌, refl, Bool, true, false, none, some, List, [], ◌∷◌, ◌++◌, arith,
}
use dowow_network.Locks.{Act, release, signal, await, Thread, System, act, step_at, run, remaining}
use dowow_network.Locks.Calls.{
  locked, nothing, mutex_cd, mutex_sq, push, increase_refs, decrease_refs, before_poll, after_poll,
  receive, finish, disconnect, wait_for_stop, not_needed_event, receive_event, stopped_event,
}

-- Something is left to do, and no thread can act.
abbrev pub IsDeadlock : System → Type 0
IsDeadlock s = (remaining s.threads ≢ 0) × ((i : ℕ) → step_at i s ≡ none)

-- `IssueMessage` for one participant: the connection is referred to, the message is pushed, and the
-- reference is given back.
abbrev pub issue_to : ℕ → Bool → List Act
issue_to o refused = increase_refs o ++ (push o refused true ++ decrease_refs o)

-- A background thread that has received a message for one participant, sends it to that one, and does
-- `more`.
abbrev pub handles_message : ℕ → ℕ → Bool → List Act → List Act
handles_message o other refused more =
    before_poll o ++ after_poll o (receive o (issue_to other refused ++ more) false) [] []

-- The background threads of two connections handle a message from each to the other.
abbrev pub two_handlers : Bool → Bool → List Act → List Act → System
two_handlers refused_0 refused_1 more_0 more_1 = record {
  threads =
      record { held = []; todo = handles_message 0 1 refused_0 more_0 }
      ∷ record { held = []; todo = handles_message 1 0 refused_1 more_1 }
      ∷ [];
  written = [];
}

-- It holds its own mutex, and waits for the other's.
abbrev pub waits_for : ℕ → ℕ → Bool → List Act → Thread
waits_for o other refused more = record {
  held = mutex_cd o ∷ [];
  todo =
      ((((push other refused true ++ decrease_refs other) ++ more) ++ nothing) ++ [])
      ++ release (mutex_cd o) ∷ [];
}

abbrev pub both_wait : Bool → Bool → List Act → List Act → System
both_wait refused_0 refused_1 more_0 more_1 = record {
  threads = waits_for 0 1 refused_0 more_0 ∷ waits_for 1 0 refused_1 more_1 ∷ [];
  written = [];
}

both_wait_stuck :
    (refused_0 refused_1 : Bool) (more_0 more_1 : List Act) (i : ℕ)
    → step_at i (both_wait refused_0 refused_1 more_0 more_1) ≡ none
unfolding step_at act
both_wait_stuck refused_0 refused_1 more_0 more_1 zero = refl
both_wait_stuck refused_0 refused_1 more_0 more_1 (suc zero) = refl
both_wait_stuck refused_0 refused_1 more_0 more_1 (suc (suc i)) = refl

-- Two connections of the chat server each receive, at the same time, a message that names the other's
-- participant. Whether these pushes would be refused, and whatever the handlers do after them: the threads
-- can come to a state in which each holds the mutex of its own connection and waits for that of the other,
-- and none can ever act again.
pub handles_message-Deadlock :
    (refused_0 refused_1 : Bool) (more_0 more_1 : List Act)
    → (schedule : List ℕ) × (run schedule (two_handlers refused_0 refused_1 more_0 more_1)
        ≡ some (both_wait refused_0 refused_1 more_0 more_1))
      × IsDeadlock (both_wait refused_0 refused_1 more_0 more_1)
unfolding run step_at act
handles_message-Deadlock refused_0 refused_1 more_0 more_1 = (
  0 ∷ 0 ∷ 0 ∷ 0 ∷ 0 ∷ 1 ∷ 1 ∷ 1 ∷ 1 ∷ 1 ∷ 0 ∷ 0 ∷ 1 ∷ 1 ∷ [],
  refl,
  ((λ over. omega (arith, over)), both_wait_stuck refused_0 refused_1 more_0 more_1),
)

-- The end of a background thread while another thread, which has got a reference, is about to push.
abbrev pub finish_needed : Bool → List Act → System
finish_needed refused more = record {
  threads =
      record { held = []; todo = finish 0 true }
      ∷ record { held = []; todo = push 0 refused true ++ (decrease_refs 0 ++ more) }
      ∷ [];
  written = [];
}

abbrev pub both_need : Bool → List Act → System
both_need refused more = record {
  threads =
      record {
        held = mutex_cd 0 ∷ [];
        todo =
            (await (not_needed_event 0) ∷ (locked (mutex_sq 0) [] ++ signal (stopped_event 0) ∷ []))
            ++ release (mutex_cd 0) ∷ [];
      }
      ∷ record { held = []; todo = push 0 refused true ++ (decrease_refs 0 ++ more) }
      ∷ [];
  written = receive_event 0 ∷ [];
}

both_need_stuck :
    (refused : Bool) (more : List Act) (i : ℕ) → step_at i (both_need refused more) ≡ none
unfolding step_at act
both_need_stuck refused more zero = refl
both_need_stuck refused more (suc zero) = refl
both_need_stuck refused more (suc (suc i)) = refl

-- A background thread ends while another thread has a reference to the connection, and that one pushes
-- to it before it gives the reference back. Whether the push would be refused, and whatever the thread
-- does later: they can come to a state in which the first waits, with the mutex of the connection, for the
-- reference, and the other for the mutex, and none can ever act again.
pub finish-Deadlock :
    (refused : Bool) (more : List Act)
    → (schedule : List ℕ) × (run schedule (finish_needed refused more)
        ≡ some (both_need refused more))
      × IsDeadlock (both_need refused more)
unfolding run step_at act
finish-Deadlock refused more = (
  0 ∷ 0 ∷ 0 ∷ 0 ∷ 0 ∷ 0 ∷ 0 ∷ [],
  refl,
  ((λ over. omega (arith, over)), both_need_stuck refused more),
)

-- A background thread whose handler calls `Disconnect`, to wait for the end, and then does `more`.
abbrev pub handles_disconnect : ℕ → Bool → List Act → List Act
handles_disconnect o graceful more =
    before_poll o ++ after_poll o (receive o (disconnect o graceful true ++ more) false) [] []

-- This thread, and one that pushes to the same connection and then does `rest`.
abbrev pub handler_and_push : Bool → Bool → List Act → List Act → System
handler_and_push graceful refused more rest = record {
  threads =
      record { held = []; todo = handles_disconnect 0 graceful more }
      ∷ record { held = []; todo = push 0 refused true ++ rest }
      ∷ [];
  written = [];
}

-- The handler waits for the end of its own thread, the other for the mutex of the connection.
abbrev pub waits_for_itself : Bool → List Act → List Act → System
waits_for_itself refused more rest = record {
  threads =
      record {
        held = mutex_cd 0 ∷ [];
        todo = (((wait_for_stop 0 ++ more) ++ nothing) ++ []) ++ release (mutex_cd 0) ∷ [];
      }
      ∷ record { held = []; todo = push 0 refused true ++ rest }
      ∷ [];
  written = [];
}

waits_for_itself_stuck :
    (refused : Bool) (more rest : List Act) (i : ℕ)
    → step_at i (waits_for_itself refused more rest) ≡ none
unfolding step_at act
waits_for_itself_stuck refused more rest zero = refl
waits_for_itself_stuck refused more rest (suc zero) = refl
waits_for_itself_stuck refused more rest (suc (suc i)) = refl

-- A handler calls `Disconnect` of its own connection, forced or not, and lets it wait for the end of the
-- thread, while another thread is about to push to the connection. Whether the push would be refused, and
-- whatever both do later: they can come to a state in which the handler waits for the end of the thread
-- that it runs in, with the mutex of the connection, and the other thread for the mutex, and none can ever
-- act again.
pub disconnect-Deadlock :
    (graceful refused : Bool) (more rest : List Act)
    → (schedule : List ℕ) × (run schedule (handler_and_push graceful refused more rest)
        ≡ some (waits_for_itself refused more rest))
      × IsDeadlock (waits_for_itself refused more rest)
unfolding run step_at act
disconnect-Deadlock true refused more rest = (
  0 ∷ 0 ∷ 0 ∷ 0 ∷ 0 ∷ 0 ∷ 0 ∷ 0 ∷ 0 ∷ [],
  refl,
  ((λ over. omega (arith, over)), waits_for_itself_stuck refused more rest),
)
disconnect-Deadlock false refused more rest = (
  0 ∷ 0 ∷ 0 ∷ 0 ∷ 0 ∷ 0 ∷ 0 ∷ [],
  refl,
  ((λ over. omega (arith, over)), waits_for_itself_stuck refused more rest),
)
