-- ===== src/Tests/Threads.antt =====
-- Connection.cpp, run by several threads: a background thread, its handlers and those that wait for it.
use dowow_network.Prelude.{
  none, Option, inl, ℕ, ◌+◌, ◌≡◌, refl, ◌⊎◌, true, false, some, List, [], ◌∷◌, All, done, ◌≢◌, ◌++◌,
}
use dowow_network.Connection.State.{wait_for_stop}
use dowow_network.Connection.Api.{disconnect}
use dowow_network.Connection.Loop.{Revents, poll, round}
use dowow_network.Connection.Loop.Breaks.{IsLost, Reach-breaks}
use dowow_network.Connection.Invariant.Receives.{Reads}
use dowow_network.Connection.Send.Stream.{Takes}
use dowow_network.Connection.Loop.Stops.{reports, stop_read, Reach-stops}
use dowow_network.Connection.Invariant.Reachable.{here, starting}
use dowow_network.Request.{Request}
use dowow_network.Connection.State
use dowow_network.Connection.State.{Connection, is_connected, is_disconnecting_now}
use dowow_network.Connection.Api.{push_with, initialize_by_fd, af_unix, af_other}
use dowow_network.Connection.Loop.{finish}
use dowow_network.Connection.Loop.Races.{IsRenumbered, push_with-finish}
use dowow_network.Tests.{question, open_connection}
use dowow_network.Locks.{System, run, step_at, act, remaining, release}
use dowow_network.Locks.Calls.{
  Job, calls, pushes, disconnects, start, mutex_cd, mutex_sq, mutex_fri,
}
use dowow_network.Locks.Calls.{rounds, HandlersReturn, locked, wait_for_stop as wait_acts, job_acts}
use dowow_network.Locks.Progress.{CanStep, IsParked}
use dowow_network.Locks.Runs.{run-Progress}
use dowow_network.Locks.Deadlocks.{
  IsDeadlock, two_handlers, both_wait, handles_message-Deadlock, finish_needed, both_need,
  finish-Deadlock, handler_and_push, waits_for_itself, disconnect-Deadlock,
}

-- One thread pushes a request, one disconnects and waits for the end, and one is the background thread,
-- with a handler that pushes.
abbrev three_jobs : List (List Job)
three_jobs =
    (calls (pushes false true) ∷ [])
    ∷ (calls (disconnects true true) ∷ [])
    ∷ (rounds (pushes false true ∷ []) false false false false false false false ∷ [])
    ∷ []

-- The first has looked at the state, the other has the mutex of the state.
abbrev half_way : System
half_way = record {
  threads =
      record { held = []; todo = locked (mutex_sq 0) (locked (mutex_fri 0) []) }
      ∷ record {
        held = mutex_cd 0 ∷ [];
        todo = locked (mutex_cd 0) [] ++ (release (mutex_cd 0) ∷ wait_acts 0);
      }
      ∷ record {
        held = [];
        todo =
            job_acts 0 (rounds (pushes false true ∷ []) false false false false false false false);
      }
      ∷ [];
  written = [];
}

run-half_way : run (0 ∷ 0 ∷ 1 ∷ []) (start 0 three_jobs) ≡ some half_way
unfolding run step_at act
run-half_way = refl

three_jobs-HandlersReturn : All (All HandlersReturn) three_jobs
three_jobs-HandlersReturn = ((tt, tt), ((tt, tt), (((refl, tt), tt), tt)))

run-Progress_example :
    (3 + remaining half_way.threads ≡ remaining (start 0 three_jobs).threads)
    × (CanStep half_way ⊎ All (IsParked half_way.written) half_way.threads)
run-Progress_example =
    run-Progress three_jobs (0 ∷ 0 ∷ 1 ∷ []) half_way three_jobs-HandlersReturn run-half_way

handles_message-Deadlock_example :
    (schedule : List ℕ) × (run schedule (two_handlers false false [] [])
      ≡ some (both_wait false false [] []))
    × IsDeadlock (both_wait false false [] [])
handles_message-Deadlock_example = handles_message-Deadlock false false [] []

finish-Deadlock_example :
    (schedule : List ℕ) × (run schedule (finish_needed false []) ≡ some (both_need false []))
    × IsDeadlock (both_need false [])
finish-Deadlock_example = finish-Deadlock false []

disconnect-Deadlock_example :
    (schedule : List ℕ) × (run schedule (handler_and_push false false [] [])
      ≡ some (waits_for_itself false [] []))
    × IsDeadlock (waits_for_itself false [] [])
disconnect-Deadlock_example = disconnect-Deadlock false false [] []

-- The other threads do nothing while the background thread waits.
abbrev alone : Connection → Connection
alone c = c

unix_other : af_unix ≢ af_other
unix_other e = cc

opened : (is_connected open_connection ≡ true) × (is_disconnecting_now open_connection ≡ false)
unfolding is_connected is_disconnecting_now State.init
opened = (refl, refl)

push_with-finish_example :
    (d : Connection) × (r : Request) × (push_with (finish alone) open_connection question false true
      ≡ done d)
    × (is_connected d ≡ false)
    × (is_connected (initialize_by_fd d af_unix) ≡ true)
    × ((initialize_by_fd d af_unix).send_queue ≡ r ∷ [])
    × IsRenumbered r question
push_with-finish_example =
    push_with-finish alone open_connection question true af_unix opened.0 opened.1 unix_other

-- A handler that leaves the connection as it is.
abbrev ignore : ℕ → Connection → Request → Connection
ignore h c r = c

abbrev nothing : ℕ → Option (List ℕ)
nothing asked = none

abbrev refuses : ℕ → Option ℕ
refuses asked = none

abbrev begun : Connection
begun = initialize_by_fd State.init af_unix

begun-connected : is_connected begun ≡ true
unfolding initialize_by_fd is_connected State.init
begun-connected = refl

Reach-stops_example :
    (d : Connection) × (disconnect begun true ≡ done d)
    × ((ready : Revents)
        → round ignore nothing refuses alone (reports ready d) d
          ≡ done (false, stop_read (alone d), []))
    × (is_connected (finish alone (stop_read (alone d))) ≡ false)
    × (wait_for_stop (λ x. finish alone (stop_read (alone x))) d ≡ true)
Reach-stops_example =
    Reach-stops ignore nothing refuses alone alone (λ x. here x) (λ x. here x) begun
      (starting (here State.init) af_unix) begun-connected

nothing-Reads : Reads nothing
nothing-Reads asked bs e = cc

refuses-Takes : Takes refuses
refuses-Takes asked n e = cc

-- The socket is readable, and nothing else has come.
abbrev readable : Revents
readable = record {
  to_stop = false;
  readable = true;
  writable = false;
  our_sa = false;
  their_na = false;
  pushed = false;
}

begun-IsLost : IsLost nothing refuses (alone begun) (poll begun readable)
unfolding poll initialize_by_fd State.init is_connected
begun-IsLost = inl (refl, λ asked. inl refl)

Reach-breaks_example :
    (d : Connection) × (round ignore nothing refuses alone readable begun ≡ done (false, d, []))
    × (is_connected (finish alone d) ≡ false)
    × (wait_for_stop (λ x. finish alone x) d ≡ true)
Reach-breaks_example =
    Reach-breaks ignore nothing refuses (λ h x q. here x) nothing-Reads refuses-Takes alone alone
      (λ x. here x) (λ x. here x) begun (starting (here State.init) af_unix) readable refl
      begun-IsLost
