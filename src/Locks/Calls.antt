-- ===== src/Locks/Calls.antt =====
-- Connection.cpp: which mutexes each function takes. A `Bool` tells which branch a call takes. Mutexes
-- and events are numbered by the connection, `o`; within it, in the order of the declarations here.
use dowow_network.Prelude.{
  ℕ, ◌≡◌, not, All, ◌+◌, ◌*◌, Bool, true, false, List, [], ◌∷◌, ◌++◌, if◌then◌else◌,
}
use dowow_network.Locks.{Act, acquire, release, signal, renew, await, Thread, System}

abbrev pub mutex_cd : ℕ → ℕ
mutex_cd o = 8 * o

abbrev pub mutex_bt : ℕ → ℕ
mutex_bt o = 8 * o + 1

abbrev pub mutex_sq : ℕ → ℕ
mutex_sq o = 8 * o + 2

abbrev pub mutex_fri : ℕ → ℕ
mutex_fri o = 8 * o + 3

abbrev pub mutex_rq : ℕ → ℕ
mutex_rq o = 8 * o + 4

abbrev pub mutex_ra : ℕ → ℕ
mutex_ra o = 8 * o + 5

abbrev pub not_needed_event : ℕ → ℕ
not_needed_event o = 3 * o

abbrev pub receive_event : ℕ → ℕ
receive_event o = 3 * o + 1

abbrev pub stopped_event : ℕ → ℕ
stopped_event o = 3 * o + 2

-- The scope of an `MTLock`, or what stands between `lock` and `unlock`.
abbrev pub locked : ℕ → List Act → List Act
locked m body = acquire m ∷ (body ++ release m ∷ [])

abbrev pub nothing : List Act
nothing = []

abbrev pub has_something_to_send : ℕ → List Act
has_something_to_send o = locked (mutex_sq o) []

-- Not connected or disconnecting, `refused`; else the id is `changed` or not.
abbrev pub push : ℕ → Bool → Bool → List Act
push o refused changed =
    locked (mutex_cd o) []
    ++ (if refused
        then nothing
        else locked (mutex_sq o) (if changed then locked (mutex_fri o) [] else nothing))

-- How long a call waits: not at all, up to a time, or until the event.
pub data Wait : Type 0 where
  at_once timed endless : Wait

-- A request is found, or the call does not wait, or someone else waits already; else the event is made,
-- and the queue is looked at again after it or after the time.
abbrev pub pull : ℕ → Wait → List Act
pull o at_once = locked (mutex_rq o) []
pull o timed =
    locked (mutex_rq o) (renew (receive_event o) ∷ [])
    ++ locked (mutex_rq o) (locked (mutex_rq o) [])
pull o endless =
    locked (mutex_rq o) (renew (receive_event o) ∷ [])
    ++ await (receive_event o) ∷ locked (mutex_rq o) (locked (mutex_rq o) [])

abbrev pub get_refs : ℕ → List Act
get_refs o = locked (mutex_ra o) []

abbrev pub increase_refs : ℕ → List Act
increase_refs o = locked (mutex_ra o) []

-- The event is written whether the thread has made one or not.
abbrev pub decrease_refs : ℕ → List Act
decrease_refs o = locked (mutex_ra o) (signal (not_needed_event o) ∷ [])

-- `WaitForStop` without a limit.
abbrev pub wait_for_stop : ℕ → List Act
wait_for_stop o = await (stopped_event o) ∷ []

-- `waits`, where it is connected and the end of the thread is wanted. The push of the dummy request is
-- refused.
abbrev pub disconnect : ℕ → Bool → Bool → List Act
disconnect o graceful waits =
    locked (mutex_cd o) (if graceful then push o true false else nothing)
    ++ (if waits then wait_for_stop o else nothing)

abbrev pub initialize_by_fd : ℕ → Bool → List Act
initialize_by_fd o starts = locked (mutex_cd o) (
    locked (mutex_bt o)
      (if starts then renew (stopped_event o) ∷ locked (mutex_rq o) [] else nothing))

abbrev pub set_even_request_ids_part : ℕ → List Act
set_even_request_ids_part o = locked (mutex_fri o) []

-- `pops`, where a request becomes the buffer; `sent_all`, where the buffer is sent; `disconnecting`,
-- where the queue is then looked at.
abbrev pub send : ℕ → Bool → Bool → Bool → List Act
send o pops sent_all disconnecting =
    locked (mutex_sq o) (if pops then locked (mutex_sq o) [] else nothing)
    ++ (if sent_all
        then locked (mutex_cd o) (if disconnecting then has_something_to_send o else nothing)
        else nothing)

-- A request is `queued`, or a handler does what it does, or neither.
abbrev pub receive : ℕ → List Act → Bool → List Act
receive o handler queued =
    handler ++ (if queued then locked (mutex_rq o) [] ++ signal (receive_event o) ∷ [] else nothing)

-- A pass of the loop of ConnThreadFunc: before `poll`, and after it. `poll` waits with no mutex, and
-- ends when the timer of the own messages runs out at the latest.
abbrev pub before_poll : ℕ → List Act
before_poll o = locked (mutex_cd o) (has_something_to_send o)

abbrev pub after_poll : ℕ → List Act → List Act → List Act → List Act
after_poll o received sent kept = locked (mutex_cd o) (received ++ (sent ++ kept))

-- After the loop; `needed`, where there are references.
abbrev pub finish : ℕ → Bool → List Act
finish o needed = locked (mutex_cd o) (
    (signal (receive_event o)
      ∷ locked (mutex_ra o)
          (get_refs o ++ (if needed then renew (not_needed_event o) ∷ [] else nothing)))
    ++ ((if needed then await (not_needed_event o) ∷ [] else nothing)
        ++ (locked (mutex_sq o) [] ++ signal (stopped_event o) ∷ [])))

-- A call of another thread, or of a handler.
pub data Call : Type 0 where
  pushes : Bool → Bool → Call
  pulls : Wait → Call
  disconnects : Bool → Bool → Call
  initializes : Bool → Call
  waits_for_stop sets_part gets_refs takes_ref gives_ref : Call

abbrev pub call_acts : ℕ → Call → List Act
call_acts o (pushes refused changed) = push o refused changed
call_acts o (pulls wait) = pull o wait
call_acts o (disconnects graceful waits) = disconnect o graceful waits
call_acts o (initializes starts) = initialize_by_fd o starts
call_acts o waits_for_stop = wait_for_stop o
call_acts o sets_part = set_even_request_ids_part o
call_acts o gets_refs = get_refs o
call_acts o takes_ref = increase_refs o
call_acts o gives_ref = decrease_refs o

abbrev pub calls_acts : ℕ → List Call → List Act
calls_acts o [] = []
calls_acts o (c ∷ cs) = call_acts o c ++ calls_acts o cs

-- What a thread does: a call, a pass of the loop with what the handler calls in it, or, where there are
-- no references, the end of the background thread.
pub data Job : Type 0 where
  calls : Call → Job
  rounds :
      (handler : List Call) (queued sends pops sent_all disconnecting keeps refused : Bool) → Job
  finishes : Job

abbrev pub job_acts : ℕ → Job → List Act
job_acts o (calls c) = call_acts o c
job_acts o (rounds handler queued sends pops sent_all disconnecting keeps refused) =
    before_poll o
    ++ after_poll o (receive o (calls_acts o handler) queued)
        (if sends then send o pops sent_all disconnecting else nothing)
        (if keeps then push o refused false else nothing)
job_acts o finishes = finish o false

abbrev pub jobs_acts : ℕ → List Job → List Act
jobs_acts o [] = []
jobs_acts o (j ∷ js) = job_acts o j ++ jobs_acts o js

-- Threads that hold nothing, and what each does.
abbrev pub threads_of : ℕ → List (List Job) → List Thread
threads_of o [] = []
threads_of o (js ∷ jss) = record { held = []; todo = jobs_acts o js } ∷ threads_of o jss

abbrev pub start : ℕ → List (List Job) → System
start o jss = record { threads = threads_of o jss; written = [] }

-- The call does not wait without a limit.
abbrev pub is_short : Call → Bool
is_short (pulls endless) = false
is_short (disconnects graceful waits) = not waits
is_short waits_for_stop = false
is_short c = true

-- The handlers that run in the job make only such calls; other threads may wait.
abbrev pub HandlersReturn : Job → Type 0
HandlersReturn (calls c) = Unit
HandlersReturn (rounds handler queued sends pops sent_all disconnecting keeps refused) =
    All (λ (c : Call). is_short c ≡ true) handler
HandlersReturn finishes = Unit
