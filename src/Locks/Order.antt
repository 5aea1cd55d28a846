-- ===== src/Locks/Order.antt =====
-- The discipline of the mutexes: each is taken above those that are held, or again, and released in the
-- reverse order.
use dowow_network.Prelude.{
  ℕ, ◌≡◌, refl, ◌∙◌, Bool, true, false, ◌||◌, ◌&&◌, Option, none, some, List, [], ◌∷◌, ◌++◌, All,
  ltb, ◌==◌, if◌then◌else◌, arith, ==_refl,
}
use dowow_network.Locks.{Act, acquire, release, signal, renew, await, Thread, elem}
use dowow_network.Locks.Calls.{
  is_short, HandlersReturn, at_once, timed, endless, waits_for_stop, receive_event, Call, pushes,
  pulls, disconnects, initializes, sets_part, gets_refs, takes_ref, gives_ref, call_acts,
  calls_acts, Job, calls, rounds, finishes, job_acts, jobs_acts, threads_of, nothing, locked,
  mutex_rq, push, send, receive, before_poll, after_poll,
}

abbrev pub all_below : ℕ → List ℕ → Bool
all_below m [] = true
all_below m (h ∷ hs) = ltb h m && all_below m hs

-- What is held after these actions; `none` where one breaks the discipline, or waits for an event with a
-- mutex.
unfoldable pub after : List Act → List ℕ → Option (List ℕ)
after [] held = some held
after (acquire m ∷ rest) held =
    if elem m held || all_below m held then after rest (m ∷ held) else none
after (release m ∷ rest) [] = none
after (release m ∷ rest) (h ∷ held) = if h == m then after rest held else none
after (signal e ∷ rest) held = after rest held
after (renew e ∷ rest) held = after rest held
after (await e ∷ rest) [] = after rest []
after (await e ∷ rest) (h ∷ held) = none

pub after-append :
    (xs ys : List Act) (held now : List ℕ)
    → after xs held ≡ some now
    → after (xs ++ ys) held ≡ after ys now
unfolding after
after-append [] ys held now e = ground (arith, e)
after-append (acquire m ∷ xs) ys held now e = ground (arith, after-append xs ys (m ∷ held) now)
after-append (release m ∷ xs) ys [] now e = absurd (cc)
after-append (release m ∷ xs) ys (h ∷ held) now e = ground (arith, after-append xs ys held now)
after-append (signal m ∷ xs) ys held now e = after-append xs ys held now e
after-append (renew m ∷ xs) ys held now e = after-append xs ys held now e
after-append (await m ∷ xs) ys [] now e = after-append xs ys [] now e
after-append (await m ∷ xs) ys (h ∷ held) now e = absurd (cc)

-- These leave a thread with what it holds.
abbrev pub Keeps : List ℕ → List Act → Type 0
Keeps held xs = after xs held ≡ some held

Keeps-append :
    (held : List ℕ) (xs ys : List Act) → Keeps held xs → Keeps held ys → Keeps held (xs ++ ys)
Keeps-append held xs ys h k = after-append xs ys held held h ∙ k

Keeps-if :
    (held : List ℕ) (b : Bool) (xs : List Act)
    → Keeps held xs
    → Keeps held (if b then xs else nothing)
unfolding after
Keeps-if held true xs h = h
Keeps-if held false xs h = refl

Keeps-locked :
    (held : List ℕ) (m : ℕ) (body : List Act)
    → elem m held || all_below m held ≡ true
    → Keeps (m ∷ held) body
    → Keeps held (locked m body)
unfolding after
Keeps-locked held m body free h =
    let last = after-append body (release m ∷ []) (m ∷ held) (m ∷ held) h in
    rw (free, last, ==_refl m) refl

-- A connection's call leaves a thread that holds nothing with nothing.
call-after : (c : Call) → after (call_acts 0 c) [] ≡ some []
unfolding after
call-after (pushes true b) = refl
call-after (pushes false true) = refl
call-after (pushes false false) = refl
call-after (pulls at_once) = refl
call-after (pulls timed) = refl
call-after (pulls endless) = refl
call-after (disconnects true true) = refl
call-after (disconnects true false) = refl
call-after (disconnects false true) = refl
call-after (disconnects false false) = refl
call-after (initializes true) = refl
call-after (initializes false) = refl
call-after waits_for_stop = refl
call-after sets_part = refl
call-after gets_refs = refl
call-after takes_ref = refl
call-after gives_ref = refl

-- One that does not wait leaves the background thread with the mutex that it holds around the handlers.
short_call-after : (c : Call) → is_short c ≡ true → Keeps (0 ∷ []) (call_acts 0 c)
unfolding after
short_call-after (pushes true b) h = refl
short_call-after (pushes false true) h = refl
short_call-after (pushes false false) h = refl
short_call-after (pulls at_once) h = refl
short_call-after (pulls timed) h = refl
short_call-after (pulls endless) h = absurd (cc)
short_call-after (disconnects g true) h = absurd (cc)
short_call-after (disconnects true false) h = refl
short_call-after (disconnects false false) h = refl
short_call-after (initializes true) h = refl
short_call-after (initializes false) h = refl
short_call-after waits_for_stop h = absurd (cc)
short_call-after sets_part h = refl
short_call-after gets_refs h = refl
short_call-after takes_ref h = refl
short_call-after gives_ref h = refl

calls-after :
    (cs : List Call) → All (λ (c : Call). is_short c ≡ true) cs → Keeps (0 ∷ []) (calls_acts 0 cs)
unfolding after
calls-after [] h = refl
calls-after (c ∷ cs) h =
    Keeps-append (0 ∷ []) (call_acts 0 c) (calls_acts 0 cs) (short_call-after c h.0)
      (calls-after cs h.1)

send-after :
    (pops sent_all disconnecting : Bool) → Keeps (0 ∷ []) (send 0 pops sent_all disconnecting)
unfolding after
send-after true true true = refl
send-after true true false = refl
send-after true false d = refl
send-after false true true = refl
send-after false true false = refl
send-after false false d = refl

job-after : (j : Job) → HandlersReturn j → Keeps [] (job_acts 0 j)
unfolding after
job-after (calls c) h = call-after c
job-after (rounds handler queued sends pops sent_all disconnecting keeps refused) h =
    let received : List Act = receive 0 (calls_acts 0 handler) queued in
    let sent : List Act = if sends then send 0 pops sent_all disconnecting else nothing in
    let kept : List Act = if keeps then push 0 refused false else nothing in
    Keeps-append [] (before_poll 0) (after_poll 0 received sent kept) refl (
      Keeps-locked [] 0 (received ++ (sent ++ kept)) refl (
        Keeps-append (0 ∷ []) received (sent ++ kept)
          (Keeps-append (0 ∷ []) (calls_acts 0 handler)
            (if queued then locked (mutex_rq 0) [] ++ signal (receive_event 0) ∷ [] else nothing)
            (calls-after handler h)
            (Keeps-if (0 ∷ []) queued (locked (mutex_rq 0) [] ++ signal (receive_event 0) ∷ [])
              refl))
          (Keeps-append (0 ∷ []) sent kept
            (Keeps-if (0 ∷ []) sends (send 0 pops sent_all disconnecting)
              (send-after pops sent_all disconnecting))
            (Keeps-if (0 ∷ []) keeps (push 0 refused false)
              (short_call-after (pushes refused false) refl)))))
job-after finishes h = refl

pub jobs-after : (js : List Job) → All HandlersReturn js → Keeps [] (jobs_acts 0 js)
unfolding after
jobs-after [] h = refl
jobs-after (j ∷ js) h =
    Keeps-append [] (job_acts 0 j) (jobs_acts 0 js) (job-after j h.0) (jobs-after js h.1)

-- A thread that keeps the discipline to its end, and then holds nothing.
abbrev pub IsOrderly : Thread → Type 0
IsOrderly t = after t.todo t.held ≡ some []

pub threads_of-IsOrderly :
    (jss : List (List Job)) → All (All HandlersReturn) jss → All IsOrderly (threads_of 0 jss)
threads_of-IsOrderly [] h = tt
threads_of-IsOrderly (js ∷ jss) h = (jobs-after js h.0, threads_of-IsOrderly jss h.1)
