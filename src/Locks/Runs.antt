-- ===== src/Locks/Runs.antt =====
-- Connection.cpp: every run of threads that use one connection comes to its end.
use dowow_network.Prelude.{
  ℕ, zero, suc, ◌+◌, ◌≡◌, ◌⊎◌, refl, ap, subst, Bool-cases, Option-cases, inl, inr, some, List, [],
  ◌∷◌, All, length, arith,
}
use dowow_network.Locks.{
  Act, acquire, release, signal, renew, await, without, elem, Thread, System, thread_at, put_thread,
  is_free, drop_first, leave, act, step_at, run, remaining,
}
use dowow_network.Locks.Calls.{Job, HandlersReturn, start}
use dowow_network.Locks.Order.{after, IsOrderly, threads_of-IsOrderly}
use dowow_network.Locks.Progress.{CanStep, IsParked, some_inj, IsOrderly-at, progress}

put-IsOrderly :
    (i : ℕ) (u : Thread) (ts : List Thread)
    → All IsOrderly ts
    → IsOrderly u
    → All IsOrderly (put_thread i u ts)
put-IsOrderly i u [] h k = tt
put-IsOrderly zero u (t ∷ ts) h k = (k, h.1)
put-IsOrderly (suc i) u (t ∷ ts) h k = (h.0, put-IsOrderly i u ts h.1 k)

remaining-put :
    (i : ℕ) (u : Thread) (ts : List Thread) {t : Thread}
    → thread_at i ts ≡ some t
    → remaining (put_thread i u ts) + length t.todo ≡ remaining ts + length u.todo
remaining-put i u [] e = absurd (cc)
remaining-put zero u (w ∷ ts) {t} e = omega (arith, ap (λ (v : Thread). length v.todo) (some_inj e))
remaining-put (suc i) u (w ∷ ts) {t} e = omega (arith, remaining-put i u ts {t = t} e)

System_inj : {a b : System} → some a ≡ some b → a ≡ b
System_inj p = cc

-- What an action leaves.
abbrev Left : System → System → Type 0
Left s s' = All IsOrderly s'.threads × (suc (remaining s'.threads) ≡ remaining s.threads)

left_lem :
    (s : System) (i : ℕ) (t : Thread) (held : List ℕ) (rest : List Act) (written : List ℕ)
    → All IsOrderly s.threads
    → thread_at i s.threads ≡ some t
    → length t.todo ≡ suc (length rest)
    → after rest held ≡ some []
    → Left s (leave i held rest written s)
left_lem s i t held rest written ord at one ends = (
  put-IsOrderly i (record { held = held; todo = rest }) s.threads ord ends,
  omega (arith, remaining-put i (record { held = held; todo = rest }) s.threads {t = t} at),
)

awaited :
    (e : ℕ) (held : List ℕ) (rest : List Act)
    → after (await e ∷ rest) held ≡ some []
    → after rest held ≡ some []
unfolding after
awaited e [] rest h = h
awaited e (k ∷ held) rest h = absurd (cc)

act-remaining :
    (todo : List Act) (s : System) (i : ℕ) (t : Thread) {s' : System}
    → All IsOrderly s.threads
    → thread_at i s.threads ≡ some t
    → t.todo ≡ todo
    → act todo i t s ≡ some s'
    → Left s s'
unfolding act after
act-remaining [] s i t {s'} ord at e ran = absurd (cc)
act-remaining (acquire m ∷ rest) s i t {s'} ord at e ran =
    let keeps =
      subst (λ xs. after xs t.held ≡ some []) e (IsOrderly-at s.threads i {t = t} ord at) in
    let one = ap (λ (xs : List Act). length xs) e in
    elim (Bool-cases (is_free m i t s.threads)) [
      | inl free ↦
          let next : leave i (m ∷ t.held) rest s.written s ≡ s' =
            System_inj (ground (arith, ran, free)) in
          subst (Left s) next
            (left_lem s i t (m ∷ t.held) rest s.written ord at one (ground (arith, keeps)))
      | inr taken ↦ absurd (ground (arith, ran, taken))
    ]
act-remaining (release m ∷ rest) s i t {s'} ord at e ran =
    let keeps =
      subst (λ xs. after xs t.held ≡ some []) e (IsOrderly-at s.threads i {t = t} ord at) in
    let one = ap (λ (xs : List Act). length xs) e in
    subst (Left s) (System_inj ran)
      (left_lem s i t (drop_first t.held) rest s.written ord at one (ground (arith, keeps)))
act-remaining (signal m ∷ rest) s i t {s'} ord at e ran =
    let keeps =
      subst (λ xs. after xs t.held ≡ some []) e (IsOrderly-at s.threads i {t = t} ord at) in
    let one = ap (λ (xs : List Act). length xs) e in
    subst (Left s) (System_inj ran) (left_lem s i t t.held rest (m ∷ s.written) ord at one keeps)
act-remaining (renew m ∷ rest) s i t {s'} ord at e ran =
    let keeps =
      subst (λ xs. after xs t.held ≡ some []) e (IsOrderly-at s.threads i {t = t} ord at) in
    let one = ap (λ (xs : List Act). length xs) e in
    subst (Left s) (System_inj ran)
      (left_lem s i t t.held rest (without m s.written) ord at one keeps)
act-remaining (await m ∷ rest) s i t {s'} ord at e ran =
    let keeps =
      awaited m t.held rest
        (subst (λ xs. after xs t.held ≡ some []) e (IsOrderly-at s.threads i {t = t} ord at)) in
    let one = ap (λ (xs : List Act). length xs) e in
    elim (Bool-cases (elem m s.written)) [
      | inl written ↦
          let next : leave i t.held rest s.written s ≡ s' =
            System_inj (ground (arith, ran, written)) in
          subst (Left s) next (left_lem s i t t.held rest s.written ord at one keeps)
      | inr unwritten ↦ absurd (ground (arith, ran, unwritten))
    ]

step_at-remaining :
    (s : System) (i : ℕ) {s' : System} → All IsOrderly s.threads → step_at i s ≡ some s' → Left s s'
unfolding step_at
step_at-remaining s i {s'} ord ran = elim (Option-cases (thread_at i s.threads)) [
  | inl absent ↦ absurd (ground (arith, ran, absent))
  | inr (t, at) ↦ act-remaining t.todo s i t {s' = s'} ord at refl (ground (arith, ran, at))
]

run-remaining :
    (schedule : List ℕ) (s : System) {s' : System}
    → All IsOrderly s.threads
    → run schedule s ≡ some s'
    → All IsOrderly s'.threads × (length schedule + remaining s'.threads ≡ remaining s.threads)
unfolding run
run-remaining [] s {s'} ord ran =
    subst
      (λ (v : System). All IsOrderly v.threads × (0 + remaining v.threads ≡ remaining s.threads))
      (System_inj ran) (ord, omega arith)
run-remaining (i ∷ schedule) s {s'} ord ran = elim (Option-cases (step_at i s)) [
  | inl stuck ↦ absurd (ground (arith, ran, stuck))
  | inr (u, moved) ↦
      let (ord_u, one) = step_at-remaining s i {s' = u} ord moved in
      let (last, rest) = run-remaining schedule u {s' = s'} ord_u (ground (arith, ran, moved)) in
      (last, omega (arith, one, rest))
]

-- Any number of threads, each with any calls of one connection's functions, with waits of any length,
-- passes of the background thread's loop, and ends of the background thread while nothing refers to the
-- connection; a handler calls functions of the connection too, but not to wait without a limit. In whatever
-- order they act on the mutexes and events, each action brings them nearer to their end; and one of them can
-- act, or each has come to its end or waits for an event that was not written, and holds no mutex then: no
-- thread waits for ever for a mutex.
pub run-Progress :
    (jobs : List (List Job)) (schedule : List ℕ) (s : System)
    → All (All HandlersReturn) jobs
    → run schedule (start 0 jobs) ≡ some s
    → (length schedule + remaining s.threads ≡ remaining (start 0 jobs).threads)
      × (CanStep s ⊎ All (IsParked s.written) s.threads)
run-Progress jobs schedule s returns ran =
    let (ord, count) =
      run-remaining schedule (start 0 jobs) {s' = s} (threads_of-IsOrderly jobs returns) ran in
    (count, progress s ord)
