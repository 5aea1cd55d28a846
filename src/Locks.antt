-- ===== src/Locks.antt =====
-- The mutexes of Connection.hpp, as threads take and release them. A thread is what it still does to
-- mutexes and events; what it does to the objects meanwhile is left out here.
pub mod Calls
pub mod Order
pub mod Progress
pub mod Runs
pub mod Deadlocks
use dowow_network.Prelude.{
  ℕ, zero, suc, ◌+◌, Bool, true, false, ◌||◌, not, Option, none, some, List, [], ◌∷◌, length, ◌==◌,
  if◌then◌else◌,
}

-- `await` waits until an event has been written; `renew` makes an event anew, or reads it, so that what
-- was written before is gone.
pub data Act : Type 0 where
  acquire release signal renew await : ℕ → Act

-- The mutexes that it holds, the last one first, as often as it took each, and what it still does.
pub record Thread : Type 0 where
  pub held : List ℕ
  pub todo : List Act

pub record System : Type 0 where
  pub threads : List Thread
  -- The events that were written.
  pub written : List ℕ

abbrev pub elem : ℕ → List ℕ → Bool
elem n [] = false
elem n (m ∷ ms) = (n == m) || elem n ms

abbrev pub thread_at : ℕ → List Thread → Option Thread
thread_at i [] = none
thread_at zero (t ∷ ts) = some t
thread_at (suc i) (t ∷ ts) = thread_at i ts

abbrev pub put_thread : ℕ → Thread → List Thread → List Thread
put_thread i u [] = []
put_thread zero u (t ∷ ts) = u ∷ ts
put_thread (suc i) u (t ∷ ts) = t ∷ put_thread i u ts

abbrev pub any_holds : ℕ → List Thread → Bool
any_holds m [] = false
any_holds m (t ∷ ts) = elem m t.held || any_holds m ts

abbrev pub without : ℕ → List ℕ → List ℕ
without e [] = []
without e (x ∷ xs) = if e == x then without e xs else x ∷ without e xs

-- Whether a thread other than the one at a position holds a mutex.
abbrev pub other_holds : ℕ → ℕ → List Thread → Bool
other_holds m i [] = false
other_holds m zero (t ∷ ts) = any_holds m ts
other_holds m (suc i) (t ∷ ts) = elem m t.held || other_holds m i ts

-- `std::recursive_mutex`: its owner may take it again.
abbrev pub is_free : ℕ → ℕ → Thread → List Thread → Bool
is_free m i t ts = elem m t.held || not (other_holds m i ts)

-- A mutex is released in the reverse order of the takes.
abbrev pub drop_first : List ℕ → List ℕ
drop_first [] = []
drop_first (m ∷ ms) = ms

-- The thread at a position is left with this.
abbrev pub leave : ℕ → List ℕ → List Act → List ℕ → System → System
leave i held todo written s = record {
  threads = put_thread i (record { held = held; todo = todo }) s.threads;
  written = written;
}

-- The first of a thread's actions; `none` where there is none or it has to wait.
unfoldable pub act : List Act → ℕ → Thread → System → Option System
act [] i t s = none
act (acquire m ∷ rest) i t s =
    if is_free m i t s.threads then some (leave i (m ∷ t.held) rest s.written s) else none
act (release m ∷ rest) i t s = some (leave i (drop_first t.held) rest s.written s)
act (signal e ∷ rest) i t s = some (leave i t.held rest (e ∷ s.written) s)
act (renew e ∷ rest) i t s = some (leave i t.held rest (without e s.written) s)
act (await e ∷ rest) i t s =
    if elem e s.written then some (leave i t.held rest s.written s) else none

unfoldable pub step_at : ℕ → System → Option System
unfolding act
step_at i s = elim (thread_at i s.threads) [ none ↦ none | some t ↦ act t.todo i t s ]

-- A schedule is the positions of the threads that act, one after the other.
unfoldable pub run : List ℕ → System → Option System
run [] s = some s
run (i ∷ is) s = elim (step_at i s) [ none ↦ none | some t ↦ run is t ]

-- The actions that are left.
abbrev pub remaining : List Thread → ℕ
remaining [] = 0
remaining (t ∷ ts) = length t.todo + remaining ts
