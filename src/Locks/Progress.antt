-- ===== src/Locks/Progress.antt =====
-- Connection.cpp: threads that use one connection always get on.
use dowow_network.Prelude.{
  ℕ, zero, suc, ◌+◌, ◌<◌, ◌≤◌, ◌≡◌, ◌≢◌, ◌⊎◌, refl, sym, subst, true, false, Bool-cases, inl, inr,
  some, List, [], ◌∷◌, All, arith,
}
use dowow_network.Locks.{
  Act, acquire, release, signal, renew, await, without, Thread, System, elem, thread_at, any_holds,
  other_holds, is_free, drop_first, leave, act, step_at,
}
use dowow_network.Locks.Order.{all_below, after, IsOrderly}

-- Some thread can act.
abbrev pub CanStep : System → Type 0
CanStep s = (i : ℕ) × (t : System) × (step_at i s ≡ some t)

pub some_inj : {a b : Thread} → some a ≡ some b → a ≡ b
some_inj p = cc

pub IsOrderly-at :
    (ts : List Thread) (i : ℕ) {t : Thread}
    → All IsOrderly ts
    → thread_at i ts ≡ some t
    → IsOrderly t
IsOrderly-at [] i h e = absurd (cc)
IsOrderly-at (u ∷ ts) zero {t} h e = subst IsOrderly (some_inj e) h.0
IsOrderly-at (u ∷ ts) (suc i) {t} h e = IsOrderly-at ts i {t = t} h.1 e

any_holds_at :
    (m : ℕ) (ts : List Thread)
    → any_holds m ts ≡ true
    → (j : ℕ) × (u : Thread) × (thread_at j ts ≡ some u) × (elem m u.held ≡ true)
any_holds_at m [] h = absurd (cc)
any_holds_at m (t ∷ ts) h = elim (Bool-cases (elem m t.held)) [
  | inl here ↦ (zero, t, refl, here)
  | inr there ↦
      let (j, u, at, held) = any_holds_at m ts (ground (arith, there)) in (suc j, u, at, held)
]

other_holds_at :
    (m i : ℕ) (ts : List Thread)
    → other_holds m i ts ≡ true
    → (j : ℕ) × (u : Thread) × (thread_at j ts ≡ some u) × (elem m u.held ≡ true)
other_holds_at m i [] h = absurd (cc)
other_holds_at m zero (t ∷ ts) h =
    let (j, u, at, held) = any_holds_at m ts h in (suc j, u, at, held)
other_holds_at m (suc i) (t ∷ ts) h = elim (Bool-cases (elem m t.held)) [
  | inl here ↦ (zero, t, refl, here)
  | inr there ↦
      let (j, u, at, held) = other_holds_at m i ts (ground (arith, there)) in (suc j, u, at, held)
]

-- More than any mutex that is held.
abbrev weight_held : List ℕ → ℕ
weight_held [] = 0
weight_held (m ∷ ms) = suc m + weight_held ms

abbrev weight : List Thread → ℕ
weight [] = 0
weight (t ∷ ts) = weight_held t.held + weight ts

elem-weight_held : (m : ℕ) (ms : List ℕ) → elem m ms ≡ true → m < weight_held ms
elem-weight_held m [] h = absurd (cc)
elem-weight_held m (k ∷ ms) h = ground (arith, elem-weight_held m ms)

held-weight :
    (m j : ℕ) (ts : List Thread) {u : Thread}
    → thread_at j ts ≡ some u
    → elem m u.held ≡ true
    → m < weight ts
held-weight m j [] e h = absurd (cc)
held-weight m zero (t ∷ ts) {u} e h = omega (
  arith,
  elem-weight_held m t.held (subst (λ (v : Thread). elem m v.held ≡ true) (sym (some_inj e)) h),
)
held-weight m (suc j) (t ∷ ts) {u} e h = omega (arith, held-weight m j ts {u = u} e h)

elem-all_below : (m n : ℕ) (ms : List ℕ) → elem m ms ≡ true → all_below n ms ≡ true → m < n
elem-all_below m n [] h k = absurd (cc)
elem-all_below m n (a ∷ ms) h k = ground (arith, elem-all_below m n ms)

step_of :
    (s t : System) (i : ℕ) (u : Thread)
    → thread_at i s.threads ≡ some u
    → act u.todo i u s ≡ some t
    → CanStep s
unfolding step_at
step_of s t i u at e = (i, t, rw (step_at, at) e)

nothing_held :
    (m n : ℕ) (held : List ℕ) (rest : List Act)
    → elem m held ≡ true
    → after (await n ∷ rest) held ≢ some []
unfolding after
nothing_held m n [] rest h e = cc
nothing_held m n (k ∷ held) rest h e = cc

-- A thread that does not wait for a mutex can act: for one that holds a mutex, as it releases it.
holder_steps :
    (s : System) (j m : ℕ) (u : Thread) (todo : List Act)
    → thread_at j s.threads ≡ some u
    → u.todo ≡ todo
    → IsOrderly u
    → elem m u.held ≡ true
    → ((n : ℕ) (rest : List Act)
        → u.todo ≡ acquire n ∷ rest
        → elem n u.held ≡ false
        → m < n
        → CanStep s)
    → CanStep s
unfolding act after
holder_steps s j m u [] at e ord holds climbs =
    absurd (ground (arith, subst (λ xs. after xs u.held ≡ some []) e ord))
holder_steps s j m u (release n ∷ rest) at e ord holds climbs =
    step_of s (leave j (drop_first u.held) rest s.written s) j u at (rw (e, act) refl)
holder_steps s j m u (signal n ∷ rest) at e ord holds climbs =
    step_of s (leave j u.held rest (n ∷ s.written) s) j u at (rw (e, act) refl)
holder_steps s j m u (renew n ∷ rest) at e ord holds climbs =
    step_of s (leave j u.held rest (without n s.written) s) j u at (rw (e, act) refl)
holder_steps s j m u (await n ∷ rest) at e ord holds climbs =
    absurd (nothing_held m n u.held rest holds (subst (λ xs. after xs u.held ≡ some []) e ord))
holder_steps s j m u (acquire n ∷ rest) at e ord holds climbs = elim (Bool-cases (elem n u.held)) [
  | inl again ↦ step_of s (leave j (n ∷ u.held) rest s.written s) j u at (rw (e, act, again) refl)
  | inr new ↦
      let keeps = subst (λ xs. after xs u.held ≡ some []) e ord in
      climbs n rest e new (elem-all_below m n u.held holds (ground (arith, keeps, new)))
]

-- Of the threads that wait for a mutex, one that waits for the highest does so in vain for no one.
climb :
    (fuel : ℕ) (s : System) (i m : ℕ) (t : Thread) (rest : List Act)
    → All IsOrderly s.threads
    → thread_at i s.threads ≡ some t
    → t.todo ≡ acquire m ∷ rest
    → weight s.threads ≤ m + fuel
    → CanStep s
unfolding act
climb zero s i m t rest ord at e enough = elim (Bool-cases (is_free m i t s.threads)) [
  | inl free ↦ step_of s (leave i (m ∷ t.held) rest s.written s) i t at (rw (e, act, free) refl)
  | inr taken ↦
      let (j, u, at_j, holds) = other_holds_at m i s.threads (ground (arith, taken)) in
      absurd (omega (arith, held-weight m j s.threads {u = u} at_j holds))
]
climb (suc fuel) s i m t rest ord at e enough = elim (Bool-cases (is_free m i t s.threads)) [
  | inl free ↦ step_of s (leave i (m ∷ t.held) rest s.written s) i t at (rw (e, act, free) refl)
  | inr taken ↦
      let (j, u, at_j, holds) = other_holds_at m i s.threads (ground (arith, taken)) in
      holder_steps s j m u u.todo at_j refl (IsOrderly-at s.threads j {t = u} ord at_j) holds
        (λ n others e' new above. climb fuel s j n u others ord at_j e' (omega arith))
]

-- A thread is at its end, or waits, with no mutex, for an event that was not written.
abbrev pub IsParked : List ℕ → Thread → Type 0
IsParked written t =
    (t.todo ≡ [])
    ⊎ ((e : ℕ) × (rest : List Act) × (t.todo ≡ await e ∷ rest)
        × (elem e written ≡ false)
        × (t.held ≡ []))

waits_free :
    (e : ℕ) (held : List ℕ) (rest : List Act) → after (await e ∷ rest) held ≡ some [] → held ≡ []
unfolding after
waits_free e [] rest h = refl
waits_free e (k ∷ held) rest h = absurd (cc)

-- One that is not parked: it or another can act.
IsParked-or_steps :
    (s : System) (i : ℕ) (t : Thread) (todo : List Act)
    → All IsOrderly s.threads
    → thread_at i s.threads ≡ some t
    → t.todo ≡ todo
    → CanStep s ⊎ IsParked s.written t
unfolding act
IsParked-or_steps s i t [] ord at e = inr (inl e)
IsParked-or_steps s i t (acquire m ∷ rest) ord at e =
    inl (climb (weight s.threads) s i m t rest ord at e (omega arith))
IsParked-or_steps s i t (release m ∷ rest) ord at e =
    inl (step_of s (leave i (drop_first t.held) rest s.written s) i t at (rw (e, act) refl))
IsParked-or_steps s i t (signal m ∷ rest) ord at e =
    inl (step_of s (leave i t.held rest (m ∷ s.written) s) i t at (rw (e, act) refl))
IsParked-or_steps s i t (renew m ∷ rest) ord at e =
    inl (step_of s (leave i t.held rest (without m s.written) s) i t at (rw (e, act) refl))
IsParked-or_steps s i t (await m ∷ rest) ord at e = elim (Bool-cases (elem m s.written)) [
  | inl written ↦
      inl (step_of s (leave i t.held rest s.written s) i t at (rw (e, act, written) refl))
  | inr unwritten ↦
      let orderly =
        subst (λ xs. after xs t.held ≡ some []) e (IsOrderly-at s.threads i {t = t} ord at) in
      inr (inr (m, rest, e, unwritten, waits_free m t.held rest orderly))
]

All-IsParked :
    (s : System) (ts : List Thread)
    → ((i : ℕ) (t : Thread) → thread_at i ts ≡ some t → CanStep s ⊎ IsParked s.written t)
    → CanStep s ⊎ All (IsParked s.written) ts
All-IsParked s [] each = inr tt
All-IsParked s (t ∷ ts) each = elim (each zero t refl) [
  | inl steps ↦ inl steps
  | inr here ↦ elim (All-IsParked s ts (λ i u at. each (suc i) u at)) [
    | inl steps ↦ inl steps
    | inr there ↦ inr (here, there)
  ]
]

-- One of the threads can act, or all are parked.
pub progress :
    (s : System) → All IsOrderly s.threads → CanStep s ⊎ All (IsParked s.written) s.threads
progress s ord = All-IsParked s s.threads (λ i t at. IsParked-or_steps s i t t.todo ord at refl)
