-- ===== src/Connection/Invariant/Sends.antt =====
-- The invariant over Connection.cpp's Send.
use dowow_network.Prelude.{
  ℕ, ◌+◌, ◌-◌, ◌%◌, ◌≡◌, refl, sym, subst, Bool, List-cases, inl, inr, Option, List, arith, ltb,
  ◌==◌, if◌then◌else◌, drop, Outcome, done, IfDone, IfDone->>=, IfDone-if, IfDone-option,
  IfDone-done,
}
use dowow_network.Prelude.Bytes.{u32_mod, read_bytes}
use dowow_network.Request
use dowow_network.Request.{Request}
use dowow_network.Connection.State.{Connection, delete_send_buffer}
use dowow_network.Connection.Send.{
  pop_send_queue, load_send_buffer, after_send, send_buffered, send_loaded, send,
}
use dowow_network.Connection.Send.Pending.{IsSendable}
use dowow_network.Connection.Send.Stream.{Takes, send_lem}
use dowow_network.Connection.Invariant.{IsSound, rest, rest-IsSound}

rest-pop :
    (c : Connection) → IfDone (λ (r : Bool × Connection). rest r.1 ≡ rest c) (pop_send_queue c)
unfolding pop_send_queue
rest-pop c = elim (List-cases c.send_queue) [
  | inl q ↦ rw q refl
  | inr (req, others, q) ↦ rw q (IfDone->>= _ (Request.serialize req) _ (λ buf ran. refl))
]

rest-load : (c : Connection) → IfDone (λ (d : Connection). rest d ≡ rest c) (load_send_buffer c)
unfolding load_send_buffer
rest-load c =
    IfDone-option _ c.send_buffer _ _
      (λ empty.
        IfDone->>= _ (pop_send_queue c) _
          (λ r ran. IfDone-done _ (pop_send_queue c) (rest-pop c) ran))
      (λ buf e. refl)

rest-after_send : (c : Connection) (n : ℕ) → rest (after_send c n).1 ≡ rest c
unfolding after_send delete_send_buffer
rest-after_send c n = ground arith

-- A call of `Send` leaves the fields of the receiving half as they are.
abbrev Keeps : Connection → Bool × Connection × List ℕ → Type 0
Keeps c r = rest r.1 ≡ rest c

module _ (kernel : ℕ → Option ℕ) where
  rest-send_buffered :
      (c : Connection) (buf : List ℕ) → IfDone (Keeps c) (send_buffered kernel c buf)
  unfolding send_buffered
  rest-send_buffered c buf =
      IfDone-option (Keeps c) (kernel asked) _ _ (λ broken. refl)
        (λ n took.
          IfDone-if (Keeps c) (n == 0) _ _ (λ none_sent. refl)
            (λ some_sent.
              IfDone->>= (Keeps c) (read_bytes (drop c.send_buffer_offset buf) n) _
                (λ bs ran. rest-after_send c n)))
    where
      left_to_send : ℕ
      left_to_send = (c.send_buffer_length + u32_mod - c.send_buffer_offset) % u32_mod

      asked : ℕ
      asked = if ltb left_to_send c.send_block_size then left_to_send else c.send_block_size

  rest-send_loaded : (c : Connection) → IfDone (Keeps c) (send_loaded kernel c)
  unfolding send_loaded
  rest-send_loaded c =
      IfDone-option (Keeps c) c.send_buffer _ _ (λ empty. refl) (λ buf e. rest-send_buffered c buf)

  rest-send : (c : Connection) → IfDone (Keeps c) (send kernel c)
  unfolding send
  rest-send c = IfDone->>= (Keeps c) (load_send_buffer c) (send_loaded kernel) (λ d loaded.
      subst (λ v. IfDone (λ (r : Bool × Connection × List ℕ). rest r.1 ≡ v) (send_loaded kernel d))
        (IfDone-done _ (load_send_buffer c) (rest-load c) loaded) (rest-send_loaded d))

  -- A call of `Send` keeps the invariant, whatever the kernel takes of what it is given.
  pub send-IsSound :
      Takes kernel
      → (c : Connection) (r : Bool × Connection × List ℕ) → IsSound c
      → send kernel c ≡ done r
      → IsSound r.1
  send-IsSound takes c r s ran =
      let (q, sent, same, sendable) = send_lem kernel takes c s.sendable in
      rest-IsSound c r.1 (IfDone-done (Keeps c) (send kernel c) (rest-send c) ran)
        (subst (λ (o : Outcome (Bool × Connection × List ℕ)). IfDone (λ p. IsSendable p.1) o) ran
          (subst (λ (o : Outcome (Bool × Connection × List ℕ)). IfDone (λ p. IsSendable p.1) o)
            (sym sent) sendable))
        s
