-- ===== src/Connection/Invariant/Rounds.antt =====
-- Connection.cpp: a pass of ConnThreadFunc's loop as a way of calls.
use dowow_network.Prelude.{
  ℕ, ◌≡◌, Bool, Option, List, done, IfDone, IfDone->>=, IfDone-if, IfDone-done, IfDone-of,
}
use dowow_network.Request.{Request}
use dowow_network.Connection.State.{Connection}
use dowow_network.Connection.Send.{send}
use dowow_network.Connection.Send.Stream.{Takes}
use dowow_network.Connection.Receive.{receive}
use dowow_network.Connection.Loop.{
  Revents, poll, keep_alive, receive_if, send_if, keep_alive_if, events_round, round,
}
use dowow_network.Connection.Invariant.Receives.{Reads}
use dowow_network.Connection.Invariant.Reachable.{
  Reach, here, receiving, sends, keeping_alive, reading_event, stopping,
}

module _ (call : ℕ → Connection → Request → Connection) (recv : ℕ → Option (List ℕ))
    (socket_send : ℕ → Option ℕ) where
  module _ (tame : (h : ℕ) (x : Connection) (q : Request) → Reach x (call h x q))
      (reads : Reads recv) (takes : Takes socket_send) where
    receive_if-Reach :
        {c d : Connection} (b : Bool)
        → Reach c d
        → IfDone (λ (r : Bool × Connection). Reach c r.1) (receive_if call recv socket_send b d)
    unfolding receive_if
    receive_if-Reach {c} {d} b w =
        IfDone-if _ b _ _
          (λ t. IfDone-of _ (receive call recv d) (λ r ran. receiving w call tame recv reads ran))
          (λ f. w)

    send_if-Reach :
        {c d : Connection} (b : Bool)
        → Reach c d
        → IfDone
            (λ (r : Bool × Connection × List ℕ). Reach c r.1)
            (send_if call recv socket_send b d)
    unfolding send_if
    send_if-Reach {c} {d} b w =
        IfDone-if _ b _ _
          (λ t. IfDone-of _ (send socket_send d) (λ r ran. sends w socket_send takes ran)) (λ f. w)

    keep_alive_if-Reach :
        {c d : Connection} (b : Bool)
        → Reach c d
        → IfDone (Reach c) (keep_alive_if call recv socket_send b d)
    unfolding keep_alive_if
    keep_alive_if-Reach {c} {d} b w =
        IfDone-if _ b _ _ (λ t. IfDone-of _ (keep_alive d) (λ e ran. keeping_alive w ran)) (λ f. w)

    events_round-Reach :
        (ev : Revents) (c : Connection)
        → IfDone
            (λ (r : Bool × Connection × List ℕ). Reach c r.1)
            (events_round call recv socket_send ev c)
    unfolding events_round
    events_round-Reach ev c =
        IfDone->>= _ (receive_if call recv socket_send ev.readable c) _ (λ received e1.
          let w1 = IfDone-done _ _ (receive_if-Reach ev.readable (here c)) e1 in
          IfDone-if _ received.0 _ _
            (λ alive.
              IfDone->>= _ (send_if call recv socket_send ev.writable received.1) _ (λ sent e2.
                let w2 = IfDone-done _ _ (send_if-Reach ev.writable w1) e2 in
                IfDone-if _ sent.0 _ _
                  (λ going.
                    IfDone->>= _ (keep_alive_if call recv socket_send ev.our_sa sent.1) _
                      (λ kept e3.
                        reading_event (IfDone-done _ _ (keep_alive_if-Reach ev.our_sa w2) e3) ev))
                  (λ over. w2)))
            (λ over. w1))

    -- A pass of the background thread's loop that ends is such a way, whatever `poll` reports and the
    -- other threads do in between.
    pub round-Reach :
        (between : Connection → Connection)
        → ((x : Connection) → Reach x (between x))
        → (ready : Revents) (c : Connection) (r : Bool × Connection × List ℕ)
        → round call recv socket_send between ready c ≡ done r
        → Reach (between c) r.1
    unfolding round
    round-Reach between shared ready c r e =
        IfDone-done (λ (q : Bool × Connection × List ℕ). Reach (between c) q.1)
          (round call recv socket_send between ready c)
          (IfDone-if _ (poll c ready).to_stop _ _ (λ stop. stopping (here (between c)))
            (λ goes_on. events_round-Reach (poll c ready) (between c)))
          e
