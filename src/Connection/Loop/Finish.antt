-- ===== src/Connection/Loop/Finish.antt =====
-- Connection.cpp: what ConnThreadFunc leaves behind, and what a later connection of the object finds.
use dowow_network.Prelude.{◌≡◌, ◌≢◌, refl, true, false, none, [], arith}
use dowow_network.Connection.State.{
  Connection, is_connected, delete_send_buffer, delete_recv_buffer, has_something_to_send,
}
use dowow_network.Connection.Receive.Partial.{IsIdle}
use dowow_network.Connection.Api.{SocketDomain, af_unix, af_inet, af_other, initialize_by_fd}
use dowow_network.Connection.Loop.{finish, wait_for_refs}

-- Whatever state the thread leaves its loop in, and whatever others do while it waits, the object is
-- then not connected, and a new start over a UNIX or TCP socket gives one that is connected, is not
-- disconnecting, has nothing to send and waits for the first byte of a request: nothing of the old
-- connection's stream gets into the new one.
pub restart-IsIdle :
    (wait : Connection → Connection) (c : Connection) (domain : SocketDomain)
    → domain ≢ af_other
    → let d : Connection = initialize_by_fd (finish wait c) domain in
      (is_connected (finish wait c) ≡ false)
      × (is_connected d ≡ true)
      × (d.is_disconnecting ≡ false)
      × (has_something_to_send d ≡ false)
      × (d.recv_queue ≡ [])
      × IsIdle d
unfolding finish initialize_by_fd is_connected has_something_to_send delete_recv_buffer
    delete_send_buffer
restart-IsIdle wait c af_unix h =
    (refl, refl, refl, refl, refl, record { at_length = refl; no_bytes = refl; at_start = refl })
restart-IsIdle wait c af_inet h =
    (refl, refl, refl, refl, refl, record { at_length = refl; no_bytes = refl; at_start = refl })
restart-IsIdle wait c af_other h = absurd (h refl)

-- Where nothing refers to the object, the requests that were received and not pulled stay.
pub recv_queue-finish :
    (wait : Connection → Connection) (c : Connection)
    → c.refs_amount ≡ 0
    → c.not_needed_event ≡ none
    → (finish wait c).recv_queue ≡ c.recv_queue
unfolding finish wait_for_refs delete_recv_buffer delete_send_buffer
recv_queue-finish wait c h e = ground arith
