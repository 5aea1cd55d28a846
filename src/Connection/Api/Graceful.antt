-- ===== src/Connection/Api/Graceful.antt =====
-- Connection.cpp: a graceful Disconnect.
use dowow_network.Prelude.{◌≡◌, true, false, done, arith}
use dowow_network.Connection.State.{Connection, is_connected, is_disconnecting_now}
use dowow_network.Connection.Api.{push, disconnect}

-- Of a connected object that is not disconnecting yet, a graceful `Disconnect` sets the flag and
-- changes nothing else: the dummy request does not reach the send queue, and the background thread
-- gets no event.
pub disconnect_graceful :
    (c : Connection)
    → is_connected c ≡ true
    → c.is_disconnecting ≡ false
    → disconnect c false ≡ done (record c { is_disconnecting = true })
unfolding disconnect push is_disconnecting_now is_connected
disconnect_graceful c connected alive = ground arith
