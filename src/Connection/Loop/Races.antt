-- ===== src/Connection/Loop/Races.antt =====
-- Connection.cpp: Push in one thread and the end of ConnThreadFunc in another.
use dowow_network.Prelude.{◌≡◌, ◌≢◌, refl, Bool, true, false, [], ◌∷◌, done}
use dowow_network.Request
use dowow_network.Request.{Request}
use dowow_network.Connection.State.{Connection, is_connected, is_disconnecting_now}
use dowow_network.Connection.Api.{
  SocketDomain, af_unix, af_inet, af_other, initialize_by_fd, enqueue, push_locked, push_with,
}
use dowow_network.Connection.Loop.{finish}

-- The request's name and arguments, its number left aside.
abbrev pub IsRenumbered : Request → Request → Type 0
IsRenumbered r req = (r.name ≡ req.name) × (r.arguments ≡ req.arguments)

push_with-open :
    (between : Connection → Connection) (c : Connection) (req : Request) (b : Bool)
    → is_connected c ≡ true
    → is_disconnecting_now c ≡ false
    → push_with between c req false b ≡ done (enqueue (between c) req b)
unfolding push_with push_locked
push_with-open between c req b connected alive = rw (connected, alive) refl

-- What the queue of an object that was cleared then holds.
unfoldable late_request :
    (wait : Connection → Connection) (c : Connection) (req : Request) → Bool → Request
late_request wait c req true = Request.set_id req (finish wait c).free_request_id
late_request wait c req false = req

restarted :
    (wait : Connection → Connection) (c : Connection) (req : Request) (b : Bool)
    (domain : SocketDomain)
    → domain ≢ af_other
    → let d : Connection = enqueue (finish wait c) req b in
      (is_connected d ≡ false)
      × (is_connected (initialize_by_fd d domain) ≡ true)
      × ((initialize_by_fd d domain).send_queue ≡ late_request wait c req b ∷ [])
      × IsRenumbered (late_request wait c req b) req
unfolding late_request finish enqueue initialize_by_fd is_connected Request.set_id
restarted wait c req true af_unix h = (refl, refl, refl, (refl, refl))
restarted wait c req false af_unix h = (refl, refl, refl, (refl, refl))
restarted wait c req true af_inet h = (refl, refl, refl, (refl, refl))
restarted wait c req false af_inet h = (refl, refl, refl, (refl, refl))
restarted wait c req b af_other h = absurd (h refl)

-- `Push` finds the object connected, the background thread ends before the send queue is locked, and
-- the object is started again over a UNIX or TCP socket. The object is not connected when the request
-- gets into its queue, where the deletion of the queue no longer reaches it: it is the one request in the
-- queue of the new connection, and will be sent to whoever is at the other end of that.
pub push_with-finish :
    (wait : Connection → Connection) (c : Connection) (req : Request) (change_request_id : Bool)
    (domain : SocketDomain)
    → is_connected c ≡ true
    → is_disconnecting_now c ≡ false
    → domain ≢ af_other
    → (d : Connection) × (r : Request) × (push_with (finish wait) c req false change_request_id
        ≡ done d)
      × (is_connected d ≡ false)
      × (is_connected (initialize_by_fd d domain) ≡ true)
      × ((initialize_by_fd d domain).send_queue ≡ r ∷ [])
      × IsRenumbered r req
push_with-finish wait c req b domain connected alive h =
    let (closed, opened, queued, same) = restarted wait c req b domain h in
    (
      enqueue (finish wait c) req b,
      late_request wait c req b,
      push_with-open (finish wait) c req b connected alive,
      closed,
      opened,
      queued,
      same,
    )
