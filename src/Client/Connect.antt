-- ===== src/Client/Connect.antt =====
-- Client.cpp: what ConnectTcp and ConnectUnix leave behind.
use dowow_network.Prelude.{
  ℕ, ◌+◌, ◌≤◌, ◌≡◌, refl, sym, ap, ◌∙◌, not, ◌&&◌, ◌||◌, if◌then◌else◌, none, some, Bool, true,
  false, Bool-cases, ◌⊎◌, Option-cases, inl, inr, List, subst, length, arith, done,
}
use dowow_network.Connection.State.{Connection, is_connected, set_even_request_ids_part}
use dowow_network.Connection.Api.{
  SocketDomain, af_unix, af_inet, client_connected, initialize_by_fd, start,
}
use dowow_network.Client.{
  Client, System, Answer, connected, in_progress, refused, after_connect, give_up, succeed,
  tcp_thread, unix_thread, prepare, conclude, is_connecting, connect_tcp, connect_unix,
}
use dowow_network.Server.Start.{sun_path_size}

-- What `connect` came to: at once, or within the timeout.
unfoldable pub reached : System → Bool
reached sys = elim sys.connects [ connected ↦ true | in_progress ↦ sys.readable | refused ↦ false ]

-- An object that was neither connected nor connecting gets connected where a socket is made, the address
-- can be used, and `connect` reaches the other side.
abbrev pub succeeds : System → Bool → Client → Bool
succeeds sys usable c =
    not (is_connected c.connection || is_connecting c)
    && ((elim sys.socket [ none ↦ false | some fd ↦ true ]) && (usable && reached sys))

-- The answer is whether that is so; then the connection is the one set up for the socket, else it is as it
-- was; it is connected if it was, or if the answer is true; and the object is connecting if it was.
pub record IsAttempt (sys : System) (usable : Bool) (domain : SocketDomain) (c : Client)
    (r : Bool × Client) : Type 0 where
  pub told : r.0 ≡ succeeds sys usable c
  pub made : r.1.connection ≡ (if r.0 then client_connected c.connection domain else c.connection)
  pub on : is_connected r.1.connection ≡ (is_connected c.connection || r.0)
  pub over : is_connecting r.1 ≡ is_connecting c

client_connected_lem :
    (c : Connection) (domain : SocketDomain)
    → (domain ≡ af_unix → is_connected (client_connected c domain) ≡ true)
      × (domain ≡ af_inet → is_connected (client_connected c domain) ≡ true)
unfolding client_connected initialize_by_fd is_connected set_even_request_ids_part start
client_connected_lem c domain = (λ e. ground (arith, e), λ e. ground (arith, e))

Answer-cases : (a : Answer) → (a ≡ connected) ⊎ ((a ≡ in_progress) ⊎ (a ≡ refused))
Answer-cases connected = inl refl
Answer-cases in_progress = inr (inl refl)
Answer-cases refused = inr (inr refl)

-- Nothing is changed by a call that fails at once, but for the descriptor.
refused-IsAttempt :
    (sys : System) (usable : Bool) (domain : SocketDomain) (c d : Client)
    → succeeds sys usable c ≡ false
    → d.connection ≡ c.connection
    → is_connecting d ≡ is_connecting c
    → IsAttempt sys usable domain c (false, d)
refused-IsAttempt sys usable domain c d bad same busy = record {
  told = sym bad;
  made = same;
  on = ap is_connected same ∙ ground arith;
  over = busy;
}

after_connect-reached :
    (sys : System) (domain : SocketDomain) (x : Client)
    → reached sys ≡ true
    → after_connect sys domain x ≡ succeed x domain
unfolding after_connect reached
after_connect-reached sys domain x hit = elim (Answer-cases sys.connects) [
  | inl e ↦ rw (e, after_connect) refl
  | inr (inr e) ↦ absurd (ground (arith, e, hit))
  | inr (inl e) ↦ ground (arith, e, hit)
]

after_connect_missed :
    (sys : System) (domain : SocketDomain) (x : Client)
    → reached sys ≡ false
    → after_connect sys domain x ≡ give_up x
unfolding after_connect reached
after_connect_missed sys domain x missed = elim (Answer-cases sys.connects) [
  | inl e ↦ absurd (ground (arith, e, missed))
  | inr (inr e) ↦ rw (e, after_connect) refl
  | inr (inl e) ↦ ground (arith, e, missed)
]

tcp_thread_valid :
    (sys : System) (x : Client)
    → sys.valid_address ≡ true
    → tcp_thread sys x ≡ after_connect sys af_inet x
unfolding tcp_thread
tcp_thread_valid sys x valid = ground (arith, valid)

tcp_thread_invalid :
    (sys : System) (x : Client) → sys.valid_address ≡ false → tcp_thread sys x ≡ give_up x
unfolding tcp_thread
tcp_thread_invalid sys x invalid = ground (arith, invalid)

or_false : (a b : Bool) → (a || b) ≡ false → (a ≡ false) × (b ≡ false)
or_false false false e = (refl, refl)
or_false false true e = cc
or_false true b e = cc

no_socket : (c : Client) → c.temp_socket_fd ≡ none → is_connecting c ≡ false
unfolding is_connecting
no_socket c e = ground (arith, e)

module _ (sys : System) (domain : SocketDomain) (c : Client)
    (off : is_connected c.connection ≡ false) (idle : is_connecting c ≡ false) where
  give_up-IsAttempt :
      (usable : Bool)
      → succeeds sys usable c ≡ false
      → IsAttempt sys usable domain c (conclude (give_up (prepare sys c)))
  unfolding conclude give_up prepare
  give_up-IsAttempt usable bad = record {
    told = off ∙ sym bad;
    made = rw off refl;
    on = rw off refl;
    over = no_socket _ refl ∙ sym idle;
  }

  succeed-IsAttempt :
      succeeds sys true c ≡ true
      → is_connected (client_connected c.connection domain) ≡ true
      → IsAttempt sys true domain c (conclude (succeed (prepare sys c) domain))
  unfolding conclude succeed prepare
  succeed-IsAttempt good on = record {
    told = on ∙ sym good;
    made = rw on refl;
    on = rw (on, off) refl;
    over = no_socket _ refl ∙ sym idle;
  }

  -- Past the guard, with a socket.
  succeeds_lem :
      (fd : ℕ) (usable : Bool)
      → sys.socket ≡ some fd
      → succeeds sys usable c ≡ (usable && reached sys)
  succeeds_lem fd usable made = ground (arith, off, idle, made)

  after_connect-IsAttempt :
      (fd : ℕ)
      → sys.socket ≡ some fd
      → is_connected (client_connected c.connection domain) ≡ true
      → IsAttempt sys true domain c (conclude (after_connect sys domain (prepare sys c)))
  after_connect-IsAttempt fd made on = elim (Bool-cases (reached sys)) [
    | inl hit ↦
        subst (λ x. IsAttempt sys true domain c (conclude x))
          (sym (after_connect-reached sys domain (prepare sys c) hit))
          (succeed-IsAttempt (succeeds_lem fd true made ∙ hit) on)
    | inr missed ↦
        subst (λ x. IsAttempt sys true domain c (conclude x))
          (sym (after_connect_missed sys domain (prepare sys c) missed))
          (give_up-IsAttempt true (succeeds_lem fd true made ∙ missed))
  ]

  tcp_thread-IsAttempt :
      (fd : ℕ)
      → sys.socket ≡ some fd
      → is_connected (client_connected c.connection domain) ≡ true
      → domain ≡ af_inet
      → IsAttempt sys sys.valid_address domain c (conclude (tcp_thread sys (prepare sys c)))
  tcp_thread-IsAttempt fd made on inet = elim (Bool-cases sys.valid_address) [
    | inl valid ↦
        let result : tcp_thread sys (prepare sys c) ≡ after_connect sys domain (prepare sys c) =
          tcp_thread_valid sys (prepare sys c) valid
          ∙ ap (λ a. after_connect sys a (prepare sys c)) (sym inet) in
        subst (λ (v : Bool × Client). IsAttempt sys v.0 domain c (conclude v.1))
          (ap (λ b. (b, after_connect sys domain (prepare sys c))) (sym valid)
            ∙ ap (λ x. (sys.valid_address, x)) (sym result))
          (after_connect-IsAttempt fd made on)
    | inr invalid ↦
        subst (λ x. IsAttempt sys sys.valid_address domain c (conclude x))
          (sym (tcp_thread_invalid sys (prepare sys c) invalid))
          (give_up-IsAttempt sys.valid_address
            (succeeds_lem fd sys.valid_address made ∙ ap (λ b. b && reached sys) invalid))
  ]

-- A call of an object that is connected or connecting.
busy-IsAttempt :
    (sys : System) (usable : Bool) (domain : SocketDomain) (c : Client)
    → (is_connected c.connection || is_connecting c) ≡ true
    → IsAttempt sys usable domain c (false, c)
busy-IsAttempt sys usable domain c busy =
    refused-IsAttempt sys usable domain c c (rw busy refl) refl refl

-- A call for which no socket is made.
none-IsAttempt :
    (sys : System) (usable : Bool) (domain : SocketDomain) (c : Client)
    → sys.socket ≡ none
    → is_connecting c ≡ false
    → IsAttempt sys usable domain c (false, record c { temp_socket_fd = none })
none-IsAttempt sys usable domain c missing idle =
    refused-IsAttempt sys usable domain c (record c { temp_socket_fd = none })
      (ground (arith, missing)) refl (no_socket _ refl ∙ sym idle)

connect_tcp-IsAttempt :
    (sys : System) (c : Client) → IsAttempt sys sys.valid_address af_inet c (connect_tcp sys c)
connect_tcp-IsAttempt sys c = elim (Bool-cases (is_connected c.connection || is_connecting c)) [
  | inl busy ↦
      let result : connect_tcp sys c ≡ (false, c) = unfold connect_tcp in rw busy refl in
      subst (IsAttempt sys sys.valid_address af_inet c) (sym result)
        (busy-IsAttempt sys sys.valid_address af_inet c busy)
  | inr free ↦
      let (off, idle) = or_false (is_connected c.connection) (is_connecting c) free in
      elim (Option-cases sys.socket) [
        | inl missing ↦
            let result : connect_tcp sys c ≡ (false, record c { temp_socket_fd = none }) =
              unfold connect_tcp in ground arith in
            subst (IsAttempt sys sys.valid_address af_inet c) (sym result)
              (none-IsAttempt sys sys.valid_address af_inet c missing idle)
        | inr (fd, made) ↦
            let result : connect_tcp sys c ≡ conclude (tcp_thread sys (prepare sys c)) =
              unfold connect_tcp in ground arith in
            subst (IsAttempt sys sys.valid_address af_inet c) (sym result) (
              tcp_thread-IsAttempt sys af_inet c off idle fd made
                ((client_connected_lem c.connection af_inet).1 refl) refl)
      ]
]

connect_unix-IsAttempt :
    (sys : System) (c : Client) (path : List ℕ)
    → length path + 1 ≤ sun_path_size
    → (r : Bool × Client) × (connect_unix sys c path ≡ done r) × IsAttempt sys true af_unix c r
connect_unix-IsAttempt sys c path fits =
    elim (Bool-cases (is_connected c.connection || is_connecting c)) [
      | inl busy ↦
          ((false, c), unfold connect_unix in rw busy refl, busy-IsAttempt sys true af_unix c busy)
      | inr free ↦
          let (off, idle) = or_false (is_connected c.connection) (is_connecting c) free in
          elim (Option-cases sys.socket) [
            | inl missing ↦ (
              (false, record c { temp_socket_fd = none }),
              unfold connect_unix in ground arith,
              none-IsAttempt sys true af_unix c missing idle,
            )
            | inr (fd, made) ↦ (
              conclude (after_connect sys af_unix (prepare sys c)),
              unfold connect_unix unix_thread in ground arith,
              after_connect-IsAttempt sys af_unix c off idle fd made
                  ((client_connected_lem c.connection af_unix).0 refl),
            )
          ]
    ]

-- Whatever the system calls answer: `ConnectTcp` returns, and so does `ConnectUnix` for a path that fits its
-- address. The answer is true just where the object was neither connected nor connecting, a socket was
-- made, for TCP the address could be read, and `connect` was done at once or was in progress and the
-- socket was readable within the timeout. The connection is then the one set up for a client's socket,
-- else as it was; it is connected afterwards just where it was or the answer is true; and the object is
-- connecting afterwards just where it was before.
pub connects-IsAttempt :
    (sys : System) (c : Client) (path : List ℕ)
    → length path + 1 ≤ sun_path_size
    → IsAttempt sys sys.valid_address af_inet c (connect_tcp sys c)
      × ((r : Bool × Client) × (connect_unix sys c path ≡ done r) × IsAttempt sys true af_unix c r)
connects-IsAttempt sys c path fits =
    (connect_tcp-IsAttempt sys c, connect_unix-IsAttempt sys c path fits)
