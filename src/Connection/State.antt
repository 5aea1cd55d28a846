-- ===== src/Connection/State.antt =====
-- The object of Connection.hpp, with the functions of Connection.cpp that set and read its fields.
-- Each function here is one step; `Locks` has the mutexes that they take. An event descriptor is its
-- counter and a timer the seconds it was last set to; `none` is the descriptor -1. The tag is not used by the library.
use dowow_network.Prelude.{
  ℕ, ◌*◌, ◌+◌, ◌-◌, ◌%◌, Bool, true, false, not, ◌&&◌, ◌||◌, Option, none, some, List, [], ◌∷◌, ltb,
  ◌==◌, if◌then◌else◌,
}
use dowow_network.Prelude.Int.{ℤ, pos, negsuc}
use dowow_network.Prelude.Bytes.{u32_mod, bytes_eq}
use dowow_network.Request.{Request}

pub record Connection : Type 0 where
  pub free_request_id : ℕ
  pub is_even_request_parts : Bool
  pub is_disconnecting : Bool
  pub socket_type : ℕ
  pub send_block_size : ℕ
  pub send_buffer : Option (List ℕ)
  pub send_buffer_length : ℕ
  pub send_buffer_offset : ℕ
  pub send_queue : List Request
  pub recv_block_size : ℕ
  pub recv_buffer_max_length : ℕ
  -- The bytes of the buffer that are written so far.
  pub recv_buffer : List ℕ
  pub recv_buffer_length : ℕ
  pub recv_buffer_offset : ℕ
  pub recv_queue : List Request
  pub is_recv_length : Bool
  -- A handler is the number of the function that the pointer points to.
  pub handler_default : Option ℕ
  pub handlers_named : List (List ℕ × ℕ)
  pub push_event : Option ℕ
  pub to_stop_event : Option ℕ
  pub stopped_event : Option ℕ
  pub receive_event : Option ℕ
  pub not_needed_event : Option ℕ
  pub our_sa_timer : Option ℕ
  pub their_na_timer : Option ℕ
  pub our_sa_interval : ℕ
  pub their_na_interval : ℕ
  pub refs_amount : ℕ
  -- The pointer, of whatever type, as a number; `none` is the null pointer.
  pub session_data : Option ℕ

-- `enum SocketType`.
abbrev pub socket_type_undefined : ℕ
socket_type_undefined = 0

-- The object that the protected constructor makes.
unfoldable pub init : Connection
init = record {
  free_request_id = 1;
  is_even_request_parts = false;
  is_disconnecting = false;
  socket_type = 0;
  send_block_size = 1024;
  send_buffer = none;
  send_buffer_length = 0;
  send_buffer_offset = 0;
  send_queue = [];
  recv_block_size = 1024;
  recv_buffer_max_length = 16384;
  recv_buffer = [];
  recv_buffer_length = 0;
  recv_buffer_offset = 0;
  recv_queue = [];
  is_recv_length = true;
  handler_default = none;
  handlers_named = [];
  push_event = none;
  to_stop_event = none;
  stopped_event = some 0;
  receive_event = none;
  not_needed_event = none;
  our_sa_timer = none;
  their_na_timer = none;
  our_sa_interval = 10;
  their_na_interval = 60;
  refs_amount = 0;
  session_data = none;
}

-- `Utils::WriteEventFd`, which adds to the counter; on the descriptor -1 the write fails.
unfoldable pub write_event_fd : Option ℕ → ℕ → Option ℕ
write_event_fd none num = none
write_event_fd (some n) num = some (n + num)

-- `Utils::SelectRead` of an event once it has waited: `poll` reports a counter that is not 0.
unfoldable pub select_read : Option ℕ → Bool
select_read none = false
select_read (some n) = not (n == 0)

-- `Utils::SelectWrite`: `poll` is what the kernel tells of the descriptor within so many milliseconds.
unfoldable pub select_write : (ℕ → ℕ → Bool) → ℕ → ℕ → Bool
select_write poll fd seconds = poll fd (seconds * 1000)

-- `Utils::SetTimerFdTimeout`.
unfoldable pub set_timer_fd_timeout : Option ℕ → ℕ → Option ℕ
set_timer_fd_timeout none seconds = none
set_timer_fd_timeout (some n) seconds = some seconds

unfoldable pub has_something_to_send : Connection → Bool
has_something_to_send this =
    (elim this.send_queue [ [] ↦ false | r ∷ rs ↦ true ])
    || not (this.send_buffer_length == this.send_buffer_offset)

unfoldable pub delete_send_buffer : Connection → Connection
delete_send_buffer this = record this {
  send_buffer = none;
  send_buffer_length = 0;
  send_buffer_offset = 0;
}

unfoldable pub delete_recv_buffer : Connection → Connection
delete_recv_buffer this = record this {
  recv_buffer = [];
  recv_buffer_length = 0;
  recv_buffer_offset = 0;
  is_recv_length = true;
}

unfoldable pub is_connected : Connection → Bool
is_connected this = not (this.socket_type == socket_type_undefined)

unfoldable pub is_disconnecting_now : Connection → Bool
unfolding is_connected
is_disconnecting_now this = this.is_disconnecting && is_connected this

-- `interval < 1 ? 1 : interval` of a `time_t`.
unfoldable pub at_least_one : ℤ → ℕ
at_least_one (pos n) = if ltb n 1 then 1 else n
at_least_one (negsuc n) = 1

unfoldable pub set_our_sa_interval : Connection → ℤ → Connection
unfolding at_least_one
set_our_sa_interval this interval =
    let kept : ℕ = at_least_one interval in
    record this {
      our_sa_interval = kept;
      our_sa_timer = set_timer_fd_timeout this.our_sa_timer kept;
    }

unfoldable pub set_their_na_interval_limit : Connection → ℤ → Connection
unfolding at_least_one
set_their_na_interval_limit this interval =
    let kept : ℕ = at_least_one interval in
    record this {
      their_na_interval = kept;
      their_na_timer = set_timer_fd_timeout this.their_na_timer kept;
    }

unfoldable pub set_send_block_size : Connection → ℕ → Connection
set_send_block_size this bs = record this { send_block_size = if ltb bs 1 then 1 else bs }

unfoldable pub set_recv_block_size : Connection → ℕ → Connection
set_recv_block_size this bs = record this { recv_block_size = if ltb bs 1 then 1 else bs }

unfoldable pub set_max_request_size : Connection → ℕ → Connection
set_max_request_size this size = record this {
  recv_buffer_max_length = if ltb size 10 then 10 else size;
}

-- The ids of one side are even, those of the other odd.
unfoldable pub set_even_request_ids_part : Connection → Bool → Connection
set_even_request_ids_part this state =
    let id = this.free_request_id in
    let wrong : Bool = if state then not (id % 2 == 0) else id % 2 == 0 in
    record this {
      is_even_request_parts = state;
      free_request_id = if wrong then (id + 1) % u32_mod else id;
    }

unfoldable pub set_handler_default : Connection → Option ℕ → Connection
set_handler_default this h = record this { handler_default = h }

unfoldable pub find_handler : List ℕ → List (List ℕ × ℕ) → Option ℕ
find_handler name [] = none
find_handler name ((key, h) ∷ hs) = if bytes_eq key name then some h else find_handler name hs

unfoldable pub erase_handler : List ℕ → List (List ℕ × ℕ) → List (List ℕ × ℕ)
erase_handler name [] = []
erase_handler name ((key, h) ∷ hs) =
    let others = erase_handler name hs in if bytes_eq key name then others else (key, h) ∷ others

-- The map of the handlers; the null pointer removes the name.
unfoldable pub set_handler_named : Connection → List ℕ → Option ℕ → Connection
set_handler_named this name none = record this {
  handlers_named = erase_handler name this.handlers_named;
}
set_handler_named this name (some h) = record this {
  handlers_named = (name, h) ∷ erase_handler name this.handlers_named;
}

unfoldable pub get_handler_named : Connection → List ℕ → Option ℕ
get_handler_named this name = find_handler name this.handlers_named

unfoldable pub increase_refs : Connection → Connection
increase_refs this = record this { refs_amount = (this.refs_amount + 1) % u32_mod }

-- The background thread waits for the event once it has made one.
unfoldable pub decrease_refs : Connection → Connection
decrease_refs this = record this {
  refs_amount = (this.refs_amount + (u32_mod - 1)) % u32_mod;
  not_needed_event = write_event_fd this.not_needed_event 1;
}

unfoldable pub get_our_sa_interval : Connection → ℕ
get_our_sa_interval this = this.our_sa_interval

unfoldable pub get_their_na_interval_limit : Connection → ℕ
get_their_na_interval_limit this = this.their_na_interval

unfoldable pub get_type : Connection → ℕ
get_type this = this.socket_type

unfoldable pub get_stopped_event : Connection → Option ℕ
get_stopped_event this = this.stopped_event

unfoldable pub get_handler_default : Connection → Option ℕ
get_handler_default this = this.handler_default

unfoldable pub get_send_block_size : Connection → ℕ
get_send_block_size this = this.send_block_size

unfoldable pub get_recv_block_size : Connection → ℕ
get_recv_block_size this = this.recv_block_size

unfoldable pub get_max_request_size : Connection → ℕ
get_max_request_size this = this.recv_buffer_max_length

-- `wait` is what other threads do to the object until the event or the timeout.
unfoldable pub wait_for_stop : (Connection → Connection) → Connection → Bool
unfolding get_stopped_event select_read
wait_for_stop wait this = select_read (get_stopped_event (wait this))

unfoldable pub set_session_data : Connection → Option ℕ → Connection
set_session_data this none = record this { session_data = none }
set_session_data this (some pointer) = record this { session_data = some pointer }

unfoldable pub get_session_data : Connection → Option ℕ
get_session_data this = this.session_data
