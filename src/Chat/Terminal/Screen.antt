-- ===== src/Chat/Terminal/Screen.antt =====
-- examples/ChatClient.cpp: what the chat client asks the curses library to draw, and the loop around a key.
pub mod Lines
use dowow_network.Prelude.{
  ℕ, zero, suc, ◌+◌, ◌-◌, ◌%◌, ◌^◌, ◌<◌, ◌≤◌, ◌≡◌, refl, sym, ap, ◌∙◌, subst, Bool, true, false,
  Option, none, some, List, [], ◌∷◌, ◌++◌, length, replicate, drop, length-append, length-drop,
  append-nil, append_assoc, All, All-append, arith, ltb, ◌==◌, if◌then◌else◌, Outcome, done, ◌>>=◌,
}
use dowow_network.Prelude.Int.{ℤ, pos, negsuc}
use dowow_network.Prelude.Text.{codes}
use dowow_network.Request.{Request}
use dowow_network.Connection.State.{Connection, is_connected, set_handler_named}
use dowow_network.Chat.Terminal.{Terminal, add_to_history, handler_message, on_key}

-- A call of the curses library, with its row and column where it has them.
pub data Call : Type 0 where
  move : ℤ → ℕ → Call
  addch : ℕ → Call
  -- In bold.
  mvaddch : ℤ → ℕ → ℕ → Call
  mvaddstr mvprintw : ℤ → ℕ → List ℕ → Call
  attron attroff : Call

-- `a - b` of two numbers of the type `int`.
unfoldable pub minus : ℕ → ℕ → ℤ
minus a b = if ltb a b then negsuc (b - a - 1) else pos (a - b)

-- `begin_row--`.
unfoldable pub decrement : ℤ → ℤ
decrement (pos zero) = negsuc 0
decrement (pos (suc n)) = pos n
decrement (negsuc n) = negsuc (n + 1)

-- The text of the field is the format of `mvprintw`.
unfoldable pub redraw_input : Terminal → List Call
unfolding minus
redraw_input this =
    move (minus this.rows 1) 0
    ∷ (replicate this.cols (addch b' ')
        ++ mvaddch (minus this.rows 1) 0 b'>'
          ∷ mvprintw (minus this.rows 1) 2 this.input_field
          ∷ [])

-- The rows from `i` on, so many, are filled with blanks.
unfoldable pub clear_loop : ℕ → ℕ → ℕ → List Call
clear_loop zero i cols = []
clear_loop (suc n) i cols =
    move (pos i) 0 ∷ (replicate cols (addch b' ') ++ clear_loop n (suc i) cols)

-- The lines of a history whose newest entry comes first, from the row upwards.
unfoldable pub draw_loop : List (List ℕ × List ℕ) → ℤ → List Call
unfolding decrement
draw_loop [] begin_row = []
draw_loop ((from, text) ∷ lines) begin_row =
    let shown : List ℕ = codes "[" ++ (from ++ codes "]") in
    attron
    ∷ mvaddstr begin_row 0 shown
    ∷ attroff
    ∷ mvaddstr begin_row (length shown + 1) text
    ∷ draw_loop lines (decrement begin_row)

-- From `rbegin` to `rend`.
unfoldable pub backwards : List (List ℕ × List ℕ) → List (List ℕ × List ℕ)
backwards [] = []
backwards (line ∷ lines) = backwards lines ++ line ∷ []

unfoldable pub redraw_chat : Terminal → List Call
unfolding clear_loop draw_loop backwards minus
redraw_chat this =
    clear_loop (this.rows - 1) 0 this.cols
    ++ (draw_loop (backwards this.history) (minus this.rows 2)
        ++ move (minus this.rows 1) (2 + length this.input_field) ∷ [])

-- HandlerMessage with what it draws.
unfoldable pub show_message : Terminal → Request → Outcome (Terminal × List Call)
unfolding redraw_chat
show_message this r = handler_message this r >>= λ u. done (u, redraw_chat u)

-- A pass of the loop of `main`: `none` where no key was read. After `enter` the field is drawn twice.
unfoldable pub key_pass : Terminal → Option ℕ → Outcome (Terminal × List Call)
unfolding redraw_input
key_pass this none = done (this, [])
key_pass this (some ch) =
    on_key this ch >>= λ u. done (u, (if ch == 10 then redraw_input u else []) ++ redraw_input u)

-- The loop of `main`, over the keys that are read. What the handlers do in between is left out.
unfoldable pub key_loop : List (Option ℕ) → Terminal → Outcome (Terminal × List Call)
unfolding key_pass
key_loop [] this = done (this, [])
key_loop (key ∷ keys) this =
    let rest = key_pass this key >>= λ r. key_loop keys r.0 >>= λ q. done (q.0, r.1 ++ q.1) in
    if is_connected this.client then rest else done (this, [])

-- The handlers that `main` sets. A handler's number stands for the function.
unfoldable pub with_handlers : Connection → Connection
with_handlers client =
    set_handler_named
      (set_handler_named
        (set_handler_named (set_handler_named client (codes "auth") (some 0)) (codes "auth_success")
          (some 1))
        (codes "message") (some 2))
      (codes "bye") (some 3)
