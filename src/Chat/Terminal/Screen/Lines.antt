-- ===== src/Chat/Terminal/Screen/Lines.antt =====
-- examples/ChatClient.cpp: which lines of the history stand where on the screen.
use dowow_network.Prelude.{ℕ, zero, suc, ◌+◌, ◌-◌, ◌<◌, ◌≤◌, ◌≡◌, List, [], ◌∷◌, ◌++◌, length, All}
use dowow_network.Prelude.Int.{ℤ, pos, negsuc}
use dowow_network.Request.{Request}
use dowow_network.Value.ValueStr
use dowow_network.Chat.Terminal.{Terminal}
use dowow_network.Chat.Terminal.Screen.{
  Call, move, addch, mvaddch, mvaddstr, mvprintw, attron, attroff,
}

-- A string with its row and column.
abbrev pub Placed : Type 0
Placed = ℤ × ℕ × List ℕ

-- The strings of the calls, in their order.
unfoldable pub strings : List Call → List Placed
strings [] = []
strings (mvaddstr row col text ∷ calls) = (row, col, text) ∷ strings calls
strings (move row col ∷ calls) = strings calls
strings (addch ch ∷ calls) = strings calls
strings (mvaddch row col ch ∷ calls) = strings calls
strings (mvprintw row col text ∷ calls) = strings calls
strings (attron ∷ calls) = strings calls
strings (attroff ∷ calls) = strings calls

-- An entry of the history on a row: the name in brackets, a column, and the text.
abbrev pub entry_at : ℕ → List ℕ × List ℕ → List Placed
entry_at row line =
    (pos row, 0, b'[' ∷ (line.0 ++ b']' ∷ [])) ∷ (pos row, length line.0 + 3, line.1) ∷ []

-- The history from a row downwards, the last entry first.
unfoldable pub below : ℕ → List (List ℕ × List ℕ) → List Placed
below row [] = []
below row (line ∷ lines) = below (suc row) lines ++ entry_at row line

-- A byte that curses draws in one column.
abbrev pub IsPlain : ℕ → Type 0
IsPlain ch = (32 ≤ ch) × (ch < 127)

-- A line of the history that has its place on a row.
abbrev pub Fits : ℕ → List ℕ × List ℕ → Type 0
Fits cols line =
    (length line.0 + 3 + length line.1 ≤ cols) × All IsPlain line.0 × All IsPlain line.1

-- All of it stands on one row of the screen, above a row.
abbrev pub IsInside : ℕ → ℕ → Placed → Type 0
IsInside limit cols (pos row, col, text) =
    (row < limit) × (col + length text ≤ cols) × All IsPlain text
IsInside limit cols (negsuc n, col, text) = ⊥

-- The row above which so many rows are.
abbrev row_under : ℕ → ℤ
row_under zero = negsuc 0
row_under (suc n) = pos n

-- The history leaves a row free, and the strings that are drawn are its lines.
abbrev Draws : Terminal × List Call → Type 0
Draws (u, calls) =
    (length u.history < u.rows) × (strings calls ≡ below (u.rows - 1 - length u.history) u.history)

-- The same, and all of them above the last row.
abbrev pub Shows : Terminal × List Call → Type 0
Shows (u, calls) =
    (length u.history < u.rows)
    × (strings calls ≡ below (u.rows - 1 - length u.history) u.history)
    × All (IsInside (u.rows - 1) u.cols) (strings calls)

abbrev HasRoom : Terminal → Type 0
HasRoom u = length u.history < u.rows
