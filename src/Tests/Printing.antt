-- ===== src/Tests/Printing.antt =====
-- values/ValueStr.cpp and Request.cpp, printing.
use dowow_network.Prelude.{ℕ, ◌≡◌, refl, List, [], ◌∷◌, ◌++◌, arith, done, ◌>>=◌}
use dowow_network.Prelude.Text.{codes, to_string}
use dowow_network.Value.ValueStr
use dowow_network.Value.ValueStr.{ValueStr}
use dowow_network.Value.ValueStr.Laws
use dowow_network.Value.ValueStr.Newlines.{line_break, replace_newlines, to_string_internal-lines}
use dowow_network.Request.{init, copy_from}
use dowow_network.Request.Print
use dowow_network.Request.Print.{to_string-copy}
use dowow_network.Tests.{question, question-IsValid}

-- Two lines.
abbrev lines : ValueStr
lines = record { str_data = 97 ∷ 10 ∷ 98 ∷ []; str_length = 3 }

lines-IsValid : Laws.IsValid lines
lines-IsValid = record { sized = refl; fits = omega arith }

to_string_internal-lines_example :
    ValueStr.to_string_internal lines 2
    ≡ done (
        codes "string["
        ++ (to_string lines.str_length
            ++ (codes "]: \""
                ++ (line_break 2
                    ++ (replace_newlines (line_break 2) lines.str_data ++ codes "\"")))))
to_string_internal-lines_example = to_string_internal-lines lines 2 lines-IsValid (omega arith)

to_string-copy_example :
    (text : List ℕ) × (Print.to_string question ≡ done text)
    × ((copy_from (init []) question >>= Print.to_string) ≡ done text)
to_string-copy_example = to_string-copy question question-IsValid (tt, tt)
