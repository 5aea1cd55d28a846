-- ===== src/Value/ValueStr/Newlines.antt =====
-- values/ValueStr.cpp: the loop of ToStringInternal that indents the lines of a text.
use dowow_network.Prelude.{
  ℕ, zero, suc, ◌+◌, ◌%◌, ◌<◌, ◌≡◌, refl, sym, ap, ◌∙◌, false, Bool-cases, inl, inr, ◌⊎◌, none,
  some, List, [], ◌∷◌, ◌++◌, length, take, drop, replicate, ◌==◌, if◌then◌else◌, arith, done,
  append_assoc, length-append, take-append_of_length, drop-append_of_length, drop-append,
}
use dowow_network.Prelude.Bytes.{u16_mod}
use dowow_network.Prelude.Text.{codes, to_string}
use dowow_network.Value.ValueStr.{ValueStr, find_newline, replace_loop, to_string_internal}
use dowow_network.Value.ValueStr.Laws
use dowow_network.Value.ValueStr.Laws.{read-str_data}

-- Each line feed becomes the line feed with the indentation behind it.
unfoldable pub replace_newlines : List ℕ → List ℕ → List ℕ
replace_newlines indent_str [] = []
replace_newlines indent_str (b ∷ bs) =
    (if b == 10 then indent_str else b ∷ []) ++ replace_newlines indent_str bs

-- There is a line feed after a part that has none.
record Found (indent_str bs : List ℕ) (index : ℕ) : Type 0 where
  front : List ℕ
  back : List ℕ
  parts : bs ≡ front ++ 10 ∷ back
  place : find_newline bs index ≡ some (index + length front)
  lines : replace_newlines indent_str bs ≡ front ++ (indent_str ++ replace_newlines indent_str back)

find_newline_cases :
    (indent_str bs : List ℕ) (index : ℕ)
    → ((find_newline bs index ≡ none) × (replace_newlines indent_str bs ≡ bs))
      ⊎ Found indent_str bs index
unfolding find_newline replace_newlines
find_newline_cases indent_str [] index = inl (refl, refl)
find_newline_cases indent_str (b ∷ bs) index = elim (Bool-cases (b == 10)) [
  | inl here ↦ inr (record {
    front = [];
    back = bs;
    parts = ap (λ x. x ∷ bs) (ground arith);
    place = rw here (ap some (omega arith));
    lines = rw here refl;
  })
  | inr other ↦ elim (find_newline_cases indent_str bs (suc index)) [
    | inl (absent, same) ↦ inl (rw (other, absent) refl, rw (other, same) refl)
    | inr f ↦ inr (record {
      front = b ∷ f.front;
      back = f.back;
      parts = ap (λ xs. b ∷ xs) f.parts;
      place = rw other (f.place ∙ ap some (omega arith));
      lines = rw other (ap (λ xs. b ∷ xs) f.lines);
    })
  ]
]

loop_end :
    (fuel : ℕ) (indent_str text : List ℕ) (index : ℕ)
    → find_newline (drop index text) index ≡ none
    → replace_loop (suc fuel) indent_str text index ≡ done text
unfolding replace_loop
loop_end fuel indent_str text index e = rw (replace_loop, e) refl

loop_next :
    (fuel : ℕ) (indent_str text : List ℕ) (index found : ℕ)
    → find_newline (drop index text) index ≡ some found
    → replace_loop (suc fuel) indent_str text index
      ≡ replace_loop fuel indent_str
          (take found text ++ (indent_str ++ drop (suc found) text))
          (found + length indent_str)
unfolding replace_loop
loop_next fuel indent_str text index found e = rw (replace_loop, e) refl

-- The text after a replacement at the end of a part.
replaced :
    (indent_str part back : List ℕ)
    → take (length part) (part ++ 10 ∷ back)
        ++ (indent_str ++ drop (suc (length part)) (part ++ 10 ∷ back))
      ≡ (part ++ indent_str) ++ back
replaced indent_str part back =
    let rest : drop (suc (length part)) (part ++ 10 ∷ back) ≡ back =
      rw (← append_assoc part (10 ∷ []) back) (
        drop-append_of_length (suc (length part)) (part ++ 10 ∷ []) back
          (omega (arith, length-append part (10 ∷ [])))) in
    rw (take-append_of_length (length part) part (10 ∷ back) refl, rest)
      (sym (append_assoc part indent_str back))

replace_loop_back :
    (fuel : ℕ) (indent_str front back : List ℕ)
    → length back < fuel
    → replace_loop fuel indent_str (front ++ back) (length front)
      ≡ done (front ++ replace_newlines indent_str back)
replace_loop_back zero indent_str front back h = absurd (omega arith)
replace_loop_back (suc fuel) indent_str front back h =
    elim (find_newline_cases indent_str back (length front)) [
      | inl (absent, same) ↦ rw same (
          loop_end fuel indent_str (front ++ back) (length front)
            (rw (drop-append front back) absent))
      | inr f ↦
          let part = front ++ f.front in
          let size : length front + length f.front ≡ length part =
            sym (length-append front f.front) in
          let whole : front ++ back ≡ part ++ 10 ∷ f.back =
            ap (λ xs. front ++ xs) f.parts ∙ sym (append_assoc front f.front (10 ∷ f.back)) in
          let shorter : length f.back < fuel =
            omega (arith, ap (λ xs. length xs) f.parts, length-append f.front (10 ∷ f.back)) in
          let found : find_newline (drop (length front) (front ++ back)) (length front)
              ≡ some (length part) =
            rw (drop-append front back) (f.place ∙ ap some size) in
          loop_next fuel indent_str (front ++ back) (length front) (length part) found
          ∙ ap
              (λ text.
                replace_loop fuel indent_str
                  (take (length part) text ++ (indent_str ++ drop (suc (length part)) text))
                  (length part + length indent_str))
              whole
          ∙ ap (λ text. replace_loop fuel indent_str text (length part + length indent_str))
              (replaced indent_str part f.back)
          ∙ ap (replace_loop fuel indent_str ((part ++ indent_str) ++ f.back))
              (sym (length-append part indent_str))
          ∙ replace_loop_back fuel indent_str (part ++ indent_str) f.back shorter
          ∙ ap done (
              append_assoc part indent_str _
              ∙ append_assoc front f.front _
              ∙ ap (λ xs. front ++ xs) (sym f.lines))
    ]

-- With more fuel than the text has bytes, the loop that searches and replaces line feeds ends, and its
-- text is the one in which each line feed is replaced once, and none of those that were put in.
pub replace_loop-lines :
    (indent_str text : List ℕ) (fuel : ℕ)
    → length text < fuel
    → replace_loop fuel indent_str text 0 ≡ done (replace_newlines indent_str text)
replace_loop-lines indent_str text fuel h = replace_loop_back fuel indent_str [] text h

-- What stands before the text's own lines.
abbrev pub line_break : ℕ → List ℕ
line_break indent = 10 ∷ replicate ((indent + 4) % u16_mod) b' '

-- A text whose length is that of its data, and not zero, is printed as its length and, between quotes
-- and behind the first line break, its data with each line feed replaced once by the line feed and the
-- indentation: the loop that searches and replaces ends, whatever the data and the indentation.
pub to_string_internal-lines :
    (s : ValueStr) (indent : ℕ)
    → Laws.IsValid s
    → 0 < s.str_length
    → to_string_internal s indent
      ≡ done (
          codes "string["
          ++ (to_string s.str_length
              ++ (codes "]: \""
                  ++ (line_break indent
                      ++ (replace_newlines (line_break indent) s.str_data ++ codes "\"")))))
unfolding to_string_internal
to_string_internal-lines s indent v some_bytes =
    let shown : (s.str_length == 0) ≡ false = ground arith in
    rw
      (
        to_string_internal,
        shown,
        read-str_data s v,
        replace_loop-lines (line_break indent) s.str_data (suc (length s.str_data)) (omega arith),
      )
      refl
