-- ===== src/Value/Print.antt =====
-- Value.cpp and values/ValueArr.cpp: how a value is printed.
use dowow_network.Prelude.{
  ℕ, suc, ◌+◌, ◌%◌, ◌≡◌, refl, Bool-cases, inl, inr, ap, List, [], ◌∷◌, ◌++◌, replicate, ◌==◌,
  arith, Outcome, done, ◌>>=◌, Ends, Ends->>=,
}
use dowow_network.Prelude.Bytes.{u16_mod, u32_mod}
use dowow_network.Prelude.Text.{codes}
use dowow_network.Prelude.Text as Text
use dowow_network.Value.Data.{
  Value, Values, undefined, v64s, v32s, v16s, v8s, v64u, v32u, v16u, v8u, str, arr, nil, cons,
}
use dowow_network.Value.ValueUndefined
use dowow_network.Value.ValueStr
use dowow_network.Value.ValueStr.Newlines.{to_string_internal-lines}
use dowow_network.Value.ValueArr.{count}
use dowow_network.Value.Value8S
use dowow_network.Value.Value8U
use dowow_network.Value.Value16S
use dowow_network.Value.Value16U
use dowow_network.Value.Value32S
use dowow_network.Value.Value32U
use dowow_network.Value.Value64S
use dowow_network.Value.Value64U
use dowow_network.Value.Copy.{without_raw, all_without_raw}
use dowow_network.Value.Wire.{IsValid, AllValid}

-- `Value::ToString` of a text that `ToStringInternal` gave.
unfoldable pub indented : ℕ → Outcome (List ℕ) → Outcome (List ℕ)
indented indent internal = internal >>= λ text. done (replicate indent b' ' ++ text)

-- `ToStringInternal` of the classes. The indentation that it is given is 16 bits wide, and an array's
-- index 32.
unfoldable mutual
  unfolding indented

  pub to_string_internal : Value → ℕ → Outcome (List ℕ)
  to_string_internal (undefined bs) indent = done (ValueUndefined.to_string_internal indent)
  to_string_internal (v64s z) indent = done (Value64S.to_string_internal z)
  to_string_internal (v64u n) indent = done (Value64U.to_string_internal n)
  to_string_internal (v32s z) indent = done (Value32S.to_string_internal z)
  to_string_internal (v32u n) indent = done (Value32U.to_string_internal n)
  to_string_internal (v16s z) indent = done (Value16S.to_string_internal z)
  to_string_internal (v16u n) indent = done (Value16U.to_string_internal n)
  to_string_internal (v8u n) indent = done (Value8U.to_string_internal n)
  to_string_internal (v8s z) indent = done (Value8S.to_string_internal z)
  to_string_internal (str s) indent = ValueStr.to_string_internal s indent
  to_string_internal (arr vs) indent = to_string_elements vs indent 0 >>= λ elements.
      done (codes "array of size " ++ (Text.to_string (count vs) ++ (codes ":" ++ elements)))

  -- The loop of `ValueArr::ToStringInternal`, from an index on.
  pub to_string_elements : Values → ℕ → ℕ → Outcome (List ℕ)
  to_string_elements nil indent index = done []
  to_string_elements (cons v vs) indent index =
      indented ((indent + 8) % u16_mod) (to_string_internal v ((indent + 8) % u16_mod)) >>= λ shown.
      to_string_elements vs indent ((index + 1) % u32_mod) >>= λ others. done (
        (10 ∷ replicate (indent + 4) b' ')
        ++ (codes "element #" ++ (Text.to_string index ++ (codes ":" ++ ((10 ∷ shown) ++ others)))))

unfoldable pub to_string : Value → ℕ → Outcome (List ℕ)
unfolding indented to_string_internal
to_string this indent = indented indent (to_string_internal this indent)

-- A copy has as many elements.
count-all_without_raw : (vs : Values) → count (all_without_raw vs) ≡ count vs
unfolding count all_without_raw
count-all_without_raw nil = refl
count-all_without_raw (cons v vs) = ap suc (count-all_without_raw vs)

mutual
  unfolding to_string_internal without_raw

  -- A copy is printed as the value is: of an undefined value, only the indentation.
  pub to_string_internal-without_raw :
      (v : Value) (indent : ℕ)
      → to_string_internal (without_raw v) indent ≡ to_string_internal v indent
  to_string_internal-without_raw (undefined bs) indent = refl
  to_string_internal-without_raw (arr vs) indent =
      rw (count-all_without_raw vs, to_string_elements-without_raw vs indent 0) refl
  to_string_internal-without_raw (v64s z) indent = refl
  to_string_internal-without_raw (v64u n) indent = refl
  to_string_internal-without_raw (v32s z) indent = refl
  to_string_internal-without_raw (v32u n) indent = refl
  to_string_internal-without_raw (v16s z) indent = refl
  to_string_internal-without_raw (v16u n) indent = refl
  to_string_internal-without_raw (v8u n) indent = refl
  to_string_internal-without_raw (v8s z) indent = refl
  to_string_internal-without_raw (str s) indent = refl

  to_string_elements-without_raw :
      (vs : Values) (indent index : ℕ)
      → to_string_elements (all_without_raw vs) indent index ≡ to_string_elements vs indent index
  to_string_elements-without_raw nil indent index = refl
  to_string_elements-without_raw (cons v vs) indent index =
      rw
        (
          to_string_internal-without_raw v ((indent + 8) % u16_mod),
          to_string_elements-without_raw vs indent ((index + 1) % u32_mod),
        )
        refl

-- A text is printed, sound and empty or not.
text_shown :
    (s : ValueStr.ValueStr) (indent : ℕ)
    → ValueStr.Laws.IsValid s
    → Ends (ValueStr.to_string_internal s indent)
text_shown s indent h = elim (Bool-cases (s.str_length == 0)) [
  | inl empty ↦ (codes "string[0]: <empty>", unfold ValueStr.to_string_internal in rw empty refl)
  | inr full ↦ (_, to_string_internal-lines s indent h (ground arith))
]

mutual
  unfolding to_string_internal IsValid indented

  pub to_string_internal-done :
      (v : Value) (indent : ℕ) → IsValid v → Ends (to_string_internal v indent)
  to_string_internal-done (undefined bs) indent h = (_, refl)
  to_string_internal-done (arr vs) indent h =
      Ends->>= (to_string_elements vs indent 0) _ (to_string_elements-done vs indent 0 h)
        (λ elements ran. (_, refl))
  to_string_internal-done (v64s z) indent h = (_, refl)
  to_string_internal-done (v64u n) indent h = (_, refl)
  to_string_internal-done (v32s z) indent h = (_, refl)
  to_string_internal-done (v32u n) indent h = (_, refl)
  to_string_internal-done (v16s z) indent h = (_, refl)
  to_string_internal-done (v16u n) indent h = (_, refl)
  to_string_internal-done (v8u n) indent h = (_, refl)
  to_string_internal-done (v8s z) indent h = (_, refl)
  to_string_internal-done (str s) indent h = text_shown s indent h

  to_string_elements-done :
      (vs : Values) (indent index : ℕ) → AllValid vs → Ends (to_string_elements vs indent index)
  to_string_elements-done nil indent index h = ([], refl)
  to_string_elements-done (cons v vs) indent index h =
      Ends->>= (indented ((indent + 8) % u16_mod) (to_string_internal v ((indent + 8) % u16_mod))) _
        (Ends->>= (to_string_internal v ((indent + 8) % u16_mod)) _
          (to_string_internal-done v ((indent + 8) % u16_mod) h.0) (λ text ran. (_, refl)))
        (λ shown ran.
          Ends->>= (to_string_elements vs indent ((index + 1) % u32_mod)) _
            (to_string_elements-done vs indent ((index + 1) % u32_mod) h.1)
            (λ others more. (_, refl)))

pub to_string-done : (v : Value) (indent : ℕ) → IsValid v → Ends (to_string v indent)
unfolding to_string indented
to_string-done v indent h =
    Ends->>= (to_string_internal v indent) _ (to_string_internal-done v indent h)
      (λ text ran. (_, refl))

pub to_string-without_raw :
    (v : Value) (indent : ℕ) → to_string (without_raw v) indent ≡ to_string v indent
unfolding to_string
to_string-without_raw v indent = rw (to_string_internal-without_raw v indent) refl
