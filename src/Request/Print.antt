-- ===== src/Request/Print.antt =====
-- Request.cpp: how a request is printed.
use dowow_network.Prelude.{
  ℕ, ◌≡◌, refl, List, [], ◌∷◌, ◌++◌, All, map, Outcome, done, ◌>>=◌, Ends, Ends->>=,
}
use dowow_network.Prelude.Text.{codes}
use dowow_network.Value.Print as ValuePrint
use dowow_network.Value.Print.{to_string-done, to_string-without_raw}
use dowow_network.Datum.{Datum}
use dowow_network.Datum.Wire as DatumWire
use dowow_network.Request.{Request, init, copy_from}
use dowow_network.Request.Arguments.{copied, Distinct}
use dowow_network.Request.Arguments.Sound.{copy_from_sound}
use dowow_network.Request.Wire

-- The loop of `ToString`.
unfoldable pub to_string_arguments : List Datum → Outcome (List ℕ)
to_string_arguments [] = done []
to_string_arguments (datum ∷ rest) = ValuePrint.to_string datum.value 0 >>= λ value.
    to_string_arguments rest >>= λ others.
    done ((10 ∷ codes "* ") ++ (datum.name ++ (codes " -> " ++ (value ++ others))))

unfoldable pub to_string : Request → Outcome (List ℕ)
unfolding to_string_arguments
to_string this = to_string_arguments this.arguments >>= λ lines.
    done (codes "Request \"" ++ (this.name ++ (codes "\":" ++ lines)))

arguments-done : (ds : List Datum) → All DatumWire.IsValid ds → Ends (to_string_arguments ds)
unfolding to_string_arguments
arguments-done [] h = ([], refl)
arguments-done (d ∷ ds) h =
    Ends->>= (ValuePrint.to_string d.value 0) _ (to_string-done d.value 0 (h.0).sound) (λ value ran.
      Ends->>= (to_string_arguments ds) _ (arguments-done ds h.1) (λ others more. (_, refl)))

arguments-copied : (ds : List Datum) → to_string_arguments (map copied ds) ≡ to_string_arguments ds
unfolding to_string_arguments copied
arguments-copied [] = refl
arguments-copied (d ∷ ds) = rw (to_string-without_raw d.value 0, arguments-copied ds) refl

-- A sound request whose arguments have different names is printed without a fault, each loop of the
-- printing ends, and the copy that `CopyFrom` makes of it in a new request is printed the same, though
-- the copy loses the data of undefined values.
pub to_string-copy :
    (r : Request)
    → Wire.IsValid r
    → Distinct r.arguments
    → (text : List ℕ) × (to_string r ≡ done text)
      × ((copy_from (init []) r >>= to_string) ≡ done text)
unfolding to_string
to_string-copy r h d =
    let (text, shown) =
      Ends->>= (to_string_arguments r.arguments) _ (arguments-done r.arguments h.sound)
        (λ lines ran. (_, refl)) in
    (text, shown, rw (copy_from_sound [] r h d, arguments-copied r.arguments) shown)
