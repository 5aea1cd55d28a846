-- ===== src/Request/Arguments/Sound.antt =====
-- Request.cpp: a copy of a sound request.
use dowow_network.Prelude.{ℕ, ◌≤◌, ◌≡◌, List, [], ◌∷◌, All, map, length, arith, done}
use dowow_network.Value.Copy.{without_raw}
use dowow_network.Value.Copy.Sound.{without_raw-IsValid, length-encode-without_raw}
use dowow_network.Value.Wire as ValueWire
use dowow_network.Datum.{Datum}
use dowow_network.Datum.Wire as DatumWire
use dowow_network.Datum.Wire.{length-datum}
use dowow_network.Request.{Request, init, copy_from}
use dowow_network.Request.Arguments.{copied, Distinct, copy_from-Distinct}
use dowow_network.Request.Wire
use dowow_network.Request.Wire.{encode_arguments, length-encode_arguments}

copied-IsValid : (d : Datum) → DatumWire.IsValid d → DatumWire.IsValid (copied d)
unfolding copied
copied-IsValid d h = record {
  named = h.named;
  fits = omega (arith, h.fits, length-encode-without_raw d.value);
  sound = without_raw-IsValid d.value h.sound;
}

copied-AllValid :
    (ds : List Datum) → All DatumWire.IsValid ds → All DatumWire.IsValid (map copied ds)
copied-AllValid [] h = tt
copied-AllValid (d ∷ ds) h = (copied-IsValid d h.0, copied-AllValid ds h.1)

length-copied : (d : Datum) → length (DatumWire.encode (copied d)) ≤ length (DatumWire.encode d)
unfolding copied
length-copied d = omega (
  arith,
  length-datum d,
  length-datum (record d { value = without_raw d.value }),
  length-encode-without_raw d.value,
)

length-all_copied :
    (ds : List Datum) → length (encode_arguments (map copied ds)) ≤ length (encode_arguments ds)
length-all_copied [] = omega arith
length-all_copied (d ∷ ds) = omega (
  arith,
  length-encode_arguments d ds,
  length-encode_arguments (copied d) (map copied ds),
  length-copied d,
  length-all_copied ds,
)

values_of :
    (ds : List Datum) → All DatumWire.IsValid ds → All (λ (d : Datum). ValueWire.IsValid d.value) ds
values_of [] h = tt
values_of (d ∷ ds) h = ((h.0).sound, values_of ds h.1)

-- The copy of a sound request whose arguments have different names.
abbrev pub copy_of : Request → Request
copy_of r = record r { arguments = map copied r.arguments }

pub copy_from_sound :
    (name : List ℕ) (r : Request)
    → Wire.IsValid r
    → Distinct r.arguments
    → copy_from (init name) r ≡ done (copy_of r)
copy_from_sound name r h d = copy_from-Distinct name r (values_of r.arguments h.sound) d

pub copy_of-IsValid : (r : Request) → Wire.IsValid r → Wire.IsValid (copy_of r)
copy_of-IsValid r h = record {
  named = h.named;
  numbered = h.numbered;
  fits = omega (arith, h.fits, length-all_copied r.arguments);
  sound = copied-AllValid r.arguments h.sound;
}
