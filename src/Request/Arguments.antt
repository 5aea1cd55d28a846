-- ===== src/Request/Arguments.antt =====
-- Request.cpp: the arguments as a map from names, and the copy of a request.
pub mod Sound
use dowow_network.Prelude.{
  ℕ, ◌≡◌, refl, ap, ◌∙◌, Bool, true, false, Option, none, some, List, [], ◌∷◌, ◌++◌, All, map,
  arith, done, ◌>>=◌, if◌then◌else◌, Bool-cases, Option-cases, inl, inr, append_assoc, append-nil,
}
use dowow_network.Prelude.Bytes.{bytes_eq, bytes_eq_iff}
use dowow_network.Value.Data.{Value, undefined}
use dowow_network.Value.Copy.{without_raw, copy-without_raw}
use dowow_network.Value.Wire
use dowow_network.Datum
use dowow_network.Datum.{Datum}
use dowow_network.Request.{
  Request, init, find, get, set_first, set_arguments, set, copy_arguments, copy_from,
}

-- The value that a datum holds after `SetValue`.
abbrev pub stored : Option Value → Bool → Value
stored none to_copy = undefined []
stored (some v) true = without_raw v
stored (some v) false = v

-- A value that is to be copied is sound; `none` is the null pointer.
abbrev pub IsStorable : Option Value → Type 0
IsStorable none = Unit
IsStorable (some v) = Wire.IsValid v

set_value-stored :
    (d : Datum) (value : Option Value) (to_copy : Bool)
    → IsStorable value
    → Datum.set_value d value to_copy ≡ done (record d { value = stored value to_copy })
unfolding Datum.set_value
set_value-stored d none to_copy h = refl
set_value-stored d (some v) true h = rw (copy-without_raw v h) refl
set_value-stored d (some v) false h = refl

-- The arguments as a map: the first datum of the name takes the value, or a new one at the end.
unfoldable pub put : List ℕ → Value → List Datum → List Datum
put name v [] = record { name = name; value = v } ∷ []
put name v (d ∷ ds) =
    if bytes_eq d.name name then record d { value = v } ∷ ds else d ∷ put name v ds

set_first-put :
    (name : List ℕ) (value : Option Value) (to_copy : Bool) (ds : List Datum) {v : Value}
    → IsStorable value
    → find name ds ≡ some v
    → set_first name value to_copy ds ≡ done (put name (stored value to_copy) ds)
unfolding set_first find put
set_first-put name value to_copy [] {v} h e = cc
set_first-put name value to_copy (d ∷ ds) {v} h e = elim (Bool-cases (bytes_eq d.name name)) [
  | inl here ↦ rw (here, set_value-stored d value to_copy h) refl
  | inr there ↦ rw (there, set_first-put name value to_copy ds {v = v} h (ground arith)) refl
]

pub put-new :
    (name : List ℕ) (v : Value) (ds : List Datum)
    → find name ds ≡ none
    → put name v ds ≡ ds ++ record { name = name; value = v } ∷ []
unfolding find put
put-new name v [] e = refl
put-new name v (d ∷ ds) e = ground (arith, put-new name v ds)

-- `Set` is the map's update.
pub set_arguments-put :
    (ds : List Datum) (name : List ℕ) (value : Option Value) (to_copy : Bool)
    → IsStorable value
    → set_arguments ds name value to_copy ≡ done (put name (stored value to_copy) ds)
unfolding set_arguments Datum.set_name
set_arguments-put ds name value to_copy h = elim (Option-cases (find name ds)) [
  | inl new ↦
      rw
        (
          new,
          set_arguments,
          set_value-stored (record { name = name; value = undefined [] }) value to_copy h,
          put-new name (stored value to_copy) ds new,
        )
        refl
  | inr (v, old) ↦ rw (old, set_arguments) (set_first-put name value to_copy ds h old)
]

pub find-put :
    (name key : List ℕ) (v : Value) (ds : List Datum)
    → find key (put name v ds) ≡ (if bytes_eq name key then some v else find key ds)
unfolding find put
find-put name key v [] = refl
find-put name key v (d ∷ ds) = ground (
  arith,
  find-put name key v ds,
  bytes_eq_iff d.name name,
  bytes_eq_iff name key,
  bytes_eq_iff d.name key,
)

-- After `Set`, of a sound value if one is to be copied, the name has the value, a copied one
-- without the data of undefined values, and every other name what it had. The null pointer, which
-- Request.hpp says deletes the argument, deletes nothing: the name then has an empty undefined value, also
-- where it had no argument before.
pub get-set :
    (r : Request) (name key : List ℕ) (value : Option Value) (to_copy : Bool)
    → IsStorable value
    → (set r name value to_copy >>= λ s. done (get s key))
      ≡ done (if bytes_eq name key then some (stored value to_copy) else get r key)
unfolding set get
get-set r name key value to_copy h =
    rw
      (
        set_arguments-put r.arguments name value to_copy h,
        find-put name key (stored value to_copy) r.arguments,
      )
      refl

-- No name occurs twice, and none occurs among the others.
abbrev pub Absent : List Datum → List Datum → Type 0
Absent ds [] = Unit
Absent ds (e ∷ es) = (find e.name ds ≡ none) × Absent ds es

unfoldable pub copied : Datum → Datum
copied d = record d { value = without_raw d.value }

abbrev AllSound : List Datum → Type 0
AllSound ds = All (λ (d : Datum). Wire.IsValid d.value) ds

abbrev pub Distinct : List Datum → Type 0
Distinct [] = Unit
Distinct (d ∷ ds) = Absent (d ∷ []) ds × Distinct ds

find-snoc :
    (key : List ℕ) (ds : List Datum) (d : Datum)
    → find key ds ≡ none
    → find key (d ∷ []) ≡ none
    → find key (ds ++ copied d ∷ []) ≡ none
unfolding find copied
find-snoc key [] d h k = ground arith
find-snoc key (e ∷ ds) d h k = ground (arith, find-snoc key ds d)

Absent-snoc :
    (ds es : List Datum) (d : Datum)
    → Absent ds es
    → Absent (d ∷ []) es
    → Absent (ds ++ copied d ∷ []) es
Absent-snoc ds [] d h k = tt
Absent-snoc ds (e ∷ es) d h k = (find-snoc e.name ds d h.0 k.0, Absent-snoc ds es d h.1 k.1)

copy_arguments-Distinct :
    (acc ds : List Datum)
    → AllSound ds
    → Absent acc ds
    → Distinct ds
    → copy_arguments acc ds ≡ done (acc ++ map copied ds)
unfolding copy_arguments
copy_arguments-Distinct acc [] s a d = rw append-nil refl
copy_arguments-Distinct acc (e ∷ es) s a d =
    let fresh : put e.name (without_raw e.value) acc ≡ acc ++ copied e ∷ [] =
      unfold copied in put-new e.name (without_raw e.value) acc a.0 in
    rw (set_arguments-put acc e.name (some e.value) true s.0, fresh)
      (copy_arguments-Distinct (acc ++ copied e ∷ []) es s.1 (Absent-snoc acc es e a.1 d.0) d.1
        ∙ ap done (append_assoc acc (copied e ∷ []) (map copied es)))

Absent-nil : (ds : List Datum) → Absent [] ds
unfolding find
Absent-nil [] = tt
Absent-nil (d ∷ ds) = (refl, Absent-nil ds)

-- A sound request whose arguments have different names is copied, into a new request, with its name,
-- its id and its arguments in their order; the values lose the data of undefined values.
pub copy_from-Distinct :
    (name : List ℕ) (original : Request)
    → All (λ (d : Datum). Wire.IsValid d.value) original.arguments
    → Distinct original.arguments
    → copy_from (init name) original
      ≡ done (record original { arguments = map copied original.arguments })
unfolding copy_from init
copy_from-Distinct name original s d =
    rw (copy_arguments-Distinct [] original.arguments s (Absent-nil original.arguments) d) refl

-- Of a request with two arguments of one name, both sound, `Get` finds the first; in a copy of the
-- request, made into a new one, it finds the second, without the data of undefined values.
pub copy_from-duplicate :
    (name : List ℕ) (d e : Datum) (id : ℕ)
    → Wire.IsValid d.value
    → Wire.IsValid e.value
    → e.name ≡ d.name
    → let original : Request = record { name = name; id = id; arguments = d ∷ e ∷ [] } in
      (get original d.name ≡ some d.value)
      × ((copy_from (init []) original >>= λ c. done (get c d.name))
          ≡ done (some (without_raw e.value)))
unfolding copy_from copy_arguments init get
copy_from-duplicate name d e id hd he same =
    let twice : bytes_eq e.name d.name ≡ true = (bytes_eq_iff e.name d.name).1 same in
    let self : bytes_eq d.name d.name ≡ true = (bytes_eq_iff d.name d.name).1 refl in
    (
      unfold find in rw self refl,
      rw
          (
            set_arguments-put [] d.name (some d.value) true hd,
            set_arguments-put (put d.name (without_raw d.value) []) e.name (some e.value) true he,
            find-put e.name d.name (without_raw e.value) (put d.name (without_raw d.value) []),
            twice,
          )
          refl,
    )
