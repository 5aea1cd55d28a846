-- ===== src/Request.antt =====
-- Request.cpp and Request.hpp: a named list of data. Values are owned: a value that is set does not
-- alias one that the request holds already.
pub mod Arguments
pub mod Total
pub mod Wire
pub mod Print
pub mod Templates
use dowow_network.Prelude.{
  ℕ, zero, suc, ◌+◌, ◌-◌, ◌%◌, Bool, true, false, Option, none, some, List, [], ◌∷◌, ◌++◌, length,
  drop, ltb, ◌==◌, if◌then◌else◌, Outcome, done, stuck, ◌>>=◌,
}
use dowow_network.Prelude.Bytes.{u16_mod, u32_mod, read_bytes, read_le, le_bytes, fill, bytes_eq}
use dowow_network.Value.Data.{Value}
use dowow_network.Datum
use dowow_network.Datum.{Datum}

pub record Request : Type 0 where
  pub name : List ℕ
  pub id : ℕ
  pub arguments : List Datum

unfoldable pub init : List ℕ → Request
init name = record { name = name; id = 0; arguments = [] }

unfoldable pub set_name : Request → List ℕ → Request
set_name this name = record this { name = name }

unfoldable pub set_id : Request → ℕ → Request
set_id this id = record this { id = id }

unfoldable pub get_name : Request → List ℕ
get_name this = this.name

unfoldable pub get_id : Request → ℕ
get_id this = this.id

unfoldable pub get_arguments : Request → List Datum
get_arguments this = this.arguments

-- `std::find_if` for the name, and the value there; `none` is the null pointer.
unfoldable pub find : List ℕ → List Datum → Option Value
find name [] = none
find name (d ∷ ds) = if bytes_eq d.name name then some d.value else find name ds

unfoldable pub get : Request → List ℕ → Option Value
get this name = find name this.arguments

-- `SetValue` of the first datum with the name.
unfoldable pub set_first : List ℕ → Option Value → Bool → List Datum → Outcome (List Datum)
set_first name value to_copy [] = done []
set_first name value to_copy (d ∷ ds) =
    let here = Datum.set_value d value to_copy >>= λ e. done (e ∷ ds) in
    let there = set_first name value to_copy ds >>= λ es. done (d ∷ es) in
    if bytes_eq d.name name then here else there

-- The pointer of a value that is set is never null, so that a datum is found where its name is.
unfoldable pub set_arguments : List Datum → List ℕ → Option Value → Bool → Outcome (List Datum)
unfolding set_first find
set_arguments arguments name value to_copy = elim (find name arguments) [
  | some v ↦ set_first name value to_copy arguments
  | none ↦ Datum.set_value (Datum.set_name Datum.init name) value to_copy >>= λ d.
      done (arguments ++ d ∷ [])
]

unfoldable pub set : Request → List ℕ → Option Value → Bool → Outcome Request
unfolding set_arguments
set this name value to_copy = set_arguments this.arguments name value to_copy >>= λ args.
    done (record this { arguments = args })

-- `Set` of a reference: of a copy.
unfoldable pub set_reference : Request → List ℕ → Value → Outcome Request
unfolding set
set_reference this name val = set this name (some val) true

-- The loop of `GetSize`, from the sum so far, 32 bits wide.
unfoldable pub get_size_loop : ℕ → List Datum → ℕ
get_size_loop sum [] = sum
get_size_loop sum (d ∷ ds) = get_size_loop ((sum + Datum.get_size d) % u32_mod) ds

unfoldable pub get_size : Request → ℕ
unfolding get_size_loop
get_size this = get_size_loop ((10 + length this.name) % u32_mod) this.arguments

-- The loop of `Serialize`: each datum's bytes, one behind the other.
unfoldable pub serialize_loop : List Datum → Outcome (List ℕ)
serialize_loop [] = done []
serialize_loop (d ∷ ds) = Datum.serialize d >>= λ buf.
    read_bytes buf (Datum.get_size d) >>= λ bs. serialize_loop ds >>= λ more. done (bs ++ more)

unfoldable pub serialize : Request → Outcome (List ℕ)
unfolding serialize_loop get_size
serialize this = serialize_loop this.arguments >>= λ args. fill (get_size this) (
    le_bytes 4 (get_size this)
    ++ (le_bytes 4 this.id ++ (le_bytes 2 (length this.name % u16_mod) ++ (this.name ++ args))))

-- The loop of `Deserialize`, over the offset and the data read so far. It stops at the first datum
-- that is not read. `fuel` bounds the rounds.
unfoldable pub deserialize_loop : ℕ → List ℕ → ℕ → ℕ → List Datum → Outcome (ℕ × List Datum)
deserialize_loop zero buf data_size i arguments = stuck
deserialize_loop (suc fuel) buf data_size i arguments =
    let round = Datum.deserialize Datum.init (some (drop i buf)) (data_size - i) >>= λ r.
    let more = deserialize_loop fuel buf data_size ((i + r.0) % u32_mod) (arguments ++ r.1 ∷ []) in
    if r.0 == 0 then done (i, arguments) else more in
    if ltb i data_size then round else done (i, arguments)

-- The rest of `Deserialize` once the header is read. The old arguments are gone from here on.
-- A datum takes a byte at least, so that `data_size` rounds are enough.
unfoldable pub deserialize_body : List ℕ → ℕ → ℕ → ℕ → Outcome (ℕ × Request)
unfolding deserialize_loop
deserialize_body buf data_size des_id des_name_length =
    read_bytes (drop 10 buf) des_name_length >>= λ name.
    deserialize_loop (suc data_size) buf data_size (10 + des_name_length) [] >>= λ r.
    done (r.0, record { name = name; id = des_id; arguments = r.1 })

-- The bytes used, 0 for a failure, and the request after the call.
unfoldable pub deserialize : Request → List ℕ → ℕ → Outcome (ℕ × Request)
unfolding deserialize_body
deserialize this buf data_size =
    let header = read_le 4 buf >>= λ des_total_length. read_le 4 (drop 4 buf) >>= λ des_id.
    read_le 2 (drop 8 buf) >>= λ des_name_length.
    if ltb data_size des_total_length
    then done (0, this)
    else if ltb data_size des_name_length
    then done (0, this)
    else deserialize_body buf data_size des_id des_name_length in
    if ltb data_size 10 then done (0, this) else header

-- The loop of `CopyFrom`: a copy of each value is set under its name.
unfoldable pub copy_arguments : List Datum → List Datum → Outcome (List Datum)
copy_arguments arguments [] = done arguments
copy_arguments arguments (d ∷ ds) =
    set_arguments arguments d.name (some d.value) true >>= λ args. copy_arguments args ds

unfoldable pub copy_from : Request → Request → Outcome Request
unfolding copy_arguments
copy_from this original = copy_arguments this.arguments original.arguments >>= λ args.
    done (record { name = original.name; id = original.id; arguments = args })
