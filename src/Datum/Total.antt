-- ===== src/Datum/Total.antt =====
-- Datum.cpp: reading a datum ends, and uses no more bytes than it was given.
use dowow_network.Prelude.{
  ℕ, ◌+◌, ◌≤◌, ◌≡◌, ◌≢◌, List, Option, none, some, arith, done, stuck, >>=-ne-stuck, if-ne-stuck,
  done-ne-stuck, drop, ltb, ◌==◌,
}
use dowow_network.Prelude.Bytes.{
  read_byte, read_le, read_byte-ne-stuck, read_le-ne-stuck, read_bytes-ne-stuck,
}
use dowow_network.Value.Data.{create_value}
use dowow_network.Value.Total
use dowow_network.Datum.{Datum, deserialize_value, deserialize_header, deserialize}

deserialize_value-ne-stuck :
    (this : Datum) (buf : List ℕ) (total name_length : ℕ)
    → deserialize_value this buf total name_length ≢ stuck
unfolding deserialize_value
deserialize_value-ne-stuck this buf total name_length =
    >>=-ne-stuck (read_byte buf (6 + name_length)) _ (read_byte-ne-stuck buf (6 + name_length))
      (λ type _.
        >>=-ne-stuck _ _
          (Total.deserialize-ne-stuck (create_value type) (some (drop (6 + name_length) buf)) _)
          (λ r _. if-ne-stuck (r.0 == 0) _ _ (done-ne-stuck _) (
            >>=-ne-stuck _ _ (read_bytes-ne-stuck (drop 6 buf) name_length)
              (λ name _. done-ne-stuck _))))

pub datum-ne-stuck :
    (this : Datum) (buf : Option (List ℕ)) (len : ℕ) → deserialize this buf len ≢ stuck
unfolding deserialize deserialize_header
datum-ne-stuck this none len = done-ne-stuck _
datum-ne-stuck this (some buf) len = if-ne-stuck (ltb len 6) _ _ (done-ne-stuck _) (
    >>=-ne-stuck (read_le 4 buf) _ (read_le-ne-stuck 4 buf) (λ total _.
      if-ne-stuck (ltb len total) _ _ (done-ne-stuck _) (
        >>=-ne-stuck (read_le 2 (drop 4 buf)) _ (read_le-ne-stuck 2 (drop 4 buf)) (λ n _.
          if-ne-stuck (ltb total n) _ _ (done-ne-stuck _)
            (deserialize_value-ne-stuck this buf total n)))))

-- The bytes that count as used are no more than were given.
pub used-le :
    (this : Datum) (buf : List ℕ) (len : ℕ) {n : ℕ} {d : Datum}
    → deserialize this (some buf) len ≡ done (n, d)
    → n ≤ len
unfolding deserialize deserialize_header
used-le this buf len e = ground arith
