-- ===== src/Request/Total.antt =====
-- Request.cpp: reading a request ends on every input.
use dowow_network.Prelude.{
  ℕ, zero, suc, ◌+◌, ◌-◌, ◌%◌, ◌≤◌, ◌<◌, ◌≡◌, ◌≢◌, inl, inr, List, ◌∷◌, [], ◌++◌, some, arith,
  stuck, >>=-ne-stuck, if-ne-stuck, done-ne-stuck, drop, ltb, ◌==◌, Bool-cases, true, false,
}
use dowow_network.Prelude.Bytes.{u32_mod, read_le, read_le-ne-stuck, read_bytes-ne-stuck}
use dowow_network.Datum
use dowow_network.Datum.{Datum}
use dowow_network.Datum.Total.{datum-ne-stuck, used-le}
use dowow_network.Request.{Request, deserialize_loop, deserialize}

-- Each round moves the offset on within `data_size`.
deserialize_loop-ne-stuck :
    (fuel : ℕ) (buf : List ℕ) (data_size i : ℕ) (arguments : List Datum)
    → data_size < u32_mod
    → 0 < fuel
    → data_size < fuel + i
    → deserialize_loop fuel buf data_size i arguments ≢ stuck
unfolding deserialize_loop
deserialize_loop-ne-stuck zero buf data_size i arguments wide some_fuel enough =
    absurd (omega arith)
deserialize_loop-ne-stuck (suc fuel) buf data_size i arguments wide some_fuel enough =
    elim (Bool-cases (ltb i data_size)) [
      | inl inside ↦ rw inside (
          >>=-ne-stuck _ _ (datum-ne-stuck Datum.init (some (drop i buf)) (data_size - i))
            (λ r read. elim (Bool-cases (r.0 == 0)) [
              | inl none_used ↦ rw none_used (done-ne-stuck _)
              | inr some_used ↦ rw some_used (
                  deserialize_loop-ne-stuck fuel buf data_size ((i + r.0) % u32_mod)
                    (arguments ++ r.1 ∷ []) wide
                    (omega (
                      arith,
                      advance (r.0) (used-le Datum.init (drop i buf) (data_size - i) read) inside
                          some_used,
                    ))
                    (advance (r.0) (used-le Datum.init (drop i buf) (data_size - i) read) inside
                      some_used).1)
            ]))
      | inr outside ↦ rw outside (done-ne-stuck _)
    ]
  where
    advance :
        (n : ℕ)
        → n ≤ data_size - i
        → ltb i data_size ≡ true
        → (n == 0) ≡ false
        → ((i + n) % u32_mod ≤ data_size) × (data_size < fuel + (i + n) % u32_mod)
    advance n used inside some_used = ground arith

-- Whatever the object and the bytes, reading a request of fewer than 2^32 bytes returns or faults: the
-- loop over the data and the nesting of arrays end.
pub request-ne-stuck :
    (this : Request) (buf : List ℕ) (data_size : ℕ)
    → data_size < u32_mod
    → deserialize this buf data_size ≢ stuck
unfolding deserialize
request-ne-stuck this buf data_size wide = if-ne-stuck (ltb data_size 10) _ _ (done-ne-stuck _) (
    >>=-ne-stuck (read_le 4 buf) _ (read_le-ne-stuck 4 buf) (λ total _.
      >>=-ne-stuck (read_le 4 (drop 4 buf)) _ (read_le-ne-stuck 4 (drop 4 buf)) (λ id _.
        >>=-ne-stuck (read_le 2 (drop 8 buf)) _ (read_le-ne-stuck 2 (drop 8 buf)) (λ n _.
          if-ne-stuck (ltb data_size total) _ _ (done-ne-stuck _) (
            if-ne-stuck (ltb data_size n) _ _ (done-ne-stuck _) (
              >>=-ne-stuck _ _ (read_bytes-ne-stuck (drop 10 buf) n) (λ name _.
                >>=-ne-stuck _ _
                  (deserialize_loop-ne-stuck (suc data_size) buf data_size (10 + n) [] wide
                    (omega arith) (omega arith))
                  (λ r _. done-ne-stuck _))))))))
