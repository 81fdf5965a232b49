-- ===== src/BinaryStream/Readback.antt =====
-- The bytes of a command of the binary stream, and that the reader of README.md gets it back.
use statsite.Base.{
  ℕ, zero, suc, ◌+◌, ◌-◌, ◌^◌, ◌≤◌, ◌<◌, ◌≡◌, refl, ◌∙◌, arith, List, [], ◌∷◌, ◌++◌, append_assoc,
  Bool, true, false, Option, none, some, length, length-append, take, take-append, take_all,
}
use statsite.BinaryStream.{bytes_of}
use statsite.BinaryStream.Sink.{
  Result, number-bytes_of, length-bytes_of, read_bytes-append, has_count, read_count, read_result,
  read_results,
}

-- The count, where there has to be one, is below 2 ^ 32.
unfoldable pub CountFits : Bool → Option ℕ → Type 0
CountFits true (some count) = count < 2 ^ 32
CountFits true none = ⊥
CountFits false (some count) = ⊥
CountFits false none = Unit

abbrev pub count_bytes : Option ℕ → List ℕ
count_bytes none = []
count_bytes (some count) = bytes_of 4 count

-- The numbers of a result fit the fields.
pub record IsResult {D : Type 0} (r : Result D) : Type 0 where
  pub timestamp_fits : r.timestamp < 2 ^ 64
  pub type_fits : r.type < 256
  pub value_type_fits : r.value_type < 256
  pub key_fits : length r.key + 1 < 2 ^ 16
  pub count_fits : CountFits (has_count r.value_type) r.count

unfoldable pub AreResults : {D : Type 0} → List (Result D) → Type 0
AreResults [] = Unit
AreResults (r ∷ rs) = IsResult r × AreResults rs

read_count-bytes :
    (b : Bool) (count : Option ℕ) (rest : List ℕ)
    → CountFits b count
    → read_count b (count_bytes count ++ rest) ≡ some (count, rest)
unfolding CountFits read_count
read_count-bytes true none rest h = absurd h
read_count-bytes true (some n) rest h = rw (
  read_bytes-append 4 (bytes_of 4 n) rest (length-bytes_of 4 n),
  number-bytes_of 4 n (omega arith),
)
read_count-bytes false none rest h = refl
read_count-bytes false (some n) rest h = absurd h

module _ {D : Type 0} (to_bytes : D → List ℕ) where
  unfoldable pub encode : Result D → List ℕ
  encode r =
      bytes_of 8 r.timestamp
      ++ (bytes_of 1 r.type
          ++ (bytes_of 1 r.value_type
              ++ (bytes_of 2 (length r.key + 1)
                  ++ (to_bytes r.value ++ ((r.key ++ (0 ∷ [])) ++ count_bytes r.count)))))

  unfoldable pub encode_all : List (Result D) → List ℕ
  encode_all [] = []
  encode_all (r ∷ rs) = encode r ++ encode_all rs

  pub encode_all-append :
      (xs ys : List (Result D)) → encode_all (xs ++ ys) ≡ encode_all xs ++ encode_all ys
  unfolding encode_all
  encode_all-append [] ys = refl
  encode_all-append (x ∷ xs) ys =
      rw (encode_all-append xs ys, append_assoc (encode x) (encode_all xs) (encode_all ys))

  module _ (of_bytes : List ℕ → D) (eight : (d : D) → length (to_bytes d) ≡ 8)
      (same : (d : D) → of_bytes (to_bytes d) ≡ d) where
    read_result-encode :
        (r : Result D) (rest : List ℕ)
        → IsResult r
        → read_result of_bytes (encode r ++ rest) ≡ some (r, rest)
    unfolding encode read_result
    read_result-encode r rest h =
        let key_len : length (r.key ++ (0 ∷ [])) ≡ length r.key + 1 =
          length-append r.key (0 ∷ []) in
        let key : take (length r.key + 1 - 1) (r.key ++ (0 ∷ [])) ≡ r.key =
          take-append (length r.key + 1 - 1) r.key (0 ∷ []) (omega arith)
          ∙ take_all (length r.key + 1 - 1) r.key (omega arith) in
        rw (
          append_assoc (bytes_of 8 r.timestamp) _ rest,
          append_assoc (bytes_of 1 r.type) _ rest,
          append_assoc (bytes_of 1 r.value_type) _ rest,
          append_assoc (bytes_of 2 (length r.key + 1)) _ rest,
          append_assoc (to_bytes r.value) _ rest,
          append_assoc (r.key ++ (0 ∷ [])) (count_bytes r.count) rest,
          read_bytes-append 8 (bytes_of 8 r.timestamp) _ (length-bytes_of 8 _),
          read_bytes-append 1 (bytes_of 1 r.type) _ (length-bytes_of 1 _),
          read_bytes-append 1 (bytes_of 1 r.value_type) _ (length-bytes_of 1 _),
          read_bytes-append 2 (bytes_of 2 (length r.key + 1)) _ (length-bytes_of 2 _),
          read_bytes-append 8 (to_bytes r.value) _ (eight _),
          number-bytes_of 2 (length r.key + 1) (omega (arith, h.key_fits)),
          number-bytes_of 1 r.value_type (omega (arith, h.value_type_fits)),
          number-bytes_of 8 r.timestamp (omega (arith, h.timestamp_fits)),
          number-bytes_of 1 r.type (omega (arith, h.type_fits)),
          read_bytes-append (length r.key + 1) (r.key ++ (0 ∷ [])) _ key_len,
          read_count-bytes (has_count r.value_type) r.count rest h.count_fits,
          same r.value,
          key,
        )

    -- The commands that hold results are read back, all of them, if the numbers fit their fields.
    pub read_results-encode_all :
        (rs : List (Result D)) (fuel : ℕ)
        → AreResults rs
        → length rs ≤ fuel
        → read_results of_bytes fuel (encode_all rs) ≡ some rs
    unfolding AreResults encode_all read_results encode bytes_of
    read_results-encode_all [] zero h le = refl
    read_results-encode_all [] (suc fuel) h le = refl
    read_results-encode_all (r ∷ rs) zero h le = absurd (omega arith)
    read_results-encode_all (r ∷ rs) (suc fuel) (h, hs) le =
        rw
          (read_result-encode r (encode_all rs) h, read_results-encode_all rs fuel hs (omega arith))
