-- ===== src/Circbuf/Write.antt =====
-- Growing the buffer, and copying bytes in behind those that it holds.
use statsite.Base.{
  ℕ, zero, suc, ◌+◌, ◌-◌, ◌*◌, ◌^◌, ◌≤◌, ◌<◌, ◌≡◌, refl, sym, ap, ap₂, ◌∙◌, List, ◌++◌, some, ltb,
  lt→ltb, le→ltb_false, ltb_false→le, le→leb, lt→leb_false, arith, length, length-take, length-drop,
  take, drop, take-append-drop, append_assoc, ◌⊎◌, ◌≢◌, Bool-cases, inl, inr,
}
use statsite.Base.Words.{sub32, u32}
use statsite.Memory.{Memory, load, store, load-add, load-store_apart, load-store_self}
use statsite.Circbuf.{
  CircularBuffer, circbuf_avail_buf, grown_bytes, circbuf_grow_buf, grow_until, copy_in,
  circbuf_write,
}
use statsite.Circbuf.Queue.{contents}
use statsite.Circbuf.Valid.{
  IsValid, used-contents, avail-add-used, contents_straight, contents_wrapped,
}
use native.Mathlib.Nat.{pow-suc}
use native.Mathlib.Decide.{dec_lt, dec_le, ℕ_discrete}

grown_bytes-contents : (buf : CircularBuffer) → IsValid buf → grown_bytes buf ≡ contents buf
unfolding grown_bytes contents
grown_bytes-contents buf v =
    let e : sub32 buf.buf_size buf.read_cursor ≡ buf.buf_size - buf.read_cursor = omega arith in
    rw e

-- circbuf_grow_buf doubles the size of a valid buffer, if the new size is below 2 ^ 30, and keeps
-- the bytes that it holds, in order; it leaves a valid buffer.
pub circbuf_grow_buf_keeps :
    (fresh : Memory) (buf : CircularBuffer)
    → IsValid buf
    → 2 * buf.buf_size < 2 ^ 30
    → (contents (circbuf_grow_buf fresh buf) ≡ contents buf)
      × ((circbuf_grow_buf fresh buf).buf_size ≡ 2 * buf.buf_size)
      × IsValid (circbuf_grow_buf fresh buf)
unfolding circbuf_grow_buf
circbuf_grow_buf_keeps fresh buf v small = rw (grown_bytes-contents buf v) (
  contents_straight grown (omega arith)
      ∙ ap (load grown.buffer 0) size
      ∙ load-store_self fresh 0 (contents buf),
  omega arith,
  omega (arith, used-contents buf v, avail-add-used buf v),
)
  where
    grown : CircularBuffer
    grown = record {
      write_cursor = length (contents buf);
      read_cursor = 0;
      buf_size = u32 (buf.buf_size * 2);
      buffer = store fresh 0 (contents buf);
    }

    size : length (contents buf) - 0 ≡ length (contents buf)
    size = omega arith

-- The copy, for bytes that fit.
module _ (buf : CircularBuffer) (xs : List ℕ) where
  open buf use {buffer, read_cursor, write_cursor, buf_size}

  -- The copy in one piece.
  unfoldable pub extended : CircularBuffer
  extended = record buf {
    buffer = store buffer write_cursor xs;
    write_cursor = write_cursor + length xs;
  }

  -- The copy in two pieces.
  unfoldable pub split : CircularBuffer
  split = record buf {
    buffer =
        store (store buffer write_cursor (take (buf_size - write_cursor) xs)) 0
          (drop (buf_size - write_cursor) xs);
    write_cursor = length xs - (buf_size - write_cursor);
  }

module _ (buf : CircularBuffer) (xs : List ℕ) (v : IsValid buf) where
  open buf use {buffer, read_cursor, write_cursor, buf_size}

  end_size : sub32 buf_size write_cursor ≡ buf_size - write_cursor
  end_size = omega arith

  -- Appending at the write cursor keeps what lies before it.
  load-extended :
      (a n : ℕ)
      → a + n ≡ write_cursor
      → load (store buffer write_cursor xs) a (n + length xs) ≡ load buffer a n ++ xs
  load-extended a n e =
      load-add (store buffer write_cursor xs) a n (length xs)
      ∙ ap₂ ◌++◌ (load-store_apart buffer a n write_cursor xs (omega arith)) (
          ap (λ b. load (store buffer write_cursor xs) b (length xs)) e
          ∙ load-store_self buffer write_cursor xs)

  pub extended_straight :
      read_cursor ≤ write_cursor → contents (extended buf xs) ≡ contents buf ++ xs
  unfolding extended
  extended_straight le =
      let n : write_cursor + length xs - read_cursor ≡ write_cursor - read_cursor + length xs =
        omega arith in
      contents_straight (extended buf xs) (omega arith)
      ∙ ap (load (store buffer write_cursor xs) read_cursor) n
      ∙ load-extended read_cursor (write_cursor - read_cursor) (omega arith)
      ∙ ap (λ l. l ++ xs) (sym (contents_straight buf le))

  pub extended_wrapped :
      write_cursor + length xs < read_cursor → contents (extended buf xs) ≡ contents buf ++ xs
  unfolding extended
  extended_wrapped lt =
      contents_wrapped (extended buf xs) lt
      ∙ ap₂ ◌++◌ (load-store_apart buffer read_cursor _ write_cursor xs (omega arith))
          (load-extended 0 write_cursor (omega arith))
      ∙ sym (append_assoc _ _ xs)
      ∙ ap (λ l. l ++ xs) (sym (contents_wrapped buf (omega arith)))

  pub split_straight :
      read_cursor ≤ write_cursor
      → buf_size - write_cursor < length xs
      → length xs - (buf_size - write_cursor) < read_cursor
      → contents (split buf xs) ≡ contents buf ++ xs
  unfolding split
  split_straight le gt lt =
      let end = buf_size - write_cursor in
      let front = take end xs in
      let back = drop end xs in
      let middle = store buffer write_cursor front in
      let front_size : length front ≡ end = omega (arith, length-take end xs) in
      let back_size : length xs - end ≡ length back = sym (length-drop end xs) in
      let n : buf_size - read_cursor ≡ write_cursor - read_cursor + length front = omega arith in
      let a : read_cursor + (write_cursor - read_cursor) ≡ write_cursor = omega arith in
      contents_wrapped (split buf xs) lt
      ∙ ap₂ ◌++◌
          (load-store_apart middle read_cursor _ 0 back (omega arith)
            ∙ ap (load middle read_cursor) n
            ∙ load-add middle read_cursor (write_cursor - read_cursor) (length front)
            ∙ ap₂ ◌++◌
                (load-store_apart buffer read_cursor _ write_cursor front (omega arith)
                  ∙ sym (contents_straight buf le))
                (ap (λ b. load middle b (length front)) a
                  ∙ load-store_self buffer write_cursor front))
          (ap (load (store middle 0 back) 0) back_size ∙ load-store_self middle 0 back)
      ∙ append_assoc (contents buf) front back
      ∙ ap (λ l. contents buf ++ l) (take-append-drop end xs)

  pub copy_whole :
      read_cursor ≤ write_cursor
      → length xs ≤ buf_size - write_cursor
      → copy_in buf xs ≡ extended buf xs
  unfolding copy_in extended
  copy_whole ge le = rw (copy_in, le→ltb_false write_cursor read_cursor ge, end_size, le→leb _ _ le)

  -- Bytes that fit are appended. The cursors stay inside the buffer, but for one case: a copy in one
  -- piece that ends where the buffer ends leaves the write cursor there.
  pub copy_in_appends :
      length xs ≤ circbuf_avail_buf buf
      → (contents (copy_in buf xs) ≡ contents buf ++ xs)
        × ((write_cursor + length xs ≡ buf_size) ⊎ IsValid (copy_in buf xs))
  unfolding copy_in extended split circbuf_avail_buf
  copy_in_appends fits = elim (dec_lt write_cursor read_cursor) [
    | yes lt ↦ rw (copy_in, lt→ltb _ _ lt) (extended_wrapped (ground arith), inr (ground arith))
    | no ge ↦ elim (dec_le (length xs) (buf_size - write_cursor)) [
      | yes le ↦
          let ends : (write_cursor + length xs ≡ buf_size) ⊎ IsValid (extended buf xs) =
            elim (ℕ_discrete (write_cursor + length xs) buf_size) [
              | yes e ↦ inl e
              | no ne ↦ inr (omega arith)
            ] in
          rw (copy_in, le→ltb_false write_cursor read_cursor (omega arith), end_size, le→leb _ _ le)
            (extended_straight (omega arith), ends)
      | no gt ↦
          rw
            (
              copy_in,
              le→ltb_false write_cursor read_cursor (omega arith),
              end_size,
              lt→leb_false (length xs) (buf_size - write_cursor) (omega arith),
            )
            (split_straight (omega arith) (omega arith) (ground arith), inr (ground arith))
    ]
  ]

grow-read_cursor :
    (fresh : Memory) (buf : CircularBuffer) → (circbuf_grow_buf fresh buf).read_cursor ≡ 0
unfolding circbuf_grow_buf
grow-read_cursor fresh buf = refl

-- A buffer whose first byte is the next to read never fills up to its end.
copy_in_from_start :
    (buf : CircularBuffer) (xs : List ℕ)
    → IsValid buf
    → buf.read_cursor ≡ 0
    → length xs ≤ circbuf_avail_buf buf
    → IsValid (copy_in buf xs)
unfolding circbuf_avail_buf
copy_in_from_start buf xs v z fits = elim (copy_in_appends buf xs v fits).1 [
  | inl full ↦ absurd (ground arith)
  | inr ok ↦ ok
]

-- Doubling, with the powers that count the rounds left.
double_pow : (size k : ℕ) → size * 2 ^ suc k ≡ 2 * size * 2 ^ k
double_pow size k = rw pow-suc (omega arith)

le-mul-pow : (size k : ℕ) → size ≤ size * 2 ^ k
le-mul-pow size zero = omega arith
le-mul-pow size (suc k) = omega (arith, le-mul-pow size k, double_pow size k)

-- `while (avail < bytes)` ends: with room for the bytes after `k` doublings, `k + 1` rounds do. The
-- buffer that it leaves holds the same bytes, and the new ones fit.
pub grow_until_total :
    (k : ℕ) (fresh : Memory) (buf : CircularBuffer) (n : ℕ)
    → IsValid buf
    → length (contents buf) + n < buf.buf_size * 2 ^ k
    → buf.buf_size * 2 ^ k < 2 ^ 30
    → (grown : CircularBuffer) × (grow_until (suc k) fresh buf n ≡ some grown)
      × (contents grown ≡ contents buf)
      × (n ≤ circbuf_avail_buf grown)
      × (grown.read_cursor ≤ buf.read_cursor)
      × IsValid grown
unfolding grow_until
grow_until_total zero fresh buf n v room small =
    let fits : n ≤ circbuf_avail_buf buf =
      omega (arith, used-contents buf v, avail-add-used buf v) in
    (buf, rw (le→ltb_false _ _ fits), refl, fits, omega arith, v)
grow_until_total (suc k) fresh buf n v room small =
    elim (Bool-cases (ltb (circbuf_avail_buf buf) n)) [
      | inr fits ↦ (buf, rw fits, refl, ltb_false→le _ _ fits, omega arith, v)
      | inl short ↦
          let doubled = double_pow buf.buf_size k in
          let (kept, size, valid) =
            circbuf_grow_buf_keeps fresh buf v (omega (arith, le-mul-pow (2 * buf.buf_size) k)) in
          let (grown, run, same, fits, start, ok) =
            grow_until_total k fresh (circbuf_grow_buf fresh buf) n valid
              (rw (kept, size) (omega arith)) (rw size (omega arith)) in
          (grown, rw short run, same ∙ kept, fits, omega (arith, grow-read_cursor fresh buf), ok)
    ]

-- On a valid buffer circbuf_write ends and appends the bytes, when k doublings of the buffer make
-- room for them and the size after k doublings is below 2 ^ 30. From a read cursor at 0 it leaves a
-- valid buffer.
pub circbuf_write_appends :
    (k : ℕ) (fresh : Memory) (buf : CircularBuffer) (xs : List ℕ)
    → IsValid buf
    → length (contents buf) + length xs < buf.buf_size * 2 ^ k
    → buf.buf_size * 2 ^ k < 2 ^ 30
    → (after : CircularBuffer) × (circbuf_write (suc k) fresh buf xs ≡ some after)
      × (contents after ≡ contents buf ++ xs)
      × ((buf.read_cursor ≢ 0) ⊎ IsValid after)
unfolding circbuf_write
circbuf_write_appends k fresh buf xs v room small =
    let (grown, run, same, fits, start, ok) =
      grow_until_total k fresh buf (length xs) v room small in
    (
      copy_in grown xs,
      rw (run, circbuf_write),
      (copy_in_appends grown xs ok fits).0 ∙ ap (λ l. l ++ xs) same,
      elim (ℕ_discrete buf.read_cursor 0) [
        | yes z ↦ inr (copy_in_from_start grown xs ok (omega arith) fits)
        | no nz ↦ inl nz
      ],
    )
