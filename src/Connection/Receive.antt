-- ===== src/Connection/Receive.antt =====
-- What is received stands behind what the buffer held.
use statsite.Base.{
  ℕ, ◌+◌, ◌-◌, ◌*◌, ◌/◌, ◌%◌, ◌^◌, ◌≤◌, ◌<◌, ◌≡◌, refl, sym, ap, ◌∙◌, List, [], ◌∷◌, ◌++◌, some,
  ltb, ◌==◌, ltb→lt, lt→ltb, le→ltb_false, ltb_false→le, if◌then◌else◌, arith, length, length-drop,
  take, drop, take_all, drop_all, get_or, Bool-cases, inl, inr, append-nil,
}
use statsite.Base.Words.{sub32, add32, u64}
use statsite.Memory.{Memory, load, store, store-nil, load-empty}
use statsite.Circbuf.{
  CircularBuffer, circbuf_avail_buf, circbuf_grow_buf, circbuf_setup_readv_iovec,
  circbuf_advance_write, circbuf_clear,
}
use statsite.Circbuf.Queue.{contents}
use statsite.Circbuf.Valid.{
  IsValid, used-contents, avail-add-used, circbuf_clear-IsValid, contents_straight,
  contents_wrapped,
}
use statsite.Circbuf.Write.{
  extended, split, extended_straight, extended_wrapped, split_straight, circbuf_grow_buf_keeps,
  circbuf_write_appends,
}
use statsite.Connection.{
  read_bytes, scatter, iov_total, fill, make_room, read_client_data, newline, end_line,
  handle_udp_message,
}
use native.Mathlib.Decide.{dec_lt, ℕ_discrete}
use native.Mathlib.Nat.{mod-eq_of_lt, mod-lt, mod_self, mod-eq-sub-mod, zero-add}

-- The vectors that circbuf_setup_readv_iovec sets up for a valid buffer have as many bytes together
-- as circbuf_avail_buf says are available.
pub setup_readv_iovec_total :
    (buf : CircularBuffer)
    → IsValid buf
    → iov_total (circbuf_setup_readv_iovec buf) ≡ circbuf_avail_buf buf
unfolding circbuf_setup_readv_iovec circbuf_avail_buf
setup_readv_iovec_total buf v = ground arith

module _ (buf : CircularBuffer) (xs : List ℕ) (v : IsValid buf)
    (fits : length xs ≤ circbuf_avail_buf buf) where
  open buf use {buffer, read_cursor, write_cursor, buf_size}

  room : ℕ
  room = buf_size - write_cursor

  -- The new write cursor, and the buffer for a memory.
  landed : Memory → CircularBuffer
  landed m = record buf { buffer = m; write_cursor = (write_cursor + length xs) % buf_size }

  wide : u64 (write_cursor + length xs) ≡ write_cursor + length xs
  wide = omega (arith, avail-add-used buf v)

  landed-IsValid : (m : Memory) → IsValid (landed m)
  unfolding landed
  landed-IsValid m = record {
    write_in = mod-lt _ (omega arith);
    read_in = v.read_in;
    small = v.small;
  }

  Appended : CircularBuffer → Type 0
  Appended b = contents b ≡ contents buf ++ xs

  -- The cursor that does not reach the end of the buffer stands behind the bytes.
  inside :
      write_cursor + length xs < buf_size → landed (store buffer write_cursor xs) ≡ extended buf xs
  unfolding landed extended
  inside h = rw (mod-eq_of_lt h)

  at_end :
      read_cursor ≤ write_cursor
      → 0 < read_cursor
      → write_cursor + length xs ≡ buf_size
      → contents (landed (store buffer write_cursor xs)) ≡ contents buf ++ xs
  unfolding landed extended
  at_end le pos e =
      let zero_cursor : (write_cursor + length xs) % buf_size ≡ 0 = rw e (mod_self buf_size) in
      let m = store buffer write_cursor xs in
      let n : write_cursor + length xs - read_cursor ≡ buf_size - read_cursor = omega arith in
      rw zero_cursor (
        contents_wrapped (record buf { buffer = m; write_cursor = 0 }) pos
        ∙ ap (λ l. load m read_cursor (buf_size - read_cursor) ++ l) (load-empty m 0 0 refl)
        ∙ append-nil _
        ∙ sym (contents_straight (extended buf xs) (omega arith) ∙ ap (load m read_cursor) n)
        ∙ extended_straight buf xs v le)

  around :
      buf_size < write_cursor + length xs
      → landed (store (store buffer write_cursor (take room xs)) 0 (drop room xs)) ≡ split buf xs
  unfolding landed split room circbuf_avail_buf
  around h =
      let e : (write_cursor + length xs) % buf_size ≡ length xs - (buf_size - write_cursor) =
        mod-eq-sub-mod {n = write_cursor + length xs} {m = buf_size} (omega arith)
        ∙ mod-eq_of_lt (ground arith)
        ∙ omega arith in
      rw e

  -- The three ways in which the vectors take the bytes.
  fill_wrapped : write_cursor < read_cursor → fill buf xs ≡ landed (store buffer write_cursor xs)
  unfolding fill scatter circbuf_setup_readv_iovec circbuf_advance_write circbuf_avail_buf landed
  fill_wrapped lt =
      let all : take (read_cursor - write_cursor - 1) xs ≡ xs = take_all _ xs (ground arith) in
      rw (circbuf_setup_readv_iovec, lt→ltb _ _ lt, all, wide)

  fill_start : read_cursor ≡ 0 → fill buf xs ≡ landed (store buffer write_cursor xs)
  unfolding fill scatter circbuf_setup_readv_iovec circbuf_advance_write circbuf_avail_buf landed
  fill_start z =
      let size : sub32 (sub32 buf_size write_cursor) 1 ≡ buf_size - write_cursor - 1 =
        omega arith in
      let all : take (buf_size - write_cursor - 1) xs ≡ xs = take_all _ xs (ground arith) in
      rw (
        circbuf_setup_readv_iovec,
        le→ltb_false write_cursor read_cursor (omega arith),
        le→ltb_false 0 read_cursor (omega arith),
        size,
        all,
        wide,
      )

  fill_two :
      0 < read_cursor
      → read_cursor ≤ write_cursor
      → fill buf xs ≡ landed (store (store buffer write_cursor (take room xs)) 0 (drop room xs))
  unfolding fill scatter circbuf_setup_readv_iovec circbuf_advance_write circbuf_avail_buf landed
      room
  fill_two pos le =
      let size : add32 (sub32 (sub32 buf_size write_cursor) 1) 1 ≡ buf_size - write_cursor =
        omega arith in
      let all : take (read_cursor - 1) (drop (buf_size - write_cursor) xs)
          ≡ drop (buf_size - write_cursor) xs =
        take_all _ _ (ground (arith, length-drop (buf_size - write_cursor) xs)) in
      rw (
        circbuf_setup_readv_iovec,
        le→ltb_false write_cursor read_cursor le,
        lt→ltb 0 read_cursor pos,
        size,
        all,
        wide,
      )

  -- If the second vector stays empty, it is as if there were one.
  one_piece :
      write_cursor + length xs ≤ buf_size
      → store (store buffer write_cursor (take room xs)) 0 (drop room xs)
        ≡ store buffer write_cursor xs
  unfolding room
  one_piece le =
      let all : take (buf_size - write_cursor) xs ≡ xs = take_all _ xs (omega arith) in
      let none_left : drop (buf_size - write_cursor) xs ≡ [] =
        drop_all (buf_size - write_cursor) xs (omega arith) in
      rw (all, none_left) (store-nil _ 0)

  fill_straight :
      0 < read_cursor → read_cursor ≤ write_cursor → contents (fill buf xs) ≡ contents buf ++ xs
  unfolding circbuf_avail_buf
  fill_straight pos le = rw (fill_two pos le) (elim (dec_lt buf_size (write_cursor + length xs)) [
    | yes past ↦ rw (around past) (split_straight buf xs v le (omega arith) (ground arith))
    | no within ↦
        rw (one_piece (omega arith)) (elim (ℕ_discrete (write_cursor + length xs) buf_size) [
          | yes e ↦ at_end le pos e
          | no ne ↦ rw (inside (omega arith)) (extended_straight buf xs v le)
        ])
  ])

  -- What a read stores in the vectors stands behind what the buffer held.
  pub fill-append : contents (fill buf xs) ≡ contents buf ++ xs
  unfolding circbuf_avail_buf
  fill-append = elim (dec_lt write_cursor read_cursor) [
    | yes lt ↦
        let bound : write_cursor + length xs < read_cursor = ground arith in
        rw (fill_wrapped lt, inside (omega arith)) (extended_wrapped buf xs v bound)
    | no ge ↦ elim (ℕ_discrete read_cursor 0) [
      | yes z ↦
          let bound : write_cursor + length xs < buf_size = ground arith in
          rw (fill_start z, inside bound) (extended_straight buf xs v (omega arith))
      | no nz ↦ fill_straight (omega arith) (omega arith)
    ]
  ]

  pub fill-IsValid : IsValid (fill buf xs)
  unfolding fill circbuf_advance_write
  fill-IsValid = record { write_in = mod-lt _ (omega arith); read_in = v.read_in; small = v.small }

-- `make_room` keeps the bytes, and leaves at least one byte of room (a read of no bytes would be
-- taken for the end of the connection).
make_room_keeps :
    (fresh : Memory) (buf : CircularBuffer)
    → IsValid buf
    → 2 ≤ buf.buf_size
    → 2 * buf.buf_size < 2 ^ 30
    → (contents (make_room fresh buf) ≡ contents buf)
      × (0 < circbuf_avail_buf (make_room fresh buf))
      × IsValid (make_room fresh buf)
unfolding make_room
make_room_keeps fresh buf v two small =
    let (kept, size, ok) = circbuf_grow_buf_keeps fresh buf v small in
    let grown = circbuf_grow_buf fresh buf in
    elim (Bool-cases (ltb (circbuf_avail_buf buf) (buf.buf_size / 2))) [
      | inl short ↦ rw short (
        kept,
        omega (
          arith,
          used-contents buf v,
          avail-add-used buf v,
          used-contents grown ok,
          avail-add-used grown ok,
          ap length kept,
          ltb→lt _ _ short,
        ),
        ok,
      )
      | inr wide ↦ rw wide (refl, omega (arith, ltb_false→le _ _ wide), v)
    ]

-- On a valid buffer of at least two bytes whose doubled size stays below 2 ^ 30, read_client_data
-- appends the bytes of a successful read to those that the buffer holds, when they are no more than
-- the vectors offer, and reports success; it leaves a valid buffer, and the vectors offer at least
-- one byte.
pub read_client_data_appends :
    (fresh : Memory) (buf : CircularBuffer) (xs : List ℕ)
    → IsValid buf
    → 2 ≤ buf.buf_size
    → 2 * buf.buf_size < 2 ^ 30
    → length xs ≤ iov_total (circbuf_setup_readv_iovec (make_room fresh buf))
    → let (status, after) = read_client_data fresh buf (read_bytes xs) in
      (status ≡ 0)
      × (contents after ≡ contents buf ++ xs)
      × IsValid after
      × (0 < iov_total (circbuf_setup_readv_iovec (make_room fresh buf)))
unfolding read_client_data
read_client_data_appends fresh buf xs v two small fits =
    let (kept, room, ok) = make_room_keeps fresh buf v two small in
    let total = setup_readv_iovec_total (make_room fresh buf) ok in
    let n : length xs ≤ circbuf_avail_buf (make_room fresh buf) = omega arith in
    (
      refl,
      fill-append (make_room fresh buf) xs ok n ∙ ap (λ l. l ++ xs) kept,
      fill-IsValid (make_room fresh buf) xs ok n,
      omega arith,
    )

-- A datagram as the parser wants it: with a newline at its end.
abbrev pub terminated : List ℕ → List ℕ
terminated xs = if get_or xs (length xs - 1) 0 == newline then xs else xs ++ newline ∷ []

module _ (buf : CircularBuffer) (xs : List ℕ) (v : IsValid buf) (some_byte : 0 < length xs)
    (fits : length xs < buf.buf_size) where
  cleared : CircularBuffer
  cleared = circbuf_clear buf

  cleared_fits : length xs ≤ circbuf_avail_buf cleared
  unfolding cleared circbuf_clear circbuf_avail_buf
  cleared_fits = ground arith

  received :
      fill cleared xs
      ≡ record buf { write_cursor = length xs; read_cursor = 0; buffer = store buf.buffer 0 xs }
  unfolding cleared circbuf_clear landed
  received =
      let e : (0 + length xs) % buf.buf_size ≡ length xs = rw zero-add (mod-eq_of_lt fits) in
      fill_start cleared xs (circbuf_clear-IsValid v) cleared_fits refl ∙ rw e

  contents-received : contents (fill cleared xs) ≡ xs
  unfolding cleared circbuf_clear load
  contents-received =
      fill-append cleared xs (circbuf_clear-IsValid v) cleared_fits
      ∙ ap (λ l. l ++ xs)
          (contents_straight cleared (omega arith) ∙ load-empty buf.buffer 0 (0 - 0) (omega arith))

  received_ok : IsValid (fill cleared xs)
  unfolding cleared
  received_ok = fill-IsValid cleared xs (circbuf_clear-IsValid v) cleared_fits

  last_received :
      (fill cleared xs).buffer ((fill cleared xs).write_cursor - 1) ≡ get_or xs (length xs - 1) 0
  unfolding store
  last_received =
      let e : length xs - 1 - 0 ≡ length xs - 1 = omega arith in rw received (ground (arith, e))

  -- A round of handle_udp_message hands the parser exactly the datagram, with a newline added if it
  -- did not end in one, in a valid buffer; nothing of an earlier datagram is left. The buffer was
  -- valid, the datagram has a byte and is shorter than the buffer, and the doubled size of the
  -- buffer stays below 2 ^ 30.
  pub handle_udp_message_receives :
      (fresh : Memory)
      → 2 * buf.buf_size < 2 ^ 30
      → (after : CircularBuffer) × (handle_udp_message 2 fresh buf (read_bytes xs) ≡ some after)
        × (contents after ≡ terminated xs)
        × IsValid after
  unfolding handle_udp_message end_line cleared
  handle_udp_message_receives fresh small =
      rw (last_received, end_line)
        (elim (Bool-cases (get_or xs (length xs - 1) 0 == newline)) [
          | inl ended ↦ rw ended (fill cleared xs, refl, contents-received, received_ok)
          | inr open_line ↦
              let size = ap (λ (b : CircularBuffer). b.buf_size) received in
              let start = ap (λ (b : CircularBuffer). b.read_cursor) received in
              let (after, run, appended, ok) =
                circbuf_write_appends 1 fresh (fill cleared xs) (newline ∷ []) received_ok
                  (rw (contents-received, size) (omega arith)) (rw size (omega arith)) in
              rw open_line (
                after,
                run,
                appended ∙ ap (λ l. l ++ newline ∷ []) contents-received,
                elim ok [ inl moved ↦ absurd (moved start) | inr valid ↦ valid ],
              )
        ])
