-- ===== src/Circbuf/EndOfBuffer.antt =====
-- The one case in which `circbuf_write` leaves a buffer that the other functions misread: the write
-- cursor stands at the end of the buffer instead of at index 0.
use statsite.Base.{ℕ, ◌+◌, ◌-◌, ◌%◌, ◌≤◌, ◌<◌, ◌≡◌, List, arith, length}
use statsite.Base.Words.{u64}
use statsite.Circbuf.{
  CircularBuffer, copy_in, circbuf_used_buf, circbuf_advance_read, reset_if_empty,
}
use statsite.Circbuf.Valid.{IsValid}
use statsite.Circbuf.Write.{extended, copy_whole}
use native.Mathlib.Nat.{mod_self}

module _ (buf : CircularBuffer) (xs : List ℕ) (v : IsValid buf) where
  open buf use {read_cursor, write_cursor, buf_size}

  -- When the bytes that circbuf_write copies fill a valid, unwrapped buffer up to its end and some
  -- byte before them is read already, the write cursor is left at the size of the buffer. A reader
  -- that then takes all that is held sees as many stale bytes as the buffer has, and not an empty
  -- buffer.
  pub copy_in_stale :
      0 < read_cursor
      → read_cursor ≤ write_cursor
      → write_cursor + length xs ≡ buf_size
      → let after = copy_in buf xs in
        (after.write_cursor ≡ buf_size)
        × (circbuf_used_buf after ≡ buf_size - read_cursor)
        × (circbuf_used_buf (circbuf_advance_read after (buf_size - read_cursor)) ≡ buf_size)
  unfolding circbuf_used_buf circbuf_advance_read reset_if_empty extended
  copy_in_stale pos le full =
      let turn : u64 (read_cursor + (buf_size - read_cursor)) % buf_size ≡ 0 =
        let same : u64 (read_cursor + (buf_size - read_cursor)) ≡ buf_size = omega arith in
        rw same (mod_self buf_size) in
      rw (copy_whole buf xs v le (omega arith)) (full, ground arith, rw turn (ground arith))
