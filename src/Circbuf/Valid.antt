-- ===== src/Circbuf/Valid.antt =====
-- What a buffer keeps true of its cursors, and the sizes that follow from it.
use statsite.Base.{
  ◌+◌, ◌-◌, ◌^◌, ◌≤◌, ◌<◌, ◌≡◌, length, length-append, arith, ◌==◌, ◌++◌, sym, ◌∙◌, lt→ltb,
  le→ltb_false, Bool-cases, inl, inr,
}
use statsite.Memory.{Memory, load, length-load, load-empty}
use statsite.Circbuf.{
  CircularBuffer, circbuf_init, circbuf_clear, circbuf_avail_buf, circbuf_used_buf, reset_if_empty,
}
use statsite.Circbuf.Queue.{contents}

-- Both cursors stand inside the buffer, and doubling its size does not overflow an `int`.
pub record IsValid (buf : CircularBuffer) : Type 0 where
  pub write_in : buf.write_cursor < buf.buf_size
  pub read_in : buf.read_cursor < buf.buf_size
  pub small : buf.buf_size < 2 ^ 30

pub circbuf_init-IsValid : (fresh : Memory) → IsValid (circbuf_init fresh)
unfolding circbuf_init
circbuf_init-IsValid fresh = omega arith

pub circbuf_clear-IsValid : {buf : CircularBuffer} → IsValid buf → IsValid (circbuf_clear buf)
unfolding circbuf_clear
circbuf_clear-IsValid v = omega arith

-- `circbuf_used_buf` is the number of bytes that the buffer holds.
pub used-contents :
    (buf : CircularBuffer) → IsValid buf → circbuf_used_buf buf ≡ length (contents buf)
unfolding circbuf_used_buf contents
used-contents buf v = ground (
  arith,
  length-append (load buf.buffer buf.read_cursor (buf.buf_size - buf.read_cursor))
      (load buf.buffer 0 buf.write_cursor),
  length-load buf.buffer buf.read_cursor (buf.buf_size - buf.read_cursor),
  length-load buf.buffer 0 buf.write_cursor,
  length-load buf.buffer buf.read_cursor (buf.write_cursor - buf.read_cursor),
)

-- One byte of the buffer stays free: what is used and what is available make up the rest.
pub avail-add-used :
    (buf : CircularBuffer)
    → IsValid buf
    → circbuf_avail_buf buf + circbuf_used_buf buf + 1 ≡ buf.buf_size
unfolding circbuf_avail_buf circbuf_used_buf
avail-add-used buf v = ground arith

-- The two shapes of the contents.
pub contents_wrapped :
    (buf : CircularBuffer)
    → buf.write_cursor < buf.read_cursor
    → contents buf
      ≡ load buf.buffer buf.read_cursor (buf.buf_size - buf.read_cursor)
        ++ load buf.buffer 0 buf.write_cursor
unfolding contents
contents_wrapped buf h = rw (lt→ltb _ _ h)

pub contents_straight :
    (buf : CircularBuffer)
    → buf.read_cursor ≤ buf.write_cursor
    → contents buf ≡ load buf.buffer buf.read_cursor (buf.write_cursor - buf.read_cursor)
unfolding contents
contents_straight buf h = rw (le→ltb_false _ _ h)

-- Meeting cursors mean an empty buffer: sending them back to its start changes nothing.
pub contents-reset : (buf : CircularBuffer) → contents (reset_if_empty buf) ≡ contents buf
unfolding reset_if_empty
contents-reset buf = elim (Bool-cases (buf.read_cursor == buf.write_cursor)) [
  | inl e ↦ rw e (
      contents_straight (record buf { write_cursor = 0; read_cursor = 0 }) (omega arith)
      ∙ load-empty buf.buffer 0 (0 - 0) (omega arith)
      ∙ sym (
          contents_straight buf (ground arith)
          ∙ load-empty buf.buffer buf.read_cursor (buf.write_cursor - buf.read_cursor)
              (ground arith)))
  | inr e ↦ rw e
]

pub reset-IsValid : {buf : CircularBuffer} → IsValid buf → IsValid (reset_if_empty buf)
unfolding reset_if_empty
reset-IsValid v = ground arith
