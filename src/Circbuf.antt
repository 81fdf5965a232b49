-- ===== src/Circbuf.antt =====
-- The circular input buffer of a connection: `circular_buffer` and the functions of
-- src/networking.c on it. A cursor is never negative, so an `int` is a number; differences that
-- the code takes in `uint32_t` wrap here too. `malloc` succeeds, and what it returns is a
-- parameter `fresh`. A pointer into the buffer is handed out as the bytes that it points to.
pub mod Valid
pub mod Queue
pub mod Extract
pub mod Read
pub mod Write
pub mod EndOfBuffer
pub mod Examples
use statsite.Base.{
  ℕ, zero, suc, ◌+◌, ◌-◌, ◌*◌, ◌%◌, List, [], ◌∷◌, ◌++◌, Bool, true, false, Option, none, some,
  ◌==◌, ltb, leb, if◌then◌else◌, length, take, drop,
}
use statsite.Base.Words.{u32, sub32, add32, u64}
use statsite.Memory.{Memory, load, store, memchr}

pub record CircularBuffer : Type 0 where
  pub write_cursor : ℕ
  pub read_cursor : ℕ
  pub buf_size : ℕ
  pub buffer : Memory

abbrev pub init_conn_buf_size : ℕ
init_conn_buf_size = 32768

abbrev pub conn_buf_multiplier : ℕ
conn_buf_multiplier = 2

unfoldable pub circbuf_init : Memory → CircularBuffer
circbuf_init fresh = record {
  write_cursor = 0;
  read_cursor = 0;
  buf_size = init_conn_buf_size;
  buffer = fresh;
}

unfoldable pub circbuf_clear : CircularBuffer → CircularBuffer
circbuf_clear buf = record buf { write_cursor = 0; read_cursor = 0 }

unfoldable pub circbuf_avail_buf : CircularBuffer → ℕ
circbuf_avail_buf buf =
    if ltb buf.write_cursor buf.read_cursor
    then buf.read_cursor - buf.write_cursor - 1
    else sub32 (add32 (sub32 buf.buf_size buf.write_cursor) buf.read_cursor) 1

unfoldable pub circbuf_used_buf : CircularBuffer → ℕ
circbuf_used_buf buf =
    if ltb buf.write_cursor buf.read_cursor
    then add32 (sub32 buf.buf_size buf.read_cursor) buf.write_cursor
    else buf.write_cursor - buf.read_cursor

-- The unread bytes, in the order in which `memcpy` collects them into `new_buf`.
unfoldable pub grown_bytes : CircularBuffer → List ℕ
grown_bytes buf =
    if ltb buf.write_cursor buf.read_cursor
    then load buf.buffer buf.read_cursor (sub32 buf.buf_size buf.read_cursor)
      ++ load buf.buffer 0 buf.write_cursor
    else load buf.buffer buf.read_cursor (buf.write_cursor - buf.read_cursor)

unfoldable pub circbuf_grow_buf : Memory → CircularBuffer → CircularBuffer
circbuf_grow_buf fresh buf = record {
  write_cursor = length (grown_bytes buf);
  read_cursor = 0;
  buf_size = u32 (buf.buf_size * conn_buf_multiplier);
  buffer = store fresh 0 (grown_bytes buf);
}

-- An `iovec`: where it starts in the buffer, and its length.
pub record Iovec : Type 0 where
  pub iov_base : ℕ
  pub iov_len : ℕ

abbrev pub iovec : ℕ → ℕ → Iovec
iovec base len = record { iov_base = base; iov_len = len }

unfoldable pub circbuf_setup_readv_iovec : CircularBuffer → List Iovec
circbuf_setup_readv_iovec buf =
    if ltb buf.write_cursor buf.read_cursor
    then iovec buf.write_cursor (buf.read_cursor - buf.write_cursor - 1) ∷ []
    else (if ltb 0 buf.read_cursor
        then iovec buf.write_cursor (add32 (sub32 (sub32 buf.buf_size buf.write_cursor) 1) 1)
          ∷ iovec 0 (buf.read_cursor - 1)
          ∷ []
        else iovec buf.write_cursor (sub32 (sub32 buf.buf_size buf.write_cursor) 1) ∷ [])

unfoldable pub circbuf_advance_write : CircularBuffer → ℕ → CircularBuffer
circbuf_advance_write buf bytes = record buf {
  write_cursor = u64 (buf.write_cursor + bytes) % buf.buf_size;
}

-- The cursors go back to the start of the buffer once they meet.
unfoldable pub reset_if_empty : CircularBuffer → CircularBuffer
reset_if_empty buf =
    if buf.read_cursor == buf.write_cursor
    then record buf { write_cursor = 0; read_cursor = 0 }
    else buf

unfoldable pub circbuf_advance_read : CircularBuffer → ℕ → CircularBuffer
circbuf_advance_read buf bytes =
    reset_if_empty (record buf { read_cursor = u64 (buf.read_cursor + bytes) % buf.buf_size })

-- `while (avail < bytes)` of `circbuf_write`. `none`: the fuel ran out.
unfoldable pub grow_until : (fuel : ℕ) → Memory → CircularBuffer → ℕ → Option CircularBuffer
grow_until zero fresh buf bytes = none
grow_until (suc fuel) fresh buf bytes =
    let more = grow_until fuel fresh (circbuf_grow_buf fresh buf) bytes in
    if ltb (circbuf_avail_buf buf) bytes then more else some buf

-- The copy that follows the loop.
unfoldable pub copy_in : CircularBuffer → List ℕ → CircularBuffer
copy_in buf bytes =
    let n = length bytes in
    let end_size = sub32 buf.buf_size buf.write_cursor in
    let whole = record buf {
      buffer = store buf.buffer buf.write_cursor bytes;
      write_cursor = buf.write_cursor + n;
    } in
    let split = record buf {
      buffer =
          store (store buf.buffer buf.write_cursor (take end_size bytes)) 0 (drop end_size bytes);
      write_cursor = n - end_size;
    } in
    if ltb buf.write_cursor buf.read_cursor
    then whole
    else (if leb n end_size then whole else split)

unfoldable pub circbuf_write : (fuel : ℕ) → Memory → CircularBuffer → List ℕ → Option CircularBuffer
circbuf_write fuel fresh buf bytes = elim (grow_until fuel fresh buf (length bytes)) [
  | none ↦ none
  | some grown ↦ some (copy_in grown bytes)
]

-- A buffer handed to the caller, and whether the caller frees it.
pub record Slab : Type 0 where
  pub bytes : List ℕ
  pub should_free : Bool

abbrev pub slab : List ℕ → Bool → Slab
slab bytes should_free = record { bytes = bytes; should_free = should_free }

-- `*buf` and `*should_free` of `peek_client_bytes` and `read_client_bytes`.
unfoldable pub client_slab : CircularBuffer → ℕ → Slab
client_slab buf bytes =
    let end_size = sub32 buf.buf_size buf.read_cursor in
    let copied =
      slab (load buf.buffer buf.read_cursor end_size ++ load buf.buffer 0 (bytes - end_size))
        true in
    let in_place = slab (load buf.buffer buf.read_cursor bytes) false in
    if ltb buf.write_cursor buf.read_cursor
    then (if leb bytes end_size then in_place else copied)
    else in_place

unfoldable pub available_bytes : CircularBuffer → ℕ
available_bytes buf = circbuf_used_buf buf

unfoldable pub peek_client_byte : CircularBuffer → Option ℕ
peek_client_byte buf = if circbuf_used_buf buf == 0 then none else some (buf.buffer buf.read_cursor)

unfoldable pub peek_client_bytes : CircularBuffer → ℕ → Option Slab
peek_client_bytes buf bytes =
    if ltb (circbuf_used_buf buf) bytes then none else some (client_slab buf bytes)

unfoldable pub seek_client_bytes : CircularBuffer → ℕ → Option CircularBuffer
seek_client_bytes buf bytes =
    if ltb (circbuf_used_buf buf) bytes then none else some (circbuf_advance_read buf bytes)

unfoldable pub read_client_bytes : CircularBuffer → ℕ → Option (Slab × CircularBuffer)
read_client_bytes buf bytes =
    if ltb (circbuf_used_buf buf) bytes
    then none
    else some (client_slab buf bytes, circbuf_advance_read buf bytes)

-- A terminator `k` bytes past the read cursor, before the end of the buffer: the command stays in
-- place, and its terminator becomes a null byte.
unfoldable pub cut_in_place : CircularBuffer → ℕ → Slab × Memory
cut_in_place buf k =
    let mem = store buf.buffer (buf.read_cursor + k) (0 ∷ []) in
    (slab (load mem buf.read_cursor (k + 1)) false, mem)

-- A terminator at index `k`, behind the end of the buffer: the command is copied together.
unfoldable pub cut_wrapped : CircularBuffer → ℕ → Slab × Memory
cut_wrapped buf k =
    let mem = store buf.buffer k (0 ∷ []) in
    (
      slab
          (load buf.buffer buf.read_cursor (sub32 buf.buf_size buf.read_cursor)
            ++ load mem 0 (k + 1))
          true,
      mem,
    )

-- The part of `extract_to_terminator` after the failed scan up to the end of the buffer.
unfoldable pub extract_wrapped : CircularBuffer → ℕ → Option Slab × CircularBuffer
extract_wrapped buf terminator = elim (memchr buf.buffer 0 terminator buf.write_cursor) [
  | none ↦ (none, reset_if_empty buf)
  | some k ↦
      let (out, mem) = cut_wrapped buf k in
      (some out, reset_if_empty (record buf { buffer = mem; read_cursor = k + 1 }))
]

-- The part for cursors that are in order.
unfoldable pub extract_straight : CircularBuffer → ℕ → Option Slab × CircularBuffer
extract_straight buf terminator =
    elim (memchr buf.buffer buf.read_cursor terminator (buf.write_cursor - buf.read_cursor)) [
      | none ↦ (none, reset_if_empty buf)
      | some k ↦
          let (out, mem) = cut_in_place buf k in
          (
            some out,
            reset_if_empty (record buf { buffer = mem; read_cursor = buf.read_cursor + k + 1 }),
          )
    ]

-- `none` is -1. The first return skips the reset of the cursors.
unfoldable pub extract_to_terminator : CircularBuffer → ℕ → Option Slab × CircularBuffer
extract_to_terminator buf terminator =
    if ltb buf.write_cursor buf.read_cursor
    then (elim (memchr buf.buffer buf.read_cursor terminator (sub32 buf.buf_size buf.read_cursor)) [
      | none ↦ extract_wrapped buf terminator
      | some k ↦
          let (out, mem) = cut_in_place buf k in
          (
            some out,
            record buf { buffer = mem; read_cursor = (buf.read_cursor + k + 1) % buf.buf_size },
          )
    ])
    else extract_straight buf terminator
