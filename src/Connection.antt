-- ===== src/Connection.antt =====
-- The reads of src/networking.c that fill a connection's buffer: `read_client_data` for TCP and
-- standard input, and the receiving part of a round of `handle_udp_message`. What `readv` and
-- `recv` return is an argument: the bytes, in the order in which the vectors take them.
pub mod Receive
pub mod Examples
use statsite.Base.{
  ℕ, zero, suc, ◌+◌, ◌-◌, ◌/◌, ◌≤◌, List, [], ◌∷◌, Bool, true, false, Option, none, some, ltb, ◌==◌,
  not, if◌then◌else◌, length, take, drop,
}
use statsite.Memory.{Memory, store}
use statsite.Circbuf.{
  CircularBuffer, Iovec, circbuf_avail_buf, circbuf_grow_buf, circbuf_setup_readv_iovec,
  circbuf_advance_write, circbuf_clear, circbuf_write,
}

-- What a read returns: some bytes, zero, -1 with EAGAIN or EINTR, or -1 with another error.
pub data ReadResult : Type 0 where
  read_bytes : List ℕ → ReadResult
  read_zero : ReadResult
  read_again : ReadResult
  read_failed : ReadResult

-- `readv`: each vector is filled before the next one.
unfoldable pub scatter : Memory → List Iovec → List ℕ → Memory
scatter m [] xs = m
scatter m (v ∷ vs) xs = scatter (store m v.iov_base (take v.iov_len xs)) vs (drop v.iov_len xs)

abbrev pub iov_total : List Iovec → ℕ
iov_total [] = 0
iov_total (v ∷ vs) = v.iov_len + iov_total vs

-- The buffer after a read of `xs` into the vectors that were set up for it.
unfoldable pub fill : CircularBuffer → List ℕ → CircularBuffer
fill buf xs =
    circbuf_advance_write
      (record buf { buffer = scatter buf.buffer (circbuf_setup_readv_iovec buf) xs }) (length xs)

-- The buffer that `read_client_data` reads into: grown if less than half of it is free.
unfoldable pub make_room : Memory → CircularBuffer → CircularBuffer
make_room fresh buf =
    if ltb (circbuf_avail_buf buf) (buf.buf_size / 2) then circbuf_grow_buf fresh buf else buf

-- The status, 1 to close the connection, and the buffer. `readv` is called after `make_room`.
unfoldable pub read_client_data : Memory → CircularBuffer → ReadResult → ℕ × CircularBuffer
read_client_data fresh buf (read_bytes xs) = (0, fill (make_room fresh buf) xs)
read_client_data fresh buf read_zero = (1, make_room fresh buf)
read_client_data fresh buf read_again = (0, make_room fresh buf)
read_client_data fresh buf read_failed = (1, make_room fresh buf)

abbrev pub newline : ℕ
newline = b'\n'

-- A datagram without a newline at its end gets one.
unfoldable pub end_line : (fuel : ℕ) → Memory → CircularBuffer → Option CircularBuffer
end_line fuel fresh buf =
    if not (buf.buffer (buf.write_cursor - 1) == newline)
    then circbuf_write fuel fresh buf (newline ∷ [])
    else some buf

-- One round of `handle_udp_message`, up to the call of the handler: the buffer that it is given.
-- `none` for a round that returns. The buffer is cleared first, so one vector takes the datagram.
unfoldable pub handle_udp_message :
    (fuel : ℕ) → Memory → CircularBuffer → ReadResult → Option CircularBuffer
handle_udp_message fuel fresh buf (read_bytes xs) =
    end_line fuel fresh (fill (circbuf_clear buf) xs)
handle_udp_message fuel fresh buf read_zero = none
handle_udp_message fuel fresh buf read_again = none
handle_udp_message fuel fresh buf read_failed = none
