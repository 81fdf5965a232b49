-- ===== src/Connection/Examples.antt =====
-- A read into a wrapped buffer of src/networking.c, and a datagram.
use statsite.Base.{◌<◌, ◌≤◌, ◌≡◌, [], ◌∷◌, ◌++◌, some, arith}
use statsite.Circbuf.{
  CircularBuffer, circbuf_setup_readv_iovec, circbuf_avail_buf, circbuf_grow_buf, grown_bytes,
}
use statsite.Memory.{load}
use statsite.Circbuf.Valid.{IsValid}
use statsite.Circbuf.Queue.{contents}
use statsite.Connection.{iov_total, make_room, read_client_data, read_bytes, handle_udp_message}
use statsite.Connection.Receive.{read_client_data_appends, terminated, handle_udp_message_receives}

abbrev wrapped : CircularBuffer
wrapped = record { write_cursor = 1; read_cursor = 6; buf_size = 8; buffer = λ i. i }

wrapped-IsValid : IsValid wrapped
wrapped-IsValid = omega arith

room_for_three : 3 ≤ iov_total (circbuf_setup_readv_iovec (make_room (λ _. 0) wrapped))
unfolding make_room circbuf_setup_readv_iovec circbuf_avail_buf circbuf_grow_buf grown_bytes load
room_for_three = omega arith

read_client_data_appends_example :
    let (status, after) = read_client_data (λ _. 0) wrapped (read_bytes (9 ∷ 8 ∷ 7 ∷ [])) in
    (status ≡ 0)
    × (contents after ≡ contents wrapped ++ 9 ∷ 8 ∷ 7 ∷ [])
    × IsValid after
    × (0 < iov_total (circbuf_setup_readv_iovec (make_room (λ _. 0) wrapped)))
read_client_data_appends_example =
    read_client_data_appends (λ _. 0) wrapped (9 ∷ 8 ∷ 7 ∷ []) wrapped-IsValid (omega arith)
      (omega arith) room_for_three

handle_udp_message_receives_example :
    (after : CircularBuffer) × (handle_udp_message 2
        (λ _. 0)
        wrapped
        (read_bytes (b'a' ∷ b'b' ∷ []))
      ≡ some after)
    × (contents after ≡ terminated (b'a' ∷ b'b' ∷ []))
    × IsValid after
handle_udp_message_receives_example =
    handle_udp_message_receives wrapped (b'a' ∷ b'b' ∷ []) wrapped-IsValid (omega arith)
      (omega arith) (λ _. 0) (omega arith)
