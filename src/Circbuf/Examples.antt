-- ===== src/Circbuf/Examples.antt =====
-- Buffers of eight bytes for src/networking.c, wrapped and not.
use statsite.Base.{
  ℕ, ◌*◌, ◌-◌, ◌≡◌, ◌≢◌, ◌⊎◌, refl, List, [], ◌∷◌, ◌++◌, none, some, ltb, if◌then◌else◌, get_or,
  length, take, drop, arith, true,
}
use statsite.Memory.{load, memchr, store}
use statsite.Circbuf.{
  CircularBuffer, slab, extract_to_terminator, extract_wrapped, cut_wrapped, read_client_bytes,
  circbuf_grow_buf, circbuf_write, copy_in, circbuf_used_buf, circbuf_advance_read,
}
use statsite.Circbuf.Valid.{IsValid}
use statsite.Circbuf.Queue.{contents, extract}
use statsite.Circbuf.Extract.{seen, extract_to_terminator_refines}
use statsite.Circbuf.Read.{read_seen, LeavesValid, read_client_bytes_refines}
use statsite.Circbuf.Write.{circbuf_grow_buf_keeps, circbuf_write_appends}
use statsite.Circbuf.EndOfBuffer.{copy_in_stale}

abbrev bytes : List ℕ
bytes = b'1' ∷ b'|' ∷ b'c' ∷ b'\n' ∷ b'b' ∷ b'x' ∷ b'a' ∷ b':' ∷ []

-- It holds "a:1|c" and a newline, wrapped round the end.
abbrev pub wrapped : CircularBuffer
wrapped = record { write_cursor = 4; read_cursor = 6; buf_size = 8; buffer = λ i. get_or bytes i 0 }

abbrev straight : CircularBuffer
straight = record {
  write_cursor = 8 - 2;
  read_cursor = 1;
  buf_size = 8;
  buffer = λ i. get_or bytes i 0;
}

pub wrapped-IsValid : IsValid wrapped
wrapped-IsValid = omega arith

straight-IsValid : IsValid straight
straight-IsValid = omega arith

wrapped_line :
    (extract_to_terminator wrapped b'\n').0
    ≡ some (slab (b'a' ∷ b':' ∷ b'1' ∷ b'|' ∷ b'c' ∷ 0 ∷ []) true)
unfolding extract_to_terminator extract_wrapped cut_wrapped memchr load store
wrapped_line = refl

extract_to_terminator_refines_example :
    (seen (extract_to_terminator wrapped b'\n') ≡ extract b'\n' (contents wrapped))
    × IsValid (extract_to_terminator wrapped b'\n').1
extract_to_terminator_refines_example = extract_to_terminator_refines wrapped b'\n' wrapped-IsValid

read_client_bytes_refines_example :
    (read_seen (read_client_bytes wrapped 3) ≡ (
      if ltb (length (contents wrapped)) 3
      then none
      else some (take 3 (contents wrapped), drop 3 (contents wrapped))))
    × LeavesValid (read_client_bytes wrapped 3)
read_client_bytes_refines_example = read_client_bytes_refines wrapped 3 wrapped-IsValid

circbuf_grow_buf_keeps_example :
    (contents (circbuf_grow_buf (λ _. 0) wrapped) ≡ contents wrapped)
    × ((circbuf_grow_buf (λ _. 0) wrapped).buf_size ≡ 2 * 8)
    × IsValid (circbuf_grow_buf (λ _. 0) wrapped)
circbuf_grow_buf_keeps_example =
    circbuf_grow_buf_keeps (λ _. 0) wrapped wrapped-IsValid (omega arith)

circbuf_write_appends_example :
    (after : CircularBuffer) × (circbuf_write 2 (λ _. 0) wrapped (1 ∷ 2 ∷ 3 ∷ []) ≡ some after)
    × (contents after ≡ contents wrapped ++ 1 ∷ 2 ∷ 3 ∷ [])
    × ((wrapped.read_cursor ≢ 0) ⊎ IsValid after)
unfolding contents load
circbuf_write_appends_example =
    circbuf_write_appends 1 (λ _. 0) wrapped (1 ∷ 2 ∷ 3 ∷ []) wrapped-IsValid (omega arith)
      (omega arith)

copy_in_stale_example :
    let after = copy_in straight (7 ∷ 7 ∷ []) in
    (after.write_cursor ≡ 8)
    × (circbuf_used_buf after ≡ 8 - 1)
    × (circbuf_used_buf (circbuf_advance_read after (8 - 1)) ≡ 8)
copy_in_stale_example =
    copy_in_stale straight (7 ∷ 7 ∷ []) straight-IsValid (omega arith) (omega arith) refl
