-- ===== src/Circbuf/Read.antt =====
-- Peeking, seeking and reading a number of bytes, against the queue.
use statsite.Base.{
  ℕ, ◌+◌, ◌-◌, ◌%◌, ◌≤◌, ◌<◌, ◌≡◌, refl, sym, ap, ap₂, ◌∙◌, List, ◌++◌, Option, some, none, ltb,
  lt→ltb, le→ltb_false, ltb_false→le, le→leb, lt→leb_false, if◌then◌else◌, arith, length,
  length-append, take, drop, take-append, drop-append, take-append_past, drop-append_past,
  Bool-cases, inl, inr,
}
use statsite.Base.Words.{sub32, u64}
use statsite.Memory.{load, length-load, take-load, drop-load}
use statsite.Circbuf.{
  CircularBuffer, Slab, client_slab, circbuf_advance_read, peek_client_bytes, seek_client_bytes,
  read_client_bytes,
}
use statsite.Circbuf.Queue.{contents}
use statsite.Circbuf.Valid.{
  IsValid, used-contents, avail-add-used, contents-reset, contents_straight, contents_wrapped,
  reset-IsValid,
}
use mathlib.Core.Option
use native.Mathlib.Decide.{dec_lt, dec_le}
use native.Mathlib.Nat.{mod-eq_of_lt, mod-lt, mod-eq-sub-mod, zero-add}

-- The bytes handed out, by the two shapes of the buffer.
module _ (buf : CircularBuffer) (n : ℕ) (v : IsValid buf) where
  open buf use {buffer, read_cursor, write_cursor, buf_size}

  tail_size : sub32 buf_size read_cursor ≡ buf_size - read_cursor
  tail_size = omega arith

  slab_in_place :
      write_cursor < read_cursor
      → n ≤ buf_size - read_cursor
      → (client_slab buf n).bytes ≡ load buffer read_cursor n
  unfolding client_slab
  slab_in_place lt le = rw (client_slab, lt→ltb _ _ lt, tail_size, le→leb _ _ le)

  slab_copied :
      write_cursor < read_cursor
      → buf_size - read_cursor < n
      → (client_slab buf n).bytes
        ≡ load buffer read_cursor (buf_size - read_cursor)
          ++ load buffer 0 (n - (buf_size - read_cursor))
  unfolding client_slab
  slab_copied lt gt = rw (client_slab, lt→ltb _ _ lt, tail_size, lt→leb_false _ _ gt)

  slab_straight : read_cursor ≤ write_cursor → (client_slab buf n).bytes ≡ load buffer read_cursor n
  unfolding client_slab
  slab_straight le = rw (client_slab, le→ltb_false _ _ le)

moved : CircularBuffer → ℕ → CircularBuffer
moved buf next = record buf { read_cursor = next }

module _ (buf : CircularBuffer) (n : ℕ) (v : IsValid buf) (enough : n ≤ length (contents buf)) where
  open buf use {buffer, read_cursor, write_cursor, buf_size}

  module _ (le : read_cursor ≤ write_cursor) where
    straight_size : length (contents buf) ≡ write_cursor - read_cursor
    straight_size = ap length (contents_straight buf le) ∙ length-load buffer read_cursor _

    straight_slab : (client_slab buf n).bytes ≡ take n (contents buf)
    straight_slab =
        slab_straight buf n v le
        ∙ sym (
            ap (take n) (contents_straight buf le)
            ∙ take-load buffer read_cursor n _ (omega (arith, straight_size)))

    straight_drop : contents (moved buf ((read_cursor + n) % buf_size)) ≡ drop n (contents buf)
    unfolding moved
    straight_drop =
        let bound : n ≤ write_cursor - read_cursor = omega (arith, straight_size) in
        let e : (read_cursor + n) % buf_size ≡ read_cursor + n = mod-eq_of_lt (omega arith) in
        let k : write_cursor - (read_cursor + n) ≡ write_cursor - read_cursor - n = omega arith in
        rw e (
          contents_straight (moved buf (read_cursor + n)) (omega arith)
          ∙ ap (load buffer (read_cursor + n)) k
          ∙ sym (ap (drop n) (contents_straight buf le) ∙ drop-load buffer read_cursor n _ bound))

  module _ (lt : write_cursor < read_cursor) where
    front : List ℕ
    front = load buffer read_cursor (buf_size - read_cursor)

    back : List ℕ
    back = load buffer 0 write_cursor

    front_size : length front ≡ buf_size - read_cursor
    unfolding front
    front_size = length-load buffer read_cursor _

    back_size : length back ≡ write_cursor
    unfolding back
    back_size = length-load buffer 0 _

    whole : contents buf ≡ front ++ back
    unfolding front back
    whole = contents_wrapped buf lt

    wrapped_size : n ≤ buf_size - read_cursor + write_cursor
    wrapped_size = omega (arith, ap length whole, length-append front back, front_size, back_size)

    wrapped_slab : (client_slab buf n).bytes ≡ take n (contents buf)
    unfolding front back
    wrapped_slab = elim (dec_le n (buf_size - read_cursor)) [
      | yes le ↦
          slab_in_place buf n v lt le
          ∙ sym (
              ap (take n) whole
              ∙ take-append n front back (omega (arith, front_size))
              ∙ take-load buffer read_cursor n _ le)
      | no gt ↦
          let k : n - length front ≡ n - (buf_size - read_cursor) = omega (arith, front_size) in
          slab_copied buf n v lt (omega arith)
          ∙ sym (
              ap (take n) whole
              ∙ take-append_past n front back (omega (arith, front_size))
              ∙ ap (λ l. front ++ l)
                  (ap (λ j. take j back) k
                    ∙ take-load buffer 0 _ write_cursor (omega (arith, wrapped_size))))
    ]

    wrapped_drop : contents (moved buf ((read_cursor + n) % buf_size)) ≡ drop n (contents buf)
    unfolding moved front back
    wrapped_drop = elim (dec_lt (read_cursor + n) buf_size) [
      | yes inside ↦
          let e : (read_cursor + n) % buf_size ≡ read_cursor + n = mod-eq_of_lt inside in
          let k : buf_size - (read_cursor + n) ≡ buf_size - read_cursor - n = omega arith in
          rw e (
            contents_wrapped (moved buf (read_cursor + n)) (omega arith)
            ∙ ap (λ l. l ++ back)
                (ap (load buffer (read_cursor + n)) k
                  ∙ sym (drop-load buffer read_cursor n _ (omega arith)))
            ∙ sym (ap (drop n) whole ∙ drop-append n front back (omega (arith, front_size))))
      | no past ↦
          let k : n - length front ≡ n - (buf_size - read_cursor) = omega (arith, front_size) in
          let next = n - (buf_size - read_cursor) in
          let e : (read_cursor + n) % buf_size ≡ next =
            mod-eq-sub-mod {n = read_cursor + n} {m = buf_size} (omega arith)
            ∙ mod-eq_of_lt (omega (arith, wrapped_size))
            ∙ omega arith in
          rw e (
            contents_straight (moved buf next) (omega (arith, wrapped_size))
            ∙ ap (λ a. load buffer a (write_cursor - next)) (sym (zero-add next))
            ∙ sym (
                ap (drop n) whole
                ∙ drop-append_past n front back (omega (arith, front_size))
                ∙ ap (λ j. drop j back) k
                ∙ drop-load buffer 0 next write_cursor (omega (arith, wrapped_size))))
    ]

  client_slab-take : (client_slab buf n).bytes ≡ take n (contents buf)
  client_slab-take = elim (dec_lt write_cursor read_cursor) [
    | yes lt ↦ wrapped_slab lt
    | no ge ↦ straight_slab (omega arith)
  ]

  advance_read-drop :
      (contents (circbuf_advance_read buf n) ≡ drop n (contents buf))
      × IsValid (circbuf_advance_read buf n)
  unfolding circbuf_advance_read moved
  advance_read-drop =
      let wide : u64 (read_cursor + n) ≡ read_cursor + n =
        omega (arith, used-contents buf v, avail-add-used buf v) in
      rw wide (
        contents-reset (moved buf ((read_cursor + n) % buf_size)) ∙ drops,
        reset-IsValid {buf = moved buf ((read_cursor + n) % buf_size)}
            (record { write_in = v.write_in; read_in = mod-lt _ (omega arith); small = v.small }),
      )
    where
      drops : contents (moved buf ((read_cursor + n) % buf_size)) ≡ drop n (contents buf)
      drops = elim (dec_lt write_cursor read_cursor) [
        | yes lt ↦ wrapped_drop lt
        | no ge ↦ straight_drop (omega arith)
      ]

-- What a caller sees of a read: the bytes, and what the buffer holds afterwards.
abbrev pub read_seen : Option (Slab × CircularBuffer) → Option (List ℕ × List ℕ)
read_seen none = none
read_seen (some (s, buf)) = some (s.bytes, contents buf)

abbrev pub LeavesValid : Option (Slab × CircularBuffer) → Type 0
LeavesValid none = Unit
LeavesValid (some (s, buf)) = IsValid buf

module _ (buf : CircularBuffer) (n : ℕ) (v : IsValid buf) where
  -- On a valid buffer read_client_bytes hands out the first n bytes that the buffer holds, in their
  -- order whether or not they wrap round, and keeps the others; with fewer than n bytes it refuses.
  -- It leaves a valid buffer.
  pub read_client_bytes_refines :
      (read_seen (read_client_bytes buf n) ≡ (
        if ltb (length (contents buf)) n
        then none
        else some (take n (contents buf), drop n (contents buf))))
      × LeavesValid (read_client_bytes buf n)
  unfolding read_client_bytes
  read_client_bytes_refines =
      rw (used-contents buf v) (elim (Bool-cases (ltb (length (contents buf)) n)) [
        | inl few ↦ rw few (refl, tt)
        | inr enough ↦
            let le = ltb_false→le _ _ enough in
            let (drops, valid) = advance_read-drop buf n v le in
            rw enough (ap₂ (λ s r. some (s, r)) (client_slab-take buf n v le) drops, valid)
      ])

  -- `peek_client_bytes` hands out the bytes that `read_client_bytes` would, and
  -- `seek_client_bytes` skips them: a read is a peek and a seek.
  pub read-eq-peek_seek :
      (Option.map (λ r. r.0) (read_client_bytes buf n) ≡ peek_client_bytes buf n)
      × (Option.map (λ r. r.1) (read_client_bytes buf n) ≡ seek_client_bytes buf n)
  unfolding read_client_bytes peek_client_bytes seek_client_bytes
  read-eq-peek_seek = ground arith
