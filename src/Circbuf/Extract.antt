-- ===== src/Circbuf/Extract.antt =====
-- `extract_to_terminator` against the queue: it answers with the first line, and keeps the rest.
use statsite.Base.{
  ℕ, ◌+◌, ◌-◌, ◌%◌, ◌≤◌, ◌<◌, ◌≡◌, sym, ap, ap₂, ◌∙◌, subst, List, [], ◌∷◌, ◌++◌, Option, some,
  none, ltb, ltb→lt, lt→ltb, le→ltb_false, false, arith, Bool-cases, Option-cases, inl, inr,
}
use statsite.Base.Words.{sub32}
use statsite.Memory.{
  Memory, load, store, memchr, load-add, load-empty, load-store_apart, load-store_self,
}
use statsite.Circbuf.{
  CircularBuffer, Slab, slab, cut_in_place, cut_wrapped, extract_wrapped, extract_straight,
  extract_to_terminator,
}
use statsite.Circbuf.Queue.{
  contents, split_line, behind, extract, extract-none, extract-some, memchr-none, memchr-some,
  memchr-none_last, memchr-some_last,
}
use statsite.Circbuf.Valid.{
  IsValid, contents-reset, contents_straight, contents_wrapped, reset-IsValid,
}
use mathlib.Core.Option
use native.Mathlib.Decide.{dec_lt}
use native.Mathlib.Nat.{mod-eq_of_lt, mod-lt, mod_self}

-- What a caller sees of a call: the line, and what the buffer holds afterwards.
abbrev pub seen : Option Slab × CircularBuffer → Option (List ℕ) × List ℕ
seen (out, buf) = (Option.map (λ (s : Slab). s.bytes) out, contents buf)

-- The bytes of a command cut out in place.
load-cut : (m : Memory) (a k : ℕ) → load (store m (a + k) (0 ∷ [])) a (k + 1) ≡ load m a k ++ 0 ∷ []
load-cut m a k =
    load-add (store m (a + k) (0 ∷ [])) a k 1
    ∙ ap₂ ◌++◌ (load-store_apart m a k (a + k) (0 ∷ []) (omega arith))
        (load-store_self m (a + k) (0 ∷ []))

module _ (buf : CircularBuffer) (c : ℕ) (v : IsValid buf) where
  open buf use {buffer, read_cursor, write_cursor, buf_size}

  -- Cursors in order.
  module _ (le : read_cursor ≤ write_cursor) where
    kept : (k : ℕ) → k < write_cursor - read_cursor → CircularBuffer
    kept k _ = record buf {
      buffer = store buffer (read_cursor + k) (0 ∷ []);
      read_cursor = read_cursor + k + 1;
    }

    contents-kept :
        (k : ℕ) (h : k < write_cursor - read_cursor)
        → contents (kept k h)
          ≡ load buffer (read_cursor + k + 1) (write_cursor - read_cursor - k - 1)
    unfolding kept
    contents-kept k h =
        let n : write_cursor - (read_cursor + k + 1) ≡ write_cursor - read_cursor - k - 1 =
          omega arith in
        contents_straight (kept k h) (omega arith)
        ∙ load-store_apart buffer (read_cursor + k + 1) _ (read_cursor + k) (0 ∷ []) (omega arith)
        ∙ ap (load buffer (read_cursor + k + 1)) n

    straight_refines :
        (seen (extract_straight buf c) ≡ extract c (contents buf))
        × IsValid (extract_straight buf c).1
    unfolding extract_straight cut_in_place kept
    straight_refines =
        elim (Option-cases (memchr buffer read_cursor c (write_cursor - read_cursor))) [
          | inl e ↦
              rw (e, extract_straight, contents-reset, contents_straight buf le)
                (
                  sym (extract-none c _ (memchr-none_last buffer read_cursor c _ e)),
                  reset-IsValid v,
                )
          | inr (k, e) ↦
              let (h, cut) = memchr-some_last buffer read_cursor c _ k e in
              rw (e, extract_straight, contents-reset, contents_straight buf le)
                (
                  ap₂ (λ l r. (some l, r)) (load-cut buffer read_cursor k) (contents-kept k h)
                      ∙ sym (extract-some c _ _ _ cut),
                  reset-IsValid {buf = kept k h} (omega arith),
                )
        ]

  -- Cursors that have wrapped round.
  module _ (lt : write_cursor < read_cursor) where
    tail_size : sub32 buf_size read_cursor ≡ buf_size - read_cursor
    tail_size = omega arith

    front : List ℕ
    front = load buffer read_cursor (buf_size - read_cursor)

    -- The first scan fails: the line is whatever precedes the wrap, and the start of the rest.
    cut_behind :
        memchr buffer read_cursor c (buf_size - read_cursor) ≡ none
        → split_line c (front ++ load buffer 0 write_cursor)
          ≡ behind front (split_line c (load buffer 0 write_cursor))
    unfolding front
    cut_behind e = memchr-none buffer read_cursor c _ (load buffer 0 write_cursor) e

    joined : ℕ → CircularBuffer
    joined k = record buf { buffer = store buffer k (0 ∷ []); read_cursor = k + 1 }

    contents-joined :
        (k : ℕ)
        → k < write_cursor
        → contents (joined k) ≡ load buffer (0 + k + 1) (write_cursor - k - 1)
    unfolding joined
    contents-joined k h =
        let a : k + 1 ≡ 0 + k + 1 = omega arith in
        let n : write_cursor - (k + 1) ≡ write_cursor - k - 1 = omega arith in
        contents_straight (joined k) (omega arith)
        ∙ load-store_apart buffer (k + 1) _ k (0 ∷ []) (omega arith)
        ∙ ap₂ (load buffer) a n

    wrapped_refines :
        memchr buffer read_cursor c (buf_size - read_cursor) ≡ none
        → (seen (extract_wrapped buf c) ≡ extract c (contents buf))
          × IsValid (extract_wrapped buf c).1
    unfolding extract_wrapped cut_wrapped front joined
    wrapped_refines e = elim (Option-cases (memchr buffer 0 c write_cursor)) [
      | inl e' ↦
          rw (e', extract_wrapped, contents-reset, contents_wrapped buf lt)
            (
              sym (
                  extract-none c _ (
                    cut_behind e
                    ∙ ap (behind front) (memchr-none_last buffer 0 c write_cursor e'))),
              reset-IsValid v,
            )
      | inr (k, e') ↦
          let (h, cut) = memchr-some_last buffer 0 c write_cursor k e' in
          let z : k ≡ 0 + k = omega arith in
          rw (e', extract_wrapped, contents-reset, contents_wrapped buf lt, tail_size)
            (
              ap₂ (λ l r. (some l, r))
                    (ap (λ l. front ++ l)
                      (ap (λ j. load (store buffer j (0 ∷ [])) 0 (k + 1)) z ∙ load-cut buffer 0 k))
                    (contents-joined k h)
                  ∙ sym (extract-some c _ _ _ (cut_behind e ∙ ap (behind front) cut)),
              reset-IsValid {buf = joined k} (omega arith),
            )
    ]

    -- The first scan succeeds. Its read cursor may come to stand at the end, which is index 0.
    turned : (k next : ℕ) → CircularBuffer
    turned k next = record buf {
      buffer = store buffer (read_cursor + k) (0 ∷ []);
      read_cursor = next;
    }

    left_over : ℕ → List ℕ
    left_over k =
        load buffer (read_cursor + k + 1) (buf_size - read_cursor - k - 1)
        ++ load buffer 0 write_cursor

    contents-turned_inside :
        (k : ℕ)
        → read_cursor + k + 1 < buf_size
        → contents (turned k (read_cursor + k + 1)) ≡ left_over k
    unfolding turned left_over
    contents-turned_inside k h =
        let next = read_cursor + k + 1 in
        let n : buf_size - next ≡ buf_size - read_cursor - k - 1 = omega arith in
        contents_wrapped (turned k next) (omega arith)
        ∙ ap₂ ◌++◌
            (load-store_apart buffer next _ (read_cursor + k) (0 ∷ []) (omega arith)
              ∙ ap (load buffer next) n)
            (load-store_apart buffer 0 write_cursor (read_cursor + k) (0 ∷ []) (omega arith))

    contents-turned_end :
        (k : ℕ) → read_cursor + k + 1 ≡ buf_size → contents (turned k 0) ≡ left_over k
    unfolding turned left_over
    contents-turned_end k h =
        let n : write_cursor - 0 ≡ write_cursor = omega arith in
        contents_straight (turned k 0) (omega arith)
        ∙ load-store_apart buffer 0 _ (read_cursor + k) (0 ∷ []) (omega arith)
        ∙ ap (load buffer 0) n
        ∙ ap (λ l. l ++ load buffer 0 write_cursor) (sym (load-empty buffer _ _ (omega arith)))

    contents-turned :
        (k : ℕ)
        → k < buf_size - read_cursor
        → contents (turned k ((read_cursor + k + 1) % buf_size)) ≡ left_over k
    contents-turned k h = elim (Bool-cases (ltb (read_cursor + k + 1) buf_size)) [
      | inl inside ↦
          let p = ltb→lt _ _ inside in
          let r : (read_cursor + k + 1) % buf_size ≡ read_cursor + k + 1 = mod-eq_of_lt p in
          rw r (contents-turned_inside k p)
      | inr ends ↦
          let p : read_cursor + k + 1 ≡ buf_size = ground arith in
          let r : (read_cursor + k + 1) % buf_size ≡ 0 = rw p (mod_self buf_size) in
          rw r (contents-turned_end k p)
    ]

    turned-IsValid : (k : ℕ) → IsValid (turned k ((read_cursor + k + 1) % buf_size))
    unfolding turned
    turned-IsValid k = record {
      write_in = v.write_in;
      read_in = mod-lt _ (omega arith);
      small = v.small;
    }

    turned_refines :
        (k : ℕ)
        → memchr buffer read_cursor c (buf_size - read_cursor) ≡ some k
        → extract c (contents buf) ≡ (some (load buffer read_cursor k ++ 0 ∷ []), left_over k)
    unfolding left_over
    turned_refines k e =
        let (h, cut) = memchr-some buffer read_cursor c _ k (load buffer 0 write_cursor) e in
        rw (contents_wrapped buf lt) (extract-some c _ _ _ cut)

  -- How the whole function splits.
  takes_straight : read_cursor ≤ write_cursor → extract_to_terminator buf c ≡ extract_straight buf c
  unfolding extract_to_terminator
  takes_straight le = rw (le→ltb_false _ _ le)

  module _ (lt : write_cursor < read_cursor) where
    takes_wrapped :
        memchr buffer read_cursor c (buf_size - read_cursor) ≡ none
        → extract_to_terminator buf c ≡ extract_wrapped buf c
    unfolding extract_to_terminator
    takes_wrapped e = rw (lt→ltb _ _ lt, tail_size lt, e)

    takes_in_place :
        (k : ℕ)
        → memchr buffer read_cursor c (buf_size - read_cursor) ≡ some k
        → extract_to_terminator buf c ≡ (
          some (slab (load (store buffer (read_cursor + k) (0 ∷ [])) read_cursor (k + 1)) false),
          turned lt k ((read_cursor + k + 1) % buf_size),
        )
    unfolding extract_to_terminator cut_in_place turned
    takes_in_place k e = rw (lt→ltb _ _ lt, tail_size lt, e)

  abbrev Refines : Option Slab × CircularBuffer → Type 0
  Refines r = (seen r ≡ extract c (contents buf)) × IsValid r.1

  -- On a valid buffer extract_to_terminator answers with the first line of what the buffer holds,
  -- its terminator replaced by a null byte, and keeps what follows the line; without a terminator
  -- it answers nothing and keeps all. It leaves a valid buffer.
  pub extract_to_terminator_refines :
      (seen (extract_to_terminator buf c) ≡ extract c (contents buf))
      × IsValid (extract_to_terminator buf c).1
  extract_to_terminator_refines = elim (dec_lt write_cursor read_cursor) [
    | no n ↦ subst Refines (sym (takes_straight (omega arith))) (straight_refines (omega arith))
    | yes lt ↦ elim (Option-cases (memchr buffer read_cursor c (buf_size - read_cursor))) [
      | inl e ↦ subst Refines (sym (takes_wrapped lt e)) (wrapped_refines lt e)
      | inr (k, e) ↦
          let (h, _) = memchr-some_last buffer read_cursor c _ k e in
          subst Refines (sym (takes_in_place lt k e)) (
            ap₂ (λ l r. (some l, r)) (load-cut buffer read_cursor k) (contents-turned lt k h)
                ∙ sym (turned_refines lt k e),
            turned-IsValid lt k,
          )
    ]
  ]
