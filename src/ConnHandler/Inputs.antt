-- ===== src/ConnHandler/Inputs.antt =====
-- The two implementations of what a handler reads from: a queue of bytes, and the circular buffer
-- of src/networking.c, which refines it.
use statsite.Base.{
  zero, suc, ◌-◌, ◌<◌, ◌++◌, Bool, true, false, append-nil, ℕ, ◌≡◌, refl, ap, ◌∙◌, sym, List, [],
  ◌∷◌, Option, none, some, ltb, ==→eq, ==_false→ne, ◌==◌, if◌then◌else◌, length, take, drop,
  Bool-cases, inl, inr, arith,
}
use statsite.Memory.{Memory, load, length-load}
use statsite.Circbuf.{
  CircularBuffer, Slab, extract_to_terminator, peek_client_byte, peek_client_bytes,
  read_client_bytes,
}
use statsite.Circbuf.Queue.{contents, extract}
use statsite.Circbuf.Valid.{IsValid, used-contents, contents_wrapped, contents_straight}
use statsite.Circbuf.Extract.{extract_to_terminator_refines}
use statsite.Circbuf.Read.{read_seen, LeavesValid, read_client_bytes_refines, read-eq-peek_seek}
use statsite.ConnHandler.{Input}
use mathlib.Core.Option
use native.Mathlib.Decide.{dec_lt}

abbrev pub first : List ℕ → Option ℕ
first [] = none
first (c ∷ q) = some c

abbrev pub queue_input : Input (List ℕ)
queue_input = record {
  extract_to_terminator = λ q c. extract c q;
  peek_client_byte = first;
  peek_client_bytes = λ q n. if ltb (length q) n then none else some (take n q);
  read_client_bytes = λ q n. if ltb (length q) n then none else some (take n q, drop n q);
}

abbrev bytes_of : Option Slab → Option (List ℕ)
bytes_of out = Option.map (λ (s : Slab). s.bytes) out

abbrev read_of : Option (Slab × CircularBuffer) → Option (List ℕ × CircularBuffer)
read_of none = none
read_of (some (s, buf)) = some (s.bytes, buf)

abbrev pub circbuf_input : Input CircularBuffer
circbuf_input = record {
  extract_to_terminator =
      λ buf c. let (out, buf') = extract_to_terminator buf c in (bytes_of out, buf');
  peek_client_byte = peek_client_byte;
  peek_client_bytes = λ buf n. bytes_of (peek_client_bytes buf n);
  read_client_bytes = λ buf n. read_of (read_client_bytes buf n);
}

module _ {B : Type 0} (IsOk : B → Type 0) (view : B → List ℕ) where
  abbrev pub seen_line : Option (List ℕ) × B → Option (List ℕ) × List ℕ
  seen_line (out, b) = (out, view b)

  abbrev pub seen_read : Option (List ℕ × B) → Option (List ℕ × List ℕ)
  seen_read none = none
  seen_read (some (s, b)) = some (s, view b)

  abbrev pub LeavesOk : Option (List ℕ × B) → Type 0
  LeavesOk none = Unit
  LeavesOk (some (s, b)) = IsOk b

  -- The calls on a connection answer as those on the queue of its bytes, and keep it in order.
  pub record Refines (input : Input B) : Type 0 where
    pub extracts :
        (b : B) (c : ℕ)
        → IsOk b
        → (seen_line (input.extract_to_terminator b c) ≡ extract c (view b))
          × IsOk (input.extract_to_terminator b c).1
    pub peeks_byte : (b : B) → IsOk b → input.peek_client_byte b ≡ first (view b)
    pub peeks :
        (b : B) (n : ℕ)
        → IsOk b
        → input.peek_client_bytes b n ≡ queue_input.peek_client_bytes (view b) n
    pub reads :
        (b : B) (n : ℕ)
        → IsOk b
        → (seen_read (input.read_client_bytes b n) ≡ queue_input.read_client_bytes (view b) n)
          × LeavesOk (input.read_client_bytes b n)

first-load : (m : Memory) (a n : ℕ) (ys : List ℕ) → 0 < n → first (load m a n ++ ys) ≡ some (m a)
unfolding load
first-load m a zero ys h = absurd (omega arith)
first-load m a (suc n) ys h = refl

first-contents :
    (buf : CircularBuffer)
    → IsValid buf
    → 0 < length (contents buf)
    → first (contents buf) ≡ some (buf.buffer buf.read_cursor)
first-contents buf v h = elim (dec_lt buf.write_cursor buf.read_cursor) [
  | yes lt ↦
      rw (contents_wrapped buf lt) (first-load buf.buffer buf.read_cursor _ _ (omega (arith, v)))
  | no ge ↦
      let straight = contents_straight buf (omega arith) in
      let size : 0 < buf.write_cursor - buf.read_cursor = omega (
        arith,
        h,
        ap length straight,
        length-load buf.buffer buf.read_cursor (buf.write_cursor - buf.read_cursor),
      ) in
      ap first (straight ∙ sym (append-nil _)) ∙ first-load buf.buffer buf.read_cursor _ [] size
]

first_nil : (q : List ℕ) → length q ≡ 0 → first q ≡ none
first_nil [] h = refl
first_nil (c ∷ q) h = absurd (omega arith)

peek_byte : (buf : CircularBuffer) → IsValid buf → peek_client_byte buf ≡ first (contents buf)
unfolding peek_client_byte
peek_byte buf v = rw (used-contents buf v) (elim (Bool-cases (length (contents buf) == 0)) [
  | inl e ↦ rw e (sym (first_nil (contents buf) (==→eq _ _ e)))
  | inr ne ↦ rw ne (sym (first-contents buf v (ground (arith, ==_false→ne _ _ ne))))
])

read_view :
    (r : Option (Slab × CircularBuffer)) → seen_read IsValid contents (read_of r) ≡ read_seen r
read_view none = refl
read_view (some r) = refl

read_leaves :
    (r : Option (Slab × CircularBuffer)) → LeavesValid r → LeavesOk IsValid contents (read_of r)
read_leaves none h = tt
read_leaves (some r) h = h

peek_view :
    (r : Option (Slab × CircularBuffer))
    → bytes_of (Option.map (λ s. s.0) r) ≡ Option.map (λ s. s.0) (read_seen r)
peek_view none = refl
peek_view (some r) = refl

map-if :
    {A B : Type 0} (f : A → B) (b : Bool) (a : A)
    → Option.map f (if b then none else some a) ≡ (if b then none else some (f a))
map-if f true a = refl
map-if f false a = refl

peek_bytes :
    (buf : CircularBuffer) (n : ℕ)
    → IsValid buf
    → bytes_of (peek_client_bytes buf n) ≡ queue_input.peek_client_bytes (contents buf) n
peek_bytes buf n v =
    ap bytes_of (sym (read-eq-peek_seek buf n v).0)
    ∙ peek_view (read_client_bytes buf n)
    ∙ ap (Option.map (λ s. s.0)) (read_client_bytes_refines buf n v).0
    ∙ map-if (λ s. s.0) (ltb (length (contents buf)) n)
        (take n (contents buf), drop n (contents buf))

read_bytes :
    (buf : CircularBuffer) (n : ℕ)
    → IsValid buf
    → (seen_read IsValid contents (read_of (read_client_bytes buf n))
        ≡ queue_input.read_client_bytes (contents buf) n)
      × LeavesOk IsValid contents (read_of (read_client_bytes buf n))
read_bytes buf n v =
    let (same, valid) = read_client_bytes_refines buf n v in
    (read_view (read_client_bytes buf n) ∙ same, read_leaves (read_client_bytes buf n) valid)

pub circbuf_input-Refines : Refines IsValid contents circbuf_input
circbuf_input-Refines = record {
  extracts = λ buf c v. extract_to_terminator_refines buf c v;
  peeks_byte = peek_byte;
  peeks = peek_bytes;
  reads = read_bytes;
}
