-- ===== src/Hll/Registers.antt =====
-- Reading a register after writing one.
use statsite.Base.{
  ℕ, zero, suc, ◌*◌, ◌/◌, ◌%◌, ◌<◌, ◌≡◌, inl, inr, refl, sym, ap, ◌∙◌, false, if◌then◌else◌, arith,
  ◌==◌, length, get_or, get_or-set_self, get_or-set_ne, Bool-cases, ==→eq, ==_false→ne, ==_self,
  ne→==_false,
}
use statsite.Hll.{Hll, field_of, with_field, get_register, set_register}
use native.Mathlib.Decide.{ℕ_discrete}

-- A number below five is one of five: shifts become numerals.
in_five : (P : ℕ → Type 0) → P 0 → P 1 → P 2 → P 3 → P 4 → (i : ℕ) → i < 5 → P i
in_five P a b c d e zero h = a
in_five P a b c d e (suc zero) h = b
in_five P a b c d e (suc (suc zero)) h = c
in_five P a b c d e (suc (suc (suc zero))) h = d
in_five P a b c d e (suc (suc (suc (suc zero)))) h = e
in_five P a b c d e (suc (suc (suc (suc (suc i))))) h = absurd (omega arith)

module _ (w v : ℕ) (small : v < 64) where
  abbrev At : ℕ → ℕ → Type 0
  At i j = field_of (with_field w (6 * i) v) (6 * j) ≡ (if i == j then v else field_of w (6 * j))

  abbrev Row : ℕ → Type 0
  Row i = (j : ℕ) → j < 5 → At i j

  field_0 : Row 0
  unfolding field_of with_field
  field_0 = in_five (At 0) (omega arith) (omega arith) (omega arith) (omega arith) (omega arith)

  field_1 : Row 1
  unfolding field_of with_field
  field_1 = in_five (At 1) (omega arith) (omega arith) (omega arith) (omega arith) (omega arith)

  field_2 : Row 2
  unfolding field_of with_field
  field_2 = in_five (At 2) (omega arith) (omega arith) (omega arith) (omega arith) (omega arith)

  field_3 : Row 3
  unfolding field_of with_field
  field_3 = in_five (At 3) (omega arith) (omega arith) (omega arith) (omega arith) (omega arith)

  field_4 : Row 4
  unfolding field_of with_field
  field_4 = in_five (At 4) (omega arith) (omega arith) (omega arith) (omega arith) (omega arith)

  -- Writing one field of five leaves the others.
  field-with : (i j : ℕ) → i < 5 → j < 5 → At i j
  field-with i j p = in_five Row field_0 field_1 field_2 field_3 field_4 i p j

same_rest : (i j : ℕ) → i / 5 ≡ j / 5 → (i % 5 == j % 5) ≡ (i == j)
same_rest i j e = elim (Bool-cases (i == j)) [
  | inl q ↦ rw (q, ==→eq i j q) (==_self (j % 5))
  | inr q ↦ rw q (ne→==_false (i % 5) (j % 5) (λ r. ==_false→ne i j q (omega (arith, e, r))))
]

abbrev word_of : Hll → ℕ → ℕ
word_of h idx = get_or h.registers (idx / 5) 0

module _ (h : Hll) (idx val : ℕ) (inside : idx / 5 < length h.registers) (small : val < 64) where
  -- After set_register inside the words with a value of six bits every register reads as before,
  -- but the one that was written, which reads as the value.
  pub get_register-set_register :
      (j : ℕ)
      → get_register (set_register h idx val) j ≡ (if idx == j then val else get_register h j)
  unfolding get_register set_register
  get_register-set_register j = elim (ℕ_discrete (idx / 5) (j / 5)) [
    | no ne ↦
        let apart : (idx == j) ≡ false = ne→==_false idx j (λ q. ne (ap (λ n. n / 5) q)) in
        rw
          (
            get_or-set_ne h.registers (idx / 5) (j / 5)
                (with_field (word_of h idx) (6 * (idx % 5)) val) 0 ne,
            apart,
          )
          refl
    | yes e ↦
        rw
          (
            sym e,
            get_or-set_self h.registers (idx / 5) (with_field (word_of h idx) (6 * (idx % 5)) val) 0
                inside,
          )
          (field-with (word_of h idx) val small (idx % 5) (j % 5) (omega arith) (omega arith)
            ∙ rw (same_rest idx j e) refl)
  ]
