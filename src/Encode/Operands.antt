-- ===== src/Encode/Operands.antt =====
-- src/x86/emitter_x86.h: memory operands and immediates.
use bbae.Common.{
  ℕ, ◌+◌, ◌-◌, ◌*◌, ◌/◌, ◌%◌, ◌^◌, ◌≤◌, ◌<◌, ◌≡◌, refl, sym, ap, subst, ◌∙◌, ◌⊎◌, inl, inr, true,
  ok, leb, ltb, arith, Bool-cases,
}
use bbae.Encode.{EncOperand, enc_mem_add_offset, enc_imm, fe_ismem, sign_extend, is_word_size}

abbrev shifted : EncOperand → ℕ → EncOperand
shifted op a = record op { op = op.op / 2 ^ 32 * 2 ^ 32 + (op.op % 2 ^ 32 + a) % 2 ^ 32 }

add_offset-ok :
    (op : EncOperand) (a : ℕ) → fe_ismem op ≡ true → enc_mem_add_offset op a ≡ ok (shifted op a)
unfolding enc_mem_add_offset
add_offset-ok op a mem = rw mem refl

leb-true : (a b : ℕ) → a ≤ b → leb a b ≡ true
leb-true a b h = ground arith

shifted-mem : (op : EncOperand) (a : ℕ) → fe_ismem op ≡ true → fe_ismem (shifted op a) ≡ true
shifted-mem op a mem =
    let high : 2 ^ 63 ≤ op.op = ground arith in leb-true (2 ^ 63) (shifted op a).op (omega arith)

shifted_twice : (op : EncOperand) (a b : ℕ) → shifted (shifted op a) b ≡ shifted op (a + b)
shifted_twice op a b =
    let same : (shifted (shifted op a) b).op ≡ (shifted op (a + b)).op = omega arith in
    ap (λ (n : ℕ). record op { op = n }) same

-- Adding an offset to a memory operand gives a memory operand again, and adding another one to that
-- is the same as adding the sum: the offset wraps in 32 bits and the rest of the operand is kept.
pub enc_mem_add_offset-twice :
    (op : EncOperand) (a b : ℕ)
    → fe_ismem op ≡ true
    → (r : EncOperand) × (enc_mem_add_offset op a ≡ ok r)
      × (fe_ismem r ≡ true)
      × (r.op / 2 ^ 32 ≡ op.op / 2 ^ 32)
      × (r.size ≡ op.size)
      × (enc_mem_add_offset r b ≡ enc_mem_add_offset op (a + b))
enc_mem_add_offset-twice op a b mem =
    let again = shifted-mem op a mem in
    (
      shifted op a,
      add_offset-ok op a mem,
      again,
      omega arith,
      refl,
      add_offset-ok (shifted op a) b again
          ∙ ap (λ (r : EncOperand). ok r) (shifted_twice op a b)
          ∙ sym (add_offset-ok op (a + b) mem),
    )

-- A signed number in the low `bits` bits of 64.
abbrev pub IsSigned : ℕ → ℕ → Type 0
IsSigned bits n = (n < 2 ^ (bits - 1)) ⊎ ((2 ^ 64 - 2 ^ (bits - 1) ≤ n) × (n < 2 ^ 64))

word_cases :
    (size : ℕ) → is_word_size size ≡ true → (size ≡ 1) ⊎ (size ≡ 2) ⊎ (size ≡ 4) ⊎ (size ≡ 8)
word_cases size word = ground arith

extended_8 : (n : ℕ) → (sign_extend 8 n % 2 ^ 8 ≡ n % 2 ^ 8) × IsSigned 8 (sign_extend 8 n)
extended_8 n = elim (Bool-cases (ltb (n % 2 ^ 8) (2 ^ 7))) [
  | inl low ↦ (ground arith, inl (ground arith))
  | inr high ↦ (ground arith, inr (ground arith, ground arith))
]

extended_16 : (n : ℕ) → (sign_extend 16 n % 2 ^ 16 ≡ n % 2 ^ 16) × IsSigned 16 (sign_extend 16 n)
extended_16 n = elim (Bool-cases (ltb (n % 2 ^ 16) (2 ^ 15))) [
  | inl low ↦ (ground arith, inl (ground arith))
  | inr high ↦ (ground arith, inr (ground arith, ground arith))
]

extended_32 : (n : ℕ) → (sign_extend 32 n % 2 ^ 32 ≡ n % 2 ^ 32) × IsSigned 32 (sign_extend 32 n)
extended_32 n = elim (Bool-cases (ltb (n % 2 ^ 32) (2 ^ 31))) [
  | inl low ↦ (ground arith, inl (ground arith))
  | inr high ↦ (ground arith, inr (ground arith, ground arith))
]

any_64 : (n : ℕ) → n < 2 ^ 64 → IsSigned 64 n
any_64 n fits = elim (Bool-cases (ltb n (2 ^ 63))) [
  | inl low ↦ inl (ground arith)
  | inr high ↦ inr (ground arith, fits)
]

abbrev Extends : ℕ → ℕ → Type 0
Extends imm size =
    (r : EncOperand) × (enc_imm imm size ≡ ok r)
    × (r.op % 2 ^ (8 * size) ≡ imm % 2 ^ (8 * size))
    × IsSigned (8 * size) r.op

extends :
    (imm size : ℕ)
    → imm < 2 ^ 64
    → (size ≡ 1) ⊎ (size ≡ 2) ⊎ (size ≡ 4) ⊎ (size ≡ 8)
    → Extends imm size
unfolding enc_imm
extends imm size fits (inl e) =
    subst (Extends imm) (sym e) (_, refl, (extended_8 imm).0, (extended_8 imm).1)
extends imm size fits (inr (inl e)) =
    subst (Extends imm) (sym e) (_, refl, (extended_16 imm).0, (extended_16 imm).1)
extends imm size fits (inr (inr (inl e))) =
    subst (Extends imm) (sym e) (_, refl, (extended_32 imm).0, (extended_32 imm).1)
extends imm size fits (inr (inr (inr e))) =
    subst (Extends imm) (sym e) (_, refl, refl, any_64 imm fits)

-- The immediate of a word of one, two, four or eight bytes keeps the word's bits, and as a signed
-- 64-bit number it is in the word's signed range.
pub enc_imm-IsSigned :
    (imm size : ℕ)
    → is_word_size size ≡ true
    → imm < 2 ^ 64
    → (r : EncOperand) × (enc_imm imm size ≡ ok r)
      × (r.op % 2 ^ (8 * size) ≡ imm % 2 ^ (8 * size))
      × IsSigned (8 * size) r.op
enc_imm-IsSigned imm size word fits = extends imm size fits (word_cases size word)
