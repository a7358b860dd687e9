-- ===== src/Types/Align.antt =====
-- The guessed alignment of src/compiler_common.h.
use bbae.Common.{ℕ, ◌*◌, ◌≡◌, ◌≤◌, ◌<◌, ◌^◌, ◌⊎◌, true, ok, arith, refl, inl, inr, Bool-cases, ltb}
use bbae.Types.{size_guess_align, IrType, type_size, type_is_basic}

-- The least power of two that is at least `s`, but never more than 64.
pub record IsAlignOf (s a : ℕ) : Type 0 where
  pub exponent : ℕ
  pub power : a ≡ 2 ^ exponent
  pub bounded : exponent ≤ 6
  pub reaches : (s ≤ a) ⊎ (a ≡ 64)
  pub least : (a ≡ 1) ⊎ (a < 2 * s)

answer :
    (s e : ℕ)
    → e ≤ 6
    → (s ≤ 2 ^ e) ⊎ (2 ^ e ≡ 64)
    → (2 ^ e ≡ 1) ⊎ (2 ^ e < 2 * s)
    → IsAlignOf s (2 ^ e)
answer s e b r l = record { exponent = e; power = refl; bounded = b; reaches = r; least = l }

-- The loop ends, and gives the least power of two that is at least `s`, capped at 64.
pub size_guess_align-IsAlignOf : (s : ℕ) → (a : ℕ) × (size_guess_align s ≡ ok a) × IsAlignOf s a
unfolding size_guess_align
size_guess_align-IsAlignOf s = elim (Bool-cases (ltb 1 s)) [
  | inr a ↦ (1, rw a, answer s 0 (omega arith) (ground arith) (inl refl))
  | inl a ↦ elim (Bool-cases (ltb 2 s)) [
    | inr b ↦ (2, rw (a, b), answer s 1 (omega arith) (ground arith) (ground arith))
    | inl b ↦ elim (Bool-cases (ltb 4 s)) [
      | inr c ↦ (4, rw (a, b, c), answer s 2 (omega arith) (ground arith) (ground arith))
      | inl c ↦ elim (Bool-cases (ltb 8 s)) [
        | inr d ↦ (8, rw (a, b, c, d), answer s 3 (omega arith) (ground arith) (ground arith))
        | inl d ↦ elim (Bool-cases (ltb 16 s)) [
          | inr e ↦ (16, rw (a, b, c, d, e), answer s 4 (omega arith) (ground arith) (ground arith))
          | inl e ↦ elim (Bool-cases (ltb 32 s)) [
            | inr f ↦
                (32, rw (a, b, c, d, e, f), answer s 5 (omega arith) (ground arith) (ground arith))
            | inl f ↦
                (64, rw (a, b, c, d, e, f), answer s 6 (omega arith) (inr refl) (ground arith))
          ]
        ]
      ]
    ]
  ]
]

-- A basic type's guessed alignment is its size.
pub size_guess_align-type_size :
    (t : IrType) (n : ℕ) → type_is_basic t ≡ true → type_size t ≡ ok n → size_guess_align n ≡ ok n
unfolding type_is_basic type_size size_guess_align
size_guess_align-type_size t n b e = ground arith
