-- ===== src/Encode/Tests.antt =====
-- Runs of the encoding of operands and of the filling bytes.
use bbae.Common.{ℕ, ◌≡◌, refl, inl, ◌||◌, ◌%◌, true, [], ◌∷◌, ok, ◌==◌, if◌then◌else◌, arith, Bool}
use bbae.Buffer.{ByteBuffer, len}
use bbae.Buffer.Reserve.{IsValid}
use bbae.Encode.{align_function}
use bbae.Encode.Nops.{align_function-aligned}

abbrev three_bytes : ByteBuffer
three_bytes = record { bytes = 72 ∷ 137 ∷ 195 ∷ []; allocated = true; cap = 8; cur = 0 }

abbrev always : ℕ → Bool
always n = true

align_function-aligned_example :
    (r : ByteBuffer) × (align_function always three_bytes ≡ ok r)
    × IsValid r
    × (len r % 16 ≡ (if len three_bytes % 16 == 6 || len three_bytes % 16 == 14 then 14 else 0))
align_function-aligned_example =
    align_function-aligned always (λ n. refl) three_bytes
      (record { within = omega arith; backed = inl refl; word = omega arith }) (omega arith)
