-- ===== src/Text/Tests.antt =====
-- Runs of the text functions at concrete inputs.
use bbae.Common.{ℕ, inl, inr, arith, ◌≡◌, refl, true, ◌∷◌, ◌++◌, Bytes, codes}
use bbae.Text.{find_next_token, my_strtoull}
use bbae.Text.Scan.{Splits, Finds, find_next_token-Splits}
use bbae.Text.Number.{numeral, Digit, answer, my_strtoull-numeral}

find_next_token-Splits_example :
    (sp : Bytes) × (t : Bytes) × (r : Bytes) × Splits (codes "  add i8 # sum") sp t r
    × Finds t r (find_next_token (codes "  add i8 # sum"))
find_next_token-Splits_example = find_next_token-Splits (codes "  add i8 # sum")

no_space-Digit : (v : ℕ) → ¬ Digit true b' ' v
no_space-Digit v (inl (le, e)) = absurd (omega arith)
no_space-Digit v (inr (h, lo, hi, inl e)) = absurd (omega arith)
no_space-Digit v (inr (h, lo, hi, inr e)) = absurd (omega arith)

my_strtoull-numeral_example :
    my_strtoull (numeral true true (b'1' ∷ (codes "f" ++ codes " x"))) ≡ answer true 31 (codes " x")
my_strtoull-numeral_example =
    my_strtoull-numeral true true b'1' (codes "f") (codes " x") 31
      (1, inl (omega arith, refl), (15, inr (refl, omega arith, omega arith, inr refl), refl))
      no_space-Digit tt
