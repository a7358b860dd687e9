-- ===== src/Text/Number.antt =====
-- src/compiler_common.h: the value of a numeral.
use native.Mathlib.Nat.{div-add-mod'}
use bbae.Common.{
  ℕ, ◌+◌, ◌-◌, ◌*◌, ◌%◌, ◌^◌, ◌≡◌, ◌⊎◌, inl, inr, refl, ap, sym, ◌≢◌, ◌∙◌, Bool, true, false, [],
  ◌∷◌, ◌++◌, none, some, Run, ok, fault, undefined, ◌&&◌, ◌≤◌, leb, Option-cases, if◌then◌else◌,
  ◌==◌, Bytes, arith, All, Bool-cases,
}
use bbae.Common.{==_iff, subst}
use bbae.Text.{digit_of, digits_loop, my_strtoull, radix_prefix}

abbrev pub IsDigit : ℕ → ℕ → Type 0
IsDigit radix c = (v : ℕ) × (digit_of radix c ≡ some v)

-- The value of a row of digits behind digits of the value `acc`, without a bound.
unfoldable pub value_of : ℕ → ℕ → Bytes → ℕ
value_of radix acc [] = acc
value_of radix acc (c ∷ ds) = elim (digit_of radix c) [
  | none ↦ acc
  | some v ↦ value_of radix (acc * radix + v) ds
]

-- The text goes on with no digit.
abbrev pub EndsNumber : ℕ → Bytes → Type 0
EndsNumber radix [] = Unit
EndsNumber radix (c ∷ rest) = digit_of radix c ≡ none

wrap_step :
    (acc radix v : ℕ) → (acc % 2 ^ 64 * radix % 2 ^ 64 + v) % 2 ^ 64 ≡ (acc * radix + v) % 2 ^ 64
wrap_step acc radix v = omega (arith, ap (λ (t : ℕ). t * radix) (div-add-mod' acc (2 ^ 64)))

digits_loop_digit :
    (radix out c v : ℕ) (str : Bytes)
    → digit_of radix c ≡ some v
    → digits_loop radix out (c ∷ str) ≡ digits_loop radix ((out * radix % 2 ^ 64 + v) % 2 ^ 64) str
unfolding digits_loop
digits_loop_digit radix out c v str e = rw (e, digits_loop)

digits_loop_end :
    (radix out c : ℕ) (str : Bytes)
    → digit_of radix c ≡ none
    → digits_loop radix out (c ∷ str) ≡ (out, c ∷ str)
unfolding digits_loop
digits_loop_end radix out c str e = rw (e, digits_loop)

pub value_of_digit :
    (radix acc c v : ℕ) (ds : Bytes)
    → digit_of radix c ≡ some v
    → value_of radix acc (c ∷ ds) ≡ value_of radix (acc * radix + v) ds
unfolding value_of
value_of_digit radix acc c v ds e = rw (e, value_of)

-- The loop keeps the value of the digits that it has read, in 64 bits, and stops behind the last.
digits_loop-value_of :
    (radix acc : ℕ) (ds rest : Bytes)
    → All (IsDigit radix) ds
    → EndsNumber radix rest
    → digits_loop radix (acc % 2 ^ 64) (ds ++ rest) ≡ (value_of radix acc ds % 2 ^ 64, rest)
unfolding digits_loop value_of
digits_loop-value_of radix acc [] rest h e = at_end radix acc rest e
  where
    at_end :
        (radix acc : ℕ) (rest : Bytes)
        → EndsNumber radix rest
        → digits_loop radix (acc % 2 ^ 64) rest ≡ (value_of radix acc [] % 2 ^ 64, rest)
    at_end radix acc [] e = refl
    at_end radix acc (c ∷ rest) e = digits_loop_end radix (acc % 2 ^ 64) c rest e
digits_loop-value_of radix acc (c ∷ ds) rest h e =
    let (v, digit) = h.0 in
    digits_loop_digit radix (acc % 2 ^ 64) c v (ds ++ rest) digit
    ∙ ap (λ (out : ℕ). digits_loop radix out (ds ++ rest)) (wrap_step acc radix v)
    ∙ digits_loop-value_of radix (acc * radix + v) ds rest h.1 e
    ∙ ap (λ (value : ℕ). (value % 2 ^ 64, rest)) (sym (value_of_digit radix acc c v ds digit))

-- A numeral as it is written: the sign, the radix prefix and the digits.
abbrev pub numeral : Bool → Bool → Bytes → Bytes
numeral negative hex digits =
    let body = if hex then b'0' ∷ b'x' ∷ digits else digits in
    if negative then b'-' ∷ body else body

abbrev pub radix_of : Bool → ℕ
radix_of hex = if hex then 16 else 10

-- The 64-bit word of a value with a sign.
abbrev pub signed_word : Bool → ℕ → ℕ
signed_word negative value = if negative then (2 ^ 64 - value % 2 ^ 64) % 2 ^ 64 else value % 2 ^ 64

-- The text does not go on with an `x`.
abbrev pub NoX : Bytes → Type 0
NoX [] = Unit
NoX (d ∷ rest) = d ≢ b'x'

-- Digits that are not taken for a prefix: a decimal numeral is no 0 before an `x`.
abbrev pub IsPlain : Bool → ℕ → Bytes → Type 0
IsPlain true c after = Unit
IsPlain false c after = (c ≢ b'0') ⊎ NoX after

decimal_prefix :
    (c : ℕ) (after : Bytes) → IsPlain false c after → radix_prefix (c ∷ after) ≡ (10, c ∷ after)
unfolding radix_prefix
decimal_prefix c [] h = refl
decimal_prefix c (d ∷ after) h = ground arith

digit_no_minus : (c : ℕ) → IsDigit 10 c → c == b'-' ≡ false
unfolding digit_of
digit_no_minus c (v, e) = elim (Bool-cases (c == b'-')) [
  | inr other ↦ other
  | inl minus ↦
      let at_minus : digit_of 10 b'-' ≡ some v =
        subst (λ k. digit_of 10 k ≡ some v) ((==_iff c b'-').0 minus) e in
      cc (at_minus)
]

-- What the parser gives for a numeral of the value in front of `rest`. The negation of 2 ^ 63 is
-- undefined.
abbrev pub answer : Bool → ℕ → Bytes → Run (ℕ × Bytes)
answer negative value rest =
    if negative && value % 2 ^ 64 == 2 ^ 63
    then fault undefined
    else ok (signed_word negative value, rest)

-- A numeral in terms of the code's own digits.
pub my_strtoull-digits :
    (negative hex : Bool) (c : ℕ) (ds rest : Bytes)
    → All (IsDigit (radix_of hex)) (c ∷ ds)
    → EndsNumber (radix_of hex) rest
    → IsPlain hex c (ds ++ rest)
    → my_strtoull (numeral negative hex (c ∷ (ds ++ rest)))
      ≡ answer negative (value_of (radix_of hex) 0 (c ∷ ds)) rest
unfolding my_strtoull
my_strtoull-digits true true c ds rest digits e plain =
    rw (digits_loop-value_of 16 0 (c ∷ ds) rest digits e)
my_strtoull-digits false true c ds rest digits e plain =
    rw (digits_loop-value_of 16 0 (c ∷ ds) rest digits e)
my_strtoull-digits true false c ds rest digits e plain =
    rw (decimal_prefix c (ds ++ rest) plain) (rw (digits_loop-value_of 10 0 (c ∷ ds) rest digits e))
my_strtoull-digits false false c ds rest digits e plain = rw (digit_no_minus c digits.0) (
    rw (decimal_prefix c (ds ++ rest) plain)
      (rw (digits_loop-value_of 10 0 (c ∷ ds) rest digits e)))

-- The byte `c` is a digit that is worth `v`: 0 to 9, and in a hexadecimal numeral also A to F or a to
-- f.
abbrev pub Digit : Bool → ℕ → ℕ → Type 0
Digit hex c v =
    ((v ≤ 9) × (c ≡ 48 + v)) ⊎ ((hex ≡ true) × (10 ≤ v) × (v ≤ 15) × ((c ≡ 55 + v) ⊎ (c ≡ 87 + v)))

-- Digits are worth `value` behind others that are worth `acc`.
abbrev pub Worth : Bool → ℕ → Bytes → ℕ → Type 0
Worth hex acc [] value = acc ≡ value
Worth hex acc (c ∷ ds) value =
    (v : ℕ) × Digit hex c v × Worth hex (acc * (if hex then 16 else 10) + v) ds value

abbrev pub StartsNoDigit : Bool → Bytes → Type 0
StartsNoDigit hex [] = Unit
StartsNoDigit hex (c ∷ rest) = (v : ℕ) → ¬ Digit hex c v

Digit-digit_of : (hex : Bool) (c v : ℕ) → Digit hex c v → digit_of (radix_of hex) c ≡ some v
unfolding digit_of
Digit-digit_of true c v (inl (le, e)) = ground arith
Digit-digit_of false c v (inl (le, e)) = ground arith
Digit-digit_of true c v (inr (h, lo, hi, inl e)) = ground arith
Digit-digit_of true c v (inr (h, lo, hi, inr e)) = ground arith
Digit-digit_of false c v (inr (h, lo, hi, e)) = cc

digit_of-Digit : (hex : Bool) (c v : ℕ) → digit_of (radix_of hex) c ≡ some v → Digit hex c v
unfolding digit_of
digit_of-Digit hex c v e = elim (Bool-cases (leb 48 c && leb c 57)) [
  | inl figure ↦ inl (ground arith, ground arith)
  | inr no_figure ↦ elim (Bool-cases (leb 65 c && leb c 90)) [
    | inl upper ↦
        let at : c ≡ 55 + v = ground arith in
        inr (is_hex hex c v e no_figure, ground arith, ground arith, inl at)
    | inr no_upper ↦
        let at : c ≡ 87 + v = ground arith in
        inr (is_hex hex c v e no_figure, ground arith, ground arith, inr at)
  ]
]
  where
    is_hex :
        (hex : Bool) (c v : ℕ)
        → digit_of (radix_of hex) c ≡ some v
        → (leb 48 c && leb c 57) ≡ false
        → hex ≡ true
    is_hex true c v e off = refl
    is_hex false c v e off = ground arith

Worth-value_of :
    (hex : Bool) (acc : ℕ) (ds : Bytes) (value : ℕ)
    → Worth hex acc ds value
    → All (IsDigit (radix_of hex)) ds × (value_of (radix_of hex) acc ds ≡ value)
unfolding value_of
Worth-value_of hex acc [] value w = (tt, w)
Worth-value_of hex acc (c ∷ ds) value (v, digit, w) =
    let here = Digit-digit_of hex c v digit in
    let (digits, sum) = Worth-value_of hex (acc * radix_of hex + v) ds value w in
    (((v, here), digits), value_of_digit (radix_of hex) acc c v ds here ∙ sum)

no_digit-EndsNumber :
    (hex : Bool) (rest : Bytes) → StartsNoDigit hex rest → EndsNumber (radix_of hex) rest
no_digit-EndsNumber hex [] h = tt
no_digit-EndsNumber hex (c ∷ rest) h = elim (Option-cases (digit_of (radix_of hex) c)) [
  | inl e ↦ e
  | inr (v, e) ↦ absurd (h v (digit_of-Digit hex c v e))
]

-- A numeral of at least one digit, with or without a sign and a hexadecimal prefix, in front of a text
-- that goes on with no digit, and where it is decimal, no 0 in front of an `x`, is read whole: its value, negated as a two's complement if it has a sign, in 64 bits, and the text behind it. Only
-- where it has a sign and its value in 64 bits is 2 ^ 63, the negation is undefined.
pub my_strtoull-numeral :
    (negative hex : Bool) (c : ℕ) (ds rest : Bytes) (value : ℕ)
    → Worth hex 0 (c ∷ ds) value
    → StartsNoDigit hex rest
    → IsPlain hex c (ds ++ rest)
    → my_strtoull (numeral negative hex (c ∷ (ds ++ rest))) ≡ answer negative value rest
my_strtoull-numeral negative hex c ds rest value worth ends plain =
    let (digits, sum) = Worth-value_of hex 0 (c ∷ ds) value worth in
    my_strtoull-digits negative hex c ds rest digits (no_digit-EndsNumber hex rest ends) plain
    ∙ ap (λ (n : ℕ). answer negative n rest) sum
