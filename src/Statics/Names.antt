-- ===== src/Statics/Names.antt =====
-- src/compiler_common.h: the made-up names, and the decimal digits in them.
use bbae.Common.{
  ℕ, zero, suc, ◌+◌, ◌*◌, ◌/◌, ◌%◌, ◌^◌, ◌≤◌, ◌<◌, ◌≡◌, ◌≢◌, subst, drop, refl, ap, sym, ◌∙◌, false,
  [], ◌∷◌, ◌++◌, some, ok, Bytes, arith, All, Bool-cases, inl, inr, ltb,
}
use bbae.Text.{digit_of, my_strtoull}
use bbae.Text.Number.{IsDigit, value_of, value_of_digit, EndsNumber, NoX, my_strtoull-digits}
use bbae.Statics.{decimal_loop, decimal, make_temp_name}

digits-append :
    (radix : ℕ) (xs ys : Bytes)
    → All (IsDigit radix) xs
    → All (IsDigit radix) ys
    → All (IsDigit radix) (xs ++ ys)
digits-append radix [] ys h k = k
digits-append radix (x ∷ xs) ys h k = (h.0, digits-append radix xs ys h.1 k)

digit_at : (v : ℕ) → v < 10 → digit_of 10 (b'0' + v) ≡ some v
unfolding digit_of
digit_at v h = ground arith

value_of-append :
    (radix acc : ℕ) (ds rest : Bytes)
    → All (IsDigit radix) ds
    → value_of radix acc (ds ++ rest) ≡ value_of radix (value_of radix acc ds) rest
unfolding value_of
value_of-append radix acc [] rest h = refl
value_of-append radix acc (c ∷ ds) rest h =
    let (v, digit) = h.0 in
    value_of_digit radix acc c v (ds ++ rest) digit
    ∙ value_of-append radix (acc * radix + v) ds rest h.1
    ∙ ap (λ (a : ℕ). value_of radix a rest) (sym (value_of_digit radix acc c v ds digit))

value_of_one : (acc v : ℕ) → v < 10 → value_of 10 acc ((b'0' + v) ∷ []) ≡ acc * 10 + v
unfolding value_of
value_of_one acc v h = value_of_digit 10 acc (b'0' + v) v [] (digit_at v h)

one_more :
    (ds : Bytes) (q v : ℕ)
    → All (IsDigit 10) ds
    → value_of 10 0 ds ≡ q
    → v < 10
    → value_of 10 0 (ds ++ (b'0' + v) ∷ []) ≡ q * 10 + v
one_more ds q v digits value last =
    value_of-append 10 0 ds ((b'0' + v) ∷ []) digits ∙ rw value (value_of_one q v last)

decimal_loop-value_of :
    (fuel n : ℕ)
    → n ≤ fuel
    → All (IsDigit 10) (decimal_loop fuel n) × (value_of 10 0 (decimal_loop fuel n) ≡ n)
unfolding decimal_loop
decimal_loop-value_of zero n h =
    (((n, digit_at n (omega arith)), tt), value_of_one 0 n (omega arith) ∙ omega arith)
decimal_loop-value_of (suc fuel) n h = elim (Bool-cases (ltb n 10)) [
  | inl one ↦
      let below : n < 10 = ground arith in
      rw one (((n, digit_at n below), tt), value_of_one 0 n below ∙ omega arith)
  | inr more ↦
      let (digits, value) = decimal_loop-value_of fuel (n / 10) (ground arith) in
      let last : n % 10 < 10 = omega arith in
      rw more (
        digits-append 10 (decimal_loop fuel (n / 10)) ((b'0' + n % 10) ∷ []) digits
            ((n % 10, digit_at (n % 10) last), tt),
        one_more (decimal_loop fuel (n / 10)) (n / 10) (n % 10) digits value last ∙ omega arith,
      )
]

decimal_loop-cons : (fuel n : ℕ) → (c : ℕ) × (ds : Bytes) × (decimal_loop fuel n ≡ c ∷ ds)
unfolding decimal_loop
decimal_loop-cons zero n = (b'0' + n, [], refl)
decimal_loop-cons (suc fuel) n = elim (Bool-cases (ltb n 10)) [
  | inl one ↦ (b'0' + n, [], rw one)
  | inr more ↦
      let (c, ds, e) = decimal_loop-cons fuel (n / 10) in
      (c, ds ++ (b'0' + n % 10) ∷ [], rw (more, e))
]

no_x_digit : (c : ℕ) → IsDigit 10 c → c ≢ b'x'
unfolding digit_of
no_x_digit c (v, e) same =
    let at_x : digit_of 10 b'x' ≡ some v = subst (λ k. digit_of 10 k ≡ some v) same e in cc at_x

NoX-append : (ds rest : Bytes) → All (IsDigit 10) ds → NoX rest → NoX (ds ++ rest)
NoX-append [] rest digits h = h
NoX-append (d ∷ ds) rest digits h = no_x_digit d digits.0

-- A number that was printed in decimal is read back, in 64 bits, where the text goes on with
-- neither a digit nor an `x`.
pub my_strtoull-decimal :
    (n : ℕ) (rest : Bytes)
    → EndsNumber 10 rest
    → NoX rest
    → my_strtoull (decimal n ++ rest) ≡ ok (n % 2 ^ 64, rest)
unfolding decimal
my_strtoull-decimal n rest ends no_x =
    let (c, ds, shape) = decimal_loop-cons n n in
    let (digits, value) = decimal_loop-value_of n n (omega arith) in
    read c ds (subst (λ t. All (IsDigit 10) t) shape digits)
      (sym (ap (λ (t : Bytes). value_of 10 0 t) shape) ∙ value) shape
  where
    read :
        (c : ℕ) (ds : Bytes)
        → All (IsDigit 10) (c ∷ ds)
        → value_of 10 0 (c ∷ ds) ≡ n
        → decimal_loop n n ≡ c ∷ ds
        → my_strtoull (decimal n ++ rest) ≡ ok (n % 2 ^ 64, rest)
    read c ds digits value shape = rw (shape) (
        my_strtoull-digits false false c ds rest digits ends
          (inr (NoX-append ds rest digits.1 no_x))
        ∙ rw value)

decimal-value_of : (n : ℕ) → value_of 10 0 (decimal n) ≡ n
unfolding decimal
decimal-value_of n = (decimal_loop-value_of n n (omega arith)).1

make_temp_name-injective :
    (a b : ℕ)
    → a + 1 < 2 ^ 64
    → b + 1 < 2 ^ 64
    → (make_temp_name a).0 ≡ (make_temp_name b).0
    → a ≡ b
unfolding make_temp_name
make_temp_name-injective a b ha hb same =
    let next_a : (a + 1) % 2 ^ 64 ≡ a + 1 = omega arith in
    let next_b : (b + 1) % 2 ^ 64 ≡ b + 1 = omega arith in
    let behind : decimal ((a + 1) % 2 ^ 64) ≡ decimal ((b + 1) % 2 ^ 64) =
      ap (λ (t : Bytes). drop 6 t) same in
    let numbers =
      sym (decimal-value_of ((a + 1) % 2 ^ 64))
      ∙ ap (λ (t : Bytes). value_of 10 0 t) behind
      ∙ decimal-value_of ((b + 1) % 2 ^ 64) in
    omega (arith, numbers)

-- Two different counters that do not wrap around make different names.
pub make_temp_name-distinct :
    (a b : ℕ)
    → a + 1 < 2 ^ 64
    → b + 1 < 2 ^ 64
    → a ≢ b
    → (make_temp_name a).0 ≢ (make_temp_name b).0
make_temp_name-distinct a b ha hb ne same = ne (make_temp_name-injective a b ha hb same)
