-- ===== src/Regalloc/Free.antt =====
-- src/x86/regalloc_x86.h: what a register holds, and when a register found for a value is free.
use bbae.Common.{
  ℕ, zero, suc, ◌+◌, ◌-◌, ◌≡◌, ◌≢◌, refl, ap, ◌∙◌, subst, inl, inr, Bool, true, false, ◌&&◌, not,
  List, [], ◌∷◌, Option, none, some, Run, Fault, ok, fault, assert, ◌>>=◌, ltb, if◌then◌else◌, take,
  get_elem?, arith, Bool-cases, some_injective, true_not_false,
}
use bbae.Ir.{Heap, Operand}
use bbae.Abi.{Abi}
use bbae.Regalloc.{
  RegUse, RegInfo, RegState, Mask, is_empty, reg_at, first_empty, value_reg_is_thrashed,
}
use bbae.Regalloc.Empty.{IsLowest, is_free, preferred, first_empty-IsLowest}
use bbae.Regalloc.Blocks.{reg_of_operand, op_value, or_second, if_same, where_found}

-- What a register holds; the numbers from 16 on are the float registers.
abbrev pub reg_use : RegState → ℕ → Option RegUse
reg_use s r =
    if ltb r 16 then get_elem? s.reg_int_alloced r else get_elem? s.reg_float_alloced (r - 16)

abbrev pub IsEmptyAt : RegState → ℕ → Type 0
IsEmptyAt s r = reg_use s r ≡ some RegUse.empty

pub bind_ok {ℓ κ} :
    {A : Type ℓ} {B : Type κ} (m : Run A) (f : A → Run B) {b : B}
    → (m >>= f) ≡ ok b
    → (a : A) × (m ≡ ok a) × (f a ≡ ok b)
bind_ok (ok a) f e = (a, refl, e)
bind_ok (fault x) f e = cc

pub ok_injective {ℓ} : {A : Type ℓ} {x y : A} → ok x ≡ ok y → x ≡ y
ok_injective e = cc

pub get_elem?-reg_at :
    (array : List RegUse) (n : ℕ) (r : RegUse) → reg_at array n ≡ ok r → get_elem? array n ≡ some r
get_elem?-reg_at [] n r e = cc
get_elem?-reg_at (x ∷ array) zero r e = cc
get_elem?-reg_at (x ∷ array) (suc n) r e = get_elem?-reg_at array n r e

pub empty_lem : (r : RegUse) → not (is_empty r) ≡ false → r ≡ RegUse.empty
empty_lem RegUse.empty e = refl
empty_lem (RegUse.held v) e = cc
empty_lem RegUse.reserved e = cc

-- A value's register that is not thrashed is free.
pub tested_empty :
    (array : List RegUse) (n : ℕ)
    → (reg_at array n >>= λ r. ok (not (is_empty r))) ≡ ok false
    → get_elem? array n ≡ some RegUse.empty
tested_empty array n e =
    let (r, at, is_empty_r) = bind_ok (reg_at array n) (λ r. ok (not (is_empty r))) e in
    get_elem?-reg_at array n r at ∙ ap some (empty_lem r (ok_injective is_empty_r))

pub not_thrashed :
    (s : RegState) (v : RegInfo)
    → value_reg_is_thrashed s.reg_int_alloced s.reg_float_alloced v ≡ ok false
    → IsEmptyAt s v.regalloc
unfolding value_reg_is_thrashed
not_thrashed s v e = elim (Bool-cases (v.regalloced && not v.spilled)) [
  | inr off ↦ absurd (true_not_false (ok_injective (rw off at e)))
  | inl on ↦ elim (Bool-cases (ltb v.regalloc 16)) [
    | inl low ↦ rw low (
        tested_empty s.reg_int_alloced v.regalloc
          (bind_ok (assert (ltb v.regalloc 32))
            (λ u. reg_at s.reg_int_alloced v.regalloc >>= λ r. ok (not (is_empty r)))
            (rw (on, low) at e)).2)
    | inr high ↦ rw high (
        tested_empty s.reg_float_alloced (v.regalloc - 16)
          (bind_ok (assert (ltb v.regalloc 32))
            (λ u. reg_at s.reg_float_alloced (v.regalloc - 16) >>= λ r. ok (not (is_empty r)))
            (rw (on, high) at e)).2)
  ]
]

pub by_test :
    (s : RegState) (v : RegInfo) (r : ℕ) (thrashed : Bool)
    → value_reg_is_thrashed s.reg_int_alloced s.reg_float_alloced v ≡ ok thrashed
    → (if thrashed then none else some v.regalloc) ≡ some r
    → IsEmptyAt s r
by_test s v r true tested e = cc
by_test s v r false tested e = subst (IsEmptyAt s) (some_injective e) (not_thrashed s v tested)

pub operand_free :
    (s : RegState) (args : List Operand) (n r : ℕ)
    → reg_of_operand s args n ≡ ok (some r)
    → IsEmptyAt s r
operand_free s args n r e =
    let (v, at, further) =
      bind_ok (op_value (get_elem? args n))
        (λ v. value_reg_is_thrashed s.reg_int_alloced s.reg_float_alloced (s.info v) >>= λ thrashed.
          ok (if thrashed then none else some (s.info v).regalloc))
        e in
    let (thrashed, tested, given) =
      bind_ok (value_reg_is_thrashed s.reg_int_alloced s.reg_float_alloced (s.info v))
        (λ thrashed. ok (if thrashed then none else some (s.info v).regalloc)) further in
    by_test s (s.info v) r thrashed tested (ok_injective given)

pub free_lem :
    (mask : Mask) (array : List RegUse) (n : ℕ)
    → is_free mask array n ≡ true
    → (get_elem? array n ≡ some RegUse.empty) × (mask n ≡ true)
free_lem mask [] n e = cc
free_lem mask (RegUse.empty ∷ array) zero e = (refl, ground arith)
free_lem mask (RegUse.held v ∷ array) zero e = absurd (true_not_false (ground arith))
free_lem mask (RegUse.reserved ∷ array) zero e = absurd (true_not_false (ground arith))
free_lem mask (x ∷ array) (suc n) e = free_lem (λ i. mask (suc i)) array n e

pub get_elem?-take :
    (k : ℕ) (array : List RegUse) (n : ℕ) (x : RegUse)
    → get_elem? (take k array) n ≡ some x
    → get_elem? array n ≡ some x
get_elem?-take zero array n x e = cc
get_elem?-take (suc k) [] n x e = e
get_elem?-take (suc k) (y ∷ array) zero x e = e
get_elem?-take (suc k) (y ∷ array) (suc n) x e = get_elem?-take k array n x e

abbrev pub low_half : Mask
low_half n = ltb n 16

pub first_empty_free :
    (abi : Abi) (array : List RegUse) (does_calls is_float : Bool) (n : ℕ)
    → first_empty abi array 16 low_half does_calls is_float ≡ some n
    → (ltb n 16 ≡ true) × (get_elem? array n ≡ some RegUse.empty)
first_empty_free abi array does_calls is_float n e =
    elim (first_empty-IsLowest abi array 16 low_half does_calls is_float) [
      | inl (calls, low) ↦
          allowed low_half (λ m t. t) (subst (IsLowest low_half (take 16 array)) e low)
      | inr (inl (leaf, found, low)) ↦
          allowed (preferred abi low_half is_float) (λ m t. ground arith)
            (subst (IsLowest (preferred abi low_half is_float) (take 16 array)) e low)
      | inr (inr (leaf, nothing, low)) ↦
          allowed low_half (λ m t. t) (subst (IsLowest low_half (take 16 array)) e low)
    ]
  where
    allowed :
        (mask : Mask)
        → ((m : ℕ) → mask m ≡ true → ltb m 16 ≡ true)
        → IsLowest mask (take 16 array) (some n)
        → (ltb n 16 ≡ true) × (get_elem? array n ≡ some RegUse.empty)
    allowed mask half (free, lower) =
        let (at, by_mask) = free_lem mask (take 16 array) n free in
        (half n by_mask, get_elem?-take 16 array n RegUse.empty at)

pub upper : (n : ℕ) → ltb (n + 16) 16 ≡ false
upper n = ground arith

pub back : (n : ℕ) → n + 16 - 16 ≡ n
back n = omega arith

pub where_lem :
    (abi : Abi) (performs_calls : Bool) (same_text : ℕ → ℕ → Bool) (h : Heap) (o : Option ℕ) (r : ℕ)
    → where_found abi performs_calls same_text h o ≡ ok r
    → o ≡ some r
where_lem abi performs_calls same_text h none r e = cc
where_lem abi performs_calls same_text h (some x) r e = ap some (ok_injective e)

pub fault_not_ok {ℓ} : {A : Type ℓ} {x : Fault} {y : A} → fault x ≢ ok y
fault_not_ok e = cc

pub or_second_lem :
    (P : ℕ → Type 0) (first : Option ℕ) (second : Run (Option ℕ)) (r : ℕ)
    → or_second first second ≡ ok (some r)
    → ((x : ℕ) → first ≡ some x → P x)
    → (second ≡ ok (some r) → P r)
    → P r
or_second_lem P (some x) second r e left right = left r (ok_injective e)
or_second_lem P none second r e left right = right e

pub if_same_lem :
    (b : Bool) (m : Run (Option ℕ)) (r : ℕ) → if_same b m ≡ ok (some r) → m ≡ ok (some r)
if_same_lem true m r e = e
if_same_lem false m r e = cc
