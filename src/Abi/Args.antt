-- ===== src/Abi/Args.antt =====
-- src/x86/abi_x86.h: the places of an argument list.
use bbae.Common.{
  ℕ, ◌+◌, ◌-◌, ◌*◌, ◌%◌, ◌≤◌, ◌<◌, ◌≡◌, ◌≢◌, ◌⊎◌, refl, Bool, true, false, List, [], ◌∷◌, arith,
  inl, inr, Bool-cases, all_below, all_below-at, All, All-map, subst, sym, ◌==◌, if◌then◌else◌, ltb,
  ◌||◌,
}
use bbae.Common.Int.{ℤ, pos, negsuc}
use bbae.Abi.{
  Abi, win, sysv, AbiState, abi_get_next_arg_basic, arg_places, stack_slot, clobbers,
  abi_get_clobber_mask,
}

-- The order in which System V hands out its base registers; 0 stands for no argument register.
abbrev sysv_rank : ℕ → ℕ
sysv_rank n =
    if n == 7
    then 1
    else if n == 6
    then 2
    else if n == 2
    then 3
    else if n == 1
    then 4
    else if n == 8
    then 5
    else if n == 9
    then 6
    else 0

abbrev win_rank : ℕ → ℕ
win_rank n =
    if n == 1 || n == 16
    then 1
    else if n == 2 || n == 17
    then 2
    else if n == 8 || n == 18
    then 3
    else if n == 9 || n == 19
    then 4
    else 0

-- A place that no call before the state `s` has handed out.
abbrev IsFree : Abi → AbiState → ℤ → Type 0
IsFree win s (pos n) = s.i64s_used < win_rank n
IsFree win s (negsuc m) = (48 ≤ m + 1) × (48 + 8 * s.i64s_used ≤ m + 1 + 32)
IsFree sysv s (pos n) =
    ((n < 16) × (s.i64s_used < sysv_rank n)) ⊎ ((16 + s.f64s_used ≤ n) × (n < 24))
IsFree sysv s (negsuc m) = 16 + s.stack_used ≤ m + 1

module _ (abi : Abi) (f : Bool) (s : AbiState) where
  abbrev place : ℤ
  place = (abi_get_next_arg_basic abi f s).0

  abbrev after : AbiState
  after = (abi_get_next_arg_basic abi f s).1

place-IsFree : (abi : Abi) (f : Bool) (s : AbiState) → IsFree abi s (place abi f s)
unfolding abi_get_next_arg_basic
place-IsFree win f s = ground arith
place-IsFree sysv true s = ground arith
place-IsFree sysv false s = ground arith

place_taken : (abi : Abi) (f : Bool) (s : AbiState) → ¬ IsFree abi (after abi f s) (place abi f s)
unfolding abi_get_next_arg_basic
place_taken win f s h = ground arith
place_taken sysv true s h = ground arith
place_taken sysv false s h = ground arith

IsFree-earlier :
    (abi : Abi) (f : Bool) (s : AbiState) (p : ℤ) → IsFree abi (after abi f s) p → IsFree abi s p
unfolding abi_get_next_arg_basic
IsFree-earlier win f s (pos n) h = omega arith
IsFree-earlier win f s (negsuc n) h = omega arith
IsFree-earlier sysv true s (pos n) h = ground arith
IsFree-earlier sysv true s (negsuc n) h = ground arith
IsFree-earlier sysv false s (pos n) h = ground arith
IsFree-earlier sysv false s (negsuc n) h = ground arith

arg_places-IsFree :
    (abi : Abi) (floats : List Bool) (s : AbiState) → All (IsFree abi s) (arg_places abi floats s)
unfolding arg_places
arg_places-IsFree abi [] s = tt
arg_places-IsFree abi (f ∷ floats) s = (
  place-IsFree abi f s,
  All-map (IsFree-earlier abi f s) (arg_places abi floats (after abi f s))
      (arg_places-IsFree abi floats (after abi f s)),
)

-- No two entries of a list are equal.
abbrev pub AreDistinct {ℓ} : {A : Type ℓ} → List A → Type ℓ
AreDistinct [] = Unit
AreDistinct (x ∷ xs) = All (λ y. x ≢ y) xs × AreDistinct xs

-- In both conventions no two arguments of a call share a register or a stack slot.
pub arg_places-AreDistinct :
    (abi : Abi) (floats : List Bool) (s : AbiState) → AreDistinct (arg_places abi floats s)
unfolding arg_places
arg_places-AreDistinct abi [] s = tt
arg_places-AreDistinct abi (f ∷ floats) s = (
  All-map
      (λ q free same.
        place_taken abi f s (subst (λ p. IsFree abi (after abi f s) p) (sym same) free))
      (arg_places abi floats (after abi f s)) (arg_places-IsFree abi floats (after abi f s)),
  arg_places-AreDistinct abi floats (after abi f s),
)

-- The System V rule, by counts: the first six integer arguments and the first eight float arguments
-- go to registers in their order, and every further one to the next eight bytes of the stack.
sysv_int_reg : ℕ → ℕ
sysv_int_reg k =
    if k == 0
    then 7
    else if k == 1
    then 6
    else if k == 2
    then 2
    else if k == 3
    then 1
    else if k == 4
    then 8
    else 9

pub sysv_place : ℕ → ℕ → Bool → ℤ
unfolding sysv_int_reg
sysv_place ints floats true =
    if ltb floats 8 then pos (16 + floats) else stack_slot (16 + 8 * ((ints - 6) + (floats - 8)))
sysv_place ints floats false =
    if ltb ints 6
    then pos (sysv_int_reg ints)
    else stack_slot (16 + 8 * ((ints - 6) + (floats - 8)))

pub sysv_places : ℕ → ℕ → List Bool → List ℤ
sysv_places ints floats [] = []
sysv_places ints floats (true ∷ fs) = sysv_place ints floats true ∷ sysv_places ints (floats + 1) fs
sysv_places ints floats (false ∷ fs) =
    sysv_place ints floats false ∷ sysv_places (ints + 1) floats fs

-- The state after `ints` integer and `floats` float arguments.
abbrev sysv_state : ℕ → ℕ → AbiState
sysv_state ints floats = record {
  i64s_used = ints;
  f64s_used = floats;
  stack_used = 8 * ((ints - 6) + (floats - 8));
}

sysv_next_float :
    (ints floats : ℕ)
    → abi_get_next_arg_basic sysv true (sysv_state ints floats)
      ≡ (sysv_place ints floats true, sysv_state ints (floats + 1))
unfolding abi_get_next_arg_basic sysv_place
sysv_next_float ints floats = ground arith

sysv_next_int :
    (ints floats : ℕ)
    → abi_get_next_arg_basic sysv false (sysv_state ints floats)
      ≡ (sysv_place ints floats false, sysv_state (ints + 1) floats)
unfolding abi_get_next_arg_basic sysv_place
sysv_next_int ints floats = ground arith

-- After `ints` integer and `floats` float arguments, the System V places are those of the rule.
pub arg_places-sysv_places :
    (fs : List Bool) (ints floats : ℕ)
    → arg_places sysv fs (sysv_state ints floats) ≡ sysv_places ints floats fs
unfolding arg_places sysv_places
arg_places-sysv_places [] ints floats = refl
arg_places-sysv_places (true ∷ fs) ints floats =
    rw (sysv_next_float ints floats, arg_places-sysv_places fs ints (floats + 1))
arg_places-sysv_places (false ∷ fs) ints floats =
    rw (sysv_next_int ints floats, arg_places-sysv_places fs (ints + 1) floats)

-- A register that holds an argument is one that the callee may clobber; a stack argument lies above
-- the return address, on a multiple of eight bytes.
abbrev pub IsArgPlace : Abi → ℤ → Type 0
IsArgPlace abi (pos n) = (n < 32) × (clobbers abi n ≡ true)
IsArgPlace abi (negsuc m) = (16 ≤ m + 1) × ((m + 1) % 8 ≡ 0)

-- The stack counter stays a multiple of eight.
abbrev pub IsAligned : AbiState → Type 0
IsAligned s = s.stack_used % 8 ≡ 0

xmm_table : all_below 8 (λ n. clobbers sysv (16 + n)) ≡ true
unfolding all_below clobbers abi_get_clobber_mask
xmm_table = refl

xmm_clobbered : (n : ℕ) → n < 8 → clobbers sysv (16 + n) ≡ true
xmm_clobbered n h = all_below-at (λ k. clobbers sysv (16 + k)) n 8 h xmm_table

float_place : (s : AbiState) → IsAligned s → IsArgPlace sysv (place sysv true s)
unfolding abi_get_next_arg_basic
float_place s h = elim (Bool-cases (ltb s.f64s_used 8)) [
  | inl few ↦
      let below : s.f64s_used < 8 = ground arith in
      rw (few, IsArgPlace) (omega arith, xmm_clobbered s.f64s_used below)
  | inr many ↦ rw (many, IsArgPlace) (omega arith, omega arith)
]

place-IsArgPlace :
    (abi : Abi) (f : Bool) (s : AbiState) → IsAligned s → IsArgPlace abi (place abi f s)
unfolding abi_get_next_arg_basic clobbers abi_get_clobber_mask
place-IsArgPlace win f s h = ground arith
place-IsArgPlace sysv true s h = float_place s h
place-IsArgPlace sysv false s h = ground arith

after-IsAligned : (abi : Abi) (f : Bool) (s : AbiState) → IsAligned s → IsAligned (after abi f s)
unfolding abi_get_next_arg_basic
after-IsAligned win f s h = h
after-IsAligned sysv true s h = ground arith
after-IsAligned sysv false s h = ground arith

-- Every argument of a call stands in a register that the callee may clobber, or on the stack above
-- the return address, eight-byte aligned.
pub arg_places-IsArgPlace :
    (abi : Abi) (floats : List Bool) (s : AbiState)
    → IsAligned s
    → All (IsArgPlace abi) (arg_places abi floats s)
unfolding arg_places
arg_places-IsArgPlace abi [] s h = tt
arg_places-IsArgPlace abi (f ∷ floats) s h = (
  place-IsArgPlace abi f s h,
  arg_places-IsArgPlace abi floats (after abi f s) (after-IsAligned abi f s h),
)
