-- ===== src/Abi.antt =====
-- src/x86/abi_x86.h: where the two calling conventions pass arguments, and which registers a call
-- may clobber.
pub mod Args
pub mod Clobber
mod Tests
use Prim.Native.Nat.{bit_or}
use bbae.Common.{
  ℕ, zero, suc, ◌+◌, ◌-◌, ◌*◌, ◌/◌, ◌%◌, ◌^◌, Bool, true, false, List, [], ◌∷◌, ◌++◌, Run, ok,
  fault, assertion, ltb, leb, ◌==◌, if◌then◌else◌, not,
}
use bbae.Common.Int.{ℤ, pos, negsuc}

pub data Abi : Type 0 where
  win sysv : Abi

-- The registers are numbered 0 to 15 (base) and 16 to 31 (floating point).
abbrev pub rax : ℕ
rax = 0

abbrev pub rcx : ℕ
rcx = 1

abbrev pub rdx : ℕ
rdx = 2

abbrev pub rsi : ℕ
rsi = 6

abbrev pub rdi : ℕ
rdi = 7

abbrev pub r8 : ℕ
r8 = 8

abbrev pub r9 : ℕ
r9 = 9

abbrev pub r10 : ℕ
r10 = 10

abbrev pub r11 : ℕ
r11 = 11

abbrev pub xmm : ℕ → ℕ
xmm n = 16 + n

-- The three counters of the file, `abi_i64s_used`, `abi_f64s_used` and `abi_stack_used`.
-- They are not bounded here; a `size_t` holds them for any list of arguments that fits in memory.
pub record AbiState : Type 0 where
  pub i64s_used : ℕ
  pub f64s_used : ℕ
  pub stack_used : ℕ

-- `abi_reset_state`
abbrev pub abi_reset_state : AbiState
abi_reset_state = record { i64s_used = 0; f64s_used = 0; stack_used = 0 }

-- `-(48 + (used - 4) * 8)` and the like: a stack slot is the negated offset from RBP, never 0.
abbrev pub stack_slot : ℕ → ℤ
stack_slot offset = negsuc (offset - 1)

-- A base register, or a floating-point one for a float.
choose_reg : Bool → ℕ → ℕ → ℤ
choose_reg word_is_float base float = pos (if word_is_float then float else base)

win_arg : Bool → ℕ → ℤ
win_arg word_is_float used =
    if used == 0
    then choose_reg word_is_float rcx (xmm 0)
    else if used == 1
    then choose_reg word_is_float rdx (xmm 1)
    else if used == 2
    then choose_reg word_is_float r8 (xmm 2)
    else if used == 3
    then choose_reg word_is_float r9 (xmm 3)
    else stack_slot (48 + (used - 4) * 8)

spill_arg : AbiState → ℤ × AbiState
spill_arg s = (stack_slot (16 + s.stack_used), record s { stack_used = s.stack_used + 8 })

sysv_float_arg : AbiState → ℤ × AbiState
sysv_float_arg s =
    let used = s.f64s_used in
    let s' = record s { f64s_used = s.f64s_used + 1 } in
    if ltb used 8 then (pos (xmm 0 + used), s') else spill_arg s'

sysv_int_arg : AbiState → ℤ × AbiState
sysv_int_arg s =
    let used = s.i64s_used in
    let s' = record s { i64s_used = s.i64s_used + 1 } in
    if used == 0
    then (pos rdi, s')
    else if used == 1
    then (pos rsi, s')
    else if used == 2
    then (pos rdx, s')
    else if used == 3
    then (pos rcx, s')
    else if used == 4
    then (pos r8, s')
    else if used == 5
    then (pos r9, s')
    else spill_arg s'

unfoldable pub abi_get_next_arg_basic : Abi → Bool → AbiState → ℤ × AbiState
unfolding choose_reg win_arg spill_arg sysv_float_arg sysv_int_arg
abi_get_next_arg_basic win word_is_float s =
    (win_arg word_is_float s.i64s_used, record s { i64s_used = s.i64s_used + 1 })
abi_get_next_arg_basic sysv true s = sysv_float_arg s
abi_get_next_arg_basic sysv false s = sysv_int_arg s

-- The places of a whole argument list, as the callers ask for them one by one after a reset.
unfoldable pub arg_places : Abi → List Bool → AbiState → List ℤ
arg_places abi [] s = []
arg_places abi (f ∷ floats) s =
    (abi_get_next_arg_basic abi f s).0 ∷ arg_places abi floats (abi_get_next_arg_basic abi f s).1

abbrev pub abi_get_min_stack_size : Abi → ℕ
abi_get_min_stack_size win = 40
abi_get_min_stack_size sysv = 8

bits : List ℕ → ℕ
bits [] = 0
bits (r ∷ rs) = bit_or (2 ^ r) (bits rs)

-- The union of `1 << reg` over the registers that each convention lists.
unfoldable pub abi_get_clobber_mask : Abi → ℕ
unfolding bits
abi_get_clobber_mask win =
    bits
      (rax ∷ rcx ∷ rdx ∷ r8 ∷ r9 ∷ r10 ∷ r11 ∷ xmm 0 ∷ xmm 1 ∷ xmm 2 ∷ xmm 3 ∷ xmm 4 ∷ xmm 5 ∷ [])
abi_get_clobber_mask sysv = bits (
    rax
    ∷ rcx
    ∷ rdx
    ∷ rsi
    ∷ rdi
    ∷ r8
    ∷ r9
    ∷ r10
    ∷ r11
    ∷ xmm 0
    ∷ xmm 1
    ∷ xmm 2
    ∷ xmm 3
    ∷ xmm 4
    ∷ xmm 5
    ∷ xmm 6
    ∷ xmm 7
    ∷ xmm 8
    ∷ xmm 9
    ∷ xmm 10
    ∷ xmm 11
    ∷ xmm 12
    ∷ xmm 13
    ∷ xmm 14
    ∷ xmm 15
    ∷ [])

-- `(clobber >> i) & 1`
unfoldable pub clobbers : Abi → ℕ → Bool
clobbers abi i = abi_get_clobber_mask abi / 2 ^ i % 2 == 1

-- The loop of `abi_get_callee_saved_regs` over the list from index `i` on; each entry is a
-- `uint8_t`.
unfoldable pub abi_get_callee_saved_regs : Abi → ℕ → List ℕ → List ℕ
abi_get_callee_saved_regs abi i [] = []
abi_get_callee_saved_regs abi i (r ∷ registers) =
    let n : ℕ = if clobbers abi i then 0 else 1 in
    (if ltb i 32 then r * (n + 1) % 256 else r) ∷ abi_get_callee_saved_regs abi (i + 1) registers

unfoldable pub abi_reg_is_callee_saved : Abi → ℕ → Run Bool
abi_reg_is_callee_saved abi reg = if ltb reg 32 then ok (clobbers abi reg) else fault assertion
