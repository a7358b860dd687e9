-- ===== src/Regalloc.antt =====
-- src/x86/regalloc_x86.h: the choice of registers for values. A mask is given by its bits:
-- `mask n` is `(mask >> n) & 1`.
pub mod Rules
pub mod Imm
pub mod Empty
pub mod Later
pub mod Spill
pub mod Args
pub mod Uses
pub mod Count
pub mod Blocks
pub mod Free
pub mod Chosen
pub mod Held
mod Tests
use bbae.Common.{
  ℕ, zero, suc, ◌+◌, ◌-◌, ◌≤◌, Bool, true, false, ◌&&◌, ◌||◌, not, List, [], ◌∷◌, Option, none,
  some, Run, Fault, ok, fault, assert, assertion, ◌>>=◌, ◌>>◌, ltb, leb, ◌==◌, if◌then◌else◌,
  length, drop, take, codes, str_same, set, get_elem?,
}
use bbae.Common.Int.{ℤ, pos, negsuc}
use bbae.Types.{
  IrType, type_size, type_is_agg, type_is_float_only_agg, type_is_int, type_is_ptr, type_is_float,
  type_is_basic,
}
use bbae.Ir.{Heap, Value, ValueVariant, Operand, Statement, update}
use bbae.Abi.{Abi, AbiState, clobbers, abi_get_next_arg_basic, abi_reset_state}

-- An entry of `reg_int_alloced` or `reg_float_alloced`: null, a value, or the mark -1.
pub data RegUse : Type 0 where
  empty : RegUse
  held : ℕ → RegUse
  reserved : RegUse

abbrev pub Mask : Type 0
Mask = ℕ → Bool

abbrev pub is_empty : RegUse → Bool
is_empty empty = true
is_empty (held v) = false
is_empty reserved = false

-- The loop of `first_empty` from the register `n` on; -1 is `none`.
unfoldable pub empty_from : ℕ → List RegUse → Mask → Option ℕ
empty_from n [] allow_mask = none
empty_from n (r ∷ array) allow_mask =
    let rest = empty_from (n + 1) array allow_mask in
    if allow_mask n && is_empty r then some n else rest

abbrev pub or_else : Option ℕ → Option ℕ → Option ℕ
or_else (some n) other = some n
or_else none other = other

-- The first search of a function without calls is only for registers that a call may clobber.
unfoldable pub first_empty : Abi → List RegUse → ℕ → Mask → Bool → Bool → Option ℕ
unfolding empty_from
first_empty abi array len allow_mask does_calls is_float =
    let clobber_mask : Mask = λ n. clobbers abi (if is_float then n + 16 else n) in
    let among = take len array in
    if does_calls
    then empty_from 0 among allow_mask
    else or_else (empty_from 0 among (λ n. allow_mask n && clobber_mask n))
        (empty_from 0 among allow_mask)

unfoldable pub type_is_intreg : IrType → Run Bool
type_is_intreg t = type_size t >>= λ size.
    if ltb 8 size
    then ok false
    else if type_is_agg t
    then ok (not (type_is_float_only_agg t))
    else ok (type_is_int t || type_is_ptr t)

-- The fields of a value for the allocation: `regalloced` with `regalloc`, and whether `spilled` is set.
pub record RegInfo : Type 0 where
  pub regalloced : Bool
  pub regalloc : ℕ
  pub spilled : Bool

abbrev pub reg_at : List RegUse → ℕ → Run RegUse
reg_at [] n = fault Fault.undefined
reg_at (r ∷ array) zero = ok r
reg_at (r ∷ array) (suc n) = reg_at array n

unfoldable pub value_reg_is_thrashed : List RegUse → List RegUse → RegInfo → Run Bool
value_reg_is_thrashed reg_int_alloced reg_float_alloced value =
    let array = if ltb value.regalloc 16 then reg_int_alloced else reg_float_alloced in
    let index = if ltb value.regalloc 16 then value.regalloc else value.regalloc - 16 in
    let tested =
      assert (ltb value.regalloc 32) >> (reg_at array index >>= λ r. ok (not (is_empty r))) in
    if value.regalloced && not value.spilled then tested else ok true

-- `find_spillable`: the first user with a number above the statement's, in the order of the users.
unfoldable pub next_use : (ℕ → ℕ) → ℕ → List ℕ → Option ℕ
next_use num now [] = none
next_use num now (e ∷ edges) =
    let rest = next_use num now edges in if ltb now (num e) then some (num e) else rest

-- The register to spill and the number of its next use, if one was found.
abbrev pub better : Option (ℕ × ℕ) → ℕ → Option ℕ → Option (ℕ × ℕ)
better best n none = best
better none n (some last) = some (n, last)
better (some (reg, num)) n (some last) = if ltb num last then some (n, last) else some (reg, num)

abbrev pub candidate : Heap → (ℕ → ℕ) → ℕ → RegUse → Option ℕ
candidate h num now empty = none
candidate h num now (held v) = next_use num now (h.values v).edges_out
candidate h num now reserved = none

unfoldable pub spillable_from :
    Heap → (ℕ → ℕ) → ℕ → Mask → ℕ → List RegUse → Option (ℕ × ℕ) → Option (ℕ × ℕ)
unfolding next_use
spillable_from h num now allowed_mask n [] best = best
spillable_from h num now allowed_mask n (r ∷ array) best =
    spillable_from h num now allowed_mask (n + 1) array
      (if allowed_mask n then better best n (candidate h num now r) else best)

-- `num` gives the statements' numbers. The call of `find_spillable` starts with no register found.
unfoldable pub find_spillable :
    Heap → (ℕ → ℕ) → ℕ → Bool → List RegUse → List RegUse → Mask → Option (ℕ × ℕ)
unfolding spillable_from
find_spillable h num statement is_int reg_int_alloced reg_float_alloced allowed_mask =
    spillable_from h num (num statement) allowed_mask 0
      (if is_int then reg_int_alloced else reg_float_alloced) none

-- The state of the allocation in a function.
pub record RegState : Type 0 where
  pub reg_int_alloced : List RegUse
  pub reg_float_alloced : List RegUse
  pub info : ℕ → RegInfo

-- `reg_float_alloced[where - _ABI_XMM0] = value` or `reg_int_alloced[where] = value`, and the
-- value's fields.
abbrev pub hold : RegState → ℕ → ℕ → RegState
hold s where' value = record {
  reg_int_alloced =
      if ltb where' 16 then set s.reg_int_alloced where' (held value) else s.reg_int_alloced;
  reg_float_alloced =
      if ltb where' 16
      then s.reg_float_alloced
      else set s.reg_float_alloced (where' - 16) (held value);
  info = update s.info value (record (s.info value) { regalloced = true; regalloc = where' });
}

abbrev pub hold_place : RegState → ℕ → ℤ → Run RegState
hold_place s value (pos where') = ok (hold s where' value)
hold_place s value (negsuc n) = fault assertion

-- The loop of `regalloc_func_args`: an argument without users does not ask for a place.
unfoldable pub func_args_loop : Abi → Heap → AbiState → RegState → List ℕ → Run RegState
func_args_loop abi h a s [] = ok s
func_args_loop abi h a s (value ∷ args) =
    let next = abi_get_next_arg_basic abi (type_is_float (h.values value).type_of) a in
    let skipped = func_args_loop abi h a s args in
    let placed =
      assert (type_is_basic (h.values value).type_of)
      >> (hold_place s value next.0 >>= λ s'. func_args_loop abi h next.1 s' args) in
    if length (h.values value).edges_out == 0 then skipped else placed

unfoldable pub regalloc_func_args : Abi → Heap → RegState → List ℕ → Run RegState
unfolding func_args_loop
regalloc_func_args abi h s args = func_args_loop abi h abi_reset_state s args
