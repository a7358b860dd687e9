-- ===== src/Shuffle.antt =====
-- src/x86/bbae_emission_x86.h: the moves of registers in front of a jump or a call. Registers are
-- numbered 0 to 15 (base) and 16 to 31 (floating point).
pub mod Machine
pub mod Steps
pub mod Turn
pub mod Single
pub mod Loop
pub mod Pairs
pub mod Calls
pub mod Jump
pub mod Arguments
mod Tests
use bbae.Common.{
  ℕ, zero, suc, ◌+◌, ◌^◌, Bool, true, false, ◌||◌, List, [], ◌∷◌, ◌++◌, Option, none, some, Run,
  Fault, ok, fault, assert, ◌>>=◌, ◌>>◌, ltb, leb, ◌==◌, if◌then◌else◌,
}
use bbae.Common.Int.{ℤ, pos, negsuc}
use bbae.Types.{type_is_float, type_is_basic}
use bbae.Ir.{Heap, Value, ValueVariant, Operand, update}
use bbae.Abi.{Abi, AbiState, abi_get_next_arg_basic, abi_reset_state}
use bbae.Regalloc.{RegInfo}

pub data Inst : Type 0 where
  mov movaps : Inst

-- A call `enc_emit_2(code, inst, enc_reg(dst, 8), enc_reg(src, 8))`.
pub record Move : Type 0 where
  pub inst : Inst
  pub dst : ℕ
  pub src : ℕ

-- `in2out` gives the target for a source, -1 is `none`.
pub record Shuffle : Type 0 where
  pub code : List Move
  pub in2out : ℕ → Option ℕ
  pub in2out_color : ℕ → ℕ

-- `REG_R15`
abbrev pub r15 : ℕ
r15 = 15

-- `REG_R11` and `REG_XMM5`
abbrev pub scratch_int : ℕ
scratch_int = 11

abbrev pub scratch_float : ℕ
scratch_float = 21

abbrev pub scratch : ℕ → ℕ
scratch reg = if leb reg r15 then scratch_int else scratch_float

-- The move between two registers, by the class of one of them.
abbrev pub move_for : ℕ → ℕ → ℕ → Move
move_for reg to from = record { inst = if leb reg r15 then mov else movaps; dst = to; src = from }

abbrev pub emit : Move → Shuffle → Shuffle
emit move s = record s { code = s.code ++ move ∷ [] }

-- `in2out[from] = -1`
abbrev pub unmap : ℕ → Shuffle → Shuffle
unmap from s = record s { in2out = update s.in2out from none }

abbrev pub paint : ℕ → ℕ → Shuffle → Shuffle
paint reg color s = record s { in2out_color = update s.in2out_color reg color }

-- A read of the 32 entries.
abbrev pub entry : (ℕ → Option ℕ) → ℕ → Run (Option ℕ)
entry in2out reg = if ltb reg 32 then ok (in2out reg) else fault Fault.undefined

-- The move into a register that is on a cycle; its old value goes to the temporary register.
unfoldable pub close_cycle : ℕ → ℕ → Shuffle → Shuffle
close_cycle from to s =
    paint to 2 (unmap from (emit (move_for to to from) (emit (move_for to (scratch to) to) s)))

-- After the recursive call: out of the temporary register at the end of the cycle.
unfoldable pub move_after : ℕ → ℕ → Shuffle → Shuffle
move_after from to s =
    unmap from (emit (move_for from to (if s.in2out_color from == 2 then scratch from else from)) s)

-- The three cases of `reg_shuffle_single`, by the target's own entry. `again` is the recursive call.
unfoldable pub shuffle_to : (Shuffle → ℕ → Run Shuffle) → Shuffle → ℕ → ℕ → Option ℕ → Run Shuffle
unfolding close_cycle move_after
shuffle_to again s from to none = ok (unmap from (emit (move_for from to from) s))
shuffle_to again s from to (some next) =
    if s.in2out_color to == 0
    then (again (paint from 1 s) to >>= λ s'. ok (move_after from to s'))
    else ok (close_cycle from to s)

unfoldable pub shuffle_from : (Shuffle → ℕ → Run Shuffle) → Shuffle → ℕ → Option ℕ → Run Shuffle
unfolding shuffle_to
shuffle_from again s from none = fault Fault.undefined
shuffle_from again s from (some to) = entry s.in2out to >>= shuffle_to again s from to

-- On fuel, for the depth of the recursion.
unfoldable pub reg_shuffle_single : ℕ → Shuffle → ℕ → Run Shuffle
unfolding shuffle_from
reg_shuffle_single zero s from = fault Fault.stuck
reg_shuffle_single (suc fuel) s from =
    entry s.in2out from >>= shuffle_from (reg_shuffle_single fuel) s from

-- A depth of 32 is enough, since every call but the last paints a register.
unfoldable pub shuffle_one : Shuffle → ℕ → Option ℕ → Run Shuffle
unfolding reg_shuffle_single
shuffle_one s from none = ok s
shuffle_one s from (some to) = reg_shuffle_single 32 s from

-- The rounds that are left, from the register `from` on.
unfoldable pub shuffle_loop : ℕ → ℕ → Shuffle → Run Shuffle
unfolding shuffle_one
shuffle_loop zero from s = ok s
shuffle_loop (suc rounds) from s =
    shuffle_one s from (s.in2out from) >>= shuffle_loop rounds (from + 1)

unfoldable pub do_reg_shuffle : Shuffle → Run Shuffle
unfolding shuffle_loop
do_reg_shuffle s = shuffle_loop 32 0 s

abbrev pub not_const : ValueVariant → Bool
not_const ValueVariant.const = false
not_const v = true

abbrev pub is_ssa_or_arg : ValueVariant → Bool
is_ssa_or_arg ValueVariant.ssa = true
is_ssa_or_arg ValueVariant.arg = true
is_ssa_or_arg v = false

-- The three assertions on a value's register. `(int64_t)regalloc >= 0` is the second.
abbrev pub in_register : RegInfo → Run (Unit {0})
in_register r =
    assert r.regalloced >> assert (ltb r.regalloc (2 ^ 63)) >> assert (ltb r.regalloc 32)

abbrev pub given : Option ℕ → Run ℕ
given none = fault Fault.assertion
given (some v) = ok v

-- `in2out[from] = to`, but where no move is needed.
abbrev pub map_reg : (ℕ → Option ℕ) → ℕ → ℕ → ℕ → Option ℕ
map_reg in2out from to = if to == from then in2out else update in2out from (some to)

-- The loop of `reg_shuffle_block_args` over the block's arguments and the operands; reading an
-- operand that is not there is undefined.
unfoldable pub map_block_args :
    Heap → (ℕ → RegInfo) → List ℕ → List Operand → (ℕ → Option ℕ) → Run (ℕ → Option ℕ)
map_block_args h info [] args in2out = ok in2out
map_block_args h info (to ∷ block_args) [] in2out = fault Fault.undefined
map_block_args h info (to ∷ block_args) (op ∷ args) in2out = given op.value >>= λ value.
    assert (not_const (h.values value).variant)
    >> assert (is_ssa_or_arg (h.values value).variant)
    >> in_register (info to)
    >> in_register (info value)
    >> map_block_args h info block_args args
        (map_reg in2out (info value).regalloc (info to).regalloc)

abbrev pub begin_shuffle : List Move → (ℕ → Option ℕ) → Shuffle
begin_shuffle code in2out = record { code = code; in2out = in2out; in2out_color = λ reg. 0 }

-- The code goes on with the moves.
unfoldable pub reg_shuffle_block_args :
    Heap → (ℕ → RegInfo) → List Move → List ℕ → List Operand → Run (List Move)
unfolding map_block_args do_reg_shuffle
reg_shuffle_block_args h info code block_args args =
    map_block_args h info block_args args (λ reg. none) >>= λ in2out.
    do_reg_shuffle (begin_shuffle code in2out) >>= λ s. ok s.code

-- `where >= 0`
abbrev pub on_register : ℤ → Run ℕ
on_register (pos n) = ok n
on_register (negsuc n) = fault Fault.assertion

-- The loop of `reg_shuffle_call` over the operands behind the first.
unfoldable pub map_call_args :
    Abi → Heap → (ℕ → RegInfo) → AbiState → List Operand → (ℕ → Option ℕ) → Run (ℕ → Option ℕ)
map_call_args abi h info a [] in2out = ok in2out
map_call_args abi h info a (op ∷ args) in2out = given op.value >>= λ value.
    assert (not_const (h.values value).variant)
    >> assert (is_ssa_or_arg (h.values value).variant)
    >> in_register (info value)
    >> assert (type_is_basic (h.values value).type_of)
    >> let next = abi_get_next_arg_basic abi (type_is_float (h.values value).type_of) a in
      on_register next.0 >>= λ to.
      map_call_args abi h info next.1 args (map_reg in2out (info value).regalloc to)

abbrev pub behind_first : List Operand → List Operand
behind_first [] = []
behind_first (callee ∷ args) = args

unfoldable pub reg_shuffle_call :
    Abi → Heap → (ℕ → RegInfo) → List Move → List Operand → Run (List Move)
unfolding map_call_args do_reg_shuffle
reg_shuffle_call abi h info code args =
    map_call_args abi h info abi_reset_state (behind_first args) (λ reg. none) >>= λ in2out.
    do_reg_shuffle (begin_shuffle code in2out) >>= λ s. ok s.code
