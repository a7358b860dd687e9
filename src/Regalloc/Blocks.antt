-- ===== src/Regalloc/Blocks.antt =====
-- src/x86/regalloc_x86.h: `regalloc_block_args`, the registers of a block's arguments. The source
-- compares the label of an `if` with the block's name by address; whether the operand at an index of a
-- statement has the very string of the block's name is a parameter.
use bbae.Common.{
  ℕ, ◌+◌, Bool, true, false, not, List, [], ◌∷◌, Option, none, some, Run, Fault, ok, fault, assert,
  assertion, ◌>>=◌, ◌>>◌, ltb, ◌==◌, if◌then◌else◌, length, codes, str_same, get_elem?,
}
use bbae.Types.{type_is_float}
use bbae.Ir.{Heap, Operand}
use bbae.Func.{find_separator_index}
use bbae.Abi.{Abi}
use bbae.Regalloc.{RegState, first_empty, type_is_intreg, value_reg_is_thrashed, hold}

abbrev pub of_value : Option ℕ → Run ℕ
of_value none = fault assertion
of_value (some v) = ok v

-- `op.value`, where null fails the assertion; reading an operand that is not there is undefined.
abbrev pub op_value : Option Operand → Run ℕ
op_value none = fault Fault.undefined
op_value (some op) = of_value op.value

-- The register of the operand at an index, if it is free.
abbrev pub reg_of_operand : RegState → List Operand → ℕ → Run (Option ℕ)
reg_of_operand s args n = op_value (get_elem? args n) >>= λ v.
    value_reg_is_thrashed s.reg_int_alloced s.reg_float_alloced (s.info v) >>= λ thrashed.
    ok (if thrashed then none else some (s.info v).regalloc)

-- The place of the second label; without a separator the index -1 wraps around.
abbrev pub second_label : Option ℕ → ℕ
second_label none = 0
second_label (some p) = p + 1

abbrev pub is_zero : Option ℕ → Bool
is_zero none = false
is_zero (some p) = p == 0

abbrev pub or_second : Option ℕ → Run (Option ℕ) → Run (Option ℕ)
or_second (some r) second = ok (some r)
or_second none second = second

abbrev pub if_same : Bool → Run (Option ℕ) → Run (Option ℕ)
if_same true reg = reg
if_same false reg = ok none

module _ (abi : Abi) (performs_calls : Bool) (same_text : ℕ → ℕ → Bool) (h : Heap) where
  -- The register that the jump gives the argument number `i`.
  unfoldable pub reg_of_entry : RegState → ℕ → ℕ → Run (Option ℕ)
  reg_of_entry s i entry =
      let args = (h.statements entry).args in
      let name = (h.statements entry).statement_name in
      let separator_pos = find_separator_index args in
      let at = second_label separator_pos in
      if str_same name (codes "goto")
      then reg_of_operand s args (i + 1)
      else if str_same name (codes "if")
      then (if_same (same_text entry 1) (reg_of_operand s args (i + 2)) >>= λ first.
          or_second first (
            assert (not (is_zero separator_pos))
            >> if_same (same_text entry at)
                (assert (ltb (i + at + 1) (length args)) >> reg_of_operand s args (i + at + 1))))
      else fault assertion

  unfoldable pub reg_of_entries : RegState → ℕ → List ℕ → Run (Option ℕ)
  unfolding reg_of_entry
  reg_of_entries s i [] = ok none
  reg_of_entries s i (entry ∷ edges) =
      reg_of_entry s i entry >>= λ found. or_second found (reg_of_entries s i edges)

  abbrev pub add_sixteen : Option ℕ → Option ℕ
  add_sixteen none = none
  add_sixteen (some n) = some (n + 16)

  -- Any free register for the type.
  unfoldable pub reg_for_type : RegState → ℕ → Run (Option ℕ)
  reg_for_type s value = type_is_intreg (h.values value).type_of >>= λ is_int.
      if is_int
      then ok (first_empty abi s.reg_int_alloced 16 (λ n. ltb n 16) performs_calls false)
      else if type_is_float (h.values value).type_of
      then ok
          (add_sixteen (first_empty abi s.reg_float_alloced 16 (λ n. ltb n 16) performs_calls true))
      else fault assertion

  -- `where`, which must not be -1.
  abbrev pub where_found : Option ℕ → Run ℕ
  where_found none = fault assertion
  where_found (some r) = ok r

  unfoldable pub reg_of_block_arg : RegState → ℕ → List ℕ → ℕ → Run ℕ
  unfolding reg_of_entries reg_for_type
  reg_of_block_arg s i edges value =
      reg_of_entries s i edges >>= λ found. or_second found (reg_for_type s value) >>= where_found

  unfoldable pub block_args_loop : RegState → ℕ → List ℕ → List ℕ → Run RegState
  unfolding reg_of_block_arg
  block_args_loop s i edges [] = ok s
  block_args_loop s i edges (value ∷ args) = reg_of_block_arg s i edges value >>= λ reg.
      block_args_loop (hold s reg value) (i + 1) edges args

  unfoldable pub regalloc_block_args : RegState → ℕ → Run RegState
  unfolding block_args_loop
  regalloc_block_args s block = block_args_loop s 0 (h.blocks block).edges_in (h.blocks block).args
