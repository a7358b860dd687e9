-- ===== src/Regalloc/Tests.antt =====
-- Runs of the register allocation at concrete inputs.
use bbae.Common.{
  str_same, ℕ, ◌≡◌, ◌≢◌, refl, ◌⊎◌, true, false, List, [], ◌∷◌, none, some, ok, take, codes, ◌==◌,
  if◌then◌else◌, arith,
}
use bbae.Types.{
  type_size, type_is_int, type_is_agg, type_is_ptr, TypeVariant, basic_type, type_is_basic,
  type_is_float,
}
use bbae.Ir.{Heap, Value, ValueVariant, new_op_val, new_op_text}
use bbae.Ir.Substitute.{mem}
use bbae.Abi.{Abi, arg_places, abi_reset_state, abi_get_next_arg_basic}
use bbae.Regalloc.{
  RegUse, RegState, Mask, first_empty, find_spillable, regalloc_func_args, hold,
  value_reg_is_thrashed, type_is_intreg,
}
use bbae.Regalloc.Blocks.{regalloc_block_args}
use bbae.Regalloc.Held.{HoldsFree, regalloc_block_args-HoldsFree}
use bbae.Regalloc.Empty.{IsLowest, preferred, first_empty-IsLowest}
use bbae.Regalloc.Spill.{IsFurthest, find_spillable-IsFurthest}
use bbae.Regalloc.Args.{HavePlaces, used_args, floats_of, regalloc_func_args-HavePlaces}
use bbae.Regalloc.Uses.{UseCounts, increment_operand_uses_early, increment_operand_uses_late}
use bbae.Regalloc.Count.{Counted, increment_operand_uses-Counted}

abbrev value_of : TypeVariant → List ℕ → Value
value_of variant edges_out = record {
  variant = ValueVariant.arg;
  type_of = basic_type variant;
  constant = 0;
  ssa = none;
  arg = [];
  slotinfo = none;
  edges_out = edges_out;
}

-- The statement 1 is x = div a a, of the argument 10; the argument 11 has no users, and 12 is a float.
abbrev division : Heap
division = record {
  values = λ v.
      if v == 12
      then value_of TypeVariant.f64 (3 ∷ [])
      else value_of TypeVariant.i64 (if v == 10 then 1 ∷ 1 ∷ 4 ∷ [] else []);
  statements = λ s. record {
    output_name = some (codes "x");
    output = some 20;
    statement_name = codes "div";
    block = some 0;
    args = new_op_val 10 ∷ new_op_val 10 ∷ [];
  };
  blocks = λ b. record { name = codes "entry"; args = []; edges_in = []; statements = 1 ∷ [] };
  data_at = λ a. [];
  next = 30;
}

abbrev registers : List RegUse
registers = RegUse.held 10 ∷ RegUse.reserved ∷ RegUse.empty ∷ RegUse.held 12 ∷ []

abbrev everything : Mask
everything n = true

abbrev first_state : RegState
first_state = record {
  reg_int_alloced = registers;
  reg_float_alloced = registers;
  info = λ v. record { regalloced = false; regalloc = 0; spilled = false };
}

first_empty-IsLowest_example :
    let found = first_empty Abi.win registers 16 everything true false in
    ((true ≡ true) × IsLowest everything (take 16 registers) found)
    ⊎ ((true ≡ false)
        × (found ≢ none)
        × IsLowest (preferred Abi.win everything false) (take 16 registers) found)
    ⊎ ((true ≡ false)
        × IsLowest (preferred Abi.win everything false) (take 16 registers) none
        × IsLowest everything (take 16 registers) found)
first_empty-IsLowest_example = first_empty-IsLowest Abi.win registers 16 everything true false

find_spillable-IsFurthest_example :
    IsFurthest division
      (λ s. s)
      2
      everything
      (if true then registers else registers)
      (find_spillable division (λ s. s) 2 true registers registers everything)
find_spillable-IsFurthest_example =
    find_spillable-IsFurthest division (λ s. s) 2 true registers registers everything

-- The unused argument 11 takes no register: 12, the third one, gets XMM1, the second.
regalloc_func_args-HavePlaces_example :
    (s' : RegState) × (regalloc_func_args Abi.win division first_state (10 ∷ 11 ∷ 12 ∷ []) ≡ ok s')
    × HavePlaces s'.info (used_args division (10 ∷ 11 ∷ 12 ∷ [])) (
        arg_places Abi.win
          (floats_of division (used_args division (10 ∷ 11 ∷ 12 ∷ [])))
          abi_reset_state)
    × ((v : ℕ) → mem v (10 ∷ 11 ∷ 12 ∷ []) ≡ false → s'.info v ≡ first_state.info v)
unfolding type_is_basic type_is_float arg_places abi_get_next_arg_basic
regalloc_func_args-HavePlaces_example =
    regalloc_func_args-HavePlaces Abi.win division first_state (10 ∷ 11 ∷ 12 ∷ [])
      (refl, (refl, (refl, tt))) (refl, (refl, (refl, tt))) tt

increment_operand_uses-Counted_example :
    (c₁ : UseCounts) × (c₂ : UseCounts) × (increment_operand_uses_early division (λ v. 0) 1 ≡ ok c₁)
    × (increment_operand_uses_late division c₁ 1 ≡ ok c₂)
    × Counted division (division.statements 1).args (λ v. 0) c₂
increment_operand_uses-Counted_example =
    increment_operand_uses-Counted division (λ v. 0) 1 (refl, (refl, tt)) (λ v pos. ground arith)

-- The block takes 30 and 31; the goto passes 12, which is in the free register 2, and 11.
abbrev looping : Heap
looping = record division {
  blocks =
      λ b. record { name = codes "loop"; args = 30 ∷ 31 ∷ []; edges_in = 5 ∷ []; statements = [] };
  statements = λ s. record {
    output_name = none;
    output = none;
    statement_name = codes "goto";
    block = some 0;
    args = new_op_text (codes "loop") ∷ new_op_val 12 ∷ new_op_val 11 ∷ [];
  };
}

abbrev one_free : RegState
one_free = record {
  reg_int_alloced =
      RegUse.held 10 ∷ RegUse.reserved ∷ RegUse.empty ∷ RegUse.held 12 ∷ RegUse.empty ∷ [];
  reg_float_alloced = [];
  info = λ v. record { regalloced = v == 12; regalloc = 2; spilled = false };
}

regalloc_block_args-HoldsFree_example :
    HoldsFree (30 ∷ 31 ∷ []) one_free (hold (hold one_free 2 30) 4 31)
unfolding regalloc_block_args value_reg_is_thrashed type_is_intreg first_empty type_size type_is_agg
    type_is_int type_is_ptr str_same
regalloc_block_args-HoldsFree_example =
    regalloc_block_args-HoldsFree Abi.sysv true (λ s n. false) looping one_free
      (hold (hold one_free 2 30) 4 31) 0 (refl, (refl, tt)) refl
