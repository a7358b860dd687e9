-- ===== src/Construct/Tests.antt =====
-- Runs of the construction of the IR at concrete inputs.
use bbae.Common.{
  arith, Option, zero, suc, ◌<◌, ◌&&◌, length, get_elem?, ap, sym, inr, ℕ, ◌+◌, ◌≡◌, refl, false,
  [], ◌∷◌, none, some, ok, Bytes, codes, str_same, ◌==◌, if◌then◌else◌,
}
use bbae.Types.{TypeVariant, basic_type}
use bbae.Ir.{Operand, OpVariant, new_op_val, Heap, Value, ValueVariant}
use bbae.Func.{Function}
use bbae.Slots.{StackSlot}
use bbae.Construct.{check_for_redefinition, lookup_value, named_arg, named_slot, named_statement}
use bbae.Construct.Legal.{legalize_constants, is_forbidden, is_kind}
use bbae.Construct.Legalized.{ArePlain}
use bbae.Construct.Constants.{legalize_constants-allowed}
use bbae.Regalloc.Imm.{imm_op_rule_determiner, not_first}
use bbae.Regalloc.Uses.{is_const}
use bbae.Ir.Output.{is_one_of}
use bbae.Construct.Scope.{push_statement, lookup_value-push_statement}

abbrev value_of : ValueVariant → Bytes → Value
value_of variant name = record {
  variant = variant;
  type_of = basic_type TypeVariant.i64;
  constant = 0;
  ssa = none;
  arg = name;
  slotinfo = some 0;
  edges_out = [];
}

-- The argument `a` of the function is the value 10, the slot `s` the value 11; the statement 1 of the
-- block 0 puts out `x`, and the statement 2, which is not in the block yet, puts out `y`.
abbrev names : Heap
names = record {
  values = λ v.
      if v == 10 then value_of ValueVariant.arg (codes "a") else value_of ValueVariant.stackaddr [];
  statements = λ s. record {
    output_name = some (if s == 1 then codes "x" else if s == 2 then codes "y" else codes "a");
    output = some (s + 20);
    statement_name = codes "mov";
    block = some 0;
    args = [];
  };
  blocks = λ b. record { name = codes "entry"; args = []; edges_in = []; statements = 1 ∷ [] };
  data_at = λ a. [];
  next = 40;
}

abbrev one_slot : ℕ → StackSlot
one_slot a = record { name = codes "s"; size = 8; offset = 0 }

abbrev one_function : Function
one_function = record {
  name = codes "main";
  return_type = basic_type TypeVariant.i64;
  args = 10 ∷ [];
  stack_slots = 11 ∷ [];
  blocks = 0 ∷ [];
  entry_block = 0;
}

lookup_value-push_statement_example :
    lookup_value one_slot (push_statement names 0 2) one_function 0 (codes "y") ≡ ok 22
unfolding check_for_redefinition named_arg named_slot named_statement str_same
lookup_value-push_statement_example =
    lookup_value-push_statement one_slot names one_function 0 2 22 (codes "y") refl (λ e. refl) refl
      refl

-- In the entry block a function's argument is not found by `check_for_redefinition`, but by
-- `parse_value`: the output `a` of the statement 3 would be lost behind the argument `a`.
argument_missed : check_for_redefinition one_slot names one_function (some 0) (codes "a") ≡ ok false
unfolding check_for_redefinition named_arg named_slot named_statement str_same
argument_missed = refl

argument_first : lookup_value one_slot (push_statement names 0 3) one_function 0 (codes "a") ≡ ok 10
unfolding lookup_value named_arg named_slot named_statement str_same
argument_first = refl

-- x = add 8 y: the constant 8 is the value 10.
abbrev constant_first : Heap
constant_first = record names {
  values = λ v. value_of (if v == 10 then ValueVariant.const else ValueVariant.ssa) [];
  statements = λ s. record {
    output_name = some (codes "x");
    output = some 12;
    statement_name = codes "add";
    block = some 0;
    args = new_op_val 10 ∷ new_op_val 11 ∷ [];
  };
}

constant_first-ArePlain : ArePlain constant_first 1
constant_first-ArePlain zero op e = inr (ap variant_or (sym e))
  where
    variant_or : Option Operand → OpVariant
    variant_or none = OpVariant.value_op
    variant_or (some op) = op.variant
constant_first-ArePlain (suc zero) op e = inr (ap variant_or (sym e))
  where
    variant_or : Option Operand → OpVariant
    variant_or none = OpVariant.value_op
    variant_or (some op) = op.variant
constant_first-ArePlain (suc (suc k)) op e = cc

legalize_constants-allowed_example :
    (r : Heap × ℕ) × (legalize_constants constant_first 0 0 1 ≡ ok r)
    × (length (r.0.statements 1).args ≡ length (constant_first.statements 1).args)
    × ((k : ℕ) (op : Operand)
        → k < 8
        → get_elem? (r.0.statements 1).args k ≡ some op
        → is_forbidden not_first k && is_kind is_const r.0 op.value ≡ false)
unfolding imm_op_rule_determiner is_one_of str_same
legalize_constants-allowed_example =
    legalize_constants-allowed constant_first 0 0 1 not_first refl (omega arith)
      constant_first-ArePlain
