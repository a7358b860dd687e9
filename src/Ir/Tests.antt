-- ===== src/Ir/Tests.antt =====
-- Runs of the operations on statements and values at concrete inputs.
use bbae.Common.{Bytes, ℕ, ◌≡◌, List, [], ◌∷◌, none, some, ok, codes, arith, ◌==◌, if◌then◌else◌}
use bbae.Types.{TypeVariant, basic_type}
use bbae.Ir.{Heap, Value, ValueVariant, Operand, Statement, new_op_val, new_op_rawint}
use bbae.Ir.Edit.{block_replace_statement_val_args}
use bbae.Ir.Links.{IsLinked}
use bbae.Ir.Substitute.{Substituted, block_replace_statement_val_args-Substituted}

abbrev value_used_by : List ℕ → Value
value_used_by edges_out = record {
  variant = ValueVariant.ssa;
  type_of = basic_type TypeVariant.i64;
  constant = 0;
  ssa = none;
  arg = [];
  slotinfo = none;
  edges_out = edges_out;
}

abbrev statement_of : List Operand → Statement
statement_of args = record {
  output_name = none;
  output = none;
  statement_name = codes "store";
  block = some 0;
  args = args;
}

-- The statement 1 uses the value 10 twice, and the value 11 is unused.
abbrev small_heap : Heap
small_heap = record {
  values = λ v. value_used_by (if v == 10 then 1 ∷ 1 ∷ [] else []);
  statements = λ s.
      statement_of (if s == 1 then new_op_val 10 ∷ new_op_rawint 8 ∷ new_op_val 10 ∷ [] else []);
  blocks = λ b. record { name = codes "entry"; args = []; edges_in = []; statements = 1 ∷ 2 ∷ [] };
  data_at = λ a. [];
  next = 12;
}

small_heap-IsLinked : (t : ℕ) → IsLinked small_heap t
small_heap-IsLinked t v keeps = ground arith

block_replace_statement_val_args-Substituted_example :
    (h' : Heap) × (block_replace_statement_val_args small_heap 0 10 11 ≡ ok h')
    × Substituted (1 ∷ 2 ∷ []) 10 11 small_heap h'
block_replace_statement_val_args-Substituted_example =
    block_replace_statement_val_args-Substituted 10 11 small_heap 0
      (small_heap-IsLinked 1, (small_heap-IsLinked 2, tt))

-- The statement `x = call_eval f`, and a conversion of the value 10.
abbrev call_heap : Bytes → Heap
call_heap name = record small_heap {
  statements = λ s. record (statement_of (new_op_val 10 ∷ [])) {
    output_name = some (codes "x");
    statement_name = name;
  };
}

-- Every statement adds the value 10 to itself, with an output of its own.
abbrev sum_heap : Heap
sum_heap = record small_heap {
  statements = λ s. record (statement_of (new_op_val 10 ∷ new_op_val 10 ∷ [])) {
    output = some s;
    statement_name = codes "add";
  };
}
