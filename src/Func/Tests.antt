-- ===== src/Func/Tests.antt =====
-- A program whose statements are connected.
use bbae.Common.{◌↔◌, ◌≡◌, refl, [], ◌∷◌, none, some, ok, codes, ◌==◌, if◌then◌else◌, All, true}
use bbae.Types.{TypeVariant, basic_type}
use bbae.Ir.{Heap, Value, ValueVariant, new_op_val, new_op_rawint}
use bbae.Ir.Links.{IsLinked}
use bbae.Func.{Function, block_statements_connect}
use bbae.Func.Verify.{verify_coherency}
use bbae.Func.Coherent.{AreCoherent, verify_coherency_iff}
use bbae.Func.Validate.{validate_links}
use bbae.Func.Validated.{AreValid, validate_links_iff}
use bbae.Func.Program.{block_statements_connect-IsLinked}

abbrev unused_value : Value
unused_value = record {
  variant = ValueVariant.ssa;
  type_of = basic_type TypeVariant.i64;
  constant = 0;
  ssa = none;
  arg = [];
  slotinfo = none;
  edges_out = [];
}

-- The statement 1 uses the value 10 twice.
abbrev unlinked_heap : Heap
unlinked_heap = record {
  values = λ v. unused_value;
  statements = λ s. record {
    output_name = none;
    output = none;
    statement_name = codes "store";
    block = some 0;
    args = if s == 1 then new_op_val 10 ∷ new_op_rawint 8 ∷ new_op_val 10 ∷ [] else [];
  };
  blocks = λ b. record { name = codes "entry"; args = []; edges_in = []; statements = 1 ∷ 2 ∷ [] };
  data_at = λ a. [];
  next = 12;
}

abbrev one_function : Function
one_function = record {
  name = codes "main";
  return_type = basic_type TypeVariant.i64;
  args = [];
  stack_slots = [];
  blocks = 0 ∷ [];
  entry_block = 0;
}

block_statements_connect-IsLinked_example :
    (h' : Heap) × (block_statements_connect unlinked_heap (one_function ∷ []) ≡ ok h')
    × (h'.statements ≡ unlinked_heap.statements)
    × (h'.blocks ≡ unlinked_heap.blocks)
    × IsLinked h' 1
block_statements_connect-IsLinked_example =
    block_statements_connect-IsLinked unlinked_heap (one_function ∷ []) 1 (λ t v. refl)
      ((((tt, (refl, (tt, tt))), (tt, tt)), tt), tt) refl

verify_coherency_iff_example :
    (verify_coherency unlinked_heap (one_function ∷ []) ≡ ok tt)
    ↔ AreCoherent unlinked_heap (one_function ∷ [])
verify_coherency_iff_example = verify_coherency_iff unlinked_heap (one_function ∷ [])

validate_links_iff_example :
    (validate_links unlinked_heap (one_function ∷ []) ≡ ok tt)
    ↔ All (λ (f : Function). AreValid unlinked_heap f true f.blocks) (one_function ∷ [])
validate_links_iff_example = validate_links_iff unlinked_heap (one_function ∷ [])
