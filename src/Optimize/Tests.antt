-- ===== src/Optimize/Tests.antt =====
-- A block with a common subexpression and a value without use.
use bbae.Common.{
  ◌>>=◌, ℕ, ◌≡◌, refl, List, [], ◌∷◌, Option, none, some, ok, Bytes, codes, ◌==◌, if◌then◌else◌,
  arith, false, Bool, ◌+◌, ◌++◌, fault, Fault,
}
use bbae.Types.{TypeVariant, basic_type}
use bbae.Ir.{Heap, Value, ValueVariant, Operand, Statement, new_op_val, new_op_rawint, new_op_text}
use bbae.Ir.Links.{IsLinked}
use bbae.Func.{Function, block_statements_connect}
use bbae.Optimize.{optimization_local_cse, unused_block}
use bbae.Optimize.Blocks.{remap_args, remove_unreached}
use bbae.Optimize.Remap.{all_pass, bound, remap_args-passes, remap_args-assertion}
use bbae.Optimize.Unreached.{entered, remove_unreached-entered}
use bbae.Ir.Substitute.{mem}
use bbae.Optimize.Program.{Preserved, optimization_local_cse-Preserved}
use bbae.Optimize.Removal.{Removed}
use bbae.Optimize.Cse.{effects}
use bbae.Optimize.Share.{statements_of}
use bbae.Optimize.Pipeline.{connect_and_share-effects}
use bbae.Optimize.Sweep.{IsTidy, unused_block-Removed}

abbrev value_of : ValueVariant → List ℕ → Value
value_of variant edges_out = record {
  variant = variant;
  type_of = basic_type TypeVariant.i64;
  constant = 0;
  ssa = none;
  arg = [];
  slotinfo = none;
  edges_out = edges_out;
}

abbrev statement_of : Bytes → Option ℕ → List Operand → Statement
statement_of name output args = record {
  output_name = none;
  output = output;
  statement_name = name;
  block = some 0;
  args = args;
}

-- x = add a a; y = add a a; store y 8; return
abbrev sums_heap : Heap
sums_heap = record {
  values = λ v.
      if v == 20
      then value_of ValueVariant.arg (1 ∷ 1 ∷ 2 ∷ 2 ∷ [])
      else value_of ValueVariant.ssa (if v == 12 then 3 ∷ [] else []);
  statements = λ s.
      if s == 1
      then statement_of (codes "add") (some 11) (new_op_val 20 ∷ new_op_val 20 ∷ [])
      else if s == 2
      then statement_of (codes "add") (some 12) (new_op_val 20 ∷ new_op_val 20 ∷ [])
      else if s == 3
      then statement_of (codes "store") none (new_op_val 12 ∷ new_op_rawint 8 ∷ [])
      else statement_of (codes "return") none [];
  blocks = λ b. record {
    name = codes "entry";
    args = [];
    edges_in = [];
    statements = 1 ∷ 2 ∷ 3 ∷ 4 ∷ [];
  };
  data_at = λ a. [];
  next = 30;
}

sums_heap-IsLinked : (t : ℕ) → IsLinked sums_heap t
sums_heap-IsLinked t v keeps = ground arith

abbrev one_function : Function
one_function = record {
  name = codes "main";
  return_type = basic_type TypeVariant.i64;
  args = [];
  stack_slots = [];
  blocks = 0 ∷ [];
  entry_block = 0;
}

optimization_local_cse-Preserved_example :
    (h' : Heap) × (optimization_local_cse sums_heap (one_function ∷ []) ≡ ok h')
    × Preserved sums_heap h'
optimization_local_cse-Preserved_example =
    optimization_local_cse-Preserved sums_heap (one_function ∷ []) (
      (
        (
          omega arith,
          (
            sums_heap-IsLinked 1,
            (sums_heap-IsLinked 2, (sums_heap-IsLinked 3, (sums_heap-IsLinked 4, tt))),
          ),
        ),
        tt,
      ),
      tt,
    )

unused_block-Removed_example :
    (r : Heap × Bool) × (unused_block sums_heap 0 false ≡ ok r)
    × Removed 0 sums_heap r.0
    × IsTidy r.0 0
unused_block-Removed_example = unused_block-Removed sums_heap 0 false (
  (refl, (refl, (refl, (refl, tt)))),
  ((refl, (refl, tt)), ((refl, (refl, tt)), ((refl, (refl, tt)), (tt, tt)))),
)

-- The same program before its statements are connected.
abbrev fresh_heap : Heap
fresh_heap = record sums_heap { values = λ v. record (sums_heap.values v) { edges_out = [] } }

connect_and_share-effects_example :
    (h' : Heap) × ((block_statements_connect fresh_heap (one_function ∷ []) >>= λ c.
    optimization_local_cse c (one_function ∷ []))
      ≡ ok h')
    × (effects fresh_heap (statements_of h' 0) ≡ effects fresh_heap (statements_of fresh_heap 0))
    × IsLinked h' 3
connect_and_share-effects_example =
    connect_and_share-effects fresh_heap (one_function ∷ []) 3 0 (λ t v. refl)
      ((((tt, (tt, tt)), ((tt, (tt, tt)), ((tt, (refl, tt)), (tt, tt)))), tt), tt)
      (((omega arith, (refl, (refl, (refl, (refl, tt))))), tt), tt) refl

-- The block 1 takes 40 and 41, and is only a goto that passes them on the other way round.
abbrev swapped : List Operand
swapped = new_op_val 41 ∷ new_op_val 40 ∷ []

abbrev jump_operands : List Operand
jump_operands = new_op_val 20 ∷ new_op_rawint 7 ∷ []

remap_args-passes_example :
    (ops : List Operand) × (remap_args
        (40 ∷ 41 ∷ [])
        (new_op_text (codes "end") ∷ swapped)
        jump_operands
      ≡ ok (new_op_text (codes "end") ∷ ops))
    × (all_pass (λ op. op.rawint) (λ v. v + 100) ops
        ≡ all_pass
            (λ op. op.rawint)
            (bound
              (λ v. v + 100)
              (40 ∷ 41 ∷ [])
              (all_pass (λ op. op.rawint) (λ v. v + 100) jump_operands))
            swapped)
remap_args-passes_example =
    remap_args-passes (λ op. op.rawint) (λ v. v + 100) (40 ∷ 41 ∷ []) (new_op_text (codes "end"))
      swapped jump_operands ((41, refl, refl), ((40, refl, refl), tt)) (omega arith)
      (refl, (refl, tt))

remap_args-assertion_example :
    remap_args
      (40 ∷ 41 ∷ [])
      (new_op_text (codes "end") ∷ ((new_op_val 41 ∷ []) ++ new_op_val 20 ∷ []))
      jump_operands
    ≡ fault Fault.assertion
remap_args-assertion_example =
    remap_args-assertion (40 ∷ 41 ∷ []) (new_op_text (codes "end")) (new_op_val 41 ∷ [])
      (new_op_val 20) [] jump_operands ((41, refl, refl), tt) (omega arith) (refl, (refl, tt))
      (λ v e. other v e)
  where
    other : (v : ℕ) → some 20 ≡ some v → mem v (40 ∷ 41 ∷ []) ≡ false
    other v e = let same : 20 ≡ v = cc in rw (← same) refl

-- The block 1 jumps to itself only, the statement 1 in the block 0 to the block 2.
abbrev three_blocks : Heap
three_blocks = record sums_heap {
  blocks = λ b. record {
    name = codes "entry";
    args = [];
    edges_in = if b == 1 then 9 ∷ 9 ∷ [] else if b == 2 then 9 ∷ 1 ∷ [] else [];
    statements = [];
  };
  statements = λ s. record (sums_heap.statements s) { block = if s == 9 then some 1 else some 0 };
}

remove_unreached-entered_example :
    remove_unreached three_blocks (0 ∷ 1 ∷ 2 ∷ 3 ∷ []) ≡ 0 ∷ entered three_blocks (1 ∷ 2 ∷ 3 ∷ [])
remove_unreached-entered_example = remove_unreached-entered three_blocks 0 (1 ∷ 2 ∷ 3 ∷ [])

unreached_runs : remove_unreached three_blocks (0 ∷ 1 ∷ 2 ∷ 3 ∷ []) ≡ 0 ∷ 2 ∷ []
unfolding remove_unreached
unreached_runs = refl
