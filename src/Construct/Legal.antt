-- ===== src/Construct/Legal.antt =====
-- src/bbae_construction.h: `legalize_last_statement_operands` puts a mov before the last statement of
-- a block for every operand that the instruction cannot take.
use bbae.Common.{
  ℕ, zero, suc, ◌+◌, ◌-◌, Bool, true, false, ◌&&◌, not, List, [], ◌∷◌, ◌++◌, Option, none, some,
  Run, Fault, ok, fault, ◌>>=◌, if◌then◌else◌, length, get_elem?, set, take, min, Bytes, codes,
}
use bbae.Ir.{Heap, ValueVariant, Operand, OpVariant, update, empty_op}
use bbae.Ir.Edit.{set_args}
use bbae.Ir.Output.{add_statement_output, is_one_of}
use bbae.Statics.{make_temp_name}
use bbae.Optimize.{set_statements}
use bbae.Regalloc.Uses.{is_const}
use bbae.Regalloc.Imm.{ImmOpsAllowed, imm_op_rule_determiner}
use bbae.Construct.{is_stackaddr}

-- The new statement `mov op` with a made-up name, at a new address.
abbrev pub put_mov : Heap → ℕ → ℕ → Operand → Heap
put_mov h temp_ctr block op = record h {
  statements = update h.statements h.next (record {
    output_name = some (make_temp_name temp_ctr).0;
    output = none;
    statement_name = codes "mov";
    block = some block;
    args = op ∷ [];
  });
  next = h.next + 1;
}

-- The output of the mov takes the operand's place, and the mov stands before the statement.
abbrev pub swap_in : Heap → ℕ → ℕ → ℕ → ℕ → Heap
swap_in h block statement i s =
    let op : Operand = record empty_op {
      variant = OpVariant.value_op;
      value = (h.statements s).output;
    } in
    let statements = (h.blocks block).statements in
    set_statements (set_args h statement (set (h.statements statement).args i op)) block
      (take (length statements - 1) statements ++ s ∷ statement ∷ [])

unfoldable pub move_operand : Heap → ℕ → ℕ → ℕ → ℕ → Operand → Run (Heap × ℕ)
unfolding add_statement_output make_temp_name
move_operand h temp_ctr block statement i op =
    add_statement_output (put_mov h temp_ctr block op) h.next >>= λ h'.
    ok (swap_in h' block statement i h.next, (make_temp_name temp_ctr).1)

abbrev pub is_kind : (ValueVariant → Bool) → Heap → Option ℕ → Bool
is_kind kind h none = false
is_kind kind h (some v) = kind (h.values v).variant

-- Both loops over the operands, from `i` on: those of the kind that the test singles out are moved.
unfoldable pub move_loop :
    (ℕ → Bool) → (ValueVariant → Bool) → ℕ → Heap → ℕ → ℕ → ℕ → ℕ → Run (Heap × ℕ)
unfolding move_operand
move_loop test kind zero h temp_ctr block statement i = ok (h, temp_ctr)
move_loop test kind (suc left) h temp_ctr block statement i =
    at_operand (get_elem? (h.statements statement).args i) >>= λ r.
    move_loop test kind left r.0 r.1 block statement (i + 1)
  where
    at_operand : Option Operand → Run (Heap × ℕ)
    at_operand none = fault Fault.undefined
    at_operand (some op) =
        let moved = move_operand h temp_ctr block statement i op in
        if test i && is_kind kind h op.value then moved else ok (h, temp_ctr)

abbrev pub last_of : List ℕ → Option ℕ
last_of [] = none
last_of (s ∷ []) = some s
last_of (s ∷ t ∷ statements) = last_of (t ∷ statements)

abbrev pub takes_slots : List Bytes
takes_slots = codes "load" ∷ codes "store" ∷ codes "mov" ∷ []

-- Whether the rules forbid a constant as the operand `i`.
abbrev pub is_forbidden : ImmOpsAllowed → ℕ → Bool
is_forbidden [] i = false
is_forbidden (allowed ∷ rules) zero = not allowed
is_forbidden (allowed ∷ rules) (suc i) = is_forbidden rules i

abbrev pub legalize_constants : Heap → ℕ → ℕ → ℕ → Run (Heap × ℕ)
legalize_constants h temp_ctr block statement =
    imm_op_rule_determiner h (h.statements statement) >>= λ rules.
    move_loop (is_forbidden rules) is_const (min 8 (length (h.statements statement).args)) h
      temp_ctr block statement 0

abbrev pub legalize_slots : Heap → ℕ → ℕ → ℕ → Run (Heap × ℕ)
legalize_slots h temp_ctr block statement =
    let count = length (h.statements statement).args in
    let moved = move_loop (λ i. true) is_stackaddr count h temp_ctr block statement 0 in
    if is_one_of (h.statements statement).statement_name takes_slots
    then ok (h, temp_ctr)
    else moved

abbrev pub legalize_last : Heap → ℕ → ℕ → Option ℕ → Run (Heap × ℕ)
legalize_last h temp_ctr block none = ok (h, temp_ctr)
legalize_last h temp_ctr block (some statement) =
    legalize_slots h temp_ctr block statement >>= λ r. legalize_constants r.0 r.1 block statement

unfoldable pub legalize_last_statement_operands : Heap → ℕ → ℕ → Run (Heap × ℕ)
unfolding move_loop imm_op_rule_determiner is_one_of
legalize_last_statement_operands h temp_ctr block =
    legalize_last h temp_ctr block (last_of (h.blocks block).statements)

unfoldable pub block_append_statement : Heap → ℕ → ℕ → ℕ → Run (Heap × ℕ)
unfolding add_statement_output legalize_last_statement_operands
block_append_statement h temp_ctr block statement = add_statement_output h statement >>= λ h'.
    let placed : Heap = record h' {
      statements =
          update h'.statements statement (record (h'.statements statement) { block = some block });
    } in
    legalize_last_statement_operands
      (set_statements placed block ((placed.blocks block).statements ++ statement ∷ [])) temp_ctr
      block
