-- ===== src/Ir/Edit.antt =====
-- src/compiler_common.h: the links between statements and the values that they use, and the
-- replacement of a value in a block.
use bbae.Common.{
  ℕ, zero, suc, ◌+◌, Bool, true, false, ◌&&◌, ◌||◌, not, List, [], ◌∷◌, ◌++◌, Option, none, some,
  Run, Fault, ok, fault, assert, ◌>>=◌, ◌>>◌, ◌==◌, if◌then◌else◌, length, get_elem?, set,
}
use bbae.Ir.{ValueVariant, OpVariant, Operand, Heap, update, operands_same}

abbrev pub is_value_op : OpVariant → Bool
is_value_op OpVariant.value_op = true
is_value_op _ = false

-- The kinds of values that keep a list of the statements that use them.
unfoldable pub keeps_edges : ValueVariant → Bool
keeps_edges ValueVariant.arg = true
keeps_edges ValueVariant.ssa = true
keeps_edges ValueVariant.stackaddr = true
keeps_edges ValueVariant.const = false
keeps_edges ValueVariant.invalid = false

unfoldable pub any_operand_same : Heap → List Operand → Operand → Bool
any_operand_same h [] op = false
any_operand_same h (a ∷ args) op = operands_same h a op || any_operand_same h args op

abbrev pub set_edges : Heap → ℕ → List ℕ → Heap
set_edges h v edges = record h {
  values = update h.values v (record (h.values v) { edges_out = edges });
}

unfoldable pub push_edge : Heap → ℕ → Option ℕ → Heap
push_edge h statement none = h
push_edge h statement (some v) =
    if keeps_edges (h.values v).variant
    then set_edges h v ((h.values v).edges_out ++ statement ∷ [])
    else h

unfoldable pub connect_statement_to_operand : Heap → ℕ → Operand → Run Heap
connect_statement_to_operand h statement op =
    assert (any_operand_same h (h.statements statement).args op)
    >> ok (push_edge h statement op.value)

-- The loop of the disconnection: all edges to the statement go, or the first one.
unfoldable pub erase_edges : Bool → ℕ → List ℕ → List ℕ
erase_edges once statement [] = []
erase_edges once statement (e ∷ edges) =
    let rest = erase_edges once statement edges in
    if e == statement then (if once then edges else rest) else e ∷ rest

unfoldable pub cut_edge : Heap → ℕ → Option ℕ → Bool → Run Heap
cut_edge h statement none once = fault Fault.undefined
cut_edge h statement (some v) once =
    ok (set_edges h v (erase_edges once statement (h.values v).edges_out))

unfoldable pub disconnect_statement_from_operand : Heap → ℕ → Operand → Bool → Run Heap
disconnect_statement_from_operand h statement op once =
    if not (is_value_op op.variant) then ok h else cut_edge h statement op.value once

abbrev pub uses_value : ℕ → Operand → Bool
uses_value old op = is_value_op op.variant && is_value old op.value
  where
    is_value : ℕ → Option ℕ → Bool
    is_value old none = false
    is_value old (some v) = v == old

abbrev pub set_args : Heap → ℕ → List Operand → Heap
set_args h s args = record h {
  statements = update h.statements s (record (h.statements s) { args = args });
}

-- The body of the inner loop of `block_replace_statement_val_args`, for the operand `op` at `n`.
unfoldable pub replace_operand : Heap → ℕ → ℕ → Operand → ℕ → ℕ → Run Heap
replace_operand h s n op old new_val =
    if not (uses_value old op)
    then ok h
    else disconnect_statement_from_operand h s op true >>= λ cut.
        let op' = record op { value = some new_val } in
        connect_statement_to_operand (set_args cut s (set (cut.statements s).args n op')) s op'

-- The inner loop, with the number of operands that are left.
unfoldable pub replace_operands : ℕ → Heap → ℕ → ℕ → ℕ → ℕ → Run Heap
replace_operands zero h s n old new_val = ok h
replace_operands (suc left) h s n old new_val =
    at_operand (get_elem? (h.statements s).args n) >>= λ h'.
    replace_operands left h' s (n + 1) old new_val
  where
    at_operand : Option Operand → Run Heap
    at_operand none = fault Fault.undefined
    at_operand (some op) = replace_operand h s n op old new_val

unfoldable pub replace_in_statements : Heap → List ℕ → ℕ → ℕ → Run Heap
replace_in_statements h [] old new_val = ok h
replace_in_statements h (s ∷ statements) old new_val =
    replace_operands (length (h.statements s).args) h s 0 old new_val >>= λ h'.
    replace_in_statements h' statements old new_val

unfoldable pub block_replace_statement_val_args : Heap → ℕ → ℕ → ℕ → Run Heap
block_replace_statement_val_args h block old new_val =
    replace_in_statements h (h.blocks block).statements old new_val
