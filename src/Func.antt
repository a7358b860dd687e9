-- ===== src/Func.antt =====
-- src/compiler_common.h and src/bbae_construction.h: functions as lists of blocks, the search for a
-- block, and the edges between blocks and between statements and values.
pub mod Connect
pub mod Program
pub mod Verify
pub mod Coherent
pub mod Validate
pub mod Search
pub mod Validated
mod Tests
use bbae.Common.{
  ℕ, zero, suc, ◌+◌, Bool, true, false, ◌&&◌, ◌||◌, not, List, [], ◌∷◌, ◌++◌, Option, none, some,
  Run, Fault, ok, fault, assertion, assert, ◌>>=◌, ◌>>◌, ◌==◌, if◌then◌else◌, Bytes, codes,
  str_same, length, get_elem?, drop,
}
use bbae.Types.{IrType, types_same, ◌is_variant◌, void}
use bbae.Ir.{Heap, Value, Operand, OpVariant, Statement, Block, update}
use bbae.Ir.Edit.{connect_statement_to_operand}

-- The fields of `Function` for the back end's later passes are left out.
pub record Function : Type 0 where
  pub name : Bytes
  pub return_type : IrType
  pub args : List ℕ
  pub stack_slots : List ℕ
  pub blocks : List ℕ
  pub entry_block : ℕ

-- The loop of `find_block` over the blocks.
unfoldable pub find_block : Heap → List ℕ → Bytes → Option ℕ
find_block h [] name = none
find_block h (b ∷ blocks) name =
    let rest = find_block h blocks name in if str_same (h.blocks b).name name then some b else rest

abbrev pub is_separator : OpVariant → Bool
is_separator OpVariant.separator = true
is_separator _ = false

unfoldable pub separator_from : ℕ → List Operand → Option ℕ
separator_from i [] = none
separator_from i (a ∷ args) =
    let rest = separator_from (i + 1) args in if is_separator a.variant then some i else rest

-- The search starts behind the condition and the label.
unfoldable pub find_separator_index : List Operand → Option ℕ
find_separator_index args = separator_from 2 (drop 2 args)

abbrev pub set_edges_in : Heap → ℕ → List ℕ → Heap
set_edges_in h b edges = record h {
  blocks = update h.blocks b (record (h.blocks b) { edges_in = edges });
}

-- `block_edges_disconnect`, for the blocks of one function but the first.
unfoldable pub clear_edges : Heap → List ℕ → Heap
clear_edges h [] = h
clear_edges h (b ∷ blocks) = clear_edges (set_edges_in h b []) blocks

unfoldable pub block_edges_disconnect : Heap → List Function → Heap
unfolding clear_edges
block_edges_disconnect h [] = h
block_edges_disconnect h (f ∷ functions) =
    block_edges_disconnect (clear_edges h (drop 1 f.blocks)) functions

-- A jump from the statement to the block of the operand's label. A null label fails the assertion;
-- the model's labels are never null.
abbrev pub push_edge_in : Heap → ℕ → Option ℕ → Run Heap
push_edge_in h s none = fault assertion
push_edge_in h s (some target) = ok (set_edges_in h target ((h.blocks target).edges_in ++ s ∷ []))

abbrev pub jump_to : Heap → List ℕ → ℕ → Option Operand → Run Heap
jump_to h blocks s none = fault Fault.undefined
jump_to h blocks s (some op) = push_edge_in h s (find_block h blocks op.text)

-- The assertion `statement->block`.
abbrev pub has_block : Option ℕ → Bool
has_block none = false
has_block (some b) = true

abbrev pub connect_goto : Heap → List ℕ → ℕ → Statement → Run Heap
connect_goto h blocks s a = do assert (has_block a.block); jump_to h blocks s (get_elem? a.args 0)

abbrev pub jump_else : Heap → List ℕ → ℕ → List Operand → Option ℕ → Run Heap
jump_else h blocks s args none = fault assertion
jump_else h blocks s args (some at) = jump_to h blocks s (get_elem? args (at + 1))

abbrev pub connect_if : Heap → List ℕ → ℕ → Statement → Run Heap
connect_if h blocks s a = do
  assert (has_block a.block)
  h' ← jump_to h blocks s (get_elem? a.args 1)
  jump_else h' blocks s a.args (find_separator_index a.args)

-- The body of the inner loop of `block_edges_connect`.
unfoldable pub connect_jump : Heap → List ℕ → ℕ → Run Heap
unfolding find_separator_index
connect_jump h blocks s =
    if str_same (h.statements s).statement_name (codes "goto")
    then connect_goto h blocks s (h.statements s)
    else if str_same (h.statements s).statement_name (codes "if")
    then connect_if h blocks s (h.statements s)
    else ok h

unfoldable pub connect_jumps : Heap → List ℕ → List ℕ → Run Heap
connect_jumps h blocks [] = ok h
connect_jumps h blocks (s ∷ statements) =
    connect_jump h blocks s >>= λ h'. connect_jumps h' blocks statements

unfoldable pub connect_blocks : Heap → List ℕ → List ℕ → Run Heap
connect_blocks h all [] = ok h
connect_blocks h all (b ∷ blocks) =
    connect_jumps h all (h.blocks b).statements >>= λ h'. connect_blocks h' all blocks

unfoldable pub block_edges_connect : Heap → List Function → Run Heap
block_edges_connect h [] = ok h
block_edges_connect h (f ∷ functions) =
    connect_blocks h f.blocks f.blocks >>= λ h'. block_edges_connect h' functions

-- `block_statements_connect`: the operands of a statement, the statements of a block, the blocks of
-- a function, and the functions. Connecting changes no list that a loop runs over.
unfoldable pub connect_operands : Heap → ℕ → List Operand → Run Heap
connect_operands h s [] = ok h
connect_operands h s (op ∷ args) =
    connect_statement_to_operand h s op >>= λ h'. connect_operands h' s args

unfoldable pub connect_statements : Heap → List ℕ → Run Heap
connect_statements h [] = ok h
connect_statements h (s ∷ statements) =
    connect_operands h s (h.statements s).args >>= λ h'. connect_statements h' statements

unfoldable pub connect_in_blocks : Heap → List ℕ → Run Heap
connect_in_blocks h [] = ok h
connect_in_blocks h (b ∷ blocks) =
    connect_statements h (h.blocks b).statements >>= λ h'. connect_in_blocks h' blocks

unfoldable pub block_statements_connect : Heap → List Function → Run Heap
block_statements_connect h [] = ok h
block_statements_connect h (f ∷ functions) =
    connect_in_blocks h f.blocks >>= λ h'. block_statements_connect h' functions
