-- ===== src/Optimize.antt =====
-- src/bbae_optimization.h: common subexpressions are shared inside a block, and statements without
-- use are taken out. A run returns the heap; the passes change it through a block's statements.
pub mod Cse
pub mod Share
pub mod Program
pub mod Pipeline
pub mod Unused
pub mod Removal
pub mod Sweep
pub mod Blocks
pub mod Remap
pub mod Unreached
pub mod Forward
mod Tests
use bbae.Common.{
  ℕ, zero, suc, ◌+◌, ◌-◌, Bool, true, false, ◌||◌, ◌&&◌, not, List, [], ◌∷◌, ◌++◌, Option, none,
  some, Run, Fault, ok, fault, assert, assertion, ◌>>=◌, ◌>>◌, ltb, leb, ◌==◌, if◌then◌else◌,
  length, get_elem?, take, Bytes, codes, str_same,
}
use bbae.Ir.{
  Heap, Value, Operand, Statement, Block, ValueVariant, update, is_null, statement_has_side_effects,
  statements_same,
}
use bbae.Ir.Edit.{disconnect_statement_from_operand, block_replace_statement_val_args}
use bbae.Func.{Function}

-- `array_erase` on a list of pointers.
abbrev pub erase_at : List ℕ → ℕ → List ℕ
erase_at [] i = []
erase_at (x ∷ xs) zero = xs
erase_at (x ∷ xs) (suc i) = x ∷ erase_at xs i

abbrev pub set_statements : Heap → ℕ → List ℕ → Heap
set_statements h b statements = record h {
  blocks = update h.blocks b (record (h.blocks b) { statements = statements });
}

abbrev pub erase_statement : Heap → ℕ → ℕ → Heap
erase_statement h b i = set_statements h b (erase_at (h.blocks b).statements i)

-- Common subexpressions: the loop over the statements before the one in hand.
unfoldable pub find_same : Heap → List ℕ → ℕ → Option ℕ
find_same h [] statement = none
find_same h (prev ∷ before) statement =
    let rest = find_same h before statement in
    if statements_same h prev statement then some prev else rest

-- Two statements that are the same have both an output or none.
abbrev pub share_output : Heap → ℕ → Option ℕ → Option ℕ → Run Heap
share_output h block (some old) (some new_val) =
    block_replace_statement_val_args h block old new_val
share_output h block _ _ = fault Fault.undefined

-- The body of the loop at the statement `i`: the heap, and whether the statement was shared.
abbrev pub share : Heap → ℕ → ℕ → ℕ → Option ℕ → Run (Heap × Bool)
share h block i statement none = ok (h, false)
share h block i statement (some prev) =
    share_output (erase_statement h block i) block (h.statements statement).output
      (h.statements prev).output
    >>= λ h'. ok (h', true)

unfoldable pub cse_at : Heap → ℕ → ℕ → ℕ → Run (Heap × Bool)
cse_at h block i statement =
    if is_null (h.statements statement).output
      || statement_has_side_effects (h.statements statement)
    then ok (h, false)
    else share h block i statement (find_same h (take i (h.blocks block).statements) statement)

abbrev pub cse_step : Heap → ℕ → ℕ → Option ℕ → Run (Heap × Bool)
cse_step h block i none = fault Fault.undefined
cse_step h block i (some statement) = cse_at h block i statement

-- The loop over `i`. Every round goes to the next statement or takes one out, so the number of
-- statements is enough fuel.
unfoldable pub cse_loop : ℕ → Heap → ℕ → ℕ → Run Heap
unfolding cse_at
cse_loop zero h block i =
    if ltb i (length (h.blocks block).statements - 1) then fault Fault.stuck else ok h
cse_loop (suc fuel) h block i =
    let rest = cse_step h block i (get_elem? (h.blocks block).statements i) >>= λ r.
    cse_loop fuel r.0 block (if r.1 then i else i + 1) in
    if ltb i (length (h.blocks block).statements - 1) then rest else ok h

-- A block with at most two statements is left alone.
unfoldable pub cse_block : Heap → ℕ → Run Heap
cse_block h block =
    let n = length (h.blocks block).statements in
    let shared = cse_loop n h block 1 in assert (leb 1 n) >> (if leb n 2 then ok h else shared)

unfoldable pub cse_blocks : Heap → List ℕ → Run Heap
cse_blocks h [] = ok h
cse_blocks h (b ∷ blocks) = cse_block h b >>= λ h'. cse_blocks h' blocks

unfoldable pub optimization_local_cse : Heap → List Function → Run Heap
optimization_local_cse h [] = ok h
optimization_local_cse h (f ∷ functions) =
    cse_blocks h f.blocks >>= λ h'. optimization_local_cse h' functions

-- Values without use: the operands of a statement lose one edge each.
unfoldable pub disconnect_operands : Heap → ℕ → List Operand → Run Heap
disconnect_operands h statement [] = ok h
disconnect_operands h statement (op ∷ args) =
    disconnect_statement_from_operand h statement op true >>= λ h'.
    disconnect_operands h' statement args

-- The statement has an output that nothing uses, and no side effects.
abbrev pub is_unused : Heap → Statement → Option ℕ → Bool
is_unused h a none = false
is_unused h a (some out) =
    length (h.values out).edges_out == 0 && not (statement_has_side_effects a)

abbrev pub can_remove : Heap → ℕ → Bool
can_remove h statement = is_unused h (h.statements statement) (h.statements statement).output

unfoldable pub unused_at : Heap → ℕ → ℕ → ℕ → Run (Heap × Bool)
unused_at h block i statement =
    if can_remove h statement
    then (disconnect_operands h statement (h.statements statement).args >>= λ h'.
        ok (erase_statement h' block i, true))
    else ok (h, false)

abbrev pub unused_step : Heap → ℕ → ℕ → Option ℕ → Run (Heap × Bool)
unused_step h block i none = fault Fault.undefined
unused_step h block i (some statement) = unused_at h block i statement

-- The loop from the statement before `left` down. After a removal `i` is counted down twice, and the
-- statement before the removed one is left for the next round.
unfoldable pub unused_loop : ℕ → Heap → ℕ → Bool → Bool → Run (Heap × Bool)
unused_loop zero h block skip did_work = ok (h, did_work)
unused_loop (suc i) h block skip did_work =
    let visited = unused_step h block i (get_elem? (h.blocks block).statements i) >>= λ r.
    unused_loop i r.0 block r.1 (r.1 || did_work) in
    let skipped = unused_loop i h block false did_work in if skip then skipped else visited

-- The last statement is not looked at.
unfoldable pub unused_block : Heap → ℕ → Bool → Run (Heap × Bool)
unused_block h block did_work =
    let n = length (h.blocks block).statements in
    let loop = unused_loop (n - 1) h block false did_work in
    if ltb 1 n then loop else ok (h, did_work)
