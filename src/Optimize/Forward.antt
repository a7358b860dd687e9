-- ===== src/Optimize/Forward.antt =====
-- src/bbae_optimization.h: the second loop of `optimization_empty_block_removal`, which makes the jumps
-- to a block of a single `goto` go to that one's target, and the pass as a whole.
use bbae.Common.{
  ℕ, zero, suc, ◌+◌, ◌-◌, Bool, true, false, List, [], ◌∷◌, Option, none, some, Run, Fault, ok,
  fault, assert, assertion, ◌>>=◌, ◌>>◌, ltb, ◌==◌, if◌then◌else◌, length, get_elem?, set, codes,
  str_same,
}
use bbae.Ir.{Heap, Operand}
use bbae.Ir.Edit.{disconnect_statement_from_operand}
use bbae.Func.{
  Function, find_block, find_separator_index, set_edges_in, block_edges_disconnect,
  block_edges_connect,
}
use bbae.Optimize.{erase_at}
use bbae.Optimize.Blocks.{is_text, operand_at, behind_label, remap_args_span, remove_unreached}

abbrev pub one_more : Option ℕ → Option ℕ
one_more none = none
one_more (some i) = some (i + 1)

-- The search for the edge; -1 is `none`.
unfoldable pub edge_index : List ℕ → ℕ → Option ℕ
edge_index [] exit = none
edge_index (s ∷ edges) exit =
    let rest = edge_index edges exit in if s == exit then some 0 else one_more rest

abbrev pub asserted {ℓ} : {A : Type ℓ} → Option A → Run A
asserted none = fault assertion
asserted (some a) = ok a

abbrev pub insert_edge : List ℕ → ℕ → ℕ → Run (List ℕ)
insert_edge edges zero s = ok (s ∷ edges)
insert_edge [] (suc i) s = fault Fault.undefined
insert_edge (e ∷ edges) (suc i) s = insert_edge edges i s >>= λ rest. ok (e ∷ rest)

-- `target_block->edges_in[index] = entry`
abbrev pub write_edge : Heap → ℕ → ℕ → ℕ → Heap
write_edge h target index entry = set_edges_in h target (set (h.blocks target).edges_in index entry)

-- The second branch of an `if` takes an edge of its own where the first one took the exit's.
abbrev pub edge_for : Bool → Heap → ℕ → ℕ → ℕ → Run Heap
edge_for false h target index entry = ok (write_edge h target index entry)
edge_for true h target index entry =
    insert_edge (h.blocks target).edges_in index entry >>= λ edges. ok (set_edges_in h target edges)

unfoldable pub forward_goto : Heap → ℕ → ℕ → ℕ → ℕ → ℕ → Run Heap
forward_goto h block exit target index entry = do
  let args = (h.statements entry).args
  label ← operand_at args 0
  assert (str_same label.text (h.blocks block).name)
  assert (length (h.blocks block).args == length args - 1)
  h' ← remap_args_span h (h.blocks block).args (h.statements exit).args entry 0
  ok (write_edge h' target index entry)

-- One branch of an `if`, with its label at `at`; the answer says whether it went to the block.
abbrev pub forward_branch : Bool → Heap → ℕ → ℕ → ℕ → ℕ → ℕ → ℕ → Run (Heap × Bool)
forward_branch filled h block exit target index entry at =
    operand_at (h.statements entry).args at >>= λ label.
    assert (is_text label.variant)
    >> (if str_same label.text (h.blocks block).name
        then (remap_args_span h (h.blocks block).args (h.statements exit).args entry at >>= λ h'.
            edge_for filled h' target index entry >>= λ h''. ok (h'', true))
        else ok (h, filled))

unfoldable pub forward_if : Heap → ℕ → ℕ → ℕ → ℕ → ℕ → Run Heap
forward_if h block exit target index entry = do
  first_separator ← asserted (find_separator_index (h.statements entry).args)
  first ← forward_branch false h block exit target index entry 1
  separator_index ← asserted (find_separator_index (first.0.statements entry).args)
  second ← forward_branch first.1 first.0 block exit target index entry (separator_index + 1)
  ok second.0

unfoldable pub forward_entry : Heap → ℕ → ℕ → ℕ → ℕ → ℕ → Run Heap
unfolding forward_goto forward_if
forward_entry h block exit target index entry =
    (if str_same (h.statements entry).statement_name (codes "goto")
      then forward_goto h block exit target index entry
      else ok h)
    >>= λ h'.
        if str_same (h'.statements entry).statement_name (codes "if")
        then forward_if h' block exit target index entry
        else ok h'

abbrev pub found_edge : Option ℕ → Run ℕ
found_edge none = fault Fault.undefined
found_edge (some s) = ok s

-- The loop over the block's edges, read anew in every round. If the target is another block, they do
-- not change and their number is enough fuel; if it is the block itself, the source may never stop.
unfoldable pub forward_entries : ℕ → Heap → ℕ → ℕ → ℕ → ℕ → ℕ → Run Heap
unfolding forward_entry
forward_entries zero h block exit target index i =
    if ltb i (length (h.blocks block).edges_in) then fault Fault.stuck else ok h
forward_entries (suc fuel) h block exit target index i =
    let rest = found_edge (get_elem? (h.blocks block).edges_in i) >>= λ entry.
    forward_entry h block exit target index entry >>= λ h'.
    forward_entries fuel h' block exit target index (i + 1) in
    if ltb i (length (h.blocks block).edges_in) then rest else ok h

-- `disconnect_statement_from_operand` with all edges, for the operands behind the label.
unfoldable pub disconnect_all : Heap → ℕ → List Operand → Run Heap
disconnect_all h exit [] = ok h
disconnect_all h exit (op ∷ args) =
    disconnect_statement_from_operand h exit op false >>= λ h'. disconnect_all h' exit args

-- A block of a single `goto` at the place `b`: the heap, and the list of blocks without it.
unfoldable pub forward_block : Heap → List ℕ → ℕ → ℕ → ℕ → Run (Heap × List ℕ)
unfolding edge_index disconnect_all forward_entries
forward_block h blocks b block exit = do
  label ← operand_at (h.statements exit).args 0
  target ← asserted (find_block h blocks label.text)
  index ← asserted (edge_index (h.blocks target).edges_in exit)
  cut ← disconnect_all h exit (behind_label (h.statements exit).args)
  h' ← forward_entries (length (cut.blocks block).edges_in) cut block exit target index 0
  ok (h', erase_at blocks b)

abbrev pub empty_at : Heap → List ℕ → ℕ → ℕ → List ℕ → Run (Heap × List ℕ)
empty_at h blocks b block [] = fault assertion
empty_at h blocks b block (exit ∷ []) =
    if str_same (h.statements exit).statement_name (codes "goto")
    then forward_block h blocks b block exit
    else ok (h, blocks)
empty_at h blocks b block (s ∷ t ∷ statements) = ok (h, blocks)

abbrev pub empty_block : Heap → List ℕ → ℕ → Option ℕ → Run (Heap × List ℕ)
empty_block h blocks b none = fault Fault.undefined
empty_block h blocks b (some block) = empty_at h blocks b block (h.blocks block).statements

-- The loop over `b`; it goes on behind a block that was taken out. Every round counts `b` up and the list
-- never grows, so the number of blocks is enough fuel.
unfoldable pub forward_loop : ℕ → Heap → List ℕ → ℕ → Run (Heap × List ℕ)
unfolding forward_block
forward_loop zero h blocks b = if ltb b (length blocks) then fault Fault.stuck else ok (h, blocks)
forward_loop (suc fuel) h blocks b =
    let rest =
      empty_block h blocks b (get_elem? blocks b) >>= λ r. forward_loop fuel r.0 r.1 (b + 1) in
    if ltb b (length blocks) then rest else ok (h, blocks)

unfoldable pub forward_functions : Heap → List Function → Run (Heap × List Function)
unfolding forward_loop
forward_functions h [] = ok (h, [])
forward_functions h (f ∷ functions) = forward_loop (length f.blocks) h f.blocks 1 >>= λ r.
    forward_functions r.0 functions >>= λ rest. ok (rest.0, record f { blocks = r.1 } ∷ rest.1)

abbrev pub prune_functions : Heap → List Function → List Function
prune_functions h [] = []
prune_functions h (f ∷ functions) =
    record f { blocks = remove_unreached h f.blocks } ∷ prune_functions h functions

-- `_block_edges_fix`
unfoldable pub block_edges_fix : Heap → List Function → Run Heap
block_edges_fix h functions = block_edges_connect (block_edges_disconnect h functions) functions

unfoldable pub optimization_empty_block_removal : Heap → List Function → Run (Heap × List Function)
unfolding forward_functions block_edges_fix
optimization_empty_block_removal h functions =
    forward_functions h (prune_functions h functions) >>= λ r.
    block_edges_fix r.0 r.1 >>= λ h'. ok (h', r.1)
