-- ===== src/Optimize/Blocks.antt =====
-- src/bbae_optimization.h: `optimization_empty_block_removal`. The lists of blocks are part of the
-- functions, so the pass returns these with the heap.
use bbae.Common.{
  ℕ, zero, suc, ◌+◌, ◌-◌, Bool, true, false, List, [], ◌∷◌, Option, none, some, Run, Fault, ok,
  fault, assert, assertion, ◌>>=◌, ◌>>◌, ltb, ◌==◌, if◌then◌else◌, length, get_elem?, set, drop,
}
use bbae.Ir.{Heap, Operand, OpVariant}
use bbae.Ir.Edit.{set_args, connect_statement_to_operand, disconnect_statement_from_operand}
use bbae.Func.{is_separator}
use bbae.Optimize.{erase_at}

abbrev pub is_address : Option ℕ → ℕ → Bool
is_address none b = false
is_address (some a) b = a == b

-- The inner loop of `_remap_args`: the operand at the place of the block argument that the value is.
unfoldable pub entry_for : Option ℕ → List ℕ → List Operand → Run (Option Operand)
entry_for value [] entry_args = ok none
entry_for value (arg ∷ block_args) [] =
    let rest = entry_for value block_args [] in
    if is_address value arg then fault Fault.undefined else rest
entry_for value (arg ∷ block_args) (op ∷ entry_args) =
    let rest = entry_for value block_args entry_args in
    if is_address value arg then ok (some op) else rest

-- The comparison with the separator that stands for no operand; all separators are the same.
abbrev pub remapped : Option Operand → Run Operand
remapped none = fault assertion
remapped (some op) = if is_separator op.variant then fault assertion else ok op

-- `_remap_args`: the label, and the operands behind it.
unfoldable pub remap_operands : List ℕ → List Operand → List Operand → Run (List Operand)
unfolding entry_for
remap_operands block_args [] entry_args = ok []
remap_operands block_args (exit_op ∷ exit_args) entry_args =
    entry_for exit_op.value block_args entry_args >>= remapped >>= λ op.
    remap_operands block_args exit_args entry_args >>= λ ops. ok (op ∷ ops)

unfoldable pub remap_args : List ℕ → List Operand → List Operand → Run (List Operand)
unfolding remap_operands
remap_args block_args [] entry_args = fault assertion
remap_args block_args (label ∷ exit_args) entry_args =
    remap_operands block_args exit_args entry_args >>= λ ops. ok (label ∷ ops)

abbrev pub count_arguments : List Operand → ℕ
count_arguments [] = 0
count_arguments (op ∷ args) =
    let rest = count_arguments args in if is_separator op.variant then 0 else rest + 1

abbrev pub erase_operand : List Operand → ℕ → List Operand
erase_operand [] i = []
erase_operand (op ∷ args) zero = args
erase_operand (op ∷ args) (suc i) = op ∷ erase_operand args i

-- `array_insert`; a place behind the end is out of bounds.
abbrev pub insert_operand : List Operand → ℕ → Operand → Run (List Operand)
insert_operand args zero op = ok (op ∷ args)
insert_operand [] (suc i) op = fault Fault.undefined
insert_operand (a ∷ args) (suc i) op = insert_operand args i op >>= λ rest. ok (a ∷ rest)

abbrev pub operand_at : List Operand → ℕ → Run Operand
operand_at [] i = fault Fault.undefined
operand_at (op ∷ args) zero = ok op
operand_at (op ∷ args) (suc i) = operand_at args i

-- The first loop of `_remap_args_span`, with the rounds that are left.
unfoldable pub cut_operands : ℕ → Heap → ℕ → ℕ → Run Heap
cut_operands zero h entry offset = ok h
cut_operands (suc left) h entry offset = operand_at (h.statements entry).args offset >>= λ op.
    disconnect_statement_from_operand h entry op true >>= λ h'.
    cut_operands left (set_args h' entry (erase_operand (h'.statements entry).args offset)) entry
      offset

-- The second loop, over the operands behind the label.
unfoldable pub put_operands : Heap → ℕ → ℕ → List Operand → Run Heap
put_operands h entry at [] = ok h
put_operands h entry at (op ∷ ops) = insert_operand (h.statements entry).args at op >>= λ args.
    connect_statement_to_operand (set_args h entry args) entry op >>= λ h'.
    put_operands h' entry (at + 1) ops

abbrev pub is_text : OpVariant → Bool
is_text OpVariant.text_op = true
is_text _ = false

abbrev pub label_of : List Operand → Run Operand
label_of [] = fault Fault.undefined
label_of (label ∷ ops) = ok label

abbrev pub behind_label : List Operand → List Operand
behind_label [] = []
behind_label (label ∷ ops) = ops

unfoldable pub remap_args_span : Heap → List ℕ → List Operand → ℕ → ℕ → Run Heap
unfolding remap_args cut_operands put_operands
remap_args_span h block_args exit_args entry entry_label_offset =
    let args = (h.statements entry).args in
    let offset = entry_label_offset + 1 in
    assert (count_arguments (drop offset args) == length block_args)
    >> (remap_args block_args exit_args (drop offset args) >>= λ args_copy.
        label_of args_copy >>= λ label.
        assert (is_text label.variant)
        >> assert (length exit_args == length args_copy)
        >> (cut_operands (length block_args) (set_args h entry (set args entry_label_offset label))
              entry offset
            >>= λ h'. put_operands h' entry offset (behind_label args_copy)))

-- First loop: nothing but the block itself jumps to it, or nothing at all.
unfoldable pub only_itself : Heap → ℕ → List ℕ → Bool
only_itself h block [] = true
only_itself h block (s ∷ edges) =
    let rest = only_itself h block edges in
    if is_address (h.statements s).block block then rest else false

abbrev pub is_unreached : Heap → ℕ → Bool
is_unreached h block =
    let edges = (h.blocks block).edges_in in
    if length edges == 0 then true else only_itself h block edges

abbrev pub erase_unreached : Heap → List ℕ → ℕ → Option ℕ → List ℕ
erase_unreached h blocks b none = blocks
erase_unreached h blocks b (some block) = if is_unreached h block then erase_at blocks b else blocks

-- From the last block down; the first is not looked at. `b` is always in range.
unfoldable pub unreached_loop : Heap → ℕ → List ℕ → List ℕ
unfolding only_itself
unreached_loop h zero blocks = blocks
unreached_loop h (suc b) blocks =
    unreached_loop h b (erase_unreached h blocks (suc b) (get_elem? blocks (suc b)))

unfoldable pub remove_unreached : Heap → List ℕ → List ℕ
unfolding unreached_loop
remove_unreached h blocks =
    let n = length blocks in
    let looped = unreached_loop h (n - 1) blocks in if ltb n 2 then blocks else looped
