-- ===== src/Lib.antt =====
-- A verification library for BBAE, a small compiler back end: a textual or built-up SSA program is
-- parsed into blocks of statements, optimised, given registers and emitted as x86-64 code.
--
-- The parts, from the ground up, and the files that model them:
--   * Common: the shared vocabulary. Common/Runs has the result of C code that can stop, at a failed
--     `assert`, at a step that C leaves undefined, or (in the model only) without fuel;
--     Common/Strings has C strings and byte blocks as lists of byte values, Common/Lists lists over
--     native numbers, Common/Bits the arithmetic of `|`.
--   * Types: the types of the IR (src/compiler_common.h: `Type`, `AggData`, `type_is_...`,
--     `type_size`, `types_same`, `size_guess_align`), and in Types/Parse `parse_type`.
--   * Text: the character tests and string helpers of src/memory.h, and the tokenizer and number
--     reader of src/compiler_common.h (`find_next_token`, `find_next_token_anywhere`,
--     `my_strtoull`). A text is the bytes from the cursor to the NUL; a moved cursor is a suffix.
--     Text/Cut has the parts of a text by the tokenizer's own tests, Text/Scan says what they are.
--   * Array: the growable arrays of src/memory.h (`array_erase`, `array_insert`, `array_chop` and so
--     on) on the bytes of a block, and as lists of items (Array/Laws). `realloc` is a parameter.
--   * Buffer: the growing byte buffer of src/buffers.h that receives code. `realloc` is a parameter
--     that says which sizes it serves.
--   * Alloc: src/memory.h, the compiler's allocations and the list through their prefixes. The address
--     that `realloc` of the C library gives is a parameter, and so are the bytes it leaves behind the
--     old ones; Array takes from this part that new bytes are zeros.
--   * Reloc: src/relocation_helpers.h. Emission logs the usages of names; at the end their targets
--     are looked up, by a function that is a parameter, and the distances are written to the code.
--   * Abi: src/x86/abi_x86.h, the argument places and the clobbered registers of the Windows and the
--     System V convention, with the file's three counters as a record.
--   * Ir: the values, operands, statements and blocks of src/compiler_common.h on an explicit heap
--     of addresses, their comparison, and the links from values to the statements that use them,
--     which `block_replace_statement_val_args` (Ir/Edit) keeps up to date, and the output that
--     `add_statement_output` gives a statement (Ir/Output).
--   * Func: functions as lists of blocks (src/compiler_common.h: `Function`, `find_block`), and the
--     connection of branches to blocks and of statements to values in src/bbae_construction.h
--     (`block_edges_connect`, `block_statements_connect`), and the checks `verify_coherency`
--     (Func/Verify) and `validate_links` (Func/Validate).
--   * Construct: src/bbae_construction.h, constants, the values that names stand for
--     (`check_for_redefinition`, `parse_value`), the tables of operations, new arguments
--     (Construct/Add), and the operands that an instruction cannot take (Construct/Legal:
--     `legalize_last_statement_operands`).
--   * Optimize: src/bbae_optimization.h, the sharing of common subexpressions
--     (`optimization_local_CSE`) and, of `optimization_unused_value_removal`, the loop over the
--     statements of a block; `optimization_empty_block_removal` (Optimize/Blocks, Optimize/Forward),
--     which returns the functions with their lists of blocks; Optimize/Pipeline runs the sharing
--     behind the connection of Func.
--   * Regalloc: src/x86/regalloc_x86.h, the choice of registers: `first_empty`, `find_spillable`,
--     `regalloc_func_args`, `regalloc_block_args` (Regalloc/Blocks), the counting of uses, and the
--     rules of instructions (Regalloc/Rules).
--   * Slots: src/x86/bbae_emission_x86.h, `allocate_stack_slots` and the height of the frame.
--   * Shuffle: src/x86/bbae_emission_x86.h, the moves of registers in front of jumps and calls
--     (`do_reg_shuffle`, `reg_shuffle_block_args`, `reg_shuffle_call`); Shuffle/Machine says what a
--     MOV or MOVAPS does to the registers of its class, Shuffle/Jump joins the shuffle to the registers of a block's
--     arguments.
--   * Encode: src/x86/emitter_x86.h, the operands for the encoder and the filling bytes. The numbers
--     of registers and the memory operands of the vendored fadec are parameters.
--   * Statics: the static and global data of a program in src/compiler_common.h, and the names that
--     `make_temp_name` makes up: search by name and by value, the placement of globals.
--
-- Each file opens with the code that it is about; the laws of a part stand in its folder, the runs at
-- concrete inputs in the part's Tests.
--
-- Numbers: a 64-bit word is a natural number with its wrap-around written out; `int64_t`s are words
-- whose upper half is negative. Loops: the doubling of a capacity has 65 rounds of fuel and ends
-- below 2 ^ 63 bytes; the alignment loop has 7, since six doublings reach its cap of 64; the token
-- loop has the room of the static buffer, 4096, which is the source's own bound; the scan over blank
-- lines has as many rounds as there are bytes; the padding before a global has 65, since an alignment
-- is at most 64, and so has that between stack slots; a number is printed with itself as fuel; the
-- sharing in a block has as many rounds as the block has statements, since each round goes on by one
-- statement or takes one out; the recursion of `reg_shuffle_single` has a depth of 32, since every
-- call but the last colours one of the 32 registers; the loop over a function's empty blocks has a
-- round for each block, and the one over a block's edges a round for each of them, which is enough
-- unless the block jumps to itself, where the source may not stop either;
-- `free_all_compiler_allocs` has a round for each block of the list.
--
-- Not modelled: the parser's states and the conversion to block arguments, the cloning of functions,
-- the other optimisations, the spilling and the loop of the register allocation, the choice and encoding of instructions (which the
-- vendored fadec does), the emission of statements, and the memory mapping of the JIT.
pub mod Common
pub mod Types
pub mod Buffer
pub mod Reloc
pub mod Slots
pub mod Shuffle
pub mod Encode
pub mod Abi
pub mod Text
pub mod Array
pub mod Alloc
pub mod Ir
pub mod Func
pub mod Construct
pub mod Optimize
pub mod Statics
pub mod Regalloc
