-- ===== src/Shuffle/Tests.antt =====
-- Shuffles at concrete inputs.
use bbae.Common.{
  ℕ, ◌≡◌, ◌≢◌, refl, true, false, List, [], ◌∷◌, none, ok, All, arith, if◌then◌else◌, ltb, ◌-◌, ◌+◌,
  ◌<◌,
}
use bbae.Types.{
  TypeVariant, basic_type, type_is_basic, type_is_float, type_size, type_is_agg, type_is_int,
  type_is_ptr,
}
use bbae.Ir.{Heap, ValueVariant, Operand, new_op_val, new_op_text}
use bbae.Abi.{sysv, arg_places, abi_get_next_arg_basic}
use bbae.Regalloc.{
  RegInfo, RegState, RegUse, hold, value_reg_is_thrashed, type_is_intreg, first_empty,
}
use bbae.Regalloc.Blocks.{regalloc_block_args}
use bbae.Shuffle.Jump.{regalloc_then_shuffle-Received}
use bbae.Shuffle.{Move, mov, movaps, reg_shuffle_block_args, reg_shuffle_call}
use bbae.Shuffle.Machine.{exec}
use bbae.Shuffle.Pairs.{targets, Received}
use bbae.Shuffle.Arguments.{IsMovable, block_moves, reg_shuffle_block_args-Received}
use bbae.Shuffle.Calls.{passed, reg_shuffle_call-Received}

-- The value v is in the register v - 10, and from 40 on in the register v - 40; from 26 on it is a float.
abbrev objects : Heap
objects = record {
  values = λ v. record {
    variant = ValueVariant.ssa;
    type_of = basic_type (if ltb v 26 then TypeVariant.i64 else TypeVariant.f64);
    constant = 0;
    ssa = none;
    arg = [];
    slotinfo = none;
    edges_out = [];
  };
  statements = λ s. record {
    output_name = none;
    output = none;
    statement_name = [];
    block = none;
    args = [];
  };
  blocks = λ b. record { name = []; args = []; edges_in = []; statements = [] };
  data_at = λ a. [];
  next = 80;
}

abbrev placed : ℕ → RegInfo
placed v = record {
  regalloced = true;
  regalloc = if ltb v 42 then v - 10 else v - 42;
  spilled = false;
}

-- The registers 0 and 1 swap, 3 goes to 2, 2 to 5, and the float register 16 to 18.
abbrev jump_args : List Operand
jump_args = new_op_val 10 ∷ new_op_val 11 ∷ new_op_val 13 ∷ new_op_val 12 ∷ new_op_val 26 ∷ []

abbrev jump_targets : List ℕ
jump_targets = 43 ∷ 42 ∷ 44 ∷ 47 ∷ 60 ∷ []

jump_runs :
    reg_shuffle_block_args objects placed [] jump_targets jump_args
    ≡ ok (
        record { inst = mov; dst = 11; src = 0 }
        ∷ record { inst = mov; dst = 0; src = 1 }
        ∷ record { inst = mov; dst = 1; src = 11 }
        ∷ record { inst = mov; dst = 5; src = 2 }
        ∷ record { inst = mov; dst = 2; src = 3 }
        ∷ record { inst = movaps; dst = 18; src = 16 }
        ∷ [])
unfolding reg_shuffle_block_args
jump_runs = refl

movable : (v : ℕ) → (placed v).regalloc < 32 → IsMovable objects placed (new_op_val v)
movable v lt = (v, refl, refl, (refl, lt))

reg_shuffle_block_args-Received_example :
    (code' : List Move) × (reg_shuffle_block_args objects placed [] jump_targets jump_args
      ≡ ok code')
    × Received
        (exec [] (λ r. r + 100))
        (exec code' (λ r. r + 100))
        (block_moves placed jump_targets jump_args)
    × ((z : ℕ)
        → z ≢ 11
        → z ≢ 21
        → All (λ y. z ≢ y) (targets (block_moves placed jump_targets jump_args))
        → exec code' (λ r. r + 100) z ≡ exec [] (λ r. r + 100) z)
reg_shuffle_block_args-Received_example =
    reg_shuffle_block_args-Received objects placed [] jump_targets jump_args (λ r. r + 100)
      (
        movable 10 (omega arith),
        (refl, omega arith),
        (
          movable 11 (omega arith),
          (refl, omega arith),
          (
            movable 13 (omega arith),
            (refl, omega arith),
            (
              movable 12 (omega arith),
              (refl, omega arith),
              (movable 26 (omega arith), (refl, omega arith), tt),
            ),
          ),
        ),
      )
      (omega arith) (omega arith)
      (
        (omega arith, omega arith, refl),
        (
          (omega arith, omega arith, refl),
          (
            (omega arith, omega arith, refl),
            ((omega arith, omega arith, refl), ((omega arith, omega arith, refl), tt)),
          ),
        ),
      )

-- The arguments are in R8, RDI and XMM0, and go to RDI, RSI and XMM0.
abbrev passed_args : List Operand
passed_args = new_op_val 18 ∷ new_op_val 17 ∷ new_op_val 26 ∷ []

abbrev call_args : List Operand
call_args = new_op_text [] ∷ passed_args

call_runs :
    reg_shuffle_call sysv objects placed [] call_args
    ≡ ok (record { inst = mov; dst = 6; src = 7 } ∷ record { inst = mov; dst = 7; src = 8 } ∷ [])
unfolding reg_shuffle_call abi_get_next_arg_basic type_is_basic type_is_float
call_runs = refl

reg_shuffle_call-Received_example :
    (code' : List Move) × (reg_shuffle_call sysv objects placed [] call_args ≡ ok code')
    × Received
        (exec [] (λ r. r + 100))
        (exec code' (λ r. r + 100))
        (passed sysv objects placed passed_args)
    × ((z : ℕ)
        → z ≢ 11
        → z ≢ 21
        → All (λ y. z ≢ y) (targets (passed sysv objects placed passed_args))
        → exec code' (λ r. r + 100) z ≡ exec [] (λ r. r + 100) z)
unfolding arg_places abi_get_next_arg_basic type_is_basic type_is_float
reg_shuffle_call-Received_example =
    reg_shuffle_call-Received sysv objects placed [] (new_op_text []) passed_args (λ r. r + 100)
      (
        movable 18 (omega arith),
        refl,
        (movable 17 (omega arith), refl, (movable 26 (omega arith), refl, tt)),
      )
      (omega arith) (omega arith)
      (
        (omega arith, omega arith, refl),
        ((omega arith, omega arith, refl), ((omega arith, omega arith, refl), tt)),
      )

-- The same value for two arguments of the block: the second entry replaces the first.
lost_move :
    reg_shuffle_block_args objects placed [] (42 ∷ 43 ∷ []) (new_op_val 12 ∷ new_op_val 12 ∷ [])
    ≡ ok (record { inst = mov; dst = 1; src = 2 } ∷ [])
unfolding reg_shuffle_block_args
lost_move = refl

-- A block with two float arguments, which get XMM0 and XMM1; a jump to it passes XMM3 and XMM2.
abbrev float_block : Heap
float_block = record objects {
  blocks = λ b. record { name = []; args = 60 ∷ 61 ∷ []; edges_in = []; statements = [] };
}

abbrev free_floats : RegState
free_floats = record {
  reg_int_alloced = [];
  reg_float_alloced = RegUse.empty ∷ RegUse.empty ∷ [];
  info = placed;
}

abbrev after_alloc : RegState
after_alloc = hold (hold free_floats 16 60) 17 61

abbrev float_args : List Operand
float_args = new_op_val 29 ∷ new_op_val 28 ∷ []

regalloc_then_shuffle-Received_example :
    (code' : List Move) × (reg_shuffle_block_args float_block after_alloc.info []
        (60 ∷ 61 ∷ [])
        float_args
      ≡ ok code')
    × Received
        (exec [] (λ r. r + 100))
        (exec code' (λ r. r + 100))
        (block_moves after_alloc.info (60 ∷ 61 ∷ []) float_args)
    × ((z : ℕ)
        → z ≢ 11
        → z ≢ 21
        → All (λ y. z ≢ y) (targets (block_moves after_alloc.info (60 ∷ 61 ∷ []) float_args))
        → exec code' (λ r. r + 100) z ≡ exec [] (λ r. r + 100) z)
unfolding regalloc_block_args value_reg_is_thrashed type_is_intreg first_empty type_size type_is_agg
    type_is_int type_is_ptr type_is_float
regalloc_then_shuffle-Received_example =
    regalloc_then_shuffle-Received sysv true (λ s n. false) float_block free_floats after_alloc 0 []
      float_args (λ r. r + 100) (refl, (refl, tt)) refl
      (
        (29, refl, refl, (refl, omega arith)),
        (refl, omega arith),
        ((28, refl, refl, (refl, omega arith)), (refl, omega arith), tt),
      )
      (omega arith) ((omega arith, omega arith, refl), ((omega arith, omega arith, refl), tt))
