-- ===== src/Shuffle/Arguments.antt =====
-- src/x86/bbae_emission_x86.h: `reg_shuffle_block_args`, the moves in front of a jump.
use bbae.Common.{
  ℕ, ◌<◌, ◌≡◌, ◌≢◌, refl, ◌∙◌, List, [], ◌∷◌, Option, none, some, true, ok, arith, All, lt→ltb, ◌^◌,
}
use bbae.Ir.{Heap, ValueVariant, Operand}
use bbae.Regalloc.{RegInfo}
use bbae.Abi.Args.{AreDistinct}
use bbae.Shuffle.{
  Move, Shuffle, map_block_args, map_reg, begin_shuffle, do_reg_shuffle, reg_shuffle_block_args,
  is_ssa_or_arg, not_const, in_register,
}
use bbae.Shuffle.Machine.{Registers, exec}
use bbae.Shuffle.Pairs.{Pairs, sources, targets, ArePlain, map_pairs, Received, shuffle_pairs}

-- The value is in a register.
abbrev pub InRegister : (ℕ → RegInfo) → ℕ → Type 0
InRegister info v = ((info v).regalloced ≡ true) × ((info v).regalloc < 32)

-- The operand has a value that an instruction or an argument gives, and this is in a register.
abbrev pub IsMovable : Heap → (ℕ → RegInfo) → Operand → Type 0
IsMovable h info op =
    (v : ℕ) × (op.value ≡ some v) × (is_ssa_or_arg (h.values v).variant ≡ true) × InRegister info v

abbrev pub AreMovable : Heap → (ℕ → RegInfo) → List ℕ → List Operand → Type 0
AreMovable h info [] args = Unit
AreMovable h info (to ∷ block_args) [] = ⊥
AreMovable h info (to ∷ block_args) (op ∷ args) =
    IsMovable h info op × InRegister info to × AreMovable h info block_args args

abbrev pub register_of : (ℕ → RegInfo) → Option ℕ → ℕ
register_of info none = 0
register_of info (some v) = (info v).regalloc

abbrev pub source_reg : (ℕ → RegInfo) → Operand → ℕ
source_reg info op = register_of info op.value

-- The registers of the operands, with those of the block's arguments that take their values.
abbrev pub block_moves : (ℕ → RegInfo) → List ℕ → List Operand → Pairs
block_moves info [] args = []
block_moves info (to ∷ block_args) [] = []
block_moves info (to ∷ block_args) (op ∷ args) =
    (source_reg info op, (info to).regalloc) ∷ block_moves info block_args args

pub variant_lem : (v : ValueVariant) → is_ssa_or_arg v ≡ true → not_const v ≡ true
variant_lem ValueVariant.const e = e
variant_lem v e = ground arith

pub in_register-ok : (r : RegInfo) → r.regalloced ≡ true → r.regalloc < 32 → in_register r ≡ ok tt
in_register-ok r e lt =
    rw (e, lt→ltb r.regalloc 32 lt, lt→ltb r.regalloc (2 ^ 63) (omega arith)) refl

mapped_one :
    (h : Heap) (info : ℕ → RegInfo) (to : ℕ) (block_args : List ℕ) (op : Operand)
    (args : List Operand) (in2out : ℕ → Option ℕ)
    → IsMovable h info op
    → InRegister info to
    → map_block_args h info (to ∷ block_args) (op ∷ args) in2out
      ≡ map_block_args h info block_args args
          (map_reg in2out (source_reg info op) (info to).regalloc)
unfolding map_block_args
mapped_one h info to block_args op args in2out (v, e, variant, (in_v, below_v)) (in_to, below_to) =
    rw
      (
        e,
        variant_lem (h.values v).variant variant,
        variant,
        in_register-ok (info to) in_to below_to,
        in_register-ok (info v) in_v below_v,
      )
      refl

mapped :
    (h : Heap) (info : ℕ → RegInfo) (block_args : List ℕ) (args : List Operand)
    (in2out : ℕ → Option ℕ)
    → AreMovable h info block_args args
    → map_block_args h info block_args args in2out
      ≡ ok (map_pairs in2out (block_moves info block_args args))
unfolding map_block_args
mapped h info [] args in2out movable = refl
mapped h info (to ∷ block_args) [] in2out movable = absurd movable
mapped h info (to ∷ block_args) (op ∷ args) in2out (one, at, rest) =
    mapped_one h info to block_args op args in2out one at
    ∙ mapped h info block_args args (map_reg in2out (source_reg info op) (info to).regalloc) rest

shuffled :
    (h : Heap) (info : ℕ → RegInfo) (code : List Move) (block_args : List ℕ) (args : List Operand)
    (in2out : ℕ → Option ℕ) (s' : Shuffle)
    → map_block_args h info block_args args (λ reg. none) ≡ ok in2out
    → do_reg_shuffle (begin_shuffle code in2out) ≡ ok s'
    → reg_shuffle_block_args h info code block_args args ≡ ok s'.code
unfolding reg_shuffle_block_args
shuffled h info code block_args args in2out s' maps run = rw (maps, run) refl

-- Where all values are in registers, no two operands in the same one and no two arguments of the
-- block either, each operand's register is of the class of its argument's, and none of these is a
-- temporary register, no assertion fails and the loop ends. After the moves the register of every argument of the block holds what the operand's register held before
-- them, and every other register but the two temporary ones holds what it held.
pub reg_shuffle_block_args-Received :
    (h : Heap) (info : ℕ → RegInfo) (code : List Move) (block_args : List ℕ) (args : List Operand)
    (regs : Registers)
    → AreMovable h info block_args args
    → AreDistinct (sources (block_moves info block_args args))
    → AreDistinct (targets (block_moves info block_args args))
    → ArePlain (block_moves info block_args args)
    → (code' : List Move) × (reg_shuffle_block_args h info code block_args args ≡ ok code')
      × Received (exec code regs) (exec code' regs) (block_moves info block_args args)
      × ((z : ℕ)
          → z ≢ 11
          → z ≢ 21
          → All (λ y. z ≢ y) (targets (block_moves info block_args args))
          → exec code' regs z ≡ exec code regs z)
reg_shuffle_block_args-Received h info code block_args args regs movable once_from once_to plain =
    let pairs = block_moves info block_args args in
    let (s', run, received, others) = shuffle_pairs pairs once_from once_to plain regs code in
    (
      s'.code,
      shuffled h info code block_args args (map_pairs (λ reg. none) pairs) s'
          (mapped h info block_args args (λ reg. none) movable) run,
      received,
      others,
    )
