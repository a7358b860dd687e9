-- ===== src/Shuffle/Jump.antt =====
-- src/x86/regalloc_x86.h and src/x86/bbae_emission_x86.h: the registers that `regalloc_block_args` gives
-- a block's arguments, in the shuffle in front of a jump to that block.
use bbae.Common.{ℕ, ◌≡◌, ◌≢◌, sym, ap, ◌∙◌, Bool, false, List, [], ◌∷◌, some, ok, All, arith}
use bbae.Ir.{Heap, Operand}
use bbae.Ir.Substitute.{mem}
use bbae.Abi.{Abi}
use bbae.Abi.Args.{AreDistinct}
use bbae.Regalloc.{RegState, RegUse}
use bbae.Regalloc.Args.{IsOnce}
use bbae.Regalloc.Blocks.{regalloc_block_args}
use bbae.Regalloc.Free.{reg_use}
use bbae.Regalloc.Held.{AreHeld, regalloc_block_args-HoldsFree}
use bbae.Shuffle.{Move, reg_shuffle_block_args}
use bbae.Shuffle.Machine.{Registers, exec}
use bbae.Shuffle.Pairs.{sources, targets, ArePlain, Received}
use bbae.Shuffle.Arguments.{AreMovable, block_moves, reg_shuffle_block_args-Received}

held_injective : {v w : ℕ} → some (RegUse.held v) ≡ some (RegUse.held w) → v ≡ w
held_injective e = cc

not_head : (v w : ℕ) (args : List ℕ) → mem v (w ∷ args) ≡ false → v ≢ w
not_head v w args off same = ground arith

not_later : (v w : ℕ) (args : List ℕ) → mem v (w ∷ args) ≡ false → mem v args ≡ false
not_later v w args off = ground arith

-- Different values that are held are in different registers.
apart_from :
    (s : RegState) (v : ℕ) (args : List ℕ) (ops : List Operand)
    → reg_use s (s.info v).regalloc ≡ some (RegUse.held v)
    → AreHeld s args
    → mem v args ≡ false
    → All (λ y. (s.info v).regalloc ≢ y) (targets (block_moves s.info args ops))
apart_from s v [] ops at held off = tt
apart_from s v (w ∷ args) [] at held off = tt
apart_from s v (w ∷ args) (op ∷ ops) at ((in_reg, at_w), held) off = (
  λ e. not_head v w args off (held_injective (sym at ∙ ap (reg_use s) e ∙ at_w)),
  apart_from s v args ops at held (not_later v w args off),
)

targets_once :
    (s : RegState) (args : List ℕ) (ops : List Operand)
    → AreHeld s args
    → IsOnce args
    → AreDistinct (targets (block_moves s.info args ops))
targets_once s [] ops held once = tt
targets_once s (v ∷ args) [] held once = tt
targets_once s (v ∷ args) (op ∷ ops) ((in_reg, at), held) (off, once) =
    (apart_from s v args ops at held off, targets_once s args ops held once)

-- After the registers of a block's arguments were found, a jump to the block from operands in different
-- registers shuffles them without a fault, where each register is of the class of its argument's and
-- none is a temporary one: every
-- argument's register then holds what its operand's register held, and the other registers but the
-- temporary ones are unchanged.
pub regalloc_then_shuffle-Received :
    (abi : Abi) (performs_calls : Bool) (same_text : ℕ → ℕ → Bool) (h : Heap) (s s' : RegState)
    (block : ℕ) (code : List Move) (args : List Operand) (regs : Registers)
    → IsOnce (h.blocks block).args
    → regalloc_block_args abi performs_calls same_text h s block ≡ ok s'
    → AreMovable h s'.info (h.blocks block).args args
    → AreDistinct (sources (block_moves s'.info (h.blocks block).args args))
    → ArePlain (block_moves s'.info (h.blocks block).args args)
    → (code' : List Move) × (reg_shuffle_block_args h s'.info code (h.blocks block).args args
        ≡ ok code')
      × Received (exec code regs) (exec code' regs) (block_moves s'.info (h.blocks block).args args)
      × ((z : ℕ)
          → z ≢ 11
          → z ≢ 21
          → All (λ y. z ≢ y) (targets (block_moves s'.info (h.blocks block).args args))
          → exec code' regs z ≡ exec code regs z)
regalloc_then_shuffle-Received abi performs_calls same_text h s s' block code args regs once run
      movable once_from plain =
    let held =
      (regalloc_block_args-HoldsFree abi performs_calls same_text h s s' block once run).held_by in
    reg_shuffle_block_args-Received h s'.info code (h.blocks block).args args regs movable once_from
      (targets_once s' (h.blocks block).args args held once) plain
