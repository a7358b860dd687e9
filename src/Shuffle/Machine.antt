-- ===== src/Shuffle/Machine.antt =====
-- What the moves of `src/x86/bbae_emission_x86.h` do to the registers. Both instructions have a number
-- of four bits for each operand: MOV counts the base registers by it, MOVAPS the floating point ones.
use bbae.Common.{
  ℕ, ◌+◌, ◌%◌, ◌<◌, ◌≡◌, refl, ◌∙◌, List, [], ◌∷◌, ◌++◌, leb, arith, if◌then◌else◌, Bool-cases, inl,
  inr,
}
use mathlib.Core.Path.{ap₂}
use bbae.Ir.{update}
use bbae.Shuffle.{Inst, Move, Shuffle, r15, scratch, move_for}

abbrev pub Registers : Type 0
Registers = ℕ → ℕ

-- The register that an instruction takes for the operand `reg`.
abbrev pub operand_reg : Inst → ℕ → ℕ
operand_reg Inst.mov reg = reg % 16
operand_reg Inst.movaps reg = 16 + reg % 16

abbrev pub step : Move → Registers → Registers
step move regs =
    update regs (operand_reg move.inst move.dst) (regs (operand_reg move.inst move.src))

unfoldable pub exec : List Move → Registers → Registers
exec [] regs = regs
exec (move ∷ code) regs = exec code (step move regs)

pub exec-append :
    (code more : List Move) (regs : Registers)
    → exec (code ++ more) regs ≡ exec more (exec code regs)
unfolding exec
exec-append [] more regs = refl
exec-append (move ∷ code) more regs = exec-append code more (step move regs)

-- The registers after the code so far.
abbrev pub regs_of : Shuffle → Registers → Registers
regs_of s regs = exec s.code regs

pub exec-snoc :
    (code : List Move) (move : Move) (regs : Registers)
    → exec (code ++ move ∷ []) regs ≡ step move (exec code regs)
unfolding exec
exec-snoc code move regs = exec-append code (move ∷ []) regs

abbrev pub SameClass : ℕ → ℕ → Type 0
SameClass a b = leb a r15 ≡ leb b r15

-- A move by the class of `reg` is one between registers of that class.
pub record IsFit (reg to from : ℕ) : Type 0 where
  pub to_below : to < 32
  pub from_below : from < 32
  pub to_class : SameClass reg to
  pub from_class : SameClass reg from

operand_reg-same :
    (reg r : ℕ)
    → r < 32
    → SameClass reg r
    → operand_reg (if leb reg r15 then Inst.mov else Inst.movaps) r ≡ r
operand_reg-same reg r below same = elim (Bool-cases (leb reg r15)) [
  | inl base ↦ rw base (ground arith)
  | inr float ↦ rw float (ground arith)
]

-- Such a move copies the register.
pub exec-move :
    (code : List Move) (reg to from : ℕ) (regs : Registers)
    → IsFit reg to from
    → exec (code ++ move_for reg to from ∷ []) regs
      ≡ update (exec code regs) to (exec code regs from)
exec-move code reg to from regs fit =
    exec-snoc code (move_for reg to from) regs
    ∙ ap₂ (λ t f. update (exec code regs) t (exec code regs f))
        (operand_reg-same reg to fit.to_below fit.to_class)
        (operand_reg-same reg from fit.from_below fit.from_class)

pub scratch-SameClass : (reg : ℕ) → SameClass reg (scratch reg)
scratch-SameClass reg = elim (Bool-cases (leb reg r15)) [ inl e ↦ rw e refl | inr e ↦ rw e refl ]

pub scratch_below : (reg : ℕ) → scratch reg < 32
scratch_below reg = elim (Bool-cases (leb reg r15)) [
  | inl e ↦ rw e (omega arith)
  | inr e ↦ rw e (omega arith)
]
