-- ===== src/Abi/Clobber.antt =====
-- src/x86/abi_x86.h: the registers that a call clobbers and those that the callee saves.
use bbae.Common.{
  ℕ, zero, suc, ◌+◌, ◌*◌, ◌%◌, ◌<◌, ◌≡◌, Bool, not, List, [], ◌∷◌, arith, ok, ltb, if◌then◌else◌,
  ◌&&◌, get_elem?, some,
}
use bbae.Abi.{Abi, clobbers, abi_get_callee_saved_regs, abi_reg_is_callee_saved}

-- What the doubling does to the entry of register `i`.
abbrev pub marked : Abi → ℕ → ℕ → ℕ
marked abi i r = if ltb i 32 && not (clobbers abi i) then r * 2 % 256 else r % 256

-- Exactly the entries of the registers that a call does not clobber are doubled, the others are
-- kept, and the table keeps its length.
pub abi_get_callee_saved_regs-marked :
    (abi : Abi) (start : ℕ) (registers : List ℕ) (j r : ℕ)
    → get_elem? registers j ≡ some r
    → r < 256
    → get_elem? (abi_get_callee_saved_regs abi start registers) j ≡ some (marked abi (start + j) r)
unfolding abi_get_callee_saved_regs
abi_get_callee_saved_regs-marked abi start [] j r e h = cc
abi_get_callee_saved_regs-marked abi start (x ∷ registers) zero r e h =
    let here : start + 0 ≡ start = omega arith in rw here (ground arith)
abi_get_callee_saved_regs-marked abi start (x ∷ registers) (suc j) r e h =
    let shift : start + suc j ≡ start + 1 + j = omega arith in
    rw shift (abi_get_callee_saved_regs-marked abi (start + 1) registers j r e h)

-- `abi_reg_is_callee_saved` answers yes for the registers that a call clobbers, and no for those
-- that `abi_get_callee_saved_regs` marks as saved by the callee.
pub abi_reg_is_callee_saved-marked :
    (abi : Abi) (reg : ℕ)
    → reg < 32
    → (b : Bool) × (abi_reg_is_callee_saved abi reg ≡ ok b)
      × (marked abi reg 1 ≡ (if b then 1 else 2))
unfolding abi_reg_is_callee_saved
abi_reg_is_callee_saved-marked abi reg h = (clobbers abi reg, ground arith, ground arith)
