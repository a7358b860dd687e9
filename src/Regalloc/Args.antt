-- ===== src/Regalloc/Args.antt =====
-- src/x86/regalloc_x86.h: the registers of a function's arguments.
use bbae.Common.{
  ℕ, ◌≡◌, refl, sym, ap, ◌∙◌, inl, inr, Bool, true, false, List, [], ◌∷◌, ok, if◌then◌else◌, arith,
  Bool-cases, length, ◌==◌, All,
}
use bbae.Common.Int.{ℤ, pos, negsuc}
use bbae.Types.{type_is_float, type_is_basic}
use bbae.Ir.{Heap}
use bbae.Ir.Substitute.{mem}
use bbae.Abi.{Abi, AbiState, abi_get_next_arg_basic, abi_reset_state, arg_places}
use bbae.Regalloc.{RegInfo, RegState, hold, func_args_loop, regalloc_func_args}

-- The arguments that have users, and whether these are floats.
abbrev pub used_args : Heap → List ℕ → List ℕ
used_args h [] = []
used_args h (v ∷ args) =
    let rest = used_args h args in if length (h.values v).edges_out == 0 then rest else v ∷ rest

abbrev pub floats_of : Heap → List ℕ → List Bool
floats_of h [] = []
floats_of h (v ∷ args) = type_is_float (h.values v).type_of ∷ floats_of h args

-- Every argument has the place in the list as its register.
abbrev pub HavePlaces : (ℕ → RegInfo) → List ℕ → List ℤ → Type 0
HavePlaces info [] places = Unit
HavePlaces info (v ∷ args) [] = ⊥
HavePlaces info (v ∷ args) (p ∷ places) =
    ((info v).regalloced ≡ true) × (pos (info v).regalloc ≡ p) × HavePlaces info args places

-- All places are registers.
abbrev pub AreRegisters : List ℤ → Type 0
AreRegisters [] = Unit
AreRegisters (pos n ∷ places) = AreRegisters places
AreRegisters (negsuc n ∷ places) = ⊥

abbrev pub IsOnce : List ℕ → Type 0
IsOnce [] = Unit
IsOnce (v ∷ args) = (mem v args ≡ false) × IsOnce args

abbrev pub IsBasic : Heap → ℕ → Type 0
IsBasic h v = type_is_basic (h.values v).type_of ≡ true

register_of :
    (p : ℤ) (places : List ℤ)
    → AreRegisters (p ∷ places)
    → (w : ℕ) × (p ≡ pos w) × AreRegisters places
register_of (pos w) places regs = (w, refl, regs)
register_of (negsuc n) places regs = absurd regs

held_at :
    (s : RegState) (w v : ℕ)
    → (hold s w v).info v ≡ record (s.info v) { regalloced = true; regalloc = w }
held_at s w v = ground arith

held_elsewhere : (s : RegState) (w v x : ℕ) → (x == v) ≡ false → (hold s w v).info x ≡ s.info x
held_elsewhere s w v x ne = rw ne refl

module _ (abi : Abi) (h : Heap) where
  -- The next argument, with the state behind it.
  next_for : AbiState → ℕ → ℤ × AbiState
  next_for a v = abi_get_next_arg_basic abi (type_is_float (h.values v).type_of) a

  runs :
      (args : List ℕ) (a : AbiState) (s s' : RegState) (v w : ℕ)
      → (length (h.values v).edges_out == 0) ≡ false
      → IsBasic h v
      → (next_for a v).0 ≡ pos w
      → func_args_loop abi h (next_for a v).1 (hold s w v) args ≡ ok s'
      → func_args_loop abi h a s (v ∷ args) ≡ ok s'
  unfolding func_args_loop next_for
  runs args a s s' v w used basic place run = rw (used, basic, place) run

  placed :
      (args : List ℕ) (a : AbiState) (s : RegState)
      → IsOnce args
      → All (IsBasic h) args
      → AreRegisters (arg_places abi (floats_of h (used_args h args)) a)
      → (s' : RegState) × (func_args_loop abi h a s args ≡ ok s')
        × HavePlaces s'.info (used_args h args) (arg_places abi (floats_of h (used_args h args)) a)
        × ((v : ℕ) → mem v args ≡ false → s'.info v ≡ s.info v)
  unfolding func_args_loop arg_places next_for
  placed [] a s once basic regs = (s, refl, tt, λ v out. refl)
  placed (v ∷ args) a s once basic regs = elim (Bool-cases (length (h.values v).edges_out == 0)) [
    | inl unused ↦
        let (s', run, have, frame) = placed args a s once.1 basic.1 (rw unused at regs) in
        (s', rw unused run, rw unused have, λ x out. frame x (ground arith))
    | inr used ↦
        let rest = arg_places abi (floats_of h (used_args h args)) (next_for a v).1 in
        let (w, place, regs') = register_of (next_for a v).0 rest (rw used at regs) in
        let (s', run, have, frame) =
          placed args (next_for a v).1 (hold s w v) once.1 basic.1 regs' in
        let here = frame v once.0 ∙ held_at s w v in
        (
          s',
          runs args a s s' v w used basic.0 place run,
          rw used (
            ap (λ (i : RegInfo). i.regalloced) here,
            ap (λ (i : RegInfo). pos i.regalloc) here ∙ sym place,
            have,
          ),
          λ x out. frame x (ground arith) ∙ held_elsewhere s w v x (ground arith),
        )
  ]

-- Where the arguments are different values of basic types and the calling convention has registers
-- for those of them that have users, these get the convention's places one after the other, as if
-- they were the whole argument list: an argument without users does not count. No other value's
-- register changes.
pub regalloc_func_args-HavePlaces :
    (abi : Abi) (h : Heap) (s : RegState) (args : List ℕ)
    → IsOnce args
    → All (IsBasic h) args
    → AreRegisters (arg_places abi (floats_of h (used_args h args)) abi_reset_state)
    → (s' : RegState) × (regalloc_func_args abi h s args ≡ ok s')
      × HavePlaces s'.info
          (used_args h args)
          (arg_places abi (floats_of h (used_args h args)) abi_reset_state)
      × ((v : ℕ) → mem v args ≡ false → s'.info v ≡ s.info v)
unfolding regalloc_func_args
regalloc_func_args-HavePlaces abi h s args once basic regs =
    placed abi h args abi_reset_state s once basic regs
