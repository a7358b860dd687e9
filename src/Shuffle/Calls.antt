-- ===== src/Shuffle/Calls.antt =====
-- src/x86/bbae_emission_x86.h: `reg_shuffle_call`, the moves in front of a call.
use bbae.Common.{
  ℕ, ◌≡◌, ◌≢◌, refl, sym, ap, ◌∙◌, List, [], ◌∷◌, Option, none, some, Bool, true, false, ok, All,
}
use bbae.Common.Int.{ℤ, pos, negsuc}
use bbae.Types.{IrType, type_is_float, type_is_basic}
use bbae.Ir.{Heap, Operand}
use bbae.Abi.{Abi, AbiState, abi_get_next_arg_basic, abi_reset_state, arg_places}
use bbae.Regalloc.{RegInfo}
use bbae.Regalloc.Args.{AreRegisters}
use bbae.Abi.Args.{AreDistinct, arg_places-AreDistinct}
use bbae.Shuffle.{
  Move, Shuffle, map_call_args, map_reg, begin_shuffle, do_reg_shuffle, reg_shuffle_call,
}
use bbae.Shuffle.Machine.{Registers, exec}
use bbae.Shuffle.Pairs.{Pairs, sources, targets, ArePlain, map_pairs, Received, shuffle_pairs}
use bbae.Shuffle.Arguments.{IsMovable, source_reg, in_register-ok, variant_lem}

abbrev value_type_is : Heap → (IrType → Bool) → Option ℕ → Bool
value_type_is h test none = false
value_type_is h test (some v) = test (h.values v).type_of

-- The operands can be moved, and their types are basic.
abbrev pub ArePassable : Heap → (ℕ → RegInfo) → List Operand → Type 0
ArePassable h info [] = Unit
ArePassable h info (op ∷ args) =
    IsMovable h info op × (value_type_is h type_is_basic op.value ≡ true) × ArePassable h info args

abbrev pub floats_of_ops : Heap → List Operand → List Bool
floats_of_ops h [] = []
floats_of_ops h (op ∷ args) = value_type_is h type_is_float op.value ∷ floats_of_ops h args

-- The registers of the operands, with the places that the convention gives them.
abbrev pub call_moves : (ℕ → RegInfo) → List Operand → List ℤ → Pairs
call_moves info [] places = []
call_moves info (op ∷ args) [] = []
call_moves info (op ∷ args) (pos n ∷ places) = (source_reg info op, n) ∷ call_moves info args places
call_moves info (op ∷ args) (negsuc n ∷ places) = []

abbrev pub passed : Abi → Heap → (ℕ → RegInfo) → List Operand → Pairs
passed abi h info args =
    call_moves info args (arg_places abi (floats_of_ops h args) abi_reset_state)

place_register :
    (p : ℤ) (places : List ℤ)
    → AreRegisters (p ∷ places)
    → (w : ℕ) × (p ≡ pos w) × AreRegisters places
place_register (pos w) places regs = (w, refl, regs)
place_register (negsuc w) places regs = absurd regs

mapped_one :
    (abi : Abi) (h : Heap) (info : ℕ → RegInfo) (a : AbiState) (op : Operand) (args : List Operand)
    (in2out : ℕ → Option ℕ) (n : ℕ)
    → IsMovable h info op
    → value_type_is h type_is_basic op.value ≡ true
    → (abi_get_next_arg_basic abi (value_type_is h type_is_float op.value) a).0 ≡ pos n
    → map_call_args abi h info a (op ∷ args) in2out
      ≡ map_call_args abi h info
          (abi_get_next_arg_basic abi (value_type_is h type_is_float op.value) a).1
          args
          (map_reg in2out (source_reg info op) n)
unfolding map_call_args
mapped_one abi h info a op args in2out n (v, e, variant, (in_v, below_v)) basic place =
    let same = λ (test : IrType → Bool). ap (value_type_is h test) e in
    rw
      (
        e,
        variant_lem (h.values v).variant variant,
        variant,
        in_register-ok (info v) in_v below_v,
        sym (same type_is_basic) ∙ basic,
        ap (λ f. (abi_get_next_arg_basic abi f a).0) (sym (same type_is_float)) ∙ place,
      )
      refl

mapped :
    (abi : Abi) (h : Heap) (info : ℕ → RegInfo) (a : AbiState) (args : List Operand)
    (in2out : ℕ → Option ℕ)
    → ArePassable h info args
    → AreRegisters (arg_places abi (floats_of_ops h args) a)
    → map_call_args abi h info a args in2out
      ≡ ok (map_pairs in2out (call_moves info args (arg_places abi (floats_of_ops h args) a)))
unfolding map_call_args arg_places
mapped abi h info a [] in2out passable regs = refl
mapped abi h info a (op ∷ args) in2out (one, basic, rest) regs =
    let next = abi_get_next_arg_basic abi (value_type_is h type_is_float op.value) a in
    let places = arg_places abi (floats_of_ops h args) next.1 in
    let (n, at, later) = place_register next.0 places regs in
    mapped_one abi h info a op args in2out n one basic at
    ∙ mapped abi h info next.1 args (map_reg in2out (source_reg info op) n) rest later
    ∙ ap (λ p. ok (map_pairs in2out (call_moves info (op ∷ args) (p ∷ places)))) (sym at)

targets_apart :
    (info : ℕ → RegInfo) (n : ℕ) (args : List Operand) (places : List ℤ)
    → All (λ y. pos n ≢ y) places
    → All (λ y. n ≢ y) (targets (call_moves info args places))
targets_apart info n [] places apart = tt
targets_apart info n (op ∷ args) [] apart = tt
targets_apart info n (op ∷ args) (pos m ∷ places) (ne, apart) =
    (λ e. ne (ap pos e), targets_apart info n args places apart)
targets_apart info n (op ∷ args) (negsuc m ∷ places) apart = tt

targets_once :
    (info : ℕ → RegInfo) (args : List Operand) (places : List ℤ)
    → AreDistinct places
    → AreDistinct (targets (call_moves info args places))
targets_once info [] places once = tt
targets_once info (op ∷ args) [] once = tt
targets_once info (op ∷ args) (pos m ∷ places) (apart, once) =
    (targets_apart info m args places apart, targets_once info args places once)
targets_once info (op ∷ args) (negsuc m ∷ places) once = tt

shuffled :
    (abi : Abi) (h : Heap) (info : ℕ → RegInfo) (code : List Move) (callee : Operand)
    (args : List Operand) (in2out : ℕ → Option ℕ) (s' : Shuffle)
    → map_call_args abi h info abi_reset_state args (λ reg. none) ≡ ok in2out
    → do_reg_shuffle (begin_shuffle code in2out) ≡ ok s'
    → reg_shuffle_call abi h info code (callee ∷ args) ≡ ok s'.code
unfolding reg_shuffle_call
shuffled abi h info code callee args in2out s' maps run = rw (maps, run) refl

-- Where all values behind the callee are in registers, no two in the same one, their types are basic,
-- the convention has a register of the same class for each, and none of these registers is a temporary one, no assertion
-- fails and the loop ends. After the moves the place of every argument holds what the value's register
-- held before them, and every other register but the two temporary ones holds what it held.
pub reg_shuffle_call-Received :
    (abi : Abi) (h : Heap) (info : ℕ → RegInfo) (code : List Move) (callee : Operand)
    (args : List Operand) (regs : Registers)
    → ArePassable h info args
    → AreRegisters (arg_places abi (floats_of_ops h args) abi_reset_state)
    → AreDistinct (sources (passed abi h info args))
    → ArePlain (passed abi h info args)
    → (code' : List Move) × (reg_shuffle_call abi h info code (callee ∷ args) ≡ ok code')
      × Received (exec code regs) (exec code' regs) (passed abi h info args)
      × ((z : ℕ)
          → z ≢ 11
          → z ≢ 21
          → All (λ y. z ≢ y) (targets (passed abi h info args))
          → exec code' regs z ≡ exec code regs z)
reg_shuffle_call-Received abi h info code callee args regs passable on_regs once_from plain =
    let places = arg_places abi (floats_of_ops h args) abi_reset_state in
    let pairs = call_moves info args places in
    let once_to =
      targets_once info args places
        (arg_places-AreDistinct abi (floats_of_ops h args) abi_reset_state) in
    let (s', run, received, others) = shuffle_pairs pairs once_from once_to plain regs code in
    (
      s'.code,
      shuffled abi h info code callee args (map_pairs (λ reg. none) pairs) s'
          (mapped abi h info abi_reset_state args (λ reg. none) passable on_regs) run,
      received,
      others,
    )
