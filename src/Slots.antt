-- ===== src/Slots.antt =====
-- src/x86/bbae_emission_x86.h: where a function's stack slots lie, and the height of its frame.
pub mod Layout
mod Tests
use bbae.Common.{
  ℕ, zero, suc, ◌+◌, ◌*◌, ◌/◌, ◌%◌, ◌^◌, Bool, true, false, ◌&&◌, not, List, [], ◌∷◌, Run, Fault,
  ok, fault, assert, assertion, ◌>>=◌, ◌>>◌, ◌==◌, if◌then◌else◌, Bytes,
}
use bbae.Types.{size_guess_align}
use bbae.Statics.{pad_to}

-- The slot begins `offset` bytes below RBP. The field `align` is never written.
pub record StackSlot : Type 0 where
  pub name : Bytes
  pub size : ℕ
  pub offset : ℕ

-- The loop over the slots of a function, for its stack values in order: every value's assertion
-- about its kind is true in the list that `add_stack_slot` makes.
unfoldable pub allocate_slots : ℕ → ℕ → List StackSlot → Run (List StackSlot × ℕ)
allocate_slots fuel offset [] = ok ([], offset)
allocate_slots fuel offset (slot ∷ slots) = do
  align ← size_guess_align slot.size
  offset' ← pad_to fuel align ((offset + slot.size) % 2 ^ 64)
  rest ← allocate_slots fuel offset' slots
  ok (record slot { offset = offset' } ∷ rest.0, rest.1)

-- `height & bit`, for one bit.
abbrev pub has_bit : ℕ → ℕ → Bool
has_bit bit height = not (height / bit % 2 == 0)

-- `while (height & bit) height += 1`
unfoldable pub round_up_bit : ℕ → ℕ → ℕ → Run ℕ
round_up_bit zero bit height = fault Fault.stuck
round_up_bit (suc fuel) bit height =
    let rest = round_up_bit fuel bit ((height + 1) % 2 ^ 64) in
    if has_bit bit height then rest else ok height

-- One function of `allocate_stack_slots`: the height that the loop rounds is the old one, and it is
-- overwritten.
unfoldable pub allocate_stack_slots : ℕ → ℕ → List StackSlot → Run (List StackSlot × ℕ)
allocate_stack_slots fuel stack_height slots = do
  placed ← allocate_slots fuel 0 slots
  rounded ← round_up_bit fuel 8 stack_height
  ok placed

-- `compile_file`: eight bytes for each written register that the callee saves, but RBP and RSP.
unfoldable pub add_saved : ℕ → ℕ → List ℕ → ℕ
add_saved i height [] = height
add_saved i height (written ∷ registers) =
    add_saved (i + 1)
      (if (written == 2) && not (i == 5) && not (i == 4) then (height + 8) % 2 ^ 64 else height)
      registers

unfoldable pub frame_height : ℕ → ℕ → List ℕ → Run ℕ
unfolding add_saved
frame_height fuel height written_registers =
    round_up_bit fuel 16 (add_saved 0 height written_registers)
