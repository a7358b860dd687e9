-- ===== src/Slots/Tests.antt =====
-- Runs of the layout of stack slots at concrete inputs.
use bbae.Common.{ℕ, ◌≡◌, refl, List, [], ◌∷◌, ok, codes, arith}
use bbae.Slots.{StackSlot, round_up_bit, allocate_stack_slots, frame_height, add_saved}
use bbae.Slots.Layout.{Placed, allocate_stack_slots-Placed}

abbrev two_slots : List StackSlot
two_slots =
    record { name = codes "x"; size = 4; offset = 0 }
    ∷ record { name = codes "y"; size = 24; offset = 0 }
    ∷ []

allocate_stack_slots-Placed_example :
    (r : List StackSlot × ℕ) × (allocate_stack_slots 65 8 two_slots ≡ ok r) × Placed 0 two_slots r
allocate_stack_slots-Placed_example =
    allocate_stack_slots-Placed 8 two_slots (omega arith) (omega arith)

-- A frame of eight bytes stays one of eight bytes.
frame_of_eight : frame_height 20 8 [] ≡ ok 8
unfolding frame_height round_up_bit add_saved
frame_of_eight = refl
