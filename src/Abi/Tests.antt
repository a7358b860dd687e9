-- ===== src/Abi/Tests.antt =====
-- Runs of the calling conventions at concrete inputs.
use bbae.Common.{◌≡◌, refl, Bool, true, false, List, [], ◌∷◌, some, get_elem?}
use bbae.Abi.{win, sysv, abi_reset_state, abi_get_next_arg_basic, arg_places, stack_slot}
use bbae.Abi.Args.{AreDistinct, arg_places-AreDistinct, sysv_places, arg_places-sysv_places}

abbrev seven_ints : List Bool
seven_ints = false ∷ false ∷ true ∷ false ∷ false ∷ false ∷ false ∷ false ∷ []

last_on_stack : get_elem? (arg_places sysv seven_ints abi_reset_state) 7 ≡ some (stack_slot 16)
unfolding arg_places abi_get_next_arg_basic
last_on_stack = refl

arg_places-AreDistinct_example : AreDistinct (arg_places win seven_ints abi_reset_state)
arg_places-AreDistinct_example = arg_places-AreDistinct win seven_ints abi_reset_state

arg_places-sysv_places_example :
    arg_places sysv seven_ints abi_reset_state ≡ sysv_places 0 0 seven_ints
arg_places-sysv_places_example = arg_places-sysv_places seven_ints 0 0
