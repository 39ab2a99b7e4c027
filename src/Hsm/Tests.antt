-- ===== src/Hsm/Tests.antt =====
-- A transition of core/hsm.h in a machine whose handlers all return a code.
use open_hsm.Base.{◌≡◌, refl, some, pos, minus}
use open_hsm.Hsm.{Active, Call, Embeds, state_transit}
use open_hsm.Hsm.Transit.{Lawful, state_transit-only_entry}

-- A machine with nothing beside its `struct hsm_active`.
abbrev bare : Embeds Active
bare = record { active = λ x. x; with_active = λ a x. a }

bare-Lawful : Lawful bare
bare-Lawful = record { get_put = λ a x. refl; put_put = λ a b x. refl }

abbrev at_child : Active
at_child = record { error = pos 0; current = 1; history = 1 }

-- Every handler returns -3.
give_up : Call Active
give_up s e x = some (minus 3, x)

state_transit-only_entry_example :
    state_transit bare give_up 3 at_child
    ≡ state_transit bare (λ s e x. some (minus 3, x)) 3 at_child
unfolding give_up
state_transit-only_entry_example =
    state_transit-only_entry bare bare-Lawful give_up (λ s e x. some (minus 3, x)) 3 at_child
      (λ y. refl)
