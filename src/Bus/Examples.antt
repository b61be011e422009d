-- ===== src/Bus/Examples.antt =====
-- The routing of concrete addresses, and the bus lock with two harts.
use symex_vp.Common.{true, false, arith, ◌≡◌, refl, List, [], ◌∷◌, some}
use symex_vp.Bus.Lock.{lock}
use symex_vp.Bus.Exclusion.{IsHeld, lock-IsHeld}
use symex_vp.Bus.Port.{PortMapping, transport, decode, decode_from, contains, global_to_local}
use symex_vp.Bus.Routing.{IsRouted, transport-IsRouted}

abbrev map : List PortMapping
map =
    record { start = 0x80000000; end = 0x8000ffff }
    ∷ record { start = 0x2000000; end = 0x200ffff }
    ∷ []

to_clint : transport map 0x2004000 ≡ some (1, 0x4000)
unfolding transport decode decode_from contains global_to_local
to_clint = refl

transport-IsRouted_example : IsRouted map 0x2004000 (transport map 0x2004000)
transport-IsRouted_example = transport-IsRouted map 0x2004000

lock-IsHeld_example : IsHeld 1 0 (record { locked = true; owner = 1 })
unfolding lock
lock-IsHeld_example =
    lock-IsHeld 1 0 (record { locked = false; owner = 0 }) (record { locked = true; owner = 1 })
      (λ e. absurd (omega arith)) refl
