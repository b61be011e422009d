-- ===== src/Plic/Examples.antt =====
-- The theorems on the interrupt controller at a concrete state, and a test.
use symex_vp.Common.{
  ℕ, ◌<◌, ◌^◌, ◌≡◌, refl, true, ◌||◌, ◌==◌, [], ◌∷◌, arith, get_or, suc, zero, some,
}
use symex_vp.Plic.Controller.{
  Sizes, Plic, hart_get_next_pending_interrupt, gateway_trigger_interrupt, search_from, consider,
}
use symex_vp.Plic.Next.{is_raised}
use symex_vp.Plic.Claim.{IsValid, is_raised-gateway_trigger_interrupt}

abbrev sizes : Sizes
sizes = record { number_cores = 1; number_interrupts = 5; max_priority = 7 }

-- Interrupts 2, 3 and 4 are enabled and pending, with the priorities 1, 6 and 6.
abbrev controller : Plic
controller = record {
  interrupt_priorities = 0 ∷ 1 ∷ 1 ∷ 6 ∷ 6 ∷ [];
  pending_interrupts = 0x1c ∷ [];
  hart_enabled_interrupts = 0x1e ∷ [];
  priority_threshold = 2 ∷ [];
  claim_response = 0 ∷ [];
}

controller-IsValid : IsValid sizes controller
controller-IsValid = record { word = small; enough = omega arith }
  where
    small : (k : ℕ) → get_or (0x1c ∷ []) k 0 < 2 ^ 32
    small zero = omega arith
    small (suc k) = omega arith

third_first : hart_get_next_pending_interrupt sizes controller 0 true ≡ 3
unfolding hart_get_next_pending_interrupt search_from consider
third_first = refl

is_raised-gateway_trigger_interrupt_example :
    (p' : Plic) × (gateway_trigger_interrupt sizes 1 controller ≡ some p')
    × ((j : ℕ) → is_raised p' j ≡ (is_raised controller j || (j == 1)))
is_raised-gateway_trigger_interrupt_example =
    is_raised-gateway_trigger_interrupt sizes controller 1 controller-IsValid (omega arith)
      (omega arith)
