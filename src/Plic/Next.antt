-- ===== src/Plic/Next.antt =====
-- The search of the interrupt controller for the next pending interrupt, and the claim.
use symex_vp.Common.{
  ℕ, ◌/◌, ◌%◌, ◌≤◌, ◌<◌, ◌≡◌, Bool, true, false, ◌&&◌, ◌||◌, not, ◌==◌, ltb, leb, get_or, flag, ◌⊎◌,
}
use symex_vp.Plic.Controller.{Sizes, Plic, enabled_word}

abbrev pub priority_of : Plic → ℕ → ℕ
priority_of p i = get_or p.interrupt_priorities i 0

abbrev pub is_enabled : Plic → ℕ → ℕ → Bool
is_enabled p hart_id i = flag (i % 32) (enabled_word p hart_id (i / 32)) == 1

abbrev pub is_raised : Plic → ℕ → Bool
is_raised p i = flag (i % 32) (get_or p.pending_interrupts (i / 32) 0) == 1

-- Interrupt `i` may interrupt the hart.
abbrev pub is_eligible : Plic → ℕ → Bool → ℕ → Bool
is_eligible p hart_id consider_threshold i =
    is_enabled p hart_id i
    && (is_raised p i
        && (ltb 0 (priority_of p i)
            && (not consider_threshold
                || ltb (get_or p.priority_threshold hart_id 0) (priority_of p i))))

module _ (eligible : ℕ → Bool) (priority : ℕ → ℕ) where
  -- `best` is the first interrupt before `i` of the highest priority, or none is eligible.
  record Best (i id prio : ℕ) : Type 0 where
    pub found :
        ((id ≡ 0) × (prio ≡ 0))
        ⊎ ((1 ≤ id) × (id < i) × (eligible id ≡ true) × (prio ≡ priority id))
    pub none_better :
        (j : ℕ) → ((leb 1 j && ltb j i) && (eligible j && ltb prio (priority j))) ≡ false
    pub none_before :
        (j : ℕ) → ((leb 1 j && ltb j id) && (eligible j && leb prio (priority j))) ≡ false

abbrev Searched : Plic → ℕ → Bool → ℕ → ℕ × ℕ → Type 0
Searched p hart_id t i (id, prio) = Best (is_eligible p hart_id t) (priority_of p) i id prio

-- What the search gives: 0 when no interrupt may interrupt the hart; or the first of those of the
-- highest priority that may.
pub data IsNext (z : Sizes) (p : Plic) (hart_id : ℕ) (t : Bool) (id : ℕ) : Type 0 where
  no_interrupt :
      id ≡ 0
      → ((j : ℕ) → ((leb 1 j && ltb j z.number_interrupts) && is_eligible p hart_id t j) ≡ false)
      → IsNext z p hart_id t id
  first_of_highest :
      1 ≤ id
      → id < z.number_interrupts
      → is_eligible p hart_id t id ≡ true
      → ((j : ℕ)
          → ((leb 1 j && ltb j z.number_interrupts)
              && (is_eligible p hart_id t j && ltb (priority_of p id) (priority_of p j)))
            ≡ false)
      → ((j : ℕ)
          → ((leb 1 j && ltb j id)
              && (is_eligible p hart_id t j && leb (priority_of p id) (priority_of p j)))
            ≡ false)
      → IsNext z p hart_id t id
