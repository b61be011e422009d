-- ===== src/Plic/Controller.antt =====
-- The state and the operations of `FE310_PLIC` in vp/src/platform/common/fe310_plic.h. The template
-- parameters are a record; the memory of a register range is the list of its words.
use symex_vp.Common.{
  ℕ, zero, suc, ◌+◌, ◌*◌, ◌/◌, ◌%◌, Bool, true, false, ◌&&◌, ◌||◌, not, ltb, truth, if◌then◌else◌,
  bit_and, bit_or, not32, shl32, List, Option, none, some, get_or, set, ◌-◌,
}

pub record Sizes : Type 0 where
  pub number_cores : ℕ
  pub number_interrupts : ℕ
  pub max_priority : ℕ

pub record Plic : Type 0 where
  pub interrupt_priorities : List ℕ
  pub pending_interrupts : List ℕ
  pub hart_enabled_interrupts : List ℕ
  pub priority_threshold : List ℕ
  pub claim_response : List ℕ

-- `hart_enabled_interrupts(hart_id, idx)`: the view has rows of one word.
abbrev pub enabled_word : Plic → ℕ → ℕ → ℕ
enabled_word p hart_id idx = get_or p.hart_enabled_interrupts (hart_id * 1 + idx) 0

-- `none` when the assertion fails.
unfoldable pub gateway_trigger_interrupt : Sizes → ℕ → Plic → Option Plic
gateway_trigger_interrupt z irq_id p =
    let word = get_or p.pending_interrupts (irq_id / 32) 0 in
    if ltb 0 irq_id && ltb irq_id z.number_interrupts
    then some (record p {
      pending_interrupts =
          set p.pending_interrupts (irq_id / 32) (bit_or word (shl32 1 (irq_id % 32)));
    })
    else none

unfoldable pub clear_pending_interrupt : ℕ → Plic → Plic
clear_pending_interrupt irq_id p =
    let word = get_or p.pending_interrupts (irq_id / 32) 0 in
    record p {
      pending_interrupts =
          set p.pending_interrupts (irq_id / 32) (bit_and word (not32 (shl32 1 (irq_id % 32))));
    }

-- The body of the search loop: the best interrupt so far and its priority.
unfoldable pub consider : Plic → ℕ → Bool → ℕ → ℕ × ℕ → ℕ × ℕ
consider p hart_id consider_threshold i (min_id, max_priority) =
    let bit = shl32 1 (i % 32) in
    let prio = get_or p.interrupt_priorities i 0 in
    if truth (bit_and (enabled_word p hart_id (i / 32)) bit)
    then (if truth (bit_and (get_or p.pending_interrupts (i / 32) 0) bit)
        then (if ltb 0 prio
              && (not consider_threshold || ltb (get_or p.priority_threshold hart_id 0) prio)
            then (if ltb max_priority prio then (i, prio) else (min_id, max_priority))
            else (min_id, max_priority))
        else (min_id, max_priority))
    else (min_id, max_priority)

-- The loop over the `n` interrupts from `i` on.
unfoldable pub search_from : Plic → ℕ → Bool → ℕ → ℕ → ℕ × ℕ → ℕ × ℕ
search_from p hart_id consider_threshold zero i best = best
search_from p hart_id consider_threshold (suc n) i best =
    search_from p hart_id consider_threshold n (suc i)
      (consider p hart_id consider_threshold i best)

unfoldable pub hart_get_next_pending_interrupt : Sizes → Plic → ℕ → Bool → ℕ
hart_get_next_pending_interrupt z p hart_id consider_threshold =
    (search_from p hart_id consider_threshold (z.number_interrupts - 1) 1 (0, 0)).0

unfoldable pub hart_has_pending_enabled_interrupts : Sizes → Plic → ℕ → Bool
hart_has_pending_enabled_interrupts z p hart_id =
    ltb 0 (hart_get_next_pending_interrupt z p hart_id true)

-- A read of the claim register of hart 0: its value, and the state after it.
unfoldable pub claim : Sizes → Plic → ℕ × Plic
claim z p =
    let min_id = hart_get_next_pending_interrupt z p 0 false in
    (
      min_id,
      clear_pending_interrupt min_id (record p { claim_response = set p.claim_response 0 min_id }),
    )
