-- ===== src/Core/Interface.antt =====
-- The interfaces of a hart: `instr_memory_if` and `data_memory_if` of vp/src/core/rv32/mem_if.h, and
-- what the rest of the simulation does while the hart waits.
use symex_vp.Common.{ℕ, Bool}
use symex_vp.Iss.Action.{Action}

-- Actions on a state `S` with values `V`.
pub record Memory (S : Type 0) (V : Type 0) : Type 0 where
  pub load_instr : ℕ → Action S ℕ
  pub load_word : V → Action S V
  pub load_half : V → Action S V
  pub load_byte : V → Action S V
  pub load_uhalf : V → Action S V
  pub load_ubyte : V → Action S V
  pub store_word : V → V → Action S (Unit {0})
  pub store_half : V → V → Action S (Unit {0})
  pub store_byte : V → V → Action S (Unit {0})
  pub atomic_load_word : V → Action S V
  pub atomic_store_word : V → V → Action S (Unit {0})
  pub atomic_load_reserved_word : V → Action S V
  pub atomic_store_conditional_word : V → V → Action S Bool

-- What happens outside of the hart: the state after other processes ran until the bus was unlocked,
-- until an interrupt came, or at a synchronisation, and the time of the CLINT.
pub record Environment (S : Type 0) : Type 0 where
  pub wait_until_unlocked : S → S
  pub wait_for_event : S → S
  pub need_sync : S → Bool
  pub sync : S → S
  pub update_and_get_mtime : S → ℕ
