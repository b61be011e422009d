-- ===== src/Iss/Hart.antt =====
-- The state of `struct ISS` in vp/src/core/rv32/iss.h that traps and register accesses use, and what
-- an operation gives that may throw (vp/src/core/common/trap.h).
use symex_vp.Common.{ℕ, Bool, ◌==◌}
use symex_vp.Csr.Register.{Register, Table, write, mhartid}
use symex_vp.Bus.Lock.{BusLock, unlock}

-- vp/src/core/common/irq_if.h
abbrev pub machine_mode : ℕ
machine_mode = 3

abbrev pub supervisor_mode : ℕ
supervisor_mode = 1

abbrev pub user_mode : ℕ
user_mode = 0

abbrev pub none_mode : ℕ
none_mode = 0xffffffff

pub record SimulationTrap : Type 0 where
  pub reason : ℕ
  pub mtval : ℕ

-- A result, a trap of the hart, or an error that ends the simulation (`std::runtime_error`).
pub data Result {ℓ} (A : Type ℓ) : Type ℓ where
  returned : A → Result A
  raised : SimulationTrap → Result A
  aborted : Result A

pub record Hart : Type 0 where
  pub csrs : Table
  pub prv : ℕ
  pub pc : ℕ
  pub last_pc : ℕ
  pub instr : ℕ
  pub lr_sc_counter : ℕ
  pub bus_lock : BusLock
  pub cycle_counter : ℕ
  pub cycle_time : ℕ

abbrev pub m_mode : Hart → Bool
m_mode h = h.prv == machine_mode

abbrev pub s_mode : Hart → Bool
s_mode h = h.prv == supervisor_mode

abbrev pub u_mode : Hart → Bool
u_mode h = h.prv == user_mode

-- An assignment to a register.
abbrev pub store : Register → ℕ → Hart → Hart
store r v h = record h { csrs = write h.csrs r v }

-- The memory's `atomic_unlock` gives up the bus lock if this hart holds it.
unfoldable pub release_lr_sc_reservation : Hart → Hart
release_lr_sc_reservation h = record h {
  lr_sc_counter = 0;
  bus_lock = unlock (h.csrs mhartid) h.bus_lock;
}
