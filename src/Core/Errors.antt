-- ===== src/Core/Errors.antt =====
-- The traps that instructions of vp/src/core/rv32/iss.cpp raise before they touch the memory or a
-- register.
pub mod Missing
use symex_vp.Common.{ℕ, ◌%◌, ◌≡◌, ◌≢◌, refl, ◌∙◌, Bool, true, false, if◌then◌else◌, ne→==}
use symex_vp.Csr.Fields.{has_extension}
use symex_vp.Csr.Register.{misa}
use symex_vp.Instr.Mapping.{
  Mapping, sh, sw, lh, lw, lhu, lr_w, sc_w, amoswap_w, amoadd_w, amoxor_w, amoand_w, amoor_w,
  amomin_w, amominu_w, amomax_w, amomaxu_w, mul, mulh, mulhu, mulhsu, div, divu, rem, remu,
}
use symex_vp.Iss.Hart.{returned, raised, SimulationTrap}
use symex_vp.Iss.Action.{Action, ◌>>=◌, ◌>>◌, >>=-raised, >>=-returned}
use symex_vp.Iss.Rights.{exc_illegal_instr}
use symex_vp.Core.Clover.{Clover}
use symex_vp.Core.State.{State}
use symex_vp.Core.Interface.{Memory, Environment}
use symex_vp.Core.Operands.{
  reg1, reg2, write_rd, track_and_trace_branch, i_immediate, s_immediate, require_isa, m_extension,
  a_extension, trap_check_addr_alignment, exc_load_addr_misaligned, exc_store_amo_addr_misaligned,
}
use symex_vp.Core.Execute.Transfer.{execute_transfer, load_aligned, store_aligned}
use symex_vp.Core.Execute.Multiply.{
  execute_multiply, multiply, divide, reg_zero, reg_uint32_max, is_overflow,
}
use symex_vp.Core.Execute.Atomic.{execute_atomic, execute_amo, load_reserved, store_conditional}
use symex_vp.Core.Execute.Jump.{execute_jump}
use symex_vp.Core.Execute.System.{execute_system}
use symex_vp.Core.Execute.Integer.{integer_result}
use symex_vp.Core.Step.{execute}

-- The accesses that must be aligned: how wide they are, whether they count as loads, and how they
-- find their address.
pub data Base : Type 0 where
  plus_i plus_s alone : Base

pub data Accesses : Mapping → ℕ → Bool → Base → Type 0 where
  halves : Accesses lh 2 true plus_i
  unsigned_halves : Accesses lhu 2 true plus_i
  words : Accesses lw 4 true plus_i
  stored_halves : Accesses sh 2 false plus_s
  stored_words : Accesses sw 4 false plus_s
  reserved_words : Accesses lr_w 4 true alone
  conditional_words : Accesses sc_w 4 false alone
  swap_words : Accesses amoswap_w 4 false alone
  sum_words : Accesses amoadd_w 4 false alone
  difference_words : Accesses amoxor_w 4 false alone
  conjunction_words : Accesses amoand_w 4 false alone
  disjunction_words : Accesses amoor_w 4 false alone
  least_words : Accesses amomin_w 4 false alone
  unsigned_least_words : Accesses amominu_w 4 false alone
  greatest_words : Accesses amomax_w 4 false alone
  unsigned_greatest_words : Accesses amomaxu_w 4 false alone

abbrev pub misaligned : Bool → ℕ → SimulationTrap
misaligned is_load addr = record {
  reason = if is_load then exc_load_addr_misaligned else exc_store_amo_addr_misaligned;
  mtval = addr;
}

module _ (k : Clover) (D : Type 0) (mem : Memory (State k.Value D) k.Value)
    (env : Environment (State k.Value D)) (s : State k.Value D) where
  abbrev pub address : Base → k.Value
  address plus_i = k.add (reg1 k s) (i_immediate k s)
  address plus_s = k.add (reg1 k s) (s_immediate k s)
  address alone = reg1 k s

  check_lem :
      (n : ℕ) (is_load : Bool) (addr : k.Value)
      → k.concrete addr % n ≢ 0
      → trap_check_addr_alignment k n is_load addr s
        ≡ (raised (misaligned is_load (k.concrete addr)), s)
  unfolding trap_check_addr_alignment
  check_lem n is_load addr ne = rw (ne→== (k.concrete addr % n) 0 ne) refl

  checked :
      (B : Type 0) (n : ℕ) (is_load : Bool) (addr : k.Value) (m : Action (State k.Value D) B)
      → k.concrete addr % n ≢ 0
      → (trap_check_addr_alignment k n is_load addr >> m) s
        ≡ (raised (misaligned is_load (k.concrete addr)), s)
  checked B n is_load addr m ne =
      >>=-raised (trap_check_addr_alignment k n is_load addr) (λ _. m) s s
        (misaligned is_load (k.concrete addr)) (check_lem n is_load addr ne)

  loads_lem :
      (n : ℕ) (get : k.Value → Action (State k.Value D) k.Value)
      → k.concrete (address plus_i) % n ≢ 0
      → load_aligned k mem n get s ≡ (raised (misaligned true (k.concrete (address plus_i))), s)
  unfolding load_aligned
  loads_lem n get ne =
      checked (Unit {0}) n true (address plus_i) (get (address plus_i) >>= write_rd k) ne

  stores_lem :
      (n : ℕ) (put : k.Value → k.Value → Action (State k.Value D) (Unit {0}))
      → k.concrete (address plus_s) % n ≢ 0
      → store_aligned k mem n put s ≡ (raised (misaligned false (k.concrete (address plus_s))), s)
  unfolding store_aligned
  stores_lem n put ne =
      checked (Unit {0}) n false (address plus_s) (λ t. put (address plus_s) (reg2 k t) t) ne

  abbrev pub illegal_instruction : SimulationTrap
  illegal_instruction = record { reason = exc_illegal_instr; mtval = s.hart.instr }

  missing_lem :
      (e : ℕ)
      → has_extension (s.hart.csrs misa) e ≡ false
      → require_isa k e s ≡ (raised illegal_instruction, s)
  unfolding require_isa
  missing_lem e h = rw h refl

  present_lem :
      (e : ℕ) → has_extension (s.hart.csrs misa) e ≡ true → require_isa k e s ≡ (returned tt, s)
  unfolding require_isa
  present_lem e h = rw h refl

  pub missing :
      (e : ℕ) (m : Action (State k.Value D) (Unit {0}))
      → has_extension (s.hart.csrs misa) e ≡ false
      → (require_isa k e >> m) s ≡ (raised illegal_instruction, s)
  missing e m h = >>=-raised (require_isa k e) (λ _. m) s s illegal_instruction (missing_lem e h)

  -- An atomic instruction, as far as it goes before the memory.
  amo_lem :
      (m : Action (State k.Value D) (Unit {0})) (is_load : Bool)
      → has_extension (s.hart.csrs misa) a_extension ≡ true
      → m s ≡ (raised (misaligned is_load (k.concrete (reg1 k s))), s)
      → (require_isa k a_extension >> m) s
        ≡ (raised (misaligned is_load (k.concrete (reg1 k s))), s)
  amo_lem m is_load h e =
      >>=-returned (require_isa k a_extension) (λ _. m) s s tt (present_lem a_extension h) ∙ e

  amo-misaligned :
      (f : k.Value → k.Value → k.Value)
      → k.concrete (reg1 k s) % 4 ≢ 0
      → execute_amo k mem f s ≡ (raised (misaligned false (k.concrete (reg1 k s))), s)
  unfolding execute_amo
  amo-misaligned f ne = rw (ne→== (k.concrete (reg1 k s) % 4) 0 ne) refl

  reserve-misaligned :
      k.concrete (reg1 k s) % 4 ≢ 0
      → load_reserved k mem s ≡ (raised (misaligned true (k.concrete (reg1 k s))), s)
  unfolding load_reserved
  reserve-misaligned ne = rw (ne→== (k.concrete (reg1 k s) % 4) 0 ne) refl

  condition-misaligned :
      k.concrete (reg1 k s) % 4 ≢ 0
      → store_conditional k mem s ≡ (raised (misaligned false (k.concrete (reg1 k s))), s)
  unfolding store_conditional
  condition-misaligned ne = rw (ne→== (k.concrete (reg1 k s) % 4) 0 ne) refl

  -- The atomic instructions need their extension.
  abbrev pub IsEnabled : Base → Type 0
  IsEnabled plus_i = Unit
  IsEnabled plus_s = Unit
  IsEnabled alone = has_extension (s.hart.csrs misa) a_extension ≡ true

  -- A load, a store or an atomic instruction of an enabled extension, whose address is no multiple of
  -- its width, raises the misaligned exception of its kind (LR counts as a load, SC and AMO as stores)
  -- with that address, and changes nothing: neither the memory, nor the lock of the bus, nor a register.
  pub execute-misaligned :
      (op : Mapping) (n : ℕ) (is_load : Bool) (b : Base)
      → Accesses op n is_load b
      → IsEnabled b
      → k.concrete (address b) % n ≢ 0
      → execute k mem env op s ≡ (raised (misaligned is_load (k.concrete (address b))), s)
  unfolding execute integer_result execute_jump execute_transfer execute_system execute_multiply
      execute_atomic
  execute-misaligned op n is_load b halves on ne = loads_lem 2 mem.load_half ne
  execute-misaligned op n is_load b unsigned_halves on ne = loads_lem 2 mem.load_uhalf ne
  execute-misaligned op n is_load b words on ne = loads_lem 4 mem.load_word ne
  execute-misaligned op n is_load b stored_halves on ne = stores_lem 2 mem.store_half ne
  execute-misaligned op n is_load b stored_words on ne = stores_lem 4 mem.store_word ne
  execute-misaligned op n is_load b reserved_words on ne =
      amo_lem (load_reserved k mem) true on (reserve-misaligned ne)
  execute-misaligned op n is_load b conditional_words on ne =
      amo_lem (store_conditional k mem) false on (condition-misaligned ne)
  execute-misaligned op n is_load b swap_words on ne =
      amo_lem (execute_amo k mem (λ a b. b)) false on (amo-misaligned (λ a b. b) ne)
  execute-misaligned op n is_load b sum_words on ne =
      amo_lem (execute_amo k mem k.add) false on (amo-misaligned k.add ne)
  execute-misaligned op n is_load b difference_words on ne =
      amo_lem (execute_amo k mem k.bxor) false on (amo-misaligned k.bxor ne)
  execute-misaligned op n is_load b conjunction_words on ne =
      amo_lem (execute_amo k mem k.band) false on (amo-misaligned k.band ne)
  execute-misaligned op n is_load b disjunction_words on ne =
      amo_lem (execute_amo k mem k.bor) false on (amo-misaligned k.bor ne)
  execute-misaligned op n is_load b least_words on ne =
      amo_lem (execute_amo k mem (λ a b. k.select (k.sge a b) b a)) false on
        (amo-misaligned (λ a b. k.select (k.sge a b) b a) ne)
  execute-misaligned op n is_load b unsigned_least_words on ne =
      amo_lem (execute_amo k mem (λ a b. k.select (k.uge a b) b a)) false on
        (amo-misaligned (λ a b. k.select (k.uge a b) b a) ne)
  execute-misaligned op n is_load b greatest_words on ne =
      amo_lem (execute_amo k mem (λ a b. k.select (k.sge a b) a b)) false on
        (amo-misaligned (λ a b. k.select (k.sge a b) a b) ne)
  execute-misaligned op n is_load b unsigned_greatest_words on ne =
      amo_lem (execute_amo k mem (λ a b. k.select (k.uge a b) a b)) false on
        (amo-misaligned (λ a b. k.select (k.uge a b) a b) ne)
