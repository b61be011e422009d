-- ===== src/Core/Execute/Atomic.antt =====
-- The instructions of the A extension in `ISS::exec_step`, with `execute_amo` of
-- vp/src/core/rv32/iss.h.
use symex_vp.Common.{ℕ, true, false, ◌==◌, if◌then◌else◌, Option, none, some}
use symex_vp.Instr.Mapping.{
  Mapping, lr_w, sc_w, amoswap_w, amoadd_w, amoxor_w, amoand_w, amoor_w, amomin_w, amominu_w,
  amomax_w, amomaxu_w,
}
use symex_vp.Iss.Hart.{Hart, Result, returned, raised, aborted}
use symex_vp.Iss.Action.{Action, modify, ◌>>=◌, ◌>>◌}
use symex_vp.Core.Clover.{Clover}
use symex_vp.Core.State.{State, on_hart}
use symex_vp.Core.Interface.{Memory}
use symex_vp.Core.Operands.{
  reg1, reg2, write_rd, require_isa, a_extension, trap_check_addr_alignment,
}

abbrev pub exc_load_access_fault : ℕ
exc_load_access_fault = 5

abbrev pub exc_store_amo_access_fault : ℕ
exc_store_amo_access_fault = 7

-- The `catch` of `execute_amo`.
unfoldable pub as_amo_fault {ℓ} : {A : Type ℓ} → Result A → Result A
as_amo_fault (returned a) = returned a
as_amo_fault (raised e) = raised (
    if e.reason == exc_load_access_fault
    then record e { reason = exc_store_amo_access_fault }
    else e)
as_amo_fault aborted = aborted

abbrev pub set_counter : ℕ → Hart → Hart
set_counter n h = record h { lr_sc_counter = n }

module _ (k : Clover) {D : Type 0} (mem : Memory (State k.Value D) k.Value) where
  unfoldable pub execute_amo : (k.Value → k.Value → k.Value) → Action (State k.Value D) (Unit {0})
  unfolding trap_check_addr_alignment as_amo_fault write_rd
  execute_amo operation s =
      let addr = reg1 k s in
      let atomic_load : Action (State k.Value D) k.Value =
        λ t. (let (r, t') = mem.atomic_load_word addr t in (as_amo_fault r, t')) in
      (trap_check_addr_alignment k 4 false addr
          >> (atomic_load >>= λ value.
              λ t. (mem.atomic_store_word addr (operation value (reg2 k t)) >> write_rd k value) t))
        s

  unfoldable pub load_reserved : Action (State k.Value D) (Unit {0})
  unfolding trap_check_addr_alignment write_rd
  load_reserved s =
      let addr = reg1 k s in
      (trap_check_addr_alignment k 4 true addr
          >> ((mem.atomic_load_reserved_word addr >>= write_rd k)
              >> modify (on_hart (λ h. if h.lr_sc_counter == 0 then set_counter 17 h else h))))
        s

  unfoldable pub store_conditional : Action (State k.Value D) (Unit {0})
  unfolding trap_check_addr_alignment write_rd
  store_conditional s =
      let addr = reg1 k s in
      let val = reg2 k s in
      (trap_check_addr_alignment k 4 false addr
          >> (write_rd k (k.bvc 1)
              >> ((mem.atomic_store_conditional_word addr val >>= λ stored.
                    write_rd k (if stored then k.bvc 0 else k.bvc 1))
                  >> modify (on_hart (set_counter 0)))))
        s

  unfoldable pub execute_atomic : Mapping → Option (Action (State k.Value D) (Unit {0}))
  unfolding require_isa execute_amo load_reserved store_conditional
  execute_atomic lr_w = some (require_isa k a_extension >> load_reserved)
  execute_atomic sc_w = some (require_isa k a_extension >> store_conditional)
  execute_atomic amoswap_w = some (require_isa k a_extension >> execute_amo (λ a b. b))
  execute_atomic amoadd_w = some (require_isa k a_extension >> execute_amo k.add)
  execute_atomic amoxor_w = some (require_isa k a_extension >> execute_amo k.bxor)
  execute_atomic amoand_w = some (require_isa k a_extension >> execute_amo k.band)
  execute_atomic amoor_w = some (require_isa k a_extension >> execute_amo k.bor)
  execute_atomic amomin_w =
      some (require_isa k a_extension >> execute_amo (λ a b. k.select (k.sge a b) b a))
  execute_atomic amominu_w =
      some (require_isa k a_extension >> execute_amo (λ a b. k.select (k.uge a b) b a))
  execute_atomic amomax_w =
      some (require_isa k a_extension >> execute_amo (λ a b. k.select (k.sge a b) a b))
  execute_atomic amomaxu_w =
      some (require_isa k a_extension >> execute_amo (λ a b. k.select (k.uge a b) a b))
  execute_atomic op = none
