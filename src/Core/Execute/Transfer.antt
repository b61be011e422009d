-- ===== src/Core/Execute/Transfer.antt =====
-- The loads and stores in `ISS::exec_step`.
use symex_vp.Common.{true, false, Option, none, some, ℕ}
use symex_vp.Instr.Mapping.{Mapping, sb, sh, sw, lb, lh, lw, lbu, lhu}
use symex_vp.Iss.Action.{Action, ◌>>=◌, ◌>>◌}
use symex_vp.Core.Clover.{Clover}
use symex_vp.Core.State.{State}
use symex_vp.Core.Interface.{Memory}
use symex_vp.Core.Operands.{
  reg1, reg2, i_immediate, s_immediate, write_rd, trap_check_addr_alignment,
}

module _ (k : Clover) {D : Type 0} (mem : Memory (State k.Value D) k.Value) where
  unfoldable pub store_aligned :
      ℕ
      → (k.Value → k.Value → Action (State k.Value D) (Unit {0}))
      → Action (State k.Value D) (Unit {0})
  unfolding trap_check_addr_alignment
  store_aligned alignment put s =
      let addr = k.add (reg1 k s) (s_immediate k s) in
      (trap_check_addr_alignment k alignment false addr >> λ t. put addr (reg2 k t) t) s

  unfoldable pub load_aligned :
      ℕ → (k.Value → Action (State k.Value D) k.Value) → Action (State k.Value D) (Unit {0})
  unfolding trap_check_addr_alignment write_rd
  load_aligned alignment get s =
      let addr = k.add (reg1 k s) (i_immediate k s) in
      (trap_check_addr_alignment k alignment true addr >> (get addr >>= write_rd k)) s

  unfoldable pub execute_transfer : Mapping → Option (Action (State k.Value D) (Unit {0}))
  unfolding store_aligned load_aligned
  execute_transfer sb = some (λ s. mem.store_byte (k.add (reg1 k s) (s_immediate k s)) (reg2 k s) s)
  execute_transfer sh = some (store_aligned 2 mem.store_half)
  execute_transfer sw = some (store_aligned 4 mem.store_word)
  execute_transfer lb =
      some (λ s. (mem.load_byte (k.add (reg1 k s) (i_immediate k s)) >>= write_rd k) s)
  execute_transfer lh = some (load_aligned 2 mem.load_half)
  execute_transfer lw = some (load_aligned 4 mem.load_word)
  execute_transfer lbu =
      some (λ s. (mem.load_ubyte (k.add (reg1 k s) (i_immediate k s)) >>= write_rd k) s)
  execute_transfer lhu = some (load_aligned 2 mem.load_uhalf)
  execute_transfer op = none
