-- ===== src/Mmu/Architecture.antt =====
-- Sv32 of the privileged architecture, level by level and in terms of bit fields: the independent
-- description that the walk is compared with.
use symex_vp.Common.{
  ℕ, ◌+◌, ◌*◌, ◌/◌, ◌%◌, ◌^◌, Bool, ◌&&◌, ◌||◌, not, ◌==◌, if◌then◌else◌, Option, none, some,
  bit_or, bit,
}
use symex_vp.Iss.Action.{Action, pure, ◌>>◌}
use symex_vp.Mmu.Walk.{
  MemoryAccessType, fetch, load, store, v_flag, r_flag, w_flag, x_flag, u_flag, Control, MmuMemory,
  page_fault,
}

unfoldable pub is_valid : ℕ → Bool
is_valid pte = v_flag pte && (r_flag pte || not (w_flag pte))

unfoldable pub is_leaf : ℕ → Bool
is_leaf pte = r_flag pte || x_flag pte

-- The right that the entry must give for the access.
unfoldable pub right : Control → MemoryAccessType → ℕ → Bool
right c fetch pte = x_flag pte
right c load pte = r_flag pte || (c.mxr && x_flag pte)
right c store pte = r_flag pte && w_flag pte

-- S reaches pages of U only with SUM, and never to execute them; U reaches only its own.
unfoldable pub reachable : Control → MemoryAccessType → Bool → ℕ → Bool
reachable c fetch s_mode pte = if u_flag pte then not s_mode else s_mode
reachable c load s_mode pte = if u_flag pte then not s_mode || c.sum else s_mode
reachable c store s_mode pte = if u_flag pte then not s_mode || c.sum else s_mode

unfoldable pub permits : Control → MemoryAccessType → Bool → ℕ → Bool
permits c type s_mode pte = right c type pte && reachable c type s_mode pte

-- The accessed flag, and for a store the dirty flag.
unfoldable pub is_marked : MemoryAccessType → ℕ → Bool
is_marked fetch pte = bit pte 6
is_marked load pte = bit pte 6
is_marked store pte = bit pte 6 && bit pte 7

pub record Translation : Type 0 where
  pub pte_address : ℕ
  pub pte : ℕ
  pub address : ℕ

-- A page of 4 KiB: the physical page number of the entry before the 12 bits of the offset.
unfoldable pub small_page : Control → MemoryAccessType → Bool → ℕ → ℕ → ℕ → Option Translation
unfolding is_valid is_leaf permits right reachable
small_page c type s_mode vaddr addr pte =
    if is_valid pte && (is_leaf pte && permits c type s_mode pte)
    then some
        (record { pte_address = addr; pte = pte; address = pte / 2 ^ 10 * 2 ^ 12 + vaddr % 2 ^ 12 })
    else none

-- A page of 4 MiB: the upper physical page number before the 22 bits of the offset. The lower one
-- must be zero.
unfoldable pub large_page : Control → MemoryAccessType → Bool → ℕ → ℕ → ℕ → Option Translation
unfolding permits right reachable
large_page c type s_mode vaddr addr pte =
    if (pte / 2 ^ 10 % 2 ^ 10 == 0) && permits c type s_mode pte
    then some
        (record { pte_address = addr; pte = pte; address = pte / 2 ^ 20 * 2 ^ 22 + vaddr % 2 ^ 22 })
    else none

-- `read` gives the word at a physical address, and `root` is the page number in `satp`.
unfoldable pub sv32 : (ℕ → ℕ) → ℕ → Control → MemoryAccessType → Bool → ℕ → Option Translation
unfolding is_valid is_leaf small_page large_page
sv32 read root c type s_mode vaddr =
    let first = root * 2 ^ 12 + vaddr / 2 ^ 22 * 4 in
    let pte = read first in
    let second = pte / 2 ^ 10 * 2 ^ 12 + vaddr / 2 ^ 12 % 2 ^ 10 * 4 in
    if is_valid pte
    then (if is_leaf pte
        then large_page c type s_mode vaddr first pte
        else small_page c type s_mode vaddr second (read second))
    else none

unfoldable pub marks : MemoryAccessType → ℕ → ℕ
marks fetch pte = bit_or pte 0x40
marks load pte = bit_or pte 0x40
marks store pte = bit_or pte 0xc0

-- What a translation does: a page fault of the access, or the address, after the entry was marked as
-- accessed or dirty if it was not, which the hardware may leave to the software by a page fault.
unfoldable pub outcome :
    {S : Type 0} → MmuMemory S → Control → MemoryAccessType → ℕ → Option Translation → Action S ℕ
unfolding is_marked marks
outcome mem c type vaddr none = page_fault type vaddr
outcome mem c type vaddr (some t) =
    if is_marked type t.pte
    then pure t.address
    else if c.page_fault_on_ad
    then page_fault type vaddr
    else mem.mmu_store_pte32 t.pte_address (marks type t.pte) >> pure t.address
