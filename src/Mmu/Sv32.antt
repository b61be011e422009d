-- ===== src/Mmu/Sv32.antt =====
-- The walk of vp/src/core/common/mmu.h on Sv32, against the architecture's description.
use symex_vp.Common.{
  ℕ, suc, ◌+◌, ◌*◌, ◌/◌, ◌%◌, ◌^◌, ◌<◌, ◌≡◌, refl, ◌∙◌, ap, Bool, ◌&&◌, not, ◌==◌, ◌!=◌,
  if◌then◌else◌, none, some, bit_and, bit_or, arith, or_high_low, bit_or-lt, Bool-cases, inl, inr,
  and_field,
}
use symex_vp.Iss.Hart.{returned}
use symex_vp.Iss.Action.{>>=-returned}
use symex_vp.Mmu.Walk.{
  MemoryAccessType, fetch, load, store, Control, MmuMemory, physical, inspect, Verdict, break,
  descend, maps, u64, walk_from, finish, follow, load_pte, VmInfo, ad_flags,
}
use symex_vp.Mmu.Architecture.{
  is_valid, is_leaf, right, reachable, permits, small_page, large_page, sv32, outcome, is_marked,
  marks,
}

pub physical_small :
    (ppn vaddr : ℕ)
    → ppn < 2 ^ 22
    → vaddr < 2 ^ 32
    → physical 0 ppn vaddr ≡ ppn * 2 ^ 12 + vaddr % 2 ^ 12
unfolding physical
physical_small ppn vaddr hp hv =
    ground (arith, or_high_low 12 ppn (vaddr % 2 ^ 12), or_high_low 0 ppn 0 (omega arith))

pub physical_large :
    (ppn vaddr : ℕ)
    → ppn < 2 ^ 22
    → vaddr < 2 ^ 32
    → ppn % 2 ^ 10 ≡ 0
    → physical 10 ppn vaddr ≡ ppn / 2 ^ 10 * 2 ^ 22 + vaddr % 2 ^ 22
unfolding physical
physical_large ppn vaddr hp hv e = ground (
  arith,
  or_high_low 10 (ppn / 2 ^ 10) (vaddr / 2 ^ 12 % 2 ^ 10),
  or_high_low 12 (ppn / 2 ^ 10 * 2 ^ 10 + vaddr / 2 ^ 12 % 2 ^ 10) (vaddr % 2 ^ 12),
)

-- How an entry is judged, in the words of the architecture.
pub verdict : Control → MemoryAccessType → Bool → ℕ → ℕ → Verdict
unfolding is_valid is_leaf permits right reachable
verdict c type s_mode ptshift pte =
    if is_valid pte
    then (if is_leaf pte
        then (if (pte / 2 ^ 10 % 2 ^ ptshift == 0) && permits c type s_mode pte
            then maps
            else break)
        else descend (u64 (pte / 2 ^ 10 * 2 ^ 12)))
    else break

pub inspect-eq-verdict :
    (c : Control) (type : MemoryAccessType) (s_mode : Bool) (ptshift pte : ℕ)
    → inspect c type s_mode ptshift pte ≡ verdict c type s_mode ptshift pte
unfolding inspect verdict
inspect-eq-verdict c fetch s_mode ptshift pte = ground arith
inspect-eq-verdict c load s_mode ptshift pte = ground arith
inspect-eq-verdict c store s_mode ptshift pte = ground arith

marked_lem :
    (type : MemoryAccessType) (pte : ℕ)
    → (bit_and pte (ad_flags type) != ad_flags type) ≡ not (is_marked type pte)
unfolding is_marked
marked_lem fetch pte = ground (arith, and_field 6 1 pte)
marked_lem load pte = ground (arith, and_field 6 1 pte)
marked_lem store pte = ground (arith, and_field 6 2 pte)

marks-lt :
    (type : MemoryAccessType) (pte : ℕ)
    → pte < 2 ^ 32
    → bit_or pte (ad_flags type) % 2 ^ 32 ≡ marks type pte
unfolding marks
marks-lt fetch pte h = omega (arith, bit_or-lt 32 pte 0x40 h (omega arith))
marks-lt load pte h = omega (arith, bit_or-lt 32 pte 0x40 h (omega arith))
marks-lt store pte h = omega (arith, bit_or-lt 32 pte 0xc0 h (omega arith))

module _ {S : Type 0} (mem : MmuMemory S) (c : Control) (type : MemoryAccessType) (vaddr : ℕ)
    (s : S) where
  finish_lem :
      (ptshift addr pte : ℕ)
      → pte < 2 ^ 32
      → finish mem c type vaddr ptshift addr pte s
        ≡ outcome mem c type vaddr
            (some (record {
              pte_address = addr;
              pte = pte;
              address = physical ptshift (pte / 2 ^ 10) vaddr;
            }))
            s
  unfolding finish outcome
  finish_lem ptshift addr pte word = elim (Bool-cases (is_marked type pte)) [
    | inl e ↦ rw (marked_lem type pte, e) refl
    | inr e ↦
        rw (marked_lem type pte, e, marks-lt type pte word)
          (elim (Bool-cases c.page_fault_on_ad) [ inl f ↦ rw f refl | inr f ↦ rw f refl ])
  ]

abbrev pub sv32_info : ℕ → VmInfo
sv32_info base = record { levels = 2; idxbits = 10; ptesize = 4; ptbase = base }

module _ {S : Type 0} (mem : MmuMemory S) (c : Control) (type : MemoryAccessType) (s_mode : Bool)
    (vaddr : ℕ) (s : S) (read : ℕ → ℕ) (address : vaddr < 2 ^ 32)
    (words : (a : ℕ) → read a < 2 ^ 32)
    (reads : (a : ℕ) → mem.mmu_load_pte32 a s ≡ (returned (read a), s)) where
  -- One round of the loop.
  step_lem :
      (vm_base i base addr : ℕ)
      → u64 (base + vaddr / 2 ^ (12 + i * 10) % 2 ^ 10 * 4) ≡ addr
      → walk_from mem c (sv32_info vm_base) type s_mode vaddr (suc i) base s
        ≡ follow type vaddr
            (walk_from mem c (sv32_info vm_base) type s_mode vaddr i)
            (finish mem c type vaddr (i * 10) addr (read addr))
            (verdict c type s_mode (i * 10) (read addr))
            s
  unfolding walk_from load_pte
  step_lem vm_base i base addr e =
      >>=-returned
        (load_pte mem c (sv32_info vm_base) (u64 (base + vaddr / 2 ^ (12 + i * 10) % 2 ^ 10 * 4)))
        (λ pte.
          follow type vaddr (walk_from mem c (sv32_info vm_base) type s_mode vaddr i)
            (finish mem c type vaddr (i * 10) (u64 (base + vaddr / 2 ^ (12 + i * 10) % 2 ^ 10 * 4))
              pte)
            (inspect c type s_mode (i * 10) pte))
        s s (read (u64 (base + vaddr / 2 ^ (12 + i * 10) % 2 ^ 10 * 4)))
        (reads (u64 (base + vaddr / 2 ^ (12 + i * 10) % 2 ^ 10 * 4)))
      ∙ ap
          (λ a.
            follow type vaddr (walk_from mem c (sv32_info vm_base) type s_mode vaddr i)
              (finish mem c type vaddr (i * 10) a (read a))
              (inspect c type s_mode (i * 10) (read a)) s)
          e
      ∙ ap
          (λ v.
            follow type vaddr (walk_from mem c (sv32_info vm_base) type s_mode vaddr i)
              (finish mem c type vaddr (i * 10) addr (read addr)) v s)
          (inspect-eq-verdict c type s_mode (i * 10) (read addr))

  small_verdict :
      (vm_base addr pte : ℕ)
      → pte < 2 ^ 32
      → follow type vaddr
          (walk_from mem c (sv32_info vm_base) type s_mode vaddr 0)
          (finish mem c type vaddr 0 addr pte)
          (verdict c type s_mode 0 pte)
          s
        ≡ outcome mem c type vaddr (small_page c type s_mode vaddr addr pte) s
  unfolding follow verdict small_page walk_from outcome
  small_verdict vm_base addr pte word = elim (Bool-cases (is_valid pte)) [
    | inr e ↦ rw e refl
    | inl e ↦ (elim (Bool-cases (is_leaf pte)) [
      | inr f ↦ rw (e, f) refl
      | inl f ↦ (elim (Bool-cases (permits c type s_mode pte)) [
        | inr g ↦ let z : pte / 2 ^ 10 % 1 ≡ 0 = omega arith in rw (e, f, g, z) refl
        | inl g ↦
            let z : pte / 2 ^ 10 % 1 ≡ 0 = omega arith in
            rw (e, f, g, z)
              (finish_lem mem c type vaddr s 0 addr pte word
                ∙ ap
                    (λ a.
                      outcome mem c type vaddr
                        (some (record { pte_address = addr; pte = pte; address = a })) s)
                    (physical_small (pte / 2 ^ 10) vaddr (omega arith) address))
      ])
    ])
  ]

  last_level :
      (vm_base ppn : ℕ)
      → ppn < 2 ^ 22
      → walk_from mem c (sv32_info vm_base) type s_mode vaddr 1 (ppn * 2 ^ 12) s ≡ (
          let addr = ppn * 2 ^ 12 + vaddr / 2 ^ 12 % 2 ^ 10 * 4 in
          outcome mem c type vaddr (small_page c type s_mode vaddr addr (read addr)) s)
  unfolding follow verdict small_page outcome walk_from
  last_level vm_base ppn small =
      let addr : ℕ = ppn * 2 ^ 12 + vaddr / 2 ^ 12 % 2 ^ 10 * 4 in
      step_lem vm_base 0 (ppn * 2 ^ 12) addr (omega arith)
      ∙ small_verdict vm_base addr (read addr) (words addr)

  large_verdict :
      (vm_base addr pte : ℕ)
      → pte < 2 ^ 32
      → follow type vaddr
          (walk_from mem c (sv32_info vm_base) type s_mode vaddr 1)
          (finish mem c type vaddr 10 addr pte)
          (verdict c type s_mode 10 pte)
          s
        ≡ outcome mem c type vaddr
            (if is_valid pte
              then (if is_leaf pte
                  then large_page c type s_mode vaddr addr pte
                  else (let second = pte / 2 ^ 10 * 2 ^ 12 + vaddr / 2 ^ 12 % 2 ^ 10 * 4 in
                      small_page c type s_mode vaddr second (read second)))
              else none)
            s
  unfolding follow verdict large_page outcome
  large_verdict vm_base addr pte word = elim (Bool-cases (is_valid pte)) [
    | inr e ↦ rw e refl
    | inl e ↦ (elim (Bool-cases (is_leaf pte)) [
      | inr f ↦
          let z : u64 (pte / 2 ^ 10 * 2 ^ 12) ≡ pte / 2 ^ 10 * 2 ^ 12 = omega arith in
          rw (e, f)
            (ap (λ b. walk_from mem c (sv32_info vm_base) type s_mode vaddr 1 b s) z
              ∙ last_level vm_base (pte / 2 ^ 10) (omega arith))
      | inl f ↦ (elim (Bool-cases ((pte / 2 ^ 10 % 2 ^ 10 == 0) && permits c type s_mode pte)) [
        | inr g ↦ rw (e, f, g) refl
        | inl g ↦
            rw (e, f, g)
              (finish_lem mem c type vaddr s 10 addr pte word
                ∙ ap
                    (λ a.
                      outcome mem c type vaddr
                        (some (record { pte_address = addr; pte = pte; address = a })) s)
                    (physical_large (pte / 2 ^ 10) vaddr (omega arith) address (ground arith)
                      ∙ (omega arith)))
      ])
    ])
  ]

  pub levels_lem :
      (root : ℕ)
      → root < 2 ^ 22
      → walk_from mem c (sv32_info (root * 2 ^ 12)) type s_mode vaddr 2 (root * 2 ^ 12) s
        ≡ outcome mem c type vaddr (sv32 read root c type s_mode vaddr) s
  unfolding sv32
  levels_lem root small =
      let addr : ℕ = root * 2 ^ 12 + vaddr / 2 ^ 22 * 4 in
      step_lem (root * 2 ^ 12) 1 (root * 2 ^ 12) addr (omega arith)
      ∙ large_verdict (root * 2 ^ 12) addr (read addr) (words addr)
