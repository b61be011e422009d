-- ===== src/Core/Memory/Again.antt =====
-- The entries of the translation buffer of vp/src/core/common/mmu.h: what a second translation of the
-- same page gives.
use symex_vp.Common.{
  ℕ, ◌+◌, ◌*◌, ◌/◌, ◌%◌, ◌^◌, ◌≤◌, ◌≡◌, ◌≢◌, refl, ◌∙◌, ap, true, not, ◌==◌, leb, if◌then◌else◌,
  if_cases, arith, ==→eq, ne→==, sym, or_high_low,
}
use symex_vp.Iss.Hart.{Result, returned, machine_mode}
use symex_vp.Iss.Action.{pure, modify, ◌>>=◌, ◌>>◌, >>=-returned}
use symex_vp.Mmu.Walk.{MemoryAccessType, fetch, load, store, MmuMemory, walk, pgshift}
use symex_vp.Mmu.Entry.{Tlb, TlbEntry}
use symex_vp.Core.State.{State}
use symex_vp.Core.Memory.Translate.{
  translate_virtual_to_physical_addr, access_mode, control, satp_mode, insert, same_type, kept_page,
  hit_address,
}

same_lem : (a : ℕ) → (a == a) ≡ true
same_lem a = ground arith

same_type_lem : (type : MemoryAccessType) → same_type type type ≡ true
same_type_lem fetch = refl
same_type_lem load = refl
same_type_lem store = refl

insert_lem :
    (mode idx : ℕ) (type : MemoryAccessType) (e : TlbEntry) (tlb : Tlb)
    → insert mode type idx e tlb mode type idx ≡ e
insert_lem mode idx type e tlb = rw (same_lem mode, same_lem idx, same_type_lem type) refl

-- The address that the entry of a page gives.
hit_lem :
    (paddr vaddr vpn : ℕ)
    → hit_address (record { ppn = kept_page paddr; vpn = vpn }) vaddr
      ≡ paddr % 2 ^ 32 / 2 ^ 12 * 2 ^ 12 + vaddr % 2 ^ 12
hit_lem paddr vaddr vpn = or_high_low 12 (paddr % 2 ^ 32 / 2 ^ 12) (vaddr % 2 ^ 12) (omega arith)

module _ {V D : Type 0} (mem : MmuMemory (State V D)) (type : MemoryAccessType) where
  -- The state after a walk, with the page that it found.
  abbrev pub filled : ℕ → ℕ → ℕ → State V D → State V D
  filled mode vaddr paddr t = record t {
    tlb =
        insert mode type (vaddr / 2 ^ pgshift % 256)
          (record { ppn = kept_page paddr; vpn = vaddr / 2 ^ pgshift }) t.tlb;
  }

  -- The translation of a mode that is translated, by the entry or by the walk.
  translated_lem :
      (vaddr : ℕ) (s : State V D)
      → satp_mode s.hart ≢ 0
      → access_mode type s ≤ 1
      → translate_virtual_to_physical_addr mem vaddr type s ≡ (
          if (s.tlb (access_mode type s) type (vaddr / 2 ^ pgshift % 256)).vpn
            == vaddr / 2 ^ pgshift
          then (
            returned
                (hit_address (s.tlb (access_mode type s) type (vaddr / 2 ^ pgshift % 256)) vaddr),
            s,
          )
          else (walk mem (control s) 32 vaddr type (access_mode type s) >>= λ paddr.
                modify (filled (access_mode type s) vaddr paddr) >> pure paddr)
              s)
  unfolding translate_virtual_to_physical_addr
  translated_lem vaddr s on le =
      let P : Result ℕ × State V D → Type 0 = λ out. out ≡ (
        if (s.tlb (access_mode type s) type (vaddr / 2 ^ pgshift % 256)).vpn == vaddr / 2 ^ pgshift
        then (
          returned
              (hit_address (s.tlb (access_mode type s) type (vaddr / 2 ^ pgshift % 256)) vaddr),
          s,
        )
        else (walk mem (control s) 32 vaddr type (access_mode type s) >>= λ paddr.
              modify (filled (access_mode type s) vaddr paddr) >> pure paddr)
            s) in
      if_cases P (satp_mode s.hart == 0) _ _ (λ e. absurd (on (==→eq (satp_mode s.hart) 0 e)))
        (λ _.
          if_cases P (access_mode type s == machine_mode) _ _
            (λ e. absurd (omega (arith, ==→eq (access_mode type s) 3 e)))
            (λ _.
              if_cases P (not (leb (access_mode type s) 1)) _ _ (λ e. absurd (ground arith))
                (λ _. refl)))

  -- In a mode that is translated, a page that the buffer does not have yet is walked for, and the
  -- address that the walk found, if it found one, is the result; if the hart's mode and
  -- `satp.mode` are the same afterwards, a second access of the same kind to the page takes its
  -- address from the buffer, and changes nothing: the lower 32 bits of the page, and the offset.
  pub translate-again :
      (vaddr vaddr' paddr : ℕ) (s t : State V D)
      → satp_mode s.hart ≢ 0
      → access_mode type s ≤ 1
      → (s.tlb (access_mode type s) type (vaddr / 2 ^ pgshift % 256)).vpn ≢ vaddr / 2 ^ pgshift
      → walk mem (control s) 32 vaddr type (access_mode type s) s ≡ (returned paddr, t)
      → access_mode type t ≡ access_mode type s
      → satp_mode t.hart ≡ satp_mode s.hart
      → vaddr' / 2 ^ pgshift ≡ vaddr / 2 ^ pgshift
      → (translate_virtual_to_physical_addr mem vaddr type s
          ≡ (returned paddr, filled (access_mode type s) vaddr paddr t))
        × (translate_virtual_to_physical_addr mem vaddr' type
              (filled (access_mode type s) vaddr paddr t)
            ≡ (
              returned (paddr % 2 ^ 32 / 2 ^ 12 * 2 ^ 12 + vaddr' % 2 ^ 12),
              filled (access_mode type s) vaddr paddr t,
            ))
  translate-again vaddr vaddr' paddr s t on le miss w m a page =
      let mode : ℕ = access_mode type s in
      let vpn : ℕ = vaddr / 2 ^ pgshift in
      let u : State V D = filled mode vaddr paddr t in
      let e : TlbEntry = record { ppn = kept_page paddr; vpn = vpn } in
      let hit : u.tlb (access_mode type u) type (vaddr' / 2 ^ pgshift % 256) ≡ e =
        ap (λ i. u.tlb i type (vaddr' / 2 ^ pgshift % 256)) m
        ∙ (ap (λ i. u.tlb mode type (i % 256)) page ∙ insert_lem mode (vpn % 256) type e t.tlb) in
      let found : Result ℕ × State V D → Type 0 =
        λ out. out ≡ (returned (paddr % 2 ^ 32 / 2 ^ 12 * 2 ^ 12 + vaddr' % 2 ^ 12), u) in
      (
        translated_lem vaddr s on le
            ∙ (ap
                  (λ b.
                    if b
                    then (returned (hit_address (s.tlb mode type (vpn % 256)) vaddr), s)
                    else (walk mem (control s) 32 vaddr type mode >>= λ paddr.
                          modify (filled mode vaddr paddr) >> pure paddr)
                        s)
                  (ne→== (s.tlb mode type (vpn % 256)).vpn vpn miss)
                ∙ >>=-returned (walk mem (control s) 32 vaddr type mode)
                    (λ paddr. modify (filled mode vaddr paddr) >> pure paddr) s t paddr w),
        translated_lem vaddr' u (λ z. on (sym a ∙ z)) (omega arith)
            ∙ if_cases found
                ((u.tlb (access_mode type u) type (vaddr' / 2 ^ pgshift % 256)).vpn
                  == vaddr' / 2 ^ pgshift)
                _ _
                (λ _.
                  ap (λ x. (returned (hit_address x vaddr'), u)) hit
                  ∙ ap (λ x. (returned x, u)) (hit_lem paddr vaddr' vpn))
                (λ no. absurd (
                  cc (
                    no,
                    ap (λ (x : TlbEntry). x.vpn == vaddr' / 2 ^ pgshift) hit,
                    ap (λ x. vpn == x) page,
                    same_lem vpn,
                  ))),
      )
