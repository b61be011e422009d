-- ===== src/Iss/Priority.antt =====
-- The order in which `prepare_interrupt` takes pending interrupts.
use symex_vp.Common.{
  ℕ, ◌<◌, ◌^◌, ◌≡◌, ◌≢◌, refl, true, false, ◌&&◌, ◌==◌, ltb, truth, flag, [], ◌∷◌, switch, if_cases,
  arith,
}
use symex_vp.Csr.Fields.{get, meip, msip, mtip, seip, ssip, stip, ueip, usip, utip}
use symex_vp.Iss.Hart.{Result, returned}
use symex_vp.Iss.Trap.{interrupt_code}

-- The places of the exception codes in the order of the privileged architecture: external, software
-- and timer interrupts of M, then of S, then of U.
unfoldable pub rank : ℕ → ℕ
unfolding switch
rank code =
    switch code
      ((11, 0) ∷ (3, 1) ∷ (7, 2) ∷ (9, 3) ∷ (1, 4) ∷ (5, 5) ∷ (8, 6) ∷ (0, 7) ∷ (4, 8) ∷ []) 9

-- `code` is the first of the flags of `x` in that order.
pub record IsFirst (x code : ℕ) : Type 0 where
  pub is_set : flag code x ≡ 1
  pub ranked : rank code < 9
  pub none_before : (j : ℕ) → ((flag j x == 1) && ltb (rank j) (rank code)) ≡ false

-- Only the nine interrupts of the machine are set.
unfoldable pub OnlyInterrupts : ℕ → Type 0
OnlyInterrupts x = (x < 2 ^ 12) × (flag 2 x ≡ 0) × (flag 6 x ≡ 0) × (flag 10 x ≡ 0)

abbrev Taken : ℕ → Result ℕ → Type 0
Taken x r = (code : ℕ) × (r ≡ returned code) × IsFirst x code

-- Flag by flag: taken if it is set, and else it is clear for those after it.
meip_set : (x : ℕ) → truth (get meip x) ≡ true → flag 11 x ≡ 1
unfolding flag
meip_set x h = ground (arith, h)

meip_clear : (x : ℕ) → truth (get meip x) ≡ false → flag 11 x ≡ 0
unfolding flag
meip_clear x h = ground (arith, h)

msip_set : (x : ℕ) → truth (get msip x) ≡ true → flag 3 x ≡ 1
unfolding flag
msip_set x h = ground (arith, h)

msip_clear : (x : ℕ) → truth (get msip x) ≡ false → flag 3 x ≡ 0
unfolding flag
msip_clear x h = ground (arith, h)

mtip_set : (x : ℕ) → truth (get mtip x) ≡ true → flag 7 x ≡ 1
unfolding flag
mtip_set x h = ground (arith, h)

mtip_clear : (x : ℕ) → truth (get mtip x) ≡ false → flag 7 x ≡ 0
unfolding flag
mtip_clear x h = ground (arith, h)

seip_set : (x : ℕ) → truth (get seip x) ≡ true → flag 9 x ≡ 1
unfolding flag
seip_set x h = ground (arith, h)

seip_clear : (x : ℕ) → truth (get seip x) ≡ false → flag 9 x ≡ 0
unfolding flag
seip_clear x h = ground (arith, h)

ssip_set : (x : ℕ) → truth (get ssip x) ≡ true → flag 1 x ≡ 1
unfolding flag
ssip_set x h = ground (arith, h)

ssip_clear : (x : ℕ) → truth (get ssip x) ≡ false → flag 1 x ≡ 0
unfolding flag
ssip_clear x h = ground (arith, h)

stip_set : (x : ℕ) → truth (get stip x) ≡ true → flag 5 x ≡ 1
unfolding flag
stip_set x h = ground (arith, h)

stip_clear : (x : ℕ) → truth (get stip x) ≡ false → flag 5 x ≡ 0
unfolding flag
stip_clear x h = ground (arith, h)

ueip_set : (x : ℕ) → truth (get ueip x) ≡ true → flag 8 x ≡ 1
unfolding flag
ueip_set x h = ground (arith, h)

ueip_clear : (x : ℕ) → truth (get ueip x) ≡ false → flag 8 x ≡ 0
unfolding flag
ueip_clear x h = ground (arith, h)

usip_set : (x : ℕ) → truth (get usip x) ≡ true → flag 0 x ≡ 1
unfolding flag
usip_set x h = ground (arith, h)

usip_clear : (x : ℕ) → truth (get usip x) ≡ false → flag 0 x ≡ 0
unfolding flag
usip_clear x h = ground (arith, h)

utip_set : (x : ℕ) → truth (get utip x) ≡ true → flag 4 x ≡ 1
unfolding flag
utip_set x h = ground (arith, h)

utip_clear : (x : ℕ) → truth (get utip x) ≡ false → flag 4 x ≡ 0
unfolding flag
utip_clear x h = ground (arith, h)

none_set :
    (x : ℕ)
    → OnlyInterrupts x
    → flag 11 x ≡ 0
    → flag 3 x ≡ 0
    → flag 7 x ≡ 0
    → flag 9 x ≡ 0
    → flag 1 x ≡ 0
    → flag 5 x ≡ 0
    → flag 8 x ≡ 0
    → flag 0 x ≡ 0
    → flag 4 x ≡ 0
    → x ≡ 0
unfolding OnlyInterrupts flag
none_set x (small, c2, c6, c10) c11 c3 c7 c9 c1 c5 c8 c0 c4 = omega arith

-- A nonempty set of pending interrupts has a first one in the order of the architecture, and
-- `prepare_interrupt` takes its exception code; it never fails for the want of an interrupt.
pub interrupt_code-IsFirst :
    (x : ℕ)
    → OnlyInterrupts x
    → x ≢ 0
    → (code : ℕ) × (interrupt_code x ≡ returned code) × IsFirst x code
unfolding interrupt_code rank switch
interrupt_code-IsFirst x only some_set =
    if_cases (Taken x) (truth (get meip x)) _ _
      (λ e. (
        11,
        refl,
        record { is_set = meip_set x e; ranked = omega arith; none_before = λ j. ground arith },
      ))
      (λ no_meip.
        let c11 = meip_clear x no_meip in
        if_cases (Taken x) (truth (get msip x)) _ _
          (λ e. (
            3,
            refl,
            record { is_set = msip_set x e; ranked = omega arith; none_before = λ j. ground arith },
          ))
          (λ no_msip.
            let c3 = msip_clear x no_msip in
            if_cases (Taken x) (truth (get mtip x)) _ _
              (λ e. (
                7,
                refl,
                record {
                  is_set = mtip_set x e;
                  ranked = omega arith;
                  none_before = λ j. ground arith;
                },
              ))
              (λ no_mtip.
                let c7 = mtip_clear x no_mtip in
                if_cases (Taken x) (truth (get seip x)) _ _
                  (λ e. (
                    9,
                    refl,
                    record {
                      is_set = seip_set x e;
                      ranked = omega arith;
                      none_before = λ j. ground arith;
                    },
                  ))
                  (λ no_seip.
                    let c9 = seip_clear x no_seip in
                    if_cases (Taken x) (truth (get ssip x)) _ _
                      (λ e. (
                        1,
                        refl,
                        record {
                          is_set = ssip_set x e;
                          ranked = omega arith;
                          none_before = λ j. ground arith;
                        },
                      ))
                      (λ no_ssip.
                        let c1 = ssip_clear x no_ssip in
                        if_cases (Taken x) (truth (get stip x)) _ _
                          (λ e. (
                            5,
                            refl,
                            record {
                              is_set = stip_set x e;
                              ranked = omega arith;
                              none_before = λ j. ground arith;
                            },
                          ))
                          (λ no_stip.
                            let c5 = stip_clear x no_stip in
                            if_cases (Taken x) (truth (get ueip x)) _ _
                              (λ e. (
                                8,
                                refl,
                                record {
                                  is_set = ueip_set x e;
                                  ranked = omega arith;
                                  none_before = λ j. ground arith;
                                },
                              ))
                              (λ no_ueip.
                                let c8 = ueip_clear x no_ueip in
                                if_cases (Taken x) (truth (get usip x)) _ _
                                  (λ e. (
                                    0,
                                    refl,
                                    record {
                                      is_set = usip_set x e;
                                      ranked = omega arith;
                                      none_before = λ j. ground arith;
                                    },
                                  ))
                                  (λ no_usip.
                                    let c0 = usip_clear x no_usip in
                                    if_cases (Taken x) (truth (get utip x)) _ _
                                      (λ e. (
                                        4,
                                        refl,
                                        record {
                                          is_set = utip_set x e;
                                          ranked = omega arith;
                                          none_before = λ j. ground arith;
                                        },
                                      ))
                                      (λ no_utip.
                                        let c4 = utip_clear x no_utip in
                                        absurd (
                                          some_set
                                            (none_set x only c11 c3 c7 c9 c1 c5 c8 c0 c4)))))))))))

-- The ranked codes are numbers of interrupts.
pub rank-lt : (code : ℕ) → rank code < 9 → code < 12
unfolding rank switch
rank-lt code h = ground arith
