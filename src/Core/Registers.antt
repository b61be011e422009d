-- ===== src/Core/Registers.antt =====
-- The register file of vp/src/core/rv32/iss.cpp keeps its size and its widths, whatever is executed.
use symex_vp.Common.{
  ℕ, zero, suc, ◌^◌, ◌≤◌, ◌<◌, ◌≡◌, refl, ◌==◌, ltb, leb, if◌then◌else◌, List, length, set, get_or,
  Option, none, some, arith, length-set, get_or-set_self, get_or-set_ne, if_cases, replicate,
  Bool-cases, inl, inr, ◌∙◌, ap, ==→eq,
}
use symex_vp.Core.Clover.{Clover}
use symex_vp.Core.RegFile

-- What clover says of widths: constants of the hart have 32 bits and are read back, and a value is
-- extended to the width that is asked for.
pub record Widths (k : Clover) : Type 0 where
  pub width_bvc : (x : ℕ) → k.get_width (k.bvc x) ≡ 32
  pub concrete_bvc : (x : ℕ) → x < 2 ^ 32 → k.concrete (k.bvc x) ≡ x
  pub width_zext : (w : ℕ) (v : k.Value) → k.get_width v ≤ w → k.get_width (k.zext w v) ≡ w

module _ (k : Clover) where
  -- 32 registers, of 32 bits each.
  pub record IsFile (regs : List k.Value) : Type 0 where
    pub size : length regs ≡ 32
    pub wide : (i : ℕ) → k.get_width (RegFile.element k regs i) ≡ 32

  abbrev pub IsWritten : Option (List k.Value) → Type 0
  IsWritten none = Unit
  IsWritten (some regs) = IsFile regs

module _ (k : Clover) (w : Widths k) where
  pub set-IsFile :
      (i : ℕ) (v : k.Value) (regs : List k.Value)
      → i < 32
      → k.get_width v ≡ 32
      → IsFile k regs
      → IsFile k (set regs i v)
  unfolding RegFile.element
  set-IsFile i v regs lt e f = record {
    size = length-set regs i v ∙ f.size;
    wide = λ j. elim (Bool-cases (j == i)) [
      | inl same ↦
          let q : j ≡ i = ==→eq j i same in
          rw q (ap k.get_width (get_or-set_self regs i v (k.bvc 0) (omega (arith, f.size))) ∙ e)
      | inr other ↦
          ap k.get_width (get_or-set_ne regs i j v (k.bvc 0) (λ q. ground arith)) ∙ f.wide j
    ];
  }

  pub write-IsFile :
      (i : ℕ) (v : k.Value) (regs : List k.Value)
      → IsFile k regs
      → IsWritten k (RegFile.write k i v regs)
  unfolding RegFile.write
  write-IsFile i v regs f = elim (Bool-cases (leb i 31)) [
    | inr out ↦ rw out tt
    | inl within ↦ rw within (
        if_cases (IsFile k) (ltb (k.get_width v) 32) (set regs i (k.zext 32 v))
          (if k.get_width v == 32 then set regs i v else regs)
          (λ short.
            set-IsFile i (k.zext 32 v) regs (ground arith) (w.width_zext 32 v (ground arith)) f)
          (λ _.
            if_cases (IsFile k) (k.get_width v == 32) (set regs i v) regs
              (λ e. set-IsFile i v regs (ground arith) (==→eq (k.get_width v) 32 e) f) (λ _. f)))
  ]

  element-replicate : (n i : ℕ) → get_or (replicate n (k.bvc 0)) i (k.bvc 0) ≡ k.bvc 0
  element-replicate zero i = refl
  element-replicate (suc n) zero = refl
  element-replicate (suc n) (suc i) = element-replicate n i

  pub zeros-IsFile : IsFile k (RegFile.zeros k)
  unfolding RegFile.zeros RegFile.element
  zeros-IsFile = record {
    size = refl;
    wide = λ i. ap k.get_width (element-replicate 32 i) ∙ w.width_bvc 0;
  }
