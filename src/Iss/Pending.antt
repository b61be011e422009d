-- ===== src/Iss/Pending.antt =====
-- Which interrupts a hart may take, flag by flag, and what `compute_pending_interrupts` selects.
use symex_vp.Common.{
  ℕ, ◌≤◌, ◌<◌, ◌^◌, ◌≡◌, ◌≢◌, refl, sym, ap, Bool, true, false, not, ◌&&◌, ◌||◌, ◌==◌, ltb, leb,
  truth, if◌then◌else◌, bit_and, not32, flag, flag-bit_and, flag-and_not, flag-zero, flag-le, arith,
  bit_and-le, if_cases, Bool-cases, inl, inr, ◌⊎◌, ==→eq, ◌∙◌,
}
use symex_vp.Csr.Fields.{get, uie}
use symex_vp.Csr.Register.{mstatus, mideleg, sideleg, mie, mip}
use symex_vp.Iss.Hart.{Hart, machine_mode, supervisor_mode, user_mode, none_mode}
use symex_vp.Iss.Trap.{PendingInterrupts, compute_pending_interrupts}
use symex_vp.Iss.Return.{enable}

-- The registers that select interrupts hold words.
pub record HasWords (h : Hart) : Type 0 where
  pub mie_word : h.csrs mie < 2 ^ 32
  pub mip_word : h.csrs mip < 2 ^ 32
  pub mideleg_word : h.csrs mideleg < 2 ^ 32
  pub sideleg_word : h.csrs sideleg < 2 ^ 32

-- The mode that handles interrupt `i`: M unless it is delegated, to S and from there to U.
abbrev pub level : Hart → ℕ → ℕ
level h i =
    if flag i (h.csrs mideleg) == 0
    then machine_mode
    else (if flag i (h.csrs sideleg) == 0 then supervisor_mode else user_mode)

-- Interrupts of mode `m` interrupt the modes below, and `m` itself when it enables them.
abbrev pub enabled_at : Hart → ℕ → Bool
unfolding enable
enabled_at h m = ltb h.prv m || ((h.prv == m) && truth (get (enable m) (h.csrs mstatus)))

abbrev pub is_pending : Hart → ℕ → Bool
is_pending h i = (flag i (h.csrs mie) == 1) && (flag i (h.csrs mip) == 1)

abbrev pub is_deliverable : Hart → ℕ → Bool
is_deliverable h i = is_pending h i && enabled_at h (level h i)

-- What is selected: nothing when no interrupt is deliverable; or those of the highest mode that has
-- one, and all of those.
pub data IsSelection (h : Hart) (x : PendingInterrupts) : Type 0 where
  nothing : x.target_mode ≡ none_mode → ((i : ℕ) → is_deliverable h i ≡ false) → IsSelection h x
  selected :
      enabled_at h x.target_mode ≡ true
      → x.pending ≢ 0
      → x.pending ≤ h.csrs mie
      → ((i : ℕ) → (flag i x.pending == 1) ≡ (is_pending h i && (level h i == x.target_mode)))
      → ((i : ℕ) → (is_deliverable h i && not (leb (level h i) x.target_mode)) ≡ false)
      → IsSelection h x

-- A condition on the level of an interrupt, read at the mode that the level equals.
gate :
    (p : Bool) (f : ℕ → Bool) (l m : ℕ)
    → ((p && (l == m)) ≡ false) ⊎ (f m ≡ false)
    → ((p && f l) && (l == m)) ≡ false
gate p f l m shut = elim (Bool-cases (l == m)) [
  | inl e ↦
      (let same : l ≡ m = ==→eq l m e in
        elim shut [
          | inl none_pending ↦ ground (arith, none_pending)
          | inr off ↦ rw (ap f same, off) (ground arith)
        ])
  | inr e ↦ ground (arith, e)
]

no_flag : (i x : ℕ) → truth x ≡ false → (flag i x == 1) ≡ false
no_flag i x h = let none : x ≡ 0 = ground (arith, h) in rw (none, flag-zero i)

both-false : (a b : Bool) → a ≡ true → (a && b) ≡ false → b ≡ false
both-false a b e h = ground (arith, h)

module _ (h : Hart) (w : HasWords h) where
  pending : ℕ
  pending = bit_and (h.csrs mie) (h.csrs mip)

  m_pending : ℕ
  m_pending = bit_and pending (not32 (h.csrs mideleg))

  s_pending : ℕ
  s_pending = bit_and (bit_and pending (h.csrs mideleg)) (not32 (h.csrs sideleg))

  u_pending : ℕ
  u_pending = bit_and (bit_and pending (h.csrs mideleg)) (h.csrs sideleg)

  m_flags : (i : ℕ) → (flag i m_pending == 1) ≡ (is_pending h i && (level h i == machine_mode))
  unfolding m_pending pending
  m_flags i = ground (
    arith,
    flag-bit_and i (h.csrs mie) (h.csrs mip),
    flag-and_not i (bit_and (h.csrs mie) (h.csrs mip)) (h.csrs mideleg)
        (omega (arith, bit_and-le (h.csrs mie) (h.csrs mip), w.mie_word)) w.mideleg_word,
    flag-le i (h.csrs mie),
    flag-le i (h.csrs mip),
    flag-le i (h.csrs mideleg),
  )

  s_flags : (i : ℕ) → (flag i s_pending == 1) ≡ (is_pending h i && (level h i == supervisor_mode))
  unfolding s_pending pending
  s_flags i =
      let within = bit_and (h.csrs mie) (h.csrs mip) in
      ground (
        arith,
        flag-bit_and i (h.csrs mie) (h.csrs mip),
        flag-bit_and i within (h.csrs mideleg),
        flag-and_not i (bit_and within (h.csrs mideleg)) (h.csrs sideleg)
            (omega (
              arith,
              bit_and-le within (h.csrs mideleg),
              bit_and-le (h.csrs mie) (h.csrs mip),
              w.mie_word,
            ))
            w.sideleg_word,
        flag-le i (h.csrs mie),
        flag-le i (h.csrs mip),
        flag-le i (h.csrs mideleg),
        flag-le i (h.csrs sideleg),
      )

  u_flags : (i : ℕ) → (flag i u_pending == 1) ≡ (is_pending h i && (level h i == user_mode))
  unfolding u_pending pending
  u_flags i =
      let within = bit_and (h.csrs mie) (h.csrs mip) in
      ground (
        arith,
        flag-bit_and i (h.csrs mie) (h.csrs mip),
        flag-bit_and i within (h.csrs mideleg),
        flag-bit_and i (bit_and within (h.csrs mideleg)) (h.csrs sideleg),
        flag-le i (h.csrs mie),
        flag-le i (h.csrs mip),
        flag-le i (h.csrs mideleg),
        flag-le i (h.csrs sideleg),
      )

  m_within : m_pending ≤ h.csrs mie
  unfolding m_pending pending
  m_within = omega (
    arith,
    bit_and-le (bit_and (h.csrs mie) (h.csrs mip)) (not32 (h.csrs mideleg)),
    bit_and-le (h.csrs mie) (h.csrs mip),
  )

  s_within : s_pending ≤ h.csrs mie
  unfolding s_pending pending
  s_within =
      let within = bit_and (h.csrs mie) (h.csrs mip) in
      omega (
        arith,
        bit_and-le (bit_and within (h.csrs mideleg)) (not32 (h.csrs sideleg)),
        bit_and-le within (h.csrs mideleg),
        bit_and-le (h.csrs mie) (h.csrs mip),
      )

  u_within : u_pending ≤ h.csrs mie
  unfolding u_pending pending
  u_within =
      let within = bit_and (h.csrs mie) (h.csrs mip) in
      omega (
        arith,
        bit_and-le (bit_and within (h.csrs mideleg)) (h.csrs sideleg),
        bit_and-le within (h.csrs mideleg),
        bit_and-le (h.csrs mie) (h.csrs mip),
      )

  -- No interrupt of mode `m` is deliverable when the mode has none or does not let them through.
  unfoldable Closed : ℕ → Type 0
  Closed m = (i : ℕ) → (is_deliverable h i && (level h i == m)) ≡ false

  Closed_lem :
      (m x : ℕ)
      → ((i : ℕ) → (flag i x == 1) ≡ (is_pending h i && (level h i == m)))
      → (truth x && enabled_at h m) ≡ false
      → Closed m
  unfolding Closed
  Closed_lem m x flags shut i =
      gate (is_pending h i) (enabled_at h) (level h i) m (elim (Bool-cases (truth x)) [
        | inl some_pending ↦ inr (both-false (truth x) (enabled_at h m) some_pending shut)
        | inr none_pending ↦ inl (sym (flags i) ∙ no_flag i x none_pending)
      ])

  nothing_lem :
      Closed machine_mode
      → Closed supervisor_mode
      → Closed user_mode
      → (i : ℕ) → is_deliverable h i ≡ false
  unfolding Closed
  nothing_lem m s u i = ground (arith, m i, s i, u i)

  none_lem : truth pending ≡ false → (i : ℕ) → is_deliverable h i ≡ false
  unfolding pending
  none_lem none_pending i = ground (
    arith,
    no_flag i (bit_and (h.csrs mie) (h.csrs mip)) none_pending,
    flag-bit_and i (h.csrs mie) (h.csrs mip),
    flag-le i (h.csrs mie),
    flag-le i (h.csrs mip),
  )

  abbrev NoneAbove : ℕ → Type 0
  NoneAbove m = (i : ℕ) → (is_deliverable h i && not (leb (level h i) m)) ≡ false

  NoneAbove-machine : NoneAbove machine_mode
  NoneAbove-machine i = ground arith

  NoneAbove-supervisor : Closed machine_mode → NoneAbove supervisor_mode
  unfolding Closed
  NoneAbove-supervisor m i = ground (arith, m i)

  NoneAbove-user : Closed machine_mode → Closed supervisor_mode → NoneAbove user_mode
  unfolding Closed
  NoneAbove-user m s i = ground (arith, m i, s i)

both_true : (a b : Bool) → (a && b) ≡ true → (a ≡ true) × (b ≡ true)
both_true true true h = (refl, refl)
both_true true false h = cc
both_true false b h = cc

truth_lem : (x : ℕ) → truth x ≡ true → x ≢ 0
truth_lem x h = ground (arith, h)

at_user :
    (h : Hart) → ((h.prv == user_mode) && truth (get uie (h.csrs mstatus))) ≡ enabled_at h user_mode
unfolding enable
at_user h = ground arith

-- The interrupts that `run_step` is to take are, flag by flag, those that are enabled, pending and
-- delegated to the highest mode that may take one; there are none exactly when nothing is deliverable.
pub compute_pending_interrupts-IsSelection :
    (h : Hart) → HasWords h → IsSelection h (compute_pending_interrupts h)
unfolding compute_pending_interrupts enable pending m_pending s_pending u_pending
compute_pending_interrupts-IsSelection h w =
    if_cases (IsSelection h) (not (truth (pending h w))) _ _
      (λ e. nothing refl (none_lem h w (ground (arith, e))))
      (λ some_pending.
        if_cases (IsSelection h) (truth (m_pending h w) && enabled_at h machine_mode) _ _
          (λ e.
            let (x, on) = both_true _ _ e in
            selected on (truth_lem _ x) (m_within h w) (m_flags h w) (NoneAbove-machine h w))
          (λ no_m.
            let m = Closed_lem h w machine_mode (m_pending h w) (m_flags h w) no_m in
            if_cases (IsSelection h) (truth (s_pending h w) && enabled_at h supervisor_mode) _ _
              (λ e.
                let (x, on) = both_true _ _ e in
                selected on (truth_lem _ x) (s_within h w) (s_flags h w)
                  (NoneAbove-supervisor h w m))
              (λ no_s.
                let s = Closed_lem h w supervisor_mode (s_pending h w) (s_flags h w) no_s in
                if_cases (IsSelection h)
                  (truth (u_pending h w)
                    && ((h.prv == user_mode) && truth (get uie (h.csrs mstatus))))
                  _ _
                  (λ e.
                    let (x, on) = both_true _ _ e in
                    selected (sym (at_user h) ∙ on) (truth_lem _ x) (u_within h w) (u_flags h w)
                      (NoneAbove-user h w m s))
                  (λ no_u. nothing refl (
                    nothing_lem h w m s (
                      Closed_lem h w user_mode (u_pending h w) (u_flags h w)
                        (ap (λ b. truth (u_pending h w) && b) (sym (at_user h)) ∙ no_u)))))))
