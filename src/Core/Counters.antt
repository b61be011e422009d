-- ===== src/Core/Counters.antt =====
-- The counters that `performance_and_sync_update` of vp/src/core/rv32/iss.cpp advances: that of retired
-- instructions and that of a reservation.
use symex_vp.Common.{ℕ, zero, suc, ◌+◌, ◌-◌, ◌*◌, ◌^◌, ltb, if◌then◌else◌}
use symex_vp.Csr.Register.{instret_low, instret_high}
use symex_vp.Iss.Hart.{Hart, release_lr_sc_reservation}
use symex_vp.Core.Execute.Atomic.{set_counter}

-- The 64 bits of `instret`.
abbrev pub instret : Hart → ℕ
instret h = h.csrs instret_high * 2 ^ 32 + h.csrs instret_low

-- A function applied as often as given.
abbrev pub times : {A : Type 0} → ℕ → (A → A) → A → A
times zero f a = a
times (suc n) f a = f (times n f a)

-- What is left of a reservation after a number of steps.
abbrev pub remaining : ℕ → Hart → Hart
remaining n h =
    if ltb n h.lr_sc_counter
    then set_counter (h.lr_sc_counter - n) h
    else release_lr_sc_reservation h
