-- ===== src/Bus/Exclusion.antt =====
-- The bus lock keeps other harts out.
use symex_vp.Common.{
  ℕ, ◌≡◌, ◌≢◌, refl, Bool, true, false, ◌==◌, ◌!=◌, if◌then◌else◌, none, some, arith, ==→eq,
  if_cases,
}
use mathlib.Core.Path.{subst}
use symex_vp.Bus.Lock.{BusLock, lock, unlock, is_locked_by}

-- The lock that a hart gets.
abbrev held_by : ℕ → BusLock
held_by hart_id = record { locked = true; owner = hart_id }

lock_cases :
    (waits : Bool) (b' : BusLock) (hart_id : ℕ)
    → (if waits then none else some (held_by hart_id)) ≡ some b'
    → held_by hart_id ≡ b'
lock_cases true b' hart_id e = cc
lock_cases false b' hart_id e = cc

locked_by : (hart_id : ℕ) (b b' : BusLock) → lock hart_id b ≡ some b' → held_by hart_id ≡ b'
unfolding lock
locked_by hart_id b b' e = lock_cases _ b' hart_id e

-- Hart `hart_id` holds the lock: `other` has to wait for it and cannot release it, and `hart_id` can.
pub record IsHeld (hart_id other : ℕ) (b : BusLock) : Type 0 where
  pub mine : is_locked_by hart_id b ≡ true
  pub other_waits : lock other b ≡ none
  pub other_keeps : unlock other b ≡ b
  pub released : (unlock hart_id b).locked ≡ false

held_by-IsHeld : (hart_id other : ℕ) → hart_id ≢ other → IsHeld hart_id other (held_by hart_id)
unfolding lock unlock is_locked_by
held_by-IsHeld hart_id other ne = record {
  mine = ground arith;
  other_waits =
      if_cases (λ r. r ≡ none) (other != hart_id) none (some (held_by other)) (λ _. refl)
        (λ e. absurd (ne (ground (arith, e))));
  other_keeps =
      if_cases (λ r. r ≡ held_by hart_id) (hart_id == other)
        (record { locked = false; owner = hart_id }) (held_by hart_id)
        (λ e. absurd (ne (==→eq hart_id other e))) (λ _. refl);
  released =
      if_cases (λ r. r.locked ≡ false) (hart_id == hart_id)
        (record { locked = false; owner = hart_id }) (held_by hart_id) (λ _. refl)
        (λ e. absurd (ground (arith, e)));
}

-- A hart that gets the bus lock, free or its own already, holds it: any other has to wait, another's unlock changes nothing,
-- and its own unlock releases the lock.
pub lock-IsHeld :
    (hart_id other : ℕ) (b b' : BusLock)
    → hart_id ≢ other
    → lock hart_id b ≡ some b'
    → IsHeld hart_id other b'
lock-IsHeld hart_id other b b' ne e =
    subst (IsHeld hart_id other) (locked_by hart_id b b' e) (held_by-IsHeld hart_id other ne)
