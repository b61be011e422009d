-- ===== src/Bus/Lock.antt =====
-- The lock of vp/src/platform/common/bus.h that LR/SC and the atomic operations of a hart hold.
use symex_vp.Common.{ℕ, Bool, true, false, ◌==◌, ◌!=◌, ◌&&◌, if◌then◌else◌, Option, none, some}

pub record BusLock : Type 0 where
  pub locked : Bool
  pub owner : ℕ

-- `none` when the caller waits for the owner's `unlock`.
unfoldable pub lock : ℕ → BusLock → Option BusLock
lock hart_id b =
    if b.locked && (hart_id != b.owner)
    then none
    else some (record { locked = true; owner = hart_id })

unfoldable pub unlock : ℕ → BusLock → BusLock
unlock hart_id b = if b.locked && (b.owner == hart_id) then record b { locked = false } else b

unfoldable pub is_locked_by : ℕ → BusLock → Bool
is_locked_by hart_id b = b.locked && (b.owner == hart_id)
