-- ===== src/Vm/Pool.antt =====
-- runtime/pullrun-vm/src/pool.rs: `VmPool`. An entry is the number of its push; two tasks fill the
-- pool, the one that `new` starts once and the loop; an access under the lock is one step. A machine
-- boots outside of the lock and does not touch the pool: the boots themselves are no steps, and two
-- machines may be pushed in another order than they were booted in.
pub mod Reach
pub mod Order
use pullrun.Base.{
  ℕ, zero, suc, ◌+◌, ◌-◌, ◌≡◌, Bool, true, false, Option, none, some, List, [], ◌∷◌, ◌++◌,
  if◌then◌else◌, length,
}

pub record VmPool : Type 0 where
  pub pool_size : ℕ
  pub pool : List ℕ
  -- The entries that were handed out, in order, and the number of the next push.
  pub acquired : List ℕ
  pub next : ℕ
  -- What is left of `0..needed` in each task.
  pub initial : ℕ
  pub looping : ℕ

pub data Task : Type 0 where
  initial_task looping_task : Task

abbrev pub left : Task → VmPool → ℕ
left initial_task s = s.initial
left looping_task s = s.looping

abbrev pub set_left : Task → ℕ → VmPool → VmPool
set_left initial_task n s = record s { initial = n }
set_left looping_task n s = record s { looping = n }

abbrev pub taken : List ℕ → VmPool → Option ℕ × VmPool
taken [] s = (none, s)
taken (entry ∷ pool) s = (some entry, record s { pool = pool; acquired = s.acquired ++ entry ∷ [] })

unfoldable pub acquire : VmPool → Option ℕ × VmPool
acquire s = taken s.pool s

-- `pool_size.saturating_sub(pool.len())`
unfoldable pub begin_refill : Task → VmPool → VmPool
begin_refill task s = set_left task (s.pool_size - length s.pool) s

-- The end of a round of the loop, once `boot_pool_vm` has returned: the section under the lock, or the
-- `break`.
unfoldable pub refill_round : Task → Bool → VmPool → VmPool
refill_round task booted s =
    if booted
    then record (set_left task (left task s - 1) s) {
      pool = s.pool ++ s.next ∷ [];
      next = suc s.next;
    }
    else set_left task 0 s

abbrev pub retain : (ℕ → Bool) → List ℕ → List ℕ
retain alive [] = []
retain alive (entry ∷ pool) =
    let healthy = retain alive pool in if alive entry then entry ∷ healthy else healthy

unfoldable pub check_health : (ℕ → Bool) → VmPool → VmPool
check_health alive s = record s { pool = retain alive s.pool }
