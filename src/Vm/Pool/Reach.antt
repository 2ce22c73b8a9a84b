-- ===== src/Vm/Pool/Reach.antt =====
-- runtime/pullrun-vm/src/pool.rs: the pool under every interleaving of its tasks and callers.
use pullrun.Base.{
  ℕ, ◌+◌, ◌*◌, ◌≤◌, ◌≡◌, refl, ap, Bool, true, false, List, [], ◌∷◌, length, length-append, arith,
}
use pullrun.Vm.Pool.{
  VmPool, Task, initial_task, looping_task, left, taken, acquire, begin_refill, refill_round,
  retain, check_health,
}

abbrev pub empty : ℕ → VmPool
empty pool_size = record {
  pool_size = pool_size;
  pool = [];
  acquired = [];
  next = 0;
  initial = 0;
  looping = 0;
}

pub data Step : VmPool → VmPool → Type 0 where
  acquires : (s : VmPool) → Step s (acquire s).1
  begins : (task : Task) (s : VmPool) → left task s ≡ 0 → Step s (begin_refill task s)
  boots :
      (task : Task) (booted : Bool) (s : VmPool)
      → 1 ≤ left task s
      → Step s (refill_round task booted s)
  checks : (alive : ℕ → Bool) (s : VmPool) → Step s (check_health alive s)

pub data Reach (pool_size : ℕ) : VmPool → Type 0 where
  start : Reach pool_size (empty pool_size)
  step : (s t : VmPool) → Reach pool_size s → Step s t → Reach pool_size t

length-retain : (alive : ℕ → Bool) (pool : List ℕ) → length (retain alive pool) ≤ length pool
length-retain alive [] = omega arith
length-retain alive (x ∷ pool) = ground (arith, length-retain alive pool)

-- Together the tasks may overfill the pool, but not beyond twice its size.
abbrev Bounded : ℕ → VmPool → Type 0
Bounded n s =
    (s.pool_size ≡ n)
    × (s.initial ≤ n)
    × (s.looping ≤ n)
    × (length s.pool + s.initial + s.looping ≤ 2 * n)

taken-Bounded :
    (n : ℕ) (pool : List ℕ) (s : VmPool) → s.pool ≡ pool → Bounded n s → Bounded n (taken pool s).1
taken-Bounded n [] s e b = b
taken-Bounded n (x ∷ pool) s e (size, a, c, sum) = (size, a, c, omega (arith, ap length e, sum))

round-Bounded :
    (n : ℕ) (task : Task) (booted : Bool) (s : VmPool)
    → 1 ≤ left task s
    → Bounded n s
    → Bounded n (refill_round task booted s)
unfolding refill_round
round-Bounded n initial_task true s h (size, a, c, sum) =
    (size, omega arith, c, omega (arith, length-append s.pool (s.next ∷ [])))
round-Bounded n looping_task true s h (size, a, c, sum) =
    (size, a, omega arith, omega (arith, length-append s.pool (s.next ∷ [])))
round-Bounded n initial_task false s h (size, a, c, sum) = (size, omega arith, c, omega arith)
round-Bounded n looping_task false s h (size, a, c, sum) = (size, a, omega arith, omega arith)

begin-Bounded :
    (n : ℕ) (task : Task) (s : VmPool)
    → left task s ≡ 0
    → Bounded n s
    → Bounded n (begin_refill task s)
unfolding begin_refill
begin-Bounded n initial_task s h (size, a, c, sum) = (size, omega arith, c, omega arith)
begin-Bounded n looping_task s h (size, a, c, sum) = (size, a, omega arith, omega arith)

Step-Bounded : (n : ℕ) (s t : VmPool) → Step s t → Bounded n s → Bounded n t
unfolding acquire check_health
Step-Bounded n s _ (acquires _) b = taken-Bounded n s.pool s refl b
Step-Bounded n s _ (begins task _ h) b = begin-Bounded n task s h b
Step-Bounded n s _ (boots task booted _ h) b = round-Bounded n task booted s h b
Step-Bounded n s _ (checks alive _) (size, a, c, sum) =
    (size, a, c, omega (arith, length-retain alive s.pool))

Reach-Bounded : (n : ℕ) (s : VmPool) → Reach n s → Bounded n s
Reach-Bounded n _ start = (refl, omega arith, omega arith, omega arith)
Reach-Bounded n _ (step s t r h) = Step-Bounded n s t h (Reach-Bounded n s r)

-- However acquisitions, health checks and the two tasks that fill the pool interleave, the pool never
-- holds more than twice `pool_size` machines.
pub Reach-length : (n : ℕ) (s : VmPool) → Reach n s → length s.pool ≤ 2 * n
Reach-length n s r = let (size, a, c, sum) = Reach-Bounded n s r in omega arith
