-- ===== src/Vm/Pool/Order.antt =====
-- runtime/pullrun-vm/src/pool.rs: no machine is handed out twice.
use pullrun.Base.{
  ℕ, suc, ◌≤◌, ◌≡◌, refl, sym, ap, ◌∙◌, subst, inl, inr, Bool, true, false, List, [], ◌∷◌, ◌++◌,
  append_assoc, Bool-cases, arith,
}
use pullrun.Vm.Pool.{
  VmPool, Task, initial_task, looping_task, taken, acquire, begin_refill, refill_round, retain,
  check_health,
}
use pullrun.Vm.Pool.Reach.{Reach, start, step, Step, acquires, begins, boots, checks}

-- Numbers that rise strictly, from a first bound to below a last one.
abbrev pub Rising : ℕ → ℕ → List ℕ → Type 0
Rising low high [] = low ≤ high
Rising low high (x ∷ xs) = (low ≤ x) × Rising (suc x) high xs

Rising-lower :
    (low lower high : ℕ) (xs : List ℕ) → lower ≤ low → Rising low high xs → Rising lower high xs
Rising-lower low lower high [] h r = omega arith
Rising-lower low lower high (x ∷ xs) h (a, r) = (omega arith, r)

Rising-push :
    (low high : ℕ) (xs : List ℕ) → Rising low high xs → Rising low (suc high) (xs ++ high ∷ [])
Rising-push low high [] h = (h, omega arith)
Rising-push low high (x ∷ xs) (a, r) = (a, Rising-push (suc x) high xs r)

Rising-retain :
    (alive : ℕ → Bool) (low high : ℕ) (pool : List ℕ)
    → Rising low high pool
    → Rising low high (retain alive pool)
Rising-retain alive low high [] h = h
Rising-retain alive low high (x ∷ pool) (a, r) = elim (Bool-cases (alive x)) [
  | inl y ↦ rw y (a, Rising-retain alive (suc x) high pool r)
  | inr n ↦ rw n (
      Rising-lower (suc x) low high (retain alive pool) (omega arith)
        (Rising-retain alive (suc x) high pool r))
]

Rising-after :
    (alive : ℕ → Bool) (low high : ℕ) (xs pool : List ℕ)
    → Rising low high (xs ++ pool)
    → Rising low high (xs ++ retain alive pool)
Rising-after alive low high [] pool r = Rising-retain alive low high pool r
Rising-after alive low high (x ∷ xs) pool (a, r) = (a, Rising-after alive (suc x) high xs pool r)

abbrev InOrder : VmPool → Type 0
InOrder s = Rising 0 s.next (s.acquired ++ s.pool)

taken-InOrder : (pool : List ℕ) (s : VmPool) → s.pool ≡ pool → InOrder s → InOrder (taken pool s).1
taken-InOrder [] s e r = r
taken-InOrder (x ∷ pool) s e r =
    subst (Rising 0 s.next)
      (ap (λ p. s.acquired ++ p) e ∙ sym (append_assoc s.acquired (x ∷ []) pool)) r

round-InOrder :
    (task : Task) (booted : Bool) (s : VmPool) → InOrder s → InOrder (refill_round task booted s)
unfolding refill_round
round-InOrder initial_task true s r =
    subst (Rising 0 (suc s.next)) (append_assoc s.acquired s.pool (s.next ∷ []))
      (Rising-push 0 s.next (s.acquired ++ s.pool) r)
round-InOrder looping_task true s r =
    subst (Rising 0 (suc s.next)) (append_assoc s.acquired s.pool (s.next ∷ []))
      (Rising-push 0 s.next (s.acquired ++ s.pool) r)
round-InOrder initial_task false s r = r
round-InOrder looping_task false s r = r

begin-InOrder : (task : Task) (s : VmPool) → InOrder s → InOrder (begin_refill task s)
unfolding begin_refill
begin-InOrder initial_task s r = r
begin-InOrder looping_task s r = r

Step-InOrder : (s t : VmPool) → Step s t → InOrder s → InOrder t
unfolding acquire check_health
Step-InOrder s _ (acquires _) r = taken-InOrder s.pool s refl r
Step-InOrder s _ (begins task _ h) r = begin-InOrder task s r
Step-InOrder s _ (boots task booted _ h) r = round-InOrder task booted s r
Step-InOrder s _ (checks alive _) r = Rising-after alive 0 s.next s.acquired s.pool r

-- However acquisitions, health checks and the two tasks that fill the pool interleave, the machines
-- that were handed out, in that order, and then those in the pool, are in the order in which they were
-- pushed, each once: the pool is a queue, no machine is handed out twice, and none that is in the pool
-- was handed out.
pub Reach-Rising : (n : ℕ) (s : VmPool) → Reach n s → Rising 0 s.next (s.acquired ++ s.pool)
Reach-Rising n _ start = omega arith
Reach-Rising n _ (step s t r h) = Step-InOrder s t h (Reach-Rising n s r)
