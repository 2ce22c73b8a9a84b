-- ===== src/Gc/Locks.antt =====
-- runtime/pullrun-gc/src/lib.rs: `collect` while an operation holds its lock.
use pullrun.Base.{
  ℕ, ◌≤◌, ◌+◌, ◌≡◌, ◌≢◌, refl, inl, inr, false, some, List, [], ◌∷◌, Bool-cases, some-inj, arith,
}
use pullrun.Base.Words.{Bytes}
use pullrun.Base.Map
use pullrun.Store.Digest.{digest_eq, Digest}
use pullrun.Store.Nodes.{Archive}
use pullrun.Store.OpLock.{LockFile, Ops, is_op_lock_stale, list_fresh_op_locks}
use pullrun.Gc.{GarbageCollector, Disk, refused, active_op_locks, under_locks, collect}

fresh_listed :
    (now : ℕ) (ops : Ops) (op_id : Bytes) (file : LockFile)
    → Map.get ops op_id ≡ some file
    → is_op_lock_stale now file ≡ false
    → list_fresh_op_locks now ops ≢ []
unfolding list_fresh_op_locks Map.get
fresh_listed now [] op_id file h f e = cc
fresh_listed now ((k, v) ∷ ops) op_id file h f e = elim (Bool-cases (is_op_lock_stale now v)) [
  | inr n ↦ cc (rw n at e)
  | inl y ↦ elim (Bool-cases (digest_eq.beq k op_id)) [
    | inl t ↦ cc (f, y, some-inj (rw t at h))
    | inr o ↦ fresh_listed now ops op_id file (rw o at h) f (rw y at e)
  ]
]

-- While there is a lock file that was touched in the last hour, `collect` without `force` does
-- nothing: it returns `ActiveOpLocks`, and store and lock files are as they were.
pub collect-locked :
    (archive : Archive) (gc : GarbageCollector) (now : ℕ) (roots : List Digest) (disk : Disk)
    (op_id : Bytes) (file : LockFile)
    → Map.get disk.ops op_id ≡ some file
    → now ≤ file.modified + 3600000000000
    → gc.force ≡ false
    → collect archive gc now roots disk ≡ (refused active_op_locks, disk)
unfolding collect is_op_lock_stale
collect-locked archive gc now roots disk op_id file h recent n =
    held (list_fresh_op_locks now disk.ops) (fresh_listed now disk.ops op_id file h (ground arith))
  where
    held :
        (locks : List (Bytes × List Bytes))
        → locks ≢ []
        → under_locks archive gc now roots disk locks ≡ (refused active_op_locks, disk)
    held [] some_lock = absurd (some_lock refl)
    held (lock ∷ locks) some_lock = rw n
