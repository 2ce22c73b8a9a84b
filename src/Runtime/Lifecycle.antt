-- ===== src/Runtime/Lifecycle.antt =====
-- runtime/pullrun-runtime/src/service.rs: the handlers and the watchers as steps on the daemon. A section
-- under the lock of the workloads is one step, and the write of a checkpoint, from the copy of a state
-- that was made under the lock, is another one: the lock is given up before the file is written.
pub mod Invariant
pub mod Preserved
use pullrun.Base.{ℕ, ◌≡◌, Bool, true, false, Option, some, List, ◌∷◌, ◌++◌}
use pullrun.Base.Words.{Bytes}
use pullrun.Base.Map
use pullrun.Store.Digest.{digest_eq}
use pullrun.Runtime.Exec.{RestartPolicy, ProcessHandle}
use pullrun.Runtime.State.{WorkloadState, Daemon, write_workload_checkpoint}
use pullrun.Runtime.Restart.{Env, finish_restart}
use pullrun.Runtime.Watcher.{mark_exited}
use pullrun.Runtime.Stop.{mark_stopped}
use pullrun.Runtime.Health.{record_probe}
use pullrun.Runtime.Prune.{prune_workloads}
use pullrun.Runtime.Run.Checks.{RunEnv}
use pullrun.Runtime.Run.Handler.{Launched, record_running}

-- A section without its write, which is a step of its own: the functions are taken where `writable` is
-- false.
pub data Section (d : Daemon) : Daemon → Type 1 where
  run :
      {Key Score : Type 0} (env : RunEnv Key Score) (l : Launched)
      → env.base.writable ≡ false
      → Section d (record_running env l d)
  exit :
      (env : Env) (decide : RestartPolicy → Option ℕ → Bool) (id : Bytes) (code : Option ℕ)
      → env.writable ≡ false
      → Section d (mark_exited env decide id code d).1
  restart :
      (env : Env) (id : Bytes) (handle : ProcessHandle)
      → env.writable ≡ false
      → Section d (finish_restart env id handle d)
  stop : (env : Env) (id : Bytes) → env.writable ≡ false → Section d (mark_stopped env id d).1
  probe :
      (id : Bytes) (now retries : ℕ) (is_healthy : Bool)
      → Section d (record_probe id now retries is_healthy d)
  prune : Section d (prune_workloads d)
  -- Events, metrics, caches, tags, staged files and announcements.
  other : (e : Daemon) → e.workloads ≡ d.workloads → e.checkpoints ≡ d.checkpoints → Section d e

-- The daemon, and the copies of states that handlers and watchers hold to write them.
pub record World : Type 0 where
  pub daemon : Daemon
  pub copies : List (Bytes × WorkloadState)

-- A copy is written at any later time, in any order, or not at all where the file cannot be written.
pub data Step (w : World) : World → Type 1 where
  section : (e : Daemon) → Section w.daemon e → Step w (record w { daemon = e })
  copy :
      (id : Bytes) (s : WorkloadState)
      → Map.get w.daemon.workloads id ≡ some s
      → Step w (record w { copies = (id, s) ∷ w.copies })
  write :
      (writable : Bool) (id : Bytes) (s : WorkloadState)
      (before after : List (Bytes × WorkloadState))
      → w.copies ≡ before ++ (id, s) ∷ after
      → Step w (record {
        daemon = write_workload_checkpoint writable id s w.daemon;
        copies = before ++ after;
      })

pub data Reach (w : World) : World → Type 1 where
  here : Reach w w
  next : {x y : World} → Reach w x → Step x y → Reach w y
