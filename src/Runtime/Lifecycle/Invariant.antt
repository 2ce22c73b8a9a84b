-- ===== src/Runtime/Lifecycle/Invariant.antt =====
-- runtime/pullrun-runtime/src/service.rs: what holds of every workload, and of every checkpoint.
use pullrun.Runtime.Lifecycle.{World}
use pullrun.Base.{
  All, ℕ, ◌≡◌, refl, sym, ◌∙◌, subst, ◌⊎◌, Bool, true, false, Option, none, some, List, [], ◌∷◌,
  Bool-cases, inl, inr,
}
use pullrun.Base.Words.{Bytes}
use pullrun.Base.Text.{eq_bytes}
use pullrun.Base.Map
use pullrun.Base.Map.{Map, get-put_cases, get-put_self, get-put_ne, get-remove}
use pullrun.Store.Digest.{digest_eq}
use pullrun.Runtime.Names.{running, stopped, exited}
use pullrun.Runtime.State.{WorkloadState, Daemon, set_workload, write_workload_checkpoint}
use pullrun.Runtime.Health.{record_probe, apply_probe, passed_probe, failed_probe, set_probed}
use pullrun.Runtime.Prune.{prune_workloads, remove_ids, exited_ids}

-- A workload is running and has no exit, or has ended.
pub record Lives (s : WorkloadState) : Type 0 where
  pub status : (s.status ≡ running) ⊎ ((s.status ≡ stopped) ⊎ (s.status ≡ exited))
  pub unended : s.status ≡ running → (s.exit_code ≡ none) × (s.exit_time ≡ 0)

-- So it is of each workload of a map.
abbrev pub AllLive : Map Bytes WorkloadState → Type 0
AllLive m = (id : Bytes) (s : WorkloadState) → Map.get m id ≡ some s → Lives s

-- Of the workloads, of the files and of the copies that are still to be written.
pub record IsValid (w : World) : Type 0 where
  pub workloads : AllLive w.daemon.workloads
  pub checkpoints : AllLive w.daemon.checkpoints
  pub copies : All (λ (p : Bytes × WorkloadState). Lives p.1) w.copies

pub put-AllLive :
    (m : Map Bytes WorkloadState) (id : Bytes) (s : WorkloadState)
    → Lives s
    → AllLive m
    → AllLive (Map.put m id s)
put-AllLive m id s l all j t g = elim (get-put_cases m id s j t g) [
  | inl (e, same) ↦ subst Lives same l
  | inr (other, old) ↦ all j t old
]

-- A section keeps the files, and the workloads as they should be.
pub record Keeps (d e : Daemon) : Type 0 where
  pub workloads : AllLive d.workloads → AllLive e.workloads
  pub checkpoints : e.checkpoints ≡ d.checkpoints

pub same-Keeps :
    (d e : Daemon) → e.workloads ≡ d.workloads → e.checkpoints ≡ d.checkpoints → Keeps d e
same-Keeps d e h k = record { workloads = λ all. subst AllLive (sym h) all; checkpoints = k }

pub Keeps-trans : {d e f : Daemon} → Keeps d e → Keeps e f → Keeps d f
Keeps-trans h k = record {
  workloads = λ all. k.workloads (h.workloads all);
  checkpoints = k.checkpoints ∙ h.checkpoints;
}

set-checkpoints :
    (id : Bytes) (s : WorkloadState) (d : Daemon)
    → (set_workload id s d).checkpoints ≡ d.checkpoints
unfolding set_workload
set-checkpoints id s d = refl

pub set-Keeps :
    (id : Bytes) (s : WorkloadState) (d : Daemon) → Lives s → Keeps d (set_workload id s d)
unfolding set_workload
set-Keeps id s d l = record {
  workloads = λ all. put-AllLive d.workloads id s l all;
  checkpoints = refl;
}

unwritten-Keeps :
    (b : Bool) (id : Bytes) (s : WorkloadState) (d : Daemon)
    → b ≡ false
    → Keeps d (write_workload_checkpoint b id s d)
unfolding write_workload_checkpoint
unwritten-Keeps true id s d h = cc
unwritten-Keeps false id s d h = same-Keeps d d refl refl

pub both-Keeps :
    (b : Bool) (id : Bytes) (s : WorkloadState) (d : Daemon)
    → b ≡ false
    → Lives s
    → Keeps d (write_workload_checkpoint b id s (set_workload id s d))
both-Keeps b id s d h l = Keeps-trans (set-Keeps id s d l) (unwritten-Keeps b id s _ h)

probed-Lives :
    (now retries : ℕ) (b : Bool) (s : WorkloadState) → Lives s → Lives (apply_probe now retries b s)
unfolding apply_probe passed_probe failed_probe
probed-Lives now retries true s l = record { status = l.status; unended = l.unended }
probed-Lives now retries false s l = record { status = l.status; unended = l.unended }

pub record_probe-Keeps :
    (id : Bytes) (now retries : ℕ) (b : Bool) (d : Daemon)
    → Keeps d (record_probe id now retries b d)
unfolding record_probe
record_probe-Keeps id now retries b d = go (Map.get d.workloads id) refl
  where
    go :
        (o : Option WorkloadState)
        → Map.get d.workloads id ≡ o
        → Keeps d (set_probed id now retries b o d)
    go none g = same-Keeps d d refl refl
    go (some s) g = record {
      workloads = λ all.
          (set-Keeps id (apply_probe now retries b s) d
              (probed-Lives now retries b s (all id s g))).workloads
            all;
      checkpoints = set-checkpoints id (apply_probe now retries b s) d;
    }

-- Fewer workloads.
remove_ids-get :
    (ids : List Bytes) (m : Map Bytes WorkloadState) (id : Bytes) (s : WorkloadState)
    → Map.get (remove_ids ids m) id ≡ some s
    → Map.get m id ≡ some s
unfolding remove_ids
remove_ids-get [] m id s g = g
remove_ids-get (i ∷ ids) m id s g =
    let h = sym (get-remove m i id) ∙ remove_ids-get ids (Map.remove m i) id s g in
    elim (Bool-cases (eq_bytes i id)) [ inl y ↦ cc (rw y at h) | inr n ↦ rw n at h ]

pub prune-Keeps : (d : Daemon) → Keeps d (prune_workloads d)
unfolding prune_workloads
prune-Keeps d = record {
  workloads = λ all id s g. all id s (remove_ids-get (exited_ids d.workloads) d.workloads id s g);
  checkpoints = refl;
}
