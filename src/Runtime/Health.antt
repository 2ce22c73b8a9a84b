-- ===== src/Runtime/Health.antt =====
-- runtime/pullrun-runtime/src/service.rs: the task that probes workloads with a health check. Times are
-- not before the epoch. `jitter` is the hash of an id, `due_at` and `run_at` are the readings of the
-- clock when an id is looked at and when it is probed.
pub mod Counted
use pullrun.Base.{
  ℕ, suc, ◌+◌, ◌%◌, max, ◌==◌, Bool, true, false, not, ◌||◌, Option, none, some, List, [], ◌∷◌, ltb,
  leb, if◌then◌else◌,
}
use pullrun.Base.Words.{Bytes, u32_mod, u64_mod}
use pullrun.Base.Text.{eq_bytes}
use pullrun.Base.Map
use pullrun.Base.Map.{Map}
use pullrun.Store.Digest.{digest_eq}
use pullrun.Runtime.Names.{running, healthy, unhealthy, starting}
use pullrun.Runtime.Exec.{HealthCheck}
use pullrun.Runtime.State.{WorkloadState, Daemon, set_workload}
use pullrun.Runtime.Restart.{Executor}

pub record Probe : Type 0 where
  pub id : Bytes
  pub test : List Bytes
  pub interval : ℕ
  pub timeout : ℕ
  pub retries : ℕ
  pub grace_end : ℕ

unfoldable pub probe_of : Bytes → WorkloadState → HealthCheck → Probe
probe_of id s hc = record {
  id = id;
  test = hc.test;
  interval = max hc.interval_seconds 1;
  timeout = max hc.timeout_seconds 1;
  retries = max hc.retries 1;
  grace_end = s.start_time + hc.start_period_seconds;
}

-- `is_multiple_of`
unfoldable pub is_due : ℕ → ℕ → Probe → Bool
is_due now jitter p = (now + jitter) % u64_mod % p.interval == 0 || leb p.grace_end now

abbrev pub push_due :
    ℕ → (Bytes → ℕ) → Bytes → WorkloadState → Option HealthCheck → List Probe → List Probe
push_due now jitter id s none probes = probes
push_due now jitter id s (some hc) probes =
    if is_due now (jitter id) (probe_of id s hc) then probe_of id s hc ∷ probes else probes

unfoldable pub due_probes : (Bytes → ℕ) → (Bytes → ℕ) → Map Bytes WorkloadState → List Probe
due_probes due_at jitter [] = []
due_probes due_at jitter ((id, s) ∷ workloads) =
    let rest = due_probes due_at jitter workloads in
    if eq_bytes s.status running then push_due (due_at id) jitter id s s.health_check rest else rest

unfoldable pub failed_probe : ℕ → WorkloadState → WorkloadState
failed_probe retries s = record s {
  health_failures = (s.health_failures + 1) % u32_mod;
  health =
      if leb retries ((s.health_failures + 1) % u32_mod)
      then unhealthy
      else if not (eq_bytes s.health unhealthy)
      then starting
      else s.health;
}

unfoldable pub passed_probe : ℕ → WorkloadState → WorkloadState
passed_probe now s = record s { health = healthy; health_failures = 0; health_last_success = now }

unfoldable pub apply_probe : ℕ → ℕ → Bool → WorkloadState → WorkloadState
apply_probe now retries is_healthy s =
    if is_healthy then passed_probe now s else failed_probe retries s

abbrev pub set_probed : Bytes → ℕ → ℕ → Bool → Option WorkloadState → Daemon → Daemon
set_probed id now retries is_healthy none d = d
set_probed id now retries is_healthy (some s) d =
    set_workload id (apply_probe now retries is_healthy s) d

-- The section under the lock.
unfoldable pub record_probe : Bytes → ℕ → ℕ → Bool → Daemon → Daemon
record_probe id now retries is_healthy d =
    set_probed id now retries is_healthy (Map.get d.workloads id) d

abbrev pub is_success : Option ℕ → Bool
is_success none = false
is_success (some exit_code) = exit_code == 0

unfoldable pub run_probe : Executor → ℕ → Probe → Daemon → Daemon
run_probe executor now p d =
    if ltb now p.grace_end
    then d
    else record_probe p.id now p.retries (is_success (executor.exec p.id p.test p.timeout)) d

unfoldable pub run_probes : Executor → (Bytes → ℕ) → List Probe → Daemon → Daemon
run_probes executor run_at [] d = d
run_probes executor run_at (p ∷ probes) d =
    run_probes executor run_at probes (run_probe executor (run_at p.id) p d)

unfoldable pub probe_tick : Executor → (Bytes → ℕ) → (Bytes → ℕ) → (Bytes → ℕ) → Daemon → Daemon
probe_tick executor due_at run_at jitter d =
    run_probes executor run_at (due_probes due_at jitter d.workloads) d
