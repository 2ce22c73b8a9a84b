-- ===== src/Runtime/Run/Runs.antt =====
-- runtime/pullrun-runtime/src/service.rs: the end of a run that succeeds.
use pullrun.Base.{List, ◌≡◌, refl, sym, ◌∙◌, ap, subst, Bool, true, false, some}
use pullrun.Base.Words.{Bytes}
use pullrun.Base.Map
use pullrun.Base.Map.{get-put_self}
use pullrun.Store.Digest.{digest_eq}
use pullrun.Runtime.Names.{running}
use pullrun.Runtime.Exec.{Backend, Mount}
use pullrun.Runtime.State.{
  WorkloadState, Daemon, emit, set_workload, write_workload_checkpoint, record_metric,
}
use pullrun.Runtime.Run.Request.{RunRequest, strip_digest}
use pullrun.Runtime.Run.Monad.{Ran, ok, err, pure, modify, ◌>>=◌, bound, >>=-ok}
use pullrun.Runtime.Run.Checks.{RunEnv}
use pullrun.Runtime.Run.Handler.{
  Launched, RunResponse, start_spec, start_request, run_state, run_workload, record_running,
  response,
}
use pullrun.Runtime.Run.Accepted.{Passed, start_request-Passed, ok-inj}

module _ {Key Score : Type 0} (env : RunEnv Key Score) where
  -- The workload is running, and its checkpoint, where it can be written, says what the map does.
  pub record Recorded (id : Bytes) (d : Daemon) : Type 0 where
    pub state : WorkloadState
    pub found : Map.get d.workloads id ≡ some state
    pub is_running : state.status ≡ running
    pub saved : env.base.writable ≡ true → Map.get d.checkpoints id ≡ some state

  saved-get :
      (b : Bool) (id : Bytes) (s : WorkloadState) (d : Daemon)
      → b ≡ true
      → Map.get (write_workload_checkpoint b id s d).checkpoints id ≡ some s
  unfolding write_workload_checkpoint
  saved-get true id s d h = get-put_self d.checkpoints id s
  saved-get false id s d h = cc

  workloads-saved :
      (b : Bool) (id : Bytes) (s : WorkloadState) (d : Daemon)
      → (write_workload_checkpoint b id s d).workloads ≡ d.workloads
  unfolding write_workload_checkpoint
  workloads-saved true id s d = refl
  workloads-saved false id s d = refl

  record_running-Recorded : (l : Launched) (d : Daemon) → Recorded l.req.id (record_running env l d)
  unfolding record_running emit set_workload record_metric run_state
  record_running-Recorded l d =
      let s : WorkloadState = run_state env l d in
      record {
        state = s;
        found =
            ap (λ m. Map.get m l.req.id) (workloads-saved env.base.writable l.req.id s _)
            ∙ get-put_self d.workloads l.req.id s;
        is_running = refl;
        saved = saved-get env.base.writable l.req.id s _;
      }

  start_spec-req :
      (req : RunRequest) (backend : Backend) (mounts : List Mount) (l : Launched) (d : Daemon)
      → (start_spec env req backend mounts d).0 ≡ ok l
      → l.req ≡ req
  unfolding start_spec
  start_spec-req req backend mounts l d h =
      let (k, kernel, h1) = >>=-ok _ _ d h in
      let (root, image, h2) = >>=-ok _ _ _ h1 in
      let (handle, ran, h3) = >>=-ok _ _ _ h2 in sym (ap (λ (x : Launched). x.req) (ok-inj h3))

  start_request-req :
      (req : RunRequest) (l : Launched) (d : Daemon)
      → (start_request env req d).0 ≡ ok l
      → l.req ≡ req
  unfolding start_request
  start_request-req req l d h =
      let (backend, checks, h1) = >>=-ok _ _ d h in
      let (mounts, staged, h2) = >>=-ok _ _ _ h1 in start_spec-req req backend mounts l _ h2

  ran :
      (r : Ran Launched × Daemon) (resp : RunResponse)
      → (bound r (λ l. modify (record_running env l) >>= λ u. pure (response env l))).0 ≡ ok resp
      → (l : Launched) × (r.0 ≡ ok l)
        × ((bound r (λ l. modify (record_running env l) >>= λ u. pure (response env l))).1
            ≡ record_running env l r.1)
  unfolding ◌>>=◌
  ran (ok l, d) resp h = (l, refl, refl)
  ran (err e, d) resp h = cc

  -- A run that succeeds, with a bare digest and on the daemon as it was: the id is of 1 to 128 letters,
  -- digits, `-`, `_` and `.`, and so a single part of a path, which may be `..`; the backend is known; a
  -- namespace that is joined is that of another workload in a container, by a container; a machine has a
  -- kernel named or a backend configured; the policy allows the image; the digest parses; for a container the manifest names an
  -- architecture that is the host's or can be emulated; and the mounts that are asked for are safe. The
  -- workload is then recorded as running, with its checkpoint where it can be written.
  pub run_workload-Runs :
      (req : RunRequest) (resp : RunResponse) (d : Daemon)
      → (run_workload env req d).0 ≡ ok resp
      → Passed env (strip_digest req) d × Recorded req.id (run_workload env req d).1
  unfolding run_workload ◌>>=◌ strip_digest
  run_workload-Runs req resp d h =
      let (l, is, at) = ran (start_request env (strip_digest req) d) resp h in
      let same : l.req.id ≡ req.id =
        ap (λ (x : RunRequest). x.id) (start_request-req (strip_digest req) l d is) in
      (
        start_request-Passed env (strip_digest req) l d is,
        subst (Recorded req.id) (sym at) (
            subst
              (λ x. Recorded x (record_running env l (start_request env (strip_digest req) d).1))
              same (record_running-Recorded l _)),
      )
