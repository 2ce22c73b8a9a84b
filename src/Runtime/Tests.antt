-- ===== src/Runtime/Tests.antt =====
-- runtime/pullrun-runtime/src/service.rs: the watchers, the images and the small functions on examples.
use pullrun.Base.{
  inl, ℕ, ◌+◌, ◌%◌, ◌≡◌, refl, true, false, none, some, List, [], ◌∷◌, ◌++◌, map, replicate, arith,
  leb, if◌then◌else◌,
}
use pullrun.Base.Words.{Bytes, u32_mod}
use pullrun.Base.Text.{eq_bytes, starts_with}
use pullrun.Base.Map
use pullrun.Base.Map.{Map}
use pullrun.Store.Digest.{Digest, digest_eq, from_hex, strip_sha256}
use pullrun.Store.Dag.{tree, new}
use pullrun.Store.Blobs.{BlobStore}
use pullrun.Store.Blobs.Transparent.{Coherent}
use pullrun.Store.Nodes.{Archive}
use pullrun.Store.Walk.Plain.{look}
use pullrun.Store.Walk.Exact.{Reach}
use pullrun.Gc.{Disk}
use pullrun.Runtime.Names.{unhealthy, starting}
use pullrun.Runtime.Exec.{
  outbound_dir, tcp_proto, NetworkMode, container_mode, bridge_mode, on_container,
}
use pullrun.Runtime.Network.{network_mode_str}
use pullrun.Runtime.ExitCode.{parse_exit_code, exit_code_text}
use pullrun.Runtime.ExitCode.Decimal.{to_string}
use pullrun.Runtime.ExitCode.Forms.{exited_with, stopped_by, parse_exit_code-forms}
use pullrun.Runtime.State.{WorkloadState, Daemon, write_workload_checkpoint}
use pullrun.Runtime.Restart.{restart_mode}
use pullrun.Runtime.Restart.Mode.{restart_mode-exact}
use pullrun.Runtime.Health.{passed_probe}
use pullrun.Runtime.Health.Counted.{fail_times, health-counts}
use pullrun.Runtime.Watcher.{should_restart, mark_exited}
use pullrun.Runtime.Lifecycle.{World}
use pullrun.Runtime.Run.Checks.{RunEnv}
use pullrun.Runtime.Restart.{Env}
use pullrun.Runtime.Images.{Images, gc, remove_image}
use pullrun.Runtime.Images.Pinned.{Pinned, used, gc-keeps}
use pullrun.Runtime.Images.Unused.{Settled, remove_image-Settled}
use pullrun.Runtime.Run.Request.{effective_security_flags}
use pullrun.Runtime.Run.Checks.{default_policy}
use pullrun.Runtime.Run.Handler.{Launched, run_spec, run_state, record_running}
use pullrun.Runtime.Recovery.{start_daemon}
use pullrun.Runtime.Recovery.Crash.{entries_of, Unique, Recovered, Migrated, start_daemon-recovers}
use pullrun.Runtime.RunTests.{other_state, daemon, handle, env, run_env, request}

parse_exit_code-forms_example :
    (parse_exit_code (exit_code_text ++ to_string 143) ≡ some 143)
    × (parse_exit_code (exited_with 143) ≡ some 143)
    × (parse_exit_code (stopped_by 143) ≡ some ((128 + 143) % u32_mod))
parse_exit_code-forms_example = parse_exit_code-forms 143 (omega arith)

-- A workload in the namespace of another one that may call out.
abbrev joined : NetworkMode
joined = container_mode (b'b' ∷ [])

abbrev calling : WorkloadState
calling = record other_state {
  network_mode = network_mode_str joined;
  network_rules =
      record {
        direction = outbound_dir;
        protocol = tcp_proto;
        port = 443;
        host_port = 0;
        to_host = none;
        from_cidrs = none;
      }
      ∷ [];
}

restart_mode-exact_example : restart_mode calling ≡ joined
restart_mode-exact_example = restart_mode-exact calling joined refl (inl λ e. cc)

health-counts_example :
    (fail_times 20 3 2 (passed_probe 20 other_state)).health
    ≡ (if leb 3 2 then unhealthy else starting)
health-counts_example = health-counts 20 3 1 other_state (omega arith)

abbrev empty : Daemon
empty = record daemon { workloads = []; checkpoints = [] }

abbrev start : World
start = record { daemon = empty; copies = [] }

abbrev launched : Launched
launched = record {
  req = request;
  backend = on_container;
  spec =
      run_spec request (replicate 32 1) on_container bridge_mode
        (effective_security_flags (default_policy {Score = ℕ}) request) none [];
  handle = handle;
}

-- The sections write no files.
abbrev unwritten : Env
unwritten = record env { writable = false }

abbrev unwritten_run : RunEnv (List Bytes) (List Bytes)
unwritten_run = record run_env { base = unwritten }

abbrev launched_daemon : Daemon
launched_daemon = record_running unwritten_run launched empty

abbrev started : WorkloadState
started = run_state unwritten_run launched empty

-- A workload is run, and exits before the copy from its run is written.
abbrev raced : World
raced = record {
  daemon =
      write_workload_checkpoint true request.id started
        (mark_exited unwritten should_restart request.id (some 1) launched_daemon).1;
  copies = [];
}

-- The daemon starts again on the checkpoint of a workload that is lost.
abbrev files : Map Bytes WorkloadState
files = (request.id, started) ∷ []

files-Unique : Unique files
unfolding Map.get
files-Unique = (refl, tt)

filed : Map.get files request.id ≡ some started
unfolding Map.get eq_bytes
filed = refl

start_daemon-recovers_example :
    (r : WorkloadState) × (s : WorkloadState) × (Map.get
        (start_daemon (λ id. false) 50 (some (entries_of files)) []).workloads
        request.id
      ≡ some s)
    × Recovered (λ id. false) 50 request.id started r
    × Migrated [] r s
start_daemon-recovers_example =
    start_daemon-recovers (λ id. false) 50 files [] request.id started files-Unique filed

abbrev digest : ℕ → Digest
digest b = replicate 32 b

-- A node is written as the bytes of which its edges are made.
abbrev archive : Archive
archive = record {
  to_bytes = λ node. some [];
  check = λ bytes. some (new tree (map digest bytes) []);
  sha256 = λ bytes. bytes;
}

abbrev files_only : List (Digest × Bytes) → BlobStore
files_only files = record { files = files; cache = []; lru = []; total = 0; max = some 0 }

abbrev disk : Disk
disk = record {
  store = record {
    nodes = files_only ((digest 1, 2 ∷ []) ∷ (digest 2, []) ∷ (digest 3, []) ∷ []);
    blobs = files_only ((digest 2, 7 ∷ []) ∷ []);
    refcounts = [];
  };
  ops = [];
  removes = record { node = λ d. true; blob = λ d. true };
}

disk-Coherent : Coherent disk.store.nodes
unfolding Map.get
disk-Coherent d b e = cc

leads : Reach (look archive disk.store.nodes.files) (digest 1 ∷ []) (digest 2)
unfolding Map.get eq_bytes new
leads =
    Reach.edge (digest 1) (digest 2) (new tree (digest 2 ∷ []) []) (Reach.root (digest 1) refl) refl
      refl

pinned : Pinned (λ s. some (digest 1)) daemon (digest 1)
unfolding Map.get eq_bytes from_hex strip_sha256 starts_with
pinned = used (b'b' ∷ []) other_state refl refl

gc-keeps_example :
    (Map.get
        (gc archive (λ s. some (digest 1)) false true 5 daemon disk).1.store.nodes.files
        (digest 2)
      ≡ Map.get disk.store.nodes.files (digest 2))
    × (Map.get
          (gc archive (λ s. some (digest 1)) false true 5 daemon disk).1.store.blobs.files
          (digest 2)
        ≡ Map.get disk.store.blobs.files (digest 2))
gc-keeps_example =
    gc-keeps archive disk (λ s. some (digest 1)) false true 5 daemon (digest 1) (digest 2)
      disk-Coherent pinned leads

abbrev images : Images
images = record { daemon = daemon; store = disk.store; saved_tags = [] }

remove_image-Settled_example :
    Settled
      (b'0' ∷ b'0' ∷ [])
      images
      (remove_image archive (λ s. some (digest 1)) true (b'0' ∷ b'0' ∷ []) images)
remove_image-Settled_example =
    remove_image-Settled archive true (b'0' ∷ b'0' ∷ []) images (λ s. some (digest 1))
