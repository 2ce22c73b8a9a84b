-- ===== src/Runtime/Lifecycle/Preserved.antt =====
-- runtime/pullrun-runtime/src/service.rs: every step preserves what holds of the workloads.
use pullrun.Base.{All, List}
use pullrun.Base.Words.{Bytes}
use pullrun.Base.Map
use pullrun.Store.Digest.{digest_eq}
use pullrun.Runtime.State.{WorkloadState}
use pullrun.Runtime.Watcher
use pullrun.Runtime.Stop.{save_ended}
use pullrun.Runtime.Stop
use pullrun.Runtime.Lifecycle.Invariant.{Lives}

abbrev LiveCopies : List (Bytes × WorkloadState) → Type 0
LiveCopies copies = All (λ (p : Bytes × WorkloadState). Lives p.1) copies
