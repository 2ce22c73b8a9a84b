-- ===== src/Store/RemoveTag/Put.antt =====
-- runtime/pullrun-store/src/store.rs: `put_blocking` counts the edges of the node that it stores.
use pullrun.Base.{◌+◌, ◌<◌, ◌≡◌, some}
use pullrun.Base.Words.{Bytes, u64_mod}
use pullrun.Base.Map
use pullrun.Base.Map.{Map}
use pullrun.Store.Digest.{Digest, digest_eq}
use pullrun.Store.Dag.{DagNode}
use pullrun.Store.Nodes.{MmapStore, Archive, get_refcount, with_nodes}
use pullrun.Store.RemoveTag.Counts.{count}
use pullrun.Store.RemoveTag.Step.{Covered}

module _ (archive : Archive) where
  -- Archiving can be undone: what `to_bytes` gives is checked to be the node.
  abbrev pub RoundTrips : Type 0
  RoundTrips =
      (node : DagNode) (bytes : Bytes)
      → archive.to_bytes node ≡ some bytes
      → archive.check bytes ≡ some node

  module _ (round_trips : RoundTrips) (node : DagNode) (s : MmapStore) (covered : Covered archive s)
      (room : (x : Digest) → get_refcount x s + count x node.edges + 1 < u64_mod) where
    with_file : Digest → Bytes → MmapStore
    with_file d bytes = with_nodes s (record s.nodes { files = Map.put s.nodes.files d bytes })
