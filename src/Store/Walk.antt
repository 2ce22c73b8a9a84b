-- ===== src/Store/Walk.antt =====
-- runtime/pullrun-store/src/store.rs: `walk_reachable`. The loop runs for a number of rounds, one for
-- each root and each stored edge.
pub mod Plain
pub mod Rounds
pub mod Exact
use pullrun.Base.{
  ℕ, zero, suc, ◌+◌, Bool, true, false, not, ◌||◌, Option, none, some, List, [], ◌∷◌, ◌++◌,
  if◌then◌else◌, length,
}
use pullrun.Base.Words.{Bytes}
use pullrun.Base.Map
use pullrun.Base.Map.{Map}
use pullrun.Store.Digest.{Digest, digest_eq, mem}
use pullrun.Store.Dag.{DagNode}
use pullrun.Store.Nodes.{
  MmapStore, Archive, StoreError, not_found, Result, ok, err, exists, get_archived,
}

pub record Found : Type 0 where
  pub visited : List Digest
  pub nodes : List Digest
  pub blobs : List Digest

abbrev pub nothing : Found
nothing = record { visited = []; nodes = []; blobs = [] }

abbrev pub visit : Digest → Found → Found
visit d w = record w { visited = d ∷ w.visited }

abbrev pub push_node : Digest → Bool → Found → Found
push_node d has_blob w = record w {
  nodes = w.nodes ++ d ∷ [];
  blobs = if has_blob then w.blobs ++ d ∷ [] else w.blobs;
}

pub data Outcome : Type 0 where
  walked : List Digest → List Digest → Outcome
  failed : StoreError → Outcome
  out_of_fuel : Outcome

-- The edges of a stored file; none where it is not a node.
abbrev pub edges_of : Option DagNode → List Digest
edges_of none = []
edges_of (some node) = node.edges

module _ (archive : Archive) where
  unfoldable pub walk_loop : ℕ → List Digest → Found → MmapStore → Outcome × MmapStore
  walk_loop fuel [] w s = (walked w.nodes w.blobs, s)
  walk_loop zero (d ∷ queue) w s = (out_of_fuel, s)
  walk_loop (suc fuel) (d ∷ queue) w s = elim (mem d w.visited) [
    | true ↦ walk_loop fuel queue w s
    | false ↦ elim (exists d s) [
      | false ↦ walk_loop fuel queue (visit d w) s
      | true ↦
          let found : Found = push_node d (Map.has s.blobs.files d) (visit d w) in
          let t : MmapStore = (get_archived archive d s).1 in
          elim (get_archived archive d s).0 [
            | ok node ↦ walk_loop fuel (queue ++ node.edges) found t
            | err (not_found e) ↦ walk_loop fuel queue found t
            | err e ↦ (failed e, t)
          ]
    ]
  ]

  abbrev pub stored_edges : Map Digest Bytes → ℕ
  stored_edges [] = 0
  stored_edges ((d, bytes) ∷ files) = length (edges_of (archive.check bytes)) + stored_edges files

  unfoldable pub walk_reachable : List Digest → MmapStore → Outcome × MmapStore
  walk_reachable roots s = walk_loop (length roots + stored_edges s.nodes.files) roots nothing s
