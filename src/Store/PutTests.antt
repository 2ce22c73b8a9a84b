-- ===== src/Store/PutTests.antt =====
-- runtime/pullrun-store/src/store.rs: a node that is stored with an archive that reads back.
use pullrun.Base.{ℕ, Option, none, some, List, [], ◌∷◌, map}
use pullrun.Base.Words.{Bytes}
use pullrun.Base.Map
use pullrun.Store.Digest.{Digest, digest_eq}
use pullrun.Store.Dag.{DagNode, NodeKind, tree}
use pullrun.Store.Nodes.{MmapStore, Archive}

-- An archive for trees without data whose edges are of one byte.
abbrev prepend : ℕ → Option Bytes → Option Bytes
prepend c none = none
prepend c (some s) = some (c ∷ s)

abbrev encode : List Digest → Option Bytes
encode [] = some []
encode ([] ∷ es) = none
encode ((c ∷ []) ∷ es) = prepend c (encode es)
encode ((c ∷ b ∷ s) ∷ es) = none

abbrev singles : Bytes → List Digest
singles s = map (λ b. b ∷ []) s

abbrev to_tree : NodeKind → List Digest → Bytes → Option Bytes
to_tree tree es [] = encode es
to_tree _ es s = none

abbrev made : NodeKind → List Digest → Bytes → DagNode
made k es d = record { kind = k; edges = es; inline_data = d }

abbrev trees : Archive
trees = record {
  to_bytes = λ node. to_tree node.kind node.edges node.inline_data;
  check = λ bytes. some (record { kind = tree; edges = singles bytes; inline_data = [] });
  sha256 = λ bytes. bytes;
}

abbrev edge_node : DagNode
edge_node = record { kind = tree; edges = (2 ∷ []) ∷ []; inline_data = [] }

abbrev empty : MmapStore
empty = record {
  nodes = record { files = []; cache = []; lru = []; total = 0; max = none };
  blobs = record { files = []; cache = []; lru = []; total = 0; max = none };
  refcounts = [];
}
