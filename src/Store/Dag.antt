-- ===== src/Store/Dag.antt =====
-- runtime/pullrun-store/src/node.rs: the nodes of the DAG. An archived node is the node that it holds.
use pullrun.Base.{Bool, true, false, List, []}
use pullrun.Base.Words.{Bytes}
use pullrun.Store.Digest.{Digest}

pub data NodeKind : Type 0 where
  blob tree layer manifest manifest_list whiteout opaque_dir : NodeKind

pub record DagNode : Type 0 where
  pub kind : NodeKind
  pub edges : List Digest
  pub inline_data : Bytes

unfoldable pub new : NodeKind → List Digest → Bytes → DagNode
new kind edges inline_data = record { kind = kind; edges = edges; inline_data = inline_data }

unfoldable pub blob_node : Bytes → DagNode
blob_node body = record { kind = NodeKind.blob; edges = []; inline_data = body }

unfoldable pub tree_node : List Digest → Bytes → DagNode
tree_node edges body = record { kind = NodeKind.tree; edges = edges; inline_data = body }

unfoldable pub layer_node : List Digest → Bytes → DagNode
layer_node edges body = record { kind = NodeKind.layer; edges = edges; inline_data = body }

unfoldable pub manifest_node : List Digest → Bytes → DagNode
manifest_node edges body = record { kind = NodeKind.manifest; edges = edges; inline_data = body }

unfoldable pub manifest_list_node : List Digest → Bytes → DagNode
manifest_list_node edges body = record {
  kind = NodeKind.manifest_list;
  edges = edges;
  inline_data = body;
}

unfoldable pub whiteout_node : Bytes → DagNode
whiteout_node target_path = record {
  kind = NodeKind.whiteout;
  edges = [];
  inline_data = target_path;
}

unfoldable pub opaque_dir_node : Bytes → DagNode
opaque_dir_node dir_path = record { kind = NodeKind.opaque_dir; edges = []; inline_data = dir_path }

unfoldable pub is_blob : DagNode → Bool
is_blob node = elim node.kind [ NodeKind.blob ↦ true | _ ↦ false ]

unfoldable pub is_tree : DagNode → Bool
is_tree node = elim node.kind [ NodeKind.tree ↦ true | _ ↦ false ]

unfoldable pub is_layer : DagNode → Bool
is_layer node = elim node.kind [ NodeKind.layer ↦ true | _ ↦ false ]

unfoldable pub is_manifest : DagNode → Bool
is_manifest node = elim node.kind [ NodeKind.manifest ↦ true | _ ↦ false ]

unfoldable pub is_manifest_list : DagNode → Bool
is_manifest_list node = elim node.kind [ NodeKind.manifest_list ↦ true | _ ↦ false ]

unfoldable pub is_whiteout : DagNode → Bool
is_whiteout node = elim node.kind [ NodeKind.whiteout ↦ true | _ ↦ false ]

unfoldable pub is_opaque_dir : DagNode → Bool
is_opaque_dir node = elim node.kind [ NodeKind.opaque_dir ↦ true | _ ↦ false ]
