-- ===== src/Store/Recount.antt =====
-- runtime/pullrun-store/src/store.rs: `recompute_all_refcounts` and `compute_image_size`. Their loops
-- run for a number of rounds, one for each root and each stored edge; `none` is the end
-- of the rounds. The counts are returned besides being written.
use pullrun.Base.{
  ℕ, zero, suc, ◌+◌, ◌%◌, true, false, Option, none, some, List, [], ◌∷◌, ◌++◌, if◌then◌else◌,
  length,
}
use pullrun.Base.Words.{u64_mod}
use pullrun.Base.Map
use pullrun.Base.Map.{Map}
use pullrun.Store.Digest.{Digest, digest_eq, mem}
use pullrun.Store.Dag.{DagNode}
use pullrun.Store.Nodes.{
  MmapStore, Archive, not_found, Result, ok, err, get_archived, set_refcount, or_zero,
}
use pullrun.Store.Walk.{stored_edges}
use pullrun.Store.RemoveTag.{sizes}

abbrev pub Counts : Type 0
Counts = Map Digest ℕ

-- `*counts.entry(d).or_default() += 1`
abbrev pub count_one : Digest → Counts → Counts
count_one d counts = Map.put counts d ((or_zero (Map.get counts d) + 1) % u64_mod)

abbrev pub count_roots : List Digest → Counts → Counts
count_roots [] counts = counts
count_roots (root ∷ roots) counts = count_roots roots (count_one root counts)

-- The children that are stored are counted and queued.
unfoldable pub count_children : MmapStore → List Digest → Counts → List Digest × Counts
count_children s [] counts = ([], counts)
count_children s (child ∷ children) counts =
    let (queued, counted) =
      count_children s children
        (if Map.has s.nodes.files child then count_one child counts else counts) in
    (if Map.has s.nodes.files child then child ∷ queued else queued, counted)

abbrev pub write_counts : Counts → MmapStore → MmapStore
write_counts [] s = s
write_counts ((d, count) ∷ counts) s = write_counts counts (set_refcount d count s)

module _ (archive : Archive) where
  unfoldable pub recount_loop :
      ℕ → List Digest → List Digest → Counts → MmapStore → Option (Result Counts) × MmapStore
  recount_loop fuel [] visited counts s = (some (ok counts), s)
  recount_loop zero (d ∷ queue) visited counts s = (none, s)
  recount_loop (suc fuel) (d ∷ queue) visited counts s = elim (mem d visited) [
    | true ↦ recount_loop fuel queue visited counts s
    | false ↦ elim (Map.has s.nodes.files d) [
      | false ↦ recount_loop fuel queue (d ∷ visited) counts s
      | true ↦
          let t : MmapStore = (get_archived archive d s).1 in
          elim (get_archived archive d s).0 [
            | ok node ↦
                let (queued, counted) = count_children t node.edges counts in
                recount_loop fuel (queue ++ queued) (d ∷ visited) counted t
            | err (not_found e) ↦ recount_loop fuel queue (d ∷ visited) counts t
            | err e ↦ (some (err e), t)
          ]
    ]
  ]

  abbrev pub finish_recount :
      Option (Result Counts) × MmapStore → Option (Result Counts) × MmapStore
  finish_recount (some (ok counts), s) = (some (ok counts), write_counts counts s)
  finish_recount (some (err e), s) = (some (err e), s)
  finish_recount (none, s) = (none, s)

  unfoldable pub recompute_all_refcounts :
      List Digest → MmapStore → Option (Result Counts) × MmapStore
  recompute_all_refcounts roots s = finish_recount (
      recount_loop (length roots + stored_edges archive s.nodes.files) roots []
        (count_roots roots []) s)

  abbrev pub edges_found : Result DagNode → List Digest
  edges_found (ok node) = node.edges
  edges_found (err e) = []

  unfoldable pub image_size_loop :
      ℕ → List Digest → List Digest → ℕ → MmapStore → Option ℕ × MmapStore
  image_size_loop fuel [] visited total s = (some total, s)
  image_size_loop zero (d ∷ queue) visited total s = (none, s)
  image_size_loop (suc fuel) (d ∷ queue) visited total s = elim (mem d visited) [
    | true ↦ image_size_loop fuel queue visited total s
    | false ↦
        image_size_loop fuel (queue ++ edges_found (get_archived archive d s).0) (d ∷ visited)
          ((total + sizes d s) % u64_mod) (get_archived archive d s).1
  ]

  unfoldable pub compute_image_size : Digest → MmapStore → Option ℕ × MmapStore
  compute_image_size root s =
      image_size_loop (suc (stored_edges archive s.nodes.files)) (root ∷ []) [] 0 s
