-- ===== src/Store/Walk/Rounds.antt =====
-- runtime/pullrun-store/src/store.rs: how many rounds `walk_reachable` makes.
use pullrun.Base.{
  ℕ, zero, suc, ◌+◌, ◌≤◌, ◌≡◌, ◌≢◌, ◌⊎◌, refl, sym, ap, ◌∙◌, inl, inr, Bool, false, none, some,
  List, [], ◌∷◌, ◌++◌, if◌then◌else◌, length, length-append, Bool-cases, Option-cases, some-inj,
  arith,
}
use pullrun.Base.Words.{Bytes}
use pullrun.Base.Text.{eq_bytes, eq_bytes_sound}
use pullrun.Base.Map
use pullrun.Base.Map.{Map}
use pullrun.Store.Digest.{Digest, digest_eq, mem}
use pullrun.Store.Dag.{DagNode}
use pullrun.Store.Blobs.Transparent.{Coherent}
use pullrun.Store.Nodes.{MmapStore, Archive, Result, not_found, corrupted, ok, err, read}
use pullrun.Store.Walk.{
  Found, nothing, visit, push_node, out_of_fuel, edges_of, stored_edges, walk_reachable,
}
use pullrun.Store.Walk.Plain.{
  look, plain_loop, plain_skip, plain_node, plain_absent, plain_corrupted, walk_loop-plain,
}

module _ (archive : Archive) where
  -- The edges that the walk may still add to its queue.
  abbrev remaining : Map Digest Bytes → List Digest → ℕ
  remaining [] visited = 0
  remaining ((d, bytes) ∷ files) visited =
      (if mem d visited then 0 else length (edges_of (archive.check bytes)))
      + remaining files visited

  remaining_start : (files : Map Digest Bytes) → remaining files [] ≡ stored_edges archive files
  remaining_start [] = refl
  remaining_start ((d, bytes) ∷ files) = omega (arith, remaining_start files)

  remaining_fewer :
      (files : Map Digest Bytes) (d : Digest) (visited : List Digest)
      → remaining files (d ∷ visited) ≤ remaining files visited
  remaining_fewer [] d visited = omega arith
  remaining_fewer ((e, bytes) ∷ files) d visited = ground (arith, remaining_fewer files d visited)

  remaining_less :
      (files : Map Digest Bytes) (d : Digest) (bytes : Bytes) (visited : List Digest)
      → Map.get files d ≡ some bytes
      → mem d visited ≡ false
      → remaining files (d ∷ visited) + length (edges_of (archive.check bytes))
        ≤ remaining files visited
  unfolding Map.get
  remaining_less [] d bytes visited h n = cc
  remaining_less ((e, b) ∷ files) d bytes visited h n = elim (Bool-cases (eq_bytes e d)) [
    | inl y ↦ ground (
      arith,
      eq_bytes_sound e d y,
      ap (λ k. mem k visited) (eq_bytes_sound e d y),
      some-inj (rw y at h),
      remaining_fewer files d visited,
    )
    | inr f ↦ ground (arith, remaining_less files d bytes visited (rw f at h) n)
  ]

  module _ (files : Map Digest Bytes) (has_blob : Digest → Bool) where
    abbrev find : Digest → Result DagNode
    find = look archive files

    -- What `look` finds, with the bytes it is read from.
    look_cases :
        (d : Digest)
        → (find d ≡ err (not_found d))
          ⊎ (((bytes : Bytes) × (Map.get files d ≡ some bytes)
                × (archive.check bytes ≡ none)
                × (find d ≡ err (corrupted d)))
              ⊎ ((bytes : Bytes) × (node : DagNode) × (Map.get files d ≡ some bytes)
                  × (archive.check bytes ≡ some node)
                  × (find d ≡ ok node)))
    look_cases d = elim (Option-cases (Map.get files d)) [
      | inl e ↦ inl (rw e)
      | inr (bytes, e) ↦ inr (elim (Option-cases (archive.check bytes)) [
        | inl c ↦ inl (bytes, e, c, rw (e, read, c))
        | inr (node, c) ↦ inr (bytes, node, e, c, rw (e, read, c))
      ])
    ]

    rounds_enough :
        (fuel : ℕ) (queue : List Digest) (w : Found)
        → length queue + remaining files w.visited ≤ fuel
        → plain_loop find has_blob fuel queue w ≢ out_of_fuel
    unfolding plain_loop
    rounds_enough fuel [] w h e = cc
    rounds_enough zero (d ∷ queue) w h e = absurd (omega arith)
    rounds_enough (suc fuel) (d ∷ queue) w h e = elim (Bool-cases (mem d w.visited)) [
      | inl y ↦
          rounds_enough fuel queue w (omega arith)
            (sym (plain_skip find has_blob fuel d queue w y) ∙ e)
      | inr n ↦ elim (look_cases d) [
        | inl gone ↦
            rounds_enough fuel queue (visit d w) (omega (arith, remaining_fewer files d w.visited))
              (sym (plain_absent find has_blob fuel d queue w n d gone) ∙ e)
        | inr (inl (bytes, g, c, bad)) ↦
            cc (plain_corrupted find has_blob fuel d queue w n d bad, e)
        | inr (inr (bytes, node, g, c, good)) ↦
            rounds_enough fuel (queue ++ node.edges) (push_node d (has_blob d) (visit d w))
              (omega (
                arith,
                length-append queue node.edges,
                remaining_less files d bytes w.visited g n,
                ap (λ o. length (edges_of o)) c,
              ))
              (sym (plain_node find has_blob fuel d queue w n node good) ∙ e)
      ]
    ]

  -- `walk_reachable` ends on every store whose node cache holds what the disk does, however the
  -- nodes refer to each other: the rounds of its loop are at most the roots and the stored edges.
  pub walk_reachable-terminates :
      (roots : List Digest) (s : MmapStore)
      → Coherent s.nodes
      → (walk_reachable archive roots s).0 ≢ out_of_fuel
  unfolding walk_reachable
  walk_reachable-terminates roots s h e =
      rounds_enough s.nodes.files (λ d. Map.has s.blobs.files d)
        (length roots + stored_edges archive s.nodes.files) roots nothing
        (omega (arith, remaining_start s.nodes.files))
        (sym
            (walk_loop-plain archive s.nodes.files s.blobs
              (length roots + stored_edges archive s.nodes.files) roots nothing s (h, refl, refl)).0
          ∙ e)
