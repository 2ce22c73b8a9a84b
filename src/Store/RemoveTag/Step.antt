-- ===== src/Store/RemoveTag/Step.antt =====
-- runtime/pullrun-store/src/store.rs: what one round of `remove_tag` keeps true.
use pullrun.Base.{
  ◌+◌, ◌-◌, ◌≤◌, ◌≡◌, sym, ap, ◌∙◌, subst, inl, inr, true, false, none, some, List, ◌∷◌, ◌++◌,
  if◌then◌else◌, Bool-cases, arith,
}
use pullrun.Base.Words.{Bytes}
use pullrun.Base.Text.{eq_bytes, eq_bytes_sound, eq_bytes_refl}
use pullrun.Base.Map
use pullrun.Base.Map.{Map, get-remove}
use pullrun.Store.Digest.{Digest, digest_eq, mem, mem-append}
use pullrun.Store.Dag.{DagNode}
use pullrun.Store.Blobs.{BlobStore}
use pullrun.Store.Blobs.Transparent.{Coherent}
use pullrun.Store.Nodes.{MmapStore, Archive, get_refcount, evict_cache_entry}
use pullrun.Store.Nodes.Evict.{evicted-files, evicted-Coherent}
use pullrun.Store.Walk.{edges_of}
use pullrun.Store.Walk.Plain.{Same}
use pullrun.Store.RemoveTag.{decrement_children, delete_entry}
use pullrun.Store.RemoveTag.Counts.{
  count, mem-count, referrers, referrers-remove, referrers-get, get-decrement_children,
  zeros-decrement_children, decrement_children-disk,
}

module _ (archive : Archive) where
  abbrev pub children : Bytes → List Digest
  children bytes = edges_of (archive.check bytes)

  -- Each digest is counted at least as often as the stored nodes refer to it.
  abbrev pub Covered : MmapStore → Type 0
  Covered s = (d : Digest) → referrers archive d s.nodes.files ≤ get_refcount d s

  module _ (files blobs : Map Digest Bytes) where
    -- Of what a stored node refers to, nothing is deleted.
    abbrev pub Intact : MmapStore → Type 0
    Intact s =
        (n : Digest) (bytes : Bytes) (e : Digest)
        → Map.get s.nodes.files n ≡ some bytes
        → mem e (children bytes) ≡ true
        → (Map.get s.nodes.files e ≡ Map.get files e) × (Map.get s.blobs.files e ≡ Map.get blobs e)

    pub record Inv (queue : List Digest) (s : MmapStore) : Type 0 where
      pub coherent : Coherent s.nodes
      pub covered : Covered s
      pub zeros : (d : Digest) → mem d queue ≡ true → get_refcount d s ≡ 0
      pub intact : Intact s

    pub Inv-skip :
        (d : Digest) (queue : List Digest) (s : MmapStore) → Inv (d ∷ queue) s → Inv queue s
    Inv-skip d queue s i = record {
      coherent = i.coherent;
      covered = i.covered;
      zeros = λ x h. i.zeros x (ground arith);
      intact = i.intact;
    }

    pub Inv-Same : (queue : List Digest) (s t : MmapStore) → Inv queue s → Same s t → Inv queue t
    unfolding get_refcount
    Inv-Same queue s t i m = record {
      coherent = m.coherent;
      covered = λ d. rw (m.files, m.refcounts) (i.covered d);
      zeros = λ d h. rw m.refcounts (i.zeros d h);
      intact = λ n b e. rw (m.files, m.blobs) (i.intact n b e);
    }

    module _ (d : Digest) (queue : List Digest) (s : MmapStore) (i : Inv (d ∷ queue) s)
        (bytes : Bytes) (node : DagNode) (here : Map.get s.nodes.files d ≡ some bytes)
        (good : archive.check bytes ≡ some node) where
      abbrev pub left : MmapStore
      left = (decrement_children node.edges s).1

      abbrev pub done : MmapStore
      done = delete_entry d left

      pub done-files : done.nodes.files ≡ Map.remove s.nodes.files d
      unfolding evict_cache_entry
      done-files =
          ap (λ m. Map.remove m d) (evicted-files d (Map.get left.nodes.cache d) left.nodes)
          ∙ ap (λ (b : BlobStore). Map.remove b.files d) (decrement_children-disk node.edges s).0

      done-blobs : done.blobs.files ≡ Map.remove s.blobs.files d
      unfolding evict_cache_entry
      done-blobs =
          ap (λ (b : BlobStore). Map.remove b.files d) (decrement_children-disk node.edges s).1

      done-refcount :
          (x : Digest)
          → get_refcount x done
            ≡ (if eq_bytes d x then 0 else get_refcount x s - count x node.edges)
      unfolding evict_cache_entry get_refcount
      done-refcount x =
          ground (arith, get-remove left.refcounts d x, get-decrement_children x node.edges s)

      no_referrer : referrers archive d s.nodes.files ≡ 0
      no_referrer = omega (arith, i.covered d, i.zeros d (ground (arith, eq_bytes_refl d)))

      done-Coherent : Coherent done.nodes
      unfolding evict_cache_entry
      done-Coherent x b g =
          let kept : Coherent left.nodes = rw (decrement_children-disk node.edges s).0 i.coherent in
          ap (λ m. Map.get (Map.remove m d) x)
            (evicted-files d (Map.get left.nodes.cache d) left.nodes)
          ∙ evicted-Coherent d left.nodes kept x b g

      get-done :
          (x : Digest)
          → Map.get done.nodes.files x ≡ (if eq_bytes d x then none else Map.get s.nodes.files x)
      get-done x = ap (λ m. Map.get m x) done-files ∙ get-remove s.nodes.files d x

      get-done_blob :
          (x : Digest)
          → Map.get done.blobs.files x ≡ (if eq_bytes d x then none else Map.get s.blobs.files x)
      get-done_blob x = ap (λ m. Map.get m x) done-blobs ∙ get-remove s.blobs.files d x

      done-Covered : Covered done
      done-Covered x =
          let fewer : referrers archive x (Map.remove s.nodes.files d) + count x (children bytes)
              ≤ referrers archive x s.nodes.files =
            referrers-remove archive s.nodes.files d x bytes here in
          let same : children bytes ≡ node.edges = ap edges_of good in
          let after : referrers archive x done.nodes.files
              ≡ referrers archive x (Map.remove s.nodes.files d) =
            ap (referrers archive x) done-files in
          elim (Bool-cases (eq_bytes d x)) [
            | inl y ↦ ground (
              arith,
              y,
              after,
              fewer,
              no_referrer,
              done-refcount x,
              ap (λ k. referrers archive k s.nodes.files) (eq_bytes_sound d x y),
            )
            | inr n ↦
                ground (arith, n, after, fewer, ap (count x) same, done-refcount x, i.covered x)
          ]

      done-zeros :
          (x : Digest)
          → mem x (queue ++ (decrement_children node.edges s).0) ≡ true
          → get_refcount x done ≡ 0
      done-zeros x h = elim (Bool-cases (mem x queue)) [
        | inl y ↦ ground (arith, done-refcount x, i.zeros x (ground arith))
        | inr n ↦ ground (
          arith,
          done-refcount x,
          get-decrement_children x node.edges s,
          zeros-decrement_children x node.edges s
              (ground (arith, mem-append x queue (decrement_children node.edges s).0)),
        )
      ]

      other :
          (n e : Digest) (b : Bytes)
          → Map.get s.nodes.files n ≡ some b
          → mem e (children b) ≡ true
          → eq_bytes d e ≡ false
      other n e b g m = elim (Bool-cases (eq_bytes d e)) [
        | inr f ↦ f
        | inl y ↦ absurd (
            omega (
              arith,
              no_referrer,
              referrers-get archive s.nodes.files n d b g,
              mem-count d (children b)
                  (subst (λ k. mem k (children b) ≡ true) (sym (eq_bytes_sound d e y)) m),
            ))
      ]

      done-Intact : Intact done
      done-Intact n b e g m =
          let was : Map.get s.nodes.files n ≡ some b = ground (arith, get-done n, g) in
          let apart : eq_bytes d e ≡ false = other n e b was m in
          let (same_file, same_blob) = i.intact n b e was m in
          (
            ground (arith, get-done e, apart, same_file),
            ground (arith, get-done_blob e, apart, same_blob),
          )

      pub done-Inv : Inv (queue ++ (decrement_children node.edges s).0) done
      done-Inv = record {
        coherent = done-Coherent;
        covered = done-Covered;
        zeros = done-zeros;
        intact = done-Intact;
      }
