-- ===== src/Runtime/Images/Pinned.antt =====
-- runtime/pullrun-runtime/src/service.rs: what the daemon refers to survives a collection.
use pullrun.Base.{
  ℕ, ◌≡◌, refl, sym, ◌∙◌, ap, subst, Bool, true, Option, none, some, List, [], ◌∷◌, Bool-cases, ◌⊎◌,
  inl, inr, arith, some-inj,
}
use pullrun.Base.Words.{Bytes}
use pullrun.Base.Text.{eq_bytes, eq_bytes_sound, eq_bytes_refl}
use pullrun.Base.Map
use pullrun.Base.Map.{Map}
use pullrun.Store.Digest.{Digest, digest_eq, from_hex, mem, mem-append}
use pullrun.Store.Dag.{DagNode}
use pullrun.Store.Nodes.{Archive, Result}
use pullrun.Store.Blobs.Transparent.{Coherent}
use pullrun.Store.Walk.Plain.{look}
use pullrun.Store.Walk.Exact.{Reach}
use pullrun.Gc.{Disk, GarbageCollector, collect}
use pullrun.Gc
use pullrun.Gc.Safe.{collect-keeps}
use pullrun.Runtime.State.{WorkloadState, Daemon}
use pullrun.Runtime.Images.{
  cons_digest, tag_roots, filled_digest, workload_roots, enumerate_gc_roots, gc_with, gc,
}

module _ (hex_decode : Bytes → Option Bytes) where
  -- The root of a tagged image, of a workload's image, or of a workload's kernel.
  pub data Pinned (d : Daemon) (root : Digest) : Type 0 where
    tagged :
        (hex image_ref : Bytes)
        → Map.get d.image_tags hex ≡ some image_ref
        → from_hex hex_decode hex ≡ some root
        → Pinned d root
    used :
        (id : Bytes) (s : WorkloadState)
        → Map.get d.workloads id ≡ some s
        → filled_digest hex_decode s.image_root ≡ some root
        → Pinned d root
    booted :
        (id : Bytes) (s : WorkloadState)
        → Map.get d.workloads id ≡ some s
        → filled_digest hex_decode s.kernel_image_digest ≡ some root
        → Pinned d root

  mem-cons_digest :
      (o : Option Digest) (roots : List Digest) (root : Digest)
      → mem root roots ≡ true
      → mem root (cons_digest o roots) ≡ true
  unfolding cons_digest
  mem-cons_digest none roots root h = h
  mem-cons_digest (some d) roots root h = ground (arith, h)

  mem-cons_digest_self :
      (o : Option Digest) (roots : List Digest) (root : Digest)
      → o ≡ some root
      → mem root (cons_digest o roots) ≡ true
  unfolding cons_digest
  mem-cons_digest_self none roots root h = cc
  mem-cons_digest_self (some d) roots root h =
      subst (λ x. mem root (x ∷ roots) ≡ true) (sym (some-inj h)) (rw (eq_bytes_refl root) refl)

  tag_roots-mem :
      (tags : Map Bytes Bytes) (hex image_ref : Bytes) (root : Digest)
      → Map.get tags hex ≡ some image_ref
      → from_hex hex_decode hex ≡ some root
      → mem root (tag_roots hex_decode tags) ≡ true
  unfolding tag_roots Map.get
  tag_roots-mem [] hex image_ref root g e = cc
  tag_roots-mem ((k, v) ∷ tags) hex image_ref root g e = elim (Bool-cases (eq_bytes k hex)) [
    | inl y ↦ mem-cons_digest_self _ _ root (ap (from_hex hex_decode) (eq_bytes_sound k hex y) ∙ e)
    | inr n ↦ mem-cons_digest _ _ root (tag_roots-mem tags hex image_ref root (rw n at g) e)
  ]

  workload_roots-mem :
      (workloads : Map Bytes WorkloadState) (id : Bytes) (s : WorkloadState) (root : Digest)
      → Map.get workloads id ≡ some s
      → (filled_digest hex_decode s.image_root ≡ some root)
        ⊎ (filled_digest hex_decode s.kernel_image_digest ≡ some root)
      → mem root (workload_roots hex_decode workloads) ≡ true
  unfolding workload_roots Map.get
  workload_roots-mem [] id s root g e = cc
  workload_roots-mem ((k, v) ∷ workloads) id s root g e = elim (Bool-cases (eq_bytes k id)) [
    | inl y ↦
        let is : v ≡ s = some-inj (rw y at g) in
        elim e [
          | inl i ↦
              mem-cons_digest_self _ _ root
                (ap (λ (x : WorkloadState). filled_digest hex_decode x.image_root) is ∙ i)
          | inr i ↦ mem-cons_digest _ _ root (
              mem-cons_digest_self _ _ root
                (ap (λ (x : WorkloadState). filled_digest hex_decode x.kernel_image_digest) is ∙ i))
        ]
    | inr n ↦
        mem-cons_digest _ _ root
          (mem-cons_digest _ _ root (workload_roots-mem workloads id s root (rw n at g) e))
  ]

  Pinned-mem :
      (d : Daemon) (root : Digest)
      → Pinned d root
      → mem root (enumerate_gc_roots hex_decode d) ≡ true
  unfolding enumerate_gc_roots
  Pinned-mem d root (tagged hex image_ref g e) =
      let m = tag_roots-mem d.image_tags hex image_ref root g e in
      ground (
        arith,
        m,
        mem-append root (tag_roots hex_decode d.image_tags) (workload_roots hex_decode d.workloads),
      )
  Pinned-mem d root (used id s g e) =
      let m = workload_roots-mem d.workloads id s root g (inl e) in
      ground (
        arith,
        m,
        mem-append root (tag_roots hex_decode d.image_tags) (workload_roots hex_decode d.workloads),
      )
  Pinned-mem d root (booted id s g e) =
      let m = workload_roots-mem d.workloads id s root g (inr e) in
      ground (
        arith,
        m,
        mem-append root (tag_roots hex_decode d.image_tags) (workload_roots hex_decode d.workloads),
      )

module _ (archive : Archive) (disk : Disk) where
  abbrev find : Digest → Result DagNode
  find = look archive disk.store.nodes.files

  Reach-more :
      (roots : List Digest) (root x : Digest)
      → mem root roots ≡ true
      → Reach find (root ∷ []) x
      → Reach find roots x
  Reach-more roots root x m (Reach.root d e) =
      Reach.root d (subst (λ r. mem r roots ≡ true) (eq_bytes_sound root d (ground (arith, e))) m)
  Reach-more roots root x m (Reach.edge d e node r f g) =
      Reach.edge d e node (Reach-more roots root d m r) f g

  gc_with-keeps :
      (collector : GarbageCollector) (now : ℕ) (roots : List Digest) (x : Digest)
      → Coherent disk.store.nodes
      → Reach find roots x
      → (Map.get (gc_with archive collector now roots disk).1.store.nodes.files x
          ≡ Map.get disk.store.nodes.files x)
        × (Map.get (gc_with archive collector now roots disk).1.store.blobs.files x
            ≡ Map.get disk.store.blobs.files x)
  gc_with-keeps collector now [] x h r = (refl, refl)
  gc_with-keeps collector now (root ∷ roots) x h r =
      collect-keeps archive collector now (root ∷ roots) disk h x r

  -- Whatever a request to collect does on a store whose node cache holds what the disk does, it leaves
  -- the node file and the blob file of each digest that leads from the root of a tagged image, of a
  -- workload's image or of a workload's kernel as they are.
  pub gc-keeps :
      (hex_decode : Bytes → Option Bytes) (dry_run force : Bool) (now : ℕ) (d : Daemon)
      (root x : Digest)
      → Coherent disk.store.nodes
      → Pinned hex_decode d root
      → Reach (look archive disk.store.nodes.files) (root ∷ []) x
      → (Map.get (gc archive hex_decode dry_run force now d disk).1.store.nodes.files x
          ≡ Map.get disk.store.nodes.files x)
        × (Map.get (gc archive hex_decode dry_run force now d disk).1.store.blobs.files x
            ≡ Map.get disk.store.blobs.files x)
  unfolding gc
  gc-keeps hex_decode dry_run force now d root x h p r =
      gc_with-keeps (Gc.with_force force (Gc.with_dry_run dry_run Gc.new)) now
        (enumerate_gc_roots hex_decode d) x h
        (Reach-more (enumerate_gc_roots hex_decode d) root x (Pinned-mem hex_decode d root p) r)
