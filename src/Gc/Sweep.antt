-- ===== src/Gc/Sweep.antt =====
-- runtime/pullrun-gc/src/lib.rs: the sweep of `collect`, file by file.
use pullrun.Base.{
  true, false, ◌≡◌, refl, ap, ◌∙◌, inl, inr, not, ◌&&◌, Option, none, some, List, [], ◌∷◌,
  if◌then◌else◌, Bool-cases, arith,
}
use pullrun.Base.Words.{Bytes}
use pullrun.Base.Text.{eq_bytes, eq_bytes_sound}
use pullrun.Base.Map
use pullrun.Base.Map.{Map, get-remove}
use pullrun.Store.Digest.{Digest, digest_eq, mem}
use pullrun.Store.Blobs.{BlobStore}
use pullrun.Store.Nodes.{MmapStore, evict_cache_entry}
use pullrun.Store.Nodes.Evict.{evicted-files}
use pullrun.Gc.{
  GcReport, Removes, delete_node, delete_blob, node_removed, both_removed, sweep_one, sweep,
  filter_unreachable,
}

abbrev files_of : GcReport × MmapStore → Map Digest Bytes
files_of rs = rs.1.nodes.files

abbrev blobs_of : GcReport × MmapStore → Map Digest Bytes
blobs_of rs = rs.1.blobs.files

delete_node-files :
    (d x : Digest) (o : Option Bytes) (rs : GcReport × MmapStore)
    → Map.get (files_of rs) d ≡ o
    → Map.get (files_of (delete_node d o rs)) x
      ≡ (if eq_bytes d x then none else Map.get (files_of rs) x)
delete_node-files d x none rs h =
    ground (arith, eq_bytes_sound d x, ap (Map.get (files_of rs)) {x = d} {y = x})
delete_node-files d x (some b) rs h = get-remove (files_of rs) d x

delete_blob-files :
    (d x : Digest) (o : Option Bytes) (rs : GcReport × MmapStore)
    → Map.get (blobs_of rs) d ≡ o
    → Map.get (blobs_of (delete_blob d o rs)) x
      ≡ (if eq_bytes d x then none else Map.get (blobs_of rs) x)
delete_blob-files d x none rs h =
    ground (arith, eq_bytes_sound d x, ap (Map.get (blobs_of rs)) {x = d} {y = x})
delete_blob-files d x (some b) rs h = get-remove (blobs_of rs) d x

-- Each deletion leaves the other files.
delete_blob-nodes :
    (d : Digest) (o : Option Bytes) (rs : GcReport × MmapStore)
    → ((delete_blob d o rs).1.nodes ≡ rs.1.nodes)
      × ((delete_blob d o rs).1.refcounts ≡ rs.1.refcounts)
delete_blob-nodes d none rs = (refl, refl)
delete_blob-nodes d (some b) rs = (refl, refl)

delete_node-blobs :
    (d : Digest) (o : Option Bytes) (rs : GcReport × MmapStore)
    → ((delete_node d o rs).1.blobs ≡ rs.1.blobs)
      × ((delete_node d o rs).1.refcounts ≡ rs.1.refcounts)
delete_node-blobs d none rs = (refl, refl)
delete_node-blobs d (some b) rs = (refl, refl)

module _ (d x : Digest) (r : GcReport) (s : MmapStore) where
  abbrev gone : Option Bytes → Option Bytes
  gone o = if eq_bytes d x then none else o

  both_removed-files : Map.get (files_of (both_removed d (r, s))) x ≡ gone (Map.get s.nodes.files x)
  unfolding both_removed evict_cache_entry
  both_removed-files =
      let rs : GcReport × MmapStore = (r, evict_cache_entry d s) in
      let e : files_of rs ≡ s.nodes.files = evicted-files d (Map.get s.nodes.cache d) s.nodes in
      ap (λ (b : BlobStore). Map.get b.files x)
        (delete_blob-nodes d (Map.get s.blobs.files d)
          (delete_node d (Map.get s.nodes.files d) rs)).0
      ∙ delete_node-files d x (Map.get s.nodes.files d) rs (ap (λ m. Map.get m d) e)
      ∙ ap (λ m. gone (Map.get m x)) e

  both_removed-blobs : Map.get (blobs_of (both_removed d (r, s))) x ≡ gone (Map.get s.blobs.files x)
  unfolding both_removed evict_cache_entry
  both_removed-blobs =
      let rs : GcReport × MmapStore = (r, evict_cache_entry d s) in
      let e : (delete_node d (Map.get s.nodes.files d) rs).1.blobs ≡ s.blobs =
        (delete_node-blobs d (Map.get s.nodes.files d) rs).0 in
      delete_blob-files d x (Map.get s.blobs.files d) (delete_node d (Map.get s.nodes.files d) rs)
        (ap (λ (b : BlobStore). Map.get b.files d) e)
      ∙ ap (λ (b : BlobStore). gone (Map.get b.files x)) e

  both_removed-refcounts : (both_removed d (r, s)).1.refcounts ≡ s.refcounts
  unfolding both_removed evict_cache_entry
  both_removed-refcounts =
      let rs : GcReport × MmapStore = (r, evict_cache_entry d s) in
      (delete_blob-nodes d (Map.get s.blobs.files d) (delete_node d (Map.get s.nodes.files d) rs)).1
      ∙ (delete_node-blobs d (Map.get s.nodes.files d) rs).1

-- The sweep deletes the files of the digests that it is given, and no others.
pub record Swept (us : List Digest) (s t : MmapStore) : Type 0 where
  pub files :
      (x : Digest) → Map.get t.nodes.files x ≡ (if mem x us then none else Map.get s.nodes.files x)
  pub blobs :
      (x : Digest) → Map.get t.blobs.files x ≡ (if mem x us then none else Map.get s.blobs.files x)
  pub refcounts : t.refcounts ≡ s.refcounts

-- A sweep that ends early leaves the files of the other digests.
pub record Loose (us : List Digest) (s t : MmapStore) : Type 0 where
  pub files : (x : Digest) → mem x us ≡ false → Map.get t.nodes.files x ≡ Map.get s.nodes.files x
  pub blobs : (x : Digest) → mem x us ≡ false → Map.get t.blobs.files x ≡ Map.get s.blobs.files x

Swept-cons :
    (d : Digest) (us : List Digest) (r : GcReport) (s t : MmapStore)
    → Swept us (both_removed d (r, s)).1 t
    → Swept (d ∷ us) s t
Swept-cons d us r s t rest = record {
  files = λ x. ground (arith, rest.files x, both_removed-files d x r s);
  blobs = λ x. ground (arith, rest.blobs x, both_removed-blobs d x r s);
  refcounts = rest.refcounts ∙ both_removed-refcounts d d r s;
}

module _ (removes : Removes) where
  sweep_one-done :
      (d : Digest) (r : GcReport) (s : MmapStore)
      → (sweep_one removes d (r, s)).0 ≡ true
      → (sweep_one removes d (r, s)).1 ≡ both_removed d (r, s)
  unfolding sweep_one
  sweep_one-done d r s h = elim (Bool-cases (Map.has s.nodes.files d && not (removes.node d))) [
    | inl y ↦ cc (rw y at h)
    | inr n ↦ elim (Bool-cases (Map.has s.blobs.files d && not (removes.blob d))) [
      | inl y ↦ cc (rw (n, y) at h)
      | inr m ↦ rw (n, m)
    ]
  ]

  evicted-Loose :
      (d x : Digest) (s : MmapStore)
      → (Map.get (evict_cache_entry d s).nodes.files x ≡ Map.get s.nodes.files x)
        × (Map.get (evict_cache_entry d s).blobs.files x ≡ Map.get s.blobs.files x)
  unfolding evict_cache_entry
  evicted-Loose d x s =
      (ap (λ m. Map.get m x) (evicted-files d (Map.get s.nodes.cache d) s.nodes), refl)

  node_removed-Loose :
      (d x : Digest) (r : GcReport) (s : MmapStore)
      → eq_bytes d x ≡ false
      → (Map.get (files_of (node_removed d (r, s))) x ≡ Map.get s.nodes.files x)
        × (Map.get (blobs_of (node_removed d (r, s))) x ≡ Map.get s.blobs.files x)
  unfolding evict_cache_entry
  node_removed-Loose d x r s n =
      let rs : GcReport × MmapStore = (r, evict_cache_entry d s) in
      let e : files_of rs ≡ s.nodes.files = evicted-files d (Map.get s.nodes.cache d) s.nodes in
      (
        delete_node-files d x (Map.get s.nodes.files d) rs (ap (λ m. Map.get m d) e)
            ∙ rw n (ap (λ m. Map.get m x) e),
        ap (λ (b : BlobStore). Map.get b.files x)
            (delete_node-blobs d (Map.get s.nodes.files d) rs).0,
      )

  sweep_one-Loose :
      (d x : Digest) (r : GcReport) (s : MmapStore)
      → eq_bytes d x ≡ false
      → (Map.get (files_of (sweep_one removes d (r, s)).1) x ≡ Map.get s.nodes.files x)
        × (Map.get (blobs_of (sweep_one removes d (r, s)).1) x ≡ Map.get s.blobs.files x)
  unfolding sweep_one
  sweep_one-Loose d x r s n = elim (Bool-cases (Map.has s.nodes.files d && not (removes.node d))) [
    | inl y ↦ rw y (evicted-Loose d x s)
    | inr m ↦ elim (Bool-cases (Map.has s.blobs.files d && not (removes.blob d))) [
      | inl y ↦ rw (m, y) (node_removed-Loose d x r s n)
      | inr k ↦
          rw (m, k) (both_removed-files d x r s ∙ rw n refl, both_removed-blobs d x r s ∙ rw n refl)
    ]
  ]

  pub sweep-Loose :
      (us : List Digest) (r : GcReport) (s : MmapStore) → Loose us s (sweep removes us (r, s)).1.1
  unfolding sweep
  sweep-Loose [] r s = record { files = λ x h. refl; blobs = λ x h. refl }
  sweep-Loose (d ∷ us) r s =
      let (done, (q, t)) = sweep_one removes d (r, s) in
      let rest = sweep-Loose us q t in
      elim (Bool-cases done) [
        | inl y ↦ rw y (record {
          files = λ x h. rest.files x (later x h) ∙ (sweep_one-Loose d x r s (apart x h)).0;
          blobs = λ x h. rest.blobs x (later x h) ∙ (sweep_one-Loose d x r s (apart x h)).1;
        })
        | inr n ↦ rw n (record {
          files = λ x h. (sweep_one-Loose d x r s (apart x h)).0;
          blobs = λ x h. (sweep_one-Loose d x r s (apart x h)).1;
        })
      ]
    where
      later : (x : Digest) → mem x (d ∷ us) ≡ false → mem x us ≡ false
      later x h = ground (arith, h)

      apart : (x : Digest) → mem x (d ∷ us) ≡ false → eq_bytes d x ≡ false
      apart x h = ground (arith, h)

  pub sweep-Swept :
      (us : List Digest) (r : GcReport) (s : MmapStore)
      → (sweep removes us (r, s)).0 ≡ true
      → Swept us s (sweep removes us (r, s)).1.1
  unfolding sweep
  sweep-Swept [] r s h = record { files = λ x. refl; blobs = λ x. refl; refcounts = refl }
  sweep-Swept (d ∷ us) r s h = elim (Bool-cases (sweep_one removes d (r, s)).0) [
    | inr n ↦ cc (rw n at h)
    | inl y ↦
        let e = sweep_one-done d r s y in
        let (q, t) = both_removed d (r, s) in
        let rest = sweep-Swept us q t (rw (y, e) at h) in rw (y, e) (Swept-cons d us r s _ rest)
  ]

pub filter_unreachable-mem :
    (reachable ds : List Digest) (x : Digest)
    → mem x (filter_unreachable reachable ds) ≡ (mem x ds && not (mem x reachable))
unfolding filter_unreachable
filter_unreachable-mem reachable [] x = refl
filter_unreachable-mem reachable (d ∷ ds) x = elim (Bool-cases (eq_bytes d x)) [
  | inl t ↦ ground (
    arith,
    filter_unreachable-mem reachable ds x,
    ap (λ k. mem k reachable) (eq_bytes_sound d x t),
  )
  | inr n ↦ ground (arith, filter_unreachable-mem reachable ds x)
]

pub mem-keys : (m : Map Digest Bytes) (x : Digest) → mem x (Map.keys m) ≡ Map.has m x
unfolding Map.keys Map.has
mem-keys [] x = refl
mem-keys ((k, v) ∷ m) x = ground (arith, mem-keys m x)
