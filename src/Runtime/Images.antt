-- ===== src/Runtime/Images.antt =====
-- runtime/pullrun-runtime/src/service.rs: the requests on images that the daemon's own state decides:
-- the roots of a collection, `gc` and `remove_image`.
pub mod Pinned
pub mod Unused
use pullrun.Base.{
  ℕ, zero, suc, ◌+◌, ◌%◌, Bool, true, false, Option, none, some, List, [], ◌∷◌, ◌++◌, ◌==◌,
  if◌then◌else◌,
}
use pullrun.Base.Words.{Bytes, u64_mod}
use pullrun.Base.Text.{eq_bytes}
use pullrun.Base.Map
use pullrun.Base.Map.{Map}
use pullrun.Store.Digest.{Digest, digest_eq, from_hex}
use pullrun.Store.Nodes.{MmapStore, Archive}
use pullrun.Store.RemoveTag.{Removal, freed, stopped, out_of_fuel, remove_tag}
use pullrun.Gc.{Collected, Disk, GarbageCollector, GcError, report, refused, endless, collect}
use pullrun.Gc
use pullrun.Runtime.State.{WorkloadState, Daemon}
use pullrun.Runtime.Restart.{is_nil}

unfoldable pub cons_digest : Option Digest → List Digest → List Digest
cons_digest none roots = roots
cons_digest (some d) roots = d ∷ roots

module _ (hex_decode : Bytes → Option Bytes) where
  unfoldable pub tag_roots : Map Bytes Bytes → List Digest
  tag_roots [] = []
  tag_roots ((hex, image_ref) ∷ tags) = cons_digest (from_hex hex_decode hex) (tag_roots tags)

  abbrev pub filled_digest : Bytes → Option Digest
  filled_digest hex = if is_nil hex then none else from_hex hex_decode hex

  unfoldable pub workload_roots : Map Bytes WorkloadState → List Digest
  workload_roots [] = []
  workload_roots ((id, s) ∷ workloads) =
      cons_digest (filled_digest s.image_root)
        (cons_digest (filled_digest s.kernel_image_digest) (workload_roots workloads))

  unfoldable pub enumerate_gc_roots : Daemon → List Digest
  enumerate_gc_roots d = tag_roots d.image_tags ++ workload_roots d.workloads

-- `none` is the refusal of a request without roots.
abbrev pub gc_with : Archive → GarbageCollector → ℕ → List Digest → Disk → Option Collected × Disk
gc_with archive collector now [] disk = (none, disk)
gc_with archive collector now (root ∷ roots) disk =
    let r : Collected × Disk = collect archive collector now (root ∷ roots) disk in (some r.0, r.1)

unfoldable pub gc :
    Archive → (Bytes → Option Bytes) → Bool → Bool → ℕ → Daemon → Disk → Option Collected × Disk
gc archive hex_decode dry_run force now d disk =
    gc_with archive (Gc.with_force force (Gc.with_dry_run dry_run Gc.new)) now
      (enumerate_gc_roots hex_decode d) disk

-- The daemon, the store, and the tags as `image_tags.json` holds them.
pub record Images : Type 0 where
  pub daemon : Daemon
  pub store : MmapStore
  pub saved_tags : Map Bytes Bytes

pub data Removed : Type 0 where
  removed : ℕ → Removed
  bad_digest not_tagged : Removed
  in_use : Bytes → Removed

unfoldable pub count_tags : Bytes → Map Bytes Bytes → ℕ
count_tags root_digest [] = 0
count_tags root_digest ((k, image_ref) ∷ tags) =
    let rest = count_tags root_digest tags in if eq_bytes k root_digest then suc rest else rest

-- The first workload of the image, in the order of the map, whatever its status.
unfoldable pub find_user : Bytes → Map Bytes WorkloadState → Option Bytes
find_user root_digest [] = none
find_user root_digest ((id, s) ∷ workloads) =
    let rest = find_user root_digest workloads in
    if eq_bytes s.image_root root_digest then some id else rest

abbrev pub add_freed : Removal → ℕ → ℕ
add_freed (freed bytes) total = (total + bytes) % u64_mod
add_freed (stopped e) total = total
add_freed out_of_fuel total = total

module _ (archive : Archive) where
  -- A removal that fails is only logged.
  unfoldable pub remove_times : ℕ → Digest → ℕ → MmapStore → ℕ × MmapStore
  remove_times zero digest total s = (total, s)
  remove_times (suc n) digest total s =
      remove_times n digest (add_freed (remove_tag archive digest s).0 total)
        (remove_tag archive digest s).1

  -- `writable` says whether the file of the tags can be written.
  abbrev pub drop_tags : Bool → Bytes → ℕ × MmapStore → Images → Removed × Images
  drop_tags writable root_digest (total, store) i =
      let tags : Map Bytes Bytes = Map.remove i.daemon.image_tags root_digest in
      (
        removed total,
        record {
          daemon = record i.daemon { image_tags = tags };
          store = store;
          saved_tags = if writable then tags else i.saved_tags;
        },
      )

  abbrev pub remove_unused : Bool → Bytes → Digest → ℕ → Option Bytes → Images → Removed × Images
  remove_unused writable root_digest digest count (some id) i = (in_use id, i)
  remove_unused writable root_digest digest count none i =
      drop_tags writable root_digest (remove_times count digest 0 i.store) i

  abbrev pub remove_counted : Bool → Bytes → Digest → ℕ → Images → Removed × Images
  remove_counted writable root_digest digest zero i = (not_tagged, i)
  remove_counted writable root_digest digest (suc n) i =
      remove_unused writable root_digest digest (suc n) (find_user root_digest i.daemon.workloads) i

  abbrev pub remove_parsed : Bool → Bytes → Option Digest → Images → Removed × Images
  remove_parsed writable root_digest none i = (bad_digest, i)
  remove_parsed writable root_digest (some digest) i =
      remove_counted writable root_digest digest (count_tags root_digest i.daemon.image_tags) i

  unfoldable pub remove_image : (Bytes → Option Bytes) → Bool → Bytes → Images → Removed × Images
  remove_image hex_decode writable root_digest i =
      remove_parsed writable root_digest (from_hex hex_decode root_digest) i
