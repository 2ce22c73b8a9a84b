-- ===== src/Store/RemoveTag/Safe.antt =====
-- runtime/pullrun-store/src/store.rs: what `remove_tag` leaves, and how many rounds it makes.
use pullrun.Base.{ℕ, suc, ◌+◌, ◌≤◌, ◌≢◌, List, ◌∷◌, if◌then◌else◌}
use pullrun.Base.Words.{Bytes}
use pullrun.Base.Text.{eq_bytes}
use pullrun.Base.Map
use pullrun.Base.Map.{Map, get-remove}
use pullrun.Store.Digest.{Digest, digest_eq}
use pullrun.Store.Blobs.Transparent.{Coherent}
use pullrun.Store.Nodes.{MmapStore, Archive, get_archived, get_refcount, decrement_refcount}
use pullrun.Store.RemoveTag.{Removal, out_of_fuel, remove_loop}
use pullrun.Store.RemoveTag.Counts.{referrers}
use pullrun.Store.RemoveTag.Step.{Covered, Intact, Inv}

module _ (archive : Archive) where
  module _ (fuel : ℕ) (d : Digest) (queue deleted : List Digest) (bytes : ℕ) (s : MmapStore) where
    abbrev begin : Removal × MmapStore
    begin = remove_loop archive (suc fuel) (d ∷ queue) deleted bytes s

  module _ (files blobs : Map Digest Bytes) where
    -- The loop comes to an end, and what it leaves is in order.
    abbrev Ends : Removal × MmapStore → Type 0
    Ends (r, t) =
        (r ≢ out_of_fuel) × Coherent t.nodes × Covered archive t × Intact archive files blobs t

    module _ (d : Digest) (queue : List Digest) (s : MmapStore)
        (i : Inv archive files blobs (d ∷ queue) s) where
      abbrev t : MmapStore
      t = (get_archived archive d s).1

  -- Besides the edges of the stored nodes, the tag itself is counted.
  abbrev pub Tagged : Digest → MmapStore → Type 0
  Tagged root s =
      (d : Digest)
      → referrers archive d s.nodes.files + (if eq_bytes root d then 1 else 0) ≤ get_refcount d s

  module _ (root : Digest) (s : MmapStore) (h : Coherent s.nodes) (tagged : Tagged root s) where
    abbrev less : MmapStore
    less = (decrement_refcount root s).1
