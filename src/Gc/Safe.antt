-- ===== src/Gc/Safe.antt =====
-- runtime/pullrun-gc/src/lib.rs: what `collect` deletes and what it keeps.
use pullrun.Base.{
  ℕ, ◌≡◌, ◌≢◌, ◌⊎◌, refl, sym, ap, ◌∙◌, inl, inr, Bool, true, false, not, ◌&&◌, Option, none, some,
  List, [], ◌∷◌, if◌then◌else◌, Bool-cases, arith,
}
use pullrun.Base.Words.{Bytes}
use pullrun.Base.Map
use pullrun.Base.Map.{Map}
use pullrun.Store.Digest.{Digest, digest_eq, mem}
use pullrun.Store.Dag.{DagNode}
use pullrun.Store.Blobs.{BlobStore}
use pullrun.Store.Blobs.Transparent.{Coherent}
use pullrun.Store.Nodes.{MmapStore, Archive, not_found, corrupted, serialization, Result, err}
use pullrun.Store.Walk.{Outcome, walked, failed, out_of_fuel}
use pullrun.Store.Walk.Plain.{Same, Same-refl, look, look-ok, look-corrupted, get-has, has-get}
use pullrun.Store.Walk.Rounds.{walk_reachable-terminates}
use pullrun.Store.Walk.Exact.{Reach, Exact, Right, walk_reachable-Right}
use pullrun.Store.OpLock.{list_fresh_op_locks}
use pullrun.Gc.{
  GarbageCollector, GcReport, GcError, io, Removes, Disk, swept_result, Collected, report, refused,
  endless, filter_unreachable, list_all_node_digests, find_missing, sweep, sweep_or_report,
  after_walk, collect_checked, under_locks, collect,
}
use pullrun.Gc.Sweep.{Swept, Loose, sweep-Loose, sweep-Swept, filter_unreachable-mem, mem-keys}

refused-inj : {e f : GcError} → refused e ≡ refused f → e ≡ f
refused-inj h = cc

module _ (archive : Archive) (gc : GarbageCollector) (removes : Removes) (s : MmapStore)
    (h : Coherent s.nodes) where
  abbrev find : Digest → Result DagNode
  find = look archive s.nodes.files

  abbrev has_blob : Digest → Bool
  has_blob d = Map.has s.blobs.files d

  -- A run that deletes nothing, and one that sweeps.
  abbrev Idle : Collected × MmapStore → Type 0
  Idle (c, t) = Same s t × (c ≢ endless) × ((r : GcReport) → c ≡ report r → gc.dry_run ≡ true)

  abbrev unreached : List Digest → List Digest
  unreached nodes = filter_unreachable nodes (list_all_node_digests s)

  abbrev Sweeps : List Digest → Collected × MmapStore → Type 0
  Sweeps roots (c, t) =
      (nodes : List Digest) × (blobs : List Digest) × (u : MmapStore) × Exact find has_blob roots
        nodes blobs
      × Same s u
      × (gc.dry_run ≡ false)
      × ((r : GcReport) × (c ≡ report r))
      × Swept (unreached nodes) u t

  -- A sweep that meets a file that it cannot remove.
  abbrev Breaks : List Digest → Collected × MmapStore → Type 0
  Breaks roots (c, t) =
      (nodes : List Digest) × (blobs : List Digest) × (u : MmapStore) × Exact find has_blob roots
        nodes blobs
      × Same s u
      × (gc.dry_run ≡ false)
      × (c ≡ refused io)
      × Loose (unreached nodes) u t

  abbrev Effect : List Digest → Collected × MmapStore → Type 0
  Effect roots ct = Idle ct ⊎ (Sweeps roots ct ⊎ Breaks roots ct)

  refused-Idle : (e : GcError) (t : MmapStore) → Same s t → Idle (refused e, t)
  refused-Idle e t same = (same, λ p. cc, λ r p. cc)

  swept_result-Effect :
      (roots nodes blobs : List Digest) (u : MmapStore) (o : Bool × (GcReport × MmapStore))
      → Exact find has_blob roots nodes blobs
      → Same s u
      → gc.dry_run ≡ false
      → (o.0 ≡ true → Swept (unreached nodes) u o.1.1)
      → Loose (unreached nodes) u o.1.1
      → Effect roots (swept_result o)
  swept_result-Effect roots nodes blobs u (true, (r, t)) exact same wet swept loose =
      inr (inl (nodes, blobs, u, exact, same, wet, (r, refl), swept refl))
  swept_result-Effect roots nodes blobs u (false, (r, t)) exact same wet swept loose =
      inr (inr (nodes, blobs, u, exact, same, wet, refl, loose))

  sweep_or_report-Effect :
      (roots nodes blobs : List Digest) (r : GcReport) (o : Option GcError) (t : MmapStore)
      → Exact find has_blob roots nodes blobs
      → Same s t
      → Effect roots (sweep_or_report gc removes r (unreached nodes) o t)
  sweep_or_report-Effect roots nodes blobs r (some e) t exact same = inl (refused-Idle e t same)
  sweep_or_report-Effect roots nodes blobs r none t exact same = decide gc.dry_run refl
    where
      decide :
          (dry : Bool)
          → gc.dry_run ≡ dry
          → Effect roots (
              if dry
              then (report (record r { dry_run = true }), t)
              else swept_result (sweep removes (unreached nodes) (r, t)))
      decide true y = inl (same, λ p. cc, λ q p. y)
      decide false n =
          swept_result-Effect roots nodes blobs t (sweep removes (unreached nodes) (r, t)) exact
            same n (sweep-Swept removes (unreached nodes) r t)
            (sweep-Loose removes (unreached nodes) r t)

  after_walk-Effect :
      (roots : List Digest) (o : Outcome) (t : MmapStore)
      → Right find has_blob roots o
      → o ≢ out_of_fuel
      → Same s t
      → Effect roots (after_walk gc removes (list_all_node_digests s) (o, t))
  after_walk-Effect roots (walked nodes blobs) t exact some_fuel same =
      sweep_or_report-Effect roots nodes blobs _ _ t exact same
  after_walk-Effect roots (failed (corrupted d)) t r some_fuel same = inl (refused-Idle _ t same)
  after_walk-Effect roots (failed (not_found d)) t r some_fuel same = inl (refused-Idle _ t same)
  after_walk-Effect roots (failed serialization) t r some_fuel same = inl (refused-Idle _ t same)
  after_walk-Effect roots out_of_fuel t r some_fuel same = absurd (some_fuel refl)

  checked-Effect :
      (roots : List Digest) (o : Option Digest)
      → Effect roots (collect_checked archive gc removes roots o s)
  checked-Effect [] o = inl (refused-Idle _ s (Same-refl s h))
  checked-Effect (root ∷ roots) (some d) = inl (refused-Idle _ s (Same-refl s h))
  checked-Effect (root ∷ roots) none =
      let (right, same) = walk_reachable-Right archive (root ∷ roots) s h in
      after_walk-Effect (root ∷ roots) _ _ right
        (walk_reachable-terminates archive (root ∷ roots) s h) same

  -- The store's part of the result.
  abbrev pub store_of : Collected × Disk → Collected × MmapStore
  store_of (c, disk) = (c, disk.store)

module _ (archive : Archive) (gc : GarbageCollector) (now : ℕ) (roots : List Digest) (disk : Disk)
    (h : Coherent disk.store.nodes) where
  abbrev Effects : Collected × Disk → Type 0
  Effects r =
      Effect archive gc disk.removes disk.store h roots
        (store_of archive gc disk.removes disk.store h r)

  either-Effect :
      (b : Bool) (x y : Collected × Disk) → Effects x → Effects y → Effects (if b then x else y)
  either-Effect true x y e f = e
  either-Effect false x y e f = f

  under_locks-Effect :
      (locks : List (Bytes × List Bytes)) → Effects (under_locks archive gc now roots disk locks)
  under_locks-Effect [] =
      checked-Effect archive gc disk.removes disk.store h roots (find_missing disk.store roots)
  under_locks-Effect (lock ∷ locks) =
      either-Effect gc.force _ _
        (checked-Effect archive gc disk.removes disk.store h roots (find_missing disk.store roots))
        (inl
          (refused-Idle archive gc disk.removes disk.store h _ disk.store (Same-refl disk.store h)))

  collect-Effect : Effects (collect archive gc now roots disk)
  unfolding collect
  collect-Effect = under_locks-Effect (list_fresh_op_locks now disk.ops)

  abbrev after : MmapStore
  after = (collect archive gc now roots disk).1.store

  abbrev files : Map Digest Bytes
  files = disk.store.nodes.files

  unreachable-mem :
      (nodes : List Digest) (d : Digest)
      → mem d (filter_unreachable nodes (list_all_node_digests disk.store))
        ≡ (Map.has files d && not (mem d nodes))
  unfolding list_all_node_digests
  unreachable-mem nodes d = rw (filter_unreachable-mem nodes (Map.keys files) d, mem-keys files d)

  missing-has : (d x : Digest) → look archive files d ≡ err (not_found x) → Map.has files d ≡ false
  missing-has d x e = elim (Bool-cases (Map.has files d)) [
    | inr n ↦ n
    | inl y ↦
        let (bytes, g) = get-has files d y in absurd (unreadable bytes (archive.check bytes) g refl)
  ]
    where
      unreadable :
          (bytes : Bytes) (o : Option DagNode)
          → Map.get files d ≡ some bytes
          → archive.check bytes ≡ o
          → ⊥
      unreadable bytes none g c = cc (e, look-corrupted archive files disk.store.blobs d bytes g c)
      unreadable bytes (some node) g c =
          cc (e, look-ok archive files disk.store.blobs d bytes node g c)

  reached_stays :
      (nodes blobs : List Digest)
      → Exact (look archive files) (λ d. Map.has disk.store.blobs.files d) roots nodes blobs
      → (d : Digest) → Reach (look archive files) roots d
      → (Map.has files d && not (mem d nodes)) ≡ false
  reached_stays nodes blobs exact d r = elim (exact.whole d r) [
    | inl f ↦ ground (arith, exact.all d r f)
    | inr (x, f) ↦ ground (arith, missing-has d x f)
  ]

  -- Every run of `collect` on a store whose node cache holds what the disk does leaves the node file
  -- and the blob file of each digest that the roots lead to as they are.
  pub collect-keeps :
      (d : Digest)
      → Reach (look archive files) roots d
      → (Map.get after.nodes.files d ≡ Map.get files d)
        × (Map.get after.blobs.files d ≡ Map.get disk.store.blobs.files d)
  collect-keeps d r = elim collect-Effect [
    | inl (same, ends, dry) ↦
        (ap (λ m. Map.get m d) same.files, ap (λ (b : BlobStore). Map.get b.files d) same.blobs)
    | inr (inl (nodes, blobs, u, exact, same, wet, done, swept)) ↦
        let stays = reached_stays nodes blobs exact d r in
        (
          ground (arith, swept.files d, unreachable-mem nodes d) ∙ ap (λ m. Map.get m d) same.files,
          ground (arith, swept.blobs d, unreachable-mem nodes d)
              ∙ ap (λ (b : BlobStore). Map.get b.files d) same.blobs,
        )
    | inr (inr (nodes, blobs, u, exact, same, wet, done, loose)) ↦
        let outside = unreachable-mem nodes d ∙ reached_stays nodes blobs exact d r in
        (
          loose.files d outside ∙ ap (λ m. Map.get m d) same.files,
          loose.blobs d outside ∙ ap (λ (b : BlobStore). Map.get b.files d) same.blobs,
        )
  ]

  -- A run of `collect` on a store whose node cache holds what the disk does that reports, and is no
  -- dry run, leaves node files only for digests that the roots lead to.
  pub collect-frees :
      (r : GcReport)
      → (collect archive gc now roots disk).0 ≡ report r
      → gc.dry_run ≡ false
      → (d : Digest) (bytes : Bytes) → Map.get after.nodes.files d ≡ some bytes
      → Reach (look archive files) roots d
  collect-frees r e wet d bytes g = elim collect-Effect [
    | inl (same, ends, dry) ↦ cc (wet, dry r e)
    | inr (inr (nodes, blobs, u, exact, same, wet, done, loose)) ↦ cc (done, e)
    | inr (inl (nodes, blobs, u, exact, same, wet, done, swept)) ↦
        let left : (if mem d (filter_unreachable nodes (list_all_node_digests disk.store))
              then none
              else Map.get u.nodes.files d)
            ≡ some bytes =
          sym (swept.files d) ∙ g in
        let here : Map.get u.nodes.files d ≡ Map.get files d = ap (λ m. Map.get m d) same.files in
        let there : mem d nodes ≡ true =
          ground (arith, left, here, unreachable-mem nodes d, has-get files d) in
        exact.reached d there
  ]

  -- `collect` on a store whose node cache holds what the disk does always comes to an end.
  pub collect-ends : (collect archive gc now roots disk).0 ≢ endless
  collect-ends = elim collect-Effect [
    | inl (same, ends, dry) ↦ ends
    | inr (inl (nodes, blobs, u, exact, same, wet, (p, done), swept)) ↦ λ e. cc (done, e)
    | inr (inr (nodes, blobs, u, exact, same, wet, done, loose)) ↦ λ e. cc (done, e)
  ]

  -- On a store whose node cache holds what the disk does, a dry run of `collect`, and a run that ends
  -- in an error other than that of a file that cannot be removed, change no node file, no blob and no
  -- reference count.
  pub collect-idle :
      (gc.dry_run ≡ true)
        ⊎ ((e : GcError) × ((collect archive gc now roots disk).0 ≡ refused e) × (e ≢ io))
      → Same disk.store after
  collect-idle why = elim collect-Effect [
    | inl (same, ends, dry) ↦ same
    | inr (inl (nodes, blobs, u, exact, same, wet, (p, done), swept)) ↦ elim why [
      | inl y ↦ cc (y, wet)
      | inr (e, stops, other) ↦ cc (stops, done)
    ]
    | inr (inr (nodes, blobs, u, exact, same, wet, done, loose)) ↦ elim why [
      | inl y ↦ cc (y, wet)
      | inr (e, stops, other) ↦ absurd (other (refused-inj (sym stops ∙ done)))
    ]
  ]
