-- ===== src/Store/Walk/Plain.antt =====
-- runtime/pullrun-store/src/store.rs: the walk is one over the files, whatever is cached.
use pullrun.Base.{
  ℕ, zero, suc, ◌≡◌, ◌≢◌, refl, ap, ◌∙◌, inl, inr, Bool, true, false, none, some, List, [], ◌∷◌,
  ◌++◌, Bool-cases, Option-cases, arith,
}
use pullrun.Base.Words.{Bytes}
use pullrun.Base.Map
use pullrun.Base.Map.{Map}
use pullrun.Store.Digest.{Digest, digest_eq, mem}
use pullrun.Store.Dag.{DagNode}
use pullrun.Store.Blobs.{BlobStore}
use pullrun.Store.Blobs.Transparent.{Coherent, get_blob-Coherent}
use pullrun.Store.Nodes.{
  MmapStore, Archive, StoreError, not_found, corrupted, serialization, Result, ok, err, get, exists,
  read, get_archived,
}
use pullrun.Store.Walk.{Found, visit, push_node, Outcome, walked, failed, out_of_fuel, walk_loop}

-- A call that may load and evict, but changes nothing on disk.
pub record Same (s t : MmapStore) : Type 0 where
  pub coherent : Coherent t.nodes
  pub files : t.nodes.files ≡ s.nodes.files
  pub blobs : t.blobs ≡ s.blobs
  pub refcounts : t.refcounts ≡ s.refcounts

pub Same-refl : (s : MmapStore) → Coherent s.nodes → Same s s
Same-refl s h = record { coherent = h; files = refl; blobs = refl; refcounts = refl }

Same-trans : (s t u : MmapStore) → Same s t → Same t u → Same s u
Same-trans s t u a b = record {
  coherent = b.coherent;
  files = b.files ∙ a.files;
  blobs = b.blobs ∙ a.blobs;
  refcounts = b.refcounts ∙ a.refcounts;
}

-- The walk over what digests stand for.
unfoldable pub plain_loop :
    (Digest → Result DagNode) → (Digest → Bool) → ℕ → List Digest → Found → Outcome
plain_loop find has_blob fuel [] w = walked w.nodes w.blobs
plain_loop find has_blob zero (d ∷ queue) w = out_of_fuel
plain_loop find has_blob (suc fuel) (d ∷ queue) w = elim (mem d w.visited) [
  | true ↦ plain_loop find has_blob fuel queue w
  | false ↦ elim (find d) [
    | ok node ↦
        plain_loop find has_blob fuel (queue ++ node.edges) (push_node d (has_blob d) (visit d w))
    | err (not_found e) ↦ plain_loop find has_blob fuel queue (visit d w)
    | err e ↦ failed e
  ]
]

module _ (find : Digest → Result DagNode) (has_blob : Digest → Bool) (fuel : ℕ) (d : Digest)
    (queue : List Digest) (w : Found) where
  abbrev go : List Digest → Found → Outcome
  go = plain_loop find has_blob fuel

  abbrev start : Outcome
  start = plain_loop find has_blob (suc fuel) (d ∷ queue) w

  pub plain_skip : mem d w.visited ≡ true → start ≡ go queue w
  unfolding plain_loop
  plain_skip y = rw (plain_loop, y)

  module _ (new : mem d w.visited ≡ false) where
    pub plain_node :
        (node : DagNode)
        → find d ≡ ok node
        → start ≡ go (queue ++ node.edges) (push_node d (has_blob d) (visit d w))
    unfolding plain_loop
    plain_node node e = cc

    pub plain_absent : (e : Digest) → find d ≡ err (not_found e) → start ≡ go queue (visit d w)
    unfolding plain_loop
    plain_absent e h = cc

    pub plain_corrupted : (e : Digest) → find d ≡ err (corrupted e) → start ≡ failed (corrupted e)
    unfolding plain_loop
    plain_corrupted e h = cc

    pub plain_failed :
        (e : StoreError) → find d ≡ err e → ((x : Digest) → e ≢ not_found x) → start ≡ failed e
    unfolding plain_loop
    plain_failed (not_found x) h other = absurd (other x refl)
    plain_failed (corrupted x) h other = cc
    plain_failed serialization h other = cc

module _ (archive : Archive) where
  -- What a digest stands for on disk.
  abbrev pub look : Map Digest Bytes → Digest → Result DagNode
  look files d = read archive d (Map.get files d)

  pub get_archived-look :
      (d : Digest) (s : MmapStore)
      → Coherent s.nodes
      → ((get_archived archive d s).0 ≡ look s.nodes.files d) × Same s (get_archived archive d s).1
  unfolding get_archived get
  get_archived-look d s h =
      let (body, files, kept) = get_blob-Coherent d s.nodes h in
      (
        ap (read archive d) body,
        record { coherent = kept; files = files; blobs = refl; refcounts = refl },
      )

pub has-get : (m : Map Digest Bytes) (d : Digest) → Map.has m d ≡ false → Map.get m d ≡ none
unfolding Map.has Map.get
has-get [] d h = refl
has-get ((k, v) ∷ m) d h = ground (arith, has-get m d)

pub get-has :
    (m : Map Digest Bytes) (d : Digest) → Map.has m d ≡ true → (v : Bytes) × (Map.get m d ≡ some v)
unfolding Map.has Map.get
get-has [] d h = cc
get-has ((k, v) ∷ m) d h = elim (Bool-cases (digest_eq.beq k d)) [
  | inl y ↦ (v, rw y)
  | inr n ↦ rw n (get-has m d (rw n at h))
]

absent_lem : (d : Digest) (s : MmapStore) → exists d s ≡ false → Map.get s.nodes.files d ≡ none
unfolding exists
absent_lem d s h = has-get s.nodes.files d (ground arith)

present_lem :
    (d : Digest) (s : MmapStore)
    → Coherent s.nodes
    → exists d s ≡ true
    → (b : Bytes) × (Map.get s.nodes.files d ≡ some b)
unfolding exists
present_lem d s c h = elim (Bool-cases (Map.has s.nodes.cache d)) [
  | inl y ↦ let (b, e) = get-has s.nodes.cache d y in (b, c d b e)
  | inr n ↦ get-has s.nodes.files d (rw n at h)
]

module _ (archive : Archive) (files : Map Digest Bytes) (blobs : BlobStore) where
  abbrev find : Digest → Result DagNode
  find = look archive files

  abbrev has_blob : Digest → Bool
  has_blob d = Map.has blobs.files d

  abbrev plain : ℕ → List Digest → Found → Outcome
  plain = plain_loop find has_blob

  abbrev Agrees : MmapStore → Outcome × MmapStore → Outcome → Type 0
  Agrees s r o = (r.0 ≡ o) × Same s r.1

  abbrev Fits : MmapStore → Type 0
  Fits s = Coherent s.nodes × (s.nodes.files ≡ files) × (s.blobs ≡ blobs)

  after : (s t : MmapStore) → Same s t → Fits s → Fits t
  after s t h (c, f, b) = (h.coherent, h.files ∙ f, h.blobs ∙ b)

  module _ (fuel : ℕ) (d : Digest) (queue : List Digest) (w : Found) (s : MmapStore) where
    abbrev begin : Outcome × MmapStore
    begin = walk_loop archive (suc fuel) (d ∷ queue) w s

    walk_skip : mem d w.visited ≡ true → begin ≡ walk_loop archive fuel queue w s
    unfolding walk_loop
    walk_skip y = cc

    module _ (new : mem d w.visited ≡ false) where
      walk_absent : exists d s ≡ false → begin ≡ walk_loop archive fuel queue (visit d w) s
      unfolding walk_loop
      walk_absent n = cc

      walk_node :
          (node : DagNode)
          → exists d s ≡ true
          → (get_archived archive d s).0 ≡ ok node
          → begin
            ≡ walk_loop archive fuel
                (queue ++ node.edges)
                (push_node d (Map.has s.blobs.files d) (visit d w))
                (get_archived archive d s).1
      unfolding walk_loop
      walk_node node y e = cc

      walk_corrupted :
          (e : Digest)
          → exists d s ≡ true
          → (get_archived archive d s).0 ≡ err (corrupted e)
          → begin ≡ (failed (corrupted e), (get_archived archive d s).1)
      unfolding walk_loop
      walk_corrupted e y h = cc

  pub look-ok :
      (d : Digest) (b : Bytes) (node : DagNode)
      → Map.get files d ≡ some b
      → archive.check b ≡ some node
      → look archive files d ≡ ok node
  look-ok d b node e c = rw (e, read, c)

  pub look-corrupted :
      (d : Digest) (b : Bytes)
      → Map.get files d ≡ some b
      → archive.check b ≡ none
      → look archive files d ≡ err (corrupted d)
  look-corrupted d b e c = rw (e, read, c)

  agree :
      (s t : MmapStore) (r q : Outcome × MmapStore) (o p : Outcome)
      → r ≡ q
      → o ≡ p
      → Same s t
      → Agrees t q p
      → Agrees s r o
  agree s t r q o p e g h (result, same) = rw (e, g) (result, Same-trans s t q.1 h same)

  module _ (fuel : ℕ) (d : Digest) (queue : List Digest) (w : Found) (s : MmapStore) (h : Fits s)
      (next : (queue : List Digest) (w : Found) (s : MmapStore)
        → Fits s
        → Agrees s (walk_loop archive fuel queue w s) (plain fuel queue w)) where
    abbrev Step : Type 0
    Step = Agrees s (walk_loop archive (suc fuel) (d ∷ queue) w s) (plain (suc fuel) (d ∷ queue) w)

    step_seen : mem d w.visited ≡ true → Step
    step_seen y =
        agree s s _ _ _ _ (walk_skip fuel d queue w s y) (plain_skip find has_blob fuel d queue w y)
          (Same-refl s h.0) (next queue w s h)

    module _ (new : mem d w.visited ≡ false) where
      step_absent : exists d s ≡ false → Step
      step_absent f =
          agree s s _ _ _ _ (walk_absent fuel d queue w s new f)
            (plain_absent find has_blob fuel d queue w new d (rw (← h.1, absent_lem d s f)))
            (Same-refl s h.0) (next queue (visit d w) s h)

      step_stored : exists d s ≡ true → Step
      step_stored y =
          let (found, same) = get_archived-look archive d s h.0 in
          let (b, stored) = present_lem d s h.0 y in
          let here : Map.get files d ≡ some b = rw (← h.1) stored in
          let there : (get_archived archive d s).0 ≡ find d =
            found ∙ ap (λ m. look archive m d) h.1 in
          let t : MmapStore = (get_archived archive d s).1 in
          elim (Option-cases (archive.check b)) [
            | inl bad ↦
                agree s t _ (failed (corrupted d), t) _ (failed (corrupted d))
                  (walk_corrupted fuel d queue w s new d y (there ∙ look-corrupted d b here bad))
                  (plain_corrupted find has_blob fuel d queue w new d (look-corrupted d b here bad))
                  same (refl, Same-refl t same.coherent)
            | inr (node, good) ↦
                agree s t _ _ _ _
                  (walk_node fuel d queue w s new node y (there ∙ look-ok d b node here good)
                    ∙ ap
                        (λ (m : BlobStore).
                          walk_loop archive fuel (queue ++ node.edges)
                            (push_node d (Map.has m.files d) (visit d w)) t)
                        h.2)
                  (plain_node find has_blob fuel d queue w new node (look-ok d b node here good))
                  same
                  (next (queue ++ node.edges) (push_node d (has_blob d) (visit d w)) t
                    (after s t same h))
          ]

  pub walk_loop-plain :
      (fuel : ℕ) (queue : List Digest) (w : Found) (s : MmapStore)
      → Fits s
      → Agrees s (walk_loop archive fuel queue w s) (plain fuel queue w)
  unfolding walk_loop plain_loop
  walk_loop-plain fuel [] w s h = (refl, Same-refl s h.0)
  walk_loop-plain zero (d ∷ queue) w s h = (refl, Same-refl s h.0)
  walk_loop-plain (suc fuel) (d ∷ queue) w s h = elim (Bool-cases (mem d w.visited)) [
    | inl y ↦ step_seen fuel d queue w s h (walk_loop-plain fuel) y
    | inr n ↦ elim (Bool-cases (exists d s)) [
      | inl y ↦ step_stored fuel d queue w s h (walk_loop-plain fuel) n y
      | inr f ↦ step_absent fuel d queue w s h (walk_loop-plain fuel) n f
    ]
  ]
