-- ===== src/Store/Walk/Exact.antt =====
-- runtime/pullrun-store/src/store.rs: what `walk_reachable` collects.
use pullrun.Base.{
  ℕ, ◌+◌, length, zero, suc, ◌≡◌, ◌≢◌, ◌⊎◌, refl, sym, ap, ◌∙◌, subst, inl, inr, Bool, true, ◌||◌,
  ◌&&◌, List, [], ◌∷◌, ◌++◌, if◌then◌else◌, append-nil, Bool-cases, arith,
}
use pullrun.Base.Text.{eq_bytes, eq_bytes_sound, eq_bytes_refl}
use pullrun.Base.Map
use pullrun.Store.Blobs.Transparent.{Coherent}
use pullrun.Store.Digest.{Digest, digest_eq, mem, mem-append}
use pullrun.Store.Dag.{DagNode}
use pullrun.Store.Nodes.{
  MmapStore, Archive, StoreError, not_found, corrupted, serialization, Result, ok, err,
}
use pullrun.Store.Walk.{
  Found, nothing, visit, push_node, Outcome, walked, failed, out_of_fuel, stored_edges,
  walk_reachable,
}
use pullrun.Store.Walk.Plain.{
  Same, look, walk_loop-plain, plain_loop, plain_skip, plain_node, plain_absent, plain_failed,
}

Result-cases :
    (r : Result DagNode)
    → ((node : DagNode) × (r ≡ ok node))
      ⊎ (((d : Digest) × (r ≡ err (not_found d)))
          ⊎ ((e : StoreError) × (r ≡ err e) × ((d : Digest) → e ≢ not_found d)))
Result-cases (ok node) = inl (node, refl)
Result-cases (err (not_found d)) = inr (inl (d, refl))
Result-cases (err (corrupted d)) = inr (inr (corrupted d, refl, λ x h. cc))
Result-cases (err serialization) = inr (inr (serialization, refl, λ x h. cc))

module _ (find : Digest → Result DagNode) (roots : List Digest) where
  -- What the roots lead to.
  pub data Reach : Digest → Type 0 where
    root : (d : Digest) → mem d roots ≡ true → Reach d
    edge :
        (d e : Digest) (node : DagNode)
        → Reach d
        → find d ≡ ok node
        → mem e node.edges ≡ true
        → Reach e

  abbrev Done : List Digest → List Digest → Digest → Type 0
  Done queue visited d = (mem d visited || mem d queue) ≡ true

  record Sound (queue visited : List Digest) : Type 0 where
    queued : (d : Digest) → mem d queue ≡ true → Reach d
    seen : (d : Digest) → mem d visited ≡ true → Reach d
    closed :
        (d e : Digest) (node : DagNode)
        → mem d visited ≡ true
        → find d ≡ ok node
        → mem e node.edges ≡ true
        → Done queue visited e
    rooted : (d : Digest) → mem d roots ≡ true → Done queue visited d

  Sound-start : Sound roots []
  Sound-start = record {
    queued = root;
    seen = λ d h. cc;
    closed = λ d e node h. cc;
    rooted = λ d h. h;
  }

  Sound-skip :
      (d : Digest) (queue visited : List Digest)
      → Sound (d ∷ queue) visited
      → mem d visited ≡ true
      → Sound queue visited
  Sound-skip d queue visited s y = record {
    queued = λ e h. s.queued e (ground arith);
    seen = s.seen;
    closed = λ a e node h f m. drop e (s.closed a e node h f m);
    rooted = λ e h. drop e (s.rooted e h);
  }
    where
      drop : (e : Digest) → Done (d ∷ queue) visited e → Done queue visited e
      drop e h = elim (Bool-cases (eq_bytes d e)) [
        | inl t ↦
            let k : mem e visited ≡ true =
              subst (λ x. mem x visited ≡ true) (eq_bytes_sound d e t) y in
            ground arith
        | inr n ↦ ground arith
      ]

  Sound-visit :
      (d : Digest) (queue visited es : List Digest)
      → Sound (d ∷ queue) visited
      → ((node : DagNode) → find d ≡ ok node → node.edges ≡ es)
      → ((e : Digest) → mem e es ≡ true → Reach e)
      → Sound (queue ++ es) (d ∷ visited)
  Sound-visit d queue visited es s edges reached = record {
    queued = λ e h. ground (arith, mem-append e queue es, s.queued e, reached e);
    seen = λ e h. ground (arith, s.queued e, s.seen e);
    closed = λ a e node h f m. elim (Bool-cases (eq_bytes d a)) [
      | inl t ↦
          let m : mem e es ≡ true =
            subst (λ l. mem e l ≡ true) (edges node (ap find (eq_bytes_sound d a t) ∙ f)) m in
          ground (arith, mem-append e queue es)
      | inr n ↦ later e (s.closed a e node (ground arith) f m)
    ];
    rooted = λ e h. later e (s.rooted e h);
  }
    where
      later : (e : Digest) → Done (d ∷ queue) visited e → Done (queue ++ es) (d ∷ visited) e
      later e h = ground (arith, mem-append e queue es)

  -- Nothing is left to visit.
  Sound-Reach :
      (visited : List Digest) → Sound [] visited → (d : Digest) → Reach d → mem d visited ≡ true
  Sound-Reach visited s d (root _ h) = ground (arith, s.rooted d h)
  Sound-Reach visited s e (edge d _ node r f m) =
      ground (arith, s.closed d e node (Sound-Reach visited s d r) f m)

module _ (find : Digest → Result DagNode) (has_blob : Digest → Bool) where
  abbrev Stored : Digest → Type 0
  Stored d = (node : DagNode) × (find d ≡ ok node)

  abbrev Missing : Digest → Type 0
  Missing d = (x : Digest) × (find d ≡ err (not_found x))

  -- What is collected of what was visited.
  record Collected (w : Found) : Type 0 where
    seen : (d : Digest) → mem d w.nodes ≡ true → mem d w.visited ≡ true
    stored : (d : Digest) → mem d w.nodes ≡ true → Stored d
    all : (d : Digest) → mem d w.visited ≡ true → Stored d → mem d w.nodes ≡ true
    whole : (d : Digest) → mem d w.visited ≡ true → Stored d ⊎ Missing d
    blobs : (d : Digest) → mem d w.blobs ≡ (mem d w.nodes && has_blob d)

  Collected-start : Collected nothing
  Collected-start = record {
    seen = λ d h. cc;
    stored = λ d h. cc;
    all = λ d h f. cc;
    whole = λ d h. absurd cc;
    blobs = λ d. refl;
  }

  Collected-absent : (d : Digest) (w : Found) → Collected w → Missing d → Collected (visit d w)
  Collected-absent d w c (gone, g) = record {
    seen = λ e h. ground (arith, c.seen e h);
    stored = c.stored;
    all = λ e h (node, f). elim (Bool-cases (eq_bytes d e)) [
      | inl t ↦ cc (g, ap find (eq_bytes_sound d e t), f)
      | inr o ↦ c.all e (ground arith) (node, f)
    ];
    whole = λ e h. elim (Bool-cases (eq_bytes d e)) [
      | inl t ↦ inr (gone, sym (ap find (eq_bytes_sound d e t)) ∙ g)
      | inr o ↦ c.whole e (ground arith)
    ];
    blobs = c.blobs;
  }

  Collected-node :
      (d : Digest) (w : Found)
      → Collected w
      → Stored d
      → Collected (push_node d (has_blob d) (visit d w))
  Collected-node d w c g = record {
    seen = λ e h. ground (arith, mem-append e w.nodes (d ∷ []), c.seen e);
    stored = λ e h. elim (Bool-cases (eq_bytes d e)) [
      | inl t ↦ subst (λ x. Stored x) (eq_bytes_sound d e t) g
      | inr o ↦ c.stored e (ground (arith, mem-append e w.nodes (d ∷ [])))
    ];
    all = λ e h f. ground (arith, mem-append e w.nodes (d ∷ []), c.all e);
    whole = λ e h. elim (Bool-cases (eq_bytes d e)) [
      | inl t ↦ inl (subst (λ x. Stored x) (eq_bytes_sound d e t) g)
      | inr o ↦ c.whole e (ground arith)
    ];
    blobs = λ e. elim (Bool-cases (eq_bytes d e)) [
      | inl t ↦ ground (
        arith,
        pushed e,
        mem-append e w.nodes (d ∷ []),
        c.blobs e,
        ap has_blob (eq_bytes_sound d e t),
      )
      | inr o ↦ ground (arith, pushed e, mem-append e w.nodes (d ∷ []), c.blobs e)
    ];
  }
    where
      pushed :
          (e : Digest)
          → mem e (if has_blob d then w.blobs ++ d ∷ [] else w.blobs)
            ≡ (mem e w.blobs || has_blob d && eq_bytes d e)
      pushed e = elim (Bool-cases (has_blob d)) [
        | inl y ↦ rw y (ground (arith, mem-append e w.blobs (d ∷ [])))
        | inr n ↦ rw n (ground arith)
      ]

  module _ (roots : List Digest) where
    -- The lists are the stored nodes that the roots lead to, and those of them with a blob; nothing that
    -- the roots lead to is corrupted.
    pub record Exact (nodes blobs : List Digest) : Type 0 where
      pub reached : (d : Digest) → mem d nodes ≡ true → Reach find roots d
      pub stored : (d : Digest) → mem d nodes ≡ true → Stored d
      pub all : (d : Digest) → Reach find roots d → Stored d → mem d nodes ≡ true
      pub whole : (d : Digest) → Reach find roots d → Stored d ⊎ Missing d
      pub with_blob : (d : Digest) → mem d blobs ≡ (mem d nodes && has_blob d)

    finished : (w : Found) → Sound find roots [] w.visited → Collected w → Exact w.nodes w.blobs
    finished w s c = record {
      reached = λ d h. s.seen d (c.seen d h);
      stored = c.stored;
      all = λ d r f. c.all d (Sound-Reach find roots w.visited s d r) f;
      whole = λ d r. c.whole d (Sound-Reach find roots w.visited s d r);
      with_blob = c.blobs;
    }

    -- What the walk may come to.
    abbrev pub Right : Outcome → Type 0
    Right (walked nodes blobs) = Exact nodes blobs
    Right (failed e) = (d : Digest) × Reach find roots d × (find d ≡ err e)
    Right out_of_fuel = Unit

    plain_loop-Right :
        (fuel : ℕ) (queue : List Digest) (w : Found)
        → Sound find roots queue w.visited
        → Collected w
        → Right (plain_loop find has_blob fuel queue w)
    unfolding plain_loop
    plain_loop-Right fuel [] w s c = finished w s c
    plain_loop-Right zero (d ∷ queue) w s c = tt
    plain_loop-Right (suc fuel) (d ∷ queue) w s c = elim (Bool-cases (mem d w.visited)) [
      | inl y ↦
          subst Right (sym (plain_skip find has_blob fuel d queue w y))
            (plain_loop-Right fuel queue w (Sound-skip find roots d queue w.visited s y) c)
      | inr n ↦ elim (Result-cases (find d)) [
        | inl (node, f) ↦ subst Right (sym (plain_node find has_blob fuel d queue w n node f)) (
            plain_loop-Right fuel (queue ++ node.edges) (push_node d (has_blob d) (visit d w))
              (Sound-visit find roots d queue w.visited node.edges s (λ m g. cc (f, g))
                (λ x m. edge d x node (s.queued d (ground (arith, eq_bytes_refl d))) f m))
              (Collected-node d w c (node, f)))
        | inr (inl (x, f)) ↦ subst Right (sym (plain_absent find has_blob fuel d queue w n x f)) (
            plain_loop-Right fuel queue (visit d w)
              (subst (λ q. Sound find roots q (d ∷ w.visited)) (append-nil queue)
                (Sound-visit find roots d queue w.visited [] s (λ node g. cc (f, g)) (λ x m. cc)))
              (Collected-absent d w c (x, f)))
        | inr (inr (x, f, other)) ↦
            subst Right (sym (plain_failed find has_blob fuel d queue w n x f other))
              (d, s.queued d (ground (arith, eq_bytes_refl d)), f)
      ]
    ]

-- `walk_reachable` on a store whose node cache holds what the disk does: the nodes that it returns
-- are the stored nodes that the roots lead to, and no other; the blobs are those of them that have a
-- blob file. It fails only with the error that a digest which the roots lead to reads as. It changes
-- nothing on disk.
pub walk_reachable-Right :
    (archive : Archive) (roots : List Digest) (s : MmapStore)
    → Coherent s.nodes
    → Right
        (look archive s.nodes.files)
        (λ d. Map.has s.blobs.files d)
        roots
        (walk_reachable archive roots s).0
      × Same s (walk_reachable archive roots s).1
unfolding walk_reachable
walk_reachable-Right archive roots s h =
    let find : Digest → Result DagNode = look archive s.nodes.files in
    let has_blob : Digest → Bool = λ d. Map.has s.blobs.files d in
    let fuel : ℕ = length roots + stored_edges archive s.nodes.files in
    let (result, same) =
      walk_loop-plain archive s.nodes.files s.blobs fuel roots nothing s (h, refl, refl) in
    (
      subst (Right find has_blob roots) (sym result) (
          plain_loop-Right find has_blob roots fuel roots nothing (Sound-start find roots)
            (Collected-start find has_blob)),
      same,
    )
