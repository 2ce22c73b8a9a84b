-- ===== src/Store/Tests.antt =====
-- runtime/pullrun-store/src/store.rs: a store of two blobs whose cache has room for one.
use pullrun.Base.{◌≡◌, ◌≢◌, refl, List, map, none, some, [], ◌∷◌, Bool-cases, inl, inr}
use pullrun.Base.Map
use pullrun.Base.Map.{Map, get-put}
use pullrun.Base.Text.{eq_bytes}
use pullrun.Store.Digest.{Digest, digest_eq}
use pullrun.Base.Words.{Bytes}
use pullrun.Store.OpLock
use pullrun.Store.OpLock.{LockFile, Ops, read_op_lock}
use pullrun.Store.OpLock.Lines.{append_all, read-append}
use pullrun.Store.Dag.{tree, new}
use pullrun.Store.Nodes.{MmapStore, Archive}
use pullrun.Store.Walk.{out_of_fuel, walk_reachable}
use pullrun.Store.Walk.Plain.{look, Same}
use pullrun.Store.Walk.Rounds.{walk_reachable-terminates}
use pullrun.Store.Walk.Exact.{Right, walk_reachable-Right}
use pullrun.Store.Blobs.{BlobStore, get_blob}
use pullrun.Store.Blobs.Transparent.{Coherent, get_blob-Coherent}

abbrev store : BlobStore
store = record {
  files = (1 ∷ [], 10 ∷ 11 ∷ []) ∷ (2 ∷ [], 20 ∷ []) ∷ [];
  cache = (1 ∷ [], 10 ∷ 11 ∷ []) ∷ [];
  lru = (1 ∷ []) ∷ [];
  total = 2;
  max = some 1;
}

store-Coherent : Coherent store
unfolding Map.get
store-Coherent d b e = elim (Bool-cases (eq_bytes (1 ∷ []) d)) [
  | inl y ↦ rw y (rw y at e)
  | inr n ↦ cc (rw n at e)
]

get_blob-Coherent_example :
    ((get_blob (2 ∷ []) store).0 ≡ Map.get store.files (2 ∷ []))
    × ((get_blob (2 ∷ []) store).1.files ≡ store.files)
    × Coherent (get_blob (2 ∷ []) store).1
get_blob-Coherent_example = get_blob-Coherent (2 ∷ []) store store-Coherent

third-free : Map.get store.files (3 ∷ []) ≡ none
unfolding Map.get eq_bytes
third-free = refl

-- A node is written as the first bytes of its edges; two nodes that refer to each other.
abbrev archive : Archive
archive = record {
  to_bytes = λ node. some [];
  check = λ bytes. some (new tree (map (λ b. b ∷ []) bytes) []);
  sha256 = λ bytes. bytes;
}

abbrev cycle : MmapStore
cycle = record {
  nodes = record {
    files = (1 ∷ [], 2 ∷ []) ∷ (2 ∷ [], 1 ∷ []) ∷ [];
    cache = (1 ∷ [], 2 ∷ []) ∷ [];
    lru = (1 ∷ []) ∷ [];
    total = 1;
    max = none;
  };
  blobs = store;
  refcounts = [];
}

cycle-Coherent : Coherent cycle.nodes
unfolding Map.get
cycle-Coherent d b e = elim (Bool-cases (eq_bytes (1 ∷ []) d)) [
  | inl y ↦ rw y (rw y at e)
  | inr n ↦ cc (rw n at e)
]

abbrev both : List Digest
both = (1 ∷ []) ∷ (2 ∷ []) ∷ []

walk_reachable-terminates_example : (walk_reachable archive both cycle).0 ≢ out_of_fuel
walk_reachable-terminates_example = walk_reachable-terminates archive both cycle cycle-Coherent

walk_reachable-Right_example :
    Right
      (look archive cycle.nodes.files)
      (λ d. Map.has cycle.blobs.files d)
      both
      (walk_reachable archive both cycle).0
    × Same cycle (walk_reachable archive both cycle).1
walk_reachable-Right_example = walk_reachable-Right archive both cycle cycle-Coherent

abbrev names : List Bytes
names = (97 ∷ 98 ∷ []) ∷ (99 ∷ []) ∷ []

read-append_example :
    (next : Ops) × (file : LockFile) × (append_all (1 ∷ []) 7 names (OpLock.new (1 ∷ []) 7 [])
      ≡ some next)
    × (Map.get next (1 ∷ []) ≡ some file)
    × (read_op_lock file ≡ names)
read-append_example = read-append (1 ∷ []) 7 names [] ((refl, (refl, tt)), ((refl, tt), tt))

-- A node with one child, both counted.
abbrev tagged : MmapStore
tagged = record {
  nodes = record {
    files = (1 ∷ [], 2 ∷ []) ∷ (2 ∷ [], []) ∷ [];
    cache = [];
    lru = [];
    total = 0;
    max = none;
  };
  blobs = store;
  refcounts = (1 ∷ [], 1) ∷ (2 ∷ [], 1) ∷ [];
}
