-- ===== src/Store/RemoveTag/Counts.antt =====
-- runtime/pullrun-store/src/store.rs: reference counts against the edges of the stored nodes.
use pullrun.Base.{
  ℕ, ◌+◌, ◌-◌, ◌≤◌, ◌≡◌, refl, ap, ◌∙◌, inl, inr, true, some, List, [], ◌∷◌, ◌==◌, if◌then◌else◌,
  Bool-cases, length, some-inj, arith,
}
use pullrun.Base.Words.{Bytes}
use pullrun.Base.Text.{eq_bytes, eq_bytes_sound}
use pullrun.Base.Map
use pullrun.Base.Map.{Map, get-put, get-remove}
use pullrun.Store.Digest.{Digest, digest_eq, mem}
use pullrun.Store.Nodes.{MmapStore, Archive, get_refcount, set_refcount, decrement_refcount}
use pullrun.Store.Walk.{edges_of, stored_edges}
use pullrun.Store.RemoveTag.{decrement_children}

-- How often a digest stands in a list.
abbrev pub count : Digest → List Digest → ℕ
count d [] = 0
count d (e ∷ es) = (if eq_bytes e d then 1 else 0) + count d es

pub mem-count : (d : Digest) (es : List Digest) → mem d es ≡ true → 1 ≤ count d es
mem-count d [] h = cc
mem-count d (e ∷ es) h = ground (arith, mem-count d es)

module _ (archive : Archive) where
  -- How often the stored nodes refer to a digest.
  abbrev pub referrers : Digest → Map Digest Bytes → ℕ
  referrers d [] = 0
  referrers d ((k, bytes) ∷ files) = count d (edges_of (archive.check bytes)) + referrers d files

  referrers-remove_le :
      (files : Map Digest Bytes) (n d : Digest)
      → referrers d (Map.remove files n) ≤ referrers d files
  unfolding Map.remove
  referrers-remove_le [] n d = omega arith
  referrers-remove_le ((k, b) ∷ files) n d = ground (arith, referrers-remove_le files n d)

  pub referrers-remove :
      (files : Map Digest Bytes) (n d : Digest) (bytes : Bytes)
      → Map.get files n ≡ some bytes
      → referrers d (Map.remove files n) + count d (edges_of (archive.check bytes))
        ≤ referrers d files
  unfolding Map.remove Map.get
  referrers-remove [] n d bytes h = cc
  referrers-remove ((k, b) ∷ files) n d bytes h = elim (Bool-cases (eq_bytes k n)) [
    | inl y ↦ ground (arith, y, some-inj (rw y at h), referrers-remove_le files n d)
    | inr f ↦ ground (arith, f, referrers-remove files n d bytes (rw f at h))
  ]

  pub referrers-get :
      (files : Map Digest Bytes) (n d : Digest) (bytes : Bytes)
      → Map.get files n ≡ some bytes
      → count d (edges_of (archive.check bytes)) ≤ referrers d files
  referrers-get files n d bytes h = omega (arith, referrers-remove files n d bytes h)

  stored_edges-remove_le :
      (files : Map Digest Bytes) (n : Digest)
      → stored_edges archive (Map.remove files n) ≤ stored_edges archive files
  unfolding Map.remove
  stored_edges-remove_le [] n = omega arith
  stored_edges-remove_le ((k, b) ∷ files) n = ground (arith, stored_edges-remove_le files n)

  pub stored_edges-remove :
      (files : Map Digest Bytes) (n : Digest) (bytes : Bytes)
      → Map.get files n ≡ some bytes
      → stored_edges archive (Map.remove files n) + length (edges_of (archive.check bytes))
        ≤ stored_edges archive files
  unfolding Map.remove Map.get
  stored_edges-remove [] n bytes h = cc
  stored_edges-remove ((k, b) ∷ files) n bytes h = elim (Bool-cases (eq_bytes k n)) [
    | inl y ↦ ground (arith, y, some-inj (rw y at h), stored_edges-remove_le files n)
    | inr f ↦ ground (arith, f, stored_edges-remove files n bytes (rw f at h))
  ]

pub get-set_refcount :
    (d x : Digest) (n : ℕ) (s : MmapStore)
    → get_refcount x (set_refcount d n s) ≡ (if eq_bytes d x then n else get_refcount x s)
unfolding get_refcount set_refcount
get-set_refcount d x n s = elim (Bool-cases (n == 0)) [
  | inl z ↦ rw z (ground (arith, get-remove s.refcounts d x))
  | inr p ↦ rw p (ground (arith, get-put s.refcounts d n x))
]

pub get-decrement_refcount :
    (d x : Digest) (s : MmapStore)
    → get_refcount x (decrement_refcount d s).1 ≡ get_refcount x s - (if eq_bytes d x then 1 else 0)
unfolding decrement_refcount
get-decrement_refcount d x s = elim (Bool-cases (eq_bytes d x)) [
  | inl y ↦ ground (
    arith,
    get-set_refcount d x (get_refcount d s - 1) s,
    ap (λ k. get_refcount k s) (eq_bytes_sound d x y),
  )
  | inr n ↦ ground (arith, get-set_refcount d x (get_refcount d s - 1) s)
]

pub get-decrement_children :
    (x : Digest) (es : List Digest) (s : MmapStore)
    → get_refcount x (decrement_children es s).1 ≡ get_refcount x s - count x es
unfolding decrement_children
get-decrement_children x [] s = omega arith
get-decrement_children x (e ∷ es) s =
    let t : MmapStore = (decrement_refcount e s).1 in
    get-decrement_children x es t ∙ ground (arith, get-decrement_refcount e x s)

decremented : (e : Digest) (s : MmapStore) → (decrement_refcount e s).0 ≡ get_refcount e s - 1
unfolding decrement_refcount
decremented e s = refl

pub zeros-decrement_children :
    (x : Digest) (es : List Digest) (s : MmapStore)
    → mem x (decrement_children es s).0 ≡ true
    → get_refcount x (decrement_children es s).1 ≡ 0
unfolding decrement_children
zeros-decrement_children x [] s h = cc
zeros-decrement_children x (e ∷ es) s h = elim (Bool-cases ((decrement_refcount e s).0 == 0)) [
  | inr n ↦ zeros-decrement_children x es (decrement_refcount e s).1 (rw n at h)
  | inl z ↦ elim (Bool-cases (eq_bytes e x)) [
    | inr n ↦ zeros-decrement_children x es (decrement_refcount e s).1 (rw (z, n) at h)
    | inl y ↦
        get-decrement_children x es (decrement_refcount e s).1
        ∙ ground (
          arith,
          get-decrement_refcount e x s,
          decremented e s,
          ap (λ k. get_refcount k s) (eq_bytes_sound e x y),
        )
  ]
]

pub length-decrement_children :
    (es : List Digest) (s : MmapStore) → length (decrement_children es s).0 ≤ length es
unfolding decrement_children
length-decrement_children [] s = omega arith
length-decrement_children (e ∷ es) s =
    ground (arith, length-decrement_children es (decrement_refcount e s).1)

pub decrement_children-disk :
    (es : List Digest) (s : MmapStore)
    → ((decrement_children es s).1.nodes ≡ s.nodes) × ((decrement_children es s).1.blobs ≡ s.blobs)
unfolding decrement_children decrement_refcount set_refcount
decrement_children-disk [] s = (refl, refl)
decrement_children-disk (e ∷ es) s = decrement_children-disk es (decrement_refcount e s).1
