-- ===== src/Store/Blobs/Transparent.antt =====
-- runtime/pullrun-store/src/store.rs: the blob cache does not show: a read gives what the disk holds.
use pullrun.Base.{
  ℕ, ◌≡◌, refl, sym, ap, ◌∙◌, inl, inr, Option, none, some, List, [], ◌∷◌, ◌++◌, ltb, Bool-cases,
  Option-cases, arith,
}
use pullrun.Base.Words.{Bytes}
use pullrun.Base.Map
use pullrun.Base.Map.{Map, get-put, get-put_self, get-put_cases, get-remove}
use pullrun.Store.Digest.{Digest, digest_eq}
use pullrun.Store.Blobs.{
  BlobStore, evict_entry, evict_loop, evict_to, evict_blob_lru, remove_first, cached,
  load_blob_from_disk, get_blob, put_blob,
}

-- What stays of a blob that was there, and of a new one.
abbrev pub or_else : Option Bytes → Bytes → Bytes
or_else none body = body
or_else (some old) body = old

-- What is cached is what the disk holds.
abbrev pub Coherent : BlobStore → Type 0
Coherent s = (d : Digest) (b : Bytes) → Map.get s.cache d ≡ some b → Map.get s.files d ≡ some b

entry-Coherent :
    (d : Digest) (o : Option Bytes) (s : BlobStore)
    → Coherent s
    → Coherent (evict_entry d o s) × ((evict_entry d o s).files ≡ s.files)
entry-Coherent d none s h = (h, refl)
entry-Coherent d (some x) s h = (λ e b g. h e b (kept e b g), refl)
  where
    kept :
        (e : Digest) (b : Bytes)
        → Map.get (Map.remove s.cache d) e ≡ some b
        → Map.get s.cache e ≡ some b
    kept e b g = ground (arith, get-remove s.cache d e)

loop-Coherent :
    (max : ℕ) (lru : List Digest) (s : BlobStore)
    → Coherent s
    → Coherent (evict_loop max lru s) × ((evict_loop max lru s).files ≡ s.files)
unfolding evict_loop
loop-Coherent max [] s h = (h, refl)
loop-Coherent max (d ∷ lru) s h = elim (Bool-cases (ltb max s.total)) [
  | inr n ↦ rw n (h, refl)
  | inl y ↦
      let (a, same) = entry-Coherent d (Map.get s.cache d) s h in
      let (b, rest) = loop-Coherent max lru (evict_entry d (Map.get s.cache d) s) a in
      rw y (b, rest ∙ same)
]

evict-Coherent :
    (max : Option ℕ) (lru : List Digest) (s : BlobStore)
    → Coherent s
    → Coherent (evict_to max lru s) × ((evict_to max lru s).files ≡ s.files)
evict-Coherent none lru s h = (h, refl)
evict-Coherent (some max) lru s h = elim (Bool-cases (ltb 0 max)) [
  | inl y ↦ rw y (loop-Coherent max lru s h)
  | inr n ↦ rw n (h, refl)
]

-- On a store whose cache agrees with its disk, a read gives exactly what the disk holds, whatever is
-- cached and evicted; the disk is not changed, and the cache agrees with it afterwards.
pub get_blob-Coherent :
    (d : Digest) (s : BlobStore)
    → Coherent s
    → ((get_blob d s).0 ≡ Map.get s.files d)
      × ((get_blob d s).1.files ≡ s.files)
      × Coherent (get_blob d s).1
unfolding get_blob load_blob_from_disk evict_blob_lru
get_blob-Coherent d s h = elim (Option-cases (Map.get s.cache d)) [
  | inr (b, c) ↦
      let (k, same) = evict-Coherent s.max (remove_first d s.lru ++ d ∷ []) s h in
      rw c (sym (h d b c), same, k)
  | inl n ↦ elim (Option-cases (Map.get s.files d)) [
    | inl m ↦ rw (n, m) (refl, refl, h)
    | inr (b, f) ↦
        let (k, same) = evict-Coherent s.max s.lru s h in rw (n, f) (refl, same, loaded b f k same)
  ]
]
  where
    loaded :
        (b : Bytes)
        → Map.get s.files d ≡ some b
        → Coherent (evict_to s.max s.lru s)
        → (evict_to s.max s.lru s).files ≡ s.files
        → Coherent (cached d b (evict_to s.max s.lru s))
    loaded b f k same e x g = elim (get-put_cases (evict_to s.max s.lru s).cache d b e x g) [
      | inl (de, bx) ↦
          ap (λ (m : Map Digest Bytes). Map.get m e) same
          ∙ (ap (λ (y : Digest). Map.get s.files y) (sym de) ∙ (f ∙ ap some bx))
      | inr (ne, old) ↦ k e x old
    ]

put-Coherent :
    (d : Digest) (body : Bytes) (s : BlobStore) → Coherent s → Coherent (put_blob d body s)
unfolding put_blob
put-Coherent d body s h = elim (Option-cases (Map.get s.files d)) [
  | inr (old, f) ↦ rw f h
  | inl f ↦ rw f (written f)
]
  where
    written : Map.get s.files d ≡ none → Coherent (record s { files = Map.put s.files d body })
    written f e b c = elim (Bool-cases (digest_eq.beq d e)) [
      | inl y ↦ cc (f, h e b c, ap (Map.get s.files) ((digest_eq.beq_iff d e).0 y))
      | inr n ↦ ground (arith, get-put s.files d body e, h e b c)
    ]

-- On a store whose cache agrees with its disk, a read after a put gives the blob that was there
-- before, where there was one, and the new one otherwise.
pub get-put_blob :
    (d : Digest) (body : Bytes) (s : BlobStore) (was : Option Bytes)
    → Coherent s
    → Map.get s.files d ≡ was
    → (get_blob d (put_blob d body s)).0 ≡ some (or_else was body)
get-put_blob d body s was h f =
    (get_blob-Coherent d (put_blob d body s) (put-Coherent d body s h)).0 ∙ on_disk was f
  where
    on_disk :
        (o : Option Bytes)
        → Map.get s.files d ≡ o
        → Map.get (put_blob d body s).files d ≡ some (or_else o body)
    on_disk none g = unfold put_blob in (rw g (get-put_self s.files d body))
    on_disk (some old) g = unfold put_blob in (rw g g)
