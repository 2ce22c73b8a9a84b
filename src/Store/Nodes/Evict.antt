-- ===== src/Store/Nodes/Evict.antt =====
-- runtime/pullrun-store/src/store.rs: a node that is evicted and deleted.
use pullrun.Base.{
  ◌≡◌, refl, sym, ap, ◌∙◌, inl, inr, Option, none, some, Bool-cases, if◌then◌else◌, arith,
}
use pullrun.Base.Words.{Bytes}
use pullrun.Base.Text.{eq_bytes, eq_bytes_sound}
use pullrun.Base.Map
use pullrun.Base.Map.{get-remove}
use pullrun.Store.Digest.{Digest, digest_eq}
use pullrun.Store.Blobs.{BlobStore}
use pullrun.Store.Blobs.Transparent.{Coherent}
use pullrun.Store.Nodes.{evicted}

pub evicted-files :
    (d : Digest) (o : Option Bytes) (s : BlobStore) → (evicted d o s).files ≡ s.files
evicted-files d none s = refl
evicted-files d (some b) s = refl

evicted-cache :
    (d x : Digest) (o : Option Bytes) (s : BlobStore)
    → Map.get s.cache d ≡ o
    → Map.get (evicted d o s).cache x ≡ (if eq_bytes d x then none else Map.get s.cache x)
evicted-cache d x none s h =
    ground (arith, eq_bytes_sound d x, ap (Map.get s.cache) {x = d} {y = x})
evicted-cache d x (some b) s h = get-remove s.cache d x

pub evicted-Coherent :
    (d : Digest) (s : BlobStore)
    → Coherent s
    → (x : Digest) (b : Bytes) → Map.get (evicted d (Map.get s.cache d) s).cache x ≡ some b
    → Map.get (Map.remove s.files d) x ≡ some b
evicted-Coherent d s h x b g =
    let c : (if eq_bytes d x then none else Map.get s.cache x) ≡ some b =
      sym (evicted-cache d x (Map.get s.cache d) s refl) ∙ g in
    elim (Bool-cases (eq_bytes d x)) [
      | inl y ↦ cc (rw y at c)
      | inr n ↦ ground (arith, n, get-remove s.files d x, h x b (rw n at c))
    ]
