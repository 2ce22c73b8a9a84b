-- ===== src/Runtime/Images/Unused.antt =====
-- runtime/pullrun-runtime/src/service.rs: an image that a workload uses is not removed.
use pullrun.Base.{
  ℕ, zero, suc, ◌≡◌, ◌≢◌, refl, ap, ◌⊎◌, Bool, Option, none, some, [], ◌∷◌, Bool-cases, inl, inr,
  some-inj,
}
use pullrun.Base.Words.{Bytes}
use pullrun.Base.Text.{eq_bytes, eq_bytes_refl}
use pullrun.Base.Map
use pullrun.Base.Map.{Map, get-remove_self, get-remove_ne}
use pullrun.Store.Digest.{Digest, digest_eq, from_hex}
use pullrun.Store.Nodes.{Archive}
use pullrun.Runtime.State.{WorkloadState}
use pullrun.Runtime.Images.{
  Images, Removed, removed, find_user, remove_unused, remove_counted, remove_parsed, remove_image,
}

find_user-none :
    (root_digest : Bytes) (workloads : Map Bytes WorkloadState)
    → find_user root_digest workloads ≡ none
    → (id : Bytes) (s : WorkloadState) → Map.get workloads id ≡ some s
    → s.image_root ≢ root_digest
unfolding find_user Map.get
find_user-none root_digest [] h id s g = cc
find_user-none root_digest ((k, v) ∷ workloads) h id s g =
    elim (Bool-cases (eq_bytes v.image_root root_digest)) [
      | inl y ↦ cc (rw y at h)
      | inr n ↦ elim (Bool-cases (eq_bytes k id)) [
        | inl y ↦
            let is : v ≡ s = some-inj (rw y at g) in
            λ e. cc (
              n,
              ap (λ (x : WorkloadState). eq_bytes x.image_root root_digest) is,
              ap (λ x. eq_bytes x root_digest) e,
              eq_bytes_refl root_digest,
            )
        | inr m ↦ find_user-none root_digest workloads (rw n at h) id s (rw m at g)
      ]
    ]

-- What a request to remove an image does: it is refused, and nothing changes; or no workload is of the
-- image, its tag is gone, and the other tags and the workloads are as they were.
pub record Dropped (root_digest : Bytes) (i j : Images) : Type 0 where
  pub unused :
      (id : Bytes) (s : WorkloadState)
      → Map.get i.daemon.workloads id ≡ some s
      → s.image_root ≢ root_digest
  pub untagged : Map.get j.daemon.image_tags root_digest ≡ none
  pub others :
      (tag : Bytes)
      → root_digest ≢ tag
      → Map.get j.daemon.image_tags tag ≡ Map.get i.daemon.image_tags tag
  pub workloads : j.daemon.workloads ≡ i.daemon.workloads

abbrev pub Settled : Bytes → Images → Removed × Images → Type 0
Settled root_digest i r = ((r.1 ≡ i) × ((n : ℕ) → r.0 ≢ removed n)) ⊎ Dropped root_digest i r.1

module _ (archive : Archive) (writable : Bool) (root_digest : Bytes) (i : Images) where
  unused-Settled :
      (digest : Digest) (n : ℕ) (o : Option Bytes)
      → find_user root_digest i.daemon.workloads ≡ o
      → Settled root_digest i (remove_unused archive writable root_digest digest n o i)
  unused-Settled digest n (some id) h = inl (refl, λ k e. cc)
  unused-Settled digest n none h = inr (record {
    unused = find_user-none root_digest i.daemon.workloads h;
    untagged = get-remove_self i.daemon.image_tags root_digest;
    others = λ tag other. get-remove_ne i.daemon.image_tags root_digest tag other;
    workloads = refl;
  })

  counted-Settled :
      (digest : Digest) (n : ℕ)
      → Settled root_digest i (remove_counted archive writable root_digest digest n i)
  counted-Settled digest zero = inl (refl, λ k e. cc)
  counted-Settled digest (suc n) = unused-Settled digest (suc n) _ refl

  parsed-Settled :
      (o : Option Digest) → Settled root_digest i (remove_parsed archive writable root_digest o i)
  parsed-Settled none = inl (refl, λ k e. cc)
  parsed-Settled (some digest) = counted-Settled digest _

  -- A request to remove an image either is refused and changes nothing, or no workload, running or not,
  -- is of the image; then its tag is gone, and the other tags and the workloads are as they were.
  pub remove_image-Settled :
      (hex_decode : Bytes → Option Bytes)
      → Settled root_digest i (remove_image archive hex_decode writable root_digest i)
  unfolding remove_image
  remove_image-Settled hex_decode = parsed-Settled (from_hex hex_decode root_digest)
