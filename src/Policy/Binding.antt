-- ===== src/Policy/Binding.antt =====
-- runtime/pullrun-policy/src/lib.rs: a signature counts for the image that its payload names.
use pullrun.Base.{
  ◌≡◌, ◌≢◌, refl, sym, ap, ◌∙◌, inl, inr, true, none, some, List, [], ◌∷◌, ◌++◌, Bool-cases,
  some-inj, length, All, arith,
}
use pullrun.Base.Words.{Bytes}
use pullrun.Base.Text.{eq_bytes, eq_bytes_sound, eq_bytes_refl, split_on, split_on-append}
use pullrun.Policy.Signature.{
  Services, SignatureBlob, CosignKey, ok, found, valid, payload_version, newline, canonical_payload,
  verdict, verify_cosign_signature, signature_digest_for, try_keys, check_lines, check_archive,
  check_lookup, check_signature,
}
use pullrun.Policy.Sound.{check_signature-Accepted}

version_lem : All (λ c. c ≢ newline) payload_version
version_lem = (
  omega arith,
  (
    omega arith,
    (
      omega arith,
      (
        omega arith,
        (
          omega arith,
          (
            omega arith,
            (
              omega arith,
              (
                omega arith,
                (
                  omega arith,
                  (
                    omega arith,
                    (
                      omega arith,
                      (omega arith, (omega arith, (omega arith, (omega arith, (omega arith, tt))))),
                    ),
                  ),
                ),
              ),
            ),
          ),
        ),
      ),
    ),
  ),
)

module _ {Key Score : Type 0} (services : Services Key Score) where
  found-inj : {s t : Bytes} → found s ≡ found t → s ≡ t
  found-inj h = cc

  canonical-lines :
      (image_ref manifest_digest : Bytes)
      → All (λ c. c ≢ newline) image_ref
      → All (λ c. c ≢ newline) manifest_digest
      → split_on newline (canonical_payload image_ref manifest_digest)
        ≡ payload_version ∷ image_ref ∷ manifest_digest ∷ [] ∷ []
  unfolding canonical_payload
  canonical-lines image_ref manifest_digest u v =
      rw
        (
          split_on-append newline payload_version
              (image_ref ++ newline ∷ (manifest_digest ++ newline ∷ [])) version_lem,
          split_on-append newline image_ref (manifest_digest ++ newline ∷ []) u,
          split_on-append newline manifest_digest [] v,
        )
        (unfold split_on in refl)

  try_keys-reaches :
      (before later : List (CosignKey Key)) (k : CosignKey Key) (blob : SignatureBlob)
      → All (λ (j : CosignKey Key). j.id ≢ blob.key_id) before
      → k.id ≡ blob.key_id
      → length blob.signature ≡ 64
      → services.verify k.verifying_key blob.payload blob.signature ≡ none
      → try_keys services (before ++ k ∷ later) blob ≡ valid
  unfolding try_keys verify_cosign_signature verdict
  try_keys-reaches [] later k blob others named size w =
      let here : eq_bytes k.id blob.key_id ≡ true = rw named (eq_bytes_refl blob.key_id) in
      rw (here, size, w)
  try_keys-reaches (j ∷ before) later k blob others named size w =
      elim (Bool-cases (eq_bytes j.id blob.key_id)) [
        | inl y ↦ absurd (others.0 (eq_bytes_sound j.id blob.key_id y))
        | inr n ↦ rw n (try_keys-reaches before later k blob others.1 named size w)
      ]

  -- A payload that was signed for another image is not accepted: where the stored blob holds the
  -- canonical payload of a reference and a digest without line breaks, only these are accepted.
  pub check_signature-no_swap :
      (keys : List (CosignKey Key))
      (image_ref manifest_digest signed_ref signed_digest bytes : Bytes) (blob : SignatureBlob)
      → services.get_blob (signature_digest_for services image_ref) ≡ found bytes
      → services.read_signature bytes ≡ some blob
      → blob.payload ≡ canonical_payload signed_ref signed_digest
      → All (λ c. c ≢ newline) signed_ref
      → All (λ c. c ≢ newline) signed_digest
      → check_signature services keys image_ref manifest_digest ≡ ok valid
      → (signed_ref ≡ image_ref) × (signed_digest ≡ manifest_digest)
  check_signature-no_swap keys image_ref manifest_digest signed_ref signed_digest bytes blob g r p u
        v e =
      let a = check_signature-Accepted services keys image_ref manifest_digest e in
      let same_bytes : bytes ≡ a.bytes = found-inj (sym g ∙ a.stored) in
      let same : a.blob ≡ blob =
        some-inj (sym a.archived ∙ ap services.read_signature (sym same_bytes) ∙ r) in
      let payload : a.blob.payload ≡ canonical_payload signed_ref signed_digest =
        ap (λ (b : SignatureBlob). b.payload) same ∙ p in
      let lines = ap (split_on newline) payload ∙ canonical-lines signed_ref signed_digest u v in
      (rw lines at a.names.ref, rw lines at a.names.digest)

  -- The canonical payload in the store, signed by a trusted key that comes before any other with its
  -- id, is accepted.
  pub check_signature-accepts :
      (before later : List (CosignKey Key)) (k : CosignKey Key)
      (image_ref manifest_digest bytes : Bytes) (blob : SignatureBlob)
      → services.get_blob (signature_digest_for services image_ref) ≡ found bytes
      → services.read_signature bytes ≡ some blob
      → blob.payload ≡ canonical_payload image_ref manifest_digest
      → All (λ c. c ≢ newline) image_ref
      → All (λ c. c ≢ newline) manifest_digest
      → All (λ (j : CosignKey Key). j.id ≢ blob.key_id) before
      → k.id ≡ blob.key_id
      → length blob.signature ≡ 64
      → services.verify k.verifying_key blob.payload blob.signature ≡ none
      → check_signature services (before ++ k ∷ later) image_ref manifest_digest ≡ ok valid
  unfolding check_signature check_lookup check_archive check_lines
  check_signature-accepts before later k image_ref manifest_digest bytes blob g r p u v others named
        size w =
      let lines = ap (split_on newline) p ∙ canonical-lines image_ref manifest_digest u v in
      rw (
        g,
        r,
        lines,
        eq_bytes_refl payload_version,
        eq_bytes_refl image_ref,
        eq_bytes_refl manifest_digest,
        try_keys-reaches before later k blob others named size w,
      )
