-- ===== src/Policy/Sound.antt =====
-- runtime/pullrun-policy/src/lib.rs: what an accepted signature proves.
use mathlib.Core.List.{Mem, mem-cons_self, mem-cons_of_mem}
use pullrun.Base.{
  ◌≡◌, refl, inl, inr, Bool, true, false, none, some, List, [], ◌∷◌, ◌==◌, ==_iff, Bool-cases,
  Option-cases, length, arith,
}
use pullrun.Base.Words.{Bytes}
use pullrun.Base.Text.{eq_bytes, eq_bytes_sound, split_on}
use pullrun.Policy.Signature.{
  Services, SignatureBlob, CosignKey, CosignError, Result, ok, err, Lookup, found, not_found,
  failed, valid, payload_version, newline, next_line, later_lines, verdict, verify_cosign_signature,
  signature_digest_for, after_verdict, try_keys, check_lines, check_archive, check_lookup,
  check_signature,
}

-- What a payload's lines say.
pub record Names (image_ref manifest_digest payload : Bytes) : Type 0 where
  pub version : next_line (split_on newline payload) ≡ payload_version
  pub ref : next_line (later_lines (split_on newline payload)) ≡ image_ref
  pub digest : next_line (later_lines (later_lines (split_on newline payload))) ≡ manifest_digest

module _ {Key Score : Type 0} (services : Services Key Score) where
  -- A trusted key whose id the blob names, and whose signature of the payload verifies.
  pub record Verified (keys : List (CosignKey Key)) (blob : SignatureBlob) : Type 0 where
    pub by : CosignKey Key
    pub trusted : Mem by keys
    pub named : by.id ≡ blob.key_id
    pub size : length blob.signature ≡ 64
    pub verifies : services.verify by.verifying_key blob.payload blob.signature ≡ none

  ok-true :
      (k : CosignKey Key) (payload signature : Bytes)
      → verify_cosign_signature services k payload signature ≡ ok true
      → (length signature ≡ 64) × (services.verify k.verifying_key payload signature ≡ none)
  unfolding verify_cosign_signature verdict
  ok-true k payload signature e = elim (Bool-cases (length signature == 64)) [
    | inr n ↦ cc (rw n at e)
    | inl l ↦ elim (Option-cases (services.verify k.verifying_key payload signature)) [
      | inl v ↦ ((==_iff (length signature) 64).0 l, v)
      | inr (msg, v) ↦ ground (arith, rw (l, v) at e)
    ]
  ]

  try_keys-Verified :
      (keys : List (CosignKey Key)) (blob : SignatureBlob)
      → try_keys services keys blob ≡ valid
      → Verified keys blob
  unfolding try_keys
  try_keys-Verified [] blob e = cc
  try_keys-Verified (k ∷ keys) blob e = elim (Bool-cases (eq_bytes k.id blob.key_id)) [
    | inr n ↦ later (try_keys-Verified keys blob (rw n at e))
    | inl same ↦
        decide (verify_cosign_signature services k blob.payload blob.signature) refl (rw same at e)
          (eq_bytes_sound k.id blob.key_id same) (try_keys-Verified keys blob)
  ]
    where
      later : Verified keys blob → Verified (k ∷ keys) blob
      later v = record {
        by = v.by;
        trusted = mem-cons_of_mem k v.trusted;
        named = v.named;
        size = v.size;
        verifies = v.verifies;
      }

      decide :
          (r : Result CosignError Bool)
          → verify_cosign_signature services k blob.payload blob.signature ≡ r
          → after_verdict services r (try_keys services keys blob) ≡ valid
          → k.id ≡ blob.key_id
          → (try_keys services keys blob ≡ valid → Verified keys blob)
          → Verified (k ∷ keys) blob
      decide (ok true) v h same rest =
          let (l, n) = ok-true k blob.payload blob.signature v in
          record { by = k; trusted = mem-cons_self; named = same; size = l; verifies = n }
      decide (ok false) v h same rest = later (rest h)
      decide (err x) v h same rest = cc

  lines-Names :
      (keys : List (CosignKey Key)) (image_ref manifest_digest : Bytes) (blob : SignatureBlob)
      → check_lines services keys image_ref manifest_digest blob (split_on newline blob.payload)
        ≡ valid
      → Names image_ref manifest_digest blob.payload × Verified keys blob
  unfolding check_lines
  lines-Names keys image_ref manifest_digest blob e =
      let lines = split_on newline blob.payload in
      elim (Bool-cases (eq_bytes (next_line lines) payload_version)) [
        | inr n ↦ cc (rw n at e)
        | inl v ↦ elim (Bool-cases (eq_bytes (next_line (later_lines lines)) image_ref)) [
          | inr n ↦ cc (rw (v, n) at e)
          | inl r ↦
              elim (Bool-cases
                (eq_bytes (next_line (later_lines (later_lines lines))) manifest_digest)) [
                  | inr n ↦ cc (rw (v, r, n) at e)
                  | inl d ↦ (
                    record {
                      version = eq_bytes_sound _ _ v;
                      ref = eq_bytes_sound _ _ r;
                      digest = eq_bytes_sound _ _ d;
                    },
                    try_keys-Verified keys blob (rw (v, r, d) at e),
                  )
                ]
        ]
      ]

  ok-inj : {E A : Type 0} {a b : A} → ◌≡◌ {A = Result E A} (ok a) (ok b) → a ≡ b
  ok-inj h = cc

  -- The blob behind an accepted signature.
  pub record Accepted (keys : List (CosignKey Key)) (image_ref manifest_digest : Bytes)
      : Type 0 where
    pub bytes : Bytes
    pub blob : SignatureBlob
    pub stored : services.get_blob (signature_digest_for services image_ref) ≡ found bytes
    pub archived : services.read_signature bytes ≡ some blob
    pub names : Names image_ref manifest_digest blob.payload
    pub signed : Verified keys blob

  -- An accepted signature is a blob of the store, under the digest of the reference, whose payload
  -- names this reference and this digest, and which a trusted key with the named id signed.
  pub check_signature-Accepted :
      (keys : List (CosignKey Key)) (image_ref manifest_digest : Bytes)
      → check_signature services keys image_ref manifest_digest ≡ ok valid
      → Accepted keys image_ref manifest_digest
  unfolding check_signature check_lookup check_archive
  check_signature-Accepted keys image_ref manifest_digest e =
      look (services.get_blob (signature_digest_for services image_ref)) refl e
    where
      look :
          (l : Lookup)
          → services.get_blob (signature_digest_for services image_ref) ≡ l
          → check_lookup services keys image_ref manifest_digest l ≡ ok valid
          → Accepted keys image_ref manifest_digest
      look (found bytes) g h = elim (Option-cases (services.read_signature bytes)) [
        | inl n ↦ cc (rw n at h)
        | inr (blob, r) ↦
            let (names, proof) =
              lines-Names keys image_ref manifest_digest blob (ok-inj (rw r at h)) in
            record {
              bytes = bytes;
              blob = blob;
              stored = g;
              archived = r;
              names = names;
              signed = proof;
            }
      ]
      look not_found g h = cc
      look failed g h = cc
