-- ===== src/Policy/Signature.antt =====
-- runtime/pullrun-policy/src/cosign.rs and `check_signature` of src/lib.rs. Strings are their bytes,
-- and reasons are data in place of formatted text. The record of `Services` holds what is not in
-- this crate: hashing, Ed25519, the checked archives of `rkyv`, the order of f32, and the blobs of
-- the store.
use pullrun.Base.{
  ℕ, Bool, true, false, not, ◌||◌, Option, none, some, List, [], ◌∷◌, ◌++◌, ◌==◌, if◌then◌else◌,
  length,
}
use pullrun.Base.Words.{Bytes}
use pullrun.Base.Text.{eq_bytes, split_on, contains_text}

pub record SignatureBlob : Type 0 where
  pub key_id : Bytes
  pub payload : Bytes
  pub signature : Bytes

pub record CosignKey (Key : Type 0) : Type 0 where
  pub id : Bytes
  pub verifying_key : Key

pub data CosignError : Type 0 where
  base64 key verify : Bytes → CosignError
  bad_length : ℕ → CosignError

pub data Result (E A : Type 0) : Type 0 where
  ok : A → Result E A
  err : E → Result E A

pub record SbomComponent : Type 0 where
  pub name : Bytes
  pub version : Bytes
  pub licenses : List Bytes

pub record Vulnerability (Score : Type 0) : Type 0 where
  pub id : Bytes
  pub component : Bytes
  pub cvss : Score

pub record SbomBlob (Score : Type 0) : Type 0 where
  pub format : Bytes
  pub components : List SbomComponent
  pub vulnerabilities : List (Vulnerability Score)

-- What `get_blob` gives: the bytes, `NotFound`, or another error of the store.
pub data Lookup : Type 0 where
  found : Bytes → Lookup
  not_found failed : Lookup

-- `verify` gives `none` for `Ok(())`, and the text of the error otherwise.
pub record Services (Key Score : Type 0) : Type 0 where
  pub sha256 : Bytes → Bytes
  pub verify : Key → Bytes → Bytes → Option Bytes
  pub read_signature : Bytes → Option SignatureBlob
  pub read_sbom : Bytes → Option (SbomBlob Score)
  pub get_blob : Bytes → Lookup
  pub gt : Score → Score → Bool
  pub ge : Score → Score → Bool

pub data InvalidReason : Type 0 where
  unknown_format other_digest no_key : InvalidReason
  other_ref : Bytes → InvalidReason
  cosign : CosignError → InvalidReason

pub data SignatureCheck : Type 0 where
  valid missing : SignatureCheck
  invalid : InvalidReason → SignatureCheck

pub data PolicyError : Type 0 where
  store invalid_signature sbom_missing : PolicyError

-- "pullrun-image-v1"
abbrev pub payload_version : Bytes
payload_version =
    b'p' ∷ b'u' ∷ b'l' ∷ b'l' ∷ b'r' ∷ b'u' ∷ b'n' ∷ b'-' ∷ b'i' ∷ b'm' ∷ b'a' ∷ b'g' ∷ b'e' ∷ b'-'
    ∷ b'v' ∷ b'1' ∷ []

abbrev pub newline : ℕ
newline = 10

unfoldable pub canonical_payload : Bytes → Bytes → Bytes
canonical_payload image_ref manifest_digest =
    payload_version ++ newline ∷ (image_ref ++ newline ∷ (manifest_digest ++ newline ∷ []))

-- `lines.next().unwrap_or("")` and what is left.
abbrev pub next_line : List Bytes → Bytes
next_line [] = []
next_line (l ∷ ls) = l

abbrev pub later_lines : List Bytes → List Bytes
later_lines [] = []
later_lines (l ∷ ls) = ls

module _ {Key Score : Type 0} (services : Services Key Score) where
  -- The text of the error decides between a signature that does not match and a failure.
  unfoldable pub verdict : Option Bytes → Result CosignError Bool
  verdict none = ok true
  verdict (some msg) =
      if contains_text (b's' ∷ b'i' ∷ b'g' ∷ b'n' ∷ b'a' ∷ b't' ∷ b'u' ∷ b'r' ∷ b'e' ∷ []) msg
        || (contains_text (b'v' ∷ b'e' ∷ b'r' ∷ b'i' ∷ b'f' ∷ b'y' ∷ []) msg
            || contains_text (b'I' ∷ b'n' ∷ b'v' ∷ b'a' ∷ b'l' ∷ b'i' ∷ b'd' ∷ []) msg)
      then ok false
      else err (CosignError.verify msg)

  unfoldable pub verify_cosign_signature : CosignKey Key → Bytes → Bytes → Result CosignError Bool
  verify_cosign_signature k payload signature =
      if length signature == 64
      then verdict (services.verify k.verifying_key payload signature)
      else err (bad_length (length signature))

  unfoldable pub signature_digest_for : Bytes → Bytes
  signature_digest_for image_ref = services.sha256 (
      (b'p' ∷ b'u' ∷ b'l' ∷ b'l' ∷ b'r' ∷ b'u' ∷ b'n' ∷ b'.' ∷ b'c' ∷ b'o' ∷ b's' ∷ b'i' ∷ b'g'
        ∷ b'n' ∷ b'.' ∷ b's' ∷ b'i' ∷ b'g' ∷ b'.' ∷ b'v' ∷ b'1' ∷ 10 ∷ [])
      ++ (image_ref ++ newline ∷ []))

  -- One round of the loop over the keys, with the result of the later rounds.
  abbrev pub after_verdict : Result CosignError Bool → SignatureCheck → SignatureCheck
  after_verdict (ok true) rest = valid
  after_verdict (ok false) rest = rest
  after_verdict (err e) rest = invalid (cosign e)

  unfoldable pub try_keys : List (CosignKey Key) → SignatureBlob → SignatureCheck
  try_keys [] blob = invalid no_key
  try_keys (k ∷ keys) blob =
      let rest = try_keys keys blob in
      if eq_bytes k.id blob.key_id
      then after_verdict (verify_cosign_signature k blob.payload blob.signature) rest
      else rest

  unfoldable pub check_lines :
      List (CosignKey Key) → Bytes → Bytes → SignatureBlob → List Bytes → SignatureCheck
  check_lines keys image_ref manifest_digest blob lines =
      if not (eq_bytes (next_line lines) payload_version)
      then invalid unknown_format
      else if not (eq_bytes (next_line (later_lines lines)) image_ref)
      then invalid (other_ref (next_line (later_lines lines)))
      else if not (eq_bytes (next_line (later_lines (later_lines lines))) manifest_digest)
      then invalid other_digest
      else try_keys keys blob

  unfoldable pub check_archive :
      List (CosignKey Key)
      → Bytes
      → Bytes
      → Option SignatureBlob
      → Result PolicyError SignatureCheck
  check_archive keys image_ref manifest_digest none = err invalid_signature
  check_archive keys image_ref manifest_digest (some blob) =
      ok (check_lines keys image_ref manifest_digest blob (split_on newline blob.payload))

  unfoldable pub check_lookup :
      List (CosignKey Key) → Bytes → Bytes → Lookup → Result PolicyError SignatureCheck
  check_lookup keys image_ref manifest_digest (found bytes) =
      check_archive keys image_ref manifest_digest (services.read_signature bytes)
  check_lookup keys image_ref manifest_digest not_found = ok missing
  check_lookup keys image_ref manifest_digest failed = err store

  unfoldable pub check_signature :
      List (CosignKey Key) → Bytes → Bytes → Result PolicyError SignatureCheck
  check_signature keys image_ref manifest_digest =
      check_lookup keys image_ref manifest_digest
        (services.get_blob (signature_digest_for image_ref))
