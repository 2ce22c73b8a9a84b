-- ===== src/Policy/Engine.antt =====
-- runtime/pullrun-policy/src/lib.rs: `Policy`, `PolicyEngine`, and its decision for an image.
use pullrun.Base.{
  ℕ, ◌+◌, Bool, true, false, not, ◌&&◌, ◌||◌, Option, none, some, List, [], ◌∷◌, ◌++◌, leb,
  if◌then◌else◌,
}
use pullrun.Base.Words.{Bytes}
use pullrun.Base.Text.{eq_bytes, starts_with}
use pullrun.Base.Map.{Map}
use pullrun.Policy.Signature.{
  Services, CosignKey, Result, ok, err, PolicyError, SignatureCheck, valid, missing, invalid,
  InvalidReason, check_signature,
}
use pullrun.Policy.Sbom.{SbomReport, found_data, max_cvss, evaluate_sbom}

pub record Policy (Score : Type 0) : Type 0 where
  pub required_signature : Bool
  pub readonly_rootfs : Bool
  pub no_new_privileges : Bool
  pub seccomp_profile : Option Bytes
  pub allowed_syscalls : List Bytes
  pub labels : Map Bytes Bytes
  pub max_cvss_score : Option Score
  pub trusted_signers : List Bytes
  pub deny_licenses : List Bytes
  pub require_sbom : Bool

pub data DenyReason (Score : Type 0) : Type 0 where
  not_signed no_sbom no_trusted_keys : DenyReason Score
  bad_signature : InvalidReason → DenyReason Score
  vulnerable : Score → Score → DenyReason Score
  banned_license unknown_profile : Bytes → DenyReason Score

pub data PolicyDecision (Score : Type 0) : Type 0 where
  allow : PolicyDecision Score
  deny : DenyReason Score → PolicyDecision Score

pub record PolicyEngine (Key Score : Type 0) : Type 0 where
  pub default_policy : Policy Score
  pub trusted_keys : List (CosignKey Key)

unfoldable pub new : {Key Score : Type 0} → Policy Score → PolicyEngine Key Score
new default_policy = record { default_policy = default_policy; trusted_keys = [] }

unfoldable pub with_trusted_keys :
    {Key Score : Type 0} → PolicyEngine Key Score → List (CosignKey Key) → PolicyEngine Key Score
with_trusted_keys engine keys = record engine { trusted_keys = keys }

unfoldable pub add_trusted_key :
    {Key Score : Type 0} → PolicyEngine Key Score → CosignKey Key → PolicyEngine Key Score
add_trusted_key engine key = record engine { trusted_keys = engine.trusted_keys ++ key ∷ [] }

-- `b.to_ascii_lowercase()`
abbrev pub lower : ℕ → ℕ
lower b = if leb 65 b && leb b 90 then b + 32 else b

unfoldable pub lowercase : Bytes → Bytes
lowercase [] = []
lowercase (b ∷ s) = lower b ∷ lowercase s

unfoldable pub eq_ignore_ascii_case : Bytes → Bytes → Bool
eq_ignore_ascii_case s t = eq_bytes (lowercase s) (lowercase t)

-- `report.licenses.iter().any(|l| l.eq_ignore_ascii_case(banned))`
unfoldable pub has_license : Bytes → List Bytes → Bool
has_license banned [] = false
has_license banned (l ∷ ls) = eq_ignore_ascii_case l banned || has_license banned ls

unfoldable pub known_profile : Bytes → Bool
known_profile profile =
    eq_bytes profile (b'd' ∷ b'e' ∷ b'f' ∷ b'a' ∷ b'u' ∷ b'l' ∷ b't' ∷ [])
    || (eq_bytes profile (b'u' ∷ b'n' ∷ b'c' ∷ b'o' ∷ b'n' ∷ b'f' ∷ b'i' ∷ b'n' ∷ b'e' ∷ b'd' ∷ [])
        || starts_with (b'p' ∷ b'u' ∷ b'l' ∷ b'l' ∷ b'r' ∷ b'u' ∷ b'n' ∷ b':' ∷ []) profile)

module _ {Key Score : Type 0} (services : Services Key Score) where
  -- A stage of the evaluation; `allow` is where the code goes on.
  abbrev pub Stage : Type 0
  Stage = Result PolicyError (PolicyDecision Score)

  infixr 5 ◌then◌
  abbrev pub ◌then◌ : Stage → Stage → Stage
  ok allow then next = next
  ok (deny r) then next = ok (deny r)
  err e then next = err e

  abbrev pub of_check : Result PolicyError SignatureCheck → Stage
  of_check (ok valid) = ok allow
  of_check (ok missing) = ok (deny not_signed)
  of_check (ok (invalid reason)) = ok (deny (bad_signature reason))
  of_check (err e) = err e

  unfoldable pub signature_stage : List (CosignKey Key) → Policy Score → Bytes → Bytes → Stage
  signature_stage keys policy image_ref manifest_digest =
      if policy.required_signature
      then of_check (check_signature services keys image_ref manifest_digest)
      else ok allow

  unfoldable pub cvss_stage : Option Score → Option Score → Stage
  cvss_stage none highest = ok allow
  cvss_stage (some max) none = ok allow
  cvss_stage (some max) (some highest) =
      if services.ge highest max then ok (deny (vulnerable highest max)) else ok allow

  unfoldable pub license_stage : List Bytes → List Bytes → Stage
  license_stage [] licenses = ok allow
  license_stage (banned ∷ rest) licenses =
      let later = license_stage rest licenses in
      if has_license banned licenses then ok (deny (banned_license banned)) else later

  abbrev pub of_report : Policy Score → Result PolicyError (SbomReport Score) → Stage
  of_report policy (err e) = err e
  of_report policy (ok SbomReport.missing) =
      if policy.require_sbom then ok (deny no_sbom) else ok allow
  of_report policy (ok (found_data report)) =
      cvss_stage policy.max_cvss_score (max_cvss services report)
      then license_stage policy.deny_licenses report.licenses

  abbrev is_some : Option Score → Bool
  is_some none = false
  is_some (some x) = true

  abbrev is_empty : List Bytes → Bool
  is_empty [] = true
  is_empty (l ∷ ls) = false

  abbrev pub asks_sbom : Policy Score → Bool
  asks_sbom policy =
      policy.require_sbom || (is_some policy.max_cvss_score || not (is_empty policy.deny_licenses))

  unfoldable pub sbom_stage : Policy Score → Bytes → Stage
  sbom_stage policy manifest_digest =
      if asks_sbom policy
      then of_report policy (evaluate_sbom services manifest_digest)
      else ok allow

  unfoldable pub seccomp_stage : Option Bytes → Stage
  seccomp_stage none = ok allow
  seccomp_stage (some profile) =
      if known_profile profile then ok allow else ok (deny (unknown_profile profile))

  unfoldable pub evaluate_for_image : PolicyEngine Key Score → Policy Score → Bytes → Bytes → Stage
  evaluate_for_image engine policy image_ref manifest_digest =
      signature_stage engine.trusted_keys policy image_ref manifest_digest
      then sbom_stage policy manifest_digest
      then seccomp_stage policy.seccomp_profile

  abbrev pub with_keys : List (CosignKey Key) → Bool → PolicyDecision Score
  with_keys [] required = if required then deny no_trusted_keys else allow
  with_keys (k ∷ keys) required = allow

  unfoldable pub evaluate : PolicyEngine Key Score → Policy Score → PolicyDecision Score
  evaluate engine policy = with_keys engine.trusted_keys policy.required_signature
