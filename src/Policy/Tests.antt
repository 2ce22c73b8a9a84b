-- ===== src/Policy/Tests.antt =====
-- runtime/pullrun-policy: a signed image with an SBOM, under a policy that asks for both.
use pullrun.Base.{
  ℕ, ◌≡◌, ◌≢◌, refl, true, false, none, some, [], ◌∷◌, if◌then◌else◌, arith, ltb, leb, replicate,
}
use pullrun.Base.Words.{Bytes}
use pullrun.Base.Text.{eq_bytes}
use pullrun.Policy.Signature.{
  Services, SignatureBlob, CosignKey, SbomBlob, SbomComponent, Vulnerability, ok, found, valid,
  canonical_payload, signature_digest_for, check_signature,
}
use pullrun.Policy.Sbom.{
  SbomData, found_data, max_cvss, max_loop, evaluate_sbom, sbom_digest_for, report_of, read_report,
  all_licenses, sort, place, dedup, dedup_from, le_bytes,
}
use pullrun.Policy.Engine.{
  Policy, PolicyEngine, allow, deny, no_trusted_keys, evaluate, evaluate_for_image, signature_stage,
  sbom_stage, seccomp_stage, cvss_stage, license_stage, has_license, eq_ignore_ascii_case,
  lowercase,
}
use pullrun.Policy.Binding.{check_signature-no_swap, check_signature-accepts}
use pullrun.Policy.Decision.{Safe, evaluate_for_image-Safe}
use pullrun.Policy.Scores.{IsOrder}

abbrev image : Bytes
image = b'a' ∷ []

abbrev manifest : Bytes
manifest = b'd' ∷ []

-- Signed by the key 7, whose id is 1.
abbrev signature_blob : SignatureBlob
signature_blob = record {
  key_id = 1 ∷ [];
  payload = canonical_payload image manifest;
  signature = replicate 64 0;
}

abbrev component : SbomComponent
component = record {
  name = b'c' ∷ [];
  version = [];
  licenses = (b'M' ∷ []) ∷ (b'A' ∷ []) ∷ (b'M' ∷ []) ∷ [];
}

abbrev low : Vulnerability ℕ
low = record { id = []; component = b'c' ∷ []; cvss = 31 }

abbrev high : Vulnerability ℕ
high = record { id = []; component = b'c' ∷ []; cvss = 62 }

abbrev sbom : SbomBlob ℕ
sbom = record { format = []; components = component ∷ []; vulnerabilities = low ∷ high ∷ [] }

-- The digest of the signature starts with "pullrun.c", that of the SBOM with "pullrun.s".
abbrev lookup : Bytes → Bytes
lookup (a ∷ b ∷ c ∷ d ∷ e ∷ f ∷ g ∷ h ∷ i ∷ rest) = i ∷ []
lookup _ = []

abbrev services : Services ℕ ℕ
services = record {
  sha256 = λ b. b;
  verify = λ k payload signature. if eq_bytes (k ∷ []) (7 ∷ []) then none else some (b'v' ∷ []);
  read_signature = λ b. if eq_bytes b (b'c' ∷ []) then some signature_blob else none;
  read_sbom = λ b. if eq_bytes b (b's' ∷ []) then some sbom else none;
  get_blob = λ b. found (lookup b);
  gt = λ x y. ltb y x;
  ge = λ x y. leb y x;
}

abbrev other : CosignKey ℕ
other = record { id = 2 ∷ []; verifying_key = 9 }

abbrev trusted : CosignKey ℕ
trusted = record { id = 1 ∷ []; verifying_key = 7 }

signature-read :
    services.read_signature (lookup (signature_digest_for services image)) ≡ some signature_blob
unfolding signature_digest_for eq_bytes
signature-read = refl

ids-ne : ◌≢◌ {A = Bytes} (2 ∷ []) (1 ∷ [])
ids-ne e = cc

verified : services.verify 7 (canonical_payload image manifest) (replicate 64 0) ≡ none
unfolding eq_bytes
verified = refl

accepted : check_signature services (other ∷ trusted ∷ []) image manifest ≡ ok valid
accepted =
    check_signature-accepts services (other ∷ []) [] trusted image manifest
      (lookup (signature_digest_for services image)) signature_blob refl signature-read refl
      (omega arith, tt) (omega arith, tt) (ids-ne, tt) refl refl verified

check_signature-no_swap_example : (image ≡ image) × (manifest ≡ manifest)
check_signature-no_swap_example =
    check_signature-no_swap services (other ∷ trusted ∷ []) image manifest image manifest
      (lookup (signature_digest_for services image)) signature_blob refl signature-read refl
      (omega arith, tt) (omega arith, tt) accepted

-- Scores from 70 on and the license "B" are denied.
abbrev policy : Policy ℕ
policy = record {
  required_signature = true;
  readonly_rootfs = false;
  no_new_privileges = false;
  seccomp_profile = none;
  allowed_syscalls = [];
  labels = [];
  max_cvss_score = some 70;
  trusted_signers = [];
  deny_licenses = (b'B' ∷ []) ∷ [];
  require_sbom = true;
}

abbrev engine : PolicyEngine ℕ ℕ
engine = record { default_policy = policy; trusted_keys = other ∷ trusted ∷ [] }

abbrev report : SbomData ℕ
report = record {
  components = component ∷ [];
  vulnerabilities = low ∷ high ∷ [];
  licenses = (b'A' ∷ []) ∷ (b'M' ∷ []) ∷ [];
}

report-read : evaluate_sbom services manifest ≡ ok (found_data report)
unfolding evaluate_sbom sbom_digest_for read_report report_of all_licenses sort place le_bytes dedup
    dedup_from eq_bytes
report-read = refl

highest : max_cvss services report ≡ some 62
unfolding max_cvss max_loop
highest = refl

stages : sbom_stage services policy manifest ≡ ok allow
unfolding sbom_stage cvss_stage license_stage has_license eq_ignore_ascii_case lowercase eq_bytes
stages = rw (report-read, highest)

allowed : evaluate_for_image services engine policy image manifest ≡ ok allow
unfolding evaluate_for_image signature_stage seccomp_stage
allowed = rw (accepted, stages)

abbrev keyless : PolicyEngine ℕ ℕ
keyless = record engine { trusted_keys = [] }

keyless-denied : evaluate services keyless policy ≡ deny no_trusted_keys
unfolding evaluate
keyless-denied = refl

services-IsOrder : IsOrder services
services-IsOrder = record { below = λ x y m p q. ground arith; above = λ x y m p q. ground arith }

evaluate_for_image-Safe_example : Safe services engine policy image manifest
evaluate_for_image-Safe_example =
    evaluate_for_image-Safe services engine policy image manifest services-IsOrder allowed
