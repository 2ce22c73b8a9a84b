-- ===== src/Policy/Decision.antt =====
-- runtime/pullrun-policy/src/lib.rs: what it takes for an image to be allowed.
use mathlib.Core.List.{not-mem-nil}
use pullrun.Base.{
  ◌≡◌, ◌≢◌, refl, inl, inr, true, false, Option, none, some, List, [], ◌∷◌, Bool-cases,
  Option-cases, some-inj, All,
}
use pullrun.Base.Words.{Bytes}
use pullrun.Policy.Signature.{
  Services, SbomComponent, Vulnerability, CosignKey, Result, ok, err, SignatureCheck, valid,
  missing, invalid, PolicyError, check_signature, try_keys, check_lookup, check_archive,
  check_lines,
}
use pullrun.Policy.Signature
use pullrun.Policy.Sbom.{
  SbomReport, SbomData, found_data, higher, max_loop, max_cvss, evaluate_sbom,
}
use pullrun.Policy.Scores.{IsOrder, max_cvss-bounds}
use pullrun.Policy.Sound.{Verified, Accepted, check_signature-Accepted}
use pullrun.Policy.Engine.{
  Policy, PolicyEngine, allow, deny, no_trusted_keys, Stage, ◌then◌, of_check, of_report, asks_sbom,
  signature_stage, cvss_stage, license_stage, sbom_stage, seccomp_stage, known_profile, has_license,
  eq_ignore_ascii_case, evaluate_for_image, with_keys, evaluate,
}

module _ {Key Score : Type 0} (services : Services Key Score) where
  then-allow :
      (a b : Stage services) → (◌then◌ services a b) ≡ ok allow → (a ≡ ok allow) × (b ≡ ok allow)
  then-allow (ok allow) b e = (refl, e)
  then-allow (ok (deny r)) b e = cc
  then-allow (err x) b e = cc

  -- The report has no vulnerability score at the limit or above, and no banned license.
  pub record Clean (policy : Policy Score) (report : SbomData Score) : Type 0 where
    pub scores :
        (max highest : Score)
        → policy.max_cvss_score ≡ some max
        → max_cvss services report ≡ some highest
        → services.ge highest max ≡ false
    pub licenses : All (λ l. has_license l report.licenses ≡ false) policy.deny_licenses

  pub data SbomAllowed (policy : Policy Score) (manifest_digest : Bytes) : Type 0 where
    -- nothing was asked of it
    not_asked : asks_sbom services policy ≡ false → SbomAllowed policy manifest_digest
    -- none is stored, and none is required
    absent :
        evaluate_sbom services manifest_digest ≡ ok SbomReport.missing
        → policy.require_sbom ≡ false
        → SbomAllowed policy manifest_digest
    present :
        (report : SbomData Score)
        → evaluate_sbom services manifest_digest ≡ ok (found_data report)
        → Clean policy report
        → SbomAllowed policy manifest_digest

  pub record Allowed (engine : PolicyEngine Key Score) (policy : Policy Score)
      (image_ref manifest_digest : Bytes) : Type 0 where
    pub signed :
        policy.required_signature ≡ true
        → Accepted services engine.trusted_keys image_ref manifest_digest
    pub sbom : SbomAllowed policy manifest_digest
    pub profile : (p : Bytes) → policy.seccomp_profile ≡ some p → known_profile p ≡ true

  check-valid :
      (c : Result PolicyError SignatureCheck) → of_check services c ≡ ok allow → c ≡ ok valid
  check-valid (ok valid) e = refl
  check-valid (ok missing) e = cc
  check-valid (ok (invalid r)) e = cc
  check-valid (err x) e = cc

  signature-allow :
      (keys : List (CosignKey Key)) (policy : Policy Score) (image_ref manifest_digest : Bytes)
      → signature_stage services keys policy image_ref manifest_digest ≡ ok allow
      → policy.required_signature ≡ true
      → Accepted services keys image_ref manifest_digest
  unfolding signature_stage
  signature-allow keys policy image_ref manifest_digest e r =
      check_signature-Accepted services keys image_ref manifest_digest
        (check-valid (check_signature services keys image_ref manifest_digest) (rw r at e))

  licenses-allow :
      (banned licenses : List Bytes)
      → license_stage services banned licenses ≡ ok allow
      → All (λ l. has_license l licenses ≡ false) banned
  unfolding license_stage
  licenses-allow [] licenses e = tt
  licenses-allow (l ∷ ls) licenses e = elim (Bool-cases (has_license l licenses)) [
    | inl y ↦ cc (rw y at e)
    | inr n ↦ (n, licenses-allow ls licenses (rw n at e))
  ]

  scores-allow :
      (limit highest : Option Score)
      → cvss_stage services limit highest ≡ ok allow
      → (max high : Score) → limit ≡ some max
      → highest ≡ some high
      → services.ge high max ≡ false
  unfolding cvss_stage
  scores-allow none highest e max high l h = cc
  scores-allow (some x) none e max high l h = cc
  scores-allow (some x) (some y) e max high l h = elim (Bool-cases (services.ge y x)) [
    | inl t ↦ cc (rw t at e)
    | inr f ↦ rw (some-inj l, some-inj h) at f
  ]

  report-allow :
      (policy : Policy Score) (manifest_digest : Bytes) (r : Result PolicyError (SbomReport Score))
      → evaluate_sbom services manifest_digest ≡ r
      → of_report services policy r ≡ ok allow
      → SbomAllowed policy manifest_digest
  report-allow policy manifest_digest (err x) v e = cc
  report-allow policy manifest_digest (ok SbomReport.missing) v e =
      elim (Bool-cases policy.require_sbom) [ inl t ↦ cc (rw t at e) | inr f ↦ absent v f ]
  report-allow policy manifest_digest (ok (found_data report)) v e =
      let (s, l) =
        then-allow (cvss_stage services policy.max_cvss_score (max_cvss services report))
          (license_stage services policy.deny_licenses report.licenses) e in
      present report v (record {
        scores = scores-allow policy.max_cvss_score (max_cvss services report) s;
        licenses = licenses-allow policy.deny_licenses report.licenses l;
      })

  sbom-allow :
      (policy : Policy Score) (manifest_digest : Bytes)
      → sbom_stage services policy manifest_digest ≡ ok allow
      → SbomAllowed policy manifest_digest
  unfolding sbom_stage
  sbom-allow policy manifest_digest e = elim (Bool-cases (asks_sbom services policy)) [
    | inr n ↦ not_asked n
    | inl y ↦
        report-allow policy manifest_digest (evaluate_sbom services manifest_digest) refl
          (rw y at e)
  ]

  seccomp-allow :
      (profile : Option Bytes)
      → seccomp_stage services profile ≡ ok allow
      → (p : Bytes) → profile ≡ some p
      → known_profile p ≡ true
  unfolding seccomp_stage
  seccomp-allow none e p h = cc
  seccomp-allow (some q) e p h = elim (Bool-cases (known_profile q)) [
    | inl y ↦ rw (some-inj h) at y
    | inr n ↦ cc (rw n at e)
  ]

  pub evaluate_for_image-Allowed :
      (engine : PolicyEngine Key Score) (policy : Policy Score) (image_ref manifest_digest : Bytes)
      → evaluate_for_image services engine policy image_ref manifest_digest ≡ ok allow
      → Allowed engine policy image_ref manifest_digest
  unfolding evaluate_for_image
  evaluate_for_image-Allowed engine policy image_ref manifest_digest e =
      let (s, rest) =
        then-allow (signature_stage services engine.trusted_keys policy image_ref manifest_digest) _
          e in
      let (b, p) = then-allow (sbom_stage services policy manifest_digest) _ rest in
      record {
        signed = signature-allow engine.trusted_keys policy image_ref manifest_digest s;
        sbom = sbom-allow policy manifest_digest b;
        profile = seccomp-allow policy.seccomp_profile p;
      }

  -- No vulnerability has a score at the limit or above, and no license of the report is a banned one.
  pub record Harmless (policy : Policy Score) (report : SbomData Score) : Type 0 where
    pub scores :
        (max : Score)
        → policy.max_cvss_score ≡ some max
        → All (λ (v : Vulnerability Score). services.ge v.cvss max ≡ false) report.vulnerabilities
    pub licenses :
        All
          (λ banned. All (λ l. eq_ignore_ascii_case l banned ≡ false) report.licenses)
          policy.deny_licenses

  has_license-none :
      (banned : Bytes) (licenses : List Bytes)
      → has_license banned licenses ≡ false
      → All (λ l. eq_ignore_ascii_case l banned ≡ false) licenses
  unfolding has_license
  has_license-none banned [] h = tt
  has_license-none banned (l ∷ ls) h = elim (Bool-cases (eq_ignore_ascii_case l banned)) [
    | inl y ↦ cc (rw y at h)
    | inr n ↦ (n, has_license-none banned ls (rw n at h))
  ]

  none_banned :
      (banned licenses : List Bytes)
      → All (λ b. has_license b licenses ≡ false) banned
      → All (λ b. All (λ l. eq_ignore_ascii_case l b ≡ false) licenses) banned
  none_banned [] licenses all = tt
  none_banned (b ∷ bs) licenses (here, all) =
      (has_license-none b licenses here, none_banned bs licenses all)

  max_loop-some :
      (y : Score) (vs : List (Vulnerability Score))
      → (top : Score) × (max_loop services (some y) vs ≡ some top)
  unfolding max_loop
  max_loop-some y [] = (y, refl)
  max_loop-some y (v ∷ vs) = max_loop-some (higher services (some y) v.cvss) vs

  below_limit :
      (report : SbomData Score) (max : Score)
      → IsOrder services
      → ((top : Score) → max_cvss services report ≡ some top → services.ge top max ≡ false)
      → All (λ (v : Vulnerability Score). services.ge v.cvss max ≡ false) report.vulnerabilities
  unfolding max_cvss max_loop
  below_limit report max order low = elim (Option-cases (max_cvss services report)) [
    | inl n ↦ without report.vulnerabilities n
    | inr (top, e) ↦ max_cvss-bounds services report max top order e (low top e)
  ]
    where
      without :
          (vs : List (Vulnerability Score))
          → max_loop services none vs ≡ none
          → All (λ (v : Vulnerability Score). services.ge v.cvss max ≡ false) vs
      without [] n = tt
      without (v ∷ vs) n = let (top, e) = max_loop-some v.cvss vs in cc (e, n)

  pub data SbomSafe (policy : Policy Score) (manifest_digest : Bytes) : Type 0 where
    unasked : asks_sbom services policy ≡ false → SbomSafe policy manifest_digest
    unstored :
        evaluate_sbom services manifest_digest ≡ ok SbomReport.missing
        → policy.require_sbom ≡ false
        → SbomSafe policy manifest_digest
    harmless :
        (report : SbomData Score)
        → evaluate_sbom services manifest_digest ≡ ok (found_data report)
        → Harmless policy report
        → SbomSafe policy manifest_digest

  pub record Safe (engine : PolicyEngine Key Score) (policy : Policy Score)
      (image_ref manifest_digest : Bytes) : Type 0 where
    pub signed :
        policy.required_signature ≡ true
        → Accepted services engine.trusted_keys image_ref manifest_digest
    pub sbom : SbomSafe policy manifest_digest
    pub profile : (p : Bytes) → policy.seccomp_profile ≡ some p → known_profile p ≡ true

  allowed-SbomSafe :
      (policy : Policy Score) (manifest_digest : Bytes)
      → IsOrder services
      → SbomAllowed policy manifest_digest
      → SbomSafe policy manifest_digest
  allowed-SbomSafe policy manifest_digest order (not_asked n) = unasked n
  allowed-SbomSafe policy manifest_digest order (absent e n) = unstored e n
  allowed-SbomSafe policy manifest_digest order (present report e clean) =
      harmless report e (record {
        scores = λ max limit. below_limit report max order (λ top h. clean.scores max top limit h);
        licenses = none_banned policy.deny_licenses report.licenses clean.licenses;
      })

  -- Where no score is NaN, an image that is allowed has an accepted signature where one is required;
  -- its SBOM, where the policy asks anything of it, lists no vulnerability at or above the limit and no
  -- banned license in whatever case, or is missing and not required; and the seccomp profile, if one is
  -- named, is known.
  pub evaluate_for_image-Safe :
      (engine : PolicyEngine Key Score) (policy : Policy Score) (image_ref manifest_digest : Bytes)
      → IsOrder services
      → evaluate_for_image services engine policy image_ref manifest_digest ≡ ok allow
      → Safe engine policy image_ref manifest_digest
  evaluate_for_image-Safe engine policy image_ref manifest_digest order e =
      let a = evaluate_for_image-Allowed engine policy image_ref manifest_digest e in
      record {
        signed = a.signed;
        sbom = allowed-SbomSafe policy manifest_digest order a.sbom;
        profile = a.profile;
      }

  no_key :
      (keys : List (CosignKey Key)) (blob : Signature.SignatureBlob)
      → keys ≡ []
      → ¬ Verified services keys blob
  no_key keys blob e v = not-mem-nil (rw e at v.trusted)

  -- A workload that `evaluate` denies for want of trusted keys is allowed for no image.
  pub evaluate-denies :
      (engine : PolicyEngine Key Score) (policy : Policy Score) (image_ref manifest_digest : Bytes)
      → evaluate services engine policy ≡ deny no_trusted_keys
      → evaluate_for_image services engine policy image_ref manifest_digest ≢ ok allow
  unfolding evaluate
  evaluate-denies engine policy image_ref manifest_digest e allowed =
      decide engine.trusted_keys refl e
    where
      decide :
          (keys : List (CosignKey Key))
          → engine.trusted_keys ≡ keys
          → with_keys services keys policy.required_signature ≡ deny no_trusted_keys
          → ⊥
      decide (k ∷ ks) q h = cc
      decide [] q h = elim (Bool-cases policy.required_signature) [
        | inr f ↦ cc (rw f at h)
        | inl r ↦
            let a =
              (evaluate_for_image-Allowed engine policy image_ref manifest_digest allowed).signed
                r in
            no_key engine.trusted_keys a.blob q a.signed
      ]
