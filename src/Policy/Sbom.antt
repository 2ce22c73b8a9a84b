-- ===== src/Policy/Sbom.antt =====
-- runtime/pullrun-policy/src/sbom.rs: `evaluate_sbom` and the report that it makes.
use pullrun.Base.{
  Bool, true, false, Option, none, some, List, [], ◌∷◌, ◌++◌, ◌==◌, ltb, if◌then◌else◌,
}
use pullrun.Base.Words.{Bytes}
use pullrun.Base.Text.{eq_bytes}
use pullrun.Policy.Signature.{
  Services, SbomComponent, Vulnerability, SbomBlob, Lookup, found, not_found, failed, Result, ok,
  err, PolicyError, store, sbom_missing,
}

pub record SbomData (Score : Type 0) : Type 0 where
  pub components : List SbomComponent
  pub vulnerabilities : List (Vulnerability Score)
  pub licenses : List Bytes

pub data SbomReport (Score : Type 0) : Type 0 where
  missing : SbomReport Score
  found_data : SbomData Score → SbomReport Score

-- The order of `str`: by bytes, and a prefix first.
unfoldable pub le_bytes : Bytes → Bytes → Bool
le_bytes [] t = true
le_bytes (a ∷ s) [] = false
le_bytes (a ∷ s) (b ∷ t) =
    let rest = le_bytes s t in if ltb a b then true else if a == b then rest else false

-- `licenses.sort()`
unfoldable pub place : Bytes → List Bytes → List Bytes
place x [] = x ∷ []
place x (y ∷ ys) = let rest = place x ys in if le_bytes x y then x ∷ y ∷ ys else y ∷ rest

unfoldable pub sort : List Bytes → List Bytes
sort [] = []
sort (x ∷ xs) = place x (sort xs)

-- `licenses.dedup()`: of equal neighbours the first stays.
unfoldable pub dedup_from : Bytes → List Bytes → List Bytes
dedup_from x [] = []
dedup_from x (y ∷ ys) = let rest = dedup_from y ys in if eq_bytes x y then rest else y ∷ rest

unfoldable pub dedup : List Bytes → List Bytes
dedup [] = []
dedup (x ∷ xs) = x ∷ dedup_from x xs

unfoldable pub all_licenses : List SbomComponent → List Bytes
all_licenses [] = []
all_licenses (c ∷ cs) = c.licenses ++ all_licenses cs

module _ {Key Score : Type 0} (services : Services Key Score) where
  -- `acc.map_or(x, |y| if x > y { x } else { y })`
  abbrev pub higher : Option Score → Score → Score
  higher none x = x
  higher (some y) x = if services.gt x y then x else y

  unfoldable pub max_loop : Option Score → List (Vulnerability Score) → Option Score
  max_loop acc [] = acc
  max_loop acc (v ∷ vs) = max_loop (some (higher acc v.cvss)) vs

  unfoldable pub max_cvss : SbomData Score → Option Score
  max_cvss data_ = max_loop none data_.vulnerabilities

  unfoldable pub sbom_digest_for : Bytes → Bytes
  sbom_digest_for manifest_digest = services.sha256 (
      (b'p' ∷ b'u' ∷ b'l' ∷ b'l' ∷ b'r' ∷ b'u' ∷ b'n' ∷ b'.' ∷ b's' ∷ b'b' ∷ b'o' ∷ b'm' ∷ b'.'
        ∷ b'v' ∷ b'1' ∷ 10 ∷ [])
      ++ manifest_digest)

  unfoldable pub report_of : Option (SbomBlob Score) → Result PolicyError (SbomReport Score)
  report_of none = err sbom_missing
  report_of (some blob) = ok (
      found_data (record {
        components = blob.components;
        vulnerabilities = blob.vulnerabilities;
        licenses = dedup (sort (all_licenses blob.components));
      }))

  unfoldable pub read_report : Lookup → Result PolicyError (SbomReport Score)
  read_report (found bytes) = report_of (services.read_sbom bytes)
  read_report not_found = ok missing
  read_report failed = err store

  unfoldable pub evaluate_sbom : Bytes → Result PolicyError (SbomReport Score)
  evaluate_sbom manifest_digest = read_report (services.get_blob (sbom_digest_for manifest_digest))
